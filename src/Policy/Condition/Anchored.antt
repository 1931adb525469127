-- ===== src/Policy/Condition/Anchored.antt =====
-- internal/policy/engine.go: `callerAnchored`, `constrains` and the two bounds that it is used with.
use gh_token_broker.Base.{
  ℕ, zero, suc, Bool, true, false, not, ◌&&◌, ◌||◌, Option, none, some, List, [], ◌∷◌, ◌++◌, Str,
  codes, ◌==◌, if◌then◌else◌, eqb, all, length, contains,
}
use gh_token_broker.Perm.Levels.{found}
use gh_token_broker.Policy.Ast.{
  Expr, Exprs, call, member, list, nil, cons, entries, equals, op_in, add, logical_or, logical_and,
}
use gh_token_broker.Policy.Reads.{
  var_caller, var_request, is_resource_ref, references, string_literal, is_string_literal,
  caller_claim,
}

-- The operands of a chain of additions that nests to the left, in order.
unfoldable pub chain : Expr → List Expr
chain (call fn (cons a (cons b nil))) =
    if fn == add then chain a ++ (b ∷ []) else call fn (cons a (cons b nil)) ∷ []
chain (member target fn (cons a (cons b nil))) =
    if fn == add then chain a ++ (b ∷ []) else member target fn (cons a (cons b nil)) ∷ []
chain e = e ∷ []

abbrev pub or_blank : Option Str → Str
or_blank none = []
or_blank (some s) = s

-- What `read` gives for the operand at the position, and "" where there is none.
abbrev pub read_at : (Expr → Option Str) → ℕ → List Expr → Str
read_at read i [] = []
read_at read zero (e ∷ es) = or_blank (read e)
read_at read (suc i) (e ∷ es) = read_at read i es

abbrev pub is_operand : Expr → Bool
is_operand e = found (caller_claim e) || is_string_literal e

-- `strings.HasPrefix(s, "/")`
abbrev pub starts_slash : Str → Bool
starts_slash [] = false
starts_slash (c ∷ s) = eqb c b'/'

-- the `switch` of `callerAnchored`
unfoldable pub anchors : List Expr → Bool
anchors ops =
    let first = read_at string_literal 0 ops in
    let claim = read_at caller_claim 1 ops in
    if first == codes "repo:" && claim == codes "repository"
    then true
    else if first == codes "repo:" && claim == codes "repository_owner"
    then starts_slash (read_at string_literal 2 ops)
    else if first == codes "org:" && claim == codes "repository_owner"
    then eqb (length ops) 2
    else false

unfoldable pub caller_anchored : Expr → Bool
unfolding anchors
caller_anchored e = if all is_operand (chain e) then anchors (chain e) else false

abbrev pub Bound : Type 0
Bound = Expr → Expr → Bool

abbrev pub pair_bound : Bound → List Expr → Bool
pair_bound bound (a ∷ b ∷ []) = bound a b || bound b a
pair_bound bound _ = false

-- The result for the operator `fn`: whether all operands constrain, whether one does, and whether
-- the two operands are bound.
unfoldable pub constrains_by : Str → Bool → Bool → Bool → Bool
constrains_by fn every one pair =
    if fn == logical_or
    then every
    else if fn == logical_and
    then one
    else if fn == equals || fn == op_in
    then pair
    else false

unfoldable mutual
  pub constrains : Bound → Expr → Bool
  constrains bound (call fn args) =
      constrains_by fn (every_constrains bound args) (one_constrains bound args)
        (pair_bound bound (entries args))
  constrains bound (member target fn args) =
      constrains_by fn (constrains bound target && every_constrains bound args)
        (constrains bound target || one_constrains bound args)
        (pair_bound bound (target ∷ entries args))
  constrains bound _ = false

  pub every_constrains : Bound → Exprs → Bool
  every_constrains bound nil = true
  every_constrains bound (cons e es) = constrains bound e && every_constrains bound es

  pub one_constrains : Bound → Exprs → Bool
  one_constrains bound nil = false
  one_constrains bound (cons e es) = constrains bound e || one_constrains bound es

unfoldable pub bounds_resource : Bound
bounds_resource ref other = is_resource_ref ref && not (references other var_request)

abbrev pub anchored_operand : Expr → Bool
anchored_operand (list elements) = all caller_anchored (entries elements)
anchored_operand e = caller_anchored e

abbrev pub bounds_claim : List Str → Option Str → Expr → Expr → Bool
bounds_claim identity (some claim) ref other =
    contains identity claim && not (references other var_caller)
bounds_claim identity none ref other = if is_resource_ref ref then anchored_operand other else false

unfoldable pub bounds_caller : List Str → Bound
bounds_caller identity ref other = bounds_claim identity (caller_claim ref) ref other
