-- ===== src/Policy/Reads.antt =====
-- internal/policy/engine.go: the matchers on expressions that the checks of a condition share.
use gh_token_broker.Base.{
  ℕ, Bool, false, not, ◌&&◌, ◌||◌, Option, none, some, List, [], ◌∷◌, Str, codes, ◌==◌,
  if◌then◌else◌, eqb, any, all, is_empty,
}
use gh_token_broker.Perm.Levels.{found}
use gh_token_broker.Policy.Ast.{
  text, Expr, Exprs, literal, ident, select, call, member, list, nil, cons, Node, children, entries,
  match_descendants, equals, op_in, index,
}

abbrev pub var_caller : Str
var_caller = codes "caller"

abbrev pub var_request : Str
var_request = codes "request"

-- `strings.TrimPrefix(s, ".")`
abbrev pub trim_dot : Str → Str
trim_dot [] = []
trim_dot (c ∷ s) = if eqb c b'.' then s else c ∷ s

unfoldable pub is_ident : Expr → Str → Bool
is_ident (ident x) name = trim_dot x == name
is_ident _ name = false

unfoldable pub is_request_field : Expr → Str → Bool
is_request_field (select operand f test_only) field = f == field && is_ident operand var_request
is_request_field _ field = false

abbrev pub is_test_only : Expr → Bool
is_test_only (select operand field test_only) = test_only
is_test_only _ = false

unfoldable pub is_resource_ref : Expr → Bool
is_resource_ref e =
    (is_request_field e (codes "resource") || is_request_field e (codes "resources"))
    && not (is_test_only e)

-- `len(MatchDescendants(e, identMatcher(name))) > 0`
unfoldable pub references : Expr → Str → Bool
references e name = not (is_empty (match_descendants e (λ n. is_ident n.expr name)))

unfoldable pub string_literal : Expr → Option Str
string_literal (literal (text s)) = some s
string_literal _ = none

unfoldable pub is_string_literal : Expr → Bool
is_string_literal e = found (string_literal e)

-- the claim that `caller["<claim>"]` reads
unfoldable pub indexed_claim : Str → Exprs → Option Str
indexed_claim fn (cons a (cons b nil)) =
    if fn == index && is_ident a var_caller then string_literal b else none
indexed_claim fn _ = none

unfoldable pub caller_claim : Expr → Option Str
caller_claim (select operand field test_only) =
    if not test_only && is_ident operand var_caller then some field else none
caller_claim (call fn args) = indexed_claim fn args
caller_claim (member target fn args) = indexed_claim fn args
caller_claim _ = none

abbrev pub all_literals : Expr → Bool
all_literals (list elements) = all is_string_literal (entries elements)
all_literals _ = false

-- The comparison `fn` of the operands, of which the one at `position` is the resource.
unfoldable pub literal_comparison : Str → ℕ → List Expr → Bool
literal_comparison fn position (a ∷ b ∷ []) =
    if fn == equals
    then is_string_literal (if eqb position 0 then b else a)
    else if fn == op_in
    then eqb position 0 && all_literals b
    else false
literal_comparison fn position _ = false

unfoldable pub compared_in : Expr → ℕ → Bool
compared_in (call fn args) position = literal_comparison fn position (children (call fn args))
compared_in (member target fn args) position =
    literal_comparison fn position (children (member target fn args))
compared_in _ position = false

-- Decides on the ancestors of an identifier.
unfoldable pub compared_above : List (Expr × ℕ) → Bool
compared_above ((sel, i) ∷ (cmp, j) ∷ up) = is_resource_ref sel && compared_in cmp j
compared_above _ = false

unfoldable pub compared_to_literal : Node → Bool
compared_to_literal n = compared_above n.above

abbrev pub is_shape_fn : Str → Bool
is_shape_fn fn = fn == codes "size" || fn == index

unfoldable pub resources_shape : Expr → Bool
resources_shape (call fn args) =
    is_shape_fn fn && any (λ e. is_request_field e (codes "resources")) (entries args)
resources_shape (member target fn args) =
    is_shape_fn fn && any (λ e. is_request_field e (codes "resources")) (target ∷ entries args)
resources_shape _ = false
