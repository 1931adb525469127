-- ===== src/Policy/Condition/Semantics.antt =====
-- What the CEL specification says of the value of a condition, as far as the checks in
-- internal/policy/engine.go rely on it. The evaluator itself is a parameter.
use gh_token_broker.Base.{
  ◌≡◌, ◌≢◌, Bool, true, false, List, [], ◌∷◌, ◌++◌, Str, codes, Outcome, ok, Some, some, All,
}
use gh_token_broker.Base.Map.{lookup}
use gh_token_broker.Policy.Ast.{
  text, Expr, Exprs, literal, select, call, member, list, nil, cons, entries, logical_or,
  logical_and, equals, op_in, add, index,
}
use gh_token_broker.Policy.Reads.{var_caller, var_request, is_ident}
use gh_token_broker.Policy.Engine.{Vars}

mutual
  pub data Value : Type 0 where
    truth : Bool → Value
    word : Str → Value
    items : Values → Value
    -- a value of another type, as it is printed
    opaque : Str → Value

  pub data Values : Type 0 where
    no_items : Values
    item : Value → Values → Values

abbrev pub each_value : Values → List Value
each_value no_items = []
each_value (item v vs) = v ∷ each_value vs

-- Values of different types are not equal; of the equality of other types nothing is said.
unfoldable mutual
  pub Equal : Value → Value → Type 0
  Equal (truth a) (truth b) = a ≡ b
  Equal (word s) (word t) = s ≡ t
  Equal (items vs) (items ws) = AllEqual vs ws
  Equal (opaque s) (opaque t) = Unit
  Equal _ _ = ⊥

  pub AllEqual : Values → Values → Type 0
  AllEqual no_items no_items = Unit
  AllEqual (item v vs) (item w ws) = Equal v w × AllEqual vs ws
  AllEqual _ _ = ⊥

-- What `+` gives; nothing is said of the sum of other types.
abbrev pub AddsTo : Value → Value → Value → Type 0
AddsTo (word s) (word t) v = v ≡ word (s ++ t)
AddsTo (word s) _ v = ⊥
AddsTo _ (word t) v = ⊥
AddsTo _ _ v = Unit

-- What `in` tells: an item of a list, or a key of a map.
abbrev pub IsMember : Value → Value → Type 0
IsMember v (items ws) = Some (Equal v) (each_value ws)
IsMember v (opaque m) = Unit
IsMember v _ = ⊥

abbrev pub IsOperator : Str → Type 0
IsOperator fn = Some (λ o. fn ≡ o) (logical_or ∷ logical_and ∷ equals ∷ op_in ∷ add ∷ index ∷ [])

abbrev pub words : List Str → Values
words [] = no_items
words (s ∷ ss) = item (word s) (words ss)

-- The expressions have the values, one by one.
abbrev pub Pointwise :
    {F : Type 0} → (Expr → Vars → Outcome F Value) → Vars → Exprs → Values → Type 0
Pointwise eval x nil no_items = Unit
Pointwise eval x (cons e es) (item v vs) = (eval e x ≡ ok v) × Pointwise eval x es vs
Pointwise eval x _ _ = ⊥

-- An evaluator of checked expressions that keeps to the documented meaning of the operators.
pub record Semantics : Type 1 where
  pub Failure : Type 0
  pub eval : Expr → Vars → Outcome Failure Value
  pub literal_text : (s : Str) (x : Vars) → eval (literal (text s)) x ≡ ok (word s)
  -- a disjunction is only true if an operand is
  pub or_true :
      (args : Exprs) (x : Vars)
      → eval (call logical_or args) x ≡ ok (truth true)
      → Some (λ e. eval e x ≡ ok (truth true)) (entries args)
  -- a conjunction is only true if all operands are
  pub and_true :
      (args : Exprs) (x : Vars)
      → eval (call logical_and args) x ≡ ok (truth true)
      → All (λ e. eval e x ≡ ok (truth true)) (entries args)
  pub equals_true :
      (a b : Expr) (x : Vars)
      → eval (call equals (cons a (cons b nil))) x ≡ ok (truth true)
      → (v : Value) × (w : Value) × (eval a x ≡ ok v) × (eval b x ≡ ok w) × Equal v w
  pub in_true :
      (a b : Expr) (x : Vars)
      → eval (call op_in (cons a (cons b nil))) x ≡ ok (truth true)
      → (v : Value) × (w : Value) × (eval a x ≡ ok v) × (eval b x ≡ ok w) × IsMember v w
  -- the operands of an addition have values, and a string adds to a string only
  pub add_values :
      (a b : Expr) (x : Vars) (v : Value)
      → eval (call add (cons a (cons b nil))) x ≡ ok v
      → (v1 : Value) × (v2 : Value) × (eval a x ≡ ok v1) × (eval b x ≡ ok v2) × AddsTo v1 v2 v
  pub list_items :
      (es : Exprs) (x : Vars) (v : Value)
      → eval (list es) x ≡ ok v
      → (vs : Values) × (v ≡ items vs) × Pointwise eval x es vs
  -- operators are not called with a target
  pub no_member :
      (target : Expr) (fn : Str) (args : Exprs) (x : Vars) (v : Value)
      → IsOperator fn
      → eval (member target fn args) x ≢ ok v
  -- the variables, as `Evaluate` binds them
  pub caller_field :
      (e : Expr) (claim : Str) (x : Vars) (v : Value)
      → is_ident e var_caller ≡ true
      → eval (select e claim false) x ≡ ok v
      → (s : Str) × (v ≡ word s) × (lookup claim x.caller ≡ some s)
  pub caller_index :
      (e : Expr) (claim : Str) (x : Vars) (v : Value)
      → is_ident e var_caller ≡ true
      → eval (call index (cons e (cons (literal (text claim)) nil))) x ≡ ok v
      → (s : Str) × (v ≡ word s) × (lookup claim x.caller ≡ some s)
  pub request_resource :
      (e : Expr) (x : Vars) (v : Value)
      → is_ident e var_request ≡ true
      → eval (select e (codes "resource") false) x ≡ ok v
      → v ≡ word x.request.resource
  pub request_resources :
      (e : Expr) (x : Vars) (v : Value)
      → is_ident e var_request ≡ true
      → eval (select e (codes "resources") false) x ≡ ok v
      → v ≡ items (words x.request.resources)
