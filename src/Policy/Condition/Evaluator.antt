-- ===== src/Policy/Condition/Evaluator.antt =====
-- An evaluator of the operators that keeps to their documented meaning.
use gh_token_broker.Base.{
  ◌≡◌, inl, inr, refl, ap, Bool, true, false, ◌&&◌, Option, none, some, ◌++◌, Str, codes, ◌==◌,
  ==_iff, if◌then◌else◌, Outcome, ok, err, ◌>>=◌, >>=-eq-ok, Some, All, arith, any, all, Bool-cases,
}
use gh_token_broker.Base.Map.{lookup}
use gh_token_broker.Policy.Ast.{
  Expr, Exprs, literal, ident, select, call, member, list, mapping, message, comprehension, nil,
  cons, text, other, entries, logical_or, logical_and, equals, op_in, add, index,
}
use gh_token_broker.Policy.Reads.{trim_dot, var_caller, var_request, is_ident}
use gh_token_broker.Policy.Engine.{Vars}
use gh_token_broker.Policy.Condition.Semantics.{
  Semantics, Value, Values, truth, word, items, opaque, no_items, item, each_value, words, Equal,
  IsMember, AddsTo, Pointwise,
}

abbrev pub Result : Type 0
Result = Outcome (Unit {0}) Value

abbrev pub is_true : Value → Bool
is_true (truth b) = b
is_true _ = false

-- Only strings are compared.
abbrev pub same : Value → Value → Bool
same (word s) (word t) = s == t
same _ _ = false

abbrev pub contains_value : Value → Value → Bool
contains_value v (items ws) = any (same v) (each_value ws)
contains_value v _ = false

abbrev pub sum : Value → Value → Result
sum (word s) (word t) = ok (word (s ++ t))
sum _ _ = err tt

abbrev pub binary : (Value → Value → Result) → Values → Result
binary f (item v (item w no_items)) = f v w
binary f _ = err tt

abbrev pub apply : Str → Values → Result
apply fn vs =
    if fn == logical_or
    then ok (truth (any is_true (each_value vs)))
    else if fn == logical_and
    then ok (truth (all is_true (each_value vs)))
    else if fn == equals
    then binary (λ v w. ok (truth (same v w))) vs
    else if fn == op_in
    then binary (λ v w. ok (truth (contains_value v w))) vs
    else if fn == add
    then binary sum vs
    else err tt

abbrev pub word_of : Option Str → Result
word_of none = err tt
word_of (some s) = ok (word s)

abbrev pub field_of : Expr → Str → Vars → Result
field_of operand field x =
    if is_ident operand var_caller
    then word_of (lookup field x.caller)
    else if is_ident operand var_request && field == codes "resource"
    then ok (word x.request.resource)
    else if is_ident operand var_request && field == codes "resources"
    then ok (items (words x.request.resources))
    else err tt

unfoldable mutual
  pub run : Expr → Vars → Result
  run (literal (text s)) x = ok (word s)
  run (literal (other s)) x = ok (opaque s)
  run (select operand field false) x = field_of operand field x
  run (call fn args) x = run_all args x >>= apply fn
  run (list es) x = run_all es x >>= λ vs. ok (items vs)
  run _ x = err tt

  pub run_all : Exprs → Vars → Outcome (Unit {0}) Values
  run_all nil x = ok no_items
  run_all (cons e es) x = do v ← run e x; vs ← run_all es x; ok (item v vs)

pub run_all-Pointwise :
    (es : Exprs) (x : Vars) (vs : Values) → run_all es x ≡ ok vs → Pointwise run x es vs
unfolding run
run_all-Pointwise nil x no_items h = tt
run_all-Pointwise nil x (item v vs) h = cc
run_all-Pointwise (cons e es) x vs h =
    let (v, hv, h') = >>=-eq-ok (run e x) _ h in
    let (ws, hs, fin) = >>=-eq-ok (run_all es x) _ h' in
    let shape : vs ≡ item v ws = cc in rw shape (hv, run_all-Pointwise es x ws hs)

is_true_truth : (v : Value) → is_true v ≡ true → v ≡ truth true
is_true_truth (truth b) h = ap truth h
is_true_truth (word s) h = cc
is_true_truth (items vs) h = cc
is_true_truth (opaque s) h = cc

pub Some-true :
    (es : Exprs) (x : Vars) (vs : Values)
    → Pointwise run x es vs
    → any is_true (each_value vs) ≡ true
    → Some (λ e. run e x ≡ ok (truth true)) (entries es)
Some-true nil x no_items h t = cc
Some-true nil x (item v vs) h t = absurd h
Some-true (cons e es) x no_items h t = absurd h
Some-true (cons e es) x (item v vs) (h, hs) t = elim (Bool-cases (is_true v)) [
  | inl is ↦ inl (cc (is_true_truth v is))
  | inr is_not ↦ inr (Some-true es x vs hs (ground arith))
]

pub all-true :
    (es : Exprs) (x : Vars) (vs : Values)
    → Pointwise run x es vs
    → all is_true (each_value vs) ≡ true
    → All (λ e. run e x ≡ ok (truth true)) (entries es)
all-true nil x vs h t = tt
all-true (cons e es) x no_items h t = absurd h
all-true (cons e es) x (item v vs) (h, hs) t =
    (cc (is_true_truth v (ground arith)), all-true es x vs hs (ground arith))

pub same-Equal : (v w : Value) → same v w ≡ true → Equal v w
unfolding Equal
same-Equal (word s) (word t) h = (==_iff s t).0 h
same-Equal (word s) (truth b) h = absurd (cc h)
same-Equal (word s) (items b) h = absurd (cc h)
same-Equal (word s) (opaque b) h = absurd (cc h)
same-Equal (truth b) w h = absurd (cc h)
same-Equal (items b) w h = absurd (cc h)
same-Equal (opaque b) w h = absurd (cc h)

any-Some :
    (v : Value) (ws : Values) → any (same v) (each_value ws) ≡ true → Some (Equal v) (each_value ws)
any-Some v no_items h = cc
any-Some v (item w ws) h = elim (Bool-cases (same v w)) [
  | inl is ↦ inl (same-Equal v w is)
  | inr is_not ↦ inr (any-Some v ws (ground arith))
]

-- The operands of a binary operator that has a value.
pub binary_run :
    (fn : Str) (a b : Expr) (x : Vars) (u : Value)
    → run (call fn (cons a (cons b nil))) x ≡ ok u
    → (v : Value) × (w : Value) × (run a x ≡ ok v)
      × (run b x ≡ ok w)
      × (apply fn (item v (item w no_items)) ≡ ok u)
unfolding run
binary_run fn a b x u h =
    let (vs, hvs, h1) = >>=-eq-ok (run_all (cons a (cons b nil)) x) (apply fn) h in
    let (v, hv, h2) = >>=-eq-ok (run a x) _ hvs in
    let (ws, hws, h3) = >>=-eq-ok (run_all (cons b nil) x) _ h2 in
    let (w, hw, h4) = >>=-eq-ok (run b x) _ hws in
    let shape : vs ≡ item v (item w no_items) = cc in (v, w, hv, hw, rw shape at h1)

pub truth_injective : {a b : Bool} → ◌≡◌ {A = Result} (ok (truth a)) (ok (truth b)) → a ≡ b
truth_injective h = cc

pub contains-IsMember : (v w : Value) → contains_value v w ≡ true → IsMember v w
contains-IsMember v (items ws) h = any-Some v ws h
contains-IsMember v (truth b) h = cc
contains-IsMember v (word s) h = cc
contains-IsMember v (opaque s) h = tt

pub sum-AddsTo : (v w u : Value) → sum v w ≡ ok u → AddsTo v w u
sum-AddsTo (word s) (word t) u h = cc
sum-AddsTo (word s) (truth t) u h = absurd (cc h)
sum-AddsTo (word s) (items t) u h = absurd (cc h)
sum-AddsTo (word s) (opaque t) u h = absurd (cc h)
sum-AddsTo (truth s) w u h = absurd (cc h)
sum-AddsTo (items s) w u h = absurd (cc h)
sum-AddsTo (opaque s) w u h = absurd (cc h)

pub word_of-ok :
    (o : Option Str) (v : Value) → word_of o ≡ ok v → (s : Str) × (v ≡ word s) × (o ≡ some s)
word_of-ok none v h = absurd (cc h)
word_of-ok (some s) v h = (s, cc, refl)

pub caller_apart : (e : Expr) → is_ident e var_request ≡ true → is_ident e var_caller ≡ false
unfolding is_ident
caller_apart (ident n) h = rw ((==_iff (trim_dot n) var_request).0 h) (unfold ◌==◌ in refl)
caller_apart (literal l) h = absurd (cc h)
caller_apart (select e f o) h = absurd (cc h)
caller_apart (call fn es) h = absurd (cc h)
caller_apart (member e fn es) h = absurd (cc h)
caller_apart (list es) h = absurd (cc h)
caller_apart (mapping es) h = absurd (cc h)
caller_apart (message n fs es) h = absurd (cc h)
caller_apart (comprehension i j a r n d p o) h = absurd (cc h)

unfoldable pub semantics : Semantics
unfolding run ◌==◌
semantics = record {
  Failure = Unit;
  eval = run;
  literal_text = λ s x. refl;
  or_true = λ args x h.
      let (vs, hvs, h1) = >>=-eq-ok (run_all args x) (apply logical_or) h in
      Some-true args x vs (run_all-Pointwise args x vs hvs) (truth_injective h1);
  and_true = λ args x h.
      let (vs, hvs, h1) = >>=-eq-ok (run_all args x) (apply logical_and) h in
      all-true args x vs (run_all-Pointwise args x vs hvs) (truth_injective h1);
  equals_true = λ a b x h.
      let (v, w, hv, hw, t) = binary_run equals a b x (truth true) h in
      (v, w, hv, hw, same-Equal v w (truth_injective t));
  in_true = λ a b x h.
      let (v, w, hv, hw, t) = binary_run op_in a b x (truth true) h in
      (v, w, hv, hw, contains-IsMember v w (truth_injective t));
  add_values = λ a b x u h.
      let (v, w, hv, hw, t) = binary_run add a b x u h in (v, w, hv, hw, sum-AddsTo v w u t);
  list_items = λ es x v h.
      let (vs, hvs, h1) = >>=-eq-ok (run_all es x) (λ vs. ok (items vs)) h in
      (vs, cc, run_all-Pointwise es x vs hvs);
  no_member = λ target fn args x v op h. cc;
  caller_field =
      λ e claim x v is_caller h. word_of-ok (lookup claim x.caller) v (rw is_caller at h);
  caller_index = λ e claim x v is_caller h.
      let (v1, w, hv, hw, t) = binary_run index e (literal (text claim)) x v h in absurd (cc t);
  request_resource = λ e x v is_request h.
      let reads : ◌≡◌ {A = Result} (ok (word x.request.resource)) (ok v) =
        rw (caller_apart e is_request, is_request) at h in
      cc;
  request_resources = λ e x v is_request h.
      let reads : ◌≡◌ {A = Result} (ok (items (words x.request.resources))) (ok v) =
        rw (caller_apart e is_request, is_request) at h in
      cc;
}
