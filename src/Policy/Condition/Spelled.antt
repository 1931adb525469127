-- ===== src/Policy/Condition/Spelled.antt =====
-- A comparison of the resource with string literals that holds writes out the resource.
use gh_token_broker.Base.{
  ◌≡◌, ◌⊎◌, inl, inr, refl, sym, ap, true, false, [], ◌∷◌, Str, ◌==◌, ==_iff, ok, Some, arith,
  Option-cases, all,
}
use gh_token_broker.Base.Map.{Map}
use gh_token_broker.Perm.Levels.{found}
use gh_token_broker.Policy.Ast.{
  Expr, Exprs, literal, ident, select, call, member, list, mapping, message, comprehension, nil,
  cons, entries, equals, op_in, text,
}
use gh_token_broker.Policy.Reads.{
  is_resource_ref, string_literal, is_string_literal, all_literals, literal_comparison,
}
use gh_token_broker.Policy.Engine.{Vars}
use gh_token_broker.Policy.Condition.Semantics.{
  Semantics, Value, Values, truth, word, no_items, item, each_value, Equal, Pointwise,
}
use gh_token_broker.Policy.Condition.Operands.{string_literal-some}
use gh_token_broker.Policy.Condition.Values
use gh_token_broker.Policy.Condition.Values.{IsResourceValue, resource_value}
use gh_token_broker.Policy.Condition.Constrains.{Within, here, inside, IsComparison}

-- What the check leaves for a reference on the left and on the right.
pub left_literal :
    (fn : Str) (a b : Expr)
    → IsComparison fn
    → literal_comparison fn 0 (a ∷ b ∷ []) ≡ true
    → ((fn ≡ equals) × (is_string_literal b ≡ true)) ⊎ ((fn ≡ op_in) × (all_literals b ≡ true))
unfolding literal_comparison
left_literal fn a b (inl e) h = inl (e, ground (arith, ==_iff fn equals))
left_literal fn a b (inr e) h =
    let apart : (op_in == equals) ≡ false = unfold ◌==◌ in refl in
    inr (e, ground (arith, ==_iff fn op_in))

pub right_literal :
    (fn : Str) (a b : Expr)
    → IsComparison fn
    → literal_comparison fn 1 (a ∷ b ∷ []) ≡ true
    → (fn ≡ equals) × (is_string_literal a ≡ true)
unfolding literal_comparison
right_literal fn a b (inl e) h = (e, ground (arith, ==_iff fn equals))
right_literal fn a b (inr e) h =
    let apart : (op_in == equals) ≡ false = unfold ◌==◌ in refl in ground (arith, ==_iff fn op_in)

is_string_literal-some :
    (e : Expr) → is_string_literal e ≡ true → (s : Str) × (e ≡ literal (text s))
unfolding is_string_literal
is_string_literal-some e h = elim (Option-cases (string_literal e)) [
  | inl nothing ↦ absurd (cc (ap found nothing))
  | inr (s, same) ↦ (s, string_literal-some e s same)
]

all_literals_list :
    (e : Expr)
    → all_literals e ≡ true
    → (es : Exprs) × (e ≡ list es) × (all is_string_literal (entries es) ≡ true)
all_literals_list (list es) h = (es, refl, h)
all_literals_list (literal l) h = cc
all_literals_list (ident n) h = cc
all_literals_list (select e f o) h = cc
all_literals_list (call fn es) h = cc
all_literals_list (member e fn es) h = cc
all_literals_list (mapping es) h = cc
all_literals_list (message n fs es) h = cc
all_literals_list (comprehension i j a r n d p o) h = cc

module _ (sem : Semantics) (caller : Map Str) (r : Str) where
  open sem use {eval, literal_text, list_items, equals_true, in_true}

  abbrev x : Vars
  x = Values.x sem caller r

  -- A literal whose value is equal to the resource writes it out.
  literal_pins :
      (e : Expr) (v w : Value)
      → is_string_literal e ≡ true
      → eval e x ≡ ok w
      → IsResourceValue sem caller r v
      → Equal v w
      → e ≡ literal (text r)
  unfolding Equal
  literal_pins e v w h t hv eq =
      let (s, same) = is_string_literal-some e h in
      let spelled : w ≡ word s = cc (literal_text s x) in
      elim hv [
        | inl one ↦
            let e_r : r ≡ s = rw (one, spelled) at eq in
            rw same (ap (λ u. literal (text u)) (sym e_r))
        | inr many ↦ absurd (rw (many, spelled) at eq)
      ]

  literal_pins_sym :
      (e : Expr) (v w : Value)
      → is_string_literal e ≡ true
      → eval e x ≡ ok v
      → IsResourceValue sem caller r w
      → Equal v w
      → e ≡ literal (text r)
  unfolding Equal
  literal_pins_sym e v w h t hw eq =
      let (s, same) = is_string_literal-some e h in
      let spelled : v ≡ word s = cc (literal_text s x) in
      elim hw [
        | inl one ↦
            let e_r : s ≡ r = rw (one, spelled) at eq in rw same (ap (λ u. literal (text u)) e_r)
        | inr many ↦ absurd (rw (many, spelled) at eq)
      ]

  among_literals :
      (es : Exprs) (v : Value) (ws : Values)
      → all is_string_literal (entries es) ≡ true
      → Pointwise eval x es ws
      → IsResourceValue sem caller r v
      → Some (Equal v) (each_value ws)
      → Some (λ e. e ≡ literal (text r)) (entries es)
  among_literals nil v no_items h t hv m = absurd m
  among_literals nil v (item w ws) h t hv m = absurd t
  among_literals (cons e es) v no_items h t hv m = absurd t
  among_literals (cons e es) v (item w ws) h (t, ts) hv (inl eq) =
      inl (literal_pins e v w (ground arith) t hv eq)
  among_literals (cons e es) v (item w ws) h (t, ts) hv (inr m) =
      inr (among_literals es v ws (ground arith) ts hv m)

  -- The comparison that holds writes out the resource.
  pub left_pins :
      (fn : Str) (a b : Expr)
      → is_resource_ref a ≡ true
      → ((fn ≡ equals) × (is_string_literal b ≡ true)) ⊎ ((fn ≡ op_in) × (all_literals b ≡ true))
      → eval (call fn (cons a (cons b nil))) x ≡ ok (truth true)
      → Within (literal (text r)) (call fn (cons a (cons b nil)))
  left_pins fn a b ref (inl (is_eq, lit)) t =
      let (v, w, ha, hb, eq) = equals_true a b x (rw is_eq at t) in
      let same = literal_pins b v w lit hb (resource_value sem caller r a v ref ha) eq in
      inside {child = literal (text r)} (inr (inl same)) here
  left_pins fn a b ref (inr (is_in, lits)) t =
      let (v, w, ha, hb, m) = in_true a b x (rw is_in at t) in
      let (es, is_list, each_lit) = all_literals_list b lits in
      let (ws, same, values) = list_items es x w (rw is_list at hb) in
      let found =
        among_literals es v ws each_lit values (resource_value sem caller r a v ref ha)
          (rw same at m) in
      inside {child = list es} (inr (inl is_list)) (inside {child = literal (text r)} found here)

  pub right_pins :
      (fn : Str) (a b : Expr)
      → is_resource_ref b ≡ true
      → (fn ≡ equals) × (is_string_literal a ≡ true)
      → eval (call fn (cons a (cons b nil))) x ≡ ok (truth true)
      → Within (literal (text r)) (call fn (cons a (cons b nil)))
  right_pins fn a b ref (is_eq, lit) t =
      let (v, w, ha, hb, eq) = equals_true a b x (rw is_eq at t) in
      let same = literal_pins_sym a v w lit ha (resource_value sem caller r b w ref hb) eq in
      inside {child = literal (text r)} (inl same) here
