-- ===== src/Policy/Condition/Literals.antt =====
-- The condition of an issuer without a preset spells out the resources that it matches.
use gh_token_broker.Base.{
  ◌≡◌, inl, inr, refl, sym, true, false, not, ◌&&◌, [], Str, ok, arith, each, reject-ok, subst,
}
use gh_token_broker.Base.Map.{Map}
use gh_token_broker.Config.Types.{Issuer, is_preset}
use gh_token_broker.Policy.Ast.{
  Expr, literal, ident, select, call, member, list, mapping, message, comprehension, nil, cons,
  Node, nodes, text, match_descendants,
}
use gh_token_broker.Policy.Reads.{
  var_request, is_ident, is_request_field, is_resource_ref, compared_in, compared_above,
  compared_to_literal,
}
use gh_token_broker.Policy.Engine.{Vars}
use gh_token_broker.Policy.Condition.Semantics.{Semantics, truth}
use gh_token_broker.Policy.Condition.Values
use gh_token_broker.Policy.Condition.Values.{IsResourceValue, resource_value}
use gh_token_broker.Policy.Condition.Constrains.{Within, IsComparison, constrains-Holding}
use gh_token_broker.Policy.Condition.Places.{
  In, Within-trans, Within-Covers, each_match, select_var, first_node, second_node, first_node-In,
  second_node-In,
}
use gh_token_broker.Policy.Condition.Spelled.{left_literal, right_literal, left_pins, right_pins}
use gh_token_broker.Policy.Condition.Pinned.{check_condition-constrains}
use gh_token_broker.Policy.Condition.Anchored.{bounds_resource}
use gh_token_broker.Policy.Condition.Check.{check_condition, check_literal, not_literal}

-- A reference to the resource is a field of the variable `request`.
record IsField (e : Expr) : Type 0 where
  v : Str
  field : Str
  shape : e ≡ select_var v field false
  var : is_ident (ident v) var_request ≡ true

ref_IsField : (e : Expr) → is_resource_ref e ≡ true → IsField e
unfolding is_resource_ref is_request_field is_ident
ref_IsField (select (ident v) f false) h = record {
  v = v;
  field = f;
  shape = refl;
  var = ground arith;
}
ref_IsField (select (ident v) f true) h = ground arith
ref_IsField (select (literal l) f o) h = ground arith
ref_IsField (select (select e g p) f o) h = ground arith
ref_IsField (select (call fn es) f o) h = ground arith
ref_IsField (select (member e fn es) f o) h = ground arith
ref_IsField (select (list es) f o) h = ground arith
ref_IsField (select (mapping es) f o) h = ground arith
ref_IsField (select (message n fs es) f o) h = ground arith
ref_IsField (select (comprehension i j a r n d p q) f o) h = ground arith
ref_IsField (literal l) h = cc
ref_IsField (ident n) h = cc
ref_IsField (list es) h = cc
ref_IsField (call fn es) h = cc
ref_IsField (member e fn es) h = cc
ref_IsField (mapping es) h = cc
ref_IsField (message n fs es) h = cc
ref_IsField (comprehension i j a r n d p o) h = cc

-- Without a preset, every place of the variable `request` has passed the check.
passed :
    (root : Expr) (iss : Issuer) (n : Node)
    → is_preset iss ≡ false
    → each (check_literal iss) (match_descendants root (λ m. is_ident m.expr var_request)) ≡ ok tt
    → is_ident n.expr var_request ≡ true
    → In n (nodes [] root)
    → compared_above n.above ≡ true
unfolding compared_to_literal
passed root iss n no_preset h e m =
    let free =
      reject-ok (not (is_preset iss) && not (compared_to_literal n)) (not_literal iss.name)
        (each_match (check_literal iss) (λ m. is_ident m.expr var_request) root n h e m) in
    ground arith

module _ (sem : Semantics) (caller : Map Str) (r : Str) where
  open sem use {eval}

  abbrev x : Vars
  x = Values.x sem caller r

  module _ (root : Expr) (iss : Issuer) (no_preset : is_preset iss ≡ false)
      (literals : each
          (check_literal iss)
          (match_descendants root (λ m. is_ident m.expr var_request))
        ≡ ok tt) where
    left_side :
        (fn : Str) (a b : Expr)
        → IsComparison fn
        → is_resource_ref a ≡ true
        → Within (call fn (cons a (cons b nil))) root
        → eval (call fn (cons a (cons b nil))) x ≡ ok (truth true)
        → Within (literal (text r)) root
    unfolding compared_above compared_in
    left_side fn a b c ref within t =
        let f = ref_IsField a ref in
        let (up, covers) = Within-Covers [] (call fn (cons a (cons b nil))) root within in
        let n = first_node up fn f.v f.field false b in
        let met : In n (nodes up (call fn (cons a (cons b nil)))) =
          subst (λ e. In n (nodes up (call fn (cons e (cons b nil))))) (sym f.shape)
            (first_node-In up fn f.v f.field false b) in
        let at = passed root iss n no_preset literals f.var (covers n met) in
        let lit = left_literal fn (select_var f.v f.field false) b c (ground arith) in
        Within-trans (left_pins sem caller r fn a b ref lit t) within

    right_side :
        (fn : Str) (a b : Expr)
        → IsComparison fn
        → is_resource_ref b ≡ true
        → Within (call fn (cons a (cons b nil))) root
        → eval (call fn (cons a (cons b nil))) x ≡ ok (truth true)
        → Within (literal (text r)) root
    unfolding compared_above compared_in
    right_side fn a b c ref within t =
        let f = ref_IsField b ref in
        let (up, covers) = Within-Covers [] (call fn (cons a (cons b nil))) root within in
        let n = second_node up fn f.v f.field false a in
        let met : In n (nodes up (call fn (cons a (cons b nil)))) =
          subst (λ e. In n (nodes up (call fn (cons a (cons e nil))))) (sym f.shape)
            (second_node-In up fn f.v f.field false a) in
        let at = passed root iss n no_preset literals f.var (covers n met) in
        let lit = right_literal fn a (select_var f.v f.field false) c (ground arith) in
        Within-trans (right_pins sem caller r fn a b ref lit t) within

  -- If the issuer has no preset, the condition is accepted for it and true for the resource, then
  -- the resource stands in the condition as a string literal.
  pub check_condition-literal :
      (root : Expr) (iss : Issuer)
      → is_preset iss ≡ false
      → check_condition root iss ≡ ok tt
      → eval root x ≡ ok (truth true)
      → Within (literal (text r)) root
  unfolding bounds_resource
  check_condition-literal root iss no_preset h t =
      let (literals, constrained, _) = check_condition-constrains root iss h in
      let g = constrains-Holding sem x bounds_resource root constrained t in
      elim g.accepted [
        | inl ab ↦
            left_side root iss no_preset literals g.fn g.a g.b g.comparison (ground arith) g.within
              g.holds
        | inr ba ↦
            right_side root iss no_preset literals g.fn g.a g.b g.comparison (ground arith) g.within
              g.holds
      ]
