-- ===== src/Policy/Condition/Pinned.antt =====
-- What a condition that `checkCondition` accepts pins when it holds.
use gh_token_broker.Base.{
  ◌≡◌, ◌⊎◌, inl, inr, refl, true, false, not, ◌&&◌, some, List, [], Str, ok, arith, Option-cases,
  is_empty, contains, each, reject->>, >>=-eq-ok, reject-ok,
}
use gh_token_broker.Base.Map.{Map}
use gh_token_broker.Config.Types.{Issuer}
use gh_token_broker.Resource.Parse.{Resource, parse}
use gh_token_broker.Policy.Ast.{Expr, call, nil, cons, match_descendants}
use gh_token_broker.Policy.Reads.{
  var_caller, var_request, is_ident, is_resource_ref, references, caller_claim,
}
use gh_token_broker.Policy.Engine.{Vars}
use gh_token_broker.Policy.Condition.Semantics.{Semantics, truth}
use gh_token_broker.Policy.Condition.Values
use gh_token_broker.Policy.Condition.Values.{
  IsAnchored, resource_value, anchored_value, Equal-pins, Equal-pins_sym, member_pins,
  contains_pins,
}
use gh_token_broker.Policy.Condition.Constrains.{Within, IsComparison, constrains-Holding}
use gh_token_broker.Policy.Condition.Owner.{IsGithubCaller, caller_anchored-owner}
use gh_token_broker.Policy.Condition.Anchored.{
  constrains, bounds_resource, bounds_caller, anchored_operand,
}
use gh_token_broker.Policy.Condition.Check.{
  check_condition, identity_claims, unbound_caller, unbound_resource, check_literal,
}

-- A part of the condition is a comparison that holds between a claim among the given ones and an
-- operand that does not read the caller.
pub record ClaimPin (sem : Semantics) (x : Vars) (root : Expr) (identity : List Str) : Type 0 where
  pub fn : Str
  pub a : Expr
  pub b : Expr
  pub ref : Expr
  pub other : Expr
  pub claim : Str
  pub comparison : IsComparison fn
  pub within : Within (call fn (cons a (cons b nil))) root
  pub holds : sem.eval (call fn (cons a (cons b nil))) x ≡ ok (truth true)
  pub operands : ((a ≡ ref) × (b ≡ other)) ⊎ ((a ≡ other) × (b ≡ ref))
  pub reads : caller_claim ref ≡ some claim
  pub pins : contains identity claim ≡ true
  pub fixed : references other var_caller ≡ false

-- What an accepted condition has passed.
pub check_condition-constrains :
    (root : Expr) (iss : Issuer)
    → check_condition root iss ≡ ok tt
    → (each (check_literal iss) (match_descendants root (λ n. is_ident n.expr var_request)) ≡ ok tt)
      × (constrains bounds_resource root ≡ true)
      × ((is_empty iss.require && not (constrains (bounds_caller (identity_claims iss)) root))
          ≡ false)
unfolding check_condition
check_condition-constrains root iss h0 =
    let (_, _, h1) = >>=-eq-ok (each _ (match_descendants root (λ n. true))) _ h0 in
    let (_, _, h2) = >>=-eq-ok (each _ (match_descendants root (λ n. true))) _ h1 in
    let (_, _, h3) =
      >>=-eq-ok (each _ (match_descendants root (λ n. is_ident n.expr var_caller))) _ h2 in
    let (_, literals, h4) =
      >>=-eq-ok (each _ (match_descendants root (λ n. is_ident n.expr var_request))) _ h3 in
    let (unbound, h5) = reject->> (not (constrains bounds_resource root)) unbound_resource _ h4 in
    let last =
      reject-ok (is_empty iss.require && _) (unbound_caller (identity_claims iss) iss.name) h5 in
    (literals, ground arith, last)

bounds_caller-cases :
    (identity : List Str) (ref other : Expr)
    → bounds_caller identity ref other ≡ true
    → ((claim : Str) × (caller_claim ref ≡ some claim)
        × (contains identity claim ≡ true)
        × (references other var_caller ≡ false))
      ⊎ ((is_resource_ref ref ≡ true) × (anchored_operand other ≡ true))
unfolding bounds_caller
bounds_caller-cases identity ref other h = elim (Option-cases (caller_claim ref)) [
  | inl no_claim ↦ inr (ground arith)
  | inr (claim, reads) ↦ inl (claim, reads, ground arith, ground arith)
]

module _ (sem : Semantics) (caller : Map Str) (r : Str) where
  open sem use {eval, equals_true, in_true}

  abbrev x : Vars
  x = Values.x sem caller r

  both :
      (fn : Str) (a b : Expr)
      → IsComparison fn
      → eval (call fn (cons a (cons b nil))) x ≡ ok (truth true)
      → (is_resource_ref a ≡ true) × (anchored_operand b ≡ true)
        ⊎ (is_resource_ref b ≡ true) × (anchored_operand a ≡ true)
      → IsAnchored sem caller r r
  both fn a b (inl is_eq) t o =
      let (v, w, ha, hb, h) = equals_true a b x (rw is_eq at t) in
      elim o [
        | inl (ref, anchored) ↦
            Equal-pins sem caller r v w (resource_value sem caller r a v ref ha)
              (anchored_value sem caller r b w anchored hb) h
        | inr (ref, anchored) ↦
            Equal-pins_sym sem caller r v w (anchored_value sem caller r a v anchored ha)
              (resource_value sem caller r b w ref hb) h
      ]
  both fn a b (inr is_in) t o =
      let (v, w, ha, hb, h) = in_true a b x (rw is_in at t) in
      elim o [
        | inl (ref, anchored) ↦
            member_pins sem caller r v w (resource_value sem caller r a v ref ha)
              (anchored_value sem caller r b w anchored hb) h
        | inr (ref, anchored) ↦
            contains_pins sem caller r v w (anchored_value sem caller r a v anchored ha)
              (resource_value sem caller r b w ref hb) h
      ]

  -- If the caller's claims name one owner without a slash, the issuer requires no claims, the
  -- condition is accepted for it and true for the resource, and the resource parses, then a part of
  -- the condition pins an identity claim, or the resource belongs to the owner.
  pub check_condition-caller :
      (root : Expr) (iss : Issuer) (owner : Str) (res : Resource)
      → IsGithubCaller caller owner
      → iss.require ≡ []
      → check_condition root iss ≡ ok tt
      → eval root x ≡ ok (truth true)
      → parse r ≡ ok res
      → ClaimPin sem x root (identity_claims iss) ⊎ (res.owner ≡ owner)
  check_condition-caller root iss owner res c no_require h t p =
      let (_, _, constrained) = check_condition-constrains root iss h in
      let bound = bounds_caller (identity_claims iss) in
      let g = constrains-Holding sem x bound root (ground arith) t in
      elim g.accepted [
        | inl ab ↦ elim (bounds_caller-cases (identity_claims iss) g.a g.b ab) [
          | inl (claim, reads, pins, fixed) ↦ inl (record {
            fn = g.fn;
            a = g.a;
            b = g.b;
            ref = g.a;
            other = g.b;
            claim = claim;
            comparison = g.comparison;
            within = g.within;
            holds = g.holds;
            operands = inl (refl, refl);
            reads = reads;
            pins = pins;
            fixed = fixed;
          })
          | inr resource ↦
              let (e, anchored, val) = both g.fn g.a g.b g.comparison g.holds (inl resource) in
              inr (caller_anchored-owner sem x e r owner res c anchored val p)
        ]
        | inr ba ↦ elim (bounds_caller-cases (identity_claims iss) g.b g.a ba) [
          | inl (claim, reads, pins, fixed) ↦ inl (record {
            fn = g.fn;
            a = g.a;
            b = g.b;
            ref = g.b;
            other = g.a;
            claim = claim;
            comparison = g.comparison;
            within = g.within;
            holds = g.holds;
            operands = inr (refl, refl);
            reads = reads;
            pins = pins;
            fixed = fixed;
          })
          | inr resource ↦
              let (e, anchored, val) = both g.fn g.a g.b g.comparison g.holds (inr resource) in
              inr (caller_anchored-owner sem x e r owner res c anchored val p)
        ]
      ]
