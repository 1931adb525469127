-- ===== src/Policy/Resources.antt =====
-- The outer loop of `Evaluate`: each distinct resource once.
use gh_token_broker.Base.{
  ℕ, ◌≡◌, ◌↔◌, refl, sym, ◌∙◌, Bool, true, false, not, ◌&&◌, ◌||◌, some, List, [], ◌∷◌, arith, Str,
  ◌==◌, ==_iff, All, contains, contains-append, and-eq-true, eq_of_iff, Bool-cases, inl, inr,
}
use gh_token_broker.Base.Map.{IsMap, lookup, lookup-insert}
use gh_token_broker.Perm.Levels.{found}
use gh_token_broker.Perm.Scope.{Permissions}
use gh_token_broker.Perm.Rank.{rank}
use gh_token_broker.Policy.Engine.{
  Cel, CompiledPolicy, Input, Trace, Progress, vars_for, eval_policies, eval_resource,
  eval_resources, covers_permissions, start,
}
use gh_token_broker.Policy.Spec.{best, IsCovered, IsCovered-iff, covers_permissions_iff}
use gh_token_broker.Policy.Policies.{HasMap, Traced, eval_policies-Traced}

module _ (cel : Cel) (ps : List (CompiledPolicy cel)) (i : Input) (required : Permissions)
    (grants_ok : All (HasMap cel) ps) where
  -- The trace from which the inner loop starts.
  abbrev opening : Progress cel → Trace cel
  opening s = record { granted = []; covered = false; matched = s.matched; skipped = s.skipped }

  abbrev closing : Progress cel → Str → Trace cel
  closing s r = eval_policies cel (vars_for cel i r) (opening s) ps

  abbrev accepts : Progress cel → Str → Bool
  accepts s r = (closing s r).covered && covers_permissions required (closing s r).granted

  traced : (s : Progress cel) (r : Str) → Traced cel (vars_for cel i r) (opening s) (closing s r) ps
  traced s r =
      eval_policies-Traced cel (vars_for cel i r) (opening s) ps tt (λ k v e. unfold lookup in cc)
        grants_ok

  rank-empty : (k : Str) → rank [] k ≡ 0
  rank-empty k = unfold lookup in ground arith

  -- The highest level that the matching policies grant a resource.
  abbrev pub top : Str → Str → ℕ
  top r k = best cel (vars_for cel i r) k 0 ps

  rank-closing : (s : Progress cel) (r k : Str) → rank (closing s r).granted k ≡ top r k
  rank-closing s r k = rw ((traced s r).highest k, rank-empty k) refl

  module _ (required_ok : IsMap required) where
    accepts_iff :
        (s : Progress cel) (r : Str)
        → (accepts s r ≡ true) ↔ IsCovered cel (vars_for cel i r) ps required
    accepts_iff s r =
        let t = traced s r in
        let (to, from) =
          covers_permissions_iff required (closing s r).granted required_ok t.one_entry in
        let (fwd, back) = IsCovered-iff cel (vars_for cel i r) ps required in
        (
          λ h.
              let (c, cov) =
                (and-eq-true (closing s r).covered
                    (covers_permissions required (closing s r).granted)).0
                  h in
              let (canonical, le) = to cov in
              back (sym t.covered ∙ c, canonical, λ k. rw (← rank-closing s r k) (le k)),
          λ h.
              let (m, canonical, le) = fwd h in
              (and-eq-true (closing s r).covered
                  (covers_permissions required (closing s r).granted)).1
                (t.covered ∙ m, from (canonical, λ k. rw (rank-closing s r k) (le k))),
        )

    pub verdict : Str → Bool
    verdict r = accepts (start cel) r

    pub verdict_iff : (r : Str) → (verdict r ≡ true) ↔ IsCovered cel (vars_for cel i r) ps required
    unfolding verdict
    verdict_iff r = accepts_iff (start cel) r

    -- The verdict on a resource does not depend on what was evaluated before it.
    accepts-verdict : (s : Progress cel) (r : Str) → accepts s r ≡ verdict r
    accepts-verdict s r =
        eq_of_iff (accepts s r) (verdict r) (λ h. (verdict_iff r).1 ((accepts_iff s r).0 h))
          (λ h. (accepts_iff s r).1 ((verdict_iff r).0 h))

    uncovered-eval_resource :
        (s : Progress cel) (r a : Str)
        → contains (eval_resource cel ps i required s r).uncovered a ≡ (
            contains s.uncovered a
            || (r == a && (not (found (lookup r s.grants)) && not (verdict r))))
    unfolding eval_resource contains
    uncovered-eval_resource s r a =
        ground (arith, accepts-verdict s r, contains-append s.uncovered (r ∷ []) a)

    found-eval_resource :
        (s : Progress cel) (r a : Str)
        → found (lookup a (eval_resource cel ps i required s r).grants)
          ≡ (found (lookup a s.grants) || (r == a))
    unfolding eval_resource
    found-eval_resource s r a =
        ground (arith, lookup-insert r a (closing s r).granted s.grants, ==_iff r a)

    -- Every entry of `grants` holds the highest level of the matching policies at every key.
    abbrev pub GrantsRight : Progress cel → Type 0
    GrantsRight s =
        (a : Str) (g : Permissions) → lookup a s.grants ≡ some g → (k : Str) → rank g k ≡ top a k

    eval_resource-GrantsRight :
        (s : Progress cel) (r : Str)
        → GrantsRight s
        → GrantsRight (eval_resource cel ps i required s r)
    eval_resource-GrantsRight s r h a g e k = elim (Bool-cases (found (lookup r s.grants))) [
      | inl seen ↦ h a g (rw (eval_resource-seen seen) at e) k
      | inr new ↦ elim (Bool-cases (r == a)) [
        | inl same ↦
            let e' : g ≡ (closing s r).granted =
              unfold eval_resource in
              ground (arith, lookup-insert r a (closing s r).granted s.grants) in
            rw (e', rank-closing s r k, (==_iff r a).0 same) refl
        | inr other ↦
            h a g
              (unfold eval_resource in
                ground (arith, lookup-insert r a (closing s r).granted s.grants))
              k
      ]
    ]
      where
        eval_resource-seen :
            found (lookup r s.grants) ≡ true → eval_resource cel ps i required s r ≡ s
        eval_resource-seen seen = unfold eval_resource in rw seen

    pub found-eval_resources :
        (s : Progress cel) (rs : List Str) (a : Str)
        → found (lookup a (eval_resources cel ps i required s rs).grants)
          ≡ (found (lookup a s.grants) || contains rs a)
    unfolding eval_resources contains
    found-eval_resources s [] a = ground arith
    found-eval_resources s (r ∷ rs) a = ground (
      arith,
      found-eval_resources (eval_resource cel ps i required s r) rs a,
      found-eval_resource s r a,
    )

    pub uncovered-eval_resources :
        (s : Progress cel) (rs : List Str) (a : Str)
        → contains (eval_resources cel ps i required s rs).uncovered a ≡ (
            contains s.uncovered a
            || (contains rs a && (not (found (lookup a s.grants)) && not (verdict a))))
    unfolding eval_resources contains
    uncovered-eval_resources s [] a = ground arith
    uncovered-eval_resources s (r ∷ rs) a = ground (
      arith,
      uncovered-eval_resources (eval_resource cel ps i required s r) rs a,
      uncovered-eval_resource s r a,
      found-eval_resource s r a,
      ==_iff r a,
    )

    pub eval_resources-GrantsRight :
        (s : Progress cel) (rs : List Str)
        → GrantsRight s
        → GrantsRight (eval_resources cel ps i required s rs)
    unfolding eval_resources
    eval_resources-GrantsRight s [] h = h
    eval_resources-GrantsRight s (r ∷ rs) h =
        eval_resources-GrantsRight (eval_resource cel ps i required s r) rs
          (eval_resource-GrantsRight s r h)
