-- ===== src/Policy/Evaluate.antt =====
-- `Evaluate`: its decision against the specification of covered resources.
use gh_token_broker.Base.{
  ◌<◌, ◌≡◌, ◌≢◌, ◌↔◌, refl, sym, ◌∙◌, Bool, true, false, not, ◌&&◌, some, List, [], ◌∷◌, arith, Str,
  ==_refl, All, contains, length, is_empty, Bool-cases, eq_of_iff, inl, inr, ok, err,
}
use gh_token_broker.Base.Map.{Map, IsMap, lookup}
use gh_token_broker.Base.Sort.{IsSorted, sort-IsSorted, contains-sort}
use gh_token_broker.Perm.Levels.{found}
use gh_token_broker.Perm.Scope.{Permissions}
use gh_token_broker.Perm.Rank.{rank}
use gh_token_broker.Policy.Engine.{
  Cel, CompiledPolicy, Engine, Input, Decision, Error, Progress, vars_for, eval_resources, start,
  evaluate, conclude, or_nil, too_many_resources,
}
use gh_token_broker.Policy.Spec.{IsCovered}
use gh_token_broker.Policy.Policies.{HasMap}
use gh_token_broker.Policy.Resources.{
  top, verdict, verdict_iff, found-eval_resources, uncovered-eval_resources,
  eval_resources-GrantsRight,
}

is_empty-contains : (xs : List Str) → (is_empty xs ≡ true) ↔ ((a : Str) → contains xs a ≡ false)
unfolding contains
is_empty-contains [] = (λ e a. refl, λ h. refl)
is_empty-contains (x ∷ xs) = (λ e. cc, λ h. ground (arith, h x, ==_refl x))

is_empty-lookup {ℓ} :
    {V : Type ℓ} (m : Map V) → (is_empty m ≡ true) ↔ ((a : Str) → found (lookup a m) ≡ false)
unfolding lookup
is_empty-lookup [] = (λ e a. refl, λ h. refl)
is_empty-lookup ((k, v) ∷ m) = (λ e. cc, λ h. ground (arith, h k, ==_refl k))

-- The compiled policies of the caller's issuer.
abbrev pub policies_of : (cel : Cel) → Engine cel → Input → List (CompiledPolicy cel)
policies_of cel e i = or_nil cel (lookup i.issuer e.policies)

module _ (cel : Cel) (e : Engine cel) (i : Input) (required : Permissions) where
  abbrev ps : List (CompiledPolicy cel)
  ps = policies_of cel e i

  abbrev requested : List Str
  requested = i.request.resources

  -- `Evaluate` fails with an error exactly if more resources are requested than the cap allows, and
  -- the error then names both numbers.
  pub evaluate-err_iff :
      (er : Error)
      → (evaluate cel e i required ≡ err er) ↔ (
          (e.max_repositories < length requested)
          × (er ≡ too_many_resources (length requested) e.max_repositories))
  unfolding evaluate
  evaluate-err_iff er = ground arith

  final : Progress cel
  final = eval_resources cel ps i required (start cel) requested

  evaluate-ok : (d : Decision) → evaluate cel e i required ≡ ok d → d ≡ conclude cel final
  unfolding evaluate final
  evaluate-ok d h = ground arith

  module _ (grants_ok : All (HasMap cel) (policies_of cel e i)) (required_ok : IsMap required)
      (d : Decision) (evaluated : evaluate cel e i required ≡ ok d) where
    final-uncovered :
        (a : Str)
        → contains final.uncovered a
          ≡ (contains requested a && not (verdict cel ps i required grants_ok required_ok a))
    unfolding final contains lookup
    final-uncovered a =
        uncovered-eval_resources cel ps i required grants_ok required_ok (start cel) requested a

    final-grants : (a : Str) → found (lookup a final.grants) ≡ contains requested a
    unfolding final lookup
    final-grants a =
        found-eval_resources cel ps i required grants_ok required_ok (start cel) requested a

    abbrev verdict_of : Str → Bool
    verdict_of a = verdict cel ps i required grants_ok required_ok a

    contains-uncovered :
        (a : Str) → contains d.uncovered_resources a ≡ (contains requested a && not (verdict_of a))
    contains-uncovered a =
        rw (evaluate-ok d evaluated) (contains-sort final.uncovered a ∙ final-uncovered a)

    -- If the grants of the issuer's policies and the required scope are maps with no key twice and
    -- `Evaluate` returns a decision, then its uncovered resources are exactly the requested ones
    -- that are not covered.
    pub uncovered_iff :
        (a : Str)
        → (contains d.uncovered_resources a ≡ true) ↔ (
            (contains requested a ≡ true)
            × (¬ IsCovered cel (vars_for cel i a) (policies_of cel e i) required))
    uncovered_iff a =
        let (to, from) = verdict_iff cel ps i required grants_ok required_ok a in
        elim (Bool-cases (verdict_of a)) [
          | inl covered ↦ (
            λ h. absurd (ground (arith, contains-uncovered a)),
            λ (_, no_cover). absurd (no_cover (to covered)),
          )
          | inr bare ↦ (
            λ h. (ground (arith, contains-uncovered a), λ c. cc (from c)),
            λ (asked, _). ground (arith, contains-uncovered a),
          )
        ]

    pub uncovered-IsSorted : IsSorted d.uncovered_resources
    uncovered-IsSorted = rw (evaluate-ok d evaluated) (sort-IsSorted final.uncovered)

    -- If the grants of the issuer's policies and the required scope are maps with no key twice and
    -- `Evaluate` returns a decision, then every grant that the decision records for a resource
    -- holds, at every permission key, the highest level that a policy matching the resource grants.
    pub rank-grants :
        (a : Str) (g : Permissions)
        → lookup a d.grants ≡ some g
        → (k : Str) → rank g k ≡ top cel ps i required grants_ok a k
    unfolding final lookup
    rank-grants a g found_it =
        eval_resources-GrantsRight cel ps i required grants_ok required_ok (start cel) requested
          (λ b h e. cc) a g (rw (evaluate-ok d evaluated) at found_it)

    is_empty-grants : is_empty final.grants ≡ is_empty requested
    is_empty-grants =
        let (to, from) = is_empty-lookup final.grants in
        let (out, into) = is_empty-contains requested in
        eq_of_iff (is_empty final.grants) (is_empty requested)
          (λ h. into (λ a. sym (final-grants a) ∙ to h a))
          (λ h. from (λ a. final-grants a ∙ out h a))

    none_uncovered : (is_empty final.uncovered ≡ true) ↔ (
        (a : Str)
        → contains requested a ≡ true
        → IsCovered cel (vars_for cel i a) (policies_of cel e i) required)
    none_uncovered =
        let (to, from) = is_empty-contains final.uncovered in
        (
          λ h a asked.
              (verdict_iff cel ps i required grants_ok required_ok a).0
                (ground (arith, to h a, final-uncovered a)),
          λ all_covered. from (λ a. elim (Bool-cases (contains requested a)) [
            | inl asked ↦ ground (
              arith,
              final-uncovered a,
              (verdict_iff cel ps i required grants_ok required_ok a).1 (all_covered a asked),
            )
            | inr other ↦ ground (arith, final-uncovered a)
          ]),
        )

    -- If the grants of the issuer's policies and the required scope are maps with no key twice and
    -- `Evaluate` returns a decision, then the decision allows exactly if at least one resource is
    -- requested and every requested resource is covered: the required scope is canonical, and for
    -- every permission key some policy of the issuer whose condition is true for the resource
    -- grants the key at the required level or above.
    pub allowed_iff : (d.allowed ≡ true) ↔ (
        (requested ≢ [])
        × ((a : Str)
            → contains requested a ≡ true
            → IsCovered cel (vars_for cel i a) (policies_of cel e i) required))
    allowed_iff =
        let (to, from) = none_uncovered in
        rw (evaluate-ok d evaluated, is_empty-grants)
          (
            λ h. (λ e. ground arith, to (ground arith)),
            λ (some_one, all_covered). ground (arith, from all_covered),
          )
