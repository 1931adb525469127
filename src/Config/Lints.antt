-- ===== src/Config/Lints.antt =====
-- When `Lint` has nothing to warn of.
use gh_token_broker.Base.{
  ◌≡◌, ◌≢◌, ◌↔◌, inl, inr, refl, true, List, [], ◌∷◌, Str, is_empty, contains, All, Some, ◌==◌,
  ==_iff, arith, Bool-cases,
}
use gh_token_broker.Config.Types.{Config, Issuer, Policy, is_preset}
use gh_token_broker.Config.Valid.{empty_nil, is_empty-ne}
use gh_token_broker.Config.Load.{lint, lint_issuers, policy_issuers}

-- Some policy refers to the issuer, and if it has the preset it requires some claim.
abbrev pub IsLinted : List Policy → Issuer → Type 0
IsLinted policies iss =
    Some (λ p. p.issuer ≡ iss.name) policies × (is_preset iss ≡ true → iss.require ≢ [])

contains-policy_issuers :
    (policies : List Policy) (name : Str)
    → (contains (policy_issuers policies) name ≡ true) ↔ Some (λ p. p.issuer ≡ name) policies
unfolding contains
contains-policy_issuers [] name = (λ h. cc, λ h. absurd h)
contains-policy_issuers (p ∷ ps) name =
    let (to, from) = contains-policy_issuers ps name in
    elim (Bool-cases (p.issuer == name)) [
      | inl same ↦ rw same (λ h. inl ((==_iff p.issuer name).0 same), λ h. refl)
      | inr other ↦ rw other (
        λ h. inr (to h),
        λ h. elim h [ inl e ↦ cc ((==_iff p.issuer name).1 e, other) | inr rest ↦ from rest ],
      )
    ]

lint_issuers_iff :
    (policies : List Policy) (issuers : List Issuer)
    → (lint_issuers (policy_issuers policies) issuers ≡ []) ↔ All (IsLinted policies) issuers
unfolding lint_issuers
lint_issuers_iff policies [] = (λ h. tt, λ h. refl)
lint_issuers_iff policies (iss ∷ rest) =
    ground (arith, lint_issuers_iff policies rest, contains-policy_issuers policies iss.name)

-- `Lint` returns no warning exactly if there is a policy, every issuer is the issuer of some
-- policy, and every issuer with the GitHub preset requires some claim.
pub lint_iff :
    (cfg : Config)
    → (lint cfg ≡ []) ↔ ((cfg.policies ≢ []) × All (IsLinted cfg.policies) cfg.oidc.issuers)
unfolding lint
lint_iff cfg =
    let (to, from) = lint_issuers_iff cfg.policies cfg.oidc.issuers in
    elim (Bool-cases (is_empty cfg.policies)) [
      | inl none_given ↦
          rw none_given
            (λ h. cc, λ (some_given, _). absurd (some_given (empty_nil cfg.policies none_given)))
      | inr given ↦ rw given (λ h. (is_empty-ne cfg.policies given, to h), λ (_, h). from h)
    ]
