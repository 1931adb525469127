-- ===== src/Policy/Spec.antt =====
-- What `Evaluate` promises, without its loops: which policies match a resource, the grant that
-- they add up to, and when a request is covered.
use gh_token_broker.Base.{
  ℕ, ◌≤◌, max, ◌≡◌, ◌↔◌, ◌⊎◌, ◌&&◌, leb, Bool, true, false, List, [], ◌∷◌, arith, Str,
  if◌then◌else◌, eqb_iff, length, any, ok, err, Outcome, inl, inr, Bool-cases,
}
use gh_token_broker.Base.Map.{IsMap}
use gh_token_broker.Perm.Scope.{Permissions, normalize}
use gh_token_broker.Perm.Rank.{rank, IsCanonical}
use gh_token_broker.Perm.Covers.{satisfies_iff}
use gh_token_broker.Perm.Canonical.{length-normalize_iff}
use gh_token_broker.Policy.Engine.{Cel, Vars, CompiledPolicy, eval_bool, covers_permissions}

-- For maps with no key twice, `coversPermissions` holds exactly if the required scope has only
-- catalog keys with valid levels, and no level of it exceeds the granted one.
pub covers_permissions_iff :
    (required granted : Permissions)
    → IsMap required
    → IsMap granted
    → (covers_permissions required granted ≡ true)
      ↔ (IsCanonical required × ((k : Str) → rank required k ≤ rank granted k))
unfolding covers_permissions
covers_permissions_iff required granted hr hg =
    let (to, from) = length-normalize_iff required hr in
    let (out, into) = satisfies_iff required granted hr hg in
    let (same, back) = eqb_iff (length (normalize required)) (length required) in
    (
      λ h. (to (same (ground arith)), out (ground arith)),
      λ (c, le). ground (arith, back (from c), into le),
    )

abbrev pub holds {ℓ} : {E : Type ℓ} → Outcome E Bool → Bool
holds (ok b) = b
holds (err e) = false

module _ (cel : Cel) (vars : Vars) where
  -- The condition of the policy evaluates to true.
  abbrev pub matches : CompiledPolicy cel → Bool
  matches p = holds (eval_bool cel p.condition vars)

  -- The highest rank that a matching policy grants at `k`, and at least `low`.
  abbrev pub best : Str → ℕ → List (CompiledPolicy cel) → ℕ
  best k low [] = low
  best k low (p ∷ ps) = best k (if matches p then max low (rank p.grant k) else low) ps

  -- The policy matches, and grants `k` at the required level or above.
  abbrev pub permits : Permissions → Str → CompiledPolicy cel → Bool
  permits required k p = matches p && leb (rank required k) (rank p.grant k)

  le-best :
      (required : Permissions) (k : Str) (low : ℕ) (ps : List (CompiledPolicy cel))
      → (rank required k ≤ best k low ps)
        ↔ ((rank required k ≤ low) ⊎ (any (permits required k) ps ≡ true))
  le-best required k low [] = ground arith
  le-best required k low (p ∷ ps) = elim (Bool-cases (matches p)) [
    | inl m ↦ rw m (ground (arith, le-best required k (max low (rank p.grant k)) ps))
    | inr n ↦ rw n (le-best required k low ps)
  ]

  any-permits→matches :
      (required : Permissions) (k : Str) (ps : List (CompiledPolicy cel))
      → any (permits required k) ps ≡ true
      → any matches ps ≡ true
  any-permits→matches required k [] h = h
  any-permits→matches required k (p ∷ ps) h = ground (arith, any-permits→matches required k ps)

  any-matches→permits :
      (required : Permissions) (k : Str) (ps : List (CompiledPolicy cel))
      → rank required k ≤ 0
      → any matches ps ≡ true
      → any (permits required k) ps ≡ true
  any-matches→permits required k [] z h = h
  any-matches→permits required k (p ∷ ps) z h = ground (arith, any-matches→permits required k ps z)

  -- The scope names only catalog keys with valid levels, and every key is granted at the required
  -- level by some policy that matches.
  abbrev pub IsCovered : List (CompiledPolicy cel) → Permissions → Type 0
  IsCovered ps required = IsCanonical required × ((k : Str) → any (permits required k) ps ≡ true)

  pub IsCovered-iff :
      (ps : List (CompiledPolicy cel)) (required : Permissions)
      → IsCovered ps required ↔ (
          (any matches ps ≡ true)
          × IsCanonical required
          × ((k : Str) → rank required k ≤ best k 0 ps))
  IsCovered-iff ps required = (
    λ (c, h). (
      any-permits→matches required [] ps (h []),
      c,
      λ k. (le-best required k 0 ps).1 (inr (h k)),
    ),
    λ (m, c, le). (
      c,
      λ k. elim ((le-best required k 0 ps).0 (le k)) [
        | inl z ↦ any-matches→permits required k ps z m
        | inr h ↦ h
      ],
    ),
  )
