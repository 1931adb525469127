-- ===== src/GithubApp/Lookups.antt =====
-- How `Mint` finds an installation: which calls it makes, and what it gets from them.
use gh_token_broker.Base.{
  ◌≡◌, refl, sym, ap, eqb, eqb_iff, ◌∙◌, ◌||◌, [], ◌∷◌, ◌++◌, Str, ◌==◌, All, Bool-cases, inl, inr,
  Outcome, ok, err, Outcome-cases, ok_injective,
}
use mathlib.Core.List.{append-nil, append_assoc}
use gh_token_broker.Base.Map.{IsMap}
use gh_token_broker.Resource.Parse.{Kind, kind_repo, kind_org, kind_enterprise}
use gh_token_broker.GithubApp.Client.{
  Installation, Call, Log, GitHub, org_installation, user_installation, enterprise_installation,
  post_token, resolve_installation, resolve, last_lookup, HttpResponse, enterprise_answer,
}

-- A call that only reads.
abbrev pub IsLookup : Call → Type 0
IsLookup (org_installation owner) = Unit
IsLookup (user_installation owner) = Unit
IsLookup (enterprise_installation owner) = Unit
IsLookup (post_token id body) = ⊥

-- The log after `out` is `log` with lookups behind it.
pub record Looked (log after : Log) : Type 0 where
  pub lookups : Log
  pub plain : All IsLookup lookups
  pub same : after ≡ log ++ lookups

module _ (gh : GitHub) where
  last_lookup-log :
      (owner : Str) (o : Outcome gh.Failure Installation) (log : Log)
      → (last_lookup gh owner o log).0 ≡ log
  last_lookup-log owner (ok inst) log = refl
  last_lookup-log owner (err e) log = refl

  resolve_installation-Looked :
      (owner : Str) (log : Log) → Looked log (resolve_installation gh owner log).0
  unfolding resolve_installation
  resolve_installation-Looked owner log =
      elim (Outcome-cases (gh.apps_do log (org_installation owner))) [
        | inl (inst, e) ↦ record {
          lookups = org_installation owner ∷ [];
          plain = (tt, tt);
          same = rw e;
        }
        | inr (er, e) ↦ record {
          lookups = org_installation owner ∷ user_installation owner ∷ [];
          plain = (tt, (tt, tt));
          same = rw e (last_lookup-log owner _ _ ∙ append_assoc log _ _);
        }
      ]

  pub resolve-Looked :
      (kind : Kind) (owner : Str) (log : Log) → Looked log (resolve gh kind owner log).0
  unfolding resolve
  resolve-Looked kind owner log = elim (Bool-cases (kind == kind_repo || kind == kind_org)) [
    | inl b ↦ rw b (resolve_installation-Looked owner log)
    | inr b ↦ elim (Bool-cases (kind == kind_enterprise)) [
      | inl c ↦
          rw (b, c)
            (record { lookups = enterprise_installation owner ∷ []; plain = (tt, tt); same = refl })
      | inr c ↦ rw (b, c) (record { lookups = []; plain = tt; same = sym (append-nil log) })
    ]
  ]

-- JSON objects decode to Go maps: no permission stands twice in an installation.
pub record Answers (gh : GitHub) : Type 0 where
  pub apps_maps :
      (log : Log) (c : Call) (inst : Installation)
      → gh.apps_do log c ≡ ok inst
      → IsMap inst.permissions
  pub decoded_maps :
      (b : gh.Body) (inst : Installation)
      → gh.decode_installation b ≡ ok inst
      → IsMap inst.permissions

-- GitHub has answered a lookup for the owner with this installation.
pub data IsInstalled (gh : GitHub) (owner : Str) (inst : Installation) : Type 0 where
  of_org :
      (log : Log) → gh.apps_do log (org_installation owner) ≡ ok inst → IsInstalled gh owner inst
  of_user :
      (log : Log) → gh.apps_do log (user_installation owner) ≡ ok inst → IsInstalled gh owner inst
  of_enterprise :
      (log : Log) (resp : HttpResponse gh.Body)
      → gh.http_do log (enterprise_installation owner) ≡ ok resp
      → resp.status ≡ 200
      → gh.decode_installation resp.body ≡ ok inst
      → IsInstalled gh owner inst

module _ (gh : GitHub) where
  last_lookup-ok :
      (owner : Str) (o : Outcome gh.Failure Installation) (log log' : Log) (inst : Installation)
      → last_lookup gh owner o log ≡ (log', ok inst)
      → o ≡ ok inst
  last_lookup-ok owner (ok found) log log' inst e = ap ok (ok_injective (ap (λ p. p.1) e))
  last_lookup-ok owner (err er) log log' inst e = cc

  resolve_installation-IsInstalled :
      (owner : Str) (log log' : Log) (inst : Installation)
      → resolve_installation gh owner log ≡ (log', ok inst)
      → IsInstalled gh owner inst
  unfolding resolve_installation
  resolve_installation-IsInstalled owner log log' inst e =
      elim (Outcome-cases (gh.apps_do log (org_installation owner))) [
        | inl (found, h) ↦
            let e' = rw h at e in of_org log (h ∙ ap ok (ok_injective (ap (λ p. p.1) e')))
        | inr (er, h) ↦ of_user _ (last_lookup-ok owner _ _ log' inst (rw h at e))
      ]

  enterprise_answer-ok :
      (slug : Str) (o : Outcome gh.Failure (HttpResponse gh.Body)) (inst : Installation)
      → enterprise_answer gh slug o ≡ ok inst
      → (resp : HttpResponse gh.Body) × (o ≡ ok resp)
        × (resp.status ≡ 200)
        × (gh.decode_installation resp.body ≡ ok inst)
  enterprise_answer-ok slug (err er) inst e = cc
  enterprise_answer-ok slug (ok resp) inst e = elim (Bool-cases (eqb resp.status 200)) [
    | inl fine ↦ elim (Outcome-cases (gh.decode_installation resp.body)) [
      | inl (found, h) ↦
          let e' = rw (fine, h) at e in
          (resp, refl, (eqb_iff resp.status 200).0 fine, h ∙ ap ok (ok_injective e'))
      | inr (er, h) ↦ let e' = rw (fine, h) at e in cc
    ]
    | inr other ↦ let e' = rw other at e in cc
  ]

  -- The installation that `resolve` returns is one of the owner.
  pub resolve-IsInstalled :
      (kind : Kind) (owner : Str) (log log' : Log) (inst : Installation)
      → resolve gh kind owner log ≡ (log', ok inst)
      → IsInstalled gh owner inst
  unfolding resolve
  resolve-IsInstalled kind owner log log' inst e =
      elim (Bool-cases (kind == kind_repo || kind == kind_org)) [
        | inl b ↦ resolve_installation-IsInstalled owner log log' inst (rw b at e)
        | inr b ↦ elim (Bool-cases (kind == kind_enterprise)) [
          | inl c ↦
              let (resp, sent, fine, decoded) =
                enterprise_answer-ok owner (gh.http_do log (enterprise_installation owner)) inst
                  (ap (λ p. p.1) (rw (b, c) at e)) in
              of_enterprise log resp sent fine decoded
          | inr c ↦ let e' = rw (b, c) at e in cc (ap (λ p. p.1) e')
        ]
      ]

  -- The installation of an owner carries a Go map.
  pub IsInstalled-IsMap :
      (answers : Answers gh) (owner : Str) (inst : Installation)
      → IsInstalled gh owner inst
      → IsMap inst.permissions
  IsInstalled-IsMap answers owner inst (of_org log e) = answers.apps_maps log _ inst e
  IsInstalled-IsMap answers owner inst (of_user log e) = answers.apps_maps log _ inst e
  IsInstalled-IsMap answers owner inst (of_enterprise log resp sent fine e) =
      answers.decoded_maps resp.body inst e
