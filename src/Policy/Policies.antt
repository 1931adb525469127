-- ===== src/Policy/Policies.antt =====
-- The inner loop of `Evaluate`: one resource against the policies of the issuer.
use gh_token_broker.Base.{
  max, ◌≡◌, refl, Bool, true, false, ◌||◌, List, [], ◌∷◌, arith, Str, if◌then◌else◌, any, All,
  Outcome, ok, err,
}
use gh_token_broker.Base.Map.{IsMap}
use gh_token_broker.Perm.Rank.{rank, IsCanonical}
use gh_token_broker.Policy.Engine.{
  Cel, Vars, CompiledPolicy, EvalError, Trace, note_outcome, eval_bool, eval_policies,
}
use gh_token_broker.Policy.Merge.{
  merge_permissions-IsMap, merge_permissions-IsCanonical, rank-merge_permissions,
}
use gh_token_broker.Policy.Spec.{holds, matches, best}

-- The policy's grant is a map: no key twice.
abbrev pub HasMap : (cel : Cel) → CompiledPolicy cel → Type 0
HasMap cel p = IsMap p.grant

module _ (cel : Cel) (vars : Vars) where
  -- From trace `t`, the policies `ps` lead to trace `u`.
  pub record Traced (t u : Trace cel) (ps : List (CompiledPolicy cel)) : Type 0 where
    pub one_entry : IsMap u.granted
    pub canonical : IsCanonical u.granted
    pub covered : u.covered ≡ (t.covered || any (matches cel vars) ps)
    pub highest : (k : Str) → rank u.granted k ≡ best cel vars k (rank t.granted k) ps

  record Noted (p : CompiledPolicy cel) (o : Outcome (EvalError cel) Bool) (t u : Trace cel)
      : Type 0 where
    one_entry : IsMap u.granted
    canonical : IsCanonical u.granted
    covered : u.covered ≡ (t.covered || holds o)
    highest :
        (k : Str)
        → rank u.granted k
          ≡ (if holds o then max (rank t.granted k) (rank p.grant k) else rank t.granted k)

  note_outcome-Noted :
      (p : CompiledPolicy cel) (o : Outcome (EvalError cel) Bool) (t : Trace cel)
      → IsMap t.granted
      → IsCanonical t.granted
      → IsMap p.grant
      → Noted p o t (note_outcome cel p o t)
  note_outcome-Noted p (err e) t h c hp = record {
    one_entry = h;
    canonical = c;
    covered = ground arith;
    highest = λ k. refl;
  }
  note_outcome-Noted p (ok false) t h c hp = record {
    one_entry = h;
    canonical = c;
    covered = ground arith;
    highest = λ k. refl;
  }
  note_outcome-Noted p (ok true) t h c hp = record {
    one_entry = merge_permissions-IsMap t.granted p.grant h c hp;
    canonical = merge_permissions-IsCanonical t.granted p.grant h c hp;
    covered = ground arith;
    highest = rank-merge_permissions t.granted p.grant h c hp;
  }

  -- If the grant so far is a canonical map with no key twice and the grants of the policies have no
  -- key twice, the inner loop of `Evaluate` raises the grant at every key to the highest level of
  -- the matching policies, keeps it a canonical map with no key twice, and marks the resource as
  -- covered exactly if it was so before or some policy matches.
  pub eval_policies-Traced :
      (t : Trace cel) (ps : List (CompiledPolicy cel))
      → IsMap t.granted
      → IsCanonical t.granted
      → All (HasMap cel) ps
      → Traced t (eval_policies cel vars t ps) ps
  unfolding eval_policies
  eval_policies-Traced t [] h c hps = record {
    one_entry = h;
    canonical = c;
    covered = ground arith;
    highest = λ k. refl;
  }
  eval_policies-Traced t (p ∷ ps) h c (hp, hps) =
      let o = eval_bool cel p.condition vars in
      let n = note_outcome-Noted p o t h c hp in
      let ih = eval_policies-Traced (note_outcome cel p o t) ps n.one_entry n.canonical hps in
      record {
        one_entry = ih.one_entry;
        canonical = ih.canonical;
        covered = ground (arith, ih.covered, n.covered);
        highest = λ k. rw (ih.highest k, n.highest k) refl;
      }
