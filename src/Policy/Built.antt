-- ===== src/Policy/Built.antt =====
-- The engine that `New` builds holds, for every issuer, its configured policies in order, each
-- compiled and checked.
use gh_token_broker.Base.{
  ℕ, ◌≡◌, ◌⊎◌, inl, inr, refl, sym, ap, ◌∙◌, false, Option, none, some, List, [], ◌∷◌, ◌++◌, Str,
  ok, ◌==◌, ==_iff, if◌then◌else◌, >>=-eq-ok, reject->>, wrap, wrap-eq-ok, arith, All, Bool-cases,
  Some, All-map, subst, append-nil, append_assoc,
}
use gh_token_broker.Base.Map.{Map, lookup, lookup-insert, lookup-nil, IsMap}
use gh_token_broker.Config.Types.{Issuer, Policy, Config}
use gh_token_broker.Config.Grants.{HasGrant}
use gh_token_broker.Policy.Ast.{Expr}
use gh_token_broker.Policy.Engine.{Cel, CompiledPolicy, Engine, or_nil}
use gh_token_broker.Policy.Policies.{HasMap}
use gh_token_broker.Policy.Condition.Check.{check_condition}
use gh_token_broker.Policy.Build.{
  CelEnv, OutputType, not_bool, not_compiled, not_boolean, refused, no_program, no_env,
  index_issuers, known_issuer, compile, append_policy, compiled, add_policy, add_policies,
  new_engine,
}

module _ (cel : Cel) (env : CelEnv cel) (issuers : Map Issuer) (cost_limit : ℕ) where
  -- The compiled policy is the configured one, compiled and checked for its issuer.
  pub record IsCompiled (p : Policy) (q : CompiledPolicy cel) : Type 0 where
    pub iss : Issuer
    pub expr : Expr
    pub out : OutputType
    pub configured : lookup p.issuer issuers ≡ some iss
    pub checked : env.check p.condition ≡ ok (expr, out)
    pub boolean : not_bool out ≡ false
    pub accepted : check_condition expr iss ≡ ok tt
    pub programmed : env.program expr cost_limit ≡ ok q.condition
    pub named : q.name ≡ p.name
    pub granted : q.grant ≡ p.grant

  -- The policies of the issuer, in order, are compiled to the given ones.
  abbrev pub Built : Str → List Policy → List (CompiledPolicy cel) → Type 0
  Built n [] qs = qs ≡ []
  Built n (p ∷ ps) qs =
      ((p.issuer ≡ n)
        × ((q : CompiledPolicy cel) × (rest : List (CompiledPolicy cel)) × (qs ≡ q ∷ rest)
            × IsCompiled p q
            × Built n ps rest))
      ⊎ (((p.issuer == n) ≡ false) × Built n ps qs)

  known-ok :
      (p : Policy) (o : Option Issuer) (iss : Issuer)
      → known_issuer {I = env.Issues} p o ≡ ok iss
      → o ≡ some iss
  known-ok p none iss h = absurd (cc h)
  known-ok p (some i) iss h = cc

  add_policy-ok :
      (p : Policy) (e e' : Engine cel)
      → add_policy cel env issuers cost_limit p e ≡ ok e'
      → (q : CompiledPolicy cel) × IsCompiled p q × (e' ≡ append_policy cel p.issuer q e)
  unfolding add_policy compile
  add_policy-ok p e e' h0 =
      let (iss, known, h1) = >>=-eq-ok (known_issuer p (lookup p.issuer issuers)) _ h0 in
      let ((prg, ws), comp, fin) =
        >>=-eq-ok (compile cel env iss p.name p.condition cost_limit) _ h1 in
      let ((ast, out), c0, h2) =
        >>=-eq-ok (wrap (not_compiled p.name) (env.check p.condition)) _ comp in
      let (boolean, h3) = reject->> (not_bool out) (not_boolean p.name out) _ h2 in
      let (u, c1, h4) = >>=-eq-ok (wrap (refused p.name) (check_condition ast iss)) _ h3 in
      let (prg', c2, h5) = >>=-eq-ok (wrap (no_program p.name) (env.program ast cost_limit)) _ h4 in
      let same : prg' ≡ prg = cc in
      (
        compiled cel p prg,
        record {
          iss = iss;
          expr = ast;
          out = out;
          configured = known-ok p (lookup p.issuer issuers) iss known;
          checked = wrap-eq-ok (not_compiled p.name) (env.check p.condition) c0;
          boolean = boolean;
          accepted = wrap-eq-ok (refused p.name) (check_condition ast iss) c1;
          programmed = wrap-eq-ok (no_program p.name) (env.program ast cost_limit) c2 ∙ ap ok same;
          named = refl;
          granted = refl;
        },
        cc,
      )

  abbrev held : Str → Engine cel → List (CompiledPolicy cel)
  held n e = or_nil cel (lookup n e.policies)

  held-append :
      (n s : Str) (q : CompiledPolicy cel) (e : Engine cel)
      → held n (append_policy cel s q e) ≡ (if s == n then held n e ++ (q ∷ []) else held n e)
  unfolding append_policy
  held-append n s q e =
      ground (arith, lookup-insert s n (held s e ++ (q ∷ [])) e.policies, ==_iff s n)

  pub add_policies-Built :
      (n : Str) (ps : List Policy) (e e' : Engine cel)
      → add_policies cel env issuers cost_limit ps e ≡ ok e'
      → (qs : List (CompiledPolicy cel)) × Built n ps qs
        × (held n e' ≡ held n e ++ qs)
        × (e'.max_repositories ≡ e.max_repositories)
  unfolding add_policies append_policy
  add_policies-Built n [] e e' h =
      let same : e' ≡ e = cc in
      ([], refl, ap (held n) same ∙ sym (append-nil (held n e)), ap (λ f. f.max_repositories) same)
  add_policies-Built n (p ∷ ps) e e' h =
      let (e1, first, rest) = >>=-eq-ok (add_policy cel env issuers cost_limit p e) _ h in
      let (q, good, appended) = add_policy-ok p e e1 first in
      let (qs, built, held_rest, cap) = add_policies-Built n ps e1 e' rest in
      let cap_1 : e1.max_repositories ≡ e.max_repositories =
        ap (λ f. f.max_repositories) appended in
      let held_1 = ap (held n) appended ∙ held-append n p.issuer q e in
      elim (Bool-cases (p.issuer == n)) [
        | inl is ↦
            let held_q : held n e1 ≡ held n e ++ (q ∷ []) = rw is at held_1 in
            (
              q ∷ qs,
              inl ((==_iff p.issuer n).0 is, (q, qs, refl, good, built)),
              held_rest ∙ ap (λ l. l ++ qs) held_q ∙ append_assoc (held n e) (q ∷ []) qs,
              cap ∙ cap_1,
            )
        | inr is_not ↦
            let held_e : held n e1 ≡ held n e = rw is_not at held_1 in
            (qs, inr (is_not, built), held_rest ∙ ap (λ l. l ++ qs) held_e, cap ∙ cap_1)
      ]

  -- Every compiled policy comes from a configured one of the issuer.
  abbrev pub ComesFrom : Str → List Policy → CompiledPolicy cel → Type 0
  ComesFrom n ps q = Some (λ p. (p.issuer ≡ n) × IsCompiled p q) ps

  pub Built-All :
      (n : Str) (ps : List Policy) (qs : List (CompiledPolicy cel))
      → Built n ps qs
      → All (ComesFrom n ps) qs
  Built-All n [] qs h = subst (All (ComesFrom n [])) (sym h) tt
  Built-All n (p ∷ ps) qs (inl (is, (q, rest, same, good, built))) =
      subst (All (ComesFrom n (p ∷ ps))) (sym same)
        (inl (is, good), All-map rest (λ c h. inr h) (Built-All n ps rest built))
  Built-All n (p ∷ ps) qs (inr (is_not, built)) =
      All-map qs (λ c h. inr h) (Built-All n ps qs built)

  pub Built-HasMap :
      (n : Str) (ps : List Policy) (qs : List (CompiledPolicy cel))
      → All HasGrant ps
      → Built n ps qs
      → All (HasMap cel) qs
  Built-HasMap n [] qs h built = subst (All (HasMap cel)) (sym built) tt
  Built-HasMap n (p ∷ ps) qs (m, h) (inl (is, (q, rest, same, good, built))) =
      subst (All (HasMap cel)) (sym same)
        (subst IsMap (sym good.granted) m, Built-HasMap n ps rest h built)
  Built-HasMap n (p ∷ ps) qs (m, h) (inr (is_not, built)) = Built-HasMap n ps qs h built

-- If `New` builds an engine, then for every issuer name the engine holds the configured policies of
-- this issuer, in order, each with its name and grant, its condition compiled to a Boolean or
-- dynamic type, checked for the configured issuer and made into a program under the cost limit; and
-- the cap on resources is the configured one.
pub new_engine-Built :
    (cel : Cel) (env : CelEnv cel) (cfg : Config) (e : Engine cel) (n : Str)
    → new_engine cel env cfg ≡ ok e
    → Built cel env
        (index_issuers [] cfg.oidc.issuers)
        cfg.policy.cost_limit
        n
        cfg.policies
        (or_nil cel (lookup n e.policies))
      × (e.max_repositories ≡ cfg.policy.max_repositories)
unfolding new_engine
new_engine-Built cel env cfg e n h =
    let (u, made, h1) = >>=-eq-ok (wrap no_env env.new_env) _ h in
    let (qs, built, same, cap) =
      add_policies-Built cel env (index_issuers [] cfg.oidc.issuers) cfg.policy.cost_limit n
        cfg.policies _ e h1 in
    let filled : or_nil cel (lookup n e.policies) ≡ qs =
      same ∙ ap (λ o. or_nil cel o ++ qs) (lookup-nil n) in
    (subst (Built cel env _ _ n cfg.policies) (sym filled) built, cap)
