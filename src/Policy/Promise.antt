-- ===== src/Policy/Promise.antt =====
-- What an allowed request says about the configuration: the engine is built by `New`, and the
-- request decided by `Evaluate`.
pub mod Tests
use gh_token_broker.Base.{
  ℕ, ◌≡◌, ◌⊎◌, inl, inr, refl, ap, sym, subst, Bool, true, false, Option, none, some, List, [], ◌∷◌,
  Str, Outcome, ok, err, Some, Some-map, All, any-pick, Outcome-cases, Option-cases, is_empty,
  contains, any, arith, ◌∙◌,
}
use gh_token_broker.Base.Map.{Map, lookup, IsMap}
use gh_token_broker.Config.Types.{Issuer, is_preset, Policy, Config}
use gh_token_broker.Config.Grants.{HasGrant}
use gh_token_broker.Perm.Scope.{Permissions}
use gh_token_broker.Resource.Parse.{Resource, parse}
use gh_token_broker.Policy.Ast.{Expr, literal, text}
use gh_token_broker.Policy.Engine.{
  Cel, Vars, CompiledPolicy, Engine, Input, Decision, eval_bool, bool_of, EvalError, not_bool,
  vars_for, evaluate,
}
use gh_token_broker.Policy.Spec.{holds, matches, permits, IsCovered, IsCovered-iff}
use gh_token_broker.Policy.Evaluate.{policies_of, allowed_iff}
use gh_token_broker.Policy.Build.{CelEnv, OutputType, index_issuers, new_engine}
use gh_token_broker.Policy.Built.{IsCompiled, ComesFrom, Built-All, Built-HasMap, new_engine-Built}
use gh_token_broker.Policy.Condition.Semantics.{Semantics, truth}
use gh_token_broker.Policy.Condition.Constrains.{Within}
use gh_token_broker.Policy.Condition.Check.{identity_claims}
use gh_token_broker.Policy.Condition.Owner.{IsGithubCaller}
use gh_token_broker.Policy.Condition.Pinned.{ClaimPin, check_condition-caller}
use gh_token_broker.Policy.Condition.Literals.{check_condition-literal}

some_injective : {A : Type 0} {a b : A} → some a ≡ some b → a ≡ b
some_injective h = cc

-- Some entry gives one of two results.
elim-Some :
    {A C : Type 0} {P Q : A → Type 0} (xs : List A)
    → ((x : A) → P x → Q x ⊎ C)
    → Some P xs
    → Some Q xs ⊎ C
elim-Some [] f h = absurd h
elim-Some (x ∷ xs) f (inl p) = elim (f x p) [ inl q ↦ inl (inl q) | inr c ↦ inr c ]
elim-Some (x ∷ xs) f (inr h) = elim (elim-Some xs f h) [ inl q ↦ inl (inr q) | inr c ↦ inr c ]

-- A program that is true at some variables was made from an expression that is true there.
abbrev pub IsFaithful : (cel : Cel) → CelEnv cel → Semantics → Type 0
IsFaithful cel env sem =
    (expr : Expr) (cost_limit : ℕ) (prg : cel.Program) (x : Vars) (v : cel.Value)
    → env.program expr cost_limit ≡ ok prg
    → cel.eval prg x ≡ ok v
    → cel.as_bool v ≡ some true
    → sem.eval expr x ≡ ok (truth true)

module _ (cel : Cel) where
  verdict_true :
      (v : cel.Value) (o : Option Bool)
      → holds {E = EvalError cel} (elim o [ none ↦ err (not_bool v) | some b ↦ ok b ]) ≡ true
      → o ≡ some true
  verdict_true v none h = absurd (cc h)
  verdict_true v (some b) h = ap some h

  bool_of-true :
      (m : Outcome cel.Failure cel.Value)
      → holds (bool_of cel m) ≡ true
      → (v : cel.Value) × (m ≡ ok v) × (cel.as_bool v ≡ some true)
  bool_of-true (err f) h = absurd (cc h)
  bool_of-true (ok v) h = (v, refl, verdict_true v (cel.as_bool v) h)

  matches-true :
      (x : Vars) (q : CompiledPolicy cel)
      → matches cel x q ≡ true
      → (v : cel.Value) × (cel.eval q.condition x ≡ ok v) × (cel.as_bool v ≡ some true)
  unfolding eval_bool
  matches-true x q h = bool_of-true (cel.eval q.condition x) h

module _ (cel : Cel) (env : CelEnv cel) (i : Input) where
  -- The condition of the policy, as it is compiled, writes out the resource.
  abbrev pub WritesOut : Str → Policy → Type 0
  WritesOut a p =
      (p.issuer ≡ i.issuer)
      × ((expr : Expr) × (out : OutputType) × (env.check p.condition ≡ ok (expr, out))
          × Within (literal (text a)) expr)

  -- The condition of the policy pins an identity claim of the caller in a comparison that holds.
  abbrev pub PinsClaim : Semantics → Issuer → Str → Policy → Type 0
  PinsClaim sem iss a p =
      (p.issuer ≡ i.issuer)
      × ((expr : Expr) × (out : OutputType) × (env.check p.condition ≡ ok (expr, out))
          × ClaimPin sem (vars_for cel i a) expr (identity_claims iss))

module _ (cel : Cel) (env : CelEnv cel) (sem : Semantics) (faithful : IsFaithful cel env sem)
    (cfg : Config) (e : Engine cel) (built : new_engine cel env cfg ≡ ok e)
    (grants_ok : All HasGrant cfg.policies) (i : Input) (required : Permissions)
    (required_ok : IsMap required) (iss : Issuer)
    (configured : lookup i.issuer (index_issuers [] cfg.oidc.issuers) ≡ some iss) (d : Decision)
    (decided : evaluate cel e i required ≡ ok d) (allowed : d.allowed ≡ true) where
  abbrev issuers : Map Issuer
  issuers = index_issuers [] cfg.oidc.issuers

  -- Some configured policy of the issuer is true for the requested resource.
  record Matching (a : Str) : Type 0 where
    policy : CompiledPolicy cel
    from : ComesFrom cel env issuers cfg.policy.cost_limit i.issuer cfg.policies policy
    val : cel.Value
    ran : cel.eval policy.condition (vars_for cel i a) ≡ ok val
    is_true : cel.as_bool val ≡ some true

  matching : (a : Str) → contains i.request.resources a ≡ true → Matching a
  matching a asked =
      let (all_built, _) = new_engine-Built cel env cfg e i.issuer built in
      let ps = policies_of cel e i in
      let maps =
        Built-HasMap cel env issuers cfg.policy.cost_limit i.issuer cfg.policies ps grants_ok
          all_built in
      let (_, covered) = (allowed_iff cel e i required maps required_ok d decided).0 allowed in
      let (some_match, _, _) =
        (IsCovered-iff cel (vars_for cel i a) ps required).0 (covered a asked) in
      let (q, is, from) =
        any-pick (matches cel (vars_for cel i a)) ps some_match
          (Built-All cel env issuers cfg.policy.cost_limit i.issuer cfg.policies ps all_built) in
      let (v, ran, is_true) = matches-true cel (vars_for cel i a) q is in
      record { policy = q; from = from; val = v; ran = ran; is_true = is_true }

  same_issuer :
      (p : Policy) → p.issuer ≡ i.issuer → (c : Issuer) → lookup p.issuer issuers ≡ some c → c ≡ iss
  same_issuer p is c known =
      some_injective (sym known ∙ (ap (λ n. lookup n issuers) is ∙ configured))

  -- If a program that is true was made from an expression that is true, the engine is built by
  -- `New`, the grants of the policies and the required scope are maps with no key twice, and
  -- `Evaluate` allows a request of an issuer without a preset, then for every requested resource a
  -- configured policy of this issuer has a condition in which the resource stands as a string
  -- literal.
  pub allowed-WritesOut :
      is_preset iss ≡ false
      → (a : Str) → contains i.request.resources a ≡ true
      → Some (WritesOut cel env i a) cfg.policies
  allowed-WritesOut no_preset a asked =
      let m = matching a asked in
      let x = vars_for cel i a in
      Some-map cfg.policies
        (λ p (is, c).
          let own : c.iss ≡ iss = same_issuer p is c.iss c.configured in
          let true_here =
            faithful c.expr cfg.policy.cost_limit m.policy.condition x m.val c.programmed m.ran
              m.is_true in
          (
            is,
            (
              c.expr,
              c.out,
              c.checked,
              check_condition-literal sem i.caller a c.expr c.iss (ap is_preset own ∙ no_preset)
                  c.accepted true_here,
            ),
          ))
        m.from

  -- If a program that is true was made from an expression that is true, the engine is built by
  -- `New`, the grants of the policies and the required scope are maps with no key twice, the issuer
  -- requires no claims, the caller's claims `repository` and `repository_owner` name one owner
  -- without a slash, and `Evaluate` allows the request, then each requested resource that parses
  -- belongs to this owner, or a configured policy of the issuer has a comparison that holds between
  -- an identity claim and an operand that does not read the caller.
  pub allowed-PinsClaim :
      iss.require ≡ []
      → (owner : Str) → IsGithubCaller i.caller owner
      → (a : Str) → contains i.request.resources a ≡ true
      → (res : Resource) → parse a ≡ ok res
      → Some (PinsClaim cel env i sem iss a) cfg.policies ⊎ (res.owner ≡ owner)
  allowed-PinsClaim no_require owner gh_caller a asked res parsed =
      let m = matching a asked in
      let x = vars_for cel i a in
      elim-Some cfg.policies
        (λ p (is, c).
          let own : c.iss ≡ iss = same_issuer p is c.iss c.configured in
          let true_here =
            faithful c.expr cfg.policy.cost_limit m.policy.condition x m.val c.programmed m.ran
              m.is_true in
          elim (check_condition-caller sem i.caller a c.expr c.iss owner res gh_caller
            (ap (λ c. c.require) own ∙ no_require) c.accepted true_here parsed) [
              | inl pin ↦ inl (
                is,
                (
                  c.expr,
                  c.out,
                  c.checked,
                  subst (λ c'. ClaimPin sem x c.expr (identity_claims c')) own pin,
                ),
              )
              | inr owned ↦ inr owned
            ])
        m.from
