-- ===== src/Policy/Build.antt =====
-- internal/policy/engine.go: `New` and `compile`. The CEL environment of internal/policy/env.go is a
-- parameter. The warnings of a condition only reach the log.
use gh_token_broker.Base.{
  ℕ, Bool, true, false, Option, none, some, List, [], ◌∷◌, ◌++◌, Str, Outcome, ok, err, ◌>>=◌, ◌>>◌,
  reject, wrap,
}
use gh_token_broker.Base.Map.{Map, lookup, insert}
use gh_token_broker.Config.Types.{Issuer, Policy, Config}
use gh_token_broker.Policy.Ast.{Expr}
use gh_token_broker.Policy.Engine.{Cel, CompiledPolicy, Engine, or_nil}
use gh_token_broker.Policy.Condition.Check.{
  ConditionError, Warning, check_condition, condition_warnings,
}

-- The kinds of an output type that `compile` tells apart.
pub data OutputType : Type 0 where
  dyn bool : OutputType
  other : Str → OutputType

-- `out.Kind() != types.DynKind && out.Kind() != types.BoolKind`
abbrev pub not_bool : OutputType → Bool
not_bool dyn = false
not_bool bool = false
not_bool (other name) = true

-- The operations of cel-go that compile a condition.
pub record CelEnv (cel : Cel) : Type 1 where
  pub Issues : Type 0
  -- `NewEnv`
  pub new_env : Outcome Issues (Unit {0})
  -- `env.Compile`, with `NativeRep` and `OutputType` of its result
  pub check : Str → Outcome Issues (Expr × OutputType)
  -- `env.Program` with a cost limit
  pub program : Expr → ℕ → Outcome Issues cel.Program

pub data BuildError (Issues : Type 0) : Type 0 where
  no_env : Issues → BuildError Issues
  unknown_issuer : Str → Str → BuildError Issues
  not_compiled no_program : Str → Issues → BuildError Issues
  not_boolean : Str → OutputType → BuildError Issues
  refused : Str → ConditionError → BuildError Issues

-- the loop that fills `issuers`
unfoldable pub index_issuers : Map Issuer → List Issuer → Map Issuer
index_issuers m [] = m
index_issuers m (iss ∷ rest) = index_issuers (insert iss.name iss m) rest

abbrev pub known_issuer : {I : Type 0} → Policy → Option Issuer → Outcome (BuildError I) Issuer
known_issuer p none = err (unknown_issuer p.name p.issuer)
known_issuer p (some iss) = ok iss

module _ (cel : Cel) where
  -- `e.policies[p.Issuer] = append(e.policies[p.Issuer], ...)`
  unfoldable pub append_policy : Str → CompiledPolicy cel → Engine cel → Engine cel
  append_policy issuer q e = record e {
    policies = insert issuer (or_nil cel (lookup issuer e.policies) ++ (q ∷ [])) e.policies;
  }

  abbrev pub compiled : Policy → cel.Program → CompiledPolicy cel
  compiled p prg = record { name = p.name; condition = prg; grant = p.grant }

module _ (cel : Cel) (env : CelEnv cel) where
  open env use {Issues, new_env, check, program}

  unfoldable pub compile :
      Issuer → Str → Str → ℕ → Outcome (BuildError Issues) (cel.Program × List Warning)
  compile iss policy expr cost_limit = do
    (ast, out) ← wrap (not_compiled policy) (check expr)
    reject (not_bool out) (not_boolean policy out)
    wrap (refused policy) (check_condition ast iss)
    prg ← wrap (no_program policy) (program ast cost_limit)
    ok (prg, condition_warnings ast)

  -- one round of the loop over the policies
  unfoldable pub add_policy :
      Map Issuer → ℕ → Policy → Engine cel → Outcome (BuildError Issues) (Engine cel)
  add_policy issuers cost_limit p e = do
    iss ← known_issuer p (lookup p.issuer issuers)
    (prg, warnings) ← compile iss p.name p.condition cost_limit
    ok (append_policy cel p.issuer (compiled cel p prg) e)

  unfoldable pub add_policies :
      Map Issuer → ℕ → List Policy → Engine cel → Outcome (BuildError Issues) (Engine cel)
  add_policies issuers cost_limit [] e = ok e
  add_policies issuers cost_limit (p ∷ ps) e =
      add_policy issuers cost_limit p e >>= add_policies issuers cost_limit ps

  unfoldable pub new_engine : Config → Outcome (BuildError Issues) (Engine cel)
  new_engine cfg = do
    wrap no_env new_env
    add_policies (index_issuers [] cfg.oidc.issuers) cfg.policy.cost_limit cfg.policies
        (record { policies = []; max_repositories = cfg.policy.max_repositories })
