-- ===== src/Policy/Engine.antt =====
-- internal/policy/engine.go: `Evaluate` and its helpers. The CEL library is a parameter: a type of
-- compiled programs with their evaluation, of which nothing is assumed. Log lines are left out.
use gh_token_broker.Base.{
  ℕ, Bool, true, false, not, ◌&&◌, ◌||◌, Option, none, some, List, [], ◌∷◌, ◌++◌, Str,
  if◌then◌else◌, eqb, ltb, length, is_empty, Outcome, ok, err,
}
use gh_token_broker.Base.Sort.{sort}
use gh_token_broker.Base.Map.{Map, lookup, insert}
use gh_token_broker.Perm.Levels.{found}
use gh_token_broker.Perm.Scope.{Permissions, normalize, satisfies}

pub record Request : Type 0 where
  pub resource : Str
  pub resources : List Str

-- The activation of one evaluation: the variables `caller` and `request`.
pub record Vars : Type 0 where
  pub caller : Map Str
  pub request : Request

-- The parts of cel-go that `evalBool` calls.
pub record Cel : Type 1 where
  pub Program : Type 0
  pub Value : Type 0
  pub Failure : Type 0
  pub eval : Program → Vars → Outcome Failure Value
  pub as_bool : Value → Option Bool

pub record Input : Type 0 where
  pub issuer : Str
  pub caller : Map Str
  pub request : Request

pub record Decision : Type 0 where
  pub allowed : Bool
  pub matched_policies : List Str
  pub skipped_policies : List Str
  pub grants : Map Permissions
  pub uncovered_resources : List Str

pub data Error : Type 0 where
  too_many_resources : ℕ → ℕ → Error

-- `perm.Satisfies(map[string]string{key: existing}, map[string]string{key: level})`
abbrev pub raises : Str → Option Str → Str → Bool
raises key none level = true
raises key (some existing) level = satisfies ((key, existing) ∷ []) ((key, level) ∷ [])

-- the loop of `mergePermissions`, over the normalized source
unfoldable pub merge_into : Permissions → Permissions → Permissions
merge_into destination [] = destination
merge_into destination ((key, level) ∷ rest) =
    merge_into
      (if raises key (lookup key destination) level
        then insert key level destination
        else destination)
      rest

unfoldable pub merge_permissions : Permissions → Permissions → Permissions
unfolding merge_into
merge_permissions destination source = merge_into destination (normalize source)

unfoldable pub covers_permissions : Permissions → Permissions → Bool
covers_permissions required granted =
    if not (eqb (length (normalize required)) (length required))
    then false
    else satisfies required granted

abbrev pub keys {ℓ} : {V : Type ℓ} → Map V → List Str
keys [] = []
keys ((k, v) ∷ m) = k ∷ keys m

module _ (cel : Cel) where
  open cel use {Program, Value, Failure, eval, as_bool}

  pub record CompiledPolicy : Type 0 where
    pub name : Str
    pub condition : Program
    pub grant : Permissions

  pub record Engine : Type 0 where
    pub policies : Map (List CompiledPolicy)
    pub max_repositories : ℕ

  pub data EvalError : Type 0 where
    failed : Failure → EvalError
    not_bool : Value → EvalError

  abbrev pub bool_of : Outcome Failure Value → Outcome EvalError Bool
  bool_of (err e) = err (failed e)
  bool_of (ok out) = elim (as_bool out) [ none ↦ err (not_bool out) | some b ↦ ok b ]

  unfoldable pub eval_bool : Program → Vars → Outcome EvalError Bool
  eval_bool prg vars = bool_of (eval prg vars)

  -- The variables of the inner loop of `Evaluate`; `matched` and `skipped` go on from one resource
  -- to the next.
  pub record Trace : Type 0 where
    pub granted : Permissions
    pub covered : Bool
    pub matched : Map Bool
    pub skipped : Map Bool

  abbrev pub note_outcome : CompiledPolicy → Outcome EvalError Bool → Trace → Trace
  note_outcome p (err e) t = record t { skipped = insert p.name true t.skipped }
  note_outcome p (ok false) t = t
  note_outcome p (ok true) t = record t {
    covered = true;
    matched = insert p.name true t.matched;
    granted = merge_permissions t.granted p.grant;
  }

  -- the inner loop of `Evaluate`
  unfoldable pub eval_policies : Vars → Trace → List CompiledPolicy → Trace
  eval_policies vars t [] = t
  eval_policies vars t (p ∷ ps) =
      eval_policies vars (note_outcome p (eval_bool p.condition vars) t) ps

  abbrev pub or_nil : Option (List CompiledPolicy) → List CompiledPolicy
  or_nil none = []
  or_nil (some ps) = ps

  abbrev pub vars_for : Input → Str → Vars
  vars_for i r = record { caller = i.caller; request = record { resource = r; resources = r ∷ [] } }

  -- The variables of the outer loop of `Evaluate`.
  pub record Progress : Type 0 where
    pub grants : Map Permissions
    pub matched : Map Bool
    pub skipped : Map Bool
    pub uncovered : List Str

  unfoldable pub eval_resource :
      List CompiledPolicy → Input → Permissions → Progress → Str → Progress
  unfolding eval_policies
  eval_resource ps i required s r =
      if found (lookup r s.grants)
      then s
      else let t =
          eval_policies (vars_for i r)
            (record { granted = []; covered = false; matched = s.matched; skipped = s.skipped })
            ps in
        record {
          grants = insert r t.granted s.grants;
          matched = t.matched;
          skipped = t.skipped;
          uncovered =
              if not t.covered || not (covers_permissions required t.granted)
              then s.uncovered ++ (r ∷ [])
              else s.uncovered;
        }

  unfoldable pub eval_resources :
      List CompiledPolicy → Input → Permissions → Progress → List Str → Progress
  eval_resources ps i required s [] = s
  eval_resources ps i required s (r ∷ rs) =
      eval_resources ps i required (eval_resource ps i required s r) rs

  abbrev pub conclude : Progress → Decision
  conclude s = record {
    allowed = not (is_empty s.grants) && is_empty s.uncovered;
    matched_policies = sort (keys s.matched);
    skipped_policies = sort (keys s.skipped);
    grants = s.grants;
    uncovered_resources = sort s.uncovered;
  }

  unfoldable pub check_list_caps : Engine → Request → Outcome Error (Unit {0})
  check_list_caps e req =
      if ltb e.max_repositories (length req.resources)
      then err (too_many_resources (length req.resources) e.max_repositories)
      else ok tt

  abbrev pub start : Progress
  start = record { grants = []; matched = []; skipped = []; uncovered = [] }

  unfoldable pub evaluate : Engine → Input → Permissions → Outcome Error Decision
  unfolding eval_resources eval_resource check_list_caps
  evaluate e i required = elim (check_list_caps e i.request) [
    | err er ↦ err er
    | ok _ ↦ ok (
        conclude (
          eval_resources (or_nil (lookup i.issuer e.policies)) i required start
            i.request.resources))
  ]
