-- ===== src/Policy/Condition/Check.antt =====
-- internal/policy/engine.go: `checkCondition` and `conditionWarnings`.
use gh_token_broker.Base.{
  Bool, true, not, ◌&&◌, ◌||◌, Option, none, some, List, [], ◌∷◌, ◌++◌, Str, codes, ◌==◌,
  if◌then◌else◌, any, is_empty, contains, Outcome, ok, err, ◌>>◌, reject, each,
}
use gh_token_broker.Config.Types.{Issuer, is_preset}
use gh_token_broker.Config.Claims.{github_identity_claims}
use gh_token_broker.Policy.Ast.{
  Expr, call, member, comprehension, Node, children, match_descendants, is_ordering, is_text_test,
}
use gh_token_broker.Policy.Reads.{
  var_caller, var_request, is_ident, is_request_field, references, caller_claim,
  compared_to_literal, resources_shape,
}
use gh_token_broker.Policy.Condition.Anchored.{constrains, bounds_resource, bounds_caller}

pub data ConditionError : Type 0 where
  shadows not_allowed : Str → ConditionError
  ordering caller_access : ConditionError
  undeclared : Str → Str → ConditionError
  not_literal : Str → ConditionError
  unbound_resource : ConditionError
  unbound_caller : List Str → Str → ConditionError

abbrev pub is_policy_var : Str → Bool
is_policy_var v = v == var_caller || v == var_request

-- one round of the first loop
abbrev pub check_variables : Expr → Outcome ConditionError (Unit {0})
check_variables (comprehension i j a range init condition step result) = do
  reject (is_policy_var i) (shadows i)
  reject (is_policy_var j) (shadows j)
  reject (is_policy_var a) (shadows a)
check_variables _ = ok tt

abbrev pub reads_input : Expr → Bool
reads_input e = references e var_caller || references e var_request

abbrev pub check_function : Str → List Expr → Outcome ConditionError (Unit {0})
check_function fn operands =
    if is_text_test fn
    then err (not_allowed fn)
    else reject (is_ordering fn && any reads_input operands) ordering

-- one round of the second loop
abbrev pub check_call : Expr → Outcome ConditionError (Unit {0})
check_call (call fn args) = check_function fn (children (call fn args))
check_call (member target fn args) = check_function fn (children (member target fn args))
check_call _ = ok tt

abbrev pub check_claim : Issuer → Option Str → Outcome ConditionError (Unit {0})
check_claim iss none = err caller_access
check_claim iss (some claim) = reject (not (contains iss.claims claim)) (undeclared claim iss.name)

-- one round of the third loop, over the ancestors of the identifier
abbrev pub check_access : Issuer → Node → Outcome ConditionError (Unit {0})
check_access iss n = elim n.above [
  | [] ↦ err caller_access
  | (parent, i) ∷ up ↦ check_claim iss (caller_claim parent)
]

-- one round of the fourth loop, with the condition on the issuer that it stands under
abbrev pub check_literal : Issuer → Node → Outcome ConditionError (Unit {0})
check_literal iss n =
    reject (not (is_preset iss) && not (compared_to_literal n)) (not_literal iss.name)

unfoldable pub identity_claims : Issuer → List Str
identity_claims iss = if is_preset iss then github_identity_claims else []

unfoldable pub check_condition : Expr → Issuer → Outcome ConditionError (Unit {0})
check_condition root iss = do
  each (λ n. check_variables n.expr) (match_descendants root (λ n. true))
  each (λ n. check_call n.expr) (match_descendants root (λ n. true))
  each (check_access iss) (match_descendants root (λ n. is_ident n.expr var_caller))
  each (check_literal iss) (match_descendants root (λ n. is_ident n.expr var_request))
  reject (not (constrains bounds_resource root)) unbound_resource
  reject (is_empty iss.require && not (constrains (bounds_caller (identity_claims iss)) root))
      (unbound_caller (identity_claims iss) iss.name)

pub data Warning : Type 0 where
  deprecated_resources resources_shape_read : Warning

unfoldable pub condition_warnings : Expr → List Warning
condition_warnings root =
    (if is_empty (match_descendants root (λ n. is_request_field n.expr (codes "resources")))
      then []
      else deprecated_resources ∷ [])
    ++ (if is_empty (match_descendants root (λ n. resources_shape n.expr))
        then []
        else resources_shape_read ∷ [])
