-- ===== src/Resource/Parse.antt =====
-- internal/resource/resource.go: `Parse`, `ParseAll` and the accessors of resources. An error is a
-- value with one constructor for each message; its arguments are those that the message prints.
use gh_token_broker.Base.{
  ℕ, Bool, true, false, ◌&&◌, ◌||◌, not, Option, none, some, List, [], ◌∷◌, ◌++◌, map, Str, codes,
  ◌==◌, if◌then◌else◌, ltb, is_empty, length, cut, Outcome, ok, err, ◌>>=◌, ◌>>◌, reject, wrap,
}
use gh_token_broker.Resource.Pattern.{
  match_owner, match_slug, match_repo, max_owner_len, max_repo_len,
}

abbrev pub Kind : Type 0
Kind = Str

abbrev pub kind_repo : Kind
kind_repo = codes "repo"

abbrev pub kind_org : Kind
kind_org = codes "org"

abbrev pub kind_enterprise : Kind
kind_enterprise = codes "enterprise"

pub record Resource : Type 0 where
  pub kind : Kind
  pub owner : Str
  pub name : Str
  pub raw : Str

pub data Error : Type 0 where
  empty_resource : Error
  invalid_repo invalid_org invalid_enterprise invalid_value : Str → Error → Error
  unknown_prefix : Str → Str → Error
  unprefixed : Str → Error
  not_owner_name : Error
  in_owner in_name : Error → Error
  empty_part bad_owner bad_repo_name bad_slug : Error
  too_long : ℕ → Error
  reserved_name : Str → Error
  no_values : Error
  kinds_differ owners_differ : Str → Str → Error
  not_single : Kind → ℕ → Error

unfoldable pub require_owner : Str → Outcome Error Str
require_owner value = do
  reject (is_empty value) empty_part
  reject (ltb max_owner_len (length value)) (too_long max_owner_len)
  reject (not (match_owner value)) bad_owner
  ok value

unfoldable pub require_repo_name : Str → Outcome Error Str
require_repo_name value = do
  reject (is_empty value) empty_part
  reject (ltb max_repo_len (length value)) (too_long max_repo_len)
  reject (value == codes "." || value == codes "..") (reserved_name value)
  reject (not (match_repo value)) bad_repo_name
  ok value

unfoldable pub require_slug : Str → Outcome Error Str
require_slug value = do
  reject (is_empty value) empty_part
  reject (not (match_slug value)) bad_slug
  ok value

abbrev pub both_parts : Option (Str × Str) → Outcome Error (Str × Str)
both_parts none = err not_owner_name
both_parts (some (owner, name)) = do
  o ← wrap in_owner (require_owner owner)
  n ← wrap in_name (require_repo_name name)
  ok (o, n)

unfoldable pub split_owner_name : Str → Outcome Error (Str × Str)
split_owner_name remainder = both_parts (cut b'/' remainder)

abbrev pub known_kind : Option (Str × Str) → Option (Str × Str)
known_kind none = none
known_kind (some (candidate, remainder)) =
    if candidate == kind_repo || candidate == kind_org || candidate == kind_enterprise
    then some (candidate, remainder)
    else none

unfoldable pub split_prefix : Str → Option (Str × Str)
split_prefix raw = known_kind (cut b':' raw)

unfoldable pub repo_resource : Str → Str → Resource
repo_resource owner name = record {
  kind = kind_repo;
  owner = owner;
  name = name;
  raw = codes "repo:" ++ (owner ++ (b'/' ∷ name));
}

unfoldable pub org_resource : Str → Resource
org_resource owner = record {
  kind = kind_org;
  owner = owner;
  name = [];
  raw = codes "org:" ++ owner;
}

unfoldable pub enterprise_resource : Str → Resource
enterprise_resource owner = record {
  kind = kind_enterprise;
  owner = owner;
  name = [];
  raw = codes "enterprise:" ++ owner;
}

-- the `switch prefix` of `Parse`
unfoldable pub parse_prefixed : Str → Str → Str → Outcome Error Resource
parse_prefixed raw prefix remainder =
    if prefix == kind_repo
    then (do
      (owner, name) ← wrap (invalid_repo raw) (split_owner_name remainder)
      ok (repo_resource owner name))
    else if prefix == kind_org
    then (do owner ← wrap (invalid_org raw) (require_owner remainder); ok (org_resource owner))
    else if prefix == kind_enterprise
    then (do
      owner ← wrap (invalid_enterprise raw) (require_slug remainder)
      ok (enterprise_resource owner))
    else err (unknown_prefix prefix raw)

-- `strings.Contains(raw, "/")`
abbrev pub has_part : Option (Str × Str) → Bool
has_part none = false
has_part (some p) = true

-- What follows the prefix branch of `Parse`.
unfoldable pub parse_plain : Str → Outcome Error Resource
parse_plain raw =
    if has_part (cut b'/' raw)
    then (do
      (owner, name) ← wrap (invalid_value raw) (split_owner_name raw)
      ok (repo_resource owner name))
    else err (unprefixed raw)

unfoldable pub parse : Str → Outcome Error Resource
unfolding parse_prefixed parse_plain split_prefix split_owner_name
parse raw = if is_empty raw then err empty_resource else elim (split_prefix raw) [
  | some (prefix, remainder) ↦ parse_prefixed raw prefix remainder
  | none ↦ parse_plain raw
]

-- the first loop of `ParseAll`
unfoldable pub parse_each : List Str → Outcome Error (List Resource)
parse_each [] = ok []
parse_each (value ∷ values) = do r ← parse value; rs ← parse_each values; ok (r ∷ rs)

-- the second loop of `ParseAll`
unfoldable pub check_same : Resource → List Resource → Outcome Error (Unit {0})
check_same first [] = ok tt
check_same first (r ∷ rs) = do
  reject (not (r.kind == first.kind)) (kinds_differ first.kind r.kind)
  reject (not (r.owner == first.owner)) (owners_differ first.owner r.owner)
  check_same first rs

-- What follows the first loop; `resources[0]` of an empty list does not occur.
unfoldable pub check_all : List Resource → Outcome Error (List Resource)
unfolding check_same
check_all [] = err no_values
check_all (first ∷ rest) = do
  check_same first rest
  reject
      ((first.kind == kind_org || first.kind == kind_enterprise) && ltb 1 (length (first ∷ rest)))
      (not_single first.kind (length (first ∷ rest)))
  ok (first ∷ rest)

unfoldable pub parse_all : List Str → Outcome Error (List Resource)
unfolding parse_each check_all
parse_all values = do
  reject (is_empty values) no_values
  resources ← parse_each values
  check_all resources

-- `resources[0].Owner`: `none` is the panic of an index out of range.
unfoldable pub owner_of : List Resource → Option Str
owner_of [] = none
owner_of (r ∷ rs) = some r.owner

-- `len(resources) == 0 || resources[0].Kind != KindRepo`
abbrev pub starts_repo : List Resource → Bool
starts_repo [] = false
starts_repo (r ∷ rs) = r.kind == kind_repo

unfoldable pub repo_full_names : List Resource → List Str
repo_full_names rs = if starts_repo rs then map (λ r. r.owner ++ (b'/' ∷ r.name)) rs else []

unfoldable pub repo_short_names : List Resource → List Str
repo_short_names rs = if starts_repo rs then map (λ r. r.name) rs else []

unfoldable pub raw_strings : List Resource → List Str
raw_strings rs = map (λ r. r.raw) rs
