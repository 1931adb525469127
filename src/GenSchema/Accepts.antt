-- ===== src/GenSchema/Accepts.antt =====
-- cmd/gen-schema/main.go against internal/config/config.go: the schema of a grant and the check
-- of a grant agree.
use gh_token_broker.Base.{
  ◌<◌, ◌≡◌, refl, ◌↔◌, Bool, true, false, not, ◌&&◌, ◌||◌, Option, none, some, List, [], ◌∷◌, arith,
  Str, ==_iff, if◌then◌else◌, leb, contains, length, all, is_empty, ok, ◌>>◌, reject, each_iff,
}
use gh_token_broker.Base.Map.{Map, lookup, insert, lookup-insert, lookup-nil}
use gh_token_broker.Base.Sort.{sort, contains-sort}
use gh_token_broker.Config.Validate.{check_permissions, unknown_key, unsupported_level}
use gh_token_broker.Perm.Catalog.{catalog}
use gh_token_broker.Perm.Levels.{found, allows, valid_key, valid_key_level}
use gh_token_broker.Perm.Scope.{Permissions}
use gh_token_broker.GenSchema.{ObjectSchema, keys_of, levels_or_nil, set_enums, permissions_schema}

-- What JSON Schema says of a property: one without a schema is left to `additionalProperties`, and
-- an empty enum is not written out, so that it forbids nothing.
abbrev pub accepts_level : Bool → Option (List Str) → Str → Bool
accepts_level additional none level = additional
accepts_level additional (some enum) level = is_empty enum || contains enum level

abbrev pub accepts_entry : ObjectSchema → Str × Str → Bool
accepts_entry s (key, level) = accepts_level s.additional (lookup key s.properties) level

-- What JSON Schema says of an object under `minProperties`, `properties`, `additionalProperties`.
abbrev pub accepts : ObjectSchema → Permissions → Bool
accepts s grant = leb s.min_properties (length grant) && all (accepts_entry s) grant

contains-keys_of : (m : Map (List Str)) (k : Str) → contains (keys_of m) k ≡ found (lookup k m)
unfolding keys_of contains lookup
contains-keys_of [] k = refl
contains-keys_of ((i, ls) ∷ m) k = ground (arith, contains-keys_of m k)

lookup-set_enums :
    (table : Map (List Str)) (keys : List Str) (props : Map (List Str)) (k : Str)
    → lookup k (set_enums table keys props)
      ≡ (if contains keys k then some (levels_or_nil (lookup k table)) else lookup k props)
unfolding set_enums contains
lookup-set_enums table [] props k = refl
lookup-set_enums table (i ∷ keys) props k = ground (
  arith,
  lookup-set_enums table keys (insert i (levels_or_nil (lookup i table)) props) k,
  lookup-insert i k (levels_or_nil (lookup i table)) props,
  ==_iff i k,
)

-- The schema has exactly the keys of the catalog, with the catalog's levels.
lookup-permissions_schema : (k : Str) → lookup k permissions_schema.properties ≡ lookup k catalog
unfolding permissions_schema
lookup-permissions_schema k = ground (
  arith,
  lookup-set_enums catalog (sort (keys_of catalog)) [] k,
  contains-sort (keys_of catalog) k,
  contains-keys_of catalog k,
  lookup-nil {V = List Str} k,
)

abbrev has_level : Str × List Str → Bool
has_level (k, ls) = not (is_empty ls)

-- Every key of the catalog has a level.
all-catalog : all has_level catalog ≡ true
unfolding catalog
all-catalog = refl

lookup-has_level :
    (m : Map (List Str)) (k : Str) (ls : List Str)
    → all has_level m ≡ true
    → lookup k m ≡ some ls
    → is_empty ls ≡ false
unfolding lookup
lookup-has_level [] k ls h e = cc
lookup-has_level ((i, here) ∷ m) k ls h e = ground (arith, lookup-has_level m k ls)

-- An entry passes the schema exactly when its key is in the catalog and supports its level.
accepts_level-lookup :
    (o : Option (List Str)) (level : Str)
    → ((ls : List Str) → o ≡ some ls → is_empty ls ≡ false)
    → accepts_level false o level ≡ (found o && allows o level)
unfolding allows
accepts_level-lookup none level h = refl
accepts_level-lookup (some ls) level h = ground (arith, h ls refl)

accepts_entry-permissions_schema :
    (key level : Str)
    → accepts_entry permissions_schema (key, level) ≡ (valid_key key && valid_key_level key level)
unfolding valid_key valid_key_level permissions_schema
accepts_entry-permissions_schema key level = rw (lookup-permissions_schema key) (
    accepts_level-lookup (lookup key catalog) level
      (λ ls e. lookup-has_level catalog key ls all-catalog e))

check_entry :
    (name key level : Str)
    → (accepts_entry permissions_schema (key, level) ≡ true) ↔ (
        (reject (not (valid_key key)) (unknown_key name key)
          >> reject (not (valid_key_level key level)) (unsupported_level name key level))
        ≡ ok tt)
check_entry name key level = ground (arith, accepts_entry-permissions_schema key level)

least-permissions_schema : permissions_schema.min_properties ≡ 1
unfolding permissions_schema
least-permissions_schema = refl

-- A grant satisfies the JSON schema that `permissionsSchema` builds exactly if it has at least one
-- entry and `checkPermissions` accepts it.
pub accepts-permissions_schema_iff :
    (name : Str) (grant : Permissions)
    → (accepts permissions_schema grant ≡ true)
      ↔ ((0 < length grant) × (check_permissions name grant ≡ ok tt))
unfolding check_permissions
accepts-permissions_schema_iff name grant =
    let (to, from) =
      each_iff
        (λ (k, v).
          reject (not (valid_key k)) (unknown_key name k)
          >> reject (not (valid_key_level k v)) (unsupported_level name k v))
        (accepts_entry permissions_schema) (λ (k, v). check_entry name k v) grant in
    ground (arith, least-permissions_schema)
