-- ===== src/GenSchema.antt =====
-- cmd/gen-schema/main.go: `permissionsSchema`, the JSON schema that the generator writes for a
-- grant, built from the permission catalog.
pub mod Accepts
pub mod Tests
use gh_token_broker.Base.{ℕ, Bool, false, Option, none, some, List, [], ◌∷◌, Str}
use gh_token_broker.Base.Map.{Map, lookup, insert}
use gh_token_broker.Base.Sort.{sort}
use gh_token_broker.Perm.Catalog.{catalog}

-- The fields of `jsonschema.Schema` that the function sets. The schema of a property has an enum
-- only, and stands for it. `additional` is the boolean schema for all other properties.
pub record ObjectSchema : Type 0 where
  properties : Map (List Str)
  min_properties : ℕ
  additional : Bool

-- the keys of a Go map
unfoldable pub keys_of : Map (List Str) → List Str
keys_of [] = []
keys_of ((k, ls) ∷ m) = k ∷ keys_of m

-- `perm.Catalog[key]`: nil for a missing key
abbrev pub levels_or_nil : Option (List Str) → List Str
levels_or_nil none = []
levels_or_nil (some ls) = ls

-- the loop over the sorted keys
unfoldable pub set_enums : Map (List Str) → List Str → Map (List Str) → Map (List Str)
set_enums table [] props = props
set_enums table (key ∷ keys) props =
    set_enums table keys (insert key (levels_or_nil (lookup key table)) props)

unfoldable pub permissions_schema : ObjectSchema
unfolding set_enums keys_of
permissions_schema = record {
  properties = set_enums catalog (sort (keys_of catalog)) [];
  min_properties = 1;
  additional = false;
}
