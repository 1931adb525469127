-- ===== src/Server/Scope.antt =====
-- internal/server/server.go: scope strings and permission maps.
use gh_token_broker.Base.{
  Bool, true, false, not, ◌||◌, Option, none, some, List, [], ◌∷◌, ◌++◌, map, Str, ◌==◌,
  if◌then◌else◌, eqb, is_empty, length,
}
use gh_token_broker.Base.Map.{Map, lookup, insert}
use gh_token_broker.Base.Sort.{sort}
use gh_token_broker.Perm.Levels.{valid_key_level}
use gh_token_broker.Perm.Scope.{Permissions}
use gh_token_broker.Policy.Engine.{keys}
use gh_token_broker.Server.Fields.{fields, cut_last, join}

abbrev pub checked_token : Option (Str × Str) → Option (Str × Str)
checked_token none = none
checked_token (some (key, level)) =
    if is_empty key || is_empty level
    then none
    else if not (valid_key_level key level)
    then none
    else some (key, level)

-- One round of the loop of `decodeScope`: `idx <= 0 || idx == len(tok)-1` holds exactly if there is
-- no colon or nothing stands before or after the last one.
unfoldable pub decode_token : Str → Option (Str × Str)
decode_token tok = checked_token (cut_last b':' tok)

-- the loop of `decodeScope`
unfoldable pub decode_fields : Permissions → List Str → Option Permissions
decode_fields perms [] = some perms
decode_fields perms (tok ∷ toks) = elim (decode_token tok) [
  | none ↦ none
  | some (key, level) ↦ decode_fields (insert key level perms) toks
]

unfoldable pub decode_scope : Str → Option Permissions
unfolding decode_fields decode_token
decode_scope scope = if is_empty (fields scope) then none else decode_fields [] (fields scope)

-- `perms[k]`: the empty string for a missing key.
abbrev pub or_empty : Option Str → Str
or_empty none = []
or_empty (some v) = v

unfoldable pub encode_token : Permissions → Str → Str
encode_token perms k = k ++ (b':' ∷ or_empty (lookup k perms))

unfoldable pub encode_scope : Permissions → Str
unfolding encode_token
encode_scope perms = join (map (encode_token perms) (sort (keys perms)))

-- the loop of `scopeEqual`
unfoldable pub agrees_with : Map Str → Map Str → Bool
agrees_with b [] = true
agrees_with b ((k, v) ∷ rest) =
    if not (or_empty (lookup k b) == v) then false else agrees_with b rest

unfoldable pub scope_equal : Map Str → Map Str → Bool
unfolding agrees_with
scope_equal a b = if not (eqb (length a) (length b)) then false else agrees_with b a
