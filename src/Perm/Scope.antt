-- ===== src/Perm/Scope.antt =====
-- internal/perm/perm.go: the operations on permission maps. `for k, v := range m` is a recursion
-- over the entries of `m`.
use gh_token_broker.Base.{
  ℕ, Bool, true, false, not, Option, none, some, List, [], ◌∷◌, ◌++◌, map, Str, codes,
  if◌then◌else◌, ltb,
}
use gh_token_broker.Base.Map.{Map, lookup, insert}
use gh_token_broker.Perm.Levels.{valid_key, valid_level, level_ord, level_name}

abbrev pub Permissions : Type 0
Permissions = Map Str

-- the loop of `Normalize`, over what it has put into `out`
unfoldable pub normalize_into : Permissions → Permissions → Permissions
normalize_into out [] = out
normalize_into out ((k, v) ∷ rest) =
    normalize_into
      (if not (valid_key k) then out else if not (valid_level v) then out else insert k v out) rest

unfoldable pub normalize : Permissions → Permissions
unfolding normalize_into
normalize m = normalize_into [] m

-- the inner loop of `Intersect`: `none` where `present` becomes false
unfoldable pub min_level : Str → ℕ → List Permissions → Option ℕ
min_level k low [] = some low
min_level k low (other ∷ rest) = elim (lookup k other) [
  | none ↦ none
  | some ov ↦ min_level k (if ltb (level_ord ov) low then level_ord ov else low) rest
]

abbrev pub keep_level : Str → Option ℕ → Permissions → Permissions
keep_level k none result = result
keep_level k (some low) result = insert k (level_name low) result

-- the outer loop of `Intersect`
unfoldable pub intersect_into : List Permissions → Permissions → Permissions → Permissions
intersect_into others result [] = result
intersect_into others result ((k, v) ∷ rest) =
    intersect_into others (keep_level k (min_level k (level_ord v) others) result) rest

unfoldable pub intersect : List Permissions → Permissions
unfolding intersect_into min_level normalize
intersect [] = []
intersect (m ∷ ms) = intersect_into (map normalize ms) [] (normalize m)

-- `!ok || levels[gv] < levels[v]`
abbrev pub lacks : Option Str → Str → Bool
lacks none v = true
lacks (some gv) v = ltb (level_ord gv) (level_ord v)

-- the loop of `Satisfies`
unfoldable pub covers : Permissions → Permissions → Bool
covers g [] = true
covers g ((k, v) ∷ rest) = if lacks (lookup k g) v then false else covers g rest

unfoldable pub satisfies : Permissions → Permissions → Bool
unfolding covers normalize
satisfies required granted = covers (normalize granted) (normalize required)

abbrev pub note_gap : Str → Str → Option Str → Map Str → Map Str
note_gap k v none out = insert k (codes "need " ++ (v ++ codes ", not granted")) out
note_gap k v (some gv) out =
    if ltb (level_ord gv) (level_ord v)
    then insert k (codes "need " ++ (v ++ (codes ", have " ++ gv))) out
    else out

-- the loop of `Gaps`
unfoldable pub gaps_into : Permissions → Map Str → Permissions → Map Str
gaps_into g out [] = out
gaps_into g out ((k, v) ∷ rest) = gaps_into g (note_gap k v (lookup k g) out) rest

-- `if len(gaps) == 0 { return nil }`
abbrev pub nil_if_empty : Map Str → Option (Map Str)
nil_if_empty [] = none
nil_if_empty (e ∷ out) = some (e ∷ out)

unfoldable pub gaps : Permissions → Permissions → Option (Map Str)
unfolding gaps_into normalize
gaps required granted = nil_if_empty (gaps_into (normalize granted) [] (normalize required))
