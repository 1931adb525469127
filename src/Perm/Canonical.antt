-- ===== src/Perm/Canonical.antt =====
-- Comparing the sizes of a map and its normal form tells whether the map is canonical.
use gh_token_broker.Base.{
  ℕ, suc, ◌+◌, ◌≤◌, ◌≡◌, ◌↔◌, refl, Bool, false, ◌&&◌, none, some, [], ◌∷◌, arith, Str, ◌==◌,
  ==_iff, ==_refl, if◌then◌else◌, length,
}
use gh_token_broker.Base.Map.{lookup, insert, IsMap, lookup-insert, lookup-nil}
use gh_token_broker.Perm.Levels.{valid_key, valid_level}
use gh_token_broker.Perm.Scope.{Permissions, normalize_into, normalize}
use gh_token_broker.Perm.Rank.{IsCanonical}

length-insert_fresh :
    (k v : Str) (m : Permissions) → lookup k m ≡ none → length (insert k v m) ≡ suc (length m)
unfolding lookup insert
length-insert_fresh k v [] h = refl
length-insert_fresh k v ((j, w) ∷ m) h = ground (arith, ==_iff j k, length-insert_fresh k v m)

abbrev fits : Str → Str → Bool
fits k v = valid_key k && valid_level v

abbrev fitting : Permissions → ℕ
fitting [] = 0
fitting ((k, v) ∷ m) = if fits k v then suc (fitting m) else fitting m

-- No key of `m` stands in `out`.
abbrev Fresh : Permissions → Permissions → Type 0
Fresh out m = (k v : Str) → lookup k m ≡ some v → lookup k out ≡ none

lookup-cons_self : (k v : Str) (m : Permissions) → lookup k ((k, v) ∷ m) ≡ some v
unfolding lookup
lookup-cons_self k v m = ground (arith, ==_refl k)

lookup-cons_later :
    (j k v w : Str) (m : Permissions)
    → lookup j m ≡ none
    → lookup k m ≡ some v
    → (lookup k ((j, w) ∷ m) ≡ some v) × ((j == k) ≡ false)
unfolding lookup
lookup-cons_later j k v w m fresh e = ground (arith, ==_iff j k)

Fresh-tail :
    (out : Permissions) (j w : Str) (m : Permissions)
    → lookup j m ≡ none
    → Fresh out ((j, w) ∷ m)
    → Fresh out m
Fresh-tail out j w m fresh h k v e = h k v (lookup-cons_later j k v w m fresh e).0

Fresh-insert :
    (out : Permissions) (j w : Str) (m : Permissions)
    → lookup j m ≡ none
    → Fresh out ((j, w) ∷ m)
    → Fresh (insert j w out) m
Fresh-insert out j w m fresh h k v e =
    let (there, ne) = lookup-cons_later j k v w m fresh e in
    ground (arith, lookup-insert j k w out, h k v there)

length-normalize_into :
    (out m : Permissions)
    → IsMap m
    → Fresh out m
    → length (normalize_into out m) ≡ length out + fitting m
unfolding normalize_into
length-normalize_into out [] h f = omega arith
length-normalize_into out ((j, w) ∷ m) (fresh, h) f = ground (
  arith,
  length-normalize_into out m h (Fresh-tail out j w m fresh f),
  length-normalize_into (insert j w out) m h (Fresh-insert out j w m fresh f),
  length-insert_fresh j w out (f j w (lookup-cons_self j w m)),
)

fitting-le : (m : Permissions) → fitting m ≤ length m
fitting-le [] = omega arith
fitting-le ((k, v) ∷ m) = ground (arith, fitting-le m)

fitting_full : (m : Permissions) → fitting m ≡ length m → IsCanonical m
unfolding lookup
fitting_full [] h k v e = ground arith
fitting_full ((j, w) ∷ m) h k v e =
    ground (arith, fitting-le m, ==_iff j k, fitting_full m (ground (arith, fitting-le m)) k v)

fitting_of_IsCanonical : (m : Permissions) → IsMap m → IsCanonical m → fitting m ≡ length m
fitting_of_IsCanonical [] h c = refl
fitting_of_IsCanonical ((j, w) ∷ m) (fresh, h) c =
    let ih = fitting_of_IsCanonical m h (λ k v e. c k v (lookup-cons_later j k v w m fresh e).0) in
    ground (arith, c j w (lookup-cons_self j w m))

-- For a map with no key twice, `Normalize` keeps the number of entries exactly if every entry has a
-- catalog key and a valid level.
pub length-normalize_iff :
    (m : Permissions) → IsMap m → (length (normalize m) ≡ length m) ↔ IsCanonical m
unfolding normalize
length-normalize_iff m h =
    let same = length-normalize_into [] m h (λ k v e. lookup-nil k) in
    (λ e. fitting_full m (omega arith), λ c. omega (arith, fitting_of_IsCanonical m h c))
