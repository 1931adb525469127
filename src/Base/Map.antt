-- ===== src/Base/Map.antt =====
-- A Go map: its entries in the order in which `range` happens to visit them. Theorems that
-- range over all lists of entries hold for every such order.
use mathlib.Core.Path.{◌≡◌, refl}
use mathlib.Core.Option.{Option, none, some}
use mathlib.Core.List.{List, [], ◌∷◌}
use native.Mathlib.Omega.{arith}
use gh_token_broker.Base.Tests.{if◌then◌else◌}
use gh_token_broker.Base.Text.{Str, ◌==◌, ==_iff}

abbrev pub Map {ℓ} : Type ℓ → Type ℓ
Map V = List (Str × V)

module _ {ℓ} {V : Type ℓ} where
  -- `m[k]`, with the comma-ok flag as an option
  unfoldable pub lookup : Str → Map V → Option V
  lookup key [] = none
  lookup key ((here, val) ∷ rest) = if here == key then some val else lookup key rest

  -- `m[k] = v`
  unfoldable pub insert : Str → V → Map V → Map V
  insert key val [] = (key, val) ∷ []
  insert key val ((here, old) ∷ rest) =
      if here == key then (key, val) ∷ rest else (here, old) ∷ insert key val rest

  -- No key has two entries.
  abbrev pub IsMap : Map V → Type ℓ
  IsMap [] = Unit
  IsMap ((k, v) ∷ m) = (lookup k m ≡ none) × IsMap m

  pub lookup-nil : (k : Str) → lookup k [] ≡ none
  unfolding lookup
  lookup-nil k = refl

  -- Writing at one key changes what is read there, and nothing else.
  pub lookup-insert :
      (spot asked : Str) (new : V) (m : Map V)
      → lookup asked (insert spot new m) ≡ (if spot == asked then some new else lookup asked m)
  unfolding lookup insert
  lookup-insert spot asked new [] = refl
  lookup-insert spot asked new ((i, old) ∷ rest) =
      ground
        (arith, ==_iff i spot, lookup-insert spot asked new rest, ==_iff spot asked, ==_iff i asked)

  pub insert-IsMap : (k : Str) (v : V) (m : Map V) → IsMap m → IsMap (insert k v m)
  unfolding insert
  insert-IsMap k v [] h = (lookup-nil k, tt)
  insert-IsMap k v ((i, w) ∷ m) (fresh, h) =
      ground (arith, ==_iff i k, ==_iff k i, lookup-insert k i v m, insert-IsMap k v m h)
