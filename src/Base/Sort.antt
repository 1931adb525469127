-- ===== src/Base/Sort.antt =====
-- `sort.Strings`: the strings in increasing order of their bytes.
use mathlib.Core.Path.{◌≡◌, refl}
use mathlib.Core.Logic.{inl, inr}
use mathlib.Core.Bool.{Bool, true, false, ◌||◌}
use mathlib.Core.List.{List, [], ◌∷◌}
use native.Mathlib.Omega.{arith}
use gh_token_broker.Base.Tests.{eqb, ltb, if◌then◌else◌, Bool-cases}
use gh_token_broker.Base.Lists.{length}
use gh_token_broker.Base.Text.{Str, ◌==◌, contains}

unfoldable pub str_le : Str → Str → Bool
str_le [] t = true
str_le (a ∷ s) [] = false
str_le (a ∷ s) (b ∷ t) = elim (ltb a b) [
  | true ↦ true
  | false ↦ elim (eqb a b) [ true ↦ str_le s t | false ↦ false ]
]

unfoldable pub insert_sorted : Str → List Str → List Str
insert_sorted x [] = x ∷ []
insert_sorted x (y ∷ ys) = if str_le x y then x ∷ y ∷ ys else y ∷ insert_sorted x ys

unfoldable pub sort : List Str → List Str
unfolding insert_sorted str_le
sort [] = []
sort (x ∷ xs) = insert_sorted x (sort xs)

pub str_le-total : (s t : Str) → str_le s t ≡ false → str_le t s ≡ true
unfolding str_le
str_le-total [] t h = cc
str_le-total (a ∷ s) [] h = refl
str_le-total (a ∷ s) (b ∷ t) h = ground (arith, str_le-total s t)

pub str_le_antisymm : (s t : Str) → str_le s t ≡ true → str_le t s ≡ true → s ≡ t
unfolding str_le
str_le_antisymm [] [] h k = refl
str_le_antisymm [] (b ∷ t) h k = cc
str_le_antisymm (a ∷ s) [] h k = cc
str_le_antisymm (a ∷ s) (b ∷ t) h k = ground (arith, str_le_antisymm s t)

-- Each entry is at most the next.
abbrev pub IsSorted : List Str → Type 0
IsSorted [] = Unit
IsSorted (x ∷ []) = Unit
IsSorted (x ∷ y ∷ ys) = (str_le x y ≡ true) × IsSorted (y ∷ ys)

IsSorted-tail : (y : Str) (ys : List Str) → IsSorted (y ∷ ys) → IsSorted ys
IsSorted-tail y [] h = tt
IsSorted-tail y (z ∷ ys) (p, h) = h

insert_sorted-IsSorted : (x : Str) (ys : List Str) → IsSorted ys → IsSorted (insert_sorted x ys)
unfolding insert_sorted
insert_sorted-IsSorted x [] h = tt
insert_sorted-IsSorted x (y ∷ []) h = ground (arith, str_le-total x y)
insert_sorted-IsSorted x (y ∷ z ∷ zs) h = elim (Bool-cases (str_le x y)) [
  | inl le ↦ rw le (le, h)
  | inr gt ↦ ground (arith, str_le-total x y, insert_sorted-IsSorted x (z ∷ zs) h.1)
]

pub sort-IsSorted : (xs : List Str) → IsSorted (sort xs)
unfolding sort
sort-IsSorted [] = tt
sort-IsSorted (x ∷ xs) = insert_sorted-IsSorted x (sort xs) (sort-IsSorted xs)

contains-insert_sorted :
    (x : Str) (ys : List Str) (a : Str)
    → contains (insert_sorted x ys) a ≡ (x == a || contains ys a)
unfolding insert_sorted contains
contains-insert_sorted x [] a = ground arith
contains-insert_sorted x (y ∷ ys) a = ground (arith, contains-insert_sorted x ys a)

-- Sorting changes the order only.
pub contains-sort : (xs : List Str) (a : Str) → contains (sort xs) a ≡ contains xs a
unfolding sort contains
contains-sort [] a = refl
contains-sort (x ∷ xs) a = ground (arith, contains-insert_sorted x (sort xs) a, contains-sort xs a)

length-insert_sorted : (x : Str) (ys : List Str) → length (insert_sorted x ys) ≡ length (x ∷ ys)
unfolding insert_sorted
length-insert_sorted x [] = refl
length-insert_sorted x (y ∷ ys) = ground (arith, length-insert_sorted x ys)

pub length-sort : (xs : List Str) → length (sort xs) ≡ length xs
unfolding sort
length-sort [] = refl
length-sort (x ∷ xs) = ground (arith, length-insert_sorted x (sort xs), length-sort xs)
