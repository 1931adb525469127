-- ===== src/Base/Lists.antt =====
-- Lists measured by native numbers, predicates over all entries, and tests over lists.
use Prim.Native.Nat.{ℕ, suc, ◌+◌}
use mathlib.Core.Path.{◌≡◌, refl}
use mathlib.Core.Bool.{Bool, true, false, ◌&&◌, ◌||◌}
use mathlib.Core.Logic.{◌⊎◌, inl, inr}
use mathlib.Core.List.{List, [], ◌∷◌, ◌++◌}
use native.Mathlib.Omega.{arith}
use gh_token_broker.Base.Tests.{Bool-cases}

module _ {ℓ} {A : Type ℓ} where
  abbrev pub length : List A → ℕ
  length [] = 0
  length (x ∷ xs) = suc (length xs)

  pub length-append : (xs ys : List A) → length (xs ++ ys) ≡ length xs + length ys
  length-append [] ys = omega arith
  length-append (x ∷ xs) ys = omega (arith, length-append xs ys)

  abbrev pub all : (A → Bool) → List A → Bool
  all p [] = true
  all p (x ∷ xs) = p x && all p xs

  pub all-append :
      (p : A → Bool) (xs ys : List A)
      → all p (xs ++ ys) ≡ true
      → (all p xs ≡ true) × (all p ys ≡ true)
  all-append p [] ys h = (refl, h)
  all-append p (x ∷ xs) ys h = ground (arith, all-append p xs ys)

  abbrev pub any : (A → Bool) → List A → Bool
  any p [] = false
  any p (x ∷ xs) = p x || any p xs

  abbrev pub is_empty : List A → Bool
  is_empty [] = true
  is_empty (x ∷ xs) = false

module _ {ℓ κ} {A : Type ℓ} (P : A → Type κ) where
  abbrev pub All : List A → Type κ
  All [] = Unit
  All (x ∷ xs) = P x × All xs

  pub All-append : (xs ys : List A) → All xs → All ys → All (xs ++ ys)
  All-append [] ys hx hy = hy
  All-append (x ∷ xs) ys (p, hx) hy = (p, All-append xs ys hx hy)

pub All-map {ℓ κ η} :
    {A : Type ℓ} {P : A → Type κ} {Q : A → Type η} (xs : List A)
    → ((x : A) → P x → Q x)
    → All P xs
    → All Q xs
All-map [] f h = tt
All-map (x ∷ xs) f (p, h) = (f x p, All-map xs f h)

-- Some entry of the list satisfies the predicate.
abbrev pub Some {ℓ} : {A : Type ℓ} → (A → Type 0) → List A → Type 0
Some P [] = ⊥
Some P (x ∷ xs) = P x ⊎ Some P xs

pub Some-map {ℓ} :
    {A : Type ℓ} {P Q : A → Type 0} (xs : List A) → ((x : A) → P x → Q x) → Some P xs → Some Q xs
Some-map [] f h = absurd h
Some-map (x ∷ xs) f (inl p) = inl (f x p)
Some-map (x ∷ xs) f (inr h) = inr (Some-map xs f h)

-- A test that some entry passes picks an entry, with what is known of all.
pub any-pick {ℓ κ} :
    {A : Type ℓ} {Q : A → Type κ} (p : A → Bool) (xs : List A)
    → any p xs ≡ true
    → All Q xs
    → (x : A) × (p x ≡ true) × Q x
any-pick p [] h all = cc
any-pick p (x ∷ xs) h (q, qs) = elim (Bool-cases (p x)) [
  | inl yes_x ↦ (x, yes_x, q)
  | inr no_x ↦ any-pick p xs (ground arith) qs
]
