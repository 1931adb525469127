-- ===== src/Base/Text.antt =====
-- Go strings: sequences of bytes, compared byte by byte.
use Prim.Native.Nat.{ℕ}
use Prim.Native.Char.{code}
use Prim.Native.String.{String}
use mathlib.Core.Path.{◌≡◌, refl}
use mathlib.Core.Logic.{◌↔◌, ◌≢◌, inl, inr}
use mathlib.Core.Bool.{Bool, true, false, ◌||◌}
use mathlib.Core.Option
use mathlib.Core.Option.{Option, none, some}
use mathlib.Core.List.{List, [], ◌∷◌, ◌++◌}
use native.Mathlib.Omega.{arith}
use gh_token_broker.Base.Tests.{eqb, Option-cases, if◌then◌else◌}

abbrev pub Str : Type 0
Str = List ℕ

-- A string literal of the source: the bytes of an ASCII text.
abbrev pub codes : String → Str
codes String.[] = []
codes (String.◌∷◌ c s) = code c ∷ codes s

infix 50 ◌==◌
unfoldable pub ◌==◌ : Str → Str → Bool
[] == [] = true
[] == (b ∷ t) = false
(a ∷ s) == [] = false
(a ∷ s) == (b ∷ t) = elim (eqb a b) [ true ↦ s == t | false ↦ false ]

==-sound : (s t : Str) → (s == t) ≡ true → s ≡ t
unfolding ◌==◌
==-sound [] [] h = refl
==-sound [] (b ∷ t) h = ground arith
==-sound (a ∷ s) [] h = ground arith
==-sound (a ∷ s) (b ∷ t) h = ground (arith, ==-sound s t)

pub ==_refl : (s : Str) → (s == s) ≡ true
unfolding ◌==◌
==_refl [] = refl
==_refl (a ∷ s) = ground (arith, ==_refl s)

pub ==_iff : (s t : Str) → ((s == t) ≡ true) ↔ (s ≡ t)
==_iff s t = (==-sound s t, λ e. ground (arith, ==_refl s))

-- `slices.Contains`
unfoldable pub contains : List Str → Str → Bool
contains [] a = false
contains (x ∷ xs) a = if x == a then true else contains xs a

-- `strings.Cut` at a separator of one byte: what stands before and after its first occurrence.
-- `raw[:i]` and `raw[i+1:]` at `i = strings.Index(raw, sep)` are the same two parts.
unfoldable pub cut : ℕ → Str → Option (Str × Str)
cut sep [] = none
cut sep (c ∷ s) = if eqb c sep then some ([], s) else Option.map (λ (b, a). (c ∷ b, a)) (cut sep s)

-- No byte of the string is `sep`.
abbrev pub Without : ℕ → Str → Type 0
Without sep [] = Unit
Without sep (c ∷ s) = (c ≢ sep) × Without sep s

pub cut_of_Without : (sep : ℕ) (s : Str) → Without sep s → cut sep s ≡ none
unfolding cut
cut_of_Without sep [] h = refl
cut_of_Without sep (c ∷ s) (p, h) = ground (arith, cut_of_Without sep s h)

pub cut-append : (sep : ℕ) (s t : Str) → Without sep s → cut sep (s ++ (sep ∷ t)) ≡ some (s, t)
unfolding cut
cut-append sep [] t h = ground arith
cut-append sep (c ∷ s) t (p, h) = ground (arith, cut-append sep s t h)

pub cut_sound : (sep : ℕ) (s b a : Str) → cut sep s ≡ some (b, a) → s ≡ b ++ (sep ∷ a)
unfolding cut
cut_sound sep [] b a h = cc
cut_sound sep (c ∷ s) b a h = elim (Option-cases (cut sep s)) [
  | inl missing ↦ ground arith
  | inr ((b', a'), e) ↦ ground (arith, cut_sound sep s b' a' e)
]

pub Without-append : (sep : ℕ) (s t : Str) → Without sep s → Without sep t → Without sep (s ++ t)
Without-append sep [] t hs ht = ht
Without-append sep (c ∷ s) t (p, hs) ht = (p, Without-append sep s t hs ht)

pub contains-append :
    (xs ys : List Str) (a : Str) → contains (xs ++ ys) a ≡ (contains xs a || contains ys a)
unfolding contains
contains-append [] ys a = refl
contains-append (x ∷ xs) ys a = ground (arith, contains-append xs ys a)
