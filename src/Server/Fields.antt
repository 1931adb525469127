-- ===== src/Server/Fields.antt =====
-- Go's `strings.Fields`, `strings.LastIndex` at a separator of one byte, and `strings.Join` with a
-- space, on byte strings.
use gh_token_broker.Base.{
  ℕ, zero, suc, ◌≡◌, ◌≢◌, refl, ap, ◌∙◌, Bool, true, ◌&&◌, ◌||◌, Option, none, some, List, [], ◌∷◌,
  ◌++◌, arith, Str, if◌then◌else◌, eqb, leb, Without,
}
use mathlib.Core.List.{append_assoc, append-nil}

-- tab, line feed, vertical tab, form feed, carriage return and space
unfoldable pub is_ascii_space : ℕ → Bool
is_ascii_space c = (leb 9 c && leb c 13) || eqb c 32

-- The other white space of Unicode in UTF-8: U+0085, U+00A0, U+1680, U+2000 to U+200A, U+2028,
-- U+2029, U+202F, U+205F and U+3000.
unfoldable pub is_space_pair : ℕ → ℕ → Bool
is_space_pair a b = eqb a 0xc2 && (eqb b 0x85 || eqb b 0xa0)

unfoldable pub is_space_triple : ℕ → ℕ → ℕ → Bool
is_space_triple a b c =
    (eqb a 0xe1 && (eqb b 0x9a && eqb c 0x80))
    || ((eqb a 0xe2
          && ((eqb b 0x80
                && ((leb 0x80 c && leb c 0x8a) || (eqb c 0xa8 || (eqb c 0xa9 || eqb c 0xaf))))
              || (eqb b 0x81 && eqb c 0x9f)))
        || (eqb a 0xe3 && (eqb b 0x80 && eqb c 0x80)))

-- How many bytes the white space at the head of a string takes, 0 if there is none.
unfoldable pub space_width : Str → ℕ
unfolding is_ascii_space is_space_pair is_space_triple
space_width [] = 0
space_width (a ∷ []) = if is_ascii_space a then 1 else 0
space_width (a ∷ b ∷ []) = if is_ascii_space a then 1 else if is_space_pair a b then 2 else 0
space_width (a ∷ b ∷ c ∷ s) =
    if is_ascii_space a
    then 1
    else if is_space_pair a b
    then 2
    else if is_space_triple a b c
    then 3
    else 0

abbrev pub push_field : Str → List Str → List Str
push_field [] fields = fields
push_field (c ∷ cur) fields = (c ∷ cur) ∷ fields

-- `skip` counts the bytes of a white space that are still to pass, `cur` is the field so far.
unfoldable pub fields_from : ℕ → Str → Str → List Str
fields_from skip cur [] = push_field cur []
fields_from (suc skip) cur (c ∷ s) = fields_from skip cur s
fields_from zero cur (c ∷ s) = elim (space_width (c ∷ s)) [
  | zero ↦ fields_from zero (cur ++ (c ∷ [])) s
  | suc n ↦ push_field cur (fields_from n [] s)
]

unfoldable pub fields : Str → List Str
unfolding fields_from space_width
fields s = fields_from zero [] s

-- The parts before and after the last occurrence of `sep`.
unfoldable pub cut_last : ℕ → Str → Option (Str × Str)
cut_last sep [] = none
cut_last sep (c ∷ s) = elim (cut_last sep s) [
  | some (before, after) ↦ some (c ∷ before, after)
  | none ↦ if eqb c sep then some ([], s) else none
]

unfoldable pub join : List Str → Str
join [] = []
join (t ∷ []) = t
join (t ∷ u ∷ ts) = t ++ (b' ' ∷ join (u ∷ ts))

pub cut_last_of_Without : (sep : ℕ) (s : Str) → Without sep s → cut_last sep s ≡ none
unfolding cut_last
cut_last_of_Without sep [] h = refl
cut_last_of_Without sep (c ∷ s) (p, h) = rw (cut_last_of_Without sep s h) (ground arith)

pub cut_last-append :
    (sep : ℕ) (s t : Str) → Without sep t → cut_last sep (s ++ (sep ∷ t)) ≡ some (s, t)
unfolding cut_last
cut_last-append sep [] t h = rw (cut_last_of_Without sep t h) (ground arith)
cut_last-append sep (c ∷ s) t h = rw (cut_last-append sep s t h)

-- Every byte is printable ASCII without the space, so no white space starts in the string.
abbrev pub Graphic : Str → Type 0
Graphic [] = Unit
Graphic (c ∷ s) = ((leb 33 c && leb c 126) ≡ true) × Graphic s

space_width-graphic : (c : ℕ) (s : Str) → (leb 33 c && leb c 126) ≡ true → space_width (c ∷ s) ≡ 0
unfolding space_width
space_width-graphic c [] h = ground arith
space_width-graphic c (b ∷ []) h = ground arith
space_width-graphic c (b ∷ d ∷ s) h = ground arith

space_width-space : (s : Str) → space_width (b' ' ∷ s) ≡ 1
unfolding space_width
space_width-space [] = refl
space_width-space (b ∷ []) = refl
space_width-space (b ∷ d ∷ s) = refl

fields_from-Graphic :
    (cur t s : Str) → Graphic t → fields_from zero cur (t ++ s) ≡ fields_from zero (cur ++ t) s
unfolding fields_from
fields_from-Graphic cur [] s h = rw append-nil
fields_from-Graphic cur (c ∷ t) s (p, h) =
    rw (space_width-graphic c (t ++ s) p, fields_from)
      (fields_from-Graphic (cur ++ (c ∷ [])) t s h ∙ λ i.
        fields_from zero (append_assoc cur (c ∷ []) t i) s)

-- Every entry is a nonempty graphic string.
abbrev pub AreTokens : List Str → Type 0
AreTokens [] = Unit
AreTokens (t ∷ ts) = ((t ≢ []) × Graphic t) × AreTokens ts

push_field-nonempty : (t : Str) (ts : List Str) → t ≢ [] → push_field t ts ≡ t ∷ ts
push_field-nonempty [] ts h = absurd (h refl)
push_field-nonempty (c ∷ t) ts h = refl

fields_from-space : (t s : Str) → t ≢ [] → fields_from zero t (b' ' ∷ s) ≡ t ∷ fields_from zero [] s
unfolding fields_from
fields_from-space t s h =
    rw (space_width-space s, fields_from) (push_field-nonempty t (fields_from zero [] s) h)

fields_from-end : (t : Str) → t ≢ [] → fields_from zero t [] ≡ t ∷ []
unfolding fields_from
fields_from-end t h = push_field-nonempty t [] h

-- Joining tokens by spaces and splitting at white space gives the tokens back.
fields_from-join : (ts : List Str) → AreTokens ts → fields_from zero [] (join ts) ≡ ts
unfolding join
fields_from-join [] h = unfold fields_from in refl
fields_from-join (t ∷ []) ((ne, g), h) =
    (rw append-nil at (fields_from-Graphic [] t [] g)) ∙ fields_from-end t ne
fields_from-join (t ∷ u ∷ ts) ((ne, g), h) =
    fields_from-Graphic [] t (b' ' ∷ join (u ∷ ts)) g
    ∙ fields_from-space t (join (u ∷ ts)) ne
    ∙ ap (◌∷◌ t) (fields_from-join (u ∷ ts) h)

-- For nonempty tokens of printable ASCII bytes without the space, joining them by spaces and
-- splitting the result at white space gives the tokens back.
pub fields-join : (ts : List Str) → AreTokens ts → fields (join ts) ≡ ts
fields-join ts h = unfold fields in fields_from-join ts h
