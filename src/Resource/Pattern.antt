-- ===== src/Resource/Pattern.antt =====
-- internal/resource/resource.go: the three regular expressions and the length limits.
use gh_token_broker.Base.{
  ℕ, ◌≡◌, ◌≢◌, ◌↔◌, refl, Bool, true, false, ◌&&◌, ◌||◌, [], ◌∷◌, arith, Str, if◌then◌else◌, eqb,
  eqb_iff, sym, leb, all, is_empty, not, Without, inl, inr, Bool-cases,
}

abbrev pub max_owner_len : ℕ
max_owner_len = 39

abbrev pub max_repo_len : ℕ
max_repo_len = 100

abbrev pub hyphen : ℕ
hyphen = b'-'

abbrev between : ℕ → ℕ → ℕ → Bool
between lo hi c = leb lo c && leb c hi

-- `[A-Za-z0-9]`
unfoldable pub is_alnum : ℕ → Bool
is_alnum c = between b'A' b'Z' c || between b'a' b'z' c || between b'0' b'9' c

-- `[a-z0-9]`
unfoldable pub is_slug_byte : ℕ → Bool
is_slug_byte c = between b'a' b'z' c || between b'0' b'9' c

-- `[A-Za-z0-9._-]`
unfoldable pub is_repo_byte : ℕ → Bool
unfolding is_alnum
is_repo_byte c = is_alnum c || eqb c b'.' || eqb c b'_' || eqb c hyphen

-- `^X+(?:-X+)*$` for a byte class X; `inside` tells that a byte of the current word was read.
unfoldable pub match_words : (ℕ → Bool) → Bool → Str → Bool
match_words x inside [] = inside
match_words x inside (c ∷ s) = elim (x c) [
  | true ↦ match_words x true s
  | false ↦ elim (inside && eqb c hyphen) [ true ↦ match_words x false s | false ↦ false ]
]

unfoldable pub match_owner : Str → Bool
unfolding match_words is_alnum
match_owner value = match_words is_alnum false value

unfoldable pub match_slug : Str → Bool
unfolding match_words is_slug_byte
match_slug value = match_words is_slug_byte false value

unfoldable pub match_repo : Str → Bool
unfolding is_repo_byte
match_repo value = not (is_empty value) && all is_repo_byte value

-- The language of `X+(?:-X+)*`: words of X joined by single hyphens.
pub data Words (x : ℕ → Bool) : Str → Type 0 where
  last : (c : ℕ) → x c ≡ true → Words x (c ∷ [])
  grow : (c : ℕ) {s : Str} → x c ≡ true → Words x s → Words x (c ∷ s)
  join : (c : ℕ) {s : Str} → x c ≡ true → Words x s → Words x (c ∷ hyphen ∷ s)

module _ (x : ℕ → Bool) (plain : x hyphen ≡ false) where
  match_words_in :
      (b : Bool) (c : ℕ) (s : Str) → x c ≡ true → match_words x b (c ∷ s) ≡ match_words x true s
  unfolding match_words
  match_words_in b c s h = rw (h, match_words)

  match_words_out :
      (b : Bool) (c : ℕ) (s : Str)
      → x c ≡ false
      → match_words x b (c ∷ s) ≡ (if b && eqb c hyphen then match_words x false s else false)
  unfolding match_words
  match_words_out b c s h = ground arith

  match_words_sound :
      (s : Str)
      → (match_words x false s ≡ true → Words x s)
        × ((c : ℕ) → x c ≡ true → match_words x true s ≡ true → Words x (c ∷ s))
  match_words_sound [] = (λ h. unfold match_words in cc, λ c here h. last c here)
  match_words_sound (d ∷ s) =
      let (start, inside) = match_words_sound s in
      (
        λ h. elim (Bool-cases (x d)) [
          | inl e ↦ inside d e (rw (match_words_in false d s e) at h)
          | inr e ↦ cc (match_words_out false d s e, h)
        ],
        λ c here h. elim (Bool-cases (x d)) [
          | inl e ↦ grow c here (inside d e (rw (match_words_in true d s e) at h))
          | inr e ↦ elim (Bool-cases (eqb d hyphen)) [
            | inl dash ↦
                rw ((eqb_iff d hyphen).0 dash)
                  (join c here (start (ground (arith, match_words_out true d s e))))
            | inr other ↦ ground (arith, match_words_out true d s e)
          ]
        ],
      )

  match_words_complete :
      {s : Str} → Words x s → (match_words x false s ≡ true) × (match_words x true s ≡ true)
  match_words_complete (last c h) = (
    rw (match_words_in false c [] h) (unfold match_words in refl),
    rw (match_words_in true c [] h) (unfold match_words in refl),
  )
  match_words_complete (grow c {s} h w) =
      let (_, more) = match_words_complete w in
      (rw (match_words_in false c s h) more, rw (match_words_in true c s h) more)
  match_words_complete (join c {s} h w) =
      let (start, _) = match_words_complete w in
      let dash = match_words_out true hyphen s plain in
      (
        rw (match_words_in false c (hyphen ∷ s) h, dash) start,
        rw (match_words_in true c (hyphen ∷ s) h, dash) start,
      )

  -- For a class of bytes without the hyphen, the matcher of `^X+(?:-X+)*$` accepts exactly the
  -- words over the class joined by single hyphens.
  pub match_words_iff : (s : Str) → (match_words x false s ≡ true) ↔ Words x s
  match_words_iff s = ((match_words_sound s).0, λ w. (match_words_complete w).0)

-- A byte outside the class, other than the hyphen, does not occur in the words.
pub Words-Without :
    (x : ℕ → Bool) (sep : ℕ) {s : Str} → x sep ≡ false → sep ≢ hyphen → Words x s → Without sep s
Words-Without x sep no_sep ne (last c h) = (λ e. cc, tt)
Words-Without x sep no_sep ne (grow c h w) = (λ e. cc, Words-Without x sep no_sep ne w)
Words-Without x sep no_sep ne (join c h w) =
    (λ e. cc, (λ e. ne (sym e), Words-Without x sep no_sep ne w))

pub all-Without :
    (p : ℕ → Bool) (sep : ℕ) (s : Str) → p sep ≡ false → all p s ≡ true → Without sep s
all-Without p sep [] no_sep h = tt
all-Without p sep (c ∷ s) no_sep h = (λ e. ground arith, all-Without p sep s no_sep (ground arith))
