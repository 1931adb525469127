-- ===== src/Perm/Table.antt =====
-- Facts about the catalog itself, found by evaluating it.
use gh_token_broker.Base.{
  ◌≡◌, refl, Bool, true, not, ◌&&◌, some, List, [], ◌∷◌, arith, Str, ◌==◌, ==_iff, leb, eqb,
  is_empty, all, contains, Bool-cases, Option-cases, inl, inr,
}
use gh_token_broker.Base.Map.{Map, lookup}
use gh_token_broker.Perm.Catalog.{catalog, read, write, admin}
use gh_token_broker.Perm.Levels.{valid_key, valid_level, valid_key_level}

-- Every byte is printable ASCII other than the space and the colon.
unfoldable pub is_token_text : Str → Bool
is_token_text s = not (is_empty s) && all (λ c. leb 33 c && (leb c 126 && not (eqb c b':'))) s

abbrev row_ok : Str × List Str → Bool
row_ok (k, ls) = is_token_text k && all valid_level ls

table_ok : all row_ok catalog ≡ true
unfolding catalog is_token_text valid_level ◌==◌
table_ok = refl

lookup-row :
    (t : Map (List Str)) (k : Str) (ls : List Str)
    → all row_ok t ≡ true
    → lookup k t ≡ some ls
    → row_ok (k, ls) ≡ true
unfolding lookup
lookup-row [] k ls h e = cc
lookup-row ((j, w) ∷ t) k ls h e = ground (arith, ==_iff j k, lookup-row t k ls)

all-contains :
    (p : Str → Bool) (ls : List Str) (l : Str) → all p ls ≡ true → contains ls l ≡ true → p l ≡ true
unfolding contains
all-contains p [] l h e = cc
all-contains p (x ∷ ls) l h e = ground (arith, ==_iff x l, all-contains p ls l)

-- A key and level that the catalog allows are valid each, and the key is plain text that neither
-- holds a colon nor white space.
pub valid_key_level_sound :
    (k l : Str)
    → valid_key_level k l ≡ true
    → (valid_key k ≡ true) × (valid_level l ≡ true) × (is_token_text k ≡ true)
unfolding valid_key_level valid_key
valid_key_level_sound k l h = elim (Option-cases (lookup k catalog)) [
  | inl missing ↦ ground arith
  | inr (ls, e) ↦
      let row = lookup-row catalog k ls table_ok e in
      (rw e, all-contains valid_level ls l (ground arith) (ground arith), ground arith)
]

-- A valid level is plain text too.
pub valid_level-text : (l : Str) → valid_level l ≡ true → is_token_text l ≡ true
unfolding valid_level is_token_text
valid_level-text l h = elim (Bool-cases (read == l)) [
  | inl e ↦ rw (← (==_iff read l).0 e) refl
  | inr not_read ↦ elim (Bool-cases (write == l)) [
    | inl e ↦ rw (← (==_iff write l).0 e) refl
    | inr not_write ↦ elim (Bool-cases (admin == l)) [
      | inl e ↦ rw (← (==_iff admin l).0 e) refl
      | inr not_admin ↦ ground arith
    ]
  ]
]
