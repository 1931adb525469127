-- ===== src/Server/RoundTrip.antt =====
-- `decodeScope` accepts only catalog permissions, and undoes `encodeScope`.
use gh_token_broker.Base.{
  ℕ, ◌≡◌, ◌≢◌, ◌⊎◌, refl, sym, ◌∙◌, Bool, true, false, not, ◌&&◌, none, some, List, [], ◌∷◌, ◌++◌,
  map, arith, Str, ==_iff, ==_refl, if◌then◌else◌, leb, eqb, is_empty, all, contains, Without,
  Bool-cases, Option-cases, inl, inr,
}
use gh_token_broker.Base.Map.{IsMap, lookup, insert, lookup-insert, lookup-nil, insert-IsMap}
use gh_token_broker.Base.Sort.{sort, contains-sort}
use gh_token_broker.Perm.Levels.{valid_key_level, found}
use gh_token_broker.Perm.Scope.{Permissions}
use gh_token_broker.Perm.Rank.{IsCanonical}
use gh_token_broker.Perm.Table.{is_token_text, valid_key_level_sound, valid_level-text}
use gh_token_broker.Policy.Engine.{keys}
use gh_token_broker.Server.Fields.{
  fields, cut_last, join, cut_last-append, Graphic, AreTokens, fields-join,
}
use gh_token_broker.Server.Scope.{
  decode_token, decode_fields, decode_scope, encode_token, encode_scope,
}

-- Every entry is a pair of key and level that the catalog allows.
abbrev pub IsAllowed : Permissions → Type 0
IsAllowed m = (k v : Str) → lookup k m ≡ some v → valid_key_level k v ≡ true

decode_token-allowed : (tok k v : Str) → decode_token tok ≡ some (k, v) → valid_key_level k v ≡ true
unfolding decode_token
decode_token-allowed tok k v e = elim (Option-cases (cut_last b':' tok)) [
  | inl missing ↦ ground arith
  | inr ((key, level), found_it) ↦ ground arith
]

insert-IsAllowed :
    (k v : Str) (m : Permissions)
    → valid_key_level k v ≡ true
    → IsAllowed m
    → IsAllowed (insert k v m)
insert-IsAllowed k v m h c j w e = ground (arith, lookup-insert k j v m, ==_iff k j, c j w)

decode_fields-keeps :
    (toks : List Str) (m perms : Permissions)
    → IsMap m
    → IsAllowed m
    → decode_fields m toks ≡ some perms
    → IsMap perms × IsAllowed perms
unfolding decode_fields
decode_fields-keeps [] m perms h c e = let e' : perms ≡ m = cc in rw e' (h, c)
decode_fields-keeps (tok ∷ toks) m perms h c e = elim (Option-cases (decode_token tok)) [
  | inl bad ↦ ground arith
  | inr ((k, v), got) ↦
      decode_fields-keeps toks (insert k v m) perms (insert-IsMap k v m h)
        (insert-IsAllowed k v m (decode_token-allowed tok k v got) c) (ground arith)
]

-- What `decodeScope` returns is a map with no key twice, and the catalog allows each of its pairs
-- of key and level.
pub decode_scope_sound :
    (scope : Str) (perms : Permissions)
    → decode_scope scope ≡ some perms
    → IsMap perms × IsAllowed perms
unfolding decode_scope
decode_scope_sound scope perms e =
    decode_fields-keeps (fields scope) [] perms tt (λ k v h. unfold lookup in cc) (ground arith)

pub IsAllowed-IsCanonical : (m : Permissions) → IsAllowed m → IsCanonical m
IsAllowed-IsCanonical m c k v e =
    let (key, level, _) = valid_key_level_sound k v (c k v e) in (key, level)

abbrev plain : ℕ → Bool
plain c = leb 33 c && (leb c 126 && not (eqb c b':'))

plain-Without : (s : Str) → all plain s ≡ true → Without b':' s
plain-Without [] h = tt
plain-Without (c ∷ s) h = (λ e. ground arith, plain-Without s (ground arith))

plain-Graphic : (s : Str) → all plain s ≡ true → Graphic s
plain-Graphic [] h = tt
plain-Graphic (c ∷ s) h = (ground arith, plain-Graphic s (ground arith))

Graphic-append : (s t : Str) → Graphic s → Graphic t → Graphic (s ++ t)
Graphic-append [] t hs ht = ht
Graphic-append (c ∷ s) t (p, hs) ht = (p, Graphic-append s t hs ht)

append-ne-nil : (s : Str) (c : ℕ) (t : Str) → s ++ (c ∷ t) ≢ []
append-ne-nil [] c t = λ e. cc
append-ne-nil (d ∷ s) c t = λ e. cc

module _ (perms : Permissions) (allowed : IsAllowed perms) where
  decode_token-encode :
      (k v : Str) → lookup k perms ≡ some v → decode_token (encode_token perms k) ≡ some (k, v)
  unfolding decode_token encode_token is_token_text
  decode_token-encode k v e =
      let h = allowed k v e in
      let (_, level, key_text) = valid_key_level_sound k v h in
      let level_text = valid_level-text v level in
      rw (e, cut_last-append b':' k v (plain-Without v (ground arith))) (ground arith)

  encode_token-Graphic : (k v : Str) → lookup k perms ≡ some v → Graphic (encode_token perms k)
  unfolding encode_token is_token_text
  encode_token-Graphic k v e =
      let (_, level, key_text) = valid_key_level_sound k v (allowed k v e) in
      let level_text = valid_level-text v level in
      rw e (
        Graphic-append k (b':' ∷ v) (plain-Graphic k (ground arith))
          (refl, plain-Graphic v (ground arith)))

  -- All strings of the list are keys of `perms`.
  abbrev AreKeys : List Str → Type 0
  AreKeys [] = Unit
  AreKeys (k ∷ ks) = ((v : Str) × (lookup k perms ≡ some v)) × AreKeys ks

  AreKeys-of_contains :
      (ks : List Str)
      → ((a : Str) → contains ks a ≡ true → found (lookup a perms) ≡ true)
      → AreKeys ks
  unfolding contains
  AreKeys-of_contains [] h = tt
  AreKeys-of_contains (k ∷ ks) h =
      (value (Option-cases (lookup k perms)), AreKeys-of_contains ks (λ a c. h a (ground arith)))
    where
      value :
          (lookup k perms ≡ none) ⊎ ((v : Str) × (lookup k perms ≡ some v))
          → (v : Str) × (lookup k perms ≡ some v)
      value (inl missing) = absurd (ground (arith, h k, ==_refl k))
      value (inr there) = there

  tokens-AreTokens : (ks : List Str) → AreKeys ks → AreTokens (map (encode_token perms) ks)
  tokens-AreTokens [] h = tt
  tokens-AreTokens (k ∷ ks) ((v, e), h) = (
    (unfold encode_token in append-ne-nil k b':' _, encode_token-Graphic k v e),
    tokens-AreTokens ks h,
  )

  decode_fields-tokens :
      (ks : List Str) (m : Permissions)
      → AreKeys ks
      → (out : Permissions) × (decode_fields m (map (encode_token perms) ks) ≡ some out)
        × ((j : Str) → lookup j out ≡ (if contains ks j then lookup j perms else lookup j m))
  unfolding decode_fields contains
  decode_fields-tokens [] m h = (m, refl, λ j. refl)
  decode_fields-tokens (k ∷ ks) m ((v, e), h) =
      let (out, decoded, reads) = decode_fields-tokens ks (insert k v m) h in
      (
        out,
        rw (decode_token-encode k v e, decode_fields) decoded,
        λ j. ground (arith, reads j, lookup-insert k j v m, ==_iff k j),
      )

contains-keys : (m : Permissions) (j : Str) → contains (keys m) j ≡ found (lookup j m)
unfolding contains lookup
contains-keys [] j = refl
contains-keys ((k, v) ∷ m) j = ground (arith, contains-keys m j)

is_empty-map : (ks : List Str) (f : Str → Str) → is_empty (map f ks) ≡ is_empty ks
is_empty-map [] f = refl
is_empty-map (k ∷ ks) f = refl

contains-nonempty : (xs : List Str) (a : Str) → contains xs a ≡ true → is_empty xs ≡ false
unfolding contains
contains-nonempty [] a h = cc
contains-nonempty (x ∷ xs) a h = refl

abbrev tokens_of : Permissions → List Str
tokens_of perms = map (encode_token perms) (sort (keys perms))

by_tokens :
    (perms out : Permissions)
    → fields (join (tokens_of perms)) ≡ tokens_of perms
    → is_empty (tokens_of perms) ≡ false
    → decode_fields [] (tokens_of perms) ≡ some out
    → decode_scope (encode_scope perms) ≡ some out
by_tokens perms out split full decoded =
    decode_scope_of _ _ out (encode_scope_lem perms) split full decoded
  where
    encode_scope_lem : (m : Permissions) → encode_scope m ≡ join (tokens_of m)
    encode_scope_lem m = unfold encode_scope in refl

    decode_scope_of :
        (s : Str) (toks : List Str) (out : Permissions)
        → s ≡ join toks
        → fields (join toks) ≡ toks
        → is_empty toks ≡ false
        → decode_fields [] toks ≡ some out
        → decode_scope s ≡ some out
    decode_scope_of s toks out e split full decoded =
        unfold decode_scope in rw (e, split, full) decoded

some_key : (m : Permissions) → m ≢ [] → (k : Str) × (contains (keys m) k ≡ true)
unfolding contains
some_key [] h = absurd (h refl)
some_key ((k, v) ∷ m) h = (k, ground (arith, ==_refl k))

-- For a nonempty permission map whose entries the catalog allows, `decodeScope` accepts the string
-- that `encodeScope` makes of it and returns a map with the same entries.
pub decode_scope-encode_scope :
    (perms : Permissions)
    → perms ≢ []
    → IsAllowed perms
    → (out : Permissions) × (decode_scope (encode_scope perms) ≡ some out)
      × ((j : Str) → lookup j out ≡ lookup j perms)
decode_scope-encode_scope perms ne allowed =
    let ks = sort (keys perms) in
    let same = λ (a : Str). contains-sort (keys perms) a ∙ contains-keys perms a in
    let are_keys = AreKeys-of_contains perms allowed ks (λ a c. sym (same a) ∙ c) in
    let (out, decoded, reads) = decode_fields-tokens perms allowed ks [] are_keys in
    let split = fields-join _ (tokens-AreTokens perms allowed ks are_keys) in
    let (k, there) = some_key perms ne in
    let full = contains-nonempty ks k (contains-sort (keys perms) k ∙ there) in
    (
      out,
      by_tokens perms out split (is_empty-map ks (encode_token perms) ∙ full) decoded,
      λ j. elim (Bool-cases (contains ks j)) [
        | inl here ↦ ground (arith, reads j)
        | inr gone ↦ ground (arith, reads j, same j, lookup-nil {V = Str} j)
      ],
    )
