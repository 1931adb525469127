-- ===== src/Policy/Condition/Owner.antt =====
-- A caller-anchored resource belongs to the owner of the repository that calls.
use gh_token_broker.Base.{
  ℕ, ◌+◌, ◌≡◌, ◌⊎◌, inl, inr, refl, ap, true, some, List, [], ◌∷◌, ◌++◌, Str, codes, ==_iff, ok,
  arith, Without, eqb_iff, length, append-nil, append_assoc,
}
use gh_token_broker.Base.Map.{Map, lookup}
use gh_token_broker.Resource.Parse.{Resource, parse}
use gh_token_broker.Resource.Prefixed.{parse-repo_owner, parse-org_owner}
use gh_token_broker.Policy.Ast.{Expr}
use gh_token_broker.Policy.Reads.{string_literal, caller_claim}
use gh_token_broker.Policy.Engine.{Vars}
use gh_token_broker.Policy.Condition.Semantics.{Semantics, Value, word}
use gh_token_broker.Policy.Condition.Operands.{Spells, chain-Spells, literal_value, claim_value}
use gh_token_broker.Policy.Condition.Anchored.{
  chain, read_at, starts_slash, anchors, caller_anchored,
}

-- The claims of a GitHub Actions token that name the caller.
pub record IsGithubCaller (caller : Map Str) (owner : Str) : Type 0 where
  pub name : Str
  pub repository : lookup (codes "repository") caller ≡ some (owner ++ (b'/' ∷ name))
  pub repository_owner : lookup (codes "repository_owner") caller ≡ some owner
  pub plain : Without b'/' owner

anchors-cases :
    (ops : List Expr)
    → anchors ops ≡ true
    → ((read_at string_literal 0 ops ≡ codes "repo:")
        × (read_at caller_claim 1 ops ≡ codes "repository"))
      ⊎ (((read_at string_literal 0 ops ≡ codes "repo:")
            × (read_at caller_claim 1 ops ≡ codes "repository_owner")
            × (starts_slash (read_at string_literal 2 ops) ≡ true))
          ⊎ ((read_at string_literal 0 ops ≡ codes "org:")
              × (read_at caller_claim 1 ops ≡ codes "repository_owner")
              × (length ops ≡ 2)))
unfolding anchors
anchors-cases ops h = ground (
  arith,
  ==_iff (read_at string_literal 0 ops) (codes "repo:"),
  ==_iff (read_at string_literal 0 ops) (codes "org:"),
  ==_iff (read_at caller_claim 1 ops) (codes "repository"),
  ==_iff (read_at caller_claim 1 ops) (codes "repository_owner"),
  eqb_iff (length ops) 2,
)

starts_slash_cons : (s : Str) → starts_slash s ≡ true → (u : Str) × (s ≡ b'/' ∷ u)
starts_slash_cons [] h = cc
starts_slash_cons (c ∷ s) h = (s, ap (λ d. d ∷ s) (ground (arith, eqb_iff c b'/')))

no_entries : (rest : List Expr) → 2 ≡ 2 + length rest → rest ≡ []
no_entries [] h = refl
no_entries (a ∷ rest) h = absurd (omega arith)

word_injective : {s t : Str} → word s ≡ word t → s ≡ t
word_injective e = cc

module _ (sem : Semantics) (x : Vars) where
  open sem use {eval}

  -- A chain that opens with a literal and a claim.
  record Opening (ops : List Expr) (s lit claim : Str) : Type 0 where
    val : Str
    tail : Str
    rest : List Expr
    read : lookup claim x.caller ≡ some val
    joined : s ≡ lit ++ (val ++ tail)
    spelled : Spells sem x rest tail
    third : read_at string_literal 2 ops ≡ read_at string_literal 0 rest
    counted : length ops ≡ 2 + length rest

  opens :
      (ops : List Expr) (s : Str) (c : ℕ) (t : Str) (d : ℕ) (u : Str)
      → Spells sem x ops s
      → read_at string_literal 0 ops ≡ c ∷ t
      → read_at caller_claim 1 ops ≡ d ∷ u
      → Opening ops s (c ∷ t) (d ∷ u)
  opens [] s c t d u h e0 e1 = cc
  opens (a ∷ []) s c t d u h e0 e1 = cc
  opens (a ∷ b ∷ rest) s c t d u (s1, s2, ha, (s3, s4, hb, hs, j2), j1) e0 e1 = record {
    val = s3;
    tail = s4;
    rest = rest;
    read = claim_value sem x b d u s3 e1 hb;
    joined = let first = literal_value sem x a c t s1 e0 ha in cc;
    spelled = hs;
    third = refl;
    counted = omega arith;
  }

  slash_tail :
      (rest : List Expr) (tail : Str)
      → Spells sem x rest tail
      → starts_slash (read_at string_literal 0 rest) ≡ true
      → (u : Str) × (tail ≡ b'/' ∷ u)
  slash_tail [] tail h e = cc
  slash_tail (a ∷ rest) tail (s1, s2, ha, hs, joined) e =
      let (u, opened) = starts_slash_cons (read_at string_literal 0 (a ∷ rest)) e in
      let first = literal_value sem x a b'/' u s1 opened ha in (u ++ s2, cc)

  spelled_owner :
      (ops : List Expr) (s owner : Str) (r : Resource)
      → IsGithubCaller x.caller owner
      → anchors ops ≡ true
      → Spells sem x ops s
      → parse s ≡ ok r
      → r.owner ≡ owner
  spelled_owner ops s owner r c h spells p = elim (anchors-cases ops h) [
    | inl (e0, e1) ↦
        let o = opens ops s _ _ _ _ spells e0 e1 in
        let is_full : o.val ≡ owner ++ (b'/' ∷ c.name) = cc (o.read, c.repository) in
        let joined : s ≡ codes "repo:" ++ (owner ++ (b'/' ∷ (c.name ++ o.tail))) =
          rw (o.joined, is_full, append_assoc owner (b'/' ∷ c.name) o.tail) refl in
        parse-repo_owner owner (c.name ++ o.tail) r c.plain (rw joined at p)
    | inr (inl (e0, e1, e2)) ↦
        let o = opens ops s _ _ _ _ spells e0 e1 in
        let is_owner : o.val ≡ owner = cc (o.read, c.repository_owner) in
        let (u, cut) = slash_tail o.rest o.tail o.spelled (rw o.third at e2) in
        let joined : s ≡ codes "repo:" ++ (owner ++ (b'/' ∷ u)) =
          rw (o.joined, is_owner, cut) refl in
        parse-repo_owner owner u r c.plain (rw joined at p)
    | inr (inr (e0, e1, e2)) ↦
        let o = opens ops s _ _ _ _ spells e0 e1 in
        let is_owner : o.val ≡ owner = cc (o.read, c.repository_owner) in
        let ends : o.rest ≡ [] = no_entries o.rest (rw e2 at o.counted) in
        let empty : o.tail ≡ [] = rw ends at o.spelled in
        let joined : s ≡ codes "org:" ++ owner =
          rw (o.joined, is_owner, empty, append-nil owner) refl in
        parse-org_owner owner r (rw joined at p)
  ]

  -- If the caller's claims `repository` and `repository_owner` name one owner without a slash, then
  -- whatever resource is read from the string value of a caller-anchored expression belongs to this
  -- owner.
  pub caller_anchored-owner :
      (e : Expr) (s owner : Str) (r : Resource)
      → IsGithubCaller x.caller owner
      → caller_anchored e ≡ true
      → eval e x ≡ ok (word s)
      → parse s ≡ ok r
      → r.owner ≡ owner
  unfolding caller_anchored
  caller_anchored-owner e s owner r c h v p =
      let (s', same, spells) = chain-Spells sem x e (word s) (ground arith) v in
      spelled_owner (chain e) s owner r c (ground arith) (rw (word_injective same) spells) p

  -- An anchored expression evaluates to a string only.
  pub anchored_word :
      (e : Expr) (v : Value) → caller_anchored e ≡ true → eval e x ≡ ok v → (s : Str) × (v ≡ word s)
  unfolding caller_anchored
  anchored_word e v h t = let (s, same, _) = chain-Spells sem x e v (ground arith) t in (s, same)
