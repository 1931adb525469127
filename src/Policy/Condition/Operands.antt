-- ===== src/Policy/Condition/Operands.antt =====
-- What a caller-anchored expression evaluates to: the operands of its chain of additions, joined.
use gh_token_broker.Base.{
  all, all-append, Option-cases, ◌∙◌, ℕ, ◌≡◌, inl, inr, refl, sym, ap, true, false, ◌&&◌, Option,
  none, some, List, [], ◌∷◌, ◌++◌, Str, ◌==◌, ==_iff, ok, arith, Bool-cases, append-nil,
  append_assoc,
}
use gh_token_broker.Base.Map.{lookup}
use gh_token_broker.Policy.Ast.{
  text, other, Expr, Exprs, literal, ident, select, call, member, list, mapping, message,
  comprehension, nil, cons, add, index,
}
use gh_token_broker.Policy.Reads.{
  is_string_literal, var_caller, is_ident, string_literal, indexed_claim, caller_claim,
}
use gh_token_broker.Policy.Engine.{Vars}
use gh_token_broker.Policy.Condition.Semantics.{Semantics, Value, word}
use gh_token_broker.Policy.Condition.Anchored.{chain, or_blank, is_operand}

or_blank-some : (o : Option Str) (c : ℕ) (t : Str) → or_blank o ≡ c ∷ t → o ≡ some (c ∷ t)
or_blank-some none c t h = cc
or_blank-some (some s) c t h = ap some h

pub string_literal-some : (e : Expr) (t : Str) → string_literal e ≡ some t → e ≡ literal (text t)
unfolding string_literal
string_literal-some (literal (text l)) t h = cc
string_literal-some (literal (other l)) t h = cc
string_literal-some (ident n) t h = cc
string_literal-some (select e f o) t h = cc
string_literal-some (call fn es) t h = cc
string_literal-some (member e fn es) t h = cc
string_literal-some (list es) t h = cc
string_literal-some (mapping es) t h = cc
string_literal-some (message n fs es) t h = cc
string_literal-some (comprehension i j a r n d p o) t h = cc

-- The index that reads a claim.
abbrev IsIndexOf : Str → Exprs → Str → Type 0
IsIndexOf fn args claim =
    (fn ≡ index)
    × ((a : Expr) × (args ≡ cons a (cons (literal (text claim)) nil))
        × (is_ident a var_caller ≡ true))

indexed_claim-some :
    (fn : Str) (args : Exprs) (claim : Str)
    → indexed_claim fn args ≡ some claim
    → IsIndexOf fn args claim
unfolding indexed_claim
indexed_claim-some fn nil claim h = cc
indexed_claim-some fn (cons a nil) claim h = cc
indexed_claim-some fn (cons a (cons b (cons d ds))) claim h = cc
indexed_claim-some fn (cons a (cons b nil)) claim h =
    elim (Bool-cases (fn == index && is_ident a var_caller)) [
      | inl reads ↦
          let same = string_literal-some b claim (rw reads at h) in
          (
            (==_iff fn index).0 (ground arith),
            (a, ap (λ l. cons a (cons l nil)) same, ground arith),
          )
      | inr not_read ↦ ground arith
    ]

no_operand : (e : Expr) → caller_claim e ≡ none → string_literal e ≡ none → is_operand e ≡ true → ⊥
unfolding is_string_literal
no_operand e no_claim no_literal h = ground arith

module _ (sem : Semantics) (x : Vars) where
  open sem use {eval, literal_text, add_values, no_member, caller_field, caller_index}

  -- The values of the expressions, joined, are the string.
  abbrev pub Spells : List Expr → Str → Type 0
  Spells [] s = s ≡ []
  Spells (e ∷ es) s =
      (s1 : Str) × (s2 : Str) × (eval e x ≡ ok (word s1)) × Spells es s2 × (s ≡ s1 ++ s2)

  single : (e : Expr) (s : Str) → eval e x ≡ ok (word s) → Spells (e ∷ []) s
  single e s h = (s, [], h, refl, sym (append-nil s))

  Spells-snoc :
      (es : List Expr) (b : Expr) (s t : Str)
      → Spells es s
      → eval b x ≡ ok (word t)
      → Spells (es ++ (b ∷ [])) (s ++ t)
  Spells-snoc [] b s t h e = rw h (single b t e)
  Spells-snoc (a ∷ es) b s t (s1, s2, ha, hs, es12) e =
      (s1, s2 ++ t, ha, Spells-snoc es b s2 t hs e, rw es12 (append_assoc s1 s2 t))

  -- What a claim of the caller evaluates to.
  pub claim_read :
      (e : Expr) (claim : Str) (v : Value)
      → caller_claim e ≡ some claim
      → eval e x ≡ ok v
      → (s : Str) × (v ≡ word s) × (lookup claim x.caller ≡ some s)
  unfolding caller_claim
  claim_read (select e f true) claim v h t = cc
  claim_read (select e f false) claim v h t = elim (Bool-cases (is_ident e var_caller)) [
    | inl is_caller ↦
        let same : f ≡ claim = ground arith in caller_field e claim x v is_caller (rw same at t)
    | inr other_var ↦ ground arith
  ]
  claim_read (call fn args) claim v h t =
      let (is_index, (a, same, is_caller)) = indexed_claim-some fn args claim h in
      caller_index a claim x v is_caller (rw (is_index, same) at t)
  claim_read (member e fn args) claim v h t =
      let (is_index, _) = indexed_claim-some fn args claim h in
      absurd (no_member e fn args x v (inr (inr (inr (inr (inr (inl is_index)))))) t)
  claim_read (literal l) claim v h t = cc
  claim_read (ident n) claim v h t = cc
  claim_read (list es) claim v h t = cc
  claim_read (mapping es) claim v h t = cc
  claim_read (message n fs es) claim v h t = cc
  claim_read (comprehension i j a r n d p o) claim v h t = cc

  -- An operand evaluates to a string.
  operand_word :
      (e : Expr) (v : Value) → is_operand e ≡ true → eval e x ≡ ok v → (s : Str) × (v ≡ word s)
  operand_word e v h t = elim (Option-cases (caller_claim e)) [
    | inr (claim, reads) ↦ let (s, same, _) = claim_read e claim v reads t in (s, same)
    | inl no_claim ↦ elim (Option-cases (string_literal e)) [
      | inr (s, lit) ↦ let same = string_literal-some e s lit in (s, cc (literal_text s x))
      | inl no_literal ↦ absurd (no_operand e no_claim no_literal h)
    ]
  ]

  one_operand :
      (e : Expr) (v : Value)
      → all is_operand (e ∷ []) ≡ true
      → eval e x ≡ ok v
      → (s : Str) × (v ≡ word s) × Spells (e ∷ []) s
  one_operand e v h t =
      let (s, same) = operand_word e v (ground arith) t in (s, same, single e s (t ∙ ap ok same))

  -- A chain of operands evaluates to a string, that the operands spell.
  pub chain-Spells :
      (e : Expr) (v : Value)
      → all is_operand (chain e) ≡ true
      → eval e x ≡ ok v
      → (s : Str) × (v ≡ word s) × Spells (chain e) s
  unfolding chain
  chain-Spells (call fn (cons a (cons b nil))) v h t = elim (Bool-cases (fn == add)) [
    | inl is_add ↦
        let (v1, v2, ha, hb, sum) = add_values a b x v (rw ((==_iff fn add).0 is_add) at t) in
        let (front, back) = all-append is_operand (chain a) (b ∷ []) (rw is_add at h) in
        let (s1, same1, spells) = chain-Spells a v1 front ha in
        let (s2, same2) = operand_word b v2 (ground arith) hb in
        let total : v ≡ word (s1 ++ s2) = rw (same1, same2) at sum in
        rw is_add (s1 ++ s2, total, Spells-snoc (chain a) b s1 s2 spells (hb ∙ ap ok same2))
    | inr differs ↦ rw differs (one_operand (call fn (cons a (cons b nil))) v (rw differs at h) t)
  ]
  chain-Spells (member target fn (cons a (cons b nil))) v h t = elim (Bool-cases (fn == add)) [
    | inl is_add ↦
        absurd
          (no_member target fn _ x v (inr (inr (inr (inr (inl ((==_iff fn add).0 is_add)))))) t)
    | inr differs ↦
        rw differs (one_operand (member target fn (cons a (cons b nil))) v (rw differs at h) t)
  ]
  chain-Spells e v h t = one_operand e v h t

  pub literal_value :
      (e : Expr) (c : ℕ) (t s : Str)
      → or_blank (string_literal e) ≡ c ∷ t
      → eval e x ≡ ok (word s)
      → s ≡ c ∷ t
  literal_value e c t s h v =
      let same = string_literal-some e (c ∷ t) (or_blank-some _ c t h) in
      cc (literal_text (c ∷ t) x)

  pub claim_value :
      (e : Expr) (c : ℕ) (t s : Str)
      → or_blank (caller_claim e) ≡ c ∷ t
      → eval e x ≡ ok (word s)
      → lookup (c ∷ t) x.caller ≡ some s
  claim_value e c t s h v =
      let (s', same, found) = claim_read e (c ∷ t) (word s) (or_blank-some _ c t h) v in cc
