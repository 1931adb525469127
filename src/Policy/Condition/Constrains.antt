-- ===== src/Policy/Condition/Constrains.antt =====
-- What `constrains` promises of a condition that holds.
use gh_token_broker.Base.{
  ◌≡◌, ◌⊎◌, inl, inr, refl, Bool, true, List, [], ◌∷◌, Str, ==_iff, ok, Some, All, arith,
  Bool-cases,
}
use gh_token_broker.Policy.Ast.{
  Expr, Exprs, literal, ident, select, call, member, list, mapping, message, comprehension, nil,
  cons, entries, children, logical_or, logical_and, equals, op_in,
}
use gh_token_broker.Policy.Engine.{Vars}
use gh_token_broker.Policy.Condition.Semantics.{Semantics, truth, IsOperator}
use gh_token_broker.Policy.Condition.Anchored.{
  Bound, pair_bound, constrains_by, constrains, every_constrains, one_constrains,
}

-- The first expression is a part of the second.
pub data Within : Expr → Expr → Type 0 where
  here : {e : Expr} → Within e e
  inside :
      {part child whole : Expr}
      → Some (λ c. c ≡ child) (children whole)
      → Within part child
      → Within part whole

abbrev pub IsComparison : Str → Type 0
IsComparison fn = (fn ≡ equals) ⊎ (fn ≡ op_in)

constrains_by-cases :
    (fn : Str) (every one pair : Bool)
    → constrains_by fn every one pair ≡ true
    → ((fn ≡ logical_or) × (every ≡ true))
      ⊎ (((fn ≡ logical_and) × (one ≡ true)) ⊎ (IsComparison fn × (pair ≡ true)))
unfolding constrains_by
constrains_by-cases fn every one pair h =
    ground (arith, ==_iff fn logical_or, ==_iff fn logical_and, ==_iff fn equals, ==_iff fn op_in)

-- A tag that passes is an operator.
constrains_by-IsOperator :
    (fn : Str) (every one pair : Bool) → constrains_by fn every one pair ≡ true → IsOperator fn
constrains_by-IsOperator fn every one pair h = elim (constrains_by-cases fn every one pair h) [
  | inl (e, _) ↦ inl e
  | inr (inl (e, _)) ↦ inr (inl e)
  | inr (inr (inl e, _)) ↦ inr (inr (inl e))
  | inr (inr (inr e, _)) ↦ inr (inr (inr (inl e)))
]

module _ (sem : Semantics) (x : Vars) (bound : Bound) where
  open sem use {eval, or_true, and_true, no_member}

  abbrev IsTrue : Expr → Type 0
  IsTrue e = eval e x ≡ ok (truth true)

  -- A part of the expression is a comparison that holds, with operands that are bound.
  pub record Holding (e : Expr) : Type 0 where
    pub fn : Str
    pub a : Expr
    pub b : Expr
    pub comparison : IsComparison fn
    pub within : Within (call fn (cons a (cons b nil))) e
    pub holds : eval (call fn (cons a (cons b nil))) x ≡ ok (truth true)
    pub accepted : (bound a b ≡ true) ⊎ (bound b a ≡ true)

  lift :
      (whole : Expr) (cs : List Expr)
      → ((c : Expr) → Some (λ d. d ≡ c) cs → Some (λ d. d ≡ c) (children whole))
      → Some Holding cs
      → Holding whole
  lift whole [] f h = absurd h
  lift whole (c ∷ cs) f (inl h) = record {
    fn = h.fn;
    a = h.a;
    b = h.b;
    comparison = h.comparison;
    within = Within.inside (f c (inl refl)) h.within;
    holds = h.holds;
    accepted = h.accepted;
  }
  lift whole (c ∷ cs) f (inr h) = lift whole cs (λ d m. f d (inr m)) h

  pair-Holding :
      (fn : Str) (args : Exprs)
      → IsComparison fn
      → pair_bound bound (entries args) ≡ true
      → IsTrue (call fn args)
      → Holding (call fn args)
  pair-Holding fn nil c h t = cc
  pair-Holding fn (cons a nil) c h t = cc
  pair-Holding fn (cons a (cons b nil)) c h t = record {
    fn = fn;
    a = a;
    b = b;
    comparison = c;
    within = Within.here;
    holds = t;
    accepted = ground arith;
  }
  pair-Holding fn (cons a (cons b (cons d ds))) c h t = cc

  mutual
    unfolding constrains

    holding : (e : Expr) → constrains bound e ≡ true → IsTrue e → Holding e
    holding (call fn args) h t =
        elim (constrains_by-cases fn (every_constrains bound args) (one_constrains bound args)
          (pair_bound bound (entries args)) h) [
            | inl (e, all) ↦
                lift (call fn args) (entries args) (λ c m. m)
                  (every_constrains-Holding args all (or_true args x (rw e at t)))
            | inr (inl (e, one)) ↦
                lift (call fn args) (entries args) (λ c m. m)
                  (one_constrains-Holding args one (and_true args x (rw e at t)))
            | inr (inr (c, pair)) ↦ pair-Holding fn args c pair t
          ]
    holding (member target fn args) h t =
        absurd (no_member target fn args x (truth true) (constrains_by-IsOperator fn _ _ _ h) t)
    holding (literal l) h t = cc
    holding (ident n) h t = cc
    holding (select e f o) h t = cc
    holding (list es) h t = cc
    holding (mapping es) h t = cc
    holding (message n fs es) h t = cc
    holding (comprehension i j a r n c s o) h t = cc

    every_constrains-Holding :
        (es : Exprs)
        → every_constrains bound es ≡ true
        → Some IsTrue (entries es)
        → Some Holding (entries es)
    every_constrains-Holding nil h t = absurd t
    every_constrains-Holding (cons e es) h (inl t) = inl (holding e (ground arith) t)
    every_constrains-Holding (cons e es) h (inr t) =
        inr (every_constrains-Holding es (ground arith) t)

    one_constrains-Holding :
        (es : Exprs)
        → one_constrains bound es ≡ true
        → All IsTrue (entries es)
        → Some Holding (entries es)
    one_constrains-Holding nil h t = cc
    one_constrains-Holding (cons e es) h (t, ts) = elim (Bool-cases (constrains bound e)) [
      | inl yes_e ↦ inl (holding e yes_e t)
      | inr no_e ↦ inr (one_constrains-Holding es (ground arith) ts)
    ]

  -- If an expression constrains under a bound and is true, then a part of it is a comparison with
  -- `==` or `in` that is true and whose operands are bound, in one order or the other.
  pub constrains-Holding : (e : Expr) → constrains bound e ≡ true → IsTrue e → Holding e
  constrains-Holding e h t = holding e h t
