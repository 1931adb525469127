-- ===== src/Policy/Condition/Places.antt =====
-- Parts of a syntax tree, and where the traversal of the tree meets them.
use gh_token_broker.Base.{
  ℕ, suc, ◌≡◌, inl, inr, refl, sym, ap, ◌∙◌, Bool-cases, subst, Bool, true, List, [], ◌∷◌, ◌++◌,
  Some, Outcome, ok, each, >>=-eq-ok, Str,
}
use gh_token_broker.Policy.Ast.{
  Expr, Exprs, literal, ident, select, call, member, list, mapping, message, comprehension, nil,
  cons, entries, children, Node, nodes, nodes_in, keep, match_descendants,
}
use gh_token_broker.Policy.Condition.Constrains.{Within, here, inside}

abbrev pub In : {A : Type 0} → A → List A → Type 0
In a xs = Some (λ b. b ≡ a) xs

In-left : {A : Type 0} (a : A) (xs ys : List A) → In a xs → In a (xs ++ ys)
In-left a [] ys h = absurd h
In-left a (x ∷ xs) ys (inl h) = inl h
In-left a (x ∷ xs) ys (inr h) = inr (In-left a xs ys h)

In-right : {A : Type 0} (a : A) (xs ys : List A) → In a ys → In a (xs ++ ys)
In-right a [] ys h = h
In-right a (x ∷ xs) ys h = inr (In-right a xs ys h)

In-keep : (p : Node → Bool) (n : Node) (ns : List Node) → p n ≡ true → In n ns → In n (keep p ns)
In-keep p n [] e h = absurd h
In-keep p n (m ∷ ns) e (inl h) = rw (ap p h ∙ e) (inl h)
In-keep p n (m ∷ ns) e (inr h) = elim (Bool-cases (p m)) [
  | inl kept ↦ rw kept (inr (In-keep p n ns e h))
  | inr dropped ↦ rw dropped (In-keep p n ns e h)
]

pub Within-trans : {a b c : Expr} → Within a b → Within b c → Within a c
Within-trans h here = h
Within-trans h (inside at k) = inside at (Within-trans h k)

-- What the traversal of a part meets, the traversal of the whole meets.
abbrev Covers : List (Expr × ℕ) → Expr → List Node → Type 0
Covers up part ns = (n : Node) → In n (nodes up part) → In n ns

moved :
    (n : Node) (up : List (Expr × ℕ)) (a b : Expr) → a ≡ b → In n (nodes up b) → In n (nodes up a)
moved n up a b same m = subst (λ e. In n (nodes up e)) (sym same) m

child_in :
    (up : List (Expr × ℕ)) (parent : Expr) (position : ℕ) (child : Expr) (es : Exprs)
    → Some (λ c. c ≡ child) (entries es)
    → (k : ℕ) × Covers ((parent, k) ∷ up) child (nodes_in up parent position es)
unfolding nodes
child_in up parent position child nil h = absurd h
child_in up parent position child (cons e es) (inl same) =
    (position, λ n m. In-left n (nodes _ e) _ (moved n _ e child same m))
child_in up parent position child (cons e es) (inr h) =
    let (k, f) = child_in up parent (suc position) child es h in
    (k, λ n m. In-right n (nodes _ e) _ (f n m))

child-Covers :
    (up : List (Expr × ℕ)) (child whole : Expr)
    → Some (λ c. c ≡ child) (children whole)
    → (k : ℕ) × Covers ((whole, k) ∷ up) child (nodes up whole)
unfolding nodes
child-Covers up child (literal l) h = absurd h
child-Covers up child (ident x) h = absurd h
child-Covers up child (select e f o) (inl same) =
    (0, λ n m. In-left n (nodes _ e) _ (moved n _ e child same m))
child-Covers up child (select e f o) (inr h) = absurd h
child-Covers up child (call fn es) h =
    let (k, f) = child_in up (call fn es) 0 child es h in
    (k, λ n m. In-left n (nodes_in _ _ _ es) _ (f n m))
child-Covers up child (member t fn es) (inl same) =
    (0, λ n m. In-left n (nodes _ t) _ (moved n _ t child same m))
child-Covers up child (member t fn es) (inr h) =
    let (k, f) = child_in up (member t fn es) 1 child es h in
    (k, λ n m. In-right n (nodes _ t) _ (In-left n (nodes_in _ _ _ es) _ (f n m)))
child-Covers up child (list es) h =
    let (k, f) = child_in up (list es) 0 child es h in
    (k, λ n m. In-left n (nodes_in _ _ _ es) _ (f n m))
child-Covers up child (mapping es) h =
    let (k, f) = child_in up (mapping es) 0 child es h in
    (k, λ n m. In-left n (nodes_in _ _ _ es) _ (f n m))
child-Covers up child (message x fs es) h =
    let (k, f) = child_in up (message x fs es) 0 child es h in
    (k, λ n m. In-left n (nodes_in _ _ _ es) _ (f n m))
child-Covers up child (comprehension i j a r d c s o) (inl same) =
    (0, λ n m. In-left n (nodes _ r) _ (moved n _ r child same m))
child-Covers up child (comprehension i j a r d c s o) (inr (inl same)) =
    (1, λ n m. In-right n (nodes _ r) _ (In-left n (nodes _ d) _ (moved n _ d child same m)))
child-Covers up child (comprehension i j a r d c s o) (inr (inr (inl same))) = (
  2,
  λ n m.
      In-right n (nodes _ r) _
        (In-right n (nodes _ d) _ (In-left n (nodes _ c) _ (moved n _ c child same m))),
)
child-Covers up child (comprehension i j a r d c s o) (inr (inr (inr (inl same)))) = (
  3,
  λ n m. In-right n (nodes _ r) _ (
      In-right n (nodes _ d) _
        (In-right n (nodes _ c) _ (In-left n (nodes _ s) _ (moved n _ s child same m)))),
)
child-Covers up child (comprehension i j a r d c s o) (inr (inr (inr (inr (inl same))))) = (
  4,
  λ n m. In-right n (nodes _ r) _ (
      In-right n (nodes _ d) _ (
        In-right n (nodes _ c) _
          (In-right n (nodes _ s) _ (In-left n (nodes _ o) _ (moved n _ o child same m))))),
)
child-Covers up child (comprehension i j a r d c s o) (inr (inr (inr (inr (inr h))))) = absurd h

pub Within-Covers :
    (up : List (Expr × ℕ)) (part whole : Expr)
    → Within part whole
    → (up' : List (Expr × ℕ)) × Covers up' part (nodes up whole)
Within-Covers up part whole here = (up, λ n m. m)
Within-Covers up part whole (inside {child = child} at h) =
    let (k, f) = child-Covers up child whole at in
    let (up', g) = Within-Covers ((whole, k) ∷ up) part child h in (up', λ n m. f n (g n m))

-- A loop over all nodes that satisfy the test has passed every such node.
each-In :
    {E : Type 0} (f : Node → Outcome E (Unit {0})) (ns : List Node) (n : Node)
    → each f ns ≡ ok tt
    → In n ns
    → f n ≡ ok tt
unfolding each
each-In f [] n h m = absurd m
each-In f (a ∷ ns) n h (inl same) =
    let (u, first, rest) = >>=-eq-ok (f a) _ h in sym (ap f same) ∙ first
each-In f (a ∷ ns) n h (inr m) = let (u, first, rest) = >>=-eq-ok (f a) _ h in each-In f ns n rest m

pub each_match :
    {E : Type 0} (f : Node → Outcome E (Unit {0})) (p : Node → Bool) (root : Expr) (n : Node)
    → each f (match_descendants root p) ≡ ok tt
    → p n ≡ true
    → In n (nodes [] root)
    → f n ≡ ok tt
unfolding match_descendants
each_match f p root n h e m =
    each-In f (keep p (nodes [] root)) n h (In-keep p n (nodes [] root) e m)

-- The variable of a selection that is an operand of a call.
abbrev pub select_var : Str → Str → Bool → Expr
select_var v field only = select (ident v) field only

abbrev pub first_node : List (Expr × ℕ) → Str → Str → Str → Bool → Expr → Node
first_node up fn v field only b = record {
  expr = ident v;
  above =
      (select_var v field only, 0)
      ∷ (call fn (cons (select_var v field only) (cons b nil)), 0)
      ∷ up;
}

abbrev pub second_node : List (Expr × ℕ) → Str → Str → Str → Bool → Expr → Node
second_node up fn v field only a = record {
  expr = ident v;
  above =
      (select_var v field only, 0)
      ∷ (call fn (cons a (cons (select_var v field only) nil)), 1)
      ∷ up;
}

pub first_node-In :
    (up : List (Expr × ℕ)) (fn v field : Str) (only : Bool) (b : Expr)
    → In
        (first_node up fn v field only b)
        (nodes up (call fn (cons (select_var v field only) (cons b nil))))
unfolding nodes
first_node-In up fn v field only b = inl refl

pub second_node-In :
    (up : List (Expr × ℕ)) (fn v field : Str) (only : Bool) (a : Expr)
    → In
        (second_node up fn v field only a)
        (nodes up (call fn (cons a (cons (select_var v field only) nil))))
unfolding nodes
second_node-In up fn v field only a =
    let n = second_node up fn v field only a in
    let whole = call fn (cons a (cons (select_var v field only) nil)) in
    In-left n
      (nodes ((whole, 0) ∷ up) a
        ++ (n ∷ record { expr = select_var v field only; above = (whole, 1) ∷ up } ∷ []))
      (record { expr = whole; above = up } ∷ [])
      (In-right n (nodes ((whole, 0) ∷ up) a) _ (inl refl))
