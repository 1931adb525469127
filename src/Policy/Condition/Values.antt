-- ===== src/Policy/Condition/Values.antt =====
-- The values that the operands of a comparison with the resource can have.
use gh_token_broker.Base.{
  ◌≡◌, ◌⊎◌, subst, inl, inr, refl, sym, ap, ◌∙◌, true, false, [], ◌∷◌, Str, codes, ◌==◌, ==_iff, ok,
  Some, All, arith, Bool-cases, all,
}
use gh_token_broker.Base.Map.{Map}
use gh_token_broker.Policy.Ast.{
  Expr, Exprs, literal, ident, select, call, member, list, mapping, message, comprehension, nil,
  cons, entries,
}
use gh_token_broker.Policy.Reads.{is_request_field, is_resource_ref}
use gh_token_broker.Policy.Engine.{Vars}
use gh_token_broker.Policy.Condition.Semantics.{
  Semantics, Value, Values, word, items, no_items, item, each_value, Equal, AllEqual, IsMember,
  Pointwise,
}
use gh_token_broker.Policy.Condition.Owner.{anchored_word}
use gh_token_broker.Policy.Condition.Anchored.{caller_anchored, anchored_operand}

-- The operand that is compared with the resource: an anchored expression, or a list of them.
anchored_operand-cases :
    (e : Expr)
    → anchored_operand e ≡ true
    → ((es : Exprs) × (e ≡ list es) × (all caller_anchored (entries es) ≡ true))
      ⊎ (caller_anchored e ≡ true)
anchored_operand-cases (list es) h = inl (es, refl, h)
anchored_operand-cases (literal l) h = inr h
anchored_operand-cases (ident n) h = inr h
anchored_operand-cases (select e f o) h = inr h
anchored_operand-cases (call fn es) h = inr h
anchored_operand-cases (member e fn es) h = inr h
anchored_operand-cases (mapping es) h = inr h
anchored_operand-cases (message n fs es) h = inr h
anchored_operand-cases (comprehension i j a r n d p o) h = inr h

module _ (sem : Semantics) (caller : Map Str) (r : Str) where
  open sem use {eval, list_items, equals_true, in_true, request_resource, request_resources}

  abbrev pub x : Vars
  x = record { caller = caller; request = record { resource = r; resources = r ∷ [] } }

  -- An anchored expression has the string as its value.
  abbrev pub IsAnchored : Str → Type 0
  IsAnchored s = (e : Expr) × (caller_anchored e ≡ true) × (eval e x ≡ ok (word s))

  abbrev pub IsWord : Value → Type 0
  IsWord v = (s : Str) × (v ≡ word s) × IsAnchored s

  abbrev pub IsAnchoredValue : Value → Type 0
  IsAnchoredValue w = IsWord w ⊎ ((ws : Values) × (w ≡ items ws) × All IsWord (each_value ws))

  -- The value of a reference to the resource.
  abbrev pub IsResourceValue : Value → Type 0
  IsResourceValue v = (v ≡ word r) ⊎ (v ≡ items (item (word r) no_items))

  pub resource_value :
      (e : Expr) (v : Value) → is_resource_ref e ≡ true → eval e x ≡ ok v → IsResourceValue v
  unfolding is_resource_ref is_request_field
  resource_value (select e f true) v h t = ground arith
  resource_value (select e f false) v h t = elim (Bool-cases (f == codes "resource")) [
    | inl one ↦
        let same : f ≡ codes "resource" = (==_iff f (codes "resource")).0 one in
        inl (request_resource e x v (ground arith) (rw same at t))
    | inr not_one ↦
        let same : f ≡ codes "resources" = ground (arith, ==_iff f (codes "resources")) in
        inr (request_resources e x v (ground arith) (rw same at t))
  ]
  resource_value (literal l) v h t = cc
  resource_value (ident n) v h t = cc
  resource_value (list es) v h t = cc
  resource_value (call fn es) v h t = cc
  resource_value (member e fn es) v h t = cc
  resource_value (mapping es) v h t = cc
  resource_value (message n fs es) v h t = cc
  resource_value (comprehension i' j a r' n d p o) v h t = cc

  each-IsWord :
      (es : Exprs) (ws : Values)
      → all caller_anchored (entries es) ≡ true
      → Pointwise eval x es ws
      → All IsWord (each_value ws)
  each-IsWord nil no_items h t = tt
  each-IsWord nil (item w ws) h t = absurd t
  each-IsWord (cons e es) no_items h t = absurd t
  each-IsWord (cons e es) (item w ws) h (t, ts) =
      (is_word e w (ground arith) t, each-IsWord es ws (ground arith) ts)
    where
      is_word : (e : Expr) (w : Value) → caller_anchored e ≡ true → eval e x ≡ ok w → IsWord w
      is_word e w h t =
          let (s, same) = anchored_word sem x e w h t in (s, same, (e, h, t ∙ ap ok same))

  pub anchored_value :
      (e : Expr) (w : Value) → anchored_operand e ≡ true → eval e x ≡ ok w → IsAnchoredValue w
  anchored_value e w h t = elim (anchored_operand-cases e h) [
    | inl (es, same, anchored) ↦
        let (ws, is_list, values) = list_items es x w (rw same at t) in
        inr (ws, is_list, each-IsWord es ws anchored values)
    | inr anchored ↦
        let (s, same) = anchored_word sem x e w anchored t in
        inl (s, same, (e, anchored, t ∙ ap ok same))
  ]

  pub word_pins : (v : Value) → IsWord v → Equal (word r) v → IsAnchored r
  unfolding Equal
  word_pins v (s, same, a) h = let eq : r ≡ s = rw same at h in subst IsAnchored (sym eq) a

  word_pins_sym : (v : Value) → IsWord v → Equal v (word r) → IsAnchored r
  unfolding Equal
  word_pins_sym v (s, same, a) h = let eq : s ≡ r = rw same at h in subst IsAnchored eq a

  not_items : (v : Value) (ws : Values) → IsWord v → Equal (items ws) v → ⊥
  unfolding Equal
  not_items v ws (s, same, a) h = rw same at h

  -- A value that is equal to the resource and spelled by anchored expressions.
  pub Equal-pins : (v w : Value) → IsResourceValue v → IsAnchoredValue w → Equal v w → IsAnchored r
  unfolding Equal
  Equal-pins v w (inl one) (inl spelled) h = word_pins w spelled (rw one at h)
  Equal-pins v w (inl one) (inr (ws, same, spelled)) h = absurd (rw (one, same) at h)
  Equal-pins v w (inr many) (inl spelled) h =
      absurd (not_items w (item (word r) no_items) spelled (rw many at h))
  Equal-pins v w (inr many) (inr (ws, same, spelled)) h = in_list ws spelled (rw (many, same) at h)
    where
      in_list :
          (ws : Values)
          → All IsWord (each_value ws)
          → AllEqual (item (word r) no_items) ws
          → IsAnchored r
      in_list no_items spelled h = absurd h
      in_list (item w ws) (spelled, _) (h, _) = word_pins w spelled h

  pub Equal-pins_sym :
      (v w : Value) → IsAnchoredValue v → IsResourceValue w → Equal v w → IsAnchored r
  unfolding Equal
  Equal-pins_sym v w (inl spelled) (inl one) h = word_pins_sym v spelled (rw one at h)
  Equal-pins_sym v w (inr (ws, same, spelled)) (inl one) h = absurd (rw (one, same) at h)
  Equal-pins_sym v w (inl (s, same, a)) (inr many) h = absurd (rw (many, same) at h)
  Equal-pins_sym v w (inr (ws, same, spelled)) (inr many) h =
      in_list ws spelled (rw (many, same) at h)
    where
      in_list :
          (ws : Values)
          → All IsWord (each_value ws)
          → AllEqual ws (item (word r) no_items)
          → IsAnchored r
      in_list no_items spelled h = absurd h
      in_list (item w ws) (spelled, _) (h, _) = word_pins_sym w spelled h

  -- The resource is in a list that anchored expressions spell.
  pub member_pins :
      (v w : Value) → IsResourceValue v → IsAnchoredValue w → IsMember v w → IsAnchored r
  member_pins v w hv (inl (s, same, a)) h = absurd (rw same at h)
  member_pins v w hv (inr (ws, same, spelled)) h = among hv ws spelled (rw same at h)
    where
      among :
          IsResourceValue v
          → (ws : Values) → All IsWord (each_value ws)
          → Some (Equal v) (each_value ws)
          → IsAnchored r
      among hv no_items spelled h = absurd h
      among (inl one) (item w ws) (spelled, _) (inl h) = word_pins w spelled (rw one at h)
      among (inr many) (item w ws) (spelled, _) (inl h) =
          absurd (not_items w (item (word r) no_items) spelled (rw many at h))
      among hv (item w ws) (_, spelled) (inr h) = among hv ws spelled h

  -- The list of the one resource has a member that anchored expressions spell.
  pub contains_pins :
      (v w : Value) → IsAnchoredValue v → IsResourceValue w → IsMember v w → IsAnchored r
  unfolding Equal
  contains_pins v w hv (inl one) h = absurd (rw one at h)
  contains_pins v w (inl spelled) (inr many) h = elim (rw many at h) [
    | inl equal ↦ word_pins_sym v spelled equal
    | inr bad ↦ absurd bad
  ]
  contains_pins v w (inr (ws, same, spelled)) (inr many) h = elim (rw (many, same) at h) [
    | inl bad ↦ absurd bad
    | inr bad ↦ absurd bad
  ]
