-- ===== src/Base/Errors.antt =====
-- A Go result with an error: `ok` for a nil error.
use mathlib.Core.Path.{◌≡◌, refl}
use mathlib.Core.Bool.{Bool, true, false}
use mathlib.Core.List.{List, [], ◌∷◌}
use mathlib.Core.Logic.{◌↔◌, ◌⊎◌, inl, inr}
use gh_token_broker.Base.Tests.{Bool-cases}
use gh_token_broker.Base.Lists.{All, all}

pub data Outcome {ℓ κ} (Fault : Type ℓ) (A : Type κ) : Type (ℓ ⊔ κ) where
  ok : A → Outcome Fault A
  err : Fault → Outcome Fault A

-- `if bad { return fault }`
abbrev pub reject {ℓ} : {Fault : Type ℓ} → Bool → Fault → Outcome Fault (Unit {0})
reject false fault = ok tt
reject true fault = err fault

infixl 5 ◌>>=◌ ◌>>◌
abbrev pub ◌>>=◌ {ℓ κ η} :
    {Fault : Type ℓ} {A : Type κ} {B : Type η}
    → Outcome Fault A
    → (A → Outcome Fault B)
    → Outcome Fault B
err fault >>= next = err fault
ok a >>= next = next a

abbrev pub ◌>>◌ {ℓ κ} :
    {Fault : Type ℓ} {B : Type κ} → Outcome Fault (Unit {0}) → Outcome Fault B → Outcome Fault B
check >> rest = check >>= λ _. rest

-- A failed step with its error wrapped, as by `fmt.Errorf("...: %w", err)`.
abbrev pub wrap {ℓ κ η} :
    {E : Type ℓ} {F : Type κ} {A : Type η} → (E → F) → Outcome E A → Outcome F A
wrap f (ok a) = ok a
wrap f (err e) = err (f e)

-- A chain that succeeds went through a first step that succeeded.
pub >>=-eq-ok {ℓ κ η} :
    {Fault : Type ℓ} {A : Type κ} {B : Type η} (first : Outcome Fault A)
    (next : A → Outcome Fault B) {end : B}
    → (first >>= next) ≡ ok end
    → (mid : A) × (first ≡ ok mid) × (next mid ≡ ok end)
>>=-eq-ok (err fault) next reached = cc
>>=-eq-ok (ok mid) next reached = (mid, refl, reached)

pub wrap-eq-ok {ℓ κ η} :
    {E : Type ℓ} {F : Type κ} {A : Type η} (f : E → F) (m : Outcome E A) {a : A}
    → wrap f m ≡ ok a
    → m ≡ ok a
wrap-eq-ok f (ok a) h = cc
wrap-eq-ok f (err e) h = cc

pub check-cases {ℓ} :
    {E : Type ℓ} (m : Outcome E (Unit {0})) → (m ≡ ok tt) ⊎ ((e : E) × (m ≡ err e))
check-cases (ok u) = inl refl
check-cases (err e) = inr (e, refl)

pub Outcome-cases {ℓ κ} :
    {E : Type ℓ} {A : Type κ} (m : Outcome E A) → ((a : A) × (m ≡ ok a)) ⊎ ((e : E) × (m ≡ err e))
Outcome-cases (ok a) = inl (a, refl)
Outcome-cases (err e) = inr (e, refl)

pub ok_injective {ℓ κ} :
    {E : Type ℓ} {A : Type κ} {a b : A} → ◌≡◌ {A = Outcome E A} (ok a) (ok b) → a ≡ b
ok_injective e = cc

-- A guard that lets a chain succeed was not met.
pub reject->> {ℓ κ} :
    {Fault : Type ℓ} {A : Type κ} (b : Bool) (fault : Fault) (rest : Outcome Fault A) {a : A}
    → (reject b fault >> rest) ≡ ok a
    → (b ≡ false) × (rest ≡ ok a)
reject->> false fault rest h = (refl, h)
reject->> true fault rest h = cc

-- A loop that stops at the first entry that fails.
unfoldable pub each {ℓ κ} :
    {E : Type ℓ} {A : Type κ} → (A → Outcome E (Unit {0})) → List A → Outcome E (Unit {0})
each step [] = ok tt
each step (a ∷ rest) = step a >> each step rest

pub reject-ok {ℓ} :
    {E : Type ℓ} (b : Bool) (fault : E) {u : Unit {0}} → reject b fault ≡ ok u → b ≡ false
reject-ok false fault h = refl
reject-ok true fault h = cc

-- A loop that ends well has passed every entry.
pub each-All {ℓ κ} :
    {E : Type ℓ} {A : Type κ} (step : A → Outcome E (Unit {0})) (xs : List A)
    → each step xs ≡ ok tt
    → All (λ x. step x ≡ ok tt) xs
unfolding each
each-All step [] h = tt
each-All step (x ∷ xs) h =
    let (u, first, rest) = >>=-eq-ok (step x) _ h in (first, each-All step xs rest)

-- A loop whose step decides a test ends well exactly when every entry passes the test.
pub each_iff {ℓ κ} :
    {E : Type ℓ} {A : Type κ} (step : A → Outcome E (Unit {0})) (p : A → Bool)
    → ((a : A) → (p a ≡ true) ↔ (step a ≡ ok tt))
    → (xs : List A) → (all p xs ≡ true) ↔ (each step xs ≡ ok tt)
unfolding each
each_iff step p h [] = (λ _. refl, λ _. refl)
each_iff step p h (x ∷ xs) = elim (check-cases (step x)) [
  | inl good ↦ rw (good, (h x).1 good) (each_iff step p h xs)
  | inr (e, bad) ↦ elim (Bool-cases (p x)) [
    | inl passed ↦ let good = (h x).0 passed in cc
    | inr failed ↦ rw (bad, failed) (λ k. cc, λ k. cc)
  ]
]
