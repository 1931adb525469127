-- ===== src/Config/Distinct.antt =====
-- Lists without repetition, as a loop with a set of what it has seen checks them.
use gh_token_broker.Base.{◌≡◌, refl, false, List, [], ◌∷◌, Str, ==_iff, contains, All, arith}

-- No entry stands twice.
abbrev pub Distinct : List Str → Type 0
Distinct [] = Unit
Distinct (x ∷ xs) = (contains xs x ≡ false) × Distinct xs

-- No entry was seen before.
abbrev pub Unseen : List Str → List Str → Type 0
Unseen seen xs = All (λ c. contains seen c ≡ false) xs

pub Unseen-cons :
    (c : Str) (seen xs : List Str) → Unseen (c ∷ seen) xs → Unseen seen xs × (contains xs c ≡ false)
unfolding contains
Unseen-cons c seen [] h = (tt, refl)
Unseen-cons c seen (x ∷ xs) (fresh, h) =
    let (old, new) = Unseen-cons c seen xs h in
    ((ground (arith), old), ground (arith, ==_iff c x, ==_iff x c))
