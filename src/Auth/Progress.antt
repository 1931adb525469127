-- ===== src/Auth/Progress.antt =====
-- The throttle of key fetches does not stop them for good.
use gh_token_broker.Base.{
  ℕ, ◌+◌, ◌≤◌, ◌≡◌, ◌≢◌, ◌⊎◌, refl, true, false, ◌&&◌, Option, none, some, List, [], ◌∷◌, arith,
  ==_iff, Some, inl, inr,
}
use gh_token_broker.Auth.Discovery.{
  Transport, is_jwks, is_throttled, admit, https, jwks_fetch_interval,
}
use gh_token_broker.Auth.Throttle.{Attempt, has_passed, fetches, IsHttps}

abbrev pub IsElapsed : Option ℕ → ℕ → Type 0
IsElapsed none now = Unit
IsElapsed (some last) now = last + jwks_fetch_interval ≤ now

-- A request for the keys that comes when the interval since the last fetch is over.
abbrev pub IsDue : Transport → Attempt → Type 0
IsDue t a = IsHttps a × (is_jwks t a.url ≡ true) × IsElapsed t.last_fetch a.clock.checked

due-is_throttled : (o : Option ℕ) (now : ℕ) → IsElapsed o now → is_throttled o now ≡ false
due-is_throttled none now h = refl
due-is_throttled (some last) now h = ground arith

-- A request either fetches the keys or leaves the transport as it is.
admit-cases :
    (t : Transport) (a : Attempt)
    → ((has_passed (admit t a.url a.clock).1 && is_jwks t a.url) ≡ true)
      ⊎ (((has_passed (admit t a.url a.clock).1 && is_jwks t a.url) ≡ false)
          × ((admit t a.url a.clock).0 ≡ t))
unfolding admit
admit-cases t a = ground arith

due-passes :
    (t : Transport) (a : Attempt)
    → IsDue t a
    → (has_passed (admit t a.url a.clock).1 && is_jwks t a.url) ≡ true
unfolding admit
due-passes t a (secure, keys, elapsed) =
    ground (arith, ==_iff a.url.scheme https, due-is_throttled t.last_fetch a.clock.checked elapsed)

-- If some request in a sequence of requests asks for the keys over https when at least 30 seconds
-- have passed since the last fetch noted before the sequence, then the transport lets at least one
-- key fetch of the sequence through.
pub fetches_nonempty :
    (t : Transport) (attempts : List Attempt) → Some (IsDue t) attempts → fetches t attempts ≢ []
unfolding fetches
fetches_nonempty t [] h e = absurd h
fetches_nonempty t (a ∷ rest) h e = elim (admit-cases t a) [
  | inl fetched ↦ cc (rw fetched at e)
  | inr (idle, same) ↦ elim h [
    | inl due ↦ cc (due-passes t a due, idle)
    | inr later ↦ fetches_nonempty t rest later (rw (idle, same) at e)
  ]
]
