-- ===== src/Auth/Throttle.antt =====
-- What the restricting transport lets through over a whole sequence of requests.
use gh_token_broker.Base.{
  ℕ, ◌+◌, ◌*◌, ◌≤◌, ◌≡◌, ◌⊎◌, refl, subst, Bool, true, false, ◌&&◌, Option, none, some, List, [],
  ◌∷◌, arith, ◌==◌, ==_iff, if◌then◌else◌, length, All, Bool-cases, inl, inr,
}
use gh_token_broker.Auth.Discovery.{
  Url, Transport, Clock, Verdict, refused, throttled, passed, is_jwks, is_throttled, admit, https,
  jwks_fetch_interval,
}

-- One request to the transport with the clock readings of its critical section.
pub record Attempt : Type 0 where
  pub url : Url
  pub clock : Clock

abbrev pub has_passed : Verdict → Bool
has_passed refused = false
has_passed throttled = false
has_passed passed = true

-- The requests that reach the underlying round tripper, in order.
unfoldable pub sent : Transport → List Attempt → List Attempt
sent t [] = []
sent t (a ∷ rest) =
    let (after, verdict) = admit t a.url a.clock in
    let later = sent after rest in if has_passed verdict then a ∷ later else later

-- The times of the key fetches among them.
unfoldable pub fetches : Transport → List Attempt → List ℕ
fetches t [] = []
fetches t (a ∷ rest) =
    let (after, verdict) = admit t a.url a.clock in
    let later = fetches after rest in
    if has_passed verdict && is_jwks t a.url then a.clock.stored ∷ later else later

-- The clock does not run backwards between its two readings.
abbrev pub IsForward : Attempt → Type 0
IsForward a = a.clock.checked ≤ a.clock.stored

abbrev Gap : Option ℕ → ℕ → Type 0
Gap none t = Unit
Gap (some last) t = last + jwks_fetch_interval ≤ t

-- Each time is at least the interval after the one before it, the first one after `last`.
abbrev pub AreSpaced : Option ℕ → List ℕ → Type 0
AreSpaced last [] = Unit
AreSpaced last (t ∷ ts) = Gap last t × AreSpaced (some t) ts

abbrev pub IsHttps : Attempt → Type 0
IsHttps a = a.url.scheme ≡ https

passed-IsHttps :
    (t : Transport) (a : Attempt) → has_passed (admit t a.url a.clock).1 ≡ true → IsHttps a
unfolding admit
passed-IsHttps t a h = ground (arith, ==_iff a.url.scheme https)

-- Over any sequence of requests, every request that the transport passes on has the scheme https.
pub sent-IsHttps : (t : Transport) (attempts : List Attempt) → All IsHttps (sent t attempts)
unfolding sent
sent-IsHttps t [] = tt
sent-IsHttps t (a ∷ rest) = elim (Bool-cases (has_passed (admit t a.url a.clock).1)) [
  | inl through ↦
      rw through (passed-IsHttps t a through, sent-IsHttps (admit t a.url a.clock).0 rest)
  | inr stopped ↦ rw stopped (sent-IsHttps (admit t a.url a.clock).0 rest)
]

Gap-is_throttled :
    (o : Option ℕ) (clock : Clock)
    → is_throttled o clock.checked ≡ false
    → clock.checked ≤ clock.stored
    → Gap o clock.stored
Gap-is_throttled none clock h forward = tt
Gap-is_throttled (some last) clock h forward = ground arith

-- A request either is a key fetch that keeps the interval and is noted, or leaves the transport as
-- it is and is no key fetch that passes.
admit-cases :
    (t : Transport) (url : Url) (clock : Clock)
    → ((has_passed (admit t url clock).1 && is_jwks t url) ≡ true)
        × ((admit t url clock).0 ≡ record t { last_fetch = some clock.stored })
        × (is_throttled t.last_fetch clock.checked ≡ false)
      ⊎ (((has_passed (admit t url clock).1 && is_jwks t url) ≡ false)
          × ((admit t url clock).0 ≡ t))
unfolding admit
admit-cases t url clock = elim (Bool-cases (url.scheme == https)) [
  | inr other ↦ rw other (inr (refl, refl))
  | inl secure ↦ elim (Bool-cases (is_jwks t url)) [
    | inr plain ↦ rw (secure, plain) (inr (refl, refl))
    | inl keys ↦ elim (Bool-cases (is_throttled t.last_fetch clock.checked)) [
      | inl early ↦ rw (secure, keys, early) (inr (refl, refl))
      | inr late ↦ rw (secure, keys, late) (inl (refl, refl, refl))
    ]
  ]
]

-- If the clock never runs backwards between its two readings under the lock, then over any sequence
-- of requests to the transport the key fetches that it lets through are at least 30 seconds apart,
-- the first one from the last fetch noted before.
pub fetches-AreSpaced :
    (t : Transport) (attempts : List Attempt)
    → All IsForward attempts
    → AreSpaced t.last_fetch (fetches t attempts)
unfolding fetches
fetches-AreSpaced t [] forward = tt
fetches-AreSpaced t (a ∷ rest) (now, forward) = elim (admit-cases t a.url a.clock) [
  | inl (fetch, after, late) ↦
      rw (fetch, after)
        (
          Gap-is_throttled t.last_fetch a.clock late now,
          fetches-AreSpaced (record t { last_fetch = some a.clock.stored }) rest forward,
        )
  | inr (other, same) ↦ rw (other, same) (fetches-AreSpaced t rest forward)
]

AreSpaced-length :
    (last end : ℕ) (ts : List ℕ)
    → AreSpaced (some last) ts
    → All (λ t. t ≤ end) ts
    → last ≤ end
    → last + length ts * jwks_fetch_interval ≤ end
AreSpaced-length last end [] s h le = omega arith
AreSpaced-length last end (t ∷ ts) (gap, s) (here, h) le =
    omega (arith, AreSpaced-length t end ts s h here)

fetches-before :
    (t : Transport) (attempts : List Attempt) (end : ℕ)
    → All (λ a. a.clock.stored ≤ end) attempts
    → All (λ n. n ≤ end) (fetches t attempts)
unfolding fetches
fetches-before t [] end h = tt
fetches-before t (a ∷ rest) end (here, h) =
    elim (Bool-cases (has_passed (admit t a.url a.clock).1 && is_jwks t a.url)) [
      | inl fetch ↦ rw fetch (here, fetches-before (admit t a.url a.clock).0 rest end h)
      | inr other ↦ rw other (fetches-before (admit t a.url a.clock).0 rest end h)
    ]

-- If the last fetch noted before is at `last`, the clock never runs backwards between its two
-- readings and no reading is after `end`, then `last` plus 30 seconds for each key fetch that the
-- transport lets through is at most `end`.
pub length-fetches :
    (t : Transport) (last end : ℕ) (attempts : List Attempt)
    → t.last_fetch ≡ some last
    → All IsForward attempts
    → All (λ a. a.clock.stored ≤ end) attempts
    → last ≤ end
    → last + length (fetches t attempts) * jwks_fetch_interval ≤ end
length-fetches t last end attempts known forward before le =
    let spaced =
      subst (λ o. AreSpaced o (fetches t attempts)) known (fetches-AreSpaced t attempts forward) in
    AreSpaced-length last end (fetches t attempts) spaced (fetches-before t attempts end before) le
