-- ===== src/MemKv/Expiry.antt =====
-- Lifetimes: what is read back, and what a sweep may drop.
use model_gateway.Common.{
  ℕ, ◌+◌, ◌≤◌, ◌<◌, ◌≡◌, refl, true, false, String, String_comparable, [], ◌∷◌, none, some, arith,
  ltb, if◌then◌else◌, lookup, lookup-insert, lookup-insert_self, Distinct, ◌==◌, All,
}
use model_gateway.Core.Errors.{ok}
use model_gateway.MemKv.{Entry, Entries, expired, live, get, set, sweep, len}

-- A value is read back until its lifetime is over, and not after it, unless the sum of the clock
-- and the lifetime is the zero time.
pub get-set :
    (s : Entries) (now later : ℕ) (key value : String) (ttl : ℕ)
    → 0 < now + ttl
    → get (set s now key value ttl).0 later key
      ≡ ok (if ltb (now + ttl) later then none else some value)
unfolding get set expired
get-set s now later key value ttl h = rw lookup-insert_self (ground arith)

-- Writing one key leaves every other key as it was.
pub get-set_ne :
    (s : Entries) (now later : ℕ) (key other value : String) (ttl : ℕ)
    → (key == other) ≡ false
    → get (set s now key value ttl).0 later other ≡ get s later other
unfolding get set
get-set_ne s now later key other value ttl h = rw (lookup-insert, h)

lookup-sweep-none :
    (key : String) (s : Entries) (now : ℕ) → lookup key s ≡ none → lookup key (sweep s now).0 ≡ none
unfolding lookup sweep
lookup-sweep-none key [] now h = refl
lookup-sweep-none key ((j, e) ∷ s) now h = ground (arith, lookup-sweep-none key s now)

expired_later :
    (e : Entry) (now later : ℕ) → now ≤ later → expired e now ≡ true → expired e later ≡ true
unfolding expired
expired_later e now later h x = ground arith

live-sweep :
    (s : Entries) (now later : ℕ) (key : String)
    → now ≤ later
    → Distinct s
    → live (lookup key (sweep s now).0) later ≡ live (lookup key s) later
unfolding lookup sweep live
live-sweep [] now later key h d = refl
live-sweep ((j, e) ∷ s) now later key h d = ground (
  arith,
  live-sweep s now later key h d.1,
  lookup-sweep-none j s now d.0,
  String_comparable.same_iff j key,
  expired_later e now later h,
)

-- A sweep is invisible: afterwards every key reads, from then on, as it would have without it, in a
-- store that holds each key once.
pub get-sweep :
    (s : Entries) (now later : ℕ) (key : String)
    → now ≤ later
    → Distinct s
    → get (sweep s now).0 later key ≡ get s later key
unfolding get
get-sweep s now later key h d = rw (live-sweep s now later key h d)

-- A sweep leaves only entries that are unexpired, and reports how many it removed.
pub sweep_complete :
    (s : Entries) (now : ℕ)
    → All (λ (kv : String × Entry). expired kv.1 now ≡ false) (sweep s now).0
      × (len (sweep s now).0 + (sweep s now).1 ≡ len s)
unfolding sweep len
sweep_complete [] now = (tt, refl)
sweep_complete ((j, e) ∷ s) now = ground (arith, sweep_complete s now)
