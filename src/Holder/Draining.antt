-- ===== src/Holder/Draining.antt =====
-- When a displaced snapshot is retired, over all interleavings of acquires, releases, swaps and
-- rollbacks. The loads and the references of Acquire are separate steps.
use model_gateway.Common.{
  ℕ, ◌+◌, ◌<◌, ◌≡◌, refl, subst, ◌≢◌, inl, inr, true, false, List, [], ◌∷◌, Option, none, some,
  arith, eqb, Bool-cases,
}
use model_gateway.Core.Errors.{ok, Result-cases}
use model_gateway.Core.Snapshot.{Snapshot}
use model_gateway.Holder.{
  new_generation, try_ref, Holder, new_holder, take_lease, acquire, check_monotonic, swap, revert,
  rollback, Event, takes, releases, swaps, rolls_back, settle, step, run,
}
use model_gateway.Holder.Counting.{
  live, own, IsValid, take_lease-IsValid, release-IsValid, install-IsValid, revert-IsValid,
}

-- Each round of Acquire's loop is on a generation that was allocated when it was loaded.
abbrev pub Loads : Holder → List Event → Type 0
Loads h [] = Unit
Loads h (takes g ∷ es) = (g < h.next) × Loads (step h (takes g)) es
Loads h (releases i ∷ es) = Loads (step h (releases i)) es
Loads h (swaps s ∷ es) = Loads (step h (swaps s)) es
Loads h (rolls_back ∷ es) = Loads (step h rolls_back) es

pub new_holder-IsValid : (s : Snapshot) (h : Holder) → new_holder (some s) ≡ ok h → IsValid h
unfolding new_holder
new_holder-IsValid s h e =
    let same : record {
      heap = λ _. new_generation s;
      next = 1;
      current = 0;
      previous = none;
      leases = [];
    }
        ≡ h =
      cc in
    subst (λ x. IsValid x) same
      (record {
        exact =
            λ g b. record { counted = ground arith; flagged = ground arith; called = ground arith };
        current = omega arith;
        previous = tt;
        apart = λ e. cc;
        leases = tt;
      })

pub swap-IsValid : (h : Holder) (s : Option Snapshot) → IsValid h → IsValid (settle h (swap h s))
unfolding swap
swap-IsValid h none v = v
swap-IsValid h (some s) v = elim (Result-cases (check_monotonic (h.heap h.current).snap s)) [
  | inl (f, e) ↦ rw e v
  | inr (u, e) ↦ rw e (install-IsValid h s v)
]

rollback-IsValid : (h : Holder) → IsValid h → IsValid (settle h (rollback h))
unfolding rollback
rollback-IsValid h v = elim (Result-cases (revert h h.previous)) [
  | inl (f, e) ↦ rw e v
  | inr (h', e) ↦ rw e (revert-IsValid h h' h.previous refl e v)
]

pub run-IsValid : (h : Holder) (es : List Event) → IsValid h → Loads h es → IsValid (run h es)
unfolding run step
run-IsValid h [] v l = v
run-IsValid h (takes g ∷ es) v l =
    run-IsValid (step h (takes g)) es (take_lease-IsValid h g l.0 v) l.1
run-IsValid h (releases i ∷ es) v l = run-IsValid (step h (releases i)) es (release-IsValid h i v) l
run-IsValid h (swaps s ∷ es) v l = run-IsValid (step h (swaps s)) es (swap-IsValid h s v) l
run-IsValid h (rolls_back ∷ es) v l = run-IsValid (step h rolls_back) es (rollback-IsValid h v) l

-- Where a generation stands: drained and retired, or in use and not retired.
pub data Stands (h : Holder) (g : ℕ) : Type 0 where
  drained :
      (h.heap g).retirements ≡ 1
      → h.current ≢ g
      → h.previous ≢ some g
      → live g h.leases ≡ 0
      → Stands h g
  in_use : (h.heap g).retirements ≡ 0 → 0 < own h g + live g h.leases → Stands h g

IsValid-Stands : (h : Holder) (g : ℕ) → g < h.next → IsValid h → Stands h g
IsValid-Stands h g b v =
    let x = v.exact g b in
    elim (Bool-cases (eqb (own h g + live g h.leases) 0)) [
      | inl e ↦
          drained (ground (arith, x.called, e)) (λ c. ground (arith, e)) (λ p. ground (arith, e))
            (ground (arith, e))
      | inr e ↦ in_use (ground (arith, x.called, e)) (ground (arith, e))
    ]

-- Whatever requests, swaps and rollbacks do from a new holder on, and however the steps of Acquire
-- interleave with them, each generation that was allocated is either retired, exactly once, and
-- then neither current nor the rollback slot nor leased; or not retired, and then current, the
-- rollback slot, or leased. Acquire tries only generations that were allocated when it loaded them.
pub run-Stands :
    (s : Snapshot) (h : Holder) (es : List Event) (g : ℕ)
    → new_holder (some s) ≡ ok h
    → Loads h es
    → g < (run h es).next
    → Stands (run h es) g
run-Stands s h es g e l b =
    IsValid-Stands (run h es) g b (run-IsValid h es (new_holder-IsValid s h e) l)

-- Acquire needs no second round where nothing comes between its load and its reference: after any
-- run from a new holder in which Acquire tries only allocated generations, it takes a lease, on the
-- current generation, which is not retired.
pub run-acquire :
    (s : Snapshot) (h : Holder) (es : List Event)
    → new_holder (some s) ≡ ok h
    → Loads h es
    → ((acquire (run h es)).1 ≡ true)
      × ((acquire (run h es)).0.leases
          ≡ record { gen = (run h es).current; released = false } ∷ (run h es).leases)
      × (((run h es).heap (run h es).current).retirements ≡ 0)
unfolding take_lease try_ref
run-acquire s h es e l =
    let v = run-IsValid h es (new_holder-IsValid s h e) l in
    let x = v.exact (run h es).current v.current in
    (ground (arith, x.counted), ground (arith, x.counted), ground (arith, x.called))
