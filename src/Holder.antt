-- ===== src/Holder.antt =====
-- dataplane/internal/snapshot/holder.go: the snapshot that a worker serves, leased to requests. A
-- generation is named by a number, and the heap says what each generation holds. The callbacks OnApply
-- and OnRetire run outside code: the calls of the latter are counted.
pub mod Counting
pub mod Draining
pub mod Swapping
pub mod Subscriber
mod Tests
use model_gateway.Common.{
  ℕ, zero, suc, ◌+◌, ◌-◌, String, Bool, true, false, List, [], ◌∷◌, ◌++◌, Option, none, some, eqb,
  ltb, if◌then◌else◌,
}
use model_gateway.Core.Errors.{
  Arg, Result, ok, err, ◌>>=◌, invalid_request, new, newf, text, number,
}
use model_gateway.Core.Snapshot.{LayerVersion, Snapshot}
use model_gateway.Core.Snapshot.Lookups.{global_version, tenant_version, tenant_ids}

-- generation; `retired` is the sync.Once, and `retirements` counts the calls of the callback.
pub record Generation : Type 0 where
  pub snap : Snapshot
  pub refs : ℕ
  pub retired : Bool
  pub retirements : ℕ

-- newGeneration
abbrev pub new_generation : Snapshot → Generation
new_generation snap = record { snap = snap; refs = 1; retired = false; retirements = 0 }

-- generation.tryRef
unfoldable pub try_ref : Generation → Generation × Bool
try_ref g = if eqb g.refs 0 then (g, false) else (record g { refs = suc g.refs }, true)

abbrev retire : Generation → Generation
retire g = if g.retired then g else record g { retired = true; retirements = suc g.retirements }

-- generation.unref
unfoldable pub unref : Generation → Generation
unref g =
    let n = g.refs - 1 in if ltb 0 n then record g { refs = n } else retire (record g { refs = n })

-- Lease; `released` is the sync.Once.
pub record Lease : Type 0 where
  pub gen : ℕ
  pub released : Bool

pub record Holder : Type 0 where
  pub heap : ℕ → Generation
  pub next : ℕ  -- the first generation that is not allocated
  pub current : ℕ
  pub previous : Option ℕ
  pub leases : List Lease

-- Writing one generation.
abbrev pub put : (ℕ → Generation) → ℕ → Generation → ℕ → Generation
put heap g x i = if eqb i g then x else heap i

-- New
unfoldable pub new_holder : Option Snapshot → Result Holder
new_holder none = err (new invalid_request "a holder needs an initial snapshot")
new_holder (some initial) = ok (record {
  heap = λ _. new_generation initial;
  next = 1;
  current = 0;
  previous = none;
  leases = [];
})

-- One round of Acquire's loop, with the generation that it loaded, which may have been displaced
-- since: whether a lease was taken.
unfoldable pub take_lease : Holder → ℕ → Holder × Bool
take_lease h g =
    let (x, taken) = try_ref (h.heap g) in
    if taken
    then (
      record h { heap = put h.heap g x; leases = record { gen = g; released = false } ∷ h.leases },
      true,
    )
    else (h, false)

-- Acquire, where nothing happens between the load and the reference.
abbrev pub acquire : Holder → Holder × Bool
acquire h = take_lease h h.current

-- Release of the lease at an index, and the generation to unref, if it was not released before.
unfoldable pub release_at : List Lease → ℕ → List Lease × Option ℕ
release_at [] i = ([], none)
release_at (l ∷ ls) zero =
    if l.released then (l ∷ ls, none) else (record l { released = true } ∷ ls, some l.gen)
release_at (l ∷ ls) (suc i) = let (rest, g) = release_at ls i in (l ∷ rest, g)

abbrev pub unref_at : (ℕ → Generation) → Option ℕ → ℕ → Generation
unref_at heap none = heap
unref_at heap (some g) = put heap g (unref (heap g))

-- Lease.Release
unfoldable pub release : Holder → ℕ → Holder
release h i =
    let (leases, g) = release_at h.leases i in
    record h { heap = unref_at h.heap g; leases = leases }

abbrev pub version_number : Option LayerVersion → ℕ
version_number none = 0
version_number (some v) = v.number

-- The check of one tenant; a tenant that the next snapshot lacks reads as the zero version.
unfoldable pub check_tenant : String → Option LayerVersion → Option LayerVersion → Result (Unit {0})
check_tenant tenant none got = ok tt
check_tenant tenant (some have) got =
    if ltb (version_number got) have.number
    then err (
        newf invalid_request "tenant %q layer version would move backwards, from %d to %d"
          (text tenant ∷ number have.number ∷ number (version_number got) ∷ []))
    else ok tt

unfoldable pub check_tenants : Snapshot → Snapshot → List String → Result (Unit {0})
check_tenants current next [] = ok tt
check_tenants current next (t ∷ ts) =
    check_tenant t (tenant_version current t) (tenant_version next t) >>= λ _.
    check_tenants current next ts

-- checkMonotonic
unfoldable pub check_monotonic : Snapshot → Snapshot → Result (Unit {0})
check_monotonic current next =
    let got = (global_version next).number in
    let have = (global_version current).number in
    if ltb got have
    then err (
        newf invalid_request "global layer version would move backwards, from %d to %d"
          (number have ∷ number got ∷ []))
    else check_tenants current next (tenant_ids next)

-- The stores of Swap, after its checks.
unfoldable pub install : Holder → Snapshot → Holder
install h snap = record {
  heap = unref_at (put h.heap h.next (new_generation snap)) h.previous;
  next = suc h.next;
  current = h.next;
  previous = some h.current;
  leases = h.leases;
}

-- Swap
unfoldable pub swap : Holder → Option Snapshot → Result Holder
swap h none = err (new invalid_request "cannot swap in a nil snapshot")
swap h (some snap) = check_monotonic (h.heap h.current).snap snap >>= λ _. ok (install h snap)

-- Rollback, given the rollback slot.
unfoldable pub revert : Holder → Option ℕ → Result Holder
revert h none = err (new invalid_request "no previous snapshot to roll back to")
revert h (some previous) =
    ok (record h { heap = unref_at h.heap (some h.current); current = previous; previous = none })

-- Rollback
unfoldable pub rollback : Holder → Result Holder
rollback h = revert h h.previous

-- What may happen to a holder; a call that fails leaves it as it was.
pub data Event : Type 0 where
  takes : ℕ → Event  -- a round of Acquire's loop on a loaded generation
  releases : ℕ → Event
  swaps : Option Snapshot → Event
  rolls_back : Event

abbrev pub settle : Holder → Result Holder → Holder
settle h (ok h') = h'
settle h (err e) = h

unfoldable pub step : Holder → Event → Holder
step h (takes g) = (take_lease h g).0
step h (releases i) = release h i
step h (swaps s) = settle h (swap h s)
step h rolls_back = settle h (rollback h)

unfoldable pub run : Holder → List Event → Holder
run h [] = h
run h (e ∷ es) = run (step h e) es
