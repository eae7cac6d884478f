-- ===== src/Limits/Limiter/Racing.antt =====
-- dataplane/internal/limits/limiter.go: Limiter.take by many goroutines of one worker at once. Each
-- critical section of take is one move, and no mutex joins them.
pub mod Moves
pub mod Bounds
pub mod Alone
pub mod Serial
use model_gateway.Common.{
  ℕ, zero, suc, ◌+◌, ◌-◌, ◌*◌, ◌≤◌, ◌<◌, ◌^◌, ◌≡◌, refl, ap, inl, inr, Bool, true, false, not,
  String, String_comparable, List, [], ◌∷◌, Option, none, some, arith, min, if◌then◌else◌, length,
  get_elem?, All, Bool-cases, Option-cases, lookup-insert_self,
}
use model_gateway.Common.Int.{ℤ, pos}
use model_gateway.Core.Ports.{KvStore, CounterLaws}
use model_gateway.Limits.Bucket.{Bucket, take, begin_refill, grant, busy}
use model_gateway.Limits.Lease.{granted, granted_share}
use model_gateway.Limits.Limiter.{
  Limiter, Readings, Reply, bucket, put_bucket, lease_from, take_permit, window_end,
}
use model_gateway.Limits.Limiter.Fleet.{replace}
use model_gateway.Limits.Limiter.Window.{Within, lease_from-Stands}

-- Where a goroutine is in take: what it does next, and whether it has a permit.
pub data Stage : Type 0 where
  arrives retakes : Stage
  begins leases done : Bool → Stage
  grants : Bool → ℕ → Stage

module _ (kv : KvStore) where
  -- The next move of one goroutine.
  unfoldable pub advance : Limiter → kv.Store → Readings → String → ℕ → Stage → Reply kv Stage
  advance l s r k limit arrives =
      let t = take (bucket l k) r.taking in
      record {
        limiter = put_bucket l k t.bucket;
        store = s;
        result = if not t.should_refill then done t.taken else begins t.taken;
      }
  advance l s r k limit (begins taken) =
      let (b, won) = begin_refill (bucket l k) in
      if not won
      then record { limiter = l; store = s; result = done taken }
      else record { limiter = put_bucket l k b; store = s; result = leases taken }
  advance l s r k limit (leases taken) =
      let from = lease_from kv l s r.storing k limit in
      record { limiter = from.limiter; store = from.store; result = grants taken from.result }
  advance l s r k limit (grants taken permits) = record {
    limiter = put_bucket l k (grant (bucket l k) permits (window_end r.granting));
    store = s;
    result = if taken then done true else retakes;
  }
  advance l s r k limit retakes =
      let t = take (bucket l k) r.retaking in
      record { limiter = put_bucket l k t.bucket; store = s; result = done t.taken }
  advance l s r k limit (done taken) = record { limiter = l; store = s; result = done taken }

  -- A schedule: which goroutine makes its next move, and what it reads then.
  unfoldable pub race :
      Limiter
      → kv.Store
      → String
      → ℕ
      → List Stage
      → List (ℕ × Readings)
      → (Limiter × kv.Store) × List Stage
  race l s k limit gs [] = ((l, s), gs)
  race l s k limit gs ((i, r) ∷ rest) = elim (get_elem? gs i) [
    | none ↦ race l s k limit gs rest
    | some g ↦
        let t = advance l s r k limit g in
        race t.limiter t.store k limit (replace gs i t.result) rest
  ]
