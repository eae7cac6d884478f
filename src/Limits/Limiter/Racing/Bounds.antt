-- ===== src/Limits/Limiter/Racing/Bounds.antt =====
-- dataplane/internal/limits/limiter.go: what goroutines that race through Limiter.take share.
use model_gateway.Common.{
  ℕ, zero, suc, ◌+◌, ◌*◌, ◌≤◌, ◌<◌, ◌^◌, ◌≡◌, refl, ap, inl, inr, Bool, true, false, String,
  String_comparable, List, lookup, [], ◌∷◌, none, some, arith, min, length, get_elem?, All,
  Option-cases,
}
use model_gateway.Common.Int.{pos}
use model_gateway.Core.Ports.{KvStore, CounterLaws}
use model_gateway.Limits.Bucket.{busy}
use model_gateway.Limits.Limiter.{Limiter, Readings, bucket}
use model_gateway.Limits.Limiter.Fleet.{replace}
use model_gateway.Limits.Limiter.Window.{Within}
use model_gateway.Limits.Limiter.Racing.{Stage, arrives, advance, race}
use model_gateway.Limits.Limiter.Racing.Moves.{
  spent, carried, refilling, total, total-replace, total-le, Fresh, advance-Moved,
}

-- Goroutines that have not begun.
abbrev pub arriving : ℕ → List Stage
arriving zero = []
arriving (suc n) = arrives ∷ arriving n

nothing : (f : Stage → ℕ) → f arrives ≡ 0 → (n : ℕ) → total f (arriving n) ≡ 0
nothing f e zero = refl
nothing f e (suc n) = omega (arith, e, nothing f e n)

busy-le : (b : Bool) → busy b ≤ 1
busy-le true = omega arith
busy-le false = omega arith

module _ (kv : KvStore) (laws : CounterLaws kv) (until : ℕ) (k : String) (limit : ℕ) where
  -- Where the store's counter stands at `c`: what was leased and is inside the limit is spent, carried
  -- by a goroutine, or in the bucket; and the bucket is marked exactly while one of them refills it.
  pub record Racing (l : Limiter) (s : kv.Store) (gs : List Stage) (c : ℕ) : Type 0 where
    pub fresh : Fresh kv laws until k limit l
    pub stands : laws.Stands s until k (pos c)
    pub one_refill : total refilling gs ≡ busy (bucket l k).refreshing
    pub shared : total spent gs + total carried gs + (bucket l k).remaining ≡ min c limit

  move-Racing :
      (l : Limiter) (s : kv.Store) (gs : List Stage) (c i : ℕ) (r : Readings) (g : Stage)
      → Within until r
      → c + l.lease < 2 ^ 63
      → limit < 2 ^ 32
      → get_elem? gs i ≡ some g
      → Racing l s gs c
      → let t = advance kv l s r k limit g in
        (c' : ℕ) × (c' ≤ c + l.lease)
        × (t.limiter.lease ≡ l.lease)
        × Racing t.limiter t.store (replace gs i t.result) c'
  move-Racing l s gs c i r g w fit small e h =
      let t = advance kv l s r k limit g in
      let on = total-le refilling gs i g e in
      let d =
        advance-Moved kv laws until k limit l s r c g w fit small (omega (arith, on, h.one_refill))
          h.fresh h.stands in
      let refills = total-replace refilling gs i g t.result e in
      let spends = total-replace spent gs i g t.result e in
      let carries = total-replace carried gs i g t.result e in
      (
        d.counter,
        d.counter_grows,
        d.same_lease,
        record {
          fresh = d.fresh;
          stands = d.stands;
          one_refill = omega (arith, refills, d.one_refill, h.one_refill);
          shared = omega (arith, spends, carries, d.shared, h.shared);
        },
      )

  race-Racing :
      (l : Limiter) (s : kv.Store) (gs : List Stage) (c : ℕ) (events : List (ℕ × Readings))
      → All (λ (q : ℕ × Readings). Within until q.1) events
      → c + length events * l.lease < 2 ^ 63
      → limit < 2 ^ 32
      → Racing l s gs c
      → let out = race kv l s k limit gs events in
        (c' : ℕ) × (c' ≤ c + length events * l.lease) × Racing out.0.0 out.0.1 out.1 c'
  unfolding race
  race-Racing l s gs c [] w fit small h = (c, omega arith, h)
  race-Racing l s gs c ((i, r) ∷ rest) w fit small h = elim (Option-cases (get_elem? gs i)) [
    | inl e ↦
        rw (e, race)
          (let (c', le, h') = race-Racing l s gs c rest w.1 (omega (arith, fit)) small h in
            (c', omega (arith, le), h'))
    | inr (g, e) ↦
        let t = advance kv l s r k limit g in
        let (c1, le1, same, h1) = move-Racing l s gs c i r g w.0 (omega (arith, fit)) small e h in
        let products = ap (λ x. length rest * x) same in
        let (c', le, h') =
          race-Racing t.limiter t.store (replace gs i t.result) c1 rest w.1
            (omega (arith, fit, le1, products)) small h1 in
        rw (e, race) (c', omega (arith, le, le1, products), h')
  ]

  new-Racing :
      (n : ℕ) (l : Limiter) (s : kv.Store)
      → lookup k l.buckets ≡ none
      → laws.Stands s until k (pos 0)
      → Racing l s (arriving n) 0
  new-Racing n l s new st = record {
    fresh = rw new (ground arith);
    stands = st;
    one_refill = rw new (nothing refilling refl n);
    shared = rw new (omega (arith, nothing spent refl n, nothing carried refl n));
  }

  -- However the moves of any number of goroutines interleave, while the store keeps the counter laws
  -- and all readings fall in one window, which the worker starts with no bucket and no counter: the
  -- requests that have a permit are at most the limit; at most one refill is in progress; and what was
  -- leased and is inside the limit is spent, carried by the goroutine that refills, or in the bucket.
  -- The limit is a uint32, and the counter stays below 2 ^ 63.
  pub race-arriving :
      (n : ℕ) (l : Limiter) (s : kv.Store) (events : List (ℕ × Readings))
      → All (λ (q : ℕ × Readings). Within until q.1) events
      → length events * l.lease < 2 ^ 63
      → limit < 2 ^ 32
      → lookup k l.buckets ≡ none
      → laws.Stands s until k (pos 0)
      → let out = race kv l s k limit (arriving n) events in
        (total spent out.1 ≤ limit)
        × (total refilling out.1 ≤ 1)
        × ((c : ℕ) × Racing out.0.0 out.0.1 out.1 c)
  race-arriving n l s events w fit small new st =
      let (c, le, h) =
        race-Racing l s (arriving n) 0 events w (omega (arith, fit)) small
          (new-Racing n l s new st) in
      let one = busy-le (bucket (race kv l s k limit (arriving n) events).0.0 k).refreshing in
      (omega (arith, h.shared), omega (arith, h.one_refill, one), (c, h))
