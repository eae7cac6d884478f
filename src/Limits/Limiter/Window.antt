-- ===== src/Limits/Limiter/Window.antt =====
-- How many requests one window admits.
use model_gateway.Common.{
  ℕ, zero, suc, ◌+◌, ◌-◌, ◌*◌, ◌≤◌, ◌<◌, ◌^◌, ◌≡◌, refl, Bool, true, false, String,
  String_comparable, List, [], ◌∷◌, none, arith, min, ltb, leb, if◌then◌else◌, lookup,
  lookup-insert_self, length, All,
}
use model_gateway.Common.Int.{ℤ, pos, ◌+ℤ◌, Fits64}
use model_gateway.Core.Errors.{Result, ok, err}
use model_gateway.Core.Ports.{KvStore, CounterLaws}
use model_gateway.Limits.Bucket.{Bucket, take, begin_refill, grant}
use model_gateway.Limits.Lease.{granted, granted_share}
use model_gateway.Limits.Limiter.{
  Limiter, Readings, Reply, bucket, put_bucket, leased, lease_from, refill, take_permit, window,
  window_end,
}

-- The permits of a bucket that can still be spent in the window that ends at `until`.
abbrev pub held : Bucket → ℕ
held b = b.remaining

-- A bucket between two requests of the window that ends at `until`.
pub record Ready (until : ℕ) (b : Bucket) : Type 0 where
  pub settled : b.refreshing ≡ false
  pub fresh : 0 < b.remaining → b.expires_at ≡ until

-- The readings of a call that runs within that window.
pub record Within (until : ℕ) (r : Readings) : Type 0 where
  pub taking : r.taking ≤ until
  pub storing : r.storing ≤ until
  pub store_close : until ≤ r.storing + window * 2
  pub granting : window_end r.granting ≡ until
  pub retaking : r.retaking ≤ until

module _ (kv : KvStore) (laws : CounterLaws kv) (until : ℕ) (k : String) (limit : ℕ) where
  -- The store's counter stands at `c`; `a` requests were admitted so far, and other workers hold
  -- `o` permits of the window.
  pub record Spends (l : Limiter) (s : kv.Store) (c a o : ℕ) : Type 0 where
    pub ready : Ready until (bucket l k)
    pub stands : laws.Stands s until k (pos c)
    pub shared : a + held (bucket l k) + o ≡ min c limit

  sum_pos : (m n : ℕ) → pos m +ℤ pos n ≡ pos (m + n)
  unfolding ◌+ℤ◌
  sum_pos m n = ground arith

  leased_ok :
      (l : Limiter) (answer : kv.Store × Result ℤ) (used : ℤ)
      → answer.1 ≡ ok used
      → leased kv l limit answer
        ≡ record { limiter = l; store = answer.0; result = granted used limit l.lease }
  unfolding leased
  leased_ok l (s, ok u) used e = ground arith
  leased_ok l (s, err x) used e = cc

  -- Within the window a lease is taken exactly, and adds what the limit still allows.
  pub lease_from-Stands :
      (l : Limiter) (s : kv.Store) (r : Readings) (c : ℕ)
      → Within until r
      → c + l.lease < 2 ^ 63
      → laws.Stands s until k (pos c)
      → let answer = kv.incr s r.storing k (pos l.lease) (window * 2) in
        (lease_from kv l s r.storing k limit ≡ record {
          limiter = l;
          store = answer.0;
          result = granted (pos (c + l.lease)) limit l.lease;
        })
        × laws.Stands answer.0 until k (pos (c + l.lease))
  unfolding lease_from
  lease_from-Stands l s r c w fit st = (
    leased_ok l _ (pos (c + l.lease)) (rw (← sum_pos c l.lease) result),
    rw (← sum_pos c l.lease) stands,
  )
    where
      fits : Fits64 (pos c +ℤ pos l.lease)
      fits = rw (sum_pos c l.lease) (omega arith)

      result : (kv.incr s r.storing k (pos l.lease) (window * 2)).1 ≡ ok (pos c +ℤ pos l.lease)
      result =
          laws.incr_result s r.storing until k (pos c) (pos l.lease) (window * 2) w.storing
            w.store_close st fits

      stands :
          laws.Stands
            (kv.incr s r.storing k (pos l.lease) (window * 2)).0
            until
            k
            (pos c +ℤ pos l.lease)
      stands =
          laws.incr-Stands s r.storing until k (pos c) (pos l.lease) (window * 2) w.storing
            w.store_close st fits

  bucket-put : (l : Limiter) (b : Bucket) → bucket (put_bucket l k b) k ≡ b
  bucket-put l b = simp lookup-insert_self

  -- The bucket after a grant of `g` permits to an empty bucket.
  abbrev refilled : Bucket → ℕ → ℕ → Bucket
  refilled b g now = grant b g (window_end now)

  refilled_lem :
      (b : Bucket) (g now : ℕ)
      → b.remaining ≡ 0
      → window_end now ≡ until
      → Ready until (refilled b g now) × ((refilled b g now).remaining ≡ g)
  unfolding grant
  refilled_lem b g now e w = (ground arith, ground arith)

  retaken_lem :
      (b : Bucket) (now : ℕ)
      → Ready until b
      → now ≤ until
      → ((take b now).taken ≡ ltb 0 b.remaining)
        × Ready until (take b now).bucket
        × ((take b now).bucket.remaining ≡ b.remaining - 1)
  unfolding take
  retaken_lem b now h w = (ground arith, ground arith, ground arith)

  refill_taken :
      (l : Limiter) (s : kv.Store) (r : Readings) (c a o : ℕ)
      → Within until r
      → c + l.lease < 2 ^ 63
      → limit < 2 ^ 32
      → (bucket l k).remaining ≡ 0
      → laws.Stands s until k (pos c)
      → a + o ≡ min c limit
      → let t = refill kv l s r k limit true in
        Spends t.limiter t.store (c + l.lease) a o × (t.result ≡ true) × (t.limiter.lease ≡ l.lease)
  unfolding refill
  refill_taken l s r c a o w fit small empty st sh =
      let (from, st') = lease_from-Stands l s r c w fit st in
      let g = granted (pos (c + l.lease)) limit l.lease in
      let (ready, left) = refilled_lem (bucket l k) g r.granting empty w.granting in
      let share = granted_share c limit l.lease fit small in
      rw from (
        record {
          ready = rw bucket-put ready;
          stands = st';
          shared = rw bucket-put (omega (arith, left, share));
        },
        refl,
        refl,
      )

  refill_empty :
      (l : Limiter) (s : kv.Store) (r : Readings) (c a o : ℕ)
      → Within until r
      → 0 < l.lease
      → c + l.lease < 2 ^ 63
      → limit < 2 ^ 32
      → (bucket l k).remaining ≡ 0
      → laws.Stands s until k (pos c)
      → a + o ≡ min c limit
      → let t = refill kv l s r k limit false in
        Spends t.limiter t.store (c + l.lease) (if t.result then suc a else a) o
        × (t.result ≡ ltb (a + o) limit)
        × (t.limiter.lease ≡ l.lease)
  unfolding refill
  refill_empty l s r c a o w pl fit small empty st sh =
      let (from, st') = lease_from-Stands l s r c w fit st in
      let g = granted (pos (c + l.lease)) limit l.lease in
      let (ready, left) = refilled_lem (bucket l k) g r.granting empty w.granting in
      let share = granted_share c limit l.lease fit small in
      let (hit, ready', left') =
        retaken_lem (refilled (bucket l k) g r.granting) r.retaking ready w.retaking in
      rw from (
        record {
          ready = rw bucket-put ready';
          stands = st';
          shared = rw bucket-put (ground (arith, left, share, hit, left'));
        },
        ground (arith, left, share, hit),
        refl,
      )

  -- What one request does to a worker in the window.
  pub record Takes (l : Limiter) (c a o : ℕ) (t : Reply kv Bool) : Type 0 where
    pub counter : ℕ
    pub counter_grows : counter ≤ c + l.lease
    pub spends : Spends t.limiter t.store counter (if t.result then suc a else a) o
    pub admitted : t.result ≡ ltb (a + o) limit
    pub same_lease : t.limiter.lease ≡ l.lease

  first_lem :
      (b : Bucket) (now : ℕ)
      → Ready until b
      → now ≤ until
      → ((take b now).taken ≡ ltb 0 b.remaining)
        × ((take b now).should_refill ≡ leb b.remaining 1)
        × ((take b now).bucket ≡ record b { remaining = b.remaining - 1 })
  unfolding take
  first_lem b now h w = (ground arith, ground arith, ground arith)

  begin_lem :
      (b : Bucket) → b.refreshing ≡ false → begin_refill b ≡ (record b { refreshing = true }, true)
  unfolding begin_refill
  begin_lem b e = ground arith

  -- The bucket of a request's key with one permit spent, and then with a refill begun.
  abbrev spent : Limiter → Bucket
  spent l = record (bucket l k) { remaining = (bucket l k).remaining - 1 }

  abbrev refilling : Limiter → Limiter
  refilling l = put_bucket (put_bucket l k (spent l)) k (record (spent l) { refreshing = true })

  take_permit_many :
      (l : Limiter) (s : kv.Store) (r : Readings)
      → Ready until (bucket l k)
      → r.taking ≤ until
      → 1 < (bucket l k).remaining
      → take_permit kv l s r k limit
        ≡ record { limiter = put_bucket l k (spent l); store = s; result = true }
  unfolding take_permit
  take_permit_many l s r ready w many = ground (arith, first_lem (bucket l k) r.taking ready w)

  take_permit_last :
      (l : Limiter) (s : kv.Store) (r : Readings)
      → Ready until (bucket l k)
      → r.taking ≤ until
      → (bucket l k).remaining ≡ 1
      → take_permit kv l s r k limit ≡ refill kv (refilling l) s r k limit true
  unfolding take_permit
  take_permit_last l s r ready w e =
      ground (arith, first_lem (bucket l k) r.taking ready w, begin_lem (spent l) ready.settled)

  take_permit_none :
      (l : Limiter) (s : kv.Store) (r : Readings)
      → Ready until (bucket l k)
      → r.taking ≤ until
      → (bucket l k).remaining ≡ 0
      → take_permit kv l s r k limit ≡ refill kv (refilling l) s r k limit false
  unfolding take_permit
  take_permit_none l s r ready w e =
      ground (arith, first_lem (bucket l k) r.taking ready w, begin_lem (spent l) ready.settled)

  pub take_permit-Takes :
      (l : Limiter) (s : kv.Store) (r : Readings) (c a o : ℕ)
      → Within until r
      → 0 < l.lease
      → c + l.lease < 2 ^ 63
      → limit < 2 ^ 32
      → Spends l s c a o
      → Takes l c a o (take_permit kv l s r k limit)
  take_permit-Takes l s r c a o w pl fit small sp = cases (bucket l k).remaining refl
    where
      cases : (n : ℕ) → (bucket l k).remaining ≡ n → Takes l c a o (take_permit kv l s r k limit)
      cases zero e = rw (take_permit_none l s r sp.ready w.taking e) (
          let (spends, hit, same) =
            refill_empty (refilling l) s r c a o w pl fit small (rw bucket-put (omega arith))
              sp.stands (omega (arith, sp.shared)) in
          record {
            counter = c + l.lease;
            counter_grows = omega arith;
            spends = spends;
            admitted = hit;
            same_lease = same;
          })
      cases (suc zero) e = rw (take_permit_last l s r sp.ready w.taking e) (
          let (spends, hit, same) =
            refill_taken (refilling l) s r c (suc a) o w fit small (rw bucket-put (omega arith))
              sp.stands (omega (arith, sp.shared)) in
          record {
            counter = c + l.lease;
            counter_grows = omega arith;
            spends = ground (arith, hit, spends);
            admitted = ground (arith, hit, sp.shared);
            same_lease = same;
          })
      cases (suc (suc n)) e = rw (take_permit_many l s r sp.ready w.taking (omega arith)) (record {
        counter = c;
        counter_grows = omega arith;
        spends = record {
          ready = rw bucket-put (ground arith);
          stands = sp.stands;
          shared = rw bucket-put (omega (arith, sp.shared));
        };
        admitted = ground (arith, sp.shared);
        same_lease = refl;
      })

  -- The requests with this key that arrive at one worker, one after another.
  unfoldable pub admitted_by : Limiter → kv.Store → List Readings → ℕ
  admitted_by l s [] = 0
  admitted_by l s (r ∷ rs) =
      let t = take_permit kv l s r k limit in
      let n = admitted_by t.limiter t.store rs in if t.result then suc n else n

  admitted_by_from :
      (l : Limiter) (s : kv.Store) (c a : ℕ) (rs : List Readings)
      → All (Within until) rs
      → 0 < l.lease
      → c + length rs * l.lease < 2 ^ 63
      → limit < 2 ^ 32
      → Spends l s c a 0
      → a + admitted_by l s rs ≡ min (a + length rs) limit
  unfolding admitted_by
  admitted_by_from l s c a [] w pl fit small sp = omega (arith, sp.shared)
  admitted_by_from l s c a (r ∷ rs) w pl fit small sp =
      let t = take_permit kv l s r k limit in
      let d = take_permit-Takes l s r c a 0 w.0 pl (omega arith) small sp in
      let rest =
        admitted_by_from t.limiter t.store d.counter (if t.result then suc a else a) rs w.1
          (omega (arith, d.same_lease)) (rw d.same_lease (omega (arith, d.counter_grows))) small
          d.spends in
      ground (arith, rest, d.admitted, sp.shared)

  -- Where one request after another takes its permit, so that none arrives during another's refill:
  -- while the store keeps the counter laws and all readings fall in one window, a worker that starts
  -- the window with no bucket and no counter admits the first requests up to the limit and refuses all
  -- others, whatever the positive size of its leases. The limit is a uint32, and the counter stays
  -- below 2 ^ 63.
  pub admitted_by_exact :
      (l : Limiter) (s : kv.Store) (rs : List Readings)
      → All (Within until) rs
      → 0 < l.lease
      → length rs * l.lease < 2 ^ 63
      → limit < 2 ^ 32
      → lookup k l.buckets ≡ none
      → laws.Stands s until k (pos 0)
      → admitted_by l s rs ≡ min (length rs) limit
  admitted_by_exact l s rs w pl fit small new st = omega (
    arith,
    admitted_by_from l s 0 0 rs w pl (omega arith) small
        (record { ready = rw new (ground arith); stands = st; shared = rw new (omega arith) }),
  )
