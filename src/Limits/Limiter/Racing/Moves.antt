-- ===== src/Limits/Limiter/Racing/Moves.antt =====
-- dataplane/internal/limits/limiter.go: what a move of Limiter.take does to the permits.
use model_gateway.Common.{
  ℕ, zero, suc, ◌+◌, ◌≤◌, ◌<◌, ◌^◌, ◌≡◌, refl, inl, inr, Bool, true, false, String,
  String_comparable, List, [], ◌∷◌, some, arith, min, get_elem?, Bool-cases, lookup-insert_self,
}
use model_gateway.Common.Int.{pos}
use model_gateway.Core.Ports.{KvStore, CounterLaws}
use model_gateway.Limits.Bucket.{Bucket, take, begin_refill, grant, busy}
use model_gateway.Limits.Lease.{granted_share}
use model_gateway.Limits.Limiter.{Limiter, Readings, Reply, bucket, put_bucket, window_end}
use model_gateway.Limits.Limiter.Fleet.{replace}
use model_gateway.Limits.Limiter.Window.{Within, lease_from-Stands}
use model_gateway.Limits.Limiter.Racing.{
  Stage, arrives, begins, leases, grants, retakes, done, advance,
}

-- The permits that a goroutine has spent, and those that it carries from the store to the bucket; and
-- whether it has a refill in progress.
abbrev pub spent : Stage → ℕ
spent (begins taken) = busy taken
spent (leases taken) = busy taken
spent (grants taken permits) = busy taken
spent (done taken) = busy taken
spent _ = 0

abbrev pub carried : Stage → ℕ
carried (grants taken permits) = permits
carried _ = 0

abbrev pub refilling : Stage → ℕ
refilling (leases taken) = 1
refilling (grants taken permits) = 1
refilling _ = 0

abbrev pub total : (Stage → ℕ) → List Stage → ℕ
total f [] = 0
total f (g ∷ gs) = f g + total f gs

pub total-replace :
    (f : Stage → ℕ) (gs : List Stage) (i : ℕ) (g g' : Stage)
    → get_elem? gs i ≡ some g
    → total f (replace gs i g') + f g ≡ total f gs + f g'
total-replace f [] i g g' e = cc
total-replace f (x ∷ gs) zero g g' e = let same : x ≡ g = cc in rw same (omega arith)
total-replace f (x ∷ gs) (suc i) g g' e = omega (arith, total-replace f gs i g g' e)

pub total-le :
    (f : Stage → ℕ) (gs : List Stage) (i : ℕ) (g : Stage)
    → get_elem? gs i ≡ some g
    → f g ≤ total f gs
total-le f [] i g e = cc
total-le f (x ∷ gs) zero g e = let same : x ≡ g = cc in rw same (omega arith)
total-le f (x ∷ gs) (suc i) g e = omega (arith, total-le f gs i g e)

module _ (kv : KvStore) (laws : CounterLaws kv) (until : ℕ) (k : String) (limit : ℕ) where
  -- Permits in the bucket are those of the window.
  abbrev pub Fresh : Limiter → Type 0
  Fresh l = 0 < (bucket l k).remaining → (bucket l k).expires_at ≡ until

  -- What a move does to the permits, where the store's counter stands at `c`.
  pub record Moved (l : Limiter) (c : ℕ) (g : Stage) (t : Reply kv Stage) : Type 0 where
    pub counter : ℕ
    pub counter_grows : counter ≤ c + l.lease
    pub fresh : Fresh t.limiter
    pub stands : laws.Stands t.store until k (pos counter)
    pub same_lease : t.limiter.lease ≡ l.lease
    pub one_refill :
        refilling t.result + busy (bucket l k).refreshing
        ≡ refilling g + busy (bucket t.limiter k).refreshing
    pub shared :
        spent t.result + carried t.result + (bucket t.limiter k).remaining + min c limit
        ≡ spent g + carried g + (bucket l k).remaining + min counter limit

  put_lem : (l : Limiter) (b : Bucket) → bucket (put_bucket l k b) k ≡ b
  put_lem l b = simp lookup-insert_self

  take_lem :
      (b : Bucket) (now : ℕ)
      → now ≤ until
      → (0 < b.remaining → b.expires_at ≡ until)
      → ((0 < (take b now).bucket.remaining) → (take b now).bucket.expires_at ≡ until)
        × ((take b now).bucket.refreshing ≡ b.refreshing)
        × (busy (take b now).taken + (take b now).bucket.remaining ≡ b.remaining)
  unfolding take
  take_lem b now w h = (ground (arith, h), ground (arith, h), ground (arith, h))

  advance-arrives :
      (l : Limiter) (s : kv.Store) (r : Readings) (c : ℕ)
      → Within until r
      → Fresh l
      → laws.Stands s until k (pos c)
      → Moved l c arrives (advance kv l s r k limit arrives)
  unfolding advance
  advance-arrives l s r c w f st =
      let t = take (bucket l k) r.taking in
      let (fresh, same, one) = take_lem (bucket l k) r.taking w.taking f in
      elim (Bool-cases t.should_refill) [
        | inl q ↦ rw q (record {
          counter = c;
          counter_grows = omega arith;
          fresh = rw (put_lem l t.bucket) fresh;
          stands = st;
          same_lease = refl;
          one_refill = rw (put_lem l t.bucket, same) refl;
          shared = rw (put_lem l t.bucket) (omega (arith, one));
        })
        | inr q ↦ rw q (record {
          counter = c;
          counter_grows = omega arith;
          fresh = rw (put_lem l t.bucket) fresh;
          stands = st;
          same_lease = refl;
          one_refill = rw (put_lem l t.bucket, same) refl;
          shared = rw (put_lem l t.bucket) (omega (arith, one));
        })
      ]

  advance-retakes :
      (l : Limiter) (s : kv.Store) (r : Readings) (c : ℕ)
      → Within until r
      → Fresh l
      → laws.Stands s until k (pos c)
      → Moved l c retakes (advance kv l s r k limit retakes)
  unfolding advance
  advance-retakes l s r c w f st =
      let t = take (bucket l k) r.retaking in
      let (fresh, same, one) = take_lem (bucket l k) r.retaking w.retaking f in
      record {
        counter = c;
        counter_grows = omega arith;
        fresh = rw (put_lem l t.bucket) fresh;
        stands = st;
        same_lease = refl;
        one_refill = rw (put_lem l t.bucket, same) refl;
        shared = rw (put_lem l t.bucket) (omega (arith, one));
      }

  advance-begins :
      (l : Limiter) (s : kv.Store) (r : Readings) (c : ℕ) (taken : Bool)
      → Fresh l
      → laws.Stands s until k (pos c)
      → Moved l c (begins taken) (advance kv l s r k limit (begins taken))
  unfolding advance begin_refill
  advance-begins l s r c taken f st =
      let b : Bucket = record (bucket l k) { refreshing = true } in
      elim (Bool-cases (bucket l k).refreshing) [
        | inl q ↦ simp q (record {
          counter = c;
          counter_grows = omega arith;
          fresh = f;
          stands = st;
          same_lease = refl;
          one_refill = refl;
          shared = omega arith;
        })
        | inr q ↦ simp q (record {
          counter = c;
          counter_grows = omega arith;
          fresh = rw (put_lem l b) f;
          stands = st;
          same_lease = refl;
          one_refill = rw (put_lem l b, q) refl;
          shared = rw (put_lem l b) (omega arith);
        })
      ]

  advance-leases :
      (l : Limiter) (s : kv.Store) (r : Readings) (c : ℕ) (taken : Bool)
      → Within until r
      → c + l.lease < 2 ^ 63
      → limit < 2 ^ 32
      → Fresh l
      → laws.Stands s until k (pos c)
      → Moved l c (leases taken) (advance kv l s r k limit (leases taken))
  unfolding advance
  advance-leases l s r c taken w fit small f st =
      let (from, st') = lease_from-Stands kv laws until k limit l s r c w fit st in
      let share = granted_share c limit l.lease fit small in
      rw from (record {
        counter = c + l.lease;
        counter_grows = omega arith;
        fresh = f;
        stands = st';
        same_lease = refl;
        one_refill = refl;
        shared = omega (arith, share);
      })

  grant_lem :
      (b : Bucket) (permits at : ℕ)
      → at ≡ until
      → (0 < b.remaining → b.expires_at ≡ until)
      → ((0 < (grant b permits at).remaining) → (grant b permits at).expires_at ≡ until)
        × ((grant b permits at).refreshing ≡ false)
        × ((grant b permits at).remaining ≡ b.remaining + permits)
  unfolding grant
  grant_lem b permits at e h = (ground (arith, h), ground arith, ground arith)

  advance-grants :
      (l : Limiter) (s : kv.Store) (r : Readings) (c : ℕ) (taken : Bool) (permits : ℕ)
      → Within until r
      → 1 ≤ busy (bucket l k).refreshing
      → Fresh l
      → laws.Stands s until k (pos c)
      → Moved l c (grants taken permits) (advance kv l s r k limit (grants taken permits))
  unfolding advance
  advance-grants l s r c taken permits w on f st =
      let b = grant (bucket l k) permits (window_end r.granting) in
      let (fresh, off, more) =
        grant_lem (bucket l k) permits (window_end r.granting) w.granting f in
      let was : busy (bucket l k).refreshing ≡ 1 = ground (arith, on) in
      elim (Bool-cases taken) [
        | inl q ↦ rw q (record {
          counter = c;
          counter_grows = omega arith;
          fresh = rw (put_lem l b) fresh;
          stands = st;
          same_lease = refl;
          one_refill = rw (put_lem l b, off) (omega (arith, was));
          shared = rw (put_lem l b) (omega (arith, more));
        })
        | inr q ↦ rw q (record {
          counter = c;
          counter_grows = omega arith;
          fresh = rw (put_lem l b) fresh;
          stands = st;
          same_lease = refl;
          one_refill = rw (put_lem l b, off) (omega (arith, was));
          shared = rw (put_lem l b) (omega (arith, more));
        })
      ]

  advance-done :
      (l : Limiter) (s : kv.Store) (r : Readings) (c : ℕ) (taken : Bool)
      → Fresh l
      → laws.Stands s until k (pos c)
      → Moved l c (done taken) (advance kv l s r k limit (done taken))
  unfolding advance
  advance-done l s r c taken f st = record {
    counter = c;
    counter_grows = omega arith;
    fresh = f;
    stands = st;
    same_lease = refl;
    one_refill = refl;
    shared = omega arith;
  }

  pub advance-Moved :
      (l : Limiter) (s : kv.Store) (r : Readings) (c : ℕ) (g : Stage)
      → Within until r
      → c + l.lease < 2 ^ 63
      → limit < 2 ^ 32
      → refilling g ≤ busy (bucket l k).refreshing
      → Fresh l
      → laws.Stands s until k (pos c)
      → Moved l c g (advance kv l s r k limit g)
  advance-Moved l s r c arrives w fit small on f st = advance-arrives l s r c w f st
  advance-Moved l s r c retakes w fit small on f st = advance-retakes l s r c w f st
  advance-Moved l s r c (begins taken) w fit small on f st = advance-begins l s r c taken f st
  advance-Moved l s r c (leases taken) w fit small on f st =
      advance-leases l s r c taken w fit small f st
  advance-Moved l s r c (grants taken permits) w fit small on f st =
      advance-grants l s r c taken permits w on f st
  advance-Moved l s r c (done taken) w fit small on f st = advance-done l s r c taken f st
