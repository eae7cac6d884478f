-- ===== src/Limits/Limiter.antt =====
-- dataplane/internal/limits/limiter.go. A limiter's buckets and slots are its state; the store is
-- shared between workers and passed along. `Readings` are the clock's values at the places where a
-- call reads it, in nanoseconds since the zero time, and the store's own clock.
pub mod Slots
pub mod Window
pub mod Fleet
pub mod Racing
mod Tests
use Prim.Native.String.{◌++◌}
use model_gateway.Common.{
  ℕ, suc, ◌+◌, ◌-◌, ◌*◌, ◌/◌, ◌%◌, Bool, true, false, not, ◌||◌, String, String_comparable, Option,
  none, some, ltb, leb, eqb, if◌then◌else◌, [], Map, lookup, insert,
}
use model_gateway.Common.Int.{ℤ, pos, sub_ℕ, ltb_ℤ}
use model_gateway.Common.Decimal.{format_int, parse_int}
use model_gateway.Core.Errors.{Code, unset, rate_limited, Result, ok, err}
use model_gateway.Core.Identity.{Principal, unlimited}
use model_gateway.Core.Ports.{KvStore}
use model_gateway.Limits.Bucket.{Bucket, Taken, empty_bucket, take, begin_refill, grant}
use model_gateway.Limits.Lease.{granted}

abbrev pub second : ℕ
second = 1_000_000_000

-- One minute.
abbrev pub window : ℕ
window = 60 * second

abbrev pub default_lease_size : ℕ
default_lease_size = 25

pub record Decision : Type 0 where
  pub allowed : Bool
  pub reason : Code
  pub retry_after : ℕ

abbrev pub allowed_decision : Decision
allowed_decision = record { allowed = true; reason = unset; retry_after = 0 }

pub record Limiter : Type 0 where
  pub lease : ℕ
  pub buckets : Map String Bucket
  pub concurrent : Map String ℕ
  pub failed_open : ℕ

-- New with the options that set a number: WithLeaseSize ignores one that is not positive.
unfoldable pub new_limiter : ℕ → Limiter
new_limiter n = record {
  lease = if ltb 0 n then n else default_lease_size;
  buckets = [];
  concurrent = [];
  failed_open = 0;
}

pub record Readings : Type 0 where
  pub keying : ℕ
  pub taking : ℕ
  pub storing : ℕ
  pub granting : ℕ
  pub retaking : ℕ
  pub token_keying : ℕ
  pub fetching : ℕ
  pub ending : ℕ
  pub rolling : ℕ

-- Time.Truncate(Window)
abbrev pub window_start : ℕ → ℕ
window_start now = now - now % window

-- windowEnd
abbrev pub window_end : ℕ → ℕ
window_end now = window_start now + window

-- Time.Unix: the seconds since 1970, which the zero time precedes by so many.
abbrev pub unix_epoch : ℕ
unix_epoch = 62_135_596_800

unfoldable pub key : Principal → String → ℕ → String
key p dimension now =
    "rl:" ++ (p.tenant ++ (":" ++ (p.key_id ++ (":" ++ (dimension ++ (":" ++ number))))))
  where
    number : String
    number = format_int (sub_ℕ (window_start now / second) unix_epoch)

-- untilWindowRolls
unfoldable pub until_window_rolls : Readings → ℕ
until_window_rolls r =
    let remaining = window_end r.ending - r.rolling in
    if ltb remaining second then second else remaining

-- The bucket of a key, a new one if there is none. The code also stores the new one, as every
-- caller here does with the bucket's next state.
abbrev pub bucket_or_new : Option Bucket → Bucket
bucket_or_new none = empty_bucket
bucket_or_new (some b) = b

abbrev pub bucket : Limiter → String → Bucket
bucket l k = bucket_or_new (lookup k l.buckets)

abbrev pub put_bucket : Limiter → String → Bucket → Limiter
put_bucket l k b = record l { buckets = insert k b l.buckets }

abbrev pub slots_or_zero : Option ℕ → ℕ
slots_or_zero none = 0
slots_or_zero (some n) = n

-- The requests of a principal that hold a slot on this worker.
abbrev pub slots : Limiter → String → ℕ
slots l k = slots_or_zero (lookup k l.concurrent)

-- acquireSlot: the counter is made if it is absent, raised, and lowered again if it is too high.
unfoldable pub acquire_slot : Limiter → Principal → Limiter × Bool
acquire_slot l p =
    let n = suc (slots l p.key_id) in
    if ltb p.limits.max_concurrent n
    then (record l { concurrent = insert p.key_id (n - 1) l.concurrent }, false)
    else (record l { concurrent = insert p.key_id n l.concurrent }, true)

release_count : Option ℕ → Limiter → String → Limiter
release_count none l k = l
release_count (some n) l k = record l { concurrent = insert k (n - 1) l.concurrent }

-- releaseSlot: a count that would fall below 0 is set to 0.
unfoldable pub release_slot : Limiter → Principal → Limiter
unfolding release_count
release_slot l p = release_count (lookup p.key_id l.concurrent) l p.key_id

-- Limiter.Release
unfoldable pub release : Limiter → Principal → Limiter
release l p = if ltb 0 p.limits.max_concurrent then release_slot l p else l

module _ (kv : KvStore) where
  -- The limiter, the store and what a call returned.
  pub record Reply (A : Type 0) : Type 0 where
    pub limiter : Limiter
    pub store : kv.Store
    pub result : A

  leased : Limiter → ℕ → kv.Store × Result ℤ → Reply ℕ
  leased l limit (s, err e) = record {
    limiter = record l { failed_open = suc l.failed_open };
    store = s;
    result = l.lease;
  }
  leased l limit (s, ok used) = record {
    limiter = l;
    store = s;
    result = granted used limit l.lease;
  }

  -- leaseFrom
  unfoldable pub lease_from : Limiter → kv.Store → ℕ → String → ℕ → Reply ℕ
  unfolding leased
  lease_from l s now k limit = leased l limit (kv.incr s now k (pos l.lease) (window * 2))

  -- The part of take after the refill was won.
  refill : Limiter → kv.Store → Readings → String → ℕ → Bool → Reply Bool
  refill l s r k limit was_taken =
      let from = lease_from l s r.storing k limit in
      let granted_bucket = grant (bucket from.limiter k) from.result (window_end r.granting) in
      if was_taken
      then record {
        limiter = put_bucket from.limiter k granted_bucket;
        store = from.store;
        result = true;
      }
      else record {
        limiter = put_bucket from.limiter k (take granted_bucket r.retaking).bucket;
        store = from.store;
        result = (take granted_bucket r.retaking).taken;
      }

  -- Limiter.take, by a goroutine that no other comes between; Racing has its critical sections apart.
  unfoldable pub take_permit : Limiter → kv.Store → Readings → String → ℕ → Reply Bool
  unfolding refill
  take_permit l s r k limit =
      let first = take (bucket l k) r.taking in
      let l' = put_bucket l k first.bucket in
      let (b, won) = begin_refill first.bucket in
      if not first.should_refill
      then record { limiter = l'; store = s; result = first.taken }
      else if not won
      then record { limiter = l'; store = s; result = first.taken }
      else refill (put_bucket l' k b) s r k limit first.taken

  refused : Limiter → kv.Store → ℕ → Reply Decision
  refused l s retry_after = record {
    limiter = l;
    store = s;
    result = record { allowed = false; reason = rate_limited; retry_after = retry_after };
  }

  admitted : Limiter → kv.Store → Reply Decision
  admitted l s = record { limiter = l; store = s; result = allowed_decision }

  reached : Option ℤ → ℕ → Bool
  reached none limit = false
  reached (some used) limit = not (ltb_ℤ used (pos limit))

  spent_by : Limiter → ℕ → Result (Option String) → Limiter × Bool
  unfolding reached
  spent_by l limit (err e) = (record l { failed_open = suc l.failed_open }, false)
  spent_by l limit (ok none) = (l, false)
  spent_by l limit (ok (some raw)) = (l, reached (parse_int raw) limit)

  -- windowSpent
  unfoldable pub window_spent : Limiter → kv.Store → ℕ → String → ℕ → Limiter × Bool
  unfolding spent_by
  window_spent l s now k limit = spent_by l limit (kv.get s now k)

  -- The token check of Admit.
  unfoldable pub check_tokens : Limiter → kv.Store → Principal → Readings → Reply Decision
  unfolding refused admitted
  check_tokens l s p r =
      if ltb 0 p.limits.tokens_per_minute
      then (let (l', full) =
            window_spent l s r.fetching (key p "tpm" r.token_keying) p.limits.tokens_per_minute in
          if full then refused (release_slot l' p) s (until_window_rolls r) else admitted l' s)
      else admitted l s

  -- The request check of Admit, and what follows it.
  unfoldable pub check_requests : Limiter → kv.Store → Principal → Readings → Reply Decision
  unfolding refused
  check_requests l s p r =
      if ltb 0 p.limits.requests_per_minute
      then (let t = take_permit l s r (key p "rpm" r.keying) p.limits.requests_per_minute in
          if t.result
          then check_tokens t.limiter t.store p r
          else refused (release_slot t.limiter p) t.store (until_window_rolls r))
      else check_tokens l s p r

  -- Limiter.Admit
  unfoldable pub admit : Limiter → kv.Store → Principal → Readings → Reply Decision
  unfolding refused admitted
  admit l s p r =
      if unlimited p.limits
      then admitted l s
      else if ltb 0 p.limits.max_concurrent
      then (let (l', got) = acquire_slot l p in
          if got then check_requests l' s p r else refused l' s second)
      else check_requests l s p r

  -- Limiter.RecordTokens; an error of the store is only logged.
  unfoldable pub record_tokens : kv.Store → Principal → ℤ → ℕ → ℕ → kv.Store
  record_tokens s p tokens keying storing =
      if eqb p.limits.tokens_per_minute 0 || not (ltb_ℤ (pos 0) tokens)
      then s
      else (kv.incr s storing (key p "tpm" keying) tokens (window * 2)).0
