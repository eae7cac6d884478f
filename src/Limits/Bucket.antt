-- ===== src/Limits/Bucket.antt =====
-- dataplane/internal/limits/bucket.go: a local allowance of permits. Each method holds the mutex and
-- is one step. A count of permits is never negative, and instants are nanoseconds.
use model_gateway.Common.{
  ℕ, suc, ◌+◌, ◌-◌, ◌≤◌, Bool, true, false, not, ◌&&◌, List, [], ◌∷◌, arith, ltb, eqb,
  if◌then◌else◌,
}

pub record Bucket : Type 0 where
  pub remaining : ℕ
  pub expires_at : ℕ
  pub refreshing : Bool

-- &Bucket{}
abbrev pub empty_bucket : Bucket
empty_bucket = record { remaining = 0; expires_at = 0; refreshing = false }

-- The permits left once those of a window that has passed are dropped.
abbrev pub current : Bucket → ℕ → ℕ
current b now = if ltb b.expires_at now then 0 else b.remaining

pub record Taken : Type 0 where
  pub bucket : Bucket
  pub taken : Bool
  pub should_refill : Bool

-- Bucket.Take
unfoldable pub take : Bucket → ℕ → Taken
take b now =
    let left = current b now in
    if ltb 0 left
    then record {
      bucket = record b { remaining = left - 1 };
      taken = true;
      should_refill = not b.refreshing && eqb (left - 1) 0;
    }
    else record {
      bucket = record b { remaining = left };
      taken = false;
      should_refill = not b.refreshing;
    }

-- Bucket.BeginRefill
unfoldable pub begin_refill : Bucket → Bucket × Bool
begin_refill b = if b.refreshing then (b, false) else (record b { refreshing = true }, true)

-- Bucket.Grant
unfoldable pub grant : Bucket → ℕ → ℕ → Bucket
grant b permits expires_at =
    let b' =
      if ltb 0 permits
      then record b { remaining = b.remaining + permits; expires_at = expires_at }
      else b in
    record b' { refreshing = false }

-- Bucket.AbandonRefill
unfoldable pub abandon_refill : Bucket → Bucket
abandon_refill b = record b { refreshing = false }

-- The calls that goroutines make of one bucket, in the order in which they get the mutex.
pub data Call : Type 0 where
  takes : ℕ → Call
  grants : ℕ → ℕ → Call
  begins abandons : Call

-- The bucket after a call, and whether the call won the right to refill.
unfoldable pub step : Bucket → Call → Bucket × Bool
unfolding take begin_refill grant abandon_refill
step b (takes now) = ((take b now).bucket, false)
step b begins = begin_refill b
step b (grants permits expires_at) = (grant b permits expires_at, false)
step b abandons = (abandon_refill b, false)

-- How many calls of a history won, and how many ended a refill.
unfoldable pub won : Bucket → List Call → ℕ
won b [] = 0
won b (c ∷ cs) = let (b', w) = step b c in let n = won b' cs in if w then suc n else n

abbrev pub ended : List Call → ℕ
ended [] = 0
ended (grants _ _ ∷ cs) = suc (ended cs)
ended (abandons ∷ cs) = suc (ended cs)
ended (_ ∷ cs) = ended cs

abbrev pub busy : Bool → ℕ
busy true = 1
busy false = 0

-- However many goroutines find a bucket empty, at most one more refill is begun than was ended: no
-- two refills of one bucket are in progress together.
pub won-le : (b : Bucket) (cs : List Call) → won b cs + busy b.refreshing ≤ suc (ended cs)
unfolding won step
won-le b [] = ground arith
won-le b (takes now ∷ cs) = ground (arith, won-le (step b (takes now)).0 cs)
won-le b (begins ∷ cs) = ground (arith, won-le (step b begins).0 cs)
won-le b (grants permits at ∷ cs) = ground (arith, won-le (step b (grants permits at)).0 cs)
won-le b (abandons ∷ cs) = ground (arith, won-le (step b abandons).0 cs)
