-- ===== src/Limits/Limiter/Racing/Serial.antt =====
-- dataplane/internal/limits/limiter.go: Limiter.take by one goroutine after another.
use model_gateway.Common.{
  ℕ, suc, ◌+◌, ◌*◌, ◌<◌, ◌^◌, ◌≡◌, refl, ◌∙◌, Bool, true, false, String, String_comparable, List,
  lookup, [], ◌∷◌, none, arith, min, if◌then◌else◌, length, All,
}
use model_gateway.Common.Int.{pos}
use model_gateway.Core.Ports.{KvStore, CounterLaws}
use model_gateway.Limits.Bucket.{busy}
use model_gateway.Limits.Limiter.{Limiter, Readings, take_permit}
use model_gateway.Limits.Limiter.Window.{Within}
use model_gateway.Limits.Limiter.Racing.{arrives, race}
use model_gateway.Limits.Limiter.Racing.Moves.{spent, total}
use model_gateway.Limits.Limiter.Racing.Alone.{moves, race-take_permit}
use model_gateway.Limits.Limiter.Window.{admitted_by, admitted_by_exact}

module _ (kv : KvStore) (laws : CounterLaws kv) (until : ℕ) (k : String) (limit : ℕ) where
  -- The requests that get a permit, where each makes all of its moves before the next one arrives.
  unfoldable pub admitted_alone : Limiter → kv.Store → List Readings → ℕ
  admitted_alone l s [] = 0
  admitted_alone l s (r ∷ rs) =
      let out = race kv l s k limit (arrives ∷ []) (moves kv 5 r) in
      let rest = admitted_alone out.0.0 out.0.1 rs in total spent out.1 + rest

  one_or_none : (b : Bool) (n : ℕ) → busy b + 0 + n ≡ (if b then suc n else n)
  one_or_none true n = omega arith
  one_or_none false n = omega arith

  admitted_alone-admitted_by :
      (l : Limiter) (s : kv.Store) (rs : List Readings)
      → admitted_alone l s rs ≡ admitted_by kv laws until k limit l s rs
  unfolding admitted_alone admitted_by
  admitted_alone-admitted_by l s [] = refl
  admitted_alone-admitted_by l s (r ∷ rs) =
      let t = take_permit kv l s r k limit in
      rw (race-take_permit kv l s r k limit)
        (rw (admitted_alone-admitted_by t.limiter t.store rs) (one_or_none t.result _))

  -- Where each request makes all of its moves before the next one arrives, so that none finds
  -- another's refill in progress: while the store keeps the counter laws and all readings fall in one
  -- window, a worker that starts the window with no bucket and no counter admits the first requests up
  -- to the limit and refuses all others, whatever the positive size of its leases. The limit is a
  -- uint32, and the counter stays below 2 ^ 63.
  pub admitted_alone-min :
      (l : Limiter) (s : kv.Store) (rs : List Readings)
      → All (Within until) rs
      → 0 < l.lease
      → length rs * l.lease < 2 ^ 63
      → limit < 2 ^ 32
      → lookup k l.buckets ≡ none
      → laws.Stands s until k (pos 0)
      → admitted_alone l s rs ≡ min (length rs) limit
  admitted_alone-min l s rs w pl fit small new st =
      admitted_alone-admitted_by l s rs
      ∙ admitted_by_exact kv laws until k limit l s rs w pl fit small new st
