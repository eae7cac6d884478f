-- ===== src/Limits/Limiter/Slots.antt =====
-- The concurrency slots of a principal.
use model_gateway.Common.{
  ℕ, zero, suc, ◌-◌, ◌≤◌, ◌<◌, ◌≡◌, refl, ◌⊎◌, inl, inr, Bool, true, false, String,
  String_comparable, List, [], ◌∷◌, Option, none, some, arith, ltb, if◌then◌else◌, Bool-cases,
  Option-cases, lookup, lookup-insert_self,
}
use model_gateway.Common.Int.{ℤ}
use model_gateway.Core.Errors.{Result, ok, err}
use model_gateway.Core.Identity.{Principal, unlimited}
use model_gateway.Core.Ports.{KvStore}
use model_gateway.Limits.Bucket.{take, begin_refill}
use model_gateway.Limits.Limiter.{
  Limiter, Readings, Reply, bucket, key, Decision, slots, acquire_slot, release_slot, release,
  put_bucket, leased, lease_from, refill, take_permit, spent_by, window_spent, check_tokens,
  check_requests, admit, release_count,
}

slots-acquire :
    (l : Limiter) (p : Principal)
    → slots l p.key_id ≤ p.limits.max_concurrent
    → ((acquire_slot l p).1 ≡ true)
        × (slots (acquire_slot l p).0 p.key_id ≡ suc (slots l p.key_id))
        × (suc (slots l p.key_id) ≤ p.limits.max_concurrent)
      ⊎ ((acquire_slot l p).1 ≡ false) × (slots (acquire_slot l p).0 p.key_id ≡ slots l p.key_id)
unfolding acquire_slot
slots-acquire l p h = elim (Bool-cases (ltb p.limits.max_concurrent (suc (slots l p.key_id)))) [
  | inl full ↦ rw full (inr (refl, simp lookup-insert_self (omega arith)))
  | inr free ↦ rw free (inl (refl, simp lookup-insert_self, ground arith))
]

slots-release :
    (l : Limiter) (p : Principal) → slots (release_slot l p) p.key_id ≡ slots l p.key_id - 1
unfolding release_slot
slots-release l p = elim (Option-cases (lookup p.key_id l.concurrent)) [
  | inl e ↦ rw (e, release_count) (rw e (omega arith))
  | inr (n, e) ↦ rw (e, release_count) (simp lookup-insert_self)
]

module _ (kv : KvStore) where
  leased-concurrent :
      (l : Limiter) (limit : ℕ) (answer : kv.Store × Result ℤ)
      → (leased kv l limit answer).limiter.concurrent ≡ l.concurrent
  unfolding leased
  leased-concurrent l limit (s, err e) = refl
  leased-concurrent l limit (s, ok used) = refl

  refill-concurrent :
      (l : Limiter) (s : kv.Store) (r : Readings) (k : String) (limit : ℕ) (was_taken : Bool)
      → (refill kv l s r k limit was_taken).limiter.concurrent ≡ l.concurrent
  unfolding refill lease_from
  refill-concurrent l s r k limit true = leased-concurrent l limit _
  refill-concurrent l s r k limit false = leased-concurrent l limit _

  take_permit-concurrent :
      (l : Limiter) (s : kv.Store) (r : Readings) (k : String) (limit : ℕ)
      → (take_permit kv l s r k limit).limiter.concurrent ≡ l.concurrent
  unfolding take_permit
  take_permit-concurrent l s r k limit =
      let first = take (bucket l k) r.taking in
      let l' = put_bucket l k first.bucket in
      ground (
        arith,
        refill-concurrent (put_bucket l' k (begin_refill first.bucket).0) s r k limit first.taken,
      )

  spent_by-concurrent :
      (l : Limiter) (limit : ℕ) (answer : Result (Option String))
      → (spent_by kv l limit answer).0.concurrent ≡ l.concurrent
  unfolding spent_by
  spent_by-concurrent l limit (err e) = refl
  spent_by-concurrent l limit (ok none) = refl
  spent_by-concurrent l limit (ok (some raw)) = refl

  -- A reply that leaves a slot as it found it, or gives it back and refuses.
  record Settles (p : Principal) (n : ℕ) (reply : Reply kv Decision) : Type 0 where
    kept : reply.result.allowed ≡ true → slots reply.limiter p.key_id ≡ n
    given_back : reply.result.allowed ≡ false → slots reply.limiter p.key_id ≡ n - 1

  check_tokens-Settles :
      (l : Limiter) (s : kv.Store) (p : Principal) (r : Readings)
      → Settles p (slots l p.key_id) (check_tokens kv l s p r)
  unfolding check_tokens window_spent
  check_tokens-Settles l s p r =
      let k = key p "tpm" r.token_keying in
      let answer = kv.get s r.fetching k in
      let spent = spent_by kv l p.limits.tokens_per_minute answer in
      record {
        kept = ground (arith, spent_by-concurrent l p.limits.tokens_per_minute answer);
        given_back = ground (
          arith,
          spent_by-concurrent l p.limits.tokens_per_minute answer,
          slots-release spent.0 p,
        );
      }

  check_requests-Settles :
      (l : Limiter) (s : kv.Store) (p : Principal) (r : Readings)
      → Settles p (slots l p.key_id) (check_requests kv l s p r)
  unfolding check_requests
  check_requests-Settles l s p r =
      let k = key p "rpm" r.keying in
      let t = take_permit kv l s r k p.limits.requests_per_minute in
      let same = take_permit-concurrent l s r k p.limits.requests_per_minute in
      let after = check_tokens-Settles t.limiter t.store p r in
      let direct = check_tokens-Settles l s p r in
      record {
        kept = ground (arith, same, after.kept, direct.kept);
        given_back =
            ground (arith, same, after.given_back, direct.given_back, slots-release t.limiter p);
      }

  -- For a principal with a concurrency limit that is not exceeded, a request that is refused, for
  -- whatever reason, holds no slot afterwards; one that is admitted holds one more than before, and
  -- no more than the limit are held.
  pub admit-slots :
      (l : Limiter) (s : kv.Store) (p : Principal) (r : Readings)
      → 0 < p.limits.max_concurrent
      → slots l p.key_id ≤ p.limits.max_concurrent
      → ((admit kv l s p r).result.allowed ≡ true)
          × (slots (admit kv l s p r).limiter p.key_id ≡ suc (slots l p.key_id))
          × (suc (slots l p.key_id) ≤ p.limits.max_concurrent)
        ⊎ ((admit kv l s p r).result.allowed ≡ false)
          × (slots (admit kv l s p r).limiter p.key_id ≡ slots l p.key_id)
  unfolding admit unlimited
  admit-slots l s p r h k =
      let after = check_requests-Settles (acquire_slot l p).0 s p r in
      ground (arith, slots-acquire l p k, after.kept, after.given_back)

  -- The defect: where the principal has a request limit but no concurrency limit, a request that
  -- the request limit refuses takes one off the slots counted for it, although it took none.
  pub admit_steals_slot :
      (l : Limiter) (s : kv.Store) (p : Principal) (r : Readings)
      → p.limits.max_concurrent ≡ 0
      → 0 < p.limits.requests_per_minute
      → (take_permit kv l s r (key p "rpm" r.keying) p.limits.requests_per_minute).result ≡ false
      → ((admit kv l s p r).result.allowed ≡ false)
        × (slots (admit kv l s p r).limiter p.key_id ≡ slots l p.key_id - 1)
  unfolding admit check_requests unlimited
  admit_steals_slot l s p r unlimited_slots limited_rate full =
      let k = key p "rpm" r.keying in
      let t = take_permit kv l s r k p.limits.requests_per_minute in
      let same = take_permit-concurrent l s r k p.limits.requests_per_minute in
      (ground arith, ground (arith, same, slots-release t.limiter p))

  -- One principal's requests on one worker: each arrives and is admitted or refused, and an
  -- admitted one finishes at some time.
  pub data Event : Type 0 where
    arrives : Readings → Event
    finishes : Event

  pub record Worker : Type 0 where
    pub limiter : Limiter
    pub store : kv.Store
    pub in_flight : ℕ

  finish : ℕ → Worker → Principal → Worker
  finish zero w p = w
  finish (suc n) w p = record w { limiter = release w.limiter p; in_flight = n }

  pub serve : Worker → Principal → Event → Worker
  unfolding finish
  serve w p (arrives r) =
      let a = admit kv w.limiter w.store p r in
      record {
        limiter = a.limiter;
        store = a.store;
        in_flight = if a.result.allowed then suc w.in_flight else w.in_flight;
      }
  serve w p finishes = finish w.in_flight w p

  pub serve_all : Worker → Principal → List Event → Worker
  serve_all w p [] = w
  serve_all w p (e ∷ es) = serve_all (serve w p e) p es

  pub record Accounted (p : Principal) (w : Worker) : Type 0 where
    pub exact : slots w.limiter p.key_id ≡ w.in_flight
    pub bounded : w.in_flight ≤ p.limits.max_concurrent

  serve-Accounted :
      (w : Worker) (p : Principal) (e : Event)
      → 0 < p.limits.max_concurrent
      → Accounted p w
      → Accounted p (serve w p e)
  unfolding serve release
  serve-Accounted w p (arrives r) h v =
      ground (arith, admit-slots w.limiter w.store p r h (omega arith))
  serve-Accounted w p finishes h v = finish-Accounted w.in_flight refl
    where
      finish-Accounted : (n : ℕ) → n ≡ w.in_flight → Accounted p (finish n w p)
      finish-Accounted zero e = v
      finish-Accounted (suc n) e = ground (arith, slots-release w.limiter p)

  -- For a principal with a concurrency limit, whatever the order of arrivals and completions at a
  -- worker: if the slots counted for it are its requests in flight, and these are within the limit,
  -- then so it stays.
  pub serve_all-Accounted :
      (w : Worker) (p : Principal) (es : List Event)
      → 0 < p.limits.max_concurrent
      → Accounted p w
      → Accounted p (serve_all w p es)
  unfolding serve_all
  serve_all-Accounted w p [] h v = v
  serve_all-Accounted w p (e ∷ es) h v =
      serve_all-Accounted (serve w p e) p es h (serve-Accounted w p e h v)
