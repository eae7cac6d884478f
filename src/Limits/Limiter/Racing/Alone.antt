-- ===== src/Limits/Limiter/Racing/Alone.antt =====
-- dataplane/internal/limits/limiter.go: Limiter.take by a goroutine that nothing interrupts.
use model_gateway.Common.{
  ℕ, zero, suc, ◌≡◌, refl, ap, sym, ◌∙◌, inl, inr, Bool, true, false, String, String_comparable,
  List, Map, insert, same_refl, ◌==◌, [], ◌∷◌, arith, Bool-cases, lookup-insert_self,
}
use model_gateway.Core.Ports.{KvStore}
use model_gateway.Limits.Bucket.{Bucket, take, begin_refill, grant}
use model_gateway.Limits.Limiter.{
  Limiter, Readings, Reply, bucket, put_bucket, lease_from, take_permit, window_end,
}
use model_gateway.Limits.Limiter.Racing.{Stage, arrives, begins, leases, done, advance, race}
use model_gateway.Limits.Limiter.{refill}

insert_twice :
    (key : String) (old new : Bucket) (m : Map String Bucket)
    → insert key new (insert key old m) ≡ insert key new m
unfolding insert
insert_twice key old new [] = rw (same_refl key) refl
insert_twice key old new ((here, b) ∷ m) = elim (Bool-cases (here == key)) [
  | inl q ↦ rw q (rw (same_refl key) refl)
  | inr q ↦ rw (q, insert) (rw (q, insert_twice key old new m) refl)
]

put_twice :
    (l : Limiter) (k : String) (old new : Bucket)
    → put_bucket (put_bucket l k old) k new ≡ put_bucket l k new
put_twice l k old new = ap (λ m. record l { buckets = m }) (insert_twice k old new l.buckets)

bucket-put : (l : Limiter) (k : String) (b : Bucket) → bucket (put_bucket l k b) k ≡ b
bucket-put l k b = simp lookup-insert_self

module _ (kv : KvStore) where
  -- The end of a goroutine's race, as take returns it.
  abbrev pub ended : Reply kv Bool → (Limiter × kv.Store) × List Stage
  ended t = ((t.limiter, t.store), done t.result ∷ [])

  -- One goroutine that makes so many moves.
  abbrev pub moves : ℕ → Readings → List (ℕ × Readings)
  moves zero r = []
  moves (suc n) r = (0, r) ∷ moves n r

  race-leases :
      (l : Limiter) (s : kv.Store) (r : Readings) (k : String) (limit : ℕ) (taken : Bool)
      → race kv l s k limit (leases taken ∷ []) (moves 3 r) ≡ ended (refill kv l s r k limit taken)
  unfolding race advance refill
  race-leases l s r k limit true = refl
  race-leases l s r k limit false =
      let from = lease_from kv l s r.storing k limit in
      let b = grant (bucket from.limiter k) from.result (window_end r.granting) in
      let b' = (take b r.retaking).bucket in
      rw (bucket-put from.limiter k b) (rw (put_twice from.limiter k b b') refl)

  race-begins :
      (l : Limiter) (s : kv.Store) (r : Readings) (k : String) (limit : ℕ) (taken : Bool)
      → (bucket l k).refreshing ≡ false
      → race kv l s k limit (begins taken ∷ []) (moves 4 r)
        ≡ ended (
            refill kv
              (put_bucket l k (record (bucket l k) { refreshing = true }))
              s
              r
              k
              limit
              taken)
  unfolding race advance begin_refill
  race-begins l s r k limit taken e =
      simp e
        (race-leases (put_bucket l k (record (bucket l k) { refreshing = true })) s r k limit taken)

  -- A goroutine that is to refill has found no refill in progress.
  take_refills :
      (b : Bucket) (now : ℕ)
      → (take b now).should_refill ≡ true
      → (take b now).bucket.refreshing ≡ false
  unfolding take
  take_refills b now e = ground (arith, e)

  race_first :
      (l : Limiter) (s : kv.Store) (r : Readings) (k : String) (limit : ℕ)
      → (take (bucket l k) r.taking).should_refill ≡ true
      → race kv l s k limit (arrives ∷ []) (moves 5 r)
        ≡ race kv
            (put_bucket l k (take (bucket l k) r.taking).bucket)
            s
            k
            limit
            (begins (take (bucket l k) r.taking).taken ∷ [])
            (moves 4 r)
  unfolding race advance
  race_first l s r k limit q = simp q refl

  take_permit_wins :
      (l : Limiter) (s : kv.Store) (r : Readings) (k : String) (limit : ℕ)
      → (take (bucket l k) r.taking).should_refill ≡ true
      → let t = take (bucket l k) r.taking in
        take_permit kv l s r k limit
        ≡ refill kv
            (put_bucket (put_bucket l k t.bucket) k (record t.bucket { refreshing = true }))
            s
            r
            k
            limit
            t.taken
  unfolding take_permit begin_refill
  take_permit_wins l s r k limit q =
      let free = take_refills (bucket l k) r.taking q in simp (q, free) refl

  race_spared :
      (l : Limiter) (s : kv.Store) (r : Readings) (k : String) (limit : ℕ)
      → (take (bucket l k) r.taking).should_refill ≡ false
      → race kv l s k limit (arrives ∷ []) (moves 5 r) ≡ ended (take_permit kv l s r k limit)
  unfolding race advance take_permit
  race_spared l s r k limit q = simp q refl

  -- Limiter.take is what its critical sections make where no other goroutine comes between: five moves
  -- of one goroutine end it with the permit, the limiter and the store that take_permit gives.
  pub race-take_permit :
      (l : Limiter) (s : kv.Store) (r : Readings) (k : String) (limit : ℕ)
      → race kv l s k limit (arrives ∷ []) (moves 5 r) ≡ ended (take_permit kv l s r k limit)
  race-take_permit l s r k limit =
      let t = take (bucket l k) r.taking in
      let l' = put_bucket l k t.bucket in
      elim (Bool-cases t.should_refill) [
        | inr q ↦ race_spared l s r k limit q
        | inl q ↦
            let free = take_refills (bucket l k) r.taking q in
            let here = bucket-put l k t.bucket in
            race_first l s r k limit q
            ∙ race-begins l' s r k limit t.taken (rw here free)
            ∙ ap
                (λ b. ended (
                  refill kv (put_bucket l' k (record b { refreshing = true })) s r k limit t.taken))
                here
            ∙ ap ended (sym (take_permit_wins l s r k limit q))
      ]
