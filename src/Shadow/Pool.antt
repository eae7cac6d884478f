-- ===== src/Shadow/Pool.antt =====
-- dataplane/internal/shadow/shadow.go: the bounds of the mirror, and where each job that it was offered is.
use model_gateway.Common.{
  ℕ, suc, ◌+◌, ◌-◌, ◌≤◌, ◌<◌, ◌≡◌, refl, ap, inl, inr, Bool, List, [], ◌∷◌, some, eqb, ltb, length,
  length-append, arith, Bool-cases, Option-cases,
}
use model_gateway.Shadow.{
  Job, Mirror, new_mirror, offer, start, take_job, without, end_job, Event, offers, takes, ends,
  step, run,
}

-- The number of jobs that a run offers.
unfoldable pub offered : {Q : Type 0} → List (Event Q) → ℕ
offered [] = 0
offered (offers job ∷ es) = suc (offered es)
offered (takes ∷ es) = offered es
offered (ends n good ∷ es) = offered es

module _ {Q : Type 0} where
  -- The jobs that the mirror knows of, each in one place.
  abbrev pub known : Mirror Q → ℕ
  known m = length m.queue + length m.running + (m.mirrored + m.failed + m.dropped)

  -- The queue and the pool within their bounds.
  pub record Bounded (m : Mirror Q) : Type 0 where
    pub has_worker : 0 < m.workers
    pub short_queue : length m.queue ≤ m.queue_size
    pub small_pool : length m.running ≤ m.workers

  pub without-length :
      (n : ℕ) (jobs left : List (Job Q))
      → without n jobs ≡ some left
      → length jobs ≡ suc (length left)
  unfolding without
  without-length n [] left h = ground (arith, h)
  without-length n (job ∷ rest) left h = elim (Bool-cases (eqb n 0)) [
    | inl q ↦ ground (arith, q, h)
    | inr q ↦ elim (Option-cases (without (n - 1) rest)) [
      | inl z ↦ ground (arith, q, h, z)
      | inr (l, z) ↦ let more = without-length (n - 1) rest l z in ground (arith, q, h, z, more)
    ]
  ]

  -- What a step keeps: the bounds, and every job but the one it is offered.
  pub record Kept (m m' : Mirror Q) (new : ℕ) : Type 0 where
    pub bounded : Bounded m'
    pub all_known : known m' ≡ known m + new

  offer-Kept : (job : Job Q) (m : Mirror Q) → Bounded m → Kept m (offer job m) 1
  unfolding offer
  offer-Kept job m h =
      let more = length-append m.queue (job ∷ []) in
      elim (Bool-cases (ltb (length m.queue) m.queue_size)) [
        | inl q ↦ rw q (record {
          bounded = record {
            has_worker = h.has_worker;
            short_queue = ground (arith, q, more);
            small_pool = h.small_pool;
          };
          all_known = omega (arith, more);
        })
        | inr q ↦ rw q (record {
          bounded = record {
            has_worker = h.has_worker;
            short_queue = h.short_queue;
            small_pool = h.small_pool;
          };
          all_known = omega arith;
        })
      ]

  start-Kept :
      (jobs : List (Job Q)) (m : Mirror Q)
      → m.queue ≡ jobs
      → length m.running < m.workers
      → Bounded m
      → Kept m (start jobs m) 0
  unfolding start
  start-Kept [] m e l h = record { bounded = h; all_known = omega arith }
  start-Kept (job ∷ rest) m e l h =
      let more = length-append m.running (job ∷ []) in
      let was : length m.queue ≡ suc (length rest) = ap length e in
      record {
        bounded = record {
          has_worker = h.has_worker;
          short_queue = omega (arith, was, h.short_queue);
          small_pool = omega (arith, more, l);
        };
        all_known = omega (arith, more, was);
      }

  pub take_job-Kept : (m : Mirror Q) → Bounded m → Kept m (take_job m) 0
  unfolding take_job
  take_job-Kept m h = elim (Bool-cases (ltb (length m.running) m.workers)) [
    | inl q ↦ rw q (start-Kept m.queue m refl (ground (arith, q)) h)
    | inr q ↦ rw q (record { bounded = h; all_known = omega arith })
  ]

  pub end_job-Kept : (n : ℕ) (good : Bool) (m : Mirror Q) → Bounded m → Kept m (end_job n good m) 0
  unfolding end_job
  end_job-Kept n good m h = elim (Option-cases (without n m.running)) [
    | inl e ↦ rw (e, end_job) (record { bounded = h; all_known = omega arith })
    | inr (left, e) ↦
        let less = without-length n m.running left e in
        rw (e, end_job)
          (elim (Bool-cases good) [
            | inl q ↦ rw q (record {
              bounded = record {
                has_worker = h.has_worker;
                short_queue = h.short_queue;
                small_pool = omega (arith, less, h.small_pool);
              };
              all_known = omega (arith, less);
            })
            | inr q ↦ rw q (record {
              bounded = record {
                has_worker = h.has_worker;
                short_queue = h.short_queue;
                small_pool = omega (arith, less, h.small_pool);
              };
              all_known = omega (arith, less);
            })
          ])
  ]

  run-Kept : (es : List (Event Q)) (m : Mirror Q) → Bounded m → Kept m (run es m) (offered es)
  unfolding run step offered
  run-Kept [] m h = record { bounded = h; all_known = omega arith }
  run-Kept (offers job ∷ es) m h =
      let now = offer-Kept job m h in
      let later = run-Kept es (offer job m) now.bounded in
      record { bounded = later.bounded; all_known = omega (arith, now.all_known, later.all_known) }
  run-Kept (takes ∷ es) m h =
      let now = take_job-Kept m h in
      let later = run-Kept es (take_job m) now.bounded in
      record { bounded = later.bounded; all_known = omega (arith, now.all_known, later.all_known) }
  run-Kept (ends n good ∷ es) m h =
      let now = end_job-Kept n good m h in
      let later = run-Kept es (end_job n good m) now.bounded in
      record { bounded = later.bounded; all_known = omega (arith, now.all_known, later.all_known) }

  new_mirror-Bounded : (workers queue : ℕ) → Bounded (new_mirror {Q = Q} workers queue)
  unfolding new_mirror
  new_mirror-Bounded workers queue = record {
    has_worker = ground arith;
    short_queue = omega arith;
    small_pool = omega arith;
  }

  -- However Send and the workers interleave, the queue of a new mirror never holds more jobs than its
  -- depth, no more run than there are workers, and each job that was offered is in one place: queued,
  -- running, or counted as mirrored, failed or dropped.
  pub run-new_mirror-Bounded :
      (workers queue : ℕ) (es : List (Event Q))
      → Bounded (run es (new_mirror workers queue))
        × (known (run es (new_mirror workers queue)) ≡ offered es)
  unfolding new_mirror
  run-new_mirror-Bounded workers queue es =
      let k = run-Kept es (new_mirror workers queue) (new_mirror-Bounded workers queue) in
      (k.bounded, omega (arith, k.all_known))
