-- ===== src/Shadow/Draining.antt =====
-- dataplane/internal/shadow/shadow.go: what the workers do until Wait returns.
use model_gateway.Common.{
  ℕ, suc, ◌+◌, ◌-◌, ◌*◌, ◌<◌, ◌≡◌, ◌⊎◌, refl, ap, ◌∙◌, inl, inr, Bool, true, false, List, [], ◌∷◌,
  some, is_some, ltb, eqb, length, length-append, arith, Bool-cases, Option-cases,
}
use model_gateway.Shadow.Pool.{known, Bounded, Kept, without-length, take_job-Kept, end_job-Kept}
use model_gateway.Shadow.{
  Job, Mirror, start, take_job, without, end_job, Event, offers, takes, ends, goes_on, step, run,
}

module _ {Q : Type 0} where
  -- The moves that the workers have left: a queued job is still to be taken and to end.
  abbrev pub work : Mirror Q → ℕ
  work m = 2 * length m.queue + length m.running

  -- Each event can happen when it does.
  abbrev pub Goes : List (Event Q) → Mirror Q → Type 0
  Goes [] m = Unit
  Goes (e ∷ es) m = (goes_on e m ≡ true) × Goes es (step e m)

  -- A move: one less is left, no job is lost, and none is dropped.
  record Moved (m m' : Mirror Q) : Type 0 where
    less : suc (work m') ≡ work m
    same_drops : m'.dropped ≡ m.dropped
    kept : Kept m m' 0

  start-less :
      (jobs : List (Job Q)) (m : Mirror Q)
      → m.queue ≡ jobs
      → ltb 0 (length jobs) ≡ true
      → (suc (work (start jobs m)) ≡ work m) × ((start jobs m).dropped ≡ m.dropped)
  unfolding start
  start-less [] m e h = ground (arith, h)
  start-less (job ∷ rest) m e h =
      let more = length-append m.running (job ∷ []) in
      let was : length m.queue ≡ suc (length rest) = ap length e in (omega (arith, more, was), refl)

  take_job-Moved : (m : Mirror Q) → Bounded m → goes_on takes m ≡ true → Moved m (take_job m)
  unfolding take_job goes_on
  take_job-Moved m h e =
      let free : ltb (length m.running) m.workers ≡ true = ground (arith, e) in
      let some_queued : ltb 0 (length m.queue) ≡ true = ground (arith, e) in
      let (less, same) = start-less m.queue m refl some_queued in
      record { less = rw free less; same_drops = rw free same; kept = take_job-Kept m h }

  -- There is an n-th job.
  without-some : (n : ℕ) (jobs : List (Job Q)) → n < length jobs → is_some (without n jobs) ≡ true
  unfolding without
  without-some n [] h = ground (arith, h)
  without-some n (job ∷ rest) h = elim (Bool-cases (eqb n 0)) [
    | inl q ↦ rw q refl
    | inr q ↦
        let later = without-some (n - 1) rest (ground (arith, q, h)) in
        elim (Option-cases (without (n - 1) rest)) [
          | inl z ↦ let no : false ≡ true = ground (arith, later, z) in cc
          | inr (l, z) ↦ rw (q, z) refl
        ]
  ]

  end_job-less :
      (n : ℕ) (good : Bool) (m : Mirror Q) (left : List (Job Q))
      → without n m.running ≡ some left
      → (suc (work (end_job n good m)) ≡ work m) × ((end_job n good m).dropped ≡ m.dropped)
  unfolding end_job
  end_job-less n good m left z =
      let fewer = without-length n m.running left z in
      rw (z, end_job)
        (elim (Bool-cases good) [
          | inl q ↦ rw q (omega (arith, fewer), refl)
          | inr q ↦ rw q (omega (arith, fewer), refl)
        ])

  end_job-Moved :
      (n : ℕ) (good : Bool) (m : Mirror Q)
      → Bounded m
      → goes_on (ends n good) m ≡ true
      → Moved m (end_job n good m)
  unfolding goes_on
  end_job-Moved n good m h e =
      let there = without-some n m.running (ground (arith, e)) in
      let kept = end_job-Kept n good m h in
      elim (Option-cases (without n m.running)) [
        | inl z ↦ let no : false ≡ true = ground (arith, there, z) in cc
        | inr (left, z) ↦
            let (less, same) = end_job-less n good m left z in
            record { less = less; same_drops = same; kept = kept }
      ]

  step-Moved : (e : Event Q) (m : Mirror Q) → Bounded m → goes_on e m ≡ true → Moved m (step e m)
  unfolding step goes_on
  step-Moved (offers job) m h g = let no : false ≡ true = g in cc
  step-Moved takes m h g = take_job-Moved m h g
  step-Moved (ends n good) m h g = end_job-Moved n good m h g

  -- What a schedule leaves.
  record Drained (moves : ℕ) (m m' : Mirror Q) : Type 0 where
    less : moves + work m' ≡ work m
    same_drops : m'.dropped ≡ m.dropped
    same_known : known m' ≡ known m
    bounded : Bounded m'

  run-Drained :
      (es : List (Event Q)) (m : Mirror Q)
      → Bounded m
      → Goes es m
      → Drained (length es) m (run es m)
  unfolding run
  run-Drained [] m h g = record {
    less = omega arith;
    same_drops = refl;
    same_known = refl;
    bounded = h;
  }
  run-Drained (e ∷ es) m h g =
      let now = step-Moved e m h g.0 in
      let later = run-Drained es (step e m) now.kept.bounded g.1 in
      record {
        less = omega (arith, now.less, later.less);
        same_drops = later.same_drops ∙ now.same_drops;
        same_known = omega (arith, later.same_known, now.kept.all_known);
        bounded = later.bounded;
      }

  -- A worker can go on, by taking a job or by ending one.
  abbrev pub Busy : Mirror Q → Type 0
  Busy m = (goes_on takes m ≡ true) ⊎ (goes_on (ends 0 true) m ≡ true)

  -- No job is left, and the others are counted as mirrored or failed.
  abbrev pub Done : Mirror Q → Mirror Q → Type 0
  Done before m =
      (length m.queue + length m.running ≡ 0) × (m.mirrored + m.failed + m.dropped ≡ known before)

  settled : (before m : Mirror Q) → Bounded m → known m ≡ known before → Busy m ⊎ Done before m
  unfolding goes_on
  settled before m h same = elim (Bool-cases (ltb 0 (length m.running))) [
    | inl q ↦ inl (inr q)
    | inr q ↦ elim (Bool-cases (ltb 0 (length m.queue))) [
      | inl z ↦
          let idle : ltb (length m.running) m.workers ≡ true = ground (arith, q, h.has_worker) in
          inl (inl (rw (idle, z) refl))
      | inr z ↦ inr (ground (arith, q, z), ground (arith, q, z, same))
    ]
  ]

  -- Once Wait has closed the queue, whatever the workers do, and in whatever order: each move leaves
  -- one less to make, so that they make at most two for each queued job and one for each running one;
  -- no job is dropped; and at any time either a worker can take or end a job, or none is queued or
  -- running and each that was is counted as mirrored or failed.
  pub run-Done :
      (es : List (Event Q)) (m : Mirror Q)
      → Bounded m
      → Goes es m
      → (length es + work (run es m) ≡ work m)
        × ((run es m).dropped ≡ m.dropped)
        × (Busy (run es m) ⊎ Done m (run es m))
  run-Done es m h g =
      let d = run-Drained es m h g in
      (d.less, d.same_drops, settled m (run es m) d.bounded d.same_known)
