-- ===== src/Shadow.antt =====
-- dataplane/internal/shadow/shadow.go: the Mirror, which hands copies of served requests to a bounded
-- pool of workers. Workers run beside Send, so a run is a list of events: each job that Send offers,
-- a worker taking the first job of the queue, and a worker ending one of those that it runs.
pub mod Pool
pub mod Draining
mod Tests
use model_gateway.Common.{
  ℕ, suc, ◌-◌, String, Bool, true, false, not, ◌&&◌, List, [], ◌∷◌, ◌++◌, Option, none, some, eqb,
  ltb, leb, if◌then◌else◌, length,
}
use model_gateway.Common.Int.{pos}
use model_gateway.Core.Catalog.{Deployment, is_adapter}
use model_gateway.Core.Snapshot.{Snapshot}
use model_gateway.Core.Snapshot.Lookups.{shadows}
use model_gateway.Router.Floats.{Floats}

abbrev pub default_workers : ℕ
default_workers = 8

abbrev pub default_queue : ℕ
default_queue = 64

pub record Job (Q : Type 0) : Type 0 where
  pub deployment : Deployment
  pub request : Q

-- The queue is a channel, and `running` the jobs of the workers.
pub record Mirror (Q : Type 0) : Type 0 where
  pub workers : ℕ
  pub queue_size : ℕ
  pub queue : List (Job Q)
  pub running : List (Job Q)
  pub mirrored : ℕ
  pub dropped : ℕ
  pub failed : ℕ

-- WithCapacity, for a number of workers and a depth; one that is not positive changes nothing.
abbrev positive_or : ℕ → ℕ → ℕ
positive_or old n = if ltb 0 n then n else old

-- New and Start, with the capacities that WithCapacity is given, 0 where it is not.
unfoldable pub new_mirror : {Q : Type 0} → ℕ → ℕ → Mirror Q
new_mirror workers queue = record {
  workers = positive_or default_workers workers;
  queue_size = positive_or default_queue queue;
  queue = [];
  running = [];
  mirrored = 0;
  dropped = 0;
  failed = 0;
}

module _ {F : Type 0} (fl : Floats F) where
  -- The draw that leaves an adapter out.
  unfoldable pub left_out : F → Deployment → Bool
  left_out draw d =
      fl.at_most (fl.of_int (pos d.shadow_percent)) (fl.times draw (fl.of_int (pos 100)))

  -- The loop of Send: the jobs that it offers, where the n-th draw is `draws n`.
  unfoldable pub sampled : {Q : Type 0} → (ℕ → F) → ℕ → Q → List Deployment → List (Job Q)
  sampled draws n request [] = []
  sampled draws n request (d ∷ ds) =
      let rest = sampled draws (suc n) request ds in
      if left_out (draws n) d then rest else record { deployment = d; request = request } ∷ rest

  -- Send, for a snapshot and a request that are not nil.
  unfoldable pub send : {Q : Type 0} → (ℕ → F) → Snapshot → Deployment → Q → List (Job Q)
  send draws snap served request =
      if is_adapter served.key
      then []
      else sampled draws 0 request (shadows snap served.key.base_model)

module _ {Q : Type 0} where
  -- The select of Send.
  unfoldable pub offer : Job Q → Mirror Q → Mirror Q
  offer job m =
      if ltb (length m.queue) m.queue_size
      then record m { queue = m.queue ++ job ∷ [] }
      else record m { dropped = suc m.dropped }

  start : List (Job Q) → Mirror Q → Mirror Q
  start [] m = m
  start (job ∷ rest) m = record m { queue = rest; running = m.running ++ job ∷ [] }

  -- A worker that has no job receives one from the queue.
  unfoldable pub take_job : Mirror Q → Mirror Q
  unfolding start
  take_job m = if ltb (length m.running) m.workers then start m.queue m else m

  -- The n-th of some jobs taken out of them.
  unfoldable pub without : ℕ → List (Job Q) → Option (List (Job Q))
  without n [] = none
  without n (job ∷ rest) =
      let others = without (n - 1) rest in
      if eqb n 0 then some rest else elim others [ none ↦ none | some left ↦ some (job ∷ left) ]

  -- run, for the n-th of the running jobs: the counters after the call.
  unfoldable pub end_job : ℕ → Bool → Mirror Q → Mirror Q
  end_job n good m = elim (without n m.running) [
    | none ↦ m
    | some left ↦
        if good
        then record m { running = left; mirrored = suc m.mirrored }
        else record m { running = left; failed = suc m.failed }
  ]

pub data Event (Q : Type 0) : Type 0 where
  offers : Job Q → Event Q
  takes : Event Q
  ends : ℕ → Bool → Event Q

unfoldable pub step : {Q : Type 0} → Event Q → Mirror Q → Mirror Q
step (offers job) m = offer job m
step takes m = take_job m
step (ends n good) m = end_job n good m

unfoldable pub run : {Q : Type 0} → List (Event Q) → Mirror Q → Mirror Q
run [] m = m
run (e ∷ es) m = run es (step e m)

-- What can happen once Wait has closed the queue: nothing more is offered, a worker that has no job
-- receives one while there are any, and each job that runs ends. Wait returns when none of it can.
unfoldable pub goes_on : {Q : Type 0} → Event Q → Mirror Q → Bool
goes_on (offers job) m = false
goes_on takes m = ltb (length m.running) m.workers && ltb 0 (length m.queue)
goes_on (ends n good) m = ltb n (length m.running)
