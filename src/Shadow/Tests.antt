-- ===== src/Shadow/Tests.antt =====
-- A mirror with one worker and one place in its queue.
use model_gateway.Common.{◌≡◌, ◌+◌, ◌⊎◌, true, false, refl, String, List, [], ◌∷◌, length, arith}
use model_gateway.Router.Selection.Tests.{whole, llama}
use model_gateway.Shadow.{
  Job, Mirror, new_mirror, offer, take_job, start, end_job, without, Event, offers, takes, ends,
  step, run, goes_on, sampled, left_out,
}
use model_gateway.Shadow.Draining.{Goes, work, Busy, Done, run-Done}
use model_gateway.Shadow.Pool.{Bounded, known, offered, run-new_mirror-Bounded}

abbrev job : String → Job String
job id = record { deployment = llama; request = id }

-- The third job finds the queue full.
abbrev rush : List (Event String)
rush = offers (job "a") ∷ takes ∷ offers (job "b") ∷ offers (job "c") ∷ ends 0 true ∷ []

run-new_mirror-Bounded_example :
    Bounded (run rush (new_mirror 1 1)) × (known (run rush (new_mirror 1 1)) ≡ offered rush)
run-new_mirror-Bounded_example = run-new_mirror-Bounded 1 1 rush

one_is_dropped : (run rush (new_mirror 1 1)).dropped ≡ 1
unfolding run step offer take_job start end_job without new_mirror
one_is_dropped = refl

abbrev waiting : Mirror String
waiting = record {
  workers = 1;
  queue_size = 2;
  queue = job "b" ∷ [];
  running = job "a" ∷ [];
  mirrored = 0;
  dropped = 0;
  failed = 0;
}

abbrev waiting_fits : Bounded waiting
waiting_fits = record {
  has_worker = omega arith;
  short_queue = omega arith;
  small_pool = omega arith;
}

-- The one worker ends its job, takes the next one, and that one fails.
abbrev closing : List (Event String)
closing = ends 0 true ∷ takes ∷ ends 0 false ∷ []

closing-Goes : Goes closing waiting
unfolding goes_on step take_job start end_job without
closing-Goes = (refl, (refl, (refl, tt)))

run-Done_example :
    (3 + work (run closing waiting) ≡ 3)
    × ((run closing waiting).dropped ≡ 0)
    × (Busy (run closing waiting) ⊎ Done waiting (run closing waiting))
run-Done_example = run-Done closing waiting waiting_fits closing-Goes

-- Half of the draws mirror to an adapter at 50 percent; here draws are whole numbers.
one_in_two :
    length (
      sampled whole {Q = String}
        (λ n. n)
        0
        "r"
        (record llama { shadow_percent = 50 } ∷ record llama { shadow_percent = 50 } ∷ []))
    ≡ 1
unfolding sampled left_out
one_in_two = refl
