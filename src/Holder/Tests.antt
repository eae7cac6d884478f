-- ===== src/Holder/Tests.antt =====
-- A holder at concrete inputs.
use model_gateway.Common.{ℕ, ◌≤◌, ◌≡◌, refl, true, false, List, [], ◌∷◌, none, some, All, arith}
use model_gateway.Core.Errors.{ok, err, new, unavailable}
use model_gateway.Core.Snapshot.{Snapshot}
use model_gateway.Core.Snapshot.Lookups.{global_version}
use model_gateway.Holder.Subscriber.{
  Subscriber, Source, rounds_of, refresh, taken_in, swapped_in, paced, Follows, rounds_of-Follows,
}
use model_gateway.Holder.{
  Holder, new_holder, new_generation, take_lease, acquire, try_ref, release, release_at,
  check_monotonic, check_tenants, install, swap, rollback, Event, takes, releases, swaps, step, run,
}
use model_gateway.Holder.Draining.{Loads, Stands, run-Stands, run-acquire, new_holder-IsValid}
use model_gateway.Holder.Swapping.{served, NotBackwards, swap-forward, Refused, swap-rollback}

-- A snapshot with nothing in it but a version.
abbrev numbered : ℕ → Snapshot
numbered n = record {
  global = record {
    version = record { number = n; digest = "" };
    built_at = 0;
    deployments = [];
    shadows = [];
    by_route = [];
    aliases = [];
    tenant_by_prefix = [];
    plugins = [];
    guardrails = [];
    policy = [];
    policy_bundle_ref = "";
  };
  tenants = [];
}

abbrev first : Holder
first = record {
  heap = λ _. new_generation (numbered 1);
  next = 1;
  current = 0;
  previous = none;
  leases = [];
}

made : new_holder (some (numbered 1)) ≡ ok first
unfolding new_holder
made = refl

abbrev story : List Event
story = takes 0 ∷ swaps (some (numbered 2)) ∷ swaps (some (numbered 3)) ∷ releases 0 ∷ []

story-Loads : Loads first story
story-Loads = (omega arith, tt)

story_next : (run first story).next ≡ 3
unfolding run step take_lease try_ref swap check_monotonic check_tenants install release release_at
story_next = refl

run-Stands_example : Stands (run first story) 0
run-Stands_example =
    run-Stands (numbered 1) first story 0 made story-Loads (omega (arith, story_next))

run-acquire_example :
    ((acquire (run first story)).1 ≡ true)
    × ((acquire (run first story)).0.leases
        ≡ record { gen = (run first story).current; released = false } ∷ (run first story).leases)
    × (((run first story).heap (run first story).current).retirements ≡ 0)
run-acquire_example = run-acquire (numbered 1) first story made story-Loads

abbrev second : Holder
second = install first (numbered 2)

swapped : swap first (some (numbered 2)) ≡ ok second
unfolding swap check_monotonic check_tenants
swapped = refl

swap-forward_example :
    (served second ≡ numbered 2)
    × ((global_version (served first)).number ≤ 2)
    × All (NotBackwards (served first) (numbered 2)) []
swap-forward_example = swap-forward first second (numbered 2) swapped

swap-rollback_example :
    (h : Holder) × (rollback second ≡ ok h) × (served h ≡ served first) × Refused (rollback h)
swap-rollback_example =
    swap-rollback first second (numbered 2) (new_holder-IsValid (numbered 1) first made) swapped

abbrev polling : Subscriber
polling = record {
  holder = first;
  digest = none;
  applied = 0;
  unchanged = 0;
  failed = 0;
  rejected = 0;
  last_error = none;
  min_backoff = 1;
  max_backoff = 8;
  backoff = 1;
}

abbrev newer : Source
newer digest = ok (record { snapshot = some (numbered 2); digest = "two"; unchanged = false })

abbrev down : Source
down digest = err (new unavailable "no answer")

rounds_of-Follows_example : Follows 3 polling (rounds_of polling (down ∷ newer ∷ newer ∷ []))
rounds_of-Follows_example = rounds_of-Follows polling (down ∷ newer ∷ newer ∷ [])

a_snapshot_is_applied : (rounds_of polling (down ∷ newer ∷ [])).applied ≡ 1
unfolding rounds_of refresh taken_in swapped_in paced swap check_monotonic check_tenants
a_snapshot_is_applied = refl
