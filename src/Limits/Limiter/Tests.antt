-- ===== src/Limits/Limiter/Tests.antt =====
-- Limits at concrete inputs, over the in-process store.
use model_gateway.Common.{
  ℕ, All, ◌-◌, ◌≤◌, ◌≡◌, refl, true, false, String, String_comparable, List, [], ◌∷◌, some, arith,
  min, length, lookup, insert, lookup-insert_self,
}
use model_gateway.Common.Int.{pos, ◌+ℤ◌, ◌-ℤ◌, wrap64}
use model_gateway.Common.Decimal.{format_int, parse_int, parse_int-format_int}
use model_gateway.Core.Identity.{Principal}
use model_gateway.MemKv.{memkv, Entries, incr}
use model_gateway.MemKv.Counters.{Counts, memkv_laws}
use model_gateway.Limits.Limiter.{Limiter, Readings, key, slots, lease_from, take_permit, admit}
use model_gateway.Limits.Limiter.Slots.{
  admit_steals_slot, arrives, finishes, Worker, serve_all, Accounted, serve_all-Accounted,
}
use model_gateway.Limits.Limiter.Window.{Within, take_permit-Takes}
use model_gateway.Limits.Limiter.Racing.{done, advance, race}
use model_gateway.Limits.Limiter.Racing.Moves.{spent as granted_one, refilling, total}
use model_gateway.Limits.Limiter.Racing.Bounds.{arriving, Racing, race-arriving}
use model_gateway.Limits.Limiter.Racing.Serial.{admitted_alone, admitted_alone-min}
use model_gateway.Limits.Bucket.{take, begin_refill, grant}
use model_gateway.Limits.Lease.{granted}
use model_gateway.Limits.Limiter.Fleet.{serve_fleet, FleetOk, serve_fleet_le}

abbrev alice : Principal
alice = record {
  key_id = "alice";
  tenant = "acme";
  org = "";
  team = "";
  user = "";
  app = "";
  roles = [];
  models = record { allow_all = true; names = [] };
  budgets = [];
  default_class = "";
  min_trust_tier = 0;
  limits = record { requests_per_minute = 1; tokens_per_minute = 0; max_concurrent = 2 };
  deprecated = false;
  not_after = 0;
}

-- Alice with no concurrency limit.
abbrev uncapped : Principal
uncapped = record alice {
  limits = record { requests_per_minute = 1; tokens_per_minute = 0; max_concurrent = 0 };
}

abbrev at_once : Readings
at_once = record {
  keying = 5;
  taking = 5;
  storing = 5;
  granting = 5;
  retaking = 5;
  token_keying = 5;
  fetching = 5;
  ending = 5;
  rolling = 5;
}

abbrev fresh : Limiter
fresh = record { lease = 10; buckets = []; concurrent = []; failed_open = 0 }

abbrev holding : Limiter
holding = record fresh { concurrent = ("alice", 1) ∷ [] }

abbrev rpm : String
rpm = key uncapped "rpm" 5

-- A store in which the only permit of the minute is taken.
abbrev spent : Entries
spent = insert rpm (record { value = "1"; expires_at = 120_000_000_005 }) []

in_window : Within 60_000_000_000 at_once
in_window = record {
  taking = omega arith;
  storing = omega arith;
  store_close = omega arith;
  granting = omega arith;
  retaking = omega arith;
}

one_parsed : parse_int "1" ≡ some (pos 1)
unfolding format_int
one_parsed = parse_int-format_int (pos 1) (omega arith)

no_permit : (take_permit memkv holding spent at_once rpm 1).result ≡ false
unfolding lookup
no_permit =
    (take_permit-Takes memkv memkv_laws 60_000_000_000 rpm 1 holding spent at_once 1 1 0 in_window
      (omega arith) (omega arith) (omega arith)
      (record {
        ready = record { settled = refl; fresh = λ h. omega (arith, h) };
        stands =
            Counts.present (record { value = "1"; expires_at = 120_000_000_005 })
              (lookup-insert_self rpm (record { value = "1"; expires_at = 120_000_000_005 }) [])
              one_parsed (omega arith);
        shared = omega arith;
      })).admitted

admit_steals_slot_example :
    ((admit memkv holding spent uncapped at_once).result.allowed ≡ false)
    × (slots (admit memkv holding spent uncapped at_once).limiter "alice"
        ≡ slots holding "alice" - 1)
admit_steals_slot_example =
    admit_steals_slot memkv holding spent uncapped at_once refl (omega arith) no_permit

abbrev idle : Worker memkv
idle = record { limiter = fresh; store = []; in_flight = 0 }

idle-Accounted : Accounted memkv alice idle
unfolding lookup
idle-Accounted = record { exact = refl; bounded = omega arith }

serve_all-Accounted_example :
    Accounted memkv alice
      (serve_all memkv idle alice (arrives at_once ∷ arrives at_once ∷ finishes ∷ []))
serve_all-Accounted_example =
    serve_all-Accounted memkv idle alice (arrives at_once ∷ arrives at_once ∷ finishes ∷ [])
      (omega arith) idle-Accounted

admitted_alone-min_example :
    admitted_alone memkv memkv_laws 60_000_000_000 "k" 2 fresh [] (at_once ∷ at_once ∷ at_once ∷ [])
    ≡ min (length (at_once ∷ at_once ∷ at_once ∷ [])) 2
unfolding lookup
admitted_alone-min_example =
    admitted_alone-min memkv memkv_laws 60_000_000_000 "k" 2 fresh []
      (at_once ∷ at_once ∷ at_once ∷ []) (in_window, (in_window, (in_window, tt))) (omega arith)
      (omega arith) (omega arith) refl (Counts.absent refl refl)

-- The second goroutine arrives while the first refills, and is refused.
abbrev crossing : List (ℕ × Readings)
crossing =
    (0, at_once)
    ∷ (0, at_once)
    ∷ (1, at_once)
    ∷ (1, at_once)
    ∷ (0, at_once)
    ∷ (0, at_once)
    ∷ (0, at_once)
    ∷ []

crossing_in_window : All (λ (q : ℕ × Readings). Within 60_000_000_000 q.1) crossing
crossing_in_window =
    (in_window, (in_window, (in_window, (in_window, (in_window, (in_window, (in_window, tt)))))))

race-arriving_example :
    (total granted_one (race memkv fresh [] "k" 2 (arriving 2) crossing).1 ≤ 2)
    × (total refilling (race memkv fresh [] "k" 2 (arriving 2) crossing).1 ≤ 1)
    × ((c : ℕ) × Racing memkv memkv_laws 60_000_000_000 "k" 2
          (race memkv fresh [] "k" 2 (arriving 2) crossing).0.0
          (race memkv fresh [] "k" 2 (arriving 2) crossing).0.1
          (race memkv fresh [] "k" 2 (arriving 2) crossing).1
          c)
unfolding lookup
race-arriving_example =
    race-arriving memkv memkv_laws 60_000_000_000 "k" 2 2 fresh [] crossing crossing_in_window
      (omega arith) (omega arith) refl (Counts.absent refl refl)

one_is_refused : (race memkv fresh [] "k" 2 (arriving 2) crossing).1 ≡ done true ∷ done false ∷ []
unfolding race advance take begin_refill grant lease_from granted incr lookup insert ◌+ℤ◌ ◌-ℤ◌
    wrap64
one_is_refused = refl

abbrev pair_of_workers : List Limiter
pair_of_workers = fresh ∷ record fresh { lease = 3 } ∷ []

pair-FleetOk : FleetOk memkv memkv_laws 60_000_000_000 "k" 2 10 pair_of_workers [] 0 0
unfolding lookup
pair-FleetOk = record {
  workers = (
    record {
      leases = omega arith;
      modest = omega arith;
      ready = record { settled = refl; fresh = λ h. omega (arith, h) };
    },
    (
      record {
        leases = omega arith;
        modest = omega arith;
        ready = record { settled = refl; fresh = λ h. omega (arith, h) };
      },
      tt,
    ),
  );
  stands = Counts.absent refl refl;
  shared = omega arith;
}

serve_fleet_le_example :
    serve_fleet memkv memkv_laws 60_000_000_000 "k" 2 10 pair_of_workers [] 0
      ((0, at_once) ∷ (1, at_once) ∷ (1, at_once) ∷ [])
    ≤ 2
serve_fleet_le_example =
    serve_fleet_le memkv memkv_laws 60_000_000_000 "k" 2 10 pair_of_workers [] 0 0
      ((0, at_once) ∷ (1, at_once) ∷ (1, at_once) ∷ []) (in_window, (in_window, (in_window, tt)))
      (omega arith) (omega arith) pair-FleetOk
