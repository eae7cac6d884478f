-- ===== src/Holder/Subscriber.antt =====
-- dataplane/internal/snapshot/subscriber.go: the Subscriber, which polls a source for snapshots and
-- swaps them in. The n-th poll of a source answers what it likes for the digest that it is told.
use model_gateway.Common.{
  ℕ, suc, ◌+◌, ◌*◌, ◌≤◌, min, max, String, ◌≡◌, refl, sym, subst, ◌∙◌, inl, inr, Bool, true, false,
  not, ◌||◌, List, [], ◌∷◌, Option, none, some, is_some, if◌then◌else◌, length, arith,
}
use model_gateway.Core.Errors.{Error, Result, ok, err, Result-cases}
use model_gateway.Core.Snapshot.{Snapshot}
use model_gateway.Core.Snapshot.Lookups.{global_version}
use model_gateway.Holder.{Holder, swap}
use model_gateway.Holder.Swapping.{served, swap-forward}

pub record Fetched : Type 0 where
  pub snapshot : Option Snapshot
  pub digest : String
  pub unchanged : Bool

abbrev pub Source : Type 0
Source = String → Result Fetched

-- Subscriber, with the backoff of its loop.
pub record Subscriber : Type 0 where
  pub holder : Holder
  pub digest : Option String
  pub applied : ℕ
  pub unchanged : ℕ
  pub failed : ℕ
  pub rejected : ℕ
  pub last_error : Option Error
  pub min_backoff : ℕ
  pub max_backoff : ℕ
  pub backoff : ℕ

abbrev known : Option String → String
known none = ""
known (some d) = d

-- Refresh, from the answer of Swap on.
unfoldable pub swapped_in : Subscriber → String → Result Holder → Subscriber × Option Error
swapped_in s digest (err e) = (record s { rejected = suc s.rejected; last_error = some e }, some e)
swapped_in s digest (ok h) = (
  record s { holder = h; digest = some digest; applied = suc s.applied; last_error = none },
  none,
)

-- Refresh, from the answer of the source on.
unfoldable pub taken_in : Subscriber → Result Fetched → Subscriber × Option Error
taken_in s (err e) = (record s { failed = suc s.failed; last_error = some e }, some e)
taken_in s (ok f) =
    if f.unchanged || not (is_some f.snapshot)
    then (record s { unchanged = suc s.unchanged }, none)
    else swapped_in s f.digest (swap s.holder f.snapshot)

-- Refresh
unfoldable pub refresh : Subscriber → Source → Subscriber × Option Error
refresh s source = taken_in s (source (known s.digest))

-- The rest of a round of run: the backoff, which doubles up to its bound while polls fail.
unfoldable pub paced : Subscriber × Option Error → Subscriber
paced (s, none) = record s { backoff = s.min_backoff }
paced (s, some e) = record s { backoff = min (s.backoff * 2) s.max_backoff }

-- The rounds of run.
unfoldable pub rounds_of : Subscriber → List Source → Subscriber
rounds_of s [] = s
rounds_of s (source ∷ sources) = rounds_of (paced (refresh s source)) sources

abbrev pub polls : Subscriber → ℕ
polls s = s.applied + s.unchanged + s.failed + s.rejected

abbrev pub version : Subscriber → ℕ
version s = (global_version (served s.holder)).number

-- What some rounds do to a subscriber.
pub record Follows (rounds : ℕ) (s s' : Subscriber) : Type 0 where
  pub not_backwards : version s ≤ version s'
  pub all_counted : polls s' ≡ polls s + rounds
  pub paused : s'.backoff ≤ max s.backoff (max s.min_backoff s.max_backoff)
  pub same_min : s'.min_backoff ≡ s.min_backoff
  pub same_max : s'.max_backoff ≡ s.max_backoff

-- A poll that installs nothing.
Follows-still :
    (s s' : Subscriber)
    → s'.holder ≡ s.holder
    → polls s' ≡ polls s + 1
    → s'.backoff ≡ s.backoff
    → s'.min_backoff ≡ s.min_backoff
    → s'.max_backoff ≡ s.max_backoff
    → Follows 1 s s'
Follows-still s s' h n b lo hi = record {
  not_backwards = subst (λ x. version s ≤ (global_version (served x)).number) (sym h) (omega arith);
  all_counted = n;
  paused = omega (arith, b);
  same_min = lo;
  same_max = hi;
}

swapped_in-Follows :
    (s : Subscriber) (digest : String) (snap : Snapshot)
    → Follows 1 s (swapped_in s digest (swap s.holder (some snap))).0
unfolding swapped_in
swapped_in-Follows s digest snap = elim (Result-cases (swap s.holder (some snap))) [
  | inl (e, q) ↦ rw (q, swapped_in) (Follows-still s _ refl (omega arith) refl refl refl)
  | inr (h, q) ↦
      let (now, forward, tenants) = swap-forward s.holder h snap q in
      rw (q, swapped_in)
        (record {
          not_backwards = subst (λ x. version s ≤ (global_version x).number) (sym now) forward;
          all_counted = omega arith;
          paused = omega arith;
          same_min = refl;
          same_max = refl;
        })
]

taken_in-Follows : (s : Subscriber) (answer : Result Fetched) → Follows 1 s (taken_in s answer).0
unfolding taken_in
taken_in-Follows s (err e) = Follows-still s _ refl (omega arith) refl refl refl
taken_in-Follows s (ok f) = by_fields f.unchanged f.digest f.snapshot
  where
    by_fields :
        (same : Bool) (digest : String) (snap : Option Snapshot)
        → Follows 1 s
            (taken_in s (ok (record { snapshot = snap; digest = digest; unchanged = same }))).0
    by_fields true digest snap = Follows-still s _ refl (omega arith) refl refl refl
    by_fields false digest none = Follows-still s _ refl (omega arith) refl refl refl
    by_fields false digest (some snap) = swapped_in-Follows s digest snap

paced-Follows :
    (n : ℕ) (s : Subscriber) (polled : Subscriber × Option Error)
    → Follows n s polled.0
    → Follows n s (paced polled)
unfolding paced
paced-Follows n s (s', none) f = record {
  not_backwards = f.not_backwards;
  all_counted = f.all_counted;
  paused = omega (arith, f.same_min);
  same_min = f.same_min;
  same_max = f.same_max;
}
paced-Follows n s (s', some e) f = record {
  not_backwards = f.not_backwards;
  all_counted = f.all_counted;
  paused = omega (arith, f.same_max);
  same_min = f.same_min;
  same_max = f.same_max;
}

-- Whatever a source answers, the global version that is served never goes down, each poll is counted
-- once, as applied, unchanged, failed or rejected, and the backoff stays within its bounds, or at most
-- what it was.
pub rounds_of-Follows :
    (s : Subscriber) (sources : List Source) → Follows (length sources) s (rounds_of s sources)
unfolding rounds_of refresh
rounds_of-Follows s [] = record {
  not_backwards = omega arith;
  all_counted = omega arith;
  paused = omega arith;
  same_min = refl;
  same_max = refl;
}
rounds_of-Follows s (source ∷ sources) =
    let now = paced-Follows 1 s (refresh s source) (taken_in-Follows s (source (known s.digest))) in
    let later = rounds_of-Follows (paced (refresh s source)) sources in
    record {
      not_backwards = omega (arith, now.not_backwards, later.not_backwards);
      all_counted = omega (arith, now.all_counted, later.all_counted);
      paused = omega (arith, now.paused, later.paused, now.same_min, now.same_max);
      same_min = later.same_min ∙ now.same_min;
      same_max = later.same_max ∙ now.same_max;
    }
