-- ===== src/Holder/Counting.antt =====
-- The reference count of each generation.
use model_gateway.Common.{
  ℕ, zero, suc, ◌+◌, ◌<◌, ◌≡◌, refl, subst, ◌≢◌, inl, inr, List, [], ◌∷◌, Option, none, some, All,
  arith, eqb, if◌then◌else◌, Bool-cases,
}
use model_gateway.Core.Errors.{ok}
use model_gateway.Core.Snapshot.{Snapshot}
use model_gateway.Holder.{
  Generation, new_generation, try_ref, unref, Lease, Holder, put, take_lease, release_at, unref_at,
  release, install, revert,
}

-- The leases on a generation that are not released.
abbrev pub live : ℕ → List Lease → ℕ
live g [] = 0
live g (l ∷ ls) = (if l.released then 0 else if eqb l.gen g then 1 else 0) + live g ls

abbrev pub slot_of : Option ℕ → ℕ → ℕ
slot_of none g = 0
slot_of (some p) g = if eqb p g then 1 else 0

-- The holder's own references to a generation: as current and as previous.
abbrev pub own : Holder → ℕ → ℕ
own h g = slot_of (some h.current) g + slot_of h.previous g

-- A generation whose count is exact, and which was retired once if the count is 0 and else never.
pub record Exact (x : Generation) (n : ℕ) : Type 0 where
  pub counted : x.refs ≡ n
  pub flagged : x.retired ≡ eqb n 0
  pub called : x.retirements ≡ (if eqb n 0 then 1 else 0)

abbrev pub Below : Option ℕ → ℕ → Type 0
Below none n = Unit
Below (some p) n = p < n

pub record IsValid (h : Holder) : Type 0 where
  pub exact : (g : ℕ) → g < h.next → Exact (h.heap g) (own h g + live g h.leases)
  pub current : h.current < h.next
  pub previous : Below h.previous h.next
  pub apart : h.previous ≢ some h.current
  pub leases : All (λ l. l.gen < h.next) h.leases

unref-Exact : (x : Generation) (n : ℕ) → Exact x (suc n) → Exact (unref x) n
unfolding unref
unref-Exact x n e = record {
  counted = ground (arith, e.counted, e.flagged);
  flagged = ground (arith, e.counted, e.flagged);
  called = ground (arith, e.counted, e.flagged, e.called);
}

pub take_lease-IsValid : (h : Holder) (g : ℕ) → g < h.next → IsValid h → IsValid (take_lease h g).0
unfolding take_lease try_ref
take_lease-IsValid h g k v = elim (Bool-cases (eqb (h.heap g).refs 0)) [
  | inl e ↦ rw e v
  | inr e ↦ rw e (record {
    exact = λ i b.
        let x = v.exact i b in
        record {
          counted = ground (arith, x.counted, e);
          flagged = ground (arith, x.counted, x.flagged, e);
          called = ground (arith, x.counted, x.called, e);
        };
    current = v.current;
    previous = v.previous;
    apart = v.apart;
    leases = (k, v.leases);
  })
]

-- Releasing takes one live lease off the generation that it names.
release_at-live :
    (ls : List Lease) (i g : ℕ)
    → live g ls ≡ slot_of (release_at ls i).1 g + live g (release_at ls i).0
unfolding release_at
release_at-live [] i g = refl
release_at-live (l ∷ ls) zero g = ground arith
release_at-live (l ∷ ls) (suc i) g = ground (arith, release_at-live ls i g)

release_at-All :
    (ls : List Lease) (i n : ℕ)
    → All (λ l. l.gen < n) ls
    → All (λ l. l.gen < n) (release_at ls i).0 × Below (release_at ls i).1 n
unfolding release_at
release_at-All [] i n a = (tt, tt)
release_at-All (l ∷ ls) zero n a = ground arith
release_at-All (l ∷ ls) (suc i) n a =
    let rest = release_at-All ls i n a.1 in ((a.0, rest.0), rest.1)

Exact-count : (x : Generation) (n m : ℕ) → n ≡ m → Exact x n → Exact x m
Exact-count x n m p e = subst (λ k. Exact x k) p e

-- Dropping one reference to a generation that is held.
unref_at-Exact :
    (heap : ℕ → Generation) (slot : Option ℕ) (i n : ℕ)
    → Exact (heap i) (slot_of slot i + n)
    → Exact (unref_at heap slot i) n
unref_at-Exact heap none i n e = Exact-count (heap i) (0 + n) n (omega arith) e
unref_at-Exact heap (some g) i n e = elim (Bool-cases (eqb i g)) [
  | inl t ↦
      let same : i ≡ g = ground arith in
      rw t (
        subst (λ j. Exact (unref (heap j)) n) same
          (unref-Exact (heap i) n (Exact-count (heap i) _ (suc n) (ground (arith, same)) e)))
  | inr f ↦ rw f (Exact-count (heap i) _ n (ground (arith, f)) e)
]

pub release-IsValid : (h : Holder) (i : ℕ) → IsValid h → IsValid (release h i)
unfolding release
release-IsValid h i v =
    let all = release_at-All h.leases i h.next v.leases in
    record {
      exact = λ g b.
          unref_at-Exact h.heap (release_at h.leases i).1 g
            (own h g + live g (release_at h.leases i).0)
            (Exact-count (h.heap g) _ _ (omega (arith, release_at-live h.leases i g))
              (v.exact g b));
      current = v.current;
      previous = v.previous;
      apart = v.apart;
      leases = all.0;
    }

All-Below : (ls : List Lease) (n : ℕ) → All (λ l. l.gen < n) ls → All (λ l. l.gen < suc n) ls
All-Below [] n a = tt
All-Below (l ∷ ls) n a = (omega (arith, a.0), All-Below ls n a.1)

-- No lease is on a generation that is not allocated.
live-next : (ls : List Lease) (n : ℕ) → All (λ l. l.gen < n) ls → live n ls ≡ 0
live-next [] n a = refl
live-next (l ∷ ls) n a = ground (arith, live-next ls n a.1, a.0)

pub install-IsValid : (h : Holder) (s : Snapshot) → IsValid h → IsValid (install h s)
unfolding install
install-IsValid h s v = record {
  exact = λ g b.
      unref_at-Exact (put h.heap h.next (new_generation s)) h.previous g _
        (elim (Bool-cases (eqb g h.next)) [
          | inl t ↦ rw t (record {
            counted = ground (arith, live-next h.leases h.next v.leases, v.current, v.previous);
            flagged = ground (arith, live-next h.leases h.next v.leases, v.current, v.previous);
            called = ground (arith, live-next h.leases h.next v.leases, v.current, v.previous);
          })
          | inr f ↦
              rw f (Exact-count (h.heap g) _ _ (ground (arith, f)) (v.exact g (ground (arith, f))))
        ]);
  current = omega arith;
  previous = omega (arith, v.current);
  apart = λ e. ground (arith, v.current);
  leases = All-Below h.leases h.next v.leases;
}

pub revert-IsValid :
    (h h' : Holder) (slot : Option ℕ)
    → h.previous ≡ slot
    → revert h slot ≡ ok h'
    → IsValid h
    → IsValid h'
unfolding revert
revert-IsValid h h' none p e v = cc
revert-IsValid h h' (some prev) p e v =
    let same : record h { heap = unref_at h.heap (some h.current); current = prev; previous = none }
        ≡ h' =
      cc in
    subst (λ x. IsValid x) same
      (record {
        exact = λ g b.
            unref_at-Exact h.heap (some h.current) g _
              (Exact-count (h.heap g) _ _ (ground (arith, p)) (v.exact g b));
        current = ground (arith, p, v.previous);
        previous = tt;
        apart = λ e. cc;
        leases = v.leases;
      })
