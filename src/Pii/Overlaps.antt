-- ===== src/Pii/Overlaps.antt =====
-- dataplane/internal/pii/detect.go: which matches withoutOverlaps keeps.
use model_gateway.Common.{
  ℕ, ◌≤◌, ◌<◌, ◌≡◌, refl, ◌⊎◌, inl, inr, true, false, List, [], ◌∷◌, ltb, arith, Bool-cases, Memᴰ,
  All, All-Memᴰ,
}
use model_gateway.Pii.{Match, sink, sunk, turned, sort_by_start, keep_from, without_overlaps}

-- Matches in order, none of which starts before `last` or the end of the one in front of it.
abbrev pub Apart : ℕ → List Match → Type 0
Apart last [] = Unit
Apart last (m ∷ ms) = (last ≤ m.start) × Apart m.stop ms

keep_from-Apart : (last : ℕ) (ms : List Match) → Apart last (keep_from last ms)
unfolding keep_from
keep_from-Apart last [] = tt
keep_from-Apart last (m ∷ ms) = elim (Bool-cases (ltb m.start last)) [
  | inl q ↦ rw q (keep_from-Apart last ms)
  | inr q ↦ rw q (ground (arith, q), keep_from-Apart m.stop ms)
]

-- A match that is kept, or overlaps one that is and starts no later.
pub data Covered (m : Match) (ms : List Match) : Type 0 where
  is_kept : Memᴰ m ms → Covered m ms
  is_met : (k : Match) → Memᴰ k ms → k.start ≤ m.start → m.start < k.stop → Covered m ms

cover_more : (k m : Match) (ms : List Match) → Covered m ms → Covered m (k ∷ ms)
cover_more k m ms (is_kept h) = is_kept (Memᴰ.tail h)
cover_more k m ms (is_met x h a b) = is_met x (Memᴰ.tail h) a b

-- Every match starts no later than those behind it; and no earlier.
abbrev Ascending : List Match → Type 0
Ascending [] = Unit
Ascending (m ∷ ms) = All (λ x. m.start ≤ x.start) ms × Ascending ms

abbrev Descending : List Match → Type 0
Descending [] = Unit
Descending (m ∷ ms) = All (λ x. x.start ≤ m.start) ms × Descending ms

keep_from-Covered :
    (last : ℕ) (ms : List Match) (m : Match)
    → Ascending ms
    → Memᴰ m ms
    → (m.start < last) ⊎ Covered m (keep_from last ms)
unfolding keep_from
keep_from-Covered last [] m a h = elim h [ ]
keep_from-Covered last (x ∷ xs) m a (Memᴰ.head e) = elim (Bool-cases (ltb x.start last)) [
  | inl q ↦ inl (rw e (ground (arith, q)))
  | inr q ↦ rw q (inr (is_kept (Memᴰ.head e)))
]
keep_from-Covered last (x ∷ xs) m a (Memᴰ.tail h) = elim (Bool-cases (ltb x.start last)) [
  | inl q ↦ rw q (keep_from-Covered last xs m a.1 h)
  | inr q ↦ rw q (elim (keep_from-Covered x.stop xs m a.1 h) [
    | inl b ↦ inr (is_met x (Memᴰ.head refl) (All-Memᴰ (λ y. x.start ≤ y.start) xs a.0 m h) b)
    | inr c ↦ inr (cover_more x m (keep_from x.stop xs) c)
  ])
]

-- What holds of every match holds of every one that is sorted, and that is kept.
module _ (P : Match → Type 0) where
  All-keep_from : (last : ℕ) (ms : List Match) → All P ms → All P (keep_from last ms)
  unfolding keep_from
  All-keep_from last [] h = tt
  All-keep_from last (x ∷ xs) h = elim (Bool-cases (ltb x.start last)) [
    | inl q ↦ rw q (All-keep_from last xs h.1)
    | inr q ↦ rw q (h.0, All-keep_from x.stop xs h.1)
  ]

  All-sink : (x : Match) (ms : List Match) → P x → All P ms → All P (sink x ms)
  unfolding sink
  All-sink x [] h k = (h, tt)
  All-sink x (y ∷ ys) h k = elim (Bool-cases (ltb x.start y.start)) [
    | inl q ↦ rw q (k.0, All-sink x ys h k.1)
    | inr q ↦ rw q (h, k)
  ]

  All-sunk : (done ms : List Match) → All P done → All P ms → All P (sunk done ms)
  unfolding sunk
  All-sunk done [] h k = h
  All-sunk done (x ∷ xs) h k = All-sunk (sink x done) xs (All-sink x done k.0 h) k.1

  All-turned : (ms out : List Match) → All P ms → All P out → All P (turned ms out)
  unfolding turned
  All-turned [] out h k = k
  All-turned (x ∷ xs) out h k = All-turned xs (x ∷ out) h.1 (h.0, k)

  All-sort_by_start : (ms : List Match) → All P ms → All P (sort_by_start ms)
  unfolding sort_by_start
  All-sort_by_start ms h = All-turned (sunk [] ms) [] (All-sunk [] ms tt h) tt

-- Sorting puts the matches in the order of their starts.
starts_below :
    (a b : ℕ) (ms : List Match) → a ≤ b → All (λ z. z.start ≤ a) ms → All (λ z. z.start ≤ b) ms
starts_below a b [] l h = tt
starts_below a b (x ∷ xs) l h = (omega (arith, l, h.0), starts_below a b xs l h.1)

sink-Descending : (x : Match) (ms : List Match) → Descending ms → Descending (sink x ms)
unfolding sink
sink-Descending x [] d = (tt, tt)
sink-Descending x (y ∷ ys) d = elim (Bool-cases (ltb x.start y.start)) [
  | inl q ↦
      let first : x.start ≤ y.start = ground (arith, q) in
      rw q (All-sink (λ z. z.start ≤ y.start) x ys first d.0, sink-Descending x ys d.1)
  | inr q ↦
      let first : y.start ≤ x.start = ground (arith, q) in
      rw q ((first, starts_below y.start x.start ys first d.0), d)
]

sunk-Descending : (done ms : List Match) → Descending done → Descending (sunk done ms)
unfolding sunk
sunk-Descending done [] d = d
sunk-Descending done (x ∷ xs) d = sunk-Descending (sink x done) xs (sink-Descending x done d)

-- Each of some matches starts no later than each of others.
abbrev Before : List Match → List Match → Type 0
Before ms out = All (λ x. All (λ y. x.start ≤ y.start) out) ms

Before-cons :
    (x : Match) (xs out : List Match)
    → All (λ z. z.start ≤ x.start) xs
    → Before xs out
    → Before xs (x ∷ out)
Before-cons x [] out h k = tt
Before-cons x (z ∷ zs) out h k = ((h.0, k.0), Before-cons x zs out h.1 k.1)

Before-nil : (ms : List Match) → Before ms []
Before-nil [] = tt
Before-nil (x ∷ xs) = (tt, Before-nil xs)

turned-Ascending :
    (ms out : List Match)
    → Descending ms
    → Ascending out
    → Before ms out
    → Ascending (turned ms out)
unfolding turned
turned-Ascending [] out d a b = a
turned-Ascending (x ∷ xs) out d a b =
    turned-Ascending xs (x ∷ out) d.1 (b.0, a) (Before-cons x xs out d.0 b.1)

sort_by_start-Ascending : (ms : List Match) → Ascending (sort_by_start ms)
unfolding sort_by_start
sort_by_start-Ascending ms =
    turned-Ascending (sunk [] ms) [] (sunk-Descending [] ms tt) tt (Before-nil (sunk [] ms))

-- Sorting keeps every match.
Memᴰ-sink : (m x : Match) (ms : List Match) → (m ≡ x) ⊎ Memᴰ m ms → Memᴰ m (sink x ms)
unfolding sink
Memᴰ-sink m x [] (inl e) = Memᴰ.head e
Memᴰ-sink m x [] (inr h) = elim h [ ]
Memᴰ-sink m x (y ∷ ys) (inl e) = elim (Bool-cases (ltb x.start y.start)) [
  | inl q ↦ rw q (Memᴰ.tail (Memᴰ-sink m x ys (inl e)))
  | inr q ↦ rw q (Memᴰ.head e)
]
Memᴰ-sink m x (y ∷ ys) (inr (Memᴰ.head e)) = elim (Bool-cases (ltb x.start y.start)) [
  | inl q ↦ rw q (Memᴰ.head e)
  | inr q ↦ rw q (Memᴰ.tail (Memᴰ.head e))
]
Memᴰ-sink m x (y ∷ ys) (inr (Memᴰ.tail h)) = elim (Bool-cases (ltb x.start y.start)) [
  | inl q ↦ rw q (Memᴰ.tail (Memᴰ-sink m x ys (inr h)))
  | inr q ↦ rw q (Memᴰ.tail (Memᴰ.tail h))
]

Memᴰ-sunk : (m : Match) (done ms : List Match) → Memᴰ m done ⊎ Memᴰ m ms → Memᴰ m (sunk done ms)
unfolding sunk
Memᴰ-sunk m done [] (inl h) = h
Memᴰ-sunk m done [] (inr h) = elim h [ ]
Memᴰ-sunk m done (x ∷ xs) (inl h) = Memᴰ-sunk m (sink x done) xs (inl (Memᴰ-sink m x done (inr h)))
Memᴰ-sunk m done (x ∷ xs) (inr (Memᴰ.head e)) =
    Memᴰ-sunk m (sink x done) xs (inl (Memᴰ-sink m x done (inl e)))
Memᴰ-sunk m done (x ∷ xs) (inr (Memᴰ.tail h)) = Memᴰ-sunk m (sink x done) xs (inr h)

Memᴰ-turned : (m : Match) (ms out : List Match) → Memᴰ m ms ⊎ Memᴰ m out → Memᴰ m (turned ms out)
unfolding turned
Memᴰ-turned m [] out (inl h) = elim h [ ]
Memᴰ-turned m [] out (inr h) = h
Memᴰ-turned m (x ∷ xs) out (inl (Memᴰ.head e)) = Memᴰ-turned m xs (x ∷ out) (inr (Memᴰ.head e))
Memᴰ-turned m (x ∷ xs) out (inl (Memᴰ.tail h)) = Memᴰ-turned m xs (x ∷ out) (inl h)
Memᴰ-turned m (x ∷ xs) out (inr h) = Memᴰ-turned m xs (x ∷ out) (inr (Memᴰ.tail h))

Memᴰ-sort_by_start : (m : Match) (ms : List Match) → Memᴰ m ms → Memᴰ m (sort_by_start ms)
unfolding sort_by_start
Memᴰ-sort_by_start m ms h = Memᴰ-turned m (sunk [] ms) [] (inl (Memᴰ-sunk m [] ms (inr h)))

settle_start : (m : Match) (ms : List Match) → (m.start < 0) ⊎ Covered m ms → Covered m ms
settle_start m ms (inr c) = c
settle_start m ms (inl b) = let impossible : true ≡ false = ground (arith, b) in cc

-- Each of some matches is among others.
abbrev pub Among : List Match → List Match → Type 0
Among given ms = All (λ k. Memᴰ k given) ms

Among-tail : (x : Match) (given ms : List Match) → Among given ms → Among (x ∷ given) ms
Among-tail x given [] h = tt
Among-tail x given (m ∷ ms) h = (Memᴰ.tail h.0, Among-tail x given ms h.1)

Among-self : (ms : List Match) → Among ms ms
Among-self [] = tt
Among-self (m ∷ ms) = (Memᴰ.head refl, Among-tail m ms ms (Among-self ms))

-- The matches that withoutOverlaps keeps are among those it is given, and in order and apart; and every
-- match it is given is kept, or overlaps a kept one that starts no later.
pub without_overlaps-Apart :
    (ms : List Match) (m : Match)
    → Memᴰ m ms
    → Among ms (without_overlaps ms)
      × Apart 0 (without_overlaps ms)
      × Covered m (without_overlaps ms)
unfolding without_overlaps
without_overlaps-Apart [] m h = elim h [ ]
without_overlaps-Apart (x ∷ []) m h = (Among-self (x ∷ []), (omega arith, tt), is_kept h)
without_overlaps-Apart (x ∷ y ∷ ms) m h =
    let given = x ∷ y ∷ ms in
    let sorted = sort_by_start given in
    (
      All-keep_from (λ k. Memᴰ k given) 0 sorted
          (All-sort_by_start (λ k. Memᴰ k given) given (Among-self given)),
      keep_from-Apart 0 sorted,
      settle_start m (keep_from 0 sorted) (
          keep_from-Covered 0 sorted m (sort_by_start-Ascending given)
            (Memᴰ-sort_by_start m given h)),
    )
