-- ===== src/MemKv/Counters.antt =====
-- Counters: the laws of `CounterLaws`.
use model_gateway.Common.{
  ℕ, ◌+◌, ◌≤◌, ◌≡◌, false, String, String_comparable, Option, none, some, arith, lookup,
  lookup-insert_self,
}
use model_gateway.Common.Int.{ℤ, pos, ◌+ℤ◌, Fits64, wrap64, wrap64_of_Fits64}
use model_gateway.Common.Decimal.{format_int, parse_int, parse_int-format_int}
use model_gateway.Core.Errors.{ok}
use model_gateway.Core.Ports.{CounterLaws}
use model_gateway.MemKv.{Entry, Entries, expired, incr, memkv}

-- A counter at `c` whose entry lives up to the instant `until` at least; 0 if it was never created.
pub data Counts (s : Entries) (until : ℕ) (key : String) (c : ℤ) : Type 0 where
  absent : lookup key s ≡ none → c ≡ pos 0 → Counts s until key c
  present :
      (e : Entry)
      → lookup key s ≡ some e
      → parse_int e.value ≡ some c
      → until ≤ e.expires_at
      → Counts s until key c

unexpired : (e : Entry) (now until : ℕ) → now ≤ until → until ≤ e.expires_at → expired e now ≡ false
unfolding expired
unexpired e now until h k = ground arith

pub incr_result :
    (s : Entries) (now until : ℕ) (key : String) (c d : ℤ) (ttl : ℕ)
    → now ≤ until
    → until ≤ now + ttl
    → Counts s until key c
    → Fits64 (c +ℤ d)
    → (incr s now key d ttl).1 ≡ ok (c +ℤ d)
unfolding incr
incr_result s now until key c d ttl h k (absent l z) f = ground (arith, wrap64_of_Fits64 (c +ℤ d) f)
incr_result s now until key c d ttl h k (present e l p x) f =
    ground (arith, wrap64_of_Fits64 (c +ℤ d) f, unexpired e now until h x)

pub incr-Counts :
    (s : Entries) (now until : ℕ) (key : String) (c d : ℤ) (ttl : ℕ)
    → now ≤ until
    → until ≤ now + ttl
    → Counts s until key c
    → Fits64 (c +ℤ d)
    → Counts (incr s now key d ttl).0 until key (c +ℤ d)
unfolding incr
incr-Counts s now until key c d ttl h k (absent l z) f =
    present (record { value = format_int (c +ℤ d); expires_at = now + ttl })
      (ground (
        arith,
        wrap64_of_Fits64 (c +ℤ d) f,
        lookup-insert_self key (record { value = format_int (c +ℤ d); expires_at = now + ttl }) s,
      ))
      (parse_int-format_int (c +ℤ d) f) k
incr-Counts s now until key c d ttl h k (present e l p x) f =
    present (record { value = format_int (c +ℤ d); expires_at = e.expires_at })
      (ground (
        arith,
        wrap64_of_Fits64 (c +ℤ d) f,
        unexpired e now until h x,
        lookup-insert_self key (record { value = format_int (c +ℤ d); expires_at = e.expires_at })
            s,
      ))
      (parse_int-format_int (c +ℤ d) f) x

-- The end of an entry's lifetime, if there is an entry, and what it is to be after an increment: that
-- of the entry that is there, or else that of a new one.
abbrev pub ends_of : Option Entry → Option ℕ
ends_of none = none
ends_of (some e) = some e.expires_at

abbrev pub ends_or : ℕ → Option Entry → ℕ
ends_or created none = created
ends_or created (some e) = e.expires_at

incr-ends :
    (s : Entries) (now until : ℕ) (key : String) (c d : ℤ) (ttl : ℕ)
    → now ≤ until
    → Counts s until key c
    → ends_of (lookup key (incr s now key d ttl).0) ≡ some (ends_or (now + ttl) (lookup key s))
unfolding incr
incr-ends s now until key c d ttl h (absent l z) =
    let total = format_int (wrap64 (pos 0 +ℤ d)) in
    ground (arith, lookup-insert_self key (record { value = total; expires_at = now + ttl }) s)
incr-ends s now until key c d ttl h (present e l p x) =
    let total = format_int (wrap64 (c +ℤ d)) in
    ground (
      arith,
      unexpired e now until h x,
      lookup-insert_self key (record { value = total; expires_at = e.expires_at }) s,
    )

-- Within its lifetime a counter is added to exactly, also from nothing, where the sum fits 64 bits;
-- what is stored reads back as the sum. An entry that was there keeps the end of its lifetime as it
-- was, and one that is created ends the given lifetime from now.
pub incr_exact :
    (s : Entries) (now until : ℕ) (key : String) (c d : ℤ) (ttl : ℕ)
    → now ≤ until
    → until ≤ now + ttl
    → Counts s until key c
    → Fits64 (c +ℤ d)
    → ((incr s now key d ttl).1 ≡ ok (c +ℤ d))
      × Counts (incr s now key d ttl).0 until key (c +ℤ d)
      × (ends_of (lookup key (incr s now key d ttl).0) ≡ some (ends_or (now + ttl) (lookup key s)))
incr_exact s now until key c d ttl h k n f = (
  incr_result s now until key c d ttl h k n f,
  incr-Counts s now until key c d ttl h k n f,
  incr-ends s now until key c d ttl h n,
)

-- The in-process store as an implementation of the counter laws.
abbrev pub memkv_laws : CounterLaws memkv
memkv_laws = record { Stands = Counts; incr_result = incr_result; incr-Stands = incr-Counts }
