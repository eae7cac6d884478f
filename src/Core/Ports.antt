-- ===== src/Core/Ports.antt =====
-- dataplane/internal/core/ports.go: the interface of ephemeral keyed state, and what its clients
-- rely on. Values are texts; a lifetime is in nanoseconds, and `now` is the store's clock.
use model_gateway.Common.{ℕ, ◌+◌, ◌≤◌, ◌≡◌, String, Option}
use model_gateway.Common.Int.{ℤ, ◌+ℤ◌, Fits64}
use model_gateway.Core.Errors.{Error, Result, ok}

-- KVStore
pub record KvStore : Type 1 where
  pub Store : Type 0
  pub get : Store → ℕ → String → Result (Option String)
  pub set : Store → ℕ → String → String → ℕ → Store × Option Error
  pub incr : Store → ℕ → String → ℤ → ℕ → Store × Result ℤ
  pub delete : Store → String → Store × Option Error

-- What a client of counters relies on: a counter that stands at `c` up to the instant `until`, or
-- was never created (`c` is 0), is added to exactly, and stands at the sum up to that instant.
pub record CounterLaws (kv : KvStore) : Type 1 where
  pub Stands : kv.Store → ℕ → String → ℤ → Type 0
  pub incr_result :
      (s : kv.Store) (now until : ℕ) (key : String) (c d : ℤ) (ttl : ℕ)
      → now ≤ until
      → until ≤ now + ttl
      → Stands s until key c
      → Fits64 (c +ℤ d)
      → (kv.incr s now key d ttl).1 ≡ ok (c +ℤ d)
  pub incr-Stands :
      (s : kv.Store) (now until : ℕ) (key : String) (c d : ℤ) (ttl : ℕ)
      → now ≤ until
      → until ≤ now + ttl
      → Stands s until key c
      → Fits64 (c +ℤ d)
      → Stands (kv.incr s now key d ttl).0 until key (c +ℤ d)
