-- ===== src/MemKv.antt =====
-- dataplane/internal/adapters/memkv: the in-process KVStore, a map with lifetimes. The mutex makes
-- each method one step, and `now` is the reading of the store's clock.
pub mod Counters
pub mod Expiry
mod Tests
use model_gateway.Common.{
  ℕ, suc, ◌+◌, Bool, false, not, ◌&&◌, String, String_comparable, List, [], ◌∷◌, Option, none, some,
  ltb, eqb, if◌then◌else◌, Map, lookup, insert, delete, length,
}
use model_gateway.Common.Int.{ℤ, pos, ◌+ℤ◌, wrap64}
use model_gateway.Common.Decimal.{format_int, parse_int}
use model_gateway.Core.Errors.{Error, Result, ok, err, internal, outside, wrapping}
use model_gateway.Core.Ports.{KvStore}

pub record Entry : Type 0 where
  pub value : String
  pub expires_at : ℕ

-- The field `entries` of a Store.
abbrev pub Entries : Type 0
Entries = Map String Entry

-- Store.expired; a zero time never expires.
unfoldable pub expired : Entry → ℕ → Bool
expired e now = not (eqb e.expires_at 0) && ltb e.expires_at now

-- The value of an entry that was looked up, if it is present and unexpired.
live : Option Entry → ℕ → Option String
unfolding expired
live none now = none
live (some e) now = if expired e now then none else some e.value

-- Store.Get
unfoldable pub get : Entries → ℕ → String → Result (Option String)
unfolding live
get s now key = ok (live (lookup key s) now)

-- Store.Set
unfoldable pub set : Entries → ℕ → String → String → ℕ → Entries × Option Error
set s now key value ttl = (insert key (record { value = value; expires_at = now + ttl }) s, none)

add_to : Option ℤ → Entries → String → ℤ → ℕ → Entries × Result ℤ
add_to none s key delta expires_at = (
  s,
  err (
      wrapping internal (record { format = "counter holds a non-numeric value"; args = [] }) false
        (outside "strconv.ParseInt")),
)
add_to (some current) s key delta expires_at =
    let total = wrap64 (current +ℤ delta) in
    (insert key (record { value = format_int total; expires_at = expires_at }) s, ok total)

-- What Incr does with the entry it finds.
incr_entry : Option Entry → Entries → ℕ → String → ℤ → ℕ → Entries × Result ℤ
unfolding add_to expired
incr_entry none s now key delta ttl = add_to (some (pos 0)) s key delta (now + ttl)
incr_entry (some e) s now key delta ttl =
    if expired e now
    then add_to (some (pos 0)) s key delta (now + ttl)
    else add_to (parse_int e.value) s key delta e.expires_at

-- Store.Incr
unfoldable pub incr : Entries → ℕ → String → ℤ → ℕ → Entries × Result ℤ
unfolding incr_entry
incr s now key delta ttl = incr_entry (lookup key s) s now key delta ttl

-- Store.Delete
unfoldable pub remove : Entries → String → Entries × Option Error
remove s key = (delete key s, none)

-- Store.Sweep, with the number of entries removed.
unfoldable pub sweep : Entries → ℕ → Entries × ℕ
unfolding expired
sweep [] now = ([], 0)
sweep ((key, e) ∷ s) now =
    let (kept, removed) = sweep s now in
    if expired e now then (kept, suc removed) else ((key, e) ∷ kept, removed)

-- Store.Len
unfoldable pub len : Entries → ℕ
len s = length s

-- The store as the interface that its clients take.
abbrev pub memkv : KvStore
memkv = record { Store = Entries; get = get; set = set; incr = incr; delete = remove }
