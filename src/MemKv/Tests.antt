-- ===== src/MemKv/Tests.antt =====
-- The store at concrete inputs.
use model_gateway.Common.{◌≡◌, refl, String_comparable, [], ◌∷◌, some, arith, lookup}
use model_gateway.Common.Int.{◌+ℤ◌, pos, Fits64}
use model_gateway.Common.Decimal.{format_int, parse_int-format_int}
use model_gateway.Core.Errors.{ok}
use model_gateway.MemKv.{Entries, incr}
use model_gateway.MemKv.Counters.{Counts, ends_of, ends_or, incr_exact}

abbrev two_entries : Entries
two_entries =
    ("a", record { value = "1"; expires_at = 10 })
    ∷ ("b", record { value = "2"; expires_at = 0 })
    ∷ []

abbrev counters : Entries
counters = ("n", record { value = format_int (pos 40); expires_at = 90 }) ∷ []

counters-Counts : Counts counters 80 "n" (pos 40)
unfolding lookup
counters-Counts =
    Counts.present (record { value = format_int (pos 40); expires_at = 90 }) refl
      (parse_int-format_int (pos 40) (omega arith)) (omega arith)

fits_sum : Fits64 (pos 40 +ℤ pos 2)
unfolding ◌+ℤ◌
fits_sum = omega arith

incr_exact_example :
    ((incr counters 20 "n" (pos 2) 70).1 ≡ ok (pos 40 +ℤ pos 2))
    × Counts (incr counters 20 "n" (pos 2) 70).0 80 "n" (pos 40 +ℤ pos 2)
    × (ends_of (lookup "n" (incr counters 20 "n" (pos 2) 70).0)
        ≡ some (ends_or 90 (lookup "n" counters)))
incr_exact_example =
    incr_exact counters 20 80 "n" (pos 40) (pos 2) 70 (omega arith) (omega arith) counters-Counts
      fits_sum
