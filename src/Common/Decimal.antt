-- ===== src/Common/Decimal.antt =====
-- strconv.FormatInt and strconv.ParseInt to base 10, over 64-bit integers.
use Prim.Native.Char.{Char, code}
use Prim.Native.Nat.{ℕ, zero, suc, ◌+◌, ◌-◌, ◌*◌, ◌/◌, ◌%◌, ◌^◌, ◌≤◌, ◌<◌}
use Prim.Native.String.{String}
use mathlib.Core.Path.{◌≡◌, refl, ap}
use mathlib.Core.Bool.{Bool, true, false, ◌&&◌}
use mathlib.Core.Option.{Option, none, some}
use native.Mathlib.Omega.{arith}
use model_gateway.Common.Tests.{ltb, leb, eqb, if◌then◌else◌}
use model_gateway.Common.Int.{ℤ, pos, negsuc, Fits64, sub_ℕ}

digit : ℕ → Char
digit zero = "0"
digit (suc zero) = "1"
digit (suc (suc zero)) = "2"
digit (suc (suc (suc zero))) = "3"
digit (suc (suc (suc (suc zero)))) = "4"
digit (suc (suc (suc (suc (suc zero))))) = "5"
digit (suc (suc (suc (suc (suc (suc zero)))))) = "6"
digit (suc (suc (suc (suc (suc (suc (suc zero))))))) = "7"
digit (suc (suc (suc (suc (suc (suc (suc (suc zero)))))))) = "8"
digit (suc (suc (suc (suc (suc (suc (suc (suc (suc n))))))))) = "9"

code-digit : (d : ℕ) → d < 10 → code (digit d) ≡ d + 48
unfolding digit
code-digit zero h = refl
code-digit (suc zero) h = refl
code-digit (suc (suc zero)) h = refl
code-digit (suc (suc (suc zero))) h = refl
code-digit (suc (suc (suc (suc zero)))) h = refl
code-digit (suc (suc (suc (suc (suc zero))))) h = refl
code-digit (suc (suc (suc (suc (suc (suc zero)))))) h = refl
code-digit (suc (suc (suc (suc (suc (suc (suc zero))))))) h = refl
code-digit (suc (suc (suc (suc (suc (suc (suc (suc zero)))))))) h = refl
code-digit (suc (suc (suc (suc (suc (suc (suc (suc (suc zero))))))))) h = refl
code-digit (suc (suc (suc (suc (suc (suc (suc (suc (suc (suc n)))))))))) h = absurd (omega arith)

-- The digits of `n` before `out`, on fuel.
emit : ℕ → ℕ → String → String
emit zero n out = out
emit (suc fuel) n out =
    let rest = emit fuel (n / 10) (String.◌∷◌ (digit (n % 10)) out) in if ltb 0 n then rest else out

-- The value of digits read after a prefix of value `n`.
scan : String → ℕ → Option ℕ
scan String.[] n = some n
scan (String.◌∷◌ c s) n =
    if leb b'0' (code c) && leb (code c) b'9' then scan s (n * 10 + (code c - b'0')) else none

scan-digit :
    (d n : ℕ) (out : String) → d < 10 → scan (String.◌∷◌ (digit d) out) n ≡ scan out (n * 10 + d)
unfolding scan
scan-digit d n out h = rw (code-digit d h) (rest (d + 48) refl)
  where
    rest :
        (c : ℕ)
        → c ≡ d + 48
        → (if leb 48 c && leb c 57 then scan out (n * 10 + (c - 48)) else none)
          ≡ scan out (n * 10 + d)
    rest c e = ground arith

last : (n : ℕ) → n / 10 * 10 + n % 10 ≡ n
last n = omega arith

scan-emit : (fuel n : ℕ) (out : String) → n ≤ fuel → scan (emit fuel n out) 0 ≡ scan out n
unfolding emit
scan-emit zero n out h = let e : n ≡ 0 = omega arith in rw e
scan-emit (suc fuel) n out h = ground (
  arith,
  scan-emit fuel (n / 10) (String.◌∷◌ (digit (n % 10)) out) (omega arith),
  scan-digit (n % 10) (n / 10) out (omega arith),
  ap (scan out) (last n),
)

format_ℕ : ℕ → String
format_ℕ zero = "0"
format_ℕ (suc n) = emit (suc n) (suc n) String.[]

unfoldable pub format_int : ℤ → String
unfolding format_ℕ emit digit
format_int (pos n) = format_ℕ n
format_int (negsuc n) = String.◌∷◌ "-" (format_ℕ (suc n))

-- A number with its sign, if it is in the range of an int64.
signed : Bool → Option ℕ → Option ℤ
signed negative none = none
signed true (some n) = if leb n (2 ^ 63) then some (sub_ℕ 0 n) else none
signed false (some n) = if ltb n (2 ^ 63) then some (pos n) else none

-- The text after an optional sign; without a digit it is no number.
magnitude : Bool → String → Option ℤ
magnitude negative String.[] = none
magnitude negative (String.◌∷◌ c s) = signed negative (scan (String.◌∷◌ c s) 0)

unfoldable pub parse_int : String → Option ℤ
unfolding magnitude signed scan
parse_int String.[] = none
parse_int (String.◌∷◌ c s) =
    if eqb (code c) b'-'
    then magnitude true s
    else if eqb (code c) b'+'
    then magnitude false s
    else magnitude false (String.◌∷◌ c s)

StartsWithDigit : String → Type 0
StartsWithDigit String.[] = ⊥
StartsWithDigit (String.◌∷◌ c s) = (48 ≤ code c) × (code c ≤ 57)

emit_start :
    (fuel n : ℕ) (out : String) → n ≤ fuel → StartsWithDigit out → StartsWithDigit (emit fuel n out)
unfolding emit
emit_start zero n out h d = d
emit_start (suc fuel) n out h d = ground (
  arith,
  emit_start fuel (n / 10) (String.◌∷◌ (digit (n % 10)) out) (omega arith)
      (unfold StartsWithDigit in omega (arith, code-digit (n % 10) (omega arith))),
)

format_ℕ-start : (n : ℕ) → StartsWithDigit (format_ℕ n)
unfolding format_ℕ emit StartsWithDigit
format_ℕ-start zero = (unfold StartsWithDigit in omega arith)
format_ℕ-start (suc n) = ground (
  arith,
  emit_start n (suc n / 10) (String.◌∷◌ (digit (suc n % 10)) String.[]) (omega arith)
      (unfold StartsWithDigit in omega (arith, code-digit (suc n % 10) (omega arith))),
)

magnitude-start :
    (s : String) (n : ℕ) (negative : Bool)
    → StartsWithDigit s
    → scan s 0 ≡ some n
    → magnitude negative s ≡ signed negative (some n)
unfolding magnitude StartsWithDigit
magnitude-start String.[] n negative d e = absurd d
magnitude-start (String.◌∷◌ c s) n negative d e = rw e

parse_unsigned :
    (s : String) (n : ℕ)
    → StartsWithDigit s
    → scan s 0 ≡ some n
    → parse_int s ≡ signed false (some n)
unfolding parse_int StartsWithDigit
parse_unsigned String.[] n d e = absurd d
parse_unsigned (String.◌∷◌ c s) n d e = ground arith

scan-format_ℕ : (n : ℕ) → scan (format_ℕ n) 0 ≡ some n
unfolding format_ℕ scan
scan-format_ℕ zero = refl
scan-format_ℕ (suc n) = scan-emit (suc n) (suc n) String.[] (omega arith)

-- ParseInt reads back every int64 that FormatInt writes.
pub parse_int-format_int : (a : ℤ) → Fits64 a → parse_int (format_int a) ≡ some a
unfolding parse_int format_int
parse_int-format_int (pos n) h =
    ground (arith, parse_unsigned (format_ℕ n) n (format_ℕ-start n) (scan-format_ℕ n))
parse_int-format_int (negsuc n) h = ground (
  arith,
  magnitude-start (format_ℕ (suc n)) (suc n) true (format_ℕ-start (suc n)) (scan-format_ℕ (suc n)),
)
