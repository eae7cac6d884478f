-- ===== src/Pii.antt =====
-- dataplane/internal/pii/detect.go: what counts as personal data in a text, which is its bytes. The
-- regular expressions of the detectors are a parameter: for each kind, the spans that they find.
pub mod Transform
pub mod Overlaps
pub mod Stream
mod Tests
use model_gateway.Common.{
  ℕ, zero, suc, ◌+◌, ◌-◌, ◌*◌, ◌%◌, ◌<◌, Bool, true, false, not, ◌&&◌, ◌||◌, List, [], ◌∷◌, ◌++◌,
  Option, none, some, ltb, leb, eqb, if◌then◌else◌, length, take, drop, filter,
}
use model_gateway.Core.Errors.{Error, Result, ok, err}

abbrev pub Bytes : Type 0
Bytes = List ℕ

-- The kinds, from the most specific detector to the least, and others that a sidecar may name.
pub data Kind : Type 0 where
  email emirates_id card iban phone ip_address : Kind
  other : Bytes → Kind

pub record Match : Type 0 where
  pub kind : Kind
  pub start : ℕ
  pub stop : ℕ
  pub value : Bytes

abbrev pub is_digit : ℕ → Bool
is_digit c = leb b'0' c && leb c b'9'

-- digitsOf; a byte of a longer character is no digit.
unfoldable pub digits_of : Bytes → Bytes
digits_of s = filter is_digit s

-- The contribution of a digit to the sum of luhn.
unfoldable pub luhn_term : Bool → ℕ → ℕ
luhn_term false n = n
luhn_term true n = if ltb 9 (n * 2) then n * 2 - 9 else n * 2

-- The loop of luhn, on the digits from the last to the first.
unfoldable pub luhn_sum : Bool → Bytes → ℕ
luhn_sum double [] = 0
luhn_sum double (d ∷ ds) = luhn_term double (d - b'0') + luhn_sum (not double) ds

unfoldable pub backwards : Bytes → Bytes → Bytes
backwards [] out = out
backwards (x ∷ xs) out = backwards xs (x ∷ out)

-- luhn
unfoldable pub luhn : Bytes → Bool
luhn digits =
    if ltb (length digits) 12 then false else eqb (luhn_sum false (backwards digits []) % 10) 0

-- The value of a character of an IBAN.
unfoldable pub iban_value : ℕ → Option ℕ
iban_value c =
    if is_digit c
    then some (c - b'0')
    else if leb b'A' c && leb c b'Z'
    then some (c - b'A' + 10)
    else none

-- The loop of validIBAN.
unfoldable pub iban_remainder : ℕ → Bytes → Option ℕ
iban_remainder r [] = some r
iban_remainder r (c ∷ cs) = elim (iban_value c) [
  | none ↦ none
  | some v ↦ iban_remainder ((r * (if ltb 9 v then 100 else 10) + v) % 97) cs
]

abbrev is_one : Option ℕ → Bool
is_one none = false
is_one (some n) = eqb n 1

-- validIBAN
unfoldable pub valid_iban : Bytes → Bool
valid_iban s =
    if ltb (length s) 15 || ltb 34 (length s)
    then false
    else is_one (iban_remainder 0 (drop 4 s ++ take 4 s))

-- strings.Split at a byte.
unfoldable pub split : ℕ → Bytes → Bytes → List Bytes
split sep part [] = part ∷ []
split sep part (c ∷ cs) =
    if eqb c sep then part ∷ split sep [] cs else split sep (part ++ c ∷ []) cs

unfoldable pub number_of : ℕ → Bytes → ℕ
number_of n [] = n
number_of n (c ∷ cs) = number_of (n * 10 + (c - b'0')) cs

abbrev leading_zero : Bytes → Bool
leading_zero [] = false
leading_zero (c ∷ []) = false
leading_zero (c ∷ d ∷ cs) = eqb c b'0'

-- The loop of validIPv4 over the parts, which are digits.
unfoldable pub octets : List Bytes → Bool
octets [] = true
octets (p ∷ ps) = not (leading_zero p) && (not (ltb 255 (number_of 0 p)) && octets ps)

-- validIPv4
unfoldable pub valid_ipv4 : Bytes → Bool
valid_ipv4 s = let parts = split b'.' [] s in if eqb (length parts) 4 then octets parts else false

-- The `validate` of each detector.
unfoldable pub validates : Kind → Bytes → Bool
validates emirates_id s = luhn (digits_of s)
validates card s = luhn (digits_of s)
validates iban s = valid_iban s
validates ip_address s = valid_ipv4 s
validates email s = true
validates phone s = true
validates (other name) s = true

-- sortByStart, on the sorted part backwards: the new match passes those that start after it.
unfoldable pub sink : Match → List Match → List Match
sink m [] = m ∷ []
sink m (x ∷ xs) = if ltb m.start x.start then x ∷ sink m xs else m ∷ x ∷ xs

unfoldable pub sunk : List Match → List Match → List Match
sunk done [] = done
sunk done (m ∷ ms) = sunk (sink m done) ms

unfoldable pub turned : List Match → List Match → List Match
turned [] out = out
turned (x ∷ xs) out = turned xs (x ∷ out)

unfoldable pub sort_by_start : List Match → List Match
sort_by_start ms = turned (sunk [] ms) []

-- The loop of withoutOverlaps. No match starts before 0, so the end 0 is the code's -1.
unfoldable pub keep_from : ℕ → List Match → List Match
keep_from last [] = []
keep_from last (m ∷ ms) = if ltb m.start last then keep_from last ms else m ∷ keep_from m.stop ms

-- withoutOverlaps
unfoldable pub without_overlaps : List Match → List Match
without_overlaps [] = []
without_overlaps (m ∷ []) = m ∷ []
without_overlaps (m ∷ n ∷ ms) = keep_from 0 (sort_by_start (m ∷ n ∷ ms))

-- text[start:stop]
abbrev pub slice : Bytes → ℕ → ℕ → Bytes
slice text start stop = take (stop - start) (drop start text)

-- The spans that a kind's regular expression finds in a text.
abbrev pub Patterns : Type 0
Patterns = Kind → Bytes → List (ℕ × ℕ)

-- The inner loop of Detect.
unfoldable pub found : Kind → Bytes → List (ℕ × ℕ) → List Match
found kind text [] = []
found kind text ((start, stop) ∷ spans) =
    let value = slice text start stop in
    let rest = found kind text spans in
    if validates kind value
    then record { kind = kind; start = start; stop = stop; value = value } ∷ rest
    else rest

unfoldable pub found_all : Patterns → Bytes → List Kind → List Match
found_all patterns text [] = []
found_all patterns text (k ∷ ks) = found k text (patterns k text) ++ found_all patterns text ks

abbrev pub detectors : List Kind
detectors = email ∷ emirates_id ∷ card ∷ iban ∷ phone ∷ ip_address ∷ []

-- Detect
unfoldable pub detect : Patterns → Bytes → List Match
detect patterns text = without_overlaps (found_all patterns text detectors)

-- The loop of DetectAll, on what each detector returned.
unfoldable pub gathered : List (Result (List Match)) → List Match × List Error
gathered [] = ([], [])
gathered (ok ms ∷ rs) = let (all, errs) = gathered rs in (ms ++ all, errs)
gathered (err e ∷ rs) = let (all, errs) = gathered rs in (all, e ∷ errs)

-- DetectAll
unfoldable pub detect_all : List (Result (List Match)) → List Match × List Error
detect_all results = let (all, errs) = gathered results in (without_overlaps all, errs)
