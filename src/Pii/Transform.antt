-- ===== src/Pii/Transform.antt =====
-- dataplane/internal/pii/transform.go: replacing matches, and putting the values back. The HMAC that
-- hashValue computes is a parameter.
use model_gateway.Common.{
  ℕ, zero, suc, ◌+◌, ◌/◌, ◌%◌, Bool, true, false, List, [], ◌∷◌, ◌++◌, none, some, ltb,
  if◌then◌else◌, length, drop, Map, lookup, insert, ℕ_comparable, List_comparable,
}
use model_gateway.Core.Identity.{is_empty}
use model_gateway.Pii.{
  Bytes, Kind, email, emirates_id, card, iban, phone, ip_address, other, Match, slice,
}

pub data Strategy : Type 0 where
  no_strategy redact hash tokenize : Strategy

abbrev pub is_none : Strategy → Bool
is_none no_strategy = true
is_none _ = false

abbrev pub is_tokenize : Strategy → Bool
is_tokenize tokenize = true
is_tokenize _ = false

-- The text of a Kind.
unfoldable pub kind_name : Kind → Bytes
kind_name email = b'E' ∷ b'M' ∷ b'A' ∷ b'I' ∷ b'L' ∷ []
kind_name phone = b'P' ∷ b'H' ∷ b'O' ∷ b'N' ∷ b'E' ∷ []
kind_name card = b'C' ∷ b'A' ∷ b'R' ∷ b'D' ∷ []
kind_name iban = b'I' ∷ b'B' ∷ b'A' ∷ b'N' ∷ []
kind_name ip_address = b'I' ∷ b'P' ∷ []
kind_name emirates_id =
    b'E' ∷ b'M' ∷ b'I' ∷ b'R' ∷ b'A' ∷ b'T' ∷ b'E' ∷ b'S' ∷ b'_' ∷ b'I' ∷ b'D' ∷ []
kind_name (other name) = name

-- The decimal digits of a number, in front of a text.
emit : ℕ → ℕ → Bytes → Bytes
emit zero n out = out
emit (suc fuel) n out =
    let rest = emit fuel (n / 10) ((n % 10 + b'0') ∷ out) in
    if ltb n 10 then (n % 10 + b'0') ∷ out else rest

-- %d of a number; as much fuel as the number has enough for its digits.
unfoldable pub decimal : ℕ → Bytes
unfolding emit
decimal n = emit (suc n) n []

-- fmt.Sprintf("%s%s_%d%s", …)
unfoldable pub placeholder : Kind → ℕ → Bytes
placeholder kind n = b'[' ∷ b'[' ∷ kind_name kind ++ (b'_' ∷ decimal n ++ (b']' ∷ b']' ∷ []))

pub record Transformed : Type 0 where
  pub payload : Bytes
  pub replacements : Map Bytes Bytes
  pub count : ℕ

-- The counters, by the kind's text.
abbrev pub next_number : Map Bytes ℕ → Kind → ℕ
next_number counters kind = elim (lookup (kind_name kind) counters) [ none ↦ 1 | some n ↦ suc n ]

module _ (hashed : Match → Bytes) where
  -- The loop of TransformMatches: the text written so far, and the replacements.
  unfoldable pub rewrite :
      Strategy → Bytes → ℕ → Map Bytes ℕ → Map Bytes Bytes → List Match → Bytes × Map Bytes Bytes
  rewrite how text last counters replacements [] = (drop last text, replacements)
  rewrite how text last counters replacements (m ∷ ms) =
      let n = next_number counters m.kind in
      let counted = insert (kind_name m.kind) n counters in
      let label = placeholder m.kind n in
      let before = slice text last m.start in
      elim how [
        | no_strategy ↦
            let (rest, all) = rewrite no_strategy text m.stop counters replacements ms in
            (before ++ (m.value ++ rest), all)
        | hash ↦
            let (rest, all) = rewrite hash text m.stop counters replacements ms in
            (before ++ (hashed m ++ rest), all)
        | redact ↦
            let (rest, all) = rewrite redact text m.stop counted replacements ms in
            (before ++ (label ++ rest), all)
        | tokenize ↦
            let (rest, all) =
              rewrite tokenize text m.stop counted (insert label m.value replacements) ms in
            (before ++ (label ++ rest), all)
      ]

  -- TransformMatches
  unfoldable pub transform_matches : Bytes → List Match → Strategy → Transformed
  transform_matches payload matches how =
      let (text, all) = rewrite how payload 0 [] [] matches in
      if is_none how
      then record { payload = payload; replacements = []; count = 0 }
      else if is_empty matches
      then record { payload = payload; replacements = []; count = 0 }
      else record { payload = text; replacements = all; count = length matches }

-- The loop of Restore over the spans where the placeholder pattern matches.
unfoldable pub put_back : Map Bytes Bytes → Bytes → ℕ → List (ℕ × ℕ) → Bytes
put_back replacements text last [] = drop last text
put_back replacements text last ((start, stop) ∷ spans) =
    let label = slice text start stop in
    slice text last start
    ++ (elim (lookup label replacements) [ none ↦ label | some original ↦ original ]
        ++ put_back replacements text stop spans)

-- Restore; `spans` is what the placeholder pattern finds.
unfoldable pub restore : (Bytes → List (ℕ × ℕ)) → Bytes → Map Bytes Bytes → Bytes
restore spans payload [] = payload
restore spans payload (r ∷ rs) = put_back (r ∷ rs) payload 0 (spans payload)
