-- ===== src/Pii/Tests.antt =====
-- Matches at a concrete input: a card number inside of a longer match, and one apart.
use model_gateway.Common.{
  ◌≤◌, true, length, eqb, if◌then◌else◌, Map, ℕ_comparable, List_comparable, ℕ, ◌≡◌, refl, List, [],
  ◌∷◌, Memᴰ, lookup, insert,
}
use model_gateway.Pii.{
  Bytes, Kind, email, card, phone, Match, sort_by_start, sink, sunk, turned, keep_from,
  without_overlaps, luhn, digits_of, luhn_sum, backwards, luhn_term,
}
use model_gateway.Pii.Stream.{
  new_restorer, push, flush, relay, release_safe, substitute, pending_tail, last_open, has_close,
  ends_open, lone_bracket, missing,
}
use model_gateway.Pii.Stream.Pieces.{joined, Relayed, relay-Relayed, push_held}
use model_gateway.Pii.Overlaps.{Among, Apart, Covered, without_overlaps-Apart}
use model_gateway.Pii.Transform.{
  tokenize, transform_matches, rewrite, placeholder, decimal, kind_name, restore, put_back,
}

abbrev at : Kind → ℕ → ℕ → Match
at kind start stop = record { kind = kind; start = start; stop = stop; value = b'x' ∷ b'y' ∷ [] }

abbrev three : List Match
three = at phone 12 20 ∷ at email 0 9 ∷ at card 5 11 ∷ []

without_overlaps-Apart_example :
    Among three (without_overlaps three)
    × Apart 0 (without_overlaps three)
    × Covered (at email 0 9) (without_overlaps three)
without_overlaps-Apart_example =
    without_overlaps-Apart three (at email 0 9) (Memᴰ.tail (Memᴰ.head refl))

two_are_kept : without_overlaps three ≡ at email 0 9 ∷ at phone 12 20 ∷ []
unfolding without_overlaps sort_by_start sunk sink turned keep_from
two_are_kept = refl

abbrev said : Bytes
said = b'o' ∷ b'f' ∷ b' ' ∷ b'x' ∷ b'y' ∷ b'.' ∷ []

abbrev said_of : Bytes
said_of =
    b'o' ∷ b'f' ∷ b' ' ∷ b'[' ∷ b'[' ∷ b'C' ∷ b'A' ∷ b'R' ∷ b'D' ∷ b'_' ∷ b'1' ∷ b']' ∷ b']' ∷ b'.'
    ∷ []

a_card_is_tokenised :
    (transform_matches (λ m. []) said (at card 3 5 ∷ []) tokenize).payload ≡ said_of
unfolding transform_matches rewrite placeholder decimal kind_name lookup
a_card_is_tokenised = refl

a_card_is_restored :
    restore
      (λ text. (3, 13) ∷ [])
      said_of
      (transform_matches (λ m. []) said (at card 3 5 ∷ []) tokenize).replacements
    ≡ said
unfolding restore put_back transform_matches rewrite placeholder decimal kind_name lookup insert
a_card_is_restored = refl

a_card_number :
    luhn (
      digits_of (
        b'4' ∷ b'1' ∷ b'1' ∷ b'1' ∷ b'-' ∷ b'1' ∷ b'1' ∷ b'1' ∷ b'1' ∷ b'-' ∷ b'1' ∷ b'1' ∷ b'1'
        ∷ b'1' ∷ b'-' ∷ b'1' ∷ b'1' ∷ b'1' ∷ b'1' ∷ []))
    ≡ true
unfolding luhn digits_of luhn_sum backwards luhn_term
a_card_number = refl

abbrev issued : Map Bytes Bytes
issued = (b'[' ∷ b'[' ∷ b'E' ∷ b'_' ∷ b'1' ∷ b']' ∷ b']' ∷ [], b'a' ∷ b'@' ∷ b'b' ∷ []) ∷ []

-- The only text with a placeholder here is the placeholder.
abbrev one_label : Bytes → List (ℕ × ℕ)
one_label text = if eqb (length text) 7 then (0, 7) ∷ [] else []

abbrev two_chunks : List Bytes
two_chunks = (b'[' ∷ b'[' ∷ b'E' ∷ []) ∷ (b'_' ∷ b'1' ∷ b']' ∷ b']' ∷ []) ∷ []

relay-Relayed_example :
    Relayed one_label issued (joined two_chunks) (relay one_label (new_restorer issued) two_chunks)
relay-Relayed_example = relay-Relayed one_label issued two_chunks refl

push_held_example :
    length (push one_label (new_restorer issued) (b'[' ∷ b'[' ∷ b'E' ∷ [])).0.held ≤ 64
push_held_example = push_held one_label (new_restorer issued) (b'[' ∷ b'[' ∷ b'E' ∷ []) refl

split_placeholder_is_restored :
    relay one_label (new_restorer issued) two_chunks ≡ b'a' ∷ b'@' ∷ b'b' ∷ []
unfolding relay push flush release_safe substitute put_back pending_tail last_open has_close
    ends_open lone_bracket lookup missing
split_placeholder_is_restored = refl
