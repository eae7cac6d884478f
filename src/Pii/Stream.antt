-- ===== src/Pii/Stream.antt =====
-- dataplane/internal/pii/stream.go: the Restorer, which puts values back into a response that comes in
-- chunks. The spans of the placeholder pattern are a parameter, as in Restore.
pub mod Pieces
use model_gateway.Common.{
  ℕ, suc, ◌+◌, ◌-◌, min, Bool, true, false, not, ◌&&◌, List, [], ◌∷◌, ◌++◌, Option, none, some,
  is_some, eqb, if◌then◌else◌, length, take, drop, Map, lookup, ℕ_comparable, List_comparable,
}
use model_gateway.Core.Identity.{is_empty}
use model_gateway.Pii.{Bytes, slice}
use model_gateway.Pii.Transform.{put_back}

abbrev pub max_placeholder_len : ℕ
max_placeholder_len = 64

pub record Restorer : Type 0 where
  pub replacements : Map Bytes Bytes
  pub held : Bytes
  pub misses : ℕ

-- NewRestorer
abbrev pub new_restorer : Map Bytes Bytes → Restorer
new_restorer replacements = record { replacements = replacements; held = []; misses = 0 }

-- Active
abbrev pub active : Restorer → Bool
active r = not (is_empty r.replacements)

abbrev starts_with : ℕ → Bytes → Bool
starts_with b [] = false
starts_with b (c ∷ cs) = eqb c b

-- strings.LastIndex of "[[".
unfoldable pub last_open : Bytes → Option ℕ
last_open [] = none
last_open (c ∷ cs) = elim (last_open cs) [
  | some n ↦ some (suc n)
  | none ↦ if eqb c b'[' && starts_with b'[' cs then some 0 else none
]

-- strings.Contains of "]]".
unfoldable pub has_close : Bytes → Bool
has_close [] = false
has_close (c ∷ cs) =
    let rest = has_close cs in if eqb c b']' && starts_with b']' cs then true else rest

unfoldable pub ends_open : Bytes → Bool
ends_open [] = false
ends_open (c ∷ []) = eqb c b'['
ends_open (c ∷ d ∷ cs) = ends_open (d ∷ cs)

-- The end of pendingTail.
unfoldable pub lone_bracket : Bytes → ℕ
lone_bracket text = if ends_open text then 1 else 0

-- pendingTail
unfoldable pub pending_tail : Bytes → ℕ
pending_tail text =
    let window = min max_placeholder_len (length text) in
    let tail = drop (length text - window) text in
    elim (last_open tail) [
      | none ↦ lone_bracket text
      | some at ↦ if not (has_close (drop at tail)) then window - at else lone_bracket text
    ]

-- The placeholders among some spans that were never issued.
unfoldable pub unissued : Map Bytes Bytes → Bytes → List (ℕ × ℕ) → ℕ
unissued replacements text [] = 0
unissued replacements text ((start, stop) ∷ spans) =
    let rest = unissued replacements text spans in
    if is_some (lookup (slice text start stop) replacements) then rest else suc rest

module _ (spans : Bytes → List (ℕ × ℕ)) where
  -- substitute: the text, and the restorer with its misses.
  unfoldable pub substitute : Map Bytes Bytes → Bytes → Bytes
  substitute replacements text = put_back replacements text 0 (spans text)

  unfoldable pub missing : Restorer → Bytes → Restorer
  missing r text = record r { misses = r.misses + unissued r.replacements text (spans text) }

  -- Push, of a restorer that is active, from the text that it then holds.
  unfoldable pub release_safe : Restorer → Bytes → Restorer × Bytes
  release_safe r text =
      let safe = length text - pending_tail text in
      if eqb safe 0 then (record r { held = text }, []) else (
        record (missing r (take safe text)) { held = drop safe text },
        substitute r.replacements (take safe text),
      )

  -- Push
  unfoldable pub push : Restorer → Bytes → Restorer × Bytes
  push r chunk = if not (active r) then (r, chunk) else release_safe r (r.held ++ chunk)

  -- Flush
  unfoldable pub flush : Restorer → Restorer × Bytes
  flush r =
      if not (active r)
      then (r, [])
      else if is_empty r.held
      then (r, [])
      else (record (missing r r.held) { held = [] }, substitute r.replacements r.held)

  -- The transport's use of it: every chunk is pushed, and the end is flushed.
  unfoldable pub relay : Restorer → List Bytes → Bytes
  relay r [] = (flush r).1
  relay r (chunk ∷ chunks) = let (r', out) = push r chunk in out ++ relay r' chunks
