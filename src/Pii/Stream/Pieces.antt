-- ===== src/Pii/Stream/Pieces.antt =====
-- What the Restorer relays of a response.
use model_gateway.Common.{
  ℕ, zero, suc, ◌-◌, ◌≤◌, min, ◌≡◌, refl, sym, subst, ap, ◌∙◌, inl, inr, true, false, not, List, [],
  ◌∷◌, ◌++◌, map, eqb, length, take, drop, Map, arith, Bool-cases, Option-cases, append_assoc,
  append_nil,
}
use model_gateway.Core.Identity.{is_empty}
use model_gateway.Pii.{Bytes}
use model_gateway.Pii.Stream.{
  Restorer, max_placeholder_len, active, last_open, has_close, lone_bracket, pending_tail,
  substitute, missing, release_safe, push, flush, relay, new_restorer,
}

unfoldable pub joined : List Bytes → Bytes
joined [] = []
joined (x ∷ xs) = x ++ joined xs

take-drop : (n : ℕ) (xs : Bytes) → take n xs ++ drop n xs ≡ xs
take-drop zero xs = refl
take-drop (suc n) [] = refl
take-drop (suc n) (x ∷ xs) = ap (λ l. x ∷ l) (take-drop n xs)

nothing_held : (held : Bytes) → is_empty held ≡ true → held ≡ []
nothing_held [] h = refl
nothing_held (c ∷ cs) h = let no : false ≡ true = h in cc

module _ (spans : Bytes → List (ℕ × ℕ)) where
  -- A text cut into pieces, and what is left of it once each is substituted.
  pub data Relayed (replacements : Map Bytes Bytes) (text out : Bytes) : Type 0 where
    relayed :
        (pieces : List Bytes)
        → joined pieces ≡ text
        → joined (map (substitute spans replacements) pieces) ≡ out
        → Relayed replacements text out

  one_piece :
      (replacements : Map Bytes Bytes) (piece text out : Bytes)
      → Relayed replacements text out
      → Relayed replacements (piece ++ text) (substitute spans replacements piece ++ out)
  unfolding joined
  one_piece replacements piece text out (relayed pieces e f) =
      relayed (piece ∷ pieces) (ap (λ l. piece ++ l) e)
        (ap (λ l. substitute spans replacements piece ++ l) f)

  push-active :
      (r : Restorer) (chunk : Bytes)
      → active r ≡ true
      → push spans r chunk ≡ release_safe spans r (r.held ++ chunk)
  unfolding push
  push-active r chunk a = rw a refl

  flush-Relayed : (r : Restorer) → active r ≡ true → Relayed r.replacements r.held (flush spans r).1
  unfolding flush joined
  flush-Relayed r a = elim (Bool-cases (is_empty r.held)) [
    | inl q ↦ rw (a, q) (relayed [] (sym (nothing_held r.held q)) refl)
    | inr q ↦
        rw (a, q)
          (relayed (r.held ∷ []) (append_nil r.held)
            (append_nil (substitute spans r.replacements r.held)))
  ]

  -- What one push leaves: the rest of the response comes behind what is held.
  release_safe-Relayed :
      (r : Restorer) (text more out : Bytes)
      → let (r', now) = release_safe spans r text in
        Relayed r.replacements (r'.held ++ more) out
        → Relayed r.replacements (text ++ more) (now ++ out)
  unfolding release_safe missing
  release_safe-Relayed r text more out h =
      let safe = length text - pending_tail text in
      let Goes : Restorer × Bytes → Type 0 = λ x.
        Relayed r.replacements (x.0.held ++ more) out
        → Relayed r.replacements (text ++ more) (x.1 ++ out) in
      elim (Bool-cases (eqb safe 0)) [
        | inl q ↦
            let e : release_safe spans r text ≡ (record r { held = text }, []) = rw q refl in
            subst Goes (sym e) (λ k. k) h
        | inr q ↦
            let e : release_safe spans r text ≡ (
              record (missing spans r (take safe text)) { held = drop safe text },
              substitute spans r.replacements (take safe text),
            ) =
              rw q refl in
            let whole : take safe text ++ (drop safe text ++ more) ≡ text ++ more =
              sym (append_assoc (take safe text) (drop safe text) more)
              ∙ ap (λ l. l ++ more) (take-drop safe text) in
            subst Goes (sym e)
              (λ k.
                subst
                  (λ t.
                    Relayed r.replacements t
                      (substitute spans r.replacements (take safe text) ++ out))
                  whole (one_piece r.replacements (take safe text) (drop safe text ++ more) out k))
              h
      ]

  release_safe-replacements :
      (r : Restorer) (text : Bytes) → (release_safe spans r text).0.replacements ≡ r.replacements
  unfolding release_safe missing
  release_safe-replacements r text = elim (Bool-cases (eqb (length text - pending_tail text) 0)) [
    | inl q ↦ rw q refl
    | inr q ↦ rw q refl
  ]

  relay_from :
      (replacements : Map Bytes Bytes) (r : Restorer) (chunks : List Bytes)
      → r.replacements ≡ replacements
      → not (is_empty replacements) ≡ true
      → Relayed replacements (r.held ++ joined chunks) (relay spans r chunks)
  unfolding relay joined
  relay_from replacements r [] e a =
      subst (λ t. Relayed replacements t (flush spans r).1) (sym (append_nil r.held))
        (subst (λ m. Relayed m r.held (flush spans r).1) e
          (flush-Relayed r (subst (λ m. not (is_empty m) ≡ true) (sym e) a)))
  relay_from replacements r (chunk ∷ chunks) e a =
      let text = r.held ++ chunk in
      let here : active r ≡ true = subst (λ m. not (is_empty m) ≡ true) (sym e) a in
      let pushed : push spans r chunk ≡ release_safe spans r text = push-active r chunk here in
      let next = release_safe spans r text in
      let rest = relay_from replacements next.0 chunks (release_safe-replacements r text ∙ e) a in
      let all = release_safe-Relayed r text (joined chunks) (relay spans next.0 chunks) (
        subst (λ m. Relayed m (next.0.held ++ joined chunks) (relay spans next.0 chunks)) (sym e)
          rest) in
      subst
        (λ x.
          Relayed replacements (r.held ++ (chunk ++ joined chunks)) (x.1 ++ relay spans x.0 chunks))
        (sym pushed)
        (subst (λ t. Relayed replacements t (next.1 ++ relay spans next.0 chunks))
          (append_assoc r.held chunk (joined chunks))
          (subst (λ m. Relayed m (text ++ joined chunks) (next.1 ++ relay spans next.0 chunks)) e
            all))

  -- Where there is something to restore, pushing the chunks of a response and flushing at its end
  -- relays the response cut into pieces in some way, with each piece substituted: however the chunks
  -- fall, nothing of the response is lost, repeated or moved.
  pub relay-Relayed :
      (replacements : Map Bytes Bytes) (chunks : List Bytes)
      → not (is_empty replacements) ≡ true
      → Relayed replacements (joined chunks) (relay spans (new_restorer replacements) chunks)
  relay-Relayed replacements chunks a =
      relay_from replacements (new_restorer replacements) chunks refl a

length-drop : (n : ℕ) (xs : Bytes) → length (drop n xs) ≡ length xs - n
length-drop zero xs = omega arith
length-drop (suc n) [] = omega arith
length-drop (suc n) (x ∷ xs) = omega (arith, length-drop n xs)

lone_bracket-le : (text : Bytes) → lone_bracket text ≤ 1
unfolding lone_bracket
lone_bracket-le text = ground arith

pending_tail-le : (text : Bytes) → pending_tail text ≤ max_placeholder_len
unfolding pending_tail
pending_tail-le text =
    let window = min max_placeholder_len (length text) in
    let tail = drop (length text - window) text in
    let one = lone_bracket-le text in
    elim (Option-cases (last_open tail)) [
      | inl e ↦ rw (e, pending_tail) (omega (arith, one))
      | inr (at, e) ↦
          rw (e, pending_tail)
            (elim (Bool-cases (has_close (drop at tail))) [
              | inl q ↦ rw q (omega (arith, one))
              | inr q ↦ rw q (omega arith)
            ])
    ]

-- After a push, an active Restorer holds back at most the length of a placeholder, whatever it held
-- before and however long the chunk is.
pub push_held :
    (spans : Bytes → List (ℕ × ℕ)) (r : Restorer) (chunk : Bytes)
    → active r ≡ true
    → length (push spans r chunk).0.held ≤ max_placeholder_len
unfolding release_safe
push_held spans r chunk a =
    let text = r.held ++ chunk in
    let le = pending_tail-le text in
    let dropped = length-drop (length text - pending_tail text) text in
    subst (λ x. length x.0.held ≤ max_placeholder_len) (sym (push-active spans r chunk a))
      (elim (Bool-cases (eqb (length text - pending_tail text) 0)) [
        | inl q ↦ rw q (ground (arith, q, le))
        | inr q ↦ rw q (omega (arith, le, dropped))
      ])
