-- ===== src/Router/Selection/Order.antt =====
-- The order of the candidates that Select returns.
use model_gateway.Common.{◌≡◌, inl, inr, true, false, List, [], ◌∷◌, All, Bool-cases}
use model_gateway.Router.Floats.{Floats}
use model_gateway.Router.Selection.{Candidate, place, by_score}

-- Documented of `>` on floats other than NaN, on which `Usable` holds.
pub record Ordered {F : Type 0} (fl : Floats F) (Usable : F → Type 0) : Type 0 where
  pub irreversible : (a b : F) → fl.greater a b ≡ true → fl.greater b a ≡ false
  pub between :
      (a b c : F)
      → Usable a
      → Usable b
      → Usable c
      → fl.greater a b ≡ false
      → fl.greater b c ≡ false
      → fl.greater a c ≡ false

module _ {F : Type 0} (fl : Floats F) (Usable : F → Type 0) (laws : Ordered fl Usable) where
  -- Nobody behind a candidate exceeds it.
  abbrev pub Descending : List (Candidate F) → Type 0
  Descending [] = Unit
  Descending (c ∷ cs) = All (λ x. fl.greater x.score c.score ≡ false) cs × Descending cs

  abbrev pub AllUsable : List (Candidate F) → Type 0
  AllUsable cs = All (λ c. Usable c.score) cs

  place-All :
      (P : Candidate F → Type 0) (c : Candidate F) (cs : List (Candidate F))
      → P c
      → All P cs
      → All P (place fl c cs)
  unfolding place
  place-All P c [] h hs = (h, tt)
  place-All P c (x ∷ xs) h hs = elim (Bool-cases (fl.greater x.score c.score)) [
    | inl e ↦ rw e (hs.0, place-All P c xs h hs.1)
    | inr e ↦ rw e (h, hs)
  ]

  below :
      (c x : Candidate F) (xs : List (Candidate F))
      → Usable c.score
      → Usable x.score
      → AllUsable xs
      → fl.greater x.score c.score ≡ false
      → All (λ y. fl.greater y.score x.score ≡ false) xs
      → All (λ y. fl.greater y.score c.score ≡ false) xs
  below c x [] uc ux us e h = tt
  below c x (y ∷ ys) uc ux us e h =
      (laws.between y.score x.score c.score us.0 ux uc h.0 e, below c x ys uc ux us.1 e h.1)

  place-Descending :
      (c : Candidate F) (cs : List (Candidate F))
      → Usable c.score
      → AllUsable cs
      → Descending cs
      → Descending (place fl c cs)
  unfolding place
  place-Descending c [] uc us d = (tt, tt)
  place-Descending c (x ∷ xs) uc us d = elim (Bool-cases (fl.greater x.score c.score)) [
    | inl e ↦ rw e (
      place-All (λ y. fl.greater y.score x.score ≡ false) c xs (laws.irreversible x.score c.score e)
          d.0,
      place-Descending c xs uc us.1 d.1,
    )
    | inr e ↦ rw e ((e, below c x xs uc us.0 us.1 e d.0), d)
  ]

  -- The sort leaves no candidate behind one with a lower score, where no score is NaN.
  pub by_score-Descending : (cs : List (Candidate F)) → AllUsable cs → Descending (by_score fl cs)
  unfolding by_score
  by_score-Descending [] us = tt
  by_score-Descending (c ∷ cs) us =
      place-Descending c (by_score fl cs) us.0 (usable cs us.1) (by_score-Descending cs us.1)
    where
      usable : (l : List (Candidate F)) → AllUsable l → AllUsable (by_score fl l)
      usable [] h = tt
      usable (x ∷ xs) h = place-All (λ y. Usable y.score) x (by_score fl xs) h.0 (usable xs h.1)
