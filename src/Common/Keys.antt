-- ===== src/Common/Keys.antt =====
-- Decidable equality of map keys as an interface, with Go's `==` for the types that have it.
use Prim.Native.Nat.{ℕ}
use Prim.Native.String.{String}
use mathlib.Core.Path.{◌≡◌, refl}
use mathlib.Core.Bool.{Bool, true, false, ◌&&◌, ◌||◌}
use mathlib.Core.Logic.{◌↔◌, inl, inr}
use mathlib.Core.List.{List, [], ◌∷◌, Memᴰ}
use native.Mathlib.Omega.{arith}
use text.Mathlib.Text.{◌==◌ as str_eq}
use text.Mathlib.TextEquality.{eq_iff}
use model_gateway.Common.Tests.{eqb, eqb_iff, Bool-cases}

pub record Comparable {ℓ} (K : Type ℓ) : Type ℓ where
  pub same : K → K → Bool
  pub same_iff : (a b : K) → (same a b ≡ true) ↔ (a ≡ b)

infix 50 ◌==◌
abbrev pub ◌==◌ {ℓ} : {K : Type ℓ} ⦃c : Comparable K⦄ → K → K → Bool
◌==◌ ⦃c⦄ = c.same

instance abbrev pub ℕ_comparable : Comparable ℕ
ℕ_comparable = record { same = eqb; same_iff = eqb_iff }

instance abbrev pub String_comparable : Comparable String
String_comparable = record { same = str_eq; same_iff = eq_iff }

module _ {ℓ} {K : Type ℓ} ⦃c : Comparable K⦄ where
  -- slices.Contains
  abbrev pub contains : List K → K → Bool
  contains [] k = false
  contains (x ∷ xs) k = x == k || contains xs k

  pub contains→Memᴰ : (xs : List K) (k : K) → contains xs k ≡ true → Memᴰ k xs
  contains→Memᴰ [] k h = cc
  contains→Memᴰ (x ∷ xs) k h = elim (Bool-cases (x == k)) [
    | inl e ↦ Memᴰ.head (ground (arith, c.same_iff x k))
    | inr e ↦ Memᴰ.tail (contains→Memᴰ xs k (ground arith))
  ]

  pub Memᴰ→contains : {k : K} {xs : List K} → Memᴰ k xs → contains xs k ≡ true
  Memᴰ→contains {k = k} (Memᴰ.head {x = x} e) = ground (arith, c.same_iff x k)
  Memᴰ→contains {k = k} (Memᴰ.tail {x = x} m) = ground (arith, Memᴰ→contains m)

  pub contains_iff : (xs : List K) (k : K) → (contains xs k ≡ true) ↔ Memᴰ k xs
  contains_iff xs k = (contains→Memᴰ xs k, λ m. Memᴰ→contains m)

  pub same_refl : (k : K) → (k == k) ≡ true
  same_refl k = (c.same_iff k k).1 refl

  abbrev pub list_same : List K → List K → Bool
  list_same [] [] = true
  list_same (x ∷ xs) (y ∷ ys) = x == y && list_same xs ys
  list_same _ _ = false

  pub list_same_iff : (xs ys : List K) → (list_same xs ys ≡ true) ↔ (xs ≡ ys)
  list_same_iff [] [] = (λ _. refl, λ _. refl)
  list_same_iff [] (y ∷ ys) = (λ e. cc, λ e. cc)
  list_same_iff (x ∷ xs) [] = (λ e. cc, λ e. cc)
  list_same_iff (x ∷ xs) (y ∷ ys) = (
    λ e. ground (arith, c.same_iff x y, list_same_iff xs ys),
    λ e. ground (arith, c.same_iff x y, list_same_iff xs ys),
  )

  instance abbrev pub List_comparable : Comparable (List K)
  List_comparable = record { same = list_same; same_iff = list_same_iff }
