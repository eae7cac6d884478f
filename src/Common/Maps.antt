-- ===== src/Common/Maps.antt =====
-- Go's `map` as an association list. Go iterates in an unspecified order; here it is the list's.
use mathlib.Core.Path.{◌≡◌, refl}
use mathlib.Core.List.{List, [], ◌∷◌}
use mathlib.Core.Option.{Option, none, some}
use native.Mathlib.Omega.{arith}
use model_gateway.Common.Tests.{if◌then◌else◌}
use model_gateway.Common.Keys.{Comparable, ◌==◌, same_refl}

abbrev pub Map {ℓ κ} : Type ℓ → Type κ → Type (ℓ ⊔ κ)
Map K V = List (K × V)

module _ {ℓ κ} {K : Type ℓ} {V : Type κ} ⦃c : Comparable K⦄ where
  -- v, ok := m[k]
  unfoldable pub lookup : K → Map K V → Option V
  lookup key [] = none
  lookup key ((other, value) ∷ rest) = if other == key then some value else lookup key rest

  -- m[k] = v
  unfoldable pub insert : K → V → Map K V → Map K V
  insert key value [] = (key, value) ∷ []
  insert key value ((other, old) ∷ rest) =
      if other == key then (key, value) ∷ rest else (other, old) ∷ insert key value rest

  -- delete(m, k)
  unfoldable pub delete : K → Map K V → Map K V
  delete k [] = []
  delete k ((j, w) ∷ m) = if j == k then delete k m else (j, w) ∷ delete k m

  pub lookup-insert :
      (key asked : K) (value : V) (m : Map K V)
      → lookup asked (insert key value m) ≡ (if key == asked then some value else lookup asked m)
  unfolding insert lookup
  lookup-insert key asked value [] = refl
  lookup-insert key asked value ((here, old) ∷ rest) =
      let later = lookup-insert key asked value rest in
      ground (arith, later, c.same_iff key asked, c.same_iff here key, c.same_iff here asked)

  pub lookup-insert_self : (k : K) (v : V) (m : Map K V) → lookup k (insert k v m) ≡ some v
  lookup-insert_self k v m = rw (lookup-insert, same_refl)

  pub lookup-delete :
      (k j : K) (m : Map K V) → lookup j (delete k m) ≡ (if k == j then none else lookup j m)
  unfolding lookup delete
  lookup-delete k j [] = ground arith
  lookup-delete k j ((i, w) ∷ m) =
      ground (arith, c.same_iff k j, c.same_iff i k, c.same_iff i j, lookup-delete k j m)

  -- Go's maps hold a key once.
  abbrev pub Distinct : Map K V → Type κ
  Distinct [] = Unit
  Distinct ((k, v) ∷ m) = (lookup k m ≡ none) × Distinct m

  pub Distinct-insert : (k : K) (v : V) (m : Map K V) → Distinct m → Distinct (insert k v m)
  unfolding lookup insert
  Distinct-insert k v [] d = (refl, tt)
  Distinct-insert k v ((j, w) ∷ m) d =
      ground
        (arith, lookup-insert k j v m, c.same_iff j k, c.same_iff k j, Distinct-insert k v m d.1)

  pub Distinct-delete : (k : K) (m : Map K V) → Distinct m → Distinct (delete k m)
  unfolding lookup delete
  Distinct-delete k [] d = tt
  Distinct-delete k ((j, w) ∷ m) d = ground (arith, lookup-delete k j m, Distinct-delete k m d.1)

  -- The keys and the values, in the order of iteration.
  abbrev pub keys : Map K V → List K
  keys [] = []
  keys ((k, v) ∷ m) = k ∷ keys m

  abbrev pub values : Map K V → List V
  values [] = []
  values ((k, v) ∷ m) = v ∷ values m
