-- ===== src/Prelude/Map.antt =====
-- Go's maps as association lists: an assignment to a key that is there replaces its value in
-- place, to another adds an entry. Where the source ranges over a map, the model takes the order
-- of the list.
use Prim.Native.Nat.{◌+◌}
use mathlib.Core.Path.{◌≡◌, refl}
use mathlib.Core.Logic.{inl, inr}
use mathlib.Core.Bool.{Bool}
use mathlib.Core.List.{List, [], ◌∷◌}
use mathlib.Core.Option.{Option, none, some}
use native.Mathlib.Omega.{arith}
use chainmaker.Prelude.Tests.{if◌then◌else◌, Bool-cases}
use chainmaker.Prelude.Lists.{length}
use chainmaker.Prelude.Eq.{Equality, ◌==◌, beq_self}

abbrev pub Map {ℓ κ} : Type ℓ → Type κ → Type (ℓ ⊔ κ)
Map K V = List (K × V)

abbrev pub keys {ℓ κ} : {K : Type ℓ} {V : Type κ} → Map K V → List K
keys [] = []
keys ((k, v) ∷ m) = k ∷ keys m

module _ {ℓ κ} {K : Type ℓ} {V : Type κ} ⦃e : Equality K⦄ where
  unfoldable pub lookup : K → Map K V → Option V
  lookup key [] = none
  lookup key ((at, value) ∷ more) = if at == key then some value else lookup key more

  unfoldable pub insert : K → V → Map K V → Map K V
  insert key new [] = (key, new) ∷ []
  insert key new ((at, value) ∷ more) =
      let rest = insert key new more in if at == key then (key, new) ∷ more else (at, value) ∷ rest

  -- The entries whose key fails the test: `delete` for one key, or a sweep over all.
  unfoldable pub discard : (K → Bool) → Map K V → Map K V
  discard p [] = []
  discard p ((j, v) ∷ m) = let rest = discard p m in if p j then rest else (j, v) ∷ rest

  unfoldable pub delete : K → Map K V → Map K V
  unfolding discard
  delete k m = discard (λ j. j == k) m

  -- No key stands twice.
  abbrev pub Distinct : Map K V → Type κ
  Distinct [] = Unit
  Distinct ((k, v) ∷ m) = (lookup k m ≡ none) × Distinct m

  pub lookup-insert :
      (k j : K) (v : V) (m : Map K V)
      → lookup j (insert k v m) ≡ (if k == j then some v else lookup j m)
  unfolding lookup insert
  lookup-insert key at v [] = refl
  lookup-insert key at v ((head, w) ∷ m) =
      ground (arith, e.agrees head key, e.agrees head at, e.agrees key at, lookup-insert key at v m)

  pub lookup-insert_self : (k : K) (v : V) (m : Map K V) → lookup k (insert k v m) ≡ some v
  lookup-insert_self k v m = rw (lookup-insert, beq_self k)

  pub lookup-discard :
      (p : K → Bool) (j : K) (m : Map K V)
      → lookup j (discard p m) ≡ (if p j then none else lookup j m)
  unfolding lookup discard
  lookup-discard p j [] = ground arith
  lookup-discard p j ((i, w) ∷ m) = elim (Bool-cases (i == j)) [
    | inl same ↦ rw ((e.agrees i j).0 same) (ground (arith, lookup-discard p j m, beq_self j))
    | inr other ↦ ground (arith, lookup-discard p j m)
  ]

  pub lookup-delete :
      (k j : K) (m : Map K V) → lookup j (delete k m) ≡ (if j == k then none else lookup j m)
  unfolding delete
  lookup-delete k j m = lookup-discard (λ i. i == k) j m

  pub length-insert_new :
      (k : K) (v : V) (m : Map K V) → lookup k m ≡ none → length (insert k v m) ≡ length m + 1
  unfolding lookup insert
  length-insert_new k v [] h = omega arith
  length-insert_new k v ((i, w) ∷ m) h = ground (arith, length-insert_new k v m)

  pub insert-Distinct : (k : K) (v : V) (m : Map K V) → Distinct m → Distinct (insert k v m)
  unfolding lookup insert
  insert-Distinct k v [] d = (refl, tt)
  insert-Distinct k v ((i, w) ∷ m) d =
      ground (arith, insert-Distinct k v m, lookup-insert k i v m, e.agrees i k, e.agrees k i)

  pub discard-Distinct : (p : K → Bool) (m : Map K V) → Distinct m → Distinct (discard p m)
  unfolding discard
  discard-Distinct p [] d = tt
  discard-Distinct p ((i, w) ∷ m) d = ground (arith, discard-Distinct p m, lookup-discard p i m)
