-- ===== src/Tbft/Caches/Counting.antt =====
-- How many numbers a map without double keys can have in an interval.
use chainmaker.Prelude.{ℕ, zero, suc, ◌+◌, ◌≤◌, ◌<◌, ◌≡◌, refl, Bool, false, none, [], ◌∷◌, arith}
use chainmaker.Prelude.Tests.{nat_eq}
use chainmaker.Prelude.Lists.{length, All}
use chainmaker.Prelude.Eq.{nat_instance}
use chainmaker.Prelude.Map.{Map, lookup, insert, discard, Distinct, discard-Distinct}

module _ {V : Type 0} where
  -- All keys lie in the half-open interval.
  abbrev pub IsWithin : ℕ → ℕ → Map ℕ V → Type 0
  IsWithin lo hi = All (λ e. (lo ≤ e.0) × (e.0 < hi))

  pub insert-IsWithin :
      (lo hi k : ℕ) (v : V) (m : Map ℕ V)
      → lo ≤ k
      → k < hi
      → IsWithin lo hi m
      → IsWithin lo hi (insert k v m)
  unfolding insert
  insert-IsWithin lo hi k v [] a b w = ((a, b), tt)
  insert-IsWithin lo hi k v ((j, x) ∷ m) a b w = ground (arith, insert-IsWithin lo hi k v m)

  -- A sweep keeps the bounds, and narrows them where its test says so.
  pub discard-IsWithin :
      (lo hi lo' : ℕ) (p : ℕ → Bool) (m : Map ℕ V)
      → ((k : ℕ) → lo ≤ k → k < hi → p k ≡ false → lo' ≤ k)
      → IsWithin lo hi m
      → IsWithin lo' hi (discard p m)
  unfolding discard
  discard-IsWithin lo hi lo' p [] f w = tt
  discard-IsWithin lo hi lo' p ((j, x) ∷ m) f w =
      ground (arith, f j, discard-IsWithin lo hi lo' p m f)

  pub IsWithin-mono :
      (lo hi lo' hi' : ℕ) (m : Map ℕ V)
      → lo' ≤ lo
      → hi ≤ hi'
      → IsWithin lo hi m
      → IsWithin lo' hi' m
  IsWithin-mono lo hi lo' hi' [] a b w = tt
  IsWithin-mono lo hi lo' hi' ((j, x) ∷ m) a b w =
      ((omega arith, omega arith), IsWithin-mono lo hi lo' hi' m a b w.1)

  discard-none :
      (k : ℕ) (m : Map ℕ V) → lookup k m ≡ none → length (discard (λ j. nat_eq j k) m) ≡ length m
  unfolding discard lookup
  discard-none k [] e = refl
  discard-none k ((j, x) ∷ m) e = ground (arith, discard-none k m)

  length-discard_one :
      (k : ℕ) (m : Map ℕ V) → Distinct m → length m ≤ length (discard (λ j. nat_eq j k) m) + 1
  unfolding discard
  length-discard_one k [] d = omega arith
  length-discard_one k ((j, x) ∷ m) d = ground (arith, length-discard_one k m, discard-none k m)

  discard-top :
      (lo n : ℕ) (m : Map ℕ V)
      → IsWithin lo (lo + suc n) m
      → IsWithin lo (lo + n) (discard (λ j. nat_eq j (lo + n)) m)
  unfolding discard
  discard-top lo n [] w = tt
  discard-top lo n ((j, x) ∷ m) w = ground (arith, discard-top lo n m)

  pub length-le_of_IsWithin :
      (lo n : ℕ) (m : Map ℕ V) → Distinct m → IsWithin lo (lo + n) m → length m ≤ n
  length-le_of_IsWithin lo zero [] d w = omega arith
  length-le_of_IsWithin lo zero (e ∷ m) d w = absurd (omega arith)
  length-le_of_IsWithin lo (suc n) m d w =
      let p = λ (j : ℕ). nat_eq j (lo + n) in
      omega (
        arith,
        length-discard_one (lo + n) m d,
        length-le_of_IsWithin lo n (discard p m) (discard-Distinct p m d) (discard-top lo n m w),
      )
