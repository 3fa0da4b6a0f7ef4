-- ===== src/Prelude/Eq.antt =====
-- Types with a Boolean equality that agrees with the path: numbers, and byte strings. A Go
-- `string` and the content of a `[]byte` are lists of bytes here.
use Prim.Native.Nat.{ℕ}
use Prim.Native.Char.{code}
use Prim.Native.String.{String}
use mathlib.Core.Path.{◌≡◌, refl}
use mathlib.Core.Logic.{◌≢◌, ◌↔◌}
use mathlib.Core.Bool.{Bool, true, false, ◌&&◌}
use mathlib.Core.List.{List, [], ◌∷◌}
use native.Mathlib.Omega.{arith}
use chainmaker.Prelude.Tests.{nat_eq, nat_eq_iff, ltb, if◌then◌else◌}

pub record Equality {ℓ} (A : Type ℓ) : Type ℓ where
  pub beq : A → A → Bool
  pub agrees : (a b : A) → (beq a b ≡ true) ↔ (a ≡ b)

infix 50 ◌==◌
abbrev pub ◌==◌ {ℓ} : {K : Type ℓ} ⦃eq : Equality K⦄ → K → K → Bool
◌==◌ ⦃eq⦄ x y = eq.beq x y

instance abbrev pub nat_instance : Equality ℕ
nat_instance = record { beq = nat_eq; agrees = nat_eq_iff }

abbrev pub Bytes : Type 0
Bytes = List ℕ

-- The bytes of a text literal.
abbrev pub text : String → Bytes
text String.[] = []
text (String.◌∷◌ c s) = code c ∷ text s

unfoldable pub bytes_eq : Bytes → Bytes → Bool
bytes_eq [] [] = true
bytes_eq (a ∷ x) (b ∷ y) = nat_eq a b && bytes_eq x y
bytes_eq _ _ = false

bytes_eq_sound : (x y : Bytes) → bytes_eq x y ≡ true → x ≡ y
unfolding bytes_eq
bytes_eq_sound [] [] h = refl
bytes_eq_sound (a ∷ x) (b ∷ y) h = ground (arith, bytes_eq_sound x y)
bytes_eq_sound [] (b ∷ y) h = cc
bytes_eq_sound (a ∷ x) [] h = cc

bytes_eq_self : (x : Bytes) → bytes_eq x x ≡ true
unfolding bytes_eq
bytes_eq_self [] = refl
bytes_eq_self (a ∷ x) = ground (arith, bytes_eq_self x)

bytes_eq_complete : (x y : Bytes) → x ≡ y → bytes_eq x y ≡ true
bytes_eq_complete x y h = cc (bytes_eq_self x)

pub bytes_eq_iff : (x y : Bytes) → (bytes_eq x y ≡ true) ↔ (x ≡ y)
bytes_eq_iff x y = (bytes_eq_sound x y, bytes_eq_complete x y)

instance abbrev pub bytes_instance : Equality Bytes
bytes_instance = record { beq = bytes_eq; agrees = bytes_eq_iff }

module _ {ℓ} {A : Type ℓ} ⦃e : Equality A⦄ where
  pub beq_self : (a : A) → (a == a) ≡ true
  beq_self a = (e.agrees a a).1 refl

  pub beq_ne : (a b : A) → a ≢ b → (a == b) ≡ false
  beq_ne a b h = ground (arith, e.agrees a b)

-- Go's `<` on strings compares bytes from the left.
unfoldable pub bytes_lt : Bytes → Bytes → Bool
bytes_lt x [] = false
bytes_lt [] (b ∷ y) = true
bytes_lt (a ∷ x) (b ∷ y) = if ltb a b then true else nat_eq a b && bytes_lt x y
