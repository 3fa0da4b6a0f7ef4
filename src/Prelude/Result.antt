-- ===== src/Prelude/Result.antt =====
-- What a Go call ends in: a value, a returned error, or a panic.

use mathlib.Core.Path.{◌≡◌, refl}

pub data Error : Type 0 where
  invalid_index : Error
  vote_nil unexpected_step invalid_validator different_hash : Error
  no_majority invalid_votes : Error

pub data Result {ℓ} (A : Type ℓ) : Type ℓ where
  panic : Result A
  err : Error → Result A
  ok : A → Result A

infixl 5 ◌>>=◌
abbrev pub ◌>>=◌ {ℓ κ} : {A : Type ℓ} {B : Type κ} (m : Result A) (next : A → Result B) → Result B
panic >>= next = panic
err failure >>= next = err failure
ok value >>= next = next value

-- A chain that ends in a value had a value at its first step.
pub bind_ok {ℓ κ} :
    {A : Type ℓ} {B : Type κ} (first : Result A) (next : A → Result B) {end : B}
    → (first >>= next) ≡ ok end
    → (mid : A) × (first ≡ ok mid) × (next mid ≡ ok end)
bind_ok panic next done = cc
bind_ok (err e) next done = cc
bind_ok (ok mid) next done = (mid, refl, done)
