-- ===== src/Tbft/Validators/Sorting.antt =====
-- The stable sort of validator.go by the order of byte strings: same members, ascending.
use chainmaker.Prelude.{◌+◌, ◌≡◌, refl, true, false, List, [], ◌∷◌, arith}
use chainmaker.Prelude.Tests.{if◌then◌else◌}
use chainmaker.Prelude.Lists.{length, All}
use chainmaker.Prelude.Eq.{Bytes, bytes_lt, bytes_eq}
use chainmaker.Tbft.Validators.{insert_sorted, sort, contains}

-- No later string is below an earlier one.
abbrev pub IsSorted : List Bytes → Type 0
IsSorted [] = Unit
IsSorted (x ∷ xs) = All (λ y. bytes_lt y x ≡ false) xs × IsSorted xs

bytes_lt_asym : (x y : Bytes) → bytes_lt x y ≡ true → bytes_lt y x ≡ false
unfolding bytes_lt
bytes_lt_asym [] [] h = cc
bytes_lt_asym (a ∷ x) [] h = cc
bytes_lt_asym [] (b ∷ y) h = refl
bytes_lt_asym (a ∷ x) (b ∷ y) h = ground (arith, bytes_lt_asym x y)

-- If x is not below y and z is not below x, z is not below y.
bytes_lt_negtrans :
    (x y z : Bytes) → bytes_lt x y ≡ false → bytes_lt z x ≡ false → bytes_lt z y ≡ false
unfolding bytes_lt
bytes_lt_negtrans x [] z h k = refl
bytes_lt_negtrans [] (b ∷ y) z h k = cc
bytes_lt_negtrans (a ∷ x) (b ∷ y) [] h k = cc
bytes_lt_negtrans (a ∷ x) (b ∷ y) (c ∷ z) h k = ground (arith, bytes_lt_negtrans x y z)

All-insert_sorted :
    (y x : Bytes) (ys : List Bytes)
    → bytes_lt x y ≡ false
    → All (λ z. bytes_lt z y ≡ false) ys
    → All (λ z. bytes_lt z y ≡ false) (insert_sorted x ys)
unfolding insert_sorted
All-insert_sorted y x [] h a = (h, tt)
All-insert_sorted y x (z ∷ zs) h a = ground (arith, All-insert_sorted y x zs)

All-not_below :
    (x y : Bytes) (ys : List Bytes)
    → bytes_lt y x ≡ false
    → All (λ z. bytes_lt z y ≡ false) ys
    → All (λ z. bytes_lt z x ≡ false) ys
All-not_below x y [] h a = tt
All-not_below x y (z ∷ zs) h a = (bytes_lt_negtrans y x z h a.0, All-not_below x y zs h a.1)

insert_sorted-IsSorted : (x : Bytes) (ys : List Bytes) → IsSorted ys → IsSorted (insert_sorted x ys)
unfolding insert_sorted
insert_sorted-IsSorted x [] s = (tt, tt)
insert_sorted-IsSorted x (y ∷ ys) s = ground (
  arith,
  insert_sorted-IsSorted x ys,
  All-insert_sorted y x ys,
  bytes_lt_asym y x,
  All-not_below x y ys,
)

pub sort-IsSorted : (xs : List Bytes) → IsSorted (sort xs)
unfolding sort
sort-IsSorted [] = tt
sort-IsSorted (x ∷ xs) = insert_sorted-IsSorted x (sort xs) (sort-IsSorted xs)

contains-insert_sorted :
    (x v : Bytes) (ys : List Bytes)
    → contains (insert_sorted x ys) v ≡ (if bytes_eq x v then true else contains ys v)
unfolding insert_sorted contains
contains-insert_sorted x v [] = refl
contains-insert_sorted x v (y ∷ ys) = ground (arith, contains-insert_sorted x v ys)

pub contains-sort : (v : Bytes) (xs : List Bytes) → contains (sort xs) v ≡ contains xs v
unfolding sort contains
contains-sort v [] = refl
contains-sort v (x ∷ xs) = ground (arith, contains-insert_sorted x v (sort xs), contains-sort v xs)

length-insert_sorted : (x : Bytes) (ys : List Bytes) → length (insert_sorted x ys) ≡ length ys + 1
unfolding insert_sorted
length-insert_sorted x [] = omega arith
length-insert_sorted x (y ∷ ys) = ground (arith, length-insert_sorted x ys)

pub length-sort : (xs : List Bytes) → length (sort xs) ≡ length xs
unfolding sort
length-sort [] = refl
length-sort (x ∷ xs) = ground (arith, length-insert_sorted x (sort xs), length-sort xs)
