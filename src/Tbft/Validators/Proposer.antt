-- ===== src/Tbft/Validators/Proposer.antt =====
-- Who proposes at a height and round: `GetProposer` without its int32 arithmetic, and rotation.
use native.Mathlib.Nat.{mod-lt, mod-add-mod, mod-eq_of_lt, add_comm, add-mod_right}
use chainmaker.Prelude.{
  ℕ, zero, suc, ◌+◌, ◌-◌, ◌%◌, ◌≤◌, ◌<◌, ◌≡◌, refl, false, List, [], ◌∷◌, Option, some, arith, ap,
  ◌∙◌, ◌-◌, sym, inl, inr,
}
use chainmaker.Prelude.Tests.{if◌then◌else◌, leb, nat_eq, Bool-cases}
use chainmaker.Prelude.Lists.{length, get_elem?, get_elem?_total, get_elem?-lt}
use chainmaker.Prelude.Eq.{Bytes, bytes_eq}
use chainmaker.Prelude.Int.{pos, int32_of_small, add32, add32_small, rem32_small}
use chainmaker.Prelude.Result.{ok}
use chainmaker.Tbft.Validators.{
  ValidatorSet, size, is_nil_or_empty, get_by_index, index_from, get_index_by_string, rem_int32,
  get_proposer, block_version_231, contains,
}

-- The set is not empty, its size fits an int32 twice over, and the proposer term is not zero.
pub record IsUsable (val_set : ValidatorSet) : Type 0 where
  pub some_validator : 0 < length val_set.validators
  pub fits : length val_set.validators < 1073741824
  pub term : 0 < val_set.blocks_per_proposer

-- The place of the first validator with the name, or 0.
abbrev pub place : List Bytes → Bytes → ℕ
place [] v = 0
place (w ∷ ws) v =
    let rest = place ws v in if bytes_eq w v then 0 else if contains ws v then rest + 1 else 0

place-lt : (vs : List Bytes) (v : Bytes) → 0 < length vs → place vs v < length vs
unfolding contains
place-lt [] v h = h
place-lt (w ∷ []) v h = ground arith
place-lt (w ∷ x ∷ vs) v h = ground (arith, place-lt (x ∷ vs) v)

index_from_lem :
    (i : ℕ) (vs : List Bytes) (v : Bytes)
    → i + length vs < 2147483648
    → index_from i vs v ≡ (if contains vs v then pos (i + place vs v) else pos 0)
unfolding index_from contains
index_from_lem i [] v h = refl
index_from_lem i (w ∷ vs) v h = ground (arith, index_from_lem (i + 1) vs v, int32_of_small i)

place-absent : (vs : List Bytes) (v : Bytes) → contains vs v ≡ false → place vs v ≡ 0
unfolding contains
place-absent [] v h = refl
place-absent (w ∷ vs) v h = ground arith

get_index_by_string_lem :
    (val_set : ValidatorSet) (v : Bytes)
    → IsUsable val_set
    → get_index_by_string val_set v ≡ pos (place val_set.validators v)
unfolding get_index_by_string
get_index_by_string_lem val_set v u =
    ground (arith, index_from_lem 0 val_set.validators v, place-absent val_set.validators v)

get_by_index_lem :
    (val_set : ValidatorSet) (i : ℕ)
    → IsUsable val_set
    → i < length val_set.validators
    → (v : Bytes) × (get_elem? val_set.validators i ≡ some v)
      × (get_by_index val_set (pos i) ≡ ok v)
unfolding get_by_index size
get_by_index_lem val_set i u h =
    let (v, e) = get_elem?_total val_set.validators i h in
    (v, e, ground (arith, int32_of_small (length val_set.validators)))

rem_int32_small : (a n : ℕ) → 0 < n → rem_int32 (pos a) (pos n) ≡ ok (pos (a % n))
unfolding rem_int32
rem_int32_small a zero h = elim h [ ]
rem_int32_small a (suc n) h = ground (arith, rem32_small a n)

-- The offset of the first round at a height: the place of the last proposer, one further where
-- a proposer's term begins.
abbrev pub offset : ValidatorSet → Bytes → ℕ → ℕ
offset val_set pre_proposer height =
    if nat_eq (height % val_set.blocks_per_proposer) 0
    then place val_set.validators pre_proposer + 1
    else place val_set.validators pre_proposer

size_lem :
    (val_set : ValidatorSet)
    → IsUsable val_set
    → size (some val_set) ≡ pos (length val_set.validators)
unfolding size
size_lem val_set u = ground (arith, int32_of_small (length val_set.validators))

offset_lem :
    (val_set : ValidatorSet) (pre_proposer : Bytes) (height : ℕ)
    → IsUsable val_set
    → (if nat_eq (height % val_set.blocks_per_proposer) 0
        then add32 (pos (place val_set.validators pre_proposer)) (pos 1)
        else pos (place val_set.validators pre_proposer))
      ≡ pos (offset val_set pre_proposer height)
offset_lem val_set pre_proposer height u = ground (
  arith,
  add32_small (place val_set.validators pre_proposer) 1,
  place-lt val_set.validators pre_proposer,
)

-- From version 2.3.1 on, over a usable set and for a round that is not negative, the proposer is
-- the validator at the offset of the height plus the round, modulo the size: no int32 arithmetic
-- overflows and no error is returned.
pub get_proposer_lem :
    (val_set : ValidatorSet) (version : ℕ) (pre_proposer : Bytes) (height round : ℕ)
    → IsUsable val_set
    → block_version_231 ≤ version
    → (v : Bytes) × (get_elem? val_set.validators
          ((offset val_set pre_proposer height + round) % length val_set.validators)
        ≡ some v)
      × (get_proposer val_set version pre_proposer height (pos round) ≡ ok v)
unfolding get_proposer is_nil_or_empty
get_proposer_lem val_set version pre_proposer height round u h =
    let n = length val_set.validators in
    let o = offset val_set pre_proposer height in
    let e : (round % n + o) % n ≡ (o + round) % n =
      mod-add-mod round n o ∙ ap (λ k. k % n) (add_comm round o) in
    let (v, at, ok_v) = get_by_index_lem val_set ((o + round) % n) u (mod-lt _ u.some_validator) in
    (
      v,
      at,
      rw
          (
            get_index_by_string_lem val_set pre_proposer u,
            offset_lem val_set pre_proposer height u,
            size_lem val_set u,
            rem_int32_small round n u.some_validator,
          )
          (ground (
            arith,
            place-lt val_set.validators pre_proposer,
            mod-lt round u.some_validator,
            add32_small (round % n) o,
            rem_int32_small (round % n + o) n,
            ok_v,
            e,
          )),
    )

-- The validator whose turn a round is, as the library's lookup gives it.
abbrev pub proposer_at : ValidatorSet → Bytes → ℕ → ℕ → Option Bytes
proposer_at val_set pre_proposer height round =
    get_elem? val_set.validators
      ((offset val_set pre_proposer height + round) % length val_set.validators)

turn : (o i n : ℕ) → i < n → (r : ℕ) × (r < n) × ((o + r) % n ≡ i)
turn o i n h =
    let a = o % n in
    let a-lt : a < n = mod-lt o (omega arith) in
    let back : a + (i + n - a) ≡ i + n = omega arith in
    elim (Bool-cases (leb a i)) [
      | inl ahead ↦ (
        i - a,
        ground arith,
        sym (mod-add-mod o n (i - a)) ∙ ground (arith, mod-eq_of_lt {n = i} {m = n}),
      )
      | inr behind ↦ (
        i + n - a,
        ground arith,
        sym (mod-add-mod o n (i + n - a))
            ∙ ap (λ k. k % n) back
            ∙ add-mod_right i n
            ∙ mod-eq_of_lt h,
      )
    ]

-- From version 2.3.1 on, over a usable set, every validator is the proposer in one of the first n
-- rounds of a height, where n is the number of validators.
pub get_proposer_rotation :
    (val_set : ValidatorSet) (version : ℕ) (pre_proposer : Bytes) (height i : ℕ) (v : Bytes)
    → IsUsable val_set
    → block_version_231 ≤ version
    → get_elem? val_set.validators i ≡ some v
    → (round : ℕ) × (round < length val_set.validators)
      × (get_proposer val_set version pre_proposer height (pos round) ≡ ok v)
get_proposer_rotation val_set version pre_proposer height i v u h at =
    let (r, lt, eq) =
      turn (offset val_set pre_proposer height) i (length val_set.validators)
        (get_elem?-lt val_set.validators i at) in
    let (w, at', done) = get_proposer_lem val_set version pre_proposer height r u h in
    (r, lt, ground arith)
