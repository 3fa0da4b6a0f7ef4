-- ===== src/Tbft/Validators.antt =====
-- consensus-tbft-master/validator.go: the validator set. A method that has a nil receiver test takes
-- an `Option`. The mutex is not modelled: each method runs under it as one step.
pub mod Sorting
pub mod Updates
pub mod Proposer
use chainmaker.Prelude.{
  ℕ, ◌+◌, ◌/◌, ◌%◌, Bool, true, false, not, Option, none, some, List, [], ◌∷◌, ◌++◌,
}
use chainmaker.Prelude.Tests.{ltb, leb, nat_eq, if◌then◌else◌}
use chainmaker.Prelude.Lists.{length, get_elem?}
use chainmaker.Prelude.Eq.{◌==◌, bytes_instance, Bytes, bytes_lt}
use chainmaker.Prelude.Map.{Map, lookup, insert, delete, keys}
use chainmaker.Prelude.Int.{ℤ, pos, int32_of, u64, add32, rem32, ltb_ℤ, leb_ℤ, int_eq, pos_part}
use chainmaker.Prelude.Result.{Result, ok, err, panic, invalid_index, ◌>>=◌}

pub record ValidatorSet : Type 0 where
  pub validators : List Bytes
  pub validators_height : Map Bytes ℕ
  pub validators_beat_time : Map Bytes ℤ
  pub blocks_per_proposer : ℕ

-- `sort.SliceStable` by `<`.
unfoldable pub insert_sorted : Bytes → List Bytes → List Bytes
insert_sorted x [] = x ∷ []
insert_sorted x (y ∷ ys) =
    let rest = insert_sorted x ys in if bytes_lt y x then y ∷ rest else x ∷ y ∷ ys

unfoldable pub sort : List Bytes → List Bytes
unfolding insert_sorted
sort [] = []
sort (x ∷ xs) = insert_sorted x (sort xs)

unfoldable pub new_validator_set : List Bytes → ℕ → ValidatorSet
unfolding sort
new_validator_set validators blocks_per_proposer = record {
  validators = sort validators;
  validators_height = [];
  validators_beat_time = [];
  blocks_per_proposer = blocks_per_proposer;
}

unfoldable pub is_nil_or_empty : Option ValidatorSet → Bool
is_nil_or_empty none = true
is_nil_or_empty (some val_set) = nat_eq (length val_set.validators) 0

-- `Size`: int32(len(valSet.Validators))
unfoldable pub size : Option ValidatorSet → ℤ
size none = pos 0
size (some val_set) = int32_of (length val_set.validators)

-- The loop of `hasValidator`.
unfoldable pub contains : List Bytes → Bytes → Bool
contains [] validator = false
contains (val ∷ vals) validator = if val == validator then true else contains vals validator

unfoldable pub has_validator : Option ValidatorSet → Bytes → Bool
unfolding contains
has_validator none validator = false
has_validator (some val_set) validator = contains val_set.validators validator

-- A negative index fails the first test.
unfoldable pub get_by_index : ValidatorSet → ℤ → Result Bytes
unfolding size
get_by_index val_set index =
    if ltb_ℤ index (pos 0)
    then err invalid_index
    else if leb_ℤ (size (some val_set)) index
    then err invalid_index
    else elim (get_elem? val_set.validators (pos_part index)) [ none ↦ panic | some val ↦ ok val ]

-- The loop of `getIndexByString`, with the counter of `range`.
unfoldable pub index_from : ℕ → List Bytes → Bytes → ℤ
index_from i [] pre_proposer = pos 0
index_from i (val ∷ vals) pre_proposer =
    if val == pre_proposer then int32_of i else index_from (i + 1) vals pre_proposer

unfoldable pub get_index_by_string : ValidatorSet → Bytes → ℤ
unfolding index_from
get_index_by_string val_set pre_proposer = index_from 0 val_set.validators pre_proposer

-- Go's `a % b` on int32, with the panic on a zero divisor.
unfoldable pub rem_int32 : ℤ → ℤ → Result ℤ
unfolding rem32
rem_int32 a b = if int_eq b (pos 0) then panic else ok (rem32 a b)

unfoldable pub get_proposer_v230 : ValidatorSet → ℕ → ℤ → Result Bytes
get_proposer_v230 val_set height round =
    if is_nil_or_empty (some val_set)
    then err invalid_index
    else if nat_eq val_set.blocks_per_proposer 0
    then panic
    else do
      let height_offset = int32_of (u64 (height + 1) / val_set.blocks_per_proposer)
      round_offset ← rem_int32 round (size (some val_set))
      proposer_index ← rem_int32 (add32 height_offset round_offset) (size (some val_set))
      get_by_index val_set proposer_index

abbrev pub block_version_231 : ℕ
block_version_231 = 2030100

unfoldable pub get_proposer : ValidatorSet → ℕ → Bytes → ℕ → ℤ → Result Bytes
get_proposer val_set block_version pre_proposer height round =
    if ltb block_version block_version_231
    then get_proposer_v230 val_set height round
    else if is_nil_or_empty (some val_set)
    then err invalid_index
    else if nat_eq val_set.blocks_per_proposer 0
    then panic
    else do
      let found = get_index_by_string val_set pre_proposer
      let starts = nat_eq (height % val_set.blocks_per_proposer) 0
      let proposer_offset = if starts then add32 found (pos 1) else found
      round_offset ← rem_int32 round (size (some val_set))
      proposer_index ← rem_int32 (add32 round_offset proposer_offset) (size (some val_set))
      get_by_index val_set proposer_index

-- The first loop of `updateValidators`: every old validator is a key of `removedValidatorsMap`.
unfoldable pub mark_all : List Bytes → Map Bytes Bool → Map Bytes Bool
unfolding insert
mark_all [] removed = removed
mark_all (v ∷ vs) removed = mark_all vs (insert v true removed)

-- The second loop: collects the added validators and deletes the kept ones from the map.
unfoldable pub scan_new :
    List Bytes → List Bytes → List Bytes → Map Bytes Bool → List Bytes × Map Bytes Bool
unfolding contains delete
scan_new old [] added removed = (added, removed)
scan_new old (v ∷ vs) added removed =
    scan_new old vs (if not (contains old v) then added ++ v ∷ [] else added) (delete v removed)

pub record Update : Type 0 where
  pub val_set : ValidatorSet
  pub added : List Bytes
  pub removed : List Bytes

unfoldable pub update_validators : ValidatorSet → List Bytes → Update
unfolding sort mark_all scan_new
update_validators val_set validators =
    let (added, removed) =
      scan_new val_set.validators validators [] (mark_all val_set.validators []) in
    record {
      val_set = record val_set { validators = sort validators };
      added = sort added;
      removed = sort (keys removed);
    }

unfoldable pub update_blocks_per_proposer : ValidatorSet → ℕ → ValidatorSet
update_blocks_per_proposer val_set blocks = record val_set { blocks_per_proposer = blocks }

abbrev height_or_zero : Option ℕ → ℕ
height_or_zero none = 0
height_or_zero (some h) = h

-- The height that the set records of a validator; a missing key reads 0.
unfoldable pub validator_height : ValidatorSet → Bytes → ℕ
validator_height val_set v = height_or_zero (lookup v val_set.validators_height)

-- The loop of `checkProposed`, with its early return.
unfoldable pub no_backward : ValidatorSet → ℕ → ℕ → List Bytes → Bool
unfolding validator_height
no_backward val_set height quorum [] = true
no_backward val_set height quorum (v ∷ vs) =
    let quorum' = if ltb height (validator_height val_set v) then quorum + 1 else quorum in
    let rest = no_backward val_set height quorum' vs in
    if leb (length val_set.validators / 3 + 1) quorum' then false else rest

unfoldable pub check_proposed : Option ValidatorSet → ℕ → Bool
unfolding no_backward
check_proposed none height = false
check_proposed (some val_set) height = no_backward val_set height 0 val_set.validators
