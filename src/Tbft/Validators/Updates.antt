-- ===== src/Tbft/Validators/Updates.antt =====
-- What `updateValidators` returns and leaves, as sets, and when `checkProposed` refuses.
use chainmaker.Prelude.{
  ℕ, ◌+◌, ◌/◌, ◌≤◌, ◌<◌, ◌≡◌, refl, Bool, true, false, not, ◌&&◌, List, [], ◌∷◌, ◌++◌, Option, none,
  some, arith, ◌↔◌, ◌∙◌, ap,
}
use chainmaker.Prelude.Tests.{if◌then◌else◌, ltb}
use chainmaker.Prelude.Lists.{length}
use chainmaker.Prelude.Eq.{Bytes, bytes_eq, bytes_eq_iff, bytes_instance}
use chainmaker.Prelude.Map.{Map, lookup, insert, delete, keys, lookup-insert, lookup-delete}
use chainmaker.Tbft.Validators.{
  ValidatorSet, contains, mark_all, scan_new, update_validators, no_backward, check_proposed,
  validator_height,
}
use chainmaker.Tbft.Validators.Sorting.{IsSorted, sort-IsSorted, contains-sort}

abbrev is_some {ℓ} : {A : Type ℓ} → Option A → Bool
is_some none = false
is_some (some a) = true

contains-keys : (v : Bytes) (m : Map Bytes Bool) → contains (keys m) v ≡ is_some (lookup v m)
unfolding contains lookup
contains-keys v [] = refl
contains-keys v ((k, b) ∷ m) = ground (arith, contains-keys v m)

contains-append :
    (v w : Bytes) (xs : List Bytes)
    → contains (xs ++ w ∷ []) v ≡ (if contains xs v then true else bytes_eq w v)
unfolding contains
contains-append v w [] = ground arith
contains-append v w (x ∷ xs) = ground (arith, contains-append v w xs)

lookup-mark_all :
    (v : Bytes) (vs : List Bytes) (m : Map Bytes Bool)
    → is_some (lookup v (mark_all vs m)) ≡ (if contains vs v then true else is_some (lookup v m))
unfolding mark_all contains
lookup-mark_all v [] m = refl
lookup-mark_all v (w ∷ vs) m =
    ground (arith, lookup-mark_all v vs (insert w true m), lookup-insert w v true m)

scan_new-removed :
    (v : Bytes) (old vs added : List Bytes) (m : Map Bytes Bool)
    → is_some (lookup v (scan_new old vs added m).1)
      ≡ (if contains vs v then false else is_some (lookup v m))
unfolding scan_new contains
scan_new-removed v old [] added m = refl
scan_new-removed v old (w ∷ vs) added m = ground (
  arith,
  scan_new-removed v old vs (if not (contains old w) then added ++ w ∷ [] else added) (delete w m),
  lookup-delete w v m,
  bytes_eq_iff w v,
  bytes_eq_iff v w,
)

scan_new-added :
    (v : Bytes) (old vs added : List Bytes) (m : Map Bytes Bool)
    → contains (scan_new old vs added m).0 v
      ≡ (if contains added v then true else contains vs v && not (contains old v))
unfolding scan_new contains
scan_new-added v old [] added m = ground arith
scan_new-added v old (w ∷ vs) added m = ground (
  arith,
  scan_new-added v old vs (if not (contains old w) then added ++ w ∷ [] else added) (delete w m),
  contains-append v w added,
  bytes_eq_iff w v,
)

-- `updateValidators` leaves the new validators, sorted, and returns exactly the validators that
-- were not in the old set and exactly those that are not in the new one, both sorted.
pub update_validators_lem :
    (val_set : ValidatorSet) (new : List Bytes) (v : Bytes)
    → (contains (update_validators val_set new).val_set.validators v ≡ contains new v)
      × (contains (update_validators val_set new).added v
          ≡ (contains new v && not (contains val_set.validators v)))
      × (contains (update_validators val_set new).removed v
          ≡ (contains val_set.validators v && not (contains new v)))
      × IsSorted (update_validators val_set new).val_set.validators
      × IsSorted (update_validators val_set new).added
      × IsSorted (update_validators val_set new).removed
unfolding update_validators lookup
update_validators_lem val_set new v =
    let old = val_set.validators in
    let marked = mark_all old [] in
    let scanned = scan_new old new [] marked in
    (
      contains-sort v new,
      contains-sort v scanned.0 ∙ scan_new-added v old new [] marked,
      contains-sort v (keys scanned.1)
          ∙ contains-keys v scanned.1
          ∙ scan_new-removed v old new [] marked
          ∙ ap (λ b. if contains new v then false else b) (lookup-mark_all v old [])
          ∙ ground arith,
      sort-IsSorted new,
      sort-IsSorted scanned.0,
      sort-IsSorted (keys scanned.1),
    )

-- How many of the validators are recorded above a height.
abbrev pub backward_count : ValidatorSet → ℕ → List Bytes → ℕ
backward_count val_set height [] = 0
backward_count val_set height (v ∷ vs) =
    let rest = backward_count val_set height vs in
    if ltb height (validator_height val_set v) then rest + 1 else rest

no_backward_lem :
    (val_set : ValidatorSet) (height quorum : ℕ) (vs : List Bytes)
    → quorum < length val_set.validators / 3 + 1
    → no_backward val_set height quorum vs
      ≡ ltb (quorum + backward_count val_set height vs) (length val_set.validators / 3 + 1)
unfolding no_backward
no_backward_lem val_set height quorum [] h = ground arith
no_backward_lem val_set height quorum (v ∷ vs) h = ground (
  arith,
  no_backward_lem val_set height
      (if ltb height (validator_height val_set v) then quorum + 1 else quorum) vs,
)

-- `checkProposed` allows a proposal exactly when at most a third of the validators, f of 3f + 1,
-- are recorded above the local height.
pub check_proposed_lem :
    (val_set : ValidatorSet) (height : ℕ)
    → (check_proposed (some val_set) height ≡ true)
      ↔ (backward_count val_set height val_set.validators ≤ length val_set.validators / 3)
unfolding check_proposed
check_proposed_lem val_set height =
    ground (arith, no_backward_lem val_set height 0 val_set.validators)
