-- ===== src/Tbft/VoteSet/InvalidTxs.antt =====
-- How a set of prevotes counts the transactions that its votes call invalid.
use native.Mathlib.Nat.{add-zero}
use chainmaker.Prelude.{
  ℕ, ◌+◌, ◌/◌, ◌≤◌, ◌<◌, ◌≡◌, ◌≢◌, ◌∙◌, ap, true, Option, none, some, List, [], ◌∷◌, ◌++◌, arith,
  inl, inr,
}
use chainmaker.Prelude.Tests.{if◌then◌else◌, leb, Bool-cases}
use chainmaker.Prelude.Lists.{length}
use chainmaker.Prelude.Eq.{Bytes, bytes_eq, bytes_eq_iff, bytes_instance}
use chainmaker.Prelude.Map.{lookup, lookup-insert}
use chainmaker.Prelude.Int.{pos, ℤ, add32, sub32, leb_ℤ, sub_ℕ, int32_of_small}
use chainmaker.Tbft.Validators.{ValidatorSet, size}
use chainmaker.Tbft.Vote.{Vote, prevote, type_eq_iff}
use chainmaker.Tbft.VoteSet.Invariant.{IsValid}
use chainmaker.Tbft.VoteSet.Recording.{record_vote_lem}
use chainmaker.Tbft.VoteSet.Preserved.{Admissible, add_vote-cases}
use chainmaker.Tbft.VoteSet.{
  VoteSet, add_vote, admit, record_vote, count_invalid_txs, count_invalid_tx, count_or_zero,
  weak_quorum,
}
use chainmaker.Tbft.VoteSet.Tally.{weak_quorum_lem}

-- How often a transaction stands in a list.
abbrev pub occurrences : Bytes → List Bytes → ℕ
occurrences tx [] = 0
occurrences tx (t ∷ ts) = let rest = occurrences tx ts in if bytes_eq t tx then rest + 1 else rest

pub occurrences-append :
    (tx t : Bytes) (ts : List Bytes)
    → occurrences tx (ts ++ t ∷ [])
      ≡ (if bytes_eq t tx then occurrences tx ts + 1 else occurrences tx ts)
occurrences-append tx t [] = ground arith
occurrences-append tx t (u ∷ ts) = ground (arith, occurrences-append tx t ts)

-- A transaction that was named c times: the counter, and how often it is to be deleted.
pub record IsTracked (val_set : ValidatorSet) (tx : Bytes) (c : ℕ) (vs : VoteSet) : Type 0 where
  pub counter : count_or_zero (lookup tx vs.invalid_tx) ≡ (
      if leb c (length val_set.validators / 3) then pos c else sub_ℕ c (length val_set.validators))
  pub deleted :
      occurrences tx vs.need_to_del_txs ≡ (if leb c (length val_set.validators / 3) then 0 else 1)

module _ (val_set : ValidatorSet) (fits : length val_set.validators < 1073741824) (tx : Bytes) where
  size_small : size (some val_set) ≡ pos (length val_set.validators)
  unfolding size
  size_small = ground (arith, int32_of_small (length val_set.validators))

  -- The counter after one more naming, before the test, and what the test leaves of it.
  next :
      (c : ℕ)
      → c < length val_set.validators
      → add32
          (if leb c (length val_set.validators / 3)
            then pos c
            else sub_ℕ c (length val_set.validators))
          (pos 1)
        ≡ (if leb c (length val_set.validators / 3)
            then pos (c + 1)
            else sub_ℕ (c + 1) (length val_set.validators))
  unfolding add32
  next c room = ground arith

  reset :
      (c : ℕ)
      → c < length val_set.validators
      → sub32 (pos (c + 1)) (pos (length val_set.validators))
        ≡ sub_ℕ (c + 1) (length val_set.validators)
  unfolding sub32
  reset c room = ground arith

  after :
      (vs : VoteSet) (z : ℤ)
      → add32 (count_or_zero (lookup tx vs.invalid_tx)) (pos 1) ≡ z
      → (count_or_zero (lookup tx (count_invalid_tx (some val_set) tx vs).invalid_tx)
          ≡ (if leb_ℤ (weak_quorum (some val_set)) z then sub32 z (size (some val_set)) else z))
        × (occurrences tx (count_invalid_tx (some val_set) tx vs).need_to_del_txs ≡ (
            if leb_ℤ (weak_quorum (some val_set)) z
            then occurrences tx vs.need_to_del_txs + 1
            else occurrences tx vs.need_to_del_txs))
  unfolding count_invalid_tx
  after vs z e = rw e (elim (Bool-cases (leb_ℤ (weak_quorum (some val_set)) z)) [
    | inl fires ↦ ground (
      arith,
      lookup-insert tx tx (sub32 z (size (some val_set))) vs.invalid_tx,
      bytes_eq_iff tx tx,
      occurrences-append tx tx vs.need_to_del_txs,
    )
    | inr quiet ↦ ground (arith, lookup-insert tx tx z vs.invalid_tx, bytes_eq_iff tx tx)
  ])

  track_self :
      (c : ℕ) (vs : VoteSet)
      → c < length val_set.validators
      → IsTracked val_set tx c vs
      → IsTracked val_set tx (c + 1) (count_invalid_tx (some val_set) tx vs)
  track_self c vs room t =
      let (counter, deleted) = after vs _ (ap (λ z. add32 z (pos 1)) t.counter ∙ next c room) in
      elim (Bool-cases (leb c (length val_set.validators / 3))) [
        | inl early ↦ record {
          counter =
              ground
                (arith, counter, early, size_small, weak_quorum_lem val_set fits, reset c room);
          deleted = ground (arith, deleted, early, t.deleted, weak_quorum_lem val_set fits);
        }
        | inr late ↦ record {
          counter = ground (arith, counter, late, weak_quorum_lem val_set fits);
          deleted = ground (arith, deleted, late, t.deleted, weak_quorum_lem val_set fits);
        }
      ]

  track_other :
      (c : ℕ) (t : Bytes) (vs : VoteSet)
      → t ≢ tx
      → IsTracked val_set tx c vs
      → IsTracked val_set tx c (count_invalid_tx (some val_set) t vs)
  unfolding count_invalid_tx
  track_other c t vs ne k = record {
    counter = ground (
      arith,
      k.counter,
      bytes_eq_iff t tx,
      lookup-insert t tx (add32 (count_or_zero (lookup t vs.invalid_tx)) (pos 1)) vs.invalid_tx,
      lookup-insert t tx
          (sub32 (add32 (count_or_zero (lookup t vs.invalid_tx)) (pos 1)) (size (some val_set)))
          vs.invalid_tx,
    );
    deleted =
        ground (arith, k.deleted, occurrences-append tx t vs.need_to_del_txs, bytes_eq_iff t tx);
  }

  tracked :
      (c : ℕ) (txs : List Bytes) (vs : VoteSet)
      → c + occurrences tx txs ≤ length val_set.validators
      → IsTracked val_set tx c vs
      → IsTracked val_set tx (c + occurrences tx txs) (count_invalid_txs (some val_set) txs vs)
  unfolding count_invalid_txs
  tracked c [] vs room k = rw add-zero k
  tracked c (t ∷ ts) vs room k = elim (Bool-cases (bytes_eq t tx)) [
    | inl same ↦
        let e : c + (occurrences tx ts + 1) ≡ c + 1 + occurrences tx ts = omega arith in
        rw (same, e, (bytes_eq_iff t tx).0 same)
          (tracked (c + 1) ts (count_invalid_tx (some val_set) tx vs) (ground arith)
            (track_self c vs (ground arith) k))
    | inr other ↦ rw other (
        tracked c ts (count_invalid_tx (some val_set) t vs) (ground arith)
          (track_other c t vs (λ e. cc ((bytes_eq_iff t tx).1 e)) k))
  ]

  -- Over fewer than 2^30 validators, a transaction that the set has not counted yet, named at most
  -- as often as there are validators, is put on the list to be deleted once if it is named more
  -- often than a third of their number, and not at all otherwise.
  pub count_invalid_txs_lem :
      (txs : List Bytes) (vs : VoteSet)
      → lookup tx vs.invalid_tx ≡ none
      → occurrences tx vs.need_to_del_txs ≡ 0
      → occurrences tx txs ≤ length val_set.validators
      → occurrences tx (count_invalid_txs (some val_set) txs vs).need_to_del_txs
        ≡ (if leb (occurrences tx txs) (length val_set.validators / 3) then 0 else 1)
  count_invalid_txs_lem txs vs new none_yet room =
      (tracked 0 txs vs (omega arith)
        (record { counter = ground arith; deleted = ground arith })).deleted
      ∙ ground arith

admit_prevote :
    (validators : Option ValidatorSet) (vote : Vote) (vs : VoteSet)
    → vote.type ≡ prevote
    → admit validators vote true vs
      ≡ count_invalid_txs validators vote.invalid_txs (record_vote validators vote vs)
unfolding admit
admit_prevote validators vote vs p = ground (arith, type_eq_iff vote.type prevote)

-- In a valid set that has not counted a transaction yet, a single admissible prevote that names it
-- more often than a third of the number of validators, and at most as often as there are
-- validators, has it deleted.
pub one_vote_deletes :
    (val_set : ValidatorSet) (tx : Bytes) (vote : Vote) (vs : VoteSet)
    → IsValid val_set vs
    → Admissible val_set vote vs
    → vote.type ≡ prevote
    → lookup tx vs.invalid_tx ≡ none
    → occurrences tx vs.need_to_del_txs ≡ 0
    → length val_set.validators / 3 < occurrences tx vote.invalid_txs
    → occurrences tx vote.invalid_txs ≤ length val_set.validators
    → occurrences tx (add_vote (some val_set) (some vote) true vs).vote_set.need_to_del_txs ≡ 1
one_vote_deletes val_set tx vote vs v a p new none_yet many room =
    elim (add_vote-cases val_set vote true vs) [
      | inr (refused, _, _) ↦ absurd (refused a)
      | inl (_, e) ↦
          let r = record_vote (some val_set) vote vs in
          let same = record_vote_lem val_set vote vs v a.1 a.2 a.0 in
          rw (e, admit_prevote (some val_set) vote vs p)
            (count_invalid_txs_lem val_set v.fits tx vote.invalid_txs r (rw same new)
                (rw same none_yet) room
              ∙ ground arith)
    ]
