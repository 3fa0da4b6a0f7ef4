-- ===== src/Tbft/VoteSet/Preserved.antt =====
-- `AddVote` keeps the invariant.
use chainmaker.Prelude.{
  ◌≡◌, refl, Bool, true, false, ◌&&◌, Option, none, some, List, [], ◌∷◌, arith, inl, inr, ◌⊎◌,
}
use chainmaker.Prelude.Tests.{Bool-cases, Option-cases}
use chainmaker.Prelude.Eq.{Bytes, bytes_instance}
use chainmaker.Prelude.Map.{Map, lookup}
use chainmaker.Prelude.Int.{ℤ}
use chainmaker.Tbft.Validators.{ValidatorSet, contains, has_validator}
use chainmaker.Tbft.Vote.{Vote, prevote, type_eq}
use chainmaker.Tbft.VoteSet.{
  VoteSet, record_vote, count_invalid_tx, count_invalid_txs, admit, add_vote, check_vote_matched,
}
use chainmaker.Tbft.VoteSet.Invariant.{IsValid}
use chainmaker.Tbft.VoteSet.Recording.{record_vote-IsValid, record_vote_lem}

-- Counting invalid transactions writes only the fields that hold the counts.
abbrev pub with_counts : VoteSet → Map Bytes ℤ → List Bytes → VoteSet
with_counts vs invalid_tx need_to_del_txs = record vs {
  invalid_tx = invalid_tx;
  need_to_del_txs = need_to_del_txs;
}

pub count_invalid_txs-with_counts :
    (validators : Option ValidatorSet) (txs : List Bytes) (vs : VoteSet)
    → (x : Map Bytes ℤ) × (y : List Bytes) × (count_invalid_txs validators txs vs
        ≡ with_counts vs x y)
unfolding count_invalid_txs count_invalid_tx
count_invalid_txs-with_counts validators [] vs = (vs.invalid_tx, vs.need_to_del_txs, refl)
count_invalid_txs-with_counts validators (tx ∷ txs) vs =
    let (x, y, e) =
      count_invalid_txs-with_counts validators txs (count_invalid_tx validators tx vs) in
    (x, y, ground arith)

with_counts-IsValid :
    {val_set : ValidatorSet} {vs : VoteSet} (x : Map Bytes ℤ) (y : List Bytes)
    → IsValid val_set vs
    → IsValid val_set (with_counts vs x y)
unfolding check_vote_matched
with_counts-IsValid x y v = record {
  fits = v.fits;
  distinct = v.distinct;
  members = v.members;
  matched = v.matched;
  blocks_distinct = v.blocks_distinct;
  counted = v.counted;
  tallied = v.tallied;
  copied = v.copied;
  stored = v.stored;
  sound = v.sound;
  complete = v.complete;
}

count_invalid_txs-IsValid :
    {val_set : ValidatorSet} (validators : Option ValidatorSet) (txs : List Bytes) (vs : VoteSet)
    → IsValid val_set vs
    → IsValid val_set (count_invalid_txs validators txs vs)
count_invalid_txs-IsValid validators txs vs v =
    let (x, y, e) = count_invalid_txs-with_counts validators txs vs in
    rw e (with_counts-IsValid x y v)

-- A vote that `AddVote` admits.
abbrev pub Admissible : ValidatorSet → Vote → VoteSet → Type 0
Admissible val_set vote vs =
    (check_vote_matched vs vote ≡ true)
    × (contains val_set.validators vote.voter ≡ true)
    × (lookup vote.voter vs.votes ≡ none)

pub admit-IsValid :
    (val_set : ValidatorSet) (vote : Vote) (count_invalid : Bool) (vs : VoteSet)
    → IsValid val_set vs
    → Admissible val_set vote vs
    → IsValid val_set (admit (some val_set) vote count_invalid vs)
unfolding admit
admit-IsValid val_set vote count_invalid vs v a =
    let recorded = record_vote-IsValid val_set vote vs v a.1 a.2 a.0 in
    elim (Bool-cases (type_eq vote.type prevote && count_invalid)) [
      | inl counts ↦ rw counts (
          count_invalid_txs-IsValid (some val_set) vote.invalid_txs
            (record_vote (some val_set) vote vs) recorded)
      | inr plain ↦ rw plain recorded
    ]

-- The call admits the vote, or returns the set as it was.
pub add_vote-cases :
    (val_set : ValidatorSet) (vote : Vote) (count_invalid : Bool) (vs : VoteSet)
    → (Admissible val_set vote vs
        × (add_vote (some val_set) (some vote) count_invalid vs ≡ record {
          vote_set = admit (some val_set) vote count_invalid vs;
          added = true;
          error = none;
        }))
      ⊎ (¬ Admissible val_set vote vs
          × ((add_vote (some val_set) (some vote) count_invalid vs).vote_set ≡ vs)
          × ((add_vote (some val_set) (some vote) count_invalid vs).added ≡ false))
unfolding add_vote has_validator
add_vote-cases val_set vote count_invalid vs = elim (Bool-cases (check_vote_matched vs vote)) [
  | inr no_match ↦ inr (λ a. cc (a.0), ground arith, ground arith)
  | inl match ↦ elim (Bool-cases (contains val_set.validators vote.voter)) [
    | inr outsider ↦ inr (λ a. cc (a.1), ground arith, ground arith)
    | inl member ↦ elim (Option-cases (lookup vote.voter vs.votes)) [
      | inr (w, old) ↦ inr (λ a. cc (a.2), ground arith, ground arith)
      | inl fresh ↦ inl ((match, member, fresh), ground arith)
    ]
  ]
]

-- `AddVote` on a valid vote set, with any vote or none, leaves a valid set, whatever it returns.
pub add_vote-IsValid :
    (val_set : ValidatorSet) (vote : Option Vote) (count_invalid : Bool) (vs : VoteSet)
    → IsValid val_set vs
    → IsValid val_set (add_vote (some val_set) vote count_invalid vs).vote_set
add_vote-IsValid val_set none count_invalid vs v = unfold add_vote in v
add_vote-IsValid val_set (some vote) count_invalid vs v =
    elim (add_vote-cases val_set vote count_invalid vs) [
      | inl (a, e) ↦ rw e (admit-IsValid val_set vote count_invalid vs v a)
      | inr (_, e, _) ↦ rw e v
    ]

-- The same type, height and round.
abbrev pub SameKind : VoteSet → VoteSet → Type 0
SameKind a b = (a.type ≡ b.type) × (a.height ≡ b.height) × (a.round ≡ b.round)

pub admit-SameKind :
    (val_set : ValidatorSet) (vote : Vote) (count_invalid : Bool) (vs : VoteSet)
    → IsValid val_set vs
    → Admissible val_set vote vs
    → SameKind (admit (some val_set) vote count_invalid vs) vs
unfolding admit
admit-SameKind val_set vote count_invalid vs v a =
    let r = record_vote (some val_set) vote vs in
    let (x, y, e) = count_invalid_txs-with_counts (some val_set) vote.invalid_txs r in
    ground (arith, e, record_vote_lem val_set vote vs v a.1 a.2 a.0)

pub add_vote-SameKind :
    (val_set : ValidatorSet) (vote : Vote) (count_invalid : Bool) (vs : VoteSet)
    → IsValid val_set vs
    → SameKind (add_vote (some val_set) (some vote) count_invalid vs).vote_set vs
add_vote-SameKind val_set vote count_invalid vs v =
    elim (add_vote-cases val_set vote count_invalid vs) [
      | inl (a, e) ↦ rw e (admit-SameKind val_set vote count_invalid vs v a)
      | inr (_, e, _) ↦ rw e (refl, refl, refl)
    ]
