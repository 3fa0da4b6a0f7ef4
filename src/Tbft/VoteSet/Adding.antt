-- ===== src/Tbft/VoteSet/Adding.antt =====
-- What adding votes does to the votes that a set holds.
use chainmaker.Prelude.{
  ◌≡◌, Bool, true, false, ◌&&◌, Option, none, some, List, [], ◌∷◌, arith, inl, inr,
}
use chainmaker.Prelude.Tests.{if◌then◌else◌}
use chainmaker.Prelude.Eq.{Bytes, bytes_eq, bytes_eq_iff, bytes_instance}
use chainmaker.Prelude.Map.{Map, lookup, insert, lookup-insert}
use chainmaker.Prelude.Result.{different_hash}
use chainmaker.Tbft.Validators.{ValidatorSet, contains, has_validator}
use chainmaker.Tbft.Vote.{Vote, content}
use chainmaker.Tbft.VoteSet.{VoteSet, add_vote, admit, record_vote, check_vote_matched}
use chainmaker.Tbft.VoteSet.Tally.{AreMembers}
use chainmaker.Tbft.VoteSet.Invariant.{IsValid}
use chainmaker.Tbft.VoteSet.Recording.{record_vote_lem}
use chainmaker.Tbft.VoteSet.Preserved.{
  Admissible, count_invalid_txs-with_counts, add_vote-cases, add_vote-IsValid,
}

pub votes-admit :
    (val_set : ValidatorSet) (vote : Vote) (count_invalid : Bool) (vs : VoteSet)
    → IsValid val_set vs
    → Admissible val_set vote vs
    → (admit (some val_set) vote count_invalid vs).votes ≡ insert vote.voter vote vs.votes
unfolding admit
votes-admit val_set vote count_invalid vs v a =
    let r = record_vote (some val_set) vote vs in
    let (x, y, e) = count_invalid_txs-with_counts (some val_set) vote.invalid_txs r in
    ground (arith, e, record_vote_lem val_set vote vs v a.1 a.2 a.0)

-- In a valid set, a call of `AddVote` that adds the vote changes the entry of its voter to the
-- vote and no other entry; a call that does not add it changes no entry.
pub lookup-add_vote :
    (val_set : ValidatorSet) (vote : Vote) (count_invalid : Bool) (vs : VoteSet) (voter : Bytes)
    → IsValid val_set vs
    → lookup voter (add_vote (some val_set) (some vote) count_invalid vs).vote_set.votes ≡ (
        if (add_vote (some val_set) (some vote) count_invalid vs).added && bytes_eq vote.voter voter
        then some vote
        else lookup voter vs.votes)
lookup-add_vote val_set vote count_invalid vs voter v =
    elim (add_vote-cases val_set vote count_invalid vs) [
      | inl (a, e) ↦
          rw
            (
              e,
              votes-admit val_set vote count_invalid vs v a,
              lookup-insert vote.voter voter vote vs.votes,
            )
            (ground arith)
      | inr (_, same, refused) ↦ rw (same, refused)
    ]

-- Any votes, in any order, nil ones too.
unfoldable pub add_votes : ValidatorSet → Bool → List (Option Vote) → VoteSet → VoteSet
add_votes val_set count_invalid [] vs = vs
add_votes val_set count_invalid (vote ∷ votes) vs =
    add_votes val_set count_invalid votes (add_vote (some val_set) vote count_invalid vs).vote_set

keeps_vote :
    (val_set : ValidatorSet) (vote : Option Vote) (count_invalid : Bool) (vs : VoteSet)
    (voter : Bytes) (w : Vote)
    → IsValid val_set vs
    → lookup voter vs.votes ≡ some w
    → lookup voter (add_vote (some val_set) vote count_invalid vs).vote_set.votes ≡ some w
keeps_vote val_set none count_invalid vs voter w v e = unfold add_vote in e
keeps_vote val_set (some vote) count_invalid vs voter w v e =
    elim (add_vote-cases val_set vote count_invalid vs) [
      | inl (a, ok) ↦
          rw
            (
              ok,
              votes-admit val_set vote count_invalid vs v a,
              lookup-insert vote.voter voter vote vs.votes,
            )
            (ground (arith, a.2, e, bytes_eq_iff vote.voter voter))
      | inr (_, same, _) ↦ rw same e
    ]

pub add_votes-IsValid :
    (val_set : ValidatorSet) (count_invalid : Bool) (votes : List (Option Vote)) (vs : VoteSet)
    → IsValid val_set vs
    → IsValid val_set (add_votes val_set count_invalid votes vs)
unfolding add_votes
add_votes-IsValid val_set count_invalid [] vs v = v
add_votes-IsValid val_set count_invalid (vote ∷ votes) vs v =
    add_votes-IsValid val_set count_invalid votes _
      (add_vote-IsValid val_set vote count_invalid vs v)

-- In a valid set that has a vote of a voter, this vote stays, whatever votes are added after it,
-- other votes of that voter included.
pub first_vote_stays :
    (val_set : ValidatorSet) (count_invalid : Bool) (votes : List (Option Vote)) (vs : VoteSet)
    (voter : Bytes) (w : Vote)
    → IsValid val_set vs
    → lookup voter vs.votes ≡ some w
    → lookup voter (add_votes val_set count_invalid votes vs).votes ≡ some w
unfolding add_votes
first_vote_stays val_set count_invalid [] vs voter w v e = e
first_vote_stays val_set count_invalid (vote ∷ votes) vs voter w v e =
    first_vote_stays val_set count_invalid votes _ voter w
      (add_vote-IsValid val_set vote count_invalid vs v)
      (keeps_vote val_set vote count_invalid vs voter w v e)

members_lookup :
    (ws : List Bytes) (m : Map Bytes Vote) (k : Bytes) (w : Vote)
    → AreMembers ws m
    → lookup k m ≡ some w
    → contains ws k ≡ true
unfolding lookup
members_lookup ws [] k w a e = cc
members_lookup ws ((j, x) ∷ m) k w a e = ground (arith, members_lookup ws m k w, bytes_eq_iff j k)

-- In a valid set that has a vote of the voter, another vote of the voter that fits the set is not
-- added and leaves the set as it is; it is an error exactly when its hash differs.
pub add_vote_again :
    (val_set : ValidatorSet) (vote w : Vote) (count_invalid : Bool) (vs : VoteSet)
    → check_vote_matched vs vote ≡ true
    → IsValid val_set vs
    → lookup vote.voter vs.votes ≡ some w
    → add_vote (some val_set) (some vote) count_invalid vs ≡ record {
      vote_set = vs;
      added = false;
      error = if bytes_eq (content vote.hash) (content w.hash) then none else some different_hash;
    }
unfolding add_vote has_validator
add_vote_again val_set vote w count_invalid vs m v e =
    ground (arith, members_lookup val_set.validators vs.votes vote.voter w v.members)
