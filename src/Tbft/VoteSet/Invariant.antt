-- ===== src/Tbft/VoteSet/Invariant.antt =====
-- The invariant of a vote set, that the empty set has it, and that a quorum is unique.
use chainmaker.Prelude.{ℕ, ◌≤◌, ◌<◌, ◌≡◌, ◌≢◌, refl, true, some, [], arith, inl, inr}
use chainmaker.Prelude.Tests.{Bool-cases}
use chainmaker.Prelude.Lists.{length, All}
use chainmaker.Prelude.Eq.{Bytes, bytes_eq, bytes_eq_iff, bytes_instance}
use chainmaker.Prelude.Map.{Map, lookup, Distinct}
use chainmaker.Prelude.Int.{ℤ}
use chainmaker.Tbft.Validators.{ValidatorSet}
use chainmaker.Tbft.Vote.{Vote, VoteType, bytes, content}
use chainmaker.Tbft.VoteSet.{
  VoteSet, BlockVotes, quorum, block_votes_or_new, new_vote_set, check_vote_matched,
}
use chainmaker.Tbft.VoteSet.Tally.{
  tally, tally-add-le, AreMembers, length-le_of_AreMembers, quorum_lem,
}

-- The votes by block that the set keeps of a hash.
abbrev pub block_of : Bytes → VoteSet → BlockVotes
block_of h vs = block_votes_or_new (lookup h vs.votes_by_block)

abbrev pub AreIn : Map Bytes Vote → Map Bytes Vote → Type 0
AreIn votes = All (λ e. lookup e.0 votes ≡ some e.1)

-- The entry stands under the vote's voter, and the vote is of the type, height and round of the set.
abbrev pub AdmittedAs : VoteSet → Bytes × Vote → Type 0
AdmittedAs vs e = (e.1.voter ≡ e.0) × (check_vote_matched vs e.1 ≡ true)

-- Every vote stands among the votes by block, under its hash.
abbrev pub AreStored : VoteSet → Type 0
AreStored vs =
    (voter : Bytes) (v : Vote)
    → lookup voter vs.votes ≡ some v
    → lookup voter (block_of (content v.hash) vs).votes ≡ some v

-- No voter has two votes, all voters are validators, the sums are the numbers of votes, and the
-- majority is the hash that has a quorum of the votes, if there is one. The votes by block are the
-- votes of the set, each under its hash.
pub record IsValid (val_set : ValidatorSet) (vs : VoteSet) : Type 0 where
  pub fits : length val_set.validators < 1073741824
  pub distinct : Distinct vs.votes
  pub members : AreMembers val_set.validators vs.votes
  pub matched : All (AdmittedAs vs) vs.votes
  pub blocks_distinct : Distinct vs.votes_by_block
  pub counted : vs.sum ≡ length vs.votes
  pub tallied : (h : Bytes) → (block_of h vs).sum ≡ tally h vs.votes
  pub copied : (h : Bytes) → AreIn vs.votes (block_of h vs).votes
  pub stored : AreStored vs
  pub sound : (h : Bytes) → vs.maj23 ≡ bytes h → quorum (some val_set) ≤ tally h vs.votes
  pub complete :
      (h : Bytes) → h ≢ [] → quorum (some val_set) ≤ tally h vs.votes → vs.maj23 ≡ bytes h

pub length-votes-le :
    {val_set : ValidatorSet} {vs : VoteSet}
    → IsValid val_set vs
    → length vs.votes ≤ length val_set.validators
length-votes-le {val_set} {vs} v =
    length-le_of_AreMembers val_set.validators vs.votes v.distinct v.members

-- Over fewer than 2^30 validators, and a map with at most as many votes as there are validators,
-- two hashes that both have a quorum are equal.
pub quorum_unique :
    (val_set : ValidatorSet) (m : Map Bytes Vote) (h g : Bytes)
    → length val_set.validators < 1073741824
    → length m ≤ length val_set.validators
    → quorum (some val_set) ≤ tally h m
    → quorum (some val_set) ≤ tally g m
    → bytes_eq h g ≡ true
quorum_unique val_set m h g fits le qh qg = elim (Bool-cases (bytes_eq h g)) [
  | inl same ↦ same
  | inr other ↦ absurd (
      omega (arith, quorum_lem val_set fits, tally-add-le h g m (λ e. cc ((bytes_eq_iff h g).1 e))))
]

-- The empty set is valid.
pub new_vote_set-IsValid :
    (val_set : ValidatorSet) (type : VoteType) (height : ℕ) (round : ℤ)
    → length val_set.validators < 1073741824
    → IsValid val_set (new_vote_set type height round)
unfolding new_vote_set lookup
new_vote_set-IsValid val_set type height round fits = record {
  fits = fits;
  distinct = tt;
  members = tt;
  matched = tt;
  blocks_distinct = tt;
  counted = refl;
  tallied = λ h. refl;
  copied = λ h. tt;
  stored = λ voter v e. cc;
  sound = λ h e. cc;
  complete = λ h ne q. absurd (omega (arith, quorum_lem val_set fits));
}
