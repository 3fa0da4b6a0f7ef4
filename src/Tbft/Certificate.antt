-- ===== src/Tbft/Certificate.antt =====
-- consensus-tbft-master/utils.go: the checks of certificates. `accepts` is the answer of the access
-- control to a vote's endorsement, which other code gives.
pub mod Quorum
use chainmaker.Prelude.{ℕ, Bool, true, false, not, Option, none, some, List, [], ◌∷◌}
use chainmaker.Prelude.Tests.{if◌then◌else◌}
use chainmaker.Prelude.Eq.{Bytes, bytes_instance}
use chainmaker.Prelude.Map.{Map, lookup}
use chainmaker.Prelude.Result.{Error, Result, ok, err, panic, no_majority, invalid_votes, ◌>>=◌}
use chainmaker.Tbft.Validators.{ValidatorSet, new_validator_set}
use chainmaker.Tbft.Vote.{Vote, VoteType, Slice, content, slice_eq, type_eq}
use chainmaker.Tbft.VoteSet.{
  VoteSet, BlockVotes, VoteSetProto, new_vote_set, new_vote_set_from_proto, add_vote,
  two_thirds_majority,
}
use chainmaker.Tbft.State.{Block}

module _ (accepts : Vote → Bool) where
  -- `verifyVotes`: the goroutines' errors are joined, whatever their order.
  unfoldable pub verify_votes : Map Bytes Vote → Bool
  verify_votes [] = true
  verify_votes ((k, v) ∷ more) = let rest = verify_votes more in if accepts v then rest else false

  abbrev pub block_votes_verified : Option BlockVotes → Result (Unit {0})
  block_votes_verified none = panic
  block_votes_verified (some bv) = if verify_votes bv.votes then ok tt else err invalid_votes

  -- The look-up of the votes of a hash and their check, with the panic on a missing entry.
  unfoldable pub verify_hash : Slice → VoteSet → Result (Unit {0})
  verify_hash hash vs = block_votes_verified (lookup (content hash) vs.votes_by_block)

  -- `VerifyBlockSignatures`, from the decoded set of votes and the list of validators on.
  unfoldable pub verify_block_signatures : List Bytes → VoteSetProto → Block → Result (Unit {0})
  verify_block_signatures validators vs_proto block =
      let vs = new_vote_set_from_proto (some (new_validator_set validators 1)) vs_proto in
      let (hash, majority) = two_thirds_majority (some vs) in
      if not majority
      then err no_majority
      else if not (slice_eq hash block.block_hash)
      then err invalid_votes
      else verify_hash hash vs

  -- `VerifyRoundQc`
  unfoldable pub verify_round_qc : Option ValidatorSet → VoteSetProto → Result (Unit {0})
  verify_round_qc validators qc =
      let vs = new_vote_set_from_proto validators qc in
      let (hash, majority) = two_thirds_majority (some vs) in
      if not majority
      then err no_majority
      else if not (type_eq qc.type vs.type)
      then err no_majority
      else verify_hash hash vs

  abbrev pub or_vote_set : Option Error → VoteSet → Result VoteSet
  or_vote_set none vs = ok vs
  or_vote_set (some error) vs = err error

  -- The loop of `VerifyQcFromVotes`, which an error ends.
  unfoldable pub add_qc_votes : Option ValidatorSet → List Vote → VoteSet → Result VoteSet
  add_qc_votes validators [] vs = ok vs
  add_qc_votes validators (v ∷ more) vs = do
    added ←
        or_vote_set (add_vote validators (some v) false vs).error
          (add_vote validators (some v) false vs).vote_set
    add_qc_votes validators more added

  unfoldable pub verify_majority : VoteSet → Result VoteSet
  verify_majority vs =
      let (hash, majority) = two_thirds_majority (some vs) in
      if not majority then err no_majority else do checked ← verify_hash hash vs; ok vs

  unfoldable pub verify_qc_from_votes : Option ValidatorSet → VoteType → List Vote → Result VoteSet
  verify_qc_from_votes validators vote_type [] = err invalid_votes
  verify_qc_from_votes validators vote_type (v ∷ more) =
      if not (type_eq vote_type v.type) then err invalid_votes else do
        vs ← add_qc_votes validators (v ∷ more) (new_vote_set v.type v.height v.round)
        verify_majority vs
