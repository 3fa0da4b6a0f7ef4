-- ===== src/Tbft/Tests/Certificates.antt =====
-- Tests of the certificate checks of consensus-tbft-master/utils.go.
use chainmaker.Prelude.{ℕ, ◌≡◌, refl, Bool, true, List, [], ◌∷◌, some, arith}
use chainmaker.Prelude.Eq.{bytes_eq, bytes_lt}
use chainmaker.Prelude.Map.{lookup, insert}
use chainmaker.Prelude.Int.{pos, add32, mul32, quot32}
use chainmaker.Prelude.Result.{Result, ok, err, panic}
use chainmaker.Tbft.Validators.{
  new_validator_set, sort, insert_sorted, has_validator, contains, size,
}
use chainmaker.Tbft.Vote.{Vote, precommit, Slice, bytes, content, type_eq}
use chainmaker.Tbft.VoteSet.{
  VoteSet, VoteSetProto, new_vote_set, new_vote_set_from_proto, add_all, add_vote,
  check_vote_matched, admit, record_vote, copy_votes, add_block_vote, quorum, two_thirds_majority,
}
use chainmaker.Tbft.State.{Block}
use chainmaker.Tbft.Certificate.{
  verify_votes, verify_hash, verify_block_signatures, add_qc_votes, verify_majority,
  verify_qc_from_votes,
}
use chainmaker.Tbft.Certificate.Quorum.{
  IsCertified, verify_block_signatures_lem, verify_qc_from_votes_lem,
}
use chainmaker.Tbft.Tests.{four, vote_of}

abbrev all_accepted : Vote → Bool
all_accepted v = true

abbrev precommit_of : ℕ → Vote
precommit_of voter = vote_of precommit voter (9 ∷ []) []

abbrev certificate : VoteSetProto
certificate = record {
  type = precommit;
  height = 5;
  round = pos 0;
  sum = 3;
  maj23 = bytes (9 ∷ []);
  votes = ((1 ∷ []), precommit_of 1) ∷ ((2 ∷ []), precommit_of 2) ∷ ((3 ∷ []), precommit_of 3) ∷ [];
  votes_by_block = [];
}

abbrev block_nine : Block
block_nine = record { block_height = 5; block_hash = bytes (9 ∷ []); payload = [] }

passes : verify_block_signatures all_accepted four.validators certificate block_nine ≡ ok tt
unfolding verify_block_signatures verify_hash verify_votes new_vote_set_from_proto add_all add_vote
    new_vote_set check_vote_matched has_validator contains lookup insert admit record_vote
    copy_votes add_block_vote quorum size type_eq bytes_eq add32 mul32 quot32 new_validator_set sort
    insert_sorted bytes_lt two_thirds_majority
passes = refl

verify_block_signatures_lem_example :
    IsCertified all_accepted 4
      (9 ∷ [])
      (new_vote_set_from_proto (some (new_validator_set four.validators 1)) certificate)
verify_block_signatures_lem_example =
    verify_block_signatures_lem all_accepted four.validators certificate block_nine (omega arith)
      passes

abbrev value_or : VoteSet → Result VoteSet → VoteSet
value_or vs panic = vs
value_or vs (err e) = vs
value_or vs (ok v) = v

abbrev qc : List Vote
qc = precommit_of 1 ∷ precommit_of 2 ∷ precommit_of 3 ∷ []

abbrev checked_set : VoteSet
checked_set =
    value_or (new_vote_set precommit 5 (pos 0))
      (verify_qc_from_votes all_accepted (some four) precommit qc)

qc_passes : verify_qc_from_votes all_accepted (some four) precommit qc ≡ ok checked_set
unfolding verify_qc_from_votes add_qc_votes verify_majority verify_hash verify_votes add_vote
    new_vote_set check_vote_matched has_validator contains lookup insert admit record_vote
    copy_votes add_block_vote quorum size type_eq bytes_eq add32 mul32 quot32 two_thirds_majority
qc_passes = refl

verify_qc_from_votes_lem_example :
    (hash : Slice) × (two_thirds_majority (some checked_set) ≡ (hash, true))
    × IsCertified all_accepted 4 (content hash) checked_set
verify_qc_from_votes_lem_example =
    verify_qc_from_votes_lem all_accepted four precommit qc (omega arith) qc_passes
