-- ===== src/Tbft/Tests/RoundCertificates.antt =====
-- Tests of the handler of round certificates of consensus-tbft-master/consensus_tbft_impl.go.
use chainmaker.Prelude.{ℕ, ◌≡◌, refl, Bool, true, false, Option, none, some, [], ◌∷◌, arith}
use chainmaker.Prelude.Eq.{bytes_eq}
use chainmaker.Prelude.Map.{lookup, insert}
use chainmaker.Prelude.Int.{pos, negsuc, add32, quot32, mul32}
use chainmaker.Prelude.Result.{Error, Result, ok, err, panic}
use chainmaker.Tbft.Validators.{has_validator, contains, size}
use chainmaker.Tbft.Vote
use chainmaker.Tbft.Vote.{Vote, nil, bytes, nil_hash, type_eq}
use chainmaker.Tbft.VoteSet.{
  VoteSetProto, new_vote_set, new_vote_set_from_proto, add_all, two_thirds_majority,
  check_vote_matched, admit, record_vote, count_invalid_txs, copy_votes, add_block_vote, quorum,
}
use chainmaker.Tbft.VoteSet
use chainmaker.Tbft.Rounds
use chainmaker.Tbft.Rounds.{
  HeightRoundVoteSet, prevotes, get_vote_set, is_required, add_to, set_vote_set,
}
use chainmaker.Tbft.State.{ConsensusState, propose}
use chainmaker.Tbft.Caches.{new_state_cache, new_future_cache}
use chainmaker.Tbft.Certificate.{verify_round_qc, verify_hash, verify_votes}
use chainmaker.Tbft.Engine.{Engine, Env}
use chainmaker.Tbft.Engine.RoundCertificate.{
  RoundQc, add_round_votes, use_round_qc, take_round_qc, proc_round_qc,
}
use chainmaker.Tbft.Engine.Votes.{store_votes}
use chainmaker.Tbft.Engine.Position.{Grows}
use chainmaker.Tbft.Engine.RoundCertificate.Growth.{proc_round_qc-Grows}
use chainmaker.Tbft.Engine.RoundCertificate.Majority.{proc_round_qc_stated}
use chainmaker.Tbft.Engine.RoundCertificate.Mismatch.{proc_round_qc_mismatch}
use chainmaker.Tbft.Tests.{four, vote_of}

abbrev prevote_of : ℕ → Vote
prevote_of voter = vote_of Vote.prevote voter (9 ∷ []) []

abbrev prevotes_of_zero : VoteSetProto
prevotes_of_zero = record {
  type = Vote.prevote;
  height = 5;
  round = pos 0;
  sum = 3;
  maj23 = bytes (9 ∷ []);
  votes = ((1 ∷ []), prevote_of 1) ∷ ((2 ∷ []), prevote_of 2) ∷ ((3 ∷ []), prevote_of 3) ∷ [];
  votes_by_block = [];
}

abbrev message : RoundQc
message = record { id = 2 ∷ []; height = 5; round = pos 3; qc = some prevotes_of_zero }

abbrev no_votes : HeightRoundVoteSet
no_votes = record { height = 5; round = pos 0; round_vote_sets = [] }

abbrev waiting : ConsensusState
waiting = record {
  id = 1 ∷ [];
  height = 5;
  round = pos 0;
  step = propose;
  proposal = none;
  verifing_proposal = none;
  locked_round = negsuc 0;
  locked_proposal = none;
  valid_round = negsuc 0;
  valid_proposal = none;
  height_round_vote_set = no_votes;
}

abbrev engine : Engine
engine = record {
  state = waiting;
  validator_set = four;
  block_version = 2030100;
  last_height_proposer = 4 ∷ [];
  invalid_txs = [];
  state_cache = new_state_cache 10;
  future_cache = new_future_cache 10 5;
  timeout_propose = pos 30000000000;
  timeout_propose_delta = pos 1000000000;
  timeout_propose_optimal = pos 2000000000;
  propose_optimal = false;
  proposed_block_c = [];
  external_msg_c = [];
  internal_msg_c = [];
  wal_writes = true;
  sent = [];
}

abbrev outside : Env
outside = record {
  chain_block_version = 2030100;
  last_block_proposer = some (4 ∷ []);
  member_id = some;
  node_uid = some;
  sign = λ vote. some (1 ∷ []);
  now = pos 0;
  encode = λ p. nil;
}

abbrev any_vote : Vote → Bool
any_vote v = true

abbrev sets_or :
    HeightRoundVoteSet → Result (HeightRoundVoteSet × Option Error) → HeightRoundVoteSet
sets_or hvs panic = hvs
sets_or hvs (err error) = hvs
sets_or hvs (ok done) = done.0

abbrev with_votes : HeightRoundVoteSet
with_votes = sets_or no_votes (add_round_votes (some four) prevotes_of_zero.votes no_votes)

certificate_passes : verify_round_qc any_vote (some four) prevotes_of_zero ≡ ok tt
unfolding verify_round_qc verify_hash verify_votes new_vote_set_from_proto add_all VoteSet.add_vote
    new_vote_set check_vote_matched has_validator contains lookup insert admit record_vote
    copy_votes add_block_vote quorum size type_eq bytes_eq add32 mul32 quot32 two_thirds_majority
certificate_passes = refl

votes_added : add_round_votes (some four) prevotes_of_zero.votes no_votes ≡ ok (with_votes, none)
unfolding add_round_votes Rounds.add_vote Rounds.add_round Rounds.add_to_new
    Rounds.new_round_vote_set get_vote_set is_required add_to set_vote_set VoteSet.add_vote
    new_vote_set check_vote_matched has_validator contains lookup insert admit record_vote
    count_invalid_txs copy_votes add_block_vote quorum size type_eq bytes_eq add32 mul32 quot32
votes_added = refl

no_set_of_three : prevotes (pos 3) with_votes ≡ ok none
unfolding prevotes add_round_votes Rounds.add_vote Rounds.add_round Rounds.add_to_new
    Rounds.new_round_vote_set get_vote_set is_required add_to set_vote_set VoteSet.add_vote
    new_vote_set check_vote_matched has_validator contains lookup insert admit record_vote
    count_invalid_txs copy_votes add_block_vote quorum size type_eq bytes_eq add32 mul32 quot32
no_set_of_three = refl

proc_round_qc_mismatch_example : proc_round_qc any_vote outside message engine ≡ panic
proc_round_qc_mismatch_example =
    proc_round_qc_mismatch any_vote outside message prevotes_of_zero with_votes engine refl refl
      (omega arith) refl certificate_passes votes_added no_set_of_three

abbrev precommit_of : ℕ → Vote
precommit_of voter = vote_of Vote.precommit voter (9 ∷ []) []

abbrev precommits_of_zero : VoteSetProto
precommits_of_zero = record {
  type = Vote.precommit;
  height = 5;
  round = pos 0;
  sum = 3;
  maj23 = bytes (9 ∷ []);
  votes = ((1 ∷ []), precommit_of 1) ∷ ((2 ∷ []), precommit_of 2) ∷ ((3 ∷ []), precommit_of 3) ∷ [];
  votes_by_block = [];
}

abbrev says_nil : RoundQc
says_nil = record {
  id = 2 ∷ [];
  height = 5;
  round = pos 0;
  qc = some (record precommits_of_zero { maj23 = nil_hash });
}

abbrev with_precommits : HeightRoundVoteSet
with_precommits = sets_or no_votes (add_round_votes (some four) precommits_of_zero.votes no_votes)

precommits_pass : verify_round_qc any_vote (some four) precommits_of_zero ≡ ok tt
unfolding verify_round_qc verify_hash verify_votes new_vote_set_from_proto add_all VoteSet.add_vote
    new_vote_set check_vote_matched has_validator contains lookup insert admit record_vote
    copy_votes add_block_vote quorum size type_eq bytes_eq add32 mul32 quot32 two_thirds_majority
precommits_pass = refl

precommits_added :
    add_round_votes (some four) precommits_of_zero.votes no_votes ≡ ok (with_precommits, none)
unfolding add_round_votes Rounds.add_vote Rounds.add_round Rounds.add_to_new
    Rounds.new_round_vote_set get_vote_set is_required add_to set_vote_set VoteSet.add_vote
    new_vote_set check_vote_matched has_validator contains lookup insert admit record_vote
    count_invalid_txs copy_votes add_block_vote quorum size type_eq bytes_eq add32 mul32 quot32
precommits_added = refl

proc_round_qc_stated_example :
    (e' : Engine) × (proc_round_qc any_vote outside says_nil engine ≡ ok e')
    × (e'.state ≡ record waiting {
      height_round_vote_set = with_precommits;
      round = pos 1;
      step = propose;
      proposal = none;
      verifing_proposal = none;
    })
proc_round_qc_stated_example =
    proc_round_qc_stated any_vote outside says_nil precommits_of_zero with_precommits 0 engine refl
      refl refl (omega arith) (omega arith) refl precommits_pass precommits_added
      (record { some_validator = omega arith; fits = omega arith; term = omega arith })
      (omega arith)

abbrev says_nine : RoundQc
says_nine = record { id = 2 ∷ []; height = 5; round = pos 0; qc = some precommits_of_zero }

takes_votes :
    proc_round_qc any_vote outside says_nine engine ≡ ok (store_votes with_precommits engine)
unfolding proc_round_qc take_round_qc use_round_qc type_eq bytes_eq
takes_votes = ground (arith, precommits_pass, precommits_added)

proc_round_qc-Grows_example : Grows waiting (store_votes with_precommits engine).state
proc_round_qc-Grows_example = proc_round_qc-Grows any_vote outside says_nine engine takes_votes
