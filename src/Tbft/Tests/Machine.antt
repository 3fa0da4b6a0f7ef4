-- ===== src/Tbft/Tests/Machine.antt =====
-- Tests of the engine, consensus-tbft-master/consensus_tbft_impl.go, on a concrete state.
use chainmaker.Prelude.{◌≡◌, refl, ◌⊎◌, inr, true, false, Option, none, some, [], ◌∷◌, arith}
use chainmaker.Prelude.Eq.{bytes_eq}
use chainmaker.Prelude.Map.{lookup, insert}
use chainmaker.Prelude.Int.{pos, negsuc, add32, quot32, mul32}
use chainmaker.Prelude.Result.{Result, ok, err, panic}
use chainmaker.Tbft.Vote
use chainmaker.Tbft.Vote.{Vote, Slice, nil, bytes, is_nil_hash, slice_eq, type_eq, new_vote}
use chainmaker.Tbft.Validators.{has_validator, contains, size, validator_height}
use chainmaker.Tbft.VoteSet
use chainmaker.Tbft.VoteSet.{
  VoteSet, new_vote_set, two_thirds_majority, check_vote_matched, admit, record_vote,
  count_invalid_txs, copy_votes, add_block_vote, quorum,
}
use chainmaker.Tbft.Rounds
use chainmaker.Tbft.Rounds.{
  HeightRoundVoteSet, RoundVoteSet, prevotes, precommits, get_vote_set, get_round_vote_set,
  is_required, add_to, set_vote_set,
}
use chainmaker.Tbft.State.{
  TimeoutInfo, Block, TbftProposal, Step, propose, prevote, precommit, commit, ConsensusState,
  block_hash_of,
}
use chainmaker.Tbft.Caches.{new_state_cache, new_future_cache}
use chainmaker.Tbft.Engine.{Engine, Env, emit, commit_block, set_state}
use chainmaker.Tbft.Engine.Steps.{cannot_enter, enter_precommit}
use chainmaker.Tbft.Engine.Commit.{
  enter_commit, commit_on, take_locked, finish_commit, commit_to_core,
}
use chainmaker.Tbft.Engine.Votes
use chainmaker.Tbft.Engine.Votes.{add_prevote_vote, dispatch_vote, send_own, after_vote}
use chainmaker.Tbft.Engine.Messages.{
  proc_vote, update_validator_height, is_late, add_if_required, add_when,
}
use chainmaker.Tbft.Engine.Locks.{IsBacked, Precommits, enter_precommit_lem, enter_precommit_total}
use chainmaker.Tbft.Engine.Certificates.{Commits, NextRound, enter_commit_lem}
use chainmaker.Tbft.Engine.Position.{Grows}
use chainmaker.Tbft.Engine.Position.Messages.{proc_vote-Grows}
use chainmaker.Tbft.Tests.{four, vote_of, three_votes, three_votes-IsValid}
use chainmaker.Tbft.Tests.Sets.{three_for_nine}

abbrev block_nine : Block
block_nine = record { block_height = 5; block_hash = bytes (9 ∷ []); payload = [] }

abbrev proposal_nine : TbftProposal
proposal_nine = record {
  pb_msg = record {
    voter = 2 ∷ [];
    height = 5;
    round = pos 0;
    pol_round = negsuc 0;
    block = block_nine;
    txs_rw_set = none;
    qc = none;
  };
  raw = nil;
}

abbrev three_precommits : VoteSet
three_precommits = record (new_vote_set Vote.precommit 5 (pos 0)) {
  sum = 3;
  maj23 = bytes (9 ∷ []);
}

abbrev sets : HeightRoundVoteSet
sets = record {
  height = 5;
  round = pos 0;
  round_vote_sets =
      (
        pos 0,
        record { height = 5; round = pos 0; prevotes = three_votes; precommits = three_precommits },
      )
      ∷ [];
}

abbrev state_at : Step → ConsensusState
state_at step = record {
  id = 1 ∷ [];
  height = 5;
  round = pos 0;
  step = step;
  proposal = some proposal_nine;
  verifing_proposal = none;
  locked_round = negsuc 0;
  locked_proposal = none;
  valid_round = negsuc 0;
  valid_proposal = none;
  height_round_vote_set = sets;
}

abbrev engine_at : Step → Engine
engine_at step = record {
  state = state_at step;
  validator_set = four;
  block_version = 2030100;
  last_height_proposer = 4 ∷ [];
  invalid_txs = [];
  state_cache = new_state_cache 10;
  future_cache = new_future_cache 10 5;
  timeout_propose = pos 30000000000;
  timeout_propose_delta = pos 1000000000;
  timeout_propose_optimal = pos 2000000000;
  propose_optimal = false;
  proposed_block_c = [];
  external_msg_c = [];
  internal_msg_c = [];
  wal_writes = true;
  sent = [];
}

abbrev env : Env
env = record {
  chain_block_version = 2030100;
  last_block_proposer = some (4 ∷ []);
  member_id = some;
  node_uid = some;
  sign = λ vote. some (1 ∷ []);
  now = pos 0;
  encode = λ p. nil;
}

enter_precommit_total_example :
    (e' : Engine) × (enter_precommit env 5 (pos 0) (engine_at prevote) ≡ ok e')
unfolding prevotes get_vote_set lookup
enter_precommit_total_example =
    enter_precommit_total env 5 (pos 0) (engine_at prevote) three_votes refl three_votes-IsValid
      (omega (arith, three_for_nine.1))

enter_precommit_lem_example :
    (vs : Option VoteSet) × (prevotes (pos 0) sets ≡ ok vs)
    × (hash : Slice) × IsBacked vs (pos 0) hash (enter_precommit_total_example.0).state
    × Precommits env hash (engine_at prevote) enter_precommit_total_example.0
    × ((enter_precommit_total_example.0).state.step ≡ precommit)
    × ((enter_precommit_total_example.0).state.height ≡ 5)
    × ((enter_precommit_total_example.0).state.round ≡ pos 0)
unfolding cannot_enter
enter_precommit_lem_example =
    enter_precommit_lem env 5 (pos 0) (engine_at prevote) refl enter_precommit_total_example.1

abbrev committed : Engine
committed =
    emit (commit_block block_nine (some (VoteSet.to_proto three_precommits))) (engine_at commit)

enter_commit_ran : enter_commit env 5 (pos 0) (engine_at precommit) ≡ ok committed
unfolding enter_commit cannot_enter precommits get_vote_set lookup commit_on take_locked
    finish_commit commit_to_core two_thirds_majority is_nil_hash bytes_eq block_hash_of new_vote_set
enter_commit_ran = refl

enter_commit_lem_example :
    (vs : Option VoteSet) × (precommits (pos 0) sets ≡ ok vs)
    × (Commits vs (engine_at precommit) committed
        ⊎ NextRound env (pos 0) (engine_at precommit) committed)
unfolding cannot_enter
enter_commit_lem_example =
    enter_commit_lem env 5 (pos 0) (engine_at precommit) refl enter_commit_ran

abbrev value_or : Engine → Result Engine → Engine
value_or e panic = e
value_or e (err x) = e
value_or e (ok done) = done

-- The first prevote of the round arrives while the node still waits for a proposal.
abbrev early : Engine
early =
    set_state
      (record (state_at propose) { height_round_vote_set = record sets { round_vote_sets = [] } })
      (engine_at propose)

abbrev fourth_vote : Vote
fourth_vote = vote_of Vote.prevote 4 (9 ∷ []) []

abbrev after_fourth : Engine
after_fourth = value_or early (proc_vote prevote env fourth_vote early)

proc_fourth : proc_vote prevote env fourth_vote early ≡ ok after_fourth
unfolding proc_vote update_validator_height validator_height is_late add_if_required is_required
    get_vote_set lookup has_validator contains bytes_eq add_when Votes.add_vote Rounds.add_vote
    Rounds.add_round Rounds.add_to_new Rounds.new_round_vote_set add_to VoteSet.add_vote
    check_vote_matched type_eq new_vote_set admit record_vote count_invalid_txs quorum add32 quot32
    mul32 size add_block_vote insert set_vote_set after_vote dispatch_vote add_prevote_vote send_own
proc_fourth = refl

proc_vote-Grows_example : Grows early.state after_fourth.state
proc_vote-Grows_example = proc_vote-Grows prevote env fourth_vote early proc_fourth

abbrev timeout : TimeoutInfo
timeout = record { duration = pos 0; height = 5; round = pos 0; step = prevote }

prevote_later : Grows (state_at prevote) committed.state
prevote_later = record { height = refl; later = inr (refl, omega arith) }

precommit_later : Grows (state_at precommit) committed.state
precommit_later = record { height = refl; later = inr (refl, omega arith) }
