-- ===== src/Tbft/Engine/Messages.antt =====
-- consensus-tbft-master/consensus_tbft_impl.go: the handlers of vote messages and of timeouts.
use chainmaker.Prelude.{ℕ, Bool, false, not, ◌&&◌, ◌||◌, Option, none, some}
use chainmaker.Prelude.Tests.{ltb, nat_eq, if◌then◌else◌}
use chainmaker.Prelude.Eq.{bytes_eq, bytes_instance, nat_instance}
use chainmaker.Prelude.Map.{insert}
use chainmaker.Prelude.Int.{ℤ, int_eq, ltb_ℤ}
use chainmaker.Prelude.Result.{Error, Result, ok, ◌>>=◌}
use chainmaker.Tbft.Validators.{validator_height}
use chainmaker.Tbft.Vote.{Vote}
use chainmaker.Tbft.Rounds
use chainmaker.Tbft.Rounds.{HeightRoundVoteSet, is_required}
use chainmaker.Tbft.State.{TimeoutInfo, Step, prevote, precommit, commit, step_no, ConsensusState}
use chainmaker.Tbft.Caches.{StateCache, get_consensus_state, add_future_vote}
use chainmaker.Tbft.Engine.{consensus_vote, Engine, Env, emit}
use chainmaker.Tbft.Engine.Steps.{enter_prevote, enter_precommit}
use chainmaker.Tbft.Engine.Commit.{enter_commit}
use chainmaker.Tbft.Engine.Votes.{add_vote, store_votes}

unfoldable pub update_validator_height : Env → Vote → Engine → Engine
update_validator_height env vote e =
    let val_set = e.validator_set in
    let heights =
      if ltb (validator_height val_set vote.voter) vote.height
      then insert vote.voter vote.height val_set.validators_height
      else val_set.validators_height in
    record e {
      validator_set = record val_set {
        validators_height = heights;
        validators_beat_time = insert vote.voter env.now val_set.validators_beat_time;
      };
    }

-- The write through the pointer that `getConsensusState` returns.
abbrev pub set_past : ℕ → ConsensusState → StateCache → StateCache
set_past height s c = record c { cache = insert height s c.cache }

abbrev pub broadcast_unless : Option Error → Vote → Engine → Engine
broadcast_unless (some error) vote e = e
broadcast_unless none vote e = emit (consensus_vote vote) e

abbrev pub store_past : ℕ → HeightRoundVoteSet → ConsensusState → Engine → Engine
store_past height hvs past e = record e {
  state_cache = set_past height (record past { height_round_vote_set = hvs }) e.state_cache;
}

unfoldable pub proc_past_vote : Vote → Engine → Result Engine
proc_past_vote vote e = elim (get_consensus_state vote.height e.state_cache) [
  | none ↦ ok (emit (consensus_vote vote) e)
  | some past ↦ do
    r ← Rounds.add_vote (some e.validator_set) vote past.height_round_vote_set
    ok (broadcast_unless r.error vote (store_past vote.height r.hvs past e))
]

unfoldable pub proc_present_vote : Vote → Engine → Result Engine
proc_present_vote vote e = do
  r ← Rounds.add_vote (some e.validator_set) vote e.state.height_round_vote_set
  ok (broadcast_unless r.error vote (store_votes r.hvs e))

unfoldable pub proc_local_vote : Vote → Engine → Result Engine
proc_local_vote vote e =
    if not (bytes_eq vote.voter e.state.id)
    then ok e
    else if nat_eq vote.height e.state.height
    then proc_present_vote vote e
    else proc_past_vote vote e

-- The vote is of another height, or below the locked round, the round or the step.
unfoldable pub is_late : Step → Vote → ConsensusState → Bool
is_late step vote s =
    not (nat_eq s.height vote.height)
    || ltb_ℤ vote.round s.locked_round
    || ltb_ℤ vote.round s.round
    || (int_eq s.round vote.round && ltb (step_no step) (step_no s.step))

-- The end of both handlers: `addVote`, unless the vote of another node is not required.
unfoldable pub add_when : Bool → Env → Vote → Engine → Result Engine
add_when required env vote e =
    if not required && not (bytes_eq vote.voter e.state.id)
    then ok e
    else do added ← add_vote env vote false e; ok added.0

unfoldable pub add_if_required : Env → Vote → Engine → Result Engine
add_if_required env vote e = do
  required ← is_required (some e.validator_set) vote.round (some vote) e.state.height_round_vote_set
  add_when required env vote e

-- `procPrevote` and `procPrecommit` differ in the step that they test.
unfoldable pub proc_vote : Step → Env → Vote → Engine → Result Engine
proc_vote step env vote e₀ =
    let e = update_validator_height env vote e₀ in
    if ltb e.state.height vote.height
    then (do
      future ← add_future_vote (some e.validator_set) vote e.future_cache
      ok (record e { future_cache = future }))
    else if is_late step vote e.state
    then proc_local_vote vote e
    else add_if_required env vote e

unfoldable pub proc_prevote : Env → Vote → Engine → Result Engine
proc_prevote env vote e = proc_vote prevote env vote e

unfoldable pub proc_precommit : Env → Vote → Engine → Result Engine
proc_precommit env vote e = proc_vote precommit env vote e

-- The `switch` of `handleTimeout`.
unfoldable pub enter_step : Env → ℕ → ℤ → Step → Engine → Result Engine
enter_step env height round prevote e = ok (enter_prevote env height round e)
enter_step env height round precommit e = enter_precommit env height round e
enter_step env height round commit e = enter_commit env height round e
enter_step env height round _ e = ok e

unfoldable pub handle_timeout : Env → TimeoutInfo → Engine → Result Engine
handle_timeout env ti e = enter_step env ti.height ti.round ti.step e
