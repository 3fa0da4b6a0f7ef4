-- ===== src/Tbft/Engine/Votes.antt =====
-- consensus-tbft-master/consensus_tbft_impl.go: what a vote does once it is in its set, `addVote`.
use chainmaker.Prelude.{Bool, not, ◌&&◌, ◌||◌, Option, none, some, List, [], ◌∷◌, ◌++◌}
use chainmaker.Prelude.Tests.{if◌then◌else◌}
use chainmaker.Prelude.Eq.{Bytes, bytes_eq, bytes_instance}
use chainmaker.Prelude.Map.{Map, lookup}
use chainmaker.Prelude.Int.{ℤ, int_eq, ltb_ℤ, leb_ℤ}
use chainmaker.Prelude.Result.{Error, Result, ok, panic, ◌>>=◌}
use chainmaker.Tbft.Vote
use chainmaker.Tbft.Vote.{
  Vote, VoteType, unknown, Slice, content, nil_hash, is_nil_hash, slice_eq, type_eq,
}
use chainmaker.Tbft.VoteSet.{
  VoteSet, two_thirds_majority, has_two_thirds_any, has_two_thirds_no_majority,
}
use chainmaker.Tbft.Rounds
use chainmaker.Tbft.Rounds.{HeightRoundVoteSet, prevotes, precommits}
use chainmaker.Tbft.State.{
  Proposal, TbftProposal, prevote, precommit, commit, step_eq, ConsensusState,
}
use chainmaker.Tbft.Engine.{add_timeout, consensus_vote, wal_proposal, Engine, Env, emit, set_state}
use chainmaker.Tbft.Engine.Timeouts.{prevote_timeout, precommit_timeout}
use chainmaker.Tbft.Engine.Steps.{enter_precommit, is_locked_on, unlock}
use chainmaker.Tbft.Engine.Commit.{enter_commit}

-- The votes that a set keeps for a hash; the read through a missing entry panics.
abbrev values : Map Bytes Vote → List Vote
values [] = []
values ((k, v) ∷ more) = v ∷ values more

unfoldable pub votes_for : Slice → VoteSet → Result (List Vote)
votes_for hash vs = elim (lookup (content hash) vs.votes_by_block) [
  | none ↦ panic
  | some bv ↦ ok (values bv.votes)
]

-- `append` one by one: nothing appended to a nil slice leaves it nil.
abbrev pub append_qc : Option (List Vote) → List Vote → Option (List Vote)
append_qc qc [] = qc
append_qc none (v ∷ vs) = some (v ∷ vs)
append_qc (some ws) (v ∷ vs) = some (ws ++ v ∷ vs)

-- A majority for another block in a later round than the lock's opens the lock.
unfoldable pub unlock_on : Slice → ℤ → ConsensusState → ConsensusState
unlock_on hash round s = elim s.locked_proposal [
  | none ↦ s
  | some locked ↦
      if ltb_ℤ s.locked_round round && leb_ℤ round s.round && not (is_locked_on hash s)
      then unlock s
      else s
]

-- The valid proposal is the message of the present proposal, which so gets the certificate too.
abbrev pub with_qc : List Vote → TbftProposal → TbftProposal
with_qc votes p = record p { pb_msg = record p.pb_msg { qc = append_qc p.pb_msg.qc votes } }

unfoldable pub update_valid :
    Slice → ℤ → VoteSet → TbftProposal → ConsensusState → Result ConsensusState
update_valid hash round vs p s =
    if not (is_nil_hash hash) && ltb_ℤ s.valid_round round && int_eq round s.round
    then if slice_eq hash p.pb_msg.block.block_hash
      then (do
        votes ← votes_for hash vs
        ok (record s {
          valid_round = round;
          valid_proposal = some (with_qc votes p).pb_msg;
          proposal = some (with_qc votes p);
        }))
      else ok (record s { proposal = none })
    else ok s

-- The set has no majority yet, or is of another round.
unfoldable pub prevote_undecided : Env → ℤ → Option VoteSet → Engine → Result Engine
prevote_undecided env round vote_set e =
    if int_eq e.state.round round && has_two_thirds_any (some e.validator_set) vote_set
    then enter_precommit env e.state.height e.state.round e
    else if int_eq e.state.round round && has_two_thirds_no_majority (some e.validator_set) vote_set
    then ok (
        emit (add_timeout (prevote_timeout e.state.round) e.state.height e.state.round precommit) e)
    else ok e

unfoldable pub prevote_decided : Env → Slice → ℤ → VoteSet → Engine → Result Engine
prevote_decided env hash round vs e =
    let s = unlock_on hash round e.state in
    elim s.proposal [
      | none ↦ enter_precommit env s.height s.round (set_state s e)
      | some p ↦ do
        updated ← update_valid hash round vs p s
        enter_precommit env updated.height updated.round (set_state updated e)
    ]

unfoldable pub prevote_in : Env → ℤ → Option VoteSet → Engine → Result Engine
prevote_in env round none e = prevote_undecided env round none e
prevote_in env round (some vs) e =
    let (hash, majority) = two_thirds_majority (some vs) in
    if not majority || not (int_eq vs.round e.state.round)
    then prevote_undecided env round (some vs) e
    else prevote_decided env hash round vs e

unfoldable pub add_prevote_vote : Env → Vote → Engine → Result Engine
add_prevote_vote env vote e = if not (step_eq e.state.step prevote) then ok e else do
  vote_set ← prevotes vote.round e.state.height_round_vote_set
  prevote_in env vote.round vote_set e

unfoldable pub precommit_undecided : Env → ℤ → Option VoteSet → Engine → Result Engine
precommit_undecided env round vote_set e =
    if int_eq e.state.round round && has_two_thirds_any (some e.validator_set) vote_set
    then enter_commit env e.state.height e.state.round e
    else if int_eq e.state.round round && has_two_thirds_no_majority (some e.validator_set) vote_set
    then ok
        (emit (add_timeout (precommit_timeout e.state.round) e.state.height e.state.round commit) e)
    else ok e

unfoldable pub precommit_decided : Env → Slice → Engine → Result Engine
precommit_decided env hash e = elim e.state.proposal [
  | none ↦ enter_commit env e.state.height e.state.round e
  | some p ↦
      if is_nil_hash hash || slice_eq hash p.pb_msg.block.block_hash
      then enter_commit env e.state.height e.state.round e
      else ok e
]

unfoldable pub precommit_in : Env → ℤ → Option VoteSet → Engine → Result Engine
precommit_in env round none e = precommit_undecided env round none e
precommit_in env round (some vs) e =
    let (hash, majority) = two_thirds_majority (some vs) in
    if not majority || not (int_eq vs.round e.state.round)
    then precommit_undecided env round (some vs) e
    else precommit_decided env hash e

unfoldable pub add_precommit_vote : Env → Vote → Engine → Result Engine
add_precommit_vote env vote e = if not (step_eq e.state.step precommit) then ok e else do
  vote_set ← precommits vote.round e.state.height_round_vote_set
  precommit_in env vote.round vote_set e

-- The certificate of the proposal before it is logged: filled where it is empty but not nil.
unfoldable pub fill_qc : Slice → VoteSet → TbftProposal → Result TbftProposal
fill_qc hash vs p = elim p.pb_msg.qc [
  | some [] ↦ do votes ← votes_for hash vs; ok (with_qc votes p)
  | _ ↦ ok p
]

-- `saveWalEntry` of a proposal: nothing is written when the log is off.
unfoldable pub save_wal_entry : Proposal → Engine → Engine
save_wal_entry entry e = if e.wal_writes then emit (wal_proposal entry) e else e

unfoldable pub log_proposal : Option VoteSet → TbftProposal → Engine → Result Engine
log_proposal none p e = ok e
log_proposal (some vs) p e =
    let (hash, majority) = two_thirds_majority (some vs) in
    if not (majority && not (slice_eq hash nil_hash)) then ok e else do
      filled ← fill_qc hash vs p
      ok (save_wal_entry filled.pb_msg (set_state (record e.state { proposal = some filled }) e))

-- The proposal is logged with the node's own precommit for it.
unfoldable pub save_proposal : Vote → Bool → Engine → Result Engine
save_proposal vote replay_mode e =
    if type_eq vote.type Vote.precommit && not replay_mode
    then elim e.state.proposal [
      | none ↦ ok e
      | some p ↦
          if slice_eq p.pb_msg.block.block_hash vote.hash
          then (do
            vote_set ← prevotes e.state.round e.state.height_round_vote_set
            log_proposal vote_set p e)
          else ok e
    ]
    else ok e

unfoldable pub dispatch_vote : Env → VoteType → Vote → Engine → Result Engine
dispatch_vote env Vote.prevote vote e = add_prevote_vote env vote e
dispatch_vote env Vote.precommit vote e = add_precommit_vote env vote e
dispatch_vote env (unknown n) vote e = ok e

unfoldable pub send_own : Vote → Bool → Engine → Result Engine
send_own vote replay_mode e =
    if not (bytes_eq e.state.id vote.voter)
    then ok e
    else do saved ← save_proposal vote replay_mode e; ok (emit (consensus_vote vote) saved)

-- `addVote` once the vote is stored.
unfoldable pub after_vote : Env → Vote → Bool → Engine → Result (Engine × Option Error)
after_vote env vote replay_mode e = do
  dispatched ← dispatch_vote env vote.type vote e
  done ← send_own vote replay_mode dispatched
  ok (done, none)

abbrev pub store_votes : HeightRoundVoteSet → Engine → Engine
store_votes hvs e = set_state (record e.state { height_round_vote_set = hvs }) e

-- `addVote`: the state, and the error that it returns.
unfoldable pub add_vote : Env → Vote → Bool → Engine → Result (Engine × Option Error)
add_vote env vote replay_mode e = do
  r ← Rounds.add_vote (some e.validator_set) vote e.state.height_round_vote_set
  elim r.error [
    | some error ↦ ok (store_votes r.hvs e, some error)
    | none ↦ after_vote env vote replay_mode (store_votes r.hvs e)
  ]
