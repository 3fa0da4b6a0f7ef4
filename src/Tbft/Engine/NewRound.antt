-- ===== src/Tbft/Engine/NewRound.antt =====
-- consensus-tbft-master/consensus_tbft_impl.go: `enterNewRound`, `enterPropose` and
-- `getFutureMsgFromCache`.
use chainmaker.Prelude.{ℕ, Bool, true, false, not, ◌&&◌, ◌||◌, Option, none, some, [], ◌∷◌, ◌++◌}
use chainmaker.Prelude.Tests.{ltb, leb, if◌then◌else◌}
use chainmaker.Prelude.Lists.{length}
use chainmaker.Prelude.Eq.{Bytes, bytes_instance}
use chainmaker.Prelude.Map.{Map}
use chainmaker.Prelude.Int.{ℤ, int_eq, ltb_ℤ}
use chainmaker.Prelude.Result.{Result, ok, ◌>>=◌}
use chainmaker.Tbft.Validators.{block_version_231, check_proposed, validator_height}
use chainmaker.Tbft.Vote.{Vote}
use chainmaker.Tbft.Rounds.{RoundVoteSet}
use chainmaker.Tbft.State.{Proposal, new_height, new_round, propose, prevote, step_eq}
use chainmaker.Tbft.Caches.{get_future_proposal, get_future_vote}
use chainmaker.Tbft.Engine.{
  ConsensusMsg, msg_propose, msg_prevote, msg_precommit, stop_optimal_timer, add_timeout,
  propose_state, Engine, Env, emit, default_chan_cap, set_state,
}
use chainmaker.Tbft.Engine.Timeouts.{proposer_of, is_proposer, get_propose_timeout}
use chainmaker.Tbft.Engine.Steps.{cannot_enter}

abbrev or_none : Option Bytes → Bytes
or_none none = []
or_none (some b) = b

-- `getLastBlockProposer`: empty when there is no block, or a look-up fails.
unfoldable pub last_block_proposer : Env → Bytes
last_block_proposer env = elim env.last_block_proposer [
  | none ↦ []
  | some member ↦ elim (env.member_id member) [ none ↦ [] | some id ↦ or_none (env.node_uid id) ]
]

-- The sends of `getFutureMsgFromCache` to the channel of external messages. The flag is false once
-- the channel was full, and then nothing more is sent. The source ranges over a map, the model takes
-- the order of the list.
unfoldable pub put_external : ConsensusMsg → Engine × Bool → Engine × Bool
put_external m (e, going) =
    if going && ltb (length e.external_msg_c) default_chan_cap
    then (record e { external_msg_c = e.external_msg_c ++ m ∷ [] }, true)
    else (e, false)

unfoldable pub put_votes : (Vote → ConsensusMsg) → Map Bytes Vote → Engine × Bool → Engine × Bool
put_votes wrap [] sink = sink
put_votes wrap ((voter, vote) ∷ votes) sink = put_votes wrap votes (put_external (wrap vote) sink)

abbrev pub put_proposal : Option Proposal → Engine × Bool → Engine × Bool
put_proposal none sink = sink
put_proposal (some p) sink = put_external (msg_propose p) sink

abbrev pub put_round : Option RoundVoteSet → Engine × Bool → Engine × Bool
put_round none sink = sink
put_round (some rvs) sink =
    put_votes msg_precommit rvs.precommits.votes (put_votes msg_prevote rvs.prevotes.votes sink)

unfoldable pub get_future_msg_from_cache : ℕ → ℤ → Engine → Engine
get_future_msg_from_cache height round e =
    let sink =
      put_round (get_future_vote height round e.future_cache)
        (put_proposal (get_future_proposal height round e.future_cache) (e, true)) in
    sink.0

-- A proposer with a valid proposal hands it to the channel of proposed blocks; the flag says whether
-- the channel had room.
unfoldable pub offer_valid_proposal : Proposal → Engine → Engine × Bool
offer_valid_proposal p e =
    if ltb (length e.proposed_block_c) default_chan_cap
    then (
      record e {
        proposed_block_c =
            e.proposed_block_c
            ++ record { block = p.block; txs_rw_set = p.txs_rw_set; qc = p.qc } ∷ [];
      },
      true,
    )
    else (e, false)

unfoldable pub propose_as : Bool → Engine → Engine × Bool
propose_as false e = (emit (propose_state false) e, true)
propose_as true e = elim e.state.valid_proposal [
  | some p ↦ offer_valid_proposal p e
  | none ↦
      if check_proposed (some e.validator_set) e.state.height
      then (emit (propose_state true) e, true)
      else (e, true)
]

-- `enterPropose` from the step on.
unfoldable pub propose_in : Env → ℕ → ℤ → Engine → Result Engine
propose_in env height round e = do
  validator ← proposer_of height round e
  let behind = validator_height e.validator_set validator
  let timed = get_propose_timeout env validator behind height round e
  let waiting = emit (add_timeout timed.0 height round prevote) timed.1
  proposer ← is_proposer height round waiting
  let proposed = propose_as proposer waiting
  ok (
      if proposed.1
      then get_future_msg_from_cache proposed.0.state.height proposed.0.state.round proposed.0
      else proposed.0)

unfoldable pub enter_propose : Env → ℕ → ℤ → Engine → Result Engine
enter_propose env height round e₀ =
    let e = emit stop_optimal_timer e₀ in
    if cannot_enter new_round height round e.state
    then ok e
    else propose_in env height round (set_state (record e.state { step = propose }) e)

abbrev pub read_chain : Env → Engine → Engine
read_chain env e =
    let e' = record e { block_version = env.chain_block_version } in
    if leb block_version_231 env.chain_block_version
    then record e' { last_height_proposer = last_block_proposer env }
    else e'

unfoldable pub enter_new_round : Env → ℕ → ℤ → Engine → Result Engine
enter_new_round env height round e₀ =
    let e = read_chain env e₀ in
    if ltb height e.state.height
      || ltb_ℤ round e.state.round
      || (int_eq e.state.round round && not (step_eq e.state.step new_height))
    then ok e
    else enter_propose env height round (record e {
      state = record e.state {
        height = height;
        round = round;
        step = new_round;
        proposal = none;
        verifing_proposal = none;
      };
      invalid_txs = [];
    })
