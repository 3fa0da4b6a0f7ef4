-- ===== src/Tbft/Engine/Steps.antt =====
-- consensus-tbft-master/consensus_tbft_impl.go: `enterPrevote` and `enterPrecommit`.
use chainmaker.Prelude.{ℕ, Bool, false, not, ◌&&◌, ◌||◌, Option, none, some}
use chainmaker.Prelude.Tests.{nat_eq, if◌then◌else◌}
use chainmaker.Prelude.Eq.{bytes_instance}
use chainmaker.Prelude.Int.{ℤ, negsuc, int_eq, ltb_ℤ}
use chainmaker.Prelude.Result.{Result, ok, panic, ◌>>=◌}
use chainmaker.Tbft.Vote.{Vote, VoteType, Slice, nil, nil_hash, is_nil_hash, slice_eq, new_vote}
use chainmaker.Tbft.VoteSet.{
  VoteSet, two_thirds_majority, has_two_thirds_any, has_two_thirds_no_majority, del_invalid_tx,
}
use chainmaker.Tbft.Rounds.{prevotes}
use chainmaker.Tbft.State.{
  Proposal, TbftProposal, Step, propose, prevote, precommit, step_eq, ConsensusState,
}
use chainmaker.Tbft.Vote
use chainmaker.Tbft.Engine.{
  msg_prevote, msg_precommit, stop_optimal_timer, propose_state, fail_txs, Engine, Env, emit,
  set_state, put_internal,
}

-- The test that each step begins with: the height and round are not those that may enter it.
unfoldable pub cannot_enter : Step → ℕ → ℤ → ConsensusState → Bool
cannot_enter from height round s =
    not (nat_eq s.height height)
    || ltb_ℤ round s.round
    || (int_eq s.round round && not (step_eq s.step from))

-- `signVote`: an error leaves the vote without an endorsement, and is only logged.
unfoldable pub sign_vote : Env → Vote → Vote
sign_vote env vote = elim (env.sign vote) [
  | none ↦ vote
  | some endorsement ↦ record vote { endorsement = endorsement }
]

-- What a prevote is for: the locked proposal, or the present one, or nil.
abbrev pub prevote_hash : ConsensusState → Slice
prevote_hash s = elim s.locked_proposal [
  | some locked ↦ locked.block.block_hash
  | none ↦ elim s.proposal [ none ↦ nil_hash | some p ↦ p.pb_msg.block.block_hash ]
]

unfoldable pub own_prevote : Engine → Vote
own_prevote e =
    let hash = prevote_hash e.state in
    let vote = new_vote Vote.prevote e.state.id e.state.height e.state.round hash in
    if slice_eq hash nil_hash then record vote { invalid_txs = e.invalid_txs } else vote

unfoldable pub enter_prevote : Env → ℕ → ℤ → Engine → Engine
enter_prevote env height round e₀ =
    let e = emit stop_optimal_timer e₀ in
    if cannot_enter propose height round e.state
    then e
    else let stepped =
        emit (propose_state false) (set_state (record e.state { step = prevote }) e) in
      put_internal (msg_prevote (sign_vote env (own_prevote stepped))) stepped

-- `delInvalidTxs`
unfoldable pub del_invalid_txs : Option VoteSet → Slice → Engine → Engine
del_invalid_txs vs hash e =
    if is_nil_hash hash
    then elim (del_invalid_tx vs e.state.height) [
      | none ↦ e
      | some (height, txs) ↦ emit (fail_txs height txs) e
    ]
    else e

-- Tests of the proposals that a state holds against a hash.
abbrev pub is_locked_on : Slice → ConsensusState → Bool
is_locked_on hash s = elim s.locked_proposal [
  | none ↦ false
  | some locked ↦ slice_eq hash locked.block.block_hash
]

abbrev pub has_proposal : Slice → ConsensusState → Bool
has_proposal hash s = elim s.proposal [
  | none ↦ false
  | some p ↦ slice_eq hash p.pb_msg.block.block_hash
]

abbrev pub unlock : ConsensusState → ConsensusState
unlock s = record s { locked_round = negsuc 0; locked_proposal = none }

abbrev pub pb_msg_of : Option TbftProposal → Option Proposal
pb_msg_of none = none
pb_msg_of (some p) = some p.pb_msg

-- The `switch` of `enterPrecommit` on the majority of the prevotes: the hash to precommit, and the
-- state with the lock.
unfoldable pub lock_on : Slice → ℤ → ConsensusState → Slice × ConsensusState
lock_on hash round s =
    if is_nil_hash hash
    then elim s.locked_proposal [ none ↦ (hash, s) | some locked ↦ (hash, unlock s) ]
    else if is_locked_on hash s
    then (hash, record s { locked_round = round })
    else if has_proposal hash s
    then (hash, record s { locked_round = round; locked_proposal = pb_msg_of s.proposal })
    else (nil_hash, unlock s)

-- The message is a copy without invalid transactions, which a new vote has none of.
unfoldable pub send_precommit : Env → Slice → Engine → Engine
send_precommit env hash e =
    put_internal
      (msg_precommit
        (sign_vote env (new_vote Vote.precommit e.state.id e.state.height e.state.round hash)))
      e

-- `enterPrecommit` after the look-up of the prevotes of the round.
unfoldable pub precommit_on : Env → ℤ → Option VoteSet → Engine → Result Engine
precommit_on env round vote_set e =
    let (hash, majority) = two_thirds_majority vote_set in
    let cleaned = del_invalid_txs vote_set hash e in
    let (voted, s) = lock_on hash round cleaned.state in
    if majority
    then ok (send_precommit env voted (set_state s cleaned))
    else if has_two_thirds_any (some e.validator_set) vote_set
        || has_two_thirds_no_majority (some e.validator_set) vote_set
    then ok (send_precommit env nil_hash cleaned)
    else panic

unfoldable pub enter_precommit : Env → ℕ → ℤ → Engine → Result Engine
enter_precommit env height round e = if cannot_enter prevote height round e.state then ok e else do
  vote_set ← prevotes e.state.round e.state.height_round_vote_set
  precommit_on env round vote_set (set_state (record e.state { step = precommit }) e)
