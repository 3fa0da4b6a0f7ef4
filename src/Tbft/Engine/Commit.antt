-- ===== src/Tbft/Engine/Commit.antt =====
-- consensus-tbft-master/consensus_tbft_impl.go: `enterCommit` and `commitBlock`.
use chainmaker.Prelude.{ℕ, not, ◌&&◌, Option, none, some}
use chainmaker.Prelude.Tests.{if◌then◌else◌}
use chainmaker.Prelude.Eq.{bytes_instance}
use chainmaker.Prelude.Int.{ℤ, pos, add32}
use chainmaker.Prelude.Result.{Result, ok, panic, ◌>>=◌}
use chainmaker.Tbft.Vote.{Slice, nil_hash, is_nil_hash, slice_eq}
use chainmaker.Tbft.VoteSet.{VoteSetProto, VoteSet, two_thirds_majority, to_proto}
use chainmaker.Tbft.Rounds.{precommits}
use chainmaker.Tbft.State.{Block, block_hash_of, Proposal, new_tbft_proposal, precommit, commit}
use chainmaker.Tbft.Engine.{commit_block, Engine, Env, emit, set_state}
use chainmaker.Tbft.Engine.Timeouts.{is_proposer}
use chainmaker.Tbft.Engine.Steps.{cannot_enter, has_proposal}
use chainmaker.Tbft.Engine.NewRound.{enter_new_round}

unfoldable pub take_up : Env → Proposal → Engine → Result Engine
take_up env locked e = do
  proposer ← is_proposer e.state.height e.state.round e
  ok (
      set_state (record e.state { proposal = some (new_tbft_proposal env.encode locked proposer) })
        e)

-- `enterCommit` takes up the locked proposal, if it is the one with the majority and the present
-- proposal is another.
unfoldable pub take_locked : Env → Slice → Engine → Result Engine
take_locked env hash e = elim e.state.locked_proposal [
  | none ↦ ok e
  | some locked ↦
      if slice_eq hash (block_hash_of locked.block)
        && not (has_proposal (block_hash_of locked.block) e.state)
      then take_up env locked e
      else ok e
]

abbrev pub to_proto_or_nil : Option VoteSet → Option VoteSetProto
to_proto_or_nil none = none
to_proto_or_nil (some vs) = some (to_proto vs)

-- `commitBlock`: the block carries the encoded precommits.
unfoldable pub commit_to_core : Block → Option VoteSet → Engine → Engine
commit_to_core block vote_set e = emit (commit_block block (to_proto_or_nil vote_set)) e

-- The end of `enterCommit`: the next round, or the commit.
unfoldable pub finish_commit : Env → ℤ → Slice → Option VoteSet → Engine → Result Engine
finish_commit env round hash₀ vote_set e = elim e.state.proposal [
  | none ↦ enter_new_round env e.state.height (add32 round (pos 1)) e
  | some p ↦
      let hash = if not (slice_eq hash₀ (block_hash_of p.pb_msg.block)) then nil_hash else hash₀ in
      if is_nil_hash hash
      then enter_new_round env e.state.height (add32 round (pos 1)) e
      else if not (slice_eq hash p.pb_msg.block.block_hash)
      then panic
      else ok (commit_to_core p.pb_msg.block vote_set e)
]

unfoldable pub commit_on : Env → ℤ → Option VoteSet → Engine → Result Engine
commit_on env round vote_set e =
    let (hash, majority) = two_thirds_majority vote_set in
    if not (is_nil_hash hash) && not majority
    then panic
    else do taken ← take_locked env hash e; finish_commit env round hash vote_set taken

unfoldable pub enter_commit : Env → ℕ → ℤ → Engine → Result Engine
enter_commit env height round e = if cannot_enter precommit height round e.state then ok e else do
  vote_set ← precommits e.state.round e.state.height_round_vote_set
  commit_on env round vote_set (set_state (record e.state { step = commit }) e)
