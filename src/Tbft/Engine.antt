-- ===== src/Tbft/Engine.antt =====
-- consensus-tbft-master/consensus_tbft_impl.go: the state of the consensus engine, what it sends, and
-- what it reads of other components. A handler takes the state, and returns the state after it or
-- panics; the messages, timeouts and blocks that it hands to other components are appended to
-- `sent`. Metrics and logging are not modelled.
pub mod Timeouts
pub mod Steps
pub mod NewRound
pub mod Commit
pub mod Votes
pub mod Messages
pub mod RoundCertificate
pub mod Locks
pub mod Position
pub mod Certificates
use chainmaker.Prelude.{ℕ, Bool, Option, none, some, List, [], ◌∷◌, ◌++◌}
use chainmaker.Prelude.Tests.{ltb, if◌then◌else◌}
use chainmaker.Prelude.Lists.{length}
use chainmaker.Prelude.Eq.{Bytes}
use chainmaker.Prelude.Map.{Map}
use chainmaker.Prelude.Int.{ℤ}
use chainmaker.Prelude.Result.{Result, ok, err, panic}
use chainmaker.Tbft.Validators.{ValidatorSet}
use chainmaker.Tbft.Vote.{Vote, Slice}
use chainmaker.Tbft.VoteSet.{VoteSetProto}
use chainmaker.Tbft.State.{Block, Proposal, Step, ConsensusState}
use chainmaker.Tbft.Caches.{StateCache, FutureCache}

-- A `ConsensusMsg` of the channels: a proposal or a vote.
pub data ConsensusMsg : Type 0 where
  msg_propose : Proposal → ConsensusMsg
  msg_prevote msg_precommit : Vote → ConsensusMsg

pub record ProposedProposal : Type 0 where
  pub block : Block
  pub txs_rw_set : Option (Map Bytes Bytes)
  pub qc : Option (List Vote)

-- What the engine hands to other components: the timers, the message bus, the other nodes and the
-- write-ahead log.
pub data Sent : Type 0 where
  stop_optimal_timer reset_optimal_timer : Sent
  add_timeout : ℤ → ℕ → ℤ → Step → Sent
  propose_state : Bool → Sent
  fail_txs : ℕ → List Bytes → Sent
  verify_block : Block → Sent
  commit_block : Block → Option VoteSetProto → Sent
  consensus_vote : Vote → Sent
  wal_proposal : Proposal → Sent

-- `ConsensusTBFTImpl`: the embedded state of the height is `state`, the channels are lists. The
-- validator set is not nil from the constructor on. `wal_writes` says that `walWriteMode` is not
-- `NonWalWrite`.
pub record Engine : Type 0 where
  pub state : ConsensusState
  pub validator_set : ValidatorSet
  pub block_version : ℕ
  pub last_height_proposer : Bytes
  pub invalid_txs : List Bytes
  pub state_cache : StateCache
  pub future_cache : FutureCache
  pub timeout_propose : ℤ
  pub timeout_propose_delta : ℤ
  pub timeout_propose_optimal : ℤ
  pub propose_optimal : Bool
  pub proposed_block_c : List ProposedProposal
  pub external_msg_c : List ConsensusMsg
  pub internal_msg_c : List ConsensusMsg
  pub wal_writes : Bool
  pub sent : List Sent

-- Other components during a call: the chain configuration, the last block of the ledger, the access
-- control, the net service, the signer, the clock and protobuf.
pub record Env : Type 0 where
  pub chain_block_version : ℕ
  pub last_block_proposer : Option Bytes
  pub member_id : Bytes → Option Bytes
  pub node_uid : Bytes → Option Bytes
  pub sign : Vote → Option Bytes
  pub now : ℤ
  pub encode : Proposal → Slice

abbrev pub emit : Sent → Engine → Engine
emit m e = record e { sent = e.sent ++ m ∷ [] }

abbrev pub default_chan_cap : ℕ
default_chan_cap = 1000

abbrev pub set_state : ConsensusState → Engine → Engine
set_state s e = record e { state = s }

-- A send in a `select` with a default: the message is dropped when the channel is full.
unfoldable pub put_internal : ConsensusMsg → Engine → Engine
put_internal m e =
    if ltb (length e.internal_msg_c) default_chan_cap
    then record e { internal_msg_c = e.internal_msg_c ++ m ∷ [] }
    else e
