-- ===== src/Tbft/State.antt =====
-- consensus-tbft-master/state.go, tbft_msg.go, and the messages of pb-go-master/consensus/tbft: blocks,
-- proposals and the consensus state of a height.
use chainmaker.Prelude.{ℕ, Bool, Option, List}
use chainmaker.Prelude.Eq.{Bytes}
use chainmaker.Prelude.Map.{Map}
use chainmaker.Prelude.Int.{ℤ}
use chainmaker.Prelude.Tests.{if◌then◌else◌, nat_eq}
use chainmaker.Tbft.Vote.{Vote, Slice, nil}
use chainmaker.Tbft.Rounds.{HeightRoundVoteSet}

-- What the consensus reads and writes of a block: its height, its hash and the votes that it
-- carries. The other parts of a block pass through unread: they are its payload.
pub record Block : Type 0 where
  pub block_height : ℕ
  pub block_hash : Slice
  pub payload : Bytes

-- `(*Block).Hash` of pb-go-master/common/block_ext.go.
unfoldable pub block_hash_of : Block → Slice
block_hash_of b = b.block_hash

pub record Proposal : Type 0 where
  pub voter : Bytes
  pub height : ℕ
  pub round : ℤ
  pub pol_round : ℤ
  pub block : Block
  pub txs_rw_set : Option (Map Bytes Bytes)
  pub qc : Option (List Vote)

-- `marshal` is the protobuf encoding of a proposal, which other code provides.
pub record TbftProposal : Type 0 where
  pub pb_msg : Proposal
  pub raw : Slice

unfoldable pub new_tbft_proposal : (Proposal → Slice) → Proposal → Bool → TbftProposal
new_tbft_proposal encode proposal marshal = record {
  pb_msg = proposal;
  raw = if marshal then encode proposal else nil;
}

pub data Step : Type 0 where
  new_height new_round propose prevote prevote_wait precommit precommit_wait commit : Step

-- The number of the enumeration.
abbrev pub step_no : Step → ℕ
step_no new_height = 0
step_no new_round = 1
step_no propose = 2
step_no prevote = 3
step_no prevote_wait = 4
step_no precommit = 5
step_no precommit_wait = 6
step_no commit = 7

abbrev pub step_eq : Step → Step → Bool
step_eq a b = nat_eq (step_no a) (step_no b)

-- A timeout: how long to wait, and the step to enter then.
pub record TimeoutInfo : Type 0 where
  pub duration : ℤ
  pub height : ℕ
  pub round : ℤ
  pub step : Step

-- The pointer to the vote sets is not nil from the first height on.
pub record ConsensusState : Type 0 where
  pub id : Bytes
  pub height : ℕ
  pub round : ℤ
  pub step : Step
  pub proposal : Option TbftProposal
  pub verifing_proposal : Option TbftProposal
  pub locked_round : ℤ
  pub locked_proposal : Option Proposal
  pub valid_round : ℤ
  pub valid_proposal : Option Proposal
  pub height_round_vote_set : HeightRoundVoteSet
