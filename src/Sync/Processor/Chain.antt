-- ===== src/Sync/Processor/Chain.antt =====
-- The messages that chainmaker-go-master/module/sync/processor.go handles, in any order, between
-- blocks that the consensus commits.
pub mod Queued
pub mod CatchUp
use chainmaker.Prelude.{ℕ, zero, suc, ◌+◌, Option, none, some, List, [], ◌∷◌, ◌≡◌}
use chainmaker.Prelude.Eq.{nat_instance}
use chainmaker.Prelude.Map.{Map, lookup}
use chainmaker.Sync.{Block, ReceivedBlockInfos, Ledger, last_height, Answer}
use chainmaker.Sync.Processor.{
  BlockWithPeerInfo, Processor, new_processor, handle_received_block_infos, handle_stop_sync_msg,
  handle_process_block_msg, handle_data_detection,
}

pub record Node : Type 0 where
  pub ledger : Ledger
  pub processor : Processor

unfoldable pub received : ReceivedBlockInfos → Node → Node
received msg node = record node {
  processor = handle_received_block_infos msg node.ledger node.processor;
}

unfoldable pub processed : Answer → Answer → Node → Node
processed verified added node =
    let after = handle_process_block_msg verified added node.ledger node.processor in
    record { ledger = after.ledger; processor = after.processor }

pub data Step : Node → Node → Type 0 where
  receive : (msg : ReceivedBlockInfos) (node : Node) → Step node (received msg node)
  process : (verified added : Answer) (node : Node) → Step node (processed verified added node)
  stop : (node : Node) → Step node (record node { processor = handle_stop_sync_msg node.processor })
  detect :
      (node : Node)
      → Step node (record node { processor = handle_data_detection node.ledger node.processor })
  committed_elsewhere :
      (block : Block) (node : Node)
      → block.block_height ≡ last_height node.ledger + 1
      → Step node (record node { ledger = block ∷ node.ledger })

pub data Reachable : Node → Type 0 where
  fresh : Reachable (record { ledger = []; processor = new_processor })
  next : {before after : Node} → Reachable before → Step before after → Reachable after

-- Each block is one higher than the one before, and the first is 1.
abbrev pub Chain : Ledger → Type 0
Chain [] = Unit
Chain (block ∷ more) = (block.block_height ≡ last_height more + 1) × Chain more

-- The queue has each block under its height.
abbrev pub Queued : Map ℕ BlockWithPeerInfo → Type 0
Queued queue =
    (height : ℕ) (info : BlockWithPeerInfo)
    → lookup height queue ≡ some info
    → info.blk.block_height ≡ height

-- One block after the other, from the height on.
abbrev pub Consecutive : ℕ → List Block → Type 0
Consecutive height [] = Unit
Consecutive height (block ∷ more) = (block.block_height ≡ height) × Consecutive (height + 1) more

unfoldable pub process_times : ℕ → Node → Node
process_times zero node = node
process_times (suc n) node = process_times n (processed Answer.passed Answer.passed node)
