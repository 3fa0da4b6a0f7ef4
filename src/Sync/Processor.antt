-- ===== src/Sync/Processor.antt =====
-- chainmaker-go-master/module/sync/processor.go: received blocks wait for their turn.
pub mod Chain
use chainmaker.Prelude.{ℕ, suc, ◌+◌, ◌%◌, Bool, true, false, Option, none, some, List, [], ◌∷◌}
use chainmaker.Prelude.Tests.{ltb, leb, if◌then◌else◌}
use chainmaker.Prelude.Eq.{Bytes, nat_instance}
use chainmaker.Prelude.Int.{u64}
use chainmaker.Prelude.Map.{Map, lookup, insert, delete, discard}
use chainmaker.Sync.{
  Block, BlockInfo, Batch, block_batch, blockinfo_batch, unrecognized, SyncBlockBatch,
  ReceivedBlockInfos, ProcessedBlockStatus, ok, db_err, add_err, has_processed, validate_failed,
  ProcessedBlockResp, Ledger, last_height, Answer, validate_and_commit_block,
}

pub record BlockWithPeerInfo : Type 0 where
  pub id : Bytes
  pub blk : Block
  pub with_rw_sets : Bool
  pub rwsets : Bytes

pub record Processor : Type 0 where
  pub queue : Map ℕ BlockWithPeerInfo
  pub has_commit_block : ℕ
  pub max_height_in_queue : ℕ

unfoldable pub new_processor : Processor
new_processor = record { queue = []; has_commit_block = 0; max_height_in_queue = 0 }

-- The body of the loops over the blocks received.
unfoldable pub put_block : ℕ → BlockWithPeerInfo → Processor → Processor
put_block last_commit_block_height info pro =
    let height = info.blk.block_height in
    if leb height last_commit_block_height then pro else elim (lookup height pro.queue) [
      | some _ ↦ pro
      | none ↦ record pro {
        queue = insert height info pro.queue;
        max_height_in_queue =
            if ltb pro.max_height_in_queue height then height else pro.max_height_in_queue;
      }
    ]

unfoldable pub put_blocks : ℕ → Bytes → Bool → List Block → Processor → Processor
put_blocks last from with_rwset [] pro = pro
put_blocks last from with_rwset (blk ∷ more) pro =
    put_blocks last from with_rwset more
      (put_block last (record { id = from; blk = blk; with_rw_sets = with_rwset; rwsets = [] }) pro)

unfoldable pub put_block_infos : ℕ → Bytes → Bool → List BlockInfo → Processor → Processor
put_block_infos last from with_rwset [] pro = pro
put_block_infos last from with_rwset (info ∷ more) pro = put_block_infos last from with_rwset more (
    put_block last
      (record { id = from; blk = info.block; with_rw_sets = with_rwset; rwsets = info.rw_set_list })
      pro)

abbrev pub put_batch : ℕ → Bytes → Bool → Batch → Processor → Processor
put_batch last from with_rwset (block_batch blocks) pro = put_blocks last from with_rwset blocks pro
put_batch last from with_rwset (blockinfo_batch infos) pro =
    put_block_infos last from with_rwset infos pro
put_batch last from with_rwset unrecognized pro = pro

unfoldable pub handle_received_block_infos : ReceivedBlockInfos → Ledger → Processor → Processor
handle_received_block_infos msg ledger pro =
    put_batch (last_height ledger) msg.from msg.sync_block_batch.with_rwset
      msg.sync_block_batch.batch pro

unfoldable pub handle_stop_sync_msg : Processor → Processor
handle_stop_sync_msg pro = record pro { queue = [] }

abbrev pub is_done : ProcessedBlockStatus → Bool
is_done ok = true
is_done has_processed = true
is_done db_err = false
is_done add_err = false
is_done validate_failed = false

-- The ledger, the processor and the response after a call.
pub record Processed : Type 0 where
  pub ledger : Ledger
  pub processor : Processor
  pub resp : Option ProcessedBlockResp

abbrev pub finish_block :
    ℕ → BlockWithPeerInfo → Ledger × ProcessedBlockStatus → Processor → Processed
finish_block pending info (ledger, status) pro = record {
  ledger = ledger;
  processor = record pro {
    queue = delete pending pro.queue;
    has_commit_block =
        if is_done status then u64 (pro.has_commit_block + 1) else pro.has_commit_block;
  };
  resp = some (record { height = info.blk.block_height; status = status; from = info.id });
}

abbrev pub process_pending :
    Answer → Answer → Ledger → Processor → Option BlockWithPeerInfo → Processed
process_pending verified added ledger pro none = record {
  ledger = ledger;
  processor = pro;
  resp = none;
}
process_pending verified added ledger pro (some info) =
    finish_block (u64 (last_height ledger + 1)) info
      (validate_and_commit_block verified added info.blk ledger) pro

-- `handleProcessBlockMsg`; the answers are those of the verifier and the committer.
unfoldable pub handle_process_block_msg : Answer → Answer → Ledger → Processor → Processed
handle_process_block_msg verified added ledger pro =
    process_pending verified added ledger pro (lookup (u64 (last_height ledger + 1)) pro.queue)

unfoldable pub handle_data_detection : Ledger → Processor → Processor
handle_data_detection ledger pro = record pro {
  queue = discard (λ height. ltb height (u64 (last_height ledger + 1))) pro.queue;
}
