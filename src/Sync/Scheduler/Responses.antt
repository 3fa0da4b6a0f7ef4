-- ===== src/Sync/Scheduler/Responses.antt =====
-- chainmaker-go-master/module/sync/scheduler.go: blocks that arrive, and the processor's responses.
pub mod Received
use chainmaker.Prelude.{ℕ, ◌+◌, Bool, true, false, ◌||◌, Option, none, some, List, [], ◌∷◌}
use chainmaker.Prelude.Tests.{ltb, leb, if◌then◌else◌}
use chainmaker.Prelude.Lists.{length}
use chainmaker.Prelude.Eq.{Bytes, bytes_instance, nat_instance}
use chainmaker.Prelude.Int.{u64}
use chainmaker.Prelude.Map.{lookup, insert, delete}
use chainmaker.Sync.{
  Block, BlockInfo, Batch, block_batch, blockinfo_batch, unrecognized, SyncBlockBatch,
  ReceivedBlockInfos, ProcessedBlockStatus, ok, db_err, add_err, has_processed, validate_failed,
  ProcessedBlockResp,
}
use chainmaker.Sync.Scheduler.{BlockState, new_block, pending_block, received_block, Scheduler}

abbrev pub awaits : Option BlockState → Bool
awaits none = false
awaits (some new_block) = true
awaits (some pending_block) = true
awaits (some received_block) = false

-- The body of the loop for one height.
unfoldable pub receive_height : Bytes → ℕ → Scheduler × Bool → Scheduler × Bool
receive_height from height (sch, need_to_process) =
    let sch' = record sch {
      pending_blocks = delete height sch.pending_blocks;
      pending_time = delete height sch.pending_time;
    } in
    if awaits (lookup height sch.block_states)
    then (
      record sch' {
        block_states = insert height received_block sch.block_states;
        received_blocks = insert height from sch.received_blocks;
      },
      true,
    )
    else (sch', need_to_process)

unfoldable pub receive_heights : Bytes → List ℕ → Scheduler × Bool → Scheduler × Bool
receive_heights from [] state = state
receive_heights from (height ∷ more) state =
    receive_heights from more (receive_height from height state)

abbrev pub block_heights : List Block → List ℕ
block_heights [] = []
block_heights (b ∷ more) = b.block_height ∷ block_heights more

abbrev pub info_heights : List BlockInfo → List ℕ
info_heights [] = []
info_heights (info ∷ more) = info.block.block_height ∷ info_heights more

-- Batches of the two known types; any other is passed over.
unfoldable pub update_scheduler_by_sync_block_batch : Bytes → Batch → Scheduler → Scheduler × Bool
update_scheduler_by_sync_block_batch from (block_batch blocks) sch =
    receive_heights from (block_heights blocks) (sch, false)
update_scheduler_by_sync_block_batch from (blockinfo_batch infos) sch =
    receive_heights from (info_heights infos) (sch, false)
update_scheduler_by_sync_block_batch from unrecognized sch = (sch, false)

-- The message's bytes, as `proto.Unmarshal` reads them, or its error.
pub record SyncedBlockMsg : Type 0 where
  pub msg : Option SyncBlockBatch
  pub from : Bytes

abbrev pub hand_over :
    Bytes → SyncBlockBatch → Scheduler × Bool → Scheduler × Option ReceivedBlockInfos
hand_over from blk_batch (sch, true) =
    (sch, some (record { sync_block_batch = blk_batch; from = from }))
hand_over from blk_batch (sch, false) = (sch, none)

abbrev pub handle_batch :
    Bytes → Option SyncBlockBatch → Scheduler → Scheduler × Option ReceivedBlockInfos
handle_batch from none sch = (sch, none)
handle_batch from (some blk_batch) sch =
    hand_over from blk_batch (update_scheduler_by_sync_block_batch from blk_batch.batch sch)

-- The limit `int(sch.maxPendingBlocks)` is the number itself: the configured value is below 2^63.
-- The header of a received block is not nil.
unfoldable pub handle_synced_block_msg :
    SyncedBlockMsg → Scheduler → Scheduler × Option ReceivedBlockInfos
handle_synced_block_msg msg sch =
    if ltb sch.max_pending_blocks (length sch.received_blocks) || sch.stop_sync_block
    then (sch, none)
    else handle_batch msg.from msg.msg sch

abbrev pub finish_height : ℕ → Scheduler → Scheduler
finish_height height sch = record sch {
  block_states = delete height sch.block_states;
  pending_recv_height =
      if leb sch.pending_recv_height height then u64 (height + 1) else sch.pending_recv_height;
}

abbrev pub ask_again : ℕ → Bytes → Scheduler → Scheduler
ask_again height from sch = record sch {
  block_states = insert height new_block sch.block_states;
  peers = delete from sch.peers;
}

-- The response's part by its status, and whether an error is returned.
abbrev pub by_status : ProcessedBlockStatus → ℕ → Bytes → Scheduler → Scheduler × Bool
by_status ok height from sch = (finish_height height sch, false)
by_status has_processed height from sch = (finish_height height sch, false)
by_status validate_failed height from sch = (ask_again height from sch, false)
by_status db_err height from sch = (sch, true)
by_status add_err height from sch = (ask_again height from sch, true)

unfoldable pub handle_processed_block_resp : ProcessedBlockResp → Scheduler → Scheduler × Bool
handle_processed_block_resp msg sch =
    by_status msg.status msg.height msg.from
      (record sch { received_blocks = delete msg.height sch.received_blocks })
