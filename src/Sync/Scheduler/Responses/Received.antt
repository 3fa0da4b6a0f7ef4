-- ===== src/Sync/Scheduler/Responses/Received.antt =====
-- `updateSchedulerBySyncBlockBatch` of chainmaker-go-master/module/sync/scheduler.go.
use chainmaker.Prelude.{
  ℕ, ◌≤◌, Bool, true, false, ◌||◌, Option, none, some, List, [], ◌∷◌, ◌≡◌, refl, arith,
}
use chainmaker.Prelude.Tests.{ltb, nat_eq, if◌then◌else◌}
use chainmaker.Prelude.Lists.{length}
use chainmaker.Prelude.Eq.{Bytes, nat_instance}
use chainmaker.Prelude.Map.{Map, lookup, lookup-insert, lookup-delete}
use chainmaker.Sync.{Batch, block_batch, blockinfo_batch, unrecognized, SyncBlockBatch}
use chainmaker.Sync.Scheduler.{BlockState, new_block, pending_block, received_block, Scheduler}
use chainmaker.Sync.Scheduler.Responses.{
  awaits, receive_height, receive_heights, block_heights, info_heights,
  update_scheduler_by_sync_block_batch, hand_over, handle_synced_block_msg,
}

abbrev pub among : ℕ → List ℕ → Bool
among height [] = false
among height (h ∷ more) = nat_eq h height || among height more

-- Whether one of the heights has a state other than received.
abbrev pub any_awaits : List ℕ → Map ℕ BlockState → Bool
any_awaits [] states = false
any_awaits (h ∷ more) states = awaits (lookup h states) || any_awaits more states

abbrev pub as_received : Option BlockState → Option BlockState
as_received none = none
as_received (some state) = some received_block

as_received_twice : (o : Option BlockState) → as_received (as_received o) ≡ as_received o
as_received_twice none = refl
as_received_twice (some state) = refl

not_awaiting : (o : Option BlockState) → awaits o ≡ false → as_received o ≡ o
not_awaiting none h = refl
not_awaiting (some received_block) h = refl
not_awaiting (some new_block) h = cc
not_awaiting (some pending_block) h = cc

awaits-as_received : (o : Option BlockState) → awaits (as_received o) ≡ false
awaits-as_received none = refl
awaits-as_received (some state) = refl

awaits_received : (o : Option BlockState) → awaits o ≡ true → as_received o ≡ some received_block
awaits_received (some state) h = refl
awaits_received none h = cc

abbrev pub states_of : Scheduler × Bool → Map ℕ BlockState
states_of state = Scheduler.block_states (state.0)

receive_height_states :
    (from : Bytes) (height h : ℕ) (sch : Scheduler) (need : Bool)
    → lookup h (states_of (receive_height from height (sch, need))) ≡ (
        if nat_eq height h
        then as_received (lookup h sch.block_states)
        else lookup h sch.block_states)
unfolding receive_height
receive_height_states from height h sch need = ground (
  arith,
  lookup-insert height h received_block sch.block_states,
  not_awaiting (lookup height sch.block_states),
  awaits_received (lookup height sch.block_states),
)

receive_height_pending :
    (from : Bytes) (height h : ℕ) (sch : Scheduler) (need : Bool)
    → lookup h (Scheduler.pending_blocks ((receive_height from height (sch, need)).0))
      ≡ (if nat_eq height h then none else lookup h sch.pending_blocks)
unfolding receive_height
receive_height_pending from height h sch need =
    ground (arith, lookup-delete height h sch.pending_blocks)

receive_height_need :
    (from : Bytes) (height : ℕ) (sch : Scheduler) (need : Bool)
    → (receive_height from height (sch, need)).1 ≡ (awaits (lookup height sch.block_states) || need)
unfolding receive_height
receive_height_need from height sch need = ground arith

-- A height that is received no longer counts for the others.
any_awaits_after :
    (from : Bytes) (height : ℕ) (heights : List ℕ) (sch : Scheduler) (need : Bool)
    → (any_awaits heights (states_of (receive_height from height (sch, need)))
        || awaits (lookup height sch.block_states))
      ≡ (any_awaits heights sch.block_states || awaits (lookup height sch.block_states))
any_awaits_after from height [] sch need = refl
any_awaits_after from height (h ∷ more) sch need = ground (
  arith,
  any_awaits_after from height more sch need,
  receive_height_states from height h sch need,
  awaits-as_received (lookup h sch.block_states),
)

receive_heights_lem :
    (from : Bytes) (heights : List ℕ) (sch : Scheduler) (need : Bool)
    → let (after, need_to_process) = receive_heights from heights (sch, need) in
      (need_to_process ≡ (any_awaits heights sch.block_states || need))
      × ((h : ℕ)
          → (lookup h after.block_states ≡ (
              if among h heights
              then as_received (lookup h sch.block_states)
              else lookup h sch.block_states))
            × (lookup h after.pending_blocks
                ≡ (if among h heights then none else lookup h sch.pending_blocks)))
unfolding receive_heights
receive_heights_lem from [] sch need = (refl, λ h. (refl, refl))
receive_heights_lem from (height ∷ more) sch need =
    let first = receive_height from height (sch, need) in
    let (needs, changed) = receive_heights_lem from more (first.0) (first.1) in
    (
      ground (
        arith,
        needs,
        receive_height_need from height sch need,
        any_awaits_after from height more sch need,
      ),
      λ h.
          let (state, pending) = changed h in
          (
            ground (
              arith,
              state,
              receive_height_states from height h sch need,
              as_received_twice (lookup h sch.block_states),
            ),
            ground (arith, pending, receive_height_pending from height h sch need),
          ),
    )

abbrev pub heights_of : Batch → List ℕ
heights_of (block_batch blocks) = block_heights blocks
heights_of (blockinfo_batch infos) = info_heights infos
heights_of unrecognized = []

updates :
    (from : Bytes) (batch : Batch) (sch : Scheduler)
    → update_scheduler_by_sync_block_batch from batch sch
      ≡ receive_heights from (heights_of batch) (sch, false)
unfolding update_scheduler_by_sync_block_batch receive_heights
updates from (block_batch blocks) sch = refl
updates from (blockinfo_batch infos) sch = refl
updates from unrecognized sch = refl

hands_over :
    (from : Bytes) (blk_batch : SyncBlockBatch) (after : Scheduler × Bool)
    → hand_over from blk_batch after ≡ (
      after.0,
      if after.1 then some (record { sync_block_batch = blk_batch; from = from }) else none,
    )
hands_over from blk_batch (sch, true) = refl
hands_over from blk_batch (sch, false) = refl

-- When the service is not stopped and holds no more received blocks than allowed,
-- handleSyncedBlockMsg of a message that can be read hands it on exactly when a block's height has
-- a state other than received; every height of the message that has a state is then received, none
-- is pending, and the other heights are as before.
pub handle_synced_block_msg_lem :
    (from : Bytes) (blk_batch : SyncBlockBatch) (sch : Scheduler)
    → length sch.received_blocks ≤ sch.max_pending_blocks
    → sch.stop_sync_block ≡ false
    → let (after, out) =
        handle_synced_block_msg (record { msg = some blk_batch; from = from }) sch in
      let heights = heights_of blk_batch.batch in
      (out ≡ (
        if any_awaits heights sch.block_states
        then some (record { sync_block_batch = blk_batch; from = from })
        else none))
      × ((h : ℕ)
          → (lookup h after.block_states ≡ (
              if among h heights
              then as_received (lookup h sch.block_states)
              else lookup h sch.block_states))
            × (lookup h after.pending_blocks
                ≡ (if among h heights then none else lookup h sch.pending_blocks)))
unfolding handle_synced_block_msg
handle_synced_block_msg_lem from blk_batch sch fits running =
    let few : (ltb sch.max_pending_blocks (length sch.received_blocks) || sch.stop_sync_block)
        ≡ false =
      ground arith in
    let (needs, changed) = receive_heights_lem from (heights_of blk_batch.batch) sch false in
    rw (few, updates from blk_batch.batch sch, hands_over from blk_batch _)
      (ground (arith, needs), changed)
