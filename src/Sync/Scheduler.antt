-- ===== src/Sync/Scheduler.antt =====
-- chainmaker-go-master/module/sync/scheduler.go: what blocks are asked of what peers. Times are
-- numbers of nanoseconds of a clock that does not run backwards.
pub mod Requests
pub mod Responses
use chainmaker.Prelude.{
  ℕ, zero, suc, ◌+◌, ◌-◌, ◌%◌, Bool, true, false, not, ◌&&◌, ◌||◌, Option, none, some, List, [],
  ◌∷◌, ◌++◌,
}
use chainmaker.Prelude.Tests.{ltb, leb, nat_eq, if◌then◌else◌}
use chainmaker.Prelude.Lists.{length, get_elem?}
use chainmaker.Prelude.Eq.{Bytes, bytes_instance, nat_instance, ◌==◌}
use chainmaker.Prelude.Int.{u64}
use chainmaker.Prelude.Map.{Map, lookup, insert, delete, discard}
use chainmaker.Sync.{
  Block, BlockInfo, ProcessedBlockStatus, ok, db_err, add_err, has_processed, validate_failed,
  ProcessedBlockResp,
}

pub data BlockState : Type 0 where
  new_block pending_block received_block : BlockState

pub record Scheduler : Type 0 where
  pub peers : Map Bytes ℕ
  pub block_states : Map ℕ BlockState
  pub pending_time : Map ℕ ℕ
  pub pending_blocks : Map ℕ Bytes
  pub received_blocks : Map ℕ Bytes
  pub last_request : ℕ
  pub pending_recv_height : ℕ
  pub max_pending_blocks : ℕ
  pub batchesize_in_each_req : ℕ
  pub peer_req_timeout : ℕ
  pub req_time_threshold : ℕ
  pub start_time : ℕ
  pub threshold_time : ℕ
  pub threshold_blocks : ℕ
  pub stop_sync_block : Bool
  pub min_lag_reach_c : Bool
  pub preference_nodes : Option (List Bytes)

abbrev pub max_uint64 : ℕ
max_uint64 = 18446744073709551615

abbrev pub has_node : Bytes → List Bytes → Bool
has_node id [] = false
has_node id (node ∷ more) = node == id || has_node id more

unfoldable pub is_preference_node : Bytes → Scheduler → Bool
is_preference_node id sch = elim sch.preference_nodes [
  | none ↦ true
  | some nodes ↦ has_node id nodes
]

unfoldable pub is_peer_archived_too_height : ℕ → ℕ → Bool
is_peer_archived_too_height local_height peer_archived_height =
    not (nat_eq peer_archived_height 0) && leb local_height peer_archived_height

unfoldable pub max_height_of : Map Bytes ℕ → ℕ → ℕ
max_height_of [] max = max
max_height_of ((id, height) ∷ more) max =
    max_height_of more (if ltb max height then height else max)

unfoldable pub max_height : Scheduler → ℕ
unfolding max_height_of
max_height sch = max_height_of sch.peers 0

-- The signal that most blocks are there; the channel holds one. uint64 subtraction wraps around.
unfoldable pub receive_majority_blocks : ℕ → ℕ → Scheduler → Scheduler
receive_majority_blocks now curr_height sch =
    if ltb (now - sch.start_time) sch.threshold_time
    then sch
    else if sch.stop_sync_block
    then sch
    else if ltb sch.threshold_blocks (u64 (max_height sch + 18446744073709551616 - curr_height))
    then sch
    else record sch { min_lag_reach_c = true }

-- Here too `int(sch.maxPendingBlocks)` is the number itself.
abbrev pub mark_new : ℕ → Option BlockState → ℕ → Map ℕ BlockState → Option (Map ℕ BlockState)
mark_new i (some state) max states = some states
mark_new i none max states =
    if ltb max (length states) then none else some (insert i new_block states)

-- The loop over the heights to ask for, with the rounds that its second condition leaves.
unfoldable pub add_pending_blocks : ℕ → ℕ → ℕ → ℕ → Map ℕ BlockState → Map ℕ BlockState
add_pending_blocks zero i peer_height max states = states
add_pending_blocks (suc rounds) i peer_height max states =
    if leb i peer_height
    then elim (mark_new i (lookup i states) max states) [
      | none ↦ states
      | some marked ↦ add_pending_blocks rounds (i + 1) peer_height max marked
    ]
    else states

unfoldable pub add_pending_blocks_and_update_pending_height : ℕ → ℕ → Scheduler → Scheduler
add_pending_blocks_and_update_pending_height ledger_height peer_height sch =
    if leb sch.max_pending_blocks (length sch.block_states)
    then sch
    else if leb peer_height ledger_height
    then sch
    else record sch {
      block_states =
          add_pending_blocks
            (if ltb sch.pending_recv_height (u64 (sch.pending_recv_height + sch.max_pending_blocks))
              then sch.max_pending_blocks
              else 0)
            sch.pending_recv_height peer_height sch.max_pending_blocks sch.block_states;
    }

pub record NodeStatusMsg : Type 0 where
  pub block_height : ℕ
  pub archived_height : ℕ
  pub from : Bytes

abbrev pub goes_back : Option ℕ → ℕ → Bool → Bool
goes_back none height archived = false
goes_back (some old) height archived = ltb height old || archived

unfoldable pub handle_node_status : ℕ → ℕ → NodeStatusMsg → Scheduler → Scheduler
handle_node_status now ledger_height msg sch =
    let archived = is_peer_archived_too_height ledger_height msg.archived_height in
    if not (is_preference_node msg.from sch)
    then sch
    else if goes_back (lookup msg.from sch.peers) msg.block_height archived
    then record sch { peers = delete msg.from sch.peers }
    else let sch' = receive_majority_blocks now ledger_height sch in
      if archived
      then sch'
      else add_pending_blocks_and_update_pending_height ledger_height msg.block_height
          (record sch' { peers = insert msg.from msg.block_height sch'.peers })

abbrev pub has_state : Option BlockState → Bool
has_state none = false
has_state (some state) = true

-- Per height below the current one that has a state, all records of it are deleted.
unfoldable pub clear_lagging_request : ℕ → Scheduler → Scheduler
clear_lagging_request cur_height sch =
    let old = λ (height : ℕ). ltb height cur_height in
    let recorded_old =
      λ (height : ℕ). ltb height cur_height && has_state (lookup height sch.block_states) in
    let next = u64 (cur_height + 1) in
    let states = discard old sch.block_states in
    record sch {
      block_states =
          if has_state (lookup next states) then states else insert next new_block states;
      pending_blocks = discard recorded_old sch.pending_blocks;
      received_blocks = discard recorded_old sch.received_blocks;
      pending_time = discard recorded_old sch.pending_time;
      pending_recv_height = next;
    }

unfoldable pub handle_data_detection : ℕ → Scheduler → Scheduler
handle_data_detection ledger_height sch = clear_lagging_request ledger_height sch

abbrev pub peer_of : Option Bytes → Bytes
peer_of none = []
peer_of (some id) = id

unfoldable pub handle_liveness_msg : ℕ → ℕ → Scheduler → Scheduler
handle_liveness_msg now ledger_height sch = elim (lookup sch.pending_recv_height sch.pending_time) [
  | none ↦ sch
  | some req_time ↦
      let height = sch.pending_recv_height in
      if ltb sch.peer_req_timeout (now - req_time)
      then record sch {
        block_states =
            if ltb ledger_height height
            then insert height new_block sch.block_states
            else sch.block_states;
        peers = delete (peer_of (lookup height sch.pending_blocks)) sch.peers;
        pending_time = delete height sch.pending_time;
        pending_blocks = delete height sch.pending_blocks;
      }
      else sch
]

unfoldable pub handle_stop_sync_msg : Scheduler → Scheduler
handle_stop_sync_msg sch = record sch {
  stop_sync_block = true;
  block_states = [];
  pending_time = [];
  pending_blocks = [];
  received_blocks = [];
}

unfoldable pub handle_start_sync_msg : Scheduler → Scheduler
handle_start_sync_msg sch = record sch { min_lag_reach_c = false; stop_sync_block = false }
