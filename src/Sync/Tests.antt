-- ===== src/Sync/Tests.antt =====
-- Tests of the synchronisation of chainmaker-go-master/module/sync on concrete blocks and peers.
use chainmaker.Prelude.{ℕ, true, false, Option, none, some, [], ◌∷◌, ◌≡◌, refl, ◌⊎◌, arith}
use chainmaker.Prelude.Tests.{if◌then◌else◌}
use chainmaker.Prelude.Eq.{Bytes, nat_instance, bytes_instance, bytes_eq}
use chainmaker.Prelude.Map.{lookup, insert, delete, discard}
use chainmaker.Sync.{
  Block, block_batch, SyncBlockBatch, last_height, passed, validate_and_commit_block,
}
use chainmaker.Sync.Processor.{
  new_processor, put_block, put_blocks, handle_received_block_infos, handle_process_block_msg,
}
use chainmaker.Sync.Processor.Chain.{
  Node, received, processed, receive, process, Reachable, fresh, next, Chain, process_times,
}
use chainmaker.Sync.Processor.Chain.Queued.{Keeps, Reachable-Keeps}
use chainmaker.Sync.Processor.Chain.CatchUp.{blocks_from, catch_up}
use chainmaker.Sync.Scheduler.Responses.{
  receive_height, receive_heights, update_scheduler_by_sync_block_batch, handle_synced_block_msg,
}
use chainmaker.Sync.Scheduler.Responses.Received.{
  among, any_awaits, as_received, heights_of, handle_synced_block_msg_lem,
}
use chainmaker.Sync.Scheduler.{
  Scheduler, new_block, pending_block, receive_majority_blocks, max_height, max_height_of,
}
use chainmaker.Sync.Scheduler.Requests.{
  select_peer, get_height, get_pending_req_in_peer, group_by_req, min_num, rand_int_n, pick,
  min_new, next_height_to_req,
}
use chainmaker.Sync.Scheduler.Requests.Groups.{has_height}
use chainmaker.Sync.Scheduler.Requests.Least.{InRange, HasLeast, select_peer_lem}

abbrev block : ℕ → Block
block height = record { block_height = height; block_hash = height ∷ [] }

abbrev peer_a : Bytes
peer_a = 97 ∷ []

abbrev peer_b : Bytes
peer_b = 98 ∷ []

abbrev peer_c : Bytes
peer_c = 99 ∷ []

abbrev fresh_node : Node
fresh_node = record {
  ledger = [];
  processor = record { queue = []; has_commit_block = 0; max_height_in_queue = 0 };
}

fresh_node_reachable : Reachable fresh_node
unfolding new_processor
fresh_node_reachable = fresh

-- Block 2 arrives before block 1, and each waits for its turn.
abbrev two_blocks : Node
two_blocks = received (blocks_from peer_a false (block 2 ∷ block 1 ∷ [])) fresh_node

two_blocks-Reachable : Reachable (processed passed passed two_blocks)
two_blocks-Reachable =
    next
      (next fresh_node_reachable
        (receive (blocks_from peer_a false (block 2 ∷ block 1 ∷ [])) fresh_node))
      (process passed passed two_blocks)

two_blocks_in_order :
    Node.ledger (processed passed passed (processed passed passed two_blocks))
    ≡ block 2 ∷ block 1 ∷ []
unfolding received processed handle_received_block_infos handle_process_block_msg put_blocks
    put_block lookup insert delete discard validate_and_commit_block last_height
two_blocks_in_order = refl

Reachable-Keeps_example :
    Keeps
      (Node.ledger (processed passed passed two_blocks))
      (Node.processor (processed passed passed two_blocks))
Reachable-Keeps_example = Reachable-Keeps two_blocks-Reachable

catch_up_example :
    (last_height (
        Node.ledger (
          process_times 2
            (received (blocks_from peer_a false (block 1 ∷ block 2 ∷ [])) fresh_node)))
      ≡ 2)
    × Chain (
        Node.ledger (
          process_times 2
            (received (blocks_from peer_a false (block 1 ∷ block 2 ∷ [])) fresh_node)))
unfolding last_height
catch_up_example =
    catch_up fresh_node peer_a false (block 1 ∷ block 2 ∷ []) fresh_node_reachable
      (refl, (refl, tt)) (omega arith)

-- Three peers, two of which have the height; one of these has a request.
abbrev three_peers : Scheduler
three_peers = record {
  peers = (peer_a, 9) ∷ (peer_b, 4) ∷ (peer_c, 7) ∷ [];
  block_states = (6, new_block) ∷ (5, pending_block) ∷ [];
  pending_time = (5, 100) ∷ [];
  pending_blocks = (5, peer_a) ∷ [];
  received_blocks = [];
  last_request = 100;
  pending_recv_height = 5;
  max_pending_blocks = 10;
  batchesize_in_each_req = 2;
  peer_req_timeout = 1000;
  req_time_threshold = 10;
  start_time = 0;
  threshold_time = 50;
  threshold_blocks = 3;
  stop_sync_block = false;
  min_lag_reach_c = false;
  preference_nodes = none;
}

abbrev always_zero : ℕ → Option ℕ
always_zero n = some 0

abbrev no_random : ℕ → Option ℕ
no_random n = none

no_random-InRange : InRange no_random
no_random-InRange n number e = cc

three_peers_select : select_peer no_random 6 three_peers ≡ some peer_c
unfolding select_peer get_height get_pending_req_in_peer group_by_req min_num rand_int_n pick lookup
    insert bytes_eq
three_peers_select = refl

three_peers_next : next_height_to_req three_peers ≡ (three_peers, 6)
unfolding next_height_to_req min_new
three_peers_next = refl

select_peer_lem_example :
    ((select_peer no_random 6 three_peers ≡ some [])
      × ((id : Bytes) → has_height 6 (lookup id three_peers.peers) ≡ false))
    ⊎ ((peer : Bytes) × (select_peer no_random 6 three_peers ≡ some peer)
        × HasLeast 6 three_peers peer)
unfolding lookup bytes_eq
select_peer_lem_example =
    select_peer_lem no_random no_random-InRange 6 three_peers (refl, (refl, (refl, tt)))
      (omega arith)

-- Blocks 5 and 9 arrive: 5 was asked for, 9 was not.
abbrev five_and_nine : SyncBlockBatch
five_and_nine = record { batch = block_batch (block 5 ∷ block 9 ∷ []); with_rwset = false }

handle_synced_block_msg_lem_example :
    let (after, out) =
      handle_synced_block_msg (record { msg = some five_and_nine; from = peer_a }) three_peers in
    let heights = heights_of five_and_nine.batch in
    (out ≡ (
      if any_awaits heights three_peers.block_states
      then some (record { sync_block_batch = five_and_nine; from = peer_a })
      else none))
    × ((h : ℕ)
        → (lookup h after.block_states ≡ (
            if among h heights
            then as_received (lookup h three_peers.block_states)
            else lookup h three_peers.block_states))
          × (lookup h after.pending_blocks
              ≡ (if among h heights then none else lookup h three_peers.pending_blocks)))
handle_synced_block_msg_lem_example =
    handle_synced_block_msg_lem peer_a five_and_nine three_peers (omega arith) refl

five_and_nine_handed_over :
    (handle_synced_block_msg (record { msg = some five_and_nine; from = peer_a }) three_peers).1
    ≡ some (record { sync_block_batch = five_and_nine; from = peer_a })
unfolding handle_synced_block_msg update_scheduler_by_sync_block_batch receive_heights
    receive_height lookup insert delete discard
five_and_nine_handed_over = refl

-- One block behind the peers the signal is given, ahead of all of them it is not.
three_peers_near : Scheduler.min_lag_reach_c (receive_majority_blocks 100 8 three_peers) ≡ true
unfolding receive_majority_blocks max_height max_height_of
three_peers_near = refl

three_peers_ahead : receive_majority_blocks 100 20 three_peers ≡ three_peers
unfolding receive_majority_blocks max_height max_height_of
three_peers_ahead = refl
