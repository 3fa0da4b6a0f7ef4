-- ===== src/Sync/Scheduler/Requests.antt =====
-- chainmaker-go-master/module/sync/scheduler.go: the next request, and the peer that it goes to.
pub mod Groups
pub mod Least
use chainmaker.Prelude.{
  ℕ, zero, suc, ◌+◌, ◌-◌, Bool, true, false, ◌&&◌, ◌||◌, Option, none, some, List, [], ◌∷◌, ◌++◌,
}
use chainmaker.Prelude.Tests.{ltb, leb, nat_eq, if◌then◌else◌}
use chainmaker.Prelude.Lists.{length, get_elem?}
use chainmaker.Prelude.Eq.{Bytes, bytes_instance, nat_instance, ◌==◌}
use chainmaker.Prelude.Int.{u64}
use chainmaker.Prelude.Map.{Map, lookup, insert, delete}
use chainmaker.Sync.Scheduler.{
  BlockState, new_block, pending_block, received_block, Scheduler, max_uint64, max_height,
  clear_lagging_request,
}

abbrev pub max_int64 : ℕ
max_int64 = 9223372036854775807

abbrev pub is_new : BlockState → Bool
is_new new_block = true
is_new pending_block = false
is_new received_block = false

unfoldable pub min_new : Map ℕ BlockState → ℕ → ℕ
min_new [] min = min
min_new ((height, status) ∷ more) min =
    min_new more (if ltb height min && is_new status then height else min)

unfoldable pub next_height_to_req : Scheduler → Scheduler × ℕ
next_height_to_req sch =
    let min = min_new sch.block_states max_uint64 in
    if nat_eq min max_uint64 || ltb min sch.pending_recv_height
    then (record sch { block_states = delete min sch.block_states }, max_uint64)
    else (sch, min)

unfoldable pub is_need_sync : ℕ → ℕ → Scheduler → Scheduler × Bool
is_need_sync now curr_height sch =
    if sch.stop_sync_block
    then (sch, false)
    else let cleared =
        if leb sch.pending_recv_height curr_height
        then clear_lagging_request curr_height sch
        else sch in
      let max = max_height cleared in
      let next = u64 (curr_height + 1) in
      (
        cleared,
        ltb next max
            || (nat_eq next max && ltb cleared.req_time_threshold (now - cleared.last_request)),
      )

unfoldable pub get_height : ℕ → Map Bytes ℕ → List Bytes
get_height pending_height [] = []
get_height pending_height ((id, height) ∷ more) =
    let rest = get_height pending_height more in
    if leb pending_height height then id ∷ rest else rest

unfoldable pub get_pending_req_in_peer : Map ℕ Bytes → Bytes → ℕ
get_pending_req_in_peer [] peer = 0
get_pending_req_in_peer ((height, id) ∷ more) peer =
    let rest = get_pending_req_in_peer more peer in if id == peer then rest + 1 else rest

-- A key that is not in the map has the empty slice.
abbrev pub slice_at : Option (List Bytes) → List Bytes
slice_at none = []
slice_at (some peers) = peers

unfoldable pub group_by_req : (Bytes → ℕ) → List Bytes → Map ℕ (List Bytes) → Map ℕ (List Bytes)
group_by_req req_num [] groups = groups
group_by_req req_num (peer ∷ more) groups =
    group_by_req req_num more
      (insert (req_num peer) (slice_at (lookup (req_num peer) groups) ++ peer ∷ []) groups)

unfoldable pub min_num : Map ℕ (List Bytes) → ℕ → ℕ
min_num [] min = min
min_num ((num, peers) ∷ more) min = min_num more (if ltb num min then num else min)

-- `rand.Int` is a parameter: a number below n, or an error.
unfoldable pub rand_int_n : (ℕ → Option ℕ) → ℕ → ℕ
rand_int_n rand_int n = elim (rand_int n) [ none ↦ 0 | some number ↦ number ]

unfoldable pub pick : (ℕ → Option ℕ) → List Bytes → Option Bytes
pick rand_int peers =
    if nat_eq (length peers) 1
    then get_elem? peers 0
    else get_elem? peers (rand_int_n rand_int (length peers))

-- `none` is a panic for an index out of range, an empty name that there is no such peer.
unfoldable pub select_peer : (ℕ → Option ℕ) → ℕ → Scheduler → Option Bytes
select_peer rand_int pending_height sch =
    let peers = get_height pending_height sch.peers in
    let groups = group_by_req (get_pending_req_in_peer sch.pending_blocks) peers [] in
    if nat_eq (length peers) 0
    then some []
    else pick rand_int (slice_at (lookup (min_num groups max_int64) groups))

pub record BlockSyncReq : Type 0 where
  pub block_height : ℕ
  pub batch_size : ℕ
  pub with_rwset : Bool

abbrev pub height_of : Option ℕ → ℕ
height_of none = 0
height_of (some height) = height

-- The loop that marks the heights as asked for, with the rounds that its second condition leaves.
unfoldable pub mark_pending : ℕ → ℕ → ℕ → Bytes → Scheduler → Scheduler
mark_pending zero i peer_height peer sch = sch
mark_pending (suc rounds) i peer_height peer sch =
    if leb i peer_height
    then mark_pending rounds (i + 1) peer_height peer (record sch {
      block_states = insert i pending_block sch.block_states;
      pending_time = insert i sch.last_request sch.pending_time;
      pending_blocks = insert i peer sch.pending_blocks;
    })
    else sch

-- What goes out: the bytes of the request and the peer.
abbrev pub Sent : Type 0
Sent = Option (Bytes × Bytes)

abbrev pub request : ℕ → ℕ → Bytes → Option Bytes → Scheduler → Scheduler × Sent
request now pending_height peer none sch = (sch, none)
request now pending_height peer (some bz) sch = (
  mark_pending (u64 (sch.batchesize_in_each_req + pending_height) - pending_height) pending_height
      (height_of (lookup peer sch.peers)) peer (record sch { last_request = now }),
  some (bz, peer),
)

abbrev pub ask_peer :
    (BlockSyncReq → Option Bytes)
    → Bool
    → ℕ
    → ℕ
    → Option Bytes
    → Scheduler
    → Option (Scheduler × Sent)
ask_peer marshal with_rwset now pending_height none sch = none
ask_peer marshal with_rwset now pending_height (some []) sch = some (sch, none)
ask_peer marshal with_rwset now pending_height (some (c ∷ id)) sch = some (
    request now pending_height (c ∷ id)
      (marshal (record {
        block_height = pending_height;
        batch_size = sch.batchesize_in_each_req;
        with_rwset = with_rwset;
      }))
      sch)

abbrev pub ask_height :
    (BlockSyncReq → Option Bytes)
    → (ℕ → Option ℕ)
    → Bool
    → ℕ
    → Scheduler × ℕ
    → Option (Scheduler × Sent)
ask_height marshal rand_int with_rwset now (sch, pending_height) =
    if nat_eq pending_height max_uint64
    then some (sch, none)
    else ask_peer marshal with_rwset now pending_height (select_peer rand_int pending_height sch)
        sch

abbrev pub ask_if_needed :
    (BlockSyncReq → Option Bytes)
    → (ℕ → Option ℕ)
    → Bool
    → ℕ
    → Scheduler × Bool
    → Option (Scheduler × Sent)
ask_if_needed marshal rand_int with_rwset now (sch, false) = some (sch, none)
ask_if_needed marshal rand_int with_rwset now (sch, true) =
    ask_height marshal rand_int with_rwset now (next_height_to_req sch)

-- `handleScheduleMsg`; the ledger's height is read without an error. `none` is a panic.
unfoldable pub handle_schedule_msg :
    (BlockSyncReq → Option Bytes)
    → (ℕ → Option ℕ)
    → Bool
    → ℕ
    → ℕ
    → Scheduler
    → Option (Scheduler × Sent)
handle_schedule_msg marshal rand_int with_rwset now curr_height sch =
    ask_if_needed marshal rand_int with_rwset now (is_need_sync now curr_height sch)
