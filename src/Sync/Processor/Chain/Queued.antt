-- ===== src/Sync/Processor/Chain/Queued.antt =====
-- What the messages to chainmaker-go-master/module/sync/processor.go keep.
use chainmaker.Prelude.{
  ℕ, ◌+◌, ◌<◌, Bool, false, none, some, List, [], ◌∷◌, ◌≡◌, ap, inl, inr, arith,
}
use chainmaker.Prelude.Tests.{leb, nat_eq, Bool-cases, Option-cases}
use chainmaker.Prelude.Eq.{Bytes, nat_instance, nat_instance}
use chainmaker.Prelude.Int.{u64}
use chainmaker.Prelude.Map.{Map, lookup, discard, delete, lookup-insert, lookup-discard}
use chainmaker.Sync.{
  Block, BlockInfo, Batch, block_batch, blockinfo_batch, unrecognized, ReceivedBlockInfos, Ledger,
  last_height, Answer, passed, had_been_committed, failed, verify_answer, validate_and_commit_block,
}
use chainmaker.Sync.Processor.{
  BlockWithPeerInfo, Processor, new_processor, process_pending, finish_block, put_batch, put_block,
  put_blocks, put_block_infos, handle_received_block_infos, handle_stop_sync_msg,
  handle_process_block_msg, handle_data_detection,
}
use chainmaker.Sync.Processor.Chain.{
  Node, received, processed, Step, receive, process, stop, detect, committed_elsewhere, Reachable,
  fresh, next, Chain, Queued,
}

discard-Queued :
    (p : ℕ → Bool) (queue : Map ℕ BlockWithPeerInfo) → Queued queue → Queued (discard p queue)
discard-Queued p queue q height info h =
    ground (arith, lookup-discard p height queue, q height info)

put_block-Queued :
    (last : ℕ) (info : BlockWithPeerInfo) (pro : Processor)
    → Queued pro.queue
    → Queued (Processor.queue (put_block last info pro))
unfolding put_block
put_block-Queued last info pro q height info' h =
    ground (arith, lookup-insert info.blk.block_height height info pro.queue, q height info')

put_blocks-Queued :
    (last : ℕ) (from : Bytes) (with_rwset : Bool) (blocks : List Block) (pro : Processor)
    → Queued pro.queue
    → Queued (Processor.queue (put_blocks last from with_rwset blocks pro))
unfolding put_blocks
put_blocks-Queued last from with_rwset [] pro q = q
put_blocks-Queued last from with_rwset (blk ∷ more) pro q =
    put_blocks-Queued last from with_rwset more _ (put_block-Queued last _ pro q)

put_block_infos-Queued :
    (last : ℕ) (from : Bytes) (with_rwset : Bool) (infos : List BlockInfo) (pro : Processor)
    → Queued pro.queue
    → Queued (Processor.queue (put_block_infos last from with_rwset infos pro))
unfolding put_block_infos
put_block_infos-Queued last from with_rwset [] pro q = q
put_block_infos-Queued last from with_rwset (info ∷ more) pro q =
    put_block_infos-Queued last from with_rwset more _ (put_block-Queued last _ pro q)

u64_next : (last height : ℕ) → height ≡ u64 (last + 1) → last < height → height ≡ last + 1
u64_next last height e lt = omega (arith, e)

pub handle_received_block_infos-Queued :
    (msg : ReceivedBlockInfos) (ledger : Ledger) (pro : Processor)
    → Queued pro.queue
    → Queued (Processor.queue (handle_received_block_infos msg ledger pro))
unfolding handle_received_block_infos
handle_received_block_infos-Queued msg ledger pro q = batch_of msg.sync_block_batch.batch
  where
    batch_of :
        (batch : Batch)
        → Queued (
            Processor.queue
              (put_batch (last_height ledger) msg.from msg.sync_block_batch.with_rwset batch pro))
    batch_of (block_batch blocks) = put_blocks-Queued _ _ _ blocks pro q
    batch_of (blockinfo_batch infos) = put_block_infos-Queued _ _ _ infos pro q
    batch_of unrecognized = q

-- A commit adds a block that is one higher, whose answers were both good, or nothing.
validate_and_commit_block-Chain :
    (verified added : Answer) (block : Block) (ledger : Ledger)
    → block.block_height ≡ u64 (last_height ledger + 1)
    → Chain ledger
    → Chain ((validate_and_commit_block verified added block ledger).0)
unfolding validate_and_commit_block
validate_and_commit_block-Chain verified added block ledger e chain =
    elim (Bool-cases (leb block.block_height (last_height ledger))) [
      | inl old ↦ rw old chain
      | inr new ↦ rw new (commits verified added new)
    ]
  where
    commits :
        (verified added : Answer)
        → leb block.block_height (last_height ledger) ≡ false
        → Chain ((verify_answer verified added block ledger).0)
    commits passed passed new =
        (u64_next (last_height ledger) block.block_height e (ground arith), chain)
    commits passed had_been_committed new = chain
    commits passed failed new = chain
    commits had_been_committed added new = chain
    commits failed added new = chain

pub process_none :
    (verified added : Answer) (ledger : Ledger) (pro : Processor)
    → lookup (u64 (last_height ledger + 1)) pro.queue ≡ none
    → handle_process_block_msg verified added ledger pro
      ≡ record { ledger = ledger; processor = pro; resp = none }
unfolding handle_process_block_msg
process_none verified added ledger pro e = ap (process_pending verified added ledger pro) e

pub process_some :
    (verified added : Answer) (ledger : Ledger) (pro : Processor) (info : BlockWithPeerInfo)
    → lookup (u64 (last_height ledger + 1)) pro.queue ≡ some info
    → handle_process_block_msg verified added ledger pro
      ≡ finish_block
          (u64 (last_height ledger + 1))
          info
          (validate_and_commit_block verified added info.blk ledger)
          pro
unfolding handle_process_block_msg
process_some verified added ledger pro info e = ap (process_pending verified added ledger pro) e

abbrev pub Keeps : Ledger → Processor → Type 0
Keeps ledger pro = Chain ledger × Queued pro.queue

pub process-Keeps :
    (verified added : Answer) (ledger : Ledger) (pro : Processor)
    → Keeps ledger pro
    → let after = handle_process_block_msg verified added ledger pro in
      Keeps after.ledger after.processor
unfolding delete
process-Keeps verified added ledger pro (chain, q) =
    elim (Option-cases (lookup (u64 (last_height ledger + 1)) pro.queue)) [
      | inl empty ↦ rw (process_none verified added ledger pro empty) (chain, q)
      | inr (info, there) ↦ rw (process_some verified added ledger pro info there) (
        validate_and_commit_block-Chain verified added info.blk ledger (q _ info there) chain,
        discard-Queued (λ j. nat_eq j (u64 (last_height ledger + 1))) pro.queue q,
      )
    ]

Step-Keeps :
    {before after : Node}
    → Step before after
    → Keeps before.ledger before.processor
    → Keeps after.ledger after.processor
unfolding received processed handle_stop_sync_msg handle_data_detection delete lookup
Step-Keeps (receive msg node) (chain, q) =
    (chain, handle_received_block_infos-Queued msg node.ledger node.processor q)
Step-Keeps (process verified added node) k =
    process-Keeps verified added node.ledger node.processor k
Step-Keeps (stop node) (chain, q) = (chain, λ height info h. cc)
Step-Keeps (detect node) (chain, q) = (chain, discard-Queued _ _ q)
Step-Keeps (committed_elsewhere block node e) (chain, q) = ((e, chain), q)

-- Whatever messages the processor handles in whatever order, whatever the verifier and the
-- committer answer and whatever next blocks the consensus commits in between, each block of the
-- ledger is one higher than the one before it, and each waiting block stands under its height.
pub Reachable-Keeps : {node : Node} → Reachable node → Keeps node.ledger node.processor
unfolding new_processor lookup
Reachable-Keeps fresh = (tt, λ height info h. cc)
Reachable-Keeps (next run step) = Step-Keeps step (Reachable-Keeps run)
