-- ===== src/Sync/Processor/Chain/CatchUp.antt =====
-- Blocks received in a row and then processed, chainmaker-go-master/module/sync/processor.go.
use chainmaker.Prelude.{
  ℕ, zero, suc, ◌+◌, ◌≤◌, ◌<◌, Bool, true, false, Option, none, some, List, [], ◌∷◌, ◌≡◌, refl, sym,
  ap, ◌∙◌, inl, inr, arith,
}
use mathlib.Core.Bool.{true≢false}
use chainmaker.Prelude.Lists.{length}
use chainmaker.Prelude.Tests.{leb, nat_eq, Bool-cases, Option-cases}
use chainmaker.Prelude.Eq.{Bytes, nat_instance}
use chainmaker.Prelude.Int.{u64}
use chainmaker.Prelude.Map.{lookup, lookup-insert, lookup-delete}
use chainmaker.Sync.{
  ok, Block, block_batch, ReceivedBlockInfos, Ledger, last_height, passed,
  validate_and_commit_block,
}
use chainmaker.Sync.Processor.{
  BlockWithPeerInfo, Processor, put_block, put_blocks, handle_received_block_infos,
  handle_process_block_msg,
}
use chainmaker.Sync.Processor.Chain.{
  Node, received, processed, Reachable, Chain, Queued, Consecutive, process_times,
}
use chainmaker.Sync.Processor.Chain.Queued.{
  process_some, Keeps, process-Keeps, handle_received_block_infos-Queued, Reachable-Keeps,
}

abbrev is_some : Option BlockWithPeerInfo → Bool
is_some none = false
is_some (some info) = true

abbrev waits : ℕ → Processor → Bool
waits height pro = is_some (lookup height pro.queue)

put_block-waits :
    (last height : ℕ) (info : BlockWithPeerInfo) (pro : Processor)
    → waits height pro ≡ true
    → waits height (put_block last info pro) ≡ true
unfolding put_block
put_block-waits last height info pro h =
    ground (arith, lookup-insert info.blk.block_height height info pro.queue)

put_block-waits_own :
    (last : ℕ) (info : BlockWithPeerInfo) (pro : Processor)
    → last < info.blk.block_height
    → waits info.blk.block_height (put_block last info pro) ≡ true
unfolding put_block
put_block-waits_own last info pro h =
    ground (arith, lookup-insert info.blk.block_height info.blk.block_height info pro.queue)

module _ (last : ℕ) (from : Bytes) (with_rwset : Bool) where
  put_blocks-waits :
      (blocks : List Block) (height : ℕ) (pro : Processor)
      → waits height pro ≡ true
      → waits height (put_blocks last from with_rwset blocks pro) ≡ true
  unfolding put_blocks
  put_blocks-waits [] height pro h = h
  put_blocks-waits (blk ∷ more) height pro h =
      put_blocks-waits more height _ (put_block-waits last height _ pro h)

  own_waits :
      (blk : Block) (height : ℕ) (pro : Processor)
      → blk.block_height ≡ height
      → last < height
      → waits height (
          put_block last
            (record { id = from; blk = blk; with_rw_sets = with_rwset; rwsets = [] })
            pro)
        ≡ true
  own_waits blk height pro e lt = rw (sym e) (put_block-waits_own last _ pro (rw e lt))

  put_blocks-waits_all :
      (blocks : List Block) (first height : ℕ) (pro : Processor)
      → Consecutive first blocks
      → last < first
      → first ≤ height
      → height < first + length blocks
      → waits height (put_blocks last from with_rwset blocks pro) ≡ true
  unfolding put_blocks
  put_blocks-waits_all [] first height pro c lt le within = ground arith
  put_blocks-waits_all (blk ∷ more) first height pro (at, c) lt le within =
      elim (Bool-cases (nat_eq height first)) [
        | inl own ↦
            put_blocks-waits more height _
              (own_waits blk height pro (ground (arith, at)) (omega arith))
        | inr later ↦
            put_blocks-waits_all more (first + 1) height _ c (omega arith) (ground arith)
              (omega arith)
      ]

commit_next :
    (block : Block) (ledger : Ledger)
    → last_height ledger < block.block_height
    → validate_and_commit_block passed passed block ledger ≡ (block ∷ ledger, ok)
unfolding validate_and_commit_block
commit_next block ledger lt =
    let new : leb block.block_height (last_height ledger) ≡ false = ground arith in rw new refl

waiting_info :
    (ledger : Ledger) (pro : Processor)
    → waits (last_height ledger + 1) pro ≡ true
    → last_height ledger + 1 < 18446744073709551616
    → (info : BlockWithPeerInfo) × (lookup (u64 (last_height ledger + 1)) pro.queue ≡ some info)
waiting_info ledger pro waiting small =
    let same : u64 (last_height ledger + 1) ≡ last_height ledger + 1 = omega arith in
    elim (Option-cases (lookup (last_height ledger + 1) pro.queue)) [
      | inl empty ↦ elim (true≢false (sym waiting ∙ ap is_some empty)) [ ]
      | inr (info, there) ↦ (info, rw same there)
    ]

-- The next block waits and passes: it is committed, and the others wait on.
process_next :
    (ledger : Ledger) (pro : Processor)
    → Queued pro.queue
    → waits (last_height ledger + 1) pro ≡ true
    → last_height ledger + 1 < 18446744073709551616
    → let after = handle_process_block_msg passed passed ledger pro in
      (last_height after.ledger ≡ last_height ledger + 1)
      × ((height : ℕ)
          → last_height ledger + 1 < height
          → waits height pro ≡ true
          → waits height after.processor ≡ true)
unfolding validate_and_commit_block last_height
process_next ledger pro q waiting small =
    let (info, there) = waiting_info ledger pro waiting small in
    let at : info.blk.block_height ≡ last_height ledger + 1 = omega (arith, q _ info there) in
    rw
      (
        process_some passed passed ledger pro info there,
        commit_next info.blk ledger (omega (arith, at)),
      )
      (
        at,
        λ height lt h.
            ground (arith, lookup-delete (u64 (last_height ledger + 1)) height pro.queue),
      )

catch_up_from :
    (n : ℕ) (ledger : Ledger) (pro : Processor)
    → Keeps ledger pro
    → last_height ledger + n < 18446744073709551616
    → ((height : ℕ)
        → last_height ledger < height
        → height ≤ last_height ledger + n
        → waits height pro ≡ true)
    → let after = process_times n (record { ledger = ledger; processor = pro }) in
      (last_height after.ledger ≡ last_height ledger + n) × Chain after.ledger
unfolding process_times processed
catch_up_from zero ledger pro (chain, q) small all = (omega arith, chain)
catch_up_from (suc n) ledger pro (chain, q) small all =
    let after = handle_process_block_msg passed passed ledger pro in
    let (at, others) =
      process_next ledger pro q (all _ (omega arith) (omega arith)) (omega arith) in
    let (higher, linked) =
      catch_up_from n after.ledger after.processor
        (process-Keeps passed passed ledger pro (chain, q)) (omega (arith, at))
        (λ height lt le.
          others height (omega (arith, at)) (all height (omega (arith, at)) (omega (arith, at)))) in
    (omega (arith, at, higher), linked)

-- A message with a batch of blocks.
abbrev pub blocks_from : Bytes → Bool → List Block → ReceivedBlockInfos
blocks_from from with_rwset blocks = record {
  sync_block_batch = record { batch = block_batch blocks; with_rwset = with_rwset };
  from = from;
}

-- In a state that the processor's messages lead to, when a batch of n blocks of the heights above
-- the last one arrives, where the last of these fits a uint64, n messages to process, at which the
-- verifier and the committer accept the block, bring the ledger to n blocks more, each one higher
-- than the one before.
pub catch_up :
    (node : Node) (from : Bytes) (with_rwset : Bool) (blocks : List Block)
    → Reachable node
    → Consecutive (last_height node.ledger + 1) blocks
    → last_height node.ledger + length blocks < 18446744073709551616
    → let after =
        process_times (length blocks) (received (blocks_from from with_rwset blocks) node) in
      (last_height after.ledger ≡ last_height node.ledger + length blocks) × Chain after.ledger
unfolding received handle_received_block_infos
catch_up node from with_rwset blocks run c small =
    let (chain, q) = Reachable-Keeps run in
    let msg = blocks_from from with_rwset blocks in
    catch_up_from (length blocks) node.ledger _
      (chain, handle_received_block_infos-Queued msg node.ledger node.processor q) small
      (λ height lt le.
        put_blocks-waits_all (last_height node.ledger) from with_rwset blocks
          (last_height node.ledger + 1) height node.processor c (omega arith) (omega arith)
          (omega arith))
