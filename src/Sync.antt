-- ===== src/Sync.antt =====
-- chainmaker-go-master/module/sync: the messages and states of the synchronisation of blocks, and the
-- commit of a block in blockchain_sync_server.go.
pub mod Processor
pub mod Scheduler
pub mod Tests
use chainmaker.Prelude.{ℕ, Bool, true, false, Option, none, some, List, [], ◌∷◌}
use chainmaker.Prelude.Tests.{leb, if◌then◌else◌}
use chainmaker.Prelude.Eq.{Bytes}

pub record Block : Type 0 where
  pub block_height : ℕ
  pub block_hash : Bytes

-- The read-write sets are handed on as they are.
pub record BlockInfo : Type 0 where
  pub block : Block
  pub rw_set_list : Bytes

pub data Batch : Type 0 where
  block_batch : List Block → Batch
  blockinfo_batch : List BlockInfo → Batch
  unrecognized : Batch

pub record SyncBlockBatch : Type 0 where
  pub batch : Batch
  pub with_rwset : Bool

pub record ReceivedBlockInfos : Type 0 where
  pub sync_block_batch : SyncBlockBatch
  pub from : Bytes

pub data ProcessedBlockStatus : Type 0 where
  ok db_err add_err has_processed validate_failed : ProcessedBlockStatus

pub record ProcessedBlockResp : Type 0 where
  pub height : ℕ
  pub status : ProcessedBlockStatus
  pub from : Bytes

-- The blocks of the ledger that was committed to here, the last one first, over the genesis block.
abbrev pub Ledger : Type 0
Ledger = List Block

unfoldable pub last_height : Ledger → ℕ
last_height [] = 0
last_height (b ∷ more) = b.block_height

-- What the verifier and the committer of the core say to a block: these are not under this code.
pub data Answer : Type 0 where
  passed had_been_committed failed : Answer

abbrev pub commit_answer : Answer → Block → Ledger → Ledger × ProcessedBlockStatus
commit_answer passed block ledger = (block ∷ ledger, ProcessedBlockStatus.ok)
commit_answer had_been_committed block ledger = (ledger, has_processed)
commit_answer failed block ledger = (ledger, add_err)

abbrev pub verify_answer : Answer → Answer → Block → Ledger → Ledger × ProcessedBlockStatus
verify_answer passed added block ledger = commit_answer added block ledger
verify_answer had_been_committed added block ledger = (ledger, has_processed)
verify_answer failed added block ledger = (ledger, validate_failed)

-- `validateAndCommitBlock` and `validateAndCommitBlockWithRwSets`, which ask the verifier in two ways.
unfoldable pub validate_and_commit_block :
    Answer → Answer → Block → Ledger → Ledger × ProcessedBlockStatus
validate_and_commit_block verified added block ledger =
    if leb block.block_height (last_height ledger)
    then (ledger, has_processed)
    else verify_answer verified added block ledger
