-- ===== src/Snapshot/Serial.antt =====
-- What the transactions of a block would read one after another, and the runs in which they are
-- applied to the snapshot of chainmaker-go-master/module/snapshot/snapshot_impl.go side by side.
pub mod Puts
pub mod Coherence
pub mod Extends
pub mod Runs
pub mod Order
use chainmaker.Prelude.{
  ℕ, zero, suc, ◌||◌, ◌+◌, ◌≤◌, ◌<◌, ◌≡◌, ◌⊎◌, Bool, true, false, ◌++◌, Option, none, some, List,
  [], ◌∷◌,
}
use chainmaker.Prelude.Lists.{All, length, get_elem?}
use chainmaker.Prelude.Tests.{if◌then◌else◌}
use chainmaker.Prelude.Eq.{Bytes, bytes_instance, ◌==◌}
use chainmaker.Prelude.Result.{Result, ok}
use chainmaker.Snapshot.{
  TxRead, TxWrite, TxRwSet, TxSimContext, Kvs, SnapshotImpl, Tables, Applied, construct_key,
  get_key, get_pre_key, get_snapshot_size,
}
use chainmaker.Snapshot.Applying.{prepare, finish, apply_special, apply_iterator_first_run, seal}

-- The last value that a list of writes gives the key of a contract, else `before`.
abbrev pub write_of : Bytes → Bytes → List TxWrite → Option Bytes → Option Bytes
write_of contract key [] before = before
write_of contract key (w ∷ more) before = write_of contract key more (
    if w.contract_name == contract then (if w.key == key then some w.value else before) else before)

abbrev pub last_write : Bytes → Bytes → List TxRwSet → Option Bytes → Option Bytes
last_write contract key [] before = before
last_write contract key (rw ∷ more) before =
    last_write contract key more (write_of contract key rw.tx_writes before)

abbrev pub is_value : Option Bytes → Bool
is_value none = false
is_value (some value) = true

-- Whether a transaction of the list with this number or a later one writes the key.
abbrev pub wrote_since : Bytes → Bytes → ℕ → List TxRwSet → Bool
wrote_since contract key n [] = false
wrote_since contract key zero (rw ∷ more) =
    is_value (write_of contract key rw.tx_writes none) || wrote_since contract key zero more
wrote_since contract key (suc n) (rw ∷ more) = wrote_since contract key n more

-- Whether one of the keys read is written so.
abbrev pub overwritten : ℕ → List TxRead → List TxRwSet → Bool
overwritten n [] done = false
overwritten n (r ∷ more) done = wrote_since r.contract_name r.key n done || overwritten n more done

-- What is asked of the reads of a transaction: nothing of those of a failed one, which can be wrong,
-- but in blocks of the old versions, where they are put into the read table all the same.
abbrev pub Asked {κ} : SnapshotImpl → Bool → Type κ → Type κ
Asked s run_vm_success P = ((run_vm_success ≡ true) ⊎ (s.block_version < 2201)) → P

-- A transaction that is applied is noted with its success.
abbrev pub noted : Bool → Bool → List Bool
noted applied success = if applied then success ∷ [] else []

-- `Clear` tells the keys of contracts apart that are in use: no two of them are written the same way.
module _ {ℓ} (read_object : Bytes → Bytes → Result Bytes) (Clear : Bytes → Bytes → Type ℓ) where
  -- The value that the transactions in the list leave, one after another, over what was before them.
  abbrev pub value_after : List Tables → List TxRwSet → Bytes → Bytes → Result Bytes
  value_after pre done contract key = elim (last_write contract key done none) [
    | some value ↦ ok value
    | none ↦ get_pre_key read_object pre contract key
  ]

  -- Each transaction that succeeded read what those before it in the list leave, the failed ones
  -- among them included. The Booleans say which succeeded.
  abbrev pub IsSerial : List Tables → List TxRwSet → List Bool → List TxRwSet → Type 0
  IsSerial pre done [] [] = Unit
  IsSerial pre done (success ∷ successes) (rw ∷ more) =
      (success ≡ true
        → All (λ r. value_after pre done r.contract_name r.key ≡ ok r.value) rw.tx_reads)
      × IsSerial pre (done ++ rw ∷ []) successes more
  IsSerial pre done [] (rw ∷ more) = ⊥
  IsSerial pre done (success ∷ successes) [] = ⊥

  -- The value was read from one of the snapshots, which was not smaller than `exec_seq`.
  abbrev pub WasRead : ℕ → List SnapshotImpl → TxRead → Type 0
  WasRead exec_seq [] r = ⊥
  WasRead exec_seq (s ∷ past) r =
      (exec_seq ≤ get_snapshot_size s) × (get_key read_object r.contract_name r.key s ≡ ok r.value)
      ⊎ WasRead exec_seq past r

  abbrev pub AreClear : TxRwSet → Type ℓ
  AreClear rw =
      All (λ r. Clear r.contract_name r.key) rw.tx_reads
      × All (λ w. Clear w.contract_name w.key) rw.tx_writes

  -- The snapshots that a block goes through, the last one first, and the successes of the
  -- transactions in the table. A normal transaction reads at any
  -- times from the one that gave it its number on, passes the first check at any time, and then
  -- goes through the second part of `applyNormalTxSimContext`; a special one runs alone.
  pub data Run : List Bool → List SnapshotImpl → Type ℓ where
    start :
        (s : SnapshotImpl)
        → s.tx_table ≡ []
        → s.tx_rw_set_table ≡ []
        → s.tables ≡ record { read_table = []; write_table = [] }
        → Run [] (s ∷ [])
    normal :
        {s : SnapshotImpl} {past : List SnapshotImpl} {successes : List Bool}
        (context : TxSimContext) (run_vm_success : Bool) (earlier : SnapshotImpl) (kvs : Kvs)
        → Run successes (s ∷ past)
        → AreClear (context.rw_set run_vm_success)
        → Asked s run_vm_success
            (All (WasRead context.exec_seq (s ∷ past)) (context.rw_set run_vm_success).tx_reads)
        → prepare context run_vm_success earlier ≡ some kvs
        → Run
            (successes ++ noted (finish context run_vm_success kvs s).applied run_vm_success)
            ((finish context run_vm_success kvs s).snapshot ∷ s ∷ past)
    special :
        {s : SnapshotImpl} {past : List SnapshotImpl} {successes : List Bool}
        (context : TxSimContext) (run_vm_success : Bool)
        → Run successes (s ∷ past)
        → AreClear (context.rw_set run_vm_success)
        → Asked s run_vm_success (
            All
              (λ r. get_key read_object r.contract_name r.key s ≡ ok r.value)
              (context.rw_set run_vm_success).tx_reads)
        → Run
            (successes ++ run_vm_success ∷ [])
            ((apply_special context run_vm_success s).snapshot ∷ s ∷ past)
    first_run :
        {s : SnapshotImpl} {past : List SnapshotImpl} {successes : List Bool}
        (context : TxSimContext)
        → Run successes (s ∷ past)
        → Run successes ((apply_iterator_first_run context s).snapshot ∷ s ∷ past)
    sealing :
        {s : SnapshotImpl} {past : List SnapshotImpl} {successes : List Bool}
        → Run successes (s ∷ past)
        → Run successes (seal s ∷ s ∷ past)
