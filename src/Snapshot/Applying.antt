-- ===== src/Snapshot/Applying.antt =====
-- chainmaker-go-master/module/snapshot/snapshot_impl.go: `ApplyTxSimContext` and its cases.
use chainmaker.Prelude.{ℕ, ◌+◌, Bool, true, false, ◌++◌, Option, none, some, List, [], ◌∷◌}
use chainmaker.Prelude.Tests.{leb, if◌then◌else◌}
use chainmaker.Prelude.Lists.{length}
use chainmaker.Prelude.Eq.{Bytes, bytes_instance}
use chainmaker.Prelude.Map.{Map, insert}
use chainmaker.Snapshot.{
  Sv, TxRead, TxSimContext, ExecOrderTxType, normal, iterator, charge_gas, SnapshotImpl,
  construct_key, get_snapshot_size, Kvs, build_kv_maps, write_kvs, key_conflicted, apply_optimize,
  Applied,
}

-- The loop over the reads before the lock is taken, which a conflict ends.
unfoldable pub collect_reads :
    ℕ → Map Bytes Sv → List TxRead → Map Bytes Bytes → Option (Map Bytes Bytes)
collect_reads exec_seq table [] kvs = some kvs
collect_reads exec_seq table (r ∷ more) kvs =
    let final_key = construct_key r.contract_name r.key in
    let rest = collect_reads exec_seq table more (insert final_key r.value kvs) in
    if key_conflicted exec_seq final_key table then none else rest

-- The part of `applyNormalTxSimContext` before the lock.
unfoldable pub prepare : TxSimContext → Bool → SnapshotImpl → Option Kvs
prepare context run_vm_success s =
    if s.sealed
    then none
    else elim (collect_reads context.exec_seq s.tables.write_table
        (context.rw_set run_vm_success).tx_reads []) [
          | none ↦ none
          | some reads ↦ some (record {
            reads = reads;
            writes = write_kvs (context.rw_set run_vm_success).tx_writes [];
          })
        ]

-- The double check: the range over the keys read.
unfoldable pub any_conflicted : ℕ → Map Bytes Bytes → Map Bytes Sv → Bool
any_conflicted exec_seq [] table = false
any_conflicted exec_seq ((k, v) ∷ more) table =
    let rest = any_conflicted exec_seq more table in
    if key_conflicted exec_seq k table then true else rest

abbrev pub refuse : ℕ → SnapshotImpl → Applied
refuse size s = record { snapshot = s; applied = false; size = size }

abbrev pub with_special : SnapshotImpl → ℕ
with_special s = get_snapshot_size s + length s.special_tx_table

abbrev pub accept : SnapshotImpl → Applied
accept s = record { snapshot = s; applied = true; size = with_special s }

-- The part of `applyNormalTxSimContext` under the lock.
unfoldable pub finish : TxSimContext → Bool → Kvs → SnapshotImpl → Applied
finish context run_vm_success kvs s =
    if s.sealed
    then refuse (get_snapshot_size s) s
    else if leb (get_snapshot_size s) context.exec_seq
    then accept (apply_optimize context (context.rw_set run_vm_success) run_vm_success kvs s)
    else if any_conflicted context.exec_seq kvs.reads s.tables.write_table
    then refuse (with_special s) s
    else accept (apply_optimize context (context.rw_set run_vm_success) run_vm_success kvs s)

-- `applyNormalTxSimContext`, where no other transaction is applied between its two parts.
unfoldable pub apply_normal : TxSimContext → Bool → SnapshotImpl → Applied
apply_normal context run_vm_success s = elim (prepare context run_vm_success s) [
  | none ↦ refuse (if s.sealed then get_snapshot_size s else with_special s) s
  | some kvs ↦ finish context run_vm_success kvs s
]

unfoldable pub apply_iterator_first_run : TxSimContext → SnapshotImpl → Applied
apply_iterator_first_run context s =
    if s.sealed
    then refuse (get_snapshot_size s) s
    else accept (record s { special_tx_table = s.special_tx_table ++ context.tx_id ∷ [] })

-- The second run of an iterator transaction and the gas transaction: applied without a check.
unfoldable pub apply_special : TxSimContext → Bool → SnapshotImpl → Applied
apply_special context run_vm_success s =
    let rw = context.rw_set run_vm_success in
    let s' = apply_optimize context rw run_vm_success (build_kv_maps rw) s in
    record { snapshot = s'; applied = true; size = get_snapshot_size s' }

unfoldable pub apply_tx_sim_context :
    TxSimContext → ExecOrderTxType → Bool → Bool → SnapshotImpl → Applied
apply_tx_sim_context context iterator run_vm_success apply_special_tx s =
    if apply_special_tx
    then apply_special context run_vm_success s
    else apply_iterator_first_run context s
apply_tx_sim_context context charge_gas run_vm_success apply_special_tx s =
    apply_special context run_vm_success s
apply_tx_sim_context context normal run_vm_success apply_special_tx s =
    apply_normal context run_vm_success s

unfoldable pub seal : SnapshotImpl → SnapshotImpl
seal s = record s { sealed = true }
