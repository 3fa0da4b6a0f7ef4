-- ===== src/Snapshot.antt =====
-- chainmaker-go-master/module/snapshot: the state that the transactions of a block read and write
-- before the block is stored.
pub mod Applying
pub mod Serial
pub mod Dag
pub mod Tests
use chainmaker.Prelude.{ℕ, ◌+◌, Bool, true, false, ◌||◌, ◌++◌, Option, none, some, List, [], ◌∷◌}
use chainmaker.Prelude.Tests.{ltb, leb, if◌then◌else◌}
use chainmaker.Prelude.Lists.{length}
use chainmaker.Prelude.Eq.{Bytes, bytes_instance}
use chainmaker.Prelude.Map.{Map, lookup, insert}
use chainmaker.Prelude.Result.{Error, Result, ok, err, panic}

-- A value and the number of the transaction that wrote or read it.
pub record Sv : Type 0 where
  pub seq : ℕ
  pub value : Bytes

pub record TxRead : Type 0 where
  pub contract_name : Bytes
  pub key : Bytes
  pub value : Bytes

pub record TxWrite : Type 0 where
  pub contract_name : Bytes
  pub key : Bytes
  pub value : Bytes

pub record TxRwSet : Type 0 where
  pub tx_reads : List TxRead
  pub tx_writes : List TxWrite

-- What the snapshot asks of a `TxSimContext`, whose code is elsewhere: `rw_set` is `GetTxRWSet`,
-- `exec_seq` is the size that the snapshot had when the transaction began.
pub record TxSimContext : Type 0 where
  pub tx_id : Bytes
  pub exec_seq : ℕ
  pub rw_set : Bool → TxRwSet
  pub tx_result : Bytes

pub data ExecOrderTxType : Type 0 where
  normal iterator charge_gas : ExecOrderTxType

-- The two tables of a snapshot, whose shards are those of Snapshot/Shards.
pub record Tables : Type 0 where
  pub read_table : Map Bytes Sv
  pub write_table : Map Bytes Sv

-- `pre_snapshots` are the tables of the snapshot before, of the one before that, and so on.
pub record SnapshotImpl : Type 0 where
  pub sealed : Bool
  pub block_version : ℕ
  pub pre_snapshots : List Tables
  pub tx_rw_set_table : List TxRwSet
  pub tx_table : List Bytes
  pub special_tx_table : List Bytes
  pub tx_result_map : Map Bytes Bytes
  pub tables : Tables

unfoldable pub construct_key : Bytes → Bytes → Bytes
construct_key contract_name key = contract_name ++ key

abbrev pub get_snapshot_size : SnapshotImpl → ℕ
get_snapshot_size s = length s.tx_table

-- A look-up in the write table, then in the read table.
unfoldable pub in_tables : Bytes → Tables → Option Bytes
in_tables final_key t = elim (lookup final_key t.write_table) [
  | some sv ↦ some sv.value
  | none ↦ elim (lookup final_key t.read_table) [ some sv ↦ some sv.value | none ↦ none ]
]

-- `ReadObject` of the store, which is not under this code.
module _ (read_object : Bytes → Bytes → Result Bytes) where
  -- The loop over the snapshots before: each `GetKey` there looks in its own tables and then goes on
  -- to those before it and to the store; after an error of it the loop asks these again.
  unfoldable pub get_pre_key : List Tables → Bytes → Bytes → Result Bytes
  get_pre_key [] contract_name key = read_object contract_name key
  get_pre_key (t ∷ more) contract_name key =
      let rest = get_pre_key more contract_name key in
      elim (in_tables (construct_key contract_name key) t) [ some value ↦ ok value | none ↦ rest ]

  unfoldable pub get_key : Bytes → Bytes → SnapshotImpl → Result Bytes
  get_key contract_name key s = elim (in_tables (construct_key contract_name key) s.tables) [
    | some value ↦ ok value
    | none ↦ get_pre_key s.pre_snapshots contract_name key
  ]

-- The maps of the keys read and written, without the number that is set when they are put in.
unfoldable pub read_kvs : List TxRead → Map Bytes Bytes → Map Bytes Bytes
read_kvs [] kvs = kvs
read_kvs (r ∷ more) kvs = read_kvs more (insert (construct_key r.contract_name r.key) r.value kvs)

unfoldable pub write_kvs : List TxWrite → Map Bytes Bytes → Map Bytes Bytes
write_kvs [] kvs = kvs
write_kvs (w ∷ more) kvs = write_kvs more (insert (construct_key w.contract_name w.key) w.value kvs)

pub record Kvs : Type 0 where
  pub reads : Map Bytes Bytes
  pub writes : Map Bytes Bytes

unfoldable pub build_kv_maps : TxRwSet → Kvs
build_kv_maps rw = record { reads = read_kvs rw.tx_reads []; writes = write_kvs rw.tx_writes [] }

-- The key was written by this transaction number or a later one.
unfoldable pub key_conflicted : ℕ → Bytes → Map Bytes Sv → Bool
key_conflicted exec_seq final_key table = elim (lookup final_key table) [
  | some sv ↦ leb exec_seq sv.seq
  | none ↦ false
]

unfoldable pub put_all : ℕ → Map Bytes Bytes → Map Bytes Sv → Map Bytes Sv
put_all apply_seq [] table = table
put_all apply_seq ((k, v) ∷ more) table =
    put_all apply_seq more (insert k (record { seq = apply_seq; value = v }) table)

-- The reads of a failed transaction are kept in blocks of old versions only.
unfoldable pub keeps_reads : Bool → SnapshotImpl → Bool
keeps_reads run_vm_success s = ltb s.block_version 2201 || run_vm_success

-- `applyOptimize`, whose two goroutines write different tables.
unfoldable pub apply_optimize : TxSimContext → TxRwSet → Bool → Kvs → SnapshotImpl → SnapshotImpl
apply_optimize context rw run_vm_success kvs s =
    let seq = length s.tx_table in
    record s {
      tables = record {
        read_table =
            if keeps_reads run_vm_success s
            then put_all seq kvs.reads s.tables.read_table
            else s.tables.read_table;
        write_table = put_all seq kvs.writes s.tables.write_table;
      };
      tx_rw_set_table = s.tx_rw_set_table ++ rw ∷ [];
      tx_result_map = insert context.tx_id context.tx_result s.tx_result_map;
      tx_table = s.tx_table ++ context.tx_id ∷ [];
    }

-- A snapshot, whether the transaction was applied, and the number that is returned.
pub record Applied : Type 0 where
  pub snapshot : SnapshotImpl
  pub applied : Bool
  pub size : ℕ
