-- ===== src/Snapshot/Serial/Puts.antt =====
-- What is put into the tables of the snapshot of
-- chainmaker-go-master/module/snapshot/snapshot_impl.go.
use chainmaker.Prelude.{
  ℕ, ◌<◌, ◌≡◌, refl, ap, inl, inr, Bool, false, Option, none, some, List, [], ◌∷◌, arith,
}
use chainmaker.Prelude.Tests.{Bool-cases, Option-cases}
use chainmaker.Prelude.Lists.{All}
use chainmaker.Prelude.Eq.{Bytes, bytes_instance, ◌==◌, bytes_eq_iff}
use chainmaker.Prelude.Map.{
  Map, lookup, insert, Distinct, lookup-insert, lookup-insert_self, insert-Distinct,
}
use chainmaker.Snapshot.{
  Sv, TxRead, TxWrite, TxSimContext, SnapshotImpl, construct_key, Kvs, read_kvs, write_kvs,
  build_kv_maps, put_all, key_conflicted,
}
use chainmaker.Snapshot.Applying.{collect_reads, prepare, any_conflicted}

-- The entry that is put, or the one that was there.
abbrev pub put_over : ℕ → Option Bytes → Option Sv → Option Sv
put_over seq (some value) before = some (record { seq = seq; value = value })
put_over seq none before = before

pub put_over_old :
    (seq : ℕ) (new : Option Bytes) (old : Option Sv) {sv : Sv}
    → put_over seq new old ≡ some sv
    → sv.seq < seq
    → old ≡ some sv
put_over_old seq none old h lt = h
put_over_old seq (some v) old h lt = ground arith

pub put_over-none :
    (seq : ℕ) (new : Option Bytes) (old : Option Sv) → put_over seq new old ≡ none → old ≡ none
put_over-none seq none old h = h
put_over-none seq (some v) old h = cc

pub lookup-put_all :
    (j : Bytes) (seq : ℕ) (kvs : Map Bytes Bytes) (table : Map Bytes Sv)
    → Distinct kvs
    → lookup j (put_all seq kvs table) ≡ put_over seq (lookup j kvs) (lookup j table)
unfolding put_all lookup
lookup-put_all j seq [] table d = refl
lookup-put_all j seq ((k, v) ∷ more) table d = ground (
  arith,
  lookup-put_all j seq more (insert k (record { seq = seq; value = v }) table),
  lookup-insert k j (record { seq = seq; value = v }) table,
  bytes_eq_iff k j,
)

pub write_kvs-Distinct :
    (ws : List TxWrite) (kvs : Map Bytes Bytes) → Distinct kvs → Distinct (write_kvs ws kvs)
unfolding write_kvs
write_kvs-Distinct [] kvs d = d
write_kvs-Distinct (w ∷ more) kvs d =
    write_kvs-Distinct more _ (insert-Distinct (construct_key w.contract_name w.key) w.value kvs d)

pub read_kvs-Distinct :
    (rs : List TxRead) (kvs : Map Bytes Bytes) → Distinct kvs → Distinct (read_kvs rs kvs)
unfolding read_kvs
read_kvs-Distinct [] kvs d = d
read_kvs-Distinct (r ∷ more) kvs d =
    read_kvs-Distinct more _ (insert-Distinct (construct_key r.contract_name r.key) r.value kvs d)

-- A key that was read is in the map, and stays there.
pub read_kvs_keeps :
    (j : Bytes) (rs : List TxRead) (kvs : Map Bytes Bytes) {v : Bytes}
    → lookup j kvs ≡ some v
    → (w : Bytes) × (lookup j (read_kvs rs kvs) ≡ some w)
unfolding read_kvs
read_kvs_keeps j [] kvs {v} h = (v, h)
read_kvs_keeps j (r ∷ more) kvs {v} h =
    let key = construct_key r.contract_name r.key in
    elim (Bool-cases (key == j)) [
      | inl same ↦
          read_kvs_keeps j more (insert key r.value kvs) {v = r.value}
            (ground (arith, lookup-insert key j r.value kvs))
      | inr other ↦
          read_kvs_keeps j more (insert key r.value kvs) {v = v}
            (ground (arith, lookup-insert key j r.value kvs))
    ]

-- The value of a key in the map is that of a read of the key, or was there.
pub read_kvs_values {ℓ} :
    (G : Bytes → Type ℓ) (j : Bytes) (rs : List TxRead) (kvs : Map Bytes Bytes)
    → All (λ r. construct_key r.contract_name r.key ≡ j → G r.value) rs
    → ((v : Bytes) → lookup j kvs ≡ some v → G v)
    → (v : Bytes) → lookup j (read_kvs rs kvs) ≡ some v
    → G v
unfolding read_kvs
read_kvs_values G j [] kvs all old v h = old v h
read_kvs_values G j (r ∷ more) kvs all old v h =
    let key = construct_key r.contract_name r.key in
    read_kvs_values G j more (insert key r.value kvs) all.1
      (λ w e. elim (Bool-cases (key == j)) [
        | inl same ↦
            let at : r.value ≡ w = ground (arith, lookup-insert key j r.value kvs) in
            rw (← at) (all.0 ((bytes_eq_iff key j).0 same))
        | inr other ↦ old w (ground (arith, lookup-insert key j r.value kvs))
      ])
      v h

pub collect_reads_lem :
    (exec_seq : ℕ) (table : Map Bytes Sv) (rs : List TxRead) (kvs : Map Bytes Bytes)
    {m : Map Bytes Bytes}
    → collect_reads exec_seq table rs kvs ≡ some m
    → m ≡ read_kvs rs kvs
unfolding collect_reads read_kvs
collect_reads_lem exec_seq table [] kvs h = cc
collect_reads_lem exec_seq table (r ∷ more) kvs {m} h =
    collect_reads_lem exec_seq table more (insert (construct_key r.contract_name r.key) r.value kvs)
      {m = m} (ground arith)

-- What passes the first check is what the special transactions build.
pub prepare_lem :
    (context : TxSimContext) (run_vm_success : Bool) (s : SnapshotImpl) {kvs : Kvs}
    → prepare context run_vm_success s ≡ some kvs
    → kvs ≡ build_kv_maps (context.rw_set run_vm_success)
unfolding prepare build_kv_maps
prepare_lem context run_vm_success s {kvs} h =
    let rw = context.rw_set run_vm_success in
    elim (Option-cases (collect_reads context.exec_seq s.tables.write_table rw.tx_reads [])) [
      | inl conflict ↦ ground arith
      | inr (m, done) ↦
          ground
            (arith, collect_reads_lem context.exec_seq s.tables.write_table rw.tx_reads [] done)
    ]

pub prepare_reads :
    (context : TxSimContext) (run_vm_success : Bool) (s : SnapshotImpl) {kvs : Kvs}
    → prepare context run_vm_success s ≡ some kvs
    → kvs.reads ≡ read_kvs (context.rw_set run_vm_success).tx_reads []
unfolding build_kv_maps
prepare_reads context run_vm_success s h =
    ap (λ (m : Kvs). m.reads) (prepare_lem context run_vm_success s h)

pub any_conflicted_lem :
    (exec_seq : ℕ) (kvs : Map Bytes Bytes) (table : Map Bytes Sv) (j : Bytes) {v : Bytes}
    → any_conflicted exec_seq kvs table ≡ false
    → lookup j kvs ≡ some v
    → key_conflicted exec_seq j table ≡ false
unfolding any_conflicted lookup
any_conflicted_lem exec_seq [] table j h at = cc
any_conflicted_lem exec_seq ((k, w) ∷ more) table j {v} h at = elim (Bool-cases (k == j)) [
  | inl same ↦ rw (← ((bytes_eq_iff k j).0 same)) (ground arith)
  | inr other ↦ any_conflicted_lem exec_seq more table j {v = v} (ground arith) (ground arith)
]

-- No read of the list has a conflict with the table.
pub reads_unconflicted :
    (exec_seq : ℕ) (table : Map Bytes Sv) (rs : List TxRead) (kvs : Map Bytes Bytes)
    → any_conflicted exec_seq (read_kvs rs kvs) table ≡ false
    → All (λ r. key_conflicted exec_seq (construct_key r.contract_name r.key) table ≡ false) rs
unfolding read_kvs
reads_unconflicted exec_seq table [] kvs h = tt
reads_unconflicted exec_seq table (r ∷ more) kvs h =
    let key = construct_key r.contract_name r.key in
    let (w, at) =
      read_kvs_keeps key more (insert key r.value kvs) (lookup-insert_self key r.value kvs) in
    (
      any_conflicted_lem exec_seq (read_kvs more (insert key r.value kvs)) table key h at,
      reads_unconflicted exec_seq table more (insert key r.value kvs) h,
    )
