-- ===== src/Snapshot/Serial/Order.antt =====
-- The order in which chainmaker-go-master/module/snapshot/snapshot_impl.go applies transactions.
use chainmaker.Prelude.{
  ℕ, ◌≤◌, ◌≡◌, refl, ap, ◌∙◌, inl, inr, Bool, false, not, ◌||◌, ◌++◌, some, List, [], ◌∷◌, arith,
}
use mathlib.Core.List.{append_assoc}
use chainmaker.Prelude.Lists.{All, length}
use chainmaker.Prelude.Tests.{leb, leb→le, Bool-cases}
use chainmaker.Prelude.Eq.{Bytes, bytes_instance, bytes_eq_iff, ◌==◌}
use chainmaker.Prelude.Map.{Map, lookup, insert, lookup-insert_self}
use chainmaker.Prelude.Result.{Result, ok}
use chainmaker.Snapshot.{
  Sv, TxRead, TxRwSet, TxSimContext, SnapshotImpl, construct_key, Kvs, read_kvs, write_kvs,
  build_kv_maps, put_all, key_conflicted, apply_optimize, in_tables, get_key, get_snapshot_size,
}
use chainmaker.Snapshot.Applying.{prepare, any_conflicted, finish, apply_special}
use chainmaker.Snapshot.Serial.{value_after, IsSerial, overwritten, AreClear, Run}
use chainmaker.Snapshot.Serial.Puts.{prepare_reads}
use chainmaker.Snapshot.Serial.Coherence.{IsCoherent, get_key-IsCoherent, wrote_since_beyond}
use chainmaker.Snapshot.Serial.Runs.{Run-IsSound}

any_conflicted-insert :
    (n : ℕ) (k v : Bytes) (kvs : Map Bytes Bytes) (table : Map Bytes Sv)
    → any_conflicted n (insert k v kvs) table
      ≡ (key_conflicted n k table || any_conflicted n kvs table)
unfolding any_conflicted insert
any_conflicted-insert n k v [] table = ground arith
any_conflicted-insert n k v ((i, w) ∷ more) table = elim (Bool-cases (i == k)) [
  | inl same ↦
      let e : key_conflicted n i table ≡ key_conflicted n k table =
        ap (λ x. key_conflicted n x table) ((bytes_eq_iff i k).0 same) in
      ground (arith, same, e)
  | inr other ↦ ground (arith, other, any_conflicted-insert n k v more table)
]

overwritten_beyond :
    (n : ℕ) (rs : List TxRead) (done : List TxRwSet)
    → length done ≤ n
    → overwritten n rs done ≡ false
overwritten_beyond n [] done le = refl
overwritten_beyond n (r ∷ more) done le =
    ground
      (arith, wrote_since_beyond r.contract_name r.key n done le, overwritten_beyond n more done le)

module _ {ℓ} (read_object : Bytes → Bytes → Result Bytes) (Clear : Bytes → Bytes → Type ℓ)
    (apart : (c k c' k' : Bytes)
      → Clear c k
      → Clear c' k'
      → construct_key c k ≡ construct_key c' k'
      → (c ≡ c') × (k ≡ k')) where
  -- In every run of a block over keys that constructKey tells apart, whatever transactions are
  -- executed side by side and fail with whatever reads, if in blocks before version 2201 those of
  -- the failed ones too are values that GetKey gave, each transaction in the table that succeeded
  -- has read what all those before it in the table leave when they run one after another over the
  -- store, and GetKey gives what all of them leave.
  pub Run-IsSerial :
      {successes : List Bool} {s : SnapshotImpl} {past : List SnapshotImpl}
      → Run read_object Clear successes (s ∷ past)
      → IsSerial read_object Clear s.pre_snapshots [] successes s.tx_rw_set_table
        × ((c k : Bytes)
            → Clear c k
            → get_key read_object c k s
              ≡ value_after read_object Clear s.pre_snapshots s.tx_rw_set_table c k)
  Run-IsSerial {s = s} run =
      let sound = Run-IsSound read_object Clear apart run in
      (sound.serial, get_key-IsCoherent read_object Clear apart s sound.coherent)

  -- Among the keys of the map of the reads, one has an entry of that number or a later one exactly
  -- when a transaction of such a number writes a key that was read.
  any_conflicted-read_kvs :
      (n : ℕ) (s : SnapshotImpl)
      → IsCoherent read_object Clear apart s
      → (rs : List TxRead) → All (λ r. Clear r.contract_name r.key) rs
      → (kvs : Map Bytes Bytes)
      → any_conflicted n (read_kvs rs kvs) s.tables.write_table
        ≡ (overwritten n rs s.tx_rw_set_table || any_conflicted n kvs s.tables.write_table)
  unfolding read_kvs
  any_conflicted-read_kvs n s coherent [] clear kvs = refl
  any_conflicted-read_kvs n s coherent (r ∷ more) clear kvs =
      let key = construct_key r.contract_name r.key in
      ground (
        arith,
        any_conflicted-read_kvs n s coherent more clear.1 (insert key r.value kvs),
        any_conflicted-insert n key r.value kvs s.tables.write_table,
        coherent.numbered r.contract_name r.key clear.0 n,
      )

  -- In every run over such keys, a transaction over such keys that has passed the first check, at
  -- whatever snapshot, is applied by the second part of applyNormalTxSimContext, on a snapshot
  -- that is not sealed, exactly when no transaction in the table of its number or a later one
  -- writes a key that it has read.
  pub finish_lem :
      {successes : List Bool} {s : SnapshotImpl} {past : List SnapshotImpl} (context : TxSimContext)
      (run_vm_success : Bool) (earlier : SnapshotImpl) (kvs : Kvs)
      → Run read_object Clear successes (s ∷ past)
      → s.sealed ≡ false
      → AreClear read_object Clear (context.rw_set run_vm_success)
      → prepare context run_vm_success earlier ≡ some kvs
      → (finish context run_vm_success kvs s).applied
        ≡ not (
            overwritten context.exec_seq (context.rw_set run_vm_success).tx_reads s.tx_rw_set_table)
  unfolding finish any_conflicted
  finish_lem {s = s} context run_vm_success earlier kvs run unsealed clear prepared =
      let coherent = (Run-IsSound read_object Clear apart run).coherent in
      let reads = (context.rw_set run_vm_success).tx_reads in
      elim (Bool-cases (leb (get_snapshot_size s) context.exec_seq)) [
        | inl first ↦ ground (
          arith,
          first,
          overwritten_beyond context.exec_seq reads s.tx_rw_set_table
              (omega (arith, coherent.sized, leb→le _ _ first)),
        )
        | inr later ↦ ground (
          arith,
          later,
          prepare_reads context run_vm_success earlier prepared,
          any_conflicted-read_kvs context.exec_seq s coherent reads clear.0 [],
        )
      ]

-- A value that one contract writes under a key is read by the contract whose name is longer by a
-- first part of that key, under the rest of the key.
pub construct_key_clash :
    (read_object : Bytes → Bytes → Result Bytes) (context : TxSimContext) (run_vm_success : Bool)
    (s : SnapshotImpl) (name part rest value : Bytes)
    → (context.rw_set run_vm_success).tx_writes
      ≡ record { contract_name = name; key = part ++ rest; value = value } ∷ []
    → get_key read_object (name ++ part) rest (apply_special context run_vm_success s).snapshot
      ≡ ok value
unfolding get_key in_tables apply_special apply_optimize build_kv_maps write_kvs put_all
    construct_key insert
construct_key_clash read_object context run_vm_success s name part rest value writes =
    let same : (name ++ part) ++ rest ≡ name ++ (part ++ rest) = append_assoc name part rest in
    let entry : Sv = record { seq = get_snapshot_size s; value = value } in
    let key = name ++ (part ++ rest) in
    let table = (apply_special context run_vm_success s).snapshot.tables.write_table in
    let put : table ≡ insert key entry s.tables.write_table =
      ap (λ ws. put_all (get_snapshot_size s) (write_kvs ws []) s.tables.write_table) writes in
    let found : lookup (construct_key (name ++ part) rest) table ≡ some entry =
      ap (λ x. lookup x table) same
      ∙ ap (lookup key) put
      ∙ lookup-insert_self key entry s.tables.write_table in
    ground (arith, found)
