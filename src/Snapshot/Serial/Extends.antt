-- ===== src/Snapshot/Serial/Extends.antt =====
-- A snapshot of chainmaker-go-master/module/snapshot/snapshot_impl.go and those that it has grown from.
use chainmaker.Prelude.{
  ℕ, ◌≤◌, ◌<◌, ◌≡◌, refl, sym, ◌∙◌, inl, inr, Bool, false, none, some, List, [], ◌∷◌, arith,
}
use chainmaker.Prelude.Tests.{Option-cases}
use chainmaker.Prelude.Lists.{All, length-append}
use chainmaker.Prelude.Eq.{Bytes, bytes_instance}
use chainmaker.Prelude.Map.{lookup}
use chainmaker.Prelude.Result.{Result, ok}
use chainmaker.Snapshot.{
  Sv, TxRead, TxSimContext, SnapshotImpl, construct_key, build_kv_maps, key_conflicted,
  apply_optimize, get_key, get_snapshot_size,
}
use chainmaker.Snapshot.Serial.{value_after, WasRead}
use chainmaker.Snapshot.Serial.Puts.{put_over_old, put_over-none}
use chainmaker.Snapshot.Serial.Coherence.{IsCoherent, get_key-IsCoherent, after_entry}

module _ {ℓ} (read_object : Bytes → Bytes → Result Bytes) (Clear : Bytes → Bytes → Type ℓ)
    (apart : (c k c' k' : Bytes)
      → Clear c k
      → Clear c' k'
      → construct_key c k ≡ construct_key c' k'
      → (c ≡ c') × (k ≡ k')) where
  -- The snapshot `u` was one that `s` has grown from.
  pub record Extends (u s : SnapshotImpl) : Type ℓ where
    pub coherent : IsCoherent read_object Clear apart u
    pub pre : u.pre_snapshots ≡ s.pre_snapshots
    pub grown : get_snapshot_size u ≤ get_snapshot_size s
    pub kept :
        (j : Bytes) (sv : Sv)
        → lookup j s.tables.write_table ≡ some sv
        → sv.seq < get_snapshot_size u
        → lookup j u.tables.write_table ≡ some sv
    pub absent :
        (j : Bytes) → lookup j s.tables.write_table ≡ none → lookup j u.tables.write_table ≡ none

  pub Extends-refl : (s : SnapshotImpl) → IsCoherent read_object Clear apart s → Extends s s
  Extends-refl s coherent = record {
    coherent = coherent;
    pre = refl;
    grown = omega arith;
    kept = λ j sv at lt. at;
    absent = λ j at. at;
  }

  -- A value that was read then is what is left now, unless the key is in conflict.
  read_then :
      (u s : SnapshotImpl)
      → Extends u s
      → IsCoherent read_object Clear apart s
      → (exec_seq : ℕ) (c k v : Bytes) → Clear c k
      → exec_seq ≤ get_snapshot_size u
      → get_key read_object c k u ≡ ok v
      → key_conflicted exec_seq (construct_key c k) s.tables.write_table ≡ false
      → value_after read_object Clear s.pre_snapshots s.tx_rw_set_table c k ≡ ok v
  unfolding key_conflicted
  read_then u s ext coherent exec_seq c k v clear le got no_conflict =
      let j = construct_key c k in
      let then_value =
        sym (get_key-IsCoherent read_object Clear apart u ext.coherent c k clear) ∙ got in
      let now = coherent.written c k clear in
      let before = ext.coherent.written c k clear in
      elim (Option-cases (lookup j s.tables.write_table)) [
        | inl nowhere ↦ ground (arith, nowhere, ext.absent j, now, before, then_value, ext.pre)
        | inr (sv, there) ↦
            let lt : sv.seq < get_snapshot_size u = ground (arith, there) in
            ground (arith, there, ext.kept j sv there lt, now, before, then_value)
      ]

  reads_then :
      (s : SnapshotImpl)
      → IsCoherent read_object Clear apart s
      → (history : List SnapshotImpl) → All (λ u. Extends u s) history
      → (exec_seq : ℕ) (r : TxRead) → Clear r.contract_name r.key
      → WasRead read_object Clear exec_seq history r
      → key_conflicted exec_seq (construct_key r.contract_name r.key) s.tables.write_table ≡ false
      → value_after read_object Clear s.pre_snapshots s.tx_rw_set_table r.contract_name r.key
        ≡ ok r.value
  reads_then s coherent [] all exec_seq r clear was free = elim was [ ]
  reads_then s coherent (u ∷ past) all exec_seq r clear (inl (le, got)) free =
      read_then u s all.0 coherent exec_seq r.contract_name r.key r.value clear le got free
  reads_then s coherent (u ∷ past) all exec_seq r clear (inr earlier) free =
      reads_then s coherent past all.1 exec_seq r clear earlier free

  pub reads_serial_then :
      (s : SnapshotImpl)
      → IsCoherent read_object Clear apart s
      → (history : List SnapshotImpl) → All (λ u. Extends u s) history
      → (exec_seq : ℕ) (rs : List TxRead) → All (λ r. Clear r.contract_name r.key) rs
      → All (WasRead read_object Clear exec_seq history) rs
      → All
          (λ r.
            key_conflicted exec_seq (construct_key r.contract_name r.key) s.tables.write_table
            ≡ false)
          rs
      → All
          (λ r.
            value_after read_object Clear s.pre_snapshots s.tx_rw_set_table r.contract_name r.key
            ≡ ok r.value)
          rs
  reads_serial_then s coherent history all exec_seq [] clear was free = tt
  reads_serial_then s coherent history all exec_seq (r ∷ more) clear was free = (
    reads_then s coherent history all exec_seq r clear.0 was.0 free.0,
    reads_serial_then s coherent history all exec_seq more clear.1 was.1 free.1,
  )

  pub reads_now :
      (s : SnapshotImpl)
      → IsCoherent read_object Clear apart s
      → (rs : List TxRead) → All (λ r. Clear r.contract_name r.key) rs
      → All (λ r. get_key read_object r.contract_name r.key s ≡ ok r.value) rs
      → All
          (λ r.
            value_after read_object Clear s.pre_snapshots s.tx_rw_set_table r.contract_name r.key
            ≡ ok r.value)
          rs
  reads_now s coherent [] clear got = tt
  reads_now s coherent (r ∷ more) clear got = (
    sym (get_key-IsCoherent read_object Clear apart s coherent r.contract_name r.key clear.0)
        ∙ got.0,
    reads_now s coherent more clear.1 got.1,
  )

  -- No entry of a snapshot is numbered from its size on.
  pub unconflicted_from_size :
      (s : SnapshotImpl)
      → IsCoherent read_object Clear apart s
      → (exec_seq : ℕ) → get_snapshot_size s ≤ exec_seq
      → (j : Bytes) → key_conflicted exec_seq j s.tables.write_table ≡ false
  unfolding key_conflicted
  unconflicted_from_size s coherent exec_seq le j =
      elim (Option-cases (lookup j s.tables.write_table)) [
        | inl nowhere ↦ ground (arith, nowhere)
        | inr (sv, there) ↦ ground (arith, there, coherent.below j sv there)
      ]

  pub reads_free_from_size :
      (s : SnapshotImpl)
      → IsCoherent read_object Clear apart s
      → (exec_seq : ℕ) → get_snapshot_size s ≤ exec_seq
      → (rs : List TxRead)
      → All
          (λ r.
            key_conflicted exec_seq (construct_key r.contract_name r.key) s.tables.write_table
            ≡ false)
          rs
  reads_free_from_size s coherent exec_seq le [] = tt
  reads_free_from_size s coherent exec_seq le (r ∷ more) = (
    unconflicted_from_size s coherent exec_seq le (construct_key r.contract_name r.key),
    reads_free_from_size s coherent exec_seq le more,
  )

  Extends-apply :
      (context : TxSimContext) (ok_run : Bool) (u s : SnapshotImpl)
      → Extends u s
      → Extends u (
          apply_optimize context
            (context.rw_set ok_run)
            ok_run
            (build_kv_maps (context.rw_set ok_run))
            s)
  unfolding apply_optimize
  Extends-apply context ok_run u s ext =
      let entry = after_entry read_object Clear apart context ok_run s in
      record {
        coherent = ext.coherent;
        pre = ext.pre;
        grown = omega (arith, length-append s.tx_table (context.tx_id ∷ []), ext.grown);
        kept = λ j sv at lt.
            ext.kept j sv
              (put_over_old (get_snapshot_size s) _ _ (sym (entry j) ∙ at)
                (omega (arith, ext.grown)))
              lt;
        absent =
            λ j at. ext.absent j (put_over-none (get_snapshot_size s) _ _ (sym (entry j) ∙ at));
      }

  pub history-Extends :
      (context : TxSimContext) (ok_run : Bool) (s : SnapshotImpl) (history : List SnapshotImpl)
      → All (λ u. Extends u s) history
      → All
          (λ u. Extends u (
            apply_optimize context
              (context.rw_set ok_run)
              ok_run
              (build_kv_maps (context.rw_set ok_run))
              s))
          history
  history-Extends context ok_run s [] all = tt
  history-Extends context ok_run s (u ∷ past) all =
      (Extends-apply context ok_run u s all.0, history-Extends context ok_run s past all.1)
