-- ===== src/Snapshot/Serial/Runs.antt =====
-- The runs of chainmaker-go-master/module/snapshot/snapshot_impl.go: what was applied side by side
-- was applied one after another.
use chainmaker.Prelude.{◌≡◌, ap, ◌⊎◌, inl, inr, Bool, true, false, ◌++◌, some, List, [], ◌∷◌, arith}
use mathlib.Core.List.{append_assoc, append-nil}
use chainmaker.Prelude.Tests.{leb, Bool-cases}
use chainmaker.Prelude.Lists.{All}
use chainmaker.Prelude.Eq.{Bytes, bytes_instance}
use chainmaker.Prelude.Map.{lookup}
use chainmaker.Prelude.Result.{Result, ok}
use chainmaker.Snapshot.{
  TxRwSet, TxSimContext, SnapshotImpl, Tables, construct_key, Kvs, build_kv_maps, key_conflicted,
  apply_optimize, get_key, get_snapshot_size,
}
use chainmaker.Snapshot.Applying.{
  prepare, any_conflicted, finish, apply_special, apply_iterator_first_run, seal,
}
use chainmaker.Snapshot.Serial.{
  value_after, IsSerial, WasRead, AreClear, Asked, noted, Run, start, normal, special, first_run,
  sealing,
}
use chainmaker.Snapshot.Serial.Extends.{
  Extends, Extends-refl, reads_serial_then, reads_now, reads_free_from_size, history-Extends,
}
use chainmaker.Snapshot.Serial.Puts.{prepare_lem, prepare_reads, reads_unconflicted}
use chainmaker.Snapshot.Serial.Coherence.{IsCoherent, apply_optimize-IsCoherent}

module _ {ℓ} (read_object : Bytes → Bytes → Result Bytes) (Clear : Bytes → Bytes → Type ℓ) where
  IsSerial-append :
      (pre : List Tables) (done : List TxRwSet) (successes : List Bool) (todo : List TxRwSet)
      (success : Bool) (rws : TxRwSet)
      → IsSerial read_object Clear pre done successes todo
      → (success ≡ true
          → All
              (λ r.
                value_after read_object Clear pre (done ++ todo) r.contract_name r.key ≡ ok r.value)
              rws.tx_reads)
      → IsSerial read_object Clear pre done (successes ++ success ∷ []) (todo ++ rws ∷ [])
  IsSerial-append pre done [] [] success rws serial last = (rw append-nil at last, tt)
  IsSerial-append pre done (y ∷ ys) (x ∷ todo) success rws serial last = (
    serial.0,
    IsSerial-append pre (done ++ x ∷ []) ys todo success rws serial.1
        (rw (← append_assoc done (x ∷ []) todo) at last),
  )
  IsSerial-append pre done [] (x ∷ todo) success rws serial last = elim serial [ ]
  IsSerial-append pre done (y ∷ ys) [] success rws serial last = elim serial [ ]

module _ {ℓ} (read_object : Bytes → Bytes → Result Bytes) (Clear : Bytes → Bytes → Type ℓ)
    (apart : (c k c' k' : Bytes)
      → Clear c k
      → Clear c' k'
      → construct_key c k ≡ construct_key c' k'
      → (c ≡ c') × (k ≡ k')) where
  -- What is kept along a run.
  pub record IsSound (successes : List Bool) (s : SnapshotImpl) (past : List SnapshotImpl)
      : Type ℓ where
    pub coherent : IsCoherent read_object Clear apart s
    extends : All (λ u. Extends read_object Clear apart u s) (s ∷ past)
    pub serial : IsSerial read_object Clear s.pre_snapshots [] successes s.tx_rw_set_table

  apply-IsSound :
      (context : TxSimContext) (ok_run : Bool) (successes : List Bool) (s : SnapshotImpl)
      (past : List SnapshotImpl)
      → IsSound successes s past
      → AreClear read_object Clear (context.rw_set ok_run)
      → Asked s ok_run (
          All
            (λ r.
              value_after read_object Clear s.pre_snapshots s.tx_rw_set_table r.contract_name r.key
              ≡ ok r.value)
            (context.rw_set ok_run).tx_reads)
      → IsSound
          (successes ++ ok_run ∷ [])
          (apply_optimize context
            (context.rw_set ok_run)
            ok_run
            (build_kv_maps (context.rw_set ok_run))
            s)
          (s ∷ past)
  unfolding apply_optimize
  apply-IsSound context ok_run successes s past sound clear reads =
      let coherent =
        apply_optimize-IsCoherent read_object Clear apart context ok_run s sound.coherent clear
          reads in
      record {
        coherent = coherent;
        extends = (
          Extends-refl read_object Clear apart _ coherent,
          history-Extends read_object Clear apart context ok_run s (s ∷ past) sound.extends,
        );
        serial =
            IsSerial-append read_object Clear s.pre_snapshots [] successes s.tx_rw_set_table ok_run
              (context.rw_set ok_run) sound.serial (λ success. reads (inl success));
      }

  stay-IsSound :
      (successes : List Bool) (s : SnapshotImpl) (past : List SnapshotImpl)
      → IsSound successes s past
      → IsSound successes s (s ∷ past)
  stay-IsSound successes s past sound = record {
    coherent = sound.coherent;
    extends = (Extends-refl read_object Clear apart s sound.coherent, sound.extends);
    serial = sound.serial;
  }

  -- Other flags and another list of special transactions make no difference.
  Extends-relabel :
      (sealed : Bool) (specials : List Bytes) (s : SnapshotImpl) (history : List SnapshotImpl)
      → All (λ u. Extends read_object Clear apart u s) history
      → All
          (λ u.
            Extends read_object Clear apart u
              (record s { sealed = sealed; special_tx_table = specials }))
          history
  Extends-relabel sealed specials s [] all = tt
  Extends-relabel sealed specials s (u ∷ past) all = (
    record {
      coherent = all.0.coherent;
      pre = all.0.pre;
      grown = all.0.grown;
      kept = all.0.kept;
      absent = all.0.absent;
    },
    Extends-relabel sealed specials s past all.1,
  )

  relabel-IsSound :
      (sealed : Bool) (specials : List Bytes) (successes : List Bool) (s : SnapshotImpl)
      (past : List SnapshotImpl)
      → IsSound successes s past
      → IsSound successes (record s { sealed = sealed; special_tx_table = specials }) (s ∷ past)
  relabel-IsSound sealed specials successes s past sound =
      let coherent : IsCoherent read_object Clear apart
          (record s { sealed = sealed; special_tx_table = specials }) =
        record {
          sized = sound.coherent.sized;
          written = sound.coherent.written;
          below = sound.coherent.below;
          cached = sound.coherent.cached;
          numbered = sound.coherent.numbered;
        } in
      record {
        coherent = coherent;
        extends = (
          Extends-refl read_object Clear apart _ coherent,
          Extends-relabel sealed specials s (s ∷ past) sound.extends,
        );
        serial = sound.serial;
      }

  -- A snapshot is left as it is, or takes a transaction whose reads have no conflict.
  finish_cases :
      (context : TxSimContext) (ok_run : Bool) (earlier : SnapshotImpl) (kvs : Kvs)
      (s : SnapshotImpl)
      → IsCoherent read_object Clear apart s
      → prepare context ok_run earlier ≡ some kvs
      → ((finish context ok_run kvs s).snapshot ≡ s)
          × ((finish context ok_run kvs s).applied ≡ false)
        ⊎ ((finish context ok_run kvs s).snapshot
            ≡ apply_optimize context
                (context.rw_set ok_run)
                ok_run
                (build_kv_maps (context.rw_set ok_run))
                s)
          × ((finish context ok_run kvs s).applied ≡ true)
          × All
              (λ r.
                key_conflicted context.exec_seq
                  (construct_key r.contract_name r.key)
                  s.tables.write_table
                ≡ false)
              (context.rw_set ok_run).tx_reads
  unfolding finish
  finish_cases context ok_run earlier kvs s coherent prepared =
      let built = prepare_lem context ok_run earlier prepared in
      let reads = (context.rw_set ok_run).tx_reads in
      elim (Bool-cases s.sealed) [
        | inl closed ↦ inl (ground (arith, closed), ground (arith, closed))
        | inr unsealed ↦ elim (Bool-cases (leb (get_snapshot_size s) context.exec_seq)) [
          | inl first ↦ inr (
            ground (arith, unsealed, first, built),
            ground (arith, unsealed, first),
            reads_free_from_size read_object Clear apart s coherent context.exec_seq (ground arith)
                reads,
          )
          | inr later ↦
              elim (Bool-cases (any_conflicted context.exec_seq kvs.reads s.tables.write_table)) [
                | inl conflict ↦ inl (
                  ground (arith, unsealed, later, conflict),
                  ground (arith, unsealed, later, conflict),
                )
                | inr free ↦ inr (
                  ground (arith, unsealed, later, free, built),
                  ground (arith, unsealed, later, free),
                  reads_unconflicted context.exec_seq s.tables.write_table reads []
                      (rw (← prepare_reads context ok_run earlier prepared) free),
                )
              ]
        ]
      ]

  finish-IsSound :
      (context : TxSimContext) (ok_run : Bool) (earlier : SnapshotImpl) (kvs : Kvs)
      (successes : List Bool) (s : SnapshotImpl) (past : List SnapshotImpl)
      → IsSound successes s past
      → AreClear read_object Clear (context.rw_set ok_run)
      → Asked s ok_run (
          All
            (WasRead read_object Clear context.exec_seq (s ∷ past))
            (context.rw_set ok_run).tx_reads)
      → prepare context ok_run earlier ≡ some kvs
      → IsSound
          (successes ++ noted (finish context ok_run kvs s).applied ok_run)
          (finish context ok_run kvs s).snapshot
          (s ∷ past)
  finish-IsSound context ok_run earlier kvs successes s past sound clear was prepared =
      elim (finish_cases context ok_run earlier kvs s sound.coherent prepared) [
        | inl (same, refused) ↦ rw (same, refused, append-nil) (stay-IsSound successes s past sound)
        | inr (applied, taken, free) ↦
            rw (applied, taken)
              (apply-IsSound context ok_run successes s past sound clear (λ asked.
                reads_serial_then read_object Clear apart s sound.coherent (s ∷ past) sound.extends
                  context.exec_seq (context.rw_set ok_run).tx_reads clear.0 (was asked) free))
      ]

  special-IsSound :
      (context : TxSimContext) (ok_run : Bool) (successes : List Bool) (s : SnapshotImpl)
      (past : List SnapshotImpl)
      → IsSound successes s past
      → AreClear read_object Clear (context.rw_set ok_run)
      → Asked s ok_run (
          All
            (λ r. get_key read_object r.contract_name r.key s ≡ ok r.value)
            (context.rw_set ok_run).tx_reads)
      → IsSound (successes ++ ok_run ∷ []) (apply_special context ok_run s).snapshot (s ∷ past)
  unfolding apply_special
  special-IsSound context ok_run successes s past sound clear got =
      apply-IsSound context ok_run successes s past sound clear (λ asked.
        reads_now read_object Clear apart s sound.coherent (context.rw_set ok_run).tx_reads clear.0
          (got asked))

  first_run_cases :
      (context : TxSimContext) (s : SnapshotImpl)
      → ((apply_iterator_first_run context s).snapshot ≡ s)
        ⊎ ((apply_iterator_first_run context s).snapshot
            ≡ record s { special_tx_table = s.special_tx_table ++ context.tx_id ∷ [] })
  unfolding apply_iterator_first_run
  first_run_cases context s = elim (Bool-cases s.sealed) [
    | inl closed ↦ inl (ground (arith, closed))
    | inr unsealed ↦ inr (ground (arith, unsealed))
  ]

  first_run-IsSound :
      (context : TxSimContext) (successes : List Bool) (s : SnapshotImpl) (past : List SnapshotImpl)
      → IsSound successes s past
      → IsSound successes (apply_iterator_first_run context s).snapshot (s ∷ past)
  first_run-IsSound context successes s past sound = elim (first_run_cases context s) [
    | inl same ↦ rw same (stay-IsSound successes s past sound)
    | inr more ↦
        rw more (
          relabel-IsSound s.sealed (s.special_tx_table ++ context.tx_id ∷ []) successes s past
            sound)
  ]

  start-IsSound :
      (s : SnapshotImpl)
      → s.tx_table ≡ []
      → s.tx_rw_set_table ≡ []
      → s.tables ≡ record { read_table = []; write_table = [] }
      → IsSound [] s []
  unfolding lookup key_conflicted
  start-IsSound s txs rws tables =
      let unwritten = λ (j : Bytes). ap (λ (t : Tables). lookup j t.write_table) tables in
      let unread = λ (j : Bytes). ap (λ (t : Tables). lookup j t.read_table) tables in
      let coherent : IsCoherent read_object Clear apart s = record {
        sized = ground (arith, txs, rws);
        written = λ c k clear. ground (arith, rws, unwritten (construct_key c k));
        below = λ j sv at. absurd (ground (arith, at, unwritten j));
        numbered = λ c k clear n. ground (arith, rws, unwritten (construct_key c k));
        cached =
            λ c k clear at sv found. absurd (ground (arith, found, unread (construct_key c k)));
      } in
      record {
        coherent = coherent;
        extends = (Extends-refl read_object Clear apart s coherent, tt);
        serial = rw rws tt;
      }

  pub Run-IsSound :
      {successes : List Bool} {s : SnapshotImpl} {past : List SnapshotImpl}
      → Run read_object Clear successes (s ∷ past)
      → IsSound successes s past
  unfolding seal
  Run-IsSound (start s txs rws tables) = start-IsSound s txs rws tables
  Run-IsSound (normal {s} {past} {successes} context ok_run earlier kvs run clear was prepared) =
      finish-IsSound context ok_run earlier kvs successes s past (Run-IsSound run) clear was
        prepared
  Run-IsSound (special {s} {past} {successes} context ok_run run clear got) =
      special-IsSound context ok_run successes s past (Run-IsSound run) clear got
  Run-IsSound (first_run {s} {past} {successes} context run) =
      first_run-IsSound context successes s past (Run-IsSound run)
  Run-IsSound (sealing {s} {past} {successes} run) =
      relabel-IsSound true s.special_tx_table successes s past (Run-IsSound run)
