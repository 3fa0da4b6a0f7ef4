-- ===== src/Snapshot/Dag/Missed.antt =====
-- A conflict that `BuildDAG` of chainmaker-go-master/module/snapshot/snapshot_impl.go does not see.
use chainmaker.Prelude.{
  ℕ, zero, suc, ◌≡◌, refl, sym, inl, inr, false, some, List, [], ◌∷◌, map, arith,
}
use mathlib.Core.Path.{subst}
use chainmaker.Prelude.Lists.{get_elem?}
use chainmaker.Prelude.Eq.{Bytes, bytes_instance, bytes_eq_iff}
use chainmaker.Prelude.Map.{lookup, insert}
use chainmaker.Prelude.Result.{ok}
use chainmaker.Snapshot.{TxWrite, TxRwSet}
use chainmaker.Snapshot.Dag.{
  u32, Elem, Bitmap, entries, add_entry, add_reads, add_writes, add_tx, build_dict_and_pos, Dag,
  visit, visit_before, visit_writer, visit_readers, reach_reads, reach_writes, build_reach_map,
  build_vertexes, build_dag, Reaches, edge, via,
}
use chainmaker.Snapshot.Dag.Known.{Elem-map_back}
use chainmaker.Snapshot.Dag.Building.{InConflict}

abbrev pub write_of : Bytes → Bytes → Bytes → TxWrite
write_of contract key value = record { contract_name = contract; key = key; value = value }

abbrev pub writing : List TxWrite → TxRwSet
writing ws = record { tx_reads = []; tx_writes = ws }

module _ (bitmap : Bitmap) where
  open bitmap use {empty, pos1, has-empty, elem-pos1}

  no_neighbors : (n : ℕ) → ¬ Elem n (map u32 (pos1 empty))
  no_neighbors n there =
      let (m, at, e) = Elem-map_back n (pos1 empty) there in
      cc ((elem-pos1 m empty).0 at, has-empty m)

  nobody : Dag
  nobody = map u32 (pos1 empty) ∷ map u32 (pos1 empty) ∷ []

  nobody_at : (n : ℕ) (ns : List ℕ) → get_elem? nobody n ≡ some ns → map u32 (pos1 empty) ≡ ns
  unfolding nobody
  nobody_at zero ns at = ground arith
  nobody_at (suc zero) ns at = ground arith
  nobody_at (suc (suc n)) ns at = cc

  no_way : {n m : ℕ} → ¬ Reaches nobody n m
  no_way (edge {x = n} {y = m} ns at there) =
      no_neighbors m (subst (Elem m) (sym (nobody_at n ns at)) there)
  no_way (via ns at there rest) = no_way rest

module _ (bitmap : Bitmap) (key a b c x y z : Bytes) where
  open bitmap use {Bits, empty, set, has, pos1, has-empty, has-set, elem-pos1}

  abbrev first : TxRwSet
  first = writing (write_of a key x ∷ [])

  abbrev second : TxRwSet
  second = writing (write_of b key y ∷ write_of c key z ∷ [])

  missed_dicts :
      (build_dict_and_pos 0
        (first ∷ second ∷ [])
        (record { read_key_dict = []; write_key_dict = [] }))
      ≡ (
        record { read_key_dict = []; write_key_dict = (key, 0 ∷ 1 ∷ 1 ∷ []) ∷ [] },
        record { read_pos = (key, 0) ∷ []; write_pos = (key, 0) ∷ [] }
            ∷ record { read_pos = (key, 0) ∷ []; write_pos = (key, 2) ∷ [] }
            ∷ [],
      )
  unfolding build_dict_and_pos add_tx add_reads add_writes add_entry entries lookup insert
  missed_dicts = ground (arith, (bytes_eq_iff key key).1 refl)

  missed_dag :
      build_dag bitmap false (first ∷ second ∷ [])
      ≡ ok (map u32 (pos1 empty) ∷ map u32 (pos1 empty) ∷ [])
  unfolding build_dag build_vertexes build_reach_map reach_reads reach_writes visit_readers
      visit_writer visit_before visit entries lookup
  missed_dag = ground (arith, missed_dicts, (bytes_eq_iff key key).1 refl, has-set 1 1 empty)

  -- Two transactions that write one key, the second of them twice (in two contracts), are in conflict,
  -- and the graph of the block has no way from the second to the first.
  pub build_dag_missed :
      InConflict second first
      × (dag : Dag) × (build_dag bitmap false (first ∷ second ∷ []) ≡ ok dag)
      × ¬ Reaches dag 1 0
  unfolding nobody
  build_dag_missed =
      let same = (bytes_eq_iff key key).1 refl in
      (
        (key, inl (ground (arith, same), inr (ground (arith, same)))),
        map u32 (pos1 empty) ∷ map u32 (pos1 empty) ∷ [],
        missed_dag,
        no_way bitmap,
      )
