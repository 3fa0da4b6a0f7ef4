-- ===== src/Snapshot/Dag/Order.antt =====
-- What `BuildDAG` of chainmaker-go-master/module/snapshot/snapshot_impl.go promises.
use chainmaker.Prelude.{
  ℕ, suc, ◌+◌, ◌<◌, ◌≡◌, refl, ap, ◌∙◌, inl, inr, false, some, List, [], ◌∷◌, arith,
}
use mathlib.Core.Path.{subst}
use chainmaker.Prelude.Lists.{All, length, get_elem?, get_elem?-lt}
use chainmaker.Prelude.Eq.{Bytes, bytes_instance}
use chainmaker.Prelude.Map.{lookup}
use chainmaker.Prelude.Result.{ok}
use chainmaker.Snapshot.{TxRwSet}
use chainmaker.Snapshot.Dag.{
  Elem, Bitmap, Dicts, entries, add_tx, build_dict_and_pos, Dag, build_vertexes, build_dag, Reaches,
}
use chainmaker.Snapshot.Dag.Entries.{WritesOnce}
use chainmaker.Snapshot.Dag.Covering.{AreListed}
use chainmaker.Snapshot.Dag.Loops.{build_reach_map_lem}
use chainmaker.Snapshot.Dag.Building.{InConflict, IsBuilt, build-writers, build-readers}
use chainmaker.Snapshot.Dag.Adding.{reader_cases, after-IsBuilt}

abbrev pub no_entries : Dicts
no_entries = record { read_key_dict = []; write_key_dict = [] }

-- Each key is read and written fewer than 2^32 times.
abbrev pub AreFew : Dicts → Type 0
AreFew all =
    (k : Bytes)
    → (length (entries k all.read_key_dict) < 4294967296)
      × (length (entries k all.write_key_dict) < 4294967296)

module _ (bitmap : Bitmap) (txs : List TxRwSet) where
  open bitmap use {Bits}

  build_vertexes_lem :
      (i : ℕ) (ts : List TxRwSet) (d : Dicts) (reach_map : List Bits) (dag : Dag)
      → ((n : ℕ) → get_elem? txs (i + n) ≡ get_elem? ts n)
      → All (λ t. WritesOnce t.tx_writes) ts
      → i + length ts < 4294967296
      → AreFew (build_dict_and_pos i ts d).0
      → IsBuilt bitmap txs i d reach_map dag
      → (dag' : Dag) × (build_vertexes bitmap i ts
            (build_dict_and_pos i ts d).1
            (build_dict_and_pos i ts d).0
            reach_map
            dag
          ≡ ok dag')
        × (d' : Dicts) × (reach_map' : List Bits) × IsBuilt bitmap txs
            (i + length ts)
            d'
            reach_map'
            dag'
  unfolding build_vertexes build_dict_and_pos
  build_vertexes_lem i [] d reach_map dag rest once small few built =
      let e : i ≡ i + 0 = omega arith in
      (dag, refl, d, reach_map, subst (λ n. IsBuilt bitmap txs n d reach_map dag) e built)
  build_vertexes_lem i (t ∷ more) d reach_map dag rest once small few built =
      let here : get_elem? txs i ≡ some t =
        let e : i ≡ i + 0 = omega arith in ap (get_elem? txs) e ∙ rest 0 in
      let all = (build_dict_and_pos i (t ∷ more) d).0 in
      let next = (add_tx i t d).0 in
      let listed : AreListed bitmap reach_map dag i built.known all d next = record {
        writers = λ k. build-writers k i (t ∷ more) d;
        readers = λ k. build-readers k (suc i) more next;
        few_writers = λ k. (few k).1;
        few_readers = λ k. (few k).0;
        writers_below = built.writers_below;
        readers_below = λ k n x at.
            elim (reader_cases bitmap txs i d reach_map dag built t here k n x at) [
              | inl old ↦ omega (arith, built.readers_below k n x old)
              | inr e ↦ omega arith
            ];
        chain = built.chain;
      } in
      let (r, ran, fits, reads, writes) =
        build_reach_map_lem bitmap reach_map dag i built.known all d next listed t refl once.0 in
      let grown =
        after-IsBuilt bitmap txs i d reach_map dag built t here (omega arith) r fits reads writes in
      let (dag', built_all, d', reach_map', last) =
        build_vertexes_lem (suc i) more next _ _
          (λ n. let e : suc i + n ≡ i + suc n = omega arith in ap (get_elem? txs) e ∙ rest (suc n))
          once.1 (omega arith) few grown in
      let e : suc i + length more ≡ i + suc (length more) = omega arith in
      (
        dag',
        rw ran built_all,
        d',
        reach_map',
        subst (λ n. IsBuilt bitmap txs n d' reach_map' dag') e last,
      )

  -- A block of fewer than 2^32 transactions, none of which writes a key twice, and in which each key is
  -- read and written fewer than 2^32 times, has a graph whose edges lead to earlier transactions, and
  -- in which each transaction leads to every earlier one that is in conflict with it.
  pub build_dag_lem :
      All (λ t. WritesOnce t.tx_writes) txs
      → length txs < 4294967296
      → AreFew (build_dict_and_pos 0 txs no_entries).0
      → (dag : Dag) × (build_dag bitmap false txs ≡ ok dag)
        × (length dag ≡ length txs)
        × ((x y : ℕ) (ns : List ℕ) → get_elem? dag x ≡ some ns → Elem y ns → y < x)
        × ((x j : ℕ) (t u : TxRwSet)
            → get_elem? txs x ≡ some t
            → get_elem? txs j ≡ some u
            → j < x
            → InConflict t u
            → Reaches dag x j)
  unfolding build_dag entries lookup
  build_dag_lem once small few =
      let first : IsBuilt bitmap txs 0 no_entries [] [] = record {
        known = record {
          sized = refl;
          self = λ x b at. cc;
          below = λ x y b at h. cc;
          closed = λ x y z b c at h found there. cc;
          sound = λ x y b at h. cc;
        };
        sized = refl;
        back = λ x y ns at there. cc;
        writers_below = λ k n x at. cc;
        readers_below = λ k n x at. cc;
        chain = λ k n m x y b le at_n at_m found. cc;
        wrote = λ k j u at lt is. absurd (omega arith);
        had_read = λ k j u at lt is. absurd (omega arith);
        ordered = λ x j t u at_x at_j lt le conflict. absurd (omega arith);
      } in
      let (dag, ran, d, reach_map, built) =
        build_vertexes_lem 0 txs no_entries [] [] (λ n. ap (get_elem? txs) (omega arith)) once
          (omega arith) few first in
      (
        dag,
        ran,
        omega (arith, built.sized),
        built.back,
        λ x j t u at_x at_j lt conflict.
            built.ordered x j t u at_x at_j lt (omega (arith, get_elem?-lt txs x at_x)) conflict,
      )
