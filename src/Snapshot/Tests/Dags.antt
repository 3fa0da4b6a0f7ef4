-- ===== src/Snapshot/Tests/Dags.antt =====
-- Tests of `BuildDAG` of chainmaker-go-master/module/snapshot/snapshot_impl.go.
use chainmaker.Prelude.{
  ℕ, ◌<◌, ◌≡◌, refl, inl, inr, Bool, true, false, ◌||◌, ◌++◌, some, List, [], ◌∷◌, arith,
}
use chainmaker.Prelude.Tests.{nat_eq, nat_eq_iff, Bool-cases}
use chainmaker.Prelude.Lists.{All, length, get_elem?}
use chainmaker.Prelude.Eq.{bytes_instance, bytes_eq}
use chainmaker.Prelude.Map.{lookup, insert}
use chainmaker.Prelude.Result.{ok}
use chainmaker.Snapshot.{TxRwSet}
use chainmaker.Snapshot.Dag.{
  Elem, Bitmap, Dicts, entries, add_entry, add_reads, add_writes, add_tx, build_dict_and_pos, Dag,
  build_dag, build_vertexes, build_reach_map, reach_reads, reach_writes, visit_readers,
  visit_writer, visit_before, visit_all, visit, Reaches,
}
use chainmaker.Snapshot.Dag.Entries.{WritesOnce}
use chainmaker.Snapshot.Dag.Building.{InConflict}
use chainmaker.Snapshot.Dag.Order.{no_entries, AreFew, build_dag_lem}
use chainmaker.Snapshot.Dag.Missed.{write_of, writing, build_dag_missed}

-- A bitmap as a list of the numbers that it has.
elem_of : ℕ → List ℕ → Bool
elem_of n [] = false
elem_of n (m ∷ more) = nat_eq m n || elem_of n more

elem_of-append : (n : ℕ) (a b : List ℕ) → elem_of n (a ++ b) ≡ elem_of n a || elem_of n b
unfolding elem_of
elem_of-append n [] b = refl
elem_of-append n (m ∷ a) b = ground (arith, elem_of-append n a b)

elem_of-Elem : (n : ℕ) (a : List ℕ) → elem_of n a ≡ true → Elem n a
unfolding elem_of
elem_of-Elem n [] h = cc
elem_of-Elem n (m ∷ a) h = elim (Bool-cases (nat_eq m n)) [
  | inl same ↦ inl ((nat_eq_iff m n).0 same)
  | inr other ↦ inr (elem_of-Elem n a (ground arith))
]

Elem-elem_of : (n : ℕ) (a : List ℕ) → Elem n a → elem_of n a ≡ true
unfolding elem_of
Elem-elem_of n [] there = elim there [ ]
Elem-elem_of n (m ∷ a) (inl e) = ground (arith, (nat_eq_iff m n).1 e)
Elem-elem_of n (m ∷ a) (inr later) = ground (arith, Elem-elem_of n a later)

abbrev lists : Bitmap
unfolding elem_of
lists = record {
  Bits = List ℕ;
  empty = [];
  set = λ n a. n ∷ a;
  has = elem_of;
  or = λ a b. a ++ b;
  pos1 = λ a. a;
  has-empty = λ n. refl;
  has-set = λ n k a. refl;
  has-or = elem_of-append;
  elem-pos1 = λ n a. (Elem-elem_of n a, elem_of-Elem n a);
}

-- The first transaction writes a key, the second reads it and writes another, the third writes both.
abbrev three : List TxRwSet
three =
    writing (write_of (1 ∷ []) (5 ∷ []) (9 ∷ []) ∷ [])
    ∷ record {
      tx_reads = record { contract_name = 1 ∷ []; key = 5 ∷ []; value = 9 ∷ [] } ∷ [];
      tx_writes = write_of (1 ∷ []) (6 ∷ []) (9 ∷ []) ∷ [];
    }
    ∷ writing (write_of (1 ∷ []) (5 ∷ []) (9 ∷ []) ∷ write_of (1 ∷ []) (6 ∷ []) (8 ∷ []) ∷ [])
    ∷ []

three_dag : build_dag lists false three ≡ ok ([] ∷ (0 ∷ []) ∷ (1 ∷ []) ∷ [])
unfolding build_dag build_vertexes build_reach_map reach_reads reach_writes visit_readers
    visit_writer visit_before visit_all visit entries build_dict_and_pos add_tx add_reads add_writes
    add_entry lookup insert bytes_eq elem_of
three_dag = refl

abbrev three_dicts : Dicts
three_dicts = record {
  read_key_dict = ((5 ∷ []), 1 ∷ []) ∷ [];
  write_key_dict = ((5 ∷ []), 0 ∷ 2 ∷ []) ∷ ((6 ∷ []), 1 ∷ 2 ∷ []) ∷ [];
}

three_built : (build_dict_and_pos 0 three no_entries).0 ≡ three_dicts
unfolding build_dict_and_pos add_tx add_reads add_writes add_entry entries lookup insert bytes_eq
three_built = refl

three_dicts-AreFew : AreFew three_dicts
unfolding entries lookup
three_dicts-AreFew k = (ground arith, ground arith)

three-AreFew : AreFew (build_dict_and_pos 0 three no_entries).0
three-AreFew = rw three_built three_dicts-AreFew

three-WritesOnce : All (λ t. WritesOnce t.tx_writes) three
unfolding bytes_eq
three-WritesOnce = ((refl, tt), ((refl, tt), ((refl, (refl, tt)), tt)))

build_dag_lem_example :
    (dag : Dag) × (build_dag lists false three ≡ ok dag)
    × (length dag ≡ 3)
    × ((x y : ℕ) (ns : List ℕ) → get_elem? dag x ≡ some ns → Elem y ns → y < x)
    × ((x j : ℕ) (t u : TxRwSet)
        → get_elem? three x ≡ some t
        → get_elem? three j ≡ some u
        → j < x
        → InConflict t u
        → Reaches dag x j)
build_dag_lem_example = build_dag_lem lists three three-WritesOnce (omega arith) three-AreFew

build_dag_missed_example :
    InConflict
      (writing (write_of (1 ∷ []) (5 ∷ []) [] ∷ write_of (2 ∷ []) (5 ∷ []) [] ∷ []))
      (writing (write_of (1 ∷ []) (5 ∷ []) [] ∷ []))
    × (dag : Dag) × (build_dag lists false (
          writing (write_of (1 ∷ []) (5 ∷ []) [] ∷ [])
          ∷ writing (write_of (1 ∷ []) (5 ∷ []) [] ∷ write_of (2 ∷ []) (5 ∷ []) [] ∷ [])
          ∷ [])
        ≡ ok dag)
    × ¬ Reaches dag 1 0
build_dag_missed_example = build_dag_missed lists (5 ∷ []) (1 ∷ []) (1 ∷ []) (2 ∷ []) [] [] []
