-- ===== src/Snapshot/Dag.antt =====
-- chainmaker-go-master/module/snapshot/snapshot_impl.go: `BuildDAG`, which says what transactions of a
-- block have to be executed before others.
pub mod Entries
pub mod Places
pub mod Visiting
pub mod Covering
pub mod Loops
pub mod Known
pub mod Building
pub mod Adding
pub mod Order
pub mod Missed
use chainmaker.Prelude.{
  ℕ, zero, suc, ◌+◌, ◌-◌, ◌%◌, ◌≡◌, ◌↔◌, ◌⊎◌, Bool, true, false, ◌||◌, ◌++◌, Option, none, some,
  List, [], ◌∷◌, map,
}
use chainmaker.Prelude.Tests.{nat_eq, if◌then◌else◌}
use chainmaker.Prelude.Lists.{length, get_elem?}
use chainmaker.Prelude.Eq.{Bytes, bytes_instance}
use chainmaker.Prelude.Map.{Map, lookup, insert}
use chainmaker.Prelude.Result.{Error, Result, ok, err, panic, ◌>>=◌}
use chainmaker.Snapshot.{TxRead, TxWrite, TxRwSet}

abbrev pub u32 : ℕ → ℕ
u32 n = n % 4294967296

-- Membership by recursion.
abbrev pub Elem : {A : Type 0} → A → List A → Type 0
Elem x [] = ⊥
Elem x (y ∷ ys) = (y ≡ x) ⊎ Elem x ys

-- The bitmap of common/bitmap, whose code is elsewhere.
pub record Bitmap : Type 1 where
  pub Bits : Type 0
  pub empty : Bits
  pub set : ℕ → Bits → Bits
  pub has : ℕ → Bits → Bool
  pub or : Bits → Bits → Bits
  pub pos1 : Bits → List ℕ
  pub has-empty : (n : ℕ) → has n empty ≡ false
  pub has-set : (n k : ℕ) (b : Bits) → has n (set k b) ≡ nat_eq k n || has n b
  pub has-or : (n : ℕ) (a b : Bits) → has n (or a b) ≡ has n a || has n b
  pub elem-pos1 : (n : ℕ) (b : Bits) → Elem n (pos1 b) ↔ (has n b ≡ true)

-- The transactions that read or write each key, in order.
pub record Dicts : Type 0 where
  pub read_key_dict : Map Bytes (List ℕ)
  pub write_key_dict : Map Bytes (List ℕ)

-- Where the entries of one transaction stand in the lists of its keys.
pub record Positions : Type 0 where
  pub read_pos : Map Bytes ℕ
  pub write_pos : Map Bytes ℕ

abbrev pub entries_or : Option (List ℕ) → List ℕ
entries_or none = []
entries_or (some entries) = entries

unfoldable pub entries : Bytes → Map Bytes (List ℕ) → List ℕ
entries key dict = entries_or (lookup key dict)

unfoldable pub add_entry : Bytes → ℕ → Map Bytes (List ℕ) → Map Bytes (List ℕ)
add_entry key i dict = insert key (entries key dict ++ i ∷ []) dict

unfoldable pub add_reads : ℕ → List TxRead → Dicts × Positions → Dicts × Positions
add_reads i [] state = state
add_reads i (r ∷ more) (dicts, positions) = add_reads i more (
  record dicts { read_key_dict = add_entry r.key i dicts.read_key_dict },
  record {
    read_pos = insert r.key (u32 (length (entries r.key dicts.read_key_dict))) positions.read_pos;
    write_pos =
        insert r.key (u32 (length (entries r.key dicts.write_key_dict))) positions.write_pos;
  },
)

-- An assignment to a key that is not there yet.
abbrev pub insert_new : Bytes → ℕ → Map Bytes ℕ → Map Bytes ℕ
insert_new key n positions = elim (lookup key positions) [
  | some _ ↦ positions
  | none ↦ insert key n positions
]

unfoldable pub add_writes : ℕ → List TxWrite → Dicts × Positions → Dicts × Positions
add_writes i [] state = state
add_writes i (w ∷ more) (dicts, positions) = add_writes i more (
  record dicts { write_key_dict = add_entry w.key i dicts.write_key_dict },
  record {
    read_pos =
        insert_new w.key (u32 (length (entries w.key dicts.read_key_dict))) positions.read_pos;
    write_pos =
        insert w.key (u32 (length (entries w.key dicts.write_key_dict))) positions.write_pos;
  },
)

unfoldable pub add_tx : ℕ → TxRwSet → Dicts → Dicts × Positions
add_tx i rw dicts =
    add_writes i rw.tx_writes
      (add_reads i rw.tx_reads (dicts, record { read_pos = []; write_pos = [] }))

-- The positions of the transactions stand in a list in place of a map from their numbers.
unfoldable pub build_dict_and_pos : ℕ → List TxRwSet → Dicts → Dicts × List Positions
build_dict_and_pos i [] dicts = (dicts, [])
build_dict_and_pos i (rw ∷ more) dicts =
    let (added, positions) = add_tx i rw dicts in
    let (all, rest) = build_dict_and_pos (suc i) more added in (all, positions ∷ rest)

abbrev pub pos_or_zero : Option ℕ → ℕ
pos_or_zero none = 0
pos_or_zero (some n) = n

abbrev pub pos_of : Bytes → Map Bytes ℕ → ℕ
pos_of key positions = pos_or_zero (lookup key positions)

-- The neighbors of each transaction, in order.
abbrev pub Dag : Type 0
Dag = List (List ℕ)

-- One transaction leads to another through neighbors.
pub data Reaches (dag : Dag) : ℕ → ℕ → Type 0 where
  edge : {x y : ℕ} (ns : List ℕ) → get_elem? dag x ≡ some ns → Elem y ns → Reaches dag x y
  via :
      {x w y : ℕ} (ns : List ℕ)
      → get_elem? dag x ≡ some ns
      → Elem w ns
      → Reaches dag w y
      → Reaches dag x y

module _ (bitmap : Bitmap) where
  open bitmap use {Bits, empty, set, has, or, pos1}

  -- What a transaction depends on, at once or at last, and what it depends on directly.
  pub record Reach : Type 0 where
    pub all_reach : Bits
    pub direct_reach : Bits

  abbrev pub join : ℕ → Reach → Option Bits → Result Reach
  join j r none = panic
  join j r (some reached) =
      ok (record { all_reach = or r.all_reach reached; direct_reach = set j r.direct_reach })

  -- A transaction before this one that is in conflict with it.
  unfoldable pub visit : List Bits → ℕ → Reach → Result Reach
  visit reach_map j r = if has j r.all_reach then ok r else join j r (get_elem? reach_map j)

  abbrev pub visit_entry : List Bits → Option ℕ → Reach → Result Reach
  visit_entry reach_map none r = panic
  visit_entry reach_map (some j) r = visit reach_map j r

  -- The entry before the given position, if there is one.
  unfoldable pub visit_before : List Bits → List ℕ → ℕ → Reach → Result Reach
  visit_before reach_map txs zero r = ok r
  visit_before reach_map txs (suc j) r = visit_entry reach_map (get_elem? txs j) r

  -- All entries before the given position, from the last one on.
  unfoldable pub visit_all : List Bits → List ℕ → ℕ → Reach → Result Reach
  visit_all reach_map txs zero r = ok r
  visit_all reach_map txs (suc j) r = do
    visited ← visit_entry reach_map (get_elem? txs j) r
    visit_all reach_map txs j visited

  -- The writers of a key, of which there may be none.
  unfoldable pub visit_writer : List Bits → Bytes → Dicts → Positions → Reach → Result Reach
  visit_writer reach_map key dicts positions r = elim (entries key dicts.write_key_dict) [
    | [] ↦ ok r
    | w ∷ more ↦ visit_before reach_map (w ∷ more) (pos_of key positions.write_pos) r
  ]

  unfoldable pub visit_readers : List Bits → Bytes → Dicts → Positions → Reach → Result Reach
  visit_readers reach_map key dicts positions r = elim (entries key dicts.read_key_dict) [
    | [] ↦ ok r
    | w ∷ more ↦ visit_all reach_map (w ∷ more) (pos_of key positions.read_pos) r
  ]

  unfoldable pub reach_reads : List Bits → List TxRead → Dicts → Positions → Reach → Result Reach
  reach_reads reach_map [] dicts positions r = ok r
  reach_reads reach_map (x ∷ more) dicts positions r = do
    visited ← visit_writer reach_map x.key dicts positions r
    reach_reads reach_map more dicts positions visited

  unfoldable pub reach_writes : List Bits → List TxWrite → Dicts → Positions → Reach → Result Reach
  reach_writes reach_map [] dicts positions r = ok r
  reach_writes reach_map (x ∷ more) dicts positions r = do
    read ← visit_readers reach_map x.key dicts positions r
    written ← visit_writer reach_map x.key dicts positions read
    reach_writes reach_map more dicts positions written

  unfoldable pub build_reach_map : ℕ → TxRwSet → Dicts → Positions → List Bits → Result Reach
  build_reach_map i rw dicts positions reach_map = do
    read ←
        reach_reads reach_map rw.tx_reads dicts positions
          (record { all_reach = set i empty; direct_reach = empty })
    reach_writes reach_map rw.tx_writes dicts positions read

  unfoldable pub build_vertexes :
      ℕ → List TxRwSet → List Positions → Dicts → List Bits → Dag → Result Dag
  build_vertexes i [] positions dicts reach_map dag = ok dag
  build_vertexes i (rw ∷ more) [] dicts reach_map dag = panic
  build_vertexes i (rw ∷ more) (p ∷ positions) dicts reach_map dag = do
    r ← build_reach_map i rw dicts p reach_map
    build_vertexes (suc i) more positions dicts (reach_map ++ r.all_reach ∷ [])
        (dag ++ map u32 (pos1 r.direct_reach) ∷ [])

  -- Over SQL each transaction waits for the one before it.
  unfoldable pub sql_vertexes : ℕ → List TxRwSet → Dag
  sql_vertexes i [] = []
  sql_vertexes zero (rw ∷ more) = [] ∷ sql_vertexes 1 more
  sql_vertexes (suc i) (rw ∷ more) = (i ∷ []) ∷ sql_vertexes (suc (suc i)) more

  -- `BuildDAG` of a table of fewer than 2^32 transactions.
  unfoldable pub build_dag : Bool → List TxRwSet → Result Dag
  build_dag true sets = ok (sql_vertexes 0 sets)
  build_dag false sets =
      let (dicts, positions) =
        build_dict_and_pos 0 sets (record { read_key_dict = []; write_key_dict = [] }) in
      build_vertexes 0 sets positions dicts [] []
