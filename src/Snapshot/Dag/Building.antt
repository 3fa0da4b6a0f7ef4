-- ===== src/Snapshot/Dag/Building.antt =====
-- One transaction after another in `BuildDAG` of chainmaker-go-master/module/snapshot/snapshot_impl.go.
use chainmaker.Prelude.{
  ℕ, suc, ◌≤◌, ◌<◌, ◌≡◌, sym, ap, ◌∙◌, ◌⊎◌, inl, inr, true, ◌++◌, some, List, [], ◌∷◌, arith,
}
use mathlib.Core.List.{append_assoc, append-nil}
use chainmaker.Prelude.Tests.{Bool-cases}
use chainmaker.Prelude.Lists.{length, get_elem?, get_elem?-append_cases}
use chainmaker.Prelude.Eq.{Bytes, bytes_instance, ◌==◌}
use chainmaker.Snapshot.{TxRead, TxWrite, TxRwSet}
use chainmaker.Snapshot.Dag.{Elem, Bitmap, Dicts, entries, add_tx, build_dict_and_pos, Dag, Reaches}
use chainmaker.Snapshot.Dag.Entries.{
  reads_key, writes_key, read_marks, write_marks, add_tx-reads, add_tx-writes,
}
use chainmaker.Snapshot.Dag.Visiting.{IsKnown}
use chainmaker.Snapshot.Dag.Covering.{one_only}

-- Two transactions use the same key, and one of them writes it.
abbrev pub InConflict : TxRwSet → TxRwSet → Type 0
InConflict t u =
    (k : Bytes) × ((writes_key k t.tx_writes ≡ true)
        × ((reads_key k u.tx_reads ≡ true) ⊎ (writes_key k u.tx_writes ≡ true))
      ⊎ (reads_key k t.tx_reads ≡ true) × (writes_key k u.tx_writes ≡ true))

pub write_marks_only :
    (k : Bytes) (i : ℕ) (ws : List TxWrite) (n x : ℕ)
    → get_elem? (write_marks k i ws) n ≡ some x
    → (x ≡ i) × (writes_key k ws ≡ true)
write_marks_only k i [] n x h = cc
write_marks_only k i (w ∷ more) n x h = elim (Bool-cases (w.key == k)) [
  | inl same ↦
      elim (get_elem?-append_cases (i ∷ []) (write_marks k i more) n {a = x}
        (ground (arith, h, same))) [
          | inl here ↦ (one_only i n x here, ground (arith, same))
          | inr (m, at, there) ↦ ((write_marks_only k i more m x there).0, ground (arith, same))
        ]
  | inr other ↦
      let (e, is) = write_marks_only k i more n x (ground (arith, h, other)) in
      (e, ground (arith, is))
]

pub write_marks_has :
    (k : Bytes) (i : ℕ) (ws : List TxWrite)
    → writes_key k ws ≡ true
    → (n : ℕ) × (get_elem? (write_marks k i ws) n ≡ some i)
write_marks_has k i [] h = cc
write_marks_has k i (w ∷ more) h = elim (Bool-cases (w.key == k)) [
  | inl same ↦ (0, ground (arith, same))
  | inr other ↦
      let (n, at) = write_marks_has k i more (ground (arith, h, other)) in
      (n, ground (arith, at, other))
]

pub read_marks_has :
    (k : Bytes) (i : ℕ) (rs : List TxRead)
    → reads_key k rs ≡ true
    → (n : ℕ) × (get_elem? (read_marks k i rs) n ≡ some i)
read_marks_has k i [] h = cc
read_marks_has k i (r ∷ more) h = elim (Bool-cases (r.key == k)) [
  | inl same ↦ (0, ground (arith, same))
  | inr other ↦
      let (n, at) = read_marks_has k i more (ground (arith, h, other)) in
      (n, ground (arith, at, other))
]

-- The lists only grow.
pub build-writers :
    (k : Bytes) (i : ℕ) (ts : List TxRwSet) (d : Dicts)
    → (rest : List ℕ) × (entries k (build_dict_and_pos i ts d).0.write_key_dict
        ≡ entries k d.write_key_dict ++ rest)
unfolding build_dict_and_pos
build-writers k i [] d = ([], sym (append-nil (entries k d.write_key_dict)))
build-writers k i (t ∷ more) d =
    let (rest, e) = build-writers k (suc i) more (add_tx i t d).0 in
    (
      write_marks k i t.tx_writes ++ rest,
      e
          ∙ ap (λ l. l ++ rest) (add_tx-writes k i t d)
          ∙ append_assoc (entries k d.write_key_dict) (write_marks k i t.tx_writes) rest,
    )

pub build-readers :
    (k : Bytes) (i : ℕ) (ts : List TxRwSet) (d : Dicts)
    → (rest : List ℕ) × (entries k (build_dict_and_pos i ts d).0.read_key_dict
        ≡ entries k d.read_key_dict ++ rest)
unfolding build_dict_and_pos
build-readers k i [] d = ([], sym (append-nil (entries k d.read_key_dict)))
build-readers k i (t ∷ more) d =
    let (rest, e) = build-readers k (suc i) more (add_tx i t d).0 in
    (
      read_marks k i t.tx_reads ++ rest,
      e
          ∙ ap (λ l. l ++ rest) (add_tx-reads k i t d)
          ∙ append_assoc (entries k d.read_key_dict) (read_marks k i t.tx_reads) rest,
    )

module _ (bitmap : Bitmap) (txs : List TxRwSet) where
  open bitmap use {Bits, has}

  -- What holds after the first transactions, over the lists of them.
  pub record IsBuilt (i : ℕ) (d : Dicts) (reach_map : List Bits) (dag : Dag) : Type 0 where
    pub known : IsKnown bitmap reach_map dag i
    pub sized : length dag ≡ i
    pub back : (x y : ℕ) (ns : List ℕ) → get_elem? dag x ≡ some ns → Elem y ns → y < x
    pub writers_below :
        (k : Bytes) (n x : ℕ) → get_elem? (entries k d.write_key_dict) n ≡ some x → x < i
    pub readers_below :
        (k : Bytes) (n x : ℕ) → get_elem? (entries k d.read_key_dict) n ≡ some x → x < i
    pub chain :
        (k : Bytes) (n m x y : ℕ) (b : Bits)
        → n ≤ m
        → get_elem? (entries k d.write_key_dict) n ≡ some x
        → get_elem? (entries k d.write_key_dict) m ≡ some y
        → get_elem? reach_map y ≡ some b
        → has x b ≡ true
    pub wrote :
        (k : Bytes) (j : ℕ) (u : TxRwSet)
        → get_elem? txs j ≡ some u
        → j < i
        → writes_key k u.tx_writes ≡ true
        → (n : ℕ) × (get_elem? (entries k d.write_key_dict) n ≡ some j)
    pub had_read :
        (k : Bytes) (j : ℕ) (u : TxRwSet)
        → get_elem? txs j ≡ some u
        → j < i
        → reads_key k u.tx_reads ≡ true
        → (n : ℕ) × (get_elem? (entries k d.read_key_dict) n ≡ some j)
    pub ordered :
        (x j : ℕ) (t u : TxRwSet)
        → get_elem? txs x ≡ some t
        → get_elem? txs j ≡ some u
        → j < x
        → x < i
        → InConflict t u
        → Reaches dag x j
