-- ===== src/Snapshot/Dag/Entries.antt =====
-- The lists of readers and writers that chainmaker-go-master/module/snapshot/snapshot_impl.go builds
-- for `BuildDAG`, and the positions of a transaction in them.
use chainmaker.Prelude.{
  ℕ, ◌≡◌, refl, ap, ◌∙◌, inl, inr, Bool, true, false, ◌||◌, ◌++◌, some, List, [], ◌∷◌, arith,
}
use mathlib.Core.List.{append_assoc, append-nil}
use chainmaker.Prelude.Tests.{if◌then◌else◌, Bool-cases}
use chainmaker.Prelude.Lists.{length}
use chainmaker.Prelude.Eq.{Bytes, bytes_instance, bytes_eq_iff, ◌==◌}
use chainmaker.Prelude.Map.{Map, lookup, lookup-insert}
use chainmaker.Snapshot.{TxRead, TxWrite, TxRwSet}
use chainmaker.Snapshot.Dag.{
  u32, Dicts, Positions, entries, entries_or, add_entry, add_reads, add_writes, add_tx,
}

abbrev pub reads_key : Bytes → List TxRead → Bool
reads_key k [] = false
reads_key k (r ∷ more) = r.key == k || reads_key k more

abbrev pub writes_key : Bytes → List TxWrite → Bool
writes_key k [] = false
writes_key k (w ∷ more) = w.key == k || writes_key k more

-- No key stands twice among the writes.
abbrev pub WritesOnce : List TxWrite → Type 0
WritesOnce [] = Unit
WritesOnce (w ∷ more) = (writes_key w.key more ≡ false) × WritesOnce more

pub entries-add_entry :
    (k key : Bytes) (i : ℕ) (d : Map Bytes (List ℕ))
    → entries k (add_entry key i d) ≡ (if key == k then entries k d ++ i ∷ [] else entries k d)
unfolding entries add_entry
entries-add_entry k key i d = elim (Bool-cases (key == k)) [
  | inl same ↦
      rw ((bytes_eq_iff key k).0 same)
        (ground (arith, lookup-insert k k (entries_or (lookup k d) ++ i ∷ []) d, bytes_eq_iff k k))
  | inr other ↦ ground (arith, other, lookup-insert key k (entries_or (lookup key d) ++ i ∷ []) d)
]

-- One number for each time that a list names the key.
abbrev pub read_marks : Bytes → ℕ → List TxRead → List ℕ
read_marks k i [] = []
read_marks k i (r ∷ more) = (if r.key == k then i ∷ [] else []) ++ read_marks k i more

abbrev pub write_marks : Bytes → ℕ → List TxWrite → List ℕ
write_marks k i [] = []
write_marks k i (w ∷ more) = (if w.key == k then i ∷ [] else []) ++ write_marks k i more

entries_step :
    (k key : Bytes) (i : ℕ) (d : Map Bytes (List ℕ)) (rest : List ℕ)
    → entries k (add_entry key i d) ++ rest
      ≡ entries k d ++ ((if key == k then i ∷ [] else []) ++ rest)
entries_step k key i d rest = ground (
  arith,
  ap (λ (e : List ℕ). e ++ rest) (entries-add_entry k key i d),
  append_assoc (entries k d) (i ∷ []) rest,
)

pub add_reads-entries :
    (k : Bytes) (i : ℕ) (rs : List TxRead) (state : Dicts × Positions)
    → entries k (add_reads i rs state).0.read_key_dict
      ≡ entries k state.0.read_key_dict ++ read_marks k i rs
unfolding add_reads
add_reads-entries k i [] state = rw append-nil
add_reads-entries k i (r ∷ more) (d, p) =
    add_reads-entries k i more _ ∙ entries_step k r.key i d.read_key_dict (read_marks k i more)

pub add_reads-writes :
    (i : ℕ) (rs : List TxRead) (state : Dicts × Positions)
    → (add_reads i rs state).0.write_key_dict ≡ state.0.write_key_dict
unfolding add_reads
add_reads-writes i [] state = refl
add_reads-writes i (r ∷ more) (d, p) = add_reads-writes i more _

pub add_writes-entries :
    (k : Bytes) (i : ℕ) (ws : List TxWrite) (state : Dicts × Positions)
    → entries k (add_writes i ws state).0.write_key_dict
      ≡ entries k state.0.write_key_dict ++ write_marks k i ws
unfolding add_writes
add_writes-entries k i [] state = rw append-nil
add_writes-entries k i (w ∷ more) (d, p) =
    add_writes-entries k i more _ ∙ entries_step k w.key i d.write_key_dict (write_marks k i more)

pub add_writes-reads :
    (i : ℕ) (ws : List TxWrite) (state : Dicts × Positions)
    → (add_writes i ws state).0.read_key_dict ≡ state.0.read_key_dict
unfolding add_writes
add_writes-reads i [] state = refl
add_writes-reads i (w ∷ more) (d, p) = add_writes-reads i more _

pub add_tx-reads :
    (k : Bytes) (i : ℕ) (rw : TxRwSet) (d : Dicts)
    → entries k (add_tx i rw d).0.read_key_dict
      ≡ entries k d.read_key_dict ++ read_marks k i rw.tx_reads
unfolding add_tx
add_tx-reads k i rws d =
    ap (entries k) (add_writes-reads i rws.tx_writes _) ∙ add_reads-entries k i rws.tx_reads _

pub add_tx-writes :
    (k : Bytes) (i : ℕ) (rw : TxRwSet) (d : Dicts)
    → entries k (add_tx i rw d).0.write_key_dict
      ≡ entries k d.write_key_dict ++ write_marks k i rw.tx_writes
unfolding add_tx
add_tx-writes k i rws d =
    add_writes-entries k i rws.tx_writes _
    ∙ ap (λ m. entries k m ++ write_marks k i rws.tx_writes) (add_reads-writes i rws.tx_reads _)

-- The writers of a key before the transaction are counted by its position for the key.
abbrev pub Counted : Bytes → Map Bytes (List ℕ) → Map Bytes ℕ → Type 0
Counted k dict positions = lookup k positions ≡ some (u32 (length (entries k dict)))

add_reads_keeps :
    (k : Bytes) (i : ℕ) (rs : List TxRead) (d : Dicts) (p : Positions)
    → Counted k d.write_key_dict p.write_pos
    → Counted k d.write_key_dict (add_reads i rs (d, p)).1.write_pos
unfolding add_reads
add_reads_keeps k i [] d p h = h
add_reads_keeps k i (r ∷ more) d p h = add_reads_keeps k i more _ _ (
    ground (
      arith,
      lookup-insert r.key k (u32 (length (entries r.key d.write_key_dict))) p.write_pos,
      bytes_eq_iff r.key k,
    ))

pub add_reads-Counted :
    (k : Bytes) (i : ℕ) (rs : List TxRead) (d : Dicts) (p : Positions)
    → reads_key k rs ≡ true
    → Counted k d.write_key_dict (add_reads i rs (d, p)).1.write_pos
unfolding add_reads
add_reads-Counted k i [] d p h = cc
add_reads-Counted k i (r ∷ more) d p h = elim (Bool-cases (r.key == k)) [
  | inl same ↦ add_reads_keeps k i more _ _ (
      ground (
        arith,
        lookup-insert r.key k (u32 (length (entries r.key d.write_key_dict))) p.write_pos,
        bytes_eq_iff r.key k,
      ))
  | inr other ↦ add_reads-Counted k i more _ _ (ground arith)
]
