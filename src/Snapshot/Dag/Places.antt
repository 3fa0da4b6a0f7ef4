-- ===== src/Snapshot/Dag/Places.antt =====
-- The positions that chainmaker-go-master/module/snapshot/snapshot_impl.go notes for a transaction.
use chainmaker.Prelude.{
  ℕ, ◌+◌, ◌≤◌, ◌≡◌, refl, sym, ap, ◌∙◌, ◌⊎◌, inl, inr, true, false, ◌||◌, none, some, List, [], ◌∷◌,
  arith,
}
use chainmaker.Prelude.Tests.{Bool-cases}
use chainmaker.Prelude.Lists.{length, length-append}
use chainmaker.Prelude.Eq.{Bytes, bytes_instance, bytes_eq_iff, ◌==◌}
use chainmaker.Prelude.Map.{Map, lookup, insert, lookup-insert}
use chainmaker.Snapshot.{TxRead, TxWrite, TxRwSet}
use chainmaker.Snapshot.Dag.{
  u32, Dicts, Positions, entries, add_entry, add_reads, add_writes, add_tx, insert_new,
}
use chainmaker.Snapshot.Dag.Entries.{
  reads_key, writes_key, WritesOnce, Counted, entries-add_entry, add_reads-writes, add_writes-reads,
  add_reads-Counted,
}

add_writes_keeps :
    (k : Bytes) (i : ℕ) (ws : List TxWrite) (d : Dicts) (p : Positions)
    → writes_key k ws ≡ false
    → lookup k (add_writes i ws (d, p)).1.write_pos ≡ lookup k p.write_pos
unfolding add_writes
add_writes_keeps k i [] d p h = refl
add_writes_keeps k i (w ∷ more) d p h =
    add_writes_keeps k i more _ _ (ground arith)
    ∙ ground (
      arith,
      lookup-insert w.key k (u32 (length (entries w.key d.write_key_dict))) p.write_pos,
      bytes_eq_iff w.key k,
    )

add_writes-Counted :
    (k : Bytes) (i : ℕ) (ws : List TxWrite) (d : Dicts) (p : Positions)
    → WritesOnce ws
    → writes_key k ws ≡ true
    → Counted k d.write_key_dict (add_writes i ws (d, p)).1.write_pos
unfolding add_writes
add_writes-Counted k i [] d p once h = cc
add_writes-Counted k i (w ∷ more) d p once h = elim (Bool-cases (w.key == k)) [
  | inl same ↦
      let e : w.key ≡ k = (bytes_eq_iff w.key k).0 same in
      let other : writes_key k more ≡ false = ap (λ x. writes_key x more) (sym e) ∙ once.0 in
      add_writes_keeps k i more _ _ other
      ∙ ground (
        arith,
        lookup-insert w.key k (u32 (length (entries w.key d.write_key_dict))) p.write_pos,
        bytes_eq_iff w.key k,
      )
  | inr other ↦
      let next : Dicts = record d { write_key_dict = add_entry w.key i d.write_key_dict } in
      let placed : Positions = record {
        read_pos = insert_new w.key (u32 (length (entries w.key d.read_key_dict))) p.read_pos;
        write_pos = insert w.key (u32 (length (entries w.key d.write_key_dict))) p.write_pos;
      } in
      let later = add_writes-Counted k i more next placed once.1 (ground arith) in
      ground (arith, later, other, entries-add_entry k w.key i d.write_key_dict)
]

-- In a transaction that writes no key twice, the position of each key that it reads or writes counts
-- the writers of the key before the transaction.
pub add_tx-Counted :
    (k : Bytes) (i : ℕ) (rw : TxRwSet) (d : Dicts)
    → WritesOnce rw.tx_writes
    → reads_key k rw.tx_reads || writes_key k rw.tx_writes ≡ true
    → Counted k d.write_key_dict (add_tx i rw d).1.write_pos
unfolding add_tx
add_tx-Counted k i rws d once h =
    let start : Positions = record { read_pos = []; write_pos = [] } in
    let mid = add_reads i rws.tx_reads (d, start) in
    let same = add_reads-writes i rws.tx_reads (d, start) in
    elim (Bool-cases (writes_key k rws.tx_writes)) [
      | inl writes ↦
          add_writes-Counted k i rws.tx_writes mid.0 mid.1 once writes
          ∙ ap (λ m. some (u32 (length (entries k m)))) same
      | inr not_written ↦
          add_writes_keeps k i rws.tx_writes mid.0 mid.1 not_written
          ∙ add_reads-Counted k i rws.tx_reads d start (ground arith)
    ]

-- A position that lies among the readers, from those before the transaction on.
abbrev pub Within : Bytes → Map Bytes (List ℕ) → Map Bytes (List ℕ) → Map Bytes ℕ → Type 0
Within k before dict positions =
    (n : ℕ) × (lookup k positions ≡ some (u32 n))
    × (length (entries k before) ≤ n)
    × (n ≤ length (entries k dict))

abbrev NoneOrWithin : Bytes → Map Bytes (List ℕ) → Map Bytes (List ℕ) → Map Bytes ℕ → Type 0
NoneOrWithin k before dict positions =
    (lookup k positions ≡ none) × (entries k dict ≡ entries k before)
    ⊎ Within k before dict positions

entry-Within :
    (k key : Bytes) (i : ℕ) (before dict : Map Bytes (List ℕ)) (positions : Map Bytes ℕ)
    → NoneOrWithin k before dict positions
    → NoneOrWithin k before
        (add_entry key i dict)
        (insert key (u32 (length (entries key dict))) positions)
entry-Within k key i before dict positions h =
    let grown = entries-add_entry k key i dict in
    let at = lookup-insert key k (u32 (length (entries key dict))) positions in
    let size = length-append (entries k dict) (i ∷ []) in
    elim (Bool-cases (key == k)) [
      | inl same ↦
          let e : key ≡ k = (bytes_eq_iff key k).0 same in
          let len : length (entries key dict) ≡ length (entries k dict) =
            ap (λ x. length (entries x dict)) e in
          let here : lookup k (insert key (u32 (length (entries key dict))) positions)
              ≡ some (u32 (length (entries k dict))) =
            at ∙ ground (arith, same, len) in
          let longer : length (entries k (add_entry key i dict)) ≡ length (entries k dict) + 1 =
            ap length (grown ∙ ground (arith, same)) ∙ size in
          elim h [
            | inl (absent, eq) ↦
                inr (
                  length (entries k dict),
                  here,
                  omega (arith, ap length eq),
                  omega (arith, longer),
                )
            | inr (n, found, lo, hi) ↦
                inr (length (entries k dict), here, omega arith, omega (arith, longer))
          ]
      | inr other ↦
          let kept : entries k (add_entry key i dict) ≡ entries k dict =
            grown ∙ ground (arith, other) in
          let still : lookup k (insert key (u32 (length (entries key dict))) positions)
              ≡ lookup k positions =
            at ∙ ground (arith, other) in
          elim h [
            | inl (absent, eq) ↦ inl (still ∙ absent, kept ∙ eq)
            | inr (n, found, lo, hi) ↦ inr (n, still ∙ found, lo, omega (arith, ap length kept))
          ]
    ]

add_reads-Within :
    (k : Bytes) (i : ℕ) (rs : List TxRead) (before : Map Bytes (List ℕ)) (d : Dicts) (p : Positions)
    → NoneOrWithin k before d.read_key_dict p.read_pos
    → NoneOrWithin k before
        (add_reads i rs (d, p)).0.read_key_dict
        (add_reads i rs (d, p)).1.read_pos
unfolding add_reads
add_reads-Within k i [] before d p h = h
add_reads-Within k i (r ∷ more) before d p h =
    add_reads-Within k i more before _ _
      (entry-Within k r.key i before d.read_key_dict p.read_pos h)

add_writes_stay :
    (k : Bytes) (i : ℕ) (ws : List TxWrite) (d : Dicts) (p : Positions) {n : ℕ}
    → lookup k p.read_pos ≡ some n
    → lookup k (add_writes i ws (d, p)).1.read_pos ≡ some n
unfolding add_writes
add_writes_stay k i [] d p h = h
add_writes_stay k i (w ∷ more) d p {n} h = add_writes_stay k i more _ _ (
    ground (
      arith,
      h,
      lookup-insert w.key k (u32 (length (entries w.key d.read_key_dict))) p.read_pos,
      bytes_eq_iff w.key k,
    ))

add_writes-Within :
    (k : Bytes) (i : ℕ) (ws : List TxWrite) (before : Map Bytes (List ℕ)) (d : Dicts)
    (p : Positions)
    → NoneOrWithin k before d.read_key_dict p.read_pos
    → writes_key k ws ≡ true
    → Within k before d.read_key_dict (add_writes i ws (d, p)).1.read_pos
unfolding add_writes
add_writes-Within k i [] before d p h is = cc
add_writes-Within k i (w ∷ more) before d p (inr (n, found, lo, hi)) is =
    (n, add_writes_stay k i (w ∷ more) d p found, lo, hi)
add_writes-Within k i (w ∷ more) before d p (inl (absent, eq)) is =
    let at = lookup-insert w.key k (u32 (length (entries w.key d.read_key_dict))) p.read_pos in
    elim (Bool-cases (w.key == k)) [
      | inl same ↦
          let e : w.key ≡ k = (bytes_eq_iff w.key k).0 same in
          let len : length (entries w.key d.read_key_dict) ≡ length (entries k d.read_key_dict) =
            ap (λ x. length (entries x d.read_key_dict)) e in
          let fresh : lookup w.key p.read_pos ≡ none = ap (λ x. lookup x p.read_pos) e ∙ absent in
          (
            length (entries k d.read_key_dict),
            add_writes_stay k i more _ _ (ground (arith, at, same, len, fresh)),
            omega (arith, ap length eq),
            omega arith,
          )
      | inr other ↦
          add_writes-Within k i more before _ _ (inl (ground (arith, at, absent, other), eq))
            (ground arith)
    ]

-- The position of a key that the transaction writes lies among the readers of the key.
pub add_tx-Within :
    (k : Bytes) (i : ℕ) (rw : TxRwSet) (d : Dicts)
    → writes_key k rw.tx_writes ≡ true
    → Within k d.read_key_dict (add_tx i rw d).0.read_key_dict (add_tx i rw d).1.read_pos
unfolding add_tx lookup
add_tx-Within k i rws d is =
    let start : Positions = record { read_pos = []; write_pos = [] } in
    let mid = add_reads i rws.tx_reads (d, start) in
    let (n, found, lo, hi) =
      add_writes-Within k i rws.tx_writes d.read_key_dict mid.0 mid.1
        (add_reads-Within k i rws.tx_reads d.read_key_dict d start (inl (refl, refl))) is in
    let same = add_writes-reads i rws.tx_writes mid in
    (n, found, lo, omega (arith, hi, ap (λ m. length (entries k m)) same))
