-- ===== src/Snapshot/Dag/Adding.antt =====
-- The step of `BuildDAG` of chainmaker-go-master/module/snapshot/snapshot_impl.go to the next transaction.
use chainmaker.Prelude.{
  ℕ, suc, ◌+◌, ◌≤◌, ◌<◌, ◌≡◌, sym, ap, ◌∙◌, ◌⊎◌, inl, inr, true, ◌++◌, some, List, [], ◌∷◌, arith,
}
use mathlib.Core.Path.{subst}
use chainmaker.Prelude.Tests.{nat_eq, nat_eq_iff, Bool-cases}
use chainmaker.Prelude.Lists.{
  length, length-append, get_elem?, get_elem?-lt, get_elem?-append_left, get_elem?-append_right,
  get_elem?-append_cases,
}
use chainmaker.Prelude.Eq.{Bytes, bytes_instance}
use chainmaker.Snapshot.{TxRwSet}
use chainmaker.Snapshot.Dag.{Elem, Bitmap, Dicts, entries, add_tx, Dag, Reach, Reaches}
use chainmaker.Snapshot.Dag.Entries.{
  reads_key, writes_key, read_marks, write_marks, add_tx-reads, add_tx-writes,
}
use chainmaker.Snapshot.Dag.Visiting.{IsFitting}
use chainmaker.Snapshot.Dag.Covering.{read_marks_only}
use chainmaker.Snapshot.Dag.Known.{
  Reaches-append, last_of, neighbors, longer, more_bits, neighbors_before, Leads-Reaches,
  longer-IsKnown,
}
use chainmaker.Snapshot.Dag.Building.{
  InConflict, IsBuilt, write_marks_only, write_marks_has, read_marks_has,
}

module _ (bitmap : Bitmap) (txs : List TxRwSet) (i : ℕ) (d : Dicts) (reach_map : List bitmap.Bits)
    (dag : Dag) (built : IsBuilt bitmap txs i d reach_map dag) (t : TxRwSet)
    (here : get_elem? txs i ≡ some t) where
  open bitmap use {Bits, has}

  abbrev pub after : Dicts
  after = (add_tx i t d).0

  after_writers :
      (k : Bytes)
      → entries k after.write_key_dict ≡ entries k d.write_key_dict ++ write_marks k i t.tx_writes
  after_writers k = add_tx-writes k i t d

  after_readers :
      (k : Bytes)
      → entries k after.read_key_dict ≡ entries k d.read_key_dict ++ read_marks k i t.tx_reads
  after_readers k = add_tx-reads k i t d

  -- An entry of the lists is an old one, or that of this transaction.
  writer_cases :
      (k : Bytes) (n x : ℕ)
      → get_elem? (entries k after.write_key_dict) n ≡ some x
      → (get_elem? (entries k d.write_key_dict) n ≡ some x)
        ⊎ (x ≡ i) × (writes_key k t.tx_writes ≡ true) × (length (entries k d.write_key_dict) ≤ n)
  writer_cases k n x at =
      elim (get_elem?-append_cases (entries k d.write_key_dict) (write_marks k i t.tx_writes) n
        {a = x} (ap (λ es. get_elem? es n) (sym (after_writers k)) ∙ at)) [
          | inl old ↦ inl old
          | inr (m, e, new) ↦
              let (same, is) = write_marks_only k i t.tx_writes m x new in
              inr (same, is, omega (arith, e))
        ]

  pub reader_cases :
      (k : Bytes) (n x : ℕ)
      → get_elem? (entries k after.read_key_dict) n ≡ some x
      → (get_elem? (entries k d.read_key_dict) n ≡ some x) ⊎ (x ≡ i)
  reader_cases k n x at =
      elim (get_elem?-append_cases (entries k d.read_key_dict) (read_marks k i t.tx_reads) n {a = x}
        (ap (λ es. get_elem? es n) (sym (after_readers k)) ∙ at)) [
          | inl old ↦ inl old
          | inr (m, e, new) ↦ inr (read_marks_only k i t.tx_reads m x new)
        ]

  -- What stands in a list stands in the longer one.
  kept :
      (es more all : List ℕ) (n x : ℕ)
      → all ≡ es ++ more
      → get_elem? es n ≡ some x
      → get_elem? all n ≡ some x
  kept es more all n x e at =
      ap (λ l. get_elem? l n) e ∙ get_elem?-append_left es more n (get_elem?-lt es n at) ∙ at

  added :
      (es more all : List ℕ) (n x : ℕ)
      → all ≡ es ++ more
      → get_elem? more n ≡ some x
      → get_elem? all (length es + n) ≡ some x
  added es more all n x e at =
      ap (λ l. get_elem? l (length es + n)) e ∙ get_elem?-append_right es more n ∙ at

  after_wrote :
      (k : Bytes) (j : ℕ) (u : TxRwSet)
      → get_elem? txs j ≡ some u
      → j < suc i
      → writes_key k u.tx_writes ≡ true
      → (n : ℕ) × (get_elem? (entries k after.write_key_dict) n ≡ some j)
  after_wrote k j u at lt is =
      let es = entries k d.write_key_dict in
      let marks = write_marks k i t.tx_writes in
      elim (Bool-cases (nat_eq j i)) [
        | inl same ↦
            let e : j ≡ i = (nat_eq_iff j i).0 same in
            let tu : t ≡ u = cc (here, at, ap (get_elem? txs) e) in
            let (n, there) =
              write_marks_has k i t.tx_writes (ap (λ v. writes_key k v.tx_writes) tu ∙ is) in
            (length es + n, added es marks _ n i (after_writers k) there ∙ ap some (sym e))
        | inr other ↦
            let (n, there) = built.wrote k j u at (ground arith) is in
            (n, kept es marks _ n j (after_writers k) there)
      ]

  after_had_read :
      (k : Bytes) (j : ℕ) (u : TxRwSet)
      → get_elem? txs j ≡ some u
      → j < suc i
      → reads_key k u.tx_reads ≡ true
      → (n : ℕ) × (get_elem? (entries k after.read_key_dict) n ≡ some j)
  after_had_read k j u at lt is =
      let es = entries k d.read_key_dict in
      let marks = read_marks k i t.tx_reads in
      elim (Bool-cases (nat_eq j i)) [
        | inl same ↦
            let e : j ≡ i = (nat_eq_iff j i).0 same in
            let tu : t ≡ u = cc (here, at, ap (get_elem? txs) e) in
            let (n, there) =
              read_marks_has k i t.tx_reads (ap (λ v. reads_key k v.tx_reads) tu ∙ is) in
            (length es + n, added es marks _ n i (after_readers k) there ∙ ap some (sym e))
        | inr other ↦
            let (n, there) = built.had_read k j u at (ground arith) is in
            (n, kept es marks _ n j (after_readers k) there)
      ]

  -- The transaction is added with the bitmaps of `buildReachMap`.
  module _ (small : i < 4294967296) (r : Reach bitmap) (fits : IsFitting bitmap reach_map dag i r)
      (reads : (k : Bytes)
        → reads_key k t.tx_reads ≡ true
        → (n x : ℕ) → get_elem? (entries k d.write_key_dict) n ≡ some x
        → has x r.all_reach ≡ true)
      (writes : (k : Bytes)
        → writes_key k t.tx_writes ≡ true
        → ((n x : ℕ) → get_elem? (entries k d.write_key_dict) n ≡ some x → has x r.all_reach ≡ true)
          × ((n x : ℕ)
              → get_elem? (entries k d.read_key_dict) n ≡ some x
              → has x r.all_reach ≡ true)) where
    abbrev pub bits' : List Bits
    bits' = more_bits bitmap reach_map dag i small built.known built.sized r fits

    abbrev pub dag' : Dag
    dag' = longer bitmap reach_map dag i small built.known built.sized r fits

    after_chain :
        (k : Bytes) (n m x y : ℕ) (b : Bits)
        → n ≤ m
        → get_elem? (entries k after.write_key_dict) n ≡ some x
        → get_elem? (entries k after.write_key_dict) m ≡ some y
        → get_elem? bits' y ≡ some b
        → has x b ≡ true
    after_chain k n m x y b le at_n at_m found = elim (writer_cases k m y at_m) [
      | inl old_m ↦ elim (writer_cases k n x at_n) [
        | inl old_n ↦ elim (last_of reach_map r.all_reach y found) [
          | inl old ↦ built.chain k n m x y b le old_n old_m old
          | inr (e, new) ↦
              absurd (omega (arith, built.writers_below k m y old_m, built.known.sized))
        ]
        | inr (e, is, far) ↦
            absurd (omega (arith, get_elem?-lt (entries k d.write_key_dict) m old_m))
      ]
      | inr (e, is, far) ↦ elim (last_of reach_map r.all_reach y found) [
        | inl old ↦ absurd (omega (arith, get_elem?-lt reach_map y old, built.known.sized))
        | inr (e', new) ↦ elim (writer_cases k n x at_n) [
          | inl old_n ↦ ap (has x) new ∙ (writes k is).0 n x old_n
          | inr (e'', is', far') ↦ ap (has x) new ∙ ap (λ v. has v r.all_reach) e'' ∙ fits.self
        ]
      ]
    ]

    reaches : (j : ℕ) → j < i → has j r.all_reach ≡ true → Reaches dag' i j
    reaches j lt h = elim (fits.sound j h) [
      | inl same ↦ absurd (omega arith)
      | inr leads ↦
          Leads-Reaches bitmap reach_map dag i small built.known built.sized r fits j leads
    ]

    new_ordered :
        (j : ℕ) (u : TxRwSet) → get_elem? txs j ≡ some u → j < i → InConflict t u → Reaches dag' i j
    new_ordered j u at lt (k, inl (is, inl read)) =
        let (n, there) = built.had_read k j u at lt read in reaches j lt ((writes k is).1 n j there)
    new_ordered j u at lt (k, inl (is, inr written)) =
        let (n, there) = built.wrote k j u at lt written in reaches j lt ((writes k is).0 n j there)
    new_ordered j u at lt (k, inr (is, written)) =
        let (n, there) = built.wrote k j u at lt written in reaches j lt (reads k is n j there)

    after_ordered :
        (x j : ℕ) (v u : TxRwSet)
        → get_elem? txs x ≡ some v
        → get_elem? txs j ≡ some u
        → j < x
        → x < suc i
        → InConflict v u
        → Reaches dag' x j
    after_ordered x j v u at_x at_j lt le conflict = elim (Bool-cases (nat_eq x i)) [
      | inl same ↦
          let e : x ≡ i = (nat_eq_iff x i).0 same in
          let vt : v ≡ t = cc (here, at_x, ap (get_elem? txs) e) in
          subst (λ q. Reaches dag' q j) (sym e)
            (new_ordered j u at_j (omega arith) (subst (λ q. InConflict q u) vt conflict))
      | inr other ↦
          Reaches-append dag (neighbors bitmap reach_map dag i small built.known built.sized r fits)
            (built.ordered x j v u at_x at_j lt (ground arith) conflict)
    ]

    pub after-IsBuilt : IsBuilt bitmap txs (suc i) after bits' dag'
    after-IsBuilt = record {
      known = longer-IsKnown bitmap reach_map dag i small built.known built.sized r fits;
      sized = omega (
        arith,
        length-append dag
            (neighbors bitmap reach_map dag i small built.known built.sized r fits ∷ []),
        built.sized,
      );
      back = λ x y ns at there. elim (last_of dag _ x at) [
        | inl old ↦ built.back x y ns old there
        | inr (e, same) ↦
            let lt =
              neighbors_before bitmap reach_map dag i small built.known built.sized r fits y
                (subst (Elem y) same there) in
            omega (arith, built.sized, lt)
      ];
      writers_below = λ k n x at. elim (writer_cases k n x at) [
        | inl old ↦ omega (arith, built.writers_below k n x old)
        | inr (e, is, far) ↦ omega arith
      ];
      readers_below = λ k n x at. elim (reader_cases k n x at) [
        | inl old ↦ omega (arith, built.readers_below k n x old)
        | inr e ↦ omega arith
      ];
      chain = after_chain;
      wrote = after_wrote;
      had_read = after_had_read;
      ordered = after_ordered;
    }
