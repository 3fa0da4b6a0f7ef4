-- ===== src/Snapshot/Serial/Coherence.antt =====
-- The tables of a snapshot of chainmaker-go-master/module/snapshot/snapshot_impl.go against the
-- transactions that were applied to it.
use chainmaker.Prelude.{
  ℕ, zero, suc, ◌≤◌, ◌<◌, ◌≡◌, refl, sym, ap, ◌∙◌, ◌⊎◌, inl, inr, Bool, true, false, ◌&&◌, ◌||◌,
  ◌++◌, Option, none, some, List, [], ◌∷◌, arith,
}
use chainmaker.Prelude.Tests.{leb, Bool-cases, Option-cases}
use chainmaker.Prelude.Lists.{All, length, length-append}
use chainmaker.Prelude.Eq.{Bytes, bytes_instance, ◌==◌, bytes_eq, bytes_eq_iff}
use chainmaker.Prelude.Map.{Map, lookup, insert, lookup-insert}
use chainmaker.Prelude.Result.{Result, ok}
use chainmaker.Snapshot.{
  Sv, TxRead, TxWrite, TxRwSet, TxSimContext, SnapshotImpl, construct_key, key_conflicted, read_kvs,
  write_kvs, build_kv_maps, keeps_reads, apply_optimize, in_tables, get_key, get_pre_key,
  get_snapshot_size,
}
use chainmaker.Snapshot.Serial.{
  write_of, last_write, is_value, wrote_since, value_after, AreClear, Asked,
}
use chainmaker.Snapshot.Serial.Puts.{
  put_over, lookup-put_all, write_kvs-Distinct, read_kvs-Distinct, read_kvs_values,
}

last_write-append :
    (c k : Bytes) (done : List TxRwSet) (rw : TxRwSet) (before : Option Bytes)
    → last_write c k (done ++ rw ∷ []) before
      ≡ write_of c k rw.tx_writes (last_write c k done before)
last_write-append c k [] rw before = refl
last_write-append c k (x ∷ done) rw before =
    last_write-append c k done rw (write_of c k x.tx_writes before)

wrote_since-append :
    (c k : Bytes) (n : ℕ) (done : List TxRwSet) (rw : TxRwSet)
    → wrote_since c k n (done ++ rw ∷ [])
      ≡ (wrote_since c k n done || leb n (length done) && is_value (write_of c k rw.tx_writes none))
wrote_since-append c k zero [] rw = ground arith
wrote_since-append c k (suc n) [] rw = ground arith
wrote_since-append c k zero (x ∷ done) rw = ground (arith, wrote_since-append c k zero done rw)
wrote_since-append c k (suc n) (x ∷ done) rw = ground (arith, wrote_since-append c k n done rw)

-- No transaction of the list has its length as its number, or a greater one.
pub wrote_since_beyond :
    (c k : Bytes) (n : ℕ) (done : List TxRwSet) → length done ≤ n → wrote_since c k n done ≡ false
wrote_since_beyond c k n [] le = refl
wrote_since_beyond c k zero (x ∷ done) le = absurd (omega arith)
wrote_since_beyond c k (suc n) (x ∷ done) le = wrote_since_beyond c k n done (omega arith)

abbrev pub value_of : Option Sv → Option Bytes
value_of (some sv) = some sv.value
value_of none = none

-- A value that is put over another is the one of the map of writes.
abbrev over : Option Bytes → Option Bytes → Option Bytes
over (some v) before = some v
over none before = before

value_of-put_over :
    (seq : ℕ) (new : Option Bytes) (old : Option Sv)
    → value_of (put_over seq new old) ≡ over new (value_of old)
value_of-put_over seq none old = refl
value_of-put_over seq (some v) old = refl

module _ {ℓ} (read_object : Bytes → Bytes → Result Bytes) (Clear : Bytes → Bytes → Type ℓ)
    (apart : (c k c' k' : Bytes)
      → Clear c k
      → Clear c' k'
      → construct_key c k ≡ construct_key c' k'
      → (c ≡ c') × (k ≡ k')) where
  -- The tables hold the last writes, numbered below the size, and reads of values that are still
  -- those of the snapshots before and of the store, unless the key is written.
  pub record IsCoherent (s : SnapshotImpl) : Type ℓ where
    pub sized : get_snapshot_size s ≡ length s.tx_rw_set_table
    pub written :
        (c k : Bytes)
        → Clear c k
        → value_of (lookup (construct_key c k) s.tables.write_table)
          ≡ last_write c k s.tx_rw_set_table none
    pub below :
        (j : Bytes) (sv : Sv)
        → lookup j s.tables.write_table ≡ some sv
        → sv.seq < get_snapshot_size s
    pub numbered :
        (c k : Bytes)
        → Clear c k
        → (n : ℕ)
        → key_conflicted n (construct_key c k) s.tables.write_table
          ≡ wrote_since c k n s.tx_rw_set_table
    pub cached :
        (c k : Bytes)
        → Clear c k
        → lookup (construct_key c k) s.tables.write_table ≡ none
        → (sv : Sv) → lookup (construct_key c k) s.tables.read_table ≡ some sv
        → get_pre_key read_object s.pre_snapshots c k ≡ ok sv.value

  -- `GetKey` gives what the transactions applied so far leave one after another.
  pub get_key-IsCoherent :
      (s : SnapshotImpl)
      → IsCoherent s
      → (c k : Bytes) → Clear c k
      → get_key read_object c k s
        ≡ value_after read_object Clear s.pre_snapshots s.tx_rw_set_table c k
  unfolding get_key in_tables
  get_key-IsCoherent s coherent c k clear =
      let j = construct_key c k in
      let at = coherent.written c k clear in
      elim (Option-cases (lookup j s.tables.write_table)) [
        | inr (sv, found) ↦ ground (arith, found, at)
        | inl absent ↦ elim (Option-cases (lookup j s.tables.read_table)) [
          | inl unread ↦ ground (arith, absent, unread, at)
          | inr (sv, found) ↦
              ground (arith, absent, found, at, coherent.cached c k clear absent sv found)
        ]
      ]

  one_write :
      (c k : Bytes) (w : TxWrite) (kvs : Map Bytes Bytes)
      → Clear c k
      → Clear w.contract_name w.key
      → (before : Option Bytes)
      → over
          (lookup (construct_key c k) (insert (construct_key w.contract_name w.key) w.value kvs))
          before
        ≡ write_of c k (w ∷ []) (over (lookup (construct_key c k) kvs) before)
  one_write c k w kvs clear clear' before =
      let j = construct_key w.contract_name w.key in
      let i = construct_key c k in
      let at = lookup-insert j i w.value kvs in
      elim (Bool-cases (j == i)) [
        | inl same ↦
            let (e, f) = apart w.contract_name w.key c k clear' clear ((bytes_eq_iff j i).0 same) in
            let e' : bytes_eq w.contract_name c ≡ true = (bytes_eq_iff w.contract_name c).1 e in
            let f' : bytes_eq w.key k ≡ true = (bytes_eq_iff w.key k).1 f in
            ground (arith, at, same, e', f')
        | inr other ↦ elim (Bool-cases (w.contract_name == c)) [
          | inr ne ↦ ground (arith, at, other, ne)
          | inl e ↦ elim (Bool-cases (w.key == k)) [
            | inr ne ↦ ground (arith, at, other, e, ne)
            | inl f ↦
                let joined : j ≡ i =
                  ap (λ x. construct_key x w.key) ((bytes_eq_iff w.contract_name c).0 e)
                  ∙ ap (construct_key c) ((bytes_eq_iff w.key k).0 f) in
                absurd (ground (arith, other, (bytes_eq_iff j i).1 joined))
          ]
        ]
      ]

  -- The map of the writes holds the last write of each key.
  write_kvs_lem :
      (c k : Bytes) (ws : List TxWrite) (kvs : Map Bytes Bytes)
      → Clear c k
      → All (λ w. Clear w.contract_name w.key) ws
      → (before : Option Bytes)
      → over (lookup (construct_key c k) (write_kvs ws kvs)) before
        ≡ write_of c k ws (over (lookup (construct_key c k) kvs) before)
  unfolding write_kvs
  write_kvs_lem c k [] kvs clear all before = refl
  write_kvs_lem c k (w ∷ more) kvs clear all before =
      let j = construct_key w.contract_name w.key in
      let next = insert j w.value kvs in
      write_kvs_lem c k more next clear all.1 before
      ∙ ap (write_of c k more) (one_write c k w kvs clear all.0 before)

  -- A transaction is applied whose reads give what the tables give.
  module _ (context : TxSimContext) (ok_run : Bool) (s : SnapshotImpl) where
    abbrev pub accesses : TxRwSet
    accesses = context.rw_set ok_run

    abbrev pub after : SnapshotImpl
    after = apply_optimize context accesses ok_run (build_kv_maps accesses) s

    pub after_entry :
        (j : Bytes)
        → lookup j after.tables.write_table
          ≡ put_over
              (get_snapshot_size s)
              (lookup j (write_kvs accesses.tx_writes []))
              (lookup j s.tables.write_table)
    unfolding apply_optimize build_kv_maps
    after_entry j =
        lookup-put_all j (get_snapshot_size s) (write_kvs accesses.tx_writes [])
          s.tables.write_table (write_kvs-Distinct accesses.tx_writes [] tt)

    after_written :
        IsCoherent s
        → AreClear read_object Clear accesses
        → (c k : Bytes) → Clear c k
        → value_of (lookup (construct_key c k) after.tables.write_table)
          ≡ last_write c k after.tx_rw_set_table none
    unfolding apply_optimize build_kv_maps lookup
    after_written coherent clear c k at =
        let j = construct_key c k in
        ap value_of (after_entry j)
        ∙ value_of-put_over (get_snapshot_size s) (lookup j (write_kvs accesses.tx_writes []))
            (lookup j s.tables.write_table)
        ∙ write_kvs_lem c k accesses.tx_writes [] at clear.1
            (value_of (lookup j s.tables.write_table))
        ∙ ap (write_of c k accesses.tx_writes) (coherent.written c k at)
        ∙ sym (last_write-append c k s.tx_rw_set_table accesses none)

    after_numbered :
        IsCoherent s
        → AreClear read_object Clear accesses
        → (c k : Bytes) → Clear c k
        → (n : ℕ)
        → key_conflicted n (construct_key c k) after.tables.write_table
          ≡ wrote_since c k n after.tx_rw_set_table
    unfolding apply_optimize build_kv_maps lookup key_conflicted
    after_numbered coherent clear c k at n =
        let j = construct_key c k in
        let new = write_kvs_lem c k accesses.tx_writes [] at clear.1 none in
        let before = coherent.numbered c k at n in
        let beyond = wrote_since_beyond c k n s.tx_rw_set_table in
        rw (wrote_since-append c k n s.tx_rw_set_table accesses)
          (elim (Option-cases (lookup j (write_kvs accesses.tx_writes []))) [
            | inl unwritten ↦ ground (arith, unwritten, after_entry j, new, before)
            | inr (v, written) ↦
                ground (arith, written, after_entry j, new, before, coherent.sized, beyond)
          ])

    after_below :
        IsCoherent s
        → (j : Bytes) (sv : Sv) → lookup j after.tables.write_table ≡ some sv
        → sv.seq < get_snapshot_size after
    unfolding apply_optimize build_kv_maps
    after_below coherent j sv at =
        let grown = length-append s.tx_table (context.tx_id ∷ []) in
        elim (Option-cases (lookup j (write_kvs accesses.tx_writes []))) [
          | inr (v, new) ↦ ground (arith, grown, after_entry j, new)
          | inl old ↦ ground (arith, grown, after_entry j, old, coherent.below j sv)
        ]

    -- Each read gives what the transactions applied before leave.
    abbrev pub AreSerial : List TxRead → Type 0
    AreSerial = All (λ r.
        value_after read_object Clear s.pre_snapshots s.tx_rw_set_table r.contract_name r.key
        ≡ ok r.value)

    reads_of_key :
        IsCoherent s
        → (c k : Bytes) → Clear c k
        → lookup (construct_key c k) s.tables.write_table ≡ none
        → (rs : List TxRead) → All (λ r. Clear r.contract_name r.key) rs
        → AreSerial rs
        → All
            (λ r.
              construct_key r.contract_name r.key ≡ construct_key c k
              → get_pre_key read_object s.pre_snapshots c k ≡ ok r.value)
            rs
    reads_of_key coherent c k at absent [] clear serial = tt
    reads_of_key coherent c k at absent (r ∷ more) clear serial = (
      λ joined.
          let (e, f) = apart r.contract_name r.key c k clear.0 at joined in
          let unwritten = coherent.written c k at in
          let left = value_after read_object Clear s.pre_snapshots s.tx_rw_set_table in
          let there : left c k ≡ ok r.value =
            sym (ap (λ x. left x r.key) e ∙ ap (left c) f) ∙ serial.0 in
          ground (arith, unwritten, absent, there),
      reads_of_key coherent c k at absent more clear.1 serial.1,
    )

    -- Reads are put into the table where they are asked to be right.
    kept_reads : keeps_reads ok_run s ≡ true → (ok_run ≡ true) ⊎ (s.block_version < 2201)
    unfolding keeps_reads
    kept_reads keeps = elim (Bool-cases ok_run) [
      | inl success ↦ inl success
      | inr failed ↦ inr (ground arith)
    ]

    after_cached :
        IsCoherent s
        → AreClear read_object Clear accesses
        → Asked s ok_run (AreSerial accesses.tx_reads)
        → (c k : Bytes) → Clear c k
        → lookup (construct_key c k) after.tables.write_table ≡ none
        → (sv : Sv) → lookup (construct_key c k) after.tables.read_table ≡ some sv
        → get_pre_key read_object after.pre_snapshots c k ≡ ok sv.value
    unfolding apply_optimize build_kv_maps lookup
    after_cached coherent clear asked c k at absent sv found =
        let j = construct_key c k in
        let unwritten : lookup j s.tables.write_table ≡ none =
          elim (Option-cases (lookup j s.tables.write_table)) [
            | inl none_there ↦ none_there
            | inr (w, there) ↦ elim (Option-cases (lookup j (write_kvs accesses.tx_writes []))) [
              | inl no_new ↦ absurd (ground (arith, absent, after_entry j, there, no_new))
              | inr (v, new) ↦ absurd (ground (arith, absent, after_entry j, there, new))
            ]
          ] in
        let old = coherent.cached c k at unwritten sv in
        elim (Bool-cases (keeps_reads ok_run s)) [
          | inr drops ↦ old (ground (arith, drops))
          | inl keeps ↦
              let serial = asked (kept_reads keeps) in
              let entry =
                lookup-put_all j (get_snapshot_size s) (read_kvs accesses.tx_reads [])
                  s.tables.read_table (read_kvs-Distinct accesses.tx_reads [] tt) in
              elim (Option-cases (lookup j (read_kvs accesses.tx_reads []))) [
                | inl unread ↦ old (ground (arith, keeps, entry, unread))
                | inr (v, new) ↦
                    let value : v ≡ sv.value = ground (arith, keeps, entry, new) in
                    rw (← value) (
                      read_kvs_values (λ x. get_pre_key read_object s.pre_snapshots c k ≡ ok x) j
                        accesses.tx_reads []
                        (reads_of_key coherent c k at unwritten accesses.tx_reads clear.0 serial)
                        (λ x h. cc) v new)
              ]
        ]

    pub apply_optimize-IsCoherent :
        IsCoherent s
        → AreClear read_object Clear accesses
        → Asked s ok_run (AreSerial accesses.tx_reads)
        → IsCoherent after
    unfolding apply_optimize
    apply_optimize-IsCoherent coherent clear serial = record {
      sized = omega (
        arith,
        length-append s.tx_table (context.tx_id ∷ []),
        length-append s.tx_rw_set_table (accesses ∷ []),
        coherent.sized,
      );
      written = after_written coherent clear;
      below = after_below coherent;
      numbered = after_numbered coherent clear;
      cached = after_cached coherent clear serial;
    }
