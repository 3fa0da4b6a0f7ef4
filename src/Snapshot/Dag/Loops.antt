-- ===== src/Snapshot/Dag/Loops.antt =====
-- The loops of `buildReachMap` of chainmaker-go-master/module/snapshot/snapshot_impl.go.
use chainmaker.Prelude.{ℕ, ◌<◌, ◌≡◌, refl, sym, ap, ◌∙◌, inl, inr, true, ◌||◌, List, [], ◌∷◌, arith}
use mathlib.Core.Path.{subst}
use chainmaker.Prelude.Tests.{nat_eq_iff, Bool-cases}
use chainmaker.Prelude.Lists.{length, get_elem?, get_elem?-lt, get_elem?-append_left}
use chainmaker.Prelude.Eq.{Bytes, bytes_instance, bytes_eq, bytes_eq_iff, ◌==◌}
use chainmaker.Prelude.Result.{ok, ◌>>=◌}
use chainmaker.Snapshot.{TxRead, TxWrite, TxRwSet}
use chainmaker.Snapshot.Dag.{
  Bitmap, Dicts, Positions, entries, add_tx, Dag, Reach, visit_writer, reach_reads, reach_writes,
  build_reach_map,
}
use chainmaker.Snapshot.Dag.Entries.{
  reads_key, writes_key, WritesOnce, Counted, read_marks, add_tx-reads,
}
use chainmaker.Snapshot.Dag.Places.{Within, add_tx-Counted, add_tx-Within}
use chainmaker.Snapshot.Dag.Visiting.{IsKnown, IsFitting, Grown, Grown-refl, Grown-trans}
use chainmaker.Snapshot.Dag.Covering.{AreListed, Covers, visit_writer_lem, visit_readers_lem}

module _ (bitmap : Bitmap) (reach_map : List bitmap.Bits) (dag : Dag) (i : ℕ)
    (known : IsKnown bitmap reach_map dag i) (all before after : Dicts)
    (listed : AreListed bitmap reach_map dag i known all before after) where
  open bitmap use {Bits, empty, set, has, has-empty, has-set}

  abbrev Covered : List ℕ → Reach bitmap → Type 0
  Covered = Covers bitmap reach_map dag i known all before

  abbrev More : Reach bitmap → Reach bitmap → Type 0
  More = Grown bitmap reach_map dag i

  More-trans : (r s t : Reach bitmap) → More r s → More s t → More r t
  More-trans r s t = Grown-trans bitmap reach_map dag i r s t

  kept-Covers : (txs : List ℕ) (r r' : Reach bitmap) → More r r' → Covered txs r → Covered txs r'
  kept-Covers txs r r' grown covers n x at = grown.kept x (covers n x at)

  abbrev writers : Bytes → List ℕ
  writers k = entries k before.write_key_dict

  abbrev readers : Bytes → List ℕ
  readers k = entries k before.read_key_dict

  for_key :
      (es : Bytes → List ℕ) (j k : Bytes) (r : Reach bitmap)
      → bytes_eq j k ≡ true
      → Covered (es j) r
      → Covered (es k) r
  for_key es j k r same covers n x at =
      covers n x (ap (λ q. get_elem? (es q) n) ((bytes_eq_iff j k).0 same) ∙ at)

  reach_reads_lem :
      (rs : List TxRead) (p : Positions) (r : Reach bitmap)
      → ((k : Bytes) → reads_key k rs ≡ true → Counted k before.write_key_dict p.write_pos)
      → IsFitting bitmap reach_map dag i r
      → (r' : Reach bitmap) × (reach_reads bitmap reach_map rs all p r ≡ ok r')
        × More r r'
        × ((k : Bytes) → reads_key k rs ≡ true → Covered (writers k) r')
  unfolding reach_reads
  reach_reads_lem [] p r counted fits =
      (r, refl, Grown-refl bitmap reach_map dag i r fits, λ k h. cc)
  reach_reads_lem (x ∷ more) p r counted fits =
      let (mid, ran, grown, here) =
        visit_writer_lem bitmap reach_map dag i known all before after listed x.key p r
          (counted x.key (ground (arith, bytes_eq_iff x.key x.key))) fits in
      let (r', rest, grown', later) =
        reach_reads_lem more p mid (λ k h. counted k (ground (arith, h))) grown.fits in
      (
        r',
        ap (λ m. m >>= reach_reads bitmap reach_map more all p) ran ∙ rest,
        More-trans r mid r' grown grown',
        λ k h. elim (Bool-cases (x.key == k)) [
          | inl same ↦ kept-Covers (writers k) mid r' grown' (for_key writers x.key k mid same here)
          | inr other ↦ later k (ground (arith, h, other))
        ],
      )

  reach_writes_lem :
      (ws : List TxWrite) (p : Positions) (r : Reach bitmap)
      → ((k : Bytes)
          → writes_key k ws ≡ true
          → Counted k before.write_key_dict p.write_pos
            × Within k before.read_key_dict after.read_key_dict p.read_pos)
      → ((k : Bytes) (n : ℕ)
          → n < length (readers k)
          → get_elem? (entries k after.read_key_dict) n ≡ get_elem? (readers k) n)
      → IsFitting bitmap reach_map dag i r
      → (r' : Reach bitmap) × (reach_writes bitmap reach_map ws all p r ≡ ok r')
        × More r r'
        × ((k : Bytes) → writes_key k ws ≡ true → Covered (writers k) r' × Covered (readers k) r')
  unfolding reach_writes
  reach_writes_lem [] p r placed old fits =
      (r, refl, Grown-refl bitmap reach_map dag i r fits, λ k h. cc)
  reach_writes_lem (x ∷ more) p r placed old fits =
      let (counted, within) = placed x.key (ground (arith, bytes_eq_iff x.key x.key)) in
      let (read, ran, grown, read_by) =
        visit_readers_lem bitmap reach_map dag i known all before after listed x.key p r within
          (old x.key) fits in
      let (mid, ran', grown', written_by) =
        visit_writer_lem bitmap reach_map dag i known all before after listed x.key p read counted
          grown.fits in
      let (r', rest, grown'', later) =
        reach_writes_lem more p mid (λ k h. placed k (ground (arith, h))) old grown'.fits in
      (
        r',
        ap
              (λ m. m >>= λ read.
                visit_writer bitmap reach_map x.key all p read
                >>= reach_writes bitmap reach_map more all p)
              ran
            ∙ ap (λ m. m >>= reach_writes bitmap reach_map more all p) ran'
            ∙ rest,
        More-trans r read r' grown (More-trans read mid r' grown' grown''),
        λ k h. elim (Bool-cases (x.key == k)) [
          | inl same ↦ (
            kept-Covers (writers k) mid r' grown'' (for_key writers x.key k mid same written_by),
            kept-Covers (readers k) read r' (More-trans read mid r' grown' grown'')
                (for_key readers x.key k read same read_by),
          )
          | inr other ↦ later k (ground (arith, h, other))
        ],
      )

  first-IsFitting :
      IsFitting bitmap reach_map dag i (record { all_reach = set i empty; direct_reach = empty })
  first-IsFitting =
      let only : (y : ℕ) → has y (set i empty) ≡ true → y ≡ i =
        λ y h. sym ((nat_eq_iff i y).0 (ground (arith, h, has-set y i empty, has-empty y))) in
      record {
        self = ground (arith, has-set i i empty);
        below = λ y h. omega (arith, only y h);
        closed = λ y z c h found there.
            absurd (omega (arith, only y h, get_elem?-lt reach_map y found, known.sized));
        sound = λ y h. inl (only y h);
        direct = λ w h. cc (h, has-empty w);
      }

  -- The bitmaps of a transaction that writes no key twice are built, and reach every transaction
  -- before it that is in conflict with it.
  pub build_reach_map_lem :
      (rws : TxRwSet)
      → after ≡ (add_tx i rws before).0
      → WritesOnce rws.tx_writes
      → (r : Reach bitmap) × (build_reach_map bitmap i rws all (add_tx i rws before).1 reach_map
          ≡ ok r)
        × IsFitting bitmap reach_map dag i r
        × ((k : Bytes) → reads_key k rws.tx_reads ≡ true → Covered (writers k) r)
        × ((k : Bytes)
            → writes_key k rws.tx_writes ≡ true
            → Covered (writers k) r × Covered (readers k) r)
  unfolding build_reach_map
  build_reach_map_lem rws is once =
      let p = (add_tx i rws before).1 in
      let place = λ (k : Bytes) (h : reads_key k rws.tx_reads || writes_key k rws.tx_writes ≡ true).
        add_tx-Counted k i rws before once h in
      let old : (k : Bytes) (n : ℕ)
          → n < length (readers k)
          → get_elem? (entries k after.read_key_dict) n ≡ get_elem? (readers k) n =
        λ k n lt.
          ap (λ (a : Dicts). get_elem? (entries k a.read_key_dict) n) is
          ∙ ap (λ es. get_elem? es n) (add_tx-reads k i rws before)
          ∙ get_elem?-append_left (readers k) (read_marks k i rws.tx_reads) n lt in
      let within : (k : Bytes)
          → writes_key k rws.tx_writes ≡ true
          → Within k before.read_key_dict after.read_key_dict p.read_pos =
        λ k h.
          subst (λ (a : Dicts). Within k before.read_key_dict a.read_key_dict p.read_pos) (sym is)
            (add_tx-Within k i rws before h) in
      let (read, ran, grown, reads) =
        reach_reads_lem rws.tx_reads p (record { all_reach = set i empty; direct_reach = empty })
          (λ k h. place k (ground (arith, h))) first-IsFitting in
      let (r, rest, grown', writes) =
        reach_writes_lem rws.tx_writes p read (λ k h. (place k (ground (arith, h)), within k h)) old
          grown.fits in
      (
        r,
        ap (λ m. m >>= reach_writes bitmap reach_map rws.tx_writes all p) ran ∙ rest,
        grown'.fits,
        λ k h. kept-Covers (writers k) read r grown' (reads k h),
        writes,
      )
