-- ===== src/Snapshot/Dag/Covering.antt =====
-- What the bitmap of a transaction covers: `buildReachMap` of
-- chainmaker-go-master/module/snapshot/snapshot_impl.go.
use chainmaker.Prelude.{
  ℕ, zero, suc, ◌+◌, ◌-◌, ◌≤◌, ◌<◌, ◌≡◌, refl, sym, ap, ◌∙◌, inl, inr, true, ◌++◌, some, List, [],
  ◌∷◌, arith,
}
use chainmaker.Prelude.Tests.{Bool-cases}
use chainmaker.Prelude.Lists.{
  length, length-append, get_elem?, get_elem?_total, get_elem?-lt, get_elem?-append_left,
  get_elem?-append_cases,
}
use chainmaker.Prelude.Eq.{Bytes, bytes_instance, ◌==◌}
use chainmaker.Prelude.Result.{ok}
use chainmaker.Snapshot.{TxRead}
use chainmaker.Snapshot.Dag.{
  Bitmap, Dicts, Positions, entries, pos_of, Dag, Reach, visit_before, visit_all, visit_writer,
  visit_readers,
}
use chainmaker.Snapshot.Dag.Entries.{Counted, read_marks}
use chainmaker.Snapshot.Dag.Places.{Within}
use chainmaker.Snapshot.Dag.Visiting.{IsKnown, IsFitting, Grown, visit_before_lem, visit_all_lem}

pub one_only : (i n x : ℕ) → get_elem? (i ∷ []) n ≡ some x → x ≡ i
one_only i zero x h = ground arith
one_only i (suc n) x h = cc

pub read_marks_only :
    (k : Bytes) (i : ℕ) (rs : List TxRead) (n x : ℕ)
    → get_elem? (read_marks k i rs) n ≡ some x
    → x ≡ i
read_marks_only k i [] n x h = cc
read_marks_only k i (r ∷ more) n x h = elim (Bool-cases (r.key == k)) [
  | inl same ↦
      elim (get_elem?-append_cases (i ∷ []) (read_marks k i more) n {a = x}
        (ground (arith, h, same))) [
          | inl here ↦ one_only i n x here
          | inr (m, at, there) ↦ read_marks_only k i more m x there
        ]
  | inr other ↦ read_marks_only k i more n x (ground (arith, h, other))
]

module _ (bitmap : Bitmap) (reach_map : List bitmap.Bits) (dag : Dag) (i : ℕ)
    (known : IsKnown bitmap reach_map dag i) (all : Dicts) (before : Dicts) where
  open bitmap use {Bits, has}

  -- What is known of the lists before the transaction is added, and of those in the end.
  pub record AreListed (after : Dicts) : Type 0 where
    pub writers :
        (k : Bytes)
        → (rest : List ℕ) × (entries k all.write_key_dict ≡ entries k before.write_key_dict ++ rest)
    pub readers :
        (k : Bytes)
        → (rest : List ℕ) × (entries k all.read_key_dict ≡ entries k after.read_key_dict ++ rest)
    pub few_writers : (k : Bytes) → length (entries k all.write_key_dict) < 4294967296
    pub few_readers : (k : Bytes) → length (entries k all.read_key_dict) < 4294967296
    pub writers_below :
        (k : Bytes) (n x : ℕ) → get_elem? (entries k before.write_key_dict) n ≡ some x → x < i
    pub readers_below :
        (k : Bytes) (n x : ℕ) → get_elem? (entries k after.read_key_dict) n ≡ some x → x ≤ i
    pub chain :
        (k : Bytes) (n m x y : ℕ) (b : Bits)
        → n ≤ m
        → get_elem? (entries k before.write_key_dict) n ≡ some x
        → get_elem? (entries k before.write_key_dict) m ≡ some y
        → get_elem? reach_map y ≡ some b
        → has x b ≡ true

  abbrev pub Covers : List ℕ → Reach bitmap → Type 0
  Covers txs r = (n x : ℕ) → get_elem? txs n ≡ some x → has x r.all_reach ≡ true

  before_unless_empty :
      (txs : List ℕ) (p : ℕ) (r : Reach bitmap)
      → p ≤ length txs
      → (elim txs [ [] ↦ ok r | w ∷ more ↦ visit_before bitmap reach_map (w ∷ more) p r ])
        ≡ visit_before bitmap reach_map txs p r
  unfolding visit_before
  before_unless_empty [] zero r le = refl
  before_unless_empty [] (suc p) r le = absurd (omega arith)
  before_unless_empty (w ∷ more) p r le = refl

  all_unless_empty :
      (txs : List ℕ) (p : ℕ) (r : Reach bitmap)
      → p ≤ length txs
      → (elim txs [ [] ↦ ok r | w ∷ more ↦ visit_all bitmap reach_map (w ∷ more) p r ])
        ≡ visit_all bitmap reach_map txs p r
  unfolding visit_all
  all_unless_empty [] zero r le = refl
  all_unless_empty [] (suc p) r le = absurd (omega arith)
  all_unless_empty (w ∷ more) p r le = refl

  module _ (after : Dicts) (listed : AreListed after) where
    -- The last writer of the key before the transaction covers the writers before it.
    last-Covers :
        (k : Bytes) (r : Reach bitmap)
        → IsFitting bitmap reach_map dag i r
        → ((n x : ℕ)
            → length (entries k before.write_key_dict) ≡ suc n
            → get_elem? (entries k before.write_key_dict) n ≡ some x
            → has x r.all_reach ≡ true)
        → Covers (entries k before.write_key_dict) r
    last-Covers k r fits last n x at =
        let es = entries k before.write_key_dict in
        let lt = get_elem?-lt es n at in
        let top = length es - 1 in
        let (y, there) = get_elem?_total es top (omega arith) in
        let (b, found) =
          get_elem?_total reach_map y
            (omega (arith, listed.writers_below k top y there, known.sized)) in
        fits.closed y x b (last top y (omega arith) there) found
          (listed.chain k n top x y b (omega arith) at there found)

    pub visit_writer_lem :
        (k : Bytes) (p : Positions) (r : Reach bitmap)
        → Counted k before.write_key_dict p.write_pos
        → IsFitting bitmap reach_map dag i r
        → (r' : Reach bitmap) × (visit_writer bitmap reach_map k all p r ≡ ok r')
          × Grown bitmap reach_map dag i r r'
          × Covers (entries k before.write_key_dict) r'
    unfolding visit_writer
    visit_writer_lem k p r counted fits =
        let es = entries k before.write_key_dict in
        let txs = entries k all.write_key_dict in
        let (rest, split) = listed.writers k in
        let size : length txs ≡ length es + length rest = ap length split ∙ length-append es rest in
        let pos : pos_of k p.write_pos ≡ length es =
          ground (arith, counted, size, listed.few_writers k) in
        let early : (n : ℕ) → n < length es → get_elem? txs n ≡ get_elem? es n =
          λ n lt. ap (λ l. get_elem? l n) split ∙ get_elem?-append_left es rest n lt in
        let (r', ran, grown, reached) =
          visit_before_lem bitmap reach_map dag i known txs (length es) r (omega arith)
            (λ n x at lt. omega (arith, listed.writers_below k n x (sym (early n lt) ∙ at))) fits in
        (
          r',
          before_unless_empty txs (pos_of k p.write_pos) r (omega arith)
              ∙ ap (λ q. visit_before bitmap reach_map txs q r) pos
              ∙ ran,
          grown,
          last-Covers k r' grown.fits (λ n x e at. reached n x e (early n (omega arith) ∙ at)),
        )

    pub visit_readers_lem :
        (k : Bytes) (p : Positions) (r : Reach bitmap)
        → Within k before.read_key_dict after.read_key_dict p.read_pos
        → ((n : ℕ)
            → n < length (entries k before.read_key_dict)
            → get_elem? (entries k after.read_key_dict) n
              ≡ get_elem? (entries k before.read_key_dict) n)
        → IsFitting bitmap reach_map dag i r
        → (r' : Reach bitmap) × (visit_readers bitmap reach_map k all p r ≡ ok r')
          × Grown bitmap reach_map dag i r r'
          × Covers (entries k before.read_key_dict) r'
    unfolding visit_readers
    visit_readers_lem k p r (q, found, lo, hi) old fits =
        let es = entries k before.read_key_dict in
        let now = entries k after.read_key_dict in
        let txs = entries k all.read_key_dict in
        let (rest, split) = listed.readers k in
        let size : length txs ≡ length now + length rest =
          ap length split ∙ length-append now rest in
        let pos : pos_of k p.read_pos ≡ q = ground (arith, found, size, hi, listed.few_readers k) in
        let early : (n : ℕ) → n < length now → get_elem? txs n ≡ get_elem? now n =
          λ n lt. ap (λ l. get_elem? l n) split ∙ get_elem?-append_left now rest n lt in
        let (r', ran, grown, reached) =
          visit_all_lem bitmap reach_map dag i known txs q r (omega arith)
            (λ n x at lt. listed.readers_below k n x (sym (early n (omega arith)) ∙ at)) fits in
        (
          r',
          all_unless_empty txs (pos_of k p.read_pos) r (omega arith)
              ∙ ap (λ m. visit_all bitmap reach_map txs m r) pos
              ∙ ran,
          grown,
          λ n x at.
              let lt = get_elem?-lt es n at in
              reached n x (omega arith) (early n (omega arith) ∙ old n lt ∙ at),
        )
