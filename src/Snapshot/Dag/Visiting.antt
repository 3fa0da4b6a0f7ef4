-- ===== src/Snapshot/Dag/Visiting.antt =====
-- The bitmaps that chainmaker-go-master/module/snapshot/snapshot_impl.go builds for a transaction.
use chainmaker.Prelude.{
  ℕ, zero, suc, ◌≤◌, ◌<◌, ◌≡◌, ◌≢◌, refl, sym, ap, ◌∙◌, ◌⊎◌, inl, inr, true, some, List, arith,
}
use chainmaker.Prelude.Tests.{nat_eq, nat_eq_iff, Bool-cases}
use chainmaker.Prelude.Lists.{length, get_elem?, get_elem?_total}
use chainmaker.Prelude.Result.{ok, ◌>>=◌}
use chainmaker.Snapshot.Dag.{
  Bitmap, Dag, Reach, visit, visit_entry, visit_before, visit_all, Reaches,
}

module _ (bitmap : Bitmap) (reach_map : List bitmap.Bits) (dag : Dag) (i : ℕ) where
  open bitmap use {Bits, empty, set, has, or, has-set, has-or}

  -- The bitmaps of the transactions before this one.
  pub record IsKnown : Type 0 where
    pub sized : length reach_map ≡ i
    pub self : (x : ℕ) (b : Bits) → get_elem? reach_map x ≡ some b → has x b ≡ true
    pub below : (x y : ℕ) (b : Bits) → get_elem? reach_map x ≡ some b → has y b ≡ true → y ≤ x
    pub closed :
        (x y z : ℕ) (b c : Bits)
        → get_elem? reach_map x ≡ some b
        → has y b ≡ true
        → get_elem? reach_map y ≡ some c
        → has z c ≡ true
        → has z b ≡ true
    pub sound :
        (x y : ℕ) (b : Bits)
        → get_elem? reach_map x ≡ some b
        → has y b ≡ true
        → (y ≡ x) ⊎ Reaches dag x y

  -- A direct neighbor leads to the transaction.
  abbrev pub Leads : Bits → ℕ → Type 0
  Leads direct y = (w : ℕ) × (has w direct ≡ true) × ((w ≡ y) ⊎ Reaches dag w y)

  pub record IsFitting (r : Reach bitmap) : Type 0 where
    pub self : has i r.all_reach ≡ true
    pub below : (y : ℕ) → has y r.all_reach ≡ true → y ≤ i
    pub closed :
        (y z : ℕ) (c : Bits)
        → has y r.all_reach ≡ true
        → get_elem? reach_map y ≡ some c
        → has z c ≡ true
        → has z r.all_reach ≡ true
    pub sound : (y : ℕ) → has y r.all_reach ≡ true → (y ≡ i) ⊎ Leads r.direct_reach y
    pub direct : (w : ℕ) → has w r.direct_reach ≡ true → w < i

  -- What is reached stays reached.
  pub record Grown (r r' : Reach bitmap) : Type 0 where
    pub kept : (y : ℕ) → has y r.all_reach ≡ true → has y r'.all_reach ≡ true
    pub fits : IsFitting r'

  pub Grown-refl : (r : Reach bitmap) → IsFitting r → Grown r r
  Grown-refl r fits = record { kept = λ y h. h; fits = fits }

  pub Grown-trans : (r s t : Reach bitmap) → Grown r s → Grown s t → Grown r t
  Grown-trans r s t g h = record { kept = λ y e. h.kept y (g.kept y e); fits = h.fits }

  module _ (known : IsKnown) where
    joined : ℕ → Bits → Reach bitmap → Reach bitmap
    joined j c r = record { all_reach = or r.all_reach c; direct_reach = set j r.direct_reach }

    -- What the union reaches is reached before or from the transaction that is visited.
    union : (y : ℕ) (a c : Bits) → has y (or a c) ≡ true → (has y a ≡ true) ⊎ (has y c ≡ true)
    union y a c h = elim (Bool-cases (has y a)) [
      | inl left ↦ inl left
      | inr right ↦ inr (ground (arith, has-or y a c))
    ]

    in_left : (y : ℕ) (a c : Bits) → has y a ≡ true → has y (or a c) ≡ true
    in_left y a c h = ground (arith, has-or y a c)

    in_right : (y : ℕ) (a c : Bits) → has y c ≡ true → has y (or a c) ≡ true
    in_right y a c h = elim (Bool-cases (has y a)) [
      | inl left ↦ in_left y a c left
      | inr right ↦ ground (arith, has-or y a c)
    ]

    Leads-set : (j y : ℕ) (d : Bits) → Leads d y → Leads (set j d) y
    Leads-set j y d (w, at, rest) = (
      w,
      elim (Bool-cases (nat_eq j w)) [
        | inl e ↦ ground (arith, has-set w j d)
        | inr n ↦ ground (arith, has-set w j d)
      ],
      rest,
    )

    joined-IsFitting :
        (j : ℕ) (c : Bits) (r : Reach bitmap)
        → j < i
        → get_elem? reach_map j ≡ some c
        → IsFitting r
        → IsFitting (joined j c r)
    unfolding joined
    joined-IsFitting j c r lt at fits = record {
      self = in_left i r.all_reach c fits.self;
      below = λ y h. elim (union y r.all_reach c h) [
        | inl old ↦ fits.below y old
        | inr new ↦ omega (arith, known.below j y c at new)
      ];
      closed = λ y z b h found there. elim (union y r.all_reach c h) [
        | inl old ↦ in_left z r.all_reach c (fits.closed y z b old found there)
        | inr new ↦ in_right z r.all_reach c (known.closed j y z c b at new found there)
      ];
      sound = λ y h. elim (union y r.all_reach c h) [
        | inl old ↦ elim (fits.sound y old) [
          | inl same ↦ inl same
          | inr leads ↦ inr (Leads-set j y r.direct_reach leads)
        ]
        | inr new ↦ inr (
          j,
          ground (arith, has-set j j r.direct_reach),
          elim (known.sound j y c at new) [ inl same ↦ inl (sym same) | inr r ↦ inr r ],
        )
      ];
      direct = λ w h. elim (Bool-cases (nat_eq j w)) [
        | inl same ↦ ground (arith, same)
        | inr other ↦ fits.direct w (ground (arith, h, has-set w j r.direct_reach))
      ];
    }

    -- A visit returns, and reaches the transaction that is visited.
    pub visit_lem :
        (j : ℕ) (r : Reach bitmap)
        → j ≤ i
        → IsFitting r
        → (r' : Reach bitmap) × (visit bitmap reach_map j r ≡ ok r')
          × Grown r r'
          × (has j r'.all_reach ≡ true)
    unfolding visit joined
    visit_lem j r le fits = elim (Bool-cases (has j r.all_reach)) [
      | inl old ↦ (r, ground (arith, old), Grown-refl r fits, old)
      | inr new ↦
          let apart : j ≢ i = λ same. cc (fits.self, new, ap (λ x. has x r.all_reach) same) in
          let lt : j < i = omega (arith, apart) in
          let (c, at) = get_elem?_total reach_map j (omega (arith, known.sized)) in
          (
            joined j c r,
            ground (arith, new, at),
            record {
              kept = λ y h. in_left y r.all_reach c h;
              fits = joined-IsFitting j c r lt at fits;
            },
            in_right j r.all_reach c (known.self j c at),
          )
    ]

    pub visit_before_lem :
        (txs : List ℕ) (p : ℕ) (r : Reach bitmap)
        → p ≤ length txs
        → ((n x : ℕ) → get_elem? txs n ≡ some x → n < p → x ≤ i)
        → IsFitting r
        → (r' : Reach bitmap) × (visit_before bitmap reach_map txs p r ≡ ok r')
          × Grown r r'
          × ((n x : ℕ) → p ≡ suc n → get_elem? txs n ≡ some x → has x r'.all_reach ≡ true)
    unfolding visit_before
    visit_before_lem txs zero r le small fits =
        (r, refl, Grown-refl r fits, λ n x e. absurd (omega arith))
    visit_before_lem txs (suc j) r le small fits =
        let (x, at) = get_elem?_total txs j le in
        let (r', ran, grown, reached) = visit_lem x r (small j x at (omega arith)) fits in
        (
          r',
          ap (λ o. visit_entry bitmap reach_map o r) at ∙ ran,
          grown,
          λ n y e there.
              let here : j ≡ n = omega (arith, e) in
              let same : x ≡ y = cc (at, there, ap (get_elem? txs) here) in
              ap (λ v. has v r'.all_reach) (sym same) ∙ reached,
        )

    pub visit_all_lem :
        (txs : List ℕ) (p : ℕ) (r : Reach bitmap)
        → p ≤ length txs
        → ((n x : ℕ) → get_elem? txs n ≡ some x → n < p → x ≤ i)
        → IsFitting r
        → (r' : Reach bitmap) × (visit_all bitmap reach_map txs p r ≡ ok r')
          × Grown r r'
          × ((n x : ℕ) → n < p → get_elem? txs n ≡ some x → has x r'.all_reach ≡ true)
    unfolding visit_all
    visit_all_lem txs zero r le small fits =
        (r, refl, Grown-refl r fits, λ n x e. absurd (omega arith))
    visit_all_lem txs (suc j) r le small fits =
        let (x, at) = get_elem?_total txs j le in
        let (mid, ran, grown, reached) = visit_lem x r (small j x at (omega arith)) fits in
        let (r', rest, grown', earlier) =
          visit_all_lem txs j mid (omega arith) (λ n y found lt. small n y found (omega arith))
            grown.fits in
        (
          r',
          ap (λ o. visit_entry bitmap reach_map o r >>= visit_all bitmap reach_map txs j) at
              ∙ ap (λ m. m >>= visit_all bitmap reach_map txs j) ran
              ∙ rest,
          Grown-trans r mid r' grown grown',
          λ n y lt there. elim (Bool-cases (nat_eq n j)) [
            | inl last ↦
                let here : j ≡ n = sym ((nat_eq_iff n j).0 last) in
                let same : x ≡ y = cc (at, there, ap (get_elem? txs) here) in
                grown'.kept y (ap (λ v. has v mid.all_reach) (sym same) ∙ reached)
            | inr before ↦ earlier n y (ground arith) there
          ],
        )
