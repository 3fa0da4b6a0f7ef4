-- ===== src/Snapshot/Dag/Known.antt =====
-- The bitmaps and the neighbors of the first transactions in `BuildDAG` of
-- chainmaker-go-master/module/snapshot/snapshot_impl.go.
use chainmaker.Prelude.{
  ℕ, zero, suc, ◌<◌, ◌≡◌, refl, sym, ap, ◌∙◌, ◌⊎◌, inl, inr, ◌++◌, some, List, [], ◌∷◌, map, arith,
}
use mathlib.Core.Path.{subst}
use chainmaker.Prelude.Lists.{
  length, length-append, get_elem?, get_elem?-lt, get_elem?-append_left, get_elem?-append_cases,
}
use chainmaker.Snapshot.Dag.{u32, Elem, Bitmap, Dag, Reach, Reaches, edge, via}
use chainmaker.Snapshot.Dag.Visiting.{IsKnown, IsFitting, Leads}

pub get_elem?-append_end {ℓ} :
    {A : Type ℓ} (xs : List A) (a : A) → get_elem? (xs ++ a ∷ []) (length xs) ≡ some a
get_elem?-append_end [] a = refl
get_elem?-append_end (x ∷ xs) a = get_elem?-append_end xs a

pub Reaches-append :
    (dag : Dag) (ns : List ℕ) {x y : ℕ} → Reaches dag x y → Reaches (dag ++ ns ∷ []) x y
Reaches-append dag ns (edge {x} {y} es at there) =
    edge es (get_elem?-append_left dag (ns ∷ []) x (get_elem?-lt dag x at) ∙ at) there
Reaches-append dag ns (via {x} {w} {y} es at there rest) =
    via es (get_elem?-append_left dag (ns ∷ []) x (get_elem?-lt dag x at) ∙ at) there
      (Reaches-append dag ns rest)

-- The last element of a list that is one longer.
pub last_of {ℓ} :
    {A : Type ℓ} (xs : List A) (a : A) (x : ℕ) {b : A}
    → get_elem? (xs ++ a ∷ []) x ≡ some b
    → (get_elem? xs x ≡ some b) ⊎ (x ≡ length xs) × (b ≡ a)
last_of xs a x h = elim (get_elem?-append_cases xs (a ∷ []) x h) [
  | inl old ↦ inl old
  | inr (zero, at, new) ↦ inr (omega arith, ground arith)
  | inr (suc j, at, new) ↦ cc
]

Elem-map : (w : ℕ) (ns : List ℕ) → w < 4294967296 → Elem w ns → Elem w (map u32 ns)
Elem-map w [] lt there = elim there [ ]
Elem-map w (n ∷ ns) lt (inl e) = inl (omega arith)
Elem-map w (n ∷ ns) lt (inr later) = inr (Elem-map w ns lt later)

pub Elem-map_back : (y : ℕ) (ns : List ℕ) → Elem y (map u32 ns) → (w : ℕ) × Elem w ns × (u32 w ≡ y)
Elem-map_back y [] there = elim there [ ]
Elem-map_back y (n ∷ ns) (inl e) = (n, inl refl, e)
Elem-map_back y (n ∷ ns) (inr later) =
    let (w, there, e) = Elem-map_back y ns later in (w, inr there, e)

module _ (bitmap : Bitmap) (reach_map : List bitmap.Bits) (dag : Dag) (i : ℕ)
    (small : i < 4294967296) (known : IsKnown bitmap reach_map dag i) (sized : length dag ≡ i)
    (r : Reach bitmap) (fits : IsFitting bitmap reach_map dag i r) where
  open bitmap use {Bits, has, pos1, elem-pos1}

  abbrev pub neighbors : List ℕ
  neighbors = map u32 (pos1 r.direct_reach)

  abbrev pub longer : Dag
  longer = dag ++ neighbors ∷ []

  abbrev pub more_bits : List Bits
  more_bits = reach_map ++ r.all_reach ∷ []

  -- The neighbors of the transaction stand before it.
  pub neighbors_before : (y : ℕ) → Elem y neighbors → y < i
  neighbors_before y there =
      let (w, at, e) = Elem-map_back y (pos1 r.direct_reach) there in
      let lt = fits.direct w ((elem-pos1 w r.direct_reach).0 at) in omega arith

  at_end : get_elem? longer i ≡ some neighbors
  at_end = ap (get_elem? longer) (sym sized) ∙ get_elem?-append_end dag neighbors

  pub Leads-Reaches : (y : ℕ) → Leads bitmap reach_map dag i r.direct_reach y → Reaches longer i y
  Leads-Reaches y (w, at, rest) =
      let there : Elem w neighbors =
        Elem-map w (pos1 r.direct_reach) (omega (arith, fits.direct w at))
          ((elem-pos1 w r.direct_reach).1 at) in
      elim rest [
        | inl same ↦ edge neighbors at_end (subst (λ v. Elem v neighbors) same there)
        | inr on ↦ via neighbors at_end there (Reaches-append dag neighbors on)
      ]

  pub longer-IsKnown : IsKnown bitmap more_bits longer (suc i)
  longer-IsKnown = record {
    sized = omega (arith, length-append reach_map (r.all_reach ∷ []), known.sized);
    self = λ x b at. elim (last_of reach_map r.all_reach x at) [
      | inl old ↦ known.self x b old
      | inr (e, same) ↦ ap (has x) same ∙ ap (λ v. has v r.all_reach) (e ∙ known.sized) ∙ fits.self
    ];
    below = λ x y b at h. elim (last_of reach_map r.all_reach x at) [
      | inl old ↦ known.below x y b old h
      | inr (e, same) ↦ omega (arith, fits.below y (ap (has y) (sym same) ∙ h), known.sized)
    ];
    closed = λ x y z b c at h found there. elim (last_of reach_map r.all_reach x at) [
      | inl old ↦ elim (last_of reach_map r.all_reach y found) [
        | inl old_y ↦ known.closed x y z b c old h old_y there
        | inr (e, same) ↦
            absurd (omega (arith, known.below x y b old h, get_elem?-lt reach_map x old))
      ]
      | inr (e, same) ↦ elim (last_of reach_map r.all_reach y found) [
        | inl old_y ↦ ap (has z) same ∙ fits.closed y z c (ap (has y) (sym same) ∙ h) old_y there
        | inr (e', same') ↦ ap (has z) (same ∙ sym same') ∙ there
      ]
    ];
    sound = λ x y b at h. elim (last_of reach_map r.all_reach x at) [
      | inl old ↦ elim (known.sound x y b old h) [
        | inl same ↦ inl same
        | inr on ↦ inr (Reaches-append dag neighbors on)
      ]
      | inr (e, same) ↦ elim (fits.sound y (ap (has y) (sym same) ∙ h)) [
        | inl here ↦ inl (omega (arith, known.sized))
        | inr leads ↦
            inr (subst (λ v. Reaches longer v y) (sym (e ∙ known.sized)) (Leads-Reaches y leads))
      ]
    ];
  }
