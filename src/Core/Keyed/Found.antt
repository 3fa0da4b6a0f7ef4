-- ===== src/Core/Keyed/Found.antt =====
-- What the lookups of chainmaker-go-master/module/core/cache/proposal_cache.go find after an operation.
use chainmaker.Prelude.{
  ℕ, suc, ◌≤◌, Bool, true, false, not, ◌&&◌, ◌||◌, Option, none, some, [], ◌∷◌, ◌≡◌, ◌↔◌, refl, ap,
  ◌∙◌, inl, inr, arith,
}
use mathlib.Core.Path.{subst}
use chainmaker.Prelude.Tests.{leb, ltb, nat_eq, if◌then◌else◌, Bool-cases, Option-cases}
use chainmaker.Prelude.Eq.{Bytes, bytes_instance, nat_instance, ◌==◌}
use chainmaker.Prelude.Map.{
  lookup, insert, delete, Distinct, lookup-insert, lookup-insert_self, lookup-delete,
}
use chainmaker.Core.{
  Block, LedgerCache, BlockProposal, Proposals, ProposalCache, proposals_of, proposals_at,
  change_at, mark_self, reset_proposed_at, any_proposed, is_proposed_at, current_height, proposal,
  put_proposal, put_above, accepted, get_proposed_block, set_proposed_block, keep_hash,
  keep_proposed_block,
}
use chainmaker.Core.Keyed.{Reached, Good, lookup-Good, Reached-IsKeyed}

abbrev pub allowed : Option ℕ → ℕ → Bool
allowed none height = false
allowed (some current) height = ltb current height || nat_eq height 0

proposals_at-change_at :
    (change : Proposals → Proposals) (height h : ℕ) (pc : ProposalCache)
    → change [] ≡ []
    → proposals_at h (change_at change height (lookup height pc.last_proposed_block) pc)
      ≡ (if nat_eq height h then change (proposals_at height pc) else proposals_at h pc)
proposals_at-change_at change height h pc none_left =
    elim (Option-cases (lookup height pc.last_proposed_block)) [
      | inl empty ↦ elim (Bool-cases (nat_eq height h)) [
        | inl same ↦
            let e : height ≡ h = ground arith in
            rw (empty, same, none_left)
              (subst (λ x. proposals_of (lookup x pc.last_proposed_block) ≡ []) e (rw empty refl))
        | inr other ↦ rw (empty, other) refl
      ]
      | inr (proposals, there) ↦
          rw (there, lookup-insert height h (change proposals) pc.last_proposed_block)
            (elim (Bool-cases (nat_eq height h)) [
              | inl same ↦ rw same refl
              | inr other ↦ rw other refl
            ])
    ]

module _ (calc_block_finger_print : Block → Bytes) where
  abbrev pub same_place : Block → Block → Bool
  same_place b b' =
      nat_eq b.block_height b'.block_height
      && calc_block_finger_print b == calc_block_finger_print b'

  get-put :
      (bs : BlockProposal) (pc : ProposalCache) (b' : Block)
      → get_proposed_block calc_block_finger_print
          (some b')
          (put_proposal calc_block_finger_print bs pc)
        ≡ (if same_place bs.block b'
            then some bs
            else get_proposed_block calc_block_finger_print (some b') pc)
  unfolding get_proposed_block put_proposal
  get-put bs pc b' =
      let at = bs.block.block_height in
      let proposals = insert (calc_block_finger_print bs.block) bs (proposals_at at pc) in
      rw (lookup-insert at b'.block_height proposals pc.last_proposed_block)
        (elim (Bool-cases (nat_eq at b'.block_height)) [
          | inl same ↦
              let fp = calc_block_finger_print bs.block in
              let fp' = calc_block_finger_print b' in
              let e : at ≡ b'.block_height = ground arith in
              rw (same, lookup-insert fp fp' bs (proposals_at at pc))
                (ap (λ h. if fp == fp' then some bs else lookup fp' (proposals_at h pc)) e)
          | inr other ↦ rw other refl
        ])

  get-put_above :
      (o : Option ℕ) (bs : BlockProposal) (pc : ProposalCache)
      → let (after, e) = put_above calc_block_finger_print o bs pc in
        ((e ≡ accepted) ↔ (allowed o bs.block.block_height ≡ true))
        × ((b' : Block)
            → get_proposed_block calc_block_finger_print (some b') after ≡ (
                if allowed o bs.block.block_height && same_place bs.block b'
                then some bs
                else get_proposed_block calc_block_finger_print (some b') pc))
  get-put_above none bs pc = ((λ e. cc, λ e. cc), λ b'. refl)
  get-put_above (some current) bs pc =
      let height = bs.block.block_height in
      let refuses = leb height current && not (nat_eq height 0) in
      let either : allowed (some current) height ≡ not refuses = ground arith in
      elim (Bool-cases refuses) [
        | inl refused ↦ rw (either, refused) ((λ e. cc, λ e. cc), λ b'. refl)
        | inr taken ↦ rw (either, taken) ((λ e. refl, λ e. refl), λ b'. get-put bs pc b')
      ]

  -- SetProposedBlock of a block accepts it exactly when the ledger has a block and that block is
  -- lower or the new one has height 0; GetProposedBlock then gives the new proposal for every
  -- block of the same height and fingerprint, and for every other block, and after a refusal for
  -- all, what it gave before.
  pub get-set_proposed_block :
      (b : Block) (rw_set_map events : Bytes) (self : Bool) (lc : LedgerCache) (pc : ProposalCache)
      → let (after, e) =
          set_proposed_block calc_block_finger_print (some b) rw_set_map events self lc pc in
        let taken = allowed (current_height lc) b.block_height in
        ((e ≡ accepted) ↔ (taken ≡ true))
        × ((b' : Block)
            → get_proposed_block calc_block_finger_print (some b') after ≡ (
                if taken && same_place b b'
                then some (proposal b rw_set_map events self)
                else get_proposed_block calc_block_finger_print (some b') pc))
  unfolding set_proposed_block
  get-set_proposed_block b rw_set_map events self lc pc =
      get-put_above (current_height lc) (proposal b rw_set_map events self) pc

  module _ (hash : Bytes) where
    abbrev gone : Bytes → Proposals → Bool
    gone key [] = false
    gone key ((at, p) ∷ more) = (not (hash == p.block.block_hash) && at == key) || gone key more

    -- What is left of an entry: that of another hash is removed.
    abbrev pub only : Option BlockProposal → Option BlockProposal
    only none = none
    only (some p) = if hash == p.block.block_hash then some p else none

    gone-absent :
        (key : Bytes) (proposals : Proposals)
        → lookup key proposals ≡ none
        → gone key proposals ≡ false
    unfolding lookup
    gone-absent key [] h = refl
    gone-absent key ((at, p) ∷ more) h = ground (arith, gone-absent key more)

    gone-only :
        (key : Bytes) (proposals : Proposals)
        → Distinct proposals
        → (if gone key proposals then none else lookup key proposals) ≡ only (lookup key proposals)
    unfolding lookup
    gone-only key [] d = refl
    gone-only key ((at, p) ∷ more) d =
        ground (arith, gone-only key more d.1, gone-absent key more, bytes_instance.agrees at key)

    lookup-keep_hash :
        (height : ℕ) (key : Bytes) (entries now : Proposals)
        → Good calc_block_finger_print height entries
        → lookup key (keep_hash calc_block_finger_print hash entries now)
          ≡ (if gone key entries then none else lookup key now)
    unfolding keep_hash
    lookup-keep_hash height key [] now g = refl
    lookup-keep_hash height key ((at, p) ∷ more) now ((f, all), (none_there, d)) =
        elim (Bool-cases (hash == p.block.block_hash)) [
          | inl same ↦ rw same (lookup-keep_hash height key more now (all, d))
          | inr other ↦ rw other (
              ground (
                arith,
                lookup-keep_hash height key more (delete (calc_block_finger_print p.block) now)
                    (all, d),
                lookup-delete (calc_block_finger_print p.block) key now,
                bytes_instance.agrees key (calc_block_finger_print p.block),
                bytes_instance.agrees at key,
                f.1,
              ))
        ]

    -- On a cache that its operations lead to, KeepProposedBlock leaves at its height exactly the
    -- proposals whose blocks have the hash, under their fingerprints, and every other height as it
    -- was.
    pub keep_proposed_block_lem :
        (height h : ℕ) (key : Bytes) (pc : ProposalCache)
        → Reached calc_block_finger_print pc
        → lookup key
            (proposals_at h ((keep_proposed_block calc_block_finger_print hash height pc).0))
          ≡ (if nat_eq height h
              then only (lookup key (proposals_at h pc))
              else lookup key (proposals_at h pc))
    unfolding keep_proposed_block keep_hash
    keep_proposed_block_lem height h key pc run =
        let change =
          λ (proposals : Proposals). keep_hash calc_block_finger_print hash proposals proposals in
        let good =
          lookup-Good calc_block_finger_print height pc.last_proposed_block
            (Reached-IsKeyed calc_block_finger_print run) in
        rw (proposals_at-change_at change height h pc refl) (elim (Bool-cases (nat_eq height h)) [
          | inl same ↦
              let e : height ≡ h = ground arith in
              rw same (
                subst
                  (λ x.
                    lookup key (change (proposals_at height pc))
                    ≡ only (lookup key (proposals_at x pc)))
                  e
                  (lookup-keep_hash height key (proposals_at height pc) (proposals_at height pc)
                      good
                    ∙ gone-only key (proposals_at height pc) good.1))
          | inr other ↦ rw other refl
        ])

abbrev marked : Proposals → ℕ
marked [] = 0
marked ((key, p) ∷ more) =
    if p.is_self_proposed && p.has_proposed_this_round then suc (marked more) else marked more

any_proposed-marked : (proposals : Proposals) → 1 ≤ marked proposals → any_proposed proposals ≡ true
unfolding any_proposed
any_proposed-marked [] h = ground arith
any_proposed-marked ((key, p) ∷ more) h = ground (arith, any_proposed-marked more)

any_proposed-mark_self :
    (proposals : Proposals) → 2 ≤ marked proposals → any_proposed (mark_self false proposals) ≡ true
unfolding any_proposed mark_self
any_proposed-mark_self [] h = ground arith
any_proposed-mark_self ((key, p) ∷ more) h =
    ground (arith, any_proposed-mark_self more, any_proposed-marked more)

-- When two proposals of a height are the node's own and marked as proposed, IsProposedAt is still
-- true after ResetProposedAt.
pub reset_proposed_at_lem :
    (height : ℕ) (pc : ProposalCache)
    → 2 ≤ marked (proposals_at height pc)
    → is_proposed_at height (reset_proposed_at height pc) ≡ true
unfolding is_proposed_at reset_proposed_at
reset_proposed_at_lem height pc two = elim (Option-cases (lookup height pc.last_proposed_block)) [
  | inl empty ↦ elim (subst (λ o. 2 ≤ marked (proposals_of o)) empty two) [ ]
  | inr (proposals, there) ↦
      rw (there, lookup-insert_self height (mark_self false proposals) pc.last_proposed_block)
        (any_proposed-mark_self proposals (subst (λ o. 2 ≤ marked (proposals_of o)) there two))
]
