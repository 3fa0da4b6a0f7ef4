-- ===== src/Core/Keyed.antt =====
-- The operations on the cache of chainmaker-go-master/module/core/cache/proposal_cache.go, in any
-- order, and what they keep.
pub mod Found
use chainmaker.Prelude.{
  ℕ, Bool, true, false, not, ◌&&◌, Option, none, some, List, [], ◌∷◌, ◌≡◌, refl, sym, ap, inl, inr,
  arith,
}
use mathlib.Core.Path.{subst}
use chainmaker.Prelude.Tests.{leb, nat_eq, if◌then◌else◌, Bool-cases, Option-cases}
use chainmaker.Prelude.Lists.{All}
use chainmaker.Prelude.Eq.{Bytes, Equality, bytes_instance, nat_instance, ◌==◌}
use chainmaker.Prelude.Map.{
  Map, lookup, insert, delete, discard, Distinct, lookup-insert, lookup-discard, insert-Distinct,
  discard-Distinct,
}
use chainmaker.Core.{
  Block, LedgerCache, BlockProposal, Proposals, ProposalCache, new_proposal_cache,
  clear_proposed_block_at, proposals_of, proposals_at, change_at, mark_self, set_proposed_at,
  reset_proposed_at, discard_blocks, current_height, proposal, put_proposal, put_above,
  set_proposed_block, clear_the_block, keep_hash, keep_proposed_block,
}

module _ (calc_block_finger_print : Block → Bytes) where
  pub data Step : ProposalCache → ProposalCache → Type 0 where
    set :
        (b : Option Block) (rw_sets events : Bytes) (self : Bool) (lc : LedgerCache)
        (pc : ProposalCache)
        → Step pc ((set_proposed_block calc_block_finger_print b rw_sets events self lc pc).0)
    clear_at : (height : ℕ) (pc : ProposalCache) → Step pc (clear_proposed_block_at height pc)
    clear :
        (b : Block) (pc : ProposalCache) → Step pc (clear_the_block calc_block_finger_print b pc)
    set_mark : (height : ℕ) (pc : ProposalCache) → Step pc (set_proposed_at height pc)
    reset_mark : (height : ℕ) (pc : ProposalCache) → Step pc (reset_proposed_at height pc)
    keep :
        (hash : Bytes) (height : ℕ) (pc : ProposalCache)
        → Step pc ((keep_proposed_block calc_block_finger_print hash height pc).0)
    drop : (height : ℕ) (pc : ProposalCache) → Step pc ((discard_blocks height pc).0)

  pub data Reached : ProposalCache → Type 0 where
    fresh : Reached new_proposal_cache
    next : {before after : ProposalCache} → Reached before → Step before after → Reached after

  -- The proposal stands under its height and under the fingerprint of its block.
  abbrev pub Fits : ℕ → Bytes × BlockProposal → Type 0
  Fits height (key, p) = (p.block.block_height ≡ height) × (calc_block_finger_print p.block ≡ key)

  abbrev pub Good : ℕ → Proposals → Type 0
  Good height proposals = All (Fits height) proposals × Distinct proposals

  abbrev pub IsKeyed : Map ℕ Proposals → Type 0
  IsKeyed [] = Unit
  IsKeyed ((height, proposals) ∷ more) = Good height proposals × IsKeyed more

  pub lookup-Good :
      (height : ℕ) (m : Map ℕ Proposals) → IsKeyed m → Good height (proposals_of (lookup height m))
  unfolding lookup
  lookup-Good height [] k = (tt, tt)
  lookup-Good height ((at, proposals) ∷ more) k = elim (Bool-cases (nat_eq at height)) [
    | inl same ↦ let e : at ≡ height = ground arith in rw same (subst (λ h. Good h proposals) e k.0)
    | inr other ↦ rw other (lookup-Good height more k.1)
  ]

  insert-IsKeyed :
      (height : ℕ) (proposals : Proposals) (m : Map ℕ Proposals)
      → Good height proposals
      → IsKeyed m
      → IsKeyed (insert height proposals m)
  unfolding insert
  insert-IsKeyed height proposals [] g k = (g, tt)
  insert-IsKeyed height proposals ((at, old) ∷ more) g k =
      ground (arith, insert-IsKeyed height proposals more g k.1)

  discard-IsKeyed : (p : ℕ → Bool) (m : Map ℕ Proposals) → IsKeyed m → IsKeyed (discard p m)
  unfolding discard
  discard-IsKeyed p [] k = tt
  discard-IsKeyed p ((at, old) ∷ more) k = ground (arith, discard-IsKeyed p more k.1)

  discard-All :
      (height : ℕ) (p : Bytes → Bool) (proposals : Proposals)
      → All (Fits height) proposals
      → All (Fits height) (discard p proposals)
  unfolding discard
  discard-All height p [] all = tt
  discard-All height p ((key, q) ∷ more) all = ground (arith, discard-All height p more all.1)

  discard-Good :
      (height : ℕ) (p : Bytes → Bool) (proposals : Proposals)
      → Good height proposals
      → Good height (discard p proposals)
  discard-Good height p proposals (all, d) =
      (discard-All height p proposals all, discard-Distinct p proposals d)

  insert-All :
      (height : ℕ) (p : BlockProposal) (proposals : Proposals)
      → p.block.block_height ≡ height
      → All (Fits height) proposals
      → All (Fits height) (insert (calc_block_finger_print p.block) p proposals)
  unfolding insert
  insert-All height p [] e all = ((e, refl), tt)
  insert-All height p ((key, q) ∷ more) e all = ground (arith, insert-All height p more e all.1)

  insert-Good :
      (height : ℕ) (p : BlockProposal) (proposals : Proposals)
      → p.block.block_height ≡ height
      → Good height proposals
      → Good height (insert (calc_block_finger_print p.block) p proposals)
  insert-Good height p proposals e (all, d) = (
    insert-All height p proposals e all,
    insert-Distinct (calc_block_finger_print p.block) p proposals d,
  )

  lookup-mark_self :
      (mark : Bool) (key : Bytes) (proposals : Proposals)
      → lookup key proposals ≡ none
      → lookup key (mark_self mark proposals) ≡ none
  unfolding lookup mark_self
  lookup-mark_self mark key [] h = refl
  lookup-mark_self mark key ((at, p) ∷ more) h = ground (arith, lookup-mark_self mark key more)

  mark_self-Good :
      (mark : Bool) (height : ℕ) (proposals : Proposals)
      → Good height proposals
      → Good height (mark_self mark proposals)
  unfolding mark_self
  mark_self-Good mark height [] g = g
  mark_self-Good mark height ((key, p) ∷ more) ((f, all), (none_there, d)) =
      ground
        (arith, mark_self-Good mark height more (all, d), lookup-mark_self mark key more none_there)

  keep_hash-Good :
      (height : ℕ) (hash : Bytes) (entries now : Proposals)
      → Good height now
      → Good height (keep_hash calc_block_finger_print hash entries now)
  unfolding keep_hash delete
  keep_hash-Good height hash [] now g = g
  keep_hash-Good height hash ((key, p) ∷ more) now g =
      elim (Bool-cases (hash == p.block.block_hash)) [
        | inl same ↦ rw same (keep_hash-Good height hash more now g)
        | inr other ↦ rw other (
            keep_hash-Good height hash more _
              (discard-Good height (λ j. j == calc_block_finger_print p.block) now g))
      ]

  change_at-IsKeyed :
      (change : Proposals → Proposals) (height : ℕ) (pc : ProposalCache)
      → ((proposals : Proposals) → Good height proposals → Good height (change proposals))
      → IsKeyed pc.last_proposed_block
      → IsKeyed (
          ProposalCache.last_proposed_block
            (change_at change height (lookup height pc.last_proposed_block) pc))
  change_at-IsKeyed change height pc keeps k =
      elim (Option-cases (lookup height pc.last_proposed_block)) [
        | inl empty ↦ rw empty k
        | inr (proposals, there) ↦ rw there (
            insert-IsKeyed height (change proposals) pc.last_proposed_block
              (keeps proposals (
                subst (λ o. Good height (proposals_of o)) there
                  (lookup-Good height pc.last_proposed_block k)))
              k)
      ]

  put_above-IsKeyed :
      (o : Option ℕ) (bs : BlockProposal) (pc : ProposalCache)
      → IsKeyed pc.last_proposed_block
      → IsKeyed (ProposalCache.last_proposed_block ((put_above calc_block_finger_print o bs pc).0))
  unfolding put_proposal
  put_above-IsKeyed none bs pc k = k
  put_above-IsKeyed (some current) bs pc k =
      let put =
        insert-IsKeyed bs.block.block_height _ pc.last_proposed_block
          (insert-Good bs.block.block_height bs _ refl
            (lookup-Good bs.block.block_height pc.last_proposed_block k))
          k in
      elim (Bool-cases
        (leb bs.block.block_height current && not (nat_eq bs.block.block_height 0))) [
          | inl refused ↦ rw refused k
          | inr taken ↦ rw taken put
        ]

  Step-IsKeyed :
      {before after : ProposalCache}
      → Step before after
      → IsKeyed before.last_proposed_block
      → IsKeyed after.last_proposed_block
  unfolding set_proposed_block clear_proposed_block_at clear_the_block set_proposed_at
      reset_proposed_at keep_proposed_block discard_blocks delete
  Step-IsKeyed (set none rw_sets events self lc pc) k = k
  Step-IsKeyed (set (some b) rw_sets events self lc pc) k =
      put_above-IsKeyed (current_height lc) (proposal b rw_sets events self) pc k
  Step-IsKeyed (clear_at height pc) k = discard-IsKeyed _ _ k
  Step-IsKeyed (clear b pc) k =
      change_at-IsKeyed _ b.block_height pc (discard-Good b.block_height _) k
  Step-IsKeyed (set_mark height pc) k = change_at-IsKeyed _ height pc (mark_self-Good true height) k
  Step-IsKeyed (reset_mark height pc) k =
      change_at-IsKeyed _ height pc (mark_self-Good false height) k
  Step-IsKeyed (keep hash height pc) k =
      change_at-IsKeyed _ height pc
        (λ proposals g. keep_hash-Good height hash proposals proposals g) k
  Step-IsKeyed (drop height pc) k = discard-IsKeyed _ _ k

  -- Whatever operations change the cache in whatever order, each proposal stands under the height
  -- and the fingerprint of its block, and no fingerprint stands twice at a height.
  pub Reached-IsKeyed : {pc : ProposalCache} → Reached pc → IsKeyed pc.last_proposed_block
  unfolding new_proposal_cache
  Reached-IsKeyed fresh = tt
  Reached-IsKeyed (next run step) = Step-IsKeyed step (Reached-IsKeyed run)
