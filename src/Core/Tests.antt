-- ===== src/Core/Tests.antt =====
-- Tests of the caches of chainmaker-go-master/module/core/cache on concrete blocks.
use chainmaker.Prelude.{true, some, [], ◌∷◌, ◌≡◌, ◌↔◌, refl, arith}
use chainmaker.Prelude.Tests.{if◌then◌else◌}
use chainmaker.Prelude.Eq.{Bytes, bytes_eq, bytes_instance, nat_instance}
use chainmaker.Prelude.Map.{lookup, insert, delete, discard}
use chainmaker.Core.{
  Block, LedgerCache, ProposalCache, new_proposal_cache, proposals_at, proposal, put_proposal,
  accepted, get_proposed_block, set_proposed_block, clear_the_block, has_proposed_block_at,
  get_proposed_blocks_at, blocks_of, reset_proposed_at, is_proposed_at, keep_proposed_block,
  removed, discard_blocks, discarded,
}
use chainmaker.Core.Keyed.{set, Reached, fresh, next, IsKeyed, Reached-IsKeyed}
use chainmaker.Core.Keyed.Found.{
  same_place, get-set_proposed_block, only, keep_proposed_block_lem, reset_proposed_at_lem,
}

-- The fingerprint of these blocks is their content.
abbrev content_of : Block → Bytes
content_of b = b.content

abbrev five : Block
five = record { block_height = 5; block_hash = 50 ∷ []; content = 1 ∷ [] }

abbrev other_five : Block
other_five = record { block_height = 5; block_hash = 51 ∷ []; content = 2 ∷ [] }

abbrev at_four : LedgerCache
at_four = record {
  last_committed_block = some (record { block_height = 4; block_hash = 40 ∷ []; content = [] });
}

-- The node proposes two blocks of one height.
abbrev one_proposed : ProposalCache
one_proposed = (set_proposed_block content_of (some five) [] [] true at_four new_proposal_cache).0

abbrev two_proposed : ProposalCache
two_proposed = (set_proposed_block content_of (some other_five) [] [] true at_four one_proposed).0

two_proposed-Reached : Reached content_of two_proposed
two_proposed-Reached =
    next (next fresh (set (some five) [] [] true at_four new_proposal_cache))
      (set (some other_five) [] [] true at_four one_proposed)

Reached-IsKeyed_example : IsKeyed content_of two_proposed.last_proposed_block
Reached-IsKeyed_example = Reached-IsKeyed content_of two_proposed-Reached

get-set_proposed_block_example :
    let (after, e) =
      set_proposed_block content_of (some five) [] [] true at_four new_proposal_cache in
    ((e ≡ accepted) ↔ (true ≡ true))
    × ((b' : Block)
        → get_proposed_block content_of (some b') after ≡ (
            if same_place content_of five b'
            then some (proposal five [] [] true)
            else get_proposed_block content_of (some b') new_proposal_cache))
get-set_proposed_block_example =
    get-set_proposed_block content_of five [] [] true at_four new_proposal_cache

keep_proposed_block_lem_example :
    lookup (2 ∷ []) (proposals_at 5 ((keep_proposed_block content_of (50 ∷ []) 5 two_proposed).0))
    ≡ only content_of (50 ∷ []) (lookup (2 ∷ []) (proposals_at 5 two_proposed))
keep_proposed_block_lem_example =
    keep_proposed_block_lem content_of (50 ∷ []) 5 5 (2 ∷ []) two_proposed two_proposed-Reached

reset_proposed_at_lem_example : is_proposed_at 5 (reset_proposed_at 5 two_proposed) ≡ true
unfolding set_proposed_block put_proposal new_proposal_cache insert lookup bytes_eq
reset_proposed_at_lem_example = reset_proposed_at_lem 5 two_proposed (omega arith)

-- With the last block of a height cleared, the height still counts as one with a proposal.
one_cleared : get_proposed_blocks_at 5 (clear_the_block content_of five one_proposed) ≡ []
unfolding set_proposed_block put_proposal new_proposal_cache insert lookup bytes_eq
    get_proposed_blocks_at blocks_of clear_the_block delete discard
one_cleared = refl

one_cleared_counts : has_proposed_block_at 5 (clear_the_block content_of five one_proposed) ≡ true
unfolding set_proposed_block put_proposal new_proposal_cache insert lookup bytes_eq
    has_proposed_block_at clear_the_block delete discard
one_cleared_counts = refl

two_kept : (keep_proposed_block content_of (50 ∷ []) 5 two_proposed).1 ≡ other_five ∷ []
unfolding set_proposed_block put_proposal new_proposal_cache insert lookup bytes_eq
    keep_proposed_block removed
two_kept = refl

two_discarded : discard_blocks 4 two_proposed ≡ (new_proposal_cache, five ∷ other_five ∷ [])
unfolding set_proposed_block put_proposal new_proposal_cache insert lookup bytes_eq discard_blocks
    discarded discard blocks_of
two_discarded = refl
