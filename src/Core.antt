-- ===== src/Core.antt =====
-- chainmaker-go-master/module/core/cache: the last committed block and the proposed blocks that a
-- node keeps.
pub mod Keyed
pub mod Tests
use chainmaker.Prelude.{
  ℕ, Bool, true, false, not, ◌&&◌, ◌||◌, Option, none, some, List, [], ◌∷◌, ◌++◌,
}
use chainmaker.Prelude.Tests.{ltb, leb, nat_eq, if◌then◌else◌}
use chainmaker.Prelude.Eq.{Bytes, bytes_instance, nat_instance, ◌==◌}
use chainmaker.Prelude.Map.{Map, lookup, insert, delete, discard}

-- A block with its header; the content is what else stands in it.
pub record Block : Type 0 where
  pub block_height : ℕ
  pub block_hash : Bytes
  pub content : Bytes

pub record LedgerCache : Type 0 where
  pub last_committed_block : Option Block

unfoldable pub set_last_committed_block : Block → LedgerCache → LedgerCache
set_last_committed_block b lc = record lc { last_committed_block = some b }

-- `none` is the error for a ledger without a block.
abbrev pub height_of : Option Block → Option ℕ
height_of none = none
height_of (some b) = some b.block_height

abbrev pub current_height : LedgerCache → Option ℕ
current_height lc = height_of lc.last_committed_block

-- The read-write sets and the events are handed on as they are.
pub record BlockProposal : Type 0 where
  pub block : Block
  pub rw_set_map : Bytes
  pub contract_event_info_map : Bytes
  pub is_self_proposed : Bool
  pub has_proposed_this_round : Bool

abbrev pub proposal : Block → Bytes → Bytes → Bool → BlockProposal
proposal b rw_set_map contract_event_map self_propose = record {
  block = b;
  rw_set_map = rw_set_map;
  contract_event_info_map = contract_event_map;
  is_self_proposed = self_propose;
  has_proposed_this_round = true;
}

abbrev pub Proposals : Type 0
Proposals = Map Bytes BlockProposal

pub record ProposalCache : Type 0 where
  pub last_proposed_block : Map ℕ Proposals

unfoldable pub new_proposal_cache : ProposalCache
new_proposal_cache = record { last_proposed_block = [] }

unfoldable pub clear_proposed_block_at : ℕ → ProposalCache → ProposalCache
clear_proposed_block_at height pc = record pc {
  last_proposed_block = delete height pc.last_proposed_block;
}

-- A height that is not in the map has no proposals.
abbrev pub proposals_of : Option Proposals → Proposals
proposals_of none = []
proposals_of (some proposals) = proposals

abbrev pub proposals_at : ℕ → ProposalCache → Proposals
proposals_at height pc = proposals_of (lookup height pc.last_proposed_block)

-- An operation on the proposals of a height, which does nothing where there are none.
abbrev pub change_at :
    (Proposals → Proposals) → ℕ → Option Proposals → ProposalCache → ProposalCache
change_at change height none pc = pc
change_at change height (some proposals) pc = record pc {
  last_proposed_block = insert height (change proposals) pc.last_proposed_block;
}

unfoldable pub blocks_of : Proposals → List Block
blocks_of [] = []
blocks_of ((key, p) ∷ more) = p.block ∷ blocks_of more

unfoldable pub get_proposed_blocks_at : ℕ → ProposalCache → List Block
get_proposed_blocks_at height pc = blocks_of (proposals_at height pc)

unfoldable pub find_hash : Bytes → Proposals → Option BlockProposal
find_hash hash [] = none
find_hash hash ((key, p) ∷ more) =
    if p.block.block_hash == hash then some p else find_hash hash more

-- The argument `none` is a nil hash.
unfoldable pub get_proposed_block_by_hash_and_height :
    Option Bytes → ℕ → ProposalCache → Option BlockProposal
get_proposed_block_by_hash_and_height none height pc = none
get_proposed_block_by_hash_and_height (some hash) height pc =
    find_hash hash (proposals_at height pc)

unfoldable pub find_self : Proposals → Option Block
find_self [] = none
find_self ((key, p) ∷ more) = if p.is_self_proposed then some p.block else find_self more

unfoldable pub get_self_proposed_block_at : ℕ → ProposalCache → Option Block
get_self_proposed_block_at height pc = find_self (proposals_at height pc)

abbrev pub is_there : Option Proposals → Bool
is_there none = false
is_there (some proposals) = true

unfoldable pub has_proposed_block_at : ℕ → ProposalCache → Bool
has_proposed_block_at height pc = is_there (lookup height pc.last_proposed_block)

unfoldable pub any_proposed : Proposals → Bool
any_proposed [] = false
any_proposed ((key, p) ∷ more) =
    (p.is_self_proposed && p.has_proposed_this_round) || any_proposed more

unfoldable pub is_proposed_at : ℕ → ProposalCache → Bool
is_proposed_at height pc = any_proposed (proposals_at height pc)

-- The first proposal of the node itself gets the mark, and the loop returns.
unfoldable pub mark_self : Bool → Proposals → Proposals
mark_self mark [] = []
mark_self mark ((key, p) ∷ more) =
    let rest = mark_self mark more in
    if p.is_self_proposed
    then (key, record p { has_proposed_this_round = mark }) ∷ more
    else (key, p) ∷ rest

unfoldable pub set_proposed_at : ℕ → ProposalCache → ProposalCache
set_proposed_at height pc =
    change_at (mark_self true) height (lookup height pc.last_proposed_block) pc

unfoldable pub reset_proposed_at : ℕ → ProposalCache → ProposalCache
reset_proposed_at height pc =
    change_at (mark_self false) height (lookup height pc.last_proposed_block) pc

unfoldable pub discarded : ℕ → Map ℕ Proposals → List Block
discarded base_height [] = []
discarded base_height ((height, proposals) ∷ more) =
    let rest = discarded base_height more in
    if leb height base_height then rest else blocks_of proposals ++ rest

unfoldable pub discard_blocks : ℕ → ProposalCache → ProposalCache × List Block
discard_blocks base_height pc = (
  record pc {
    last_proposed_block =
        discard (λ (height : ℕ). not (leb height base_height)) pc.last_proposed_block;
  },
  discarded base_height pc.last_proposed_block,
)

pub data SetError : Type 0 where
  accepted no_block_committed invalid_height : SetError

-- What `utils.CalcBlockFingerPrint` of another library gives for a block.
module _ (calc_block_finger_print : Block → Bytes) where
  -- The argument `none` is a nil block or one without a header.
  unfoldable pub get_proposed_block : Option Block → ProposalCache → Option BlockProposal
  get_proposed_block none pc = none
  get_proposed_block (some b) pc =
      lookup (calc_block_finger_print b) (proposals_at b.block_height pc)

  unfoldable pub put_proposal : BlockProposal → ProposalCache → ProposalCache
  put_proposal bs pc = record pc {
    last_proposed_block =
        insert bs.block.block_height
          (insert (calc_block_finger_print bs.block) bs (proposals_at bs.block.block_height pc))
          pc.last_proposed_block;
  }

  abbrev pub put_above : Option ℕ → BlockProposal → ProposalCache → ProposalCache × SetError
  put_above none bs pc = (pc, no_block_committed)
  put_above (some current) bs pc =
      if leb bs.block.block_height current && not (nat_eq bs.block.block_height 0)
      then (pc, invalid_height)
      else (put_proposal bs pc, accepted)

  unfoldable pub set_proposed_block :
      Option Block → Bytes → Bytes → Bool → LedgerCache → ProposalCache → ProposalCache × SetError
  set_proposed_block none rw_set_map contract_event_map self_propose lc pc = (pc, accepted)
  set_proposed_block (some b) rw_set_map contract_event_map self_propose lc pc =
      put_above (current_height lc) (proposal b rw_set_map contract_event_map self_propose) pc

  unfoldable pub clear_the_block : Block → ProposalCache → ProposalCache
  clear_the_block b pc =
      change_at (delete (calc_block_finger_print b)) b.block_height
        (lookup b.block_height pc.last_proposed_block) pc

  -- The proposals left and the blocks removed, for the entries that the loop still has.
  unfoldable pub keep_hash : Bytes → Proposals → Proposals → Proposals
  keep_hash hash [] now = now
  keep_hash hash ((key, p) ∷ more) now =
      keep_hash hash more
        (if hash == p.block.block_hash then now else delete (calc_block_finger_print p.block) now)

  unfoldable pub removed : Bytes → Proposals → List Block
  removed hash [] = []
  removed hash ((key, p) ∷ more) =
      let rest = removed hash more in if hash == p.block.block_hash then rest else p.block ∷ rest

  unfoldable pub keep_proposed_block : Bytes → ℕ → ProposalCache → ProposalCache × List Block
  keep_proposed_block hash height pc = (
    change_at (λ proposals. keep_hash hash proposals proposals) height
        (lookup height pc.last_proposed_block) pc,
    removed hash (proposals_at height pc),
  )
