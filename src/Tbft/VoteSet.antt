-- ===== src/Tbft/VoteSet.antt =====
-- consensus-tbft-master/vote.go: the votes of one type at one height and round. The set points to the
-- validator set of the engine, whose present value its methods take as an argument. The map
-- `VotesByBlock` is keyed by the base64 text of a hash, which is used for nothing else and differs
-- for different hashes: the model keys it by the hash.
pub mod Tally
pub mod Invariant
pub mod Recording
pub mod Preserved
pub mod Majority
pub mod Adding
pub mod InvalidTxs
pub mod Proto
use chainmaker.Prelude.{
  ℕ, ◌+◌, ◌-◌, ◌%◌, Bool, true, false, not, ◌&&◌, Option, none, some, List, [], ◌∷◌, ◌++◌,
}
use chainmaker.Prelude.Tests.{ltb, leb, nat_eq, if◌then◌else◌}
use chainmaker.Prelude.Eq.{Bytes, bytes_eq, bytes_instance}
use chainmaker.Prelude.Map.{Map, lookup, insert}
use chainmaker.Prelude.Int.{ℤ, pos, int_eq, leb_ℤ, add32, sub32, mul32, quot32, uint64_of, u64}
use chainmaker.Prelude.Result.{Error, vote_nil, unexpected_step, invalid_validator, different_hash}
use chainmaker.Tbft.Validators.{ValidatorSet, size, has_validator}
use chainmaker.Tbft.Vote.{Vote, VoteType, prevote, type_eq, Slice, nil, content, is_nil, slice_eq}

pub record BlockVotes : Type 0 where
  pub votes : Map Bytes Vote
  pub sum : ℕ

abbrev pub new_block_votes : BlockVotes
new_block_votes = record { votes = []; sum = 0 }

unfoldable pub add_block_vote : Vote → BlockVotes → BlockVotes
add_block_vote vote bv = record { votes = insert vote.voter vote bv.votes; sum = u64 (bv.sum + 1) }

pub record VoteSet : Type 0 where
  pub type : VoteType
  pub height : ℕ
  pub round : ℤ
  pub sum : ℕ
  pub maj23 : Slice
  pub votes : Map Bytes Vote
  pub votes_by_block : Map Bytes BlockVotes
  pub invalid_tx : Map Bytes ℤ
  pub need_to_del_txs : List Bytes

unfoldable pub new_vote_set : VoteType → ℕ → ℤ → VoteSet
new_vote_set type height round = record {
  type = type;
  height = height;
  round = round;
  sum = 0;
  maj23 = nil;
  votes = [];
  votes_by_block = [];
  invalid_tx = [];
  need_to_del_txs = [];
}

unfoldable pub check_vote_matched : VoteSet → Vote → Bool
check_vote_matched vs vote =
    if not (type_eq vote.type vs.type)
    then false
    else if not (nat_eq vote.height vs.height)
    then false
    else if not (int_eq vote.round vs.round)
    then false
    else true

-- `uint64(vs.validators.Size()*2/3 + 1)`, in int32 arithmetic before the conversion.
unfoldable pub quorum : Option ValidatorSet → ℕ
quorum validators = uint64_of (add32 (quot32 (mul32 (size validators) 2) 3) (pos 1))

abbrev pub block_votes_or_new : Option BlockVotes → BlockVotes
block_votes_or_new none = new_block_votes
block_votes_or_new (some bv) = bv

-- `for k, v := range votesByBlock.Votes { vs.Votes[k] = v }`
unfoldable pub copy_votes : Map Bytes Vote → Map Bytes Vote → Map Bytes Vote
copy_votes [] votes = votes
copy_votes ((k, v) ∷ more) votes = copy_votes more (insert k v votes)

-- The part of `AddVote` that records an admitted vote and looks for a majority.
unfoldable pub record_vote : Option ValidatorSet → Vote → VoteSet → VoteSet
record_vote validators vote vs =
    let hash_str = content vote.hash in
    let old = block_votes_or_new (lookup hash_str vs.votes_by_block) in
    let votes_by_block = add_block_vote vote old in
    let recorded = record vs {
      votes = insert vote.voter vote vs.votes;
      sum = u64 (vs.sum + 1);
      votes_by_block = insert hash_str votes_by_block vs.votes_by_block;
    } in
    if ltb old.sum (quorum validators)
      && leb (quorum validators) votes_by_block.sum
      && is_nil recorded.maj23
    then record recorded {
      maj23 = vote.hash;
      votes = copy_votes votes_by_block.votes recorded.votes;
    }
    else recorded

abbrev pub count_or_zero : Option ℤ → ℤ
count_or_zero none = pos 0
count_or_zero (some n) = n

-- `vs.validators.Size()*1/3 + 1`
unfoldable pub weak_quorum : Option ValidatorSet → ℤ
weak_quorum validators = add32 (quot32 (mul32 (size validators) 1) 3) (pos 1)

-- The body of the loop over `vote.InvalidTxs`.
unfoldable pub count_invalid_tx : Option ValidatorSet → Bytes → VoteSet → VoteSet
count_invalid_tx validators tx vs =
    let n = add32 (count_or_zero (lookup tx vs.invalid_tx)) (pos 1) in
    if leb_ℤ (weak_quorum validators) n
    then record vs {
      need_to_del_txs = vs.need_to_del_txs ++ tx ∷ [];
      invalid_tx = insert tx (sub32 n (size validators)) vs.invalid_tx;
    }
    else record vs { invalid_tx = insert tx n vs.invalid_tx }

unfoldable pub count_invalid_txs : Option ValidatorSet → List Bytes → VoteSet → VoteSet
count_invalid_txs validators [] vs = vs
count_invalid_txs validators (tx ∷ txs) vs =
    count_invalid_txs validators txs (count_invalid_tx validators tx vs)

-- The set after the call, and the pair that it returns.
pub record Added : Type 0 where
  pub vote_set : VoteSet
  pub added : Bool
  pub error : Option Error

abbrev pub refuse : VoteSet → Option Error → Added
refuse vs error = record { vote_set = vs; added = false; error = error }

-- A voter that has voted: the same hash again is no error.
abbrev pub add_again : VoteSet → Vote → Vote → Added
add_again vs vote v =
    if slice_eq vote.hash v.hash then refuse vs none else refuse vs (some different_hash)

unfoldable pub admit : Option ValidatorSet → Vote → Bool → VoteSet → VoteSet
admit validators vote count_invalid vs =
    let recorded = record_vote validators vote vs in
    if type_eq vote.type prevote && count_invalid
    then count_invalid_txs validators vote.invalid_txs recorded
    else recorded

-- `AddVote` on a set that is not nil. The vote is nil in the first clause.
unfoldable pub add_vote : Option ValidatorSet → Option Vote → Bool → VoteSet → Added
add_vote validators none count_invalid vs = refuse vs (some vote_nil)
add_vote validators (some vote) count_invalid vs =
    if not (check_vote_matched vs vote)
    then refuse vs (some unexpected_step)
    else if not (has_validator validators vote.voter)
    then refuse vs (some invalid_validator)
    else elim (lookup vote.voter vs.votes) [
      | some v ↦ add_again vs vote v
      | none ↦ record {
        vote_set = admit validators vote count_invalid vs;
        added = true;
        error = none;
      }
    ]

-- `AddVoteForConsistent`: no test of the voter, and no majority.
unfoldable pub add_vote_for_consistent : Option Vote → VoteSet → Added
add_vote_for_consistent none vs = refuse vs (some vote_nil)
add_vote_for_consistent (some vote) vs =
    if not (check_vote_matched vs vote)
    then refuse vs (some unexpected_step)
    else elim (lookup vote.voter vs.votes) [
      | some v ↦ add_again vs vote v
      | none ↦ record {
        vote_set = record vs { votes = insert vote.voter vote vs.votes; sum = u64 (vs.sum + 1) };
        added = true;
        error = none;
      }
    ]

-- `delInvalidTx`: the height and the transactions of the message, if there are any.
unfoldable pub del_invalid_tx : Option VoteSet → ℕ → Option (ℕ × List Bytes)
del_invalid_tx none block_height = none
del_invalid_tx (some vs) block_height = elim vs.need_to_del_txs [
  | [] ↦ none
  | tx ∷ txs ↦ some (block_height, tx ∷ txs)
]

unfoldable pub two_thirds_majority : Option VoteSet → Slice × Bool
two_thirds_majority none = (nil, false)
two_thirds_majority (some vs) = if not (is_nil vs.maj23) then (vs.maj23, true) else (nil, false)

unfoldable pub has_two_thirds_majority : Option VoteSet → Bool
has_two_thirds_majority none = false
has_two_thirds_majority (some vs) = not (is_nil vs.maj23)

-- The loop of `hasTwoThirdsAny`: no block can reach the quorum with the votes that are left.
unfoldable pub none_can_win : ℕ → ℕ → Map Bytes BlockVotes → Bool
none_can_win q left_sum [] = true
none_can_win q left_sum ((k, v) ∷ more) =
    let rest = none_can_win q left_sum more in
    if leb q (u64 (v.sum + left_sum)) then false else rest

unfoldable pub has_two_thirds_any : Option ValidatorSet → Option VoteSet → Bool
has_two_thirds_any validators none = false
has_two_thirds_any validators (some vs) =
    let left_sum = u64 (uint64_of (size validators) + (18446744073709551616 - vs.sum)) in
    none_can_win (quorum validators) left_sum vs.votes_by_block

unfoldable pub has_two_thirds_no_majority : Option ValidatorSet → Option VoteSet → Bool
has_two_thirds_no_majority validators none = false
has_two_thirds_no_majority validators (some vs) = leb (quorum validators) vs.sum

-- The loop of `NewVoteSetFromProto`: a vote that is not added is only logged.
unfoldable pub add_all : Option ValidatorSet → Map Bytes Vote → VoteSet → VoteSet
add_all validators [] vs = vs
add_all validators ((k, v) ∷ more) vs =
    add_all validators more (add_vote validators (some v) false vs).vote_set

-- The message that `ToProto` makes and `NewVoteSetFromProto` reads, less the tallies by block,
-- which the reader does not use.
pub record VoteSetProto : Type 0 where
  pub type : VoteType
  pub height : ℕ
  pub round : ℤ
  pub sum : ℕ
  pub maj23 : Slice
  pub votes : Map Bytes Vote
  pub votes_by_block : Map Bytes BlockVotes

unfoldable pub new_vote_set_from_proto : Option ValidatorSet → VoteSetProto → VoteSet
new_vote_set_from_proto validators vs_proto =
    add_all validators vs_proto.votes (new_vote_set vs_proto.type vs_proto.height vs_proto.round)

-- `for k, v := range vs.Votes { vsProto.Votes[k] = v }` from an empty map.
unfoldable pub copy_map {ℓ} : {V : Type ℓ} → Map Bytes V → Map Bytes V → Map Bytes V
copy_map [] m = m
copy_map ((k, v) ∷ more) m = copy_map more (insert k v m)

-- `(*BlockVotes).ToProto`, and the loop of `ToProto` over the blocks.
unfoldable pub block_to_proto : BlockVotes → BlockVotes
block_to_proto bv = record { votes = copy_map bv.votes []; sum = bv.sum }

unfoldable pub copy_blocks : Map Bytes BlockVotes → Map Bytes BlockVotes → Map Bytes BlockVotes
copy_blocks [] m = m
copy_blocks ((k, v) ∷ more) m = copy_blocks more (insert k (block_to_proto v) m)

unfoldable pub to_proto : VoteSet → VoteSetProto
to_proto vs = record {
  type = vs.type;
  height = vs.height;
  round = vs.round;
  sum = vs.sum;
  maj23 = vs.maj23;
  votes = copy_map vs.votes [];
  votes_by_block = copy_blocks vs.votes_by_block [];
}
