-- ===== src/Tbft/Tests/Sets.antt =====
-- Tests of the vote sets of consensus-tbft-master/vote.go.
use chainmaker.Prelude.{
  ◌+◌, ◌-◌, ◌*◌, ◌/◌, ◌≤◌, ◌<◌, ◌≡◌, ◌≢◌, ◌↔◌, refl, true, some, [], ◌∷◌, arith,
}
use chainmaker.Prelude.Lists.{length}
use chainmaker.Prelude.Eq.{Bytes, bytes_eq, bytes_instance}
use chainmaker.Prelude.Map.{lookup, insert}
use chainmaker.Prelude.Int.{add32, sub32, mul32, quot32}
use chainmaker.Tbft.Validators.{contains, has_validator, size}
use chainmaker.Tbft.Vote.{Vote, prevote, bytes, type_eq}
use chainmaker.Tbft.VoteSet.{
  new_vote_set, add_vote, two_thirds_majority, has_two_thirds_any, quorum, new_vote_set_from_proto,
  to_proto, count_invalid_txs, count_invalid_tx, check_vote_matched, record_vote, admit, copy_votes,
  add_block_vote, weak_quorum,
}
use chainmaker.Tbft.VoteSet.Tally.{tally}
use chainmaker.Tbft.VoteSet.Invariant.{IsValid, quorum_unique}
use chainmaker.Tbft.VoteSet.Preserved.{add_vote-IsValid}
use chainmaker.Tbft.VoteSet.Majority.{
  two_thirds_majority_lem, has_two_thirds_any_lem, has_two_thirds_any-empty,
}
use chainmaker.Tbft.VoteSet.Adding.{add_votes, first_vote_stays}
use chainmaker.Tbft.VoteSet.InvalidTxs.{occurrences, count_invalid_txs_lem, one_vote_deletes}
use chainmaker.Tbft.VoteSet.Proto.{new_vote_set_from_proto-to_proto}
use chainmaker.Tbft.Tests.{
  four, vote_of, empty_set, some_votes, three_votes, split_votes, empty_set-IsValid,
  three_votes-IsValid, split_votes-IsValid,
}

abbrev nine : Bytes
nine = 9 ∷ []

abbrev second_of_one : Vote
second_of_one = vote_of prevote 1 (7 ∷ []) []

-- Names the transaction 5 twice.
abbrev blaming : Vote
blaming = vote_of prevote 1 nine ((5 ∷ []) ∷ (5 ∷ []) ∷ [])

three_votes_win : two_thirds_majority (some three_votes) ≡ (bytes nine, true)
unfolding two_thirds_majority add_votes add_vote new_vote_set check_vote_matched has_validator
    contains lookup admit record_vote count_invalid_txs copy_votes add_block_vote quorum size
    type_eq bytes_eq add32 sub32 quot32 mul32 insert count_invalid_tx weak_quorum
three_votes_win = refl

three_votes_kept : lookup (1 ∷ []) three_votes.votes ≡ some (vote_of prevote 1 nine [])
unfolding add_votes add_vote new_vote_set check_vote_matched has_validator contains lookup admit
    record_vote count_invalid_txs copy_votes add_block_vote quorum size type_eq bytes_eq add32 sub32
    quot32 mul32 insert count_invalid_tx weak_quorum
three_votes_kept = refl

add_vote-IsValid_example :
    IsValid four (add_vote (some four) (some blaming) true three_votes).vote_set
add_vote-IsValid_example = add_vote-IsValid four (some blaming) true three_votes three_votes-IsValid

two_thirds_majority_lem_example :
    (two_thirds_majority (some three_votes) ≡ (bytes nine, true))
    ↔ (length four.validators * 2 / 3 + 1 ≤ tally nine three_votes.votes)
two_thirds_majority_lem_example =
    two_thirds_majority_lem four three_votes three_votes-IsValid nine (λ e. cc)

quorum_of_four : quorum (some four) ≡ 3
unfolding quorum size add32 quot32 mul32
quorum_of_four = refl

pub three_for_nine : (tally nine three_votes.votes ≡ 3) × (length three_votes.votes ≡ 3)
unfolding add_votes add_vote new_vote_set check_vote_matched has_validator contains lookup admit
    record_vote count_invalid_txs copy_votes add_block_vote quorum size type_eq bytes_eq add32 sub32
    quot32 mul32 insert count_invalid_tx weak_quorum
three_for_nine = (refl, refl)

three_split : length split_votes.votes ≡ 3
unfolding add_votes add_vote new_vote_set check_vote_matched has_validator contains lookup admit
    record_vote count_invalid_txs copy_votes add_block_vote quorum size type_eq bytes_eq add32 sub32
    quot32 mul32 insert count_invalid_tx weak_quorum
three_split = refl

three_is_a_quorum : quorum (some four) ≤ tally nine three_votes.votes
three_is_a_quorum = omega (arith, quorum_of_four, three_for_nine.0)

quorum_unique_example : bytes_eq nine nine ≡ true
quorum_unique_example =
    quorum_unique four three_votes.votes nine nine (omega arith) (omega (arith, three_for_nine.1))
      three_is_a_quorum three_is_a_quorum

has_two_thirds_any_lem_example : (has_two_thirds_any (some four) (some split_votes) ≡ true) ↔ (
    (h : Bytes)
    → tally h split_votes.votes + (length four.validators - length split_votes.votes)
      < length four.validators * 2 / 3 + 1)
has_two_thirds_any_lem_example =
    has_two_thirds_any_lem four split_votes split_votes-IsValid (omega (arith, three_split))

has_two_thirds_any-empty_example : has_two_thirds_any (some four) (some empty_set) ≡ true
unfolding new_vote_set
has_two_thirds_any-empty_example = has_two_thirds_any-empty four empty_set refl

first_vote_stays_example :
    lookup (1 ∷ []) (add_votes four true (some second_of_one ∷ some_votes) three_votes).votes
    ≡ some (vote_of prevote 1 nine [])
first_vote_stays_example =
    first_vote_stays four true (some second_of_one ∷ some_votes) three_votes (1 ∷ [])
      (vote_of prevote 1 nine []) three_votes-IsValid three_votes_kept

count_invalid_txs_lem_example :
    occurrences
      (5 ∷ [])
      (count_invalid_txs
        (some four)
        ((5 ∷ []) ∷ (6 ∷ []) ∷ (5 ∷ []) ∷ [])
        empty_set).need_to_del_txs
    ≡ 1
unfolding new_vote_set lookup bytes_eq
count_invalid_txs_lem_example =
    count_invalid_txs_lem four (omega arith) (5 ∷ []) ((5 ∷ []) ∷ (6 ∷ []) ∷ (5 ∷ []) ∷ [])
      empty_set refl refl (omega arith)

one_vote_deletes_example :
    occurrences
      (5 ∷ [])
      (add_vote (some four) (some blaming) true empty_set).vote_set.need_to_del_txs
    ≡ 1
unfolding new_vote_set lookup check_vote_matched type_eq contains bytes_eq
one_vote_deletes_example =
    one_vote_deletes four (5 ∷ []) blaming empty_set empty_set-IsValid (refl, refl, refl) refl refl
      refl (omega arith) (omega arith)

new_vote_set_from_proto-to_proto_example :
    ((new_vote_set_from_proto (some four) (to_proto three_votes)).votes ≡ three_votes.votes)
    × ((new_vote_set_from_proto (some four) (to_proto three_votes)).sum ≡ three_votes.sum)
    × ((h : Bytes)
        → h ≢ []
        → ((new_vote_set_from_proto (some four) (to_proto three_votes)).maj23 ≡ bytes h)
          ↔ (three_votes.maj23 ≡ bytes h))
    × IsValid four (new_vote_set_from_proto (some four) (to_proto three_votes))
new_vote_set_from_proto-to_proto_example =
    new_vote_set_from_proto-to_proto four three_votes three_votes-IsValid
