-- ===== src/Tbft/Tests/Others.antt =====
-- Tests of the sets of a height, of the validator set and of the caches, on concrete values.
use chainmaker.Prelude.{
  ℕ, ◌+◌, ◌%◌, ◌≤◌, ◌<◌, ◌≡◌, ◌↔◌, refl, true, false, not, ◌&&◌, none, some, List, [], ◌∷◌, arith,
  inl,
}
use chainmaker.Prelude.Lists.{length, get_elem?}
use chainmaker.Prelude.Eq.{Bytes, bytes_eq, bytes_instance}
use chainmaker.Prelude.Map.{lookup}
use chainmaker.Prelude.Int.{pos, int_instance}
use chainmaker.Prelude.Result.{ok, panic}
use chainmaker.Tbft.Validators.{contains, update_validators, get_proposer, sort, block_version_231}
use chainmaker.Tbft.Validators.Sorting.{IsSorted, sort-IsSorted}
use chainmaker.Tbft.Validators.Updates.{update_validators_lem}
use chainmaker.Tbft.Validators.Proposer.{IsUsable, offset, get_proposer_lem, get_proposer_rotation}
use chainmaker.Tbft.Vote.{Vote, prevote, unknown}
use chainmaker.Tbft.Rounds.{
  HeightRoundVoteSet, AddedAt, new_height_round_vote_set, add_vote, is_required,
}
use chainmaker.Tbft.Rounds.Routing.{RoutesTo, add_vote_lem, add_vote-unknown}
use chainmaker.Tbft.Rounds.Validity.{
  AreValid, new_height_round_vote_set-AreValid, add_vote-AreValid, is_required_lem,
}
use chainmaker.Tbft.State.{ConsensusState, new_height}
use chainmaker.Tbft.Caches.{StateCache, new_state_cache, add_consensus_state}
use chainmaker.Tbft.Caches.Past.{IsWindow, add_consensus_state-IsWindow}
use chainmaker.Tbft.State.{TimeoutInfo, prevote as prevote_step}
use chainmaker.Tbft.Timer.{
  Scheduler, new_scheduler, is_outdated, Event, buffered, ran_out, received, handle, handle_all,
}
use chainmaker.Tbft.Timer.Order.{IsOrdered, handle_all-IsOrdered, sent_early}
use chainmaker.Tbft.Tests.{four, vote_of}

abbrev fresh : HeightRoundVoteSet
fresh = new_height_round_vote_set 5 (pos 0)

abbrev first : Vote
first = vote_of prevote 1 (9 ∷ []) []

abbrev nameless : Vote
nameless = record first { type = unknown (pos 7) }

add_vote_lem_example :
    (r : AddedAt) × (add_vote (some four) first fresh ≡ ok r) × RoutesTo (some four) first fresh r
add_vote_lem_example = add_vote_lem (some four) first fresh (inl refl)

add_vote-unknown_example : add_vote (some four) nameless fresh ≡ panic
add_vote-unknown_example = add_vote-unknown (some four) nameless fresh (pos 7) refl

fresh-AreValid : AreValid four fresh
fresh-AreValid = new_height_round_vote_set-AreValid four 5 (pos 0) (omega arith)

add_vote-AreValid_example : AreValid four (add_vote_lem_example.0).hvs
add_vote-AreValid_example =
    add_vote-AreValid four first fresh (inl refl) fresh-AreValid add_vote_lem_example.1

is_required_lem_example :
    (is_required (some four) (pos 0) (some first) fresh ≡ ok true)
    ↔ ((add_vote_lem_example.0).added ≡ true)
unfolding contains new_height_round_vote_set bytes_eq
is_required_lem_example =
    is_required_lem four first fresh (inl refl) fresh-AreValid refl refl add_vote_lem_example.1

four-IsUsable : IsUsable four
four-IsUsable = record { some_validator = omega arith; fits = omega arith; term = omega arith }

get_proposer_lem_example :
    (v : Bytes) × (get_elem? four.validators ((offset four (4 ∷ []) 6 + 5) % length four.validators)
      ≡ some v)
    × (get_proposer four block_version_231 (4 ∷ []) 6 (pos 5) ≡ ok v)
get_proposer_lem_example =
    get_proposer_lem four block_version_231 (4 ∷ []) 6 5 four-IsUsable (omega arith)

get_proposer_rotation_example :
    (round : ℕ) × (round < length four.validators)
    × (get_proposer four block_version_231 (4 ∷ []) 6 (pos round) ≡ ok (2 ∷ []))
get_proposer_rotation_example =
    get_proposer_rotation four block_version_231 (4 ∷ []) 6 1 (2 ∷ []) four-IsUsable (omega arith)
      refl

abbrev new_nodes : List Bytes
new_nodes = (9 ∷ []) ∷ (1 ∷ []) ∷ []

update_validators_lem_example :
    (contains (update_validators four new_nodes).val_set.validators (9 ∷ [])
      ≡ contains new_nodes (9 ∷ []))
    × (contains (update_validators four new_nodes).added (9 ∷ [])
        ≡ (contains new_nodes (9 ∷ []) && not (contains four.validators (9 ∷ []))))
    × (contains (update_validators four new_nodes).removed (9 ∷ [])
        ≡ (contains four.validators (9 ∷ []) && not (contains new_nodes (9 ∷ []))))
    × IsSorted (update_validators four new_nodes).val_set.validators
    × IsSorted (update_validators four new_nodes).added
    × IsSorted (update_validators four new_nodes).removed
update_validators_lem_example = update_validators_lem four new_nodes (9 ∷ [])

sort-IsSorted_example : IsSorted (sort new_nodes)
sort-IsSorted_example = sort-IsSorted new_nodes

abbrev at_height : ℕ → ConsensusState
at_height h = record {
  id = 1 ∷ [];
  height = h;
  round = pos 0;
  step = new_height;
  proposal = none;
  verifing_proposal = none;
  locked_round = pos 0;
  locked_proposal = none;
  valid_round = pos 0;
  valid_proposal = none;
  height_round_vote_set = new_height_round_vote_set h (pos 0);
}

abbrev past : StateCache
past = record (new_state_cache 10) { cache = (3, at_height 3) ∷ (4, at_height 4) ∷ [] }

past-IsWindow : IsWindow 4 past
unfolding lookup new_state_cache
past-IsWindow = record { distinct = ground arith; within = ground arith }

add_consensus_state-IsWindow_example :
    IsWindow 5 (add_consensus_state (some (at_height 5)) past)
    × (length (add_consensus_state (some (at_height 5)) past).cache ≤ past.size)
unfolding new_state_cache
add_consensus_state-IsWindow_example =
    add_consensus_state-IsWindow (at_height 5) past 4 (omega arith) (omega arith) (omega arith)
      (omega arith) past-IsWindow

abbrev at_round : ℕ → TimeoutInfo
at_round r = record { duration = pos 5; height = 7; round = pos r; step = prevote_step }

abbrev events : List Event
events =
    buffered (at_round 1)
    ∷ ran_out
    ∷ buffered (at_round 0)
    ∷ received
    ∷ buffered (at_round 2)
    ∷ ran_out
    ∷ received
    ∷ []

both_timeouts : (handle_all events new_scheduler).timeout_c ≡ at_round 1 ∷ at_round 2 ∷ []
unfolding handle_all handle new_scheduler is_outdated
both_timeouts = refl

handle_all-IsOrdered_example : IsOrdered (handle_all events new_scheduler).timeout_c
handle_all-IsOrdered_example = handle_all-IsOrdered events

abbrev waiting : Scheduler
waiting = record { latest = at_round 1; armed = true; expired = false; timeout_c = [] }

sent_early_example :
    let after = handle_all (ran_out ∷ buffered (at_round 2) ∷ received ∷ []) waiting in
    (after.timeout_c ≡ at_round 2 ∷ []) × (after.armed ≡ true)
unfolding is_outdated
sent_early_example = sent_early (at_round 2) waiting refl refl
