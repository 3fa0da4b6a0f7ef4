-- ===== src/Tbft/Rounds/Validity.antt =====
-- The sets of all rounds stay valid, and `isRequired` foretells `addVote`.
use chainmaker.Prelude.{
  ℕ, ◌<◌, ◌≡◌, ◌↔◌, refl, inl, inr, Bool, true, false, ◌&&◌, Option, none, some, arith,
}
use chainmaker.Prelude.Tests.{Bool-cases, Option-cases, nat_eq_iff}
use chainmaker.Prelude.Lists.{length}
use chainmaker.Prelude.Eq.{bytes_instance}
use chainmaker.Prelude.Map.{lookup}
use chainmaker.Prelude.Int.{ℤ, int_eq, int_eq_iff, int_instance}
use chainmaker.Prelude.Result.{ok}
use chainmaker.Tbft.Validators.{ValidatorSet, contains, has_validator}
use chainmaker.Tbft.Vote.{Vote, VoteType, type_eq, type_eq_iff}
use chainmaker.Tbft.VoteSet
use chainmaker.Tbft.VoteSet.{VoteSet, new_vote_set, check_vote_matched}
use chainmaker.Tbft.VoteSet.Invariant.{IsValid, new_vote_set-IsValid}
use chainmaker.Tbft.VoteSet.Preserved.{add_vote-IsValid, add_vote-SameKind}
use chainmaker.Tbft.Rounds.{
  HeightRoundVoteSet, AddedAt, get_vote_set, add_vote, is_required, new_height_round_vote_set,
}
use chainmaker.Tbft.Rounds.Routing.{IsKnown, vote_set_at, add_vote_lem, get_vote_set_lem}

-- The set of every round and named type is valid, and of that type, height and round.
pub record AreValid (val_set : ValidatorSet) (hvs : HeightRoundVoteSet) : Type 0 where
  pub valid : (round : ℤ) (t : VoteType) → IsKnown t → IsValid val_set (vote_set_at round t hvs)
  pub kind :
      (round : ℤ) (t : VoteType)
      → IsKnown t
      → ((vote_set_at round t hvs).type ≡ t)
        × ((vote_set_at round t hvs).height ≡ hvs.height)
        × ((vote_set_at round t hvs).round ≡ round)

-- At a new height all sets are empty, and valid.
pub new_height_round_vote_set-AreValid :
    (val_set : ValidatorSet) (height : ℕ) (round : ℤ)
    → length val_set.validators < 1073741824
    → AreValid val_set (new_height_round_vote_set height round)
unfolding new_height_round_vote_set vote_set_at lookup new_vote_set
new_height_round_vote_set-AreValid val_set height round fits = record {
  valid = λ r t k. new_vote_set-IsValid val_set t height r fits;
  kind = λ r t k. (refl, refl, refl);
}

-- `addVote` of a vote whose type has a name keeps the sets of all rounds at a height valid.
pub add_vote-AreValid :
    (val_set : ValidatorSet) (vote : Vote) (hvs : HeightRoundVoteSet) {r : AddedAt}
    → IsKnown vote.type
    → AreValid val_set hvs
    → add_vote (some val_set) vote hvs ≡ ok r
    → AreValid val_set r.hvs
add_vote-AreValid val_set vote hvs {r} known v e =
    let (s, eq, routes) = add_vote_lem (some val_set) vote hvs known in
    let same : s ≡ r = cc in
    rw (← same) (record {
      valid = λ round t k.
          rw (routes.sets round t k)
            (elim (Bool-cases (int_eq vote.round round && type_eq vote.type t)) [
              | inl here ↦
                  rw here (
                    add_vote-IsValid val_set (some vote) true _
                      (v.valid vote.round vote.type known))
              | inr there ↦ rw there (v.valid round t k)
            ]);
      kind = λ round t k.
          rw (routes.sets round t k, routes.height)
            (elim (Bool-cases (int_eq vote.round round && type_eq vote.type t)) [
              | inl here ↦ rw here (
                  ground (
                    arith,
                    add_vote-SameKind val_set vote true (vote_set_at vote.round vote.type hvs)
                        (v.valid vote.round vote.type known),
                    v.kind vote.round vote.type known,
                    int_eq_iff vote.round round,
                    type_eq_iff vote.type t,
                  ))
              | inr there ↦ rw there (v.kind round t k)
            ]);
    })

matched :
    (vote : Vote) (vs : VoteSet)
    → vs.type ≡ vote.type
    → vs.height ≡ vote.height
    → vs.round ≡ vote.round
    → check_vote_matched vs vote ≡ true
unfolding check_vote_matched
matched vote vs t h r = ground (
  arith,
  type_eq_iff vote.type vs.type,
  nat_eq_iff vote.height vs.height,
  int_eq_iff vote.round vs.round,
)

abbrev absent {ℓ} : {A : Type ℓ} → Option A → Bool
absent none = true
absent (some a) = false

added-absent :
    (val_set : ValidatorSet) (vote : Vote) (vs : VoteSet)
    → check_vote_matched vs vote ≡ true
    → contains val_set.validators vote.voter ≡ true
    → (VoteSet.add_vote (some val_set) (some vote) true vs).added
      ≡ absent (lookup vote.voter vs.votes)
unfolding VoteSet.add_vote has_validator
added-absent val_set vote vs m c = ground arith

is_required-absent :
    (val_set : ValidatorSet) (vote : Vote) (hvs : HeightRoundVoteSet)
    → IsKnown vote.type
    → contains val_set.validators vote.voter ≡ true
    → is_required (some val_set) vote.round (some vote) hvs
      ≡ ok (absent (lookup vote.voter (vote_set_at vote.round vote.type hvs).votes))
unfolding is_required has_validator
is_required-absent val_set vote hvs known c =
    elim (Option-cases (lookup vote.round hvs.round_vote_sets)) [
      | inr (rvs, here) ↦
          rw (get_vote_set_lem hvs vote.round vote.type rvs known here) (ground arith)
      | inl nothing ↦ unfold get_vote_set vote_set_at new_vote_set lookup in ground arith
    ]

-- For a vote of the sets' height, by a validator and of a type that has a name, over valid sets,
-- `isRequired` is true exactly when `addVote` adds the vote.
pub is_required_lem :
    (val_set : ValidatorSet) (vote : Vote) (hvs : HeightRoundVoteSet) {r : AddedAt}
    → IsKnown vote.type
    → AreValid val_set hvs
    → vote.height ≡ hvs.height
    → contains val_set.validators vote.voter ≡ true
    → add_vote (some val_set) vote hvs ≡ ok r
    → (is_required (some val_set) vote.round (some vote) hvs ≡ ok true) ↔ (r.added ≡ true)
is_required_lem val_set vote hvs {r} known v h member e =
    let (s, eq, routes) = add_vote_lem (some val_set) vote hvs known in
    let vs = vote_set_at vote.round vote.type hvs in
    let k = v.kind vote.round vote.type known in
    ground (
      arith,
      eq,
      routes.added,
      is_required-absent val_set vote hvs known member,
      added-absent val_set vote vs (matched vote vs k.0 (ground arith) k.2) member,
    )
