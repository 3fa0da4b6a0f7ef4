-- ===== src/Tbft/Rounds.antt =====
-- consensus-tbft-master/vote.go: the vote sets of all rounds at one height.
pub mod Routing
pub mod Validity
use chainmaker.Prelude.{ℕ, Bool, true, false, not, Option, none, some, List, []}
use chainmaker.Prelude.Tests.{if◌then◌else◌}
use chainmaker.Prelude.Map.{Map, lookup, insert}
use chainmaker.Prelude.Int.{ℤ, int_instance}
use chainmaker.Prelude.Eq.{bytes_instance}
use chainmaker.Prelude.Result.{Error, Result, ok, err, panic, ◌>>=◌}
use chainmaker.Tbft.Validators.{ValidatorSet, has_validator}
use chainmaker.Tbft.Vote.{Vote, VoteType, prevote, precommit, unknown}
use chainmaker.Tbft.VoteSet
use chainmaker.Tbft.VoteSet.{VoteSet, Added, new_vote_set}

pub record RoundVoteSet : Type 0 where
  pub height : ℕ
  pub round : ℤ
  pub prevotes : VoteSet
  pub precommits : VoteSet

pub record HeightRoundVoteSet : Type 0 where
  pub height : ℕ
  pub round : ℤ
  pub round_vote_sets : Map ℤ RoundVoteSet

unfoldable pub new_height_round_vote_set : ℕ → ℤ → HeightRoundVoteSet
new_height_round_vote_set height round = record {
  height = height;
  round = round;
  round_vote_sets = [];
}

unfoldable pub new_round_vote_set : ℕ → ℤ → VoteSet → VoteSet → RoundVoteSet
new_round_vote_set height round prevotes precommits = record {
  height = height;
  round = round;
  prevotes = prevotes;
  precommits = precommits;
}

unfoldable pub add_round : ℤ → HeightRoundVoteSet → Result HeightRoundVoteSet
add_round round hvs = elim (lookup round hvs.round_vote_sets) [
  | some _ ↦ panic
  | none ↦ ok (record hvs {
    round_vote_sets =
        insert round
          (new_round_vote_set hvs.height round (new_vote_set prevote hvs.height round)
            (new_vote_set precommit hvs.height round))
          hvs.round_vote_sets;
  })
]

unfoldable pub get_round_vote_set : ℤ → HeightRoundVoteSet → Option RoundVoteSet
get_round_vote_set round hvs = lookup round hvs.round_vote_sets

-- The `switch` of `getVoteSet`.
abbrev pub select : VoteType → RoundVoteSet → Result (Option VoteSet)
select prevote rvs = ok (some rvs.prevotes)
select precommit rvs = ok (some rvs.precommits)
select (unknown n) rvs = panic

unfoldable pub get_vote_set : ℤ → VoteType → HeightRoundVoteSet → Result (Option VoteSet)
get_vote_set round vote_type hvs = elim (lookup round hvs.round_vote_sets) [
  | none ↦ ok none
  | some rvs ↦ select vote_type rvs
]

unfoldable pub prevotes : ℤ → HeightRoundVoteSet → Result (Option VoteSet)
prevotes round hvs = get_vote_set round prevote hvs

unfoldable pub precommits : ℤ → HeightRoundVoteSet → Result (Option VoteSet)
precommits round hvs = get_vote_set round precommit hvs

abbrev pub store_in : VoteType → VoteSet → RoundVoteSet → RoundVoteSet
store_in prevote vs rvs = record rvs { prevotes = vs }
store_in precommit vs rvs = record rvs { precommits = vs }
store_in (unknown n) vs rvs = rvs

-- The write through the pointer that `getVoteSet` returns.
unfoldable pub set_vote_set : ℤ → VoteType → VoteSet → HeightRoundVoteSet → HeightRoundVoteSet
set_vote_set round vote_type vs hvs = elim (lookup round hvs.round_vote_sets) [
  | none ↦ hvs
  | some rvs ↦ record hvs {
    round_vote_sets = insert round (store_in vote_type vs rvs) hvs.round_vote_sets;
  }
]

-- The state after the call, and the pair that it returns.
pub record AddedAt : Type 0 where
  pub hvs : HeightRoundVoteSet
  pub added : Bool
  pub error : Option Error

-- `voteSet.AddVote(vote, true)`, which panics on a nil set.
unfoldable pub add_to :
    Option ValidatorSet → Vote → HeightRoundVoteSet → Option VoteSet → Result AddedAt
add_to validators vote hvs none = panic
add_to validators vote hvs (some vs) =
    let r = VoteSet.add_vote validators (some vote) true vs in
    ok (record {
      hvs = set_vote_set vote.round vote.type r.vote_set hvs;
      added = r.added;
      error = r.error;
    })

-- `addVote` on a round that has no sets yet.
unfoldable pub add_to_new : Option ValidatorSet → Vote → HeightRoundVoteSet → Result AddedAt
add_to_new validators vote hvs = do
  grown ← add_round vote.round hvs
  vote_set ← get_vote_set vote.round vote.type grown
  add_to validators vote grown vote_set

unfoldable pub add_vote : Option ValidatorSet → Vote → HeightRoundVoteSet → Result AddedAt
add_vote validators vote hvs = do
  vote_set ← get_vote_set vote.round vote.type hvs
  elim vote_set [
    | none ↦ add_to_new validators vote hvs
    | some vs ↦ add_to validators vote hvs (some vs)
  ]

-- `isRequired`, after the nil test on the vote.
unfoldable pub is_required :
    Option ValidatorSet → ℤ → Option Vote → HeightRoundVoteSet → Result Bool
is_required validators round none hvs = ok false
is_required validators round (some vote) hvs = do
  vote_set ← get_vote_set round vote.type hvs
  elim vote_set [
    | none ↦ ok true
    | some vs ↦
        if not (has_validator validators vote.voter)
        then ok false
        else elim (lookup vote.voter vs.votes) [ none ↦ ok true | some _ ↦ ok false ]
  ]
