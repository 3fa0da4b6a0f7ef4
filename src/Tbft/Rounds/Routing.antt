-- ===== src/Tbft/Rounds/Routing.antt =====
-- A vote goes to the set of its round and type, and to no other.
use chainmaker.Prelude.{◌≡◌, refl, ◌⊎◌, inl, inr, true, ◌&&◌, Option, none, some, arith}
use chainmaker.Prelude.Tests.{if◌then◌else◌, Option-cases}
use chainmaker.Prelude.Eq.{bytes_instance}
use chainmaker.Prelude.Map.{lookup, insert, lookup-insert, lookup-insert_self}
use chainmaker.Prelude.Int.{ℤ, int_eq, int_eq_iff, int_instance}
use chainmaker.Prelude.Result.{ok, panic}
use chainmaker.Tbft.Validators.{ValidatorSet}
use chainmaker.Tbft.Vote.{Vote, VoteType, prevote, precommit, unknown, type_eq}
use chainmaker.Tbft.VoteSet
use chainmaker.Tbft.VoteSet.{VoteSet, new_vote_set, check_vote_matched}
use chainmaker.Tbft.Rounds.{
  prevotes, precommits, RoundVoteSet, HeightRoundVoteSet, AddedAt, add_round, get_vote_set,
  set_vote_set, add_to, add_to_new, add_vote, new_round_vote_set, store_in,
}

-- The types that the protocol names.
abbrev pub IsKnown : VoteType → Type 0
IsKnown t = (t ≡ prevote) ⊎ (t ≡ precommit)

abbrev pub set_of : VoteType → RoundVoteSet → VoteSet
set_of prevote rvs = rvs.prevotes
set_of precommit rvs = rvs.precommits
set_of (unknown n) rvs = rvs.precommits

-- The set of a round and type: an empty one, where the map has no such round.
unfoldable pub vote_set_at : ℤ → VoteType → HeightRoundVoteSet → VoteSet
vote_set_at round t hvs = elim (lookup round hvs.round_vote_sets) [
  | none ↦ new_vote_set t hvs.height round
  | some rvs ↦ set_of t rvs
]

pub get_vote_set_lem :
    (hvs : HeightRoundVoteSet) (round : ℤ) (t : VoteType) (rvs : RoundVoteSet)
    → IsKnown t
    → lookup round hvs.round_vote_sets ≡ some rvs
    → get_vote_set round t hvs ≡ ok (some (vote_set_at round t hvs))
unfolding get_vote_set vote_set_at
get_vote_set_lem hvs round t rvs (inl p) here = rw p (ground arith)
get_vote_set_lem hvs round t rvs (inr p) here = rw p (ground arith)

pub prevotes_total :
    (round : ℤ) (hvs : HeightRoundVoteSet) → (vs : Option VoteSet) × (prevotes round hvs ≡ ok vs)
unfolding prevotes get_vote_set
prevotes_total round hvs = elim (Option-cases (lookup round hvs.round_vote_sets)) [
  | inl absent ↦ (none, ground arith)
  | inr (rvs, here) ↦ (some rvs.prevotes, ground arith)
]

pub precommits_total :
    (round : ℤ) (hvs : HeightRoundVoteSet) → (vs : Option VoteSet) × (precommits round hvs ≡ ok vs)
unfolding precommits get_vote_set
precommits_total round hvs = elim (Option-cases (lookup round hvs.round_vote_sets)) [
  | inl absent ↦ (none, ground arith)
  | inr (rvs, here) ↦ (some rvs.precommits, ground arith)
]

set_of-store_in :
    (t u : VoteType) (vs : VoteSet) (rvs : RoundVoteSet)
    → IsKnown t
    → IsKnown u
    → set_of u (store_in t vs rvs) ≡ (if type_eq t u then vs else set_of u rvs)
unfolding type_eq
set_of-store_in t u vs rvs (inl p) (inl q) = rw (p, q)
set_of-store_in t u vs rvs (inl p) (inr q) = rw (p, q)
set_of-store_in t u vs rvs (inr p) (inl q) = rw (p, q)
set_of-store_in t u vs rvs (inr p) (inr q) = rw (p, q)

vote_set_at-set_vote_set :
    (hvs : HeightRoundVoteSet) (round at : ℤ) (t u : VoteType) (vs : VoteSet) (rvs : RoundVoteSet)
    → IsKnown t
    → IsKnown u
    → lookup round hvs.round_vote_sets ≡ some rvs
    → vote_set_at at u (set_vote_set round t vs hvs)
      ≡ (if int_eq round at && type_eq t u then vs else vote_set_at at u hvs)
unfolding set_vote_set vote_set_at
vote_set_at-set_vote_set hvs round at t u vs rvs kt ku here = ground (
  arith,
  here,
  lookup-insert round at (store_in t vs rvs) hvs.round_vote_sets,
  int_eq_iff round at,
  set_of-store_in t u vs rvs kt ku,
)

-- A new round has two empty sets, which the view shows before too.
add_round_lem :
    (hvs : HeightRoundVoteSet) (round : ℤ)
    → lookup round hvs.round_vote_sets ≡ none
    → (g : HeightRoundVoteSet) × (rvs : RoundVoteSet) × (add_round round hvs ≡ ok g)
      × (lookup round g.round_vote_sets ≡ some rvs)
      × (g.height ≡ hvs.height)
      × ((at : ℤ) (u : VoteType) → IsKnown u → vote_set_at at u g ≡ vote_set_at at u hvs)
unfolding add_round vote_set_at new_round_vote_set
add_round_lem hvs round absent =
    let rvs =
      new_round_vote_set hvs.height round (new_vote_set prevote hvs.height round)
        (new_vote_set precommit hvs.height round) in
    (
      record hvs { round_vote_sets = insert round rvs hvs.round_vote_sets },
      rvs,
      ground arith,
      lookup-insert_self round rvs hvs.round_vote_sets,
      refl,
      λ at u known. elim known [
        | inl p ↦ rw p (
            ground
              (arith, absent, lookup-insert round at rvs hvs.round_vote_sets, int_eq_iff round at))
        | inr p ↦ rw p (
            ground
              (arith, absent, lookup-insert round at rvs hvs.round_vote_sets, int_eq_iff round at))
      ],
    )

module _ (validators : Option ValidatorSet) (vote : Vote) (hvs : HeightRoundVoteSet) where
  abbrev pub outcome : VoteSet.Added
  outcome = VoteSet.add_vote validators (some vote) true (vote_set_at vote.round vote.type hvs)

  -- The call returns what `AddVote` returns, and stores its set where the vote belongs.
  pub record RoutesTo (r : AddedAt) : Type 0 where
    pub added : r.added ≡ outcome.added
    pub error : r.error ≡ outcome.error
    pub height : r.hvs.height ≡ hvs.height
    pub sets :
        (round : ℤ) (t : VoteType)
        → IsKnown t
        → vote_set_at round t r.hvs ≡ (
            if int_eq vote.round round && type_eq vote.type t
            then outcome.vote_set
            else vote_set_at round t hvs)

  add_to_lem :
      (g : HeightRoundVoteSet) (rvs : RoundVoteSet)
      → IsKnown vote.type
      → lookup vote.round g.round_vote_sets ≡ some rvs
      → g.height ≡ hvs.height
      → ((at : ℤ) (u : VoteType) → IsKnown u → vote_set_at at u g ≡ vote_set_at at u hvs)
      → (r : AddedAt) × (add_to validators vote g (some (vote_set_at vote.round vote.type g))
          ≡ ok r)
        × RoutesTo r
  unfolding add_to
  add_to_lem g rvs known here height same =
      let vs = outcome.vote_set in
      (
        record {
          hvs = set_vote_set vote.round vote.type vs g;
          added = outcome.added;
          error = outcome.error;
        },
        rw (same vote.round vote.type known),
        record {
          added = refl;
          error = refl;
          height = unfold set_vote_set in ground arith;
          sets = λ round t kt. rw (
            vote_set_at-set_vote_set g vote.round round vote.type t vs rvs known kt here,
            same round t kt,
          );
        },
      )

  -- `addVote` of a vote whose type has a name does not panic. It returns what `AddVote` returns on
  -- the set of the vote's round and type, stores the result there, and leaves all other sets.
  pub add_vote_lem :
      IsKnown vote.type → (r : AddedAt) × (add_vote validators vote hvs ≡ ok r) × RoutesTo r
  unfolding add_vote add_to_new
  add_vote_lem known = elim (Option-cases (lookup vote.round hvs.round_vote_sets)) [
    | inr (rvs, here) ↦
        rw (get_vote_set_lem hvs vote.round vote.type rvs known here)
          (add_to_lem hvs rvs known here refl (λ at u ku. refl))
    | inl absent ↦
        let (g, rvs, grown, here, height, same) = add_round_lem hvs vote.round absent in
        let missing : get_vote_set vote.round vote.type hvs ≡ ok none =
          unfold get_vote_set in ground arith in
        rw (missing, grown, get_vote_set_lem g vote.round vote.type rvs known here)
          (add_to_lem g rvs known here height same)
  ]

  -- A vote whose type has no name makes `addVote` panic, whatever the state.
  pub add_vote-unknown : (n : ℤ) → vote.type ≡ unknown n → add_vote validators vote hvs ≡ panic
  unfolding add_vote add_to_new get_vote_set
  add_vote-unknown n e = elim (Option-cases (lookup vote.round hvs.round_vote_sets)) [
    | inr (rvs, here) ↦ ground arith
    | inl absent ↦
        let (g, rvs, grown, here, height, same) = add_round_lem hvs vote.round absent in
        ground (arith, grown, here)
  ]
