-- ===== src/Tbft/Tests.antt =====
-- Concrete validators, votes and sets, and in the child modules tests of the definitions of
-- consensus-tbft-master on them.
pub mod Sets
pub mod Others
pub mod Machine
pub mod Certificates
pub mod RoundCertificates
use chainmaker.Prelude.{ℕ, ◌<◌, Option, none, some, List, [], ◌∷◌, true, arith, ◌≡◌, refl}
use chainmaker.Prelude.Lists.{length}
use chainmaker.Prelude.Eq.{Bytes}
use chainmaker.Prelude.Int.{ℤ, pos}
use chainmaker.Tbft.Validators.{ValidatorSet}
use chainmaker.Tbft.Vote.{Vote, VoteType, prevote, precommit, Slice, nil, bytes}
use chainmaker.Tbft.VoteSet.{VoteSet, new_vote_set}
use chainmaker.Tbft.VoteSet.Invariant.{IsValid, new_vote_set-IsValid}
use chainmaker.Tbft.VoteSet.Adding.{add_votes, add_votes-IsValid}

-- Four validators, of which f = 1 may fail: a quorum is three.
abbrev pub four : ValidatorSet
four = record {
  validators = (1 ∷ []) ∷ (2 ∷ []) ∷ (3 ∷ []) ∷ (4 ∷ []) ∷ [];
  validators_height = ((1 ∷ []), 7) ∷ ((2 ∷ []), 6) ∷ [];
  validators_beat_time = [];
  blocks_per_proposer = 1;
}

abbrev pub vote_of : VoteType → ℕ → Bytes → List Bytes → Vote
vote_of type voter hash invalid_txs = record {
  type = type;
  voter = voter ∷ [];
  height = 5;
  round = pos 0;
  hash = bytes hash;
  invalid_txs = invalid_txs;
  endorsement = [];
}

abbrev pub empty_set : VoteSet
empty_set = new_vote_set prevote 5 (pos 0)

-- A vote of a stranger, and a second vote of the first validator, stand between the three votes.
abbrev pub some_votes : List (Option Vote)
some_votes =
    some (vote_of prevote 1 (9 ∷ []) [])
    ∷ some (vote_of prevote 8 (9 ∷ []) [])
    ∷ none
    ∷ some (vote_of prevote 1 (7 ∷ []) [])
    ∷ some (vote_of prevote 2 (9 ∷ []) [])
    ∷ some (vote_of prevote 3 (9 ∷ []) [])
    ∷ []

abbrev pub three_votes : VoteSet
three_votes = add_votes four true some_votes empty_set

abbrev pub split_votes : VoteSet
split_votes =
    add_votes four true
      (some (vote_of prevote 1 (9 ∷ []) [])
        ∷ some (vote_of prevote 2 (8 ∷ []) [])
        ∷ some (vote_of prevote 3 (7 ∷ []) [])
        ∷ [])
      empty_set

pub empty_set-IsValid : IsValid four empty_set
empty_set-IsValid = new_vote_set-IsValid four prevote 5 (pos 0) (omega arith)

pub three_votes-IsValid : IsValid four three_votes
three_votes-IsValid = add_votes-IsValid four true some_votes empty_set empty_set-IsValid

pub split_votes-IsValid : IsValid four split_votes
split_votes-IsValid = add_votes-IsValid four true _ empty_set empty_set-IsValid
