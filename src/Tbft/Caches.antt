-- ===== src/Tbft/Caches.antt =====
-- consensus-tbft-master/state.go: the cache of past states and the cache of future messages.
pub mod Counting
pub mod Past
use chainmaker.Prelude.{ℕ, ◌+◌, ◌%◌, Bool, true, false, not, ◌||◌, Option, none, some, []}
use chainmaker.Prelude.Tests.{ltb, leb, nat_eq, if◌then◌else◌}
use chainmaker.Prelude.Eq.{nat_instance}
use chainmaker.Prelude.Map.{Map, lookup, insert, discard}
use chainmaker.Prelude.Int.{ℤ, int_instance, u64}
use chainmaker.Prelude.Result.{Result, ok, err, panic, ◌>>=◌}
use chainmaker.Tbft.Validators.{ValidatorSet}
use chainmaker.Tbft.Vote.{Vote}
use chainmaker.Tbft.Rounds
use chainmaker.Tbft.Rounds.{
  HeightRoundVoteSet, RoundVoteSet, new_height_round_vote_set, get_round_vote_set,
}
use chainmaker.Tbft.State.{ConsensusState, Proposal}

-- `consensusStateCache`
pub record StateCache : Type 0 where
  pub size : ℕ
  pub cache : Map ℕ ConsensusState

unfoldable pub new_state_cache : ℕ → StateCache
new_state_cache size = record { size = size; cache = [] }

-- `gc` of the state cache: drops every height k with k + size ≤ height, in uint64 arithmetic.
unfoldable pub gc_states : ℕ → StateCache → StateCache
gc_states height c = record c { cache = discard (λ k. leb (u64 (k + c.size)) height) c.cache }

unfoldable pub add_consensus_state : Option ConsensusState → StateCache → StateCache
add_consensus_state none c = c
add_consensus_state (some state) c =
    if leb state.height 0
    then c
    else gc_states state.height (record c { cache = insert state.height state c.cache })

unfoldable pub get_consensus_state : ℕ → StateCache → Option ConsensusState
get_consensus_state height c = lookup height c.cache

pub record FutureMsg : Type 0 where
  pub proposal : Map ℤ Proposal
  pub height_round_vote_set : HeightRoundVoteSet

unfoldable pub new_future_msg : ℕ → ℤ → FutureMsg
new_future_msg height round = record {
  proposal = [];
  height_round_vote_set = new_height_round_vote_set height round;
}

-- `ConsensusFutureMsgCache`
pub record FutureCache : Type 0 where
  pub size : ℕ
  pub consensus_height : ℕ
  pub cache : Map ℕ FutureMsg

unfoldable pub new_future_cache : ℕ → ℕ → FutureCache
new_future_cache size height = record { size = size; consensus_height = height; cache = [] }

-- `gc` of the future cache: works only at multiples of ten.
unfoldable pub gc_future : FutureCache → FutureCache
gc_future c =
    if not (nat_eq (c.consensus_height % 10) 0)
    then c
    else record c { cache = discard (λ k. ltb k c.consensus_height) c.cache }

unfoldable pub update_consensus_height : ℕ → FutureCache → FutureCache
update_consensus_height height c = gc_future (record c { consensus_height = height })

-- The entry of a height: a new one, where the map has none.
abbrev pub msg_or_new : ℕ → ℤ → Option FutureMsg → FutureMsg
msg_or_new height round none = new_future_msg height round
msg_or_new height round (some msg) = msg

unfoldable pub add_future_proposal : Proposal → FutureCache → FutureCache
add_future_proposal p c =
    if ltb (u64 (c.consensus_height + c.size)) p.height || ltb p.height c.consensus_height
    then c
    else let msg = msg_or_new p.height p.round (lookup p.height c.cache) in
      record c {
        cache = insert p.height (record msg { proposal = insert p.round p msg.proposal }) c.cache;
      }

-- An error of `addVote` is only logged.
unfoldable pub add_future_vote : Option ValidatorSet → Vote → FutureCache → Result FutureCache
add_future_vote validators vote c =
    if ltb (u64 (c.consensus_height + c.size)) vote.height || leb vote.height c.consensus_height
    then ok c
    else let msg = msg_or_new vote.height vote.round (lookup vote.height c.cache) in
      do
        r ← Rounds.add_vote validators vote msg.height_round_vote_set
        ok (record c {
          cache = insert vote.height (record msg { height_round_vote_set = r.hvs }) c.cache;
        })

unfoldable pub get_future_proposal : ℕ → ℤ → FutureCache → Option Proposal
get_future_proposal height round c = elim (lookup height c.cache) [
  | none ↦ none
  | some msg ↦ lookup round msg.proposal
]

unfoldable pub get_future_vote : ℕ → ℤ → FutureCache → Option RoundVoteSet
get_future_vote height round c = elim (lookup height c.cache) [
  | none ↦ none
  | some msg ↦ get_round_vote_set round msg.height_round_vote_set
]
