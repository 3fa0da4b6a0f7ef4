-- ===== src/Tbft/Engine/Position/Handlers.antt =====
-- The position of the engine only grows: votes and timeouts.
use chainmaker.Prelude.{◌≡◌, inl, inr, not, ◌&&◌, ◌||◌, Option, none, some, arith}
use chainmaker.Prelude.Tests.{Bool-cases, Option-cases}
use chainmaker.Prelude.Int.{ℤ, ◌≤ℤ◌, int_eq}
use chainmaker.Prelude.Result.{ok, bind_ok}
use chainmaker.Tbft.Vote.{Vote, Slice, nil_hash, is_nil_hash, slice_eq}
use chainmaker.Tbft.VoteSet.{VoteSet, two_thirds_majority}
use chainmaker.Tbft.Rounds.Routing.{prevotes_total, precommits_total}
use chainmaker.Tbft.State.{ConsensusState, step_eq, prevote, precommit}
use chainmaker.Tbft.Engine.{Engine, Env, set_state}
use chainmaker.Tbft.Engine.Steps.{enter_precommit}
use chainmaker.Tbft.Vote.{VoteType, unknown}
use chainmaker.Tbft.Vote
use chainmaker.Tbft.VoteSet.{has_two_thirds_any}
use chainmaker.Tbft.State.{TbftProposal}
use chainmaker.Tbft.Engine.Votes.{
  votes_for, unlock_on, update_valid, prevote_undecided, prevote_decided, prevote_in,
  add_prevote_vote, precommit_undecided, precommit_decided, precommit_in, add_precommit_vote,
  dispatch_vote,
}
use chainmaker.Tbft.Engine.Position.{Grows, SamePlace, Grows-eq, Grows-same, Grows-trans}
use chainmaker.Tbft.Engine.Position.Commits.{enter_precommit-Grows, enter_commit-Grows}

pub int_le_self : (a : ℤ) → a ≤ℤ a
int_le_self a = omega arith

unlock_on_keeps :
    (hash : Slice) (round : ℤ) (s : ConsensusState) → SamePlace s (unlock_on hash round s)
unfolding unlock_on
unlock_on_keeps hash round s = (ground arith, ground arith, ground arith)

update_valid_keeps :
    (hash : Slice) (round : ℤ) (vs : VoteSet) (p : TbftProposal) (s : ConsensusState)
    {s' : ConsensusState}
    → update_valid hash round vs p s ≡ ok s'
    → SamePlace s s'
unfolding update_valid votes_for
update_valid_keeps hash round vs p s done = (ground arith, ground arith, ground arith)

prevote_undecided-Grows :
    (env : Env) (round : ℤ) (vs : Option VoteSet) (e : Engine) {e' : Engine}
    → prevote_undecided env round vs e ≡ ok e'
    → Grows e.state e'.state
unfolding prevote_undecided
prevote_undecided-Grows env round vs e {e'} done =
    elim (Bool-cases (int_eq e.state.round round && has_two_thirds_any (some e.validator_set) vs)) [
      | inl lost ↦
          enter_precommit-Grows env e.state.height e.state.round e {e' = e'}
            (int_le_self e.state.round) (ground arith)
      | inr undecided ↦ Grows-eq _ _ (ground arith)
    ]

prevote_decided-Grows :
    (env : Env) (hash : Slice) (round : ℤ) (vs : VoteSet) (e : Engine) {e' : Engine}
    → prevote_decided env hash round vs e ≡ ok e'
    → Grows e.state e'.state
unfolding prevote_decided
prevote_decided-Grows env hash round vs e {e'} done =
    let s = unlock_on hash round e.state in
    Grows-trans e.state s e'.state (Grows-same _ _ (unlock_on_keeps hash round e.state))
      (elim (Option-cases s.proposal) [
        | inl absent ↦
            enter_precommit-Grows env s.height s.round (set_state s e) {e' = e'}
              (int_le_self s.round) (ground arith)
        | inr (p, here) ↦
            let (u, valid, rest) =
              bind_ok (update_valid hash round vs p s)
                (λ u. enter_precommit env u.height u.round (set_state u e)) {end = e'}
                (ground arith) in
            Grows-trans s u e'.state (Grows-same _ _ (update_valid_keeps hash round vs p s valid)) (
              enter_precommit-Grows env u.height u.round (set_state u e) (int_le_self u.round) rest)
      ])

prevote_in-Grows :
    (env : Env) (round : ℤ) (vs : Option VoteSet) (e : Engine) {e' : Engine}
    → prevote_in env round vs e ≡ ok e'
    → Grows e.state e'.state
unfolding prevote_in
prevote_in-Grows env round none e done = prevote_undecided-Grows env round none e done
prevote_in-Grows env round (some vs) e {e'} done =
    let p = two_thirds_majority (some vs) in
    elim (Bool-cases (not p.1 || not (int_eq vs.round e.state.round))) [
      | inl undecided ↦ prevote_undecided-Grows env round (some vs) e {e' = e'} (ground arith)
      | inr won ↦ prevote_decided-Grows env p.0 round vs e {e' = e'} (ground arith)
    ]

precommit_undecided-Grows :
    (env : Env) (round : ℤ) (vs : Option VoteSet) (e : Engine) {e' : Engine}
    → precommit_undecided env round vs e ≡ ok e'
    → Grows e.state e'.state
unfolding precommit_undecided
precommit_undecided-Grows env round vs e {e'} done =
    elim (Bool-cases (int_eq e.state.round round && has_two_thirds_any (some e.validator_set) vs)) [
      | inl lost ↦
          enter_commit-Grows env e.state.height e.state.round e {e' = e'}
            (int_le_self e.state.round) (ground arith)
      | inr undecided ↦ Grows-eq _ _ (ground arith)
    ]

precommit_decided-Grows :
    (env : Env) (hash : Slice) (e : Engine) {e' : Engine}
    → precommit_decided env hash e ≡ ok e'
    → Grows e.state e'.state
unfolding precommit_decided
precommit_decided-Grows env hash e {e'} done = elim (Option-cases e.state.proposal) [
  | inl absent ↦
      enter_commit-Grows env e.state.height e.state.round e {e' = e'} (int_le_self e.state.round)
        (ground arith)
  | inr (p, here) ↦
      elim (Bool-cases (is_nil_hash hash || slice_eq hash p.pb_msg.block.block_hash)) [
        | inl enters ↦
            enter_commit-Grows env e.state.height e.state.round e {e' = e'}
              (int_le_self e.state.round) (ground arith)
        | inr stays ↦ Grows-eq _ _ (ground arith)
      ]
]

precommit_in-Grows :
    (env : Env) (round : ℤ) (vs : Option VoteSet) (e : Engine) {e' : Engine}
    → precommit_in env round vs e ≡ ok e'
    → Grows e.state e'.state
unfolding precommit_in
precommit_in-Grows env round none e done = precommit_undecided-Grows env round none e done
precommit_in-Grows env round (some vs) e {e'} done =
    let p = two_thirds_majority (some vs) in
    elim (Bool-cases (not p.1 || not (int_eq vs.round e.state.round))) [
      | inl undecided ↦ precommit_undecided-Grows env round (some vs) e {e' = e'} (ground arith)
      | inr won ↦ precommit_decided-Grows env p.0 e {e' = e'} (ground arith)
    ]

pub dispatch_vote-Grows :
    (env : Env) (t : VoteType) (vote : Vote) (e : Engine) {e' : Engine}
    → dispatch_vote env t vote e ≡ ok e'
    → Grows e.state e'.state
unfolding dispatch_vote add_prevote_vote add_precommit_vote
dispatch_vote-Grows env Vote.prevote vote e {e'} done =
    let (vs, at) = prevotes_total vote.round e.state.height_round_vote_set in
    elim (Bool-cases (step_eq e.state.step prevote)) [
      | inl here ↦ prevote_in-Grows env vote.round vs e {e' = e'} (ground (arith, at))
      | inr other ↦ Grows-eq _ _ (ground arith)
    ]
dispatch_vote-Grows env Vote.precommit vote e {e'} done =
    let (vs, at) = precommits_total vote.round e.state.height_round_vote_set in
    elim (Bool-cases (step_eq e.state.step precommit)) [
      | inl here ↦ precommit_in-Grows env vote.round vs e {e' = e'} (ground (arith, at))
      | inr other ↦ Grows-eq _ _ (ground arith)
    ]
dispatch_vote-Grows env (unknown n) vote e done = Grows-eq _ _ (ground arith)
