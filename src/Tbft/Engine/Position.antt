-- ===== src/Tbft/Engine/Position.antt =====
-- The position of the engine, its round and step at a height, only grows: the steps.
pub mod Commits
pub mod Handlers
pub mod Messages
pub mod Once
use chainmaker.Prelude.{
  ℕ, ◌+◌, ◌≤◌, ◌<◌, ◌≡◌, refl, sym, ap, ◌∙◌, ◌⊎◌, inl, inr, Bool, true, false, not, ◌&&◌, ◌||◌,
  Option, none, some, [], ◌∷◌, arith,
}
use chainmaker.Prelude.Tests.{if◌then◌else◌, ltb, nat_eq, Bool-cases, Option-cases}
use chainmaker.Prelude.Eq.{Bytes}
use chainmaker.Prelude.Map.{Map}
use chainmaker.Prelude.Int.{ℤ, ◌≤ℤ◌, ◌<ℤ◌, int_eq, int_eq_iff, ltb_ℤ, add32, pos}
use chainmaker.Prelude.Result.{Result, ok, err, panic, ◌>>=◌, bind_ok}
use chainmaker.Tbft.Validators.{validator_height}
use chainmaker.Tbft.Vote.{Vote, Slice}
use chainmaker.Tbft.VoteSet.{VoteSet, two_thirds_majority}
use chainmaker.Tbft.Rounds.{RoundVoteSet}
use chainmaker.Tbft.Rounds.Routing.{prevotes_total, precommits_total}
use chainmaker.Tbft.State.{
  ConsensusState, Proposal, Step, step_eq, new_height, step_no, propose, prevote, precommit, commit,
  new_round,
}
use chainmaker.Tbft.Caches.{get_future_proposal, get_future_vote}
use chainmaker.Tbft.Engine.{
  Engine, Env, emit, add_timeout, stop_optimal_timer, set_state, put_internal, ConsensusMsg,
  msg_propose, msg_prevote, msg_precommit,
}
use chainmaker.Tbft.Engine.Timeouts.{proposer_of, is_proposer, get_propose_timeout}
use chainmaker.Tbft.Engine.Steps.{cannot_enter, enter_prevote, enter_precommit, precommit_on}
use chainmaker.Tbft.Engine.NewRound.{
  put_external, put_votes, put_proposal, put_round, get_future_msg_from_cache, offer_valid_proposal,
  propose_as, propose_in, enter_propose, enter_new_round, read_chain,
}
use chainmaker.Tbft.Engine.Commit.{
  take_locked, finish_commit, commit_on, enter_commit, commit_to_core,
}
use chainmaker.Tbft.Engine.Locks.{enter_precommit_lem}

-- The height is the same, and the round is greater, or the same with no lower step.
pub record Grows (s s' : ConsensusState) : Type 0 where
  pub height : s'.height ≡ s.height
  pub later : (s.round <ℤ s'.round) ⊎ (s.round ≡ s'.round) × (step_no s.step ≤ step_no s'.step)

abbrev pub SamePlace : ConsensusState → ConsensusState → Type 0
SamePlace s s' = (s'.height ≡ s.height) × (s'.round ≡ s.round) × (s'.step ≡ s.step)

pub Grows-same : (s s' : ConsensusState) → SamePlace s s' → Grows s s'
Grows-same s s' (h, r, st) = record {
  height = h;
  later = inr (sym r, ground (arith, ap step_no st));
}

pub Grows-eq : (s s' : ConsensusState) → s' ≡ s → Grows s s'
Grows-eq s s' e = record {
  height = ap (λ x. x.height) e;
  later = inr (sym (ap (λ x. x.round) e), ground (arith, ap (λ x. step_no x.step) e));
}

pub Grows-step :
    (s s' : ConsensusState) (to : Step)
    → s' ≡ record s { step = to }
    → step_no s.step ≤ step_no to
    → Grows s s'
Grows-step s s' to e le = rw e (record { height = refl; later = inr (refl, le) })

pub Grows-trans : (s t u : ConsensusState) → Grows s t → Grows t u → Grows s u
Grows-trans s t u g h = record {
  height = h.height ∙ g.height;
  later = elim g.later [
    | inl a ↦ elim h.later [ inl b ↦ inl (omega arith) | inr (e, b) ↦ inl (rw (← e) a) ]
    | inr (d, a) ↦ elim h.later [ inl b ↦ inl (rw d b) | inr (e, b) ↦ inr (d ∙ e, omega arith) ]
  ];
}

int_le_antisym : (a b : ℤ) → a ≤ℤ b → ltb_ℤ a b ≡ false → a ≡ b
int_le_antisym a b h e = ground arith

pub entered :
    (from : Step) (height : ℕ) (round : ℤ) (s : ConsensusState)
    → cannot_enter from height round s ≡ false
    → round ≤ℤ s.round
    → (s.height ≡ height) × (s.round ≡ round) × (step_no s.step ≡ step_no from)
unfolding cannot_enter
entered from height round s may le =
    let same : round ≡ s.round = int_le_antisym round s.round le (ground arith) in
    (ground arith, sym same, ground (arith, (int_eq_iff s.round round).1 (sym same)))

pub enter_prevote-Grows :
    (env : Env) (height : ℕ) (round : ℤ) (e : Engine)
    → round ≤ℤ e.state.round
    → Grows e.state (enter_prevote env height round e).state
unfolding enter_prevote put_internal
enter_prevote-Grows env height round e le =
    elim (Bool-cases (cannot_enter propose height round e.state)) [
      | inl refused ↦ Grows-same _ _ (ground arith, ground arith, ground arith)
      | inr may ↦
          let (h, r, st) = entered propose height round e.state may le in
          record { height = ground arith; later = inr (ground arith, ground (arith, st)) }
    ]

put_external_keeps :
    (m : ConsensusMsg) (sink : Engine × Bool) → (put_external m sink).0.state ≡ sink.0.state
unfolding put_external
put_external_keeps m (e, going) = ground arith

put_votes_keeps :
    (wrap : Vote → ConsensusMsg) (votes : Map Bytes Vote) (sink : Engine × Bool)
    → (put_votes wrap votes sink).0.state ≡ sink.0.state
unfolding put_votes
put_votes_keeps wrap [] sink = refl
put_votes_keeps wrap ((k, v) ∷ votes) sink =
    put_votes_keeps wrap votes (put_external (wrap v) sink) ∙ put_external_keeps (wrap v) sink

put_proposal_keeps :
    (p : Option Proposal) (sink : Engine × Bool) → (put_proposal p sink).0.state ≡ sink.0.state
put_proposal_keeps none sink = refl
put_proposal_keeps (some p) sink = put_external_keeps (msg_propose p) sink

put_round_keeps :
    (rvs : Option RoundVoteSet) (sink : Engine × Bool) → (put_round rvs sink).0.state ≡ sink.0.state
put_round_keeps none sink = refl
put_round_keeps (some rvs) sink =
    put_votes_keeps msg_precommit rvs.precommits.votes
      (put_votes msg_prevote rvs.prevotes.votes sink)
    ∙ put_votes_keeps msg_prevote rvs.prevotes.votes sink

get_future_msg_from_cache_keeps :
    (height : ℕ) (round : ℤ) (e : Engine)
    → (get_future_msg_from_cache height round e).state ≡ e.state
unfolding get_future_msg_from_cache
get_future_msg_from_cache_keeps height round e =
    let sink = put_proposal (get_future_proposal height round e.future_cache) (e, true) in
    put_round_keeps (get_future_vote height round e.future_cache) sink
    ∙ put_proposal_keeps (get_future_proposal height round e.future_cache) (e, true)

propose_as_keeps : (b : Bool) (e : Engine) → (propose_as b e).0.state ≡ e.state
unfolding propose_as offer_valid_proposal
propose_as_keeps true e = ground arith
propose_as_keeps false e = refl

get_propose_timeout_keeps :
    (env : Env) (v : Bytes) (b height : ℕ) (round : ℤ) (e : Engine)
    → (get_propose_timeout env v b height round e).1.state ≡ e.state
unfolding get_propose_timeout
get_propose_timeout_keeps env v b height round e = ground arith

pub propose_in_keeps :
    (env : Env) (height : ℕ) (round : ℤ) (e : Engine) {e' : Engine}
    → propose_in env height round e ≡ ok e'
    → e'.state ≡ e.state
unfolding propose_in
propose_in_keeps env height round e {e'} done =
    let (v, a, rest) = bind_ok (proposer_of height round e) _ done in
    let timed = get_propose_timeout env v (validator_height e.validator_set v) height round e in
    let waiting = emit (add_timeout timed.0 height round prevote) timed.1 in
    let (b, c, last) = bind_ok (is_proposer height round waiting) _ rest in
    let p = propose_as b waiting in
    ground (
      arith,
      last,
      get_future_msg_from_cache_keeps p.0.state.height p.0.state.round p.0,
      propose_as_keeps b waiting,
      get_propose_timeout_keeps env v (validator_height e.validator_set v) height round e,
    )

enter_propose-Grows :
    (env : Env) (height : ℕ) (round : ℤ) (e : Engine) {e' : Engine}
    → step_no e.state.step ≤ 1
    → enter_propose env height round e ≡ ok e'
    → Grows e.state e'.state
unfolding enter_propose
enter_propose-Grows env height round e {e'} low done =
    elim (Bool-cases (cannot_enter new_round height round e.state)) [
      | inl refused ↦ Grows-eq _ _ (ground arith)
      | inr may ↦
          Grows-step _ _ propose
            (propose_in_keeps env height round
              (set_state (record e.state { step = propose }) (emit stop_optimal_timer e)) {e' = e'}
              (ground arith))
            (omega arith)
    ]

-- The state that `enterNewRound` makes of a state that it does not refuse.
abbrev fresh_round : ℕ → ℤ → ConsensusState → ConsensusState
fresh_round height round s = record s {
  height = height;
  round = round;
  step = new_round;
  proposal = none;
  verifing_proposal = none;
}

fresh_round-Grows :
    (round : ℤ) (s : ConsensusState)
    → (ltb_ℤ round s.round || (int_eq s.round round && not (step_eq s.step new_height))) ≡ false
    → Grows s (fresh_round s.height round s)
fresh_round-Grows round s may = record {
  height = refl;
  later = elim (Bool-cases (ltb_ℤ s.round round)) [
    | inl more ↦ inl (ground arith)
    | inr less ↦
        let same : s.round ≡ round = int_le_antisym s.round round (ground arith) less in
        inr (same, ground (arith, (int_eq_iff s.round round).1 same))
  ];
}

-- `enterNewRound` at the height of the engine.
pub enter_new_round-Grows :
    (env : Env) (round : ℤ) (e : Engine) {e' : Engine}
    → enter_new_round env e.state.height round e ≡ ok e'
    → Grows e.state e'.state
unfolding enter_new_round
enter_new_round-Grows env round e {e'} done =
    let s = e.state in
    elim (Bool-cases
      (ltb_ℤ round s.round || (int_eq s.round round && not (step_eq s.step new_height)))) [
        | inl refused ↦ Grows-eq _ _ (ground arith)
        | inr may ↦
            Grows-trans s (fresh_round s.height round s) e'.state (fresh_round-Grows round s may) (
              enter_propose-Grows env s.height round
                (record (read_chain env e) {
                  state = fresh_round s.height round s;
                  invalid_txs = [];
                })
                {e' = e'} (omega arith) (ground arith))
      ]
