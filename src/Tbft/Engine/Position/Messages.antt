-- ===== src/Tbft/Engine/Position/Messages.antt =====
-- The position of the engine only grows: the handlers of vote messages and of timeouts.
use chainmaker.Prelude.{
  ℕ, ◌≡◌, refl, ap, inl, inr, Bool, false, not, ◌&&◌, Option, none, some, arith,
}
use chainmaker.Prelude.Tests.{ltb, nat_eq, Bool-cases, Option-cases}
use chainmaker.Prelude.Eq.{bytes_eq}
use chainmaker.Prelude.Int.{ℤ, ◌≤ℤ◌}
use chainmaker.Prelude.Result.{ok, bind_ok}
use chainmaker.Tbft.Vote.{Vote, Slice, nil_hash, is_nil_hash, slice_eq}
use chainmaker.Tbft.VoteSet.{VoteSet, two_thirds_majority}
use chainmaker.Tbft.Rounds.{RoundVoteSet}
use chainmaker.Tbft.Rounds.Routing.{prevotes_total}
use chainmaker.Tbft.State.{Proposal, TimeoutInfo, Step, prevote, precommit, commit}
use chainmaker.Tbft.Engine.{Engine, Env, emit, consensus_vote, set_state}
use chainmaker.Tbft.Engine.Steps.{enter_prevote}
use chainmaker.Prelude.Result.{Error}
use chainmaker.Tbft.Vote.{VoteType, unknown, type_eq}
use chainmaker.Tbft.Vote
use chainmaker.Tbft.Rounds
use chainmaker.Tbft.Rounds.{is_required, prevotes}
use chainmaker.Tbft.State.{TbftProposal}
use chainmaker.Tbft.Caches.{add_future_vote, get_consensus_state}
use chainmaker.Tbft.Engine.Votes.{
  fill_qc, save_wal_entry, log_proposal, save_proposal, dispatch_vote, send_own, after_vote,
  store_votes, add_vote,
}
use chainmaker.Tbft.Engine.Messages.{
  update_validator_height, proc_past_vote, proc_present_vote, proc_local_vote, is_late, add_when,
  add_if_required, proc_vote, enter_step, handle_timeout, store_past, broadcast_unless,
}
use chainmaker.Tbft.Engine.Position.{
  Grows, SamePlace, Grows-eq, Grows-same, Grows-trans, enter_prevote-Grows,
}
use chainmaker.Tbft.Engine.Position.Commits.{enter_precommit-Grows, enter_commit-Grows}
use chainmaker.Tbft.Engine.Position.Handlers.{dispatch_vote-Grows}

save_wal_entry_keeps : (entry : Proposal) (e : Engine) → (save_wal_entry entry e).state ≡ e.state
unfolding save_wal_entry
save_wal_entry_keeps entry e = elim (Bool-cases e.wal_writes) [
  | inl writes ↦ ground arith
  | inr off ↦ ground arith
]

log_proposal_keeps :
    (vs : Option VoteSet) (p : TbftProposal) (e : Engine) {e' : Engine}
    → log_proposal vs p e ≡ ok e'
    → SamePlace e.state e'.state
unfolding log_proposal
log_proposal_keeps none p e done = (ground arith, ground arith, ground arith)
log_proposal_keeps (some vs) p e {e'} done =
    let m = two_thirds_majority (some vs) in
    elim (Bool-cases (m.1 && not (slice_eq m.0 nil_hash))) [
      | inl logs ↦
          let (f, a, last) =
            bind_ok (fill_qc m.0 vs p)
              (λ f.
                ok (save_wal_entry f.pb_msg (set_state (record e.state { proposal = some f }) e)))
              {end = e'} (ground arith) in
          let kept =
            save_wal_entry_keeps f.pb_msg (set_state (record e.state { proposal = some f }) e) in
          (ground (arith, last, kept), ground (arith, last, kept), ground (arith, last, kept))
      | inr skips ↦ (ground arith, ground arith, ground arith)
    ]

save_proposal_keeps :
    (vote : Vote) (replay_mode : Bool) (e : Engine) {e' : Engine}
    → save_proposal vote replay_mode e ≡ ok e'
    → SamePlace e.state e'.state
unfolding save_proposal
save_proposal_keeps vote replay_mode e {e'} done =
    let (vs, at) = prevotes_total e.state.round e.state.height_round_vote_set in
    elim (Option-cases e.state.proposal) [
      | inl absent ↦ (ground arith, ground arith, ground arith)
      | inr (p, here) ↦
          elim (Bool-cases (
            type_eq vote.type Vote.precommit
            && not replay_mode
            && slice_eq p.pb_msg.block.block_hash vote.hash)) [
              | inl saves ↦ log_proposal_keeps vs p e {e' = e'} (ground (arith, at))
              | inr skips ↦ (ground arith, ground arith, ground arith)
            ]
    ]

send_own-Grows :
    (vote : Vote) (replay_mode : Bool) (e : Engine) {e' : Engine}
    → send_own vote replay_mode e ≡ ok e'
    → Grows e.state e'.state
unfolding send_own
send_own-Grows vote replay_mode e {e'} done = elim (Bool-cases (bytes_eq e.state.id vote.voter)) [
  | inl own ↦
      let (s, saved, last) =
        bind_ok (save_proposal vote replay_mode e) (λ s. ok (emit (consensus_vote vote) s))
          {end = e'} (ground arith) in
      let (h, r, st) = save_proposal_keeps vote replay_mode e saved in
      Grows-same _ _ (ground (arith, last, h), ground (arith, last, r), ground (arith, last, st))
  | inr other ↦ Grows-eq _ _ (ground arith)
]

after_vote-Grows :
    (env : Env) (vote : Vote) (replay_mode : Bool) (e : Engine) (end : Engine × Option Error)
    → after_vote env vote replay_mode e ≡ ok end
    → Grows e.state end.0.state
unfolding after_vote
after_vote-Grows env vote replay_mode e end ran =
    let (d, dispatched, rest) = bind_ok (dispatch_vote env vote.type vote e) _ ran in
    let (s, sent, last) = bind_ok (send_own vote replay_mode d) _ rest in
    let same : s ≡ end.0 = ground (arith, last) in
    Grows-trans e.state d.state end.0.state (dispatch_vote-Grows env vote.type vote e dispatched)
      (rw same at (send_own-Grows vote replay_mode d sent))

pub add_vote-Grows :
    (env : Env) (vote : Vote) (replay_mode : Bool) (e : Engine) (end : Engine × Option Error)
    → add_vote env vote replay_mode e ≡ ok end
    → Grows e.state end.0.state
unfolding add_vote
add_vote-Grows env vote replay_mode e end ran =
    let (r, added, rest) =
      bind_ok (Rounds.add_vote (some e.validator_set) vote e.state.height_round_vote_set) _ ran in
    elim (Option-cases r.error) [
      | inr (x, refused) ↦
          Grows-same _ _ (ground (arith, rest), ground (arith, rest), ground (arith, rest))
      | inl fine ↦
          Grows-trans e.state (store_votes r.hvs e).state end.0.state
            (Grows-same _ _ (refl, refl, refl))
            (after_vote-Grows env vote replay_mode (store_votes r.hvs e) end (ground (arith, rest)))
    ]

add_if_required-Grows :
    (env : Env) (vote : Vote) (e : Engine) {e' : Engine}
    → add_if_required env vote e ≡ ok e'
    → Grows e.state e'.state
unfolding add_if_required add_when
add_if_required-Grows env vote e {e'} ran =
    let (b, required, rest) =
      bind_ok
        (is_required (some e.validator_set) vote.round (some vote) e.state.height_round_vote_set) _
        ran in
    elim (Bool-cases (not b && not (bytes_eq vote.voter e.state.id))) [
      | inl skips ↦ Grows-eq _ _ (ground (arith, rest))
      | inr adds ↦
          let (end, added, last) =
            bind_ok (add_vote env vote false e) (λ a. ok a.0) {end = e'} (ground (arith, rest)) in
          let same : end.0 ≡ e' = ground (arith, last) in
          rw (← same) (add_vote-Grows env vote false e end added)
    ]

broadcast_unless_keeps :
    (error : Option Error) (vote : Vote) (e : Engine)
    → (broadcast_unless error vote e).state ≡ e.state
broadcast_unless_keeps none vote e = refl
broadcast_unless_keeps (some x) vote e = refl

proc_past_vote_keeps :
    (vote : Vote) (e : Engine) {e' : Engine} → proc_past_vote vote e ≡ ok e' → e'.state ≡ e.state
unfolding proc_past_vote
proc_past_vote_keeps vote e {e'} ran =
    elim (Option-cases (get_consensus_state vote.height e.state_cache)) [
      | inl absent ↦ ground arith
      | inr (past, here) ↦
          let (r, added, last) =
            bind_ok (Rounds.add_vote (some e.validator_set) vote past.height_round_vote_set)
              (λ r. ok (broadcast_unless r.error vote (store_past vote.height r.hvs past e)))
              {end = e'} (ground arith) in
          ground
            (arith, last, broadcast_unless_keeps r.error vote (store_past vote.height r.hvs past e))
    ]

proc_present_vote_keeps :
    (vote : Vote) (e : Engine) {e' : Engine}
    → proc_present_vote vote e ≡ ok e'
    → SamePlace e.state e'.state
unfolding proc_present_vote
proc_present_vote_keeps vote e {e'} ran =
    let (r, added, last) =
      bind_ok (Rounds.add_vote (some e.validator_set) vote e.state.height_round_vote_set) _ ran in
    let kept = broadcast_unless_keeps r.error vote (store_votes r.hvs e) in
    let same : broadcast_unless r.error vote (store_votes r.hvs e) ≡ e' = ground (arith, last) in
    let k : e'.state ≡ (store_votes r.hvs e).state = rw same at kept in
    (ap (λ s. s.height) k, ap (λ s. s.round) k, ap (λ s. s.step) k)

proc_local_vote_keeps :
    (vote : Vote) (e : Engine) {e' : Engine}
    → proc_local_vote vote e ≡ ok e'
    → SamePlace e.state e'.state
unfolding proc_local_vote
proc_local_vote_keeps vote e {e'} ran = elim (Bool-cases (bytes_eq vote.voter e.state.id)) [
  | inr other ↦ (ground arith, ground arith, ground arith)
  | inl own ↦ elim (Bool-cases (nat_eq vote.height e.state.height)) [
    | inl present ↦ proc_present_vote_keeps vote e {e' = e'} (ground arith)
    | inr past ↦
        let k : e'.state ≡ e.state = proc_past_vote_keeps vote e {e' = e'} (ground arith) in
        (ap (λ s. s.height) k, ap (λ s. s.round) k, ap (λ s. s.step) k)
  ]
]

-- `procPrevote` and `procPrecommit`, where they return: whatever the vote, the height stays, and
-- the round and step only grow.
pub proc_vote-Grows :
    (step : Step) (env : Env) (vote : Vote) (e : Engine) {e' : Engine}
    → proc_vote step env vote e ≡ ok e'
    → Grows e.state e'.state
unfolding proc_vote
proc_vote-Grows step env vote e {e'} ran =
    let d = update_validator_height env vote e in
    let same : d.state ≡ e.state = unfold update_validator_height in refl in
    elim (Bool-cases (ltb d.state.height vote.height)) [
      | inl future ↦
          let (f, added, last) =
            bind_ok (add_future_vote (some d.validator_set) vote d.future_cache)
              (λ f. ok (record d { future_cache = f })) {end = e'} (ground arith) in
          Grows-eq _ _ (ground (arith, last, same))
      | inr now ↦ elim (Bool-cases (is_late step vote d.state)) [
        | inl late ↦
            rw same at
              (Grows-same d.state e'.state (proc_local_vote_keeps vote d {e' = e'} (ground arith)))
        | inr timely ↦ rw same at (add_if_required-Grows env vote d {e' = e'} (ground arith))
      ]
    ]

enter_step-Grows :
    (env : Env) (height : ℕ) (round : ℤ) (step : Step) (e : Engine) {e' : Engine}
    → round ≤ℤ e.state.round
    → enter_step env height round step e ≡ ok e'
    → Grows e.state e'.state
unfolding enter_step
enter_step-Grows env height round prevote e {e'} le ran =
    let same : enter_prevote env height round e ≡ e' = ground (arith, ran) in
    rw same at (enter_prevote-Grows env height round e le)
enter_step-Grows env height round precommit e le ran =
    enter_precommit-Grows env height round e le ran
enter_step-Grows env height round commit e le ran = enter_commit-Grows env height round e le ran
enter_step-Grows env height round _ e le ran = Grows-eq _ _ (ground (arith, ran))

-- `handleTimeout` of a timeout whose round is not above the engine's, where it returns: the height
-- stays, and the round and step only grow.
pub handle_timeout-Grows :
    (env : Env) (ti : TimeoutInfo) (e : Engine) {e' : Engine}
    → ti.round ≤ℤ e.state.round
    → handle_timeout env ti e ≡ ok e'
    → Grows e.state e'.state
unfolding handle_timeout
handle_timeout-Grows env ti e {e'} le ran = enter_step-Grows env ti.height ti.round ti.step e le ran
