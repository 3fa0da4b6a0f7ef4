-- ===== src/Tbft/Engine/Position/Commits.antt =====
-- The position of the engine only grows: `enterPrecommit` and `enterCommit`.
use chainmaker.Prelude.{ℕ, ◌≡◌, refl, sym, ap, inl, inr, not, ◌&&◌, Option, arith}
use chainmaker.Prelude.Tests.{if◌then◌else◌, Bool-cases, Option-cases}
use chainmaker.Prelude.Int.{ℤ, ◌≤ℤ◌, add32, pos}
use chainmaker.Prelude.Result.{ok, bind_ok}
use chainmaker.Tbft.Vote.{Slice, nil_hash, is_nil_hash, slice_eq}
use chainmaker.Tbft.VoteSet.{VoteSet, two_thirds_majority}
use chainmaker.Tbft.Rounds.Routing.{precommits_total}
use chainmaker.Tbft.State.{Proposal, block_hash_of, step_no, prevote, precommit, commit}
use chainmaker.Tbft.Engine.{Engine, Env, set_state}
use chainmaker.Tbft.Engine.Timeouts.{is_proposer}
use chainmaker.Tbft.Engine.Steps.{cannot_enter, has_proposal, enter_precommit}
use chainmaker.Tbft.Engine.Commit.{
  take_up, take_locked, finish_commit, commit_on, enter_commit, commit_to_core,
}
use chainmaker.Tbft.Engine.Locks.{enter_precommit_lem}
use chainmaker.Tbft.Engine.Position.{
  Grows, SamePlace, Grows-eq, Grows-same, Grows-step, Grows-trans, entered, enter_new_round-Grows,
}

pub enter_precommit-Grows :
    (env : Env) (height : ℕ) (round : ℤ) (e : Engine) {e' : Engine}
    → round ≤ℤ e.state.round
    → enter_precommit env height round e ≡ ok e'
    → Grows e.state e'.state
unfolding enter_precommit
enter_precommit-Grows env height round e {e'} le done =
    elim (Bool-cases (cannot_enter prevote height round e.state)) [
      | inl refused ↦ Grows-eq _ _ (ground arith)
      | inr may ↦
          let (h, r, st) = entered prevote height round e.state may le in
          let (vs, at, hash, b, v, to, h', r') = enter_precommit_lem env height round e may done in
          record { height = h'; later = inr (sym r', ground (arith, st, ap step_no to)) }
    ]

take_up_keeps :
    (env : Env) (locked : Proposal) (e : Engine) {e' : Engine}
    → take_up env locked e ≡ ok e'
    → SamePlace e.state e'.state
unfolding take_up
take_up_keeps env locked e done =
    let (b, a, last) = bind_ok (is_proposer e.state.height e.state.round e) _ done in
    (ground (arith, last), ground (arith, last), ground (arith, last))

take_locked_keeps :
    (env : Env) (hash : Slice) (e : Engine) {e' : Engine}
    → take_locked env hash e ≡ ok e'
    → SamePlace e.state e'.state
unfolding take_locked
take_locked_keeps env hash e {e'} done = elim (Option-cases e.state.locked_proposal) [
  | inl free ↦ (ground arith, ground arith, ground arith)
  | inr (locked, here) ↦
      elim (Bool-cases (
        slice_eq hash (block_hash_of locked.block)
        && not (has_proposal (block_hash_of locked.block) e.state))) [
          | inl takes ↦ take_up_keeps env locked e {e' = e'} (ground arith)
          | inr keeps ↦ (ground arith, ground arith, ground arith)
        ]
]

finish_commit-Grows :
    (env : Env) (round : ℤ) (hash : Slice) (vs : Option VoteSet) (e : Engine) {e' : Engine}
    → finish_commit env round hash vs e ≡ ok e'
    → Grows e.state e'.state
unfolding finish_commit commit_to_core
finish_commit-Grows env round hash vs e {e'} done = elim (Option-cases e.state.proposal) [
  | inl absent ↦ enter_new_round-Grows env (add32 round (pos 1)) e {e' = e'} (ground arith)
  | inr (p, here) ↦
      elim (Bool-cases (
        is_nil_hash
          (if not (slice_eq hash (block_hash_of p.pb_msg.block)) then nil_hash else hash))) [
            | inl empty ↦ enter_new_round-Grows env (add32 round (pos 1)) e {e' = e'} (ground arith)
            | inr full ↦ Grows-eq _ _ (ground arith)
          ]
]

commit_on-Grows :
    (env : Env) (round : ℤ) (vs : Option VoteSet) (e : Engine) {e' : Engine}
    → commit_on env round vs e ≡ ok e'
    → Grows e.state e'.state
unfolding commit_on
commit_on-Grows env round vs e {e'} done =
    let hash = (two_thirds_majority vs).0 in
    elim (Bool-cases (not (is_nil_hash hash) && not (two_thirds_majority vs).1)) [
      | inl bad ↦ absurd (ground arith)
      | inr good ↦
          let (t, took, rest) =
            bind_ok (take_locked env hash e) (λ t. finish_commit env round hash vs t) {end = e'}
              (ground arith) in
          Grows-trans e.state t.state e'.state (Grows-same _ _ (take_locked_keeps env hash e took))
            (finish_commit-Grows env round hash vs t rest)
    ]

pub enter_commit-Grows :
    (env : Env) (height : ℕ) (round : ℤ) (e : Engine) {e' : Engine}
    → round ≤ℤ e.state.round
    → enter_commit env height round e ≡ ok e'
    → Grows e.state e'.state
unfolding enter_commit
enter_commit-Grows env height round e {e'} le done =
    elim (Bool-cases (cannot_enter precommit height round e.state)) [
      | inl refused ↦ Grows-eq _ _ (ground arith)
      | inr may ↦
          let (h, r, st) = entered precommit height round e.state may le in
          let (vs, at) = precommits_total e.state.round e.state.height_round_vote_set in
          let stepped = set_state (record e.state { step = commit }) e in
          Grows-trans e.state stepped.state e'.state
            (Grows-step _ _ commit refl (omega (arith, st)))
            (commit_on-Grows env round vs stepped {e' = e'} (ground (arith, at)))
    ]
