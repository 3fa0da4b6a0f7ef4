-- ===== src/Tbft/Engine/Locks.antt =====
-- What `enterPrecommit` votes for, what it locks, and when it returns.
use chainmaker.Prelude.{
  ℕ, ◌+◌, ◌*◌, ◌/◌, ◌≤◌, ◌<◌, ◌≡◌, refl, sym, ap, ◌∙◌, ◌⊎◌, inl, inr, Bool, true, false, not, ◌&&◌,
  ◌||◌, Option, none, some, arith,
}
use chainmaker.Prelude.Tests.{Bool-cases}
use chainmaker.Prelude.Lists.{length}
use chainmaker.Prelude.Int.{ℤ}
use chainmaker.Prelude.Result.{ok}
use chainmaker.Tbft.Vote
use chainmaker.Tbft.Vote.{Slice, nil_hash, is_nil_hash, slice_eq, new_vote}
use chainmaker.Tbft.VoteSet.{VoteSet, two_thirds_majority, has_two_thirds_no_majority}
use chainmaker.Tbft.VoteSet.Invariant.{IsValid}
use chainmaker.Tbft.VoteSet.Majority.{has_two_thirds_no_majority_lem}
use chainmaker.Tbft.Rounds.{prevotes}
use chainmaker.Tbft.Rounds.Routing.{prevotes_total}
use chainmaker.Tbft.State.{ConsensusState, prevote, precommit}
use chainmaker.Tbft.Engine.{Engine, Env, set_state, put_internal, msg_precommit}
use chainmaker.Tbft.Engine.Steps.{
  cannot_enter, del_invalid_txs, lock_on, send_precommit, precommit_on, enter_precommit,
  is_locked_on, sign_vote, has_proposal,
}

-- The hash is nil, or the one with the majority, for which the state is locked in the round.
abbrev pub IsBacked : Option VoteSet → ℤ → Slice → ConsensusState → Type 0
IsBacked vote_set round hash s =
    (is_nil_hash hash ≡ true)
    ⊎ (two_thirds_majority vote_set ≡ (hash, true))
      × (is_locked_on hash s ≡ true)
      × (s.locked_round ≡ round)

pub nil_hash_is_nil : is_nil_hash nil_hash ≡ true
unfolding is_nil_hash chainmaker.Prelude.Eq.bytes_eq
nil_hash_is_nil = refl

-- The lock that is left belongs to the hash that is voted for.
lock_on_lem :
    (hash : Slice) (round : ℤ) (s : ConsensusState)
    → (is_nil_hash (lock_on hash round s).0 ≡ true)
      ⊎ ((lock_on hash round s).0 ≡ hash)
        × (is_locked_on hash (lock_on hash round s).1 ≡ true)
        × ((lock_on hash round s).1.locked_round ≡ round)
unfolding lock_on
lock_on_lem hash round s = elim (Bool-cases (is_nil_hash hash)) [
  | inl empty ↦ inl (ground (arith, empty))
  | inr full ↦ elim (Bool-cases (is_locked_on hash s)) [
    | inl locked ↦ inr (ground arith, ground arith, ground arith)
    | inr free ↦ elim (Bool-cases (has_proposal hash s)) [
      | inl here ↦ inr (ground arith, ground arith, ground arith)
      | inr absent ↦ inl (ground (arith, nil_hash_is_nil))
    ]
  ]
]

del_invalid_txs_keeps :
    (vs : Option VoteSet) (hash : Slice) (e : Engine)
    → ((del_invalid_txs vs hash e).state ≡ e.state)
      × ((del_invalid_txs vs hash e).internal_msg_c ≡ e.internal_msg_c)
unfolding del_invalid_txs
del_invalid_txs_keeps vs hash e = (ground arith, ground arith)

-- The own precommit for the hash stands at the end of the channel of internal messages, if that had
-- room.
abbrev pub Precommits : Env → Slice → Engine → Engine → Type 0
Precommits env hash e e' =
    e'.internal_msg_c
    ≡ (put_internal
        (msg_precommit
          (sign_vote env (new_vote Vote.precommit e.state.id e.state.height e.state.round hash)))
        e).internal_msg_c

lock_on_keeps :
    (hash : Slice) (round : ℤ) (s : ConsensusState)
    → ((lock_on hash round s).1.id ≡ s.id)
      × ((lock_on hash round s).1.height ≡ s.height)
      × ((lock_on hash round s).1.round ≡ s.round)
      × ((lock_on hash round s).1.step ≡ s.step)
unfolding lock_on
lock_on_keeps hash round s = (ground arith, ground arith, ground arith, ground arith)

send_precommit_lem :
    (env : Env) (hash : Slice) (e d : Engine)
    → d.internal_msg_c ≡ e.internal_msg_c
    → d.state.id ≡ e.state.id
    → d.state.height ≡ e.state.height
    → d.state.round ≡ e.state.round
    → ((send_precommit env hash d).state ≡ d.state)
      × Precommits env hash e (send_precommit env hash d)
unfolding send_precommit put_internal
send_precommit_lem env hash e d c i h r = (ground arith, rw (c, i, h, r) (ground (arith, c)))

pair_eq : (p : Slice × Bool) {a : Slice} {b : Bool} → p.0 ≡ a → p.1 ≡ b → p ≡ (a, b)
pair_eq (x, y) e f = rw (e, f)

-- Whatever is locked, the vote is the own precommit, for the hash that `IsBacked` describes.
VotesFor : Env → ℤ → Option VoteSet → Engine → Engine → Type 0
VotesFor env round vs e e' =
    (hash : Slice) × IsBacked vs round hash e'.state
    × Precommits env hash e e'
    × (e'.state.step ≡ e.state.step)
    × (e'.state.height ≡ e.state.height)
    × (e'.state.round ≡ e.state.round)

vote_locked :
    (env : Env) (round : ℤ) (vs : Option VoteSet) (e d : Engine)
    → (two_thirds_majority vs).1 ≡ true
    → d.internal_msg_c ≡ e.internal_msg_c
    → d.state ≡ e.state
    → let l = lock_on (two_thirds_majority vs).0 round d.state in
      VotesFor env round vs e (send_precommit env l.0 (set_state l.1 d))
unfolding VotesFor
vote_locked env round vs e d m c same =
    let hash = (two_thirds_majority vs).0 in
    let l = lock_on hash round d.state in
    let (i, h, r, st) = lock_on_keeps hash round d.state in
    let (kept, sent) =
      send_precommit_lem env l.0 e (set_state l.1 d) c (rw i (ap (λ s. s.id) same))
        (rw h (ap (λ s. s.height) same)) (rw r (ap (λ s. s.round) same)) in
    (
      l.0,
      rw kept (elim (lock_on_lem hash round d.state) [
        | inl empty ↦ inl empty
        | inr (same_hash, locked, at) ↦ inr (pair_eq _ (sym same_hash) m, rw same_hash locked, at)
      ]),
      sent,
      rw kept (st ∙ ap (λ s. s.step) same),
      rw kept (h ∙ ap (λ s. s.height) same),
      rw kept (r ∙ ap (λ s. s.round) same),
    )

vote_nil :
    (env : Env) (round : ℤ) (vs : Option VoteSet) (e d : Engine)
    → d.internal_msg_c ≡ e.internal_msg_c
    → d.state ≡ e.state
    → VotesFor env round vs e (send_precommit env nil_hash d)
unfolding VotesFor
vote_nil env round vs e d c same =
    let (kept, sent) =
      send_precommit_lem env nil_hash e d c (ap (λ s. s.id) same) (ap (λ s. s.height) same)
        (ap (λ s. s.round) same) in
    (
      nil_hash,
      inl nil_hash_is_nil,
      sent,
      ap (λ s. s.step) (kept ∙ same),
      ap (λ s. s.height) (kept ∙ same),
      ap (λ s. s.round) (kept ∙ same),
    )

precommit_on_cases :
    (env : Env) (round : ℤ) (vs : Option VoteSet) (e : Engine) {e' : Engine}
    → precommit_on env round vs e ≡ ok e'
    → let d = del_invalid_txs vs (two_thirds_majority vs).0 e in
      let l = lock_on (two_thirds_majority vs).0 round d.state in
      ((two_thirds_majority vs).1 ≡ true) × (send_precommit env l.0 (set_state l.1 d) ≡ e')
      ⊎ (send_precommit env nil_hash d ≡ e')
unfolding precommit_on
precommit_on_cases env round vs e done = elim (Bool-cases (two_thirds_majority vs).1) [
  | inl m ↦ inl (m, ground arith)
  | inr m ↦ inr (ground arith)
]

precommit_on_lem :
    (env : Env) (round : ℤ) (vs : Option VoteSet) (e : Engine) {e' : Engine}
    → precommit_on env round vs e ≡ ok e'
    → VotesFor env round vs e e'
precommit_on_lem env round vs e {e'} done =
    let d = del_invalid_txs vs (two_thirds_majority vs).0 e in
    let (same, c) = del_invalid_txs_keeps vs (two_thirds_majority vs).0 e in
    elim (precommit_on_cases env round vs e done) [
      | inl (m, is) ↦ rw (← is) (vote_locked env round vs e d m c same)
      | inr is ↦ rw (← is) (vote_nil env round vs e d c same)
    ]

-- `enterPrecommit`, entered from the prevote step, where it returns: the node precommits nil, or
-- the hash with the majority of the prevotes, which it then is locked on in the round, and is in
-- the precommit step of the same height and round.
pub enter_precommit_lem :
    (env : Env) (height : ℕ) (round : ℤ) (e : Engine) {e' : Engine}
    → cannot_enter prevote height round e.state ≡ false
    → enter_precommit env height round e ≡ ok e'
    → (vs : Option VoteSet) × (prevotes e.state.round e.state.height_round_vote_set ≡ ok vs)
      × (hash : Slice) × IsBacked vs round hash e'.state
      × Precommits env hash e e'
      × (e'.state.step ≡ precommit)
      × (e'.state.height ≡ e.state.height)
      × (e'.state.round ≡ e.state.round)
unfolding enter_precommit VotesFor put_internal
enter_precommit_lem env height round e {e'} may done =
    let (vs, at) = prevotes_total e.state.round e.state.height_round_vote_set in
    let d = set_state (record e.state { step = precommit }) e in
    let ran : precommit_on env round vs d ≡ ok e' = ground (arith, at) in
    let (hash, backed, sent, step, h, r) = precommit_on_lem env round vs d ran in
    (vs, at, hash, backed, ground (arith, sent), step, h, r)

precommit_on_total :
    (env : Env) (round : ℤ) (vs : Option VoteSet) (e : Engine)
    → has_two_thirds_no_majority (some e.validator_set) vs ≡ true
    → (e' : Engine) × (precommit_on env round vs e ≡ ok e')
unfolding precommit_on
precommit_on_total env round vs e many =
    let d = del_invalid_txs vs (two_thirds_majority vs).0 e in
    let l = lock_on (two_thirds_majority vs).0 round d.state in
    elim (Bool-cases (two_thirds_majority vs).1) [
      | inl m ↦ (send_precommit env l.0 (set_state l.1 d), ground arith)
      | inr m ↦ (send_precommit env nil_hash d, ground (arith, many))
    ]

-- `enterPrecommit` returns, whether it is entered or not, if more than two thirds of the validators
-- have a prevote in the set of the round, and the set is valid.
pub enter_precommit_total :
    (env : Env) (height : ℕ) (round : ℤ) (e : Engine) (vs : VoteSet)
    → prevotes e.state.round e.state.height_round_vote_set ≡ ok (some vs)
    → IsValid e.validator_set vs
    → length e.validator_set.validators * 2 / 3 + 1 ≤ length vs.votes
    → (e' : Engine) × (enter_precommit env height round e ≡ ok e')
unfolding enter_precommit
enter_precommit_total env height round e vs at valid enough =
    let many = (has_two_thirds_no_majority_lem e.validator_set vs valid).1 enough in
    let (e', ran) =
      precommit_on_total env round (some vs) (set_state (record e.state { step = precommit }) e)
        many in
    elim (Bool-cases (cannot_enter prevote height round e.state)) [
      | inl refused ↦ (e, ground arith)
      | inr may ↦ (e', ground (arith, at, ran))
    ]
