-- ===== src/Tbft/Engine/RoundCertificate/Growth.antt =====
-- The position of the engine only grows: `procRoundQC` of consensus-tbft-master/consensus_tbft_impl.go.
use chainmaker.Prelude.{◌≡◌, refl, inl, inr, Bool, true, false, not, ◌&&◌, ◌||◌, some, arith}
use chainmaker.Prelude.Tests.{nat_eq, Bool-cases, Option-cases}
use chainmaker.Prelude.Int.{ℤ, ◌<ℤ◌, int_eq, int_eq_iff, ltb_ℤ, add32, pos}
use chainmaker.Prelude.Result.{Result, ok, err, panic, bind_ok}
use chainmaker.Tbft.Vote
use chainmaker.Tbft.Vote.{Vote, type_eq, slice_eq, nil_hash}
use chainmaker.Tbft.VoteSet.{VoteSetProto}
use chainmaker.Tbft.State.{prevote}
use chainmaker.Tbft.Certificate.{verify_round_qc}
use chainmaker.Tbft.Engine.{Engine, Env, set_state}
use chainmaker.Tbft.Engine.Votes.{store_votes}
use chainmaker.Tbft.Engine.RoundCertificate.{
  RoundQc, add_round_votes, use_round_qc, take_round_qc, proc_round_qc,
}
use chainmaker.Tbft.Engine.Position.{
  Grows, Grows-eq, Grows-same, Grows-trans, enter_new_round-Grows,
}
use chainmaker.Tbft.Engine.Position.Commits.{enter_precommit-Grows}
use chainmaker.Tbft.Engine.Position.Handlers.{int_le_self}

use_round_qc-Grows :
    (env : Env) (round : ℤ) (qc : VoteSetProto) (e : Engine) {e' : Engine}
    → (type_eq qc.type Vote.prevote ≡ true → e.state.round <ℤ round)
    → use_round_qc env round qc e ≡ ok e'
    → Grows e.state e'.state
unfolding use_round_qc
use_round_qc-Grows env round qc e {e'} later done =
    elim (Bool-cases (type_eq qc.type Vote.prevote)) [
      | inl is ↦
          let moved = set_state (record e.state { round = round; step = prevote }) e in
          Grows-trans e.state moved.state e'.state
            (record { height = refl; later = inl (later is) })
            (enter_precommit-Grows env e.state.height round moved {e' = e'} (int_le_self round)
              (ground arith))
      | inr other ↦ elim (Bool-cases (slice_eq qc.maj23 nil_hash)) [
        | inl empty ↦ enter_new_round-Grows env (add32 round (pos 1)) e {e' = e'} (ground arith)
        | inr full ↦ Grows-eq _ _ (ground arith)
      ]
    ]

take_round_qc-Grows :
    (env : Env) (round : ℤ) (qc : VoteSetProto) (e : Engine) {e' : Engine}
    → (type_eq qc.type Vote.prevote ≡ true → e.state.round <ℤ round)
    → take_round_qc env round qc e ≡ ok e'
    → Grows e.state e'.state
unfolding take_round_qc
take_round_qc-Grows env round qc e {e'} later done =
    let (r, added, rest) =
      bind_ok (add_round_votes (some e.validator_set) qc.votes e.state.height_round_vote_set) _
        done in
    elim (Option-cases r.1) [
      | inr (x, refused) ↦
          Grows-same _ _ (ground (arith, rest), ground (arith, rest), ground (arith, rest))
      | inl fine ↦
          let stored = store_votes r.0 e in
          Grows-trans e.state stored.state e'.state (Grows-same _ _ (refl, refl, refl))
            (use_round_qc-Grows env round qc stored {e' = e'} later (ground (arith, rest)))
    ]

-- The tests of `procRoundQC` let a certificate of prevotes pass for a later round only.
prevotes_later :
    (t : Vote.VoteType) (old now : ℤ) (stale : Bool)
    → (stale || ltb_ℤ now old || (int_eq now old && not (type_eq t Vote.precommit))) ≡ false
    → type_eq t Vote.prevote ≡ true
    → old <ℤ now
unfolding type_eq
prevotes_later Vote.prevote old now stale passed is =
    let apart : int_eq now old ≡ false = ground arith in
    elim (Bool-cases (ltb_ℤ old now)) [
      | inl less ↦ ground arith
      | inr no_less ↦
          let same : now ≡ old = ground arith in ground (arith, (int_eq_iff now old).1 same)
    ]
prevotes_later Vote.precommit old now stale passed is = ground arith
prevotes_later (Vote.unknown n) old now stale passed is = ground arith

checked-Grows :
    (env : Env) (round : ℤ) (qc : VoteSetProto) (e : Engine) {e' : Engine}
    (verified : Result (Unit {0}))
    → (type_eq qc.type Vote.prevote ≡ true → e.state.round <ℤ round)
    → (elim verified [
      | panic ↦ panic
      | err error ↦ ok e
      | ok passes ↦ take_round_qc env round qc e
    ])
      ≡ ok e'
    → Grows e.state e'.state
checked-Grows env round qc e panic later done = ground arith
checked-Grows env round qc e (err error) later done = Grows-eq _ _ (ground arith)
checked-Grows env round qc e (ok passes) later done = take_round_qc-Grows env round qc e later done

-- Whatever certificate arrives, if procRoundQC returns, the height is the same, and the round is
-- greater, or the same with no lower step.
pub proc_round_qc-Grows :
    (accepts : Vote → Bool) (env : Env) (m : RoundQc) (e : Engine) {e' : Engine}
    → proc_round_qc accepts env m e ≡ ok e'
    → Grows e.state e'.state
unfolding proc_round_qc
proc_round_qc-Grows accepts env m e {e'} done = elim (Option-cases m.qc) [
  | inl absent ↦ Grows-eq _ _ (ground arith)
  | inr (qc, is) ↦
      elim (Bool-cases (
        not (nat_eq m.height e.state.height)
        || ltb_ℤ m.round e.state.round
        || (int_eq m.round e.state.round && not (type_eq qc.type Vote.precommit)))) [
          | inl refused ↦ Grows-eq _ _ (ground arith)
          | inr passed ↦
              checked-Grows env m.round qc e {e' = e'}
                (verify_round_qc accepts (some e.validator_set) qc)
                (prevotes_later qc.type e.state.round m.round (not (nat_eq m.height e.state.height))
                  passed)
                (ground (arith, is, passed))
        ]
]
