-- ===== src/Tbft/Engine/RoundCertificate.antt =====
-- consensus-tbft-master/consensus_tbft_impl.go: `procRoundQC`, the handler of a round's certificate.
pub mod Growth
pub mod Majority
pub mod Mismatch
use chainmaker.Prelude.{ℕ, Bool, true, false, not, ◌&&◌, ◌||◌, Option, none, some, List, [], ◌∷◌}
use chainmaker.Prelude.Tests.{nat_eq, if◌then◌else◌}
use chainmaker.Prelude.Eq.{Bytes}
use chainmaker.Prelude.Map.{Map}
use chainmaker.Prelude.Int.{ℤ, pos, int_eq, ltb_ℤ, add32}
use chainmaker.Prelude.Result.{Error, Result, ok, err, panic, ◌>>=◌}
use chainmaker.Tbft.Validators.{ValidatorSet}
use chainmaker.Tbft.Vote
use chainmaker.Tbft.Vote.{Vote, nil_hash, slice_eq, type_eq}
use chainmaker.Tbft.VoteSet.{VoteSetProto}
use chainmaker.Tbft.Rounds
use chainmaker.Tbft.Rounds.{HeightRoundVoteSet}
use chainmaker.Tbft.State.{prevote}
use chainmaker.Tbft.Certificate.{verify_round_qc}
use chainmaker.Tbft.Engine.{Engine, Env, set_state}
use chainmaker.Tbft.Engine.Steps.{enter_precommit}
use chainmaker.Tbft.Engine.NewRound.{enter_new_round}
use chainmaker.Tbft.Engine.Votes.{store_votes}

pub record RoundQc : Type 0 where
  pub id : Bytes
  pub height : ℕ
  pub round : ℤ
  pub qc : Option VoteSetProto

-- The loop over the votes of the certificate, which an error ends.
unfoldable pub add_round_votes :
    Option ValidatorSet
    → Map Bytes Vote
    → HeightRoundVoteSet
    → Result (HeightRoundVoteSet × Option Error)
add_round_votes validators [] hvs = ok (hvs, none)
add_round_votes validators ((k, v) ∷ more) hvs = do
  r ← Rounds.add_vote validators v hvs
  elim r.error [
    | some error ↦ ok (r.hvs, some error)
    | none ↦ add_round_votes validators more r.hvs
  ]

-- The certificate of prevotes stands for the prevote step of its round; one of precommits for nil ends
-- its round. The majority is read from the message.
unfoldable pub use_round_qc : Env → ℤ → VoteSetProto → Engine → Result Engine
use_round_qc env round qc e =
    if type_eq qc.type Vote.prevote
    then enter_precommit env e.state.height round
        (set_state (record e.state { round = round; step = prevote }) e)
    else if slice_eq qc.maj23 nil_hash
    then enter_new_round env e.state.height (add32 round (pos 1)) e
    else ok e

unfoldable pub take_round_qc : Env → ℤ → VoteSetProto → Engine → Result Engine
take_round_qc env round qc e = do
  r ← add_round_votes (some e.validator_set) qc.votes e.state.height_round_vote_set
  elim r.1 [
    | some error ↦ ok (store_votes r.0 e)
    | none ↦ use_round_qc env round qc (store_votes r.0 e)
  ]

-- `procRoundQC` of a message that is not nil; `accepts` is the answer of the access control.
unfoldable pub proc_round_qc : (Vote → Bool) → Env → RoundQc → Engine → Result Engine
proc_round_qc accepts env m e = elim m.qc [
  | none ↦ ok e
  | some qc ↦
      if not (nat_eq m.height e.state.height)
        || ltb_ℤ m.round e.state.round
        || (int_eq m.round e.state.round && not (type_eq qc.type Vote.precommit))
      then ok e
      else elim (verify_round_qc accepts (some e.validator_set) qc) [
        | panic ↦ panic
        | err error ↦ ok e
        | ok verified ↦ take_round_qc env m.round qc e
      ]
]
