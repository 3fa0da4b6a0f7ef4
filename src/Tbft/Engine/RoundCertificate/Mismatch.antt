-- ===== src/Tbft/Engine/RoundCertificate/Mismatch.antt =====
-- A certificate whose votes are of another round than its message names.
use chainmaker.Prelude.{◌≡◌, refl, Bool, false, none, some, arith}
use chainmaker.Prelude.Int.{ℤ, ◌<ℤ◌, int_eq, int_eq_iff}
use chainmaker.Prelude.Result.{ok, panic}
use chainmaker.Tbft.Vote
use chainmaker.Tbft.Vote.{Vote, type_eq, is_nil_hash}
use chainmaker.Tbft.VoteSet.{
  VoteSetProto, two_thirds_majority, has_two_thirds_any, has_two_thirds_no_majority,
}
use chainmaker.Tbft.Rounds.{HeightRoundVoteSet, prevotes}
use chainmaker.Tbft.State.{prevote}
use chainmaker.Tbft.Certificate.{verify_round_qc}
use chainmaker.Tbft.Engine.{Engine, Env, set_state}
use chainmaker.Tbft.Engine.Steps.{enter_precommit, precommit_on, cannot_enter}
use chainmaker.Tbft.Engine.Votes.{store_votes}
use chainmaker.Tbft.Engine.RoundCertificate.{
  RoundQc, add_round_votes, use_round_qc, take_round_qc, proc_round_qc,
}

-- Without a prevote of the round there is nothing to precommit.
enter_precommit_empty :
    (env : Env) (round : ℤ) (e : Engine)
    → prevotes round e.state.height_round_vote_set ≡ ok none
    → enter_precommit env e.state.height round
        (set_state (record e.state { round = round; step = prevote }) e)
      ≡ panic
unfolding enter_precommit cannot_enter precommit_on two_thirds_majority has_two_thirds_any
    has_two_thirds_no_majority
enter_precommit_empty env round e at = ground (arith, at, (int_eq_iff round round).1 refl)

-- A certificate of prevotes that passes its check, in a message that names the engine's height and a
-- later round than the engine's, makes `procRoundQC` panic, if its votes are all added and leave the
-- engine without a set of votes for the round that the message names.
pub proc_round_qc_mismatch :
    (accepts : Vote → Bool) (env : Env) (m : RoundQc) (qc : VoteSetProto) (hvs : HeightRoundVoteSet)
    (e : Engine)
    → m.qc ≡ some qc
    → m.height ≡ e.state.height
    → e.state.round <ℤ m.round
    → qc.type ≡ Vote.prevote
    → verify_round_qc accepts (some e.validator_set) qc ≡ ok tt
    → add_round_votes (some e.validator_set) qc.votes e.state.height_round_vote_set ≡ ok (hvs, none)
    → prevotes m.round hvs ≡ ok none
    → proc_round_qc accepts env m e ≡ panic
unfolding proc_round_qc take_round_qc use_round_qc type_eq
proc_round_qc_mismatch accepts env m qc hvs e is h later t passed added absent =
    let later' : int_eq m.round e.state.round ≡ false = ground arith in
    ground (
      arith,
      is,
      h,
      t,
      passed,
      added,
      enter_precommit_empty env m.round (store_votes hvs e) absent,
      later',
    )
