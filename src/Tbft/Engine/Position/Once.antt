-- ===== src/Tbft/Engine/Position/Once.antt =====
-- A step that the engine has taken in a round is not entered again in that round.
use chainmaker.Prelude.{◌≤◌, ◌<◌, ◌≡◌, sym, inl, inr, true, arith}
use chainmaker.Prelude.Int.{int_eq_iff}
use chainmaker.Prelude.Result.{ok}
use chainmaker.Tbft.State.{ConsensusState, Step, step_no, propose, prevote, precommit}
use chainmaker.Tbft.Engine.{Engine, Env}
use chainmaker.Tbft.Engine.Steps.{cannot_enter, enter_prevote, enter_precommit}
use chainmaker.Tbft.Engine.Position.{Grows}

refused :
    (from : Step) (s s' : ConsensusState)
    → step_no from < step_no s.step
    → Grows s s'
    → cannot_enter from s.height s.round s' ≡ true
unfolding cannot_enter
refused from s s' past g = elim g.later [
  | inl later ↦ ground arith
  | inr (same, le) ↦ ground (arith, (int_eq_iff s'.round s.round).1 (sym same), g.height)
]

-- Once the engine is past the propose step of a round, `enterPrevote` casts no further prevote in that
-- round and leaves the state, however far the engine has moved since.
pub enter_prevote_once :
    (env : Env) (e e' : Engine)
    → step_no prevote ≤ step_no e.state.step
    → Grows e.state e'.state
    → ((enter_prevote env e.state.height e.state.round e').internal_msg_c ≡ e'.internal_msg_c)
      × ((enter_prevote env e.state.height e.state.round e').state ≡ e'.state)
unfolding enter_prevote
enter_prevote_once env e e' past g =
    let no = refused propose e.state e'.state (omega arith) g in
    (ground (arith, no), ground (arith, no))

-- Once the engine is past the prevote step of a round, `enterPrecommit` does nothing in that round,
-- however far the engine has moved since.
pub enter_precommit_once :
    (env : Env) (e e' : Engine)
    → step_no precommit ≤ step_no e.state.step
    → Grows e.state e'.state
    → enter_precommit env e.state.height e.state.round e' ≡ ok e'
unfolding enter_precommit
enter_precommit_once env e e' past g =
    let no = refused prevote e.state e'.state (omega arith) g in ground (arith, no)
