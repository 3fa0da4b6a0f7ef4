-- ===== src/Tbft/Engine/Timeouts.antt =====
-- consensus-tbft-master/consensus_tbft_impl.go: how long the engine waits, in nanoseconds, and who
-- proposes.
use chainmaker.Prelude.{ℕ, ◌+◌, ◌-◌, ◌/◌, Bool, ◌||◌, Option, none, some, []}
use chainmaker.Prelude.Tests.{ltb, leb, if◌then◌else◌}
use chainmaker.Prelude.Lists.{length}
use chainmaker.Prelude.Eq.{Bytes, bytes_eq, bytes_instance}
use chainmaker.Prelude.Map.{lookup}
use chainmaker.Prelude.Int.{ℤ, pos, add64, mul64, int64_of, uint64_of, u64, ltb_ℤ}
use chainmaker.Prelude.Result.{Result, ok, err, panic, ◌>>=◌}
use chainmaker.Tbft.Validators.{ValidatorSet, get_proposer, validator_height}
use chainmaker.Tbft.Engine.{Engine, Env, reset_optimal_timer, emit}

unfoldable pub propose_timeout : ℤ → Engine → ℤ
propose_timeout round e = add64 e.timeout_propose (mul64 e.timeout_propose_delta round)

unfoldable pub prevote_timeout : ℤ → ℤ
prevote_timeout round = add64 (pos 30000000000) (mul64 (pos 1000000000) round)

unfoldable pub precommit_timeout : ℤ → ℤ
precommit_timeout round = add64 (pos 30000000000) (mul64 (pos 1000000000) round)

-- `validator, _ := GetProposer(...)`: an error leaves the empty string.
abbrev pub or_empty : Result Bytes → Result Bytes
or_empty panic = panic
or_empty (err x) = ok []
or_empty (ok v) = ok v

unfoldable pub proposer_of : ℕ → ℤ → Engine → Result Bytes
proposer_of height round e =
    or_empty (get_proposer e.validator_set e.block_version e.last_height_proposer height round)

unfoldable pub is_proposer : ℕ → ℤ → Engine → Result Bool
is_proposer height round e = do
  proposer ← proposer_of height round e
  ok (bytes_eq proposer e.state.id)

abbrev time_or_zero : Option ℤ → ℤ
time_or_zero none = pos 0
time_or_zero (some t) = t

unfoldable pub beat_time : ValidatorSet → Bytes → ℤ
beat_time val_set v = time_or_zero (lookup v val_set.validators_beat_time)

abbrev pub two_seconds : ℤ
two_seconds = pos 2000000000

-- The branch without the optimisation: the timeout shrinks with the heights that the proposer is
-- behind, down to two seconds.
unfoldable pub shrink_timeout : ℤ → ℕ → ℕ → ℤ
shrink_timeout timeout height validator_height =
    let t = if leb height validator_height then 1 else height - validator_height in
    let shrunk = int64_of (uint64_of timeout / t) in
    if ltb_ℤ shrunk two_seconds then two_seconds else shrunk

-- `getProposeTimeout`: the timeout, and the state after the timer is set.
unfoldable pub get_propose_timeout : Env → Bytes → ℕ → ℕ → ℤ → Engine → ℤ × Engine
get_propose_timeout env validator validator_height height round e =
    let timeout = propose_timeout round e in
    if e.propose_optimal
    then if bytes_eq validator e.state.id || leb height 1
      then (timeout, e)
      else if ltb (u64 (validator_height + length e.validator_set.validators)) height
          || ltb_ℤ (add64 (beat_time e.validator_set validator) (pos 3000)) env.now
      then (e.timeout_propose_optimal, e)
      else (timeout, emit reset_optimal_timer e)
    else (shrink_timeout timeout height validator_height, e)
