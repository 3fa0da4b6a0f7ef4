-- ===== src/Tbft/Engine/RoundCertificate/Majority.antt =====
-- The majority that `procRoundQC` of consensus-tbft-master/consensus_tbft_impl.go reads from a message.
use chainmaker.Prelude.{
  ℕ, ◌+◌, ◌≤◌, ◌<◌, ◌≡◌, refl, ap, ◌∙◌, Bool, true, false, none, some, [], arith,
}
use chainmaker.Prelude.Tests.{if◌then◌else◌}
use chainmaker.Prelude.Eq.{Bytes, bytes_eq}
use chainmaker.Prelude.Int.{ℤ, ◌≤ℤ◌, ◌<ℤ◌, ltb_ℤ, int_eq, int_eq_iff, add32, add32_small, pos}
use chainmaker.Prelude.Result.{ok}
use chainmaker.Tbft.Validators.{block_version_231, validator_height}
use chainmaker.Tbft.Validators.Proposer.{IsUsable, get_proposer_lem}
use chainmaker.Tbft.State.{ConsensusState, Step, propose, prevote}
use chainmaker.Tbft.Engine.Timeouts.{or_empty, proposer_of, is_proposer, get_propose_timeout}
use chainmaker.Tbft.Engine.Steps.{cannot_enter}
use chainmaker.Tbft.Engine.Position.{propose_in_keeps}
use chainmaker.Tbft.Vote
use chainmaker.Tbft.Vote.{Vote, type_eq, slice_eq, nil_hash}
use chainmaker.Tbft.VoteSet.{VoteSetProto, new_vote_set_from_proto}
use chainmaker.Tbft.Rounds.{HeightRoundVoteSet}
use chainmaker.Tbft.Certificate.{verify_round_qc}
use chainmaker.Tbft.Engine.{Engine, Env, emit, add_timeout, stop_optimal_timer}
use chainmaker.Tbft.Engine.NewRound.{
  enter_new_round, enter_propose, propose_in, propose_as, get_future_msg_from_cache, read_chain,
}
use chainmaker.Tbft.Engine.Votes.{store_votes}
use chainmaker.Tbft.Engine.RoundCertificate.{
  RoundQc, add_round_votes, use_round_qc, take_round_qc, proc_round_qc,
}

-- The check counts the votes, and not the majority that the message states.
verify_round_qc_any :
    (accepts : Vote → Bool) (e : Engine) (qc : VoteSetProto) (hash : Vote.Slice)
    → verify_round_qc accepts (some e.validator_set) (record qc { maj23 = hash })
      ≡ verify_round_qc accepts (some e.validator_set) qc
unfolding verify_round_qc new_vote_set_from_proto
verify_round_qc_any accepts e qc hash = refl

nil_hash_matches : slice_eq nil_hash nil_hash ≡ true
unfolding bytes_eq
nil_hash_matches = refl

-- The branch of a certificate that states nil.
goes_on :
    (accepts : Vote → Bool) (env : Env) (m : RoundQc) (qc : VoteSetProto) (hvs : HeightRoundVoteSet)
    (e : Engine)
    → m.qc ≡ some (record qc { maj23 = nil_hash })
    → m.height ≡ e.state.height
    → e.state.round ≤ℤ m.round
    → qc.type ≡ Vote.precommit
    → verify_round_qc accepts (some e.validator_set) qc ≡ ok tt
    → add_round_votes (some e.validator_set) qc.votes e.state.height_round_vote_set ≡ ok (hvs, none)
    → proc_round_qc accepts env m e
      ≡ enter_new_round env e.state.height (add32 m.round (pos 1)) (store_votes hvs e)
unfolding proc_round_qc take_round_qc use_round_qc type_eq
goes_on accepts env m qc hvs e is h le t passed added =
    let nils : slice_eq nil_hash nil_hash ≡ true = nil_hash_matches in
    let in_time : ltb_ℤ m.round e.state.round ≡ false = ground arith in
    ground
      (arith, is, h, t, verify_round_qc_any accepts e qc nil_hash, passed, added, nils, in_time)

-- The engine finds a proposer: its set is usable and its version not an old one.
record FindsProposer (e : Engine) : Type 0 where
  usable : IsUsable e.validator_set
  recent : block_version_231 ≤ e.block_version

proposer_of_total :
    (height n : ℕ) (e : Engine)
    → FindsProposer e
    → (v : Bytes) × (proposer_of height (pos n) e ≡ ok v)
unfolding proposer_of
proposer_of_total height n e finds =
    let (v, at, found) =
      get_proposer_lem e.validator_set e.block_version e.last_height_proposer height n finds.usable
        finds.recent in
    (v, ap or_empty found)

is_proposer_total :
    (height n : ℕ) (e : Engine)
    → FindsProposer e
    → (b : Bool) × (is_proposer height (pos n) e ≡ ok b)
unfolding is_proposer
is_proposer_total height n e finds =
    let (v, found) = proposer_of_total height n e finds in (bytes_eq v e.state.id, rw found refl)

get_propose_timeout_who :
    (env : Env) (v : Bytes) (b height : ℕ) (round : ℤ) (e : Engine)
    → ((get_propose_timeout env v b height round e).1.validator_set ≡ e.validator_set)
      × ((get_propose_timeout env v b height round e).1.block_version ≡ e.block_version)
unfolding get_propose_timeout
get_propose_timeout_who env v b height round e = (ground arith, ground arith)

get_propose_timeout-FindsProposer :
    (env : Env) (v : Bytes) (b height : ℕ) (round : ℤ) (e : Engine)
    → FindsProposer e
    → FindsProposer ((get_propose_timeout env v b height round e).1)
get_propose_timeout-FindsProposer env v b height round e finds =
    let (set, version) = get_propose_timeout_who env v b height round e in
    record { usable = rw set finds.usable; recent = rw version finds.recent }

propose_in_total :
    (env : Env) (height n : ℕ) (e : Engine)
    → FindsProposer e
    → (e' : Engine) × (propose_in env height (pos n) e ≡ ok e')
unfolding propose_in
propose_in_total env height n e finds =
    let (v, found) = proposer_of_total height n e finds in
    let behind = validator_height e.validator_set v in
    let timed = get_propose_timeout env v behind height (pos n) e in
    let waiting = emit (add_timeout timed.0 height (pos n) prevote) timed.1 in
    let timed_finds = get_propose_timeout-FindsProposer env v behind height (pos n) e finds in
    let (b, is) =
      is_proposer_total height n waiting
        (record { usable = timed_finds.usable; recent = timed_finds.recent }) in
    let offered = propose_as b waiting in
    (
      if offered.1
          then get_future_msg_from_cache offered.0.state.height offered.0.state.round offered.0
          else offered.0,
      rw (found, is) refl,
    )

abbrev entered_state : ℤ → Step → ConsensusState → ConsensusState
entered_state round step s = record s {
  round = round;
  step = step;
  proposal = none;
  verifing_proposal = none;
}

abbrev fresh_engine : Env → ℤ → Step → Engine → Engine
fresh_engine env round step e = record (read_chain env e) {
  state = entered_state round step e.state;
  invalid_txs = [];
}

read_chain-FindsProposer :
    (env : Env) (round : ℤ) (step : Step) (e : Engine)
    → IsUsable e.validator_set
    → block_version_231 ≤ env.chain_block_version
    → FindsProposer (fresh_engine env round step e)
read_chain-FindsProposer env round step e usable recent =
    let set : (fresh_engine env round step e).validator_set ≡ e.validator_set = ground arith in
    let version : (fresh_engine env round step e).block_version ≡ env.chain_block_version =
      ground arith in
    record { usable = rw set usable; recent = rw version recent }

enter_new_round_greater :
    (env : Env) (round : ℤ) (e : Engine)
    → e.state.round <ℤ round
    → enter_new_round env e.state.height round e
      ≡ propose_in env e.state.height round
          (emit stop_optimal_timer (fresh_engine env round propose e))
unfolding enter_new_round enter_propose cannot_enter
enter_new_round_greater env round e greater =
    let other : int_eq e.state.round round ≡ false = ground arith in
    let same : int_eq round round ≡ true = (int_eq_iff round round).1 refl in
    ground (arith, other, same)

-- A round that is greater is entered, up to the propose step.
enter_new_round_total :
    (env : Env) (n : ℕ) (e : Engine)
    → IsUsable e.validator_set
    → block_version_231 ≤ env.chain_block_version
    → e.state.round <ℤ pos n
    → (e' : Engine) × (enter_new_round env e.state.height (pos n) e ≡ ok e')
      × (e'.state ≡ entered_state (pos n) propose e.state)
enter_new_round_total env n e usable recent greater =
    let finds = read_chain-FindsProposer env (pos n) propose e usable recent in
    let started = emit stop_optimal_timer (fresh_engine env (pos n) propose e) in
    let (e', done) =
      propose_in_total env e.state.height n started
        (record { usable = finds.usable; recent = finds.recent }) in
    (
      e',
      enter_new_round_greater env (pos n) e greater ∙ done,
      propose_in_keeps env e.state.height (pos n) started {e' = e'} done,
    )

-- A certificate of precommits, for any hash, that passes its check, in a message of the engine's
-- height and of its round or a later one below the largest int32, that states the majority nil
-- instead, makes procRoundQC return an engine that has gone on to the propose step of the round
-- after it and has no proposal, if all its votes are added, the validator set is usable and the
-- chain's version is 2.3.1 or later.
pub proc_round_qc_stated :
    (accepts : Vote → Bool) (env : Env) (m : RoundQc) (qc : VoteSetProto) (hvs : HeightRoundVoteSet)
    (n : ℕ) (e : Engine)
    → m.qc ≡ some (record qc { maj23 = nil_hash })
    → m.height ≡ e.state.height
    → m.round ≡ pos n
    → e.state.round ≤ℤ pos n
    → n + 1 < 2147483648
    → qc.type ≡ Vote.precommit
    → verify_round_qc accepts (some e.validator_set) qc ≡ ok tt
    → add_round_votes (some e.validator_set) qc.votes e.state.height_round_vote_set ≡ ok (hvs, none)
    → IsUsable e.validator_set
    → block_version_231 ≤ env.chain_block_version
    → (e' : Engine) × (proc_round_qc accepts env m e ≡ ok e')
      × (e'.state ≡ record e.state {
        height_round_vote_set = hvs;
        round = pos (n + 1);
        step = propose;
        proposal = none;
        verifing_proposal = none;
      })
proc_round_qc_stated accepts env m qc hvs n e is h r le fits t passed added usable recent =
    let stored = store_votes hvs e in
    let (e', entered, at) =
      enter_new_round_total env (n + 1) stored usable recent (omega (arith, le)) in
    let next : add32 m.round (pos 1) ≡ pos (n + 1) =
      ap (λ x. add32 x (pos 1)) r ∙ add32_small n 1 fits in
    (
      e',
      goes_on accepts env m qc hvs e is h (rw r le) t passed added
          ∙ ap (λ x. enter_new_round env e.state.height x stored) next
          ∙ entered,
      at,
    )
