-- ===== src/Tbft/Engine/Certificates.antt =====
-- What `enterCommit` hands to the core: only blocks with a majority of precommits, and these with it.
use chainmaker.Prelude.{
  ℕ, ◌≡◌, refl, ◌∙◌, ◌⊎◌, inl, inr, Bool, true, false, not, ◌&&◌, Option, none, some, [], ◌∷◌,
  arith,
}
use chainmaker.Prelude.Tests.{Bool-cases, Option-cases}
use chainmaker.Prelude.Int.{ℤ, add32, pos}
use chainmaker.Prelude.Result.{ok, bind_ok}
use chainmaker.Tbft.Vote.{Slice, is_nil_hash, slice_eq}
use chainmaker.Tbft.VoteSet.{VoteSet, two_thirds_majority}
use chainmaker.Tbft.Rounds.Routing.{precommits_total}
use chainmaker.Tbft.State.{Proposal, block_hash_of, precommit, commit}
use chainmaker.Tbft.Engine.{Engine, Env, set_state}
use chainmaker.Tbft.Engine.Timeouts.{is_proposer}
use chainmaker.Tbft.Engine.Steps.{cannot_enter, has_proposal}
use chainmaker.Tbft.Engine.NewRound.{enter_new_round}
use chainmaker.Tbft.Engine.Commit.{
  take_up, take_locked, finish_commit, commit_on, enter_commit, commit_to_core,
}
use chainmaker.Tbft.Engine.Locks.{nil_hash_is_nil}
use chainmaker.Prelude.{◌++◌}
use chainmaker.Tbft.VoteSet.{to_proto}
use chainmaker.Tbft.Rounds.{precommits}
use chainmaker.Tbft.State.{Block}
use chainmaker.Tbft.Engine.{commit_block}

-- The call sent one message, the commit of a block whose hash is the majority of the set, with the set.
pub record Commits (vote_set : Option VoteSet) (e e' : Engine) : Type 0 where
  pub block : Block
  pub votes : VoteSet
  pub hash : Slice
  pub set : vote_set ≡ some votes
  pub majority : two_thirds_majority vote_set ≡ (hash, true)
  pub proper : is_nil_hash hash ≡ false
  pub same_hash : slice_eq hash (block_hash_of block) ≡ true
  pub sent : e'.sent ≡ e.sent ++ commit_block block (some (to_proto votes)) ∷ []
  pub stays : e'.state.round ≡ e.state.round

-- The call sent nothing itself and went on to the round after the one it was called with.
unfoldable pub NextRound : Env → ℤ → Engine → Engine → Type 0
NextRound env round e e' =
    (t : Engine) × (t.sent ≡ e.sent)
    × (enter_new_round env e.state.height (add32 round (pos 1)) t ≡ ok e')

take_up_sends :
    (env : Env) (locked : Proposal) (e : Engine) {e' : Engine}
    → take_up env locked e ≡ ok e'
    → (e'.sent ≡ e.sent) × (e'.state.height ≡ e.state.height) × (e'.state.round ≡ e.state.round)
unfolding take_up
take_up_sends env locked e done =
    let (b, a, last) = bind_ok (is_proposer e.state.height e.state.round e) _ done in
    (ground (arith, last), ground (arith, last), ground (arith, last))

take_locked_sends :
    (env : Env) (hash : Slice) (e : Engine) {e' : Engine}
    → take_locked env hash e ≡ ok e'
    → (e'.sent ≡ e.sent) × (e'.state.height ≡ e.state.height) × (e'.state.round ≡ e.state.round)
unfolding take_locked
take_locked_sends env hash e {e'} done = elim (Option-cases e.state.locked_proposal) [
  | inl free ↦ (ground arith, ground arith, ground arith)
  | inr (locked, here) ↦
      elim (Bool-cases (
        slice_eq hash (block_hash_of locked.block)
        && not (has_proposal (block_hash_of locked.block) e.state))) [
          | inl takes ↦ take_up_sends env locked e {e' = e'} (ground arith)
          | inr keeps ↦ (ground arith, ground arith, ground arith)
        ]
]

majority_some :
    (vs : Option VoteSet)
    → is_nil_hash (two_thirds_majority vs).0 ≡ false
    → (two_thirds_majority vs).1 ≡ true
    → (v : VoteSet) × (vs ≡ some v)
unfolding two_thirds_majority
majority_some none full m = cc
majority_some (some v) full m = (v, refl)

pair_eta : (p : Slice × Bool) → p.1 ≡ true → p ≡ (p.0, true)
pair_eta (x, y) e = rw e

-- A proper majority and a proposal with its hash are committed; all else goes to the next round.
finish_commit_lem :
    (env : Env) (round : ℤ) (vs : Option VoteSet) (e : Engine) {e' : Engine}
    → (not (is_nil_hash (two_thirds_majority vs).0) && not (two_thirds_majority vs).1) ≡ false
    → finish_commit env round (two_thirds_majority vs).0 vs e ≡ ok e'
    → Commits vs e e' ⊎ NextRound env round e e'
unfolding finish_commit commit_to_core NextRound
finish_commit_lem env round vs e {e'} sane done = elim (Option-cases e.state.proposal) [
  | inl absent ↦ inr (e, refl, ground arith)
  | inr (p, here) ↦
      let hash = (two_thirds_majority vs).0 in
      elim (Bool-cases (is_nil_hash hash)) [
        | inl empty ↦ inr (e, refl, ground (arith, nil_hash_is_nil))
        | inr full ↦ elim (Bool-cases (slice_eq hash (block_hash_of p.pb_msg.block))) [
          | inr differs ↦ inr (e, refl, ground (arith, nil_hash_is_nil))
          | inl same ↦
              let m : (two_thirds_majority vs).1 ≡ true = ground arith in
              let (v, set) = majority_some vs full m in
              inl (record {
                block = p.pb_msg.block;
                votes = v;
                hash = hash;
                set = set;
                majority = pair_eta (two_thirds_majority vs) m;
                proper = full;
                same_hash = same;
                sent = ground (arith, set);
                stays = ground (arith, set);
              })
        ]
      ]
]

commit_on_lem :
    (env : Env) (round : ℤ) (vs : Option VoteSet) (e : Engine) {e' : Engine}
    → commit_on env round vs e ≡ ok e'
    → Commits vs e e' ⊎ NextRound env round e e'
unfolding commit_on NextRound
commit_on_lem env round vs e {e'} done =
    let hash = (two_thirds_majority vs).0 in
    elim (Bool-cases (not (is_nil_hash hash) && not (two_thirds_majority vs).1)) [
      | inl bad ↦ absurd (ground arith)
      | inr sane ↦
          let (t, took, rest) =
            bind_ok (take_locked env hash e) (λ t. finish_commit env round hash vs t) {end = e'}
              (ground arith) in
          let (sent, h, r) = take_locked_sends env hash e took in
          elim (finish_commit_lem env round vs t sane rest) [
            | inl c ↦ inl (record {
              block = c.block;
              votes = c.votes;
              hash = c.hash;
              set = c.set;
              majority = c.majority;
              proper = c.proper;
              same_hash = c.same_hash;
              sent = rw (← sent) c.sent;
              stays = c.stays ∙ r;
            })
            | inr (u, kept, next) ↦ inr (u, kept ∙ sent, rw h at next)
          ]
    ]

-- `enterCommit`, entered from the precommit step, where it returns: it sends either the commit of
-- one block whose hash has the majority of the precommits of the engine's round, together with
-- these, or no commit, and then goes on to the next round.
pub enter_commit_lem :
    (env : Env) (height : ℕ) (round : ℤ) (e : Engine) {e' : Engine}
    → cannot_enter precommit height round e.state ≡ false
    → enter_commit env height round e ≡ ok e'
    → (vs : Option VoteSet) × (precommits e.state.round e.state.height_round_vote_set ≡ ok vs)
      × (Commits vs e e' ⊎ NextRound env round e e')
unfolding enter_commit NextRound
enter_commit_lem env height round e {e'} may done =
    let (vs, at) = precommits_total e.state.round e.state.height_round_vote_set in
    let stepped = set_state (record e.state { step = commit }) e in
    let ran : commit_on env round vs stepped ≡ ok e' = ground (arith, at) in
    (
      vs,
      at,
      elim (commit_on_lem env round vs stepped ran) [
        | inl c ↦ inl (record {
          block = c.block;
          votes = c.votes;
          hash = c.hash;
          set = c.set;
          majority = c.majority;
          proper = c.proper;
          same_hash = c.same_hash;
          sent = c.sent;
          stays = c.stays;
        })
        | inr n ↦ inr n
      ],
    )
