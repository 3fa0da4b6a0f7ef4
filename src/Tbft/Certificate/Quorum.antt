-- ===== src/Tbft/Certificate/Quorum.antt =====
-- What a certificate that passes the checks proves.
use chainmaker.Prelude.{
  ℕ, ◌+◌, ◌*◌, ◌/◌, ◌≤◌, ◌<◌, ◌≡◌, inl, inr, Bool, true, false, Option, none, some, List, [], ◌∷◌,
  arith,
}
use mathlib.Core.Path.{subst}
use chainmaker.Prelude.Tests.{Bool-cases, Option-cases}
use chainmaker.Prelude.Lists.{length, All}
use chainmaker.Prelude.Eq.{Bytes, bytes_eq_iff, bytes_instance, ◌==◌}
use chainmaker.Prelude.Map.{Map, lookup}
use chainmaker.Prelude.Result.{Error, ok, bind_ok}
use chainmaker.Tbft.Validators.{ValidatorSet, new_validator_set}
use chainmaker.Tbft.Validators.Sorting.{length-sort}
use chainmaker.Tbft.Vote.{Vote, VoteType, Slice, bytes, content, slice_eq, type_eq, Slice-cases}
use chainmaker.Tbft.VoteSet.{
  VoteSet, VoteSetProto, new_vote_set, new_vote_set_from_proto, add_all, add_vote,
  two_thirds_majority,
}
use chainmaker.Tbft.VoteSet.Tally.{tally, quorum_lem}
use chainmaker.Tbft.VoteSet.Invariant.{IsValid, new_vote_set-IsValid, block_of}
use chainmaker.Tbft.VoteSet.Preserved.{add_vote-IsValid}
use chainmaker.Tbft.Certificate.{or_vote_set}
use chainmaker.Tbft.State.{Block}
use chainmaker.Tbft.Certificate.{
  verify_votes, verify_hash, verify_block_signatures, add_qc_votes, verify_majority,
  verify_qc_from_votes,
}

add_all-IsValid :
    (val_set : ValidatorSet) (votes : Map Bytes Vote) (vs : VoteSet)
    → IsValid val_set vs
    → IsValid val_set (add_all (some val_set) votes vs)
unfolding add_all
add_all-IsValid val_set [] vs v = v
add_all-IsValid val_set ((k, w) ∷ more) vs v =
    add_all-IsValid val_set more _ (add_vote-IsValid val_set (some w) false vs v)

-- More than two thirds of the validators have a vote for the hash in the set, and every vote of the
-- set for it has passed the access control.
pub record IsCertified (accepts : Vote → Bool) (n : ℕ) (h : Bytes) (vs : VoteSet) : Type 0 where
  pub enough : n * 2 / 3 + 1 ≤ tally h vs.votes
  pub accepted :
      (voter : Bytes) (v : Vote)
      → lookup voter vs.votes ≡ some v
      → content v.hash ≡ h
      → accepts v ≡ true

module _ (accepts : Vote → Bool) where
  verify_votes-All :
      (m : Map Bytes Vote) → verify_votes accepts m ≡ true → All (λ e. accepts e.1 ≡ true) m
  unfolding verify_votes
  verify_votes-All [] e = tt
  verify_votes-All ((k, v) ∷ m) e = (ground arith, verify_votes-All m (ground arith))

  All-lookup :
      (m : Map Bytes Vote) (voter : Bytes) (v : Vote)
      → All (λ e. accepts e.1 ≡ true) m
      → lookup voter m ≡ some v
      → accepts v ≡ true
  unfolding lookup
  All-lookup [] voter v all at = cc
  All-lookup ((k, w) ∷ m) voter v all at = elim (Bool-cases (k == voter)) [
    | inl same ↦ let e : w ≡ v = ground (arith, same, at) in rw (← e) all.0
    | inr other ↦ All-lookup m voter v all.1 (ground (arith, other, at))
  ]

  verify_hash-IsCertified :
      (val_set : ValidatorSet) (vs : VoteSet) (hash : Slice)
      → IsValid val_set vs
      → two_thirds_majority (some vs) ≡ (hash, true)
      → verify_hash accepts hash vs ≡ ok tt
      → IsCertified accepts (length val_set.validators) (content hash) vs
  unfolding verify_hash two_thirds_majority
  verify_hash-IsCertified val_set vs hash valid won checked = elim (Slice-cases vs.maj23) [
    | inl empty ↦ absurd (ground arith)
    | inr (h, full) ↦
        let same : hash ≡ bytes h = ground (arith, won) in
        let c : content hash ≡ h = rw same in
        rw c (record {
          enough = omega (arith, valid.sound h full, quorum_lem val_set valid.fits);
          accepted = λ voter v at e. elim (Option-cases (lookup h vs.votes_by_block)) [
            | inl absent ↦ absurd (ground (arith, c))
            | inr (bv, here) ↦
                let kept : lookup voter (block_of h vs).votes ≡ some v =
                  subst (λ x. lookup voter (block_of x vs).votes ≡ some v) e
                    (valid.stored voter v at) in
                All-lookup bv.votes voter v (verify_votes-All bv.votes (ground (arith, c)))
                  (ground (arith, here, kept))
          ];
        })
  ]

  pair_eta : (p : Slice × Bool) → p.1 ≡ true → p ≡ (p.0, true)
  pair_eta (x, y) e = rw e

  length_of_new :
      (validators : List Bytes)
      → length (new_validator_set validators 1).validators ≡ length validators
  unfolding new_validator_set
  length_of_new validators = length-sort validators

  from_proto-IsValid :
      (validators : List Bytes) (vs_proto : VoteSetProto)
      → length validators < 1073741824
      → IsValid
          (new_validator_set validators 1)
          (new_vote_set_from_proto (some (new_validator_set validators 1)) vs_proto)
  unfolding new_vote_set_from_proto
  from_proto-IsValid validators vs_proto fits =
      let val_set = new_validator_set validators 1 in
      add_all-IsValid val_set vs_proto.votes
        (new_vote_set vs_proto.type vs_proto.height vs_proto.round)
        (new_vote_set-IsValid val_set vs_proto.type vs_proto.height vs_proto.round
          (omega (arith, length_of_new validators)))

  -- VerifyBlockSignatures passes a block only if more than two thirds of the listed validators, of
  -- which there are fewer than 2^30, have a vote for its hash in the set that is read from the
  -- block, and every vote for that hash in this set has passed the access control.
  pub verify_block_signatures_lem :
      (validators : List Bytes) (vs_proto : VoteSetProto) (block : Block)
      → length validators < 1073741824
      → verify_block_signatures accepts validators vs_proto block ≡ ok tt
      → IsCertified accepts
          (length validators)
          (content block.block_hash)
          (new_vote_set_from_proto (some (new_validator_set validators 1)) vs_proto)
  unfolding verify_block_signatures
  verify_block_signatures_lem validators vs_proto block fits passed =
      let val_set = new_validator_set validators 1 in
      let vs = new_vote_set_from_proto (some val_set) vs_proto in
      let hash = (two_thirds_majority (some vs)).0 in
      elim (Bool-cases (two_thirds_majority (some vs)).1) [
        | inr lost ↦ absurd (ground arith)
        | inl won ↦ elim (Bool-cases (slice_eq hash block.block_hash)) [
          | inr other ↦ absurd (ground arith)
          | inl same ↦
              let e : content hash ≡ content block.block_hash =
                (bytes_eq_iff (content hash) (content block.block_hash)).0 same in
              let c =
                verify_hash-IsCertified val_set vs hash
                  (from_proto-IsValid validators vs_proto fits)
                  (pair_eta (two_thirds_majority (some vs)) won) (ground arith) in
              rw (e, length_of_new validators) at c
        ]
      ]

  or_vote_set_ok :
      (error : Option Error) (vs : VoteSet) {end : VoteSet}
      → or_vote_set accepts error vs ≡ ok end
      → vs ≡ end
  or_vote_set_ok none vs e = ground (arith, e)
  or_vote_set_ok (some x) vs e = cc

  add_qc_votes-IsValid :
      (val_set : ValidatorSet) (votes : List Vote) (vs : VoteSet) {end : VoteSet}
      → IsValid val_set vs
      → add_qc_votes accepts (some val_set) votes vs ≡ ok end
      → IsValid val_set end
  unfolding add_qc_votes
  add_qc_votes-IsValid val_set [] vs {end} v e =
      let same : vs ≡ end = ground (arith, e) in rw (← same) v
  add_qc_votes-IsValid val_set (w ∷ more) vs {end} v e =
      let r = add_vote (some val_set) (some w) false vs in
      let (mid, added, rest) = bind_ok (or_vote_set accepts r.error r.vote_set) _ e in
      let same = or_vote_set_ok r.error r.vote_set added in
      add_qc_votes-IsValid val_set more mid
        (rw (← same) (add_vote-IsValid val_set (some w) false vs v)) rest

  verify_majority_lem :
      (val_set : ValidatorSet) (vs : VoteSet) {end : VoteSet}
      → IsValid val_set vs
      → verify_majority accepts vs ≡ ok end
      → (hash : Slice) × (two_thirds_majority (some end) ≡ (hash, true))
        × IsCertified accepts (length val_set.validators) (content hash) end
  unfolding verify_majority
  verify_majority_lem val_set vs {end} valid e =
      let hash = (two_thirds_majority (some vs)).0 in
      elim (Bool-cases (two_thirds_majority (some vs)).1) [
        | inr lost ↦ absurd (ground arith)
        | inl won ↦
            let (u, checked, last) =
              bind_ok (verify_hash accepts hash vs) (λ u. ok vs) {end = end} (ground arith) in
            let same : vs ≡ end = ground (arith, last) in
            let w = pair_eta (two_thirds_majority (some vs)) won in
            rw (← same) (hash, w, verify_hash-IsCertified val_set vs hash valid w checked)
      ]

  -- VerifyQcFromVotes returns a set only if, for some hash, more than two thirds of the
  -- validators, of which there are fewer than 2^30, have a vote for it in the set, and every vote
  -- for it in the set has passed the access control; the set then has that majority.
  pub verify_qc_from_votes_lem :
      (val_set : ValidatorSet) (vote_type : VoteType) (votes : List Vote) {end : VoteSet}
      → length val_set.validators < 1073741824
      → verify_qc_from_votes accepts (some val_set) vote_type votes ≡ ok end
      → (hash : Slice) × (two_thirds_majority (some end) ≡ (hash, true))
        × IsCertified accepts (length val_set.validators) (content hash) end
  unfolding verify_qc_from_votes
  verify_qc_from_votes_lem val_set vote_type [] fits e = cc
  verify_qc_from_votes_lem val_set vote_type (v ∷ more) {end} fits e =
      elim (Bool-cases (type_eq vote_type v.type)) [
        | inr other ↦ absurd (ground arith)
        | inl same ↦
            let start = new_vote_set v.type v.height v.round in
            let (vs, added, rest) =
              bind_ok (add_qc_votes accepts (some val_set) (v ∷ more) start)
                (λ vs. verify_majority accepts vs) {end = end} (ground arith) in
            verify_majority_lem val_set vs
              (add_qc_votes-IsValid val_set (v ∷ more) start
                (new_vote_set-IsValid val_set v.type v.height v.round fits) added)
              rest
      ]
