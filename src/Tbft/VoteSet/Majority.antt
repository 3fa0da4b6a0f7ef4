-- ===== src/Tbft/VoteSet/Majority.antt =====
-- What the queries of a valid vote set answer, in terms of the votes that it holds.
use chainmaker.Prelude.{
  ℕ, suc, zero, ◌+◌, ◌-◌, ◌*◌, ◌/◌, ◌≤◌, ◌<◌, ◌≡◌, ◌≢◌, ◌↔◌, refl, true, some, [], ◌∷◌, arith, inl,
  inr, ◌⊎◌,
}
use chainmaker.Prelude.Tests.{Option-cases}
use chainmaker.Prelude.Lists.{length}
use chainmaker.Prelude.Eq.{Bytes, bytes_eq_iff, bytes_instance}
use chainmaker.Prelude.Map.{Map, lookup, Distinct}
use chainmaker.Prelude.Int.{uint64_of, u64, int32_of_small}
use chainmaker.Tbft.Validators.{ValidatorSet, size}
use chainmaker.Tbft.Vote.{Vote, bytes, content, Slice-cases}
use chainmaker.Tbft.VoteSet.{
  VoteSet, BlockVotes, quorum, two_thirds_majority, has_two_thirds_any, has_two_thirds_no_majority,
  none_can_win,
}
use chainmaker.Tbft.VoteSet.Tally.{tally, tally-le, quorum_lem}
use chainmaker.Tbft.VoteSet.Invariant.{IsValid, length-votes-le}

module _ (val_set : ValidatorSet) (vs : VoteSet) (valid : IsValid val_set vs) where
  -- In a valid set `twoThirdsMajority` returns a hash that is not empty exactly when more than two
  -- thirds of the validators have a recorded vote for it.
  pub two_thirds_majority_lem :
      (h : Bytes)
      → h ≢ []
      → (two_thirds_majority (some vs) ≡ (bytes h, true))
        ↔ (length val_set.validators * 2 / 3 + 1 ≤ tally h vs.votes)
  unfolding two_thirds_majority
  two_thirds_majority_lem h ne = (
    λ e. ground (arith, valid.sound h, quorum_lem val_set valid.fits, Slice-cases vs.maj23),
    λ q. ground (arith, valid.complete h ne, quorum_lem val_set valid.fits),
  )

  -- In a valid set `hasTwoThirdsNoMajority` is true exactly when more than two thirds of the
  -- validators have voted, whatever for.
  pub has_two_thirds_no_majority_lem :
      (has_two_thirds_no_majority (some val_set) (some vs) ≡ true)
      ↔ (length val_set.validators * 2 / 3 + 1 ≤ length vs.votes)
  unfolding has_two_thirds_no_majority
  has_two_thirds_no_majority_lem = ground (arith, quorum_lem val_set valid.fits, valid.counted)

none_can_win_sound :
    (q left : ℕ) (m : Map Bytes BlockVotes) (h : Bytes) (b : BlockVotes)
    → none_can_win q left m ≡ true
    → lookup h m ≡ some b
    → u64 (b.sum + left) < q
unfolding none_can_win lookup
none_can_win_sound q left [] h b w e = cc
none_can_win_sound q left ((k, v) ∷ m) h b w e = ground (arith, none_can_win_sound q left m h b)

none_can_win_complete :
    (q left : ℕ) (m : Map Bytes BlockVotes)
    → Distinct m
    → ((h : Bytes) (b : BlockVotes) → lookup h m ≡ some b → u64 (b.sum + left) < q)
    → none_can_win q left m ≡ true
unfolding none_can_win lookup
none_can_win_complete q left [] d f = refl
none_can_win_complete q left ((k, v) ∷ m) d f =
    let rest : none_can_win q left m ≡ true =
      none_can_win_complete q left m d.1 (λ h b e. f h b (ground (arith, bytes_eq_iff k h))) in
    ground (arith, f k v, bytes_eq_iff k k)

zero_or_pos : (n : ℕ) → (n ≡ 0) ⊎ (0 < n)
zero_or_pos zero = inl refl
zero_or_pos (suc n) = inr (omega arith)

-- A vote in the set is counted for its hash.
tally_pos : (m : Map Bytes Vote) → 0 < length m → (h : Bytes) × (0 < tally h m)
tally_pos [] h = elim h [ ]
tally_pos ((k, v) ∷ m) h =
    (content v.hash, ground (arith, bytes_eq_iff (content v.hash) (content v.hash)))

module _ (val_set : ValidatorSet) (vs : VoteSet) (valid : IsValid val_set vs) where
  -- The validators that have not voted.
  abbrev pub left : ℕ
  left = length val_set.validators - length vs.votes

  left_sum_lem : u64 (uint64_of (size (some val_set)) + (18446744073709551616 - vs.sum)) ≡ left
  unfolding size
  left_sum_lem = ground (
    arith,
    int32_of_small (length val_set.validators),
    valid.fits,
    valid.counted,
    length-votes-le valid,
  )

  block_of_pos :
      (h : Bytes)
      → 0 < tally h vs.votes
      → (b : BlockVotes) × (lookup h vs.votes_by_block ≡ some b) × (b.sum ≡ tally h vs.votes)
  block_of_pos h p = elim (Option-cases (lookup h vs.votes_by_block)) [
    | inl absent ↦ absurd (ground (arith, valid.tallied h))
    | inr (b, present) ↦ (b, present, ground (arith, valid.tallied h))
  ]

  voted_bound :
      has_two_thirds_any (some val_set) (some vs) ≡ true
      → (h : Bytes) → 0 < tally h vs.votes
      → tally h vs.votes + left < length val_set.validators * 2 / 3 + 1
  unfolding has_two_thirds_any
  voted_bound won h p =
      let (b, at, sum) = block_of_pos h p in
      let won' : none_can_win (quorum (some val_set)) left vs.votes_by_block ≡ true =
        rw left_sum_lem at won in
      ground (
        arith,
        none_can_win_sound (quorum (some val_set)) left vs.votes_by_block h b won' at,
        quorum_lem val_set valid.fits,
        tally-le h vs.votes,
        length-votes-le valid,
        valid.fits,
        sum,
      )

  no_winner :
      0 < length vs.votes
      → has_two_thirds_any (some val_set) (some vs) ≡ true
      → (h : Bytes) → tally h vs.votes + left < length val_set.validators * 2 / 3 + 1
  no_winner some_vote won h = elim (zero_or_pos (tally h vs.votes)) [
    | inl absent ↦
        let (g, counted) = tally_pos vs.votes some_vote in omega (arith, voted_bound won g counted)
    | inr p ↦ voted_bound won h p
  ]

  all_lose :
      ((h : Bytes) → tally h vs.votes + left < length val_set.validators * 2 / 3 + 1)
      → has_two_thirds_any (some val_set) (some vs) ≡ true
  unfolding has_two_thirds_any
  all_lose f = rw left_sum_lem (
      none_can_win_complete (quorum (some val_set)) left vs.votes_by_block valid.blocks_distinct
        λ h b at. ground (
          arith,
          valid.tallied h,
          f h,
          quorum_lem val_set valid.fits,
          tally-le h vs.votes,
          length-votes-le valid,
          valid.fits,
        ))

  -- In a valid set that has a vote, `hasTwoThirdsAny` is true exactly when no hash can still get a
  -- quorum, even if every validator that has not voted votes for it.
  pub has_two_thirds_any_lem :
      0 < length vs.votes
      → (has_two_thirds_any (some val_set) (some vs) ≡ true) ↔ (
          (h : Bytes)
          → tally h vs.votes + (length val_set.validators - length vs.votes)
            < length val_set.validators * 2 / 3 + 1)
  has_two_thirds_any_lem some_vote = (no_winner some_vote, all_lose)

-- On an empty set `hasTwoThirdsAny` is true, although every hash can still get a quorum.
pub has_two_thirds_any-empty :
    (val_set : ValidatorSet) (vs : VoteSet)
    → vs.votes_by_block ≡ []
    → has_two_thirds_any (some val_set) (some vs) ≡ true
unfolding has_two_thirds_any none_can_win
has_two_thirds_any-empty val_set vs e = rw e
