-- ===== src/Tbft/VoteSet/Recording.antt =====
-- Recording an admitted vote keeps the invariant: `record_vote` field by field.
use chainmaker.Prelude.{
  ◌+◌, ◌≤◌, ◌≡◌, ◌≢◌, refl, sym, true, ◌&&◌, none, some, List, [], ◌∷◌, arith, inl, inr,
}
use mathlib.Core.Path.{subst}
use chainmaker.Prelude.Tests.{if◌then◌else◌, ltb, leb, Bool-cases}
use chainmaker.Prelude.Lists.{length, All}
use chainmaker.Prelude.Eq.{Bytes, bytes_eq, bytes_eq_iff, bytes_instance}
use chainmaker.Prelude.Map.{
  Map, lookup, insert, lookup-insert, lookup-insert_self, insert-Distinct, length-insert_new,
}
use chainmaker.Prelude.Int.{u64}
use chainmaker.Tbft.Validators.{ValidatorSet, contains}
use chainmaker.Tbft.Vote.{Vote, Slice, bytes, content, is_nil, Slice-cases}
use chainmaker.Tbft.VoteSet.{
  VoteSet, BlockVotes, quorum, record_vote, add_block_vote, copy_votes, check_vote_matched,
}
use chainmaker.Tbft.VoteSet.Tally.{
  tally, tally-insert_new, tally-le, AreMembers, length-le_of_AreMembers,
}
use chainmaker.Tbft.VoteSet.Invariant.{
  IsValid, AreIn, AreStored, AdmittedAs, block_of, length-votes-le, quorum_unique,
}

insert-same : (k : Bytes) (v : Vote) (m : Map Bytes Vote) → lookup k m ≡ some v → insert k v m ≡ m
unfolding lookup insert
insert-same k v [] h = cc
insert-same k v ((j, w) ∷ m) h = ground (arith, insert-same k v m, bytes_eq_iff j k)

-- The copy of a block's votes into the set writes only what is there.
copy_votes-same : (more m : Map Bytes Vote) → AreIn m more → copy_votes more m ≡ m
unfolding copy_votes
copy_votes-same [] m h = refl
copy_votes-same ((k, v) ∷ more) m h = rw (insert-same k v m h.0) (copy_votes-same more m h.1)

AreIn-insert_new :
    (k : Bytes) (v : Vote) (m more : Map Bytes Vote)
    → lookup k m ≡ none
    → AreIn m more
    → AreIn (insert k v m) more
AreIn-insert_new k v m [] e h = tt
AreIn-insert_new k v m ((j, w) ∷ more) e h =
    ground (arith, AreIn-insert_new k v m more, lookup-insert k j v m, bytes_eq_iff k j)

AreIn-insert_both :
    (k : Bytes) (v : Vote) (m more : Map Bytes Vote)
    → lookup k m ≡ none
    → AreIn m more
    → AreIn (insert k v m) (insert k v more)
unfolding insert
AreIn-insert_both k v m [] e h = (lookup-insert_self k v m, tt)
AreIn-insert_both k v m ((j, w) ∷ more) e h = ground (
  arith,
  AreIn-insert_both k v m more,
  AreIn-insert_new k v m more,
  lookup-insert k j v m,
  lookup-insert_self k v m,
  bytes_eq_iff k j,
)

AreMembers-insert :
    (ws : List Bytes) (k : Bytes) (v : Vote) (m : Map Bytes Vote)
    → contains ws k ≡ true
    → AreMembers ws m
    → AreMembers ws (insert k v m)
unfolding insert
AreMembers-insert ws k v [] c h = (c, tt)
AreMembers-insert ws k v ((j, w) ∷ m) c h = ground (arith, AreMembers-insert ws k v m)

All-insert_vote :
    (P : Bytes × Vote → Type 0) (k : Bytes) (v : Vote) (m : Map Bytes Vote)
    → P (k, v)
    → All P m
    → All P (insert k v m)
unfolding insert
All-insert_vote P k v [] p h = (p, tt)
All-insert_vote P k v ((j, w) ∷ m) p h = ground (arith, All-insert_vote P k v m p)

-- The set with the new vote, before the majority is looked for.
module _ (val_set : ValidatorSet) (vote : Vote) (vs : VoteSet) (valid : IsValid val_set vs)
    (member : contains val_set.validators vote.voter ≡ true)
    (fresh : lookup vote.voter vs.votes ≡ none) (matched : check_vote_matched vs vote ≡ true) where
  abbrev pub votes' : Map Bytes Vote
  votes' = insert vote.voter vote vs.votes

  abbrev pub block' : BlockVotes
  block' = add_block_vote vote (block_of (content vote.hash) vs)

  length-votes' : length votes' ≤ length val_set.validators
  length-votes' =
      length-le_of_AreMembers val_set.validators votes'
        (insert-Distinct vote.voter vote vs.votes valid.distinct)
        (AreMembers-insert val_set.validators vote.voter vote vs.votes member valid.members)

  sum' : u64 (vs.sum + 1) ≡ length votes'
  sum' = omega (
    arith,
    length-insert_new vote.voter vote vs.votes fresh,
    length-votes',
    valid.counted,
    valid.fits,
  )

  sum-block' : block'.sum ≡ tally (content vote.hash) votes'
  unfolding add_block_vote
  sum-block' =
      let h = content vote.hash in
      ground (
        arith,
        valid.tallied h,
        tally-insert_new h vote.voter vote vs.votes fresh,
        bytes_eq_iff h h,
        tally-le h vs.votes,
        length-votes-le valid,
        valid.fits,
      )

  AreIn-block' : AreIn votes' block'.votes
  unfolding add_block_vote
  AreIn-block' =
      AreIn-insert_both vote.voter vote vs.votes _ fresh (valid.copied (content vote.hash))

  abbrev pub maj' : Slice
  maj' =
      if ltb (block_of (content vote.hash) vs).sum (quorum (some val_set))
        && leb (quorum (some val_set)) block'.sum
        && is_nil vs.maj23
      then vote.hash
      else vs.maj23

  pub record_vote_lem : record_vote (some val_set) vote vs ≡ record vs {
    votes = votes';
    sum = u64 (vs.sum + 1);
    votes_by_block = insert (content vote.hash) block' vs.votes_by_block;
    maj23 = maj';
  }
  unfolding record_vote
  record_vote_lem = rw (copy_votes-same block'.votes votes' AreIn-block') (ground arith)

  abbrev recorded : VoteSet
  recorded = record vs {
    votes = votes';
    sum = u64 (vs.sum + 1);
    votes_by_block = insert (content vote.hash) block' vs.votes_by_block;
    maj23 = maj';
  }

  block_of-recorded :
      (h : Bytes)
      → block_of h recorded ≡ (if bytes_eq (content vote.hash) h then block' else block_of h vs)
  block_of-recorded h = ground (arith, lookup-insert (content vote.hash) h block' vs.votes_by_block)

  tallied' : (h : Bytes) → (block_of h recorded).sum ≡ tally h votes'
  tallied' h = ground (
    arith,
    block_of-recorded h,
    sum-block',
    valid.tallied h,
    tally-insert_new h vote.voter vote vs.votes fresh,
    bytes_eq_iff (content vote.hash) h,
  )

  copied' : (h : Bytes) → AreIn votes' (block_of h recorded).votes
  copied' h = elim (Bool-cases (bytes_eq (content vote.hash) h)) [
    | inl same ↦ rw (block_of-recorded h, same) AreIn-block'
    | inr other ↦
        rw (block_of-recorded h, other)
          (AreIn-insert_new vote.voter vote vs.votes _ fresh (valid.copied h))
  ]

  stored' : AreStored recorded
  unfolding add_block_vote
  stored' voter v at =
      let h = content vote.hash in
      let found = lookup-insert vote.voter voter vote vs.votes in
      let in_block = lookup-insert vote.voter voter vote (block_of h vs).votes in
      elim (Bool-cases (bytes_eq vote.voter voter)) [
        | inl own ↦
            let same : vote ≡ v = ground (arith, found, own, at) in
            let here : lookup voter (block_of h recorded).votes ≡ some vote =
              ground (arith, block_of-recorded h, bytes_eq_iff h h, in_block, own) in
            subst (λ (w : Vote). lookup voter (block_of (content w.hash) recorded).votes ≡ some w)
              same here
        | inr other ↦
            let g = content v.hash in
            let old = valid.stored voter v (ground (arith, found, other, at)) in
            elim (Bool-cases (bytes_eq h g)) [
              | inr apart ↦ ground (arith, block_of-recorded g, apart, old)
              | inl same ↦
                  let e : g ≡ h = sym ((bytes_eq_iff h g).0 same) in
                  let before : lookup voter (block_of h vs).votes ≡ some v =
                    subst (λ x. lookup voter (block_of x vs).votes ≡ some v) e old in
                  ground (arith, block_of-recorded g, same, in_block, other, before)
            ]
      ]

  sound' : (h : Bytes) → maj' ≡ bytes h → quorum (some val_set) ≤ tally h votes'
  sound' h e =
      ground (arith, sum-block', valid.sound h, tally-insert_new h vote.voter vote vs.votes fresh)

  complete' : (h : Bytes) → h ≢ [] → quorum (some val_set) ≤ tally h votes' → maj' ≡ bytes h
  complete' h ne q = elim (Bool-cases (bytes_eq (content vote.hash) h)) [
    | inl same ↦ elim (Slice-cases vs.maj23) [
      | inl e ↦ ground (
        arith,
        sum-block',
        valid.tallied h,
        valid.complete h ne,
        tally-insert_new h vote.voter vote vs.votes fresh,
        bytes_eq_iff (content vote.hash) h,
        Slice-cases vote.hash,
      )
      | inr (g, e) ↦ ground (
        arith,
        valid.sound g,
        tally-insert_new g vote.voter vote vs.votes fresh,
        quorum_unique val_set votes' h g valid.fits length-votes',
        bytes_eq_iff h g,
      )
    ]
    | inr other ↦
        ground (arith, valid.complete h ne, tally-insert_new h vote.voter vote vs.votes fresh)
  ]

  matched' : All (AdmittedAs recorded) votes'
  unfolding check_vote_matched
  matched' = All-insert_vote (AdmittedAs vs) vote.voter vote vs.votes (refl, matched) valid.matched

  pub record_vote-IsValid : IsValid val_set (record_vote (some val_set) vote vs)
  record_vote-IsValid = rw record_vote_lem (record {
    fits = valid.fits;
    distinct = insert-Distinct vote.voter vote vs.votes valid.distinct;
    members = AreMembers-insert val_set.validators vote.voter vote vs.votes member valid.members;
    matched = matched';
    blocks_distinct =
        insert-Distinct (content vote.hash) block' vs.votes_by_block valid.blocks_distinct;
    counted = sum';
    tallied = tallied';
    copied = copied';
    stored = stored';
    sound = sound';
    complete = complete';
  })
