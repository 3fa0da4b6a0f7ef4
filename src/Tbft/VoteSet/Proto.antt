-- ===== src/Tbft/VoteSet/Proto.antt =====
-- A vote set survives its way through the message: `NewVoteSetFromProto` after `ToProto`.
use mathlib.Core.List.{append-nil, append_assoc}
use mathlib.Core.Path.{subst}
use chainmaker.Prelude.{
  ◌≡◌, ◌≢◌, ◌↔◌, refl, sym, ◌∙◌, ap, true, false, none, some, [], ◌∷◌, ◌++◌, arith, inl, inr,
}
use chainmaker.Prelude.Lists.{length, All}
use chainmaker.Prelude.Eq.{Bytes, bytes_eq_iff, bytes_instance}
use chainmaker.Prelude.Map.{Map, lookup, insert, Distinct, lookup-insert}
use chainmaker.Tbft.Validators.{ValidatorSet, contains}
use chainmaker.Tbft.Vote.{Vote, bytes}
use chainmaker.Tbft.VoteSet.{
  VoteSet, Added, admit, check_vote_matched, add_all, copy_map, to_proto, new_vote_set_from_proto,
  new_vote_set,
}
use chainmaker.Tbft.VoteSet.Invariant.{IsValid, AdmittedAs, new_vote_set-IsValid}
use chainmaker.Tbft.VoteSet.Preserved.{
  Admissible, add_vote-cases, admit-IsValid, SameKind, admit-SameKind,
}
use chainmaker.Tbft.VoteSet.Adding.{votes-admit}
use chainmaker.Tbft.VoteSet.Tally.{AreMembers}

module _ {V : Type 0} where
  pub insert-append :
      (k : Bytes) (v : V) (m : Map Bytes V) → lookup k m ≡ none → insert k v m ≡ m ++ (k, v) ∷ []
  unfolding lookup insert
  insert-append k v [] e = refl
  insert-append k v ((j, w) ∷ m) e = ground (arith, insert-append k v m)

  -- No key of the one map is a key of the other.
  abbrev pub IsNew : Map Bytes V → Map Bytes V → Type 0
  IsNew m = All (λ e. lookup e.0 m ≡ none)

  IsNew-insert :
      (k : Bytes) (v : V) (m more : Map Bytes V)
      → lookup k more ≡ none
      → IsNew m more
      → IsNew (insert k v m) more
  unfolding lookup
  IsNew-insert k v m [] e n = tt
  IsNew-insert k v m ((j, w) ∷ more) e n =
      ground
        (arith, IsNew-insert k v m more, lookup-insert k j v m, bytes_eq_iff k j, bytes_eq_iff j k)

  IsNew-nil : (more : Map Bytes V) → IsNew [] more
  unfolding lookup
  IsNew-nil [] = tt
  IsNew-nil (e ∷ more) = (refl, IsNew-nil more)

  copy_map-append :
      (more m : Map Bytes V) → Distinct more → IsNew m more → copy_map more m ≡ m ++ more
  unfolding copy_map
  copy_map-append [] m d n = sym (append-nil m)
  copy_map-append ((k, v) ∷ more) m d n =
      copy_map-append more (insert k v m) d.1 (IsNew-insert k v m more d.0 n.1)
      ∙ ap (λ l. l ++ more) (insert-append k v m n.0)
      ∙ append_assoc m ((k, v) ∷ []) more

  -- A copy of a Go map that ranges over its entries has the same entries.
  pub copy_map_self : (m : Map Bytes V) → Distinct m → copy_map m [] ≡ m
  copy_map_self m d = copy_map-append m [] d (IsNew-nil m)

check-of_SameKind :
    (a b : VoteSet) (w : Vote) → SameKind a b → check_vote_matched a w ≡ check_vote_matched b w
unfolding check_vote_matched
check-of_SameKind a b w k = rw (k.0, k.1, k.2) refl

-- What a set must know of the votes that are still to be added to it.
abbrev WillAdmit : ValidatorSet → VoteSet → Map Bytes Vote → Type 0
WillAdmit val_set vs = All (λ e. AdmittedAs vs e × (contains val_set.validators e.0 ≡ true))

WillAdmit-of_SameKind :
    (val_set : ValidatorSet) (a b : VoteSet) (more : Map Bytes Vote)
    → SameKind a b
    → WillAdmit val_set b more
    → WillAdmit val_set a more
WillAdmit-of_SameKind val_set a b [] k h = tt
WillAdmit-of_SameKind val_set a b ((j, w) ∷ more) k h = (
  ((h.0.0.0, check-of_SameKind a b w k ∙ h.0.0.1), h.0.1),
  WillAdmit-of_SameKind val_set a b more k h.1,
)

add_all-append :
    (val_set : ValidatorSet) (more : Map Bytes Vote) (vs : VoteSet)
    → IsValid val_set vs
    → Distinct more
    → IsNew vs.votes more
    → WillAdmit val_set vs more
    → ((add_all (some val_set) more vs).votes ≡ vs.votes ++ more)
      × IsValid val_set (add_all (some val_set) more vs)
unfolding add_all
add_all-append val_set [] vs v d n w = (sym (append-nil vs.votes), v)
add_all-append val_set ((k, x) ∷ more) vs v d n w =
    let a : Admissible val_set x vs = (w.0.0.1, rw w.0.0.0 w.0.1, rw w.0.0.0 n.0) in
    elim (add_vote-cases val_set x false vs) [
      | inr (refused, _, _) ↦ absurd (refused a)
      | inl (_, e) ↦
          let vs' = admit (some val_set) x false vs in
          let grown : vs'.votes ≡ insert k x vs.votes =
            rw (← w.0.0.0) (votes-admit val_set x false vs v a) in
          let v' : IsValid val_set vs' = admit-IsValid val_set x false vs v a in
          let (same, valid) =
            add_all-append val_set more vs' v' d.1
              (rw grown (IsNew-insert k x vs.votes more d.0 n.1))
              (WillAdmit-of_SameKind val_set vs' vs more (admit-SameKind val_set x false vs v a)
                w.1) in
          (
            ap (λ (r : Added). (add_all (some val_set) more r.vote_set).votes) e
                ∙ same
                ∙ ap (λ l. l ++ more) (grown ∙ insert-append k x vs.votes n.0)
                ∙ append_assoc vs.votes ((k, x) ∷ []) more,
            subst (λ (r : Added). IsValid val_set (add_all (some val_set) more r.vote_set)) (sym e)
                valid,
          )
    ]

-- All votes of a valid set are admitted again by an empty set of its type, height and round.
All-WillAdmit :
    (val_set : ValidatorSet) (a b : VoteSet) (m : Map Bytes Vote)
    → SameKind a b
    → All (AdmittedAs b) m
    → AreMembers val_set.validators m
    → WillAdmit val_set a m
All-WillAdmit val_set a b [] k h c = tt
All-WillAdmit val_set a b ((j, w) ∷ m) k h c =
    (((h.0.0, check-of_SameKind a b w k ∙ h.0.1), c.0), All-WillAdmit val_set a b m k h.1 c.1)

-- Read back with the same validators, the message of a valid set gives a valid set with the same
-- votes in the same order, the same sum, and the same majority, where its hash is not empty.
pub new_vote_set_from_proto-to_proto :
    (val_set : ValidatorSet) (vs : VoteSet)
    → IsValid val_set vs
    → ((new_vote_set_from_proto (some val_set) (to_proto vs)).votes ≡ vs.votes)
      × ((new_vote_set_from_proto (some val_set) (to_proto vs)).sum ≡ vs.sum)
      × ((h : Bytes)
          → h ≢ []
          → ((new_vote_set_from_proto (some val_set) (to_proto vs)).maj23 ≡ bytes h)
            ↔ (vs.maj23 ≡ bytes h))
      × IsValid val_set (new_vote_set_from_proto (some val_set) (to_proto vs))
unfolding new_vote_set_from_proto to_proto new_vote_set
new_vote_set_from_proto-to_proto val_set vs v =
    let empty = new_vote_set vs.type vs.height vs.round in
    let (same, valid) =
      add_all-append val_set vs.votes empty
        (new_vote_set-IsValid val_set vs.type vs.height vs.round v.fits) v.distinct
        (IsNew-nil vs.votes)
        (All-WillAdmit val_set empty vs vs.votes (refl, refl, refl) v.matched v.members) in
    rw (copy_map_self vs.votes v.distinct) (
      same,
      valid.counted ∙ ap length same ∙ sym v.counted,
      λ h ne. (
        λ e. v.complete h ne (rw same at valid.sound h e),
        λ e. valid.complete h ne (rw same (v.sound h e)),
      ),
      valid,
    )
