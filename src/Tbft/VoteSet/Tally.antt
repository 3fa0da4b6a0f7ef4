-- ===== src/Tbft/VoteSet/Tally.antt =====
-- Counting votes: the tally of a hash over a map of votes, and how many voters a validator set
-- allows.
use chainmaker.Prelude.{
  ℕ, ◌+◌, ◌*◌, ◌/◌, ◌≤◌, ◌<◌, ◌≡◌, ◌≢◌, true, none, some, List, [], ◌∷◌, arith,
}
use chainmaker.Prelude.Tests.{if◌then◌else◌}
use chainmaker.Prelude.Lists.{length, All}
use chainmaker.Prelude.Eq.{Bytes, bytes_eq, bytes_eq_iff, bytes_instance}
use chainmaker.Prelude.Map.{Map, lookup, insert, Distinct}
use chainmaker.Prelude.Int.{pos, int32_of_small, mul32_small, quot32_small, add32_small}
use chainmaker.Tbft.Validators.{ValidatorSet, size, contains}
use chainmaker.Tbft.Vote.{Vote, content}
use chainmaker.Tbft.VoteSet.{quorum, weak_quorum}

-- How many entries vote for a hash.
abbrev pub tally : Bytes → Map Bytes Vote → ℕ
tally h [] = 0
tally h ((k, v) ∷ m) =
    let rest = tally h m in if bytes_eq (content v.hash) h then rest + 1 else rest

pub tally-insert_new :
    (h k : Bytes) (v : Vote) (m : Map Bytes Vote)
    → lookup k m ≡ none
    → tally h (insert k v m) ≡ (if bytes_eq (content v.hash) h then tally h m + 1 else tally h m)
unfolding lookup insert
tally-insert_new h k v [] e = ground arith
tally-insert_new h k v ((j, w) ∷ m) e = ground (arith, tally-insert_new h k v m)

-- Two hashes share no vote.
pub tally-add-le : (h g : Bytes) (m : Map Bytes Vote) → h ≢ g → tally h m + tally g m ≤ length m
tally-add-le h g [] ne = omega arith
tally-add-le h g ((k, v) ∷ m) ne =
    ground
      (arith, tally-add-le h g m, bytes_eq_iff (content v.hash) h, bytes_eq_iff (content v.hash) g)

pub tally-le : (h : Bytes) (m : Map Bytes Vote) → tally h m ≤ length m
tally-le h [] = omega arith
tally-le h ((k, v) ∷ m) = ground (arith, tally-le h m)

-- The list without its first occurrence of a name.
without : Bytes → List Bytes → List Bytes
without v [] = []
without v (w ∷ ws) = let rest = without v ws in if bytes_eq w v then ws else w ∷ rest

length-without :
    (v : Bytes) (ws : List Bytes) → contains ws v ≡ true → length (without v ws) + 1 ≡ length ws
unfolding without contains
length-without v [] h = cc
length-without v (w ∷ ws) h = ground (arith, length-without v ws)

contains-without :
    (v u : Bytes) (ws : List Bytes)
    → v ≢ u
    → contains ws u ≡ true
    → contains (without v ws) u ≡ true
unfolding without contains
contains-without v u [] ne h = h
contains-without v u (w ∷ ws) ne h =
    ground (arith, contains-without v u ws, bytes_eq_iff w v, bytes_eq_iff w u)

abbrev pub AreMembers {ℓ} : {V : Type ℓ} → List Bytes → Map Bytes V → Type 0
AreMembers ws = All (λ e. contains ws e.0 ≡ true)

AreMembers-without :
    {V : Type 0} (v : Bytes) (ws : List Bytes) (m : Map Bytes V)
    → lookup v m ≡ none
    → AreMembers ws m
    → AreMembers (without v ws) m
unfolding lookup
AreMembers-without v ws [] e h = tt
AreMembers-without v ws ((k, x) ∷ m) e h =
    ground (arith, AreMembers-without v ws m, contains-without v k ws, bytes_eq_iff k v)

-- A map without double keys, all of them validators, is no longer than the list of validators.
pub length-le_of_AreMembers :
    {V : Type 0} (ws : List Bytes) (m : Map Bytes V)
    → Distinct m
    → AreMembers ws m
    → length m ≤ length ws
length-le_of_AreMembers ws [] d h = omega arith
length-le_of_AreMembers ws ((k, x) ∷ m) d h = omega (
  arith,
  length-without k ws h.0,
  length-le_of_AreMembers (without k ws) m d.1 (AreMembers-without k ws m d.0 h.1),
)

-- With fewer than 2^30 validators the quorum is that of the numbers, and so is the weak quorum.
pub quorum_lem :
    (val_set : ValidatorSet)
    → length val_set.validators < 1073741824
    → quorum (some val_set) ≡ length val_set.validators * 2 / 3 + 1
unfolding quorum size
quorum_lem val_set h =
    let n = length val_set.validators in
    ground
      (arith, int32_of_small n, mul32_small n 2, quot32_small (n * 2) 2, add32_small (n * 2 / 3) 1)

pub weak_quorum_lem :
    (val_set : ValidatorSet)
    → length val_set.validators < 1073741824
    → weak_quorum (some val_set) ≡ pos (length val_set.validators / 3 + 1)
unfolding weak_quorum size
weak_quorum_lem val_set h =
    let n = length val_set.validators in
    ground
      (arith, int32_of_small n, mul32_small n 1, quot32_small (n * 1) 2, add32_small (n * 1 / 3) 1)
