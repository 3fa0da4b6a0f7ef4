-- ===== src/Tbft/Vote.antt =====
-- consensus-tbft-master/vote.go and pb-go-master/consensus/tbft/tbft.pb.go: votes and their hashes.
use chainmaker.Prelude.{ℕ, Bool, true, false, ◌||◌, ◌↔◌, ◌≡◌, refl, ◌⊎◌, inl, inr, List, [], arith}
use chainmaker.Prelude.Eq.{Bytes, bytes_eq, text}
use chainmaker.Prelude.Int.{ℤ, int_eq, int_eq_iff}

-- The enumeration is open: a message can carry a number that has no name.
pub data VoteType : Type 0 where
  prevote precommit : VoteType
  unknown : ℤ → VoteType

unfoldable pub type_eq : VoteType → VoteType → Bool
type_eq prevote prevote = true
type_eq precommit precommit = true
type_eq (unknown a) (unknown b) = int_eq a b
type_eq _ _ = false

pub type_eq_iff : (a b : VoteType) → (type_eq a b ≡ true) ↔ (a ≡ b)
unfolding type_eq
type_eq_iff prevote prevote = ground arith
type_eq_iff (unknown a) (unknown b) = ground (arith, int_eq_iff a b)
type_eq_iff _ _ = ground arith

-- A `[]byte`: nil, or an array of bytes, which may be empty. `bytes.Equal` compares the contents.
pub data Slice : Type 0 where
  nil : Slice
  bytes : Bytes → Slice

abbrev pub content : Slice → Bytes
content nil = []
content (bytes b) = b

abbrev pub is_nil : Slice → Bool
is_nil nil = true
is_nil (bytes b) = false

pub Slice-cases : (s : Slice) → (s ≡ nil) ⊎ ((b : Bytes) × (s ≡ bytes b))
Slice-cases nil = inl refl
Slice-cases (bytes b) = inr (b, refl)

abbrev pub slice_eq : Slice → Slice → Bool
slice_eq a b = bytes_eq (content a) (content b)

abbrev pub nil_hash : Slice
nil_hash = bytes (text "NilHash")

-- `len(hash) == 0 || bytes.Equal(hash, nilHash)`
unfoldable pub is_nil_hash : Slice → Bool
is_nil_hash hash = bytes_eq (content hash) [] || slice_eq hash nil_hash

-- The endorsement, a signer and a signature, is only handed to the access control.
pub record Vote : Type 0 where
  pub type : VoteType
  pub voter : Bytes
  pub height : ℕ
  pub round : ℤ
  pub hash : Slice
  pub invalid_txs : List Bytes
  pub endorsement : Bytes

unfoldable pub new_vote : VoteType → Bytes → ℕ → ℤ → Slice → Vote
new_vote type voter height round hash = record {
  type = type;
  voter = voter;
  height = height;
  round = round;
  hash = hash;
  invalid_txs = [];
  endorsement = [];
}
