-- ===== src/Sync/Scheduler/Requests/Groups.antt =====
-- The peers by their numbers of requests, `selectPeer` of chainmaker-go-master/module/sync/scheduler.go.
use chainmaker.Prelude.{
  ℕ, ◌≤◌, ◌<◌, Bool, true, false, Option, none, some, List, [], ◌∷◌, ◌++◌, ◌≡◌, refl, sym, ap, ◌↔◌,
  ◌≢◌, arith,
}
use mathlib.Core.List.{append-nil, append_assoc}
use chainmaker.Prelude.Tests.{leb, if◌then◌else◌, Bool-cases}
use chainmaker.Prelude.Lists.{All, length}
use chainmaker.Prelude.Eq.{Bytes, bytes_instance, nat_instance, ◌==◌, beq_self}
use chainmaker.Prelude.Map.{Map, lookup, insert, Distinct, lookup-insert}
use chainmaker.Sync.Scheduler.Requests.{
  get_height, get_pending_req_in_peer, slice_at, group_by_req, min_num,
}

abbrev pub has_height : ℕ → Option ℕ → Bool
has_height height none = false
has_height height (some at) = leb height at

abbrev merge : Option (List Bytes) → List Bytes → Option (List Bytes)
merge none [] = none
merge none (x ∷ l) = some (x ∷ l)
merge (some a) l = some (a ++ l)

merge-nil : (o : Option (List Bytes)) → o ≡ merge o []
merge-nil none = refl
merge-nil (some a) = ap some (sym (append-nil a))

merge-snoc :
    (o : Option (List Bytes)) (peer : Bytes) (l : List Bytes)
    → merge (some (slice_at o ++ peer ∷ [])) l ≡ merge o (peer ∷ l)
merge-snoc none peer l = refl
merge-snoc (some a) peer l = ap some (append_assoc a (peer ∷ []) l)

module _ (req_num : Bytes → ℕ) where
  abbrev pub those : ℕ → List Bytes → List Bytes
  those n [] = []
  those n (peer ∷ more) = if req_num peer == n then peer ∷ those n more else those n more

  pub lookup-group_by_req :
      (n : ℕ) (peers : List Bytes) (groups : Map ℕ (List Bytes))
      → lookup n (group_by_req req_num peers groups) ≡ merge (lookup n groups) (those n peers)
  unfolding group_by_req
  lookup-group_by_req n [] groups = merge-nil (lookup n groups)
  lookup-group_by_req n (peer ∷ more) groups = ground (
    arith,
    Bool-cases (req_num peer == n),
    lookup-group_by_req n more
        (insert (req_num peer) (slice_at (lookup (req_num peer) groups) ++ peer ∷ []) groups),
    lookup-insert (req_num peer) n (slice_at (lookup (req_num peer) groups) ++ peer ∷ []) groups,
    merge-snoc (lookup n groups) peer (those n more),
  )

  -- Those with n requests are among the peers, and have n requests.
  pub those-All :
      (P : Bytes → Type 0) (n : ℕ) (peers : List Bytes)
      → All P peers
      → All (λ id. P id × (req_num id ≡ n)) (those n peers)
  those-All P n [] all = tt
  those-All P n (peer ∷ more) all =
      ground (arith, those-All P n more all.1, Bool-cases (req_num peer == n))

  pub those-filled :
      (height : ℕ) (id : Bytes) (peers : Map Bytes ℕ)
      → has_height height (lookup id peers) ≡ true
      → 0 < length (those (req_num id) (get_height height peers))
  unfolding lookup get_height
  those-filled height id [] h = cc
  those-filled height id ((name, at) ∷ more) h = ground (
    arith,
    those-filled height id more,
    bytes_instance.agrees name id,
    beq_self (req_num id),
    ap req_num,
  )

min_num_le_start : (groups : Map ℕ (List Bytes)) (min : ℕ) → min_num groups min ≤ min
unfolding min_num
min_num_le_start [] min = omega arith
min_num_le_start ((num, peers) ∷ more) min =
    ground (arith, min_num_le_start more min, min_num_le_start more num)

abbrev is_some : Option (List Bytes) → Bool
is_some none = false
is_some (some l) = true

pub min_num_le :
    (groups : Map ℕ (List Bytes)) (min n : ℕ)
    → is_some (lookup n groups) ≡ true
    → min_num groups min ≤ n
unfolding lookup min_num
min_num_le [] min n h = cc
min_num_le ((num, peers) ∷ more) min n h = ground (
  arith,
  min_num_le_start more min,
  min_num_le_start more num,
  min_num_le more min n,
  min_num_le more num n,
)

min_num_at :
    (groups : Map ℕ (List Bytes)) (min : ℕ)
    → min_num groups min ≢ min
    → is_some (lookup (min_num groups min) groups) ≡ true
unfolding lookup min_num
min_num_at [] min h = elim (h refl) [ ]
min_num_at ((num, peers) ∷ more) min h = ground (arith, min_num_at more min, min_num_at more num)

pub get_height-All :
    (height : ℕ) (all peers : Map Bytes ℕ)
    → ((id : Bytes)
        → has_height height (lookup id peers) ≡ true
        → has_height height (lookup id all) ≡ true)
    → Distinct peers
    → All (λ id. has_height height (lookup id all) ≡ true) (get_height height peers)
unfolding lookup get_height
get_height-All height all [] into d = tt
get_height-All height all ((name, at) ∷ more) into d =
    let later : (id : Bytes)
        → has_height height (lookup id more) ≡ true
        → has_height height (lookup id all) ≡ true =
      λ id h. into id (ground (arith, bytes_instance.agrees name id)) in
    ground (arith, get_height-All height all more later d.1, into name, beq_self name)

pub req_le :
    (pending : Map ℕ Bytes) (peer : Bytes) → get_pending_req_in_peer pending peer ≤ length pending
unfolding get_pending_req_in_peer
req_le [] peer = omega arith
req_le ((height, id) ∷ more) peer = ground (arith, req_le more peer)

pub those_lt :
    (req_num : Bytes → ℕ) (n : ℕ) (peers : List Bytes)
    → length (those req_num n peers) ≤ length peers
those_lt req_num n [] = omega arith
those_lt req_num n (peer ∷ more) = ground (arith, those_lt req_num n more)

is_some-merge : (l : List Bytes) → (is_some (merge none l) ≡ true) ↔ (0 < length l)
is_some-merge [] = ground arith
is_some-merge (x ∷ l) = ground arith

pub slice_at-merge : (l : List Bytes) → slice_at (merge none l) ≡ l
slice_at-merge [] = refl
slice_at-merge (x ∷ l) = refl

module _ (req_num : Bytes → ℕ) (peers : List Bytes) where
  pub is_some-lookup :
      (n : ℕ)
      → (is_some (lookup n (group_by_req req_num peers [])) ≡ true)
        ↔ (0 < length (those req_num n peers))
  unfolding lookup
  is_some-lookup n =
      rw (lookup-group_by_req req_num n peers []) (is_some-merge (those req_num n peers))

  -- The group of the least number has peers, and no group's number is less.
  pub least_group :
      (max : ℕ) (peer : Bytes)
      → 0 < length (those req_num (req_num peer) peers)
      → req_num peer < max
      → 0 < length (those req_num (min_num (group_by_req req_num peers []) max) peers)
  least_group max peer filled small =
      let groups = group_by_req req_num peers [] in
      let le = min_num_le groups max (req_num peer) ((is_some-lookup (req_num peer)).1 filled) in
      (is_some-lookup (min_num groups max)).0 (min_num_at groups max (omega (arith, le)))
