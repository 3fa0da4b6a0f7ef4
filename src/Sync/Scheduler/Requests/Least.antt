-- ===== src/Sync/Scheduler/Requests/Least.antt =====
-- `selectPeer` of chainmaker-go-master/module/sync/scheduler.go.
use chainmaker.Prelude.{
  ℕ, ◌≤◌, ◌<◌, true, false, Option, some, List, [], ◌≡◌, refl, ◌⊎◌, inl, inr, arith,
}
use chainmaker.Prelude.Tests.{nat_eq, Bool-cases, Option-cases}
use chainmaker.Prelude.Lists.{All, All-get_elem?, length, get_elem?_total}
use chainmaker.Prelude.Eq.{Bytes, bytes_instance, nat_instance}
use chainmaker.Prelude.Map.{lookup, Distinct}
use chainmaker.Sync.Scheduler.{Scheduler}
use chainmaker.Sync.Scheduler.Requests.{
  max_int64, get_height, get_pending_req_in_peer, slice_at, group_by_req, min_num, rand_int_n, pick,
  select_peer,
}
use chainmaker.Sync.Scheduler.Requests.Groups.{
  has_height, those, lookup-group_by_req, those-All, those-filled, min_num_le, get_height-All,
  req_le, those_lt, slice_at-merge, is_some-lookup, least_group,
}

-- What `rand.Int` promises: a number below n.
abbrev pub InRange : (ℕ → Option ℕ) → Type 0
InRange rand_int = (n : ℕ) (number : ℕ) → rand_int n ≡ some number → number < n

-- A peer that has the height, and as few requests as any that has it.
abbrev pub HasLeast : ℕ → Scheduler → Bytes → Type 0
HasLeast height sch peer =
    (has_height height (lookup peer sch.peers) ≡ true)
    × ((id : Bytes)
        → has_height height (lookup id sch.peers) ≡ true
        → get_pending_req_in_peer sch.pending_blocks peer
          ≤ get_pending_req_in_peer sch.pending_blocks id)

module _ (rand_int : ℕ → Option ℕ) (range : InRange rand_int) where
  rand_int_n_lt : (n : ℕ) → 0 < n → rand_int_n rand_int n < n
  unfolding rand_int_n
  rand_int_n_lt n h = elim (Option-cases (rand_int n)) [
    | inl e ↦ rw (rand_int_n, e) h
    | inr (number, e) ↦ rw (rand_int_n, e) (range n number e)
  ]

  pick-All :
      (P : Bytes → Type 0) (peers : List Bytes)
      → 0 < length peers
      → All P peers
      → (id : Bytes) × (pick rand_int peers ≡ some id) × P id
  unfolding pick
  pick-All P peers h all = elim (Bool-cases (nat_eq (length peers) 1)) [
    | inl one ↦
        let (id, e) = get_elem?_total peers 0 h in (id, rw one e, All-get_elem? P peers 0 all e)
    | inr more ↦
        let (id, e) =
          get_elem?_total peers (rand_int_n rand_int (length peers))
            (rand_int_n_lt (length peers) h) in
        (id, rw more e, All-get_elem? P peers (rand_int_n rand_int (length peers)) all e)
  ]

  pick_least :
      (req_num : Bytes → ℕ) (P : Bytes → Type 0) (peers : List Bytes) (max : ℕ) (peer : Bytes)
      → All P peers
      → 0 < length (those req_num (req_num peer) peers)
      → req_num peer < max
      → let groups = group_by_req req_num peers [] in
        (id : Bytes) × (pick rand_int (slice_at (lookup (min_num groups max) groups)) ≡ some id)
        × (P id × (req_num id ≡ min_num groups max))
  unfolding lookup
  pick_least req_num P peers max peer all filled small =
      let groups = group_by_req req_num peers [] in
      let least = min_num groups max in
      rw (lookup-group_by_req req_num least peers [], slice_at-merge (those req_num least peers))
        (pick-All (λ id. P id × (req_num id ≡ least)) (those req_num least peers)
          (least_group req_num peers max peer filled small) (those-All req_num P least peers all))

  -- Over peers of which none is listed twice and fewer pending blocks than the largest int64, and
  -- whatever number below its argument the random generator returns, or an error, selectPeer does
  -- not panic: it returns a peer that has the height and as few pending blocks as any peer that
  -- has it, or the empty name, and then no peer has the height.
  pub select_peer_lem :
      (height : ℕ) (sch : Scheduler)
      → Distinct sch.peers
      → length sch.pending_blocks < max_int64
      → ((select_peer rand_int height sch ≡ some [])
          × ((id : Bytes) → has_height height (lookup id sch.peers) ≡ false))
        ⊎ ((peer : Bytes) × (select_peer rand_int height sch ≡ some peer)
            × HasLeast height sch peer)
  unfolding select_peer
  select_peer_lem height sch d small =
      let peers = get_height height sch.peers in
      let req_num = get_pending_req_in_peer sch.pending_blocks in
      let all = get_height-All height sch.peers sch.peers (λ id h. h) d in
      elim (Bool-cases (nat_eq (length peers) 0)) [
        | inl empty ↦ inl (
          rw empty refl,
          λ id. elim (Bool-cases (has_height height (lookup id sch.peers))) [
            | inl has ↦ ground (
              arith,
              those-filled req_num height id sch.peers has,
              those_lt req_num (req_num id) peers,
            )
            | inr lacks ↦ lacks
          ],
        )
        | inr some_peer ↦
            let (first, at) = get_elem?_total peers 0 (ground arith) in
            let filled = λ (id : Bytes). those-filled req_num height id sch.peers in
            let has_first =
              All-get_elem? (λ id. has_height height (lookup id sch.peers) ≡ true) peers 0 all at in
            let (peer, picked, (has, least)) =
              pick_least req_num (λ id. has_height height (lookup id sch.peers) ≡ true) peers
                max_int64 first all (filled first has_first)
                (omega (arith, req_le sch.pending_blocks first)) in
            inr (
              peer,
              rw some_peer picked,
              (
                has,
                λ id h. omega (
                  arith,
                  least,
                  min_num_le (group_by_req req_num peers []) max_int64 (req_num id)
                      ((is_some-lookup req_num peers (req_num id)).1 (filled id h)),
                ),
              ),
            )
      ]
