-- ===== src/Tbft/Caches/Past.antt =====
-- The cache of past states: what it keeps, and how many.
use chainmaker.Prelude.{ℕ, ◌+◌, ◌-◌, ◌≤◌, ◌<◌, ◌≡◌, none, some, arith}
use chainmaker.Prelude.Tests.{ltb, leb, nat_eq, if◌then◌else◌}
use chainmaker.Prelude.Lists.{length}
use chainmaker.Prelude.Eq.{nat_instance}
use chainmaker.Prelude.Map.{
  Map, insert, discard, Distinct, lookup-insert, lookup-discard, insert-Distinct, discard-Distinct,
}
use chainmaker.Prelude.Int.{u64}
use chainmaker.Tbft.State.{ConsensusState}
use chainmaker.Tbft.Caches.{StateCache, add_consensus_state, gc_states, get_consensus_state}
use chainmaker.Tbft.Caches.Counting.{
  IsWithin, length-le_of_IsWithin, discard-IsWithin, insert-IsWithin, IsWithin-mono,
}

-- After a state of a positive height h is added to a cache of a positive size, where h plus the
-- size fits a uint64, the cache has that state at h, what it had at the heights k below h with h <
-- k + size, and nothing at the heights below these.
pub get-add_consensus_state :
    (state : ConsensusState) (c : StateCache) (k : ℕ)
    → 0 < state.height
    → 0 < c.size
    → state.height + c.size < 18446744073709551616
    → k ≤ state.height
    → get_consensus_state k (add_consensus_state (some state) c) ≡ (
        if nat_eq k state.height
        then some state
        else if ltb state.height (k + c.size)
        then get_consensus_state k c
        else none)
unfolding get_consensus_state add_consensus_state gc_states
get-add_consensus_state state c k h s fits le = ground (
  arith,
  lookup-discard (λ j. leb (u64 (j + c.size)) state.height) k (insert state.height state c.cache),
  lookup-insert state.height k state c.cache,
)

-- No entry is above the top height, and none has fallen out of the window of `size` heights.
pub record IsWindow (top : ℕ) (c : StateCache) : Type 0 where
  pub distinct : Distinct c.cache
  pub within : IsWithin (top + 1 - c.size) (top + 1) c.cache

window-length :
    (size h : ℕ) (m : Map ℕ ConsensusState)
    → Distinct m
    → IsWithin (h + 1 - size) (h + 1) m
    → length m ≤ size
window-length size h m d w = length-le_of_IsWithin (h + 1 - size) size m d (
    IsWithin-mono (h + 1 - size) (h + 1) (h + 1 - size) (h + 1 - size + size) m (omega arith)
      (omega arith) w)

-- Adding a state at a positive height that is not below the top, where the height plus the size
-- fits a uint64, to a cache of a positive size keeps the cache within the window of its size, so
-- that it never holds more than `size` states.
pub add_consensus_state-IsWindow :
    (state : ConsensusState) (c : StateCache) (top : ℕ)
    → 0 < c.size
    → state.height + c.size < 18446744073709551616
    → 0 < state.height
    → top ≤ state.height
    → IsWindow top c
    → IsWindow state.height (add_consensus_state (some state) c)
      × (length (add_consensus_state (some state) c).cache ≤ c.size)
unfolding add_consensus_state gc_states
add_consensus_state-IsWindow state c top s fits h le w =
    let p = λ (j : ℕ). leb (u64 (j + c.size)) state.height in
    let lo = state.height + 1 - c.size in
    let m = insert state.height state c.cache in
    let d = discard-Distinct p m (insert-Distinct state.height state c.cache w.distinct) in
    let inside =
      insert-IsWithin (top + 1 - c.size) (state.height + 1) state.height state c.cache (omega arith)
        (omega arith)
        (IsWithin-mono (top + 1 - c.size) (top + 1) (top + 1 - c.size) (state.height + 1) c.cache
          (omega arith) (omega arith) w.within) in
    let kept =
      discard-IsWithin (top + 1 - c.size) (state.height + 1) lo p m (λ k a b e. ground arith)
        inside in
    ground (arith, window-length c.size state.height (discard p m) d kept)
