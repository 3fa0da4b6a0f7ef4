-- ===== src/Tbft/Timer/Order.antt =====
-- The timeouts come out in the order of height, round and step; and one can come out too early.
use chainmaker.Prelude.{
  ◌≤◌, ◌≡◌, refl, inl, inr, ◌⊎◌, ◌<◌, ◌∙◌, Bool, true, false, ◌&&◌, ◌||◌, List, [], ◌∷◌, ◌++◌,
  arith,
}
use chainmaker.Prelude.Tests.{ltb, leb, nat_eq, Bool-cases}
use chainmaker.Prelude.Lists.{All, All-append}
use chainmaker.Prelude.Int.{int_eq, int_eq_iff, ltb_ℤ, ◌<ℤ◌}
use chainmaker.Tbft.State.{TimeoutInfo, step_no}
use chainmaker.Tbft.Timer.{
  Scheduler, new_scheduler, is_outdated, Event, buffered, ran_out, received, handle, handle_all,
}

-- No timeout of the list is above the given one.
abbrev pub AreBelow : TimeoutInfo → List TimeoutInfo → Type 0
AreBelow t = All (λ d. is_outdated d t ≡ true)

-- No timeout of the list is above a later one.
abbrev pub IsOrdered : List TimeoutInfo → Type 0
IsOrdered [] = Unit
IsOrdered (d ∷ ds) = All (λ t. is_outdated d t ≡ true) ds × IsOrdered ds

is_outdated_refl : (t : TimeoutInfo) → is_outdated t t ≡ true
unfolding is_outdated
is_outdated_refl t = ground (arith, (int_eq_iff t.round t.round).1 refl)

is_outdated_total : (s t : TimeoutInfo) → is_outdated t s ≡ false → is_outdated s t ≡ true
unfolding is_outdated
is_outdated_total s t e = ground (arith, int_eq_iff s.round t.round, int_eq_iff t.round s.round)

IsAtMost : TimeoutInfo → TimeoutInfo → Type 0
IsAtMost a b =
    (a.height < b.height)
    ⊎ (a.height ≡ b.height)
      × ((a.round <ℤ b.round) ⊎ (a.round ≡ b.round) × (step_no a.step ≤ step_no b.step))

or_and : (x y z : Bool) → x ≡ false → (x || (y && z)) ≡ true → (y ≡ true) × (z ≡ true)
or_and x y z f e = (ground arith, ground arith)

is_outdated-IsAtMost : (a b : TimeoutInfo) → is_outdated a b ≡ true → IsAtMost a b
unfolding is_outdated IsAtMost
is_outdated-IsAtMost a b e = elim (Bool-cases (ltb a.height b.height)) [
  | inl less ↦ inl (ground arith)
  | inr more ↦
      let (h, rest) =
        or_and (ltb a.height b.height) (nat_eq a.height b.height)
          (ltb_ℤ a.round b.round
            || (int_eq a.round b.round && leb (step_no a.step) (step_no b.step)))
          more e in
      elim (Bool-cases (ltb_ℤ a.round b.round)) [
        | inl less ↦ inr (ground arith, inl (ground arith))
        | inr above ↦
            let (r, st) =
              or_and (ltb_ℤ a.round b.round) (int_eq a.round b.round)
                (leb (step_no a.step) (step_no b.step)) above rest in
            inr (ground arith, inr ((int_eq_iff a.round b.round).0 r, ground arith))
      ]
]

IsAtMost-is_outdated : (a b : TimeoutInfo) → IsAtMost a b → is_outdated a b ≡ true
unfolding is_outdated IsAtMost
IsAtMost-is_outdated a b (inl less) = ground arith
IsAtMost-is_outdated a b (inr (same, inl less)) = ground arith
IsAtMost-is_outdated a b (inr (same, inr (e, le))) =
    ground (arith, (int_eq_iff a.round b.round).1 e)

IsAtMost-trans : (a b c : TimeoutInfo) → IsAtMost a b → IsAtMost b c → IsAtMost a c
unfolding IsAtMost
IsAtMost-trans a b c (inl x) (inl y) = inl (omega arith)
IsAtMost-trans a b c (inl x) (inr (y, z)) = inl (rw (← y) x)
IsAtMost-trans a b c (inr (x, w)) (inl y) = inl (rw x y)
IsAtMost-trans a b c (inr (x, inl w)) (inr (y, inl z)) = inr (x ∙ y, inl (omega arith))
IsAtMost-trans a b c (inr (x, inl w)) (inr (y, inr (e, z))) = inr (x ∙ y, inl (rw (← e) w))
IsAtMost-trans a b c (inr (x, inr (d, w))) (inr (y, inl z)) = inr (x ∙ y, inl (rw d z))
IsAtMost-trans a b c (inr (x, inr (d, w))) (inr (y, inr (e, z))) =
    inr (x ∙ y, inr (d ∙ e, omega arith))

is_outdated_trans :
    (a b c : TimeoutInfo) → is_outdated a b ≡ true → is_outdated b c ≡ true → is_outdated a c ≡ true
is_outdated_trans a b c e f =
    IsAtMost-is_outdated a c
      (IsAtMost-trans a b c (is_outdated-IsAtMost a b e) (is_outdated-IsAtMost b c f))

AreBelow-up :
    (a b : TimeoutInfo) (ds : List TimeoutInfo)
    → is_outdated a b ≡ true
    → AreBelow a ds
    → AreBelow b ds
AreBelow-up a b [] e f = tt
AreBelow-up a b (d ∷ ds) e f = (is_outdated_trans d a b f.0 e, AreBelow-up a b ds e f.1)

append-IsOrdered :
    (ds : List TimeoutInfo) (t : TimeoutInfo)
    → IsOrdered ds
    → AreBelow t ds
    → IsOrdered (ds ++ t ∷ [])
append-IsOrdered [] t o b = (tt, tt)
append-IsOrdered (d ∷ ds) t o b = (
  All-append (λ x. is_outdated d x ≡ true) ds (t ∷ []) o.0 (b.0, tt),
  append-IsOrdered ds t o.1 b.1,
)

-- What was sent is in order, and not above the latest timeout.
pub record IsSorted (ts : Scheduler) : Type 0 where
  pub ordered : IsOrdered ts.timeout_c
  pub below : AreBelow ts.latest ts.timeout_c

pub handle-IsSorted : (event : Event) (ts : Scheduler) → IsSorted ts → IsSorted (handle event ts)
unfolding handle
handle-IsSorted (buffered t) ts s = elim (Bool-cases (is_outdated t ts.latest)) [
  | inl old ↦ rw old s
  | inr new ↦ rw new (record {
    ordered = s.ordered;
    below = AreBelow-up ts.latest t ts.timeout_c (is_outdated_total ts.latest t new) s.below;
  })
]
handle-IsSorted ran_out ts s = record {
  ordered = ground (arith, s.ordered);
  below = ground (arith, s.below);
}
handle-IsSorted received ts s = elim (Bool-cases ts.expired) [
  | inl on ↦ rw on (record {
    ordered = append-IsOrdered ts.timeout_c ts.latest s.ordered s.below;
    below =
        All-append (λ d. is_outdated d ts.latest ≡ true) ts.timeout_c (ts.latest ∷ []) s.below
          (is_outdated_refl ts.latest, tt);
  })
  | inr off ↦ simp off s
]

handle_all-IsSorted :
    (events : List Event) (ts : Scheduler) → IsSorted ts → IsSorted (handle_all events ts)
unfolding handle_all
handle_all-IsSorted [] ts s = s
handle_all-IsSorted (event ∷ events) ts s =
    handle_all-IsSorted events (handle event ts) (handle-IsSorted event ts s)

-- Whatever is scheduled and whenever the timer runs out, the timeouts are sent in the order of their
-- height, round and step: none is above a later one.
pub handle_all-IsOrdered :
    (events : List Event) → IsOrdered (handle_all events new_scheduler).timeout_c
handle_all-IsOrdered events =
    (handle_all-IsSorted events new_scheduler
      (unfold new_scheduler in record { ordered = tt; below = tt })).ordered

-- When the timer has run out and its channel is not read yet, a new timeout that is not outdated is
-- sent at once, while its own timer is still running.
pub sent_early :
    (t : TimeoutInfo) (ts : Scheduler)
    → ts.armed ≡ true
    → is_outdated t ts.latest ≡ false
    → let after = handle_all (ran_out ∷ buffered t ∷ received ∷ []) ts in
      (after.timeout_c ≡ ts.timeout_c ++ t ∷ []) × (after.armed ≡ true)
unfolding handle_all handle
sent_early t ts on new = (ground arith, ground arith)
