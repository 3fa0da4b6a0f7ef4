-- ===== src/Tbft/Timer.antt =====
-- consensus-tbft-master/timesched.go: the loop of the time scheduler, as steps of its `select`.
pub mod Order
use chainmaker.Prelude.{ℕ, Bool, true, false, ◌&&◌, ◌||◌, List, [], ◌∷◌, ◌++◌}
use chainmaker.Prelude.Tests.{ltb, leb, nat_eq, if◌then◌else◌}
use chainmaker.Prelude.Int.{ℤ, pos, int_eq, ltb_ℤ}
use chainmaker.Tbft.State.{TimeoutInfo, Step, new_height, step_no}

-- `latest` is the variable `ti` of the loop. The timer is `armed` until it runs out or is stopped;
-- `expired` says that its channel holds a value, which `Stop` leaves there. The channel of timeouts
-- is the list of all that was sent to it.
pub record Scheduler : Type 0 where
  pub latest : TimeoutInfo
  pub armed : Bool
  pub expired : Bool
  pub timeout_c : List TimeoutInfo

abbrev pub zero_timeout : TimeoutInfo
zero_timeout = record { duration = pos 0; height = 0; round = pos 0; step = new_height }

unfoldable pub new_scheduler : Scheduler
new_scheduler = record { latest = zero_timeout; armed = false; expired = false; timeout_c = [] }

-- The test on the height, round and step of a new timeout.
unfoldable pub is_outdated : TimeoutInfo → TimeoutInfo → Bool
is_outdated t ti =
    ltb t.height ti.height
    || (nat_eq t.height ti.height
        && (ltb_ℤ t.round ti.round
            || (int_eq t.round ti.round && leb (step_no t.step) (step_no ti.step))))

pub data Event : Type 0 where
  buffered : TimeoutInfo → Event
  ran_out received : Event

-- A timeout from the buffer, the running out of the timer, and the read of its channel.
unfoldable pub handle : Event → Scheduler → Scheduler
handle (buffered t) ts =
    if is_outdated t ts.latest then ts else record ts { latest = t; armed = true }
handle ran_out ts = if ts.armed then record ts { armed = false; expired = true } else ts
handle received ts =
    if ts.expired
    then record ts { expired = false; timeout_c = ts.timeout_c ++ ts.latest ∷ [] }
    else ts

unfoldable pub handle_all : List Event → Scheduler → Scheduler
handle_all [] ts = ts
handle_all (event ∷ events) ts = handle_all events (handle event ts)
