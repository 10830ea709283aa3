-- ===== src/Timer/Api.antt =====
-- The functions of ztask/ztask_timer.c that the rest of the program calls. The readings of the two
-- clocks are arguments.
pub mod Clock
use ztask.Base.{
  ℕ, zero, suc, ◌+◌, ◌-◌, ◌*◌, ◌/◌, ◌%◌, ◌^◌, Bool, true, false, ◌&&◌, Option, none, some, List, [],
  ◌∷◌, ◌++◌, ltb, ◌==◌, if◌then◌else◌, u32_mod, map,
}
use ztask.Base.Int.{ℤ, pos, negsuc}
use ztask.Timer.{
  Node, Timer, Slot, near_slot, far_slot, at, put, timer_add, timer_create_timer, run_updates,
}

-- `ztask_timeout`: a message to the service at once, or a node in the wheel. A time of 0 or less is
-- sent at once.
pub data Timeout : Type 0 where
  sent_now : ℕ → ℕ → Timeout
  added : Timer → Timeout

unfoldable pub timeout : Timer → ℕ → ℤ → ℕ → Timeout
timeout w handle (negsuc n) session = sent_now handle session
timeout w handle (pos zero) session = sent_now handle session
timeout w handle (pos (suc n)) session = added (timer_add w handle session (suc n / 10))

-- `ztask_updatetime` at the clock reading `cp`: whether it reports a clock that went back, what is
-- dispatched, and the timer afterwards.
unfoldable pub updatetime : Timer → ℕ → Option (Bool × List (List Node) × Timer)
updatetime w cp =
    let diff = (cp - w.current_point) % u32_mod in
    let set = record w { current_point = cp; current = (w.current + diff) % 2 ^ 64 } in
    if ltb cp w.current_point
    then some (true, [], record w { current_point = cp })
    else if cp == w.current_point
    then some (false, [], w)
    else elim (run_updates diff set) [ none ↦ none | some (fired, w') ↦ some (false, fired, w') ]

-- `ztask_timer_init`: `sec` and `cs` are what `systime` reads, `point` what `gettime` reads.
unfoldable pub timer_init : ℕ → ℕ → ℕ → Timer
unfolding timer_create_timer
timer_init sec cs point = record timer_create_timer {
  starttime = sec;
  current = cs;
  current_point = point;
}
