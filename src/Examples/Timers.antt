-- ===== src/Examples/Timers.antt =====
-- Concrete timers of ztask/ztask_timer.c.
use ztask.Base.{◌+◌, ◌-◌, ◌%◌, ◌^◌, ◌≡◌, Bool, some, List, arith, length, ltb}
use ztask.Timer.{Timer, Node, timer_create_timer, timer_add, timer_update}
use ztask.Timer.Wheel.{Inv, timer_create_timer-Inv}
use ztask.Timer.Precise.{Fires, new_node, timer_add-Fires, Updated, timer_update-Updated}
use ztask.Timer.Api.{updatetime}
use ztask.Timer.Api.Clock.{updatetime-Inv}

-- 300 ticks are more than the near lists span.
timer_add-Fires_example :
    Fires (300 - 1) (timer_add timer_create_timer 7 9 300) (new_node timer_create_timer 7 9 300)
timer_add-Fires_example =
    timer_add-Fires timer_create_timer 7 9 300 timer_create_timer-Inv (omega arith)

timer_update-Updated_example :
    (fired : List Node) × (w' : Timer) × (timer_update timer_create_timer ≡ some (fired, w'))
    × Updated timer_create_timer fired w'
timer_update-Updated_example = timer_update-Updated timer_create_timer timer_create_timer-Inv

updatetime-Inv_example :
    (back : Bool) × (ls : List (List Node)) × (w' : Timer) × (updatetime timer_create_timer 3
      ≡ some (back, ls, w'))
    × Inv w'
    × (back ≡ ltb 3 timer_create_timer.current_point)
    × (length ls ≡ (3 - timer_create_timer.current_point) % 2 ^ 32)
    × (w'.time
        ≡ (timer_create_timer.time + (3 - timer_create_timer.current_point) % 2 ^ 32) % 2 ^ 32)
updatetime-Inv_example = updatetime-Inv timer_create_timer 3 timer_create_timer-Inv
