-- ===== src/Monitor.antt =====
-- ztask/ztask_monitor.c: a worker's monitor finds a message whose handling takes longer than the time
-- between two checks. `version` and `check_version` are `int`s, their 32 bits read as natural numbers.
pub mod Check
use ztask.Base.{ℕ, ◌+◌, ◌%◌, ◌^◌, Bool, true, false, not, Option, none, some, ◌==◌, if◌then◌else◌}

pub record Monitor : Type 0 where
  pub version : ℕ
  pub check_version : ℕ
  pub source : ℕ
  pub destination : ℕ

-- `ztask_monitor_new`
unfoldable pub create : Monitor
create = record { version = 0; check_version = 0; source = 0; destination = 0 }

-- `ztask_monitor_trigger`
unfoldable pub trigger : ℕ → ℕ → Monitor → Monitor
trigger source destination sm = record sm {
  source = source;
  destination = destination;
  version = (sm.version + 1) % 2 ^ 32;
}

-- `ztask_monitor_check`: the service to mark as endless, if any, and the monitor.
unfoldable pub check : Monitor → Option ℕ × Monitor
check sm =
    if sm.version == sm.check_version
    then (if sm.destination == 0 then none else some sm.destination, sm)
    else (none, record sm { check_version = sm.version })
