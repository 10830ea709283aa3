-- ===== src/Timer/Api/Clock.antt =====
-- `ztask_updatetime` and `ztask_timeout` of ztask/ztask_timer.c.
use ztask.Base.{
  ℕ, zero, suc, ◌+◌, ◌-◌, ◌/◌, ◌%◌, ◌^◌, ◌<◌, ◌≡◌, refl, sym, ap, subst, inl, inr, Bool, true,
  false, some, List, [], ◌∷◌, arith, ltb, ◌==◌, Bool-cases, u32_mod, length, In,
}
use ztask.Base.Int.{pos}
use ztask.Timer.{Node, Timer, Slot, at, near_slot, far_slot, timer_add, run_updates}
use ztask.Timer.Wheel.{Inv}
use ztask.Timer.Precise.{
  timer_update-Updated, run_first, run_none, Fires, timer_add-Fires, new_node,
}
use ztask.Timer.Api.{updatetime, timeout, added}

-- `k` updates end, keep the wheel well formed and move its clock by `k` ticks.
run_updates-Inv :
    (k : ℕ) (w : Timer)
    → Inv w
    → (ls : List (List Node)) × (w' : Timer) × (run_updates k w ≡ some (ls, w'))
      × Inv w'
      × (w'.time ≡ (w.time + k) % 2 ^ 32)
      × (length ls ≡ k)
run_updates-Inv zero w v = ([], w, run_none w, v, omega (arith, v.clock), refl)
run_updates-Inv (suc k) w v =
    let (fired, w₁, run, u) = timer_update-Updated w v in
    let (ls, w', later, v', t, n) = run_updates-Inv k w₁ u.inv in
    let now = u.time in
    (fired ∷ ls, w', run_first k w w₁ w' fired ls run later, v', omega arith, ap suc n)

at-set :
    (w : Timer) (s : Slot) (point current : ℕ)
    → at (record w { current_point = point; current = current }) s ≡ at w s
at-set w (near_slot i) point current = refl
at-set w (far_slot level idx) point current = refl

set-Inv :
    (w : Timer) (point current : ℕ)
    → Inv w
    → Inv (record w { current_point = point; current = current })
set-Inv w point current v = record {
  clock = v.clock;
  placed = λ s n h. v.placed s n (subst (λ l. In n l) (at-set w s point current) h);
}

-- `ztask_updatetime` on a well-formed wheel ends and keeps it well formed. At a clock reading that
-- went back it reports an error, dispatches nothing and moves no tick; otherwise it makes one update
-- for each tick between the readings (modulo 2^32).
pub updatetime-Inv :
    (w : Timer) (cp : ℕ)
    → Inv w
    → (back : Bool) × (ls : List (List Node)) × (w' : Timer) × (updatetime w cp
        ≡ some (back, ls, w'))
      × Inv w'
      × (back ≡ ltb cp w.current_point)
      × (length ls ≡ (cp - w.current_point) % 2 ^ 32)
      × (w'.time ≡ (w.time + (cp - w.current_point) % 2 ^ 32) % 2 ^ 32)
unfolding updatetime
updatetime-Inv w cp v = elim (Bool-cases (ltb cp w.current_point)) [
  | inl earlier ↦ (
    true,
    [],
    record w { current_point = cp },
    rw earlier,
    set-Inv w cp w.current v,
    sym earlier,
    ground arith,
    ground (arith, v.clock),
  )
  | inr ahead ↦ elim (Bool-cases (cp == w.current_point)) [
    | inl same ↦
        (false, [], w, rw (ahead, same), v, sym ahead, ground arith, ground (arith, v.clock))
    | inr later ↦
        let d = (cp - w.current_point) % u32_mod in
        let set = record w { current_point = cp; current = (w.current + d) % 2 ^ 64 } in
        let (ls, w', run, v', t, n) = run_updates-Inv d set (set-Inv w cp _ v) in
        (false, ls, w', rw (ahead, later, run), v', sym ahead, n, t)
  ]
]

-- What a positive time of `ztask_timeout` does: the event is dispatched by the update number
-- `time / 10` from then on, at least the first, and by none before.
pub timeout-Fires :
    (w : Timer) (handle time session : ℕ)
    → Inv w
    → 0 < time
    → time < 2 ^ 31
    → (w' : Timer) × (timeout w handle (pos time) session ≡ added w')
      × Fires (time / 10 - 1) w' (new_node w handle session (time / 10))
unfolding timeout
timeout-Fires w handle zero session v h lt = absurd (omega arith)
timeout-Fires w handle (suc n) session v h lt = (
  timer_add w handle session (suc n / 10),
  refl,
  timer_add-Fires w handle session (suc n / 10) v (omega arith),
)
