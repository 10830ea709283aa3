-- ===== src/Timer.antt =====
-- ztask/ztask_timer.c: the timing wheel. A linked list of nodes is the list of its nodes, in order;
-- `link` puts a node at the end. Each function runs under the timer's spinlock, except that
-- `timer_execute` drops it while it dispatches: an addition by another thread is a step before or
-- after the update, and a node that it puts into the current slot is found by the next update's
-- first `timer_execute`.
pub mod Slots
pub mod Wheel
pub mod Update
pub mod Precise
pub mod Api
use ztask.Base.{
  ℕ, zero, suc, ◌+◌, ◌-◌, ◌*◌, ◌/◌, ◌%◌, ◌^◌, Bool, true, false, ◌&&◌, Option, none, some, List, [],
  ◌∷◌, ◌++◌, ltb, leb, ◌==◌, if◌then◌else◌, update, fill_bits, low_bits, shr, u32_mod,
}

-- `struct timer_node` with the `struct timer_event` that follows it in memory.
pub record Node : Type 0 where
  pub expire : ℕ
  pub handle : ℕ
  pub session : ℕ

pub record Timer : Type 0 where
  pub near : ℕ → List Node
  pub t : ℕ → ℕ → List Node
  pub time : ℕ
  pub starttime : ℕ
  pub current : ℕ
  pub current_point : ℕ

-- `&T->near[i]` and `&T->t[level][idx]`.
pub data Slot : Type 0 where
  near_slot : ℕ → Slot
  far_slot : ℕ → ℕ → Slot

abbrev pub at : Timer → Slot → List Node
at w (near_slot i) = w.near i
at w (far_slot level idx) = w.t level idx

abbrev pub put : Timer → Slot → List Node → Timer
put w (near_slot i) l = record w { near = update w.near i l }
put w (far_slot level idx) l = record w { t = update w.t level (update (w.t level) idx l) }

-- `link_clear`: the nodes of the list, which is empty afterwards.
unfoldable pub link_clear : Timer → Slot → List Node × Timer
link_clear w s = (at w s, put w s [])

unfoldable pub link : Timer → Slot → Node → Timer
link w s node = put w s (at w s ++ node ∷ [])

-- The `for` loop of `add_node`, with the rounds that are left; `mask` is 2 ^ (14 + 6 * i).
unfoldable pub find_level : ℕ → ℕ → ℕ → ℕ → ℕ
find_level zero i time current_time = i
find_level (suc rounds) i time current_time =
    let rest = find_level rounds (i + 1) time current_time in
    if fill_bits time (14 + i * 6) == fill_bits current_time (14 + i * 6) then i else rest

-- Where `add_node` links a node that expires at `time`.
unfoldable pub slot_of : ℕ → ℕ → Slot
unfolding find_level
slot_of current_time time =
    if fill_bits time 8 == fill_bits current_time 8
    then near_slot (low_bits time 8)
    else let i = find_level 3 0 time current_time in far_slot i (low_bits (shr time (8 + i * 6)) 6)

unfoldable pub add_node : Timer → Node → Timer
unfolding link
add_node w node = link w (slot_of w.time node.expire) node

-- `timer_add`; `uint32_t` addition.
unfoldable pub timer_add : Timer → ℕ → ℕ → ℕ → Timer
unfolding add_node
timer_add w handle session time =
    add_node w (record { expire = (time + w.time) % u32_mod; handle = handle; session = session })

-- The loop of `move_list`.
unfoldable pub add_nodes : Timer → List Node → Timer
add_nodes w [] = w
add_nodes w (node ∷ nodes) = add_nodes (add_node w node) nodes

unfoldable pub move_list : Timer → ℕ → ℕ → Timer
unfolding link_clear add_nodes
move_list w level idx =
    let (current, w') = link_clear w (far_slot level idx) in add_nodes w' current

-- The `while` loop of `timer_shift` on fuel: `none` if it runs out. `mask` is 2 ^ (8 + 6 * i).
unfoldable pub shift_loop : ℕ → ℕ → ℕ → ℕ → Timer → Option Timer
shift_loop zero ct time i w = none
shift_loop (suc fuel) ct time i w =
    let again = shift_loop fuel ct (shr time 6) (i + 1) w in
    if low_bits ct (8 + i * 6) == 0
    then if low_bits time 6 == 0 then again else some (move_list w i (low_bits time 6))
    else some w

unfoldable pub timer_shift : Timer → Option Timer
unfolding shift_loop
timer_shift w =
    let ct = (w.time + 1) % u32_mod in
    let ticked = record w { time = ct } in
    if ct == 0 then some (move_list ticked 3 0) else shift_loop 4 ct (shr ct 8) 0 ticked

-- `timer_execute`: the nodes that `dispatch_list` gets, in order.
unfoldable pub timer_execute : Timer → List Node × Timer
unfolding link_clear
timer_execute w = link_clear w (near_slot (low_bits w.time 8))

-- `timer_update`: the nodes that are dispatched, and the timer afterwards.
unfoldable pub timer_update : Timer → Option (List Node × Timer)
timer_update w =
    let (late, w₁) = timer_execute w in
    elim (timer_shift w₁) [
      | none ↦ none
      | some w₂ ↦ let (due, w₃) = timer_execute w₂ in some (late ++ due, w₃)
    ]

-- `timer_create_timer`
unfoldable pub timer_create_timer : Timer
timer_create_timer = record {
  near = λ i. [];
  t = λ level idx. [];
  time = 0;
  starttime = 0;
  current = 0;
  current_point = 0;
}

-- `k` calls of `timer_update`, as `ztask_updatetime` makes them: what each one dispatches.
unfoldable pub run_updates : ℕ → Timer → Option (List (List Node) × Timer)
run_updates zero w = some ([], w)
run_updates (suc k) w = elim (timer_update w) [
  | none ↦ none
  | some (fired, w') ↦ elim (run_updates k w') [
    | none ↦ none
    | some (later, w'') ↦ some (fired ∷ later, w'')
  ]
]
