-- ===== src/Timer/Precise.antt =====
-- A timer of ztask/ztask_timer.c fires at the tick that it was set for: not before, not after.
use ztask.Base.{
  ℕ, zero, suc, ◌+◌, ◌-◌, ◌%◌, ◌^◌, ◌≤◌, ◌<◌, ◌≡◌, refl, sym, ap, subst, ◌∙◌, ◌≢◌, ◌⊎◌, inl, inr,
  some, List, [], ◌∷◌, ◌++◌, arith, u32_mod, In, In-append_left, In-append_right, In-append_cases,
}
use ztask.Timer.{Node, Timer, add_node, timer_add, timer_execute, timer_update, run_updates}
use ztask.Timer.Slots.{Ahead, next_time}
use ztask.Timer.Wheel.{
  Inv, Holds, AllPlaced, add_node-AllPlaced, add_node-time, Holds-add_node, Holds-add_node_self,
  add_node_only,
}
use ztask.Timer.Update.{Fresh, Executed, timer_execute-Executed, Shifted, timer_shift-Shifted}

-- What one `timer_update` does: `fired` is what it dispatches.
pub record Updated (w : Timer) (fired : List Node) (w' : Timer) : Type 0 where
  pub time : w'.time ≡ next_time w.time
  pub inv : Inv w'
  pub fresh : Fresh w'
  pub due :
      (n : Node) → In n fired → ((n.expire ≡ w.time) ⊎ (n.expire ≡ next_time w.time)) × Holds w n
  pub rest : (n : Node) → Holds w n → In n fired ⊎ Holds w' n
  pub only : (n : Node) → Holds w' n → Holds w n
  pub gone : (n : Node) → Holds w' n → n.expire ≢ w.time

compose :
    {w w₁ w₂ w₃ : Timer} {late due : List Node}
    → Executed w late w₁
    → Shifted w₁ w₂
    → Executed w₂ due w₃
    → Updated w (late ++ due) w₃
compose {late} {due} e s d = record {
  time = d.time ∙ s.time ∙ ap next_time e.time;
  inv = d.inv;
  fresh = d.fresh;
  due = λ n h. elim (In-append_cases n late due h) [
    | inl i ↦ (inl ((e.due n i).0), (e.due n i).1)
    | inr i ↦
        let (now, has_it) = d.due n i in
        (inr (now ∙ s.time ∙ ap next_time e.time), e.only n (s.only n has_it))
  ];
  rest = λ n h. elim (e.rest n h) [
    | inl i ↦ inl (In-append_left n late due i)
    | inr h' ↦ elim (d.rest n (s.keeps n h')) [
      | inl i ↦ inl (In-append_right n late due i)
      | inr h'' ↦ inr h''
    ]
  ];
  only = λ n h. e.only n (s.only n (d.only n h));
  gone = λ n h x. e.fresh n (s.only n (d.only n h)) (x ∙ sym e.time);
}

-- `timer_update` of a well-formed wheel ends, moves the clock by one tick, keeps the wheel well
-- formed, and splits its nodes: what it dispatches was in the wheel and expires at the old or the
-- new time, what it keeps expires at another time, and no node appears or disappears.
pub timer_update-Updated :
    (w : Timer)
    → Inv w
    → (fired : List Node) × (w' : Timer) × (timer_update w ≡ some (fired, w')) × Updated w fired w'
unfolding timer_update
timer_update-Updated w v =
    let e = timer_execute-Executed w v in
    let (w₂, run, s) = timer_shift-Shifted (timer_execute w).1 e.inv e.fresh in
    let d = timer_execute-Executed w₂ s.inv in
    (
      (timer_execute w).0 ++ (timer_execute w₂).0,
      (timer_execute w₂).1,
      rw (run, timer_update),
      compose e s d,
    )

-- The node is dispatched by the update number `k`, counted from 0, which is the last, and by none
-- before.
abbrev pub FiresAt : ℕ → Node → List (List Node) → Type 0
FiresAt zero n [] = ⊥
FiresAt zero n (l ∷ []) = In n l
FiresAt zero n (l ∷ _) = ⊥
FiresAt (suc k) n [] = ⊥
FiresAt (suc k) n (l ∷ ls) = (¬ In n l) × FiresAt k n ls

-- One update, taken off the front of a run.
pub run_first :
    (k : ℕ) (w w' w'' : Timer) (fired : List Node) (later : List (List Node))
    → timer_update w ≡ some (fired, w')
    → run_updates k w' ≡ some (later, w'')
    → run_updates (suc k) w ≡ some (fired ∷ later, w'')
unfolding run_updates
run_first k w w' w'' fired later now then_run = rw (now, run_updates, then_run)

pub run_none : (w : Timer) → run_updates 0 w ≡ some ([], w)
unfolding run_updates
run_none w = refl

-- The run of `suc k` updates ends, and dispatches `n` in the last of them only.
abbrev pub Fires : ℕ → Timer → Node → Type 0
Fires k w n =
    (ls : List (List Node)) × (w' : Timer) × (run_updates (suc k) w ≡ some (ls, w'))
    × FiresAt k n ls
    × (¬ Holds w' n)

first_update :
    (w : Timer) (n : Node)
    → Inv w
    → Holds w n
    → (n.expire ≡ w.time) ⊎ (n.expire ≡ next_time w.time)
    → Fires 0 w n
first_update w n v h when =
    let (fired, w', run, u) = timer_update-Updated w v in
    let leaves : (¬ Holds w' n) =
      λ h'. elim when [ inl e ↦ u.gone n h' e | inr e ↦ u.fresh n h' (e ∙ sym u.time) ] in
    (
      fired ∷ [],
      w',
      run_first 0 w w' w' fired [] run (run_none w'),
      elim (u.rest n h) [ inl i ↦ i | inr h' ↦ absurd (leaves h') ],
      leaves,
    )

-- A node in a well-formed wheel that expires in `k + 1` ticks is dispatched by the `k + 1`st update
-- from now, by none before, and is gone from the wheel afterwards.
pub Fires-on_time :
    (k : ℕ) (w : Timer) (n : Node)
    → Inv w
    → Holds w n
    → suc k < 2 ^ 32
    → n.expire ≡ (w.time + suc k) % 2 ^ 32
    → Fires k w n
Fires-on_time zero w n v h lt e = first_update w n v h (inr (omega arith))
Fires-on_time (suc k) w n v h lt e =
    let (fired, w', run, u) = timer_update-Updated w v in
    let clock = v.clock in
    let not_now : (¬ In n fired) =
      λ i. elim ((u.due n i).0) [ inl x ↦ omega arith | inr x ↦ omega arith ] in
    let held : Holds w' n = elim (u.rest n h) [ inl i ↦ absurd (not_now i) | inr h' ↦ h' ] in
    let t = u.time in
    let (ls, w'', later, at_k, gone) =
      Fires-on_time k w' n u.inv held (omega arith) (omega arith) in
    (fired ∷ ls, w'', run_first (suc k) w w' w'' fired ls run later, (not_now, at_k), gone)

-- The node that `timer_add` makes.
abbrev pub new_node : Timer → ℕ → ℕ → ℕ → Node
new_node w handle session time = record {
  expire = (time + w.time) % u32_mod;
  handle = handle;
  session = session;
}

-- `timer_add` with a delay of at most 2^32 - 2^26 ticks keeps the wheel well formed and adds the
-- node, and nothing else.
pub timer_add-Inv :
    (w : Timer) (handle session time : ℕ)
    → Inv w
    → time ≤ 2 ^ 32 - 2 ^ 26
    → let w' = timer_add w handle session time in
      let node = new_node w handle session time in
      Inv w'
      × Holds w' node
      × ((m : Node) → Holds w m → Holds w' m)
      × ((m : Node) → Holds w' m → (m ≡ node) ⊎ Holds w m)
unfolding timer_add
timer_add-Inv w handle session time v le =
    let node = new_node w handle session time in
    let clock = v.clock in
    let ahead : Ahead w.time node.expire = ground arith in
    (
      record {
        clock = subst (λ t. t < 2 ^ 32) (sym (add_node-time w node)) v.clock;
        placed =
            subst (λ t. AllPlaced t (add_node w node)) (sym (add_node-time w node))
              (add_node-AllPlaced w.time w node refl ahead (omega arith) v.placed);
      },
      Holds-add_node_self w node,
      Holds-add_node w node,
      add_node_only w node,
    )

timer_add-time :
    (w : Timer) (handle session time : ℕ) → (timer_add w handle session time).time ≡ w.time
unfolding timer_add
timer_add-time w handle session time = add_node-time w (new_node w handle session time)

-- A timer that is added with a delay of `time` ticks, at most 2^32 - 2^26, is dispatched by the
-- update number `time` after that, by none before, and is gone from the wheel afterwards; a delay of
-- 0 counts as 1.
pub timer_add-Fires :
    (w : Timer) (handle session time : ℕ)
    → Inv w
    → time ≤ 2 ^ 32 - 2 ^ 26
    → Fires (time - 1) (timer_add w handle session time) (new_node w handle session time)
timer_add-Fires w handle session zero v le =
    let (v', h, _, _) = timer_add-Inv w handle session zero v le in
    let clock = v.clock in
    first_update (timer_add w handle session zero) (new_node w handle session zero) v' h
      (inl (omega (arith, timer_add-time w handle session zero)))
timer_add-Fires w handle session (suc k) v le =
    let (v', h, _, _) = timer_add-Inv w handle session (suc k) v le in
    subst (λ j. Fires j (timer_add w handle session (suc k)) (new_node w handle session (suc k)))
      (omega arith)
      (Fires-on_time k (timer_add w handle session (suc k)) (new_node w handle session (suc k)) v' h
        (omega arith) (omega (arith, timer_add-time w handle session (suc k))))
