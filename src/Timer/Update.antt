-- ===== src/Timer/Update.antt =====
-- One `timer_update` of ztask/ztask_timer.c dispatches exactly the nodes that are due.
use ztask.Base.{
  ℕ, ◌%◌, ◌^◌, ◌<◌, ◌≡◌, refl, sym, ap, subst, ◌∙◌, ◌≢◌, ◌⊎◌, inl, inr, Option, none, some, List,
  [], ◌==◌, arith, Bool-cases, Option-cases, In, low_bits, shr,
}
use ztask.Timer.{
  Node, Timer, Slot, near_slot, far_slot, at, put, add_nodes, timer_execute, timer_shift,
  shift_loop, move_list, slot_of,
}
use ztask.Timer.Slots.{
  Ahead, slot_form, slot_of-form, moved_slot, next_time, moved_cases, slot-stays, moved-Ahead,
}
use ztask.Timer.Wheel.{
  Inv, Placed, AllPlaced, Holds, Gains, add_nodes-AllPlaced, at-put_self, at-put_ne, put-time,
  Slot-discrete,
}

-- No node of the wheel expires now.
abbrev pub Fresh : Timer → Type 0
Fresh w = (n : Node) → Holds w n → n.expire ≢ w.time

-- The current slot holds the nodes that expire now, and no others.
due_now : (c e : ℕ) → slot_of c e ≡ near_slot (low_bits c 8) → e ≡ c
due_now c e h =
    let h' : slot_form c e ≡ near_slot (c % 2 ^ 8) = sym (slot_of-form c e) ∙ h in ground arith

slot_now : (c : ℕ) → slot_of c c ≡ near_slot (low_bits c 8)
slot_now c = slot_of-form c c ∙ ground arith

-- What one `timer_execute` does.
pub record Executed (w : Timer) (fired : List Node) (w' : Timer) : Type 0 where
  pub time : w'.time ≡ w.time
  pub inv : Inv w'
  pub fresh : Fresh w'
  pub due : (n : Node) → In n fired → (n.expire ≡ w.time) × Holds w n
  pub rest : (n : Node) → Holds w n → In n fired ⊎ Holds w' n
  pub only : (n : Node) → Holds w' n → Holds w n

pub timer_execute-Executed :
    (w : Timer) → Inv w → Executed w (timer_execute w).0 (timer_execute w).1
unfolding timer_execute
timer_execute-Executed w v = record {
  time = now;
  inv = record {
    clock = subst (λ t. t < 2 ^ 32) (sym now) v.clock;
    placed = λ s n h. subst (λ t. Placed t s n) (sym now) (v.placed s n (before s n h));
  };
  fresh = λ n (s, h) e.
      let c_e : n.expire ≡ w.time = e ∙ now in
      let here : s ≡ cur =
        sym ((v.placed s n (before s n h)).0) ∙ ap (slot_of w.time) c_e ∙ slot_now w.time in
      subst (In n) (at-put_self w cur []) (subst (λ z. In n (at cleared z)) here h);
  due = λ n h. (due_now w.time n.expire (v.placed cur n h).0, (cur, h));
  rest = λ n (s, h). elim (Slot-discrete s cur) [
    | yes e ↦ inl (subst (λ z. In n (at w z)) e h)
    | no ne ↦ inr (s, subst (In n) (sym (at-put_ne w cur s [] ne)) h)
  ];
  only = λ n (s, h). (s, before s n h);
}
  where
    cur : Slot
    cur = near_slot (low_bits w.time 8)

    cleared : Timer
    cleared = put w cur []

    now : cleared.time ≡ w.time
    now = put-time w cur []

    before : (s : Slot) (n : Node) → In n (at cleared s) → In n (at w s)
    before s n h = elim (Slot-discrete s cur) [
      | yes e ↦ absurd (subst (In n) (at-put_self w cur []) (subst (λ z. In n (at cleared z)) e h))
      | no ne ↦ subst (In n) (at-put_ne w cur s [] ne) h
    ]

-- The list that `timer_shift` moves, if any.
abbrev moved : Timer → Option Slot → Timer
moved w none = w
moved w (some s) = add_nodes (put w s []) (at w s)

moved-move_list :
    (w : Timer) (level idx : ℕ) → move_list w level idx ≡ moved w (some (far_slot level idx))
unfolding move_list
moved-move_list w level idx = refl

-- The loop of `timer_shift` ends within its four rounds.
shift_loop-moved :
    (ct : ℕ) (w : Timer)
    → ct ≢ 0
    → ct < 2 ^ 32
    → shift_loop 4 ct (shr ct 8) 0 w ≡ some (moved w (moved_slot ct))
unfolding shift_loop
shift_loop-moved ct w nz lt = elim (moved_cases ct nz) [
  | inl (a, m) ↦ rw m (ground arith)
  | inr (inl (a, b, m)) ↦ rw (m, ← moved-move_list) (ground arith)
  | inr (inr (inl (a, b, d, m))) ↦ rw (m, ← moved-move_list) (ground arith)
  | inr (inr (inr (inl (a, b, d, f, m)))) ↦ rw (m, ← moved-move_list) (ground arith)
  | inr (inr (inr (inr (a, b, d, f, m)))) ↦ rw (m, ← moved-move_list) (ground arith)
]

timer_shift-moved :
    (w : Timer)
    → timer_shift w
      ≡ some (moved (record w { time = next_time w.time }) (moved_slot (next_time w.time)))
unfolding timer_shift
timer_shift-moved w = elim (Bool-cases (next_time w.time == 0)) [
  | inl z ↦ rw z (ap some (moved-move_list ticked 3 0))
  | inr nz ↦ rw nz (shift_loop-moved (next_time w.time) ticked (ground arith) (omega arith) ∙ rw nz)
]
  where
    ticked : Timer
    ticked = record w { time = next_time w.time }

-- What `timer_shift` does to a wheel.
pub record Shifted (w w' : Timer) : Type 0 where
  pub time : w'.time ≡ next_time w.time
  pub inv : Inv w'
  pub keeps : (n : Node) → Holds w n → Holds w' n
  pub only : (n : Node) → Holds w' n → Holds w n

some_inj : {s s' : Slot} → some s ≡ some s' → s ≡ s'
some_inj e = cc

at-ticked : (w : Timer) (s : Slot) (c : ℕ) → at (record w { time = c }) s ≡ at w s
at-ticked w (near_slot i) c = refl
at-ticked w (far_slot level idx) c = refl

module _ (w : Timer) (v : Inv w) (fresh : Fresh w) where
  abbrev ct : ℕ
  ct = next_time w.time

  abbrev ticked : Timer
  ticked = record w { time = ct }

  form : (s : Slot) (n : Node) → In n (at w s) → slot_form w.time n.expire ≡ s
  form s n h = sym (slot_of-form w.time n.expire) ∙ (v.placed s n h).0

  -- A node outside the moved list is still where it belongs.
  stays : (s : Slot) (n : Node) → In n (at w s) → moved_slot ct ≢ some s → Placed ct s n
  stays s n h other =
      let (_, ahead, small) = v.placed s n h in
      let (same, ahead') =
        slot-stays w.time n.expire v.clock small (fresh n (s, h)) ahead
          (subst (λ z. moved_slot ct ≢ some z) (sym (form s n h)) other) in
      (slot_of-form ct n.expire ∙ same ∙ form s n h, ahead', small)

  leaves :
      (s : Slot) (n : Node)
      → In n (at w s)
      → moved_slot ct ≡ some s
      → Ahead ct n.expire × (n.expire < 2 ^ 32)
  leaves s n h here =
      let (_, ahead, small) = v.placed s n h in
      (
        moved-Ahead w.time n.expire v.clock small (fresh n (s, h)) ahead
            (here ∙ ap some (sym (form s n h))),
        small,
      )

  ct-lt : ct < 2 ^ 32
  ct-lt = omega arith

  Shifted-none : moved_slot ct ≡ none → Shifted w ticked
  Shifted-none m = record {
    time = refl;
    inv = record {
      clock = ct-lt;
      placed = λ s n h. stays s n (subst (In n) (at-ticked w s ct) h) (λ e. cc (m, e));
    };
    keeps = λ n (s, h). (s, subst (In n) (sym (at-ticked w s ct)) h);
    only = λ n (s, h). (s, subst (In n) (at-ticked w s ct) h);
  }

  Shifted-some : (s₀ : Slot) → moved_slot ct ≡ some s₀ → Shifted w (moved ticked (some s₀))
  Shifted-some s₀ m = record {
    time = done.0;
    inv = record {
      clock = subst (λ t. t < 2 ^ 32) (sym done.0) ct-lt;
      placed = subst (λ t. AllPlaced t (moved ticked (some s₀))) (sym done.0) done.1;
    };
    keeps = λ n (s, h). elim (Slot-discrete s s₀) [
      | yes e ↦
          done.2.takes n (subst (In n) (sym (at-ticked w s₀ ct)) (subst (λ z. In n (at w z)) e h))
      | no ne ↦
          done.2.keeps n (s, subst (In n) (sym (at-put_ne ticked s₀ s [] ne ∙ at-ticked w s ct)) h)
    ];
    only = λ n h. elim (done.2.only n h) [
      | inl i ↦ (s₀, subst (In n) (at-ticked w s₀ ct) i)
      | inr (s, i) ↦ (s, (old s n i).1)
    ];
  }
    where
      emptied : Timer
      emptied = put ticked s₀ []

      old : (s : Slot) (n : Node) → In n (at emptied s) → (s ≢ s₀) × In n (at w s)
      old s n h = elim (Slot-discrete s s₀) [
        | yes e ↦
            absurd (subst (In n) (at-put_self ticked s₀ []) (subst (λ z. In n (at emptied z)) e h))
        | no ne ↦ (ne, subst (In n) (at-put_ne ticked s₀ s [] ne ∙ at-ticked w s ct) h)
      ]

      done :
          ((add_nodes emptied (at ticked s₀)).time ≡ ct)
          × AllPlaced ct (add_nodes emptied (at ticked s₀))
          × Gains emptied (at ticked s₀) (add_nodes emptied (at ticked s₀))
      done =
          add_nodes-AllPlaced ct emptied (at ticked s₀) (put-time ticked s₀ [])
            (λ n i. leaves s₀ n (subst (In n) (at-ticked w s₀ ct) i) m)
            (λ s n h. let (ne, i) = old s n h in stays s n i (λ e. ne (some_inj (sym e ∙ m))))

  pub timer_shift-Shifted : (w' : Timer) × (timer_shift w ≡ some w') × Shifted w w'
  timer_shift-Shifted = elim (Option-cases (moved_slot ct)) [
    | inl m ↦ (ticked, timer_shift-moved w ∙ rw m, Shifted-none m)
    | inr (s₀, m) ↦ (moved ticked (some s₀), timer_shift-moved w ∙ rw m, Shifted-some s₀ m)
  ]
