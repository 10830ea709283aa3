-- ===== src/Timer/Wheel.antt =====
-- The nodes that the timing wheel of ztask/ztask_timer.c holds, and what an addition does to them.
use native.Mathlib.Decide.{ℕ_discrete}
use ztask.Base.{
  ℕ, ◌^◌, ◌<◌, ◌≡◌, refl, sym, ap, subst, ◌∙◌, ◌≢◌, ◌⊎◌, inl, inr, List, [], ◌∷◌, arith, In,
  In-append_left, In-append_right, In-append_cases,
}
use ztask.Timer.{
  Node, Timer, Slot, near_slot, far_slot, at, put, link, slot_of, add_node, add_nodes,
  timer_create_timer,
}
use ztask.Timer.Slots.{Ahead}

pub Slot-discrete : Discrete Slot
Slot-discrete = hlevel ℕ_discrete

pub at-put_self : (w : Timer) (s : Slot) (l : List Node) → at (put w s l) s ≡ l
at-put_self w (near_slot i) l = ground arith
at-put_self w (far_slot level idx) l = ground arith

pub at-put_ne : (w : Timer) (s s' : Slot) (l : List Node) → s' ≢ s → at (put w s l) s' ≡ at w s'
at-put_ne w (near_slot i) (near_slot j) l ne = ground arith
at-put_ne w (near_slot i) (far_slot level idx) l ne = refl
at-put_ne w (far_slot level idx) (near_slot j) l ne = refl
at-put_ne w (far_slot level idx) (far_slot k j) l ne = ground arith

pub put-time : (w : Timer) (s : Slot) (l : List Node) → (put w s l).time ≡ w.time
put-time w (near_slot i) l = refl
put-time w (far_slot level idx) l = refl

-- The slot of a node, as seen at time `c`.
abbrev pub Placed : ℕ → Slot → Node → Type 0
Placed c s n = (slot_of c n.expire ≡ s) × Ahead c n.expire × (n.expire < 2 ^ 32)

abbrev pub AllPlaced : ℕ → Timer → Type 0
AllPlaced c w = (s : Slot) (n : Node) → In n (at w s) → Placed c s n

-- The wheel has the node in one of its lists.
abbrev pub Holds : Timer → Node → Type 0
Holds w n = (s : Slot) × In n (at w s)

-- Every node is in the list that `add_node` would choose now, and none that shares the top digit of
-- the clock is overdue.
pub record Inv (w : Timer) : Type 0 where
  pub clock : w.time < 2 ^ 32
  pub placed : AllPlaced w.time w

at-link_cases :
    (w : Timer) (s s' : Slot) (n m : Node)
    → In m (at (link w s n) s')
    → In m (at w s') ⊎ ((m ≡ n) × (s' ≡ s))
unfolding link
at-link_cases w s s' n m h = elim (Slot-discrete s' s) [
  | yes e ↦
      elim (In-append_cases m (at w s) (n ∷ [])
        (subst (In m) (ap (at (put w s _)) e ∙ at-put_self w s _) h)) [
          | inl old ↦ inl (subst (λ z. In m (at w z)) (sym e) old)
          | inr (inl new) ↦ inr (new, e)
          | inr (inr none_such) ↦ elim none_such [ ]
        ]
  | no ne ↦ inl (subst (In m) (at-put_ne w s s' _ ne) h)
]

Holds-link : (w : Timer) (s : Slot) (n m : Node) → Holds w m → Holds (link w s n) m
unfolding link
Holds-link w s n m (s', h) = elim (Slot-discrete s' s) [
  | yes e ↦ (
    s,
    subst (In m) (sym (at-put_self w s _))
        (In-append_left m (at w s) (n ∷ []) (subst (λ z. In m (at w z)) e h)),
  )
  | no ne ↦ (s', subst (In m) (sym (at-put_ne w s s' _ ne)) h)
]

Holds-link_self : (w : Timer) (s : Slot) (n : Node) → Holds (link w s n) n
unfolding link
Holds-link_self w s n =
    (s, subst (In n) (sym (at-put_self w s _)) (In-append_right n (at w s) (n ∷ []) (inl refl)))

pub add_node-time : (w : Timer) (n : Node) → (add_node w n).time ≡ w.time
unfolding add_node link
add_node-time w n = put-time w (slot_of w.time n.expire) _

-- The invariant seen at time `c`, on the way of a list of nodes to their new slots.
pub add_node-AllPlaced :
    (c : ℕ) (w : Timer) (n : Node)
    → w.time ≡ c
    → Ahead c n.expire
    → n.expire < 2 ^ 32
    → AllPlaced c w
    → AllPlaced c (add_node w n)
unfolding add_node
add_node-AllPlaced c w n now ahead small all s m h =
    elim (at-link_cases w (slot_of w.time n.expire) s n m h) [
      | inl old ↦ all s m old
      | inr (e, here) ↦
          subst (λ k. Placed c s k) (sym e)
            (ap (λ x. slot_of x n.expire) (sym now) ∙ sym here, ahead, small)
    ]

pub Holds-add_node : (w : Timer) (n m : Node) → Holds w m → Holds (add_node w n) m
unfolding add_node
Holds-add_node w n m h = Holds-link w (slot_of w.time n.expire) n m h

pub Holds-add_node_self : (w : Timer) (n : Node) → Holds (add_node w n) n
unfolding add_node
Holds-add_node_self w n = Holds-link_self w (slot_of w.time n.expire) n

pub add_node_only : (w : Timer) (n m : Node) → Holds (add_node w n) m → (m ≡ n) ⊎ Holds w m
unfolding add_node
add_node_only w n m (s, h) = elim (at-link_cases w (slot_of w.time n.expire) s n m h) [
  | inl old ↦ inr (s, old)
  | inr (e, here) ↦ inl e
]

-- `add_node` on a list of nodes: what `move_list` does.
abbrev pub Ready : ℕ → List Node → Type 0
Ready c l = (n : Node) → In n l → Ahead c n.expire × (n.expire < 2 ^ 32)

-- The wheel `w'` has exactly the nodes of `w` and those of `l`.
pub record Gains (w : Timer) (l : List Node) (w' : Timer) : Type 0 where
  pub keeps : (m : Node) → Holds w m → Holds w' m
  pub takes : (m : Node) → In m l → Holds w' m
  pub only : (m : Node) → Holds w' m → In m l ⊎ Holds w m

pub add_nodes-AllPlaced :
    (c : ℕ) (w : Timer) (l : List Node)
    → w.time ≡ c
    → Ready c l
    → AllPlaced c w
    → ((add_nodes w l).time ≡ c) × AllPlaced c (add_nodes w l) × Gains w l (add_nodes w l)
unfolding add_nodes
add_nodes-AllPlaced c w [] now ready all =
    (now, all, record { keeps = λ m h. h; takes = λ m h. absurd h; only = λ m h. inr h })
add_nodes-AllPlaced c w (n ∷ l) now ready all =
    let (ahead, small) = ready n (inl refl) in
    let (now', all', gains) =
      add_nodes-AllPlaced c (add_node w n) l (add_node-time w n ∙ now) (λ m i. ready m (inr i))
        (add_node-AllPlaced c w n now ahead small all) in
    (
      now',
      all',
      record {
        keeps = λ m h. gains.keeps m (Holds-add_node w n m h);
        takes = λ m i. elim i [
          | inl e ↦ gains.keeps m (subst (Holds (add_node w n)) (sym e) (Holds-add_node_self w n))
          | inr i' ↦ gains.takes m i'
        ];
        only = λ m h. elim (gains.only m h) [
          | inl i ↦ inl (inr i)
          | inr h' ↦ elim (add_node_only w n m h') [ inl e ↦ inl (inl e) | inr old ↦ inr old ]
        ];
      },
    )

-- The wheel of `timer_create_timer` is well formed and empty.
pub timer_create_timer-Inv : Inv timer_create_timer
unfolding timer_create_timer
timer_create_timer-Inv = record { clock = omega arith; placed = λ s n h. absurd (nothing s n h) }
  where
    nothing : (s : Slot) (n : Node) → In n (at timer_create_timer s) → ⊥
    nothing (near_slot i) n h = h
    nothing (far_slot level idx) n h = h
