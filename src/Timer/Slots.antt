-- ===== src/Timer/Slots.antt =====
-- Where ztask/ztask_timer.c keeps a node, as the clock moves on.
use ztask.Base.{
  ℕ, ◌+◌, ◌/◌, ◌%◌, ◌^◌, ◌≤◌, ◌<◌, ◌≡◌, refl, sym, ap, ◌∙◌, ◌≢◌, ◌⊎◌, inl, inr, Option, none, some,
  ltb, ltb→lt, ◌==◌, if◌then◌else◌, fill_bits, arith, Bool-cases,
}
use ztask.Timer.{Slot, near_slot, far_slot, slot_of}

-- `(x | mask) == (y | mask)` compares the bits above the mask.
same_fill_8 : (x y : ℕ) → (fill_bits x 8 == fill_bits y 8) ≡ (x / 2 ^ 8 == y / 2 ^ 8)
same_fill_8 x y = ground arith

same_fill_14 : (x y : ℕ) → (fill_bits x 14 == fill_bits y 14) ≡ (x / 2 ^ 14 == y / 2 ^ 14)
same_fill_14 x y = ground arith

same_fill_20 : (x y : ℕ) → (fill_bits x 20 == fill_bits y 20) ≡ (x / 2 ^ 20 == y / 2 ^ 20)
same_fill_20 x y = ground arith

same_fill_26 : (x y : ℕ) → (fill_bits x 26 == fill_bits y 26) ≡ (x / 2 ^ 26 == y / 2 ^ 26)
same_fill_26 x y = ground arith

-- The slot in closed form.
abbrev pub slot_form : ℕ → ℕ → Slot
slot_form c e =
    if e / 2 ^ 8 == c / 2 ^ 8
    then near_slot (e % 2 ^ 8)
    else if e / 2 ^ 14 == c / 2 ^ 14
    then far_slot 0 (e / 2 ^ 8 % 2 ^ 6)
    else if e / 2 ^ 20 == c / 2 ^ 20
    then far_slot 1 (e / 2 ^ 14 % 2 ^ 6)
    else if e / 2 ^ 26 == c / 2 ^ 26
    then far_slot 2 (e / 2 ^ 20 % 2 ^ 6)
    else far_slot 3 (e / 2 ^ 26 % 2 ^ 6)

pub slot_of-form : (c e : ℕ) → slot_of c e ≡ slot_form c e
unfolding slot_of
slot_of-form c e =
    ground (arith, same_fill_8 e c, same_fill_14 e c, same_fill_20 e c, same_fill_26 e c)

-- The list that `timer_shift` empties when the clock moves to `ct`.
abbrev pub moved_slot : ℕ → Option Slot
moved_slot ct =
    if ct == 0
    then some (far_slot 3 0)
    else if ct % 2 ^ 8 == 0
    then (if ct / 2 ^ 8 % 2 ^ 6 == 0
        then (if ct / 2 ^ 14 % 2 ^ 6 == 0
            then (if ct / 2 ^ 20 % 2 ^ 6 == 0
                then some (far_slot 3 (ct / 2 ^ 26 % 2 ^ 6))
                else some (far_slot 2 (ct / 2 ^ 20 % 2 ^ 6)))
            else some (far_slot 1 (ct / 2 ^ 14 % 2 ^ 6)))
        else some (far_slot 0 (ct / 2 ^ 8 % 2 ^ 6)))
    else none

-- A node that shares the top bits of the clock is not in the past.
abbrev pub Ahead : ℕ → ℕ → Type 0
Ahead c e = (e / 2 ^ 26 ≢ c / 2 ^ 26) ⊎ (c ≤ e)

stay_plain :
    (c e : ℕ)
    → c + 1 < 2 ^ 32
    → e < 2 ^ 32
    → e ≢ c
    → Ahead c e
    → (c + 1) % 2 ^ 8 ≢ 0
    → (slot_form (c + 1) e ≡ slot_form c e) × Ahead (c + 1) e
stay_plain c e hc he ne ahead plain = ground arith

module _ (c e : ℕ) (hc : c + 1 < 2 ^ 32) (he : e < 2 ^ 32) (ne : e ≢ c) (ahead : Ahead c e) where
  stay_0 :
      (c + 1) % 2 ^ 8 ≡ 0
      → (c + 1) / 2 ^ 8 % 2 ^ 6 ≢ 0
      → slot_form c e ≢ far_slot 0 ((c + 1) / 2 ^ 8 % 2 ^ 6)
      → (slot_form (c + 1) e ≡ slot_form c e) × Ahead (c + 1) e
  stay_0 carry end other = ground arith

  stay_1 :
      (c + 1) % 2 ^ 8 ≡ 0
      → (c + 1) / 2 ^ 8 % 2 ^ 6 ≡ 0
      → (c + 1) / 2 ^ 14 % 2 ^ 6 ≢ 0
      → slot_form c e ≢ far_slot 1 ((c + 1) / 2 ^ 14 % 2 ^ 6)
      → (slot_form (c + 1) e ≡ slot_form c e) × Ahead (c + 1) e
  stay_1 carry carry' end other = ground arith

  stay_2 :
      (c + 1) % 2 ^ 8 ≡ 0
      → (c + 1) / 2 ^ 8 % 2 ^ 6 ≡ 0
      → (c + 1) / 2 ^ 14 % 2 ^ 6 ≡ 0
      → (c + 1) / 2 ^ 20 % 2 ^ 6 ≢ 0
      → slot_form c e ≢ far_slot 2 ((c + 1) / 2 ^ 20 % 2 ^ 6)
      → (slot_form (c + 1) e ≡ slot_form c e) × Ahead (c + 1) e
  stay_2 carry carry' carry'' end other = ground arith

  stay_3 :
      (c + 1) % 2 ^ 8 ≡ 0
      → (c + 1) / 2 ^ 8 % 2 ^ 6 ≡ 0
      → (c + 1) / 2 ^ 14 % 2 ^ 6 ≡ 0
      → (c + 1) / 2 ^ 20 % 2 ^ 6 ≡ 0
      → slot_form c e ≢ far_slot 3 ((c + 1) / 2 ^ 26 % 2 ^ 6)
      → (slot_form (c + 1) e ≡ slot_form c e) × Ahead (c + 1) e
  stay_3 carry carry' carry'' end other = ground arith

  Ahead-0 :
      (c + 1) % 2 ^ 8 ≡ 0 → slot_form c e ≡ far_slot 0 ((c + 1) / 2 ^ 8 % 2 ^ 6) → Ahead (c + 1) e
  Ahead-0 carry here = ground arith

  Ahead-1 : slot_form c e ≡ far_slot 1 ((c + 1) / 2 ^ 14 % 2 ^ 6) → Ahead (c + 1) e
  Ahead-1 here = ground arith

  Ahead-2 : slot_form c e ≡ far_slot 2 ((c + 1) / 2 ^ 20 % 2 ^ 6) → Ahead (c + 1) e
  Ahead-2 here = ground arith

  Ahead-3 :
      (c + 1) % 2 ^ 26 ≡ 0 → slot_form c e ≡ far_slot 3 ((c + 1) / 2 ^ 26 % 2 ^ 6) → Ahead (c + 1) e
  Ahead-3 carry here = ground arith

abbrev pub next_time : ℕ → ℕ
next_time c = (c + 1) % 2 ^ 32

module _ (c e : ℕ) (hc : c + 1 ≡ 2 ^ 32) (he : e < 2 ^ 32) (ne : e ≢ c) (ahead : Ahead c e) where
  stay_wrap : slot_form c e ≢ far_slot 3 0 → (slot_form 0 e ≡ slot_form c e) × Ahead 0 e
  stay_wrap other = ground arith

-- Which list is moved, by the carry out of the low digits of the clock.
pub moved_cases :
    (ct : ℕ)
    → ct ≢ 0
    → ((ct % 2 ^ 8 ≢ 0) × (moved_slot ct ≡ none))
      ⊎ (((ct % 2 ^ 8 ≡ 0)
            × (ct / 2 ^ 8 % 2 ^ 6 ≢ 0)
            × (moved_slot ct ≡ some (far_slot 0 (ct / 2 ^ 8 % 2 ^ 6))))
          ⊎ (((ct % 2 ^ 8 ≡ 0)
                × (ct / 2 ^ 8 % 2 ^ 6 ≡ 0)
                × (ct / 2 ^ 14 % 2 ^ 6 ≢ 0)
                × (moved_slot ct ≡ some (far_slot 1 (ct / 2 ^ 14 % 2 ^ 6))))
              ⊎ (((ct % 2 ^ 8 ≡ 0)
                    × (ct / 2 ^ 8 % 2 ^ 6 ≡ 0)
                    × (ct / 2 ^ 14 % 2 ^ 6 ≡ 0)
                    × (ct / 2 ^ 20 % 2 ^ 6 ≢ 0)
                    × (moved_slot ct ≡ some (far_slot 2 (ct / 2 ^ 20 % 2 ^ 6))))
                  ⊎ ((ct % 2 ^ 8 ≡ 0)
                      × (ct / 2 ^ 8 % 2 ^ 6 ≡ 0)
                      × (ct / 2 ^ 14 % 2 ^ 6 ≡ 0)
                      × (ct / 2 ^ 20 % 2 ^ 6 ≡ 0)
                      × (moved_slot ct ≡ some (far_slot 3 (ct / 2 ^ 26 % 2 ^ 6)))))))
moved_cases ct nz = elim (Bool-cases (ct % 2 ^ 8 == 0)) [
  | inr a ↦ inl (ground arith, ground arith)
  | inl a ↦ elim (Bool-cases (ct / 2 ^ 8 % 2 ^ 6 == 0)) [
    | inr b ↦ inr (inl (ground arith, ground arith, ground arith))
    | inl b ↦ elim (Bool-cases (ct / 2 ^ 14 % 2 ^ 6 == 0)) [
      | inr d ↦ inr (inr (inl (ground arith, ground arith, ground arith, ground arith)))
      | inl d ↦ elim (Bool-cases (ct / 2 ^ 20 % 2 ^ 6 == 0)) [
        | inr f ↦
            inr (
              inr
                (inr (inl (ground arith, ground arith, ground arith, ground arith, ground arith))))
        | inl f ↦
            inr (
              inr
                (inr (inr (ground arith, ground arith, ground arith, ground arith, ground arith))))
      ]
    ]
  ]
]

differs : {s s' : Slot} {m : Option Slot} → m ≢ some s → m ≡ some s' → s ≢ s'
differs h e x = h (e ∙ ap some (sym x))

agrees : {s s' : Slot} {m : Option Slot} → m ≡ some s → m ≡ some s' → s ≡ s'
agrees h e = cc

module _ (c e : ℕ) (hc : c < 2 ^ 32) (he : e < 2 ^ 32) (ne : e ≢ c) (ahead : Ahead c e) where
  stays_plain :
      c + 1 < 2 ^ 32
      → moved_slot (c + 1) ≢ some (slot_form c e)
      → (slot_form (c + 1) e ≡ slot_form c e) × Ahead (c + 1) e
  stays_plain lt other = elim (moved_cases (c + 1) (omega arith)) [
    | inl (a, _) ↦ stay_plain c e lt he ne ahead a
    | inr (inl (a, b, m)) ↦ stay_0 c e lt he ne ahead a b (differs other m)
    | inr (inr (inl (a, b, d, m))) ↦ stay_1 c e lt he ne ahead a b d (differs other m)
    | inr (inr (inr (inl (a, b, d, f, m)))) ↦ stay_2 c e lt he ne ahead a b d f (differs other m)
    | inr (inr (inr (inr (a, b, d, f, m)))) ↦ stay_3 c e lt he ne ahead a b d f (differs other m)
  ]

  Ahead-plain : c + 1 < 2 ^ 32 → moved_slot (c + 1) ≡ some (slot_form c e) → Ahead (c + 1) e
  Ahead-plain lt here = elim (moved_cases (c + 1) (omega arith)) [
    | inl (a, m) ↦ absurd (cc (here, m))
    | inr (inl (a, b, m)) ↦ Ahead-0 c e lt he ne ahead a (agrees here m)
    | inr (inr (inl (a, b, d, m))) ↦ Ahead-1 c e lt he ne ahead (agrees here m)
    | inr (inr (inr (inl (a, b, d, f, m)))) ↦ Ahead-2 c e lt he ne ahead (agrees here m)
    | inr (inr (inr (inr (a, b, d, f, m)))) ↦
        Ahead-3 c e lt he ne ahead (omega arith) (agrees here m)
  ]

  -- A node that is not in the list that is moved keeps its slot.
  pub slot-stays :
      moved_slot (next_time c) ≢ some (slot_form c e)
      → (slot_form (next_time c) e ≡ slot_form c e) × Ahead (next_time c) e
  slot-stays other = elim (Bool-cases (ltb (c + 1) (2 ^ 32))) [
    | inl lt ↦
        let same : next_time c ≡ c + 1 = ground arith in
        rw same (stays_plain (ltb→lt _ _ lt) (rw same at other))
    | inr wraps ↦
        let zero_time : next_time c ≡ 0 = ground arith in
        rw zero_time
          (stay_wrap c e (ground arith) he ne ahead (differs (rw zero_time at other) refl))
  ]

  -- A node that is moved is not in the past.
  pub moved-Ahead : moved_slot (next_time c) ≡ some (slot_form c e) → Ahead (next_time c) e
  moved-Ahead here = elim (Bool-cases (ltb (c + 1) (2 ^ 32))) [
    | inl lt ↦
        let same : next_time c ≡ c + 1 = ground arith in
        rw same (Ahead-plain (ltb→lt _ _ lt) (rw same at here))
    | inr wraps ↦ inr (ground arith)
  ]
