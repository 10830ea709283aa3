-- ===== src/Harbor/Ring.antt =====
-- The queues of ztask/server/service_harbor.c are first-in first-out.
use native.Mathlib.Nat.{mod-lt}
use ztask.Base.{
  ℕ, zero, suc, ◌+◌, ◌-◌, ◌*◌, ◌%◌, ◌<◌, ◌≤◌, ◌≡◌, refl, sym, ap, subst, ◌∙◌, inl, inr, true, false,
  none, some, List, [], ◌∷◌, ◌++◌, append-nil, append_assoc, arith, length, ltb, ◌==◌,
  if◌then◌else◌, update, Bool-cases,
}
use ztask.Base.Ring.{
  window, gap, advance, gap-advance, gap-step, written-contents, advance-mod, mod_near,
  length-window,
}
use ztask.Harbor.{
  HarborMsg, MsgQueue, unwritten, grow, push_queue_msg, pop_queue, new_queue, pop_loop, pop_all,
  push_all,
}

-- The messages of a queue, oldest first.
unfoldable pub contents : MsgQueue → List HarborMsg
contents q = window q.slots q.size q.head (gap q.size q.head q.tail)

abbrev pub IsValid : MsgQueue → Type 0
IsValid q = (q.head < q.size) × (q.tail < q.size)

wrapped : (cap t : ℕ) → t < cap → (t + 1) % cap ≡ advance cap t
unfolding advance
wrapped cap t h = ground (arith, mod_near (t + 1) cap (omega arith))

-- The copy of the first `k` messages, read from the slot `i` on.
window-copied :
    (f : ℕ → HarborMsg) (cap grown h k i n : ℕ)
    → k < cap
    → cap < grown
    → h < cap
    → i + n ≤ k
    → window (λ j. if ltb j k then f ((j + h) % cap) else unwritten) grown i n
      ≡ window f cap ((i + h) % cap) n
unfolding window
window-copied f cap grown h k i zero small more hh hi = refl
window-copied f cap grown h k i (suc n) small more hh hi =
    let low : ltb i k ≡ true = ground arith in
    let swap : h + i ≡ i + h = omega arith in
    let swap' : h + (i + 1) ≡ (i + 1) + h = omega arith in
    let next : advance cap ((i + h) % cap) ≡ ((i + 1) + h) % cap =
      ap (λ t. advance cap (t % cap)) (sym swap)
      ∙ advance-mod cap h i hh (omega arith)
      ∙ ap (λ t. t % cap) swap' in
    rw (low, no_wrap, window-copied f cap grown h k (i + 1) n small more hh (omega arith), next)
  where
    no_wrap : advance grown i ≡ i + 1
    no_wrap = unfold advance in ground arith

-- A queue with a slot to spare.
abbrev HasRoom : MsgQueue → Type 0
HasRoom q = IsValid q × ((advance q.size q.tail == q.head) ≡ false)

appended :
    (q : MsgQueue) (m : HarborMsg)
    → HasRoom q
    → window (update q.slots q.tail m) q.size q.head (gap q.size q.head (advance q.size q.tail))
      ≡ contents q ++ m ∷ []
unfolding contents
appended q m ((hh, ht), room) =
    ap (window (update q.slots q.tail m) q.size q.head)
      (gap-step q.size q.head q.tail hh ht (ground arith))
    ∙ written-contents q.slots q.size q.head q.tail m hh ht

grow-contents : (q : MsgQueue) → IsValid q → (contents (grow q) ≡ contents q) × HasRoom (grow q)
unfolding contents
grow-contents q (hh, ht) = elim (Bool-cases ((q.tail + 1) % q.size == q.head)) [
  | inl full ↦
      let all : gap (q.size * 2) 0 (q.size - 1) ≡ q.size - 1 = ground arith in
      let held : gap q.size q.head q.tail ≡ q.size - 1 =
        filled q.size q.head q.tail hh ht (sym (wrapped q.size q.tail ht) ∙ ground arith) in
      let start : (0 + q.head) % q.size ≡ q.head =
        ground (arith, mod_near (0 + q.head) q.size (omega arith)) in
      rw (full, all, held)
        (
          window-copied q.slots q.size (q.size * 2) q.head (q.size - 1) 0 (q.size - 1) (omega arith)
                (omega arith) hh (omega arith)
              ∙ ap (λ s. window q.slots q.size s (q.size - 1)) start,
          ((omega arith, omega arith), spare q.size q.head hh),
        )
  | inr room ↦ rw room (refl, ((hh, ht), rw (sym (wrapped q.size q.tail ht)) room))
]
  where
    filled : (cap h t : ℕ) → h < cap → t < cap → advance cap t ≡ h → gap cap h t ≡ cap - 1
    filled cap h t hh ht e = unfold advance in ground arith

    spare : (cap h : ℕ) → h < cap → (advance (cap * 2) (cap - 1) == 0) ≡ false
    spare cap h hh = unfold advance in ground arith

-- `push_queue_msg` puts the message behind the others, growing the ring when only the reserved slot is free.
pub contents-push_queue_msg :
    (q : MsgQueue) (m : HarborMsg)
    → IsValid q
    → (contents (push_queue_msg q m) ≡ contents q ++ m ∷ []) × IsValid (push_queue_msg q m)
unfolding contents push_queue_msg
contents-push_queue_msg q m v =
    let grown = grow-contents q v in
    let tail : ((grow q).tail + 1) % (grow q).size ≡ advance (grow q).size (grow q).tail =
      wrapped (grow q).size (grow q).tail grown.1.0.1 in
    (
      ap
            (λ t.
              window (update (grow q).slots (grow q).tail m) (grow q).size (grow q).head
                (gap (grow q).size (grow q).head t))
            tail
          ∙ appended (grow q) m grown.1
          ∙ ap (λ l. l ++ m ∷ []) grown.0,
      (grown.1.0.0, mod-lt ((grow q).tail + 1) (omega (arith, grown.1.0.0))),
    )

-- What `pop_queue` does to a queue whose messages are `ms`.
abbrev pub Pops : List HarborMsg → MsgQueue → Type 0
Pops [] q = pop_queue q ≡ none
Pops (m ∷ ms) q =
    (q' : MsgQueue) × (pop_queue q ≡ some (m, q'))
    × (contents q' ≡ ms)
    × IsValid q'
    × (q'.size ≡ q.size)

pub pop_queue-Pops : (q : MsgQueue) → IsValid q → Pops (contents q) q
unfolding contents pop_queue window
pop_queue-Pops q (hh, ht) = elim (Bool-cases (q.head == q.tail)) [
  | inl same ↦
      let none_left : gap q.size q.head q.tail ≡ 0 = ground arith in rw (none_left, same) refl
  | inr ne ↦
      rw (gap-advance q.size q.head q.tail hh ht (ground arith), ne)
        (
          record q { head = (q.head + 1) % q.size },
          refl,
          ap (λ h. window q.slots q.size h (gap q.size h q.tail)) (wrapped q.size q.head hh) ∙ refl,
          (mod-lt (q.head + 1) (omega arith), ht),
          refl,
        )
]

-- The loop of `pop_queue` meets the `n` messages of a queue, with more fuel than that.
pop_loop_all :
    (fuel : ℕ) (q : MsgQueue) (ms : List HarborMsg)
    → IsValid q
    → contents q ≡ ms
    → length ms < fuel
    → pop_loop fuel q ≡ ms
unfolding pop_loop
pop_loop_all zero q ms v e enough = absurd (omega arith)
pop_loop_all (suc fuel) q [] v e enough =
    rw (pop_loop, subst (λ l. Pops l q) e (pop_queue-Pops q v)) refl
pop_loop_all (suc fuel) q (m ∷ ms) v e enough =
    let popped = subst (λ l. Pops l q) e (pop_queue-Pops q v) in
    rw (pop_loop, popped.1)
      (ap (λ (l : List HarborMsg). m ∷ l)
        (pop_loop_all fuel popped.0 ms popped.3 popped.2 (omega arith)))

-- A loop `while ((m = pop_queue(queue)) != NULL)` meets all messages of the queue, oldest first.
pub pop_all-contents : (q : MsgQueue) → IsValid q → pop_all q ≡ contents q
unfolding pop_all contents
pop_all-contents q v = pop_loop_all q.size q (contents q) v refl (
    subst (λ n. n < q.size) (sym (length-window q.slots q.size q.head (gap q.size q.head q.tail)))
      (fits q.size q.head q.tail v))
  where
    fits : (n h t : ℕ) → (h < n) × (t < n) → gap n h t < n
    fits n h t v = ground arith

-- The loop that moves messages to another queue puts them behind its own, in order.
pub contents-push_all :
    (q : MsgQueue) (ms : List HarborMsg)
    → IsValid q
    → (contents (push_all q ms) ≡ contents q ++ ms) × IsValid (push_all q ms)
unfolding push_all
contents-push_all q [] v = (sym (append-nil (contents q)), v)
contents-push_all q (m ∷ ms) v =
    let pushed = contents-push_queue_msg q m v in
    let rest = contents-push_all (push_queue_msg q m) ms pushed.1 in
    (rest.0 ∙ ap (λ l. l ++ ms) pushed.0 ∙ append_assoc (contents q) (m ∷ []) ms, rest.1)

pub new_queue-IsValid : IsValid new_queue
unfolding new_queue
new_queue-IsValid = omega arith

pub contents-new_queue : contents new_queue ≡ []
unfolding contents new_queue window
contents-new_queue = refl
