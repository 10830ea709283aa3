-- ===== src/Mq/Ring.antt =====
-- The ring buffer of ztask/ztask_mq.c is a first-in first-out queue of any length.
use ztask.Base.{
  ℕ, suc, ◌*◌, ◌<◌, ◌≡◌, refl, sym, ap, ◌∙◌, ◌≢◌, inl, inr, false, Option, none, some, List, [],
  ◌∷◌, ◌++◌, arith, ◌==◌, update, length, Bool-cases,
}
use ztask.Base.Ring.{
  window, gap, advance, gap-advance, gap-full, gap-step, expanded-contents, written-contents,
  length-window,
}
use ztask.Mq.{Message, MessageQueue, create, mq_length, pop, push, mq_overload_init}

-- What the queue holds, oldest first.
unfoldable pub contents : MessageQueue → List (Option Message)
unfolding window
contents q = window q.queue q.cap q.head (mq_length q)

pub record IsValid (q : MessageQueue) : Type 0 where
  pub head_in : q.head < q.cap
  pub tail_in : q.tail < q.cap

-- `ztask_mq_push` appends the message at the back of a valid queue, growing the array when it is
-- full, so no message is lost or reordered.
pub contents-push :
    (q : MessageQueue) (m : Message) → IsValid q → contents (push q m) ≡ contents q ++ some m ∷ []
unfolding contents push mq_length
contents-push q m v = elim (Bool-cases (q.head == advance q.cap q.tail)) [
  | inl full ↦ rw full (
      expanded-contents written (λ _. none) q.cap (q.cap * 2) q.head (omega (arith, v.head_in))
        v.head_in
      ∙ ap (window written q.cap q.head)
          (sym (gap-full q.cap q.head q.tail v.head_in v.tail_in (ground arith)))
      ∙ appended)
  | inr room ↦ rw room (
      ap (window written q.cap q.head)
        (gap-step q.cap q.head q.tail v.head_in v.tail_in (ground arith))
      ∙ appended)
]
  where
    written : ℕ → Option Message
    written = update q.queue q.tail (some m)

    appended :
        window written q.cap q.head (suc (gap q.cap q.head q.tail))
        ≡ window q.queue q.cap q.head (gap q.cap q.head q.tail) ++ some m ∷ []
    appended = written-contents q.queue q.cap q.head q.tail (some m) v.head_in v.tail_in

-- A push keeps both indices inside the array.
pub push-IsValid : (q : MessageQueue) (m : Message) → IsValid q → IsValid (push q m)
unfolding push
push-IsValid q m v = ground arith

-- What `ztask_mq_pop` does to a queue whose entries are `xs`.
abbrev pub Pops : List (Option Message) → MessageQueue → Type 0
Pops [] q = ((pop q).0 ≡ 1) × (contents (pop q).2 ≡ []) × ((pop q).2.in_global ≡ false)
Pops (x ∷ xs) q =
    ((pop q).0 ≡ 0)
    × ((pop q).1 ≡ x)
    × (contents (pop q).2 ≡ xs)
    × ((pop q).2.in_global ≡ q.in_global)

pub contents-nil : (q : MessageQueue) → q.head ≡ q.tail → contents q ≡ []
unfolding contents mq_length
contents-nil q e = let none_left : mq_length q ≡ 0 = ground arith in rw (none_left, contents)

pub contents-cons :
    (q : MessageQueue)
    → IsValid q
    → q.head ≢ q.tail
    → contents q
      ≡ q.queue q.head
        ∷ window q.queue q.cap (advance q.cap q.head) (gap q.cap (advance q.cap q.head) q.tail)
unfolding contents mq_length
contents-cons q v ne =
    ap (window q.queue q.cap q.head) (gap-advance q.cap q.head q.tail v.head_in v.tail_in ne)

-- `ztask_mq_pop` hands out the oldest message and keeps the others in order; on an empty queue,
-- and on no other, it answers 1 and clears `in_global`.
pub pop-Pops : (q : MessageQueue) → IsValid q → Pops (contents q) q
unfolding contents pop
pop-Pops q v = elim (Bool-cases (q.head == q.tail)) [
  | inl same ↦
      let e : q.head ≡ q.tail = ground arith in
      rw (contents-nil q e) (rw same (refl, contents-nil emptied e, refl))
  | inr ne ↦ rw (contents-cons q v (ground arith)) (rw ne (refl, refl, refl, refl))
]
  where
    emptied : MessageQueue
    emptied = record q { overload_threshold = mq_overload_init; in_global = false }

pub pop-IsValid : (q : MessageQueue) → IsValid q → IsValid (pop q).2
unfolding pop advance
pop-IsValid q v = ground arith

-- `ztask_mq_length` counts the messages in the queue.
pub mq_length-length : (q : MessageQueue) → mq_length q ≡ length (contents q)
unfolding contents
mq_length-length q = sym (length-window q.queue q.cap q.head (mq_length q))

pub create-IsValid : (handle : ℕ) → IsValid (create handle)
unfolding create
create-IsValid handle = omega arith

pub contents-create : (handle : ℕ) → contents (create handle) ≡ []
unfolding contents create mq_length
contents-create handle = refl
