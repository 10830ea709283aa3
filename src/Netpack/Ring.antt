-- ===== src/Netpack/Ring.antt =====
-- The ring of waiting packages of ztask/lualib/lua-netpack.c is a first-in first-out queue.
use ztask.Base.{
  ℕ, suc, ◌+◌, ◌-◌, ◌<◌, ◌≡◌, refl, sym, ap, ◌∙◌, inl, inr, Option, none, some, List, [], ◌∷◌, ◌++◌,
  arith, leb, ◌==◌, if◌then◌else◌, update, Bool-cases,
}
use ztask.Base.Ring.{
  window, gap, advance, gap-advance, gap-full, gap-step, expanded-contents, written-contents,
}
use ztask.Netpack.{Queue, Pack, push_data, pop, new_queue, queue_size}

-- The waiting packages, oldest first.
unfoldable pub contents : Queue → List (Option Pack)
contents q = window q.queue q.cap q.head (gap q.cap q.head q.tail)

abbrev pub IsValid : Queue → Type 0
IsValid q = (q.head < q.cap) × (q.tail < q.cap)

wrapped_tail :
    (cap t : ℕ) → t < cap → (if leb cap (t + 1) then (t + 1) - cap else t + 1) ≡ advance cap t
unfolding advance
wrapped_tail cap t h = ground arith

-- `push_data` appends the package at the back of a valid queue, growing the ring when it is full.
pub contents-push_data :
    (fd : ℕ) (buffer : List ℕ) (q : Queue)
    → IsValid q
    → contents (push_data fd buffer q)
      ≡ contents q ++ some (record { id = fd; buffer = buffer }) ∷ []
unfolding contents push_data
contents-push_data fd buffer q (hh, ht) =
    rw (wrapped_tail q.cap q.tail ht) (elim (Bool-cases (q.head == advance q.cap q.tail)) [
      | inl full ↦ rw full (
          expanded-contents written (λ _. none) q.cap (q.cap + queue_size) q.head (omega arith) hh
          ∙ ap (window written q.cap q.head)
              (sym (gap-full q.cap q.head q.tail hh ht (ground arith)))
          ∙ appended)
      | inr room ↦ rw room (
          ap (window written q.cap q.head) (gap-step q.cap q.head q.tail hh ht (ground arith))
          ∙ appended)
    ])
  where
    entry : Option Pack
    entry = some (record { id = fd; buffer = buffer })

    written : ℕ → Option Pack
    written = update q.queue q.tail entry

    appended :
        window written q.cap q.head (suc (gap q.cap q.head q.tail))
        ≡ window q.queue q.cap q.head (gap q.cap q.head q.tail) ++ entry ∷ []
    appended = written-contents q.queue q.cap q.head q.tail entry hh ht

pub push_data-IsValid :
    (fd : ℕ) (buffer : List ℕ) (q : Queue) → IsValid q → IsValid (push_data fd buffer q)
unfolding push_data
push_data-IsValid fd buffer q v = ground arith

-- What `lpop` does to a queue whose packages are `xs`.
abbrev pub Pops : List (Option Pack) → Queue → Type 0
Pops [] q = pop q ≡ (none, q)
Pops (x ∷ xs) q =
    ((pop q).0 ≡ some x) × (contents (pop q).1 ≡ xs) × IsValid (pop q).1 × ((pop q).1.hash ≡ q.hash)

-- `lpop` hands out the oldest package and keeps the others in order.
pub pop-Pops : (q : Queue) → IsValid q → Pops (contents q) q
unfolding contents pop window
pop-Pops q (hh, ht) = elim (Bool-cases (q.head == q.tail)) [
  | inl same ↦
      let none_left : gap q.cap q.head q.tail ≡ 0 = ground arith in rw (none_left, same) refl
  | inr ne ↦
      rw (gap-advance q.cap q.head q.tail hh ht (ground arith), ne)
        (refl, refl, (wraps q.cap q.head hh, ht), refl)
]
  where
    wraps : (cap i : ℕ) → i < cap → advance cap i < cap
    wraps cap i h = unfold advance in ground arith

pub new_queue-IsValid : IsValid new_queue
unfolding new_queue
new_queue-IsValid = omega arith
