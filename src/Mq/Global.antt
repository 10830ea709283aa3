-- ===== src/Mq/Global.antt =====
-- ztask/ztask_mq.c: the global queue `Q`, a singly linked list of the message queues that wait for
-- a worker, and the operations that schedule a queue on it. A message queue is reached by its
-- address; 0 is NULL. An operation gives `none` where an `assert` fails or a pointer dangles.
pub mod Chain
pub mod Held
pub mod Sched
pub mod Release
pub mod Runs
use ztask.Base.{
  ℕ, zero, suc, ◌+◌, ◌≡◌, Bool, true, false, not, Option, none, some, List, [], ◌∷◌, ◌==◌,
  if◌then◌else◌, update,
}
use ztask.Mq.{Message, MessageQueue, create, mq_length, pop, push}

-- `mem` is the memory that holds the message queues; `head` and `tail` are those of `Q`.
pub record Global : Type 0 where
  pub mem : ℕ → Option MessageQueue
  pub head : ℕ
  pub tail : ℕ

infixl 5 ◌>>=◌ ◌>>◌
abbrev pub ◌>>=◌ {ℓ κ} : {A : Type ℓ} {B : Type κ} → Option A → (A → Option B) → Option B
none >>= f = none
some a >>= f = f a

abbrev pub ◌>>◌ {ℓ} : {B : Type ℓ} → Option (Unit {0}) → Option B → Option B
m >> k = m >>= λ _. k

abbrev pub assert : Bool → Option (Unit {0})
assert true = some tt
assert false = none

abbrev pub store : Global → ℕ → MessageQueue → Global
store g p q = record g { mem = update g.mem p (some q) }

-- `ztask_mq_init`
unfoldable pub init : Global
init = record { mem = λ _. none; head = 0; tail = 0 }

-- The `else` branch, and the branch that links behind the tail.
unfoldable pub link : ℕ → Global → Option Global
link p g = if g.tail == 0 then some (record g { head = p; tail = p }) else do
  last ← g.mem g.tail
  some (record (store g g.tail (record last { next = p })) { tail = p })

-- `ztask_globalmq_push`
unfoldable pub globalmq_push : ℕ → Global → Option Global
unfolding link
globalmq_push p g = do q ← g.mem p; assert (q.next == 0); link p g

-- The part of `ztask_globalmq_pop` under `if (mq)`.
unfoldable pub unlink : Global → Option (ℕ × Global)
unlink g = do
  q ← g.mem g.head
  let popped = store g g.head (record q { next = 0 })
  if q.next == 0
      then (do assert (g.head == g.tail); some (g.head, record popped { head = 0; tail = 0 }))
      else some (g.head, record popped { head = q.next })

-- `ztask_globalmq_pop`
unfoldable pub globalmq_pop : Global → Option (ℕ × Global)
unfolding unlink
globalmq_pop g = let rest = unlink g in if g.head == 0 then some (0, g) else rest

-- `ztask_mq_create`, at the address `p` that the allocator returns.
unfoldable pub mq_create : ℕ → ℕ → Global → Global
mq_create p handle g = store g p (create handle)

-- `ztask_mq_push`
unfoldable pub mq_push : ℕ → Message → Global → Option Global
mq_push p message g = do
  q ← g.mem p
  let pushed = push q message
  if pushed.in_global
      then some (store g p pushed)
      else globalmq_push p (store g p (record pushed { in_global = true }))

-- `ztask_mq_pop`
unfoldable pub mq_pop : ℕ → Global → Option (ℕ × Option Message × Global)
mq_pop p g = do q ← g.mem p; let (ret, message, q') = pop q; some (ret, message, store g p q')

-- `ztask_mq_mark_release`
unfoldable pub mark_release : ℕ → Global → Option Global
mark_release p g = do
  q ← g.mem p
  assert (not q.release)
  let marked = store g p (record q { release = true })
  if q.in_global then some marked else globalmq_push p marked

-- The loop of `_drop_queue`, on fuel: the messages given to `drop_func`, in order.
unfoldable pub drop_all : ℕ → MessageQueue → List (Option Message)
unfolding pop
drop_all zero q = []
drop_all (suc fuel) q =
    let rest = drop_all fuel (pop q).2 in if (pop q).0 == 0 then (pop q).1 ∷ rest else []

-- `ztask_mq_release`, with `_drop_queue` and `_release`: the messages to drop. The queue is freed
-- only if it was marked.
unfoldable pub mq_release : ℕ → Global → Option (List (Option Message) × Global)
mq_release p g = do
  q ← g.mem p
  if q.release
      then (do
        assert (q.next == 0)
        some (drop_all (mq_length q + 1) q, record g { mem = update g.mem p none }))
      else (do g' ← globalmq_push p g; some ([], g'))
