-- ===== src/Mq.antt =====
-- ztask/ztask_mq.c and ztask/ztask_mq.h: the ring buffer of one service's message queue.
-- `Mq.Ring` proves that it is a queue; `Mq.Global` has the list of the queues that wait for a
-- worker. Each function of the source holds the queue's spinlock from its first read to its last
-- write, so it is one step here; `lock` is not a field.
pub mod Ring
pub mod Overload
pub mod Global
use ztask.Base.{
  ℕ, zero, suc, ◌+◌, ◌-◌, ◌*◌, ◌%◌, Bool, true, false, Option, none, some, leb, ltb, ◌==◌,
  if◌then◌else◌, update,
}
use ztask.Base.Ring.{advance}

-- `payload` is the pointer `data`; the high byte of `sz` is the message type.
pub record Message : Type 0 where
  pub source : ℕ
  pub session : ℕ
  pub payload : ℕ
  pub sz : ℕ

abbrev pub default_queue_size : ℕ
default_queue_size = 64

abbrev pub mq_overload_init : ℕ
mq_overload_init = 1024

-- A slot of `queue` holds `none` until it is first written. `next` is 0 for NULL.
pub record MessageQueue : Type 0 where
  pub handle : ℕ
  pub cap : ℕ
  pub head : ℕ
  pub tail : ℕ
  pub release : Bool
  pub in_global : Bool
  pub overload : ℕ
  pub overload_threshold : ℕ
  pub queue : ℕ → Option Message
  pub next : ℕ

unfoldable pub create : ℕ → MessageQueue
create handle = record {
  handle = handle;
  cap = default_queue_size;
  head = 0;
  tail = 0;
  release = false;
  in_global = true;
  overload = 0;
  overload_threshold = mq_overload_init;
  queue = λ _. none;
  next = 0;
}

-- `ztask_mq_length`
unfoldable pub mq_length : MessageQueue → ℕ
mq_length q = if leb q.head q.tail then q.tail - q.head else (q.tail + q.cap) - q.head

-- `ztask_mq_overload`: the recorded overload, which is reset when it is read.
unfoldable pub read_overload : MessageQueue → ℕ × MessageQueue
read_overload q = if q.overload == 0 then (0, q) else (q.overload, record q { overload = 0 })

-- `while (length > overload_threshold) …` of `ztask_mq_pop`, on fuel; the pair is
-- `overload` and `overload_threshold`.
unfoldable pub raise_threshold : ℕ → ℕ → ℕ → ℕ → ℕ × ℕ
raise_threshold zero len over threshold = (over, threshold)
raise_threshold (suc fuel) len over threshold =
    let rest = raise_threshold fuel len len (threshold * 2) in
    if ltb threshold len then rest else (over, threshold)

-- `ztask_mq_pop`: 0 and the message, or 1. The length of the queue is fuel enough.
unfoldable pub pop : MessageQueue → ℕ × Option Message × MessageQueue
unfolding mq_length raise_threshold advance
pop q =
    if q.head == q.tail
    then (1, none, record q { overload_threshold = mq_overload_init; in_global = false })
    else let popped = record q { head = advance q.cap q.head } in
      let len = mq_length popped in
      let raised = raise_threshold len len q.overload q.overload_threshold in
      (0, q.queue q.head, record popped { overload = raised.0; overload_threshold = raised.1 })

-- `expand_queue`
unfoldable pub expand_queue : MessageQueue → MessageQueue
expand_queue q = record q {
  queue = λ i. if ltb i q.cap then q.queue ((q.head + i) % q.cap) else none;
  head = 0;
  tail = q.cap;
  cap = q.cap * 2;
}

-- `ztask_mq_push` without its last step, which `Mq.Global` adds.
unfoldable pub push : MessageQueue → Message → MessageQueue
unfolding advance expand_queue
push q message =
    let written = record q {
      queue = update q.queue q.tail (some message);
      tail = advance q.cap q.tail;
    } in
    if written.head == written.tail then expand_queue written else written
