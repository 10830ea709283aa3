-- ===== src/Server/Dispatch.antt =====
-- The workers' part of ztask/ztask_server.c: a queue's messages are given to its service. `cb` is the
-- service's callback, of the modules that are loaded at run time: from the context, the type, session,
-- source, data and size of a message, and the node, whether it keeps the data, and the node that it
-- leaves. `has_cb` says which contexts have one. The log file and the times of the profile are left
-- out.
use ztask.Base.{
  ℕ, zero, suc, ◌+◌, ◌-◌, ◌/◌, ◌%◌, ◌^◌, ◌≡◌, refl, Bool, true, false, not, Option, none, some,
  List, [], ◌∷◌, ◌++◌, ◌==◌, if◌then◌else◌, ◌<◌, ◌≢◌, shr,
}
use ztask.Base.Int.{ℤ, pos, negsuc}
use ztask.Mq.{Message, MessageQueue, mq_length, read_overload}
use ztask.Mq.Ring.{contents}
use ztask.Mq.Global.Held.{Inv}
use ztask.Mq.Global.{
  Global, ◌>>=◌, ◌>>◌, assert, store, mq_pop, mq_release, globalmq_pop, globalmq_push,
}
use ztask.Handle.{grab}
use ztask.Monitor.{Monitor, trigger}
use ztask.Server.{Node, set_context, context_grab, context_release, send, alloc_session, isremote}
use ztask.Server.Send.{type_and_size, copied, queued, send_delivers}

abbrev pub ptype_error : ℕ
ptype_error = 7

module _ {Name : Type 0} (rmsg rsize : ℕ) where
  -- `drop_message` for each message of a queue that is released, on behalf of the service `handle`: the
  -- blocks that are freed, and the node.
  unfoldable pub drop_messages : ℕ → List (Option Message) → Node Name → Option (List ℕ × Node Name)
  unfolding send
  drop_messages handle [] n = some ([], n)
  drop_messages handle (none ∷ ms) n = none
  drop_messages handle (some m ∷ ms) n = do
    assert (not (handle == 0))
    sent ← send 0 rmsg rsize 0 handle m.source ptype_error 0 0 0 n
    rest ← drop_messages handle ms sent.node
    some (m.payload ∷ (sent.freed ++ rest.0), rest.1)

module _ {Name : Type 0} (has_cb : ℕ → Bool)
    (cb : ℕ → ℕ → ℕ → ℕ → ℕ → ℕ → Node Name → Bool × Node Name) where
  -- `dispatch_message`: the blocks that are freed, and the node.
  unfoldable pub dispatch_message : ℕ → Message → Node Name → Option (List ℕ × Node Name)
  dispatch_message ctx msg n = do
    assert (n.context ctx).init
    let counted =
        set_context n ctx
          (record (n.context ctx) { message_count = (n.context ctx).message_count + 1 })
    let (reserve_msg, n') =
        cb ctx (msg.sz / 2 ^ 56) msg.session msg.source msg.payload (msg.sz % 2 ^ 56) counted
    some (if reserve_msg then [] else msg.payload ∷ [], n')

  -- The body of the `for` loop after a message is popped: `len` is the length of the queue then.
  unfoldable pub handle_one :
      ℕ → ℕ → ℕ → Message → Monitor → Node Name → Option (List ℕ × Monitor × Node Name)
  unfolding dispatch_message
  handle_one q handle ctx msg sm n = do
    queue ← n.global.mem q
    let read = record n { global = store n.global q (read_overload queue).1 }
    let busy = trigger msg.source handle sm
    done ← (if has_cb ctx then dispatch_message ctx msg read else some (msg.payload ∷ [], read))
    some (done.0, trigger 0 0 busy, done.1)

  -- The rounds of the loop after the first. `none` as the first component: the queue became empty.
  unfoldable pub rounds :
      ℕ → ℕ → ℕ → ℕ → Monitor → Node Name → Option (Bool × List ℕ × Monitor × Node Name)
  unfolding handle_one
  rounds zero q handle ctx sm n = some (true, [], sm, n)
  rounds (suc k) q handle ctx sm n = do
    popped ← mq_pop q n.global
    let n₁ = record n { global = popped.2 }
    if popped.0 == 1 then some (false, [], sm, n₁) else (do
      msg ← popped.1
      done ← handle_one q handle ctx msg sm n₁
      rest ← rounds k q handle ctx done.1 done.2
      some (rest.0, done.0 ++ rest.1, rest.2, rest.3))

  -- The number of rounds after the first: `n >>= weight` where the weight is not negative.
  unfoldable pub more_rounds : ℤ → ℕ → ℕ
  more_rounds (pos weight) len = shr len weight - 1
  more_rounds (negsuc w) len = 0

  -- The `for` loop of `ztask_context_message_dispatch`.
  unfoldable pub loop :
      ℤ → ℕ → ℕ → ℕ → Monitor → Node Name → Option (Bool × List ℕ × Monitor × Node Name)
  unfolding rounds more_rounds handle_one
  loop weight q handle ctx sm n = do
    popped ← mq_pop q n.global
    let n₁ = record n { global = popped.2 }
    if popped.0 == 1 then some (false, [], sm, n₁) else (do
      msg ← popped.1
      queue ← n₁.global.mem q
      done ← handle_one q handle ctx msg sm n₁
      rest ← rounds (more_rounds weight (mq_length queue)) q handle ctx done.1 done.2
      some (rest.0, done.0 ++ rest.1, rest.2, rest.3))

  -- The end of `ztask_context_message_dispatch`: which queue is next, 0 for none.
  unfoldable pub next_queue : ℕ → Global → Option (ℕ × Global)
  next_queue q g = do
    next ← globalmq_pop g
    if next.0 == 0 then some (q, next.1) else (do g' ← globalmq_push q next.1; some (next.0, g'))

  -- `ztask_context_message_dispatch` of the queue at `q`, not NULL: the blocks that are freed, the next
  -- queue, the monitor and the node. `rmsg` and `rsize` are those of `send`.
  unfoldable pub dispatch_queue :
      ℕ → ℕ → ℤ → ℕ → Monitor → Node Name → Option (List ℕ × ℕ × Monitor × Node Name)
  unfolding drop_messages loop next_queue
  dispatch_queue rmsg rsize weight q sm n = do
    queue ← n.global.mem q
    let ctx = grab (λ a. (n.context a).handle) queue.handle n.storage
    if ctx == 0
        then (do
          released ← mq_release q n.global
          dropped ←
              drop_messages rmsg rsize queue.handle released.0 (record n { global = released.1 })
          next ← globalmq_pop dropped.1.global
          some (dropped.0, next.0, sm, record (dropped.1) { global = next.1 }))
        else (do
          ran ← loop weight q queue.handle ctx sm (context_grab ctx n)
          let n₁ = ran.3
          if ran.0
              then (do
                assert (q == (n₁.context ctx).queue)
                next ← next_queue q n₁.global
                there ← context_release ctx (record n₁ { global = next.1 })
                some (ran.1, next.0, ran.2, there.1))
              else (do
                there ← context_release ctx n₁
                next ← globalmq_pop there.1.global
                some (ran.1, next.0, ran.2, record (there.1) { global = next.1 })))

  -- `ztask_context_message_dispatch`, where `q` may be NULL.
  unfoldable pub message_dispatch :
      ℕ → ℕ → ℤ → ℕ → Monitor → Node Name → Option (List ℕ × ℕ × Monitor × Node Name)
  unfolding dispatch_queue
  message_dispatch rmsg rsize weight q sm n =
      let given = dispatch_queue rmsg rsize weight q sm n in
      let taken = globalmq_pop n.global >>= (λ next.
        let fetched = record n { global = next.1 } in
        let run = dispatch_queue rmsg rsize weight next.0 sm fetched in
        if next.0 == 0 then some ([], 0, sm, fetched) else run) in
      if q == 0 then taken else given

  -- A message that `ztask_send` puts at the back of a queue, dispatched later, arrives as it was sent.
  -- Conditions: the destination is not 0, local, and leads to a service with a reference, whose queue
  -- is not marked for release; the size is below 2^56, the source is not 0, the type has not
  -- PTYPE_TAG_ALLOCSESSION; the global queue keeps its invariant; the service is initialised when it
  -- is dispatched. Then the callback gets the low byte of the type, the session, the source and the
  -- size that the sender gave, and the copy of its data (or the data itself, with PTYPE_TAG_DONTCOPY
  -- or where it is NULL); the context has counted the message. That data is freed unless the
  -- callback keeps it.
  pub dispatch_message-sent :
      (copy rmsg rsize context source destination ptype session payload sz : ℕ) (n : Node Name)
      → sz < 2 ^ 56
      → source ≢ 0
      → alloc_session ptype ≡ false
      → destination ≢ 0
      → isremote n.harbor destination ≡ some false
      → (c : ℕ) (xs : List ℕ) (held : ℕ → Bool) (q : MessageQueue)
      → grab (λ a. (n.context a).handle) destination n.storage ≡ c
      → c ≢ 0
      → 0 < (n.context c).ref
      → Inv n.global xs held
      → n.global.mem (n.context c).queue ≡ some q
      → q.release ≡ false
      → (later : Node Name) → (later.context c).init ≡ true
      → let given = copied n copy ptype payload in
        let counted =
          set_context later c
            (record (later.context c) { message_count = (later.context c).message_count + 1 }) in
        let called = cb c (ptype % 2 ^ 8) session source given sz counted in
        (n' : Node Name) × (q' : MessageQueue) × (msg : Message) × (send copy rmsg rsize context
            source destination ptype session payload sz n
          ≡ some (record { ret = some session; freed = []; node = n' }))
        × (n'.global.mem (n.context c).queue ≡ some q')
        × (contents q' ≡ contents q ++ some msg ∷ [])
        × (dispatch_message c msg later ≡ some (if called.0 then [] else given ∷ [], called.1))
  unfolding dispatch_message
  dispatch_message-sent copy rmsg rsize context source destination ptype session payload sz n small
        real plain there local c xs held q e nz ref v at live later alive =
      let (n', xs', q', run, at', appended, _, _, _) =
        send_delivers n copy rmsg rsize context source destination ptype session payload sz small
          real plain there local c xs held q e nz ref v at live in
      let (t, s) = type_and_size sz ptype small in
      (
        n',
        q',
        queued n copy rmsg rsize context source destination ptype session payload sz small real
            plain there local,
        run,
        at',
        appended,
        rw (dispatch_message, alive, t, s) refl,
      )
