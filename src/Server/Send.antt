-- ===== src/Server/Send.antt =====
-- `ztask_send` of ztask/ztask_server.c and `ztask_harbor_message_isremote` of ztask/ztask_harbor.c.
use ztask.Base.{
  ℕ, ◌+◌, ◌-◌, ◌*◌, ◌/◌, ◌%◌, ◌^◌, ◌≤◌, ◌<◌, ◌≡◌, ◌≢◌, refl, arith, true, false, not, ◌&&◌, none,
  some, List, [], ◌∷◌, ◌++◌, Bool, ◌||◌, ◌==◌, ==_self, if◌then◌else◌, update,
}
use ztask.Mq.{Message, MessageQueue}
use ztask.Mq.Ring.{contents}
use ztask.Mq.Global.{Global, mq_push}
use ztask.Mq.Global.Chain.{has}
use ztask.Mq.Global.Held.{Inv}
use ztask.Mq.Global.Sched.{mq_push-Inv}
use ztask.Handle.{HandleStorage, grab, register}
use ztask.Handle.Table.{Valid}
use ztask.Handle.Lookup.{register-Registered}
use ztask.Server.{Node, Context, isremote, context_push, send, dont_copy, alloc_session}

isremote_local :
    (harbor handle node : ℕ)
    → harbor ≡ node * 2 ^ 24
    → handle % 2 ^ 24 + harbor ≡ handle
    → isremote harbor handle ≡ some false
unfolding isremote
isremote_local harbor handle node e e' =
    let h : handle / 2 ^ 24 * 2 ^ 24 ≡ harbor = omega arith in
    let ok : (harbor == 2 ^ 32 - 1) ≡ false = ground arith in
    rw (isremote, ok, h, ==_self harbor) refl

-- A handle that `ztask_handle_register` gives out is not remote on its own node.
pub register-isremote :
    {Name : Type 0} (handle_of : ℕ → ℕ) (ctx : ℕ) (s : HandleStorage Name)
    → Valid handle_of s
    → ctx ≢ 0
    → ((i : ℕ) → s.slot i ≢ ctx)
    → s.slot_size * 2 ≤ 2 ^ 24
    → (handle : ℕ) × (s' : HandleStorage Name) × (register handle_of 2 ctx s ≡ some (handle, s'))
      × (isremote s.harbor handle ≡ some false)
register-isremote handle_of ctx s v nz new fits =
    let (handle, s', run, r) = register-Registered handle_of ctx s v nz new fits in
    (handle, s', run, isremote_local s.harbor handle v.node v.harbor r.local)

-- The type and the size of a message, as `dispatch_message` takes them out of `sz`.
pub type_and_size :
    (sz ptype : ℕ)
    → sz < 2 ^ 56
    → ((sz + ptype % 2 ^ 8 * 2 ^ 56) / 2 ^ 56 ≡ ptype % 2 ^ 8)
      × ((sz + ptype % 2 ^ 8 * 2 ^ 56) % 2 ^ 56 ≡ sz)
type_and_size sz ptype h = (omega arith, omega arith)

module _ {Name : Type 0} (n : Node Name) where
  abbrev service : ℕ → ℕ
  service handle = grab (λ a. (n.context a).handle) handle n.storage

  -- After a reference is taken and given back.
  abbrev touched : ℕ → Global → Node Name
  touched c g =
      let c₁ : Context = record (n.context c) { ref = (n.context c).ref + 1 } in
      let f = update n.context c c₁ in
      record n { global = g; context = update f c (record (f c) { ref = (f c).ref - 1 }) }

  context_push_found :
      (destination c : ℕ) (m : Message) (g : Global)
      → service destination ≡ c
      → c ≢ 0
      → 0 < (n.context c).ref
      → mq_push (n.context c).queue m n.global ≡ some g
      → context_push destination m n ≡ some (true, touched c g)
  unfolding context_push
  context_push_found destination c m g e nz ref run =
      let some_service : (c == 0) ≡ false = ground arith in
      let self : (c == c) ≡ true = ==_self c in
      let stays : ((n.context c).ref + 1 - 1 == 0) ≡ false = ground arith in
      rw (context_push, e, some_service, self, run, stays) refl

  -- The node after the message is queued: the references are as they were.
  touched-ref : (c : ℕ) (g : Global) → ((touched c g).context c).ref ≡ (n.context c).ref
  touched-ref c g = ground arith

  -- The data that a message gets: a copy, unless the type forbids it or the data is NULL.
  abbrev pub copied : ℕ → ℕ → ℕ → ℕ
  copied copy ptype payload = if not (dont_copy ptype) && not (payload == 0) then copy else payload

  module _ (copy rmsg rsize context source destination ptype session payload sz : ℕ)
      (small : sz < 2 ^ 56) (real : source ≢ 0) (plain : alloc_session ptype ≡ false)
      (there : destination ≢ 0) (local : isremote n.harbor destination ≡ some false) where
    abbrev pub queued : Message
    queued = record {
      source = source;
      session = session;
      payload = copied copy ptype payload;
      sz = sz + ptype % 2 ^ 8 * 2 ^ 56;
    }

    -- A message to a handle, not 0, that is local to the node and leads to a service with a reference is
    -- sent when its size is below 2^56, its source is not 0, and its type has not
    -- PTYPE_TAG_ALLOCSESSION. If the global queue keeps its invariant and the service's queue is not
    -- marked for release, `ztask_send` returns the session and frees no block; the messages of that
    -- queue are those before and then this one, with its source, its session, its data (a copy, unless
    -- the type has PTYPE_TAG_DONTCOPY or the data is NULL), and its type in the high byte of its size.
    -- The queue is then on the global queue or with a worker, the invariant holds, and the service has
    -- as many references as before.
    pub send_delivers :
        (c : ℕ) (xs : List ℕ) (held : ℕ → Bool) (q : MessageQueue)
        → grab (λ a. (n.context a).handle) destination n.storage ≡ c
        → c ≢ 0
        → 0 < (n.context c).ref
        → Inv n.global xs held
        → n.global.mem (n.context c).queue ≡ some q
        → q.release ≡ false
        → (n' : Node Name) × (xs' : List ℕ) × (q' : MessageQueue) × (send copy rmsg rsize context
              source destination ptype session payload sz n
            ≡ some (record { ret = some session; freed = []; node = n' }))
          × (n'.global.mem (n.context c).queue ≡ some q')
          × (contents q' ≡ contents q ++ some queued ∷ [])
          × ((has (n.context c).queue xs' || held (n.context c).queue) ≡ true)
          × Inv n'.global xs' held
          × ((n'.context c).ref ≡ (n.context c).ref)
    unfolding send
    send_delivers c xs held q e nz ref v at live =
        let fits : (sz % 2 ^ 56 == sz) ≡ true = ground arith in
        let given : (source == 0) ≡ false = ground arith in
        let named : (destination == 0) ≡ false = ground arith in
        let (g, xs', q', (run, v', at', appended, scheduled, _)) =
          mq_push-Inv n.global xs held (n.context c).queue q queued v at live in
        let pushed = context_push_found destination c queued g e nz ref run in
        (
          touched c g,
          xs',
          q',
          rw (send, fits, plain, given, named, local, pushed) refl,
          at',
          appended,
          scheduled,
          v',
          touched-ref c g,
        )

    -- A message to a handle, not 0, that is local to the node and leads to no service is not sent when its size
    -- is below 2^56, its source is not 0, and its type has not PTYPE_TAG_ALLOCSESSION: the result is
    -- -1, the data that was to be queued (the copy, or the data itself if the type has
    -- PTYPE_TAG_DONTCOPY or it is NULL) is freed, and the node is as before.
    pub send_no_service :
        grab (λ a. (n.context a).handle) destination n.storage ≡ 0
        → send copy rmsg rsize context source destination ptype session payload sz n
          ≡ some (record { ret = none; freed = copied copy ptype payload ∷ []; node = n })
    unfolding send context_push
    send_no_service e =
        let fits : (sz % 2 ^ 56 == sz) ≡ true = ground arith in
        let given : (source == 0) ≡ false = ground arith in
        let named : (destination == 0) ≡ false = ground arith in
        let missing : context_push destination queued n ≡ some (false, n) = no_push in
        rw (send, fits, plain, given, named, local, missing) refl
      where
        no_push : context_push destination queued n ≡ some (false, n)
        no_push = rw (context_push, e) refl
