-- ===== src/Server.antt =====
-- ztask/ztask_server.c: the contexts of services, their references and sessions, and how a message is
-- sent to a handle; ztask/ztask_harbor.c: which handles are remote, and the service that remote
-- messages are given to. A context is known by its address, 0 for NULL; so is a block of memory. Calls
-- of `ztask_error` only write a log and are left out.
pub mod Session
pub mod Send
pub mod Dispatch
pub mod Text
pub mod Exit
use ztask.Base.{
  ℕ, zero, suc, ◌+◌, ◌-◌, ◌*◌, ◌/◌, ◌%◌, ◌^◌, Bool, true, false, not, ◌&&◌, ◌||◌, Option, none,
  some, List, [], ◌∷◌, leb, ltb, ◌==◌, if◌then◌else◌, update, high_bits,
}
use ztask.Mq.{Message}
use ztask.Mq.Global.{Global, ◌>>=◌, ◌>>◌, assert, mq_push, mark_release}
use ztask.Handle.{HandleStorage, grab}

abbrev pub ptype_system : ℕ
ptype_system = 4

abbrev pub ptype_harbor : ℕ
ptype_harbor = 5

-- `struct ztask_context`: `session_id` is an `int`, its 32 bits read as a natural number.
pub record Context : Type 0 where
  pub handle : ℕ
  pub session_id : ℕ
  pub ref : ℕ
  pub queue : ℕ
  pub endless : Bool
  pub init : Bool
  pub message_count : ℕ

-- `struct remote_message`, with a handle as its destination.
pub record RemoteMessage : Type 0 where
  pub destination : ℕ
  pub message : ℕ
  pub sz : ℕ
  pub type_ : ℕ

-- `total` of `G_NODE`, the contexts, and what the operations reach: the handle storage, the message
-- queues, `HARBOR` and `REMOTE` of ztask_harbor.c, and the remote messages in memory.
pub record Node (Name : Type 0) : Type 0 where
  pub total : ℕ
  pub context : ℕ → Context
  pub storage : HandleStorage Name
  pub global : Global
  pub harbor : ℕ
  pub remote : ℕ
  pub rmsg : ℕ → Option RemoteMessage

-- `ztask_context_newsession`: the session, which is also the new `session_id`.
unfoldable pub newsession : ℕ → ℕ
newsession session_id =
    let session = (session_id + 1) % 2 ^ 32 in
    if (session == 0) || leb (2 ^ 31) session then 1 else session

-- `ztask_harbor_init`
unfoldable pub harbor_init : ℕ → ℕ
harbor_init harbor = harbor * 2 ^ 24 % 2 ^ 32

-- `ztask_harbor_message_isremote`: `none` where the assertion fails.
unfoldable pub isremote : ℕ → ℕ → Option Bool
isremote harbor handle =
    let h = high_bits handle 24 in
    if harbor == 2 ^ 32 - 1 then none else some (not (h == harbor) && not (h == 0))

-- `invalid_type`
unfoldable pub invalid_type : ℕ → Bool
invalid_type ptype = not (ptype == ptype_system) && not (ptype == ptype_harbor)

module _ {Name : Type 0} where
  abbrev pub set_context : Node Name → ℕ → Context → Node Name
  set_context n a c = record n { context = update n.context a c }

  -- `ztask_context_grab`
  unfoldable pub context_grab : ℕ → Node Name → Node Name
  context_grab a n = set_context n a (record (n.context a) { ref = (n.context a).ref + 1 })

  -- `ztask_context_reserve`
  unfoldable pub context_reserve : ℕ → Node Name → Node Name
  unfolding context_grab
  context_reserve a n = record (context_grab a n) { total = n.total - 1 }

  -- `delete_context`, less the module's own release function.
  unfoldable pub delete_context : ℕ → Node Name → Option (Node Name)
  delete_context a n = do
    g ← mark_release (n.context a).queue n.global
    some (record n { global = g; total = n.total - 1 })

  -- `ztask_context_release`: whether the context is still there, and the node.
  unfoldable pub context_release : ℕ → Node Name → Option (Bool × Node Name)
  unfolding delete_context
  context_release a n =
      let n' = set_context n a (record (n.context a) { ref = (n.context a).ref - 1 }) in
      let deleted = delete_context a n' in
      if (n.context a).ref - 1 == 0 then deleted >>= (λ n''. some (false, n'')) else some (true, n')

  abbrev pub handle_of : Node Name → ℕ → ℕ
  handle_of n a = (n.context a).handle

  -- `ztask_context_push`: `false` for -1, no such service.
  unfoldable pub context_push : ℕ → Message → Node Name → Option (Bool × Node Name)
  unfolding context_grab context_release
  context_push handle message n =
      let ctx = grab (handle_of n) handle n.storage in
      if ctx == 0 then some (false, n) else (do
        let grabbed = context_grab ctx n
        g ← mq_push (grabbed.context ctx).queue message grabbed.global
        released ← context_release ctx (record grabbed { global = g })
        some (true, released.1))

  -- `ztask_context_endless`
  unfoldable pub context_endless : ℕ → Node Name → Option (Node Name)
  unfolding context_grab context_release
  context_endless handle n =
      let ctx = grab (handle_of n) handle n.storage in
      if ctx == 0 then some n else (do
        let grabbed = context_grab ctx n
        let marked = set_context grabbed ctx (record (grabbed.context ctx) { endless = true })
        released ← context_release ctx marked
        some released.1)

  -- `ztask_context_send`; `type` is shifted to the high byte of `sz`.
  unfoldable pub context_send : ℕ → ℕ → ℕ → ℕ → ℕ → ℕ → Node Name → Option (Node Name)
  context_send ctx msg sz source ptype session n = do
    g ←
        mq_push (n.context ctx).queue
          (record { source = source; session = session; payload = msg; sz = sz + ptype * 2 ^ 56 })
          n.global
    some (record n { global = g })

  -- `ztask_harbor_send` of the message at the address `a`, of `size` bytes.
  unfoldable pub harbor_send : ℕ → ℕ → ℕ → ℕ → Node Name → Option (Node Name)
  unfolding context_send invalid_type
  harbor_send size a source session n = do
    rmsg ← n.rmsg a
    assert (invalid_type rmsg.type_ && not (n.remote == 0))
    context_send n.remote a size source ptype_system session n

  -- `ztask_harbor_start`
  unfoldable pub harbor_start : ℕ → Node Name → Node Name
  unfolding context_reserve
  harbor_start ctx n = record (context_reserve ctx n) { remote = ctx }

  -- `ztask_harbor_exit`
  unfoldable pub harbor_exit : Node Name → Option (Node Name)
  unfolding context_release
  harbor_exit n =
      let cleared = record n { remote = 0 } in
      if n.remote == 0 then some cleared else (do r ← context_release n.remote cleared; some r.1)

-- The tags of a type: `PTYPE_TAG_DONTCOPY` is bit 16, `PTYPE_TAG_ALLOCSESSION` bit 17.
unfoldable pub dont_copy : ℕ → Bool
dont_copy ptype = ptype / 2 ^ 16 % 2 == 1

unfoldable pub alloc_session : ℕ → Bool
alloc_session ptype = ptype / 2 ^ 17 % 2 == 1

-- What `_filter_args` changes: the session, the data, the size with the type in its high byte.
pub record Args (Name : Type 0) : Type 0 where
  pub session : ℕ
  pub payload : ℕ
  pub sz : ℕ
  pub node : Node Name

-- What `ztask_send` returns, `none` for -1, with the blocks that it freed.
pub record Sent (Name : Type 0) : Type 0 where
  pub ret : Option ℕ
  pub freed : List ℕ
  pub node : Node Name

module _ {Name : Type 0} where
  -- `_filter_args`; `copy` is the address of the block that is allocated for a copy, 0 where the data
  -- is NULL. The type's low byte lies above the size's bits, so `|=` is an addition.
  unfoldable pub filter_args : ℕ → ℕ → ℕ → ℕ → ℕ → ℕ → Node Name → Option (Args Name)
  unfolding newsession dont_copy alloc_session
  filter_args copy context ptype session payload sz n =
      let payload' = if not (dont_copy ptype) && not (payload == 0) then copy else payload in
      let sz' = sz + ptype % 2 ^ 8 * 2 ^ 56 in
      let fresh = newsession (n.context context).session_id in
      let n' = set_context n context (record (n.context context) { session_id = fresh }) in
      if alloc_session ptype
      then (do
        assert (session == 0)
        some (record { session = fresh; payload = payload'; sz = sz'; node = n' }))
      else some (record { session = session; payload = payload'; sz = sz'; node = n })

  -- `ztask_send` after `_filter_args`; `rmsg` is the address of the block that is allocated for a
  -- remote message, of `rsize` bytes.
  unfoldable pub deliver : ℕ → ℕ → ℕ → ℕ → Args Name → Option (Sent Name)
  unfolding isremote harbor_send context_push
  deliver rmsg rsize source destination args =
      let n = args.node in
      if destination == 0
      then some (record { ret = some args.session; freed = []; node = n })
      else (do
        remote ← isremote n.harbor destination
        if remote
            then (do
              let m : RemoteMessage = record {
                destination = destination;
                message = args.payload;
                sz = args.sz % 2 ^ 56;
                type_ = args.sz / 2 ^ 56;
              }
              n' ←
                  harbor_send rsize rmsg source args.session
                    (record n { rmsg = update n.rmsg rmsg (some m) })
              some (record { ret = some args.session; freed = []; node = n' }))
            else (do
              sent ←
                  context_push destination
                    (record {
                      source = source;
                      session = args.session;
                      payload = args.payload;
                      sz = args.sz;
                    })
                    n
              if sent.0
                  then some (record { ret = some args.session; freed = []; node = sent.1 })
                  else some (record { ret = none; freed = args.payload ∷ []; node = sent.1 })))

  -- `ztask_send`
  unfoldable pub send : ℕ → ℕ → ℕ → ℕ → ℕ → ℕ → ℕ → ℕ → ℕ → ℕ → Node Name → Option (Sent Name)
  unfolding filter_args deliver dont_copy
  send copy rmsg rsize context source destination ptype session payload sz n =
      let too_large = if dont_copy ptype then payload ∷ [] else [] in
      let delivered = filter_args copy context ptype session payload sz n >>= λ args.
      deliver rmsg rsize (if source == 0 then (args.node.context context).handle else source)
        destination args in
      if sz % 2 ^ 56 == sz
      then delivered
      else some (record { ret = none; freed = too_large; node = n })
