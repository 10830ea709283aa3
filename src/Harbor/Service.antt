-- ===== src/Harbor/Service.antt =====
-- The handlers of ztask/server/service_harbor.c. `accepts` says of a call of `ztask_send` whether its result is not
-- negative; `scan` is `sscanf` with "%d %d", which leaves 0 where it reads no number.
use ztask.Base.{
  ℕ, zero, suc, ◌+◌, ◌-◌, ◌*◌, ◌/◌, ◌%◌, ◌^◌, Bool, true, false, ◌||◌, Option, none, some, List, [],
  ◌∷◌, ◌++◌, map, ltb, ◌==◌, if◌then◌else◌,
}
use ztask.Harbor.{
  Header, HarborMsg, MsgQueue, Map, push_queue, push_all, pop_all, new_queue, KeyValue, hash_search,
  hash_insert, hash_set, new_node, Status, status_handshake, status_down, Slave, Harbor, set_slave,
  Action, send, socket_send, socket_close, report, remote_max,
}
use ztask.Harbor.Wire.{send_remote}

abbrev pub type_text : ℕ
type_text = 0

abbrev pub type_error : ℕ
type_error = 7

-- `PTYPE_TAG_DONTCOPY`, of which no type below 256 has the bit.
abbrev pub dont_copy_tag : ℕ
dont_copy_tag = 0x10000

-- What a handler leaves behind.
abbrev pub Outcome : Type 0
Outcome = Option (Harbor × List Action)

-- Further actions behind those of a handler.
abbrev pub after : List Action → Outcome → Outcome
after before none = none
after before (some (h, actions)) = some (h, before ++ actions)

abbrev pub is_down : Status → Bool
is_down status_down = true
is_down _ = false

abbrev pub is_handshake : Status → Bool
is_handshake status_handshake = true
is_handshake _ = false

-- `close_harbor`
unfoldable pub close_harbor : Harbor → ℕ → Harbor × List Action
close_harbor h id =
    let s = h.s id in
    (
      set_slave id (record s { status = status_down; queue = none }) h,
      if s.fd == 0 then [] else socket_close s.fd ∷ [],
    )

-- The decimal digits that `sprintf` writes for a number below 1000.
abbrev pub decimal : ℕ → List ℕ
decimal n =
    if ltb n 10
    then (48 + n) ∷ []
    else if ltb n 100
    then (48 + n / 10) ∷ (48 + n % 10) ∷ []
    else (48 + n / 100) ∷ (48 + n / 10 % 10) ∷ (48 + n % 10) ∷ []

-- `report_harbor_down`: "D " and the id; the fd is -1 then.
unfoldable pub report_harbor_down : Harbor → ℕ → Harbor × List Action
report_harbor_down h id = (
  set_slave id (record (h.s id) { fd = 2 ^ 32 - 1 }) h,
  send 0 h.slave type_text 0 (68 ∷ 32 ∷ decimal id) ∷ [],
)

-- The loops that find the slave of an fd, in `harbor_id` and `push_socket_data`; 0 if there is none.
abbrev pub find_slave : ℕ → ℕ → (ℕ → Slave) → ℕ → ℕ
find_slave zero i s fd = 0
find_slave (suc rounds) i s fd =
    let rest = find_slave rounds (i + 1) s fd in if (s i).fd == fd then i else rest

unfoldable pub harbor_id : Harbor → ℕ → ℕ
harbor_id h fd = find_slave (remote_max - 1) 1 h.s fd

-- `dispatch_queue`
unfoldable pub dispatch_queue : Harbor → ℕ → Outcome
unfolding pop_all send_remote
dispatch_queue h id =
    let s = h.s id in
    let sent : Harbor × List Action = elim s.queue [
      | none ↦ (h, [])
      | some queue ↦ (
        set_slave id (record s { queue = none }) h,
        map (λ m. send_remote s.fd m.buffer m.header) (pop_all queue),
      )
    ] in
    if s.fd == 0 then none else some sent

-- One message of the loop of `dispatch_name_queue` for a name of this node.
abbrev pub send_local : ℕ → HarborMsg → Action
send_local handle m =
    send m.header.source handle (m.header.destination / 2 ^ 24 + dont_copy_tag) m.header.session
      m.buffer

-- One message of the loop for a node that is connected. The low bits of the destination are 0, as
-- `remote_send_name` left them.
abbrev pub send_named : ℕ → ℕ → HarborMsg → Action
send_named fd handle m =
    send_remote fd m.buffer
      (record (m.header) { destination = m.header.destination + handle % 2 ^ 24 })

-- `dispatch_name_queue` of a node with the queue `queue`, which it leaves empty or moved.
unfoldable pub dispatch_name_queue : Harbor → KeyValue → MsgQueue → Harbor × List Action
unfolding pop_all push_all send_remote
dispatch_name_queue h node queue =
    let id = node.value / 2 ^ 24 in
    let s = h.s id in
    let joined : MsgQueue = elim s.queue [ none ↦ queue | some q ↦ push_all q (pop_all queue) ] in
    if s.fd == 0
    then (if is_down s.status
        then (h, report ∷ [])
        else if id == h.slave / 2 ^ 24
        then (
          set_slave id (record s { queue = none }) h,
          map (send_local node.value) (pop_all joined),
        )
        else (set_slave id (record s { queue = some joined }) h, []))
    else (h, map (send_named s.fd node.value) (pop_all queue))

-- The node that `hash_search` finds, or else `hash_insert` makes, and the table then.
abbrev pub found_or_new : Map → List ℕ → Option KeyValue → Map × KeyValue
found_or_new map name none = (hash_insert map name, new_node name)
found_or_new map name (some node) = (map, node)

-- The rest of `update_name`, of that node.
abbrev pub update_node : Harbor → List ℕ → ℕ → Map × KeyValue → Harbor × List Action
update_node h name handle (map, found) =
    let node = record found { value = handle; queue = none } in
    let h' = record h { map = hash_set map name node } in
    elim (found.queue) [ none ↦ (h', []) | some queue ↦ dispatch_name_queue h' node queue ]

-- `update_name`
unfoldable pub update_name : Harbor → List ℕ → ℕ → Harbor × List Action
update_name h name handle =
    update_node h name handle (found_or_new h.map name (hash_search h.map name))

-- `remote_send_handle`: whether the message was kept, and so must not be freed.
unfoldable pub remote_send_handle : Harbor → ℕ → ℕ → ℕ → ℕ → List ℕ → Bool × (Harbor × List Action)
unfolding new_queue push_queue send_remote
remote_send_handle h source destination kind session msg =
    let id = destination / 2 ^ 24 in
    let s = h.s id in
    let cookie : Header = record {
      source = source;
      destination = kind * 2 ^ 24 % 2 ^ 32 + destination % 2 ^ 24;
      session = session;
    } in
    let queue : MsgQueue = elim s.queue [ none ↦ new_queue | some q ↦ q ] in
    if id == h.id
    then (true, (h, send source destination (kind + dont_copy_tag) session msg ∷ []))
    else if s.fd == 0 || is_handshake s.status
    then (if is_down s.status
        then (false, (h, send destination source type_error 0 [] ∷ report ∷ []))
        else (true, (set_slave id (record s { queue = some (push_queue queue msg cookie) }) h, [])))
    else (false, (h, send_remote s.fd msg cookie ∷ []))

-- `strlen` of the query, which ends at the first 0 of the name.
abbrev pub until_zero : List ℕ → List ℕ
until_zero [] = []
until_zero (x ∷ xs) = let rest = until_zero xs in if x == 0 then [] else x ∷ rest

-- The rest of `remote_send_name`, of the node of the name.
abbrev pub send_to_node :
    Harbor → ℕ → List ℕ → ℕ → ℕ → List ℕ → Map × KeyValue → Bool × (Harbor × List Action)
send_to_node h source name kind session msg (map, node) =
    let queue : MsgQueue = elim (node.queue) [ none ↦ new_queue | some q ↦ q ] in
    let cookie : Header = record {
      source = source;
      destination = kind * 2 ^ 24 % 2 ^ 32;
      session = session;
    } in
    if node.value == 0
    then (
      true,
      (
        record h {
          map = hash_set map name (record node { queue = some (push_queue queue msg cookie) });
        },
        send 0 h.slave type_text 0 (81 ∷ 32 ∷ until_zero name) ∷ [],
      ),
    )
    else remote_send_handle (record h { map = map }) source node.value kind session msg

-- `remote_send_name`
unfoldable pub remote_send_name :
    Harbor → ℕ → List ℕ → ℕ → ℕ → List ℕ → Bool × (Harbor × List Action)
remote_send_name h source name kind session msg =
    send_to_node h source name kind session msg (found_or_new h.map name (hash_search h.map name))

-- `handshake`
unfoldable pub handshake : Harbor → ℕ → Action
handshake h id = socket_send (h.s id).fd (h.id % 2 ^ 8 ∷ [])
