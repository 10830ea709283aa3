-- ===== src/Harbor/Commands.antt =====
-- The messages that the service of ztask/server/service_harbor.c handles (`harbor_command`, `mainloop`),
-- its start and its end. `accepts` is as in `Harbor.Data`; `scan` is `sscanf` with "%d %d", which leaves 0
-- where it reads no number, each number as its 32 bits.
use ztask.Base.{
  ℕ, zero, suc, ◌+◌, ◌-◌, ◌^◌, Bool, not, ◌&&◌, ◌||◌, Option, none, some, List, [], ◌∷◌, ◌++◌, ltb,
  leb, ◌==◌, if◌then◌else◌, length,
}
use ztask.Harbor.{
  status_handshake, status_header, Harbor, set_slave, Action, send, socket_start, report,
  globalname_length, remote_max,
}
use ztask.Harbor.Service.{
  type_error, Outcome, after, is_down, close_harbor, report_harbor_down, harbor_id, dispatch_queue,
  update_name, remote_send_handle, remote_send_name, handshake,
}
use ztask.Harbor.Data.{push_socket_data}

-- The `memset` and `memcpy` of a name.
abbrev pub pad_name : ℕ → List ℕ → List ℕ
pad_name zero name = []
pad_name (suc n) [] = 0 ∷ pad_name n []
pad_name (suc n) (b ∷ name) = b ∷ pad_name n name

-- `case 'N'` of `harbor_command`.
abbrev pub name_command : Harbor → List ℕ → ℕ → Harbor × List Action
name_command h name source =
    if length name == 0 || leb globalname_length (length name)
    then (h, report ∷ [])
    else update_name h (pad_name globalname_length name) source

-- A new connection of the slave `id`; `fd > 0` is a test of a signed number.
unfoldable pub connect_slave : Harbor → Bool → ℕ → ℕ → Outcome
unfolding dispatch_queue handshake
connect_slave h asked fd id =
    let s = h.s id in
    let shaken = set_slave id (record s { fd = fd; status = status_handshake }) h in
    let headed = set_slave id (record s { fd = fd; status = status_header }) h in
    let started = socket_start fd ∷ handshake headed id ∷ [] in
    if fd == 0 || (id == 0 || leb remote_max id)
    then some (h, report ∷ [])
    else if ltb 0 s.fd && ltb s.fd (2 ^ 31)
    then some (h, report ∷ [])
    else if asked
    then some (shaken, started)
    else after started (dispatch_queue headed id)

-- The messages of the sockets (`struct ztask_socket_message`).
pub data SocketMessage : Type 0 where
  socket_data : (fd : ℕ) → (buffer : List ℕ) → SocketMessage
  socket_closed : (fd : ℕ) → SocketMessage
  socket_failed : (fd : ℕ) → SocketMessage
  socket_connect : (fd : ℕ) → SocketMessage
  socket_warning : (fd : ℕ) → SocketMessage
  socket_other : SocketMessage

-- A message of the service, by its type.
pub data HarborMessage : Type 0 where
  from_socket : (message : SocketMessage) → HarborMessage
  harbor_text : (msg : List ℕ) → HarborMessage
  remote_message : (handle : ℕ) → (name : List ℕ) → (kind : ℕ) → (msg : List ℕ) → HarborMessage
  response : HarborMessage
  other_message : (kind : ℕ) → HarborMessage

abbrev pub socket_down : Harbor → ℕ → Harbor × List Action
socket_down h fd =
    let id = harbor_id h fd in if id == 0 then (h, report ∷ []) else report_harbor_down h id

module _ (scan : List ℕ → ℕ × ℕ) where
  -- `harbor_command`
  unfoldable pub harbor_command : Harbor → List ℕ → ℕ → Outcome
  harbor_command h [] source = none
  harbor_command h (c ∷ []) source = if c == 83 || c == 65 then none else some (h, report ∷ [])
  harbor_command h (c ∷ blank ∷ name) source =
      if c == 78
      then some (name_command h name source)
      else if c == 83 || c == 65
      then connect_slave h (c == 83) (scan name).0 (scan name).1
      else some (h, report ∷ [])

module _ (accepts : Action → Bool) where
  -- `case PTYPE_SOCKET` of `mainloop`.
  abbrev pub handle_socket : Harbor → SocketMessage → Outcome
  handle_socket h (socket_data fd buffer) = push_socket_data accepts h fd buffer
  handle_socket h (socket_closed fd) = some (socket_down h fd)
  handle_socket h (socket_failed fd) = some (socket_down h fd)
  handle_socket h (socket_connect fd) = some (h, [])
  handle_socket h (socket_warning fd) = some (h, if harbor_id h fd == 0 then [] else report ∷ [])
  handle_socket h socket_other = some (h, report ∷ [])

module _ (accepts : Action → Bool) (scan : List ℕ → ℕ × ℕ) where
  -- `mainloop`
  unfoldable pub mainloop : Harbor → HarborMessage → ℕ → ℕ → Outcome
  mainloop h (from_socket message) session source = handle_socket accepts h message
  mainloop h (harbor_text msg) session source = harbor_command scan h msg source
  mainloop h (remote_message handle name kind msg) session source =
      if handle == 0
      then some ((remote_send_name h source name kind session msg).1)
      else some ((remote_send_handle h source handle kind session msg).1)
  mainloop h response session source = some (h, [])
  mainloop h (other_message kind) session source = some (
    h,
    report
        ∷ (if not (session == 0) && not (kind == type_error)
            then send 0 source type_error session [] ∷ []
            else []),
  )

-- `harbor_init`, of the two numbers that `sscanf` reads from the arguments: `none` if it fails.
abbrev pub harbor_init : Harbor → ℕ → ℕ → Option Harbor
harbor_init h harbor_id slave =
    if slave == 0 then none else some (record h { id = harbor_id; slave = slave })

-- The loop of `harbor_release`.
unfoldable pub release_loop : ℕ → ℕ → Harbor → List Action
unfolding close_harbor
release_loop zero id h = []
release_loop (suc rounds) id h =
    let rest = release_loop rounds (id + 1) h in
    let s = h.s id in if s.fd == 0 || is_down s.status then rest else (close_harbor h id).1 ++ rest

-- `harbor_release`
unfoldable pub harbor_release : Harbor → List Action
unfolding release_loop
harbor_release h = release_loop (remote_max - 1) 1 h
