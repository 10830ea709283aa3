-- ===== src/Harbor/Data.antt =====
-- What ztask/server/service_harbor.c does with the data of a connection (`push_socket_data`). An array is a
-- function, as the two of a slave are; `accepts` says of a call of `ztask_send` whether its result is not
-- negative, during the data of one connection the same for equal calls. The loop runs on fuel.
use ztask.Base.{
  ℕ, zero, suc, ◌+◌, ◌-◌, ◌*◌, ◌/◌, ◌%◌, ◌^◌, Bool, Option, none, some, List, [], ◌∷◌, ◌++◌, ltb,
  ◌==◌, if◌then◌else◌, length, take, drop, update,
}
use ztask.Harbor.{
  Header, status_wait, status_handshake, status_header, status_content, status_down, Slave, Harbor,
  set_slave, Action, send, report, header_cookie_length,
}
use ztask.Harbor.Wire.{message_to_header}
use ztask.Harbor.Service.{
  type_error, dont_copy_tag, Outcome, after, close_harbor, dispatch_queue, harbor_id,
}

-- `memcpy` to the index `i` of an array.
abbrev pub copy_at : (ℕ → ℕ) → ℕ → List ℕ → ℕ → ℕ
copy_at array i [] = array
copy_at array i (b ∷ bytes) = copy_at (update array i b) (i + 1) bytes

-- The first elements of an array from `i` on.
abbrev pub read_from : (ℕ → ℕ) → ℕ → ℕ → List ℕ
read_from array i zero = []
read_from array i (suc n) = array i ∷ read_from array (i + 1) n

-- What one round of the loop leaves behind: the bytes that the next round goes on with, or `none` after
-- a return.
abbrev pub Round : Type 0
Round = Option (Harbor × (List Action × Option (List ℕ)))

-- A return.
abbrev pub returned : Harbor × List Action → Round
returned (h, actions) = some (h, (actions, none))

-- The test `size == 0` that returns.
abbrev pub unless_empty : List ℕ → Option (List ℕ)
unless_empty [] = none
unless_empty (b ∷ bytes) = some (b ∷ bytes)

abbrev pub round_after : List Action → Round → Round
round_after before none = none
round_after before (some (h, (actions, rest))) = some (h, (before ++ actions, rest))

module _ (accepts : Action → Bool) where
  -- The answer to a message that nobody took.
  abbrev pub refuse : ℕ → ℕ → Header → List Action
  refuse kind destination header =
      if kind == type_error
      then report ∷ []
      else send destination header.source type_error header.session [] ∷ report ∷ []

  -- The call of `ztask_send` in `forward_local_messsage`.
  abbrev pub local_send : ℕ → Header → List ℕ → Action
  local_send id header msg =
      send header.source (header.destination % 2 ^ 24 + id % 2 ^ 8 * 2 ^ 24)
        (header.destination / 2 ^ 24 + dont_copy_tag) header.session msg

  abbrev pub forward : ℕ → Header → List ℕ → List Action
  forward id header msg =
      if accepts (local_send id header msg)
      then local_send id header msg ∷ []
      else local_send id header msg
        ∷ refuse (header.destination / 2 ^ 24) (header.destination % 2 ^ 24 + id % 2 ^ 8 * 2 ^ 24)
            header

  -- `forward_local_messsage` of a package, which ends with the header.
  unfoldable pub forward_local : ℕ → List ℕ → Option (List Action)
  forward_local id msg =
      if ltb (length msg) header_cookie_length
      then none
      else some (
          forward id (message_to_header (drop (length msg - header_cookie_length) msg))
            (take (length msg - header_cookie_length) msg))

  -- The end of a package: `forward_local_messsage` and the reset.
  abbrev pub finish_content : Harbor → ℕ → Slave → (ℕ → ℕ) → List ℕ → Round
  finish_content h id s array rest = elim (forward_local h.id (read_from array 0 s.length)) [
    | none ↦ none
    | some actions ↦ some (
      set_slave id (record s { length = 0; read = 0; recv_buffer = λ i. 0; status = status_header })
          h,
      (actions, unless_empty rest),
    )
  ]

  -- `case STATUS_CONTENT`
  unfoldable pub content_step : Harbor → ℕ → List ℕ → Round
  unfolding forward_local
  content_step h id buffer =
      let s = h.s id in
      let need = s.length - s.read in
      if ltb s.length s.read
      then none
      else if ltb (length buffer) need
      then returned (
        set_slave id
            (record s {
              recv_buffer = copy_at s.recv_buffer s.read buffer;
              read = s.read + length buffer;
            })
            h,
        [],
      )
      else finish_content h id s (copy_at s.recv_buffer s.read (take need buffer))
          (drop need buffer)

  -- The rest of `case STATUS_HEADER` when the four bytes are there.
  abbrev pub finish_header : Harbor → ℕ → Slave → (ℕ → ℕ) → List ℕ → Round
  finish_header h id s array rest =
      let closed = close_harbor (set_slave id (record s { size = array }) h) id in
      let opened =
        set_slave id
          (record s {
            size = array;
            length = array 1 * 2 ^ 16 + array 2 * 2 ^ 8 + array 3;
            read = 0;
            recv_buffer = λ i. 0;
            status = status_content;
          })
          h in
      let content : Round = elim (unless_empty rest) [
        | none ↦ returned (opened, [])
        | some more ↦ content_step opened id more
      ] in
      if array 0 == 0 then content else returned (closed.0, report ∷ closed.1)

  -- `case STATUS_HEADER`; `read` may be above 4 after a new connection, the length of the copy is
  -- negative then.
  unfoldable pub header_step : Harbor → ℕ → List ℕ → Round
  unfolding content_step close_harbor
  header_step h id buffer =
      let s = h.s id in
      let need = 4 - s.read in
      if ltb 4 s.read
      then none
      else if ltb (length buffer) need
      then returned (
        set_slave id
            (record s { size = copy_at s.size s.read buffer; read = s.read + length buffer }) h,
        [],
      )
      else finish_header h id s (copy_at s.size s.read (take need buffer)) (drop need buffer)

  -- `case STATUS_HANDSHAKE` behind the test of the id.
  abbrev pub finish_handshake : ℕ → List ℕ → Outcome → Round
  finish_handshake id rest none = none
  finish_handshake id [] (some (h, actions)) = some (h, (actions, some []))
  finish_handshake id (b ∷ rest) (some (h, actions)) =
      round_after actions (header_step h id (b ∷ rest))

  abbrev pub handshake_step : Harbor → ℕ → List ℕ → Round
  handshake_step h id [] = none
  handshake_step h id (remote_id ∷ rest) =
      let closed = close_harbor h id in
      if remote_id == id
      then finish_handshake id rest
          (dispatch_queue (set_slave id (record (h.s id) { status = status_header }) h) id)
      else returned (closed.0, report ∷ closed.1)

  -- One round of the loop.
  unfoldable pub data_step : Harbor → ℕ → List ℕ → Round
  unfolding header_step content_step close_harbor dispatch_queue
  data_step h id buffer = elim ((h.s id).status) [
    | status_wait ↦ returned (h, [])
    | status_handshake ↦ handshake_step h id buffer
    | status_header ↦ header_step h id buffer
    | status_content ↦ content_step h id buffer
    | status_down ↦ returned (h, [])
  ]

  -- The loop `for (;;)`.
  unfoldable pub data_loop : ℕ → Harbor → ℕ → List ℕ → Outcome
  unfolding data_step
  data_loop zero h id buffer = none
  data_loop (suc fuel) h id buffer = elim (data_step h id buffer) [
    | none ↦ none
    | some (h', (actions, none)) ↦ some (h', actions)
    | some (h', (actions, some rest)) ↦ after actions (data_loop fuel h' id rest)
  ]

  -- `push_socket_data`
  unfoldable pub push_socket_data : Harbor → ℕ → List ℕ → Outcome
  unfolding data_loop harbor_id
  push_socket_data h fd buffer =
      let id = harbor_id h fd in
      if id == 0 then some (h, report ∷ []) else data_loop (length buffer + 2) h id buffer
