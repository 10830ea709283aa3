-- ===== src/Harbor/Down.antt =====
-- The states that the service of ztask/server/service_harbor.c can reach: a connection without an fd has
-- never been used.
use ztask.Base.{
  ℕ, zero, suc, ◌+◌, ◌-◌, ◌*◌, ◌^◌, ◌≢◌, Bool, none, some, List, [], ◌∷◌, length, take, drop, ltb,
  ◌==◌,
}
use ztask.Harbor.{
  Status, status_wait, status_handshake, status_header, status_content, status_down, Slave, Harbor,
  set_slave, Action,
}
use ztask.Harbor.Service.{Outcome, after, dispatch_queue}
use ztask.Harbor.Data.{
  copy_at, read_from, Round, returned, round_after, unless_empty, forward_local, finish_content,
  content_step, finish_header, header_step, finish_handshake, handshake_step, data_step, data_loop,
}
use ztask.Harbor.Kept.{
  Used, Keeps, KeepsRound, either, either_node, set-Used, close-Used, dispatch-Used,
}

module _ (accepts : Action → Bool) where
  finish_content-Used :
      (h : Harbor) (id : ℕ) (s : Slave) (array : ℕ → ℕ) (rest : List ℕ)
      → s.fd ≢ 0
      → Used id h
      → KeepsRound (Used id) (finish_content accepts h id s array rest)
  finish_content-Used h id s array rest ne used =
      either_node (KeepsRound (Used id)) (forward_local accepts h.id (read_from array 0 s.length))
        none _ tt
        (λ actions.
          set-Used h id
            (record s { length = 0; read = 0; recv_buffer = λ i. 0; status = status_header }) ne
            used)

  content-Used :
      (h : Harbor) (id : ℕ) (buffer : List ℕ)
      → Used id h
      → KeepsRound (Used id) (content_step accepts h id buffer)
  unfolding content_step
  content-Used h id buffer used =
      let s = h.s id in
      let kept = KeepsRound (Used id) in
      either kept (ltb s.length s.read) none _ tt (
        either kept (ltb (length buffer) (s.length - s.read)) _ _
          (set-Used h id
            (record s {
              recv_buffer = copy_at s.recv_buffer s.read buffer;
              read = s.read + length buffer;
            })
            used.1 used)
          (finish_content-Used h id s
            (copy_at s.recv_buffer s.read (take (s.length - s.read) buffer))
            (drop (s.length - s.read) buffer) used.1 used))

  finish_header-Used :
      (h : Harbor) (id : ℕ) (s : Slave) (array : ℕ → ℕ) (rest : List ℕ)
      → s.fd ≢ 0
      → Used id h
      → KeepsRound (Used id) (finish_header accepts h id s array rest)
  finish_header-Used h id s array rest ne used =
      let s' = record s {
        size = array;
        length = array 1 * 2 ^ 16 + array 2 * 2 ^ 8 + array 3;
        read = 0;
        recv_buffer = λ i. 0;
        status = status_content;
      } in
      let kept = KeepsRound (Used id) in
      let opened = set-Used h id s' ne used in
      either kept (array 0 == 0) _ _
        (either_node kept (unless_empty rest) _ _ opened
          (λ more. content-Used (set_slave id s' h) id more opened))
        (close-Used (set_slave id (record s { size = array }) h) id
          (set-Used h id (record s { size = array }) ne used))

  header-Used :
      (h : Harbor) (id : ℕ) (buffer : List ℕ)
      → Used id h
      → KeepsRound (Used id) (header_step accepts h id buffer)
  unfolding header_step
  header-Used h id buffer used =
      let s = h.s id in
      let kept = KeepsRound (Used id) in
      either kept (ltb 4 s.read) none _ tt (
        either kept (ltb (length buffer) (4 - s.read)) _ _
          (set-Used h id
            (record s { size = copy_at s.size s.read buffer; read = s.read + length buffer }) used.1
            used)
          (finish_header-Used h id s (copy_at s.size s.read (take (4 - s.read) buffer))
            (drop (4 - s.read) buffer) used.1 used))

  round_after-Used :
      (id : ℕ) (before : List Action) (r : Round)
      → KeepsRound (Used id) r
      → KeepsRound (Used id) (round_after before r)
  round_after-Used id before none used = tt
  round_after-Used id before (some (h, more)) used = used

  finish_handshake-Used :
      (id : ℕ) (rest : List ℕ) (o : Outcome)
      → Keeps (Used id) o
      → KeepsRound (Used id) (finish_handshake accepts id rest o)
  finish_handshake-Used id rest none used = tt
  finish_handshake-Used id [] (some (h, actions)) used = used
  finish_handshake-Used id (b ∷ rest) (some (h, actions)) used =
      round_after-Used id actions (header_step accepts h id (b ∷ rest))
        (header-Used h id (b ∷ rest) used)

  handshake-Used :
      (h : Harbor) (id : ℕ) (buffer : List ℕ)
      → Used id h
      → KeepsRound (Used id) (handshake_step accepts h id buffer)
  handshake-Used h id [] used = tt
  handshake-Used h id (remote_id ∷ rest) used =
      let shaken = set_slave id (record (h.s id) { status = status_header }) h in
      either (KeepsRound (Used id)) (remote_id == id) _ _
        (finish_handshake-Used id rest (dispatch_queue shaken id) (
          dispatch-Used shaken id
            (set-Used h id (record (h.s id) { status = status_header }) used.1 used)))
        (close-Used h id used)

  step-Used :
      (h : Harbor) (id : ℕ) (buffer : List ℕ) (status : Status)
      → Used id h
      → KeepsRound (Used id) (elim status [
        | status_wait ↦ returned (h, [])
        | status_handshake ↦ handshake_step accepts h id buffer
        | status_header ↦ header_step accepts h id buffer
        | status_content ↦ content_step accepts h id buffer
        | status_down ↦ returned (h, [])
      ])
  step-Used h id buffer status_wait used = used
  step-Used h id buffer status_handshake used = handshake-Used h id buffer used
  step-Used h id buffer status_header used = header-Used h id buffer used
  step-Used h id buffer status_content used = content-Used h id buffer used
  step-Used h id buffer status_down used = used

  after_kept :
      (P : Harbor → Type 0) (before : List Action) (o : Outcome)
      → Keeps P o
      → Keeps P (after before o)
  after_kept P before none k = tt
  after_kept P before (some (h, actions)) k = k

  more-Used :
      (id fuel : ℕ) (r : Round)
      → ((h : Harbor) (rest : List ℕ)
          → Used id h
          → Keeps (Used id) (data_loop accepts fuel h id rest))
      → KeepsRound (Used id) r
      → Keeps (Used id) (elim r [
        | none ↦ none
        | some (h', (actions, none)) ↦ some (h', actions)
        | some (h', (actions, some rest)) ↦ after actions (data_loop accepts fuel h' id rest)
      ])
  more-Used id fuel none ih used = tt
  more-Used id fuel (some (h', (actions, none))) ih used = used
  more-Used id fuel (some (h', (actions, some rest))) ih used =
      after_kept (Used id) actions (data_loop accepts fuel h' id rest) (ih h' rest used)

  pub loop-Used :
      (fuel : ℕ) (h : Harbor) (id : ℕ) (buffer : List ℕ)
      → Used id h
      → Keeps (Used id) (data_loop accepts fuel h id buffer)
  unfolding data_loop data_step
  loop-Used zero h id buffer used = tt
  loop-Used (suc fuel) h id buffer used =
      more-Used id fuel (data_step accepts h id buffer)
        (λ h₁ rest used₁. loop-Used fuel h₁ id rest used₁)
        (step-Used h id buffer (h.s id).status used)
