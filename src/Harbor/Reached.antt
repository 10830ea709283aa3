-- ===== src/Harbor/Reached.antt =====
-- Runs of the service of ztask/server/service_harbor.c: any messages, in any order, after its start.
use ztask.Base.{
  ℕ, suc, ◌+◌, ◌/◌, ◌%◌, ◌*◌, ◌^◌, ◌≡◌, ◌≢◌, refl, sym, subst, inl, inr, Bool, true, false, ◌||◌,
  none, some, List, [], ◌∷◌, arith, length, leb, ◌==◌, if◌then◌else◌, Bool-cases,
}
use ztask.Harbor.{
  Status, status_wait, status_down, Harbor, Action, harbor_create, globalname_length,
}
use ztask.Harbor.Wire.{send_remote}
use ztask.Harbor.Service.{Outcome, harbor_id, remote_send_handle}
use ztask.Harbor.Data.{data_step, data_loop, push_socket_data}
use ztask.Harbor.Commands.{
  harbor_command, SocketMessage, socket_data, socket_closed, socket_failed, socket_connect,
  socket_warning, socket_other, HarborMessage, from_socket, harbor_text, remote_message, response,
  other_message, socket_down, handle_socket, mainloop, harbor_init, pad_name,
}
use ztask.Harbor.Kept.{
  Unused, Used, Keeps, either, report_kept, update_name_kept, remote_send_handle_kept,
  remote_send_name_kept, connect_kept,
}
use ztask.Harbor.Down.{loop-Used}

-- The states that the messages of the service lead to.
pub data Reaches : (Action → Bool) → (List ℕ → ℕ × ℕ) → Harbor → Type 0 where
  started :
      (accepts : Action → Bool) (scan : List ℕ → ℕ × ℕ) (id slave : ℕ) (h : Harbor)
      → harbor_init harbor_create id slave ≡ some h
      → Reaches accepts scan h
  handled :
      (accepts : Action → Bool) (scan : List ℕ → ℕ × ℕ) (h h' : Harbor) (message : HarborMessage)
      (session source : ℕ) (actions : List Action)
      → Reaches accepts scan h
      → mainloop accepts scan h message session source ≡ some (h', actions)
      → Reaches accepts scan h'

-- The data of a connection that waits does nothing.
loop_waits :
    (accepts : Action → Bool) (fuel : ℕ) (h : Harbor) (id : ℕ) (buffer : List ℕ)
    → (h.s id).status ≡ status_wait
    → data_loop accepts (suc fuel) h id buffer ≡ some (h, [])
unfolding data_loop data_step
loop_waits accepts fuel h id buffer w = rw (data_loop, data_step, w) refl

Used-Unused : (id : ℕ) (o : Outcome) → Keeps (Used id) o → Keeps Unused o
Used-Unused id none k = k
Used-Unused id (some (h, actions)) k = k.0

zero_of : (n : ℕ) → (n == 0) ≡ true → n ≡ 0
zero_of n e = ground arith

nonzero_of : (n : ℕ) → (n == 0) ≡ false → n ≢ 0
nonzero_of n e = ground arith

push_kept :
    (accepts : Action → Bool) (h : Harbor) (fd : ℕ) (buffer : List ℕ)
    → Unused h
    → Keeps Unused (push_socket_data accepts h fd buffer)
unfolding push_socket_data
push_kept accepts h fd buffer inv =
    either (Keeps Unused) (harbor_id h fd == 0) _ _ inv
      (elim (Bool-cases ((h.s (harbor_id h fd)).fd == 0)) [
        | inl unused ↦
            let fuel : suc (length buffer + 1) ≡ length buffer + 2 = omega arith in
            subst (λ n. Keeps Unused (data_loop accepts n h (harbor_id h fd) buffer)) fuel
              (subst (Keeps Unused)
                (sym (
                  loop_waits accepts (length buffer + 1) h (harbor_id h fd) buffer
                    (inv (harbor_id h fd) (zero_of (h.s (harbor_id h fd)).fd unused))))
                inv)
        | inr used ↦
            Used-Unused (harbor_id h fd)
              (data_loop accepts (length buffer + 2) h (harbor_id h fd) buffer)
              (loop-Used accepts (length buffer + 2) h (harbor_id h fd) buffer
                (inv, nonzero_of (h.s (harbor_id h fd)).fd used))
      ])

down_kept : (h : Harbor) (fd : ℕ) → Unused h → Keeps Unused (some (socket_down h fd))
down_kept h fd inv =
    either (λ (r : Harbor × List Action). Unused r.0) (harbor_id h fd == 0) _ _ inv
      (report_kept h (harbor_id h fd) inv)

command_kept :
    (scan : List ℕ → ℕ × ℕ) (h : Harbor) (msg : List ℕ) (source : ℕ)
    → Unused h
    → Keeps Unused (harbor_command scan h msg source)
unfolding harbor_command
command_kept scan h [] source inv = tt
command_kept scan h (c ∷ []) source inv = either (Keeps Unused) (c == 83 || c == 65) _ _ tt inv
command_kept scan h (c ∷ blank ∷ name) source inv =
    either (Keeps Unused) (c == 78) _ _
      (either (λ (r : Harbor × List Action). Unused r.0)
        (length name == 0 || leb globalname_length (length name)) _ _ inv
        (update_name_kept h (pad_name globalname_length name) source inv))
      (either (Keeps Unused) (c == 83 || c == 65) _ _
        (connect_kept h (c == 83) (scan name).0 (scan name).1 inv) inv)

socket_kept :
    (accepts : Action → Bool) (h : Harbor) (message : SocketMessage)
    → Unused h
    → Keeps Unused (handle_socket accepts h message)
socket_kept accepts h (socket_data fd buffer) inv = push_kept accepts h fd buffer inv
socket_kept accepts h (socket_closed fd) inv = down_kept h fd inv
socket_kept accepts h (socket_failed fd) inv = down_kept h fd inv
socket_kept accepts h (socket_connect fd) inv = inv
socket_kept accepts h (socket_warning fd) inv = inv
socket_kept accepts h socket_other inv = inv

mainloop_kept :
    (accepts : Action → Bool) (scan : List ℕ → ℕ × ℕ) (h : Harbor) (message : HarborMessage)
    (session source : ℕ)
    → Unused h
    → Keeps Unused (mainloop accepts scan h message session source)
unfolding mainloop
mainloop_kept accepts scan h (from_socket message) session source inv =
    socket_kept accepts h message inv
mainloop_kept accepts scan h (harbor_text msg) session source inv =
    command_kept scan h msg source inv
mainloop_kept accepts scan h (remote_message handle name kind msg) session source inv =
    either (Keeps Unused) (handle == 0) _ _
      (remote_send_name_kept h source name kind session msg inv)
      (remote_send_handle_kept h source handle kind session msg inv)
mainloop_kept accepts scan h response session source inv = inv
mainloop_kept accepts scan h (other_message kind) session source inv = inv

init_kept : (id slave : ℕ) (h : Harbor) → harbor_init harbor_create id slave ≡ some h → Unused h
unfolding harbor_create
init_kept id slave h e = subst Unused (created (slave == 0) e) (λ i unused. refl)
  where
    fresh : Harbor
    fresh = record harbor_create { id = id; slave = slave }

    created : (c : Bool) → (if c then none else some fresh) ≡ some h → fresh ≡ h
    created true e = cc
    created false e = cc

-- After any messages, a connection without an fd has the status of one that was never used.
pub Reaches-Unused :
    (accepts : Action → Bool) (scan : List ℕ → ℕ × ℕ) (h : Harbor)
    → Reaches accepts scan h
    → Unused h
Reaches-Unused accepts scan h (started _ _ id slave _ e) = init_kept id slave h e
Reaches-Unused accepts scan h (handled _ _ before _ message session source actions r e) =
    subst (Keeps Unused) e (
      mainloop_kept accepts scan before message session source
        (Reaches-Unused accepts scan before r))

waiting_up : {status : Status} → status ≡ status_down → status ≡ status_wait → ⊥
waiting_up down wait = cc

-- In every state that the service can reach, a message for a node whose connection is down is sent on the
-- closed connection: the error for its source, which `remote_send_handle` has, is never sent.
pub remote_send_handle_down :
    (accepts : Action → Bool) (scan : List ℕ → ℕ × ℕ) (h : Harbor)
    (source destination kind session : ℕ) (msg : List ℕ)
    → Reaches accepts scan h
    → (h.s (destination / 2 ^ 24)).status ≡ status_down
    → destination / 2 ^ 24 ≢ h.id
    → remote_send_handle h source destination kind session msg ≡ (
      false,
      (
        h,
        send_remote (h.s (destination / 2 ^ 24)).fd msg (record {
          source = source;
          destination = kind * 2 ^ 24 % 2 ^ 32 + destination % 2 ^ 24;
          session = session;
        })
            ∷ [],
      ),
    )
unfolding remote_send_handle
remote_send_handle_down accepts scan h source destination kind session msg r down ne =
    let id = destination / 2 ^ 24 in
    let inv = Reaches-Unused accepts scan h r in
    let other : (id == h.id) ≡ false = ground arith in
    elim (Bool-cases ((h.s id).fd == 0)) [
      | inl unused ↦ absurd (waiting_up down (inv id (zero_of (h.s id).fd unused)))
      | inr used ↦ rw (other, used, down) refl
    ]
