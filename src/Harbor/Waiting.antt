-- ===== src/Harbor/Waiting.antt =====
-- The messages of ztask/server/service_harbor.c for a node that is not connected yet.
use ztask.Base.{
  ℕ, ◌+◌, ◌*◌, ◌/◌, ◌%◌, ◌^◌, ◌<◌, ◌≡◌, ◌≢◌, refl, sym, ap, ◌∙◌, subst, true, false, ◌||◌, Option,
  none, some, List, [], ◌∷◌, ◌++◌, append_assoc, append-nil, arith, map, ltb, leb, ◌==◌, ◌&&◌,
  update_self,
}
use ztask.Harbor.{
  HarborMsg, MsgQueue, push_queue, push_queue_msg, pop_all, new_queue, status_header, Harbor,
  set_slave, Action, socket_start, socket_send, remote_max,
}
use ztask.Harbor.Wire.{send_remote}
use ztask.Harbor.Service.{is_down, remote_send_handle, dispatch_queue, handshake, Outcome, after}
use ztask.Harbor.Commands.{connect_slave}
use ztask.Harbor.Ring.{
  IsValid, contents, contents-push_queue_msg, pop_all-contents, new_queue-IsValid,
  contents-new_queue,
}

-- The arguments of `remote_send_handle` for one message.
pub record Outgoing : Type 0 where
  pub source : ℕ
  pub destination : ℕ
  pub kind : ℕ
  pub session : ℕ
  pub msg : List ℕ

-- The calls of `remote_send_handle`, one after the other.
abbrev pub send_all : Harbor → List Outgoing → Harbor × List Action
send_all h [] = (h, [])
send_all h (o ∷ os) =
    let sent = (remote_send_handle h o.source o.destination o.kind o.session o.msg).1 in
    let rest = send_all sent.0 os in (rest.0, sent.1 ++ rest.1)

-- The message with the header that goes to the other node.
abbrev pub carried : Outgoing → HarborMsg
carried o = record {
  header = record {
    source = o.source;
    destination = o.kind * 2 ^ 24 % 2 ^ 32 + o.destination % 2 ^ 24;
    session = o.session;
  };
  buffer = o.msg;
}

abbrev pub Holds : Option MsgQueue → List HarborMsg → Type 0
Holds none ms = ms ≡ []
Holds (some q) ms = IsValid q × (contents q ≡ ms)

-- The node `id` is not connected, and the messages `ms` wait for it.
abbrev pub Waits : Harbor → ℕ → List HarborMsg → Type 0
Waits h id ms = ((h.s id).fd ≡ 0) × (is_down (h.s id).status ≡ false) × Holds (h.s id).queue ms

abbrev pub AllTo : ℕ → List Outgoing → Type 0
AllTo id [] = Unit {0}
AllTo id (o ∷ os) = (o.destination / 2 ^ 24 ≡ id) × AllTo id os

pub pushed-Holds :
    (o : Option MsgQueue) (ms : List HarborMsg) (m : HarborMsg)
    → Holds o ms
    → Holds (some (push_queue_msg (elim o [ none ↦ new_queue | some q ↦ q ]) m)) (ms ++ m ∷ [])
pushed-Holds none ms m e =
    let pushed = contents-push_queue_msg new_queue m new_queue-IsValid in
    (pushed.1, pushed.0 ∙ ap (λ l. l ++ m ∷ []) (contents-new_queue ∙ sym e))
pushed-Holds (some q) ms m (v, e) =
    let pushed = contents-push_queue_msg q m v in (pushed.1, pushed.0 ∙ ap (λ l. l ++ m ∷ []) e)

send-Waits :
    (h : Harbor) (o : Outgoing) (id : ℕ) (ms : List HarborMsg)
    → o.destination / 2 ^ 24 ≡ id
    → id ≢ h.id
    → Waits h id ms
    → (h' : Harbor) × (remote_send_handle h o.source o.destination o.kind o.session o.msg
        ≡ (true, (h', [])))
      × Waits h' id (ms ++ carried o ∷ [])
      × (h'.id ≡ h.id)
unfolding remote_send_handle push_queue
send-Waits h o id ms to ne (fd, up, held) =
    let other : (id == h.id) ≡ false = ground arith in
    let unconnected : ((h.s id).fd == 0) ≡ true = ground arith in
    let s' = record (h.s id) {
      queue =
          some
            (push_queue_msg (elim ((h.s id).queue) [ none ↦ new_queue | some q ↦ q ]) (carried o));
    } in
    (
      set_slave id s' h,
      rw (to, other, unconnected, up) refl,
      subst (λ s. (s.fd ≡ 0) × (is_down s.status ≡ false) × Holds s.queue (ms ++ carried o ∷ []))
          (sym (update_self h.s id s')) (fd, up, pushed-Holds (h.s id).queue ms (carried o) held),
      refl,
    )

send_all-Waits :
    (h : Harbor) (os : List Outgoing) (id : ℕ) (ms : List HarborMsg)
    → AllTo id os
    → id ≢ h.id
    → Waits h id ms
    → ((send_all h os).1 ≡ [])
      × Waits (send_all h os).0 id (ms ++ map carried os)
      × ((send_all h os).0.id ≡ h.id)
send_all-Waits h [] id ms all ne w = (refl, subst (Waits h id) (sym (append-nil ms)) w, refl)
send_all-Waits h (o ∷ os) id ms (to, all) ne w =
    let (h', sent, w', same) = send-Waits h o id ms to ne w in
    let rest = send_all-Waits h' os id (ms ++ carried o ∷ []) all (omega arith) w' in
    rw sent (
      rest.0,
      subst (Waits (send_all h' os).0 id) (append_assoc ms (carried o ∷ []) (map carried os))
          rest.1,
      rest.2 ∙ same,
    )

-- What `dispatch_queue` sends.
abbrev pub flushed : ℕ → List HarborMsg → List Action
flushed fd ms = map (λ m. send_remote fd m.buffer m.header) ms

pub dispatch_queue-flushed :
    (h : Harbor) (id : ℕ) (ms : List HarborMsg)
    → (h.s id).fd ≢ 0
    → Holds (h.s id).queue ms
    → (h' : Harbor) × (dispatch_queue h id ≡ some (h', flushed (h.s id).fd ms))
      × ((h'.s id).queue ≡ none)
      × ((h'.s id).fd ≡ (h.s id).fd)
      × ((h'.s id).status ≡ (h.s id).status)
unfolding dispatch_queue
dispatch_queue-flushed h id ms ne held =
    let connected : ((h.s id).fd == 0) ≡ false = ground arith in
    rw connected (flush (h.s id).queue held refl)
  where
    emptied : Harbor
    emptied = set_slave id (record (h.s id) { queue = none }) h

    flush :
        (o : Option MsgQueue)
        → Holds o ms
        → (h.s id).queue ≡ o
        → (h' : Harbor) × (◌≡◌ {A = Outcome}
            (some (elim o [
              | none ↦ (h, [])
              | some queue ↦ (emptied, flushed (h.s id).fd (pop_all queue))
            ]))
            (some (h', flushed (h.s id).fd ms)))
          × ((h'.s id).queue ≡ none)
          × ((h'.s id).fd ≡ (h.s id).fd)
          × ((h'.s id).status ≡ (h.s id).status)
    flush none e is = (h, ap (λ l. some (h, flushed (h.s id).fd l)) (sym e), is, refl, refl)
    flush (some q) (v, e) is = (
      emptied,
      ap (λ l. some (emptied, flushed (h.s id).fd l)) (pop_all-contents q v ∙ e),
      ap (λ s. s.queue) (update_self h.s id (record (h.s id) { queue = none })),
      ap (λ s. s.fd) (update_self h.s id (record (h.s id) { queue = none })),
      ap (λ s. s.status) (update_self h.s id (record (h.s id) { queue = none })),
    )

pub accepted :
    (h : Harbor) (id fd : ℕ)
    → (fd == 0 || (id == 0 || leb remote_max id)) ≡ false
    → (ltb 0 (h.s id).fd && ltb (h.s id).fd (2 ^ 31)) ≡ false
    → connect_slave h false fd id ≡ (
        let headed = set_slave id (record (h.s id) { fd = fd; status = status_header }) h in
        after (socket_start fd ∷ handshake headed id ∷ []) (dispatch_queue headed id))
unfolding connect_slave
accepted h id fd given unused = rw (given, unused) refl

-- A node that connects gets the handshake and the messages that wait for it.
pub connect_slave-Waits :
    (h : Harbor) (id fd : ℕ) (ms : List HarborMsg)
    → 0 < id
    → id < remote_max
    → fd ≢ 0
    → Waits h id ms
    → (h' : Harbor) × (connect_slave h false fd id
        ≡ some (h', socket_start fd ∷ socket_send fd (h.id % 2 ^ 8 ∷ []) ∷ flushed fd ms))
      × ((h'.s id).queue ≡ none)
      × ((h'.s id).fd ≡ fd)
      × ((h'.s id).status ≡ status_header)
unfolding handshake
connect_slave-Waits h id fd ms low high some_fd (free, up, held) =
    let headed = record (h.s id) { fd = fd; status = status_header } in
    let given : (fd == 0 || (id == 0 || leb remote_max id)) ≡ false = ground arith in
    let unused : (ltb 0 (h.s id).fd && ltb (h.s id).fd (2 ^ 31)) ≡ false = ground arith in
    let self = update_self h.s id headed in
    let (h', flush, emptied, fd', st) =
      dispatch_queue-flushed (set_slave id headed h) id ms
        (subst (λ s. s.fd ≢ 0) (sym self) some_fd)
        (subst (λ s. Holds s.queue ms) (sym self) held) in
    (
      h',
      accepted h id fd given unused
          ∙ ap (after (socket_start fd ∷ handshake (set_slave id headed h) id ∷ [])) flush
          ∙ ap
              (λ fd''.
                some (h', socket_start fd ∷ socket_send fd'' (h.id % 2 ^ 8 ∷ []) ∷ flushed fd'' ms))
              (ap (λ s. s.fd) self),
      emptied,
      fd' ∙ ap (λ s. s.fd) self,
      st ∙ ap (λ s. s.status) self,
    )

-- The messages that `remote_send_handle` takes for a node that is not connected cause nothing until the
-- node connects ("A"): then the connection is started, gets the handshake and all these messages, in the
-- order in which they came, behind those that waited before, and none waits any more.
pub connect_slave-send_all :
    (h : Harbor) (os : List Outgoing) (id fd : ℕ) (ms : List HarborMsg)
    → AllTo id os
    → id ≢ h.id
    → 0 < id
    → id < remote_max
    → fd ≢ 0
    → Waits h id ms
    → ((send_all h os).1 ≡ [])
      × ((h' : Harbor) × (connect_slave (send_all h os).0 false fd id
            ≡ some (
              h',
              socket_start fd
                  ∷ socket_send fd (h.id % 2 ^ 8 ∷ [])
                  ∷ flushed fd (ms ++ map carried os),
            ))
          × ((h'.s id).queue ≡ none)
          × ((h'.s id).fd ≡ fd)
          × ((h'.s id).status ≡ status_header))
connect_slave-send_all h os id fd ms all ne low high some_fd w =
    let (quiet, w', same) = send_all-Waits h os id ms all ne w in
    let (h', sent, emptied, fd', st) =
      connect_slave-Waits (send_all h os).0 id fd (ms ++ map carried os) low high some_fd w' in
    (
      quiet,
      (
        h',
        sent
            ∙ ap
                (λ n. some (
                  h',
                  socket_start fd
                      ∷ socket_send fd (n % 2 ^ 8 ∷ [])
                      ∷ flushed fd (ms ++ map carried os),
                ))
                same,
        emptied,
        fd',
        st,
      ),
    )
