-- ===== src/Harbor/Kept.antt =====
-- What the handlers of ztask/server/service_harbor.c other than those of data do to the connections.
use ztask.Base.{
  ℕ, ◌-◌, ◌/◌, ◌^◌, ◌≡◌, ◌≢◌, sym, subst, inl, inr, Bool, true, false, ◌||◌, ◌&&◌, Option, none,
  some, List, [], ◌∷◌, arith, leb, ltb, ◌==◌, if◌then◌else◌, update_self, Bool-cases,
}
use ztask.Harbor.{
  KeyValue, Map, MsgQueue, status_wait, status_handshake, status_header, status_down, Slave, Harbor,
  set_slave, Action, remote_max, hash_search, hash_set, socket_start,
}
use ztask.Harbor.Service.{
  Outcome, after, close_harbor, report_harbor_down, dispatch_queue, dispatch_name_queue,
  update_node, update_name, found_or_new, remote_send_handle, send_to_node, remote_send_name,
  is_handshake, is_down, handshake,
}
use ztask.Harbor.Data.{Round}
use ztask.Harbor.Commands.{connect_slave}

-- A connection without an fd waits.
abbrev pub Unused : Harbor → Type 0
Unused h = (i : ℕ) → (h.s i).fd ≡ 0 → (h.s i).status ≡ status_wait

-- And the slave `id` has an fd.
abbrev pub Used : ℕ → Harbor → Type 0
Used id h = Unused h × ((h.s id).fd ≢ 0)

abbrev pub Keeps : (Harbor → Type 0) → Outcome → Type 0
Keeps P none = Unit {0}
Keeps P (some (h, actions)) = P h

abbrev pub KeepsRound : (Harbor → Type 0) → Round → Type 0
KeepsRound P none = Unit {0}
KeepsRound P (some (h, more)) = P h

pub either : {A : Type 0} (P : A → Type 0) (c : Bool) (a b : A) → P a → P b → P (if c then a else b)
either P true a b pa pb = pa
either P false a b pa pb = pb

pub either_node :
    {A B : Type 0} (P : B → Type 0) (o : Option A) (b : B) (f : A → B)
    → P b
    → ((a : A) → P (f a))
    → P (elim o [ none ↦ b | some a ↦ f a ])
either_node P none b f pb pf = pb
either_node P (some a) b f pb pf = pf a

set_kept :
    (h : Harbor) (id : ℕ) (s : Slave)
    → (s.fd ≡ 0 → s.status ≡ status_wait)
    → Unused h
    → Unused (set_slave id s h)
set_kept h id s idle inv j = elim (Bool-cases (j == id)) [
  | inl here ↦ rw here idle
  | inr there ↦ rw there (inv j)
]

pub set-Used : (h : Harbor) (id : ℕ) (s : Slave) → s.fd ≢ 0 → Used id h → Used id (set_slave id s h)
set-Used h id s ne (inv, used) = (
  set_kept h id s (λ e. absurd (ne e)) inv,
  subst (λ t. t.fd ≢ 0) (sym (update_self h.s id s)) ne,
)

pub close-Used : (h : Harbor) (id : ℕ) → Used id h → Used id (close_harbor h id).0
unfolding close_harbor
close-Used h id used =
    set-Used h id (record (h.s id) { status = status_down; queue = none }) used.1 used

pub report_kept : (h : Harbor) (id : ℕ) → Unused h → Unused (report_harbor_down h id).0
unfolding report_harbor_down
report_kept h id inv =
    set_kept h id (record (h.s id) { fd = 2 ^ 32 - 1 }) (λ e. absurd (omega (arith, e))) inv

-- Only the queue of a slave changes.
queue_kept :
    (h : Harbor) (id : ℕ) (q : Option MsgQueue)
    → Unused h
    → Unused (set_slave id (record (h.s id) { queue = q }) h)
queue_kept h id q inv = set_kept h id (record (h.s id) { queue = q }) (inv id) inv

pub dispatch-Used : (h : Harbor) (id : ℕ) → Used id h → Keeps (Used id) (dispatch_queue h id)
unfolding dispatch_queue
dispatch-Used h id used = either (Keeps (Used id)) ((h.s id).fd == 0) none _ tt (
    either_node (λ (r : Harbor × List Action). Used id r.0) (h.s id).queue _ _ used
      (λ queue. set-Used h id (record (h.s id) { queue = none }) used.1 used))

dispatch_name_kept :
    (h : Harbor) (node : KeyValue) (q : MsgQueue)
    → Unused h
    → Unused (dispatch_name_queue h node q).0
unfolding dispatch_name_queue
dispatch_name_kept h node q inv =
    let id = node.value / 2 ^ 24 in
    let kept = λ (r : Harbor × List Action). Unused r.0 in
    either kept ((h.s id).fd == 0) _ _
      (either kept (is_down (h.s id).status) _ _ inv (
        either kept (id == h.slave / 2 ^ 24) _ _ (queue_kept h id none inv)
          (queue_kept h id _ inv)))
      inv

update_node_kept :
    (h : Harbor) (name : List ℕ) (handle : ℕ) (node : Map × KeyValue)
    → Unused h
    → Unused (update_node h name handle node).0
update_node_kept h name handle (map, node) inv =
    let node' = record node { value = handle; queue = none } in
    let h' = record h { map = hash_set map name node' } in
    either_node (λ (r : Harbor × List Action). Unused r.0) node.queue _ _ inv
      (λ queue. dispatch_name_kept h' node' queue inv)

pub update_name_kept :
    (h : Harbor) (name : List ℕ) (handle : ℕ) → Unused h → Unused (update_name h name handle).0
unfolding update_name
update_name_kept h name handle inv =
    update_node_kept h name handle (found_or_new h.map name (hash_search h.map name)) inv

pub remote_send_handle_kept :
    (h : Harbor) (source destination kind session : ℕ) (msg : List ℕ)
    → Unused h
    → Unused (remote_send_handle h source destination kind session msg).1.0
unfolding remote_send_handle
remote_send_handle_kept h source destination kind session msg inv =
    let id = destination / 2 ^ 24 in
    let kept = λ (r : Bool × (Harbor × List Action)). Unused r.1.0 in
    either kept (id == h.id) _ _ inv (
      either kept ((h.s id).fd == 0 || is_handshake (h.s id).status) _ _
        (either kept (is_down (h.s id).status) _ _ inv (queue_kept h id _ inv)) inv)

send_to_node_kept :
    (h : Harbor) (source : ℕ) (name : List ℕ) (kind session : ℕ) (msg : List ℕ)
    (node : Map × KeyValue)
    → Unused h
    → Unused (send_to_node h source name kind session msg node).1.0
send_to_node_kept h source name kind session msg (map, node) inv =
    either (λ (r : Bool × (Harbor × List Action)). Unused r.1.0) (node.value == 0) _ _ inv
      (remote_send_handle_kept (record h { map = map }) source node.value kind session msg inv)

pub remote_send_name_kept :
    (h : Harbor) (source : ℕ) (name : List ℕ) (kind session : ℕ) (msg : List ℕ)
    → Unused h
    → Unused (remote_send_name h source name kind session msg).1.0
unfolding remote_send_name
remote_send_name_kept h source name kind session msg inv =
    send_to_node_kept h source name kind session msg
      (found_or_new h.map name (hash_search h.map name)) inv

weaker :
    (id : ℕ) (before : List Action) (o : Outcome)
    → Keeps (Used id) o
    → Keeps Unused (after before o)
weaker id before none k = tt
weaker id before (some (h, actions)) k = k.0

pub connect_kept :
    (h : Harbor) (asked : Bool) (fd id : ℕ) → Unused h → Keeps Unused (connect_slave h asked fd id)
unfolding connect_slave
connect_kept h asked fd id inv = elim (Bool-cases (fd == 0 || (id == 0 || leb remote_max id))) [
  | inl invalid ↦ rw invalid inv
  | inr given ↦
      let some_fd : fd ≢ 0 = ground arith in
      rw given (
        either (Keeps Unused) (ltb 0 (h.s id).fd && ltb (h.s id).fd (2 ^ 31)) _ _ inv (
          either (Keeps Unused) asked _ _
            (set_kept h id (record (h.s id) { fd = fd; status = status_handshake })
              (λ e. absurd (some_fd e)) inv)
            (weaker id
              (socket_start fd
                ∷ handshake (set_slave id (record (h.s id) { fd = fd; status = status_header }) h)
                    id
                ∷ [])
              _
              (dispatch-Used (set_slave id (record (h.s id) { fd = fd; status = status_header }) h)
                id
                (
                  set_kept h id (record (h.s id) { fd = fd; status = status_header })
                      (λ e. absurd (some_fd e)) inv,
                  subst (λ t. t.fd ≢ 0)
                      (sym
                        (update_self h.s id (record (h.s id) { fd = fd; status = status_header })))
                      some_fd,
                )))))
]
