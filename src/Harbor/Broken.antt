-- ===== src/Harbor/Broken.antt =====
-- Where a node that runs ztask/server/service_harbor.c loses the connection to another, or what it
-- reads from it.
use ztask.Base.{
  ℕ, suc, ◌+◌, ◌-◌, ◌/◌, ◌%◌, ◌^◌, ◌<◌, ◌≤◌, ◌≡◌, ◌≢◌, refl, sym, ap, ◌∙◌, subst, inl, inr, Bool,
  true, false, ◌||◌, ◌&&◌, none, some, List, [], ◌∷◌, ◌++◌, map, arith, length, take, leb, ltb,
  ◌==◌, update, update_self, Bool-cases, ==-false_of_ne,
}
use ztask.Harbor.{
  Header, status_header, status_down, Slave, Harbor, pop_all, status_wait, status_handshake,
  status_content, set_slave, Action, socket_close, socket_start, socket_send, report, remote_max,
  header_cookie_length,
}
use ztask.Harbor.Wire.{to_bigendian, sendbuf, send_remote}
use ztask.Harbor.Service.{
  Outcome, after, close_harbor, report_harbor_down, harbor_id, dispatch_queue, handshake,
}
use ztask.Harbor.Data.{
  data_step, data_loop, header_step, content_step, handshake_step, returned, Round,
  push_socket_data, copy_at,
}
use ztask.Harbor.Loop.{find_slave-same}
use ztask.Harbor.Commands.{connect_slave}
use ztask.Harbor.Waiting.{accepted}

push_found :
    (accepts : Action → Bool) (h : Harbor) (fd id : ℕ) (buffer : List ℕ)
    → harbor_id h fd ≡ id
    → id ≢ 0
    → push_socket_data accepts h fd buffer ≡ data_loop accepts (suc (length buffer + 1)) h id buffer
unfolding push_socket_data
push_found accepts h fd id buffer found ne =
    let given : (id == 0) ≡ false = ==-false_of_ne id 0 ne in
    let fuel : length buffer + 2 ≡ suc (length buffer + 1) = omega arith in
    rw (found, given) (ap (λ n. data_loop accepts n h id buffer) fuel)

step_header :
    (accepts : Action → Bool) (h : Harbor) (id : ℕ) (buffer : List ℕ)
    → (h.s id).status ≡ status_header
    → data_step accepts h id buffer ≡ header_step accepts h id buffer
unfolding data_step
step_header accepts h id buffer st =
    ap
      (λ status. elim status as (λ _. Round) [
        | status_wait ↦ returned (h, [])
        | status_handshake ↦ handshake_step accepts h id buffer
        | status_header ↦ header_step accepts h id buffer
        | status_content ↦ content_step accepts h id buffer
        | status_down ↦ returned (h, [])
      ])
      st

header_stale :
    (accepts : Action → Bool) (h : Harbor) (id : ℕ) (buffer : List ℕ)
    → 4 < (h.s id).read
    → header_step accepts h id buffer ≡ none
unfolding header_step
header_stale accepts h id buffer stale =
    let over : ltb 4 (h.s id).read ≡ true = ground arith in rw over refl

dispatch_nothing :
    (h : Harbor) (id : ℕ)
    → (h.s id).fd ≢ 0
    → (h.s id).queue ≡ none
    → dispatch_queue h id ≡ some (h, [])
unfolding dispatch_queue
dispatch_nothing h id ne quiet =
    let used : ((h.s id).fd == 0) ≡ false = ==-false_of_ne (h.s id).fd 0 ne in
    rw used (
      ap
        (λ o. some (elim o as (λ _. Harbor × List Action) [
          | none ↦ (h, [])
          | some queue ↦ (
            set_slave id (record (h.s id) { queue = none }) h,
            map (λ m. send_remote (h.s id).fd m.buffer m.header) (pop_all queue),
          )
        ]))
        quiet)

found_same :
    (h h' : Harbor) (fd : ℕ)
    → ((j : ℕ) → (h'.s j).fd ≡ (h.s j).fd)
    → harbor_id h' fd ≡ harbor_id h fd
unfolding harbor_id
found_same h h' fd same = find_slave-same (remote_max - 1) 1 h.s h'.s fd same

set_twice :
    (s : ℕ → Slave) (id : ℕ) (a b c : Slave) (j : ℕ)
    → b.fd ≡ c.fd
    → (update (update s id a) id b j).fd ≡ (update s id c j).fd
set_twice s id a b c j e = elim (Bool-cases (j == id)) [
  | inl here ↦ rw here e
  | inr there ↦ rw there refl
]

-- The loop when the length of a package comes first.
loop_header :
    (accepts : Action → Bool) (fuel : ℕ) (h : Harbor) (id : ℕ) (buffer : List ℕ)
    → (h.s id).status ≡ status_header
    → data_loop accepts (suc fuel) h id buffer ≡ elim (header_step accepts h id buffer) [
      | none ↦ none
      | some (h', (actions, none)) ↦ some (h', actions)
      | some (h', (actions, some rest)) ↦ after actions (data_loop accepts fuel h' id rest)
    ]
unfolding data_loop
loop_header accepts fuel h id buffer st =
    ap
      (λ r. elim r as (λ _. Outcome) [
        | none ↦ none
        | some (h', (actions, none)) ↦ some (h', actions)
        | some (h', (actions, some rest)) ↦ after actions (data_loop accepts fuel h' id rest)
      ])
      (step_header accepts h id buffer st)

close_set :
    (h : Harbor) (id : ℕ) (s : Slave)
    → s.fd ≢ 0
    → close_harbor (set_slave id s h) id ≡ (
      set_slave id (record s { status = status_down; queue = none }) (set_slave id s h),
      socket_close s.fd ∷ [],
    )
unfolding close_harbor
close_set h id s ne =
    let used : (s.fd == 0) ≡ false = ==-false_of_ne s.fd 0 ne in
    rw (update_self h.s id s, used) refl

-- The round of a length whose first byte is not 0.
header_large :
    (accepts : Action → Bool) (h : Harbor) (id : ℕ) (a b c d : ℕ) (rest : List ℕ)
    → (h.s id).read ≡ 0
    → (h.s id).fd ≢ 0
    → a ≢ 0
    → (h' : Harbor) × (header_step accepts h id (a ∷ b ∷ c ∷ d ∷ rest)
        ≡ some (h', (report ∷ socket_close (h.s id).fd ∷ [], none)))
      × ((h'.s id).status ≡ status_down)
      × ((h'.s id).queue ≡ none)
unfolding header_step
header_large accepts h id a b c d rest r used ne =
    let s = h.s id in
    let bytes = a ∷ b ∷ c ∷ d ∷ rest in
    let fits : ltb 4 (h.s id).read ≡ false = ground arith in
    let enough : ltb (length bytes) (4 - (h.s id).read) ≡ false = ground arith in
    let array = copy_at s.size s.read (take (4 - s.read) bytes) in
    let first : array 0 ≡ a = ap (λ k. copy_at s.size k (take (4 - k) bytes) 0) r in
    let large : (array 0 == 0) ≡ false = ap (λ n. n == 0) first ∙ ==-false_of_ne a 0 ne in
    let s' = record s { size = array } in
    let closed = close_set h id s' used in
    let down = record s' { status = status_down; queue = none } in
    (
      set_slave id down (set_slave id s' h),
      rw (fits, enough, large)
          (ap (λ (o : Harbor × List Action). some (o.0, (report ∷ o.1, none))) closed),
      ap (λ s. s.status) (update_self (set_slave id s' h).s id down),
      ap (λ s. s.queue) (update_self (set_slave id s' h).s id down),
    )

-- `send_remote` does send a package of 2^24 bytes or more. As soon as the other node has the four bytes
-- of its length, alone or with the bytes `front` that follow them, and the connection has read nothing
-- before, it closes the connection: its slave is down then, without a queue.
pub push_socket_data-large :
    (accepts : Action → Bool) (h : Harbor) (fd fd' id : ℕ) (buffer : List ℕ) (cookie : Header)
    (front later : List ℕ)
    → harbor_id h fd ≡ id
    → id ≢ 0
    → (h.s id).status ≡ status_header
    → (h.s id).read ≡ 0
    → (h.s id).fd ≢ 0
    → 2 ^ 24 ≤ length buffer + header_cookie_length
    → length buffer + header_cookie_length < 2 ^ 32
    → to_bigendian (length buffer + header_cookie_length) ++ (front ++ later)
      ≡ sendbuf buffer cookie
    → (send_remote fd' buffer cookie ≡ socket_send fd' (sendbuf buffer cookie))
      × ((h' : Harbor) × (push_socket_data accepts h fd
              (to_bigendian (length buffer + header_cookie_length) ++ front)
            ≡ some (h', report ∷ socket_close (h.s id).fd ∷ []))
          × ((h'.s id).status ≡ status_down)
          × ((h'.s id).queue ≡ none))
unfolding send_remote
push_socket_data-large accepts h fd fd' id buffer cookie front later is_id ne st r used large fits
      e =
    let small : ltb (2 ^ 32 - 1) (length buffer + 12) ≡ false = ground arith in
    let n = length buffer + 12 in
    let part = to_bigendian n ++ front in
    let (h', closed, down, emptied) =
      header_large accepts h id (n / 2 ^ 24 % 2 ^ 8) (n / 2 ^ 16 % 2 ^ 8) (n / 2 ^ 8 % 2 ^ 8)
        (n % 2 ^ 8) front r used (omega arith) in
    (
      rw small refl,
      (
        h',
        push_found accepts h fd id part is_id ne
            ∙ loop_header accepts (length part + 1) h id part st
            ∙ ap
                (λ r'. elim r' as (λ _. Outcome) [
                  | none ↦ none
                  | some (h', (actions, none)) ↦ some (h', actions)
                  | some (h', (actions, some rest)) ↦
                      after actions (data_loop accepts (length part + 1) h' id rest)
                ])
                closed,
        down,
        emptied,
      ),
    )

-- A connection that ended when it had read more than four bytes of the content of a package, with no
-- queue waiting, leaves its count of bytes behind: the data of the next connection of the node ("A") is
-- copied to the length of a package from there, with a negative size.
pub push_socket_data-reconnected :
    (accepts : Action → Bool) (h : Harbor) (fd id : ℕ) (buffer : List ℕ)
    → 0 < id
    → id < remote_max
    → fd ≢ 0
    → harbor_id (set_slave id (record (h.s id) { fd = fd; status = status_header }) h) fd ≡ id
    → (h.s id).queue ≡ none
    → 4 < (h.s id).read
    → (let lost = (report_harbor_down h id).0 in
        (h' : Harbor) × (connect_slave lost false fd id
          ≡ some (h', socket_start fd ∷ socket_send fd (h.id % 2 ^ 8 ∷ []) ∷ []))
        × (push_socket_data accepts h' fd buffer ≡ none))
unfolding report_harbor_down handshake
push_socket_data-reconnected accepts h fd id buffer low high some_fd found quiet stale =
    let lost_slave = record (h.s id) { fd = 2 ^ 32 - 1 } in
    let lost = set_slave id lost_slave h in
    let self = update_self h.s id lost_slave in
    let headed = record (lost.s id) { fd = fd; status = status_header } in
    let h' = set_slave id headed lost in
    let self' = update_self lost.s id headed in
    let given : (fd == 0 || (id == 0 || leb remote_max id)) ≡ false = ground arith in
    let closed : (ltb 0 (lost.s id).fd && ltb (lost.s id).fd (2 ^ 31)) ≡ false =
      ap (λ s. ltb 0 s.fd && ltb s.fd (2 ^ 31)) self in
    let nothing : (h'.s id).queue ≡ none =
      ap (λ s. s.queue) self' ∙ ap (λ s. s.queue) self ∙ quiet in
    let count : (h'.s id).read ≡ (h.s id).read = ap (λ s. s.read) self' ∙ ap (λ s. s.read) self in
    let there : harbor_id h' fd ≡ id =
      found_same (set_slave id (record (h.s id) { fd = fd; status = status_header }) h) h' fd (λ j.
        set_twice h.s id lost_slave headed (record (h.s id) { fd = fd; status = status_header }) j
          refl)
      ∙ found in
    (
      h',
      accepted lost id fd given closed
          ∙ ap (after (socket_start fd ∷ handshake h' id ∷ []))
              (dispatch_nothing h' id (subst (λ t. t.fd ≢ 0) (sym self') some_fd) nothing)
          ∙ ap (λ n. some (h', socket_start fd ∷ socket_send n (h.id % 2 ^ 8 ∷ []) ∷ []))
              (ap (λ t. t.fd) self'),
      push_found accepts h' fd id buffer there (λ e. absurd (omega (arith, low, e)))
          ∙ loop_header accepts (length buffer + 1) h' id buffer (ap (λ s. s.status) self')
          ∙ ap
              (λ r. elim r as (λ _. Outcome) [
                | none ↦ none
                | some (h', (actions, none)) ↦ some (h', actions)
                | some (h', (actions, some rest)) ↦
                    after actions (data_loop accepts (length buffer + 1) h' id rest)
              ])
              (header_stale accepts h' id buffer (omega (arith, count))),
    )
