-- ===== src/Harbor/Stream.antt =====
-- The data of a connection of ztask/server/service_harbor.c, cut into any parts, when `send_remote` has
-- sent it at the other end.
use ztask.Base.{
  ℕ, ◌+◌, ◌-◌, ◌^◌, ◌≡◌, ◌≢◌, refl, sym, ap, ◌∙◌, Bool, false, none, some, List, [], ◌∷◌, ◌++◌,
  append-nil, arith, length, length-append, map, ltb, ◌==◌,
}
use ztask.Harbor.{HarborMsg, status_header, Slave, Harbor, Action, socket_send, remote_max}
use ztask.Harbor.Wire.{header_to_message, send_remote, to_bigendian}
use ztask.Harbor.Service.{Outcome, after, harbor_id}
use ztask.Harbor.Data.{push_socket_data}
use ztask.Harbor.Content.{packed, stream, AllSmall, delivered, Awaits}
use ztask.Harbor.Content.{at_header, at_content}
use ztask.Harbor.Loop.{Took, after-Took, loop-Took, find_slave-same}

-- The parts of a connection's data, one after the other.
abbrev pub feed : (Action → Bool) → Harbor → ℕ → List (List ℕ) → Outcome
feed accepts h fd [] = some (h, [])
feed accepts h fd (part ∷ parts) = elim (push_socket_data accepts h fd part) [
  | none ↦ none
  | some (h', actions) ↦ after actions (feed accepts h' fd parts)
]

abbrev pub joined : List (List ℕ) → List ℕ
joined [] = []
joined (part ∷ parts) = part ++ joined parts

push-Took :
    (accepts : Action → Bool) (h : Harbor) (fd id : ℕ) (ms : List HarborMsg) (part future : List ℕ)
    → harbor_id h fd ≡ id
    → id ≢ 0
    → AllSmall ms
    → Awaits (h.s id) ms (part ++ future)
    → Took accepts h id ms future (push_socket_data accepts h fd part)
unfolding push_socket_data
push-Took accepts h fd id ms part future is_id ne small a =
    let found : (id == 0) ≡ false = ground arith in
    rw (is_id, found)
      (loop-Took accepts (length part + 2) h id ms part future small a (omega arith))

feed_on :
    (accepts : Action → Bool) (h : Harbor) (fd id : ℕ) (ms : List HarborMsg) (part : List ℕ)
    (parts : List (List ℕ)) (o : Outcome)
    → harbor_id h fd ≡ id
    → Took accepts h id ms (joined parts) o
    → ((h₁ : Harbor) (ms₁ : List HarborMsg)
        → harbor_id h₁ fd ≡ id
        → AllSmall ms₁
        → Awaits (h₁.s id) ms₁ (joined parts)
        → Took accepts h₁ id ms₁ [] (feed accepts h₁ fd parts))
    → Took accepts h id ms []
        (elim o [ none ↦ none | some (h', actions) ↦ after actions (feed accepts h' fd parts) ])
feed_on accepts h fd id ms part parts none is_id took more = took
feed_on accepts h fd id ms part parts (some (h', actions)) is_id (ms', a, small, same, d) more =
    after-Took accepts h h' id ms ms' [] actions (feed accepts h' fd parts) same d
      (more h' ms' (stays ∙ is_id) small a)
  where
    stays : harbor_id h' fd ≡ harbor_id h fd
    stays = unfold harbor_id in find_slave-same (remote_max - 1) 1 h.s h'.s fd same.1

feed-Took :
    (accepts : Action → Bool) (h : Harbor) (fd id : ℕ) (ms : List HarborMsg) (parts : List (List ℕ))
    → harbor_id h fd ≡ id
    → id ≢ 0
    → AllSmall ms
    → Awaits (h.s id) ms (joined parts)
    → Took accepts h id ms [] (feed accepts h fd parts)
feed-Took accepts h fd id ms [] is_id ne small a = (ms, a, small, (refl, λ j. refl), refl)
feed-Took accepts h fd id ms (part ∷ parts) is_id ne small a =
    feed_on accepts h fd id ms part parts (push_socket_data accepts h fd part) is_id
      (push-Took accepts h fd id ms part (joined parts) is_id ne small a)
      (λ h₁ ms₁ is small₁ a₁. feed-Took accepts h₁ fd id ms₁ parts is ne small₁ a₁)

-- Nothing is left of the messages when nothing more comes.
all_taken :
    (s : Slave) (ms : List HarborMsg) (bytes : List ℕ)
    → Awaits s ms bytes
    → bytes ≡ []
    → (ms ≡ []) × (s.status ≡ status_header) × (s.read ≡ 0)
all_taken s [] bytes (at_header _ _ _ p (st, r, lt, held) eq) e =
    (refl, st, omega (arith, r, ap length eq, length-append p bytes))
all_taken s (m ∷ ms) bytes (at_header _ _ _ p (st, r, lt, held) eq) e =
    absurd (omega (arith, ap length eq, length-append p bytes, ap length e))
all_taken s (m ∷ ms) bytes (at_content _ _ _ _ p (st, n, r, lt, held) eq) e = absurd (
    omega (
      arith,
      ap length eq,
      length-append p bytes,
      length-append (packed m) (stream ms),
      ap length e,
    ))

-- The bytes of the packages that `send_remote` sends.
abbrev pub sent_bytes : List Action → List ℕ
sent_bytes [] = []
sent_bytes (socket_send fd bytes ∷ actions) = bytes ++ sent_bytes actions
sent_bytes (action ∷ actions) = sent_bytes actions

-- What the node at the other end does to send the messages.
abbrev pub sends : ℕ → List HarborMsg → List Action
sends fd ms = map (λ m. send_remote fd m.buffer m.header) ms

sent_stream : (fd : ℕ) (ms : List HarborMsg) → AllSmall ms → sent_bytes (sends fd ms) ≡ stream ms
unfolding send_remote
sent_stream fd [] small = refl
sent_stream fd (m ∷ ms) (small, smalls) =
    let fits : ltb (2 ^ 32 - 1) (length m.buffer + 12) ≡ false = ground arith in
    rw fits (
      ap (λ n. to_bigendian n ++ (packed m ++ sent_bytes (sends fd ms)))
        (sym (length-append m.buffer (header_to_message m.header)))
      ∙ ap (λ l. to_bigendian (length (packed m)) ++ (packed m ++ l)) (sent_stream fd ms smalls))

-- What `send_remote` sends of any messages, whose packages are below 2^24 bytes, cut in any parts, makes
-- the other node send each message once, in order, to its own handle with the low bits of the destination,
-- with its source, type, session and data, and answer those that `ztask_send` refuses, but for errors, with
-- an error; the connection is left at the start of a package.
pub push_socket_data-send_remote :
    (accepts : Action → Bool) (h : Harbor) (fd id fd' : ℕ) (ms : List HarborMsg)
    (parts : List (List ℕ))
    → harbor_id h fd ≡ id
    → id ≢ 0
    → (h.s id).status ≡ status_header
    → (h.s id).read ≡ 0
    → AllSmall ms
    → joined parts ≡ sent_bytes (sends fd' ms)
    → (h' : Harbor) × (feed accepts h fd parts ≡ some (h', delivered accepts h.id ms))
      × ((h'.s id).status ≡ status_header)
      × ((h'.s id).read ≡ 0)
push_socket_data-send_remote accepts h fd id fd' ms parts is_id ne st r small e =
    ended (feed accepts h fd parts) (
      feed-Took accepts h fd id ms parts is_id ne small (
        at_header (h.s id) ms (joined parts) [] (st, r, omega arith, refl)
          (e ∙ sent_stream fd' ms small)))
  where
    ended :
        (o : Outcome)
        → Took accepts h id ms [] o
        → (h' : Harbor) × (o ≡ some (h', delivered accepts h.id ms))
          × ((h'.s id).status ≡ status_header)
          × ((h'.s id).read ≡ 0)
    ended none took = absurd took
    ended (some (h', actions)) (ms', a, small', same, d) =
        let over = all_taken (h'.s id) ms' [] a refl in
        (
          h',
          ap (λ l. some (h', l))
              (sym (append-nil actions)
                ∙ ap (λ l. actions ++ delivered accepts h.id l) (sym over.0)
                ∙ d),
          over.1,
          over.2,
        )
