-- ===== src/Harbor/Content.antt =====
-- The end of a package in ztask/server/service_harbor.c (`case STATUS_CONTENT`), when the connection
-- carries what `send_remote` has sent at the other end.

use ztask.Base.{
  ℕ, ◌+◌, ◌-◌, ◌*◌, ◌/◌, ◌%◌, ◌^◌, ◌<◌, ◌≤◌, ◌≡◌, refl, sym, ap, ◌∙◌, subst, inl, inr, Bool, false,
  Option, none, some, List, [], ◌∷◌, ◌++◌, append_assoc, if◌then◌else◌, arith, length, take, drop,
  length-append, length-take, length-drop, take-append-drop, append-inj, ltb, ◌==◌, update_self,
  Bool-cases,
}
use ztask.Harbor.{
  HarborMsg, status_header, status_content, Slave, Harbor, set_slave, Action, send, report,
}
use ztask.Harbor.Wire.{to_bigendian, header_to_message}
use ztask.Harbor.Data.{
  copy_at, read_from, unless_empty, Round, forward_local, content_step, finish_content,
}
use ztask.Harbor.Cookie.{Fits, forward_local-package, read_from-copy_at}

-- The bytes of the package of a message behind its length.
abbrev pub packed : HarborMsg → List ℕ
packed m = m.buffer ++ header_to_message m.header

-- The stream of the messages.
abbrev pub stream : List HarborMsg → List ℕ
stream [] = []
stream (m ∷ ms) = to_bigendian (length (packed m)) ++ (packed m ++ stream ms)

abbrev pub Small : HarborMsg → Type 0
Small m = (length m.buffer + 12 < 2 ^ 24) × Fits m.header

abbrev pub AllSmall : List HarborMsg → Type 0
AllSmall [] = Unit {0}
AllSmall (m ∷ ms) = Small m × AllSmall ms

-- The message, sent to the handle of this node that has the low 24 bits of its destination, with the
-- type in the high 8 bits, which is not to be copied.
abbrev pub handed_on : ℕ → HarborMsg → Action
handed_on id m =
    send m.header.source (m.header.destination % 2 ^ 24 + id % 2 ^ 8 * 2 ^ 24)
      (m.header.destination / 2 ^ 24 + 0x10000) m.header.session m.buffer

-- The error of type 7 that its source gets from there, unless the message is an error itself, and the
-- report.
abbrev pub turned_down : ℕ → HarborMsg → List Action
turned_down id m =
    if m.header.destination / 2 ^ 24 == 7
    then report ∷ []
    else send (m.header.destination % 2 ^ 24 + id % 2 ^ 8 * 2 ^ 24) m.header.source 7
        m.header.session []
      ∷ report
      ∷ []

-- What the node does for the messages, in order.
abbrev pub delivered : (Action → Bool) → ℕ → List HarborMsg → List Action
delivered accepts id [] = []
delivered accepts id (m ∷ ms) =
    (if accepts (handed_on id m) then handed_on id m ∷ [] else handed_on id m ∷ turned_down id m)
    ++ delivered accepts id ms

-- The slave has read the bytes `p` of the length of a package.
abbrev pub InHeader : Slave → List ℕ → Type 0
InHeader s p =
    (s.status ≡ status_header)
    × (s.read ≡ length p)
    × (length p < 4)
    × (read_from s.size 0 (length p) ≡ p)

-- The slave has read the bytes `p` of a package of `n` bytes.
abbrev pub InContent : Slave → ℕ → List ℕ → Type 0
InContent s n p =
    (s.status ≡ status_content)
    × (s.length ≡ n)
    × (s.read ≡ length p)
    × (length p < n)
    × (read_from s.recv_buffer 0 (length p) ≡ p)

-- The bytes still to come end what the slave has begun and go on with the other messages `ms`.
pub data Awaits : Slave → List HarborMsg → List ℕ → Type 0 where
  at_header :
      (s : Slave) (ms : List HarborMsg) (bytes p : List ℕ)
      → InHeader s p
      → p ++ bytes ≡ stream ms
      → Awaits s ms bytes
  at_content :
      (s : Slave) (m : HarborMsg) (ms : List HarborMsg) (bytes p : List ℕ)
      → InContent s (length (packed m)) p
      → p ++ bytes ≡ packed m ++ stream ms
      → Awaits s (m ∷ ms) bytes

-- All but what is read on the connection `id` is as before.
abbrev pub Same : Harbor → Harbor → Type 0
Same h h' = (h'.id ≡ h.id) × ((j : ℕ) → (h'.s j).fd ≡ (h.s j).fd)

-- The bytes that are left after a round.
abbrev pub left : Option (List ℕ) → List ℕ
left none = []
left (some rest) = rest

-- The next round has fewer than `fuel` bytes.
abbrev pub Shorter : Option (List ℕ) → ℕ → Type 0
Shorter none fuel = Unit {0}
Shorter (some rest) fuel = length rest < fuel

-- What a round of the loop does with `fuel` bytes or less when the messages `ms` come.
abbrev pub Goes : (Action → Bool) → Harbor → ℕ → List HarborMsg → List ℕ → ℕ → Round → Type 0
Goes accepts h id ms future fuel none = ⊥
Goes accepts h id ms future fuel (some (h', (actions, more))) =
    (ms' : List HarborMsg) × Awaits (h'.s id) ms' (left more ++ future)
    × AllSmall ms'
    × Same h h'
    × (actions ++ delivered accepts h.id ms' ≡ delivered accepts h.id ms)
    × Shorter more fuel

pub Same-slave : (h : Harbor) (id : ℕ) (s : Slave) → s.fd ≡ (h.s id).fd → Same h (set_slave id s h)
Same-slave h id s e = (
  refl,
  λ j. elim (Bool-cases (j == id)) [
    | inl here ↦ rw here (e ∙ ap (λ i. (h.s i).fd) (sym (ground arith)))
    | inr there ↦ rw there refl
  ],
)

left-unless_empty : (bytes : List ℕ) → left (unless_empty bytes) ≡ bytes
left-unless_empty [] = refl
left-unless_empty (b ∷ bytes) = refl

pub Awaits-set :
    (h : Harbor) (id : ℕ) (s : Slave) (ms : List HarborMsg) (bytes : List ℕ)
    → Awaits s ms bytes
    → Awaits ((set_slave id s h).s id) ms bytes
Awaits-set h id s ms bytes a = subst (λ t. Awaits t ms bytes) (sym (update_self h.s id s)) a

Shorter-unless_empty :
    (bytes : List ℕ) (fuel : ℕ) → length bytes < fuel → Shorter (unless_empty bytes) fuel
Shorter-unless_empty [] fuel h = tt
Shorter-unless_empty (b ∷ bytes) fuel h = h

-- The slave of the end of a package.
abbrev rested : Slave → Slave
rested s = record s { length = 0; read = 0; recv_buffer = λ i. 0; status = status_header }

finish_content_goes :
    (accepts : Action → Bool) (h : Harbor) (id : ℕ) (s : Slave) (m : HarborMsg)
    (ms : List HarborMsg) (array : ℕ → ℕ) (rest future : List ℕ) (fuel : ℕ)
    → s.fd ≡ (h.s id).fd
    → AllSmall (m ∷ ms)
    → read_from array 0 s.length ≡ packed m
    → rest ++ future ≡ stream ms
    → length rest < fuel
    → Goes accepts h id (m ∷ ms) future fuel (finish_content accepts h id s array rest)
finish_content_goes accepts h id s m ms array rest future fuel same (small, smalls) whole e few =
    rw
      (
        Goes,
        finish_content,
        ap (forward_local accepts h.id) whole
            ∙ forward_local-package accepts h.id m.buffer m.header small.1,
      )
      (
        ms,
        Awaits-set h id (rested s) ms (left (unless_empty rest) ++ future) (
            at_header (rested s) ms (left (unless_empty rest) ++ future) []
              (refl, refl, omega arith, refl) (ap (λ l. l ++ future) (left-unless_empty rest) ∙ e)),
        smalls,
        Same-slave h id (rested s) same,
        refl,
        Shorter-unless_empty rest fuel few,
      )

pub cut_at :
    (p : List ℕ) (n : ℕ) (buffer future : List ℕ)
    → (p ++ take n buffer) ++ (drop n buffer ++ future) ≡ p ++ (buffer ++ future)
cut_at p n buffer future =
    append_assoc p (take n buffer) (drop n buffer ++ future)
    ∙ ap (λ l. p ++ l)
        (sym (append_assoc (take n buffer) (drop n buffer) future)
          ∙ ap (λ l. l ++ future) (take-append-drop n buffer))

pub content_goes :
    (accepts : Action → Bool) (h : Harbor) (id : ℕ) (s : Slave) (m : HarborMsg)
    (ms : List HarborMsg) (buffer future p : List ℕ) (fuel : ℕ)
    → h.s id ≡ s
    → AllSmall (m ∷ ms)
    → InContent s (length (packed m)) p
    → p ++ (buffer ++ future) ≡ packed m ++ stream ms
    → length buffer ≤ fuel
    → Goes accepts h id (m ∷ ms) future fuel (content_step accepts h id buffer)
unfolding content_step
content_goes accepts h id s m ms buffer future p fuel e small (st, n, r, lt, held) eq few =
    let fits : ltb s.length s.read ≡ false = ground arith in
    elim (Bool-cases (ltb (length buffer) (s.length - s.read))) [
      | inl short ↦
          let fewer : length buffer < s.length - s.read = ground arith in
          let s' = record s {
            recv_buffer = copy_at s.recv_buffer s.read buffer;
            read = s.read + length buffer;
          } in
          rw (e, fits, short)
            (
              m ∷ ms,
              Awaits-set h id s' (m ∷ ms) future (
                  at_content s' m ms future (p ++ buffer)
                    (
                      st,
                      n,
                      omega (arith, length-append p buffer),
                      omega (arith, length-append p buffer),
                      written buffer,
                    )
                    (append_assoc p buffer future ∙ eq)),
              small,
              Same-slave h id s' (ap (λ t. t.fd) (sym e)),
              refl,
              tt,
            )
      | inr enough ↦
          let more : s.length - s.read ≤ length buffer = ground arith in
          let need = s.length - s.read in
          let whole : length (p ++ take need buffer) ≡ length (packed m) =
            omega (arith, length-append p (take need buffer), length-take need buffer) in
          let split =
            append-inj (p ++ take need buffer) (packed m) (drop need buffer ++ future) (stream ms)
              whole (cut need) in
          rw (e, fits, enough)
            (finish_content_goes accepts h id s m ms
              (copy_at s.recv_buffer s.read (take need buffer)) (drop need buffer) future fuel
              (ap (λ t. t.fd) (sym e)) small
              (ap (read_from (copy_at s.recv_buffer s.read (take need buffer)) 0) (n ∙ sym whole)
                ∙ written (take need buffer)
                ∙ split.0)
              split.1 (omega (arith, length-drop need buffer)))
    ]
  where
    cut : (n : ℕ) → (p ++ take n buffer) ++ (drop n buffer ++ future) ≡ packed m ++ stream ms
    cut n = cut_at p n buffer future ∙ eq

    written :
        (bytes : List ℕ)
        → read_from (copy_at s.recv_buffer s.read bytes) 0 (length (p ++ bytes)) ≡ p ++ bytes
    written bytes =
        ap (λ i. read_from (copy_at s.recv_buffer i bytes) 0 (length (p ++ bytes))) r
        ∙ read_from-copy_at s.recv_buffer p bytes held
