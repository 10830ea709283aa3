-- ===== src/Harbor/Receive.antt =====
-- One round of the loop of `push_socket_data` in ztask/server/service_harbor.c, when the connection carries
-- what `send_remote` has sent at the other end.

use ztask.Base.{
  ℕ, ◌+◌, ◌-◌, ◌*◌, ◌^◌, ◌<◌, ◌≤◌, ◌≡◌, refl, sym, ap, ◌∙◌, subst, inl, inr, Bool, true, false,
  none, some, List, [], ◌∷◌, ◌++◌, append_assoc, arith, length, take, drop, length-append,
  length-take, length-drop, append-inj, cons-inj, ltb, ◌==◌, update_self, Bool-cases,
}
use ztask.Harbor.{HarborMsg, status_content, Slave, Harbor, set_slave, Action}
use ztask.Harbor.Wire.{to_bigendian, header_to_message}
use ztask.Harbor.Data.{
  copy_at, read_from, unless_empty, returned, Round, content_step, header_step, finish_header,
}
use ztask.Harbor.Cookie.{read_from-copy_at}
use ztask.Harbor.Content.{
  at_header, at_content, packed, stream, AllSmall, InHeader, InContent, Goes, Same-slave,
  Awaits-set, cut_at, content_goes,
}

goes_on :
    (accepts : Action → Bool) (h : Harbor) (id : ℕ) (s : Slave) (ms : List HarborMsg)
    (future : List ℕ) (fuel : ℕ) (r : Round)
    → s.fd ≡ (h.s id).fd
    → Goes accepts (set_slave id s h) id ms future fuel r
    → Goes accepts h id ms future fuel r
goes_on accepts h id s ms future fuel none same goes = goes
goes_on accepts h id s ms future fuel (some (h', (actions, more))) same
      (ms', a, smalls, (i, fds), d, l) =
    (ms', a, smalls, (i, λ j. fds j ∙ (Same-slave h id s same).1 j), d, l)

-- The slave that has read the length of a package.
abbrev opened : Slave → (ℕ → ℕ) → Slave
opened s array = record s {
  size = array;
  length = array 1 * 2 ^ 16 + array 2 * 2 ^ 8 + array 3;
  read = 0;
  recv_buffer = λ i. 0;
  status = status_content;
}

-- The four bytes of a length below 2^24.
length_read :
    (array : ℕ → ℕ) (n : ℕ)
    → n < 2 ^ 24
    → read_from array 0 4 ≡ to_bigendian n
    → ((array 0 == 0) ≡ true) × (array 1 * 2 ^ 16 + array 2 * 2 ^ 8 + array 3 ≡ n)
length_read array n small e =
    let (a, e₁) = cons-inj e in
    let (b, e₂) = cons-inj e₁ in
    let (c, e₃) = cons-inj e₂ in let (d, e₄) = cons-inj e₃ in (ground arith, omega arith)

-- The rest of the data behind the length of a package.
opened_goes :
    (accepts : Action → Bool) (h : Harbor) (id : ℕ) (s : Slave) (m : HarborMsg)
    (ms : List HarborMsg) (rest future : List ℕ) (fuel : ℕ)
    → s.fd ≡ (h.s id).fd
    → AllSmall (m ∷ ms)
    → InContent s (length (packed m)) []
    → rest ++ future ≡ packed m ++ stream ms
    → length rest < fuel
    → Goes accepts h id (m ∷ ms) future fuel (elim (unless_empty rest) [
      | none ↦ returned (set_slave id s h, [])
      | some more ↦ content_step accepts (set_slave id s h) id more
    ])
opened_goes accepts h id s m ms [] future fuel same small inside eq few = (
  m ∷ ms,
  Awaits-set h id s (m ∷ ms) future (at_content s m ms future [] inside eq),
  small,
  Same-slave h id s same,
  refl,
  tt,
)
opened_goes accepts h id s m ms (b ∷ rest) future fuel same small inside eq few =
    goes_on accepts h id s (m ∷ ms) future fuel
      (content_step accepts (set_slave id s h) id (b ∷ rest)) same
      (content_goes accepts (set_slave id s h) id s m ms (b ∷ rest) future [] fuel
        (update_self h.s id s) small inside eq (omega arith))

finish_header_goes :
    (accepts : Action → Bool) (h : Harbor) (id : ℕ) (s : Slave) (m : HarborMsg)
    (ms : List HarborMsg) (array : ℕ → ℕ) (rest future : List ℕ) (fuel : ℕ)
    → s.fd ≡ (h.s id).fd
    → AllSmall (m ∷ ms)
    → read_from array 0 4 ≡ to_bigendian (length (packed m))
    → rest ++ future ≡ packed m ++ stream ms
    → length rest < fuel
    → Goes accepts h id (m ∷ ms) future fuel (finish_header accepts h id s array rest)
finish_header_goes accepts h id s m ms array rest future fuel same small e eq few =
    let long = length-append m.buffer (header_to_message m.header) in
    let (zero_first, n) =
      length_read array (length (packed m)) (omega (arith, long, small.0.0)) e in
    let s' = opened s array in
    let inside : InContent s' (length (packed m)) [] = (refl, n, refl, omega (arith, long), refl) in
    rw (Goes, finish_header, zero_first)
      (opened_goes accepts h id s' m ms rest future fuel same small inside eq few)

-- The first four bytes of what is left are the length of a message.
some_message :
    (ms : List HarborMsg) (front rest : List ℕ)
    → length front ≡ 4
    → front ++ rest ≡ stream ms
    → (m : HarborMsg) × (ms' : List HarborMsg) × (ms ≡ m ∷ ms')
      × (front ≡ to_bigendian (length (packed m)))
      × (rest ≡ packed m ++ stream ms')
some_message [] [] rest n e = absurd (omega arith)
some_message [] (b ∷ front) rest n e = absurd (omega (arith, ap length e))
some_message (m ∷ ms) front rest n e =
    let split =
      append-inj front (to_bigendian (length (packed m))) rest (packed m ++ stream ms) n e in
    (m, ms, refl, split.0, split.1)

pub header_goes :
    (accepts : Action → Bool) (h : Harbor) (id : ℕ) (ms : List HarborMsg) (buffer future p : List ℕ)
    (fuel : ℕ)
    → AllSmall ms
    → InHeader (h.s id) p
    → p ++ (buffer ++ future) ≡ stream ms
    → length buffer ≤ fuel
    → Goes accepts h id ms future fuel (header_step accepts h id buffer)
unfolding header_step
header_goes accepts h id ms buffer future p fuel small (st, r, lt, held) eq few =
    let fits : ltb 4 (h.s id).read ≡ false = ground arith in
    elim (Bool-cases (ltb (length buffer) (4 - (h.s id).read))) [
      | inl short ↦
          let fewer : length buffer < 4 - (h.s id).read = ground arith in
          let s' = record (h.s id) {
            size = copy_at (h.s id).size (h.s id).read buffer;
            read = (h.s id).read + length buffer;
          } in
          rw (fits, short)
            (
              ms,
              Awaits-set h id s' ms future (
                  at_header s' ms future (p ++ buffer)
                    (
                      st,
                      omega (arith, length-append p buffer),
                      omega (arith, length-append p buffer),
                      written buffer,
                    )
                    (append_assoc p buffer future ∙ eq)),
              small,
              Same-slave h id s' refl,
              refl,
              tt,
            )
      | inr enough ↦
          let more : 4 - (h.s id).read ≤ length buffer = ground arith in
          let need = 4 - (h.s id).read in
          let whole : length (p ++ take need buffer) ≡ 4 =
            omega (arith, length-append p (take need buffer), length-take need buffer) in
          let (m, ms', is_m, first, others) =
            some_message ms (p ++ take need buffer) (drop need buffer ++ future) whole (cut need) in
          rw (fits, enough)
            (subst
              (λ l. Goes accepts h id l future fuel (
                finish_header accepts h id (h.s id)
                  (copy_at (h.s id).size (h.s id).read (take need buffer)) (drop need buffer)))
              (sym is_m)
              (finish_header_goes accepts h id (h.s id) m ms'
                (copy_at (h.s id).size (h.s id).read (take need buffer)) (drop need buffer) future
                fuel refl (subst AllSmall is_m small)
                (ap (read_from (copy_at (h.s id).size (h.s id).read (take need buffer)) 0)
                    (sym whole)
                  ∙ written (take need buffer)
                  ∙ first)
                others (omega (arith, length-drop need buffer))))
    ]
  where
    cut : (n : ℕ) → (p ++ take n buffer) ++ (drop n buffer ++ future) ≡ stream ms
    cut n = cut_at p n buffer future ∙ eq

    written :
        (bytes : List ℕ)
        → read_from (copy_at (h.s id).size (h.s id).read bytes) 0 (length (p ++ bytes)) ≡ p ++ bytes
    written bytes =
        ap (λ i. read_from (copy_at (h.s id).size i bytes) 0 (length (p ++ bytes))) r
        ∙ read_from-copy_at (h.s id).size p bytes held
