-- ===== src/Cluster/Requests.antt =====
-- The requests of ztask/lualib/lua-cluster.c arrive as they were sent.
use ztask.Base.{
  ℕ, ◌+◌, ◌^◌, ◌≤◌, ◌<◌, ◌≡◌, refl, ap, ◌∙◌, inl, inr, Bool, true, false, ◌||◌, arith, some, List,
  [], ◌∷◌, ◌++◌, length, length-append, ltb, leb, ◌==◌, if◌then◌else◌, Bool-cases,
}
use ztask.Cluster.{
  ◌>>=◌, multi_part, fill_uint32, parts_of, packreq, packreq_number, packreq_string, packrequest,
  Address, number, name, Unpacked, request, multi_request, lunpackrequest, concat_loop, lconcat,
}
use ztask.Cluster.Words.{less_true, less_false, framed, unframe-framed}
use ztask.Cluster.Receive.{gather, deliver, receive}
use ztask.Cluster.Parts.{Gathered, packreq_multi-Gathered}
use ztask.Cluster.Unpack.{
  lunpackrequest-number, lunpackrequest-multi, lunpackrequest-name, lunpackrequest-multi_name,
}

-- A handle has 32 bits; the name of a service has 1 to 255 bytes.
abbrev pub Fits : Address → Type 0
Fits (number addr) = addr < 2 ^ 32
Fits (name text) = (1 ≤ length text) × (length text ≤ 255)

-- The first package, and what is unpacked from it.
record Sent (addr : Address) (session : ℕ) (msg : List ℕ) (push : Bool) (multipak : Bool)
    (u : Unpacked) : Type 0 where
  pub size : ℕ
  pub pack : List ℕ
  pub sent : packreq addr session msg push ≡ some (multipak, framed size pack)
  pub small : size < 0x10000
  pub sized : length pack ≡ size
  pub unpacked : lunpackrequest pack ≡ some u

-- A push without parts has the session 0.
abbrev pub sent_session : ℕ → Bool → ℕ
sent_session session push = if push then 0 else session

push-session : (session : ℕ) (push : Bool) → 0 < session → (sent_session session push == 0) ≡ push
push-session session true h = refl
push-session session false h = ground arith

short_request :
    (addr : Address) (session : ℕ) (msg : List ℕ) (push : Bool)
    → Fits addr
    → 0 < session
    → session < 2 ^ 31
    → length msg < multi_part
    → Sent addr session msg push false (request addr (sent_session session push) msg push)
unfolding packreq_number packreq_string
short_request (number n) session msg push fits positive small short =
    let s = sent_session session push in
    record {
      size = length msg + 9;
      pack = 0 ∷ fill_uint32 n ++ (fill_uint32 s ++ msg);
      sent =
          rw
            (
              less_true (length msg) multi_part short,
              less_true (length msg + 9) 0x10000 (omega arith),
            )
            refl;
      small = omega arith;
      sized = omega arith;
      unpacked =
          lunpackrequest-number s (ground arith) n msg fits
          ∙ ap (λ p. some (request (number n) s msg p)) (push-session session push positive);
    }
short_request (name text) session msg push (least, most) positive small short =
    let s = sent_session session push in
    record {
      size = length msg + 6 + length text;
      pack = 0x80 ∷ length text ∷ text ++ (fill_uint32 s ++ msg);
      sent =
          rw
            (
              less_false (length text) 1 least,
              less_false 255 (length text) most,
              less_true (length msg) multi_part short,
              less_true (length msg + 6 + length text) 0x10000 (omega arith),
            )
            refl;
      small = omega arith;
      sized = omega (arith, length-append text (fill_uint32 s ++ msg));
      unpacked =
          lunpackrequest-name s (ground arith) text msg
          ∙ ap (λ p. some (request (name text) s msg p)) (push-session session push positive);
    }

long_request :
    (addr : Address) (session : ℕ) (msg : List ℕ) (push : Bool)
    → Fits addr
    → session < 2 ^ 31
    → multi_part ≤ length msg
    → length msg < 2 ^ 31
    → Sent addr session msg push true (multi_request addr session (length msg) push)
unfolding packreq_number packreq_string
long_request (number n) session msg push fits small long bound = record {
  size = 13;
  pack =
      (if push then 0x41 else 1) ∷ fill_uint32 n
      ++ (fill_uint32 session ++ fill_uint32 (length msg));
  sent = rw (less_false (length msg) multi_part long) refl;
  small = omega arith;
  sized = refl;
  unpacked = lunpackrequest-multi session (omega arith) n (length msg) push fits (omega arith);
}
long_request (name text) session msg push (least, most) small long bound =
    let tail = fill_uint32 session ++ fill_uint32 (length msg) in
    record {
      size = 10 + length text;
      pack = (if push then 0xc1 else 0x81) ∷ length text ∷ text ++ tail;
      sent =
          rw
            (
              less_false (length text) 1 least,
              less_false 255 (length text) most,
              less_false (length msg) multi_part long,
              less_true (10 + length text) 0x10000 (omega arith),
            )
            refl;
      small = omega arith;
      sized = omega (arith, length-append text tail);
      unpacked =
          lunpackrequest-multi_name session (omega arith) text (length msg) push (omega arith);
    }

received :
    (next : ℕ) (pack : List ℕ) (size : ℕ) (parts : List (List ℕ)) (u : Unpacked)
    → size < 0x10000
    → length pack ≡ size
    → lunpackrequest pack ≡ some u
    → receive (record { first = framed size pack; next_session = next; parts = parts })
      ≡ deliver parts u
received next pack size parts u h e unpacked = rw (unframe-framed size pack h e, unpacked) refl

parts_joined :
    (rounds session : ℕ) (msg : List ℕ) (g : Gathered rounds session msg)
    → (gather session g.parts >>= lconcat (length msg)) ≡ some msg
unfolding lconcat
parts_joined rounds session msg g =
    ap (λ o. o >>= lconcat (length msg)) g.gathered
    ∙ ap (λ n. concat_loop n [] g.texts) (omega arith)
    ∙ g.joined []

session_valid :
    (session : ℕ) → 0 < session → session < 2 ^ 31 → (session == 0 || leb (2 ^ 31) session) ≡ false
session_valid session h h' = ground arith

-- A request or a push to any address that fits, with a session above 0 and a message shorter than 2^31,
-- arrives as it was sent, in one package or in parts: the packages that `packrequest` makes carry their own
-- sizes, `lunpackrequest` unpacks each of them, the parts come with the session and say until the last that more
-- follow, and `lconcat` joins them. Only the session of a push in one package arrives as 0.
pub packrequest-receive :
    (addr : Address) (session : ℕ) (msg : List ℕ) (push : Bool)
    → Fits addr
    → 0 < session
    → session < 2 ^ 31
    → length msg < 2 ^ 31
    → (packrequest addr session msg push >>= receive)
      ≡ some (record {
        address = addr;
        session = if ltb (length msg) multi_part then sent_session session push else session;
        msg = msg;
        is_push = push;
      })
unfolding packrequest lconcat
packrequest-receive addr session msg push fits positive small bound =
    elim (Bool-cases (ltb (length msg) multi_part)) [
      | inl short ↦
          let first = short_request addr session msg push fits positive small (ground arith) in
          rw (session_valid session positive small, short, first.sent)
            (received (if leb (2 ^ 31) (session + 1) then 1 else session + 1) first.pack first.size
              [] (request addr (sent_session session push) msg push) first.small first.sized
              first.unpacked)
      | inr long ↦
          let first = long_request addr session msg push fits small (ground arith) bound in
          let more =
            packreq_multi-Gathered (parts_of (length msg)) session msg refl (ground arith)
              (omega arith) in
          rw (session_valid session positive small, long, first.sent, more.packed)
            (received (if leb (2 ^ 31) (session + 1) then 1 else session + 1) first.pack first.size
                more.parts (multi_request addr session (length msg) push) first.small first.sized
                first.unpacked
              ∙ ap
                  (λ o. o >>= λ whole.
                    some
                      (record { address = addr; session = session; msg = whole; is_push = push }))
                  (parts_joined (parts_of (length msg)) session msg more))
    ]
