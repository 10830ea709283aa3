-- ===== src/Cluster/Responses.antt =====
-- The responses of ztask/lualib/lua-cluster.c arrive as they were sent.
use ztask.Base.{
  ℕ, zero, suc, ◌+◌, ◌^◌, ◌≤◌, ◌<◌, ◌≡◌, refl, ap, ◌∙◌, inl, inr, Bool, true, false, arith, some,
  List, [], ◌∷◌, ◌++◌, length, take, drop, length-take, length-drop, ltb, if◌then◌else◌, Bool-cases,
}
use ztask.Netpack.{read_size}
use ztask.Cluster.{◌>>=◌, multi_part, fill_uint32, fill_header, parts_of, concat_loop, lconcat}
use ztask.Cluster.Words.{
  unpack_uint32-fill_uint32, less_true, less_false, equal_true, framed, fill_header-framed,
  unframe-framed,
}
use ztask.Cluster.Parts.{concat_loop-take, concat_loop-last, take-all, above, not_above}
use ztask.Cluster.Response.{
  single, multi, response_parts, lpackresponse, complete, goes_on, lunpackresponse, text_of,
  more_replies, gather_replies, Answer, answer, receive_response,
}

lunpackresponse-part :
    (more : Bool) (session : ℕ) (text : List ℕ)
    → session < 2 ^ 32
    → lunpackresponse (fill_uint32 session ++ (if more then 3 else 4) ∷ text)
      ≡ some (if more then goes_on session text else complete session text)
unfolding lunpackresponse
lunpackresponse-part true session text h =
    rw
      (
        less_false (suc (suc (suc (suc (suc (length text)))))) 5 (omega arith),
        unpack_uint32-fill_uint32 session [] h,
      )
      refl
lunpackresponse-part false session text h =
    rw
      (
        less_false (suc (suc (suc (suc (suc (length text)))))) 5 (omega arith),
        unpack_uint32-fill_uint32 session [] h,
      )
      refl

text_of-part :
    (session : ℕ) (more : Bool) (text : List ℕ)
    → text_of session more (if more then goes_on session text else complete session text)
      ≡ some text
text_of-part session true text = rw (equal_true session session refl) refl
text_of-part session false text = rw (equal_true session session refl) refl

gather_replies-framed :
    (session sz : ℕ) (more : Bool) (text : List ℕ) (frames : List (List ℕ)) (texts : List (List ℕ))
    → session < 2 ^ 32
    → length text + 5 ≡ sz
    → sz < 0x10000
    → more_replies frames ≡ more
    → gather_replies session frames ≡ some texts
    → gather_replies session
        (framed sz (fill_uint32 session ++ (if more then 3 else 4) ∷ text) ∷ frames)
      ≡ some (text ∷ texts)
unfolding gather_replies
gather_replies-framed session sz more text frames texts h e fits follow rest =
    let pack : List ℕ = fill_uint32 session ++ (if more then 3 else 4) ∷ text in
    rw
      (
        unframe-framed sz pack fits (omega arith),
        lunpackresponse-part more session text h,
        follow,
        text_of-part session more text,
        rest,
      )
      refl

-- The parts of `msg`: packed, gathered, and joined behind what was copied before.
record Replied (rounds session : ℕ) (msg : List ℕ) : Type 0 where
  pub parts : List (List ℕ)
  pub texts : List (List ℕ)
  pub packed : response_parts rounds session msg ≡ some parts
  pub gathered : gather_replies session parts ≡ some texts
  pub joined :
      (buff : List ℕ) → concat_loop (length buff + length msg) buff texts ≡ some (buff ++ msg)
  pub busy : more_replies parts ≡ true

response_parts-Replied :
    (rounds session : ℕ) (msg : List ℕ)
    → rounds ≡ parts_of (length msg)
    → 0 < length msg
    → session < 2 ^ 32
    → Replied rounds session msg
unfolding response_parts gather_replies
response_parts-Replied zero session msg e h small = absurd (omega arith)
response_parts-Replied (suc rounds) session msg e h small =
    elim (Bool-cases (ltb multi_part (length msg))) [
      | inl long ↦
          let text = take multi_part msg in
          let left = length-drop multi_part msg in
          let taken = length-take multi_part msg in
          let over = above (length msg) long in
          let rest =
            response_parts-Replied rounds session (drop multi_part msg) (omega arith) (omega arith)
              small in
          let pack : List ℕ = fill_uint32 session ++ 3 ∷ text in
          record {
            parts = framed (multi_part + 5) pack ∷ rest.parts;
            texts = text ∷ rest.texts;
            packed = rw (long, rest.packed) refl;
            gathered =
                gather_replies-framed session (multi_part + 5) true text rest.parts rest.texts small
                  (omega arith) (omega arith) rest.busy rest.gathered;
            joined = concat_loop-take msg rest.texts over rest.joined;
            busy = refl;
          }
      | inr last ↦
          let over = not_above (length msg) last in
          let one : rounds ≡ 0 = omega arith in
          let pack : List ℕ = fill_uint32 session ++ 4 ∷ msg in
          record {
            parts = framed (length msg + 5) pack ∷ [];
            texts = msg ∷ [];
            packed =
                rw (last, one, take-all msg, less_true (length msg + 5) 0x10000 (omega arith)) refl;
            gathered =
                gather_replies-framed session (length msg + 5) false msg [] [] small (omega arith)
                  (omega arith) refl refl;
            joined = concat_loop-last msg;
            busy = refl;
          }
    ]

take-short : (n : ℕ) (xs : List ℕ) → length xs ≤ n → take n xs ≡ xs
take-short zero [] h = refl
take-short (suc n) [] h = refl
take-short zero (x ∷ xs) h = absurd (omega arith)
take-short (suc n) (x ∷ xs) h = ap (λ l. x ∷ l) (take-short n xs (omega arith))

one_package :
    (session sz : ℕ) (ok : Bool) (text : List ℕ)
    → session < 2 ^ 32
    → length text ≡ sz
    → sz ≤ multi_part
    → ((fill_header (sz + 5) (fill_uint32 session ++ (if ok then 1 else 0) ∷ text) >>= λ pack.
          some (single pack))
        >>= receive_response)
      ≡ some (record { session = session; ok = ok; msg = text })
unfolding lunpackresponse
one_package session sz ok text h e fits =
    let pack : List ℕ = fill_uint32 session ++ (if ok then 1 else 0) ∷ text in
    rw
      (
        fill_header-framed (sz + 5) pack (omega arith),
        unframe-framed (sz + 5) pack (omega arith) (omega arith),
      )
      (unpacked ok)
  where
    unpacked :
        (ok' : Bool)
        → (lunpackresponse (fill_uint32 session ++ (if ok' then 1 else 0) ∷ text) >>= answer [])
          ≡ some (record { session = session; ok = ok'; msg = text })
    unpacked true =
        rw
          (
            less_false (suc (suc (suc (suc (suc (length text)))))) 5 (omega arith),
            unpack_uint32-fill_uint32 session [] h,
          )
          refl
    unpacked false =
        rw
          (
            less_false (suc (suc (suc (suc (suc (length text)))))) 5 (omega arith),
            unpack_uint32-fill_uint32 session [] h,
          )
          refl

answered :
    (rounds session : ℕ) (msg : List ℕ) (g : Replied rounds session msg)
    → session < 2 ^ 32
    → length msg < 2 ^ 31
    → receive_response
        (multi (framed 9 (fill_uint32 session ++ 2 ∷ fill_uint32 (length msg)) ∷ g.parts))
      ≡ some (record { session = session; ok = true; msg = msg })
unfolding lunpackresponse lconcat read_size
answered rounds session msg g h h' =
    let made : List ℕ → Answer = λ whole. record { session = session; ok = true; msg = whole } in
    rw
      (
        unpack_uint32-fill_uint32 session [] h,
        unpack_uint32-fill_uint32 (length msg) [] (omega arith),
      )
      (ap (λ o. o >>= lconcat (length msg) >>= λ whole. some (made whole)) g.gathered
        ∙ ap (λ n. concat_loop n [] g.texts >>= λ whole. some (made whole)) (omega arith)
        ∙ ap (λ o. o >>= λ whole. some (made whole)) (g.joined []))

-- The response of any session to a message shorter than 2^31 arrives with the session, whether it is an error, and the
-- message, in one package or in parts that `lunpackresponse` unpacks one by one and `lconcat` joins. Of the message of an
-- error only the first 32K arrive.
pub lpackresponse-receive_response :
    (session : ℕ) (ok : Bool) (msg : List ℕ)
    → session < 2 ^ 32
    → length msg < 2 ^ 31
    → (lpackresponse session ok msg >>= receive_response)
      ≡ some (record { session = session; ok = ok; msg = if ok then msg else take multi_part msg })
unfolding lpackresponse
lpackresponse-receive_response session true msg h h' =
    elim (Bool-cases (ltb multi_part (length msg))) [
      | inl long ↦
          let over = above (length msg) long in
          let parts =
            response_parts-Replied (parts_of (length msg)) session msg refl (omega arith) h in
          rw (long, parts.packed) (answered (parts_of (length msg)) session msg parts h h')
      | inr short ↦
          let over = not_above (length msg) short in
          rw (short, take-all msg) (one_package session (length msg) true msg h refl over)
    ]
lpackresponse-receive_response session false msg h h' =
    elim (Bool-cases (ltb multi_part (length msg))) [
      | inl long ↦
          let over = above (length msg) long in
          let taken = length-take multi_part msg in
          rw long (
            one_package session multi_part false (take multi_part msg) h (omega arith)
              (omega arith))
      | inr short ↦
          let over = not_above (length msg) short in
          rw (short, take-all msg, take-short multi_part msg over)
            (one_package session (length msg) false msg h refl over)
    ]
