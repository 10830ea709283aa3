-- ===== src/Cluster/Parts.antt =====
-- The parts of a long request of ztask/lualib/lua-cluster.c.
use ztask.Base.{
  ℕ, zero, suc, ◌+◌, ◌^◌, ◌≤◌, ◌<◌, ◌≡◌, refl, ap, ◌∙◌, inl, inr, Bool, true, false, arith, some,
  List, [], ◌∷◌, ◌++◌, append_assoc, length, take, drop, length-append, length-take, length-drop,
  take-append-drop, ltb, ◌==◌, if◌then◌else◌, Bool-cases,
}
use ztask.Cluster.{
  multi_part, fill_uint32, parts_of, packreq_multi, part, lunpackrequest, unpackmreq_part,
  concat_loop,
}
use ztask.Cluster.Words.{
  unpack_uint32-fill_uint32, less_true, less_false, equal_true, framed, unframe-framed,
}
use ztask.Cluster.Receive.{more_follow, accepted, gather}

-- One part is unpacked.
lunpackrequest-part :
    (more : Bool) (session : ℕ) (text : List ℕ)
    → session < 2 ^ 32
    → lunpackrequest ((if more then 2 else 3) ∷ fill_uint32 session ++ text)
      ≡ some (part session text more)
unfolding lunpackrequest unpackmreq_part
lunpackrequest-part true session text h =
    let long : ltb (suc (suc (suc (suc (suc (length text)))))) 5 ≡ false = ground arith in
    rw (long, unpack_uint32-fill_uint32 session text h) refl
lunpackrequest-part false session text h =
    let long : ltb (suc (suc (suc (suc (suc (length text)))))) 5 ≡ false = ground arith in
    rw (long, unpack_uint32-fill_uint32 session text h) refl

-- The parts of `msg`: packed, gathered, and joined behind what was copied before.
pub record Gathered (rounds session : ℕ) (msg : List ℕ) : Type 0 where
  pub parts : List (List ℕ)
  pub texts : List (List ℕ)
  pub packed : packreq_multi rounds session msg ≡ some parts
  pub gathered : gather session parts ≡ some texts
  pub joined :
      (buff : List ℕ) → concat_loop (length buff + length msg) buff texts ≡ some (buff ++ msg)
  pub busy : more_follow parts ≡ true

accepted-more :
    (session : ℕ) (more : Bool) (text : List ℕ)
    → accepted session more (part session text more) ≡ some text
accepted-more session true text =
    let same : (session == session) ≡ true = ground arith in rw same refl
accepted-more session false text =
    let same : (session == session) ≡ true = ground arith in rw same refl

pub take-all : (xs : List ℕ) → take (length xs) xs ≡ xs
take-all [] = refl
take-all (x ∷ xs) = ap (λ l. x ∷ l) (take-all xs)

pub above : (n : ℕ) → ltb multi_part n ≡ true → multi_part < n
above n e = ground arith

pub not_above : (n : ℕ) → ltb multi_part n ≡ false → n ≤ multi_part
not_above n e = ground arith

-- `lconcat` takes the first part of the message, and then the rest.
pub concat_loop-take :
    (msg : List ℕ) (texts : List (List ℕ))
    → multi_part < length msg
    → ((buff : List ℕ)
        → concat_loop (length buff + length (drop multi_part msg)) buff texts
          ≡ some (buff ++ drop multi_part msg))
    → (buff : List ℕ)
    → concat_loop (length buff + length msg) buff (take multi_part msg ∷ texts) ≡ some (buff ++ msg)
unfolding concat_loop
concat_loop-take msg texts over others buff =
    let text = take multi_part msg in
    let rest = drop multi_part msg in
    let left = length-drop multi_part msg in
    let taken = length-take multi_part msg in
    let fits = less_false (length buff + length msg) (length text + length buff) (omega arith) in
    let size : length buff + length msg ≡ length (buff ++ text) + length rest =
      omega (arith, length-append buff text) in
    rw fits (
      ap (λ n. concat_loop n (buff ++ text) texts) size
      ∙ others (buff ++ text)
      ∙ ap some
          (append_assoc buff text rest ∙ ap (λ l. buff ++ l) (take-append-drop multi_part msg)))

pub concat_loop-last :
    (msg buff : List ℕ)
    → concat_loop (length buff + length msg) buff (msg ∷ []) ≡ some (buff ++ msg)
unfolding concat_loop
concat_loop-last msg buff =
    let fits = less_false (length buff + length msg) (length msg + length buff) (omega arith) in
    let size =
      equal_true (length (buff ++ msg)) (length buff + length msg) (length-append buff msg) in
    rw (fits, size) refl

gather-framed :
    (session sz : ℕ) (more : Bool) (text : List ℕ) (frames : List (List ℕ)) (texts : List (List ℕ))
    → session < 2 ^ 32
    → length text + 5 ≡ sz
    → sz < 0x10000
    → more_follow frames ≡ more
    → gather session frames ≡ some texts
    → gather session (framed sz ((if more then 2 else 3) ∷ fill_uint32 session ++ text) ∷ frames)
      ≡ some (text ∷ texts)
unfolding gather
gather-framed session sz more text frames texts h e fits follow rest =
    let pack : List ℕ = (if more then 2 else 3) ∷ fill_uint32 session ++ text in
    rw
      (
        unframe-framed sz pack fits (omega arith),
        lunpackrequest-part more session text h,
        follow,
        accepted-more session more text,
        rest,
      )
      refl

pub packreq_multi-Gathered :
    (rounds session : ℕ) (msg : List ℕ)
    → rounds ≡ parts_of (length msg)
    → 0 < length msg
    → session < 2 ^ 32
    → Gathered rounds session msg
unfolding packreq_multi gather concat_loop
packreq_multi-Gathered zero session msg e h small = absurd (omega arith)
packreq_multi-Gathered (suc rounds) session msg e h small =
    elim (Bool-cases (ltb multi_part (length msg))) [
      | inl long ↦
          let text = take multi_part msg in
          let left = length-drop multi_part msg in
          let taken = length-take multi_part msg in
          let over = above (length msg) long in
          let rest =
            packreq_multi-Gathered rounds session (drop multi_part msg) (omega arith) (omega arith)
              small in
          let pack : List ℕ = 2 ∷ fill_uint32 session ++ text in
          let sized : length text ≡ multi_part = omega arith in
          record {
            parts = framed (multi_part + 5) pack ∷ rest.parts;
            texts = text ∷ rest.texts;
            packed = rw (long, rest.packed) refl;
            gathered =
                gather-framed session (multi_part + 5) true text rest.parts rest.texts small
                  (omega arith) (omega arith) rest.busy rest.gathered;
            joined = concat_loop-take msg rest.texts over rest.joined;
            busy = refl;
          }
      | inr last ↦
          let over = not_above (length msg) last in
          let one : rounds ≡ 0 = omega arith in
          let pack : List ℕ = 3 ∷ fill_uint32 session ++ msg in
          record {
            parts = framed (length msg + 5) pack ∷ [];
            texts = msg ∷ [];
            packed =
                rw (last, one, take-all msg, less_true (length msg + 5) 0x10000 (omega arith)) refl;
            gathered =
                gather-framed session (length msg + 5) false msg [] [] small (omega arith)
                  (omega arith) refl refl;
            joined = concat_loop-last msg;
            busy = refl;
          }
    ]
