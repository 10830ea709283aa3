-- ===== src/Cluster/Response.antt =====
-- The responses of ztask/lualib/lua-cluster.c.
use ztask.Base.{
  ℕ, zero, suc, ◌+◌, Bool, true, false, not, ◌&&◌, ◌||◌, Option, none, some, List, [], ◌∷◌, ◌++◌,
  ltb, ◌==◌, if◌then◌else◌, length, take, drop,
}
use ztask.Cluster.{
  ◌>>=◌, multi_part, parts_of, fill_uint32, fill_header, unpack_uint32, byte_at, lconcat,
}
use ztask.Cluster.Words.{unframe}

-- A package, or a table of packages.
pub data Response : Type 0 where
  single : List ℕ → Response
  multi : List (List ℕ) → Response

-- The loop over the parts in `lpackresponse`.
unfoldable pub response_parts : ℕ → ℕ → List ℕ → Option (List (List ℕ))
unfolding fill_header
response_parts zero session msg = some []
response_parts (suc rounds) session msg =
    let sz = length msg in
    let s = if ltb multi_part sz then multi_part else sz in
    let kind = if ltb multi_part sz then 3 else 4 in
    let rest = response_parts rounds session (drop s msg) in
    fill_header (s + 5) (fill_uint32 session ++ kind ∷ take s msg) >>= λ pack.
    rest >>= λ packs. some (pack ∷ packs)

-- `lpackresponse`, of the bytes of a string or of a block with its size.
unfoldable pub lpackresponse : ℕ → Bool → List ℕ → Option Response
unfolding fill_header response_parts
lpackresponse session ok msg =
    let sz = if not ok && ltb multi_part (length msg) then multi_part else length msg in
    let parts = response_parts (parts_of (length msg)) session msg in
    let begin = fill_header 9 (fill_uint32 session ++ 2 ∷ fill_uint32 (length msg)) in
    if ok && ltb multi_part (length msg)
    then (begin >>= λ pack. parts >>= λ packs. some (multi (pack ∷ packs)))
    else (fill_header (sz + 5) (fill_uint32 session ++ (if ok then 1 else 0) ∷ take sz msg)
        >>= λ pack. some (single pack))

-- What `lunpackresponse` pushes: the session, whether it is no error, the message or its size, and the padding.
pub data Reply : Type 0 where
  failed : (session : ℕ) → (msg : List ℕ) → Reply
  complete : (session : ℕ) → (msg : List ℕ) → Reply
  begins : (session : ℕ) → (size : ℕ) → Reply
  goes_on : (session : ℕ) → (msg : List ℕ) → Reply

unfoldable pub lunpackresponse : List ℕ → Option Reply
lunpackresponse buf =
    let session = unpack_uint32 buf in
    let kind = byte_at 4 buf in
    if ltb (length buf) 5
    then none
    else if kind == 0
    then some (failed session (drop 5 buf))
    else if kind == 1 || (kind == 4)
    then some (complete session (drop 5 buf))
    else if kind == 2
    then (if length buf == 9 then some (begins session (unpack_uint32 (drop 5 buf))) else none)
    else if kind == 3
    then some (goes_on session (drop 5 buf))
    else none

-- A receiver: it gathers the packages of a session up to one that is complete, and concatenates them.
abbrev pub text_of : ℕ → Bool → Reply → Option (List ℕ)
text_of session more (goes_on s msg) = if (s == session) && more then some msg else none
text_of session more (complete s msg) = if (s == session) && not more then some msg else none
text_of session more _ = none

abbrev pub more_replies : List (List ℕ) → Bool
more_replies [] = false
more_replies (frame ∷ frames) = true

unfoldable pub gather_replies : ℕ → List (List ℕ) → Option (List (List ℕ))
unfolding lunpackresponse
gather_replies session [] = some []
gather_replies session (frame ∷ frames) =
    let rest = gather_replies session frames in
    (unframe frame >>= lunpackresponse >>= text_of session (more_replies frames)) >>= λ text.
    rest >>= λ texts. some (text ∷ texts)

pub record Answer : Type 0 where
  pub session : ℕ
  pub ok : Bool
  pub msg : List ℕ

abbrev pub answer : List (List ℕ) → Reply → Option Answer
answer frames (failed session msg) =
    if more_replies frames then none else some (record { session = session; ok = false; msg = msg })
answer frames (complete session msg) =
    if more_replies frames then none else some (record { session = session; ok = true; msg = msg })
answer frames (begins session size) = gather_replies session frames >>= lconcat size >>= λ msg.
    some (record { session = session; ok = true; msg = msg })
answer frames (goes_on session msg) = none

abbrev pub receive_response : Response → Option Answer
receive_response (single frame) = unframe frame >>= lunpackresponse >>= answer []
receive_response (multi []) = none
receive_response (multi (frame ∷ frames)) = unframe frame >>= lunpackresponse >>= answer frames
