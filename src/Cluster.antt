-- ===== src/Cluster.antt =====
-- ztask/lualib/lua-cluster.c: requests and responses between the nodes of a cluster, cut into packages
-- of at most 64K. A message is the list of its bytes. `none` is `luaL_error`, a failed assertion, or no
-- result.
pub mod Words
pub mod Receive
pub mod Parts
pub mod Unpack
pub mod Requests
pub mod Response
pub mod Responses
use ztask.Base.{
  ℕ, zero, suc, ◌+◌, ◌-◌, ◌*◌, ◌/◌, ◌%◌, ◌^◌, Bool, true, false, not, ◌&&◌, ◌||◌, Option, none,
  some, List, [], ◌∷◌, ◌++◌, leb, ltb, ◌==◌, if◌then◌else◌, length, take, drop,
}

abbrev pub multi_part : ℕ
multi_part = 0x8000

infixl 5 ◌>>=◌
abbrev pub ◌>>=◌ {ℓ κ} : {A : Type ℓ} {B : Type κ} → Option A → (A → Option B) → Option B
none >>= f = none
some a >>= f = f a

abbrev pub fill_uint32 : ℕ → List ℕ
fill_uint32 n = n % 2 ^ 8 ∷ n / 2 ^ 8 % 2 ^ 8 ∷ n / 2 ^ 16 % 2 ^ 8 ∷ n / 2 ^ 24 % 2 ^ 8 ∷ []

-- `fill_header`, before the bytes of a package; `sz` is what the caller passes.
unfoldable pub fill_header : ℕ → List ℕ → Option (List ℕ)
fill_header sz pack = if ltb sz 0x10000 then some (sz / 2 ^ 8 % 2 ^ 8 ∷ sz % 2 ^ 8 ∷ pack) else none

-- How the first argument names a service: `LUA_TNUMBER` or else.
pub data Address : Type 0 where
  number : ℕ → Address
  name : List ℕ → Address

-- `packreq_number`: whether parts follow, and the package.
unfoldable pub packreq_number : ℕ → ℕ → List ℕ → Bool → Option (Bool × List ℕ)
unfolding fill_header
packreq_number addr session msg is_push =
    let sz = length msg in
    if ltb sz multi_part
    then (fill_header (sz + 9)
          (0 ∷ fill_uint32 addr ++ (fill_uint32 (if is_push then 0 else session) ++ msg))
        >>= λ pack. some (false, pack))
    else (fill_header 13 (
          (if is_push then 0x41 else 1) ∷ fill_uint32 addr
          ++ (fill_uint32 session ++ fill_uint32 sz))
        >>= λ pack. some (true, pack))

-- `packreq_string`
unfoldable pub packreq_string : List ℕ → ℕ → List ℕ → Bool → Option (Bool × List ℕ)
unfolding fill_header
packreq_string text session msg is_push =
    let sz = length msg in
    let namelen = length text in
    if ltb namelen 1 || ltb 255 namelen
    then none
    else if ltb sz multi_part
    then (fill_header (sz + 6 + namelen)
          (0x80 ∷ namelen ∷ text ++ (fill_uint32 (if is_push then 0 else session) ++ msg))
        >>= λ pack. some (false, pack))
    else (fill_header (10 + namelen) (
          (if is_push then 0xc1 else 0x81) ∷ namelen ∷ text
          ++ (fill_uint32 session ++ fill_uint32 sz))
        >>= λ pack. some (true, pack))

-- `(sz - 1) / MULTI_PART + 1`, of a size that is not 0.
abbrev pub parts_of : ℕ → ℕ
parts_of sz = (sz - 1) / multi_part + 1

-- The loop of `packreq_multi`, `part` times.
unfoldable pub packreq_multi : ℕ → ℕ → List ℕ → Option (List (List ℕ))
unfolding fill_header
packreq_multi zero session msg = some []
packreq_multi (suc part) session msg =
    let sz = length msg in
    let s = if ltb multi_part sz then multi_part else sz in
    let kind = if ltb multi_part sz then 2 else 3 in
    let rest = packreq_multi part session (drop s msg) in
    fill_header (s + 5) (kind ∷ fill_uint32 session ++ take s msg) >>= λ pack.
    rest >>= λ packs. some (pack ∷ packs)

pub record Request : Type 0 where
  pub first : List ℕ
  pub next_session : ℕ
  pub parts : List (List ℕ)

abbrev pub packreq : Address → ℕ → List ℕ → Bool → Option (Bool × List ℕ)
packreq (number addr) session msg is_push = packreq_number addr session msg is_push
packreq (name text) session msg is_push = packreq_string text session msg is_push

-- `packrequest`. The `int` session is its 32 bits; the increment wraps around, as the test of its sign
-- expects.
unfoldable pub packrequest : Address → ℕ → List ℕ → Bool → Option Request
unfolding packreq_number packreq_string packreq_multi
packrequest addr session msg is_push =
    let next = if leb (2 ^ 31) (session + 1) then 1 else session + 1 in
    let more = packreq_multi (parts_of (length msg)) session msg in
    if session == 0 || leb (2 ^ 31) session
    then none
    else (packreq addr session msg is_push >>= λ p.
        let (multipak, first) = p in
        if multipak
        then (more >>= λ parts. some (record { first = first; next_session = next; parts = parts }))
        else some (record { first = first; next_session = next; parts = [] }))

abbrev pub unpack_uint32 : List ℕ → ℕ
unpack_uint32 (a ∷ b ∷ c ∷ d ∷ rest) = a + b * 2 ^ 8 + c * 2 ^ 16 + d * 2 ^ 24
unpack_uint32 _ = 0

-- What `lunpackrequest` pushes.
pub data Unpacked : Type 0 where
  request : Address → (session : ℕ) → (msg : List ℕ) → (is_push : Bool) → Unpacked
  multi_request : Address → (session : ℕ) → (size : ℕ) → (is_push : Bool) → Unpacked
  part : (session : ℕ) → (msg : List ℕ) → (padding : Bool) → Unpacked

unfoldable pub unpackreq_number : List ℕ → Option Unpacked
unpackreq_number buf =
    let session = unpack_uint32 (drop 5 buf) in
    if ltb (length buf) 9
    then none
    else some (request (number (unpack_uint32 (drop 1 buf))) session (drop 9 buf) (session == 0))

unfoldable pub unpackmreq_number : List ℕ → Bool → Option Unpacked
unpackmreq_number buf is_push =
    if length buf == 13
    then some (
        multi_request (number (unpack_uint32 (drop 1 buf))) (unpack_uint32 (drop 5 buf))
          (unpack_uint32 (drop 9 buf)) is_push)
    else none

unfoldable pub unpackmreq_part : ℕ → List ℕ → Option Unpacked
unpackmreq_part kind buf =
    if ltb (length buf) 5
    then none
    else some (part (unpack_uint32 (drop 1 buf)) (drop 5 buf) (kind == 2))

-- `unpackreq_string`, where `buf[1]` is `namesz`.
unfoldable pub unpackreq_string : ℕ → List ℕ → Option Unpacked
unpackreq_string namesz buf =
    let session = unpack_uint32 (drop namesz (drop 2 buf)) in
    if ltb (length buf) 2 || ltb (length buf) (namesz + 6)
    then none
    else some (
        request (name (take namesz (drop 2 buf))) session (drop 4 (drop namesz (drop 2 buf)))
          (session == 0))

unfoldable pub unpackmreq_string : ℕ → List ℕ → Bool → Option Unpacked
unpackmreq_string namesz buf is_push =
    let behind = drop namesz (drop 2 buf) in
    if ltb (length buf) 2 || ltb (length buf) (namesz + 10)
    then none
    else some (
        multi_request (name (take namesz (drop 2 buf))) (unpack_uint32 behind)
          (unpack_uint32 (drop 4 behind)) is_push)

-- The byte `buf[i]`; the strings of Lua end with a 0.
abbrev pub byte_at : ℕ → List ℕ → ℕ
byte_at i [] = 0
byte_at zero (b ∷ bs) = b
byte_at (suc i) (b ∷ bs) = byte_at i bs

unfoldable pub lunpackrequest : List ℕ → Option Unpacked
unfolding unpackreq_number unpackmreq_number unpackmreq_part unpackreq_string unpackmreq_string
lunpackrequest msg =
    let kind = byte_at 0 msg in
    if kind == 0
    then unpackreq_number msg
    else if kind == 1
    then unpackmreq_number msg false
    else if kind == 0x41
    then unpackmreq_number msg true
    else if kind == 2 || (kind == 3)
    then unpackmreq_part kind msg
    else if kind == 0x80
    then unpackreq_string (byte_at 1 msg) msg
    else if kind == 0x81
    then unpackmreq_string (byte_at 1 msg) msg false
    else if kind == 0xc1
    then unpackmreq_string (byte_at 1 msg) msg true
    else none

-- The loop of `lconcat` on the strings at 2, 3, …; `buff` is what it has copied.
unfoldable pub concat_loop : ℕ → List ℕ → List (List ℕ) → Option (List ℕ)
concat_loop sz buff [] = if length buff == sz then some buff else none
concat_loop sz buff (str ∷ strs) =
    let rest = concat_loop sz (buff ++ str) strs in
    if ltb sz (length str + length buff) then none else rest

-- `lconcat` of the table `{ sz, str, … }`.
unfoldable pub lconcat : ℕ → List (List ℕ) → Option (List ℕ)
unfolding concat_loop
lconcat sz strs = concat_loop sz [] strs
