-- ===== src/Netpack.antt =====
-- ztask/lualib/lua-netpack.c: the packages of a byte stream, each two bytes of size (big-endian) and
-- the data. The queue userdata keeps, for each socket, the package that is not complete yet, and a
-- ring of the packages that wait for `pop`. `Netpack.Ring` is about the ring, `Netpack.Table` about the
-- hash table, `Netpack.Stream` about the stream.
-- A buffer is the list of its bytes, so that its length is its size; a socket's number is not
-- negative. A `NULL` userdata is the queue that `get_queue` makes in its place.
pub mod Ring
pub mod Table
pub mod Frame
pub mod Stream
use ztask.Base.{
  ℕ, zero, suc, ◌+◌, ◌-◌, ◌*◌, ◌/◌, ◌%◌, ◌^◌, Bool, true, false, Option, none, some, List, [], ◌∷◌,
  ◌++◌, leb, ltb, ◌==◌, if◌then◌else◌, update, length, take, drop,
}
use ztask.Base.Ring.{advance}

abbrev pub queue_size : ℕ
queue_size = 1024

abbrev pub hash_size : ℕ
hash_size = 4096

-- `struct netpack`; `size` is the length of `buffer`.
pub record Pack : Type 0 where
  pub id : ℕ
  pub buffer : List ℕ

-- The state of an incomplete package: `read == -1` with the first byte of its size in `header`, or
-- its size and the first `read` bytes of its buffer.
pub data Progress : Type 0 where
  half : (header : ℕ) → Progress
  reading : (size : ℕ) → (buffer : List ℕ) → Progress

-- `struct uncomplete`; a chain through `next` is a list.
pub record Uncomplete : Type 0 where
  pub id : ℕ
  pub progress : Progress

-- `uninit` slots of `queue` hold `none`.
pub record Queue : Type 0 where
  pub cap : ℕ
  pub head : ℕ
  pub tail : ℕ
  pub hash : ℕ → List Uncomplete
  pub queue : ℕ → Option Pack

-- `get_queue` where there is none yet.
unfoldable pub new_queue : Queue
new_queue = record { cap = queue_size; head = 0; tail = 0; hash = λ _. []; queue = λ _. none }

-- `hash_fd`
unfoldable pub hash_fd : ℕ → ℕ
hash_fd fd = (fd / 2 ^ 24 + fd / 2 ^ 12 + fd) % 2 ^ 32 % hash_size

-- The search in one chain: the entry of `fd` and the chain without it.
unfoldable pub unlink : ℕ → List Uncomplete → Option (Uncomplete × List Uncomplete)
unlink fd [] = none
unlink fd (uc ∷ next) =
    let rest = unlink fd next in
    if uc.id == fd
    then some (uc, next)
    else elim rest [ none ↦ none | some (found, next') ↦ some (found, uc ∷ next') ]

-- `find_uncomplete`, which takes the entry out of the table.
unfoldable pub find_uncomplete : Queue → ℕ → Option (Uncomplete × Queue)
unfolding hash_fd unlink
find_uncomplete q fd = elim (unlink fd (q.hash (hash_fd fd))) [
  | none ↦ none
  | some (uc, chain) ↦ some (uc, record q { hash = update q.hash (hash_fd fd) chain })
]

-- `expand_queue`
unfoldable pub expand_queue : Queue → Queue
expand_queue q = record q {
  cap = q.cap + queue_size;
  head = 0;
  tail = q.cap;
  queue = λ i. if ltb i q.cap then q.queue ((q.head + i) % q.cap) else none;
}

-- `push_data`; the copy that `clone` asks for has the same bytes.
unfoldable pub push_data : ℕ → List ℕ → Queue → Queue
unfolding advance expand_queue
push_data fd buffer q =
    let written = record q {
      queue = update q.queue q.tail (some (record { id = fd; buffer = buffer }));
      tail = if leb q.cap (q.tail + 1) then (q.tail + 1) - q.cap else q.tail + 1;
    } in
    if written.head == written.tail then expand_queue written else written

-- `save_uncomplete` and the fields that its callers set: at the front of its chain.
unfoldable pub save_uncomplete : ℕ → Progress → Queue → Queue
unfolding hash_fd
save_uncomplete fd progress q = record q {
  hash = update q.hash (hash_fd fd) (record { id = fd; progress = progress } ∷ q.hash (hash_fd fd));
}

-- `read_size`
unfoldable pub read_size : ℕ → ℕ → ℕ
read_size high low = high * 2 ^ 8 + low

-- `push_more`, on fuel. `none`: out of fuel, or a read beyond the buffer, which is never empty.
unfoldable pub push_more : ℕ → ℕ → List ℕ → Queue → Option Queue
unfolding read_size save_uncomplete push_data
push_more zero fd buffer q = none
push_more (suc fuel) fd [] q = none
push_more (suc fuel) fd (header ∷ []) q = some (save_uncomplete fd (half header) q)
push_more (suc fuel) fd (high ∷ low ∷ buffer) q =
    let pack_size = read_size high low in
    let pushed = push_data fd (take pack_size buffer) q in
    let more = push_more fuel fd (drop pack_size buffer) pushed in
    if ltb (length buffer) pack_size
    then some (save_uncomplete fd (reading pack_size buffer) q)
    else if ltb 0 (length buffer - pack_size)
    then more
    else some pushed

-- `close_uncomplete`
unfoldable pub close_uncomplete : ℕ → Queue → Queue
unfolding find_uncomplete
close_uncomplete fd q = elim (find_uncomplete q fd) [ none ↦ q | some (uc, q') ↦ q' ]

-- What `filter` returns besides the queue: nothing, or the type and its values.
pub data Filtered : Type 0 where
  nothing more : Filtered
  whole : (fd : ℕ) → (buffer : List ℕ) → Filtered
  closed : (fd : ℕ) → Filtered
  opened : (fd : ℕ) → (message : List ℕ) → Filtered
  failed : (fd : ℕ) → (message : List ℕ) → Filtered
  warned : (fd : ℕ) → (size : ℕ) → Filtered

-- The end of both branches of `filter_data_`: more data after a whole package.
unfoldable pub filter_more : ℕ → List ℕ → List ℕ → Queue → Option (Filtered × Queue)
unfolding push_data push_more
filter_more fd pack buffer q = elim (push_more (length buffer) fd buffer (push_data fd pack q)) [
  | none ↦ none
  | some q' ↦ some (more, q')
]

-- `// fill uncomplete` of `filter_data_`, once the size is known.
unfoldable pub fill : ℕ → ℕ → List ℕ → List ℕ → Queue → Option (Filtered × Queue)
unfolding save_uncomplete filter_more
fill fd size read buffer q =
    let need = size - length read in
    if ltb (length buffer) need
    then some (nothing, save_uncomplete fd (reading size (read ++ buffer)) q)
    else if length buffer - need == 0
    then some (whole fd (read ++ take need buffer), q)
    else filter_more fd (read ++ take need buffer) (drop need buffer) q

-- `filter_data_`. `none`: a read beyond the buffer, which is never empty.
unfoldable pub filter_data : ℕ → List ℕ → Queue → Option (Filtered × Queue)
unfolding find_uncomplete fill read_size save_uncomplete filter_more
filter_data fd [] q = none
filter_data fd (byte ∷ buffer) q = elim (find_uncomplete q fd) [
  | some (uc, q') ↦ elim uc.progress [
    | half header ↦ fill fd (read_size header byte) [] buffer q'
    | reading size read ↦ fill fd size read (byte ∷ buffer) q'
  ]
  | none ↦ elim buffer [
    | [] ↦ some (nothing, save_uncomplete fd (half byte) q)
    | low ∷ rest ↦
        let pack_size = read_size byte low in
        if ltb (length rest) pack_size
        then some (nothing, save_uncomplete fd (reading pack_size rest) q)
        else if length rest == pack_size
        then some (whole fd rest, q)
        else filter_more fd (take pack_size rest) (drop pack_size rest) q
  ]
]

-- `ZTASK_SOCKET_TYPE_*` of a socket's message, with the fields that `lfilter` reads. The text of an
-- accept or an error is the rest of the message.
pub data SocketMessage : Type 0 where
  data_message : (id : ℕ) → (buffer : List ℕ) → SocketMessage
  connect_message : SocketMessage
  close_message : (id : ℕ) → SocketMessage
  accept_message : (ud : ℕ) → (text : List ℕ) → SocketMessage
  error_message : (id : ℕ) → (text : List ℕ) → SocketMessage
  warning_message : (id : ℕ) → (ud : ℕ) → SocketMessage

-- `lfilter`
unfoldable pub filter : SocketMessage → Queue → Option (Filtered × Queue)
unfolding filter_data close_uncomplete
filter (data_message id buffer) q = filter_data id buffer q
filter connect_message q = some (nothing, q)
filter (close_message id) q = some (closed id, close_uncomplete id q)
filter (accept_message ud text) q = some (opened ud text, q)
filter (error_message id text) q = some (failed id text, close_uncomplete id q)
filter (warning_message id ud) q = some (warned id ud, q)

-- `lpop`: `none` where the queue is empty.
unfoldable pub pop : Queue → Option (Option Pack) × Queue
unfolding advance
pop q =
    if q.head == q.tail
    then (none, q)
    else (some (q.queue q.head), record q { head = advance q.cap q.head })

-- `lclear`: every chain and every waiting package is freed; the slots of the ring keep their
-- pointers.
unfoldable pub clear : Queue → Queue
clear q = record q { hash = λ _. []; head = 0; tail = 0 }

-- `write_size`
unfoldable pub write_size : ℕ → List ℕ
write_size len = len / 2 ^ 8 % 2 ^ 8 ∷ len % 2 ^ 8 ∷ []

-- `lpack`: `none` for "Invalid size (too long) of data".
unfoldable pub pack : List ℕ → Option (List ℕ)
unfolding write_size
pack data_bytes =
    if leb 0x10000 (length data_bytes)
    then none
    else some (write_size (length data_bytes) ++ data_bytes)
