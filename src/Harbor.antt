-- ===== src/Harbor.antt =====
-- ztask/server/service_harbor.c: the service that connects a node with the other nodes. This file has
-- the queues, the table of global names and the records, `Harbor.Wire` the packages between nodes,
-- `Harbor.Service`, `Harbor.Data` and `Harbor.Commands` the handlers. What a handler does to the world outside is the list of its actions,
-- in order. `none` is an access outside of an array, or a failed assertion.
pub mod Ring
pub mod Wire
pub mod Service
pub mod Data
pub mod Commands
pub mod Cookie
pub mod Content
pub mod Receive
pub mod Loop
pub mod Stream
pub mod Kept
pub mod Down
pub mod Waiting
pub mod Asking
pub mod Names
pub mod Reached
pub mod Broken
pub mod Hash
use Prim.Native.Nat.{bit_xor}
use ztask.Base.{
  ℕ, zero, suc, ◌+◌, ◌-◌, ◌*◌, ◌/◌, ◌%◌, ◌^◌, Bool, true, false, ◌&&◌, ◌||◌, Option, none, some,
  List, [], ◌∷◌, ◌++◌, ltb, leb, ◌==◌, if◌then◌else◌, update,
}

-- `HASH_SIZE`, of the table of names.
abbrev pub name_hash_size : ℕ
name_hash_size = 4096

-- `DEFAULT_QUEUE_SIZE`
abbrev pub msg_queue_size : ℕ
msg_queue_size = 1024

abbrev pub header_cookie_length : ℕ
header_cookie_length = 12

abbrev pub globalname_length : ℕ
globalname_length = 16

abbrev pub remote_max : ℕ
remote_max = 256

-- `struct remote_message_header`, of three 32-bit numbers.
pub record Header : Type 0 where
  pub source : ℕ
  pub destination : ℕ
  pub session : ℕ

-- `struct harbor_msg`: `buffer` and `size` are the bytes.
pub record HarborMsg : Type 0 where
  pub header : Header
  pub buffer : List ℕ

-- `struct harbor_msg_queue`; `slots` is its `data`.
pub record MsgQueue : Type 0 where
  pub size : ℕ
  pub head : ℕ
  pub tail : ℕ
  pub slots : ℕ → HarborMsg

-- Stands for the memory that nothing has been written to.
abbrev pub unwritten : HarborMsg
unwritten = record { header = record { source = 0; destination = 0; session = 0 }; buffer = [] }

-- The branch of `push_queue_msg` that grows the array.
abbrev pub grow : MsgQueue → MsgQueue
grow queue =
    if (queue.tail + 1) % queue.size == queue.head
    then record {
      size = queue.size * 2;
      head = 0;
      tail = queue.size - 1;
      slots = λ i.
          if ltb i (queue.size - 1) then queue.slots ((i + queue.head) % queue.size) else unwritten;
    }
    else queue

unfoldable pub push_queue_msg : MsgQueue → HarborMsg → MsgQueue
push_queue_msg queue m =
    let grown = grow queue in
    record grown { slots = update grown.slots grown.tail m; tail = (grown.tail + 1) % grown.size }

unfoldable pub push_queue : MsgQueue → List ℕ → Header → MsgQueue
push_queue queue buffer header = push_queue_msg queue (record { header = header; buffer = buffer })

unfoldable pub pop_queue : MsgQueue → Option (HarborMsg × MsgQueue)
pop_queue queue =
    if queue.head == queue.tail
    then none
    else some (queue.slots queue.head, record queue { head = (queue.head + 1) % queue.size })

unfoldable pub new_queue : MsgQueue
new_queue = record { size = msg_queue_size; head = 0; tail = 0; slots = λ i. unwritten }

-- The messages that a loop `while ((m = pop_queue(queue)) != NULL)` meets, on fuel; after each of these
-- loops the queue is released.
unfoldable pub pop_loop : ℕ → MsgQueue → List HarborMsg
pop_loop zero queue = []
pop_loop (suc fuel) queue = elim (pop_queue queue) [
  | none ↦ []
  | some (m, queue') ↦ m ∷ pop_loop fuel queue'
]

unfoldable pub pop_all : MsgQueue → List HarborMsg
pop_all queue = pop_loop queue.size queue

-- The loop of `dispatch_name_queue` that moves messages to the queue of a slave.
unfoldable pub push_all : MsgQueue → List HarborMsg → MsgQueue
push_all queue [] = queue
push_all queue (m ∷ ms) = push_all (push_queue_msg queue m) ms

-- `struct keyvalue`; `key` has 16 bytes.
pub record KeyValue : Type 0 where
  pub key : List ℕ
  pub hash : ℕ
  pub value : ℕ
  pub queue : Option MsgQueue

abbrev pub Map : Type 0
Map = ℕ → List KeyValue

-- `strncmp(a, b, n) == 0`
unfoldable pub strncmp_equal : ℕ → List ℕ → List ℕ → Bool
strncmp_equal zero xs ys = true
strncmp_equal (suc n) (x ∷ xs) (y ∷ ys) =
    let rest = strncmp_equal n xs ys in if x == y then (if x == 0 then true else rest) else false
strncmp_equal (suc n) xs ys = true

-- The four words of a name, combined.
unfoldable pub name_hash : List ℕ → ℕ
name_hash (a ∷ b ∷ c ∷ d ∷ rest) =
    bit_xor (a + b * 2 ^ 8 + c * 2 ^ 16 + d * 2 ^ 24) (name_hash rest)
name_hash _ = 0

-- The test of the loops of `hash_search` and `hash_erase`.
abbrev pub names_node : List ℕ → KeyValue → Bool
names_node name node = node.hash == name_hash name && strncmp_equal globalname_length node.key name

abbrev pub search_chain : List ℕ → List KeyValue → Option KeyValue
search_chain name [] = none
search_chain name (node ∷ nodes) =
    let rest = search_chain name nodes in if names_node name node then some node else rest

unfoldable pub hash_search : Map → List ℕ → Option KeyValue
unfolding strncmp_equal name_hash
hash_search hash name = search_chain name (hash (name_hash name % name_hash_size))

abbrev pub new_node : List ℕ → KeyValue
new_node name = record { key = name; hash = name_hash name; value = 0; queue = none }

-- `hash_insert`, in front of the chain.
unfoldable pub hash_insert : Map → List ℕ → Map
unfolding name_hash
hash_insert hash name =
    let i = name_hash name % name_hash_size in update hash i (new_node name ∷ hash i)

-- What an assignment through the pointer that `hash_search` or `hash_insert` returned does to the table.
abbrev pub set_chain : List ℕ → KeyValue → List KeyValue → List KeyValue
set_chain name node' [] = []
set_chain name node' (node ∷ nodes) =
    let rest = set_chain name node' nodes in
    if names_node name node then node' ∷ nodes else node ∷ rest

unfoldable pub hash_set : Map → List ℕ → KeyValue → Map
unfolding strncmp_equal name_hash
hash_set hash name node =
    let i = name_hash name % name_hash_size in update hash i (set_chain name node (hash i))

pub data Status : Type 0 where
  status_wait status_handshake status_header status_content status_down : Status

-- `struct slave`. The `int` fd is its 32 bits. The arrays `size` and `recv_buffer` are functions.
pub record Slave : Type 0 where
  pub fd : ℕ
  pub queue : Option MsgQueue
  pub status : Status
  pub length : ℕ
  pub read : ℕ
  pub size : ℕ → ℕ
  pub recv_buffer : ℕ → ℕ

-- `struct harbor`, less the context.
pub record Harbor : Type 0 where
  pub id : ℕ
  pub slave : ℕ
  pub map : Map
  pub s : ℕ → Slave

-- The calls of `ztask_send`, `ztask_socket_send`, `ztask_socket_close`, `ztask_socket_start` and
-- `ztask_error`.
pub data Action : Type 0 where
  send : (source : ℕ) → (destination : ℕ) → (kind : ℕ) → (session : ℕ) → (msg : List ℕ) → Action
  socket_send : (fd : ℕ) → (bytes : List ℕ) → Action
  socket_close : (fd : ℕ) → Action
  socket_start : (fd : ℕ) → Action
  report : Action

-- `harbor_create`
unfoldable pub harbor_create : Harbor
harbor_create = record {
  id = 0;
  slave = 0;
  map = λ i. [];
  s = λ i. record {
    fd = 0;
    queue = none;
    status = status_wait;
    length = 0;
    read = 0;
    size = λ j. 0;
    recv_buffer = λ j. 0;
  };
}

abbrev pub set_slave : ℕ → Slave → Harbor → Harbor
set_slave id slave h = record h { s = update h.s id slave }
