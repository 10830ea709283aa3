-- ===== src/Lib.antt =====
-- ZTask is an actor framework in C. A service is a context with a handle and a queue of messages.
-- Worker threads take a queue from a global list, give its messages to the service, and put the queue
-- back; timers, other services and sockets put messages into queues. This library models that core.
--
-- Mq (ztask/ztask_mq.c): `create`, `pop`, `push`, `mq_length` and `read_overload` are ztask_mq_create,
--   ztask_mq_pop, ztask_mq_push, ztask_mq_length and ztask_mq_overload on one queue. Mq.Global adds the
--   global list: memory is a function from addresses to queues, 0 is NULL, and a failed assertion or a
--   dangling pointer is `none`. Mq.Global.Runs has one step for each call that a worker, a sender or
--   the deletion of a service makes, in any order.
-- Timer (ztask/ztask_timer.c): the wheel with its four far levels; Timer.Api has ztask_timeout
--   and ztask_updatetime. The clocks' readings are arguments. `shift_loop` has fuel 4, one round for
--   each level; `find_level` has the 3 rounds of its loop. ztask_timeout_del, which gives the lock up
--   during its search, is not modelled.
-- Handle (ztask/ztask_handle.c): the table of handles and the table of names. The `handle` field of
--   the contexts is the function `handle_of`; `strcmp` is a parameter, and Handle.Names.Orders is what
--   the C library promises of it. The search of a name has one round for each name, which is enough. `register` has fuel for its
--   `for (;;)`, and two rounds are enough.
-- Server (ztask/ztask_server.c, ztask/ztask_harbor.c): references, sessions and the ways to send. It
--   uses Mq.Global and Handle. Addresses of new blocks are arguments.
--   Server.Dispatch has what a worker does with a queue, with the service's callback as a parameter;
--   its loop has one round for each message that the weight allows. Server.Text has the texts of
--   handles and names, Server.Exit the end of a service.
-- Harbor (ztask/server/service_harbor.c): the service that connects a node with the others. Harbor has its
--   records, the queues and the table of names, Harbor.Wire the packages, Harbor.Service the handlers
--   of messages and names, Harbor.Data push_socket_data, Harbor.Commands the commands, mainloop,
--   harbor_init and harbor_release. A slave's `size` and `recv_buffer` are functions from indices; what
--   a handler calls outside is the list of its actions, without the texts of its error reports; `none`
--   is an access outside of an array, a copy of a negative size, or a failed assertion. The results of
--   ztask_send (`accepts`) and sscanf (`scan`) are parameters; while the data of one socket message is
--   handled, equal calls of ztask_send have equal results. The loop of push_socket_data has fuel two
--   above the length of the data, enough as the theorem about it shows; `pop_all` has the size of the
--   ring. hash_erase, which nothing calls, and the freeing of memory are left out.
-- Monitor (ztask/ztask_monitor.c): the worker's monitor.
-- Netpack (ztask/lualib/lua-netpack.c): the packages of a byte stream. `push_more` has the length of
--   the buffer as fuel, and each round reads at least one byte.
-- Seri (ztask/lualib/lua-seri.c): values of Lua packed into the bytes of a message and read back.
--   `Value` is what the code asks Lua about a value; the chain of blocks is the list of the full ones
--   and the current one. Seri.Format says the format without the blocks. `wb_fill` has fuel one above
--   the length of what is pushed; `luaseri_unpack` has three rounds for a byte and two more, and
--   Seri.Total shows that they are enough. Where luaL_error is called the result is `none` or
--   `invalid`. A NaN as a key, for which Lua itself raises an error, is not treated.
-- Cluster (ztask/lualib/lua-cluster.c): requests and responses between nodes. `packreq_multi` and
--   `response_parts` have one round for each part, as their loops. Cluster.Receive and
--   Cluster.Response have a receiver that puts the unpacking and `lconcat` together, as the Lua
--   service of the cluster does; the sizes of the packages are those that the gate (Netpack) reads.
-- Crypt (ztask/lualib/lua-crypt.c): the exchange of keys, the hexadecimal texts (Crypt.Hex), and
--   the base64 texts (Crypt.Base64), whose decoding has the length of the text as fuel; each round reads four characters at least. The loop
--   of mul_mod_p and the recursion of pow_mod_p have fuel 64, enough for numbers of 64 bits, which
--   the theorem shows. DES and the hashes are not modelled.
-- Multicast (ztask/lualib/lua-multicast.c): the packages that many services share. Memory is a function
--   from addresses; the addresses of new blocks are arguments, and the use of freed memory is `none`.
-- Base has what these share: Boolean tests on the native numbers, lists, machine words, and the ring
--   buffer that Mq, Netpack and Harbor use (Base.Ring). Examples has the concrete instances.
--
-- A function that holds a lock from its first access to its last is one step; the locks are not
-- modelled. ztask_handle_retireall takes its lock for one slot at a time: `retire_all` is a run of it
-- during which no other thread registers or retires a handle. Lengths and indices that are `int` in
-- Seri, Crypt.Hex and Crypt.Base64 are natural numbers here, faithful up to 2^31; the theorems
-- that need it say so in their conditions. 32-bit numbers wrap by `%`, and `|` and `&` with masks of the form 2^k - 1 are written by
-- division and remainder. Not modelled: the sockets and the operating system, the loading of modules,
-- the other Lua bindings, the text commands, and the copies of other projects under third_party.
pub mod Base
pub mod Mq
pub mod Timer
pub mod Handle
pub mod Harbor
pub mod Multicast
pub mod Netpack
pub mod Seri
pub mod Cluster
pub mod Crypt
pub mod Server
pub mod Monitor
pub mod Examples
