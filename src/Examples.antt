-- ===== src/Examples.antt =====
-- Tests and concrete instances of the theorems about ztask/ztask_mq.c, ztask/ztask_timer.c,
-- ztask/ztask_handle.c, ztask/ztask_server.c, ztask/ztask_monitor.c and
-- ztask/lualib/lua-netpack.c.
pub mod Queues
pub mod Timers
pub mod Handles
pub mod Messages
pub mod Streams
pub mod Values
pub mod Names
pub mod Nodes
pub mod Multicast
pub mod Cluster
pub mod Crypt
