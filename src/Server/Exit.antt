-- ===== src/Server/Exit.antt =====
-- How a service ends, in ztask/ztask_server.c: `handle_exit`, for the commands EXIT and KILL.
use ztask.Base.{ℕ, ◌%◌, ◌^◌, List, [], ◌∷◌, Option, some, ◌==◌, if◌then◌else◌}
use ztask.Mq.Global.{◌>>=◌}
use ztask.Handle.{retire}
use ztask.Server.{Node, context_release, send}

abbrev pub ptype_client : ℕ
ptype_client = 3

-- `tohandle`, the handle that a command's parameter names: `strtoul` with base 16 and
-- `ztask_handle_findname` are arguments. 0 where it names none.
unfoldable pub tohandle : (List ℕ → ℕ) → (List ℕ → ℕ) → List ℕ → ℕ
tohandle strtoul findname [] = 0
tohandle strtoul findname (c ∷ param) =
    if c == 58 then strtoul param % 2 ^ 32 else if c == 46 then findname param else 0

module _ {Name : Type 0} where
  -- `ztask_handle_retire` on the node: the context is released after it has left the table.
  unfoldable pub retire_handle : ℕ → Node Name → Option (Node Name)
  unfolding retire context_release
  retire_handle handle n =
      let retired = retire (λ a. (n.context a).handle) handle n.storage in
      let n' = record n { storage = retired.1 } in
      if retired.0 == 0 then some n' else (do r ← context_release (retired.0) n'; some r.1)

  -- `handle_exit`; `monitor_exit` is that of `G_NODE`, `rmsg` and `rsize` are those of `send`.
  unfoldable pub handle_exit : ℕ → ℕ → ℕ → ℕ → ℕ → Node Name → Option (Node Name)
  unfolding retire_handle send
  handle_exit rmsg rsize monitor_exit context handle n = do
    let h = if handle == 0 then (n.context context).handle else handle
    told ←
        (if monitor_exit == 0 then some n else (do
          sent ← send 0 rmsg rsize context h monitor_exit ptype_client 0 0 0 n
          some sent.node))
    retire_handle h told
