-- ===== src/Harbor/Names.antt =====
-- The messages of ztask/server/service_harbor.c for a name whose handle is not known yet.
use ztask.Base.{
  ℕ, ◌+◌, ◌*◌, ◌/◌, ◌%◌, ◌^◌, ◌<◌, ◌≡◌, ◌≢◌, refl, sym, ap, ◌∙◌, subst, true, false, Option, none,
  some, List, [], ◌∷◌, ◌++◌, append-nil, arith, map, ◌==◌, update_self,
}
use ztask.Harbor.{
  HarborMsg, MsgQueue, KeyValue, push_all, pop_all, hash_search, hash_set, Harbor, Action,
  socket_start, socket_send, remote_max,
}
use ztask.Harbor.Service.{
  is_down, update_name, update_node, found_or_new, dispatch_name_queue, send_named,
}
use ztask.Harbor.Ring.{contents-push_all, pop_all-contents}
use ztask.Harbor.Waiting.{Holds, Waits, flushed, connect_slave-Waits}
use ztask.Harbor.Commands.{connect_slave}
use ztask.Harbor.Asking.{Asked, Named, waiting, ask_all, queries, ask_all_new}

-- What `update_name` gives the node and the table.
abbrev given : Harbor → List ℕ → ℕ → KeyValue → KeyValue
given h name handle node = record node { value = handle; queue = none }

abbrev renamed : Harbor → List ℕ → ℕ → KeyValue → Harbor
renamed h name handle node = record h { map = hash_set h.map name (given h name handle node) }

-- `update_name` of a name that has a node.
update_found :
    (h : Harbor) (name : List ℕ) (handle : ℕ) (node : KeyValue)
    → hash_search h.map name ≡ some node
    → update_name h name handle ≡ elim (node.queue) [
      | none ↦ (renamed h name handle node, [])
      | some queue ↦
          dispatch_name_queue (renamed h name handle node) (given h name handle node) queue
    ]
unfolding update_name
update_found h name handle node found =
    ap (λ o. update_node h name handle (found_or_new h.map name o)) found

dispatch_connected :
    (h : Harbor) (node : KeyValue) (q : MsgQueue) (ms : List HarborMsg)
    → Holds (some q) ms
    → (h.s (node.value / 2 ^ 24)).fd ≢ 0
    → dispatch_name_queue h node q
      ≡ (h, map (send_named (h.s (node.value / 2 ^ 24)).fd node.value) ms)
unfolding dispatch_name_queue
dispatch_connected h node q ms (v, e) ne =
    let connected : ((h.s (node.value / 2 ^ 24)).fd == 0) ≡ false = ground arith in
    rw connected (
      ap (λ l. (h, map (send_named (h.s (node.value / 2 ^ 24)).fd node.value) l))
        (pop_all-contents q v ∙ e))

joined-Holds :
    (o : Option MsgQueue) (q : MsgQueue) (ms ns : List HarborMsg)
    → Holds o ms
    → Holds (some q) ns
    → Holds (some (elim o [ none ↦ q | some q' ↦ push_all q' (pop_all q) ])) (ms ++ ns)
joined-Holds none q ms ns e (v, held) = (v, held ∙ ap (λ l. l ++ ns) (sym e))
joined-Holds (some q') q ms ns (v', e) (v, held) =
    let pushed = contents-push_all q' (pop_all q) v' in
    (
      pushed.1,
      pushed.0 ∙ ap (λ l. l ++ pop_all q) e ∙ ap (λ l. ms ++ l) (pop_all-contents q v ∙ held),
    )

dispatch_waiting :
    (h : Harbor) (node : KeyValue) (q : MsgQueue) (ms ns : List HarborMsg)
    → Holds (some q) ns
    → Waits h (node.value / 2 ^ 24) ms
    → node.value / 2 ^ 24 ≢ h.slave / 2 ^ 24
    → ((dispatch_name_queue h node q).1 ≡ [])
      × Waits (dispatch_name_queue h node q).0 (node.value / 2 ^ 24) (ms ++ ns)
unfolding dispatch_name_queue
dispatch_waiting h node q ms ns held (fd, up, kept) ne =
    let id = node.value / 2 ^ 24 in
    let free : ((h.s (node.value / 2 ^ 24)).fd == 0) ≡ true = ground arith in
    let remote : (node.value / 2 ^ 24 == h.slave / 2 ^ 24) ≡ false = ground arith in
    let s' = record (h.s id) {
      queue = some (elim ((h.s id).queue) [ none ↦ q | some q' ↦ push_all q' (pop_all q) ]);
    } in
    rw (free, up, remote)
      (
        refl,
        subst (λ s. (s.fd ≡ 0) × (is_down s.status ≡ false) × Holds s.queue (ms ++ ns))
            (sym (update_self h.s id s')) (fd, up, joined-Holds (h.s id).queue q ms ns kept held),
      )

-- `update_name` of a name that was asked for, when its node is connected.
named_connected :
    (h : Harbor) (name : List ℕ) (handle : ℕ) (ms : List HarborMsg)
    → Asked h name ms
    → (h.s (handle / 2 ^ 24)).fd ≢ 0
    → (update_name h name handle).1 ≡ map (send_named (h.s (handle / 2 ^ 24)).fd handle) ms
named_connected h name handle ms (node, found, named, unset, held) ne =
    ap (λ o. o.1) (update_found h name handle node found) ∙ queued (node.queue) held
  where
    queued :
        (o : Option MsgQueue)
        → Holds o ms
        → (elim o as (λ _. Harbor × List Action) [
          | none ↦ (renamed h name handle node, [])
          | some queue ↦
              dispatch_name_queue (renamed h name handle node) (given h name handle node) queue
        ]).1
          ≡ map (send_named (h.s (handle / 2 ^ 24)).fd handle) ms
    queued none e = ap (map (send_named (h.s (handle / 2 ^ 24)).fd handle)) (sym e)
    queued (some q) e =
        ap (λ o. o.1)
          (dispatch_connected (renamed h name handle node) (given h name handle node) q ms e ne)

-- `update_name` of a name that was asked for, when its node is not connected.
named_waiting :
    (h : Harbor) (name : List ℕ) (handle : ℕ) (ms ns : List HarborMsg)
    → Asked h name ns
    → Waits h (handle / 2 ^ 24) ms
    → handle / 2 ^ 24 ≢ h.slave / 2 ^ 24
    → ((update_name h name handle).1 ≡ [])
      × Waits (update_name h name handle).0 (handle / 2 ^ 24) (ms ++ ns)
named_waiting h name handle ms ns (node, found, named, unset, held) w ne =
    subst (λ o. (o.1 ≡ []) × Waits o.0 (handle / 2 ^ 24) (ms ++ ns))
      (sym (update_found h name handle node found)) (queued (node.queue) held)
  where
    queued :
        (o : Option MsgQueue)
        → Holds o ns
        → ((elim o as (λ _. Harbor × List Action) [
          | none ↦ (renamed h name handle node, [])
          | some queue ↦
              dispatch_name_queue (renamed h name handle node) (given h name handle node) queue
        ]).1
            ≡ [])
          × Waits
              (elim o as (λ _. Harbor × List Action) [
                | none ↦ (renamed h name handle node, [])
                | some queue ↦
                    dispatch_name_queue
                      (renamed h name handle node)
                      (given h name handle node)
                      queue
              ]).0
              (handle / 2 ^ 24)
              (ms ++ ns)
    queued none e = (
      refl,
      subst (Waits h (handle / 2 ^ 24)) (sym (append-nil ms) ∙ ap (λ l. ms ++ l) (sym e)) w,
    )
    queued (some q) e =
        dispatch_waiting (renamed h name handle node) (given h name handle node) q ms ns e w ne

-- The message with the type and the low bits of the handle in its destination.
abbrev pub addressed : ℕ → Named → HarborMsg
addressed handle n = record {
  header = record {
    source = n.source;
    destination = n.kind * 2 ^ 24 % 2 ^ 32 + handle % 2 ^ 24;
    session = n.session;
  };
  buffer = n.msg;
}

all_addressed :
    (fd handle : ℕ) (ns : List Named)
    → map (send_named fd handle) (map waiting ns) ≡ flushed fd (map (addressed handle) ns)
all_addressed fd handle [] = refl
all_addressed fd handle (n ∷ ns) =
    ap (λ (l : List Action). send_named fd handle (waiting n) ∷ l) (all_addressed fd handle ns)

-- Messages for a name that no node has told yet are asked for, each with a query, and are kept; when the
-- name comes, with a handle of a node that is connected, they go out in order, each with the low bits of
-- the handle in its destination.
pub update_name-ask_all :
    (h : Harbor) (name : List ℕ) (n : Named) (ns : List Named) (handle : ℕ)
    → hash_search h.map name ≡ none
    → (h.s (handle / 2 ^ 24)).fd ≢ 0
    → ((ask_all h name (n ∷ ns)).1 ≡ queries h name (n ∷ ns))
      × ((update_name (ask_all h name (n ∷ ns)).0 name handle).1
          ≡ flushed (h.s (handle / 2 ^ 24)).fd (map (addressed handle) (n ∷ ns)))
update_name-ask_all h name n ns handle missing ne =
    let (quiet, a, s, slave) = ask_all_new h name n ns missing in
    let asked = (ask_all h name (n ∷ ns)).0 in
    let same : (asked.s (handle / 2 ^ 24)).fd ≡ (h.s (handle / 2 ^ 24)).fd =
      ap (λ t. (t (handle / 2 ^ 24)).fd) s in
    (
      quiet,
      named_connected asked name handle (map waiting (n ∷ ns)) a
            (subst (λ fd. fd ≢ 0) (sym same) ne)
          ∙ ap (λ fd. map (send_named fd handle) (map waiting (n ∷ ns))) same
          ∙ all_addressed (h.s (handle / 2 ^ 24)).fd handle (n ∷ ns),
    )

-- When the node of the handle is not connected yet, the messages wait with their low bits still 0, so
-- that they go out without the handle when the node connects ("A").
pub connect_slave-ask_all :
    (h : Harbor) (name : List ℕ) (n : Named) (ns : List Named) (handle fd : ℕ)
    → hash_search h.map name ≡ none
    → Waits h (handle / 2 ^ 24) []
    → handle / 2 ^ 24 ≢ h.slave / 2 ^ 24
    → 0 < handle / 2 ^ 24
    → handle / 2 ^ 24 < remote_max
    → fd ≢ 0
    → (let named = update_name (ask_all h name (n ∷ ns)).0 name handle in
        (named.1 ≡ [])
        × ((h' : Harbor) × (connect_slave named.0 false fd (handle / 2 ^ 24)
              ≡ some (
                h',
                socket_start fd
                    ∷ socket_send fd (named.0.id % 2 ^ 8 ∷ [])
                    ∷ flushed fd (map waiting (n ∷ ns)),
              ))))
connect_slave-ask_all h name n ns handle fd missing w ne low high some_fd =
    let (quiet, a, s, slave) = ask_all_new h name n ns missing in
    let asked = (ask_all h name (n ∷ ns)).0 in
    let same : (asked.s (handle / 2 ^ 24)) ≡ (h.s (handle / 2 ^ 24)) =
      ap (λ t. t (handle / 2 ^ 24)) s in
    let (none_sent, w') =
      named_waiting asked name handle [] (map waiting (n ∷ ns)) a
        (subst (λ t. (t.fd ≡ 0) × (is_down t.status ≡ false) × Holds t.queue []) (sym same) w)
        (subst (λ n'. handle / 2 ^ 24 ≢ n' / 2 ^ 24) (sym slave) ne) in
    let (h', done, rest, fd', st) =
      connect_slave-Waits (update_name asked name handle).0 (handle / 2 ^ 24) fd
        (map waiting (n ∷ ns)) low high some_fd w' in
    (none_sent, (h', done))
