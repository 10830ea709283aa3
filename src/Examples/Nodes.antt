-- ===== src/Examples/Nodes.antt =====
-- Concrete runs of the service of ztask/server/service_harbor.c.
use ztask.Base.{
  ℕ, zero, suc, ◌+◌, ◌*◌, ◌%◌, ◌^◌, ◌≡◌, refl, Bool, true, false, none, some, List, [], ◌∷◌, ◌++◌,
  arith, ap, length, take, drop, map,
}
use ztask.Harbor.{
  Header, HarborMsg, status_header, status_content, status_down, Harbor, harbor_create, set_slave,
  Action, socket_send, socket_close, socket_start, report, hash_search,
}
use ztask.Harbor.Wire.{to_bigendian, header_to_message, send_remote, sendbuf}
use ztask.Harbor.Service.{
  close_harbor, dispatch_queue, handshake, harbor_id, remote_send_handle, report_harbor_down,
  update_name, Outcome,
}
use ztask.Harbor.Data.{push_socket_data, data_loop, data_step, header_step}
use ztask.Harbor.Commands.{
  mainloop, connect_slave, harbor_command, from_socket, harbor_text, socket_data,
}
use ztask.Harbor.Content.{AllSmall, delivered}
use ztask.Harbor.Stream.{joined, sends, sent_bytes, feed, push_socket_data-send_remote}
use ztask.Harbor.Waiting.{Outgoing, send_all, carried, flushed, connect_slave-send_all}
use ztask.Harbor.Asking.{Named, waiting, ask_all, queries}
use ztask.Harbor.Names.{addressed, update_name-ask_all, connect_slave-ask_all}
use ztask.Harbor.Reached.{Reaches, started, handled, remote_send_handle_down}
use ztask.Harbor.Broken.{push_socket_data-large, push_socket_data-reconnected}

abbrev all_accepted : Action → Bool
all_accepted action = true

-- Node 1, whose master service is on itself.
abbrev node : Harbor
node = record harbor_create { id = 1; slave = 2 ^ 24 + 1 }

-- The connection of node 2 is open.
abbrev connected_node : Harbor
connected_node = set_slave 2 (record (node.s 2) { fd = 9; status = status_header }) node

connected_id : harbor_id connected_node 9 ≡ 2
unfolding harbor_id harbor_create
connected_id = refl

abbrev messages : List HarborMsg
messages =
    record {
      header = record { source = 2 * 2 ^ 24 + 3; destination = 10 * 2 ^ 24 + 5; session = 7 };
      buffer = 65 ∷ 66 ∷ [];
    }
    ∷ record {
      header = record { source = 4; destination = 0xFFFFFFFF; session = 2 ^ 31 };
      buffer = [];
    }
    ∷ []

abbrev whole : List ℕ
whole = sent_bytes (sends 4 messages)

-- Cut within the first length and within the first package.
abbrev parts : List (List ℕ)
parts = take 3 whole ∷ take 10 (drop 3 whole) ∷ drop 13 whole ∷ []

parts_whole : joined parts ≡ whole
unfolding send_remote
parts_whole = refl

messages-AllSmall : AllSmall messages
messages-AllSmall = ground arith

push_socket_data-send_remote_example :
    (h' : Harbor) × (feed all_accepted connected_node 9 parts
      ≡ some (h', delivered all_accepted 1 messages))
    × ((h'.s 2).status ≡ status_header)
    × ((h'.s 2).read ≡ 0)
unfolding harbor_create
push_socket_data-send_remote_example =
    push_socket_data-send_remote all_accepted connected_node 9 2 4 messages parts connected_id
      (omega arith) refl refl messages-AllSmall parts_whole

abbrev outgoing : List Outgoing
outgoing =
    record {
      source = 2 ^ 24 + 3;
      destination = 2 * 2 ^ 24 + 5;
      kind = 10;
      session = 7;
      msg = 65 ∷ [];
    }
    ∷ record { source = 2 ^ 24 + 4; destination = 2 * 2 ^ 24 + 6; kind = 1; session = 0; msg = [] }
    ∷ []

connect_slave-send_all_example :
    ((send_all node outgoing).1 ≡ [])
    × ((h' : Harbor) × (connect_slave (send_all node outgoing).0 false 9 2
          ≡ some (h', socket_start 9 ∷ socket_send 9 (1 ∷ []) ∷ flushed 9 (map carried outgoing)))
        × ((h'.s 2).queue ≡ none)
        × ((h'.s 2).fd ≡ 9)
        × ((h'.s 2).status ≡ status_header))
unfolding harbor_create
connect_slave-send_all_example =
    connect_slave-send_all node outgoing 2 9 [] (refl, (refl, tt)) (omega arith) (omega arith)
      (omega arith) (omega arith) (refl, refl, refl)

abbrev name : List ℕ
name = 100 ∷ 98 ∷ 0 ∷ 0 ∷ 0 ∷ 0 ∷ 0 ∷ 0 ∷ 0 ∷ 0 ∷ 0 ∷ 0 ∷ 0 ∷ 0 ∷ 0 ∷ 0 ∷ []

abbrev asked : Named
asked = record { source = 2 ^ 24 + 3; kind = 10; session = 7; msg = 65 ∷ [] }

no_name : hash_search node.map name ≡ none
unfolding harbor_create hash_search
no_name = refl

update_name-ask_all_example :
    ((ask_all connected_node name (asked ∷ asked ∷ [])).1
      ≡ queries connected_node name (asked ∷ asked ∷ []))
    × ((update_name (ask_all connected_node name (asked ∷ asked ∷ [])).0 name (2 * 2 ^ 24 + 5)).1
        ≡ flushed 9 (map (addressed (2 * 2 ^ 24 + 5)) (asked ∷ asked ∷ [])))
update_name-ask_all_example =
    update_name-ask_all connected_node name asked (asked ∷ []) (2 * 2 ^ 24 + 5) no_name
      (omega arith)

connect_slave-ask_all_example :
    (let named = update_name (ask_all node name (asked ∷ [])).0 name (2 * 2 ^ 24 + 5) in
      (named.1 ≡ [])
      × ((h' : Harbor) × (connect_slave named.0 false 9 2
            ≡ some (
              h',
              socket_start 9
                  ∷ socket_send 9 (named.0.id % 2 ^ 8 ∷ [])
                  ∷ flushed 9 (waiting asked ∷ []),
            ))))
unfolding harbor_create
connect_slave-ask_all_example =
    connect_slave-ask_all node name asked [] (2 * 2 ^ 24 + 5) 9 no_name (refl, refl, refl)
      (omega arith) (omega arith) (omega arith) (omega arith)

unfoldable zeros : ℕ → List ℕ
zeros zero = []
zeros (suc n) = 0 ∷ zeros n

length-zeros : (n : ℕ) → length (zeros n) ≡ n
unfolding zeros
length-zeros zero = refl
length-zeros (suc n) = ap suc (length-zeros n)

abbrev cookie : Header
cookie = record { source = 4; destination = 10 * 2 ^ 24 + 5; session = 7 }

push_socket_data-large_example :
    (send_remote 4 (zeros (2 ^ 24)) cookie ≡ socket_send 4 (sendbuf (zeros (2 ^ 24)) cookie))
    × ((h' : Harbor) × (push_socket_data all_accepted connected_node 9
            (to_bigendian (length (zeros (2 ^ 24)) + 12) ++ [])
          ≡ some (h', report ∷ socket_close 9 ∷ []))
        × ((h'.s 2).status ≡ status_down)
        × ((h'.s 2).queue ≡ none))
unfolding harbor_create
push_socket_data-large_example =
    push_socket_data-large all_accepted connected_node 9 4 2 (zeros (2 ^ 24)) cookie []
      (zeros (2 ^ 24) ++ header_to_message cookie) connected_id (omega arith) refl refl
      (omega arith) (omega (arith, length-zeros (2 ^ 24))) (omega (arith, length-zeros (2 ^ 24)))
      refl

-- The old connection of node 2 has read 10 bytes of a package.
abbrev reading_node : Harbor
reading_node =
    set_slave 2 (record (node.s 2) { fd = 9; status = status_content; length = 20; read = 10 }) node

push_socket_data-reconnected_example :
    (h' : Harbor) × (connect_slave (report_harbor_down reading_node 2).0 false 11 2
      ≡ some (h', socket_start 11 ∷ socket_send 11 (1 ∷ []) ∷ []))
    × (push_socket_data all_accepted h' 11 (0 ∷ []) ≡ none)
unfolding harbor_create harbor_id
push_socket_data-reconnected_example =
    push_socket_data-reconnected all_accepted reading_node 11 2 (0 ∷ []) (omega arith) (omega arith)
      (omega arith) refl refl (omega arith)

abbrev scanned : List ℕ → ℕ × ℕ
scanned text = (9, 2)

abbrev state_of : Outcome → Harbor
state_of none = harbor_create
state_of (some (h, actions)) = h

abbrev actions_of : Outcome → List Action
actions_of none = []
actions_of (some (h, actions)) = actions

-- "A 9 2"
abbrev opened : Outcome
opened = mainloop all_accepted scanned node (harbor_text (65 ∷ 32 ∷ 57 ∷ 32 ∷ 50 ∷ [])) 0 0

-- The length of a package that is too long.
abbrev closed : Outcome
closed =
    mainloop all_accepted scanned (state_of opened)
      (from_socket (socket_data 9 (1 ∷ 0 ∷ 0 ∷ 0 ∷ []))) 0 0

abbrev down_node : Harbor
down_node = state_of closed

opened-some : opened ≡ some (state_of opened, actions_of opened)
unfolding mainloop connect_slave dispatch_queue harbor_command harbor_create
opened-some = refl

closed-some : closed ≡ some (down_node, actions_of closed)
unfolding mainloop connect_slave dispatch_queue harbor_command harbor_create push_socket_data
    data_loop data_step header_step close_harbor harbor_id handshake
closed-some = refl

down_node-Reaches : Reaches all_accepted scanned down_node
down_node-Reaches =
    handled all_accepted scanned (state_of opened) down_node
      (from_socket (socket_data 9 (1 ∷ 0 ∷ 0 ∷ 0 ∷ []))) 0 0 (actions_of closed)
      (handled all_accepted scanned node (state_of opened)
        (harbor_text (65 ∷ 32 ∷ 57 ∷ 32 ∷ 50 ∷ [])) 0 0 (actions_of opened)
        (started all_accepted scanned 1 (2 ^ 24 + 1) node refl) opened-some)
      closed-some

down_node_status : (down_node.s 2).status ≡ status_down
unfolding mainloop connect_slave dispatch_queue harbor_command harbor_create push_socket_data
    data_loop data_step header_step close_harbor harbor_id handshake
down_node_status = refl

down_node_id : down_node.id ≡ 1
unfolding mainloop connect_slave dispatch_queue harbor_command harbor_create push_socket_data
    data_loop data_step header_step close_harbor harbor_id handshake
down_node_id = refl

remote_send_handle_down_example : remote_send_handle down_node 4 (2 * 2 ^ 24 + 5) 10 7 (65 ∷ []) ≡ (
  false,
  (
    down_node,
    send_remote (down_node.s 2).fd (65 ∷ []) (record {
      source = 4;
      destination = 10 * 2 ^ 24 % 2 ^ 32 + (2 * 2 ^ 24 + 5) % 2 ^ 24;
      session = 7;
    })
        ∷ [],
  ),
)
remote_send_handle_down_example =
    remote_send_handle_down all_accepted scanned down_node 4 (2 * 2 ^ 24 + 5) 10 7 (65 ∷ [])
      down_node-Reaches down_node_status (omega (arith, down_node_id))
