-- ===== src/Examples/Messages.antt =====
-- Concrete messages, sessions and checks of ztask/ztask_server.c and ztask/ztask_monitor.c.
use ztask.Base.{
  ℕ, ◌+◌, ◌*◌, ◌/◌, ◌%◌, ◌^◌, ◌≡◌, refl, Bool, ◌||◌, none, some, arith, if◌then◌else◌, ◌==◌, List,
  [], ◌∷◌, ◌++◌, update,
}
use ztask.Mq.{Message, MessageQueue, create}
use ztask.Mq.Ring.{contents}
use ztask.Mq.Global.{mq_create, init}
use ztask.Mq.Global.Chain.{has}
use ztask.Mq.Global.Held.{Inv}
use ztask.Mq.Global.Runs.{Good, hold, start, create-Good, start-Good}
use ztask.Handle.{HandleStorage, grab}
use ztask.Server.{Node, send, isremote, alloc_session, dont_copy, set_context}
use ztask.Server.Send.{send_delivers, send_no_service, copied}
use ztask.Server.Dispatch.{dispatch_message, dispatch_message-sent}
use ztask.Monitor.{Monitor, trigger, check}
use ztask.Monitor.Check.{triggers, second_check}

abbrev working : Monitor
working = record { version = 5; check_version = 4; source = 1; destination = 2 }

second_check_example :
    (let begun = trigger 3 7 working in
      ((check (check begun).1).0 ≡ some 7)
      × ((check (triggers ((0, 0) ∷ []) (check begun).1)).0 ≡ none))
second_check_example = second_check working 3 7 ((0, 0) ∷ []) (omega arith) (omega arith)

-- One service, at the address 5, with the handle 1 and the queue at the address 9.
abbrev table : HandleStorage ℕ
table = record {
  harbor = 0;
  handle_index = 2;
  slot_size = 4;
  slot = λ i. if i == 1 then 5 else 0;
  name_cap = 2;
  name_count = 0;
  name = λ i. record { text = 0; handle = 0 };
}

abbrev one_service : Node ℕ
one_service = record {
  total = 1;
  context = λ a. record {
    handle = a / 5;
    session_id = 0;
    ref = 1;
    queue = 9;
    endless = Bool.false;
    init = Bool.true;
    message_count = 0;
  };
  storage = table;
  global = mq_create 9 1 init;
  harbor = 0;
  remote = 0;
  rmsg = λ a. none;
}

abbrev question : Message
question = record { source = 8; session = 3; payload = 77; sz = 10 + 0 % 2 ^ 8 * 2 ^ 56 }

-- The queue of the service is new, and the code that creates the service holds it.
abbrev creating : ℕ → Bool
creating = update (λ a. Bool.false) 9 Bool.true

creating-Good : Good (hold 9 Bool.true (mq_create 9 1 init) start)
unfolding init
creating-Good = create-Good start 9 1 (λ e. omega arith) refl start-Good

send_delivers_example :
    (n' : Node ℕ) × (xs' : List ℕ) × (q' : MessageQueue) × (send 77 88 48 5 8 1 0 3 66 10
        one_service
      ≡ some (record { ret = some 3; freed = []; node = n' }))
    × (n'.global.mem 9 ≡ some q')
    × (contents q' ≡ contents (create 1) ++ some question ∷ [])
    × ((has 9 xs' || creating 9) ≡ Bool.true)
    × Inv n'.global xs' creating
    × ((n'.context 5).ref ≡ (one_service.context 5).ref)
unfolding isremote alloc_session grab mq_create dont_copy init create
send_delivers_example =
    send_delivers one_service 77 88 48 5 8 1 0 3 66 10 (omega arith) (λ e. omega arith) refl
      (λ e. omega arith) refl 5 creating-Good.0 creating (create 1) refl (λ e. omega arith)
      (omega arith) creating-Good.1 refl refl

send_no_service_example :
    send 77 88 48 5 8 2 0 3 66 10 one_service
    ≡ some (record { ret = none; freed = copied one_service 77 0 66 ∷ []; node = one_service })
unfolding isremote alloc_session grab
send_no_service_example =
    send_no_service one_service 77 88 48 5 8 2 0 3 66 10 (omega arith) (λ e. omega arith) refl
      (λ e. omega arith) refl refl

-- A callback that keeps nothing and changes nothing.
abbrev ignore : ℕ → ℕ → ℕ → ℕ → ℕ → ℕ → Node ℕ → Bool × Node ℕ
ignore ctx ptype session source payload sz n = (Bool.false, n)

dispatch_message-sent_example :
    let counted = set_context one_service 5 (record (one_service.context 5) {
      message_count = (one_service.context 5).message_count + 1;
    }) in
    let called = ignore 5 (1 % 2 ^ 8) 3 8 77 10 counted in
    (n' : Node ℕ) × (q' : MessageQueue) × (msg : Message) × (send 77 88 48 5 8 1 1 3 66 10
        one_service
      ≡ some (record { ret = some 3; freed = []; node = n' }))
    × (n'.global.mem 9 ≡ some q')
    × (contents q' ≡ contents (create 1) ++ some msg ∷ [])
    × (dispatch_message (λ a. Bool.true) ignore 5 msg one_service
        ≡ some (if called.0 then [] else 77 ∷ [], called.1))
unfolding isremote alloc_session grab mq_create dont_copy init create
dispatch_message-sent_example =
    dispatch_message-sent (λ a. Bool.true) ignore 77 88 48 5 8 1 1 3 66 10 one_service (omega arith)
      (λ e. omega arith) refl (λ e. omega arith) refl 5 creating-Good.0 creating (create 1) refl
      (λ e. omega arith) (omega arith) creating-Good.1 refl refl one_service refl
