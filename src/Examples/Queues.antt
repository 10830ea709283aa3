-- ===== src/Examples/Queues.antt =====
-- Concrete message queues of ztask/ztask_mq.c.
use ztask.Base.{
  ℕ, ◌≡◌, ◌≢◌, refl, true, false, ◌&&◌, ◌||◌, some, List, [], ◌∷◌, ◌++◌, arith, length, ◌≤◌, ltb,
  if◌then◌else◌, update, ◌+◌,
}
use ztask.Base.Ring.{window}
use ztask.Mq.{Message, MessageQueue, create, push, pop, mq_length}
use ztask.Mq.Ring.{contents, contents-push, create-IsValid, push-IsValid, Pops, pop-Pops}
use ztask.Mq.Overload.{pop_overload}
use ztask.Mq.Global.{init, mq_create, mq_push, drop_all}
use ztask.Mq.Global.Chain.{Linked, has}
use ztask.Mq.Global.Release.{drop_all-contents}
use ztask.Mq.Global.Runs.{State, creates, sends, Reach, here, next, start, hold, pending_scheduled}

abbrev hello : Message
hello = record { source = 1; session = 2; payload = 3; sz = 4 }

abbrev one_message : MessageQueue
one_message = push (create 7) hello

contents-push_example : contents (push (create 7) hello) ≡ contents (create 7) ++ some hello ∷ []
contents-push_example = contents-push (create 7) hello (create-IsValid 7)

pop-Pops_example : Pops (contents one_message) one_message
pop-Pops_example = pop-Pops one_message (push-IsValid (create 7) hello (create-IsValid 7))

drop_all-contents_example : drop_all (mq_length one_message + 1) one_message ≡ contents one_message
drop_all-contents_example =
    drop_all-contents one_message (push-IsValid (create 7) hello (create-IsValid 7))

-- The threshold of a queue is 1024, so one message is no overload.
pop_overload_example :
    let after = (pop one_message).2 in
    let left = length (contents after) in
    (left ≤ after.overload_threshold)
    × (one_message.overload_threshold ≤ after.overload_threshold)
    × (after.overload
        ≡ (if ltb one_message.overload_threshold left then left else one_message.overload))
unfolding create push pop
pop_overload_example =
    pop_overload one_message (push-IsValid (create 7) hello (create-IsValid 7)) (omega arith) refl

-- A queue is created, and gets a message.
abbrev created : State
created = hold 1 true (mq_create 1 7 init) start

abbrev pushed : State
pushed = record {
  queues = record { mem = update created.queues.mem 1 (some one_message); head = 0; tail = 0 };
  held = created.held;
}

run : Reach start pushed
unfolding init mq_create mq_push create push
run =
    next (next here (creates 1 7 (λ e. omega arith) refl)) (sends 1 hello (create 7) refl refl refl)

one_message-contents : contents one_message ≢ []
unfolding contents create push mq_length window
one_message-contents e = cc

pending_scheduled_example :
    (xs : List ℕ) × Linked pushed.queues xs
    × ((has 1 xs || pushed.held 1) ≡ true)
    × ((has 1 xs && pushed.held 1) ≡ false)
unfolding init mq_create
pending_scheduled_example = pending_scheduled 1 one_message run refl one_message-contents
