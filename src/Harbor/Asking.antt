-- ===== src/Harbor/Asking.antt =====
-- The questions for names of ztask/server/service_harbor.c, and the messages that wait for the answer.
use ztask.Base.{
  ℕ, ◌*◌, ◌%◌, ◌^◌, ◌≡◌, refl, sym, ap, ◌∙◌, subst, true, none, some, List, [], ◌∷◌, ◌++◌,
  append_assoc, append-nil, arith, map, ◌==◌,
}
use ztask.Harbor.{
  HarborMsg, KeyValue, push_queue, push_queue_msg, new_queue, new_node, hash_search, hash_insert,
  hash_set, names_node, Harbor, Action, send,
}
use ztask.Harbor.Service.{remote_send_name, found_or_new, send_to_node, type_text, until_zero}
use ztask.Harbor.Hash.{names_node_self, hash_search-hash_insert, hash_search-hash_set}
use ztask.Harbor.Waiting.{Holds, pushed-Holds}

-- The table has a node of the name, without a handle, whose queue holds the messages.
abbrev pub Asked : Harbor → List ℕ → List HarborMsg → Type 0
Asked h name ms =
    (node : KeyValue) × (hash_search h.map name ≡ some node)
    × (names_node name node ≡ true)
    × (node.value ≡ 0)
    × Holds node.queue ms

-- The arguments of `remote_send_name` but for the name.
pub record Named : Type 0 where
  pub source : ℕ
  pub kind : ℕ
  pub session : ℕ
  pub msg : List ℕ

-- The message as it waits: the low bits of its destination are 0.
abbrev pub waiting : Named → HarborMsg
waiting n = record {
  header = record {
    source = n.source;
    destination = n.kind * 2 ^ 24 % 2 ^ 32;
    session = n.session;
  };
  buffer = n.msg;
}

abbrev pub query : Harbor → List ℕ → Action
query h name = send 0 h.slave type_text 0 (81 ∷ 32 ∷ until_zero name)

-- A name that is not known yet is asked for with each message, and the message waits in the node of the name.
ask_found :
    (h : Harbor) (name : List ℕ) (n : Named) (ms : List HarborMsg)
    → Asked h name ms
    → (h' : Harbor) × (remote_send_name h n.source name n.kind n.session n.msg
        ≡ (true, (h', query h name ∷ [])))
      × Asked h' name (ms ++ waiting n ∷ [])
      × (h'.s ≡ h.s)
      × (h'.slave ≡ h.slave)
      × (h'.id ≡ h.id)
unfolding remote_send_name push_queue
ask_found h name n ms (node, found, named, unset, held) =
    let unset' : (node.value == 0) ≡ true = ground arith in
    let q' = push_queue_msg (elim (node.queue) [ none ↦ new_queue | some q ↦ q ]) (waiting n) in
    let node' = record node { queue = some q' } in
    (
      record h { map = hash_set h.map name node' },
      ap (λ o. send_to_node h n.source name n.kind n.session n.msg (found_or_new h.map name o))
            found
          ∙ rw unset' refl,
      (
        node',
        hash_search-hash_set h.map name node' node named found,
        named,
        unset,
        pushed-Holds node.queue ms (waiting n) held,
      ),
      refl,
      refl,
      refl,
    )

ask_new :
    (h : Harbor) (name : List ℕ) (n : Named)
    → hash_search h.map name ≡ none
    → (h' : Harbor) × (remote_send_name h n.source name n.kind n.session n.msg
        ≡ (true, (h', query h name ∷ [])))
      × Asked h' name (waiting n ∷ [])
      × (h'.s ≡ h.s)
      × (h'.slave ≡ h.slave)
      × (h'.id ≡ h.id)
unfolding remote_send_name push_queue
ask_new h name n missing =
    let q' = push_queue_msg new_queue (waiting n) in
    let node' = record (new_node name) { queue = some q' } in
    let named : names_node name node' ≡ true = names_node_self name node' refl refl in
    (
      record h { map = hash_set (hash_insert h.map name) name node' },
      ap (λ o. send_to_node h n.source name n.kind n.session n.msg (found_or_new h.map name o))
          missing,
      (
        node',
        hash_search-hash_set (hash_insert h.map name) name node' (new_node name) named
            (hash_search-hash_insert h.map name),
        named,
        refl,
        pushed-Holds none [] (waiting n) refl,
      ),
      refl,
      refl,
      refl,
    )

-- The calls of `remote_send_name` for a name, one after the other.
abbrev pub ask_all : Harbor → List ℕ → List Named → Harbor × List Action
ask_all h name [] = (h, [])
ask_all h name (n ∷ ns) =
    let sent = (remote_send_name h n.source name n.kind n.session n.msg).1 in
    let rest = ask_all sent.0 name ns in (rest.0, sent.1 ++ rest.1)

-- A question for each message.
abbrev pub queries : Harbor → List ℕ → List Named → List Action
queries h name ns = map (λ n. query h name) ns

ask_all_found :
    (h : Harbor) (name : List ℕ) (ns : List Named) (ms : List HarborMsg)
    → Asked h name ms
    → ((ask_all h name ns).1 ≡ queries h name ns)
      × Asked (ask_all h name ns).0 name (ms ++ map waiting ns)
      × ((ask_all h name ns).0.s ≡ h.s)
      × ((ask_all h name ns).0.slave ≡ h.slave)
ask_all_found h name [] ms a = (refl, subst (Asked h name) (sym (append-nil ms)) a, refl, refl)
ask_all_found h name (n ∷ ns) ms a =
    let (h', sent, a', s, slave, id) = ask_found h name n ms a in
    let (quiet, a'', s', slave') = ask_all_found h' name ns (ms ++ waiting n ∷ []) a' in
    rw sent (
      ap (λ (l : List Action). query h name ∷ l)
          (quiet
            ∙ ap (λ to. map (λ n'. send 0 to type_text 0 (81 ∷ 32 ∷ until_zero name)) ns) slave),
      subst (Asked (ask_all h' name ns).0 name) (append_assoc ms (waiting n ∷ []) (map waiting ns))
          a'',
      s' ∙ s,
      slave' ∙ slave,
    )

pub ask_all_new :
    (h : Harbor) (name : List ℕ) (n : Named) (ns : List Named)
    → hash_search h.map name ≡ none
    → ((ask_all h name (n ∷ ns)).1 ≡ queries h name (n ∷ ns))
      × Asked (ask_all h name (n ∷ ns)).0 name (map waiting (n ∷ ns))
      × ((ask_all h name (n ∷ ns)).0.s ≡ h.s)
      × ((ask_all h name (n ∷ ns)).0.slave ≡ h.slave)
ask_all_new h name n ns missing =
    let (h', sent, a, s, slave, id) = ask_new h name n missing in
    let (quiet, a', s', slave') = ask_all_found h' name ns (waiting n ∷ []) a in
    rw sent (
      ap (λ (l : List Action). query h name ∷ l)
          (quiet
            ∙ ap (λ to. map (λ n'. send 0 to type_text 0 (81 ∷ 32 ∷ until_zero name)) ns) slave),
      a',
      s' ∙ s,
      slave' ∙ slave,
    )
