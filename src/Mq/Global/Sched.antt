-- ===== src/Mq/Global/Sched.antt =====
-- Scheduling in ztask/ztask_mq.c and the workers of ztask/ztask_server.c: a queue with messages is
-- always on the global queue or with a worker, and never twice.
use ztask.Base.{
  ℕ, ◌≡◌, refl, sym, ap, ◌∙◌, ◌≢◌, inl, inr, Bool, true, false, ◌||◌, Option, none, some, List, [],
  ◌∷◌, ◌++◌, arith, ◌==◌, if◌then◌else◌, update, Bool-cases, ==_iff,
}
use ztask.Mq.{Message, MessageQueue, push, pop, mq_length}
use ztask.Mq.Ring.{contents, push-IsValid, pop-IsValid, contents-push, pop-Pops, Pops}
use ztask.Mq.Global.{Global, globalmq_push, globalmq_pop, mq_push, mq_pop, store}
use ztask.Mq.Global.Chain.{has, same_but_next, globalmq_pop-Linked, Chain-update}
use ztask.Mq.Global.Held.{
  IsScheduled, Inv, IsScheduled-same, IsScheduled-eq, has-snoc, enqueue-Inv, store-Inv, Inv-held,
  push_flags, pop_flags,
}

-- What is known of a live queue.
pub at_queue :
    {g : Global} {xs : List ℕ} {held : ℕ → Bool} (p : ℕ) (q : MessageQueue)
    → Inv g xs held
    → g.mem p ≡ some q
    → IsScheduled (some q) (has p xs) (held p)
at_queue p q v at = IsScheduled-eq (sym at) refl refl (v.each p)

-- A change at `p` is none elsewhere.
pub elsewhere :
    {g : Global} {xs : List ℕ} {held : ℕ → Bool} (p : ℕ) (q : MessageQueue)
    → Inv g xs held
    → (a : ℕ) → a ≢ p
    → IsScheduled ((store g p q).mem a) (has a xs) (held a)
elsewhere {g} p q v a ne = IsScheduled-eq {o = g.mem a} (ground arith) refl refl (v.each a)

-- A queue off the list is changed and then put at its back.
pub store_enqueue-Inv :
    (g : Global) (xs : List ℕ) (held : ℕ → Bool) (p : ℕ) (q q' : MessageQueue)
    → Inv g xs held
    → g.mem p ≡ some q
    → has p xs ≡ false
    → IsScheduled (some q') true false
    → q'.next ≡ 0
    → (g' : Global) × (globalmq_push p (store g p q') ≡ some g')
      × Inv g' (xs ++ p ∷ []) (update held p false)
      × (g'.mem p ≡ some q')
store_enqueue-Inv g xs held p q q' v at off ok ends =
    enqueue-Inv (store g p q') xs held p q'
      (record {
        chain = Chain-update g.mem p (some q') g.head xs off v.linked.chain;
        last = v.linked.last;
      })
      (ground (arith, v.null)) (λ a ne. elsewhere p q' v a ne) (ground arith) off ok ends

module _ (g : Global) (xs : List ℕ) (held : ℕ → Bool) (p : ℕ) (q : MessageQueue) (m : Message)
    (v : Inv g xs held) (at : g.mem p ≡ some q) (live : q.release ≡ false) where
  -- What a push promises of the memory `g'`, the list `xs'` and the queue `q'` after it.
  abbrev pub Pushed : Global → List ℕ → MessageQueue → Type 0
  Pushed g' xs' q' =
      (mq_push p m g ≡ some g')
      × Inv g' xs' held
      × (g'.mem p ≡ some q')
      × (contents q' ≡ contents q ++ some m ∷ [])
      × ((has p xs' || held p) ≡ true)
      × (xs' ≡ (if has p xs || held p then xs else xs ++ p ∷ []))

  push_busy : q.in_global ≡ true → Pushed (store g p (push q m)) xs (push q m)
  unfolding mq_push
  push_busy busy =
      let (flag, one, next, idle, valid) = at_queue p q v at in
      let (n, f, r) = push_flags q m in
      let on : (has p xs || held p) ≡ true = ground arith in
      (
        rw (at, f, busy),
        store-Inv g xs held held p q (push q m) v at n (λ a ne. refl)
            (
              ground arith,
              one,
              λ o. n ∙ next o,
              λ i. absurd (cc (sym busy ∙ sym f ∙ i)),
              push-IsValid q m valid,
            ),
        ground arith,
        contents-push q m valid,
        on,
        rw on,
      )

  abbrev flagged : MessageQueue
  flagged = record (push q m) { in_global = true }

  push_idle : q.in_global ≡ false → (g' : Global) × Pushed g' (xs ++ p ∷ []) flagged
  unfolding mq_push contents mq_length
  push_idle idle =
      let (flag, one, next, _, valid) = at_queue p q v at in
      let (n, f, r) = push_flags q m in
      let off : has p xs ≡ false = ground arith in
      let free : held p ≡ false = ground arith in
      let w = push-IsValid q m valid in
      let unset : (push q m).in_global ≡ false = f ∙ idle in
      let (g', run, v', at') =
        store_enqueue-Inv g xs held p q flagged v at off
          (
            refl,
            refl,
            λ x. absurd (cc x),
            λ x. absurd (cc x),
            record { head_in = w.head_in; tail_in = w.tail_in },
          )
          (n ∙ next off) in
      (
        g',
        (
          rw (at, unset) run,
          Inv-held (update held p false) held (λ a. ground arith) v',
          at',
          contents-push q m valid,
          ground (arith, has-snoc p p xs),
          rw (off, free),
        ),
      )

  -- `ztask_mq_push` to a queue that is not marked for release succeeds, appends the message, keeps
  -- the invariant, and leaves the queue scheduled: it is put at the back of the global queue,
  -- unless it is there already or a worker has it.
  pub mq_push-Inv : (g' : Global) × (xs' : List ℕ) × (q' : MessageQueue) × Pushed g' xs' q'
  mq_push-Inv = elim (Bool-cases q.in_global) [
    | inl busy ↦ (store g p (push q m), xs, push q m, push_busy busy)
    | inr idle ↦ let (g', h) = push_idle idle in (g', xs ++ p ∷ [], flagged, h)
  ]

IsScheduled-taken :
    (o : Option MessageQueue) (q : MessageQueue) (held : Bool)
    → same_but_next (some q) ≡ same_but_next o
    → q.next ≡ 0
    → IsScheduled o true held
    → IsScheduled (some q) false true
IsScheduled-taken none q held e ends h = absurd (cc e)
IsScheduled-taken (some r) q held e ends h =
    let (flag, one, next, idle, valid) = IsScheduled-same (some r) (some q) held e h in
    (flag, refl, λ _. ends, idle, valid)

-- `ztask_globalmq_pop` on a global queue that is not empty succeeds, hands the first queue to the
-- caller, who then holds it, and keeps the invariant.
pub take-Inv :
    (g : Global) (x : ℕ) (xs : List ℕ) (held : ℕ → Bool)
    → Inv g (x ∷ xs) held
    → (g' : Global) × (globalmq_pop g ≡ some (x, g')) × Inv g' xs (update held x true)
take-Inv g x xs held v =
    let (g', run, l', same, (q, at, ends), others) = globalmq_pop-Linked g x xs v.linked in
    let (e, nz, fresh, rest) = v.linked.chain in
    (
      g',
      run,
      record {
        linked = l';
        each = λ a. elim (Bool-cases (a == x)) [
          | inl hit ↦
              let here : a ≡ x = (==_iff a x).0 hit in
              IsScheduled-eq (ap g'.mem here ∙ at) (ap (λ b. has b xs) here ∙ fresh) (rw hit) (
                IsScheduled-taken (g.mem x) q (held x) (sym (ap same_but_next at) ∙ same x) ends
                  (IsScheduled-eq refl (ground arith) refl (v.each x)))
          | inr miss ↦
              IsScheduled-eq {on = has a (x ∷ xs)} (others a (ground arith)) (rw miss) (rw miss)
                (v.each a)
        ];
        null = others 0 (λ z. nz (sym z)) ∙ v.null;
      },
    )

-- A worker that gives a queue back with `ztask_globalmq_push` puts it last.
pub put_back-Inv :
    (g : Global) (xs : List ℕ) (held : ℕ → Bool) (p : ℕ) (q : MessageQueue)
    → Inv g xs held
    → g.mem p ≡ some q
    → held p ≡ true
    → (g' : Global) × (globalmq_push p g ≡ some g') × Inv g' (xs ++ p ∷ []) (update held p false)
put_back-Inv g xs held p q v at has_it =
    let (flag, one, next, idle, valid) = at_queue p q v at in
    let off : has p xs ≡ false = ground arith in
    let (g', run, v', _) =
      enqueue-Inv g xs held p q v.linked v.null (λ a _. v.each a) at off
        (ground arith, refl, λ x. absurd (cc x), idle, valid) (next off) in
    (g', run, v')

emptied :
    (q : MessageQueue) (l : List (Option Message))
    → Pops l q
    → ((pop q).0 == 0) ≡ false
    → contents (pop q).2 ≡ []
emptied q [] h e = h.1
emptied q (x ∷ l) h e = absurd (ground (arith, h.0))

pop-IsScheduled :
    (q : MessageQueue) (on held : Bool)
    → IsScheduled (some q) on held
    → held ≡ true
    → q.release ≡ false
    → IsScheduled (some (pop q).2) on ((pop q).0 == 0)
pop-IsScheduled q on held (flag, one, next, idle, valid) has_it live =
    let (n, r, g) = pop_flags q in
    let off : on ≡ false = ground arith in
    elim (Bool-cases ((pop q).0 == 0)) [
      | inl got ↦
          rw (off, got)
            (ground arith, refl, λ _. n ∙ next off, λ i. absurd (ground arith), pop-IsValid q valid)
      | inr end ↦
          rw (off, end)
            (
              ground arith,
              refl,
              λ _. n ∙ next off,
              λ _. emptied q (contents q) (pop-Pops q valid) end,
              pop-IsValid q valid,
            )
    ]

-- `ztask_mq_pop` by the worker that holds the queue: if the queue was empty the worker loses it,
-- and no other case; otherwise the worker gets the oldest message.
pub mq_pop-Inv :
    (g : Global) (xs : List ℕ) (held : ℕ → Bool) (p : ℕ) (q : MessageQueue)
    → Inv g xs held
    → g.mem p ≡ some q
    → held p ≡ true
    → q.release ≡ false
    → (g' : Global) × (mq_pop p g ≡ some ((pop q).0, (pop q).1, g'))
      × Inv g' xs (update held p ((pop q).0 == 0))
      × Pops (contents q) q
unfolding mq_pop
mq_pop-Inv g xs held p q v at has_it live =
    let valid = (at_queue p q v at).4 in
    (
      store g p (pop q).2,
      rw at,
      store-Inv g xs held (update held p ((pop q).0 == 0)) p q (pop q).2 v at (pop_flags q).0
          (λ a ne. ground arith)
          (IsScheduled-eq {o = some (pop q).2} {on = has p xs} refl refl (ground arith)
            (pop-IsScheduled q (has p xs) (held p) (at_queue p q v at) has_it live)),
      pop-Pops q valid,
    )
