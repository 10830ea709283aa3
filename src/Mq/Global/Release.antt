-- ===== src/Mq/Global/Release.antt =====
-- Marking a queue for release and dropping it, in ztask/ztask_mq.c.
use ztask.Base.{
  ℕ, zero, suc, ◌+◌, ◌<◌, ◌≡◌, refl, ap, subst, ◌∙◌, inl, inr, Bool, true, false, ◌||◌, ◌&&◌,
  Option, none, some, List, [], ◌∷◌, ◌++◌, arith, ◌==◌, update, Bool-cases, length, ==_iff,
}
use ztask.Mq.{Message, MessageQueue, pop, mq_length}
use ztask.Mq.Ring.{contents, IsValid, pop-IsValid, pop-Pops, Pops, mq_length-length}
use ztask.Mq.Global.{Global, globalmq_push, mark_release, mq_release, store, drop_all}
use ztask.Mq.Global.Chain.{has, Chain-update}
use ztask.Mq.Global.Held.{Inv, IsScheduled-eq, Inv-held, store-Inv}
use ztask.Mq.Global.Sched.{at_queue, store_enqueue-Inv, put_back-Inv}

-- The loop of `_drop_queue` ends, and hands every message of the queue to `drop_func`, in order.
drop_all-Pops :
    (fuel : ℕ) (q : MessageQueue) (l : List (Option Message))
    → IsValid q
    → Pops l q
    → length l < fuel
    → drop_all fuel q ≡ l
unfolding drop_all
drop_all-Pops zero q l v h lt = absurd (omega arith)
drop_all-Pops (suc fuel) q [] v h lt = rw (h.0)
drop_all-Pops (suc fuel) q (x ∷ l) v (ok, got, rest, flag) lt = rw (
  ok,
  got,
  drop_all-Pops fuel (pop q).2 l (pop-IsValid q v)
      (subst (λ (k : List (Option Message)). Pops k (pop q).2) rest
        (pop-Pops (pop q).2 (pop-IsValid q v)))
      (omega arith),
)

-- The drop loop of `ztask_mq_release` gives out exactly the messages that are left, oldest first.
pub drop_all-contents : (q : MessageQueue) → IsValid q → drop_all (mq_length q + 1) q ≡ contents q
drop_all-contents q v =
    drop_all-Pops (mq_length q + 1) q (contents q) v (pop-Pops q v)
      (omega (arith, mq_length-length q))

mark_idle :
    (g : Global) (p : ℕ) (q : MessageQueue)
    → g.mem p ≡ some q
    → q.release ≡ false
    → q.in_global ≡ false
    → mark_release p g ≡ globalmq_push p (store g p (record q { release = true }))
unfolding mark_release
mark_idle g p q at live idle = simp (at, live, idle)

module _ (g : Global) (xs : List ℕ) (held : ℕ → Bool) (p : ℕ) (q : MessageQueue) (v : Inv g xs held)
    (at : g.mem p ≡ some q) where
  -- `ztask_mq_mark_release` of a queue that is not marked yet succeeds, keeps the invariant, and
  -- leaves the queue marked and scheduled, with its messages.
  pub mark_release-Inv :
      q.release ≡ false
      → (g' : Global) × (xs' : List ℕ) × (mark_release p g ≡ some g')
        × Inv g' xs' held
        × (g'.mem p ≡ some (record q { release = true }))
  unfolding mark_release contents mq_length
  mark_release-Inv live = elim (Bool-cases q.in_global) [
    | inl busy ↦ (
      store g p marked,
      xs,
      rw (at, live, busy),
      store-Inv g xs held held p q marked v at refl (λ a ne. refl)
          (
            ground (arith, flag),
            one,
            next,
            λ i. absurd (ground arith),
            record { head_in = valid.head_in; tail_in = valid.tail_in },
          ),
      ground arith,
    )
    | inr idle ↦
        let off : has p xs ≡ false = ground (arith, flag) in
        let free : held p ≡ false = ground (arith, flag) in
        let (g', run, v', at') =
          store_enqueue-Inv g xs held p q marked v at off
            (
              ground arith,
              refl,
              λ x. absurd (cc x),
              λ _. empty idle,
              record { head_in = valid.head_in; tail_in = valid.tail_in },
            )
            (next off) in
        (
          g',
          xs ++ p ∷ [],
          mark_idle g p q at live idle ∙ run,
          Inv-held (update held p false) held (λ a. ground arith) v',
          at',
        )
  ]
    where
      marked : MessageQueue
      marked = record q { release = true }

      flag : (q.in_global || q.release) ≡ (has p xs || held p)
      flag = (at_queue p q v at).0

      one : (has p xs && held p) ≡ false
      one = (at_queue p q v at).1

      next : has p xs ≡ false → q.next ≡ 0
      next = (at_queue p q v at).2

      empty : q.in_global ≡ false → contents q ≡ []
      empty = (at_queue p q v at).3

      valid : IsValid q
      valid = (at_queue p q v at).4

  -- `ztask_mq_release` by the worker that holds a marked queue drops its messages in order, frees
  -- it, and keeps the invariant.
  pub mq_release-Inv :
      held p ≡ true
      → q.release ≡ true
      → let g' = record g { mem = update g.mem p none } in
        (mq_release p g ≡ some (contents q, g')) × Inv g' xs (update held p false)
  unfolding mq_release
  mq_release-Inv has_it gone =
      let (flag, one, next, idle, valid) = at_queue p q v at in
      let off : has p xs ≡ false = ground arith in
      let ends : (q.next == 0) ≡ true = ground (arith, next off) in
      (
        rw (at, drop_all-contents q valid, gone, ends),
        record {
          linked = record {
            chain = Chain-update g.mem p none g.head xs off v.linked.chain;
            last = v.linked.last;
          };
          each = λ a. elim (Bool-cases (a == p)) [
            | inl hit ↦
                IsScheduled-eq {o = none} (rw hit) (ap (λ b. has b xs) ((==_iff a p).0 hit) ∙ off)
                  (rw hit) (refl, refl)
            | inr miss ↦ IsScheduled-eq {o = g.mem a} (rw miss) refl (rw miss) (v.each a)
          ];
          null = ground (arith, v.null);
        },
      )

  -- `ztask_mq_release` of a queue that is not marked yet puts it back on the global queue.
  pub mq_release_unmarked :
      held p ≡ true
      → q.release ≡ false
      → (g' : Global) × (mq_release p g ≡ some ([], g'))
        × Inv g' (xs ++ p ∷ []) (update held p false)
  unfolding mq_release
  mq_release_unmarked has_it live =
      let (g', run, v') = put_back-Inv g xs held p q v at has_it in (g', rw (at, live, run), v')

-- A second `ztask_mq_mark_release` fails the assertion.
pub mark_release_twice :
    (g : Global) (p : ℕ) (q : MessageQueue)
    → g.mem p ≡ some q
    → q.release ≡ true
    → mark_release p g ≡ none
unfolding mark_release
mark_release_twice g p q at gone = simp (at, gone)
