-- ===== src/Mq/Global/Runs.antt =====
-- The queues of ztask/ztask_mq.c under any interleaving of its operations. Each operation runs
-- under its spinlock, so a run of many threads is a sequence of the steps below; the premises are
-- what the callers in ztask/ztask_server.c ensure (a sender holds a reference to a service that is
-- not deleted, and only the worker that took a queue pops it, gives it back or drops it).
use ztask.Base.{
  ℕ, ◌≡◌, refl, sym, ap, subst, ◌∙◌, ◌≢◌, inl, inr, Bool, true, false, ◌||◌, ◌&&◌, Option, none,
  some, List, [], ◌∷◌, ◌++◌, arith, ◌==◌, update, Bool-cases, ==_iff,
}
use ztask.Mq.{Message, MessageQueue, create, pop}
use ztask.Mq.Ring.{contents, create-IsValid}
use ztask.Mq.Global.{
  Global, init, globalmq_push, globalmq_pop, mq_create, mq_push, mq_pop, mark_release, mq_release,
}
use ztask.Mq.Global.Chain.{Linked, has, globalmq_pop-nil, Chain-update}
use ztask.Mq.Global.Held.{Inv, IsScheduled, IsScheduled-eq}
use ztask.Mq.Global.Sched.{at_queue, mq_push-Inv, take-Inv, put_back-Inv, mq_pop-Inv}
use ztask.Mq.Global.Release.{
  mark_release-Inv, mq_release-Inv, mq_release_unmarked, mark_release_twice,
}

pub record State : Type 0 where
  pub queues : Global
  pub held : ℕ → Bool

abbrev pub hold : ℕ → Bool → Global → State → State
hold p b g s = record { queues = g; held = update s.held p b }

abbrev pub Live : State → ℕ → MessageQueue → Type 0
Live s p q = s.queues.mem p ≡ some q

pub data Step (s : State) : State → Type 0 where
  creates :
      (p handle : ℕ)
      → p ≢ 0
      → s.queues.mem p ≡ none
      → Step s (hold p true (mq_create p handle s.queues) s)
  sends :
      (p : ℕ) (m : Message) (q : MessageQueue) {g : Global}
      → Live s p q
      → q.release ≡ false
      → mq_push p m s.queues ≡ some g
      → Step s (record { queues = g; held = s.held })
  takes :
      (p : ℕ) {g : Global} → p ≢ 0 → globalmq_pop s.queues ≡ some (p, g) → Step s (hold p true g s)
  receives :
      (p ret : ℕ) (m : Option Message) (q : MessageQueue) {g : Global}
      → s.held p ≡ true
      → Live s p q
      → q.release ≡ false
      → mq_pop p s.queues ≡ some (ret, m, g)
      → Step s (hold p (ret == 0) g s)
  gives_back :
      (p : ℕ) (q : MessageQueue) {g : Global}
      → s.held p ≡ true
      → Live s p q
      → globalmq_push p s.queues ≡ some g
      → Step s (hold p false g s)
  marks :
      (p : ℕ) (q : MessageQueue) {g : Global}
      → Live s p q
      → mark_release p s.queues ≡ some g
      → Step s (record { queues = g; held = s.held })
  drops :
      (p : ℕ) (q : MessageQueue) (l : List (Option Message)) {g : Global}
      → s.held p ≡ true
      → Live s p q
      → mq_release p s.queues ≡ some (l, g)
      → Step s (hold p false g s)

pub data Reach (s : State) : State → Type 0 where
  here : Reach s s
  next : {t u : State} → Reach s t → Step t u → Reach s u

abbrev pub start : State
start = record { queues = init; held = λ p. false }

abbrev pub Good : State → Type 0
Good s = (xs : List ℕ) × Inv s.queues xs s.held

Good-eq :
    {g g' : Global} {h : ℕ → Bool}
    → g' ≡ g
    → Good (record { queues = g; held = h })
    → Good (record { queues = g'; held = h })
Good-eq {h} e (xs, v) = (xs, rw e v)

fresh : (handle : ℕ) → IsScheduled (some (create handle)) false true
unfolding create
fresh handle = (refl, refl, λ _. refl, λ i. absurd (cc i), create-IsValid handle)

pub create-Good :
    (s : State) (p handle : ℕ)
    → p ≢ 0
    → s.queues.mem p ≡ none
    → Good s
    → Good (hold p true (mq_create p handle s.queues) s)
unfolding mq_create
create-Good s p handle np free (xs, v) =
    let (off, idle) = IsScheduled-eq {o' = none} (sym free) refl refl (v.each p) in
    (
      xs,
      record {
        linked = record {
          chain =
              Chain-update s.queues.mem p (some (create handle)) s.queues.head xs off
                v.linked.chain;
          last = v.linked.last;
        };
        each = λ a. elim (Bool-cases (a == p)) [
          | inl hit ↦
              IsScheduled-eq {o = some (create handle)} (rw hit)
                (ap (λ b. has b xs) ((==_iff a p).0 hit) ∙ off) (rw hit) (fresh handle)
          | inr miss ↦ IsScheduled-eq {o = s.queues.mem a} (rw miss) refl (rw miss) (v.each a)
        ];
        null = ground (arith, v.null);
      },
    )

takes-Good :
    (s : State) (p : ℕ) (g : Global) (xs : List ℕ)
    → p ≢ 0
    → globalmq_pop s.queues ≡ some (p, g)
    → Inv s.queues xs s.held
    → Good (hold p true g s)
takes-Good s p g [] np run v =
    absurd (np (none_left (cc (run, globalmq_pop-nil s.queues v.linked))))
  where
    none_left : ◌≡◌ {A = ℕ × Global} (p, g) (0, s.queues) → p ≡ 0
    none_left e = ap (λ (r : ℕ × Global). r.0) e
takes-Good s p g (x ∷ xs) np run v =
    let (g', run', v') = take-Inv s.queues x xs s.held v in
    subst (λ (r : ℕ × Global). Good (hold r.0 true r.1 s)) {y = (p, g)} (cc (run, run')) (xs, v')

receives-Good :
    (s : State) (p ret : ℕ) (m : Option Message) (q : MessageQueue) (g : Global)
    → s.held p ≡ true
    → Live s p q
    → q.release ≡ false
    → mq_pop p s.queues ≡ some (ret, m, g)
    → Good s
    → Good (hold p (ret == 0) g s)
receives-Good s p ret m q g mine at live run (xs, v) =
    let (g', run', v', _) = mq_pop-Inv s.queues xs s.held p q v at mine live in
    subst (λ (r : ℕ × Option Message × Global). Good (hold p (r.0 == 0) r.2 s))
      {x = ((pop q).0, (pop q).1, g')} {y = (ret, m, g)} (cc (run, run')) (xs, v')

marks-Good :
    (s : State) (p : ℕ) (q : MessageQueue) (g : Global)
    → Live s p q
    → mark_release p s.queues ≡ some g
    → Good s
    → Good (record { queues = g; held = s.held })
marks-Good s p q g at run (xs, v) = elim (Bool-cases q.release) [
  | inl gone ↦ absurd (cc (run, mark_release_twice s.queues p q at gone))
  | inr live ↦
      let (g', xs', run', v', _) = mark_release-Inv s.queues xs s.held p q v at live in
      Good-eq (cc (run, run')) (xs', v')
]

drops-Good :
    (s : State) (p : ℕ) (q : MessageQueue) (l : List (Option Message)) (g : Global)
    → s.held p ≡ true
    → Live s p q
    → mq_release p s.queues ≡ some (l, g)
    → Good s
    → Good (hold p false g s)
drops-Good s p q l g mine at run (xs, v) = elim (Bool-cases q.release) [
  | inl gone ↦
      let (run', v') = mq_release-Inv s.queues xs s.held p q v at mine gone in
      subst (λ (r : List (Option Message) × Global). Good (hold p false r.1 s))
        {x = (contents q, record (s.queues) { mem = update s.queues.mem p none })} {y = (l, g)}
        (cc (run, run')) (xs, v')
  | inr live ↦
      let (g', run', v') = mq_release_unmarked s.queues xs s.held p q v at mine live in
      subst (λ (r : List (Option Message) × Global). Good (hold p false r.1 s)) {x = ([], g')}
        {y = (l, g)} (cc (run, run')) (xs ++ p ∷ [], v')
]

Step-Good : {s t : State} → Step s t → Good s → Good t
Step-Good {s} (creates p handle np free) v = create-Good s p handle np free v
Step-Good {s} (sends p m q at live run) (xs, v) =
    let (g, xs', q', (run', v', _, _, _, _)) = mq_push-Inv s.queues xs s.held p q m v at live in
    Good-eq (cc (run, run')) (xs', v')
Step-Good {s} (takes p {g} np run) (xs, v) = takes-Good s p g xs np run v
Step-Good {s} (receives p ret m q {g} mine at live run) v =
    receives-Good s p ret m q g mine at live run v
Step-Good {s} (gives_back p q mine at run) (xs, v) =
    let (g, run', v') = put_back-Inv s.queues xs s.held p q v at mine in
    Good-eq (cc (run, run')) (_, v')
Step-Good {s} (marks p q {g} at run) v = marks-Good s p q g at run v
Step-Good {s} (drops p q l {g} mine at run) v = drops-Good s p q l g mine at run v

pub start-Good : Good start
unfolding init
start-Good = (
  [],
  record { linked = record { chain = refl; last = refl }; each = λ a. (refl, refl); null = refl },
)

Reach-Good : {s : State} → Reach start s → Good s
Reach-Good here = start-Good
Reach-Good (next r step) = Step-Good step (Reach-Good r)

-- No lost wake-up: after any interleaving, the pointers of the global queue spell a list of distinct
-- queues, and a queue that has messages is on that list or with a worker, and never both.
pub pending_scheduled :
    {s : State} (p : ℕ) (q : MessageQueue)
    → Reach start s
    → Live s p q
    → contents q ≢ []
    → (xs : List ℕ) × Linked s.queues xs
      × ((has p xs || s.held p) ≡ true)
      × ((has p xs && s.held p) ≡ false)
pending_scheduled {s} p q r at pending =
    let (xs, v) = Reach-Good r in
    let (flag, one, ends, idle, valid) = at_queue p q v at in
    elim (Bool-cases q.in_global) [
      | inl busy ↦ (xs, v.linked, ground arith, one)
      | inr empty ↦ absurd (pending (idle empty))
    ]
