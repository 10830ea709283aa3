-- ===== src/Mq/Global/Held.antt =====
-- Which queues are in the global list, held by a worker, or at rest, in ztask/ztask_mq.c.
use ztask.Base.{
  ℕ, ◌≡◌, refl, sym, ap, ◌∙◌, ◌≢◌, inl, inr, Bool, true, false, ◌||◌, ◌&&◌, Option, none, some,
  List, [], ◌∷◌, ◌++◌, arith, ◌==◌, if◌then◌else◌, update, Bool-cases, ==_iff,
}
use ztask.Mq.{Message, MessageQueue, push, pop, mq_length}
use ztask.Mq.Ring.{contents, IsValid}
use ztask.Mq.Global.{Global, globalmq_push, store}
use ztask.Mq.Global.Chain.{
  Linked, Chain, has, has-append, same_but_next, SameQueues, globalmq_push-Linked, Chain-store,
}

-- The state of one address: `on` says that it is on the global queue, `held` that a worker, or the
-- code that is creating the service, has it.
abbrev pub IsScheduled : Option MessageQueue → Bool → Bool → Type 0
IsScheduled none on held = (on ≡ false) × (held ≡ false)
IsScheduled (some q) on held =
    ((q.in_global || q.release) ≡ (on || held))
    × ((on && held) ≡ false)
    × (on ≡ false → q.next ≡ 0)
    × (q.in_global ≡ false → contents q ≡ [])
    × IsValid q

-- `xs` is the global queue, and `held` says which queues are taken off it.
pub record Inv (g : Global) (xs : List ℕ) (held : ℕ → Bool) : Type 0 where
  pub linked : Linked g xs
  pub each : (a : ℕ) → IsScheduled (g.mem a) (has a xs) (held a)
  pub null : g.mem 0 ≡ none

contents_same :
    (q r : MessageQueue) → same_but_next (some q) ≡ same_but_next (some r) → contents q ≡ contents r
contents_same q r h =
    let h' : ◌≡◌ {A = MessageQueue} (record q { next = 0 }) (record r { next = 0 }) = cc in
    forget q ∙ ap contents h' ∙ sym (forget r)
  where
    forget : (m : MessageQueue) → contents m ≡ contents (record m { next = 0 })
    forget m = unfold contents mq_length in refl

pub IsScheduled-same :
    (o o' : Option MessageQueue) (held : Bool)
    → same_but_next o' ≡ same_but_next o
    → IsScheduled o true held
    → IsScheduled o' true held
IsScheduled-same none o' held e (h, _) = absurd (cc h)
IsScheduled-same (some q) none held e h = absurd (cc e)
IsScheduled-same (some q) (some r) held e (flag, one, next, idle, valid) = (
  ground arith,
  one,
  λ x. absurd (cc x),
  λ f. contents_same r q e ∙ idle (ground arith),
  ground arith,
)

pub IsScheduled-eq :
    {o o' : Option MessageQueue} {on on' held held' : Bool}
    → o' ≡ o
    → on' ≡ on
    → held' ≡ held
    → IsScheduled o on held
    → IsScheduled o' on' held'
IsScheduled-eq eo eb eh h = rw (eo, eb, eh) h

-- A chain holds no NULL.
pub Chain-null :
    (mem : ℕ → Option MessageQueue) (s : ℕ) (xs : List ℕ) → Chain mem s xs → has 0 xs ≡ false
Chain-null mem s [] h = refl
Chain-null mem s (x ∷ xs) (e, nz, fresh, (q, at, rest)) =
    ground (arith, Chain-null mem q.next xs rest)

pub has-snoc : (a p : ℕ) (xs : List ℕ) → has a (xs ++ p ∷ []) ≡ (has a xs || (a == p))
has-snoc a p xs = ground (arith, has-append a xs (p ∷ []))

enqueue-each :
    (g g' : Global) (xs : List ℕ) (held : ℕ → Bool) (p : ℕ) (q : MessageQueue)
    → ((a : ℕ) → a ≢ p → IsScheduled (g.mem a) (has a xs) (held a))
    → has p xs ≡ false
    → IsScheduled (some q) true false
    → SameQueues g g'
    → ((a : ℕ) → has a xs ≡ false → g'.mem a ≡ g.mem a)
    → g'.mem p ≡ some q
    → (a : ℕ) → IsScheduled (g'.mem a) (has a (xs ++ p ∷ [])) (update held p false a)
enqueue-each g g' xs held p q each off ok same untouched at' a = elim (Bool-cases (a == p)) [
  | inl hit ↦
      let e : a ≡ p = (==_iff a p).0 hit in
      IsScheduled-eq (ap g'.mem e ∙ at') (ground (arith, has-snoc a p xs)) (ground arith) ok
  | inr miss ↦
      let ne : a ≢ p = ground arith in
      elim (Bool-cases (has a xs)) [
        | inl on ↦ IsScheduled-eq refl (ground (arith, has-snoc a p xs)) (ground arith) (
            IsScheduled-same (g.mem a) (g'.mem a) (held a) (same a)
              (IsScheduled-eq refl (sym on) refl (each a ne)))
        | inr out ↦
            IsScheduled-eq (untouched a out) (ground (arith, has-snoc a p xs)) (ground arith)
              (each a ne)
      ]
]

-- A queue that is off the list, and that nobody holds, goes to its back.
pub enqueue-Inv :
    (g : Global) (xs : List ℕ) (held : ℕ → Bool) (p : ℕ) (q : MessageQueue)
    → Linked g xs
    → g.mem 0 ≡ none
    → ((a : ℕ) → a ≢ p → IsScheduled (g.mem a) (has a xs) (held a))
    → g.mem p ≡ some q
    → has p xs ≡ false
    → IsScheduled (some q) true false
    → q.next ≡ 0
    → (g' : Global) × (globalmq_push p g ≡ some g')
      × Inv g' (xs ++ p ∷ []) (update held p false)
      × (g'.mem p ≡ some q)
enqueue-Inv g xs held p q l null each at off ok ends =
    let np : p ≢ 0 = λ z. cc (ap g.mem z) in
    let (g', run, l', same, untouched) = globalmq_push-Linked g p q xs l at ends np off in
    let at' : g'.mem p ≡ some q = untouched p off ∙ at in
    (
      g',
      run,
      record {
        linked = l';
        each = enqueue-each g g' xs held p q each off ok same untouched at';
        null = untouched 0 (Chain-null g.mem g.head xs l.chain) ∙ null;
      },
      at',
    )

-- The invariant after a change of the one queue `p` that keeps its `next` and its place.
pub store-Inv :
    (g : Global) (xs : List ℕ) (held held' : ℕ → Bool) (p : ℕ) (q q' : MessageQueue)
    → Inv g xs held
    → g.mem p ≡ some q
    → q'.next ≡ q.next
    → ((a : ℕ) → a ≢ p → held' a ≡ held a)
    → IsScheduled (some q') (has p xs) (held' p)
    → Inv (store g p q') xs held'
store-Inv g xs held held' p q q' v at same others ok = record {
  linked = record {
    chain = Chain-store g.mem p q q' g.head xs at same v.linked.chain;
    last = v.linked.last;
  };
  each = λ a. elim (Bool-cases (a == p)) [
    | inl hit ↦
        let e : a ≡ p = (==_iff a p).0 hit in
        IsScheduled-eq {o = some q'} (rw hit) (ap (λ b. has b xs) e) (ap held' e) ok
    | inr miss ↦ IsScheduled-eq {o = g.mem a} (rw miss) refl (others a (ground arith)) (v.each a)
  ];
  null = ground (arith, v.null);
}

pub Inv-held :
    {g : Global} {xs : List ℕ} (held held' : ℕ → Bool)
    → ((a : ℕ) → held' a ≡ held a)
    → Inv g xs held
    → Inv g xs held'
Inv-held held held' same v = record {
  linked = v.linked;
  each = λ a. IsScheduled-eq refl refl (same a) (v.each a);
  null = v.null;
}

-- What a push to the ring leaves alone.
pub push_flags :
    (q : MessageQueue) (m : Message)
    → ((push q m).next ≡ q.next)
      × ((push q m).in_global ≡ q.in_global)
      × ((push q m).release ≡ q.release)
unfolding push
push_flags q m = ground arith

pub pop_flags :
    (q : MessageQueue)
    → ((pop q).2.next ≡ q.next)
      × ((pop q).2.release ≡ q.release)
      × ((pop q).2.in_global ≡ (if (pop q).0 == 0 then q.in_global else false))
unfolding pop
pop_flags q = ground arith
