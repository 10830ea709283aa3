-- ===== src/Mq/Global/Chain.antt =====
-- The list of waiting queues in ztask/ztask_mq.c: the pointers from `head` on spell a list of
-- distinct queues, and the two operations of the global queue are those of a first-in first-out
-- list.
use ztask.Base.{
  ℕ, ◌≡◌, refl, sym, ap, subst, ◌∙◌, ◌≢◌, inl, inr, Bool, true, false, ◌||◌, Option, none, some,
  List, [], ◌∷◌, ◌++◌, arith, ◌==◌, if◌then◌else◌, update, Bool-cases, ==_iff,
}
use ztask.Mq.{MessageQueue}
use ztask.Mq.Global.{Global, globalmq_push, globalmq_pop}

abbrev pub has : ℕ → List ℕ → Bool
has p [] = false
has p (x ∷ xs) = (p == x) || has p xs

abbrev pub last_or : ℕ → List ℕ → ℕ
last_or d [] = d
last_or d (x ∷ xs) = last_or x xs

-- The pointers from `p` on lead through the distinct queues `xs` to NULL.
abbrev pub Chain : (ℕ → Option MessageQueue) → ℕ → List ℕ → Type 0
Chain mem p [] = p ≡ 0
Chain mem p (x ∷ xs) =
    (p ≡ x)
    × (x ≢ 0)
    × (has x xs ≡ false)
    × ((q : MessageQueue) × (mem x ≡ some q) × Chain mem q.next xs)

-- `xs` is what the global queue holds, the next queue to serve first.
pub record Linked (g : Global) (xs : List ℕ) : Type 0 where
  pub chain : Chain g.mem g.head xs
  pub last : g.tail ≡ last_or 0 xs

pub has-append : (p : ℕ) (xs ys : List ℕ) → has p (xs ++ ys) ≡ (has p xs || has p ys)
has-append p [] ys = refl
has-append p (x ∷ xs) ys = ground (arith, has-append p xs ys)

-- A chain survives a write outside it.
pub Chain-update :
    (mem : ℕ → Option MessageQueue) (a : ℕ) (c : Option MessageQueue) (p : ℕ) (xs : List ℕ)
    → has a xs ≡ false
    → Chain mem p xs
    → Chain (update mem a c) p xs
Chain-update mem a c p [] out h = h
Chain-update mem a c p (x ∷ xs) out (e, nz, fresh, (q, at, rest)) =
    (e, nz, fresh, (q, ground arith, Chain-update mem a c q.next xs (ground arith) rest))

has-last : (x : ℕ) (xs : List ℕ) → has (last_or x xs) (x ∷ xs) ≡ true
has-last x [] = ground arith
has-last x (y ∷ xs) = ground (arith, has-last y xs)

-- Linking the queue `p` behind the last one.
Chain-link :
    (mem : ℕ → Option MessageQueue) (p x : ℕ) (last pq : MessageQueue) (s : ℕ) (xs : List ℕ)
    → Chain mem s (x ∷ xs)
    → mem (last_or x xs) ≡ some last
    → mem p ≡ some pq
    → pq.next ≡ 0
    → p ≢ 0
    → has p (x ∷ xs) ≡ false
    → Chain (update mem (last_or x xs) (some (record last { next = p }))) s (x ∷ (xs ++ p ∷ []))
Chain-link mem p x last pq s [] (e, nz, fresh, (q, at, rest)) here there ends np out = (
  e,
  nz,
  ground arith,
  (record last { next = p }, ground arith, (refl, np, refl, (pq, ground arith, ends))),
)
Chain-link mem p x last pq s (y ∷ xs) (e, nz, fresh, (q, at, rest)) here there ends np out = (
  e,
  nz,
  ground (arith, has-append x xs (p ∷ [])),
  (
    q,
    ground (arith, has-last y xs),
    Chain-link mem p y last pq q.next xs rest here there ends np (ground arith),
  ),
)

last_or-append : (x p : ℕ) (xs : List ℕ) → last_or x (xs ++ p ∷ []) ≡ p
last_or-append x p [] = refl
last_or-append x p (y ∷ xs) = last_or-append y p xs

last-live :
    (mem : ℕ → Option MessageQueue) (s x : ℕ) (xs : List ℕ)
    → Chain mem s (x ∷ xs)
    → (last_or x xs ≢ 0) × ((q : MessageQueue) × (mem (last_or x xs) ≡ some q) × (q.next ≡ 0))
last-live mem s x [] (e, nz, fresh, (q, at, rest)) = (nz, (q, at, rest))
last-live mem s x (y ∷ xs) (e, nz, fresh, (q, at, rest)) = last-live mem q.next y xs rest

-- What a global push leaves alone: every queue but for its `next`.
abbrev pub same_but_next : Option MessageQueue → Option MessageQueue
same_but_next none = none
same_but_next (some q) = some (record q { next = 0 })

abbrev pub SameQueues : Global → Global → Type 0
SameQueues g g' = (a : ℕ) → same_but_next (g'.mem a) ≡ same_but_next (g.mem a)

push-behind :
    (g : Global) (p : ℕ) (q last : MessageQueue)
    → g.mem p ≡ some q
    → q.next ≡ 0
    → g.tail ≢ 0
    → g.mem g.tail ≡ some last
    → globalmq_push p g
      ≡ some (record g { mem = update g.mem g.tail (some (record last { next = p })); tail = p })
unfolding globalmq_push
push-behind g p q last at ends nz here =
    let next_null : (q.next == 0) ≡ true = ground arith in
    let tail_set : (g.tail == 0) ≡ false = ground arith in rw (at, next_null, tail_set, here)

-- `ztask_globalmq_push` of a queue that is not on the list, and whose `next` is NULL, succeeds, puts
-- it last, changes nothing but `next` of any queue, and nothing of a queue that was not on the list.
pub globalmq_push-Linked :
    (g : Global) (p : ℕ) (q : MessageQueue) (xs : List ℕ)
    → Linked g xs
    → g.mem p ≡ some q
    → q.next ≡ 0
    → p ≢ 0
    → has p xs ≡ false
    → (g' : Global) × (globalmq_push p g ≡ some g')
      × Linked g' (xs ++ p ∷ [])
      × SameQueues g g'
      × ((a : ℕ) → has a xs ≡ false → g'.mem a ≡ g.mem a)
unfolding globalmq_push
globalmq_push-Linked g p q [] l at ends np out = (
  record g { head = p; tail = p },
  ground (arith, l.last),
  record { chain = (refl, np, refl, (q, at, ends)); last = refl },
  λ a. refl,
  λ a out. refl,
)
globalmq_push-Linked g p q (x ∷ xs) l at ends np out =
    let (nz, (last, here, _)) = last-live g.mem g.head x xs l.chain in
    let here' : g.mem g.tail ≡ some last = rw l.last here in
    (
      record g { mem = update g.mem g.tail (some (record last { next = p })); tail = p },
      push-behind g p q last at ends (λ z. nz (sym l.last ∙ z)) here',
      record {
        chain =
            subst
              (λ t.
                Chain (update g.mem t (some (record last { next = p }))) g.head
                  (x ∷ (xs ++ p ∷ [])))
              (sym l.last) (Chain-link g.mem p x last q g.head xs l.chain here at ends np out);
        last = sym (last_or-append x p xs);
      },
      λ a. update-same g.mem g.tail last p here' a,
      λ a off. ground (arith, has-last x xs, l.last),
    )
  where
    update-same :
        (mem : ℕ → Option MessageQueue) (t : ℕ) (last : MessageQueue) (p : ℕ)
        → mem t ≡ some last
        → (a : ℕ)
        → same_but_next (update mem t (some (record last { next = p })) a) ≡ same_but_next (mem a)
    update-same mem t last p h a = ground arith

-- `ztask_globalmq_pop` of the empty list answers NULL and changes nothing.
pub globalmq_pop-nil : (g : Global) → Linked g [] → globalmq_pop g ≡ some (0, g)
unfolding globalmq_pop
globalmq_pop-nil g l = let empty : (g.head == 0) ≡ true = ground (arith, l.chain) in rw empty

pop-front :
    (g : Global) (q : MessageQueue)
    → g.head ≢ 0
    → g.mem g.head ≡ some q
    → (q.next ≡ 0 → g.head ≡ g.tail)
    → globalmq_pop g
      ≡ some (
        g.head,
        record g {
          mem = update g.mem g.head (some (record q { next = 0 }));
          head = q.next;
          tail = if q.next == 0 then 0 else g.tail;
        },
      )
unfolding globalmq_pop
pop-front g q nz at agree = elim (Bool-cases (q.next == 0)) [
  | inl z ↦
      let same : (g.head == g.tail) ≡ true = ground (arith, agree (ground arith)) in
      let e : q.next ≡ 0 = ground arith in rw (shown, at, z, same, e)
  | inr more ↦ rw (shown, at, more)
]
  where
    shown : (g.head == 0) ≡ false
    shown = ground arith

-- Otherwise it answers the queue at the front, whose `next` is then NULL, and changes nothing else.
pub globalmq_pop-Linked :
    (g : Global) (x : ℕ) (xs : List ℕ)
    → Linked g (x ∷ xs)
    → (g' : Global) × (globalmq_pop g ≡ some (x, g'))
      × Linked g' xs
      × SameQueues g g'
      × ((q : MessageQueue) × (g'.mem x ≡ some q) × (q.next ≡ 0))
      × ((a : ℕ) → a ≢ x → g'.mem a ≡ g.mem a)
globalmq_pop-Linked g x xs l =
    let (e, nz, fresh, (q, at, rest)) = l.chain in
    let at' : g.mem g.head ≡ some q = rw e at in
    let popped = record g {
      mem = update g.mem g.head (some (record q { next = 0 }));
      head = q.next;
      tail = if q.next == 0 then 0 else g.tail;
    } in
    (
      popped,
      pop-front g q (λ z. nz (sym e ∙ z)) at' (ends q.next xs l.last e rest)
          ∙ ap (λ p. some (p, popped)) e,
      record {
        chain =
            subst (λ h. Chain (update g.mem h (some (record q { next = 0 }))) q.next xs) (sym e)
              (Chain-update g.mem x (some (record q { next = 0 })) q.next xs fresh rest);
        last = tail_of q.next xs l.last rest;
      },
      λ a. ground arith,
      (record q { next = 0 }, ground arith, refl),
      λ a ne. ground arith,
    )
  where
    ends :
        (n : ℕ) (ys : List ℕ)
        → g.tail ≡ last_or x ys
        → g.head ≡ x
        → Chain g.mem n ys
        → n ≡ 0
        → g.head ≡ g.tail
    ends n [] t h c z = h ∙ sym t
    ends n (y ∷ ys) t h (e, nz, _, _) z = absurd (nz (sym e ∙ z))

    tail_of :
        (n : ℕ) (ys : List ℕ)
        → g.tail ≡ last_or x ys
        → Chain g.mem n ys
        → (if n == 0 then 0 else g.tail) ≡ last_or 0 ys
    tail_of n [] t c = ground arith
    tail_of n (y ∷ ys) t (e, nz, _, _) = ground arith

-- A chain survives a change of one queue that keeps its `next`.
pub Chain-store :
    (mem : ℕ → Option MessageQueue) (a : ℕ) (q q' : MessageQueue) (p : ℕ) (xs : List ℕ)
    → mem a ≡ some q
    → q'.next ≡ q.next
    → Chain mem p xs
    → Chain (update mem a (some q')) p xs
Chain-store mem a q q' p [] here same h = h
Chain-store mem a q q' p (x ∷ xs) here same (e, nz, fresh, (r, at, rest)) =
    let later : Chain (update mem a (some q')) r.next xs =
      Chain-store mem a q q' r.next xs here same rest in
    elim (Bool-cases (x == a)) [
      | inl hit ↦
          let r_q : q ≡ r = cc (here, at, ap mem ((==_iff x a).0 hit)) in
          let next' : r.next ≡ q'.next = ap (λ (m : MessageQueue). m.next) (sym r_q) ∙ sym same in
          (
            e,
            nz,
            fresh,
            (q', rw hit refl, subst (λ n. Chain (update mem a (some q')) n xs) next' later),
          )
      | inr miss ↦ (e, nz, fresh, (r, rw miss at, later))
    ]
