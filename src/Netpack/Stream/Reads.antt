-- ===== src/Netpack/Stream/Reads.antt =====
-- One read of a connection, and the packages that it gives, in ztask/lualib/lua-netpack.c.
use ztask.Base.{
  ℕ, zero, suc, ◌≤◌, ◌<◌, ◌≡◌, refl, sym, ap, subst, ◌∙◌, ◌≢◌, Option, none, some, List, [], ◌∷◌,
  ◌++◌, length, if◌then◌else◌, ◌==◌, arith,
}
use ztask.Base.Ring.{length-window, gap}
use ztask.Netpack.{
  Queue, Pack, Filtered, nothing, more, whole, closed, opened, failed, warned, filter_data, hash_fd,
  pop,
}
use ztask.Netpack.Ring.{contents, IsValid, Pops, pop-Pops}
use ztask.Netpack.Table.{progress, lookup, Unique}
use ztask.Netpack.Frame.{Bytes, Short, frames, pending, Incomplete}
use ztask.Netpack.Stream.{Valid, entry, entries}
use ztask.Netpack.Stream.More.{Filters}
use ztask.Netpack.Stream.Fill.{filter_data-Filters}

-- The caller pops until the ring is empty.
unfoldable pub drain : ℕ → Queue → List (Option Pack) × Queue
unfolding pop
drain zero q = ([], q)
drain (suc fuel) q =
    let (popped, q') = pop q in
    let rest = drain fuel q' in elim popped [ none ↦ ([], q') | some p ↦ (p ∷ rest.0, rest.1) ]

-- One part of a socket's stream: the packages that the caller gets.
unfoldable pub receive : ℕ → List ℕ → Queue → Option (List (Option Pack) × Queue)
unfolding filter_data drain
receive fd buffer q = elim (filter_data fd buffer q) [
  | none ↦ none
  | some (whole id data_bytes, q') ↦ some (entry id data_bytes ∷ [], q')
  | some (more, q') ↦ some (drain q'.cap q')
  | some (out, q') ↦ some ([], q')
]

unfoldable pub feed : List (ℕ × List ℕ) → Queue → Option (List (Option Pack) × Queue)
unfolding receive
feed [] q = some ([], q)
feed ((fd, buffer) ∷ parts) q = elim (receive fd buffer q) [
  | none ↦ none
  | some (got, q') ↦ elim (feed parts q') [
    | none ↦ none
    | some (later, q'') ↦ some (got ++ later, q'')
  ]
]

-- The stream of one socket, and its packages.
abbrev pub sent : ℕ → List (ℕ × List ℕ) → List ℕ
sent fd [] = []
sent fd ((id, buffer) ∷ parts) = if id == fd then buffer ++ sent fd parts else sent fd parts

abbrev pub received : ℕ → List (Option Pack) → List (List ℕ)
received fd [] = []
received fd (none ∷ got) = received fd got
received fd (some p ∷ got) = if p.id == fd then p.buffer ∷ received fd got else received fd got

-- Parts as the socket library hands them over: bytes, at least one.
abbrev pub Parts : List (ℕ × List ℕ) → Type 0
Parts [] = Unit {0}
Parts ((fd, buffer) ∷ parts) = Bytes buffer × (0 < length buffer) × Parts parts

drain-all :
    (fuel : ℕ) (xs : List (Option Pack)) (q : Queue)
    → IsValid q
    → contents q ≡ xs
    → length xs ≤ fuel
    → (q' : Queue) × (drain fuel q ≡ (xs, q'))
      × (contents q' ≡ [])
      × (q'.hash ≡ q.hash)
      × IsValid q'
unfolding drain
drain-all zero [] q v e le = (q, refl, e, refl, v)
drain-all zero (x ∷ xs) q v e le = absurd (omega arith)
drain-all (suc fuel) [] q v e le =
    let p : pop q ≡ (none, q) = subst (λ l. Pops l q) e (pop-Pops q v) in
    let p₀ = ap (λ (r : Option (Option Pack) × Queue). r.0) p in
    let p₁ = ap (λ (r : Option (Option Pack) × Queue). r.1) p in
    (q, rw (drain, p₀, p₁) refl, e, refl, v)
drain-all (suc fuel) (x ∷ xs) q v e le =
    let (first, after, valid, same) = subst (λ l. Pops l q) e (pop-Pops q v) in
    let (q', run, empty, hash, valid') = drain-all fuel xs (pop q).1 valid after (omega arith) in
    (q', rw (drain, first, run) refl, empty, hash ∙ same, valid')

length-contents : (q : Queue) → IsValid q → length (contents q) ≤ q.cap
unfolding contents
length-contents q (hh, ht) = omega (
  arith,
  length-window q.queue q.cap q.head (gap q.cap q.head q.tail),
  bound q.cap q.head q.tail hh ht,
)
  where
    bound : (c s t : ℕ) → s < c → t < c → gap c s t ≤ c
    bound c s t a b = ground arith

-- What one part does to a queue with an empty ring.
pub record Receives (fd : ℕ) (stream : List ℕ) (q : Queue) (got : List (Option Pack)) (q' : Queue)
    : Type 0 where
  pub valid : Valid q'
  pub others : (g : ℕ) → g ≢ fd → progress g q' ≡ progress g q
  pub empty : contents q' ≡ []
  pub packs : List (List ℕ)
  pub short : Short packs
  pub cut : stream ≡ frames packs ++ pending (progress fd q')
  pub all : got ≡ entries fd packs

drained-Receives :
    (fd : ℕ) (stream : List ℕ) (q q₁ : Queue)
    → contents q ≡ []
    → Filters fd stream q more q₁
    → Receives fd stream q (drain q₁.cap q₁).0 (drain q₁.cap q₁).1
drained-Receives fd stream q q₁ e f =
    let all = f.given ∙ ap (λ l. l ++ entries fd f.packs) e in
    let (q', run, empty, hash, v') =
      drain-all q₁.cap (entries fd f.packs) q₁ f.valid.ring all
        (subst (λ l. length l ≤ q₁.cap) all (length-contents q₁ f.valid.ring)) in
    subst (λ (r : List (Option Pack) × Queue). Receives fd stream q r.0 r.1) (sym run)
      (record {
        valid = record {
          ring = v';
          unique = subst (λ t. (h : ℕ) → Unique (t h)) (sym hash) f.valid.unique;
          incomplete = λ g. subst Incomplete (sym (same_hash g q' q₁ hash)) (f.valid.incomplete g);
        };
        others = λ g ne. same_hash g q' q₁ hash ∙ f.others g ne;
        empty = empty;
        packs = f.packs;
        short = f.short;
        cut = f.cut ∙ ap (λ u. frames f.packs ++ pending u) (sym (same_hash fd q' q₁ hash));
        all = refl;
      })
  where
    same_hash : (g : ℕ) (a b : Queue) → a.hash ≡ b.hash → progress g a ≡ progress g b
    same_hash g a b h = ap (λ t. lookup g (t (hash_fd g))) h

pub receive-Receives :
    (fd : ℕ) (buffer : List ℕ) (q : Queue)
    → Valid q
    → contents q ≡ []
    → Bytes buffer
    → 0 < length buffer
    → (got : List (Option Pack)) × (q' : Queue) × (receive fd buffer q ≡ some (got, q'))
      × Receives fd (pending (progress fd q) ++ buffer) q got q'
unfolding receive
receive-Receives fd buffer q v e bytes pos =
    let (out, q', run, f) = filter_data-Filters fd buffer q v bytes pos in by_out out q' run f
  where
    Result : Type 0
    Result =
        (got : List (Option Pack)) × (q' : Queue) × (receive fd buffer q ≡ some (got, q'))
        × Receives fd (pending (progress fd q) ++ buffer) q got q'

    by_out :
        (out : Filtered) (q' : Queue)
        → filter_data fd buffer q ≡ some (out, q')
        → Filters fd (pending (progress fd q) ++ buffer) q out q'
        → Result
    by_out nothing q' run f = (
      [],
      q',
      rw (receive, run) refl,
      record {
        valid = f.valid;
        others = f.others;
        empty = f.given.1 ∙ e;
        packs = f.packs;
        short = f.short;
        cut = f.cut;
        all = ap (entries fd) (sym f.given.0);
      },
    )
    by_out more q' run f = (
      _,
      _,
      rw (receive, run) refl,
      drained-Receives fd (pending (progress fd q) ++ buffer) q q' e f,
    )
    by_out (whole id data_bytes) q' run f = (
      entry id data_bytes ∷ [],
      q',
      rw (receive, run) refl,
      record {
        valid = f.valid;
        others = f.others;
        empty = f.given.2 ∙ e;
        packs = f.packs;
        short = f.short;
        cut = f.cut;
        all = ap (λ i. entry i data_bytes ∷ []) f.given.0 ∙ ap (entries fd) (sym f.given.1);
      },
    )
    by_out (closed id) q' run f = absurd f.given
    by_out (opened id message) q' run f = absurd f.given
    by_out (failed id message) q' run f = absurd f.given
    by_out (warned id size) q' run f = absurd f.given
