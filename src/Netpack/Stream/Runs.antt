-- ===== src/Netpack/Stream/Runs.antt =====
-- Runs of ztask/lualib/lua-netpack.c: the parts of the streams of any number of sockets, in any order,
-- with what `lpack` made at the other end.
use ztask.Base.{
  ℕ, ◌≡◌, refl, sym, ap, subst, ◌∙◌, ◌≢◌, inl, inr, Option, none, some, List, [], ◌∷◌, ◌++◌,
  append_assoc, append-nil, length, Bool-cases, Option-cases, leb, ◌==◌, ==_iff, ==_self,
  ==-false_of_ne, arith,
}
use ztask.Base.Ring.{window}
use ztask.Netpack.{Queue, Pack, Progress, write_size, pack, new_queue}
use ztask.Netpack.Ring.{contents, new_queue-IsValid}
use ztask.Netpack.Table.{progress, new_queue-AllUnique}
use ztask.Netpack.Frame.{Short, frames, pending, frames_unique}
use ztask.Netpack.Stream.{Valid, entries}
use ztask.Netpack.Stream.Reads.{feed, sent, received, Parts, receive-Receives}

received_self :
    (fd : ℕ) (packs : List (List ℕ)) (got : List (Option Pack))
    → received fd (entries fd packs ++ got) ≡ packs ++ received fd got
received_self fd [] got = refl
received_self fd (p ∷ packs) got = rw (==_self fd) (ap (λ l. p ∷ l) (received_self fd packs got))

received-other :
    (fd g : ℕ) (packs : List (List ℕ)) (got : List (Option Pack))
    → g ≢ fd
    → received fd (entries g packs ++ got) ≡ received fd got
received-other fd g [] got ne = refl
received-other fd g (p ∷ packs) got ne =
    rw (==-false_of_ne g fd ne) (received-other fd g packs got ne)

frames-append :
    (ps rs : List (List ℕ)) (ys : List ℕ) → frames (ps ++ rs) ++ ys ≡ frames ps ++ (frames rs ++ ys)
frames-append [] rs ys = refl
frames-append (p ∷ ps) rs ys =
    let w = write_size (length p) in
    append_assoc w (p ++ frames (ps ++ rs)) ys
    ∙ ap (λ l. w ++ l) (append_assoc p (frames (ps ++ rs)) ys)
    ∙ ap (λ l. w ++ (p ++ l)) (frames-append ps rs ys)
    ∙ ap (λ l. w ++ l) (sym (append_assoc p (frames ps) (frames rs ++ ys)))
    ∙ sym (append_assoc w (p ++ frames ps) (frames rs ++ ys))

Short-append : (ps rs : List (List ℕ)) → Short ps → Short rs → Short (ps ++ rs)
Short-append [] rs h k = k
Short-append (p ∷ ps) rs (a, h) k = (a, Short-append ps rs h k)

joined :
    (buffer later : List ℕ) (ps rs : List (List ℕ)) (u x w : Option Progress)
    → pending u ++ buffer ≡ frames ps ++ pending x
    → pending x ++ later ≡ frames rs ++ pending w
    → pending u ++ (buffer ++ later) ≡ frames (ps ++ rs) ++ pending w
joined buffer later ps rs u x w e e' =
    sym (append_assoc (pending u) buffer later)
    ∙ ap (λ l. l ++ later) e
    ∙ append_assoc (frames ps) (pending x) later
    ∙ ap (λ l. frames ps ++ l) e'
    ∙ sym (frames-append ps rs (pending w))

-- For every socket, after any parts of any streams: what it has sent is the stream of the packages that
-- it got, in order, and of the incomplete package in the table.
pub feed-streams :
    (parts : List (ℕ × List ℕ)) (q : Queue)
    → Valid q
    → contents q ≡ []
    → Parts parts
    → (got : List (Option Pack)) × (q' : Queue) × (feed parts q ≡ some (got, q'))
      × Valid q'
      × ((fd : ℕ)
          → Short (received fd got)
            × (pending (progress fd q) ++ sent fd parts
                ≡ frames (received fd got) ++ pending (progress fd q')))
unfolding feed
feed-streams [] q v e h = ([], q, refl, v, λ fd. (tt, append-nil _))
feed-streams ((id, buffer) ∷ parts) q v e (bytes, pos, h) =
    let (got, q₁, run, r) = receive-Receives id buffer q v e bytes pos in
    let (later, q', run', v', all) = feed-streams parts q₁ r.valid r.empty h in
    (
      got ++ later,
      q',
      rw (feed, run, run') refl,
      v',
      λ fd. elim (Bool-cases (id == fd)) [
        | inl here ↦ rw here (
            subst
              (λ i.
                Short (received i (got ++ later))
                × (pending (progress i q) ++ (buffer ++ sent i parts)
                    ≡ frames (received i (got ++ later)) ++ pending (progress i q')))
              ((==_iff id fd).0 here)
              (subst
                (λ l.
                  Short l
                  × (pending (progress id q) ++ (buffer ++ sent id parts)
                      ≡ frames l ++ pending (progress id q')))
                (sym (ap (λ g. received id (g ++ later)) r.all ∙ received_self id r.packs later))
                (
                  Short-append r.packs (received id later) r.short (all id).0,
                  joined buffer (sent id parts) r.packs (received id later) (progress id q)
                      (progress id q₁) (progress id q') r.cut (all id).1,
                )))
        | inr there ↦
            let ne : id ≢ fd = λ e'. cc (sym there ∙ (==_iff id fd).1 e') in
            rw there (
              subst
                (λ l.
                  Short l
                  × (pending (progress fd q) ++ sent fd parts
                      ≡ frames l ++ pending (progress fd q')))
                (sym (
                  ap (λ g. received fd (g ++ later)) r.all ∙ received-other fd id r.packs later ne))
                (
                  (all fd).0,
                  ap (λ u. pending u ++ sent fd parts) (sym (r.others fd (λ e'. ne (sym e'))))
                      ∙ (all fd).1,
                ))
      ],
    )

-- What a sender writes: the result of `lpack` for each package, one after the other.
unfoldable pub packed : List (List ℕ) → Option (List ℕ)
unfolding pack
packed [] = some []
packed (p ∷ ps) = elim (pack p) [
  | none ↦ none
  | some f ↦ elim (packed ps) [ none ↦ none | some rest ↦ some (f ++ rest) ]
]

packed-frames :
    (ps : List (List ℕ)) (stream : List ℕ)
    → packed ps ≡ some stream
    → Short ps × (stream ≡ frames ps)
unfolding packed
packed-frames [] stream e = (tt, some_inj (sym e))
  where
    some_inj : {a b : List ℕ} → some a ≡ some b → a ≡ b
    some_inj h = cc
packed-frames (p ∷ ps) stream e = elim (Bool-cases (leb 65536 (length p))) [
  | inl long ↦ absurd (cc (rw (packed, pack, long) at e))
  | inr short ↦ elim (Option-cases (packed ps)) [
    | inl failed_later ↦ absurd (cc (rw (packed, pack, short, failed_later) at e))
    | inr (rest, made) ↦
        let (h, e') = packed-frames ps rest made in
        let here : some ((write_size (length p) ++ p) ++ rest) ≡ some stream =
          rw (packed, pack, short, made) at e in
        (
          (ground arith, h),
          some_inj (sym here)
              ∙ append_assoc (write_size (length p)) p rest
              ∙ ap (λ l. write_size (length p) ++ (p ++ l)) e',
        )
  ]
]
  where
    some_inj : {a b : List ℕ} → some a ≡ some b → a ≡ b
    some_inj h = cc

pub start-Valid : Valid new_queue
unfolding new_queue
start-Valid = record {
  ring = new_queue-IsValid;
  unique = new_queue-AllUnique;
  incomplete = λ g. tt;
}

pub start-contents : contents new_queue ≡ []
unfolding new_queue contents window
start-contents = refl

start-progress : (fd : ℕ) → progress fd new_queue ≡ none
unfolding new_queue
start-progress fd = refl

-- Where a socket's sender makes each package by `lpack`, and the stream arrives in any parts, between
-- the parts of any other streams, the receiver gets exactly the packages that were sent, in order.
pub reassembly :
    (parts : List (ℕ × List ℕ)) (fd : ℕ) (packs : List (List ℕ))
    → Parts parts
    → packed packs ≡ some (sent fd parts)
    → (got : List (Option Pack)) × (q' : Queue) × (feed parts new_queue ≡ some (got, q'))
      × (received fd got ≡ packs)
reassembly parts fd packs h e =
    let (got, q', run, v, all) = feed-streams parts new_queue start-Valid start-contents h in
    let (short, stream) = all fd in
    let (short', made) = packed-frames packs (sent fd parts) e in
    (
      got,
      q',
      run,
      (frames_unique (received fd got) packs (progress fd q') none short short' (v.incomplete fd) tt
          (sym stream
            ∙ ap (λ u. pending u ++ sent fd parts) (start-progress fd)
            ∙ made
            ∙ sym (append-nil _))).0,
    )
