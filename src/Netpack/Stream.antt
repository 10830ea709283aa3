-- ===== src/Netpack/Stream.antt =====
-- `push_more` and `filter_data_` of ztask/lualib/lua-netpack.c cut a socket's stream into its packages,
-- wherever its parts are cut.
pub mod More
pub mod Fill
pub mod Reads
pub mod Runs
use ztask.Base.{
  ℕ, zero, suc, ◌+◌, ◌-◌, ◌*◌, ◌/◌, ◌%◌, ◌^◌, ◌≤◌, ◌<◌, ◌≡◌, refl, sym, ap, subst, ◌∙◌, ◌≢◌, inl,
  inr, true, false, Option, none, some, List, [], ◌∷◌, ◌++◌, map, append_assoc, append-nil, length,
  take, drop, length-append, length-take, length-drop, take-append-drop, Bool-cases, leb,
  if◌then◌else◌, ltb, ◌==◌, arith,
}
use ztask.Netpack.{
  Queue, Pack, Progress, half, reading, write_size, read_size, push_data, push_more,
  save_uncomplete,
}
use ztask.Netpack.Ring.{contents, contents-push_data, push_data-IsValid, IsValid}
use ztask.Netpack.Table.{progress, AllUnique, Unique, save-progress, save-others, save-AllUnique}
use ztask.Netpack.Frame.{
  Bytes, Short, frames, pending, Incomplete, read_size-lt, write_size-read_size, Bytes-drop,
}

pub record Valid (q : Queue) : Type 0 where
  pub ring : IsValid q
  pub unique : AllUnique q
  pub incomplete : (g : ℕ) → Incomplete (progress g q)

abbrev pub entry : ℕ → List ℕ → Option Pack
entry fd buffer = some (record { id = fd; buffer = buffer })

abbrev pub entries : ℕ → List (List ℕ) → List (Option Pack)
entries fd packs = map (entry fd) packs

-- `packs` are what `buffer`, the bytes of `fd` that follow a whole package, adds to the ring.
pub record Pushed (fd : ℕ) (buffer : List ℕ) (q : Queue) (q' : Queue) : Type 0 where
  pub valid : Valid q'
  pub others : (g : ℕ) → g ≢ fd → progress g q' ≡ progress g q
  pub packs : List (List ℕ)
  pub short : Short packs
  pub stream : buffer ≡ frames packs ++ pending (progress fd q')
  pub queued : contents q' ≡ contents q ++ entries fd packs

-- `push_data` on the ring, with the table as it is.
hash-push_data : (fd : ℕ) (buffer : List ℕ) (q : Queue) → (push_data fd buffer q).hash ≡ q.hash
unfolding push_data
hash-push_data fd buffer q = ground arith

pub push_data-progress :
    (fd g : ℕ) (buffer : List ℕ) (q : Queue) → progress g (push_data fd buffer q) ≡ progress g q
push_data-progress fd g buffer q = rw (hash-push_data fd buffer q) refl

pub push_data-Valid :
    (fd : ℕ) (buffer : List ℕ) (q : Queue) → Valid q → Valid (push_data fd buffer q)
push_data-Valid fd buffer q v = record {
  ring = push_data-IsValid fd buffer q v.ring;
  unique = subst (λ f. (h : ℕ) → Unique (f h)) (sym (hash-push_data fd buffer q)) v.unique;
  incomplete = λ g. subst Incomplete (sym (push_data-progress fd g buffer q)) (v.incomplete g);
}

-- `save_uncomplete` for a socket without an incomplete package.
pub save-Valid :
    (fd : ℕ) (p : Progress) (q : Queue)
    → Valid q
    → progress fd q ≡ none
    → Incomplete (some p)
    → Valid (save_uncomplete fd p q)
unfolding save_uncomplete
save-Valid fd p q v fresh i = record {
  ring = v.ring;
  unique = save-AllUnique fd p q v.unique fresh;
  incomplete = λ g. elim (Bool-cases (g == fd)) [
    | inl same ↦
        let e : g ≡ fd = ground arith in
        subst Incomplete
          (sym (ap (λ h. progress h (save_uncomplete fd p q)) e ∙ save-progress fd p q)) i
    | inr other ↦ subst Incomplete (sym (save-others fd g p q (ground arith))) (v.incomplete g)
  ];
}

pub contents-save :
    (fd : ℕ) (p : Progress) (q : Queue) → contents (save_uncomplete fd p q) ≡ contents q
unfolding save_uncomplete contents
contents-save fd p q = refl

pub saved-Pushed :
    (fd : ℕ) (buffer : List ℕ) (p : Progress) (q : Queue)
    → Valid q
    → progress fd q ≡ none
    → Incomplete (some p)
    → buffer ≡ pending (some p)
    → Pushed fd buffer q (save_uncomplete fd p q)
unfolding save_uncomplete contents
saved-Pushed fd buffer p q v fresh i e = record {
  valid = save-Valid fd p q v fresh i;
  others = λ g ne. save-others fd g p q ne;
  packs = [];
  short = tt;
  stream = e ∙ ap pending (sym (save-progress fd p q));
  queued = sym (append-nil _);
}

-- One package in front of what a later push adds.
pub first-Pushed :
    (fd : ℕ) (first rest : List ℕ) (q q' : Queue)
    → Valid q
    → length first < 2 ^ 16
    → Pushed fd rest (push_data fd first q) q'
    → Pushed fd (write_size (length first) ++ (first ++ rest)) q q'
first-Pushed fd first rest q q' v h p = record {
  valid = p.valid;
  others = λ g ne. p.others g ne ∙ push_data-progress fd g first q;
  packs = first ∷ p.packs;
  short = (h, p.short);
  stream =
      ap (λ l. write_size (length first) ++ (first ++ l)) p.stream
      ∙ sym (
          ap (λ l. write_size (length first) ++ l)
            (append_assoc first (frames p.packs) (pending (progress fd q'))))
      ∙ sym (
          append_assoc (write_size (length first)) (first ++ frames p.packs)
            (pending (progress fd q')));
  queued =
      p.queued
      ∙ ap (λ l. l ++ entries fd p.packs) (contents-push_data fd first q v.ring)
      ∙ append_assoc (contents q) (entry fd first ∷ []) (entries fd p.packs);
}

pub none-Pushed : (fd : ℕ) (q : Queue) → Valid q → progress fd q ≡ none → Pushed fd [] q q
none-Pushed fd q v fresh = record {
  valid = v;
  others = λ g ne. refl;
  packs = [];
  short = tt;
  stream = ap pending (sym fresh);
  queued = sym (append-nil _);
}

pub leb_of : (n m : ℕ) → ltb m n ≡ false → n ≤ m
leb_of n m h = ground arith

pub lt_of : {n : ℕ} → ltb 0 n ≡ true → 0 < n
lt_of h = ground arith

pub not_lt : {n : ℕ} → ltb 0 n ≡ false → n ≡ 0
not_lt h = ground arith

pub nil_of : (xs : List ℕ) → length xs ≡ 0 → xs ≡ []
nil_of [] h = refl
nil_of (x ∷ xs) h = absurd (omega arith)

-- `push_more` reads a buffer that is not empty, for a socket without an incomplete package.
pub push_more-Pushed :
    (fuel fd : ℕ) (buffer : List ℕ) (q : Queue)
    → Valid q
    → progress fd q ≡ none
    → Bytes buffer
    → 0 < length buffer
    → length buffer ≤ fuel
    → (q' : Queue) × (push_more fuel fd buffer q ≡ some q') × Pushed fd buffer q q'
unfolding push_more
push_more-Pushed zero fd buffer q v fresh bytes pos le = absurd (omega arith)
push_more-Pushed (suc fuel) fd [] q v fresh bytes pos le = absurd (omega arith)
push_more-Pushed (suc fuel) fd (b ∷ []) q v fresh (h, _) pos le =
    (_, refl, saved-Pushed fd (b ∷ []) (half b) q v fresh h refl)
push_more-Pushed (suc fuel) fd (high ∷ low ∷ buffer) q v fresh (h, (l, bytes)) pos le =
    let n = read_size high low in
    let small : n < 2 ^ 16 = read_size-lt high low h l in
    let header : write_size n ≡ high ∷ low ∷ [] = write_size-read_size high low h l in
    let fresh' = push_data-progress fd fd (take n buffer) q ∙ fresh in
    let valid' = push_data-Valid fd (take n buffer) q v in
    elim (Bool-cases (ltb (length buffer) n)) [
      | inl part ↦ (
        _,
        rw (push_more, part) refl,
        saved-Pushed fd (high ∷ low ∷ buffer) (reading n buffer) q v fresh (ground arith, small)
            (ap (λ w. w ++ buffer) (sym header)),
      )
      | inr whole_pack ↦
          let size : length (take n buffer) ≡ n =
            omega (arith, length-take n buffer, leb_of n (length buffer) whole_pack) in
          let cut : write_size (length (take n buffer)) ++ (take n buffer ++ drop n buffer)
              ≡ high ∷ low ∷ buffer =
            ap (λ k. write_size k ++ (take n buffer ++ drop n buffer)) size
            ∙ ap (λ w. w ++ (take n buffer ++ drop n buffer)) header
            ∙ ap (λ l'. high ∷ low ∷ l') (take-append-drop n buffer) in
          elim (Bool-cases (ltb 0 (length buffer - n))) [
            | inl further ↦
                let (q', run, p) =
                  push_more-Pushed fuel fd (drop n buffer) (push_data fd (take n buffer) q) valid'
                    fresh' (Bytes-drop n buffer bytes)
                    (omega (arith, length-drop n buffer, lt_of further))
                    (omega (arith, length-drop n buffer)) in
                (
                  q',
                  rw (push_more, whole_pack, further) run,
                  subst (λ l'. Pushed fd l' q q') cut
                      (first-Pushed fd (take n buffer) (drop n buffer) q q' v (omega arith) p),
                )
            | inr last ↦
                let empty : drop n buffer ≡ [] =
                  nil_of (drop n buffer) (omega (arith, length-drop n buffer, not_lt last)) in
                (
                  push_data fd (take n buffer) q,
                  rw (push_more, whole_pack, last) refl,
                  subst (λ l'. Pushed fd l' q (push_data fd (take n buffer) q)) cut
                      (first-Pushed fd (take n buffer) (drop n buffer) q
                        (push_data fd (take n buffer) q) v (omega arith)
                        (subst
                          (λ l'.
                            Pushed fd l' (push_data fd (take n buffer) q)
                              (push_data fd (take n buffer) q))
                          (sym empty)
                          (none-Pushed fd (push_data fd (take n buffer) q) valid' fresh'))),
                )
          ]
    ]
