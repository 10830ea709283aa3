-- ===== src/Netpack/Stream/Fill.antt =====
-- `filter_data_` of ztask/lualib/lua-netpack.c: one part of a socket's stream.
use ztask.Base.{
  ℕ, zero, suc, ◌-◌, ◌^◌, ◌<◌, ◌≡◌, refl, sym, ap, subst, ◌∙◌, ◌≢◌, inl, inr, true, false, none,
  some, List, [], ◌∷◌, ◌++◌, length, take, drop, Bool-cases, Option-cases, if◌then◌else◌, ltb, ◌==◌,
  arith,
}
use ztask.Netpack.{
  Queue, Uncomplete, Progress, half, reading, Filtered, nothing, whole, write_size, read_size,
  save_uncomplete, find_uncomplete, filter_more, fill, filter_data,
}
use ztask.Netpack.Ring.{contents, IsValid}
use ztask.Netpack.Table.{
  progress, AllUnique, save-progress, save-others, Finds, find_uncomplete-Finds,
}
use ztask.Netpack.Frame.{Bytes, pending, Incomplete, read_size-lt, write_size-read_size}
use ztask.Netpack.Stream.{Valid, save-Valid, contents-save}
use ztask.Netpack.Stream.More.{Given, Filters, fill-Filters}

-- The part of `filter_data_` for a socket without an incomplete package does what filling would do.
start-fill :
    (fd n : ℕ) (rest : List ℕ) (q : Queue)
    → (if ltb (length rest) n
        then some (nothing, save_uncomplete fd (reading n rest) q)
        else if length rest == n
        then some (whole fd rest, q)
        else filter_more fd (take n rest) (drop n rest) q)
      ≡ fill fd n [] rest q
unfolding fill
start-fill fd n rest q = elim (Bool-cases (ltb (length rest) n)) [
  | inl part ↦ rw (fill, part, whole_size) (rw part refl)
  | inr enough ↦ elim (Bool-cases (length rest == n)) [
    | inl last ↦
        rw (fill, enough, whole_size)
          (rw (enough, last, all n rest (ground arith), none_left last) refl)
    | inr further ↦
        rw (fill, enough, whole_size) (rw (enough, further, some_left enough further) refl)
  ]
]
  where
    whole_size : n - 0 ≡ n
    whole_size = omega arith

    none_left : (length rest == n) ≡ true → (length rest - n == 0) ≡ true
    none_left h = ground arith

    some_left :
        ltb (length rest) n ≡ false → (length rest == n) ≡ false → (length rest - n == 0) ≡ false
    some_left h h' = ground arith

    all : (k : ℕ) (xs : List ℕ) → length xs ≡ k → take k xs ≡ xs
    all zero [] e = refl
    all zero (x ∷ xs) e = absurd (omega arith)
    all (suc k) [] e = absurd (omega arith)
    all (suc k) (x ∷ xs) e = ap (λ l. x ∷ l) (all k xs (omega arith))

restart :
    (fd : ℕ) (stream : List ℕ) (q q₁ : Queue) (out : Filtered) (q' : Queue)
    → ((g : ℕ) → g ≢ fd → progress g q₁ ≡ progress g q)
    → contents q₁ ≡ contents q
    → Filters fd stream q₁ out q'
    → Filters fd stream q out q'
restart fd stream q q₁ out q' others same f = record {
  valid = f.valid;
  others = λ g ne. f.others g ne ∙ others g ne;
  packs = f.packs;
  short = f.short;
  cut = f.cut;
  given = subst (λ c. Given fd f.packs out c (contents q')) same f.given;
}

taken-contents : (q q₁ : Queue) → q₁ ≡ record q { hash = q₁.hash } → contents q₁ ≡ contents q
unfolding contents
taken-contents q q₁ same = ap contents same

taken-Valid :
    (fd : ℕ) (q q₁ : Queue)
    → Valid q
    → progress fd q₁ ≡ none
    → ((g : ℕ) → g ≢ fd → progress g q₁ ≡ progress g q)
    → AllUnique q₁
    → q₁ ≡ record q { hash = q₁.hash }
    → Valid q₁
taken-Valid fd q q₁ v gone others unique same = record {
  ring = subst IsValid (sym same) v.ring;
  unique = unique;
  incomplete = λ g. elim (Bool-cases (g == fd)) [
    | inl here ↦
        let e : g ≡ fd = ground arith in
        subst Incomplete (sym (ap (λ i. progress i q₁) e ∙ gone)) tt
    | inr other ↦ subst Incomplete (sym (others g (ground arith))) (v.incomplete g)
  ];
}

-- `filter_data_` reads any part of the stream of `fd` that is not empty: together with what the part
-- before has left, it is the stream of the packages that come out, and what is left now.
pub filter_data-Filters :
    (fd : ℕ) (buffer : List ℕ) (q : Queue)
    → Valid q
    → Bytes buffer
    → 0 < length buffer
    → (out : Filtered) × (q' : Queue) × (filter_data fd buffer q ≡ some (out, q'))
      × Filters fd (pending (progress fd q) ++ buffer) q out q'
unfolding filter_data
filter_data-Filters fd [] q v bytes pos = absurd (omega arith)
filter_data-Filters fd (byte ∷ buffer) q v (h, bytes) pos =
    elim (Option-cases (find_uncomplete q fd)) [
      | inl e ↦
          let fresh = subst (Finds fd q) e (find_uncomplete-Finds fd q v.unique) in
          subst
            (λ u.
              (out : Filtered) × (q' : Queue) × (filter_data fd (byte ∷ buffer) q ≡ some (out, q'))
              × Filters fd (pending u ++ (byte ∷ buffer)) q out q')
            (sym fresh) (from_start buffer bytes e fresh)
      | inr ((uc, q₁), e) ↦
          let f = subst (Finds fd q) e (find_uncomplete-Finds fd q v.unique) in
          from_found uc q₁ uc.progress refl e (f.0, f.1, f.2, f.3, f.4)
    ]
  where
    from_start :
        (rest : List ℕ)
        → Bytes rest
        → find_uncomplete q fd ≡ none
        → progress fd q ≡ none
        → (out : Filtered) × (q' : Queue) × (filter_data fd (byte ∷ rest) q ≡ some (out, q'))
          × Filters fd (byte ∷ rest) q out q'
    from_start [] b e fresh = (
      nothing,
      save_uncomplete fd (half byte) q,
      rw (filter_data, e) refl,
      record {
        valid = save-Valid fd (half byte) q v fresh h;
        others = λ g ne. save-others fd g (half byte) q ne;
        packs = [];
        short = tt;
        cut = ap pending (sym (save-progress fd (half byte) q));
        given = (refl, contents-save fd (half byte) q);
      },
    )
    from_start (low ∷ rest) (l, b) e fresh =
        let n = read_size byte low in
        let (out, q', run, f) =
          fill-Filters fd n [] rest q v fresh (read_size-lt byte low h l) (omega arith) b in
        (
          out,
          q',
          rw (filter_data, e) (start-fill fd n rest q ∙ run),
          subst (λ s. Filters fd s q out q')
              (ap (λ w. (w ++ []) ++ rest) (write_size-read_size byte low h l)) f,
        )

    Result : Type 0
    Result =
        (out : Filtered) × (q' : Queue) × (filter_data fd (byte ∷ buffer) q ≡ some (out, q'))
        × Filters fd (pending (progress fd q) ++ byte ∷ buffer) q out q'

    from_found :
        (uc : Uncomplete) (q₁ : Queue) (p : Progress)
        → uc.progress ≡ p
        → find_uncomplete q fd ≡ some (uc, q₁)
        → Finds fd q (some (uc, q₁))
        → Result
    from_found uc q₁ (half header) at e (was, gone, others, unique, same) =
        let here : progress fd q ≡ some (half header) = was ∙ ap some at in
        let hh : header < 2 ^ 8 = subst Incomplete here (v.incomplete fd) in
        let n = read_size header byte in
        let (out, q', run, f) =
          fill-Filters fd n [] buffer q₁ (taken-Valid fd q q₁ v gone others unique same) gone
            (read_size-lt header byte hh h) (omega arith) bytes in
        (
          out,
          q',
          rw (filter_data, e, at) run,
          subst (λ u. Filters fd (pending u ++ byte ∷ buffer) q out q') (sym here)
              (restart fd (header ∷ byte ∷ buffer) q q₁ out q' others (taken-contents q q₁ same) (
                subst (λ s. Filters fd s q₁ out q')
                  (ap (λ w. (w ++ []) ++ buffer) (write_size-read_size header byte hh h)) f)),
        )
    from_found uc q₁ (reading size read) at e (was, gone, others, unique, same) =
        let here : progress fd q ≡ some (reading size read) = was ∙ ap some at in
        let (short, small) = subst Incomplete here (v.incomplete fd) in
        let (out, q', run, f) =
          fill-Filters fd size read (byte ∷ buffer) q₁
            (taken-Valid fd q q₁ v gone others unique same) gone small (omega arith) (h, bytes) in
        (
          out,
          q',
          rw (filter_data, e, at) run,
          subst (λ u. Filters fd (pending u ++ byte ∷ buffer) q out q') (sym here)
              (restart fd ((write_size size ++ read) ++ byte ∷ buffer) q q₁ out q' others
                (taken-contents q q₁ same) f),
        )
