-- ===== src/Netpack/Stream/More.antt =====
-- What filter_more and the filling of a package do to the stream, in ztask/lualib/lua-netpack.c.
use ztask.Base.{
  ℕ, ◌-◌, ◌^◌, ◌≤◌, ◌<◌, ◌≡◌, refl, sym, ap, subst, ◌∙◌, ◌≢◌, inl, inr, true, false, Option, none,
  some, List, [], ◌∷◌, ◌++◌, append_assoc, append-nil, length, take, drop, length-append,
  length-take, length-drop, take-append-drop, Bool-cases, ltb, ◌==◌, arith,
}
use ztask.Netpack.{
  Queue, Pack, Progress, reading, Filtered, nothing, more, whole, closed, opened, failed, warned,
  write_size, push_data, save_uncomplete, filter_more, fill,
}
use ztask.Netpack.Ring.{contents}
use ztask.Netpack.Table.{progress, save-progress, save-others}
use ztask.Netpack.Frame.{Bytes, Short, frames, pending, Bytes-drop}
use ztask.Netpack.Stream.{
  Valid, entries, first-Pushed, push_more-Pushed, push_data-Valid, push_data-progress, save-Valid,
  contents-save, nil_of,
}

-- How the packages come out: none, one in what `filter` returns, or all of them in the ring.
abbrev pub Given : ℕ → List (List ℕ) → Filtered → List (Option Pack) → List (Option Pack) → Type 0
Given fd packs nothing before after = (packs ≡ []) × (after ≡ before)
Given fd packs more before after = after ≡ before ++ entries fd packs
Given fd packs (whole id buffer) before after = (id ≡ fd) × (packs ≡ buffer ∷ []) × (after ≡ before)
Given fd packs (closed id) before after = ⊥
Given fd packs (opened id message) before after = ⊥
Given fd packs (failed id message) before after = ⊥
Given fd packs (warned id size) before after = ⊥

-- `stream` is what `fd` has sent since the last whole package.
pub record Filters (fd : ℕ) (stream : List ℕ) (q : Queue) (out : Filtered) (q' : Queue)
    : Type 0 where
  pub valid : Valid q'
  pub others : (g : ℕ) → g ≢ fd → progress g q' ≡ progress g q
  pub packs : List (List ℕ)
  pub short : Short packs
  pub cut : stream ≡ frames packs ++ pending (progress fd q')
  pub given : Given fd packs out (contents q) (contents q')

filter_more-Filters :
    (fd : ℕ) (first buffer : List ℕ) (q : Queue)
    → Valid q
    → progress fd q ≡ none
    → length first < 2 ^ 16
    → Bytes buffer
    → 0 < length buffer
    → (out : Filtered) × (q' : Queue) × (filter_more fd first buffer q ≡ some (out, q'))
      × Filters fd (write_size (length first) ++ (first ++ buffer)) q out q'
unfolding filter_more
filter_more-Filters fd first buffer q v fresh h bytes pos =
    let (q', run, p) =
      push_more-Pushed (length buffer) fd buffer (push_data fd first q)
        (push_data-Valid fd first q v) (push_data-progress fd fd first q ∙ fresh) bytes pos
        (omega arith) in
    let p' = first-Pushed fd first buffer q q' v h p in
    (
      more,
      q',
      rw (filter_more, run) refl,
      record {
        valid = p'.valid;
        others = p'.others;
        packs = p'.packs;
        short = p'.short;
        cut = p'.stream;
        given = p'.queued;
      },
    )

pub fill-Filters :
    (fd size : ℕ) (read buffer : List ℕ) (q : Queue)
    → Valid q
    → progress fd q ≡ none
    → size < 2 ^ 16
    → length read ≤ size
    → Bytes buffer
    → (out : Filtered) × (q' : Queue) × (fill fd size read buffer q ≡ some (out, q'))
      × Filters fd ((write_size size ++ read) ++ buffer) q out q'
unfolding fill
fill-Filters fd size read buffer q v fresh small le bytes =
    let need = size - length read in
    let p = read ++ take need buffer in
    elim (Bool-cases (ltb (length buffer) need)) [
      | inl part ↦
          let kept : Progress = reading size (read ++ buffer) in
          (
            nothing,
            save_uncomplete fd kept q,
            rw (fill, part) refl,
            record {
              valid = save-Valid fd kept q v fresh (part_lem part, small);
              others = λ g ne. save-others fd g kept q ne;
              packs = [];
              short = tt;
              cut =
                  append_assoc (write_size size) read buffer
                  ∙ ap pending (sym (save-progress fd kept q));
              given = (refl, contents-save fd kept q);
            },
          )
      | inr enough ↦
          let size' : length p ≡ size = size_lem enough in
          let cut' : write_size (length p) ++ (p ++ drop need buffer)
              ≡ (write_size size ++ read) ++ buffer =
            ap (λ n. write_size n ++ (p ++ drop need buffer)) size'
            ∙ ap (λ l. write_size size ++ l)
                (append_assoc read (take need buffer) (drop need buffer)
                  ∙ ap (λ l. read ++ l) (take-append-drop need buffer))
            ∙ sym (append_assoc (write_size size) read buffer) in
          elim (Bool-cases (length buffer - need == 0)) [
            | inl last ↦
                let empty : drop need buffer ≡ [] =
                  nil_of (drop need buffer)
                    (omega (arith, length-drop need buffer, zero_lem last)) in
                (
                  whole fd p,
                  q,
                  rw (fill, enough, last) refl,
                  record {
                    valid = v;
                    others = λ g ne. refl;
                    packs = p ∷ [];
                    short = (omega arith, tt);
                    cut =
                        sym cut'
                        ∙ ap (λ l. write_size (length p) ++ (p ++ l)) empty
                        ∙ sym (append-nil _)
                        ∙ ap (λ u. (write_size (length p) ++ (p ++ [])) ++ pending u) (sym fresh);
                    given = (refl, refl, refl);
                  },
                )
            | inr further ↦
                let (out, q', run, f) =
                  filter_more-Filters fd p (drop need buffer) q v fresh (omega arith)
                    (Bytes-drop need buffer bytes)
                    (omega (arith, length-drop need buffer, pos_lem further)) in
                (out, q', rw (fill, enough, further) run, subst (λ l. Filters fd l q out q') cut' f)
          ]
    ]
  where
    part_lem : ltb (length buffer) (size - length read) ≡ true → length (read ++ buffer) < size
    part_lem h = ground (arith, length-append read buffer)

    size_lem :
        ltb (length buffer) (size - length read) ≡ false
        → length (read ++ take (size - length read) buffer) ≡ size
    size_lem h = ground (
      arith,
      length-append read (take (size - length read) buffer),
      length-take (size - length read) buffer,
    )

    zero_lem : {n : ℕ} → (n == 0) ≡ true → n ≡ 0
    zero_lem h = ground arith

    pos_lem : {n : ℕ} → (n == 0) ≡ false → 0 < n
    pos_lem h = ground arith
