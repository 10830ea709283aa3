-- ===== src/Seri/Blocks.antt =====
-- The chain of blocks of ztask/lualib/lua-seri.c is one growing sequence of bytes, whatever the sizes
-- of the pushes.
use ztask.Base.{
  ℕ, zero, suc, ◌+◌, ◌-◌, ◌≤◌, ◌<◌, ◌≡◌, refl, sym, ap, subst, ◌∙◌, inl, inr, true, false, some,
  arith, List, [], ◌∷◌, ◌++◌, append_assoc, append-nil, length, take, drop, length-append,
  length-take, length-drop, take-append-drop, leb, ◌==◌, Bool-cases,
}
use ztask.Seri.{WriteBlock, wb_init, next_block, wb_fill, wb_push, block_size, seri_copy}

abbrev pub concat : List (List ℕ) → List ℕ
concat [] = []
concat (blk ∷ blks) = blk ++ concat blks

-- Every byte that was pushed, in order.
unfoldable pub bytes : WriteBlock → List ℕ
bytes b = concat b.full ++ b.current

abbrev pub Full : List (List ℕ) → Type 0
Full [] = Unit {0}
Full (blk ∷ blks) = (length blk ≡ block_size) × Full blks

pub record Valid (b : WriteBlock) : Type 0 where
  pub full : Full b.full
  pub room : length b.current ≤ block_size
  pub counted : b.len ≡ length (bytes b)

-- `b'` has the bytes `xs` behind those of `b`.
pub record Adds (b : WriteBlock) (xs : List ℕ) (b' : WriteBlock) : Type 0 where
  pub valid : Valid b'
  pub added : bytes b' ≡ bytes b ++ xs

concat-append : (xs ys : List (List ℕ)) → concat (xs ++ ys) ≡ concat xs ++ concat ys
concat-append [] ys = refl
concat-append (x ∷ xs) ys =
    ap (λ l. x ++ l) (concat-append xs ys) ∙ sym (append_assoc x (concat xs) (concat ys))

Full-append :
    (xs : List (List ℕ)) (blk : List ℕ) → Full xs → length blk ≡ block_size → Full (xs ++ blk ∷ [])
Full-append [] blk h e = (e, tt)
Full-append (x ∷ xs) blk (e', h) e = (e', Full-append xs blk h e)

next_block-bytes : (b : WriteBlock) → bytes (next_block b) ≡ bytes b
unfolding bytes
next_block-bytes b =
    append-nil (concat (b.full ++ b.current ∷ []))
    ∙ concat-append b.full (b.current ∷ [])
    ∙ ap (λ l. concat b.full ++ l) (append-nil b.current)

next_block-Valid : (b : WriteBlock) → Valid b → length b.current ≡ block_size → Valid (next_block b)
next_block-Valid b v e = record {
  full = Full-append b.full b.current v.full e;
  room = omega arith;
  counted = v.counted ∙ ap length (sym (next_block-bytes b));
}

-- Bytes that fit into the current block.
place-Adds :
    (b : WriteBlock) (xs : List ℕ)
    → Valid b
    → length b.current + length xs ≤ block_size
    → Adds b xs (record b { current = b.current ++ xs; len = b.len + length xs })
unfolding bytes
place-Adds b xs v h =
    let e = append_assoc (concat b.full) b.current xs in
    record {
      valid = record {
        full = v.full;
        room = omega (arith, length-append b.current xs);
        counted =
            omega (arith, v.counted, ap length e, length-append (concat b.full ++ b.current) xs);
      };
      added = sym e;
    }

pub Adds-trans :
    {b b' b'' : WriteBlock} {xs ys : List ℕ} → Adds b xs b' → Adds b' ys b'' → Adds b (xs ++ ys) b''
Adds-trans {b} {xs} {ys} p q = record {
  valid = q.valid;
  added = q.added ∙ ap (λ l. l ++ ys) p.added ∙ append_assoc (bytes b) xs ys;
}

wb_fill-Adds :
    (fuel : ℕ) (b : WriteBlock) (buffer : List ℕ)
    → Valid b
    → length b.current < block_size
    → length buffer < fuel
    → Adds b buffer (wb_fill fuel b buffer)
unfolding wb_fill
wb_fill-Adds zero b buffer v room h = absurd (omega arith)
wb_fill-Adds (suc fuel) b buffer v room h =
    elim (Bool-cases (leb (length b.current + length buffer) block_size)) [
      | inl fits ↦ rw (wb_fill, fits) (place-Adds b buffer v (ground arith))
      | inr long ↦
          let copy = block_size - length b.current in
          let more : copy < length buffer = ground arith in
          let taken : length (take copy buffer) ≡ copy = omega (arith, length-take copy buffer) in
          let filled = place-Adds b (take copy buffer) v (omega arith) in
          let b₁ : WriteBlock = record b {
            current = b.current ++ take copy buffer;
            len = b.len + copy;
          } in
          let filled' : Adds b (take copy buffer) b₁ =
            subst
              (λ n.
                Adds b (take copy buffer)
                  (record b { current = b.current ++ take copy buffer; len = b.len + n }))
              taken filled in
          let moved : Valid (next_block b₁) =
            next_block-Valid b₁ filled'.valid
              (length-append b.current (take copy buffer) ∙ omega arith) in
          let rest =
            wb_fill-Adds fuel (next_block b₁) (drop copy buffer) moved (omega arith)
              (omega (arith, length-drop copy buffer)) in
          rw (wb_fill, long)
            (subst (λ l. Adds b l (wb_fill fuel (next_block b₁) (drop copy buffer)))
              (take-append-drop copy buffer)
              (Adds-trans filled' (record {
                valid = rest.valid;
                added = rest.added ∙ ap (λ l. l ++ drop copy buffer) (next_block-bytes b₁);
              })))
    ]

-- `wb_push` adds the bytes of the buffer, of any size, behind all that was pushed before.
pub wb_push-Adds : (b : WriteBlock) (buffer : List ℕ) → Valid b → Adds b buffer (wb_push b buffer)
unfolding wb_push
wb_push-Adds b buffer v = elim (Bool-cases (length b.current == block_size)) [
  | inl end ↦
      let rest =
        wb_fill-Adds (length buffer + 1) (next_block b) buffer (next_block-Valid b v (ground arith))
          (omega arith) (omega arith) in
      rw (wb_push, end)
        (record {
          valid = rest.valid;
          added = rest.added ∙ ap (λ l. l ++ buffer) (next_block-bytes b);
        })
  | inr room ↦
      let h = v.room in
      rw (wb_push, room) (wb_fill-Adds (length buffer + 1) b buffer v (ground arith) (omega arith))
]

take-length : (xs : List ℕ) → take (length xs) xs ≡ xs
take-length [] = refl
take-length (x ∷ xs) = ap (λ l. x ∷ l) (take-length xs)

seri_copy-concat :
    (full : List (List ℕ)) (current : List ℕ)
    → Full full
    → length current ≤ block_size
    → seri_copy (full ++ current ∷ []) (length (concat full ++ current))
      ≡ some (concat full ++ current)
unfolding seri_copy
seri_copy-concat [] [] h room = refl
seri_copy-concat [] (x ∷ xs) h room = elim (Bool-cases (leb block_size (suc (length xs)))) [
  | inl exact ↦
      let last : (suc (length xs) - block_size == 0) ≡ true = ground arith in
      let busy : (suc (length xs) == 0) ≡ false = ground arith in
      rw (busy, exact, last) (ap some (append-nil (x ∷ xs)))
  | inr part ↦
      let busy : (suc (length xs) == 0) ≡ false = ground arith in
      rw (busy, part) (ap (λ l. some (x ∷ l)) (take-length xs))
]
seri_copy-concat (blk ∷ full) current (e, h) room =
    let tail = concat full ++ current in
    let assoc = append_assoc blk (concat full) current in
    let size : length (blk ++ tail) ≡ block_size + length tail =
      omega (arith, length-append blk tail) in
    let busy : (length (blk ++ tail) == 0) ≡ false = ground arith in
    let whole_block : leb block_size (length (blk ++ tail)) ≡ true = ground arith in
    let left : length (blk ++ tail) - block_size ≡ length tail = omega arith in
    rw (assoc, busy, whole_block, left, seri_copy-concat full current h room) refl

-- The copying loop of `seri` stays within the blocks, and copies every byte that was pushed.
pub seri_copy-bytes :
    (b : WriteBlock) → Valid b → seri_copy (b.full ++ b.current ∷ []) b.len ≡ some (bytes b)
unfolding bytes
seri_copy-bytes b v =
    ap (seri_copy (b.full ++ b.current ∷ [])) v.counted
    ∙ seri_copy-concat b.full b.current v.full v.room

pub wb_init-Valid : Valid wb_init
unfolding wb_init bytes
wb_init-Valid = record { full = tt; room = omega arith; counted = refl }
