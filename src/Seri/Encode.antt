-- ===== src/Seri/Encode.antt =====
-- The bytes that `pack_one` of ztask/lualib/lua-seri.c writes for a value.
use ztask.Base.{
  ℕ, ◌+◌, ◌-◌, ◌%◌, ◌^◌, ◌≡◌, refl, sym, ◌∙◌, inl, inr, Bool, true, false, not, ◌&&◌, Option, none,
  some, arith, List, [], ◌∷◌, ◌++◌, append-nil, length, leb, ltb, ◌==◌, if◌then◌else◌, Bool-cases,
}
use ztask.Seri.{
  Value, nil, boolean, integer, real, text, pointer, table, paired, unsupported, Values, no_values,
  value, Pairs, no_pairs, pair, WriteBlock, wb_push, wb_nil, wb_boolean, wb_integer, wb_real,
  wb_number, wb_pointer, wb_string, wb_array_size, le_bytes, count, in_array, is_nil, pack_one,
  pack_values, pack_hash, pack_metapairs, ◌>>=◌, type_nil, type_boolean, type_number, type_userdata,
  type_short_string, type_long_string, type_table, number_zero, number_byte, number_word,
  number_dword, number_qword, number_real, max_cookie, combine_type, max_depth,
}
use ztask.Seri.Blocks.{Valid, Adds, Adds-trans, wb_push-Adds}
use ztask.Seri.Format.{
  integer_bytes, text_bytes, array_size_bytes, encode, encode_values, encode_hash, encode_pairs,
  packable, packable_values, packable_hash, packable_pairs, in_array-is_index,
}

-- What a writer that may fail does: it adds `xs` where `ok` holds, and fails where not.
abbrev pub Writes : Bool → List ℕ → WriteBlock → Option WriteBlock → Type 0
Writes true xs b (some b') = Adds b xs b'
Writes true xs b none = ⊥
Writes false xs b (some b') = ⊥
Writes false xs b none = Unit {0}

Adds-Writes :
    (ok : Bool) (xs ys : List ℕ) (b b' : WriteBlock) (r : Option WriteBlock)
    → Adds b xs b'
    → Writes ok ys b' r
    → Writes ok (xs ++ ys) b r
Adds-Writes true xs ys b b' (some b'') h g = Adds-trans h g
Adds-Writes true xs ys b b' none h g = g
Adds-Writes false xs ys b b' (some b'') h g = g
Adds-Writes false xs ys b b' none h g = tt

Writes-bind :
    (ok ok' : Bool) (xs ys : List ℕ) (b : WriteBlock) (m : Option WriteBlock)
    (f : WriteBlock → Option WriteBlock)
    → Writes ok xs b m
    → ((b' : WriteBlock) → Valid b' → Writes ok' ys b' (f b'))
    → Writes (ok && ok') (xs ++ ys) b (m >>= f)
Writes-bind true ok' xs ys b (some b') f h k = Adds-Writes ok' xs ys b b' (f b') h (k b' h.valid)
Writes-bind true ok' xs ys b none f h k = absurd h
Writes-bind false ok' xs ys b (some b') f h k = absurd h
Writes-bind false ok' xs ys b none f h k = tt

-- At depths up to the greatest.
Writes-depth :
    (depth : ℕ) (xs : List ℕ) (b : WriteBlock) (r : Option WriteBlock) (ok : Bool)
    → Writes ok xs b r
    → Writes (not (ltb max_depth depth) && ok) xs b (if ltb max_depth depth then none else r)
Writes-depth depth xs b r ok h = elim (Bool-cases (ltb max_depth depth)) [
  | inl deep ↦ rw (deep) tt
  | inr fine ↦ rw (fine) h
]

two_pushes :
    (b : WriteBlock) (xs ys : List ℕ) → Valid b → Adds b (xs ++ ys) (wb_push (wb_push b xs) ys)
two_pushes b xs ys v =
    let first = wb_push-Adds b xs v in Adds-trans first (wb_push-Adds (wb_push b xs) ys first.valid)

wb_integer-Adds : (b : WriteBlock) (n : ℕ) → Valid b → Adds b (integer_bytes n) (wb_integer b n)
unfolding wb_integer
wb_integer-Adds b n v = elim (Bool-cases (n == 0)) [
  | inl t ↦ rw t (wb_push-Adds b (combine_type type_number number_zero ∷ []) v)
  | inr t ↦ elim (Bool-cases (leb (2 ^ 31) n && ltb n (2 ^ 64 - 2 ^ 31))) [
    | inl t₁ ↦ rw (t, t₁) (number number_qword (le_bytes 8 n))
    | inr t₁ ↦ elim (Bool-cases (leb (2 ^ 63) n)) [
      | inl t₂ ↦ rw (t, t₁, t₂) (number number_dword (le_bytes 4 (n % 2 ^ 32)))
      | inr t₂ ↦ elim (Bool-cases (ltb n 0x100)) [
        | inl t₃ ↦ rw (t, t₁, t₂, t₃) (number number_byte (le_bytes 1 n))
        | inr t₃ ↦ elim (Bool-cases (ltb n 0x10000)) [
          | inl t₄ ↦ rw (t, t₁, t₂, t₃, t₄) (number number_word (le_bytes 2 n))
          | inr t₄ ↦ rw (t, t₁, t₂, t₃, t₄) (number number_dword (le_bytes 4 n))
        ]
      ]
    ]
  ]
]
  where
    number :
        (cookie : ℕ) (buffer : List ℕ)
        → Adds b (combine_type type_number cookie ∷ buffer) (wb_number b cookie buffer)
    number cookie buffer = two_pushes b (combine_type type_number cookie ∷ []) buffer v

-- A scalar.
Writes-scalar :
    (depth : ℕ) (xs : List ℕ) (b b' : WriteBlock)
    → Adds b xs b'
    → Writes (not (ltb max_depth depth)) xs b (if ltb max_depth depth then none else some b')
Writes-scalar depth xs b b' h = elim (Bool-cases (ltb max_depth depth)) [
  | inl deep ↦ rw deep tt
  | inr fine ↦ rw fine h
]

wb_string-Adds :
    (b : WriteBlock) (str : List ℕ) → Valid b → Adds b (text_bytes str) (wb_string b str)
unfolding wb_string
wb_string-Adds b str v = elim (Bool-cases (ltb (length str) max_cookie)) [
  | inl t ↦ elim (Bool-cases (ltb 0 (length str))) [
    | inl t₁ ↦ rw (t, t₁) (two_pushes b (combine_type type_short_string (length str) ∷ []) str v)
    | inr t₁ ↦ rw (no_text str t₁) (wb_push-Adds b (combine_type type_short_string 0 ∷ []) v)
  ]
  | inr t ↦ elim (Bool-cases (ltb (length str) 0x10000)) [
    | inl t₁ ↦
        rw (t, t₁)
          (three_pushes b (combine_type type_long_string 2 ∷ []) (le_bytes 2 (length str)) str v)
    | inr t₁ ↦
        rw (t, t₁)
          (three_pushes b (combine_type type_long_string 4 ∷ []) (le_bytes 4 (length str)) str v)
  ]
]
  where
    no_text : (xs : List ℕ) → ltb 0 (length xs) ≡ false → xs ≡ []
    no_text [] h = refl
    no_text (x ∷ xs) h = absurd (ground arith)

    three_pushes :
        (c : WriteBlock) (xs ys zs : List ℕ)
        → Valid c
        → Adds c ((xs ++ ys) ++ zs) (wb_push (wb_push (wb_push c xs) ys) zs)
    three_pushes c xs ys zs w =
        let first = two_pushes c xs ys w in
        Adds-trans first (wb_push-Adds (wb_push (wb_push c xs) ys) zs first.valid)

wb_array_size-Adds :
    (b : WriteBlock) (n : ℕ) → Valid b → Adds b (array_size_bytes n) (wb_array_size b n)
unfolding wb_array_size
wb_array_size-Adds b n v = elim (Bool-cases (leb (max_cookie - 1) n)) [
  | inl t ↦ rw t (
      let first = wb_push-Adds b (combine_type type_table (max_cookie - 1) ∷ []) v in
      Adds-trans first
        (wb_integer-Adds (wb_push b (combine_type type_table (max_cookie - 1) ∷ [])) n first.valid))
  | inr t ↦ rw t (wb_push-Adds b (combine_type type_table n ∷ []) v)
]

mutual
  unfolding pack_one encode packable wb_nil wb_boolean wb_real wb_pointer

  -- `pack_one` of a packable value writes its encoding behind what is there, and it fails at any other
  -- value.
  pub pack_one-Writes :
      (v : Value) (depth : ℕ) (b : WriteBlock)
      → Valid b
      → Writes (packable v depth) (encode v) b (pack_one v depth b)
  pack_one-Writes nil depth b h =
      Writes-scalar depth (type_nil ∷ []) b (wb_nil b) (wb_push-Adds b (type_nil ∷ []) h)
  pack_one-Writes (boolean flag) depth b h =
      let xs : List ℕ = combine_type type_boolean (if flag then 1 else 0) ∷ [] in
      Writes-scalar depth xs b (wb_boolean b flag) (wb_push-Adds b xs h)
  pack_one-Writes (integer n) depth b h =
      Writes-scalar depth (integer_bytes n) b (wb_integer b n) (wb_integer-Adds b n h)
  pack_one-Writes (real n) depth b h =
      Writes-scalar depth (combine_type type_number number_real ∷ le_bytes 8 n) b (wb_real b n)
        (two_pushes b (combine_type type_number number_real ∷ []) (le_bytes 8 n) h)
  pack_one-Writes (text str) depth b h =
      Writes-scalar depth (text_bytes str) b (wb_string b str) (wb_string-Adds b str h)
  pack_one-Writes (pointer n) depth b h =
      Writes-scalar depth (type_userdata ∷ le_bytes 8 n) b (wb_pointer b n)
        (two_pushes b (type_userdata ∷ []) (le_bytes 8 n) h)
  pack_one-Writes (table array hash) depth b h =
      let n = count array in
      let size = wb_array_size-Adds b n h in
      Writes-depth depth (array_size_bytes n ++ (encode_values array ++ encode_hash hash n)) b
        (pack_values array (depth + 1) (wb_array_size b n) >>= λ b'.
          pack_hash hash n (depth + 1) b')
        (packable_values array (depth + 1) && packable_hash hash n (depth + 1))
        (Adds-Writes (packable_values array (depth + 1) && packable_hash hash n (depth + 1))
          (array_size_bytes n) (encode_values array ++ encode_hash hash n) b (wb_array_size b n)
          (pack_values array (depth + 1) (wb_array_size b n) >>= λ b'.
            pack_hash hash n (depth + 1) b')
          size
          (Writes-bind (packable_values array (depth + 1)) (packable_hash hash n (depth + 1))
            (encode_values array) (encode_hash hash n) (wb_array_size b n)
            (pack_values array (depth + 1) (wb_array_size b n))
            (λ b'. pack_hash hash n (depth + 1) b')
            (pack_values-Writes array (depth + 1) (wb_array_size b n) size.valid)
            (λ b' h'. pack_hash-Writes hash n (depth + 1) b' h')))
  pack_one-Writes (paired pairs) depth b h =
      let xs : List ℕ = combine_type type_table 0 ∷ [] in
      let first = wb_push-Adds b xs h in
      Writes-depth depth (xs ++ encode_pairs pairs) b
        (pack_metapairs pairs (depth + 1) (wb_push b xs)) (packable_pairs pairs (depth + 1))
        (Adds-Writes (packable_pairs pairs (depth + 1)) xs (encode_pairs pairs) b (wb_push b xs)
          (pack_metapairs pairs (depth + 1) (wb_push b xs)) first
          (pack_metapairs-Writes pairs (depth + 1) (wb_push b xs) first.valid))
  pack_one-Writes unsupported depth b h = tt

  pub pack_values-Writes :
      (vs : Values) (depth : ℕ) (b : WriteBlock)
      → Valid b
      → Writes (packable_values vs depth) (encode_values vs) b (pack_values vs depth b)
  pack_values-Writes no_values depth b h = record { valid = h; added = sym (append-nil _) }
  pack_values-Writes (value v vs) depth b h =
      Writes-bind (packable v depth) (packable_values vs depth) (encode v) (encode_values vs) b
        (pack_one v depth b) (λ b'. pack_values vs depth b') (pack_one-Writes v depth b h)
        (λ b' h'. pack_values-Writes vs depth b' h')

  pub pack_hash-Writes :
      (ps : Pairs) (n depth : ℕ) (b : WriteBlock)
      → Valid b
      → Writes (packable_hash ps n depth) (encode_hash ps n) b (pack_hash ps n depth b)
  pack_hash-Writes no_pairs n depth b h = wb_push-Adds b (type_nil ∷ []) h
  pack_hash-Writes (pair k v ps) n depth b h = elim (Bool-cases (in_array n k)) [
    | inl skip ↦ rw (skip, sym (in_array-is_index n k) ∙ skip) (pack_hash-Writes ps n depth b h)
    | inr keep ↦
        rw (keep, sym (in_array-is_index n k) ∙ keep)
          (Writes-bind (packable k depth) (packable v depth && packable_hash ps n depth) (encode k)
            (encode v ++ encode_hash ps n) b (pack_one k depth b)
            (λ b₁. pack_one v depth b₁ >>= λ b₂. pack_hash ps n depth b₂)
            (pack_one-Writes k depth b h)
            (λ b₁ h₁.
              Writes-bind (packable v depth) (packable_hash ps n depth) (encode v)
                (encode_hash ps n) b₁ (pack_one v depth b₁) (λ b₂. pack_hash ps n depth b₂)
                (pack_one-Writes v depth b₁ h₁) (λ b₂ h₂. pack_hash-Writes ps n depth b₂ h₂)))
  ]

  pub pack_metapairs-Writes :
      (ps : Pairs) (depth : ℕ) (b : WriteBlock)
      → Valid b
      → Writes (packable_pairs ps depth) (encode_pairs ps) b (pack_metapairs ps depth b)
  pack_metapairs-Writes no_pairs depth b h = wb_push-Adds b (type_nil ∷ []) h
  pack_metapairs-Writes (pair k v ps) depth b h = elim (Bool-cases (is_nil k)) [
    | inl end ↦ rw end (wb_push-Adds b (type_nil ∷ []) h)
    | inr more ↦ rw more (
        Writes-bind (packable k depth) (packable v depth && packable_pairs ps depth) (encode k)
          (encode v ++ encode_pairs ps) b (pack_one k depth b)
          (λ b₁. pack_one v depth b₁ >>= λ b₂. pack_metapairs ps depth b₂)
          (pack_one-Writes k depth b h)
          (λ b₁ h₁.
            Writes-bind (packable v depth) (packable_pairs ps depth) (encode v) (encode_pairs ps) b₁
              (pack_one v depth b₁) (λ b₂. pack_metapairs ps depth b₂)
              (pack_one-Writes v depth b₁ h₁) (λ b₂ h₂. pack_metapairs-Writes ps depth b₂ h₂)))
  ]
