-- ===== src/Seri/RoundTrip.antt =====
-- What the reader of ztask/lualib/lua-seri.c makes of the bytes that the writer wrote.
use ztask.Base.{
  ℕ, zero, suc, ◌+◌, ◌*◌, ◌≤◌, ◌<◌, ◌≡◌, refl, ap, ◌∙◌, inl, inr, true, false, arith, List, ◌∷◌,
  ◌++◌, append_assoc, length, length-append, ltb, Bool-cases,
}
use ztask.Seri.{
  Value, nil, boolean, integer, real, text, pointer, table, paired, unsupported, Values, no_values,
  value, Pairs, no_pairs, pair, count, is_nil, type_nil, type_boolean, max_cookie,
}
use ztask.Seri.Unpack.{parsed, push_scalar, unpack_one, unpack_array, unpack_hash}
use ztask.Seri.Format.{is_index, array_size_bytes, encode, encode_values, encode_hash, encode_pairs}
use ztask.Seri.Numbers.{integer_bytes-Number}
use ztask.Seri.Scalars.{
  unpack_one-scalar, unpack_one-integer, unpack_one-text, unpack_one-real, unpack_one-pointer,
  unpack_one-array_size,
}
use ztask.Seri.Rebuilt.{
  rebuilt, rebuilt_values, rebuilt_hash, rebuilt_pairs, Plain, PlainValues, PlainHash, PlainPairs,
  is_nil-rebuilt, table_read, array_read, pair_read, hash_end, array_size_bytes-busy,
}

no_array : (fuel : ℕ) (rest : List ℕ) → unpack_array (suc fuel) 0 rest ≡ parsed no_values rest
unfolding unpack_array
no_array fuel rest = refl

ended :
    (fuel : ℕ) (rest : List ℕ)
    → 5 ≤ fuel
    → unpack_hash fuel (type_nil ∷ rest) ≡ parsed no_pairs rest
ended zero rest h = absurd (omega arith)
ended (suc zero) rest h = absurd (omega arith)
ended (suc (suc fuel)) rest h = hash_end fuel rest

pub encode-busy : (v : Value) → Plain v → 0 < length (encode v)
unfolding encode Plain
encode-busy nil p = omega arith
encode-busy (boolean flag) p = omega arith
encode-busy (integer n) p = omega (arith, ap length (integer_bytes-Number n p).shape)
encode-busy (real n) p = omega arith
encode-busy (text str) p = elim (Bool-cases (ltb (length str) max_cookie)) [
  | inl short ↦ rw short (omega arith)
  | inr long ↦ elim (Bool-cases (ltb (length str) 0x10000)) [
    | inl word ↦ rw (long, word) (omega arith)
    | inr dword ↦ rw (long, dword) (omega arith)
  ]
]
encode-busy (pointer n) p = omega arith
encode-busy (table array hash) (small, p, q) =
    let size = array_size_bytes (count array) in
    let some_byte = array_size_bytes-busy (count array) small in
    omega (arith, length-append size (encode_values array ++ encode_hash hash (count array)))
encode-busy (paired pairs) p = omega arith
encode-busy unsupported p = absurd p

-- The encoding of the value, with any bytes behind it, is read as the value.
abbrev ReadsBack : Value → Type 0
ReadsBack v =
    (fuel : ℕ) (rest : List ℕ)
    → 3 * length (encode v) + 1 ≤ fuel
    → unpack_one fuel (encode v ++ rest) ≡ parsed (rebuilt v) rest

unpack_pair-encode :
    (k v : Value) (ps : Pairs) (bs : List ℕ) (fuel : ℕ) (rest : List ℕ)
    → 0 < length (encode k)
    → 0 < length (encode v)
    → is_nil k ≡ false
    → ReadsBack k
    → ReadsBack v
    → 3 * length (encode k ++ (encode v ++ bs)) + 2 ≤ fuel
    → ((f : ℕ) → 3 * length bs + 2 ≤ f → unpack_hash f (bs ++ rest) ≡ parsed ps rest)
    → unpack_hash fuel ((encode k ++ (encode v ++ bs)) ++ rest)
      ≡ parsed (pair (rebuilt k) (rebuilt v) ps) rest
unpack_pair-encode k v ps bs zero rest key_byte value_byte full one one' h others =
    absurd (omega arith)
unpack_pair-encode k v ps bs (suc zero) rest key_byte value_byte full one one' h others =
    absurd (omega arith)
unpack_pair-encode k v ps bs (suc (suc fuel)) rest key_byte value_byte full one one' h others =
    let len = length-append (encode k) (encode v ++ bs) in
    let len' = length-append (encode v) bs in
    pair_read fuel ((encode k ++ (encode v ++ bs)) ++ rest) ((encode v ++ bs) ++ rest) (bs ++ rest)
      rest
      (ap (unpack_one (suc fuel)) (append_assoc (encode k) (encode v ++ bs) rest)
        ∙ one (suc fuel) ((encode v ++ bs) ++ rest) (omega arith))
      (is_nil-rebuilt k ∙ full)
      (ap (unpack_one fuel) (append_assoc (encode v) bs rest)
        ∙ one' fuel (bs ++ rest) (omega arith))
      (others fuel (omega arith))

mutual
  unfolding encode rebuilt Plain push_scalar

  -- The encoding of a value, with any bytes behind it, is read as the value.
  pub unpack_one-encode :
      (v : Value) (fuel : ℕ) (rest : List ℕ)
      → Plain v
      → 3 * length (encode v) + 1 ≤ fuel
      → unpack_one fuel (encode v ++ rest) ≡ parsed (rebuilt v) rest
  unpack_one-encode v zero rest p h = absurd (omega arith)
  unpack_one-encode nil (suc fuel) rest p h =
      unpack_one-scalar fuel type_nil 0 rest (omega arith) refl
  unpack_one-encode (boolean true) (suc fuel) rest p h =
      unpack_one-scalar fuel type_boolean 1 rest (omega arith) refl
  unpack_one-encode (boolean false) (suc fuel) rest p h =
      unpack_one-scalar fuel type_boolean 0 rest (omega arith) refl
  unpack_one-encode (integer n) (suc fuel) rest p h = unpack_one-integer fuel n rest p
  unpack_one-encode (real n) (suc fuel) rest p h = unpack_one-real fuel n rest p
  unpack_one-encode (text str) (suc fuel) rest p h = unpack_one-text fuel str rest p
  unpack_one-encode (pointer n) (suc fuel) rest p h = unpack_one-pointer fuel n rest p
  unpack_one-encode (table array hash) (suc zero) rest (small, p, q) h =
      let some_byte = array_size_bytes-busy (count array) small in
      absurd (
        omega (
          arith,
          length-append (array_size_bytes (count array))
              (encode_values array ++ encode_hash hash (count array)),
        ))
  unpack_one-encode (table array hash) (suc (suc fuel)) rest (small, p, q) h =
      let n = count array in
      let size = array_size_bytes n in
      let values = encode_values array in
      let pairs = encode_hash hash n in
      let some_byte = array_size_bytes-busy n small in
      let len = length-append size (values ++ pairs) in
      let len' = length-append values pairs in
      ap (unpack_one (suc (suc fuel))) (append_assoc size (values ++ pairs) rest)
      ∙ unpack_one-array_size (suc fuel) n ((values ++ pairs) ++ rest) small
      ∙ table_read fuel n ((values ++ pairs) ++ rest) (pairs ++ rest) rest
          (ap (unpack_array fuel n) (append_assoc values pairs rest)
            ∙ unpack_array-encode array fuel (pairs ++ rest) p (omega arith))
          (unpack_hash-encode hash n fuel rest q (omega arith))
  unpack_one-encode (paired pairs) (suc zero) rest p h = absurd (omega arith)
  unpack_one-encode (paired pairs) (suc (suc zero)) rest p h = absurd (omega arith)
  unpack_one-encode (paired pairs) (suc (suc (suc fuel))) rest p h =
      unpack_one-array_size (suc (suc fuel)) 0 (encode_pairs pairs ++ rest) (omega arith)
      ∙ table_read (suc fuel) 0 (encode_pairs pairs ++ rest) (encode_pairs pairs ++ rest) rest
          (no_array fuel (encode_pairs pairs ++ rest))
          (unpack_pairs-encode pairs (suc fuel) rest p (omega arith))
  unpack_one-encode unsupported (suc fuel) rest p h = absurd p

  pub unpack_array-encode :
      (vs : Values) (fuel : ℕ) (rest : List ℕ)
      → PlainValues vs
      → 3 * length (encode_values vs) + 2 ≤ fuel
      → unpack_array fuel (count vs) (encode_values vs ++ rest) ≡ parsed (rebuilt_values vs) rest
  unpack_array-encode vs zero rest p h = absurd (omega arith)
  unpack_array-encode no_values (suc fuel) rest p h = no_array fuel rest
  unpack_array-encode (value v vs) (suc fuel) rest (p, q) h =
      let len = length-append (encode v) (encode_values vs) in
      let some_byte = encode-busy v p in
      array_read fuel (count vs) ((encode v ++ encode_values vs) ++ rest) (encode_values vs ++ rest)
        rest
        (ap (unpack_one fuel) (append_assoc (encode v) (encode_values vs) rest)
          ∙ unpack_one-encode v fuel (encode_values vs ++ rest) p (omega arith))
        (unpack_array-encode vs fuel rest q (omega arith))

  pub unpack_hash-encode :
      (ps : Pairs) (n fuel : ℕ) (rest : List ℕ)
      → PlainHash ps
      → 3 * length (encode_hash ps n) + 2 ≤ fuel
      → unpack_hash fuel (encode_hash ps n ++ rest) ≡ parsed (rebuilt_hash ps n) rest
  unpack_hash-encode no_pairs n zero rest p h = absurd (omega arith)
  unpack_hash-encode no_pairs n (suc zero) rest p h = absurd (omega arith)
  unpack_hash-encode no_pairs n (suc (suc fuel)) rest p h = hash_end fuel rest
  unpack_hash-encode (pair k v ps) n fuel rest (full, p, q, more) h =
      elim (Bool-cases (is_index n k)) [
        | inl skip ↦ rw skip (unpack_hash-encode ps n fuel rest more (rw skip at h))
        | inr keep ↦ rw keep (
            unpack_pair-encode k v (rebuilt_hash ps n) (encode_hash ps n) fuel rest
              (encode-busy k p) (encode-busy v q) full
              (λ f r enough. unpack_one-encode k f r p enough)
              (λ f r enough. unpack_one-encode v f r q enough) (rw keep at h)
              (λ f enough. unpack_hash-encode ps n f rest more enough))
      ]

  pub unpack_pairs-encode :
      (ps : Pairs) (fuel : ℕ) (rest : List ℕ)
      → PlainPairs ps
      → 3 * length (encode_pairs ps) + 2 ≤ fuel
      → unpack_hash fuel (encode_pairs ps ++ rest) ≡ parsed (rebuilt_pairs ps) rest
  unpack_pairs-encode no_pairs zero rest p h = absurd (omega arith)
  unpack_pairs-encode no_pairs (suc zero) rest p h = absurd (omega arith)
  unpack_pairs-encode no_pairs (suc (suc fuel)) rest p h = hash_end fuel rest
  unpack_pairs-encode (pair k v ps) fuel rest (p, q, more) h = elim (Bool-cases (is_nil k)) [
    | inl end ↦ rw end (ended fuel rest (rw end at h))
    | inr keep ↦ rw keep (
        unpack_pair-encode k v (rebuilt_pairs ps) (encode_pairs ps) fuel rest (encode-busy k p)
          (encode-busy v q) keep (λ f r enough. unpack_one-encode k f r p enough)
          (λ f r enough. unpack_one-encode v f r q enough) (rw keep at h)
          (λ f enough. unpack_pairs-encode ps f rest more enough))
  ]
