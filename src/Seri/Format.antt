-- ===== src/Seri/Format.antt =====
-- The format of ztask/lualib/lua-seri.c: the bytes of a value, and which values can be packed.
use ztask.Base.{
  ℕ, zero, suc, ◌+◌, ◌-◌, ◌%◌, ◌^◌, ◌≡◌, refl, arith, Bool, true, false, not, ◌&&◌, List, [], ◌∷◌,
  ◌++◌, length, leb, ltb, ◌==◌, if◌then◌else◌,
}
use ztask.Seri.{
  Value, nil, boolean, integer, real, text, pointer, table, paired, unsupported, Values, no_values,
  value, Pairs, no_pairs, pair, le_bytes, count, in_array, is_nil, type_nil, type_boolean,
  type_number, type_userdata, type_short_string, type_long_string, type_table, number_zero,
  number_byte, number_word, number_dword, number_qword, number_real, max_cookie, combine_type,
  max_depth,
}

-- The format.
abbrev pub integer_bytes : ℕ → List ℕ
integer_bytes v =
    if v == 0
    then combine_type type_number number_zero ∷ []
    else if leb (2 ^ 31) v && ltb v (2 ^ 64 - 2 ^ 31)
    then combine_type type_number number_qword ∷ le_bytes 8 v
    else if leb (2 ^ 63) v
    then combine_type type_number number_dword ∷ le_bytes 4 (v % 2 ^ 32)
    else if ltb v 0x100
    then combine_type type_number number_byte ∷ le_bytes 1 v
    else if ltb v 0x10000
    then combine_type type_number number_word ∷ le_bytes 2 v
    else combine_type type_number number_dword ∷ le_bytes 4 v

abbrev pub text_bytes : List ℕ → List ℕ
text_bytes str =
    if ltb (length str) max_cookie
    then combine_type type_short_string (length str) ∷ str
    else (if ltb (length str) 0x10000
        then combine_type type_long_string 2 ∷ le_bytes 2 (length str)
        else combine_type type_long_string 4 ∷ le_bytes 4 (length str))
      ++ str

-- The key is one of the numbers 1 to `n`, as a positive integer of 64 bits.
abbrev pub is_index : ℕ → Value → Bool
is_index zero k = false
is_index (suc n) (integer bits) =
    let rest = is_index n (integer bits) in
    if bits == suc n && ltb (suc n) (2 ^ 63) then true else rest
is_index (suc n) k = false

abbrev pub array_size_bytes : ℕ → List ℕ
array_size_bytes n =
    if leb (max_cookie - 1) n
    then combine_type type_table (max_cookie - 1) ∷ integer_bytes n
    else combine_type type_table n ∷ []

unfoldable mutual
  pub encode : Value → List ℕ
  encode nil = type_nil ∷ []
  encode (boolean flag) = combine_type type_boolean (if flag then 1 else 0) ∷ []
  encode (integer v) = integer_bytes v
  encode (real v) = combine_type type_number number_real ∷ le_bytes 8 v
  encode (text str) = text_bytes str
  encode (pointer v) = type_userdata ∷ le_bytes 8 v
  encode (table array hash) =
      array_size_bytes (count array) ++ (encode_values array ++ encode_hash hash (count array))
  encode (paired pairs) = combine_type type_table 0 ∷ encode_pairs pairs
  encode unsupported = []

  pub encode_values : Values → List ℕ
  encode_values no_values = []
  encode_values (value v vs) = encode v ++ encode_values vs

  pub encode_hash : Pairs → ℕ → List ℕ
  encode_hash no_pairs n = type_nil ∷ []
  encode_hash (pair k v ps) n =
      if is_index n k then encode_hash ps n else encode k ++ (encode v ++ encode_hash ps n)

  pub encode_pairs : Pairs → List ℕ
  encode_pairs no_pairs = type_nil ∷ []
  encode_pairs (pair k v ps) =
      if is_nil k then type_nil ∷ [] else encode k ++ (encode v ++ encode_pairs ps)

-- No table lies deeper than `max_depth`, and every value has a type that can be packed.
unfoldable mutual
  pub packable : Value → ℕ → Bool
  packable (table array hash) depth =
      not (ltb max_depth depth)
      && (packable_values array (depth + 1) && packable_hash hash (count array) (depth + 1))
  packable (paired pairs) depth = not (ltb max_depth depth) && packable_pairs pairs (depth + 1)
  packable unsupported depth = false
  packable nil depth = not (ltb max_depth depth)
  packable (boolean flag) depth = not (ltb max_depth depth)
  packable (integer v) depth = not (ltb max_depth depth)
  packable (real v) depth = not (ltb max_depth depth)
  packable (text str) depth = not (ltb max_depth depth)
  packable (pointer v) depth = not (ltb max_depth depth)

  pub packable_values : Values → ℕ → Bool
  packable_values no_values depth = true
  packable_values (value v vs) depth = packable v depth && packable_values vs depth

  pub packable_hash : Pairs → ℕ → ℕ → Bool
  packable_hash no_pairs n depth = true
  packable_hash (pair k v ps) n depth =
      let rest = packable_hash ps n depth in
      if is_index n k then rest else packable k depth && (packable v depth && rest)

  pub packable_pairs : Pairs → ℕ → Bool
  packable_pairs no_pairs depth = true
  packable_pairs (pair k v ps) depth =
      let rest = packable_pairs ps depth in
      if is_nil k then true else packable k depth && (packable v depth && rest)

index_step :
    (b n : ℕ) (rest : Bool)
    → (ltb 0 b && (ltb b (2 ^ 63) && leb b n)) ≡ rest
    → (ltb 0 b && (ltb b (2 ^ 63) && leb b (suc n)))
      ≡ (if b == suc n && ltb (suc n) (2 ^ 63) then true else rest)
index_step b n rest e = ground arith

index_integer : (n b : ℕ) → in_array n (integer b) ≡ is_index n (integer b)
index_integer zero b = ground arith
index_integer (suc n) b = index_step b n (is_index n (integer b)) (index_integer n b)

-- `in_array` of the code finds just those keys.
pub in_array-is_index : (n : ℕ) (k : Value) → in_array n k ≡ is_index n k
in_array-is_index zero nil = refl
in_array-is_index (suc n) nil = refl
in_array-is_index zero (boolean flag) = refl
in_array-is_index (suc n) (boolean flag) = refl
in_array-is_index zero (real v) = refl
in_array-is_index (suc n) (real v) = refl
in_array-is_index zero (text str) = refl
in_array-is_index (suc n) (text str) = refl
in_array-is_index zero (pointer v) = refl
in_array-is_index (suc n) (pointer v) = refl
in_array-is_index zero (table array hash) = refl
in_array-is_index (suc n) (table array hash) = refl
in_array-is_index zero (paired pairs) = refl
in_array-is_index (suc n) (paired pairs) = refl
in_array-is_index zero unsupported = refl
in_array-is_index (suc n) unsupported = refl
in_array-is_index n (integer b) = index_integer n b
