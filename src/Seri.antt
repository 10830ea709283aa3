-- ===== src/Seri.antt =====
-- ztask/lualib/lua-seri.c: how the arguments of a Lua message become a block of bytes, and are read
-- back. This file is the writing; `Seri.Unpack` is the reading.
-- A value of Lua is what the code asks the Lua library about it: an integer, a float and a pointer are
-- their 64 bits, a string is its bytes. A table is the values at 1 to its `lua_rawlen`, and the pairs
-- that `lua_next` gives, in its order. A table with `__pairs` is the pairs that its iterator gives.
-- Strings and arrays are shorter than 2^31, what an `int` can count. The machine is little-endian.
pub mod Bytes
pub mod Blocks
pub mod Format
pub mod Encode
pub mod Unpack
pub mod Ends
pub mod Total
pub mod Numbers
pub mod Scalars
pub mod Rebuilt
pub mod RoundTrip
pub mod Messages
use ztask.Base.{
  ℕ, zero, suc, ◌+◌, ◌-◌, ◌*◌, ◌/◌, ◌%◌, ◌^◌, Bool, true, false, not, ◌&&◌, ◌||◌, Option, none,
  some, List, [], ◌∷◌, ◌++◌, leb, ltb, ◌==◌, if◌then◌else◌, length, take, drop, map,
}

-- `TYPE_*` and `TYPE_NUMBER_*`.
abbrev pub type_nil : ℕ
type_nil = 0

abbrev pub type_boolean : ℕ
type_boolean = 1

abbrev pub type_number : ℕ
type_number = 2

abbrev pub type_userdata : ℕ
type_userdata = 3

abbrev pub type_short_string : ℕ
type_short_string = 4

abbrev pub type_long_string : ℕ
type_long_string = 5

abbrev pub type_table : ℕ
type_table = 6

abbrev pub number_zero : ℕ
number_zero = 0

abbrev pub number_byte : ℕ
number_byte = 1

abbrev pub number_word : ℕ
number_word = 2

abbrev pub number_dword : ℕ
number_dword = 4

abbrev pub number_qword : ℕ
number_qword = 6

abbrev pub number_real : ℕ
number_real = 8

abbrev pub max_cookie : ℕ
max_cookie = 32

abbrev pub block_size : ℕ
block_size = 128

abbrev pub max_depth : ℕ
max_depth = 32

-- `COMBINE_TYPE`, of a type below 8.
abbrev pub combine_type : ℕ → ℕ → ℕ
combine_type t v = t + v * 8

mutual
  pub data Value : Type 0 where
    nil : Value
    boolean : (flag : Bool) → Value
    integer : (bits : ℕ) → Value
    real : (bits : ℕ) → Value
    text : (bytes : List ℕ) → Value
    pointer : (bits : ℕ) → Value
    table : (array : Values) → (hash : Pairs) → Value
    paired : (pairs : Pairs) → Value
    unsupported : Value

  pub data Values : Type 0 where
    no_values : Values
    value : Value → Values → Values

  pub data Pairs : Type 0 where
    no_pairs : Pairs
    pair : (key : Value) → Value → Pairs → Pairs

-- `struct write_block` with its chain: the blocks before `current`, and the first `ptr` bytes of
-- `current`. `len` is an `int`, which counts every byte: the model says what the code does as long as a
-- message has less than 2^31 bytes.
pub record WriteBlock : Type 0 where
  pub full : List (List ℕ)
  pub current : List ℕ
  pub len : ℕ

-- `wb_init`
unfoldable pub wb_init : WriteBlock
wb_init = record { full = []; current = []; len = 0 }

-- `b->current = b->current->next = blk_alloc (); b->ptr = 0`
abbrev pub next_block : WriteBlock → WriteBlock
next_block b = record b { full = b.full ++ b.current ∷ []; current = [] }

-- `wb_push` behind `_again:`, on fuel; every round but the last fills a block.
unfoldable pub wb_fill : ℕ → WriteBlock → List ℕ → WriteBlock
wb_fill zero b buffer = b
wb_fill (suc fuel) b buffer =
    let copy = block_size - length b.current in
    let again =
      wb_fill fuel
        (next_block (record b { current = b.current ++ take copy buffer; len = b.len + copy }))
        (drop copy buffer) in
    if leb (length b.current + length buffer) block_size
    then record b { current = b.current ++ buffer; len = b.len + length buffer }
    else again

-- `wb_push`
unfoldable pub wb_push : WriteBlock → List ℕ → WriteBlock
unfolding wb_fill
wb_push b buffer =
    wb_fill (length buffer + 1) (if length b.current == block_size then next_block b else b) buffer

-- `n` bytes of a number, the lowest first.
unfoldable pub le_bytes : ℕ → ℕ → List ℕ
le_bytes zero v = []
le_bytes (suc n) v = v % 2 ^ 8 ∷ le_bytes n (v / 2 ^ 8)

unfoldable pub wb_nil : WriteBlock → WriteBlock
unfolding wb_push
wb_nil b = wb_push b (type_nil ∷ [])

unfoldable pub wb_boolean : WriteBlock → Bool → WriteBlock
unfolding wb_push
wb_boolean b flag = wb_push b (combine_type type_boolean (if flag then 1 else 0) ∷ [])

-- The first byte of a number, and the bytes after it.
abbrev pub wb_number : WriteBlock → ℕ → List ℕ → WriteBlock
wb_number b cookie buffer = wb_push (wb_push b (combine_type type_number cookie ∷ [])) buffer

-- `wb_integer`: `v != (int32_t)v`, and `v < 0`, on the two's complement of 64 bits.
unfoldable pub wb_integer : WriteBlock → ℕ → WriteBlock
unfolding wb_push le_bytes
wb_integer b v =
    if v == 0
    then wb_push b (combine_type type_number number_zero ∷ [])
    else if leb (2 ^ 31) v && ltb v (2 ^ 64 - 2 ^ 31)
    then wb_number b number_qword (le_bytes 8 v)
    else if leb (2 ^ 63) v
    then wb_number b number_dword (le_bytes 4 (v % 2 ^ 32))
    else if ltb v 0x100
    then wb_number b number_byte (le_bytes 1 v)
    else if ltb v 0x10000
    then wb_number b number_word (le_bytes 2 v)
    else wb_number b number_dword (le_bytes 4 v)

unfoldable pub wb_real : WriteBlock → ℕ → WriteBlock
unfolding wb_push le_bytes
wb_real b bits = wb_number b number_real (le_bytes 8 bits)

unfoldable pub wb_pointer : WriteBlock → ℕ → WriteBlock
unfolding wb_push le_bytes
wb_pointer b bits = wb_push (wb_push b (type_userdata ∷ [])) (le_bytes 8 bits)

-- `wb_string`, of a string whose length is below 2^31, as the cast of `pack_one` expects.
unfoldable pub wb_string : WriteBlock → List ℕ → WriteBlock
unfolding wb_push le_bytes
wb_string b str =
    let len = length str in
    let short = wb_push b (combine_type type_short_string len ∷ []) in
    let word = wb_push (wb_push b (combine_type type_long_string 2 ∷ [])) (le_bytes 2 len) in
    let dword = wb_push (wb_push b (combine_type type_long_string 4 ∷ [])) (le_bytes 4 len) in
    if ltb len max_cookie
    then (if ltb 0 len then wb_push short str else short)
    else wb_push (if ltb len 0x10000 then word else dword) str

abbrev pub count : Values → ℕ
count no_values = 0
count (value v vs) = suc (count vs)

-- The first part of `wb_table_array`.
unfoldable pub wb_array_size : WriteBlock → ℕ → WriteBlock
unfolding wb_push wb_integer
wb_array_size b n =
    if leb (max_cookie - 1) n
    then wb_integer (wb_push b (combine_type type_table (max_cookie - 1) ∷ [])) n
    else wb_push b (combine_type type_table n ∷ [])

-- `x>0 && x<=array_size` of an integer key, in `wb_table_hash`.
abbrev pub in_array : ℕ → Value → Bool
in_array n (integer bits) = ltb 0 bits && (ltb bits (2 ^ 63) && leb bits n)
in_array n _ = false

abbrev pub is_nil : Value → Bool
is_nil nil = true
is_nil _ = false

infixl 5 ◌>>=◌
abbrev pub ◌>>=◌ : Option WriteBlock → (WriteBlock → Option WriteBlock) → Option WriteBlock
none >>= f = none
some b >>= f = f b

-- `pack_one` with what it calls: `none` where `luaL_error` is called.
unfoldable mutual
  unfolding wb_nil wb_boolean wb_integer wb_real wb_pointer wb_string wb_array_size wb_push

  pub pack_one : Value → ℕ → WriteBlock → Option WriteBlock
  pack_one nil depth b = if ltb max_depth depth then none else some (wb_nil b)
  pack_one (boolean flag) depth b = if ltb max_depth depth then none else some (wb_boolean b flag)
  pack_one (integer bits) depth b = if ltb max_depth depth then none else some (wb_integer b bits)
  pack_one (real bits) depth b = if ltb max_depth depth then none else some (wb_real b bits)
  pack_one (text bytes) depth b = if ltb max_depth depth then none else some (wb_string b bytes)
  pack_one (pointer bits) depth b = if ltb max_depth depth then none else some (wb_pointer b bits)
  pack_one (table array hash) depth b =
      let packed = pack_values array (depth + 1) (wb_array_size b (count array)) >>= λ b'.
      pack_hash hash (count array) (depth + 1) b' in
      if ltb max_depth depth then none else packed
  pack_one (paired pairs) depth b =
      let packed = pack_metapairs pairs (depth + 1) (wb_push b (combine_type type_table 0 ∷ [])) in
      if ltb max_depth depth then none else packed
  pack_one unsupported depth b = none

  -- The loop of `wb_table_array`, and that of `pack_from`.
  pub pack_values : Values → ℕ → WriteBlock → Option WriteBlock
  pack_values no_values depth b = some b
  pack_values (value v vs) depth b = pack_one v depth b >>= λ b'. pack_values vs depth b'

  -- `wb_table_hash`
  pub pack_hash : Pairs → ℕ → ℕ → WriteBlock → Option WriteBlock
  pack_hash no_pairs n depth b = some (wb_nil b)
  pack_hash (pair k v ps) n depth b =
      let packed =
        pack_one k depth b >>= λ b₁. pack_one v depth b₁ >>= λ b₂. pack_hash ps n depth b₂ in
      let skipped = pack_hash ps n depth b in if in_array n k then skipped else packed

  -- The loop of `wb_table_metapairs`, and the `wb_nil` behind it.
  pub pack_metapairs : Pairs → ℕ → WriteBlock → Option WriteBlock
  pack_metapairs no_pairs depth b = some (wb_nil b)
  pack_metapairs (pair k v ps) depth b =
      let packed =
        pack_one k depth b >>= λ b₁. pack_one v depth b₁ >>= λ b₂. pack_metapairs ps depth b₂ in
      if is_nil k then some (wb_nil b) else packed

-- The copying loop of `seri`: `none` where it would go past the last block.
unfoldable pub seri_copy : List (List ℕ) → ℕ → Option (List ℕ)
seri_copy [] len = if len == 0 then some [] else none
seri_copy (blk ∷ blks) len =
    let rest : Option (List ℕ) = elim (seri_copy blks (len - block_size)) [
      | none ↦ none
      | some l ↦ some (blk ++ l)
    ] in
    if len == 0 then some [] else if leb block_size len then rest else some (take len blk)

-- `luaseri_pack` of the arguments: the bytes of the block that it returns.
unfoldable pub luaseri_pack : Values → Option (List ℕ)
unfolding pack_values seri_copy wb_init
luaseri_pack args = elim (pack_values args 0 wb_init) [
  | none ↦ none
  | some b ↦ seri_copy (b.full ++ b.current ∷ []) b.len
]
