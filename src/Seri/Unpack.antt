-- ===== src/Seri/Unpack.antt =====
-- The reading half of ztask/lualib/lua-seri.c. The bytes that `struct read_block` has not read are a
-- list. The table that `unpack_table` makes is given by what it sets: the values at 1, 2, …, and then the
-- pairs, in order.
use ztask.Base.{
  ℕ, zero, suc, ◌+◌, ◌-◌, ◌*◌, ◌/◌, ◌%◌, ◌^◌, not, ◌||◌, List, [], ◌∷◌, ltb, ◌==◌, if◌then◌else◌,
  length, take, drop,
}
use ztask.Seri.{
  Value, nil, boolean, integer, real, text, pointer, table, Values, no_values, value, Pairs,
  no_pairs, pair, type_nil, type_boolean, type_number, type_userdata, type_short_string,
  type_long_string, type_table, number_zero, number_byte, number_word, number_dword, number_qword,
  number_real, max_cookie, is_nil,
}

-- A value and the bytes behind it; `invalid_stream`; the error of `lua_pushlstring` for a
-- size that is too big, as that of a negative `int` is; or the model's fuel ran out.
pub data Parsed {ℓ} (A : Type ℓ) : Type ℓ where
  parsed : A → List ℕ → Parsed A
  invalid : Parsed A
  too_big : Parsed A
  starved : Parsed A

infixl 5 ◌>>=◌
abbrev pub ◌>>=◌ {ℓ κ} : {A : Type ℓ} {B : Type κ} → Parsed A → (A → List ℕ → Parsed B) → Parsed B
parsed a rest >>= f = f a rest
invalid >>= f = invalid
too_big >>= f = too_big
starved >>= f = starved

-- The number that `n` bytes in memory are.
unfoldable pub from_le : List ℕ → ℕ
from_le [] = 0
from_le (b ∷ bs) = b + from_le bs * 2 ^ 8

-- `rb_read` of `sz` bytes, an `int` that is not negative, and the test of its result.
unfoldable pub rb_read : ℕ → List ℕ → Parsed (List ℕ)
rb_read sz rb = if ltb (length rb) sz then invalid else parsed (take sz rb) (drop sz rb)

-- `get_integer`: the 64 bits of a `lua_Integer`; 32 bits are extended by their sign.
unfoldable pub get_integer : ℕ → List ℕ → Parsed ℕ
unfolding rb_read from_le
get_integer cookie rb =
    if cookie == number_zero
    then parsed 0 rb
    else if cookie == number_byte
    then (rb_read 1 rb >>= λ bs rest. parsed (from_le bs) rest)
    else if cookie == number_word
    then (rb_read 2 rb >>= λ bs rest. parsed (from_le bs) rest)
    else if cookie == number_dword
    then (rb_read 4 rb >>= λ bs rest.
        parsed (if ltb (from_le bs) (2 ^ 31) then from_le bs else from_le bs + (2 ^ 64 - 2 ^ 32))
          rest)
    else if cookie == number_qword
    then (rb_read 8 rb >>= λ bs rest. parsed (from_le bs) rest)
    else invalid

-- `get_real` and `get_pointer`.
unfoldable pub get_qword : List ℕ → Parsed ℕ
unfolding rb_read from_le
get_qword rb = rb_read 8 rb >>= λ bs rest. parsed (from_le bs) rest

-- `get_buffer`, of a length that is cast to `int`: a negative one, converted to `size_t`, is too large
-- for `lua_pushlstring`, which raises an error.
unfoldable pub get_buffer : ℕ → List ℕ → Parsed Value
unfolding rb_read
get_buffer len rb =
    if ltb len (2 ^ 31) then (rb_read len rb >>= λ bs rest. parsed (text bs) rest) else too_big

unfoldable pub get_long_string : ℕ → List ℕ → Parsed Value
unfolding rb_read get_buffer from_le
get_long_string cookie rb =
    if cookie == 2
    then (rb_read 2 rb >>= λ bs rest. get_buffer (from_le bs) rest)
    else if cookie == 4
    then (rb_read 4 rb >>= λ bs rest. get_buffer (from_le bs) rest)
    else invalid

-- The first part of `unpack_table`: the `int` array size, 0 where it is negative.
unfoldable pub get_array_size : ℕ → List ℕ → Parsed ℕ
unfolding rb_read get_integer from_le
get_array_size cookie rb =
    let large = rb_read 1 rb >>= λ bs rest.
    let t = from_le bs in
    if not (t % 8 == type_number) || (t / 8 == number_real)
    then invalid
    else (get_integer (t / 8) rest >>= λ n rest'.
        parsed (if ltb (n % 2 ^ 32) (2 ^ 31) then n % 2 ^ 32 else 0) rest') in
    if cookie == max_cookie - 1 then large else parsed cookie rb

-- The cases of `push_value` but the table.
unfoldable pub push_scalar : ℕ → ℕ → List ℕ → Parsed Value
unfolding get_integer get_qword get_buffer get_long_string
push_scalar t cookie rb =
    if t == type_nil
    then parsed nil rb
    else if t == type_boolean
    then parsed (boolean (not (cookie == 0))) rb
    else if t == type_number
    then (if cookie == number_real
        then (get_qword rb >>= λ n rest. parsed (real n) rest)
        else (get_integer cookie rb >>= λ n rest. parsed (integer n) rest))
    else if t == type_userdata
    then (get_qword rb >>= λ n rest. parsed (pointer n) rest)
    else if t == type_short_string
    then get_buffer cookie rb
    else if t == type_long_string
    then get_long_string cookie rb
    else invalid

-- `unpack_one` with `push_value` and `unpack_table`, on fuel.
unfoldable mutual
  unfolding get_array_size push_scalar

  pub unpack_one : ℕ → List ℕ → Parsed Value
  unpack_one zero rb = starved
  unpack_one (suc fuel) [] = invalid
  unpack_one (suc fuel) (byte ∷ rb) =
      let made = get_array_size (byte / 8) rb >>= λ n rest. unpack_table fuel n rest in
      if byte % 8 == type_table then made else push_scalar (byte % 8) (byte / 8) rb

  -- The loops of `unpack_table`.
  pub unpack_table : ℕ → ℕ → List ℕ → Parsed Value
  unpack_table zero n rb = starved
  unpack_table (suc fuel) n rb = unpack_array fuel n rb >>= λ array rest.
      unpack_hash fuel rest >>= λ hash rest'. parsed (table array hash) rest'

  pub unpack_array : ℕ → ℕ → List ℕ → Parsed Values
  unpack_array zero n rb = starved
  unpack_array (suc fuel) zero rb = parsed no_values rb
  unpack_array (suc fuel) (suc n) rb = unpack_one fuel rb >>= λ v rest.
      unpack_array fuel n rest >>= λ vs rest'. parsed (value v vs) rest'

  pub unpack_hash : ℕ → List ℕ → Parsed Pairs
  unpack_hash zero rb = starved
  unpack_hash (suc fuel) rb = unpack_one fuel rb >>= λ k rest. unpack_key fuel k rest

  -- The end of the loop at a nil key.
  pub unpack_key : ℕ → Value → List ℕ → Parsed Pairs
  unpack_key zero k rb = starved
  unpack_key (suc fuel) k rb =
      let more = unpack_one fuel rb >>= λ v rest.
      unpack_hash fuel rest >>= λ ps rest'. parsed (pair k v ps) rest' in
      if is_nil k then parsed no_pairs rb else more

-- The loop of `luaseri_unpack`, which ends at the end of the bytes.
unfoldable pub unpack_all : ℕ → List ℕ → Parsed Values
unfolding unpack_one
unpack_all zero rb = starved
unpack_all (suc fuel) [] = parsed no_values []
unpack_all (suc fuel) (byte ∷ rb) = unpack_one fuel (byte ∷ rb) >>= λ v rest.
    unpack_all fuel rest >>= λ vs rest'. parsed (value v vs) rest'

-- `luaseri_unpack`
unfoldable pub luaseri_unpack : List ℕ → Parsed Values
unfolding unpack_all
luaseri_unpack buffer = unpack_all (3 * length buffer + 2) buffer
