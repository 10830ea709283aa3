-- ===== src/Seri/Scalars.antt =====
-- The values that are not tables, and the size of an array, in ztask/lualib/lua-seri.c, are read back.
use ztask.Base.{
  ℕ, suc, ◌+◌, ◌-◌, ◌*◌, ◌/◌, ◌%◌, ◌^◌, ◌<◌, ◌≡◌, refl, ap, ◌∙◌, inl, inr, true, false, not, ◌||◌,
  arith, List, [], ◌∷◌, ◌++◌, append_assoc, length, leb, ltb, ◌==◌, if◌then◌else◌, Bool-cases,
}
use ztask.Seri.{
  integer, real, text, pointer, le_bytes, type_number, type_userdata, type_short_string,
  type_long_string, type_table, number_real, max_cookie, combine_type,
}
use ztask.Seri.Unpack.{
  Parsed, parsed, invalid, ◌>>=◌, rb_read, from_le, get_integer, get_qword, get_buffer,
  get_long_string, get_array_size, push_scalar, unpack_one, unpack_table,
}
use ztask.Seri.Bytes.{Spans, from_le-le_bytes, length-le_bytes, rb_read-append}
use ztask.Seri.Format.{integer_bytes, text_bytes, array_size_bytes}
use ztask.Seri.Numbers.{Number, read_le, integer_bytes-Number}

-- Reading the first byte of a value that is not a table.
pub unpack_one-scalar :
    (fuel t cookie : ℕ) (rest : List ℕ)
    → t < 8
    → (t == type_table) ≡ false
    → unpack_one (suc fuel) (combine_type t cookie ∷ rest) ≡ push_scalar t cookie rest
unfolding unpack_one
unpack_one-scalar fuel t cookie rest h other = rw (unpack_one, low, high, other) refl
  where
    low : (t + cookie * 8) % 8 ≡ t
    low = omega arith

    high : (t + cookie * 8) / 8 ≡ cookie
    high = omega arith

pub unpack_one-integer :
    (fuel v : ℕ) (rest : List ℕ)
    → v < 2 ^ 64
    → unpack_one (suc fuel) (integer_bytes v ++ rest) ≡ parsed (integer v) rest
unfolding push_scalar
unpack_one-integer fuel v rest h =
    let number = integer_bytes-Number v h in
    let c = number.cookie in
    let tail = number.tail ++ rest in
    let push : push_scalar type_number c tail ≡ parsed (integer v) rest =
      ap
        (λ t.
          if t
          then (get_qword tail >>= λ n r. parsed (real n) r)
          else (get_integer c tail >>= λ n r. parsed (integer n) r))
        number.whole
      ∙ ap (λ p. p >>= λ n r. parsed (integer n) r) (number.reads rest) in
    ap (λ l. unpack_one (suc fuel) (l ++ rest)) number.shape
    ∙ unpack_one-scalar fuel type_number c tail (omega arith) refl
    ∙ push

get_buffer-append :
    (str rest : List ℕ)
    → length str < 2 ^ 31
    → get_buffer (length str) (str ++ rest) ≡ parsed (text str) rest
unfolding get_buffer
get_buffer-append str rest h =
    let fits : ltb (length str) (2 ^ 31) ≡ true = ground arith in
    rw (fits, rb_read-append (length str) str rest refl) refl

get_sized :
    (sz : ℕ) (str rest : List ℕ)
    → Spans sz (length str)
    → length str < 2 ^ 31
    → (rb_read sz ((le_bytes sz (length str) ++ str) ++ rest) >>= λ bs r. get_buffer (from_le bs) r)
      ≡ parsed (text str) rest
get_sized sz str rest spans h =
    ap (λ l. rb_read sz l >>= λ bs r. get_buffer (from_le bs) r)
      (append_assoc (le_bytes sz (length str)) str rest)
    ∙ ap (λ p. p >>= λ bs r. get_buffer (from_le bs) r)
        (rb_read-append sz (le_bytes sz (length str)) (str ++ rest)
          (length-le_bytes sz (length str)))
    ∙ ap (λ n. get_buffer n (str ++ rest)) (from_le-le_bytes sz (length str) spans)
    ∙ get_buffer-append str rest h

pub unpack_one-text :
    (fuel : ℕ) (str rest : List ℕ)
    → length str < 2 ^ 31
    → unpack_one (suc fuel) (text_bytes str ++ rest) ≡ parsed (text str) rest
unfolding push_scalar get_long_string
unpack_one-text fuel str rest h =
    let n = length str in
    elim (Bool-cases (ltb n max_cookie)) [
      | inl short ↦ rw short (
          unpack_one-scalar fuel type_short_string n (str ++ rest) (omega arith) refl
          ∙ get_buffer-append str rest h)
      | inr long ↦ elim (Bool-cases (ltb n 0x10000)) [
        | inl word ↦
            rw (long, word)
              (unpack_one-scalar fuel type_long_string 2 ((le_bytes 2 n ++ str) ++ rest)
                  (omega arith) refl
                ∙ get_sized 2 str rest (ground arith) h)
        | inr dword ↦
            rw (long, dword)
              (unpack_one-scalar fuel type_long_string 4 ((le_bytes 4 n ++ str) ++ rest)
                  (omega arith) refl
                ∙ get_sized 4 str rest (omega arith) h)
      ]
    ]

pub unpack_one-real :
    (fuel v : ℕ) (rest : List ℕ)
    → v < 2 ^ 64
    → unpack_one (suc fuel) ((combine_type type_number number_real ∷ le_bytes 8 v) ++ rest)
      ≡ parsed (real v) rest
unfolding push_scalar get_qword
unpack_one-real fuel v rest h =
    unpack_one-scalar fuel type_number number_real (le_bytes 8 v ++ rest) (omega arith) refl
    ∙ ap (λ p. p >>= λ n r. parsed (real n) r) (read_le 8 v rest (λ w. w) (omega arith))

pub unpack_one-pointer :
    (fuel v : ℕ) (rest : List ℕ)
    → v < 2 ^ 64
    → unpack_one (suc fuel) ((type_userdata ∷ le_bytes 8 v) ++ rest) ≡ parsed (pointer v) rest
unfolding push_scalar get_qword
unpack_one-pointer fuel v rest h =
    unpack_one-scalar fuel type_userdata 0 (le_bytes 8 v ++ rest) (omega arith) refl
    ∙ ap (λ p. p >>= λ n r. parsed (pointer n) r) (read_le 8 v rest (λ w. w) (omega arith))

-- The first byte of a table, with its array size.
unpack_one-cookie :
    (fuel cookie : ℕ) (rest : List ℕ)
    → unpack_one (suc fuel) (combine_type type_table cookie ∷ rest)
      ≡ (get_array_size cookie rest >>= λ n r. unpack_table fuel n r)
unfolding unpack_one
unpack_one-cookie fuel cookie rest = rw (unpack_one, low, high) refl
  where
    low : (6 + cookie * 8) % 8 ≡ 6
    low = omega arith

    high : (6 + cookie * 8) / 8 ≡ cookie
    high = omega arith

pub unpack_one-array_size :
    (fuel n : ℕ) (rest : List ℕ)
    → n < 2 ^ 31
    → unpack_one (suc fuel) (array_size_bytes n ++ rest) ≡ unpack_table fuel n rest
unfolding get_array_size from_le
unpack_one-array_size fuel n rest h = elim (Bool-cases (leb (max_cookie - 1) n)) [
  | inl large ↦ rw large (
      unpack_one-cookie fuel (max_cookie - 1) (integer_bytes n ++ rest)
      ∙ ap (λ p. p >>= λ m r. unpack_table fuel m r) sized)
  | inr small ↦ rw small (
      let known : (n == max_cookie - 1) ≡ false = ground arith in
      unpack_one-cookie fuel n rest ∙ ap (λ p. p >>= λ m r. unpack_table fuel m r) (direct known))
]
  where
    number : Number n
    number = integer_bytes-Number n (omega arith)

    c : ℕ
    c = number.cookie

    low : (2 + c * 8) % 8 ≡ 2
    low = omega arith

    high : (2 + c * 8) / 8 ≡ c
    high = omega arith

    fits' : ltb n (2 ^ 31) ≡ true
    fits' = ground arith

    same : n % 2 ^ 32 ≡ n
    same = omega arith

    direct : (n == max_cookie - 1) ≡ false → get_array_size n rest ≡ parsed n rest
    direct known = rw (get_array_size, known) refl

    int : ℕ → ℕ
    int m = if ltb (m % 2 ^ 32) (2 ^ 31) then m % 2 ^ 32 else 0

    size : ℕ → List ℕ → Parsed ℕ
    size t r =
        if not (t % 8 == type_number) || (t / 8 == number_real)
        then invalid
        else (get_integer (t / 8) r >>= λ m r'. parsed (int m) r')

    tail : List ℕ
    tail = number.tail ++ rest

    same_int : int n ≡ n
    same_int = rw (same, fits') refl

    read_size : size (2 + c * 8) tail ≡ parsed n rest
    read_size = rw (low, high, number.whole, number.reads rest, same_int) refl

    first : from_le ((2 + c * 8) ∷ []) ≡ 2 + c * 8
    first = omega arith

    sized : get_array_size (max_cookie - 1) (integer_bytes n ++ rest) ≡ parsed n rest
    sized =
        ap (λ l. get_array_size (max_cookie - 1) (l ++ rest)) number.shape
        ∙ ap (λ p. p >>= λ bs r. size (from_le bs) r)
            (rb_read-append 1 ((2 + c * 8) ∷ []) tail refl)
        ∙ ap (λ t. size t tail) first
        ∙ read_size
