-- ===== src/Server/Text.antt =====
-- The texts of handles and names in ztask/ztask_server.c. A character is its code; a C string is the
-- list of its characters, without the terminator.
use ztask.Base.{
  ℕ, zero, suc, ◌+◌, ◌-◌, ◌*◌, ◌/◌, ◌%◌, ◌^◌, ◌<◌, ◌≡◌, refl, ap, ◌∙◌, arith, List, [], ◌∷◌, ◌++◌,
  length, take, sym, ltb, ◌==◌, if◌then◌else◌,
}

-- The array `hex`: '0' to '9' and 'A' to 'F'.
unfoldable pub hex : ℕ → ℕ
hex d = if ltb d 10 then 48 + d else 55 + d

-- The loop of `id_to_hex`, from the digit `i` on.
unfoldable pub hex_digits : ℕ → ℕ → ℕ → List ℕ
unfolding hex
hex_digits zero i id = []
hex_digits (suc rounds) i id = hex (id / 2 ^ ((7 - i) * 4) % 16) ∷ hex_digits rounds (i + 1) id

-- `id_to_hex`
unfoldable pub id_to_hex : ℕ → List ℕ
unfolding hex_digits
id_to_hex id = 58 ∷ hex_digits 8 0 id

-- The second loop of `copy_name`.
unfoldable pub pad : ℕ → List ℕ
pad zero = []
pad (suc rounds) = 0 ∷ pad rounds

-- `copy_name`: the `rounds` characters of the array that are left.
unfoldable pub copy_name : ℕ → List ℕ → List ℕ
unfolding pad
copy_name zero addr = []
copy_name (suc rounds) [] = pad (suc rounds)
copy_name (suc rounds) (c ∷ addr) = c ∷ copy_name rounds addr

-- `ztask_queryname`: `strtoul` with base 16 and `ztask_handle_findname` are arguments.
-- 0 where the name has no handle.
unfoldable pub queryname : (List ℕ → ℕ) → (List ℕ → ℕ) → List ℕ → ℕ
queryname strtoul findname [] = 0
queryname strtoul findname (c ∷ name) =
    if c == 58 then strtoul name % 2 ^ 32 else if c == 46 then findname name else 0

-- The value of a hexadecimal digit, and of a number.
abbrev pub digit_value : ℕ → ℕ
digit_value c = if ltb c 58 then c - 48 else c - 55

abbrev pub hex_value : ℕ → List ℕ → ℕ
hex_value n [] = n
hex_value n (c ∷ cs) = hex_value (n * 16 + digit_value c) cs

hex_value_digit : (d : ℕ) → d < 16 → digit_value (hex d) ≡ d
unfolding hex
hex_value_digit d h = ground arith

-- `id_to_hex` writes a colon and eight digits, whose value is the handle.
pub id_to_hex-hex_value :
    (id : ℕ)
    → id < 2 ^ 32
    → (digits : List ℕ) × (id_to_hex id ≡ 58 ∷ digits)
      × (length digits ≡ 8)
      × (hex_value 0 digits ≡ id)
unfolding id_to_hex hex_digits
id_to_hex-hex_value id h = (hex_digits 8 0 id, refl, refl, value)
  where
    d : ℕ → ℕ
    d k = id / 2 ^ (k * 4) % 16

    digit : (k : ℕ) → digit_value (hex (d k)) ≡ d k
    digit k = hex_value_digit (d k) (omega arith)

    value : hex_value 0 (hex_digits 8 0 id) ≡ id
    value =
        rw (digit 7, digit 6, digit 5, digit 4, digit 3, digit 2, digit 1, digit 0) (omega arith)

-- `copy_name` writes the characters of the name that fit, and zeros behind them.
pub copy_name-take :
    (rounds : ℕ) (addr : List ℕ)
    → copy_name rounds addr ≡ take rounds addr ++ pad (rounds - length addr)
unfolding copy_name pad
copy_name-take zero addr = let e : 0 - length addr ≡ 0 = omega arith in sym (ap pad e)
copy_name-take (suc rounds) [] = let e : suc rounds - 0 ≡ suc rounds = omega arith in sym (ap pad e)
copy_name-take (suc rounds) (c ∷ addr) =
    let e : rounds - length addr ≡ suc rounds - suc (length addr) = omega arith in
    ap (λ l. c ∷ l) (copy_name-take rounds addr ∙ ap (λ k. take rounds addr ++ pad k) e)
