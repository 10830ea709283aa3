-- ===== src/Crypt/Hex.antt =====
-- The hexadecimal texts of ztask/lualib/lua-crypt.c. A character is its byte.
use ztask.Base.{
  ℕ, ◌+◌, ◌-◌, ◌*◌, ◌/◌, ◌%◌, ◌^◌, ◌<◌, ◌≡◌, refl, ap, ◌∙◌, inl, inr, true, false, ◌&&◌, ◌||◌,
  Option, none, some, List, [], ◌∷◌, arith, length, ltb, leb, ◌==◌, if◌then◌else◌, Bool-cases,
}
use ztask.Crypt.Decode.{Bytes}

-- The table `hex` of ltohex.
abbrev pub hex_char : ℕ → ℕ
hex_char n = if ltb n 10 then 48 + n else 87 + n

-- `ltohex`, whose `int` index reaches the end of a text below 2^31 characters.
unfoldable pub ltohex : List ℕ → List ℕ
ltohex [] = []
ltohex (c ∷ text) = hex_char (c / 2 ^ 4) ∷ hex_char (c % 2 ^ 4) ∷ ltohex text

-- The macro HEX, of 8 bits.
abbrev pub from_hex : ℕ → ℕ
from_hex c = if leb 48 c && leb c 57 then c - 48 else (c + 2 ^ 8 - 97 + 10) % 2 ^ 8

-- `hi<<4 | low`, as a char, of values up to 16.
abbrev pub hex_byte : ℕ → ℕ → ℕ
hex_byte hi low = (if low == 16 then hi / 2 * 2 * 2 ^ 4 + 2 ^ 4 else hi * 2 ^ 4 + low) % 2 ^ 8

-- The loop of lfromhex.
unfoldable pub from_pairs : List ℕ → Option (List ℕ)
from_pairs (a ∷ b ∷ text) =
    let rest : Option (List ℕ) = elim (from_pairs text) [
      | none ↦ none
      | some buffer ↦ some (hex_byte (from_hex a) (from_hex b) ∷ buffer)
    ] in
    if ltb 16 (from_hex a) || ltb 16 (from_hex b) then none else rest
from_pairs _ = some []

-- `lfromhex`: `none` is luaL_error.
unfoldable pub lfromhex : List ℕ → Option (List ℕ)
lfromhex text = if length text % 2 == 1 then none else from_pairs text

from_hex-hex_char : (n : ℕ) → n < 16 → from_hex (hex_char n) ≡ n
from_hex-hex_char n h = elim (Bool-cases (ltb n 10)) [
  | inl low ↦
      let digit : (leb 48 (48 + n) && leb (48 + n) 57) ≡ true = ground arith in
      rw (low, digit) (omega arith)
  | inr high ↦
      let letter : (leb 48 (87 + n) && leb (87 + n) 57) ≡ false = ground arith in
      rw (high, letter) (omega arith)
]

hex_byte_whole : (c : ℕ) → c < 2 ^ 8 → hex_byte (c / 2 ^ 4) (c % 2 ^ 4) ≡ c
hex_byte_whole c h =
    let nibble : (c % 2 ^ 4 == 16) ≡ false = ground arith in rw nibble (omega arith)

within : (m n : ℕ) → m < 16 → n < 16 → (ltb 16 m || ltb 16 n) ≡ false
within m n hm hn = ground arith

from_pairs-ltohex : (bytes : List ℕ) → Bytes bytes → from_pairs (ltohex bytes) ≡ some bytes
unfolding from_pairs ltohex
from_pairs-ltohex [] h = refl
from_pairs-ltohex (c ∷ bytes) (small, h) =
    let hi = from_hex-hex_char (c / 2 ^ 4) (omega arith) in
    let low = from_hex-hex_char (c % 2 ^ 4) (omega arith) in
    let a = from_hex (hex_char (c / 2 ^ 4)) in
    let b = from_hex (hex_char (c % 2 ^ 4)) in
    let fits : (ltb 16 a || ltb 16 b) ≡ false =
      ap (λ x. ltb 16 x || ltb 16 b) hi
      ∙ ap (λ y. ltb 16 (c / 2 ^ 4) || ltb 16 y) low
      ∙ within (c / 2 ^ 4) (c % 2 ^ 4) (omega arith) (omega arith) in
    let byte : hex_byte a b ≡ c =
      ap (λ x. hex_byte x b) hi ∙ ap (hex_byte (c / 2 ^ 4)) low ∙ hex_byte_whole c small in
    rw (fits, from_pairs-ltohex bytes h) (ap (λ b. some (b ∷ bytes)) byte)

length-ltohex : (bytes : List ℕ) → length (ltohex bytes) ≡ length bytes * 2
unfolding ltohex
length-ltohex [] = refl
length-ltohex (c ∷ bytes) = omega (arith, length-ltohex bytes)

-- A string of bytes has a hexadecimal text of twice its length, if that is below 2^31, from which `lfromhex` makes it again.
pub lfromhex-ltohex :
    (bytes : List ℕ)
    → Bytes bytes
    → length bytes * 2 < 2 ^ 31
    → (length (ltohex bytes) ≡ length bytes * 2) × (lfromhex (ltohex bytes) ≡ some bytes)
unfolding lfromhex
lfromhex-ltohex bytes h small =
    let even : (length (ltohex bytes) % 2 == 1) ≡ false =
      ap (λ n. n % 2 == 1) (length-ltohex bytes) ∙ ground arith in
    (length-ltohex bytes, rw even (from_pairs-ltohex bytes h))
