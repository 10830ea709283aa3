-- ===== src/Crypt/Base64.antt =====
-- The base64 texts of ztask/lualib/lua-crypt.c. A text is the codes of its characters.
use ztask.Base.{
  ℕ, zero, suc, ◌+◌, ◌-◌, ◌*◌, ◌/◌, ◌%◌, ◌^◌, Option, none, some, List, [], ◌∷◌, ◌++◌, ltb, ◌==◌,
  if◌then◌else◌, length,
}
use ztask.Crypt.{◌>>=◌}

-- What `b64index` returns: a digit, -1, or -2.
pub data Index : Type 0 where
  digit : ℕ → Index
  other : Index
  padding : Index

abbrev pub element {ℓ} : {A : Type ℓ} → A → List A → ℕ → A
element d [] i = d
element d (x ∷ xs) zero = x
element d (x ∷ xs) (suc i) = element d xs i

abbrev pub encoding : List ℕ
encoding =
    65 ∷ 66 ∷ 67 ∷ 68 ∷ 69 ∷ 70 ∷ 71 ∷ 72 ∷ 73 ∷ 74 ∷ 75 ∷ 76 ∷ 77 ∷ 78 ∷ 79 ∷ 80 ∷ 81 ∷ 82 ∷ 83
    ∷ 84 ∷ 85 ∷ 86 ∷ 87 ∷ 88 ∷ 89 ∷ 90 ∷ 97 ∷ 98 ∷ 99 ∷ 100 ∷ 101 ∷ 102 ∷ 103 ∷ 104 ∷ 105 ∷ 106
    ∷ 107 ∷ 108 ∷ 109 ∷ 110 ∷ 111 ∷ 112 ∷ 113 ∷ 114 ∷ 115 ∷ 116 ∷ 117 ∷ 118 ∷ 119 ∷ 120 ∷ 121 ∷ 122
    ∷ 48 ∷ 49 ∷ 50 ∷ 51 ∷ 52 ∷ 53 ∷ 54 ∷ 55 ∷ 56 ∷ 57 ∷ 43 ∷ 47 ∷ []

abbrev pub decoding : List Index
decoding =
    digit 62
    ∷ other
    ∷ other
    ∷ other
    ∷ digit 63
    ∷ digit 52
    ∷ digit 53
    ∷ digit 54
    ∷ digit 55
    ∷ digit 56
    ∷ digit 57
    ∷ digit 58
    ∷ digit 59
    ∷ digit 60
    ∷ digit 61
    ∷ other
    ∷ other
    ∷ other
    ∷ padding
    ∷ other
    ∷ other
    ∷ other
    ∷ digit 0
    ∷ digit 1
    ∷ digit 2
    ∷ digit 3
    ∷ digit 4
    ∷ digit 5
    ∷ digit 6
    ∷ digit 7
    ∷ digit 8
    ∷ digit 9
    ∷ digit 10
    ∷ digit 11
    ∷ digit 12
    ∷ digit 13
    ∷ digit 14
    ∷ digit 15
    ∷ digit 16
    ∷ digit 17
    ∷ digit 18
    ∷ digit 19
    ∷ digit 20
    ∷ digit 21
    ∷ digit 22
    ∷ digit 23
    ∷ digit 24
    ∷ digit 25
    ∷ other
    ∷ other
    ∷ other
    ∷ other
    ∷ other
    ∷ other
    ∷ digit 26
    ∷ digit 27
    ∷ digit 28
    ∷ digit 29
    ∷ digit 30
    ∷ digit 31
    ∷ digit 32
    ∷ digit 33
    ∷ digit 34
    ∷ digit 35
    ∷ digit 36
    ∷ digit 37
    ∷ digit 38
    ∷ digit 39
    ∷ digit 40
    ∷ digit 41
    ∷ digit 42
    ∷ digit 43
    ∷ digit 44
    ∷ digit 45
    ∷ digit 46
    ∷ digit 47
    ∷ digit 48
    ∷ digit 49
    ∷ digit 50
    ∷ digit 51
    ∷ []

abbrev pub equals_sign : ℕ
equals_sign = 61

unfoldable pub sixbits : ℕ → ℕ
sixbits i = element 0 encoding i

-- `b64index`
unfoldable pub b64index : ℕ → Index
b64index c =
    if ltb c 43 then other else if ltb (c - 43) 80 then element other decoding (c - 43) else other

-- `lb64encode`: three bytes in a round, and the one or two that are left. Its `int encode_sz` is a
-- natural number here: the text has fewer than 2^31 characters.
unfoldable pub lb64encode : List ℕ → List ℕ
unfolding sixbits
lb64encode [] = []
lb64encode (a ∷ []) =
    sixbits (a / 2 ^ 2) ∷ sixbits (a % 2 ^ 2 * 2 ^ 4) ∷ equals_sign ∷ equals_sign ∷ []
lb64encode (a ∷ b ∷ []) =
    let v = a * 2 ^ 8 + b in
    sixbits (v / 2 ^ 10)
    ∷ sixbits (v / 2 ^ 4 % 2 ^ 6)
    ∷ sixbits (v % 2 ^ 4 * 2 ^ 2)
    ∷ equals_sign
    ∷ []
lb64encode (a ∷ b ∷ c ∷ rest) =
    let v = a * 2 ^ 16 + b * 2 ^ 8 + c in
    sixbits (v / 2 ^ 18)
    ∷ sixbits (v / 2 ^ 12 % 2 ^ 6)
    ∷ sixbits (v / 2 ^ 6 % 2 ^ 6)
    ∷ sixbits (v % 2 ^ 6)
    ∷ lb64encode rest

-- The inner loop of `lb64decode`: the next indices that are not -1, and the text behind them.
unfoldable pub next_four : ℕ → List ℕ → Option (List Index × List ℕ)
unfolding b64index
next_four zero text = some ([], text)
next_four (suc j) [] = none
next_four (suc j) (ch ∷ text) =
    let skipped = next_four (suc j) text in
    let rest = next_four j text in
    elim (b64index ch) [
      | other ↦ skipped
      | digit n ↦ (rest >>= λ r. some (digit n ∷ r.0, r.1))
      | padding ↦ (rest >>= λ r. some (padding ∷ r.0, r.1))
    ]

-- The `switch` on the number of the paddings.
abbrev pub quad : List Index → Option (List ℕ)
quad (digit a ∷ digit b ∷ digit c ∷ digit d ∷ []) =
    let v = a * 2 ^ 18 + b * 2 ^ 12 + c * 2 ^ 6 + d in
    some (v / 2 ^ 16 ∷ v / 2 ^ 8 % 2 ^ 8 ∷ v % 2 ^ 8 ∷ [])
quad (digit a ∷ digit b ∷ digit c ∷ padding ∷ []) =
    let v = a * 2 ^ 10 + b * 2 ^ 4 + c / 2 ^ 2 in
    if c % 2 ^ 2 == 0 then some (v / 2 ^ 8 ∷ v % 2 ^ 8 ∷ []) else none
quad (digit a ∷ digit b ∷ padding ∷ padding ∷ []) =
    if b % 2 ^ 4 == 0 then some ((a * 2 ^ 2 + b / 2 ^ 4) ∷ []) else none
quad _ = none

-- The outer loop of `lb64decode`, on fuel.
unfoldable pub decode_loop : ℕ → List ℕ → Option (List ℕ)
unfolding next_four
decode_loop fuel [] = some []
decode_loop zero (ch ∷ text) = none
decode_loop (suc fuel) (ch ∷ text) = next_four 4 (ch ∷ text) >>= λ r.
    quad r.0 >>= λ bytes. decode_loop fuel r.1 >>= λ rest. some (bytes ++ rest)

-- `lb64decode`; every round reads at least four characters.
unfoldable pub lb64decode : List ℕ → Option (List ℕ)
unfolding decode_loop
lb64decode text = decode_loop (length text) text
