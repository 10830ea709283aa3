-- ===== src/Crypt/Decode.antt =====
-- The base64 texts of ztask/lualib/lua-crypt.c are decoded to what was encoded.
use ztask.Base.{
  ℕ, zero, suc, ◌+◌, ◌*◌, ◌/◌, ◌%◌, ◌^◌, ◌≤◌, ◌<◌, ◌≡◌, refl, ap, ◌∙◌, inl, inr, arith, Bool, true,
  false, ◌&&◌, Option, none, some, List, [], ◌∷◌, ◌++◌, ◌==◌, if◌then◌else◌, length, Bool-cases,
}
use ztask.Crypt.{◌>>=◌}
use ztask.Crypt.Base64.{
  Index, digit, other, padding, sixbits, equals_sign, b64index, lb64encode, next_four, quad,
  decode_loop, lb64decode,
}

-- A test that holds below `n`.
abbrev all_below : ℕ → (ℕ → Bool) → Bool
all_below zero p = true
all_below (suc n) p = p n && all_below n p

left_true : (a b : Bool) → (a && b) ≡ true → a ≡ true
left_true true b h = refl
left_true false b h = h

right_true : (a b : Bool) → (a && b) ≡ true → b ≡ true
right_true true b h = h
right_true false b h = absurd (ground arith)

all_below-each : (n : ℕ) (p : ℕ → Bool) (k : ℕ) → all_below n p ≡ true → k < n → p k ≡ true
all_below-each zero p k h less = absurd (omega arith)
all_below-each (suc n) p k h less = elim (Bool-cases (k == n)) [
  | inl here ↦ ap p (ground arith) ∙ left_true (p n) (all_below n p) h
  | inr below ↦ all_below-each n p k (right_true (p n) (all_below n p) h) (ground arith)
]

-- The digit that `b64index` gives, or 64.
abbrev digit_of : Index → ℕ
digit_of (digit n) = n
digit_of other = 64
digit_of padding = 64

digits_checked : all_below 64 (λ v. digit_of (b64index (sixbits v)) == v) ≡ true
unfolding b64index sixbits
digits_checked = refl

index_digit : (i : Index) (v : ℕ) → v < 64 → (digit_of i == v) ≡ true → i ≡ digit v
index_digit (digit n) v h e = ap digit (ground arith)
index_digit other v h e = absurd (ground arith)
index_digit padding v h e = absurd (ground arith)

b64index-sixbits : (v : ℕ) → v < 64 → b64index (sixbits v) ≡ digit v
b64index-sixbits v h =
    index_digit (b64index (sixbits v)) v h
      (all_below-each 64 (λ k. digit_of (b64index (sixbits k)) == k) v digits_checked h)

next_four-digit :
    (j v : ℕ) (text rest : List ℕ) (is : List Index)
    → v < 64
    → next_four j text ≡ some (is, rest)
    → next_four (suc j) (sixbits v ∷ text) ≡ some (digit v ∷ is, rest)
unfolding next_four
next_four-digit j v text rest is h e =
    ap
      (λ i. elim i as (λ x. Option (List Index × List ℕ)) [
        | other ↦ next_four (suc j) text
        | digit n ↦ (next_four j text >>= λ r. some (digit n ∷ r.0, r.1))
        | padding ↦ (next_four j text >>= λ r. some (padding ∷ r.0, r.1))
      ])
      (b64index-sixbits v h)
    ∙ ap (λ o. o >>= λ r. some (digit v ∷ r.0, r.1)) e

next_four-padding :
    (j : ℕ) (text rest : List ℕ) (is : List Index)
    → next_four j text ≡ some (is, rest)
    → next_four (suc j) (equals_sign ∷ text) ≡ some (padding ∷ is, rest)
unfolding next_four b64index
next_four-padding j text rest is e = ap (λ o. o >>= λ r. some (padding ∷ r.0, r.1)) e

next_four-zero : (text : List ℕ) → next_four 0 text ≡ some ([], text)
unfolding next_four
next_four-zero text = refl

-- A group of four characters.
group :
    (fuel ch : ℕ) (text rest bytes others : List ℕ) (is : List Index)
    → next_four 4 (ch ∷ text) ≡ some (is, rest)
    → quad is ≡ some bytes
    → decode_loop fuel rest ≡ some others
    → decode_loop (suc fuel) (ch ∷ text) ≡ some (bytes ++ others)
unfolding decode_loop
group fuel ch text rest bytes others is e e₁ e₂ =
    ap (λ o. o >>= λ r. quad r.0 >>= λ bs. decode_loop fuel r.1 >>= λ tail. some (bs ++ tail)) e
    ∙ ap (λ o. o >>= λ bs. decode_loop fuel rest >>= λ tail. some (bs ++ tail)) e₁
    ∙ ap (λ o. o >>= λ tail. some (bytes ++ tail)) e₂

nothing_left : (fuel : ℕ) → decode_loop fuel [] ≡ some []
unfolding decode_loop
nothing_left zero = refl
nothing_left (suc fuel) = refl

three :
    {x y z x' y' z' : ℕ}
    → x ≡ x'
    → y ≡ y'
    → z ≡ z'
    → some (x ∷ y ∷ z ∷ []) ≡ some (x' ∷ y' ∷ z' ∷ [])
three e e₁ e₂ = rw (e, e₁, e₂) refl

quad-three :
    (a b c : ℕ)
    → a < 256
    → b < 256
    → c < 256
    → quad (
        digit ((a * 2 ^ 16 + b * 2 ^ 8 + c) / 2 ^ 18)
        ∷ digit ((a * 2 ^ 16 + b * 2 ^ 8 + c) / 2 ^ 12 % 2 ^ 6)
        ∷ digit ((a * 2 ^ 16 + b * 2 ^ 8 + c) / 2 ^ 6 % 2 ^ 6)
        ∷ digit ((a * 2 ^ 16 + b * 2 ^ 8 + c) % 2 ^ 6)
        ∷ [])
      ≡ some (a ∷ b ∷ c ∷ [])
quad-three a b c h h₁ h₂ = three (omega arith) (omega arith) (omega arith)

allowed : {t : Bool} {xs ys : List ℕ} → t ≡ true → xs ≡ ys → (if t then some xs else none) ≡ some ys
allowed e e' = rw (e, e') refl

two : {x y x' y' : ℕ} → x ≡ x' → y ≡ y' → (x ∷ y ∷ []) ≡ (x' ∷ y' ∷ [])
two e e₁ = rw (e, e₁) refl

remainder_zero : (n : ℕ) → n ≡ 0 → (n == 0) ≡ true
remainder_zero n e = ground arith

quad-two :
    (a b : ℕ)
    → a < 256
    → b < 256
    → quad (
        digit ((a * 2 ^ 8 + b) / 2 ^ 10)
        ∷ digit ((a * 2 ^ 8 + b) / 2 ^ 4 % 2 ^ 6)
        ∷ digit ((a * 2 ^ 8 + b) % 2 ^ 4 * 2 ^ 2)
        ∷ padding
        ∷ [])
      ≡ some (a ∷ b ∷ [])
quad-two a b h h₁ =
    allowed (remainder_zero ((a * 2 ^ 8 + b) % 2 ^ 4 * 2 ^ 2 % 2 ^ 2) (omega arith))
      (two (omega arith) (omega arith))

quad-one :
    (a : ℕ)
    → a < 256
    → quad (digit (a / 2 ^ 2) ∷ digit (a % 2 ^ 2 * 2 ^ 4) ∷ padding ∷ padding ∷ []) ≡ some (a ∷ [])
quad-one a h =
    allowed (remainder_zero (a % 2 ^ 2 * 2 ^ 4 % 2 ^ 4) (omega arith))
      (ap (λ x. x ∷ []) (omega arith))

-- All are bytes.
abbrev pub Bytes : List ℕ → Type 0
Bytes [] = Unit {0}
Bytes (b ∷ bs) = (b < 256) × Bytes bs

decode_loop-lb64encode :
    (xs : List ℕ) (fuel : ℕ)
    → Bytes xs
    → length (lb64encode xs) ≤ fuel
    → decode_loop fuel (lb64encode xs) ≡ some xs
unfolding lb64encode
decode_loop-lb64encode [] fuel p h = nothing_left fuel
decode_loop-lb64encode (a ∷ []) zero p h = absurd (omega arith)
decode_loop-lb64encode (a ∷ []) (suc fuel) (p, q) h =
    group fuel (sixbits (a / 2 ^ 2)) (sixbits (a % 2 ^ 2 * 2 ^ 4) ∷ equals_sign ∷ equals_sign ∷ [])
      [] (a ∷ []) [] (digit (a / 2 ^ 2) ∷ digit (a % 2 ^ 2 * 2 ^ 4) ∷ padding ∷ padding ∷ [])
      (next_four-digit 3 _ _ _ _ (omega arith) (
        next_four-digit 2 _ _ _ _ (omega arith)
          (next_four-padding 1 _ _ _ (next_four-padding 0 _ _ _ (next_four-zero [])))))
      (quad-one a p) (nothing_left fuel)
decode_loop-lb64encode (a ∷ b ∷ []) zero p h = absurd (omega arith)
decode_loop-lb64encode (a ∷ b ∷ []) (suc fuel) (p, (q, r)) h =
    let v = a * 2 ^ 8 + b in
    group fuel (sixbits (v / 2 ^ 10))
      (sixbits (v / 2 ^ 4 % 2 ^ 6) ∷ sixbits (v % 2 ^ 4 * 2 ^ 2) ∷ equals_sign ∷ []) [] (a ∷ b ∷ [])
      [] (digit (v / 2 ^ 10) ∷ digit (v / 2 ^ 4 % 2 ^ 6) ∷ digit (v % 2 ^ 4 * 2 ^ 2) ∷ padding ∷ [])
      (next_four-digit 3 _ _ _ _ (omega arith) (
        next_four-digit 2 _ _ _ _ (omega arith) (
          next_four-digit 1 _ _ _ _ (omega arith) (next_four-padding 0 _ _ _ (next_four-zero [])))))
      (quad-two a b p q) (nothing_left fuel)
decode_loop-lb64encode (a ∷ b ∷ c ∷ xs) zero p h = absurd (omega arith)
decode_loop-lb64encode (a ∷ b ∷ c ∷ xs) (suc fuel) (p, (q, (r, more))) h =
    let v = a * 2 ^ 16 + b * 2 ^ 8 + c in
    group fuel (sixbits (v / 2 ^ 18))
      (sixbits (v / 2 ^ 12 % 2 ^ 6)
        ∷ sixbits (v / 2 ^ 6 % 2 ^ 6)
        ∷ sixbits (v % 2 ^ 6)
        ∷ lb64encode xs)
      (lb64encode xs) (a ∷ b ∷ c ∷ []) xs
      (digit (v / 2 ^ 18)
        ∷ digit (v / 2 ^ 12 % 2 ^ 6)
        ∷ digit (v / 2 ^ 6 % 2 ^ 6)
        ∷ digit (v % 2 ^ 6)
        ∷ [])
      (next_four-digit 3 _ _ _ _ (omega arith) (
        next_four-digit 2 _ _ _ _ (omega arith) (
          next_four-digit 1 _ _ _ _ (omega arith)
            (next_four-digit 0 _ _ _ _ (omega arith) (next_four-zero (lb64encode xs))))))
      (quad-three a b c p q r) (decode_loop-lb64encode xs fuel more (omega arith))

length-lb64encode : (xs : List ℕ) → length (lb64encode xs) ≡ (length xs + 2) / 3 * 4
unfolding lb64encode
length-lb64encode [] = omega arith
length-lb64encode (a ∷ []) = omega arith
length-lb64encode (a ∷ b ∷ []) = omega arith
length-lb64encode (a ∷ b ∷ c ∷ xs) = omega (arith, length-lb64encode xs)

-- The base64 text of any bytes, if it has less than 2^31 characters, has the length for which `lb64encode` allots its buffer, four characters for three
-- bytes or fewer, and `lb64decode` gives the bytes back.
pub lb64decode-lb64encode :
    (xs : List ℕ)
    → Bytes xs
    → (length xs + 2) / 3 * 4 < 2 ^ 31
    → (length (lb64encode xs) ≡ (length xs + 2) / 3 * 4) × (lb64decode (lb64encode xs) ≡ some xs)
unfolding lb64decode
lb64decode-lb64encode xs p small =
    (length-lb64encode xs, decode_loop-lb64encode xs (length (lb64encode xs)) p (omega arith))
