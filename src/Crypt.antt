-- ===== src/Crypt.antt =====
-- ztask/lualib/lua-crypt.c: the exchange of keys by Diffie and Hellman. `none` is `luaL_error`, or a recursion that
-- does not end. Numbers have 64 bits, and a string is its bytes.
pub mod Powers
pub mod Exchange
pub mod Base64
pub mod Decode
pub mod Hex
use ztask.Base.{
  ℕ, zero, suc, ◌+◌, ◌-◌, ◌*◌, ◌/◌, ◌%◌, ◌^◌, Bool, true, false, Option, none, some, List, [], ◌∷◌,
  leb, ltb, ◌==◌, if◌then◌else◌, length,
}

-- `P`
abbrev pub prime : ℕ
prime = 0xffffffffffffffc5

-- `G`
abbrev pub generator : ℕ
generator = 5

abbrev pub sub64 : ℕ → ℕ → ℕ
sub64 x y = (x + (2 ^ 64 - y)) % 2 ^ 64

infixl 5 ◌>>=◌
abbrev pub ◌>>=◌ {ℓ κ} : {A : Type ℓ} {B : Type κ} → Option A → (A → Option B) → Option B
none >>= f = none
some a >>= f = f a

-- The rounds of `mul_mod_p`: the sum with `a`, and the double of `a`.
abbrev pub add_p : ℕ → ℕ → ℕ
add_p m a = let t = sub64 prime a in if leb t m then sub64 m t else (m + a) % 2 ^ 64

abbrev pub double_p : ℕ → ℕ
double_p a = if leb (sub64 prime a) a then sub64 (a * 2 % 2 ^ 64) prime else a * 2 % 2 ^ 64

-- The loop of `mul_mod_p`, on fuel.
unfoldable pub mul_loop : ℕ → ℕ → ℕ → ℕ → Option ℕ
mul_loop zero m a b = if b == 0 then some m else none
mul_loop (suc fuel) m a b =
    let rest = mul_loop fuel (if b % 2 == 1 then add_p m a else m) (double_p a) (b / 2) in
    if b == 0 then some m else rest

-- `mul_mod_p`; a number of 64 bits is 0 after 64 shifts.
unfoldable pub mul_mod_p : ℕ → ℕ → Option ℕ
unfolding mul_loop
mul_mod_p a b = mul_loop 64 0 a b

-- `pow_mod_p`, on fuel.
unfoldable pub pow_loop : ℕ → ℕ → ℕ → Option ℕ
unfolding mul_mod_p
pow_loop zero a b = none
pow_loop (suc fuel) a b =
    let power = pow_loop fuel a (b / 2) >>= λ t.
    mul_mod_p t t >>= λ square. if b % 2 == 1 then mul_mod_p square a else some square in
    if b == 1 then some a else power

unfoldable pub pow_mod_p : ℕ → ℕ → Option ℕ
unfolding pow_loop
pow_mod_p a b = pow_loop 64 a b

unfoldable pub powmodp : ℕ → ℕ → Option ℕ
unfolding pow_mod_p
powmodp a b = pow_mod_p (if ltb prime a then a % prime else a) b

-- `read64` of one string, with its two halves put together.
abbrev pub read64 : List ℕ → Option ℕ
read64 (a ∷ b ∷ c ∷ d ∷ e ∷ f ∷ g ∷ h ∷ []) =
    some (
      (a + b * 2 ^ 8 + c * 2 ^ 16 + d * 2 ^ 24)
      + (e + f * 2 ^ 8 + g * 2 ^ 16 + h * 2 ^ 24) * 2 ^ 32)
read64 _ = none

abbrev pub push64 : ℕ → List ℕ
push64 r =
    r % 2 ^ 8
    ∷ r / 2 ^ 8 % 2 ^ 8
    ∷ r / 2 ^ 16 % 2 ^ 8
    ∷ r / 2 ^ 24 % 2 ^ 8
    ∷ r / 2 ^ 32 % 2 ^ 8
    ∷ r / 2 ^ 40 % 2 ^ 8
    ∷ r / 2 ^ 48 % 2 ^ 8
    ∷ r / 2 ^ 56 % 2 ^ 8
    ∷ []

unfoldable pub ldhsecret : List ℕ → List ℕ → Option (List ℕ)
unfolding powmodp
ldhsecret x y = read64 x >>= λ xx. read64 y >>= λ yy.
    let secret = powmodp xx yy >>= λ r. some (push64 r) in
    if xx == 0 then none else if yy == 0 then none else secret

unfoldable pub ldhexchange : List ℕ → Option (List ℕ)
unfolding powmodp
ldhexchange x = read64 x >>= λ xx.
    let public = powmodp generator xx >>= λ r. some (push64 r) in if xx == 0 then none else public
