-- ===== src/Crypt/Powers.antt =====
-- Products and powers modulo the prime of ztask/lualib/lua-crypt.c.
use native.Mathlib.Nat.{pow-suc, pow-zero, mod-eq_of_lt, add-mul-mod_self_left, mod-lt, mod-add-div}
use ztask.Base.{
  ℕ, zero, suc, ◌+◌, ◌*◌, ◌/◌, ◌%◌, ◌^◌, ◌<◌, ◌≡◌, ◌≢◌, sym, ap, ◌∙◌, inl, inr, Bool, true, false,
  arith, Option, some, leb, ltb, ◌==◌, if◌then◌else◌, Bool-cases,
}
use ztask.Crypt.{
  prime, sub64, ◌>>=◌, add_p, double_p, mul_loop, mul_mod_p, pow_loop, pow_mod_p, powmodp,
}

add_p-mod :
    (m a : ℕ)
    → m < prime
    → a < prime
    → (q : ℕ) × (m + a ≡ add_p m a + prime * q) × (add_p m a < prime)
add_p-mod m a h h' = elim (Bool-cases (leb (sub64 prime a) m)) [
  | inl large ↦ rw large (1, ground arith, ground arith)
  | inr small ↦ rw small (0, ground arith, ground arith)
]

double_p-mod :
    (a : ℕ) → a < prime → (q : ℕ) × (a * 2 ≡ double_p a + prime * q) × (double_p a < prime)
double_p-mod a h = elim (Bool-cases (leb (sub64 prime a) a)) [
  | inl large ↦ rw large (1, ground arith, ground arith)
  | inr small ↦ rw small (0, ground arith, ground arith)
]

-- Equal up to a multiple of the prime.
pub mod_shift : (x y q : ℕ) → x ≡ y + prime * q → y % prime ≡ x % prime
mod_shift x y q e = sym (ap (λ n. n % prime) e ∙ add-mul-mod_self_left y prime q)

odd_sum :
    (m a m' a' q r c : ℕ)
    → m + a ≡ m' + prime * q
    → a * 2 ≡ a' + prime * r
    → m + a * (c * 2 + 1) ≡ m' + a' * c + prime * (q + r * c)
odd_sum m a m' a' q r c e e' = omega (arith, ap (λ x. x * c) e')

even_sum :
    (m a a' r c : ℕ) → a * 2 ≡ a' + prime * r → m + a * (c * 2) ≡ m + a' * c + prime * (r * c)
even_sum m a a' r c e = omega (arith, ap (λ x. x * c) e)

no_rounds : (m a b : ℕ) → m < prime → b ≡ 0 → m ≡ (m + a * b) % prime
no_rounds m a b h e = sym (mod-eq_of_lt h) ∙ ap (λ n. n % prime) (omega (arith, ap (λ x. a * x) e))

-- The loop adds the product.
mul_loop-mod :
    (fuel m a b : ℕ)
    → b < 2 ^ fuel
    → a < prime
    → m < prime
    → mul_loop fuel m a b ≡ some ((m + a * b) % prime)
unfolding mul_loop
mul_loop-mod zero m a b h h₁ h₂ =
    let none_left : b ≡ 0 = omega arith in
    let test : (b == 0) ≡ true = ground arith in rw test (ap some (no_rounds m a b h₂ none_left))
mul_loop-mod (suc fuel) m a b h h₁ h₂ = elim (Bool-cases (b == 0)) [
  | inl stop ↦ rw stop (ap some (no_rounds m a b h₂ (ground arith)))
  | inr busy ↦
      let twice = double_p-mod a h₁ in
      let half : b / 2 < 2 ^ fuel = omega (arith, pow-suc 2 fuel) in
      elim (Bool-cases (b % 2 == 1)) [
        | inl odd ↦
            let sum = add_p-mod m a h₂ h₁ in
            let whole : b / 2 * 2 + 1 ≡ b = ground arith in
            rw (busy, odd)
              (mul_loop-mod fuel (add_p m a) (double_p a) (b / 2) half twice.2 sum.2
                ∙ ap some (
                    mod_shift (m + a * (b / 2 * 2 + 1)) (add_p m a + double_p a * (b / 2))
                      (sum.0 + twice.0 * (b / 2))
                      (odd_sum m a (add_p m a) (double_p a) sum.0 twice.0 (b / 2) sum.1 twice.1)
                    ∙ ap (λ n. (m + a * n) % prime) whole))
        | inr even ↦
            let whole : b / 2 * 2 ≡ b = ground arith in
            rw (busy, even)
              (mul_loop-mod fuel m (double_p a) (b / 2) half twice.2 h₂
                ∙ ap some (
                    mod_shift (m + a * (b / 2 * 2)) (m + double_p a * (b / 2)) (twice.0 * (b / 2))
                      (even_sum m a (double_p a) twice.0 (b / 2) twice.1)
                    ∙ ap (λ n. (m + a * n) % prime) whole))
      ]
]

-- `mul_mod_p` is the product modulo the prime, and ends.
pub mul_mod_p-mod : (a b : ℕ) → a < prime → b < 2 ^ 64 → mul_mod_p a b ≡ some (a * b % prime)
unfolding mul_mod_p
mul_mod_p-mod a b h h' =
    mul_loop-mod 64 0 a b h' h (omega arith) ∙ ap (λ n. some (n % prime)) (omega arith)

product_shift :
    (x y r s u v : ℕ)
    → x ≡ r + prime * u
    → y ≡ s + prime * v
    → x * y ≡ r * s + prime * (u * y + r * v)
product_shift x y r s u v e e' = omega (arith, ap (λ t. t * y) e, ap (λ t. r * t) e')

pub mod_product : (x y : ℕ) → (x % prime * (y % prime)) % prime ≡ x * y % prime
mod_product x y =
    mod_shift (x * y) (x % prime * (y % prime)) (x / prime * y + x % prime * (y / prime)) (
      product_shift x y (x % prime) (y % prime) (x / prime) (y / prime) (sym (mod-add-div x prime))
        (sym (mod-add-div y prime)))

mod_product_right : (x y : ℕ) → (x * (y % prime)) % prime ≡ x * y % prime
mod_product_right x y =
    mod_shift (x * y) (x * (y % prime)) (x * (y / prime))
      (ap (λ t. x * t) (sym (mod-add-div y prime)) ∙ omega arith)

pow_add : (a n m : ℕ) → a ^ (n + m) ≡ a ^ n * a ^ m
pow_add a n zero =
    let same : n + 0 ≡ n = omega arith in
    ap (λ k. a ^ k) same ∙ omega (arith, ap (λ x. a ^ n * x) (pow-zero a))
pow_add a n (suc m) =
    let further : n + suc m ≡ suc (n + m) = omega arith in
    ap (λ k. a ^ k) further
    ∙ pow-suc a (n + m)
    ∙ ap (λ x. x * a) (pow_add a n m)
    ∙ omega arith
    ∙ ap (λ x. a ^ n * x) (sym (pow-suc a m))

pub pow_product : (a n m : ℕ) → (a ^ n) ^ m ≡ a ^ (n * m)
pow_product a n zero = pow-zero (a ^ n) ∙ sym (pow-zero a) ∙ ap (λ k. a ^ k) (omega arith)
pow_product a n (suc m) =
    pow-suc (a ^ n) m
    ∙ ap (λ x. x * a ^ n) (pow_product a n m)
    ∙ sym (pow_add a (n * m) n)
    ∙ ap (λ k. a ^ k) (omega arith)

pub mod_power : (x n : ℕ) → (x % prime) ^ n % prime ≡ x ^ n % prime
mod_power x zero = ap (λ t. t % prime) (pow-zero (x % prime) ∙ sym (pow-zero x))
mod_power x (suc n) =
    ap (λ t. t % prime) (pow-suc (x % prime) n)
    ∙ sym (mod_product ((x % prime) ^ n) (x % prime))
    ∙ ap (λ t. (t * (x % prime % prime)) % prime) (mod_power x n)
    ∙ ap (λ t. (x ^ n % prime * t) % prime) (omega arith)
    ∙ mod_product (x ^ n) x
    ∙ ap (λ t. t % prime) (sym (pow-suc x n))

pub small_mod : (x : ℕ) → x % prime < prime
small_mod x = mod-lt x (omega arith)

square_of : (a c : ℕ) → (a ^ c % prime * (a ^ c % prime)) % prime ≡ a ^ (c * 2) % prime
square_of a c =
    mod_product (a ^ c) (a ^ c)
    ∙ ap (λ t. t % prime) (sym (pow_add a c c))
    ∙ ap (λ k. a ^ k % prime) (omega arith)

times_of : (a n : ℕ) → (a ^ n % prime * a) % prime ≡ a ^ (n + 1) % prime
times_of a n =
    ap (λ t. t % prime) (omega arith)
    ∙ mod_product_right a (a ^ n)
    ∙ ap (λ t. t % prime) (omega arith)
    ∙ ap (λ t. t % prime) (sym (pow-suc a n))
    ∙ ap (λ k. a ^ k % prime) (omega arith)

choose_true :
    {t : Bool} {x z : Option ℕ} (y : Option ℕ) → t ≡ true → x ≡ z → (if t then x else y) ≡ z
choose_true y e e' = rw e e'

choose_false :
    {t : Bool} {y z : Option ℕ} (x : Option ℕ) → t ≡ false → y ≡ z → (if t then x else y) ≡ z
choose_false x e e' = rw e e'

first_power : (a b : ℕ) → b ≡ 1 → a < prime → a ≡ a ^ b % prime
first_power a b e h =
    sym (mod-eq_of_lt h)
    ∙ ap (λ t. t % prime) (omega (arith, pow-suc a 0, ap (λ x. x * a) (pow-zero a)))
    ∙ ap (λ k. a ^ k % prime) (sym e)

-- From the power of half the exponent to the power.
doubled :
    (a b : ℕ)
    → a < prime
    → (mul_mod_p (a ^ (b / 2) % prime) (a ^ (b / 2) % prime) >>= λ square.
        if b % 2 == 1 then mul_mod_p square a else some square)
      ≡ some (a ^ b % prime)
doubled a b h =
    ap (λ o. o >>= finish)
      (mul_mod_p-mod (a ^ c % prime) (a ^ c % prime) less (omega arith) ∙ ap some (square_of a c))
    ∙ elim (Bool-cases (b % 2 == 1)) [
      | inl odd ↦ choose_true (some (a ^ (c * 2) % prime)) odd (
          mul_mod_p-mod (a ^ (c * 2) % prime) a (small_mod (a ^ (c * 2))) (omega arith)
          ∙ ap some (times_of a (c * 2))
          ∙ ap (λ k. some (a ^ k % prime)) (ground arith))
      | inr even ↦
          choose_false (mul_mod_p (a ^ (c * 2) % prime) a) even
            (ap (λ k. some (a ^ k % prime)) (ground arith))
    ]
  where
    c : ℕ
    c = b / 2

    finish : ℕ → Option ℕ
    finish square = if b % 2 == 1 then mul_mod_p square a else some square

    less : a ^ c % prime < prime
    less = small_mod (a ^ c)

pow_loop-mod :
    (fuel a b : ℕ) → 0 < b → b < 2 ^ fuel → a < prime → pow_loop fuel a b ≡ some (a ^ b % prime)
unfolding pow_loop
pow_loop-mod zero a b h h₁ h₂ = absurd (omega arith)
pow_loop-mod (suc fuel) a b h h₁ h₂ = elim (Bool-cases (b == 1)) [
  | inl stop ↦
      choose_true (pow_loop fuel a (b / 2) >>= next) stop
        (ap some (first_power a b (ground arith) h₂))
  | inr busy ↦ choose_false (some a) busy (
      ap (λ o. o >>= next)
        (pow_loop-mod fuel a (b / 2) (ground arith) (omega (arith, pow-suc 2 fuel)) h₂)
      ∙ doubled a b h₂)
]
  where
    next : ℕ → Option ℕ
    next t = mul_mod_p t t >>= λ square. if b % 2 == 1 then mul_mod_p square a else some square

-- `powmodp` is the power modulo the prime, and ends, for a base that is not the prime and an exponent of 64 bits
-- that is not 0.
pub powmodp-mod :
    (a b : ℕ) → a < 2 ^ 64 → a ≢ prime → 0 < b → b < 2 ^ 64 → powmodp a b ≡ some (a ^ b % prime)
unfolding powmodp pow_mod_p
powmodp-mod a b h differs positive h' = elim (Bool-cases (ltb prime a)) [
  | inl large ↦
      ap (λ t. pow_loop 64 (if t then a % prime else a) b) large
      ∙ pow_loop-mod 64 (a % prime) b positive h' (small_mod a)
      ∙ ap some (mod_power a b)
  | inr small ↦
      ap (λ t. pow_loop 64 (if t then a % prime else a) b) small
      ∙ pow_loop-mod 64 a b positive h' (below a differs small)
]
  where
    below : (x : ℕ) → x ≢ prime → ltb prime x ≡ false → x < prime
    below x e e' = ground arith
