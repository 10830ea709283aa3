-- ===== src/Crypt/Exchange.antt =====
-- The exchange of keys in ztask/lualib/lua-crypt.c.
use native.Mathlib.Nat.{pow-suc}
use ztask.Base.{
  ℕ, zero, suc, ◌*◌, ◌%◌, ◌^◌, ◌<◌, ◌≡◌, ◌≢◌, refl, sym, ap, ◌∙◌, arith, Option, none, some, List,
  ◌==◌, if◌then◌else◌,
}
use ztask.Crypt.{prime, generator, ◌>>=◌, powmodp, read64, push64, ldhsecret, ldhexchange}
use ztask.Crypt.Powers.{mod_product, mod_power, pow_product, small_mod, powmodp-mod}

read64-push64 : (r : ℕ) → r < 2 ^ 64 → read64 (push64 r) ≡ some r
read64-push64 r h = ap some (omega arith)

abbrev inverse : ℕ
inverse = 7378697629483820623

-- The generator has an inverse modulo the prime, so that its powers are not 0.
unit_powers : (n : ℕ) → (generator ^ n * inverse ^ n) % prime ≡ 1
unit_powers zero = refl
unit_powers (suc n) =
    ap (λ t. t % prime)
      (omega (
        arith,
        ap (λ t. t * inverse ^ suc n) (pow-suc generator n),
        ap (λ t. generator ^ n * generator * t) (pow-suc inverse n),
      ))
    ∙ sym (mod_product (generator ^ n * inverse ^ n) (generator * inverse))
    ∙ ap (λ t. (t * (generator * inverse % prime)) % prime) (unit_powers n)

generator-power : (n : ℕ) → generator ^ n % prime ≢ 0
generator-power n e = absurd (omega (arith, one, unit_powers n))
  where
    one : (generator ^ n * inverse ^ n) % prime ≡ 0
    one =
        sym (mod_product (generator ^ n) (inverse ^ n))
        ∙ ap (λ t. (t * (inverse ^ n % prime)) % prime) e
        ∙ omega arith

exchange :
    (a : ℕ) → 0 < a → a < 2 ^ 64 → ldhexchange (push64 a) ≡ some (push64 (generator ^ a % prime))
unfolding ldhexchange
exchange a positive h =
    ap (λ o. o >>= public) (read64-push64 a h)
    ∙ not_zero a (powmodp generator a >>= λ r. some (push64 r)) positive
    ∙ ap (λ o. o >>= λ r. some (push64 r))
        (powmodp-mod generator a (omega arith) (λ e. absurd (omega arith)) positive h)
  where
    public : ℕ → Option (List ℕ)
    public xx = if xx == 0 then none else (powmodp generator xx >>= λ r. some (push64 r))

    not_zero : (n : ℕ) (o : Option (List ℕ)) → 0 < n → (if n == 0 then none else o) ≡ o
    not_zero n o less = ground arith

secret :
    (a b : ℕ)
    → 0 < b
    → b < 2 ^ 64
    → ldhsecret (push64 (generator ^ a % prime)) (push64 b)
      ≡ some (push64 (generator ^ (a * b) % prime))
unfolding ldhsecret
secret a b positive h =
    ap (λ o. o >>= λ xx. read64 (push64 b) >>= made xx) (read64-push64 base (omega arith))
    ∙ ap (λ o. o >>= made base) (read64-push64 b h)
    ∙ both base b (powmodp base b >>= λ r. some (push64 r)) (generator-power a) positive
    ∙ ap (λ o. o >>= λ r. some (push64 r))
        (powmodp-mod base b (omega arith) (λ e. absurd (omega arith)) positive h)
    ∙ ap (λ n. some (push64 n))
        (mod_power (generator ^ a) b ∙ ap (λ n. n % prime) (pow_product generator a b))
  where
    base : ℕ
    base = generator ^ a % prime

    less : base < prime
    less = small_mod (generator ^ a)

    made : ℕ → ℕ → Option (List ℕ)
    made xx yy =
        if xx == 0 then none else if yy == 0 then none else (powmodp xx yy >>= λ r. some (push64 r))

    both :
        (m n : ℕ) (o : Option (List ℕ))
        → m ≢ 0
        → 0 < n
        → (if m == 0 then none else if n == 0 then none else o) ≡ o
    both m n o differs less' = ground arith

-- Two sides with secret keys of 64 bits that are not 0 compute the same secret, each from the public key that
-- `ldhexchange` gives to the other and its own secret key: 5 to the product of the keys, modulo the prime. The loops
-- end, and no public key is 0, which `ldhsecret` would refuse.
pub ldhsecret-ldhexchange :
    (a b : ℕ)
    → 0 < a
    → a < 2 ^ 64
    → 0 < b
    → b < 2 ^ 64
    → ((ldhexchange (push64 a) >>= λ public. ldhsecret public (push64 b))
        ≡ some (push64 (generator ^ (a * b) % prime)))
      × ((ldhexchange (push64 b) >>= λ public. ldhsecret public (push64 a))
          ≡ some (push64 (generator ^ (a * b) % prime)))
ldhsecret-ldhexchange a b positive h positive' h' = (
  ap (λ o. o >>= λ public. ldhsecret public (push64 b)) (exchange a positive h)
      ∙ secret a b positive' h',
  ap (λ o. o >>= λ public. ldhsecret public (push64 a)) (exchange b positive' h')
      ∙ secret b a positive h
      ∙ ap (λ n. some (push64 (generator ^ n % prime))) (omega arith),
)
