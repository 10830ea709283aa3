-- ===== src/Seri/Bytes.antt =====
-- Numbers as bytes, and reads, in ztask/lualib/lua-seri.c.
use ztask.Base.{
  ℕ, zero, suc, ◌/◌, ◌^◌, ◌≡◌, refl, ap, arith, List, ◌++◌, length, length-append,
  take-append_length, drop-append_length, false, ltb,
}
use ztask.Seri.{le_bytes}
use ztask.Seri.Unpack.{parsed, rb_read, from_le}

-- `v` has `n` bytes.
abbrev pub Spans : ℕ → ℕ → Type 0
Spans zero v = v ≡ 0
Spans (suc n) v = Spans n (v / 2 ^ 8)

-- The bytes of a number that is small enough give the number back.
pub from_le-le_bytes : (n v : ℕ) → Spans n v → from_le (le_bytes n v) ≡ v
unfolding from_le le_bytes
from_le-le_bytes zero v h = omega arith
from_le-le_bytes (suc n) v h = omega (arith, from_le-le_bytes n (v / 2 ^ 8) h)

pub length-le_bytes : (n v : ℕ) → length (le_bytes n v) ≡ n
unfolding le_bytes
length-le_bytes zero v = refl
length-le_bytes (suc n) v = ap suc (length-le_bytes n (v / 2 ^ 8))

pub rb_read-append :
    (n : ℕ) (xs rest : List ℕ) → length xs ≡ n → rb_read n (xs ++ rest) ≡ parsed xs rest
unfolding rb_read
rb_read-append n xs rest e =
    rw (← e) (rw (enough, take-append_length xs rest, drop-append_length xs rest) refl)
  where
    enough : ltb (length (xs ++ rest)) (length xs) ≡ false
    enough = ground (arith, length-append xs rest)
