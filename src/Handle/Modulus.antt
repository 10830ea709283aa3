-- ===== src/Handle/Modulus.antt =====
-- Remainders by the size of the slot table of ztask/ztask_handle.c, a divisor of 2^24.
use native.Mathlib.Nat.{
  mod-add-div, add-mul-mod_self_left, mul_assoc, mod-lt, mod-add-mod, add-mod-mod, mod-eq_of_lt,
  add-mod_right, mul_comm, mul_left_comm,
}
use ztask.Base.{ℕ, ◌+◌, ◌-◌, ◌*◌, ◌/◌, ◌%◌, ◌<◌, ◌≡◌, sym, ap, ◌∙◌, arith}

pub mod_mul : (x s m : ℕ) → x % (s * m) % s ≡ x % s
mod_mul x s m =
    let r = x % (s * m) in
    let q = x / (s * m) in
    sym (add-mul-mod_self_left r s (m * q))
    ∙ ap (λ y. (r + y) % s) (sym (mul_assoc s m q))
    ∙ ap (λ y. y % s) (mod-add-div x (s * m))

pub add_mul_mod : (h H s m : ℕ) → (h + H * (s * m)) % s ≡ h % s
add_mul_mod h H s m =
    ap (λ y. (h + y) % s) (mul_left_comm H s m ∙ ap (λ y. s * y) (mul_comm H m))
    ∙ add-mul-mod_self_left h s (m * H)

-- Some probe of a round over the table looks at slot `j`.
pub probe_index : (size index j : ℕ) → j < size → (i : ℕ) × (i < size) × ((i + index) % size ≡ j)
probe_index size index j h =
    let i = (j + (size - index % size)) % size in
    let r : index % size < size = mod-lt index (omega arith) in
    (
      i,
      mod-lt _ (omega arith),
      mod-add-mod (j + (size - index % size)) size index
          ∙ sym (add-mod-mod (j + (size - index % size)) index size)
          ∙ ap (λ y. y % size) (round j size (index % size) r)
          ∙ add-mod_right j size
          ∙ mod-eq_of_lt h,
    )
  where
    round : (a b c : ℕ) → c < b → a + (b - c) + c ≡ a + b
    round a b c lt = omega arith
