-- ===== src/Seri/Numbers.antt =====
-- The integers that ztask/lualib/lua-seri.c writes are read back.
use ztask.Base.{
  ℕ, ◌+◌, ◌-◌, ◌%◌, ◌^◌, ◌<◌, ◌≡◌, refl, ap, ◌∙◌, inl, inr, true, false, ◌&&◌, arith, List, [], ◌∷◌,
  ◌++◌, leb, ltb, ◌==◌, if◌then◌else◌, Bool-cases,
}
use ztask.Seri.{
  le_bytes, type_number, number_zero, number_byte, number_word, number_dword, number_qword,
  number_real, combine_type,
}
use ztask.Seri.Unpack.{parsed, ◌>>=◌, rb_read, from_le, get_integer}
use ztask.Seri.Bytes.{Spans, from_le-le_bytes, length-le_bytes, rb_read-append}
use ztask.Seri.Format.{integer_bytes}

pub read_le {ℓ} :
    {A : Type ℓ} (n v : ℕ) (rest : List ℕ) (f : ℕ → A)
    → Spans n v
    → (rb_read n (le_bytes n v ++ rest) >>= λ bs r. parsed (f (from_le bs)) r) ≡ parsed (f v) rest
read_le n v rest f h =
    ap (λ p. p >>= λ bs r. parsed (f (from_le bs)) r)
      (rb_read-append n (le_bytes n v) rest (length-le_bytes n v))
    ∙ ap (λ w. parsed (f w) rest) (from_le-le_bytes n v h)

-- The first byte of an integer and the bytes after it, and what reading them gives.
pub record Number (v : ℕ) : Type 0 where
  pub cookie : ℕ
  pub tail : List ℕ
  pub shape : integer_bytes v ≡ combine_type type_number cookie ∷ tail
  pub whole : (cookie == number_real) ≡ false
  pub reads : (rest : List ℕ) → get_integer cookie (tail ++ rest) ≡ parsed v rest

pub integer_bytes-Number : (v : ℕ) → v < 2 ^ 64 → Number v
unfolding get_integer
integer_bytes-Number v h = elim (Bool-cases (v == 0)) [
  | inl t ↦ record {
    cookie = number_zero;
    tail = [];
    shape = rw t refl;
    whole = refl;
    reads = λ rest. ap (λ w. parsed w rest) (ground arith);
  }
  | inr t ↦ elim (Bool-cases (leb (2 ^ 31) v && ltb v (2 ^ 64 - 2 ^ 31))) [
    | inl t₁ ↦ record {
      cookie = number_qword;
      tail = le_bytes 8 v;
      shape = rw (t, t₁) refl;
      whole = refl;
      reads = λ rest. read_le 8 v rest (λ w. w) (omega arith);
    }
    | inr t₁ ↦ elim (Bool-cases (leb (2 ^ 63) v)) [
      | inl t₂ ↦ record {
        cookie = number_dword;
        tail = le_bytes 4 (v % 2 ^ 32);
        shape = rw (t, t₁, t₂) refl;
        whole = refl;
        reads = λ rest.
            read_le 4 (v % 2 ^ 32) rest extend (omega arith)
            ∙ ap (λ w. parsed w rest) (negative t₁ t₂);
      }
      | inr t₂ ↦ elim (Bool-cases (ltb v 0x100)) [
        | inl t₃ ↦ record {
          cookie = number_byte;
          tail = le_bytes 1 v;
          shape = rw (t, t₁, t₂, t₃) refl;
          whole = refl;
          reads = λ rest. read_le 1 v rest (λ w. w) (ground arith);
        }
        | inr t₃ ↦ elim (Bool-cases (ltb v 0x10000)) [
          | inl t₄ ↦ record {
            cookie = number_word;
            tail = le_bytes 2 v;
            shape = rw (t, t₁, t₂, t₃, t₄) refl;
            whole = refl;
            reads = λ rest. read_le 2 v rest (λ w. w) (ground arith);
          }
          | inr t₄ ↦ record {
            cookie = number_dword;
            tail = le_bytes 4 v;
            shape = rw (t, t₁, t₂, t₃, t₄) refl;
            whole = refl;
            reads = λ rest.
                read_le 4 v rest extend (small t₁ t₂) ∙ ap (λ w. parsed w rest) (positive t₁ t₂);
          }
        ]
      ]
    ]
  ]
]
  where
    extend : ℕ → ℕ
    extend w = if ltb w (2 ^ 31) then w else w + (2 ^ 64 - 2 ^ 32)

    negative :
        (leb (2 ^ 31) v && ltb v (2 ^ 64 - 2 ^ 31)) ≡ false
        → leb (2 ^ 63) v ≡ true
        → extend (v % 2 ^ 32) ≡ v
    negative t₁ t₂ = ground arith

    small : (leb (2 ^ 31) v && ltb v (2 ^ 64 - 2 ^ 31)) ≡ false → leb (2 ^ 63) v ≡ false → Spans 4 v
    small t₁ t₂ = ground arith

    positive :
        (leb (2 ^ 31) v && ltb v (2 ^ 64 - 2 ^ 31)) ≡ false → leb (2 ^ 63) v ≡ false → extend v ≡ v
    positive t₁ t₂ = ground arith
