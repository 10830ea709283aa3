-- ===== src/Seri/Ends.antt =====
-- The reads of ztask/lualib/lua-seri.c below a value end.
use ztask.Base.{
  ℕ, ◌+◌, ◌-◌, ◌/◌, ◌%◌, ◌^◌, ◌≤◌, ◌<◌, inl, inr, Bool, true, false, not, ◌||◌, arith, List, length,
  length-drop, ltb, ◌==◌, if◌then◌else◌, Bool-cases,
}
use ztask.Seri.{
  Value, type_nil, type_boolean, type_number, type_userdata, type_short_string, type_long_string,
  number_zero, number_byte, number_word, number_dword, number_qword, number_real, max_cookie,
}
use ztask.Seri.Unpack.{
  Parsed, parsed, invalid, too_big, starved, ◌>>=◌, rb_read, from_le, get_integer, get_qword,
  get_buffer, get_long_string, get_array_size, push_scalar,
}

-- Fuel did not run out, and fewer than `n` bytes are left.
abbrev pub Ends {ℓ} : {A : Type ℓ} → ℕ → Parsed A → Type 0
Ends n (parsed a rest) = length rest < n
Ends n invalid = Unit {0}
Ends n too_big = Unit {0}
Ends n starved = ⊥

pub Ends-bind {ℓ κ} :
    {A : Type ℓ} {B : Type κ} (m n : ℕ) (p : Parsed A) (f : A → List ℕ → Parsed B)
    → Ends m p
    → ((a : A) (rest : List ℕ) → length rest < m → Ends n (f a rest))
    → Ends n (p >>= f)
Ends-bind m n (parsed a rest) f h k = k a rest h
Ends-bind m n invalid f h k = tt
Ends-bind m n too_big f h k = tt
Ends-bind m n starved f h k = absurd h

pub Ends-if {ℓ} :
    {A : Type ℓ} (n : ℕ) (t : Bool) (p q : Parsed A)
    → Ends n p
    → Ends n q
    → Ends n (if t then p else q)
Ends-if n true p q h k = h
Ends-if n false p q h k = k

pub rb_read-Ends : (sz : ℕ) (rb : List ℕ) → Ends (length rb + 1) (rb_read sz rb)
unfolding rb_read
rb_read-Ends sz rb = elim (Bool-cases (ltb (length rb) sz)) [
  | inl short ↦ rw short tt
  | inr enough ↦ rw enough (omega (arith, length-drop sz rb))
]

-- What is made of the bytes of a read.
pub read_and {ℓ} :
    {A : Type ℓ} (sz : ℕ) (rb : List ℕ) (f : List ℕ → A)
    → Ends (length rb + 1) (rb_read sz rb >>= λ bs rest. parsed (f bs) rest)
read_and sz rb f =
    Ends-bind (length rb + 1) (length rb + 1) (rb_read sz rb) (λ bs rest. parsed (f bs) rest)
      (rb_read-Ends sz rb) (λ bs rest h. h)

pub get_integer-Ends : (cookie : ℕ) (rb : List ℕ) → Ends (length rb + 1) (get_integer cookie rb)
unfolding get_integer
get_integer-Ends cookie rb =
    let n = length rb + 1 in
    let word : List ℕ → ℕ =
      λ bs. if ltb (from_le bs) (2 ^ 31) then from_le bs else from_le bs + (2 ^ 64 - 2 ^ 32) in
    let read : ℕ → (List ℕ → ℕ) → Parsed ℕ =
      λ sz f. rb_read sz rb >>= λ bs rest. parsed (f bs) rest in
    let qword : Parsed ℕ = if cookie == number_qword then read 8 from_le else invalid in
    let dword : Parsed ℕ = if cookie == number_dword then read 4 word else qword in
    let double_byte : Parsed ℕ = if cookie == number_word then read 2 from_le else dword in
    let byte : Parsed ℕ = if cookie == number_byte then read 1 from_le else double_byte in
    Ends-if n (cookie == number_zero) (parsed 0 rb) byte (omega arith) (
      Ends-if n (cookie == number_byte) (read 1 from_le) double_byte (read_and 1 rb from_le) (
        Ends-if n (cookie == number_word) (read 2 from_le) dword (read_and 2 rb from_le) (
          Ends-if n (cookie == number_dword) (read 4 word) qword (read_and 4 rb word) (
            Ends-if n (cookie == number_qword) (read 8 from_le) invalid (read_and 8 rb from_le)
              tt))))

pub get_buffer-Ends : (len n : ℕ) (rb : List ℕ) → length rb < n → Ends n (get_buffer len rb)
unfolding get_buffer
get_buffer-Ends len n rb h = elim (Bool-cases (ltb len (2 ^ 31))) [
  | inl fits ↦ rw fits (
      Ends-bind (length rb + 1) n (rb_read len rb) (λ bs rest. parsed (Value.text bs) rest)
        (rb_read-Ends len rb) (λ bs rest less. omega arith))
  | inr negative ↦ rw negative tt
]

pub get_long_string-Ends :
    (cookie : ℕ) (rb : List ℕ) → Ends (length rb + 1) (get_long_string cookie rb)
unfolding get_long_string
get_long_string-Ends cookie rb = elim (Bool-cases (cookie == 2)) [
  | inl word ↦ rw word (sized 2)
  | inr other ↦ elim (Bool-cases (cookie == 4)) [
    | inl dword ↦ rw (other, dword) (sized 4)
    | inr neither ↦ rw (other, neither) tt
  ]
]
  where
    sized :
        (sz : ℕ) → Ends (length rb + 1) (rb_read sz rb >>= λ bs rest. get_buffer (from_le bs) rest)
    sized sz =
        Ends-bind (length rb + 1) (length rb + 1) (rb_read sz rb)
          (λ bs rest. get_buffer (from_le bs) rest) (rb_read-Ends sz rb)
          (λ bs rest h. get_buffer-Ends (from_le bs) (length rb + 1) rest h)

pub get_array_size-Ends :
    (cookie : ℕ) (rb : List ℕ) → Ends (length rb + 1) (get_array_size cookie rb)
unfolding get_array_size
get_array_size-Ends cookie rb = elim (Bool-cases (cookie == max_cookie - 1)) [
  | inl large ↦ rw large (
      Ends-bind n n (rb_read 1 rb) (λ bs rest. size bs rest) (rb_read-Ends 1 rb)
        (λ bs rest h.
          Ends-if n (not (from_le bs % 8 == type_number) || (from_le bs / 8 == number_real)) invalid
            (get_integer (from_le bs / 8) rest >>= λ m rest'. parsed (int m) rest') tt
            (Ends-bind (length rest + 1) n (get_integer (from_le bs / 8) rest)
              (λ m rest'. parsed (int m) rest') (get_integer-Ends (from_le bs / 8) rest)
              (λ m rest' h'. omega arith))))
  | inr small ↦ rw small (omega arith)
]
  where
    n : ℕ
    n = length rb + 1

    int : ℕ → ℕ
    int m = if ltb (m % 2 ^ 32) (2 ^ 31) then m % 2 ^ 32 else 0

    size : List ℕ → List ℕ → Parsed ℕ
    size bs rest =
        if not (from_le bs % 8 == type_number) || (from_le bs / 8 == number_real)
        then invalid
        else (get_integer (from_le bs / 8) rest >>= λ m rest'. parsed (int m) rest')

pub get_qword-Ends :
    (f : ℕ → Value) (rb : List ℕ)
    → Ends (length rb + 1) (get_qword rb >>= λ n rest. parsed (f n) rest)
unfolding get_qword
get_qword-Ends f rb =
    Ends-bind (length rb + 1) (length rb + 1) (get_qword rb) (λ n rest. parsed (f n) rest)
      (read_and 8 rb from_le) (λ n rest h. h)

pub push_scalar-Ends : (t cookie : ℕ) (rb : List ℕ) → Ends (length rb + 1) (push_scalar t cookie rb)
unfolding push_scalar
push_scalar-Ends t cookie rb = elim (Bool-cases (t == type_nil)) [
  | inl e ↦ rw e (omega arith)
  | inr e ↦ elim (Bool-cases (t == type_boolean)) [
    | inl e₁ ↦ rw (e, e₁) (omega arith)
    | inr e₁ ↦ elim (Bool-cases (t == type_number)) [
      | inl e₂ ↦ rw (e, e₁, e₂) number
      | inr e₂ ↦ elim (Bool-cases (t == type_userdata)) [
        | inl e₃ ↦ rw (e, e₁, e₂, e₃) (get_qword-Ends Value.pointer rb)
        | inr e₃ ↦ elim (Bool-cases (t == type_short_string)) [
          | inl e₄ ↦
              rw (e, e₁, e₂, e₃, e₄) (get_buffer-Ends cookie (length rb + 1) rb (omega arith))
          | inr e₄ ↦ elim (Bool-cases (t == type_long_string)) [
            | inl e₅ ↦ rw (e, e₁, e₂, e₃, e₄, e₅) (get_long_string-Ends cookie rb)
            | inr e₅ ↦ rw (e, e₁, e₂, e₃, e₄, e₅) tt
          ]
        ]
      ]
    ]
  ]
]
  where
    whole : Parsed Value
    whole = get_integer cookie rb >>= λ n rest. parsed (Value.integer n) rest

    number : Ends (length rb + 1) (
        if cookie == number_real
        then (get_qword rb >>= λ n rest. parsed (Value.real n) rest)
        else whole)
    number =
        Ends-if (length rb + 1) (cookie == number_real)
          (get_qword rb >>= λ n rest. parsed (Value.real n) rest) whole
          (get_qword-Ends Value.real rb)
          (Ends-bind (length rb + 1) (length rb + 1) (get_integer cookie rb)
            (λ n rest. parsed (Value.integer n) rest) (get_integer-Ends cookie rb) (λ n rest h. h))

pub Ends-more {ℓ} : {A : Type ℓ} (m n : ℕ) (p : Parsed A) → m ≤ n → Ends m p → Ends n p
Ends-more m n (parsed a rest) h k = omega arith
Ends-more m n invalid h k = tt
Ends-more m n too_big h k = tt
Ends-more m n starved h k = k
