-- ===== src/Harbor/Cookie.antt =====
-- A package of ztask/server/service_harbor.c holds the header of its message, and arrays hold what is
-- copied to them.
use ztask.Base.{
  ℕ, zero, suc, ◌+◌, ◌-◌, ◌^◌, ◌<◌, ◌≤◌, ◌≡◌, refl, ap, ◌∙◌, Bool, false, some, List, [], ◌∷◌, ◌++◌,
  arith, length, length-append, take-append_length, drop-append_length, ltb, update, update_self,
  update_ne,
}
use ztask.Harbor.{Header, Action}
use ztask.Harbor.Wire.{to_bigendian, header_to_message, from_bigendian, message_to_header}
use ztask.Harbor.Data.{copy_at, read_from, forward, forward_local}

-- The fields of a header are 32-bit words.
abbrev pub Fits : Header → Type 0
Fits h = (h.source < 2 ^ 32) × (h.destination < 2 ^ 32) × (h.session < 2 ^ 32)

from_bigendian-to_bigendian :
    (n : ℕ) (rest : List ℕ) → n < 2 ^ 32 → from_bigendian (to_bigendian n ++ rest) ≡ n
from_bigendian-to_bigendian n rest h = omega arith

-- `message_to_header` reads the header that `header_to_message` wrote.
pub message_to_header-header_to_message :
    (h : Header) → Fits h → message_to_header (header_to_message h) ≡ h
message_to_header-header_to_message h (a, b, c) =
    rw
      (
        from_bigendian-to_bigendian h.source (to_bigendian h.destination ++ to_bigendian h.session)
            a,
        from_bigendian-to_bigendian h.destination (to_bigendian h.session) b,
        from_bigendian-to_bigendian h.session [] c,
      )
      refl

-- The message and the header of a package are what `send_remote` has put there.
pub forward_local-package :
    (accepts : Action → Bool) (id : ℕ) (msg : List ℕ) (h : Header)
    → Fits h
    → forward_local accepts id (msg ++ header_to_message h) ≡ some (forward accepts id h msg)
unfolding forward_local
forward_local-package accepts id msg h fits =
    let long : length (msg ++ header_to_message h) ≡ length msg + 12 =
      length-append msg (header_to_message h) in
    let enough : ltb (length msg + 12) 12 ≡ false = ground arith in
    let front : (length msg + 12) - 12 ≡ length msg = omega arith in
    rw
      (
        long,
        enough,
        front,
        drop-append_length msg (header_to_message h),
        take-append_length msg (header_to_message h),
      )
      (ap (λ header. some (forward accepts id header msg))
        (message_to_header-header_to_message h fits))

copy_at-below :
    (array : ℕ → ℕ) (i : ℕ) (bytes : List ℕ) (j : ℕ) → j < i → copy_at array i bytes j ≡ array j
copy_at-below array i [] j h = refl
copy_at-below array i (b ∷ bytes) j h =
    copy_at-below (update array i b) (i + 1) bytes j (omega arith)
    ∙ update_ne array i j b (omega arith)

read_from-below :
    (array : ℕ → ℕ) (i n k : ℕ) (bytes : List ℕ)
    → i + n ≤ k
    → read_from (copy_at array k bytes) i n ≡ read_from array i n
read_from-below array i zero k bytes h = refl
read_from-below array i (suc n) k bytes h =
    rw
      (
        copy_at-below array k bytes i (omega arith),
        read_from-below array (i + 1) n k bytes (omega arith),
      )
      refl

read_from-written :
    (array : ℕ → ℕ) (i : ℕ) (bytes : List ℕ)
    → read_from (copy_at array i bytes) i (length bytes) ≡ bytes
read_from-written array i [] = refl
read_from-written array i (b ∷ bytes) =
    let first : copy_at (update array i b) (i + 1) bytes i ≡ b =
      copy_at-below (update array i b) (i + 1) bytes i (omega arith) ∙ update_self array i b in
    rw (first, read_from-written (update array i b) (i + 1) bytes) refl

read_from-add :
    (array : ℕ → ℕ) (i n m : ℕ)
    → read_from array i (n + m) ≡ read_from array i n ++ read_from array (i + n) m
read_from-add array i zero m =
    let none_read : 0 + m ≡ m = omega arith in
    let here : i + 0 ≡ i = omega arith in rw (none_read, here) refl
read_from-add array i (suc n) m =
    let next : (i + 1) + n ≡ i + suc n = omega arith in
    let more : suc n + m ≡ suc (n + m) = omega arith in
    ap (read_from array i) more
    ∙ ap (λ (l : List ℕ). array i ∷ l)
        (read_from-add array (i + 1) n m
          ∙ ap (λ j. read_from array (i + 1) n ++ read_from array j m) next)

-- An array that starts with `p` starts with `p` and further bytes when these are copied behind it.
pub read_from-copy_at :
    (array : ℕ → ℕ) (p bytes : List ℕ)
    → read_from array 0 (length p) ≡ p
    → read_from (copy_at array (length p) bytes) 0 (length (p ++ bytes)) ≡ p ++ bytes
read_from-copy_at array p bytes e =
    let start : 0 + length p ≡ length p = omega arith in
    ap (read_from (copy_at array (length p) bytes) 0) (length-append p bytes)
    ∙ read_from-add (copy_at array (length p) bytes) 0 (length p) (length bytes)
    ∙ ap
        (λ n.
          read_from (copy_at array (length p) bytes) 0 (length p)
          ++ read_from (copy_at array (length p) bytes) n (length bytes))
        start
    ∙ ap (λ l. l ++ read_from (copy_at array (length p) bytes) (length p) (length bytes))
        (read_from-below array 0 (length p) (length p) bytes (omega arith) ∙ e)
    ∙ ap (λ l. p ++ l) (read_from-written array (length p) bytes)
