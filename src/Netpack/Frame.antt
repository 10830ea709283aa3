-- ===== src/Netpack/Frame.antt =====
-- The format of ztask/lualib/lua-netpack.c: a stream of packages, each behind its size, and what an
-- incomplete package at its end keeps of it.
use native.Mathlib.Omega.{arith}
use mathlib.Core.List.{append_assoc}
use ztask.Base.{
  ℕ, zero, suc, ◌+◌, ◌*◌, ◌/◌, ◌%◌, ◌^◌, ◌<◌, ◌≡◌, refl, sym, ap, ◌∙◌, ◌≢◌, Option, none, some,
  List, [], ◌∷◌, ◌++◌, length, drop, length-append, cons-inj, append-inj,
}
use ztask.Netpack.{Progress, half, reading, write_size, read_size}

-- Each number is a byte.
abbrev pub Bytes : List ℕ → Type 0
Bytes [] = Unit {0}
Bytes (b ∷ bs) = (b < 2 ^ 8) × Bytes bs

-- Each package is shorter than 2^16 bytes.
abbrev pub Short : List (List ℕ) → Type 0
Short [] = Unit {0}
Short (p ∷ ps) = (length p < 2 ^ 16) × Short ps

-- The stream of some packages.
abbrev pub frames : List (List ℕ) → List ℕ
frames [] = []
frames (p ∷ ps) = write_size (length p) ++ (p ++ frames ps)

-- The bytes of the stream that an incomplete package stands for.
abbrev pub pending : Option Progress → List ℕ
pending none = []
pending (some (half header)) = header ∷ []
pending (some (reading size buffer)) = write_size size ++ buffer

abbrev pub Incomplete : Option Progress → Type 0
Incomplete none = Unit {0}
Incomplete (some (half header)) = header < 2 ^ 8
Incomplete (some (reading size buffer)) = (length buffer < size) × (size < 2 ^ 16)

pub read_size-lt : (high low : ℕ) → high < 2 ^ 8 → low < 2 ^ 8 → read_size high low < 2 ^ 16
unfolding read_size
read_size-lt high low h l = omega arith

-- `write_size` undoes `read_size`.
pub write_size-read_size :
    (high low : ℕ) → high < 2 ^ 8 → low < 2 ^ 8 → write_size (read_size high low) ≡ high ∷ low ∷ []
unfolding write_size read_size
write_size-read_size high low h l =
    let e₁ : (high * 256 + low) / 256 % 256 ≡ high = omega arith in
    let e₂ : (high * 256 + low) % 256 ≡ low = omega arith in cc

pub Bytes-drop : (n : ℕ) (bs : List ℕ) → Bytes bs → Bytes (drop n bs)
Bytes-drop zero bs h = h
Bytes-drop (suc n) [] h = h
Bytes-drop (suc n) (b ∷ bs) (_, h) = Bytes-drop n bs h

same_size :
    (a b : ℕ) (us vs : List ℕ)
    → a < 2 ^ 16
    → b < 2 ^ 16
    → write_size a ++ us ≡ write_size b ++ vs
    → (a ≡ b) × (us ≡ vs)
unfolding write_size
same_size a b us vs ha hb e =
    let (high, rest) = cons-inj e in let (low, rest') = cons-inj rest in (omega arith, rest')

-- A package is never part of an incomplete one.
not_pending :
    (u : Option Progress) (p rest : List ℕ)
    → Incomplete u
    → length p < 2 ^ 16
    → pending u ≢ write_size (length p) ++ (p ++ rest)
unfolding write_size
not_pending none p rest i h e = cc
not_pending (some (half header)) p rest i h e = cc
not_pending (some (reading size buffer)) p rest (i, j) h e =
    let (same, rest') = same_size size (length p) buffer (p ++ rest) j h e in
    omega (arith, ap length rest', length-append p rest)

assoc :
    (p xs ys : List ℕ)
    → (write_size (length p) ++ (p ++ xs)) ++ ys ≡ write_size (length p) ++ (p ++ (xs ++ ys))
assoc p xs ys =
    append_assoc (write_size (length p)) (p ++ xs) ys
    ∙ ap (λ l. write_size (length p) ++ l) (append_assoc p xs ys)

-- A stream is cut into packages in one way only: two lists of packages of less than 2^16 bytes each,
-- followed by incomplete packages, with the same bytes are the same list and the same rest.
pub frames_unique :
    (ps rs : List (List ℕ)) (u w : Option Progress)
    → Short ps
    → Short rs
    → Incomplete u
    → Incomplete w
    → frames ps ++ pending u ≡ frames rs ++ pending w
    → (ps ≡ rs) × (pending u ≡ pending w)
frames_unique [] [] u w hp hr i j e = (refl, e)
frames_unique [] (r ∷ rs) u w hp (h, hr) i j e =
    absurd (not_pending u r (frames rs ++ pending w) i h (e ∙ assoc r (frames rs) (pending w)))
frames_unique (p ∷ ps) [] u w (h, hp) hr i j e =
    absurd (not_pending w p (frames ps ++ pending u) j h (sym e ∙ assoc p (frames ps) (pending u)))
frames_unique (p ∷ ps) (r ∷ rs) u w (h, hp) (h', hr) i j e =
    let (n, e') =
      same_size (length p) (length r) (p ++ (frames ps ++ pending u))
        (r ++ (frames rs ++ pending w)) h h'
        (sym (assoc p (frames ps) (pending u)) ∙ e ∙ assoc r (frames rs) (pending w)) in
    let (x, e'') = append-inj p r (frames ps ++ pending u) (frames rs ++ pending w) n e' in
    let (y, z) = frames_unique ps rs u w hp hr i j e'' in (cc, z)
