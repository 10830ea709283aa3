-- ===== src/Base/Ring.antt =====
-- Ring buffers: the entries between two indices of an array that wrap at its capacity, and the copy
-- that a full buffer makes of itself when it grows. ztask/ztask_mq.c and
-- ztask/lualib/lua-netpack.c have one each.
use native.Mathlib.Nat.{mod-eq_of_lt, mod-eq-sub-mod}
use mathlib.Core.Path.{◌≡◌, refl, sym, ap, ◌∙◌}
use mathlib.Core.Logic.{◌≢◌, inl, inr}
use mathlib.Core.Bool.{true}
use mathlib.Core.List.{List, [], ◌∷◌, ◌++◌}
use Prim.Native.Nat.{ℕ, zero, suc, ◌+◌, ◌-◌, ◌%◌, ◌≤◌, ◌<◌}
use native.Mathlib.Omega.{arith}
use ztask.Base.Tests.{leb, ltb, if◌then◌else◌, Bool-cases}
use ztask.Base.Lists.{update, update_self, update_ne, length}

-- The index after `i`: `++i` and the reset at `cap`.
unfoldable pub advance : ℕ → ℕ → ℕ
advance cap i = if leb cap (i + 1) then 0 else i + 1

-- The entries that a head at `s` meets in `n` reads.
unfoldable pub window : {A : Type 0} → (ℕ → A) → ℕ → ℕ → ℕ → List A
window f cap s zero = []
window f cap s (suc n) = f s ∷ window f cap (advance cap s) n

-- The slots between `s` and `t`, round the end of the array.
abbrev pub gap : ℕ → ℕ → ℕ → ℕ
gap cap s t = if leb s t then t - s else (t + cap) - s

pub advance-lt : (cap s : ℕ) → s < cap → advance cap s < cap
unfolding advance
advance-lt cap s h = ground arith

pub gap-advance :
    (cap s t : ℕ) → s < cap → t < cap → s ≢ t → gap cap s t ≡ suc (gap cap (advance cap s) t)
unfolding advance
gap-advance cap s t hs ht ne = ground arith

pub gap-zero : (cap s t : ℕ) → s < cap → t < cap → gap cap s t ≡ 0 → s ≡ t
gap-zero cap s t hs ht e = ground arith

pub window-update :
    {A : Type 0} (f : ℕ → A) (cap s t : ℕ) (m : A) (n : ℕ)
    → s < cap
    → t < cap
    → n ≤ gap cap s t
    → window (update f t m) cap s n ≡ window f cap s n
unfolding window
window-update f cap s t m zero hs ht h = refl
window-update {A = A} f cap s t m (suc n) hs ht h =
    let ne : s ≢ t = ground arith in
    ap₂' (update_ne f t s m ne) (
      window-update f cap (advance cap s) t m n (advance-lt cap s hs) ht
        (omega (arith, gap-advance cap s t hs ht ne)))
  where
    ap₂' : {x y : A} {xs ys : List A} → x ≡ y → xs ≡ ys → x ∷ xs ≡ y ∷ ys
    ap₂' p q = cc

window-snoc :
    {A : Type 0} (f : ℕ → A) (cap s t : ℕ) (n : ℕ)
    → s < cap
    → t < cap
    → n ≡ gap cap s t
    → window f cap s (suc n) ≡ window f cap s n ++ f t ∷ []
unfolding window
window-snoc f cap s t zero hs ht h = cc (gap-zero cap s t hs ht (sym h))
window-snoc {A = A} f cap s t (suc n) hs ht h =
    let ne : s ≢ t = ground arith in
    ap (λ (l : List A). f s ∷ l)
      (window-snoc f cap (advance cap s) t n (advance-lt cap s hs) ht
        (omega (arith, gap-advance cap s t hs ht ne)))

pub mod_near : (n cap : ℕ) → n < cap + cap → n % cap ≡ (if ltb n cap then n else n - cap)
mod_near n cap h = elim (Bool-cases (ltb n cap)) [
  | inl low ↦ rw low (mod-eq_of_lt (ground arith))
  | inr high ↦
      rw high (mod-eq-sub-mod {n = n} {m = cap} (ground arith) ∙ mod-eq_of_lt (ground arith))
]

pub advance-mod :
    (cap h i : ℕ) → h < cap → i < cap → advance cap ((h + i) % cap) ≡ (h + (i + 1)) % cap
unfolding advance
advance-mod cap h i hh hi =
    ground (arith, mod_near (h + i) cap (omega arith), mod_near (h + (i + 1)) cap (omega arith))

-- The copy that `expand_queue` makes, read from its slot `i` on.
window-expand :
    {A : Type 0} (f pad : ℕ → A) (cap grown h i n : ℕ)
    → cap < grown
    → h < cap
    → i + n ≤ cap
    → window (λ j. if ltb j cap then f ((h + j) % cap) else pad j) grown i n
      ≡ window f cap ((h + i) % cap) n
unfolding window
window-expand f pad cap grown h i zero more hh hi = refl
window-expand f pad cap grown h i (suc n) more hh hi =
    let low : ltb i cap ≡ true = ground arith in
    let step : advance grown i ≡ i + 1 = no_wrap in
    rw (
      low,
      step,
      window-expand f pad cap grown h (i + 1) n more hh (omega arith),
      advance-mod cap h i hh (omega arith),
    )
  where
    no_wrap : advance grown i ≡ i + 1
    no_wrap = unfold advance in ground arith

-- After a push that does not fill the array.
pub written-contents :
    {A : Type 0} (f : ℕ → A) (cap s t : ℕ) (m : A)
    → s < cap
    → t < cap
    → window (update f t m) cap s (suc (gap cap s t)) ≡ window f cap s (gap cap s t) ++ m ∷ []
written-contents f cap s t m hs ht =
    window-snoc (update f t m) cap s t (gap cap s t) hs ht refl
    ∙ rw (window-update f cap s t m (gap cap s t) hs ht (omega arith), update_self f t m) refl

-- Where the tail moves to meets the head exactly when the array has become full.
pub gap-full : (cap s t : ℕ) → s < cap → t < cap → s ≡ advance cap t → suc (gap cap s t) ≡ cap
unfolding advance
gap-full cap s t hs ht e = ground arith

pub gap-step :
    (cap s t : ℕ)
    → s < cap
    → t < cap
    → s ≢ advance cap t
    → gap cap s (advance cap t) ≡ suc (gap cap s t)
unfolding advance
gap-step cap s t hs ht ne = ground arith

-- `expand_queue` of a full array.
pub expanded-contents :
    {A : Type 0} (f pad : ℕ → A) (cap grown s : ℕ)
    → cap < grown
    → s < cap
    → window (λ j. if ltb j cap then f ((s + j) % cap) else pad j) grown 0 (gap grown 0 cap)
      ≡ window f cap s cap
expanded-contents f pad cap grown s more hs =
    let all : gap grown 0 cap ≡ cap = ground arith in
    let start : (s + 0) % cap ≡ s = ground (arith, mod_near (s + 0) cap (omega arith)) in
    rw (all, window-expand f pad cap grown s 0 cap more hs (omega arith), start)

pub length-window : {A : Type 0} (f : ℕ → A) (cap s n : ℕ) → length (window f cap s n) ≡ n
unfolding window
length-window f cap s zero = refl
length-window f cap s (suc n) = ap suc (length-window f cap (advance cap s) n)
