-- ===== src/Handle/Register.antt =====
-- The probing loop of `ztask_handle_register` in ztask/ztask_handle.c.
use native.Mathlib.Nat.{zero-mod, mod_self}
use ztask.Base.{
  ℕ, zero, suc, ◌+◌, ◌%◌, ◌^◌, ◌<◌, ◌≡◌, refl, sym, ap, subst, ◌∙◌, ◌≢◌, inl, inr, false, none,
  some, ◌==◌, ==_iff, arith, Bool-cases,
}
use ztask.Handle.{HandleStorage, probe}
use ztask.Handle.Modulus.{mod_mul, probe_index}
use ztask.Handle.Table.{Valid, Full, Grown, size_pos}

module _ {Name : Type 0} (s : HandleStorage Name) where
  -- The slot that the probe number `k` looks at.
  abbrev probed : ℕ → ℕ
  probed k = s.slot ((k + s.handle_index) % 2 ^ 24 % s.slot_size)

  taken_from :
      (i k : ℕ)
      → (probed i == 0) ≡ false
      → ((k' : ℕ) → suc k' ≡ k → probed (i + 1 + k') ≢ 0)
      → probed (i + k) ≢ 0
  taken_from i zero first later z =
      let z' : probed i ≡ 0 = ap probed (add-zero' i) ∙ z in
      cc (sym first ∙ (==_iff (probed i) 0).1 z')
    where
      add-zero' : (n : ℕ) → n ≡ n + 0
      add-zero' n = omega arith
  taken_from i (suc k) first later z = later k refl (ap probed (shift i k) ∙ z)
    where
      shift : (i k : ℕ) → i + 1 + k ≡ i + suc k
      shift i k = omega arith

-- What the probing loop finds.
pub probe-some :
    {Name : Type 0} (rounds i handle : ℕ) (s : HandleStorage Name)
    → probe rounds i s ≡ some handle
    → (s.slot (handle % s.slot_size) ≡ 0) × (handle < 2 ^ 24)
unfolding probe
probe-some zero i handle s e = absurd (cc e)
probe-some (suc rounds) i handle s e =
    elim (Bool-cases (s.slot ((i + s.handle_index) % 2 ^ 24 % s.slot_size) == 0)) [
      | inl free ↦
          let e' : (i + s.handle_index) % 2 ^ 24 ≡ handle = some_inj (rw free at e) in
          (subst (λ h. s.slot (h % s.slot_size) ≡ 0) e' ((==_iff _ 0).0 free), omega arith)
      | inr taken ↦ probe-some rounds (i + 1) handle s (rw taken at e)
    ]
  where
    some_inj : {a b : ℕ} → some a ≡ some b → a ≡ b
    some_inj h = cc

probe-none :
    {Name : Type 0} (rounds i : ℕ) (s : HandleStorage Name)
    → probe rounds i s ≡ none
    → (k : ℕ) → k < rounds
    → s.slot ((i + k + s.handle_index) % 2 ^ 24 % s.slot_size) ≢ 0
unfolding probe
probe-none zero i s e k h = absurd (omega arith)
probe-none (suc rounds) i s e k h =
    elim (Bool-cases (s.slot ((i + s.handle_index) % 2 ^ 24 % s.slot_size) == 0)) [
      | inl free ↦ absurd (cc (rw free at e))
      | inr taken ↦
          taken_from s i k taken
            λ k' e'. probe-none rounds (i + 1) s (rw taken at e) k' (omega arith)
    ]

module _ {Name : Type 0} (handle_of : ℕ → ℕ) where
  -- A round of probes looks at every slot.
  pub probe-Full :
      (s : HandleStorage Name) → Valid handle_of s → probe s.slot_size 0 s ≡ none → Full handle_of s
  probe-Full s v e j lt z =
      let (i, small, here) = probe_index s.slot_size s.handle_index j lt in
      let seen : (i + s.handle_index) % 2 ^ 24 % s.slot_size ≡ j =
        subst (λ m. (i + s.handle_index) % m % s.slot_size ≡ j) v.size
          (mod_mul (i + s.handle_index) s.slot_size (2 ^ v.spare) ∙ here) in
      probe-none s.slot_size 0 s e i small (
        ap (λ n. s.slot ((n + s.handle_index) % 2 ^ 24 % s.slot_size)) (zero_left i)
        ∙ ap s.slot seen
        ∙ z)
    where
      zero_left : (n : ℕ) → 0 + n ≡ n
      zero_left n = omega arith

  -- After it has grown, the table has a free slot among its first `slot_size + 1`.
  pub Grown-free :
      (s s' : HandleStorage Name) → Valid handle_of s → Grown handle_of s s' → ¬ Full handle_of s'
  Grown-free s s' v g full =
      let n = s.slot_size in
      let pos : 0 < n = size_pos n v.spare v.size in
      let low = full 0 (rw g.size (omega arith)) in
      let high = full n (rw g.size (omega arith)) in
      let e₀ : s'.slot 0 ≡ s.slot (0 % n) = (g.back 0 low).0 in
      let e₁ : s'.slot n ≡ s.slot (n % n) = (g.back n high).0 in
      let same : s'.slot 0 ≡ s'.slot n = e₀ ∙ ap s.slot (wraps n pos) ∙ sym e₁ in
      let p₀ = (g.valid.placed 0 low).1 in
      let p₁ = (g.valid.placed n high).1 in
      let clash : 0 ≡ n = sym p₀ ∙ ap (λ c. handle_of c % s'.slot_size) same ∙ p₁ in omega arith
    where
      wraps : (n : ℕ) → 0 < n → 0 % n ≡ n % n
      wraps n h = zero-mod n ∙ sym (mod_self n)
