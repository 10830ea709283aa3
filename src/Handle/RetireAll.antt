-- ===== src/Handle/RetireAll.antt =====
-- `ztask_handle_retireall` of ztask/ztask_handle.c, where no service registers meanwhile.
use ztask.Base.{
  ℕ, zero, suc, ◌+◌, ◌%◌, ◌<◌, ◌≡◌, refl, ap, subst, ◌∙◌, ◌≢◌, inl, inr, true, false, some, ◌==◌,
  ==_iff, ==_self, update, arith, Bool-cases,
}
use ztask.Handle.{HandleStorage, retire, retire_pass, retire_all}

module _ {Name : Type 0} (handle_of : ℕ → ℕ) where
  -- Every service in the table stands in the slot of its handle, which is not 0.
  abbrev pub Named : HandleStorage Name → Type 0
  Named s =
      (i : ℕ) → s.slot i ≢ 0 → (handle_of (s.slot i) ≢ 0) × (handle_of (s.slot i) % s.slot_size ≡ i)

  abbrev Cleared : ℕ → HandleStorage Name → Type 0
  Cleared k s = (j : ℕ) → j < k → s.slot j ≡ 0

  retire-slot :
      (s : HandleStorage Name) (i : ℕ)
      → s.slot i ≢ 0
      → handle_of (s.slot i) % s.slot_size ≡ i
      → let r = (retire handle_of (handle_of (s.slot i)) s).1 in
        (r.slot ≡ update s.slot i 0) × (r.slot_size ≡ s.slot_size)
  unfolding retire
  retire-slot s i taken at =
      let busy : (s.slot i == 0) ≡ false = ground arith in
      let own : (handle_of (s.slot i) == handle_of (s.slot i)) ≡ true =
        ==_self (handle_of (s.slot i)) in
      rw (retire, at, busy, own) (refl, refl)

  pass-Cleared :
      (rounds i : ℕ) (s : HandleStorage Name)
      → Named s
      → Cleared i s
      → let r = (retire_pass handle_of rounds i s).1 in
        Cleared (i + rounds) r × Named r × (r.slot_size ≡ s.slot_size)
  unfolding retire_pass
  pass-Cleared zero i s v c = ((λ j h. c j (omega arith)), v, refl)
  pass-Cleared (suc rounds) i s v c = elim (Bool-cases (s.slot i == 0)) [
    | inl free ↦
        let (c', v', e) = pass-Cleared rounds (i + 1) s v (λ j h. clear_next j h free) in
        rw (retire_pass, free) ((λ j h. c' j (omega arith)), v', e)
    | inr taken ↦
        let (own, at) = v i (ground arith) in
        let nz : (handle_of (s.slot i) == 0) ≡ false = ground arith in
        let s₁ = (retire handle_of (handle_of (s.slot i)) s).1 in
        let (slots, size) = retire-slot s i (ground arith) at in
        let (c', v', e) =
          pass-Cleared rounds (i + 1) s₁ (named_next s₁ slots size) (cleared_next s₁ slots) in
        rw (retire_pass, taken, nz) ((λ j h. c' j (omega arith)), v', e ∙ size)
  ]
    where
      clear_next : (j : ℕ) → j < i + 1 → (s.slot i == 0) ≡ true → s.slot j ≡ 0
      clear_next j h free = elim (Bool-cases (j == i)) [
        | inl here ↦ ap s.slot ((==_iff j i).0 here) ∙ (==_iff (s.slot i) 0).0 free
        | inr there ↦ c j (ground arith)
      ]

      cleared_next : (s₁ : HandleStorage Name) → s₁.slot ≡ update s.slot i 0 → Cleared (i + 1) s₁
      cleared_next s₁ slots j h = elim (Bool-cases (j == i)) [
        | inl here ↦ ap (λ f. f j) slots ∙ rw here refl
        | inr there ↦ ap (λ f. f j) slots ∙ rw there (c j (ground arith))
      ]

      by_slot :
          (j : ℕ)
          → update s.slot i 0 j ≢ 0
          → (handle_of (update s.slot i 0 j) ≢ 0)
            × (handle_of (update s.slot i 0 j) % s.slot_size ≡ j)
      by_slot j taken = elim (Bool-cases (j == i)) [
        | inl here ↦ absurd (rw here at taken refl)
        | inr there ↦ rw there (v j (rw there at taken))
      ]

      named_next :
          (s₁ : HandleStorage Name)
          → s₁.slot ≡ update s.slot i 0
          → s₁.slot_size ≡ s.slot_size
          → Named s₁
      named_next s₁ slots size j taken =
          rw (slots, size) (by_slot j (subst (λ f. f j ≢ 0) slots taken))

  -- A pass over an empty table retires none.
  pass-none :
      (rounds i : ℕ) (s : HandleStorage Name)
      → ((j : ℕ) → j < i + rounds → s.slot j ≡ 0)
      → retire_pass handle_of rounds i s ≡ (0, s)
  unfolding retire_pass
  pass-none zero i s c = refl
  pass-none (suc rounds) i s c =
      let free : (s.slot i == 0) ≡ true = (==_iff (s.slot i) 0).1 (c i (omega arith)) in
      rw (retire_pass, free) (pass-none rounds (i + 1) s (λ j h. c j (omega arith)))

  -- Where every service in the table stands in the slot of its handle, not 0, and no other thread
  -- registers or retires a handle while it runs, the loop of `ztask_handle_retireall` ends after at most
  -- two rounds, and leaves no service in the table.
  pub retire_all-Cleared :
      (s : HandleStorage Name)
      → Named s
      → (s' : HandleStorage Name) × (retire_all handle_of 2 s ≡ some s')
        × (s'.slot_size ≡ s.slot_size)
        × ((j : ℕ) → j < s'.slot_size → s'.slot j ≡ 0)
  unfolding retire_all
  retire_all-Cleared s v =
      let (c, v', e) = pass-Cleared s.slot_size 0 s v (λ j h. absurd (omega arith)) in
      let s₁ = (retire_pass handle_of s.slot_size 0 s).1 in
      let again : retire_pass handle_of s₁.slot_size 0 s₁ ≡ (0, s₁) =
        pass-none s₁.slot_size 0 s₁ (λ j h. c j (omega arith)) in
      (s₁, ends s again, e, λ j h. c j (omega arith))
    where
      ends :
          (t : HandleStorage Name)
          → let t₁ = (retire_pass handle_of t.slot_size 0 t).1 in
            retire_pass handle_of t₁.slot_size 0 t₁ ≡ (0, t₁) → retire_all handle_of 2 t ≡ some t₁
      ends t again = elim (Bool-cases ((retire_pass handle_of t.slot_size 0 t).0 == 0)) [
        | inl stop ↦ rw (retire_all, stop) refl
        | inr more ↦ rw (retire_all, more, again) refl
      ]
