-- ===== src/Handle/Retire.antt =====
-- `ztask_handle_retire` of ztask/ztask_handle.c: the handle leads nowhere afterwards, and its names are
-- gone. With the handle that the comment "reserve 0 for system" of `ztask_handle_init` is about.
use native.Mathlib.Nat.{zero-mod}
use ztask.Base.{
  ℕ, zero, suc, ◌+◌, ◌%◌, ◌^◌, ◌≤◌, ◌<◌, ◌≡◌, refl, sym, ap, subst, ◌∙◌, ◌≢◌, ◌⊎◌, inl, inr, true,
  not, ◌&&◌, some, update_self, update_ne, ◌==◌, ==_iff, update, arith, Bool-cases,
}
use ztask.Handle.{HandleName, HandleStorage, probe, register, drop_names, retire}
use ztask.Handle.Table.{Valid}
use ztask.Handle.Lookup.{Leads, register-some}

module _ {Name : Type 0} where
  -- The entry `e` stands below `n`.
  abbrev pub Among : HandleName Name → (ℕ → HandleName Name) → ℕ → Type 0
  Among e name n = (k : ℕ) × (k < n) × (name k ≡ e)

  Among-keep :
      (e x : HandleName Name) (name : ℕ → HandleName Name) (j : ℕ)
      → Among e name j
      → Among e (update name j x) (j + 1)
  Among-keep e x name j (k, lt, at) = (k, omega arith, update_ne name j k x (omega arith) ∙ at)

  drop_names-clean :
      (handle rounds i j : ℕ) (name : ℕ → HandleName Name)
      → j ≤ i
      → ((e : HandleName Name) → Among e name j → e.handle ≢ handle)
      → let r = drop_names handle rounds i j name in
        (e : HandleName Name) → Among e r.0 r.1 → e.handle ≢ handle
  unfolding drop_names
  drop_names-clean handle zero i j name le clean = clean
  drop_names-clean handle (suc rounds) i j name le clean =
      elim (Bool-cases ((name i).handle == handle)) [
        | inl hit ↦
            rw (drop_names, hit) (drop_names-clean handle rounds (i + 1) j name (omega arith) clean)
        | inr miss ↦
            rw (drop_names, miss)
              (drop_names-clean handle rounds (i + 1) (j + 1) (update name j (name i)) (omega arith)
                λ e (k, lt, at). elim (Bool-cases (k == j)) [
                  | inl here ↦
                      let e' : name i ≡ e = rw here at at in
                      λ z. cc (
                        sym miss
                        ∙ (==_iff (name i).handle handle).1
                            (ap (λ (x : HandleName Name). x.handle) e' ∙ z))
                  | inr there ↦ clean e (k, ground arith, rw there at at)
                ])
      ]

  drop_names-keeps :
      (handle rounds i j : ℕ) (name : ℕ → HandleName Name) (e : HandleName Name)
      → j ≤ i
      → (Among e name j
          ⊎ ((k : ℕ) × (i ≤ k) × (k < i + rounds) × (name k ≡ e) × (e.handle ≢ handle)))
      → let r = drop_names handle rounds i j name in Among e r.0 r.1
  unfolding drop_names
  drop_names-keeps handle zero i j name e le (inl low) = low
  drop_names-keeps handle zero i j name e le (inr (k, ge, lt, at, ne)) = absurd (omega arith)
  drop_names-keeps handle (suc rounds) i j name e le m =
      elim (Bool-cases ((name i).handle == handle)) [
        | inl hit ↦
            rw (drop_names, hit)
              (drop_names-keeps handle rounds (i + 1) j name e (omega arith) (still hit m))
        | inr miss ↦
            rw (drop_names, miss)
              (drop_names-keeps handle rounds (i + 1) (j + 1) (update name j (name i)) e
                (omega arith) (moved m))
      ]
    where
      Left : (ℕ → HandleName Name) → Type 0
      Left name' =
          (k : ℕ) × (i + 1 ≤ k) × (k < i + 1 + rounds) × (name' k ≡ e) × (e.handle ≢ handle)

      still :
          ((name i).handle == handle) ≡ true
          → (Among e name j
              ⊎ ((k : ℕ) × (i ≤ k) × (k < i + suc rounds) × (name k ≡ e) × (e.handle ≢ handle)))
          → Among e name j ⊎ Left name
      still hit (inl low) = inl low
      still hit (inr (k, ge, lt, at, ne)) = elim (Bool-cases (k == i)) [
        | inl here ↦
            let at' : name i ≡ e = subst (λ y. name y ≡ e) ((==_iff k i).0 here) at in
            absurd (ne (sym (ap (λ (x : HandleName Name). x.handle) at') ∙ (==_iff _ _).0 hit))
        | inr there ↦ inr (k, ground arith, omega arith, at, ne)
      ]

      moved :
          (Among e name j
            ⊎ ((k : ℕ) × (i ≤ k) × (k < i + suc rounds) × (name k ≡ e) × (e.handle ≢ handle)))
          → Among e (update name j (name i)) (j + 1) ⊎ Left (update name j (name i))
      moved (inl low) = inl (Among-keep e (name i) name j low)
      moved (inr (k, ge, lt, at, ne)) = elim (Bool-cases (k == i)) [
        | inl here ↦
            let at' : name i ≡ e = subst (λ y. name y ≡ e) ((==_iff k i).0 here) at in
            inl (j, omega arith, update_self name j (name i) ∙ at')
        | inr there ↦
            let gt : i < k = ground arith in
            inr (k, omega arith, omega arith, update_ne name j k (name i) (omega arith) ∙ at, ne)
      ]

  -- What retiring the handle `g` leaves.
  pub record Retired (handle_of : ℕ → ℕ) (s : HandleStorage Name) (g : ℕ) (s' : HandleStorage Name)
      : Type 0 where
    pub valid : Valid handle_of s'
    pub gone : (c : ℕ) → ¬ Leads handle_of s' g c
    pub kept : (h c : ℕ) → h ≢ g → Leads handle_of s h c → Leads handle_of s' h c
    pub unnamed : (e : HandleName Name) → Among e s'.name s'.name_count → e.handle ≢ g
    pub named :
        (e : HandleName Name)
        → e.handle ≢ g
        → Among e s.name s.name_count
        → Among e s'.name s'.name_count

  -- Retiring a handle that leads to a service releases that service. The handle leads nowhere
  -- afterwards and no name stands for it; every other handle leads where it led, and every other name
  -- is kept.
  pub retire-Retired :
      (handle_of : ℕ → ℕ) (s : HandleStorage Name) (g c : ℕ)
      → Valid handle_of s
      → Leads handle_of s g c
      → ((retire handle_of g s).0 ≡ c) × Retired handle_of s g (retire handle_of g s).1
  unfolding retire
  retire-Retired handle_of s g c v (nz, at, own) =
      let here : not (s.slot (g % s.slot_size) == 0) && (handle_of (s.slot (g % s.slot_size)) == g)
          ≡ true =
        found_lem (s.slot (g % s.slot_size)) (λ e. nz (sym at ∙ e)) (ap handle_of at ∙ own) in
      rw here (
        at,
        record {
          valid = record {
            spare = v.spare;
            size = v.size;
            node = v.node;
            harbor = v.harbor;
            placed = λ i taken. elim (Bool-cases (i == g % s.slot_size)) [
              | inl hit ↦ absurd (rw hit at taken refl)
              | inr miss ↦ rw miss (v.placed i (rw miss at taken))
            ];
          };
          gone = λ d (dnz, at', own'). dnz (sym at' ∙ update_self s.slot (g % s.slot_size) 0);
          kept = λ h d ne (dnz, at', own'). (
            dnz,
            update_ne s.slot (g % s.slot_size) (h % s.slot_size) 0
                  (λ e. ne (sym own' ∙ ap handle_of (sym at' ∙ ap s.slot e ∙ at) ∙ own))
                ∙ at',
            own',
          );
          unnamed =
              drop_names-clean g s.name_count 0 0 s.name (omega arith)
                (λ e (k, lt, _). absurd (omega arith));
          named = λ e ne (k, lt, at').
              drop_names-keeps g s.name_count 0 0 s.name e (omega arith)
                (inr (k, omega arith, omega arith, at', ne));
        },
      )
    where
      found_lem : (x : ℕ) → x ≢ 0 → handle_of x ≡ g → not (x == 0) && (handle_of x == g) ≡ true
      found_lem x nz own = ground arith

  probe_zero :
      (n : ℕ) (s : HandleStorage Name)
      → 0 < n
      → s.handle_index ≡ 2 ^ 24
      → s.slot 0 ≡ 0
      → probe n 0 s ≡ some 0
  unfolding probe
  probe_zero zero s h e free = absurd (omega arith)
  probe_zero (suc n) s h e free =
      let wrapped : (0 + s.handle_index) % 2 ^ 24 ≡ 0 = omega arith in
      let open_slot : s.slot (0 % s.slot_size) ≡ 0 = ap s.slot (zero-mod s.slot_size) ∙ free in
      rw (probe, wrapped, open_slot) refl

  -- "reserve 0 for system", says `ztask_handle_init`. When the index has passed the last of the 2^24
  -- handles and the slot 0 is free, `ztask_handle_register` gives out handle 0 of its harbor.
  pub register_zero :
      (handle_of : ℕ → ℕ) (fuel ctx : ℕ) (s : HandleStorage Name)
      → 0 < s.slot_size
      → s.handle_index ≡ 2 ^ 24
      → s.slot 0 ≡ 0
      → (s' : HandleStorage Name) × (register handle_of (suc fuel) ctx s ≡ some (0 + s.harbor, s'))
  register_zero handle_of fuel ctx s pos e free =
      (_, register-some handle_of fuel ctx 0 s (probe_zero s.slot_size s pos e free))
