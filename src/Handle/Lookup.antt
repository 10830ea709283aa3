-- ===== src/Handle/Lookup.antt =====
-- `ztask_handle_register`, `ztask_handle_grab` and `ztask_handle_retire` of ztask/ztask_handle.c: a
-- handle leads to the service that it was given to, from its registration to its retirement.
use native.Mathlib.Nat.{mod-lt}
use ztask.Base.{
  ℕ, suc, ◌+◌, ◌*◌, ◌%◌, ◌^◌, ◌≤◌, ◌<◌, ◌≡◌, refl, sym, ap, subst, ◌∙◌, ◌≢◌, inl, inr, false, none,
  some, ◌↔◌, update_self, update_ne, ◌==◌, ==_iff, ==-false_of_ne, update, arith, Bool-cases,
  Option-cases,
}
use ztask.Handle.{HandleStorage, probe, expand, register, grab}
use ztask.Handle.Modulus.{add_mul_mod}
use ztask.Handle.Table.{Valid, Grown, expand-Grown, size_pos}
use ztask.Handle.Register.{probe-some, probe-Full, Grown-free}

place_lem :
    (local harbor size node spare : ℕ)
    → size * 2 ^ spare ≡ 2 ^ 24
    → harbor ≡ node * 2 ^ 24
    → (local + harbor) % size ≡ local % size
place_lem local harbor size node spare e e' =
    ap (λ y. (local + y) % size) (e' ∙ ap (λ y. node * y) (sym e))
    ∙ add_mul_mod local node size (2 ^ spare)

local_lem :
    (local harbor node : ℕ)
    → harbor ≡ node * 2 ^ 24
    → local < 2 ^ 24
    → (local + harbor) % 2 ^ 24 + harbor ≡ local + harbor
local_lem local harbor node e h = omega arith

kept_lem :
    (slot : ℕ → ℕ) (h ctx i c : ℕ) → slot h ≡ 0 → c ≢ 0 → slot i ≡ c → update slot h ctx i ≡ c
kept_lem slot h ctx i c free nz at =
    update_ne slot h i ctx (λ e. nz (sym at ∙ ap slot e ∙ free)) ∙ at

module _ {Name : Type 0} where
  -- The service `c` is in the table under the handle `g`.
  abbrev pub Leads : (ℕ → ℕ) → HandleStorage Name → ℕ → ℕ → Type 0
  Leads handle_of s g c = (c ≢ 0) × (s.slot (g % s.slot_size) ≡ c) × (handle_of c ≡ g)

  -- `ztask_handle_grab` answers a service exactly when the handle leads to it.
  pub grab-Leads :
      (handle_of : ℕ → ℕ) (s : HandleStorage Name) (g c : ℕ)
      → c ≢ 0
      → (grab handle_of g s ≡ c) ↔ Leads handle_of s g c
  unfolding grab
  grab-Leads handle_of s g c nz = (to, from)
    where
      to : grab handle_of g s ≡ c → Leads handle_of s g c
      to h = unfold grab in ground arith

      from : Leads handle_of s g c → grab handle_of g s ≡ c
      from h = unfold grab in ground arith

  -- What a registration of `ctx` under `handle` leaves behind; from then on the `handle` field of
  -- `ctx` is set.
  pub record Registered (handle_of : ℕ → ℕ) (s : HandleStorage Name) (ctx handle : ℕ)
      (s' : HandleStorage Name) : Type 0 where
    pub valid : Valid (update handle_of ctx handle) s'
    pub found : Leads (update handle_of ctx handle) s' handle ctx
    pub kept : (g c : ℕ) → Leads handle_of s g c → Leads (update handle_of ctx handle) s' g c
    pub fresh : (c : ℕ) → ¬ Leads handle_of s handle c
    pub local : handle % 2 ^ 24 + s.harbor ≡ handle

  Registered-free :
      (handle_of : ℕ → ℕ) (s : HandleStorage Name) (ctx local : ℕ)
      → Valid handle_of s
      → ctx ≢ 0
      → ((i : ℕ) → s.slot i ≢ ctx)
      → s.slot (local % s.slot_size) ≡ 0
      → local < 2 ^ 24
      → Registered handle_of s ctx
          (local + s.harbor)
          (record s { slot = update s.slot (local % s.slot_size) ctx; handle_index = local + 1 })
  Registered-free handle_of s ctx local v nz new free small =
      let handle = local + s.harbor in
      let h = local % s.slot_size in
      let place : handle % s.slot_size ≡ h =
        place_lem local s.harbor s.slot_size v.node v.spare v.size v.harbor in
      let pos = size_pos s.slot_size v.spare v.size in
      record {
        valid = record {
          spare = v.spare;
          size = v.size;
          node = v.node;
          harbor = v.harbor;
          placed = λ i taken. elim (Bool-cases (i == h)) [
            | inl hit ↦
                let here : i ≡ h = (==_iff i h).0 hit in
                rw (hit, update_self handle_of ctx handle)
                  (subst (λ y. y < s.slot_size) (sym here) (mod-lt local pos), place ∙ sym here)
            | inr miss ↦
                let taken' : s.slot i ≢ 0 = rw miss at taken in
                let other : (s.slot i == ctx) ≡ false = ==-false_of_ne (s.slot i) ctx (new i) in
                rw (miss, other) (v.placed i taken')
          ];
        };
        found = (
          nz,
          subst (λ y. update s.slot h ctx y ≡ ctx) (sym place) (update_self s.slot h ctx),
          update_self handle_of ctx handle,
        );
        kept = λ g c (cnz, at, own).
            (cnz, kept_lem s.slot h ctx (g % s.slot_size) c free cnz at, ne_lem c g at own);
        fresh = λ c (cnz, at, own). cnz (sym at ∙ ap s.slot place ∙ free);
        local = local_lem local s.harbor v.node v.harbor small;
      }
    where
      ne_lem :
          (c g : ℕ)
          → s.slot (g % s.slot_size) ≡ c
          → handle_of c ≡ g
          → update handle_of ctx (local + s.harbor) c ≡ g
      ne_lem c g at own =
          update_ne handle_of ctx c (local + s.harbor) (λ e. new (g % s.slot_size) (at ∙ e)) ∙ own

  Grown-Leads :
      (handle_of : ℕ → ℕ) (s s' : HandleStorage Name)
      → Valid handle_of s
      → Grown handle_of s s'
      → (g c : ℕ) → Leads handle_of s g c
      → Leads handle_of s' g c
  Grown-Leads handle_of s s' v g h c (nz, at, own) =
      let taken : s.slot (h % s.slot_size) ≢ 0 = λ e. nz (sym at ∙ e) in
      let moved = g.forth (h % s.slot_size) (v.placed (h % s.slot_size) taken).0 in
      (nz, subst (λ y. s'.slot (y % s'.slot_size) ≡ c) (ap handle_of at ∙ own) (moved ∙ at), own)

  pub register-some :
      (handle_of : ℕ → ℕ) (fuel ctx local : ℕ) (s : HandleStorage Name)
      → probe s.slot_size 0 s ≡ some local
      → register handle_of (suc fuel) ctx s
        ≡ some (
          local + s.harbor,
          record s { slot = update s.slot (local % s.slot_size) ctx; handle_index = local + 1 },
        )
  unfolding register
  register-some handle_of fuel ctx local s e = rw (register, e) refl

  register-grow :
      (handle_of : ℕ → ℕ) (fuel ctx : ℕ) (s s' : HandleStorage Name)
      → probe s.slot_size 0 s ≡ none
      → expand handle_of s ≡ some s'
      → register handle_of (suc fuel) ctx s ≡ register handle_of fuel ctx s'
  unfolding register
  register-grow handle_of fuel ctx s s' e run = rw (register, e, run) refl

  -- Without growth.
  register_free :
      (handle_of : ℕ → ℕ) (fuel ctx local : ℕ) (s : HandleStorage Name)
      → Valid handle_of s
      → ctx ≢ 0
      → ((i : ℕ) → s.slot i ≢ ctx)
      → probe s.slot_size 0 s ≡ some local
      → (handle : ℕ) × (s' : HandleStorage Name) × (register handle_of (suc fuel) ctx s
          ≡ some (handle, s'))
        × Registered handle_of s ctx handle s'
  register_free handle_of fuel ctx local s v nz new e =
      let (free, small) = probe-some s.slot_size 0 local s e in
      (
        local + s.harbor,
        record s { slot = update s.slot (local % s.slot_size) ctx; handle_index = local + 1 },
        register-some handle_of fuel ctx local s e,
        Registered-free handle_of s ctx local v nz new free small,
      )

  -- The loop of `ztask_handle_register` ends after its body has run at most twice, in a valid table of
  -- at most 2^23 slots. The service gets a handle that led to no service before and leads to it now,
  -- and each handle that led to a service still leads to it.
  pub register-Registered :
      (handle_of : ℕ → ℕ) (ctx : ℕ) (s : HandleStorage Name)
      → Valid handle_of s
      → ctx ≢ 0
      → ((i : ℕ) → s.slot i ≢ ctx)
      → s.slot_size * 2 ≤ 2 ^ 24
      → (handle : ℕ) × (s' : HandleStorage Name) × (register handle_of 2 ctx s ≡ some (handle, s'))
        × Registered handle_of s ctx handle s'
  register-Registered handle_of ctx s v nz new fits = elim (Option-cases (probe s.slot_size 0 s)) [
    | inl none_free ↦
        let full = probe-Full handle_of s v none_free in
        let (s₁, run, g) = expand-Grown handle_of s v full fits in
        let new₁ : (i : ℕ) → s₁.slot i ≢ ctx =
          λ i e. new (i % s.slot_size) (sym (g.back i λ z. nz (sym e ∙ z)).0 ∙ e) in
        elim (Option-cases (probe s₁.slot_size 0 s₁)) [
          | inl still_full ↦
              absurd (Grown-free handle_of s s₁ v g (probe-Full handle_of s₁ g.valid still_full))
          | inr (local, e) ↦
              let (handle, s₂, run₂, r) =
                register_free handle_of 0 ctx local s₁ g.valid nz new₁ e in
              (
                handle,
                s₂,
                register-grow handle_of 1 ctx s s₁ none_free run ∙ run₂,
                record {
                  valid = r.valid;
                  found = r.found;
                  kept = λ h c l. r.kept h c (Grown-Leads handle_of s s₁ v g h c l);
                  fresh = λ c l. r.fresh c (Grown-Leads handle_of s s₁ v g handle c l);
                  local = ap (λ y. handle % 2 ^ 24 + y) (sym g.same.1) ∙ r.local;
                },
              )
        ]
    | inr (local, e) ↦ register_free handle_of 1 ctx local s v nz new e
  ]
