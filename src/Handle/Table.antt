-- ===== src/Handle/Table.antt =====
-- The slot table of ztask/ztask_handle.c, and its growth.
use native.Mathlib.Nat.{mod-lt, pow-suc, mul_assoc, mul_comm}
use ztask.Base.{
  ℕ, zero, suc, ◌+◌, ◌-◌, ◌*◌, ◌%◌, ◌^◌, ◌≤◌, ◌<◌, ◌≡◌, refl, sym, ap, subst, ◌∙◌, ◌≢◌, inl, inr,
  true, false, some, leb, ◌==◌, ==_iff, ==-false_of_ne, update, arith, Bool-cases,
}
use ztask.Handle.{HandleName, HandleStorage, init, rehash, expand, handle_mask}
use ztask.Handle.Modulus.{mod_mul}

-- `2 ^ spare` is how often the size divides the number of handles.
pub record Valid {Name : Type 0} (handle_of : ℕ → ℕ) (s : HandleStorage Name) : Type 0 where
  pub spare : ℕ
  pub size : s.slot_size * 2 ^ spare ≡ 2 ^ 24
  pub node : ℕ
  pub harbor : s.harbor ≡ node * 2 ^ 24
  pub placed : (i : ℕ) → s.slot i ≢ 0 → (i < s.slot_size) × (handle_of (s.slot i) % s.slot_size ≡ i)

pub size_pos : (size spare : ℕ) → size * 2 ^ spare ≡ 2 ^ 24 → 0 < size
size_pos zero spare e = absurd (omega arith)
size_pos (suc n) spare e = omega arith

-- The copy after the slots below `i`.
record Copied (handle_of : ℕ → ℕ) (size : ℕ) (slot : ℕ → ℕ) (i : ℕ) (new_slot : ℕ → ℕ)
    : Type 0 where
  back :
      (x : ℕ)
      → new_slot x ≢ 0
      → (x < size * 2)
        × (x % size < i)
        × (new_slot x ≡ slot (x % size))
        × (handle_of (new_slot x) % (size * 2) ≡ x)
  forth : (j : ℕ) → j < i → new_slot (handle_of (slot j) % (size * 2)) ≡ slot j

module _ (handle_of : ℕ → ℕ) (size : ℕ) (slot : ℕ → ℕ) (pos : 0 < size)
    (full : (j : ℕ) → j < size → (slot j ≢ 0) × (handle_of (slot j) % size ≡ j)) where
  abbrev hash : ℕ → ℕ
  hash j = handle_of (slot j) % (size * 2)

  hash-mod : (j : ℕ) → j < size → hash j % size ≡ j
  hash-mod j h = mod_mul (handle_of (slot j)) size 2 ∙ (full j h).1

  Copied-step :
      (i : ℕ) (new_slot : ℕ → ℕ)
      → i < size
      → Copied handle_of size slot i new_slot
      → (new_slot (hash i) ≡ 0)
        × Copied handle_of size slot (suc i) (update new_slot (hash i) (slot i))
  Copied-step i new_slot h c =
      let e = hash-mod i h in
      (
        free,
        record {
          back = λ x nz. elim (Bool-cases (x == hash i)) [
            | inl hit ↦ rw hit (
                subst
                  (λ y.
                    (y < size * 2)
                    × (y % size < suc i)
                    × (slot i ≡ slot (y % size))
                    × (handle_of (slot i) % (size * 2) ≡ y))
                  (sym ((==_iff x (hash i)).0 hit))
                  (mod-lt _ (omega arith), omega arith, ap slot (sym e), refl))
            | inr miss ↦
                let (small, lower, same, right) = c.back x (rw miss at nz) in
                rw miss (small, omega arith, same, right)
          ];
          forth = λ j lt. elim (Bool-cases (j == i)) [
            | inl this ↦
                let here : j ≡ i = (==_iff j i).0 this in
                let hit : (hash j == hash i) ≡ true = (==_iff (hash j) (hash i)).1 (ap hash here) in
                rw hit (ap slot (sym here))
            | inr other ↦
                let lower : j < i = ground arith in
                let miss : (hash j == hash i) ≡ false =
                  apart j i (hash-mod j (omega arith)) e (ground arith) in
                rw miss (c.forth j lower)
          ];
        },
      )
    where
      free : new_slot (hash i) ≡ 0
      free = elim (Bool-cases (new_slot (hash i) == 0)) [
        | inl z ↦ (==_iff (new_slot (hash i)) 0).0 z
        | inr nz ↦
            let lower : hash i % size < i = (c.back (hash i) (ground arith)).1 in
            absurd (omega (arith, hash-mod i h))
      ]

      apart : (j k : ℕ) → hash j % size ≡ j → hash k % size ≡ k → j ≢ k → (hash j == hash k) ≡ false
      apart j k ej ek ne =
          ==-false_of_ne (hash j) (hash k) (λ x. ne (sym ej ∙ ap (λ y. y % size) x ∙ ek))

  -- The copying loop never fails its assertion, and copies every slot.
  rehash-Copied :
      (rounds i : ℕ) (new_slot : ℕ → ℕ)
      → i + rounds ≡ size
      → Copied handle_of size slot i new_slot
      → (r : ℕ → ℕ) × (rehash handle_of size slot rounds i new_slot ≡ some r)
        × Copied handle_of size slot size r
  unfolding rehash
  rehash-Copied zero i new_slot e c =
      (new_slot, refl, subst (λ k. Copied handle_of size slot k new_slot) (omega arith) c)
  rehash-Copied (suc rounds) i new_slot e c =
      let (free, c') = Copied-step i new_slot (omega arith) c in
      let open_slot : (new_slot (hash i) == 0) ≡ true = (==_iff (new_slot (hash i)) 0).1 free in
      let one : suc i ≡ i + 1 = omega arith in
      let c'' =
        subst (λ k. Copied handle_of size slot k (update new_slot (hash i) (slot i))) one c' in
      let (r, run, done) =
        rehash-Copied rounds (i + 1) (update new_slot (hash i) (slot i)) (omega arith) c'' in
      (r, rw (open_slot) run, done)

halve :
    (size spare : ℕ)
    → size * 2 ^ spare ≡ 2 ^ 24
    → size * 2 ≤ 2 ^ 24
    → (k : ℕ) × (size * 2 * 2 ^ k ≡ 2 ^ 24)
halve size zero e fits = absurd (omega arith)
halve size (suc k) e fits =
    (k, mul_assoc size 2 (2 ^ k) ∙ ap (λ y. size * y) (mul_comm 2 (2 ^ k) ∙ sym (pow-suc 2 k)) ∙ e)

Copied-start : (handle_of : ℕ → ℕ) (size : ℕ) (slot : ℕ → ℕ) → Copied handle_of size slot 0 (λ i. 0)
Copied-start handle_of size slot = record {
  back = λ x nz. absurd (nz refl);
  forth = λ j lt. absurd (omega arith);
}

module _ {Name : Type 0} (handle_of : ℕ → ℕ) (s : HandleStorage Name) where
  -- Every slot is taken.
  abbrev pub Full : Type 0
  Full = (j : ℕ) → j < s.slot_size → s.slot j ≢ 0

  -- The table after it has grown: each service keeps its handle, and has its place.
  pub record Grown (s' : HandleStorage Name) : Type 0 where
    pub valid : Valid handle_of s'
    pub same : (s'.handle_index ≡ s.handle_index) × (s'.harbor ≡ s.harbor)
    pub back :
        (x : ℕ)
        → s'.slot x ≢ 0
        → (s'.slot x ≡ s.slot (x % s.slot_size)) × (x % s.slot_size < s.slot_size)
    pub forth : (j : ℕ) → j < s.slot_size → s'.slot (handle_of (s.slot j) % s'.slot_size) ≡ s.slot j
    pub size : s'.slot_size ≡ s.slot_size * 2

  -- Growing a full table of less than 2^24 slots succeeds, and no service changes its handle or is
  -- lost.
  pub expand-Grown :
      Valid handle_of s
      → Full
      → s.slot_size * 2 ≤ 2 ^ 24
      → (s' : HandleStorage Name) × (expand handle_of s ≡ some s') × Grown s'
  unfolding expand
  expand-Grown v full fits =
      let (k, size') = halve s.slot_size v.spare v.size fits in
      let within : leb (s.slot_size * 2 - 1) handle_mask ≡ true = ground arith in
      let (r, run, c) =
        rehash-Copied handle_of s.slot_size s.slot (size_pos s.slot_size v.spare v.size)
          (λ j h. (full j h, (v.placed j (full j h)).1)) s.slot_size 0 (λ i. 0) (omega arith)
          (Copied-start handle_of s.slot_size s.slot) in
      (
        record s { slot = r; slot_size = s.slot_size * 2 },
        rw (within, run),
        record {
          valid = record {
            spare = k;
            size = size';
            node = v.node;
            harbor = v.harbor;
            placed = λ i nz. ((c.back i nz).0, (c.back i nz).3);
          };
          same = (refl, refl);
          back = λ x nz. ((c.back x nz).2, (c.back x nz).1);
          forth = c.forth;
          size = refl;
        },
      )

-- The table that `ztask_handle_init` makes is valid.
pub init-Valid :
    {Name : Type 0} (handle_of : ℕ → ℕ) (uninit : ℕ → HandleName Name) (harbor : ℕ)
    → Valid handle_of (init uninit harbor)
unfolding init
init-Valid handle_of uninit harbor = record {
  spare = 22;
  size = refl;
  node = harbor % 2 ^ 8;
  harbor = refl;
  placed = λ i nz. absurd (nz refl);
}
