-- ===== src/Multicast/Close.antt =====
-- The life of a package of ztask/lualib/lua-multicast.c.
use ztask.Base.{
  ℕ, suc, ◌+◌, ◌-◌, ◌%◌, ◌^◌, ◌<◌, ◌≡◌, refl, sym, ap, ◌∙◌, subst, Bool, true, false, Option, none,
  some, arith, ltb, ◌==◌, if◌then◌else◌, update, update_self,
}
use ztask.Multicast.{Package, pointer_size, Memory, mc_packremote, mc_bindrefer}
use ztask.Multicast.Count.{closes, Shared, closes_before, closes_all}

-- What `mc_bindrefer` leaves behind.
bound_package :
    (m : Memory) (address pointer : ℕ) (p : Package) (n : ℕ)
    → m.pointers pointer ≡ some address
    → m.packages address ≡ some p
    → p.reference ≡ 0
    → mc_bindrefer m pointer n
      ≡ some (
        record m {
          packages = update m.packages address (some (record p { reference = n }));
          pointers = update m.pointers pointer none;
        },
        some address,
      )
unfolding mc_bindrefer
bound_package m address pointer p n leads there unbound =
    let free : (p.reference == 0) ≡ true = ap (λ r. r == 0) unbound in
    ap
      (λ o. bind (elim o as (λ _. Option (ℕ × Package)) [
        | none ↦ none
        | some a ↦ elim (m.packages a) as (λ _. Option (ℕ × Package)) [
          | none ↦ none
          | some p ↦ some (a, p)
        ]
      ]))
      leads
    ∙ ap
        (λ o.
          bind (elim o as (λ _. Option (ℕ × Package)) [ none ↦ none | some p ↦ some (address, p) ]))
        there
    ∙ rw free refl
  where
    bind : Option (ℕ × Package) → Option (Memory × Option ℕ)
    bind none = none
    bind (some (address, p)) =
        if p.reference == 0
        then some (
          record m {
            packages = update m.packages address (some (record p { reference = n }));
            pointers = update m.pointers pointer none;
          },
          some address,
        )
        else some (m, none)

bound :
    (m : Memory) (address pointer copy size n : ℕ)
    → size < 2 ^ 32
    → (m' : Memory) × (mc_bindrefer (mc_packremote m address pointer copy size).0 pointer n
        ≡ some (m', some address))
      × Shared m' address n size copy
unfolding mc_packremote
bound m address pointer copy size n small =
    let fits : ltb size (2 ^ 32) ≡ true = ground arith in
    let whole : size % 2 ^ 32 ≡ size = omega arith in
    let p : Package = record { reference = 0; size = size % 2 ^ 32; content = copy } in
    let packed : Memory = record {
      packages = update m.packages address (some p);
      pointers = update m.pointers pointer (some address);
      blocks = update m.blocks copy true;
    } in
    (
      record packed {
        packages = update packed.packages address (some (record p { reference = n }));
        pointers = update packed.pointers pointer none;
      },
      ap (λ m'. mc_bindrefer m' pointer n)
            (taken (packed, some (pointer, pointer_size)) (ltb size (2 ^ 32)) fits)
          ∙ bound_package packed address pointer p n (update_self m.pointers pointer (some address))
              (update_self m.packages address (some p)) refl,
      (
        update_self packed.packages address (some (record p { reference = n }))
            ∙ ap (λ s. some (record { reference = n; size = s; content = copy })) whole,
        update_self m.blocks copy true,
      ),
    )
  where
    taken :
        (packed : Memory × Option (ℕ × ℕ)) (c : Bool)
        → c ≡ true
        → (◌≡◌ {A = Memory} ((if c then packed else (m, none)).0) (packed.0))
    taken packed true e = refl
    taken packed false e = cc

-- A package of data of less than 2^32 bytes, bound to n references, n below 2^31, stays in memory with its data while fewer
-- than n services have closed it, each without an error; the last close frees both, and one more uses
-- memory that is freed.
pub closes-mc_bindrefer :
    (m : Memory) (address pointer copy size k left : ℕ)
    → size < 2 ^ 32
    → 0 < left
    → k + left < 2 ^ 31
    → (m₁ : Memory) × (mc_bindrefer (mc_packremote m address pointer copy size).0 pointer (k + left)
        ≡ some (m₁, some address))
      × ((m₂ : Memory) × (closes k m₁ address ≡ some (m₂, true)) × Shared m₂ address left size copy)
      × ((m₃ : Memory) × (closes (k + left) m₁ address ≡ some (m₃, true))
          × (m₃.packages address ≡ none)
          × (m₃.blocks copy ≡ false))
      × (closes (suc (k + left)) m₁ address ≡ none)
closes-mc_bindrefer m address pointer copy size k left small some_left few =
    let (m₁, bind, shared) = bound m address pointer copy size (k + left) small in
    let some_more : suc ((k + left) - 1) ≡ k + left = omega arith in
    let all =
      closes_all ((k + left) - 1) m₁ address size copy
        (subst (λ n. Shared m₁ address n size copy) (sym some_more) shared) (omega arith) in
    (
      m₁,
      bind,
      closes_before k m₁ address left size copy shared some_left few,
      subst
          (λ n.
            (m₃ : Memory) × (closes n m₁ address ≡ some (m₃, true))
            × (m₃.packages address ≡ none)
            × (m₃.blocks copy ≡ false))
          some_more all.0,
      subst (λ n. closes (suc n) m₁ address ≡ none) some_more all.1,
    )
