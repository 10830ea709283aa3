-- ===== src/Multicast/Count.antt =====
-- The closes of a package of ztask/lualib/lua-multicast.c.
use ztask.Base.{
  ℕ, zero, suc, ◌+◌, ◌^◌, ◌<◌, ◌≡◌, refl, ap, ◌∙◌, subst, Bool, true, false, ◌||◌, Option, none,
  some, arith, ltb, leb, ◌==◌, if◌then◌else◌, update, update_self,
}
use ztask.Multicast.{Package, Memory, decremented, close_package, mc_closelocal}

-- The calls of `mc_closelocal` by the services that got the package, each without an error.
abbrev pub closes : ℕ → Memory → ℕ → Option (Memory × Bool)
closes zero m address = some (m, true)
closes (suc n) m address = elim (mc_closelocal m address) [
  | none ↦ none
  | some (m', false) ↦ some (m', false)
  | some (m', true) ↦ closes n m' address
]

-- The package is there, with so many references, and so is its data.
abbrev pub Shared : Memory → ℕ → ℕ → ℕ → ℕ → Type 0
Shared m address ref size content =
    (m.packages address ≡ some (record { reference = ref; size = size; content = content }))
    × (m.blocks content ≡ true)

-- `mc_closelocal` of a package that is there.
close_there :
    (m : Memory) (address : ℕ) (p : Package)
    → m.packages address ≡ some p
    → mc_closelocal m address ≡ close_package m address p
unfolding mc_closelocal
close_there m address p there =
    ap
      (λ o. elim o as (λ _. Option (Memory × Bool)) [
        | none ↦ none
        | some p ↦ close_package m address p
      ])
      there

close_kept :
    (m : Memory) (address : ℕ) (p : Package) (ref : ℕ)
    → p.reference ≡ suc ref
    → 0 < ref
    → suc ref < 2 ^ 31
    → close_package m address p
      ≡ some (
        record m { packages = update m.packages address (some (record p { reference = ref })) },
        true,
      )
close_kept m address p ref e some_left small =
    let one_less : decremented p.reference ≡ ref = omega arith in
    let kept : (ref == 0 || leb (2 ^ 31) ref) ≡ false = ground arith in
    ap step one_less ∙ rw kept refl
  where
    step : ℕ → Option (Memory × Bool)
    step ref =
        if ref == 0 || leb (2 ^ 31) ref
        then (if m.blocks p.content
            then some (
              record m {
                packages = update m.packages address none;
                blocks = update m.blocks p.content false;
              },
              ltb ref (2 ^ 31),
            )
            else none)
        else some (
          record m { packages = update m.packages address (some (record p { reference = ref })) },
          true,
        )

close_freed :
    (m : Memory) (address : ℕ) (p : Package)
    → p.reference ≡ 1
    → m.blocks p.content ≡ true
    → close_package m address p
      ≡ some (
        record m {
          packages = update m.packages address none;
          blocks = update m.blocks p.content false;
        },
        true,
      )
close_freed m address p e alive =
    let nothing : decremented p.reference ≡ 0 = omega arith in rw (nothing, alive) refl

-- One close of several.
close-Shared :
    (m : Memory) (address ref size content : ℕ)
    → Shared m address (suc ref) size content
    → 0 < ref
    → suc ref < 2 ^ 31
    → (m' : Memory) × (mc_closelocal m address ≡ some (m', true))
      × Shared m' address ref size content
close-Shared m address ref size content (there, alive) some_left small =
    let p : Package = record { reference = suc ref; size = size; content = content } in
    let p' : Package = record { reference = ref; size = size; content = content } in
    (
      record m { packages = update m.packages address (some p') },
      close_there m address p there ∙ close_kept m address p ref refl some_left small,
      (update_self m.packages address (some p'), alive),
    )

closes_step :
    (n : ℕ) (m m' : Memory) (address : ℕ)
    → mc_closelocal m address ≡ some (m', true)
    → closes (suc n) m address ≡ closes n m' address
closes_step n m m' address e =
    ap
      (λ o. elim o as (λ _. Option (Memory × Bool)) [
        | none ↦ none
        | some (m', false) ↦ some (m', false)
        | some (m', true) ↦ closes n m' address
      ])
      e

pub closes_before :
    (k : ℕ) (m : Memory) (address ref size content : ℕ)
    → Shared m address (k + ref) size content
    → 0 < ref
    → k + ref < 2 ^ 31
    → (m' : Memory) × (closes k m address ≡ some (m', true)) × Shared m' address ref size content
closes_before zero m address ref size content shared some_left small =
    (m, refl, subst (λ n. Shared m address n size content) (omega arith) shared)
closes_before (suc k) m address ref size content shared some_left small =
    let one : suc k + ref ≡ suc (k + ref) = omega arith in
    let (m', closed, shared') =
      close-Shared m address (k + ref) size content
        (subst (λ n. Shared m address n size content) one shared) (omega arith) (omega arith) in
    let (m'', done, rest) =
      closes_before k m' address ref size content shared' some_left (omega arith) in
    (m'', closes_step k m m' address closed ∙ done, rest)

closes_gone : (m : Memory) (address : ℕ) → m.packages address ≡ none → closes 1 m address ≡ none
closes_gone m address gone =
    ap
      (λ o. elim o as (λ _. Option (Memory × Bool)) [
        | none ↦ none
        | some (m', false) ↦ some (m', false)
        | some (m', true) ↦ closes 0 m' address
      ])
      missing
  where
    missing : mc_closelocal m address ≡ none
    missing =
        unfold mc_closelocal in
        ap
          (λ o. elim o as (λ _. Option (Memory × Bool)) [
            | none ↦ none
            | some p ↦ close_package m address p
          ])
          gone

pub closes_all :
    (j : ℕ) (m : Memory) (address size content : ℕ)
    → Shared m address (suc j) size content
    → suc j < 2 ^ 31
    → ((m' : Memory) × (closes (suc j) m address ≡ some (m', true))
        × (m'.packages address ≡ none)
        × (m'.blocks content ≡ false))
      × (closes (suc (suc j)) m address ≡ none)
closes_all zero m address size content (there, alive) small =
    let p : Package = record { reference = 1; size = size; content = content } in
    let m' = record m {
      packages = update m.packages address none;
      blocks = update m.blocks content false;
    } in
    let closed : mc_closelocal m address ≡ some (m', true) =
      close_there m address p there ∙ close_freed m address p refl alive in
    let gone : m'.packages address ≡ none = update_self m.packages address none in
    (
      (m', closes_step 0 m m' address closed, gone, update_self m.blocks content false),
      closes_step 1 m m' address closed ∙ closes_gone m' address gone,
    )
closes_all (suc j) m address size content shared small =
    let (m', closed, shared') =
      close-Shared m address (suc j) size content shared (omega arith) small in
    let ((m'', done, freed, data_freed), over) =
      closes_all j m' address size content shared' (omega arith) in
    (
      (m'', closes_step (suc j) m m' address closed ∙ done, freed, data_freed),
      closes_step (suc (suc j)) m m' address closed ∙ over,
    )
