-- ===== src/Multicast.antt =====
-- ztask/lualib/lua-multicast.c: the packages that many services share, with a count of references. Memory
-- is a function from addresses: `none` is freed, or never allocated. The addresses of new blocks are
-- arguments. The result `none` of a function is an access to memory that is freed; its second part is
-- `none` after luaL_error. An `int` is its 32 bits.
pub mod Count
pub mod Close
use ztask.Base.{
  ℕ, zero, suc, ◌+◌, ◌-◌, ◌%◌, ◌^◌, Bool, true, false, ◌||◌, Option, none, some, ltb, leb, ◌==◌,
  if◌then◌else◌, update,
}

-- `struct mc_package`
pub record Package : Type 0 where
  pub reference : ℕ
  pub size : ℕ
  pub content : ℕ

-- The packages, the pointers to them that messages carry, and whether a block of data is allocated.
pub record Memory : Type 0 where
  pub packages : ℕ → Option Package
  pub pointers : ℕ → Option ℕ
  pub blocks : ℕ → Bool

-- `sizeof(struct mc_package *)`
abbrev pub pointer_size : ℕ
pointer_size = 8

-- `pack`, with the address of the package and that of the pointer.
abbrev pub pack : Memory → ℕ → ℕ → ℕ → ℕ → Memory × (ℕ × ℕ)
pack m address pointer content size = (
  record m {
    packages =
        update m.packages address
          (some (record { reference = 0; size = size % 2 ^ 32; content = content }));
    pointers = update m.pointers pointer (some address);
  },
  (pointer, pointer_size),
)

-- `mc_packlocal`
unfoldable pub mc_packlocal : Memory → ℕ → ℕ → ℕ → ℕ → Memory × Option (ℕ × ℕ)
mc_packlocal m address pointer content size =
    let packed = pack m address pointer content size in
    if ltb size (2 ^ 32) then (packed.0, some packed.1) else (m, none)

-- `mc_packremote`, with the address of the copy of the data.
unfoldable pub mc_packremote : Memory → ℕ → ℕ → ℕ → ℕ → Memory × Option (ℕ × ℕ)
mc_packremote m address pointer copy size =
    let packed = pack (record m { blocks = update m.blocks copy true }) address pointer copy size in
    if ltb size (2 ^ 32) then (packed.0, some packed.1) else (m, none)

-- The package that a pointer leads to.
abbrev pub pointed : Memory → ℕ → Option (ℕ × Package)
pointed m pointer = elim (m.pointers pointer) [
  | none ↦ none
  | some address ↦ elim (m.packages address) [ none ↦ none | some p ↦ some (address, p) ]
]

-- `mc_unpacklocal`: the package, its data and its size.
unfoldable pub mc_unpacklocal : Memory → ℕ → ℕ → Option (Option (ℕ × (ℕ × ℕ)))
mc_unpacklocal m pointer size =
    let unpacked : Option (Option (ℕ × (ℕ × ℕ))) = elim (pointed m pointer) [
      | none ↦ none
      | some (address, p) ↦ some (some (address, (p.content, p.size)))
    ] in
    if size == pointer_size then unpacked else some none

-- `mc_bindrefer`
unfoldable pub mc_bindrefer : Memory → ℕ → ℕ → Option (Memory × Option ℕ)
mc_bindrefer m pointer ref = elim (pointed m pointer) [
  | none ↦ none
  | some (address, p) ↦
      if p.reference == 0
      then some (
        record m {
          packages = update m.packages address (some (record p { reference = ref }));
          pointers = update m.pointers pointer none;
        },
        some address,
      )
      else some (m, none)
]

-- The decrement of an `int`.
abbrev pub decremented : ℕ → ℕ
decremented ref = (ref + (2 ^ 32 - 1)) % 2 ^ 32

-- `mc_closelocal` of a package: whether it returns without an error.
abbrev pub close_package : Memory → ℕ → Package → Option (Memory × Bool)
close_package m address p =
    let ref = decremented p.reference in
    let freed = record m {
      packages = update m.packages address none;
      blocks = update m.blocks p.content false;
    } in
    if ref == 0 || leb (2 ^ 31) ref
    then (if m.blocks p.content then some (freed, ltb ref (2 ^ 31)) else none)
    else some (
      record m { packages = update m.packages address (some (record p { reference = ref })) },
      true,
    )

-- `mc_closelocal`
unfoldable pub mc_closelocal : Memory → ℕ → Option (Memory × Bool)
mc_closelocal m address = elim (m.packages address) [
  | none ↦ none
  | some p ↦ close_package m address p
]

-- `mc_remote`: the data and its size, which the caller sends.
unfoldable pub mc_remote : Memory → ℕ → Option (Memory × (ℕ × ℕ))
mc_remote m pointer = elim (pointed m pointer) [
  | none ↦ none
  | some (address, p) ↦
      some (record m { packages = update m.packages address none }, (p.content, p.size))
]

-- `mc_nextid`
unfoldable pub mc_nextid : ℕ → ℕ
mc_nextid id = (id % 2 ^ 32 + 256) % 2 ^ 32
