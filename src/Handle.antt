-- ===== src/Handle.antt =====
-- ztask/ztask_handle.c: the table from handles to services, and the table of names. Each function
-- but one holds the storage's read-write lock from its first access to its last;
-- `ztask_handle_retireall` takes it for one slot at a time, and `retire_all` is a run of it during
-- which no other thread registers or retires a handle. A service is known by the address of its
-- context, 0 for NULL; `handle_of` reads the `handle` field of a context.
pub mod Modulus
pub mod Table
pub mod Register
pub mod Lookup
pub mod Names
pub mod Naming
pub mod Retire
pub mod RetireAll
use ztask.Base.{
  ℕ, zero, suc, ◌+◌, ◌-◌, ◌*◌, ◌/◌, ◌%◌, ◌^◌, Bool, true, false, not, ◌&&◌, Option, none, some, ltb,
  leb, ◌==◌, if◌then◌else◌, update,
}

abbrev pub handle_bits : ℕ
handle_bits = 24

abbrev pub handle_mask : ℕ
handle_mask = 0xffffff

abbrev pub default_slot_size : ℕ
default_slot_size = 4

abbrev pub max_slot_size : ℕ
max_slot_size = 0x40000000

-- The entry of the name table; `Name` is the type of C strings.
pub record HandleName (Name : Type 0) : Type 0 where
  pub text : Name
  pub handle : ℕ

-- `slot_size` is a power of two, so `& (slot_size - 1)` is the remainder.
pub record HandleStorage (Name : Type 0) : Type 0 where
  pub harbor : ℕ
  pub handle_index : ℕ
  pub slot_size : ℕ
  pub slot : ℕ → ℕ
  pub name_cap : ℕ
  pub name_count : ℕ
  pub name : ℕ → HandleName Name

module _ {Name : Type 0} where
  -- `ztask_handle_init`; `uninit` is what the new array of names holds.
  unfoldable pub init : (ℕ → HandleName Name) → ℕ → HandleStorage Name
  init uninit harbor = record {
    harbor = harbor % 2 ^ 8 * 2 ^ handle_bits;
    handle_index = 1;
    slot_size = default_slot_size;
    slot = λ i. 0;
    name_cap = 2;
    name_count = 0;
    name = uninit;
  }

  -- The `for` loop of `ztask_handle_register`: the first handle whose slot is free.
  unfoldable pub probe : ℕ → ℕ → HandleStorage Name → Option ℕ
  probe zero i s = none
  probe (suc rounds) i s =
      let rest = probe rounds (i + 1) s in
      let handle = (i + s.handle_index) % 2 ^ handle_bits in
      if s.slot (handle % s.slot_size) == 0 then some handle else rest

-- The loop that copies the services to the table of twice the size: `none` where the assertion
-- fails.
unfoldable pub rehash : (ℕ → ℕ) → ℕ → (ℕ → ℕ) → ℕ → ℕ → (ℕ → ℕ) → Option (ℕ → ℕ)
rehash handle_of size slot zero i new_slot = some new_slot
rehash handle_of size slot (suc rounds) i new_slot =
    let hash = handle_of (slot i) % (size * 2) in
    let rest = rehash handle_of size slot rounds (i + 1) (update new_slot hash (slot i)) in
    if new_slot hash == 0 then rest else none

module _ {Name : Type 0} (handle_of : ℕ → ℕ) where
  -- The end of the `for (;;)` body: the table of twice the size.
  unfoldable pub expand : HandleStorage Name → Option (HandleStorage Name)
  expand s =
      if leb (s.slot_size * 2 - 1) handle_mask
      then elim (rehash handle_of s.slot_size s.slot s.slot_size 0 (λ i. 0)) [
        | none ↦ none
        | some new_slot ↦ some (record s { slot = new_slot; slot_size = s.slot_size * 2 })
      ]
      else none

  -- `ztask_handle_register`, on fuel for its `for (;;)`. The harbor's bits lie above the handle's, so
  -- `|=` is an addition.
  unfoldable pub register : ℕ → ℕ → HandleStorage Name → Option (ℕ × HandleStorage Name)
  unfolding probe expand
  register zero ctx s = none
  register (suc fuel) ctx s = elim (probe s.slot_size 0 s) [
    | some handle ↦ some (
      handle + s.harbor,
      record s { slot = update s.slot (handle % s.slot_size) ctx; handle_index = handle + 1 },
    )
    | none ↦ elim (expand s) [ none ↦ none | some s' ↦ register fuel ctx s' ]
  ]

  -- `ztask_handle_grab`, which also counts a reference: 0 for NULL.
  unfoldable pub grab : ℕ → HandleStorage Name → ℕ
  grab handle s =
      let ctx = s.slot (handle % s.slot_size) in
      if not (ctx == 0) && (handle_of ctx == handle) then ctx else 0

-- The loop of `ztask_handle_retire` over the names: `i` counts up to `n`, `j` is where the next kept
-- name goes. The result is the array and the new count.
unfoldable pub drop_names :
    {Name : Type 0} → ℕ → ℕ → ℕ → ℕ → (ℕ → HandleName Name) → (ℕ → HandleName Name) × ℕ
drop_names handle zero i j name = (name, j)
drop_names handle (suc rounds) i j name =
    drop_names handle rounds (i + 1) (if (name i).handle == handle then j else j + 1)
      (if (name i).handle == handle then name else update name j (name i))

module _ {Name : Type 0} (handle_of : ℕ → ℕ) where
  -- `ztask_handle_retire`: the context to release, 0 for none, and the storage afterwards.
  unfoldable pub retire : ℕ → HandleStorage Name → ℕ × HandleStorage Name
  unfolding drop_names
  retire handle s =
      let hash = handle % s.slot_size in
      let ctx = s.slot hash in
      let names = drop_names handle s.name_count 0 0 s.name in
      if not (ctx == 0) && (handle_of ctx == handle)
      then (ctx, record s { slot = update s.slot hash 0; name = names.0; name_count = names.1 })
      else (0, s)

module _ {Name : Type 0} (handle_of : ℕ → ℕ) where
  -- The inner loop of `ztask_handle_retireall`, from the slot `i` on: how many it retired.
  unfoldable pub retire_pass : ℕ → ℕ → HandleStorage Name → ℕ × HandleStorage Name
  unfolding retire
  retire_pass zero i s = (0, s)
  retire_pass (suc rounds) i s =
      let ctx = s.slot i in
      let handle = if ctx == 0 then 0 else handle_of ctx in
      let retired = retire handle_of handle s in
      let after = retire_pass rounds (i + 1) (retired.1) in
      let skipped = retire_pass rounds (i + 1) s in
      if handle == 0 then skipped else ((if retired.0 == 0 then 0 else 1) + after.0, after.1)

  -- `ztask_handle_retireall`, on fuel for its `for (;;)`, where no other thread changes the storage
  -- between the slots.
  unfoldable pub retire_all : ℕ → HandleStorage Name → Option (HandleStorage Name)
  unfolding retire_pass
  retire_all zero s = none
  retire_all (suc fuel) s =
      let pass = retire_pass s.slot_size 0 s in
      let again = retire_all fuel pass.1 in if pass.0 == 0 then some pass.1 else again

-- `strcmp`, of the C library: negative, zero or positive.
pub data Sign : Type 0 where
  negative zero_sign positive : Sign

module _ {Name : Type 0} (strcmp : Name → Name → Sign) where
  -- The binary search of `ztask_handle_findname` and `_insert_name`, on fuel. `stop` is `end + 1`.
  -- Found: the index. Not found: `begin`.
  unfoldable pub search_name : ℕ → Name → (ℕ → HandleName Name) → ℕ → ℕ → Option (Bool × ℕ)
  search_name zero text name begin stop = if ltb begin stop then none else some (false, begin)
  search_name (suc fuel) text name begin stop =
      let mid = (begin + (stop - 1)) / 2 in
      let right = search_name fuel text name (mid + 1) stop in
      let left = search_name fuel text name begin mid in
      if ltb begin stop
      then elim (strcmp (name mid).text text) [
        | zero_sign ↦ some (true, mid)
        | negative ↦ right
        | positive ↦ left
      ]
      else some (false, begin)

  -- `ztask_handle_findname`: 0 if there is no such name.
  unfoldable pub findname : Name → HandleStorage Name → Option ℕ
  unfolding search_name
  findname text s = elim (search_name s.name_count text s.name 0 s.name_count) [
    | none ↦ none
    | some (found, mid) ↦ some (if found then (s.name mid).handle else 0)
  ]

-- The loop of `_insert_name_before` that moves the entries from `before` on up by one; `i` counts
-- down from the count to `before`.
unfoldable pub shift_up : {Name : Type 0} → ℕ → ℕ → (ℕ → HandleName Name) → ℕ → HandleName Name
shift_up zero i name = name
shift_up (suc rounds) i name = shift_up rounds (i - 1) (update name i (name (i - 1)))

module _ {Name : Type 0} where
  -- `_insert_name_before`: `none` where the assertion on the capacity fails. A new array gets the
  -- entries that the loops of the first branch copy; the rest of it is not read.
  unfoldable pub insert_name_before :
      HandleStorage Name → Name → ℕ → ℕ → Option (HandleStorage Name)
  unfolding shift_up
  insert_name_before s text handle before =
      let entry : HandleName Name = record { text = text; handle = handle } in
      let copied = λ (i : ℕ). if ltb i before then s.name i else s.name (i - 1) in
      if leb s.name_cap s.name_count
      then (if leb (s.name_cap * 2) max_slot_size
          then some (record s {
            name = update copied before entry;
            name_cap = s.name_cap * 2;
            name_count = s.name_count + 1;
          })
          else none)
      else some (record s {
        name = update (shift_up (s.name_count - before) s.name_count s.name) before entry;
        name_count = s.name_count + 1;
      })

module _ {Name : Type 0} (strcmp : Name → Name → Sign) where
  -- `_insert_name` and `ztask_handle_namehandle`: whether the name was new, and the storage.
  unfoldable pub namehandle : ℕ → Name → HandleStorage Name → Option (Bool × HandleStorage Name)
  unfolding search_name insert_name_before
  namehandle handle text s = elim (search_name strcmp s.name_count text s.name 0 s.name_count) [
    | none ↦ none
    | some (true, mid) ↦ some (false, s)
    | some (false, begin) ↦ elim (insert_name_before s text handle begin) [
      | none ↦ none
      | some s' ↦ some (true, s')
    ]
  ]
