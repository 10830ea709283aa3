-- ===== src/Examples/Handles.antt =====
-- Concrete handle tables of ztask/ztask_handle.c.
use ztask.Base.{ℕ, ◌+◌, ◌^◌, ◌≡◌, ◌<◌, refl, some, arith, if◌then◌else◌, ◌==◌}
use ztask.Handle.{HandleName, HandleStorage, init, register, retire, retire_all, expand}
use ztask.Handle.Table.{Valid, Full, Grown, expand-Grown, init-Valid}
use ztask.Handle.Lookup.{Registered, register-Registered}
use ztask.Handle.RetireAll.{Named, retire_all-Cleared}
use ztask.Handle.Retire.{Retired, retire-Retired, register_zero}

-- Names are numbers here.
abbrev unnamed : ℕ → HandleName ℕ
unnamed i = record { text = 0; handle = 0 }

abbrev empty_table : HandleStorage ℕ
empty_table = init unnamed 1

register-Registered_example :
    (handle : ℕ) × (s' : HandleStorage ℕ) × (register (λ a. 0) 2 5 empty_table ≡ some (handle, s'))
    × Registered (λ a. 0) empty_table 5 handle s'
unfolding init
register-Registered_example =
    register-Registered (λ a. 0) 5 empty_table (init-Valid (λ a. 0) unnamed 1) (λ e. omega arith)
      (λ i e. omega arith) (omega arith)

-- The service at the address 5 has the handle 1, in the only slot.
abbrev full_table : HandleStorage ℕ
full_table = record {
  harbor = 0;
  handle_index = 2;
  slot_size = 1;
  slot = λ i. if i == 0 then 5 else 0;
  name_cap = 2;
  name_count = 0;
  name = unnamed;
}

full_table-Valid : Valid (λ a. 1) full_table
full_table-Valid = record {
  spare = 24;
  size = refl;
  node = 0;
  harbor = refl;
  placed = λ i taken. ground arith;
}

full_table-Full : Full (λ a. 1) full_table
full_table-Full j h = ground arith

expand-Grown_example :
    (s' : HandleStorage ℕ) × (expand (λ a. 1) full_table ≡ some s') × Grown (λ a. 1) full_table s'
expand-Grown_example =
    expand-Grown (λ a. 1) full_table full_table-Valid full_table-Full (omega arith)

retire-Retired_example :
    ((retire (λ a. 1) 1 full_table).0 ≡ 5)
    × Retired (λ a. 1) full_table 1 (retire (λ a. 1) 1 full_table).1
retire-Retired_example =
    retire-Retired (λ a. 1) full_table 1 5 full_table-Valid ((λ e. omega arith), refl, refl)

abbrev wrapped_table : HandleStorage ℕ
wrapped_table = record empty_table { handle_index = 2 ^ 24 }

register_zero_example :
    (s' : HandleStorage ℕ) × (register (λ a. 0) 1 5 wrapped_table
      ≡ some (0 + wrapped_table.harbor, s'))
unfolding init
register_zero_example = register_zero (λ a. 0) 0 5 wrapped_table (omega arith) refl refl

full_table-Named : Named (λ a. 1) full_table
full_table-Named i taken = ground arith

retire_all-Cleared_example :
    (s' : HandleStorage ℕ) × (retire_all (λ a. 1) 2 full_table ≡ some s')
    × (s'.slot_size ≡ full_table.slot_size)
    × ((j : ℕ) → j < s'.slot_size → s'.slot j ≡ 0)
retire_all-Cleared_example = retire_all-Cleared (λ a. 1) full_table full_table-Named
