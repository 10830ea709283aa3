-- ===== src/Examples/Names.antt =====
-- A concrete table of names of ztask/ztask_handle.c. Names are numbers here, in their order.
use ztask.Base.{ℕ, arith, if◌then◌else◌, ◌==◌, ltb}
use ztask.Handle.{HandleStorage, Sign, negative, zero_sign, positive, namehandle}
use ztask.Handle.Names.{Orders, Sorted}
use ztask.Handle.Naming.{Outcome, namehandle_names}

abbrev number_order : ℕ → ℕ → Sign
number_order a b = if ltb a b then negative else if a == b then zero_sign else positive

number_order-Orders : Orders number_order
number_order-Orders = record {
  same = λ a b e. ground arith;
  itself = λ a. ground arith;
  flip = λ a b e. ground arith;
  flip_back = λ a b e. ground arith;
  chain = λ a b c e e'. ground arith;
}

-- The names 3 and 7; the array is full.
abbrev two_names : HandleStorage ℕ
two_names = record {
  harbor = 0;
  handle_index = 4;
  slot_size = 4;
  slot = λ i. i;
  name_cap = 2;
  name_count = 2;
  name = λ i. if i == 0 then record { text = 3; handle = 1 } else record { text = 7; handle = 2 };
}

two_names-Sorted : Sorted number_order two_names
two_names-Sorted i j h h' = ground arith

namehandle_names_example :
    Outcome number_order-Orders two_names two_names-Sorted 5 3
      (namehandle number_order 3 5 two_names)
namehandle_names_example =
    namehandle_names number_order-Orders two_names two_names-Sorted 5 3 (omega arith)
