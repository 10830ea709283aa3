-- ===== src/Examples/Multicast.antt =====
-- A concrete package of ztask/lualib/lua-multicast.c.
use ztask.Base.{◌≡◌, true, false, none, some, arith}
use ztask.Multicast.{Memory, mc_packremote, mc_bindrefer}
use ztask.Multicast.Count.{closes, Shared}
use ztask.Multicast.Close.{closes-mc_bindrefer}

abbrev nothing : Memory
nothing = record { packages = λ a. none; pointers = λ a. none; blocks = λ a. false }

-- Three services get the package, and one has closed it.
closes-mc_bindrefer_example :
    (m₁ : Memory) × (mc_bindrefer (mc_packremote nothing 1 2 3 100).0 2 3 ≡ some (m₁, some 1))
    × ((m₂ : Memory) × (closes 1 m₁ 1 ≡ some (m₂, true)) × Shared m₂ 1 2 100 3)
    × ((m₃ : Memory) × (closes 3 m₁ 1 ≡ some (m₃, true))
        × (m₃.packages 1 ≡ none)
        × (m₃.blocks 3 ≡ false))
    × (closes 4 m₁ 1 ≡ none)
closes-mc_bindrefer_example =
    closes-mc_bindrefer nothing 1 2 3 100 1 2 (omega arith) (omega arith) (omega arith)
