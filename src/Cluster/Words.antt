-- ===== src/Cluster/Words.antt =====
-- The numbers in the packages of ztask/lualib/lua-cluster.c.
use ztask.Base.{
  ℕ, ◌+◌, ◌*◌, ◌/◌, ◌%◌, ◌^◌, ◌≤◌, ◌<◌, ◌≡◌, refl, true, false, arith, some, List, ◌∷◌, ◌++◌,
  length, ltb, ◌==◌, if◌then◌else◌, Option, none,
}
use ztask.Netpack.{read_size}
use ztask.Cluster.{fill_uint32, unpack_uint32, fill_header}

pub unpack_uint32-fill_uint32 :
    (n : ℕ) (rest : List ℕ) → n < 2 ^ 32 → unpack_uint32 (fill_uint32 n ++ rest) ≡ n
unpack_uint32-fill_uint32 n rest h = omega arith

abbrev pub framed : ℕ → List ℕ → List ℕ
framed sz pack = sz / 2 ^ 8 % 2 ^ 8 ∷ sz % 2 ^ 8 ∷ pack

pub fill_header-framed :
    (sz : ℕ) (pack : List ℕ) → sz < 0x10000 → fill_header sz pack ≡ some (framed sz pack)
unfolding fill_header
fill_header-framed sz pack h = let fits : ltb sz 0x10000 ≡ true = ground arith in rw fits refl

-- What the gate gives to `lunpackrequest` and `lunpackresponse`: a package without its size.
abbrev pub unframe : List ℕ → Option (List ℕ)
unframe (high ∷ low ∷ pack) = if read_size high low == length pack then some pack else none
unframe _ = none

pub unframe-framed :
    (sz : ℕ) (pack : List ℕ)
    → sz < 0x10000
    → length pack ≡ sz
    → unframe (framed sz pack) ≡ some pack
unfolding read_size
unframe-framed sz pack h e =
    let same : (sz / 2 ^ 8 % 2 ^ 8 * 2 ^ 8 + sz % 2 ^ 8 == length pack) ≡ true = ground arith in
    rw same refl

pub less_true : (a b : ℕ) → a < b → ltb a b ≡ true
less_true a b h = ground arith

pub less_false : (a b : ℕ) → b ≤ a → ltb a b ≡ false
less_false a b h = ground arith

pub equal_true : (a b : ℕ) → a ≡ b → (a == b) ≡ true
equal_true a b h = ground arith
