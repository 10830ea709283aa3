-- ===== src/Examples/Crypt.antt =====
-- Concrete keys of ztask/lualib/lua-crypt.c.
use ztask.Base.{ℕ, ◌*◌, ◌%◌, ◌^◌, ◌≡◌, refl, arith, some, none, List, [], ◌∷◌, length, ◌+◌, ◌/◌}
use ztask.Crypt.Hex.{ltohex, from_pairs, lfromhex, lfromhex-ltohex}
use ztask.Crypt.{◌>>=◌, prime, generator, push64, ldhsecret, ldhexchange, mul_mod_p}
use ztask.Crypt.Base64.{lb64encode, lb64decode}
use ztask.Crypt.Decode.{lb64decode-lb64encode}
use ztask.Crypt.Exchange.{ldhsecret-ldhexchange}

product : mul_mod_p (2 ^ 63) 4 ≡ some 118
unfolding mul_mod_p
product = refl

ldhsecret-ldhexchange_example :
    ((ldhexchange (push64 30) >>= λ public. ldhsecret public (push64 40))
      ≡ some (push64 (generator ^ (30 * 40) % prime)))
    × ((ldhexchange (push64 40) >>= λ public. ldhsecret public (push64 30))
        ≡ some (push64 (generator ^ (30 * 40) % prime)))
ldhsecret-ldhexchange_example =
    ldhsecret-ldhexchange 30 40 (omega arith) (omega arith) (omega arith) (omega arith)

abbrev four_bytes : List ℕ
four_bytes = 0 ∷ 255 ∷ 16 ∷ 7 ∷ []

encode_four_bytes : lb64encode four_bytes ≡ 65 ∷ 80 ∷ 56 ∷ 81 ∷ 66 ∷ 119 ∷ 61 ∷ 61 ∷ []
unfolding lb64encode
encode_four_bytes = refl

-- A line end behind the text is an error.
decode_with_newline : lb64decode (65 ∷ 80 ∷ 56 ∷ 81 ∷ 10 ∷ []) ≡ none
unfolding lb64decode
decode_with_newline = refl

lb64decode-lb64encode_example :
    (length (lb64encode four_bytes) ≡ (length four_bytes + 2) / 3 * 4)
    × (lb64decode (lb64encode four_bytes) ≡ some four_bytes)
lb64decode-lb64encode_example =
    lb64decode-lb64encode four_bytes (omega arith, (omega arith, (omega arith, (omega arith, tt))))
      (omega arith)

lfromhex-ltohex_example :
    (length (ltohex four_bytes) ≡ length four_bytes * 2)
    × (lfromhex (ltohex four_bytes) ≡ some four_bytes)
lfromhex-ltohex_example =
    lfromhex-ltohex four_bytes (omega arith, (omega arith, (omega arith, (omega arith, tt))))
      (omega arith)

-- The letter g is taken for a digit.
from_g : lfromhex (48 ∷ 103 ∷ []) ≡ some (16 ∷ [])
unfolding lfromhex from_pairs
from_g = refl
