-- ===== src/Examples/Values.antt =====
-- Concrete values, packed and read by ztask/lualib/lua-seri.c.
use ztask.Base.{
  ℕ, ◌-◌, ◌^◌, ◌<◌, ◌≡◌, ◌≢◌, refl, none, some, arith, if◌then◌else◌, List, [], ◌∷◌, ◌++◌, length,
}
use ztask.Seri.{
  nil, integer, text, table, Values, no_values, value, no_pairs, pair, le_bytes, luaseri_pack,
  combine_type, type_long_string,
}
use ztask.Seri.Unpack.{parsed, too_big, starved, luaseri_unpack}
use ztask.Seri.Format.{encode, encode_hash, encode_values, packable_values}
use ztask.Seri.Rebuilt.{rebuilt_values, PlainValues}
use ztask.Seri.Total.{luaseri_unpack-total}
use ztask.Seri.Messages.{
  luaseri_pack-encode_values, luaseri_unpack-luaseri_pack, luaseri_unpack-too_big,
}

-- `7, { "a", [3] = -1, [1] = skipped }, nil`
abbrev arguments : Values
arguments = value (integer 7) (
    value
      (table (value (text (97 ∷ [])) no_values)
        (pair (integer 3) (integer (2 ^ 64 - 1)) (pair (integer 1) (text (97 ∷ [])) no_pairs)))
      (value nil no_values))

abbrev packed : List ℕ
packed = 10 ∷ 7 ∷ 14 ∷ 12 ∷ 97 ∷ 10 ∷ 3 ∷ 34 ∷ 255 ∷ 255 ∷ 255 ∷ 255 ∷ 0 ∷ 0 ∷ []

pack_arguments : luaseri_pack arguments ≡ some packed
unfolding luaseri_pack
pack_arguments = refl

arguments_small : length (encode_values arguments) < 2 ^ 31
unfolding encode_values encode le_bytes encode_hash
arguments_small = omega arith

luaseri_pack-encode_values_example :
    luaseri_pack arguments
    ≡ (if packable_values arguments 0 then some (encode_values arguments) else none)
luaseri_pack-encode_values_example = luaseri_pack-encode_values arguments arguments_small

arguments_plain : PlainValues arguments
unfolding PlainValues
arguments_plain = (
  omega arith,
  (
    (
      omega arith,
      (omega arith, tt),
      (refl, omega arith, omega arith, (refl, omega arith, omega arith, tt)),
    ),
    (tt, tt),
  ),
)

luaseri_unpack-luaseri_pack_example : luaseri_unpack packed ≡ parsed (rebuilt_values arguments) []
luaseri_unpack-luaseri_pack_example =
    luaseri_unpack-luaseri_pack arguments packed arguments_plain arguments_small pack_arguments

luaseri_unpack-total_example : luaseri_unpack (14 ∷ 12 ∷ []) ≢ starved
luaseri_unpack-total_example = luaseri_unpack-total (14 ∷ 12 ∷ [])

luaseri_unpack-too_big_example :
    luaseri_unpack (combine_type type_long_string 4 ∷ le_bytes 4 (2 ^ 32 - 1) ++ []) ≡ too_big
luaseri_unpack-too_big_example = luaseri_unpack-too_big (2 ^ 32 - 1) [] (omega arith) (omega arith)
