-- ===== src/Seri/Messages.antt =====
-- `luaseri_pack` and `luaseri_unpack` of ztask/lualib/lua-seri.c.
use ztask.Base.{
  ℕ, zero, suc, ◌+◌, ◌*◌, ◌^◌, ◌≤◌, ◌<◌, ◌≡◌, refl, sym, ap, ◌∙◌, Bool, true, false, Option, none,
  some, arith, List, [], ◌∷◌, ◌++◌, length, length-append, ltb, if◌then◌else◌,
}
use ztask.Seri.{
  Value, text, Values, no_values, value, le_bytes, wb_init, pack_values, seri_copy, luaseri_pack,
  type_long_string, combine_type,
}
use ztask.Seri.Unpack.{
  parsed, too_big, ◌>>=◌, rb_read, from_le, get_buffer, get_long_string, push_scalar, unpack_one,
  unpack_all, luaseri_unpack,
}
use ztask.Seri.Bytes.{from_le-le_bytes, length-le_bytes, rb_read-append}
use ztask.Seri.Format.{encode, encode_values, packable_values}
use ztask.Seri.Blocks.{seri_copy-bytes, wb_init-Valid, bytes}
use ztask.Seri.Encode.{Writes, pack_values-Writes}
use ztask.Seri.Scalars.{unpack_one-scalar}
use ztask.Seri.Rebuilt.{rebuilt_values, PlainValues}
use ztask.Seri.RoundTrip.{unpack_one-encode, encode-busy}
use ztask.Seri.{WriteBlock}

copied :
    (ok : Bool) (xs : List ℕ) (r : Option WriteBlock)
    → Writes ok xs wb_init r
    → elim r [ none ↦ none | some b ↦ seri_copy (b.full ++ b.current ∷ []) b.len ]
      ≡ (if ok then some xs else none)
unfolding bytes wb_init
copied true xs (some b) h = seri_copy-bytes b h.valid ∙ ap some h.added
copied true xs none h = absurd h
copied false xs (some b) h = absurd h
copied false xs none h = refl

-- Where the encodings of the arguments have less than 2^31 bytes together, `luaseri_pack` succeeds just
-- where every argument is packable: its type is known, and no value is
-- more than 32 tables deep. The bytes that it then returns are the encodings of the arguments, one behind the
-- other, whatever blocks of 128 bytes they were gathered in.
pub luaseri_pack-encode_values :
    (args : Values)
    → length (encode_values args) < 2 ^ 31
    → luaseri_pack args ≡ (if packable_values args 0 then some (encode_values args) else none)
unfolding luaseri_pack
luaseri_pack-encode_values args small =
    copied (packable_values args 0) (encode_values args) (pack_values args 0 wb_init)
      (pack_values-Writes args 0 wb_init wb_init-Valid)

unpack_all-encode_values :
    (vs : Values) (fuel : ℕ)
    → PlainValues vs
    → 3 * length (encode_values vs) + 2 ≤ fuel
    → unpack_all fuel (encode_values vs) ≡ parsed (rebuilt_values vs) []
unfolding unpack_all encode_values rebuilt_values PlainValues
unpack_all-encode_values vs zero p h = absurd (omega arith)
unpack_all-encode_values no_values (suc fuel) p h = refl
unpack_all-encode_values (value v vs) (suc fuel) (p, q) h =
    let len = length-append (encode v) (encode_values vs) in
    let some_byte = encode-busy v p in
    unpack_all-step fuel (encode v ++ encode_values vs) (encode_values vs) (omega arith)
      (unpack_one-encode v fuel (encode_values vs) p (omega arith))
      (unpack_all-encode_values vs fuel q (omega arith))
  where
    unpack_all-step :
        {w : Value} {ws : Values} (f : ℕ) (rb rest : List ℕ)
        → 0 < length rb
        → unpack_one f rb ≡ parsed w rest
        → unpack_all f rest ≡ parsed ws []
        → unpack_all (suc f) rb ≡ parsed (value w ws) []
    unpack_all-step f [] rest busy e e' = absurd (omega arith)
    unpack_all-step f (byte ∷ rb) rest busy e e' = rw (e, e') refl

packed_as :
    {buffer : List ℕ} (ok : Bool) (xs : List ℕ)
    → (if ok then some xs else none) ≡ some buffer
    → xs ≡ buffer
packed_as true xs e = ap (λ o. elim o [ none ↦ xs | some l ↦ l ]) e
packed_as false xs e = grind arith

-- The bytes that `luaseri_pack` returns for any plain arguments (numbers and pointers of 64 bits, strings
-- and arrays shorter than 2^31, no nil key in a table) whose encodings have less than 2^31 bytes together are read back by `luaseri_unpack` as those
-- arguments, to the last byte: tables without the keys that their arrays hold, and the pairs of an
-- iterator up to a nil key as a table.
pub luaseri_unpack-luaseri_pack :
    (args : Values) (buffer : List ℕ)
    → PlainValues args
    → length (encode_values args) < 2 ^ 31
    → luaseri_pack args ≡ some buffer
    → luaseri_unpack buffer ≡ parsed (rebuilt_values args) []
unfolding luaseri_unpack
luaseri_unpack-luaseri_pack args buffer p small e =
    ap luaseri_unpack (sym packed)
    ∙ unpack_all-encode_values args (3 * length (encode_values args) + 2) p (omega arith)
  where
    packed : encode_values args ≡ buffer
    packed =
        packed_as (packable_values args 0) (encode_values args)
          (sym (luaseri_pack-encode_values args small) ∙ e)

-- A long string whose four bytes of length give at least 2^31 and less than 2^32 ends the reading with
-- the error of `lua_pushlstring` for a size that is too big, whatever bytes follow: it is not taken for
-- a shorter string, and not for the end of the stream.
pub luaseri_unpack-too_big :
    (size : ℕ) (rest : List ℕ)
    → 2 ^ 31 ≤ size
    → size < 2 ^ 32
    → luaseri_unpack (combine_type type_long_string 4 ∷ le_bytes 4 size ++ rest) ≡ too_big
unfolding luaseri_unpack unpack_all push_scalar get_long_string get_buffer
luaseri_unpack-too_big size rest h h' =
    let negative : ltb size (2 ^ 31) ≡ false = ground arith in
    let tail = le_bytes 4 size ++ rest in
    let fuel : 3 * suc (length tail) + 2 ≡ suc (suc (3 * suc (length tail))) = omega arith in
    let refused : unpack_one (suc (3 * suc (length tail))) (combine_type type_long_string 4 ∷ tail)
        ≡ too_big =
      unpack_one-scalar (3 * suc (length tail)) type_long_string 4 tail (omega arith) refl
      ∙ ap (λ p. p >>= λ bs r. get_buffer (from_le bs) r)
          (rb_read-append 4 (le_bytes 4 size) rest (length-le_bytes 4 size))
      ∙ ap (λ n. get_buffer n rest) (from_le-le_bytes 4 size (omega arith))
      ∙ ap (λ t. if t then (rb_read size rest >>= λ bs r. parsed (text bs) r) else too_big)
          negative in
    ap (λ f. unpack_all f (combine_type type_long_string 4 ∷ tail)) fuel
    ∙ ap
        (λ p. p >>= λ v r.
          unpack_all (suc (3 * suc (length tail))) r >>= λ vs r'. parsed (value v vs) r')
        refused
