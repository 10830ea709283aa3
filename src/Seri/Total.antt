-- ===== src/Seri/Total.antt =====
-- The reader of ztask/lualib/lua-seri.c ends on every sequence of bytes.
use ztask.Base.{
  ℕ, zero, suc, ◌+◌, ◌*◌, ◌/◌, ◌%◌, ◌≤◌, ◌≢◌, subst, arith, List, [], ◌∷◌, length, ◌==◌,
  if◌then◌else◌,
}
use ztask.Seri.{Value, Values, Pairs, type_table, is_nil}
use ztask.Seri.Unpack.{
  Parsed, parsed, starved, ◌>>=◌, get_array_size, push_scalar, unpack_one, unpack_table,
  unpack_array, unpack_hash, unpack_key, unpack_all, luaseri_unpack,
}
use ztask.Seri.Ends.{Ends, Ends-bind, Ends-if, get_array_size-Ends, push_scalar-Ends, Ends-more}

mutual
  unfolding unpack_one

  -- Reading a value ends and reads at least a byte, on fuel of 3 for a byte and 1 more.
  pub unpack_one-Ends :
      (fuel : ℕ) (rb : List ℕ) → 3 * length rb + 1 ≤ fuel → Ends (length rb) (unpack_one fuel rb)
  unpack_one-Ends zero rb h = absurd (omega arith)
  unpack_one-Ends (suc fuel) [] h = tt
  unpack_one-Ends (suc fuel) (byte ∷ rb) h =
      let n = length rb + 1 in
      Ends-more n (suc (length rb))
        (if byte % 8 == type_table
          then (get_array_size (byte / 8) rb >>= λ size rest. unpack_table fuel size rest)
          else push_scalar (byte % 8) (byte / 8) rb)
        (omega arith)
        (Ends-if n (byte % 8 == type_table)
          (get_array_size (byte / 8) rb >>= λ size rest. unpack_table fuel size rest)
          (push_scalar (byte % 8) (byte / 8) rb)
          (Ends-bind n n (get_array_size (byte / 8) rb) (λ size rest. unpack_table fuel size rest)
            (get_array_size-Ends (byte / 8) rb)
            (λ size rest less.
              Ends-more (length rest + 1) n (unpack_table fuel size rest) (omega arith)
                (unpack_table-Ends fuel size rest (omega arith))))
          (push_scalar-Ends (byte % 8) (byte / 8) rb))

  pub unpack_table-Ends :
      (fuel n : ℕ) (rb : List ℕ)
      → 3 * length rb + 3 ≤ fuel
      → Ends (length rb + 1) (unpack_table fuel n rb)
  unpack_table-Ends zero n rb h = absurd (omega arith)
  unpack_table-Ends (suc fuel) n rb h =
      let m = length rb + 1 in
      Ends-bind m m (unpack_array fuel n rb)
        (λ array rest.
          unpack_hash fuel rest >>= λ hash rest'. parsed (Value.table array hash) rest')
        (unpack_array-Ends fuel n rb (omega arith))
        (λ array rest less.
          Ends-bind (length rest + 1) m (unpack_hash fuel rest)
            (λ hash rest'. parsed (Value.table array hash) rest')
            (unpack_hash-Ends fuel rest (omega arith)) (λ hash rest' less'. omega arith))

  pub unpack_array-Ends :
      (fuel n : ℕ) (rb : List ℕ)
      → 3 * length rb + 2 ≤ fuel
      → Ends (length rb + 1) (unpack_array fuel n rb)
  unpack_array-Ends zero n rb h = absurd (omega arith)
  unpack_array-Ends (suc fuel) zero rb h = omega arith
  unpack_array-Ends (suc fuel) (suc n) rb h =
      let m = length rb + 1 in
      Ends-bind (length rb) m (unpack_one fuel rb)
        (λ v rest. unpack_array fuel n rest >>= λ vs rest'. parsed (Values.value v vs) rest')
        (unpack_one-Ends fuel rb (omega arith))
        (λ v rest less.
          Ends-bind (length rest + 1) m (unpack_array fuel n rest)
            (λ vs rest'. parsed (Values.value v vs) rest')
            (unpack_array-Ends fuel n rest (omega arith)) (λ vs rest' less'. omega arith))

  pub unpack_hash-Ends :
      (fuel : ℕ) (rb : List ℕ)
      → 3 * length rb + 2 ≤ fuel
      → Ends (length rb + 1) (unpack_hash fuel rb)
  unpack_hash-Ends zero rb h = absurd (omega arith)
  unpack_hash-Ends (suc fuel) rb h =
      let m = length rb + 1 in
      Ends-bind (length rb) m (unpack_one fuel rb) (λ k rest. unpack_key fuel k rest)
        (unpack_one-Ends fuel rb (omega arith))
        (λ k rest less.
          Ends-more (length rest + 1) m (unpack_key fuel k rest) (omega arith)
            (unpack_key-Ends fuel k rest (omega arith)))

  pub unpack_key-Ends :
      (fuel : ℕ) (k : Value) (rb : List ℕ)
      → 3 * length rb + 2 ≤ fuel
      → Ends (length rb + 1) (unpack_key fuel k rb)
  unpack_key-Ends zero k rb h = absurd (omega arith)
  unpack_key-Ends (suc fuel) k rb h =
      let m = length rb + 1 in
      let more : Parsed Pairs = unpack_one fuel rb >>= λ v rest.
      unpack_hash fuel rest >>= λ ps rest'. parsed (Pairs.pair k v ps) rest' in
      Ends-if m (is_nil k) (parsed Pairs.no_pairs rb) more (omega arith) (
        Ends-bind (length rb) m (unpack_one fuel rb)
          (λ v rest. unpack_hash fuel rest >>= λ ps rest'. parsed (Pairs.pair k v ps) rest')
          (unpack_one-Ends fuel rb (omega arith))
          (λ v rest less.
            Ends-bind (length rest + 1) m (unpack_hash fuel rest)
              (λ ps rest'. parsed (Pairs.pair k v ps) rest')
              (unpack_hash-Ends fuel rest (omega arith)) (λ ps rest' less'. omega arith)))

unpack_all-Ends :
    (fuel : ℕ) (rb : List ℕ) → 3 * length rb + 2 ≤ fuel → Ends (length rb + 1) (unpack_all fuel rb)
unfolding unpack_all
unpack_all-Ends zero rb h = absurd (omega arith)
unpack_all-Ends (suc fuel) [] h = omega arith
unpack_all-Ends (suc fuel) (byte ∷ rb) h =
    let m = length (byte ∷ rb) + 1 in
    Ends-bind (length (byte ∷ rb)) m (unpack_one fuel (byte ∷ rb))
      (λ v rest. unpack_all fuel rest >>= λ vs rest'. parsed (Values.value v vs) rest')
      (unpack_one-Ends fuel (byte ∷ rb) (omega arith))
      (λ v rest less.
        Ends-bind (length rest + 1) m (unpack_all fuel rest)
          (λ vs rest'. parsed (Values.value v vs) rest') (unpack_all-Ends fuel rest (omega arith))
          (λ vs rest' less'. omega arith))

-- `luaseri_unpack` ends on every sequence of bytes, also a damaged one: the fuel of the model does not
-- run out, so the result is the values, `invalid`, or `too_big`.
pub luaseri_unpack-total : (buffer : List ℕ) → luaseri_unpack buffer ≢ starved
unfolding luaseri_unpack
luaseri_unpack-total buffer e =
    subst (Ends (length buffer + 1)) e
      (unpack_all-Ends (3 * length buffer + 2) buffer (omega arith))
