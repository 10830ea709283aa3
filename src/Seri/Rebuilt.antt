-- ===== src/Seri/Rebuilt.antt =====
-- The value that reading gives, and the steps of the reader, of ztask/lualib/lua-seri.c.
use ztask.Base.{
  ℕ, suc, ◌-◌, ◌^◌, ◌<◌, ◌≡◌, refl, ap, ◌∙◌, inl, inr, false, arith, List, ◌∷◌, length, leb,
  if◌then◌else◌, Bool-cases,
}
use ztask.Seri.{
  Value, nil, boolean, integer, real, text, pointer, table, paired, unsupported, Values, no_values,
  value, Pairs, no_pairs, pair, count, is_nil, type_nil, max_cookie,
}
use ztask.Seri.Unpack.{
  parsed, ◌>>=◌, push_scalar, unpack_one, unpack_table, unpack_array, unpack_hash, unpack_key,
}
use ztask.Seri.Format.{array_size_bytes, is_index}
use ztask.Seri.Scalars.{unpack_one-scalar}

-- The value that is read: the keys of a table that its array holds are not repeated, and the pairs of
-- an iterator become a table.
unfoldable mutual
  pub rebuilt : Value → Value
  rebuilt nil = nil
  rebuilt (boolean flag) = boolean flag
  rebuilt (integer v) = integer v
  rebuilt (real v) = real v
  rebuilt (text str) = text str
  rebuilt (pointer v) = pointer v
  rebuilt (table array hash) = table (rebuilt_values array) (rebuilt_hash hash (count array))
  rebuilt (paired pairs) = table no_values (rebuilt_pairs pairs)
  rebuilt unsupported = unsupported

  pub rebuilt_values : Values → Values
  rebuilt_values no_values = no_values
  rebuilt_values (value v vs) = value (rebuilt v) (rebuilt_values vs)

  pub rebuilt_hash : Pairs → ℕ → Pairs
  rebuilt_hash no_pairs n = no_pairs
  rebuilt_hash (pair k v ps) n =
      let rest = rebuilt_hash ps n in
      if is_index n k then rest else pair (rebuilt k) (rebuilt v) rest

  pub rebuilt_pairs : Pairs → Pairs
  rebuilt_pairs no_pairs = no_pairs
  rebuilt_pairs (pair k v ps) =
      let rest = rebuilt_pairs ps in
      if is_nil k then no_pairs else pair (rebuilt k) (rebuilt v) rest

-- What Lua promises of a value: numbers and pointers have 64 bits, the keys of a table are not nil. And
-- its strings and arrays are shorter than an `int` can count.
unfoldable mutual
  pub Plain : Value → Type 0
  Plain nil = Unit {0}
  Plain (boolean flag) = Unit {0}
  Plain (integer v) = v < 2 ^ 64
  Plain (real v) = v < 2 ^ 64
  Plain (text str) = length str < 2 ^ 31
  Plain (pointer v) = v < 2 ^ 64
  Plain (table array hash) = (count array < 2 ^ 31) × PlainValues array × PlainHash hash
  Plain (paired pairs) = PlainPairs pairs
  Plain unsupported = ⊥

  pub PlainValues : Values → Type 0
  PlainValues no_values = Unit {0}
  PlainValues (value v vs) = Plain v × PlainValues vs

  pub PlainHash : Pairs → Type 0
  PlainHash no_pairs = Unit {0}
  PlainHash (pair k v ps) = (is_nil k ≡ false) × Plain k × Plain v × PlainHash ps

  pub PlainPairs : Pairs → Type 0
  PlainPairs no_pairs = Unit {0}
  PlainPairs (pair k v ps) = Plain k × Plain v × PlainPairs ps

pub is_nil-rebuilt : (v : Value) → is_nil (rebuilt v) ≡ is_nil v
unfolding rebuilt
is_nil-rebuilt nil = refl
is_nil-rebuilt (boolean flag) = refl
is_nil-rebuilt (integer v) = refl
is_nil-rebuilt (real v) = refl
is_nil-rebuilt (text str) = refl
is_nil-rebuilt (pointer v) = refl
is_nil-rebuilt (table array hash) = refl
is_nil-rebuilt (paired pairs) = refl
is_nil-rebuilt unsupported = refl

-- The steps of the reader, from what the steps below it give.
pub table_read :
    {vs : Values} {ps : Pairs} (fuel n : ℕ) (rb rest rest' : List ℕ)
    → unpack_array fuel n rb ≡ parsed vs rest
    → unpack_hash fuel rest ≡ parsed ps rest'
    → unpack_table (suc fuel) n rb ≡ parsed (table vs ps) rest'
unfolding unpack_table
table_read fuel n rb rest rest' a h = rw (unpack_table, a, h) refl

pub array_read :
    {v : Value} {vs : Values} (fuel n : ℕ) (rb rest rest' : List ℕ)
    → unpack_one fuel rb ≡ parsed v rest
    → unpack_array fuel n rest ≡ parsed vs rest'
    → unpack_array (suc fuel) (suc n) rb ≡ parsed (value v vs) rest'
unfolding unpack_array
array_read fuel n rb rest rest' a h = rw (unpack_array, a, h) refl

pub pair_read :
    {k v : Value} {ps : Pairs} (fuel : ℕ) (rb rest rest' rest'' : List ℕ)
    → unpack_one (suc fuel) rb ≡ parsed k rest
    → is_nil k ≡ false
    → unpack_one fuel rest ≡ parsed v rest'
    → unpack_hash fuel rest' ≡ parsed ps rest''
    → unpack_hash (suc (suc fuel)) rb ≡ parsed (pair k v ps) rest''
unfolding unpack_hash
pair_read {k} {v} {ps} fuel rb rest rest' rest'' a busy b h =
    ap (λ p. p >>= λ k' r. unpack_key (suc fuel) k' r) a ∙ key
  where
    key : unpack_key (suc fuel) k rest ≡ parsed (pair k v ps) rest''
    key = rw (busy, b, h) refl

pub hash_end :
    (fuel : ℕ) (rest : List ℕ)
    → unpack_hash (suc (suc fuel)) (type_nil ∷ rest) ≡ parsed no_pairs rest
unfolding unpack_hash push_scalar
hash_end fuel rest =
    ap (λ p. p >>= λ k' r. unpack_key (suc fuel) k' r)
      (unpack_one-scalar fuel type_nil 0 rest (omega arith) refl)

pub array_size_bytes-busy : (n : ℕ) → n < 2 ^ 31 → 0 < length (array_size_bytes n)
array_size_bytes-busy n h = elim (Bool-cases (leb (max_cookie - 1) n)) [
  | inl large ↦ rw large (omega arith)
  | inr small ↦ rw small (omega arith)
]
