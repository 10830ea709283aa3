-- ===== src/Cluster/Unpack.antt =====
-- What `lunpackrequest` of ztask/lualib/lua-cluster.c makes of the packages of `packrequest`.
use ztask.Base.{
  ℕ, ◌+◌, ◌^◌, ◌≤◌, ◌<◌, ◌≡◌, refl, ◌∙◌, Bool, true, false, arith, some, List, [], ◌∷◌, ◌++◌,
  length, take, drop, length-append, take-append_length, drop-append_length, ◌==◌, if◌then◌else◌,
}
use ztask.Cluster.{
  fill_uint32, unpack_uint32, number, name, request, multi_request, lunpackrequest,
  unpackreq_number, unpackmreq_number, unpackreq_string, unpackmreq_string,
}
use ztask.Cluster.Words.{unpack_uint32-fill_uint32, less_false}

-- Packages that are long enough.
long_number :
    (buf : List ℕ)
    → 9 ≤ length buf
    → unpackreq_number buf
      ≡ some (
          request
            (number (unpack_uint32 (drop 1 buf)))
            (unpack_uint32 (drop 5 buf))
            (drop 9 buf)
            (unpack_uint32 (drop 5 buf) == 0))
unfolding unpackreq_number
long_number buf h = rw (unpackreq_number, less_false (length buf) 9 h) refl

long_string :
    (namesz : ℕ) (buf : List ℕ)
    → namesz + 6 ≤ length buf
    → unpackreq_string namesz buf
      ≡ some (
          request
            (name (take namesz (drop 2 buf)))
            (unpack_uint32 (drop namesz (drop 2 buf)))
            (drop 4 (drop namesz (drop 2 buf)))
            (unpack_uint32 (drop namesz (drop 2 buf)) == 0))
unfolding unpackreq_string
long_string namesz buf h =
    rw
      (
        unpackreq_string,
        less_false (length buf) 2 (omega arith),
        less_false (length buf) (namesz + 6) h,
      )
      refl

long_multi_string :
    (namesz : ℕ) (buf : List ℕ) (push : Bool)
    → namesz + 10 ≤ length buf
    → unpackmreq_string namesz buf push
      ≡ some (
          multi_request
            (name (take namesz (drop 2 buf)))
            (unpack_uint32 (drop namesz (drop 2 buf)))
            (unpack_uint32 (drop 4 (drop namesz (drop 2 buf))))
            push)
unfolding unpackmreq_string
long_multi_string namesz buf push h =
    rw
      (
        unpackmreq_string,
        less_false (length buf) 2 (omega arith),
        less_false (length buf) (namesz + 10) h,
      )
      refl

module _ (session : ℕ) (small : session < 2 ^ 32) where
  pub lunpackrequest-number :
      (addr : ℕ) (msg : List ℕ)
      → addr < 2 ^ 32
      → lunpackrequest (0 ∷ fill_uint32 addr ++ (fill_uint32 session ++ msg))
        ≡ some (request (number addr) session msg (session == 0))
  unfolding lunpackrequest unpackreq_number
  lunpackrequest-number addr msg h =
      long_number (0 ∷ fill_uint32 addr ++ (fill_uint32 session ++ msg)) (omega arith)
      ∙ rw (unpack_uint32-fill_uint32 addr [] h, unpack_uint32-fill_uint32 session [] small) refl

  pub lunpackrequest-multi :
      (addr sz : ℕ) (push : Bool)
      → addr < 2 ^ 32
      → sz < 2 ^ 32
      → lunpackrequest
          ((if push then 0x41 else 1) ∷ fill_uint32 addr ++ (fill_uint32 session ++ fill_uint32 sz))
        ≡ some (multi_request (number addr) session sz push)
  unfolding lunpackrequest unpackmreq_number
  lunpackrequest-multi addr sz true h h' =
      rw
        (
          unpack_uint32-fill_uint32 addr [] h,
          unpack_uint32-fill_uint32 session [] small,
          unpack_uint32-fill_uint32 sz [] h',
        )
        refl
  lunpackrequest-multi addr sz false h h' =
      rw
        (
          unpack_uint32-fill_uint32 addr [] h,
          unpack_uint32-fill_uint32 session [] small,
          unpack_uint32-fill_uint32 sz [] h',
        )
        refl

  pub lunpackrequest-name :
      (text msg : List ℕ)
      → lunpackrequest (0x80 ∷ length text ∷ text ++ (fill_uint32 session ++ msg))
        ≡ some (request (name text) session msg (session == 0))
  unfolding lunpackrequest unpackreq_string
  lunpackrequest-name text msg =
      let rest = fill_uint32 session ++ msg in
      long_string (length text) (0x80 ∷ length text ∷ text ++ rest)
        (omega (arith, length-append text rest))
      ∙ rw
          (
            take-append_length text rest,
            drop-append_length text rest,
            unpack_uint32-fill_uint32 session [] small,
          )
          refl

  pub lunpackrequest-multi_name :
      (text : List ℕ) (sz : ℕ) (push : Bool)
      → sz < 2 ^ 32
      → lunpackrequest (
          (if push then 0xc1 else 0x81) ∷ length text ∷ text
          ++ (fill_uint32 session ++ fill_uint32 sz))
        ≡ some (multi_request (name text) session sz push)
  unfolding lunpackrequest unpackmreq_string
  lunpackrequest-multi_name text sz push h = multi push
    where
      rest : List ℕ
      rest = fill_uint32 session ++ fill_uint32 sz

      value_of :
          (kind : ℕ) (push' : Bool)
          → unpackmreq_string (length text) (kind ∷ length text ∷ text ++ rest) push'
            ≡ some (multi_request (name text) session sz push')
      value_of kind push' =
          long_multi_string (length text) (kind ∷ length text ∷ text ++ rest) push'
            (omega (arith, length-append text rest))
          ∙ rw
              (
                take-append_length text rest,
                drop-append_length text rest,
                unpack_uint32-fill_uint32 session [] small,
                unpack_uint32-fill_uint32 sz [] h,
              )
              refl

      multi :
          (push' : Bool)
          → lunpackrequest ((if push' then 0xc1 else 0x81) ∷ length text ∷ text ++ rest)
            ≡ some (multi_request (name text) session sz push')
      multi true = value_of 0xc1 true
      multi false = value_of 0x81 false
