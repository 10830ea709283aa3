-- ===== src/Examples/Streams.antt =====
-- Concrete streams of ztask/lualib/lua-netpack.c.
use ztask.Base.{ℕ, ◌≡◌, refl, Option, some, arith, List, [], ◌∷◌, ◌++◌}
use ztask.Netpack.{Queue, Pack, new_queue, write_size, pack}
use ztask.Netpack.Table.{progress}
use ztask.Netpack.Frame.{frames, pending, Short}
use ztask.Netpack.Stream.{Valid}
use ztask.Netpack.Stream.Reads.{feed, sent, received, Parts}
use ztask.Netpack.Stream.Runs.{packed, feed-streams, reassembly, start-Valid, start-contents}

-- The packages 65 66 and the empty one, cut within the first size and within the first package,
-- with a part of another stream between.
abbrev parts : List (ℕ × List ℕ)
parts = (3, 0 ∷ []) ∷ (4, 0 ∷ 9 ∷ []) ∷ (3, 2 ∷ 65 ∷ []) ∷ (3, 66 ∷ 0 ∷ 0 ∷ []) ∷ []

parts-Parts : Parts parts
parts-Parts = ground arith

feed-streams_example :
    (got : List (Option Pack)) × (q' : Queue) × (feed parts new_queue ≡ some (got, q'))
    × Valid q'
    × ((fd : ℕ)
        → Short (received fd got)
          × (pending (progress fd new_queue) ++ sent fd parts
              ≡ frames (received fd got) ++ pending (progress fd q')))
feed-streams_example = feed-streams parts new_queue start-Valid start-contents parts-Parts

reassembly_example :
    (got : List (Option Pack)) × (q' : Queue) × (feed parts new_queue ≡ some (got, q'))
    × (received 3 got ≡ (65 ∷ 66 ∷ []) ∷ [] ∷ [])
unfolding packed write_size pack
reassembly_example = reassembly parts 3 ((65 ∷ 66 ∷ []) ∷ [] ∷ []) parts-Parts refl

abbrev one_pack : List (List ℕ)
one_pack = (65 ∷ []) ∷ []
