-- ===== src/Cluster/Receive.antt =====
-- A receiver of the requests of ztask/lualib/lua-cluster.c: it unpacks the first package, gathers the
-- parts, and concatenates their texts.
use ztask.Base.{
  ℕ, Bool, true, false, not, ◌&&◌, some, List, [], ◌∷◌, ◌==◌, if◌then◌else◌, Option, none,
}
use ztask.Cluster.{
  ◌>>=◌, Address, Unpacked, request, multi_request, part, Request, lunpackrequest, lconcat,
}
use ztask.Cluster.Words.{unframe}

abbrev pub more_follow : List (List ℕ) → Bool
more_follow [] = false
more_follow (frame ∷ frames) = true

-- The text of a part of the session, whose padding says whether more parts follow.
abbrev pub accepted : ℕ → Bool → Unpacked → Option (List ℕ)
accepted session more (part s text padding) =
    if (s == session) && (if padding then more else not more) then some text else none
accepted session more _ = none

unfoldable pub gather : ℕ → List (List ℕ) → Option (List (List ℕ))
unfolding lunpackrequest
gather session [] = some []
gather session (frame ∷ frames) =
    let rest = gather session frames in
    (unframe frame >>= lunpackrequest >>= accepted session (more_follow frames)) >>= λ text.
    rest >>= λ texts. some (text ∷ texts)

pub record Delivery : Type 0 where
  pub address : Address
  pub session : ℕ
  pub msg : List ℕ
  pub is_push : Bool

abbrev pub deliver : List (List ℕ) → Unpacked → Option Delivery
deliver parts (request address session msg is_push) =
    if more_follow parts
    then none
    else some (record { address = address; session = session; msg = msg; is_push = is_push })
deliver parts (multi_request address session size is_push) =
    gather session parts >>= lconcat size >>= λ msg.
    some (record { address = address; session = session; msg = msg; is_push = is_push })
deliver parts (part session msg padding) = none

abbrev pub receive : Request → Option Delivery
receive r = unframe r.first >>= lunpackrequest >>= deliver r.parts
