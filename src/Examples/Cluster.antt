-- ===== src/Examples/Cluster.antt =====
-- Concrete requests and responses of ztask/lualib/lua-cluster.c.
use ztask.Base.{
  ℕ, zero, suc, ◌≡◌, refl, ap, true, some, arith, if◌then◌else◌, List, [], ◌∷◌, length, ltb, take,
}
use ztask.Cluster.{◌>>=◌, Address, name, packrequest, multi_part}
use ztask.Cluster.Receive.{receive}
use ztask.Cluster.Requests.{sent_session, packrequest-receive}
use ztask.Cluster.Response.{lpackresponse, receive_response}
use ztask.Cluster.Responses.{lpackresponse-receive_response}

abbrev hello : List ℕ
hello = 104 ∷ 101 ∷ 108 ∷ 108 ∷ 111 ∷ []

abbrev service : Address
service = name (100 ∷ 98 ∷ [])

-- The first package of a push to `db`.
hello_packed :
    (packrequest service 9 hello true >>= λ r. some r.first)
    ≡ some (0 ∷ 13 ∷ 128 ∷ 2 ∷ 100 ∷ 98 ∷ 0 ∷ 0 ∷ 0 ∷ 0 ∷ hello)
unfolding packrequest
hello_packed = refl

abbrev repeat : ℕ → List ℕ
repeat zero = []
repeat (suc n) = 7 ∷ repeat n

length-repeat : (n : ℕ) → length (repeat n) ≡ n
length-repeat zero = refl
length-repeat (suc n) = ap suc (length-repeat n)

-- A push in a first package and two parts.
packrequest-receive_example :
    (packrequest service 9 (repeat 40000) true >>= receive)
    ≡ some (record {
      address = service;
      session = if ltb (length (repeat 40000)) multi_part then sent_session 9 true else 9;
      msg = repeat 40000;
      is_push = true;
    })
packrequest-receive_example =
    packrequest-receive service 9 (repeat 40000) true (omega arith, omega arith) (omega arith)
      (omega arith) (omega (arith, length-repeat 40000))

-- A response in a first package and two parts.
lpackresponse-receive_response_example :
    (lpackresponse 9 true (repeat 40000) >>= receive_response)
    ≡ some (record {
      session = 9;
      ok = true;
      msg = if true then repeat 40000 else take multi_part (repeat 40000);
    })
lpackresponse-receive_response_example =
    lpackresponse-receive_response 9 true (repeat 40000) (omega arith)
      (omega (arith, length-repeat 40000))
