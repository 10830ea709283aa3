-- ===== src/Harbor/Wire.antt =====
-- The packages between nodes in ztask/server/service_harbor.c.
use ztask.Base.{
  ℕ, ◌+◌, ◌-◌, ◌*◌, ◌/◌, ◌%◌, ◌^◌, List, [], ◌∷◌, ◌++◌, ltb, if◌then◌else◌, length, drop,
}
use ztask.Harbor.{Header, Action, socket_send, report, header_cookie_length}

abbrev pub to_bigendian : ℕ → List ℕ
to_bigendian n = n / 2 ^ 24 % 2 ^ 8 ∷ n / 2 ^ 16 % 2 ^ 8 ∷ n / 2 ^ 8 % 2 ^ 8 ∷ n % 2 ^ 8 ∷ []

abbrev pub header_to_message : Header → List ℕ
header_to_message header =
    to_bigendian header.source ++ (to_bigendian header.destination ++ to_bigendian header.session)

abbrev pub from_bigendian : List ℕ → ℕ
from_bigendian (a ∷ b ∷ c ∷ d ∷ rest) = a * 2 ^ 24 + b * 2 ^ 16 + c * 2 ^ 8 + d
from_bigendian _ = 0

abbrev pub message_to_header : List ℕ → Header
message_to_header message = record {
  source = from_bigendian message;
  destination = from_bigendian (drop 4 message);
  session = from_bigendian (drop 8 message);
}

-- The bytes of `sendbuf` in `send_remote`.
abbrev pub sendbuf : List ℕ → Header → List ℕ
sendbuf buffer cookie =
    to_bigendian (length buffer + header_cookie_length) ++ (buffer ++ header_to_message cookie)

unfoldable pub send_remote : ℕ → List ℕ → Header → Action
send_remote fd buffer cookie =
    if ltb (2 ^ 32 - 1) (length buffer + header_cookie_length)
    then report
    else socket_send fd (sendbuf buffer cookie)
