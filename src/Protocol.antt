-- ===== src/Protocol.antt =====
-- The request header of app/common/protocol/protocol.go.
mod Tests
pub mod Sniff
use oiwest_core.Common.{
  ℕ, ◌+◌, ◌*◌, ◌/◌, ◌%◌, ◌^◌, ◌<◌, ◌≡◌, refl, ap, List, [], ◌∷◌, ◌++◌, take, drop, leb, length,
  be16, byte_at, u16_at, Result, ok, err, ◌>>=◌, arith, if◌then◌else◌,
}
use oiwest_core.Dccp.Types.{Error}
use oiwest_core.Dccp.Read.{read_full}
use oiwest_core.Dccp.Read.Laws.{read_full-append}

-- RequestHeader.
pub record RequestHeader : Type 0 where
  pub version : ℕ
  pub command : ℕ
  pub port : ℕ

-- ParseRequestHeader, with what is left of the stream.
pub parse_request_header : List ℕ → Result Error (RequestHeader × List ℕ)
parse_request_header stream = do
  (hdr, rest) ← read_full 4 stream
  ok (record { version = byte_at hdr 0; command = byte_at hdr 1; port = u16_at hdr 2 }, rest)

-- What WriteRequestHeader writes.
pub write_request_header : ℕ → ℕ → List ℕ
write_request_header cmd port = 1 ∷ cmd ∷ be16 port

-- ParseRequestHeader reads what WriteRequestHeader wrote, for a port of sixteen bits, as version 1
-- with the same command and port, and leaves what follows.
pub parse-write_request_header :
    (cmd port : ℕ) (rest : List ℕ)
    → port < 2 ^ 16
    → parse_request_header (write_request_header cmd port ++ rest)
      ≡ ok (record { version = 1; command = cmd; port = port }, rest)
unfolding parse_request_header write_request_header
parse-write_request_header cmd port rest h =
    rw (read_full-append 4 (1 ∷ cmd ∷ be16 port) rest refl)
      (ap (λ (p : ℕ). ok (record { version = 1; command = cmd; port = p }, rest)) (omega arith))
