-- ===== src/Proxy.antt =====
-- What the proxies share: addresses on the wire, io.ReadFull with its error dropped, and hex.
-- The host of a target is split off by net.SplitHostPort and net.ParseIP, whose answers come as the
-- arguments `host` and `port`.
pub mod Address
pub mod Hex
pub mod Trojan
pub mod Vless
pub mod Vmess
pub mod Manager
mod Tests
use oiwest_core.Common.{
  ℕ, zero, suc, ◌+◌, ◌-◌, ◌*◌, ◌/◌, ◌%◌, ◌^◌, Bool, true, false, ◌&&◌, ◌||◌, List, [], ◌∷◌, ◌++◌,
  ltb, leb, ◌==◌, if◌then◌else◌, length, take, drop, replicate, byte_at, u16_at, be16, Result, ok,
  err, panic,
}

pub data Error : Type 0 where
  auth_failed invalid_version unknown_command unknown_address invalid_crlf : Error
  invalid_request invalid_user bad_packet : Error
  eof unexpected_eof : Error

-- A host as net.ParseIP sees it.
pub data Host : Type 0 where
  ipv4 ipv6 domain : List ℕ → Host

pub record Target : Type 0 where
  pub host : Host
  pub port : ℕ

-- io.ReadFull.
pub read_full : ℕ → List ℕ → Result Error (List ℕ × List ℕ)
read_full zero stream = ok ([], stream)
read_full (suc n) [] = err eof
read_full (suc n) (x ∷ xs) =
    if ltb (length xs) n
    then err unexpected_eof
    else ok (take (suc n) (x ∷ xs), drop (suc n) (x ∷ xs))

-- io.ReadFull into a new slice, with its error dropped: what does not come stays zero.
unfoldable pub read_lossy : ℕ → List ℕ → List ℕ
read_lossy n stream = take n stream ++ replicate (n - length stream) 0

-- The port, at the end of an address.
pub read_port : Host → List ℕ → Target × List ℕ
read_port host stream =
    (record { host = host; port = u16_at (read_lossy 2 stream) 0 }, drop 2 stream)
