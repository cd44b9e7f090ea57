-- ===== src/Protocol/Sniff.antt =====
-- The sniffers of app/common/protocol/protocol.go. A sniffer sees the unread bytes of a buffer.
-- An index or a slice whose bounds are computed stands under `in_range`; an early `return ""`
-- is `ok []`.
pub mod Total
pub mod Extensions
pub mod Hello
use oiwest_core.Common.{
  ℕ, zero, suc, ◌+◌, ◌-◌, ◌*◌, ◌/◌, ◌%◌, ◌^◌, Bool, true, false, not, ◌&&◌, ◌||◌, List, [], ◌∷◌,
  ltb, leb, ◌==◌, if◌then◌else◌, length, take, drop, slice, byte_at, u16_at, Option, none, some,
  Result, ok, err, panic, ◌>>=◌, ◌>>◌, in_range,
}
use oiwest_core.Dccp.Types.{Error, unexpected_eof}

-- The protocols.
abbrev pub http : ℕ
http = 0

abbrev pub tls : ℕ
tls = 1

abbrev pub dns : ℕ
dns = 4

abbrev pub unknown : ℕ
unknown = 99

-- SniffResult.
pub record Sniffed : Type 0 where
  pub protocol : ℕ
  pub domain : List ℕ

-- Sniffer: nothing, a result or an error.
abbrev pub Sniffer : Type 0
Sniffer = List ℕ → Result Error (Option Sniffed)

abbrev pub four : ℕ → ℕ → ℕ → ℕ → List ℕ → Bool
four a b c d bytes =
    byte_at bytes 0 == a && byte_at bytes 1 == b && byte_at bytes 2 == c && byte_at bytes 3 == d

-- "GET ", "POST", "HEAD", "PUT ", "DELE", "OPTI", "CONN", "PATC".
abbrev pub is_method : List ℕ → Bool
is_method bytes =
    four 71 69 84 32 bytes
    || four 80 79 83 84 bytes
    || four 72 69 65 68 bytes
    || four 80 85 84 32 bytes
    || four 68 69 76 69 bytes
    || four 79 80 84 73 bytes
    || four 67 79 78 78 bytes
    || four 80 65 84 67 bytes

-- httpSniffer.
pub http_sniffer : Sniffer
http_sniffer bytes =
    if ltb (length bytes) 4
    then err unexpected_eof
    else if is_method bytes
    then ok (some (record { protocol = http; domain = [] }))
    else ok none

-- The server name in the data of its extension.
pub name_of : List ℕ → Result Error (List ℕ)
name_of sni =
    let n = u16_at sni 3 in
    if ltb 5 (length sni) && byte_at sni 0 == 0
    then (do
      in_range (leb 5 (length sni))
      if leb (5 + n) (length sni) then ok (slice sni 5 (5 + n)) else ok [])
    else ok []

pub server_name : List ℕ → ℕ → ℕ → ℕ → Result Error (List ℕ)
server_name payload offset n end =
    if ltb end (offset + n) || ltb (length payload) (offset + n) then ok [] else (do
      in_range (leb (offset + n) (length payload))
      name_of (slice payload offset (offset + n)))

-- The loop over the extensions, on fuel: running out is a panic.
pub extension_loop : ℕ → List ℕ → ℕ → ℕ → Result Error (List ℕ)
extension_loop zero payload offset end = panic
extension_loop (suc fuel) payload offset end =
    elim (leb (offset + 4) end && leb (offset + 4) (length payload)) [
      | false ↦ ok []
      | true ↦ do
        in_range (leb (offset + 4) (length payload))
        let n = u16_at payload (offset + 2)
        let rest = extension_loop fuel payload (offset + 4 + n) end
        if u16_at payload offset == 0 then server_name payload (offset + 4) n end else rest
    ]

-- From the extensions' length on, from the compression methods on, and from the ciphers on.
pub at_extensions : List ℕ → ℕ → Result Error (List ℕ)
at_extensions payload offset = if ltb (length payload) (offset + 2) then ok [] else (do
  in_range (leb (offset + 2) (length payload))
  extension_loop (length payload + 1) payload (offset + 2) (offset + 2 + u16_at payload offset))

pub at_compression : List ℕ → ℕ → Result Error (List ℕ)
at_compression payload offset = if ltb (length payload) (offset + 1) then ok [] else (do
  in_range (ltb offset (length payload))
  at_extensions payload (offset + 1 + byte_at payload offset))

pub at_ciphers : List ℕ → ℕ → Result Error (List ℕ)
at_ciphers payload offset = if ltb (length payload) (offset + 2) then ok [] else (do
  in_range (leb (offset + 2) (length payload))
  at_compression payload (offset + 2 + u16_at payload offset))

pub at_session : List ℕ → Result Error (List ℕ)
at_session payload =
    if ltb (length payload) 42
    then ok []
    else (do in_range (ltb 34 (length payload)); at_ciphers payload (34 + (1 + byte_at payload 34)))

-- extractSNI.
pub extract_sni : List ℕ → Result Error (List ℕ)
extract_sni bytes =
    let n = byte_at bytes 1 * 2 ^ 16 + byte_at bytes 2 * 2 ^ 8 + byte_at bytes 3 in
    if ltb (length bytes) 5
    then ok []
    else if not (byte_at bytes 0 == 1)
    then ok []
    else if ltb (length bytes) (4 + n)
    then ok []
    else (do in_range (leb (4 + n) (length bytes)); at_session (slice bytes 4 (4 + n)))

-- tlsSniffer.
pub tls_sniffer : Sniffer
tls_sniffer bytes =
    if ltb (length bytes) 6
    then err unexpected_eof
    else if byte_at bytes 0 == 22 && byte_at bytes 1 == 3 && leb (byte_at bytes 2) 3
    then (if leb (6 + u16_at bytes 3) (length bytes)
        then (do
          name ← extract_sni (drop 5 bytes)
          ok (some (record { protocol = tls; domain = name })))
        else ok none)
    else ok none

-- dnsSniffer.
pub dns_sniffer : Sniffer
dns_sniffer bytes =
    if ltb (length bytes) 12
    then err unexpected_eof
    else if byte_at bytes 2 / 128 % 2 == 0 && byte_at bytes 3 % 16 == 0
    then ok (some (record { protocol = dns; domain = [] }))
    else ok none

-- How Sniff goes on after a sniffer.
pub after : Result Error Sniffed → Result Error (Option Sniffed) → Result Error Sniffed
after rest (ok none) = rest
after rest (ok (some r)) = ok r
after rest (err e) = rest
after rest panic = panic

-- Sniff over a list of sniffers.
pub sniff : List Sniffer → List ℕ → Result Error Sniffed
sniff [] bytes = ok (record { protocol = unknown; domain = [] })
sniff (s ∷ ss) bytes = after (sniff ss bytes) (s bytes)

-- The sniffers that init registers.
unfoldable pub sniffers : List Sniffer
sniffers = http_sniffer ∷ tls_sniffer ∷ dns_sniffer ∷ []
