-- ===== src/Dccp/Read.antt =====
-- io.ReadFull on a stream, and ReadFullDCCPPacket of app/transport/dccp/packet.go. A stream is the
-- list of the bytes that still arrive before its end.
pub mod Laws
use oiwest_core.Common.{
  ℕ, suc, ◌+◌, ◌-◌, ◌*◌, ◌/◌, ◌%◌, List, [], ◌∷◌, ◌++◌, leb, length, take, drop, Result, ok, err,
  ◌>>=◌, byte_at, if◌then◌else◌,
}
use oiwest_core.Dccp.Types.{Header, Opt, Error, eof, unexpected_eof, header_size}
use oiwest_core.Dccp.Packet.{decode}

-- io.ReadFull: all of the bytes asked for, or an error once the stream has ended.
pub read_full : ℕ → List ℕ → Result Error (List ℕ × List ℕ)
read_full n [] = if leb n 0 then ok ([], []) else err eof
read_full n (x ∷ xs) =
    if leb n (suc (length xs)) then ok (take n (x ∷ xs), drop n (x ∷ xs)) else err unexpected_eof

-- ReadFullDCCPPacket: the fixed header, what its data offset still announces, and no payload. What
-- is left of the stream comes with the packet.
pub read_packet : List ℕ → Result Error ((Header × List Opt × List ℕ) × List ℕ)
read_packet stream = do
  (fixed, stream') ← read_full header_size stream
  (more, stream'') ← read_full (byte_at fixed 4 / 16 % 16 * 4 - header_size) stream'
  packet ← decode (fixed ++ more)
  ok (packet, stream'')
