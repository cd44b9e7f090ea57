-- ===== src/Dccp/Read/Laws.antt =====
-- How ReadFullDCCPPacket cuts a stream.
use oiwest_core.Common.{
  ℕ, suc, ◌-◌, ◌*◌, ◌/◌, ◌%◌, ◌≡◌, refl, List, [], ◌∷◌, ◌++◌, length, length-append, byte_at, ok,
  ◌>>=◌, le→leb, arith,
}
use oiwest_core.Common.Copying.{take-append_length, drop-append_length}
use oiwest_core.Dccp.Types.{header_size}
use oiwest_core.Dccp.Packet.{decode}
use oiwest_core.Dccp.Read.{read_full, read_packet}

-- io.ReadFull takes the bytes asked for off the front.
pub read_full-append :
    (n : ℕ) (xs ys : List ℕ) → n ≡ length xs → read_full n (xs ++ ys) ≡ ok (xs, ys)
unfolding read_full
read_full-append n [] [] h = rw h refl
read_full-append n [] (y ∷ ys) h = rw (h, le→leb 0 (suc (length ys)) (omega arith)) refl
read_full-append n (x ∷ xs) ys h = rw (
  le→leb n (suc (length (xs ++ ys))) (omega (arith, length-append xs ys)),
  take-append_length n (x ∷ xs) ys h,
  drop-append_length n (x ∷ xs) ys h,
)

-- A stream that begins with a header and as many bytes as its data offset announces is decoded from
-- those alone.
pub read_packet_lem :
    (fixed more after : List ℕ)
    → length fixed ≡ header_size
    → length more ≡ byte_at fixed 4 / 16 % 16 * 4 - header_size
    → read_packet (fixed ++ (more ++ after)) ≡ (decode (fixed ++ more) >>= λ p. ok (p, after))
unfolding read_packet
read_packet_lem fixed more after len rest = rw (
  read_full-append header_size fixed (more ++ after) (omega arith),
  read_full-append (byte_at fixed 4 / 16 % 16 * 4 - header_size) more after (omega arith),
)
