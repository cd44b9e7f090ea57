-- ===== src/Xhttp/Frames.antt =====
-- What the read loop reads of the frames that are written.
use oiwest_core.Common.{
  ℕ, ◌+◌, ◌*◌, ◌/◌, ◌%◌, ◌^◌, ◌<◌, ◌≡◌, refl, ap, List, ◌++◌, length, length-append, le→ltb_false,
  some, arith,
}
use oiwest_core.Common.Copying.{take-append_length, drop-append_length}
use oiwest_core.Xhttp.{frame_bytes, read_frame}

word_field :
    (n : ℕ)
    → n < 2 ^ 32
    → (n / 2 ^ 24 % 256 * 256 + n / 2 ^ 16 % 256) * 2 ^ 16 + (n / 2 ^ 8 % 256 * 256 + n % 256) ≡ n
word_field n h = omega arith

-- A frame with a payload of less than 4 GiB comes back whole, whatever follows.
pub read_frame-frame_bytes :
    (id kind flags : ℕ) (bytes rest : List ℕ)
    → id < 2 ^ 32
    → length bytes < 2 ^ 32
    → read_frame (frame_bytes id kind flags bytes ++ rest) ≡ some ((kind, id, bytes), rest)
unfolding read_frame frame_bytes
read_frame-frame_bytes id kind flags bytes rest h k =
    let sum = length-append bytes rest in
    rw
      (
        word_field (length bytes) k,
        le→ltb_false (length (frame_bytes id kind flags bytes ++ rest)) 12 (omega arith),
        le→ltb_false (length (bytes ++ rest)) (length bytes) (omega arith),
        take-append_length (length bytes) bytes rest refl,
        drop-append_length (length bytes) bytes rest refl,
      )
      (ap (λ (i : ℕ). some ((kind, i, bytes), rest)) (word_field id h))
