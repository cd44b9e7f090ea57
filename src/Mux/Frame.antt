-- ===== src/Mux/Frame.antt =====
-- What readLoop reads of the frames that WriteFrame sends.
use oiwest_core.Common.{
  ℕ, zero, suc, ◌+◌, ◌*◌, ◌/◌, ◌%◌, ◌^◌, ◌≤◌, ◌<◌, ◌≡◌, refl, ◌∙◌, ap, List, [], ◌∷◌, ◌++◌, length,
  length-append, take, drop, some, le→ltb_false, arith,
}
use oiwest_core.Common.Copying.{take_all, drop_all}
use oiwest_core.Mux.{frame_bytes, read_frame}

split_at :
    (n : ℕ) (xs ys : List ℕ)
    → n ≤ length xs
    → (take n (xs ++ ys) ≡ take n xs) × (drop n (xs ++ ys) ≡ drop n xs ++ ys)
split_at zero xs ys h = (refl, refl)
split_at (suc n) [] ys h = elim h [ ]
split_at (suc n) (x ∷ xs) ys h =
    let (t, d) = split_at n xs ys (omega arith) in (ap (λ r. x ∷ r) t, d)

length_field : (n : ℕ) → n / 256 % 256 * 256 + n % 256 ≡ n % 65536
length_field n = omega arith

-- Whatever follows, the reader takes the id, the type and the first `length % 65536` bytes of the
-- payload, and reads on in what is left of the payload.
pub read_frame-frame_bytes :
    (id kind : ℕ) (payload rest : List ℕ)
    → id < 2 ^ 32
    → read_frame (frame_bytes id kind payload ++ rest)
      ≡ some (
        (id, kind, take (length payload % 65536) payload),
        drop (length payload % 65536) payload ++ rest,
      )
unfolding read_frame frame_bytes
read_frame-frame_bytes id kind payload rest h =
    let n = length payload % 65536 in
    let (front, back) = split_at n payload rest (omega arith) in
    let sum = length-append payload rest in
    rw
      (
        length_field (length payload),
        le→ltb_false (suc (suc (suc (suc (suc (suc (suc (suc (length (payload ++ rest)))))))))) 8
            (omega arith),
        le→ltb_false (length (payload ++ rest)) n (omega arith),
        front,
        back,
      )
      (ap (λ (i : ℕ). some ((i, kind, take n payload), drop n payload ++ rest)) (omega arith))

-- A frame of less than 64 KiB comes back whole.
pub read_frame_whole :
    (id kind : ℕ) (payload rest : List ℕ)
    → id < 2 ^ 32
    → length payload < 65536
    → read_frame (frame_bytes id kind payload ++ rest) ≡ some ((id, kind, payload), rest)
read_frame_whole id kind payload rest h k =
    let n : length payload % 65536 ≡ length payload = omega arith in
    read_frame-frame_bytes id kind payload rest h
    ∙ rw
        (
          n,
          take_all (length payload) payload (omega arith),
          drop_all (length payload) payload (omega arith),
        )
        refl
