-- ===== src/Stealth/Reads.antt =====
-- Reads of the stream that is obfuscated.
use oiwest_core.Common.{
  ℕ, ◌+◌, ◌-◌, ◌≡◌, ◌<◌, ◌≤◌, refl, ap, ◌∙◌, ◌==◌, false, List, ◌++◌, length, take, drop, slice,
  copy_at, min, ltb, lt→ltb, le→ltb_false, le→leb, length-drop, Result, ok, if◌then◌else◌, arith,
}
use oiwest_core.Common.Copying.{
  take-append_le, drop-append_le, take-take_le, copy_at-zero, length-copy_at, take_all, drop-drop,
}
use oiwest_core.Crypto.{Error}
use oiwest_core.Stealth.{Stream, keep_rest, stream_read}

module _ (deobfuscate : List ℕ → Result Error (List ℕ)) where
  fresh :
      (size : ℕ) (raw plain : List ℕ) (s : Stream)
      → s.read_len ≡ 0
      → deobfuscate raw ≡ ok plain
      → stream_read deobfuscate size raw s
        ≡ ok (
          take size plain,
          keep_rest size plain (record s { read_buf = copy_at s.read_buf 0 raw }),
        )
  unfolding stream_read
  fresh size raw plain s e d =
      let empty : ltb 0 s.read_len ≡ false = le→ltb_false 0 s.read_len (omega (arith, e)) in
      rw (empty, d, stream_read) refl

  -- A Read with nothing kept, into room for the whole plaintext, gives the plaintext and keeps
  -- nothing.
  pub stream_read_whole :
      (size : ℕ) (raw plain : List ℕ) (s : Stream)
      → s.read_len ≡ 0
      → deobfuscate raw ≡ ok plain
      → length plain ≤ size
      → stream_read deobfuscate size raw s
        ≡ ok (plain, record s { read_buf = copy_at s.read_buf 0 raw })
  unfolding keep_rest
  stream_read_whole size raw plain s e d fit =
      let all : ltb (min size (length plain)) (length plain) ≡ false =
        le→ltb_false (min size (length plain)) (length plain) (omega (arith, fit)) in
      fresh size raw plain s e d ∙ rw (all, take_all size plain fit) refl

  -- What a Read keeps of a plaintext that does not fit.
  kept :
      (size : ℕ) (plain : List ℕ) (s : Stream)
      → size < length plain
      → keep_rest size plain s ≡ record {
        read_buf = copy_at s.read_buf 0 (drop size plain);
        read_pos = size;
        read_len = length plain - size;
      }
  unfolding keep_rest
  kept size plain s h =
      let n : min size (length plain) ≡ size = omega (arith, h) in
      rw (n, lt→ltb size (length plain) h) refl

  -- The range that is read next does not start where the rest of the plaintext was put.
  shifted :
      (size more : ℕ) (plain buf : List ℕ)
      → length plain ≤ length buf
      → size + size + more ≤ length plain
      → take more (slice (copy_at buf 0 (drop size plain)) size (size + (length plain - size)))
        ≡ take more (drop (size + size) plain)
  shifted size more plain buf room long =
      let rest = drop size plain in
      let n = length-drop size plain in
      let n' = length-drop size rest in
      rw (
        copy_at-zero buf rest (omega (arith, n, room)),
        take-take_le more (size + (length plain - size) - size)
            (drop size (rest ++ drop (length rest) buf)) (omega (arith, long)),
        drop-append_le size rest (drop (length rest) buf) (omega (arith, n, long)),
        take-append_le more (drop size rest) (drop (length rest) buf) (omega (arith, n, n', long)),
        drop-drop size size plain,
      )

  held :
      (more : ℕ) (raw : List ℕ) (s : Stream)
      → 0 < s.read_len
      → more ≤ s.read_len
      → s.read_pos + s.read_len ≤ length s.read_buf
      → (s' : Stream) × (stream_read deobfuscate more raw s
          ≡ ok (take more (slice s.read_buf s.read_pos (s.read_pos + s.read_len)), s'))
  unfolding stream_read
  held more raw s some_ fits room =
      let n : min more s.read_len ≡ more = omega (arith, fits) in
      (
        record s {
          read_pos = if s.read_len - more == 0 then 0 else s.read_pos + more;
          read_len = s.read_len - more;
        },
        rw
            (
              lt→ltb 0 s.read_len some_,
              le→leb (s.read_pos + s.read_len) (length s.read_buf) room,
              n,
              stream_read,
            )
            refl,
      )

  -- After a Read that did not take the whole plaintext the next Read skips as many bytes as the
  -- first one gave, if the plaintext fits the buffer and has so many bytes left and those asked for.
  pub stream_read_skips :
      (size more : ℕ) (raw raw' plain : List ℕ) (s : Stream)
      → s.read_len ≡ 0
      → deobfuscate raw ≡ ok plain
      → length plain ≤ length s.read_buf
      → 0 < more
      → size + size + more ≤ length plain
      → (s' : Stream) × (s'' : Stream) × (stream_read deobfuscate size raw s
          ≡ ok (take size plain, s'))
        × (stream_read deobfuscate more raw' s' ≡ ok (take more (drop (size + size) plain), s''))
  stream_read_skips size more raw raw' plain s e d room some_ long =
      let buf = copy_at s.read_buf 0 raw in
      let s' : Stream = record {
        read_buf = copy_at buf 0 (drop size plain);
        read_pos = size;
        read_len = length plain - size;
      } in
      let sizes = length-copy_at s.read_buf 0 raw in
      let sizes' = length-copy_at buf 0 (drop size plain) in
      let (s'', next_) =
        held more raw' s' (omega (arith, long)) (omega (arith, long))
          (omega (arith, sizes, sizes', room, long)) in
      (
        s',
        s'',
        fresh size raw plain s e d
            ∙ ap (λ (t : Stream). ok (take size plain, t))
                (kept size plain (record s { read_buf = buf }) (omega (arith, long))),
        next_
            ∙ ap (λ (out : List ℕ). ok (out, s''))
                (shifted size more plain buf (omega (arith, sizes, room)) long),
      )
