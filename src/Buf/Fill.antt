-- ===== src/Buf/Fill.antt =====
-- ReadFullFrom, which may move to a larger array, and the buffers that NewWithSize makes.
use oiwest_core.Common.{
  ℕ, zero, ◌+◌, ◌-◌, ◌≤◌, ◌<◌, ◌≡◌, refl, sym, ◌∙◌, ap, true, false, List, [], ◌++◌, length, inl,
  inr, ◌⊎◌, Bool-cases, length-append, length-take, length-drop, length-replicate, take, replicate,
  copy_at, append_assoc, leb, ltb, lt→leb_false, if◌then◌else◌, ok, panic, min, arith,
}
use oiwest_core.Common.Copying.{
  drop-append_length, copy_at-zero, length-copy_at, take_all, take-min, replicate-add,
}
use oiwest_core.Buf.{Buffer, default_size, tier, new, new_with_size, contents, grow, read_full_from}
use oiwest_core.Buf.Split.{IsValid, room, length-contents, contents_of}
use oiwest_core.Buf.Contents.{length-front, length-room, written}

-- What ReadFullFrom leaves in a buffer that has the room.
abbrev filled : List ℕ → ℕ → Buffer → Buffer
filled stream size b =
    let n = min size (length stream) in
    record b { bytes = copy_at b.bytes b.end (take n stream); end = b.end + n }

filled_lem :
    (stream : List ℕ) (size : ℕ) (b : Buffer)
    → IsValid b
    → size ≤ length (room b)
    → IsValid (filled stream size b)
      × (contents (filled stream size b) ≡ contents b ++ take size stream)
filled_lem stream size b v h =
    let n = min size (length stream) in
    let src : List ℕ = take n stream in
    let len_src = length-take n stream in
    let back = length-room b v in
    let whole : take (length (room b)) src ≡ src = take_all (length (room b)) src (omega arith) in
    (
      omega (arith, length-copy_at b.bytes b.end src),
      contents_of (filled stream size b) (take b.start b.bytes) (contents b ++ src) _
            (rw whole at (written b v src)) (sym (length-front b v))
            (omega (arith, length-front b v, length-contents b v, length-append (contents b) src))
          ∙ ap (λ xs. contents b ++ xs) (take-min size stream),
    )

-- The larger array: the unread bytes, then as many zeros as bytes had been read.
grown_lem :
    (size : ℕ) (b : Buffer)
    → IsValid b
    → ltb (length b.bytes) (b.end + size) ≡ true
    → (b' : Buffer) × (grow size b ≡ ok b')
      × IsValid b'
      × (contents b' ≡ contents b ++ replicate b.start 0)
      × (length (room b') ≡ size)
unfolding grow contents
grown_lem size b v e =
    let c = contents b in
    let len_c = length-contents b v in
    let tail = b.end + size - length c in
    let zeros : replicate (b.end + size) 0 ≡ replicate (length c) 0 ++ replicate tail 0 =
      ap (λ n. replicate n zero) {x = b.end + size} {y = length c + tail} (omega arith)
      ∙ replicate-add (length c) tail 0 in
    let made : copy_at (replicate (b.end + size) 0) 0 c ≡ c ++ replicate tail 0 = rw zeros (
      copy_at-zero (replicate (length c) 0 ++ replicate tail 0) c (
        omega (
          arith,
          length-append (replicate (length c) zero) (replicate tail 0),
          length-replicate (length c) zero,
        ))
      ∙ rw
          (drop-append_length (length c) (replicate (length c) 0) (replicate tail 0)
            (sym (length-replicate (length c) zero)))
          refl) in
    let parts : replicate tail 0 ≡ replicate b.start 0 ++ replicate size 0 =
      ap (λ n. replicate n zero) {x = tail} {y = b.start + size} (omega arith)
      ∙ replicate-add b.start size 0 in
    let b' : Buffer = record b {
      bytes = copy_at (replicate (b.end + size) 0) 0 c;
      start = 0;
      pooled = false;
    } in
    (
      b',
      ground arith,
      omega (
        arith,
        length-copy_at (replicate (b.end + size) zero) 0 c,
        length-replicate (b.end + size) zero,
      ),
      contents_of b' [] (c ++ replicate b.start 0) (replicate size 0)
          (made ∙ rw (parts, append_assoc) refl) refl
          (omega (arith, length-append c (replicate b.start 0), length-replicate b.start zero)),
      omega (
        arith,
        length-drop b.end b'.bytes,
        length-copy_at (replicate (b.end + size) zero) 0 c,
        length-replicate (b.end + size) zero,
      ),
    )

grow_fits :
    (size : ℕ) (b : Buffer) → ltb (length b.bytes) (b.end + size) ≡ false → grow size b ≡ ok b
unfolding grow
grow_fits size b e = rw e refl

-- ReadFullFrom on a valid buffer appends what the stream has, up to the size asked for, and
-- reports whether that is all. Where the bytes do not fit it first appends a zero for each byte
-- that had been read.
pub read_full_from_lem :
    (stream : List ℕ) (size : ℕ) (b : Buffer)
    → IsValid b
    → (b' : Buffer) × (read_full_from stream size b
        ≡ ok (b', min size (length stream), leb size (length stream)))
      × IsValid b'
      × (contents b'
          ≡ contents b
            ++ (replicate (if ltb (length b.bytes) (b.end + size) then b.start else 0) 0
                ++ take size stream))
unfolding read_full_from
read_full_from_lem stream size b v = elim (Bool-cases (ltb (length b.bytes) (b.end + size))) [
  | inl e ↦
      let (b', made, valid, moved, space) = grown_lem size b v e in
      let (valid', held) = filled_lem stream size b' valid (omega arith) in
      (filled stream size b', rw made refl, valid', rw (e, ← append_assoc, ← moved) held)
  | inr e ↦
      let (valid', held) = filled_lem stream size b v (ground (arith, length-room b v)) in
      (filled stream size b, rw (grow_fits size b e) refl, valid', rw e held)
]

-- NewWithSize panics exactly on sizes above 32 KiB, and makes an empty buffer of 32 KiB otherwise,
-- whatever the pools hand out.
pub new_with_size_lem :
    (pool : ℕ → List ℕ) (size : ℕ)
    → ((default_size < size) × (new_with_size pool size ≡ panic))
      ⊎ ((size ≤ default_size)
          × (b : Buffer) × (new_with_size pool size ≡ ok b)
          × (b.bytes ≡ take default_size (pool default_size))
          × (contents b ≡ []))
unfolding new_with_size new contents tier
new_with_size_lem pool size = elim (Bool-cases (leb size default_size)) [
  | inl e ↦ inr (
    ground arith,
    record { bytes = take default_size (pool default_size); start = 0; end = 0; pooled = true },
    rw e refl,
    refl,
    refl,
  )
  | inr e ↦ inl (ground arith, rw (e, lt→leb_false size (tier size) (ground arith)) refl)
]
