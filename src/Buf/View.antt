-- ===== src/Buf/View.antt =====
-- The rest of app/common/buf/buffer.go: views, Reset, Extend, Slice, Resize and Release.
use oiwest_core.Common.{
  ℕ, ◌+◌, ◌-◌, ◌≤◌, ◌≡◌, refl, Bool, false, ◌&&◌, List, ltb, leb, le→leb, length, replicate,
  copy_at, slice, byte_at, min, Option, none, some, Result, ok, ◌>>◌, in_range, arith,
  if◌then◌else◌, ◌==◌, ◌*◌,
}
use oiwest_core.Buf.{Buffer, Error, default_size, contents, len, write}

-- StackNew.
abbrev pub stack_new : Buffer
stack_new = record { bytes = replicate default_size 0; start = 0; end = 0; pooled = false }

-- Byte.
abbrev pub byte : ℕ → Buffer → Result Error ℕ
byte idx b = do
  in_range (ltb (b.start + idx) (length b.bytes))
  ok (byte_at b.bytes (b.start + idx))

-- BytesFrom.
abbrev pub bytes_from : ℕ → Buffer → Result Error (List ℕ)
bytes_from idx b = do
  in_range (leb (b.start + idx) b.end && leb b.end (length b.bytes))
  ok (slice b.bytes (b.start + idx) b.end)

-- BytesRange.
pub bytes_range : ℕ → ℕ → Buffer → Result Error (List ℕ)
bytes_range from to b = do
  in_range (leb from to && leb (b.start + to) (length b.bytes))
  ok (slice b.bytes (b.start + from) (b.start + to))

-- Cap.
abbrev pub capacity : Buffer → ℕ
capacity b = length b.bytes

-- Reset: the function may write to the array, and answers the new end.
abbrev pub reset : (List ℕ → List ℕ × ℕ) → Buffer → Buffer × ℕ
reset fn b =
    let (bytes, index) = fn b.bytes in (record b { bytes = bytes; start = 0; end = index }, index)

-- Extend: copies from the start of the unread bytes to the end.
abbrev pub extend : ℕ → Buffer → Result Error (Buffer × ℕ)
extend to b = do
  in_range (leb b.end (length b.bytes) && leb (b.start + to) (length b.bytes))
  let n = min (length b.bytes - b.end) to
  let src = slice b.bytes b.start (b.start + to)
  ok (record b { bytes = copy_at b.bytes b.end src; end = b.end + n }, n)

-- WriteBytes.
abbrev pub write_bytes : List ℕ → Buffer → Result Error (Buffer × ℕ × Bool)
write_bytes d b = write d b

-- putBuffer: the array goes to the pool of its capacity, if there is one.
abbrev pub put_buffer : List ℕ → Option (List ℕ)
put_buffer bytes =
    let n = length bytes in
    if n == 32 * 1024
    then some bytes
    else if n == 16 * 1024
    then some bytes
    else if n == 8 * 1024
    then some bytes
    else if n == 4 * 1024
    then some bytes
    else none

-- Release: the buffer, and what goes back to the pools.
pub release : Buffer → Buffer × Option (List ℕ)
release b =
    if b.pooled
    then (record b { start = 0; end = 0; pooled = false }, put_buffer b.bytes)
    else (b, none)

-- Slice: another buffer over the same array.
pub slice_of : ℕ → ℕ → Buffer → Buffer
slice_of from to b = record {
  bytes = b.bytes;
  start = b.start + from;
  end = b.start + to;
  pooled = false;
}

-- Resize: the new end is counted from the new start.
pub resize : ℕ → ℕ → Buffer → Buffer
resize start end b = record b { start = b.start + start; end = b.start + start + end }

-- Slice views the bytes `from` to `to` of the array behind the start, as BytesRange does, and
-- Resize, with the same arguments, as many bytes as its second argument says: the same view only
-- where the first one is zero.
pub slice-resize :
    (from to : ℕ) (b : Buffer)
    → from ≤ to
    → b.start + to ≤ length b.bytes
    → (bytes_range from to b ≡ ok (contents (slice_of from to b)))
      × (len (slice_of from to b) ≡ to - from)
      × (len (resize from to b) ≡ to)
unfolding bytes_range contents slice_of len resize
slice-resize from to b h k =
    (rw (le→leb from to h, le→leb (b.start + to) (length b.bytes) k) refl, omega arith, omega arith)

-- A buffer gives its array back at most once: after Release it is no longer pooled and a second
-- Release changes nothing and gives nothing back.
pub release_once : (b : Buffer) → release (release b).0 ≡ ((release b).0, none)
unfolding release
release_once b = ground arith
