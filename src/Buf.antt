-- ===== src/Buf.antt =====
-- The byte buffer of app/common/buf/buffer.go. `bytes` is the backing array, of which `start` to
-- `end` is unread. A slice expression or index out of range is a panic.
pub mod Split
pub mod Contents
pub mod Fill
pub mod Life
pub mod View
mod Tests
use oiwest_core.Common.{
  ℕ, ◌+◌, ◌-◌, ◌*◌, Bool, true, false, ◌&&◌, ◌||◌, List, [], ◌∷◌, ◌++◌, ltb, leb, ◌==◌,
  if◌then◌else◌, length, set, take, drop, replicate, copy_at, slice, byte_at, Result, ok, err,
  panic, ◌>>=◌, ◌>>◌, in_range, min,
}

pub record Buffer : Type 0 where
  pub bytes : List ℕ
  pub start : ℕ
  pub end : ℕ
  pub pooled : Bool

pub data Error : Type 0 where
  short_buffer eof unexpected_eof : Error

-- Size.
abbrev pub default_size : ℕ
default_size = 32 * 1024

-- The capacity of the slice that getBuffer takes from its pools.
pub tier : ℕ → ℕ
tier size =
    if leb (24 * 1024) size
    then 32 * 1024
    else if leb (12 * 1024) size
    then 16 * 1024
    else if leb (6 * 1024) size
    then 8 * 1024
    else 4 * 1024

-- The pools hand out slices with whatever the last user left in them: `pool n` is one of
-- capacity n.
pub new : (ℕ → List ℕ) → Result Error Buffer
unfolding tier
new pool = do
  in_range (leb default_size (tier default_size))
  ok (record {
    bytes = take default_size (pool (tier default_size));
    start = 0;
    end = 0;
    pooled = true;
  })

-- NewWithSize: `b[:size]` panics past the capacity.
pub new_with_size : (ℕ → List ℕ) → ℕ → Result Error Buffer
unfolding tier
new_with_size pool size = if leb size default_size then new pool else (do
  in_range (leb size (tier size))
  ok (record { bytes = take size (pool (tier size)); start = 0; end = 0; pooled = true }))

pub len : Buffer → ℕ
len b = b.end - b.start

pub is_empty : Buffer → Bool
is_empty b = b.start == b.end

pub is_full : Buffer → Bool
is_full b = b.end == length b.bytes

-- Bytes().
pub contents : Buffer → List ℕ
contents b = slice b.bytes b.start b.end

abbrev pub clear : Buffer → Buffer
clear b = record b { start = 0; end = 0 }

-- Advance.
abbrev pub advance : ℕ → Buffer → Buffer
advance from b = record b { start = b.start + from }

-- Write: as many bytes as fit, and whether all did.
pub write : List ℕ → Buffer → Result Error (Buffer × ℕ × Bool)
write src b = do
  in_range (leb b.end (length b.bytes))
  let n = min (length b.bytes - b.end) (length src)
  ok (record b { bytes = copy_at b.bytes b.end src; end = b.end + n }, n, ltb n (length src))

-- WriteByte.
abbrev pub write_byte : ℕ → Buffer → Result Error Buffer
unfolding is_full
write_byte d b = if is_full b then err short_buffer else (do
  in_range (ltb b.end (length b.bytes))
  ok (record b { bytes = set b.bytes b.end d; end = b.end + 1 }))

-- Read into a slice of `size` bytes: what is copied there.
pub read : ℕ → Buffer → Result Error (Buffer × List ℕ)
unfolding is_empty
read size b = if is_empty b then err eof else (do
  in_range (leb b.start b.end && leb b.end (length b.bytes))
  let n = min size (b.end - b.start)
  ok (record b { start = b.start + n }, take n (slice b.bytes b.start b.end)))

-- ReadByte.
abbrev pub read_byte : Buffer → Result Error (Buffer × ℕ)
unfolding is_empty
read_byte b = if is_empty b then err eof else (do
  in_range (ltb b.start (length b.bytes))
  ok (record b { start = b.start + 1 }, byte_at b.bytes b.start))

-- The room that ReadFullFrom makes: a new array if the bytes asked for do not fit. The unread bytes
-- move to its start, and `end` stays.
pub grow : ℕ → Buffer → Result Error Buffer
grow size b =
    if ltb (length b.bytes) (b.end + size)
    then (do
      in_range (leb b.start b.end && leb b.end (length b.bytes))
      let fresh = replicate (b.end + size) 0
      ok (record b {
        bytes = copy_at fresh 0 (slice b.bytes b.start b.end);
        start = 0;
        pooled = false;
      }))
    else ok b

-- ReadFullFrom on a stream: the buffer, how many bytes came, and whether they are all.
pub read_full_from : List ℕ → ℕ → Buffer → Result Error (Buffer × ℕ × Bool)
read_full_from stream size b = do
  b' ← grow size b
  let n = min size (length stream)
  ok (
    record b' { bytes = copy_at b'.bytes b'.end (take n stream); end = b'.end + n },
    n,
    leb size (length stream),
  )

-- Clone: a buffer of its own with the same contents.
abbrev pub clone : (ℕ → List ℕ) → Buffer → Result Error Buffer
clone pool b = do
  in_range (leb b.start b.end && leb b.end (length b.bytes))
  nb ← new_with_size pool (len b)
  let n = min (length nb.bytes) (length (contents b))
  ok (record nb { bytes = copy_at nb.bytes 0 (contents b); end = n })
