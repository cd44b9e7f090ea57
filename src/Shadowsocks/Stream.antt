-- ===== src/Shadowsocks/Stream.antt =====
-- The stream of frames as a sequence of bytes.
use oiwest_core.Common.{
  ℕ, ◌+◌, ◌-◌, ◌^◌, ◌≤◌, ◌<◌, ◌≡◌, ap, List, [], ◌∷◌, ◌++◌, length, slice, ◌==◌, if◌then◌else◌,
  be16, ok, bind_ok, arith, min,
}
use oiwest_core.Shadowsocks.{Lib, Method, Reader, encrypt, write}
use oiwest_core.Shadowsocks.Key.{Opens}

-- The bytes that a reader still holds.
abbrev pub pending : Reader → List ℕ
pending r = slice r.buf r.offset (r.offset + r.length_)

pub record IsValid (r : Reader) : Type 0 where
  pub bounded : r.offset + r.length_ ≤ length r.buf

abbrev pub flatten : List (List ℕ) → List ℕ
flatten [] = []
flatten (x ∷ xs) = x ++ flatten xs

module _ (lib : Lib) (m : Method) (key : List ℕ) where
  -- A stream that the writer made of these plaintexts, in frames that fit the length field.
  pub data Written : List (List ℕ) → List ℕ → Type 0 where
    nothing : Written [] []
    frame :
        {plains : List (List ℕ)} {stream : List ℕ} (nonce plain packet : List ℕ)
        → Opens lib m key nonce plain
        → encrypt lib m nonce plain key ≡ ok packet
        → length packet < 2 ^ 16
        → Written plains stream
        → Written (plain ∷ plains) ((be16 (length packet) ++ packet) ++ stream)

  -- Every write of a frame that fits makes such a stream longer at its front.
  pub write-Written :
      {plains : List (List ℕ)} {stream : List ℕ} (nonce plain bytes : List ℕ)
      → Opens lib m key nonce plain
      → write lib m key nonce plain ≡ ok bytes
      → length bytes < 2 ^ 16 + 2
      → Written plains stream
      → Written (plain ∷ plains) (bytes ++ stream)
  unfolding write
  write-Written nonce plain bytes h e l w =
      let (packet, made, same) = bind_ok (encrypt lib m nonce plain key) _ e in
      let same' : be16 (length packet) ++ packet ≡ bytes = cc same in
      let small : length packet < 2 ^ 16 = omega (arith, ap length same') in
      rw (← same') (frame nonce plain packet h made small w)

  -- A read from what the reader holds.
  abbrev taken : ℕ → Reader → Reader
  taken size r =
      let n = min size r.length_ in
      record r { offset = if r.length_ - n == 0 then 0 else r.offset + n; length_ = r.length_ - n }
