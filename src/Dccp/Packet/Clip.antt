-- ===== src/Dccp/Packet/Clip.antt =====
-- Options whose data is longer than their length byte says.
use oiwest_core.Common.{ℕ, zero, suc, ◌-◌, ◌+◌, ◌≡◌, refl, ap, List, [], ◌∷◌, take}
use oiwest_core.Dccp.Types.{Header, Opt}
use oiwest_core.Dccp.Packet.{option_size, write_options, write_body, encode}

abbrev pub clip : Opt → Opt
clip o = record o { body = take (o.len - 2) o.body }

unfoldable pub clip_all : List Opt → List Opt
clip_all [] = []
clip_all (o ∷ os) = clip o ∷ clip_all os

take-take : (n : ℕ) (xs : List ℕ) → take n (take n xs) ≡ take n xs
take-take zero xs = refl
take-take (suc n) [] = refl
take-take (suc n) (x ∷ xs) = ap (λ r. x ∷ r) (take-take n xs)

option_size-clip : (os : List Opt) → option_size (clip_all os) ≡ option_size os
unfolding option_size clip_all
option_size-clip [] = refl
option_size-clip (o ∷ os) = ap (λ n. o.len + n) (option_size-clip os)

write_options-clip :
    (os : List Opt) (offset : ℕ) (buf : List ℕ)
    → write_options (clip_all os) offset buf ≡ write_options os offset buf
unfolding write_options clip_all
write_options-clip [] offset buf = refl
write_options-clip (o ∷ os) offset buf = simp (take-take, write_options-clip os)

-- EncodeDCCPPacket writes what it writes for the clipped options.
pub encode-clip :
    (hdr : Header) (os : List Opt) (payload : List ℕ)
    → encode hdr (clip_all os) payload ≡ encode hdr os payload
unfolding encode write_body
encode-clip hdr os payload = simp (option_size-clip, write_options-clip)
