-- ===== src/Dccp/Options/Laws.antt =====
-- What is left of the builders' options on the wire.
use oiwest_core.Common.{
  ℕ, suc, ◌+◌, ◌-◌, ◌%◌, ◌<◌, ◌≡◌, refl, sym, ap, ◌∙◌, List, [], ◌∷◌, ◌++◌, length, length-append,
  length-take, take, arith,
}
use oiwest_core.Common.Copying.{take-append_length}
use oiwest_core.Dccp.Types.{Header, Opt}
use oiwest_core.Dccp.OptionType
use oiwest_core.Dccp.Packet.{encode}
use oiwest_core.Dccp.Packet.Writes.{IsSound}
use oiwest_core.Dccp.Packet.Clip.{clip, clip_all, encode-clip}
use oiwest_core.Dccp.Options.{
  with_value, build_feature, build_change_l, build_confirm_l, build_change_r, build_confirm_r,
  build_timestamp, build_timestamp_echo, build_ack_vector, build_data_checksum, build_elapsed_time,
  build_slow_receiver, build_data_dropped, build_min_csum, build_init_cookie,
}

-- Two options that EncodeDCCPPacket does not tell apart, whatever the header, the other options
-- and the payload.
abbrev pub SameOnWire : Opt → Opt → Type 0
SameOnWire o p =
    (hdr : Header) (os : List Opt) (payload : List ℕ)
    → encode hdr (o ∷ os) payload ≡ encode hdr (p ∷ os) payload

same_clip : (o p : Opt) → clip o ≡ clip p → SameOnWire o p
unfolding clip_all
same_clip o p e hdr os payload =
    sym (encode-clip hdr (o ∷ os) payload)
    ∙ ap (λ q. encode hdr (q ∷ clip_all os) payload) e
    ∙ encode-clip hdr (p ∷ os) payload

with_value-clip :
    (kind feature last : ℕ) (value : List ℕ)
    → length value < 252
    → clip (with_value kind feature (value ++ last ∷ [])) ≡ record {
      option_type = kind;
      len = length value + 4;
      body = feature ∷ (length value + 1) ∷ value;
    }
with_value-clip kind feature last value h =
    let size = length-append value (last ∷ []) in
    let n : (3 + length (value ++ last ∷ [])) % 256 ≡ suc (suc (suc (suc (length value)))) =
      omega arith in
    let m : length (value ++ last ∷ []) % 256 ≡ length value + 1 = omega arith in
    let cut : take (suc (suc (suc (suc (length value)))) - 2)
          (feature ∷ (length value + 1) ∷ (value ++ last ∷ []))
        ≡ feature ∷ (length value + 1) ∷ value =
      ap (λ k. take k (feature ∷ (length value + 1) ∷ (value ++ last ∷ [])))
        {y = suc (suc (length value))} (omega arith)
      ∙ ap (λ r. feature ∷ (length value + 1) ∷ r)
          (take-append_length (length value) value (last ∷ []) refl) in
    rw (n, m, cut)
      (ap (λ k. record { option_type = kind; len = k; body = feature ∷ (length value + 1) ∷ value })
        {y = length value + 4} (omega arith))

with_value_lost :
    (kind feature x y : ℕ) (value : List ℕ)
    → length value < 252
    → SameOnWire
        (with_value kind feature (value ++ x ∷ []))
        (with_value kind feature (value ++ y ∷ []))
with_value_lost kind feature x y value h =
    same_clip _ _
      (with_value-clip kind feature x value h ∙ sym (with_value-clip kind feature y value h))

-- The five options that carry a value lose its last byte: for values of at most 252 bytes that
-- differ in the last byte only, EncodeDCCPPacket writes the same packet.
pub last_byte_lost :
    (feature x y : ℕ) (value : List ℕ)
    → length value < 252
    → SameOnWire (build_feature feature (value ++ x ∷ [])) (build_feature feature (value ++ y ∷ []))
      × SameOnWire
          (build_change_l feature (value ++ x ∷ []))
          (build_change_l feature (value ++ y ∷ []))
      × SameOnWire
          (build_confirm_l feature (value ++ x ∷ []))
          (build_confirm_l feature (value ++ y ∷ []))
      × SameOnWire
          (build_change_r feature (value ++ x ∷ []))
          (build_change_r feature (value ++ y ∷ []))
      × SameOnWire
          (build_confirm_r feature (value ++ x ∷ []))
          (build_confirm_r feature (value ++ y ∷ []))
unfolding build_feature build_change_l build_confirm_l build_change_r build_confirm_r
last_byte_lost feature x y value h = (
  with_value_lost OptionType.feature feature x y value h,
  with_value_lost OptionType.change_l feature x y value h,
  with_value_lost OptionType.confirm_l feature x y value h,
  with_value_lost OptionType.change_r feature x y value h,
  with_value_lost OptionType.confirm_r feature x y value h,
)

-- The other options count their data right and so survive encoding and decoding: the timestamps,
-- an acknowledgement vector of at most 253 bytes, the options without data, the slow receiver's
-- and the dropped data's, and a cookie of at most 247 bytes with a service code of four.
pub builders-IsSound :
    (now rate code block : ℕ) (ts acks cookie service : List ℕ)
    → length acks < 254
    → length cookie < 248
    → length service ≡ 4
    → IsSound (build_timestamp now)
      × IsSound (build_timestamp_echo ts)
      × IsSound (build_ack_vector acks)
      × IsSound build_data_checksum
      × IsSound build_elapsed_time
      × IsSound (build_slow_receiver rate)
      × IsSound (build_data_dropped code block)
      × IsSound build_min_csum
      × IsSound (build_init_cookie cookie service)
unfolding build_timestamp build_timestamp_echo build_ack_vector build_data_checksum
    build_elapsed_time build_slow_receiver build_data_dropped build_min_csum build_init_cookie
builders-IsSound now rate code block ts acks cookie service h k l = (
  record { counted = refl; no_padding = omega arith },
  record { counted = ground (arith, length-take 8 ts); no_padding = omega arith },
  record { counted = omega arith; no_padding = omega arith },
  record { counted = refl; no_padding = omega arith },
  record { counted = refl; no_padding = omega arith },
  record { counted = refl; no_padding = omega arith },
  record { counted = refl; no_padding = omega arith },
  record { counted = refl; no_padding = omega arith },
  record { counted = omega (arith, length-append cookie service); no_padding = omega arith },
)
