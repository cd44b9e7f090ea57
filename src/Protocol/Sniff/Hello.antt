-- ===== src/Protocol/Sniff/Hello.antt =====
-- The server name of a well-formed client hello.
use oiwest_core.Common.{
  none, some, ℕ, suc, ◌+◌, ◌-◌, ◌*◌, ◌/◌, ◌%◌, ◌^◌, ◌≤◌, ◌<◌, ◌≡◌, true, List, ◌∷◌, ◌++◌, leb,
  if◌then◌else◌, length, length-append, take, be16, append_assoc, All, ok, arith, le→leb,
  le→ltb_false, lt→ltb,
}
use oiwest_core.Common.Copying.{take-append_length}
use oiwest_core.Protocol.Sniff.{
  tls, tls_sniffer, at_extensions, at_compression, at_ciphers, at_session, extract_sni,
}
use oiwest_core.Protocol.Sniff.Extensions.{
  Extension, IsOther, extensions, name_extension, length-name_extension, length-extensions,
  loop_lem,
}
use oiwest_core.Common.Reading.{u16_at-skip, byte_at-skip}

-- A client hello: 34 bytes of version and random, the session, the ciphers, the compression methods, other
-- extensions, the server name, and whatever extensions follow it.
pub record ClientHello : Type 0 where
  pub start : List ℕ
  pub session : List ℕ
  pub ciphers : List ℕ
  pub compression : List ℕ
  pub before : List Extension
  pub host : List ℕ
  pub more : List ℕ

abbrev pub extension_area : ClientHello → List ℕ
extension_area c = extensions c.before ++ (name_extension c.host ++ c.more)

abbrev pub from_extensions : ClientHello → List ℕ
from_extensions c = be16 (length (extension_area c)) ++ extension_area c

abbrev pub from_compression : ClientHello → List ℕ
from_compression c = length c.compression ∷ (c.compression ++ from_extensions c)

abbrev pub from_ciphers : ClientHello → List ℕ
from_ciphers c = be16 (length c.ciphers) ++ (c.ciphers ++ from_compression c)

abbrev pub payload_of : ClientHello → List ℕ
payload_of c = c.start ++ (length c.session ∷ (c.session ++ from_ciphers c))

-- The message of the handshake: its type, the length of the payload in three bytes, the payload.
abbrev pub message_of : ClientHello → List ℕ
message_of c =
    let n = length (payload_of c) in
    1 ∷ (n / 2 ^ 16 % 256) ∷ (n / 2 ^ 8 % 256) ∷ (n % 256) ∷ payload_of c

pub record IsHello (c : ClientHello) : Type 0 where
  pub start : length c.start ≡ 34
  pub session : length c.session < 256
  pub ciphers : length c.ciphers < 2 ^ 16
  pub compression : length c.compression < 256
  pub others : All IsOther c.before
  pub named : 0 < length c.host
  pub short : length c.host < 253
  pub area : length (extension_area c) < 2 ^ 16
  pub small : length (payload_of c) < 2 ^ 24

module _ (c : ClientHello) (v : IsHello c) where
  in_extensions : (pre : List ℕ) → at_extensions (pre ++ from_extensions c) (length pre) ≡ ok c.host
  unfolding at_extensions
  in_extensions pre =
      let area = extension_area c in
      let n = u16_at-skip pre area (length area) v.area in
      let size = length-append pre (from_extensions c) in
      let part = length-append (extensions c.before) (name_extension c.host ++ c.more) in
      let name = length-append (name_extension c.host) c.more in
      let count = length-extensions c.before in
      let on : length pre + 2 ≡ length (pre ++ be16 (length area)) =
        omega (arith, length-append pre (be16 (length area))) in
      rw
        (
          le→ltb_false (length (pre ++ from_extensions c)) (length pre + 2) (omega arith),
          le→leb (length pre + 2) (length (pre ++ from_extensions c)) (omega arith),
          n,
          on,
          ← append_assoc pre (be16 (length area)) area,
        )
        (loop_lem c.before _ (pre ++ be16 (length area)) c.host c.more _ v.others v.named v.short
          (omega (arith, length-append (pre ++ be16 (length area)) area))
          (omega (arith, length-name_extension c.host)))

  in_compression :
      (pre : List ℕ) → at_compression (pre ++ from_compression c) (length pre) ≡ ok c.host
  unfolding at_compression
  in_compression pre =
      let n = byte_at-skip pre (from_compression c) (length pre) 0 (omega arith) in
      let size = length-append pre (from_compression c) in
      let head : List ℕ = length c.compression ∷ c.compression in
      let on : length pre + 1 + length c.compression ≡ length (pre ++ head) =
        omega (arith, length-append pre head) in
      rw
        (
          le→ltb_false (length (pre ++ from_compression c)) (length pre + 1) (omega arith),
          lt→ltb (length pre) (length (pre ++ from_compression c)) (omega arith),
          n,
          on,
          ← append_assoc pre head (from_extensions c),
        )
        (in_extensions (pre ++ head))

  in_ciphers : (pre : List ℕ) → at_ciphers (pre ++ from_ciphers c) (length pre) ≡ ok c.host
  unfolding at_ciphers
  in_ciphers pre =
      let n = u16_at-skip pre (c.ciphers ++ from_compression c) (length c.ciphers) v.ciphers in
      let size = length-append pre (from_ciphers c) in
      let head : List ℕ = be16 (length c.ciphers) ++ c.ciphers in
      let on : length pre + 2 + length c.ciphers ≡ length (pre ++ head) =
        omega (arith, length-append pre head) in
      rw
        (
          le→ltb_false (length (pre ++ from_ciphers c)) (length pre + 2) (omega arith),
          le→leb (length pre + 2) (length (pre ++ from_ciphers c)) (omega arith),
          n,
          on,
          ← append_assoc pre head (from_compression c),
        )
        (in_compression (pre ++ head))

  in_session : at_session (payload_of c) ≡ ok c.host
  unfolding at_session
  in_session =
      let tail : List ℕ = length c.session ∷ (c.session ++ from_ciphers c) in
      let n = byte_at-skip c.start tail 34 0 (omega (arith, v.start)) in
      let head : List ℕ = length c.session ∷ c.session in
      let on : 34 + (1 + length c.session) ≡ length (c.start ++ head) =
        omega (arith, v.start, length-append c.start head) in
      let size : 42 ≤ length (payload_of c) = omega (
        arith,
        v.start,
        v.named,
        length-append c.start tail,
        length-append c.session (from_ciphers c),
        length-append c.ciphers (from_compression c),
        length-append c.compression (from_extensions c),
        length-append (extensions c.before) (name_extension c.host ++ c.more),
        length-append (name_extension c.host) c.more,
        length-name_extension c.host,
      ) in
      rw
        (
          le→ltb_false (length (payload_of c)) 42 size,
          lt→ltb 34 (length (payload_of c)) (omega arith),
          n,
          on,
          ← append_assoc c.start head (from_ciphers c),
        )
        (in_ciphers (c.start ++ head))

  pub extract_sni-message_of : (after_ : List ℕ) → extract_sni (message_of c ++ after_) ≡ ok c.host
  unfolding extract_sni
  extract_sni-message_of after_ =
      let p = payload_of c in
      let n : length p / 2 ^ 16 % 256 * 2 ^ 16 + length p / 2 ^ 8 % 256 * 2 ^ 8 + length p % 256
          ≡ length p =
        omega (arith, v.small) in
      let start = length-append c.start (length c.session ∷ (c.session ++ from_ciphers c)) in
      let size : length (p ++ after_) ≡ length p + length after_ = length-append p after_ in
      let all = suc (suc (suc (suc (length (p ++ after_))))) in
      let cut : take (4 + length p - 4) (p ++ after_) ≡ p =
        take-append_length (4 + length p - 4) p after_ (omega arith) in
      rw
        (
          n,
          le→ltb_false all 5 (omega (arith, size, start)),
          le→ltb_false all (4 + length p) (omega (arith, size)),
          le→leb (4 + length p) all (omega (arith, size)),
          cut,
        )
        in_session

-- tlsSniffer on the record of a client hello: it finds the name if at least one byte follows the record,
-- and nothing if the record is all there is.
pub tls_sniffer-message_of :
    (c : ClientHello) (version : ℕ) (after_ : List ℕ)
    → IsHello c
    → version ≤ 3
    → length (message_of c) < 2 ^ 16
    → tls_sniffer (22 ∷ 3 ∷ version ∷ (be16 (length (message_of c)) ++ (message_of c ++ after_)))
      ≡ (if leb 1 (length after_)
          then ok (some (record { protocol = tls; domain = c.host }))
          else ok none)
unfolding tls_sniffer
tls_sniffer-message_of c version after_ v w s =
    let m = message_of c in
    let p = payload_of c in
    let n : length m / 256 % 256 * 256 + length m % 256 ≡ length m = omega arith in
    let size : length (p ++ after_) ≡ length p + length after_ = length-append p after_ in
    let low : leb version 3 ≡ true = le→leb version 3 w in
    let found = extract_sni-message_of c v after_ in ground (arith, n, size, low, found)
