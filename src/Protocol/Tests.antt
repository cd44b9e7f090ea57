-- ===== src/Protocol/Tests.antt =====
-- The request header and the sniffers on concrete streams.
use oiwest_core.Common.{
  ℕ, ◌≡◌, refl, not, ◌&&◌, leb, if◌then◌else◌, List, [], ◌∷◌, ◌++◌, ok, some, none, be16, length,
  drop, replicate, arith,
}
use oiwest_core.Protocol.Sniff.{tls, extract_sni, tls_sniffer, sniff, sniffers}
use oiwest_core.Protocol.Sniff.Extensions.{extensions, name_extension}
use oiwest_core.Protocol.Sniff.Hello.{ClientHello, IsHello, message_of, tls_sniffer-message_of}
use oiwest_core.Protocol.Sniff.Total.{looks, looks_http, looks_tls, sniff_lem}

-- A client hello for the name `a.b`.
abbrev hello : ClientHello
hello = record {
  start = replicate 34 7;
  session = 1 ∷ [];
  ciphers = 19 ∷ 1 ∷ [];
  compression = 0 ∷ [];
  before = record { kind = 43; body = 3 ∷ 4 ∷ [] } ∷ [];
  host = 97 ∷ 46 ∷ 98 ∷ [];
  more = [];
}

hello-IsHello : IsHello hello
unfolding extensions name_extension
hello-IsHello = record {
  start = refl;
  session = omega arith;
  ciphers = omega arith;
  compression = omega arith;
  others = ((omega arith, omega arith, omega arith), tt);
  named = omega arith;
  short = omega arith;
  area = omega arith;
  small = omega arith;
}

tls_sniffer-message_of_example :
    tls_sniffer (22 ∷ 3 ∷ 1 ∷ (be16 (length (message_of hello)) ++ (message_of hello ++ []))) ≡ (
      if leb 1 (length {A = ℕ} [])
      then ok (some (record { protocol = tls; domain = hello.host }))
      else ok none)
unfolding extensions name_extension
tls_sniffer-message_of_example =
    tls_sniffer-message_of hello 1 [] hello-IsHello (omega arith) (omega arith)

sniff_lem_example :
    (name : List ℕ) × (extract_sni (drop 5 (71 ∷ 69 ∷ 84 ∷ 32 ∷ [])) ≡ ok name)
    × (sniff sniffers (71 ∷ 69 ∷ 84 ∷ 32 ∷ [])
        ≡ ok (record {
          protocol = looks (71 ∷ 69 ∷ 84 ∷ 32 ∷ []);
          domain =
              if not (looks_http (71 ∷ 69 ∷ 84 ∷ 32 ∷ [])) && looks_tls (71 ∷ 69 ∷ 84 ∷ 32 ∷ [])
              then name
              else [];
        }))
sniff_lem_example = sniff_lem (71 ∷ 69 ∷ 84 ∷ 32 ∷ [])
