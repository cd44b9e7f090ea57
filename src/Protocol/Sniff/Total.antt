-- ===== src/Protocol/Sniff/Total.antt =====
-- Sniffing on any bytes.
use oiwest_core.Common.{
  ℕ, zero, suc, ◌+◌, ◌*◌, ◌/◌, ◌%◌, ◌^◌, ◌<◌, ◌≡◌, refl, inl, inr, Bool, true, false, not, ◌&&◌,
  ◌||◌, List, [], ltb, leb, ◌==◌, if◌then◌else◌, length, slice, drop, byte_at, u16_at, Bool-cases,
  Result, ok, ◌>>◌, in_range, arith, le→leb,
}
use oiwest_core.Dccp.Types.{Error}
use oiwest_core.Protocol.Sniff.{
  Sniffed, http, tls, dns, unknown, is_method, http_sniffer, name_of, server_name, extension_loop,
  at_extensions, at_compression, at_ciphers, at_session, extract_sni, tls_sniffer, dns_sniffer,
  after, sniff, sniffers,
}

-- A value, and neither an error nor a panic.
abbrev pub Answers {ℓ} : {A : Type ℓ} → Result Error A → Type ℓ
Answers {A = A} r = (a : A) × (r ≡ ok a)

name_of-Answers : (sni : List ℕ) → Answers (name_of sni)
unfolding name_of
name_of-Answers sni = elim (Bool-cases (ltb 5 (length sni) && byte_at sni 0 == 0)) [
  | inr e ↦ ([], rw e refl)
  | inl e ↦ elim (Bool-cases (leb (5 + u16_at sni 3) (length sni))) [
    | inl f ↦ (slice sni 5 (5 + u16_at sni 3), ground arith)
    | inr f ↦ ([], ground arith)
  ]
]

server_name-Answers :
    (payload : List ℕ) (offset n end : ℕ) → Answers (server_name payload offset n end)
unfolding server_name
server_name-Answers payload offset n end =
    let (name, e) = name_of-Answers (slice payload offset (offset + n)) in
    elim (Bool-cases (ltb end (offset + n) || ltb (length payload) (offset + n))) [
      | inl out ↦ ([], rw out refl)
      | inr in_ ↦
          let bound = le→leb (offset + n) (length payload) (ground arith) in
          (name, rw (in_, bound) e)
    ]

extension_loop-Answers :
    (fuel : ℕ) (payload : List ℕ) (offset end : ℕ)
    → length payload < fuel + offset
    → 0 < fuel
    → Answers (extension_loop fuel payload offset end)
unfolding extension_loop
extension_loop-Answers zero payload offset end h p = elim p [ ]
extension_loop-Answers (suc fuel) payload offset end h p =
    elim (Bool-cases (leb (offset + 4) end && leb (offset + 4) (length payload))) [
      | inr done ↦ ([], rw (done, extension_loop) refl)
      | inl more ↦
          let n = u16_at payload (offset + 2) in
          let (name, e) = server_name-Answers payload (offset + 4) n end in
          let (name', e') =
            extension_loop-Answers fuel payload (offset + 4 + n) end (omega arith) (ground arith) in
          let bound = le→leb (offset + 4) (length payload) (ground arith) in
          elim (Bool-cases (u16_at payload offset == 0)) [
            | inl sni ↦ (name, rw (more, extension_loop, bound, sni) e)
            | inr other ↦ (name', rw (more, extension_loop, bound, other) e')
          ]
    ]

-- An early return before a bounds check that it implies.
guarded :
    (stop fits : Bool) (r : Result Error (List ℕ))
    → (stop ≡ false → fits ≡ true)
    → Answers r
    → Answers (if stop then ok [] else (in_range fits >> r))
guarded true fits r h a = ([], refl)
guarded false true r h a = a
guarded false false r h a = ([], cc (h refl))

at_extensions-Answers : (payload : List ℕ) (offset : ℕ) → Answers (at_extensions payload offset)
unfolding at_extensions
at_extensions-Answers payload offset =
    guarded _ _ _ (λ e. le→leb (offset + 2) (length payload) (ground arith))
      (extension_loop-Answers (length payload + 1) payload _ _ (omega arith) (omega arith))

at_compression-Answers : (payload : List ℕ) (offset : ℕ) → Answers (at_compression payload offset)
unfolding at_compression
at_compression-Answers payload offset =
    guarded _ _ _ (λ e. ground arith) (at_extensions-Answers payload _)

at_ciphers-Answers : (payload : List ℕ) (offset : ℕ) → Answers (at_ciphers payload offset)
unfolding at_ciphers
at_ciphers-Answers payload offset =
    guarded _ _ _ (λ e. le→leb (offset + 2) (length payload) (ground arith))
      (at_compression-Answers payload _)

at_session-Answers : (payload : List ℕ) → Answers (at_session payload)
unfolding at_session
at_session-Answers payload = guarded _ _ _ (λ e. ground arith) (at_ciphers-Answers payload _)

-- extractSNI on any bytes answers a name, which may be empty: it reads nothing outside of them and its
-- loop ends within its fuel.
pub extract_sni-Answers : (bytes : List ℕ) → Answers (extract_sni bytes)
unfolding extract_sni
extract_sni-Answers bytes =
    let n = byte_at bytes 1 * 2 ^ 16 + byte_at bytes 2 * 2 ^ 8 + byte_at bytes 3 in
    let rest =
      guarded (ltb (length bytes) (4 + n)) (leb (4 + n) (length bytes)) _
        (λ e. le→leb (4 + n) (length bytes) (ground arith))
        (at_session-Answers (slice bytes 4 (4 + n))) in
    elim (Bool-cases (ltb (length bytes) 5)) [
      | inl short ↦ ([], rw short refl)
      | inr long ↦ elim (Bool-cases (byte_at bytes 0 == 1)) [
        | inr other ↦ ([], rw (long, other) refl)
        | inl hello ↦ (rest.0, rw (long, hello) rest.1)
      ]
    ]

-- What bytes look like.
abbrev pub looks_http : List ℕ → Bool
looks_http bytes = leb 4 (length bytes) && is_method bytes

abbrev pub looks_tls : List ℕ → Bool
looks_tls bytes =
    leb 6 (length bytes)
    && (byte_at bytes 0 == 22 && byte_at bytes 1 == 3 && leb (byte_at bytes 2) 3)
    && leb (6 + u16_at bytes 3) (length bytes)

abbrev pub looks_dns : List ℕ → Bool
looks_dns bytes =
    leb 12 (length bytes) && (byte_at bytes 2 / 128 % 2 == 0 && byte_at bytes 3 % 16 == 0)

-- The first of these that holds.
abbrev pub looks : List ℕ → ℕ
looks bytes =
    if looks_http bytes
    then http
    else if looks_tls bytes
    then tls
    else if looks_dns bytes
    then dns
    else unknown

after-http_sniffer :
    (rest : Result Error Sniffed) (bytes : List ℕ)
    → after rest (http_sniffer bytes)
      ≡ (if looks_http bytes then ok (record { protocol = http; domain = [] }) else rest)
unfolding http_sniffer after
after-http_sniffer rest bytes = ground arith

after-dns_sniffer :
    (rest : Result Error Sniffed) (bytes : List ℕ)
    → after rest (dns_sniffer bytes)
      ≡ (if looks_dns bytes then ok (record { protocol = dns; domain = [] }) else rest)
unfolding dns_sniffer after
after-dns_sniffer rest bytes = ground arith

after-tls_sniffer :
    (rest : Result Error Sniffed) (bytes name : List ℕ)
    → extract_sni (drop 5 bytes) ≡ ok name
    → after rest (tls_sniffer bytes)
      ≡ (if looks_tls bytes then ok (record { protocol = tls; domain = name }) else rest)
unfolding tls_sniffer after
after-tls_sniffer rest bytes name e = ground arith

-- Sniff with the sniffers that are registered answers on any bytes: HTTP for the start of a request, else
-- TLS for a record of a handshake that has one byte more than it says, else DNS for the header of a
-- query, else unknown; the domain of a TLS record is the one that extractSNI finds, and all others
-- have none.
pub sniff_lem :
    (bytes : List ℕ)
    → (name : List ℕ) × (extract_sni (drop 5 bytes) ≡ ok name)
      × (sniff sniffers bytes
          ≡ ok (record {
            protocol = looks bytes;
            domain = if not (looks_http bytes) && looks_tls bytes then name else [];
          }))
unfolding sniffers sniff
sniff_lem bytes =
    let (name, e) = extract_sni-Answers (drop 5 bytes) in
    (
      name,
      e,
      rw
          (
            after-http_sniffer
                (after (after (ok (record { protocol = unknown; domain = [] })) (dns_sniffer bytes))
                  (tls_sniffer bytes))
                bytes,
            after-tls_sniffer
                (after (ok (record { protocol = unknown; domain = [] })) (dns_sniffer bytes)) bytes
                name e,
            after-dns_sniffer (ok (record { protocol = unknown; domain = [] })) bytes,
          )
          (choice (looks_http bytes) (looks_tls bytes) (looks_dns bytes) name),
    )
  where
    found : ℕ → List ℕ → Result Error Sniffed
    found p d = ok (record { protocol = p; domain = d })

    choice :
        (h t d : Bool) (name : List ℕ)
        → (if h
            then ok (record { protocol = http; domain = [] })
            else if t
            then ok (record { protocol = tls; domain = name })
            else if d
            then ok (record { protocol = dns; domain = [] })
            else found unknown [])
          ≡ found
              (if h then http else if t then tls else if d then dns else unknown)
              (if not h && t then name else [])
    choice true t d name = refl
    choice false true d name = refl
    choice false false true name = refl
    choice false false false name = refl
