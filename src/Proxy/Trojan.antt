-- ===== src/Proxy/Trojan.antt =====
-- app/proxy/trojan/trojan.go: the client's request and the server's handshake. SHA-224 of
-- crypto/sha256 is the parameter `sha224`.
use oiwest_core.Common.{
  sym, be16, append_assoc, ℕ, zero, suc, ◌^◌, ◌≤◌, ◌<◌, ◌≡◌, ◌≢◌, refl, ap, Bool, true, false, ◌&&◌,
  ◌||◌, List, [], ◌∷◌, ◌++◌, ◌==◌, length, take, drop, byte_at, Result, ok, err, arith, map, check,
  ◌>>=◌, ◌>>◌,
}
use oiwest_core.Common.Copying.{drop-append_length}
use oiwest_core.Proxy.{Error, auth_failed, unknown_command, invalid_crlf, Target, read_full}
use oiwest_core.Proxy.Address.{
  IsDistinct, Codes, address_bytes, host_bytes, read_address, read_address-host_bytes,
  host_bytes_split, IsHost, read_full-append, read_full_enough,
}
use oiwest_core.Proxy.Hex
use oiwest_core.Router.{text_eq}

abbrev pub codes : Codes
codes = record { four = 1; name = 3; six = 4 }

distinct : IsDistinct codes
distinct = (λ h. omega (arith, h), λ h. omega (arith, h), λ h. omega (arith, h))

module _ (sha224 : List ℕ → List ℕ) where
  unfoldable pub hash_password : List ℕ → List ℕ
  hash_password password = Hex.encode (sha224 password)

  -- The keys of the user map.
  unfoldable pub new_inbound : List (List ℕ) → List (List ℕ)
  unfolding hash_password
  new_inbound passwords = map hash_password passwords

  unfoldable pub build_request : List ℕ → Target → List ℕ
  unfolding address_bytes
  build_request password target =
      sha224 password ++ 13 ∷ 10 ∷ 1 ∷ address_bytes codes target ++ 13 ∷ 10 ∷ []

-- A look-up in the user map.
unfoldable pub contains : List (List ℕ) → List ℕ → Bool
contains [] key = false
contains (k ∷ ks) key = text_eq k key || contains ks key

unfoldable pub parse_address : ℕ → List ℕ → Result Error (Target × List ℕ)
parse_address cmd stream = do
  check (cmd == 1) unknown_command
  (kind, rest) ← read_full 1 stream
  read_address codes 0 (byte_at kind 0) rest

-- What follows the password. The second line break is read and not looked at.
unfoldable pub read_request : List ℕ → Result Error (Target × List ℕ)
unfolding parse_address
read_request stream = do
  (crlf, stream₁) ← read_full 2 stream
  check (byte_at crlf 0 == 13 && byte_at crlf 1 == 10) invalid_crlf
  (cmd, stream₂) ← read_full 1 stream₁
  (target, rest) ← parse_address (byte_at cmd 0) stream₂
  ok (target, drop 2 rest)

unfoldable pub handshake : List (List ℕ) → List ℕ → Result Error (Target × List ℕ)
unfolding contains read_request Hex.encode
handshake users stream = do
  (password, rest) ← read_full 56 stream
  check (contains users (Hex.encode password)) auth_failed
  read_request rest

text_eq-length : (k key : List ℕ) → length k ≢ length key → text_eq k key ≡ false
unfolding text_eq
text_eq-length [] [] h = absurd (h refl)
text_eq-length [] (y ∷ ys) h = refl
text_eq-length (x ∷ xs) [] h = refl
text_eq-length (x ∷ xs) (y ∷ ys) h =
    rw (text_eq-length xs ys (λ e. h (ap suc e))) (and_false (x == y))
  where
    and_false : (b : Bool) → (b && false) ≡ false
    and_false true = refl
    and_false false = refl

length-take_enough : (n : ℕ) (xs : List ℕ) → n ≤ length xs → length (take n xs) ≡ n
length-take_enough zero xs h = refl
length-take_enough (suc n) [] h = absurd (omega arith)
length-take_enough (suc n) (x ∷ xs) h = ap suc (length-take_enough n xs (omega arith))

read_request_lem :
    (k : ℕ) (rest : List ℕ)
    → read_request (13 ∷ 10 ∷ 1 ∷ k ∷ rest)
      ≡ (read_address codes 0 k rest >>= λ x. ok (x.0, drop 2 x.1))
unfolding read_request
read_request_lem k rest = rw (
  read_full-append 2 (13 ∷ 10 ∷ []) (1 ∷ k ∷ rest) refl,
  read_full-append 1 (1 ∷ []) (k ∷ rest) refl,
  read_full-append 1 (k ∷ []) rest refl,
)

behind :
    (digest hb port payload : List ℕ) (k : ℕ) (hs : List ℕ)
    → length digest ≡ 28
    → hb ≡ k ∷ hs
    → drop 28 (digest ++ 13 ∷ 10 ∷ 1 ∷ (hb ++ port) ++ 13 ∷ 10 ∷ []) ++ payload
      ≡ 13 ∷ 10 ∷ 1 ∷ k ∷ (hs ++ (port ++ 13 ∷ 10 ∷ payload))
behind digest hb port payload k hs n e = rw (
  append_assoc digest (13 ∷ 10 ∷ 1 ∷ (hb ++ port)) (13 ∷ 10 ∷ []),
  drop-append_length 28 digest (13 ∷ 10 ∷ 1 ∷ (hb ++ port) ++ 13 ∷ 10 ∷ []) (sym n),
  e,
  append_assoc hs port (13 ∷ 10 ∷ []),
  append_assoc hs (port ++ 13 ∷ 10 ∷ []) payload,
  append_assoc port (13 ∷ 10 ∷ []) payload,
)

module _ (sha224 : List ℕ → List ℕ) (size : (m : List ℕ) → length (sha224 m) ≡ 28) where
  -- A key is the digest in hexadecimal, 56 characters, and never the hexadecimal of 56 bytes.
  contains-new_inbound :
      (passwords : List (List ℕ)) (sent : List ℕ)
      → length sent ≡ 56
      → contains (new_inbound sha224 passwords) (Hex.encode sent) ≡ false
  unfolding contains new_inbound hash_password
  contains-new_inbound [] sent h = refl
  contains-new_inbound (p ∷ ps) sent h = rw (
    text_eq-length (Hex.encode (sha224 p)) (Hex.encode sent)
        (λ e. omega (arith, e, h, size p, Hex.length-encode (sha224 p), Hex.length-encode sent)),
    contains-new_inbound ps sent h,
  )

  -- When a digest of SHA-224 has 28 bytes, the server that `new_inbound` makes of any passwords
  -- answers every stream of at least 56 bytes with a failed authentication.
  pub handshake-new_inbound :
      (passwords : List (List ℕ)) (stream : List ℕ)
      → 56 ≤ length stream
      → handshake (new_inbound sha224 passwords) stream ≡ err auth_failed
  unfolding handshake
  handshake-new_inbound passwords stream h = rw (
    read_full_enough 56 stream h,
    contains-new_inbound passwords (take 56 stream) (length-take_enough 56 stream h),
  )

  -- When a digest of SHA-224 has 28 bytes, the server reads what the client wrote behind the digest
  -- of the password, for a host that fits its type and a port of 16 bits, as the client's target,
  -- and stops at the payload.
  pub read_request-build_request :
      (password : List ℕ) (t : Target) (payload : List ℕ)
      → IsHost t.host
      → t.port < 2 ^ 16
      → read_request (drop 28 (build_request sha224 password t) ++ payload) ≡ ok (t, payload)
  unfolding build_request
  read_request-build_request password t payload v p = rw (
    behind (sha224 password) (host_bytes codes t.host) (be16 t.port) payload
        (byte_at (host_bytes codes t.host) 0) (drop 1 (host_bytes codes t.host)) (size password)
        (host_bytes_split codes t.host),
    read_request_lem (byte_at (host_bytes codes t.host) 0)
        (drop 1 (host_bytes codes t.host) ++ (be16 t.port ++ 13 ∷ 10 ∷ payload)),
    read_address-host_bytes codes 0 t (13 ∷ 10 ∷ payload) distinct v p,
  )
