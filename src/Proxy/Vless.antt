-- ===== src/Proxy/Vless.antt =====
-- app/proxy/vless/vless.go: the client's request and the server's handshake. The UUID of a user is
-- a text; a character is a byte of it.
use oiwest_core.Common.{
  length-append, lt→ltb, ℕ, zero, suc, ◌+◌, ◌*◌, ◌/◌, ◌%◌, ◌∙◌, ◌^◌, ◌≤◌, ◌<◌, ◌≡◌, refl, sym, ap,
  Bool, true, false, ◌||◌, List, [], ◌∷◌, ◌++◌, ◌==◌, if◌then◌else◌, length, take, drop, byte_at,
  be16, Result, ok, err, panic, arith, check, ◌>>=◌, ◌>>◌, Option, some, none, IsBytes,
  append_assoc,
}
use oiwest_core.Common.Copying.{take_all}
use oiwest_core.Proxy.{
  Error, auth_failed, invalid_version, unknown_command, unexpected_eof, Target, read_full,
  read_lossy,
}
use oiwest_core.Proxy.Address.{
  Codes, address_bytes, host_bytes, read_address, read_address-host_bytes, host_bytes_split,
  IsDistinct, IsHost, read_full-append,
}
use oiwest_core.Proxy.Hex
use oiwest_core.Proxy.Trojan.{contains}

abbrev pub codes : Codes
codes = record { four = 1; name = 2; six = 3 }

-- The verb `%x` on five parts of the 16 bytes, with dashes between them.
unfoldable pub format_uuid : List ℕ → List ℕ
unfolding Hex.encode
format_uuid b =
    Hex.encode (take 4 b)
    ++ 45 ∷ Hex.encode (take 2 (drop 4 b))
    ++ 45 ∷ Hex.encode (take 2 (drop 6 b))
    ++ 45 ∷ Hex.encode (take 2 (drop 8 b))
    ++ 45 ∷ Hex.encode (take 6 (drop 10 b))

unfoldable pub without_dashes : List ℕ → List ℕ
without_dashes [] = []
without_dashes (c ∷ cs) = let rest = without_dashes cs in if c == 45 then rest else c ∷ rest

-- fmt.Sscanf with `%02x` of two ASCII characters into a byte that is 0 before it: white space in
-- front is skipped, and nothing is stored when the first character left is no digit.
abbrev pub is_space : ℕ → Bool
is_space c = c == 32 || c == 9 || c == 11 || c == 12 || c == 13

abbrev pub scan_digits : ℕ → Option ℕ → Option ℕ → ℕ
scan_digits c none none = 0
scan_digits c none (some y) = if is_space c then y else 0
scan_digits c (some x) none = x
scan_digits c (some x) (some y) = 16 * x + y

unfoldable pub scan_byte : ℕ → ℕ → ℕ
scan_byte c d = scan_digits c (Hex.value c) (Hex.value d)

-- The loop over 16 pairs. A pair that the text does not have is a slice out of range.
unfoldable pub pairs : ℕ → List ℕ → Result Error (List ℕ)
unfolding scan_byte
pairs zero cs = ok []
pairs (suc n) (c ∷ d ∷ cs) = do rest ← pairs n cs; ok (scan_byte c d ∷ rest)
pairs (suc n) (c ∷ []) = panic
pairs (suc n) [] = panic

unfoldable pub parse_uuid : List ℕ → Result Error (List ℕ)
unfolding pairs without_dashes
parse_uuid uuid = pairs 16 (without_dashes uuid)

-- The buffer is one zero byte when nothing comes, and holds the type when a length does not come.
unfoldable pub parse_target : List ℕ → Result Error (Target × List ℕ)
parse_target stream =
    let kind = byte_at (read_lossy 1 stream) 0 in read_address codes kind kind (drop 1 stream)

-- What follows the user.
unfoldable pub read_request : List ℕ → Result Error (Target × List ℕ)
unfolding parse_target
read_request stream = do
  (opts, rest) ← read_full 17 stream
  let cmd = byte_at opts 16
  check (cmd == 1 || cmd == 2 || cmd == 3) unknown_command
  parse_target rest

-- The answer of two bytes on success is not modelled.
unfoldable pub handshake : List (List ℕ) → List ℕ → Result Error (Target × List ℕ)
unfolding read_request format_uuid contains
handshake users stream = do
  (version, stream₁) ← read_full 1 stream
  check (byte_at version 0 == 0) invalid_version
  (uuid, stream₂) ← read_full 16 stream₁
  check (contains users (format_uuid uuid)) auth_failed
  read_request stream₂

unfoldable pub build_request : List ℕ → Target → Bool → Result Error (List ℕ)
unfolding parse_uuid address_bytes
build_request uuid target is_udp = do
  id ← parse_uuid uuid
  ok (0 ∷ id ++ 0 ∷ address_bytes codes target ++ (if is_udp then 2 else 1) ∷ [])

-- Digits are no dashes.
without_dashes-encode : (b : List ℕ) → without_dashes (Hex.encode b) ≡ Hex.encode b
unfolding without_dashes Hex.encode
without_dashes-encode [] = refl
without_dashes-encode (x ∷ xs) =
    rw (plain (x / 16 % 16) (omega arith), plain (x % 16) (omega arith), without_dashes-encode xs)
  where
    plain : (n : ℕ) → n < 16 → (Hex.digit n == 45) ≡ false
    plain n h = ground arith

dash_step :
    (t : Bool) (x : ℕ) (all xs ys : List ℕ)
    → all ≡ xs ++ ys
    → (if t then all else x ∷ all) ≡ (if t then xs else x ∷ xs) ++ ys
dash_step true x all xs ys e = e
dash_step false x all xs ys e = ap (λ r. x ∷ r) e

without_dashes-append :
    (xs ys : List ℕ) → without_dashes (xs ++ ys) ≡ without_dashes xs ++ without_dashes ys
unfolding without_dashes
without_dashes-append [] ys = refl
without_dashes-append (x ∷ xs) ys =
    dash_step (x == 45) x (without_dashes (xs ++ ys)) (without_dashes xs) (without_dashes ys)
      (without_dashes-append xs ys)

without_dashes_dash : (xs : List ℕ) → without_dashes (45 ∷ xs) ≡ without_dashes xs
unfolding without_dashes
without_dashes_dash xs = refl

encode-append : (xs ys : List ℕ) → Hex.encode (xs ++ ys) ≡ Hex.encode xs ++ Hex.encode ys
unfolding Hex.encode
encode-append [] ys = refl
encode-append (x ∷ xs) ys =
    ap (λ r. Hex.digit (x / 16 % 16) ∷ Hex.digit (x % 16) ∷ r) (encode-append xs ys)

take_more : (n m : ℕ) (xs : List ℕ) → take n xs ++ take m (drop n xs) ≡ take (n + m) xs
take_more zero m xs = ap (λ k. take k xs) (omega arith)
take_more (suc n) m [] = take_none m ∙ ap (λ k. take {A = ℕ} k []) {x = suc (n + m)} (omega arith)
  where
    take_none : (k : ℕ) → take {A = ℕ} k [] ≡ []
    take_none zero = refl
    take_none (suc k) = refl
take_more (suc n) m (x ∷ xs) =
    ap (λ r. x ∷ r) (take_more n m xs) ∙ ap (λ k. take k (x ∷ xs)) {x = suc (n + m)} (omega arith)

scan_byte-digit : (x : ℕ) → x < 256 → scan_byte (Hex.digit (x / 16 % 16)) (Hex.digit (x % 16)) ≡ x
unfolding scan_byte
scan_byte-digit x h =
    rw (Hex.value-digit (x / 16 % 16) (omega arith), Hex.value-digit (x % 16) (omega arith))
      (omega arith)

pairs-encode : (b : List ℕ) → IsBytes b → pairs (length b) (Hex.encode b) ≡ ok b
unfolding pairs Hex.encode
pairs-encode [] h = refl
pairs-encode (x ∷ xs) (hx, hs) = rw (pairs-encode xs hs, scan_byte-digit x hx)

without_dashes-format_uuid :
    (b : List ℕ) → length b ≡ 16 → without_dashes (format_uuid b) ≡ Hex.encode b
unfolding format_uuid
without_dashes-format_uuid b h = split_off ∙ joined
  where
    part : ℕ → ℕ → List ℕ
    part n k = Hex.encode (take n (drop k b))

    dash :
        (xs : List ℕ) (n k : ℕ)
        → without_dashes (xs ++ 45 ∷ part n k) ≡ without_dashes xs ++ part n k
    dash xs n k =
        without_dashes-append xs (45 ∷ part n k)
        ∙ ap (λ r. without_dashes xs ++ r)
            (without_dashes_dash (part n k) ∙ without_dashes-encode (take n (drop k b)))

    split_off :
        without_dashes (format_uuid b)
        ≡ Hex.encode (take 4 b) ++ part 2 4 ++ part 2 6 ++ part 2 8 ++ part 6 10
    split_off = rw (
      dash (Hex.encode (take 4 b) ++ 45 ∷ part 2 4 ++ 45 ∷ part 2 6 ++ 45 ∷ part 2 8) 6 10,
      dash (Hex.encode (take 4 b) ++ 45 ∷ part 2 4 ++ 45 ∷ part 2 6) 2 8,
      dash (Hex.encode (take 4 b) ++ 45 ∷ part 2 4) 2 6,
      dash (Hex.encode (take 4 b)) 2 4,
      without_dashes-encode (take 4 b),
    )

    more : (n m : ℕ) → Hex.encode (take n b) ++ part m n ≡ Hex.encode (take (n + m) b)
    more n m = sym (encode-append (take n b) (take m (drop n b))) ∙ ap Hex.encode (take_more n m b)

    joined : Hex.encode (take 4 b) ++ part 2 4 ++ part 2 6 ++ part 2 8 ++ part 6 10 ≡ Hex.encode b
    joined =
        rw (more 4 2, more 6 2, more 8 2, more 10 6) (ap Hex.encode (take_all 16 b (omega arith)))

-- A client reads the UUID of 16 bytes back from the text that the server makes of them.
pub parse_uuid-format_uuid :
    (b : List ℕ) → length b ≡ 16 → IsBytes b → parse_uuid (format_uuid b) ≡ ok b
unfolding parse_uuid
parse_uuid-format_uuid b h v =
    ap (λ t. pairs 16 t) (without_dashes-format_uuid b h)
    ∙ ap (λ n. pairs n (Hex.encode b)) (sym h)
    ∙ pairs-encode b v

distinct : IsDistinct codes
distinct = (λ h. omega (arith, h), λ h. omega (arith, h), λ h. omega (arith, h))

parse_target_lem : (k : ℕ) (rest : List ℕ) → parse_target (k ∷ rest) ≡ read_address codes k k rest
unfolding parse_target read_lossy
parse_target_lem k rest = refl

-- The target that a client wrote is read back, for a host that fits its type and a port of 16 bits,
-- and the reader stops behind it.
pub parse_target-address_bytes :
    (t : Target) (rest : List ℕ)
    → IsHost t.host
    → t.port < 2 ^ 16
    → parse_target (address_bytes codes t ++ rest) ≡ ok (t, rest)
unfolding address_bytes
parse_target-address_bytes t rest v p =
    ap parse_target moved
    ∙ parse_target_lem k (hs ++ (be16 t.port ++ rest))
    ∙ read_address-host_bytes codes k t rest distinct v p
  where
    k : ℕ
    k = byte_at (host_bytes codes t.host) 0

    hs : List ℕ
    hs = drop 1 (host_bytes codes t.host)

    moved : host_bytes codes t.host ++ be16 t.port ++ rest ≡ k ∷ (hs ++ (be16 t.port ++ rest))
    moved =
        append_assoc (host_bytes codes t.host) (be16 t.port) rest
        ∙ ap (λ h. h ++ (be16 t.port ++ rest)) (host_bytes_split codes t.host)

read_full_short :
    (n : ℕ) (x : ℕ) (xs : List ℕ) → length xs < n → read_full (suc n) (x ∷ xs) ≡ err unexpected_eof
unfolding read_full
read_full_short n x xs h = rw (lt→ltb (length xs) n h)

read_request_short :
    (x : ℕ) (xs : List ℕ) → length xs < 16 → read_request (x ∷ xs) ≡ err unexpected_eof
unfolding read_request
read_request_short x xs h = rw (read_full_short 16 x xs h)

handshake_known :
    (users : List (List ℕ)) (b rest : List ℕ)
    → length b ≡ 16
    → contains users (format_uuid b) ≡ true
    → handshake users ((0 ∷ b) ++ rest) ≡ read_request rest
unfolding handshake
handshake_known users b rest n known =
    rw (read_full-append 1 (0 ∷ []) (b ++ rest) refl, read_full-append 16 b rest (sym n), known)

-- A server that knows the user answers the request of its own client with an unexpected end, when
-- the type and the host take at most 12 bytes, as each IPv4 address does.
pub handshake-build_request :
    (users : List (List ℕ)) (b : List ℕ) (t : Target) (is_udp : Bool)
    → length b ≡ 16
    → IsBytes b
    → contains users (format_uuid b) ≡ true
    → length (host_bytes codes t.host) ≤ 12
    → (build_request (format_uuid b) t is_udp >>= handshake users) ≡ err unexpected_eof
unfolding build_request address_bytes
handshake-build_request users b t is_udp n v known short =
    rw
      (
        parse_uuid-format_uuid b n v,
        append_assoc (0 ∷ b) (0 ∷ (host_bytes codes t.host ++ be16 t.port)) (cmd ∷ []),
        handshake_known users b (0 ∷ (host_bytes codes t.host ++ be16 t.port) ++ cmd ∷ []) n known,
      )
      (read_request_short 0 (host_bytes codes t.host ++ be16 t.port ++ cmd ∷ []) size)
  where
    cmd : ℕ
    cmd = if is_udp then 2 else 1

    size : length (host_bytes codes t.host ++ be16 t.port ++ cmd ∷ []) < 16
    size = omega (
      arith,
      length-append (host_bytes codes t.host ++ be16 t.port) (cmd ∷ []),
      length-append (host_bytes codes t.host) (be16 t.port),
      short,
    )
