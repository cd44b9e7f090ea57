-- ===== src/Proxy/Tests.antt =====
-- The theorems of Trojan, VLESS and VMess on concrete users and requests. The hashes and the cipher are
-- concrete functions.
use oiwest_core.Common.{
  length, ℕ, ◌≡◌, refl, false, List, [], ◌∷◌, ◌++◌, drop, replicate, ok, err, Result, ◌>>=◌, arith,
  Option, none, some, ltb, lt→ltb, if◌then◌else◌, ◌<◌, ◌≤◌, ◌*◌,
}
use oiwest_core.Router.{Text, Rule}
use oiwest_core.Proxy.Manager.{Manager, new_manager, outbound_tag, outbound_tag_lem}
use oiwest_core.Proxy.{Error, auth_failed, unexpected_eof, Target, ipv4, domain}
use oiwest_core.Proxy.Address.{host_bytes}
use oiwest_core.Router.{text_eq}
use oiwest_core.Proxy.Trojan
use oiwest_core.Proxy.Vless
use oiwest_core.Proxy.Vmess
use oiwest_core.Proxy.Vmess.Header.{Found, parse_header-build_header}

abbrev digest : List ℕ → List ℕ
digest m = replicate 28 171

abbrev by_number : Target
by_number = record { host = ipv4 (127 ∷ 0 ∷ 0 ∷ 1 ∷ []); port = 443 }

abbrev by_name : Target
by_name = record { host = domain (97 ∷ 46 ∷ 98 ∷ []); port = 80 }

abbrev password : List ℕ
password = 115 ∷ 101 ∷ 99 ∷ []

-- The server that knows the password, on the request of a client with that password.
handshake-new_inbound_example :
    Trojan.handshake
      (Trojan.new_inbound digest (password ∷ []))
      (Trojan.build_request digest password by_number ++ replicate 56 0)
    ≡ err auth_failed
unfolding Trojan.build_request
handshake-new_inbound_example =
    Trojan.handshake-new_inbound digest (λ m. refl) (password ∷ [])
      (Trojan.build_request digest password by_number ++ replicate 56 0) (omega arith)

read_request-build_request_example :
    Trojan.read_request (drop 28 (Trojan.build_request digest password by_name) ++ 5 ∷ [])
    ≡ ok (by_name, 5 ∷ [])
read_request-build_request_example =
    Trojan.read_request-build_request digest (λ m. refl) password by_name (5 ∷ []) (omega arith)
      (omega arith)

abbrev user_id : List ℕ
user_id = replicate 16 171

handshake-build_request_example :
    (Vless.build_request (Vless.format_uuid user_id) by_number false
      >>= Vless.handshake (Vless.format_uuid user_id ∷ []))
    ≡ err unexpected_eof
unfolding Vless.format_uuid Trojan.contains text_eq host_bytes
handshake-build_request_example =
    Vless.handshake-build_request (Vless.format_uuid user_id ∷ []) user_id by_number false refl
      (omega arith) refl (omega arith)

-- A cipher that checks the length of a packet only.
abbrev opening : List ℕ → List ℕ → Option (List ℕ)
opening nonce packet = if ltb (length packet) 16 then none else some (drop 16 packet)

opening_short : (nonce packet : List ℕ) → length packet < 16 → opening nonce packet ≡ none
opening_short nonce packet h = rw (lt→ltb (length packet) 16 h)

abbrev body : Vmess.BodyReader
body = record { nonce = replicate 16 1; buf = []; count = 0 }

read_body_lem_example :
    (e : Error) × (r' : Vmess.BodyReader) × (rest : List ℕ) × (Vmess.read_body opening 4 body
        (replicate 40 7)
      ≡ (err e, r', rest))
    × (r'.buf ≡ [])
read_body_lem_example = Vmess.read_body_lem opening opening_short 4 body (replicate 40 7) refl

long_enough :
    49 ≤ length (Vmess.build_header (replicate 16 5) user_id 1 by_number 1 ++ replicate 32 6)
unfolding Vmess.build_header Vmess.header_start Vmess.header_end host_bytes
long_enough = omega arith

parse_header-build_header_example :
    (account : Result Error (List ℕ)) × Found
      (λ m. replicate 16 5)
      9
      (replicate 16 5)
      (user_id ∷ [])
      account
    × (Vmess.parse_header
          (λ m. replicate 16 5)
          9
          (user_id ∷ [])
          (Vmess.build_header (replicate 16 5) user_id 1 by_number 1 ++ replicate 32 6)
        ≡ (account >>= λ key. ok (
          key,
          user_id,
          17 * 1,
          drop 49 (Vmess.build_header (replicate 16 5) user_id 1 by_number 1 ++ replicate 32 6),
        )))
parse_header-build_header_example =
    parse_header-build_header (λ m. replicate 16 5) 9 (user_id ∷ []) (replicate 16 5) user_id
      (replicate 32 6) 1 by_number 1 refl refl long_enough

abbrev rule_for : Text → Text → Rule
rule_for network tag = record {
  inbound_tag = [];
  network = network;
  protocol = [];
  user = [];
  port = [];
  source_port = [];
  source = [];
  domain = [];
  ip = [];
  outbound_tag = tag;
  balancer_tag = [];
}

-- The second rule is for UDP alone, and yet every connection goes by it.
abbrev manager : Manager
manager =
    new_manager ((97 ∷ []) ∷ [])
      (rule_for [] [] ∷ rule_for (117 ∷ 100 ∷ 112 ∷ []) (98 ∷ []) ∷ rule_for [] (99 ∷ []) ∷ [])

manager_rules :
    manager.rules
    ≡ (rule_for [] [] ∷ [])
      ++ (rule_for (117 ∷ 100 ∷ 112 ∷ []) (98 ∷ []) ∷ (rule_for [] (99 ∷ []) ∷ []))
unfolding new_manager
manager_rules = refl

outbound_tag_lem_example : outbound_tag manager ≡ 98 ∷ []
outbound_tag_lem_example =
    outbound_tag_lem manager (rule_for [] [] ∷ []) (rule_for [] (99 ∷ []) ∷ [])
      (rule_for (117 ∷ 100 ∷ 112 ∷ []) (98 ∷ [])) manager_rules (refl, tt) refl
