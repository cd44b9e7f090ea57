-- ===== src/Dccp/Handshake/Server.antt =====
-- How ServerHandshake ends.
use oiwest_core.Common.{ℕ, ◌≡◌, refl, List, [], ◌∷◌, ◌++◌, ok, panic}
use oiwest_core.Dccp.Packet.Clip.{clip_all}
use oiwest_core.Dccp.Build.{build_request}
use oiwest_core.Dccp.Build.Laws.{InRange}
use oiwest_core.Dccp.Build.Request.{read_packet-build_request}
use oiwest_core.Dccp.Handshake.{World, answer, receive, expect, server_cookie, server_handshake}

-- ServerHandshake panics on every request that BuildRequestPacket makes, whatever follows it: the
-- cookie arrives with four bytes, and the server slices six.
pub server_handshake-build_request :
    (src dst seq a b c d own_seq : ℕ) (w : World)
    → InRange src dst seq
    → (bytes after : List ℕ) → build_request src dst (a ∷ b ∷ c ∷ d ∷ []) seq ≡ ok bytes
    → w.inbox ≡ bytes ++ after
    → (server_handshake own_seq w).0 ≡ panic
unfolding server_handshake receive expect server_cookie clip_all
server_handshake-build_request src dst seq a b c d own_seq w r bytes after made arrived =
    let (bytes', made', hdr, read, kind) = read_packet-build_request src dst seq a b c d after r in
    let same : bytes ≡ bytes' = cc (made, made') in rw (arrived, same, read, answer, kind) refl
