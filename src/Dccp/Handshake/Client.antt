-- ===== src/Dccp/Handshake/Client.antt =====
-- How ClientHandshake ends.
use oiwest_core.Common.{
  ℕ, zero, suc, ◌≡◌, ◌≢◌, refl, Bool, true, false, if◌then◌else◌, List, ok, err, panic, Result,
  arith,
}
use oiwest_core.Dccp.Types.{Header, Opt, Error}
use oiwest_core.Dccp.Build.Laws.{control_panics}
use oiwest_core.Dccp.Handshake.{
  World, M, ◌>>=◌, Failure, write_failed, bind, write, receive, client_accept, client_answer,
  client_attempt, client_loop, client_handshake, fail,
}

-- A run that does not return nil.
abbrev pub Fails : M (Unit {0}) → Type 0
Fails m = (w : World) → (m w).0 ≢ ok tt

client_accept_panics :
    (src dst seq : ℕ) (hdr : Header) (opts : List Opt) (w : World)
    → (client_accept src dst seq hdr opts w).0 ≡ panic
unfolding client_accept
client_accept_panics src dst seq hdr opts w =
    rw ((control_panics src dst hdr.sequence_number 0).0) refl

client_answer-Fails :
    (retry : Failure → M (Unit {0})) (src dst seq : ℕ)
    (got : Result Error (Header × List Opt × List ℕ))
    → ((e : Failure) → Fails (retry e))
    → Fails (client_answer retry src dst seq got)
unfolding client_answer
client_answer-Fails retry src dst seq (ok (hdr, opts, payload)) h w =
    ground (arith, client_accept_panics src dst seq hdr opts w, h Failure.handshake_failed w)
client_answer-Fails retry src dst seq (err e) h w = h _ w
client_answer-Fails retry src dst seq panic h w = λ e. cc

bind-Fails :
    {A : Type 0} (r : Result Failure A) (w : World) (f : A → M (Unit {0}))
    → ((a : A) → Fails (f a))
    → (bind (r, w) f).0 ≢ ok tt
bind-Fails (ok a) w f h = h a w
bind-Fails (err e) w f h = λ e. cc
bind-Fails panic w f h = λ e. cc

client_attempt-Fails :
    (retry : Failure → M (Unit {0})) (src dst seq : ℕ) (packet : List ℕ)
    → ((e : Failure) → Fails (retry e))
    → Fails (client_attempt retry src dst seq packet)
unfolding client_attempt
client_attempt-Fails retry src dst seq packet h w =
    bind-Fails (write packet w).0 (write packet w).1 _ wrote
  where
    wrote :
        (b : Bool)
        → Fails (if b then (receive >>= client_answer retry src dst seq) else retry write_failed)
    wrote true w' =
        bind-Fails (receive w').0 (receive w').1 _
          (λ got. client_answer-Fails retry src dst seq got h)
    wrote false w' = h write_failed w'

client_loop-Fails :
    (left src dst seq : ℕ) (packet : List ℕ) → Fails (client_loop left src dst seq packet)
unfolding client_loop
client_loop-Fails zero src dst seq packet =
    client_attempt-Fails fail src dst seq packet (λ e w k. cc k)
client_loop-Fails (suc left) src dst seq packet =
    client_attempt-Fails _ src dst seq packet (λ e. client_loop-Fails left src dst seq packet)

-- ClientHandshake never returns nil, whatever arrives and however the writes go: the only way to
-- success leads through BuildAckPacket.
pub client_handshake-Fails :
    (max_retries : ℕ) (code : List ℕ) (src dst seq : ℕ) (w : World)
    → (client_handshake max_retries code src dst seq w).0 ≢ ok tt
unfolding client_handshake
client_handshake-Fails max_retries code src dst seq w =
    bind-Fails _ _ _ (λ packet. client_loop-Fails max_retries src dst seq packet)
