-- ===== src/Lib.antt =====
-- A verification library for the core of Oiwest: the byte buffer, the DCCP transport's packets and
-- handshake, the stream multiplexer, the router, the sniffers, the mKCP session, the wire formats of four
-- proxies, the obfuscators, the gRPC connection, the multiplexer
-- of XHTTP, BBR, the worker pool and the dual-stack dialer. A multiplexed stream keeps received data in a buffer; the handshake sends the
-- packets that the builders encode and reads them with the stream reader; the router decides by the
-- rules of the configuration; a sniffer looks at the unread bytes of a buffer; the obfuscators
-- seal with the ciphers of the cryptography.
--
-- Common: the libraries' names, Boolean tests, lists, byte slices, copies and the result type of
--   code that returns, fails or panics.
-- Buf: app/common/buf/buffer.go. Buffer is the struct, and write, read, read_full_from, clone and
--   the others are its methods; Buf/View has the views and Release.
-- Dccp: app/transport/dccp. Types, PacketType and OptionType are dccp.go; Packet is
--   EncodeDCCPPacket, DecodeDCCPPacket, parseOptions and computeChecksum of packet.go, Read is
--   ReadFullDCCPPacket and Build its builders; Options is options.go; Handshake is handshake.go
--   over a world of arriving bytes and outcomes of writes; Congestion is CCID 2 and CCID 4 of
--   congestion.go, with a float64 and its operations as the parameter Floats; Transport is Read,
--   Write and Close of transport.go over the world of the handshake.
-- Mux: app/features/multiplex/mux.go. Session and Stream are the structs; dispatch is the switch
--   of readLoop, and Mux/Loop the loop with its deferred Close. shut is Close up to its wait for the wait group,
--   and stream_close, stream_reset and session_read are the methods of a stream that the session's map holds.
-- Router: app/route/router.go, with the rules of app/config/config.go. Regular expressions and
--   addresses are the parameters of Lib.
-- Protocol: the request header of app/common/protocol/protocol.go, and in Protocol/Sniff its sniffers
--   and extractSNI.
-- Kcp: app/transport/mkcp.go. State is KCPState; send, recv, input, update and flush are its
--   methods.
-- Shadowsocks: app/proxy/shadowsocks/ss.go. The hash and the AEADs are the parameter Lib, nonces are
--   arguments; read and write are the methods of ssDecryptReader and ssEncryptWriter.
-- Proxy: app/proxy/trojan/trojan.go in Proxy/Trojan, app/proxy/vless/vless.go in Proxy/Vless and
--   app/proxy/vmess/vmess.go in Proxy/Vmess and Proxy/Vmess/Header, with their addresses in Proxy/Address and hexadecimal
--   digits in Proxy/Hex; Proxy/Manager is the manager of app/proxy/proxy.go. SHA-224, the keyed hash and the AEAD are parameters.
-- Crypto: app/common/crypto/crypto.go. Aead is an AEAD of the standard library; seal, open_, encrypt
--   and decrypt are the methods of AEADCipher, next that of SessionCounter.
-- Stealth: app/features/stealth/obfuscator.go. The functions bear the name of the obfuscator and of the
--   method; stream_read is Read of StreamObfuscator.
-- Grpc: app/transport/grpc.go. Conn is GRPCConn; read, write and close are its methods. Grpc/Delivery
--   has a reader's loop, which ends after as many reads as the theorem allows it.
-- Workers: app/core/worker.go. Pool is WorkerPool with its goroutines; a branch of the worker's select
--   is a function, and Workers/Steps has the steps that these and the calls of Submit, Resize and Stop
--   make. Submit is arrive, look, scale and send or give_up; an idle time-out is time_out and leave; Resize is
--   resize and resize_store. schedule and flush are those of TaskScheduler, where submit is a Submit that nothing
--   comes between.
-- Dialing: app/common/net/dualstack.go. The outcomes of dials are arguments; collect is the loop of
--   dialParallel over the answers in the order in which they come.
-- Bbr: app/transport/bbr/bbr.go. State has BBRState with its constructors, Update its helpers and Events the
--   methods of BBR; a float64 and its operations are the parameter Floats of State.
-- Xhttp: app/transport/xhttp.go. Conn is XHTTPConnection and Stream is XHTTPStream; dispatch is the switch of
--   readLoop. Xhttp/Closing has the steps of Close and of the goroutine of readLoop.
--
-- Bytes and machine integers are natural numbers, with their wrap-around written out. An index or
-- a slice out of range is a panic of the result type. Ten loops run on fuel. The loop that folds
-- the carries of the checksum has three rounds; parseOptions has one more round than bytes, and so
-- has the read loop, since each round takes a byte at least. Input of mKCP has as many rounds as the
-- datagram has bytes, where each takes 24 at least; the loop over the extensions of a client hello has
-- one round more than its payload has bytes, where each takes four at least; the loop of KDFPassword
-- ends at once whatever its fuel; the loop of Write of gRPC has as many rounds as bytes, of which each
-- takes one at least, and so has that of the DCCP transport, whose loop over packets has one round more than
-- bytes, where each takes twelve; the read loop of XHTTP takes twelve bytes at least in a round.
--
-- Not modelled: goroutines and locks outside the worker pool and the closing of XHTTP and of the multiplexer (a method runs as one step), timers,
-- deadlines, random numbers, sockets, cryptography, the rates of CCID 3, the other transports, the
-- responses of VMess, and the dialing, fallback and copying of the proxies.
pub mod Common
pub mod Buf
pub mod Dccp
pub mod Mux
pub mod Router
pub mod Protocol
pub mod Kcp
pub mod Shadowsocks
pub mod Proxy
pub mod Crypto
pub mod Stealth
pub mod Grpc
pub mod Workers
pub mod Dialing
pub mod Bbr
pub mod Xhttp
