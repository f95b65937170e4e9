-- ===== src/Lib.antt =====
-- Palagos, a peer-to-peer encrypted messenger written in Go: its protocol core, its
-- transport, its relay and its client.
--
-- The program is a stack. pkg/crypto wraps Go's cryptographic libraries and keeps the double
-- ratchet; pkg/identity holds long-term keys and pairs two devices under a PIN; pkg/protocol
-- defines the packet format, the replay window and the session that ties them together;
-- pkg/transport frames packets on a byte stream; pkg/server is the relay that routes packets
-- between clients and keeps them while a client is offline; pkg/client keeps a user's
-- profiles, contacts and sessions, behind a web interface, the RPC service of pkg/daemon or
-- the functions that pkg/bridge exports to C; cmd/palagos and cmd/palagos-server are the
-- programs of a peer and of a relay.
--
-- Files and the code that they model:
--
--  * Base: shared names, lists, bytes, bit operations, Go's maps, errors, and actions that
--    keep their state beside an error.
--  * Crypto: pkg/crypto/rand.go, ecdh.go, signature.go, hkdf.go and aead.go, over the record
--    GoCrypto of the library calls (Crypto/Library) and the laws that the code relies on
--    (Crypto/Laws). Crypto/Toy is an instance of both.
--  * Ratchet: pkg/crypto/ratchet.go. A method is an action on the ratchet and the random
--    source.
--  * Packet: pkg/protocol/packet.go. `Marshal` is `marshal`, `Unmarshal` is `unmarshal`, and
--    so on.
--  * Replay: pkg/protocol/replay.go, and the specification that remembers every accepted
--    number (Replay/Spec).
--  * Identity: pkg/identity/identity.go, and pkg/identity/pairing.go in Identity/Pairing.
--  * Session: pkg/protocol/session.go. A method is an action on the session and the random
--    source.
--  * Transport: pkg/transport/transport.go, over the stream's calls.
--  * Server: pkg/server/server.go, over the connections and the clock (the record Relay).
--    Server/Reachable runs its methods in any order. `deliver_mailbox_among` takes as an
--    argument what other goroutines do while the mutex is free; `RoutePacket`, which frees it
--    while it sends, is modelled without anything in between.
--  * Client: pkg/client/manager.go, over the onion transport's dialling and its connections
--    (the record Network). Client/Runs runs the methods of the manager in any order.
--  * Transport/TorControl and Transport/Onion: pkg/transport/tor_control.go and onion.go,
--    over sockets, files and the SOCKS5 dialler as parameters.
--  * Server/Command: the handler of a connection in cmd/palagos-server/main.go.
--  * Peer: cmd/palagos/main.go. Peer/Flags reads its arguments, Peer/Conversation runs the
--    handshake of `send` against `listen` frame by frame, Peer/Dialogue and Peer/Typing the
--    lines that are typed then, Peer/Listening is about the receiving loop.
--  * Http, Daemon, Web and Bridge: pkg/daemon/daemon.go, pkg/client/web.go and
--    pkg/bridge/cgo.go, over the methods of the client manager.
--
-- How the code is read: a byte is a natural number and a byte slice a list; machine integers
-- keep their wrap-around (`% 2 ^ w`); an error is a constructor of `Error`, a panic is the
-- result `panic`, and what was written before either stays written. The random source is
-- threaded through as a state. A method that holds its mutex throughout is one step.
-- `Zeroize` of a key that is not used again has no effect in the model, where values are not
-- shared. Loops over a collection are structural recursion. The three loops that read from a
-- connection until it fails (the listener's, the relay handler's and the control client's)
-- take fuel, and are shown to return with more fuel than there are bytes, packets or lines to
-- come.
--
-- Library code (Go's crypto packages, golang.org/x/crypto, net, io) is a parameter: a record
-- of its calls, and a record of laws that state its documented behaviour. Each law record has
-- an instance, which the runs use.
--
-- Not modelled: the Bluetooth stub, whose methods all fail; the embedded page; flags, prompts
-- and banners of the two commands, and their accept loops; and JSON, so that a handler takes
-- a decoded body and answers with a value.
pub mod Base
pub mod Bridge
pub mod Client
pub mod Crypto
pub mod Daemon
pub mod Http
pub mod Identity
pub mod Packet
pub mod Peer
pub mod Ratchet
pub mod Replay
pub mod Server
pub mod Session
pub mod Transport
pub mod Web
