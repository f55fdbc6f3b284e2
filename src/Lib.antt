-- ===== src/Lib.antt =====
-- A peer-to-peer chat program in Go (main.go, chat_envelope.go, web.go, verification.go, security/,
-- protocol/, storage/, discovery/). Two nodes connect over a libp2p stream, agree on keys in a
-- handshake, and exchange JSON envelopes, each encrypted and written as one line of base64. A node is
-- used from the console and from local web clients.
--
-- The parts, and the files that model them:
-- - Security.Replay: `acceptCounter` of security/e2ee.go, the window of 64 counters. Its words of 64
--   bits are numbers, with the wrap-around of the shift written out.
-- - Security.Session: `Session`, `Encrypt` and `Decrypt` of security/e2ee.go. A call returns the new
--   session and a result.
-- - Security.Handshake: `Handshake`, `handshakeTranscript` and `deriveKey`. The stream says which line
--   is read after the lines that were written.
-- - Protocol: protocol/envelope.go, envelopes with their rules, `Encode` and `Decode`.
-- - Manager: `StreamManager` of main.go as a record, and the functions of chat_envelope.go that send.
--   Manager.Pending has `sendChat` and the retransmission, Manager.Receive has `handleEnvelope` and
--   the receive buffer, Manager.Streams has `AddStream`, `readLoop`, `forgetPeer` and `switchPeer`,
--   Manager.Dial has `connectToPeer` and `ReconnectPeer`.
-- - Approvals: the connection requests of `HandleIncomingStream` of main.go, and the responses to them.
-- - Conversation: two such nodes and the lines between them, from a text that one user writes to the
--   acknowledgement that comes back.
-- - Storage: storage/peers.go, storage/verifications.go and storage/history.go over files as values.
-- - Safety: `safetyNumber` of verification.go.
-- - Web: `WebClient` of web.go. Web.Frames has what is written to the clients, Web.Server the token and
--   the configuration files.
-- - Discovery: discovery/dht.go, and the loops of main.go and web.go over a search.
-- - Identity: the key file of main.go, `loadOrGenerateKey`.
-- - Node: a whole node, with its conversations, requests, files and web bridge. Node has the `Notify`
--   functions of web.go, Node.Stores and Node.Socket have `handleWSMessage`, Node.Console has
--   `HandleInput`, `handleCommand` and `showSafetyNumber`, Node.Saved the commands on trusted peers,
--   Node.Lists what `listPeers`, `listSavedPeers` and `discoverPeers` print,
--   Node.Probes `listPeers`, `runLatencyTest` and `runConcurrentTest`, Node.Incoming the whole of
--   `HandleIncomingStream`, Node.Clients `handleWebSocket` with `sendInitialState`, and Node.Start
--   `newStreamManager` and `main`.
-- - Text, Text.Fields and Base64: what the program uses of Go's `strings`, `fmt.Sscanf`,
--   `strconv.Itoa` and `encoding/base64`.
-- - Base: shared names, lists, dictionaries for Go's maps, equality tests and results.
-- - Tests: the theorems at concrete inputs.
--
-- A line that `readLoop` reads goes through `Decrypt`, `Decode` and `handleEnvelope` (`read_line` in
-- Manager.Streams); a message that the user writes goes through `sendChat`, `Encode` and `Encrypt`
-- (`send_chat` in Manager.Pending). `Handshake` gives the session that `AddStream` registers. What the
-- conversations tell web.go is an `Effect`, which `notify` in Node turns into frames and saved messages.
--
-- Parameters: the cipher, key agreement, signatures, HKDF, SHA-256, `encoding/json`, the peerstore, the
-- addresses, network and DHT of libp2p, key generation and the encoding of keys, HTTP and websockets,
-- the file system, the source of randomness, the clock, and whether a write succeeds. Randomness, clock
-- and writes may answer differently at each call. Laws of a parameter are hypotheses of the theorems
-- that use them.
--
-- Numbers: `uint64` counters keep `% 2 ^ 64`. The loop of `drainReceiveBuffer` runs on fuel, one round
-- more than the buffer holds: each round takes a message out. The digits of a number are made on
-- fuel, the number itself. Strings are lists of bytes.
--
-- Concurrency: an operation is one step on the state, and what other goroutines do in between is a
-- sequence of steps; a retransmission may act on a message that was collected at any earlier state.
-- The relations are in Manager.Pending.Steps, Manager.Streams.Active and Web.Clients. `switchPeer` has
-- two halves with other steps in between. What a command or
-- a web message starts as a goroutine has its turn at once. The mutexes are not modelled.
--
-- Not modelled: the flags and signals of `main`, the libp2p set-up of `CreateNode`, the ticker of
-- `retransmitLoop`, the advertising loops of discovery/, serving HTTP, the exact texts that are
-- printed, and the web client itself.
pub mod Base
pub mod Text
pub mod Base64
pub mod Security
pub mod Protocol
pub mod Manager
pub mod Storage
pub mod Safety
pub mod Approvals
pub mod Conversation
pub mod Web
pub mod Discovery
pub mod Identity
pub mod Node
pub mod Tests
