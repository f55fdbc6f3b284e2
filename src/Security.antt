-- ===== src/Security.antt =====
-- security/e2ee.go: the encrypted session between two peers.
pub mod Bits
pub mod Replay
pub mod Session
pub mod Handshake
