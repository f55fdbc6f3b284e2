-- ===== src/Tests.antt =====
-- The theorems at concrete inputs.
mod Security
mod Protocol
mod Chat
mod Storage
mod Requests
mod Conversation
mod Node
mod Pending
