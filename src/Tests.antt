-- ===== src/Tests.antt =====
-- The theorems on concrete inputs.
mod Ratchet
mod Group
mod Dht
mod Sync
mod Codecs
mod Toys
mod Envelopes
mod Scheduler
mod Mailbox
mod Convergence
mod Network
mod Transport
mod Identities
mod Handshake
mod Nat
