-- ===== src/Lib.antt =====
-- A model of the core library of post-urbit (post-urbit-core/src), a network of personal nodes:
-- each node has an identity, talks to others in encrypted sessions and groups, publishes records in
-- a distributed hash table and keeps documents in step with its peers.
--
-- Parts and files:
-- - Ratchet.antt (ratchet.rs): `RatchetState` with its methods as functions from the state to a
--   result and a state; its children derive the keys (Keys), follow a chain (Chain), a pair of
--   sessions (Session, Turns, Agreement), one receiver (Delivery, Replay) and every sequence of calls
--   (Bounds).
-- - Encoding.antt (encoding.rs): base 32; the loops on a bit buffer are structural recursion, or
--   recursion on a count that the source's loop condition gives.
-- - Group.antt and Group/State.antt (group.rs): sender keys, and the members of a group with the
--   updates that change them. `apply_update` is split into the checks, the decision and the commit.
-- - Dht.antt, Dht/Memory.antt and Dht/Disk.antt (dht.rs): keys, `MemoryDht` and `FileDht`. The files
--   of `FileDht` are part of its state, and the outcome of each call on a file is an argument.
-- - Sync.antt and its children (sync.rs): operations, their order, identifiers and signatures, the
--   store, the Merkle root, the session that exchanges operations and the round of one
--   (Convergence), and the observed-remove set.
-- - Messaging.antt (messaging.rs): the bytes of an envelope. The header extensions carry the numbers
--   of a Ratchet session or of a group's sender key. Messaging/Sealing.antt: how an envelope is
--   encrypted, signed, verified and opened.
-- - Mailbox/Store.antt (mailbox_store.rs): envelopes that wait in the inboxes of their owners, as
--   decoded by Messaging; Admission says which of them are taken in, and Log, Reads and Calls state
--   the store as one list of messages with their owners. Mailbox/Urls.antt and Mailbox/Tokens.antt
--   (mailbox.rs): canonical addresses, and the tokens for senders.
-- - Relay.antt (relay.rs): the packets of a relay, and signatures on allocations and rebindings.
-- - CanonicalJson.antt (canonical_json.rs): JSON values with sorted keys. Identity.antt and its
--   children (identity.rs): documents and their checks (Documents, Checks), their envelopes, the
--   manager that updates and rotates (Manager), chains of documents, revocations and devices, and
--   what a reader of the table takes for an identity (Fetch).
-- - Network.antt and its children (network.rs): the rate limits of an application (Limits), where it
--   may send requests (Hosts), and the parts of a request (Requests).
-- - Transport.antt and its children (transport.rs): frames, the machine that admits the messages of
--   a handshake in order (Handshake), what both sides sign (Challenge), the handshake of a client and
--   a server over the documents of Identity (Session), and two connections at once (Glare).
-- - Nat.antt (nat.rs): the messages of STUN, with the attributes of a response (Attributes,
--   Responses).
-- - Scheduler.antt (scheduler.rs): tasks, and the workers that run them, as a step relation over
--   what one of them does while it holds the lock.
-- - Prelude.antt: errors and `Result` (error.rs), maps as association lists, byte order, sorting,
--   big-endian words, and the lemmas that the parts share. Tests.antt: concrete inputs.
--
-- How the source is read: a `&mut self` method returns its result beside the state, also when it
-- fails, so that what was written before an error stays written. A `HashMap` is an association list
-- whose order no theorem depends on; where the code iterates over one, keys stand once by hypothesis
-- or by an invariant. Bytes, keys and texts are lists of numbers. Unsigned sums that can overflow
-- keep their width (`u32`, `u64`).
--
-- Fuel: the loop that skips message keys has the distance to its goal as fuel. The Merkle root
-- doubles its size, and folds its levels, on as much fuel as there are leaves (with the padding):
-- each round doubles the size, or halves the level, so the fuel does not run out.
--
-- Parameters, for code that is not in the repository: HMAC, HKDF, X25519 (`Crypto`), SHA-256,
-- Ed25519 (`Ed25519`), the clock and the conversions by serde (`Outside`), base 64 (`Base64`),
-- ChaCha20-Poly1305 (`Aead`). Hypotheses on them are that X25519 is symmetric (`DhAgrees`), that a
-- signature verifies (`IsKeyPair`), and that what is encoded or encrypted is read again (`IsBase64`,
-- `IsAead`), and that a time is read as the second that was written (`IsOutside` of Mailbox). What
-- serde derives for documents is a parameter of Identity (`Outside`, `Formats`); the hypotheses are
-- that a document's signatures stand only under their own name, and that its text is read again.
--
-- Not modelled: locks, threads and sockets; the HTTP interfaces; JSON and CBOR text; the
-- WebAssembly runtime; the sockets, the detection and the port
-- mappings of network address translation; the shell; the instants at which a task's
-- ticker fires, which may fire at any time; the JSON text of a mailbox token; the timeouts of a
-- handshake; the files from which an identity starts, and the recovery of one by its trustees.
pub mod Prelude
pub mod Ratchet
pub mod Encoding
pub mod Group
pub mod Dht
pub mod Sync
pub mod CanonicalJson
pub mod Identity
pub mod Nat
pub mod Network
pub mod Transport
pub mod Messaging
pub mod Mailbox
pub mod Relay
pub mod Scheduler
mod Tests
