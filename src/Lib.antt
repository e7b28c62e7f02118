-- ===== src/Lib.antt =====
-- Verification of the Rust core of Resilient Messenger.
--
-- The program: a phone keeps its messages in an encrypted local database (crates/messenger-core),
-- packs what it sends into frames and envelopes (crates/messenger-protocol), and sends the frames
-- through the relays of a signed directory, with retries (crates/messenger-transport). The keys of
-- the account, its invitations and its recovery package come from crates/messenger-identity. The
-- server takes the frames (services/core-api/src/main.rs), authenticates the device, and stores
-- accounts, sessions, groups, events and key packages in PostgreSQL (services/core-api/src/lib.rs);
-- it hands the events to the members' devices, which ingest them into the local database again.
--
-- Prelude and the modules below it hold what the others share: lists and words over the native
-- numbers, results, a stable sort, UTF-8. Cursor is the reader of bytes that all decoders use.
-- Fixtures holds the stand-ins for third-party code that the tests share.
--
-- Protocol (crates/messenger-protocol/src/lib.rs): the types and the wire numbers of the enums;
-- Encoder, Decoder and Codec hold the functions of the same names. A byte is a number below 256, an
-- Id is its 16 bytes; the predicates IsFrame and IsEnvelope say what the Rust field types say, and
-- a cast to a shorter word is a remainder. ErrorCodes is ErrorCode. Heads, RoundTrip, Envelopes,
-- Shapes and Canonical hold the proofs.
--
-- Transport (crates/messenger-transport/src/lib.rs): Directory is SignedRelayDirectory with its
-- reader; Manager is TransportManager. Ed25519 and the senders are parameters, and the network has
-- a state of its own, so that each call may answer differently. The loop of flush is recursion on
-- the queue, which every round shortens or ends: no fuel is needed. A HashMap is an association
-- list, which the code reads by key or as a whole without regard to order.
--
-- Core (crates/messenger-core/src/lib.rs): Db is the SQLite database, a list of rows for each
-- table; Sql has the statements. Primary keys, foreign keys, CHECKs and triggers are written out
-- where a statement meets them, and a transaction that fails gives the database back as it was.
-- Cipher is encrypt and decrypt over a parameter for XChaCha20-Poly1305, with the laws of that
-- cipher as hypotheses; the clock and the random bytes are arguments. Messages, Delivery, Sync,
-- Account and Rotation hold the operations of MessengerCore, Operations makes them one step
-- relation, and Invariant says when a database is well formed, with a module for each group of
-- operations.
--
-- Api (services/core-api/src/lib.rs): Backend is the database with the constraints of
-- services/core-api/migrations/0001_foundation.sql. Devices holds the registration, Sessions the
-- challenges, access tokens and refresh tokens, Usernames, Recovery and Limits the operations of
-- these names, Groups, Events and Mailbox the rest: one call after another, since transactions that
-- run at the same time are not modelled. A signed argument is a number of ℤ, an i16 is its bit
-- pattern, a time is a number of microseconds. The sequence of event_cursor advances also where the
-- insert that drew from it fails. Random tokens, the clock, SHA-256 and Ed25519 are arguments. A
-- count of a rate limit is an INTEGER of 32 bits, and a call that would leave it is an error.
--
-- Identity (crates/messenger-identity/src/lib.rs): certificates, payloads to sign, Invites with the
-- QR codes, Recovery and Usernames. A key is the bytes of its seed. The record Signing stands for
-- the keys of Ed25519, Phrases for BIP-39, and a function from strings to strings for NFKC with
-- lower case; IsSigning, IsPhrases and IsFold state what the theorems need of them.
--
-- Server (services/core-api/src/main.rs): Requests is the reading of a body with calls of the
-- backend in between, where an error keeps what the calls before it have committed; Reader,
-- Uploads, Syncs and Handlers are `dispatch`, one function for each type of frame and each number
-- of an operation; Responses is `handle_binary` with the answers. The library's operations are
-- those of Api, the frames those of Protocol. One reading of the clock stands for a request. What
-- other requests commit while a long poll waits, and whether it listens, are arguments.
--
-- Crypto (crates/messenger-crypto/src/lib.rs): Credentials is MemberCredential with its
-- verification, State the export, import and destruction of an engine's state, a HashMap being an
-- association list with each key once. The record OpenMls stands for the openmls crates: the codec
-- of a signer, the loading and the deletion of a group.
--
-- Loops run over lists or count down from a number that was read; no fuel is used.
--
-- Not modelled: the I/O of NetworkSender, the upgrade of an older database file, thread locks and
-- concurrent transactions, the router, metrics, health checks and shutdown of the server, the
-- notifications of PostgreSQL, the MLS operations of crates/messenger-crypto (calls of OpenMLS),
-- the bindings of crates/messenger-uniffi, the relay and the tools.
pub mod Prelude
pub mod Cursor
pub mod Protocol
pub mod Transport
pub mod Core
pub mod Api
pub mod Crypto
pub mod Identity
pub mod Fixtures
pub mod Server
