-- ===== src/Lib.antt =====
-- The cryptography of VAULTEX: crates/vaultex-crypto, and the authentication middleware of the server in
-- extracted/server-middleware/auth.rs.
--
-- A client has an Ed25519 identity (identity.rs), publishes prekeys (prekeys.rs), agrees on a secret with a
-- peer's bundle (x3dh.rs) and runs a Double Ratchet session with it (double_ratchet.rs), whose messages are
-- encrypted by aes_gcm.rs. What is encrypted is a payload (message_payload.rs), padded to a bucket
-- (padding.rs). Envelopes hide the sender (sealed_sender.rs), attachments are encrypted apart (media.rs),
-- groups are lists of members to whom a message is sent one by one (group.rs), users compare safety numbers
-- (safety_number.rs), and requests are signed (auth.rs) for the server's middleware to admit.
--
-- The files, by module, with the source under crates/vaultex-crypto/src:
--   Base: notation, lists, byte strings, decimal numbers, UTF-8, and the hash map (Base.HashMap).
--   Errors: errors.rs, and `?` as a bind.
--   Crates: the third-party crates as records of operations, their documented laws, and concrete functions
--     that satisfy the laws (Crates.Toy, Crates.ToyHex, Crates.Codec, toy_memory), which the examples use.
--     Crates.Memory is zeroize and `memzero`.
--   Padding: padding.rs. Bucket is about `bucket_size`, Suffix about the length bytes.
--   AesGcm: aes_gcm.rs.
--   Identity: identity.rs. Fingerprint is about `public_key_fingerprint`.
--   DoubleRatchet: double_ratchet.rs. State has the records, and methods as functions of the state; Keys
--     the key derivations; Session and Init the operations; Wiping what `drop` leaves; Persistence
--     `to_bytes` and `from_bytes` (its children say when they may be called, and Twin and Restored that a
--     restored session goes on like the stored one). The proofs are in Skipping and Delivery (one call of
--     `decrypt`), Linked and OutOfOrder (one chain), Handshake, Conversation, Turn and Turns (a session
--     over any turns, each message arriving before the next is sent), Adoption and Storage (what an
--     unauthenticated message does). Inbox is the abstract specification of a receiving chain, which
--     numbers it still opens and nothing else: Refines says that `decrypt` is an inbox with keys,
--     Sequences is about whatever arrives on one chain, AnyOrder about a batch of messages on a chain that
--     is received already, FirstBatch about the first batch of a chain, whose messages the receiver may
--     get in any order and repeated, after a session without losses, and NextChain about the step to the
--     peer's next chain.
--   X3dh: x3dh.rs. Agreement has both sides, FirstMessage joins them to a session, Refusal says what a
--     derived secret rests on.
--   Flow: the components together, as crates/vaultex-crypto/tests/e2e_message_flow.rs joins them. Delivery
--     takes a payload through padding, session and envelope, Prekeys starts a session from published
--     prekeys, Lengths compares the sizes of ciphertexts.
--   Group: group.rs. MemberSet is the abstract specification, a set of members as a quotient of lists, and
--     Calls relates any sequence of calls to it.
--   Scenarios: crates/vaultex-crypto/tests/e2e_message_flow.rs, its `setup_session` and three of its tests as
--     programs that panic where an assertion fails or `unwrap` meets an error. Setup, Exchange, FullFlow,
--     SealedSender and OutOfOrder say that they pass whatever is drawn. Audit is about four tests of
--     crates/vaultex-crypto/tests/security_audit_tests.rs and its own `setup_session` likewise.
--   MessagePayload, SafetyNumber, Media, Security, Prekeys, SealedSender, Auth: the files of these
--     names.
--   Server: extracted/server-middleware/auth.rs. Admission is what a request must satisfy, Window the
--     exact condition and how long a request can be replayed, Client the requests that Auth signs.
--
-- Names are those of the source, in snake case. Two methods of one name in one file are told apart by a suffix
-- or prefix (Prekeys.generate_signed, Prekeys.generate_one_time, AesGcm.encrypt_with). A method with `&mut self`
-- is a function of the state that returns its result and the state after it, so that a method which fails
-- keeps what it wrote before. What the code draws at random, and the clock, are arguments. A `String` is its
-- UTF-8 bytes, a key its bytes, a `HashMap` an association list. A `u32` counter wraps, as it does without
-- overflow checks; with them the program stops instead, at 2^32 messages of one chain.
--
-- Loops are structural recursion on the number of turns; `next_power_of_two` doubles from 1 at most 64
-- times, enough wherever `usize::next_power_of_two` does not overflow (up to 2^63), and for the sizes up to
-- 65536 that padding.rs calls it with (bucket_size_room and bucket_size_least, in Padding.Bucket). `digits`
-- (Base.Decimal) has twenty turns, enough for every `u64`.
--
-- Dropping a value is a function to what its memory then holds; when Rust drops it is not modelled.
--
-- Not modelled: the debug assertions on drawn keys (identity.rs, prekeys.rs) and on the padded length
-- (padding.rs), logging, the display texts of errors, the time that a comparison takes, lib.rs, the tests
-- that are not named above, and secrecy: the laws of the crates say that honest messages open, not that
-- others do not. The debug assertion of `secure_random_bytes` is modelled, with the build as an argument.
-- `trim` and `to_uppercase` are those of ASCII text, which is all that the code applies them to.
pub mod Base
pub mod Crates
pub mod Errors
pub mod Padding
pub mod AesGcm
pub mod DoubleRatchet
pub mod Identity
pub mod X3dh
pub mod MessagePayload
pub mod Group
pub mod SafetyNumber
pub mod Media
pub mod Security
pub mod Prekeys
pub mod SealedSender
pub mod Flow
pub mod Scenarios
pub mod Auth
pub mod Server
