-- ===== src/DoubleRatchet.antt =====
-- crates/vaultex-crypto/src/double_ratchet.rs: the Double Ratchet of one session.
pub mod State
pub mod Keys
pub mod Session
pub mod Init
pub mod Skipping
pub mod Delivery
pub mod Linked
pub mod OutOfOrder
pub mod Handshake
pub mod Conversation
pub mod Turn
pub mod Turns
pub mod Tests
pub mod Adoption
pub mod Storage
pub mod Persistence
pub mod Inbox
pub mod Keypairs
pub mod Wiping
