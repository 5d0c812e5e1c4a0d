-- ===== src/Crates.antt =====
-- The third-party crates that the program calls: their operations are parameters of the model, and
-- what the program relies on is stated as laws, taken from their documentation.
pub mod Sodium
pub mod Kdf
pub mod Toy
pub mod Encoding
pub mod Codec
pub mod ToyHex
pub mod Memory
