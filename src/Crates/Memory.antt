-- ===== src/Crates/Memory.antt =====
-- The crate zeroize, and `memzero` of sodiumoxide: what a slice holds after the call.
use vaultex.Base.{◌≡◌, refl, Bytes, length, replicate}

pub record Memory : Type 0 where
  pub zeroize : Bytes → Bytes
  pub memzero : Bytes → Bytes

pub record MemoryLaws (memory : Memory) : Type 0 where
  pub zeroize_zeros : (b : Bytes) → memory.zeroize b ≡ replicate (length b) 0
  pub memzero_zeros : (b : Bytes) → memory.memzero b ≡ replicate (length b) 0

abbrev pub toy_memory : Memory
toy_memory = record { zeroize = λ b. replicate (length b) 0; memzero = λ b. replicate (length b) 0 }

abbrev pub toy_memory-MemoryLaws : MemoryLaws toy_memory
toy_memory-MemoryLaws = record { zeroize_zeros = λ b. refl; memzero_zeros = λ b. refl }
