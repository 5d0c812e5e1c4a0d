-- ===== src/DoubleRatchet/Wiping.antt =====
-- crates/vaultex-crypto/src/double_ratchet.rs: what `drop` leaves of a session in memory.
mod Tests
use mathlib.Core.Option
use vaultex.Base.{
  ◌≡◌, refl, sym, ap, ap₂, ◌∙◌, Option, none, some, List, [], ◌∷◌, map, Bytes, length, ℕ, replicate,
}
use vaultex.Base.HashMap.{HashMap}
use vaultex.Crates.Memory.{Memory, MemoryLaws}
use vaultex.DoubleRatchet.State.{RatchetState, SkippedId}

module _ (memory : Memory) where
  -- The message keys of the map, each wiped, as they are when the map is cleared.
  unfoldable pub wiped_keys : HashMap SkippedId Bytes → List Bytes
  wiped_keys [] = []
  wiped_keys ((id, mk) ∷ m) = memory.zeroize mk ∷ wiped_keys m

  -- The session's own fields after the call, and what the entries of the map held when it was cleared. The sending key pair
  -- is wiped by its own type.
  unfoldable pub wipe_on_drop : RatchetState → RatchetState × List Bytes
  wipe_on_drop self = (
    record self {
      root_key = memory.zeroize self.root_key;
      sending_chain_key = Option.map memory.zeroize self.sending_chain_key;
      receiving_chain_key = Option.map memory.zeroize self.receiving_chain_key;
      skipped_keys = [];
    },
    wiped_keys self.skipped_keys,
  )

abbrev pub sizes : HashMap SkippedId Bytes → List ℕ
sizes m = map (λ (entry : SkippedId × Bytes). length entry.1) m

-- Two sessions with as many keys, of the same sizes.
pub record SameSizes (s t : RatchetState) : Type 0 where
  pub root : length s.root_key ≡ length t.root_key
  pub sending : Option.map length s.sending_chain_key ≡ Option.map length t.sending_chain_key
  pub receiving : Option.map length s.receiving_chain_key ≡ Option.map length t.receiving_chain_key
  pub skipped : sizes s.skipped_keys ≡ sizes t.skipped_keys

module _ (memory : Memory) (laws : MemoryLaws memory) where
  zeros : ℕ → Bytes
  zeros n = replicate n 0

  wiped_option :
      (o : Option Bytes) → Option.map memory.zeroize o ≡ Option.map zeros (Option.map length o)
  unfolding zeros
  wiped_option none = refl
  wiped_option (some b) = ap some (laws.zeroize_zeros b)

  wiped_keys_lem : (m : HashMap SkippedId Bytes) → wiped_keys memory m ≡ map zeros (sizes m)
  unfolding wiped_keys zeros
  wiped_keys_lem [] = refl
  wiped_keys_lem ((id, mk) ∷ m) = ap₂ (λ h t. h ∷ t) (laws.zeroize_zeros mk) (wiped_keys_lem m)

  -- What a dropped session leaves in memory of its root key, its chain keys and its stored message keys
  -- depends on their number and sizes alone: it is the same for any two sessions with as many keys of
  -- the same sizes, and the map of stored keys is empty.
  pub wipe_on_drop_forgets :
      (s t : RatchetState)
      → SameSizes s t
      → let (s', freed) = wipe_on_drop memory s in
        let (t', freed') = wipe_on_drop memory t in
        (s'.root_key ≡ t'.root_key)
        × (s'.sending_chain_key ≡ t'.sending_chain_key)
        × (s'.receiving_chain_key ≡ t'.receiving_chain_key)
        × (s'.skipped_keys ≡ [])
        × (freed ≡ freed')
  unfolding wipe_on_drop zeros
  wipe_on_drop_forgets s t same = (
    laws.zeroize_zeros s.root_key ∙ ap zeros same.root ∙ sym (laws.zeroize_zeros t.root_key),
    wiped_option s.sending_chain_key
        ∙ ap (Option.map zeros) same.sending
        ∙ sym (wiped_option t.sending_chain_key),
    wiped_option s.receiving_chain_key
        ∙ ap (Option.map zeros) same.receiving
        ∙ sym (wiped_option t.receiving_chain_key),
    refl,
    wiped_keys_lem s.skipped_keys
        ∙ ap (map zeros) same.skipped
        ∙ sym (wiped_keys_lem t.skipped_keys),
  )
