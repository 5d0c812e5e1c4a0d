-- ===== src/DoubleRatchet/Wiping/Tests.antt =====
-- Dropped sessions with concrete keys: crates/vaultex-crypto/src/double_ratchet.rs.
use vaultex.Base.{◌≡◌, refl, [], some, replicate}
use vaultex.Crates.Memory.{toy_memory, toy_memory-MemoryLaws}
use vaultex.DoubleRatchet.State.{RatchetState}
use vaultex.DoubleRatchet.Tests.{alice}
use vaultex.DoubleRatchet.Wiping.{SameSizes, wipe_on_drop, wipe_on_drop_forgets}

-- Another session, with other keys.
abbrev other : RatchetState
other = record alice {
  root_key = replicate 32 77;
  sending_chain_key = some (replicate 32 78);
  send_message_number = 12;
}

alike : SameSizes alice other
alike = record { root = refl; sending = refl; receiving = refl; skipped = refl }

wipe_on_drop_forgets_example :
    let (s, freed) = wipe_on_drop toy_memory alice in
    let (t, freed') = wipe_on_drop toy_memory other in
    (s.root_key ≡ t.root_key)
    × (s.sending_chain_key ≡ t.sending_chain_key)
    × (s.receiving_chain_key ≡ t.receiving_chain_key)
    × (s.skipped_keys ≡ [])
    × (freed ≡ freed')
wipe_on_drop_forgets_example =
    wipe_on_drop_forgets toy_memory toy_memory-MemoryLaws alice other alike
