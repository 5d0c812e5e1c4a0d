-- ===== src/Prekeys/Tests.antt =====
-- Concrete prekeys through crates/vaultex-crypto/src/prekeys.rs.
use vaultex.Base.{ℕ, refl, ◌≡◌, arith, List, map, Bytes, replicate}
use vaultex.Errors.{ok}
use vaultex.Prekeys.{OneTimePreKey, generate_one_time_prekeys, one_time_prekey_batch_size}
use vaultex.Prekeys.Laws.{ids_from, pairs_from, id_of, pair_of, generate_one_time_prekeys_lem}
use vaultex.Crates.Toy.{toy}

abbrev drawn : ℕ → Bytes × Bytes
drawn i = (replicate 32 i, replicate 32 i)

generate_one_time_prekeys_lem_example :
    (keys : List OneTimePreKey) × (generate_one_time_prekeys toy drawn one_time_prekey_batch_size
        100
      ≡ ok keys)
    × (map id_of keys ≡ ids_from 100 one_time_prekey_batch_size)
    × (map pair_of keys ≡ pairs_from drawn 0 one_time_prekey_batch_size)
generate_one_time_prekeys_lem_example =
    generate_one_time_prekeys_lem toy drawn one_time_prekey_batch_size 100 refl (omega arith)
