-- ===== src/DoubleRatchet/Persistence/Tests.antt =====
-- A concrete session, stored and restored: crates/vaultex-crypto/src/double_ratchet.rs.
use vaultex.Base.{ℕ, ◌≡◌, refl, ap, Option, List, [], ◌∷◌, Bytes, replicate}
use vaultex.Base.HashMap.{HashMap, lookup}
use vaultex.Errors.{ok, ◌>>=◌}
use vaultex.Crates.Toy.{toy, toy-CurveLaws}
use vaultex.Crates.Encoding.{Json, JsonLaws}
use vaultex.Crates.Codec.{Codec, num, str, opt, both, list, json_of, json_of-JsonLaws}
use vaultex.DoubleRatchet.State.{RatchetState, KeyPair, SkippedId, skipped_id}
use vaultex.Crates.Sodium.{IsKeyPair}
use vaultex.Crates.Toy.{toy_kdf}
use vaultex.DoubleRatchet.Session.{init_receiver, decrypt}
use vaultex.DoubleRatchet.State.{MessageHeader}
use vaultex.DoubleRatchet.Persistence.Restored.{Call, encrypts, decrypts, answers, restored_answers}
use vaultex.DoubleRatchet.Persistence.Invariant.{Reached, from_bytes-to_bytes-Reached}
use vaultex.DoubleRatchet.Persistence.{SkippedEntry, RatchetStateSer, to_bytes, from_bytes}

abbrev Entry : Type 0
Entry = Bytes × (ℕ × Bytes)

abbrev pack : SkippedEntry → Entry
pack (rpk, mn, mk) = (rpk, (mn, mk))

abbrev unpack : Entry → SkippedEntry
unpack (rpk, (mn, mk)) = (rpk, mn, mk)

abbrev map_list : {A B : Type 0} → (A → B) → List A → List B
map_list f [] = []
map_list f (a ∷ l) = f a ∷ map_list f l

unpack-pack : (l : List SkippedEntry) → map_list unpack (map_list pack l) ≡ l
unpack-pack [] = refl
unpack-pack (e ∷ l) = ap (λ t. e ∷ t) (unpack-pack l)

abbrev Keys : Type 0
Keys = Bytes × (Option Bytes × (Option Bytes × (Option Bytes × (Option Bytes × Option Bytes))))

abbrev Counts : Type 0
Counts = ℕ × (ℕ × (ℕ × List Entry))

abbrev parts : RatchetStateSer → Keys × Counts
parts s = (
  (
    s.root_key,
    (
      s.sending_chain_key,
      (s.receiving_chain_key, (s.sending_public_key, (s.sending_secret_key, s.remote_ratchet_key))),
    ),
  ),
  (
    s.send_message_number,
    (s.recv_message_number, (s.previous_chain_length, map_list pack s.skipped_keys)),
  ),
)

abbrev whole : Keys × Counts → RatchetStateSer
whole
      (
        (root, (sending, (receiving, (public, (secret, remote))))),
        (sent, (received, (previous, entries))),
      ) =
    record {
      root_key = root;
      sending_chain_key = sending;
      receiving_chain_key = receiving;
      sending_public_key = public;
      sending_secret_key = secret;
      remote_ratchet_key = remote;
      send_message_number = sent;
      recv_message_number = received;
      previous_chain_length = previous;
      skipped_keys = map_list unpack entries;
    }

abbrev codec : Codec (Keys × Counts)
codec =
    both (both str (both (opt str) (both (opt str) (both (opt str) (both (opt str) (opt str))))))
      (both num (both num (both num (list (both str (both num str))))))

abbrev toy_json : Json RatchetStateSer
toy_json = json_of codec parts whole

abbrev set_entries : RatchetStateSer → List SkippedEntry → RatchetStateSer
set_entries s l = record s { skipped_keys = l }

whole-parts : (s : RatchetStateSer) → whole (parts s) ≡ s
whole-parts s = ap (set_entries s) (unpack-pack s.skipped_keys)

toy_json-JsonLaws : JsonLaws RatchetStateSer toy_json
toy_json-JsonLaws = json_of-JsonLaws codec parts whole whole-parts

abbrev pair : KeyPair
pair = (replicate 32 1, replicate 32 1)

abbrev remote : Bytes
remote = replicate 32 2

pair-IsKeyPair : IsKeyPair toy toy-CurveLaws pair
pair-IsKeyPair = record { length_secret = refl; public_eq = refl }

abbrev header : MessageHeader
header = record { ratchet_public_key = remote; previous_chain_length = 0; message_number = 2 }

-- The receiver after a forged message that skips two keys.
abbrev forged : RatchetState
forged = (decrypt toy toy_kdf pair header [] [] (init_receiver (replicate 32 7) pair)).1

forged-Reached : Reached toy toy_kdf toy-CurveLaws forged
forged-Reached =
    Reached.decrypted pair header [] [] pair-IsKeyPair
      (Reached.receiver pair (replicate 32 7) pair-IsKeyPair)

from_bytes-to_bytes-Reached_example :
    (m : HashMap SkippedId Bytes) × ((to_bytes toy_json forged >>= from_bytes toy toy_json)
      ≡ ok (record forged { skipped_keys = m }))
    × ((k : SkippedId) → lookup k m ≡ lookup k forged.skipped_keys)
from_bytes-to_bytes-Reached_example =
    from_bytes-to_bytes-Reached toy toy_kdf toy-CurveLaws toy_json toy_json-JsonLaws forged
      forged-Reached

abbrev some_calls : List Call
some_calls =
    encrypts (replicate 24 9) [] []
    ∷ decrypts pair (record header { message_number = 1 }) [] []
    ∷ decrypts pair header [] []
    ∷ []

restored_answers_example :
    (s' : RatchetState) × ((to_bytes toy_json forged >>= from_bytes toy toy_json) ≡ ok s')
    × (answers toy toy_kdf some_calls s' ≡ answers toy toy_kdf some_calls forged)
restored_answers_example =
    restored_answers toy toy_kdf toy-CurveLaws toy_json toy_json-JsonLaws forged some_calls
      forged-Reached
