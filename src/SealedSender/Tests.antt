-- ===== src/SealedSender/Tests.antt =====
-- Concrete envelopes through crates/vaultex-crypto/src/sealed_sender.rs.
use vaultex.Base.{ℕ, ◌≡◌, refl, true, [], ◌∷◌, Bytes, replicate}
use vaultex.Base.Utf8.{is_utf8, well_formed}
use vaultex.Errors.{ok, ◌>>=◌}
use vaultex.Crates.Toy.{toy, toy-CurveLaws, toy-SignLaws, toy-BoxLaws}
use vaultex.Crates.Encoding.{Json, JsonLaws}
use vaultex.Crates.Codec.{str, both, json_of, json_of-JsonLaws}
use vaultex.Identity.{IdentityKeyPair}
use vaultex.Identity.Laws.{IsIdentity}
use vaultex.SealedSender.{SealedSenderEnvelope, encrypt_to_identity, decrypt_from_identity}
use vaultex.SealedSender.RoundTrip.{decrypt_from_identity-encrypt_to_identity}

abbrev parts : SealedSenderEnvelope → Bytes × Bytes
parts e = (e.encrypted_sender, e.encrypted_message)

abbrev whole : Bytes × Bytes → SealedSenderEnvelope
whole (sender, message) = record { encrypted_sender = sender; encrypted_message = message }

abbrev pub toy_json : Json SealedSenderEnvelope
toy_json = json_of (both str str) parts whole

pub toy_json-JsonLaws : JsonLaws SealedSenderEnvelope toy_json
toy_json-JsonLaws = json_of-JsonLaws (both str str) parts whole (λ e. refl)

abbrev bob_pair : Bytes × Bytes
bob_pair = (replicate 32 2, replicate 32 2)

abbrev pub sender : Bytes
sender = 97 ∷ 98 ∷ []

abbrev message : Bytes
message = 0 ∷ 255 ∷ []

pub sender-utf8 : is_utf8 sender ≡ true
unfolding is_utf8 well_formed
sender-utf8 = refl

abbrev identity : ℕ → IdentityKeyPair
identity n = record { public_key = replicate 32 n; secret_key = replicate 64 n }

identity-IsIdentity : (n : ℕ) → IsIdentity toy toy-CurveLaws toy-SignLaws (identity n)
identity-IsIdentity n = record { length_secret = refl; public_eq = refl }

decrypt_from_identity-encrypt_to_identity_example :
    (encrypt_to_identity toy (replicate 24 9) (identity 1) (identity 2).public_key message
      >>= decrypt_from_identity toy (identity 2) (identity 1).public_key)
    ≡ ok message
decrypt_from_identity-encrypt_to_identity_example =
    decrypt_from_identity-encrypt_to_identity toy toy-CurveLaws toy-SignLaws toy-BoxLaws
      (identity 1) (identity 2) (replicate 24 9) message refl (identity-IsIdentity 1)
      (identity-IsIdentity 2) refl
