-- ===== src/X3dh/Tests.antt =====
-- A concrete agreement: crates/vaultex-crypto/src/x3dh.rs.
use vaultex.Base.{
  ℕ, ◌≡◌, ◌≢◌, ap, arith, get_or, refl, true, some, Bytes, replicate, bytes_eq, length,
}
use vaultex.Errors.{ok}
use vaultex.Crates.Sodium.{IsKeyPair}
use vaultex.Crates.Toy.{
  toy, toy_kdf, toy-AeadLaws, toy-CurveLaws, toy-SignLaws, toy-KdfLaws, resized,
}
use vaultex.Identity.{IdentityKeyPair}
use vaultex.Identity.Laws.{IsIdentity}
use vaultex.X3dh.{RecipientPreKeyBundle, X3dhInitResult, initiate_x3dh, accept_x3dh}
use vaultex.X3dh.Refusal.{id_of_bundle, initiate_x3dh_sound}
use vaultex.X3dh.Agreement.{OneTime, in_bundle, accept_x3dh-initiate_x3dh}

abbrev pub pair_of : ℕ → Bytes × Bytes
pair_of n = (replicate 32 n, replicate 32 n)

pub pair_of-IsKeyPair : (n : ℕ) → IsKeyPair toy toy-CurveLaws (pair_of n)
pair_of-IsKeyPair n = record { length_secret = refl; public_eq = refl }

abbrev pub identity : ℕ → IdentityKeyPair
identity n = record { public_key = replicate 32 n; secret_key = replicate 64 n }

pub identity-IsIdentity : (n : ℕ) → IsIdentity toy toy-CurveLaws toy-SignLaws (identity n)
identity-IsIdentity n = record { length_secret = refl; public_eq = refl }

abbrev one_time : OneTime
one_time = some (17, pair_of 6)

abbrev signature : Bytes
signature = resized 64 (replicate 32 4)

signed : toy.verify_detached signature (replicate 32 4) (replicate 32 2) ≡ true
unfolding bytes_eq
signed = refl

abbrev bundle : Bytes → RecipientPreKeyBundle
bundle sig = record {
  identity_key = (identity 2).public_key;
  signed_prekey = (pair_of 4).0;
  signed_prekey_signature = sig;
  one_time_prekey = in_bundle one_time;
}

accept_x3dh-initiate_x3dh_example :
    (secret : Bytes) × (initiate_x3dh toy toy_kdf (pair_of 3) (identity 1) (bundle signature)
      ≡ ok (record {
        shared_secret = secret;
        ephemeral_public_key = (pair_of 3).0;
        used_one_time_prekey_id = some 17;
      }))
    × (accept_x3dh toy toy_kdf
          (identity 2)
          (pair_of 4).1
          (some (pair_of 6).1)
          (identity 1).public_key
          (pair_of 3).0
        ≡ ok secret)
accept_x3dh-initiate_x3dh_example =
    accept_x3dh-initiate_x3dh toy toy_kdf toy-AeadLaws toy-CurveLaws toy-SignLaws toy-KdfLaws
      (identity 1) (identity 2) (pair_of 3) (pair_of 4) one_time signature (identity-IsIdentity 1)
      (identity-IsIdentity 2) (pair_of-IsKeyPair 3) (pair_of-IsKeyPair 4) (pair_of-IsKeyPair 6)
      signed

abbrev started : Bytes → X3dhInitResult
started secret = record {
  shared_secret = secret;
  ephemeral_public_key = (pair_of 3).0;
  used_one_time_prekey_id = some 17;
}

initiate_x3dh_sound_example :
    (secret : Bytes) × ((toy.verify_detached signature (replicate 32 4) (replicate 32 2) ≡ true)
      × (length secret ≡ 32)
      × ((started secret).ephemeral_public_key ≡ replicate 32 3)
      × ((started secret).used_one_time_prekey_id ≡ id_of_bundle (bundle signature)))
initiate_x3dh_sound_example =
    let (secret, initiated, _) =
      accept_x3dh-initiate_x3dh toy toy_kdf toy-AeadLaws toy-CurveLaws toy-SignLaws toy-KdfLaws
        (identity 1) (identity 2) (pair_of 3) (pair_of 4) one_time signature (identity-IsIdentity 1)
        (identity-IsIdentity 2) (pair_of-IsKeyPair 3) (pair_of-IsKeyPair 4) (pair_of-IsKeyPair 6)
        signed in
    (
      secret,
      initiate_x3dh_sound toy toy_kdf toy-KdfLaws (pair_of 3) (identity 1) (bundle signature)
          (started secret) initiated,
    )

abbrev pub sending : Bytes × Bytes
sending = pair_of 8

abbrev pub fresh : Bytes × Bytes
fresh = pair_of 9

pub fresh-IsNew : fresh.0 ≢ (pair_of 4).0
fresh-IsNew e = absurd (ground (arith, ap (λ l. get_or l 0 0) e))
