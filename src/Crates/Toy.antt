-- ===== src/Crates/Toy.antt =====
-- Concrete functions that satisfy the laws of the crates: the theorems' hypotheses can hold. These
-- are no cryptography.
use vaultex.Base.{
  bytes_eq, bytes_eq_refl, ℕ, suc, zero, ◌+◌, ◌≡◌, refl, arith, [], ◌∷◌, ◌++◌, Option, none, some,
  true, ◌==◌, if◌then◌else◌, Bytes, length, replicate, ap₂,
}
use vaultex.Crates.Sodium.{
  Sodium, TakesLength, AeadLaws, CurveLaws, SignLaws, BoxLaws, SecretBoxLaws,
}
use vaultex.Crates.Kdf.{Kdf, KdfLaws}

abbrev pub sized : ℕ → Bytes → Option Bytes
sized n b = if length b == n then some b else none

pub sized-TakesLength : (n : ℕ) → TakesLength n (sized n)
sized-TakesLength n = record { fits = λ b h. ground arith; misfits = λ b h. ground arith }

-- Adds two keys byte by byte.
abbrev pub combine : Bytes → Bytes → Bytes
combine [] ys = []
combine (x ∷ xs) [] = []
combine (x ∷ xs) (y ∷ ys) = (x + y) ∷ combine xs ys

pub combine_comm : (xs ys : Bytes) → combine xs ys ≡ combine ys xs
combine_comm [] [] = refl
combine_comm [] (y ∷ ys) = refl
combine_comm (x ∷ xs) [] = refl
combine_comm (x ∷ xs) (y ∷ ys) = ap₂ (λ h t. h ∷ t) (omega arith) (combine_comm xs ys)

pub length-combine : (xs ys : Bytes) → length xs ≡ length ys → length (combine xs ys) ≡ length xs
length-combine [] ys h = refl
length-combine (x ∷ xs) [] h = omega arith
length-combine (x ∷ xs) (y ∷ ys) h = omega (arith, length-combine xs ys (omega arith))

-- Fills up with zeros, or cuts, to n bytes.
abbrev pub resized : ℕ → Bytes → Bytes
resized zero b = []
resized (suc n) [] = 0 ∷ resized n []
resized (suc n) (x ∷ xs) = x ∷ resized n xs

pub length-resized : (n : ℕ) (b : Bytes) → length (resized n b) ≡ n
length-resized zero b = refl
length-resized (suc n) [] = omega (arith, length-resized n [])
length-resized (suc n) (x ∷ xs) = omega (arith, length-resized n xs)

-- Takes the mark of a sealed text off.
abbrev pub unseal : ℕ → Bytes → Option Bytes
unseal zero b = some b
unseal (suc n) [] = none
unseal (suc n) (x ∷ xs) = if x == 0 then unseal n xs else none

abbrev pub toy : Sodium
toy = record {
  init = true;
  aead_key_from_slice = sized 32;
  aead_nonce_from_slice = sized 24;
  aead_seal = λ plaintext ad nonce key. 0 ∷ plaintext;
  aead_open = λ ciphertext ad nonce key. unseal 1 ciphertext;
  public_key_from_slice = sized 32;
  secret_key_from_slice = sized 32;
  scalar_from_slice = sized 32;
  group_element_from_slice = sized 32;
  scalarmult = λ secret public. some (combine secret public);
  sign_public_key_from_slice = sized 32;
  sign_secret_key_from_slice = sized 64;
  signature_from_bytes = sized 64;
  sign_detached = λ m sk. resized 64 m;
  verify_detached = λ signature m pk. bytes_eq signature (resized 64 m);
  ed25519_pk_to_curve25519 = λ pk. some pk;
  ed25519_sk_to_curve25519 = λ sk. some (resized 32 sk);
  sealedbox_seal = λ draw m pk. 0 ∷ m;
  sealedbox_open = λ ciphertext pk sk. unseal 1 ciphertext;
  box_nonce_from_slice = sized 24;
  box_seal = λ m nonce pk sk. 0 ∷ m;
  box_open = λ ciphertext nonce pk sk. unseal 1 ciphertext;
  secretbox_nonce_from_slice = sized 24;
  secretbox_key_from_slice = sized 32;
  secretbox_seal = λ m nonce key. replicate 16 0 ++ m;
  secretbox_open = λ ciphertext nonce key. unseal 16 ciphertext;
}

abbrev pub toy-AeadLaws : AeadLaws toy
toy-AeadLaws = record {
  initialised = refl;
  key_length = sized-TakesLength 32;
  nonce_length = sized-TakesLength 24;
  open-seal = λ plaintext ad nonce key. refl;
}

pub toy_agree :
    (a b : Bytes)
    → length a ≡ 32
    → length b ≡ 32
    → (shared : Bytes) × (length shared ≡ 32)
      × (toy.scalarmult a b ≡ some shared)
      × (toy.scalarmult b a ≡ some shared)
toy_agree a b ha hb =
    (combine a b, omega (arith, length-combine a b), refl, ground (arith, combine_comm b a))

abbrev pub toy-CurveLaws : CurveLaws toy
toy-CurveLaws = record {
  public_length = sized-TakesLength 32;
  secret_length = sized-TakesLength 32;
  scalar_length = sized-TakesLength 32;
  group_length = sized-TakesLength 32;
  public_of = λ secret. secret;
  length-public_of = λ secret h. h;
  agree = toy_agree;
}

abbrev pub toy_kdf : Kdf
toy_kdf = record {
  hmac = λ key msg. some (resized 32 (msg ++ key));
  hkdf = λ salt ikm info n. some (resized n ikm);
}

abbrev pub toy-KdfLaws : KdfLaws toy_kdf
toy-KdfLaws = record {
  hmac_total = λ key msg. (resized 32 (msg ++ key), length-resized 32 _, refl);
  hkdf_total = λ salt ikm info n h. (resized n ikm, length-resized n ikm, refl);
}

abbrev pub toy-SignLaws : SignLaws toy toy-CurveLaws
toy-SignLaws = record {
  sign_public_length = sized-TakesLength 32;
  sign_secret_length = sized-TakesLength 64;
  signature_length = sized-TakesLength 64;
  verifying_key = resized 32;
  length-verifying_key = λ sk h. length-resized 32 sk;
  length-sign_detached = λ m sk. length-resized 64 m;
  verify-sign = λ m sk h. bytes_eq_refl (resized 64 m);
  converts = λ sk h. (resized 32 sk, length-resized 32 sk, refl, refl);
}

abbrev pub toy-BoxLaws : BoxLaws toy toy-CurveLaws
toy-BoxLaws = record {
  box_nonce_length = sized-TakesLength 24;
  sealedbox_open-seal = λ draw m sk h. refl;
  box_open-seal = λ m nonce a b ha hb. refl;
}

pub length-mark : (m : Bytes) → length (replicate 16 0 ++ m) ≡ length m + 16
length-mark m = omega arith

abbrev pub toy-SecretBoxLaws : SecretBoxLaws toy
toy-SecretBoxLaws = record {
  ready = refl;
  secretbox_nonce_length = sized-TakesLength 24;
  secretbox_key_length = sized-TakesLength 32;
  length-secretbox_seal = λ m nonce key. length-mark m;
  secretbox_open-seal = λ m nonce key. refl;
}
