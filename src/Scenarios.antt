-- ===== src/Scenarios.antt =====
-- crates/vaultex-crypto/tests/e2e_message_flow.rs: the integration tests, as programs that panic (`none`)
-- where an assertion fails or `unwrap` meets an error. All draws are arguments.
use mathlib.Core.Option
pub mod Setup
pub mod Exchange
pub mod FullFlow
pub mod SealedSender
pub mod OutOfOrder
pub mod Audit
mod Tests
use vaultex.Base.{
  ℕ, zero, suc, Bool, if◌then◌else◌, Option, none, some, List, [], ◌∷◌, Bytes, text, bytes_eq,
  get_elem?,
}
use vaultex.Errors.{Either, Result, ok, err}
use vaultex.Crates.Sodium.{Sodium}
use vaultex.Crates.Kdf.{Kdf}
use vaultex.Identity.{IdentityKeyPair, generate}
use vaultex.Prekeys.{OneTimePreKey, generate_signed, verify, generate_one_time_prekeys}
use vaultex.X3dh.{RecipientPreKeyBundle, initiate_x3dh, accept_x3dh}
use vaultex.DoubleRatchet.State.{RatchetState, KeyPair, MessageHeader}
use vaultex.DoubleRatchet.Session.{encrypt, decrypt, init_receiver}
use vaultex.DoubleRatchet.Init.{init_sender}

infixl 5 ◌>>=◌ ◌>>◌
abbrev pub ◌>>=◌ {ℓ κ} : {A : Type ℓ} {B : Type κ} → Option A → (A → Option B) → Option B
o >>= f = elim o [ none ↦ none | some a ↦ f a ]

abbrev pub ◌>>◌ {ℓ κ} : {A : Type ℓ} {B : Type κ} → Option A → Option B → Option B
o >> p = o >>= λ _. p

unfoldable pub unwrap {ℓ μ} : {E : Type μ} {A : Type ℓ} → Either E A → Option A
unwrap (ok a) = some a
unwrap (err e) = none

-- `unwrap` of what a method returned, with the session after the call.
unfoldable pub unwrap_call {ℓ} : {A : Type ℓ} → Result A × RatchetState → Option (A × RatchetState)
unwrap_call (ok a, s) = some (a, s)
unwrap_call (err e, s) = none

unfoldable pub assert : Bool → Option (Unit {0})
assert holds = if holds then some tt else none

-- The key pairs that setting up a session draws.
pub record SetupDraws : Type 0 where
  pub alice : Bytes × Bytes
  pub bob : Bytes × Bytes
  pub signed_prekey : KeyPair
  pub one_time_prekeys : ℕ → KeyPair
  pub ephemeral : KeyPair
  pub ratchet : KeyPair

-- What the n-th message draws: the sender's nonce, and the receiver's next ratchet key pair.
pub record TurnDraws : Type 0 where
  pub nonce : ℕ → Bytes
  pub fresh : ℕ → KeyPair

abbrev pub Users : Type 0
Users = RatchetState × RatchetState × IdentityKeyPair × IdentityKeyPair

abbrev pub messages : List (Bytes × Bytes)
messages =
    (text "alice", text "How are you?")
    ∷ (text "bob", text "Good, thanks! And you?")
    ∷ (text "alice", text "Great! Working on VAULTEX.")
    ∷ (text "bob", text "Awesome, the crypto layer is solid.")
    ∷ (text "alice", text "Let's ship it!")
    ∷ []

module _ (na : Sodium) (hk : Kdf) where
  unfoldable pub setup_session : SetupDraws → Option Users
  unfolding unwrap assert
  setup_session draws = do
    assert na.init
    alice_id ← unwrap (generate na draws.alice)
    bob_id ← unwrap (generate na draws.bob)
    bob_spk ← unwrap (generate_signed na draws.signed_prekey bob_id 1)
    bob_otpks ← unwrap (generate_one_time_prekeys na draws.one_time_prekeys 5 100)
    otpk ← get_elem? bob_otpks 0
    let bundle : RecipientPreKeyBundle = record {
      identity_key = bob_id.public_key;
      signed_prekey = bob_spk.public_key;
      signed_prekey_signature = bob_spk.signature;
      one_time_prekey = some (otpk.prekey_id, otpk.public_key);
    }
    assert (verify na bob_spk bob_id.public_key)
    init_result ← unwrap (initiate_x3dh na hk draws.ephemeral alice_id bundle)
    bob_shared_secret ← unwrap (
        accept_x3dh na hk bob_id bob_spk.secret_key (some otpk.secret_key) alice_id.public_key
          init_result.ephemeral_public_key)
    assert (bytes_eq init_result.shared_secret bob_shared_secret)
    alice_ratchet ←
        unwrap (init_sender na hk draws.ratchet init_result.shared_secret bob_spk.public_key)
    let bob_ratchet = init_receiver bob_shared_secret (bob_spk.public_key, bob_spk.secret_key)
    some (alice_ratchet, bob_ratchet, alice_id, bob_id)

  -- The n-th message, from one session to the other, with the assertion on its text.
  unfoldable pub message :
      TurnDraws
      → ℕ
      → Bytes
      → Bytes
      → RatchetState
      → RatchetState
      → Option (RatchetState × RatchetState)
  unfolding unwrap_call assert
  message draws n plaintext ad sender receiver = do
    ((header, ct), sender') ← unwrap_call (encrypt na hk (draws.nonce n) plaintext ad sender)
    (pt, receiver') ← unwrap_call (decrypt na hk (draws.fresh n) header ct ad receiver)
    assert (bytes_eq pt plaintext)
    some (sender', receiver')

  -- The turns of the loop over messages, each with its sender's name, from the n-th on.
  unfoldable pub exchange :
      TurnDraws
      → ℕ
      → List (Bytes × Bytes)
      → Bytes
      → RatchetState
      → RatchetState
      → Option (RatchetState × RatchetState)
  unfolding message
  exchange draws n [] ad alice bob = some (alice, bob)
  exchange draws n ((sender, words) ∷ more) ad alice bob = do
    (alice', bob') ←
        if bytes_eq sender (text "alice")
        then message draws n words ad alice bob
        else (do (bob', alice') ← message draws n words ad bob alice; some (alice', bob'))
    exchange draws (suc n) more ad alice' bob'

  unfoldable pub test_full_message_flow_alice_to_bob : SetupDraws → TurnDraws → Option (Unit {0})
  unfolding setup_session message exchange
  test_full_message_flow_alice_to_bob setup draws = do
    (alice, bob, _, _) ← setup_session setup
    let ad = text "e2e-session"
    (alice1, bob1) ← message draws 0 (text "Hello Bob!") ad alice bob
    (bob2, alice2) ← message draws 1 (text "Hi Alice!") ad bob1 alice1
    _ ← exchange draws 2 messages ad alice2 bob2
    some tt
