-- ===== src/DoubleRatchet/Persistence/Invariant.antt =====
-- crates/vaultex-crypto/src/double_ratchet.rs: every session that calls lead to can be stored and restored.
use mathlib.Core.Path.{subst}
use vaultex.Base.{not, length, some-eq, ◌≡◌, sym, ap, ◌∙◌, none, some, Bytes}
use vaultex.Base.HashMap.{HashMap, lookup}
use vaultex.Errors.{◌>>=◌, >>=-eq-ok, ok-eq, reject_if, init_failed, ok}
use vaultex.Crates.Sodium.{Sodium, CurveLaws, IsKeyPair}
use vaultex.Crates.Kdf.{Kdf}
use vaultex.DoubleRatchet.State.{MessageHeader, RatchetState, KeyPair, SkippedId, skipped_id}
use vaultex.DoubleRatchet.Session.{decrypt, encrypt, init_receiver}
use vaultex.DoubleRatchet.Init.{init_sender}
use vaultex.DoubleRatchet.Persistence.{RatchetStateSer, to_bytes, from_bytes, from_bytes-to_bytes}
use vaultex.Crates.Encoding.{Json, JsonLaws}
use vaultex.DoubleRatchet.Keys.{dh_exchange, kdf_rk}
use vaultex.DoubleRatchet.Persistence.Fit.{Fit, IsSized-pair, decrypt-Keeps, encrypt-Keeps}

module _ (na : Sodium) (kdf : Kdf) where
  -- The states of one side after any calls, failed ones included, with key pairs as draws.
  pub data Reached (curve : CurveLaws na) : RatchetState → Type 0 where
    sender :
        {a : RatchetState} (pair : KeyPair) (secret remote : Bytes)
        → IsKeyPair na curve pair
        → length remote ≡ 32
        → init_sender na kdf pair secret remote ≡ ok a
        → Reached curve a
    receiver :
        (pair : KeyPair) (secret : Bytes)
        → IsKeyPair na curve pair
        → Reached curve (init_receiver secret pair)
    encrypted :
        {s : RatchetState} (nonce plaintext ad : Bytes)
        → Reached curve s
        → Reached curve (encrypt na kdf nonce plaintext ad s).1
    decrypted :
        {s : RatchetState} (fresh : KeyPair) (header : MessageHeader) (ct ad : Bytes)
        → IsKeyPair na curve fresh
        → Reached curve s
        → Reached curve (decrypt na kdf fresh header ct ad s).1

  init_sender-Fit :
      (pair : KeyPair) (secret remote : Bytes) (a : RatchetState)
      → length pair.0 ≡ 32
      → length pair.1 ≡ 32
      → length remote ≡ 32
      → init_sender na kdf pair secret remote ≡ ok a
      → Fit a
  unfolding init_sender
  init_sender-Fit pair secret remote a public private sized h =
      let (u, _, h1) = >>=-eq-ok (reject_if (not na.init) init_failed) _ h in
      let (shared, _, h2) = >>=-eq-ok (dh_exchange na pair.1 remote) _ h1 in
      let (keys, _, h3) = >>=-eq-ok (kdf_rk kdf secret shared) _ h2 in
      subst Fit (ok-eq h3) (
        tt,
        IsSized-pair pair (some remote) public private (λ b e. ap length (sym (some-eq e)) ∙ sized),
      )

  public_sized :
      (curve : CurveLaws na) (pair : KeyPair) → IsKeyPair na curve pair → length pair.0 ≡ 32
  public_sized curve pair k = ap length k.public_eq ∙ curve.length-public_of pair.1 k.length_secret

  Reached-Fit : (curve : CurveLaws na) {s : RatchetState} → Reached curve s → Fit s
  unfolding init_receiver
  Reached-Fit curve (sender {a} pair secret remote k sized e) =
      init_sender-Fit pair secret remote a (public_sized curve pair k) k.length_secret sized e
  Reached-Fit curve (receiver pair secret k) =
      (tt, IsSized-pair pair none (public_sized curve pair k) k.length_secret (λ b e. cc))
  Reached-Fit curve (encrypted {s} nonce plaintext ad r) =
      encrypt-Keeps na kdf nonce plaintext ad s (Reached-Fit curve r)
  Reached-Fit curve (decrypted {s} fresh header ct ad k r) =
      decrypt-Keeps na kdf curve fresh header ct ad s (public_sized curve fresh k) k.length_secret
        (Reached-Fit curve r)

  -- At every point of the life of a session, after any calls of `encrypt` and `decrypt` with any
  -- arguments, failed ones included, and with key pairs as draws, the session is stored and restored:
  -- every field comes back, and every lookup of a message key has the answer that it had.
  pub from_bytes-to_bytes-Reached :
      (curve : CurveLaws na) (json : Json RatchetStateSer) (laws : JsonLaws RatchetStateSer json)
      (s : RatchetState)
      → Reached curve s
      → (m : HashMap SkippedId Bytes) × ((to_bytes json s >>= from_bytes na json)
          ≡ ok (record s { skipped_keys = m }))
        × ((k : SkippedId) → lookup k m ≡ lookup k s.skipped_keys)
  from_bytes-to_bytes-Reached curve json laws s r =
      let (distinct, sized) = Reached-Fit curve r in
      from_bytes-to_bytes na curve json laws s distinct sized
