-- ===== src/DoubleRatchet/Persistence/Restored.antt =====
-- crates/vaultex-crypto/src/double_ratchet.rs: what a session that was stored and restored does.
use vaultex.Base.{◌≡◌, refl, ap, ap₂, List, [], ◌∷◌, Bytes}
use vaultex.Errors.{Result, ok, ◌>>=◌}
use vaultex.Crates.Sodium.{Sodium, CurveLaws}
use vaultex.Crates.Kdf.{Kdf}
use vaultex.Crates.Encoding.{Json, JsonLaws}
use vaultex.DoubleRatchet.State.{MessageHeader, RatchetState, KeyPair}
use vaultex.DoubleRatchet.Session.{decrypt, encrypt}
use vaultex.DoubleRatchet.Persistence.{RatchetStateSer, to_bytes, from_bytes}
use vaultex.DoubleRatchet.Persistence.Invariant.{Reached, from_bytes-to_bytes-Reached}
use vaultex.DoubleRatchet.Persistence.Twin.{Twin}
use vaultex.DoubleRatchet.Persistence.Twin.Methods.{Agree-encrypt, Agree-decrypt}

-- A call of `encrypt` with the nonce that it draws, or of `decrypt` with the key pair that it may draw.
pub data Call : Type 0 where
  encrypts : (nonce plaintext associated_data : Bytes) → Call
  decrypts : (fresh : KeyPair) (header : MessageHeader) (ciphertext associated_data : Bytes) → Call

pub data Answer : Type 0 where
  encrypted : Result (MessageHeader × Bytes) → Answer
  decrypted : Result Bytes → Answer

module _ (na : Sodium) (kdf : Kdf) where
  unfoldable pub call : Call → RatchetState → Answer × RatchetState
  call (encrypts nonce plaintext ad) s =
      let (r, s') = encrypt na kdf nonce plaintext ad s in (encrypted r, s')
  call (decrypts fresh header ct ad) s =
      let (r, s') = decrypt na kdf fresh header ct ad s in (decrypted r, s')

  -- The answers of some calls, one after the other, with failed ones included.
  unfoldable pub answers : List Call → RatchetState → List Answer
  answers [] s = []
  answers (c ∷ cs) s = let (a, s') = call c s in a ∷ answers cs s'

  call-Twin :
      (c : Call) (s t : RatchetState)
      → Twin s t
      → ((call c s).0 ≡ (call c t).0) × Twin (call c s).1 (call c t).1
  unfolding call
  call-Twin (encrypts nonce plaintext ad) s t w =
      let (answer, alike) = (Agree-encrypt na kdf nonce plaintext ad).at s t w in
      (ap encrypted answer, alike)
  call-Twin (decrypts fresh header ct ad) s t w =
      let (answer, alike) = (Agree-decrypt na kdf fresh header ct ad).at s t w in
      (ap decrypted answer, alike)

  answers-Twin : (cs : List Call) (s t : RatchetState) → Twin s t → answers cs s ≡ answers cs t
  unfolding answers
  answers-Twin [] s t w = refl
  answers-Twin (c ∷ cs) s t w =
      let (answer, alike) = call-Twin c s t w in
      ap₂ (λ a rest. a ∷ rest) answer (answers-Twin cs (call c s).1 (call c t).1 alike)

  -- A session that is stored and restored, at any point of its life, gives to every sequence of calls
  -- of `encrypt` and `decrypt`, with any arguments and draws, the same answers as the session that
  -- was never stored, errors included.
  pub restored_answers :
      (curve : CurveLaws na) (json : Json RatchetStateSer) (laws : JsonLaws RatchetStateSer json)
      (s : RatchetState) (calls : List Call)
      → Reached na kdf curve s
      → (s' : RatchetState) × ((to_bytes json s >>= from_bytes na json) ≡ ok s')
        × (answers calls s' ≡ answers calls s)
  restored_answers curve json laws s calls r =
      let (m, restores, same) = from_bytes-to_bytes-Reached na kdf curve json laws s r in
      let s' = record s { skipped_keys = m } in
      (s', restores, answers-Twin calls s' s (record { rest = refl; keys = same }))
