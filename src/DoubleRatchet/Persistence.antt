-- ===== src/DoubleRatchet/Persistence.antt =====
-- crates/vaultex-crypto/src/double_ratchet.rs: the stored form of a session. Its JSON is a parameter;
-- the entries of the map are stored in the order of the list that stands for it.
pub mod Fit
pub mod Invariant
pub mod Twin
pub mod Restored
mod Tests
use vaultex.Base.{
  ℕ, ◌≡◌, ◌≢◌, refl, sym, ap, ◌∙◌, arith, Bool, true, false, if◌then◌else◌, Bool-cases, inl, inr,
  Option, none, some, List, [], ◌∷◌, map, Bytes, text, length,
}
use vaultex.Base.HashMap.{HashMap, lookup, insert, lookup-insert_self, lookup-insert_ne}
use vaultex.Errors.{Result, ok, ◌>>=◌, ok_or, map_err, serialization_error}
use vaultex.Crates.Sodium.{Sodium, CurveLaws}
use vaultex.Crates.Encoding.{Json, JsonLaws}
use vaultex.DoubleRatchet.State.{
  RatchetState, KeyPair, SkippedId, skipped_id, skipped_id_eq, skipped_id_eq_iff,
}

-- `(ratchet_public_key, message_number, message_key)`.
abbrev pub SkippedEntry : Type 0
SkippedEntry = Bytes × ℕ × Bytes

pub record RatchetStateSer : Type 0 where
  pub root_key : Bytes
  pub sending_chain_key : Option Bytes
  pub receiving_chain_key : Option Bytes
  pub sending_public_key : Option Bytes
  pub sending_secret_key : Option Bytes
  pub remote_ratchet_key : Option Bytes
  pub send_message_number : ℕ
  pub recv_message_number : ℕ
  pub previous_chain_length : ℕ
  pub skipped_keys : List SkippedEntry

abbrev pub public_of : Option KeyPair → Option Bytes
public_of none = none
public_of (some (pk, sk)) = some pk

abbrev pub secret_of : Option KeyPair → Option Bytes
secret_of none = none
secret_of (some (pk, sk)) = some sk

abbrev pub entry_of : SkippedId × Bytes → SkippedEntry
entry_of ((rpk, mn), mk) = (rpk, mn, mk)

unfoldable pub to_ser : RatchetState → RatchetStateSer
to_ser self = record {
  root_key = self.root_key;
  sending_chain_key = self.sending_chain_key;
  receiving_chain_key = self.receiving_chain_key;
  sending_public_key = public_of self.sending_keypair;
  sending_secret_key = secret_of self.sending_keypair;
  remote_ratchet_key = self.remote_ratchet_key;
  send_message_number = self.send_message_number;
  recv_message_number = self.recv_message_number;
  previous_chain_length = self.previous_chain_length;
  skipped_keys = map entry_of self.skipped_keys;
}

unfoldable pub to_bytes : Json RatchetStateSer → RatchetState → Result Bytes
unfolding to_ser
to_bytes json self = map_err (json.to_vec (to_ser self)) serialization_error

-- The loop that fills the map.
unfoldable pub insert_all : HashMap SkippedId Bytes → List SkippedEntry → HashMap SkippedId Bytes
insert_all m [] = m
insert_all m ((rpk, mn, mk) ∷ entries) = insert_all (insert (rpk, mn) mk m) entries

module _ (na : Sodium) where
  unfoldable pub keypair_from : Option Bytes → Option Bytes → Result (Option KeyPair)
  keypair_from none sk = ok none
  keypair_from (some pk) none = ok none
  keypair_from (some pk_bytes) (some sk_bytes) = do
    pk ←
        ok_or (na.public_key_from_slice pk_bytes)
          (serialization_error (text "invalid sending public key"))
    sk ←
        ok_or (na.secret_key_from_slice sk_bytes)
          (serialization_error (text "invalid sending secret key"))
    ok (some (pk, sk))

  unfoldable pub remote_from : Option Bytes → Option Bytes
  remote_from none = none
  remote_from (some b) = na.public_key_from_slice b

  unfoldable pub from_bytes : Json RatchetStateSer → Bytes → Result RatchetState
  unfolding keypair_from remote_from insert_all
  from_bytes json bytes = do
    ser ← map_err (json.from_slice bytes) serialization_error
    sending_keypair ← keypair_from ser.sending_public_key ser.sending_secret_key
    let remote_ratchet_key = remote_from ser.remote_ratchet_key
    let skipped_keys = insert_all [] ser.skipped_keys
    let state : RatchetState = record {
      root_key = ser.root_key;
      sending_chain_key = ser.sending_chain_key;
      receiving_chain_key = ser.receiving_chain_key;
      sending_keypair = sending_keypair;
      remote_ratchet_key = remote_ratchet_key;
      send_message_number = ser.send_message_number;
      recv_message_number = ser.recv_message_number;
      previous_chain_length = ser.previous_chain_length;
      skipped_keys = skipped_keys;
    }
    ok state

-- A map holds a key once.
abbrev pub Distinct : HashMap SkippedId Bytes → Type 0
Distinct [] = Unit
Distinct ((k, v) ∷ m) = (lookup k m ≡ none) × Distinct m

-- The keys of a session have their sizes.
abbrev pub IsSized : Option KeyPair → Option Bytes → Type 0
IsSized pair remote =
    ((k : KeyPair) → pair ≡ some k → (length k.0 ≡ 32) × (length k.1 ≡ 32))
    × ((b : Bytes) → remote ≡ some b → length b ≡ 32)

abbrev or_else : Option Bytes → Option Bytes → Option Bytes
or_else none o = o
or_else (some v) o = some v

or_else_empty : (o : Option Bytes) (k : SkippedId) → or_else o (lookup k []) ≡ o
unfolding lookup
or_else_empty none k = refl
or_else_empty (some v) k = refl

insert_step :
    (m acc : HashMap SkippedId Bytes) (k j : SkippedId) (v : Bytes)
    → lookup j m ≡ none
    → or_else (lookup k m) (lookup k (insert j v acc))
      ≡ or_else (lookup k ((j, v) ∷ m)) (lookup k acc)
unfolding lookup
insert_step m acc k j v once = elim (Bool-cases (skipped_id_eq k j)) [
  | inl same ↦
      let at : k ≡ j = (skipped_id_eq_iff k j).0 same in
      let missing : lookup k m ≡ none = ap (λ i. lookup i m) at ∙ once in
      let found : lookup k (insert j v acc) ≡ some v =
        ap (λ i. lookup i (insert j v acc)) at ∙ lookup-insert_self j v acc in
      rw (same, missing, found) refl
  | inr other ↦ rw (other, lookup-insert_ne k j v acc other) refl
]

insert_all_lem :
    (m acc : HashMap SkippedId Bytes) (k : SkippedId)
    → Distinct m
    → lookup k (insert_all acc (map entry_of m)) ≡ or_else (lookup k m) (lookup k acc)
unfolding insert_all
insert_all_lem [] acc k d = unfold lookup in refl
insert_all_lem (((rpk, mn), v) ∷ m) acc k (once, d) =
    insert_all_lem m (insert (rpk, mn) v acc) k d ∙ insert_step m acc k (rpk, mn) v once

module _ (na : Sodium) (curve : CurveLaws na) where
  keypair_back :
      (o : Option KeyPair)
      → ((k : KeyPair) → o ≡ some k → (length k.0 ≡ 32) × (length k.1 ≡ 32))
      → keypair_from na (public_of o) (secret_of o) ≡ ok o
  unfolding keypair_from
  keypair_back none h = refl
  keypair_back (some (pk, sk)) h =
      let (sp, ss) = h (pk, sk) refl in
      ground (arith, curve.public_length.fits pk sp, curve.secret_length.fits sk ss)

  remote_back :
      (o : Option Bytes) → ((b : Bytes) → o ≡ some b → length b ≡ 32) → remote_from na o ≡ o
  unfolding remote_from
  remote_back none h = refl
  remote_back (some b) h = curve.public_length.fits b (h b refl)

  -- A session whose keys have 32 bytes, and whose map of message keys holds each identifier once,
  -- is stored and restored: every field comes back, and every lookup of a message key has the
  -- answer that it had.
  pub from_bytes-to_bytes :
      (json : Json RatchetStateSer) (laws : JsonLaws RatchetStateSer json) (s : RatchetState)
      → Distinct s.skipped_keys
      → IsSized s.sending_keypair s.remote_ratchet_key
      → (m : HashMap SkippedId Bytes) × ((to_bytes json s >>= from_bytes na json)
          ≡ ok (record s { skipped_keys = m }))
        × ((k : SkippedId) → lookup k m ≡ lookup k s.skipped_keys)
  unfolding to_bytes from_bytes to_ser
  from_bytes-to_bytes json laws s distinct (pair_sized, remote_sized) =
      let (bytes, written, read) = laws.from_slice-to_vec (to_ser s) in
      let keypair = keypair_back s.sending_keypair pair_sized in
      let remote = remote_back s.remote_ratchet_key remote_sized in
      (
        insert_all [] (map entry_of s.skipped_keys),
        rw (written, read, keypair, remote) refl,
        λ k.
            insert_all_lem s.skipped_keys [] k distinct ∙ or_else_empty (lookup k s.skipped_keys) k,
      )
