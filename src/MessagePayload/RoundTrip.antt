-- ===== src/MessagePayload/RoundTrip.antt =====
-- What comes back from the wire: crates/vaultex-crypto/src/message_payload.rs.
use vaultex.Base.{
  ℕ, ◌≡◌, ◌≢◌, ◌==◌, refl, sym, ap, ◌∙◌, arith, true, false, ◌&&◌, ◌⊎◌, inl, inr, Option, none,
  some, [], ◌∷◌, ◌++◌, Bytes, length, bytes_eq, bytes_eq_ne, bytes_eq_refl, Bool-cases, &&-eq-true,
  ==_iff,
}
use vaultex.Errors.{ok, ◌>>=◌, map_err, map_err-eq-ok, >>=-eq-ok, ok-eq, serialization_error}
use vaultex.Crates.Encoding.{Json, JsonLaws, AreHex, is_ascii_hexdigit}
use vaultex.Padding.{to_le_bytes, unpad_message, bucket_size}
use vaultex.Padding.RoundTrip.{Fills, unpad_message-pad_message, length-pad_message, padded_lem}
use vaultex.MessagePayload.{
  MessagePayload, group_id_placeholder, group_id_len, set_group, all_hex, is_empty, normalize_match,
  normalize_group_id, wire_group, in_group, to_padded_bytes, from_padded_bytes,
}

-- A group identifier: 64 hexadecimal characters, and not the placeholder.
abbrev pub IsGroupId : Bytes → Type 0
IsGroupId id = (length id ≡ 64) × AreHex id × (id ≢ group_id_placeholder)

-- A direct message, or a message of a group with an identifier.
abbrev pub HasGroup : Option Bytes → Type 0
HasGroup none = Unit
HasGroup (some id) = IsGroupId id

all_hex-true : (id : Bytes) → AreHex id → all_hex id ≡ true
all_hex-true [] h = refl
all_hex-true (c ∷ cs) (h, hs) = rw (h, all_hex-true cs hs) refl

all_hex→AreHex : (id : Bytes) → all_hex id ≡ true → AreHex id
all_hex→AreHex [] h = tt
all_hex→AreHex (c ∷ cs) h =
    let (one, more) = &&-eq-true (is_ascii_hexdigit c) (all_hex cs) h in
    (one, all_hex→AreHex cs more)

normalize_some_ok :
    (p : MessagePayload) (id : Bytes) → IsGroupId id → normalize_match p (some id) ≡ ok p
unfolding normalize_match
normalize_some_ok p id (sized, digits, other) =
    ground
      (arith, bytes_eq_ne id group_id_placeholder other, all_hex-true id digits, not_empty id sized)
  where
    not_empty : (id : Bytes) → length id ≡ 64 → is_empty id ≡ false
    not_empty [] h = absurd (omega arith)
    not_empty (c ∷ cs) h = refl

same_group : (p : MessagePayload) (o : Option Bytes) → p.group_id ≡ o → set_group p o ≡ p
same_group p o e = ap (set_group p) (sym e)

placeholder-none :
    (p : MessagePayload) → normalize_match p (some group_id_placeholder) ≡ ok (set_group p none)
unfolding normalize_match
placeholder-none p = rw (bytes_eq_refl group_id_placeholder)

-- The receiver undoes what the sender did to the group.
normalize-wire :
    (p : MessagePayload) (o : Option Bytes)
    → p.group_id ≡ o
    → HasGroup o
    → normalize_group_id (set_group p (wire_group o)) ≡ ok p
unfolding normalize_group_id wire_group
normalize-wire p none e h =
    placeholder-none (set_group p (some group_id_placeholder)) ∙ ap ok (same_group p none e)
normalize-wire p (some id) e h =
    normalize_some_ok (set_group p (some id)) id h ∙ ap ok (same_group p (some id) e)

normalize_some_inversion :
    (p q : MessagePayload) (id : Bytes)
    → normalize_match p (some id) ≡ ok q
    → (q ≡ set_group p none) ⊎ ((q ≡ p) × IsGroupId id)
unfolding normalize_match
normalize_some_inversion p q id h = elim (Bool-cases (bytes_eq id group_id_placeholder)) [
  | inl same ↦ inl (sym (ok-eq (rw same at h)))
  | inr other ↦ elim (Bool-cases (is_empty id)) [
    | inl nothing ↦ inl (sym (ok-eq (rw (other, nothing) at h)))
    | inr full ↦ elim (Bool-cases (length id == group_id_len && all_hex id)) [
      | inl valid ↦
          let (sized, digits) = &&-eq-true (length id == group_id_len) (all_hex id) valid in
          inr (
            sym (ok-eq (rw (other, full, valid) at h)),
            (
              (==_iff (length id) 64).0 sized,
              all_hex→AreHex id digits,
              λ e. absurd (ground (arith, e, other, bytes_eq_refl id)),
            ),
          )
      | inr invalid ↦ absurd (ground (arith, h, other, full, invalid))
    ]
  ]
]

HasGroup-at : (o o' : Option Bytes) → o ≡ o' → HasGroup o' → HasGroup o
HasGroup-at o o' e h = rw e h

none_ok : (p q : MessagePayload) → normalize_match p none ≡ ok q → p ≡ q
unfolding normalize_match
none_ok p q h = ok-eq h

normalize_inversion :
    (p q : MessagePayload) (o : Option Bytes)
    → p.group_id ≡ o
    → normalize_match p o ≡ ok q
    → HasGroup q.group_id
normalize_inversion p q none e h =
    HasGroup-at q.group_id none (ap (λ (r : MessagePayload). r.group_id) (sym (none_ok p q h)) ∙ e)
      tt
normalize_inversion p q (some id) e h = elim (normalize_some_inversion p q id h) [
  | inl cleared ↦ HasGroup-at q.group_id none (ap (λ (r : MessagePayload). r.group_id) cleared) tt
  | inr (same, valid) ↦
      HasGroup-at q.group_id (some id) (ap (λ (r : MessagePayload). r.group_id) same ∙ e) valid
]

module _ (json : Json MessagePayload) (random : ℕ → Bytes) where
  pub to_padded_bytes_total :
      (laws : JsonLaws MessagePayload json) (p : MessagePayload)
      → Fills random
      → (padded : Bytes) × (to_padded_bytes json random p ≡ ok padded)
  unfolding to_padded_bytes
  to_padded_bytes_total laws p fills =
      let (bytes, written, read) = laws.from_slice-to_vec (set_group p (wire_group p.group_id)) in
      let padded = padded_lem random bytes fills in
      ((bytes ++ padded.fill) ++ to_le_bytes padded.pad_len, ground (arith, written, padded.sent))

  -- The receiver gets the payload that was sent, where it is a direct message, or one of a group
  -- with an identifier of 64 hexadecimal characters that are not all `0`.
  pub from_padded_bytes-to_padded_bytes :
      (laws : JsonLaws MessagePayload json) (p : MessagePayload)
      → Fills random
      → HasGroup p.group_id
      → (to_padded_bytes json random p >>= from_padded_bytes json) ≡ ok p
  unfolding to_padded_bytes from_padded_bytes
  from_padded_bytes-to_padded_bytes laws p fills group =
      let wire = set_group p (wire_group p.group_id) in
      let (bytes, written, read) = laws.from_slice-to_vec wire in
      let padded = padded_lem random bytes fills in
      let back = unpad_message-pad_message random bytes fills in
      let clean = normalize-wire p p.group_id refl group in
      let opened : unpad_message ((bytes ++ padded.fill) ++ to_le_bytes padded.pad_len) ≡ ok bytes =
        rw padded.sent at back in
      ground (arith, written, padded.sent, opened, read, clean)

  -- Whatever the peer sent, an accepted payload has no group, or one with 64 hexadecimal characters
  -- that are not all `0`.
  pub from_padded_bytes-HasGroup :
      (padded : Bytes) (p : MessagePayload)
      → from_padded_bytes json padded ≡ ok p
      → HasGroup p.group_id
  unfolding from_padded_bytes normalize_group_id
  from_padded_bytes-HasGroup padded p h =
      let (unpadded, _, h1) = >>=-eq-ok (unpad_message padded) _ h in
      let (payload, _, h2) =
        >>=-eq-ok (map_err (json.from_slice unpadded) serialization_error) _ h1 in
      normalize_inversion payload p payload.group_id refl h2

  -- The JSON of two payloads that differ in their group, an equally long hexadecimal text, has one size.
  pub record SameSize : Type 0 where
    pub length-to_vec :
        (p : MessagePayload) (a b va vb : Bytes)
        → AreHex a
        → AreHex b
        → length a ≡ length b
        → json.to_vec (set_group p (some a)) ≡ ok va
        → json.to_vec (set_group p (some b)) ≡ ok vb
        → length va ≡ length vb

  placeholder-AreHex : AreHex group_id_placeholder
  placeholder-AreHex = ground arith

  to_padded_inversion :
      (p : MessagePayload) (x : Bytes)
      → Fills random
      → to_padded_bytes json random p ≡ ok x
      → (bytes : Bytes) × (json.to_vec (set_group p (wire_group p.group_id)) ≡ ok bytes)
        × (length x ≡ bucket_size (length bytes))
  unfolding to_padded_bytes
  to_padded_inversion p x fills h =
      let (bytes, written, padded) =
        >>=-eq-ok (map_err (json.to_vec (set_group p (wire_group p.group_id))) serialization_error)
          _ h in
      (
        bytes,
        map_err-eq-ok _ serialization_error written,
        length-pad_message random bytes x fills padded,
      )

  -- Where the JSON of equally long groups has one size, a direct message is sent with as many bytes
  -- as the same message to a group.
  pub length-to_padded_bytes :
      (size : SameSize) (p : MessagePayload) (id x y : Bytes)
      → Fills random
      → p.group_id ≡ none
      → IsGroupId id
      → to_padded_bytes json random p ≡ ok x
      → to_padded_bytes json random (in_group p id) ≡ ok y
      → length x ≡ length y
  unfolding in_group wire_group
  length-to_padded_bytes size p id x y fills direct (sized, digits, _) hx hy =
      let (bx, wx, lx) = to_padded_inversion p x fills hx in
      let (by, wy, ly) = to_padded_inversion (in_group p id) y fills hy in
      let wx' : json.to_vec (set_group p (some group_id_placeholder)) ≡ ok bx = rw direct at wx in
      lx
      ∙ ap bucket_size (
          size.length-to_vec p group_id_placeholder id bx by placeholder-AreHex digits (omega arith)
            wx' wy)
      ∙ sym ly
