-- ===== src/MessagePayload.antt =====
-- crates/vaultex-crypto/src/message_payload.rs: what is encrypted inside the Double Ratchet. A
-- `String` is its UTF-8 bytes; the JSON of a payload is a parameter.
pub mod RoundTrip
pub mod Tests
use vaultex.Base.{
  ℕ, Bool, true, false, ◌&&◌, ◌==◌, if◌then◌else◌, Option, none, some, [], ◌∷◌, ◌++◌, Bytes, text,
  bytes_eq, length, replicate,
}
use vaultex.Base.Decimal.{decimal}
use vaultex.Errors.{CryptoError, Either, Result, ok, err, ◌>>=◌, ◌>>◌, map_err, serialization_error}
use vaultex.Crates.Encoding.{Json, is_ascii_hexdigit}
use vaultex.Padding.{pad_message, unpad_message}

abbrev pub group_id_len : ℕ
group_id_len = 64

-- Sixty-four `0` characters.
abbrev pub group_id_placeholder : Bytes
group_id_placeholder = replicate group_id_len 48

pub record Attachment : Type 0 where
  pub media_id : Bytes
  pub file_name : Bytes
  pub mime_type : Bytes
  pub file_size : ℕ
  pub file_key_hex : Bytes
  pub thumbnail_base64 : Option Bytes

pub record MessagePayload : Type 0 where
  pub body : Bytes
  pub ttl_seconds : Option ℕ
  pub group_id : Option Bytes
  pub media_type : Option Bytes
  pub attachment : Option Attachment

unfoldable pub new : Bytes → MessagePayload
new body = record {
  body = body;
  ttl_seconds = none;
  group_id = none;
  media_type = none;
  attachment = none;
}

unfoldable pub with_ttl : Bytes → ℕ → MessagePayload
with_ttl body ttl_seconds = record {
  body = body;
  ttl_seconds = some ttl_seconds;
  group_id = none;
  media_type = none;
  attachment = none;
}

unfoldable pub with_attachment : MessagePayload → Bytes → Attachment → MessagePayload
with_attachment self media_type attachment = record {
  body = self.body;
  ttl_seconds = self.ttl_seconds;
  group_id = self.group_id;
  media_type = some media_type;
  attachment = some attachment;
}

-- The payload with its group replaced.
abbrev pub set_group : MessagePayload → Option Bytes → MessagePayload
set_group self id = record {
  body = self.body;
  ttl_seconds = self.ttl_seconds;
  group_id = id;
  media_type = self.media_type;
  attachment = self.attachment;
}

unfoldable pub in_group : MessagePayload → Bytes → MessagePayload
in_group self group_id = set_group self (some group_id)

abbrev pub all_hex : Bytes → Bool
all_hex [] = true
all_hex (c ∷ cs) = is_ascii_hexdigit c && all_hex cs

abbrev pub is_empty : Bytes → Bool
is_empty [] = true
is_empty (c ∷ cs) = false

unfoldable pub invalid_group_id : Bytes → CryptoError
invalid_group_id id = serialization_error (
    text "invalid group_id: expected "
    ++ decimal group_id_len
    ++ text "-char hex, got "
    ++ decimal (length id)
    ++ text " chars")

-- The arms of the `match` on the group.
unfoldable pub normalize_match : MessagePayload → Option Bytes → Result MessagePayload
normalize_match self none = ok self
normalize_match self (some id) =
    if bytes_eq id group_id_placeholder
    then ok (set_group self none)
    else if is_empty id
    then ok (set_group self none)
    else if length id == group_id_len && all_hex id
    then ok self
    else err (invalid_group_id id)

-- The payload after the call.
unfoldable pub normalize_group_id : MessagePayload → Result MessagePayload
unfolding normalize_match
normalize_group_id self = normalize_match self self.group_id

-- The group on the wire: never absent.
unfoldable pub wire_group : Option Bytes → Option Bytes
wire_group none = some group_id_placeholder
wire_group (some id) = some id

module _ (json : Json MessagePayload) where
  -- The error of serde_json is passed on as it is.
  unfoldable pub to_bytes : MessagePayload → Either Bytes Bytes
  to_bytes self = json.to_vec self

  unfoldable pub from_bytes : Bytes → Either Bytes MessagePayload
  from_bytes bytes = json.from_slice bytes

  unfoldable pub to_padded_bytes : (ℕ → Bytes) → MessagePayload → Result Bytes
  unfolding wire_group
  to_padded_bytes random self = do
    bytes ← map_err (json.to_vec (set_group self (wire_group self.group_id))) serialization_error
    pad_message random bytes

  unfoldable pub from_padded_bytes : Bytes → Result MessagePayload
  unfolding normalize_group_id
  from_padded_bytes padded = do
    unpadded ← unpad_message padded
    payload ← map_err (json.from_slice unpadded) serialization_error
    normalize_group_id payload
