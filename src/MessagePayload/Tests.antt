-- ===== src/MessagePayload/Tests.antt =====
-- Concrete payloads through crates/vaultex-crypto/src/message_payload.rs.
use vaultex.Base.{
  ℕ, ◌≡◌, refl, arith, sym, ap, Option, none, some, [], ◌∷◌, Bytes, length-append, replicate,
  length-replicate, get_or,
}
use vaultex.Errors.{ok, ok-eq, ◌>>=◌}
use vaultex.Crates.Encoding.{Json, JsonLaws}
use vaultex.Crates.Codec.{Codec, num, str, opt, both, json_of, json_of-JsonLaws}
use vaultex.Padding.RoundTrip.{Fills}
use vaultex.MessagePayload.{Attachment, MessagePayload, to_padded_bytes, from_padded_bytes}
use vaultex.MessagePayload.RoundTrip.{
  IsGroupId, SameSize, to_padded_bytes_total, from_padded_bytes-to_padded_bytes,
}

abbrev AttachmentParts : Type 0
AttachmentParts = Bytes × (Bytes × (Bytes × (ℕ × (Bytes × Option Bytes))))

abbrev parts_of : Attachment → AttachmentParts
parts_of a =
    (a.media_id, (a.file_name, (a.mime_type, (a.file_size, (a.file_key_hex, a.thumbnail_base64)))))

abbrev attachment_of : AttachmentParts → Attachment
attachment_of (id, (name, (mime, (size, (key, thumbnail))))) = record {
  media_id = id;
  file_name = name;
  mime_type = mime;
  file_size = size;
  file_key_hex = key;
  thumbnail_base64 = thumbnail;
}

abbrev map_opt : {A B : Type 0} → (A → B) → Option A → Option B
map_opt f none = none
map_opt f (some a) = some (f a)

abbrev PayloadParts : Type 0
PayloadParts = Option Bytes × (Bytes × (Option ℕ × (Option Bytes × Option AttachmentParts)))

abbrev parts : MessagePayload → PayloadParts
parts p = (p.group_id, (p.body, (p.ttl_seconds, (p.media_type, map_opt parts_of p.attachment))))

abbrev payload_of : PayloadParts → MessagePayload
payload_of (group, (body, (ttl, (media, attachment)))) = record {
  body = body;
  ttl_seconds = ttl;
  group_id = group;
  media_type = media;
  attachment = map_opt attachment_of attachment;
}

abbrev attachment_codec : Codec AttachmentParts
attachment_codec = both str (both str (both str (both num (both str (opt str)))))

abbrev rest_codec : Codec (Bytes × (Option ℕ × (Option Bytes × Option AttachmentParts)))
rest_codec = both str (both (opt num) (both (opt str) (opt attachment_codec)))

abbrev pub toy_json : Json MessagePayload
toy_json = json_of (both (opt str) rest_codec) parts payload_of

map_opt-back : (o : Option Attachment) → map_opt attachment_of (map_opt parts_of o) ≡ o
map_opt-back none = refl
map_opt-back (some a) = refl

abbrev set_attachment : MessagePayload → Option Attachment → MessagePayload
set_attachment p o = record {
  body = p.body;
  ttl_seconds = p.ttl_seconds;
  group_id = p.group_id;
  media_type = p.media_type;
  attachment = o;
}

payload-parts : (p : MessagePayload) → payload_of (parts p) ≡ p
payload-parts p = ap (set_attachment p) (map_opt-back p.attachment)

pub toy_json-JsonLaws : JsonLaws MessagePayload toy_json
toy_json-JsonLaws = json_of-JsonLaws (both (opt str) rest_codec) parts payload_of payload-parts

abbrev pub letters : ℕ → Bytes
letters n = replicate n 65

pub letters-Fills : Fills letters
letters-Fills n = length-replicate n 65

pub toy_json-SameSize : SameSize toy_json letters
toy_json-SameSize = record {
  length-to_vec = λ p a b va vb ha hb e ea eb.
      let body = rest_codec.enc (parts p).1 [] in
      rw (sym (ok-eq ea), sym (ok-eq eb))
        (omega (arith, length-append a body, length-append b body, e));
}

abbrev pub hello : MessagePayload
hello = record {
  body = 104 ∷ 105 ∷ [];
  ttl_seconds = some 30;
  group_id = none;
  media_type = none;
  attachment = none;
}

abbrev pub the_group : Bytes
the_group = replicate 64 97

pub the_group-IsGroupId : IsGroupId the_group
the_group-IsGroupId = (refl, ground arith, λ e. absurd (ground (arith, ap (λ l. get_or l 0 0) e)))

from_padded_bytes-to_padded_bytes_example :
    (to_padded_bytes toy_json letters hello >>= from_padded_bytes toy_json) ≡ ok hello
from_padded_bytes-to_padded_bytes_example =
    from_padded_bytes-to_padded_bytes toy_json letters toy_json-JsonLaws hello letters-Fills tt

pub sent :
    (p : MessagePayload) → (padded : Bytes) × (to_padded_bytes toy_json letters p ≡ ok padded)
sent p = to_padded_bytes_total toy_json letters toy_json-JsonLaws p letters-Fills

goes_through : (to_padded_bytes toy_json letters hello >>= from_padded_bytes toy_json) ≡ ok hello
goes_through =
    from_padded_bytes-to_padded_bytes toy_json letters toy_json-JsonLaws hello letters-Fills tt

received : from_padded_bytes toy_json (sent hello).0 ≡ ok hello
received = rw (sent hello).1 at goes_through
