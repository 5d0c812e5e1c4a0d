-- ===== src/Flow/Delivery.antt =====
-- A payload on its whole way: crates/vaultex-crypto/src/message_payload.rs, double_ratchet.rs and
-- sealed_sender.rs together.
use vaultex.Base.{ℕ, ◌+◌, ◌^◌, ◌<◌, ◌≡◌, arith, Bool, true, Bytes, length}
use vaultex.Base.Utf8.{is_utf8}
use vaultex.Errors.{ok, >>=-eq-ok}
use vaultex.Crates.Sodium.{Sodium, AeadLaws, CurveLaws, BoxLaws, IsKeyPair}
use vaultex.Crates.Kdf.{Kdf, KdfLaws}
use vaultex.Crates.Encoding.{JsonLaws}
use vaultex.MessagePayload.{MessagePayload, to_padded_bytes, from_padded_bytes}
use vaultex.MessagePayload.RoundTrip.{
  HasGroup, to_padded_bytes_total, from_padded_bytes-to_padded_bytes,
}
use vaultex.Padding.RoundTrip.{Fills}
use vaultex.DoubleRatchet.State.{RatchetState, MessageHeader, KeyPair}
use vaultex.DoubleRatchet.Session.{encrypt, decrypt}
use vaultex.DoubleRatchet.Turn.{IsNew}
use vaultex.DoubleRatchet.Turns.{Session, Session-delivers}
use vaultex.SealedSender.{SealedSenderEnvelope, seal}
use vaultex.SealedSender.RoundTrip.{unseal-seal}
use vaultex.Flow.{Formats, send, receive}

pub record FormatLaws (formats : Formats) : Type 0 where
  pub payload_laws : JsonLaws MessagePayload formats.payloads
  pub packet_laws : JsonLaws (MessageHeader × Bytes) formats.packets
  pub envelope_laws : JsonLaws SealedSenderEnvelope formats.envelopes

-- What the two users draw and hold for one message.
pub record Draws (na : Sodium) (curve : CurveLaws na) (b : RatchetState) : Type 0 where
  pub random : ℕ → Bytes
  pub nonce : Bytes
  pub boxes : Bytes × Bytes
  pub fresh : KeyPair
  pub random_fills : Fills random
  pub length_nonce : length nonce ≡ 24
  pub fresh_is_pair : IsKeyPair na curve fresh
  pub fresh_is_new : IsNew fresh b

module _ (na : Sodium) (kdf : Kdf) (aead : AeadLaws na) (curve : CurveLaws na) (laws : KdfLaws kdf)
    (boxes : BoxLaws na curve) (formats : Formats) (format_laws : FormatLaws formats)
    (utf8_error : Bytes → Bytes) where
  -- One message through the three layers, where the session delivers the padded payload.
  through :
      (draws : Bytes × Bytes) (random : ℕ → Bytes) (nonce ad sender padded ct : Bytes)
      (recipient fresh : KeyPair) (payload : MessagePayload) (header : MessageHeader)
      (a b a' b' : RatchetState)
      → is_utf8 sender ≡ true
      → IsKeyPair na curve recipient
      → to_padded_bytes formats.payloads random payload ≡ ok padded
      → from_padded_bytes formats.payloads padded ≡ ok payload
      → encrypt na kdf nonce padded ad a ≡ (ok (header, ct), a')
      → decrypt na kdf fresh header ct ad b ≡ (ok padded, b')
      → (envelope : Bytes) × (send na kdf formats random nonce draws ad sender recipient.0 payload a
          ≡ (ok envelope, a'))
        × (receive na kdf formats utf8_error fresh ad recipient envelope b
            ≡ (ok (sender, payload), b'))
  unfolding send receive
  through draws random nonce ad sender padded ct recipient fresh payload header a b a' b' valid k
        pads unpads sends reads =
      let (bytes, written, read) = format_laws.packet_laws.from_slice-to_vec (header, ct) in
      let opens =
        unseal-seal na curve boxes formats.envelopes format_laws.envelope_laws utf8_error draws
          sender bytes recipient aead.initialised valid k in
      let (envelope, seals, unseals) =
        >>=-eq-ok (seal na formats.envelopes draws sender bytes recipient.0) _ opens in
      (
        envelope,
        ground (arith, pads, sends, written, seals),
        ground (arith, unseals, read, reads, unpads),
      )

  -- In every session in which every message so far arrived, unchanged, before the next one was sent, the
  -- side that spoke last (at the start: the initiator) sends a payload, padded, encrypted and sealed to the recipient's key, and the other side opens the envelope and gets the
  -- sender and the very payload, and the session goes on. The payload is a direct message or one of a
  -- group with an identifier, the sender's text is UTF-8, the drawn key pair is not the one that the
  -- receiver uses, and the sender's counter does not reach 2^32.
  pub receive-send :
      (p : Bool) (payload : MessagePayload) (sender ad : Bytes) (recipient : KeyPair)
      (a b : RatchetState) (d : Draws na curve b)
      → Session na kdf aead curve laws p a b
      → a.send_message_number + 1 < 2 ^ 32
      → HasGroup payload.group_id
      → is_utf8 sender ≡ true
      → IsKeyPair na curve recipient
      → (envelope : Bytes) × (a' : RatchetState) × (b' : RatchetState) × (send na kdf formats
            d.random d.nonce d.boxes ad sender recipient.0 payload a
          ≡ (ok envelope, a'))
        × (receive na kdf formats utf8_error d.fresh ad recipient envelope b
            ≡ (ok (sender, payload), b'))
        × Session na kdf aead curve laws true a' b'
  receive-send p payload sender ad recipient a b d s no_wrap group valid k =
      let json = formats.payloads in
      let (padded, pads) =
        to_padded_bytes_total json d.random format_laws.payload_laws payload d.random_fills in
      let back =
        from_padded_bytes-to_padded_bytes json d.random format_laws.payload_laws payload
          d.random_fills group in
      let unpads : from_padded_bytes json padded ≡ ok payload = rw pads at back in
      let (header, ct, a', b', sends, reads, goes_on) =
        Session-delivers na kdf aead curve laws p d.fresh d.nonce padded ad a b s d.length_nonce
          no_wrap d.fresh_is_pair d.fresh_is_new in
      let (envelope, there, here) =
        through d.boxes d.random d.nonce ad sender padded ct recipient d.fresh payload header a b a'
          b' valid k pads unpads sends reads in
      (envelope, a', b', there, here, goes_on)
