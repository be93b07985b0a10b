-- ===== src/Messages/Extensions/RoundTrip.antt =====
-- The negotiation of extensions in src/models/sv2/sv2-messages.ts: both messages have one layout.
use lido.Base.{◌≤◌, length, All, All-map}
use lido.Node.{Node}
use lido.Codec.Codes.{Codes-seq, Codes-last, Codes-u16, Codes-seq0_64k}
use lido.Codec.Write.{write_u16}
use lido.Codec.Read.{read_u16}
use lido.Codec.RoundTrip.{RoundTrips, RoundTrips-Codes, IsU16}
use lido.Messages.Extensions.{
  RequestExtensionsSuccess, deserialize_request_extensions, serialize_request_extensions_success,
}

module _ ⦃node : Node⦄ where
  -- The fields fit the wire types that the source's comments give them.
  pub record IsRequestExtensionsSuccess (msg : RequestExtensionsSuccess) : Type 0 where
    pub request_id : IsU16 msg.request_id
    pub each : All IsU16 msg.supported_extensions
    pub count : length msg.supported_extensions ≤ 65535

  -- Every RequestExtensionsSuccess whose fields fit their wire types is serialized, and what
  -- deserializes requests reads its payload, to the last byte, as a request with the same id for the
  -- same extensions.
  pub request_extensions_round_trip :
      (msg : RequestExtensionsSuccess)
      → IsRequestExtensionsSuccess msg
      → RoundTrips
          (serialize_request_extensions_success msg)
          deserialize_request_extensions
          (record { request_id = msg.request_id; requested_extensions = msg.supported_extensions })
  unfolding serialize_request_extensions_success deserialize_request_extensions
  request_extensions_round_trip msg h = RoundTrips-Codes (
      Codes-seq _ _ _ _ _ _ (Codes-u16 _ h.request_id) (
        Codes-last _ _ _ _
          (Codes-seq0_64k write_u16 read_u16 _ (All-map (λ x p. Codes-u16 x p) _ h.each) h.count)))
