-- ===== src/Messages/Extensions.antt =====
-- src/models/sv2/sv2-messages.ts: the negotiation of extensions.
-- The pool deserializes RequestExtensions and serializes RequestExtensionsSuccess.
pub mod RoundTrip
use lido.Base.{ℕ, List, Bytes}
use lido.Outcome.{M, Result, pure, ◌>>=◌, ◌>>◌}
use lido.Node.{Node}
use lido.Codec.Read.{Reader, read_seq0_64k, read_u16}
use lido.Codec.Write.{serialized, write_seq0_64k, write_u16}

pub record RequestExtensions : Type 0 where
  pub request_id : ℕ
  pub requested_extensions : List ℕ

unfoldable pub deserialize_request_extensions : M Reader RequestExtensions
deserialize_request_extensions = do
  request_id ← read_u16
  requested_extensions ← read_seq0_64k read_u16
  pure (record { request_id = request_id; requested_extensions = requested_extensions })

pub record RequestExtensionsSuccess : Type 0 where
  pub request_id : ℕ
  pub supported_extensions : List ℕ

module _ ⦃node : Node⦄ where
  unfoldable pub serialize_request_extensions_success : RequestExtensionsSuccess → Result Bytes
  serialize_request_extensions_success msg =
      serialized do write_u16 msg.request_id; write_seq0_64k msg.supported_extensions write_u16
