-- ===== src/Tests/Payloads.antt =====
-- Runs of the codec and of the messages of src/models/sv2.
use lido.Base.{[], ◌∷◌, arith}
use lido.Tests.Setting.{bytes_node}
use lido.Messages.Extensions.{RequestExtensionsSuccess}
use lido.Messages.Extensions.RoundTrip.{IsRequestExtensionsSuccess}

abbrev supported : RequestExtensionsSuccess
supported = record { request_id = 5; supported_extensions = 2 ∷ 3 ∷ [] }

supported-Is : IsRequestExtensionsSuccess ⦃node = bytes_node⦄ supported
supported-Is = record {
  request_id = omega arith;
  each = (omega arith, (omega arith, tt));
  count = omega arith;
}
