-- ===== src/Tests/Setup.antt =====
-- A run of handleSetupConnection of src/models/StratumV2Client.ts.
use lido.Base.{[], ◌∷◌}
use lido.Tests.Setting.{bytes_node}
use lido.Messages.Setup.{SetupConnection}

abbrev greeting : SetupConnection ⦃node = bytes_node⦄
greeting = record {
  protocol = 0;
  min_version = 2;
  max_version = 2;
  flags = 4;
  endpoint_host = [];
  endpoint_port = 3333;
  vendor = 97 ∷ [];
  hardware_version = [];
  firmware_version = [];
  device_id = [];
}
