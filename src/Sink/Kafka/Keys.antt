-- ===== src/Sink/Kafka/Keys.antt =====
-- Which partition a message goes to.
use logateway.Prelude.Bytes.{Bytes}
use logateway.Config.Value.{Value}
use logateway.Message.{Message}
use logateway.Sink.Settings.{Settings}
