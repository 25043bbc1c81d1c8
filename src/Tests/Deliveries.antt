-- ===== src/Tests/Deliveries.antt =====
-- The theorems on requests with their tasks, at a gateway that has just been started.
use logateway.Prelude.{true, none, []}
use logateway.Prelude.Int.{pos}
use logateway.Config.Types.{Config}
use logateway.Message.{Message}
use logateway.Pipeline.Processors.{Json, nil_map}
use logateway.Wal.Writer.{World, no_faults}
use logateway.Dispatch.{Dispatcher}
use logateway.Server.Setup.{NewGateway, new_gateway}
use logateway.Tests.Setups.{formats, gateway, dispatcher_of}

abbrev json : Json
json = record { decode = λ s. nil_map; encode = λ m. none; encode_nil = none }

abbrev cfg : Config
cfg = record gateway { server = record gateway.server { max_body_bytes = pos 100 } }

abbrev made : NewGateway
made = new_gateway formats (λ s. s) no_faults true cfg []

abbrev d : Dispatcher World
d = dispatcher_of made
