-- ===== src/Tests/Setups.antt =====
-- The theorems on sinks and on the set-up of the gateway.
use logateway.Prelude.{
  zero, suc, ◌≡◌, refl, arith, Bool, true, false, Option, none, some, List, [], ◌∷◌,
}
use logateway.Prelude.Int.{ℤ, pos, negsuc}
use logateway.Prelude.Bytes.{Bytes, codes, beq}
use logateway.Prelude.Maps.{lookup, put}
use logateway.Config.Value.{Value, str}
use logateway.Config.Types.{SinkRef, ProjectConfig, Config}
use logateway.Config.Defaults.{default_if_empty}
use logateway.Config.Manager.{get_project}
use logateway.Message.{Message, blank}
use logateway.Tests.Configs.{config}
use logateway.Wal.Name.{segment_num}
use logateway.Wal.Writer.{World, no_faults}
use logateway.Sink.Settings.{Settings, Formats, IsFormats}
use logateway.Sink.Redis.{redis_sink_factory}
use logateway.Sink.Kafka.{KafkaSink, uncompressed, partition_key_bytes}
use logateway.Dispatch.{Dispatcher}
use logateway.Dispatch.Setup.{instance_of, resolve_sink_config, Started}
use logateway.Dispatch.Setup.Resolution.{redis_sink_factory-defaults}
use logateway.Server.Setup.{NewGateway, started, new_gateway}
use logateway.Server.Setup.Safety.{IsReady, new_gateway-IsReady}

abbrev print_duration : ℤ → Bytes
print_duration (pos n) = 0 ∷ n ∷ []
print_duration (negsuc n) = 1 ∷ n ∷ []

abbrev parse : Bytes → Option ℤ
parse (zero ∷ n ∷ []) = some (pos n)
parse (suc zero ∷ n ∷ []) = some (negsuc n)
parse _ = none

abbrev pub formats : Formats
formats = record {
  duration_string = print_duration;
  parse_duration = parse;
  through_float64 = λ n. n;
}

parsed_back : (d : ℤ) → parse (print_duration d) ≡ some d
parsed_back (pos n) = refl
parsed_back (negsuc n) = refl

formats-IsFormats : IsFormats formats
formats-IsFormats = record { parsed_back = parsed_back; exact = λ n h h'. refl }

abbrev pub ref : SinkRef
ref = record { kind = []; instance_name = []; workers = pos 0; channel_size = pos 2; config = [] }

abbrev project : ProjectConfig
project = record {
  name = codes "p";
  enabled = true;
  sinks = ref ∷ [];
  rate_limit = pos 0;
  max_body_bytes = pos 0;
  auth_required = false;
  pipelines = [];
}

-- one project with a redis sink, and `fallback` with the WAL disabled
abbrev pub gateway : Config
gateway = record config {
  server = record config.server { backpressure = codes "fallback" };
  projects = project ∷ [];
  wal = record config.wal { enabled = false };
}

unnamed : instance_of gateway ref ≡ none
unfolding instance_of
unnamed = refl

redis_type : default_if_empty ref.kind (codes "redis") ≡ codes "redis"
unfolding default_if_empty
redis_type = refl

redis_sink_factory-defaults_example :
    redis_sink_factory formats (codes "s") (resolve_sink_config formats gateway ref).settings
    ≡ record {
      name = codes "s";
      options = record {
        addr = [];
        password = [];
        db = pos 0;
        pool_size = pos 0;
        min_idle_conns = pos 0;
        dial_timeout = pos 0;
        read_timeout = pos 0;
        write_timeout = pos 0;
      };
      key = [];
      kind = default_if_empty [] (codes "list");
      max_len = pos 0;
    }
redis_sink_factory-defaults_example =
    redis_sink_factory-defaults formats (codes "s") gateway ref formats-IsFormats refl unnamed
      redis_type (ground arith)

abbrev pub dispatcher_of : NewGateway → Dispatcher World
dispatcher_of (started d m) = d
dispatcher_of _ = record { cfg = gateway; pools = none; wal = none }

abbrev pub sinks_in : NewGateway → List (Bytes × List (Started World))
sinks_in (started d m) = m
sinks_in _ = []

abbrev made : NewGateway
made = new_gateway formats (λ s. s) no_faults true gateway []

starts : made ≡ started (dispatcher_of made) (sinks_in made)
unfolding new_gateway beq segment_num put lookup
starts = refl

finds : get_project gateway (codes "p") ≡ some project
unfolding get_project beq
finds = refl

abbrev pub take_all : Message → World → World × Bool
take_all msg w = (w, true)

new_gateway-IsReady_example :
    IsReady formats true gateway take_all (λ s. s) (dispatcher_of made) (codes "p")
new_gateway-IsReady_example =
    new_gateway-IsReady formats true gateway take_all (λ s. s) no_faults [] (dispatcher_of made)
      (sinks_in made) (codes "p") project starts finds

-- data that has a `uid`
abbrev message : Message
message = record blank { request_id = codes "r"; data_bytes = codes "d" }

abbrev kafka : KafkaSink
kafka = record {
  name = codes "k";
  brokers = codes "b" ∷ [];
  topic = codes "t";
  batch_size = pos 100;
  batch_timeout = pos 1;
  compression = uncompressed;
  partition_key = codes "tenant";
}

abbrev fields : Settings
fields = (codes "uid", str (codes "7")) ∷ []

abbrev print : Value → Bytes
print (str s) = s
print _ = codes "?"

by_uid : partition_key_bytes (λ b. some fields) print message kafka ≡ codes "7"
unfolding partition_key_bytes lookup beq
by_uid = refl
