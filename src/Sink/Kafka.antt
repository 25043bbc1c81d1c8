-- ===== src/Sink/Kafka.antt =====
-- KafkaSinkFactory, NewKafkaSink and partitionKeyBytes of internal/sink/kafka_sink.go. The writer
-- of github.com/segmentio/kafka-go is described by what NewKafkaSink sets on it.
pub mod Keys
use logateway.Prelude.{ℕ, Bool, true, false, Option, none, some, List, [], ◌∷◌, if◌then◌else◌}
use logateway.Prelude.Int.{ℤ, pos}
use logateway.Prelude.Bytes.{Bytes, codes, beq}
use logateway.Prelude.Maps.{lookup}
use logateway.Config.Defaults.{default_if_not_positive}
use logateway.Config.Value.{Value, arr, str, Items, nil, cons}
use logateway.Message.{Message, Envelope, build_envelope}
use logateway.Sink.Settings.{Settings, Formats, string_or, int_config, duration_config}

-- KafkaSink, with the settings of its writer; `compression` is none for any other name
pub data Compression : Type 0 where
  uncompressed gzip snappy lz4 zstd : Compression

pub record KafkaSink : Type 0 where
  pub name : Bytes
  pub brokers : List Bytes
  pub topic : Bytes
  pub batch_size : ℤ
  pub batch_timeout : ℤ
  pub compression : Compression
  pub partition_key : Bytes

-- KafkaConfig
pub record KafkaConfig : Type 0 where
  pub brokers : List Bytes
  pub topic : Bytes
  pub partition_key : Bytes
  pub compression : Bytes
  pub batch_size : ℤ
  pub batch_timeout : ℤ

-- `switch cfg.Compression`
unfoldable pub compression_of : Bytes → Compression
unfolding beq
compression_of s =
    if beq s (codes "gzip")
    then gzip
    else if beq s (codes "snappy")
    then snappy
    else if beq s (codes "lz4")
    then lz4
    else if beq s (codes "zstd")
    then zstd
    else uncompressed

-- NewKafkaSink from the checks on
unfoldable pub kafka_sink : Bytes → KafkaConfig → KafkaSink
unfolding default_if_not_positive compression_of
kafka_sink name cfg = record {
  name = name;
  brokers = cfg.brokers;
  topic = cfg.topic;
  batch_size = default_if_not_positive cfg.batch_size 100;
  batch_timeout = default_if_not_positive cfg.batch_timeout 100000000;
  compression = compression_of cfg.compression;
  partition_key = cfg.partition_key;
}

-- NewKafkaSink: no broker or no topic is an error
unfoldable pub new_kafka_sink : Bytes → KafkaConfig → Option KafkaSink
unfolding kafka_sink
new_kafka_sink name cfg = elim cfg.brokers [
  | [] ↦ none
  | b ∷ bs ↦ elim cfg.topic [ [] ↦ none | c ∷ cs ↦ some (kafka_sink name cfg) ]
]

-- the strings of a list; other values are left out
unfoldable pub strings : Items → List Bytes
strings nil = []
strings (cons v rest) = let ss = strings rest in elim v [ str s ↦ s ∷ ss | _ ↦ ss ]

unfoldable pub brokers_of : Settings → List Bytes
unfolding strings lookup
brokers_of cfg = elim (lookup (codes "brokers") cfg) [
  | none ↦ []
  | some v ↦ elim v [ arr items ↦ strings items | _ ↦ [] ]
]

-- KafkaSinkFactory
unfoldable pub kafka_sink_factory : Formats → Bytes → Settings → Option KafkaSink
unfolding new_kafka_sink brokers_of string_or int_config duration_config
kafka_sink_factory f name cfg = new_kafka_sink name (record {
  brokers = brokers_of cfg;
  topic = string_or cfg (codes "topic") [];
  partition_key = string_or cfg (codes "partition_key") [];
  compression = string_or cfg (codes "compression") [];
  batch_size = int_config cfg (codes "batch_size") (pos 100);
  batch_timeout = duration_config f cfg (codes "batch_timeout") (pos 100000000);
})

-- the first of the fields that the data has, printed by fmt.Sprint
unfoldable pub first_field : (Value → Bytes) → List Bytes → Settings → Option Bytes
unfolding lookup
first_field sprint [] fields = none
first_field sprint (k ∷ ks) fields = elim (lookup k fields) [
  | none ↦ first_field sprint ks fields
  | some v ↦ some (sprint v)
]

-- the fields that name a user
abbrev pub user_fields : List Bytes
user_fields = codes "UID" ∷ codes "uid" ∷ codes "user_id" ∷ codes "UserID" ∷ []

unfoldable pub or_id : Bytes → Option Bytes → Bytes
or_id id none = id
or_id id (some key) = key

-- the field that is configured, and those of a user
unfoldable pub key_fields : Bytes → List Bytes
key_fields [] = user_fields
key_fields (c ∷ key) = (c ∷ key) ∷ user_fields

-- partitionKeyBytes; `decode` is json.Unmarshal into a map
unfoldable pub partition_key_bytes :
    (Bytes → Option Settings) → (Value → Bytes) → Message → KafkaSink → Bytes
unfolding first_field key_fields or_id
partition_key_bytes decode sprint msg s = elim msg.data_bytes [
  | [] ↦ msg.request_id
  | c ∷ cs ↦ elim (decode (c ∷ cs)) [
    | none ↦ msg.request_id
    | some fields ↦ or_id msg.request_id (first_field sprint (key_fields s.partition_key) fields)
  ]
]

-- Send up to the call of the writer: the key and the value of the Kafka message
unfoldable pub kafka_message :
    (Envelope → Option Bytes)
    → (Bytes → Option Settings)
    → (Value → Bytes)
    → Message
    → KafkaSink
    → Option (Bytes × Bytes)
unfolding build_envelope partition_key_bytes
kafka_message marshal decode sprint msg s = elim (marshal (build_envelope msg)) [
  | none ↦ none
  | some text ↦ some (partition_key_bytes decode sprint msg s, text)
]
