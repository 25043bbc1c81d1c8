-- ===== src/Message.antt =====
-- internal/message/message.go: messages and envelopes, and what the pools of them do to their
-- fields; copyMessage of internal/project/dispatcher.go; the conversions between a message and a
-- WAL entry of internal/wal/wal.go and internal/server/server.go.
-- A nil RawMessage and the zero time are [] and 0.
use logateway.Prelude.{ℕ, ◌≡◌, refl, List, [], ◌∷◌}
use logateway.Prelude.Bytes.{Bytes}
use logateway.Prelude.Maps.{put}
use logateway.Wal.Entry.{Entry}

pub record Message : Type 0 where
  pub request_id : Bytes
  pub trace_id : Bytes
  pub project : Bytes
  pub router : Bytes
  pub data_bytes : Bytes
  pub env : Bytes
  pub headers : List (Bytes × Bytes)
  pub timestamp : ℕ

pub record GatewayMeta : Type 0 where
  pub request_id : Bytes
  pub trace_id : Bytes
  pub received_at : ℕ
  pub env : Bytes

pub record Envelope : Type 0 where
  pub gateway_meta : GatewayMeta
  pub project : Bytes
  pub router : Bytes
  pub data_bytes : Bytes

-- what messagePool.New returns, and every message that comes back through ReleaseMessage
abbrev pub blank : Message
blank = record {
  request_id = [];
  trace_id = [];
  project = [];
  router = [];
  data_bytes = [];
  env = [];
  headers = [];
  timestamp = 0;
}

-- ReleaseMessage: the fields of the message that is put back
unfoldable pub release_message : Message → Message
release_message msg = record msg {
  request_id = [];
  trace_id = [];
  project = [];
  router = [];
  data_bytes = [];
  env = [];
  headers = [];
  timestamp = 0;
}

-- ReleaseEnvelope
unfoldable pub release_envelope : Envelope → Envelope
release_envelope env = record env {
  gateway_meta = record { request_id = []; trace_id = []; received_at = 0; env = [] };
  project = [];
  router = [];
  data_bytes = [];
}

-- buildEnvelope of internal/sink/redis_sink.go
unfoldable pub build_envelope : Message → Envelope
build_envelope msg = record {
  gateway_meta = record {
    request_id = msg.request_id;
    trace_id = msg.trace_id;
    received_at = msg.timestamp;
    env = msg.env;
  };
  project = msg.project;
  router = msg.router;
  data_bytes = msg.data_bytes;
}

-- the loop `for k, v := range src.Headers { dst.Headers[k] = v }`
unfoldable pub copy_headers : List (Bytes × Bytes) → List (Bytes × Bytes) → List (Bytes × Bytes)
unfolding put
copy_headers [] dst = dst
copy_headers ((k, v) ∷ src) dst = copy_headers src (put k v dst)

-- `if len(src.Data) > 0 { dst.Data = a copy }`
unfoldable pub copy_data : Bytes → Bytes → Bytes
copy_data [] dst = dst
copy_data (c ∷ s) dst = c ∷ s

-- copyMessage, into the message `dst` that AcquireMessage returned
unfoldable pub copy_message_into : Message → Message → Message
unfolding copy_headers copy_data
copy_message_into dst src = record {
  request_id = src.request_id;
  trace_id = src.trace_id;
  project = src.project;
  router = src.router;
  data_bytes = copy_data src.data_bytes dst.data_bytes;
  env = src.env;
  headers = copy_headers src.headers dst.headers;
  timestamp = src.timestamp;
}

-- the entry of WriteMessage
unfoldable pub entry_of_message : Message → Entry
entry_of_message msg = record {
  sequence = 0;
  project = msg.project;
  router = msg.router;
  data_bytes = msg.data_bytes;
  request_id = msg.request_id;
  trace_id = msg.trace_id;
  timestamp = msg.timestamp;
  env = msg.env;
}

-- messageFromWALEntry of internal/server/server.go, into the message that AcquireMessage returned
unfoldable pub message_from_wal_entry : Message → Entry → Message
message_from_wal_entry dst entry = record dst {
  request_id = entry.request_id;
  trace_id = entry.trace_id;
  project = entry.project;
  router = entry.router;
  data_bytes = entry.data_bytes;
  timestamp = entry.timestamp;
  env = entry.env;
}

-- A message that goes through the WAL comes back with all of its fields but the headers, which an
-- entry does not have.
message_from_wal_entry-entry_of_message :
    (old msg : Message)
    → message_from_wal_entry (release_message old) (entry_of_message msg)
      ≡ record msg { headers = [] }
unfolding message_from_wal_entry entry_of_message release_message
message_from_wal_entry-entry_of_message old msg = refl
