-- ===== src/Server/Upload.antt =====
-- UploadHandler of internal/server/server.go. The closure that it gives to pool.Submit is the call
-- of Dispatch on the message, so what it hands over is that message; `accepted` is whether
-- Submit of github.com/panjf2000/ants returns nil.
use logateway.Prelude.{ℕ, Bool, false, not, ◌&&◌, Option, none, some, length, if◌then◌else◌}
use logateway.Prelude.Int.{pos, ltb_ℤ}
use logateway.Prelude.Bytes.{Bytes}
use logateway.Config.Types.{ProjectConfig, Config}
use logateway.Config.Defaults.{default_if_empty}
use logateway.Config.Manager.{get_project}
use logateway.Message.{Message}
use logateway.Server.Context.{
  Context, UploadRequest, Response, success, failure, body_not_available, body_too_large,
  invalid_json, over_project_limit, server_busy,
}

-- `projCfg != nil && projCfg.MaxBodyBytes > 0 && len > projCfg.MaxBodyBytes`
unfoldable pub over_limit : Option ProjectConfig → ℕ → Bool
over_limit none n = false
over_limit (some p) n = ltb_ℤ (pos 0) p.max_body_bytes && ltb_ℤ p.max_body_bytes (pos n)

-- the trace id: the header's, or the request id
unfoldable pub trace_id_of : Context → Bytes
unfolding default_if_empty
trace_id_of c = default_if_empty c.arrival.trace_id c.request_id

-- the fields that UploadHandler sets on a message from the pool; it leaves Headers alone
unfoldable pub fill_message : Message → Config → UploadRequest → ℕ → Context → Message
unfolding trace_id_of
fill_message pooled cfg req now c = record pooled {
  request_id = c.request_id;
  trace_id = trace_id_of c;
  project = req.project;
  router = req.router;
  data_bytes = req.data_bytes;
  timestamp = now;
  env = cfg.server.env;
}

-- UploadHandler from json.Unmarshal on
unfoldable pub upload_body :
    (Bytes → Option UploadRequest)
    → Config
    → Message
    → ℕ
    → Bool
    → Bytes
    → Context
    → Option Message × Response
unfolding over_limit fill_message trace_id_of
upload_body unmarshal cfg pooled now accepted raw c = elim (unmarshal raw) [
  | none ↦ (none, failure 400 invalid_json)
  | some req ↦
      if over_limit (get_project cfg req.project) (length raw)
      then (none, failure 413 over_project_limit)
      else if not accepted
      then (none, failure 503 server_busy)
      else (some (fill_message pooled cfg req now c), success c.request_id (trace_id_of c))
]

-- UploadHandler: the message that is handed over, and the response
unfoldable pub upload_handler :
    (Bytes → Option UploadRequest)
    → Config
    → Message
    → ℕ
    → Bool
    → Context
    → Option Message × Response
unfolding upload_body
upload_handler unmarshal cfg pooled now accepted c = elim c.raw_body [
  | none ↦ (none, failure 500 body_not_available)
  | some raw ↦
      if ltb_ℤ cfg.server.max_body_bytes (pos (length raw))
      then (none, failure 413 body_too_large)
      else upload_body unmarshal cfg pooled now accepted raw c
]
