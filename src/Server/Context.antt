-- ===== src/Server/Context.antt =====
-- What `gin.Context` carries through the middlewares of internal/server/middleware.go and
-- internal/server/server.go. The keys of c.Set have one type each, so the type assertions on
-- them hold; the readings of the request are those that the code makes.
use logateway.Prelude.{ℕ, Bool, Option}
use logateway.Prelude.Bytes.{Bytes}
use logateway.Auth.Handler.{Reason}

-- The request as it arrives: the headers that are read, the body, and whether it can be read.
pub record Arrival : Type 0 where
  pub request_id : Bytes
  pub trace_id : Bytes
  pub app_key : Bytes
  pub timestamp : Bytes
  pub nonce : Bytes
  pub signature : Bytes
  pub body : Bytes
  pub readable : Bool

-- the keys that the middlewares set; `none` where c.Get does not find the key
pub record Context : Type 0 where
  pub arrival : Arrival
  pub request_id : Bytes
  pub raw_body : Option Bytes
  pub app_key : Option Bytes
  pub project_name : Option Bytes

-- message.UploadRequest
pub record UploadRequest : Type 0 where
  pub project : Bytes
  pub router : Bytes
  pub data_bytes : Bytes

-- What the error responses say.
pub data Problem : Type 0 where
  over_global_rate body_too_large body_not_available unreadable_body project_required : Problem
  unknown_project authentication_required over_project_rate invalid_json : Problem
  over_project_limit server_busy : Problem
  auth_denied : Reason → Problem

-- c.Next(), or an error response with c.Abort()
pub data Flow : Type 0 where
  next : Context → Flow
  abort : ℕ → Problem → Flow

-- what the client gets: 200 with request and trace id, or an error
pub data Response : Type 0 where
  success : Bytes → Bytes → Response
  failure : ℕ → Problem → Response
