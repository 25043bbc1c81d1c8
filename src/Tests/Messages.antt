-- ===== src/Tests/Messages.antt =====
-- The theorems on the processors, on projects and on messages.
use logateway.Prelude.{some, [], ◌∷◌}
use logateway.Prelude.Bytes.{Bytes, codes}
use logateway.Config.Value.{str}
use logateway.Message.{Message, blank}
use logateway.Pipeline.Processors.{Object, object, Json}

-- an object of two fields, and a JSON library that knows no other
abbrev fields : Object
fields = (codes "user", str (codes "u")) ∷ (codes "password", str (codes "s")) ∷ []

abbrev json : Json
json = record {
  decode = λ s. object fields;
  encode = λ m. some (codes "{}");
  encode_nil = some (codes "null");
}

abbrev msg : Message
msg = record blank { project = codes "p"; data_bytes = codes "{}" }

abbrev password : Bytes
password = codes "password"
