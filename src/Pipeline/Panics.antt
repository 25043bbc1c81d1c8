-- ===== src/Pipeline/Panics.antt =====
-- When the processors of internal/pipeline/processors.go panic.
use logateway.Prelude.{ℕ, ◌≡◌, ◌≢◌, ◌↔◌, refl, ap, Option, none, some, List, [], ◌∷◌, arith}
use logateway.Prelude.Bytes.{Bytes}
use logateway.Config.Value.{Value}
use logateway.Message.{Message}
use logateway.Pipeline.Processors.{
  Object, Decoded, malformed, nil_map, object, Json, Processor, field_filter, field_add,
  field_redact, panicked, include_fields, exclude_fields, redact_fields, with_data, filter_decoded,
  add_decoded, redact_decoded, process_data, process,
}

with_data-panicked : (o : Option Bytes) (msg : Message) → with_data o msg ≢ panicked
unfolding with_data
with_data-panicked none msg = λ h. cc
with_data-panicked (some raw) msg = λ h. cc

panics_there :
    (json : Json) (p : Processor) (msg : Message)
    → ((k : Bytes) × (v : Value) × (values : Object) × (b : ℕ) × (raw : Bytes) × (p
          ≡ field_add ((k, v) ∷ values))
        × (msg.data_bytes ≡ b ∷ raw)
        × (json.decode (b ∷ raw) ≡ nil_map))
    → process json p msg ≡ panicked
unfolding process
panics_there json p msg (k, v, values, b, raw, e, text, decoded) = rw e (rw text (rw decoded refl))

filter_decoded-panicked :
    (json : Json) (mode : Bytes) (fields : List Bytes) (x : Decoded) (msg : Message)
    → filter_decoded json mode fields x msg ≢ panicked
unfolding filter_decoded
filter_decoded-panicked json mode fields malformed msg h = cc
filter_decoded-panicked json mode fields nil_map msg h =
    ground (arith, with_data-panicked (json.encode []) msg, with_data-panicked json.encode_nil msg)
filter_decoded-panicked json mode fields (object m) msg h = ground (
  arith,
  with_data-panicked (json.encode (include_fields fields m [])) msg,
  with_data-panicked (json.encode (exclude_fields fields m)) msg,
)

redact_decoded-panicked :
    (json : Json) (fields : List (Bytes × Bytes)) (x : Decoded) (msg : Message)
    → redact_decoded json fields x msg ≢ panicked
unfolding redact_decoded
redact_decoded-panicked json fields malformed msg h = cc
redact_decoded-panicked json fields nil_map msg h = with_data-panicked json.encode_nil msg h
redact_decoded-panicked json fields (object m) msg h =
    with_data-panicked (json.encode (redact_fields fields m)) msg h

add_decoded-panicked :
    (json : Json) (fields : Object) (x : Decoded) (msg : Message)
    → add_decoded json fields x msg ≡ panicked
    → (k : Bytes) × (v : Value) × (values : Object) × (fields ≡ (k, v) ∷ values) × (x ≡ nil_map)
unfolding add_decoded
add_decoded-panicked json [] malformed msg h = absurd (with_data-panicked _ msg h)
add_decoded-panicked json [] nil_map msg h = absurd (with_data-panicked _ msg h)
add_decoded-panicked json [] (object m) msg h = absurd (with_data-panicked _ msg h)
add_decoded-panicked json ((k, v) ∷ fs) malformed msg h = absurd (with_data-panicked _ msg h)
add_decoded-panicked json ((k, v) ∷ fs) nil_map msg h = (k, v, fs, refl, refl)
add_decoded-panicked json ((k, v) ∷ fs) (object m) msg h = absurd (with_data-panicked _ msg h)

panics_only :
    (json : Json) (p : Processor) (msg : Message) (s : Bytes)
    → process_data json p s msg ≡ panicked
    → (k : Bytes) × (v : Value) × (values : Object) × (b : ℕ) × (raw : Bytes) × (p
        ≡ field_add ((k, v) ∷ values))
      × (s ≡ b ∷ raw)
      × (json.decode (b ∷ raw) ≡ nil_map)
unfolding process_data
panics_only json (field_filter mode fields) msg [] h = absurd (ground arith)
panics_only json (field_filter mode fields) msg (c ∷ s) h =
    absurd (filter_decoded-panicked json mode fields (json.decode (c ∷ s)) msg h)
panics_only json (field_redact masks) msg [] h = absurd (ground arith)
panics_only json (field_redact masks) msg (c ∷ s) h =
    absurd (redact_decoded-panicked json masks (json.decode (c ∷ s)) msg h)
panics_only json (field_add fields) msg [] h =
    let (k, v, values, same, decoded) = add_decoded-panicked json fields (object []) msg h in
    absurd (cc decoded)
panics_only json (field_add fields) msg (c ∷ s) h =
    let (k, v, values, same, decoded) =
      add_decoded-panicked json fields (json.decode (c ∷ s)) msg h in
    (k, v, values, c, s, ap field_add same, refl, decoded)

-- A processor panics exactly if it is a field addition with at least one field, and the data
-- decode to a nil map, as the JSON text null does.
process-panicked :
    (json : Json) (p : Processor) (msg : Message)
    → (process json p msg ≡ panicked) ↔ (
        (k : Bytes) × (v : Value) × (values : Object) × (b : ℕ) × (raw : Bytes) × (p
          ≡ field_add ((k, v) ∷ values))
        × (msg.data_bytes ≡ b ∷ raw)
        × (json.decode (b ∷ raw) ≡ nil_map))
unfolding process
process-panicked json p msg = (panics_only json p msg msg.data_bytes, panics_there json p msg)
