-- ===== src/Pipeline/Processors.antt =====
-- The processors of internal/pipeline/processors.go and their registry. A panic is a result of
-- its own. encoding/json enters as a record: decoding into a `map[string]interface{}` and
-- encoding one.
use logateway.Prelude.{Option, none, some, List, [], ◌∷◌, if◌then◌else◌}
use logateway.Prelude.Bytes.{Bytes, codes, beq}
use logateway.Prelude.Maps.{lookup, delete, put}
use logateway.Config.Value.{Value, Items, Fields, str, arr, obj, nil, cons, end, field}
use logateway.Message.{Message}

abbrev pub Object : Type 0
Object = List (Bytes × Value)

-- what json.Unmarshal leaves in a `var data map[string]interface{}`
pub data Decoded : Type 0 where
  malformed : Decoded
  nil_map : Decoded
  object : Object → Decoded

-- json.Unmarshal and json.Marshal at `map[string]interface{}`; `none` is an error
pub record Json : Type 0 where
  pub decode : Bytes → Decoded
  pub encode : Object → Option Bytes
  pub encode_nil : Option Bytes

pub data Processor : Type 0 where
  field_filter : Bytes → List Bytes → Processor
  field_add : Object → Processor
  field_redact : List (Bytes × Bytes) → Processor

-- how Process ends: with a message, with an error, or with a panic
pub data Result : Type 0 where
  done : Message → Result
  failed : Result
  panicked : Result

-- the fields that "include" keeps, in a new map
unfoldable pub include_fields : List Bytes → Object → Object → Object
include_fields [] m filtered = filtered
include_fields (f ∷ fs) m filtered =
    include_fields fs m (elim (lookup f m) [ none ↦ filtered | some v ↦ put f v filtered ])

-- the fields that "exclude" deletes
unfoldable pub exclude_fields : List Bytes → Object → Object
exclude_fields [] m = m
exclude_fields (f ∷ fs) m = exclude_fields fs (delete f m)

-- the loop of FieldAdd
unfoldable pub add_fields : Object → Object → Object
add_fields [] m = m
add_fields ((k, v) ∷ fs) m = add_fields fs (put k v m)

-- the loop of FieldRedact
unfoldable pub redact_fields : List (Bytes × Bytes) → Object → Object
redact_fields [] m = m
redact_fields ((k, mask) ∷ fs) m =
    redact_fields fs (elim (lookup k m) [ none ↦ m | some v ↦ put k (str mask) m ])

-- `msg.Data = raw`, or the error of json.Marshal
unfoldable pub with_data : Option Bytes → Message → Result
with_data none msg = failed
with_data (some raw) msg = done (record msg { data_bytes = raw })

module _ (json : Json) where
  -- FieldFilter.Process once the data is decoded
  unfoldable pub filter_decoded : Bytes → List Bytes → Decoded → Message → Result
  unfolding include_fields exclude_fields with_data
  filter_decoded mode fields malformed msg = done msg
  filter_decoded mode fields nil_map msg =
      if beq mode (codes "include")
      then with_data (json.encode []) msg
      else if beq mode (codes "exclude")
      then with_data json.encode_nil msg
      else done msg
  filter_decoded mode fields (object m) msg =
      if beq mode (codes "include")
      then with_data (json.encode (include_fields fields m [])) msg
      else if beq mode (codes "exclude")
      then with_data (json.encode (exclude_fields fields m)) msg
      else done msg

  -- FieldAdd.Process once the data is decoded; an assignment to a nil map panics
  unfoldable pub add_decoded : Object → Decoded → Message → Result
  unfolding add_fields with_data
  add_decoded fields malformed msg = with_data (json.encode (add_fields fields [])) msg
  add_decoded [] nil_map msg = with_data json.encode_nil msg
  add_decoded (f ∷ fs) nil_map msg = panicked
  add_decoded fields (object m) msg = with_data (json.encode (add_fields fields m)) msg

  -- FieldRedact.Process once the data is decoded
  unfoldable pub redact_decoded : List (Bytes × Bytes) → Decoded → Message → Result
  unfolding redact_fields with_data
  redact_decoded fields malformed msg = done msg
  redact_decoded fields nil_map msg = with_data json.encode_nil msg
  redact_decoded fields (object m) msg = with_data (json.encode (redact_fields fields m)) msg

  -- Process on a message with these data; FieldAdd starts from an empty map where there is none
  unfoldable pub process_data : Processor → Bytes → Message → Result
  unfolding filter_decoded add_decoded redact_decoded
  process_data (field_filter mode fields) [] msg = done msg
  process_data (field_filter mode fields) (c ∷ s) msg =
      filter_decoded mode fields (json.decode (c ∷ s)) msg
  process_data (field_add fields) [] msg = add_decoded fields (object []) msg
  process_data (field_add fields) (c ∷ s) msg = add_decoded fields (json.decode (c ∷ s)) msg
  process_data (field_redact fields) [] msg = done msg
  process_data (field_redact fields) (c ∷ s) msg = redact_decoded fields (json.decode (c ∷ s)) msg

  -- Processor.Process
  unfoldable pub process : Processor → Message → Result
  unfolding process_data
  process p msg = process_data p msg.data_bytes msg

-- the type assertions of the factories
strings_of : Items → List Bytes
strings_of nil = []
strings_of (cons (str s) xs) = s ∷ strings_of xs
strings_of (cons _ xs) = strings_of xs

object_of : Fields → Object
object_of end = []
object_of (field k v fs) = (k, v) ∷ object_of fs

masks_of : Fields → List (Bytes × Bytes)
masks_of end = []
masks_of (field k (str s) fs) = (k, s) ∷ masks_of fs
masks_of (field k _ fs) = masks_of fs

-- the mode of a field filter: "exclude" unless the text is one of the two
unfoldable pub filter_mode : Option Value → Bytes
filter_mode (some (str s)) = if beq s (codes "include") then s else codes "exclude"
filter_mode _ = codes "exclude"

filter_fields : Option Value → List Bytes
unfolding strings_of
filter_fields (some (arr xs)) = strings_of xs
filter_fields _ = []

add_values : Option Value → Object
unfolding object_of
add_values (some (obj fs)) = object_of fs
add_values _ = []

redact_masks : Option Value → List (Bytes × Bytes)
unfolding masks_of
redact_masks (some (obj fs)) = masks_of fs
redact_masks _ = []

-- Registry.Create with the factories of registerBuiltins; `none` is an unknown type
unfoldable pub create : Bytes → Object → Option Processor
unfolding filter_mode filter_fields add_values redact_masks
create typ cfg =
    let fields = lookup (codes "fields") cfg in
    if beq typ (codes "field_filter")
    then some (field_filter (filter_mode (lookup (codes "mode") cfg)) (filter_fields fields))
    else if beq typ (codes "field_add")
    then some (field_add (add_values fields))
    else if beq typ (codes "field_redact")
    then some (field_redact (redact_masks fields))
    else none
