-- ===== src/Pipeline/Fields.antt =====
-- What the processors do to the fields of a message's data.
use logateway.Prelude.{Bool, false, ◌||◌, Option, none, some, List, [], ◌∷◌, if◌then◌else◌}
use logateway.Prelude.Bytes.{Bytes, beq}
use logateway.Message.{Message}

-- whether a list names a field
unfoldable pub contains : Bytes → List Bytes → Bool
contains k [] = false
contains k (f ∷ fs) = beq f k || contains k fs

-- the last value that a list of assignments gives a field
unfoldable pub assigned : {V : Type 0} → Bytes → List (Bytes × V) → Option V
assigned k [] = none
assigned k ((j, v) ∷ fs) = elim (assigned k fs) [
  | some w ↦ some w
  | none ↦ if beq j k then some v else none
]
