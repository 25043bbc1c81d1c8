-- ===== src/Config/Value.antt =====
-- The values of a `map[string]interface{}` that yaml or json decodes. A float64 is kept as the
-- integer that `int(val)` truncates it to, which is all that the factories read of one; the text of
-- a float in fmt.Sprint and json.Marshal belongs to those functions, which are parameters.
use logateway.Prelude.{Bool}
use logateway.Prelude.Int.{ℤ}
use logateway.Prelude.Bytes.{Bytes}

mutual
  pub data Value : Type 0 where
    null : Value
    bool : Bool → Value
    float64 : ℤ → Value
    int : ℤ → Value
    str : Bytes → Value
    arr : Items → Value
    obj : Fields → Value

  pub data Items : Type 0 where
    nil : Items
    cons : Value → Items → Items

  pub data Fields : Type 0 where
    end : Fields
    field : Bytes → Value → Fields → Fields
