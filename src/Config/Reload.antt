-- ===== src/Config/Reload.antt =====
-- `Manager` of internal/config/config.go: NewManager, OnReload, load, Reload, and the loop that
-- Watch starts. os.ReadFile and yaml.Unmarshal enter as what they return. A callback works on the
-- state `S` of whoever registered it, and may panic half way.
use logateway.Prelude.{
  ℕ, ◌+◌, Bool, true, false, Option, none, some, List, [], ◌∷◌, ◌++◌, leb, if◌then◌else◌,
}
use logateway.Prelude.Bytes.{Bytes}
use logateway.Config.Types.{Config}
use logateway.Config.Defaults.{apply_defaults}

-- a callback: what it makes of the state, and whether it returns (`false` is a panic)
abbrev pub Callback {ℓ} : Type ℓ → Type ℓ
Callback S = Config → S → S × Bool

-- Manager; the configuration is there once load has succeeded
pub record Manager {ℓ} (S : Type ℓ) : Type ℓ where
  pub current : Option Config
  pub callbacks : List (Callback S)

-- the configuration in the file: `none` where it cannot be read or decoded
unfoldable pub read_config : Option Bytes → (Bytes → Option Config) → Option Config
read_config none unmarshal = none
read_config (some data_bytes) unmarshal = unmarshal data_bytes

-- What the loop of watchLoop receives, with the time in milliseconds: a write or a creation of
-- the file, another event or an error, the timer, and the file as it is then.
pub data Event : Type 0 where
  changed : ℕ → Event
  ignored : Event
  fired : ℕ → Option Bytes → Event

-- the loop's variables, with the manager: the time at which the timer fires
pub record Watch {ℓ} (S : Type ℓ) : Type ℓ where
  pub timer : Option ℕ
  pub manager : Manager S
  pub state : S

module _ {ℓ} {S : Type ℓ} where
  -- the loop over the callbacks, each with its own recover
  unfoldable pub run_callbacks : Config → List (Callback S) → S → S
  run_callbacks cfg [] s = s
  run_callbacks cfg (fn ∷ fns) s = run_callbacks cfg fns (fn cfg s).0

  -- load, and whether it returns nil
  unfoldable pub load :
      Option Bytes → (Bytes → Option Config) → Manager S → S → Manager S × S × Bool
  unfolding read_config apply_defaults run_callbacks
  load file unmarshal m s = elim (read_config file unmarshal) [
    | none ↦ (m, s, false)
    | some decoded ↦
        let cfg = apply_defaults decoded in
        (record m { current = some cfg }, run_callbacks cfg m.callbacks s, true)
  ]

  -- Reload
  unfoldable pub reload :
      Option Bytes → (Bytes → Option Config) → Manager S → S → Manager S × S × Bool
  unfolding load
  reload file unmarshal m s = load file unmarshal m s

  -- NewManager; `none` is an error
  unfoldable pub new_manager : Option Bytes → (Bytes → Option Config) → S → Option (Manager S)
  unfolding load
  new_manager file unmarshal s =
      let (m, s', ok) = load file unmarshal (record { current = none; callbacks = [] }) s in
      if ok then some m else none

  -- OnReload
  unfoldable pub on_reload : Callback S → Manager S → Manager S
  on_reload fn m = record m { callbacks = m.callbacks ++ fn ∷ [] }

  -- one round of watchLoop; the timer's channel delivers nothing before its time
  unfoldable pub watch_step : (Bytes → Option Config) → Event → Watch S → Watch S
  unfolding reload
  watch_step unmarshal (changed now) w = record w { timer = some (now + 500) }
  watch_step unmarshal ignored w = w
  watch_step unmarshal (fired now file) w = elim w.timer [
    | none ↦ w
    | some due ↦
        if leb due now
        then (let (m, s, ok) = reload file unmarshal w.manager w.state in
            record { timer = none; manager = m; state = s })
        else w
  ]
