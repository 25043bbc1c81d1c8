-- ===== src/Config/Manager.antt =====
-- GetProject of `Manager` in internal/config/config.go.
use logateway.Prelude.{true, ◌&&◌, Option, none, some, List, [], ◌∷◌, ◌≡◌, if◌then◌else◌, arith}
use logateway.Prelude.Bytes.{Bytes, beq, beq→≡}
use logateway.Config.Types.{ProjectConfig, Config}

-- the loop of GetProject
unfoldable pub find_project : Bytes → List ProjectConfig → Option ProjectConfig
find_project name [] = none
find_project name (p ∷ ps) = if beq p.name name && p.enabled then some p else find_project name ps

-- GetProject
unfoldable pub get_project : Config → Bytes → Option ProjectConfig
unfolding find_project
get_project cfg name = find_project name cfg.projects

find_project_sound :
    (name : Bytes) (ps : List ProjectConfig) (p : ProjectConfig)
    → find_project name ps ≡ some p
    → (p.name ≡ name) × (p.enabled ≡ true)
unfolding find_project
find_project_sound name [] p h = cc
find_project_sound name (q ∷ ps) p h =
    ground (arith, beq→≡ q.name name, find_project_sound name ps p)

-- A project that GetProject returns has the name that was asked for, and is enabled.
pub get_project_sound :
    (cfg : Config) (name : Bytes) (p : ProjectConfig)
    → get_project cfg name ≡ some p
    → (p.name ≡ name) × (p.enabled ≡ true)
unfolding get_project
get_project_sound cfg name p h = find_project_sound name cfg.projects p h
