-- ===== src/Engine/Clean/Pressure.antt =====
-- engine/engine.go, `recycleIfNeed`: the objects are recycled when the disk of the master is under pressure.
use baetyl.Base.{
  String, Bool, true, false, Option, none, some, List, [], ◌∷◌, ◌==◌, string_eq, if◌then◌else◌,
}
use baetyl.Base.Dict
use baetyl.Base.Dict.{Dict}
use baetyl.Base.Range.{Range}
use baetyl.Message.{Try, done, failed}
use baetyl.Spec.{Application, Configuration}
use baetyl.Engine.Clean.Objects.{Kinds}
use baetyl.Engine.Clean.Recycle.{recycle}
use baetyl.Engine.Clean.Storage.{NodeView, Effect}

-- The report of a node, decoded: the pressure of the disk and the role of each machine. A missing key of
-- the report is `none`.
pub record Machines : Type 0 where
  pub disk_pressure : Option (Try (Dict String Bool))
  pub role : Option (Try (Dict String String))

-- The loop that breaks at the first master; without one the name is empty.
unfoldable pub master_in : List (String × String) → String
master_in [] = ""
master_in ((name, role) ∷ rest) =
    let later = master_in rest in if role == "master" then name else later

abbrev pub need_key : {A B : Type 0} → String → Option (Try A) → (A → Try B) → Try B
need_key missing none next = failed missing
need_key missing (some (failed e)) next = failed e
need_key missing (some (done a)) next = next a

-- Whether the disk of the master is under pressure.
unfoldable pub is_pressed : Range → Machines → Try Bool
unfolding master_in
is_pressed range m = need_key "node stats not exist in report data" m.disk_pressure (λ stats.
    need_key "node info not exist in report data" m.role (λ roles.
      elim (Dict.lookup (master_in (range.order (String × String) roles)) stats) [
        | none ↦ done false
        | some p ↦ done p
      ]))

-- `recycle` on its arguments, or an error, or nothing to do.
pub data Recycled : Type 0 where
  not_known : String → Recycled
  not_needed : Recycled
  ran : Option (List Effect) → Recycled

unfoldable pub recycle_if_need :
    Kinds
    → Range
    → (String → String)
    → Option NodeView
    → (String → Option Application)
    → Option (List Configuration)
    → Machines
    → Recycled
unfolding is_pressed
recycle_if_need kinds range config_dir node get configs m = elim (is_pressed range m) [
  | failed e ↦ not_known e
  | done false ↦ not_needed
  | done true ↦ ran (recycle kinds range config_dir node get configs)
]
