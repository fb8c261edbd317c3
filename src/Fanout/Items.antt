-- ===== src/Fanout/Items.antt =====
-- src/skill_sync_sidecar/fanout.py: tools, skills and the items of a plan.
use skill_sync_sidecar.Common.{ℕ, String}
use skill_sync_sidecar.Common.{Bool, true, false}
use skill_sync_sidecar.Common.{Option, none, some, List, if◌then◌else◌}
use skill_sync_sidecar.Common.{option_eq, string_eq, nat_eq}
use skill_sync_sidecar.Common.{is_empty}
use skill_sync_sidecar.Common.Dict.{Dict}
use skill_sync_sidecar.Fanout.{Entry, thing, Disk}

pub data Mode : Type 0 where
  link_mode copy_mode : Mode

pub record FanoutTool : Type 0 where
  pub tool_id : String
  pub root : String
  pub mode : Mode
  pub aliases : List String

pub data Action : Type 0 where
  link relink replace_dir_with_link copy update_copy adopt replace_link_with_copy : Action
  remove_dangling_link remove_copy up_to_date conflict foreign_link : Action

unfoldable pub action_name : Action → String
action_name link = "link"
action_name relink = "relink"
action_name replace_dir_with_link = "replace_dir_with_link"
action_name copy = "copy"
action_name update_copy = "update_copy"
action_name adopt = "adopt"
action_name replace_link_with_copy = "replace_link_with_copy"
action_name remove_dangling_link = "remove_dangling_link"
action_name remove_copy = "remove_copy"
action_name up_to_date = "ok"
action_name conflict = "conflict"
action_name foreign_link = "foreign_link"

-- `action in NOOP_ACTIONS`
abbrev pub is_noop : Action → Bool
is_noop up_to_date = true
is_noop conflict = true
is_noop foreign_link = true
is_noop _ = false

-- The `content_hash` of the item for a directory: a copy that is kept stands for itself.
abbrev pub planned_hash : Action → Option String → Option String → Option String
planned_hash up_to_date current canonical = current
planned_hash adopt current canonical = current
planned_hash _ current canonical = canonical

-- A skill record: its directory's name, resolved path and resolved parent, and the `targets` of
-- its manifest, if it has a readable one and they are a list.
pub record FanoutSkill : Type 0 where
  pub name : String
  pub skill_id : String
  pub path : String
  pub parent : String
  pub scope : String
  pub risk_level : String
  pub manifest_targets : Option (Option (List String))

-- An item of the plan.
pub record FanoutItem : Type 0 where
  pub name : String
  pub action : Action
  pub risk_level : Option String
  pub content_hash : Option String
  pub source_path : String
  pub link_target : Option String
  pub reason : Option String

-- `_declared_targets`
unfoldable pub declared_targets : FanoutSkill → Option (List String)
declared_targets skill = elim skill.manifest_targets [
  | none ↦ none
  | some targets ↦ elim targets [ none ↦ none | some ts ↦ if is_empty ts then none else some ts ]
]

abbrev pub is_link_mode : Mode → Bool
is_link_mode link_mode = true
is_link_mode copy_mode = false

abbrev pub Directory : Type 0
Directory = String → Option Entry

-- The entry that is a copy of nothing else: the skill's own directory.
abbrev pub source_entry : Disk → String → Option Entry
source_entry D path = elim (D.at path) [ none ↦ none | some x ↦ some (thing x) ]

-- The part of a tool's report that `build_fanout_plan` adds for a directory that is there.
pub record ToolPlan : Type 0 where
  pub summary : Dict String ℕ
  pub not_placed : Dict String ℕ
  pub warnings : List String
  pub items : List FanoutItem
