-- ===== src/Skill.antt =====
-- The JSON objects for one skill that the modules exchange: an entry of a snapshot's `index.json`
-- (src/skill_sync_sidecar/snapshot.py), of an apply record, or of a local scan. A field is `none`
-- where the key is missing or null; texts are as the code reads them, by `str(…)`.
use skill_sync_sidecar.Common.{ℕ, String, Option, none, some, List, truthy, or_else_text}

pub record Lifecycle : Type 0 where
  pub state : Option String
  pub deprecated_at : Option String
  pub deprecated_by : Option String
  pub reason : Option String
  pub reactivated_at : Option String
  pub reactivated_by : Option String
  pub reactivate_reason : Option String

pub record Entry : Type 0 where
  pub key : Option String
  pub source : Option String
  pub skill_id : Option String
  pub scope : Option String
  pub targets : List String
  pub content_hash : Option String
  pub risk_level : Option String
  pub archive : Option String
  pub path : Option String
  pub state : Option String
  pub lifecycle : Option Lifecycle

abbrev pub empty_entry : Entry
empty_entry = record {
  key = none;
  source = none;
  skill_id = none;
  scope = none;
  targets = List.[];
  content_hash = none;
  risk_level = none;
  archive = none;
  path = none;
  state = none;
  lifecycle = none;
}

-- `index.json`
pub record Index : Type 0 where
  pub snapshot_id : Option String
  pub created_at : Option String
  pub total : ℕ
  pub skills : List Entry

-- The state of an entry whose lifecycle object does not name one.
own_state : Entry → String
own_state e = or_else_text e.state "published"

-- `_central_lifecycle_state` and `_skill_lifecycle_state`
unfoldable pub lifecycle_state : Entry → String
unfolding own_state
lifecycle_state e = elim e.lifecycle [
  | none ↦ own_state e
  | some l ↦ or_else_text l.state (own_state e)
]

-- `_hash`
unfoldable pub hash_of : Option Entry → Option String
hash_of none = none
hash_of (some e) = truthy e.content_hash
