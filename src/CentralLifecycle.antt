-- ===== src/CentralLifecycle.antt =====
-- src/skill_sync_sidecar/central_lifecycle.py: marking skills of the central index as deprecated,
-- and as published again. The remote's index and the cached one are the state; times and the
-- identifiers of new snapshots are arguments.
pub mod Index
pub mod Runs
use skill_sync_sidecar.Common.{ℕ, zero, suc, ◌+◌, ◌-◌, ◌≤◌, ◌<◌, String, ◌<>◌, ◌≡◌, refl, sym}
use skill_sync_sidecar.Common.{◌∙◌, ap, ◌≢◌, ◌↔◌, ◌⊎◌, inl, inr, Bool, true, false, ◌&&◌, ◌||◌}
use skill_sync_sidecar.Common.{
  not, Option, none, some, List, [], ◌∷◌, ◌++◌, map, arith, if◌then◌else◌,
}
use skill_sync_sidecar.Common.{ltb, leb, ◌==◌, contains, option_eq, string_eq, nat_eq, Bool-cases}
use skill_sync_sidecar.Common.{
  Option-cases, truthy, or_else_text, is_some, length, select, count_if,
}
use skill_sync_sidecar.Common.{any_of, is_empty, All, Error, Result, ok, err, ◌>>=◌, ◌>>◌, require}
use skill_sync_sidecar.Common.{lifecycle_error, remote_error, os_error, Attempt, works, fails}
use skill_sync_sidecar.Common.Dict.{Dict, lookup, insert}
use skill_sync_sidecar.Common.Text.{strip}
use skill_sync_sidecar.Skill.{Entry, Lifecycle, Index as SkillIndex, lifecycle_state}

-- `_normalize_skill_ids`
normalize_loop : List String → List String → List String
normalize_loop [] result = result
normalize_loop (raw ∷ raws) result =
    let skill_id = strip raw in
    normalize_loop raws
      (if skill_id == "" || contains result skill_id then result else result ++ (skill_id ∷ []))

unfoldable pub normalize_skill_ids : List String → Result (List String)
unfolding normalize_loop
normalize_skill_ids raws =
    let result = normalize_loop raws [] in
    if is_empty result then err (lifecycle_error "at least one skill id is required") else ok result

-- `_skills_by_id`; a later entry replaces an earlier one.
skills_loop : List Entry → Dict String Entry → Dict String Entry
skills_loop [] d = d
skills_loop (e ∷ es) d =
    skills_loop es (elim (truthy e.skill_id) [ none ↦ d | some k ↦ insert k e d ])

unfoldable pub skills_by_id : SkillIndex → Dict String Entry
unfolding skills_loop
skills_by_id index = skills_loop index.skills []

-- Who changes the state, why, and when; and the new snapshot's id.
pub record Change : Type 0 where
  pub actor : String
  pub reason : String
  pub at_time : String
  pub snapshot_id : String

no_lifecycle : Lifecycle
no_lifecycle = record {
  state = none;
  deprecated_at = none;
  deprecated_by = none;
  reason = none;
  reactivated_at = none;
  reactivated_by = none;
  reactivate_reason = none;
}

-- `updated.get("lifecycle") or {}`
unfoldable pub lifecycle_of : Entry → Lifecycle
unfolding no_lifecycle
lifecycle_of e = elim e.lifecycle [ none ↦ no_lifecycle | some l ↦ l ]

unfoldable pub is_chosen : List String → Entry → Bool
is_chosen ids e = contains ids (or_else_text e.skill_id "None")

-- The body of the loop of `_deprecate_index`.
unfoldable pub deprecate_entry : Change → List String → Entry → Entry
unfolding lifecycle_of is_chosen
deprecate_entry c ids e =
    if is_chosen ids e && not (lifecycle_state e == "deprecated")
    then record e {
      lifecycle = some (record (lifecycle_of e) {
        state = some "deprecated";
        deprecated_at = some c.at_time;
        deprecated_by = some c.actor;
        reason = if c.reason == "" then (lifecycle_of e).reason else some c.reason;
      });
    }
    else e

-- The body of the loop of `_reactivate_index`.
unfoldable pub reactivate_entry : Change → List String → Entry → Entry
unfolding lifecycle_of is_chosen
reactivate_entry c ids e =
    if is_chosen ids e && lifecycle_state e == "deprecated"
    then record e {
      lifecycle = some (record (lifecycle_of e) {
        state = some "published";
        reactivated_at = some c.at_time;
        reactivated_by = some c.actor;
        reactivate_reason =
            if c.reason == "" then (lifecycle_of e).reactivate_reason else some c.reason;
      });
    }
    else e

with_skills : SkillIndex → Change → List Entry → SkillIndex
with_skills index c skills = record index {
  snapshot_id = some c.snapshot_id;
  created_at = some c.at_time;
  total = length skills;
  skills = skills;
}

unfoldable pub deprecate_index : SkillIndex → List String → Change → SkillIndex
unfolding with_skills
deprecate_index index ids c = with_skills index c (map (deprecate_entry c ids) index.skills)

unfoldable pub reactivate_index : SkillIndex → List String → Change → SkillIndex
unfolding with_skills
reactivate_index index ids c = with_skills index c (map (reactivate_entry c ids) index.skills)

-- An item of a preview.
pub record LifecycleItem : Type 0 where
  pub skill_id : String
  pub current_state : String
  pub next_state : String
  pub changes : Bool

-- The two operations of the module.
pub data Operation : Type 0 where
  deprecate reactivate : Operation

abbrev pub next_state : Operation → String
next_state deprecate = "deprecated"
next_state reactivate = "published"

-- Whether an entry in the state is to be changed.
unfoldable pub is_changed : Operation → String → Bool
is_changed deprecate state = not (state == "deprecated")
is_changed reactivate state = state == "deprecated"

-- The loop over the ids. The error names the first that is not in the index; the code names all.
unfoldable pub lifecycle_items :
    Operation → Dict String Entry → List String → Result (List LifecycleItem)
lifecycle_items op skills [] = ok []
lifecycle_items op skills (k ∷ ks) = elim (lookup k skills) [
  | none ↦ err (lifecycle_error ("skill is not present in central snapshot: " <> k))
  | some e ↦ do
    rest ← lifecycle_items op skills ks
    ok (
        record {
          skill_id = k;
          current_state = lifecycle_state e;
          next_state = next_state op;
          changes = is_changed op (lifecycle_state e);
        }
        ∷ rest)
]

unfoldable pub changed_index : Operation → SkillIndex → List String → Change → SkillIndex
changed_index deprecate index ids c = deprecate_index index ids c
changed_index reactivate index ids c = reactivate_index index ids c

pub record LifecyclePreview : Type 0 where
  pub skill_ids : List String
  pub planned : ℕ
  pub items : List LifecycleItem

-- The preview of either operation.
unfoldable pub build_preview : Operation → Option SkillIndex → List String → Result LifecyclePreview
build_preview op cache raws = do
  ids ← normalize_skill_ids raws
  elim cache [
    | none ↦ err (lifecycle_error "central snapshot cache has no index.json")
    | some index ↦ do
      items ← lifecycle_items op (skills_by_id index) ids
      ok (record { skill_ids = ids; planned = count_if (λ i. i.changes) items; items = items })
  ]

unfoldable pub build_central_deprecate_preview :
    Option SkillIndex → List String → Result LifecyclePreview
build_central_deprecate_preview = build_preview deprecate

unfoldable pub build_central_reactivate_preview :
    Option SkillIndex → List String → Result LifecyclePreview
build_central_reactivate_preview = build_preview reactivate

-- The indexes on the remote and in the cache. `digest` is `_index_sha256`.
pub record Central : Type 0 where
  pub remote : Option SkillIndex
  pub cache : Option SkillIndex

module _ (digest : SkillIndex → String) where
  unfoldable pub assert_remote_index_matches_cache : Central → SkillIndex → Result (Unit {0})
  assert_remote_index_matches_cache c cache = elim c.remote [
    | none ↦ err (lifecycle_error "cannot verify remote snapshot before lifecycle update")
    | some remote ↦ require (digest remote == digest cache) (
        lifecycle_error
          "remote index changed since the local cache was pulled; refresh before lifecycle update")
  ]

  -- The two writes of the new index: to the remote, then to the cache. A write that raises may have
  -- left anything at its path.
  publish :
      Operation
      → Attempt SkillIndex
      → Attempt SkillIndex
      → Change
      → LifecyclePreview
      → SkillIndex
      → Central
      → Result ℕ × Central
  publish op upload save c p index central =
      let new_index = changed_index op index p.skill_ids c in
      elim upload [
        | fails left ↦ (
          err (remote_error "network error for PUT index.json"),
          record central { remote = left },
        )
        | works ↦ elim save [
          | fails left ↦
              (err (os_error "index.json"), record { remote = some new_index; cache = left })
          | works ↦ (ok 1, record { remote = some new_index; cache = some new_index })
        ]
      ]

  -- The execution of either operation: the number of uploaded files. `upload` and `save` say how
  -- the writes of the index to the remote and to the cache end.
  unfoldable pub execute :
      Operation
      → Bool
      → Attempt SkillIndex
      → Attempt SkillIndex
      → Change
      → List String
      → Central
      → Result ℕ × Central
  unfolding publish
  execute op require_remote_match upload save c raws central =
      elim (build_preview op central.cache raws) [
        | err e ↦ (err e, central)
        | ok p ↦ elim central.cache [
          | none ↦ (err (lifecycle_error "central snapshot cache has no index.json"), central)
          | some index ↦
              if p.planned == 0
              then (ok 0, central)
              else elim (if require_remote_match
                  then assert_remote_index_matches_cache central index
                  else ok tt) [
                    | err e ↦ (err e, central)
                    | ok _ ↦ publish op upload save c p index central
                  ]
        ]
      ]

  unfoldable pub execute_central_deprecate :
      Bool
      → Attempt SkillIndex
      → Attempt SkillIndex
      → Change
      → List String
      → Central
      → Result ℕ × Central
  execute_central_deprecate = execute deprecate

  unfoldable pub execute_central_reactivate :
      Bool
      → Attempt SkillIndex
      → Attempt SkillIndex
      → Change
      → List String
      → Central
      → Result ℕ × Central
  execute_central_reactivate = execute reactivate
