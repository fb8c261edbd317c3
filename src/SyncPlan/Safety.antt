-- ===== src/SyncPlan/Safety.antt =====
-- From the three versions of a skill to its planned action: no plan overwrites a change that the
-- other side has not seen.
use skill_sync_sidecar.Common.{String, ◌≡◌, refl}
use skill_sync_sidecar.Common.{◌∙◌, ◌≢◌, ◌⊎◌, inl, inr, Bool}
use skill_sync_sidecar.Common.{Option, none, some, arith}
use skill_sync_sidecar.Common.{option_eq, string_eq, nat_eq, Bool-cases}
use skill_sync_sidecar.Common.{ok}
use skill_sync_sidecar.Skill.{Entry, hash_of}
use skill_sync_sidecar.SyncState.{
  Action, SyncStateItem, LocalOverride, classify_hashes, classify_skill,
}
use skill_sync_sidecar.SyncState.{is_deprecated}
use skill_sync_sidecar.SyncState.Overrides.{Projections, classify_skill_with_override}
use skill_sync_sidecar.SyncState.Overrides.Laws.{classify_skill_with_override-Acknowledged}
use skill_sync_sidecar.SyncPlan.{PlanAction, WriterPolicy, plan_item, decide}
use skill_sync_sidecar.SyncPlan.{
  noop, pull, pull_new, push, push_new, delete_local, deprecate_remote, blocked,
}
use skill_sync_sidecar.SyncPlan.{apply_writer_policy}

-- What the versions of the base, the local root and the remote have to be for an action to lose
-- nothing.
abbrev pub IsSafe : PlanAction → Option String → Option String → Option String → Type 0
IsSafe pull b l r = (b ≢ none) × (l ≡ b) × (r ≢ b) × (r ≢ none)
IsSafe push b l r = (b ≢ none) × (r ≡ b) × (l ≢ b) × (l ≢ none)
IsSafe pull_new b l r = (b ≡ none) × (l ≡ none) × (r ≢ none)
IsSafe push_new b l r = (b ≡ none) × (r ≡ none) × (l ≢ none)
IsSafe delete_local b l r = (b ≢ none) × (l ≡ b) × (r ≡ none)
IsSafe deprecate_remote b l r = (b ≢ none) × (r ≡ b) × (l ≡ none)
IsSafe _ b l r = Unit {0}

-- The plan action that a status action can at most lead to.
abbrev pub at_most : Action → PlanAction
at_most Action.pull = pull
at_most Action.push = push
at_most Action.remote_new = pull_new
at_most Action.local_new = push_new
at_most Action.remote_deleted = delete_local
at_most Action.local_deleted = deprecate_remote
at_most _ = noop

classify_hashes-IsSafe : (b l r : Option String) → IsSafe (at_most (classify_hashes b l r).0) b l r
unfolding classify_hashes option_eq
classify_hashes-IsSafe none none none = tt
classify_hashes-IsSafe none none (some r) = (refl, refl, λ h. cc)
classify_hashes-IsSafe none (some l) none = (refl, refl, λ h. cc)
classify_hashes-IsSafe none (some l) (some r) = ground arith
classify_hashes-IsSafe (some b) none none = ground arith
classify_hashes-IsSafe (some b) none (some r) = ground arith
classify_hashes-IsSafe (some b) (some l) none = ground arith
classify_hashes-IsSafe (some b) (some l) (some r) = ground arith

classify_skill-IsSafe :
    (k : String) (base local remote : Option Entry)
    → IsSafe
        (at_most (classify_skill k base local remote).action)
        (hash_of base)
        (hash_of local)
        (hash_of remote)
unfolding classify_skill
classify_skill-IsSafe k base local remote = elim (Bool-cases (is_deprecated remote)) [
  | inl h ↦ rw h tt
  | inr h ↦ rw h (classify_hashes-IsSafe (hash_of base) (hash_of local) (hash_of remote))
]

-- The versions of an item are those of the three entries.
pub record Compares (base local remote : Option Entry) (item : SyncStateItem) : Type 0 where
  pub base_hash : item.base_hash ≡ hash_of base
  pub local_hash : item.local_hash ≡ hash_of local
  pub remote_hash : item.remote_hash ≡ hash_of remote
  pub safe : IsSafe (at_most item.action) (hash_of base) (hash_of local) (hash_of remote)

classify_skill-Compares :
    (k : String) (base local remote : Option Entry)
    → Compares base local remote (classify_skill k base local remote)
unfolding classify_skill
classify_skill-Compares k base local remote = record {
  base_hash = refl;
  local_hash = refl;
  remote_hash = refl;
  safe = unfold classify_skill in classify_skill-IsSafe k base local remote;
}

IsSafe-at_most :
    (a b : Action) (x y z : Option String)
    → a ≡ b
    → IsSafe (at_most b) x y z
    → IsSafe (at_most a) x y z
IsSafe-at_most a b x y z e h = rw e h

module _ (P : Projections) where
  classified-Compares :
      (k : String) (base local remote : Option Entry) (o : Option LocalOverride)
      (item : SyncStateItem)
      → classify_skill_with_override P k base local remote o ≡ ok item
      → Compares base local remote item
  unfolding classify_skill_with_override
  classified-Compares k base local remote none item h =
      let same : item ≡ classify_skill k base local remote = cc in
      rw same (classify_skill-Compares k base local remote)
  classified-Compares k base local remote (some o) item h =
      let (same, ack) = classify_skill_with_override-Acknowledged P k base local remote o item h in
      let c = classify_skill-Compares k base local remote in
      record {
        base_hash = same.base_hash ∙ c.base_hash;
        local_hash = same.local_hash ∙ c.local_hash;
        remote_hash = same.remote_hash ∙ c.remote_hash;
        safe = elim ack [
          | inl e ↦ rw e c.safe
          | inr (inl (e, _, _, _)) ↦ rw e tt
          | inr (inr (e, _, _)) ↦ rw e tt
        ];
      }

decide-at_most :
    (a : Action) (new delete : Bool) (reason : String)
    → ((decide a new delete reason).0 ≡ at_most a) ⊎ ((decide a new delete reason).0 ≡ blocked)
unfolding decide
decide-at_most Action.local_only new delete reason = inl refl
decide-at_most _ new delete reason = ground arith

module _ (new delete : Bool) (policy : WriterPolicy) where
  planned-at_most :
      (item : SyncStateItem)
      → let p = apply_writer_policy policy (plan_item new delete item) in
        (p.plan_action ≡ at_most item.action) ⊎ (p.plan_action ≡ blocked)
  unfolding apply_writer_policy plan_item
  planned-at_most item = ground (arith, decide-at_most item.action new delete item.reason)

  -- Whatever the flags, the writer policy and the local override, the action planned for a skill
  -- loses no change: a pull leaves behind the version that the local root had from the base, a
  -- push replaces the version that the remote had from the base, a new skill replaces nothing, and
  -- a deletion is planned only for an unchanged copy of what the other side removed.
  pub planned-IsSafe :
      (P : Projections) (k : String) (base local remote : Option Entry) (o : Option LocalOverride)
      (item : SyncStateItem)
      → classify_skill_with_override P k base local remote o ≡ ok item
      → IsSafe
          (apply_writer_policy policy (plan_item new delete item)).plan_action
          (hash_of base)
          (hash_of local)
          (hash_of remote)
  planned-IsSafe P k base local remote o item h = elim (planned-at_most item) [
    | inl e ↦ rw e (classified-Compares P k base local remote o item h).safe
    | inr e ↦ rw e tt
  ]
