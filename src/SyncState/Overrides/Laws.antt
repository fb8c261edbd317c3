-- ===== src/SyncState/Overrides/Laws.antt =====
-- What a local override can do to a classification.
use skill_sync_sidecar.Common.{String, true, false, ◌≡◌, ◌⊎◌, Option, none, some}
use skill_sync_sidecar.Common.{arith, is_some, ok, refl, ap, ◌∙◌, inl, inr, truthy, ◌==◌, option_eq}
use skill_sync_sidecar.Common.{string_eq, nat_eq, Bool-cases, Option-cases, Result-cases}
use skill_sync_sidecar.Skill.{Entry}
use skill_sync_sidecar.SyncState.{
  Action, SyncStateItem, LocalOverride, classify_skill, local_only, local_override, push, conflict,
  same_without_base,
}
use skill_sync_sidecar.SyncState.Overrides.{
  Projections, is_overridable, override_item, projected_item, same_projection,
}
use skill_sync_sidecar.SyncState.Overrides.{classify_skill_with_override}

-- The hashes and the skill id stay as they were classified.
pub record SameVersions (item out : SyncStateItem) : Type 0 where
  pub skill_id : out.skill_id ≡ item.skill_id
  pub base_hash : out.base_hash ≡ item.base_hash
  pub local_hash : out.local_hash ≡ item.local_hash
  pub remote_hash : out.remote_hash ≡ item.remote_hash

-- The files of the two sides outside the ignored paths hash to the same text.
pub record SameProjection (P : Projections) (o : LocalOverride) (local remote : Option Entry)
    : Type 0 where
  pub here : Entry
  pub there : Entry
  pub path : String
  pub hash : String
  pub is_local : local ≡ some here
  pub is_remote : remote ≡ some there
  pub path_of : truthy here.path ≡ some path
  pub hash_here : P.projected_local path o.ignore_paths ≡ some hash
  pub hash_there : P.projected_remote there o.ignore_paths ≡ ok (some hash)
  pub not_empty : (hash == "") ≡ false

-- The three things that an override may do to the action of an item.
abbrev pub Acknowledged :
    Projections
    → SyncStateItem
    → Option Entry
    → Option Entry
    → LocalOverride
    → SyncStateItem
    → Type 0
Acknowledged P item local remote o out =
    (out.action ≡ item.action)
    ⊎ ((out.action ≡ local_only)
        × (o.local_only ≡ true)
        × (is_some local ≡ true)
        × (is_some remote ≡ false))
    ⊎ ((out.action ≡ local_override)
        × ((item.action ≡ push) ⊎ (item.action ≡ conflict) ⊎ (item.action ≡ same_without_base))
        × SameProjection P o local remote)

module _ (P : Projections) where
  overridable-cases :
      (a : Action) → is_overridable a ≡ true → (a ≡ push) ⊎ (a ≡ conflict) ⊎ (a ≡ same_without_base)
  overridable-cases a h = ground arith

  same_projection-inv :
      (x y : Option String)
      → same_projection x y ≡ true
      → (hash : String) × (x ≡ some hash) × (y ≡ some hash) × ((hash == "") ≡ false)
  unfolding same_projection
  same_projection-inv (some s) (some t) h = (s, refl, ground arith, ground arith)
  same_projection-inv (some s) none h = absurd (ground arith)
  same_projection-inv none y h = absurd (ground arith)

  projected_item-Acknowledged :
      (item : SyncStateItem) (o : LocalOverride) (l r : Entry) (out : SyncStateItem)
      → is_overridable item.action ≡ true
      → projected_item P item o l r ≡ ok out
      → SameVersions item out × Acknowledged P item (some l) (some r) o out
  unfolding projected_item
  projected_item-Acknowledged item o l r out h e = elim (Option-cases (truthy l.path)) [
    | inl no_path ↦ ground arith
    | inr (path, p) ↦ elim (Result-cases (P.projected_remote r o.ignore_paths)) [
      | inr (x, g) ↦ absurd (ground arith)
      | inl (there, g) ↦
          elim (Bool-cases (same_projection (P.projected_local path o.ignore_paths) there)) [
            | inr differ ↦ ground arith
            | inl same ↦
                let (hash, a, b, c) =
                  same_projection-inv (P.projected_local path o.ignore_paths) there same in
                (
                  ground arith,
                  inr (
                      inr (
                        ground arith,
                        overridable-cases item.action h,
                        record {
                          here = l;
                          there = r;
                          path = path;
                          hash = hash;
                          is_local = refl;
                          is_remote = refl;
                          path_of = p;
                          hash_here = a;
                          hash_there = g ∙ ap (λ (y : Option String). ok y) b;
                          not_empty = c;
                        },
                      )),
                )
          ]
    ]
  ]

  override_item-Acknowledged :
      (item : SyncStateItem) (local remote : Option Entry) (o : LocalOverride) (out : SyncStateItem)
      → override_item P item local remote o ≡ ok out
      → SameVersions item out × Acknowledged P item local remote o out
  unfolding override_item
  override_item-Acknowledged item none remote o out e = ground arith
  override_item-Acknowledged item (some l) none o out e = ground arith
  override_item-Acknowledged item (some l) (some r) o out e =
      ground (arith, projected_item-Acknowledged item o l r out)

  -- A local override never changes the versions that a classification compared. It leaves the
  -- action, or acknowledges a local-only skill that the remote does not have, or acknowledges a
  -- `push`, `conflict` or `same_without_base` of a skill that both sides have, and whose files
  -- outside the ignored paths hash to the same non-empty text on both.
  pub classify_skill_with_override-Acknowledged :
      (k : String) (base local remote : Option Entry) (o : LocalOverride) (out : SyncStateItem)
      → classify_skill_with_override P k base local remote (some o) ≡ ok out
      → SameVersions (classify_skill k base local remote) out
        × Acknowledged P (classify_skill k base local remote) local remote o out
  unfolding classify_skill_with_override
  classify_skill_with_override-Acknowledged k base local remote o out e =
      override_item-Acknowledged (classify_skill k base local remote) local remote o out e
