-- ===== src/ApprovedPush/Approval.antt =====
-- What an approved item has been found to be.
use skill_sync_sidecar.Common.{String, ◌≡◌}
use skill_sync_sidecar.Common.{◌⊎◌, inl, inr, Bool, true, false}
use skill_sync_sidecar.Common.{Option, some, List, [], ◌∷◌, arith}
use skill_sync_sidecar.Common.{◌==◌, option_eq, string_eq, nat_eq, Bool-cases}
use skill_sync_sidecar.Common.{Option-cases, truthy, is_some}
use skill_sync_sidecar.Common.{ok}
use mathlib.Core.Path.{subst}
use skill_sync_sidecar.Common.{Result-cases, require-eq-ok}
use skill_sync_sidecar.Common.Dict.{Dict, lookup}
use skill_sync_sidecar.SyncPlan.{SyncPlanItem}
use skill_sync_sidecar.SyncApply.{is_push}
use skill_sync_sidecar.ApprovedPush.{
  ReportItem, ApprovedItem, approve, approved_item, approved_items, approve_unchanged, approved,
}
use skill_sync_sidecar.ApprovedPush.{is_approved_conflict_local_wins}

-- The approval of a skill: the report and the current plan show the same versions, and either the
-- plan would push it, and the report blocks it for its writer policy, or it is a conflict of two
-- versions and the operator lets the local one win.
pub record IsApproved (report_by_id : Dict String ReportItem) (plan : Dict String SyncPlanItem)
    (allow : Bool) (skill_id : String) (item : ApprovedItem) : Type 0 where
  pub report_item : ReportItem
  pub current : SyncPlanItem
  pub reported : lookup skill_id report_by_id ≡ some report_item
  pub planned : lookup skill_id plan ≡ some current
  pub id : item.skill_id ≡ skill_id
  pub base_hash : (item.base_hash ≡ current.base_hash) × (current.base_hash ≡ report_item.base_hash)
  pub local_hash :
      (item.local_hash ≡ current.local_hash) × (current.local_hash ≡ report_item.local_hash)
  pub remote_hash :
      (item.remote_hash ≡ current.remote_hash) × (current.remote_hash ≡ report_item.remote_hash)
  pub cause :
      ((report_item.category ≡ "writer_policy")
        × (is_push current.plan_action ≡ true)
        × (current.allowed ≡ true))
      ⊎ ((allow ≡ true)
          × (report_item.category ≡ "conflict")
          × (current.allowed ≡ false)
          × (is_some (truthy current.local_hash) ≡ true)
          × (is_some (truthy current.remote_hash) ≡ true))

abbrev pub AreApproved :
    Dict String ReportItem
    → Dict String SyncPlanItem
    → Bool
    → List String
    → List ApprovedItem
    → Type 0
AreApproved report_by_id plan allow [] [] = Unit {0}
AreApproved report_by_id plan allow (k ∷ ks) (item ∷ items) =
    IsApproved report_by_id plan allow k item × AreApproved report_by_id plan allow ks items
AreApproved report_by_id plan allow [] (item ∷ items) = ⊥
AreApproved report_by_id plan allow (k ∷ ks) [] = ⊥

-- What stands in an approval after the versions were compared.
abbrev HasCause : Bool → ReportItem → SyncPlanItem → Type 0
HasCause allow report_item current =
    ((report_item.category ≡ "writer_policy")
      × (is_push current.plan_action ≡ true)
      × (current.allowed ≡ true))
    ⊎ ((allow ≡ true)
        × (report_item.category ≡ "conflict")
        × (current.allowed ≡ false)
        × (is_some (truthy current.local_hash) ≡ true)
        × (is_some (truthy current.remote_hash) ≡ true))

is_approved_conflict_local_wins-cause :
    (report_item : ReportItem) (current : SyncPlanItem) (allow : Bool)
    → is_approved_conflict_local_wins report_item current allow ≡ true
    → HasCause allow report_item current
unfolding is_approved_conflict_local_wins
is_approved_conflict_local_wins-cause report_item current allow h = inr (ground arith)

record IsTaken (skill_id : String) (current : SyncPlanItem) (item : ApprovedItem) : Type 0 where
  id : item.skill_id ≡ skill_id
  base_hash : item.base_hash ≡ current.base_hash
  local_hash : item.local_hash ≡ current.local_hash
  remote_hash : item.remote_hash ≡ current.remote_hash

approve_unchanged-HasCause :
    (skill_id : String) (allow : Bool) (report_item : ReportItem) (current : SyncPlanItem)
    (item : ApprovedItem)
    → approve_unchanged skill_id allow report_item current ≡ ok item
    → HasCause allow report_item current
unfolding approve_unchanged
approve_unchanged-HasCause skill_id allow report_item current item h =
    elim (Bool-cases (is_approved_conflict_local_wins report_item current allow)) [
      | inl e ↦ is_approved_conflict_local_wins-cause report_item current allow e
      | inr e ↦ inl (ground arith)
    ]

approve_unchanged-IsTaken :
    (skill_id : String) (allow : Bool) (report_item : ReportItem) (current : SyncPlanItem)
    (item : ApprovedItem)
    → approve_unchanged skill_id allow report_item current ≡ ok item
    → IsTaken skill_id current item
unfolding approve_unchanged approved
approve_unchanged-IsTaken skill_id allow report_item current item h = record {
  id = ground arith;
  base_hash = ground arith;
  local_hash = ground arith;
  remote_hash = ground arith;
}

same_hash : (a b : Option String) → (a == b) ≡ true → a ≡ b
same_hash a b h = ground arith

approve-IsApproved :
    (report_by_id : Dict String ReportItem) (plan : Dict String SyncPlanItem) (allow : Bool)
    (skill_id : String) (r : ReportItem) (c : SyncPlanItem) (item : ApprovedItem)
    → lookup skill_id report_by_id ≡ some r
    → lookup skill_id plan ≡ some c
    → approve skill_id allow r c ≡ ok item
    → IsApproved report_by_id plan allow skill_id item
unfolding approve
approve-IsApproved report_by_id plan allow skill_id r c item e e' h =
    let (base, h1) = require-eq-ok (c.base_hash == r.base_hash) _ _ h in
    let (local, h2) = require-eq-ok (c.local_hash == r.local_hash) _ _ h1 in
    let (remote, h3) = require-eq-ok (c.remote_hash == r.remote_hash) _ _ h2 in
    let taken = approve_unchanged-IsTaken skill_id allow r c item h3 in
    record {
      report_item = r;
      current = c;
      reported = e;
      planned = e';
      id = taken.id;
      base_hash = (taken.base_hash, same_hash c.base_hash r.base_hash base);
      local_hash = (taken.local_hash, same_hash c.local_hash r.local_hash local);
      remote_hash = (taken.remote_hash, same_hash c.remote_hash r.remote_hash remote);
      cause = approve_unchanged-HasCause skill_id allow r c item h3;
    }

approved_item-IsApproved :
    (report_by_id : Dict String ReportItem) (plan : Dict String SyncPlanItem) (allow : Bool)
    (skill_id : String) (item : ApprovedItem)
    → approved_item report_by_id plan allow skill_id ≡ ok item
    → IsApproved report_by_id plan allow skill_id item
unfolding approved_item
approved_item-IsApproved report_by_id plan allow skill_id item h =
    elim (Option-cases (lookup skill_id report_by_id)) [
      | inl e ↦ absurd (ground arith)
      | inr (r, e) ↦ elim (Option-cases (lookup skill_id plan)) [
        | inl e' ↦ absurd (ground arith)
        | inr (c, e') ↦
            approve-IsApproved report_by_id plan allow skill_id r c item e e' (ground arith)
      ]
    ]

-- The approved items are those of the ids, in order. For each, report and current plan have the
-- same base, local and remote version; and either the report blocks the skill for its writer policy
-- and the current plan would push it, or the operator lets the local version win a conflict.
pub approved_items-AreApproved :
    (report_by_id : Dict String ReportItem) (plan : Dict String SyncPlanItem) (allow : Bool)
    (ids : List String) (items : List ApprovedItem)
    → approved_items report_by_id plan allow ids ≡ ok items
    → AreApproved report_by_id plan allow ids items
unfolding approved_items
approved_items-AreApproved report_by_id plan allow [] [] h = tt
approved_items-AreApproved report_by_id plan allow [] (item ∷ items) h = absurd (ground arith)
approved_items-AreApproved report_by_id plan allow (k ∷ ks) items h =
    elim (Result-cases (approved_item report_by_id plan allow k)) [
      | inr (e, g) ↦ absurd (ground arith)
      | inl (first, g) ↦ elim (Result-cases (approved_items report_by_id plan allow ks)) [
        | inr (e, g') ↦ absurd (ground arith)
        | inl (rest, g') ↦
            let same : first ∷ rest ≡ items = ground arith in
            subst (AreApproved report_by_id plan allow (k ∷ ks)) same (
              approved_item-IsApproved report_by_id plan allow k first g,
              approved_items-AreApproved report_by_id plan allow ks rest g',
            )
      ]
    ]
