-- ===== src/SyncPlan/Counts.antt =====
-- The counts of a plan, and when it is safe to apply.
use skill_sync_sidecar.Common.{◌+◌, String, ◌≡◌, refl}
use skill_sync_sidecar.Common.{◌∙◌, ◌↔◌, Bool, true}
use skill_sync_sidecar.Common.{not, List, [], ◌∷◌, map, arith}
use skill_sync_sidecar.Common.{◌==◌, option_eq, string_eq, nat_eq}
use skill_sync_sidecar.Common.{length, select, count_if}
use skill_sync_sidecar.Common.{is_empty, All, ok}
use skill_sync_sidecar.Common.{>>=-eq-ok}
use skill_sync_sidecar.Common.{count_if-map, count_if-complement, length-select, length-map}
use skill_sync_sidecar.Common.Dict.{lookup}
use skill_sync_sidecar.Common.Tally.{or_zero, lookup-tally}
use skill_sync_sidecar.SyncState.{SyncStateItem}
use skill_sync_sidecar.SyncState.Status.{Status}
use skill_sync_sidecar.SyncPlan.{SyncPlanItem, plan_items, plan_of, SyncPlan, build_sync_plan}
use skill_sync_sidecar.SyncPlan.{
  read_policy, plan_action_name, WriterPolicy, apply_writer_policy, plan_item, planned,
}

-- What the numbers of a plan say of its items.
pub record Tallies (st : Status) (plan : SyncPlan) : Type 0 where
  pub skill_ids : map (λ item. item.skill_id) plan.items ≡ map (λ item. item.skill_id) st.items
  pub statuses : map (λ item. item.status_action) plan.items ≡ map (λ item. item.action) st.items
  pub total : plan.total ≡ length st.items
  pub allowed : plan.allowed ≡ count_if (λ item. item.allowed) plan.items
  pub split : plan.allowed + plan.blocked ≡ plan.total
  pub blocked : plan.blocked ≡ count_if (λ item. not item.allowed) plan.items
  pub summary :
      (a : String)
      → or_zero (lookup a plan.summary)
        ≡ count_if (λ item. a == plan_action_name item.plan_action) plan.items
  pub safe_iff : (plan.safe_to_apply ≡ true) ↔ All (λ item. item.allowed ≡ true) plan.items
  pub safe_blocked : (plan.safe_to_apply ≡ true) ↔ (plan.blocked ≡ 0)

is_empty-select :
    (items : List SyncPlanItem)
    → (is_empty (select (λ item. not item.allowed) items) ≡ true)
      ↔ All (λ item. item.allowed ≡ true) items
is_empty-select [] = (λ _. tt, λ _. refl)
is_empty-select (x ∷ xs) = ground (arith, is_empty-select xs)

is_empty-length : {A : Type 0} (xs : List A) → (is_empty xs ≡ true) ↔ (length xs ≡ 0)
is_empty-length [] = (λ _. refl, λ _. refl)
is_empty-length (x ∷ xs) = (λ h. cc, λ h. absurd (omega arith))

length-plan_items :
    (new delete : Bool) (policy : WriterPolicy) (items : List SyncStateItem)
    → length (plan_items new delete policy items) ≡ length items
unfolding plan_items
length-plan_items new delete policy items = length-map _ (map _ items) ∙ length-map _ items

plan_item-same :
    (new delete : Bool) (policy : WriterPolicy) (item : SyncStateItem)
    → ((apply_writer_policy policy (plan_item new delete item)).skill_id ≡ item.skill_id)
      × ((apply_writer_policy policy (plan_item new delete item)).status_action ≡ item.action)
unfolding apply_writer_policy plan_item planned
plan_item-same new delete policy item = (ground arith, ground arith)

-- The items of a plan are those of its status, in order.
plan_items-same :
    (new delete : Bool) (policy : WriterPolicy) (items : List SyncStateItem)
    → (map (λ item. item.skill_id) (plan_items new delete policy items)
        ≡ map (λ item. item.skill_id) items)
      × (map (λ item. item.status_action) (plan_items new delete policy items)
          ≡ map (λ item. item.action) items)
unfolding plan_items
plan_items-same new delete policy [] = (refl, refl)
plan_items-same new delete policy (item ∷ items) =
    let here = plan_item-same new delete policy item in
    let rest = plan_items-same new delete policy items in
    (ground (arith, here.0, rest.0), ground (arith, here.1, rest.1))

plan_of-Tallies :
    (new delete : Bool) (policy : WriterPolicy) (st : Status)
    → Tallies st (plan_of policy (plan_items new delete policy st.items))
unfolding plan_of
plan_of-Tallies new delete policy st =
    let items = plan_items new delete policy st.items in
    let refused = length-select (λ item. not item.allowed) items in
    record {
      skill_ids = (plan_items-same new delete policy st.items).0;
      statuses = (plan_items-same new delete policy st.items).1;
      total = length-plan_items new delete policy st.items;
      allowed = refl;
      split = rw refused (count_if-complement (λ item. item.allowed) items);
      blocked = refused;
      summary = λ a.
          lookup-tally _ a
          ∙ count_if-map (λ item. plan_action_name item.plan_action) (λ x. a == x) items;
      safe_iff = is_empty-select items;
      safe_blocked = is_empty-length (select (λ item. not item.allowed) items);
    }

-- A plan has one item for each item of its status, in the same order, with its skill id and its
-- status action; allowed and blocked items make up the total;
-- the summary counts the planned actions; and it is safe to apply exactly if every item is
-- allowed, which is when the number of blocked items is 0.
pub build_sync_plan-Tallies :
    (new delete : Bool) (writer_policy : String) (st : Status) (plan : SyncPlan)
    → build_sync_plan new delete writer_policy st ≡ ok plan
    → Tallies st plan
unfolding build_sync_plan
build_sync_plan-Tallies new delete writer_policy st plan h =
    let (policy, e, h') = >>=-eq-ok (read_policy writer_policy) _ h in
    let same : plan ≡ plan_of policy (plan_items new delete policy st.items) = cc in
    rw same (plan_of-Tallies new delete policy st)
