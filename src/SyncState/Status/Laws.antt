-- ===== src/SyncState/Status/Laws.antt =====
-- `build_sync_status` has one item for each skill that some side knows, and counts them.
use skill_sync_sidecar.Common.{String, ◌≡◌, refl}
use skill_sync_sidecar.Common.{◌∙◌, ◌↔◌, Bool, false, ◌||◌}
use skill_sync_sidecar.Common.{Option, none, some, List, [], ◌∷◌, ◌++◌, map, arith}
use skill_sync_sidecar.Common.{◌==◌, contains, option_eq, string_eq, nat_eq}
use skill_sync_sidecar.Common.{is_some, length, count_if}
use skill_sync_sidecar.Common.{any_of, All, ok}
use skill_sync_sidecar.Common.{>>=-eq-ok, count_if-map, any_of-count}
use skill_sync_sidecar.Common.Dict.{keys, lookup, contains-keys}
use skill_sync_sidecar.Common.Sorted.{
  sorted_set, contains-sorted_set, NodupTexts, sorted_set-NodupTexts,
}
use skill_sync_sidecar.Common.Tally.{or_zero, tally, lookup-tally}
use skill_sync_sidecar.Skill.{Entry}
use skill_sync_sidecar.SyncState.{SyncStateItem, LocalOverride, classify_skill}
use skill_sync_sidecar.SyncState.Overrides.{Projections, classify_skill_with_override}
use skill_sync_sidecar.SyncState.Overrides.Laws.{classify_skill_with_override-Acknowledged}
use skill_sync_sidecar.SyncState.Status.{
  Inputs, Sides, Status, read_sides, all_ids, item_of, items_of,
}
use skill_sync_sidecar.SyncState.Status.{build_sync_status, action_name, is_conflict}

contains-append :
    (xs ys : List String) (k : String) → contains (xs ++ ys) k ≡ (contains xs k || contains ys k)
contains-append [] ys k = refl
contains-append (x ∷ xs) ys k = ground (arith, contains-append xs ys k)

-- Some side knows the skill.
abbrev pub is_known : Sides → String → Bool
is_known s k =
    is_some (lookup k s.base) || (is_some (lookup k s.local) || is_some (lookup k s.remote))

contains-all_ids : (s : Sides) (k : String) → contains (all_ids s) k ≡ is_known s k
unfolding all_ids
contains-all_ids s k =
    rw (contains-sorted_set, contains-append, contains-append)
      (rw (contains-keys s.base k, contains-keys s.local k, contains-keys s.remote k) refl)

module _ (P : Projections) where
  skill_id-classified :
      (k : String) (b l r : Option Entry) (o : Option LocalOverride) (item : SyncStateItem)
      → classify_skill_with_override P k b l r o ≡ ok item
      → item.skill_id ≡ k
  unfolding classify_skill_with_override classify_skill
  skill_id-classified k b l r none item h = ground arith
  skill_id-classified k b l r (some o) item h =
      (classify_skill_with_override-Acknowledged P k b l r o item h).0.skill_id

  skill_id-item_of :
      (s : Sides) (k : String) (item : SyncStateItem) → item_of P s k ≡ ok item → item.skill_id ≡ k
  unfolding item_of
  skill_id-item_of s k item h =
      skill_id-classified k (lookup k s.base) (lookup k s.local) (lookup k s.remote)
        (lookup k s.overrides) item h

  -- The item is the classification of its skill.
  abbrev pub Classified : Sides → SyncStateItem → Type 0
  Classified s item = item_of P s item.skill_id ≡ ok item

  items_of-ids :
      (s : Sides) (ks : List String) (items : List SyncStateItem)
      → items_of P s ks ≡ ok items
      → (map (λ item. item.skill_id) items ≡ ks) × All (Classified s) items
  unfolding items_of
  items_of-ids s [] [] h = (refl, tt)
  items_of-ids s [] (x ∷ xs) h = cc
  items_of-ids s (k ∷ ks) items h =
      let (item, e, h') = >>=-eq-ok (item_of P s k) _ h in
      let (rest, e', h'') = >>=-eq-ok (items_of P s ks) _ h' in
      let same : items ≡ item ∷ rest = cc in
      let named : item.skill_id ≡ k = skill_id-item_of s k item e in
      let (ids, each) = items_of-ids s ks rest e' in rw same (cc, (rw named e, each))

  build_sync_status-inv :
      (i : Inputs) (s : Sides) (st : Status)
      → read_sides i ≡ ok s
      → build_sync_status P i ≡ ok st
      → (items : List SyncStateItem) × (items_of P s (all_ids s) ≡ ok items)
        × (st ≡ record {
          total = length items;
          summary = tally (map (λ item. action_name item.action) items);
          has_conflicts = any_of (λ item. is_conflict item.action) items;
          local_overrides = sorted_set (keys s.overrides);
          items = items;
        })
  unfolding build_sync_status
  build_sync_status-inv i s st hs h =
      let (s', es, h') = >>=-eq-ok (read_sides i) _ h in
      let same : s' ≡ s = cc in
      let (items, e, h'') = >>=-eq-ok (items_of P s' (all_ids s')) _ h' in (items, cc, cc)

-- What a status says of the sides that it compared.
pub record Describes (P : Projections) (s : Sides) (st : Status) : Type 0 where
  -- one item for each skill that some side knows, and no other
  pub covers : (k : String) → contains (map (λ item. item.skill_id) st.items) k ≡ is_known s k
  pub once : NodupTexts (map (λ item. item.skill_id) st.items)
  pub classified : All (λ item. item_of P s item.skill_id ≡ ok item) st.items
  pub total : st.total ≡ length st.items
  pub summary :
      (a : String)
      → or_zero (lookup a st.summary) ≡ count_if (λ item. a == action_name item.action) st.items
  pub has_conflicts :
      (st.has_conflicts ≡ false) ↔ (count_if (λ item. is_conflict item.action) st.items ≡ 0)

-- A status that `build_sync_status` returns has exactly one item for each skill that the base, the
-- local root or the remote snapshot knows, each item is the classification of its skill, and the
-- total, the summary and the conflict flag count those items.
pub build_sync_status-Describes :
    (P : Projections) (i : Inputs) (s : Sides) (st : Status)
    → read_sides i ≡ ok s
    → build_sync_status P i ≡ ok st
    → Describes P s st
build_sync_status-Describes P i s st hs h =
    let (items, e, same) = build_sync_status-inv P i s st hs h in
    let (ids, each) = items_of-ids P s (all_ids s) items e in
    rw same (record {
      covers = λ k. rw ids (contains-all_ids s k);
      once = rw ids (unfold all_ids in sorted_set-NodupTexts _);
      classified = each;
      total = refl;
      summary = λ a.
          lookup-tally _ a ∙ count_if-map (λ item. action_name item.action) (λ x. a == x) items;
      has_conflicts = any_of-count (λ item. is_conflict item.action) items;
    })
