-- ===== src/CentralLifecycle/Index.antt =====
-- What changing the state of an entry does to it, and to the devices that see it.
use skill_sync_sidecar.Common.{String, ◌≡◌, refl}
use skill_sync_sidecar.Common.{◌∙◌, ap, inl, inr, true, false, ◌&&◌}
use skill_sync_sidecar.Common.{not, Option, some, List, arith}
use skill_sync_sidecar.Common.{◌==◌, contains, option_eq, string_eq, nat_eq, Bool-cases}
use skill_sync_sidecar.Common.{or_else_text}
use skill_sync_sidecar.Skill.{Entry, Lifecycle, lifecycle_state}
use skill_sync_sidecar.SyncState.{central_deprecated, classify_skill, is_deprecated}
use skill_sync_sidecar.CentralLifecycle.{Change, is_chosen, Operation, deprecate, reactivate}
use skill_sync_sidecar.CentralLifecycle.{deprecate_entry, reactivate_entry, is_changed}

-- The entry that an operation makes of one.
unfoldable pub changed_entry : Operation → Change → List String → Entry → Entry
changed_entry deprecate c ids e = deprecate_entry c ids e
changed_entry reactivate c ids e = reactivate_entry c ids e

-- What an operation changes of an entry: nothing but its lifecycle.
pub record IsChanged (op : Operation) (c : Change) (ids : List String) (e e' : Entry) : Type 0 where
  pub only_lifecycle : e' ≡ record e { lifecycle = e'.lifecycle }
  pub other : is_chosen ids e ≡ false → e' ≡ e
  pub chosen : is_chosen ids e ≡ true → is_changed op (lifecycle_state e') ≡ false
  pub already : is_changed op (lifecycle_state e) ≡ false → e' ≡ e
  pub again : changed_entry op c ids e' ≡ e'

lifecycle_state-deprecated :
    (e : Entry) (l : Lifecycle)
    → l.state ≡ some "deprecated"
    → lifecycle_state (record e { lifecycle = some l }) ≡ "deprecated"
unfolding lifecycle_state string_eq
lifecycle_state-deprecated e l h = rw h refl

lifecycle_state-published :
    (e : Entry) (l : Lifecycle)
    → l.state ≡ some "published"
    → lifecycle_state (record e { lifecycle = some l }) ≡ "published"
unfolding lifecycle_state string_eq
lifecycle_state-published e l h = rw h refl

-- An entry that is passed over, and one that is changed.
deprecate-passed :
    (c : Change) (ids : List String) (e : Entry)
    → (is_chosen ids e && not (lifecycle_state e == "deprecated")) ≡ false
    → deprecate_entry c ids e ≡ e
unfolding deprecate_entry
deprecate-passed c ids e h = rw h refl

deprecate-done :
    (c : Change) (ids : List String) (e : Entry)
    → is_chosen ids e ≡ true
    → lifecycle_state (deprecate_entry c ids e) ≡ "deprecated"
unfolding deprecate_entry
deprecate-done c ids e chosen = elim (Bool-cases (lifecycle_state e == "deprecated")) [
  | inl h ↦ rw (chosen, h) (ground arith)
  | inr h ↦ rw (chosen, h) (lifecycle_state-deprecated e _ refl)
]

reactivate-passed :
    (c : Change) (ids : List String) (e : Entry)
    → (is_chosen ids e && lifecycle_state e == "deprecated") ≡ false
    → reactivate_entry c ids e ≡ e
unfolding reactivate_entry
reactivate-passed c ids e h = rw h refl

-- The entry is the old one but for its lifecycle.
deprecate-only_lifecycle :
    (c : Change) (ids : List String) (e : Entry)
    → deprecate_entry c ids e ≡ record e { lifecycle = (deprecate_entry c ids e).lifecycle }
unfolding deprecate_entry
deprecate-only_lifecycle c ids e =
    elim (Bool-cases (is_chosen ids e && not (lifecycle_state e == "deprecated"))) [
      | inl h ↦ rw h refl
      | inr h ↦ rw h refl
    ]

reactivate-only_lifecycle :
    (c : Change) (ids : List String) (e : Entry)
    → reactivate_entry c ids e ≡ record e { lifecycle = (reactivate_entry c ids e).lifecycle }
unfolding reactivate_entry
reactivate-only_lifecycle c ids e =
    elim (Bool-cases (is_chosen ids e && lifecycle_state e == "deprecated")) [
      | inl h ↦ rw h refl
      | inr h ↦ rw h refl
    ]

differ : ◌==◌ {A = String} "published" "deprecated" ≡ false
unfolding string_eq
differ = refl

reactivate-done :
    (c : Change) (ids : List String) (e : Entry)
    → is_chosen ids e ≡ true
    → (lifecycle_state (reactivate_entry c ids e) == "deprecated") ≡ false
unfolding reactivate_entry
reactivate-done c ids e chosen = elim (Bool-cases (lifecycle_state e == "deprecated")) [
  | inl h ↦
      rw (chosen, h) (ap (λ x. x == "deprecated") (lifecycle_state-published e _ refl) ∙ differ)
  | inr h ↦ rw (chosen, h) h
]

chosen_same :
    (ids : List String) (e e' : Entry)
    → e'.skill_id ≡ e.skill_id
    → is_chosen ids e' ≡ is_chosen ids e
unfolding is_chosen
chosen_same ids e e' h = ap (λ k. contains ids (or_else_text k "None")) h

same_deprecated : ◌==◌ {A = String} "deprecated" "deprecated" ≡ true
same_deprecated = ground arith

-- Deprecating or reactivating skills changes only the lifecycle of the chosen entries that are not
-- in the wanted state yet; afterwards every chosen entry is, and doing it again changes nothing.
pub changed_entry-IsChanged :
    (op : Operation) (c : Change) (ids : List String) (e : Entry)
    → IsChanged op c ids e (changed_entry op c ids e)
unfolding changed_entry is_changed
changed_entry-IsChanged deprecate c ids e =
    let e' = deprecate_entry c ids e in
    let same_id : e'.skill_id ≡ e.skill_id = unfold deprecate_entry in ground arith in
    let same = chosen_same ids e e' same_id in
    let finished = deprecate-done c ids e in
    record {
      only_lifecycle = deprecate-only_lifecycle c ids e;
      other = λ not_chosen. deprecate-passed c ids e (ground arith);
      chosen = λ is_one. ground (arith, finished is_one);
      already = λ nothing_to_do. deprecate-passed c ids e (ground arith);
      again = deprecate-passed c ids e' (elim (Bool-cases (is_chosen ids e)) [
        | inl y ↦ ground (arith, finished y)
        | inr n ↦ ground arith
      ]);
    }
changed_entry-IsChanged reactivate c ids e =
    let e' = reactivate_entry c ids e in
    let same_id : e'.skill_id ≡ e.skill_id = unfold reactivate_entry in ground arith in
    let same = chosen_same ids e e' same_id in
    let finished = reactivate-done c ids e in
    record {
      only_lifecycle = reactivate-only_lifecycle c ids e;
      other = λ not_chosen. reactivate-passed c ids e (ground arith);
      chosen = finished;
      already = λ nothing_to_do. reactivate-passed c ids e (ground arith);
      again = reactivate-passed c ids e' (elim (Bool-cases (is_chosen ids e)) [
        | inl y ↦ ground (arith, finished y)
        | inr n ↦ ground arith
      ]);
    }

-- A device that has any version of a skill, or none, leaves it alone once it is deprecated.
pub classify_skill-deprecate_entry :
    (c : Change) (ids : List String) (k : String) (base local : Option Entry) (e : Entry)
    → is_chosen ids e ≡ true
    → (classify_skill k base local (some (deprecate_entry c ids e))).action ≡ central_deprecated
unfolding classify_skill is_deprecated
classify_skill-deprecate_entry c ids k base local e chosen =
    rw (deprecate-done c ids e chosen) (rw same_deprecated refl)
