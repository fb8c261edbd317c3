-- ===== src/BaseAdoption/Laws.antt =====
-- After an adoption nothing is left to do.
use skill_sync_sidecar.Common.{◌+◌, ◌≡◌, refl, sym}
use skill_sync_sidecar.Common.{◌∙◌, ap, ◌⊎◌, inl, inr, true}
use skill_sync_sidecar.Common.{none, some, List, [], ◌∷◌, arith}
use skill_sync_sidecar.Common.{option_eq, string_eq, nat_eq, Bool-cases}
use skill_sync_sidecar.Common.{Option-cases, length}
use skill_sync_sidecar.Common.{is_empty, Error, Result, ok, err}
use skill_sync_sidecar.Common.{Result-cases, base_adoption_error}
use mathlib.Core.Path.{subst}
use skill_sync_sidecar.SyncState.{SyncStateItem, classify_hashes, unchanged}
use skill_sync_sidecar.SyncState.Overrides.{Projections}
use skill_sync_sidecar.SyncState.Status.{Inputs, Status, build_sync_status}
use skill_sync_sidecar.BaseAdoption.{BaseEntry, adopt, adopt_all, AdoptionPreview, preview_of}
use skill_sync_sidecar.BaseAdoption.{build_base_adoption_preview, execute_base_adoption}

-- The new base of an item.
abbrev pub HasBase : SyncStateItem → BaseEntry → Type 0
HasBase item (k, h) =
    (k ≡ item.skill_id)
    × (item.local_hash ≡ some h)
    × (item.remote_hash ≡ some h)
    × ((classify_hashes (some h) item.local_hash item.remote_hash).0 ≡ unchanged)

-- Each item has its entry, in order.
abbrev pub Covers : List SyncStateItem → List BaseEntry → Type 0
Covers [] [] = Unit
Covers (item ∷ items) (entry ∷ entries) = HasBase item entry × Covers items entries
Covers _ _ = ⊥

adopt-HasBase :
    (item : SyncStateItem) (entry : BaseEntry) → adopt item ≡ some entry → HasBase item entry
unfolding adopt classify_hashes option_eq
adopt-HasBase item (k, h) e = elim (Option-cases item.local_hash) [
  | inl n ↦ absurd (ground arith)
  | inr (l, there) ↦ ground arith
]

adopt_all-some :
    (item : SyncStateItem) (items : List SyncStateItem) (entry : BaseEntry)
    → adopt item ≡ some entry
    → adopt_all (item ∷ items) ≡ ((adopt_all items).0, entry ∷ (adopt_all items).1)
unfolding adopt_all
adopt_all-some item items entry e = ground arith

adopt_all-none :
    (item : SyncStateItem) (items : List SyncStateItem)
    → adopt item ≡ none
    → adopt_all (item ∷ items) ≡ (item ∷ (adopt_all items).0, (adopt_all items).1)
unfolding adopt_all
adopt_all-none item items e = ground arith

adopt_all-nil : adopt_all [] ≡ ([], [])
unfolding adopt_all
adopt_all-nil = refl

adopt_all-Covers :
    (items : List SyncStateItem) (blocked : List SyncStateItem) (applied : List BaseEntry)
    → adopt_all items ≡ (blocked, applied)
    → is_empty blocked ≡ true
    → Covers items applied
adopt_all-Covers [] blocked [] e h = tt
adopt_all-Covers [] blocked (x ∷ xs) e h = absurd (ground (arith, adopt_all-nil))
adopt_all-Covers (item ∷ items) blocked [] e h = elim (Option-cases (adopt item)) [
  | inl n ↦ absurd (ground (arith, adopt_all-none item items n))
  | inr (entry, n) ↦ absurd (ground (arith, adopt_all-some item items entry n))
]
adopt_all-Covers (item ∷ items) blocked (x ∷ xs) e h = elim (Option-cases (adopt item)) [
  | inl n ↦ absurd (ground (arith, adopt_all-none item items n))
  | inr (entry, n) ↦
      let step = adopt_all-some item items entry n in
      let same : entry ≡ x = ground arith in
      let none_blocked : is_empty (adopt_all items).0 ≡ true = ground arith in
      let rest : (adopt_all items).1 ≡ xs = ground arith in
      (
        subst (HasBase item) same (adopt-HasBase item entry n),
        adopt_all-Covers items (adopt_all items).0 xs (ap (λ y. ((adopt_all items).0, y)) rest)
            none_blocked,
      )
]

length-adopt_all :
    (items : List SyncStateItem)
    → length (adopt_all items).1 + length (adopt_all items).0 ≡ length items
length-adopt_all [] = ground (arith, adopt_all-nil)
length-adopt_all (item ∷ items) = elim (Option-cases (adopt item)) [
  | inl e ↦ ground (arith, adopt_all-none item items e, length-adopt_all items)
  | inr (entry, e) ↦ ground (arith, adopt_all-some item items entry e, length-adopt_all items)
]

is_empty-length : {A : Type 0} (xs : List A) → is_empty xs ≡ true → length xs ≡ 0
is_empty-length [] h = refl
is_empty-length (x ∷ xs) h = cc

-- An adoption that raises leaves the record. One that returns writes one entry for each skill of
-- the status, in order, with the version that local and remote both have; with that base each of
-- them is unchanged.
pub execute_base_adoption-Covers :
    (P : Projections) (i : Inputs) (old new : List BaseEntry) (r : Result AdoptionPreview)
    → execute_base_adoption P i old ≡ (r, new)
    → ((e : Error) × (r ≡ err e) × (new ≡ old))
      ⊎ ((st : Status) × (build_sync_status P i ≡ ok st)
          × (r ≡ ok (preview_of st))
          × (length new ≡ length st.items)
          × Covers st.items new)
unfolding execute_base_adoption build_base_adoption_preview preview_of
execute_base_adoption-Covers P i old new r h = elim (Result-cases (build_sync_status P i)) [
  | inr (e, g) ↦ inl (e, ground arith, ground arith)
  | inl (st, g) ↦ elim (Bool-cases (is_empty (adopt_all st.items).0)) [
    | inr h1 ↦
        inl (base_adoption_error "base adoption has blocked item(s)", ground arith, ground arith)
    | inl h1 ↦ elim (Option-cases i.index) [
      | inl h2 ↦
          inl (base_adoption_error "remote snapshot has no index.json", ground arith, ground arith)
      | inr (index, h2) ↦
          let out : (adopt_all st.items).1 ≡ new = ground arith in
          inr (
            st,
            g,
            ground arith,
            ap length (sym out)
                ∙ omega
                    (arith, length-adopt_all st.items, is_empty-length (adopt_all st.items).0 h1),
            adopt_all-Covers st.items (adopt_all st.items).0 new
                (ap (λ y. ((adopt_all st.items).0, y)) out) h1,
          )
    ]
  ]
]
