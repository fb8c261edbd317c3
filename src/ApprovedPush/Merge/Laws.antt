-- ===== src/ApprovedPush/Merge/Laws.antt =====
-- What the merged index holds.
use skill_sync_sidecar.Common.{String, ◌≡◌, refl, sym}
use skill_sync_sidecar.Common.{◌∙◌, inl, inr, Bool, true, false, ◌||◌}
use skill_sync_sidecar.Common.{not, some, List, [], ◌∷◌, map, arith}
use skill_sync_sidecar.Common.{contains, option_eq, string_eq, nat_eq, Bool-cases}
use skill_sync_sidecar.Common.{Option-cases, length, select}
use skill_sync_sidecar.Common.{ok}
use mathlib.Core.Path.{subst}
use skill_sync_sidecar.Common.{Result-cases}
use skill_sync_sidecar.Common.Dict.{Dict, lookup, insert, lookup-insert}
use skill_sync_sidecar.Common.Sorted.{sorted_set, contains-sorted_set, contains-select}
use skill_sync_sidecar.Skill.{Entry, Index}
use skill_sync_sidecar.ApprovedPush.Merge.{id_text, archive_text, local_by_id, remote_ids, Merged}
use skill_sync_sidecar.ApprovedPush.Merge.{append_new, merge_skills, build_merged_snapshot}
use skill_sync_sidecar.ApprovedPush.Merge.{with_replacement, replacement}

-- The entries of a dict stand under their ids.
AreKeyed : Dict String Entry → Type 0
AreKeyed d = (k : String) (e : Entry) → lookup k d ≡ some e → id_text e ≡ k

local_by_id-AreKeyed :
    (d : Dict String Entry) (es : List Entry) → AreKeyed d → AreKeyed (local_by_id d es)
unfolding local_by_id AreKeyed
local_by_id-AreKeyed d [] keyed = keyed
local_by_id-AreKeyed d (e ∷ es) keyed =
    local_by_id-AreKeyed (insert (id_text e) e d) es
      (λ k f h. ground (arith, lookup-insert k (id_text e) e d, keyed k f))

nothing-AreKeyed : AreKeyed []
unfolding AreKeyed lookup
nothing-AreKeyed k e h = absurd (ground arith)

module _ (approved_ids : List String) (locals : Dict String Entry) where
  abbrev pub is_approved : Entry → Bool
  is_approved e = contains approved_ids (id_text e)

  -- An approved entry is the local one, and its archive is listed.
  abbrev pub AreLocal : List String → List Entry → Type 0
  AreLocal archives [] = Unit {0}
  AreLocal archives (e ∷ es) =
      (is_approved e ≡ true
        → (lookup (id_text e) locals ≡ some e) × (contains archives (archive_text e) ≡ true))
      × AreLocal archives es

  AreLocal-more :
      (a : String) (archives : List String) (es : List Entry)
      → AreLocal archives es
      → AreLocal (a ∷ archives) es
  AreLocal-more a archives [] h = tt
  AreLocal-more a archives (e ∷ es) (here, h) = (
    λ yes_. let (is_local, listed) = here yes_ in (is_local, ground (arith, listed)),
    AreLocal-more a archives es h,
  )

  -- The merged entries: those that were not approved are the remote's, in their order; approved ones
  -- are the local root's; and every id that is approved and known to the remote, or new, is there.
  pub record IsMerged (new_ids : List String) (es : List Entry) (m : Merged) : Type 0 where
    pub kept : select (λ e. not (is_approved e)) m.skills ≡ select (λ e. not (is_approved e)) es
    pub replaced : AreLocal m.archive_paths m.skills
    pub covered :
        (k : String)
        → (contains new_ids k || contains (map id_text (select is_approved es)) k) ≡ true
        → contains (map id_text m.skills) k ≡ true

  replacement-id :
      AreKeyed locals
      → (k : String) (e : Entry) → replacement locals k ≡ ok e
      → (lookup k locals ≡ some e) × (id_text e ≡ k)
  unfolding replacement AreKeyed
  replacement-id keyed k e h = elim (Option-cases (lookup k locals)) [
    | inl g ↦ absurd (ground arith)
    | inr (f, g) ↦ let same : lookup k locals ≡ some e = ground arith in (same, keyed k e same)
  ]

  IsMerged-replaced :
      (new_ids : List String) (es : List Entry) (e : Entry) (k : String) (m : Merged)
      → lookup k locals ≡ some e
      → id_text e ≡ k
      → contains approved_ids k ≡ true
      → IsMerged new_ids es m
      → IsMerged (k ∷ new_ids) es (with_replacement e m)
  unfolding with_replacement
  IsMerged-replaced new_ids es e k m found same yes_ merged = record {
    kept = ground (arith, merged.kept);
    replaced = (
      λ h. (subst (λ j. lookup j locals ≡ some e) (sym same) found, ground arith),
      AreLocal-more (archive_text e) m.archive_paths m.skills merged.replaced,
    );
    covered = λ j h. ground (arith, merged.covered j, same);
  }

  append_new-IsMerged :
      AreKeyed locals
      → (new_ids : List String) (m : Merged)
      → ((k : String) → contains new_ids k ≡ true → contains approved_ids k ≡ true)
      → append_new locals new_ids ≡ ok m
      → IsMerged new_ids [] m
  unfolding append_new
  append_new-IsMerged keyed [] m inside h =
      let same : (λ (x : Merged). x) (record { skills = []; archive_paths = [] }) ≡ m =
        ground arith in
      subst (IsMerged [] []) same (record { kept = refl; replaced = tt; covered = λ k g. g })
  append_new-IsMerged keyed (k ∷ ks) m inside h = elim (Result-cases (replacement locals k)) [
    | inr (e, g) ↦ absurd (ground arith)
    | inl (e, g) ↦ elim (Result-cases (append_new locals ks)) [
      | inr (e', g') ↦ absurd (ground arith)
      | inl (rest, g') ↦
          let (found, id) = replacement-id keyed k e g in
          let same : with_replacement e rest ≡ m = ground arith in
          subst (IsMerged (k ∷ ks) []) same (
            IsMerged-replaced ks [] e k rest found id (inside k (ground arith))
              (append_new-IsMerged keyed ks rest (λ j i. inside j (ground arith)) g'))
    ]
  ]

  IsMerged-kept :
      (new_ids : List String) (es : List Entry) (e : Entry) (m : Merged)
      → contains approved_ids (id_text e) ≡ false
      → IsMerged new_ids es m
      → IsMerged new_ids (e ∷ es) (record m { skills = e ∷ m.skills })
  IsMerged-kept new_ids es e m no_ merged = record {
    kept = ground (arith, merged.kept);
    replaced = (λ h. absurd (ground arith), merged.replaced);
    covered = λ j h. ground (arith, merged.covered j);
  }

  IsMerged-found :
      (new_ids : List String) (es : List Entry) (e f : Entry) (m : Merged)
      → contains approved_ids (id_text e) ≡ true
      → id_text f ≡ id_text e
      → IsMerged (id_text e ∷ new_ids) es m
      → IsMerged new_ids (e ∷ es) m
  IsMerged-found new_ids es e f m yes_ same merged = record {
    kept = ground (arith, merged.kept);
    replaced = merged.replaced;
    covered = λ j h. ground (arith, merged.covered j);
  }

  merge_skills-IsMerged :
      AreKeyed locals
      → (new_ids : List String)
      → ((k : String) → contains new_ids k ≡ true → contains approved_ids k ≡ true)
      → (es : List Entry) (m : Merged) → merge_skills approved_ids locals new_ids es ≡ ok m
      → IsMerged new_ids es m
  unfolding merge_skills
  merge_skills-IsMerged keyed new_ids inside [] m h = append_new-IsMerged keyed new_ids m inside h
  merge_skills-IsMerged keyed new_ids inside (e ∷ es) m h =
      elim (Result-cases (merge_skills approved_ids locals new_ids es)) [
        | inr (x, g) ↦ absurd (elim (Bool-cases (contains approved_ids (id_text e))) [
          | inr no_ ↦ ground arith
          | inl yes_ ↦ ground arith
        ])
        | inl (rest, g) ↦
            let merged = merge_skills-IsMerged keyed new_ids inside es rest g in
            elim (Bool-cases (contains approved_ids (id_text e))) [
              | inr no_ ↦
                  let same : (λ (x : Merged). x) (record rest { skills = e ∷ rest.skills }) ≡ m =
                    ground arith in
                  subst (IsMerged new_ids (e ∷ es)) same
                    (IsMerged-kept new_ids es e rest no_ merged)
              | inl yes_ ↦ elim (Result-cases (replacement locals (id_text e))) [
                | inr (x, g') ↦ absurd (ground arith)
                | inl (f, g') ↦
                    let (found, id) = replacement-id keyed (id_text e) f g' in
                    let same : with_replacement f rest ≡ m = ground arith in
                    subst (IsMerged new_ids (e ∷ es)) same (
                      IsMerged-found new_ids es e f (with_replacement f rest) yes_ id
                        (IsMerged-replaced new_ids es f (id_text e) rest found id yes_ merged))
              ]
            ]
      ]

  remote_ids-approved :
      (es : List Entry) (k : String)
      → contains (remote_ids es) k ≡ true
      → contains approved_ids k ≡ true
      → contains (map id_text (select is_approved es)) k ≡ true
  unfolding remote_ids
  remote_ids-approved [] k h yes_ = absurd (ground arith)
  remote_ids-approved (e ∷ es) k h yes_ = ground (arith, remote_ids-approved es k)

-- What the index that is pushed holds, of the local and the remote one.
pub record IsMergedIndex (approved_ids : List String) (local_index remote_index index : Index)
    (archives : List String) : Type 0 where
  pub kept :
      select (λ e. not (contains approved_ids (id_text e))) index.skills
      ≡ select (λ e. not (contains approved_ids (id_text e))) remote_index.skills
  pub replaced : AreLocal approved_ids (local_by_id [] local_index.skills) archives index.skills
  pub covered :
      (k : String) → contains approved_ids k ≡ true → contains (map id_text index.skills) k ≡ true
  pub total : index.total ≡ length index.skills

-- A merged index holds the remote's entries that were not approved, unchanged and in their order;
-- every other entry is that of the local root, with its archive listed for the upload; each approved
-- id has an entry; and the total is their number.
pub build_merged_snapshot-IsMergedIndex :
    (label now : String) (approved_ids : List String) (local_index remote_index index : Index)
    (archives : List String)
    → build_merged_snapshot label now approved_ids local_index remote_index ≡ ok (index, archives)
    → IsMergedIndex approved_ids local_index remote_index index archives
unfolding build_merged_snapshot
build_merged_snapshot-IsMergedIndex label now approved_ids local_index remote_index index archives
      h =
    let locals = local_by_id [] local_index.skills in
    let keyed = local_by_id-AreKeyed [] local_index.skills nothing-AreKeyed in
    let is_new = λ (k : String). not (contains (remote_ids remote_index.skills) k) in
    let new_ids = sorted_set (select is_new approved_ids) in
    let news = λ (k : String).
      contains-sorted_set k (select is_new approved_ids) ∙ contains-select is_new approved_ids k in
    elim (Result-cases (merge_skills approved_ids locals new_ids remote_index.skills)) [
      | inr (x, g) ↦ absurd (ground arith)
      | inl (m, g) ↦
          let merged =
            merge_skills-IsMerged approved_ids locals keyed new_ids (λ k i. ground (arith, news k))
              remote_index.skills m g in
          let skills : m.skills ≡ index.skills = ground arith in
          let paths : m.archive_paths ≡ archives = ground arith in
          record {
            kept =
                subst
                  (λ es.
                    select (λ e. not (contains approved_ids (id_text e))) es
                    ≡ select (λ e. not (contains approved_ids (id_text e))) remote_index.skills)
                  skills merged.kept;
            replaced =
                subst (λ ps. AreLocal approved_ids locals ps index.skills) paths
                  (subst (AreLocal approved_ids locals m.archive_paths) skills merged.replaced);
            covered = λ k yes_.
                subst (λ es. contains (map id_text es) k ≡ true) skills
                  (merged.covered k (
                    ground (
                      arith,
                      news k,
                      remote_ids-approved approved_ids locals remote_index.skills k,
                    )));
            total = ground (arith, skills);
          }
    ]
