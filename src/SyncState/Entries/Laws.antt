-- ===== src/SyncState/Entries/Laws.antt =====
-- `_unique_by_skill_id` gives one entry for each id, or names the duplicates.
use skill_sync_sidecar.Common.{
  String, Bool, true, false, ◌≡◌, refl, sym, ◌∙◌, ◌&&◌, not, Option, none, some,
}
use skill_sync_sidecar.Common.{
  List, [], ◌∷◌, ◌++◌, arith, is_some, Result, ok, err, truthy, is_empty, contains, ◌==◌, string_eq,
}
use skill_sync_sidecar.Common.{inl, inr, if◌then◌else◌, Option-cases, option_eq}
use skill_sync_sidecar.Common.Dict.{
  Dict, lookup, insert, lookup-insert, lookup-nil, NodupKeys, insert-NodupKeys,
}
use skill_sync_sidecar.Skill.{Entry}
use skill_sync_sidecar.SyncState.Entries.{unique_loop, no_duplicates, unique_by_skill_id}

-- The ids that the entries carry, in their order.
abbrev pub ids : List Entry → List String
ids [] = []
ids (e ∷ es) = let rest = ids es in elim (truthy e.skill_id) [ none ↦ rest | some k ↦ k ∷ rest ]

abbrev pub distinct : List String → Bool
distinct [] = true
distinct (k ∷ ks) = not (contains ks k) && distinct ks

-- The last entry with an id.
abbrev pub entry_of : String → List Entry → Option Entry
entry_of k [] = none
entry_of k (e ∷ es) = elim (entry_of k es) [
  | some f ↦ some f
  | none ↦ if truthy e.skill_id == some k then some e else none
]

abbrev or_else_entry : Option Entry → Option Entry → Option Entry
or_else_entry none e = e
or_else_entry (some f) e = some f

fresh : Dict String Entry → List String → Bool
fresh d [] = true
fresh d (k ∷ ks) = not (is_some (lookup k d)) && fresh d ks

fresh-insert :
    (k : String) (e : Entry) (d : Dict String Entry) (ks : List String)
    → fresh (insert k e d) ks ≡ (not (contains ks k) && fresh d ks)
unfolding fresh
fresh-insert k e d [] = refl
fresh-insert k e d (j ∷ ks) = ground (arith, fresh-insert k e d ks, lookup-insert j k e d)

fresh-nil : (ks : List String) → fresh [] ks ≡ true
unfolding fresh
fresh-nil [] = refl
fresh-nil (k ∷ ks) = ground (arith, fresh-nil ks, lookup-nil {K = String} {V = Entry} k)

is_empty-snoc : (xs : List String) (x : String) → is_empty (xs ++ (x ∷ [])) ≡ false
is_empty-snoc [] x = refl
is_empty-snoc (y ∷ xs) x = refl

is_empty-unique_loop :
    (es : List Entry) (d : Dict String Entry) (dups : List String)
    → is_empty (unique_loop es d dups).1
      ≡ (is_empty dups && (fresh d (ids es) && distinct (ids es)))
unfolding unique_loop fresh
is_empty-unique_loop [] d dups = ground arith
is_empty-unique_loop (e ∷ es) d dups = elim (Option-cases (truthy e.skill_id)) [
  | inl h ↦ ground (arith, is_empty-unique_loop es d dups)
  | inr (k, h) ↦ ground (
    arith,
    is_empty-unique_loop es (insert k e d)
        (if is_some (lookup k d) then dups ++ (k ∷ []) else dups),
    is_empty-snoc dups k,
    fresh-insert k e d (ids es),
  )
]

lookup-unique_loop :
    (k : String) (es : List Entry) (d : Dict String Entry) (dups : List String)
    → lookup k (unique_loop es d dups).0 ≡ or_else_entry (entry_of k es) (lookup k d)
unfolding unique_loop
lookup-unique_loop k [] d dups = refl
lookup-unique_loop k (e ∷ es) d dups = elim (Option-cases (truthy e.skill_id)) [
  | inl h ↦ ground (arith, lookup-unique_loop k es d dups)
  | inr (j, h) ↦ ground (
    arith,
    lookup-unique_loop k es (insert j e d)
        (if is_some (lookup j d) then dups ++ (j ∷ []) else dups),
    lookup-insert k j e d,
  )
]

NodupKeys-unique_loop :
    (es : List Entry) (d : Dict String Entry) (dups : List String)
    → NodupKeys d
    → NodupKeys (unique_loop es d dups).0
unfolding unique_loop
NodupKeys-unique_loop [] d dups u = u
NodupKeys-unique_loop (e ∷ es) d dups u = elim (Option-cases (truthy e.skill_id)) [
  | inl h ↦ rw (h, unique_loop, NodupKeys) (NodupKeys-unique_loop es d dups u)
  | inr (j, h) ↦
      rw (h, unique_loop, NodupKeys)
        (NodupKeys-unique_loop es (insert j e d) _ (insert-NodupKeys j e d u))
]

-- What `_unique_by_skill_id` returns: a dict whose entry for each id is the one that carries it,
-- or an error that names the duplicates.
abbrev pub IsUnique : List Entry → Result (Dict String Entry) → Type 0
IsUnique es (ok d) =
    (distinct (ids es) ≡ true) × NodupKeys d × ((k : String) → lookup k d ≡ entry_of k es)
IsUnique es (err e) = distinct (ids es) ≡ false

no_duplicates-IsUnique :
    (label : String) (es : List Entry) (r : Dict String Entry × List String)
    → is_empty r.1 ≡ distinct (ids es)
    → NodupKeys r.0
    → ((k : String) → lookup k r.0 ≡ entry_of k es)
    → IsUnique es (no_duplicates label r)
unfolding no_duplicates
no_duplicates-IsUnique label es (d, []) h u l = (sym h, u, l)
no_duplicates-IsUnique label es (d, x ∷ xs) h u l = sym h

or_else_entry-none : (o : Option Entry) → or_else_entry o none ≡ o
or_else_entry-none none = refl
or_else_entry-none (some e) = refl

-- `_unique_by_skill_id` succeeds exactly if no two entries carry one id, and then its dict holds
-- under each id the entry that carries it, and no other key.
pub unique_by_skill_id-IsUnique :
    (es : List Entry) (label : String) → IsUnique es (unique_by_skill_id es label)
unfolding unique_by_skill_id
unique_by_skill_id-IsUnique es label =
    no_duplicates-IsUnique label es (unique_loop es [] [])
      (is_empty-unique_loop es [] [] ∙ ground (arith, fresh-nil (ids es)))
      (NodupKeys-unique_loop es [] [] tt)
      (λ k. lookup-unique_loop k es [] [] ∙ rw lookup-nil (or_else_entry-none (entry_of k es)))
