-- ===== src/Fanout/Plan/Composes.antt =====
-- A tool's plan, its execution and its rollback together.
use skill_sync_sidecar.Common.{String, ◌≡◌, refl, sym}
use skill_sync_sidecar.Common.{◌⊎◌, inl, inr, Bool, true, false, ◌||◌}
use skill_sync_sidecar.Common.{Option, none, some, List, [], ◌∷◌, map, arith}
use skill_sync_sidecar.Common.{contains, option_eq, string_eq, nat_eq, Bool-cases}
use skill_sync_sidecar.Common.{Option-cases}
use skill_sync_sidecar.Common.{All}
use skill_sync_sidecar.Common.Text.{starts_with}
use mathlib.Core.Path.{subst}
use skill_sync_sidecar.Common.Sorted.{NodupTexts}
use skill_sync_sidecar.Common.Dict.{Dict}
use skill_sync_sidecar.Fanout.{Entry, Disk}
use skill_sync_sidecar.Fanout.Items.{FanoutTool, FanoutSkill, FanoutItem, is_noop}
use skill_sync_sidecar.Fanout.Plan.{plan_entry, removal, removals, place_skills}
use skill_sync_sidecar.Fanout.Plan.{plan_items}
use skill_sync_sidecar.Fanout.Plan.Fits.{IsSource, HasLinkTexts, plan_entry-IsFit, removal-IsFit}
use skill_sync_sidecar.Fanout.Execute.{Place, Luck, execute_items}
use skill_sync_sidecar.Fanout.Execute.Item.{IsSafe, IsFit}
use skill_sync_sidecar.Fanout.Execute.Runs.{names, AreFit, rollback_tool-execute_items}
use skill_sync_sidecar.Fanout.Rollback.{rollback_tool}
use skill_sync_sidecar.Fanout.Execute.Names.{
  IsVisible, not_among_temps, distinct-IsApart, NodupTexts-append,
}
use skill_sync_sidecar.Fanout.Execute.Names.{All-append, AreFit-append, names-append}

module _ (D : Disk) (canonical : String) (roots : List String) (tool : FanoutTool)
    (given : String) where
  -- What is asked of the skills of the canonical root.
  pub record IsGoodSkill (skill : FanoutSkill) : Type 0 where
    pub source : IsSource D canonical skill
    pub visible : IsVisible skill.name

  abbrev skill_names : List FanoutSkill → List String
  skill_names skills = map (λ s. s.name) skills

  module _ (ledger : Dict String String) (p : Place) where
    abbrev placed : List FanoutSkill → List FanoutItem
    placed skills = (place_skills D canonical roots tool ledger p.entries skills).0

    abbrev removed : List String → List String → List FanoutItem
    removed wanted ns = removals D canonical roots tool given ledger p.entries wanted ns

    plan_entry-name :
        (skill : FanoutSkill) (entry : Option Entry)
        → (plan_entry D canonical roots tool ledger skill entry).name ≡ skill.name
    unfolding plan_entry
    plan_entry-name skill none = refl
    plan_entry-name skill (some e) = ground arith

    placed-cases :
        (skill : FanoutSkill) (skills : List FanoutSkill)
        → (placed (skill ∷ skills) ≡ placed skills)
          ⊎ (placed (skill ∷ skills)
              ≡ plan_entry D canonical roots tool ledger skill (p.entries skill.name)
                ∷ placed skills)
    unfolding place_skills
    placed-cases skill skills = ground arith

    removed-cases :
        (wanted : List String) (n : String) (ns : List String)
        → (removed wanted (n ∷ ns) ≡ removed wanted ns)
          ⊎ ((item : FanoutItem) × (removal D canonical roots tool given ledger n (p.entries n)
                ≡ some item)
              × (contains wanted n ≡ false)
              × IsVisible n
              × (removed wanted (n ∷ ns) ≡ item ∷ removed wanted ns))
    unfolding removals
    removed-cases wanted n ns =
        elim (Option-cases (removal D canonical roots tool given ledger n (p.entries n))) [
          | inl e ↦ inl (ground arith)
          | inr (item, e) ↦ elim (Bool-cases (starts_with "." n || contains wanted n)) [
            | inl hidden ↦ inl (ground arith)
            | inr seen ↦ inr (item, e, ground arith, ground arith, ground arith)
          ]
        ]

    -- Items that are as planned, with visible and different names out of `ns`.
    record IsSound (ns : List String) (items : List FanoutItem) : Type 0 where
      fits : AreFit D canonical p items
      distinct : NodupTexts (names items)
      visible : All (λ item. IsVisible item.name) items
      among : (a : String) → contains (names items) a ≡ true → contains ns a ≡ true

    IsSound-skip :
        (n : String) (ns : List String) (items : List FanoutItem)
        → IsSound ns items
        → IsSound (n ∷ ns) items
    IsSound-skip n ns items s = record {
      fits = s.fits;
      distinct = s.distinct;
      visible = s.visible;
      among = λ a m. ground (arith, s.among a);
    }

    IsSound-add :
        (ns : List String) (item : FanoutItem) (items : List FanoutItem)
        → (is_noop item.action ≡ false → IsFit D canonical item (p.entries item.name))
        → p.backups item.name ≡ none
        → IsVisible item.name
        → contains ns item.name ≡ false
        → IsSound ns items
        → IsSound (item.name ∷ ns) (item ∷ items)
    IsSound-add ns item items fit fresh seen new s = record {
      fits = (fit, fresh, s.fits);
      distinct = (ground (arith, s.among item.name), s.distinct);
      visible = (seen, s.visible);
      among = λ a m. ground (arith, s.among a);
    }

    -- The tool's directory: links have texts, and this run has no backups yet.
    pub record IsStart : Type 0 where
      pub texts : (n : String) → HasLinkTexts (p.entries n)
      pub fresh : (n : String) → p.backups n ≡ none

    placed-IsSound :
        (skills : List FanoutSkill)
        → IsStart
        → All IsGoodSkill skills
        → NodupTexts (skill_names skills)
        → IsSound (skill_names skills) (placed skills)
    unfolding place_skills
    placed-IsSound [] start good u = record {
      fits = tt;
      distinct = tt;
      visible = tt;
      among = λ a m. m;
    }
    placed-IsSound (skill ∷ skills) start (g, good) (new, u) =
        let rest = placed-IsSound skills start good u in
        elim (placed-cases skill skills) [
          | inl e ↦
              subst (IsSound (skill_names (skill ∷ skills))) (sym e)
                (IsSound-skip skill.name (skill_names skills) (placed skills) rest)
          | inr e ↦
              let entry = p.entries skill.name in
              let item : FanoutItem = plan_entry D canonical roots tool ledger skill entry in
              let same : item.name ≡ skill.name = plan_entry-name skill entry in
              let fit =
                plan_entry-IsFit D canonical roots tool ledger skill entry g.source
                  (start.texts skill.name) in
              subst (IsSound (skill_names (skill ∷ skills))) (sym e) (
                subst (λ n. IsSound (n ∷ skill_names skills) (item ∷ placed skills)) same
                  (IsSound-add (skill_names skills) item (placed skills)
                    (λ acts.
                      subst (λ n. IsFit D canonical item (p.entries n)) (sym same) (fit acts))
                    (start.fresh item.name) (subst IsVisible (sym same) g.visible)
                    (subst (λ n. contains (skill_names skills) n ≡ false) (sym same) new) rest))
        ]

    removed-IsSound :
        (wanted ns : List String)
        → IsStart
        → NodupTexts ns
        → IsSound ns (removed wanted ns)
          × ((a : String)
              → contains (names (removed wanted ns)) a ≡ true
              → contains wanted a ≡ false)
    unfolding removals
    removed-IsSound wanted [] start u = (
      record { fits = tt; distinct = tt; visible = tt; among = λ a m. m },
      λ a m. absurd (ground arith),
    )
    removed-IsSound wanted (n ∷ ns) start (new, u) =
        let (rest, unwanted) = removed-IsSound wanted ns start u in
        elim (removed-cases wanted n ns) [
          | inl e ↦
              subst
                (λ items.
                  IsSound (n ∷ ns) items
                  × ((a : String) → contains (names items) a ≡ true → contains wanted a ≡ false))
                (sym e) (IsSound-skip n ns (removed wanted ns) rest, unwanted)
          | inr (item, h, out, seen, e) ↦
              let (same, fit) =
                removal-IsFit D canonical roots tool given ledger n (p.entries n) item
                  (start.texts n) h in
              let whole =
                IsSound-add ns item (removed wanted ns)
                  (λ acts. subst (λ m. IsFit D canonical item (p.entries m)) (sym same) (fit acts))
                  (start.fresh item.name) (subst IsVisible (sym same) seen)
                  (subst (λ m. contains ns m ≡ false) (sym same) new) rest in
              subst
                (λ items.
                  IsSound (n ∷ ns) items
                  × ((a : String) → contains (names items) a ≡ true → contains wanted a ≡ false))
                (sym e)
                (
                  subst (λ m. IsSound (m ∷ ns) (item ∷ removed wanted ns)) same whole,
                  λ a m. ground (arith, unwanted a),
                )
        ]

    plan_items-IsSound :
        (skills : List FanoutSkill) (ns : List String)
        → IsStart
        → All IsGoodSkill skills
        → NodupTexts (skill_names skills)
        → NodupTexts ns
        → let items = plan_items D canonical roots tool given ledger p.entries ns skills in
          AreFit D canonical p items
          × NodupTexts (names items)
          × All (λ item. IsVisible item.name) items
    unfolding plan_items
    plan_items-IsSound skills ns start good u u' =
        let a = placed-IsSound skills start good u in
        let (b, unwanted) = removed-IsSound (names (placed skills)) ns start u' in
        let gone = removed (names (placed skills)) ns in
        (
          AreFit-append D canonical p (placed skills) gone a.fits b.fits,
          rw (names-append (placed skills) gone) (
              NodupTexts-append (names (placed skills)) (names gone) a.distinct b.distinct
                unwanted),
          All-append (λ item. IsVisible item.name) (placed skills) gone a.visible b.visible,
        )

    -- A tool's directory is planned for skills of the canonical root with different, visible names,
    -- and the items are executed, where moves and recoveries do not fail half-way; then comes the rollback of what was reported.
    -- Every entry that is not hidden is what it was before the run, and in copy mode the
    -- ledger is the one that the report gives. The links of the directory have texts, and the run has no backups before.
    pub rollback_tool-plan_items :
        (luck : FanoutItem → Luck) (run_id : String) (skills : List FanoutSkill) (ns : List String)
        (is_copy : Bool) (before : Dict String String)
        → ((item : FanoutItem) → IsSafe (luck item))
        → IsStart
        → All IsGoodSkill skills
        → NodupTexts (map (λ s. s.name) skills)
        → NodupTexts ns
        → let items = plan_items D canonical roots tool given ledger p.entries ns skills in
          let run = execute_items D luck run_id items p in
          let p3 = (rollback_tool D canonical true is_copy before run.executed run.place).1 in
          ((n : String) → IsVisible n → p3.entries n ≡ p.entries n)
          × (is_copy ≡ true → p3.ledger ≡ before)
    rollback_tool-plan_items luck run_id skills ns is_copy before safe start good u u' =
        let items = plan_items D canonical roots tool given ledger p.entries ns skills in
        let (fits, distinct, visible) = plan_items-IsSound skills ns start good u u' in
        let (entries, back) =
          rollback_tool-execute_items D canonical luck run_id safe items is_copy before p
            (distinct-IsApart run_id items distinct visible) fits in
        (λ n v. entries n (not_among_temps run_id n items v), back)
