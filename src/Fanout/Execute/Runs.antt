-- ===== src/Fanout/Execute/Runs.antt =====
-- The run over a tool's plan, and rolling it back.
use skill_sync_sidecar.Common.{String, ◌≡◌, refl, sym}
use skill_sync_sidecar.Common.{◌∙◌, ap, ◌≢◌, inl, inr, Bool, true, false}
use skill_sync_sidecar.Common.{none, List, [], ◌∷◌, ◌++◌, map, arith}
use skill_sync_sidecar.Common.{contains, option_eq, string_eq, nat_eq, Bool-cases}
use skill_sync_sidecar.Common.{Error, ok, err}
use mathlib.Core.Path.{subst}
use mathlib.Core.List.{reverse, reverse-append}
use skill_sync_sidecar.Common.{Result-cases}
use skill_sync_sidecar.Common.Dict.{Dict}
use skill_sync_sidecar.Fanout.{Disk}
use skill_sync_sidecar.Fanout.Items.{is_noop, FanoutItem}
use skill_sync_sidecar.Fanout.Execute.{
  Place, Luck, Done, temp_name, execute_item, execute_items, ToolRun,
}
use skill_sync_sidecar.Fanout.Rollback.{undo, undo_all, rollback_tool}
use skill_sync_sidecar.Fanout.Execute.Item.{IsFit, IsSafe}
use skill_sync_sidecar.Fanout.Execute.Item.{
  execute_item-IsRestored, execute_item-IsConfined, execute_item-IsUndone,
}

abbrev pub names : List FanoutItem → List String
names items = map (λ item. item.name) items

abbrev pub temps : String → List FanoutItem → List String
temps run_id [] = []
temps run_id (item ∷ items) = temp_name run_id item.name ∷ temps run_id items

-- The items have different names, and no name is a temporary name.
abbrev pub IsApart : String → List FanoutItem → Type 0
IsApart run_id [] = Unit {0}
IsApart run_id (item ∷ items) =
    (item.name ≢ temp_name run_id item.name)
    × (contains (names items) item.name ≡ false)
    × (contains (temps run_id items) item.name ≡ false)
    × (contains (names items) (temp_name run_id item.name) ≡ false)
    × IsApart run_id items

-- Each item is as it is planned for its entry, and its backup is not there yet.
abbrev pub AreFit : Disk → String → Place → List FanoutItem → Type 0
AreFit D canonical p [] = Unit {0}
AreFit D canonical p (item ∷ items) =
    (is_noop item.action ≡ false → IsFit D canonical item (p.entries item.name))
    × (p.backups item.name ≡ none)
    × AreFit D canonical p items

undo_all-append :
    (D : Disk) (canonical : String) (xs : List Done) (done : Done) (p : Place)
    → (undo_all D canonical true (xs ++ (done ∷ [])) p).1
      ≡ (undo D canonical true done (undo_all D canonical true xs p).1).1
unfolding undo_all
undo_all-append D canonical [] done p = refl
undo_all-append D canonical (x ∷ xs) done p =
    undo_all-append D canonical xs done (undo D canonical true x p).1

module _ (D : Disk) (canonical : String) (luck : FanoutItem → Luck) (run_id : String)
    (safe : (item : FanoutItem) → IsSafe (luck item)) where
  execute_items-noop :
      (item : FanoutItem) (items : List FanoutItem) (p : Place)
      → is_noop item.action ≡ true
      → execute_items D luck run_id (item ∷ items) p ≡ execute_items D luck run_id items p
  unfolding execute_items
  execute_items-noop item items p h = ground arith

  execute_items-ok :
      (item : FanoutItem) (items : List FanoutItem) (p : Place) (done : Done)
      → is_noop item.action ≡ false
      → (execute_item D (luck item) run_id item p).0 ≡ ok done
      → execute_items D luck run_id (item ∷ items) p ≡ (
          let run =
            execute_items D luck run_id items (execute_item D (luck item) run_id item p).1 in
          record run { executed = done ∷ run.executed })
  unfolding execute_items
  execute_items-ok item items p done acts h = ground arith

  execute_items-err :
      (item : FanoutItem) (items : List FanoutItem) (p : Place) (e : Error)
      → is_noop item.action ≡ false
      → (execute_item D (luck item) run_id item p).0 ≡ err e
      → execute_items D luck run_id (item ∷ items) p ≡ (
          let run =
            execute_items D luck run_id items (execute_item D (luck item) run_id item p).1 in
          record run { failures = item.name ∷ run.failures })
  unfolding execute_items
  execute_items-err item items p e acts h = ground arith

  -- The two places agree on the names of the items.
  AreFit-kept :
      (p p' : Place) (items : List FanoutItem)
      → ((n : String) → contains (names items) n ≡ true → p'.entries n ≡ p.entries n)
      → ((n : String) → contains (names items) n ≡ true → p'.backups n ≡ p.backups n)
      → AreFit D canonical p items
      → AreFit D canonical p' items
  AreFit-kept p p' [] same same' fits = tt
  AreFit-kept p p' (item ∷ items) same same' (fit, fresh, fits) =
      let here : contains (names (item ∷ items)) item.name ≡ true = ground arith in
      (
        λ acts. subst (λ e. IsFit D canonical item e) (sym (same item.name here)) (fit acts),
        same' item.name here ∙ fresh,
        AreFit-kept p p' items (λ n m. same n (ground arith)) (λ n m. same' n (ground arith)) fits,
      )

  -- `p3` is what a rollback leaves of a run over the items from `p`.
  pub record IsRolledBack (items : List FanoutItem) (p p3 : Place) : Type 0 where
    pub entries :
        (n : String) → contains (temps run_id items) n ≡ false → p3.entries n ≡ p.entries n
    pub backups : (n : String) → contains (names items) n ≡ false → p3.backups n ≡ p.backups n

  abbrev undone : ToolRun → Place
  undone run = (undo_all D canonical true (reverse run.executed) run.place).1

  IsRolledBack-ok :
      (item : FanoutItem) (items : List FanoutItem) (p : Place) (done : Done) (run : ToolRun)
      → IsApart run_id (item ∷ items)
      → IsFit D canonical item (p.entries item.name)
      → (execute_item D (luck item) run_id item p).0 ≡ ok done
      → IsRolledBack items (execute_item D (luck item) run_id item p).1 (undone run)
      → IsRolledBack (item ∷ items) p (undone (record run { executed = done ∷ run.executed }))
  IsRolledBack-ok item items p done run (apart, other, temp, name, rest) fit h back =
      let p1 : Place = (execute_item D (luck item) run_id item p).1 in
      let p3 : Place = undone run in
      let same : execute_item D (luck item) run_id item p ≡ (ok done, p1) = cc in
      let kept = execute_item-IsConfined D (luck item) run_id item p p1 done same in
      let put_back =
        execute_item-IsUndone D (luck item) run_id item canonical p p1 p3 done fit apart same
          (back.entries item.name temp) (back.backups item.name other) in
      let step : undone (record run { executed = done ∷ run.executed })
          ≡ (undo D canonical true done p3).1 =
        ap (λ (xs : List Done). (undo_all D canonical true xs run.place).1)
          (reverse-append (done ∷ []) run.executed)
        ∙ undo_all-append D canonical (reverse run.executed) done run.place in
      subst (λ q. IsRolledBack (item ∷ items) p q) (sym step)
        (record {
          entries = λ n out. elim (string_eq.dec n item.name) [
            | yes here ↦
                subst (λ m. (undo D canonical true done p3).1.entries m ≡ p.entries m) (sym here)
                  put_back.entry
            | no there ↦
                put_back.entries n there
                ∙ (back.entries n (ground arith) ∙ kept.entries n there (λ e. ground arith))
          ];
          backups = λ n out.
              let there : n ≢ item.name = λ e. ground arith in
              put_back.backups n there ∙ (back.backups n (ground arith) ∙ kept.backups n there);
        })

  IsRolledBack-err :
      (item : FanoutItem) (items : List FanoutItem) (p : Place) (e : Error) (p3 : Place)
      → item.name ≢ temp_name run_id item.name
      → IsFit D canonical item (p.entries item.name)
      → p.backups item.name ≡ none
      → (execute_item D (luck item) run_id item p).0 ≡ err e
      → IsRolledBack items (execute_item D (luck item) run_id item p).1 p3
      → IsRolledBack (item ∷ items) p p3
  IsRolledBack-err item items p e p3 apart fit fresh h back =
      let p1 : Place = (execute_item D (luck item) run_id item p).1 in
      let same : execute_item D (luck item) run_id item p ≡ (err e, p1) = cc in
      let kept =
        execute_item-IsRestored D (luck item) run_id item canonical p p1 e fit apart fresh
          (safe item) same in
      record {
        entries = λ n out. ground (arith, back.entries n, kept.entries n);
        backups = λ n out. ground (arith, back.backups n, kept.backups n);
      }

  -- The items after the first are as planned where the first leaves them.
  AreFit-ok :
      (item : FanoutItem) (items : List FanoutItem) (p : Place) (done : Done)
      → IsApart run_id (item ∷ items)
      → (execute_item D (luck item) run_id item p).0 ≡ ok done
      → AreFit D canonical p items
      → AreFit D canonical (execute_item D (luck item) run_id item p).1 items
  AreFit-ok item items p done (apart, other, temp, name, rest) h fits =
      let p1 : Place = (execute_item D (luck item) run_id item p).1 in
      let same : execute_item D (luck item) run_id item p ≡ (ok done, p1) = cc in
      let kept = execute_item-IsConfined D (luck item) run_id item p p1 done same in
      AreFit-kept p p1 items (λ n m. kept.entries n (λ e. ground arith) (λ e. ground arith))
        (λ n m. kept.backups n (λ e. ground arith)) fits

  AreFit-err :
      (item : FanoutItem) (items : List FanoutItem) (p : Place) (e : Error)
      → IsApart run_id (item ∷ items)
      → IsFit D canonical item (p.entries item.name)
      → p.backups item.name ≡ none
      → (execute_item D (luck item) run_id item p).0 ≡ err e
      → AreFit D canonical p items
      → AreFit D canonical (execute_item D (luck item) run_id item p).1 items
  AreFit-err item items p e (apart, other, temp, name, rest) fit fresh h fits =
      let p1 : Place = (execute_item D (luck item) run_id item p).1 in
      let same : execute_item D (luck item) run_id item p ≡ (err e, p1) = cc in
      let kept =
        execute_item-IsRestored D (luck item) run_id item canonical p p1 e fit apart fresh
          (safe item) same in
      AreFit-kept p p1 items (λ n m. kept.entries n (λ e. ground arith)) (λ n m. kept.backups n)
        fits

  execute_items-IsRolledBack :
      (items : List FanoutItem) (p : Place)
      → IsApart run_id items
      → AreFit D canonical p items
      → IsRolledBack items p (undone (execute_items D luck run_id items p))
  unfolding execute_items undo_all
  execute_items-IsRolledBack [] p apart fits = record {
    entries = λ n out. refl;
    backups = λ n out. refl;
  }
  execute_items-IsRolledBack (item ∷ items) p apart (fit, fresh, fits) =
      let (own, other, temp, name, rest) = apart in
      let p1 : Place = (execute_item D (luck item) run_id item p).1 in
      elim (Bool-cases (is_noop item.action)) [
        | inl noop ↦
            let back = execute_items-IsRolledBack items p rest fits in
            rw (execute_items-noop item items p noop) (record {
              entries = λ n out. ground (arith, back.entries n);
              backups = λ n out. ground (arith, back.backups n);
            })
        | inr acts ↦ elim (Result-cases (execute_item D (luck item) run_id item p).0) [
          | inl (done, h) ↦ rw (execute_items-ok item items p done acts h) (
              IsRolledBack-ok item items p done (execute_items D luck run_id items p1) apart
                (fit acts) h
                (execute_items-IsRolledBack items p1 rest
                  (AreFit-ok item items p done apart h fits)))
          | inr (e, h) ↦ rw (execute_items-err item items p e acts h) (
              IsRolledBack-err item items p e (undone (execute_items D luck run_id items p1)) own
                (fit acts) fresh h
                (execute_items-IsRolledBack items p1 rest
                  (AreFit-err item items p e apart (fit acts) fresh h fits)))
        ]
      ]

  -- If operations of a run over planned items fail, but neither half-way in a move nor in the
  -- recovery of an item, rolling back what it reports as executed gives back every entry but the
  -- temporary ones.
  pub rollback_tool-execute_items :
      (items : List FanoutItem) (is_copy : Bool) (ledger : Dict String String) (p : Place)
      → IsApart run_id items
      → AreFit D canonical p items
      → let run = execute_items D luck run_id items p in
        let p3 = (rollback_tool D canonical true is_copy ledger run.executed run.place).1 in
        ((n : String) → contains (temps run_id items) n ≡ false → p3.entries n ≡ p.entries n)
        × (is_copy ≡ true → p3.ledger ≡ ledger)
  unfolding rollback_tool
  rollback_tool-execute_items items is_copy ledger p apart fits =
      let back = execute_items-IsRolledBack items p apart fits in
      (λ n out. ground (arith, back.entries n out), λ c. ground arith)
