-- ===== src/Fanout/Scheduler/History.antt =====
-- When the scheduler skips, in terms of the history of its turns and not of its fields.
use skill_sync_sidecar.Common.{◌+◌, String, ◌≡◌, refl}
use skill_sync_sidecar.Common.{inl, inr, Bool, true, false, ◌&&◌}
use skill_sync_sidecar.Common.{not, List, [], ◌∷◌, arith, if◌then◌else◌}
use skill_sync_sidecar.Common.{ltb, leb, ◌==◌, option_eq, string_eq, nat_eq, Bool-cases}
use skill_sync_sidecar.Common.{Option-cases, is_some}
use skill_sync_sidecar.Common.{Error, ok, err}
use skill_sync_sidecar.Common.{Result-cases}
use skill_sync_sidecar.Fanout.Scheduler.{Device, Settings, Scheduler, new_scheduler, Outcome}
use skill_sync_sidecar.Fanout.Scheduler.{skipped, planned, ran, error, due, maybe_run}

-- A turn: what it found, what it returned, and what it left.
pub record Turn (S : Type 0) : Type 0 where
  pub before : S
  pub outcome : Outcome
  pub after : S

abbrev pub is_skip : Outcome → Bool
is_skip skipped = true
is_skip _ = false

-- The outcome of a run or plan without failures.
abbrev pub is_clean : Outcome → Bool
is_clean skipped = false
is_clean (planned reason changes) = true
is_clean (ran reason r executed failed conflicts) = not (ltb 0 failed)
is_clean (error e) = false

module _ {S : Type 0} (D : Device S) (settings : Settings) where
  -- The specification: the last turn that did not skip, the newest first, was clean, found the same
  -- fingerprint, and ended less than the interval ago.
  unfoldable pub may_skip : List (Turn S) → S → Bool
  may_skip [] w = false
  may_skip (t ∷ past) w =
      let earlier = may_skip past w in
      if is_skip t.outcome
      then earlier
      else (is_clean t.outcome
          && (elim (D.fingerprint w) [
            | err e ↦ false
            | ok now ↦ elim (D.fingerprint t.before) [ err e ↦ false | ok then_ ↦ now == then_ ]
          ])
          && not (leb (D.clock t.after + settings.interval) (D.clock w)))

  -- The turns of a scheduler on the worlds that it is called in, whatever happens between.
  unfoldable pub run_turns : List S → Scheduler → List (Turn S) → Scheduler × List (Turn S)
  run_turns [] s past = (s, past)
  run_turns (w ∷ worlds) s past =
      let (outcome, s', w') = maybe_run D settings s w in
      run_turns worlds s' (record { before = w; outcome = outcome; after = w' } ∷ past)

  -- Each turn skipped exactly if the turns before it let it.
  abbrev pub IsJustified : List (Turn S) → Type 0
  IsJustified [] = Unit {0}
  IsJustified (t ∷ past) = (is_skip t.outcome ≡ may_skip past t.before) × IsJustified past

  -- The fields stand for the history.
  StandsFor : Scheduler → List (Turn S) → Type 0
  unfolding due may_skip
  StandsFor s past =
      (w : S) (fingerprint : String)
      → D.fingerprint w ≡ ok fingerprint
      → may_skip past w ≡ not (is_some (due D settings s fingerprint w))

  -- Nothing is skipped without a fingerprint.
  may_skip-err :
      (past : List (Turn S)) (w : S) (e : Error) → D.fingerprint w ≡ err e → may_skip past w ≡ false
  unfolding may_skip
  may_skip-err [] w e h = refl
  may_skip-err (t ∷ past) w e h = ground (arith, may_skip-err past w e h)

  -- One turn: it skips if the history lets it, and leaves fields that stand for the longer history.
  StandsFor-step :
      (s : Scheduler) (past : List (Turn S)) (w : S)
      → StandsFor s past
      → let (outcome, s', w') = maybe_run D settings s w in
        let t : Turn S = record { before = w; outcome = outcome; after = w' } in
        (is_skip outcome ≡ may_skip past w) × StandsFor s' (t ∷ past)
  unfolding StandsFor maybe_run
  StandsFor-step s past w stands = elim (Result-cases (D.fingerprint w)) [
    | inr (e, h) ↦ (ground (arith, may_skip-err past w e h), λ v f g. ground arith)
    | inl (now, h) ↦
        let here = stands w now h in
        elim (Option-cases (due D settings s now w)) [
          | inl skips ↦ (ground arith, λ v f g. ground (arith, stands v f g))
          | inr (reason, acts) ↦ elim (Bool-cases settings.yes_) [
            | inr dry ↦ elim (Result-cases (D.planner w)) [
              | inr (e, h') ↦ (ground arith, λ v f g. ground arith)
              | inl (summaries, h') ↦ (ground arith, λ v f g. ground arith)
            ]
            | inl real ↦ elim (Result-cases (D.runner w).0) [
              | inr (e, h') ↦ (ground arith, λ v f g. ground arith)
              | inl (r, h') ↦ (ground arith, λ v f g. ground arith)
            ]
          ]
        ]
  ]

  run_turns-IsJustified-from :
      (worlds : List S) (s : Scheduler) (past : List (Turn S))
      → StandsFor s past
      → IsJustified past
      → IsJustified (run_turns worlds s past).1
  unfolding run_turns
  run_turns-IsJustified-from [] s past stands good = good
  run_turns-IsJustified-from (w ∷ worlds) s past stands good =
      let r = maybe_run D settings s w in
      let (skips, stands') = StandsFor-step s past w stands in
      run_turns-IsJustified-from worlds r.1
        (record { before = w; outcome = r.0; after = r.2 } ∷ past) stands' (skips, good)

  new_scheduler-StandsFor : StandsFor new_scheduler []
  unfolding StandsFor due may_skip
  new_scheduler-StandsFor w fingerprint h = refl

  -- Call a new scheduler in any worlds, one after the other. A turn skips if and only if there is an
  -- earlier turn that did not skip, and the last such turn ran or planned without failures, found
  -- the fingerprint that is found now, and ended less than the interval ago.
  pub run_turns-IsJustified : (worlds : List S) → IsJustified (run_turns worlds new_scheduler []).1
  run_turns-IsJustified worlds =
      run_turns-IsJustified-from worlds new_scheduler [] new_scheduler-StandsFor tt
