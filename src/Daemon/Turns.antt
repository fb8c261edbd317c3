-- ===== src/Daemon/Turns.antt =====
-- What one turn of the loop does.
use skill_sync_sidecar.Common.{String, ◌≡◌}
use skill_sync_sidecar.Common.{◌⊎◌, inl, inr, true, false}
use skill_sync_sidecar.Common.{Option, none, some, [], ◌∷◌, ◌++◌, arith}
use skill_sync_sidecar.Common.{option_eq, string_eq, nat_eq}
use skill_sync_sidecar.Common.{Option-cases, length}
use skill_sync_sidecar.Common.{Error, ok}
use skill_sync_sidecar.Common.{Result-cases}
use skill_sync_sidecar.SyncCycle.{complete, error}
use skill_sync_sidecar.Daemon.{CycleReport, Cycle, Host, Settings, Daemon, base_path}
use skill_sync_sidecar.Daemon.{
  is_blocked, is_reached, Ending, goes_on, raises, record_successful_base,
}
use skill_sync_sidecar.Daemon.{try_cycle, fan_out, turn}

module _ {S : Type 0} (H : Host S) (settings : Settings) where
  -- The cycle that a turn tries keeps the base record, or is complete.
  record IsTried (base : Option String) (c : Cycle) (base' : Option String) : Type 0 where
    plain : c.fanned_out ≡ false
    kept : (base' ≡ base) ⊎ (c.status ≡ complete)

  base_path-complete : (r : CycleReport) (p : String) → base_path r ≡ some p → r.status ≡ complete
  unfolding base_path
  base_path-complete r p h = ground arith

  recorded-complete :
      (r : CycleReport) (w : S) (p : String)
      → (record_successful_base H settings r w).0 ≡ ok (some p)
      → r.status ≡ complete
  unfolding record_successful_base
  recorded-complete r w p h = elim (Option-cases (base_path r)) [
    | inl e ↦ absurd (ground arith)
    | inr (q, e) ↦ base_path-complete r q e
  ]

  try_cycle-IsTried :
      (base : Option String) (w : S)
      → let (c, base', w') = try_cycle H settings base w in IsTried base c base'
  unfolding try_cycle
  try_cycle-IsTried base w = elim (Result-cases (H.run_cycle base w).0) [
    | inr (e, g) ↦ record { plain = ground arith; kept = inl (ground arith) }
    | inl (r, g) ↦
        elim (Result-cases (record_successful_base H settings r (H.run_cycle base w).1).0) [
          | inr (e, g') ↦ record { plain = ground arith; kept = inl (ground arith) }
          | inl (none, g') ↦ record { plain = ground arith; kept = inl (ground arith) }
          | inl (some next, g') ↦
              let done = recorded-complete r (H.run_cycle base w).1 next g' in
              record { plain = ground arith; kept = inr (ground arith) }
        ]
  ]

  fan_out-error :
      (c c' : Cycle) (w : S)
      → c.fanned_out ≡ false
      → (fan_out H settings c w).0 ≡ ok c'
      → (c'.status ≡ c.status) × (c'.status ≡ error → c'.fanned_out ≡ false)
  unfolding fan_out
  fan_out-error c c' w plain h = elim (Option-cases H.fanout) [
    | inl e ↦ ground arith
    | inr (run, e) ↦ ground arith
  ]

  -- A turn that does not raise adds one cycle.
  pub record IsTurn (d : Daemon S) (ending : Ending) (d' : Daemon S) : Type 0 where
    pub cycle : Cycle
    pub cycles : d'.cycles ≡ d.cycles ++ (cycle ∷ [])
    pub no_fan_out : cycle.status ≡ error → cycle.fanned_out ≡ false
    pub kept : (d'.current_base_record ≡ d.current_base_record) ⊎ (cycle.status ≡ complete)
    pub not_blocked :
        ending ≡ goes_on → settings.stop_on_blocked ≡ true → is_blocked cycle.status ≡ false
    pub not_reached :
        ending ≡ goes_on
        → is_reached settings.max_cycles (length (d.cycles ++ (cycle ∷ []))) ≡ false

  pub turn-IsTurn :
      (d : Daemon S)
      → let (ending, d') = turn H settings d in
        ((e : Error) × (ending ≡ raises e)) ⊎ IsTurn d ending d'
  unfolding turn
  turn-IsTurn d =
      let tried = try_cycle H settings d.current_base_record d.world in
      let t = try_cycle-IsTried d.current_base_record d.world in
      elim (Result-cases (fan_out H settings tried.0 tried.2).0) [
        | inr (e, g) ↦ inl (e, ground arith)
        | inl (c, g) ↦
            let (same, quiet) = fan_out-error tried.0 c tried.2 t.plain g in
            let kept = t.kept in
            inr (record {
              cycle = c;
              cycles = ground arith;
              no_fan_out = quiet;
              kept = ground arith;
              not_blocked = λ go on_blocked. ground arith;
              not_reached = λ go. ground arith;
            })
      ]
