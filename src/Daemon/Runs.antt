-- ===== src/Daemon/Runs.antt =====
-- What a run of the daemon promises, and that it ends.
use skill_sync_sidecar.Common.{ℕ, zero, suc, ◌+◌, ◌≤◌, ◌≡◌, refl, sym}
use skill_sync_sidecar.Common.{◌∙◌, ap, ◌≢◌, ◌⊎◌, inl, inr, Bool, true, false}
use skill_sync_sidecar.Common.{not, none, some, List, [], ◌∷◌, ◌++◌, arith}
use skill_sync_sidecar.Common.{option_eq, string_eq, nat_eq, Bool-cases}
use skill_sync_sidecar.Common.{length, count_if}
use skill_sync_sidecar.Common.{any_of, All, Error}
use mathlib.Core.Path.{subst}
use skill_sync_sidecar.Common.{length-append}
use skill_sync_sidecar.SyncCycle.{complete, error}
use skill_sync_sidecar.Daemon.{
  Cycle, Host, Settings, Daemon, is_blocked, is_reached, Ending, goes_on, stops,
}
use skill_sync_sidecar.Daemon.{raises, turn, conclude, run_sync_daemon}
use skill_sync_sidecar.Daemon.Turns.{IsTurn, turn-IsTurn}

abbrev pub is_complete : Cycle → Bool
is_complete c = elim c.status [ complete ↦ true | _ ↦ false ]

Ending-cases : (e : Ending) → (e ≡ goes_on) ⊎ (e ≡ stops) ⊎ ((x : Error) × (e ≡ raises x))
Ending-cases goes_on = inl refl
Ending-cases stops = inr (inl refl)
Ending-cases (raises x) = inr (inr (x, refl))

append_nil : (cs : List Cycle) → cs ≡ cs ++ []
append_nil [] = refl
append_nil (c ∷ cs) = ap (λ x. c ∷ x) (append_nil cs)

append_one :
    (cs : List Cycle) (c : Cycle) (ds : List Cycle) → (cs ++ (c ∷ [])) ++ ds ≡ cs ++ (c ∷ ds)
append_one [] c ds = refl
append_one (b ∷ cs) c ds = ap (λ x. b ∷ x) (append_one cs c ds)

module _ {S : Type 0} (H : Host S) (settings : Settings) where
  -- A run that returns has done the cycles `new`.
  pub record IsRun (d d' : Daemon S) : Type 0 where
    pub new : List Cycle
    pub cycles : d'.cycles ≡ d.cycles ++ new
    pub no_fan_out : All (λ c. c.status ≡ error → c.fanned_out ≡ false) new
    pub kept : (d'.current_base_record ≡ d.current_base_record) ⊎ (any_of is_complete new ≡ true)
    pub at_most_one_blocked :
        settings.stop_on_blocked ≡ true → count_if (λ c. is_blocked c.status) new ≤ 1
    pub bound : (m : ℕ) → settings.max_cycles ≡ some m → length d.cycles ≤ m → length d'.cycles ≤ m
    pub final : elim d'.state_file [ none ↦ false | some s ↦ not s.running ] ≡ true

  -- The turns of the loop.
  run_nothing : (d : Daemon S) → run_sync_daemon H settings 0 d ≡ none
  unfolding run_sync_daemon
  run_nothing d = refl

  run_reached :
      (fuel : ℕ) (d : Daemon S)
      → is_reached settings.max_cycles (length d.cycles) ≡ true
      → run_sync_daemon H settings (suc fuel) d ≡ some (none, conclude H settings d)
  unfolding run_sync_daemon
  run_reached fuel d h = ground arith

  run_stops :
      (fuel : ℕ) (d : Daemon S)
      → is_reached settings.max_cycles (length d.cycles) ≡ false
      → (turn H settings d).0 ≡ stops
      → run_sync_daemon H settings (suc fuel) d
        ≡ some (none, conclude H settings (turn H settings d).1)
  unfolding run_sync_daemon
  run_stops fuel d h e = ground arith

  run_goes_on :
      (fuel : ℕ) (d : Daemon S)
      → is_reached settings.max_cycles (length d.cycles) ≡ false
      → (turn H settings d).0 ≡ goes_on
      → run_sync_daemon H settings (suc fuel) d
        ≡ run_sync_daemon H settings fuel (turn H settings d).1
  unfolding run_sync_daemon
  run_goes_on fuel d h e = ground arith

  run_raises :
      (fuel : ℕ) (d : Daemon S) (x : Error)
      → is_reached settings.max_cycles (length d.cycles) ≡ false
      → (turn H settings d).0 ≡ raises x
      → run_sync_daemon H settings (suc fuel) d ≡ some (some x, (turn H settings d).1)
  unfolding run_sync_daemon
  run_raises fuel d x h e = ground arith

  longer :
      (d d' : Daemon S) (c : Cycle)
      → d'.cycles ≡ d.cycles ++ (c ∷ [])
      → length d'.cycles ≡ suc (length d.cycles)
  longer d d' c e = ap length e ∙ omega (arith, length-append d.cycles (c ∷ []))

  -- With `max_cycles` set, as many turns as cycles are left, and one more, are enough: the loop
  -- ends, whatever the cycles, the fan-out and the file operations do.
  pub run_sync_daemon-total :
      (m fuel : ℕ) (d : Daemon S)
      → settings.max_cycles ≡ some m
      → m ≤ length d.cycles + fuel
      → run_sync_daemon H settings (suc fuel) d ≢ none
  run_sync_daemon-total m zero d limit enough =
      elim (Bool-cases (is_reached settings.max_cycles (length d.cycles))) [
        | inl h ↦ ground (arith, run_reached 0 d h)
        | inr h ↦ absurd (ground arith)
      ]
  run_sync_daemon-total m (suc fuel) d limit enough =
      elim (Bool-cases (is_reached settings.max_cycles (length d.cycles))) [
        | inl h ↦ ground (arith, run_reached (suc fuel) d h)
        | inr h ↦ elim (Ending-cases (turn H settings d).0) [
          | inr (inl e) ↦ ground (arith, run_stops (suc fuel) d h e)
          | inr (inr (x, e)) ↦ ground (arith, run_raises (suc fuel) d x h e)
          | inl e ↦ elim (turn-IsTurn H settings d) [
            | inl (x, e') ↦ absurd (ground arith)
            | inr t ↦
                let more = longer d (turn H settings d).1 t.cycle t.cycles in
                rw (run_goes_on (suc fuel) d h e)
                  (run_sync_daemon-total m fuel (turn H settings d).1 limit (omega arith))
          ]
        ]
      ]

  none-IsRun : (d : Daemon S) → IsRun d (conclude H settings d)
  unfolding conclude
  none-IsRun d = record {
    new = [];
    cycles = append_nil d.cycles;
    no_fan_out = tt;
    kept = inl refl;
    at_most_one_blocked = λ _. omega arith;
    bound = λ m _ h. h;
    final = refl;
  }

  last-IsRun :
      (d d1 : Daemon S)
      → is_reached settings.max_cycles (length d.cycles) ≡ false
      → IsTurn H settings d stops d1
      → IsRun d (conclude H settings d1)
  unfolding conclude
  last-IsRun d d1 h t =
      let more = longer d d1 t.cycle t.cycles in
      let kept = t.kept in
      record {
        new = t.cycle ∷ [];
        cycles = t.cycles;
        no_fan_out = (t.no_fan_out, tt);
        kept = ground arith;
        at_most_one_blocked = λ _. ground arith;
        bound = λ m limit below. ground arith;
        final = refl;
      }

  cons-IsRun : (d d1 d' : Daemon S) → IsTurn H settings d goes_on d1 → IsRun d1 d' → IsRun d d'
  cons-IsRun d d1 d' t r =
      let kept = t.kept in
      let rest_kept = r.kept in
      let one = r.at_most_one_blocked in
      let not_blocked = t.not_blocked refl in
      let not_reached = t.not_reached refl in
      let same = t.cycles in
      record {
        new = t.cycle ∷ r.new;
        cycles = r.cycles ∙ (ap (λ x. x ++ r.new) t.cycles ∙ append_one d.cycles t.cycle r.new);
        no_fan_out = (t.no_fan_out, r.no_fan_out);
        kept = ground arith;
        at_most_one_blocked = λ on_blocked. ground (arith, one on_blocked, not_blocked on_blocked);
        bound = λ m limit below. r.bound m limit (rw same (ground arith));
        final = r.final;
      }

  -- A run that returns has not fanned out after a cycle that raised; it has kept its base record
  -- unless one of its cycles was complete; if it is to stop on a blocked cycle, it has at most one;
  -- it has no more cycles than `max_cycles`, if it had not before; and it has left a final summary.
  pub run_sync_daemon-IsRun :
      (fuel : ℕ) (d d' : Daemon S)
      → run_sync_daemon H settings fuel d ≡ some (none, d')
      → IsRun d d'
  run_sync_daemon-IsRun zero d d' returned = absurd (ground (arith, run_nothing d))
  run_sync_daemon-IsRun (suc fuel) d d' returned =
      elim (Bool-cases (is_reached settings.max_cycles (length d.cycles))) [
        | inl h ↦
            let out : conclude H settings d ≡ d' = ground (arith, run_reached fuel d h) in
            subst (IsRun d) out (none-IsRun d)
        | inr h ↦ elim (turn-IsTurn H settings d) [
          | inl (x, e) ↦ absurd (ground (arith, run_raises fuel d x h e))
          | inr t ↦ elim (Ending-cases (turn H settings d).0) [
            | inr (inr (x, e)) ↦ absurd (ground (arith, run_raises fuel d x h e))
            | inr (inl e) ↦
                let out : conclude H settings (turn H settings d).1 ≡ d' =
                  ground (arith, run_stops fuel d h e) in
                subst (IsRun d) out (
                  last-IsRun d (turn H settings d).1 h
                    (subst (λ x. IsTurn H settings d x (turn H settings d).1) e t))
            | inl e ↦
                cons-IsRun d (turn H settings d).1 d'
                  (subst (λ x. IsTurn H settings d x (turn H settings d).1) e t)
                  (run_sync_daemon-IsRun fuel (turn H settings d).1 d'
                    (sym (run_goes_on fuel d h e) ∙ returned))
          ]
        ]
      ]
