-- ===== src/Agent/Localstate/Lifecycle/Tests.antt =====
-- Runs of the lifecycle of internal/agent/localstate, and the theorems at them.
use anti_nat_agent.Base.{◌≡◌, refl, ◌≤◌, true, none, some, List, [], ◌∷◌, text}
use anti_nat_agent.Agent.Localstate.Lifecycle.{
  operation_mismatch, Disk, changed, unsynced, write_marker, RecoveryQuarantine, StateDir, Latch,
  active_count, clear_recovery_quarantine_for_operation,
}
use anti_nat_agent.Agent.Localstate.Lifecycle.Terminal.{
  Call, mark, quarantine, run, rank, run-rank, Moves, apply, apply-Moves, engage, register,
  unregister, serve_all, serve_all-engaged,
}

abbrev binding : RecoveryQuarantine
binding = record { operation_id = text "op-9"; generation = 3 }

abbrev quarantined : StateDir
quarantined = record { marker = none; quarantine = some (some binding) }

abbrev decommission : List (Call × Disk)
decommission =
    (mark (text "DECOMMISSIONED"), unsynced) ∷ (mark (text "DECOMMISSIONING"), changed) ∷ []

unsynced_is_written : (run decommission quarantined).marker ≡ some (text "DECOMMISSIONED")
unfolding write_marker
unsynced_is_written = refl

run-rank_example : rank quarantined.marker ≤ rank (run decommission quarantined).marker
run-rank_example = run-rank decommission quarantined

wrong_generation :
    clear_recovery_quarantine_for_operation
      (record { operation_id = text "op-9"; generation = 2 })
      changed
      quarantined
    ≡ (quarantined, some operation_mismatch)
unfolding clear_recovery_quarantine_for_operation
wrong_generation = refl

abbrev newer : RecoveryQuarantine
newer = record { operation_id = text "op-10"; generation = 4 }

apply-Moves_example :
    Moves binding (quarantine newer) (apply (quarantine newer) changed quarantined).0
apply-Moves_example = apply-Moves (quarantine newer) changed binding quarantined refl

abbrev latched : Latch
latched = record { engaged = true; actors = text "a" ∷ text "b" ∷ [] }

serve_all-engaged_example :
    ((serve_all (register (text "c") ∷ unregister (text "a") ∷ engage ∷ []) latched).engaged ≡ true)
    × (active_count (serve_all (register (text "c") ∷ unregister (text "a") ∷ engage ∷ []) latched)
        ≤ active_count latched)
serve_all-engaged_example =
    serve_all-engaged (register (text "c") ∷ unregister (text "a") ∷ engage ∷ []) latched refl
