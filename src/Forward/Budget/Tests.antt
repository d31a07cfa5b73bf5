-- ===== src/Forward/Budget/Tests.antt =====
-- Runs and witnesses of the budget.
use anti_nat_agent.Base.{◌≡◌, refl, ◌⊎◌, none, some, List, [], ◌∷◌, arith}
use anti_nat_agent.Forward.Budget.{
  Limits, Budget, Call, reserves, releases, new_budget, reserve, release, step, run,
  budget_exceeded, limit_connections,
}
use anti_nat_agent.Forward.Budget.Accounting.{
  Charges, run-Charges, reserve-refusal, release-reserve, refusal,
}

abbrev two_sessions : Limits
two_sessions = record { max_connections = 2; max_fds = 0; max_pessimistic_buffer_bytes = 1_000_000 }

abbrev fresh : Budget
fresh = record { limits = two_sessions; connections = 0; fds = 0; buffer_bytes = 0 }

abbrev busy : Budget
busy = record { limits = two_sessions; connections = 2; fds = 2; buffer_bytes = 131072 }

abbrev calls : List Call
calls = reserves ∷ reserves ∷ reserves ∷ releases ∷ reserves ∷ []

third_is_refused : (reserve busy).1 ≡ some (budget_exceeded limit_connections 2 2)
unfolding reserve
third_is_refused = refl

run-calls : run (fresh, 0) calls ≡ (busy, 2)
unfolding run step reserve release
run-calls = refl

run-Charges_example : Charges (run (fresh, 0) calls).0 (run (fresh, 0) calls).1
run-Charges_example = run-Charges two_sessions fresh calls (unfold new_budget in refl) (omega arith)

busy-Charges : Charges busy 2
busy-Charges = ground arith

reserve-refusal_example :
    ((reserve busy).1 ≡ refusal two_sessions 2)
    × (((reserve busy).1 ≡ none) ⊎ ((reserve busy).0 ≡ busy))
reserve-refusal_example = reserve-refusal busy 2 busy-Charges (omega arith)

fresh-Charges : Charges fresh 0
fresh-Charges = ground arith

release-reserve_example : release (reserve fresh).0 ≡ fresh
release-reserve_example =
    release-reserve fresh 0 fresh-Charges (omega arith) (unfold reserve in refl)
