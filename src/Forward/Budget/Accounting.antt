-- ===== src/Forward/Budget/Accounting.antt =====
-- The budget of internal/forward/budget.go against the number of sessions that are let in.
use anti_nat_agent.Base.{
  ℕ, zero, suc, ◌+◌, ◌*◌, ◌^◌, ◌≤◌, ◌<◌, ◌≡◌, ◌⊎◌, ◌&&◌, Option, none, some, List, [], ◌∷◌, ok,
  arith, half_word, length, ltb, leb, if◌then◌else◌,
}
use anti_nat_agent.Forward.Budget.{
  Error, budget_exceeded, limit_connections, limit_fds, limit_pessimistic_buffer, Limits, Budget,
  Call, reserves, releases, new_budget, reserve, release, step, run,
  pessimistic_buffer_bytes_per_connection,
}

-- The limits are not negative.
pub record LimitsAreValid (l : Limits) : Type 0 where
  pub connections_valid : l.max_connections < half_word
  pub fds_valid : l.max_fds < half_word
  pub buffer_valid : l.max_pessimistic_buffer_bytes < half_word

-- The budget charges exactly `n` sessions, within each limit that is set.
pub record Charges (b : Budget) (n : ℕ) : Type 0 where
  pub limits_valid : LimitsAreValid b.limits
  pub connections_exact : b.connections ≡ n
  pub fds_exact : b.fds ≡ n
  pub buffer_exact : b.buffer_bytes ≡ n * pessimistic_buffer_bytes_per_connection
  pub connections_within : 0 < b.max_connections → n ≤ b.max_connections
  pub fds_within : 0 < b.max_fds → n ≤ b.max_fds
  pub buffer_within :
      0 < b.max_pessimistic_buffer_bytes
      → n * pessimistic_buffer_bytes_per_connection ≤ b.max_pessimistic_buffer_bytes

-- At 2 ^ 47 sessions the `int64` of the buffer axis would wrap.
abbrev pub session_bound : ℕ
session_bound = 2 ^ 47

pub new_budget-Charges : (l : Limits) {b : Budget} → new_budget l ≡ ok b → Charges b 0
unfolding new_budget
new_budget-Charges l h = ground arith

pub reserve-Charges :
    (b : Budget) (n : ℕ)
    → Charges b n
    → suc n < session_bound
    → Charges (step (b, n) reserves).0 (step (b, n) reserves).1
unfolding step reserve
reserve-Charges b n v h = ground arith

pub release-Charges :
    (b : Budget) (n : ℕ) → Charges b (suc n) → suc n < session_bound → Charges (release b) n
unfolding release
release-Charges b n v h = ground arith

step-Charges :
    (b : Budget) (n : ℕ) (c : Call)
    → Charges b n
    → suc n < session_bound
    → Charges (step (b, n) c).0 (step (b, n) c).1
step-Charges b n reserves v h = reserve-Charges b n v h
step-Charges b zero releases v h = unfold step in v
step-Charges b (suc n) releases v h = unfold step in release-Charges b n v (omega arith)

step-le : (b : Budget) (n : ℕ) (c : Call) → (step (b, n) c).1 ≤ suc n
unfolding step
step-le b n reserves = ground arith
step-le b zero releases = omega arith
step-le b (suc n) releases = omega arith

run_from-Charges :
    (s : Budget × ℕ) (cs : List Call)
    → Charges s.0 s.1
    → s.1 + length cs < session_bound
    → Charges (run s cs).0 (run s cs).1
unfolding run
run_from-Charges s [] v h = v
run_from-Charges (b, n) (c ∷ cs) v h =
    run_from-Charges (step (b, n) c) cs (step-Charges b n c v (omega arith))
      (omega (arith, step-le b n c))

-- A budget that NewBudget accepts charges, after any sequence of fewer than 2 ^ 47 Reserve and
-- Release calls in which each Release ends a session that was let in, exactly the sessions that
-- are let in, on every axis, and never more than a limit that is set.
pub run-Charges :
    (l : Limits) (b : Budget) (cs : List Call)
    → new_budget l ≡ ok b
    → length cs < session_bound
    → Charges (run (b, 0) cs).0 (run (b, 0) cs).1
run-Charges l b cs e h = run_from-Charges (b, 0) cs (new_budget-Charges l e) (omega arith)

-- The refusal of one more session beside `n` sessions, over plain numbers: the first axis whose
-- limit is set and would be passed.
pub refusal : Limits → ℕ → Option Error
refusal l n =
    if ltb 0 l.max_connections && leb l.max_connections n
    then some (budget_exceeded limit_connections l.max_connections n)
    else if ltb 0 l.max_fds && leb l.max_fds n
    then some (budget_exceeded limit_fds l.max_fds n)
    else if ltb 0 l.max_pessimistic_buffer_bytes
        && ltb l.max_pessimistic_buffer_bytes (suc n * pessimistic_buffer_bytes_per_connection)
    then some (
        budget_exceeded limit_pessimistic_buffer l.max_pessimistic_buffer_bytes
          (n * pessimistic_buffer_bytes_per_connection))
    else none

-- On a budget that charges exactly `n` sessions, with n + 1 below 2 ^ 47, Reserve refuses exactly by
-- `refusal`: it names the first exhausted axis with its limit and its usage, and a refused call
-- leaves the budget as it was.
pub reserve-refusal :
    (b : Budget) (n : ℕ)
    → Charges b n
    → suc n < session_bound
    → ((reserve b).1 ≡ refusal b.limits n) × (((reserve b).1 ≡ none) ⊎ ((reserve b).0 ≡ b))
unfolding reserve refusal
reserve-refusal b n v h = (ground arith, ground arith)

-- On a budget that charges exactly `n` sessions, with n + 1 below 2 ^ 47, Release after a successful
-- Reserve gives the budget back as it was.
pub release-reserve :
    (b : Budget) (n : ℕ)
    → Charges b n
    → suc n < session_bound
    → (reserve b).1 ≡ none
    → release (reserve b).0 ≡ b
unfolding reserve release
release-reserve b n v h e = ground arith
