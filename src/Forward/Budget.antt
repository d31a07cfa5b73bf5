-- ===== src/Forward/Budget.antt =====
-- internal/forward/budget.go: the bounded accounting of one Forward's sessions. Each exported method
-- runs under the budget's mutex, so a call is one step; `int` and `int64` are 64-bit patterns.
pub mod Accounting
mod Tests
use anti_nat_agent.Base.{
  ℕ, zero, suc, ◌*◌, ◌&&◌, ◌||◌, Option, none, some, List, [], ◌∷◌, Result, ok, err, if◌then◌else◌,
  add64, sub64, is_neg, lt64, le64,
}

abbrev pub pessimistic_buffer_bytes_per_connection : ℕ
pessimistic_buffer_bytes_per_connection = 2 * 32 * 1024

pub data LimitKind : Type 0 where
  limit_connections limit_fds limit_pessimistic_buffer : LimitKind

pub data Error : Type 0 where
  negative_limit : Error
  budget_exceeded : (kind : LimitKind) (limit current : ℕ) → Error

pub record Limits : Type 0 where
  pub max_connections : ℕ
  pub max_fds : ℕ
  pub max_pessimistic_buffer_bytes : ℕ

pub record Budget : Type 0 where
  pub limits : Limits
  pub open limits use *
  pub connections : ℕ
  pub fds : ℕ
  pub buffer_bytes : ℕ

pub new_budget : Limits → Result Error Budget
new_budget l =
    if is_neg l.max_connections || is_neg l.max_fds || is_neg l.max_pessimistic_buffer_bytes
    then err negative_limit
    else ok (record { limits = l; connections = 0; fds = 0; buffer_bytes = 0 })

-- The budget after the call, and the error that `Reserve` returns (`none` for nil).
unfoldable pub reserve : Budget → Budget × Option Error
reserve b =
    if lt64 0 b.max_connections && le64 b.max_connections b.connections
    then (b, some (budget_exceeded limit_connections b.max_connections b.connections))
    else if lt64 0 b.max_fds && le64 b.max_fds b.fds
    then (b, some (budget_exceeded limit_fds b.max_fds b.fds))
    else if lt64 0 b.max_pessimistic_buffer_bytes
        && lt64 b.max_pessimistic_buffer_bytes
            (add64 b.buffer_bytes pessimistic_buffer_bytes_per_connection)
    then (
      b,
      some (budget_exceeded limit_pessimistic_buffer b.max_pessimistic_buffer_bytes b.buffer_bytes),
    )
    else (
      record b {
        connections = add64 b.connections 1;
        fds = add64 b.fds 1;
        buffer_bytes = add64 b.buffer_bytes pessimistic_buffer_bytes_per_connection;
      },
      none,
    )

-- `if x < 0 { x = 0 }`
abbrev pub clamp_negative : ℕ → ℕ
clamp_negative x = if is_neg x then 0 else x

unfoldable pub release : Budget → Budget
release b = record b {
  connections = if lt64 0 b.connections then sub64 b.connections 1 else b.connections;
  fds = if lt64 0 b.fds then sub64 b.fds 1 else b.fds;
  buffer_bytes = clamp_negative (sub64 b.buffer_bytes pessimistic_buffer_bytes_per_connection);
}

pub record BudgetSnapshot : Type 0 where
  pub connections : ℕ
  pub fds : ℕ
  pub pessimistic_buffer_bytes : ℕ

pub snapshot : Budget → BudgetSnapshot
snapshot b = record {
  connections = b.connections;
  fds = b.fds;
  pessimistic_buffer_bytes = b.buffer_bytes;
}

-- What the sessions of a Forward do to its budget, in the order of the critical sections: a session
-- begins by `Reserve`, and one that was let in ends by `Release`.
pub data Call : Type 0 where
  reserves releases : Call

-- The budget and the number of sessions that were let in and have not ended. A release without such
-- a session does not happen: the callers pair it with a successful `Reserve`.
pub step : Budget × ℕ → Call → Budget × ℕ
step (b, n) reserves = let (b', e) = reserve b in (b', elim e [ none ↦ suc n | some _ ↦ n ])
step (b, zero) releases = (b, zero)
step (b, suc n) releases = (release b, n)

pub run : Budget × ℕ → List Call → Budget × ℕ
run s [] = s
run s (c ∷ cs) = run (step s c) cs
