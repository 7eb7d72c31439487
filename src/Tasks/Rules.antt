-- ===== src/Tasks/Rules.antt =====
-- screening_tasks/attempt_rules.py: the lease of an attempt and the status of a task.
use paper_radar.Prelude.{
  Bool, Option, [], false, get_last?, if◌then◌else◌, leb, length, ltb, none, some, true, ℕ, ◌+◌,
  ◌-◌, ◌==◌, ◌∷◌,
}
use paper_radar.Prelude.Int.{negsuc, pos, ℤ}
use paper_radar.Prelude.Results.{ok, problem}
use paper_radar.Tasks.Ledger.{
  AttemptRow, Failure, FailureKind, Rows, TaskResult, attempts_per_generation, cancelled,
  corrupt_reference, executor_error, has_success, invalid_clock, lease_time, max_time,
  protocol_error, timeout,
}

-- A clock that gives no UTC time raises.
abbrev pub Clock : Type 0
Clock = Option ℕ

unfoldable pub utc_now : Clock → TaskResult ℕ
utc_now none = problem invalid_clock
utc_now (some now) = ok now

unfoldable pub lease_expiry : ℕ → TaskResult ℕ
lease_expiry now =
    if ltb max_time (now + lease_time) then problem invalid_clock else ok (now + lease_time)

-- `is_executor_failure`, of a report.
unfoldable pub is_executor_failure : FailureKind → Bool
is_executor_failure timeout = true
is_executor_failure cancelled = true
is_executor_failure protocol_error = true
is_executor_failure executor_error = true
is_executor_failure _ = false

pub data TaskState : Type 0 where
  ready running lease_expired retryable failed succeeded : TaskState

pub record TaskStatus : Type 0 where
  pub state : TaskState
  pub used_attempts : ℕ
  pub remaining_attempts : ℤ
  pub last_failure : Option FailureKind

abbrev remaining : ℕ → ℤ
remaining used =
    if leb used attempts_per_generation
    then pos (attempts_per_generation - used)
    else negsuc (used - attempts_per_generation - 1)

abbrev pub status : TaskState → Rows → Option FailureKind → TaskStatus
status state rows last_failure = record {
  state = state;
  used_attempts = length rows;
  remaining_attempts = remaining (length rows);
  last_failure = last_failure;
}

abbrev pub kind_of : Option Failure → Option FailureKind
kind_of none = none
kind_of (some f) = some f.kind

-- The failure of `rows[-2]`.
abbrev pub previous_kind : Rows → Option FailureKind
previous_kind [] = none
previous_kind (row ∷ []) = none
previous_kind (row ∷ last ∷ []) = kind_of row.failure
previous_kind (row ∷ next ∷ last ∷ rows) = previous_kind (next ∷ last ∷ rows)

-- The state of an attempt that has not been settled; without a lease the source raises.
abbrev open_status : Rows → ℕ → Option ℕ → TaskResult TaskStatus
open_status rows now none = problem corrupt_reference
open_status rows now (some expires) =
    ok (status (if leb expires now then lease_expired else running) rows (previous_kind rows))

unfoldable pub last_status : Rows → ℕ → AttemptRow → TaskResult TaskStatus
last_status rows now row =
    if has_success row then ok (status succeeded rows none) else elim row.failure [
      | some f ↦ ok (
          status (if length rows == attempts_per_generation then failed else retryable) rows
            (some f.kind))
      | none ↦ open_status rows now row.expires_at
    ]

unfoldable pub derive_status : Rows → ℕ → TaskResult TaskStatus
derive_status rows now = elim (get_last? rows) [
  | none ↦ ok (status ready rows none)
  | some row ↦ last_status rows now row
]
