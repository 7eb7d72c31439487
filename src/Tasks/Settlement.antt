-- ===== src/Tasks/Settlement.antt =====
-- screening_tasks/execution.py (`AttemptService.fail`), screening_tasks/success.py
-- (`SuccessService.submit`) and the parent's part of screening_tasks/retry.py: how an attempt ends.
use paper_radar.Prelude.{
  Bool, Option, String, [], any, false, get_last?, if◌then◌else◌, none, not, some, str_eq, true, ℕ,
  ◌&&◌, ◌==◌, ◌||◌, ◌∷◌,
}
use paper_radar.Prelude.Text.{opt_is}
use paper_radar.Prelude.Results.{ok, problem, raise_if, ◌>>=◌, ◌>>◌}
use paper_radar.Tasks.Ledger.{
  AttemptRow, Failure, FailureKind, FailureOrigin, Rows, Success, TaskReason, TaskResult,
  attempts_per_generation, cancelled, corrupt_reference, exception, executor, executor_error,
  has_success, invalid_credential, invalid_failure, model_mismatch, not_failed, outcome_unknown,
  output_invalid, protocol_error, read_attempts, recovery, replace_last, settlement_conflict,
  timeout,
}
use paper_radar.Tasks.Rules.{
  Clock, TaskStatus, derive_status, failed, is_executor_failure, lease_expired, utc_now,
}
use paper_radar.Tasks.Service.{commit, raise_some, recover_attempt, require_attempt_time}

-- What a settlement names: an attempt and the digest of the credential of its claim.
pub record Holder : Type 0 where
  pub attempt_no : ℕ
  pub credential_sha256 : String

-- `next(item for item in rows if item["attempt_no"] == attempt_no)`
unfoldable pub find_attempt : ℕ → Rows → Option AttemptRow
find_attempt n [] = none
find_attempt n (row ∷ rows) =
    let later = find_attempt n rows in if row.attempt_no == n then some row else later

abbrev pub is_latest : AttemptRow → Option AttemptRow → Bool
is_latest row none = false
is_latest row (some last) = row.attempt_no == last.attempt_no

-- `credential_attempt`
unfoldable pub credential_attempt : Holder → Rows → TaskResult (AttemptRow × Bool)
credential_attempt holder rows = do
  existing ← read_attempts rows
  elim (find_attempt holder.attempt_no existing) [
    | none ↦ problem invalid_credential
    | some row ↦
        if str_eq row.credential_sha256 holder.credential_sha256
        then ok (row, is_latest row (get_last? existing))
        else problem invalid_credential
  ]

abbrev pub is_recovery : FailureOrigin → Bool
is_recovery recovery = true
is_recovery _ = false

abbrev pub origin_eq : FailureOrigin → FailureOrigin → Bool
origin_eq executor executor = true
origin_eq exception exception = true
origin_eq recovery recovery = true
origin_eq _ _ = false

abbrev kind_code : FailureKind → ℕ
kind_code output_invalid = 0
kind_code model_mismatch = 1
kind_code timeout = 2
kind_code cancelled = 3
kind_code protocol_error = 4
kind_code executor_error = 5
kind_code outcome_unknown = 6

abbrev pub kind_eq : FailureKind → FailureKind → Bool
kind_eq a b = kind_code a == kind_code b

-- A row with its failure in place of the last row, whose key it has.
abbrev pub with_failure : AttemptRow → Failure → Rows → Rows
with_failure row f rows = replace_last (record row { failure = some f }) rows

-- The same failure again is answered again, except for one that a recovery wrote.
unfoldable pub replay_failure : FailureKind → FailureOrigin → Failure → TaskResult Failure
replay_failure kind origin f =
    if is_recovery f.origin
    then problem invalid_credential
    else if kind_eq f.kind kind && origin_eq f.origin origin
    then ok f
    else problem settlement_conflict

-- The write that settles an attempt as failed.
unfoldable pub write_failure :
    AttemptRow → Bool → (ℕ → Failure) → Clock → Rows → TaskResult (Rows × Failure)
write_failure row latest failure clock rows = do
  raise_if (not latest) invalid_credential
  now ← utc_now clock
  require_attempt_time row now
  ok (with_failure row (failure now) rows, failure now)

abbrev pub reported : FailureKind → FailureOrigin → ℕ → Failure
reported kind origin now = record {
  kind = kind;
  origin = origin;
  settled_at = now;
  submission_sha256 = none;
}

unfoldable pub fail_transaction :
    Holder → FailureKind → FailureOrigin → Clock → Rows → TaskResult (Rows × Failure)
fail_transaction holder kind origin clock rows = do
  raise_if (not (is_executor_failure kind)) invalid_failure
  found ← credential_attempt holder rows
  raise_if (has_success found.0) settlement_conflict
  elim found.0.failure [
    | some f ↦ replay_failure kind origin f >>= λ receipt. ok (rows, receipt)
    | none ↦ write_failure found.0 found.1 (reported kind origin) clock rows
  ]

abbrev pub fail : Holder → FailureKind → FailureOrigin → Clock → Rows → Rows × TaskResult Failure
fail holder kind origin clock rows = commit rows (fail_transaction holder kind origin clock rows)

-- What the checks of an answer found, before the transaction that settles it.
pub data Verdict : Type 0 where
  matching : Verdict
  mismatching : Verdict
  invalid : Verdict

-- What a submission brings: the digest of the answer, what its checks found, what the check of the
-- execution record raises, a new identity, and whether another task of the budget has succeeded.
pub record Submission : Type 0 where
  pub submission_sha256 : String
  pub verdict : Verdict
  pub audit : Option TaskReason
  pub success_id : String
  pub elsewhere : Bool

pub data Receipt : Type 0 where
  success_receipt : Success → Receipt
  failure_receipt : Failure → Receipt

-- The failure branch of `_precheck`.
unfoldable pub replay_submission : String → Failure → TaskResult Receipt
replay_submission submission f =
    if is_recovery f.origin
    then problem invalid_credential
    else if opt_is f.submission_sha256 submission
    then ok (failure_receipt f)
    else problem settlement_conflict

-- `_precheck`: the row, and the receipt of an answer that was submitted before.
unfoldable pub precheck : Holder → String → Rows → TaskResult (AttemptRow × Option Receipt)
precheck holder submission rows = do
  found ← credential_attempt holder rows
  elim found.0.success [
    | some s ↦
        if str_eq s.submission_sha256 submission
        then ok (found.0, some (success_receipt s))
        else problem settlement_conflict
    | none ↦ elim found.0.failure [
      | some f ↦ replay_submission submission f >>= λ receipt. ok (found.0, some receipt)
      | none ↦ if found.1 then ok (found.0, none) else problem invalid_credential
    ]
  ]

abbrev pub rejected : FailureKind → String → ℕ → Failure
rejected kind submission now = record {
  kind = kind;
  origin = executor;
  settled_at = now;
  submission_sha256 = some submission;
}

abbrev pub as_failure : Rows × Failure → Rows × Receipt
as_failure after = (after.0, failure_receipt after.1)

-- The write that settles an attempt as succeeded: a budget succeeds once.
unfoldable pub write_success : AttemptRow → Submission → Clock → Rows → TaskResult (Rows × Receipt)
write_success row s clock rows = do
  now ← utc_now clock
  require_attempt_time row now
  raise_if (s.elsewhere || any has_success rows) settlement_conflict
  let success : Success = record {
    success_id = s.success_id;
    submission_sha256 = s.submission_sha256;
  }
  ok (replace_last (record row { success = some success }) rows, success_receipt success)

unfoldable pub settle : AttemptRow → Submission → Clock → Rows → TaskResult (Rows × Receipt)
settle row s clock rows = elim s.verdict [
  | matching ↦ write_success row s clock rows
  | mismatching ↦
      write_failure row true (rejected model_mismatch s.submission_sha256) clock rows >>= λ after.
      ok (as_failure after)
  | invalid ↦
      write_failure row true (rejected output_invalid s.submission_sha256) clock rows >>= λ after.
      ok (as_failure after)
]

-- The transaction of `submit` that writes.
unfoldable pub submit_transaction : Holder → Submission → Clock → Rows → TaskResult (Rows × Receipt)
submit_transaction holder s clock rows = do
  found ← precheck holder s.submission_sha256 rows
  raise_some s.audit
  elim found.1 [ some receipt ↦ ok (rows, receipt) | none ↦ settle found.0 s clock rows ]

abbrev pub submit : Holder → Submission → Clock → Rows → Rows × TaskResult Receipt
submit holder s clock rows = commit rows (submit_transaction holder s clock rows)

abbrev pub is_spent : TaskStatus → Bool
is_spent s = elim s.state [ lease_expired ↦ s.used_attempts == attempts_per_generation | _ ↦ false ]

abbrev pub is_failed : TaskStatus → Bool
is_failed s = elim s.state [ failed ↦ true | _ ↦ false ]

unfoldable pub recover_spent : Bool → ℕ → Option AttemptRow → Rows → TaskResult Rows
recover_spent false now last rows = ok rows
recover_spent true now none rows = problem corrupt_reference
recover_spent true now (some row) rows = recover_attempt row now rows >>= read_attempts

-- `RetryService.register`, what it does to the attempts of the parent: a second attempt that has
-- expired becomes a failure, and only a failed task has a successor.
unfoldable pub retry_transaction : Clock → Rows → TaskResult (Rows × Unit {0})
retry_transaction clock rows = do
  now ← utc_now clock
  existing ← read_attempts rows
  before ← derive_status existing now
  after ← recover_spent (is_spent before) now (get_last? existing) existing
  result ← derive_status after now
  raise_if (not (is_failed result)) not_failed
  ok (after, tt)

abbrev pub retry : Clock → Rows → Rows × TaskResult (Unit {0})
retry clock rows = commit rows (retry_transaction clock rows)
