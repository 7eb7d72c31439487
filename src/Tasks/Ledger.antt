-- ===== src/Tasks/Ledger.antt =====
-- screening_tasks/attempt_models.py and the reading of screening_tasks/attempt_repository.py: the
-- attempts of one task, in the order of their numbers, each joined with its lease, its failure and
-- its success. The columns that nothing here reads are left out. A stored time is the time that its
-- text denotes, in microseconds from the first one that Python's `datetime` has.
use paper_radar.Prelude.{
  Bool, List, Option, String, [], any, is_none, is_some, length, ltb, not, suc, true, ℕ, ◌&&◌, ◌*◌,
  ◌==◌, ◌||◌, ◌∷◌,
}
use paper_radar.Prelude.Results.{Result, ok, raise_if, ◌>>◌}

abbrev pub lease_time : ℕ
lease_time = 600 * 1000000

-- `datetime.max`
abbrev pub max_time : ℕ
max_time = 315537897599999999

abbrev pub attempts_per_generation : ℕ
attempts_per_generation = 2

pub data FailureKind : Type 0 where
  output_invalid model_mismatch timeout cancelled protocol_error : FailureKind
  executor_error outcome_unknown : FailureKind

pub data FailureOrigin : Type 0 where
  executor exception recovery : FailureOrigin

-- Those of `TaskReason` that the modelled code raises itself.
pub data TaskReason : Type 0 where
  not_failed facts_changed corrupt_reference invalid_clock task_running : TaskReason
  budget_exhausted invalid_credential settlement_conflict invalid_failure : TaskReason
  invalid_candidate already_succeeded : TaskReason

abbrev pub TaskResult {ℓ} : Type ℓ → Type ℓ
TaskResult = Result TaskReason

-- A row of the table of failures; also what `failure_receipt` tells of it.
pub record Failure : Type 0 where
  pub kind : FailureKind
  pub origin : FailureOrigin
  pub settled_at : ℕ
  pub submission_sha256 : Option String

pub record Success : Type 0 where
  pub success_id : String
  pub submission_sha256 : String

-- `AttemptRow`; the join leaves out what has no row.
pub record AttemptRow : Type 0 where
  pub attempt_no : ℕ
  pub receipt_id : String
  pub claimed_at : ℕ
  pub credential_sha256 : String
  pub renewal_sha256 : String
  pub expires_at : Option ℕ
  pub failure : Option Failure
  pub success : Option Success

abbrev pub Rows : Type 0
Rows = List AttemptRow

-- The attempt numbers count up from `n`.
unfoldable pub numbered : ℕ → Rows → Bool
numbered n [] = true
numbered n (row ∷ rows) = row.attempt_no == n && numbered (suc n) rows

-- `all(row["kind"] is not None for row in rows[:-1])`
unfoldable pub settled_but_last : Rows → Bool
settled_but_last [] = true
settled_but_last (row ∷ []) = true
settled_but_last (row ∷ next ∷ rows) = is_some row.failure && settled_but_last (next ∷ rows)

abbrev pub has_success : AttemptRow → Bool
has_success row = is_some row.success

-- `read_attempts`
unfoldable pub read_attempts : Rows → TaskResult Rows
read_attempts rows = do
  raise_if
      (any (λ row. is_none row.expires_at) rows
        || not (numbered 1 rows)
        || ltb attempts_per_generation (length rows))
      corrupt_reference
  raise_if (any (λ row. has_success row && is_some row.failure) rows || not (settled_but_last rows))
      corrupt_reference
  ok rows

-- A row in place of the last one, which has the same key.
unfoldable pub replace_last : AttemptRow → Rows → Rows
replace_last new [] = []
replace_last new (row ∷ []) = new ∷ []
replace_last new (row ∷ next ∷ rows) = row ∷ replace_last new (next ∷ rows)
