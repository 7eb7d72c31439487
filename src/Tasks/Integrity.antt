-- ===== src/Tasks/Integrity.antt =====
-- screening_tasks/attempt_integrity.py: what the stored attempts of a task must satisfy, and that the
-- operations keep it: the digests, the times and settlements, and the numbers and their order. What the
-- check compares with the tables of papers and requests is left out.
pub mod Replaced
pub mod Added
pub mod Kept
pub mod Settled
pub mod Ended
pub mod Submitted
pub mod History
use paper_radar.Prelude.{
  Bool, List, Option, String, [], all, any, false, is_some, leb, length, none, not, some, str_eq,
  true, ℕ, ◌&&◌, ◌+◌, ◌==◌, ◌∷◌,
}
use paper_radar.Prelude.Text.{codes}
use paper_radar.Tasks.Ledger.{
  AttemptRow, Failure, Rows, attempts_per_generation, exception, executor, executor_error,
  lease_time, numbered, outcome_unknown, recovery,
}
use paper_radar.Tasks.Settlement.{kind_eq}

-- A failure against the times of its attempt.
unfoldable pub validate_failure : ℕ → ℕ → Failure → Bool
validate_failure claimed expires f = leb claimed f.settled_at && elim f.origin [
  | recovery ↦ kind_eq f.kind outcome_unknown && leb expires f.settled_at
  | exception ↦ kind_eq f.kind executor_error
  | executor ↦ not (kind_eq f.kind outcome_unknown)
]

abbrev pub validate_settled : ℕ → ℕ → Option Failure → Bool
validate_settled claimed expires none = true
validate_settled claimed expires (some f) = validate_failure claimed expires f

-- The lease is there and is as long as a claim makes it.
abbrev pub validate_times : ℕ → Option Failure → Option ℕ → Bool
validate_times claimed failure none = false
validate_times claimed failure (some expires) =
    leb (claimed + lease_time) expires && validate_settled claimed expires failure

unfoldable pub validate_row : AttemptRow → Bool
validate_row row =
    not (is_some row.success && is_some row.failure)
    && validate_times row.claimed_at row.failure row.expires_at

abbrev pub settled_by : ℕ → Option Failure → Bool
settled_by claimed none = false
settled_by claimed (some f) = leb f.settled_at claimed

-- An attempt follows a failure that was settled by then.
unfoldable pub validate_pairs : Rows → Bool
validate_pairs [] = true
validate_pairs (row ∷ []) = true
validate_pairs (row ∷ next ∷ rows) =
    settled_by next.claimed_at row.failure && validate_pairs (next ∷ rows)

-- The numbers of a task's attempts, and their order in time.
unfoldable pub validate_order : Rows → Bool
validate_order rows =
    numbered 1 rows && leb (length rows) attempts_per_generation && validate_pairs rows

abbrev hex_digits : List ℕ
hex_digits = codes "0123456789abcdef"

-- `re.fullmatch(r"[0-9a-f]{64}", text)`
unfoldable pub is_digest : String → Bool
is_digest text =
    (length (codes text) == 64)
    && all (λ code. any (λ digit. digit == code) hex_digits) (codes text)

-- The loop's checks of the digests, from the sets `credentials` and `renewals` so far.
unfoldable pub validate_digests : List String → List String → Rows → Bool
validate_digests credentials renewals [] = true
validate_digests credentials renewals (row ∷ rows) =
    is_digest row.credential_sha256
    && not (any (str_eq row.credential_sha256) credentials)
    && is_digest row.renewal_sha256
    && not (any (str_eq row.renewal_sha256) renewals)
    && validate_digests (row.credential_sha256 ∷ credentials) (row.renewal_sha256 ∷ renewals) rows
