-- ===== src/Tasks/Service.antt =====
-- screening_tasks/execution.py and screening_tasks/retry.py: claiming, renewing and recovering an
-- attempt. What a transaction raises undoes it, so it leaves the rows as they were.
use paper_radar.Prelude.{
  Bool, Option, String, [], any, false, get_last?, if◌then◌else◌, is_none, is_some, leb, length,
  ltb, none, not, some, str_eq, suc, ℕ, ◌&&◌, ◌++◌, ◌||◌, ◌∷◌,
}
use paper_radar.Prelude.Results.{ok, problem, raise_if, ◌>>=◌, ◌>>◌}
use paper_radar.Tasks.Ledger.{
  AttemptRow, Failure, Rows, TaskReason, TaskResult, already_succeeded, attempts_per_generation,
  budget_exhausted, corrupt_reference, has_success, invalid_clock, invalid_credential,
  outcome_unknown, read_attempts, recovery, replace_last, task_running,
}
use paper_radar.Tasks.Rules.{Clock, TaskStatus, derive_status, lease_expiry, utc_now}

-- `with self.connection(write=True)`
abbrev pub commit {ℓ} : {A : Type ℓ} → Rows → TaskResult (Rows × A) → Rows × TaskResult A
commit rows (problem reason) = (rows, problem reason)
commit rows (ok after) = (after.0, ok after.1)

abbrev pub raise_some : Option TaskReason → TaskResult (Unit {0})
raise_some none = ok tt
raise_some (some reason) = problem reason

-- `require_attempt_time`
abbrev pub require_attempt_time : AttemptRow → ℕ → TaskResult (Unit {0})
require_attempt_time row now = raise_if (ltb now row.claimed_at) invalid_clock

-- `recover_attempt`, of the last row.
unfoldable pub recover_attempt : AttemptRow → ℕ → Rows → TaskResult Rows
recover_attempt row now rows = do
  require_attempt_time row now
  ok (
      replace_last
        (record row {
          failure = some (record {
            kind = outcome_unknown;
            origin = recovery;
            settled_at = now;
            submission_sha256 = none;
          });
        })
        rows)

-- What a claim brings: the request, the digests of its new secrets, and what other tables say. `facts`
-- is what the code before the reading of the attempts raises, where the facts of the paper are
-- compared with the frozen input; `elsewhere` is whether another task of the budget has succeeded;
-- `preclaim` is what the caller's check of the correction raises; `taken` is whether an attempt of
-- another task has one of the digests.
pub record Offer : Type 0 where
  pub receipt_id : String
  pub facts : Option TaskReason
  pub elsewhere : Bool
  pub preclaim : Rows → Option TaskReason
  pub taken : Bool
  pub credential_sha256 : String
  pub renewal_sha256 : String

abbrev pub before_expiry : ℕ → Option ℕ → Bool
before_expiry now none = false
before_expiry now (some expires) = ltb now expires

unfoldable pub is_running : ℕ → Option AttemptRow → Bool
is_running now none = false
is_running now (some row) = is_none row.failure && before_expiry now row.expires_at

-- A last attempt that has not been settled is settled as unknown.
unfoldable pub recover_last : ℕ → Option AttemptRow → Rows → TaskResult Rows
recover_last now none rows = ok rows
recover_last now (some row) rows =
    if is_none row.failure then recover_attempt row now rows else ok rows

abbrev pub settled_later : ℕ → Option Failure → Bool
settled_later now none = false
settled_later now (some f) = ltb now f.settled_at

abbrev pub last_settled_later : ℕ → Option AttemptRow → Bool
last_settled_later now none = false
last_settled_later now (some row) = settled_later now row.failure

abbrev pub new_attempt : Offer → ℕ → ℕ → ℕ → AttemptRow
new_attempt offer number now expires = record {
  attempt_no = number;
  receipt_id = offer.receipt_id;
  claimed_at = now;
  credential_sha256 = offer.credential_sha256;
  renewal_sha256 = offer.renewal_sha256;
  expires_at = some expires;
  failure = none;
  success = none;
}

-- The columns of the digests are unique: some row has the credential's or the renewal's digest.
unfoldable pub has_digest : AttemptRow → Rows → Bool
has_digest new [] = false
has_digest new (row ∷ rows) =
    str_eq new.credential_sha256 row.credential_sha256
    || str_eq new.renewal_sha256 row.renewal_sha256
    || has_digest new rows

-- `attempts.insert()`: a digest that is there already is an error of the database.
unfoldable pub insert_attempt : Bool → AttemptRow → Rows → TaskResult Rows
insert_attempt taken new rows = do
  raise_if (taken || has_digest new rows) corrupt_reference
  ok (rows ++ new ∷ [])

-- The writes of a claim: nothing is inserted beyond the last attempt of the generation.
unfoldable pub write_claim : Offer → ℕ → ℕ → Rows → TaskResult Rows
write_claim offer now expires existing =
    let number = suc (length existing) in
    (recover_last now (get_last? existing) existing >>= λ recovered.
    if leb number attempts_per_generation
    then if last_settled_later now (get_last? existing)
      then problem invalid_clock
      else insert_attempt offer.taken (new_attempt offer number now expires) recovered
    else ok recovered)

-- The transaction of `claim`, with the number of the attempt.
unfoldable pub claim_transaction : Offer → Clock → Rows → TaskResult (Rows × ℕ)
claim_transaction offer clock rows = do
  raise_some offer.facts
  existing ← read_attempts rows
  now ← utc_now clock
  expires ← lease_expiry now
  raise_if (offer.elsewhere || any has_success existing) already_succeeded
  raise_if (is_running now (get_last? existing)) task_running
  let number = suc (length existing)
  raise_some (if leb number attempts_per_generation then offer.preclaim existing else none)
  after ← write_claim offer now expires existing
  ok (after, number)

-- `claim`: it recovers a second attempt before it says that the budget is exhausted.
unfoldable pub claim : Offer → Clock → Rows → Rows × TaskResult ℕ
claim offer clock rows =
    let (after, answer) = commit rows (claim_transaction offer clock rows) in
    (
      after,
      answer >>= λ number.
          if leb number attempts_per_generation then ok number else problem budget_exhausted,
    )

-- The write of `renew`.
unfoldable pub renew_last : String → Clock → Option AttemptRow → Rows → TaskResult (Rows × ℕ)
renew_last handle clock none rows = problem invalid_credential
renew_last handle clock (some current) rows = do
  raise_if
      (not (str_eq current.renewal_sha256 handle) || is_some current.failure || has_success current)
      invalid_credential
  now ← utc_now clock
  require_attempt_time current now
  expires ← lease_expiry now
  ok (replace_last (record current { expires_at = some expires }) rows, expires)

-- `renew`, of a handle with this digest.
unfoldable pub renew_transaction : String → Clock → Rows → TaskResult (Rows × ℕ)
renew_transaction handle clock rows = do
  raise_if (not (any (λ row. str_eq row.renewal_sha256 handle) rows)) invalid_credential
  existing ← read_attempts rows
  renew_last handle clock (get_last? existing) existing

abbrev pub renew : String → Clock → Rows → Rows × TaskResult ℕ
renew handle clock rows = commit rows (renew_transaction handle clock rows)

abbrev pub has_expired : ℕ → Option ℕ → Bool
has_expired now none = false
has_expired now (some expires) = leb expires now

-- The guard of `reclaim`.
unfoldable pub is_abandoned : ℕ → AttemptRow → Bool
is_abandoned now row =
    is_none row.failure && not (has_success row) && has_expired now row.expires_at

unfoldable pub recover_abandoned : ℕ → Option AttemptRow → Rows → TaskResult Rows
recover_abandoned now none rows = ok rows
recover_abandoned now (some row) rows =
    if is_abandoned now row then recover_attempt row now rows >>= read_attempts else ok rows

unfoldable pub reclaim_transaction : Clock → Rows → TaskResult (Rows × TaskStatus)
reclaim_transaction clock rows = do
  now ← utc_now clock
  existing ← read_attempts rows
  after ← recover_abandoned now (get_last? existing) existing
  result ← derive_status after now
  ok (after, result)

abbrev pub reclaim : Clock → Rows → Rows × TaskResult TaskStatus
reclaim clock rows = commit rows (reclaim_transaction clock rows)
