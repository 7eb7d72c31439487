-- ===== src/Tasks/Integrity/Submitted.antt =====
-- screening_tasks/: submissions and retries keep what the stored attempts must satisfy.
use paper_radar.Prelude.{
  Bool-cases, Option, Option-cases, String, and_second, any, ap, false, get_last?, inl, inr,
  is_some, none, not, refl, some, str_eq, subst, true, ◌&&◌, ◌||◌, ◌≡◌,
}
use paper_radar.Prelude.Results.{>>=-eq-ok, ok, ok_injective, problem, raise_if, ◌>>=◌}
use paper_radar.Tasks.Ledger.{
  AttemptRow, FailureKind, Rows, Success, has_success, invalid_credential, model_mismatch,
  outcome_unknown, output_invalid, replace_last, settlement_conflict,
}
use paper_radar.Tasks.Rules.{Clock, utc_now}
use paper_radar.Tasks.Service.{raise_some, require_attempt_time}
use paper_radar.Tasks.Settlement.{
  Holder, Receipt, Submission, Verdict, as_failure, credential_attempt, invalid, kind_eq, matching,
  mismatching, precheck, rejected, replay_submission, settle, submit, submit_transaction,
  success_receipt, write_failure, write_success,
}
use paper_radar.Tasks.Integrity.{validate_failure, validate_row, validate_times}
use paper_radar.Tasks.Integrity.Replaced.{IsValid, last-valid, replace_last-IsValid}
use paper_radar.Tasks.Integrity.Kept.{commit-IsValid}
use paper_radar.Tasks.Integrity.Ended.{IsFound, credential-IsFound, write_failure-IsValid}

-- A row that a submission may settle: the last one, not settled yet.
record IsOpen (rows : Rows) (row : AttemptRow) : Type 0 where
  last : get_last? rows ≡ some row
  unfailed : row.failure ≡ none
  unfinished : row.success ≡ none

AsPrechecked : Rows → AttemptRow × Option Receipt → Type 0
AsPrechecked rows found = found.1 ≡ none → IsOpen rows found.0

precheck-IsOpen :
    {D : String → Type 0} (holder : Holder) (submission : String) (rows : Rows)
    (found : AttemptRow × Option Receipt)
    → IsValid D rows
    → precheck holder submission rows ≡ ok found
    → AsPrechecked rows found
unfolding precheck AsPrechecked IsFound
precheck-IsOpen holder submission rows found v h =
    let (held, by, h₁) = >>=-eq-ok (credential_attempt holder rows) _ h in
    elim (Option-cases held.0.success) [
      | inr (s, finished) ↦ elim (Bool-cases (str_eq s.submission_sha256 submission)) [
        | inr other ↦
            let h₂ : problem settlement_conflict ≡ ok found = rw (finished, other) at h₁ in cc
        | inl again ↦
            let h₂ : ok (held.0, some (success_receipt s)) ≡ ok found =
              rw (finished, again) at h₁ in
            subst (AsPrechecked rows) (ok_injective h₂) (λ n. cc)
      ]
      | inl unfinished ↦ elim (Option-cases held.0.failure) [
        | inr (f, failure) ↦
            let h₂ : (replay_submission submission f >>= λ receipt. ok (held.0, some receipt))
                ≡ ok found =
              rw (unfinished, failure) at h₁ in
            let (receipt, _, h₃) = >>=-eq-ok (replay_submission submission f) _ h₂ in
            subst (AsPrechecked rows) (ok_injective h₃) (λ n. cc)
        | inl unfailed ↦ elim (Bool-cases held.1) [
          | inr old ↦
              let h₂ : problem invalid_credential ≡ ok found =
                rw (unfinished, unfailed, old) at h₁ in
              cc
          | inl latest ↦
              let h₂ : ok (held.0, none) ≡ ok found = rw (unfinished, unfailed, latest) at h₁ in
              subst (AsPrechecked rows) (ok_injective h₂) (λ n. record {
                last = credential-IsFound holder rows held v by latest;
                unfailed = unfailed;
                unfinished = unfinished;
              })
        ]
      ]
    ]

succeeded_row :
    (row : AttemptRow) (s : Success)
    → validate_row row ≡ true
    → row.failure ≡ none
    → validate_row (record row { success = some s }) ≡ true
unfolding validate_row
succeeded_row row s v n =
    let times = and_second (not (is_some row.success && is_some row.failure)) _ v in
    let times' : validate_times row.claimed_at none row.expires_at ≡ true = rw n at times in
    rw n times'

write_success-IsValid :
    {D : String → Type 0} (row : AttemptRow) (s : Submission) (clock : Clock) (rows after : Rows)
    (a : Receipt)
    → IsValid D rows
    → IsOpen rows row
    → write_success row s clock rows ≡ ok (after, a)
    → IsValid D after
unfolding write_success
write_success-IsValid row s clock rows after a v o h =
    let (now, _, h₁) = >>=-eq-ok (utc_now clock) _ h in
    let (_, _, h₂) = >>=-eq-ok (require_attempt_time row now) _ h₁ in
    let (_, _, h₃) =
      >>=-eq-ok (raise_if (s.elsewhere || any has_success rows) settlement_conflict) _ h₂ in
    let success : Success = record {
      success_id = s.success_id;
      submission_sha256 = s.submission_sha256;
    } in
    let new : AttemptRow = record row { success = some success } in
    let same : replace_last new rows ≡ after = ap (λ (x : Rows × Receipt). x.0) (ok_injective h₃) in
    subst (IsValid _) same (
      replace_last-IsValid new row (refl, refl, refl, refl) rows o.last
        (succeeded_row row success (last-valid rows row v o.last) o.unfailed) v)

rejected-IsValid :
    {D : String → Type 0} (kind : FailureKind) (submission : String) (row : AttemptRow)
    (clock : Clock) (rows after : Rows) (a : Receipt)
    → kind_eq kind outcome_unknown ≡ false
    → IsValid D rows
    → IsOpen rows row
    → (write_failure row true (rejected kind submission) clock rows >>= λ x. ok (as_failure x))
      ≡ ok (after, a)
    → IsValid D after
unfolding validate_failure
rejected-IsValid kind submission row clock rows after a n v o h =
    let (written, write, h₁) =
      >>=-eq-ok (write_failure row true (rejected kind submission) clock rows) _ h in
    let same : written.0 ≡ after = ap (λ (x : Rows × Receipt). x.0) (ok_injective h₁) in
    subst (IsValid _) same (
      write_failure-IsValid row true (rejected kind submission) clock rows written.0 written.1 v
        (λ _. o.last) o.unfinished (λ claimed now expires t. rw (t, n) refl) write)

settle-IsValid :
    {D : String → Type 0} (row : AttemptRow) (s : Submission) (clock : Clock) (rows after : Rows)
    (a : Receipt) (verdict : Verdict)
    → s.verdict ≡ verdict
    → IsValid D rows
    → IsOpen rows row
    → settle row s clock rows ≡ ok (after, a)
    → IsValid D after
unfolding settle write_success
settle-IsValid row s clock rows after a matching e v o h =
    let h' : write_success row s clock rows ≡ ok (after, a) = rw e at h in
    write_success-IsValid row s clock rows after a v o h'
settle-IsValid row s clock rows after a mismatching e v o h =
    rejected-IsValid model_mismatch s.submission_sha256 row clock rows after a refl v o (rw e at h)
settle-IsValid row s clock rows after a invalid e v o h =
    rejected-IsValid output_invalid s.submission_sha256 row clock rows after a refl v o (rw e at h)

pub submit-IsValid :
    {D : String → Type 0} (holder : Holder) (s : Submission) (clock : Clock) (rows : Rows)
    → IsValid D rows
    → IsValid D (submit holder s clock rows).0
unfolding submit_transaction AsPrechecked
submit-IsValid holder s clock rows v =
    commit-IsValid rows (submit_transaction holder s clock rows) v (λ after a h.
      let (found, by, h₁) = >>=-eq-ok (precheck holder s.submission_sha256 rows) _ h in
      let (_, _, h₂) = >>=-eq-ok (raise_some s.audit) _ h₁ in
      elim (Option-cases found.1) [
        | inr (receipt, again) ↦
            let h₃ : ok (rows, receipt) ≡ ok (after, a) = rw again at h₂ in
            subst (IsValid _) (ap (λ (x : Rows × Receipt). x.0) (ok_injective h₃)) v
        | inl first ↦
            let h₃ : settle found.0 s clock rows ≡ ok (after, a) = rw first at h₂ in
            settle-IsValid found.0 s clock rows after a s.verdict refl v
              (precheck-IsOpen holder s.submission_sha256 rows found v by first) h₃
      ])
