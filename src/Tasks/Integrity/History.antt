-- ===== src/Tasks/Integrity/History.antt =====
-- screening_tasks/: the history of a task.
use paper_radar.Prelude.{
  Bool, Option, String, [], all, ap, arith, false, get_last?, none, not, refl, some, subst, sym,
  true, ℕ, ◌≡◌,
}
use paper_radar.Prelude.Results.{>>=-eq-ok, ok, ok_injective, raise_if}
use paper_radar.Tasks.Ledger.{AttemptRow, Rows, not_failed, numbered, read_attempts}
use paper_radar.Tasks.Rules.{Clock, TaskStatus, derive_status, last_status, status, utc_now}
use paper_radar.Tasks.Service.{Offer, claim, has_expired, reclaim, renew}
use paper_radar.Tasks.Settlement.{
  Holder, Submission, fail, is_failed, is_spent, recover_spent, retry, retry_transaction, submit,
}
use paper_radar.Tasks.Integrity.{validate_digests, validate_order, validate_pairs, validate_row}
use paper_radar.Tasks.Integrity.Replaced.{
  AreDigests, IsValid, IsValid-validate_rows, distinct_digests,
}
use paper_radar.Tasks.Integrity.Kept.{claim-IsValid, commit-IsValid, read_same}
use paper_radar.Tasks.Integrity.Settled.{reclaim-IsValid, recovered_again, renew-IsValid}
use paper_radar.Tasks.Integrity.Ended.{Reporter, fail-IsValid, kind_by, origin_by}
use paper_radar.Tasks.Integrity.Submitted.{submit-IsValid}

last_spent :
    (now : ℕ) (row : AttemptRow) (rows : Rows) (s : TaskStatus)
    → last_status rows now row ≡ ok s
    → is_spent s ≡ true
    → (row.success ≡ none) × (has_expired now row.expires_at ≡ true)
unfolding last_status
last_spent now row rows s h t = ground arith

spent_expired :
    (now : ℕ) (row : AttemptRow) (rows : Rows) (s : TaskStatus)
    → get_last? rows ≡ some row
    → derive_status rows now ≡ ok s
    → is_spent s ≡ true
    → (row.success ≡ none) × (has_expired now row.expires_at ≡ true)
unfolding derive_status
spent_expired now row rows s l h t = last_spent now row rows s (rw (derive_status, l) at h) t

recover_spent-IsValid :
    {D : String → Type 0} (spent : Bool) (now : ℕ) (o : Option AttemptRow) (rows after : Rows)
    (s : TaskStatus)
    → IsValid D rows
    → get_last? rows ≡ o
    → derive_status rows now ≡ ok s
    → is_spent s ≡ spent
    → recover_spent spent now o rows ≡ ok after
    → IsValid D after
unfolding recover_spent
recover_spent-IsValid false now o rows after s v l d t h = subst (IsValid _) (ok_injective h) v
recover_spent-IsValid true now none rows after s v l d t h = cc
recover_spent-IsValid true now (some row) rows after s v l d t h =
    let (n, x) = spent_expired now row rows s l d t in recovered_again row now rows after v l n x h

retry-IsValid :
    {D : String → Type 0} (clock : Clock) (rows : Rows)
    → IsValid D rows
    → IsValid D (retry clock rows).0
unfolding retry_transaction
retry-IsValid clock rows v = commit-IsValid rows (retry_transaction clock rows) v (λ after a h.
    let (now, _, h₁) = >>=-eq-ok (utc_now clock) _ h in
    let (existing, read, h₂) = >>=-eq-ok (read_attempts rows) _ h₁ in
    let (before, status, h₃) = >>=-eq-ok (derive_status existing now) _ h₂ in
    let (written, write, h₄) =
      >>=-eq-ok (recover_spent (is_spent before) now (get_last? existing) existing) _ h₃ in
    let (result, _, h₅) = >>=-eq-ok (derive_status written now) _ h₄ in
    let (_, _, h₆) = >>=-eq-ok (raise_if (not (is_failed result)) not_failed) _ h₅ in
    let same : written ≡ after = ap (λ (x : Rows × Unit {0}). x.0) (ok_injective h₆) in
    subst (IsValid _) same (
      recover_spent-IsValid (is_spent before) now (get_last? existing) existing written before
        (subst (IsValid _) (sym (read_same rows existing read)) v) refl status refl write))

-- What may happen to the attempts of a task.
pub data Operation : Type 0 where
  claim_by : Offer → Operation
  renew_by : String → Operation
  fail_by : Holder → Reporter → Operation
  submit_by : Holder → Submission → Operation
  reclaim_expired : Operation
  retry_failed : Operation

-- The rows after an operation, at what its clock says.
unfoldable pub perform : Operation → Clock → Rows → Rows
perform (claim_by offer) clock rows = (claim offer clock rows).0
perform (renew_by handle) clock rows = (renew handle clock rows).0
perform (fail_by holder by) clock rows = (fail holder (kind_by by) (origin_by by) clock rows).0
perform (submit_by holder s) clock rows = (submit holder s clock rows).0
perform reclaim_expired clock rows = (reclaim clock rows).0
perform retry_failed clock rows = (retry clock rows).0

-- What holds of the digests that an operation brings.
abbrev Brings : (String → Type 0) → Operation → Type 0
Brings D (claim_by offer) = D offer.credential_sha256 × D offer.renewal_sha256
Brings D _ = Unit

perform-IsValid :
    {D : String → Type 0} (o : Operation) (clock : Clock) (rows : Rows)
    → Brings D o
    → IsValid D rows
    → IsValid D (perform o clock rows)
unfolding perform
perform-IsValid (claim_by offer) clock rows b v = claim-IsValid offer clock rows b v
perform-IsValid (renew_by handle) clock rows b v = renew-IsValid handle clock rows v
perform-IsValid (fail_by holder by) clock rows b v = fail-IsValid holder by clock rows v
perform-IsValid (submit_by holder s) clock rows b v = submit-IsValid holder s clock rows v
perform-IsValid reclaim_expired clock rows b v = reclaim-IsValid clock rows v
perform-IsValid retry_failed clock rows b v = retry-IsValid clock rows v

-- The rows that the operations on a new task can leave, in any order and at any times.
pub data Reachable : Rows → Type 0 where
  registered : Reachable []
  performed :
      (o : Operation) (clock : Clock) (rows : Rows)
      → Reachable rows
      → Reachable (perform o clock rows)

-- What holds of the digests of all claims of a history.
abbrev pub Offers : (String → Type 0) → (rows : Rows) → Reachable rows → Type 0
Offers D _ registered = Unit
Offers D _ (performed o clock rows r) = Brings D o × Offers D rows r

pub Offers-any : (rows : Rows) (r : Reachable rows) → Offers (λ _. Unit {0}) rows r
Offers-any _ registered = tt
Offers-any _ (performed o clock rows r) = (brings o, Offers-any rows r)
  where
    brings : (o : Operation) → Brings (λ _. Unit {0}) o
    brings (claim_by offer) = (tt, tt)
    brings (renew_by handle) = tt
    brings (fail_by holder by) = tt
    brings (submit_by holder s) = tt
    brings reclaim_expired = tt
    brings retry_failed = tt

pub Reachable-IsValid :
    {D : String → Type 0} (rows : Rows) (r : Reachable rows) → Offers D rows r → IsValid D rows
unfolding numbered validate_pairs distinct_digests
Reachable-IsValid _ registered b = record {
  formed = tt;
  distinct = refl;
  each = tt;
  counted = refl;
  bounded = omega arith;
  ordered = refl;
}
Reachable-IsValid _ (performed o clock rows r) b =
    perform-IsValid o clock rows b.0 (Reachable-IsValid rows r b.1)

-- Whatever operations a task has seen, where the digests that its claims bring are digests of 64 hex
-- digits, its attempts pass these parts of the integrity check: the digests have that form and no two
-- attempts share one, each attempt's times, lease and settlement agree, and the numbers count up from 1
-- to at most 2, each attempt after a failure that was settled by then.
pub Reachable-validate_rows :
    (rows : Rows) (r : Reachable rows)
    → Offers AreDigests rows r
    → (validate_digests [] [] rows ≡ true)
      × (all validate_row rows ≡ true)
      × (validate_order rows ≡ true)
Reachable-validate_rows rows r b = IsValid-validate_rows rows (Reachable-IsValid rows r b)
