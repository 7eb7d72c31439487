-- ===== src/Tasks/Integrity/Kept.antt =====
-- screening_tasks/: claims and recoveries keep what the stored attempts must satisfy.
use paper_radar.Prelude.{
  Bool, Bool-cases, Option, Option-cases, String, [], any, ap, arith, false, get_last?,
  if◌then◌else◌, inl, inr, is_some, leb, leb→le, length, ltb, none, not, refl, some, subst, suc,
  sym, true, ℕ, ◌&&◌, ◌++◌, ◌+◌, ◌||◌, ◌∷◌, ◌≡◌, ◌≤◌,
}
use paper_radar.Prelude.Results.{>>=-eq-ok, ok, ok_injective, problem, raise_if}
use paper_radar.Tasks.Ledger.{
  AttemptRow, Failure, Rows, Success, TaskReason, TaskResult, already_succeeded,
  attempts_per_generation, corrupt_reference, has_success, invalid_clock, lease_time,
  outcome_unknown, read_attempts, recovery, task_running,
}
use paper_radar.Tasks.Rules.{Clock, lease_expiry, utc_now}
use paper_radar.Tasks.Service.{
  Offer, before_expiry, claim, claim_transaction, commit, has_digest, insert_attempt, is_running,
  last_settled_later, new_attempt, raise_some, recover_attempt, recover_last, require_attempt_time,
  write_claim,
}
use paper_radar.Tasks.Integrity.{validate_failure, validate_row, validate_times}
use paper_radar.Tasks.Integrity.Replaced.{
  IsValid, last-replace, last-valid, last_without, replace-length, replace_last-IsValid,
}
use paper_radar.Tasks.Integrity.Added.{append-IsValid, follows}

pub read_same : (rows existing : Rows) → read_attempts rows ≡ ok existing → existing ≡ rows
unfolding read_attempts
read_same rows existing h = ground arith

pub commit-IsValid :
    {D : String → Type 0} {A : Type 0} (rows : Rows) (t : TaskResult (Rows × A))
    → IsValid D rows
    → ((after : Rows) (a : A) → t ≡ ok (after, a) → IsValid D after)
    → IsValid D (commit rows t).0
commit-IsValid rows (problem reason) v k = v
commit-IsValid rows (ok after) v k = k after.0 after.1 refl

pub not_raised :
    (b : Bool) (reason : TaskReason) {u : Unit {0}} → raise_if b reason ≡ ok u → b ≡ false
not_raised true reason h = cc
not_raised false reason h = refl

pub right_false : (a : Bool) {b : Bool} → (a || b) ≡ false → b ≡ false
right_false true h = cc
right_false false h = h

-- What a failure leaves of a row that was open.
pub failed_row :
    (row : AttemptRow) (f : Failure)
    → validate_row row ≡ true
    → row.success ≡ none
    → ((expires : ℕ)
        → row.expires_at ≡ some expires
        → validate_failure row.claimed_at expires f ≡ true)
    → validate_row (record row { failure = some f }) ≡ true
unfolding validate_row
failed_row row f v s k = go row.claimed_at row.success row.failure row.expires_at v s k
  where
    go :
        (claimed : ℕ) (s : Option Success) (before : Option Failure) (e : Option ℕ)
        → (not (is_some s && is_some before) && validate_times claimed before e) ≡ true
        → s ≡ none
        → ((expires : ℕ) → e ≡ some expires → validate_failure claimed expires f ≡ true)
        → (not (is_some s && true) && validate_times claimed (some f) e) ≡ true
    go claimed s before none v p k = ground arith
    go claimed s before (some expires) v p k = let later = k expires refl in ground arith

-- Rows after which a new attempt may begin now.
abbrev pub Recovered : (String → Type 0) → ℕ → Rows → Rows → Type 0
Recovered D now rows after =
    IsValid D after
    × (length after ≡ length rows)
    × (last_settled_later now (get_last? rows) ≡ false → follows now (get_last? after) ≡ true)

pub recover_attempt-Recovered :
    {D : String → Type 0} (row : AttemptRow) (now : ℕ) (after rows : Rows)
    → IsValid D rows
    → get_last? rows ≡ some row
    → row.success ≡ none
    → ((expires : ℕ) → row.expires_at ≡ some expires → expires ≤ now)
    → recover_attempt row now rows ≡ ok after
    → Recovered D now rows after
unfolding recover_attempt validate_failure
recover_attempt-Recovered row now after rows v l s k h =
    let (_, timed, last) = >>=-eq-ok (require_attempt_time row now) _ h in
    let time : leb row.claimed_at now ≡ true = ground arith in
    let new : AttemptRow = record row { failure = some (unknown now) } in
    subst (Recovered _ now rows) (ok_injective last) (
      replace_last-IsValid new row (refl, refl, refl, refl) rows l
          (failed_row row (unknown now) (last-valid rows row v l) s
            (λ expires e. let bound = k expires e in rw time (by_bound expires bound)))
          v,
      replace-length new row (refl, refl, refl, refl) rows,
      (λ _. rw (last-replace new row rows l) (reflexive now)),
    )
  where
    unknown : ℕ → Failure
    unknown now = record {
      kind = outcome_unknown;
      origin = recovery;
      settled_at = now;
      submission_sha256 = none;
    }

    reflexive : (n : ℕ) → leb n n ≡ true
    reflexive n = ground arith

    by_bound : (expires : ℕ) → expires ≤ now → leb expires now ≡ true
    by_bound expires b = ground arith

expired_by :
    (now : ℕ) (e : Option ℕ) (expires : ℕ)
    → before_expiry now e ≡ false
    → e ≡ some expires
    → expires ≤ now
expired_by now none expires b h = cc
expired_by now (some t) expires b h = let same : t ≡ expires = cc in rw (sym same) (at_time t b)
  where
    at_time : (t : ℕ) → ltb now t ≡ false → t ≤ now
    at_time t b = ground arith

pub recover_last_cases :
    {D : String → Type 0} (o : Option AttemptRow) (now : ℕ) (after rows : Rows)
    → IsValid D rows
    → get_last? rows ≡ o
    → any has_success rows ≡ false
    → is_running now o ≡ false
    → recover_last now o rows ≡ ok after
    → Recovered D now rows after
unfolding recover_last is_running recover_attempt
recover_last_cases none now after rows v l n r h =
    subst (Recovered _ now rows) (ok_injective h) (v, refl, (λ _. rw l refl))
recover_last_cases (some row) now after rows v l n r h = elim (Option-cases row.failure) [
  | inl open_one ↦
      let h' : recover_attempt row now rows ≡ ok after = rw open_one at h in
      let r' : before_expiry now row.expires_at ≡ false = rw open_one at r in
      recover_attempt-Recovered row now after rows v l (last_without rows row n l)
        (λ expires e. expired_by now row.expires_at expires r' e) h'
  | inr (f, settled) ↦
      let h' : ok rows ≡ ok after = rw settled at h in
      subst (Recovered _ now rows) (ok_injective h') (
        v,
        refl,
        (λ t.
            let t' : ltb now f.settled_at ≡ false = rw (l, settled) at t in
            rw (l, settled) (by_bound f.settled_at t')),
      )
]
  where
    by_bound : (s : ℕ) → ltb now s ≡ false → leb s now ≡ true
    by_bound s b = ground arith

pub lease_length :
    (now expires : ℕ) → lease_expiry now ≡ ok expires → leb (now + lease_time) expires ≡ true
unfolding lease_expiry
lease_length now expires h = ground arith

-- An insertion that is made has new digests.
pub inserted :
    (taken : Bool) (new : AttemptRow) (rows after : Rows)
    → insert_attempt taken new rows ≡ ok after
    → (has_digest new rows ≡ false) × (rows ++ new ∷ [] ≡ after)
unfolding insert_attempt
inserted taken new rows after h =
    let (_, free, h₁) = >>=-eq-ok (raise_if (taken || has_digest new rows) corrupt_reference) _ h in
    (right_false taken (not_raised _ corrupt_reference free), ok_injective h₁)

new_attempt_valid :
    (offer : Offer) (number now expires : ℕ)
    → lease_expiry now ≡ ok expires
    → validate_row (new_attempt offer number now expires) ≡ true
unfolding validate_row
new_attempt_valid offer number now expires h = rw (lease_length now expires h) refl

write_claim-IsValid :
    {D : String → Type 0} (offer : Offer) (now expires : ℕ) (after rows : Rows)
    → D offer.credential_sha256 × D offer.renewal_sha256
    → IsValid D rows
    → any has_success rows ≡ false
    → is_running now (get_last? rows) ≡ false
    → lease_expiry now ≡ ok expires
    → write_claim offer now expires rows ≡ ok after
    → IsValid D after
unfolding write_claim
write_claim-IsValid offer now expires after rows digests v n r x h =
    let (recovered, by, h₁) = >>=-eq-ok (recover_last now (get_last? rows) rows) _ h in
    let (valid, same, free) =
      recover_last_cases (get_last? rows) now recovered rows v refl n r by in
    elim (Bool-cases (leb (suc (length rows)) attempts_per_generation)) [
      | inl room ↦ elim (Bool-cases (last_settled_later now (get_last? rows))) [
        | inl late ↦ let h₂ : problem invalid_clock ≡ ok after = rw (room, late) at h₁ in cc
        | inr early ↦
            let h₂ : insert_attempt offer.taken new recovered ≡ ok after = rw (room, early) at h₁ in
            let (unique, form) = inserted offer.taken new recovered after h₂ in
            let count : suc (length rows) ≤ 2 = leb→le (suc (length rows)) 2 room in
            subst (IsValid _) form (
              append-IsValid new recovered digests unique (ap suc (sym same))
                (omega (arith, count, same)) (free early)
                (new_attempt_valid offer (suc (length rows)) now expires x) valid)
      ]
      | inr full ↦
          let h₂ : ok recovered ≡ ok after = rw full at h₁ in
          subst (IsValid _) (ok_injective h₂) valid
    ]
  where
    new : AttemptRow
    new = new_attempt offer (suc (length rows)) now expires

pub claim-IsValid :
    {D : String → Type 0} (offer : Offer) (clock : Clock) (rows : Rows)
    → D offer.credential_sha256 × D offer.renewal_sha256
    → IsValid D rows
    → IsValid D (claim offer clock rows).0
unfolding claim claim_transaction
claim-IsValid offer clock rows digests v =
    commit-IsValid rows (claim_transaction offer clock rows) v (λ after number h.
      let (_, _, h₁) = >>=-eq-ok (raise_some offer.facts) _ h in
      let (existing, read, h₂) = >>=-eq-ok (read_attempts rows) _ h₁ in
      let v' : IsValid _ existing = subst (IsValid _) (sym (read_same rows existing read)) v in
      let (now, _, h₃) = >>=-eq-ok (utc_now clock) _ h₂ in
      let (expires, lease, h₄) = >>=-eq-ok (lease_expiry now) _ h₃ in
      let (_, first, h₅) =
        >>=-eq-ok (raise_if (offer.elsewhere || any has_success existing) already_succeeded) _ h₄ in
      let (_, idle, h₆) =
        >>=-eq-ok (raise_if (is_running now (get_last? existing)) task_running) _ h₅ in
      let (_, _, h₇) =
        >>=-eq-ok
          (raise_some (
            if leb (suc (length existing)) attempts_per_generation
            then offer.preclaim existing
            else none))
          _ h₆ in
      let (written, write, h₈) = >>=-eq-ok (write_claim offer now expires existing) _ h₇ in
      let same : written ≡ after = ap (λ (x : Rows × ℕ). x.0) (ok_injective h₈) in
      subst (IsValid _) same (
        write_claim-IsValid offer now expires written existing digests v'
          (right_false offer.elsewhere (not_raised _ already_succeeded first))
          (not_raised _ task_running idle) lease write))
