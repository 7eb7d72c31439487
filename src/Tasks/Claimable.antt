-- ===== src/Tasks/Claimable.antt =====
-- screening_tasks/execution.py: the states in which a task can be claimed.
use paper_radar.Prelude.{
  Bool, Option, any, ap, arith, false, get_last?, if◌then◌else◌, leb, leb→le, length, none, refl,
  some, subst, suc, sym, true, ℕ, ◌||◌, ◌≡◌, ◌≤◌,
}
use paper_radar.Prelude.Results.{>>=-eq-ok, ok, ok_injective, problem, raise_if, ◌>>=◌}
use paper_radar.Tasks.Ledger.{
  AttemptRow, Rows, TaskResult, already_succeeded, attempts_per_generation, budget_exhausted,
  has_success, read_attempts, task_running,
}
use paper_radar.Tasks.Rules.{
  TaskState, TaskStatus, derive_status, last_status, lease_expired, lease_expiry, ready, retryable,
  status, utc_now,
}
use paper_radar.Tasks.Service.{
  Offer, claim, claim_transaction, commit, is_running, raise_some, write_claim,
}
use paper_radar.Tasks.Integrity.Replaced.{last_without}
use paper_radar.Tasks.Integrity.Kept.{not_raised, read_same, right_false}
use paper_radar.Tasks.Claims.{answered}

-- Neither running nor at an end.
abbrev pub is_claimable : TaskState → Bool
is_claimable ready = true
is_claimable retryable = true
is_claimable lease_expired = true
is_claimable _ = false

last_claimable :
    (now : ℕ) (row : AttemptRow) (rows : Rows) (s : TaskStatus)
    → row.success ≡ none
    → is_running now (some row) ≡ false
    → suc (length rows) ≤ 2
    → last_status rows now row ≡ ok s
    → is_claimable s.state ≡ true
unfolding last_status is_running
last_claimable now row rows s n r b h = ground arith

state_claimable :
    (now : ℕ) (rows : Rows) (s : TaskStatus) (o : Option AttemptRow)
    → get_last? rows ≡ o
    → any has_success rows ≡ false
    → is_running now o ≡ false
    → suc (length rows) ≤ 2
    → derive_status rows now ≡ ok s
    → is_claimable s.state ≡ true
unfolding derive_status
state_claimable now rows s none l n r b h =
    let h' : ok (status ready rows none) ≡ ok s = rw (derive_status, l) at h in
    ap (λ (t : TaskStatus). is_claimable t.state) (sym (ok_injective h'))
state_claimable now rows s (some row) l n r b h =
    let h' : last_status rows now row ≡ ok s = rw (derive_status, l) at h in
    last_claimable now row rows s (last_without rows row n l) r b h'

transaction_claimable :
    (offer : Offer) (now : ℕ) (rows after : Rows) (number : ℕ) (s : TaskStatus)
    → claim_transaction offer (some now) rows ≡ ok (after, number)
    → leb number attempts_per_generation ≡ true
    → derive_status rows now ≡ ok s
    → is_claimable s.state ≡ true
unfolding claim_transaction utc_now
transaction_claimable offer now rows after number s h room known =
    let (_, _, h₁) = >>=-eq-ok (raise_some offer.facts) _ h in
    let (existing, read, h₂) = >>=-eq-ok (read_attempts rows) _ h₁ in
    let same : existing ≡ rows = read_same rows existing read in
    let (expires, lease, h₄) = >>=-eq-ok (lease_expiry now) _ h₂ in
    let (_, first, h₅) =
      >>=-eq-ok (raise_if (offer.elsewhere || any has_success existing) already_succeeded) _ h₄ in
    let (_, idle, h₆) =
      >>=-eq-ok (raise_if (is_running now (get_last? existing)) task_running) _ h₅ in
    let (_, _, h₇) =
      >>=-eq-ok
        (raise_some (
          if leb (suc (length existing)) attempts_per_generation
          then offer.preclaim existing
          else none))
        _ h₆ in
    let (written, _, h₈) = >>=-eq-ok (write_claim offer now expires existing) _ h₇ in
    let count : suc (length existing) ≡ number = ap (λ (x : Rows × ℕ). x.1) (ok_injective h₈) in
    state_claimable now existing s (get_last? existing) refl
      (right_false offer.elsewhere (not_raised _ already_succeeded first))
      (not_raised _ task_running idle) (rw count (leb→le number 2 room))
      (subst (λ r. derive_status r now ≡ ok s) (sym same) known)

-- A claim is answered only for a task that at the time of the claim is ready, may be tried again, or
-- has an expired attempt: never for one that runs, has failed or has succeeded.
pub claim_claimable :
    (offer : Offer) (now : ℕ) (rows : Rows) (number : ℕ) (s : TaskStatus)
    → (claim offer (some now) rows).1 ≡ ok number
    → derive_status rows now ≡ ok s
    → is_claimable s.state ≡ true
unfolding claim
claim_claimable offer now rows number s h known =
    of_answer (claim_transaction offer (some now) rows) refl h
  where
    of_answer :
        (t : TaskResult (Rows × ℕ))
        → claim_transaction offer (some now) rows ≡ t
        → ((commit rows t).1 >>= λ n.
            if leb n attempts_per_generation then ok n else problem budget_exhausted)
          ≡ ok number
        → is_claimable s.state ≡ true
    of_answer (problem reason) e h = cc
    of_answer (ok (after, n)) e h =
        transaction_claimable offer now rows after n s e
          (answered (leb n attempts_per_generation) n number h).0 known
