-- ===== src/Tasks/Claims.antt =====
-- screening_tasks/execution.py: what a claim gives, and that the attempts can always be read.
use paper_radar.Prelude.{
  All, Bool, Bool-cases, Option, String, [], and_first, and_second, any, ap, arith, false,
  get_last?, if◌then◌else◌, inl, inr, is_none, is_some, leb, leb→le, length, length-append, ltb,
  none, not, refl, some, subst, suc, sym, true, ℕ, ◌&&◌, ◌++◌, ◌+◌, ◌||◌, ◌∙◌, ◌∷◌, ◌≡◌, ◌≤◌,
}
use paper_radar.Prelude.Results.{>>=-eq-ok, ok, ok_injective, problem, raise_if, ◌>>=◌}
use paper_radar.Tasks.Ledger.{
  AttemptRow, Failure, Rows, TaskResult, already_succeeded, attempts_per_generation,
  budget_exhausted, has_success, invalid_clock, read_attempts, settled_but_last, task_running,
}
use paper_radar.Tasks.Rules.{
  Clock, TaskStatus, derive_status, last_status, lease_expiry, previous_kind, running, status,
  utc_now,
}
use paper_radar.Tasks.Service.{
  Offer, claim, claim_transaction, commit, insert_attempt, is_running, last_settled_later,
  new_attempt, raise_some, recover_last, write_claim,
}
use paper_radar.Tasks.Integrity.{settled_by, validate_pairs, validate_row, validate_times}
use paper_radar.Tasks.Integrity.Replaced.{IsValid}
use paper_radar.Tasks.Integrity.Kept.{
  inserted, not_raised, read_same, recover_last_cases, right_false,
}
use paper_radar.Tasks.Integrity.History.{Offers-any, Reachable, Reachable-IsValid}

has_lease : (row : AttemptRow) → validate_row row ≡ true → is_none row.expires_at ≡ false
unfolding validate_row
has_lease row v =
    go row.claimed_at row.failure row.expires_at
      (and_second (not (is_some row.success && is_some row.failure)) _ v)
  where
    go :
        (c : ℕ) (f : Option Failure) (e : Option ℕ)
        → validate_times c f e ≡ true
        → is_none e ≡ false
    go c f none v = cc
    go c f (some e) v = refl

not_both :
    (row : AttemptRow) → validate_row row ≡ true → (has_success row && is_some row.failure) ≡ false
unfolding validate_row
not_both row v = not_true _ (and_first (not (is_some row.success && is_some row.failure)) _ v)
  where
    not_true : (b : Bool) → not b ≡ true → b ≡ false
    not_true true h = cc
    not_true false h = refl

none_of :
    (p : AttemptRow → Bool) (rows : Rows)
    → ((row : AttemptRow) → validate_row row ≡ true → p row ≡ false)
    → All (λ row. validate_row row ≡ true) rows
    → any p rows ≡ false
none_of p [] k a = refl
none_of p (row ∷ rows) k a = rw (k row a.0, none_of p rows k a.1)

settled_of : (claimed : ℕ) (f : Option Failure) → settled_by claimed f ≡ true → is_some f ≡ true
settled_of claimed none h = cc
settled_of claimed (some f) h = refl

pairs_settled : (rows : Rows) → validate_pairs rows ≡ true → settled_but_last rows ≡ true
unfolding validate_pairs settled_but_last
pairs_settled [] h = refl
pairs_settled (row ∷ []) h = refl
pairs_settled (row ∷ next ∷ rows) h =
    let rest =
      pairs_settled (next ∷ rows) (and_second (settled_by next.claimed_at row.failure) _ h) in
    rw
      (settled_of next.claimed_at row.failure
        (and_first (settled_by next.claimed_at row.failure) _ h))
      rest

-- Whatever operations a task has seen, its attempts can be read.
pub Reachable-read_attempts : (rows : Rows) → Reachable rows → read_attempts rows ≡ ok rows
unfolding read_attempts
Reachable-read_attempts rows r =
    let v = Reachable-IsValid rows r (Offers-any rows r) in
    rw
      (
        none_of (λ row. is_none row.expires_at) rows has_lease v.each,
        none_of (λ row. has_success row && is_some row.failure) rows not_both v.each,
        v.counted,
        pairs_settled rows v.ordered,
        within (length rows) v.bounded,
      )
      refl
  where
    within : (n : ℕ) → n ≤ 2 → ltb 2 n ≡ false
    within n b = ground arith

last-append : (rows : Rows) (new : AttemptRow) → get_last? (rows ++ new ∷ []) ≡ some new
last-append [] new = refl
last-append (row ∷ []) new = refl
last-append (row ∷ next ∷ rows) new = last-append (next ∷ rows) new

-- A claim has been answered: the attempt is one more than before, and runs.
pub record IsClaimed (clock : Clock) (before after : Rows) (number : ℕ) : Type 0 where
  pub now : ℕ
  pub at_time : clock ≡ some now
  pub next : number ≡ suc (length before)
  pub within : number ≤ 2
  pub result : TaskStatus
  pub known : derive_status after now ≡ ok result
  pub is_run : result.state ≡ running
  pub used : result.used_attempts ≡ number

Unexpired : ℕ → ℕ → Type 0
Unexpired now expires = leb expires now ≡ false

last_runs :
    (now : ℕ) (rows : Rows) (new : AttemptRow) (expires : ℕ)
    → new.success ≡ none
    → new.failure ≡ none
    → new.expires_at ≡ some expires
    → Unexpired now expires
    → last_status rows now new ≡ ok (status running rows (previous_kind rows))
unfolding last_status Unexpired
last_runs now rows new expires s f e u = rw (s, f, e, u) refl

running_status :
    (now : ℕ) (rows : Rows) (new : AttemptRow) (expires : ℕ)
    → new.success ≡ none
    → new.failure ≡ none
    → new.expires_at ≡ some expires
    → Unexpired now expires
    → (result : TaskStatus) × (derive_status (rows ++ new ∷ []) now ≡ ok result)
      × (result.state ≡ running)
      × (result.used_attempts ≡ length (rows ++ new ∷ []))
unfolding derive_status
running_status now rows new expires s f e u =
    let all_rows : Rows = rows ++ new ∷ [] in
    (
      status running all_rows (previous_kind all_rows),
      rw (derive_status, last-append rows new) (last_runs now all_rows new expires s f e u),
      refl,
      refl,
    )

pub answered :
    (b : Bool) (number n : ℕ)
    → (if b then ok number else problem budget_exhausted) ≡ ok n
    → (b ≡ true) × (number ≡ n)
answered true number n h = (refl, ok_injective h)
answered false number n h = cc

written_claim :
    {D : String → Type 0} (offer : Offer) (now expires : ℕ) (after rows : Rows)
    → IsValid D rows
    → any has_success rows ≡ false
    → is_running now (get_last? rows) ≡ false
    → leb (suc (length rows)) attempts_per_generation ≡ true
    → write_claim offer now expires rows ≡ ok after
    → (recovered : Rows) × (length recovered ≡ length rows)
      × (after ≡ recovered ++ new_attempt offer (suc (length rows)) now expires ∷ [])
unfolding write_claim
written_claim offer now expires after rows v n r room h =
    let (recovered, by, h₁) = >>=-eq-ok (recover_last now (get_last? rows) rows) _ h in
    let (_, same, _) = recover_last_cases (get_last? rows) now recovered rows v refl n r by in
    elim (Bool-cases (last_settled_later now (get_last? rows))) [
      | inl late ↦ let h₂ : problem invalid_clock ≡ ok after = rw (room, late) at h₁ in cc
      | inr early ↦
          let new = new_attempt offer (suc (length rows)) now expires in
          let h₂ : insert_attempt offer.taken new recovered ≡ ok after = rw (room, early) at h₁ in
          (recovered, same, sym (inserted offer.taken new recovered after h₂).1)
    ]

not_expired : (now expires : ℕ) → lease_expiry now ≡ ok expires → Unexpired now expires
unfolding lease_expiry Unexpired
not_expired now expires h = ground arith

-- The transaction of a claim, where the budget has room for its number.
claim_transaction-IsClaimed :
    {D : String → Type 0} (offer : Offer) (clock : Clock) (rows after : Rows) (n : ℕ)
    → IsValid D rows
    → claim_transaction offer clock rows ≡ ok (after, n)
    → leb n attempts_per_generation ≡ true
    → IsClaimed clock rows after n
unfolding claim_transaction utc_now
claim_transaction-IsClaimed offer clock rows after n v h room =
    let (_, _, h₁) = >>=-eq-ok (raise_some offer.facts) _ h in
    let (existing, read, h₂) = >>=-eq-ok (read_attempts rows) _ h₁ in
    let same : existing ≡ rows = read_same rows existing read in
    let v' : IsValid _ existing = subst (IsValid _) (sym same) v in
    let (now, clocked, h₃) = >>=-eq-ok (utc_now clock) _ h₂ in
    let (expires, lease, h₄) = >>=-eq-ok (lease_expiry now) _ h₃ in
    let (_, first, h₅) =
      >>=-eq-ok (raise_if (offer.elsewhere || any has_success existing) already_succeeded) _ h₄ in
    let (_, idle, h₆) =
      >>=-eq-ok (raise_if (is_running now (get_last? existing)) task_running) _ h₅ in
    let (_, _, h₇) =
      >>=-eq-ok
        (raise_some (
          if leb (suc (length existing)) attempts_per_generation
          then offer.preclaim existing
          else none))
        _ h₆ in
    let (written, write, h₈) = >>=-eq-ok (write_claim offer now expires existing) _ h₇ in
    let (end, number) = both written (suc (length existing)) after n (ok_injective h₈) in
    let room' : leb (suc (length existing)) attempts_per_generation ≡ true = rw number room in
    let (recovered, long, form) =
      written_claim offer now expires written existing v'
        (right_false offer.elsewhere (not_raised _ already_succeeded first))
        (not_raised _ task_running idle) room' write in
    let new : AttemptRow = new_attempt offer (suc (length existing)) now expires in
    let (result, known, run, used) =
      running_status now recovered new expires refl refl refl (not_expired now expires lease) in
    record {
      now = now;
      at_time = at_clock clock now clocked;
      next = sym number ∙ ap (λ (r : Rows). suc (length r)) same;
      within = leb→le n 2 room;
      result = result;
      known = subst (λ r. derive_status r now ≡ ok result) (sym form ∙ end) known;
      is_run = run;
      used =
          used
          ∙ length-append recovered (new ∷ [])
          ∙ plus_one (length recovered) (length existing) long
          ∙ number;
    }
  where
    both :
        (a : Rows) (k : ℕ) (b : Rows) (m : ℕ) → ◌≡◌ {A = Rows × ℕ} (a, k) (b, m) → (a ≡ b) × (k ≡ m)
    both a k b m e = (ap (λ (x : Rows × ℕ). x.0) e, ap (λ (x : Rows × ℕ). x.1) e)

    at_clock : (c : Clock) (now : ℕ) → utc_now c ≡ ok now → c ≡ some now
    at_clock none now e = cc
    at_clock (some t) now e = ap some (ok_injective e)

    plus_one : (a b : ℕ) → a ≡ b → a + 1 ≡ suc b
    plus_one a b e = omega (arith, e)

-- A claim that is answered, after any operations that the task has seen, gives it one attempt more, at
-- most the second, and at the time of the claim this attempt runs.
pub claim-IsClaimed :
    (offer : Offer) (clock : Clock) (rows : Rows) (number : ℕ)
    → Reachable rows
    → (claim offer clock rows).1 ≡ ok number
    → IsClaimed clock rows (claim offer clock rows).0 number
unfolding claim
claim-IsClaimed offer clock rows number r h = of_answer (claim_transaction offer clock rows) refl h
  where
    of_answer :
        (t : TaskResult (Rows × ℕ))
        → claim_transaction offer clock rows ≡ t
        → ((commit rows t).1 >>= λ n.
            if leb n attempts_per_generation then ok n else problem budget_exhausted)
          ≡ ok number
        → IsClaimed clock rows (commit rows t).0 number
    of_answer (problem reason) e h = cc
    of_answer (ok (after, n)) e h =
        let (room, same) = answered (leb n attempts_per_generation) n number h in
        subst (IsClaimed clock rows after) same (
          claim_transaction-IsClaimed offer clock rows after n
            (Reachable-IsValid rows r (Offers-any rows r)) e room)
