-- ===== src/Tasks/Tests.antt =====
-- screening_tasks/: a task whose first attempt expires and whose second one succeeds.
use paper_radar.Prelude.{
  Bool, List, Option, String, [], all, false, map, none, refl, some, true, ◌*◌, ◌∷◌, ◌≡◌,
}
use paper_radar.Prelude.Int.{pos}
use paper_radar.Prelude.Results.{ok, problem}
use paper_radar.Tasks.Ledger.{
  FailureKind, Rows, corrupt_reference, has_success, numbered, outcome_unknown, read_attempts,
  replace_last, settled_but_last, task_running,
}
use paper_radar.Tasks.Rules.{
  Clock, TaskStatus, derive_status, kind_of, last_status, lease_expired, lease_expiry, utc_now,
}
use paper_radar.Tasks.Service.{
  Offer, claim, claim_transaction, has_digest, insert_attempt, is_running, recover_attempt,
  recover_last, write_claim,
}
use paper_radar.Tasks.Settlement.{
  Holder, Submission, credential_attempt, find_attempt, matching, precheck, settle,
  submit_transaction, write_success,
}
use paper_radar.Tasks.Integrity.{
  is_digest, validate_digests, validate_failure, validate_order, validate_pairs, validate_row,
}
use paper_radar.Tasks.Integrity.History.{
  Offers, Reachable, Reachable-validate_rows, claim_by, perform, performed, registered, submit_by,
}
use paper_radar.Tasks.Integrity.Replaced.{AreDigests}
use paper_radar.Tasks.Claimable.{claim_claimable, is_claimable}
use paper_radar.Tasks.Claims.{IsClaimed, Reachable-read_attempts, claim-IsClaimed}

abbrev digest_one : String
digest_one = "0123456789abcdef0123456789abcdef0123456789abcdef0123456789abcdef"

abbrev digest_two : String
digest_two = "fedcba9876543210fedcba9876543210fedcba9876543210fedcba9876543210"

abbrev offer_with : String → Offer
offer_with secret = record {
  receipt_id = "r1";
  facts = none;
  elsewhere = false;
  preclaim = λ rows. none;
  taken = false;
  credential_sha256 = secret;
  renewal_sha256 = secret;
}

abbrev answer : Submission
answer = record {
  submission_sha256 = "a1";
  verdict = matching;
  audit = none;
  success_id = "s1";
  elsewhere = false;
}

abbrev second : Holder
second = record { attempt_no = 2; credential_sha256 = digest_two }

abbrev late : Clock
late = some (700 * 1000000)

abbrev first_claim : Rows
first_claim = perform (claim_by (offer_with digest_one)) (some 5) []

abbrev second_claim : Rows
second_claim = perform (claim_by (offer_with digest_two)) late first_claim

abbrev submitted : Rows
submitted = perform (submit_by second answer) late second_claim

first-Reachable : Reachable first_claim
first-Reachable = performed (claim_by (offer_with digest_one)) (some 5) [] registered

submitted-Reachable : Reachable submitted
submitted-Reachable =
    performed (submit_by second answer) late second_claim
      (performed (claim_by (offer_with digest_two)) late first_claim first-Reachable)

abbrev outcomes : Rows → List (Option FailureKind × Bool)
outcomes = map (λ row. (kind_of row.failure, has_success row))

program : Unit {0}
unfolding claim claim_transaction write_claim insert_attempt has_digest recover_last is_running
    recover_attempt utc_now lease_expiry read_attempts numbered settled_but_last replace_last
    submit_transaction precheck credential_attempt find_attempt settle write_success perform
    derive_status last_status validate_row validate_failure validate_pairs
program = tt

outcomes_of_task : outcomes submitted ≡ (some outcome_unknown, false) ∷ (none, true) ∷ []
unfolding program
outcomes_of_task = refl

-- While the first attempt runs, no other claim is answered.
claim_refused : (claim (offer_with digest_two) (some 6) first_claim).1 ≡ problem task_running
unfolding program
claim_refused = refl

claim_answered : (claim (offer_with digest_two) late first_claim).1 ≡ ok 2
unfolding program
claim_answered = refl

-- A digest that is there already is not inserted again.
claim_repeated : (claim (offer_with digest_one) late first_claim).1 ≡ problem corrupt_reference
unfolding program
claim_repeated = refl

digests_formed : Offers AreDigests submitted submitted-Reachable
unfolding is_digest first-Reachable submitted-Reachable
digests_formed = (tt, ((refl, refl), ((refl, refl), tt)))

Reachable-validate_rows_example :
    (validate_digests [] [] submitted ≡ true)
    × (all validate_row submitted ≡ true)
    × (validate_order submitted ≡ true)
Reachable-validate_rows_example =
    Reachable-validate_rows submitted submitted-Reachable digests_formed

Reachable-read_attempts_example : read_attempts submitted ≡ ok submitted
Reachable-read_attempts_example = Reachable-read_attempts submitted submitted-Reachable

claim-IsClaimed_example :
    IsClaimed late first_claim (claim (offer_with digest_two) late first_claim).0 2
claim-IsClaimed_example =
    claim-IsClaimed (offer_with digest_two) late first_claim 2 first-Reachable claim_answered

abbrev expired_status : TaskStatus
expired_status = record {
  state = lease_expired;
  used_attempts = 1;
  remaining_attempts = pos 1;
  last_failure = none;
}

status_before : derive_status first_claim (700 * 1000000) ≡ ok expired_status
unfolding program
status_before = refl

claim_claimable_example : is_claimable lease_expired ≡ true
claim_claimable_example =
    claim_claimable (offer_with digest_two) (700 * 1000000) first_claim 2 expired_status
      claim_answered status_before
