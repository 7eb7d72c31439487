-- ===== src/Supply/Tests.antt =====
-- pi_supply/retention.py: five activated installs, of which the first has no protection.
use paper_radar.Prelude.{
  Bool, List, Option, String, [], false, length, ltb, refl, reverse, some, true, ℕ, ◌↔◌, ◌∷◌, ◌≡◌,
  ◌≢◌,
}
use paper_radar.Prelude.Int.{pos, ℤ}
use paper_radar.Prelude.Text.{codes}
use paper_radar.Supply.Retention.{
  Activation, CheckCandidate, InstallCheck, Observation, SupplyRecord, activation_reasons,
  add_checks, add_installs, add_over, add_records, candidate_leb, check_reasons, current_install,
  distinct, get_reasons, get_scope, has_text, ids_of, install_of, latest_install_check, latest_of,
  protection_reasons, reasons_of, reasons_of_installs, reasons_of_records, retained_of,
  retention_protection, set_scope,
}
use paper_radar.Supply.Retention.Latest.{IsLatest, latest_of-IsLatest, passed_checks}
use paper_radar.Supply.Retention.Protected.{
  is_registered, protection_reasons-nil_iff, retained_of-since,
}

-- The time of a stored text; here its length.
abbrev time_of : String → ℤ
time_of s = pos (length (codes s))

abbrev check_of : ℕ → Bool → String → InstallCheck
check_of n is_passed at = record {
  check_id = n;
  scope = "install_check";
  is_passed = is_passed;
  created_at = at;
}

abbrev records : List SupplyRecord
records =
    record {
      installs =
          record { install_id = "a"; checks = check_of 1 true "1" ∷ [] }
          ∷ record { install_id = "e"; checks = check_of 2 true "12" ∷ check_of 3 false "123" ∷ [] }
          ∷ [];
    }
    ∷ []

abbrev activated : String → Activation
activated i = record { install_id = i }

abbrev newer : List Activation
newer = activated "b" ∷ activated "c" ∷ activated "b" ∷ activated "d" ∷ activated "e" ∷ []

abbrev history : List Activation
history = activated "a" ∷ newer

abbrev observations : String → Option Observation
observations i = some Observation.idle

protection_reasons_test :
    protection_reasons time_of records history observations
    ≡ ("e", current_install ∷ latest_install_check ∷ []) ∷ ("a", []) ∷ []
unfolding protection_reasons reasons_of_records reasons_of_installs reasons_of activation_reasons
    check_reasons latest_of retained_of distinct add_records add_installs add_checks add_over
    set_scope get_scope candidate_leb
protection_reasons_test = refl

retained_of-since_example :
    has_text "a" (retained_of history) ≡ ltb (length (distinct (ids_of (reverse newer)))) 4
retained_of-since_example = retained_of-since [] newer (activated "a") refl

protection_reasons-nil_iff_example :
    (get_reasons "a" (protection_reasons time_of records history observations) ≡ some []) ↔ (
      (is_registered "a" records ≡ true)
      × (has_text "a" (retention_protection time_of records history).retained_install_ids ≡ false)
      × (has_text "a" (retention_protection time_of records history).acceptance_install_ids ≡ false)
      × (observations "a" ≢ some Observation.in_flight)
      × (observations "a" ≢ some Observation.unknown))
protection_reasons-nil_iff_example =
    protection_reasons-nil_iff time_of records history observations "a"

latest_of-IsLatest_example :
    (o : Option CheckCandidate) × IsLatest (passed_checks time_of records) "install_check" o
    × (latest_of time_of records "install_check" ≡ install_of o)
latest_of-IsLatest_example = latest_of-IsLatest time_of records "install_check"
