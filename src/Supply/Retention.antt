-- ===== src/Supply/Retention.antt =====
-- pi_supply/retention.py, with the records of models.py: which installs a cleanup must not remove, and
-- why. Of the records, the fields that the rules read.
pub mod Latest
pub mod Protected
use paper_radar.Prelude.{
  Bool, List, Option, String, [], any, get_last?, if◌then◌else◌, keep, ltb, map, none, not, reverse,
  some, str_eq, take, when, ℕ, ◌&&◌, ◌++◌, ◌==◌, ◌||◌, ◌∷◌,
}
use paper_radar.Prelude.Int.{eqb_ℤ, ltb_ℤ, ℤ}
use paper_radar.Prelude.Text.{opt_is, text_leb}

pub record InstallCheck : Type 0 where
  pub check_id : ℕ
  pub scope : String
  pub is_passed : Bool
  pub created_at : String

pub record InstallInstance : Type 0 where
  pub install_id : String
  pub checks : List InstallCheck

pub record SupplyRecord : Type 0 where
  pub installs : List InstallInstance

pub record Activation : Type 0 where
  pub install_id : String

pub data ProtectionReason : Type 0 where
  current_install recent_activation latest_install_check : ProtectionReason
  latest_rpc_compatibility in_flight protection_unknown : ProtectionReason

pub data Observation : Type 0 where
  idle in_flight unknown : Observation

pub record RetentionProtection : Type 0 where
  pub retained_install_ids : List String
  pub acceptance_install_ids : List String

-- `tuple(dict.fromkeys(xs))`
unfoldable pub distinct : List String → List String
distinct [] = []
distinct (x ∷ xs) = x ∷ keep (λ y. not (str_eq x y)) (distinct xs)

abbrev pub has_text : String → List String → Bool
has_text x xs = any (str_eq x) xs

abbrev pub ids_of : List Activation → List String
ids_of history = map (λ (a : Activation). a.install_id) history

-- The first part of `_retention_facts`.
unfoldable pub retained_of : List Activation → List String
retained_of history = take 4 (distinct (ids_of (reverse history)))

-- The tuple that is compared.
pub record CheckCandidate : Type 0 where
  pub time : ℤ
  pub check_id : ℕ
  pub install_id : String

unfoldable pub candidate_leb : CheckCandidate → CheckCandidate → Bool
candidate_leb a b =
    ltb_ℤ a.time b.time
    || (eqb_ℤ a.time b.time
        && (ltb a.check_id b.check_id
            || ((a.check_id == b.check_id) && text_leb a.install_id b.install_id)))

-- The dictionary `latest`, as pairs of distinct scopes.
abbrev pub Latest : Type 0
Latest = List (String × CheckCandidate)

unfoldable pub get_scope : String → Latest → Option CheckCandidate
get_scope scope [] = none
get_scope scope ((key, c) ∷ rest) =
    let later = get_scope scope rest in if str_eq key scope then some c else later

unfoldable pub set_scope : String → CheckCandidate → Latest → Latest
set_scope scope c [] = (scope, c) ∷ []
set_scope scope c ((key, d) ∷ rest) =
    let later = set_scope scope c rest in
    if str_eq key scope then (key, c) ∷ rest else (key, d) ∷ later

-- `if check.scope not in latest or candidate > latest[check.scope]`
unfoldable pub add_over : Option CheckCandidate → String → CheckCandidate → Latest → Latest
add_over none scope c latest = set_scope scope c latest
add_over (some d) scope c latest = if candidate_leb c d then latest else set_scope scope c latest

abbrev pub add_candidate : String → CheckCandidate → Latest → Latest
add_candidate scope c latest = add_over (get_scope scope latest) scope c latest

-- `candidate[2]`
abbrev pub install_of : Option CheckCandidate → Option String
install_of none = none
install_of (some c) = some c.install_id

-- `_SCOPE_REASONS`
abbrev pub scope_reasons : List (String × ProtectionReason)
scope_reasons =
    ("install_check", latest_install_check) ∷ ("rpc_compatibility", latest_rpc_compatibility) ∷ []

unfoldable pub acceptance_of :
    (String → Option String) → List (String × ProtectionReason) → List String
acceptance_of latest [] = []
acceptance_of latest ((scope, reason) ∷ rest) =
    elim (latest scope) [ none ↦ [] | some i ↦ i ∷ [] ] ++ acceptance_of latest rest

unfoldable pub activation_reasons : List Activation → String → List ProtectionReason
activation_reasons history identity = when (has_text identity (retained_of history)) (
    if opt_is (elim (get_last? history) [ none ↦ none | some a ↦ some a.install_id ]) identity
    then current_install
    else recent_activation)

unfoldable pub check_reasons :
    (String → Option String) → String → List (String × ProtectionReason) → List ProtectionReason
check_reasons latest identity [] = []
check_reasons latest identity ((scope, reason) ∷ rest) =
    when (opt_is (latest scope) identity) reason ++ check_reasons latest identity rest

abbrev pub observation_reasons : Option Observation → List ProtectionReason
observation_reasons (some Observation.in_flight) = ProtectionReason.in_flight ∷ []
observation_reasons (some Observation.unknown) = protection_unknown ∷ []
observation_reasons _ = []

-- The dictionary of `protection_reasons`, as the assignments that build it, the last one first.
unfoldable pub reasons_of_installs :
    (String → List ProtectionReason)
    → List InstallInstance
    → List (String × List ProtectionReason)
    → List (String × List ProtectionReason)
reasons_of_installs reasons [] result = result
reasons_of_installs reasons (i ∷ is) result =
    reasons_of_installs reasons is ((i.install_id, reasons i.install_id) ∷ result)

unfoldable pub reasons_of_records :
    (String → List ProtectionReason)
    → List SupplyRecord
    → List (String × List ProtectionReason)
    → List (String × List ProtectionReason)
reasons_of_records reasons [] result = result
reasons_of_records reasons (r ∷ rs) result =
    reasons_of_records reasons rs (reasons_of_installs reasons r.installs result)

-- The dictionary read at a key.
unfoldable pub get_reasons :
    String → List (String × List ProtectionReason) → Option (List ProtectionReason)
get_reasons identity [] = none
get_reasons identity ((key, reasons) ∷ rest) =
    let later = get_reasons identity rest in if str_eq key identity then some reasons else later

module _ (fromisoformat : String → ℤ) where
  abbrev pub candidate_of : InstallInstance → InstallCheck → CheckCandidate
  candidate_of instance_one check = record {
    time = fromisoformat check.created_at;
    check_id = check.check_id;
    install_id = instance_one.install_id;
  }

  unfoldable pub add_checks : InstallInstance → List InstallCheck → Latest → Latest
  add_checks i [] latest = latest
  add_checks i (check ∷ checks) latest =
      add_checks i checks (
        if check.is_passed then add_candidate check.scope (candidate_of i check) latest else latest)

  unfoldable pub add_installs : List InstallInstance → Latest → Latest
  add_installs [] latest = latest
  add_installs (i ∷ is) latest = add_installs is (add_checks i i.checks latest)

  unfoldable pub add_records : List SupplyRecord → Latest → Latest
  add_records [] latest = latest
  add_records (r ∷ rs) latest = add_records rs (add_installs r.installs latest)

  -- The second part of `_retention_facts`: the install of the latest passed check of a scope.
  unfoldable pub latest_of : List SupplyRecord → String → Option String
  latest_of records scope = install_of (get_scope scope (add_records records []))

  unfoldable pub retention_protection : List SupplyRecord → List Activation → RetentionProtection
  retention_protection records history = record {
    retained_install_ids = retained_of history;
    acceptance_install_ids = distinct (acceptance_of (latest_of records) scope_reasons);
  }

  -- The reasons of one install, in the order in which the source appends them.
  unfoldable pub reasons_of :
      List SupplyRecord
      → List Activation
      → (String → Option Observation)
      → String
      → List ProtectionReason
  reasons_of records history observations identity =
      activation_reasons history identity
      ++ check_reasons (latest_of records) identity scope_reasons
      ++ observation_reasons (observations identity)

  unfoldable pub protection_reasons :
      List SupplyRecord
      → List Activation
      → (String → Option Observation)
      → List (String × List ProtectionReason)
  protection_reasons records history observations =
      reasons_of_records (reasons_of records history observations) records []
