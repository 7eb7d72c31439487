-- ===== src/Calibration.antt =====
-- calibration/visibility.py: what a hidden paper may show, by capability.
use paper_radar.Prelude.{Bool, true, false, List, is_nil, any, if◌then◌else◌}

pub data HiddenCondition : Type 0 where
  waiting_calibration unrevealed : HiddenCondition

pub data VisibilityCapability : Type 0 where
  paper_facts task_details agent_content set_decision : VisibilityCapability
  reading_request calibration_review : VisibilityCapability

pub data VisibilityPermission : Type 0 where
  allowed denied dedicated_path : VisibilityPermission

-- The frozen set of conditions is a list, read by membership and emptiness only.
pub record Visibility : Type 0 where
  pub hidden_conditions : List HiddenCondition

unfoldable pub permission : Visibility → VisibilityCapability → VisibilityPermission
permission v paper_facts = allowed
permission v task_details = allowed
permission v calibration_review = dedicated_path
permission v _ = if is_nil v.hidden_conditions then allowed else denied

unfoldable pub evaluate_visibility : List HiddenCondition → Visibility
evaluate_visibility hidden_conditions = record { hidden_conditions = hidden_conditions }

abbrev pub is_waiting_calibration : HiddenCondition → Bool
is_waiting_calibration waiting_calibration = true
is_waiting_calibration unrevealed = false

abbrev pub is_allowed : VisibilityPermission → Bool
is_allowed allowed = true
is_allowed denied = false
is_allowed dedicated_path = false

-- `WAITING_CALIBRATION in visibility.hidden_conditions`
abbrev pub waits_for_calibration : Visibility → Bool
waits_for_calibration v = any is_waiting_calibration v.hidden_conditions
