-- ===== src/Sampling.antt =====
-- fixture_audit/sampling_models.py, with the requests and executions of acquisition_models.py: the
-- candidates of a feed, and what the selection of one of them comes to. Of requests, executions and
-- candidates, only the fields that the selection reads are kept.
pub mod Categories
pub mod Selection
pub mod Replay
pub mod New
pub mod Ends
pub mod Gathered
pub mod Sound
pub mod Recorded
mod Tests
use paper_radar.Prelude.{Bool, List, Option, String, false, none, some, str_eq, true, ℕ, ◌&&◌, ◌==◌}
use paper_radar.Prelude.Text.{opt_eq}
use paper_radar.Sources.{Route, SourceReason, route_eq}

pub data Journal : Type 0 where
  aies jgr qjrms dqkx : Journal

abbrev pub is_aies : Journal → Bool
is_aies aies = true
is_aies _ = false

abbrev pub is_dqkx : Journal → Bool
is_dqkx dqkx = true
is_dqkx _ = false

abbrev pub journal_no : Journal → ℕ
journal_no aies = 0
journal_no jgr = 1
journal_no qjrms = 2
journal_no dqkx = 3

-- The fields that the selection leaves at their defaults (the channel, the strategy, the conditional
-- headers, the access) are one text.
pub record SourceRequest : Type 0 where
  pub journal : Journal
  pub route : Route
  pub doi : Option String
  pub publisher_url : Option String
  pub settings : String

-- `==` on requests.
unfoldable pub request_eq : SourceRequest → SourceRequest → Bool
request_eq a b =
    (journal_no a.journal == journal_no b.journal)
    && route_eq a.route b.route
    && opt_eq a.doi b.doi
    && opt_eq a.publisher_url b.publisher_url
    && str_eq a.settings b.settings

pub record SourceSettlement : Type 0 where
  pub reason : SourceReason
  pub identity_doi : Option String
  pub agency : Option String
  pub content_decoding : Option String

pub record RouteExecution : Type 0 where
  pub execution_id : String
  pub request : SourceRequest
  pub settlement : Option SourceSettlement

-- `RouteExecution.reason`
abbrev pub reason_of : RouteExecution → Option SourceReason
reason_of e = elim e.settlement [ none ↦ none | some s ↦ some s.reason ]

pub data RawField : Type 0 where
  category section dc_type other_type : RawField

pub record RawCategory : Type 0 where
  pub raw_field : RawField
  pub value : String

pub data IdentityIssue : Type 0 where
  invalid_doi conflicting_dois : IdentityIssue

pub record FeedCandidate : Type 0 where
  pub position : ℕ
  pub entry_id : Option String
  pub doi : Option String
  pub identity_issue : Option IdentityIssue
  pub publisher_url : Option String
  pub publisher_link_reason : Option SourceReason
  pub raw_categories : List RawCategory

pub data CategoryDecision : Type 0 where
  journal_article non_journal_article unknown : CategoryDecision

pub data CategoryResult : Type 0 where
  journal_article non_journal_article conflict unknown : CategoryResult

pub record CategoryBasis : Type 0 where
  pub route : Route
  pub locator : String
  pub value : String
  pub decision : CategoryDecision
  pub acquisition_id : Option String

pub record SamplingRoute : Type 0 where
  pub route : Route
  pub acquisition_id : Option String
  pub reason : SourceReason
  pub is_applicable : Bool

pub data SelectionResult : Type 0 where
  selected excluded_deterministic blocked_pending : SelectionResult

-- Those of `SamplingReason` that a candidate can have.
pub data SamplingReason : Type 0 where
  selected duplicate no_stable_identifier identity_unavailable invalid_identity : SamplingReason
  identity_conflict category_unknown category_conflict not_journal_article : SamplingReason
  source_blocked : SamplingReason

pub record SamplingOutcome : Type 0 where
  pub event_id : String
  pub plan_id : String
  pub journal : Journal
  pub previous_event_id : Option String
  pub position : ℕ
  pub candidate : FeedCandidate
  pub result : SelectionResult
  pub reason : SamplingReason
  pub doi : Option String
  pub entry_id : Option String
  pub category_bases : List CategoryBasis
  pub routes : List SamplingRoute
  pub member_id : Option String

-- The journal's state; of its feed, the acquisition.
pub record JournalSampling : Type 0 where
  pub journal : Journal
  pub feed_acquisition_id : Option String
  pub entries : List SamplingOutcome
  pub history : List SamplingOutcome

-- What ends a selection: an error of what it is given, a key that a dictionary lacks, or
-- `FixtureReason.CORRUPT_REFERENCE` on one of two paths.
pub data Fault : Type 0 where
  failed : String → Fault
  missing_key : String → Fault
  corrupt_route corrupt_identity : Fault
