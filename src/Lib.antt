-- ===== src/Lib.antt =====
-- The rules of PaperRadar, a program that collects papers, screens them, extracts their texts
-- and has models read them. The program keeps its facts in a database; the decisions that it
-- takes on these facts are pure rules, and this library models such rules, file by file.
--
-- The parts and how they interact. screening/reasons.py says which screening records are legal,
-- and screening/validation.py which outputs of a model are accepted as the content of a
-- screening. papers/rules.py chooses the value of every field of a paper among the observations
-- of its sources. eligibility/rules.py takes all the facts of one paper, among them its
-- screening records and what calibration/visibility.py permits, and says for each concept
-- whether the paper has it and for which reasons not: whether it needs a PDF or an extraction,
-- which decision is in force, whether it may be read. screening_tasks/ lets executors claim a
-- task, of which they have two attempts with a lease each, and settles the attempts as failed or
-- succeeded. feed_metadata/projection.py says what the acquired metadata of a paper lacks, which
-- is one of the facts that eligibility takes. fixture_audit/sampling_selection.py selects
-- candidates of a feed for an audit, and replays recorded selections. config/journals.py checks
-- the ISSNs of the journals of the configuration, and that no two journals share one.
-- pi_supply/retention.py keeps installs of the model program from being removed.
-- llm/rpc_frames.py and llm/rpc_messages.py are the two layers that the answer of a model goes
-- through: bytes are cut into records, and the records must be the events of one turn in their
-- order.
--
-- - Calibration models src/paper_radar/calibration/visibility.py (Visibility.permission,
--   evaluate_visibility).
-- - Screening.Reasons models src/paper_radar/screening/reasons.py (the definitions of the
--   reasons, invalid_combination_fields, build_screening_reason).
-- - Screening.Outputs models src/paper_radar/screening/schema.py, context.py, excerpt_kinds.py,
--   value_types.py, kinds.py, errors.py and the lists of text.py. Screening.Loading models
--   _validate_model and _validate_context of src/paper_radar/screening/validation.py, with the
--   issues of what the validation library refuses, and Screening.Validation the business rules
--   and validate_output there.
-- - Papers.Fields models src/paper_radar/papers/rules.py (choose_fields, explain_fields).
-- - Eligibility.Models and Eligibility.Models.Codes model src/paper_radar/eligibility/models.py.
--   Eligibility.Facts: the reasons that come from one fact of a paper, in
--   src/paper_radar/eligibility/rules.py (evaluate_paper to its first half, _pdf, _extraction,
--   _quality). Eligibility.Decision: _decision. Eligibility.Rules: the rest of evaluate_paper.
--   Eligibility.Batch: evaluate_concept.
-- - Tasks.Ledger, Tasks.Rules, Tasks.Service, Tasks.Settlement and Tasks.Integrity model the
--   attempts of a screening task: src/paper_radar/screening_tasks/attempt_models.py,
--   attempt_rules.py, attempt_repository.py (read_attempts, recover_attempt,
--   credential_attempt), execution.py (AttemptService), success.py (SuccessService.submit),
--   retry.py (the parent's attempts in RetryService.register) and attempt_integrity.py (of
--   validate_attempts, the checks of digests, times, settlements, numbers and order).
--   Tasks.Integrity.History has the sequences of operations that may happen to a task.
-- - Sources models the routes and outcomes of
--   src/paper_radar/fixture_audit/acquisition_models.py. Metadata models
--   src/paper_radar/feed_metadata/projection.py (project_metadata) and, from
--   src/paper_radar/eligibility/models.py, MetadataFacts.from_result, by which the projection
--   enters Eligibility.
-- - Sampling models the records of src/paper_radar/fixture_audit/sampling_models.py and
--   acquisition_models.py. Sampling.Categories: src/paper_radar/fixture_audit/sampling_rules.py.
--   Sampling.Selection: evaluate_candidate of
--   src/paper_radar/fixture_audit/sampling_selection.py. Sampling.Replay:
--   RecordedSelectionSources there, as validate_all of sampling_service.py uses it.
-- - Config.Issn models normalize_issn of src/paper_radar/config/journals.py, and Config.Journals
--   models valid_issns and unique_identifiers there.
-- - Supply.Retention models src/paper_radar/pi_supply/retention.py and the records that it
--   reads, of models.py and cleanup_models.py there.
-- - Llm.Problem models the limits and reasons of src/paper_radar/llm/rpc_types.py. Llm.Json: the
--   values and _same_json of src/paper_radar/llm/rpc_messages.py. Llm.Messages: the checks of
--   one message there. Llm.Events: RunEvents there. Llm.Frames: FrameDecoder of
--   src/paper_radar/llm/rpc_frames.py.
--
-- How the code is modelled. A set of reasons is a list, which Eligibility.Facts.result puts in
-- the order of the enumeration, without repetition, as _result does; a dictionary is a list of
-- pairs in the order of insertion; integers are those of Int in the prelude. An exception of
-- class RpcProblem is the value problem, which ends what runs. The tables of attempts, leases,
-- failures and successes are one list of joined rows for each task, in the order of the attempt
-- numbers, since all rows of a task are read and written under its key; a transaction takes the
-- rows and gives the new rows with its result, and one that raises leaves the rows as they were.
-- The clock of an operation is what its transaction reads; that a reading fails is an absent
-- time. There is no fuel: every loop of the modelled code runs over a list.
--
-- A selection of Sampling is a program that asks its source for executions and goes on with the
-- answer, so that the live source and the recorded one answer the same program; the lists that
-- the source code appends to are handed on.
--
-- Parameters. The HTML and JSON parsers, the stored materials, the normalisation of requests and
-- the digest of a member are parameters of Sampling; Python's operations on texts are a
-- parameter of Screening.Validation, and the models of the validation library, the reading of a
-- JSON text and the decoding of bytes are one of Screening.Loading; the parsing of a stored time
-- is one of Supply.Retention. Digests of secrets, whether another task has one of them, the
-- checks of the facts of a paper that other tables make, the caller's check before a claim and
-- the checks of an answer are given to the operations on tasks as data. Floats, and what the
-- code asks of them, are a parameter of Llm.Json; the decoding of a record's bytes is a
-- parameter of Llm.Frames.
--
-- Not modelled: what the integrity check of the attempts compares with the requests, the
-- revisions of papers and their mapping to inputs; what reads and writes the database, files,
-- processes and the network, the command lines, and the texts that are only displayed. Lone
-- surrogates, which Python's texts can hold and no encoding accepts, are not texts here.
pub mod Prelude
pub mod Calibration
pub mod Screening
pub mod Papers
pub mod Tasks
pub mod Eligibility
pub mod Sources
pub mod Metadata
pub mod Llm
pub mod Sampling
pub mod Supply
pub mod Config
