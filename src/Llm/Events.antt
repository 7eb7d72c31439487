-- ===== src/Llm/Events.antt =====
-- llm/rpc_messages.py, `RunEvents`: the events of one turn, accepted in their one order. A problem
-- ends the call, so the state in which it leaves the object is not kept.
pub mod Order
pub mod Outcome
pub mod Script
use paper_radar.Prelude.{
  Bool, List, Option, String, [], any, false, if◌then◌else◌, none, not, some, true, ◌&&◌, ◌∷◌,
}
use paper_radar.Llm.Problem.{
  Rpc, event_not_allowed, event_sequence, message_mismatch, ok, problem, raise_if, stop_reason,
  system_mismatch, user_mismatch, ◌>>=◌, ◌>>◌,
}
use paper_radar.Llm.Json.{
  Fields, FloatOps, Json, array, cons, get, is_false, nil, null, object, same_json, text_is,
}
use paper_radar.Llm.Messages.{
  Candidate, Expectation, assistant_content, final_candidate, message_of, system_matches, update,
  user_matches,
}

pub data Position : Type 0 where
  agent_start turn_start system_start system_end user_start user_end : Position
  assistant_start assistant_end turn_end agent_end agent_settled complete : Position

-- `_EVENTS[position]`; `COMPLETE` is no key of the table.
unfoldable pub event_name : Position → Option String
event_name agent_start = some "agent_start"
event_name turn_start = some "turn_start"
event_name system_start = some "message_start"
event_name system_end = some "message_end"
event_name user_start = some "message_start"
event_name user_end = some "message_end"
event_name assistant_start = some "message_start"
event_name assistant_end = some "message_end"
event_name turn_end = some "turn_end"
event_name agent_end = some "agent_end"
event_name agent_settled = some "agent_settled"
event_name complete = none

abbrev pub event_names : List String
event_names =
    "agent_start" ∷ "turn_start" ∷ "message_start" ∷ "message_end" ∷ "turn_end" ∷ "agent_end"
    ∷ "agent_settled" ∷ []

-- `_Position(position + 1)`
unfoldable pub next_position : Position → Position
next_position agent_start = turn_start
next_position turn_start = system_start
next_position system_start = system_end
next_position system_end = user_start
next_position user_start = user_end
next_position user_end = assistant_start
next_position assistant_start = assistant_end
next_position assistant_end = turn_end
next_position turn_end = agent_end
next_position agent_end = agent_settled
next_position agent_settled = complete
next_position complete = complete

abbrev pub is_assistant_end : Position → Bool
is_assistant_end assistant_end = true
is_assistant_end _ = false

pub record RunEvents (F : Type 0) : Type 0 where
  pub position : Position
  pub system : Option (Fields F)
  pub user : Option (Fields F)
  pub final : Option (Fields F)
  pub candidate : Option Candidate

-- `RunEvents.__init__`
abbrev pub start : {F : Type 0} → RunEvents F
start = record {
  position = agent_start;
  system = none;
  user = none;
  final = none;
  candidate = none;
}

module _ {F : Type 0} (ops : FloatOps F) (e : Expectation) where
  -- A message is kept when it comes first, and must be the same when it comes again.
  abbrev pub kept_or_same : Fields F → Option (Fields F) → Rpc (Option (Fields F))
  kept_or_same message none = ok (some message)
  kept_or_same message (some before) =
      if same_json ops (object message) (object before)
      then ok (some before)
      else problem message_mismatch

  unfoldable pub system_message : RunEvents F → Fields F → Rpc (RunEvents F)
  system_message s event = do
    message ← message_of ops event "system"
    raise_if (not (system_matches ops e message)) system_mismatch
    system ← kept_or_same message s.system
    ok (record s { system = system })

  unfoldable pub user_message_event : RunEvents F → Fields F → Rpc (RunEvents F)
  user_message_event s event = do
    message ← message_of ops event "user"
    raise_if (not (user_matches ops e message)) user_mismatch
    user ← kept_or_same message s.user
    ok (record s { user = user })

  -- `_assistant_message` at its start, which takes nothing from the message.
  unfoldable pub assistant_started : RunEvents F → Fields F → Rpc (RunEvents F)
  assistant_started s event = do
    message ← message_of ops event "assistant"
    content ← assistant_content ops e message
    raise_if (not (text_is (get "stopReason" message) "pending")) stop_reason
    ok s

  -- `_assistant_message` at its end.
  unfoldable pub assistant_ended : RunEvents F → Fields F → Rpc (RunEvents F)
  assistant_ended s event = do
    message ← message_of ops event "assistant"
    content ← assistant_content ops e message
    candidate ← final_candidate ops message content.0 content.1
    ok (record s { final = some message; candidate = some candidate })

  -- `_same_json(value, kept)`, where `kept` is a message or `None`.
  abbrev pub same_as_kept : Option (Json F) → Option (Fields F) → Bool
  same_as_kept (some value) (some kept) = same_json ops value (object kept)
  same_as_kept (some null) none = true
  same_as_kept none none = true
  same_as_kept _ _ = false

  unfoldable pub turn_ended : RunEvents F → Fields F → Rpc (RunEvents F)
  turn_ended s event = do
    raise_if (not (same_as_kept (get "message" event) s.final)) message_mismatch
    raise_if (elim (get "toolResults" event) [ some (array nil) ↦ false | _ ↦ true ])
        message_mismatch
    ok s

  abbrev kept_value : Option (Fields F) → Json F
  kept_value none = null
  kept_value (some kept) = object kept

  unfoldable pub agent_ended : RunEvents F → Fields F → Rpc (RunEvents F)
  agent_ended s event = do
    let messages =
        array
          (cons (kept_value s.system) (cons (kept_value s.user) (cons (kept_value s.final) nil)))
    raise_if (elim (get "messages" event) [ none ↦ true | some m ↦ not (same_json ops m messages) ])
        message_mismatch
    raise_if (not (is_false (get "willRetry" event))) event_sequence
    ok s

  unfoldable pub agent_was_settled : RunEvents F → Fields F → Rpc (RunEvents F)
  agent_was_settled s event = do
    raise_if (not (is_false (get "aborted" event))) event_sequence
    ok s

  -- What `accept` does at a position whose event has come.
  unfoldable pub handle : Position → RunEvents F → Fields F → Rpc (RunEvents F)
  handle agent_start s event = ok s
  handle turn_start s event = ok s
  handle system_start s event = system_message s event
  handle system_end s event = system_message s event
  handle user_start s event = user_message_event s event
  handle user_end s event = user_message_event s event
  handle assistant_start s event = assistant_started s event
  handle assistant_end s event = assistant_ended s event
  handle turn_end s event = turn_ended s event
  handle agent_end s event = agent_ended s event
  handle agent_settled s event = agent_was_settled s event
  handle complete s event = ok s

  abbrev pub kind_of : Fields F → Option (Json F)
  kind_of event = get "type" event

  -- `kind == _EVENTS[position]`, at a position that is not `COMPLETE`.
  abbrev pub is_expected : Fields F → Position → Bool
  is_expected event p = elim (event_name p) [
    | none ↦ false
    | some name ↦ text_is (kind_of event) name
  ]

  unfoldable pub accept : RunEvents F → Fields F → Rpc (RunEvents F)
  accept s event =
      if text_is (kind_of event) "message_update" && is_assistant_end s.position
      then (update ops event >> ok s)
      else if not (any (text_is (kind_of event)) event_names)
      then problem event_not_allowed
      else if not (is_expected event s.position)
      then problem event_sequence
      else do s' ← handle s.position s event; ok (record s' { position = next_position s.position })

  -- The events of a call, one after another.
  unfoldable pub run : RunEvents F → List (Fields F) → Rpc (RunEvents F)
  run s [] = ok s
  run s (event ∷ events) = do s' ← accept s event; run s' events
