-- ===== src/Llm/Tests.antt =====
-- llm/: a call that settles, and a stream cut into chunks.
use paper_radar.Prelude.{List, String, [], arith, false, none, refl, some, true, ℕ, ◌==◌, ◌∷◌, ◌≡◌}
use paper_radar.Prelude.Int.{pos}
use paper_radar.Llm.Problem.{Rpc, ok}
use paper_radar.Llm.Json.{
  Fields, FloatOps, Items, Json, array, boolean, cons, end, field, floating, get, integer, keys,
  nil, object, object_of, same_fields, same_items, same_json, same_keys, text,
}
use paper_radar.Llm.Messages.{
  Expectation, assistant_content, block_text, block_texts, final_candidate, join, message_of,
  system_matches, update, usage, usage_tokens, user_matches,
}
use paper_radar.Llm.Events.{
  RunEvents, accept, agent_ended, agent_was_settled, assistant_ended, assistant_started, complete,
  event_name, handle, next_position, run, start, system_message, turn_ended, user_message_event,
}
use paper_radar.Llm.Events.Script.{IsScript, opening, settled-IsScript}
use paper_radar.Llm.Events.Outcome.{IsConsistent, started-IsConsistent}
use paper_radar.Llm.Frames.{Bytes, extend, feed, feed_all, feed_pieces, split_lf, strip_cr}
use paper_radar.Llm.Frames.Chunks.{concat, feed_all-eq}

-- Floats as their number of hundredths.
abbrev hundredths : FloatOps ℕ
hundredths = record { float_eq = λ a b. a == b; is_finite = λ a. true; is_nonnegative = λ a. true }

abbrev J : Type 0
J = Json ℕ

abbrev expectation : Expectation
expectation = record {
  system_prompt = "Be brief.";
  thinking_level = "off";
  user_message = "Hello";
  cwd_section = none;
}

abbrev list : List J → Items ℕ
list [] = nil
list (x ∷ xs) = cons x (list xs)

abbrev dict : List (String × J) → Fields ℕ
dict [] = end
dict (x ∷ xs) = field x.0 x.1 (dict xs)

abbrev counts : List String → List (String × J)
counts [] = []
counts (name ∷ names) = (name, integer (pos 0)) ∷ counts names

abbrev usage_record : J
usage_record = object (
    dict (
      ("input", integer (pos 5))
      ∷ ("output", integer (pos 2))
      ∷ ("cacheRead", integer (pos 1))
      ∷ ("cacheWrite", integer (pos 0))
      ∷ ("totalTokens", integer (pos 8))
      ∷ (
        "cost",
        object (dict (counts ("input" ∷ "output" ∷ "cacheRead" ∷ "cacheWrite" ∷ "total" ∷ []))),
      )
      ∷ []))

abbrev message : String → List (String × J) → J
message role rest = object (dict (("role", text role) ∷ ("timestamp", floating 7) ∷ rest))

abbrev system_record : J
system_record = message "system" (
    ("content", text "")
    ∷ ("sections", object (dict (("preamble", text "Be brief.") ∷ ("cwd", text "/tmp") ∷ [])))
    ∷ [])

abbrev user_record : J
user_record = message "user" (
    (
      "content",
      array (list (object (dict (("type", text "text") ∷ ("text", text "Hello") ∷ [])) ∷ [])),
    )
    ∷ [])

abbrev assistant_record : String → List J → J
assistant_record stop blocks = message "assistant" (
    ("api", text "a")
    ∷ ("provider", text "p")
    ∷ ("model", text "m")
    ∷ ("stopReason", text stop)
    ∷ ("content", array (list blocks))
    ∷ ("usage", usage_record)
    ∷ [])

abbrev answer : J
answer =
    assistant_record "stop" (object (dict (("type", text "text") ∷ ("text", text "Hi") ∷ [])) ∷ [])

abbrev event : String → List (String × J) → Fields ℕ
event kind rest = dict (("type", text kind) ∷ rest)

abbrev update_event : Fields ℕ
update_event = event "message_update" (
    (
      "assistantMessageEvent",
      object (
          dict (
            ("type", text "text_delta")
            ∷ ("contentIndex", integer (pos 0))
            ∷ ("delta", text "Hi")
            ∷ [])),
    )
    ∷ ("usage", usage_record)
    ∷ [])

abbrev call_events : List (Fields ℕ)
call_events =
    event "agent_start" []
    ∷ event "turn_start" []
    ∷ event "message_start" (("message", system_record) ∷ [])
    ∷ event "message_end" (("message", system_record) ∷ [])
    ∷ event "message_start" (("message", user_record) ∷ [])
    ∷ event "message_end" (("message", user_record) ∷ [])
    ∷ event "message_start" (("message", assistant_record "pending" []) ∷ [])
    ∷ update_event
    ∷ event "message_end" (("message", answer) ∷ [])
    ∷ event "turn_end" (("message", answer) ∷ ("toolResults", array nil) ∷ [])
    ∷ event "agent_end" (
        ("messages", array (list (system_record ∷ user_record ∷ answer ∷ [])))
        ∷ ("willRetry", boolean false)
        ∷ [])
    ∷ event "agent_settled" (("aborted", boolean false) ∷ [])
    ∷ []

abbrev settled_call : RunEvents ℕ
settled_call = record {
  position = complete;
  system = object_of (some system_record);
  user = object_of (some user_record);
  final = object_of (some answer);
  candidate = some (record {
    raw = "Hi";
    provider = "p";
    model = "m";
    input_tokens = some 6;
    output_tokens = some 2;
  });
}

call_settles : run hundredths expectation start call_events ≡ ok settled_call
unfolding run accept handle next_position event_name system_message user_message_event
    assistant_started assistant_ended turn_ended agent_ended agent_was_settled message_of
    assistant_content final_candidate block_texts block_text usage usage_tokens update
    system_matches user_matches same_json same_items same_fields get keys same_keys join
call_settles = refl

settled-IsScript_example : IsScript opening call_events
settled-IsScript_example =
    settled-IsScript hundredths expectation call_events settled_call call_settles refl

started-IsConsistent_example : IsConsistent hundredths expectation settled_call
started-IsConsistent_example =
    started-IsConsistent hundredths expectation call_events settled_call call_settles

-- The bytes of a record are the record.
abbrev as_bytes : Bytes → Rpc Bytes
as_bytes bytes = ok bytes

abbrev stream : List Bytes
stream = (97 ∷ 13 ∷ []) ∷ (10 ∷ 98 ∷ 10 ∷ []) ∷ (99 ∷ []) ∷ []

stream_records : feed_all as_bytes [] stream ≡ ok ((97 ∷ []) ∷ (98 ∷ []) ∷ [], 99 ∷ [])
unfolding feed_all feed feed_pieces extend split_lf strip_cr
stream_records = refl

feed_all-eq_example : feed_all as_bytes [] stream ≡ feed as_bytes [] (concat stream)
feed_all-eq_example = feed_all-eq as_bytes stream [] (omega arith)
