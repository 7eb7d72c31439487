-- ===== src/Llm/Messages.antt =====
-- llm/rpc_messages.py: the checks of one message, and what is taken from it.
use Prim.Native.String.{◌++◌ as str_append, len}
use paper_radar.Prelude.{
  Bool, List, Option, String, [], all, any, false, if◌then◌else◌, is_nil, is_none, is_some, ltb,
  none, not, some, true, ℕ, ◌&&◌, ◌+◌, ◌==◌, ◌||◌, ◌∷◌,
}
use paper_radar.Llm.Problem.{
  Rpc, RpcReason, candidate_limit, channel, event_not_allowed, max_candidate_bytes, message_shape,
  ok, problem, raise_if, stop_reason, thinking_state, usage_shape, ◌>>=◌, ◌>>◌,
}
use paper_radar.Llm.Json.{
  Fields, FloatOps, Items, Json, array_of, cons, count_of, get, has, is_boolean, is_number,
  is_string, keys, nil, object, object_of, same_keys, text_is, text_of,
}

-- Of `CallDescription` and the arguments of `RunEvents`, what the checks read; the prompt decoded.
pub record Expectation : Type 0 where
  pub system_prompt : String
  pub thinking_level : String
  pub user_message : String
  pub cwd_section : Option String

-- `RpcCandidate`
pub record Candidate : Type 0 where
  pub raw : String
  pub provider : String
  pub model : String
  pub input_tokens : Option ℕ
  pub output_tokens : Option ℕ

abbrev pub Tokens : Type 0
Tokens = Option ℕ × Option ℕ

-- A usage of nothing reports no tokens.
abbrev tokens_of : ℕ → ℕ → ℕ → Tokens
tokens_of total input output = if total == 0 then (none, none) else (some input, some output)

abbrev stops : List String
stops = "pending" ∷ "stop" ∷ "length" ∷ "toolUse" ∷ "error" ∷ "aborted" ∷ "deferred" ∷ []

abbrev thinking_levels : List String
thinking_levels = "off" ∷ "minimal" ∷ "low" ∷ "medium" ∷ "high" ∷ "xhigh" ∷ "max" ∷ []

abbrev require {ℓ} : {A : Type ℓ} → Option A → RpcReason → Rpc A
require none r = problem r
require (some a) r = ok a

abbrev prepend : Option String → List String → List String
prepend none texts = texts
prepend (some t) texts = t ∷ texts

-- `"".join(texts)`
unfoldable pub join : List String → String
join [] = ""
join (t ∷ texts) = str_append t (join texts)

module _ {F : Type 0} (ops : FloatOps F) where
  abbrev absent_or_count : String → Fields F → Bool
  absent_or_count name u = not (has name u) || is_some (count_of (get name u))

  -- The rest of `_usage`, once `usage` is known to be an object.
  unfoldable pub usage_tokens : Fields F → Rpc Tokens
  usage_tokens u = do
    input ← require (count_of (get "input" u)) usage_shape
    output ← require (count_of (get "output" u)) usage_shape
    cache_read ← require (count_of (get "cacheRead" u)) usage_shape
    cache_write ← require (count_of (get "cacheWrite" u)) usage_shape
    total_tokens ← require (count_of (get "totalTokens" u)) usage_shape
    raise_if (not (absent_or_count "reasoning" u && absent_or_count "cacheWrite1h" u)) usage_shape
    cost ← require (object_of (get "cost" u)) usage_shape
    raise_if
        (not (
          all (λ name. is_number ops (get name cost))
            ("input" ∷ "output" ∷ "cacheRead" ∷ "cacheWrite" ∷ "total" ∷ [])))
        usage_shape
    let total = input + output + cache_read + cache_write
    raise_if (not (total_tokens == total)) usage_shape
    ok (tokens_of total (input + cache_read + cache_write) output)

  -- `_usage`
  unfoldable pub usage : Fields F → Rpc Tokens
  usage message = do u ← require (object_of (get "usage" message)) usage_shape; usage_tokens u

  -- `_message`, with `_timestamp`
  unfoldable pub message_of : Fields F → String → Rpc (Fields F)
  message_of event role = do
    message ← require (object_of (get "message" event)) message_shape
    raise_if (not (text_is (get "role" message) role)) message_shape
    raise_if (not (is_number ops (get "timestamp" message))) message_shape
    ok message

  abbrev sections_match : Expectation → Fields F → Bool
  sections_match e sections =
      same_keys (keys sections) ("preamble" ∷ "cwd" ∷ [])
      && text_is (get "preamble" sections) e.system_prompt
      && is_some (text_of (get "cwd" sections))
      && elim e.cwd_section [ none ↦ true | some cwd ↦ text_is (get "cwd" sections) cwd ]

  -- The test of `_system_message`.
  unfoldable pub system_matches : Expectation → Fields F → Bool
  system_matches e message =
      text_is (get "content" message) ""
      && not (has "toolsAdded" message)
      && not (has "toolsRemoved" message)
      && elim (object_of (get "sections" message)) [
        | none ↦ false
        | some sections ↦ sections_match e sections
      ]

  -- The test of `_user_message_event`: one block, the text of the request.
  unfoldable pub user_matches : Expectation → Fields F → Bool
  user_matches e message = elim (array_of (get "content" message)) [
    | some (cons (object block) nil) ↦
        text_is (get "type" block) "text" && text_is (get "text" block) e.user_message
    | _ ↦ false
  ]

  abbrev absent_or_text : String → Fields F → Bool
  absent_or_text name block = not (has name block) || is_some (text_of (get name block))

  abbrev text_block : Fields F → Rpc (Option String)
  text_block block = do
    t ← require (text_of (get "text" block)) message_shape
    raise_if (not (absent_or_text "textSignature" block)) message_shape
    ok (some t)

  abbrev thinking_block : Fields F → Rpc (Option String)
  thinking_block block = do
    t ← require (text_of (get "thinking" block)) message_shape
    raise_if (not (absent_or_text "thinkingSignature" block)) message_shape
    raise_if (has "redacted" block && not (is_boolean (get "redacted" block))) message_shape
    ok none

  -- One round of the loop over `content`: the text that it appends, if any.
  unfoldable pub block_text : Json F → Rpc (Option String)
  block_text (object block) =
      if text_is (get "type" block) "text"
      then text_block block
      else if text_is (get "type" block) "thinking"
      then thinking_block block
      else problem channel
  block_text _ = problem channel

  unfoldable pub block_texts : Items F → Rpc (List String)
  block_texts nil = ok []
  block_texts (cons block blocks) = do
    t ← block_text block
    texts ← block_texts blocks
    ok (prepend t texts)

  abbrev thinking_agrees : Expectation → Fields F → Bool
  thinking_agrees e message =
      not (has "thinkingLevel" message)
      || (any (text_is (get "thinkingLevel" message)) thinking_levels
          && text_is (get "thinkingLevel" message) e.thinking_level)

  abbrev absent_or_string : String → Fields F → Bool
  absent_or_string name message = not (has name message) || is_string (get name message)

  -- The checks of `_assistant_message` that both of its events make: the texts and the tokens.
  unfoldable pub assistant_content : Expectation → Fields F → Rpc (List String × Tokens)
  assistant_content e message = do
    raise_if (not (all (λ name. is_string (get name message)) ("api" ∷ "provider" ∷ "model" ∷ [])))
        message_shape
    raise_if (not (any (text_is (get "stopReason" message)) stops)) stop_reason
    raise_if (not (thinking_agrees e message)) thinking_state
    raise_if
        (not (
          all (λ name. absent_or_string name message)
            ("responseModel" ∷ "responseId" ∷ "providerThinkingLevel" ∷ [])))
        message_shape
    blocks ← require (array_of (get "content" message)) message_shape
    texts ← block_texts blocks
    tokens ← usage message
    ok (texts, tokens)

  -- The end of `_assistant_message`: the candidate of the final message.
  unfoldable pub final_candidate : Fields F → List String → Tokens → Rpc Candidate
  final_candidate message texts tokens = do
    raise_if (not (text_is (get "stopReason" message) "stop")) stop_reason
    raise_if (is_nil texts) channel
    let raw = join texts
    raise_if (ltb max_candidate_bytes (len raw)) candidate_limit
    provider ← require (text_of (get "provider" message)) message_shape
    own_model ← require (text_of (get "model" message)) message_shape
    ok (record {
      raw = raw;
      provider = provider;
      model = elim (text_of (get "responseModel" message)) [ none ↦ own_model | some m ↦ m ];
      input_tokens = tokens.0;
      output_tokens = tokens.1;
    })

  abbrev is_delta : Option (Json F) → Bool
  is_delta kind = text_is kind "text_delta" || text_is kind "thinking_delta"

  abbrev is_end : Option (Json F) → Bool
  is_end kind = text_is kind "text_end" || text_is kind "thinking_end"

  abbrev is_start : Option (Json F) → Bool
  is_start kind = text_is kind "text_start" || text_is kind "thinking_start"

  -- `_update`
  unfoldable pub update : Fields F → Rpc (Unit {0})
  update event_record = do
    event ← require (object_of (get "assistantMessageEvent" event_record)) event_not_allowed
    let kind = get "type" event
    raise_if (not (is_start kind || is_delta kind || is_end kind)) event_not_allowed
    raise_if (is_none (count_of (get "contentIndex" event))) message_shape
    raise_if (is_delta kind && is_none (text_of (get "delta" event))) message_shape
    raise_if (is_end kind && is_none (text_of (get "content" event))) message_shape
    usage event_record >>= λ _. ok tt
