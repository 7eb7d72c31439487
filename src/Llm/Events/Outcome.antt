-- ===== src/Llm/Events/Outcome.antt =====
-- llm/rpc_messages.py, `RunEvents`: the candidate of a call.
use Prim.Native.String.{len}
use paper_radar.Prelude.{
  Bool, Bool-cases, List, String, [], ap, arith, false, inl, inr, is_nil, none, refl, some, subst,
  sym, true, ◌∙◌, ◌∷◌, ◌≡◌, ◌≢◌, ◌≤◌,
}
use paper_radar.Llm.Problem.{>>=-eq-ok, max_candidate_bytes, ok, ok_injective}
use paper_radar.Llm.Json.{Fields, FloatOps, get, text_is}
use paper_radar.Llm.Messages.{
  Candidate, Expectation, Tokens, assistant_content, final_candidate, join, message_of,
}
use paper_radar.Llm.Events.{
  Position, RunEvents, accept, agent_end, agent_ended, agent_settled, agent_start,
  agent_was_settled, assistant_end, assistant_ended, assistant_started, complete, handle,
  is_assistant_end, next_position, run, start, system_message, system_start, turn_end, turn_ended,
  user_message_event,
}
use paper_radar.Llm.Events.Order.{accept_cases, at_assistant_end}

abbrev pub is_past : Position → Bool
is_past turn_end = true
is_past agent_end = true
is_past agent_settled = true
is_past complete = true
is_past _ = false

past_next : (p : Position) → is_assistant_end p ≡ false → is_past (next_position p) ≡ is_past p
unfolding next_position
past_next agent_start n = refl
past_next p n = ground arith

past_end : (p : Position) → p ≡ assistant_end → is_past (next_position p) ≢ false
unfolding next_position
past_end p here n = ground arith

module _ {F : Type 0} (ops : FloatOps F) (e : Expectation) where
  -- The candidate is the joined text of the final message, which was checked, stopped by itself and
  -- is within the limit.
  pub record IsOutcome (s : RunEvents F) : Type 0 where
    pub message : Fields F
    pub result : Candidate
    pub texts : List String
    pub tokens : Tokens
    pub kept : s.final ≡ some message
    pub offered : s.candidate ≡ some result
    pub checked : assistant_content ops e message ≡ ok (texts, tokens)
    pub stopped : text_is (get "stopReason" message) "stop" ≡ true
    pub some_text : is_nil texts ≡ false
    pub joined : result.raw ≡ join texts
    pub bounded : len result.raw ≤ max_candidate_bytes
    pub counted : (result.input_tokens ≡ tokens.0) × (result.output_tokens ≡ tokens.1)

  -- No candidate until the assistant's message has ended, and then that message's.
  abbrev pub IsConsistent : RunEvents F → Type 0
  IsConsistent s =
      (is_past s.position ≡ false → (s.candidate ≡ none) × (s.final ≡ none))
      × (is_past s.position ≡ true → IsOutcome s)

  final_candidate_lem :
      (message : Fields F) (texts : List String) (tokens : Tokens) (c : Candidate)
      → final_candidate ops message texts tokens ≡ ok c
      → (text_is (get "stopReason" message) "stop" ≡ true)
        × (is_nil texts ≡ false)
        × (c.raw ≡ join texts)
        × (len (join texts) ≤ max_candidate_bytes)
        × (c.input_tokens ≡ tokens.0)
        × (c.output_tokens ≡ tokens.1)
  unfolding final_candidate
  final_candidate_lem message texts tokens c h = ground arith

  abbrev Untouched : RunEvents F → RunEvents F → Type 0
  Untouched s t = (t.final ≡ s.final) × (t.candidate ≡ s.candidate)

  handle-Untouched :
      (p : Position) (s : RunEvents F) (event : Fields F) (t : RunEvents F)
      → is_assistant_end p ≡ false
      → handle ops e p s event ≡ ok t
      → Untouched s t
  unfolding handle system_message user_message_event assistant_started turn_ended agent_ended
      agent_was_settled
  handle-Untouched system_start s event t n h = ground arith
  handle-Untouched _ s event t n h = ground arith

  handled_by_end :
      (s : RunEvents F) (event : Fields F) (t : RunEvents F)
      → handle ops e assistant_end s event ≡ ok t
      → assistant_ended ops e s event ≡ ok t
  unfolding handle
  handled_by_end s event t h = h

  assistant_ended_lem :
      (s : RunEvents F) (event : Fields F) (t : RunEvents F)
      → assistant_ended ops e s event ≡ ok t
      → IsOutcome t
  unfolding assistant_ended
  assistant_ended_lem s event t h =
      let (message, _, h₁) = >>=-eq-ok (message_of ops event "assistant") _ h in
      let (content, checked, h₂) = >>=-eq-ok (assistant_content ops e message) _ h₁ in
      let (c, final_one, h₃) = >>=-eq-ok (final_candidate ops message content.0 content.1) _ h₂ in
      let facts = final_candidate_lem message content.0 content.1 c final_one in
      record {
        message = message;
        result = c;
        texts = content.0;
        tokens = content.1;
        kept = ap (λ (r : RunEvents F). r.final) (sym (ok_injective h₃));
        offered = ap (λ (r : RunEvents F). r.candidate) (sym (ok_injective h₃));
        checked = checked;
        stopped = facts.0;
        some_text = facts.1;
        joined = facts.2;
        bounded = rw facts.2 facts.3;
        counted = (facts.4, facts.5);
      }

  IsOutcome-of_same : (s t : RunEvents F) → Untouched s t → IsOutcome s → IsOutcome t
  IsOutcome-of_same s t (same_final, same_candidate) o = record {
    message = o.message;
    result = o.result;
    texts = o.texts;
    tokens = o.tokens;
    kept = same_final ∙ o.kept;
    offered = same_candidate ∙ o.offered;
    checked = o.checked;
    stopped = o.stopped;
    some_text = o.some_text;
    joined = o.joined;
    bounded = o.bounded;
    counted = o.counted;
  }

  -- At any position but one, the candidate stays as it was.
  plain_advance :
      (s : RunEvents F) (event : Fields F) (t : RunEvents F)
      → is_assistant_end s.position ≡ false
      → IsConsistent s
      → handle ops e s.position s event ≡ ok t
      → IsConsistent (record t { position = next_position s.position })
  plain_advance s event t other c h =
      let same = handle-Untouched s.position s event t other h in
      let past = past_next s.position other in
      (
        (λ n. let old = c.0 (sym past ∙ n) in (same.1 ∙ old.0, same.0 ∙ old.1)),
        (λ y.
            IsOutcome-of_same s (record t { position = next_position s.position }) same
              (c.1 (sym past ∙ y))),
      )

  final_advance :
      (s : RunEvents F) (event : Fields F) (t : RunEvents F)
      → s.position ≡ assistant_end
      → handle ops e s.position s event ≡ ok t
      → IsConsistent (record t { position = next_position s.position })
  final_advance s event t here h =
      let h' : handle ops e assistant_end s event ≡ ok t =
        subst (λ p. handle ops e p s event ≡ ok t) here h in
      let o = assistant_ended_lem s event t (handled_by_end s event t h') in
      (
        (λ n. absurd (past_end s.position here n)),
        (λ y.
            IsOutcome-of_same t (record t { position = next_position s.position }) (refl, refl) o),
      )

  accept-IsConsistent :
      (s : RunEvents F) (event : Fields F) (s' : RunEvents F)
      → IsConsistent s
      → accept ops e s event ≡ ok s'
      → IsConsistent s'
  accept-IsConsistent s event s' c h = elim (accept_cases ops e s event s' h) [
    | inl (_, _, same) ↦ subst IsConsistent (sym same) c
    | inr advanced ↦
        subst IsConsistent (sym advanced.result) (elim (Bool-cases (is_assistant_end s.position)) [
          | inl last ↦
              final_advance s event advanced.handled (at_assistant_end s.position last)
                advanced.by_handler
          | inr other ↦ plain_advance s event advanced.handled other c advanced.by_handler
        ])
  ]

  pub run-IsConsistent :
      (events : List (Fields F)) (s s' : RunEvents F)
      → IsConsistent s
      → run ops e s events ≡ ok s'
      → IsConsistent s'
  unfolding run
  run-IsConsistent [] s s' c h = subst IsConsistent (ok_injective h) c
  run-IsConsistent (event ∷ events) s s' c h =
      let (s₁, step, rest) = >>=-eq-ok (accept ops e s event) (λ t. run ops e t events) h in
      run-IsConsistent events s₁ s' (accept-IsConsistent s event s₁ c step) rest

  -- Of a call that runs from its start: it has no candidate before the assistant's message has
  -- ended, and from then on the candidate is the text of that message, checked and within the limit.
  pub started-IsConsistent :
      (events : List (Fields F)) (s : RunEvents F) → run ops e start events ≡ ok s → IsConsistent s
  started-IsConsistent events s h =
      run-IsConsistent events start s ((λ _. (refl, refl)), (λ y. cc)) h
