-- ===== src/Llm/Events/Script.antt =====
-- llm/rpc_messages.py, `RunEvents`: the sequence of events that settles a call.
use mathlib.Core.List.{tail}
use paper_radar.Prelude.{
  All, Bool, Bool-cases, List, String, [], ap, arith, false, inl, inr, refl, subst, sym, true, ◌++◌,
  ◌∙◌, ◌∷◌, ◌≡◌, ◌≢◌, ◌⊎◌,
}
use paper_radar.Llm.Problem.{>>=-eq-ok, ok, ok_injective}
use paper_radar.Llm.Json.{Fields, FloatOps, get, text_is}
use paper_radar.Llm.Messages.{Expectation, update}
use paper_radar.Llm.Events.{
  Position, RunEvents, accept, agent_end, agent_settled, agent_start, assistant_end,
  assistant_start, complete, event_name, is_expected, next_position, run, start, system_end,
  system_start, turn_end, turn_start, user_end, user_start,
}
use paper_radar.Llm.Events.Order.{Named, accept_cases, IsUpdate}

abbrev pub opening : List String
opening =
    "agent_start" ∷ "turn_start" ∷ "message_start" ∷ "message_end" ∷ "message_start" ∷ "message_end"
    ∷ "message_start" ∷ []

abbrev pub closing : List String
closing = "message_end" ∷ "turn_end" ∷ "agent_end" ∷ "agent_settled" ∷ []

-- The names that are still to come before the assistant's message ends.
abbrev before_names : Position → List String
before_names agent_start = opening
before_names turn_start = tail (opening)
before_names system_start = tail (tail opening)
before_names system_end = tail (tail (tail opening))
before_names user_start = tail (tail (tail (tail opening)))
before_names user_end = tail (tail (tail (tail (tail opening))))
before_names assistant_start = "message_start" ∷ []
before_names _ = []

abbrev after_names : Position → List String
after_names turn_end = tail closing
after_names agent_end = tail (tail closing)
after_names agent_settled = "agent_settled" ∷ []
after_names complete = []
after_names _ = closing

abbrev is_late : Position → Bool
is_late turn_end = true
is_late agent_end = true
is_late agent_settled = true
is_late complete = true
is_late _ = false

-- An opening, any number of updates, and a closing.
pub record IsScript {F : Type 0} (before_ones : List String) (events : List (Fields F))
    : Type 0 where
  pub before : List (Fields F)
  pub updates : List (Fields F)
  pub after : List (Fields F)
  pub whole : events ≡ before ++ (updates ++ after)
  pub opened : Named before before_ones
  pub updated : All IsUpdate updates
  pub closed : Named after closing

late_next : (p : Position) → is_late p ≡ true → is_late (next_position p) ≡ true
unfolding next_position
late_next turn_end l = refl
late_next p l = ground arith

not_late : (p : Position) → p ≡ assistant_end → is_late p ≢ true
not_late p e l = ground arith

open_with :
    {F : Type 0} (event : Fields F) (events : List (Fields F)) (name : String) {names : List String}
    → text_is (get "type" event) name ≡ true
    → IsScript names events
    → IsScript (name ∷ names) (event ∷ events)
open_with event events name x i = record {
  before = event ∷ i.before;
  updates = i.updates;
  after = i.after;
  whole = ap (λ rest. event ∷ rest) i.whole;
  opened = (x, i.opened);
  updated = i.updated;
  closed = i.closed;
}

not_complete : (p : Position) → p ≡ complete → is_late p ≢ false
not_complete p e l = ground arith

no_names : {F : Type 0} (events : List (Fields F)) → Named events [] → events ≡ []
no_names [] n = refl
no_names (event ∷ events) n = absurd n

update_step :
    {F : Type 0} (p : Position) (event : Fields F) (events : List (Fields F))
    → p ≡ assistant_end
    → IsUpdate event
    → IsScript (before_names p) events
    → IsScript (before_names p) (event ∷ events)
update_step p event events here update i =
    subst (λ q. IsScript (before_names q) events → IsScript (before_names q) (event ∷ events))
      (sym here) (more event events update) i
  where
    more :
        {F : Type 0} (event : Fields F) (events : List (Fields F))
        → IsUpdate event
        → IsScript [] events
        → IsScript [] (event ∷ events)
    more event events update i = record {
      before = [];
      updates = event ∷ i.updates;
      after = i.after;
      whole =
          ap (λ rest. event ∷ rest)
            (i.whole ∙ ap (λ b. b ++ (i.updates ++ i.after)) (no_names i.before i.opened));
      opened = tt;
      updated = (update, i.updated);
      closed = i.closed;
    }

module _ {F : Type 0} (ops : FloatOps F) (e : Expectation) where
  late_step :
      (p : Position) (event : Fields F) (events : List (Fields F))
      → is_late p ≡ true
      → is_expected ops e event p ≡ true
      → Named events (after_names (next_position p))
      → Named (event ∷ events) (after_names p)
  unfolding next_position event_name
  late_step turn_end event events l x n = (x, n)
  late_step agent_end event events l x n = (x, n)
  late_step agent_settled event events l x n = (x, n)
  late_step complete event events l x n = cc
  late_step _ event events l x n = cc

  -- Once the assistant's message has ended, the rest of a settled call is the rest of the closing.
  late_Named :
      (events : List (Fields F)) (s s' : RunEvents F)
      → is_late s.position ≡ true
      → run ops e s events ≡ ok s'
      → s'.position ≡ complete
      → Named events (after_names s.position)
  unfolding run
  late_Named [] s s' l h c =
      let here : s.position ≡ complete =
        ap (λ (t : RunEvents F). t.position) (ok_injective h) ∙ c in
      subst (λ p. Named {F = F} [] (after_names p)) (sym here) tt
  late_Named (event ∷ events) s s' l h c =
      let (s₁, step, rest) = >>=-eq-ok (accept ops e s event) (λ t. run ops e t events) h in
      elim (accept_cases ops e s event s₁ step) [
        | inl (_, here, _) ↦ absurd (not_late s.position here l)
        | inr advanced ↦
            let moved : s₁.position ≡ next_position s.position =
              ap (λ (t : RunEvents F). t.position) advanced.result in
            let later : is_late (next_position s.position) ≡ true = late_next s.position l in
            (late_step s.position event events l advanced.expected (
              subst (λ p. Named events (after_names p)) moved
                (late_Named events s₁ s' (rw moved later) rest c)))
      ]

  early_step :
      (p : Position) (event : Fields F) (events : List (Fields F))
      → is_late p ≡ false
      → is_expected ops e event p ≡ true
      → (is_late (next_position p) ≡ false × IsScript (before_names (next_position p)) events)
        ⊎ (is_late (next_position p) ≡ true × Named events (after_names (next_position p)))
      → IsScript (before_names p) (event ∷ events)
  unfolding next_position event_name
  early_step agent_start event events l x (inl (_, i)) = open_with event events "agent_start" x i
  early_step turn_start event events l x (inl (_, i)) = open_with event events "turn_start" x i
  early_step system_start event events l x (inl (_, i)) = open_with event events "message_start" x i
  early_step system_end event events l x (inl (_, i)) = open_with event events "message_end" x i
  early_step user_start event events l x (inl (_, i)) = open_with event events "message_start" x i
  early_step user_end event events l x (inl (_, i)) = open_with event events "message_end" x i
  early_step assistant_start event events l x (inl (_, i)) =
      open_with event events "message_start" x i
  early_step assistant_end event events l x (inr (_, n)) = record {
    before = [];
    updates = [];
    after = event ∷ events;
    whole = refl;
    opened = tt;
    updated = tt;
    closed = (x, n);
  }
  early_step p event events l x (inl (n, _)) = cc
  early_step p event events l x (inr (n, _)) = cc

  -- A call that has settled, from a position up to the end of the assistant's message.
  early-IsScript :
      (events : List (Fields F)) (s s' : RunEvents F)
      → is_late s.position ≡ false
      → run ops e s events ≡ ok s'
      → s'.position ≡ complete
      → IsScript (before_names s.position) events
  unfolding run
  early-IsScript [] s s' l h c =
      let here : s.position ≡ complete =
        ap (λ (t : RunEvents F). t.position) (ok_injective h) ∙ c in
      absurd (not_complete s.position here l)
  early-IsScript (event ∷ events) s s' l h c =
      let (s₁, step, rest) = >>=-eq-ok (accept ops e s event) (λ t. run ops e t events) h in
      elim (accept_cases ops e s event s₁ step) [
        | inl (update, here, same) ↦
            let same_position : s₁.position ≡ s.position =
              ap (λ (t : RunEvents F). t.position) same in
            let i = early-IsScript events s₁ s' (rw same_position l) rest c in
            update_step s.position event events here update
              (subst (λ p. IsScript (before_names p) events) same_position i)
        | inr advanced ↦
            let moved : s₁.position ≡ next_position s.position =
              ap (λ (t : RunEvents F). t.position) advanced.result in
            early_step s.position event events l advanced.expected
              (elim (Bool-cases (is_late (next_position s.position))) [
                | inr early ↦ inl (
                  early,
                  subst (λ p. IsScript (before_names p) events) moved
                      (early-IsScript events s₁ s' (rw moved early) rest c),
                )
                | inl late ↦ inr (
                  late,
                  subst (λ p. Named events (after_names p)) moved
                      (late_Named events s₁ s' (rw moved late) rest c),
                )
              ])
      ]

  -- The events of a call that settles are the opening, any number of updates, and the closing.
  pub settled-IsScript :
      (events : List (Fields F)) (s : RunEvents F)
      → run ops e start events ≡ ok s
      → s.position ≡ complete
      → IsScript opening events
  settled-IsScript events s h c = early-IsScript events start s refl h c
