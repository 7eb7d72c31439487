-- ===== src/Llm/Events/Order.antt =====
-- llm/rpc_messages.py, `RunEvents.accept`: the order of the events of a settled call.
use paper_radar.Prelude.{
  Bool, Bool-cases, List, String, [], and_first, and_second, any, inl, inr, refl, sym, true, ◌&&◌,
  ◌∷◌, ◌≡◌, ◌⊎◌,
}
use paper_radar.Llm.Problem.{
  >>=-eq-ok, Rpc, event_not_allowed, event_sequence, ok, ok_injective, problem, ◌>>=◌, ◌>>◌,
}
use paper_radar.Llm.Json.{Fields, FloatOps, get, text_is}
use paper_radar.Llm.Messages.{Expectation, update}
use paper_radar.Llm.Events.{
  Position, RunEvents, accept, assistant_end, event_names, handle, is_assistant_end, is_expected,
  kind_of, next_position,
}

abbrev pub IsUpdate : {F : Type 0} → Fields F → Type 0
IsUpdate event = text_is (get "type" event) "message_update" ≡ true

-- The events have these names, one for one.
abbrev pub Named : {F : Type 0} → List (Fields F) → List String → Type 0
Named [] [] = Unit
Named (event ∷ events) (name ∷ names) =
    (text_is (get "type" event) name ≡ true) × Named events names
Named _ _ = ⊥

pub at_assistant_end : (p : Position) → is_assistant_end p ≡ true → p ≡ assistant_end
at_assistant_end assistant_end h = refl
at_assistant_end _ h = cc

module _ {F : Type 0} (ops : FloatOps F) (e : Expectation) where
  -- An update is accepted only between the two events of the assistant, and changes nothing.
  abbrev pub Updated : RunEvents F → Fields F → RunEvents F → Type 0
  Updated s event s' = IsUpdate event × (s.position ≡ assistant_end) × (s' ≡ s)

  -- Any other event is the one that the position expects.
  pub record Advanced (s : RunEvents F) (event : Fields F) (s' : RunEvents F) : Type 0 where
    pub expected : is_expected ops e event s.position ≡ true
    pub handled : RunEvents F
    pub by_handler : handle ops e s.position s event ≡ ok handled
    pub result : s' ≡ record handled { position = next_position s.position }

  pub accept_cases :
      (s : RunEvents F) (event : Fields F) (s' : RunEvents F)
      → accept ops e s event ≡ ok s'
      → Updated s event s' ⊎ Advanced s event s'
  unfolding accept
  accept_cases s event s' h = elim (Bool-cases is_live_update) [
    | inl live ↦
        let h' : (update ops event >> ok s) ≡ ok s' = rw live at h in
        let (_, _, same) = >>=-eq-ok (update ops event) (λ _. ok s) h' in
        inl (
          and_first (text_is (kind_of ops e event) "message_update") _ live,
          at_assistant_end s.position
              (and_second (text_is (kind_of ops e event) "message_update") _ live),
          sym (ok_injective same),
        )
    | inr other ↦ elim (Bool-cases (any (text_is (kind_of ops e event)) event_names)) [
      | inr unknown_name ↦
          let h' : problem event_not_allowed ≡ ok s' = rw (other, unknown_name) at h in cc
      | inl known ↦ elim (Bool-cases (is_expected ops e event s.position)) [
        | inr early ↦ let h' : problem event_sequence ≡ ok s' = rw (other, known, early) at h in cc
        | inl expected ↦
            let h' : (handle ops e s.position s event >>= forward) ≡ ok s' =
              rw (other, known, expected) at h in
            let (handled, by, last) = >>=-eq-ok (handle ops e s.position s event) forward h' in
            inr (record {
              expected = expected;
              handled = handled;
              by_handler = by;
              result = sym (ok_injective last);
            })
      ]
    ]
  ]
    where
      is_live_update : Bool
      is_live_update = text_is (kind_of ops e event) "message_update" && is_assistant_end s.position

      forward : RunEvents F → Rpc (RunEvents F)
      forward handled = ok (record handled { position = next_position s.position })
