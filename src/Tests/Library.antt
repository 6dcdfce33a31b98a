-- ===== src/Tests/Library.antt =====
-- Runs at fixed inputs, of app/chain/sequences.py and app/cruddables/envelope.py.
use ai_job_server.Prelude.{
  ◌≡◌, ◌⊎◌, ◌↔◌, refl, String, Bool, false, none, some, List, [], ◌∷◌, ◌++◌, if◌then◌else◌,
}
use ai_job_server.Prelude.Dict.{has}
use ai_job_server.Prelude.Result.{ok}
use ai_job_server.Cycles.{clear, cycle, check_for_cycles}
use ai_job_server.Cycles.Decides.{check_for_cycles_decides, From, OnCycle, Reaches}
use ai_job_server.Envelope.{unique_id}
use ai_job_server.Envelope.Fresh.{unique_id-fresh}
use ai_job_server.Sequences.{Alternative, Step, Sequence, normalize_steps}
use ai_job_server.Sequences.Validate.{validate_steps}
use ai_job_server.Sequences.Validate.Exact.{IsValid, validate_steps_iff}
use ai_job_server.Sequences.Store.{
  Presets, validate_llm_step_capabilities, save_sequence, duplicate_sequence, get_sequence,
}
use ai_job_server.Sequences.Store.Acyclic.{IsSound}
use ai_job_server.Sequences.Store.Reachable.{Reach, Write, Reach-IsSound}
use ai_job_server.Sequences.Store.Copies.{IsCopy, duplicate_sequence-IsCopy}

abbrev other_one : String → List String
other_one k = if str_is_a k then "b" ∷ [] else "a" ∷ []
  where
    str_is_a : String → Bool
    str_is_a k = has k ("a" ∷ [])

check_for_cycles_decides_example :
    ((b : List String) × (check_for_cycles ("a" ∷ "b" ∷ []) other_one "a" ≡ clear b)
      × ((m : String)
          → From ("a" ∷ "b" ∷ []) other_one "a" m
          → ¬ (Reaches ("a" ∷ "b" ∷ []) other_one m m)))
    ⊎ ((path : List String) × (d : String) × (check_for_cycles ("a" ∷ "b" ∷ []) other_one "a"
          ≡ cycle path d)
        × OnCycle ("a" ∷ "b" ∷ []) other_one "a")
unfolding has
check_for_cycles_decides_example = check_for_cycles_decides ("a" ∷ "b" ∷ []) other_one "a" refl

unique_id-fresh_example :
    (has (unique_id "a" ("a" ∷ "a_2" ∷ [])) ("a" ∷ "a_2" ∷ []) ≡ false)
    × (has "a" ("a" ∷ "a_2" ∷ []) ≡ false → unique_id "a" ("a" ∷ "a_2" ∷ []) ≡ "a")
unique_id-fresh_example = unique_id-fresh "a" ("a" ∷ "a_2" ∷ [])

-- A step that refers to a sequence by its id.
abbrev referring : String → Alternative String
referring sid = record {
  weight = none;
  sequence_id = some sid;
  target_step = none;
  fall_through = false;
  requires = [];
  preset = none;
  content = "";
}

abbrev call_of : String → Step String
call_of sid = record {
  number = some 1;
  kind = some "sequence";
  name = "s";
  visit_cap = some 100;
  alternatives = referring sid ∷ [];
  shorthand = none;
}

validate_steps_iff_example :
    (validate_steps (call_of "b" ∷ []) ≡ ok tt) ↔ IsValid (call_of "b" ∷ [])
validate_steps_iff_example = validate_steps_iff (call_of "b" ∷ [])

abbrev no_presets : Presets
no_presets = record { capabilities = λ p. none; default_preset = none }

abbrev saved_a : Sequence String
saved_a = record {
  id = "a";
  name = "a";
  description = "";
  tags = [];
  created_at = 7;
  updated_at = 7;
  steps = call_of "a_copy_2" ∷ [];
  variables = [];
}

Reach-IsSound_example : IsSound (saved_a ∷ [])
unfolding save_sequence validate_steps normalize_steps validate_llm_step_capabilities
Reach-IsSound_example = Reach-IsSound (
    Reach.next Reach.empty (
      Write.saved (λ s. s) "" no_presets 7 "a" (call_of "a_copy_2" ∷ []) []
        {r = (saved_a, saved_a ∷ [])} refl))

duplicate_sequence-IsCopy_example :
    ((duplicate_sequence (λ s. s) 9 "a" (saved_a ∷ []) ≡ none)
      × (get_sequence "a" (saved_a ∷ []) ≡ none))
    ⊎ ((source : Sequence String) × (copy : Sequence String) × (get_sequence "a" (saved_a ∷ [])
          ≡ some source)
        × (duplicate_sequence (λ s. s) 9 "a" (saved_a ∷ [])
            ≡ some (copy, (saved_a ∷ []) ++ copy ∷ []))
        × IsCopy source copy (saved_a ∷ []))
duplicate_sequence-IsCopy_example = duplicate_sequence-IsCopy (λ s. s) 9 "a" (saved_a ∷ [])
