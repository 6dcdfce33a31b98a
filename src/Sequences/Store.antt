-- ===== src/Sequences/Store.antt =====
-- app/chain/sequences.py: the operations on the library of sequences. An operation gives the entries
-- that it writes to the index file, or nothing if it writes none.
pub mod Acyclic
pub mod Copies
pub mod Keeps
pub mod Reachable
use Prim.Native.String.{◌++◌ as str_append}
use ai_job_server.Prelude.{
  ℕ, ◌+◌, ◌==◌, String, str_eq, Bool, true, false, not, ◌&&◌, ◌||◌, Option, none, some, List, [],
  ◌∷◌, ◌++◌, map, if◌then◌else◌, length, first, any, keep,
}
use ai_job_server.Prelude.Dict.{has}
use ai_job_server.Prelude.Decimal.{decimal}
use ai_job_server.Prelude.Result.{Result, ok, err, ◌>>=◌, ◌>>◌, guard}
use ai_job_server.Cycles.{Search, clear, cycle, out_of_fuel, check_for_cycles}
use ai_job_server.Envelope.{unique_id, first_free}
use ai_job_server.Sequences.{
  Alternative, Step, Sequence, Error, no_preset, unknown_preset, missing_capabilities,
  cycle_detected, search_not_ended, given_number, is_empty, normalize_steps,
}
use ai_job_server.Sequences.Validate.{has_kind, validate_steps}

-- What `llm_presets` and the configuration of the backend say: the capabilities of a preset by its
-- name, and the name of the default preset.
pub record Presets : Type 0 where
  pub capabilities : String → Option (List String)
  pub default_preset : Option String

unfoldable pub check_preset :
    Presets → ℕ → ℕ → List String → Option String → Result Error (Unit {0})
unfolding has
check_preset presets n ai requires none = err (no_preset n ai)
check_preset presets n ai requires (some name) = elim (presets.capabilities name) [
  | none ↦ err (unknown_preset n ai name)
  | some caps ↦
      let missing = keep (λ c. not (has c caps)) requires in
      guard (is_empty missing) (missing_capabilities n ai missing)
]

abbrev or_else : Option String → Option String → Option String
or_else none d = d
or_else (some p) d = if str_eq p "" then d else some p

-- An empty name of a preset counts as none.
abbrev not_empty : Option String → Option String
not_empty p = or_else p none

-- `f"{base} ({n})"`
abbrev pub numbered_name : String → ℕ → String
numbered_name base n = str_append base (str_append " (" (str_append (decimal n) ")"))

unfoldable pub unique_name : String → List String → String
unfolding first_free has
unique_name base existing =
    if has base existing then first_free (numbered_name base) (length existing) 2 existing else base

abbrev ref_of : Option String → List String
ref_of none = []
ref_of (some id) = if str_eq id "" then [] else id ∷ []

abbrev pub answer : Search → Result Error (Unit {0})
answer (clear black) = ok tt
answer (cycle path node) = err (cycle_detected path node)
answer out_of_fuel = err search_not_ended

module _ {C : Type 0} where
  unfoldable pub check_alternatives :
      Presets → ℕ → ℕ → List (Alternative C) → Result Error (Unit {0})
  unfolding check_preset
  check_alternatives presets n ai [] = ok tt
  check_alternatives presets n ai (a ∷ alts) = do
    (if is_empty a.requires
        then ok tt
        else check_preset presets n ai a.requires
            (or_else a.preset (not_empty presets.default_preset)))
    check_alternatives presets n (ai + 1) alts

  unfoldable pub validate_llm_step_capabilities : Presets → List (Step C) → Result Error (Unit {0})
  unfolding check_alternatives
  validate_llm_step_capabilities presets [] = ok tt
  validate_llm_step_capabilities presets (s ∷ steps) = do
    (if has_kind "llm" s
        then check_alternatives presets (given_number s.number) 1 s.alternatives
        else ok tt)
    validate_llm_step_capabilities presets steps

  abbrev pub ids : List (Sequence C) → List String
  ids entries = map (λ e. e.id) entries

  -- `seq_map[sid]`: the last sequence with the id.
  unfoldable pub steps_by_id : String → List (Sequence C) → List (Step C)
  unfolding has
  steps_by_id sid [] = []
  steps_by_id sid (e ∷ entries) =
      let later = steps_by_id sid entries in
      if str_eq e.id sid && not (has sid (ids entries)) then e.steps else later

  unfoldable pub alternative_refs : List (Alternative C) → List String
  alternative_refs [] = []
  alternative_refs (a ∷ alts) = ref_of a.sequence_id ++ alternative_refs alts

  abbrev shorthand_ref : Option (Alternative C) → List String
  shorthand_ref none = []
  shorthand_ref (some a) = ref_of a.sequence_id

  unfoldable pub step_refs : List (Step C) → List String
  unfolding alternative_refs
  step_refs [] = []
  step_refs (s ∷ steps) =
      let rest = step_refs steps in
      if has_kind "sequence" s
      then alternative_refs s.alternatives ++ (shorthand_ref s.shorthand ++ rest)
      else rest

  unfoldable pub direct_deps : List (Sequence C) → String → List String
  unfolding steps_by_id step_refs
  direct_deps entries sid = step_refs (steps_by_id sid entries)

  unfoldable pub check_entries : List (Sequence C) → String → Result Error (Unit {0})
  unfolding check_for_cycles direct_deps
  check_entries entries root = answer (check_for_cycles (ids entries) (direct_deps entries) root)

  -- The first entry that passes a test, changed in its place.
  unfoldable pub modify_first :
      (Sequence C → Bool) → (Sequence C → Sequence C) → List (Sequence C) → List (Sequence C)
  modify_first p f [] = []
  modify_first p f (e ∷ entries) = if p e then f e ∷ entries else e ∷ modify_first p f entries

  -- What is written, once the check from the changed sequence has passed.
  unfoldable pub commit :
      Sequence C → List (Sequence C) → Result Error (Sequence C × List (Sequence C))
  unfolding check_entries
  commit e entries = do check_entries entries e.id; ok (e, entries)

  unfoldable pub new_sequence :
      (String → String) → ℕ → String → List (Step C) → List String → List (Sequence C) → Sequence C
  unfolding unique_id
  new_sequence slugify now name steps variables entries = record {
    id = unique_id (slugify name) (ids entries);
    name = name;
    description = "";
    tags = [];
    created_at = now;
    updated_at = now;
    steps = steps;
    variables = variables;
  }

  abbrev pub with_steps : ℕ → List (Step C) → List String → Sequence C → Sequence C
  with_steps now steps variables e = record e {
    steps = steps;
    variables = variables;
    updated_at = now;
  }

  unfoldable pub store :
      (String → String)
      → ℕ
      → String
      → List (Step C)
      → List String
      → List (Sequence C)
      → Result Error (Sequence C × List (Sequence C))
  unfolding commit new_sequence modify_first first
  store slugify now name steps variables entries = elim (first (λ e. str_eq e.name name) entries) [
    | none ↦
        let e = new_sequence slugify now name steps variables entries in
        commit e (entries ++ e ∷ [])
    | some e ↦
        commit (with_steps now steps variables e)
          (modify_first (λ x. str_eq x.name name) (with_steps now steps variables) entries)
  ]

  unfoldable pub save_sequence :
      (String → String)
      → C
      → Presets
      → ℕ
      → String
      → List (Step C)
      → List String
      → List (Sequence C)
      → Result Error (Sequence C × List (Sequence C))
  unfolding store
  save_sequence slugify blank presets now name steps variables entries =
      let normalized = normalize_steps blank 1 steps in
      do
        validate_steps normalized
        validate_llm_step_capabilities presets normalized
        store slugify now name normalized variables entries

  unfoldable pub delete_sequence : String → List (Sequence C) → Option (List (Sequence C))
  unfolding keep
  delete_sequence sid entries =
      let rest = keep (λ e. not (str_eq e.id sid)) entries in
      if length rest == length entries then none else some rest

  unfoldable pub duplicate_sequence :
      (String → String) → ℕ → String → List (Sequence C) → Option (Sequence C × List (Sequence C))
  unfolding first unique_name
  duplicate_sequence slugify now sid entries = elim (first (λ e. str_eq e.id sid) entries) [
    | none ↦ none
    | some source ↦
        let name = unique_name (str_append source.name " (copy)") (map (λ e. e.name) entries) in
        let copy = record source {
          id = unique_id (slugify name) (ids entries);
          name = name;
          created_at = now;
          updated_at = now;
        } in
        some (copy, entries ++ copy ∷ [])
  ]

  unfoldable pub get_sequence : String → List (Sequence C) → Option (Sequence C)
  unfolding first
  get_sequence sid entries = first (λ e. str_eq e.id sid) entries

  abbrev pub over : ℕ → Sequence C → Sequence C → Sequence C
  over now doc e = record doc { created_at = e.created_at; updated_at = now }

  unfoldable pub put :
      ℕ → Sequence C → List (Sequence C) → Result Error (Sequence C × List (Sequence C))
  unfolding first modify_first commit
  put now doc entries = elim (first (λ e. str_eq e.id doc.id) entries) [
    | none ↦ let e = record doc { updated_at = now } in commit e (entries ++ e ∷ [])
    | some e ↦
        commit (over now doc e) (modify_first (λ x. str_eq x.id doc.id) (over now doc) entries)
  ]

  -- Without the check of capabilities, so that a pack of another machine can be applied.
  unfoldable pub upsert_envelope :
      C → ℕ → Sequence C → List (Sequence C) → Result Error (Sequence C × List (Sequence C))
  unfolding put
  upsert_envelope blank now env entries =
      let doc = record env { steps = normalize_steps blank 1 env.steps } in
      do validate_steps doc.steps; put now doc entries
