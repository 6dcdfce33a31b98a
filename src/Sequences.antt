-- ===== src/Sequences.antt =====
-- app/chain/sequences.py: the library of step sequences, as the list that its index file holds.
-- `C` stands for the fields of a step's alternative that only the runners read; a number or weight
-- that is no positive integer is 0, and one that is not there is `none`.
pub mod Validate
pub mod Store
use ai_job_server.Prelude.{
  ℕ, zero, suc, ◌+◌, ◌==◌, String, str_eq, Bool, true, false, not, ◌&&◌, ◌||◌, Option, none, some,
  List, [], ◌∷◌, ◌++◌, map, ltb, leb, if◌then◌else◌, length, first, any, keep,
}
use ai_job_server.Prelude.Dict.{has}
use ai_job_server.Prelude.Decimal.{decimal}
use ai_job_server.Prelude.Result.{Result, ok, err, ◌>>=◌, ◌>>◌, guard}
use ai_job_server.Chain.Renumber.{member}
use ai_job_server.Cycles
use ai_job_server.Cycles.{Search, clear, cycle, out_of_fuel}
use ai_job_server.Envelope.{unique_id, first_free}
use Prim.Native.String.{◌++◌ as str_append}

pub record Alternative (C : Type 0) : Type 0 where
  pub weight : Option ℕ
  pub sequence_id : Option String
  pub target_step : Option ℕ
  pub fall_through : Bool
  pub requires : List String
  pub preset : Option String
  pub content : C

-- `shorthand` is what a step of the first version has of an alternative's fields.
pub record Step (C : Type 0) : Type 0 where
  pub number : Option ℕ
  pub kind : Option String
  pub name : String
  pub visit_cap : Option ℕ
  pub alternatives : List (Alternative C)
  pub shorthand : Option (Alternative C)

pub record Sequence (C : Type 0) : Type 0 where
  pub id : String
  pub name : String
  pub description : String
  pub tags : List String
  pub created_at : ℕ
  pub updated_at : ℕ
  pub steps : List (Step C)
  pub variables : List String

-- The `ValueError`s; a step is named by its number and an alternative by its place.
pub data Error : Type 0 where
  missing_number duplicate_number no_alternative : ℕ → Error
  bad_weight bad_goto : ℕ → ℕ → Error
  unknown_target : ℕ → ℕ → ℕ → Error
  no_preset : ℕ → ℕ → Error
  unknown_preset : ℕ → ℕ → String → Error
  missing_capabilities : ℕ → ℕ → List String → Error
  cycle_detected : List String → String → Error
  search_not_ended : Error

abbrev pub given_number : Option ℕ → ℕ
given_number none = 0
given_number (some n) = n

abbrev pub is_positive : Option ℕ → Bool
is_positive n = ltb 0 (given_number n)

abbrev or_default {ℓ} : {A : Type ℓ} → A → Option A → A
or_default d none = d
or_default d (some a) = a

abbrev pub is_empty {ℓ} : {A : Type ℓ} → List A → Bool
is_empty [] = true
is_empty _ = false

module _ {C : Type 0} where
  unfoldable pub normalize_alternatives :
      C → Option (Alternative C) → List (Alternative C) → List (Alternative C)
  normalize_alternatives blank (some a) [] = a ∷ []
  normalize_alternatives blank none [] =
      record {
        weight = none;
        sequence_id = none;
        target_step = none;
        fall_through = false;
        requires = [];
        preset = none;
        content = blank;
      }
      ∷ []
  normalize_alternatives blank s alts = alts

  abbrev kept_shorthand : List (Alternative C) → Option (Alternative C) → Option (Alternative C)
  kept_shorthand [] s = none
  kept_shorthand alts s = s

  unfoldable pub normalize_step : C → ℕ → Step C → Step C
  unfolding normalize_alternatives
  normalize_step blank position s = record s {
    number = if is_positive s.number then s.number else some position;
    kind = some (or_default "llm" s.kind);
    visit_cap = some (or_default 100 s.visit_cap);
    alternatives = normalize_alternatives blank s.shorthand s.alternatives;
    shorthand = kept_shorthand s.alternatives s.shorthand;
  }

  unfoldable pub normalize_steps : C → ℕ → List (Step C) → List (Step C)
  unfolding normalize_step
  normalize_steps blank position [] = []
  normalize_steps blank position (s ∷ steps) =
      normalize_step blank position s ∷ normalize_steps blank (position + 1) steps
