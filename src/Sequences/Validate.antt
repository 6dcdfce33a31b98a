-- ===== src/Sequences/Validate.antt =====
-- app/chain/sequences.py: what `_validate_steps` accepts.
pub mod Exact
use ai_job_server.Prelude.{
  ℕ, ◌+◌, String, str_eq, Bool, true, false, not, Option, none, some, List, [], ◌∷◌, ltb, leb,
  if◌then◌else◌,
}
use ai_job_server.Prelude.Result.{Result, ok, err, ◌>>=◌, ◌>>◌, guard}
use ai_job_server.Chain.Renumber.{member}
use ai_job_server.Sequences.{
  Step, Alternative, Error, missing_number, duplicate_number, no_alternative, bad_weight, bad_goto,
  unknown_target, given_number, is_empty,
}

unfoldable pub validate_target : List ℕ → ℕ → ℕ → Option ℕ → Bool → Result Error (Unit {0})
unfolding member
validate_target numbers n ai none fall = guard fall (bad_goto n ai)
validate_target numbers n ai (some t) fall = do
  guard (not fall) (bad_goto n ai)
  guard (member t numbers) (unknown_target n ai t)

module _ {C : Type 0} where
  -- The first loop of `_validate_steps`: the numbers of the steps.
  unfoldable pub validate_numbers : ℕ → List ℕ → List (Step C) → Result Error (List ℕ)
  unfolding member
  validate_numbers idx numbers [] = ok numbers
  validate_numbers idx numbers (s ∷ steps) = do
    let n = given_number s.number
    guard (ltb 0 n) (missing_number idx)
    guard (not (member n numbers)) (duplicate_number n)
    validate_numbers (idx + 1) (n ∷ numbers) steps

  abbrev pub weight_of : Alternative C → ℕ
  weight_of a = elim a.weight [ none ↦ 1 | some w ↦ w ]

  unfoldable pub validate_weights : ℕ → ℕ → List (Alternative C) → Result Error (Unit {0})
  validate_weights n ai [] = ok tt
  validate_weights n ai (a ∷ alts) = do
    guard (leb 1 (weight_of a)) (bad_weight n ai)
    validate_weights n (ai + 1) alts

  unfoldable pub validate_gotos : List ℕ → ℕ → ℕ → List (Alternative C) → Result Error (Unit {0})
  unfolding validate_target
  validate_gotos numbers n ai [] = ok tt
  validate_gotos numbers n ai (a ∷ alts) = do
    validate_target numbers n ai a.target_step a.fall_through
    validate_gotos numbers n (ai + 1) alts

  abbrev pub has_kind : String → Step C → Bool
  has_kind k s = elim s.kind [ none ↦ false | some j ↦ str_eq j k ]

  unfoldable pub validate_alternatives : List ℕ → ℕ → Step C → Result Error (Unit {0})
  unfolding validate_weights validate_gotos
  validate_alternatives numbers n s = do
    guard (not (is_empty s.alternatives)) (no_alternative n)
    validate_weights n 1 s.alternatives
    if has_kind "goto" s then validate_gotos numbers n 1 s.alternatives else ok tt

  -- The second loop.
  unfoldable pub validate_each : List ℕ → List (Step C) → Result Error (Unit {0})
  unfolding validate_alternatives
  validate_each numbers [] = ok tt
  validate_each numbers (s ∷ steps) = do
    validate_alternatives numbers (given_number s.number) s
    validate_each numbers steps

  unfoldable pub validate_steps : List (Step C) → Result Error (Unit {0})
  unfolding validate_numbers validate_each
  validate_steps steps = do numbers ← validate_numbers 1 [] steps; validate_each numbers steps
