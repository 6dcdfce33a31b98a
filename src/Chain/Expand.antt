-- ===== src/Chain/Expand.antt =====
-- app/chain/executor.py: the sequences of a chain job, put in the place of the steps that name them.
-- `sequences` gives the steps of a sequence by its id; the numbers of these are not negative.
pub mod Order
use Prim.Native.String.{◌++◌ as str_append}
use ai_job_server.Prelude.{
  ℕ, zero, suc, ◌+◌, ◌*◌, String, str_eq, Bool, true, false, not, Option, none, some, List, [], ◌∷◌,
  ◌++◌, map, ltb, ◌==◌, if◌then◌else◌, length,
}
use ai_job_server.Chain.{ChainStep, Alternative, StepType, sequence, goto}

-- The errors that are raised; `no_alternative` is an `IndexError`, the others are `RuntimeError`s.
pub data ExpansionError : Type 0 where
  too_deep : ExpansionError
  no_alternative no_sequence_id : (name : String) → ExpansionError
  unknown_sequence : (name id : String) → ExpansionError

pub data Expansion (C : Type 0) : Type 0 where
  expanded : List (ChainStep C) → Expansion C
  refused : ExpansionError → Expansion C

abbrev pub is_sequence : StepType → Bool
is_sequence sequence = true
is_sequence _ = false

abbrev pub is_goto : StepType → Bool
is_goto goto = true
is_goto _ = false

unfoldable pub with_prefix : String → String → String
with_prefix prefix name =
    if str_eq prefix "" then name else str_append prefix (str_append " > " name)

module _ {C : Type 0} where
  abbrev shift_target : ℕ → Alternative C → Alternative C
  shift_target offset a = elim a.target_step [
    | none ↦ a
    | some n ↦ record a { target_step = some (offset + n) }
  ]

  unfoldable pub shift_targets : ℕ → StepType → List (Alternative C) → List (Alternative C)
  shift_targets offset kind l = if is_goto kind then map (shift_target offset) l else l

  -- A step that is no sequence, in its scope.
  unfoldable pub in_scope : ℕ → String → ChainStep C → ChainStep C
  unfolding with_prefix shift_targets
  in_scope offset prefix s =
      let named = record s { name = with_prefix prefix s.name } in
      if offset == 0 then named else record named {
        number = offset + s.number;
        alternatives = shift_targets offset s.kind s.alternatives;
      }

  abbrev outer_number : ℕ → ChainStep C → ℕ
  outer_number n s = if ltb 0 s.number then s.number else n + 1

  module _ (sequences : String → Option (List (ChainStep C))) where
    module _ (inner : ℕ → String → List (ChainStep C) → Expansion C) where
      unfoldable pub expand_found :
          ℕ → String → String → String → Option (List (ChainStep C)) → Expansion C
      expand_found offset prefix name id none = refused (unknown_sequence name id)
      expand_found offset prefix name id (some steps) = inner offset prefix steps

      unfoldable pub expand_id : ℕ → String → String → Option String → Expansion C
      unfolding expand_found
      expand_id offset prefix name none = refused (no_sequence_id name)
      expand_id offset prefix name (some id) =
          if str_eq id ""
          then refused (no_sequence_id name)
          else expand_found offset prefix name id (sequences id)

      unfoldable pub expand_primary : ℕ → String → String → List (Alternative C) → Expansion C
      unfolding expand_id
      expand_primary offset prefix name [] = refused (no_alternative name)
      expand_primary offset prefix name (primary ∷ rest) =
          expand_id offset prefix name primary.sequence_id

      -- What takes the place of a sequence step, when n steps stand before it.
      unfoldable pub expand_one : String → ℕ → ChainStep C → Expansion C
      unfolding expand_primary with_prefix
      expand_one prefix n s =
          expand_primary (outer_number n s * 1000) (with_prefix prefix s.name) s.name s.alternatives

    -- The loop over the steps, with the result so far.
    unfoldable pub expand_list :
        (ℕ → String → List (ChainStep C) → Expansion C)
        → ℕ
        → String
        → List (ChainStep C)
        → List (ChainStep C)
        → Expansion C
    unfolding expand_one in_scope
    expand_list inner offset prefix result [] = expanded result
    expand_list inner offset prefix result (s ∷ steps) = elim (is_sequence s.kind) [
      | false ↦ expand_list inner offset prefix (result ++ in_scope offset prefix s ∷ []) steps
      | true ↦ elim (expand_one inner prefix (length result) s) [
        | refused e ↦ refused e
        | expanded l ↦ expand_list inner offset prefix (result ++ l) steps
      ]
    ]

    -- `levels` is how many levels may still be opened: 21 at the top, where `depth` is 0.
    unfoldable pub expand_levels : ℕ → ℕ → String → List (ChainStep C) → Expansion C
    unfolding expand_list
    expand_levels zero offset prefix steps = refused too_deep
    expand_levels (suc levels) offset prefix steps =
        expand_list (λ o p l. expand_levels levels o p l) offset prefix [] steps

    unfoldable pub expand_steps : List (ChainStep C) → Expansion C
    unfolding expand_levels
    expand_steps steps = expand_levels 21 0 "" steps
