-- ===== src/Sequences/Store/Copies.antt =====
-- app/chain/sequences.py: `duplicate_sequence`, which is not checked for cycles.
use Prim.Native.String.{◌++◌ as str_append}
use text.Mathlib.TextLemmas.{append_cancel_left, append_cancel_right}
use ai_job_server.Prelude.{
  ℕ, ◌≡◌, ◌⊎◌, refl, String, str_eq, false, none, some, List, [], ◌∷◌, ◌++◌, map, if_ind, first,
  Option-cases, inl, inr,
}
use ai_job_server.Prelude.Dict.{has}
use ai_job_server.Prelude.Decimal.{decimal, decimal-injective}
use ai_job_server.Envelope.{unique_id}
use ai_job_server.Envelope.Fresh.{unique_id-fresh, first_free_lem}
use ai_job_server.Sequences.{Sequence}
use ai_job_server.Sequences.Store.{
  ids, get_sequence, duplicate_sequence, unique_name, numbered_name,
}

numbered_name-injective :
    (base : String) (m n : ℕ) → numbered_name base m ≡ numbered_name base n → m ≡ n
numbered_name-injective base m n h = decimal-injective m n (
    append_cancel_right (decimal m) (decimal n) ")" (
      append_cancel_left " (" (str_append (decimal m) ")") (str_append (decimal n) ")")
        (append_cancel_left base _ _ h)))

unique_name-fresh :
    (base : String) (existing : List String) → has (unique_name base existing) existing ≡ false
unfolding unique_name
unique_name-fresh base existing =
    if_ind (λ (s : String). has s existing ≡ false) (has base existing)
      (λ _. first_free_lem (numbered_name base) (numbered_name-injective base) existing 2) (λ h. h)

module _ {C : Type 0} where
  -- What a copy of a source at the end of the library has to be.
  pub record IsCopy (source copy : Sequence C) (entries : List (Sequence C)) : Type 0 where
    pub new_id : has copy.id (ids entries) ≡ false
    pub new_name : has copy.name (map (λ e. e.name) entries) ≡ false
    pub same_steps : copy.steps ≡ source.steps
    pub same_variables : copy.variables ≡ source.variables

  -- A duplicate of a sequence that is found is put at the end, with the steps and variables of its
  -- source and with an id and a name that no sequence has; without the source nothing is written.
  pub duplicate_sequence-IsCopy :
      (slugify : String → String) (now : ℕ) (sid : String) (entries : List (Sequence C))
      → ((duplicate_sequence slugify now sid entries ≡ none) × (get_sequence sid entries ≡ none))
        ⊎ ((source : Sequence C) × (copy : Sequence C) × (get_sequence sid entries ≡ some source)
            × (duplicate_sequence slugify now sid entries ≡ some (copy, entries ++ copy ∷ []))
            × IsCopy source copy entries)
  unfolding duplicate_sequence get_sequence
  duplicate_sequence-IsCopy slugify now sid entries =
      elim (Option-cases (first (λ e. str_eq e.id sid) entries)) [
        | inl n ↦ inl (rw (n, duplicate_sequence) refl, n)
        | inr (source, e) ↦ inr (
          source,
          record source {
            id = unique_id (slugify (copy_name source)) (ids entries);
            name = copy_name source;
            created_at = now;
            updated_at = now;
          },
          e,
          rw (e, duplicate_sequence) refl,
          record {
            new_id = (unique_id-fresh (slugify (copy_name source)) (ids entries)).0;
            new_name =
                unique_name-fresh (str_append source.name " (copy)") (map (λ x. x.name) entries);
            same_steps = refl;
            same_variables = refl;
          },
        )
      ]
    where
      copy_name : Sequence C → String
      copy_name source = unique_name (str_append source.name " (copy)") (map (λ x. x.name) entries)
