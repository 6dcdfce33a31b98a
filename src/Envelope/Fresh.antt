-- ===== src/Envelope/Fresh.antt =====
-- app/cruddables/envelope.py: a new id is not taken, and the search for it ends.
use Prim.Native.String.{◌++◌ as str_append}
use text.Mathlib.TextLemmas.{append_cancel_left}
use ai_job_server.Prelude.{
  ℕ, zero, suc, ◌+◌, ◌≤◌, ◌≡◌, refl, sym, ◌∙◌, String, false, List, [], ◌∷◌, arith, length, if_ind,
  eq_iff,
}
use ai_job_server.Prelude.Dict.{has, discard}
use ai_job_server.Prelude.Names.{has-discard, length-discard, has-nil}
use ai_job_server.Prelude.Decimal.{decimal, decimal-injective}
use ai_job_server.Envelope.{first_free, numbered_id, unique_id}

module _ (name : ℕ → String) (distinct : (m n : ℕ) → name m ≡ name n → m ≡ n)
    (taken : List String) where
  -- `left` has all names from n on that are taken.
  free_from :
      (fuel n : ℕ) (left : List String)
      → ((m : ℕ) → n ≤ m → has (name m) taken ≡ has (name m) left)
      → length left ≤ fuel
      → has (first_free name fuel n taken) taken ≡ false
  unfolding first_free
  free_from zero n [] same l = same n (omega arith) ∙ has-nil (name n)
  free_from zero n (k ∷ left) same l = absurd (omega (arith, l))
  free_from (suc fuel) n left same l =
      if_ind (λ (s : String). has s taken ≡ false) (has (name n) taken)
        (λ h.
          let inside = sym (same n (omega arith)) ∙ h in
          free_from fuel (n + 1) (discard (name n) left)
            (λ m p. ground (
              arith,
              has-discard (name n) (name m) left,
              same m,
              eq_iff (name n) (name m),
              distinct n m,
              p,
            ))
            (omega (arith, l, length-discard (name n) left inside)))
        (λ h. h)

  pub first_free_lem : (n : ℕ) → has (first_free name (length taken) n taken) taken ≡ false
  first_free_lem n = free_from (length taken) n taken (λ m p. refl) (omega arith)

numbered_id-injective : (base : String) (m n : ℕ) → numbered_id base m ≡ numbered_id base n → m ≡ n
numbered_id-injective base m n h = decimal-injective m n (
    append_cancel_left "_" (decimal m) (decimal n)
      (append_cancel_left base (str_append "_" (decimal m)) (str_append "_" (decimal n)) h))

-- An id that is made unique is not taken, whatever is, and it is the base itself if that is free.
pub unique_id-fresh :
    (base : String) (taken : List String)
    → (has (unique_id base taken) taken ≡ false)
      × (has base taken ≡ false → unique_id base taken ≡ base)
unfolding unique_id
unique_id-fresh base taken = (
  if_ind (λ (s : String). has s taken ≡ false) (has base taken)
      (λ _. first_free_lem (numbered_id base) (numbered_id-injective base) taken 2) (λ h. h),
  λ h. rw h,
)
