-- ===== src/Chain/Renumber.antt =====
-- app/chain/executor.py: the numbers of the top-level steps.
pub mod Unique
use ai_job_server.Prelude.{
  ℕ, zero, suc, ◌+◌, ◌<◌, ◌≤◌, ◌≡◌, ◌≢◌, refl, ◌∙◌, sym, ap, Bool, true, false, not, ◌&&◌, ◌||◌,
  Option, none, some, List, [], ◌∷◌, ◌++◌, map, ltb, leb, ◌==◌, if◌then◌else◌, length, any, keep,
  All, All-imp, arith, Bool-cases, inl, inr,
}
use ai_job_server.Chain.{ChainStep}

-- The first pass: the numbers that are given, or the first that is given twice.
pub data Seen : Type 0 where
  numbers : List ℕ → Seen
  duplicate : ℕ → Seen

unfoldable pub member : ℕ → List ℕ → Bool
unfolding any
member n seen = any (λ m. m == n) seen

module _ {C : Type 0} where
  unfoldable pub given : List (ChainStep C) → List ℕ → Seen
  unfolding member
  given [] seen = numbers seen
  given (s ∷ steps) seen =
      let skipped = given steps seen in
      let taken = given steps (s.number ∷ seen) in
      if ltb 0 s.number
      then (if member s.number seen then duplicate s.number else taken)
      else skipped

-- `while nxt in seen: nxt += 1`
unfoldable pub next_free : ℕ → ℕ → List ℕ → ℕ
unfolding member
next_free zero n seen = n
next_free (suc fuel) n seen =
    let later = next_free fuel (n + 1) seen in if member n seen then later else n

module _ {C : Type 0} where
  -- The second pass. A loop over the set `seen` has as many rounds as `seen` has numbers at most.
  unfoldable pub fill : ℕ → List ℕ → List (ChainStep C) → List (ChainStep C)
  unfolding next_free
  fill n seen [] = []
  fill n seen (s ∷ steps) =
      let free = next_free (length seen) n seen in
      let kept = fill n seen steps in
      let filled = fill (free + 1) (free ∷ seen) steps in
      if leb s.number 0 then record s { number = free } ∷ filled else s ∷ kept

  abbrev fill_seen : Seen → List (ChainStep C) → Option (List (ChainStep C))
  fill_seen (duplicate n) steps = none
  fill_seen (numbers seen) steps = some (fill 1 seen steps)

  -- `none` is the `ValueError` for a number that is given twice.
  unfoldable pub renumber_top_level : List (ChainStep C) → Option (List (ChainStep C))
  unfolding given fill
  renumber_top_level steps = fill_seen (given steps []) steps

-- The numbers of a list from n on.
abbrev upper : ℕ → List ℕ → List ℕ
upper n seen = keep (λ m. leb n m) seen

upper_suc_le : (n : ℕ) (seen : List ℕ) → length (upper (n + 1) seen) ≤ length (upper n seen)
unfolding keep
upper_suc_le n [] = omega arith
upper_suc_le n (m ∷ seen) = ground (arith, upper_suc_le n seen)

upper_suc_lt :
    (n : ℕ) (seen : List ℕ)
    → member n seen ≡ true
    → length (upper (n + 1) seen) < length (upper n seen)
unfolding member any keep
upper_suc_lt n [] h = cc
upper_suc_lt n (m ∷ seen) h = ground (arith, upper_suc_lt n seen, upper_suc_le n seen)

upper_nil : (n : ℕ) (seen : List ℕ) → length (upper n seen) ≤ 0 → member n seen ≡ false
unfolding member any keep
upper_nil n [] h = refl
upper_nil n (m ∷ seen) h = ground (arith, upper_nil n seen)

-- The loop ends at a number that is free, at the start or above.
pub next_free_lem :
    (fuel n : ℕ) (seen : List ℕ)
    → length (upper n seen) ≤ fuel
    → (member (next_free fuel n seen) seen ≡ false) × (n ≤ next_free fuel n seen)
unfolding next_free
next_free_lem zero n seen h = (upper_nil n seen h, omega arith)
next_free_lem (suc fuel) n seen h = elim (Bool-cases (member n seen)) [
  | inl e ↦ rw e (
      let r = next_free_lem fuel (n + 1) seen (omega (arith, upper_suc_lt n seen e)) in
      (r.0, omega (arith, r.1)))
  | inr e ↦ rw e (e, omega arith)
]
