-- ===== src/Chain/Expand/Order.antt =====
-- app/chain/executor.py: which steps and numbers an expansion gives.
use ai_job_server.Prelude.{
  ℕ, zero, suc, ◌*◌, ◌≤◌, ◌<◌, ◌≡◌, refl, sym, ◌∙◌, ap, subst, String, str_eq, true, false, Option,
  none, some, List, [], ◌∷◌, ◌++◌, arith, ltb, ◌==◌, if_ind, length, All, All-append, All-imp,
  Bool-cases, inl, inr,
}
use ai_job_server.Chain.{ChainStep, Alternative}
use ai_job_server.Chain.Expand.{
  Expansion, expanded, refused, is_sequence, with_prefix, in_scope, outer_number, expand_found,
  expand_id, expand_primary, expand_one, expand_list, expand_levels, expand_steps,
}

module _ {C : Type 0} (sequences : String → Option (List (ChainStep C))) where
  -- If the expansion succeeds, then with steps of which all have a property.
  abbrev Gives : (ChainStep C → Type 0) → Expansion C → Type 0
  Gives P (expanded l) = All P l
  Gives P (refused e) = Unit

  -- A step of a job that can run, with a number of its scope.
  abbrev pub IsFlat : ℕ → ChainStep C → Type 0
  IsFlat offset s = (is_sequence s.kind ≡ false) × (offset ≤ s.number)

  in_scope-IsFlat :
      (offset : ℕ) (prefix : String) (s : ChainStep C)
      → is_sequence s.kind ≡ false
      → IsFlat offset (in_scope offset prefix s)
  unfolding in_scope
  in_scope-IsFlat offset prefix s h =
      if_ind (λ (r : ChainStep C). IsFlat offset r) (offset == 0) (λ z. (h, ground (arith, z)))
        (λ _. (h, omega arith))

  module _ (k : ℕ) (small : k ≤ 1000) (inner : ℕ → String → List (ChainStep C) → Expansion C)
      (inner-Gives : (o : ℕ) (p : String) (l : List (ChainStep C))
        → 1000 ≤ o
        → Gives (IsFlat k) (inner o p l)) where
    found-Gives :
        (o : ℕ) (p name id : String) (r : Option (List (ChainStep C)))
        → 1000 ≤ o
        → Gives (IsFlat k) (expand_found sequences inner o p name id r)
    unfolding expand_found
    found-Gives o p name id none h = tt
    found-Gives o p name id (some l) h = inner-Gives o p l h

    id-Gives :
        (o : ℕ) (p name : String) (r : Option String)
        → 1000 ≤ o
        → Gives (IsFlat k) (expand_id sequences inner o p name r)
    unfolding expand_id
    id-Gives o p name none h = tt
    id-Gives o p name (some id) h =
        if_ind (Gives (IsFlat k)) (str_eq id "") (λ _. tt)
          (λ _. found-Gives o p name id (sequences id) h)

    primary-Gives :
        (o : ℕ) (p name : String) (r : List (Alternative C))
        → 1000 ≤ o
        → Gives (IsFlat k) (expand_primary sequences inner o p name r)
    unfolding expand_primary
    primary-Gives o p name [] h = tt
    primary-Gives o p name (a ∷ r) h = id-Gives o p name a.sequence_id h

    outer_large : (n : ℕ) (s : ChainStep C) → 1000 ≤ outer_number n s * 1000
    outer_large n s =
        if_ind (λ (m : ℕ). 1000 ≤ m * 1000) (ltb 0 s.number) (λ h. ground (arith, h))
          (λ _. omega arith)

    one-Gives :
        (p : String) (n : ℕ) (s : ChainStep C) → Gives (IsFlat k) (expand_one sequences inner p n s)
    unfolding expand_one
    one-Gives p n s = primary-Gives _ _ s.name s.alternatives (outer_large n s)

    onward-Gives :
        (result : List (ChainStep C)) (e : Expansion C) (next : List (ChainStep C) → Expansion C)
        → ((l : List (ChainStep C)) → All (IsFlat k) l → Gives (IsFlat k) (next l))
        → All (IsFlat k) result
        → Gives (IsFlat k) e
        → Gives (IsFlat k) (elim e [ refused x ↦ refused x | expanded l ↦ next (result ++ l) ])
    onward-Gives result (refused x) next f r g = tt
    onward-Gives result (expanded l) next f r g = f (result ++ l) (All-append _ result l r g)

    list-Gives :
        (o : ℕ) (p : String) (result steps : List (ChainStep C))
        → k ≤ o
        → All (IsFlat k) result
        → Gives (IsFlat k) (expand_list sequences inner o p result steps)
    unfolding expand_list
    list-Gives o p result [] h r = r
    list-Gives o p result (s ∷ steps) h r = elim (Bool-cases (is_sequence s.kind)) [
      | inr e ↦
          let f = in_scope-IsFlat o p s e in
          rw (e, Gives)
            (list-Gives o p (result ++ in_scope o p s ∷ []) steps h
              (All-append _ result (in_scope o p s ∷ []) r ((f.0, omega (arith, f.1, h)), tt)))
      | inl e ↦
          rw (e, Gives)
            (onward-Gives result (expand_one sequences inner p (length result) s)
              (λ l. expand_list sequences inner o p l steps) (λ l g. list-Gives o p l steps h g) r
              (one-Gives p (length result) s))
    ]

  levels-Gives :
      (k : ℕ) (levels : ℕ) (o : ℕ) (p : String) (l : List (ChainStep C))
      → k ≤ 1000
      → k ≤ o
      → Gives (IsFlat k) (expand_levels sequences levels o p l)
  unfolding expand_levels
  levels-Gives k zero o p l h g = tt
  levels-Gives k (suc levels) o p l h g =
      list-Gives k h (λ o' p' l'. expand_levels sequences levels o' p' l')
        (λ o' p' l' m. levels-Gives k levels o' p' l' h (omega (arith, h, m))) o p [] l g tt

  -- A successful expansion leaves no sequence step, at any depth.
  pub expand_steps-IsFlat :
      (steps out : List (ChainStep C))
      → expand_steps sequences steps ≡ expanded out
      → All (λ s. is_sequence s.kind ≡ false) out
  unfolding expand_steps
  expand_steps-IsFlat steps out h =
      All-imp _ _ out (λ s f. f.0)
        (subst (Gives (IsFlat 0)) h (levels-Gives 0 21 0 "" steps (omega arith) (omega arith)))

  expanded-injective : (l m : List (ChainStep C)) → Expansion.expanded l ≡ expanded m → l ≡ m
  expanded-injective l m h = ap steps_in h
    where
      steps_in : Expansion C → List (ChainStep C)
      steps_in (expanded x) = x
      steps_in (refused e) = []

  -- Two lists of steps, of which those of the first have numbers above that of the other's one step.
  abbrev pub EndsBelow : ChainStep C → List (ChainStep C) → Type 0
  EndsBelow t out =
      (inner : List (ChainStep C)) × (out ≡ inner ++ t ∷ []) × All (λ x. t.number < x.number) inner

  top_scope : (t : ChainStep C) → in_scope 0 "" t ≡ t
  unfolding in_scope with_prefix
  top_scope t = refl

  last_plain :
      (inner : ℕ → String → List (ChainStep C) → Expansion C) (l : List (ChainStep C))
      (t : ChainStep C)
      → is_sequence t.kind ≡ false
      → expand_list sequences inner 0 "" l (t ∷ []) ≡ expanded (l ++ t ∷ [])
  unfolding expand_list
  last_plain inner l t h = rw (h, expand_list) (ap (λ x. expanded (l ++ x ∷ [])) (top_scope t))

  first_sequence :
      (inner : ℕ → String → List (ChainStep C) → Expansion C) (s : ChainStep C)
      (rest : List (ChainStep C))
      → is_sequence s.kind ≡ true
      → expand_list sequences inner 0 "" [] (s ∷ rest) ≡ (elim (expand_one sequences inner "" 0 s) [
        | refused x ↦ refused x
        | expanded l ↦ expand_list sequences inner 0 "" ([] ++ l) rest
      ])
  unfolding expand_list
  first_sequence inner s rest h = rw (h, expand_list) refl

  after_sequence :
      (inner : ℕ → String → List (ChainStep C) → Expansion C) (e : Expansion C) (t : ChainStep C)
      (out : List (ChainStep C))
      → is_sequence t.kind ≡ false
      → t.number < 1000
      → Gives (IsFlat 1000) e
      → elim e [
        | refused x ↦ refused x
        | expanded l ↦ expand_list sequences inner 0 "" ([] ++ l) (t ∷ [])
      ]
        ≡ expanded out
      → EndsBelow t out
  after_sequence inner (refused x) t out h n g q = cc
  after_sequence inner (expanded l) t out h n g q = (
    l,
    sym (expanded-injective _ out (sym (last_plain inner l t h) ∙ q)),
    All-imp _ _ l (λ x f. omega (arith, f.1, n)) g,
  )

  -- A sequence step at the top is expanded into steps that come last in the order of numbers. If a
  -- job is a sequence step and then a step t that is none, with a number below 1000, and its
  -- expansion succeeds, then every step of the sequence, at any depth, has a number above that of t.
  pub expand_steps-EndsBelow :
      (s t : ChainStep C) (out : List (ChainStep C))
      → is_sequence s.kind ≡ true
      → is_sequence t.kind ≡ false
      → t.number < 1000
      → expand_steps sequences (s ∷ t ∷ []) ≡ expanded out
      → EndsBelow t out
  unfolding expand_steps expand_levels expand_list
  expand_steps-EndsBelow s t out hs ht n h =
      let inner =
        λ (o : ℕ) (p : String) (l : List (ChainStep C)). expand_levels sequences 20 o p l in
      after_sequence inner (expand_one sequences inner "" 0 s) t out ht n
        (one-Gives 1000 (omega arith) inner (λ o p l m. levels-Gives 1000 20 o p l (omega arith) m)
          "" 0 s)
        (sym (first_sequence inner s (t ∷ []) hs) ∙ h)
