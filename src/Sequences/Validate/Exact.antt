-- ===== src/Sequences/Validate/Exact.antt =====
-- app/chain/sequences.py: `_validate_steps` accepts exactly the valid steps.
use ai_job_server.Prelude.{
  ℕ, ◌+◌, ◌≤◌, ◌<◌, ◌≡◌, ◌↔◌, refl, Bool, true, false, not, ◌||◌, Option, none, some, List, [], ◌∷◌,
  map, arith, ltb, All, All-imp, if_ind, any, ◌==◌, sym, ◌∙◌, ap,
}
use ai_job_server.Prelude.Result.{Result, ok, guard, >>=-eq-ok, guard-eq-ok}
use ai_job_server.Chain.Renumber.{member}
use ai_job_server.Chain.Renumber.Unique.{AreUnique}
use ai_job_server.Sequences.{Step, Alternative, Error, given_number, is_empty}
use ai_job_server.Sequences.Validate.{
  weight_of, has_kind, validate_numbers, validate_weights, validate_target, validate_gotos,
  validate_alternatives, validate_each, validate_steps,
}

abbrev pub numbers_of : {C : Type 0} → List (Step C) → List ℕ
numbers_of steps = map (λ s. given_number s.number) steps

-- A goto goes on or goes to a step that exists.
abbrev pub IsTarget : List ℕ → Option ℕ → Bool → Type 0
IsTarget numbers none fall = fall ≡ true
IsTarget numbers (some t) fall = (fall ≡ false) × (member t numbers ≡ true)

IsTarget-iff :
    (numbers : List ℕ) (n ai : ℕ) (t : Option ℕ) (fall : Bool)
    → (validate_target numbers n ai t fall ≡ ok tt) ↔ IsTarget numbers t fall
unfolding validate_target
IsTarget-iff numbers n ai none fall = ground arith
IsTarget-iff numbers n ai (some t) fall = ground arith

-- Numbers that are positive, not seen before and without repetitions.
abbrev AreNew : List ℕ → List ℕ → Type 0
AreNew seen numbers = All (λ n. (0 < n) × (member n seen ≡ false)) numbers × AreUnique numbers

-- A number that is seen next is none of the others.
new_cons :
    (n : ℕ) (seen l : List ℕ)
    → All (λ m. (0 < m) × (member m (n ∷ seen) ≡ false)) l
      ↔ (All (λ m. (0 < m) × (member m seen ≡ false)) l × (member n l ≡ false))
unfolding member any
new_cons n seen [] = ground arith
new_cons n seen (m ∷ l) = ground (arith, new_cons n seen l)

member-cons : (k n : ℕ) (l : List ℕ) → member k (n ∷ l) ≡ (n == k || member k l)
unfolding member any
member-cons k n l = refl

member-nil : (k : ℕ) → member k [] ≡ false
unfolding member any
member-nil k = refl

module _ {C : Type 0} where
  weights_iff :
      (n ai : ℕ) (alts : List (Alternative C))
      → (validate_weights n ai alts ≡ ok tt) ↔ All (λ a. 1 ≤ weight_of a) alts
  unfolding validate_weights
  weights_iff n ai [] = ground arith
  weights_iff n ai (a ∷ alts) = ground (arith, weights_iff n (ai + 1) alts)

  gotos_iff :
      (numbers : List ℕ) (n ai : ℕ) (alts : List (Alternative C))
      → (validate_gotos numbers n ai alts ≡ ok tt)
        ↔ All (λ a. IsTarget numbers a.target_step a.fall_through) alts
  unfolding validate_gotos
  gotos_iff numbers n ai [] = ground arith
  gotos_iff numbers n ai (a ∷ alts) = ground (
    arith,
    IsTarget-iff numbers n ai a.target_step a.fall_through,
    gotos_iff numbers n (ai + 1) alts,
  )

  -- A step with alternatives of positive weight, and with targets that exist if it is a goto.
  pub record IsStep (numbers : List ℕ) (s : Step C) : Type 0 where
    pub some_alternative : is_empty s.alternatives ≡ false
    pub weighted : All (λ a. 1 ≤ weight_of a) s.alternatives
    pub aimed :
        has_kind "goto" s ≡ true
        → All (λ a. IsTarget numbers a.target_step a.fall_through) s.alternatives

  alternatives_sound :
      (numbers : List ℕ) (n : ℕ) (s : Step C)
      → validate_alternatives numbers n s ≡ ok tt
      → IsStep numbers s
  unfolding validate_alternatives
  alternatives_sound numbers n s h =
      let (u, e, f) = >>=-eq-ok (guard (not (is_empty s.alternatives)) _) _ h in
      let (v, d, g) = >>=-eq-ok (validate_weights n 1 s.alternatives) _ f in
      record {
        some_alternative = ground (arith, guard-eq-ok (not (is_empty s.alternatives)) _ e);
        weighted = (weights_iff n 1 s.alternatives).0 d;
        aimed = λ k. (gotos_iff numbers n 1 s.alternatives).0 (rw k at g);
      }

  alternatives_complete :
      (numbers : List ℕ) (n : ℕ) (s : Step C)
      → IsStep numbers s
      → validate_alternatives numbers n s ≡ ok tt
  unfolding validate_alternatives
  alternatives_complete numbers n s v =
      rw (v.some_alternative, (weights_iff n 1 s.alternatives).1 v.weighted)
        (if_ind (λ (r : Result Error (Unit {0})). r ≡ ok tt) (has_kind "goto" s)
          (λ k. (gotos_iff numbers n 1 s.alternatives).1 (v.aimed k)) (λ _. refl))

  each_iff :
      (numbers : List ℕ) (steps : List (Step C))
      → (validate_each numbers steps ≡ ok tt) ↔ All (IsStep numbers) steps
  unfolding validate_each
  each_iff numbers [] = (λ _. tt, λ _. refl)
  each_iff numbers (s ∷ steps) = (
    λ h.
        let (u, e, f) = >>=-eq-ok (validate_alternatives numbers (given_number s.number) s) _ h in
        (alternatives_sound numbers (given_number s.number) s e, (each_iff numbers steps).0 f),
    λ v.
        rw (alternatives_complete numbers (given_number s.number) s v.0)
          ((each_iff numbers steps).1 v.1),
  )

  numbers_sound :
      (idx : ℕ) (seen l : List ℕ) (steps : List (Step C))
      → validate_numbers idx seen steps ≡ ok l
      → AreNew seen (numbers_of steps)
        × ((k : ℕ) → member k l ≡ (member k seen || member k (numbers_of steps)))
  unfolding validate_numbers
  numbers_sound idx seen l [] h = ((tt, tt), λ k. ground (arith, h, member-nil k))
  numbers_sound idx seen l (s ∷ steps) h =
      let n = given_number s.number in
      let (u, e, f) = >>=-eq-ok (guard (ltb 0 n) _) _ h in
      let (v, d, g) = >>=-eq-ok (guard (not (member n seen)) _) _ f in
      let r = numbers_sound (idx + 1) (n ∷ seen) l steps g in
      let apart = (new_cons n seen (numbers_of steps)).0 r.0.0 in
      (
        (((ground (arith, e), ground (arith, d)), apart.0), (apart.1, r.0.1)),
        λ k. ground (arith, r.1 k, member-cons k n seen, member-cons k n (numbers_of steps)),
      )

  numbers_complete :
      (idx : ℕ) (seen : List ℕ) (steps : List (Step C))
      → AreNew seen (numbers_of steps)
      → (l : List ℕ) × (validate_numbers idx seen steps ≡ ok l)
  unfolding validate_numbers
  numbers_complete idx seen [] h = (seen, refl)
  numbers_complete idx seen (s ∷ steps) h =
      let n = given_number s.number in
      let next = (new_cons n seen (numbers_of steps)).1 (h.0.1, h.1.0) in
      let r = numbers_complete (idx + 1) (n ∷ seen) steps (next, h.1.1) in
      let positive : ltb 0 n ≡ true = ground (arith, h.0.0.0) in (r.0, rw (positive, h.0.0.1) (r.1))

  -- What a list of steps has to be.
  pub record IsValid (steps : List (Step C)) : Type 0 where
    pub positive : All (λ n. 0 < n) (numbers_of steps)
    pub distinct : AreUnique (numbers_of steps)
    pub each_step : All (IsStep (numbers_of steps)) steps

  same_targets :
      (l m : List ℕ) (same : (k : ℕ) → member k l ≡ member k m) (s : Step C)
      → IsStep l s
      → IsStep m s
  same_targets l m same s v = record {
    some_alternative = v.some_alternative;
    weighted = v.weighted;
    aimed = λ k.
        All-imp _ _ s.alternatives (λ a t. same_target a.target_step a.fall_through t) (v.aimed k);
  }
    where
      same_target : (t : Option ℕ) (fall : Bool) → IsTarget l t fall → IsTarget m t fall
      same_target none fall h = h
      same_target (some t) fall h = (h.0, sym (same t) ∙ h.1)

  -- The validation accepts exactly the lists of steps with positive and distinct numbers, whose
  -- steps each have an alternative, weights of at least 1 and, in a goto, for each alternative
  -- either a target that is the number of a step or the mark to fall through, and not both.
  pub validate_steps_iff : (steps : List (Step C)) → (validate_steps steps ≡ ok tt) ↔ IsValid steps
  unfolding validate_steps
  validate_steps_iff steps = (
    λ h.
        let (l, e, f) = >>=-eq-ok (validate_numbers 1 [] steps) _ h in
        let r = numbers_sound 1 [] l steps e in
        let same = λ (k : ℕ). r.1 k ∙ ap (λ b. b || member k (numbers_of steps)) (member-nil k) in
        record {
          positive = All-imp _ _ (numbers_of steps) (λ n p. p.0) r.0.0;
          distinct = r.0.1;
          each_step =
              All-imp _ _ steps (λ s v. same_targets l (numbers_of steps) same s v)
                ((each_iff l steps).0 f);
        },
    λ v.
        let fresh = All-imp _ _ (numbers_of steps) (λ n p. (p, member-nil n)) v.positive in
        let (l, e) = numbers_complete 1 [] steps (fresh, v.distinct) in
        let r = numbers_sound 1 [] l steps e in
        let same =
          λ (k : ℕ). sym (r.1 k ∙ ap (λ b. b || member k (numbers_of steps)) (member-nil k)) in
        rw e (
          (each_iff l steps).1
            (All-imp _ _ steps (λ s u. same_targets (numbers_of steps) l same s u) v.each_step)),
  )
