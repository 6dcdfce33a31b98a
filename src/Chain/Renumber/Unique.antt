-- ===== src/Chain/Renumber/Unique.antt =====
-- app/chain/executor.py: the numbers that `_renumber_top_level` leaves.
use ai_job_server.Prelude.{
  ℕ, ◌+◌, ◌<◌, ◌≤◌, ◌≡◌, ◌⊎◌, refl, subst, true, false, ◌||◌, none, some, ap, List, [], ◌∷◌, map,
  ltb, leb, ◌==◌, if◌then◌else◌, length, any, keep, All, arith, Bool-cases, inl, inr,
}
use ai_job_server.Chain.{ChainStep}
use ai_job_server.Chain.Renumber.{
  Seen, numbers, duplicate, member, given, next_free, fill, fill_seen, renumber_top_level,
  next_free_lem,
}

member-cons : (n m : ℕ) (l : List ℕ) → member n (m ∷ l) ≡ (m == n || member n l)
unfolding member any
member-cons n m l = refl

member-nil : (n : ℕ) → member n [] ≡ false
unfolding member any
member-nil n = refl

length-upper-le : (n : ℕ) (l : List ℕ) → length (keep (λ m. leb n m) l) ≤ length l
unfolding keep
length-upper-le n [] = omega arith
length-upper-le n (m ∷ l) = ground (arith, length-upper-le n l)

abbrev pub AreUnique : List ℕ → Type 0
AreUnique [] = Unit
AreUnique (n ∷ l) = (member n l ≡ false) × AreUnique l

numbers_of : (l m : List ℕ) → numbers l ≡ numbers m → l ≡ m
numbers_of l m h = cc

module _ {C : Type 0} where
  -- The numbers that the steps bring, in order.
  abbrev pub positives : List (ChainStep C) → List ℕ
  positives [] = []
  positives (s ∷ steps) =
      let rest = positives steps in if ltb 0 s.number then s.number ∷ rest else rest

  -- What the first pass has found out.
  record Collected (steps : List (ChainStep C)) (acc seen : List ℕ) : Type 0 where
    unique : AreUnique (positives steps)
    all_in : (n : ℕ) → member n (positives steps) ≡ true → member n seen ≡ true
    kept : (n : ℕ) → member n acc ≡ true → member n seen ≡ true
    apart : (n : ℕ) → member n acc ≡ true → member n (positives steps) ≡ false

  given-Collected :
      (steps : List (ChainStep C)) (acc seen : List ℕ)
      → given steps acc ≡ numbers seen
      → Collected steps acc seen
  unfolding given
  given-Collected [] acc seen h = record {
    unique = tt;
    all_in = λ n e. cc (member-nil n);
    kept = λ n e. subst (λ l. member n l ≡ true) (numbers_of acc seen h) e;
    apart = λ n e. member-nil n;
  }
  given-Collected (s ∷ steps) acc seen h = elim (Bool-cases (ltb 0 s.number)) [
    | inl p ↦ elim (Bool-cases (member s.number acc)) [
      | inl twice ↦ cc (rw (p, twice) at h)
      | inr once ↦
          let c = given-Collected steps (s.number ∷ acc) seen (rw (p, once) at h) in
          record {
            unique =
                rw p
                  (c.apart s.number (ground (arith, member-cons s.number s.number acc)), c.unique);
            all_in = λ n. rw p λ e. ground (
              arith,
              member-cons n s.number (positives steps),
              member-cons n s.number acc,
              c.all_in n,
              c.kept n,
              e,
            );
            kept = λ n e. c.kept n (ground (arith, member-cons n s.number acc, e));
            apart = λ n e. rw p (
                ground (
                  arith,
                  member-cons n s.number (positives steps),
                  member-cons n s.number acc,
                  c.apart n,
                  once,
                  e,
                ));
          }
    ]
    | inr z ↦
        let c = given-Collected steps acc seen (rw z at h) in
        record {
          unique = rw z c.unique;
          all_in = λ n. rw z (c.all_in n);
          kept = c.kept;
          apart = λ n e. rw z (c.apart n e);
        }
  ]

  -- The second pass keeps given numbers, and fills in numbers that are free and from n on.
  fill-member :
      (n k : ℕ) (seen : List ℕ) (steps : List (ChainStep C))
      → member k (map (λ s. s.number) (fill n seen steps)) ≡ true
      → (member k (positives steps) ≡ true) ⊎ ((member k seen ≡ false) × (n ≤ k))
  unfolding fill
  fill-member n k seen [] h = cc (member-nil k)
  fill-member n k seen (s ∷ steps) h =
      let free = next_free (length seen) n seen in
      let found = next_free_lem (length seen) n seen (length-upper-le n seen) in
      elim (Bool-cases (leb s.number 0)) [
        | inl z ↦ ground (
          arith,
          fill-member (free + 1) k (free ∷ seen) steps,
          member-cons k free
              (map (λ (s : ChainStep C). s.number) (fill (free + 1) (free ∷ seen) steps)),
          member-cons k free seen,
          found,
          z,
          h,
        )
        | inr p ↦ ground (
          arith,
          fill-member n k seen steps,
          member-cons k s.number (map (λ (s : ChainStep C). s.number) (fill n seen steps)),
          member-cons k s.number (positives steps),
          p,
          h,
        )
      ]

  filled_apart :
      (k : ℕ) (seen : List ℕ) (steps : List (ChainStep C))
      → ((j : ℕ) → member j (positives steps) ≡ true → member j seen ≡ true)
      → member k seen ≡ false
      → member k (map (λ s. s.number) (fill (k + 1) (k ∷ seen) steps)) ≡ false
  filled_apart k seen steps i f =
      elim (Bool-cases (member k (map (λ s. s.number) (fill (k + 1) (k ∷ seen) steps)))) [
        | inl t ↦ elim (fill-member (k + 1) k (k ∷ seen) steps t) [
          | inl g ↦ cc (i k g)
          | inr (a, b) ↦ absurd (omega arith)
        ]
        | inr e ↦ e
      ]

  given_apart :
      (n k : ℕ) (seen : List ℕ) (steps : List (ChainStep C))
      → member k (positives steps) ≡ false
      → member k seen ≡ true
      → member k (map (λ s. s.number) (fill n seen steps)) ≡ false
  given_apart n k seen steps f i =
      elim (Bool-cases (member k (map (λ s. s.number) (fill n seen steps)))) [
        | inl t ↦ elim (fill-member n k seen steps t) [ inl g ↦ cc | inr (a, b) ↦ cc ]
        | inr e ↦ e
      ]

  fill_unique :
      (n : ℕ) (seen : List ℕ) (steps : List (ChainStep C))
      → 0 < n
      → AreUnique (positives steps)
      → ((k : ℕ) → member k (positives steps) ≡ true → member k seen ≡ true)
      → AreUnique (map (λ s. s.number) (fill n seen steps))
        × All (λ s. 0 < s.number) (fill n seen steps)
  unfolding fill
  fill_unique n seen [] l u i = (tt, tt)
  fill_unique n seen (s ∷ steps) l u i =
      let free = next_free (length seen) n seen in
      let found = next_free_lem (length seen) n seen (length-upper-le n seen) in
      elim (Bool-cases (leb s.number 0)) [
        | inl z ↦
            let none_given : ltb 0 s.number ≡ false = ground (arith, z) in
            let ih =
              fill_unique (free + 1) (free ∷ seen) steps (omega arith) (rw none_given at u)
                (λ k e. ground (arith, member-cons k free seen, rw none_given at (i k), e)) in
            rw z (
              (filled_apart free seen steps (λ k e. (rw none_given at (i k)) e) found.0, ih.0),
              (omega (arith, found.1, l), ih.1),
            )
        | inr p ↦
            let is_given : ltb 0 s.number ≡ true = ground (arith, p) in
            let u' = rw is_given at u in
            let i' = rw is_given at i in
            let ih =
              fill_unique n seen steps l u'.1
                (λ k e. i' k (ground (arith, member-cons k s.number (positives steps), e))) in
            rw p (
              (
                given_apart n s.number seen steps u'.0
                    (i' s.number (ground (arith, member-cons s.number s.number (positives steps)))),
                ih.0,
              ),
              (ground (arith, p), ih.1),
            )
      ]

  -- Each step of the input with its own number, if it has one.
  abbrev pub KeepsGiven : List (ChainStep C) → List (ChainStep C) → Type 0
  KeepsGiven [] [] = Unit
  KeepsGiven (s ∷ steps) (t ∷ out) =
      (t ≡ record s { number = t.number }) × ((0 < s.number) → t ≡ s) × KeepsGiven steps out
  KeepsGiven [] (t ∷ out) = ⊥
  KeepsGiven (s ∷ steps) [] = ⊥

  fill-KeepsGiven :
      (n : ℕ) (seen : List ℕ) (steps : List (ChainStep C)) → KeepsGiven steps (fill n seen steps)
  unfolding fill
  fill-KeepsGiven n seen [] = tt
  fill-KeepsGiven n seen (s ∷ steps) = elim (Bool-cases (leb s.number 0)) [
    | inl z ↦ rw z (
      refl,
      (λ p. absurd (ground (arith, z, p))),
      fill-KeepsGiven (next_free (length seen) n seen + 1) (next_free (length seen) n seen ∷ seen)
          steps,
    )
    | inr p ↦ rw p (refl, (λ _. refl), fill-KeepsGiven n seen steps)
  ]

  -- The first pass refuses only a number that it has seen or that is given twice.
  given-duplicate :
      (steps : List (ChainStep C)) (acc : List ℕ) (n : ℕ)
      → given steps acc ≡ duplicate n
      → AreUnique (positives steps)
      → ((k : ℕ) → member k acc ≡ true → member k (positives steps) ≡ false)
      → ⊥
  unfolding given
  given-duplicate [] acc n h u a = cc
  given-duplicate (s ∷ steps) acc n h u a = elim (Bool-cases (ltb 0 s.number)) [
    | inl p ↦
        let v = rw p at u in
        let b = rw p at a in
        elim (Bool-cases (member s.number acc)) [
          | inl twice ↦
              ground (arith, b s.number twice, member-cons s.number s.number (positives steps))
          | inr once ↦ given-duplicate steps (s.number ∷ acc) n (rw (p, once) at h) v.1 (λ k e.
              ground (
                arith,
                member-cons k s.number acc,
                member-cons k s.number (positives steps),
                b k,
                v.0,
                e,
              ))
        ]
    | inr z ↦ given-duplicate steps acc n (rw z at h) (rw z at u) (λ k e. (rw z at a) k e)
  ]

  -- If no positive number is given twice, the renumbering has a result: the steps in their order,
  -- changed in their numbers alone, of which the given ones are kept, and each number is positive
  -- and no two are equal. If one is given twice, the renumbering is refused.
  pub renumber_unique :
      (steps : List (ChainStep C))
      → (AreUnique (positives steps)
          × ((out : List (ChainStep C)) × (renumber_top_level steps ≡ some out)
              × AreUnique (map (λ s. s.number) out)
              × All (λ s. 0 < s.number) out
              × KeepsGiven steps out))
        ⊎ ((AreUnique (positives steps) → ⊥) × (renumber_top_level steps ≡ none))
  unfolding renumber_top_level
  renumber_unique steps = from (given steps []) refl
    where
      from :
          (r : Seen)
          → given steps [] ≡ r
          → (AreUnique (positives steps)
              × ((out : List (ChainStep C)) × (fill_seen (given steps []) steps ≡ some out)
                  × AreUnique (map (λ s. s.number) out)
                  × All (λ s. 0 < s.number) out
                  × KeepsGiven steps out))
            ⊎ ((AreUnique (positives steps) → ⊥) × (fill_seen (given steps []) steps ≡ none))
      from (duplicate n) e = inr (
        (λ u. given-duplicate steps [] n e u (λ k h. cc (member-nil k))),
        ap (λ r. fill_seen r steps) e,
      )
      from (numbers seen) e =
          let c = given-Collected steps [] seen e in
          let r = fill_unique 1 seen steps (omega arith) c.unique c.all_in in
          inl (
            c.unique,
            (
              fill 1 seen steps,
              ap (λ r. fill_seen r steps) e,
              r.0,
              r.1,
              fill-KeepsGiven 1 seen steps,
            ),
          )
