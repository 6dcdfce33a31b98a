-- ===== src/EventBus/Queues.antt =====
-- app/chain/events.py: the subscribers' queues, found by the number of the queue.
use ai_job_server.Prelude.{
  ℕ, ◌<◌, ◌≡◌, refl, ap, Bool, true, ◌||◌, List, [], ◌∷◌, ◌++◌, arith, ◌==◌, length, any, All,
  Bool-cases, inl, inr,
}
use ai_job_server.EventBus.{Signal, Queue, put_nowait, contents, set_contents, remove}

module _ {P : Type 0} where
  unfoldable pub present : ℕ → List (Queue P) → Bool
  unfolding any
  present i qs = any (λ q. q.0 == i) qs

  pub length-put_nowait :
      (s : Signal P) (qs : List (Queue P)) → length (put_nowait s qs) ≡ length qs
  unfolding put_nowait
  length-put_nowait s [] = refl
  length-put_nowait s ((i, q) ∷ qs) = ap (λ n. n) (omega (arith, length-put_nowait s qs))

  pub length-set_contents :
      (i : ℕ) (r : List (Signal P)) (qs : List (Queue P)) → length (set_contents i r qs) ≡ length qs
  unfolding set_contents
  length-set_contents i r [] = refl
  length-set_contents i r ((j, q) ∷ qs) = omega (arith, length-set_contents i r qs)

  pub named-put_nowait :
      (n : ℕ) (s : Signal P) (qs : List (Queue P))
      → All (λ q. q.0 < n) qs
      → All (λ q. q.0 < n) (put_nowait s qs)
  unfolding put_nowait
  named-put_nowait n s [] h = tt
  named-put_nowait n s ((i, q) ∷ qs) h = (h.0, named-put_nowait n s qs h.1)

  pub named-set_contents :
      (n i : ℕ) (r : List (Signal P)) (qs : List (Queue P))
      → All (λ q. q.0 < n) qs
      → All (λ q. q.0 < n) (set_contents i r qs)
  unfolding set_contents
  named-set_contents n i r [] h = tt
  named-set_contents n i r ((j, q) ∷ qs) h = elim (Bool-cases (j == i)) [
    | inl e ↦ rw e (h.0, named-set_contents n i r qs h.1)
    | inr e ↦ rw e (h.0, named-set_contents n i r qs h.1)
  ]

  pub named-remove :
      (n i : ℕ) (qs : List (Queue P)) → All (λ q. q.0 < n) qs → All (λ q. q.0 < n) (remove i qs)
  unfolding remove
  named-remove n i [] h = tt
  named-remove n i ((j, q) ∷ qs) h = elim (Bool-cases (j == i)) [
    | inl e ↦ rw e (named-remove n i qs h.1)
    | inr e ↦ rw e (h.0, named-remove n i qs h.1)
  ]

  pub present-put_nowait :
      (i : ℕ) (s : Signal P) (qs : List (Queue P)) → present i (put_nowait s qs) ≡ present i qs
  unfolding present put_nowait
  present-put_nowait i s [] = refl
  present-put_nowait i s ((j, q) ∷ qs) = ap (λ b. (j == i) || b) (present-put_nowait i s qs)

  pub contents-put_nowait :
      (i : ℕ) (s : Signal P) (qs : List (Queue P))
      → present i qs ≡ true
      → contents i (put_nowait s qs) ≡ contents i qs ++ s ∷ []
  unfolding present put_nowait contents
  contents-put_nowait i s [] h = cc
  contents-put_nowait i s ((j, q) ∷ qs) h = ground (arith, contents-put_nowait i s qs)

  pub present-set_contents :
      (i : ℕ) (r : List (Signal P)) (qs : List (Queue P))
      → present i (set_contents i r qs) ≡ present i qs
  unfolding present set_contents
  present-set_contents i r [] = refl
  present-set_contents i r ((j, q) ∷ qs) = ground (arith, present-set_contents i r qs)

  pub contents-set_contents :
      (i : ℕ) (r : List (Signal P)) (qs : List (Queue P))
      → present i qs ≡ true
      → contents i (set_contents i r qs) ≡ r
  unfolding present set_contents contents
  contents-set_contents i r [] h = cc
  contents-set_contents i r ((j, q) ∷ qs) h = ground (arith, contents-set_contents i r qs)

  -- A queue with a number above all others is found, and is empty.
  pub fresh_queue :
      (i : ℕ) (qs : List (Queue P))
      → All (λ q. q.0 < i) qs
      → (present i (qs ++ (i, []) ∷ []) ≡ true) × (contents i (qs ++ (i, []) ∷ []) ≡ [])
  unfolding present contents
  fresh_queue i [] h = (ground arith, ground arith)
  fresh_queue i ((j, q) ∷ qs) h =
      let r = fresh_queue i qs h.1 in (ground (arith, r.0, h.0), ground (arith, r.1, h.0))
