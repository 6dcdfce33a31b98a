-- ===== src/Sequences/Store/Keeps.antt =====
-- app/chain/sequences.py: each operation that writes the index leaves a sound library.
use ai_job_server.Prelude.{
  ℕ, ◌≡◌, refl, sym, ap, subst, String, str_eq, Bool, true, false, none, some, List, [], ◌∷◌, ◌++◌,
  arith, first, Option-cases, inl, inr, eq_iff,
}
use ai_job_server.Prelude.Dict.{has}
use ai_job_server.Prelude.Names.{has-cons, has-nil}
use ai_job_server.Prelude.Result.{Result, ok, err, ◌>>=◌, >>=-eq-ok}
use ai_job_server.Envelope.Fresh.{unique_id-fresh}
use ai_job_server.Sequences.{Step, Sequence, Error, normalize_steps}
use ai_job_server.Sequences.Validate.{validate_steps}
use ai_job_server.Sequences.Validate.Exact.{IsValid, validate_steps_iff}
use ai_job_server.Sequences.Store.{
  Presets, ids, check_entries, modify_first, commit, new_sequence, over, put, with_steps, store,
  save_sequence, upsert_envelope, validate_llm_step_capabilities,
}
use ai_job_server.Sequences.Store.Acyclic.{IsSound, append-IsSound, modify-IsSound}

-- What an operation that writes gives: the sequence and the entries.
abbrev Written : Type 0 → Type 0
Written C = Sequence C × List (Sequence C)

module _ {C : Type 0} where
  entries_in : Written C → Result Error (Written C) → Written C
  entries_in a (ok r) = r
  entries_in a (err e) = a

  -- A commit that succeeds had its check passed, and gives what it was given.
  commit-ok :
      (x : Sequence C) (entries : List (Sequence C)) (r : Written C)
      → commit x entries ≡ ok r
      → (u : Unit {0}) × (check_entries entries x.id ≡ ok u) × (entries ≡ r.1)
  unfolding commit entries_in
  commit-ok x entries r h =
      let (u, c, e) = >>=-eq-ok (check_entries entries x.id) (λ _. ok (x, entries)) h in
      (u, c, ap (λ s. (entries_in r s).1) e)

  append-commit :
      (x : Sequence C) (entries : List (Sequence C)) (r : Written C)
      → IsSound entries
      → IsValid x.steps
      → has x.id (ids entries) ≡ false
      → commit x (entries ++ x ∷ []) ≡ ok r
      → IsSound r.1
  append-commit x entries r v s f h =
      let (u, c, e) = commit-ok x (entries ++ x ∷ []) r h in
      subst IsSound e (append-IsSound x entries v s f c)

  modify-commit :
      (p : Sequence C → Bool) (f : Sequence C → Sequence C) (e : Sequence C)
      (entries : List (Sequence C)) (r : Written C)
      → IsSound entries
      → ((x : Sequence C) → IsValid (f x).steps)
      → ((x : Sequence C) → p x ≡ true → (f x).id ≡ x.id)
      → first p entries ≡ some e
      → (f e).id ≡ e.id
      → commit (f e) (modify_first p f entries) ≡ ok r
      → IsSound r.1
  modify-commit p f e entries r v s same g q h =
      let (u, c, i) = commit-ok (f e) (modify_first p f entries) r h in
      subst IsSound i (
        modify-IsSound p f same e entries v s g
          (subst (λ k. check_entries (modify_first p f entries) k ≡ ok u) q c))

  store-IsSound :
      (slugify : String → String) (now : ℕ) (name : String) (steps : List (Step C))
      (variables : List String) (entries : List (Sequence C)) (r : Written C)
      → IsSound entries
      → IsValid steps
      → store slugify now name steps variables entries ≡ ok r
      → IsSound r.1
  unfolding store
  store-IsSound slugify now name steps variables entries r v s h =
      elim (Option-cases (first (λ e. str_eq e.name name) entries)) [
        | inl n ↦
            append-commit (new_sequence slugify now name steps variables entries) entries r v
              (unfold new_sequence in s)
              (unfold new_sequence in (unique_id-fresh (slugify name) (ids entries)).0)
              (rw (n, store) at h)
        | inr (x, e) ↦
            modify-commit (λ y. str_eq y.name name) (with_steps now steps variables) x entries r v
              (λ _. s) (λ y _. refl) e refl (rw (e, store) at h)
      ]

  absent_id :
      (k : String) (l : List (Sequence C))
      → first (λ y. str_eq y.id k) l ≡ none
      → has k (ids l) ≡ false
  unfolding first
  absent_id k [] q = has-nil k
  absent_id k (y ∷ l) q = ground (arith, absent_id k l, has-cons k y.id (ids l))

  first-passes :
      (k : String) (l : List (Sequence C)) (x : Sequence C)
      → first (λ y. str_eq y.id k) l ≡ some x
      → str_eq x.id k ≡ true
  unfolding first
  first-passes k [] x q = cc
  first-passes k (y ∷ l) x q = ground (arith, first-passes k l x)

  put-IsSound :
      (now : ℕ) (doc : Sequence C) (entries : List (Sequence C)) (r : Written C)
      → IsSound entries
      → IsValid doc.steps
      → put now doc entries ≡ ok r
      → IsSound r.1
  unfolding put
  put-IsSound now doc entries r v s h =
      elim (Option-cases (first (λ e. str_eq e.id doc.id) entries)) [
        | inl n ↦
            append-commit (record doc { updated_at = now }) entries r v s
              (absent_id doc.id entries n) (rw (n, put) at h)
        | inr (x, e) ↦
            modify-commit (λ y. str_eq y.id doc.id) (over now doc) x entries r v (λ _. s)
              (λ y q. sym ((eq_iff y.id doc.id).0 q)) e
              (sym ((eq_iff x.id doc.id).0 (first-passes doc.id entries x e))) (rw (e, put) at h)
      ]

  store-IsValid :
      (steps : List (Step C)) (presets : Presets)
      (k : Result Error (Sequence C × List (Sequence C))) (r : Sequence C × List (Sequence C))
      → (validate_steps steps >>= λ _. (validate_llm_step_capabilities presets steps >>= λ _. k))
        ≡ ok r
      → IsValid steps × (k ≡ ok r)
  store-IsValid steps presets k r h =
      let (u, e, f) = >>=-eq-ok (validate_steps steps) _ h in
      let (w, d, g) = >>=-eq-ok (validate_llm_step_capabilities presets steps) _ f in
      ((validate_steps_iff steps).0 e, g)

  pub save-IsSound :
      (slugify : String → String) (blank : C) (presets : Presets) (now : ℕ) (name : String)
      (steps : List (Step C)) (variables : List String) (entries : List (Sequence C))
      (r : Sequence C × List (Sequence C))
      → IsSound entries
      → save_sequence slugify blank presets now name steps variables entries ≡ ok r
      → IsSound r.1
  unfolding save_sequence
  save-IsSound slugify blank presets now name steps variables entries r v h =
      let s = store-IsValid (normalize_steps blank 1 steps) presets _ r h in
      store-IsSound slugify now name (normalize_steps blank 1 steps) variables entries r v s.0 s.1

  pub upsert-IsSound :
      (blank : C) (now : ℕ) (env : Sequence C) (entries : List (Sequence C)) (r : Written C)
      → IsSound entries
      → upsert_envelope blank now env entries ≡ ok r
      → IsSound r.1
  unfolding upsert_envelope
  upsert-IsSound blank now env entries r v h =
      let steps = normalize_steps blank 1 env.steps in
      let (u, e, f) =
        >>=-eq-ok (validate_steps steps) (λ _. put now (record env { steps = steps }) entries) h in
      put-IsSound now (record env { steps = steps }) entries r v ((validate_steps_iff steps).0 e) f
