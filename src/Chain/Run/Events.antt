-- ===== src/Chain/Run/Events.antt =====
-- app/chain/executor.py: which ends of a job its event bus and its status file show.
use mathlib.Core.Option.{some-injective}
use ai_job_server.Prelude.{
  ℕ, zero, suc, ◌+◌, ◌≡◌, refl, ◌∙◌, subst, String, Bool, true, false, Option, none, some, List, [],
  ◌∷◌, ◌++◌, arith, ltb, any, any-append, if_ind, Option-cases, inl, inr, ◌⊎◌,
}
use ai_job_server.Chain.{ChainStep, Alternative}
use ai_job_server.Chain.Run.{
  World, Outcome, returned, raised, Walk, Tick, going, finished, failed, error, done,
  max_total_runs, emit, Event, goto_taken, step_start, step_done, step_error, job_done_ok,
  job_done_error, Failure, no_steps, not_renumbered, not_expanded, step_failed, find, take_goto,
  end_step, begin_step, pick_alternative, is_goto, run_step, visit, at_pointer, tick, walk, fresh,
  execute_chain_job, run_flat, run_prepared, of_expansion, expand_numbered, prepare, order_of,
}
use ai_job_server.Chain.Renumber.{renumber_top_level}
use ai_job_server.Chain.Expand.{Expansion, expanded, refused, expand_steps}
use ai_job_server.Chain.Run.Budget.{execute_chain_job-Ends}

abbrev pub is_job_done : Event → Bool
is_job_done (job_done_ok s) = true
is_job_done (job_done_error f) = true
is_job_done _ = false

-- The bus has a `job_done` event.
unfoldable pub is_announced : List Event → Bool
unfolding any
is_announced es = any is_job_done es

-- The failures that the executor tells its subscribers of.
unfoldable pub is_told : Failure → Bool
is_told no_steps = true
is_told not_renumbered = true
is_told (not_expanded e) = true
is_told (step_failed e) = true
is_told _ = false

is_announced-append :
    (es : List Event) (e : Event)
    → is_announced es ≡ false
    → is_announced (es ++ e ∷ []) ≡ is_job_done e
unfolding is_announced any
is_announced-append es e h = ground (arith, any-append is_job_done es (e ∷ []), h)

abbrev IsQuiet : Walk → Type 0
IsQuiet w = is_announced w.events ≡ false

IsQuiet-emit : (e : Event) (w : Walk) → is_job_done e ≡ false → IsQuiet w → IsQuiet (emit e w)
IsQuiet-emit e w h q = is_announced-append w.events e q ∙ h

abbrev Shown : Tick → Type 0
Shown (going w) = IsQuiet w
Shown (finished w) = (w.status ≡ done) × (is_announced w.events ≡ true)
Shown (failed e w) = (w.status ≡ error e) × (is_announced w.events ≡ is_told e)

module _ {C : Type 0} (world : World C) (steps : List (ChainStep C)) (order : List ℕ) where
  take_goto-Shown :
      (p : ℕ) (alt : Alternative C) (w : Walk)
      → IsQuiet w
      → Shown (take_goto world steps order p alt w)
  unfolding take_goto
  take_goto-Shown p alt w q =
      if_ind Shown alt.fall_through (λ _. IsQuiet-emit (goto_taken p none true) w refl q)
        (λ _. IsQuiet-emit (goto_taken p alt.target_step false) w refl q)

  end_step-Shown :
      (p inv : ℕ) (step : ChainStep C) (o : Outcome) (w : Walk)
      → IsQuiet w
      → Shown (end_step world steps order p inv step o w)
  unfolding end_step is_told
  end_step-Shown p inv step (returned rendered output) w q =
      IsQuiet-emit (step_done p inv output) w refl q
  end_step-Shown p inv step (raised e) w q = (
    refl,
    is_announced-append (w.events ++ step_error p inv e ∷ []) (job_done_error (step_failed e))
        (IsQuiet-emit (step_error p inv e) w refl q),
  )

  begin_step-IsQuiet :
      (p : ℕ) (step : ChainStep C) (w : Walk)
      → IsQuiet w
      → IsQuiet (begin_step world steps order p step w)
  unfolding begin_step
  begin_step-IsQuiet p step w q =
      IsQuiet-emit (step_start p (w.invocation_counter p) step.kind) w refl q

  run_step-Shown :
      (p : ℕ) (step : ChainStep C) (w : Walk)
      → IsQuiet w
      → Shown (run_step world steps order p step w)
  unfolding run_step
  run_step-Shown p step w q =
      if_ind Shown (is_goto world steps order step.kind)
        (λ _.
          take_goto-Shown p (pick_alternative world steps order w.total_runs step.alternatives) w q)
        (λ _.
          end_step-Shown p _ step _ (begin_step world steps order p step w)
            (begin_step-IsQuiet p step w q))

  visit-Shown :
      (p : ℕ) (step : ChainStep C) (w : Walk) → IsQuiet w → Shown (visit world steps order p step w)
  unfolding visit is_told
  visit-Shown p step w q =
      if_ind Shown (ltb step.visit_cap (w.visits p + 1)) (λ _. (refl, q))
        λ _.
          if_ind Shown (ltb max_total_runs (w.total_runs + 1)) (λ _. (refl, q))
            (λ _. run_step-Shown p step _ q)

  at_pointer-Shown :
      (p : Option ℕ) (w : Walk) → IsQuiet w → Shown (at_pointer world steps order p w)
  unfolding at_pointer is_told
  at_pointer-Shown none w q = (refl, is_announced-append w.events (job_done_ok w.text_output) q)
  at_pointer-Shown (some p) w q = elim (Option-cases (find p steps)) [
    | inl e ↦ rw (e, Shown) (refl, q)
    | inr (s, e) ↦ rw (e, Shown) (visit-Shown p s w q)
  ]

  onward_Shown :
      (fuel : ℕ) (s t : Tick)
      → Shown s
      → ((v : Walk) → IsQuiet v → walk world steps order fuel v ≡ some t → Shown t)
      → (elim s [ going w ↦ walk world steps order fuel w | s ↦ some s ]) ≡ some t
      → Shown t
  onward_Shown fuel (going v) t k f e = f v k e
  onward_Shown fuel (finished v) t k f e = subst Shown (some-injective _ _ e) k
  onward_Shown fuel (failed x v) t k f e = subst Shown (some-injective _ _ e) k

  walk-Shown :
      (fuel : ℕ) (w : Walk) (t : Tick)
      → IsQuiet w
      → walk world steps order fuel w ≡ some t
      → Shown t
  unfolding walk tick
  walk-Shown zero w t q h = cc
  walk-Shown (suc fuel) w t q h =
      onward_Shown fuel (tick world steps order w) t (at_pointer-Shown w.ptr w q)
        (λ v k e. walk-Shown fuel v t k e) h

run_flat-Shown :
    {C : Type 0} (world : World C) (input : String) (steps : List (ChainStep C)) (t : Tick)
    → run_flat world input steps ≡ some t
    → Shown t
unfolding run_flat is_announced any is_told
run_flat-Shown world input [] t h = subst Shown (some-injective _ _ h) (refl, refl)
run_flat-Shown world input (s ∷ steps) t h =
    walk-Shown world (s ∷ steps) (order_of (s ∷ steps)) (max_total_runs + 2)
      (fresh input (order_of (s ∷ steps))) t refl h

-- A renumbering or an expansion that fails.
run_refused-Shown :
    {C : Type 0} (world : World C) (input : String) (o : Option (List (ChainStep C)))
    (sequences : String → Option (List (ChainStep C))) (t : Tick)
    → run_prepared world input (expand_numbered sequences o) ≡ some t
    → Shown t
unfolding run_prepared is_announced any is_told
run_refused-Shown world input none sequences t h = subst Shown (some-injective _ _ h) (refl, refl)
run_refused-Shown world input (some numbered) sequences t h = go (expand_steps sequences numbered) h
  where
    go : (x : Expansion _) → run_prepared world input (of_expansion x) ≡ some t → Shown t
    go (expanded flat) k = run_flat-Shown world input flat t k
    go (refused e) k = subst Shown (some-injective _ _ k) (refl, refl)

-- Every job comes to an end that its status file shows: it finishes with the status done and a
-- `job_done` event on its bus, or it fails with that error as its status. A failure is followed by
-- a `job_done` event if the renumbering or the expansion of the steps fails, if they leave no step,
-- or if a step raises; the bus of a job that fails by its visit cap, its run budget or a missing
-- goto target has no `job_done` event.
pub execute_chain_job-job_done :
    {C : Type 0} (sequences : String → Option (List (ChainStep C))) (world : World C)
    (input : String) (steps : List (ChainStep C))
    → (w : Walk) × ((execute_chain_job sequences world input steps ≡ some (finished w))
          × (w.status ≡ done)
          × (is_announced w.events ≡ true)
        ⊎ ((e : Failure) × (execute_chain_job sequences world input steps ≡ some (failed e w))
            × (w.status ≡ error e)
            × (is_announced w.events ≡ is_told e)))
execute_chain_job-job_done sequences world input steps =
    let ends = execute_chain_job-Ends sequences world input steps in
    let shown : (t : Tick) → execute_chain_job sequences world input steps ≡ some t → Shown t =
      unfold execute_chain_job prepare in
      run_refused-Shown world input (renumber_top_level steps) sequences in
    elim (ends.1) [
      | inl p ↦ let s = shown _ p in (ends.0, inl (p, s.0, s.1))
      | inr (e, p) ↦ let s = shown _ p in (ends.0, inr (e, p, s.0, s.1))
    ]
