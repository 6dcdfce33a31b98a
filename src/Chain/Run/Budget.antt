-- ===== src/Chain/Run/Budget.antt =====
-- app/chain/executor.py: the walk ends within its budget, whatever the gotos and the picks are.
use ai_job_server.Prelude.{
  ℕ, zero, suc, ◌+◌, ◌≤◌, ◌<◌, ◌≡◌, refl, sym, ◌∙◌, ap, subst, String, Option, none, some, List, [],
  ◌∷◌, ◌++◌, arith, ltb, ◌==◌, if◌then◌else◌, length, length-append, if_ind, ==_iff, Option-cases,
  Bool-cases, inl, inr, ◌⊎◌,
}
use ai_job_server.Chain.{ChainStep, Alternative, StepType, goto}
use ai_job_server.Chain.Run.{
  World, Outcome, returned, raised, Walk, Tick, going, finished, failed, max_total_runs, Event,
  Failure, find, take_goto, end_step, begin_step, run_step, visit, at_pointer, no_steps, tick, walk,
  fresh, Prepared, prepared, unprepared, prepare, run_flat, run_prepared, execute_chain_job,
  is_goto, pick_alternative, order_of, update, emit,
}

-- How often the steps of a number have run.
unfoldable pub runs_of : ℕ → List (ℕ × ℕ × StepType) → ℕ
runs_of n [] = 0
runs_of n ((m, inv, kind) ∷ l) = let rest = runs_of n l in if m == n then suc rest else rest

runs_of-append :
    (n : ℕ) (l k : List (ℕ × ℕ × StepType)) → runs_of n (l ++ k) ≡ runs_of n l + runs_of n k
unfolding runs_of
runs_of-append n [] k = omega arith
runs_of-append n ((m, inv, kind) ∷ l) k = ground (arith, runs_of-append n l k)

one : (p n inv : ℕ) (kind : StepType) → runs_of n ((p, inv, kind) ∷ []) ≤ 1
unfolding runs_of
one p n inv kind = ground arith

updated_runs :
    (p n inv : ℕ) (kind : StepType) (v : ℕ → ℕ) (l : List (ℕ × ℕ × StepType))
    → runs_of n l ≤ v n
    → runs_of n (l ++ (p, inv, kind) ∷ []) ≤ update v p (v p + 1) n
unfolding runs_of
updated_runs p n inv kind v l h = elim (Bool-cases (p == n)) [
  | inl e ↦ rw e (
      omega (
        arith,
        h,
        runs_of-append n l ((p, inv, kind) ∷ []),
        one p n inv kind,
        ap v ((==_iff p n).0 e),
      ))
  | inr e ↦ rw e (ground (arith, h, runs_of-append n l ((p, inv, kind) ∷ [])))
]

abbrev cap : {C : Type 0} → Option (ChainStep C) → ℕ
cap none = 0
cap (some s) = s.visit_cap

module _ {C : Type 0} (world : World C) (steps : List (ChainStep C)) (order : List ℕ) where
  -- The cap of the step with a number; 0 for a number that no step has.
  abbrev pub cap_of : ℕ → ℕ
  cap_of n = cap (find n steps)

  -- The counters within their limits, and every run of a step counted as a visit and in the total.
  pub record IsBounded (w : Walk) : Type 0 where
    pub total : w.total_runs ≤ max_total_runs
    pub runs : length w.executed ≤ w.total_runs
    pub caps : (n : ℕ) → w.visits n ≤ cap_of n
    pub counted : (n : ℕ) → runs_of n w.executed ≤ w.visits n

  -- What the limits say of a finished walk, and of one that goes on with one more run in its total.
  abbrev Within : ℕ → Tick → Type 0
  Within n (going w) = IsBounded w × (w.total_runs ≡ n)
  Within n (finished w) = IsBounded w
  Within n (failed e w) =
      (length w.executed ≤ max_total_runs) × ((m : ℕ) → runs_of m w.executed ≤ cap_of m)

  -- A walk with one run more counted than steps executed, of which one at p is still to come.
  record IsReady (p : ℕ) (w : Walk) : Type 0 where
    total : w.total_runs ≤ max_total_runs
    runs : length w.executed < w.total_runs
    caps : (n : ℕ) → w.visits n ≤ cap_of n
    counted :
        (n inv : ℕ) (kind : StepType) → runs_of n (w.executed ++ (p, inv, kind) ∷ []) ≤ w.visits n

  jumped :
      (p : ℕ) (e : Event) (q : Option ℕ) (w : Walk)
      → IsReady p w
      → IsBounded (record (emit e w) { ptr = q })
  jumped p e q w r = record {
    total = r.total;
    runs = omega (arith, r.runs);
    caps = r.caps;
    counted =
        λ n. omega (arith, r.counted n 0 goto, runs_of-append n w.executed ((p, 0, goto) ∷ []));
  }

  take_goto-Within :
      (p : ℕ) (alt : Alternative C) (w : Walk)
      → IsReady p w
      → Within w.total_runs (take_goto world steps order p alt w)
  unfolding take_goto
  take_goto-Within p alt w r =
      if_ind (λ (t : Tick). Within w.total_runs t) alt.fall_through (λ _. (jumped p _ _ w r, refl))
        (λ _. (jumped p _ _ w r, refl))

  end_step-Within :
      (p inv : ℕ) (step : ChainStep C) (o : Outcome) (w : Walk)
      → IsReady p w
      → Within w.total_runs
          (end_step world steps order p inv step o (begin_step world steps order p step w))
  unfolding end_step begin_step
  end_step-Within p inv step (returned rendered output) w r = (
    record {
      total = r.total;
      runs =
          omega
            (arith, r.runs, length-append w.executed ((p, w.invocation_counter p, step.kind) ∷ []));
      caps = r.caps;
      counted = λ n. r.counted n (w.invocation_counter p) step.kind;
    },
    refl,
  )
  end_step-Within p inv step (raised e) w r = (
    omega (
      arith,
      r.runs,
      r.total,
      length-append w.executed ((p, w.invocation_counter p, step.kind) ∷ []),
    ),
    λ n. omega (arith, r.counted n (w.invocation_counter p) step.kind, r.caps n),
  )

  run_step-Within :
      (p : ℕ) (step : ChainStep C) (w : Walk)
      → IsReady p w
      → Within w.total_runs (run_step world steps order p step w)
  unfolding run_step
  run_step-Within p step w r =
      if_ind (λ (t : Tick). Within w.total_runs t) (is_goto world steps order step.kind)
        (λ _.
          take_goto-Within p (pick_alternative world steps order w.total_runs step.alternatives) w
            r)
        (λ _. end_step-Within p _ step _ w r)

  stopped :
      (w : Walk)
      → IsBounded w
      → (length w.executed ≤ max_total_runs) × ((m : ℕ) → runs_of m w.executed ≤ cap_of m)
  stopped w b = (omega (arith, b.runs, b.total), λ m. omega (arith, b.counted m, b.caps m))

  updated_caps :
      (p : ℕ) (step : ChainStep C) (w : Walk)
      → IsBounded w
      → find p steps ≡ some step
      → w.visits p + 1 ≤ step.visit_cap
      → (n : ℕ) → update w.visits p (w.visits p + 1) n ≤ cap_of n
  updated_caps p step w b f v n =
      if_ind (λ (k : ℕ). k ≤ cap_of n) (p == n)
        (λ e. subst (λ k. w.visits p + 1 ≤ k) (sym (ap cap f) ∙ ap cap_of ((==_iff p n).0 e)) v)
        (λ _. b.caps n)

  -- The visit and the run that `visit` counts make room for one step.
  counted_visit :
      (p : ℕ) (step : ChainStep C) (w : Walk)
      → IsBounded w
      → find p steps ≡ some step
      → w.visits p + 1 ≤ step.visit_cap
      → w.total_runs + 1 ≤ max_total_runs
      → IsReady p
          (record w { visits = update w.visits p (w.visits p + 1); total_runs = w.total_runs + 1 })
  counted_visit p step w b f v t = record {
    total = t;
    runs = omega (arith, b.runs);
    caps = updated_caps p step w b f v;
    counted = λ n inv kind. updated_runs p n inv kind w.visits w.executed (b.counted n);
  }

  visit-Within :
      (p : ℕ) (step : ChainStep C) (w : Walk)
      → IsBounded w
      → find p steps ≡ some step
      → Within (w.total_runs + 1) (visit world steps order p step w)
  unfolding visit
  visit-Within p step w b f =
      if_ind (λ (t : Tick). Within (w.total_runs + 1) t) (ltb step.visit_cap (w.visits p + 1))
        (λ _. stopped w b)
        (λ v.
          if_ind (λ (t : Tick). Within (w.total_runs + 1) t) (ltb max_total_runs (w.total_runs + 1))
            (λ _. stopped w b)
            (λ l.
              run_step-Within p step _
                (counted_visit p step w b f (ground (arith, v)) (ground (arith, l)))))

  at_pointer-Within :
      (p : Option ℕ) (w : Walk)
      → IsBounded w
      → Within (w.total_runs + 1) (at_pointer world steps order p w)
  unfolding at_pointer
  at_pointer-Within none w b = record {
    total = b.total;
    runs = b.runs;
    caps = b.caps;
    counted = b.counted;
  }
  at_pointer-Within (some p) w b = elim (Option-cases (find p steps)) [
    | inl e ↦ rw (e, Within) (stopped w b)
    | inr (s, e) ↦ rw (e, Within) (visit-Within p s w b e)
  ]

  tick-Within : (w : Walk) → IsBounded w → Within (w.total_runs + 1) (tick world steps order w)
  unfolding tick
  tick-Within w b = at_pointer-Within w.ptr w b

  -- The walk came to an end, within the limits.
  abbrev pub Ends : Option Tick → Type 0
  Ends r =
      (w : Walk) × ((r ≡ some (finished w)) ⊎ ((e : Failure) × (r ≡ some (failed e w))))
      × (length w.executed ≤ max_total_runs)
      × ((n : ℕ) → runs_of n w.executed ≤ cap_of n)

  rest_Ends :
      (fuel n : ℕ) (t : Tick)
      → Within n t
      → ((w : Walk) → IsBounded w → w.total_runs ≡ n → Ends (walk world steps order fuel w))
      → Ends (elim t [ going w ↦ walk world steps order fuel w | s ↦ some s ])
  rest_Ends fuel n (going w) h go = go w h.0 h.1
  rest_Ends fuel n (finished w) h go = (w, inl refl, (stopped w h).0, (stopped w h).1)
  rest_Ends fuel n (failed e w) h go = (w, inr (e, refl), h.0, h.1)

  walk-Ends :
      (fuel : ℕ) (w : Walk)
      → IsBounded w
      → max_total_runs < fuel + w.total_runs
      → Ends (walk world steps order fuel w)
  unfolding walk
  walk-Ends zero w b h = absurd (omega (arith, b.total, h))
  walk-Ends (suc fuel) w b h =
      rest_Ends fuel (w.total_runs + 1) (tick world steps order w) (tick-Within w b)
        (λ v c e. walk-Ends fuel v c (omega (arith, h, e)))

run_flat-Ends :
    {C : Type 0} (world : World C) (input : String) (steps : List (ChainStep C))
    → Ends world steps (order_of steps) (run_flat world input steps)
unfolding run_flat
run_flat-Ends world input [] =
    (_, inr (no_steps, refl), omega arith, λ n. unfold runs_of in omega arith)
run_flat-Ends world input (s ∷ steps) =
    walk-Ends world (s ∷ steps) (order_of (s ∷ steps)) (max_total_runs + 2)
      (fresh input (order_of (s ∷ steps)))
      (record {
        total = omega arith;
        runs = omega arith;
        caps = λ n. omega arith;
        counted = λ n. unfold runs_of in omega arith;
      })
      (omega arith)

-- The flat steps of a job: none if it fails before its start.
unfoldable pub flat_steps : {C : Type 0} → Prepared C → List (ChainStep C)
flat_steps (prepared flat) = flat
flat_steps (unprepared e) = []

run_prepared-Ends :
    {C : Type 0} (world : World C) (input : String) (p : Prepared C)
    → Ends world (flat_steps p) (order_of (flat_steps p)) (run_prepared world input p)
unfolding run_prepared flat_steps
run_prepared-Ends world input (prepared flat) = run_flat-Ends world input flat
run_prepared-Ends world input (unprepared e) =
    (_, inr (e, refl), omega arith, λ n. unfold runs_of in omega arith)

-- Whatever the gotos, the picks and the outcomes of the steps are, a chain job comes to an end: it
-- finishes or fails after at most 2000 runs of steps, and no step runs more often than its visit
-- cap.
pub execute_chain_job-Ends :
    {C : Type 0} (sequences : String → Option (List (ChainStep C))) (world : World C)
    (input : String) (steps : List (ChainStep C))
    → Ends world
        (flat_steps (prepare sequences steps))
        (order_of (flat_steps (prepare sequences steps)))
        (execute_chain_job sequences world input steps)
unfolding execute_chain_job
execute_chain_job-Ends sequences world input steps =
    run_prepared-Ends world input (prepare sequences steps)
