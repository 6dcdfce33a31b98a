-- ===== src/Chain/Run.antt =====
-- app/chain/executor.py: a chain job from its request to its end, above all the walk over its flat
-- steps. A step always has an alternative, since app/chain/models.py refuses one without, and the
-- steps of a stored sequence are taken to be steps that it accepts.
-- The random pick and the runners of the steps are given by a `World`; logs, times and the files of
-- the steps are not modelled, nor the events with the input, the chunks and the summary of a step.
pub mod Budget
pub mod Events
use ai_job_server.Prelude.{
  ℕ, zero, suc, ◌+◌, ◌≡◌, String, Bool, true, false, not, Option, none, some, List, [], ◌∷◌, ◌++◌,
  map, ltb, leb, ◌==◌, if◌then◌else◌, length, any, keep,
}
use ai_job_server.Prelude.Sort.{sort}
use ai_job_server.Chain.Renumber.{renumber_top_level}
use ai_job_server.Chain.Expand.{ExpansionError, Expansion, expanded, refused, expand_steps}
use ai_job_server.Chain.{
  ChainStep, Alternative, StepType, llm, voice, write_context, sequence, image_prompt,
  save_wildcard, create_ticket, goto,
}

abbrev pub max_total_runs : ℕ
max_total_runs = 2000

-- What the runner of a step gives: the prompt that it rendered and its output, or an exception.
pub data Outcome : Type 0 where
  returned : (rendered output : String) → Outcome
  raised : String → Outcome

-- What `random.choices` and the runner of a step give in the n-th round of the loop.
pub record World (C : Type 0) : Type 0 where
  pub choose : ℕ → List (Alternative C) → Alternative C
  pub perform : ℕ → ChainStep C → Alternative C → String → Outcome

-- `not_renumbered` is the `ValueError` of the renumbering.
pub data Failure : Type 0 where
  no_steps run_budget not_renumbered : Failure
  not_expanded : ExpansionError → Failure
  missing_target visit_cap_exceeded : ℕ → Failure
  step_failed : String → Failure

pub data Event : Type 0 where
  job_start : ℕ → Event
  goto_taken : ℕ → Option ℕ → Bool → Event
  step_start : ℕ → ℕ → StepType → Event
  step_done : ℕ → ℕ → String → Event
  step_error : ℕ → ℕ → String → Event
  job_done_ok : String → Event
  job_done_error : Failure → Event

-- What `_write_chain_status` wrote last.
pub data Status : Type 0 where
  running : (touched : ℕ) (current : Option ℕ) → Status
  error : Failure → Status
  done : Status

pub record Walk : Type 0 where
  pub ptr : Option ℕ
  pub visits : ℕ → ℕ
  pub invocation_counter : ℕ → ℕ
  pub total_runs : ℕ
  pub text_output : String
  pub step_inputs : ℕ → List String
  pub step_outputs : ℕ → List String
  pub executed : List (ℕ × ℕ × StepType)
  pub events : List Event
  pub status : Status

pub data Tick : Type 0 where
  going : Walk → Tick
  finished : Walk → Tick
  failed : Failure → Walk → Tick

abbrev pub update {ℓ} : {A : Type ℓ} → (ℕ → A) → ℕ → A → ℕ → A
update f n a m = if n == m then a else f m

abbrev pub emit : Event → Walk → Walk
emit e w = record w { events = w.events ++ e ∷ [] }

unfoldable pub insert_number : ℕ → List ℕ → List ℕ
unfolding any
insert_number n l = if any (λ m. m == n) l then l else n ∷ l

module _ {C : Type 0} where
  -- `step_by_number.get(n)`: the last step with the number.
  unfoldable pub find : ℕ → List (ChainStep C) → Option (ChainStep C)
  find n [] = none
  find n (s ∷ steps) =
      let later = find n steps in
      elim later [ some t ↦ some t | none ↦ if s.number == n then some s else none ]

  unfoldable pub numbers : List (ChainStep C) → List ℕ
  numbers [] = []
  numbers (s ∷ steps) = insert_number s.number (numbers steps)

  -- `sorted(step_by_number.keys())`
  unfoldable pub order_of : List (ChainStep C) → List ℕ
  unfolding numbers sort
  order_of steps = sort leb (numbers steps)

abbrev pub head_of : List ℕ → Option ℕ
head_of [] = none
head_of (n ∷ l) = some n

unfoldable pub next_in_order : List ℕ → ℕ → Option ℕ
next_in_order [] n = none
next_in_order (m ∷ order) n = if m == n then head_of order else next_in_order order n

module _ {C : Type 0} (world : World C) (steps : List (ChainStep C)) (order : List ℕ) where
  unfoldable pub pick_alternative : ℕ → List (Alternative C) → Alternative C
  pick_alternative n (a ∷ []) = a
  pick_alternative n alts = world.choose n alts

  abbrev is_goto : StepType → Bool
  is_goto goto = true
  is_goto _ = false

  unfoldable pub take_goto : ℕ → Alternative C → Walk → Tick
  unfolding next_in_order
  take_goto p alt w =
      if alt.fall_through
      then going (record (emit (goto_taken p none true) w) { ptr = next_in_order order p })
      else going (record (emit (goto_taken p alt.target_step false) w) { ptr = alt.target_step })

  -- A sequence is no step that can run.
  unfoldable pub perform_step : ℕ → ChainStep C → StepType → Alternative C → String → Outcome
  perform_step n step sequence alt text = raised "unsupported step type 'sequence'"
  perform_step n step _ alt text = world.perform n step alt text

  abbrev next_text : StepType → String → String → String
  next_text llm output text = output
  next_text _ output text = text

  unfoldable pub touched : (ℕ → ℕ) → List ℕ → ℕ
  touched visits [] = 0
  touched visits (n ∷ l) =
      let rest = touched visits l in if ltb 0 (visits n) then suc rest else rest

  -- The bookkeeping before a step runs.
  unfoldable pub begin_step : ℕ → ChainStep C → Walk → Walk
  unfolding touched
  begin_step p step w =
      let inv = w.invocation_counter p in
      emit (step_start p inv step.kind) (record w {
        invocation_counter = update w.invocation_counter p (inv + 1);
        executed = w.executed ++ (p, inv, step.kind) ∷ [];
        status = running (touched w.visits order) (some p);
      })

  unfoldable pub end_step : ℕ → ℕ → ChainStep C → Outcome → Walk → Tick
  unfolding next_in_order
  end_step p inv step (returned rendered output) w =
      going (record (emit (step_done p inv output) w) {
        step_inputs = update w.step_inputs p (w.step_inputs p ++ rendered ∷ []);
        step_outputs = update w.step_outputs p (w.step_outputs p ++ output ∷ []);
        text_output = next_text step.kind output w.text_output;
        ptr = next_in_order order p;
      })
  end_step p inv step (raised e) w =
      failed (step_failed e)
        (record (emit (job_done_error (step_failed e)) (emit (step_error p inv e) w)) {
          status = error (step_failed e);
        })

  unfoldable pub run_step : ℕ → ChainStep C → Walk → Tick
  unfolding take_goto begin_step end_step perform_step pick_alternative
  run_step p step w =
      let alt = pick_alternative w.total_runs step.alternatives in
      if is_goto step.kind
      then take_goto p alt w
      else end_step p (w.invocation_counter p) step
          (perform_step w.total_runs step step.kind alt w.text_output) (begin_step p step w)

  abbrev stop_with : Failure → Walk → Tick
  stop_with e w = failed e (record w { status = error e })

  -- The step that is found at the pointer: the visit cap and the budget come first.
  unfoldable pub visit : ℕ → ChainStep C → Walk → Tick
  unfolding run_step
  visit p step w =
      let w₁ = record w { visits = update w.visits p (w.visits p + 1) } in
      if ltb step.visit_cap (w.visits p + 1)
      then stop_with (visit_cap_exceeded p) w₁
      else let w₂ = record w₁ { total_runs = w.total_runs + 1 } in
        if ltb max_total_runs (w.total_runs + 1)
        then stop_with run_budget w₂
        else run_step p step w₂

  unfoldable pub at_pointer : Option ℕ → Walk → Tick
  unfolding visit find
  at_pointer none w = finished (record (emit (job_done_ok w.text_output) w) { status = done })
  at_pointer (some p) w = elim (find p steps) [
    | none ↦ stop_with (missing_target p) w
    | some step ↦ visit p step w
  ]

  -- One round of the loop, or its end.
  unfoldable pub tick : Walk → Tick
  unfolding at_pointer
  tick w = at_pointer w.ptr w

  -- `none` is a lack of fuel.
  unfoldable pub walk : ℕ → Walk → Option Tick
  unfolding tick
  walk zero w = none
  walk (suc fuel) w = elim (tick w) [ going w' ↦ walk fuel w' | t ↦ some t ]

abbrev pub fresh : String → List ℕ → Walk
fresh input order = record {
  ptr = head_of order;
  visits = λ n. 0;
  invocation_counter = λ n. 0;
  total_runs = 0;
  text_output = input;
  step_inputs = λ n. [];
  step_outputs = λ n. [];
  executed = [];
  events = job_start (length order) ∷ [];
  status = running 0 none;
}

-- The flat steps of a job, or why it has none.
pub data Prepared (C : Type 0) : Type 0 where
  prepared : List (ChainStep C) → Prepared C
  unprepared : Failure → Prepared C

-- The end of a job that fails before its start.
abbrev pub refuse : String → Failure → Tick
refuse input e =
    failed e (record (fresh input []) { status = error e; events = job_done_error e ∷ [] })

module _ {C : Type 0} where
  abbrev pub of_expansion : Expansion C → Prepared C
  of_expansion (expanded l) = prepared l
  of_expansion (refused e) = unprepared (not_expanded e)

  abbrev pub expand_numbered :
      (String → Option (List (ChainStep C))) → Option (List (ChainStep C)) → Prepared C
  expand_numbered sequences none = unprepared not_renumbered
  expand_numbered sequences (some steps) = of_expansion (expand_steps sequences steps)

  unfoldable pub prepare : (String → Option (List (ChainStep C))) → List (ChainStep C) → Prepared C
  unfolding renumber_top_level expand_steps
  prepare sequences steps = expand_numbered sequences (renumber_top_level steps)

  -- The job from the flat steps on. At most 2000 rounds go on, and one ends the walk.
  unfoldable pub run_flat : World C → String → List (ChainStep C) → Option Tick
  unfolding walk order_of
  run_flat world input [] = some (refuse input no_steps)
  run_flat world input (s ∷ steps) =
      let order = order_of (s ∷ steps) in
      walk world (s ∷ steps) order (max_total_runs + 2) (fresh input order)

  unfoldable pub run_prepared : World C → String → Prepared C → Option Tick
  unfolding run_flat
  run_prepared world input (unprepared e) = some (refuse input e)
  run_prepared world input (prepared flat) = run_flat world input flat

  -- `sequences` gives the steps of a stored sequence by its id.
  unfoldable pub execute_chain_job :
      (String → Option (List (ChainStep C))) → World C → String → List (ChainStep C) → Option Tick
  unfolding run_prepared prepare
  execute_chain_job sequences world input steps = run_prepared world input (prepare sequences steps)
