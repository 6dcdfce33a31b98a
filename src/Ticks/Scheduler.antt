-- ===== src/Ticks/Scheduler.antt =====
-- app/ticks/scheduler.py: the rounds of the scheduler, over the index of ticks, the jobs on disk and
-- the job queue. A runner is named by the id of the sequence that it runs.
pub mod Quiet
pub mod Overlap
pub mod Firing
pub mod Updates
use ai_job_server.Prelude.{
  ℕ, zero, suc, ◌+◌, String, str_eq, Bool, true, false, not, ◌&&◌, ◌||◌, Option, none, some, List,
  [], ◌∷◌, ◌++◌, if◌then◌else◌, first, keep, ltb,
}
use ai_job_server.JobQueue.{
  JobQueue, StatusFile, high, enqueue, status, no_dir, no_file, unreadable,
}
use ai_job_server.Sequences.{Sequence}
use ai_job_server.Sequences.Store.{get_sequence}
use ai_job_server.Ticks.{
  Tick, Field, Reason, overlap, sequence_missing, no_default_llm, get_tick, update_tick_fields,
}

-- A directory of a job: `fired_by_tick` of its request and its `status.json`.
pub record Job : Type 0 where
  pub id : String
  pub fired_by : Option String
  pub file : StatusFile

-- `reads` counts the readings of the clock and `created` the jobs that were created.
pub record Server : Type 0 where
  pub reads : ℕ
  pub created : ℕ
  pub ticks : List Tick
  pub jobs : List Job
  pub queue : JobQueue String String

-- `time n` is the n-th reading of the clock, `next_fire` is `croniter`, which raises where it gives
-- nothing, `new_id` is `uuid4`, and `meanwhile` is what other tasks do in the `sleep` of an enqueue.
pub record World : Type 1 where
  pub time : ℕ → ℕ
  pub next_fire : String → ℕ → Option ℕ
  pub new_id : ℕ → String
  pub library : List (Sequence String)
  pub default_llm : Bool
  pub meanwhile : Server → Server

pub data Outcome : Type 0 where
  missing raised : Outcome
  skipped : Reason → Outcome
  fired : String → Outcome

abbrev is_active : StatusFile → Bool
is_active (status (some s)) = str_eq s "queued" || str_eq s "running"
is_active _ = false

unfoldable pub is_running_or_queued : String → List Job → Bool
unfolding first
is_running_or_queued job_id jobs = elim (first (λ j. str_eq j.id job_id) jobs) [
  | none ↦ false
  | some j ↦ is_active j.file
]

unfoldable pub is_overlapping : Tick → List Job → Bool
unfolding is_running_or_queued
is_overlapping t jobs = elim t.last_job_id [
  | none ↦ false
  | some id ↦ not (str_eq id "") && is_running_or_queued id jobs
]

abbrev pub find_sequence : Option String → List (Sequence String) → Option (Sequence String)
find_sequence none library = none
find_sequence (some id) library = get_sequence id library

-- What `_fire` writes of a tick whose job is in the queue.
abbrev pub fire_fields : ℕ → String → Option ℕ → List Field
fire_fields now job_id next =
    Field.last_fire_at (some now)
    ∷ Field.last_job_id (some job_id)
    ∷ Field.last_skip_reason none
    ∷ Field.next_fire_at next
    ∷ []

abbrev pub read_clock : Server → Server
read_clock s = record s { reads = s.reads + 1 }

module _ (w : World) where
  unfoldable pub update_fields : String → List Field → Server → Server
  unfolding update_tick_fields
  update_fields tick_id fields s =
      elim (update_tick_fields tick_id fields (w.time s.reads) s.ticks) [
        | none ↦ s
        | some (t, ticks) ↦ record s { reads = s.reads + 1; ticks = ticks }
      ]

  -- `create_job`, and `enqueue` up to its `sleep`.
  unfoldable pub submit : Tick → Sequence String → Server → Server
  unfolding enqueue
  submit t seq s =
      let job_id = w.new_id s.created in
      record s {
        created = s.created + 1;
        jobs =
            s.jobs
            ++ record { id = job_id; fired_by = some t.id; file = status (some "queued") } ∷ [];
        queue = enqueue job_id seq.id high s.queue;
      }

  unfoldable pub record_fire : Tick → String → Server → Outcome × Server
  unfolding update_fields
  record_fire t job_id s =
      let now = w.time s.reads in
      if str_eq t.cron ""
      then (fired job_id, update_fields t.id (fire_fields now job_id none) (read_clock s))
      else elim (w.next_fire t.cron now) [
        | none ↦ (raised, read_clock s)
        | some n ↦
            (fired job_id, update_fields t.id (fire_fields now job_id (some n)) (read_clock s))
      ]

  unfoldable pub launch : Tick → Sequence String → Server → Outcome × Server
  unfolding submit record_fire
  launch t seq s = record_fire t (w.new_id s.created) (w.meanwhile (submit t seq s))

  abbrev pub skip : Tick → Reason → Server → Outcome × Server
  skip t r s = (skipped r, update_fields t.id (Field.last_skip_reason (some r) ∷ []) s)

  -- `_fire`
  unfoldable pub fire : Bool → Tick → Server → Outcome × Server
  unfolding is_overlapping update_fields launch
  fire force t s =
      if not force && is_overlapping t s.jobs
      then skip t overlap s
      else elim (find_sequence t.sequence_id w.library) [
        | none ↦ skip t sequence_missing s
        | some seq ↦ if w.default_llm then launch t seq s else skip t no_default_llm s
      ]

  unfoldable pub fire_tick : String → Bool → Server → Outcome × Server
  unfolding get_tick fire
  fire_tick tick_id force s = elim (get_tick tick_id s.ticks) [
    | none ↦ (missing, s)
    | some t ↦ fire force t s
  ]

  -- The time that `_next_fire` counts from, with the clock read where there is none.
  abbrev base_of : Tick → Server → ℕ × Server
  base_of t s = elim t.last_fire_at [ none ↦ (w.time s.reads, read_clock s) | some at ↦ (at, s) ]

  -- `_maybe_fire`, whose exceptions `_check_all` logs.
  unfoldable pub maybe_fire : Tick → ℕ → Server → Server
  unfolding fire
  maybe_fire t now s = if str_eq t.cron "" then s else elim (w.next_fire t.cron (base_of t s).0) [
    | none ↦ (base_of t s).1
    | some n ↦ if ltb now n then (base_of t s).1 else (fire false t (base_of t s).1).1
  ]

  unfoldable pub check_each : ℕ → List Tick → Server → Server
  unfolding maybe_fire
  check_each now [] s = s
  check_each now (t ∷ ts) s = check_each now ts (if t.enabled then maybe_fire t now s else s)

  unfoldable pub check_all : Server → Server
  unfolding check_each
  check_all s = check_each (w.time s.reads) s.ticks (read_clock s)

  -- `_loop`, for a number of rounds.
  unfoldable pub rounds : ℕ → Server → Server
  unfolding check_all
  rounds zero s = s
  rounds (suc n) s = rounds n (check_all s)
