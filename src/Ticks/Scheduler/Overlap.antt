-- ===== src/Ticks/Scheduler/Overlap.antt =====
-- app/ticks/scheduler.py and the filter of jobs in app/main.py: the guard against overlapping jobs.
use ai_job_server.Prelude.{◌≡◌, String, str_eq, Bool, true, false, none, some, List, All, keep}
use ai_job_server.Ticks.{Tick}
use ai_job_server.Ticks.Scheduler.{Server, Job, World, is_running_or_queued}

abbrev job_fired_by_tick : String → Job → Bool
job_fired_by_tick k j = elim j.fired_by [ none ↦ false | some i ↦ str_eq i k ]

-- The filter of `get_tick_recent_jobs`, which then sorts and limits what it keeps.
unfoldable pub jobs_fired_by : String → List Job → List Job
unfolding keep
jobs_fired_by k jobs = keep (job_fired_by_tick k) jobs

module _ (w : World) (k last : String) where
  -- The job `last`, which has an id that is not empty, is the last one of the tick.
  abbrev pub HasLast : Tick → Type 0
  HasLast t = t.id ≡ k → (t.last_job_id ≡ some last) × (str_eq last "" ≡ false)

  -- Other tasks do not write the index, do not end that job and create none for the tick.
  pub record IsIdle : Type 0 where
    pub same_ticks : (s : Server) → (w.meanwhile s).ticks ≡ s.ticks
    pub still_active :
        (s : Server)
        → is_running_or_queued last s.jobs ≡ true
        → is_running_or_queued last (w.meanwhile s).jobs ≡ true
    pub no_jobs : (s : Server) → jobs_fired_by k (w.meanwhile s).jobs ≡ jobs_fired_by k s.jobs

  record Keeps (s r : Server) : Type 0 where
    same_jobs : jobs_fired_by k r.jobs ≡ jobs_fired_by k s.jobs
    active : is_running_or_queued last s.jobs ≡ true → is_running_or_queued last r.jobs ≡ true
    held : All HasLast s.ticks → All HasLast r.ticks
