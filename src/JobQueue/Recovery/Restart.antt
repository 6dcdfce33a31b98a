-- ===== src/JobQueue/Recovery/Restart.antt =====
-- app/job_queue.py `recover_interrupted_jobs` and the `lifespan` of app/main.py: the queue and the
-- disk after a restart. While the lifespan starts, no request is served and no scheduler runs, so the
-- worker and the sweep are all that acts on the queue at the pauses of the loop.
use ai_job_server.Prelude.{
  ◌≡◌, ◌++◌, ℕ, ◌<◌, String, Bool, false, Option, none, some, List, [], ◌∷◌,
}
use ai_job_server.EventBus.{EventBus}
use ai_job_server.JobQueue.{
  JobQueue, Item, Disk, parked, running, wake, runner_done, create_bus, close_bus, sweep,
}
use ai_job_server.JobQueue.Recovery.{StatusJson, FileOf, holding, Entry, is_text}

-- The items of the entries that a runner can be built for.
unfoldable pub runnable : {Q R : Type 0} → (Entry Q → Option R) → List (Entry Q) → List (Item R)
runnable build [] = []
runnable build (e ∷ es) = elim (build e) [
  | none ↦ runnable build es
  | some runner ↦ (e.job_id, runner) ∷ runnable build es
]

-- The file shows a job that runs.
abbrev pub shows_running : FileOf StatusJson → Bool
shows_running (holding s) = is_text "running" s.status
shows_running _ = false

-- What may happen at a pause: rounds of the worker, in the states in which it can go on, and changes
-- of the buses.
pub data Works {R P : Type 0} : JobQueue R P → JobQueue R P → Type 0 where
  rests : (q : JobQueue R P) → Works q q
  wakes :
      (disk : Disk) (q r : JobQueue R P)
      → q.worker ≡ parked
      → 0 < q.avail
      → Works (wake disk q) r
      → Works q r
  ends : (q r : JobQueue R P) → q.worker ≡ running → Works (runner_done q) r → Works q r
  makes_bus : (id : String) (q r : JobQueue R P) → Works (create_bus id q).1 r → Works q r
  closes_bus :
      (retention now : ℕ) (id : String) (q r : JobQueue R P)
      → Works (close_bus retention now id q) r
      → Works q r
  sweeps : (now : ℕ) (q r : JobQueue R P) → Works (sweep now q) r → Works q r

module _ {R P : Type 0} where
  -- Of the items that were added to the HIGH lane the first ones are taken and the others are there.
  IsAhead : List (Item R) → JobQueue R P → Type 0
  IsAhead added q = (taken : List (Item R)) × (taken ++ q.high_lane ≡ added) × (q.low_lane ≡ [])
