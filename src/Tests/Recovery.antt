-- ===== src/Tests/Recovery.antt =====
-- Runs at fixed inputs, of app/job_queue.py `recover_interrupted_jobs`.
use ai_job_server.Prelude.{
  ℕ, ◌≡◌, refl, String, str_eq, false, Option, none, some, List, [], ◌∷◌, if◌then◌else◌, ltb, Bool,
  true, ◌&&◌,
}
use ai_job_server.Prelude.Texts.{text_le}
use ai_job_server.JobQueue.{JobQueue, Worker, parked, Disk, status, wake}
use ai_job_server.JobQueue.Invariant.{ids}
use ai_job_server.JobQueue.Recovery.{holding, JobDir, Entry, recovered}

abbrev job_dir : String → String → String → String → JobDir String
job_dir name kind state time = record {
  dir_name = name;
  status_file = holding (record {
    job_id = some name;
    job_type = some kind;
    status = some state;
    error = none;
    created_at = some time;
  });
  request_file = holding (record { job_type = some kind; requested = "" });
}

abbrev dirs : List (JobDir String)
dirs =
    job_dir "a" "chain" "queued" "2026-03"
    ∷ job_dir "b" "chain" "running" "2026-02"
    ∷ job_dir "c" "blaboratory_tick" "queued" "2026-01"
    ∷ job_dir "d" "image" "queued" "2025-12"
    ∷ []

abbrev build : Entry String → Option String
build e = if str_eq e.job_type "blaboratory_tick" then none else some "runner"

abbrev disk : Disk
disk id = status (some "queued")

abbrev is_parked : Worker → Bool
is_parked parked = true
is_parked _ = false

-- One round of the worker, if it can go on.
abbrev pause : ℕ → JobQueue String String → JobQueue String String
pause n q = if is_parked q.worker && ltb 0 q.avail then wake disk q else q

lanes_after :
    (ids (recovered build pause dirs).0.high_lane ≡ "a" ∷ [])
    × ((recovered build pause dirs).0.current_job_id ≡ some "d")
unfolding recovered wake text_le
lanes_after = (refl, refl)
