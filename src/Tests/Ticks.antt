-- ===== src/Tests/Ticks.antt =====
-- Runs at fixed inputs, of app/ticks/persistence.py and app/ticks/scheduler.py.
use ai_job_server.Prelude.{
  ◌≡◌, refl, String, str_eq, true, false, some, List, [], ◌∷◌, if◌then◌else◌, ◌+◌, arith,
}
use ai_job_server.JobQueue.{init, status}
use ai_job_server.Sequences.{Sequence}
use ai_job_server.Sequences.Store.{get_sequence}
use ai_job_server.Ticks.{Tick, Field, blank, save_tick, get_tick, set_fields}
use ai_job_server.Ticks.Index.{saved_from, get_tick-save_tick}
use ai_job_server.Ticks.Scheduler.{Server, World, Job, fire, rounds, fire_tick}
use ai_job_server.Ticks.Scheduler.Firing.{IsSkipped, fire-overlap}
use ai_job_server.Ticks.Scheduler.Quiet.{IsQuiet, rounds-IsQuiet}

abbrev hourly : Tick
hourly = record (blank "t" 0) { name = some "t"; cron = "0 * * * *"; sequence_id = some "s" }

abbrev rescheduled : Tick
rescheduled = record hourly { cron = "x"; updated_at = 5 }

get_tick-save_tick_example :
    ((save_tick "u" (some "t") (Field.cron "x" ∷ []) 5 (hourly ∷ [])).0 ≡ rescheduled)
    × (get_tick "t" (save_tick "u" (some "t") (Field.cron "x" ∷ []) 5 (hourly ∷ [])).1 ≡ (
        if str_eq (saved_from "u" (some "t") 5 (hourly ∷ [])).id "t"
        then some rescheduled
        else get_tick "t" (hourly ∷ [])))
unfolding get_tick saved_from set_fields
get_tick-save_tick_example =
    get_tick-save_tick "u" (some "t") (Field.cron "x" ∷ []) 5 "t" (hourly ∷ []) refl

abbrev steps_of_tick : Sequence String
steps_of_tick = record {
  id = "s";
  name = "s";
  description = "";
  tags = [];
  created_at = 0;
  updated_at = 0;
  steps = [];
  variables = [];
}

-- A clock that advances by 1 with each reading, and a schedule that is due 1 later.
abbrev world : World
world = record {
  time = λ n. n;
  next_fire = λ cron base. some (base + 1);
  new_id = λ n. "j";
  library = steps_of_tick ∷ [];
  default_llm = true;
  meanwhile = λ s. s;
}

abbrev server : List Tick → List Job → Server
server ticks jobs = record { reads = 0; created = 0; ticks = ticks; jobs = jobs; queue = init }

rounds-IsQuiet_example :
    IsQuiet world (server (hourly ∷ []) []) (rounds world 3 (server (hourly ∷ []) []))
rounds-IsQuiet_example =
    rounds-IsQuiet world 3 (server (hourly ∷ []) [])
      (record { forward = λ m n h. h; after = λ cron base n h. ground (arith, h) }) (refl, tt)

fire-overlap_example :
    IsSkipped world
      (fire world true hourly (server (hourly ∷ []) [])).1
      (fire_tick world "t" false (fire world true hourly (server (hourly ∷ []) [])).1)
unfolding get_tick fire get_sequence
fire-overlap_example =
    fire-overlap world true hourly (server (hourly ∷ []) []) "j" refl refl (λ e. absurd (cc e))
      (λ r. refl) (λ r h. h) refl

abbrev running : Job
running = record { id = "j"; fired_by = some "t"; file = status (some "running") }

abbrev held : Tick
held = record hourly { last_job_id = some "j"; last_fire_at = some 0 }
