-- ===== src/Tests/Blaboratory.antt =====
-- Runs at fixed inputs, of app/apps/blaboratory/tick_runner.py and call_sequence.py.
use ai_job_server.Prelude.{
  ◌+◌, ◌≡◌, refl, eq_iff, true, none, some, List, [], ◌∷◌, if◌then◌else◌, ◌==◌, arith,
}
use ai_job_server.Prelude.Dict.{get}
use ai_job_server.Blaboratory.{Resident, Lab}
use ai_job_server.Blaboratory.Rooms.{occupied_rooms}
use ai_job_server.Blaboratory.Tables.{next_tick}
use ai_job_server.Blaboratory.Call.{World, run_call}
use ai_job_server.Blaboratory.Call.Lines.{IsCall, run_call-IsCall}
use ai_job_server.Blaboratory.Tick.{Acted, ticked, or_next, run_tick}
use ai_job_server.Blaboratory.Tick.Turns.{Logs}
use ai_job_server.Blaboratory.Tick.Events.{
  Filed, Picks, acted_in, run_tick-Logs, next_tick-run_tick,
}

abbrev ada : Resident
ada = record { id = "a"; name = [] }

abbrev bob : Resident
bob = record { id = "b"; name = [] }

-- A model whose every answer is "A", which chooses the speakerphone.
abbrev model : World
model = record {
  reply = λ n. some (65 ∷ []);
  upper = λ t. t;
  strip = λ t. t;
  pick = λ n c cs. c;
  decode = λ t. some ("use_speakerphone", none);
}

abbrev lab : Lab
lab = record {
  rooms = λ r. if r == 1 then some "a" else if r == 2 then some "b" else none;
  residents = ("a", ada) ∷ ("b", bob) ∷ [];
  activities = [];
  calls = [];
  utterances = [];
  chat = [];
  cursors = [];
  events = [];
  asked = 0;
  busy = [];
}

run_call-IsCall_example : IsCall model ada bob 1 lab (run_call model ada bob 1 lab)
run_call-IsCall_example = run_call-IsCall model ada bob 1 lab

lab-Filed : Filed lab
unfolding get
lab-Filed rid r h = ground (arith, eq_iff "a" rid, eq_iff "b" rid, h)

run_tick-Logs_example :
    (acted : List Acted) × (((run_tick model true none lab).0
        ≡ ticked (or_next model none lab) acted)
      × (Picks (occupied_rooms lab.rooms) acted
          × Logs (or_next model none lab) lab acted (run_tick model true none lab).1))
run_tick-Logs_example = run_tick-Logs model none lab lab-Filed

next_tick-run_tick_example :
    next_tick (run_tick model true none lab).1 ≡ (elim (acted_in (run_tick model true none lab).0) [
      | [] ↦ next_tick lab
      | a ∷ acted ↦ next_tick lab + 1
    ])
next_tick-run_tick_example = next_tick-run_tick model lab lab-Filed

one_acts :
    (run_tick model true none lab).0
    ≡ ticked 1 (record { room_id = 1; resident_id = "a"; action = "use_speakerphone" } ∷ [])
unfolding run_tick
one_acts = refl
