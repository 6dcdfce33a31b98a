-- ===== src/JobQueue.antt =====
-- app/job_queue.py: the queue with two lanes, its one worker, and the event buses that it keeps.
-- A runner is a value of the parameter `R`, which the queue only stores and hands to the worker.
pub mod Invariant
pub mod Order
pub mod Line
pub mod Arrivals
pub mod Recovery
pub mod Buses
use mathlib.Core.Option
use ai_job_server.Prelude.{
  map, ℕ, suc, ◌+◌, ◌-◌, String, str_eq, Bool, true, false, not, ◌&&◌, ◌≡◌, Option, none, some,
  List, [], ◌∷◌, ◌++◌, leb, ◌<◌, if◌then◌else◌, length,
}
use ai_job_server.Prelude.Dict.{Dict, get, put, pop, has, add, discard}
use ai_job_server.EventBus
use ai_job_server.EventBus.{EventBus}

pub data Priority : Type 0 where
  high low : Priority

abbrev pub Item : Type 0 → Type 0
Item R = String × R

-- `_worker_task`: none yet, parked on the semaphore, awaiting a runner, or done.
pub data Worker : Type 0 where
  absent parked running finished : Worker

-- What `find_job_dir(id)/status.json` holds: no directory, no file, no JSON, or a status. A file that
-- is JSON is taken to be an object in UTF-8, as the server writes it: any other would raise in the
-- worker, outside its `try`, and end it.
pub data StatusFile : Type 0 where
  no_dir no_file unreadable : StatusFile
  status : Option String → StatusFile

abbrev pub Disk : Type 0
Disk = String → StatusFile

pub record JobQueue (R P : Type 0) : Type 0 where
  pub high_lane : List (Item R)
  pub low_lane : List (Item R)
  pub avail : ℕ
  pub pending_ids : List String
  pub worker : Worker
  pub stop_event : Bool
  pub current_job_id : Option String
  pub buses : Dict (EventBus P)
  pub bus_expiry : Dict ℕ
  pub sweeping : Bool

unfoldable pub job_still_queued : StatusFile → Bool
job_still_queued (status (some s)) = str_eq s "queued"
job_still_queued _ = false

abbrev pub is_alive : Worker → Bool
is_alive parked = true
is_alive running = true
is_alive _ = false

abbrev pub is_absent : Worker → Bool
is_absent absent = true
is_absent _ = false

-- `popleft` of the first lane that is not empty, with the two lanes that are left.
unfoldable pub take_next :
    {R : Type 0} → List (Item R) → List (Item R) → Option (Item R × List (Item R) × List (Item R))
take_next (x ∷ hs) ls = some (x, hs, ls)
take_next [] (x ∷ ls) = some (x, [], ls)
take_next [] [] = none

-- `expired` of a round of `_sweep`, and the round.
unfoldable pub expired_ids : ℕ → Dict ℕ → List String
expired_ids now [] = []
expired_ids now ((id, at) ∷ d) =
    let rest = expired_ids now d in if leb at now then id ∷ rest else rest

unfoldable pub pop_all : {W : Type 0} → List String → Dict W → Dict W
pop_all [] d = d
pop_all (id ∷ ids) d = pop_all ids (pop id d)

module _ {R P : Type 0} where
  abbrev pub init : JobQueue R P
  init = record {
    high_lane = [];
    low_lane = [];
    avail = 0;
    pending_ids = [];
    worker = absent;
    stop_event = false;
    current_job_id = none;
    buses = [];
    bus_expiry = [];
    sweeping = false;
  }

  unfoldable pub start : JobQueue R P → JobQueue R P
  start q =
      if is_alive q.worker
      then q
      else record q { stop_event = false; worker = parked; sweeping = true }

  unfoldable pub append_to : Priority → Item R → JobQueue R P → JobQueue R P
  append_to high x q = record q { high_lane = q.high_lane ++ x ∷ [] }
  append_to low x q = record q { low_lane = q.low_lane ++ x ∷ [] }

  -- Up to the `sleep(0)`, at which the worker may run.
  unfoldable pub enqueue : String → R → Priority → JobQueue R P → JobQueue R P
  unfolding start append_to add
  enqueue id runner priority q =
      let q₁ = start q in
      let q₂ = append_to priority (id, runner) q₁ in
      record q₂ { pending_ids = add id q₁.pending_ids; avail = q₁.avail + 1 }

  -- `stop` up to its await of the worker.
  unfoldable pub stop_begin : JobQueue R P → JobQueue R P
  stop_begin q =
      if is_absent q.worker then q else record q { stop_event = true; avail = q.avail + 1 }

  -- `stop` from the end of the worker on. The buses are closed, which their subscribers see, and
  -- forgotten: the closed buses are returned.
  unfoldable pub stop_finish : JobQueue R P → Dict (EventBus P) × JobQueue R P
  stop_finish q = (
    map (λ e. (e.0, EventBus.close e.1)) q.buses,
    record q { worker = absent; sweeping = false; buses = []; bus_expiry = [] },
  )

  unfoldable pub depth : JobQueue R P → ℕ
  depth q = length q.pending_ids

  unfoldable pub is_pending : String → JobQueue R P → Bool
  unfolding has
  is_pending id q = has id q.pending_ids

  unfoldable pub cancel_queued : String → JobQueue R P → Bool × JobQueue R P
  unfolding has discard
  cancel_queued id q =
      if has id q.pending_ids
      then (true, record q { pending_ids = discard id q.pending_ids })
      else (false, q)

  -- The worker after an item came off a lane: the status on disk is read again, and a job that is
  -- no longer queued there is skipped.
  unfoldable pub serve : Disk → Item R → JobQueue R P → JobQueue R P
  unfolding job_still_queued
  serve disk (id, runner) q =
      if job_still_queued (disk id)
      then record q { current_job_id = some id; worker = running }
      else q

  unfoldable pub after_take :
      Disk → Option (Item R × List (Item R) × List (Item R)) → JobQueue R P → JobQueue R P
  unfolding serve discard
  after_take disk none q = q
  after_take disk (some (x, hs, ls)) q =
      serve disk x
        (record q { high_lane = hs; low_lane = ls; pending_ids = discard x.0 q.pending_ids })

  -- One round of `_run`, once `acquire` has a permit, to the await of the runner or the next park.
  unfoldable pub wake : Disk → JobQueue R P → JobQueue R P
  unfolding after_take take_next
  wake disk q =
      if q.stop_event
      then record q { avail = q.avail - 1; worker = finished }
      else after_take disk (take_next q.high_lane q.low_lane) (record q { avail = q.avail - 1 })

  -- The runner has returned or raised: either way `finally` clears the current job.
  unfoldable pub runner_done : JobQueue R P → JobQueue R P
  runner_done q = record q { current_job_id = none; worker = parked }

  -- A bus that was there is closed, which its subscribers see, and replaced: it is returned.
  unfoldable pub create_bus : String → JobQueue R P → Option (EventBus P) × JobQueue R P
  create_bus id q = (
    Option.map EventBus.close (get id q.buses),
    record q { buses = put id EventBus.empty q.buses; bus_expiry = pop id q.bus_expiry },
  )

  unfoldable pub get_bus : String → JobQueue R P → Option (EventBus P)
  get_bus id q = get id q.buses

  unfoldable pub close_found : ℕ → String → Option (EventBus P) → JobQueue R P → JobQueue R P
  close_found expiry id none q = q
  close_found expiry id (some bus) q = record q {
    buses = put id (EventBus.close bus) q.buses;
    bus_expiry = put id expiry q.bus_expiry;
  }

  unfoldable pub close_bus : ℕ → ℕ → String → JobQueue R P → JobQueue R P
  unfolding close_found
  close_bus retention now id q = close_found (now + retention) id (get id q.buses) q

  unfoldable pub sweep : ℕ → JobQueue R P → JobQueue R P
  unfolding expired_ids pop_all
  sweep now q =
      let ids = expired_ids now q.bus_expiry in
      record q { buses = pop_all ids q.buses; bus_expiry = pop_all ids q.bus_expiry }
