-- ===== src/JobQueue/Arrivals.antt =====
-- app/job_queue.py: the queue as a line of the waiting items: what a step does to it.
use mathlib.Core.Path.{ap₂}
use ai_job_server.Prelude.{
  ℕ, ◌+◌, true, false, subst, ◌-◌, ◌≡◌, refl, sym, ap, ◌∙◌, Option, none, some, List, [], ◌∷◌, ◌++◌,
  if◌then◌else◌, if_ind, append-nil, String, Bool,
}
use ai_job_server.Prelude.Dict.{has, get}
use ai_job_server.EventBus.{EventBus}
use ai_job_server.JobQueue.{
  JobQueue, Item, Priority, high, low, Disk, finished, is_alive, start, append_to, enqueue,
  stop_begin, stop_finish, cancel_queued, serve, take_next, after_take, wake, runner_done,
  create_bus, close_bus, close_found, sweep, is_absent, job_still_queued,
}
use ai_job_server.JobQueue.Invariant.{
  Step, started, enqueued, stopping, stopped, cancelled, woken, ended, bus_created, bus_closed,
  swept,
}
use ai_job_server.JobQueue.Line.{
  lane, lane-append, Label, silent, arrival, departure, Move, kept, arrives, leaves, Place,
  find-Place,
}

-- The line is that of the queue's two lanes.
abbrev pub IsLine : {R P : Type 0} → List (Priority × Item R) → JobQueue R P → Type 0
IsLine line q = (lane high line ≡ q.high_lane) × (lane low line ≡ q.low_lane)

-- The item that a round of the worker takes.
abbrev pub departs : {R : Type 0} → List (Item R) → List (Item R) → Label (Item R)
departs (x ∷ hs) ls = departure high x
departs [] (x ∷ ls) = departure low x
departs [] [] = silent

abbrev pub seen : {R P : Type 0} {q r : JobQueue R P} → Step q r → Label (Item R)
seen (enqueued q id r p) = arrival p (id, r)
seen (woken q disk e h) = if q.stop_event then silent else departs q.high_lane q.low_lane
seen _ = silent

-- What the line does when the queue takes a step to `r`.
abbrev pub Follows :
    {R P : Type 0} → Label (Item R) → List (Priority × Item R) → JobQueue R P → Type 0
Follows {R = R} l line r = (next : List (Priority × Item R)) × (Move l line next × IsLine next r)

module _ {R P : Type 0} where
  lanes_of : JobQueue R P → List (Item R) × List (Item R)
  lanes_of q = (q.high_lane, q.low_lane)

  lanes-IsLine :
      (line : List (Priority × Item R)) (hs ls : List (Item R)) (r : JobQueue R P)
      → lanes_of r ≡ (hs, ls)
      → lane high line ≡ hs
      → lane low line ≡ ls
      → IsLine line r
  unfolding lanes_of
  lanes-IsLine line hs ls r e h l = (h ∙ ap (λ x. x.0) (sym e), l ∙ ap (λ x. x.1) (sym e))

  Follows-silent :
      (line : List (Priority × Item R)) (q r : JobQueue R P)
      → lanes_of r ≡ lanes_of q
      → IsLine line q
      → Follows silent line r
  unfolding lanes_of
  Follows-silent line q r e v = (line, (kept line, lanes-IsLine line _ _ r e v.0 v.1))

  serve-lanes :
      (disk : Disk) (x : Item R) (q : JobQueue R P) → lanes_of (serve disk x q) ≡ lanes_of q
  unfolding serve lanes_of
  serve-lanes disk (id, runner) q =
      if_ind (λ (r : JobQueue R P). lanes_of r ≡ lanes_of q) (job_still_queued (disk id))
        (λ e. refl) (λ e. refl)

  left-Follows :
      (disk : Disk) (p : Priority) (x : Item R) (line : List (Priority × Item R)) (q : JobQueue R P)
      (xs : List (Item R)) (at : Place p x xs line)
      → (p ≡ low → lane high (at.before ++ at.after) ≡ [])
      → lanes_of q ≡ (lane high (at.before ++ at.after), lane low (at.before ++ at.after))
      → Follows (departure p x) line (serve disk x q)
  left-Follows disk p x line q xs at n e =
      let next = at.before ++ at.after in
      (
        next,
        (
          subst (λ l. Move (departure p x) l next) (sym at.whole)
              (leaves p x at.before at.after at.first n),
          lanes-IsLine next _ _ (serve disk x q) (serve-lanes disk x q ∙ e) refl refl,
        ),
      )

  taken-Follows :
      (disk : Disk) (line : List (Priority × Item R)) (hs ls : List (Item R)) (q : JobQueue R P)
      → lane high line ≡ hs
      → lane low line ≡ ls
      → lanes_of q ≡ (hs, ls)
      → Follows (departs hs ls) line (after_take disk (take_next hs ls) q)
  unfolding after_take take_next lanes_of
  taken-Follows disk line (x ∷ hs) ls q h l e =
      let at = find-Place high x hs line h in
      left-Follows disk high x line _ hs at (λ e. absurd (cc e))
        (ap₂ (λ a b. (a, b)) (sym at.rest) (sym l ∙ sym at.beside))
  taken-Follows disk line [] (x ∷ ls) q h l e =
      let at = find-Place low x ls line l in
      let none_high : lane high (at.before ++ at.after) ≡ [] = at.beside ∙ h in
      left-Follows disk low x line _ ls at (λ e. none_high)
        (ap₂ (λ a b. (a, b)) (sym none_high) (sym at.rest))
  taken-Follows disk line [] [] q h l e = (line, (kept line, lanes-IsLine line [] [] q e h l))

  wake-Follows :
      (disk : Disk) (line : List (Priority × Item R)) (q : JobQueue R P)
      → IsLine line q
      → Follows (if q.stop_event then silent else departs q.high_lane q.low_lane) line (wake disk q)
  unfolding wake lanes_of
  wake-Follows disk line q v = go q.stop_event
    where
      go :
          (b : Bool)
          → Follows (if b then silent else departs q.high_lane q.low_lane) line (
              if b
              then record q { avail = q.avail - 1; worker = finished }
              else after_take disk
                  (take_next q.high_lane q.low_lane)
                  (record q { avail = q.avail - 1 }))
      go true = Follows-silent line q (record q { avail = q.avail - 1; worker = finished }) refl v
      go false =
          taken-Follows disk line q.high_lane q.low_lane (record q { avail = q.avail - 1 }) v.0 v.1
            refl

  start-lanes : (q : JobQueue R P) → lanes_of (start q) ≡ lanes_of q
  unfolding start lanes_of
  start-lanes q =
      if_ind (λ (r : JobQueue R P). lanes_of r ≡ lanes_of q) (is_alive q.worker) (λ e. refl)
        (λ e. refl)

  stop_begin-lanes : (q : JobQueue R P) → lanes_of (stop_begin q) ≡ lanes_of q
  unfolding stop_begin lanes_of
  stop_begin-lanes q =
      if_ind (λ (r : JobQueue R P). lanes_of r ≡ lanes_of q) (is_absent q.worker) (λ e. refl)
        (λ e. refl)

  cancel_queued-lanes :
      (id : String) (q : JobQueue R P) → lanes_of (cancel_queued id q).1 ≡ lanes_of q
  unfolding cancel_queued lanes_of
  cancel_queued-lanes id q =
      if_ind (λ (r : Bool × JobQueue R P). lanes_of r.1 ≡ lanes_of q) (has id q.pending_ids)
        (λ e. refl) (λ e. refl)

  append_to-IsLine :
      (line : List (Priority × Item R)) (p : Priority) (x : Item R) (q : JobQueue R P)
      → IsLine line q
      → IsLine (line ++ (p, x) ∷ []) (append_to p x q)
  unfolding append_to
  append_to-IsLine line high x q v = (
    lane-append high line _ ∙ ap (λ l. l ++ x ∷ []) v.0,
    lane-append low line _ ∙ append-nil (lane low line) ∙ v.1,
  )
  append_to-IsLine line low x q v = (
    lane-append high line _ ∙ append-nil (lane high line) ∙ v.0,
    lane-append low line _ ∙ ap (λ l. l ++ x ∷ []) v.1,
  )

  enqueue-Follows :
      (line : List (Priority × Item R)) (id : String) (x : R) (p : Priority) (q : JobQueue R P)
      → IsLine line q
      → Follows (arrival p (id, x)) line (enqueue id x p q)
  unfolding enqueue lanes_of
  enqueue-Follows line id x p q v =
      let started = lanes-IsLine line _ _ (start q) (start-lanes q) v.0 v.1 in
      let at_end = append_to-IsLine line p (id, x) (start q) started in
      (line ++ (p, (id, x)) ∷ [], (arrives p (id, x) line, at_end))

  close_found-lanes :
      (expiry : ℕ) (id : String) (o : Option (EventBus P)) (q : JobQueue R P)
      → lanes_of (close_found expiry id o q) ≡ lanes_of q
  unfolding close_found lanes_of
  close_found-lanes expiry id none q = refl
  close_found-lanes expiry id (some bus) q = refl

-- The queue is one line of items in the order of their arrival, as far as its clients and its worker
-- can tell by its two lanes: at each step an enqueued item arrives at the end of the line, the round
-- of a worker that was not told to stop takes the earliest HIGH item, or the earliest LOW item while
-- no HIGH item waits, and no other step changes the line.
pub step-Follows :
    {R P : Type 0} {q r : JobQueue R P} (line : List (Priority × Item R)) (s : Step q r)
    → IsLine line q
    → Follows (seen s) line r
unfolding lanes_of runner_done create_bus sweep stop_finish close_bus
step-Follows line (started q) v = Follows-silent line q (start q) (start-lanes q) v
step-Follows line (enqueued q id x p) v = enqueue-Follows line id x p q v
step-Follows line (stopping q) v = Follows-silent line q (stop_begin q) (stop_begin-lanes q) v
step-Follows line (stopped q e) v = Follows-silent line q (stop_finish q).1 refl v
step-Follows line (cancelled q id) v =
    Follows-silent line q (cancel_queued id q).1 (cancel_queued-lanes id q) v
step-Follows line (woken q disk e h) v = wake-Follows disk line q v
step-Follows line (ended q e) v = Follows-silent line q (runner_done q) refl v
step-Follows line (bus_created q id) v = Follows-silent line q (create_bus id q).1 refl v
step-Follows line (bus_closed q retention now id) v =
    Follows-silent line q (close_bus retention now id q)
      (close_found-lanes (now + retention) id (get id q.buses) q) v
step-Follows line (swept q now) v = Follows-silent line q (sweep now q) refl v
