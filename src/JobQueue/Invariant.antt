-- ===== src/JobQueue/Invariant.antt =====
-- app/job_queue.py: what every interleaving of the queue's operations keeps true.
use ai_job_server.Prelude.{
  ℕ, suc, ◌+◌, ◌-◌, ◌≤◌, ◌<◌, ◌≡◌, refl, String, str_eq, Bool, true, false, ◌&&◌, ◌||◌, Option,
  none, some, List, [], ◌∷◌, ◌++◌, map, arith, length, length-append, length-map, All, All-imp,
  All-append, sym, ◌∙◌, subst, eq_iff, Bool-cases, inl, inr, if_ind, keep,
}
use mathlib.Core.List.{map-append}
use ai_job_server.Prelude.Dict.{get, has, add, discard}
use ai_job_server.Prelude.Names.{
  NoDup, has-append, has-cons, has-nil, NoDup-discard, NoDup-add, length-le_of_has,
}
use ai_job_server.EventBus.{EventBus}
use ai_job_server.JobQueue.{
  JobQueue, Worker, parked, running, finished, Item, Priority, high, low, Disk, is_alive, is_absent,
  init, start, append_to, enqueue, stop_begin, stop_finish, cancel_queued, serve, take_next,
  after_take, wake, runner_done, create_bus, close_bus, close_found, sweep, depth, job_still_queued,
}

abbrev pub ids : {R : Type 0} → List (Item R) → List String
ids l = map (λ x. x.0) l

-- The ids of the items that still wait in a lane.
abbrev pub waiting : {R P : Type 0} → JobQueue R P → List String
waiting q = ids q.high_lane ++ ids q.low_lane

abbrev is_some : Option String → Bool
is_some none = false
is_some (some x) = true

abbrev is_running : Worker → Bool
is_running running = true
is_running _ = false

-- The permit that `stop` has given for the worker's exit.
abbrev exit_permit : Bool → ℕ
exit_permit true = 1
exit_permit false = 0

-- Permits for all items that wait, and one more for the exit of a worker that was told to stop;
-- tracked ids without repetitions, all of them in a lane; a current job exactly while the worker
-- awaits a runner; a worker that has returned was told to.
pub record IsSound {R P : Type 0} (q : JobQueue R P) : Type 0 where
  pub permits : length (waiting q) + exit_permit (q.stop_event && is_alive q.worker) ≤ q.avail
  pub distinct : NoDup q.pending_ids
  pub tracked : All (λ id. has id (waiting q) ≡ true) q.pending_ids
  pub busy : is_some q.current_job_id ≡ is_running q.worker
  pub told : q.worker ≡ finished → q.stop_event ≡ true

-- An operation of a client, of the event loop or of the worker, in the state in which it can
-- happen. `stop` is two steps, since it awaits the worker; the second stands for its resumption
-- before anything else restarts the queue.
pub data Step {R P : Type 0} : JobQueue R P → JobQueue R P → Type 0 where
  started : (q : JobQueue R P) → Step q (start q)
  enqueued : (q : JobQueue R P) (id : String) (r : R) (p : Priority) → Step q (enqueue id r p q)
  stopping : (q : JobQueue R P) → Step q (stop_begin q)
  stopped : (q : JobQueue R P) → q.worker ≡ finished → Step q (stop_finish q).1
  cancelled : (q : JobQueue R P) (id : String) → Step q (cancel_queued id q).1
  woken : (q : JobQueue R P) (disk : Disk) → q.worker ≡ parked → 0 < q.avail → Step q (wake disk q)
  ended : (q : JobQueue R P) → q.worker ≡ running → Step q (runner_done q)
  bus_created : (q : JobQueue R P) (id : String) → Step q (create_bus id q).1
  bus_closed :
      (q : JobQueue R P) (retention now : ℕ) (id : String) → Step q (close_bus retention now id q)
  swept : (q : JobQueue R P) (now : ℕ) → Step q (sweep now q)

pub data Reach {R P : Type 0} (q : JobQueue R P) : JobQueue R P → Type 0 where
  here : Reach q q
  next : {t u : JobQueue R P} → Reach q t → Step t u → Reach q u

-- The ids that stay tracked once `k` has left the lanes.
tracked-discard :
    (k : String) (w p : List String)
    → All (λ id. has id (k ∷ w) ≡ true) p
    → All (λ id. has id w ≡ true) (discard k p)
unfolding discard keep
tracked-discard k w [] h = tt
tracked-discard k w (j ∷ p) h = elim (Bool-cases (str_eq j k)) [
  | inl e ↦ rw e (tracked-discard k w p h.1)
  | inr e ↦
      rw e
        (ground (arith, has-cons j k w, eq_iff k j, eq_iff j k, h.0, e), tracked-discard k w p h.1)
]

tracked-weaken :
    (w w' p : List String)
    → ((id : String) → has id w ≡ true → has id w' ≡ true)
    → All (λ id. has id w ≡ true) p
    → All (λ id. has id w' ≡ true) p
tracked-weaken w w' p f h = All-imp _ _ p f h

tracked-kept :
    (k : String) (w p : List String)
    → All (λ id. has id w ≡ true) p
    → All (λ id. has id w ≡ true) (discard k p)
unfolding discard keep
tracked-kept k w [] h = tt
tracked-kept k w (j ∷ p) h = elim (Bool-cases (str_eq j k)) [
  | inl e ↦ rw e (tracked-kept k w p h.1)
  | inr e ↦ rw e (h.0, tracked-kept k w p h.1)
]

or_first : (a b x : Bool) → ((a || (x || false)) || b) ≡ (x || (a || b))
or_first a b x = ground arith

or_last : (a b x : Bool) → (a || (b || (x || false))) ≡ (x || (a || b))
or_last a b x = ground arith

tracked-add :
    (k : String) (w' w p : List String)
    → ((id : String) → has id w' ≡ (str_eq k id || has id w))
    → All (λ id. has id w ≡ true) p
    → All (λ id. has id w' ≡ true) (add k p)
unfolding add
tracked-add k w' w p f h =
    let kept = All-imp _ (λ id. has id w' ≡ true) p (λ id e. ground (arith, f id, e)) h in
    if_ind (All (λ id. has id w' ≡ true)) (has k p) (λ _. kept)
      (λ _. All-append _ p (k ∷ []) kept (ground (arith, f k, eq_iff k k), tt))

module _ {R P : Type 0} where
  close_found_lanes :
      (n : ℕ) (id : String) (o : Option (EventBus P)) (q : JobQueue R P)
      → close_found n id o q ≡ record q {
        buses = (close_found n id o q).buses;
        bus_expiry = (close_found n id o q).bus_expiry;
      }
  unfolding close_found
  close_found_lanes n id none q = refl
  close_found_lanes n id (some b) q = refl

  start-IsSound : (q : JobQueue R P) → IsSound q → IsSound (start q)
  unfolding start
  start-IsSound q v =
      if_ind IsSound (is_alive q.worker) (λ _. v)
        λ dead. record {
          permits = ground (arith, v.permits);
          distinct = v.distinct;
          tracked = v.tracked;
          busy = ground (arith, v.busy);
          told = λ e. cc;
        }

  stop_begin-IsSound : (q : JobQueue R P) → IsSound q → IsSound (stop_begin q)
  unfolding stop_begin
  stop_begin-IsSound q v =
      if_ind IsSound (is_absent q.worker) (λ _. v)
        λ there. record {
          permits = ground (arith, v.permits);
          distinct = v.distinct;
          tracked = v.tracked;
          busy = v.busy;
          told = λ e. refl;
        }

  serve-IsSound :
      (disk : Disk) (x : Item R) (q : JobQueue R P)
      → q.worker ≡ parked
      → IsSound q
      → IsSound (serve disk x q)
  unfolding serve
  serve-IsSound disk x q p v =
      if_ind IsSound (job_still_queued (disk x.0))
        (λ _. record {
          permits = ground (arith, v.permits, p);
          distinct = v.distinct;
          tracked = v.tracked;
          busy = refl;
          told = λ e. cc;
        })
        (λ _. v)

  wake_lanes :
      (disk : Disk) (hs ls : List (Item R)) (q : JobQueue R P)
      → q.worker ≡ parked
      → q.stop_event ≡ false
      → IsSound (record q { high_lane = hs; low_lane = ls })
      → IsSound (
          after_take disk
            (take_next hs ls)
            (record q { high_lane = hs; low_lane = ls; avail = q.avail - 1 }))
  unfolding after_take take_next
  wake_lanes disk [] [] q p n v = record {
    permits = ground (arith, n);
    distinct = v.distinct;
    tracked = v.tracked;
    busy = v.busy;
    told = v.told;
  }
  wake_lanes disk [] (x ∷ ls) q p n v = serve-IsSound disk x _ p (record {
    permits = ground (arith, v.permits, n);
    distinct = NoDup-discard x.0 q.pending_ids v.distinct;
    tracked = tracked-discard x.0 _ q.pending_ids v.tracked;
    busy = v.busy;
    told = v.told;
  })
  wake_lanes disk (x ∷ hs) ls q p n v = serve-IsSound disk x _ p (record {
    permits = ground (arith, v.permits, n);
    distinct = NoDup-discard x.0 q.pending_ids v.distinct;
    tracked = tracked-discard x.0 _ q.pending_ids v.tracked;
    busy = v.busy;
    told = v.told;
  })

  wake-IsSound :
      (disk : Disk) (q : JobQueue R P) → q.worker ≡ parked → IsSound q → IsSound (wake disk q)
  unfolding wake
  wake-IsSound disk q p v =
      if_ind IsSound q.stop_event
        (λ told. record {
          permits = ground (arith, v.permits, told, p);
          distinct = v.distinct;
          tracked = v.tracked;
          busy = ground (arith, v.busy, p);
          told = λ _. told;
        })
        (λ on. wake_lanes disk q.high_lane q.low_lane q p on v)

  append_to-waiting :
      (p : Priority) (x : Item R) (q : JobQueue R P) (id : String)
      → has id (waiting (append_to p x q)) ≡ (str_eq x.0 id || has id (waiting q))
  unfolding append_to
  append_to-waiting high x q id =
      simp (map-append, has-append, has-cons, has-nil)
        (or_first (has id (ids q.high_lane)) (has id (ids q.low_lane)) (str_eq x.0 id))
  append_to-waiting low x q id =
      simp (map-append, has-append, has-cons, has-nil)
        (or_last (has id (ids q.high_lane)) (has id (ids q.low_lane)) (str_eq x.0 id))

  length-append_to :
      (p : Priority) (x : Item R) (q : JobQueue R P)
      → length (waiting (append_to p x q)) ≡ suc (length (waiting q))
  unfolding append_to
  length-append_to high x q = simp (map-append, length-append) (omega arith)
  length-append_to low x q = simp (map-append, length-append) (omega arith)

  -- The lanes with one more item, whose id is tracked and for which a permit is given.
  with_item :
      (q : JobQueue R P) (p : Priority) (x : Item R)
      → (append_to p x q).worker ≡ q.worker
      → (append_to p x q).stop_event ≡ q.stop_event
      → (append_to p x q).current_job_id ≡ q.current_job_id
      → IsSound q
      → IsSound
          (record (append_to p x q) { pending_ids = add x.0 q.pending_ids; avail = q.avail + 1 })
  with_item q p x w s c v = record {
    permits = ground (arith, v.permits, length-append_to p x q, w, s);
    distinct = NoDup-add x.0 q.pending_ids v.distinct;
    tracked = tracked-add x.0 _ (waiting q) q.pending_ids (append_to-waiting p x q) v.tracked;
    busy = ground (arith, v.busy, w, c);
    told = λ e. cc (v.told (sym w ∙ e));
  }

  enqueue-IsSound :
      (id : String) (r : R) (p : Priority) (q : JobQueue R P)
      → IsSound q
      → IsSound (enqueue id r p q)
  unfolding enqueue
  enqueue-IsSound id r high q v =
      with_item (start q) high (id, r) refl refl refl (start-IsSound q v)
  enqueue-IsSound id r low q v = with_item (start q) low (id, r) refl refl refl (start-IsSound q v)

  cancel_queued-IsSound :
      (id : String) (q : JobQueue R P) → IsSound q → IsSound (cancel_queued id q).1
  unfolding cancel_queued
  cancel_queued-IsSound id q v =
      if_ind (λ (r : Bool × JobQueue R P). IsSound r.1) (has id q.pending_ids)
        (λ _. record {
          permits = v.permits;
          distinct = NoDup-discard id q.pending_ids v.distinct;
          tracked = tracked-kept id _ q.pending_ids v.tracked;
          busy = v.busy;
          told = v.told;
        })
        (λ _. v)

  -- A change of the buses alone.
  same_lanes :
      (q q' : JobQueue R P)
      → q' ≡ record q { buses = q'.buses; bus_expiry = q'.bus_expiry }
      → IsSound q
      → IsSound q'
  same_lanes q q' e v = subst IsSound (sym e) (record {
    permits = v.permits;
    distinct = v.distinct;
    tracked = v.tracked;
    busy = v.busy;
    told = v.told;
  })

  -- Every operation keeps a sound queue sound.
  pub Step-IsSound : {q u : JobQueue R P} → Step q u → IsSound q → IsSound u
  Step-IsSound (started q) v = start-IsSound q v
  Step-IsSound (enqueued q id r p) v = enqueue-IsSound id r p q v
  Step-IsSound (stopping q) v = stop_begin-IsSound q v
  Step-IsSound (stopped q p) v =
      unfold stop_finish in
      record {
        permits = ground (arith, v.permits, p);
        distinct = v.distinct;
        tracked = v.tracked;
        busy = ground (arith, v.busy, p);
        told = λ e. cc;
      }
  Step-IsSound (cancelled q id) v = cancel_queued-IsSound id q v
  Step-IsSound (woken q disk p a) v = wake-IsSound disk q p v
  Step-IsSound (ended q p) v =
      unfold runner_done in
      record {
        permits = ground (arith, v.permits, p);
        distinct = v.distinct;
        tracked = v.tracked;
        busy = refl;
        told = λ e. cc;
      }
  Step-IsSound (bus_created q id) v = same_lanes q _ (unfold create_bus in refl) v
  Step-IsSound (bus_closed q t n id) v =
      same_lanes q _ (unfold close_bus in close_found_lanes (n + t) id (get id q.buses) q) v
  Step-IsSound (swept q n) v = same_lanes q _ (unfold sweep in refl) v

  pub Reach-IsSound : {q u : JobQueue R P} → Reach q u → IsSound q → IsSound u
  Reach-IsSound here v = v
  Reach-IsSound (next r s) v = Step-IsSound s (Reach-IsSound r v)

  pub init-IsSound : IsSound (init {R = R} {P = P})
  init-IsSound = record {
    permits = omega arith;
    distinct = tt;
    tracked = tt;
    busy = refl;
    told = λ e. cc;
  }

  -- In every state that the queue can reach: there is a permit for every item that waits, and one
  -- more while a live worker has been told to stop; the tracked ids are distinct ids of waiting
  -- items, so that `depth` is at most the number of waiting items; and a current job is set exactly
  -- while the worker awaits a runner.
  pub reachable-IsSound :
      (q : JobQueue R P)
      → Reach init q
      → IsSound q × (depth q ≤ length q.high_lane + length q.low_lane)
  reachable-IsSound q r =
      let v = Reach-IsSound r init-IsSound in
      (
        v,
        unfold depth in
            omega (
              arith,
              length-le_of_has q.pending_ids (waiting q) v.distinct v.tracked,
              length-append (ids q.high_lane) (ids q.low_lane),
              length-map (λ (x : Item R). x.0) q.high_lane,
              length-map (λ (x : Item R). x.0) q.low_lane,
            ),
      )
