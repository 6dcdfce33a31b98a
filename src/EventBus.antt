-- ===== src/EventBus.antt =====
-- app/chain/events.py: the per-job event bus, and the generator that `subscribe` returns.
-- A payload with its type and time is one value of the parameter `P`. A queue of a subscriber is
-- an object of its own, named by the number that `subscribe` gives it.
mod Queues
pub mod Numbers
pub mod Following
pub mod Delivery
use mathlib.Core.List.{tail}
use ai_job_server.Prelude.{
  ℕ, ◌+◌, Bool, true, false, not, Option, none, some, List, [], ◌∷◌, ◌++◌, map, leb, ◌==◌,
  if◌then◌else◌, length, keep, any,
}

abbrev pub max_history : ℕ
max_history = 5000

abbrev pub max_subscribers : ℕ
max_subscribers = 8

pub record ChainEvent (P : Type 0) : Type 0 where
  pub seq : ℕ
  pub payload : P

pub data Signal (P : Type 0) : Type 0 where
  event : ChainEvent P → Signal P
  sentinel : Signal P

abbrev pub Queue : Type 0 → Type 0
Queue P = ℕ × List (Signal P)

pub record EventBus (P : Type 0) : Type 0 where
  pub history : List (ChainEvent P)
  pub subscribers : List (Queue P)
  pub seq : ℕ
  pub closed : Bool
  pub next_queue : ℕ

-- Where the generator stands: before or in the loop over the snapshot (with the queue that it
-- registered, if it did), in the loop over the queue, or at its end.
pub data Phase : Type 0 where
  capped ended : Phase
  replaying live : ℕ → Phase

pub record Subscriber (P : Type 0) : Type 0 where
  pub phase : Phase
  pub snapshot : List (ChainEvent P)
  pub snapshot_seqs : List ℕ

-- What one resumption of the generator gives. `blocked` is an `await` on an empty queue.
pub data Next (P : Type 0) : Type 0 where
  item : ChainEvent P → Next P
  blocked stopped : Next P

module _ {P : Type 0} where
  abbrev pub empty : EventBus P
  empty = record { history = []; subscribers = []; seq = 0; closed = false; next_queue = 0 }

  pub put_nowait : Signal P → List (Queue P) → List (Queue P)
  put_nowait s [] = []
  put_nowait s ((i, q) ∷ qs) = (i, q ++ s ∷ []) ∷ put_nowait s qs

  -- Drops the oldest event of a full history.
  pub trim : List (ChainEvent P) → List (ChainEvent P)
  trim h = if leb max_history (length h) then tail h else h

  -- `none` is the event with the number -1, which nobody stores.
  pub emit : P → EventBus P → Option (ChainEvent P) × EventBus P
  unfolding put_nowait trim
  emit p b =
      if b.closed
      then (none, b)
      else let e : ChainEvent P = record { seq = b.seq + 1; payload = p } in
        (
          some e,
          record b {
            seq = b.seq + 1;
            history = trim b.history ++ e ∷ [];
            subscribers = put_nowait (event e) b.subscribers;
          },
        )

  -- The generator's code before its loops, which runs with its first `__anext__`: that `__anext__`
  -- is `subscribe` and then one `next`.
  pub subscribe : EventBus P → Subscriber P × EventBus P
  subscribe b =
      if leb max_subscribers (length b.subscribers)
      then (record { phase = capped; snapshot = b.history; snapshot_seqs = [] }, b)
      else (
        record {
          phase = replaying b.next_queue;
          snapshot = b.history;
          snapshot_seqs = map (λ e. e.seq) b.history;
        },
        record b {
          subscribers = b.subscribers ++ (b.next_queue, []) ∷ [];
          next_queue = b.next_queue + 1;
        },
      )

  -- `finally: self._subscribers.remove(q)`
  pub remove : ℕ → List (Queue P) → List (Queue P)
  unfolding keep
  remove i qs = keep (λ q. not (q.0 == i)) qs

  pub contents : ℕ → List (Queue P) → List (Signal P)
  contents i [] = []
  contents i ((j, q) ∷ qs) = if j == i then q else contents i qs

  pub set_contents : ℕ → List (Signal P) → List (Queue P) → List (Queue P)
  set_contents i q [] = []
  set_contents i q ((j, r) ∷ qs) = (if j == i then (j, q) else (j, r)) ∷ set_contents i q qs

  -- The loop over the queue up to the next yield: what it gives, and what is left in the queue.
  pub pull : List ℕ → List (Signal P) → Next P × List (Signal P)
  unfolding any
  pull seen [] = (blocked, [])
  pull seen (sentinel ∷ q) = (stopped, q)
  pull seen (event e ∷ q) =
      let skipped = pull seen q in if any (λ n. n == e.seq) seen then skipped else (item e, q)

  pub finish : ℕ → Subscriber P → EventBus P → Next P × Subscriber P × EventBus P
  unfolding remove
  finish i s b =
      (stopped, record s { phase = ended }, record b { subscribers = remove i b.subscribers })

  after_pull :
      ℕ → Next P × List (Signal P) → Subscriber P → EventBus P → Next P × Subscriber P × EventBus P
  unfolding finish set_contents
  after_pull i (stopped, q) s b = finish i s b
  after_pull i (n, q) s b =
      (n, record s { phase = live i }, record b { subscribers = set_contents i q b.subscribers })

  pub get_live : ℕ → Subscriber P → EventBus P → Next P × Subscriber P × EventBus P
  unfolding after_pull pull contents
  get_live i s b = after_pull i (pull s.snapshot_seqs (contents i b.subscribers)) s b

  resume :
      Phase → List (ChainEvent P) → Subscriber P → EventBus P → Next P × Subscriber P × EventBus P
  unfolding finish get_live
  resume capped (e ∷ es) s b = (item e, record s { snapshot = es }, b)
  resume capped [] s b = (stopped, record s { phase = ended }, b)
  resume (replaying i) (e ∷ es) s b = (item e, record s { snapshot = es }, b)
  resume (replaying i) [] s b = if b.closed then finish i s b else get_live i s b
  resume (live i) es s b = get_live i s b
  resume ended es s b = (stopped, s, b)

  -- One `__anext__` of the generator.
  pub next : Subscriber P → EventBus P → Next P × Subscriber P × EventBus P
  unfolding resume
  next s b = resume s.phase s.snapshot s b

  pub close : EventBus P → EventBus P
  unfolding put_nowait
  close b =
      if b.closed
      then b
      else record b { closed = true; subscribers = put_nowait sentinel b.subscribers }
