-- ===== src/EventBus/Numbers.antt =====
-- app/chain/events.py: the numbers of the events, and the bounds of a bus.
use mathlib.Core.List.{tail}
use ai_job_server.Prelude.{
  ℕ, suc, ◌+◌, ◌≤◌, ◌<◌, ◌≡◌, refl, List, [], ◌∷◌, ◌++◌, arith, leb, Bool-cases, if_ind, inl, inr,
  length, length-append, length-keep-le, All, All-imp, All-append,
}
use ai_job_server.EventBus.{
  EventBus, ChainEvent, Signal, Queue, Subscriber, Next, stopped, Phase, replaying, live, capped,
  ended, max_history, max_subscribers, emit, subscribe, close, next, empty, trim, remove, finish,
  after_pull, get_live, resume,
}
use ai_job_server.EventBus.Queues.{
  length-put_nowait, length-set_contents, named-put_nowait, named-set_contents, named-remove,
}

-- An operation on the bus, by the executor, by a subscriber in any state, or by the queue.
pub data Operation (P : Type 0) : Type 0 where
  emits : P → Operation P
  subscribes closes : Operation P
  reads : Subscriber P → Operation P

module _ {P : Type 0} where
  -- The events of the list have the numbers n + 1, n + 2, … up to m.
  abbrev pub Runs : ℕ → List (ChainEvent P) → ℕ → Type 0
  Runs n [] m = n ≡ m
  Runs n (e ∷ es) m = (e.seq ≡ suc n) × Runs (suc n) es m

  pub Runs-append :
      (n m k : ℕ) (es fs : List (ChainEvent P)) → Runs n es m → Runs m fs k → Runs n (es ++ fs) k
  Runs-append n m k [] fs h g = rw h g
  Runs-append n m k (e ∷ es) fs h g = (h.0, Runs-append (suc n) m k es fs h.1 g)

  Runs-tail : (n m : ℕ) (es : List (ChainEvent P)) → Runs n es m → (k : ℕ) × Runs k (tail es) m
  Runs-tail n m [] h = (n, h)
  Runs-tail n m (e ∷ es) h = (suc n, h.1)

  length-tail : (es : List (ChainEvent P)) (k : ℕ) → length es ≤ suc k → length (tail es) ≤ k
  length-tail [] k h = omega arith
  length-tail (e ∷ es) k h = omega arith

  -- The history is the latest events without a gap, and both bounds hold.
  pub record IsValid (b : EventBus P) : Type 0 where
    pub oldest : ℕ
    pub numbered : Runs oldest b.history b.seq
    pub bounded : length b.history ≤ max_history
    pub room : length b.subscribers ≤ max_subscribers
    pub named : All (λ q. q.0 < b.next_queue) b.subscribers

  trim_valid :
      (n m : ℕ) (h : List (ChainEvent P))
      → Runs n h m
      → length h ≤ max_history
      → ((k : ℕ) × Runs k (trim h) m) × (length (trim h) < max_history)
  unfolding trim
  trim_valid n m h r l = elim (Bool-cases (leb max_history (length h))) [
    | inl full ↦ rw full (Runs-tail n m h r, omega (arith, length-tail h 4999))
    | inr room ↦ rw room ((n, r), ground arith)
  ]

  pub emit-IsValid : (p : P) (b : EventBus P) → IsValid b → IsValid (emit p b).1
  unfolding emit
  emit-IsValid p b v = elim (Bool-cases b.closed) [
    | inl c ↦ simp c v
    | inr c ↦
        let (start, short) = trim_valid v.oldest b.seq b.history v.numbered v.bounded in
        simp c (record {
          oldest = start.0;
          numbered =
              Runs-append start.0 b.seq (b.seq + 1) (trim b.history) _ start.1
                (omega arith, omega arith);
          bounded = omega (
            arith,
            length-append (trim b.history) (record { seq = b.seq + 1; payload = p } ∷ []),
            short,
          );
          room = rw length-put_nowait v.room;
          named = named-put_nowait b.next_queue _ b.subscribers v.named;
        })
  ]

  pub close-IsValid : (b : EventBus P) → IsValid b → IsValid (close b)
  unfolding close
  close-IsValid b v = elim (Bool-cases b.closed) [
    | inl c ↦ simp c v
    | inr c ↦ simp c (record {
      oldest = v.oldest;
      numbered = v.numbered;
      bounded = v.bounded;
      room = rw length-put_nowait v.room;
      named = named-put_nowait b.next_queue _ b.subscribers v.named;
    })
  ]

  pub subscribe-IsValid : (b : EventBus P) → IsValid b → IsValid (subscribe b).1
  unfolding subscribe
  subscribe-IsValid b v = elim (Bool-cases (leb max_subscribers (length b.subscribers))) [
    | inl c ↦ simp c v
    | inr c ↦ simp c (record {
      oldest = v.oldest;
      numbered = v.numbered;
      bounded = v.bounded;
      room = ground (arith, length-append b.subscribers ((b.next_queue, []) ∷ []));
      named =
          All-append _ b.subscribers _ (All-imp _ _ b.subscribers (λ q h. omega arith) v.named)
            (omega arith, tt);
    })
  ]

  -- A change of the subscribers alone.
  with_queues :
      (b : EventBus P) (qs : List (Queue P))
      → IsValid b
      → length qs ≤ length b.subscribers
      → All (λ q. q.0 < b.next_queue) qs
      → IsValid (record b { subscribers = qs })
  with_queues b qs v l n = record {
    oldest = v.oldest;
    numbered = v.numbered;
    bounded = v.bounded;
    room = omega (arith, v.room);
    named = n;
  }

  finish-IsValid :
      (i : ℕ) (s : Subscriber P) (b : EventBus P) → IsValid b → IsValid (finish i s b).2
  unfolding finish
  finish-IsValid i s b v =
      with_queues b _ v (unfold remove in length-keep-le _ b.subscribers)
        (named-remove b.next_queue i b.subscribers v.named)

  after_pull-IsValid :
      (i : ℕ) (r : Next P × List (Signal P)) (s : Subscriber P) (b : EventBus P)
      → IsValid b
      → IsValid (after_pull i r s b).2
  unfolding after_pull
  after_pull-IsValid i (stopped, q) s b v = finish-IsValid i s b v
  after_pull-IsValid i (n, q) s b v =
      with_queues b _ v (omega (arith, length-set_contents i q b.subscribers))
        (named-set_contents b.next_queue i q b.subscribers v.named)

  resume-IsValid :
      (p : Phase) (es : List (ChainEvent P)) (s : Subscriber P) (b : EventBus P)
      → IsValid b
      → IsValid (resume p es s b).2
  unfolding resume get_live
  resume-IsValid capped (e ∷ es) s b v = v
  resume-IsValid capped [] s b v = v
  resume-IsValid (replaying i) (e ∷ es) s b v = v
  resume-IsValid (replaying i) [] s b v =
      if_ind (λ (r : Next P × Subscriber P × EventBus P). IsValid r.2) b.closed
        (λ _. finish-IsValid i s b v) (λ _. after_pull-IsValid i _ s b v)
  resume-IsValid (live i) es s b v = after_pull-IsValid i _ s b v
  resume-IsValid ended es s b v = v

  pub next-IsValid : (s : Subscriber P) (b : EventBus P) → IsValid b → IsValid (next s b).2
  unfolding next
  next-IsValid s b v = resume-IsValid s.phase s.snapshot s b v

  unfoldable pub apply_all : List (Operation P) → EventBus P → EventBus P
  unfolding emit subscribe close next
  apply_all [] b = b
  apply_all (emits p ∷ rest) b = apply_all rest (emit p b).1
  apply_all (subscribes ∷ rest) b = apply_all rest (subscribe b).1
  apply_all (closes ∷ rest) b = apply_all rest (close b)
  apply_all (reads s ∷ rest) b = apply_all rest (next s b).2

  empty-IsValid : IsValid empty
  empty-IsValid = record {
    oldest = 0;
    numbered = refl;
    bounded = omega arith;
    room = omega arith;
    named = tt;
  }

  still-IsValid :
      (ops : List (Operation P)) (b : EventBus P) → IsValid b → IsValid (apply_all ops b)
  unfolding apply_all
  still-IsValid [] b v = v
  still-IsValid (emits p ∷ rest) b v = still-IsValid rest (emit p b).1 (emit-IsValid p b v)
  still-IsValid (subscribes ∷ rest) b v = still-IsValid rest (subscribe b).1 (subscribe-IsValid b v)
  still-IsValid (closes ∷ rest) b v = still-IsValid rest (close b) (close-IsValid b v)
  still-IsValid (reads s ∷ rest) b v = still-IsValid rest (next s b).2 (next-IsValid s b v)

  -- After any operations on a new bus, the history is the latest events, numbered without a gap up
  -- to the last number given; it has at most 5000 events, the bus at most 8 subscribers, and the
  -- names of their queues have all been given.
  pub apply_all-IsValid : (ops : List (Operation P)) → IsValid (apply_all ops empty)
  apply_all-IsValid ops = still-IsValid ops empty empty-IsValid
