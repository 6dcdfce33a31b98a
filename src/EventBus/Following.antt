-- ===== src/EventBus/Following.antt =====
-- app/chain/events.py: the invariant of a subscriber that reads while the executor emits.
use ai_job_server.Prelude.{
  ℕ, suc, ◌+◌, ◌≤◌, ◌<◌, ◌≡◌, refl, true, false, List, [], ◌∷◌, ◌++◌, map, arith, leb, if_ind, ◌⊎◌,
  inl, inr, length, All, All-append, if◌then◌else◌, append_assoc, append-nil, sym, ◌∙◌, ap, subst,
  ◌==◌, any,
}
use ai_job_server.EventBus.{
  EventBus, ChainEvent, Signal, event, Subscriber, Next, item, blocked, stopped, Phase, replaying,
  live, capped, ended, max_subscribers, emit, subscribe, next, finish, after_pull, get_live, resume,
  contents,
}
use ai_job_server.EventBus.Numbers.{Runs, IsValid}
use ai_job_server.EventBus.Queues.{
  present, present-put_nowait, contents-put_nowait, present-set_contents, contents-set_contents,
  fresh_queue,
}

-- An emit of the executor, or a resumption of the subscriber's generator.
pub data Action (P : Type 0) : Type 0 where
  emits : P → Action P
  reads : Action P

-- The subscriber, the bus, and what the generator has yielded.
pub record World (P : Type 0) : Type 0 where
  pub out : List (ChainEvent P)
  pub subscriber : Subscriber P
  pub bus : EventBus P

-- No event of the queue is skipped as a duplicate.
not_seen :
    (n k : ℕ) (seen : List ℕ) → All (λ j. j ≤ n) seen → n < k → any (λ j. j == k) seen ≡ false
unfolding any
not_seen n k [] h l = refl
not_seen n k (j ∷ seen) h l = ground (arith, not_seen n k seen h.1 l, h.0)

pub not_full : (n : ℕ) → n < max_subscribers → leb max_subscribers n ≡ false
not_full n h = ground arith

module _ {P : Type 0} where
  abbrev pub yielded : Next P → List (ChainEvent P)
  yielded (item e) = e ∷ []
  yielded _ = []

  abbrev pub after : List (ChainEvent P) → Next P × Subscriber P × EventBus P → World P
  after out r = record { out = out ++ yielded r.0; subscriber = r.1; bus = r.2 }

  unfoldable pub step : Action P → World P → World P
  step (emits p) w = record w { bus = (emit p w.bus).1 }
  step reads w =
      let (n, s, b) = next w.subscriber w.bus in
      record { out = w.out ++ yielded n; subscriber = s; bus = b }

  unfoldable pub run : List (Action P) → World P → World P
  unfolding step
  run [] w = w
  run (a ∷ rest) w = run rest (step a w)

  unfoldable pub joined : EventBus P → World P
  joined b = let (s, b') = subscribe b in record { out = []; subscriber = s; bus = b' }

  -- The events that the emits of a schedule make, when the last number given was n.
  unfoldable pub emitted : ℕ → List (Action P) → List (ChainEvent P)
  emitted n [] = []
  emitted n (emits p ∷ rest) = record { seq = n + 1; payload = p } ∷ emitted (n + 1) rest
  emitted n (reads ∷ rest) = emitted n rest

  abbrev pub Above : ℕ → List (ChainEvent P) → Type 0
  Above n es = All (λ e. n < e.seq) es

  -- The subscriber holds queue i and reads events with numbers above n there; `all` is everything
  -- that it is owed.
  pub record IsFollowing (i n : ℕ) (all : List (ChainEvent P)) (w : World P) : Type 0 where
    pub opened : w.bus.closed ≡ false
    pub later : n ≤ w.bus.seq
    pub phase :
        (w.subscriber.phase ≡ replaying i)
        ⊎ ((w.subscriber.phase ≡ live i) × (w.subscriber.snapshot ≡ []))
    pub seen : All (λ k. k ≤ n) w.subscriber.snapshot_seqs
    pub holds : present i w.bus.subscribers ≡ true
    pub queued : List (ChainEvent P)
    pub queue : contents i w.bus.subscribers ≡ map event queued
    pub fresh : Above n queued
    pub owed : w.out ++ (w.subscriber.snapshot ++ queued) ≡ all

  map-event-append :
      (es : List (ChainEvent P)) (e : ChainEvent P)
      → map event (es ++ e ∷ []) ≡ map event es ++ event e ∷ []
  map-event-append [] e = refl
  map-event-append (x ∷ es) e = rw (map-event-append es e)

  regroup : (a b c d : List (ChainEvent P)) → a ++ (b ++ (c ++ d)) ≡ (a ++ (b ++ c)) ++ d
  regroup a b c d = simp append_assoc

  emits-IsFollowing :
      (i n : ℕ) (all : List (ChainEvent P)) (p : P) (w : World P)
      → IsFollowing i n all w
      → IsFollowing i n (all ++ record { seq = w.bus.seq + 1; payload = p } ∷ []) (step (emits p) w)
  unfolding step emit
  emits-IsFollowing i n all p w f =
      let e : ChainEvent P = record { seq = w.bus.seq + 1; payload = p } in
      simp (f.opened) (record {
        opened = refl;
        later = omega (arith, f.later);
        phase = f.phase;
        seen = f.seen;
        holds = present-put_nowait i _ w.bus.subscribers ∙ f.holds;
        queued = f.queued ++ e ∷ [];
        queue =
            contents-put_nowait i _ w.bus.subscribers f.holds
            ∙ (rw f.queue (sym (map-event-append f.queued e)));
        fresh = All-append _ f.queued _ f.fresh (omega (arith, f.later), tt);
        owed = regroup w.out w.subscriber.snapshot f.queued (e ∷ []) ∙ ap (λ l. l ++ e ∷ []) f.owed;
      })

  module _ (i n : ℕ) (all : List (ChainEvent P)) where
    live_step :
        (out : List (ChainEvent P)) (s : Subscriber P) (b : EventBus P) (q : List (ChainEvent P))
        → b.closed ≡ false
        → n ≤ b.seq
        → s.snapshot ≡ []
        → All (λ k. k ≤ n) s.snapshot_seqs
        → present i b.subscribers ≡ true
        → contents i b.subscribers ≡ map event q
        → Above n q
        → out ++ q ≡ all
        → IsFollowing i n all (record {
          out = out ++ yielded (get_live i s b).0;
          subscriber = (get_live i s b).1;
          bus = (get_live i s b).2;
        })
    unfolding get_live
    live_step out s b [] c l e seen h k a o = rw k (record {
      opened = c;
      later = l;
      phase = inr (refl, e);
      seen = seen;
      holds = present-set_contents i [] b.subscribers ∙ h;
      queued = [];
      queue = contents-set_contents i [] b.subscribers h;
      fresh = tt;
      owed = rw e (simp append-nil (rw append-nil at o));
    })
    live_step out s b (x ∷ q) c l e seen h k a o =
        rw (k, not_seen n x.seq s.snapshot_seqs seen a.0)
          (record {
            opened = c;
            later = l;
            phase = inr (refl, e);
            seen = seen;
            holds = present-set_contents i (map event q) b.subscribers ∙ h;
            queued = q;
            queue = contents-set_contents i (map event q) b.subscribers h;
            fresh = a.1;
            owed = rw e (append_assoc out (x ∷ []) q ∙ o);
          })

    replay_step :
        (es : List (ChainEvent P)) (out : List (ChainEvent P)) (s : Subscriber P) (b : EventBus P)
        → s.phase ≡ replaying i
        → s.snapshot ≡ es
        → IsFollowing i n all (record { out = out; subscriber = s; bus = b })
        → IsFollowing i n all (after out (resume (replaying i) es s b))
    unfolding resume
    replay_step [] out s b p e f =
        subst (λ c. IsFollowing i n all (after out (if c then finish i s b else get_live i s b)))
          (sym f.opened)
          (live_step out s b f.queued f.opened f.later e f.seen f.holds f.queue f.fresh
            (rw e at f.owed))
    replay_step (x ∷ es) out s b p e f = record {
      opened = f.opened;
      later = f.later;
      phase = inl p;
      seen = f.seen;
      holds = f.holds;
      queued = f.queued;
      queue = f.queue;
      fresh = f.fresh;
      owed = append_assoc out (x ∷ []) (es ++ f.queued) ∙ (rw e at f.owed);
    }

    reads-IsFollowing : (w : World P) → IsFollowing i n all w → IsFollowing i n all (step reads w)
    unfolding step next
    reads-IsFollowing w f = elim f.phase [
      | inl p ↦
          subst
            (λ ph.
              IsFollowing i n all
                (after w.out (resume ph w.subscriber.snapshot w.subscriber w.bus)))
            (sym p) (replay_step w.subscriber.snapshot w.out w.subscriber w.bus p refl f)
      | inr (p, e) ↦
          subst
            (λ ph.
              IsFollowing i n all
                (after w.out (resume ph w.subscriber.snapshot w.subscriber w.bus)))
            (sym p)
            (unfold resume in
              live_step w.out w.subscriber w.bus f.queued f.opened f.later e f.seen f.holds f.queue
                f.fresh (rw e at f.owed))
    ]

  seq-emit : (p : P) (b : EventBus P) → b.closed ≡ false → (emit p b).1.seq ≡ b.seq + 1
  unfolding emit
  seq-emit p b c = simp c

  seq-after_pull :
      (i : ℕ) (r : Next P × List (Signal P)) (s : Subscriber P) (b : EventBus P)
      → (after_pull i r s b).2.seq ≡ b.seq
  unfolding after_pull finish
  seq-after_pull i (stopped, q) s b = refl
  seq-after_pull i (n, q) s b = refl

  seq-resume :
      (p : Phase) (es : List (ChainEvent P)) (s : Subscriber P) (b : EventBus P)
      → (resume p es s b).2.seq ≡ b.seq
  unfolding resume finish get_live
  seq-resume capped (e ∷ es) s b = refl
  seq-resume capped [] s b = refl
  seq-resume (replaying i) (e ∷ es) s b = refl
  seq-resume (replaying i) [] s b =
      if_ind (λ (r : Next P × Subscriber P × EventBus P). r.2.seq ≡ b.seq) b.closed (λ _. refl)
        (λ _. seq-after_pull i _ s b)
  seq-resume (live i) es s b = seq-after_pull i _ s b
  seq-resume ended es s b = refl

  seq-step_emits :
      (p : P) (w : World P) → w.bus.closed ≡ false → (step (emits p) w).bus.seq ≡ w.bus.seq + 1
  unfolding step
  seq-step_emits p w c = seq-emit p w.bus c

  seq-step_reads : (w : World P) → (step reads w).bus.seq ≡ w.bus.seq
  unfolding step next
  seq-step_reads w = seq-resume w.subscriber.phase w.subscriber.snapshot w.subscriber w.bus

  pub run-IsFollowing :
      (i n : ℕ) (schedule : List (Action P)) (all : List (ChainEvent P)) (w : World P)
      → IsFollowing i n all w
      → IsFollowing i n (all ++ emitted w.bus.seq schedule) (run schedule w)
  unfolding run emitted
  run-IsFollowing i n [] all w f = rw append-nil f
  run-IsFollowing i n (emits p ∷ rest) all w f =
      let ih = run-IsFollowing i n rest _ (step (emits p) w) (emits-IsFollowing i n all p w f) in
      subst (λ l. IsFollowing i n l (run rest (step (emits p) w)))
        (append_assoc all (record { seq = w.bus.seq + 1; payload = p } ∷ [])
          (emitted (w.bus.seq + 1) rest))
        (subst
          (λ k.
            IsFollowing i n
              ((all ++ record { seq = w.bus.seq + 1; payload = p } ∷ []) ++ emitted k rest)
              (run rest (step (emits p) w)))
          (seq-step_emits p w f.opened) ih)
  run-IsFollowing i n (reads ∷ rest) all w f =
      let ih = run-IsFollowing i n rest all (step reads w) (reads-IsFollowing i n all w f) in
      subst (λ k. IsFollowing i n (all ++ emitted k rest) (run rest (step reads w)))
        (seq-step_reads w) ih

  abbrev pub first_of_list : List (ChainEvent P) → Next P
  first_of_list [] = blocked
  first_of_list (e ∷ es) = item e

  live_next :
      (i n : ℕ) (s : Subscriber P) (b : EventBus P) (q : List (ChainEvent P))
      → All (λ k. k ≤ n) s.snapshot_seqs
      → contents i b.subscribers ≡ map event q
      → Above n q
      → (get_live i s b).0 ≡ first_of_list q
  unfolding get_live
  live_next i n s b [] seen k a = rw k
  live_next i n s b (x ∷ q) seen k a = rw (k, not_seen n x.seq s.snapshot_seqs seen a.0)

  replay_next :
      (i n : ℕ) (es : List (ChainEvent P)) (s : Subscriber P) (b : EventBus P)
      (q : List (ChainEvent P))
      → b.closed ≡ false
      → All (λ k. k ≤ n) s.snapshot_seqs
      → contents i b.subscribers ≡ map event q
      → Above n q
      → (resume (replaying i) es s b).0 ≡ first_of_list (es ++ q)
  unfolding resume
  replay_next i n [] s b q c seen k a =
      subst (λ t. (if t then finish i s b else get_live i s b).0 ≡ first_of_list q) (sym c)
        (live_next i n s b q seen k a)
  replay_next i n (x ∷ es) s b q c seen k a = refl

  pub following_next :
      (i n : ℕ) (all : List (ChainEvent P)) (w : World P) (f : IsFollowing i n all w)
      → (next w.subscriber w.bus).0 ≡ first_of_list (w.subscriber.snapshot ++ f.queued)
  unfolding next resume
  following_next i n all w f = elim f.phase [
    | inl p ↦
        subst
          (λ ph.
            (resume ph w.subscriber.snapshot w.subscriber w.bus).0
            ≡ first_of_list (w.subscriber.snapshot ++ f.queued))
          (sym p)
          (replay_next i n w.subscriber.snapshot w.subscriber w.bus f.queued f.opened f.seen f.queue
            f.fresh)
    | inr (p, e) ↦
        subst
          (λ ph.
            (resume ph w.subscriber.snapshot w.subscriber w.bus).0
            ≡ first_of_list (w.subscriber.snapshot ++ f.queued))
          (sym p)
          (subst (λ l. (get_live i w.subscriber w.bus).0 ≡ first_of_list (l ++ f.queued)) (sym e)
            (live_next i n w.subscriber w.bus f.queued f.seen f.queue f.fresh))
  ]

  Runs-le : (n m : ℕ) (es : List (ChainEvent P)) → Runs n es m → n ≤ m
  Runs-le n m [] h = omega arith
  Runs-le n m (e ∷ es) h = omega (arith, Runs-le (suc n) m es h.1)

  Runs-below :
      (n m : ℕ) (es : List (ChainEvent P)) → Runs n es m → All (λ k. k ≤ m) (map (λ e. e.seq) es)
  Runs-below n m [] h = tt
  Runs-below n m (e ∷ es) h =
      (omega (arith, h.0, Runs-le (suc n) m es h.1), Runs-below (suc n) m es h.1)

  pub joined-IsFollowing :
      (b : EventBus P)
      → IsValid b
      → b.closed ≡ false
      → length b.subscribers < max_subscribers
      → IsFollowing b.next_queue b.seq b.history (joined b)
  unfolding joined subscribe
  joined-IsFollowing b v c l =
      let found = fresh_queue b.next_queue b.subscribers v.named in
      rw (not_full (length b.subscribers) l) (record {
        opened = c;
        later = omega arith;
        phase = inl refl;
        seen = Runs-below v.oldest b.seq b.history v.numbered;
        holds = found.0;
        queued = [];
        queue = found.1;
        fresh = tt;
        owed = append-nil b.history;
      })

  pub seq-joined : (b : EventBus P) → (joined b).bus.seq ≡ b.seq
  unfolding joined subscribe
  seq-joined b = ground arith
