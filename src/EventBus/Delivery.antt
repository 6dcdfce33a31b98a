-- ===== src/EventBus/Delivery.antt =====
-- app/chain/events.py: what a subscriber is given, as the executor emits and the client reads.
use ai_job_server.Prelude.{
  ℕ, zero, suc, ◌<◌, ◌≡◌, refl, true, false, List, [], ◌∷◌, ◌++◌, ap, ◌∙◌, length, take, drop,
  arith, ◌+◌, ◌≤◌, subst, sym, if◌then◌else◌, append-nil, append_assoc,
}
use ai_job_server.EventBus.{
  EventBus, ChainEvent, Subscriber, Next, stopped, replaying, ended, max_subscribers, close, next,
  subscribe, resume, finish, get_live, emit,
}
use ai_job_server.EventBus.Numbers.{IsValid}
use ai_job_server.EventBus.Following.{
  Action, emits, reads, World, step, run, joined, emitted, first_of_list, run-IsFollowing,
  following_next, joined-IsFollowing, seq-joined, after, not_full,
}

module _ {P : Type 0} where
  -- Every event exactly once and in order. From a valid bus that is open and has room for one more
  -- subscriber, after the registration and any interleaving of emits and reads: what the generator
  -- has yielded, followed by some rest, is the history at the registration followed by what was
  -- emitted since; and one more read yields the first event of that rest, or waits if the rest is
  -- empty.
  pub delivery :
      (b : EventBus P) (schedule : List (Action P))
      → IsValid b
      → b.closed ≡ false
      → length b.subscribers < max_subscribers
      → (rest : List (ChainEvent P)) × ((run schedule (joined b)).out ++ rest
          ≡ b.history ++ emitted b.seq schedule)
        × ((next (run schedule (joined b)).subscriber (run schedule (joined b)).bus).0
            ≡ first_of_list rest)
  delivery b schedule v c l =
      let start = joined-IsFollowing b v c l in
      let f = run-IsFollowing b.next_queue b.seq schedule b.history (joined b) start in
      (
        (run schedule (joined b)).subscriber.snapshot ++ f.queued,
        f.owed ∙ ap (λ k. b.history ++ emitted k schedule) (seq-joined b),
        following_next b.next_queue b.seq _ (run schedule (joined b)) f,
      )

  -- How many of the actions are resumptions.
  unfoldable pub reads_in : List (Action P) → ℕ
  reads_in [] = 0
  reads_in (reads ∷ rest) = suc (reads_in rest)
  reads_in (emits p ∷ rest) = reads_in rest

  abbrev pub closed_world : World P → World P
  closed_world w = record w { bus = close w.bus }

  close-closed : (b : EventBus P) → (close b).closed ≡ true
  unfolding close
  close-closed b = ground arith

  next-ended : (s : Subscriber P) (b : EventBus P) → s.phase ≡ ended → next s b ≡ (stopped, s, b)
  unfolding next resume
  next-ended s b p = subst (λ ph. resume ph s.snapshot s b ≡ (stopped, s, b)) (sym p) refl

  next-replaying :
      (i : ℕ) (es : List (ChainEvent P)) (s : Subscriber P) (b : EventBus P)
      → s.phase ≡ replaying i
      → s.snapshot ≡ es
      → next s b ≡ resume (replaying i) es s b
  unfolding next
  next-replaying i es s b p e =
      ap (λ ph. resume ph s.snapshot s b) p ∙ ap (λ l. resume (replaying i) l s b) e

  next-cut :
      (i : ℕ) (s : Subscriber P) (b : EventBus P)
      → b.closed ≡ true
      → s.phase ≡ replaying i
      → s.snapshot ≡ []
      → next s b ≡ finish i s b
  unfolding resume
  next-cut i s b c p e =
      next-replaying i [] s b p e ∙ ap (λ t. if t then finish i s b else get_live i s b) c

  step-reads :
      (w : World P) (r : Next P × Subscriber P × EventBus P)
      → next w.subscriber w.bus ≡ r
      → step reads w ≡ after w.out r
  unfolding step
  step-reads w r e = ap (λ q. after w.out q) e

  emit-closed : (p : P) (b : EventBus P) → b.closed ≡ true → (emit p b).1.closed ≡ true
  unfolding emit
  emit-closed p b c = ground (arith, c)

  still_ended :
      (later : List (Action P)) (w : World P)
      → w.subscriber.phase ≡ ended
      → (run later w).out ≡ w.out
  unfolding run step
  still_ended [] w p = refl
  still_ended (emits x ∷ later) w p = still_ended later (step (emits x) w) p
  still_ended (reads ∷ later) w p =
      ap (λ (v : World P). (run later v).out) (step-reads w _ (next-ended w.subscriber w.bus p))
      ∙ (still_ended later (after w.out (stopped, w.subscriber, w.bus)) p ∙ append-nil w.out)

  -- After `close` a generator that is still in its snapshot ends with it.
  cut :
      (i : ℕ) (later : List (Action P)) (es : List (ChainEvent P)) (w : World P)
      → w.bus.closed ≡ true
      → w.subscriber.phase ≡ replaying i
      → w.subscriber.snapshot ≡ es
      → (run later w).out ≡ w.out ++ take (reads_in later) es
  unfolding run step reads_in
  cut i [] es w c p e = sym (append-nil w.out)
  cut i (emits x ∷ later) es w c p e = cut i later es (step (emits x) w) (emit-closed x w.bus c) p e
  cut i (reads ∷ later) [] w c p e =
      ap (λ (v : World P). (run later v).out) (step-reads w _ (next-cut i w.subscriber w.bus c p e))
      ∙ (still_ended later (after w.out (finish i w.subscriber w.bus)) (unfold finish in refl)
          ∙ (unfold finish in refl))
  cut i (reads ∷ later) (x ∷ es) w c p e =
      ap (λ (v : World P). (run later v).out)
        (step-reads w _ (next-replaying i (x ∷ es) w.subscriber w.bus p e))
      ∙ (cut i later es (after w.out (resume (replaying i) (x ∷ es) w.subscriber w.bus))
            (unfold resume in c) (unfold resume in p) (unfold resume in refl)
          ∙ (unfold resume in append_assoc w.out (x ∷ []) (take (reads_in later) es)))

  -- After m resumptions that did not leave the snapshot.
  IsWithin : ℕ → List (ChainEvent P) → List (ChainEvent P) → World P → Type 0
  IsWithin i given_before left w =
      (w.subscriber.phase ≡ replaying i) × (w.subscriber.snapshot ≡ left) × (w.out ≡ given_before)

  run-IsWithin :
      (i : ℕ) (schedule : List (Action P)) (es out : List (ChainEvent P)) (w : World P)
      → reads_in schedule ≤ length es
      → IsWithin i out es w
      → IsWithin i
          (out ++ take (reads_in schedule) es)
          (drop (reads_in schedule) es)
          (run schedule w)
  unfolding run step reads_in IsWithin
  run-IsWithin i [] es out w l h = (h.0, h.1, h.2 ∙ sym (append-nil out))
  run-IsWithin i (emits x ∷ rest) es out w l h = run-IsWithin i rest es out (step (emits x) w) l h
  run-IsWithin i (reads ∷ rest) [] out w l h = absurd (omega (arith, l))
  run-IsWithin i (reads ∷ rest) (x ∷ es) out w l h =
      let eq = step-reads w _ (next-replaying i (x ∷ es) w.subscriber w.bus h.0 h.1) in
      let read : IsWithin i (out ++ x ∷ []) es (step reads w) = (
        ap (λ (v : World P). v.subscriber.phase) eq ∙ (unfold resume in h.0),
        ap (λ (v : World P). v.subscriber.snapshot) eq ∙ (unfold resume in refl),
        ap (λ (v : World P). v.out) eq ∙ (unfold resume in ap (λ l. l ++ x ∷ []) h.2),
      ) in
      subst (λ o. IsWithin i o (drop (reads_in rest) es) (run rest (step reads w)))
        (append_assoc out (x ∷ []) (take (reads_in rest) es))
        (run-IsWithin i rest es (out ++ x ∷ []) (step reads w) (omega (arith, l)) read)

  take-nil : (n : ℕ) → take {A = ChainEvent P} n [] ≡ []
  take-nil zero = refl
  take-nil (suc n) = refl

  take-add :
      (m n : ℕ) (es : List (ChainEvent P)) → take m es ++ take n (drop m es) ≡ take (m + n) es
  take-add zero n es = let e : n ≡ 0 + n = omega arith in ap (λ k. take k es) e
  take-add (suc m) n [] = take-nil n ∙ sym (take-nil (suc m + n))
  take-add (suc m) n (x ∷ es) =
      let e : suc (m + n) ≡ suc m + n = omega arith in
      ap (λ l. x ∷ l) (take-add m n es) ∙ ap (λ k. take k (x ∷ es)) e

  joined-IsWithin :
      (b : EventBus P)
      → length b.subscribers < max_subscribers
      → IsWithin b.next_queue [] b.history (joined b)
  unfolding joined subscribe IsWithin
  joined-IsWithin b l = rw (not_full (length b.subscribers) l) (refl, refl, refl)

  -- What is lost when a bus is closed while a subscriber is within its snapshot. On a bus that has
  -- room for the subscriber, whatever is emitted and read, before the close and after it: if before
  -- the close the subscriber has been resumed at most as often as its snapshot, the history at its
  -- registration, has events, it is given the events of its snapshot in order, one for each of its
  -- resumptions before and after the close as far as they reach, and nothing else.
  pub close_cuts :
      (b : EventBus P) (schedule later : List (Action P))
      → length b.subscribers < max_subscribers
      → reads_in schedule ≤ length b.history
      → (run later (closed_world (run schedule (joined b)))).out
        ≡ take (reads_in schedule + reads_in later) b.history
  close_cuts b schedule later room l =
      let w = run schedule (joined b) in
      let h : IsWithin b.next_queue (take (reads_in schedule) b.history)
          (drop (reads_in schedule) b.history) w =
        run-IsWithin b.next_queue schedule b.history [] (joined b) l (joined-IsWithin b room) in
      let kept : (w.subscriber.phase ≡ replaying b.next_queue)
          × (w.subscriber.snapshot ≡ drop (reads_in schedule) b.history)
          × (w.out ≡ take (reads_in schedule) b.history) =
        unfold IsWithin in h in
      cut b.next_queue later (drop (reads_in schedule) b.history) (closed_world w)
        (close-closed w.bus) kept.0 kept.1
      ∙ (ap (λ o. o ++ take (reads_in later) (drop (reads_in schedule) b.history)) kept.2
          ∙ take-add (reads_in schedule) (reads_in later) b.history)
