-- ===== src/Ticks/Scheduler/Quiet.antt =====
-- app/ticks/scheduler.py: `_maybe_fire` of ticks without a `last_fire_at`.
use ai_job_server.Prelude.{
  ℕ, zero, suc, ◌+◌, ◌≤◌, ◌<◌, ◌≡◌, refl, sym, ◌∙◌, String, none, some, List, [], ◌∷◌, All, arith,
  Bool-cases, Option-cases, inl, inr, subst,
}
use ai_job_server.Ticks.{Tick}
use ai_job_server.Ticks.Scheduler.{Server, World, maybe_fire, check_each, check_all, rounds}

module _ (w : World) where
  -- The clock does not go back, and `get_next` of `croniter` is after the time that it is given.
  pub record IsClock : Type 0 where
    pub forward : (m n : ℕ) → m ≤ n → w.time m ≤ w.time n
    pub after : (cron : String) (base n : ℕ) → w.next_fire cron base ≡ some n → base < n

  abbrev pub IsQuiet : Server → Server → Type 0
  IsQuiet s r = (r.ticks ≡ s.ticks) × (r.jobs ≡ s.jobs) × (r.queue ≡ s.queue) × (s.reads ≤ r.reads)

  maybe_fire-IsQuiet :
      (t : Tick) (now : ℕ) (s : Server)
      → IsClock
      → t.last_fire_at ≡ none
      → now ≤ w.time s.reads
      → IsQuiet s (maybe_fire w t now s)
  unfolding maybe_fire
  maybe_fire-IsQuiet t now s c h le = elim (Option-cases (w.next_fire t.cron (w.time s.reads))) [
    | inl e ↦ ground (arith, h, e)
    | inr (n, e) ↦ ground (arith, h, e, c.after t.cron (w.time s.reads) n e)
  ]

  check_each-IsQuiet :
      (now : ℕ) (ts : List Tick) (s : Server)
      → IsClock
      → All (λ t. t.last_fire_at ≡ none) ts
      → now ≤ w.time s.reads
      → IsQuiet s (check_each w now ts s)
  unfolding check_each
  check_each-IsQuiet now [] s c h le = (refl, refl, refl, omega arith)
  check_each-IsQuiet now (t ∷ ts) s c h le = elim (Bool-cases t.enabled) [
    | inl e ↦
        let q = maybe_fire-IsQuiet t now s c h.0 le in
        let r =
          check_each-IsQuiet now ts (maybe_fire w t now s) c h.1
            (omega (arith, le, c.forward s.reads (maybe_fire w t now s).reads q.3)) in
        rw e (r.0 ∙ q.0, r.1 ∙ q.1, r.2 ∙ q.2, omega (arith, q.3, r.3))
    | inr e ↦ rw e (check_each-IsQuiet now ts s c h.1 le)
  ]

  check_all-IsQuiet :
      (s : Server) → IsClock → All (λ t. t.last_fire_at ≡ none) s.ticks → IsQuiet s (check_all w s)
  unfolding check_all
  check_all-IsQuiet s c h =
      let q =
        check_each-IsQuiet (w.time s.reads) s.ticks (record s { reads = s.reads + 1 }) c h
          (c.forward s.reads (s.reads + 1) (omega arith)) in
      (q.0, q.1, q.2, omega (arith, q.3))

  -- A tick that has not fired is never fired by the scheduler. As long as no tick has a time of a
  -- last fire, no number of rounds changes a tick, creates a job or puts one into the queue, if the
  -- clock does not go back and the next time of a schedule is after the time that it is asked for.
  pub rounds-IsQuiet :
      (n : ℕ) (s : Server)
      → IsClock
      → All (λ t. t.last_fire_at ≡ none) s.ticks
      → IsQuiet s (rounds w n s)
  unfolding rounds
  rounds-IsQuiet zero s c h = (refl, refl, refl, omega arith)
  rounds-IsQuiet (suc n) s c h =
      let q = check_all-IsQuiet s c h in
      let r =
        rounds-IsQuiet n (check_all w s) c (subst (All (λ t. t.last_fire_at ≡ none)) (sym q.0) h) in
      (r.0 ∙ q.0, r.1 ∙ q.1, r.2 ∙ q.2, omega (arith, q.3, r.3))
