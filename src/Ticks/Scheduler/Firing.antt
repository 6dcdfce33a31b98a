-- ===== src/Ticks/Scheduler/Firing.antt =====
-- app/ticks/scheduler.py: a fire of a tick, and what it leaves for the next one.
use ai_job_server.Prelude.{
  ℕ, ◌≡◌, ◌≢◌, refl, sym, ap, ◌∙◌, subst, String, str_eq, eq_iff, Bool, true, false, not, ◌&&◌,
  Option, none, some, List, [], ◌∷◌, ◌++◌, map, first, arith, Option-cases, if_ind, inl, inr,
}
use ai_job_server.Prelude.Dict.{has}
use ai_job_server.Prelude.Names.{has-cons}
use ai_job_server.JobQueue.{status}
use ai_job_server.Sequences.{Sequence}
use ai_job_server.Ticks.{Tick, Field, Reason, overlap, touched, set_fields, get_tick}
use ai_job_server.Ticks.Index.{get_tick-update_first}
use ai_job_server.Ticks.Scheduler.Updates.{updated, update_fields-cases}
use ai_job_server.Ticks.Scheduler.{
  Server, Job, World, Outcome, fired, skipped, is_running_or_queued, is_overlapping, update_fields,
  submit, record_fire, fire_fields, read_clock, launch, skip, find_sequence, fire, fire_tick,
}

active_last :
    (job : Job) (jobs : List Job)
    → has job.id (map (λ (j : Job). j.id) jobs) ≡ false
    → job.file ≡ status (some "queued")
    → is_running_or_queued job.id (jobs ++ job ∷ []) ≡ true
unfolding is_running_or_queued first
active_last job [] f h = ground (arith, eq_iff job.id job.id, h)
active_last job (j ∷ jobs) f h =
    ground (arith, active_last job jobs, has-cons job.id j.id (map (λ (x : Job). x.id) jobs), f, h)

module _ (w : World) where
  -- A fire that succeeds has launched the tick.
  fire-launch :
      (force : Bool) (t : Tick) (s : Server) {id : String}
      → (fire w force t s).0 ≡ fired id
      → (seq : Sequence String) × (find_sequence t.sequence_id w.library ≡ some seq)
        × (fire w force t s ≡ launch w t seq s)
  unfolding fire
  fire-launch force t s {id} h =
      if_ind IsLaunch (not force && is_overlapping t s.jobs) (λ _ q. cc)
        (λ _. elim (Option-cases (find_sequence t.sequence_id w.library)) [
          | inl x ↦ rw x (λ q. cc)
          | inr (seq, x) ↦
              rw x (
                if_ind (IsLaunchOf (some seq)) w.default_llm (λ _ q. (seq, refl, refl)) (λ _ q. cc))
        ])
        h
    where
      IsLaunchOf : Option (Sequence String) → Outcome × Server → Type 0
      IsLaunchOf o r =
          r.0 ≡ fired id → (seq : Sequence String) × (o ≡ some seq) × (r ≡ launch w t seq s)

      IsLaunch : Outcome × Server → Type 0
      IsLaunch = IsLaunchOf (find_sequence t.sequence_id w.library)

  record_fire-written :
      (t : Tick) (job_id : String) (s : Server) {id : String}
      → (record_fire w t job_id s).0 ≡ fired id
      → (next : Option ℕ) × (job_id ≡ id)
        × ((record_fire w t job_id s).1
            ≡ update_fields w t.id (fire_fields (w.time s.reads) job_id next) (read_clock s))
  unfolding record_fire
  record_fire-written t job_id s {id} h =
      if_ind IsWritten (str_eq t.cron "") (λ _. wrote none)
        (λ _. elim (Option-cases (w.next_fire t.cron (w.time s.reads))) [
          | inl x ↦ rw x (λ q. cc)
          | inr (n, x) ↦ rw x (wrote (some n))
        ])
        h
    where
      IsWritten : Outcome × Server → Type 0
      IsWritten r =
          r.0 ≡ fired id
          → (next : Option ℕ) × (job_id ≡ id)
            × (r.1 ≡ update_fields w t.id (fire_fields (w.time s.reads) job_id next) (read_clock s))

      wrote :
          (next : Option ℕ)
          → IsWritten (
            fired job_id,
            update_fields w t.id (fire_fields (w.time s.reads) job_id next) (read_clock s),
          )
      wrote next q = (next, cc, refl)

  skip-keeps :
      (t : Tick) (r : Reason) (s : Server)
      → ((skip w t r s).1.jobs ≡ s.jobs) × ((skip w t r s).1.queue ≡ s.queue)
  skip-keeps t r s = elim (update_fields-cases w t.id (Field.last_skip_reason (some r) ∷ []) s) [
    | inl (x, e) ↦ (ap (λ q. q.jobs) e, ap (λ q. q.queue) e)
    | inr (u, x, e) ↦ (ap (λ q. q.jobs) e, ap (λ q. q.queue) e)
  ]

  -- Nothing is launched.
  abbrev pub IsSkipped : Server → Outcome × Server → Type 0
  IsSkipped s r = (r.0 ≡ skipped overlap) × (r.1.jobs ≡ s.jobs) × (r.1.queue ≡ s.queue)

  fire-IsSkipped :
      (t : Tick) (s : Server) → is_overlapping t s.jobs ≡ true → IsSkipped s (fire w false t s)
  unfolding fire
  fire-IsSkipped t s h = let k = skip-keeps t overlap s in rw h (refl, k.0, k.1)

  again :
      (k id : String) (t : Tick) (s : Server)
      → id ≢ ""
      → get_tick k s.ticks ≡ some t
      → t.last_job_id ≡ some id
      → is_running_or_queued id s.jobs ≡ true
      → IsSkipped s (fire_tick w k false s)
  unfolding fire_tick
  again k id t s n g l a =
      rw (g, fire_tick)
        (fire-IsSkipped t s (unfold is_overlapping in ground (arith, l, a, n, eq_iff id "")))

  written-IsSkipped :
      (t : Tick) (id : String) (next : Option ℕ) (now : ℕ) (s : Server)
      → id ≢ ""
      → get_tick t.id s.ticks ≡ some t
      → is_running_or_queued id s.jobs ≡ true
      → (let r = update_fields w t.id (fire_fields now id next) s in
          IsSkipped r (fire_tick w t.id false r))
  written-IsSkipped t id next now s n g a =
      elim (update_fields-cases w t.id (fire_fields now id next) s) [
        | inl (x, e) ↦ cc
        | inr (u, x, e) ↦ rw e (
            again t.id id (touched (fire_fields now id next) (w.time s.reads) t)
              (updated w t.id (fire_fields now id next) s) n
              (get_tick-update_first t.id t.id (fire_fields now id next) (w.time s.reads) s.ticks
                ∙ ground (arith, g, eq_iff t.id t.id))
              (unfold touched set_fields in refl) a)
      ]

  -- After a fire of a tick has succeeded, forced or not, the next fire that is not forced is skipped
  -- as an overlap and changes neither the jobs nor the queue, if the id of the job was fresh and
  -- other tasks did not end the job or write the index in the meantime.
  pub fire-overlap :
      (force : Bool) (t : Tick) (s : Server) (id : String)
      → get_tick t.id s.ticks ≡ some t
      → has (w.new_id s.created) (map (λ (j : Job). j.id) s.jobs) ≡ false
      → w.new_id s.created ≢ ""
      → ((r : Server) → (w.meanwhile r).ticks ≡ r.ticks)
      → ((r : Server)
          → is_running_or_queued (w.new_id s.created) r.jobs ≡ true
          → is_running_or_queued (w.new_id s.created) (w.meanwhile r).jobs ≡ true)
      → (fire w force t s).0 ≡ fired id
      → IsSkipped (fire w force t s).1 (fire_tick w t.id false (fire w force t s).1)
  unfolding launch
  fire-overlap force t s id g fresh n same still h =
      let (seq, x, e) = fire-launch force t s h in
      let r = w.meanwhile (submit w t seq s) in
      let (next, i, q) = record_fire-written t (w.new_id s.created) r (ap (λ p. p.0) (sym e) ∙ h) in
      subst (λ p. IsSkipped p (fire_tick w t.id false p)) (sym (ap (λ p. p.1) e ∙ q))
        (written-IsSkipped t (w.new_id s.created) next (w.time r.reads) (read_clock r) n
          (ap (get_tick t.id) (same (submit w t seq s)) ∙ unfold submit in g)
          (still (submit w t seq s) (unfold submit in active_last _ s.jobs fresh refl)))
