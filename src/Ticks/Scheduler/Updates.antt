-- ===== src/Ticks/Scheduler/Updates.antt =====
-- app/ticks/scheduler.py: what the scheduler's writes of the index do to its state.
use ai_job_server.Prelude.{
  ℕ, ◌+◌, ◌≡◌, ◌⊎◌, refl, String, str_eq, none, some, List, [], ◌∷◌, if_ind, All, Option-cases, inl,
  inr, eq_iff,
}
use ai_job_server.Ticks.{Tick, Field, touched, update_first, update_tick_fields, get_tick}
use ai_job_server.Ticks.Scheduler.{Server, World, update_fields}

-- The server with the fields of the first tick of an id changed.
abbrev pub updated : World → String → List Field → Server → Server
updated w i fs s = record s {
  reads = s.reads + 1;
  ticks = update_first i fs (w.time s.reads) s.ticks;
}

pub update_fields-cases :
    (w : World) (i : String) (fs : List Field) (s : Server)
    → ((get_tick i s.ticks ≡ none) × (update_fields w i fs s ≡ s))
      ⊎ ((t : Tick) × (get_tick i s.ticks ≡ some t) × (update_fields w i fs s ≡ updated w i fs s))
unfolding update_fields update_tick_fields
update_fields-cases w i fs s = elim (Option-cases (get_tick i s.ticks)) [
  | inl e ↦ inl (e, rw (e, update_fields, update_tick_fields) refl)
  | inr (t, e) ↦ inr (t, e, rw (e, update_fields, update_tick_fields) refl)
]

pub All-update_first {κ} :
    (P : Tick → Type κ) (i : String) (fs : List Field) (now : ℕ) (entries : List Tick)
    → ((t : Tick) → t.id ≡ i → P t → P (touched fs now t))
    → All P entries
    → All P (update_first i fs now entries)
unfolding update_first
All-update_first P i fs now [] f h = tt
All-update_first P i fs now (t ∷ entries) f h =
    if_ind (All P) (str_eq t.id i) (λ e. (f t ((eq_iff t.id i).0 e) h.0, h.1))
      (λ _. (h.0, All-update_first P i fs now entries f h.1))
