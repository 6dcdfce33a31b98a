-- ===== src/Ticks.antt =====
-- app/ticks/persistence.py and app/ticks/models.py: the index of ticks, a list that each operation
-- takes and gives. A time is a number; a `last_fire_at` that cannot be read as a time is `none`,
-- which is how the scheduler takes it.
pub mod Index
pub mod Scheduler
use ai_job_server.Prelude.{
  ℕ, ◌==◌, String, str_eq, Bool, true, false, not, Option, none, some, List, [], ◌∷◌, ◌++◌,
  if◌then◌else◌, length, first, keep,
}

pub data Reason : Type 0 where
  overlap sequence_missing no_default_llm : Reason

pub record Tick : Type 0 where
  pub id : String
  pub name : Option String
  pub cron : String
  pub sequence_id : Option String
  pub enabled : Bool
  pub created_at : ℕ
  pub updated_at : ℕ
  pub last_fire_at : Option ℕ
  pub last_job_id : Option String
  pub last_skip_reason : Option Reason
  pub next_fire_at : Option ℕ

-- A key and the value that `dict.update` gives it.
pub data Field : Type 0 where
  name cron sequence_id : String → Field
  enabled : Bool → Field
  created_at updated_at : ℕ → Field
  last_fire_at next_fire_at : Option ℕ → Field
  last_job_id : Option String → Field
  last_skip_reason : Option Reason → Field

unfoldable pub set_field : Field → Tick → Tick
set_field (name x) t = record t { name = some x }
set_field (cron x) t = record t { cron = x }
set_field (sequence_id x) t = record t { sequence_id = some x }
set_field (enabled x) t = record t { enabled = x }
set_field (created_at x) t = record t { created_at = x }
set_field (updated_at x) t = record t { updated_at = x }
set_field (last_fire_at x) t = record t { last_fire_at = x }
set_field (next_fire_at x) t = record t { next_fire_at = x }
set_field (last_job_id x) t = record t { last_job_id = x }
set_field (last_skip_reason x) t = record t { last_skip_reason = x }

unfoldable pub set_fields : List Field → Tick → Tick
unfolding set_field
set_fields [] t = t
set_fields (f ∷ fs) t = set_fields fs (set_field f t)

-- A tick without any key but its id, as `.get` reads it.
abbrev pub blank : String → ℕ → Tick
blank id now = record {
  id = id;
  name = none;
  cron = "";
  sequence_id = none;
  enabled = true;
  created_at = now;
  updated_at = now;
  last_fire_at = none;
  last_job_id = none;
  last_skip_reason = none;
  next_fire_at = none;
}

unfoldable pub get_tick : String → List Tick → Option Tick
unfolding first
get_tick tick_id entries = first (λ t. str_eq t.id tick_id) entries

-- The update of the first entry with the id, and `updated_at`.
unfoldable pub touched : List Field → ℕ → Tick → Tick
unfolding set_fields
touched fields now t = record (set_fields fields t) { updated_at = now }

unfoldable pub update_first : String → List Field → ℕ → List Tick → List Tick
unfolding touched
update_first tick_id fields now [] = []
update_first tick_id fields now (t ∷ entries) =
    if str_eq t.id tick_id
    then touched fields now t ∷ entries
    else t ∷ update_first tick_id fields now entries

unfoldable pub update_tick_fields : String → List Field → ℕ → List Tick → Option (Tick × List Tick)
unfolding get_tick touched update_first
update_tick_fields tick_id fields now entries = elim (get_tick tick_id entries) [
  | none ↦ none
  | some t ↦ some (touched fields now t, update_first tick_id fields now entries)
]

unfoldable pub add_tick : String → List Field → ℕ → List Tick → Tick × List Tick
unfolding touched
add_tick id fields now entries = let t = touched fields now (blank id now) in (t, entries ++ t ∷ [])

-- `fresh` is the id that `uuid4` gives to a tick that comes without one.
unfoldable pub save_tick : String → Option String → List Field → ℕ → List Tick → Tick × List Tick
unfolding get_tick touched update_first add_tick
save_tick fresh none fields now entries = add_tick fresh fields now entries
save_tick fresh (some id) fields now entries = elim (get_tick id entries) [
  | none ↦ add_tick id fields now entries
  | some t ↦ (touched fields now t, update_first id fields now entries)
]

unfoldable pub delete_tick : String → List Tick → Option (List Tick)
unfolding keep
delete_tick tick_id entries =
    let rest = keep (λ t. not (str_eq t.id tick_id)) entries in
    if length rest == length entries then none else some rest
