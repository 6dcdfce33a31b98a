-- ===== src/Ticks/Index.antt =====
-- app/ticks/persistence.py: what the operations keep of the other ticks.
use ai_job_server.Prelude.{
  ℕ, ◌≡◌, refl, ◌∙◌, String, str_eq, false, Option, none, some, List, [], ◌∷◌, ◌++◌, if◌then◌else◌,
  first, arith, eq_iff, inl, inr, Option-cases, map,
}
use mathlib.Core.Option
use ai_job_server.Prelude.Dict.{has}
use ai_job_server.Prelude.Names.{has-cons, has-nil}
use ai_job_server.Ticks.{
  Tick, Field, set_field, set_fields, touched, get_tick, update_first, add_tick, blank, save_tick,
}

pub set_field-id : (f : Field) (t : Tick) → (set_field f t).id ≡ t.id
unfolding set_field
set_field-id (Field.name x) t = refl
set_field-id (Field.cron x) t = refl
set_field-id (Field.sequence_id x) t = refl
set_field-id (Field.enabled x) t = refl
set_field-id (Field.created_at x) t = refl
set_field-id (Field.updated_at x) t = refl
set_field-id (Field.last_fire_at x) t = refl
set_field-id (Field.next_fire_at x) t = refl
set_field-id (Field.last_job_id x) t = refl
set_field-id (Field.last_skip_reason x) t = refl

pub touched-id : (fs : List Field) (now : ℕ) (t : Tick) → (touched fs now t).id ≡ t.id
unfolding touched set_fields
touched-id [] now t = refl
touched-id (f ∷ fs) now t = touched-id fs now (set_field f t) ∙ set_field-id f t

pub get_tick-id :
    (k : String) (entries : List Tick) (t : Tick) → get_tick k entries ≡ some t → t.id ≡ k
unfolding get_tick first
get_tick-id k [] t h = cc
get_tick-id k (e ∷ entries) t h = ground (arith, get_tick-id k entries t, eq_iff e.id k)

-- An update of the fields of one tick is seen by a look-up of its id and by no other.
pub get_tick-update_first :
    (k j : String) (fs : List Field) (now : ℕ) (entries : List Tick)
    → get_tick j (update_first k fs now entries) ≡ (
        if str_eq k j then Option.map (touched fs now) (get_tick j entries) else get_tick j entries)
unfolding get_tick first update_first
get_tick-update_first k j fs now [] = ground arith
get_tick-update_first k j fs now (e ∷ entries) = ground (
  arith,
  get_tick-update_first k j fs now entries,
  eq_iff e.id k,
  eq_iff e.id j,
  eq_iff k j,
  touched-id fs now e,
)

get_tick-append :
    (j : String) (entries : List Tick) (t : Tick)
    → get_tick j (entries ++ t ∷ []) ≡ (
        if has j (map (λ (e : Tick). e.id) entries)
        then get_tick j entries
        else if str_eq t.id j
        then some t
        else none)
unfolding get_tick first
get_tick-append j [] t = ground (arith, has-nil j)
get_tick-append j (e ∷ entries) t =
    ground (arith, get_tick-append j entries t, has-cons j e.id (map (λ (x : Tick). x.id) entries))

get_tick-absent :
    (k : String) (entries : List Tick)
    → get_tick k entries ≡ none
    → has k (map (λ (e : Tick). e.id) entries) ≡ false
unfolding get_tick first
get_tick-absent k [] h = has-nil k
get_tick-absent k (e ∷ entries) h =
    ground (arith, get_tick-absent k entries, has-cons k e.id (map (λ (x : Tick). x.id) entries))

get_tick-present :
    (k : String) (entries : List Tick)
    → has k (map (λ (e : Tick). e.id) entries) ≡ false
    → get_tick k entries ≡ none
unfolding get_tick first
get_tick-present k [] h = refl
get_tick-present k (e ∷ entries) h =
    ground (arith, get_tick-present k entries, has-cons k e.id (map (λ (x : Tick). x.id) entries))

add_tick-id :
    (id : String) (fs : List Field) (now : ℕ) (entries : List Tick)
    → (add_tick id fs now entries).0.id ≡ id
unfolding add_tick
add_tick-id id fs now entries = touched-id fs now (blank id now)

get_tick-add_tick :
    (id : String) (fs : List Field) (now : ℕ) (j : String) (entries : List Tick)
    → get_tick id entries ≡ none
    → get_tick j (add_tick id fs now entries).1
      ≡ (if str_eq id j then some (add_tick id fs now entries).0 else get_tick j entries)
unfolding add_tick
get_tick-add_tick id fs now j entries h = ground (
  arith,
  get_tick-append j entries (touched fs now (blank id now)),
  get_tick-absent id entries h,
  touched-id fs now (blank id now),
  eq_iff id j,
  get_tick-present j entries,
)

-- The tick that a save starts from: the one with the given id, or a blank one with that id or with
-- a fresh one.
unfoldable pub saved_from : String → Option String → ℕ → List Tick → Tick
unfolding get_tick
saved_from fresh none now entries = blank fresh now
saved_from fresh (some id) now entries = elim (get_tick id entries) [
  | none ↦ blank id now
  | some t ↦ t
]

-- A save gives the tick with the id, or a blank one if there is none, with all the given fields set
-- and the time of the update; a look-up of its id finds that tick afterwards, and a look-up of any
-- other id finds what it found before. The id of a new tick without one is taken to be fresh.
pub get_tick-save_tick :
    (fresh : String) (given : Option String) (fs : List Field) (now : ℕ) (j : String)
    (entries : List Tick)
    → get_tick fresh entries ≡ none
    → let t : Tick = record (set_fields fs (saved_from fresh given now entries)) {
      updated_at = now;
    } in
      ((save_tick fresh given fs now entries).0 ≡ t)
      × (get_tick j (save_tick fresh given fs now entries).1 ≡ (
          if str_eq (saved_from fresh given now entries).id j then some t else get_tick j entries))
unfolding save_tick saved_from touched add_tick
get_tick-save_tick fresh none fs now j entries h =
    (refl, get_tick-add_tick fresh fs now j entries h)
get_tick-save_tick fresh (some id) fs now j entries h = elim (Option-cases (get_tick id entries)) [
  | inl n ↦ (
    rw (n, save_tick, saved_from) refl,
    rw (n, save_tick, saved_from) (get_tick-add_tick id fs now j entries n),
  )
  | inr (t, e) ↦ (
    rw (e, save_tick, saved_from) refl,
    rw (e, save_tick, saved_from)
        (get_tick-update_first id j fs now entries
          ∙ ground (arith, e, get_tick-id id entries t e, eq_iff id j)),
  )
]
