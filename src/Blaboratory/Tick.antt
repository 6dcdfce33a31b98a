-- ===== src/Blaboratory/Tick.antt =====
-- app/apps/blaboratory/tick_runner.py, actions/ and context_pipeline.write_phase: each occupant's
-- action in a tick. The payload of an event is not modelled.
pub mod Turns
pub mod Events
use Prim.Native.String.{◌++◌ as str_append}
use ai_job_server.Prelude.{
  ℕ, ◌+◌, String, str_eq, Bool, true, false, Option, none, some, List, [], ◌∷◌, ◌++◌, if◌then◌else◌,
}
use ai_job_server.Prelude.Dict.{get, has}
use ai_job_server.TextDiff.{Text}
use ai_job_server.Blaboratory.{Resident, Activity, Event, Lab}
use ai_job_server.Blaboratory.Rooms.{room_of, occupied_rooms}
use ai_job_server.Blaboratory.Tables.{
  append_chat, latest_chat_id, set_cursor, append_event, next_tick, set_activity, clear_activity,
}
use ai_job_server.Blaboratory.Call.{
  World, Summary, failed, out_of_fuel, refused, talked, ask, run_call, pick_callee,
}

pub data Action : Type 0 where
  use_computer use_televisor use_speakerphone sleep idle : Action

abbrev pub name_of : Action → String
name_of use_computer = "use_computer"
name_of use_televisor = "use_televisor"
name_of use_speakerphone = "use_speakerphone"
name_of sleep = "sleep"
name_of idle = "idle"

abbrev pub multi_tick : Action → Bool
multi_tick sleep = true
multi_tick _ = false

abbrev named_in : List Action → String → Option Action
named_in [] name = none
named_in (a ∷ others) name = if str_eq (name_of a) name then some a else named_in others name

unfoldable pub get_action : String → Option Action
get_action name =
    named_in (use_computer ∷ use_televisor ∷ use_speakerphone ∷ sleep ∷ idle ∷ []) name

pub data Channel : Type 0 where
  on_chat on_news : Channel

pub record ActionResult : Type 0 where
  pub room_id : Option ℕ
  pub chat_post : Option Text
  pub consume : List Channel
  pub news_seen_id : Option ℕ

-- The name of an action, or `continue`, and the argument `post`.
pub data Choice : Type 0 where
  go_on : Option Text → Choice
  begin : Action → Option Text → Choice

-- A text that is neither an action nor `continue` stands for `idle`, without arguments.
abbrev named : String → Option Text → Choice
named name post =
    if str_eq name "continue"
    then go_on post
    else elim (get_action name) [ none ↦ begin idle none | some a ↦ begin a post ]

abbrev or_idle : Option Action → Action
or_idle none = idle
or_idle (some a) = a

abbrev nonempty : Text → Option Text
nonempty [] = none
nonempty (c ∷ t) = some (c ∷ t)

abbrev plain : Option ℕ → ActionResult
plain room = record { room_id = room; chat_post = none; consume = []; news_seen_id = none }

module _ (w : World) where
  unfoldable pub parse_choice : Text → Choice
  unfolding get_action
  parse_choice text = elim (w.decode text) [
    | none ↦ begin idle none
    | some choice ↦ named choice.0 choice.1
  ]

  abbrev stripped : Option Text → Option Text
  stripped none = none
  stripped (some post) = nonempty (w.strip post)

  abbrev spoken_of : Option ℕ → Summary × Lab → Option ActionResult × Lab
  spoken_of room (failed, s) = (none, s)
  spoken_of room (out_of_fuel, s) = (none, s)
  spoken_of room (refused id, s) = (some (plain room), s)
  spoken_of room (talked id n topics, s) = (some (plain room), s)

  abbrev dialled : Resident → ℕ → Option ℕ → Option Resident → Lab → Option ActionResult × Lab
  dialled resident tick room none s = (some (plain room), s)
  dialled resident tick room (some callee) s = spoken_of room (run_call w resident callee tick s)

  -- The `run` of each action, none if it fails with an exception.
  unfoldable pub run : Action → Resident → ℕ → Option Text → Lab → Option ActionResult × Lab
  unfolding room_of pick_callee run_call
  run use_computer resident tick post s = (
    some (record {
      room_id = room_of resident.id s.rooms;
      chat_post = stripped post;
      consume = on_chat ∷ [];
      news_seen_id = none;
    }),
    s,
  )
  run use_televisor resident tick post s = (
    some (record {
      room_id = room_of resident.id s.rooms;
      chat_post = none;
      consume = on_news ∷ [];
      news_seen_id = none;
    }),
    s,
  )
  run use_speakerphone resident tick post s =
      dialled resident tick (room_of resident.id s.rooms) (pick_callee w resident.id s) s
  run sleep resident tick post s = (some (plain (room_of resident.id s.rooms)), s)
  run idle resident tick post s = (some (plain (room_of resident.id s.rooms)), s)

-- The cursor of a resident and a channel.
abbrev cursor_of : Channel → String → String
cursor_of on_chat rid = str_append "chat:" rid
cursor_of on_news rid = str_append "news:" rid

abbrev consumed : String → Option ℕ → List Channel → Lab → Lab
consumed rid news [] s = s
consumed rid news (on_chat ∷ cs) s =
    consumed rid news cs (set_cursor (cursor_of on_chat rid) (latest_chat_id s) s)
consumed rid none (on_news ∷ cs) s = consumed rid none cs s
consumed rid (some n) (on_news ∷ cs) s =
    consumed rid (some n) cs (set_cursor (cursor_of on_news rid) n s)

abbrev posted : String → ℕ → Option Text → Lab → Lab
posted rid tick none s = s
posted rid tick (some post) s = (append_chat tick post rid s).1

unfoldable pub write_phase : Resident → ℕ → Action → ActionResult → Lab → Lab
unfolding append_chat set_cursor latest_chat_id append_event
write_phase resident tick action result s =
    append_event
      (record {
        tick = tick;
        resident_id = resident.id;
        room_id = result.room_id;
        action = name_of action;
      })
      (consumed resident.id result.news_seen_id result.consume
        (posted resident.id tick result.chat_post s))

-- The action that is run, with its count and its argument.
abbrev resolved : Choice → Option Activity → Action × (ℕ × Option Text)
resolved (go_on post) none = (idle, (1, post))
resolved (go_on post) (some a) = (or_idle (get_action a.action), (a.count + 1, post))
resolved (begin action post) activity = (action, (1, post))

abbrev settled : Resident → Action → ℕ → Lab → Lab
settled resident action count s =
    if multi_tick action
    then set_activity resident.id (name_of action) count s
    else clear_activity resident.id s

-- What follows the run of an action.
abbrev recorded : Resident → ℕ → Action → ℕ → Option ActionResult × Lab → Option String × Lab
recorded resident tick action count (none, s) = (none, s)
recorded resident tick action count (some result, s) = (
  some (name_of action),
  settled resident action count (write_phase resident tick action result s),
)

pub record Acted : Type 0 where
  pub room_id : ℕ
  pub resident_id : String
  pub action : String

pub data TickSummary : Type 0 where
  no_default_llm : (tick : ℕ) → TickSummary
  ticked : (tick : ℕ) (acted : List Acted) → TickSummary

module _ (w : World) where
  abbrev chosen_by : Resident → ℕ → Option Activity → Option Text × Lab → Option String × Lab
  chosen_by resident tick activity (none, s) = (none, s)
  chosen_by resident tick activity (some text, s) =
      let (action, (count, post)) = resolved (parse_choice w text) activity in
      recorded resident tick action count (run w action resident tick post s)

  unfoldable pub act_one : Resident → ℕ → Lab → Option String × Lab
  unfolding get parse_choice get_action run write_phase set_activity clear_activity
  act_one resident tick s = chosen_by resident tick (get resident.id s.activities) (ask w s)

  abbrev noted : ℕ → String → Option String → List Acted
  noted room rid none = []
  noted room rid (some name) = record { room_id = room; resident_id = rid; action = name } ∷ []

  abbrev taken : ℕ → ℕ → String → Lab → Option Resident → List Acted × Lab
  taken tick room rid s none = ([], s)
  taken tick room rid s (some resident) =
      (noted room rid (act_one resident tick s).0, (act_one resident tick s).1)

  -- One occupant's turn: nothing if it is busy or is not filed.
  abbrev turn : ℕ → ℕ × String → Lab → List Acted × Lab
  turn tick (room, rid) s =
      if has rid s.busy then ([], s) else taken tick room rid s (get rid s.residents)

  unfoldable pub turns : ℕ → List (ℕ × String) → Lab → List Acted × Lab
  unfolding has get act_one
  turns tick [] s = ([], s)
  turns tick (o ∷ os) s =
      let rest = turns tick os (turn tick o s).1 in ((turn tick o s).0 ++ rest.0, rest.1)

  abbrev pub or_next : Option ℕ → Lab → ℕ
  or_next none s = next_tick s
  or_next (some n) s = n

  unfoldable pub run_tick : Bool → Option ℕ → Lab → TickSummary × Lab
  unfolding next_tick turns occupied_rooms
  run_tick has_llm number s =
      let tick = or_next number s in
      let rest = turns tick (occupied_rooms s.rooms) (record s { busy = [] }) in
      if has_llm then (ticked tick rest.0, rest.1) else (no_default_llm tick, s)
