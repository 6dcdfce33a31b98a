-- ===== src/Blaboratory.antt =====
-- app/apps/blaboratory: the rooms (rooms.py), the tables of the simulation (utterance_store.py,
-- chat_store.py, event_store.py, cursor_store.py), the activities (activity_store.py), calls
-- (call_sequence.py) and ticks (tick_runner.py, actions/). A table is the list of its rows, whose ids
-- are 1, 2, 3, … since no row is deleted. Times, the text of prompts and the vector index are not
-- modelled.
pub mod Rooms
pub mod Tables
pub mod Call
pub mod Memories
pub mod Tick
use ai_job_server.Prelude.{ℕ, String, Bool, Option, List}
use ai_job_server.Prelude.Dict.{Dict}
use ai_job_server.TextDiff.{Text}

pub record Resident : Type 0 where
  pub id : String
  pub name : Text

pub record Activity : Type 0 where
  pub action : String
  pub count : ℕ

pub data Ended : Type 0 where
  declined completed max_lines : Ended

pub record CallRow : Type 0 where
  pub id : ℕ
  pub tick : ℕ
  pub caller_resident_id : String
  pub callee_resident_id : String
  pub accepted : Bool
  pub ended_reason : Option Ended

pub record Utterance : Type 0 where
  pub call_id : ℕ
  pub tick : ℕ
  pub speaker_resident_id : String
  pub room_id : ℕ
  pub body : Text
  pub seq : ℕ

pub record ChatRow : Type 0 where
  pub id : ℕ
  pub tick : ℕ
  pub author_resident_id : String
  pub body : Text

pub record Event : Type 0 where
  pub tick : ℕ
  pub resident_id : String
  pub room_id : Option ℕ
  pub action : String

-- The files and tables, the number of the questions that the language model was asked, and the set
-- `busy` that the residents share in a tick. `rooms` is the file of the occupancy.
pub record Lab : Type 0 where
  pub rooms : ℕ → Option String
  pub residents : Dict Resident
  pub activities : Dict Activity
  pub calls : List CallRow
  pub utterances : List Utterance
  pub chat : List ChatRow
  pub cursors : Dict ℕ
  pub events : List Event
  pub asked : ℕ
  pub busy : List String
