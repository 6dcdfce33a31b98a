-- ===== src/Blaboratory/Tables.antt =====
-- app/apps/blaboratory: utterance_store.py, chat_store.py, event_store.py, cursor_store.py and
-- activity_store.py: rows that are appended and looked up.
use ai_job_server.Prelude.{
  ℕ, ◌+◌, max, ◌==◌, String, Bool, none, some, List, [], ◌∷◌, ◌++◌, map, if◌then◌else◌, length,
}
use ai_job_server.Prelude.Dict.{put, pop}
use ai_job_server.TextDiff.{Text}
use ai_job_server.Blaboratory.{Ended, CallRow, Utterance, ChatRow, Event, Lab}

unfoldable pub create_call : ℕ → String → String → Bool → Lab → ℕ × Lab
create_call tick caller callee accepted s =
    let id = length s.calls + 1 in
    (
      id,
      record s {
        calls =
            s.calls
            ++ record {
              id = id;
              tick = tick;
              caller_resident_id = caller;
              callee_resident_id = callee;
              accepted = accepted;
              ended_reason = none;
            }
              ∷ [];
      },
    )

abbrev ended_row : ℕ → Ended → CallRow → CallRow
ended_row id reason c = if c.id == id then record c { ended_reason = some reason } else c

unfoldable pub end_call : ℕ → Ended → Lab → Lab
end_call id reason s = record s { calls = map (ended_row id reason) s.calls }

unfoldable pub append_utterance : Utterance → Lab → Lab
append_utterance u s = record s { utterances = s.utterances ++ u ∷ [] }

-- The id of the new row is given.
unfoldable pub append_chat : ℕ → Text → String → Lab → ℕ × Lab
append_chat tick body rid s =
    let id = length s.chat + 1 in
    (
      id,
      record s {
        chat =
            s.chat ++ record { id = id; tick = tick; author_resident_id = rid; body = body } ∷ [];
      },
    )

abbrev highest : List ChatRow → ℕ
highest [] = 0
highest (c ∷ cs) = max c.id (highest cs)

unfoldable pub latest_chat_id : Lab → ℕ
latest_chat_id s = highest s.chat

unfoldable pub set_cursor : String → ℕ → Lab → Lab
unfolding put
set_cursor rid n s = record s { cursors = put rid n s.cursors }

unfoldable pub append_event : Event → Lab → Lab
append_event e s = record s { events = s.events ++ e ∷ [] }

abbrev pub latest : List Event → ℕ
latest [] = 0
latest (e ∷ es) = max e.tick (latest es)

-- `next_tick`
unfoldable pub next_tick : Lab → ℕ
next_tick s = latest s.events + 1

unfoldable pub set_activity : String → String → ℕ → Lab → Lab
unfolding put
set_activity rid action count s = record s {
  activities = put rid (record { action = action; count = count }) s.activities;
}

unfoldable pub clear_activity : String → Lab → Lab
unfolding pop
clear_activity rid s = record s { activities = pop rid s.activities }
