-- ===== src/Blaboratory/Rooms.antt =====
-- app/apps/blaboratory/rooms.py: the occupancy of the rooms 1 to 16. The file is a function from the
-- number of a room, of which only these are read.
use ai_job_server.Prelude.{
  ℕ, ◌==◌, leb, String, str_eq, Bool, true, false, ◌&&◌, Option, none, some, List, [], ◌∷◌,
  if◌then◌else◌,
}
use ai_job_server.Prelude.Result.{Result, ok, ◌>>◌, guard}

pub data Refusal : Type 0 where
  out_of_range already_occupied : Refusal

abbrev pub room_ids : List ℕ
room_ids = 1 ∷ 2 ∷ 3 ∷ 4 ∷ 5 ∷ 6 ∷ 7 ∷ 8 ∷ 9 ∷ 10 ∷ 11 ∷ 12 ∷ 13 ∷ 14 ∷ 15 ∷ 16 ∷ []

abbrev pub is_room : ℕ → Bool
is_room r = leb 1 r && leb r 16

abbrev pub is_none : Option String → Bool
is_none none = true
is_none (some x) = false

abbrev pub is_some_of : String → Option String → Bool
is_some_of rid none = false
is_some_of rid (some x) = str_eq x rid

unfoldable pub get_room : ℕ → (ℕ → Option String) → Result Refusal (Option String)
get_room r rooms = do guard (is_room r) out_of_range; ok (rooms r)

unfoldable pub room_in : List ℕ → String → (ℕ → Option String) → Option ℕ
room_in [] rid rooms = none
room_in (r ∷ rs) rid rooms = if is_some_of rid (rooms r) then some r else room_in rs rid rooms

unfoldable pub room_of : String → (ℕ → Option String) → Option ℕ
unfolding room_in
room_of rid rooms = room_in room_ids rid rooms

unfoldable pub occupied_in : List ℕ → (ℕ → Option String) → List (ℕ × String)
occupied_in [] rooms = []
occupied_in (r ∷ rs) rooms = elim (rooms r) [
  | none ↦ occupied_in rs rooms
  | some rid ↦ (r, rid) ∷ occupied_in rs rooms
]

unfoldable pub occupied_rooms : (ℕ → Option String) → List (ℕ × String)
unfolding occupied_in
occupied_rooms rooms = occupied_in room_ids rooms

abbrev pub placed : ℕ → Option String → (ℕ → Option String) → ℕ → Option String
placed room rid rooms r = if r == room then rid else rooms r

unfoldable pub set_occupant : ℕ → String → (ℕ → Option String) → Result Refusal (ℕ → Option String)
set_occupant room rid rooms = do
  guard (is_room room) out_of_range
  guard (is_none (rooms room)) already_occupied
  ok (placed room (some rid) rooms)

unfoldable pub clear_room : ℕ → (ℕ → Option String) → Result Refusal (ℕ → Option String)
clear_room room rooms = do guard (is_room room) out_of_range; ok (placed room none rooms)
