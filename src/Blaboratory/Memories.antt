-- ===== src/Blaboratory/Memories.antt =====
-- app/apps/blaboratory: the reads of event_store.py, chat_store.py, cursor_store.py and
-- utterance_store.py, and the memories of context_pipeline.py without the vector index. The text of a
-- memory is the parameter `render`.
use ai_job_server.Prelude.{
  ℕ, zero, suc, ◌+◌, ◌≤◌, ◌==◌, leb, ltb, String, str_eq, Bool, true, false, ◌&&◌, Option, none,
  some, List, [], ◌∷◌, ◌++◌, map, if◌then◌else◌, if_ind, keep, take, length, arith,
}
use ai_job_server.Prelude.Dict.{get}
use ai_job_server.Prelude.Sort.{sort}
use ai_job_server.TextDiff.{Text}
use ai_job_server.Blaboratory.{Utterance, ChatRow, Event, Lab}

-- `ORDER BY id DESC`: the rows are in the order of their ids.
unfoldable pub newest_first {ℓ} : {A : Type ℓ} → List A → List A
newest_first [] = []
newest_first (x ∷ xs) = newest_first xs ++ x ∷ []

-- `AND tick <= ?`, and `LIMIT ?`
abbrev until : Option ℕ → ℕ → Bool
until none tick = true
until (some n) tick = leb tick n

abbrev limited {ℓ} : {A : Type ℓ} → Option ℕ → List A → List A
limited none xs = xs
limited (some n) xs = take n xs

abbrev is_in : ℕ → Option ℕ → Bool
is_in room none = false
is_in room (some r) = r == room

unfoldable pub events_for_resident : String → Option ℕ → Option ℕ → Lab → List Event
unfolding newest_first keep
events_for_resident rid tick limit s =
    limited limit
      (newest_first (keep (λ e. str_eq e.resident_id rid && until tick e.tick) s.events))

unfoldable pub events_for_room : ℕ → Option ℕ → Option ℕ → Lab → List Event
unfolding newest_first keep
events_for_room room tick limit s =
    limited limit (newest_first (keep (λ e. is_in room e.room_id && until tick e.tick) s.events))

unfoldable pub events_at_tick : ℕ → Lab → List Event
unfolding keep
events_at_tick tick s = keep (λ e. e.tick == tick) s.events

abbrev first_row {ℓ} : {A : Type ℓ} → List A → Option A
first_row [] = none
first_row (x ∷ xs) = some x

unfoldable pub latest_event_for_room : ℕ → Option ℕ → Lab → Option Event
unfolding events_for_room
latest_event_for_room room tick s = first_row (events_for_room room tick (some 1) s)

unfoldable pub chat_after : ℕ → Option ℕ → Lab → List ChatRow
unfolding keep
chat_after seen limit s = limited limit (keep (λ c. ltb seen c.id) s.chat)

unfoldable pub chat_upto : ℕ → Option ℕ → Lab → List ChatRow
unfolding newest_first keep
chat_upto seen limit s = limited limit (newest_first (keep (λ c. leb c.id seen) s.chat))

unfoldable pub utterances_for_room : ℕ → Option ℕ → Lab → List Utterance
unfolding newest_first keep
utterances_for_room room tick s =
    newest_first (keep (λ u. u.room_id == room && until tick u.tick) s.utterances)

unfoldable pub utterances_for_call : ℕ → Lab → List Utterance
unfolding keep sort
utterances_for_call call_id s =
    sort (λ a b. leb a.seq b.seq) (keep (λ u. u.call_id == call_id) s.utterances)

abbrev zero_if_unset : Option ℕ → ℕ
zero_if_unset none = 0
zero_if_unset (some n) = n

-- The key of a cursor is that of the residents and channels, as in `cursor_of`.
unfoldable pub get_cursor : String → Lab → ℕ
unfolding get
get_cursor key s = zero_if_unset (get key s.cursors)

pub data Memory : Type 0 where
  of_event : Event → Memory
  of_chat : ChatRow → Memory

-- The events come before the chat, whichever is newer.
unfoldable pub gather_memories : String → String → Lab → List Memory
unfolding events_for_resident chat_upto get_cursor
gather_memories rid chat_key s =
    map of_event (events_for_resident rid none none s)
    ++ map of_chat (chat_upto (get_cursor chat_key s) none s)

-- The loop of `apply_caps` after `total` characters.
unfoldable pub within : ℕ → ℕ → List Text → List Text
within most total [] = []
within most total (line ∷ lines) =
    let next = total + (length line + 1) in
    let rest = line ∷ within most next lines in if ltb most next then [] else rest

unfoldable pub apply_caps : ℕ → ℕ → List Text → List Text
unfolding within
apply_caps max_items max_chars items = within max_chars 0 (take max_items items)

-- The characters of the lines, each with the newline that joins it.
abbrev pub characters : List Text → ℕ
characters [] = 0
characters (line ∷ lines) = length line + 1 + characters lines

length-take_le {ℓ} : {A : Type ℓ} (n : ℕ) (xs : List A) → length (take n xs) ≤ n
length-take_le zero xs = omega arith
length-take_le (suc n) [] = omega arith
length-take_le (suc n) (x ∷ xs) = omega (arith, length-take_le n xs)

length-within :
    (most total : ℕ) (lines : List Text) → length (within most total lines) ≤ length lines
unfolding within
length-within most total [] = omega arith
length-within most total (line ∷ lines) =
    if_ind (λ (o : List Text). length o ≤ suc (length lines)) (ltb most (total + (length line + 1)))
      (λ e. omega arith) (λ e. omega (arith, length-within most (total + (length line + 1)) lines))

characters-within :
    (most total : ℕ) (lines : List Text)
    → total ≤ most
    → total + characters (within most total lines) ≤ most
unfolding within
characters-within most total [] h = omega (arith, h)
characters-within most total (line ∷ lines) h =
    if_ind (λ (o : List Text). total + characters o ≤ most) (ltb most (total + (length line + 1)))
      (λ e. omega (arith, h))
      (λ e.
        omega (arith, characters-within most (total + (length line + 1)) lines (ground (arith, e))))

-- The memories that are kept are at most `max_items` lines and `max_chars` characters.
pub apply_caps-le :
    (max_items max_chars : ℕ) (items : List Text)
    → (length (apply_caps max_items max_chars items) ≤ max_items)
      × (characters (apply_caps max_items max_chars items) ≤ max_chars)
unfolding apply_caps
apply_caps-le max_items max_chars items = (
  omega (arith, length-within max_chars 0 (take max_items items), length-take_le max_items items),
  omega (arith, characters-within max_chars 0 (take max_items items) (omega arith)),
)
