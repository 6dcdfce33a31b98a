-- ===== src/Blaboratory/Call.antt =====
-- app/apps/blaboratory/call_sequence.py: a phone call, its lines and its end.
pub mod Lines
pub mod Frame
use ai_job_server.Prelude.{
  ℕ, zero, suc, ◌+◌, ◌%◌, ◌==◌, ltb, String, str_eq, Bool, true, false, not, ◌&&◌, ◌||◌, Option,
  none, some, List, [], ◌∷◌, ◌++◌, if◌then◌else◌, keep, map,
}
use ai_job_server.Prelude.Dict.{has, add, get}
use ai_job_server.TextDiff.{Text, codes}
use ai_job_server.Blaboratory.{Resident, Ended, declined, completed, max_lines, Utterance, Lab}
use ai_job_server.Blaboratory.Rooms.{room_of, occupied_rooms}
use ai_job_server.Blaboratory.Tables.{create_call, end_call, append_utterance}

-- The answer to the n-th question, none if it fails with an exception; `str.upper`; `random.choice`;
-- and what `json.loads` makes of a choice: its action and its argument `post`.
pub record World : Type 0 where
  pub reply : ℕ → Option Text
  pub upper : Text → Text
  pub strip : Text → Text
  pub pick : ℕ → String → List String → String
  pub decode : Text → Option (String × Option Text)

abbrev pub call_max_lines : ℕ
call_max_lines = 8

abbrev starts_with : Text → Text → Bool
starts_with [] t = true
starts_with (c ∷ p) [] = false
starts_with (c ∷ p) (d ∷ t) = c == d && starts_with p t

-- `word in text`
unfoldable pub contains : Text → Text → Bool
contains word [] = starts_with word []
contains word (c ∷ t) = starts_with word (c ∷ t) || contains word t

pub data Decision : Type 0 where
  hang_up segue go_on : Decision

-- A call that failed with an exception, or its summary.
pub data Summary : Type 0 where
  failed out_of_fuel : Summary
  refused : (call_id : ℕ) → Summary
  talked : (call_id lines : ℕ) → (topics : List Text) → Summary

-- The loop's `topics` is never empty; the last one is first here.
abbrev last_topic : List Text → Text
last_topic [] = []
last_topic (t ∷ ts) = t

-- `participants[turn % 2]`
abbrev pub speaker_at : Resident → Resident → ℕ → Resident
speaker_at caller callee turn = if turn % 2 == 0 then callee else caller

module _ (w : World) where
  abbrev pub ask : Lab → Option Text × Lab
  ask s = (w.reply s.asked, record s { asked = s.asked + 1 })

  unfoldable pub parse_accept : Text → Bool
  unfolding contains
  parse_accept text = not (contains (codes "DECLINE") (w.upper text))

  unfoldable pub parse_continuation : Text → Decision
  unfolding contains
  parse_continuation text =
      let up = w.upper text in
      if contains (codes "END") up
        || (contains (codes "TERMINATE") up || contains (codes "GOODBYE") up)
      then hang_up
      else if contains (codes "SEGUE") up
      then segue
      else go_on

  unfoldable pub emit_line : ℕ → ℕ → String → List (Option ℕ) → Text → ℕ → Lab → Lab
  unfolding append_utterance
  emit_line call_id tick speaker [] body seq s = s
  emit_line call_id tick speaker (none ∷ rooms) body seq s =
      emit_line call_id tick speaker rooms body seq s
  emit_line call_id tick speaker (some room ∷ rooms) body seq s =
      emit_line call_id tick speaker rooms body seq (
        append_utterance
          (record {
            call_id = call_id;
            tick = tick;
            speaker_resident_id = speaker;
            room_id = room;
            body = body;
            seq = seq;
          })
          s)

  module _ (caller callee : Resident) (rooms : List (Option ℕ)) (tick call_id : ℕ) where
    -- The spoken line of an exchange, and the loop after it.
    abbrev speak : (ℕ → Lab → Summary × Lab) → ℕ → ℕ → Option Text × Lab → Summary × Lab
    speak again turn seq (none, s) = (failed, s)
    speak again turn seq (some line, s) =
        again (seq + 1)
          (emit_line call_id tick (speaker_at caller callee turn).id rooms line (seq + 1) s)

    -- A new topic, and then the line.
    abbrev change :
        (List Text → ℕ → Lab → Summary × Lab)
        → List Text
        → ℕ
        → ℕ
        → Option Text × Lab
        → Summary × Lab
    change again topics turn seq (none, s) = (failed, s)
    change again topics turn seq (some topic, s) = speak (again (topic ∷ topics)) turn seq (ask s)

    abbrev ended : Ended → List Text → ℕ → Lab → Summary × Lab
    ended reason topics seq s = (talked call_id seq topics, end_call call_id reason s)

    abbrev decide :
        (List Text → ℕ → Lab → Summary × Lab)
        → List Text
        → ℕ
        → ℕ
        → Option Text × Lab
        → Summary × Lab
    decide again topics turn seq (none, s) = (failed, s)
    decide again topics turn seq (some text, s) = elim (parse_continuation text) [
      | hang_up ↦ ended completed topics seq s
      | segue ↦ change again topics turn seq (ask s)
      | go_on ↦ speak (again topics) turn seq (ask s)
    ]

    unfoldable pub exchange : ℕ → List Text → ℕ → ℕ → Lab → Summary × Lab
    unfolding parse_continuation emit_line end_call
    exchange zero topics turn seq s = (out_of_fuel, s)
    exchange (suc fuel) topics turn seq s =
        let next = decide (λ ts n r. exchange fuel ts (turn + 1) n r) topics turn seq (ask s) in
        if ltb seq call_max_lines then next else ended max_lines topics seq s

    abbrev open_with : Option Text × Lab → Summary × Lab
    open_with (none, s) = (failed, s)
    open_with (some opening, s) =
        exchange call_max_lines (opening ∷ []) 0 1
          (emit_line call_id tick caller.id rooms opening 1 s)

  abbrev marked_busy : String → Lab → Lab
  marked_busy rid s = record s { busy = add rid s.busy }

  abbrev both_rooms : Resident → Resident → Lab → List (Option ℕ)
  both_rooms caller callee s = room_of caller.id s.rooms ∷ room_of callee.id s.rooms ∷ []

  -- What follows the callee's answer.
  abbrev answered : Resident → Resident → ℕ → List (Option ℕ) → Option Text × Lab → Summary × Lab
  answered caller callee tick rooms (none, s) = (failed, s)
  answered caller callee tick rooms (some text, s) =
      let (call_id, r) = create_call tick caller.id callee.id (parse_accept text) s in
      if parse_accept text
      then open_with caller callee rooms tick call_id (ask (marked_busy callee.id r))
      else (refused call_id, end_call call_id declined r)

  unfoldable pub run_call : Resident → Resident → ℕ → Lab → Summary × Lab
  unfolding room_of create_call parse_accept exchange emit_line end_call add
  run_call caller callee tick s = answered caller callee tick (both_rooms caller callee s) (ask s)

  abbrev is_free : String → List String → ℕ × String → Bool
  is_free caller_id busy (room, rid) = not (str_eq rid caller_id) && not (has rid busy)

  abbrev chosen : ℕ → List String → Option String
  chosen n [] = none
  chosen n (c ∷ cs) = some (w.pick n c cs)

  unfoldable pub pick_callee : String → Lab → Option Resident
  unfolding occupied_rooms keep has get
  pick_callee caller_id s =
      elim (chosen s.asked
        (map (λ e. e.1) (keep (is_free caller_id s.busy) (occupied_rooms s.rooms)))) [
          | none ↦ none
          | some rid ↦ get rid s.residents
        ]
