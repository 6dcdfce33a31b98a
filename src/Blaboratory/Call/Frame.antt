-- ===== src/Blaboratory/Call/Frame.antt =====
-- app/apps/blaboratory/call_sequence.py: what a call leaves as it was.
use ai_job_server.Prelude.{
  ℕ, zero, suc, ◌+◌, ◌≡◌, refl, ◌∙◌, String, Option, none, some, List, [], ◌∷◌, ltb, length, if_ind,
}
use ai_job_server.Prelude.Dict.{Dict}
use ai_job_server.TextDiff.{Text}
use ai_job_server.Blaboratory.{Resident, Event, Lab, completed}
use ai_job_server.Blaboratory.Tables.{create_call, end_call, append_utterance}
use ai_job_server.Blaboratory.Call.{
  World, call_max_lines, hang_up, segue, go_on, Summary, ask, parse_accept, parse_continuation,
  emit_line, speak, change, decide, ended, exchange, open_with, speaker_at, answered, marked_busy,
  both_rooms, run_call,
}

-- The rooms, the residents and the events.
abbrev pub frame : Lab → (ℕ → Option String) × (Dict Resident × List Event)
frame s = (s.rooms, (s.residents, s.events))

abbrev Keeps : Lab → Summary × Lab → Type 0
Keeps s r = frame r.1 ≡ frame s

module _ (w : World) where
  emit-frame :
      (call_id tick : ℕ) (speaker : String) (rs : List (Option ℕ)) (body : Text) (seq : ℕ) (s : Lab)
      → frame (emit_line w call_id tick speaker rs body seq s) ≡ frame s
  unfolding emit_line append_utterance
  emit-frame call_id tick speaker [] body seq s = refl
  emit-frame call_id tick speaker (none ∷ rs) body seq s =
      emit-frame call_id tick speaker rs body seq s
  emit-frame call_id tick speaker (some room ∷ rs) body seq s =
      emit-frame call_id tick speaker rs body seq _

  module _ (caller callee : Resident) (rooms : List (Option ℕ)) (tick call_id : ℕ) where
    speak-frame :
        (again : ℕ → Lab → Summary × Lab) (turn seq : ℕ) (o : Option Text) (s : Lab)
        → ((q : Lab) → frame (again (seq + 1) q).1 ≡ frame q)
        → frame (speak w caller callee rooms tick call_id again turn seq (o, s)).1 ≡ frame s
    speak-frame again turn seq none s f = refl
    speak-frame again turn seq (some line) s f =
        f _ ∙ emit-frame call_id tick (speaker_at caller callee turn).id rooms line (seq + 1) s

    change-frame :
        (again : List Text → ℕ → Lab → Summary × Lab) (topics : List Text) (turn seq : ℕ)
        (o : Option Text) (s : Lab)
        → ((ts : List Text) (q : Lab) → frame (again ts (seq + 1) q).1 ≡ frame q)
        → frame (change w caller callee rooms tick call_id again topics turn seq (o, s)).1 ≡ frame s
    change-frame again topics turn seq none s f = refl
    change-frame again topics turn seq (some topic) s f =
        speak-frame (again (topic ∷ topics)) turn seq (ask w s).0 (ask w s).1 (f (topic ∷ topics))

    decide-frame :
        (again : List Text → ℕ → Lab → Summary × Lab) (topics : List Text) (turn seq : ℕ)
        (o : Option Text) (s : Lab)
        → ((ts : List Text) (q : Lab) → frame (again ts (seq + 1) q).1 ≡ frame q)
        → frame (decide w caller callee rooms tick call_id again topics turn seq (o, s)).1 ≡ frame s
    decide-frame again topics turn seq none s f = refl
    decide-frame again topics turn seq (some text) s f =
        elim (parse_continuation w text)
          as (λ d. Keeps s (elim d [
            | hang_up ↦ ended w caller callee rooms tick call_id completed topics seq s
            | segue ↦ change w caller callee rooms tick call_id again topics turn seq (ask w s)
            | go_on ↦ speak w caller callee rooms tick call_id (again topics) turn seq (ask w s)
          ])) [
            | hang_up ↦ unfold end_call in refl
            | segue ↦ change-frame again topics turn seq (ask w s).0 (ask w s).1 f
            | go_on ↦ speak-frame (again topics) turn seq (ask w s).0 (ask w s).1 (f topics)
          ]

    exchange-frame :
        (fuel : ℕ) (topics : List Text) (turn seq : ℕ) (s : Lab)
        → frame (exchange w caller callee rooms tick call_id fuel topics turn seq s).1 ≡ frame s
    unfolding exchange
    exchange-frame zero topics turn seq s = refl
    exchange-frame (suc fuel) topics turn seq s =
        if_ind (Keeps s) (ltb seq call_max_lines)
          (λ e.
            decide-frame
              (λ ts n r. exchange w caller callee rooms tick call_id fuel ts (turn + 1) n r) topics
              turn seq (ask w s).0 (ask w s).1
              (λ ts q. exchange-frame fuel ts (turn + 1) (seq + 1) q))
          (λ e. unfold end_call in refl)

    open_with-frame :
        (o : Option Text) (s : Lab)
        → frame (open_with w caller callee rooms tick call_id (o, s)).1 ≡ frame s
    open_with-frame none s = refl
    open_with-frame (some opening) s =
        exchange-frame call_max_lines (opening ∷ []) 0 1 _
        ∙ emit-frame call_id tick caller.id rooms opening 1 s

-- A call changes no room, no resident and no event.
pub run_call-frame :
    (w : World) (caller callee : Resident) (tick : ℕ) (s : Lab)
    → frame (run_call w caller callee tick s).1 ≡ frame s
unfolding run_call
run_call-frame w caller callee tick s = answer (ask w s).0
  where
    answer :
        (o : Option Text)
        → frame (answered w caller callee tick (both_rooms w caller callee s) (o, (ask w s).1)).1
          ≡ frame s
    answer none = refl
    answer (some text) =
        let rooms = both_rooms w caller callee s in
        let made = (create_call tick caller.id callee.id (parse_accept w text) (ask w s).1).1 in
        let asked = ask w (marked_busy w callee.id made) in
        if_ind (Keeps s) (parse_accept w text)
          (λ e. open_with-frame w caller callee rooms tick (length s.calls + 1) asked.0 asked.1)
          (λ e. refl)
