-- ===== src/Blaboratory/Tick/Turns.antt =====
-- app/apps/blaboratory/tick_runner.py: the event that an occupant's action adds.
use ai_job_server.Prelude.{
  ℕ, ◌≡◌, refl, sym, ap, ◌∙◌, String, Option, none, some, List, [], ◌∷◌, ◌++◌, map, if_ind,
  append_assoc, append-nil,
}
use ai_job_server.Prelude.Dict.{get}
use ai_job_server.TextDiff.{Text}
use ai_job_server.Blaboratory.{Resident, Activity, Event, Lab}
use ai_job_server.Blaboratory.Rooms.{room_of}
use ai_job_server.Blaboratory.Tables.{
  append_chat, set_cursor, append_event, set_activity, clear_activity,
}
use ai_job_server.Blaboratory.Call.{
  World, Summary, failed, out_of_fuel, refused, talked, pick_callee, ask,
}
use ai_job_server.Blaboratory.Call.Frame.{frame, run_call-frame}
use ai_job_server.Blaboratory.Tick.{
  Action, use_computer, use_televisor, use_speakerphone, sleep, idle, name_of, multi_tick, Channel,
  on_chat, on_news, ActionResult, spoken_of, dialled, run, consumed, posted, write_phase, resolved,
  recorded, settled, Acted, chosen_by, act_one, noted, parse_choice,
}

-- The event of an action.
abbrev pub event_of : ℕ → (ℕ → Option String) → Acted → Event
event_of tick rooms a = record {
  tick = tick;
  resident_id = a.resident_id;
  room_id = room_of a.resident_id rooms;
  action = a.action;
}

pub record Logs (tick : ℕ) (s : Lab) (acted : List Acted) (r : Lab) : Type 0 where
  pub rooms_same : r.rooms ≡ s.rooms
  pub residents_same : r.residents ≡ s.residents
  pub logged : r.events ≡ s.events ++ map (event_of tick s.rooms) acted

pub Logs-same : (tick : ℕ) (s r : Lab) → frame r ≡ frame s → Logs tick s [] r
Logs-same tick s r e = record {
  rooms_same = ap (λ f. f.0) e;
  residents_same = ap (λ f. f.1.0) e;
  logged = ap (λ f. f.1.1) e ∙ sym (append-nil s.events);
}

map-append : {A B : Type 0} (f : A → B) (xs ys : List A) → map f (xs ++ ys) ≡ map f xs ++ map f ys
map-append f [] ys = refl
map-append f (x ∷ xs) ys = ap (λ zs. f x ∷ zs) (map-append f xs ys)

pub Logs-then :
    (tick : ℕ) (s q r : Lab) (xs ys : List Acted)
    → Logs tick s xs q
    → Logs tick q ys r
    → Logs tick s (xs ++ ys) r
Logs-then tick s q r xs ys a b = record {
  rooms_same = b.rooms_same ∙ a.rooms_same;
  residents_same = b.residents_same ∙ a.residents_same;
  logged =
      b.logged
      ∙ ap (λ g. q.events ++ map (event_of tick g) ys) a.rooms_same
      ∙ ap (λ es. es ++ map (event_of tick s.rooms) ys) a.logged
      ∙ append_assoc s.events (map (event_of tick s.rooms) xs) (map (event_of tick s.rooms) ys)
      ∙ ap (λ es. s.events ++ es) (sym (map-append (event_of tick s.rooms) xs ys));
}

-- What an action's `run` leaves.
Ran : String → Lab → Option ActionResult × Lab → Type 0
Ran rid s (none, r) = frame r ≡ frame s
Ran rid s (some x, r) = (frame r ≡ frame s) × (x.room_id ≡ room_of rid s.rooms)

spoken_of-Ran :
    (w : World) (rid : String) (s : Lab) (x : Summary) (r : Lab)
    → frame r ≡ frame s
    → Ran rid s (spoken_of w (room_of rid s.rooms) (x, r))
unfolding Ran
spoken_of-Ran w rid s failed r e = e
spoken_of-Ran w rid s out_of_fuel r e = e
spoken_of-Ran w rid s (refused id) r e = (e, refl)
spoken_of-Ran w rid s (talked id n topics) r e = (e, refl)

dialled-Ran :
    (w : World) (resident : Resident) (tick : ℕ) (o : Option Resident) (s : Lab)
    → Ran resident.id s (dialled w resident tick (room_of resident.id s.rooms) o s)
dialled-Ran w resident tick none s = unfold Ran in (refl, refl)
dialled-Ran w resident tick (some callee) s =
    spoken_of-Ran w resident.id s _ _ (run_call-frame w resident callee tick s)

run-Ran :
    (w : World) (action : Action) (resident : Resident) (tick : ℕ) (post : Option Text) (s : Lab)
    → Ran resident.id s (run w action resident tick post s)
unfolding run Ran
run-Ran w use_computer resident tick post s = (refl, refl)
run-Ran w use_televisor resident tick post s = (refl, refl)
run-Ran w use_speakerphone resident tick post s =
    dialled-Ran w resident tick (pick_callee w resident.id s) s
run-Ran w sleep resident tick post s = (refl, refl)
run-Ran w idle resident tick post s = (refl, refl)

consumed-frame :
    (rid : String) (news : Option ℕ) (cs : List Channel) (s : Lab)
    → frame (consumed rid news cs s) ≡ frame s
unfolding set_cursor
consumed-frame rid news [] s = refl
consumed-frame rid news (on_chat ∷ cs) s = consumed-frame rid news cs _
consumed-frame rid none (on_news ∷ cs) s = consumed-frame rid none cs s
consumed-frame rid (some n) (on_news ∷ cs) s = consumed-frame rid (some n) cs _

posted-frame :
    (rid : String) (tick : ℕ) (o : Option Text) (s : Lab) → frame (posted rid tick o s) ≡ frame s
unfolding append_chat
posted-frame rid tick none s = refl
posted-frame rid tick (some post) s = refl

settled-frame :
    (resident : Resident) (action : Action) (count : ℕ) (s : Lab)
    → frame (settled resident action count s) ≡ frame s
unfolding set_activity clear_activity
settled-frame resident action count s =
    if_ind (λ (r : Lab). frame r ≡ frame s) (multi_tick action) (λ e. refl) (λ e. refl)

write_phase-frame :
    (resident : Resident) (tick : ℕ) (action : Action) (x : ActionResult) (r : Lab)
    → frame (write_phase resident tick action x r) ≡ (
      r.rooms,
      (
        r.residents,
        r.events
            ++ record {
              tick = tick;
              resident_id = resident.id;
              room_id = x.room_id;
              action = name_of action;
            }
              ∷ [],
      ),
    )
unfolding write_phase append_event
write_phase-frame resident tick action x r =
    ap
      (λ f. (
        f.0,
        (
          f.1.0,
          f.1.1
              ++ record {
                tick = tick;
                resident_id = resident.id;
                room_id = x.room_id;
                action = name_of action;
              }
                ∷ [],
        ),
      ))
      (consumed-frame resident.id x.news_seen_id x.consume _
        ∙ posted-frame resident.id tick x.chat_post r)

recorded-Logs :
    (w : World) (room : ℕ) (resident : Resident) (tick : ℕ) (action : Action) (count : ℕ)
    (o : Option ActionResult) (s r : Lab)
    → Ran resident.id s (o, r)
    → Logs tick s
        (noted w room resident.id (recorded resident tick action count (o, r)).0)
        (recorded resident tick action count (o, r)).1
recorded-Logs w room resident tick action count none s r h = Logs-same tick s r (unfold Ran in h)
recorded-Logs w room resident tick action count (some x) s r h =
    let ran : (frame r ≡ frame s) × (x.room_id ≡ room_of resident.id s.rooms) = unfold Ran in h in
    let f =
      settled-frame resident action count (write_phase resident tick action x r)
      ∙ write_phase-frame resident tick action x r in
    let event : Option ℕ → Event = λ room. record {
      tick = tick;
      resident_id = resident.id;
      room_id = room;
      action = name_of action;
    } in
    record {
      rooms_same = ap (λ g. g.0) f ∙ ap (λ g. g.0) ran.0;
      residents_same = ap (λ g. g.1.0) f ∙ ap (λ g. g.1.0) ran.0;
      logged =
          ap (λ g. g.1.1) f
          ∙ ap (λ g. g.1.1 ++ event x.room_id ∷ []) ran.0
          ∙ ap (λ room. s.events ++ event room ∷ []) ran.1;
    }

pub act_one-Logs :
    (w : World) (room : ℕ) (resident : Resident) (tick : ℕ) (s : Lab)
    → Logs tick s
        (noted w room resident.id (act_one w resident tick s).0)
        (act_one w resident tick s).1
unfolding act_one Ran
act_one-Logs w room resident tick s = answer (ask w s).0
  where
    activity : Option Activity
    activity = get resident.id s.activities

    answer :
        (o : Option Text)
        → Logs tick s
            (noted w room resident.id (chosen_by w resident tick activity (o, (ask w s).1)).0)
            (chosen_by w resident tick activity (o, (ask w s).1)).1
    answer none = Logs-same tick s (ask w s).1 refl
    answer (some text) =
        let c = resolved (parse_choice w text) activity in
        recorded-Logs w room resident tick c.0 c.1.0 _ s _
          (run-Ran w c.0 resident tick c.1.1 (ask w s).1)
