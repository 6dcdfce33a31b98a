-- ===== src/Blaboratory/Tick/Events.antt =====
-- app/apps/blaboratory/tick_runner.py: the events that a tick adds.
use ai_job_server.Prelude.{
  ℕ, ◌+◌, max, ◌≡◌, refl, sym, ap, ◌∙◌, subst, String, Bool, true, false, Option, none, some, List,
  [], ◌∷◌, ◌++◌, map, if◌then◌else◌, if_ind, arith,
}
use ai_job_server.Prelude.Dict.{get, has}
use ai_job_server.Blaboratory.{Resident, Event, Lab}
use ai_job_server.Blaboratory.Rooms.{occupied_rooms}
use ai_job_server.Blaboratory.Tables.{next_tick, latest}
use ai_job_server.Blaboratory.Call.{World}
use ai_job_server.Blaboratory.Tick.{
  Acted, TickSummary, no_default_llm, ticked, taken, act_one, noted, turn, turns, or_next, run_tick,
}
use ai_job_server.Blaboratory.Tick.Turns.{event_of, Logs, Logs-same, Logs-then, act_one-Logs}

-- `acted` is in the order of the occupants, of which some are passed over.
pub data Picks : List (ℕ × String) → List Acted → Type 0 where
  done : Picks [] []
  passed :
      (o : ℕ × String) {os : List (ℕ × String)} {acted : List Acted}
      → Picks os acted
      → Picks (o ∷ os) acted
  took :
      (room : ℕ) (rid name : String) {os : List (ℕ × String)} {acted : List Acted}
      → Picks os acted
      → Picks
          ((room, rid) ∷ os)
          (record { room_id = room; resident_id = rid; action = name } ∷ acted)

-- Each resident is filed under its id.
abbrev pub Filed : Lab → Type 0
Filed s = (rid : String) (r : Resident) → get rid s.residents ≡ some r → r.id ≡ rid

-- What a turn and the turns of a list of occupants leave.
abbrev LogsAs : ℕ → Lab → List Acted × Lab → Type 0
LogsAs tick s r = Logs tick s r.0 r.1

taken-Logs :
    (w : World) (tick room : ℕ) (rid : String) (s : Lab) (o : Option Resident)
    → ((r : Resident) → o ≡ some r → r.id ≡ rid)
    → LogsAs tick s (taken w tick room rid s o)
taken-Logs w tick room rid s none f = Logs-same tick s s refl
taken-Logs w tick room rid s (some resident) f =
    subst
      (λ k.
        Logs tick s (noted w room k (act_one w resident tick s).0) (act_one w resident tick s).1)
      (f resident refl) (act_one-Logs w room resident tick s)

turn-Logs :
    (w : World) (tick : ℕ) (o : ℕ × String) (s : Lab) → Filed s → LogsAs tick s (turn w tick o s)
turn-Logs w tick (room, rid) s f =
    if_ind (LogsAs tick s) (has rid s.busy) (λ e. Logs-same tick s s refl)
      (λ e. taken-Logs w tick room rid s (get rid s.residents) (f rid))

turns-Logs :
    (w : World) (tick : ℕ) (os : List (ℕ × String)) (s : Lab)
    → Filed s
    → LogsAs tick s (turns w tick os s)
unfolding turns
turns-Logs w tick [] s f = Logs-same tick s s refl
turns-Logs w tick (o ∷ os) s f =
    let a = turn-Logs w tick o s f in
    let q = (turn w tick o s).1 in
    let g : Filed q = λ rid r e. f rid r (ap (get rid) (sym a.residents_same) ∙ e) in
    Logs-then tick s q _ (turn w tick o s).0 _ a (turns-Logs w tick os q g)

noted-Picks :
    (w : World) (room : ℕ) (rid : String) (o : Option String) {os : List (ℕ × String)}
    {acted : List Acted}
    → Picks os acted
    → Picks ((room, rid) ∷ os) (noted w room rid o ++ acted)
noted-Picks w room rid none p = passed (room, rid) p
noted-Picks w room rid (some name) p = took room rid name p

turns-Picks :
    (w : World) (tick : ℕ) (os : List (ℕ × String)) (s : Lab) → Picks os (turns w tick os s).0
unfolding turns
turns-Picks w tick [] s = done
turns-Picks w tick ((room, rid) ∷ os) s =
    again (λ q. turns-Picks w tick os q) (has rid s.busy) (get rid s.residents)
  where
    again :
        ((q : Lab) → Picks os (turns w tick os q).0)
        → (b : Bool) (o : Option Resident)
        → let t = if b then ([], s) else taken w tick room rid s o in
          Picks ((room, rid) ∷ os) (t.0 ++ (turns w tick os t.1).0)
    again f true o = passed (room, rid) (f s)
    again f false none = passed (room, rid) (f s)
    again f false (some resident) =
        noted-Picks w room rid (act_one w resident tick s).0 (f (act_one w resident tick s).1)

-- A tick of which the language model is configured adds one event for each action that is reported, in
-- their order: the event has the number of the tick and names the resident, its room and the action.
-- The residents that act are among the occupants at the start of the tick, each occupied room at most
-- once and in the order of the rooms, whatever the model answers and whichever of the turns fail; no
-- resident or room is changed. It is supposed that each resident is filed under its id.
pub run_tick-Logs :
    (w : World) (number : Option ℕ) (s : Lab)
    → Filed s
    → (acted : List Acted) × (((run_tick w true number s).0 ≡ ticked (or_next w number s) acted)
        × (Picks (occupied_rooms s.rooms) acted
            × Logs (or_next w number s) s acted (run_tick w true number s).1))
unfolding run_tick
run_tick-Logs w number s f =
    let tick = or_next w number s in
    let q : Lab = record s { busy = [] } in
    let l = turns-Logs w tick (occupied_rooms s.rooms) q f in
    (
      (turns w tick (occupied_rooms s.rooms) q).0,
      (
        refl,
        (
          turns-Picks w tick (occupied_rooms s.rooms) q,
          record {
            rooms_same = l.rooms_same;
            residents_same = l.residents_same;
            logged = l.logged;
          },
        ),
      ),
    )

latest-append : (xs ys : List Event) → latest (xs ++ ys) ≡ max (latest xs) (latest ys)
latest-append [] ys = omega arith
latest-append (e ∷ es) ys = omega (arith, latest-append es ys)

latest-map :
    (tick : ℕ) (rooms : ℕ → Option String) (a : Acted) (acted : List Acted)
    → latest (map (event_of tick rooms) (a ∷ acted)) ≡ tick
latest-map tick rooms a [] = omega arith
latest-map tick rooms a (b ∷ acted) = omega (arith, latest-map tick rooms b acted)

abbrev pub acted_in : TickSummary → List Acted
acted_in (no_default_llm tick) = []
acted_in (ticked tick acted) = acted

-- A tick without a number in which some resident acts raises the number of the next tick by one, and
-- one in which none acts leaves that number, so that the next tick has it again. It is supposed that
-- each resident is filed under its id.
pub next_tick-run_tick :
    (w : World) (s : Lab)
    → Filed s
    → next_tick (run_tick w true none s).1 ≡ (elim (acted_in (run_tick w true none s).0) [
      | [] ↦ next_tick s
      | a ∷ acted ↦ next_tick s + 1
    ])
unfolding next_tick
next_tick-run_tick w s f =
    let l = run_tick-Logs w none s f in by l.0 (run_tick w true none s) l.1.0 l.1.1.1.logged
  where
    by :
        (acted : List Acted) (o : TickSummary × Lab)
        → o.0 ≡ ticked (latest s.events + 1) acted
        → o.1.events ≡ s.events ++ map (event_of (latest s.events + 1) s.rooms) acted
        → latest o.1.events + 1
          ≡ (elim (acted_in o.0) [ [] ↦ latest s.events + 1 | a ∷ acted ↦ latest s.events + 1 + 1 ])
    by [] o e h = rw e (omega (arith, ap latest h, latest-append s.events []))
    by (a ∷ acted) o e h =
        let tick = latest s.events + 1 in
        rw e (
          omega (
            arith,
            ap latest h,
            latest-append s.events (map (event_of tick s.rooms) (a ∷ acted)),
            latest-map tick s.rooms a acted,
          ))
