-- ===== src/Tests.antt =====
-- Runs of the models at fixed inputs, of app/chain/events.py, app/job_queue.py,
-- app/tickets/store.py, app/chain/executor.py and app/textdiff/diff.py.
mod Library
mod Ticks
mod Tomeberry
mod Blaboratory
mod Structured
mod Prattletale
mod Recovery
use ai_job_server.Prelude.{
  Option, false, Bool, ◌==◌, true, ℕ, suc, ◌+◌, ◌≤◌, ◌<◌, ◌≡◌, ◌≢◌, ◌⊎◌, refl, String, true, false,
  none, some, List, [], ◌∷◌, ◌++◌, map, arith, str_eq, take, length, if◌then◌else◌, leb, any, All,
}
use ai_job_server.Prelude.Dict.{has, pop, get, put}
use ai_job_server.EventBus
use ai_job_server.EventBus.{ChainEvent, EventBus, empty, max_subscribers, next, subscribe}
use ai_job_server.EventBus.Numbers.{Operation, IsValid, apply_all, apply_all-IsValid}
use ai_job_server.EventBus.Following.{Action, emitted, joined, run, step, first_of_list}
use ai_job_server.EventBus.Delivery.{delivery, close_cuts, reads_in, closed_world}
use ai_job_server.JobQueue.{
  JobQueue, Priority, high, low, Disk, status, init, start, enqueue, depth, wake, get_bus, sweep,
  close_bus, create_bus,
}
use ai_job_server.JobQueue.Invariant.{Reach, Step, IsSound, waiting, ids, reachable-IsSound}
use ai_job_server.JobQueue.Line.{silent}
use ai_job_server.JobQueue.Arrivals.{departs, Follows, step-Follows}
use ai_job_server.JobQueue.Order.{drain, live, no_lost_wakeup, drain_order}
use ai_job_server.JobQueue.Buses.{
  Event, swept, created, closed, happen_all, is_sweep_from, get_bus-sweep-close_bus,
}
use ai_job_server.Tickets.{
  Ticket, Index, ok, err, id_set_mismatch, create_ticket, delete_ticket, reorder_tickets,
  list_tickets, get_ticket,
}
use ai_job_server.Tickets.Listing.{others, IsCompact, list-delete, list-create}
use ai_job_server.Tickets.Ranks.{ranked}
use ai_job_server.Tickets.Reorder.{id_of, IsReordered, list-reorder}
use ai_job_server.Chain.{sequence, ChainStep, Alternative, llm, goto}
use ai_job_server.Chain.Renumber.{renumber_top_level}
use ai_job_server.Chain.Renumber.Unique.{AreUnique, KeepsGiven, positives, renumber_unique}
use ai_job_server.Chain.Expand.{
  expanded, is_sequence, expand_steps, expand_levels, expand_list, expand_one, expand_primary,
  expand_id, expand_found, in_scope, with_prefix, shift_targets,
}
use ai_job_server.Chain.Expand.Order.{EndsBelow, expand_steps-IsFlat, expand_steps-EndsBelow}
use ai_job_server.Chain.Run.{
  World, Walk, Failure, finished, failed, returned, execute_chain_job, prepare, order_of, error,
  done,
}
use ai_job_server.Chain.Run.Budget.{Ends, flat_steps, execute_chain_job-Ends}
use ai_job_server.Chain.Run.Events.{is_announced, is_told, execute_chain_job-job_done}
use ai_job_server.TextDiff
use ai_job_server.TextDiff.{
  Text, Opcode, tokens, prepend, build_hunks, make_proposal, apply_proposal, render_inline,
}
use ai_job_server.TextDiff.Sides.{AreOpcodes, proposal, apply_proposal-make_proposal}
use ai_job_server.TextDiff.Rendering.{shown, is_old, is_new, render_inline-make_proposal}

-- The bus: two events before the subscriber comes.
abbrev operations : List (Operation String)
operations = Operation.emits "a" ∷ Operation.emits "b" ∷ []

abbrev bus : EventBus String
bus = apply_all operations empty

abbrev schedule : List (Action String)
schedule = Action.reads ∷ Action.emits "c" ∷ Action.reads ∷ Action.reads ∷ []

apply_all-IsValid_example : IsValid (apply_all operations empty)
apply_all-IsValid_example = apply_all-IsValid operations

delivery_example :
    (rest : List (ChainEvent String)) × ((run schedule (joined bus)).out ++ rest
      ≡ bus.history ++ emitted bus.seq schedule)
    × ((next (run schedule (joined bus)).subscriber (run schedule (joined bus)).bus).0
        ≡ first_of_list rest)
delivery_example =
    delivery bus schedule (apply_all-IsValid operations) (unfold apply_all in refl)
      (unfold apply_all in omega arith)

abbrev first_event : ChainEvent String
first_event = record { seq = 1; payload = "a" }

abbrev second_event : ChainEvent String
second_event = record { seq = 2; payload = "b" }

abbrev before_close : List (Action String)
before_close = Action.reads ∷ Action.emits "c" ∷ []

abbrev after_close : List (Action String)
after_close = Action.reads ∷ Action.emits "d" ∷ Action.reads ∷ []

close_cuts_example :
    (run after_close (closed_world (run before_close (joined bus)))).out
    ≡ take (reads_in before_close + reads_in after_close) bus.history
close_cuts_example =
    close_cuts bus before_close after_close (unfold apply_all in omega arith)
      (unfold apply_all reads_in in omega arith)

-- The queue: a low job before a high one.
abbrev queue : JobQueue String String
queue = enqueue "second" "runner" high (enqueue "first" "runner" low (start init))

abbrev queue_Reach : Reach init queue
queue_Reach =
    Reach.next
      (Reach.next (Reach.next Reach.here (Step.started init))
        (Step.enqueued (start init) "first" "runner" low))
      (Step.enqueued (enqueue "first" "runner" low (start init)) "second" "runner" high)

abbrev all_queued : Disk
all_queued id = status (some "queued")

reachable-IsSound_example :
    IsSound queue × (depth queue ≤ length queue.high_lane + length queue.low_lane)
reachable-IsSound_example = reachable-IsSound queue queue_Reach

no_lost_wakeup_example :
    (0 < queue.avail)
    × ((disk : Disk) → suc (length (waiting (wake disk queue))) ≡ length (waiting queue))
no_lost_wakeup_example =
    no_lost_wakeup queue queue_Reach (unfold enqueue in refl) (unfold enqueue in refl)
      (unfold enqueue in λ e. cc)

drain_order_example :
    ((drain (length (waiting queue)) all_queued queue).0
      ≡ live all_queued (ids queue.high_lane) ++ live all_queued (ids queue.low_lane))
    × (waiting (drain (length (waiting queue)) all_queued queue).1 ≡ [])
drain_order_example =
    drain_order all_queued queue queue_Reach (unfold enqueue in refl) (unfold enqueue in refl)

abbrev queue_line : List (Priority × (String × String))
queue_line = (low, ("first", "runner")) ∷ (high, ("second", "runner")) ∷ []

step-Follows_example :
    Follows
      (if queue.stop_event then silent else departs queue.high_lane queue.low_lane)
      queue_line
      (wake all_queued queue)
step-Follows_example =
    step-Follows queue_line
      (Step.woken queue all_queued (unfold enqueue in refl) (unfold enqueue in omega arith))
      (unfold enqueue in (refl, refl))

abbrev with_bus : JobQueue String String
with_bus = (create_bus "first" queue).1

abbrev bus_events : List Event
bus_events = swept 100 ∷ created "second" ∷ closed 600 60 "second" ∷ swept 650 ∷ []

get_bus-sweep-close_bus_example :
    get_bus "first" (happen_all bus_events (close_bus 600 50 "first" with_bus))
    ≡ (if any (is_sweep_from (50 + 600)) bus_events then none else some (EventBus.close empty))
unfolding pop get put create_bus get_bus enqueue
get_bus-sweep-close_bus_example =
    get_bus-sweep-close_bus 600 50 "first" bus_events with_bus empty tt refl
      (refl, (refl, (refl, (refl, tt))))

-- The tickets: "a" comes after "b" by its rank.
abbrev ticket : String → ℕ → Ticket
ticket id n = record {
  id = id;
  title = id;
  description = "";
  priority = some n;
  status = "todo";
  file_hints = [];
  branch = none;
  created_at = n;
  updated_at = n;
}

abbrev index : Index
index = ticket "a" 1 ∷ ticket "b" 0 ∷ []

list-delete_example :
    (get_ticket "b" index ≢ none)
      × ((delete_ticket "b" index).0 ≡ true)
      × (list_tickets (delete_ticket "b" index).1 ≡ ranked 0 (list_tickets (others "b" index)))
    ⊎ (get_ticket "b" index ≡ none) × (delete_ticket "b" index ≡ (false, index))
list-delete_example = list-delete "b" index

abbrev made : Ticket × Index
made = (
  record (ticket "c" 2) { created_at = 7; updated_at = 7 },
  index ++ record (ticket "c" 2) { created_at = 7; updated_at = 7 } ∷ [],
)

list-create_example :
    (list_tickets made.1 ≡ list_tickets index ++ made.0 ∷ [])
    × (made.0.status ≡ "todo")
    × (made.0.id ≡ "c")
    × IsCompact made.1
list-create_example =
    list-create (λ s. s) "c" 7 "c" "" [] index made (omega arith, (omega arith, tt))
      (unfold create_ticket in refl)

list-reorder_example :
    ((r : Index × Index) × (reorder_tickets ("a" ∷ "b" ∷ []) 9 index ≡ ok r)
      × IsReordered ("a" ∷ "b" ∷ []) index r.0 r.1)
    ⊎ ((reorder_tickets ("a" ∷ "b" ∷ []) 9 index ≡ err id_set_mismatch)
        × ((k : String) × (has k ("a" ∷ "b" ∷ []) ≢ has k (map id_of index))))
unfolding has any id_of
list-reorder_example = list-reorder ("a" ∷ "b" ∷ []) 9 index (refl, (refl, tt)) (refl, (refl, tt))

-- The chain: a step with a number, and two that get one.
abbrev alternative : Alternative String
alternative = record {
  weight = 1;
  sequence_id = none;
  target_step = some 1;
  fall_through = false;
  content = "";
}

abbrev chain_step : ℕ → ChainStep String
chain_step n = record {
  number = n;
  id = none;
  name = "s";
  kind = llm;
  visit_cap = 3;
  alternatives = alternative ∷ [];
}

-- A goto back to step 1 without end.
abbrev looping : List (ChainStep String)
looping = chain_step 1 ∷ record (chain_step 2) { kind = goto; visit_cap = 10 } ∷ []

abbrev world : World String
world = record { choose = λ n l. alternative; perform = λ n s a t. returned t t }

abbrev stored : String → Option (List (ChainStep String))
stored id = if str_eq id "seq" then some (chain_step 1 ∷ []) else none

abbrev numbered : List (ChainStep String)
numbered = chain_step 2 ∷ chain_step 0 ∷ chain_step 0 ∷ []

renumber_unique_example :
    (AreUnique (positives numbered)
      × ((out : List (ChainStep String)) × (renumber_top_level numbered ≡ some out)
          × AreUnique (map (λ s. s.number) out)
          × All (λ s. 0 < s.number) out
          × KeepsGiven numbered out))
    ⊎ ((AreUnique (positives numbered) → ⊥) × (renumber_top_level numbered ≡ none))
renumber_unique_example = renumber_unique numbered

numbered_lem : renumber_top_level numbered ≡ some (chain_step 2 ∷ chain_step 1 ∷ chain_step 3 ∷ [])
unfolding renumber_top_level
numbered_lem = refl

execute_chain_job-Ends_example :
    Ends world
      (flat_steps (prepare stored looping))
      (order_of (flat_steps (prepare stored looping)))
      (execute_chain_job stored world "in" looping)
execute_chain_job-Ends_example = execute_chain_job-Ends stored world "in" looping

execute_chain_job-job_done_example :
    (w : Walk) × ((execute_chain_job stored world "in" looping ≡ some (finished w))
        × (w.status ≡ done)
        × (is_announced w.events ≡ true)
      ⊎ ((e : Failure) × (execute_chain_job stored world "in" looping ≡ some (failed e w))
          × (w.status ≡ error e)
          × (is_announced w.events ≡ is_told e)))
execute_chain_job-job_done_example = execute_chain_job-job_done stored world "in" looping

-- Two words, the second of which is replaced: 32 is a space.
abbrev is_blank : ℕ → Bool
is_blank c = c == 32

abbrev digest : Text → ℕ
digest t = length t

abbrev old_words : Text
old_words = 97 ∷ 98 ∷ 32 ∷ 99 ∷ []

abbrev new_words : Text
new_words = 97 ∷ 98 ∷ 32 ∷ 100 ∷ 100 ∷ []

abbrev last_replaced : List Text → List Text → List Opcode
last_replaced a b =
    record { tag = TextDiff.Operation.equal; i₁ = 0; i₂ = 2; j₁ = 0; j₂ = 2 }
    ∷ record { tag = TextDiff.Operation.replace; i₁ = 2; i₂ = 3; j₁ = 2; j₂ = 3 }
    ∷ []

words-AreOpcodes : AreOpcodes is_blank digest last_replaced old_words new_words
unfolding tokens prepend
words-AreOpcodes = (
  (refl, refl, omega arith, omega arith),
  refl,
  ((refl, refl, omega arith, omega arith), tt, (refl, refl)),
)

below_two : (n : ℕ) → n < 2 → any (λ m. m == n) (0 ∷ 1 ∷ []) ≡ true
unfolding any
below_two n h = ground (arith, h)

all_accepted :
    (n : ℕ)
    → n < length (proposal is_blank digest last_replaced old_words new_words).hunks
    → any (λ m. m == n) (0 ∷ 1 ∷ []) ≡ true
unfolding make_proposal build_hunks
all_accepted n h = below_two n h

apply_proposal-make_proposal_example :
    (apply_proposal digest old_words
        (proposal is_blank digest last_replaced old_words new_words)
        none
        false
      ≡ some new_words)
    × (apply_proposal digest old_words
          (proposal is_blank digest last_replaced old_words new_words)
          (some (0 ∷ 1 ∷ []))
          false
        ≡ some new_words)
    × (apply_proposal digest old_words
          (proposal is_blank digest last_replaced old_words new_words)
          (some [])
          false
        ≡ some old_words)
apply_proposal-make_proposal_example =
    apply_proposal-make_proposal is_blank digest last_replaced old_words new_words (0 ∷ 1 ∷ [])
      words-AreOpcodes all_accepted

render_inline-make_proposal_example :
    (shown is_old (render_inline (make_proposal is_blank digest last_replaced old_words new_words))
      ≡ old_words)
    × (shown is_new
          (render_inline (make_proposal is_blank digest last_replaced old_words new_words))
        ≡ new_words)
render_inline-make_proposal_example =
    render_inline-make_proposal is_blank digest last_replaced old_words new_words words-AreOpcodes

-- A sequence of two steps, and a step after it.
abbrev two_steps : String → Option (List (ChainStep String))
two_steps id = some (chain_step 1 ∷ chain_step 2 ∷ [])

abbrev sequence_step : ChainStep String
sequence_step = record (chain_step 1) {
  kind = sequence;
  alternatives = record alternative { sequence_id = some "two" } ∷ [];
}

abbrev inlined : List (ChainStep String)
inlined =
    record (chain_step 1001) { name = "s > s" }
    ∷ record (chain_step 1002) { name = "s > s" }
    ∷ chain_step 2
    ∷ []

inlined_lem : expand_steps two_steps (sequence_step ∷ chain_step 2 ∷ []) ≡ expanded inlined
unfolding expand_steps expand_levels expand_list expand_one expand_primary expand_id expand_found
    in_scope with_prefix shift_targets
inlined_lem = refl

expand_steps-IsFlat_example : All (λ s. is_sequence s.kind ≡ false) inlined
expand_steps-IsFlat_example =
    expand_steps-IsFlat two_steps (sequence_step ∷ chain_step 2 ∷ []) inlined inlined_lem

expand_steps-EndsBelow_example : EndsBelow two_steps (chain_step 2) inlined
expand_steps-EndsBelow_example =
    expand_steps-EndsBelow two_steps sequence_step (chain_step 2) inlined refl refl (omega arith)
      inlined_lem
