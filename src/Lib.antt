-- ===== src/Lib.antt =====
-- The core of the AI job server: how jobs are queued, how a chain of steps runs, how its events
-- reach the clients, the list of tickets, and proposals of changed text.
--
-- A client posts a job; `JobQueue` (app/job_queue.py) keeps it in one of two lanes, and its one
-- worker runs it. A chain job is run by `execute_chain_job` (app/chain/executor.py), which emits
-- its progress on an `EventBus` (app/chain/events.py); the queue keeps the buses, for a time also
-- those of jobs that have ended, and each client reads one by the generator of `subscribe`.
--
--   EventBus: app/chain/events.py. The bus is a record; a subscriber is the state of its generator,
--     and `next` is one `__anext__`, up to a yield, an await on an empty queue or the end. Queues,
--     Numbers, Following and Delivery hold the laws.
--   JobQueue: app/job_queue.py. The queue is a record; the methods and the rounds of `_run` are
--     functions from await to await, and JobQueue/Invariant has the relation `Step` of their
--     interleavings. Order is about the lanes, Line and Arrivals about the abstract line of the items
--     that wait, Buses about the retention of buses, and Recovery is the restart, with `lifespan` of
--     app/main.py, where a parameter gives what the worker does at each pause of the loop.
--   Tickets: app/tickets/store.py. The index is a list of tickets; each operation takes and gives
--     the list that the JSON file holds. Ranks, Listing and Reorder hold the laws.
--   Chain: app/chain/models.py, with the children Renumber (`_renumber_top_level`), Expand
--     (`_expand_steps`) and Run (`execute_chain_job`), of app/chain/executor.py. A
--     `World` gives the random picks and the outcomes of the runners of steps. Renumber/Unique,
--     Expand/Order, Run/Budget and Run/Events hold the laws.
--   Sequences: app/chain/sequences.py, the library of sequences that steps refer to. An operation
--     takes and gives the list that the index file holds. Validate has `_validate_steps`, with the
--     laws in Validate/Exact; Store has the operations, with the laws in its children.
--   Cycles: the depth-first search of `check_for_cycles`, over nodes by name and their references.
--   Envelope: app/cruddables/envelope.py, `slugify` and `unique_id`.
--   TextDiff: app/textdiff/diff.py. A text is the list of its code points; difflib's opcodes and
--     the digest are parameters. Sides and Rendering hold the laws.
--   Ticks: app/ticks/persistence.py, the index of ticks, with the laws in Index; Scheduler has the rounds
--     of app/ticks/scheduler.py over a `World` that gives the clock, the schedules, the ids and what
--     other tasks do, with the laws in its children.
--   Tomeberry: app/apps/tomeberry/store.py, the folder of a tale. Store has the operations on concepts,
--     Tales those on the tale, Hierarchy the tree of units, Assistant the thread and the traces, and
--     Requests the acceptance and rejection of proposals of app/apps/tomeberry/generator.py. Their
--     children hold the laws.
--   Blaboratory: app/apps/blaboratory. Rooms has the occupancy, Tables the rows that are stored, Call a
--     phone call of call_sequence.py over a `World` that gives the answers of the language model, and
--     Tick the turns of tick_runner.py with the five actions, and Memories the reads of the rows and the
--     memories of context_pipeline.py. Call/Lines, Call/Frame, Tick/Turns and
--     Tick/Events hold the laws.
--   Structured: app/chain/structured.py, JSON taken out of the answer of a language model, with the laws
--     in Spans and Answers; Prattletale: app/apps/prattletale/director.py, the plan for a reply, which
--     takes JSON out in the same way, with the laws in Plans.
--   Prelude: Boolean tests, lists, sorting, the order of texts, association lists and sets of names.
--   Tests: runs at fixed inputs.
--
-- Fuel and bounds: `walk` has fuel for 2002 rounds, of which at most 2000 go on and one ends it,
-- so it is never short; `expand_levels` opens 21 levels, as the source does; `next_free` has a
-- round for each number that is taken; `exchange` has
-- fuel for 8 rounds, of which each ends the call or adds one of its 8 lines, the first being said before;
-- `first_free` has a round for each name that is taken, and `check_for_cycles` one level for each
-- node. Numbers are natural numbers, since the source's integers
-- have no width; a step number that is not positive is 0, which the executor treats alike.
--
-- Not modelled: a status file of a job that is JSON but no object, or not UTF-8, which would end the
-- worker or the recovery by an exception; files, times and logs; the runners of the steps, the services they call and the
-- web routes; the second worker that a restart in the middle of `stop`
-- can make, since `Step` has `stop` resume first; the text of prompts, the index of memories and
-- the payload of events in Blaboratory; and the applications and services that are not named above.
mod Prelude
pub mod Cycles
pub mod Envelope
pub mod Sequences
pub mod EventBus
pub mod JobQueue
pub mod Tickets
pub mod Ticks
pub mod Chain
pub mod TextDiff
pub mod Tomeberry
pub mod Blaboratory
pub mod Structured
pub mod Prattletale
mod Tests
