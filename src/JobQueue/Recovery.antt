-- ===== src/JobQueue/Recovery.antt =====
-- app/job_queue.py `recover_interrupted_jobs` and its use in the `lifespan` of app/main.py: the jobs
-- that a restart finds on disk. The job directories are a list in the order of the scan. A status that
-- is JSON is taken to be an object, and its `created_at`, where it is there, to be a text;
-- `_build_recovery_runner` is the parameter `build`.
pub mod Restart
use ai_job_server.Prelude.{
  ℕ, ◌≡◌, refl, sym, ap, ◌∙◌, ◌++◌, String, str_eq, Bool, true, false, not, Option, none, some,
  List, [], ◌∷◌, map, if◌then◌else◌, if_ind, ltb, ◌+◌, length, append_assoc, append-nil, All, arith,
  Bool-cases, inl, inr,
}
use mathlib.Core.List.{Permᴰ}
use ai_job_server.Prelude.Texts.{text_le}
use ai_job_server.Prelude.Sort.{sort, IsSorted, IsOrder, sort-IsSorted, sort_permᴰ}
use ai_job_server.JobQueue.{JobQueue, Item, Priority, high, low, init, start, append_to, enqueue}

pub record StatusJson : Type 0 where
  pub job_id : Option String
  pub job_type : Option String
  pub status : Option String
  pub error : Option String
  pub created_at : Option String

pub record RequestJson (Q : Type 0) : Type 0 where
  pub job_type : Option String
  pub requested : Q

-- A file of JSON: not there, not readable, or its content.
pub data FileOf (A : Type 0) : Type 0 where
  not_there broken : FileOf A
  holding : A → FileOf A

pub record JobDir (Q : Type 0) : Type 0 where
  pub dir_name : String
  pub status_file : FileOf StatusJson
  pub request_file : FileOf (RequestJson Q)

pub record Entry (Q : Type 0) : Type 0 where
  pub created : String
  pub job_id : String
  pub job_type : String
  pub dir_name : String
  pub request : RequestJson Q

abbrev pub is_text : String → Option String → Bool
is_text t none = false
is_text t (some s) = str_eq s t

-- `a or b`, where an empty text counts as none.
abbrev or_given : Option String → String → String
or_given none b = b
or_given (some a) b = if str_eq a "" then b else a

abbrev or_empty : Option String → String
or_empty none = ""
or_empty (some t) = t

abbrev pub interrupted : StatusJson → StatusJson
interrupted s = record s { status = some "error"; error = some "interrupted by server restart" }

-- What the scan writes into a directory.
abbrev pub written : FileOf StatusJson → FileOf StatusJson
written (holding s) = if is_text "running" s.status then holding (interrupted s) else holding s
written not_there = not_there
written broken = broken

module _ {Q : Type 0} where
  abbrev pub marked : JobDir Q → JobDir Q
  marked d = record d { status_file = written d.status_file }

  abbrev pub asked : JobDir Q → StatusJson → FileOf (RequestJson Q) → Option (Entry Q)
  asked d s (holding r) = some (record {
    created = or_empty s.created_at;
    job_id = or_given s.job_id d.dir_name;
    job_type = or_given r.job_type (or_given s.job_type "");
    dir_name = d.dir_name;
    request = r;
  })
  asked d s _ = none

  abbrev pub entry_from : JobDir Q → FileOf StatusJson → Option (Entry Q)
  entry_from d (holding s) = if is_text "queued" s.status then asked d s d.request_file else none
  entry_from d _ = none

  -- `queued` before it is sorted.
  unfoldable pub queued : List (JobDir Q) → List (Entry Q)
  queued [] = []
  queued (d ∷ ds) = elim (entry_from d d.status_file) [ none ↦ queued ds | some e ↦ e ∷ queued ds ]

  abbrev pub older : Entry Q → Entry Q → Bool
  older a b = text_le a.created b.created

  unfoldable pub recover_interrupted_jobs : List (JobDir Q) → List (Entry Q) × List (JobDir Q)
  unfolding queued sort
  recover_interrupted_jobs dirs = (sort older (queued dirs), map marked dirs)

-- `pause n` is what the rest of the program does at the `sleep(0)` of the n-th `enqueue`.
module _ {Q R P : Type 0} (build : Entry Q → Option R)
    (pause : ℕ → JobQueue R P → JobQueue R P) where
  abbrev pub enqueued_as : ℕ → Entry Q → Option R → JobQueue R P → JobQueue R P
  enqueued_as n e none q = q
  enqueued_as n e (some runner) q = pause n (enqueue e.job_id runner high q)

  -- The loop of `lifespan` over the entries, from the n-th on.
  unfoldable pub enqueue_all : ℕ → List (Entry Q) → JobQueue R P → JobQueue R P
  unfolding enqueue
  enqueue_all n [] q = q
  enqueue_all n (e ∷ es) q = enqueue_all (n + 1) es (enqueued_as n e (build e) q)

  unfoldable pub recovered : List (JobDir Q) → JobQueue R P × List (JobDir Q)
  unfolding recover_interrupted_jobs enqueue_all
  recovered dirs =
      let (entries, disk) = recover_interrupted_jobs dirs in
      (enqueue_all 0 entries (start init), disk)
