-- ===== src/Tomeberry/Requests.antt =====
-- app/apps/tomeberry/generator.py: the acceptance and the rejection of what it proposes. The proposals of changed text are those of
-- app/textdiff/store.py; the call of the model is not modelled.
pub mod Accepting
use mathlib.Core.Option
use ai_job_server.Prelude.{
  ℕ, zero, suc, ◌+◌, ◌==◌, String, str_eq, Bool, true, false, not, ◌&&◌, ◌||◌, Option, none, some,
  List, [], ◌∷◌, ◌++◌, map, if◌then◌else◌, first, drop, length,
}
use ai_job_server.Prelude.Dict.{Dict, get, put}
use ai_job_server.TextDiff.{Text, Proposal, apply_proposal}
use ai_job_server.Tomeberry.{
  File, holds, read, Concept, ConceptClass, structural_unit, narrative_construct, story_entity,
  Link, HistoryEntry, Metadata, Folder, Texts, Message, ProposalRef, ConceptRecord, StructureOp,
  Scope, selection, whole_unit, other, new_concepts, structure, Trace, get_concept, truthy,
}
use ai_job_server.Tomeberry.Store.{
  Times, Outcome, Fields, Patch, create_concept, update_concept, move_concept, add_link,
}
use ai_job_server.Tomeberry.Assistant.{
  append_assistant_message, find_request_message, set_proposal_status, get_trace,
  update_trace_action,
}

-- The readings of the clock and the ids that `uuid4` gives, by the number of the operation; the digest
-- of texts; and the file name that app/textdiff/store.py makes of the id of a proposal, with the id that
-- the proposal in a file has.
pub record Env : Type 0 where
  pub texts : Texts
  pub limit : ℕ
  pub hash : Text → ℕ
  pub safe : String → String
  pub stored_id : String → String
  pub times : ℕ → Times
  pub ids : ℕ → String
  pub marker : String
  pub now : ℕ

-- `raised` is an exception that leaves what was written before it.
pub data Verdict : Type 0 where
  nothing raised : Verdict
  applied : Verdict

abbrev pub is_prefix : Text → Text → Bool
is_prefix [] t = true
is_prefix (c ∷ p) [] = false
is_prefix (c ∷ p) (d ∷ t) = c == d && is_prefix p t

-- `body.replace(before, after, 1)`, or nothing if `before` is not in the body.
unfoldable pub replace_first : Text → Text → Text → Option Text
replace_first before after [] = if is_prefix before [] then some after else none
replace_first before after (c ∷ body) =
    let rest = Option.map (λ t. c ∷ t) (replace_first before after body) in
    if is_prefix before (c ∷ body) then some (after ++ drop (length before) (c ∷ body)) else rest

abbrev or_after : Text → Option Text → Text
or_after after none = after
or_after after (some t) = t

abbrev is_empty : Text → Bool
is_empty [] = true
is_empty (c ∷ t) = false

unfoldable pub new_body : (Text → ℕ) → Scope → Proposal → Text → Text
unfolding replace_first apply_proposal
new_body hash selection p body =
    if is_empty p.before then p.after else or_after p.after (replace_first p.before p.after body)
new_body hash scope p body = elim (apply_proposal hash body p none false) [
  | some t ↦ t
  | none ↦ or_after [] (apply_proposal hash body p none true)
]

abbrev class_of : String → Option ConceptClass
class_of s =
    if str_eq s "structural_unit"
    then some structural_unit
    else if str_eq s "narrative_construct"
    then some narrative_construct
    else if str_eq s "story_entity"
    then some story_entity
    else none

abbrev or_else : String → String → String
or_else s t = if str_eq s "" then t else s

abbrev body_patch : Text → Patch
body_patch t = record { title = none; body = some t; kind = none; order = none; metadata = none }

abbrev made_by : Option String → Metadata
made_by rid = record {
  model_generated = true;
  source_request_id = rid;
  word_count = 0;
  status = "draft";
  tags = [];
}

module _ (env : Env) where
  -- An exception ends the loop; otherwise it goes on with a count of the operations that were done.
  abbrev step : Outcome × Folder → (Folder → Option ℕ × Folder) → Option ℕ × Folder
  step (Outcome.raised, d) next = (none, d)
  step (Outcome.missing, d) next = next d
  step (Outcome.done c, d) next = let (n, e) = next d in (Option.map suc n, e)

  unfoldable pub apply_concept_payload :
      ℕ → String → List ConceptRecord → Folder → Option ℕ × Folder
  unfolding create_concept
  apply_concept_payload n rid [] d = (some 0, d)
  apply_concept_payload n rid (r ∷ rs) d =
      let rest = λ (e : Folder). apply_concept_payload (n + 1) rid rs e in
      if str_eq r.concept_class "" then rest d else elim (class_of r.concept_class) [
        | none ↦ (none, d)
        | some k ↦
            step
              (create_concept env.texts env.limit (env.times n) (env.ids n)
                (record {
                  concept_class = k;
                  kind = or_else r.kind "character";
                  title = r.title;
                  body = r.body;
                  parent_id = none;
                  order = none;
                  links = r.links;
                  metadata = made_by (some rid);
                })
                d)
              rest
      ]

  unfoldable pub apply_op : ℕ → StructureOp → Folder → Outcome × Folder
  unfolding create_concept move_concept add_link
  apply_op n (StructureOp.adds kind title parent_id) d =
      create_concept env.texts env.limit (env.times n) (env.ids n)
        (record {
          concept_class = structural_unit;
          kind = or_else kind "scene";
          title = title;
          body = [];
          parent_id = parent_id;
          order = none;
          links = [];
          metadata = record (made_by none) { model_generated = false };
        })
        d
  apply_op n (StructureOp.moves target_id parent_id order) d = elim (truthy target_id) [
    | none ↦ (Outcome.missing, d)
    | some t ↦ move_concept env.limit (env.times n) t parent_id order d
  ]
  apply_op n (StructureOp.links rel target_id parent_id) d = elim (truthy target_id) [
    | none ↦ (Outcome.missing, d)
    | some t ↦ elim (truthy parent_id) [
      | none ↦ (Outcome.missing, d)
      | some p ↦
          add_link (env.times n) p
            (record { rel = or_else rel "relates_to"; target_id = t; note = "" }) d
    ]
  ]
  apply_op n StructureOp.unknown d = (Outcome.missing, d)

  unfoldable pub apply_structure_ops : ℕ → List StructureOp → Folder → Option ℕ × Folder
  unfolding apply_op
  apply_structure_ops n [] d = (some 0, d)
  apply_structure_ops n (o ∷ os) d = step (apply_op n o d) (λ e. apply_structure_ops (n + 1) os e)

  abbrev verdict_of : Option ℕ × Folder → Verdict × Folder
  verdict_of (none, d) = (raised, d)
  verdict_of (some n, d) = (applied, d)

  abbrev pub accepted_entry : String → String → HistoryEntry
  accepted_entry rid diff_id = record {
    at = env.now;
    kind = "accepted";
    request_id = some rid;
    diff_id = some diff_id;
    summary = "accepted edit";
  }

  abbrev pub rewritten : String → String → Text → String → Folder → Verdict × Folder
  rewritten rid target body diff_id d = (
    applied,
    (update_concept env.texts (env.times 0) target (body_patch body)
        (some (accepted_entry rid diff_id)) d).1,
  )

  -- The scopes that change the body of a concept.
  unfoldable pub accept_text :
      Dict (File Proposal) → String → ProposalRef → Folder → Verdict × Folder
  unfolding get get_concept new_body update_concept
  accept_text proposals rid p d = elim (truthy p.target_concept_id) [
    | none ↦ (nothing, d)
    | some target ↦ elim (read (get (env.safe p.diff_id) proposals)) [
      | none ↦ (nothing, d)
      | some proposal ↦ elim (get_concept target d) [
        | none ↦ (nothing, d)
        | some c ↦
            rewritten rid target (new_body env.hash p.scope proposal c.body)
              (env.stored_id (env.safe p.diff_id)) d
      ]
    ]
  ]

  abbrev accept_scope :
      Dict (File Proposal) → String → ProposalRef → Scope → Folder → Verdict × Folder
  accept_scope proposals rid p selection d = accept_text proposals rid p d
  accept_scope proposals rid p whole_unit d = accept_text proposals rid p d
  accept_scope proposals rid p other d = (applied, d)
  accept_scope proposals rid p (new_concepts rs) d = verdict_of (apply_concept_payload 0 rid rs d)
  accept_scope proposals rid p (structure ops) d = verdict_of (apply_structure_ops 0 ops d)

  abbrev accept_message : Dict (File Proposal) → String → Message → Folder → Verdict × Folder
  accept_message proposals rid m d = elim m.proposal [
    | none ↦ (applied, d)
    | some p ↦ accept_scope proposals rid p p.scope d
  ]

  abbrev pub marker_of : String → Message
  marker_of rid = record {
    id = env.marker;
    kind = "status";
    request_id = some rid;
    proposal = none;
  }

  -- The status of the proposal, the action of the trace and the marker in the thread.
  unfoldable pub conclude : String → String → Folder → Folder
  unfolding set_proposal_status update_trace_action append_assistant_message
  conclude rid action d =
      append_assistant_message (marker_of rid)
        (update_trace_action rid action (set_proposal_status rid action d).1)

  abbrev concluded : String → Verdict × Folder → Verdict × Folder
  concluded rid (applied, d) = (applied, conclude rid "accepted" d)
  concluded rid (nothing, d) = (nothing, d)
  concluded rid (raised, d) = (raised, d)

  unfoldable pub accept_request : Dict (File Proposal) → String → Folder → Verdict × Folder
  unfolding get_trace find_request_message accept_text apply_concept_payload apply_structure_ops
      conclude
  accept_request proposals rid d = elim (get_trace rid d) [
    | none ↦ (nothing, d)
    | some t ↦ elim (find_request_message rid (some "proposal") d) [
      | none ↦ (nothing, d)
      | some m ↦ concluded rid (accept_message proposals rid m d)
    ]
  ]

  abbrev is_absent : Option Message → Option Trace → Bool
  is_absent none none = true
  is_absent _ _ = false

  unfoldable pub reject_request : String → Folder → Verdict × Folder
  unfolding find_request_message get_trace conclude
  reject_request rid d =
      if is_absent (find_request_message rid (some "proposal") d) (get_trace rid d)
      then (nothing, d)
      else (applied, conclude rid "rejected" d)

  -- `iterate_request` up to the new request, which is made of the trace.
  unfoldable pub iterate_request : String → Folder → Verdict × Folder
  unfolding get_trace set_proposal_status update_trace_action
  iterate_request rid d = elim (get_trace rid d) [
    | none ↦ (nothing, d)
    | some t ↦
        (applied, update_trace_action rid "iterated" (set_proposal_status rid "superseded" d).1)
  ]
