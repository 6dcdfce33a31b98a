-- ===== src/Tests/Tomeberry.antt =====
-- Runs at fixed inputs, of app/apps/tomeberry/store.py and app/apps/tomeberry/generator.py.
use mathlib.Core.Option
use ai_job_server.Prelude.{
  ◌≡◌, ◌⊎◌, ◌↔◌, refl, str_eq, true, none, some, List, [], ◌∷◌, if◌then◌else◌, arith, length,
}
use ai_job_server.Prelude.Dict.{Dict, get, has}
use ai_job_server.TextDiff.{Proposal}
use ai_job_server.Tomeberry.{
  File, holds, Concept, ConceptClass, structural_unit, Node, nil, Folder, Texts, Message,
  ProposalRef, whole_unit, get_tale, get_concept,
}
use ai_job_server.Tomeberry.Hierarchy.{node, node_of}
use ai_job_server.Tomeberry.Hierarchy.Below.{Below, ids_of, node-has}
use ai_job_server.Tomeberry.Hierarchy.Depth.{IsAcyclic, node_iff}
use ai_job_server.Tomeberry.Store.{
  Times, without_target, delete_concept, move_concept, moved, raised,
}
use ai_job_server.Tomeberry.Store.Named.{IsNamed}
use ai_job_server.Tomeberry.Store.Operations.{Operation, apply_all, apply_all-IsNamed}
use ai_job_server.Tomeberry.Store.Deleting.{get_concept-delete_concept}
use ai_job_server.Tomeberry.Store.Moving.{IsStuck, move_concept-IsStuck}
use ai_job_server.Tomeberry.Tales.{TaleFields, blank, create_tale, tale_of, no_files}
use ai_job_server.Tomeberry.Assistant.{find_request_message, get_trace}
use ai_job_server.Tomeberry.Requests.{Env, applied, accept_request, reject_request}
use ai_job_server.Tomeberry.Requests.Accepting.{Proposes, body_of, accept_request-reject_request}

abbrev texts : Texts
texts = record { strip = λ s. s; words = λ t. length t }

abbrev times : Times
times = record { now = 5; rebuilt = 6; touched = 7 }

abbrev tale_fields : TaleFields
tale_fields = record { title = "T"; premise = "p"; default_mode = "" }

abbrev operations : List Operation
operations = Operation.moves times "r" (some "r") 0 ∷ Operation.deletes times "p" ∷ []

apply_all-IsNamed_example : IsNamed (
    apply_all texts 1000 operations
      (create_tale (λ s. []) texts 1000 times "t" "r" "p" tale_fields).1)
apply_all-IsNamed_example =
    apply_all-IsNamed (λ s. []) texts 1000 times "t" "r" "p" tale_fields operations

-- A root with one scene, to which a character is linked.
abbrev root : Concept
root = blank "r" structural_unit "tale" "T" [] 1

abbrev scene : Concept
scene = record (blank "s" structural_unit "scene" "S" (97 ∷ []) 2) { parent_id = some "r" }

abbrev hero : Concept
hero = record (blank "h" ConceptClass.story_entity "character" "H" [] 3) {
  links = record { rel = "appears_in"; target_id = "s"; note = "" } ∷ [];
}

abbrev folder : Folder
folder = record no_files {
  tale = some (holds (tale_of texts 1 "t" "r" "p" tale_fields));
  concepts = ("r", holds root) ∷ ("s", holds scene) ∷ ("h", holds hero) ∷ [];
}

folder-IsNamed : IsNamed folder
unfolding has
folder-IsNamed = record {
  distinct = (refl, (refl, (refl, tt)));
  named = (refl, (refl, (refl, tt)));
}

get_concept-delete_concept_example :
    get_concept "h" (delete_concept 1000 times "s" folder).1
    ≡ (if str_eq "s" "h" then none else Option.map (without_target "s") (get_concept "h" folder))
unfolding get
get_concept-delete_concept_example =
    get_concept-delete_concept 1000 times "s" folder (holds scene) "h" folder-IsNamed refl

move_concept-IsStuck_example :
    ((move_concept 1000 times "r" (some "r") 0 folder).0 ≡ raised)
    × (get_concept "r" (move_concept 1000 times "r" (some "r") 0 folder).1
        ≡ some (moved 5 (some "r") 0 root))
    × IsStuck (move_concept 1000 times "r" (some "r") 0 folder).1
unfolding get_tale get_concept
move_concept-IsStuck_example =
    move_concept-IsStuck 1000 times "r" 0 folder (tale_of texts 1 "t" "r" "p" tale_fields) root
      folder-IsNamed refl refl (λ e. cc e) refl refl

abbrev units : List Concept
units = root ∷ scene ∷ []

abbrev scene_node : Node
scene_node = node_of scene nil

node-has_example : (has "s" (ids_of scene_node) ≡ true) ↔ ((scene.id ≡ "s") ⊎ Below units "s" "s")
unfolding node
node-has_example = node-has 3 units scene scene_node "s" refl

node_iff_example : ((n : Node) × (node 3 units scene ≡ some n)) ↔ IsAcyclic units "s"
node_iff_example = node_iff units 3 scene (omega arith)

-- A request that proposes another body of the scene.
abbrev proposal : Proposal
proposal = record { before = 98 ∷ []; after = 99 ∷ []; before_hash = 1; hunks = [] }

abbrev ref : ProposalRef
ref = record { diff_id = "d"; scope = whole_unit; status = "pending"; target_concept_id = some "s" }

abbrev message : Message
message = record { id = "m"; kind = "proposal"; request_id = some "q"; proposal = some ref }

abbrev asked : Folder
asked = record folder {
  thread = some (holds (message ∷ []));
  traces = ("q", holds (record { user_action = none })) ∷ [];
}

abbrev env : Env
env = record {
  texts = texts;
  limit = 1000;
  hash = λ t. length t;
  safe = λ s. s;
  stored_id = λ s. s;
  times = λ n. times;
  ids = λ n. "c";
  marker = "k";
  now = 5;
}

abbrev proposals : Dict (File Proposal)
proposals = ("d", holds proposal) ∷ []

proposes : Proposes env proposals "q" "s" proposal asked
unfolding get_trace find_request_message get_concept
proposes = record {
  trace = record { user_action = none };
  message = message;
  ref = ref;
  concept = scene;
  traced = refl;
  found = refl;
  carries = refl;
  scoped = refl;
  aimed = refl;
  stored = refl;
  known = refl;
}

accept_request-reject_request_example :
    (((accept_request env proposals "q" asked).0 ≡ applied)
      × (body_of "s" (accept_request env proposals "q" asked).1
          ≡ (if str_eq "s" "s" then some (99 ∷ []) else body_of "s" asked)))
    × (((reject_request env "q" asked).0 ≡ applied)
        × ((accept_request env proposals "q" (reject_request env "q" asked).1).0 ≡ applied)
        × (body_of "s" (accept_request env proposals "q" (reject_request env "q" asked).1).1
            ≡ (if str_eq "s" "s" then some (99 ∷ []) else body_of "s" asked)))
accept_request-reject_request_example =
    accept_request-reject_request env proposals "q" "s" proposal asked "s" proposes
