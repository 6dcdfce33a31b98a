-- ===== src/Tomeberry.antt =====
-- app/apps/tomeberry/models.py and app/apps/tomeberry/store.py: the folder of a tale. An operation
-- takes the folder and gives the folder that it leaves, so the id of the tale is not an argument. The
-- names of files are keys in the order in which `glob` lists them. Times are numbers. The body of a
-- concept is the list of its code points, and `Texts` gives what Python's strings do elsewhere.

pub mod Store
pub mod Hierarchy
pub mod Tales
pub mod Assistant
pub mod Requests
use ai_job_server.Prelude.{
  ℕ, suc, ◌+◌, String, str_eq, Bool, true, false, ◌&&◌, Option, none, some, List, [], ◌∷◌, ◌++◌,
  if◌then◌else◌,
}
use ai_job_server.Prelude.Dict.{Dict, get, put}
use ai_job_server.TextDiff.{Text}

-- A file that cannot be read or parsed, or what it holds.
pub data File (A : Type 0) : Type 0 where
  unreadable : File A
  holds : A → File A

-- `json.loads` of a file that may be missing; its errors count as a missing file.
abbrev pub read : {A : Type 0} → Option (File A) → Option A
read none = none
read (some unreadable) = none
read (some (holds a)) = some a

pub data ConceptClass : Type 0 where
  structural_unit narrative_construct story_entity : ConceptClass

abbrev pub same_class : ConceptClass → ConceptClass → Bool
same_class structural_unit structural_unit = true
same_class narrative_construct narrative_construct = true
same_class story_entity story_entity = true
same_class _ _ = false

pub record Link : Type 0 where
  pub rel : String
  pub target_id : String
  pub note : String

pub record HistoryEntry : Type 0 where
  pub at : ℕ
  pub kind : String
  pub request_id : Option String
  pub diff_id : Option String
  pub summary : String

pub record Metadata : Type 0 where
  pub model_generated : Bool
  pub source_request_id : Option String
  pub word_count : ℕ
  pub status : String
  pub tags : List String

pub record Concept : Type 0 where
  pub id : String
  pub concept_class : ConceptClass
  pub kind : String
  pub title : String
  pub body : Text
  pub links : List Link
  pub parent_id : Option String
  pub order : ℕ
  pub metadata : Metadata
  pub history : List HistoryEntry
  pub created_at : ℕ
  pub updated_at : ℕ

pub record Tale : Type 0 where
  pub id : String
  pub title : String
  pub premise_id : Option String
  pub structural_root_id : Option String
  pub default_mode : String
  pub default_saved_prompt : Option String
  pub created_at : ℕ
  pub updated_at : ℕ

-- The nodes of `hierarchy.json`, with their `children`.
mutual
  pub data Node : Type 0 where
    unit : (id kind title : String) → (order word_count : ℕ) → (status : String) → Nodes → Node

  pub data Nodes : Type 0 where
    nil : Nodes
    cons : Node → Nodes → Nodes

pub record Tree : Type 0 where
  pub root : Option Node
  pub orphans : Nodes
  pub updated_at : ℕ

-- What a proposal applies to, with the payload of those that create concepts or change the structure.
pub record ConceptRecord : Type 0 where
  pub concept_class : String
  pub kind : String
  pub title : String
  pub body : Text
  pub links : List Link

pub data StructureOp : Type 0 where
  adds : (kind title : String) → (parent_id : Option String) → StructureOp
  moves : (target_id parent_id : Option String) → (order : ℕ) → StructureOp
  links : (rel : String) → (target_id parent_id : Option String) → StructureOp
  unknown : StructureOp

pub data Scope : Type 0 where
  selection whole_unit other : Scope
  new_concepts : List ConceptRecord → Scope
  structure : List StructureOp → Scope

pub record ProposalRef : Type 0 where
  pub diff_id : String
  pub scope : Scope
  pub status : String
  pub target_concept_id : Option String

pub record Message : Type 0 where
  pub id : String
  pub kind : String
  pub request_id : Option String
  pub proposal : Option ProposalRef

pub record Trace : Type 0 where
  pub user_action : Option String

pub record Folder : Type 0 where
  pub tale : Option (File Tale)
  pub concepts : Dict (File Concept)
  pub hierarchy : Option (File Tree)
  pub thread : Option (File (List Message))
  pub traces : Dict (File Trace)

-- `str.strip` of a title, and the number of words of a body.
pub record Texts : Type 0 where
  pub strip : String → String
  pub words : Text → ℕ

unfoldable pub get_tale : Folder → Option Tale
get_tale d = read d.tale

unfoldable pub touch_tale : ℕ → Folder → Folder
unfolding get_tale
touch_tale now d = elim (get_tale d) [
  | none ↦ d
  | some t ↦ record d { tale = some (holds (record t { updated_at = now })) }
]

unfoldable pub get_concept : String → Folder → Option Concept
unfolding get
get_concept cid d = read (get cid d.concepts)

unfoldable pub write_concept : String → Concept → Folder → Folder
unfolding put
write_concept cid c d = record d { concepts = put cid (holds c) d.concepts }

-- `None`, or an empty id that counts as none.
abbrev pub truthy : Option String → Option String
truthy none = none
truthy (some id) = if str_eq id "" then none else some id
