-- ===== src/Tomeberry/Store.antt =====
-- app/apps/tomeberry/store.py: the operations on tales and their concepts. `Times` are the readings
-- of the clock that an operation makes: for its own writes, for the tree and for the tale. The id of a
-- new concept, from `uuid4`, is an argument.
pub mod Named
pub mod Deleting
pub mod Operations
pub mod Moving
use mathlib.Core.Option
use ai_job_server.Prelude.{
  ℕ, suc, ◌+◌, max, ◌==◌, String, str_eq, Bool, true, false, not, ◌&&◌, Option, none, some, List,
  [], ◌∷◌, ◌++◌, map, if◌then◌else◌, keep, length,
}
use ai_job_server.Prelude.Dict.{Dict, get, put, pop}
use ai_job_server.TextDiff.{Text}
use ai_job_server.Tomeberry.{
  File, unreadable, holds, read, Concept, ConceptClass, structural_unit, narrative_construct,
  same_class, Link, HistoryEntry, Metadata, Tale, Folder, Texts, get_tale, touch_tale, get_concept,
  write_concept,
}
use ai_job_server.Tomeberry.Hierarchy.{list_concepts, is_child, rebuild_hierarchy}

pub record Times : Type 0 where
  pub now : ℕ
  pub rebuilt : ℕ
  pub touched : ℕ

-- `raised` is the `RecursionError` of the tree.
pub data Outcome : Type 0 where
  missing raised : Outcome
  done : Concept → Outcome

-- `max((c.get("order", 0) for c in sibs), default=-1) + 1`
unfoldable pub above : List Concept → ℕ
above [] = 0
above (c ∷ cs) = max (c.order + 1) (above cs)

unfoldable pub next_order : Option String → Folder → ℕ
unfolding above list_concepts keep
next_order parent_id d = above (keep (is_child parent_id) (list_concepts none none d))

pub record Fields : Type 0 where
  pub concept_class : ConceptClass
  pub kind : String
  pub title : String
  pub body : Text
  pub parent_id : Option String
  pub order : Option ℕ
  pub links : List Link
  pub metadata : Metadata

unfoldable pub new_concept : Texts → ℕ → String → Fields → Folder → Concept
unfolding next_order
new_concept texts now cid fields d = record {
  id = cid;
  concept_class = fields.concept_class;
  kind = if str_eq fields.kind "" then "scene" else fields.kind;
  title = texts.strip fields.title;
  body = fields.body;
  links = fields.links;
  parent_id = fields.parent_id;
  order = elim fields.order [ none ↦ next_order fields.parent_id d | some n ↦ n ];
  metadata = record fields.metadata { word_count = texts.words fields.body };
  history =
      record {
        at = now;
        kind = "manual_edit";
        request_id = none;
        diff_id = none;
        summary = "created";
      }
      ∷ [];
  created_at = now;
  updated_at = now;
}

-- What follows the write of a concept: the tree where it is rebuilt, and the time of the tale.
unfoldable pub finish : ℕ → Times → Concept → Folder → Outcome × Folder
unfolding rebuild_hierarchy touch_tale
finish limit times c d =
    let r = rebuild_hierarchy limit times.rebuilt d in
    if r.0 then (done c, touch_tale times.touched r.1) else (raised, r.1)

unfoldable pub create_concept : Texts → ℕ → Times → String → Fields → Folder → Outcome × Folder
unfolding get_tale new_concept write_concept finish touch_tale
create_concept texts limit times cid fields d = elim (get_tale d) [
  | none ↦ (missing, d)
  | some tale ↦
      let c = new_concept texts times.now cid fields d in
      let written = write_concept cid c d in
      if same_class fields.concept_class structural_unit
      then finish limit times c written
      else (done c, touch_tale times.touched written)
]

-- A key and the value that the patch of the metadata gives it.
pub data MetaField : Type 0 where
  model_generated : Bool → MetaField
  source_request_id : Option String → MetaField
  word_count : ℕ → MetaField
  status : String → MetaField
  tags : List String → MetaField

abbrev pub set_meta : MetaField → Metadata → Metadata
set_meta (model_generated x) m = record m { model_generated = x }
set_meta (source_request_id x) m = record m { source_request_id = x }
set_meta (word_count x) m = record m { word_count = x }
set_meta (status x) m = record m { status = x }
set_meta (tags x) m = record m { tags = x }

abbrev pub merge_meta : List MetaField → Metadata → Metadata
merge_meta [] m = m
merge_meta (f ∷ fs) m = merge_meta fs (set_meta f m)

pub record Patch : Type 0 where
  pub title : Option String
  pub body : Option Text
  pub kind : Option String
  pub order : Option ℕ
  pub metadata : Option (List MetaField)

abbrev pub or_given {ℓ} : {A : Type ℓ} → Option A → A → A
or_given none old = old
or_given (some new) old = new

abbrev counted : Texts → Option Text → Metadata → Metadata
counted texts none m = m
counted texts (some body) m = record m { word_count = texts.words body }

abbrev entry_of : Option HistoryEntry → List HistoryEntry
entry_of none = []
entry_of (some h) = h ∷ []

unfoldable pub patched : Texts → ℕ → Patch → Option HistoryEntry → Concept → Concept
patched texts now p history c = record c {
  title = or_given p.title c.title;
  body = or_given p.body c.body;
  kind = or_given p.kind c.kind;
  order = or_given p.order c.order;
  metadata = counted texts p.body (merge_meta (or_given p.metadata []) c.metadata);
  history = c.history ++ entry_of history;
  updated_at = now;
}

-- The operations that write one concept and touch the tale.
unfoldable pub rewrite : Times → String → (Concept → Concept) → Folder → Outcome × Folder
unfolding get_concept write_concept touch_tale
rewrite times cid f d = elim (get_concept cid d) [
  | none ↦ (missing, d)
  | some c ↦ (done (f c), touch_tale times.touched (write_concept cid (f c) d))
]

unfoldable pub update_concept :
    Texts → Times → String → Patch → Option HistoryEntry → Folder → Outcome × Folder
unfolding rewrite patched
update_concept texts times cid p history d = rewrite times cid (patched texts times.now p history) d

abbrev pub same_link : String → String → Link → Bool
same_link rel target l = str_eq l.rel rel && str_eq l.target_id target

unfoldable pub linked : ℕ → Link → Concept → Concept
unfolding keep
linked now link c = record c {
  links = keep (λ l. not (same_link link.rel link.target_id l)) c.links ++ link ∷ [];
  updated_at = now;
}

unfoldable pub unlinked : ℕ → String → String → Concept → Concept
unfolding keep
unlinked now rel target c = record c {
  links = keep (λ l. not (same_link rel target l)) c.links;
  updated_at = now;
}

unfoldable pub add_link : Times → String → Link → Folder → Outcome × Folder
unfolding rewrite linked
add_link times cid link d = rewrite times cid (linked times.now link) d

unfoldable pub remove_link : Times → String → String → String → Folder → Outcome × Folder
unfolding rewrite unlinked
remove_link times cid rel target d = rewrite times cid (unlinked times.now rel target) d

unfoldable pub moved : ℕ → Option String → ℕ → Concept → Concept
moved now parent_id order c = record c { parent_id = parent_id; order = order; updated_at = now }

unfoldable pub move_concept : ℕ → Times → String → Option String → ℕ → Folder → Outcome × Folder
unfolding get_concept write_concept moved finish
move_concept limit times cid parent_id order d = elim (get_concept cid d) [
  | none ↦ (missing, d)
  | some c ↦
      let new = moved times.now parent_id order c in
      finish limit times new (write_concept cid new d)
]

abbrev pub points_elsewhere : String → Link → Bool
points_elsewhere cid l = not (str_eq l.target_id cid)

unfoldable pub without_target : String → Concept → Concept
unfolding keep
without_target cid c = record c { links = keep (points_elsewhere cid) c.links }

-- The loop over the concepts, each of which is written where a link was dropped.
unfoldable pub drop_links : String → List Concept → Folder → Folder
unfolding write_concept without_target
drop_links cid [] d = d
drop_links cid (c ∷ cs) d = drop_links cid cs (
    if length (without_target cid c).links == length c.links
    then d
    else write_concept c.id (without_target cid c) d)

abbrev was_unit : Option Concept → Bool
was_unit none = false
was_unit (some c) = same_class c.concept_class structural_unit

pub data Deletion : Type 0 where
  no_file raised deleted : Deletion

unfoldable pub delete_concept : ℕ → Times → String → Folder → Deletion × Folder
unfolding get get_concept pop drop_links list_concepts rebuild_hierarchy touch_tale
delete_concept limit times cid d = elim (get cid d.concepts) [
  | none ↦ (no_file, d)
  | some f ↦
      let unlinked_file = record d { concepts = pop cid d.concepts } in
      let dropped = drop_links cid (list_concepts none none unlinked_file) unlinked_file in
      let r = rebuild_hierarchy limit times.rebuilt dropped in
      if was_unit (read (some f))
      then (if r.0 then (deleted, touch_tale times.touched r.1) else (raised, r.1))
      else (deleted, touch_tale times.touched dropped)
]
