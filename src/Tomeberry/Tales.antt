-- ===== src/Tomeberry/Tales.antt =====
-- app/apps/tomeberry/store.py: the creation and the update of a tale. The settings of a tale are not
-- modelled.
use ai_job_server.Prelude.{ℕ, String, str_eq, Bool, false, Option, none, some, [], if◌then◌else◌}
use ai_job_server.TextDiff.{Text}
use ai_job_server.Tomeberry.{
  holds, Concept, ConceptClass, structural_unit, narrative_construct, Tale, Folder, Texts, get_tale,
  write_concept,
}
use ai_job_server.Tomeberry.Hierarchy.{rebuild_hierarchy}
use ai_job_server.Tomeberry.Store.{Times, or_given}

-- `create_tale`, for the ids of the tale, of its root and of its premise.
pub record TaleFields : Type 0 where
  pub title : String
  pub premise : String
  pub default_mode : String

abbrev pub blank : String → ConceptClass → String → String → Text → ℕ → Concept
blank id concept_class kind title body now = record {
  id = id;
  concept_class = concept_class;
  kind = kind;
  title = title;
  body = body;
  links = [];
  parent_id = none;
  order = 0;
  metadata = record {
    model_generated = false;
    source_request_id = none;
    word_count = 0;
    status = "draft";
    tags = [];
  };
  history = [];
  created_at = now;
  updated_at = now;
}

abbrev pub or_else : String → String → String
or_else s t = if str_eq s "" then t else s

abbrev pub no_files : Folder
no_files = record { tale = none; concepts = []; hierarchy = none; thread = none; traces = [] }

abbrev pub root_of : Texts → ℕ → String → TaleFields → Concept
root_of texts now root_id fields =
    blank root_id structural_unit "tale" (texts.strip (or_else fields.title "Untitled Tale")) [] now

abbrev pub premise_of : (String → Text) → Texts → ℕ → String → TaleFields → Concept
premise_of codes texts now premise_id fields =
    blank premise_id narrative_construct "premise" "Premise" (codes (texts.strip fields.premise))
      now

abbrev pub tale_of : Texts → ℕ → (tale root premise : String) → TaleFields → Tale
tale_of texts now tale_id root_id premise_id fields = record {
  id = tale_id;
  title = texts.strip (or_else fields.title "Untitled Tale");
  premise_id = some premise_id;
  structural_root_id = some root_id;
  default_mode = or_else fields.default_mode "draft";
  default_saved_prompt = none;
  created_at = now;
  updated_at = now;
}

-- `codes` are the code points of a text.
unfoldable pub create_tale :
    (String → Text) → Texts → ℕ → Times → (tale root premise : String) → TaleFields → Bool × Folder
unfolding write_concept rebuild_hierarchy
create_tale codes texts limit times tale_id root_id premise_id fields =
    let d =
      write_concept premise_id (premise_of codes texts times.now premise_id fields)
        (write_concept root_id (root_of texts times.now root_id fields) no_files) in
    rebuild_hierarchy limit times.rebuilt
      (record d { tale = some (holds (tale_of texts times.now tale_id root_id premise_id fields)) })

pub record TalePatch : Type 0 where
  pub title : Option String
  pub default_mode : Option String
  pub default_saved_prompt : Option String

abbrev or_saved : Option String → Option String → Option String
or_saved none old = old
or_saved (some s) old = some s

unfoldable pub update_tale : ℕ → TalePatch → Folder → Option Tale × Folder
unfolding get_tale
update_tale now p d = elim (get_tale d) [
  | none ↦ (none, d)
  | some t ↦
      let new = record t {
        title = or_given p.title t.title;
        default_mode = or_given p.default_mode t.default_mode;
        default_saved_prompt = or_saved p.default_saved_prompt t.default_saved_prompt;
        updated_at = now;
      } in
      (some new, record d { tale = some (holds new) })
]
