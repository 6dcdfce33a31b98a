-- ===== src/Tomeberry/Hierarchy.antt =====
-- app/apps/tomeberry/store.py: the listing of concepts and the tree of structural units. `limit` is
-- the depth at which Python raises a `RecursionError`, which is `none`.
pub mod Listing
pub mod Below
pub mod Depth
use mathlib.Core.Option
use ai_job_server.Prelude.{
  ℕ, zero, suc, ◌+◌, ◌≡◌, String, str_eq, Bool, true, false, not, ◌&&◌, ◌||◌, Option, none, some,
  List, [], ◌∷◌, ◌++◌, if◌then◌else◌, ltb, leb, ◌==◌, keep,
}
use ai_job_server.Prelude.Dict.{Dict, get}
use ai_job_server.Prelude.Sort.{sort}
use ai_job_server.Tomeberry.{
  File, unreadable, holds, read, Concept, ConceptClass, structural_unit, same_class, Node, Nodes,
  unit, nil, cons, Tree, Tale, Folder, get_tale, get_concept, truthy,
}

-- The order by `order` and then by `created_at`.
abbrev pub before : Concept → Concept → Bool
before c d = ltb c.order d.order || (c.order == d.order && leb c.created_at d.created_at)

unfoldable pub readable : Dict (File Concept) → List Concept
readable [] = []
readable ((k, unreadable) ∷ files) = readable files
readable ((k, holds c) ∷ files) = c ∷ readable files

abbrev in_class : Option ConceptClass → Concept → Bool
in_class none c = true
in_class (some k) c = same_class c.concept_class k

abbrev of_kind : Option String → Concept → Bool
of_kind none c = true
of_kind (some k) c = str_eq k "" || str_eq c.kind k

unfoldable pub list_concepts : Option ConceptClass → Option String → Folder → List Concept
unfolding readable keep sort
list_concepts concept_class kind d =
    sort before (keep (λ c. in_class concept_class c && of_kind kind c) (readable d.concepts))

abbrev pub is_child : Option String → Concept → Bool
is_child none c = elim c.parent_id [ none ↦ true | some q ↦ false ]
is_child (some p) c = elim c.parent_id [ none ↦ false | some q ↦ str_eq q p ]

-- `by_parent.get(p, [])`
unfoldable pub children_of : List Concept → Option String → List Concept
unfolding keep sort
children_of units p = sort before (keep (is_child p) units)

-- `[node(k) for k in …]`, for `node` at a depth.
unfoldable pub each : (Concept → Option Node) → List Concept → Option Nodes
each node [] = some nil
each node (c ∷ cs) = elim (node c) [ none ↦ none | some n ↦ Option.map (cons n) (each node cs) ]

abbrev pub node_of : Concept → Nodes → Node
node_of c children =
    unit c.id c.kind c.title c.order c.metadata.word_count c.metadata.status children

unfoldable pub node : ℕ → List Concept → Concept → Option Node
unfolding each children_of
node zero units c = none
node (suc limit) units c =
    Option.map (node_of c) (each (λ k. node limit units k) (children_of units (some c.id)))

abbrev has_children : Node → Bool
has_children (unit id kind title order words status nil) = false
has_children (unit id kind title order words status (cons n ns)) = true

abbrev with_children : Node → Nodes → Node
with_children (unit id kind title order words status old) ns =
    unit id kind title order words status ns

abbrev other_than : String → Concept → Bool
other_than root_id c = not (str_eq c.id root_id)

-- The units without a parent become the children of a root that has none.
abbrev tree_of : ℕ → Node → Nodes → Tree
tree_of now root loose =
    if has_children root
    then record { root = some root; orphans = loose; updated_at = now }
    else record { root = some (with_children root loose); orphans = nil; updated_at = now }

abbrev root_id_of : Option Tale → Option String
root_id_of none = none
root_id_of (some t) = truthy t.structural_root_id

unfoldable pub build_tree : ℕ → ℕ → Folder → Option Tree
unfolding get_tale list_concepts node each children_of keep get_concept
build_tree limit now d =
    let units = list_concepts (some structural_unit) none d in
    elim (root_id_of (get_tale d)) [
      | none ↦ some (record { root = none; orphans = nil; updated_at = now })
      | some r ↦
          let loose =
            each (λ k. node limit units k) (keep (other_than r) (children_of units none)) in
          elim (get_concept r d) [
            | none ↦ Option.map (λ ns. record { root = none; orphans = ns; updated_at = now }) loose
            | some c ↦ elim (node limit units c) [
              | none ↦ none
              | some root ↦ Option.map (tree_of now root) loose
            ]
          ]
    ]

-- The folder with the tree written, or as it was and the `RecursionError`.
unfoldable pub rebuild_hierarchy : ℕ → ℕ → Folder → Bool × Folder
unfolding build_tree
rebuild_hierarchy limit now d = elim (build_tree limit now d) [
  | none ↦ (false, d)
  | some t ↦ (true, record d { hierarchy = some (holds t) })
]

-- Nothing is given of a missing tale, and of a tree that cannot be built.
unfoldable pub get_hierarchy : ℕ → ℕ → Folder → Option Tree × Folder
unfolding build_tree rebuild_hierarchy get_tale
get_hierarchy limit now d = elim d.hierarchy [
  | none ↦ (elim (get_tale d) [
    | none ↦ (none, d)
    | some t ↦ (build_tree limit now d, (rebuild_hierarchy limit now d).1)
  ])
  | some unreadable ↦ (build_tree limit now d, (rebuild_hierarchy limit now d).1)
  | some (holds t) ↦ (some t, d)
]
