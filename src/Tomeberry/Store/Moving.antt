-- ===== src/Tomeberry/Store/Moving.antt =====
-- app/apps/tomeberry/store.py: a move of the root of a tale below itself.
use ai_job_server.Prelude.{ℕ, ◌≡◌, ◌≢◌, refl, sym, subst, String, eq_iff, false, none, some, arith}
use ai_job_server.Prelude.Dict.{get-put}
use ai_job_server.Tomeberry.{
  holds, Concept, structural_unit, Tale, Folder, get_tale, get_concept, write_concept,
}
use ai_job_server.Tomeberry.Hierarchy.{list_concepts, build_tree, rebuild_hierarchy}
use ai_job_server.Tomeberry.Hierarchy.Listing.{listed-child}
use ai_job_server.Tomeberry.Hierarchy.Below.{Below}
use ai_job_server.Tomeberry.Hierarchy.Depth.{node-none}
use ai_job_server.Tomeberry.Store.{Times, raised, moved, finish, move_concept}
use ai_job_server.Tomeberry.Store.Named.{IsNamed, get_concept-Named}

-- No tree can be built of a folder in which the root lies below itself.
build_tree-none :
    (limit now : ℕ) (d : Folder) (t : Tale) (r : String) (c : Concept)
    → get_tale d ≡ some t
    → t.structural_root_id ≡ some r
    → r ≢ ""
    → get_concept r d ≡ some c
    → c.id ≡ r
    → Below (list_concepts (some structural_unit) none d) r r
    → build_tree limit now d ≡ none
unfolding build_tree
build_tree-none limit now d t r c et er ne ec i b =
    let gone =
      node-none (list_concepts (some structural_unit) none d) limit c r b
        (subst (λ x. Below (list_concepts (some structural_unit) none d) x r) (sym i) b) in
    ground (arith, et, er, ne, ec, gone, eq_iff r "")

abbrev pub IsStuck : Folder → Type 0
IsStuck d = (limit now : ℕ) → rebuild_hierarchy limit now d ≡ (false, d)

stuck :
    (d : Folder) (t : Tale) (r : String) (c : Concept)
    → get_tale d ≡ some t
    → t.structural_root_id ≡ some r
    → r ≢ ""
    → get_concept r d ≡ some c
    → c.id ≡ r
    → Below (list_concepts (some structural_unit) none d) r r
    → IsStuck d
unfolding rebuild_hierarchy
stuck d t r c et er ne ec i b limit now =
    ground (arith, build_tree-none limit now d t r c et er ne ec i b)

result :
    (limit : ℕ) (times : Times) (r : String) (order : ℕ) (d : Folder) (c : Concept)
    → get_concept r d ≡ some c
    → (let e = write_concept r (moved times.now (some r) order c) d in
        rebuild_hierarchy limit times.rebuilt e ≡ (false, e)
        → move_concept limit times r (some r) order d ≡ (raised, e))
unfolding move_concept finish
result limit times r order d c ec q = ground (arith, ec, q)

-- A move of the root of a tale below itself, if the root is a readable unit in a folder in which files
-- are named by the ids of their concepts, writes the new parent and raises a `RecursionError` at any
-- limit; in the folder that it leaves, every later attempt to build the tree raises too.
pub move_concept-IsStuck :
    (limit : ℕ) (times : Times) (r : String) (order : ℕ) (d : Folder) (t : Tale) (c : Concept)
    → IsNamed d
    → get_tale d ≡ some t
    → t.structural_root_id ≡ some r
    → r ≢ ""
    → get_concept r d ≡ some c
    → c.concept_class ≡ structural_unit
    → (let after = move_concept limit times r (some r) order d in
        (after.0 ≡ raised)
        × (get_concept r after.1 ≡ some (moved times.now (some r) order c))
        × IsStuck after.1)
move_concept-IsStuck limit times r order d t c n et er ne ec u =
    let new = moved times.now (some r) order c in
    let e = write_concept r new d in
    let i = get_concept-Named r d c n ec in
    let got : get_concept r e ≡ some new =
      unfold get_concept write_concept in
      ground (arith, get-put r r (holds new) d.concepts, eq_iff r r) in
    let below =
      Below.child (
        listed-child r r new e got (unfold moved in i) (unfold moved in refl)
          (unfold moved in u)) in
    let s =
      stuck e t r new (unfold get_tale write_concept in et) er ne got (unfold moved in i) below in
    let q = result limit times r order d c ec (s limit times.rebuilt) in
    subst (λ m. (m.0 ≡ raised) × (get_concept r m.1 ≡ some new) × IsStuck m.1) (sym q)
      (refl, got, s)
