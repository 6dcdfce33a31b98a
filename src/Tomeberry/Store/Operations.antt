-- ===== src/Tomeberry/Store/Operations.antt =====
-- app/apps/tomeberry/store.py: sequences of operations on the folder of a tale.
use ai_job_server.Prelude.{
  ℕ, ◌≡◌, refl, ◌∙◌, String, Option, none, some, List, [], ◌∷◌, if_ind, Option-cases, inl, inr,
  arith,
}
use ai_job_server.Prelude.Dict.{get, pop}
use ai_job_server.TextDiff.{Text}
use ai_job_server.Tomeberry.{
  holds, Concept, structural_unit, same_class, Link, HistoryEntry, Folder, Texts, get_tale,
  touch_tale, get_concept, write_concept,
}
use ai_job_server.Tomeberry.Hierarchy.{rebuild_hierarchy, list_concepts}
use ai_job_server.Tomeberry.Store.{
  Times, Outcome, Fields, Patch, new_concept, finish, create_concept, patched, rewrite,
  update_concept, linked, unlinked, add_link, remove_link, moved, move_concept, without_target,
  drop_links, delete_concept,
}
use ai_job_server.Tomeberry.Store.Named.{
  IsNamed, IsNamed-concepts, write_concept-IsNamed, pop-IsNamed, get_concept-Named,
  rebuild_hierarchy-concepts, touch_tale-concepts, finish-concepts, dropped,
  delete_concept-concepts,
}
use ai_job_server.Tomeberry.Tales.{
  TaleFields, TalePatch, create_tale, update_tale, root_of, premise_of, tale_of, no_files,
}

-- The operations of the store that write, with the readings of the clock.
pub data Operation : Type 0 where
  creates : (times : Times) (cid : String) → Fields → Operation
  updates : (times : Times) (cid : String) → Patch → Option HistoryEntry → Operation
  deletes : (times : Times) (cid : String) → Operation
  moves : (times : Times) (cid : String) (parent_id : Option String) (order : ℕ) → Operation
  links : (times : Times) (cid : String) → Link → Operation
  unlinks : (times : Times) (cid rel target : String) → Operation
  retitles : (now : ℕ) → TalePatch → Operation
  rebuilds : (now : ℕ) → Operation

module _ (texts : Texts) (limit : ℕ) where
  unfoldable pub apply : Operation → Folder → Folder
  unfolding create_concept update_concept delete_concept move_concept add_link remove_link
      update_tale rebuild_hierarchy
  apply (Operation.creates times cid fields) d = (create_concept texts limit times cid fields d).1
  apply (Operation.updates times cid p h) d = (update_concept texts times cid p h d).1
  apply (Operation.deletes times cid) d = (delete_concept limit times cid d).1
  apply (Operation.moves times cid p order) d = (move_concept limit times cid p order d).1
  apply (Operation.links times cid l) d = (add_link times cid l d).1
  apply (Operation.unlinks times cid rel target) d = (remove_link times cid rel target d).1
  apply (Operation.retitles now p) d = (update_tale now p d).1
  apply (Operation.rebuilds now) d = (rebuild_hierarchy limit now d).1

  unfoldable pub apply_all : List Operation → Folder → Folder
  unfolding apply
  apply_all [] d = d
  apply_all (o ∷ os) d = apply_all os (apply o d)

touch-IsNamed : (now : ℕ) (d : Folder) → IsNamed d → IsNamed (touch_tale now d)
touch-IsNamed now d = IsNamed-concepts d (touch_tale now d) (touch_tale-concepts now d)

finish-IsNamed :
    (limit : ℕ) (times : Times) (c : Concept) (d : Folder)
    → IsNamed d
    → IsNamed (finish limit times c d).1
finish-IsNamed limit times c d =
    IsNamed-concepts d (finish limit times c d).1 (finish-concepts limit times c d)

rebuild-IsNamed :
    (limit now : ℕ) (d : Folder) → IsNamed d → IsNamed (rebuild_hierarchy limit now d).1
rebuild-IsNamed limit now d =
    IsNamed-concepts d (rebuild_hierarchy limit now d).1 (rebuild_hierarchy-concepts limit now d)

rewrite-IsNamed :
    (times : Times) (cid : String) (f : Concept → Concept) (d : Folder)
    → ((c : Concept) → (f c).id ≡ c.id)
    → IsNamed d
    → IsNamed (rewrite times cid f d).1
unfolding rewrite
rewrite-IsNamed times cid f d same n = elim (Option-cases (get_concept cid d)) [
  | inl e ↦ rw (e, rewrite) n
  | inr (c, e) ↦
      rw (e, rewrite)
        (touch-IsNamed times.touched (write_concept cid (f c) d)
          (write_concept-IsNamed (f c) d cid (same c ∙ get_concept-Named cid d c n e) n))
]

create_concept-IsNamed :
    (texts : Texts) (limit : ℕ) (times : Times) (cid : String) (fields : Fields) (d : Folder)
    → IsNamed d
    → IsNamed (create_concept texts limit times cid fields d).1
unfolding create_concept
create_concept-IsNamed texts limit times cid fields d n = elim (Option-cases (get_tale d)) [
  | inl e ↦ rw (e, create_concept) n
  | inr (t, e) ↦
      let c = new_concept texts times.now cid fields d in
      let w = write_concept-IsNamed c d cid (unfold new_concept in refl) n in
      rw (e, create_concept)
        (if_ind (λ (r : Outcome × Folder). IsNamed r.1)
          (same_class fields.concept_class structural_unit)
          (λ _. finish-IsNamed limit times c (write_concept cid c d) w)
          (λ _. touch-IsNamed times.touched (write_concept cid c d) w))
]

move_concept-IsNamed :
    (limit : ℕ) (times : Times) (cid : String) (p : Option String) (order : ℕ) (d : Folder)
    → IsNamed d
    → IsNamed (move_concept limit times cid p order d).1
unfolding move_concept
move_concept-IsNamed limit times cid p order d n = elim (Option-cases (get_concept cid d)) [
  | inl e ↦ rw (e, move_concept) n
  | inr (c, e) ↦
      let new = moved times.now p order c in
      rw (e, move_concept)
        (finish-IsNamed limit times new (write_concept cid new d)
          (write_concept-IsNamed new d cid (unfold moved in get_concept-Named cid d c n e) n))
]

pub drop_links-IsNamed :
    (cid : String) (cs : List Concept) (d : Folder) → IsNamed d → IsNamed (drop_links cid cs d)
unfolding drop_links
drop_links-IsNamed cid [] d n = n
drop_links-IsNamed cid (c ∷ cs) d n = drop_links-IsNamed cid cs _ (
    if_ind IsNamed _ (λ _. n)
      (λ _. write_concept-IsNamed (without_target cid c) d c.id (unfold without_target in refl) n))

delete_concept-IsNamed :
    (limit : ℕ) (times : Times) (cid : String) (d : Folder)
    → IsNamed d
    → IsNamed (delete_concept limit times cid d).1
unfolding delete_concept
delete_concept-IsNamed limit times cid d n = elim (Option-cases (get cid d.concepts)) [
  | inl e ↦ rw (e, delete_concept) n
  | inr (f, e) ↦
      let r = record d { concepts = pop cid d.concepts } in
      IsNamed-concepts (dropped cid d) (delete_concept limit times cid d).1
        (delete_concept-concepts limit times cid d e)
        (drop_links-IsNamed cid (list_concepts none none r) r (pop-IsNamed cid d n))
]

apply-IsNamed :
    (texts : Texts) (limit : ℕ) (o : Operation) (d : Folder)
    → IsNamed d
    → IsNamed (apply texts limit o d)
unfolding apply
apply-IsNamed texts limit (Operation.creates times cid fields) d n =
    create_concept-IsNamed texts limit times cid fields d n
apply-IsNamed texts limit (Operation.updates times cid p h) d n =
    unfold update_concept in
    rewrite-IsNamed times cid (patched texts times.now p h) d (λ c. unfold patched in refl) n
apply-IsNamed texts limit (Operation.deletes times cid) d n =
    delete_concept-IsNamed limit times cid d n
apply-IsNamed texts limit (Operation.moves times cid p order) d n =
    move_concept-IsNamed limit times cid p order d n
apply-IsNamed texts limit (Operation.links times cid l) d n =
    unfold add_link in
    rewrite-IsNamed times cid (linked times.now l) d (λ c. unfold linked in refl) n
apply-IsNamed texts limit (Operation.unlinks times cid rel target) d n =
    unfold remove_link in
    rewrite-IsNamed times cid (unlinked times.now rel target) d (λ c. unfold unlinked in refl) n
apply-IsNamed texts limit (Operation.retitles now p) d n =
    IsNamed-concepts d (update_tale now p d).1 (unfold update_tale in ground arith) n
apply-IsNamed texts limit (Operation.rebuilds now) d n = rebuild-IsNamed limit now d n

keeps :
    (texts : Texts) (limit : ℕ) (os : List Operation) (d : Folder)
    → IsNamed d
    → IsNamed (apply_all texts limit os d)
unfolding apply_all
keeps texts limit [] d n = n
keeps texts limit (o ∷ os) d n =
    keeps texts limit os (apply texts limit o d) (apply-IsNamed texts limit o d n)

-- After any operations on a tale that was created, whether or not a tree could be built, no two files
-- of concepts have one name, and every concept that can be read is in the file that its id names.
pub apply_all-IsNamed :
    (codes : String → Text) (texts : Texts) (limit : ℕ) (times : Times)
    (tale_id root_id premise_id : String) (fields : TaleFields) (os : List Operation)
    → IsNamed (
        apply_all texts limit os
          (create_tale codes texts limit times tale_id root_id premise_id fields).1)
unfolding create_tale
apply_all-IsNamed codes texts limit times tale_id root_id premise_id fields os =
    let root = root_of texts times.now root_id fields in
    let premise = premise_of codes texts times.now premise_id fields in
    let one =
      write_concept-IsNamed root no_files root_id refl (record { distinct = tt; named = tt }) in
    let two =
      write_concept-IsNamed premise (write_concept root_id root no_files) premise_id refl one in
    let d = write_concept premise_id premise (write_concept root_id root no_files) in
    let e = record d {
      tale = some (holds (tale_of texts times.now tale_id root_id premise_id fields));
    } in
    keeps texts limit os (rebuild_hierarchy limit times.rebuilt e).1
      (rebuild-IsNamed limit times.rebuilt e (IsNamed-concepts d e refl two))
