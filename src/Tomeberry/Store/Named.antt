-- ===== src/Tomeberry/Store/Named.antt =====
-- app/apps/tomeberry/store.py: the names of the files of concepts.
use ai_job_server.Prelude.{
  ℕ, ◌≡◌, refl, sym, subst, String, str_eq, eq_iff, none, some, List, [], ◌∷◌, map, if_ind, All,
  arith, Bool-cases, inl, inr,
}
use ai_job_server.Prelude.Dict.{Dict, get, put, pop, has, add, discard}
use ai_job_server.Prelude.Names.{NoDup, NoDup-add, NoDup-discard}
use ai_job_server.Tomeberry.{
  File, unreadable, holds, read, Concept, Folder, touch_tale, get_concept, write_concept,
}
use ai_job_server.Tomeberry.Hierarchy.{rebuild_hierarchy, list_concepts}
use ai_job_server.Tomeberry.Store.{Times, finish, drop_links, delete_concept}

abbrev pub names {ℓ} : {A : Type ℓ} → Dict A → List String
names files = map (λ e. e.0) files

abbrev pub Named : String × File Concept → Type 0
Named (k, unreadable) = Unit
Named (k, holds c) = c.id ≡ k

-- No two files have one name, and a concept is in the file of its id.
pub record IsNamed (d : Folder) : Type 0 where
  pub distinct : NoDup (names d.concepts)
  pub named : All Named d.concepts

module _ {ℓ} {A : Type ℓ} where
  names-put : (k : String) (v : A) (d : Dict A) → names (put k v d) ≡ add k (names d)
  unfolding put add has
  names-put k v [] = refl
  names-put k v ((j, w) ∷ d) = ground (arith, names-put k v d, eq_iff j k)

  names-pop : (k : String) (d : Dict A) → names (pop k d) ≡ discard k (names d)
  unfolding pop discard
  names-pop k [] = refl
  names-pop k ((j, w) ∷ d) = ground (arith, names-pop k d)

  All-put {κ} :
      (P : String × A → Type κ) (k : String) (v : A) (d : Dict A)
      → P (k, v)
      → All P d
      → All P (put k v d)
  unfolding put
  All-put P k v [] p h = (p, tt)
  All-put P k v ((j, w) ∷ d) p h =
      if_ind (All P) (str_eq j k) (λ _. (p, h.1)) (λ _. (h.0, All-put P k v d p h.1))

  All-pop {κ} : (P : String × A → Type κ) (k : String) (d : Dict A) → All P d → All P (pop k d)
  unfolding pop
  All-pop P k [] h = tt
  All-pop P k ((j, w) ∷ d) h =
      if_ind (All P) (str_eq j k) (λ _. All-pop P k d h.1) (λ _. (h.0, All-pop P k d h.1))

pub write_concept-IsNamed :
    (c : Concept) (d : Folder) (k : String) → c.id ≡ k → IsNamed d → IsNamed (write_concept k c d)
unfolding write_concept
write_concept-IsNamed c d k e n = record {
  distinct =
      subst NoDup (sym (names-put k (holds c) d.concepts))
        (NoDup-add k (names d.concepts) n.distinct);
  named = All-put Named k (holds c) d.concepts e n.named;
}

pub pop-IsNamed :
    (k : String) (d : Folder) → IsNamed d → IsNamed (record d { concepts = pop k d.concepts })
pop-IsNamed k d n = record {
  distinct =
      subst NoDup (sym (names-pop k d.concepts)) (NoDup-discard k (names d.concepts) n.distinct);
  named = All-pop Named k d.concepts n.named;
}

-- A concept that is read has the name of its file.
Named-get :
    (k : String) (files : Dict (File Concept)) (c : Concept)
    → All Named files
    → read (get k files) ≡ some c
    → c.id ≡ k
unfolding get
Named-get k [] c h e = cc
Named-get k ((j, unreadable) ∷ files) c h e = elim (Bool-cases (str_eq j k)) [
  | inl q ↦ cc (rw q at e)
  | inr q ↦ Named-get k files c h.1 (rw q at e)
]
Named-get k ((j, holds b) ∷ files) c h e = elim (Bool-cases (str_eq j k)) [
  | inl q ↦ ground (arith, e, q, h.0, eq_iff j k)
  | inr q ↦ Named-get k files c h.1 (rw q at e)
]

pub get_concept-Named :
    (k : String) (d : Folder) (c : Concept) → IsNamed d → get_concept k d ≡ some c → c.id ≡ k
unfolding get_concept
get_concept-Named k d c n e = Named-get k d.concepts c n.named e

-- What leaves the files of concepts as they are.
pub rebuild_hierarchy-concepts :
    (limit now : ℕ) (d : Folder) → (rebuild_hierarchy limit now d).1.concepts ≡ d.concepts
unfolding rebuild_hierarchy
rebuild_hierarchy-concepts limit now d = ground arith

pub touch_tale-concepts : (now : ℕ) (d : Folder) → (touch_tale now d).concepts ≡ d.concepts
unfolding touch_tale
touch_tale-concepts now d = ground arith

pub finish-concepts :
    (limit : ℕ) (times : Times) (c : Concept) (d : Folder)
    → (finish limit times c d).1.concepts ≡ d.concepts
unfolding finish
finish-concepts limit times c d = ground (
  arith,
  rebuild_hierarchy-concepts limit times.rebuilt d,
  touch_tale-concepts times.touched (rebuild_hierarchy limit times.rebuilt d).1,
)

pub IsNamed-concepts : (d e : Folder) → e.concepts ≡ d.concepts → IsNamed d → IsNamed e
IsNamed-concepts d e h n = record { distinct = rw h n.distinct; named = rw h n.named }

-- The file is removed, and then the links to it.
abbrev pub dropped : String → Folder → Folder
dropped cid d =
    let e = record d { concepts = pop cid d.concepts } in
    drop_links cid (list_concepts none none e) e

pub delete_concept-concepts :
    (limit : ℕ) (times : Times) (cid : String) (d : Folder) {f : File Concept}
    → get cid d.concepts ≡ some f
    → (delete_concept limit times cid d).1.concepts ≡ (dropped cid d).concepts
unfolding delete_concept
delete_concept-concepts limit times cid d e =
    let r = rebuild_hierarchy limit times.rebuilt (dropped cid d) in
    ground (
      arith,
      e,
      rebuild_hierarchy-concepts limit times.rebuilt (dropped cid d),
      touch_tale-concepts times.touched (dropped cid d),
      touch_tale-concepts times.touched r.1,
    )
