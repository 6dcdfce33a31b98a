-- ===== src/Tomeberry/Hierarchy/Listing.antt =====
-- app/apps/tomeberry/store.py: the ids in listings of concepts.
use ai_job_server.Prelude.{
  ◌≡◌, refl, sym, ◌∙◌, String, str_eq, eq_iff, Bool, true, ◌&&◌, ◌||◌, Option, none, some, List, [],
  ◌∷◌, map, arith, Bool-cases, inl, inr, keep, any,
}
use ai_job_server.Prelude.Dict.{Dict, get, has}
use ai_job_server.Prelude.Names.{has-cons}
use ai_job_server.Prelude.Sort.{sort, insert}
use ai_job_server.Tomeberry.{
  File, unreadable, holds, read, Concept, structural_unit, same_class, Folder, get_concept,
}
use ai_job_server.Tomeberry.Hierarchy.{before, readable, list_concepts, is_child, children_of}

abbrev pub ids : List Concept → List String
ids cs = map (λ c. c.id) cs

has-insert :
    (k : String) (c : Concept) (cs : List Concept)
    → has k (ids (insert before c cs)) ≡ has k (c.id ∷ ids cs)
unfolding insert
has-insert k c [] = refl
has-insert k c (b ∷ cs) = elim (Bool-cases (before c b)) [
  | inl e ↦ rw e refl
  | inr e ↦ rw e (
      ground (
        arith,
        has-insert k c cs,
        has-cons k b.id (ids (insert before c cs)),
        has-cons k c.id (ids cs),
        has-cons k c.id (b.id ∷ ids cs),
        has-cons k b.id (ids cs),
      ))
]

pub has-sort : (k : String) (cs : List Concept) → has k (ids (sort before cs)) ≡ has k (ids cs)
unfolding sort
has-sort k [] = refl
has-sort k (c ∷ cs) =
    has-insert k c (sort before cs)
    ∙ ground
        (arith, has-sort k cs, has-cons k c.id (ids (sort before cs)), has-cons k c.id (ids cs))

has-keep :
    (p : Concept → Bool) (k : String) (cs : List Concept)
    → has k (ids (keep p cs)) ≡ true
    → has k (ids cs) ≡ true
unfolding keep
has-keep p k [] h = h
has-keep p k (c ∷ cs) h =
    ground (arith, has-keep p k cs, has-cons k c.id (ids cs), has-cons k c.id (ids (keep p cs)), h)

-- A child of a unit is one of the units.
pub has-children_of :
    (units : List Concept) (p : Option String) (k : String)
    → has k (ids (children_of units p)) ≡ true
    → has k (ids units) ≡ true
unfolding children_of
has-children_of units p k h =
    has-keep (is_child p) k units (sym (has-sort k (keep (is_child p) units)) ∙ h)

any-insert :
    (w : Concept → Bool) (c : Concept) (cs : List Concept)
    → any w (insert before c cs) ≡ (w c || any w cs)
unfolding insert any
any-insert w c [] = refl
any-insert w c (b ∷ cs) = ground (arith, any-insert w c cs)

any-sort : (w : Concept → Bool) (cs : List Concept) → any w (sort before cs) ≡ any w cs
unfolding sort any
any-sort w [] = refl
any-sort w (c ∷ cs) = any-insert w c (sort before cs) ∙ ground (arith, any-sort w cs)

any-keep :
    (w p : Concept → Bool) (cs : List Concept)
    → ((c : Concept) → w c ≡ true → p c ≡ true)
    → any w cs ≡ true
    → any w (keep p cs) ≡ true
unfolding keep any
any-keep w p [] f h = h
any-keep w p (c ∷ cs) f h = ground (arith, any-keep w p cs f, h, f c)

has-any :
    (w : Concept → Bool) (k : String) (cs : List Concept)
    → ((c : Concept) → w c ≡ true → c.id ≡ k)
    → any w cs ≡ true
    → has k (ids cs) ≡ true
unfolding any
has-any w k [] f h = cc
has-any w k (c ∷ cs) f h =
    ground (arith, has-any w k cs f, h, f c, has-cons k c.id (ids cs), eq_iff c.id k)

any-readable :
    (w : Concept → Bool) (k : String) (c : Concept) (files : Dict (File Concept))
    → read (get k files) ≡ some c
    → w c ≡ true
    → any w (readable files) ≡ true
unfolding get readable any
any-readable w k c [] h q = cc
any-readable w k c ((j, unreadable) ∷ files) h q = ground (arith, any-readable w k c files, h, q)
any-readable w k c ((j, holds b) ∷ files) h q = ground (arith, any-readable w k c files, h, q)

abbrev is_unit_below : String → String → Concept → Bool
is_unit_below p k c =
    str_eq c.id k && (is_child (some p) c && same_class c.concept_class structural_unit)

-- A unit that is read is a child of its parent.
pub listed-child :
    (p k : String) (c : Concept) (d : Folder)
    → get_concept k d ≡ some c
    → c.id ≡ k
    → c.parent_id ≡ some p
    → c.concept_class ≡ structural_unit
    → has k (ids (children_of (list_concepts (some structural_unit) none d) (some p))) ≡ true
unfolding get_concept list_concepts children_of
listed-child p k c d h i q u =
    let w = is_unit_below p k in
    let first =
      any-readable w k c d.concepts h (ground (arith, i, q, u, eq_iff c.id k, eq_iff p p)) in
    let units =
      keep (λ (x : Concept). same_class x.concept_class structural_unit && true)
        (readable d.concepts) in
    let second =
      any-sort w units ∙ any-keep w _ (readable d.concepts) (λ x y. ground (arith, y)) first in
    let third =
      any-keep w (is_child (some p)) (sort before units) (λ x y. ground (arith, y)) second in
    let fourth = any-sort w (keep (is_child (some p)) (sort before units)) ∙ third in
    has-any w k _ (λ x y. ground (arith, y, eq_iff x.id k)) fourth
