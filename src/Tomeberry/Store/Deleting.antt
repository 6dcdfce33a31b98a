-- ===== src/Tomeberry/Store/Deleting.antt =====
-- app/apps/tomeberry/store.py: what `delete_concept` does to the other concepts.
use mathlib.Core.Option
use ai_job_server.Prelude.{
  ℕ, ◌==◌, ◌≡◌, ◌⊎◌, refl, sym, ap, ◌∙◌, String, str_eq, eq_iff, Bool, true, false, none, some,
  List, [], ◌∷◌, if◌then◌else◌, All, All-imp, arith, Bool-cases, inl, inr, keep, length,
  length-keep-le,
}
use ai_job_server.Prelude.Dict.{Dict, get, pop, has, get-put, get-pop}
use ai_job_server.Prelude.Names.{NoDup, has-cons, has-nil}
use ai_job_server.Prelude.Sort.{sort, sort_permᴰ, Permᴰ-sym, All-Permᴰ}
use ai_job_server.Tomeberry.{
  File, unreadable, holds, read, Concept, Folder, get_concept, write_concept,
}
use ai_job_server.Tomeberry.Hierarchy.Listing.{ids, has-sort}
use ai_job_server.Tomeberry.Hierarchy.{before, readable, list_concepts}
use ai_job_server.Tomeberry.Store.{
  Times, points_elsewhere, without_target, drop_links, delete_concept,
}
use ai_job_server.Tomeberry.Store.Named.{
  IsNamed, Named, names, pop-IsNamed, delete_concept-concepts,
}

keep-id {ℓ} :
    {A : Type ℓ} (p : A → Bool) (xs : List A)
    → (length (keep p xs) == length xs) ≡ true
    → keep p xs ≡ xs
unfolding keep
keep-id p [] h = refl
keep-id p (x ∷ xs) h = ground (arith, keep-id p xs, length-keep-le p xs)

keep-true {ℓ} : {A : Type ℓ} (xs : List A) → keep (λ x. true) xs ≡ xs
unfolding keep
keep-true [] = refl
keep-true (x ∷ xs) = rw (keep-true xs)

list_concepts-all : (d : Folder) → list_concepts none none d ≡ sort before (readable d.concepts)
unfolding list_concepts
list_concepts-all d = rw (keep-true (readable d.concepts))

absent :
    (k : String) (files : Dict (File Concept))
    → All Named files
    → has k (ids (readable files)) ≡ false
    → read (get k files) ≡ none
unfolding get readable
absent k [] n h = refl
absent k ((j, unreadable) ∷ files) n h = ground (arith, absent k files n.1 h)
absent k ((j, holds c) ∷ files) n h =
    ground (arith, absent k files n.1, has-cons k c.id (ids (readable files)), n.0, h)

All-Named :
    (files : Dict (File Concept))
    → All Named files
    → All (λ c. has c.id (names files) ≡ true) (readable files)
unfolding readable
All-Named [] n = tt
All-Named ((j, unreadable) ∷ files) n =
    All-imp _ _ (readable files) (λ c h. ground (arith, has-cons c.id j (names files), h))
      (All-Named files n.1)
All-Named ((j, holds b) ∷ files) n = (
  ground (arith, has-cons b.id j (names files), eq_iff j b.id, n.0),
  All-imp _ _ (readable files) (λ c h. ground (arith, has-cons c.id j (names files), h))
      (All-Named files n.1),
)

later :
    (j : String) (f : File Concept) (files : Dict (File Concept))
    → NoDup (j ∷ names files)
    → All (λ c. has c.id (names files) ≡ true) (readable files)
    → All (λ c. read (get c.id files) ≡ some c) (readable files)
    → All (λ c. read (get c.id ((j, f) ∷ files)) ≡ some c) (readable files)
unfolding get
later j f files u m h = both (readable files) m h
  where
    both :
        (cs : List Concept)
        → All (λ c. has c.id (names files) ≡ true) cs
        → All (λ c. read (get c.id files) ≡ some c) cs
        → All (λ c. read (get c.id ((j, f) ∷ files)) ≡ some c) cs
    both [] m h = tt
    both (c ∷ cs) m h = (ground (arith, eq_iff j c.id, m.0, h.0, u.0), both cs m.1 h.1)

-- Every concept that can be read is what its id reads.
All-read :
    (files : Dict (File Concept))
    → NoDup (names files)
    → All Named files
    → All (λ c. read (get c.id files) ≡ some c) (readable files)
unfolding get readable
All-read [] u n = tt
All-read ((j, unreadable) ∷ files) u n =
    later j unreadable files u (All-Named files n.1) (All-read files u.1 n.1)
All-read ((j, holds b) ∷ files) u n = (
  ground (arith, eq_iff j b.id, n.0),
  later j (holds b) files u (All-Named files n.1) (All-read files u.1 n.1),
)

All-listed :
    (d : Folder) → IsNamed d → All (λ c. get_concept c.id d ≡ some c) (list_concepts none none d)
unfolding get_concept
All-listed d n = rw (list_concepts-all d) (
    All-Permᴰ _ (Permᴰ-sym (sort_permᴰ before (readable d.concepts)))
      (All-read d.concepts n.distinct n.named))

get_concept-write_concept :
    (k j : String) (c : Concept) (d : Folder)
    → get_concept k (write_concept j c d) ≡ (if str_eq j k then some c else get_concept k d)
unfolding get_concept write_concept
get_concept-write_concept k j c d = ground (arith, get-put j k (holds c) d.concepts)

-- During the loop over the concepts `cs` a file holds what it held first, if it is to be visited, or
-- that without its links to the deleted concept.
abbrev IsDropped : String → Folder → List Concept → Folder → Type 0
IsDropped cid d cs e =
    (k : String)
    → (get_concept k e ≡ Option.map (without_target cid) (get_concept k d))
      ⊎ ((get_concept k e ≡ get_concept k d) × (has k (ids cs) ≡ true))

without_none :
    (cid : String) (c : Concept)
    → (length (without_target cid c).links == length c.links) ≡ true
    → without_target cid c ≡ c
unfolding without_target
without_none cid c h = ap (λ ls. record c { links = ls }) (keep-id (points_elsewhere cid) c.links h)

visit :
    (cid : String) (d : Folder) (c : Concept) (cs : List Concept) (e : Folder)
    → get_concept c.id d ≡ some c
    → IsDropped cid d (c ∷ cs) e
    → IsDropped cid d cs (
        if length (without_target cid c).links == length c.links
        then e
        else write_concept c.id (without_target cid c) e)
visit cid d c cs e g h k =
    let w = get_concept-write_concept k c.id (without_target cid c) e in
    let i = has-cons k c.id (ids cs) in
    ground (arith, w, i, h k, without_none cid c, eq_iff c.id k, g)

drop_links-IsDropped :
    (cid : String) (d : Folder) (cs : List Concept) (e : Folder)
    → All (λ c. get_concept c.id d ≡ some c) cs
    → IsDropped cid d cs e
    → (k : String)
    → get_concept k (drop_links cid cs e) ≡ Option.map (without_target cid) (get_concept k d)
unfolding drop_links
drop_links-IsDropped cid d [] e g h k = ground (arith, h k, has-nil k)
drop_links-IsDropped cid d (c ∷ cs) e g h k =
    drop_links-IsDropped cid d cs _ g.1 (visit cid d c cs e g.0 h) k

first_IsDropped :
    (cid : String) (d : Folder) → IsNamed d → IsDropped cid d (list_concepts none none d) d
unfolding get_concept
first_IsDropped cid d n k =
    let listed = ap (has k) (ap ids (list_concepts-all d)) ∙ has-sort k (readable d.concepts) in
    elim (Bool-cases (has k (ids (readable d.concepts)))) [
      | inl e ↦ inr (refl, listed ∙ e)
      | inr e ↦
          let gone = absent k d.concepts n.named e in
          inl (gone ∙ sym (ap (Option.map (without_target cid)) gone))
    ]

-- After the deletion of a concept whose file is there, in a folder in which files are named by the
-- ids of their concepts, the concept cannot be read, and every other concept reads as before but for
-- its links to the deleted one, all of which are gone.
pub get_concept-delete_concept :
    (limit : ℕ) (times : Times) (cid : String) (d : Folder) (f : File Concept) (k : String)
    → IsNamed d
    → get cid d.concepts ≡ some f
    → get_concept k (delete_concept limit times cid d).1
      ≡ (if str_eq cid k then none else Option.map (without_target cid) (get_concept k d))
unfolding get_concept
get_concept-delete_concept limit times cid d f k n e =
    let r = record d { concepts = pop cid d.concepts } in
    let m = pop-IsNamed cid d n in
    let dropped_lem =
      drop_links-IsDropped cid r (list_concepts none none r) r (All-listed r m)
        (first_IsDropped cid r m) k in
    ap (λ files. read (get k files)) (delete_concept-concepts limit times cid d e)
    ∙ dropped_lem
    ∙ ground (arith, get-pop cid k d.concepts)
