-- ===== src/Tickets/Ranks.antt =====
-- app/tickets/store.py: the order of the tickets, and what renumbering does to it.
use mathlib.Core.Path.{ap₂}
use mathlib.Core.List.{Permᴰ}
use ai_job_server.Prelude.{
  ℕ, ◌+◌, ◌≤◌, ◌<◌, ◌≡◌, ◌≢◌, refl, sym, ◌∙◌, ap, subst, some, List, [], ◌∷◌, map, arith, All,
  All-imp,
}
use ai_job_server.Prelude.Sort.{
  sort, IsOrder, IsSorted, IsDistinct, sort_permᴰ, sort_of_IsSorted, sort-Permᴰ, map-sort,
  Permᴰ-map, Permᴰ-sym, All-Permᴰ,
}
use ai_job_server.Tickets.{Ticket, Index, Object, rank, key_le, sorted, objects, place, renumbered}

pub key_le-IsOrder : IsOrder key_le
key_le-IsOrder = record { total = λ a b h. ground arith; trans = λ a b c h k. ground arith }

-- The tickets with the ranks n, n + 1, … in their order.
pub ranked : ℕ → Index → Index
ranked n [] = []
ranked n (e ∷ es) = record e { priority = some n } ∷ ranked (n + 1) es

abbrev RanksFrom : ℕ → Index → Type 0
RanksFrom n es = All (λ e. n ≤ rank e) es

ranked_from : (n m : ℕ) (es : Index) → n ≤ m → RanksFrom n (ranked m es)
unfolding ranked
ranked_from n m [] h = tt
ranked_from n m (e ∷ es) h = (h, ranked_from n (m + 1) es (omega arith))

ranked-IsSorted : (n : ℕ) (es : Index) → IsSorted key_le (ranked n es)
unfolding ranked
ranked-IsSorted n [] = tt
ranked-IsSorted n (e ∷ es) = (
  All-imp _ _ (ranked (n + 1) es) (λ x h. ground arith)
      (ranked_from (n + 1) (n + 1) es (omega arith)),
  ranked-IsSorted (n + 1) es,
)

ranked-IsDistinct : (n : ℕ) (es : Index) → IsDistinct key_le (ranked n es)
unfolding ranked
ranked-IsDistinct n [] = tt
ranked-IsDistinct n (e ∷ es) = (
  All-imp _ _ (ranked (n + 1) es) (λ x h. ground arith)
      (ranked_from (n + 1) (n + 1) es (omega arith)),
  ranked-IsDistinct (n + 1) es,
)

-- A list that holds the tickets of `ranked 0 es` in another order is sorted into it.
pub sorted-ranked : (es l : Index) → Permᴰ (ranked 0 es) l → sorted l ≡ ranked 0 es
unfolding sorted
sorted-ranked es l p =
    sym (sort-Permᴰ key_le key_le-IsOrder p (ranked-IsDistinct 0 es))
    ∙ sort_of_IsSorted key_le (ranked 0 es) (ranked-IsSorted 0 es)

-- Objects with distinct numbers.
abbrev AbsentFrom : ℕ → List Object → Type 0
AbsentFrom n os = All (λ o. o.0 ≢ n) os

abbrev AreDistinct : List Object → Type 0
AreDistinct [] = Unit
AreDistinct (o ∷ os) = AbsentFrom o.0 os × AreDistinct os

objects-above : (n m : ℕ) (es : Index) → n < m → AbsentFrom n (objects m es)
unfolding objects
objects-above n m [] h = tt
objects-above n m (e ∷ es) h = (λ p. omega arith, objects-above n (m + 1) es (omega arith))

objects-AreDistinct : (n : ℕ) (es : Index) → AreDistinct (objects n es)
unfolding objects
objects-AreDistinct n [] = tt
objects-AreDistinct n (e ∷ es) =
    (objects-above n (n + 1) es (omega arith), objects-AreDistinct (n + 1) es)

map-objects : (n : ℕ) (es : Index) → map (λ o. o.1) (objects n es) ≡ es
unfolding objects
map-objects n [] = refl
map-objects n (e ∷ es) = rw (map-objects (n + 1) es)

AreDistinct-Permᴰ : {l m : List Object} → Permᴰ l m → AreDistinct l → AreDistinct m
AreDistinct-Permᴰ Permᴰ.nil h = h
AreDistinct-Permᴰ (Permᴰ.cons {l₂ = m} e p) h =
    (subst (λ (o : Object). AbsentFrom o.0 m) e (All-Permᴰ _ p h.0), AreDistinct-Permᴰ p h.1)
AreDistinct-Permᴰ (Permᴰ.swap {a = a} {b = b} {l = l} e f) h = (
  (
    λ q. h.0.0 (ap (λ (o : Object). o.0) f ∙ sym q ∙ ap (λ (o : Object). o.0) (sym e)),
    subst (λ (o : Object). AbsentFrom o.0 l) f h.1.0,
  ),
  (subst (λ (o : Object). AbsentFrom o.0 l) e h.0.1, h.1.1),
)
AreDistinct-Permᴰ (Permᴰ.trans p q) h = AreDistinct-Permᴰ q (AreDistinct-Permᴰ p h)

map_cong : {A B : Type 0} (f g : A → B) (l : List A) → All (λ x. f x ≡ g x) l → map f l ≡ map g l
map_cong f g [] h = refl
map_cong f g (x ∷ l) h = rw (h.0, map_cong f g l h.1)

abbrev at_place : ℕ → List Object → Object → Ticket
at_place i order o = record (o.1) { priority = some (place i o.0 order) }

at_own_place :
    (i : ℕ) (o : Object) (os : List Object)
    → at_place i (o ∷ os) o ≡ record (o.1) { priority = some i }
unfolding place
at_own_place i o os = ground arith

at_place_later :
    (i : ℕ) (o : Object) (os l : List Object)
    → AbsentFrom o.0 l
    → All (λ x. at_place i (o ∷ os) x ≡ at_place (i + 1) os x) l
unfolding place
at_place_later i o os [] h = tt
at_place_later i o os (x ∷ l) h = (ground (arith, h.0), at_place_later i o os l h.1)

map-at_place :
    (i : ℕ) (os : List Object)
    → AreDistinct os
    → map (at_place i os) os ≡ ranked i (map (λ o. o.1) os)
unfolding ranked
map-at_place i [] h = refl
map-at_place i (o ∷ os) h =
    ap₂ (λ x l. x ∷ l) (at_own_place i o os)
      (map_cong _ _ os (at_place_later i o os os h.0) ∙ map-at_place (i + 1) os h.1)

-- After a renumbering the sorted list has the tickets in the order that it had before, with the
-- ranks 0, 1, 2, ….
pub sorted-renumbered : (es : Index) → sorted (renumbered es) ≡ ranked 0 (sorted es)
unfolding renumbered
sorted-renumbered es =
    let le = λ (a b : Object). key_le a.1 b.1 in
    let os = objects 0 es in
    let order = sort le os in
    let tickets : map (λ (o : Object). o.1) order ≡ sorted es =
      unfold sorted in
      map-sort key_le (λ (o : Object). o.1) os ∙ ap (sort key_le) (map-objects 0 es) in
    let moved = sort_permᴰ le os in
    let apart = AreDistinct-Permᴰ (Permᴰ-sym moved) (objects-AreDistinct 0 es) in
    sorted-ranked (sorted es) (map (at_place 0 order) os) (
      subst (λ l. Permᴰ l (map (at_place 0 order) os))
        (map-at_place 0 order apart ∙ ap (ranked 0) tickets) (Permᴰ-map (at_place 0 order) moved))
