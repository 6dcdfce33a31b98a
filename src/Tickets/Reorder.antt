-- ===== src/Tickets/Reorder.antt =====
-- app/tickets/store.py: what the list of tickets is after a reordering.
use mathlib.Core.List.{Permᴰ}
use ai_job_server.Prelude.{
  ℕ, ◌+◌, ◌≤◌, ◌<◌, ◌≡◌, ◌≢◌, ◌⊎◌, refl, sym, ◌∙◌, subst, String, Bool, true, false, none, some,
  List, [], ◌∷◌, map, arith, any, All, All-imp, leb, Bool-cases, inl, inr, eq_iff,
}
use ai_job_server.Prelude.Dict.{has}
use ai_job_server.Prelude.Names.{NoDup, All-has_self, Permᴰ_of_has, has-cons, has-nil}
use ai_job_server.Prelude.Sort.{
  IsOrder, IsSorted, IsDistinct, sort, sort_permᴰ, sort_of_IsSorted, sort-IsSorted, sort-Permᴰ,
  Permᴰ-map, Permᴰ-sym, All-Permᴰ,
}
use ai_job_server.Tickets.{
  Ticket, Index, ok, err, id_set_mismatch, rank, key_le, sorted, list_tickets, reorder_tickets,
  reprioritise, position, is_subset,
}
use ai_job_server.Tickets.Ranks.{key_le-IsOrder}

unfoldable pub id_of : Ticket → String
id_of e = e.id

subset_has :
    (k : String) (s t : List String) → is_subset s t ≡ true → has k s ≡ true → has k t ≡ true
unfolding has any
subset_has k [] t h e = cc
subset_has k (j ∷ s) t h e = ground (arith, subset_has k s t, eq_iff j k, h, e)

subset_fails :
    (s t : List String)
    → is_subset s t ≡ false
    → (k : String) × (has k s ≡ true) × (has k t ≡ false)
unfolding any
subset_fails [] t h = cc
subset_fails (j ∷ s) t h = elim (Bool-cases (has j t)) [
  | inl e ↦
      let r = subset_fails s t (rw e at h) in (r.0, ground (arith, has-cons r.0 j s, r.1), r.2)
  | inr e ↦ (j, ground (arith, has-cons j j s, eq_iff j j), e)
]

-- The place of a name, or 0.
abbrev pos : ℕ → List String → String → ℕ
pos i ids k = elim (position i k ids) [ none ↦ 0 | some n ↦ n ]

position_absent :
    (i : ℕ) (k : String) (ids : List String) → has k ids ≡ false → position i k ids ≡ none
unfolding position has any
position_absent i k [] h = refl
position_absent i k (j ∷ ids) h = ground (arith, position_absent (i + 1) k ids, h)

position_present :
    (i : ℕ) (k : String) (ids : List String)
    → has k ids ≡ true
    → (n : ℕ) × (position i k ids ≡ some n) × (i ≤ n)
unfolding position
position_present i k [] h = cc (has-nil k)
position_present i k (j ∷ ids) h = elim (Bool-cases (has k ids)) [
  | inl e ↦ let r = position_present (i + 1) k ids e in (r.0, rw (r.1) refl, omega (arith, r.2))
  | inr e ↦ (
    i,
    rw (position_absent (i + 1) k ids e) (ground (arith, h, has-cons k j ids, e)),
    omega arith,
  )
]

pos-cons :
    (i : ℕ) (k j : String) (ids : List String)
    → has k ids ≡ true
    → pos i (j ∷ ids) k ≡ pos (i + 1) ids k
unfolding position
pos-cons i k j ids h = let r = position_present (i + 1) k ids h in rw (r.1, pos) refl

pos-head : (i : ℕ) (j : String) (ids : List String) → has j ids ≡ false → pos i (j ∷ ids) j ≡ i
unfolding position
pos-head i j ids h = rw (position_absent (i + 1) j ids h, pos) (ground (arith, eq_iff j j))

pos_le : (i : ℕ) (k : String) (ids : List String) → has k ids ≡ true → i ≤ pos i ids k
pos_le i k ids h = let r = position_present i k ids h in rw (r.1, pos) (r.2)

All-both :
    {A : Type 0} (P Q R : A → Type 0) (l : List A)
    → ((x : A) → P x → Q x → R x)
    → All P l
    → All Q l
    → All R l
All-both P Q R [] f g h = tt
All-both P Q R (x ∷ l) f g h = (f x g.0 h.0, All-both P Q R l f g.1 h.1)

All-always : {A : Type 0} (P : A → Type 0) (l : List A) → ((x : A) → P x) → All P l
All-always P [] f = tt
All-always P (x ∷ l) f = (f x, All-always P l f)

-- A list without repetitions is sorted, strictly, by the places of its names.
by : (String → ℕ) → String → String → Bool
by f a b = leb (f a) (f b)

by-IsOrder : (f : String → ℕ) → IsOrder (by f)
unfolding by
by-IsOrder f = record {
  total = λ a b h. ground (arith, h);
  trans = λ a b c h k. ground (arith, h, k);
}

ordered :
    (f : String → ℕ) (i : ℕ) (ids : List String)
    → NoDup ids
    → All (λ k. f k ≡ pos i ids k) ids
    → IsSorted (by f) ids × IsDistinct (by f) ids
unfolding by
ordered f i [] n h = (tt, tt)
ordered f i (j ∷ ids) n h =
    let inside = All-has_self ids in
    let later : All (λ k. f k ≡ pos (i + 1) ids k) ids =
      All-both _ _ _ ids (λ k a b. b ∙ pos-cons i k j ids a) inside h.1 in
    let r = ordered f (i + 1) ids n.1 later in
    let above : All (λ k. f j < f k) ids =
      All-both _ _ _ ids
        (λ k a b. omega (arith, h.0, pos-head i j ids n.0, pos_le (i + 1) k ids a, b)) inside
        later in
    (
      (All-imp _ _ ids (λ k a. ground (arith, a)) above, r.0),
      (All-imp _ _ ids (λ k a. ground (arith, a)) above, r.1),
    )

-- The ticket keeps its id, and its rank is its place.
reprioritise-id : (ids : List String) (now : ℕ) (e : Ticket) → (reprioritise ids now e).id ≡ e.id
unfolding reprioritise
reprioritise-id ids now e = ground arith

rank-reprioritise :
    (ids : List String) (now : ℕ) (e : Ticket)
    → has e.id ids ≡ true
    → rank (reprioritise ids now e) ≡ pos 0 ids (reprioritise ids now e).id
unfolding reprioritise
rank-reprioritise ids now e h =
    let r = position_present 0 e.id ids h in ground (arith, r.1, reprioritise-id ids now e)

map-reprioritise :
    (ids : List String) (now : ℕ) (es : Index)
    → map id_of (map (reprioritise ids now) es) ≡ map id_of es
unfolding id_of
map-reprioritise ids now [] = refl
map-reprioritise ids now (e ∷ es) = rw (reprioritise-id ids now e, map-reprioritise ids now es)

All-has_ids :
    (ids : List String) (now : ℕ) (es : Index)
    → All (λ k. has k ids ≡ true) (map id_of es)
    → All (λ e. rank e ≡ pos 0 ids e.id) (map (reprioritise ids now) es)
unfolding id_of
All-has_ids ids now [] h = tt
All-has_ids ids now (e ∷ es) h = (rank-reprioritise ids now e h.0, All-has_ids ids now es h.1)

-- Tickets that are sorted by rank have their ids sorted by place.
ids-IsSorted :
    (ids : List String) (l : Index)
    → All (λ e. rank e ≡ pos 0 ids e.id) l
    → IsSorted key_le l
    → IsSorted (by (pos 0 ids)) (map id_of l)
unfolding by id_of
ids-IsSorted ids [] h s = tt
ids-IsSorted ids (e ∷ l) h s = (heads l h.1 s.0, ids-IsSorted ids l h.1 s.1)
  where
    heads :
        (m : Index)
        → All (λ x. rank x ≡ pos 0 ids x.id) m
        → All (λ y. key_le e y ≡ true) m
        → All (λ y. by (pos 0 ids) (id_of e) y ≡ true) (map id_of m)
    heads [] g k = tt
    heads (x ∷ m) g k = (ground (arith, h.0, g.0, k.0), heads m g.1 k.1)

-- A list of tickets sorted by the places of their ids in `ids` has these ids in this order.
sorted_ids :
    (ids : List String) (l : Index)
    → NoDup ids
    → Permᴰ ids (map id_of l)
    → All (λ e. rank e ≡ pos 0 ids e.id) l
    → IsSorted key_le l
    → map id_of l ≡ ids
sorted_ids ids l n p h s =
    let own = ordered (pos 0 ids) 0 ids n (All-always _ ids (λ k. refl)) in
    sym (sort_of_IsSorted (by (pos 0 ids)) (map id_of l) (ids-IsSorted ids l h s))
    ∙ sym (sort-Permᴰ (by (pos 0 ids)) (by-IsOrder (pos 0 ids)) p own.1)
    ∙ sort_of_IsSorted (by (pos 0 ids)) ids own.0

-- What the reordering of tickets by `ids` gives, as the list and as the index.
pub record IsReordered (ids : List String) (es list index : Index) : Type 0 where
  pub shown : list_tickets index ≡ list
  pub ordered_ids : map id_of list ≡ ids
  pub kept_ids : map id_of index ≡ map id_of es

All-map_has : (s t : List String) → ((k : String) → has k s ≡ has k t) → All (λ k. has k t ≡ true) s
All-map_has s t h = All-imp _ _ s (λ k e. sym (h k) ∙ e) (All-has_self s)

reordered :
    (ids : List String) (now : ℕ) (es : Index)
    → NoDup ids
    → NoDup (map id_of es)
    → ((k : String) → has k ids ≡ has k (map id_of es))
    → IsReordered ids es (sorted (map (reprioritise ids now) es)) (map (reprioritise ids now) es)
unfolding sorted list_tickets
reordered ids now es n m h =
    let changed = map (reprioritise ids now) es in
    let moved = sort_permᴰ key_le changed in
    let held = All-has_ids ids now es (All-map_has (map id_of es) ids (λ k. sym (h k))) in
    record {
      shown = refl;
      kept_ids = map-reprioritise ids now es;
      ordered_ids =
          sorted_ids ids (sort key_le changed) n
            (Permᴰ.trans
              (subst (Permᴰ ids) (sym (map-reprioritise ids now es))
                (Permᴰ_of_has ids (map id_of es) n m h))
              (Permᴰ-sym (Permᴰ-map id_of moved)))
            (All-Permᴰ _ (Permᴰ-sym moved) held) (sort-IsSorted key_le key_le-IsOrder changed);
    }

-- A reordering by ids that do not repeat, of tickets whose ids do not repeat: if the two sets of
-- ids are equal, it succeeds, the list then shows the tickets with exactly the given ids in the
-- given order, and the index keeps its ids in their order; if some id is in one set alone, it is
-- refused with a mismatch.
pub list-reorder :
    (ids : List String) (now : ℕ) (es : Index)
    → NoDup ids
    → NoDup (map id_of es)
    → ((r : Index × Index) × (reorder_tickets ids now es ≡ ok r) × IsReordered ids es r.0 r.1)
      ⊎ ((reorder_tickets ids now es ≡ err id_set_mismatch)
          × ((k : String) × (has k ids ≢ has k (map id_of es))))
unfolding reorder_tickets id_of
list-reorder ids now es n m =
    let existing = map (λ (e : Ticket). e.id) es in
    elim (Bool-cases (is_subset ids existing)) [
      | inr f ↦
          let w = subset_fails ids existing f in inr (rw (f) refl, (w.0, λ q. cc (w.1, w.2, q)))
      | inl f ↦ elim (Bool-cases (is_subset existing ids)) [
        | inr g ↦
            let w = subset_fails existing ids g in
            inr (rw (f, g) refl, (w.0, λ q. cc (w.1, w.2, q)))
        | inl g ↦ inl (
          (sorted (map (reprioritise ids now) es), map (reprioritise ids now) es),
          rw (f, g) refl,
          reordered ids now es n m
              (λ k. ground (arith, subset_has k ids existing f, subset_has k existing ids g)),
        )
      ]
    ]
