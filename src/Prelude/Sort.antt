-- ===== src/Prelude/Sort.antt =====
-- Python's `sorted`: a stable insertion sort by a Boolean order, and the laws that fix its result.
use mathlib.Core.Path.{◌≡◌, refl, sym, ◌∙◌, ap, subst}
use mathlib.Core.Bool.{Bool, true, false, not}
use mathlib.Core.Logic.{inl, inr}
use mathlib.Core.List.{List, [], ◌∷◌, ◌++◌, Permᴰ, map}
use native.Mathlib.Omega.{arith}
use ai_job_server.Prelude.Tests.{if◌then◌else◌, Bool-cases}
use ai_job_server.Prelude.Lists.{All, All-imp}

-- A total preorder, as a test.
pub record IsOrder {ℓ} {A : Type ℓ} (le : A → A → Bool) : Type ℓ where
  pub total : (x y : A) → le x y ≡ false → le y x ≡ true
  pub trans : (x y z : A) → le x y ≡ true → le y z ≡ true → le x z ≡ true

pub Permᴰ-refl {ℓ} : {A : Type ℓ} (l : List A) → Permᴰ l l
Permᴰ-refl [] = Permᴰ.nil
Permᴰ-refl (x ∷ xs) = Permᴰ.cons refl (Permᴰ-refl xs)

pub Permᴰ-sym {ℓ} : {A : Type ℓ} {l m : List A} → Permᴰ l m → Permᴰ m l
Permᴰ-sym Permᴰ.nil = Permᴰ.nil
Permᴰ-sym (Permᴰ.cons e p) = Permᴰ.cons (sym e) (Permᴰ-sym p)
Permᴰ-sym (Permᴰ.swap e f) = Permᴰ.swap (sym f) (sym e)
Permᴰ-sym (Permᴰ.trans p q) = Permᴰ.trans (Permᴰ-sym q) (Permᴰ-sym p)

pub Permᴰ-map {ℓ κ} :
    {A : Type ℓ} {B : Type κ} (f : A → B) {l m : List A} → Permᴰ l m → Permᴰ (map f l) (map f m)
Permᴰ-map f Permᴰ.nil = Permᴰ.nil
Permᴰ-map f (Permᴰ.cons e p) = Permᴰ.cons (ap f e) (Permᴰ-map f p)
Permᴰ-map f (Permᴰ.swap e g) = Permᴰ.swap (ap f e) (ap f g)
Permᴰ-map f (Permᴰ.trans p q) = Permᴰ.trans (Permᴰ-map f p) (Permᴰ-map f q)

pub All-Permᴰ {ℓ κ} : {A : Type ℓ} (P : A → Type κ) {l m : List A} → Permᴰ l m → All P l → All P m
All-Permᴰ P Permᴰ.nil h = h
All-Permᴰ P (Permᴰ.cons e p) h = (rw (← e) h.0, All-Permᴰ P p h.1)
All-Permᴰ P (Permᴰ.swap e f) h = (rw (← f) h.1.0, (rw (← e) h.0, h.1.1))
All-Permᴰ P (Permᴰ.trans p q) h = All-Permᴰ P q (All-Permᴰ P p h)

not_sym : (p q : Bool) → p ≡ not q → q ≡ not p
not_sym p q h = ground arith

module _ {ℓ} {A : Type ℓ} (le : A → A → Bool) where
  unfoldable pub insert : A → List A → List A
  insert x [] = x ∷ []
  insert x (y ∷ ys) = let rest = insert x ys in if le x y then x ∷ y ∷ ys else y ∷ rest

  -- Equal keys keep their order: an element goes before the later ones that it equals.
  unfoldable pub sort : List A → List A
  unfolding insert
  sort [] = []
  sort (x ∷ xs) = insert x (sort xs)

  abbrev pub IsSorted : List A → Type 0
  IsSorted [] = Unit
  IsSorted (x ∷ xs) = All (λ y. le x y ≡ true) xs × IsSorted xs

  -- No two elements have equal keys.
  abbrev pub IsDistinct : List A → Type 0
  IsDistinct [] = Unit
  IsDistinct (x ∷ xs) = All (λ y. le x y ≡ not (le y x)) xs × IsDistinct xs

  pub insert_permᴰ : (x : A) (xs : List A) → Permᴰ (insert x xs) (x ∷ xs)
  unfolding insert
  insert_permᴰ x [] = Permᴰ-refl (x ∷ [])
  insert_permᴰ x (y ∷ ys) = elim (Bool-cases (le x y)) [
    | inl h ↦ rw h (Permᴰ-refl (x ∷ y ∷ ys))
    | inr h ↦ rw h (Permᴰ.trans (Permᴰ.cons refl (insert_permᴰ x ys)) (Permᴰ.swap refl refl))
  ]

  pub sort_permᴰ : (xs : List A) → Permᴰ (sort xs) xs
  unfolding sort
  sort_permᴰ [] = Permᴰ.nil
  sort_permᴰ (x ∷ xs) = Permᴰ.trans (insert_permᴰ x (sort xs)) (Permᴰ.cons refl (sort_permᴰ xs))

  pub sort_of_IsSorted : (xs : List A) → IsSorted xs → sort xs ≡ xs
  unfolding sort
  sort_of_IsSorted [] h = refl
  sort_of_IsSorted (x ∷ []) h = refl
  sort_of_IsSorted (x ∷ y ∷ ys) h = rw (sort_of_IsSorted (y ∷ ys) h.1) (rw h.0.0)

  IsDistinct-Permᴰ : {l m : List A} → Permᴰ l m → IsDistinct l → IsDistinct m
  IsDistinct-Permᴰ Permᴰ.nil h = h
  IsDistinct-Permᴰ (Permᴰ.cons e p) h = (rw (← e) (All-Permᴰ _ p h.0), IsDistinct-Permᴰ p h.1)
  IsDistinct-Permᴰ (Permᴰ.swap {a = a} {b = b} {l = l} e f) h =
      let apart = λ (z : A). All (λ y. le z y ≡ not (le y z)) l in
      (
        (rw (← e, ← f) (not_sym (le a b) (le b a) h.0.0), subst apart f h.1.0),
        (subst apart e h.0.1, h.1.1),
      )
  IsDistinct-Permᴰ (Permᴰ.trans p q) h = IsDistinct-Permᴰ q (IsDistinct-Permᴰ p h)

module _ {ℓ} {A : Type ℓ} (le : A → A → Bool) (order : IsOrder le) where
  insert-IsSorted : (x : A) (xs : List A) → IsSorted le xs → IsSorted le (insert le x xs)
  unfolding insert
  insert-IsSorted x [] h = (tt, tt)
  insert-IsSorted x (y ∷ ys) h = elim (Bool-cases (le x y)) [
    | inl e ↦ rw e ((e, All-imp _ _ ys (λ z k. order.trans x y z e k) h.0), h)
    | inr e ↦ rw e (
      All-Permᴰ (λ z. le y z ≡ true) (Permᴰ-sym (insert_permᴰ le x ys)) (order.total x y e, h.0),
      insert-IsSorted x ys h.1,
    )
  ]

  pub sort-IsSorted : (xs : List A) → IsSorted le (sort le xs)
  unfolding sort
  sort-IsSorted [] = tt
  sort-IsSorted (x ∷ xs) = insert-IsSorted x (sort le xs) (sort-IsSorted xs)

  insert_comm :
      (x y : A) (l : List A)
      → le x y ≡ not (le y x)
      → insert le x (insert le y l) ≡ insert le y (insert le x l)
  unfolding insert
  insert_comm x y [] h = ground (arith)
  insert_comm x y (z ∷ l) h = ground (
    arith,
    insert_comm x y l h,
    order.trans x z y,
    order.trans y z x,
    order.total x z,
    order.total y z,
    order.trans y x z,
    order.trans x y z,
  )

  -- A sort forgets the order of its input where no two keys are equal.
  pub sort-Permᴰ : {l m : List A} → Permᴰ l m → IsDistinct le l → sort le l ≡ sort le m
  unfolding sort
  sort-Permᴰ Permᴰ.nil h = refl
  sort-Permᴰ (Permᴰ.cons e p) h = rw (e, sort-Permᴰ p h.1)
  sort-Permᴰ (Permᴰ.swap {a = a} {b = b} {l = l} e f) h =
      rw (← e, ← f) (insert_comm a b (sort le l) h.0.0)
  sort-Permᴰ (Permᴰ.trans p q) h = sort-Permᴰ p h ∙ sort-Permᴰ q (IsDistinct-Permᴰ le p h)

  insert-append_one :
      (x y : A) (l : List A) → le x y ≡ true → insert le x (l ++ y ∷ []) ≡ insert le x l ++ y ∷ []
  unfolding insert
  insert-append_one x y [] h = rw h
  insert-append_one x y (z ∷ l) h = ground (arith, insert-append_one x y l h)

  -- An element that goes behind all others stays at the end.
  pub sort-append_one :
      (y : A) (l : List A)
      → All (λ x. le x y ≡ true) l
      → sort le (l ++ y ∷ []) ≡ sort le l ++ y ∷ []
  unfolding sort
  sort-append_one y [] h = unfold insert in refl
  sort-append_one y (x ∷ l) h = rw (sort-append_one y l h.1) (insert-append_one x y (sort le l) h.0)

-- Sorting by a key of the image is sorting the image.
module _ {ℓ κ} {A : Type ℓ} {B : Type κ} (le : B → B → Bool) (f : A → B) where
  map-insert :
      (x : A) (l : List A) → map f (insert (λ a b. le (f a) (f b)) x l) ≡ insert le (f x) (map f l)
  unfolding insert
  map-insert x [] = refl
  map-insert x (y ∷ l) = ground (arith, map-insert x l)

  pub map-sort : (l : List A) → map f (sort (λ a b. le (f a) (f b)) l) ≡ sort le (map f l)
  unfolding sort
  map-sort [] = refl
  map-sort (x ∷ l) =
      map-insert x (sort (λ a b. le (f a) (f b)) l) ∙ ap (insert le (f x)) (map-sort l)
