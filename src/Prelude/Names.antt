-- ===== src/Prelude/Names.antt =====
-- Laws of the sets of names: `has`, `add` and `discard` of `Prelude.Dict`.
use mathlib.Core.Path.{◌≡◌, refl, sym, subst}
use mathlib.Core.Bool.{true, false, not, ◌||◌}
use mathlib.Core.Logic.{inl, inr}
use mathlib.Core.List.{List, [], ◌∷◌, ◌++◌, Permᴰ}
use Prim.Native.Nat.{◌≤◌, ◌<◌}
use Prim.Native.String.{String}
use native.Mathlib.Omega.{arith}
use text.Mathlib.Text.{◌==◌}
use text.Mathlib.TextEquality.{eq_iff}
use ai_job_server.Prelude.Tests.{if◌then◌else◌, Bool-cases}
use ai_job_server.Prelude.Lists.{any, keep, length, All, All-imp, any-append, length-keep-le}
use ai_job_server.Prelude.Sort.{Permᴰ-refl, Permᴰ-sym}
use ai_job_server.Prelude.Dict.{has, add, discard}

abbrev pub NoDup : List String → Type 0
NoDup [] = Unit
NoDup (x ∷ xs) = (has x xs ≡ false) × NoDup xs

pub has-append : (k : String) (s t : List String) → has k (s ++ t) ≡ (has k s || has k t)
unfolding has
has-append k s t = any-append (λ j. j == k) s t

pub has-cons : (k j : String) (s : List String) → has k (j ∷ s) ≡ (j == k || has k s)
unfolding has any
has-cons k j s = refl

pub has-nil : (k : String) → has k [] ≡ false
unfolding has any
has-nil k = refl

pub has-discard :
    (k j : String) (s : List String) → has j (discard k s) ≡ (if k == j then false else has j s)
unfolding has discard any keep
has-discard k j [] = ground arith
has-discard k j (i ∷ s) = ground (arith, eq_iff i k, eq_iff i j, eq_iff k j, has-discard k j s)

pub NoDup-discard : (k : String) (s : List String) → NoDup s → NoDup (discard k s)
unfolding discard keep
NoDup-discard k [] h = tt
NoDup-discard k (j ∷ s) h = elim (Bool-cases (j == k)) [
  | inl e ↦ rw e (NoDup-discard k s h.1)
  | inr e ↦ rw e (ground (arith, has-discard k j s, h.0), NoDup-discard k s h.1)
]

pub NoDup-append_one :
    (k : String) (s : List String) → has k s ≡ false → NoDup s → NoDup (s ++ k ∷ [])
NoDup-append_one k [] f h = (has-nil k, tt)
NoDup-append_one k (j ∷ s) f h =
    let seen = has-cons k j s in
    (
      ground (
        arith,
        has-append j s (k ∷ []),
        has-cons j k [],
        has-nil j,
        eq_iff j k,
        eq_iff k j,
        f,
        seen,
        h.0,
      ),
      NoDup-append_one k s (ground (arith, f, seen)) h.1,
    )

pub NoDup-add : (k : String) (s : List String) → NoDup s → NoDup (add k s)
unfolding add
NoDup-add k s h = elim (Bool-cases (has k s)) [
  | inl e ↦ rw e h
  | inr e ↦ rw e (NoDup-append_one k s e h)
]

pub has-add : (k j : String) (s : List String) → has j (add k s) ≡ (k == j || has j s)
unfolding add
has-add k j s = ground (arith, eq_iff k j, has-append j s (k ∷ []), has-cons j k [], has-nil j)

pub length-discard :
    (k : String) (s : List String) → has k s ≡ true → length (discard k s) < length s
unfolding has discard any keep
length-discard k [] h = cc
length-discard k (j ∷ s) h =
    ground (arith, length-discard k s, length-keep-le (λ (i : String). not (i == k)) s)

has-discard-All :
    (k : String) (s t : List String)
    → has k s ≡ false
    → All (λ j. has j t ≡ true) s
    → All (λ j. has j (discard k t) ≡ true) s
has-discard-All k [] t f h = tt
has-discard-All k (j ∷ s) t f h = (
  ground (arith, has-discard k j t, has-cons k j s, eq_iff j k, eq_iff k j, f, h.0),
  has-discard-All k s t (ground (arith, has-cons k j s, f)) h.1,
)

-- A list without repetitions within another list is no longer.
pub length-le_of_has :
    (s t : List String) → NoDup s → All (λ k. has k t ≡ true) s → length s ≤ length t
length-le_of_has [] t n h = omega arith
length-le_of_has (k ∷ s) t n h = omega (
  arith,
  length-discard k t h.0,
  length-le_of_has s (discard k t) n.1 (has-discard-All k s t n.0 h.1),
)

discard_absent : (k : String) (s : List String) → has k s ≡ false → discard k s ≡ s
unfolding has any discard keep
discard_absent k [] h = refl
discard_absent k (j ∷ s) h = ground (arith, discard_absent k s)

-- A member of a list without repetitions can be brought to its front.
to_front : (k : String) (s : List String) → NoDup s → has k s ≡ true → Permᴰ s (k ∷ discard k s)
unfolding discard keep
to_front k [] n h = cc (has-nil k)
to_front k (j ∷ s) n h = elim (Bool-cases (j == k)) [
  | inl e ↦
      let same = (eq_iff j k).0 e in
      rw e (
        Permᴰ.cons same (
          subst (Permᴰ s) (sym (discard_absent k s (subst (λ x. has x s ≡ false) same n.0)))
            (Permᴰ-refl s)))
  | inr e ↦ rw e (
      Permᴰ.trans (Permᴰ.cons refl (to_front k s n.1 (ground (arith, has-cons k j s, e, h))))
        (Permᴰ.swap refl refl))
]

-- Lists without repetitions and with the same members are permutations of each other.
pub Permᴰ_of_has :
    (s t : List String) → NoDup s → NoDup t → ((k : String) → has k s ≡ has k t) → Permᴰ s t
Permᴰ_of_has [] [] n m h = Permᴰ.nil
Permᴰ_of_has [] (j ∷ t) n m h = cc (h j, has-nil j, has-cons j j t, (eq_iff j j).1 refl)
Permᴰ_of_has (k ∷ s) t n m h =
    Permᴰ.trans
      (Permᴰ.cons refl (
        Permᴰ_of_has s (discard k t) n.1 (NoDup-discard k t m)
          (λ j. ground (arith, has-discard k j t, has-cons j k s, h j, eq_iff k j, n.0))))
      (Permᴰ-sym (to_front k t m (ground (arith, h k, has-cons k k s, eq_iff k k))))

pub All-has_self : (l : List String) → All (λ k. has k l ≡ true) l
All-has_self [] = tt
All-has_self (j ∷ l) = (
  ground (arith, has-cons j j l, eq_iff j j),
  All-imp _ _ l (λ k h. ground (arith, has-cons k j l, h)) (All-has_self l),
)

-- What holds of all members holds of each.
pub All-at {κ} :
    (P : String → Type κ) (l : List String) (k : String) → All P l → has k l ≡ true → P k
All-at P [] k h e = cc (has-nil k)
All-at P (j ∷ l) k h e = elim (Bool-cases (j == k)) [
  | inl q ↦ subst P ((eq_iff j k).0 q) h.0
  | inr q ↦ All-at P l k h.1 (ground (arith, has-cons k j l, e, q))
]
