-- ===== src/Sequences/Store/Acyclic.antt =====
-- app/chain/sequences.py: what every operation keeps of the library.
use mathlib.Core.List.{map-append}
use ai_job_server.Prelude.{
  ◌≡◌, ◌≢◌, refl, sym, ◌∙◌, ap, subst, String, str_eq, Bool, true, false, ◌||◌, some, List, [], ◌∷◌,
  ◌++◌, arith, if_ind, first, All, All-append, eq_iff,
}
use ai_job_server.Prelude.Dict.{has}
use ai_job_server.Prelude.Names.{NoDup, NoDup-append_one, has-append, has-cons, has-nil}
use ai_job_server.Prelude.Result.{ok}
use ai_job_server.Cycles.{Search, clear, cycle, out_of_fuel, check_for_cycles}
use ai_job_server.Cycles.Change.{IsAcyclic, clear-IsAcyclic}
use ai_job_server.Sequences.{Sequence}
use ai_job_server.Sequences.Validate.Exact.{IsValid}
use ai_job_server.Sequences.Store.{
  ids, steps_by_id, direct_deps, step_refs, check_entries, answer, modify_first,
}

answer-ok : (s : Search) {u : Unit {0}} → answer s ≡ ok u → (b : List String) × (s ≡ clear b)
answer-ok (clear b) h = (b, refl)
answer-ok (cycle p d) h = cc
answer-ok out_of_fuel h = cc

module _ {C : Type 0} where
  -- Distinct ids, valid steps, and no sequence that leads back to itself.
  pub record IsSound (entries : List (Sequence C)) : Type 0 where
    pub distinct : NoDup (ids entries)
    pub valid : All (λ e. IsValid e.steps) entries
    pub acyclic : IsAcyclic (ids entries) (direct_deps entries)

  -- A changed library is sound, if its ids and steps are, and the check from the change passed.
  checked :
      (r : String) (entries changed : List (Sequence C)) {u : Unit {0}}
      → IsSound entries
      → ((m : String) → m ≢ r → has m (ids changed) ≡ true → has m (ids entries) ≡ true)
      → ((n : String) → n ≢ r → steps_by_id n changed ≡ steps_by_id n entries)
      → has r (ids changed) ≡ true
      → check_entries changed r ≡ ok u
      → IsAcyclic (ids changed) (direct_deps changed)
  unfolding check_entries
  checked r entries changed v kept same h c =
      let (b, e) = answer-ok (check_for_cycles (ids changed) (direct_deps changed) r) c in
      clear-IsAcyclic (ids entries) (ids changed) (direct_deps entries) (direct_deps changed) r kept
        (λ n p. unfold direct_deps in ap step_refs (same n p)) b v.acyclic h e

  pub has-ids-append :
      (n : String) (entries : List (Sequence C)) (x : Sequence C)
      → has n (ids (entries ++ x ∷ [])) ≡ (has n (ids entries) || str_eq x.id n)
  has-ids-append n entries x =
      ap (has n) (map-append (λ e. e.id) entries (x ∷ []))
      ∙ ground (arith, has-append n (ids entries) (x.id ∷ []), has-cons n x.id [], has-nil n)

  pub steps-append :
      (n : String) (entries : List (Sequence C)) (x : Sequence C)
      → n ≢ x.id
      → steps_by_id n (entries ++ x ∷ []) ≡ steps_by_id n entries
  unfolding steps_by_id
  steps-append n [] x p = ground (arith, eq_iff x.id n)
  steps-append n (e ∷ entries) x p =
      ground (arith, steps-append n entries x p, eq_iff x.id n, has-ids-append n entries x)

  -- A new sequence at the end, with an id that is not taken.
  pub append-IsSound :
      (x : Sequence C) (entries : List (Sequence C)) {u : Unit {0}}
      → IsSound entries
      → IsValid x.steps
      → has x.id (ids entries) ≡ false
      → check_entries (entries ++ x ∷ []) x.id ≡ ok u
      → IsSound (entries ++ x ∷ [])
  append-IsSound x entries v s f c = record {
    distinct =
        subst NoDup (sym (map-append (λ e. e.id) entries (x ∷ [])))
          (NoDup-append_one x.id (ids entries) f v.distinct);
    valid = All-append _ entries (x ∷ []) v.valid (s, tt);
    acyclic =
        checked x.id entries (entries ++ x ∷ []) v
          (λ m p h. ground (arith, has-ids-append m entries x, eq_iff x.id m))
          (λ n p. steps-append n entries x p)
          (ground (arith, has-ids-append x.id entries x, eq_iff x.id x.id)) c;
  }

  module _ (p : Sequence C → Bool) (f : Sequence C → Sequence C)
      (same_id : (e : Sequence C) → p e ≡ true → (f e).id ≡ e.id) where
    ids-modify_first : (entries : List (Sequence C)) → ids (modify_first p f entries) ≡ ids entries
    unfolding modify_first
    ids-modify_first [] = refl
    ids-modify_first (e ∷ entries) = ground (arith, ids-modify_first entries, same_id e)

    steps-modify_first :
        (n : String) (entries : List (Sequence C)) (e : Sequence C)
        → first p entries ≡ some e
        → n ≢ e.id
        → steps_by_id n (modify_first p f entries) ≡ steps_by_id n entries
    unfolding modify_first first steps_by_id
    steps-modify_first n [] e h q = cc
    steps-modify_first n (x ∷ entries) e h q = ground (
      arith,
      steps-modify_first n entries e,
      ids-modify_first entries,
      same_id x,
      eq_iff x.id n,
      eq_iff (f x).id n,
    )

    has-first :
        (entries : List (Sequence C)) (e : Sequence C)
        → first p entries ≡ some e
        → (has e.id (ids entries) ≡ true) × (p e ≡ true)
    unfolding first
    has-first [] e h = cc
    has-first (x ∷ entries) e h =
        ground (arith, has-first entries e, has-cons e.id x.id (ids entries), eq_iff x.id e.id)

    IsValid-modify_first :
        (entries : List (Sequence C))
        → ((e : Sequence C) → IsValid (f e).steps)
        → All (λ e. IsValid e.steps) entries
        → All (λ e. IsValid e.steps) (modify_first p f entries)
    unfolding modify_first
    IsValid-modify_first [] g v = tt
    IsValid-modify_first (e ∷ entries) g v =
        if_ind (All (λ e. IsValid e.steps)) (p e) (λ _. (g e, v.1))
          (λ _. (v.0, IsValid-modify_first entries g v.1))

    pub modify-IsSound :
        (e : Sequence C) (entries : List (Sequence C)) {u : Unit {0}}
        → IsSound entries
        → ((x : Sequence C) → IsValid (f x).steps)
        → first p entries ≡ some e
        → check_entries (modify_first p f entries) e.id ≡ ok u
        → IsSound (modify_first p f entries)
    modify-IsSound e entries v g h c = record {
      distinct = subst NoDup (sym (ids-modify_first entries)) v.distinct;
      valid = IsValid-modify_first entries g v.valid;
      acyclic =
          checked e.id entries (modify_first p f entries) v
            (λ m q k. subst (λ l. has m l ≡ true) (ids-modify_first entries) k)
            (λ n q. steps-modify_first n entries e h q)
            (subst (λ l. has e.id l ≡ true) (sym (ids-modify_first entries))
              (has-first entries e h).0)
            c;
    }
