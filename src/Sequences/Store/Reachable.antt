-- ===== src/Sequences/Store/Reachable.antt =====
-- app/chain/sequences.py: every library that the operations make of an empty one is sound.
use mathlib.Core.Option.{some-injective}
use ai_job_server.Prelude.{
  ℕ, ◌≡◌, ◌≢◌, refl, ap, subst, String, str_eq, false, not, some, List, [], ◌∷◌, arith,
  if◌then◌else◌, ◌==◌, if_ind, length, keep, All, Bool-cases, inl, inr, eq_iff,
}
use ai_job_server.Prelude.Dict.{has}
use ai_job_server.Prelude.Names.{NoDup, has-cons, has-nil}
use ai_job_server.Prelude.Result.{ok}
use ai_job_server.Cycles.Change.{removed-IsAcyclic}
use ai_job_server.Cycles.Decides.{Reaches}
use ai_job_server.Sequences.{Step, Sequence}
use ai_job_server.Sequences.Validate.Exact.{IsValid}
use ai_job_server.Sequences.Store.{
  Presets, ids, steps_by_id, direct_deps, step_refs, save_sequence, delete_sequence,
  upsert_envelope,
}
use ai_job_server.Sequences.Store.Acyclic.{IsSound}
use ai_job_server.Sequences.Store.Keeps.{save-IsSound, upsert-IsSound}

none-Reaches : (deps : String → List String) (n m : String) → ¬ (Reaches [] deps n m)
none-Reaches deps n m (Reaches.edge e) = cc (e.exists, has-nil m)
none-Reaches deps n m (Reaches.step w e) = cc (e.exists, has-nil m)

module _ {C : Type 0} where
  abbrev without : String → List (Sequence C) → List (Sequence C)
  without sid entries = keep (λ e. not (str_eq e.id sid)) entries

  has-ids-without :
      (n sid : String) (entries : List (Sequence C))
      → has n (ids (without sid entries)) ≡ (if str_eq n sid then false else has n (ids entries))
  unfolding keep
  has-ids-without n sid [] = ground (arith, has-nil n)
  has-ids-without n sid (e ∷ entries) = ground (
    arith,
    has-ids-without n sid entries,
    eq_iff e.id sid,
    eq_iff e.id n,
    eq_iff n sid,
    has-cons n e.id (ids entries),
    has-cons n e.id (ids (without sid entries)),
  )

  NoDup-without :
      (sid : String) (entries : List (Sequence C))
      → NoDup (ids entries)
      → NoDup (ids (without sid entries))
  unfolding keep
  NoDup-without sid [] h = tt
  NoDup-without sid (e ∷ entries) h = elim (Bool-cases (str_eq e.id sid)) [
    | inl q ↦ rw q (NoDup-without sid entries h.1)
    | inr q ↦
        rw q (ground (arith, has-ids-without e.id sid entries, h.0), NoDup-without sid entries h.1)
  ]

  IsValid-without :
      (sid : String) (entries : List (Sequence C))
      → All (λ e. IsValid e.steps) entries
      → All (λ e. IsValid e.steps) (without sid entries)
  unfolding keep
  IsValid-without sid [] v = tt
  IsValid-without sid (e ∷ entries) v =
      if_ind (All (λ e. IsValid e.steps)) (not (str_eq e.id sid))
        (λ _. (v.0, IsValid-without sid entries v.1)) (λ _. IsValid-without sid entries v.1)

  steps-without :
      (n sid : String) (entries : List (Sequence C))
      → n ≢ sid
      → steps_by_id n (without sid entries) ≡ steps_by_id n entries
  unfolding keep steps_by_id
  steps-without n sid [] p = refl
  steps-without n sid (e ∷ entries) p = ground (
    arith,
    steps-without n sid entries p,
    has-ids-without n sid entries,
    eq_iff e.id sid,
    eq_iff e.id n,
    eq_iff n sid,
  )

  without-IsSound :
      (sid : String) (entries : List (Sequence C)) → IsSound entries → IsSound (without sid entries)
  without-IsSound sid entries v = record {
    distinct = NoDup-without sid entries v.distinct;
    valid = IsValid-without sid entries v.valid;
    acyclic =
        removed-IsAcyclic (ids entries) (ids (without sid entries)) (direct_deps entries)
          (direct_deps (without sid entries)) sid
          (λ m p h. ground (arith, has-ids-without m sid entries, eq_iff m sid))
          (λ n p. unfold direct_deps in ap step_refs (steps-without n sid entries p)) v.acyclic
          (ground (arith, has-ids-without sid sid entries, eq_iff sid sid));
  }

  delete-IsSound :
      (sid : String) (entries r : List (Sequence C))
      → IsSound entries
      → delete_sequence sid entries ≡ some r
      → IsSound r
  unfolding delete_sequence
  delete-IsSound sid entries r v h =
      elim (Bool-cases (length (without sid entries) == length entries)) [
        | inl e ↦ cc (rw e at h)
        | inr e ↦ subst IsSound (some-injective _ _ (rw e at h)) (without-IsSound sid entries v)
      ]

  -- A write of the index by a save, by the import of an envelope or by a deletion.
  pub data Write (entries : List (Sequence C)) : List (Sequence C) → Type 0 where
    saved :
        (slugify : String → String) (blank : C) (presets : Presets) (now : ℕ) (name : String)
        (steps : List (Step C)) (variables : List String) {r : Sequence C × List (Sequence C)}
        → save_sequence slugify blank presets now name steps variables entries ≡ ok r
        → Write entries r.1
    imported :
        (blank : C) (now : ℕ) (env : Sequence C) {r : Sequence C × List (Sequence C)}
        → upsert_envelope blank now env entries ≡ ok r
        → Write entries r.1
    deleted :
        (sid : String) {r : List (Sequence C)}
        → delete_sequence sid entries ≡ some r
        → Write entries r

  pub data Reach : List (Sequence C) → Type 0 where
    empty : Reach []
    next : {l m : List (Sequence C)} → Reach l → Write l m → Reach m

  Write-IsSound : {l m : List (Sequence C)} → Write l m → IsSound l → IsSound m
  Write-IsSound {l} (saved slugify blank presets now name steps variables {r = r} h) v =
      save-IsSound slugify blank presets now name steps variables l r v h
  Write-IsSound {l} (imported blank now env {r = r} h) v = upsert-IsSound blank now env l r v h
  Write-IsSound {l} (deleted sid {r = r} h) v = delete-IsSound sid l r v h

  -- Every library that saves, imports and deletions make of an empty one has distinct ids, valid
  -- steps in every sequence, and no sequence that leads back to itself by references.
  pub Reach-IsSound : {l : List (Sequence C)} → Reach l → IsSound l
  Reach-IsSound empty = record { distinct = tt; valid = tt; acyclic = λ m w. none-Reaches _ m m w }
  Reach-IsSound (next r w) = Write-IsSound w (Reach-IsSound r)
