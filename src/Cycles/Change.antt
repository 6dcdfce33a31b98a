-- ===== src/Cycles/Change.antt =====
-- app/chain/sequences.py and app/wildcards.py: a change of one node is checked from that node alone.
use ai_job_server.Prelude.{
  ◌≡◌, ◌≢◌, ◌⊎◌, sym, subst, String, str_eq, true, false, List, Bool-cases, inl, inr, eq_iff,
}
use ai_job_server.Prelude.Dict.{has}
use ai_job_server.Cycles.{clear, check_for_cycles}
use ai_job_server.Cycles.Decides.{Edge, Reaches, From, From-edge, check_for_cycles_decides}

abbrev pub IsAcyclic : List String → (String → List String) → Type 0
IsAcyclic nodes deps = (m : String) → ¬ (Reaches nodes deps m m)

differ : (n r : String) → str_eq n r ≡ false → n ≢ r
differ n r h q = cc ((eq_iff n r).1 q, h)

-- The second graph differs from the first in the node r: in what r refers to, and in whether it is.
module _ (nodes nodes' : List String) (deps deps' : String → List String) (r : String)
    (kept : (m : String) → m ≢ r → has m nodes' ≡ true → has m nodes ≡ true)
    (same : (n : String) → n ≢ r → deps' n ≡ deps n) where
  old-Edge : (n m : String) → n ≢ r → m ≢ r → Edge nodes' deps' n m → Edge nodes deps n m
  old-Edge n m p q e = record {
    exists = kept m q e.exists;
    refers = subst (λ l. has m l ≡ true) (same n p) e.refers;
  }

  -- A walk in the second graph leads through r, or is one in the first.
  through :
      (n m : String)
      → Reaches nodes' deps' n m
      → (From nodes' deps' n r × From nodes' deps' r m) ⊎ Reaches nodes deps n m
  through n m (Reaches.edge e) = elim (Bool-cases (str_eq n r)) [
    | inl p ↦ inl (
      inl ((eq_iff n r).0 p),
      inr (Reaches.edge (subst (λ k. Edge nodes' deps' k m) ((eq_iff n r).0 p) e)),
    )
    | inr p ↦ elim (Bool-cases (str_eq m r)) [
      | inl q ↦ inl (
        inr (Reaches.edge (subst (λ k. Edge nodes' deps' n k) ((eq_iff m r).0 q) e)),
        inl (sym ((eq_iff m r).0 q)),
      )
      | inr q ↦ inr (Reaches.edge (old-Edge n m (differ n r p) (differ m r q) e))
    ]
  ]
  through n m (Reaches.step {m = k} w e) = elim (through n k w) [
    | inl f ↦ inl (f.0, From-edge nodes' deps' r k m f.1 e)
    | inr old ↦ elim (Bool-cases (str_eq k r)) [
      | inl p ↦
          let here = (eq_iff k r).0 p in
          inl (
            inr (subst (λ x. Reaches nodes' deps' n x) here w),
            inr (Reaches.edge (subst (λ x. Edge nodes' deps' x m) here e)),
          )
      | inr p ↦ elim (Bool-cases (str_eq m r)) [
        | inl q ↦ inl (
          inr (subst (λ x. Reaches nodes' deps' n x) ((eq_iff m r).0 q) (Reaches.step w e)),
          inl (sym ((eq_iff m r).0 q)),
        )
        | inr q ↦ inr (Reaches.step old (old-Edge k m (differ k r p) (differ m r q) e))
      ]
    ]
  ]

  -- The search from the changed node clears the whole graph, if the first had no cycle.
  pub clear-IsAcyclic :
      (b : List String)
      → IsAcyclic nodes deps
      → has r nodes' ≡ true
      → check_for_cycles nodes' deps' r ≡ clear b
      → IsAcyclic nodes' deps'
  clear-IsAcyclic b old h c m w = elim (check_for_cycles_decides nodes' deps' r h) [
    | inl (b', e, none) ↦ elim (through m m w) [ inl f ↦ none m f.1 w | inr o ↦ old m o ]
    | inr (p, d, e, on) ↦ absurd (cc (c, e))
  ]

  target_exists : (n m : String) → Reaches nodes' deps' n m → has m nodes' ≡ true
  target_exists n m (Reaches.edge e) = e.exists
  target_exists n m (Reaches.step w e) = e.exists

  -- A node that is gone stands on no cycle.
  pub removed-IsAcyclic : IsAcyclic nodes deps → has r nodes' ≡ false → IsAcyclic nodes' deps'
  removed-IsAcyclic old h m w = elim (through m m w) [
    | inr o ↦ old m o
    | inl f ↦ elim f.0 [
      | inl q ↦ absurd (cc (target_exists m m w, h, q))
      | inr v ↦ absurd (cc (target_exists m r v, h))
    ]
  ]
