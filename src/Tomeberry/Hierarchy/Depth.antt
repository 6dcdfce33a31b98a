-- ===== src/Tomeberry/Hierarchy/Depth.antt =====
-- app/apps/tomeberry/store.py: when the recursion of `node` ends before the limit of Python.
use mathlib.Core.Option
use ai_job_server.Prelude.{
  ℕ, zero, suc, ◌+◌, ◌<◌, ◌≡◌, ◌⊎◌, ◌↔◌, refl, sym, ap, subst, String, str_eq, eq_iff, true, false,
  Option, none, some, List, [], ◌∷◌, arith, Bool-cases, inl, inr, length, length-map, All, All-imp,
}
use ai_job_server.Prelude.Dict.{has}
use ai_job_server.Prelude.Names.{NoDup, has-cons, has-nil, length-le_of_has, All-at}
use ai_job_server.Tomeberry.{Concept, Node, Nodes, nil, cons}
use ai_job_server.Tomeberry.Hierarchy.{children_of, each, node, node_of}
use ai_job_server.Tomeberry.Hierarchy.Listing.{ids, has-children_of}
use ai_job_server.Tomeberry.Hierarchy.Below.{IsChild, Below, first-IsChild}

each-none :
    (f : Concept → Option Node) (cs : List Concept) (k : String)
    → has k (ids cs) ≡ true
    → ((c : Concept) → c.id ≡ k → f c ≡ none)
    → each f cs ≡ none
unfolding each
each-none f [] k h g = cc (has-nil k)
each-none f (c ∷ cs) k h g = elim (Bool-cases (str_eq c.id k)) [
  | inl e ↦ rw (g c ((eq_iff c.id k).0 e), each) refl
  | inr e ↦
      let rest = each-none f cs k (ground (arith, has-cons k c.id (ids cs), h, e)) g in
      ground (arith, rest)
]

each-some :
    (f : Concept → Option Node) (cs : List Concept)
    → All (λ c. (n : Node) × (f c ≡ some n)) cs
    → (ns : Nodes) × (each f cs ≡ some ns)
unfolding each
each-some f [] h = (nil, refl)
each-some f (c ∷ cs) h =
    let (n, e) = h.0 in let (ns, e2) = each-some f cs h.1 in (cons n ns, ground (arith, e, e2))

All-in : (cs : List Concept) → All (λ c. has c.id (ids cs) ≡ true) cs
All-in [] = tt
All-in (c ∷ cs) = (
  ground (arith, has-cons c.id c.id (ids cs), eq_iff c.id c.id),
  All-imp _ _ cs (λ b h. ground (arith, has-cons b.id c.id (ids cs), h)) (All-in cs),
)

module _ (units : List Concept) where
  pub Below-trans : (p q r : String) → Below units p q → Below units q r → Below units p r
  Below-trans p q r (Below.child i) b = Below.under i b
  Below-trans p q r (Below.under {q = m} i u) b = Below.under i (Below-trans m q r u b)

  -- A unit that leads to a cycle has no tree, whatever the limit is.
  pub node-none :
      (limit : ℕ) (c : Concept) (r : String)
      → Below units r r
      → Below units c.id r
      → node limit units c ≡ none
  unfolding node
  node-none zero c r cyc b = refl
  node-none (suc limit) c r cyc b =
      let (j, i, w) = first-IsChild units c.id r b in
      let down : Below units j r = elim w [
        | inl e ↦ subst (λ x. Below units x r) (sym e) cyc
        | inr u ↦ u
      ] in
      ap (Option.map (node_of c)) (
        each-none (node limit units) (children_of units (some c.id)) j i
          (λ k e. node-none limit k r cyc (subst (λ x. Below units x r) (sym e) down)))

  -- No unit that the unit leads to, nor itself, is below itself.
  abbrev pub IsAcyclic : String → Type 0
  IsAcyclic p = (k : String) → (p ≡ k) ⊎ Below units p k → ¬ (Below units k k)

  IsAcyclic-child : (p k : String) → IsChild units p k → IsAcyclic p → IsAcyclic k
  IsAcyclic-child p k i a j w =
      a j (
        inr
          (elim w [ inl q ↦ Below.child (subst (IsChild units p) q i) | inr v ↦ Below.under i v ]))

  unseen :
      (p k : String) (path : List String)
      → All (λ j. Below units j p) path
      → IsAcyclic p
      → IsChild units p k
      → has k (p ∷ path) ≡ false
  unseen p k path b a i = elim (Bool-cases (has k (p ∷ path))) [
    | inr y ↦ y
    | inl y ↦ elim (Bool-cases (str_eq p k)) [
      | inl e ↦
          absurd (a p (inl refl) (Below.child (subst (IsChild units p) (sym ((eq_iff p k).0 e)) i)))
      | inr e ↦
          let back =
            All-at (λ j. Below units j p) path k b (ground (arith, has-cons k p path, y, e)) in
          absurd (a k (inr (Below.child i)) (Below-trans k p k back (Below.child i)))
    ]
  ]

  -- The recursion at `c`, inside the calls at the ids of `path`.
  node-some :
      (root : String) (limit : ℕ) (c : Concept) (path : List String)
      → suc (length units) < limit + length (c.id ∷ path)
      → NoDup (c.id ∷ path)
      → All (λ k. has k (root ∷ ids units) ≡ true) (c.id ∷ path)
      → All (λ k. Below units k c.id) path
      → IsAcyclic c.id
      → (n : Node) × (node limit units c ≡ some n)
  unfolding node
  node-some root zero c path room u m b a = absurd (
      omega (
        arith,
        room,
        length-le_of_has (c.id ∷ path) (root ∷ ids units) u m,
        length-map (λ (x : Concept). x.id) units,
      ))
  node-some root (suc limit) c path room u m b a =
      let kids = children_of units (some c.id) in
      let (ns, e) = each-some (node limit units) kids (
        All-imp _ _ kids
          (λ k i.
            node-some root limit k (c.id ∷ path) (omega (arith, room))
              (unseen c.id k.id path b a i, u)
              (
                ground (
                  arith,
                  has-children_of units (some c.id) k.id i,
                  has-cons k.id root (ids units),
                ),
                m,
              )
              (Below.child i, All-imp _ _ path (λ j h. Below-trans j c.id k.id h (Below.child i)) b)
              (IsAcyclic-child c.id k.id i a))
          (All-in kids)) in
      (node_of c ns, rw (node, e) refl)

  -- With a limit above the number of units, the tree of a unit can be built exactly if neither the unit
  -- nor any unit below it is below itself.
  pub node_iff :
      (limit : ℕ) (c : Concept)
      → length units < limit
      → ((n : Node) × (node limit units c ≡ some n)) ↔ IsAcyclic c.id
  node_iff limit c room = (
    λ (n, e) k w b. cc (
      e,
      node-none limit c k b (elim w [ inl p ↦ subst (λ x. Below units x k) (sym p) b | inr u ↦ u ]),
    ),
    λ a.
        node-some c.id limit c [] (omega (arith, room)) (has-nil c.id, tt)
          (ground (arith, has-cons c.id c.id (ids units), eq_iff c.id c.id), tt) tt a,
  )
