-- ===== src/Tomeberry/Hierarchy/Below.antt =====
-- app/apps/tomeberry/store.py: which units the tree below a unit holds.
use ai_job_server.Prelude.{
  ℕ, zero, suc, ◌≡◌, ◌⊎◌, ◌↔◌, refl, sym, ap, ◌∙◌, subst, String, str_eq, eq_iff, true, ◌||◌,
  Option, some, List, [], ◌∷◌, ◌++◌, map, arith, Bool-cases, Option-cases, inl, inr,
}
use ai_job_server.Prelude.Dict.{has}
use ai_job_server.Prelude.Names.{has-cons, has-nil, has-append}
use ai_job_server.Tomeberry.{Concept, Node, Nodes, unit, nil, cons}
use ai_job_server.Tomeberry.Hierarchy.{children_of, each, node, node_of}

-- The ids of a tree, each node before its children.
mutual
  pub ids_of : Node → List String
  ids_of (unit id kind title order words status ns) = id ∷ all_ids ns

  pub all_ids : Nodes → List String
  all_ids nil = []
  all_ids (cons n ns) = ids_of n ++ all_ids ns

abbrev pub IsChild : List Concept → String → String → Type 0
IsChild units p k = has k (map (λ c. c.id) (children_of units (some p))) ≡ true

-- `k` is a child of `p`, or below one.
pub data Below (units : List Concept) : String → String → Type 0 where
  child : {p k : String} → IsChild units p k → Below units p k
  under : {p q k : String} → IsChild units p q → Below units q k → Below units p k

-- The parts of a list of trees that was built.
pub each-parts :
    (f : Concept → Option Node) (c : Concept) (cs : List Concept) (ns : Nodes)
    → each f (c ∷ cs) ≡ some ns
    → (n : Node) × (ms : Nodes) × (f c ≡ some n) × (each f cs ≡ some ms) × (ns ≡ cons n ms)
unfolding each
each-parts f c cs ns h = elim (Option-cases (f c)) [
  | inl e ↦ cc (rw (e, each) at h)
  | inr (n, e) ↦ elim (Option-cases (each f cs)) [
    | inl e2 ↦ cc (rw (e, each, e2) at h)
    | inr (ms, e2) ↦ (n, ms, e, e2, cc (rw (e, each, e2) at h))
  ]
]

has-all_ids :
    (k : String) (n : Node) (ms ns : Nodes)
    → ns ≡ cons n ms
    → has k (all_ids ns) ≡ (has k (ids_of n) || has k (all_ids ms))
unfolding all_ids
has-all_ids k n ms ns q = ap (λ l. has k (all_ids l)) q ∙ has-append k (ids_of n) (all_ids ms)

module _ (units : List Concept) where
  -- Equal to one of the ids, or below it.
  abbrev Within : List Concept → String → Type 0
  Within cs k = (q : String) × (has q (map (λ c. c.id) cs) ≡ true) × ((q ≡ k) ⊎ Below units q k)

  pub first-IsChild :
      (p k : String)
      → Below units p k
      → (q : String) × IsChild units p q × ((q ≡ k) ⊎ Below units q k)
  first-IsChild p k (Below.child i) = (k, i, inl refl)
  first-IsChild p k (Below.under {q = q} i u) = (q, i, inr u)

  -- A function that builds the tree of a unit.
  abbrev Builds : (Concept → Option Node) → Type 0
  Builds f =
      (c : Concept) (n : Node) (k : String)
      → f c ≡ some n
      → (has k (ids_of n) ≡ true) ↔ ((c.id ≡ k) ⊎ Below units c.id k)

  each-Within :
      (f : Concept → Option Node) (cs : List Concept) (ns : Nodes) (k : String)
      → Builds f
      → each f cs ≡ some ns
      → has k (all_ids ns) ≡ true
      → Within cs k
  unfolding all_ids each
  each-Within f [] nil k b h m = cc (has-nil k, m)
  each-Within f [] (cons n ns) k b h m = cc h
  each-Within f (c ∷ cs) ns k b h m =
      let (n, ms, e, e2, q) = each-parts f c cs ns h in
      let both = has-all_ids k n ms ns q in
      elim (Bool-cases (has k (ids_of n))) [
        | inl y ↦ (
          c.id,
          ground (arith, has-cons c.id c.id (map (λ (x : Concept). x.id) cs), eq_iff c.id c.id),
          (b c n k e).0 y,
        )
        | inr y ↦
            let (j, i, w) = each-Within f cs ms k b e2 (ground (arith, both, y, m)) in
            (j, ground (arith, has-cons j c.id (map (λ (x : Concept). x.id) cs), i), w)
      ]

  Within-each :
      (f : Concept → Option Node) (cs : List Concept) (ns : Nodes) (k q : String)
      → Builds f
      → each f cs ≡ some ns
      → has q (map (λ c. c.id) cs) ≡ true
      → (q ≡ k) ⊎ Below units q k
      → has k (all_ids ns) ≡ true
  unfolding all_ids
  Within-each f [] ns k q b h i w = cc (has-nil q)
  Within-each f (c ∷ cs) ns k q b h i w =
      let (n, ms, e, e2, p) = each-parts f c cs ns h in
      let both = has-all_ids k n ms ns p in
      elim (Bool-cases (str_eq c.id q)) [
        | inl y ↦
            let same = (eq_iff c.id q).0 y in
            let m = (b c n k e).1 (subst (λ x. (x ≡ k) ⊎ Below units x k) (sym same) w) in
            ground (arith, both, m)
        | inr y ↦
            let m =
              Within-each f cs ms k q b e2
                (ground (arith, has-cons q c.id (map (λ (x : Concept). x.id) cs), i, y)) w in
            ground (arith, both, m)
      ]

  built :
      (c : Concept) (n : Node) (k : String) (ns : Nodes) (f : Concept → Option Node)
      → Builds f
      → each f (children_of units (some c.id)) ≡ some ns
      → n ≡ node_of c ns
      → (has k (ids_of n) ≡ true) ↔ ((c.id ≡ k) ⊎ Below units c.id k)
  unfolding ids_of
  built c n k ns f b e q =
      let at = has-cons k c.id (all_ids ns) in
      let whole : has k (ids_of n) ≡ (str_eq c.id k || has k (all_ids ns)) =
        ap (λ x. has k (ids_of x)) q ∙ at in
      (
        λ m. elim (Bool-cases (str_eq c.id k)) [
          | inl y ↦ inl ((eq_iff c.id k).0 y)
          | inr y ↦
              let (j, i, w) =
                each-Within f (children_of units (some c.id)) ns k b e
                  (ground (arith, whole, y, m)) in
              inr (elim w [
                | inl p ↦ Below.child (subst (IsChild units c.id) p i)
                | inr u ↦ Below.under i u
              ])
        ],
        λ w. elim w [
          | inl p ↦ ground (arith, whole, eq_iff c.id k, p)
          | inr u ↦
              let (j, i, v) = first-IsChild c.id k u in
              ground (arith, whole, Within-each f (children_of units (some c.id)) ns k j b e i v)
        ],
      )

  node-Builds : (limit : ℕ) → Builds (node limit units)
  unfolding node
  node-Builds zero c n k h = cc
  node-Builds (suc limit) c n k h =
      elim (Option-cases (each (node limit units) (children_of units (some c.id)))) [
        | inl e ↦ cc (rw (e, node) at h)
        | inr (ns, e) ↦
            built c n k ns (node limit units) (node-Builds limit) e (cc (rw (e, node) at h))
      ]

-- The tree of a unit that can be built holds the id of the unit, and besides exactly the ids of the
-- units that lie below it by the children of units.
pub node-has :
    (limit : ℕ) (units : List Concept) (c : Concept) (n : Node) (k : String)
    → node limit units c ≡ some n
    → (has k (ids_of n) ≡ true) ↔ ((c.id ≡ k) ⊎ Below units c.id k)
node-has limit units c n k h = node-Builds units limit c n k h
