-- ===== src/Cycles/Decides.antt =====
-- app/chain/sequences.py and app/wildcards.py: `check_for_cycles` ends, and finds exactly the cycles.
use ai_job_server.Prelude.{
  ℕ, zero, suc, ◌+◌, ◌≤◌, ◌≡◌, ◌⊎◌, refl, sym, subst, String, str_eq, true, false, List, [], ◌∷◌,
  arith, length, All, Bool-cases, inl, inr, eq_iff, if_ind,
}
use ai_job_server.Prelude.Dict.{has}
use ai_job_server.Prelude.Names.{NoDup, has-cons, has-nil, length-le_of_has, All-has_self, All-at}
use ai_job_server.Cycles.{
  Search, clear, cycle, out_of_fuel, and_then, each, paint, dfs, check_for_cycles,
}

module _ (nodes : List String) (deps : String → List String) where
  -- One node refers to another that exists.
  pub record Edge (n m : String) : Type 0 where
    pub exists : has m nodes ≡ true
    pub refers : has m (deps n) ≡ true

  -- By one reference or more.
  pub data Reaches (n : String) : String → Type 0 where
    edge : {m : String} → Edge n m → Reaches n m
    step : {m k : String} → Reaches n m → Edge m k → Reaches n k

  abbrev pub From : String → String → Type 0
  From root m = (root ≡ m) ⊎ Reaches root m

  -- What a black list keeps: a node refers only to nodes that stand after it.
  abbrev IsTopological : List String → Type 0
  IsTopological [] = Unit
  IsTopological (n ∷ black) = ((m : String) → Edge n m → has m black ≡ true) × IsTopological black

  Edge-inside :
      (black : List String) (n m : String)
      → IsTopological black
      → has n black ≡ true
      → Edge n m
      → has m black ≡ true
  Edge-inside [] n m t h e = cc (has-nil n)
  Edge-inside (x ∷ black) n m t h e = elim (Bool-cases (str_eq x n)) [
    | inl q ↦
        let same = (eq_iff x n).0 q in
        ground (arith, has-cons m x black, t.0 m (subst (λ k. Edge k m) (sym same) e))
    | inr q ↦ ground (
      arith,
      has-cons m x black,
      Edge-inside black n m t.1 (ground (arith, has-cons n x black, h, q)) e,
    )
  ]

  reach_inside :
      (black : List String) (n m : String)
      → IsTopological black
      → has n black ≡ true
      → Reaches n m
      → has m black ≡ true
  reach_inside black n m t h (Reaches.edge e) = Edge-inside black n m t h e
  reach_inside black n m t h (Reaches.step {m = k} r e) =
      Edge-inside black k m t (reach_inside black n k t h r) e

  -- What the first node of a black list reaches stands after it.
  reach_after :
      (black : List String) (n m : String)
      → IsTopological (n ∷ black)
      → Reaches n m
      → has m black ≡ true
  reach_after black n m t (Reaches.edge e) = t.0 m e
  reach_after black n m t (Reaches.step {m = k} r e) =
      Edge-inside black k m t.1 (reach_after black n k t r) e

  black_acyclic :
      (black : List String) (n : String)
      → IsTopological black
      → has n black ≡ true
      → ¬ (Reaches n n)
  black_acyclic [] n t h r = cc (has-nil n)
  black_acyclic (x ∷ black) n t h r = elim (Bool-cases (has n black)) [
    | inl inside ↦ black_acyclic black n t.1 inside r
    | inr outside ↦
        let same = (eq_iff x n).0 (ground (arith, has-cons n x black, h, outside)) in
        let found = reach_after black x n t (subst (λ k. Reaches k n) (sym same) r) in
        cc (found, outside)
  ]

  module _ (root : String) where
    -- A node that the root leads to stands on a cycle.
    abbrev pub OnCycle : Type 0
    OnCycle = (m : String) × From root m × Reaches m m

    -- What a search says that began with `black`, and has to end with the nodes of `need` black.
    abbrev Found : List String → List String → Search → Type 0
    Found need black (clear b) =
        IsTopological b
        × ((k : String) → has k black ≡ true → has k b ≡ true)
        × All (λ d. has d nodes ≡ true → has d b ≡ true) need
    Found need black (cycle path d) = OnCycle
    Found need black out_of_fuel = ⊥

    -- A search of one more node, and then of the others.
    then_Found :
        (d : String) (need black : List String) (s : Search) (k : List String → Search)
        → Found (d ∷ []) black s
        → ((b : List String) → IsTopological b → Found need b (k b))
        → Found (d ∷ need) black (and_then s k)
    then_Found d need black (clear b) k f g = more (k b) (g b f.0)
      where
        more : (s : Search) → Found need b s → Found (d ∷ need) black s
        more (clear c) h = (h.0, λ x e. h.1 x (f.1 x e), ((λ e. h.1 d (f.2.0 e)), h.2))
        more (cycle p x) h = h
        more out_of_fuel h = h
    then_Found d need black (cycle p x) k f g = f
    then_Found d need black out_of_fuel k f g = f

    -- A reference that need not be followed.
    skip_Found :
        (d : String) (need black : List String) (s : Search)
        → (has d nodes ≡ true → has d black ≡ true)
        → Found need black s
        → Found (d ∷ need) black s
    skip_Found d need black (clear b) e h = (h.0, h.1, ((λ x. h.1 d (e x)), h.2))
    skip_Found d need black (cycle p x) e h = h
    skip_Found d need black out_of_fuel e h = h

    each-Found :
        (node : String) (rec : String → List String → Search) (path ds black : List String)
        → ((d : String) → Edge node d → has d path ≡ true → OnCycle)
        → ((d : String) (b : List String)
            → Edge node d
            → has d path ≡ false
            → IsTopological b
            → Found (d ∷ []) b (rec d b))
        → All (λ d. has d (deps node) ≡ true) ds
        → IsTopological black
        → Found ds black (each nodes deps rec path ds black)
    unfolding each
    each-Found node rec path [] black gray white r t = (t, λ k e. e, tt)
    each-Found node rec path (d ∷ ds) black gray white r t =
        let skipped = each-Found node rec path ds black gray white r.1 t in
        let visited = λ (e : Edge node d) (g : has d path ≡ false).
          then_Found d ds black (rec d black) (λ b. each nodes deps rec path ds b)
            (white d black e g t) (λ b u. each-Found node rec path ds b gray white r.1 u) in
        if_ind (Found (d ∷ ds) black) (has d nodes)
          (λ inside.
            let e : Edge node d = record { exists = inside; refers = r.0 } in
            if_ind (Found (d ∷ ds) black) (has d path) (λ g. gray d e g)
              (λ w.
                if_ind (Found (d ∷ ds) black) (has d black)
                  (λ b. skip_Found d ds black _ (λ _. b) skipped) (λ _. visited e w)))
          (λ outside. skip_Found d ds black _ (λ i. cc (i, outside)) skipped)

  -- A path from its last node to its first.
  abbrev IsChain : List String → Type 0
  IsChain [] = Unit
  IsChain (n ∷ []) = Unit
  IsChain (n ∷ p ∷ path) = Edge p n × IsChain (p ∷ path)

  chain_Reaches :
      (n d : String) (path : List String)
      → IsChain (n ∷ path)
      → has d (n ∷ path) ≡ true
      → (d ≡ n) ⊎ Reaches d n
  chain_Reaches n d [] c h =
      inl (sym ((eq_iff n d).0 (ground (arith, has-cons d n [], has-nil d, h))))
  chain_Reaches n d (p ∷ path) c h = elim (Bool-cases (str_eq n d)) [
    | inl e ↦ inl (sym ((eq_iff n d).0 e))
    | inr e ↦ elim (chain_Reaches p d path c.1 (ground (arith, has-cons d n (p ∷ path), h, e))) [
      | inl q ↦ inr (Reaches.edge (subst (λ x. Edge x n) (sym q) c.0))
      | inr r ↦ inr (Reaches.step r c.0)
    ]
  ]

  pub From-edge : (root n d : String) → From root n → Edge n d → From root d
  From-edge root n d (inl q) e = inr (Reaches.edge (subst (λ x. Edge x d) (sym q) e))
  From-edge root n d (inr r) e = inr (Reaches.step r e)

  closes :
      (root n d : String) (path : List String)
      → From root n
      → IsChain (n ∷ path)
      → Edge n d
      → has d (n ∷ path) ≡ true
      → OnCycle root
  closes root n d path f c e h = (
    d,
    From-edge root n d f e,
    elim (chain_Reaches n d path c h) [
      | inl q ↦ Reaches.edge (subst (λ x. Edge x d) (sym q) e)
      | inr r ↦ Reaches.step r e
    ],
  )

  paint-Found :
      (root n : String) (black : List String) (s : Search)
      → Found root (deps n) black s
      → Found root (n ∷ []) black (paint nodes deps n s)
  paint-Found root n black (clear b) h = (
    ((λ m e. All-at _ (deps n) m h.2 e.refers e.exists), h.0),
    λ k e. ground (arith, has-cons k n b, h.1 k e),
    ((λ _. ground (arith, has-cons n n b, eq_iff n n)), tt),
  )
  paint-Found root n black (cycle p x) h = h
  paint-Found root n black out_of_fuel h = h

  dfs-Found :
      (root : String) (fuel : ℕ) (path : List String) (n : String) (black : List String)
      → length nodes ≤ fuel + length path
      → NoDup (n ∷ path)
      → All (λ k. has k nodes ≡ true) (n ∷ path)
      → IsChain (n ∷ path)
      → From root n
      → IsTopological black
      → Found root (n ∷ []) black (dfs nodes deps fuel path n black)
  unfolding dfs
  dfs-Found root zero path n black l d a c f t =
      absurd (omega (arith, l, length-le_of_has (n ∷ path) nodes d a))
  dfs-Found root (suc fuel) path n black l d a c f t = paint-Found root n black _ (
      each-Found root n (λ k b. dfs nodes deps fuel (n ∷ path) k b) (n ∷ path) (deps n) black
        (λ k e h. closes root n k path f c e h)
        (λ k b e h u.
          dfs-Found root fuel (n ∷ path) k b (omega (arith, l)) (h, d) (e.exists, a) (e, c)
            (From-edge root n k f e) u)
        (All-has_self (deps n)) t)

  answer :
      (root : String) (s : Search)
      → Found root (root ∷ []) [] s
      → has root nodes ≡ true
      → ((b : List String) × (s ≡ clear b) × ((m : String) → From root m → ¬ (Reaches m m)))
        ⊎ ((path : List String) × (d : String) × (s ≡ cycle path d) × OnCycle root)
  answer root (clear b) h e = inl (b, refl, acyclic)
    where
      acyclic : (m : String) → From root m → ¬ (Reaches m m)
      acyclic m (inl q) = black_acyclic b m h.0 (subst (λ k. has k b ≡ true) q (h.2.0 e))
      acyclic m (inr r) = black_acyclic b m h.0 (reach_inside b root m h.0 (h.2.0 e) r)
  answer root (cycle p d) h e = inr (p, d, refl, h)
  answer root out_of_fuel h e = absurd h

  -- The search always ends with an answer. It is clear exactly if no node that the root leads to,
  -- by references between nodes that exist, the root included, stands on a cycle; and it reports a
  -- cycle exactly if one does. The root is a node.
  pub check_for_cycles_decides :
      (root : String)
      → has root nodes ≡ true
      → ((b : List String) × (check_for_cycles nodes deps root ≡ clear b)
          × ((m : String) → From root m → ¬ (Reaches m m)))
        ⊎ ((path : List String) × (d : String) × (check_for_cycles nodes deps root ≡ cycle path d)
            × OnCycle root)
  unfolding check_for_cycles
  check_for_cycles_decides root h = rw h (
      answer root _
        (dfs-Found root (length nodes) [] root [] (omega arith) (has-nil root, tt) (h, tt) tt
          (inl refl) tt)
        h)
