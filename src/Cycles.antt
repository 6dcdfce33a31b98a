-- ===== src/Cycles.antt =====
-- app/chain/sequences.py and app/wildcards.py: the depth-first search of their `check_for_cycles`.
-- `nodes` are the keys of `color`, and `deps` is what a node refers to. A gray node is one of the
-- path, which is kept with its last node first; a black one is in the list that a search returns.
pub mod Decides
pub mod Change
use ai_job_server.Prelude.{
  ℕ, zero, suc, String, List, [], ◌∷◌, Bool, true, false, if◌then◌else◌, length,
}
use ai_job_server.Prelude.Dict.{has}

-- `cycle` is the `ValueError`, with the path and the node that closes the cycle.
pub data Search : Type 0 where
  clear : (black : List String) → Search
  cycle : (path : List String) (node : String) → Search
  out_of_fuel : Search

abbrev pub and_then : Search → (List String → Search) → Search
and_then (clear black) k = k black
and_then s k = s

module _ (nodes : List String) (deps : String → List String) where
  -- The loop over the references of the first node of the path; `rec` is `dfs` on that path.
  unfoldable pub each :
      (String → List String → Search) → List String → List String → List String → Search
  unfolding has
  each rec path [] black = clear black
  each rec path (dep ∷ rest) black =
      let skipped = each rec path rest black in
      let visited = and_then (rec dep black) (λ b. each rec path rest b) in
      if has dep nodes
      then (if has dep path then cycle path dep else if has dep black then skipped else visited)
      else skipped

  abbrev pub paint : String → Search → Search
  paint node (clear black) = clear (node ∷ black)
  paint node s = s

  unfoldable pub dfs : ℕ → List String → String → List String → Search
  unfolding each
  dfs zero path node black = out_of_fuel
  dfs (suc fuel) path node black =
      paint node (each (λ d b. dfs fuel (node ∷ path) d b) (node ∷ path) (deps node) black)

  -- A path has no node twice, so it is no longer than `nodes`.
  unfoldable pub check_for_cycles : String → Search
  unfolding dfs has
  check_for_cycles root = if has root nodes then dfs (length nodes) [] root [] else clear []
