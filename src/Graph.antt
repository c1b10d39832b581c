-- ===== src/Graph.antt =====
-- The graph algorithms inside `WorkflowDefinition` (src/contracts/workflow/models.py): adjacency
-- sets, the depth-first `visit` of `_validate_graph`, its terminal-coverage worklist, and
-- `_can_reach`. A set is a list; the order in which Python iterates over a set is not fixed, and
-- no theorem depends on it.
pub mod Edges
pub mod Visit
pub mod Cycles
pub mod Reached
pub mod Fuel
pub mod Coverage
pub mod Search
use myknowledgebase.Prelude.{
  ℕ, zero, suc, ◌+◌, Bool, true, false, Option, none, some, List, [], ◌∷◌, ◌++◌, if◌then◌else◌, Eq,
  ◌==◌, contains, length, add, keep, not, lookup, Result, ok, err, ◌>>=◌,
}

-- `defaultdict(set)`: the targets of each source that has an edge.
abbrev pub Adjacency {ℓ} : Type ℓ → Type ℓ
Adjacency K = List (K × List K)

pub data Mark : Type 0 where
  visiting visited : Mark

-- `visit_state`; the newest mark of a key is found first.
abbrev pub Marks {ℓ} : Type ℓ → Type ℓ
Marks K = List (K × Mark)

pub data Trouble : Type 0 where
  cycle : Trouble
  out_of_fuel : Trouble

module _ {ℓ} {K : Type ℓ} ⦃e : Eq K⦄ where
  -- `adjacency.get(k, set())`
  unfoldable pub targets : Adjacency K → K → List K
  targets [] k = []
  targets ((j, ts) ∷ adj) k = if j == k then ts else targets adj k

  -- `adjacency[a].add(b)`
  unfoldable pub add_edge : K → K → Adjacency K → Adjacency K
  add_edge a b [] = (a, b ∷ []) ∷ []
  add_edge a b ((j, ts) ∷ adj) = if j == a then (j, add b ts) ∷ adj else (j, ts) ∷ add_edge a b adj

  -- The body of `for source_key, target_keys in adjacency.items()`.
  pub add_sources : K → List K → Adjacency K → Adjacency K
  add_sources s [] rev = rev
  add_sources s (t ∷ ts) rev = add_sources s ts (add_edge t s rev)

  unfoldable pub reverse_edges : Adjacency K → Adjacency K → Adjacency K
  unfolding add_sources
  reverse_edges [] rev = rev
  reverse_edges ((s, ts) ∷ adj) rev = reverse_edges adj (add_sources s ts rev)

  -- `for target_key in targets: visit(target_key)`
  pub visit_each :
      (Marks K → K → Result Trouble (Marks K)) → List K → Marks K → Result Trouble (Marks K)
  visit_each go [] st = ok st
  visit_each go (t ∷ ts) st = go st t >>= λ st'. visit_each go ts st'

  -- The nested function `visit`; fuel bounds the depth of its recursion.
  unfoldable pub visit : ℕ → Adjacency K → Marks K → K → Result Trouble (Marks K)
  unfolding visit_each targets
  visit zero adj st k = err out_of_fuel
  visit (suc f) adj st k = elim (lookup st k) [
    | some visiting ↦ err cycle
    | some visited ↦ ok st
    | none ↦ visit_each (visit f adj) (targets adj k) ((k, visiting) ∷ st) >>= λ st'.
        ok ((k, visited) ∷ st')
  ]

  -- The inner loop of the coverage worklist: `can_reach_terminal` and `pending`, top of stack first.
  pub absorb : List K → List K → List K → List K × List K
  absorb [] reached pending = (reached, pending)
  absorb (s ∷ ss) reached pending =
      let old = absorb ss reached pending in
      let new = absorb ss (s ∷ reached) (s ∷ pending) in if contains reached s then old else new

  -- `while pending:` of the coverage check. `none` means that the fuel ran out.
  unfoldable pub coverage : ℕ → Adjacency K → List K → List K → Option (List K)
  unfolding absorb targets
  coverage f rev reached [] = some reached
  coverage zero rev reached (t ∷ pending) = none
  coverage (suc f) rev reached (t ∷ pending) =
      let (reached', pending') = absorb (targets rev t) reached pending in
      coverage f rev reached' pending'

  -- The loop of `_can_reach`, with its stack.
  pub search_from : ℕ → Adjacency K → K → List K → List K → Option Bool
  unfolding targets
  search_from f adj goal seen [] = some false
  search_from zero adj goal seen (k ∷ pending) = none
  search_from (suc f) adj goal seen (k ∷ pending) =
      let skip = search_from f adj goal seen pending in
      let expand =
        search_from f adj goal (k ∷ seen)
          (keep (λ t. not (contains (k ∷ seen) t)) (targets adj k) ++ pending) in
      if k == goal then some true else if contains seen k then skip else expand

  -- How many edges leave the keys that are not seen: what is left for the loop of `_can_reach`.
  pub edges_left : List K → Adjacency K → ℕ
  edges_left seen [] = 0
  edges_left seen ((j, ts) ∷ adj) = (if contains seen j then 0 else length ts) + edges_left seen adj

  -- `_can_reach`, for a source that is not `None`. Its loop makes at most one round for the source
  -- and one for each edge.
  unfoldable pub can_reach : Adjacency K → K → K → Option Bool
  unfolding edges_left search_from
  can_reach adj source target =
      if source == target
      then some false
      else search_from (suc (edges_left [] adj)) adj target [] (source ∷ [])
