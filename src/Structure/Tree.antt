-- ===== src/Structure/Tree.antt =====
-- The checks of `validate_structure` in src/services/lsrag_compiler/validate.py on the nodes of a
-- structure document: one root, unique nodes, orders, parents and depths.
use myknowledgebase.Prelude.{
  ℕ, suc, String, Bool, true, false, not, ◌&&◌, Option, none, some, List, [], ◌∷◌, map, Result, ok,
  ◌>>=◌, ◌>>◌, require, of_option, each, ◌==◌, string_eq, nat_eq, option_eq, leb, all, keep,
  contains, distinct, is_some, if◌then◌else◌,
}
use myknowledgebase.Structure.Model.{
  Fault, StructureNode, StructureDocument, tree_root, tree_duplicate_node, node_kind_invalid,
  order_invalid, tree_parent, tree_depth, is_empty,
}

-- `_NODE_KINDS`
abbrev pub node_kinds : List String
node_kinds =
    "document" ∷ "section" ∷ "paragraph" ∷ "list" ∷ "list_item" ∷ "table" ∷ "table_row"
    ∷ "table_cell" ∷ "code" ∷ "quote" ∷ "media_ref" ∷ "heading" ∷ []

-- `list(range(start, start + n)) == xs`
abbrev pub counts_from : ℕ → List ℕ → Bool
counts_from start [] = true
counts_from start (x ∷ xs) = (x == start) && counts_from (suc start) xs

abbrev pub insert_sorted : ℕ → List ℕ → List ℕ
insert_sorted x [] = x ∷ []
insert_sorted x (y ∷ ys) =
    let rest = insert_sorted x ys in if leb x y then x ∷ (y ∷ ys) else y ∷ rest

abbrev pub sorted : List ℕ → List ℕ
sorted [] = []
sorted (x ∷ xs) = insert_sorted x (sorted xs)

abbrev pub node_ids : List StructureNode → List String
node_ids nodes = map (λ n. n.node_id) nodes

abbrev pub roots : List StructureNode → List StructureNode
roots nodes = keep (λ n. not (is_some n.parent_node_id)) nodes

abbrev pub is_one_root : String → List StructureNode → Bool
is_one_root root_id (r ∷ []) = (r.node_id == root_id) && (r.node_kind == "document")
is_one_root root_id _ = false

abbrev pub children_of : String → List StructureNode → List StructureNode
children_of parent nodes = keep (λ n. n.parent_node_id == some parent) nodes

-- `node.node_id not in children`
abbrev pub is_leaf : List StructureNode → StructureNode → Bool
is_leaf nodes n = is_empty (children_of n.node_id nodes)

abbrev pub find_node : List StructureNode → String → Option StructureNode
find_node [] id = none
find_node (n ∷ nodes) id = let rest = find_node nodes id in if n.node_id == id then some n else rest

abbrev pub under_parent :
    List StructureNode → StructureNode → Option String → Result Fault (Unit {0})
under_parent nodes n none = ok tt
under_parent nodes n (some parent_id) = do
  parent ← of_option (find_node nodes parent_id) tree_parent
  require (n.depth == suc parent.depth) tree_depth

-- The loop over the nodes: its body.
abbrev pub parent_checked : List StructureNode → StructureNode → Result Fault (Unit {0})
parent_checked nodes n = under_parent nodes n n.parent_node_id

-- The ordinals of the children of a node, where it has some.
abbrev pub siblings_counted : List StructureNode → StructureNode → Bool
siblings_counted nodes n =
    counts_from 0 (sorted (map (λ m. m.sibling_ordinal) (children_of n.node_id nodes)))

unfoldable pub validate_tree : StructureDocument → Result Fault (Unit {0})
validate_tree document = do
  require (is_one_root document.document_root_node_id (roots document.nodes)) tree_root
  require (distinct (node_ids document.nodes)) tree_duplicate_node
  require (all (λ n. contains node_kinds n.node_kind) document.nodes) node_kind_invalid
  require (counts_from 0 (map (λ n. n.reading_ordinal) document.nodes)) order_invalid
  each (parent_checked document.nodes) document.nodes
  require (all (siblings_counted document.nodes) document.nodes) order_invalid
