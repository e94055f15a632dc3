-- ===== src/Arena/Prune.antt =====
-- Bounding the reach of undo: the depth of a node, and the arena rebuilt from a new base
-- (crates/matcha-core/src/history.rs).
use matcha.Common.{
  ℕ, zero, suc, ◌+◌, ◌-◌, ◌^◌, true, false, Option, none, some, List, [], ◌∷◌, ◌++◌, map, length,
  get_elem?, leb, ◌==◌, if◌then◌else◌,
}
use matcha.Arena.{UndoNode, History}

-- The loop of `undo_depth`: a parent stands before its children, so that as many rounds as there are
-- nodes are enough. `none` is an index out of range.
unfoldable pub depth_from : ℕ → List UndoNode → ℕ → Option ℕ
depth_from zero nodes node = none
depth_from (suc fuel) nodes node = elim (get_elem? nodes node) [
  | none ↦ none
  | some n ↦ elim n.parent [
    | none ↦ some 0
    | some parent ↦ elim (depth_from fuel nodes parent) [ none ↦ none | some d ↦ some (suc d) ]
  ]
]

unfoldable pub undo_depth : History → Option ℕ
unfolding depth_from
undo_depth h = depth_from (length h.nodes) h.nodes h.current

-- `max` steps towards the root.
unfoldable pub ancestor : ℕ → List UndoNode → ℕ → Option ℕ
ancestor zero nodes node = some node
ancestor (suc steps) nodes node = elim (get_elem? nodes node) [
  | none ↦ none
  | some n ↦ elim n.parent [ none ↦ none | some parent ↦ ancestor steps nodes parent ]
]

-- Where an old id stands in `order`, which is its new id; `remap` of the source holds this inverse.
unfoldable pub index_of : ℕ → List ℕ → Option ℕ
index_of id [] = none
index_of id (x ∷ order) =
    if x == id then some 0 else elim (index_of id order) [ none ↦ none | some i ↦ some (suc i) ]

-- The children that have no new id yet are put at the end of the queue.
unfoldable pub enqueue : List ℕ → List ℕ → List ℕ
unfolding index_of
enqueue [] order = order
enqueue (child ∷ children) order = elim (index_of child order) [
  | none ↦ enqueue children (order ++ child ∷ [])
  | some i ↦ enqueue children order
]

-- The breadth-first walk: `i` ids of `order` are done. Each round takes one, and an id stands once in
-- `order`, so that as many rounds as there are nodes, and one to stop, are enough.
unfoldable pub walk : ℕ → List UndoNode → ℕ → List ℕ → Option (List ℕ)
unfolding enqueue
walk zero nodes i order = none
walk (suc fuel) nodes i order = elim (get_elem? order i) [
  | none ↦ some order
  | some old ↦ elim (get_elem? nodes old) [
    | none ↦ none
    | some n ↦ walk fuel nodes (suc i) (enqueue n.children order)
  ]
]

-- `remap[id]`, which is `usize::MAX` where the walk did not come.
unfoldable pub remap : List ℕ → ℕ → ℕ
unfolding index_of
remap order id = elim (index_of id order) [ none ↦ 2 ^ 64 - 1 | some i ↦ i ]

abbrev pub remap_option : List ℕ → Option ℕ → Option ℕ
remap_option order none = none
remap_option order (some id) = some (remap order id)

unfoldable pub rebuild_node : List ℕ → UndoNode → UndoNode
rebuild_node order n = record {
  parent = remap_option order n.parent;
  children = map (remap order) n.children;
  preferred_child = remap_option order n.preferred_child;
  elem = n.elem;
}

unfoldable pub rebuild_nodes : List UndoNode → List ℕ → List ℕ → Option (List UndoNode)
unfolding rebuild_node
rebuild_nodes nodes order [] = some []
rebuild_nodes nodes order (old ∷ olds) = elim (get_elem? nodes old) [
  | none ↦ none
  | some n ↦ elim (rebuild_nodes nodes order olds) [
    | none ↦ none
    | some rest ↦ some (rebuild_node order n ∷ rest)
  ]
]

-- The new base loses its parent and its element.
unfoldable pub rebuild_from : History → ℕ → Option History
unfolding walk rebuild_nodes remap
rebuild_from h new_base = elim (walk (length h.nodes + 1) h.nodes 0 (new_base ∷ [])) [
  | none ↦ none
  | some order ↦ elim (rebuild_nodes h.nodes order order) [
    | none ↦ none
    | some [] ↦ none
    | some (base ∷ rest) ↦ some (record h {
      nodes = record base { parent = none; elem = none } ∷ rest;
      current = remap order h.current;
    })
  ]
]

unfoldable pub prune_if_needed : History → Option History
unfolding undo_depth ancestor rebuild_from
prune_if_needed h = elim h.max_undo [
  | none ↦ some h
  | some max ↦ elim (undo_depth h) [
    | none ↦ none
    | some depth ↦ elim (leb depth max) [
      | true ↦ some h
      | false ↦ elim (ancestor max h.nodes h.current) [
        | none ↦ none
        | some new_base ↦ rebuild_from h new_base
      ]
    ]
  ]
]

unfoldable pub set_max_undo : History → Option ℕ → Option History
unfolding prune_if_needed
set_max_undo h limit = prune_if_needed (record h { max_undo = limit })
