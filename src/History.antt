-- ===== src/History.antt =====
-- The branching undo tree over its arena (crates/matcha-core/src/history.rs). An index out of range
-- and a missing parent or element are panics, which give `none`.
pub mod Paths
pub mod Consistent
pub mod Travel
pub mod Lookup
pub mod Branch
pub mod Merge
pub mod Recording
pub mod Steering
pub mod Sessions
use matcha.Common.{
  ℕ, zero, suc, ◌+◌, Bool, true, false, not, ◌&&◌, Option, none, some, List, [], ◌∷◌, ◌++◌, map,
  reverse, length, get_elem?, set, ◌==◌, if◌then◌else◌,
}
use matcha.Ropey.{Ropey}
use matcha.Buffer.{Buffer}
use matcha.Selection.{SelectionSet, rebase}
use matcha.Transaction.{EditOp, Committed, Outcome, ok, err, apply}
use matcha.Arena.{OpClass, other, same_class, GroupingHint, Step, Element, UndoNode, History}
use matcha.Arena.Prune.{prune_if_needed}

unfoldable pub can_undo : History → Bool
can_undo h = not (h.current == 0)

unfoldable pub can_redo : History → Bool
can_redo h = elim (get_elem? h.nodes h.current) [
  | none ↦ false
  | some n ↦ elim n.preferred_child [ none ↦ false | some child ↦ true ]
]

-- Whether a step of a class may join the element of a node.
unfoldable pub can_merge : Bool → OpClass → UndoNode → Bool
can_merge is_open op n =
    is_open
    && not (same_class op other)
    && elim n.elem [ none ↦ false | some e ↦ same_class e.op op ]

unfoldable pub merge_step : History → UndoNode → Element → Step → History
merge_step h n e step = record h {
  nodes =
      set h.nodes h.current
        (record n { elem = some (record e { steps = e.steps ++ step ∷ []; alt_after = h.alt }) });
}

-- A new child of the current node `n`, which becomes the current one.
unfoldable pub branch_step : History → UndoNode → ℕ → Step → OpClass → History
branch_step h n alt_before step op = record h {
  nodes =
      set h.nodes h.current (record n {
        children = n.children ++ length h.nodes ∷ [];
        preferred_child = some (length h.nodes);
      })
      ++ record {
        parent = some h.current;
        children = [];
        preferred_child = none;
        elem =
            some
              (record { steps = step ∷ []; op = op; alt_before = alt_before; alt_after = h.alt });
      }
        ∷ [];
  current = length h.nodes;
  is_open = true;
}

-- The part of `record` between the two seals, where `n` is the current node.
unfoldable pub record_step : History → UndoNode → ℕ → Step → OpClass → History
unfolding merge_step branch_step
record_step h n alt_before step op =
    if h.is_open && not (same_class op other)
    then elim n.elem [
      | none ↦ branch_step h n alt_before step op
      | some e ↦
          if same_class e.op op then merge_step h n e step else branch_step h n alt_before step op
    ]
    else branch_step h n alt_before step op

-- `record`
unfoldable pub record_edit : History → List EditOp → List EditOp → GroupingHint → Option History
unfolding record_step prune_if_needed
record_edit h forward inverse hint = elim (get_elem? h.nodes h.current) [
  | none ↦ none
  | some n ↦
      let opened : History = record h {
        is_open = h.is_open && not hint.seal_before;
        alt = h.alt_seq + 1;
        alt_seq = h.alt_seq + 1;
      } in
      let recorded =
        record_step opened n h.alt (record { forward = forward; inverse = inverse }) hint.op in
      prune_if_needed (record recorded { is_open = recorded.is_open && not hint.seal_after })
]

unfoldable pub redo_branch_count : History → Option ℕ
redo_branch_count h = elim (get_elem? h.nodes h.current) [
  | none ↦ none
  | some n ↦ some (length n.children)
]

-- The Boolean is what the method returns.
unfoldable pub select_redo_branch : History → ℕ → Option (History × Bool)
select_redo_branch h index = elim (get_elem? h.nodes h.current) [
  | none ↦ none
  | some n ↦ elim (get_elem? n.children index) [
    | none ↦ some (h, false)
    | some child ↦ some (
      record h { nodes = set h.nodes h.current (record n { preferred_child = some child }) },
      true,
    )
  ]
]

unfoldable pub seal : History → History
seal h = record h { is_open = false }

unfoldable pub is_dirty : History → Bool
is_dirty h = not (h.alt == h.saved_alt)

unfoldable pub mark_saved : History → History
mark_saved h = record h { saved_alt = h.alt }

-- Undo and redo over a buffer. `on_step` is the caller's closure, which moves its derived views, a
-- state `S`, through each step.
module _ (R : Ropey) {S : Type 0} (on_step : Committed → Buffer R → S → S) where
  pub record Replay : Type 0 where
    pub buffer : Buffer R
    pub selections : SelectionSet
    pub views : S

  -- A refused step is the panic of `expect`.
  unfoldable pub replay : List (List EditOp) → Replay → Option Replay
  replay [] r = some r
  replay (ops ∷ steps) r = elim (apply R r.buffer ops) [
    | none ↦ none
    | some (b, err e) ↦ none
    | some (b, ok c) ↦ replay steps (record {
      buffer = b;
      selections = rebase r.selections c.patch;
      views = on_step c b r.views;
    })
  ]

  unfoldable pub undo : History → Replay → Option (History × Replay × Bool)
  unfolding replay
  undo h r = elim (h.current == 0) [
    | true ↦ some (h, r, false)
    | false ↦ elim (get_elem? h.nodes h.current) [
      | none ↦ none
      | some n ↦ elim n.elem [
        | none ↦ none
        | some e ↦ elim (replay (reverse (map (λ (s : Step). s.inverse) e.steps)) r) [
          | none ↦ none
          | some r' ↦ elim n.parent [
            | none ↦ none
            | some parent ↦
                some (record h { current = parent; alt = e.alt_before; is_open = false }, r', true)
          ]
        ]
      ]
    ]
  ]

  unfoldable pub redo : History → Replay → Option (History × Replay × Bool)
  unfolding replay
  redo h r = elim (get_elem? h.nodes h.current) [
    | none ↦ none
    | some n ↦ elim n.preferred_child [
      | none ↦ some (h, r, false)
      | some child ↦ elim (get_elem? h.nodes child) [
        | none ↦ none
        | some m ↦ elim m.elem [
          | none ↦ none
          | some e ↦ elim (replay (map (λ (s : Step). s.forward) e.steps) r) [
            | none ↦ none
            | some r' ↦
                some (record h { current = child; alt = e.alt_after; is_open = false }, r', true)
          ]
        ]
      ]
    ]
  ]
