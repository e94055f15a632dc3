-- ===== src/History/Consistent.antt =====
-- The invariant that ties the undo tree to the text: every version id stands for one text, and the
-- element of a node leads from the text of its `alt_before` to that of its `alt_after`.
use matcha.Common.{
  ℕ, ◌≤◌, ◌≡◌, ◌≢◌, refl, subst, true, false, ◌==◌, Option, none, some, List, [], ◌∷◌, map, reverse,
  get_elem?, arith, zero, suc,
}
use mathlib.Core.Option.{some-injective}
use matcha.Ropey.{Ropey}
use matcha.Buffer.{Buffer}
use matcha.Buffer.Edits.{content}
use matcha.Transaction.{Committed}
use matcha.Transaction.Apply.{IsDocument}
use matcha.Arena.{Step, Element, UndoNode, History, empty_history, base_node}
use matcha.History.{Replay, replay, undo, redo}
use matcha.History.Paths.{Leads}

-- The version at a node: that of its element, or the base version at the root.
abbrev pub elem_alt : ℕ → Option Element → ℕ
elem_alt base none = base
elem_alt base (some e) = e.alt_after

abbrev pub elem_before : Option Element → Option ℕ
elem_before none = none
elem_before (some e) = some e.alt_before

-- The node `c` is a child of the node `n` at `i`, and its element starts at the version of `n`.
abbrev pub ChildOf : List UndoNode → ℕ → ℕ → UndoNode → ℕ → Type 0
ChildOf nodes base i n c =
    (m : UndoNode) × (get_elem? nodes c ≡ some m)
    × (elem_before m.elem ≡ some (elem_alt base n.elem))
    × (m.parent ≡ some i)

module _ (R : Ropey) where
  -- Only the root has no element, and no parent; another node's starts at the version of its parent.
  abbrev pub Edge : List UndoNode → ℕ → ℕ → (ℕ → List ℕ) → ℕ → Option ℕ → Option Element → Type 0
  Edge nodes base seq text i parent none = (i ≡ 0) × (parent ≡ none)
  Edge nodes base seq text i parent (some e) =
      (p : ℕ) × (m : UndoNode) × (parent ≡ some p)
      × (get_elem? nodes p ≡ some m)
      × (e.alt_before ≡ elem_alt base m.elem)
      × (e.alt_before ≤ seq)
      × (e.alt_after ≤ seq)
      × Leads R e.steps (text e.alt_before) (text e.alt_after)

  pub record IsNode (nodes : List UndoNode) (base seq : ℕ) (text : ℕ → List ℕ) (i : ℕ)
      (n : UndoNode) : Type 0 where
    pub edge : Edge nodes base seq text i n.parent n.elem
    pub preferred : (c : ℕ) → n.preferred_child ≡ some c → ChildOf nodes base i n c
    pub children : (k c : ℕ) → get_elem? n.children k ≡ some c → ChildOf nodes base i n c

  -- `text` gives the text of a version, `base` is the version at the root. While the current element
  -- is open, its node has no children.
  pub record IsHistory (text : ℕ → List ℕ) (base : ℕ) (h : History) : Type 0 where
    pub node : UndoNode
    pub here : get_elem? h.nodes h.current ≡ some node
    pub version : h.alt ≡ elem_alt base node.elem
    pub each :
        (i : ℕ) (n : UndoNode)
        → get_elem? h.nodes i ≡ some n
        → IsNode h.nodes base h.alt_seq text i n
    pub childless :
        h.is_open ≡ true
        → (j : ℕ) (m : UndoNode) → get_elem? h.nodes j ≡ some m
        → m.parent ≢ some h.current
    pub alt_le : h.alt ≤ h.alt_seq
    pub saved_le : h.saved_alt ≤ h.alt_seq
    pub base_le : base ≤ h.alt_seq
    pub unbounded : h.max_undo ≡ none

  pub empty_history-IsHistory : (t : List ℕ) → IsHistory (λ _. t) 0 empty_history
  empty_history-IsHistory t = record {
    node = base_node;
    here = refl;
    version = refl;
    each = only_root;
    childless = λ o. cc;
    alt_le = omega arith;
    saved_le = omega arith;
    base_le = omega arith;
    unbounded = refl;
  }
    where
      only_root :
          (i : ℕ) (n : UndoNode)
          → get_elem? (base_node ∷ []) i ≡ some n
          → IsNode (base_node ∷ []) 0 0 (λ _. t) i n
      only_root zero n e =
          subst (IsNode (base_node ∷ []) 0 0 (λ _. t) 0) (some-injective _ _ e)
            (record { edge = (refl, refl); preferred = λ c. cc; children = λ k c. cc })
      only_root (suc i) n e = cc

  -- The history fits the buffer: the text is that of the current version.
  pub record IsSession {S : Type 0} (on_step : Committed → Buffer R → S → S) (text : ℕ → List ℕ)
      (base : ℕ) (h : History) (r : Replay R on_step) : Type 0 where
    pub history : IsHistory text base h
    pub document : IsDocument R r.buffer
    pub current : content R r.buffer ≡ text h.alt

  pub Edge-of :
      {nodes : List UndoNode} {base seq : ℕ} {text : ℕ → List ℕ} {i : ℕ} {n : UndoNode}
      → IsNode nodes base seq text i n
      → (o : Option Element) → n.elem ≡ o
      → Edge nodes base seq text i n.parent o
  Edge-of {nodes} {base} {seq} {text} {i} {n} v o e =
      subst (Edge nodes base seq text i n.parent) e v.edge

module _ (R : Ropey) {S : Type 0} (on_step : Committed → Buffer R → S → S) where
  pub undo_steps :
      (h : History) (r r' : Replay R on_step) (n : UndoNode) (e : Element) (p : ℕ)
      → (h.current == 0) ≡ false
      → get_elem? h.nodes h.current ≡ some n
      → n.elem ≡ some e
      → replay R on_step (reverse (map (λ (s : Step). s.inverse) e.steps)) r ≡ some r'
      → n.parent ≡ some p
      → undo R on_step h r
        ≡ some (record h { current = p; alt = e.alt_before; is_open = false }, r', true)
  unfolding undo
  undo_steps h r r' n e p c g m d q = ground (arith, c, g, m, d, q)

  pub redo_steps :
      (h : History) (r r' : Replay R on_step) (n m : UndoNode) (e : Element) (c : ℕ)
      → get_elem? h.nodes h.current ≡ some n
      → n.preferred_child ≡ some c
      → get_elem? h.nodes c ≡ some m
      → m.elem ≡ some e
      → replay R on_step (map (λ (s : Step). s.forward) e.steps) r ≡ some r'
      → redo R on_step h r
        ≡ some (record h { current = c; alt = e.alt_after; is_open = false }, r', true)
  unfolding redo
  redo_steps h r r' n m e c g p k l d = ground (arith, g, p, k, l, d)
