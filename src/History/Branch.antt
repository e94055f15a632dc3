-- ===== src/History/Branch.antt =====
-- Recording an edit as a new child of the current node keeps the history consistent.
use matcha.Common.{
  ℕ, ◌+◌, ◌≡◌, ◌≢◌, refl, sym, ap, ◌∙◌, subst, Bool, none, some, List, [], ◌∷◌, ◌++◌, length,
  get_elem?, set, get_elem?_lt, get_elem?-set, get_elem?-set_other, length-set,
  get_elem?-append_left, get_elem?-append_end, inl, inr, Option-cases, arith,
}
use native.Mathlib.Decide.{ℕ_discrete}
use mathlib.Core.Option.{some-injective}
use mathlib.Core.Path.{subst₂}
use matcha.Ropey.{Ropey}
use matcha.Arena.{OpClass, Step, UndoNode, History}
use matcha.Transaction.Replay.{Takes}
use matcha.History.{branch_step}
use matcha.History.Paths.{Leads}
use matcha.History.Consistent.{elem_alt, elem_before, ChildOf, IsNode, IsHistory, Edge-of}
use matcha.History.Lookup.{
  changed_lookup, appended_lookup, opened, later, later-agree, extend_self, Kept, IsNode-kept,
}

module _ (R : Ropey) (text : ℕ → List ℕ) (base : ℕ) (h : History) (v : IsHistory R text base h)
    (t : List ℕ) (s : Step) (forth : Takes R s.forward (text h.alt) t)
    (back : Takes R s.inverse t (text h.alt)) where
  -- The current node with the new child, and the child.
  abbrev branched : UndoNode
  branched = record v.node {
    children = v.node.children ++ length h.nodes ∷ [];
    preferred_child = some (length h.nodes);
  }

  abbrev sprout : OpClass → UndoNode
  sprout op = record {
    parent = some h.current;
    children = [];
    preferred_child = none;
    elem = some (record { steps = s ∷ []; op = op; alt_before = h.alt; alt_after = h.alt_seq + 1 });
  }

  abbrev grown : OpClass → List UndoNode
  grown op = set h.nodes h.current branched ++ sprout op ∷ []

  branched_here : (op : OpClass) → get_elem? (grown op) h.current ≡ some branched
  branched_here op =
      get_elem?-append_left _ _ h.current (
        omega (
          arith,
          get_elem?_lt h.nodes h.current v.node v.here,
          length-set h.nodes h.current branched,
        ))
      ∙ get_elem?-set h.nodes h.current _ (get_elem?_lt h.nodes h.current v.node v.here)

  sprout_here : (op : OpClass) → get_elem? (grown op) (length h.nodes) ≡ some (sprout op)
  sprout_here op =
      get_elem?-append_end _ (sprout op) (length h.nodes)
        (sym (length-set h.nodes h.current branched))

  branch-Kept : (op : OpClass) → Kept base h.nodes (grown op)
  branch-Kept op p m g = elim (ℕ_discrete p h.current) [
    | yes e ↦
        let same : v.node ≡ m =
          some-injective _ _ (sym v.here ∙ ap (get_elem? h.nodes) (sym e) ∙ g) in
        (
          branched,
          ap (get_elem? (grown op)) e ∙ branched_here op,
          ap (λ (k : UndoNode). k.parent) same,
          ap (λ (k : UndoNode). elem_before k.elem) same,
          λ j k g' up. ap (λ (k : UndoNode). elem_alt base k.elem) same,
        )
    | no ne ↦ (
      m,
      get_elem?-append_left _ _ p
            (omega (arith, get_elem?_lt h.nodes p m g, length-set h.nodes h.current branched))
          ∙ get_elem?-set_other h.nodes h.current p _ (λ e. ne (sym e))
          ∙ g,
      refl,
      refl,
      λ j k g' up. refl,
    )
  ]

  sprout-IsNode :
      (op : OpClass)
      → IsNode R (grown op) base (h.alt_seq + 1) (later h text t) (length h.nodes) (sprout op)
  sprout-IsNode op = record {
    edge = (
      h.current,
      branched,
      refl,
      branched_here op,
      v.version,
      omega (arith, v.alt_le),
      omega arith,
      subst₂ (λ (a : List ℕ) (b : List ℕ). Leads R (s ∷ []) a b)
          (sym (later-agree h text t h.alt v.alt_le)) (sym (extend_self text (h.alt_seq + 1) t))
          (t, forth, back, refl),
    );
    preferred = λ c. cc;
    children = λ k c. cc;
  }

  sprout-ChildOf : (op : OpClass) → ChildOf (grown op) base h.current branched (length h.nodes)
  sprout-ChildOf op = (sprout op, sprout_here op, ap some v.version, refl)

  branched-IsNode :
      (op : OpClass) → IsNode R (grown op) base (h.alt_seq + 1) (later h text t) h.current branched
  branched-IsNode op =
      let n =
        IsNode-kept R h.nodes (grown op) base h.alt_seq (h.alt_seq + 1) text (later h text t)
          (branch-Kept op) (later-agree h text t) (omega arith) h.current v.node v.here
          (v.each h.current v.node v.here) in
      record {
        edge = n.edge;
        preferred = λ c e.
            subst (ChildOf (grown op) base h.current branched) (some-injective _ _ e)
              (sprout-ChildOf op);
        children = λ k c e. elim (appended_lookup v.node.children (length h.nodes) k c e) [
          | inl end ↦
              subst (ChildOf (grown op) base h.current branched) (sym end.1) (sprout-ChildOf op)
          | inr before ↦ n.children k c before
        ];
      }

  branch_each :
      (op : OpClass) (i : ℕ) (n : UndoNode)
      → get_elem? (grown op) i ≡ some n
      → IsNode R (grown op) base (h.alt_seq + 1) (later h text t) i n
  branch_each op i n g = elim (appended_lookup (set h.nodes h.current branched) (sprout op) i n g) [
    | inl end ↦
        subst₂
          (λ (i : ℕ) (n : UndoNode). IsNode R (grown op) base (h.alt_seq + 1) (later h text t) i n)
          (sym (end.0 ∙ length-set h.nodes h.current branched)) (sym end.1) (sprout-IsNode op)
    | inr before ↦ elim (changed_lookup h.nodes h.current branched i n before) [
      | inl same ↦
          subst₂
            (λ (i : ℕ) (n : UndoNode).
              IsNode R (grown op) base (h.alt_seq + 1) (later h text t) i n)
            (sym same.0) (sym same.1) (branched-IsNode op)
      | inr away ↦
          IsNode-kept R h.nodes (grown op) base h.alt_seq (h.alt_seq + 1) text (later h text t)
            (branch-Kept op) (later-agree h text t) (omega arith) i n away.1 (v.each i n away.1)
    ]
  ]

  -- No node has the new one for its parent.
  sprout_childless :
      (op : OpClass) (j : ℕ) (m : UndoNode)
      → get_elem? (grown op) j ≡ some m
      → m.parent ≢ some (length h.nodes)
  sprout_childless op j m g e =
      elim (appended_lookup (set h.nodes h.current branched) (sprout op) j m g) [
        | inl end ↦
            let at : h.current ≡ length h.nodes =
              some-injective _ _ (sym (ap (λ (k : UndoNode). k.parent) end.1) ∙ e) in
            absurd (omega (arith, at, get_elem?_lt h.nodes h.current v.node v.here))
        | inr before ↦ elim (changed_lookup h.nodes h.current branched j m before) [
          | inl same ↦
              old_parent h.current v.node v.here (sym (ap (λ (k : UndoNode). k.parent) same.1) ∙ e)
          | inr away ↦ old_parent j m away.1 e
        ]
      ]
    where
      old_parent :
          (i : ℕ) (n : UndoNode) → get_elem? h.nodes i ≡ some n → n.parent ≢ some (length h.nodes)
      old_parent i n g e = elim (Option-cases n.elem) [
        | inl root ↦ cc (sym (Edge-of R (v.each i n g) none root).1 ∙ e)
        | inr found ↦
            let (p, m, up, at, starts, before_le, after_le, leads) =
              Edge-of R (v.each i n g) (some found.0) found.1 in
            let same : p ≡ length h.nodes = some-injective _ _ (sym up ∙ e) in
            absurd (omega (arith, same, get_elem?_lt h.nodes p m at))
      ]

  pub branch_step-IsHistory :
      (o : Bool) (op : OpClass)
      → IsHistory R (later h text t) base (branch_step (opened h o) v.node h.alt s op)
  unfolding branch_step
  branch_step-IsHistory o op = record {
    node = sprout op;
    here = sprout_here op;
    version = refl;
    each = branch_each op;
    childless = λ _ j m g. sprout_childless op j m g;
    alt_le = omega arith;
    saved_le = omega (arith, v.saved_le);
    base_le = omega (arith, v.base_le);
    unbounded = v.unbounded;
  }
