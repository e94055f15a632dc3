-- ===== src/History/Merge.antt =====
-- Recording an edit as one more step of the open element keeps the history consistent.
use matcha.Common.{
  ℕ, ◌+◌, ◌≡◌, refl, sym, ap, ◌∙◌, subst, Bool, true, some, List, [], ◌∷◌, ◌++◌, get_elem?, set,
  get_elem?_lt, get_elem?-set, get_elem?-set_other, inl, inr, arith,
}
use native.Mathlib.Decide.{ℕ_discrete}
use mathlib.Core.Option.{some-injective}
use mathlib.Core.Path.{subst₂}
use matcha.Ropey.{Ropey}
use matcha.Arena.{Step, Element, UndoNode, History}
use matcha.Transaction.Replay.{Takes}
use matcha.History.{merge_step}
use matcha.History.Paths.{Leads, Leads-append}
use matcha.History.Consistent.{elem_alt, elem_before, ChildOf, IsNode, IsHistory, Edge-of}
use matcha.History.Lookup.{
  changed_lookup, opened, later, later-agree, extend_self, Kept, IsNode-kept,
}

module _ (R : Ropey) (text : ℕ → List ℕ) (base : ℕ) (h : History) (v : IsHistory R text base h)
    (t : List ℕ) (s : Step) (forth : Takes R s.forward (text h.alt) t)
    (back : Takes R s.inverse t (text h.alt)) (e : Element) (found : v.node.elem ≡ some e)
    (still_open : h.is_open ≡ true) where
  abbrev longer : Element
  longer = record e { steps = e.steps ++ s ∷ []; alt_after = h.alt_seq + 1 }

  abbrev merged : UndoNode
  merged = record v.node { elem = some longer }

  abbrev joined : List UndoNode
  joined = set h.nodes h.current merged

  merged_here : get_elem? joined h.current ≡ some merged
  merged_here = get_elem?-set h.nodes h.current _ (get_elem?_lt h.nodes h.current v.node v.here)

  merge-Kept : Kept base h.nodes joined
  merge-Kept p m g = elim (ℕ_discrete p h.current) [
    | yes same ↦
        let node : v.node ≡ m =
          some-injective _ _ (sym v.here ∙ ap (get_elem? h.nodes) (sym same) ∙ g) in
        (
          merged,
          ap (get_elem? joined) same ∙ merged_here,
          ap (λ (k : UndoNode). k.parent) node,
          sym (ap elem_before found) ∙ ap (λ (k : UndoNode). elem_before k.elem) node,
          λ j k g' up. absurd (v.childless still_open j k g' (up ∙ ap some same)),
        )
    | no ne ↦ (
      m,
      get_elem?-set_other h.nodes h.current p _ (λ same. ne (sym same)) ∙ g,
      refl,
      refl,
      λ j k g' up. refl,
    )
  ]

  barren : (c : ℕ) → ChildOf h.nodes base h.current v.node c → ⊥
  barren c (m, g, before, up) = v.childless still_open c m g up

  merged-IsNode : IsNode R joined base (h.alt_seq + 1) (later h text t) h.current merged
  merged-IsNode =
      let old = v.each h.current v.node v.here in
      let (p, m, up, at, starts, before_le, after_le, leads) = Edge-of R old (some e) found in
      let (m', at', parent, before, after) = merge-Kept p m at in
      let now : h.alt ≡ e.alt_after = v.version ∙ ap (elem_alt base) found in
      record {
        edge = (
          p,
          m',
          up,
          at',
          starts ∙ sym (after h.current v.node v.here up),
          omega arith,
          omega arith,
          subst₂ (λ (a : List ℕ) (b : List ℕ). Leads R (e.steps ++ s ∷ []) a b)
              (sym (later-agree h text t e.alt_before before_le))
              (sym (extend_self text (h.alt_seq + 1) t))
              (Leads-append R e.steps s (text e.alt_before) (text e.alt_after) t leads
                (subst (λ a. Takes R s.forward (text a) t) now forth)
                (subst (λ a. Takes R s.inverse t (text a)) now back)),
        );
        preferred = λ c is. absurd (barren c (old.preferred c is));
        children = λ k c is. absurd (barren c (old.children k c is));
      }

  pub merge_step-IsHistory :
      (o : Bool)
      → (o ≡ true → h.is_open ≡ true)
      → IsHistory R (later h text t) base (merge_step (opened h o) v.node e s)
  unfolding merge_step
  merge_step-IsHistory o keeps = record {
    node = merged;
    here = merged_here;
    version = refl;
    each = λ i n g. elim (changed_lookup h.nodes h.current merged i n g) [
      | inl same ↦
          subst₂
            (λ (i : ℕ) (n : UndoNode). IsNode R joined base (h.alt_seq + 1) (later h text t) i n)
            (sym same.0) (sym same.1) merged-IsNode
      | inr away ↦
          IsNode-kept R h.nodes joined base h.alt_seq (h.alt_seq + 1) text (later h text t)
            merge-Kept (later-agree h text t) (omega arith) i n away.1 (v.each i n away.1)
    ];
    childless = λ _ j m g. elim (changed_lookup h.nodes h.current merged j m g) [
      | inl same ↦ λ up.
          v.childless still_open h.current v.node v.here
            (sym (ap (λ (k : UndoNode). k.parent) same.1) ∙ up)
      | inr away ↦ v.childless still_open j m away.1
    ];
    alt_le = omega arith;
    saved_le = omega (arith, v.saved_le);
    base_le = omega (arith, v.base_le);
    unbounded = v.unbounded;
  }
