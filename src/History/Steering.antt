-- ===== src/History/Steering.antt =====
-- Choosing the branch that redo follows keeps the history consistent.
use matcha.Common.{
  ℕ, ◌≡◌, refl, sym, ap, ◌∙◌, subst, Bool, true, false, none, some, List, get_elem?, get_elem?_lt,
  get_elem?-set, get_elem?-set_other, set, Option-cases, inl, inr, arith,
}
use native.Mathlib.Decide.{ℕ_discrete}
use mathlib.Core.Option.{some-injective}
use mathlib.Core.Path.{subst₂}
use matcha.Ropey.{Ropey}
use matcha.Arena.{UndoNode, History}
use matcha.History.{select_redo_branch}
use matcha.History.Consistent.{elem_alt, elem_before, ChildOf, IsNode, IsHistory}
use matcha.History.Lookup.{changed_lookup, Kept, IsNode-kept}

module _ (R : Ropey) (text : ℕ → List ℕ) (base : ℕ) (h : History) (v : IsHistory R text base h)
    (child : ℕ) (index : ℕ) (chosen : get_elem? v.node.children index ≡ some child) where
  abbrev steered : UndoNode
  steered = record v.node { preferred_child = some child }

  abbrev turned : List UndoNode
  turned = set h.nodes h.current steered

  steered_here : get_elem? turned h.current ≡ some steered
  steered_here = get_elem?-set h.nodes h.current _ (get_elem?_lt h.nodes h.current v.node v.here)

  steer-Kept : Kept base h.nodes turned
  steer-Kept p m g = elim (ℕ_discrete p h.current) [
    | yes same ↦
        let node : v.node ≡ m =
          some-injective _ _ (sym v.here ∙ ap (get_elem? h.nodes) (sym same) ∙ g) in
        (
          steered,
          ap (get_elem? turned) same ∙ steered_here,
          ap (λ (k : UndoNode). k.parent) node,
          ap (λ (k : UndoNode). elem_before k.elem) node,
          λ j k g' up. ap (λ (k : UndoNode). elem_alt base k.elem) node,
        )
    | no ne ↦ (
      m,
      get_elem?-set_other h.nodes h.current p _ (λ same. ne (sym same)) ∙ g,
      refl,
      refl,
      λ j k g' up. refl,
    )
  ]

  steered-IsNode : IsNode R turned base h.alt_seq text h.current steered
  steered-IsNode =
      let old = v.each h.current v.node v.here in
      let n =
        IsNode-kept R h.nodes turned base h.alt_seq h.alt_seq text text steer-Kept (λ a l. refl)
          (omega arith) h.current v.node v.here old in
      record {
        edge = n.edge;
        preferred = λ c e.
            subst (ChildOf turned base h.current steered) (some-injective _ _ e)
              (n.children index child chosen);
        children = n.children;
      }

  pub steered-IsHistory : IsHistory R text base (record h { nodes = turned })
  steered-IsHistory = record {
    node = steered;
    here = steered_here;
    version = v.version;
    each = λ i n g. elim (changed_lookup h.nodes h.current steered i n g) [
      | inl same ↦
          subst₂ (λ (i : ℕ) (n : UndoNode). IsNode R turned base h.alt_seq text i n) (sym same.0)
            (sym same.1) steered-IsNode
      | inr away ↦
          IsNode-kept R h.nodes turned base h.alt_seq h.alt_seq text text steer-Kept (λ a l. refl)
            (omega arith) i n away.1 (v.each i n away.1)
    ];
    childless = λ o j m g. elim (changed_lookup h.nodes h.current steered j m g) [
      | inl same ↦ λ up.
          v.childless o h.current v.node v.here (sym (ap (λ (k : UndoNode). k.parent) same.1) ∙ up)
      | inr away ↦ v.childless o j m away.1
    ];
    alt_le = v.alt_le;
    saved_le = v.saved_le;
    base_le = v.base_le;
    unbounded = v.unbounded;
  }

module _ (R : Ropey) (text : ℕ → List ℕ) (base : ℕ) (h : History) (v : IsHistory R text base h)
    (index : ℕ) where
  steer_some :
      (child : ℕ)
      → get_elem? v.node.children index ≡ some child
      → select_redo_branch h index
        ≡ some (
          record h {
            nodes = set h.nodes h.current (record v.node { preferred_child = some child });
          },
          true,
        )
  unfolding select_redo_branch
  steer_some child e = ground (arith, v.here, e)

  steer_none : get_elem? v.node.children index ≡ none → select_redo_branch h index ≡ some (h, false)
  unfolding select_redo_branch
  steer_none e = ground (arith, v.here, e)

  pub select_redo_branch-IsHistory :
      (h' : History) × (b : Bool) × (select_redo_branch h index ≡ some (h', b))
      × IsHistory R text base h'
      × (h'.alt ≡ h.alt)
      × (h'.saved_alt ≡ h.saved_alt)
  select_redo_branch-IsHistory = elim (Option-cases (get_elem? v.node.children index)) [
    | inl off ↦ (h, false, steer_none off, v, refl, refl)
    | inr (child, on) ↦ (
      record h { nodes = set h.nodes h.current (record v.node { preferred_child = some child }) },
      true,
      steer_some child on,
      steered-IsHistory R text base h v child index on,
      refl,
      refl,
    )
  ]
