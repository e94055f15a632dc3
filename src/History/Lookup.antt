-- ===== src/History/Lookup.antt =====
-- Lookups in the arena after a node is changed or one is put behind it.
use matcha.Common.{
  ℕ, zero, suc, ◌+◌, ◌≤◌, ◌≡◌, ◌≢◌, ◌⊎◌, refl, sym, ap, ◌∙◌, Option, none, some, List, [], ◌∷◌,
  ◌++◌, length, get_elem?, set, inl, inr, arith, Bool, ◌==◌, if◌then◌else◌,
}
use mathlib.Core.Option.{some-injective}
use mathlib.Core.Path.{subst₂}
use matcha.Ropey.{Ropey}
use matcha.Arena.{Element, UndoNode, History}
use matcha.History.Paths.{Leads}
use matcha.History.Consistent.{elem_alt, elem_before, ChildOf, Edge, IsNode}

module _ {ℓ} {A : Type ℓ} where
  pub changed_lookup :
      (xs : List A) (i : ℕ) (v : A) (j : ℕ) (x : A)
      → get_elem? (set xs i v) j ≡ some x
      → ((j ≡ i) × (x ≡ v)) ⊎ ((j ≢ i) × (get_elem? xs j ≡ some x))
  changed_lookup [] i v j x g = cc
  changed_lookup (y ∷ xs) zero v zero x g = inl (refl, sym (some-injective _ _ g))
  changed_lookup (y ∷ xs) zero v (suc j) x g = inr (λ e. absurd (omega (arith, e)), g)
  changed_lookup (y ∷ xs) (suc i) v zero x g = inr (λ e. absurd (omega (arith, e)), g)
  changed_lookup (y ∷ xs) (suc i) v (suc j) x g = elim (changed_lookup xs i v j x g) [
    | inl same ↦ inl (ap suc same.0, same.1)
    | inr other ↦ inr (λ e. other.0 (omega (arith, e)), other.1)
  ]

  pub appended_lookup :
      (xs : List A) (y : A) (j : ℕ) (x : A)
      → get_elem? (xs ++ y ∷ []) j ≡ some x
      → ((j ≡ length xs) × (x ≡ y)) ⊎ (get_elem? xs j ≡ some x)
  appended_lookup [] y zero x g = inl (refl, sym (some-injective _ _ g))
  appended_lookup [] y (suc j) x g = cc
  appended_lookup (z ∷ xs) y zero x g = inr g
  appended_lookup (z ∷ xs) y (suc j) x g = elim (appended_lookup xs y j x g) [
    | inl end ↦ inl (ap suc end.0, end.1)
    | inr before ↦ inr before
  ]

-- Every node is still there, below the same parent, starting at the same version; and a node that is
-- a parent ends at the same version.
abbrev pub Kept : ℕ → List UndoNode → List UndoNode → Type 0
Kept base nodes nodes' =
    (p : ℕ) (m : UndoNode)
    → get_elem? nodes p ≡ some m
    → (m' : UndoNode) × (get_elem? nodes' p ≡ some m')
      × (m'.parent ≡ m.parent)
      × (elem_before m'.elem ≡ elem_before m.elem)
      × ((j : ℕ) (k : UndoNode)
          → get_elem? nodes j ≡ some k
          → k.parent ≡ some p
          → elem_alt base m'.elem ≡ elem_alt base m.elem)

pub ChildOf-Kept :
    (nodes nodes' : List UndoNode) (base i : ℕ) (n : UndoNode) (c : ℕ)
    → Kept base nodes nodes'
    → ChildOf nodes base i n c
    → ChildOf nodes' base i n c
ChildOf-Kept nodes nodes' base i n c k (m, g, b, u) =
    let (m', g', parent, before, after) = k c m g in (m', g', before ∙ b, parent ∙ u)

module _ (R : Ropey) (nodes nodes' : List UndoNode) (base seq seq' : ℕ) (text text' : ℕ → List ℕ)
    (kept : Kept base nodes nodes') (agree : (a : ℕ) → a ≤ seq → text' a ≡ text a)
    (more : seq ≤ seq') where
  pub Edge-kept :
      (i : ℕ) (n : UndoNode)
      → get_elem? nodes i ≡ some n
      → (o : Option Element) → Edge R nodes base seq text i n.parent o
      → Edge R nodes' base seq' text' i n.parent o
  Edge-kept i n g none d = d
  Edge-kept i n g (some e) (p, m, up, at, starts, before_le, after_le, leads) =
      let (m', at', parent, before, after) = kept p m at in
      (
        p,
        m',
        up,
        at',
        starts ∙ sym (after i n g up),
        omega arith,
        omega arith,
        subst₂ (λ (t : List ℕ) (u : List ℕ). Leads R e.steps t u)
            (sym (agree e.alt_before before_le)) (sym (agree e.alt_after after_le)) leads,
      )

  pub IsNode-kept :
      (i : ℕ) (n : UndoNode)
      → get_elem? nodes i ≡ some n
      → IsNode R nodes base seq text i n
      → IsNode R nodes' base seq' text' i n
  IsNode-kept i n g v = record {
    edge = Edge-kept i n g n.elem v.edge;
    preferred = λ c e. ChildOf-Kept nodes nodes' base i n c kept (v.preferred c e);
    children = λ k c e. ChildOf-Kept nodes nodes' base i n c kept (v.children k c e);
  }

-- The texts of the versions, with one more.
abbrev pub extend : (ℕ → List ℕ) → ℕ → List ℕ → ℕ → List ℕ
extend text a t k = if k == a then t else text k

pub extend_self : (text : ℕ → List ℕ) (a : ℕ) (t : List ℕ) → extend text a t a ≡ t
extend_self text a t = ground arith

pub extend_before :
    (text : ℕ → List ℕ) (seq : ℕ) (t : List ℕ) (k : ℕ)
    → k ≤ seq
    → extend text (seq + 1) t k ≡ text k
extend_before text seq t k h = ground arith

-- The history once `record` has taken a new version, and the texts with the new one.
abbrev pub opened : History → Bool → History
opened h o = record h { is_open = o; alt = h.alt_seq + 1; alt_seq = h.alt_seq + 1 }

abbrev pub later : History → (ℕ → List ℕ) → List ℕ → ℕ → List ℕ
later h text t = extend text (h.alt_seq + 1) t

pub later-agree :
    (h : History) (text : ℕ → List ℕ) (t : List ℕ) (a : ℕ)
    → a ≤ h.alt_seq
    → later h text t a ≡ text a
later-agree h text t a l = extend_before text h.alt_seq t a l
