-- ===== src/History/Recording.antt =====
-- Recording a committed edit keeps the history consistent, and the version that it opens stands for
-- the text after the edit.
use matcha.Common.{
  ℕ, ◌+◌, ◌≡◌, ◌⊎◌, refl, sym, ap, ◌∙◌, subst, Bool, true, false, not, ◌&&◌, none, some, List,
  get_elem?, inl, inr, Bool-cases, Option-cases, arith,
}
use matcha.Ropey.{Ropey}
use matcha.Transaction.Replay.{Takes}
use matcha.Arena.{OpClass, other, same_class, GroupingHint, Step, Element, UndoNode, History}
use matcha.Arena.Prune.{prune_if_needed}
use matcha.History.{merge_step, branch_step, record_step, record_edit}
use matcha.History.Consistent.{IsHistory}
use matcha.History.Lookup.{opened, later}
use matcha.History.Branch.{branch_step-IsHistory}
use matcha.History.Merge.{merge_step-IsHistory}

record_step_branches :
    (h : History) (n : UndoNode) (a : ℕ) (s : Step) (op : OpClass)
    → (record_step h n a s op ≡ branch_step h n a s op)
      ⊎ ((e : Element) × (n.elem ≡ some e)
          × (h.is_open ≡ true)
          × (record_step h n a s op ≡ merge_step h n e s))
unfolding record_step
record_step_branches h n a s op = elim (Bool-cases h.is_open) [
  | inr shut ↦ inl (ground (arith, shut))
  | inl is_open ↦ elim (Option-cases n.elem) [
    | inl root ↦ inl (ground (arith, is_open, root))
    | inr found ↦ elim (Bool-cases (not (same_class op other))) [
      | inr never ↦ inl (ground (arith, is_open, never))
      | inl may ↦ elim (Bool-cases (same_class found.0.op op)) [
        | inr apart ↦ inl (ground (arith, is_open, found.1, may, apart))
        | inl same ↦ inr (found.0, found.1, is_open, ground (arith, is_open, found.1, may, same))
      ]
    ]
  ]
]

prune_unbounded : (h : History) → h.max_undo ≡ none → prune_if_needed h ≡ some h
unfolding prune_if_needed
prune_unbounded h e = ground (arith, e)

record_step_fields :
    (g : History) (n : UndoNode) (a : ℕ) (s : Step) (op : OpClass)
    → ((record_step g n a s op).alt ≡ g.alt) × ((record_step g n a s op).saved_alt ≡ g.saved_alt)
unfolding merge_step branch_step
record_step_fields g n a s op = elim (record_step_branches g n a s op) [
  | inl e ↦ (ap (λ (h : History). h.alt) e, ap (λ (h : History). h.saved_alt) e)
  | inr (x, found, is_open, e) ↦
      (ap (λ (h : History). h.alt) e, ap (λ (h : History). h.saved_alt) e)
]

recorded :
    (h : History) (n : UndoNode) (s : Step) (hint : GroupingHint)
    → get_elem? h.nodes h.current ≡ some n
    → record_edit h s.forward s.inverse hint ≡ (
        let g = record_step (opened h (h.is_open && not hint.seal_before)) n h.alt s hint.op in
        prune_if_needed (record g { is_open = g.is_open && not hint.seal_after }))
unfolding record_edit
recorded h n s hint e = ground (arith, e)

module _ (R : Ropey) (text : ℕ → List ℕ) (base : ℕ) (h : History) (v : IsHistory R text base h)
    (t : List ℕ) (s : Step) (forth : Takes R s.forward (text h.alt) t)
    (back : Takes R s.inverse t (text h.alt)) where
  record_step-IsHistory :
      (o : Bool) (op : OpClass)
      → (o ≡ true → h.is_open ≡ true)
      → IsHistory R (later h text t) base (record_step (opened h o) v.node h.alt s op)
  record_step-IsHistory o op keeps = elim (record_step_branches (opened h o) v.node h.alt s op) [
    | inl e ↦
        subst (IsHistory R (later h text t) base) (sym e)
          (branch_step-IsHistory R text base h v t s forth back o op)
    | inr (e, found, is_open, same) ↦
        subst (IsHistory R (later h text t) base) (sym same)
          (merge_step-IsHistory R text base h v t s forth back e found (keeps is_open) o keeps)
  ]

  -- The outcome of `record` for this step: the seals close the element before or after.
  pub record_edit-IsHistory :
      (hint : GroupingHint)
      → (h' : History) × (record_edit h s.forward s.inverse hint ≡ some h')
        × IsHistory R (later h text t) base h'
        × (h'.alt ≡ h.alt_seq + 1)
        × (h'.saved_alt ≡ h.saved_alt)
  record_edit-IsHistory hint =
      let o = h.is_open && not hint.seal_before in
      let g = record_step (opened h o) v.node h.alt s hint.op in
      let w = record_step-IsHistory o hint.op (and_left h.is_open (not hint.seal_before)) in
      let final : History = record g { is_open = g.is_open && not hint.seal_after } in
      let (a, b) = record_step_fields (opened h o) v.node h.alt s hint.op in
      (
        final,
        recorded h v.node s hint v.here ∙ prune_unbounded final w.unbounded,
        record {
          node = w.node;
          here = w.here;
          version = w.version;
          each = w.each;
          childless = λ e. w.childless (and_left g.is_open (not hint.seal_after) e);
          alt_le = w.alt_le;
          saved_le = w.saved_le;
          base_le = w.base_le;
          unbounded = w.unbounded;
        },
        a,
        b,
      )
    where
      and_left : (a b : Bool) → (a && b) ≡ true → a ≡ true
      and_left true b e = refl
      and_left false b e = cc
