-- ===== src/History/Travel.antt =====
-- Undo and redo never panic, and move the buffer to the text of the version that they lead to.
use matcha.Common.{
  ℕ, ◌≤◌, ◌≡◌, refl, sym, ap, ◌∙◌, subst, true, false, ◌==◌, Option, none, some, List, get_elem?,
  Bool-cases, Option-cases, inl, inr, arith,
}
use mathlib.Core.Option.{some-injective}
use matcha.Ropey.{Ropey}
use matcha.Buffer.{Buffer}
use matcha.Transaction.{Committed}
use matcha.Arena.{Element, UndoNode, History}
use matcha.History.{Replay, undo, redo, can_undo, can_redo}
use matcha.History.Paths.{Leads-forth, Leads-back}
use matcha.History.Consistent.{
  elem_alt, elem_before, Edge, IsHistory, IsSession, Edge-of, undo_steps, redo_steps,
}

module _ (R : Ropey) {S : Type 0} (on_step : Committed → Buffer R → S → S) (text : ℕ → List ℕ)
    (base : ℕ) (h : History) (r : Replay R on_step) (v : IsSession R on_step text base h r) where
  -- The history after moving to the node `n` at `i`, the element closed.
  moved :
      (i : ℕ) (n : UndoNode)
      → get_elem? h.nodes i ≡ some n
      → elem_alt base n.elem ≤ h.alt_seq
      → IsHistory R text base
          (record h { current = i; alt = elem_alt base n.elem; is_open = false })
  moved i n g l = record {
    node = n;
    here = g;
    version = refl;
    each = v.history.each;
    childless = λ o. cc;
    alt_le = l;
    saved_le = v.history.saved_le;
    base_le = v.history.base_le;
    unbounded = v.history.unbounded;
  }

  elem_alt_le :
      (i : ℕ) (n : UndoNode) → get_elem? h.nodes i ≡ some n → elem_alt base n.elem ≤ h.alt_seq
  elem_alt_le i n g = by_elem n.elem (v.history.each i n g).edge
    where
      by_elem :
          (o : Option Element)
          → Edge R h.nodes base h.alt_seq text i n.parent o
          → elem_alt base o ≤ h.alt_seq
      by_elem none d = v.history.base_le
      by_elem (some e) d = d.6

  -- On a history that fits the buffer, `undo` does not panic; it does something exactly where there
  -- is something to undo; and the history it leaves fits the buffer it leaves, the versions being
  -- those from before.
  pub undo-IsSession :
      (h' : History) × (r' : Replay R on_step) × (undo R on_step h r ≡ some (h', r', can_undo h))
      × IsSession R on_step text base h' r'
      × (h'.saved_alt ≡ h.saved_alt)
  unfolding can_undo
  undo-IsSession = elim (Bool-cases (h.current == 0)) [
    | inl root ↦ (h, r, unfold undo in ground (arith, root), v, refl)
    | inr inner ↦ elim (Option-cases v.history.node.elem) [
      | inl none_there ↦
          let at_root : h.current ≡ 0 =
            (Edge-of R (v.history.each h.current v.history.node v.history.here) none
              none_there).0 in
          absurd (ground (arith, at_root, inner))
      | inr found ↦
          let n = v.history.node in
          let e = found.0 in
          let (p, m, to_parent, at_parent, same, before_le, after_le, leads) =
            Edge-of R (v.history.each h.current n v.history.here) (some e) found.1 in
          let at_version : h.alt ≡ e.alt_after = v.history.version ∙ ap (elem_alt base) found.1 in
          let (r', done, document, back) =
            Leads-back R on_step e.steps (text e.alt_before) (text e.alt_after) leads r v.document
              (v.current ∙ ap text at_version) in
          (
            record h { current = p; alt = e.alt_before; is_open = false },
            r',
            rw inner
                (undo_steps R on_step h r r' n e p inner v.history.here found.1 done to_parent),
            record {
              history =
                  subst
                    (λ a.
                      IsHistory R text base (record h { current = p; alt = a; is_open = false }))
                    (sym same) (moved p m at_parent (elem_alt_le p m at_parent));
              document = document;
              current = back;
            },
            refl,
          )
    ]
  ]

  can_redo-true :
      (n : UndoNode) (c : ℕ)
      → get_elem? h.nodes h.current ≡ some n
      → n.preferred_child ≡ some c
      → can_redo h ≡ true
  unfolding can_redo
  can_redo-true n c g p = ground (arith, g, p)

  can_redo-false :
      (n : UndoNode)
      → get_elem? h.nodes h.current ≡ some n
      → n.preferred_child ≡ none
      → can_redo h ≡ false
  unfolding can_redo
  can_redo-false n g p = ground (arith, g, p)

  redo_nothing :
      (n : UndoNode)
      → get_elem? h.nodes h.current ≡ some n
      → n.preferred_child ≡ none
      → redo R on_step h r ≡ some (h, r, false)
  unfolding redo
  redo_nothing n g p = ground (arith, g, p)

  -- On a history that fits the buffer, `redo` does not panic; it does something exactly where the
  -- current node has a preferred child; and the history it leaves fits the buffer it leaves, the
  -- versions being those from before.
  pub redo-IsSession :
      (h' : History) × (r' : Replay R on_step) × (redo R on_step h r ≡ some (h', r', can_redo h))
      × IsSession R on_step text base h' r'
      × (h'.saved_alt ≡ h.saved_alt)
  redo-IsSession =
      let n = v.history.node in
      let g = v.history.here in
      elim (Option-cases n.preferred_child) [
        | inl last ↦ (h, r, rw (can_redo-false n g last) (redo_nothing n g last), v, refl)
        | inr chosen ↦
            let c = chosen.0 in
            let (m, at_child, before, up) = (v.history.each h.current n g).preferred c chosen.1 in
            elim (Option-cases m.elem) [
              | inl no_elem ↦ absurd (cc (sym before ∙ ap elem_before no_elem))
              | inr found ↦
                  let e = found.0 in
                  let starts : e.alt_before ≡ elem_alt base n.elem =
                    some-injective _ _ (sym (ap elem_before found.1) ∙ before) in
                  let (p, k, to_parent, at_parent, same, before_le, after_le, leads) =
                    Edge-of R (v.history.each c m at_child) (some e) found.1 in
                  let (r', done, document, forth) =
                    Leads-forth R on_step e.steps (text e.alt_before) (text e.alt_after) leads r
                      v.document (v.current ∙ ap text (v.history.version ∙ sym starts)) in
                  (
                    record h { current = c; alt = e.alt_after; is_open = false },
                    r',
                    rw (can_redo-true n c g chosen.1)
                        (redo_steps R on_step h r r' n m e c g chosen.1 at_child found.1 done),
                    record {
                      history =
                          subst
                            (λ (o : Option Element).
                              IsHistory R text base
                                (record h { current = c; alt = elem_alt base o; is_open = false }))
                            found.1 (moved c m at_child (elem_alt_le c m at_child));
                      document = document;
                      current = forth;
                    },
                    refl,
                  )
            ]
      ]
