-- ===== src/History/Sessions.antt =====
-- Editing sessions: a document edited, undone, redone, steered, sealed and saved in any order.
use matcha.Common.{
  ℕ, ◌+◌, ◌<◌, ◌≡◌, refl, sym, ap, ◌∙◌, subst, Bool, false, not, ◌==◌, some, List, length, u32_mod,
  arith,
}
use mathlib.Core.Option.{some-injective}
use mathlib.Core.Path.{subst₂}
use matcha.History.Steering.{select_redo_branch-IsHistory}
use matcha.Ropey.{Ropey}
use matcha.Buffer.{Buffer}
use matcha.Buffer.Edits.{content}
use matcha.Transaction.{EditOp, Committed, ok, apply}
use matcha.Transaction.Normal.{AllStr, total_text}
use matcha.Transaction.Apply.{IsDocument}
use matcha.Transaction.Replay.{Takes, apply-IsReplayable}
use matcha.Arena.{GroupingHint, History, empty_history}
use matcha.History.{
  Replay, record_edit, undo, redo, select_redo_branch, seal, mark_saved, is_dirty, can_undo,
  can_redo,
}
use matcha.History.Consistent.{IsHistory, IsSession, empty_history-IsHistory}
use matcha.History.Travel.{undo-IsSession, redo-IsSession}
use matcha.History.Lookup.{later, later-agree, extend_self}
use matcha.History.Recording.{record_edit-IsHistory}

module _ (R : Ropey) {S : Type 0} (on_step : Committed → Buffer R → S → S) where
  -- `saved` is the text at the last save, or at first that of the loaded document.
  pub record Session : Type 0 where
    pub history : History
    pub replay : Replay R on_step
    pub saved : List ℕ

  -- What can happen in a session. The selections and views after an edit are the caller's.
  pub data Move (s t : Session) : Type 0 where
    edited :
        (ops : List EditOp) (c : Committed) (hint : GroupingHint)
        → AllStr ops
        → length (content R s.replay.buffer) + total_text ops < u32_mod
        → apply R s.replay.buffer ops ≡ some (t.replay.buffer, ok c)
        → record_edit s.history c.forward c.inverse hint ≡ some t.history
        → t.saved ≡ s.saved
        → Move s t
    undone :
        (b : Bool)
        → undo R on_step s.history s.replay ≡ some (t.history, t.replay, b)
        → t.saved ≡ s.saved
        → Move s t
    redone :
        (b : Bool)
        → redo R on_step s.history s.replay ≡ some (t.history, t.replay, b)
        → t.saved ≡ s.saved
        → Move s t
    steered :
        (index : ℕ) (b : Bool)
        → select_redo_branch s.history index ≡ some (t.history, b)
        → t.replay ≡ s.replay
        → t.saved ≡ s.saved
        → Move s t
    sealed : t.history ≡ seal s.history → t.replay ≡ s.replay → t.saved ≡ s.saved → Move s t
    stored :
        t.history ≡ mark_saved s.history
        → t.replay ≡ s.replay
        → t.saved ≡ content R s.replay.buffer
        → Move s t

  pub data Reach (s : Session) : Session → Type 0 where
    here : Reach s s
    next : {t u : Session} → Reach s t → Move t u → Reach s u

  -- The history fits the buffer, and the saved version stands for the saved text.
  pub record IsSound (text : ℕ → List ℕ) (base : ℕ) (s : Session) : Type 0 where
    pub session : IsSession R on_step text base s.history s.replay
    pub stored_text : text s.history.saved_alt ≡ s.saved

  abbrev pub Sound : Session → Type 0
  Sound s = (text : ℕ → List ℕ) × (base : ℕ) × IsSound text base s

  -- A freshly loaded document, with a new history.
  abbrev pub fresh : Replay R on_step → Session
  fresh r = record { history = empty_history; replay = r; saved = content R r.buffer }

  fresh-Sound : (r : Replay R on_step) → IsDocument R r.buffer → Sound (fresh r)
  fresh-Sound r v = (
    λ _. content R r.buffer,
    0,
    record {
      session = record {
        history = empty_history-IsHistory R (content R r.buffer);
        document = v;
        current = refl;
      };
      stored_text = refl;
    },
  )

  edited-Sound :
      (s t : Session) (ops : List EditOp) (c : Committed) (hint : GroupingHint)
      → Sound s
      → AllStr ops
      → length (content R s.replay.buffer) + total_text ops < u32_mod
      → apply R s.replay.buffer ops ≡ some (t.replay.buffer, ok c)
      → record_edit s.history c.forward c.inverse hint ≡ some t.history
      → t.saved ≡ s.saved
      → Sound t
  edited-Sound s t ops c hint (text, base, v) str room done kept same =
      let h = s.history in
      let after = content R t.replay.buffer in
      let p =
        apply-IsReplayable R s.replay.buffer t.replay.buffer ops c v.session.document str room
          done in
      let (h', e, w, now, stays) =
        record_edit-IsHistory R text base h v.session.history after
          (record { forward = c.forward; inverse = c.inverse })
          (subst (λ (u : List ℕ). Takes R c.forward u after) v.session.current p.forth)
          (subst (λ (u : List ℕ). Takes R c.inverse after u) v.session.current p.back) hint in
      let is : h' ≡ t.history = some-injective _ _ (sym e ∙ kept) in
      let now' : t.history.alt ≡ h.alt_seq + 1 = ap (λ (g : History). g.alt) (sym is) ∙ now in
      let stays' : t.history.saved_alt ≡ h.saved_alt =
        ap (λ (g : History). g.saved_alt) (sym is) ∙ stays in
      (
        later h text after,
        base,
        record {
          session = record {
            history = subst (IsHistory R (later h text after) base) is w;
            document = p.document;
            current = sym (ap (later h text after) now' ∙ extend_self text (h.alt_seq + 1) after);
          };
          stored_text =
              ap (later h text after) stays'
              ∙ later-agree h text after h.saved_alt v.session.history.saved_le
              ∙ v.stored_text
              ∙ sym same;
        },
      )

  -- A step that keeps the versions, to an equal history and replay.
  arrived :
      (text : ℕ → List ℕ) (base : ℕ) (s t : Session) (h : History) (r : Replay R on_step)
      → IsSound text base s
      → IsSession R on_step text base h r
      → h.saved_alt ≡ s.history.saved_alt
      → h ≡ t.history
      → r ≡ t.replay
      → t.saved ≡ s.saved
      → IsSound text base t
  arrived text base s t h r v w kept history replay same = record {
    session =
        subst₂ (λ (h : History) (r : Replay R on_step). IsSession R on_step text base h r) history
          replay w;
    stored_text =
        ap (λ (h : History). text h.saved_alt) (sym history)
        ∙ ap text kept
        ∙ v.stored_text
        ∙ sym same;
  }

  pub Move-Sound : (s t : Session) → Sound s → Move s t → Sound t
  unfolding seal mark_saved
  Move-Sound s t v (edited ops c hint str room done kept same) =
      edited-Sound s t ops c hint v str room done kept same
  Move-Sound s t (text, base, v) (undone b e same) =
      let (h', r', done, w, kept) =
        undo-IsSession R on_step text base s.history s.replay v.session in
      let is = some-injective _ _ (sym done ∙ e) in
      (
        text,
        base,
        arrived text base s t h' r' v w kept
            (ap (λ (x : History × Replay R on_step × Bool). x.0) is)
            (ap (λ (x : History × Replay R on_step × Bool). x.1) is) same,
      )
  Move-Sound s t (text, base, v) (redone b e same) =
      let (h', r', done, w, kept) =
        redo-IsSession R on_step text base s.history s.replay v.session in
      let is = some-injective _ _ (sym done ∙ e) in
      (
        text,
        base,
        arrived text base s t h' r' v w kept
            (ap (λ (x : History × Replay R on_step × Bool). x.0) is)
            (ap (λ (x : History × Replay R on_step × Bool). x.1) is) same,
      )
  Move-Sound s t (text, base, v) (steered index b e replay same) =
      let (h', b', done, w, at, kept) =
        select_redo_branch-IsHistory R text base s.history v.session.history index in
      let is = some-injective _ _ (sym done ∙ e) in
      (
        text,
        base,
        arrived text base s t h' s.replay v
            (record {
              history = w;
              document = v.session.document;
              current = v.session.current ∙ ap text (sym at);
            })
            kept (ap (λ (x : History × Bool). x.0) is) (sym replay) same,
      )
  Move-Sound s t (text, base, v) (sealed history replay same) =
      let w = v.session.history in
      (
        text,
        base,
        arrived text base s t (seal s.history) s.replay v
            (record {
              history = record {
                node = w.node;
                here = w.here;
                version = w.version;
                each = w.each;
                childless = λ o. cc;
                alt_le = w.alt_le;
                saved_le = w.saved_le;
                base_le = w.base_le;
                unbounded = w.unbounded;
              };
              document = v.session.document;
              current = v.session.current;
            })
            refl (sym history) (sym replay) same,
      )
  Move-Sound s t (text, base, v) (stored history replay now) =
      let w = v.session.history in
      (
        text,
        base,
        record {
          session =
              subst₂ (λ (h : History) (r : Replay R on_step). IsSession R on_step text base h r)
                (sym history) (sym replay)
                (record {
                  history = record {
                    node = w.node;
                    here = w.here;
                    version = w.version;
                    each = w.each;
                    childless = w.childless;
                    alt_le = w.alt_le;
                    saved_le = w.alt_le;
                    base_le = w.base_le;
                    unbounded = w.unbounded;
                  };
                  document = v.session.document;
                  current = v.session.current;
                });
          stored_text =
              ap (λ (h : History). text h.saved_alt) history ∙ sym v.session.current ∙ sym now;
        },
      )

  pub Reach-Sound : (s t : Session) → Sound s → Reach s t → Sound t
  Reach-Sound s t v here = v
  Reach-Sound s t v (next {t = u} r m) = Move-Sound u t (Reach-Sound s u v r) m

  -- In a session that began with a new history on a document, whatever edits, undos, redos, choices
  -- of branches, seals and saves came in whatever order, each edit within the room of a u32 offset: a
  -- history that says it is not dirty stands at the text of the last save, or of the load; and
  -- neither undo nor redo panics, each doing something exactly where `can_undo` or `can_redo` says.
  pub session-Sound :
      (r : Replay R on_step) (t : Session)
      → IsDocument R r.buffer
      → Reach (fresh r) t
      → (is_dirty t.history ≡ false → content R t.replay.buffer ≡ t.saved)
        × ((h : History) × (r' : Replay R on_step) × (undo R on_step t.history t.replay
              ≡ some (h, r', can_undo t.history)))
        × ((h : History) × (r' : Replay R on_step) × (redo R on_step t.history t.replay
              ≡ some (h, r', can_redo t.history)))
  unfolding is_dirty
  session-Sound r t v reach =
      let (text, base, w) = Reach-Sound (fresh r) t (fresh-Sound r v) reach in
      let (h, r', e, s, k) = undo-IsSession R on_step text base t.history t.replay w.session in
      let (h2, r2, e2, s2, k2) = redo-IsSession R on_step text base t.history t.replay w.session in
      (
        λ clean. w.session.current ∙ ap text (same_version t.history clean) ∙ w.stored_text,
        (h, r', e),
        (h2, r2, e2),
      )
    where
      same_version : (h : History) → not (h.alt == h.saved_alt) ≡ false → h.alt ≡ h.saved_alt
      same_version h e = ground arith
