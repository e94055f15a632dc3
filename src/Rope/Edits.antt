-- ===== src/Rope/Edits.antt =====
-- The edits of a rope, spliced one by one or rebuilt in one pass, do what `splice` does to the text.
use matcha.Common.{
  ℕ, ◌+◌, ◌-◌, ◌*◌, ◌≤◌, ◌<◌, ◌≡◌, refl, sym, ap, ◌∙◌, inl, inr, true, Option, none, some, List, [],
  ◌∷◌, ◌++◌, length, take, drop, ltb, ltb→le, if◌then◌else◌, u32_mod, arith, Bool-cases,
  length-append, length-take, length-drop, take-append-drop, take-append_of_eq, drop-append_of_eq,
}
use mathlib.Core.Path.{subst, subst₂}
use matcha.Rope.Rebuild.{copy_document}
use matcha.Coords.{is_char_boundary, StartsChar}
use matcha.Patch.{Range}
use matcha.Text.{Splice, splice, Disjoint, replace_in}
use matcha.Text.Boundary.{
  AtBoundaries, is_char_boundary-append_at, StartsChar-drop, StartsChar-take, StartsChar-append,
}
use matcha.Text.Splices.{
  AllStartChar, inserted, removed, spliced_length-removed, StartsChar-splice, boundary-take,
}
use matcha.Text.Inverse.{Disjoint-le, length-splice, replace_descending, replace_descending-splice}
use matcha.Ropey.{Ropey, concat}
use matcha.Rope.{
  Rope, Copy, from_ropey, replace, replace_all, rebuild_with, edit_many, rebuild_bytes_per_edit,
}

module _ (R : Ropey) where
  open R use {
    Tree, build, chunks, len_bytes, byte_to_char, remove, insert, len_bytes_lem, remove_lem,
    insert_lem, byte_to_char_prefix, build_lem,
  }

  -- The text that a rope holds.
  abbrev pub view : Rope R → List ℕ
  view r = concat (chunks r.text)

  -- The cached length is the text's, which fits a u32, and the text is a `&str`.
  pub record IsRope (r : Rope R) : Type 0 where
    pub len_lem : r.len ≡ length (view r)
    pub fits : length (view r) < u32_mod
    pub starts : StartsChar (view r)

  pub from_ropey-IsRope :
      (t : Tree) (text : List ℕ)
      → concat (chunks t) ≡ text
      → length text < u32_mod
      → StartsChar text
      → IsRope (from_ropey R t) × (view (from_ropey R t) ≡ text)
  unfolding from_ropey
  from_ropey-IsRope t text e f s = (
    record {
      len_lem = omega (arith, len_bytes_lem t, ap length e);
      fits = omega (arith, ap length e);
      starts = rw e s;
    },
    e,
  )

  -- `replace` with its range clamped.
  abbrev replace_between : Rope R → ℕ → ℕ → List ℕ → Rope R
  replace_between r start end text =
      let removed =
        if ltb start end
        then remove r.text (byte_to_char r.text start) (byte_to_char r.text end)
        else r.text in
      from_ropey R
        (elim text [ [] ↦ removed | x ∷ xs ↦ insert removed (byte_to_char r.text start) (x ∷ xs) ])

  module _ (r : Rope R) (range : Range) (v : IsRope r) (ordered : range.start ≤ range.end)
      (inside : range.end ≤ length (view r))
      (at_start : is_char_boundary (view r) range.start ≡ true)
      (at_end : is_char_boundary (view r) range.end ≡ true) where
    -- The tree after the removal, whether one was made or not.
    removed_view :
        concat (
          chunks (
            if ltb range.start range.end
            then remove r.text (byte_to_char r.text range.start) (byte_to_char r.text range.end)
            else r.text))
        ≡ take range.start (view r) ++ drop range.end (view r)
    removed_view = elim (Bool-cases (ltb range.start range.end)) [
      | inl e ↦
          rw e (remove_lem r.text range.start range.end v.starts ordered inside at_start at_end)
      | inr e ↦
          let same : range.end ≡ range.start = omega (arith, ltb→le range.start range.end e) in
          rw (e, same) (sym (take-append-drop range.start (view r)))
    ]

    -- And after the insertion.
    replaced_view :
        (t : Tree) (text : List ℕ)
        → concat (chunks t) ≡ take range.start (view r) ++ drop range.end (view r)
        → concat (
            chunks
              (elim text [ [] ↦ t | x ∷ xs ↦ insert t (byte_to_char r.text range.start) (x ∷ xs) ]))
          ≡ replace_in range text (view r)
    replaced_view t [] e = e
    replaced_view t (x ∷ xs) e =
        let front = take range.start (view r) in
        let rest = drop range.end (view r) in
        let cut : range.start ≡ length front = omega (arith, length-take range.start (view r)) in
        let on : is_char_boundary (concat (chunks t)) range.start ≡ true = rw e (
          is_char_boundary-append_at range.start front rest cut
            (StartsChar-drop (view r) range.end v.starts at_end)) in
        let starts : StartsChar (concat (chunks t)) = rw e (
          StartsChar-append front rest (StartsChar-take range.start (view r) v.starts)
            (StartsChar-drop (view r) range.end v.starts at_end)) in
        let index : byte_to_char r.text range.start ≡ byte_to_char t range.start =
          byte_to_char_prefix r.text t range.start
            (rw e (sym (take-append_of_eq range.start front rest cut))) in
        rw (
          index,
          insert_lem t range.start (x ∷ xs) starts
              (omega (arith, ap length e, length-append front rest, cut)) on,
          e,
          take-append_of_eq range.start front rest cut,
          drop-append_of_eq range.start front rest cut,
        )

    length-replace_in :
        (text : List ℕ)
        → length (replace_in range text (view r)) + (range.end - range.start)
          ≡ length (view r) + length text
    length-replace_in text = omega (
      arith,
      length-append (take range.start (view r)) (text ++ drop range.end (view r)),
      length-append text (drop range.end (view r)),
      length-take range.start (view r),
      length-drop range.end (view r),
    )

    starts-replace_in :
        (text : List ℕ) → StartsChar text → StartsChar (replace_in range text (view r))
    starts-replace_in text s =
        StartsChar-append (take range.start (view r)) (text ++ drop range.end (view r))
          (StartsChar-take range.start (view r) v.starts)
          (StartsChar-append text (drop range.end (view r)) s
            (StartsChar-drop (view r) range.end v.starts at_end))

    -- `replace` puts the text in place of the range, and the totals follow.
    pub view-replace :
        (text : List ℕ)
        → StartsChar text
        → length (view r) + length text < u32_mod
        → IsRope (replace R r range text)
          × (view (replace R r range text) ≡ replace_in range text (view r))
    unfolding replace
    view-replace text s f =
        subst₂
          (λ s e.
            IsRope (replace_between r s e text)
            × (view (replace_between r s e text) ≡ replace_in range text (view r)))
          (omega (arith, v.len_lem)) (omega (arith, v.len_lem))
          (from_ropey-IsRope _ (replace_in range text (view r)) (replaced_view _ text removed_view)
            (omega (arith, length-replace_in text)) (starts-replace_in text s))

  -- What the edits of a batch must satisfy: ascending, disjoint, in bounds, at char boundaries, with
  -- `&str` texts, and room for all that is inserted.
  pub record IsBatch (t : List ℕ) (ops : List Splice) : Type 0 where
    pub disjoint : Disjoint 0 (length t) ops
    pub boundaries : AtBoundaries t ops
    pub texts : AllStartChar ops
    pub room : length t + inserted ops < u32_mod

  view-replace_all :
      (r : Rope R) (ops : List Splice) (at : ℕ)
      → IsRope r
      → Disjoint at (length (view r)) ops
      → AtBoundaries (view r) ops
      → AllStartChar ops
      → length (view r) + inserted ops < u32_mod
      → IsRope (replace_all R r ops)
        × (view (replace_all R r ops) ≡ replace_descending ops (view r))
  unfolding replace_all replace_descending
  view-replace_all r [] at v d b s f = (v, refl)
  view-replace_all r ((range, x) ∷ ops) at v d b s f =
      let (v', e) = view-replace_all r ops range.end v d.2 b.2 s.1 (omega arith) in
      let t = view r in
      let rest = splice range.end ops (drop range.end t) in
      let e' : view (replace_all R r ops) ≡ take range.end t ++ rest =
        e ∙ replace_descending-splice ops range.end (length t) t d.2 refl in
      let inside = Disjoint-le ops range.end (length t) d.2 in
      let long : length (view (replace_all R r ops)) + removed ops ≡ length t + inserted ops =
        omega (
          arith,
          ap length e',
          length-append (take range.end t) rest,
          length-take range.end t,
          length-splice ops range.end (length t) (drop range.end t) d.2
              (omega (arith, length-drop range.end t, inside)),
          spliced_length-removed ops range.end (length t) d.2,
          inside,
        ) in
      let tail : StartsChar rest =
        StartsChar-splice ops range.end (length t) t d.2 v.starts b.1 b.2 s.1 in
      let (v'', e'') =
        view-replace (replace_all R r ops) range v' d.1
          (omega
            (arith, ap length e', length-append (take range.end t) rest, length-take range.end t))
          (rw e' (boundary-take t rest range.end range.start d.1 inside b.0 tail))
          (rw e' (boundary-take t rest range.end range.end (omega arith) inside b.1 tail)) x s.0
          (omega arith) in
      (v'', e'' ∙ ap (replace_in range x) e)

  view-rebuild_with :
      (r : Rope R) (ops : List Splice)
      → IsRope r
      → IsBatch (view r) ops
      → (r' : Rope R) × (rebuild_with R r ops ≡ some r')
        × IsRope r'
        × (view r' ≡ splice 0 ops (view r))
  unfolding rebuild_with
  view-rebuild_with r ops v b =
      let (c', e, built) =
        copy_document (chunks r.text) ops r.len v.len_lem
          (subst (λ n. Disjoint 0 n ops) (sym v.len_lem) b.disjoint) b.boundaries in
      let (v', e') =
        from_ropey-IsRope (build c'.out) (splice 0 ops (view r)) (build_lem c'.out ∙ built)
          (omega (
            arith,
            b.room,
            length-splice ops 0 (length (view r)) (view r) b.disjoint (omega arith),
            spliced_length-removed ops 0 (length (view r)) b.disjoint,
          ))
          (StartsChar-splice ops 0 (length (view r)) (view r) b.disjoint v.starts
            (unfold is_char_boundary in refl) b.boundaries b.texts) in
      (
        from_ropey R (build c'.out),
        ap
            (λ (o : Option Copy). elim o [
              | none ↦ none
              | some c ↦ some (from_ropey R (build c.out))
            ])
            e,
        v',
        e',
      )

  -- On a rope whose cached length is that of its text, below 2 ^ 32, and for edits that ascend,
  -- are disjoint and in bounds, lie on char boundaries, insert `&str` texts and leave room for all
  -- that is inserted below 2 ^ 32: `edit_many`, by its rebuild or by its splices, does not panic,
  -- gives such a rope again, and its text is the one splice of the batch.
  pub view-edit_many :
      (r : Rope R) (ops : List Splice)
      → IsRope r
      → IsBatch (view r) ops
      → (r' : Rope R) × (edit_many R r ops ≡ some r')
        × IsRope r'
        × (view r' ≡ splice 0 ops (view r))
  unfolding edit_many
  view-edit_many r ops v b = elim (Bool-cases (ltb r.len (length ops * rebuild_bytes_per_edit))) [
    | inl dense ↦ let (r', e, v', e') = view-rebuild_with r ops v b in (r', rw dense e, v', e')
    | inr sparse ↦
        let (v', e) = view-replace_all r ops 0 v b.disjoint b.boundaries b.texts b.room in
        (
          replace_all R r ops,
          rw sparse,
          v',
          e ∙ replace_descending-splice ops 0 (length (view r)) (view r) b.disjoint refl,
        )
  ]
