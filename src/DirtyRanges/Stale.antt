-- ===== src/DirtyRanges/Stale.antt =====
-- A commit's splices mark the lines of the edits and the rows that were marked before, wherever they are now.
use matcha.Common.{
  ℕ, ◌+◌, ◌-◌, ◌≤◌, ◌<◌, ◌≡◌, inl, inr, refl, sym, ap, ap₂, ◌∙◌, Bool, true, false, ◌&&◌, ◌||◌,
  List, [], ◌∷◌, ltb, leb, if◌then◌else◌, Bool-cases, arith, u32_mod, ltb→lt, lt→ltb,
}
use matcha.Common.Int.{
  ℤ, pos, pos_part, neg_part, as_u32, as_u32_fits, ◌+ℤ◌, ◌-ℤ◌, +ℤ_parts, -ℤ_parts,
}
use matcha.DirtyRanges.{Run, Span, deltas, shifted_runs, new_spans, apply_splices, shift_at}
use matcha.DirtyRanges.Sets.{in_run, marked, Separated, marked-push_nonempty}
use matcha.DirtyRanges.Splices.{apply_splices-marked}
use matcha.DirtyRanges.Moved.{
  Within, Within-le, added, is_new, old_row, Clear, new_end, new_end-order, new_end-after,
  shift_at-new_end, new_end_le,
}

-- The runs are within `n` rows.
abbrev pub RunsWithin : ℕ → List Run → Type 0
RunsWithin n [] = Unit
RunsWithin n (r ∷ rs) = (r.start ≤ n) × (r.end ≤ n) × RunsWithin n rs

-- No run starts, and none ends, strictly inside a span.
abbrev pub StartsClear : List Span → List Run → Type 0
StartsClear ss [] = Unit
StartsClear ss (r ∷ rs) = Clear ss r.start × StartsClear ss rs

abbrev pub EndsClear : List Span → List Run → Type 0
EndsClear ss [] = Unit
EndsClear ss (r ∷ rs) = Clear ss r.end × EndsClear ss rs

abbrev moved : List Span → ℕ → ℕ
moved ss x = as_u32 (pos x +ℤ shift_at (deltas (pos 0) ss) ss x)

moved-new_end :
    (n : ℕ) (ss : List Span) (x : ℕ)
    → Within 0 n ss
    → n + added ss < u32_mod
    → x ≤ n
    → moved ss x ≡ new_end 0 0 ss x
moved-new_end n ss x w h k =
    let shift = shift_at (deltas (pos 0) ss) ss x in
    let sum = +ℤ_parts (pos x) shift in
    let goes = shift_at-new_end (pos 0) 0 0 n ss x refl (omega arith) w in
    as_u32_fits (pos x +ℤ shift) (new_end 0 0 ss x) (omega (arith, sum, goes))
      (omega (arith, h, new_end_le 0 0 n ss x w k))

in_run-moved :
    (n : ℕ) (ss : List Span) (r : Run) (q : ℕ)
    → Within 0 n ss
    → n + added ss < u32_mod
    → (r.start ≤ n) × (r.end ≤ n)
    → in_run q (record { start = moved ss r.start; end = moved ss r.end })
      ≡ leb (new_end 0 0 ss r.start) q && ltb q (new_end 0 0 ss r.end)
unfolding in_run
in_run-moved n ss r q w h k =
    ap₂ (λ a b. leb a q && ltb q b) (moved-new_end n ss r.start w h k.0)
      (moved-new_end n ss r.end w h k.1)

marked-shifted_runs :
    (n : ℕ) (ss : List Span) (rs : List Run) (q : ℕ)
    → Within 0 n ss
    → n + added ss < u32_mod
    → RunsWithin n rs
    → StartsClear ss rs
    → EndsClear ss rs
    → is_new 0 0 ss q ≡ false
    → marked q (shifted_runs (deltas (pos 0) ss) ss rs) ≡ marked (old_row 0 0 ss q) rs
unfolding shifted_runs marked in_run
marked-shifted_runs n ss [] q w h k a b e = refl
marked-shifted_runs n ss (r ∷ rs) q w h (k, k', k2) (a, a2) (b, b2) e =
    let p = old_row 0 0 ss q in
    let low = new_end-order 0 0 n ss r.start q w (omega arith) (omega arith) a e in
    let high = new_end-order 0 0 n ss r.end q w (omega arith) (omega arith) b e in
    let same : (leb (new_end 0 0 ss r.start) q && ltb q (new_end 0 0 ss r.end)) ≡ in_run p r =
      ground (arith, low, high) in
    marked-push_nonempty q (record { start = moved ss r.start; end = moved ss r.end }) _
    ∙ ap₂ ◌||◌ (in_run-moved n ss r q w h (k, k') ∙ same)
        (marked-shifted_runs n ss rs q w h k2 a2 b2 e)

is_new_below : (at now : ℕ) (ss : List Span) (q : ℕ) → q < now → is_new at now ss q ≡ false
unfolding is_new
is_new_below at now [] q h = refl
is_new_below at now (s ∷ ss) q h =
    let e : ltb q (now + (s.pre_start - at)) ≡ true = lt→ltb _ _ (omega arith) in
    rw (e, is_new) refl

-- A row against the lines of one edit.
one_edit :
    (start new q : ℕ) (rest : Bool)
    → (if ltb q start then rest else false) ≡ false
    → (if ltb 0 new then in_run q (record { start = start; end = start + new }) || rest else rest)
      ≡ (if ltb q start then false else if ltb q (start + new) then true else rest)
unfolding in_run
one_edit start new q rest h = ground (arith, h)

marked_if :
    (q : ℕ) (b : Bool) (r : Run) (rs : List Run)
    → marked q (if b then r ∷ rs else rs) ≡ (if b then in_run q r || marked q rs else marked q rs)
unfolding marked
marked_if q true r rs = refl
marked_if q false r rs = refl

marked-new_spans :
    (d : ℤ) (at now n : ℕ) (ss : List Span) (q : ℕ)
    → pos_part d + at ≡ now + neg_part d
    → Within at n ss
    → now + (n - at) + added ss < u32_mod
    → marked q (new_spans (deltas d ss) ss) ≡ is_new at now ss q
unfolding new_spans deltas marked is_new added
marked-new_spans d at now n [] q e w h = refl
marked-new_spans d at now n (s ∷ ss) q e w h =
    let start = now + (s.pre_start - at) in
    let at' = s.pre_start + s.old_lines in
    let now' = start + s.new_lines in
    let d' = d +ℤ pos s.new_lines -ℤ pos s.old_lines in
    let from = w.0 in
    let inside = Within-le at' n ss w.1 in
    let sum = +ℤ_parts (pos s.pre_start) d in
    let post : as_u32 (pos s.pre_start +ℤ d) ≡ start =
      as_u32_fits (pos s.pre_start +ℤ d) start (omega (arith, sum, e, from))
        (omega (arith, h, from, inside)) in
    let plus = +ℤ_parts d (pos s.new_lines) in
    let minus = -ℤ_parts (d +ℤ pos s.new_lines) (pos s.old_lines) in
    let ih =
      marked-new_spans d' at' now' n ss q (omega (arith, e, plus, minus, from)) w.1
        (omega (arith, h, from, inside)) in
    let none_before : (if ltb q start then is_new at' now' ss q else false) ≡ false =
      elim (Bool-cases (ltb q start)) [
        | inl f ↦ rw f (is_new_below at' now' ss q (omega (arith, ltb→lt _ _ f)))
        | inr f ↦ rw f refl
      ] in
    marked_if q (ltb 0 s.new_lines)
      (record {
        start = as_u32 (pos s.pre_start +ℤ d);
        end = as_u32 (pos s.pre_start +ℤ d) + s.new_lines;
      })
      (new_spans (deltas d' ss) ss)
    ∙ ap₂
        (λ a rest.
          if ltb 0 s.new_lines
          then in_run q (record { start = a; end = a + s.new_lines }) || rest
          else rest)
        post ih
    ∙ one_edit start s.new_lines q (is_new at' now' ss q) none_before

-- Where no run has an end strictly inside a span, a commit leaves separated runs that mark a row exactly
-- where it is one of the lines of an edit or the row that it was before was marked. The spans ascend, are
-- disjoint, and lie like the runs within n rows, and with the lines added there are fewer than 2 ^ 32.
pub apply_splices-old_row :
    (rs : List Run) (s : Span) (ss : List Span) (n : ℕ)
    → Within 0 n (s ∷ ss)
    → n + added (s ∷ ss) < u32_mod
    → RunsWithin n rs
    → StartsClear (s ∷ ss) rs
    → EndsClear (s ∷ ss) rs
    → Separated 0 (apply_splices rs (s ∷ ss))
      × ((q : ℕ)
          → marked q (apply_splices rs (s ∷ ss))
            ≡ (is_new 0 0 (s ∷ ss) q || marked (old_row 0 0 (s ∷ ss) q) rs))
apply_splices-old_row rs s ss n w h k a b =
    let (apart, exact) = apply_splices-marked rs s ss in
    (
      apart,
      λ q.
          let news = marked-new_spans (pos 0) 0 0 n (s ∷ ss) q refl w (omega (arith, h)) in
          exact q ∙ elim (Bool-cases (is_new 0 0 (s ∷ ss) q)) [
            | inl e ↦ ground (arith, news, e)
            | inr e ↦
                let same = marked-shifted_runs n (s ∷ ss) rs q w h k a b e in
                ground (arith, news, e, same)
          ],
    )

run_ends : (p : ℕ) (r : Run) → in_run p r ≡ true → (leb r.start p ≡ true) × (p < r.end)
unfolding in_run
run_ends p r f = (ground (arith, f), ground (arith, f))

kept-shifted_runs :
    (n : ℕ) (ss : List Span) (rs : List Run) (q : ℕ)
    → Within 0 n ss
    → n + added ss < u32_mod
    → RunsWithin n rs
    → StartsClear ss rs
    → is_new 0 0 ss q ≡ false
    → marked (old_row 0 0 ss q) rs ≡ true
    → marked q (shifted_runs (deltas (pos 0) ss) ss rs) ≡ true
unfolding shifted_runs marked
kept-shifted_runs n ss [] q w h k a e m = m
kept-shifted_runs n ss (r ∷ rs) q w h (k, k', k2) (a, a2) e m =
    let p = old_row 0 0 ss q in
    let low = new_end-order 0 0 n ss r.start q w (omega arith) (omega arith) a e in
    let pushed =
      marked-push_nonempty q (record { start = moved ss r.start; end = moved ss r.end })
        (shifted_runs (deltas (pos 0) ss) ss rs) in
    let run = in_run-moved n ss r q w h (k, k') in
    elim (Bool-cases (in_run p r)) [
      | inl f ↦
          let (after, before) = run_ends p r f in
          let high = new_end-after 0 0 n ss r.end q w (omega arith) e before in
          let inside : (leb (new_end 0 0 ss r.start) q && ltb q (new_end 0 0 ss r.end)) ≡ true =
            ground (arith, low, high, after) in
          pushed ∙ ap (◌|| marked q (shifted_runs (deltas (pos 0) ss) ss rs)) (run ∙ inside)
      | inr f ↦
          let rest = kept-shifted_runs n ss rs q w h k2 a2 e (ap (◌|| marked p rs) (sym f) ∙ m) in
          pushed ∙ ground (arith, rest)
    ]

-- Where no run starts strictly inside a span, a commit loses no mark: the lines of the edits are marked,
-- and a row that was marked before is marked where it is now. The spans ascend, are disjoint, and lie like
-- the runs within n rows, and with the lines added there are fewer than 2 ^ 32.
pub apply_splices-keeps :
    (rs : List Run) (s : Span) (ss : List Span) (n q : ℕ)
    → Within 0 n (s ∷ ss)
    → n + added (s ∷ ss) < u32_mod
    → RunsWithin n rs
    → StartsClear (s ∷ ss) rs
    → (is_new 0 0 (s ∷ ss) q || marked (old_row 0 0 (s ∷ ss) q) rs) ≡ true
    → marked q (apply_splices rs (s ∷ ss)) ≡ true
apply_splices-keeps rs s ss n q w h k a m =
    let exact = (apply_splices-marked rs s ss).1 q in
    let news = marked-new_spans (pos 0) 0 0 n (s ∷ ss) q refl w (omega (arith, h)) in
    elim (Bool-cases (is_new 0 0 (s ∷ ss) q)) [
      | inl e ↦ exact ∙ ground (arith, news, e)
      | inr e ↦
          let kept =
            kept-shifted_runs n (s ∷ ss) rs q w h k a e
              (ap (◌|| marked (old_row 0 0 (s ∷ ss) q) rs) (sym e) ∙ m) in
          exact ∙ ground (arith, kept)
    ]
