-- ===== src/Rope/Rebuild.antt =====
-- `rebuild_with`: the copy over chunks finds every chunk it needs and builds the spliced text.
use matcha.Common.{
  ℕ, zero, suc, ◌+◌, ◌-◌, ◌≤◌, ◌≡◌, refl, sym, ap, ap₂, ◌∙◌, ◌⊎◌, true, false, Option, some, List,
  [], ◌∷◌, ◌++◌, append-nil, append_assoc, length, take, drop, min, ltb, ltb→lt, ltb→le, arith,
  Bool-cases, inl, inr, length-drop, take-append-drop, drop-drop, take-take-drop_add,
}
use mathlib.Core.Path.{subst, subst₂}
use native.Mathlib.Decide.{dec_le}
use matcha.Patch.{Range}
use matcha.Text.{Splice, splice, Disjoint}
use matcha.Text.Inverse.{Disjoint-le}
use matcha.Ropey.{concat}
use matcha.Coords.{is_char_boundary}
use matcha.Coords.Snap.{is_char_boundary-length, is_char_boundary-zero}
use matcha.Text.Boundary.{AtBoundaries}
use matcha.Rope.Slices.{boundary_later}
use matcha.Rope.{Copy, next_chunk_at_end, copy_chunk, copy_gap, copy_gaps}
use matcha.Rope.Chunks.{
  concat-append, ahead, OnChunk, Cut, CutAt, stop, ahead-copied_chunk, out-copied_chunk,
  OnChunk-copied_chunk, Cut-copied_chunk, copy_chunk-copied_chunk, copy_at, next_chunk_lem,
  Advances, copied_chunk,
}

-- Enough rounds: one for each chunk left, one for the current chunk unless it is read, one to stop.
EnoughRounds : ℕ → Copy → ℕ → Type 0
EnoughRounds end c fuel =
    (length c.rest + 2 ≤ fuel)
    ⊎ ((length c.rest + 1 ≤ fuel) × ((c.pos ≡ c.cs + length c.chunk) ⊎ (end ≤ c.pos)))

-- The copy of one gap: the text up to `start` goes to the builder, and reading goes on at `end`.
Copies : ℕ → ℕ → Copy → Option Copy → Type 0
Copies start end c result =
    (c' : Copy) × (result ≡ some c')
    × OnChunk c'
    × (c'.pos ≡ end)
    × (concat c'.out ≡ concat c.out ++ take (start - c.pos) (ahead c))
    × (ahead c' ≡ drop (end - c.pos) (ahead c))
    × Cut c'

copy_gap_more :
    (fuel start end : ℕ) (c c1 c2 : Copy)
    → ltb c.pos end ≡ true
    → next_chunk_at_end c ≡ some c1
    → copy_chunk start end c1 ≡ some c2
    → copy_gap (suc fuel) start end c ≡ copy_gap fuel start end c2
unfolding copy_gap
copy_gap_more fuel start end c c1 c2 e e1 e2 = ground (arith, e, e1, e2)

copy_gap_done :
    (fuel start end : ℕ) (c : Copy)
    → ltb c.pos end ≡ false
    → copy_gap (suc fuel) start end c ≡ some c
unfolding copy_gap
copy_gap_done fuel start end c e = ground (arith, e)

copied :
    (t : List ℕ) (pos stop start : ℕ)
    → pos ≤ stop
    → take (min stop start - pos) t ++ take (start - stop) (drop (stop - pos) t)
      ≡ take (start - pos) t
copied t pos stop start h = elim (dec_le stop start) [
  | yes le ↦
      let a : min stop start - pos ≡ stop - pos = omega arith in
      let b : stop - pos + (start - stop) ≡ start - pos = omega arith in
      rw (a, take-take-drop_add (stop - pos) (start - stop) t, b)
  | no gt ↦
      let a : min stop start - pos ≡ start - pos = omega arith in
      let b : start - stop ≡ 0 = omega arith in rw (a, b) (append-nil (take (start - pos) t))
]

copy_gap_lem :
    (fuel start end : ℕ) (c : Copy)
    → start ≤ end
    → OnChunk c
    → c.pos ≤ end
    → end - c.pos ≤ length (ahead c)
    → EnoughRounds end c fuel
    → Cut c
    → CutAt c start
    → CutAt c end
    → Copies start end c (copy_gap fuel start end c)
unfolding copy_gap copied_chunk stop EnoughRounds Copies Advances
copy_gap_lem zero start end c h on before room enough cut low high = absurd (omega arith)
copy_gap_lem (suc fuel) start end c h on before room enough cut low high =
    elim (Bool-cases (ltb c.pos end)) [
      | inr done ↦
          let here : c.pos ≡ end = omega (arith, ltb→le c.pos end done) in
          let zero_left : start - c.pos ≡ 0 = omega arith in
          let nothing : end - c.pos ≡ 0 = omega arith in
          (
            c,
            copy_gap_done fuel start end c done,
            on,
            here,
            rw (zero_left) (sym (append-nil (concat c.out))),
            rw nothing,
            cut,
          )
      | inl more ↦
          let lt = ltb→lt c.pos end more in
          let (c1, e1, st, keep) = next_chunk_lem c on (omega arith) in
          let at_c : c1.pos ≡ c.pos = st.1 in
          let same : ahead c1 ≡ ahead c = st.3 in
          let before1 : c1.pos ≤ end = omega arith in
          let stop1 = stop start end c1 st.0 before1 in
          let carried : (o : ℕ)
              → is_char_boundary (ahead c1) (o - c1.pos) ≡ is_char_boundary (ahead c) (o - c.pos) =
            λ o. ap₂ (λ n (t : List ℕ). is_char_boundary t (o - n)) at_c same in
          let low1 : CutAt c1 start = carried start ∙ low in
          let high1 : CutAt c1 end = carried end ∙ high in
          let done1 = copy_chunk-copied_chunk start end c1 st.0 before1 h (keep cut) low1 high1 in
          let step = ahead-copied_chunk start end c1 st.0 before1 in
          let (c', e', on', pos', out', ahead', cut') =
            copy_gap_lem fuel start end (copied_chunk start end c1) h
              (OnChunk-copied_chunk start end c1 st.0 before1) (omega arith)
              (omega
                (arith, ap length step, length-drop (stop1 - c1.pos) (ahead c1), ap length same))
              (omega (arith, st.4)) (Cut-copied_chunk start end c1 st.0 before1 (keep cut) high1)
              (ap (λ (t : List ℕ). is_char_boundary t (start - stop1)) step
                ∙ boundary_later (ahead c1) c1.pos stop1 start (omega arith) low1)
              (ap (λ (t : List ℕ). is_char_boundary t (end - stop1)) step
                ∙ boundary_later (ahead c1) c1.pos stop1 end (omega arith) high1) in
          (
            c',
            copy_gap_more fuel start end c c1 (copied_chunk start end c1) more e1 done1 ∙ e',
            on',
            pos',
            out'
                ∙ ap (λ (t : List ℕ). t ++ take (start - stop1) (ahead (copied_chunk start end c1)))
                    (out-copied_chunk start end c1 st.0 before1
                      ∙ ap
                          (λ (o : List (List ℕ)).
                            concat o ++ take (min stop1 start - c1.pos) (ahead c1))
                          st.2)
                ∙ append_assoc (concat c.out) (take (min stop1 start - c1.pos) (ahead c1))
                    (take (start - stop1) (ahead (copied_chunk start end c1)))
                ∙ ap (concat c.out ++◌) (
                    ap
                      (λ (t : List ℕ).
                        take (min stop1 start - c1.pos) (ahead c1) ++ take (start - stop1) t)
                      step
                    ∙ copied (ahead c1) c1.pos stop1 start (omega arith)
                    ∙ ap₂ (λ n (t : List ℕ). take (start - n) t) at_c same),
            ahead'
                ∙ ap (drop (end - stop1)) step
                ∙ drop-drop (end - stop1) (stop1 - c1.pos) (ahead c1)
                ∙ ap₂ (λ n (t : List ℕ). drop n t) (omega arith) same,
            cut',
          )
    ]

copy_gaps_step :
    (r : Range) (x : List ℕ) (ops : List Splice) (c c1 : Copy)
    → copy_gap (length c.rest + 2) r.start r.end c ≡ some c1
    → copy_gaps ((r, x) ∷ ops) c ≡ copy_gaps ops (record c1 { out = c1.out ++ x ∷ [] })
unfolding copy_gaps
copy_gaps_step r x ops c c1 e = ground (arith, e)

abbrev pub last_end : ℕ → List Splice → ℕ
last_end at [] = at
last_end at ((r, x) ∷ ops) = last_end r.end ops

-- The ends of the edits are on char boundaries of the text from `at` on.
abbrev CutsFrom : ℕ → List ℕ → List Splice → Type 0
CutsFrom at t [] = Unit
CutsFrom at t ((r, x) ∷ ops) =
    (is_char_boundary t (r.start - at) ≡ true)
    × (is_char_boundary t (r.end - at) ≡ true)
    × CutsFrom at t ops

CutsFrom-drop :
    (ops : List Splice) (at next : ℕ) (t : List ℕ)
    → at ≤ next
    → CutsFrom at t ops
    → CutsFrom next (drop (next - at) t) ops
CutsFrom-drop [] at next t h k = tt
CutsFrom-drop ((r, x) ∷ ops) at next t h k = (
  boundary_later t at next r.start h k.0,
  boundary_later t at next r.end h k.1,
  CutsFrom-drop ops at next t h k.2,
)

-- All the gaps in turn: the builder is given the text before each gap and each replacement.
pub copy_gaps_lem :
    (ops : List Splice) (c : Copy)
    → OnChunk c
    → Disjoint c.pos (c.pos + length (ahead c)) ops
    → Cut c
    → CutsFrom c.pos (ahead c) ops
    → (c' : Copy) × (copy_gaps ops c ≡ some c')
      × (concat c'.out ++ ahead c' ≡ concat c.out ++ splice c.pos ops (ahead c))
      × (c'.pos ≡ last_end c.pos ops)
      × (c'.pos + length (ahead c') ≡ c.pos + length (ahead c))
unfolding copy_gaps splice Copies EnoughRounds
copy_gaps_lem [] c on d cut cuts = (c, refl, refl, refl, refl)
copy_gaps_lem ((r, x) ∷ ops) c on d cut cuts =
    let inside = Disjoint-le ops r.end (c.pos + length (ahead c)) d.2 in
    let (c1, e, on1, pos1, out1, ahead1, cut1) =
      copy_gap_lem (length c.rest + 2) r.start r.end c d.1 on (omega arith) (omega arith)
        (inl (omega arith)) cut cuts.0 cuts.1 in
    let c2 = copy_at c1.rest c1.chunk c1.cs c1.pos (c1.out ++ x ∷ []) in
    let total : c.pos + length (ahead c) ≡ c1.pos + length (ahead c1) =
      omega (arith, ap length ahead1, length-drop (r.end - c.pos) (ahead c)) in
    let (c', e', out', last', total') =
      copy_gaps_lem ops c2 on1 (subst₂ (λ at len. Disjoint at len ops) (sym pos1) total d.2) cut1 (
        subst₂ (λ at (t : List ℕ). CutsFrom at t ops) (sym pos1) (sym ahead1)
          (CutsFrom-drop ops c.pos r.end (ahead c) (omega arith) cuts.2)) in
    (
      c',
      copy_gaps_step r x ops c c1 e ∙ e',
      out'
          ∙ ap₂ (λ (a b : List ℕ). a ++ b)
              (concat-append c1.out (x ∷ []) ∙ ap₂ (λ (a b : List ℕ). a ++ b) out1 (append-nil x))
              (ap₂ (λ at (t : List ℕ). splice at ops t) pos1 ahead1)
          ∙ append_assoc (concat c.out ++ take (r.start - c.pos) (ahead c)) x
              (splice r.end ops (drop (r.end - c.pos) (ahead c)))
          ∙ append_assoc (concat c.out) (take (r.start - c.pos) (ahead c))
              (x ++ splice r.end ops (drop (r.end - c.pos) (ahead c))),
      last' ∙ ap (λ at. last_end at ops) pos1,
      total' ∙ sym total,
    )

-- The closing gap at the end of the text adds nothing.
closing : ℕ → Splice
closing len = (record { start = len; end = len }, [])

splice-closing :
    (ops : List Splice) (at len : ℕ) (t : List ℕ)
    → splice at (ops ++ closing len ∷ []) t ≡ splice at ops t
unfolding splice closing
splice-closing [] at len t = take-append-drop (len - at) t
splice-closing ((r, x) ∷ ops) at len t =
    ap (λ (u : List ℕ). take (r.start - at) t ++ (x ++ u))
      (splice-closing ops r.end len (drop (r.end - at) t))

Disjoint-closing :
    (ops : List Splice) (at len : ℕ)
    → Disjoint at len ops
    → Disjoint at len (ops ++ closing len ∷ [])
unfolding closing
Disjoint-closing [] at len d = (d, omega arith, omega arith)
Disjoint-closing ((r, x) ∷ ops) at len d = (d.0, d.1, Disjoint-closing ops r.end len d.2)

last_end-closing : (ops : List Splice) (at len : ℕ) → last_end at (ops ++ closing len ∷ []) ≡ len
unfolding closing
last_end-closing [] at len = refl
last_end-closing ((r, x) ∷ ops) at len = last_end-closing ops r.end len

nil_of_length : (t : List ℕ) → length t ≡ 0 → t ≡ []
nil_of_length [] h = refl
nil_of_length (x ∷ t) h = absurd (omega arith)

CutsFrom-AtBoundaries :
    (ops : List Splice) (t : List ℕ)
    → AtBoundaries t ops
    → CutsFrom 0 t (ops ++ closing (length t) ∷ [])
unfolding closing
CutsFrom-AtBoundaries [] t k =
    let e : length t - 0 ≡ length t = omega arith in
    let whole = ap (is_char_boundary t) e ∙ is_char_boundary-length t in (whole, whole, tt)
CutsFrom-AtBoundaries ((r, x) ∷ ops) t k =
    let e : r.start - 0 ≡ r.start = omega arith in
    let f : r.end - 0 ≡ r.end = omega arith in
    (
      ap (is_char_boundary t) e ∙ k.0,
      ap (is_char_boundary t) f ∙ k.1,
      CutsFrom-AtBoundaries ops t k.2,
    )

-- For ascending, disjoint edits on char boundaries of the concatenated chunks, the loop of
-- `rebuild_with`, with the closing gap at the end of the text, finishes within its fuel, without a
-- missing chunk and without a slice off a char boundary, and the pieces that it gives to the builder are together the splice of the batch.
pub copy_document :
    (cs : List (List ℕ)) (ops : List Splice) (len : ℕ)
    → len ≡ length (concat cs)
    → Disjoint 0 len ops
    → AtBoundaries (concat cs) ops
    → (c' : Copy) × (copy_gaps
          (ops ++ (record { start = len; end = len }, []) ∷ [])
          (record { rest = cs; chunk = []; cs = 0; pos = 0; out = [] })
        ≡ some c')
      × (concat c'.out ≡ splice 0 ops (concat cs))
unfolding closing
copy_document cs ops len h d k =
    let c = copy_at cs [] 0 0 [] in
    let gaps = ops ++ closing len ∷ [] in
    let (c', e, out, last, total) =
      copy_gaps_lem gaps c (omega arith, omega arith)
        (subst (λ n. Disjoint 0 n gaps) (omega arith) (Disjoint-closing ops 0 len d))
        (is_char_boundary-zero [])
        (subst (λ n. CutsFrom 0 (concat cs) (ops ++ closing n ∷ [])) (sym h)
          (CutsFrom-AtBoundaries ops (concat cs) k)) in
    let read : ahead c' ≡ [] =
      nil_of_length (ahead c') (omega (arith, last_end-closing ops 0 len)) in
    (
      c',
      e,
      sym (append-nil (concat c'.out))
          ∙ ap (concat c'.out ++◌) (sym read)
          ∙ out
          ∙ splice-closing ops 0 len (concat cs),
    )
