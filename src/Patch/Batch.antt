-- ===== src/Patch/Batch.antt =====
-- `map_many` answers every query as `map_offset` does.
use matcha.Common.{ℕ, ◌≤◌, ◌<◌, ◌≡◌, ap₂, List, [], ◌∷◌, map, sub_u32, u32_mod, arith, refl}
use matcha.Common.Int.{ℤ, pos, ◌+ℤ◌, ◌-ℤ◌}
use matcha.Coords.{Bias}
use matcha.Patch.Spec.{Ascending, old_end, le-old_end}
use matcha.Patch.{Edit, Patch, map_edits, map_offset, prefix_shifts, map_query, map_many}

-- Every old range is a range of u32 offsets.
abbrev pub WellFormed : List Edit → Type 0
WellFormed [] = Unit
WellFormed (e ∷ es) = (e.old.start ≤ e.old.end) × (e.old.end < u32_mod) × WellFormed es

old_width :
    (e : Edit)
    → e.old.start ≤ e.old.end
    → e.old.end < u32_mod
    → pos (sub_u32 e.old.end e.old.start) ≡ pos e.old.end -ℤ pos e.old.start
unfolding ◌-ℤ◌
old_width e h k = ground arith

-- One query, answered over the edits left and the shift accumulated before them.
map_query-map_edits :
    (es : List Edit) (acc : ℤ) (p : ℕ) (b : Bias)
    → WellFormed es
    → map_query es (prefix_shifts es acc) (p, b) ≡ map_edits es (pos p) acc b
unfolding map_query prefix_shifts map_edits
map_query-map_edits [] acc p b w = refl
map_query-map_edits (e ∷ es) acc p b w = ground (
  arith,
  old_width e w.0 w.1,
  map_query-map_edits es
      (acc +ℤ (pos (sub_u32 e.new.end e.new.start) -ℤ pos (sub_u32 e.old.end e.old.start))) p b w.2,
)

map_queries :
    (es : List Edit) (queries : List (ℕ × Bias))
    → WellFormed es
    → map (map_query es (prefix_shifts es (pos 0))) queries
      ≡ map (λ (q : ℕ × Bias). map_edits es (pos q.0) (pos 0) q.1) queries
map_queries es [] w = refl
map_queries es ((o, b) ∷ qs) w =
    ap₂ (λ (x : ℕ) (xs : List ℕ). x ∷ xs) (map_query-map_edits es (pos 0) o b w)
      (map_queries es qs w)

abbrev pub AllU32 : List (ℕ × Bias) → Type 0
AllU32 [] = Unit
AllU32 ((o, b) ∷ qs) = (o < u32_mod) × AllU32 qs

-- With no edits every offset stays.
map_no_edits :
    (queries : List (ℕ × Bias))
    → AllU32 queries
    → map (λ (q : ℕ × Bias). q.0) queries
      ≡ map (λ (q : ℕ × Bias). map_edits [] (pos q.0) (pos 0) q.1) queries
map_no_edits [] h = refl
map_no_edits ((o, b) ∷ qs) (h, hs) =
    ap₂ (λ (x : ℕ) (xs : List ℕ). x ∷ xs) (unfold map_edits ◌+ℤ◌ in ground arith)
      (map_no_edits qs hs)

WellFormed-Ascending :
    (es : List Edit) (o n : ℕ) → Ascending o n es → old_end o es < u32_mod → WellFormed es
WellFormed-Ascending [] o n a h = tt
WellFormed-Ascending (e ∷ es) o n a h = (
  a.1,
  omega (arith, le-old_end es e.old.end e.new.end a.4),
  WellFormed-Ascending es e.old.end e.new.end a.4 h,
)

-- For a patch whose edits ascend and are disjoint in both spaces, with old offsets below 2 ^ 32,
-- and for u32 offsets, `map_many`, over prefix sums and a binary search, answers every query as
-- `map_offset` does.
pub map_many-eq-map_offset :
    (p : Patch) (queries : List (ℕ × Bias))
    → Ascending 0 0 p.edits
    → old_end 0 p.edits < u32_mod
    → AllU32 queries
    → map_many p queries ≡ map (λ (q : ℕ × Bias). map_offset p q.0 q.1) queries
unfolding map_many map_offset
map_many-eq-map_offset p queries a h u = by_edits p.edits a h
  where
    by_edits :
        (es : List Edit)
        → Ascending 0 0 es
        → old_end 0 es < u32_mod
        → map_many (record { edits = es }) queries
          ≡ map (λ (q : ℕ × Bias). map_edits es (pos q.0) (pos 0) q.1) queries
    by_edits [] a h = map_no_edits queries u
    by_edits (e ∷ es) a h = map_queries (e ∷ es) queries (WellFormed-Ascending (e ∷ es) 0 0 a h)
