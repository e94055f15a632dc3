-- ===== src/Patch.antt =====
-- The change currency: edits, patches and the position map (crates/matcha-core/src/patch.rs).
-- Positions are u32 values; the code computes with them as i64 (ℤ) and casts back.
pub mod Spec
pub mod Batch
pub mod Order
use matcha.Common.{
  ℕ, suc, ◌≤◌, Bool, Option, none, some, List, [], ◌∷◌, ◌++◌, map, min, ltb, if◌then◌else◌,
  get_elem?, get_or, partition_point, sub_u32,
}
use matcha.Common.Int.{ℤ, pos, ◌+ℤ◌, ◌-ℤ◌, ltb_ℤ, leb_ℤ, eq_ℤ, as_u32}
use matcha.Coords.{Bias, left, right}

-- `Range<u32>`
pub record Range : Type 0 where
  pub start : ℕ
  pub end : ℕ

pub record Edit : Type 0 where
  pub old : Range
  pub new : Range

pub record Patch : Type 0 where
  pub edits : List Edit

abbrev pub new : Patch
new = record { edits = [] }

abbrev pub single : Edit → Patch
single edit = record { edits = edit ∷ [] }

-- The debug assertions of `push` are the invariant `Ascending` of `Patch.Spec`.
unfoldable pub push : Patch → Edit → Patch
push p edit = record { edits = p.edits ++ edit ∷ [] }

-- A position `p` known to lie in `[s, end]`: `sn` is the edit's post-edit start, `l` the inserted
-- length.
unfoldable pub map_within : ℤ → ℤ → ℤ → ℤ → ℤ → Bias → ℤ
map_within p s end sn l bias =
    if eq_ℤ p s
    then elim bias [ right ↦ sn +ℤ l | left ↦ sn ]
    else if ltb_ℤ p end
    then (let rel = p -ℤ s in if leb_ℤ rel l then sn +ℤ rel else sn +ℤ l)
    else sn +ℤ l

-- The loop of `map_offset`, over the edits left and the shift accumulated so far.
unfoldable pub map_edits : List Edit → ℤ → ℤ → Bias → ℕ
unfolding map_within
map_edits [] p shift bias = as_u32 (p +ℤ shift)
map_edits (e ∷ es) p shift bias =
    let s = pos e.old.start in
    let end = pos e.old.end in
    let l = pos (sub_u32 e.new.end e.new.start) in
    let rest = map_edits es p (shift +ℤ (l -ℤ (end -ℤ s))) bias in
    if ltb_ℤ p s
    then as_u32 (p +ℤ shift)
    else if leb_ℤ p end
    then as_u32 (map_within p s end (s +ℤ shift) l bias)
    else rest

unfoldable pub map_offset : Patch → ℕ → Bias → ℕ
unfolding map_edits
map_offset p offset bias = map_edits p.edits (pos offset) (pos 0) bias

unfoldable pub map_range : Patch → Range → Bias → Bias → Range
unfolding map_offset
map_range p range start_bias end_bias =
    let start = map_offset p range.start start_bias in
    let end = map_offset p range.end end_bias in record { start = min start end; end = end }

-- `pref`: the net length delta of each prefix of the edits, one more entry than there are edits.
unfoldable pub prefix_shifts : List Edit → ℤ → List ℤ
prefix_shifts [] acc = acc ∷ []
prefix_shifts (e ∷ es) acc =
    acc
    ∷ prefix_shifts es
        (acc +ℤ (pos (sub_u32 e.new.end e.new.start) -ℤ pos (sub_u32 e.old.end e.old.start)))

-- One query of `map_many`, once `pref` is built; there is no edit at `k` exactly where
-- `k == edits.len()`.
unfoldable pub map_query : List Edit → List ℤ → ℕ × Bias → ℕ
unfolding map_within
map_query edits pref (offset, bias) =
    let p = pos offset in
    let k = partition_point (λ e. ltb_ℤ (pos e.old.end) p) edits in
    let shift = get_or pref k (pos 0) in
    elim (get_elem? edits k) [
      | none ↦ as_u32 (p +ℤ shift)
      | some e ↦
          if ltb_ℤ p (pos e.old.start)
          then as_u32 (p +ℤ shift)
          else as_u32 (
              map_within p (pos e.old.start) (pos e.old.end) (pos e.old.start +ℤ shift)
                (pos (sub_u32 e.new.end e.new.start)) bias)
    ]

unfoldable pub map_many : Patch → List (ℕ × Bias) → List ℕ
unfolding map_query prefix_shifts
map_many p queries = elim p.edits [
  | [] ↦ map (λ (q : ℕ × Bias). q.0) queries
  | e ∷ es ↦ map (map_query (e ∷ es) (prefix_shifts (e ∷ es) (pos 0))) queries
]
