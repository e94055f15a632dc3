-- ===== src/Tests/Positions.antt =====
-- Coordinates and patches at concrete inputs.
use matcha.Common.{ℕ, ◌≡◌, ◌≤◌, [], ◌∷◌, map, arith, inl, inr}
use matcha.Coords.{Bias, left, right, snap_char_boundary}
use matcha.Coords.Snap.{IsNearest, snap_char_boundary-IsNearest}
use matcha.Patch.{Patch, map_offset, map_many}
use matcha.Patch.Batch.{map_many-eq-map_offset}
use matcha.Patch.Order.{IsMappable, mirror, map_offset_le, map_offset-mono_left, map_offset-mirror}

-- The second byte of a two-byte character.
snap_char_boundary-IsNearest_example :
    IsNearest
      (97 ∷ 195 ∷ 169 ∷ 98 ∷ [])
      2
      left
      (snap_char_boundary (97 ∷ 195 ∷ 169 ∷ 98 ∷ []) 2 left)
snap_char_boundary-IsNearest_example =
    snap_char_boundary-IsNearest (97 ∷ 195 ∷ 169 ∷ 98 ∷ []) 2 left

-- One replacement and one insertion.
abbrev two_edits : Patch
two_edits = record {
  edits =
      record { old = record { start = 0; end = 2 }; new = record { start = 0; end = 3 } }
      ∷ record { old = record { start = 4; end = 4 }; new = record { start = 5; end = 7 } }
      ∷ [];
}

two_edits-IsMappable : IsMappable two_edits 6
two_edits-IsMappable = record {
  chained = (
    omega arith,
    omega arith,
    omega arith,
    omega arith,
    (omega arith, omega arith, omega arith, omega arith, tt),
  );
  within = omega arith;
  fits = omega arith;
}

mirrored-IsMappable : IsMappable (record { edits = mirror two_edits.edits }) 9
mirrored-IsMappable = record {
  chained = (
    omega arith,
    omega arith,
    omega arith,
    omega arith,
    (omega arith, omega arith, omega arith, omega arith, tt),
  );
  within = omega arith;
  fits = omega arith;
}

map_many-eq-map_offset_example :
    map_many two_edits ((1, right) ∷ (4, left) ∷ (6, left) ∷ [])
    ≡ map (λ (q : ℕ × Bias). map_offset two_edits q.0 q.1) ((1, right) ∷ (4, left) ∷ (6, left) ∷ [])
map_many-eq-map_offset_example =
    map_many-eq-map_offset two_edits ((1, right) ∷ (4, left) ∷ (6, left) ∷ [])
      (
        omega arith,
        omega arith,
        omega arith,
        omega arith,
        (omega arith, omega arith, omega arith, omega arith, tt),
      )
      (omega arith) (omega arith, (omega arith, (omega arith, tt)))

map_offset_le_example : map_offset two_edits 5 right ≤ 9
map_offset_le_example = map_offset_le two_edits-IsMappable 5 right (omega arith)

map_offset-mono_left_example :
    (map_offset two_edits 1 left ≤ map_offset two_edits 4 left)
    × (map_offset two_edits 1 left ≤ map_offset two_edits 4 right)
map_offset-mono_left_example =
    map_offset-mono_left two_edits-IsMappable 1 4 (omega arith) (omega arith)

map_offset-mirror_example :
    map_offset (record { edits = mirror two_edits.edits }) (map_offset two_edits 3 left) right ≡ 3
map_offset-mirror_example =
    map_offset-mirror two_edits-IsMappable mirrored-IsMappable 3 left right (omega arith)
      (inr (omega arith), (inl (omega arith), tt))
