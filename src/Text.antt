-- ===== src/Text.antt =====
-- The abstract text that edits act on: a list of bytes, one batch of replacements, and the batch
-- that takes it back. This is what the rope and the transaction engine are measured against.
pub mod Inverse
pub mod Boundary
pub mod Splices
use matcha.Common.{
  ℕ, ◌+◌, ◌-◌, ◌≤◌, ◌≡◌, refl, Bool, true, List, [], ◌∷◌, ◌++◌, length, take, drop, none, some,
  get_elem?,
}
use matcha.Coords.{is_char_boundary, is_continuation}
use matcha.Patch.{Range}

-- A replacement: a byte range and the text put there.
abbrev pub Splice : Type 0
Splice = Range × List ℕ

-- The bytes of `range`.
abbrev pub bytes_in : Range → List ℕ → List ℕ
bytes_in r t = take (r.end - r.start) (drop r.start t)

-- One replacement.
abbrev pub replace_in : Range → List ℕ → List ℕ → List ℕ
replace_in r x t = take r.start t ++ (x ++ drop r.end t)

-- A batch of ascending, disjoint replacements. `t` is the text from `at` on.
unfoldable pub splice : ℕ → List Splice → List ℕ → List ℕ
splice at [] t = t
splice at ((r, x) ∷ ops) t = take (r.start - at) t ++ (x ++ splice r.end ops (drop (r.end - at) t))

-- Ascending and disjoint from `at` on, and within `len` bytes. Touching is allowed.
abbrev pub Disjoint : ℕ → ℕ → List Splice → Type 0
Disjoint at len [] = at ≤ len
Disjoint at len ((r, x) ∷ ops) = (at ≤ r.start) × (r.start ≤ r.end) × Disjoint r.end len ops

-- The replacements that take `splice at ops t` back to `t`, in its coordinates; `now` is where `at`
-- has moved to.
unfoldable pub unsplice : ℕ → ℕ → List Splice → List ℕ → List Splice
unsplice at now [] t = []
unsplice at now ((r, x) ∷ ops) t =
    let start = now + (r.start - at) in
    (
      record { start = start; end = start + length x },
      take (r.end - r.start) (drop (r.start - at) t),
    )
    ∷ unsplice r.end (start + length x) ops (drop (r.end - at) t)

-- How long the text is after the batch.
unfoldable pub spliced_length : ℕ → ℕ → List Splice → ℕ
spliced_length at len [] = len - at
spliced_length at len ((r, x) ∷ ops) = (r.start - at) + length x + spliced_length r.end len ops
