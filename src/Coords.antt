-- ===== src/Coords.antt =====
-- Buffer-space coordinates and char boundaries (crates/matcha-core/src/coords.rs). A `&str` is the
-- list of its UTF-8 bytes. The engine snaps within chunks of a rope and within documents, all shorter
-- than 2 ^ 32 bytes, so the cast of a length to u32 is left out.
pub mod Snap
use matcha.Common.{
  ℕ, zero, suc, ◌+◌, ◌-◌, Bool, true, false, not, ◌&&◌, none, some, List, [], ◌∷◌, ◌≡◌, length,
  get_elem?, ltb, leb, ◌==◌, if◌then◌else◌,
}

pub data Bias : Type 0 where
  left right : Bias

pub record Point : Type 0 where
  pub row : ℕ
  pub col : ℕ

-- A byte `0b10xxxxxx`, which never begins a character.
unfoldable pub is_continuation : ℕ → Bool
is_continuation b = leb 128 b && ltb b 192

-- A `&str` does not begin inside a character.
abbrev pub StartsChar : List ℕ → Type 0
StartsChar [] = Unit
StartsChar (b ∷ t) = is_continuation b ≡ false

-- `str::is_char_boundary`
unfoldable pub is_char_boundary : List ℕ → ℕ → Bool
unfolding is_continuation
is_char_boundary text o =
    if o == 0
    then true
    else elim (get_elem? text o) [ none ↦ o == length text | some b ↦ not (is_continuation b) ]

-- The two loops of `snap_char_boundary`. The left one ends at 0, which is a boundary; the right one
-- has as many rounds as there are bytes after `o`, and the end of the text is a boundary.
unfoldable pub snap_left : List ℕ → ℕ → ℕ
snap_left text zero = 0
snap_left text (suc o) = elim (is_char_boundary text (suc o)) [
  | true ↦ suc o
  | false ↦ snap_left text o
]

unfoldable pub snap_right : List ℕ → ℕ → ℕ → ℕ
snap_right text zero o = o
snap_right text (suc rounds) o = elim (is_char_boundary text o) [
  | true ↦ o
  | false ↦ snap_right text rounds (o + 1)
]

unfoldable pub snap_char_boundary : List ℕ → ℕ → Bias → ℕ
snap_char_boundary text offset bias =
    let len = length text in
    if leb len offset
    then len
    else if is_char_boundary text offset
    then offset
    else elim bias [ left ↦ snap_left text offset | right ↦ snap_right text (len - offset) offset ]
