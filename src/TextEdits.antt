-- ===== src/TextEdits.antt =====
-- The narrowing of a server's text edit to what changes (crates/matcha-lsp/src/edits.rs). A text is the
-- list of its bytes. What is cut lies within the range of the op, so the casts and sums in u32 are exact.
pub mod Boundaries
pub mod Trimmed
use matcha.Common.{
  ℕ, zero, suc, ◌+◌, ◌-◌, Bool, true, false, ◌&&◌, List, [], ◌∷◌, length, take, drop, reverse, ◌==◌,
  if◌then◌else◌,
}
use matcha.Buffer.{contains_cr, crlf_to_lf, cr_to_lf}
use matcha.Coords.{is_char_boundary}
use matcha.Patch.{Range}
use matcha.Transaction.{EditOp}

-- The new text of an edit with `\n` as its only line break.
unfoldable pub lf : List ℕ → List ℕ
unfolding contains_cr crlf_to_lf cr_to_lf
lf text = if contains_cr text then cr_to_lf (crlf_to_lf text) else text

-- `zip` of the bytes, `take_while(|(a, b)| a == b)` and `count`
unfoldable pub shared_front : List ℕ → List ℕ → ℕ
shared_front [] new = 0
shared_front (c ∷ cs) [] = 0
shared_front (c ∷ cs) (d ∷ ds) = let rest = shared_front cs ds in if c == d then suc rest else 0

-- The first `while`. It ends at 0, which is a boundary of both texts.
unfoldable pub trim_front : List ℕ → List ℕ → ℕ → ℕ
trim_front old new zero = 0
trim_front old new (suc prefix) =
    let rest = trim_front old new prefix in
    if is_char_boundary old (suc prefix) && is_char_boundary new (suc prefix)
    then suc prefix
    else rest

-- The second `while`. It ends at 0, where the ends of both texts are boundaries.
unfoldable pub trim_back : List ℕ → List ℕ → ℕ → ℕ
trim_back old new zero = 0
trim_back old new (suc suffix) =
    let rest = trim_back old new suffix in
    if is_char_boundary old (length old - suc suffix)
      && is_char_boundary new (length new - suc suffix)
    then suc suffix
    else rest

unfoldable pub trim_op : List ℕ → EditOp → EditOp
unfolding shared_front trim_front trim_back
trim_op old op =
    let prefix = trim_front old op.text (shared_front old op.text) in
    let old1 = drop prefix old in
    let new1 = drop prefix op.text in
    let suffix = trim_back old1 new1 (shared_front (reverse old1) (reverse new1)) in
    record {
      range = record { start = op.range.start + prefix; end = op.range.end - suffix };
      text = take (length new1 - suffix) new1;
    }
