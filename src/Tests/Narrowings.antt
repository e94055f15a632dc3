-- ===== src/Tests/Narrowings.antt =====
-- Narrowed edits on small texts.
use matcha.Common.{ℕ, ◌-◌, ◌≤◌, ◌≡◌, refl, true, List, [], ◌∷◌, ◌++◌, length, drop}
use matcha.Coords.{is_char_boundary}
use matcha.Transaction.{EditOp}
use matcha.Text.{replace_in}
use matcha.TextEdits.{trim_op, lf}
use matcha.TextEdits.Trimmed.{replace_in-trim_op}

-- `aéb` by `aèb`, whose chars share their first byte.
abbrev accented : List ℕ
accented = b'a' ∷ 195 ∷ 169 ∷ b'b' ∷ []

abbrev grave : EditOp
grave = record { range = record { start = 1; end = 5 }; text = b'a' ∷ 195 ∷ 168 ∷ b'b' ∷ [] }

trim_accent :
    trim_op accented grave ≡ record { range = record { start = 2; end = 4 }; text = 195 ∷ 168 ∷ [] }
unfolding trim_op is_char_boundary
trim_accent = refl

replace_in-trim_op_example :
    let op' = trim_op accented grave in
    (replace_in op'.range op'.text (b'x' ∷ accented ++ b'y' ∷ [])
      ≡ b'x' ∷ b'a' ∷ 195 ∷ 168 ∷ b'b' ∷ b'y' ∷ [])
    × (1 ≤ op'.range.start)
    × (op'.range.start ≤ op'.range.end)
    × (op'.range.end ≤ 5)
    × (let cut = op'.range.start - 1 in
        (is_char_boundary accented cut ≡ true)
        × (is_char_boundary grave.text cut ≡ true)
        × (is_char_boundary (drop cut accented) (op'.range.end - op'.range.start) ≡ true)
        × (is_char_boundary (drop cut grave.text) (length op'.text) ≡ true))
replace_in-trim_op_example = replace_in-trim_op (b'x' ∷ []) accented (b'y' ∷ []) grave refl refl

lf_mixed : lf (b'a' ∷ 13 ∷ 10 ∷ 13 ∷ []) ≡ b'a' ∷ 10 ∷ 10 ∷ []
unfolding lf
lf_mixed = refl
