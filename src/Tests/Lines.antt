-- ===== src/Tests/Lines.antt =====
-- Position encodings at a concrete line.
use matcha.Common.{◌≡◌, refl, [], ◌∷◌}
use matcha.Snippet.{text_len}
use matcha.Encoding.{utf16, bytes, units}
use matcha.Encoding.Walk.{joined, bytes-units}

-- `ab`, a char outside the first plane and `c`, in two chunks; the units of the first three chars, in
-- another cut.
bytes-units_example :
    bytes utf16
      ((97 ∷ 98 ∷ []) ∷ (128512 ∷ 99 ∷ []) ∷ [])
      (units utf16 ((97 ∷ []) ∷ (98 ∷ 128512 ∷ []) ∷ []))
    ≡ text_len (joined ((97 ∷ []) ∷ (98 ∷ 128512 ∷ []) ∷ []))
unfolding joined
bytes-units_example =
    bytes-units utf16 ((97 ∷ 98 ∷ []) ∷ (128512 ∷ 99 ∷ []) ∷ [])
      ((97 ∷ []) ∷ (98 ∷ 128512 ∷ []) ∷ []) (99 ∷ []) refl
