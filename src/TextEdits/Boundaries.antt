-- ===== src/TextEdits/Boundaries.antt =====
-- What an edit is narrowed by are whole chars.
use matcha.Common.{
  ℕ, zero, suc, ◌-◌, ◌≡◌, inl, inr, refl, ap, ◌∙◌, Bool, true, false, ◌&&◌, List, length,
  Bool-cases, arith,
}
use matcha.Coords.{is_char_boundary}
use matcha.Coords.Snap.{is_char_boundary-zero, is_char_boundary-length}
use matcha.TextEdits.{trim_front, trim_back}

Both_true : (a b : Bool) → (a && b) ≡ true → (a ≡ true) × (b ≡ true)
Both_true true true h = (refl, refl)
Both_true true false h = cc
Both_true false b h = cc

boundary_end : (text : List ℕ) → is_char_boundary text (length text - 0) ≡ true
boundary_end text =
    ap (is_char_boundary text) (let e : length text - 0 ≡ length text = omega arith in e)
    ∙ is_char_boundary-length text

pub trim_front-boundary :
    (old new : List ℕ) (n : ℕ)
    → let k = trim_front old new n in
      (is_char_boundary old k ≡ true) × (is_char_boundary new k ≡ true)
unfolding trim_front
trim_front-boundary old new zero = (is_char_boundary-zero old, is_char_boundary-zero new)
trim_front-boundary old new (suc n) =
    let ih = trim_front-boundary old new n in
    elim (Bool-cases (is_char_boundary old (suc n) && is_char_boundary new (suc n))) [
      | inl e ↦ rw (e, trim_front) (Both_true _ _ e)
      | inr e ↦ rw (e, trim_front) ih
    ]

pub trim_back-boundary :
    (old new : List ℕ) (n : ℕ)
    → let k = trim_back old new n in
      (is_char_boundary old (length old - k) ≡ true)
      × (is_char_boundary new (length new - k) ≡ true)
unfolding trim_back
trim_back-boundary old new zero = (boundary_end old, boundary_end new)
trim_back-boundary old new (suc n) =
    let ih = trim_back-boundary old new n in
    elim (Bool-cases
      (is_char_boundary old (length old - suc n) && is_char_boundary new (length new - suc n))) [
        | inl e ↦ rw (e, trim_back) (Both_true _ _ e)
        | inr e ↦ rw (e, trim_back) ih
      ]
