-- ===== src/Frame/Bytes.antt =====
-- Bytes without a line end, lists cut at two places, and the stream of the frames of bodies.
use mathlib.Core.List.{tail-eq_of_cons-eq, head-eq_of_cons-eq}
use matcha.Common.{
  ℕ, ◌≤◌, ◌<◌, ◌≡◌, ◌⊎◌, inl, inr, refl, sym, ap, ap₂, ◌∙◌, false, none, some, List, [], ◌∷◌, ◌++◌,
  length, ◌==◌, arith, append_assoc, ◌^◌, length-append, subst,
}
use matcha.Header.{
  position, strip, classify, content_length, encode, length_line, decimal, name_bytes, is_digit,
}
use matcha.Header.Decimal.{AllDigits, AllDigits-decimal, length-decimal, classify-length_line}

abbrev pub NoLf : List ℕ → Type 0
NoLf [] = Unit
NoLf (c ∷ cs) = ((c == 10) ≡ false) × NoLf cs

pub NoLf-append : (xs ys : List ℕ) → NoLf xs → NoLf ys → NoLf (xs ++ ys)
NoLf-append [] ys a b = b
NoLf-append (x ∷ xs) ys a b = (a.0, NoLf-append xs ys a.1 b)

pub NoLf-front : (xs ys : List ℕ) → NoLf (xs ++ ys) → NoLf xs
NoLf-front [] ys a = tt
NoLf-front (x ∷ xs) ys a = (a.0, NoLf-front xs ys a.1)

pub NoLf-back : (xs ys : List ℕ) → NoLf (xs ++ ys) → NoLf ys
NoLf-back [] ys a = a
NoLf-back (x ∷ xs) ys a = NoLf-back xs ys a.1

pub position-none : (xs : List ℕ) → NoLf xs → position 10 xs ≡ none
unfolding position
position-none [] a = refl
position-none (x ∷ xs) a = rw (a.0, position-none xs a.1, position) refl

pub position-here : (xs ys : List ℕ) → NoLf xs → position 10 (xs ++ 10 ∷ ys) ≡ some (length xs)
unfolding position
position-here [] ys a = refl
position-here (x ∷ xs) ys a = rw (a.0, position-here xs ys a.1, position) refl

-- Of two cuts of one list, one comes first, or both are the same.
pub cuts :
    (xs ys us vs : List ℕ)
    → xs ++ ys ≡ us ++ vs
    → ((zs : List ℕ) × (us ≡ xs ++ zs) × (ys ≡ zs ++ vs))
      ⊎ ((z : ℕ) × (zs : List ℕ) × (xs ≡ us ++ z ∷ zs) × (vs ≡ z ∷ zs ++ ys))
cuts [] ys us vs h = inl (us, refl, h)
cuts (x ∷ xs) ys [] vs h = inr (x, xs, refl, sym h)
cuts (x ∷ xs) ys (u ∷ us) vs h = elim (cuts xs ys us vs (tail-eq_of_cons-eq h)) [
  | inl (zs, a, b) ↦ inl (zs, ap₂ ◌∷◌ (sym (head-eq_of_cons-eq h)) a, b)
  | inr (z, zs, a, b) ↦ inr (z, zs, ap₂ ◌∷◌ (head-eq_of_cons-eq h) a, b)
]

pub cut_of_le :
    (xs ys us vs : List ℕ)
    → xs ++ ys ≡ us ++ vs
    → length us ≤ length xs
    → (zs : List ℕ) × (xs ≡ us ++ zs) × (zs ++ ys ≡ vs)
cut_of_le xs ys [] vs h k = (xs, refl, h)
cut_of_le [] ys (u ∷ us) vs h k = absurd (omega arith)
cut_of_le (x ∷ xs) ys (u ∷ us) vs h k =
    let (zs, p, q) = cut_of_le xs ys us vs (tail-eq_of_cons-eq h) (omega arith) in
    (zs, ap₂ ◌∷◌ (head-eq_of_cons-eq h) p, q)

-- Where a line ends that begins with `seen`: behind what is there, or in `fresh`.
pub line_end :
    (seen fresh rest line tail : List ℕ)
    → NoLf seen
    → (seen ++ fresh) ++ rest ≡ line ++ 10 ∷ tail
    → ((vs : List ℕ) × (line ≡ (seen ++ fresh) ++ vs))
      ⊎ ((ws : List ℕ) × (zs : List ℕ) × (line ≡ seen ++ ws)
          × (fresh ≡ ws ++ 10 ∷ zs)
          × (zs ++ rest ≡ tail))
line_end seen fresh rest line tail n h =
    elim (cuts seen (fresh ++ rest) line (10 ∷ tail) (sym (append_assoc seen fresh rest) ∙ h)) [
      | inl (ws, p, q) ↦ elim (cuts fresh rest ws (10 ∷ tail) q) [
        | inl (vs, p2, q2) ↦ inl (vs, p ∙ ap (seen ++◌) p2 ∙ sym (append_assoc seen fresh vs))
        | inr (z, zs, p2, q2) ↦ inr (
          ws,
          zs,
          p,
          p2 ∙ ap (λ c. ws ++ c ∷ zs) (sym (head-eq_of_cons-eq q2)),
          sym (tail-eq_of_cons-eq q2),
        )
      ]
      | inr (z, zs, p, q) ↦
          let other = (NoLf-back line (z ∷ zs) (subst NoLf p n)).0 in
          let same : 10 ≡ z = head-eq_of_cons-eq q in absurd (ground (arith, other, same))
    ]

-- The header line of a body, up to its line end.
unfoldable pub header_line : List ℕ → List ℕ
unfolding length_line
header_line b = length_line (length b) ++ b'\r' ∷ []

unfoldable pub encode_all : List (List ℕ) → List ℕ
encode_all [] = []
encode_all (b ∷ bs) = encode b ++ encode_all bs

-- What follows the header line.
abbrev pub after_line : List ℕ → List (List ℕ) → List ℕ
after_line b bs = b'\r' ∷ b'\n' ∷ (b ++ encode_all bs)

pub encode_all-cons :
    (b : List ℕ) (bs : List (List ℕ)) → encode_all (b ∷ bs) ≡ header_line b ++ 10 ∷ after_line b bs
unfolding encode_all encode header_line
encode_all-cons b bs =
    append_assoc (length_line (length b)) (b'\r' ∷ b'\n' ∷ b'\r' ∷ b'\n' ∷ b) (encode_all bs)
    ∙ sym (append_assoc (length_line (length b)) (b'\r' ∷ []) (10 ∷ after_line b bs))

NoLf-AllDigits : (cs : List ℕ) → AllDigits cs → NoLf cs
unfolding is_digit
NoLf-AllDigits [] a = tt
NoLf-AllDigits (c ∷ cs) a = (ground (arith, a.0), NoLf-AllDigits cs a.1)

NoLf-name_bytes : NoLf name_bytes
NoLf-name_bytes = (
  refl,
  (
    refl,
    (
      refl,
      (refl, (refl, (refl, (refl, (refl, (refl, (refl, (refl, (refl, (refl, (refl, tt))))))))))),
    ),
  ),
)

pub NoLf-header_line : (b : List ℕ) → NoLf (header_line b)
unfolding header_line length_line
NoLf-header_line b =
    NoLf-append (length_line (length b)) (b'\r' ∷ [])
      (NoLf-append name_bytes (b':' ∷ b' ' ∷ decimal (length b)) NoLf-name_bytes
        (refl, (refl, NoLf-AllDigits (decimal (length b)) (AllDigits-decimal (length b)))))
      (refl, tt)

line_size :
    (name digits : List ℕ)
    → length name ≡ 14
    → length digits ≤ 20
    → length ((name ++ b':' ∷ b' ' ∷ digits) ++ b'\r' ∷ []) ≤ 40
line_size name digits h k = omega (
  arith,
  length-append name (b':' ∷ b' ' ∷ digits),
  length-append (name ++ b':' ∷ b' ' ∷ digits) (b'\r' ∷ []),
)

pub length-header_line : (b : List ℕ) → length (header_line b) ≤ 40
unfolding header_line length_line
length-header_line b = line_size name_bytes (decimal (length b)) refl (length-decimal (length b)).1

strip_cr : (cs : List ℕ) → strip (cs ++ 13 ∷ []) ≡ cs
unfolding strip
strip_cr [] = refl
strip_cr (c ∷ []) = refl
strip_cr (c ∷ d ∷ cs) = ap (c ∷◌) (strip_cr (d ∷ cs))

-- The header line is read as the length of its body.
pub classify-header_line :
    (b : List ℕ) → length b < 2 ^ 64 → classify (strip (header_line b)) ≡ content_length (length b)
unfolding header_line
classify-header_line b h =
    ap classify (strip_cr (length_line (length b))) ∙ classify-length_line (length b) h
