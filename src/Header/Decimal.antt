-- ===== src/Header/Decimal.antt =====
-- The header line of a length is read back as that length.
use mathlib.Core.List.{reverse-cons, reverse-reverse}
use matcha.Common.{
  ℕ, zero, suc, ◌+◌, ◌-◌, ◌*◌, ◌/◌, ◌%◌, ◌^◌, ◌≤◌, ◌<◌, ◌≡◌, refl, sym, ap, ◌∙◌, true, false, ◌&&◌,
  some, List, [], ◌∷◌, ◌++◌, reverse, length, ltb, ◌==◌, Bool-cases, arith, inl, inr, subst,
}
use matcha.Header.{
  is_digit, parse_digits, parse_u64, decimal_from, decimal, trim, trim_by, white_width,
  white_width_back, one_wide, two_wide, three_wide, classify, classify_at, classify_value,
  content_length, length_line, position, trim_ascii, trim_ascii_start, is_ascii_whitespace,
  eq_ignore_ascii_case, to_lower,
}

abbrev pub AllDigits : List ℕ → Type 0
AllDigits [] = Unit
AllDigits (c ∷ cs) = (is_digit c ≡ true) × AllDigits cs

AllDigits-decimal_from :
    (rounds n : ℕ) (ds : List ℕ) → AllDigits ds → AllDigits (decimal_from rounds n ds)
unfolding decimal_from is_digit
AllDigits-decimal_from zero n ds a = a
AllDigits-decimal_from (suc rounds) n ds a = elim (Bool-cases (ltb n 10)) [
  | inl e ↦ rw (e, decimal_from) (ground arith, a)
  | inr e ↦
      rw (e, decimal_from)
        (AllDigits-decimal_from rounds (n / 10) ((48 + n % 10) ∷ ds) (ground arith, a))
]

parse_digits-cons :
    (acc d : ℕ) (ds : List ℕ)
    → d < 10
    → acc * 10 + d < 2 ^ 64
    → parse_digits acc ((48 + d) ∷ ds) ≡ parse_digits (acc * 10 + d) ds
unfolding parse_digits is_digit
parse_digits-cons acc d ds h k =
    let value : acc * 10 + (48 + d - 48) ≡ acc * 10 + d = omega arith in
    let good : (is_digit (48 + d) && ltb (acc * 10 + (48 + d - 48)) (2 ^ 64)) ≡ true =
      ground arith in
    rw (good, parse_digits) (ap (λ n. parse_digits n ds) value)

parse_digits-decimal_from :
    (rounds n : ℕ) (ds : List ℕ)
    → n < 10 ^ rounds
    → n < 2 ^ 64
    → parse_digits 0 (decimal_from rounds n ds) ≡ parse_digits n ds
unfolding decimal_from
parse_digits-decimal_from zero n ds h k =
    let nothing : 0 ≡ n = omega arith in ap (λ m. parse_digits m ds) nothing
parse_digits-decimal_from (suc rounds) n ds h k = elim (Bool-cases (ltb n 10)) [
  | inl e ↦
      let value : 0 * 10 + n ≡ n = omega arith in
      rw (e, decimal_from)
        (parse_digits-cons 0 n ds (ground arith) (omega arith) ∙ ap (λ m. parse_digits m ds) value)
  | inr e ↦
      let value : n / 10 * 10 + n % 10 ≡ n = omega arith in
      rw (e, decimal_from)
        (parse_digits-decimal_from rounds (n / 10) ((48 + n % 10) ∷ ds) (omega arith) (omega arith)
          ∙ parse_digits-cons (n / 10) (n % 10) ds (omega arith) (omega arith)
          ∙ ap (λ m. parse_digits m ds) value)
]

-- Digits are not white space.
white_width_digit : (c : ℕ) (cs : List ℕ) → is_digit c ≡ true → white_width (c ∷ cs) ≡ 0
unfolding white_width is_digit one_wide two_wide three_wide
white_width_digit c [] h = ground arith
white_width_digit c (d ∷ []) h = ground arith
white_width_digit c (d ∷ e ∷ cs) h = ground arith

white_width_back_digit : (c : ℕ) (cs : List ℕ) → is_digit c ≡ true → white_width_back (c ∷ cs) ≡ 0
unfolding white_width_back is_digit one_wide two_wide three_wide
white_width_back_digit c [] h = ground arith
white_width_back_digit c (d ∷ []) h = ground arith
white_width_back_digit c (d ∷ e ∷ cs) h = ground arith

white_width_back_digits : (cs : List ℕ) → AllDigits cs → white_width_back cs ≡ 0
unfolding white_width_back
white_width_back_digits [] a = refl
white_width_back_digits (c ∷ cs) a = white_width_back_digit c cs a.0

white_width_digits : (cs : List ℕ) → AllDigits cs → white_width cs ≡ 0
unfolding white_width
white_width_digits [] a = refl
white_width_digits (c ∷ cs) a = white_width_digit c cs a.0

white_width_space : (cs : List ℕ) → white_width (32 ∷ cs) ≡ 1
unfolding white_width one_wide
white_width_space [] = refl
white_width_space (d ∷ []) = refl
white_width_space (d ∷ e ∷ cs) = refl

trim_by_stop :
    (width : List ℕ → ℕ) (rounds : ℕ) (cs : List ℕ) → width cs ≡ 0 → trim_by width rounds cs ≡ cs
unfolding trim_by
trim_by_stop width zero cs h = refl
trim_by_stop width (suc rounds) cs h = rw (h, trim_by) refl

AllDigits-append : (xs ys : List ℕ) → AllDigits xs → AllDigits ys → AllDigits (xs ++ ys)
AllDigits-append [] ys a b = b
AllDigits-append (x ∷ xs) ys a b = (a.0, AllDigits-append xs ys a.1 b)

AllDigits-reverse : (cs : List ℕ) → AllDigits cs → AllDigits (reverse cs)
AllDigits-reverse [] a = tt
AllDigits-reverse (c ∷ cs) a =
    subst AllDigits (sym (reverse-cons c cs))
      (AllDigits-append (reverse cs) (c ∷ []) (AllDigits-reverse cs a.1) (a.0, tt))

trim_front :
    (rounds : ℕ) (cs : List ℕ) → AllDigits cs → trim_by white_width (suc rounds) (32 ∷ cs) ≡ cs
unfolding trim_by
trim_front rounds cs a =
    rw (white_width_space cs, trim_by)
      (trim_by_stop white_width rounds cs (white_width_digits cs a))

-- A space before digits is trimmed, and nothing else.
trim-digits : (cs : List ℕ) → AllDigits cs → trim (32 ∷ cs) ≡ cs
unfolding trim
trim-digits cs a =
    ap (λ front. reverse (trim_by white_width_back (length front) (reverse front)))
      (trim_front (length cs) cs a)
    ∙ ap reverse (
        trim_by_stop white_width_back (length cs) (reverse cs)
          (white_width_back_digits (reverse cs) (AllDigits-reverse cs a)))
    ∙ reverse-reverse cs

parse_u64-digits : (cs : List ℕ) → AllDigits cs → 0 < length cs → parse_u64 cs ≡ parse_digits 0 cs
unfolding parse_u64 is_digit
parse_u64-digits [] a h = absurd (omega arith)
parse_u64-digits (c ∷ []) a h = refl
parse_u64-digits (c ∷ d ∷ cs) a h =
    let no_plus : (c == 43) ≡ false = ground (arith, a.0) in rw (no_plus, parse_u64) refl

length-decimal_from_le :
    (rounds n : ℕ) (ds : List ℕ)
    → (length ds ≤ length (decimal_from rounds n ds))
      × (length (decimal_from rounds n ds) ≤ length ds + rounds)
unfolding decimal_from
length-decimal_from_le zero n ds = (omega arith, omega arith)
length-decimal_from_le (suc rounds) n ds =
    let ih = length-decimal_from_le rounds (n / 10) ((48 + n % 10) ∷ ds) in
    elim (Bool-cases (ltb n 10)) [
      | inl e ↦ rw (e, decimal_from) (omega arith, omega arith)
      | inr e ↦ rw (e, decimal_from) (omega (arith, ih.0), omega (arith, ih.1))
    ]

pub length-decimal : (n : ℕ) → (0 < length (decimal n)) × (length (decimal n) ≤ 20)
unfolding decimal decimal_from
length-decimal n =
    let ih = length-decimal_from_le 19 (n / 10) ((48 + n % 10) ∷ []) in
    elim (Bool-cases (ltb n 10)) [
      | inl e ↦ rw (e, decimal_from) (omega arith, omega arith)
      | inr e ↦ rw (e, decimal_from) (omega (arith, ih.0), omega (arith, ih.1))
    ]

pub AllDigits-decimal : (n : ℕ) → AllDigits (decimal n)
unfolding decimal
AllDigits-decimal n = AllDigits-decimal_from 20 n [] tt

classify_value-decimal : (n : ℕ) → n < 2 ^ 64 → classify_value (32 ∷ decimal n) ≡ content_length n
unfolding classify_value decimal parse_digits
classify_value-decimal n h =
    let read : parse_u64 (trim (32 ∷ decimal n)) ≡ some n =
      ap parse_u64 (trim-digits (decimal n) (AllDigits-decimal n))
      ∙ parse_u64-digits (decimal n) (AllDigits-decimal n) (length-decimal n).0
      ∙ parse_digits-decimal_from 20 n [] (omega arith) h in
    rw (read, classify_value) refl

-- The header line that a frame begins with is classified as the length that it was made for.
pub classify-length_line : (n : ℕ) → n < 2 ^ 64 → classify (length_line n) ≡ content_length n
unfolding classify length_line position classify_at trim_ascii trim_ascii_start is_ascii_whitespace
    eq_ignore_ascii_case to_lower
classify-length_line n h = classify_value-decimal n h
