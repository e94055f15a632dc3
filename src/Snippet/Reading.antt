-- ===== src/Snippet/Reading.antt =====
-- What each reader of the snippet parser gives when it does not fail: it goes forward, and its numbers
-- are in range.
use matcha.Common.{
  ℕ, ◌+◌, ◌≤◌, ◌<◌, ◌≡◌, Bool, true, false, List, [], ◌∷◌, ◌++◌, length, ltb, ◌==◌, Bool-cases,
  arith, inl, inr, u32_max,
}
use matcha.Snippet.{
  Result, ok, err, malformed, is_digit, digits, after_digits, number, to_index, read_index,
  read_default, read_choices, close_choices, after, is_escape, text_len, final_index,
  without_an_index,
}

-- The result is an error, or its value satisfies the predicate.
abbrev pub Holds : {A : Type 0} → (A → Type 0) → Result A → Type 0
Holds P (ok a) = P a
Holds P (err e) = Unit

pub Holds-weaken :
    {A : Type 0} (P Q : A → Type 0) (r : Result A) → ((a : A) → P a → Q a) → Holds P r → Holds Q r
Holds-weaken P Q (ok a) k h = k a h
Holds-weaken P Q (err e) k h = tt

pub Holds-after :
    {A B : Type 0} (P : A → Type 0) (Q : B → Type 0) (r : Result A) (f : A → Result B)
    → Holds P r
    → ((a : A) → P a → Holds Q (f a))
    → Holds Q (after r f)
unfolding after
Holds-after P Q (ok a) f h k = k a h
Holds-after P Q (err e) f h k = tt

abbrev pub InRange : ℕ → Type 0
InRange n = (0 < n) × (n ≤ final_index)

length-after_digits : (cs : List ℕ) → length (after_digits cs) ≤ length cs
unfolding after_digits
length-after_digits [] = omega arith
length-after_digits (c ∷ cs) = elim (Bool-cases (is_digit c)) [
  | inl e ↦ rw (e, length) (omega (arith, length-after_digits cs))
  | inr e ↦ rw (e, length) (omega arith)
]

InRange-to_index : (n : ℕ) → Holds InRange (to_index n)
unfolding to_index
InRange-to_index n = elim (Bool-cases (ltb u32_max n)) [
  | inl a ↦ rw a tt
  | inr a ↦ elim (Bool-cases (n == 0)) [
    | inl b ↦ rw (a, b) (omega arith, omega arith)
    | inr b ↦ elim (Bool-cases (ltb 65535 n)) [
      | inl c ↦ rw (a, b, c) tt
      | inr c ↦ rw (a, b, c) (ground arith, ground arith)
    ]
  ]
]

pub read_index-InRange :
    (cs : List ℕ) → Holds (λ r. InRange r.0 × (length r.1 ≤ length cs)) (read_index cs)
unfolding read_index
read_index-InRange cs =
    elim (digits cs)
      as (λ ds.
        Holds (λ (r : ℕ × List ℕ). InRange r.0 × (length r.1 ≤ length cs))
          (elim ds [
            | [] ↦ err (malformed without_an_index)
            | d ∷ ds ↦ after (to_index (number 0 (d ∷ ds))) (λ n. ok (n, after_digits cs))
          ])) [
            | [] ↦ tt
            | d ∷ ds ↦
                Holds-after InRange (λ r. InRange r.0 × (length r.1 ≤ length cs))
                  (to_index (number 0 (d ∷ ds))) (λ n. ok (n, after_digits cs))
                  (InRange-to_index (number 0 (d ∷ ds))) (λ n h. (h, length-after_digits cs))
          ]

pub text_len-append : (s t : List ℕ) → text_len (s ++ t) ≡ text_len s + text_len t
unfolding text_len
text_len-append [] t = omega arith
text_len-append (c ∷ s) t = omega (arith, text_len-append s t)

-- The text is no shorter, and the chars left no more.
abbrev pub Grows : List ℕ → List ℕ → List ℕ × List ℕ → Type 0
Grows text cs r = (text_len text ≤ text_len r.0) × (length r.1 ≤ length cs)

Grows-taken :
    (text more cs : List ℕ) (c : ℕ) (r : Result (List ℕ × List ℕ))
    → Holds (Grows (text ++ more) cs) r
    → Holds (Grows text (c ∷ cs)) r
Grows-taken text more cs c r =
    Holds-weaken (Grows (text ++ more) cs) (Grows text (c ∷ cs)) r
      (λ a h. let len = text_len-append text more in (omega (arith, h.0), omega (arith, h.1)))

pub read_default-Grows :
    (bare : Bool) (cs text : List ℕ) → Holds (Grows text cs) (read_default bare cs text)
unfolding read_default
read_default-Grows bare [] text = tt
read_default-Grows true (c ∷ cs) text =
    Grows-taken text (c ∷ []) cs c (read_default false cs (text ++ c ∷ []))
      (read_default-Grows false cs (text ++ c ∷ []))
read_default-Grows false (c ∷ cs) text = elim (Bool-cases (is_escape c cs)) [
  | inl a ↦
      rw (a, read_default)
        (Holds-weaken (Grows text cs) (Grows text (c ∷ cs)) (read_default true cs text)
          (λ r h. (h.0, omega (arith, h.1))) (read_default-Grows true cs text))
  | inr a ↦ elim (Bool-cases (c == 125)) [
    | inl b ↦ rw (a, b, read_default) (omega arith, omega arith)
    | inr b ↦ elim (Bool-cases (c == 36)) [
      | inl d ↦ rw (a, b, d, read_default) tt
      | inr d ↦
          rw (a, b, d, read_default)
            (Grows-taken text (c ∷ []) cs c (read_default false cs (text ++ c ∷ []))
              (read_default-Grows false cs (text ++ c ∷ [])))
    ]
  ]
]

-- The chars left are no more.
abbrev pub Forward : List ℕ → List (List ℕ) × List ℕ → Type 0
Forward cs r = length r.1 ≤ length cs

Forward-taken :
    (cs : List ℕ) (c : ℕ) (r : Result (List (List ℕ) × List ℕ))
    → Holds (Forward cs) r
    → Holds (Forward (c ∷ cs)) r
Forward-taken cs c r = Holds-weaken (Forward cs) (Forward (c ∷ cs)) r (λ a h. omega (arith, h))

close_choices-Forward :
    (cs : List ℕ) (choices : List (List ℕ)) → Holds (Forward cs) (close_choices cs choices)
unfolding close_choices
close_choices-Forward [] choices = tt
close_choices-Forward (c ∷ cs) choices = elim (Bool-cases (c == 125)) [
  | inl e ↦ rw e (omega arith)
  | inr e ↦ rw e tt
]

pub read_choices-Forward :
    (bare : Bool) (cs : List ℕ) (choices : List (List ℕ)) (cur : List ℕ)
    → Holds (Forward cs) (read_choices bare cs choices cur)
unfolding read_choices
read_choices-Forward bare [] choices cur = tt
read_choices-Forward true (c ∷ cs) choices cur =
    Forward-taken cs c (read_choices false cs choices (cur ++ c ∷ []))
      (read_choices-Forward false cs choices (cur ++ c ∷ []))
read_choices-Forward false (c ∷ cs) choices cur = elim (Bool-cases (is_escape c cs)) [
  | inl a ↦
      rw (a, read_choices)
        (Forward-taken cs c (read_choices true cs choices cur)
          (read_choices-Forward true cs choices cur))
  | inr a ↦ elim (Bool-cases (c == 44)) [
    | inl b ↦
        rw (a, b, read_choices)
          (Forward-taken cs c (read_choices false cs (choices ++ cur ∷ []) [])
            (read_choices-Forward false cs (choices ++ cur ∷ []) []))
    | inr b ↦ elim (Bool-cases (c == 124)) [
      | inl d ↦
          rw (a, b, d, read_choices)
            (Forward-taken cs c (close_choices cs (choices ++ cur ∷ []))
              (close_choices-Forward cs (choices ++ cur ∷ [])))
      | inr d ↦
          rw (a, b, d, read_choices)
            (Forward-taken cs c (read_choices false cs choices (cur ++ c ∷ []))
              (read_choices-Forward false cs choices (cur ++ c ∷ [])))
    ]
  ]
]
