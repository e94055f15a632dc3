-- ===== src/Snippet/Literal.antt =====
-- A text whose special characters are escaped is read back as it is.
use matcha.Common.{
  ℕ, zero, suc, ◌≤◌, ◌<◌, ◌≡◌, refl, sym, ap, ◌∙◌, true, false, List, [], ◌∷◌, ◌++◌, length, ◌==◌,
  Bool-cases, arith, inl, inr, if◌then◌else◌, some, append_assoc, append-nil, ◌-◌, ap₂,
}
use matcha.Snippet.{
  Parsed, Result, ok, after, is_special, is_escape, round, parse_from, parse, finish, text_len,
  final_index, nothing_parsed, stop_from, contains, sort_stops, insert_stop, err, read_default,
}

-- A `\` before each `$`, `}` and `\`.
unfoldable pub escape : List ℕ → List ℕ
escape [] = []
escape (c ∷ cs) = let rest = escape cs in if is_special c then 92 ∷ c ∷ rest else c ∷ rest

round-escaped :
    (p : Parsed) (c : ℕ) (cs : List ℕ)
    → is_special c ≡ true
    → round p 92 (c ∷ cs) ≡ ok (record p { text = p.text ++ c ∷ [] }, cs)
unfolding round is_escape
round-escaped p c cs h = rw (h, round, is_escape) refl

round-plain :
    (p : Parsed) (c : ℕ) (cs : List ℕ)
    → is_special c ≡ false
    → round p c cs ≡ ok (record p { text = p.text ++ c ∷ [] }, cs)
unfolding round is_escape is_special
round-plain p c [] h = let no : (c == 36) ≡ false = ground arith in rw (no, round) refl
round-plain p c (d ∷ ds) h =
    let no : (c == 36) ≡ false = ground arith in
    let bare : (c == 92) ≡ false = ground arith in rw (no, bare, round, is_escape) refl

parse_from-taken :
    (n : ℕ) (p p' : Parsed) (c : ℕ) (cs rest : List ℕ)
    → round p c cs ≡ ok (p', rest)
    → parse_from (suc n) p (c ∷ cs) ≡ parse_from n p' rest
unfolding parse_from
parse_from-taken n p p' c cs rest e =
    ap
      (λ (r : Result (Parsed × List ℕ)). elim r [
        | err e ↦ some (err e)
        | ok (p'', rest') ↦ parse_from n p'' rest'
      ])
      e

parse_from-step :
    (rounds : ℕ) (p p' : Parsed) (c : ℕ) (cs rest : List ℕ)
    → 0 < rounds
    → round p c cs ≡ ok (p', rest)
    → parse_from rounds p (c ∷ cs) ≡ parse_from (rounds - 1) p' rest
unfolding parse_from
parse_from-step zero p p' c cs rest h e = absurd (omega arith)
parse_from-step (suc n) p p' c cs rest h e =
    let less : suc n - 1 ≡ n = omega arith in
    parse_from-taken n p p' c cs rest e ∙ ap (λ m. parse_from m p' rest) (sym less)

escape-special : (c : ℕ) (t : List ℕ) → is_special c ≡ true → escape (c ∷ t) ≡ 92 ∷ c ∷ escape t
unfolding escape
escape-special c t h = rw (h, escape) refl

escape-plain : (c : ℕ) (t : List ℕ) → is_special c ≡ false → escape (c ∷ t) ≡ c ∷ escape t
unfolding escape
escape-plain c t h = rw (h, escape) refl

read_default-escaped :
    (c : ℕ) (cs text : List ℕ)
    → is_special c ≡ true
    → read_default false (92 ∷ c ∷ cs) text ≡ read_default false cs (text ++ c ∷ [])
unfolding read_default is_escape
read_default-escaped c cs text h = rw (h, read_default, is_escape) refl

read_default-plain :
    (c : ℕ) (cs text : List ℕ)
    → is_special c ≡ false
    → read_default false (c ∷ cs) text ≡ read_default false cs (text ++ c ∷ [])
unfolding read_default is_escape is_special
read_default-plain c [] text h =
    let brace : (c == 125) ≡ false = ground arith in
    let dollar_sign : (c == 36) ≡ false = ground arith in rw (brace, dollar_sign, read_default) refl
read_default-plain c (d ∷ ds) text h =
    let brace : (c == 125) ≡ false = ground arith in
    let dollar_sign : (c == 36) ≡ false = ground arith in
    let backslash : (c == 92) ≡ false = ground arith in
    rw (backslash, brace, dollar_sign, read_default, is_escape) refl

-- One round for each char of an escaped text takes it into the text and leaves what follows it.
pub parse_from-escape :
    (rounds : ℕ) (p : Parsed) (t rest : List ℕ)
    → length t ≤ rounds
    → parse_from rounds p (escape t ++ rest)
      ≡ parse_from (rounds - length t) (record p { text = p.text ++ t }) rest
unfolding escape
parse_from-escape rounds p [] rest h =
    let none_taken : rounds - 0 ≡ rounds = omega arith in
    ap (λ t. parse_from rounds (record p { text = t }) rest) (sym (append-nil p.text))
    ∙ ap (λ n. parse_from n (record p { text = p.text ++ [] }) rest) (sym none_taken)
parse_from-escape rounds p (c ∷ t) rest h =
    let taken : Parsed = record p { text = p.text ++ c ∷ [] } in
    let left : rounds - 1 - length t ≡ rounds - suc (length t) = omega arith in
    let others =
      parse_from-escape (rounds - 1) taken t rest (omega arith)
      ∙ ap₂ (λ n u. parse_from n (record p { text = u }) rest) left
          (append_assoc p.text (c ∷ []) t) in
    elim (Bool-cases (is_special c)) [
      | inl e ↦
          ap (λ u. parse_from rounds p (u ++ rest)) (escape-special c t e)
          ∙ parse_from-step rounds p taken 92 (c ∷ (escape t ++ rest)) (escape t ++ rest)
              (omega arith) (round-escaped p c (escape t ++ rest) e)
          ∙ others
      | inr e ↦
          ap (λ u. parse_from rounds p (u ++ rest)) (escape-plain c t e)
          ∙ parse_from-step rounds p taken c (escape t ++ rest) (escape t ++ rest) (omega arith)
              (round-plain p c (escape t ++ rest) e)
          ∙ others
    ]

pub length-escape_le : (t : List ℕ) → length t ≤ length (escape t)
length-escape_le [] = omega arith
length-escape_le (c ∷ t) = elim (Bool-cases (is_special c)) [
  | inl e ↦ let len = ap length (escape-special c t e) in omega (arith, len, length-escape_le t)
  | inr e ↦ let len = ap length (escape-plain c t e) in omega (arith, len, length-escape_le t)
]

-- A default whose special characters are escaped is read up to what follows it.
pub read_default-escape :
    (d rest text : List ℕ)
    → read_default false (escape d ++ rest) text ≡ read_default false rest (text ++ d)
unfolding escape
read_default-escape [] rest text = ap (read_default false rest) (sym (append-nil text))
read_default-escape (c ∷ d) rest text =
    let others =
      read_default-escape d rest (text ++ c ∷ [])
      ∙ ap (read_default false rest) (append_assoc text (c ∷ []) d) in
    elim (Bool-cases (is_special c)) [
      | inl e ↦
          ap (λ u. read_default false (u ++ rest) text) (escape-special c d e)
          ∙ read_default-escaped c (escape d ++ rest) text e
          ∙ others
      | inr e ↦
          ap (λ u. read_default false (u ++ rest) text) (escape-plain c d e)
          ∙ read_default-plain c (escape d ++ rest) text e
          ∙ others
    ]

-- Parsing a text with its special characters escaped gives the text and the final stop at its end.
pub parse-escape :
    (t : List ℕ)
    → parse (escape t)
      ≡ some (
          ok (record {
            text = t;
            stops =
                record { index = final_index; start = text_len t; end = text_len t; choices = [] }
                ∷ [];
          }))
unfolding parse finish contains sort_stops insert_stop stop_from after parse_from
parse-escape t =
    let e =
      ap (parse_from (length (escape t)) nothing_parsed) (sym (append-nil (escape t)))
      ∙ parse_from-escape (length (escape t)) nothing_parsed t [] (length-escape_le t) in
    rw (e, parse) refl
