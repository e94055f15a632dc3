-- ===== src/Snippet/Defaults.antt =====
-- A placeholder with a default, after any text: read when it is closed, refused when it is not or when
-- another placeholder begins in it.
use matcha.Common.{
  ℕ, suc, ◌-◌, ◌≡◌, refl, ap, ◌∙◌, false, List, [], ◌∷◌, ◌++◌, length, arith, some, Option,
  length-append,
}
use matcha.Snippet.{
  Parsed, Result, ok, err, malformed, unterminated_default, nesting, after, round, parse_from,
  parse, finish, text_len, final_index, nothing_parsed, stop_from, read_default, read_index, dollar,
  braced, pushed, push_stop, contains, sort_stops, insert_stop, is_escape, is_special, digits,
  after_digits, number, to_index, is_digit,
}
use matcha.Snippet.Literal.{escape, parse_from-escape, read_default-escape, length-escape_le}

-- `${1:`
abbrev pub opening : List ℕ → List ℕ
opening cs = 36 ∷ 123 ∷ 49 ∷ 58 ∷ cs

-- The parser after the default is read, with the text before it.
unfoldable placed : List ℕ → List ℕ × List ℕ → Result (Parsed × List ℕ)
unfolding pushed stop_from text_len
placed t (text, rest) =
    let grown : Parsed = record { text = text; stops = []; seen = [] } in
    pushed grown (stop_from 1 (text_len t) grown []) rest

round-opening :
    (t cs : List ℕ)
    → round (record { text = t; stops = []; seen = [] }) 36 (123 ∷ 49 ∷ 58 ∷ cs)
      ≡ after (read_default false cs t) (placed t)
unfolding round dollar braced read_index digits after_digits number to_index is_digit is_escape
    is_special after placed pushed stop_from
round-opening t cs = refl

-- All rounds of a body that begins so.
parse-opening :
    (t cs : List ℕ)
    → (n : ℕ) × (parse_from
          (length (escape t ++ opening cs))
          nothing_parsed
          (escape t ++ opening cs)
        ≡ parse_from (suc n) (record { text = t; stops = []; seen = [] }) (opening cs))
parse-opening t cs =
    let len = length-append (escape t) (opening cs) in
    let shorter = length-escape_le t in
    let rounds = length (escape t ++ opening cs) in
    let left : rounds - length t ≡ suc (rounds - length t - 1) = omega (arith, len, shorter) in
    (
      rounds - length t - 1,
      parse_from-escape rounds nothing_parsed t (opening cs) (omega (arith, len, shorter))
          ∙ ap (λ n. parse_from n (record { text = t; stops = []; seen = [] }) (opening cs)) left,
    )

unfoldable goes_on : ℕ → Result (Parsed × List ℕ) → Option (Result Parsed)
unfolding parse_from
goes_on n (err e) = some (err e)
goes_on n (ok (p, rest)) = parse_from n p rest

parse_from-opening :
    (n : ℕ) (t cs : List ℕ) (r : Result (List ℕ × List ℕ))
    → read_default false cs t ≡ r
    → parse_from (suc n) (record { text = t; stops = []; seen = [] }) (opening cs)
      ≡ goes_on n (after r (placed t))
unfolding parse_from goes_on
parse_from-opening n t cs r e =
    ap
      (λ (x : Result (Parsed × List ℕ)). elim x [
        | err e ↦ some (err e)
        | ok (p, rest) ↦ parse_from n p rest
      ])
      (round-opening t cs ∙ ap (λ x. after x (placed t)) e)

dollar-nesting : (rest text : List ℕ) → read_default false (36 ∷ rest) text ≡ err nesting
unfolding read_default is_escape
dollar-nesting [] text = refl
dollar-nesting (c ∷ cs) text = refl

-- What parsing gives, from what reading the default gives.
parse-default_read :
    (t cs : List ℕ) (r : Result (List ℕ × List ℕ)) (q : Result Parsed)
    → read_default false cs t ≡ r
    → ((n : ℕ) → goes_on n (after r (placed t)) ≡ some q)
    → parse (escape t ++ opening cs) ≡ some (after q (λ p. ok (finish p)))
unfolding parse
parse-default_read t cs r q e k =
    let (n, start) = parse-opening t cs in
    let whole = start ∙ parse_from-opening n t cs r e ∙ k n in rw (whole, parse) refl

-- After a text and with a default whose special characters are escaped, the placeholder `${1:` is read
-- when a brace closes it: the text is both, the stop of index 1 covers the default, and the final stop is
-- at the end. Where the body ends before the brace, the error is the unterminated default, and where a
-- dollar sign comes before it, nesting, whatever follows.
pub parse-default :
    (t d rest : List ℕ)
    → (parse (escape t ++ opening (escape d ++ 125 ∷ []))
        ≡ some (
            ok (record {
              text = t ++ d;
              stops =
                  record { index = 1; start = text_len t; end = text_len (t ++ d); choices = [] }
                  ∷ record {
                    index = final_index;
                    start = text_len (t ++ d);
                    end = text_len (t ++ d);
                    choices = [];
                  }
                  ∷ [];
            })))
      × (parse (escape t ++ opening (escape d ++ [])) ≡ some (err (malformed unterminated_default)))
      × (parse (escape t ++ opening (escape d ++ 36 ∷ rest)) ≡ some (err nesting))
unfolding read_default goes_on placed pushed push_stop after contains finish sort_stops insert_stop
    stop_from parse_from is_escape
parse-default t d rest = (
  parse-default_read t (escape d ++ 125 ∷ []) (ok (t ++ d, [])) _
      (read_default-escape d (125 ∷ []) t) (λ n. refl),
  parse-default_read t (escape d ++ []) (err (malformed unterminated_default))
      (err (malformed unterminated_default)) (read_default-escape d [] t) (λ n. refl),
  parse-default_read t (escape d ++ 36 ∷ rest) (err nesting) (err nesting)
      (read_default-escape d (36 ∷ rest) t ∙ dollar-nesting rest (t ++ d)) (λ n. refl),
)
