-- ===== src/Snippet/Rounds.antt =====
-- Every round of the snippet parser takes a char and keeps what it has parsed in order: the stops lie
-- in the text, their indices are those seen, and none is seen twice.
use matcha.Common.{
  ℕ, zero, suc, ◌≤◌, ◌≡◌, refl, sym, ap, ◌∙◌, false, List, [], ◌∷◌, ◌++◌, length, ◌==◌, ◌||◌,
  Bool-cases, arith, inl, inr, some,
}
use mathlib.Core.Bool.{or_assoc}
use matcha.Snippet.{
  TabStop, Parsed, Result, ok, err, contains, push_stop, stop_from, first_choice, pushed, braced,
  dollar, round, parse_from, read_index, read_default, read_choices, text_len, is_digit, is_escape,
  nothing_parsed,
}
use matcha.Snippet.Reading.{
  Holds, Holds-after, Holds-weaken, InRange, Grows, Forward, read_index-InRange, read_default-Grows,
  read_choices-Forward, text_len-append,
}

unfoldable pub indices : List TabStop → List ℕ
indices [] = []
indices (s ∷ ss) = s.index ∷ indices ss

abbrev pub Distinct : List ℕ → Type 0
Distinct [] = Unit
Distinct (n ∷ ns) = (contains ns n ≡ false) × Distinct ns

-- In a text of `n` bytes, with an index that a `u16` holds.
abbrev pub Placed : ℕ → TabStop → Type 0
Placed n s = (s.start ≤ s.end) × (s.end ≤ n) × InRange s.index

abbrev pub AllPlaced : ℕ → List TabStop → Type 0
AllPlaced n [] = Unit
AllPlaced n (s ∷ ss) = Placed n s × AllPlaced n ss

pub record IsParsed (p : Parsed) : Type 0 where
  pub seen : indices p.stops ≡ p.seen
  pub distinct : Distinct p.seen
  pub placed : AllPlaced (text_len p.text) p.stops

AllPlaced-le : (m n : ℕ) (ss : List TabStop) → m ≤ n → AllPlaced m ss → AllPlaced n ss
AllPlaced-le m n [] h a = tt
AllPlaced-le m n (s ∷ ss) h ((b, c, d), a) = ((b, omega arith, d), AllPlaced-le m n ss h a)

pub AllPlaced-append :
    (n : ℕ) (ss ts : List TabStop) → AllPlaced n ss → AllPlaced n ts → AllPlaced n (ss ++ ts)
AllPlaced-append n [] ts a b = b
AllPlaced-append n (s ∷ ss) ts a b = (a.0, AllPlaced-append n ss ts a.1 b)

pub indices-append : (ss ts : List TabStop) → indices (ss ++ ts) ≡ indices ss ++ indices ts
unfolding indices
indices-append [] ts = refl
indices-append (s ∷ ss) ts = ap (s.index ∷◌) (indices-append ss ts)

pub contains-snoc :
    (ns : List ℕ) (k m : ℕ) → contains (ns ++ k ∷ []) m ≡ (contains ns m || (k == m))
unfolding contains
contains-snoc [] k m = ground arith
contains-snoc (n ∷ ns) k m =
    ap ((n == m) ||◌) (contains-snoc ns k m) ∙ sym (or_assoc (n == m) (contains ns m) (k == m))

pub Distinct-snoc :
    (ns : List ℕ) (k : ℕ) → Distinct ns → contains ns k ≡ false → Distinct (ns ++ k ∷ [])
unfolding contains
Distinct-snoc [] k d h = (refl, tt)
Distinct-snoc (n ∷ ns) k (fresh, d) h =
    let more = contains-snoc ns k n in
    (ground (arith, more, fresh), Distinct-snoc ns k d (ground arith))

grown-IsParsed :
    (p : Parsed) (t : List ℕ)
    → IsParsed p
    → text_len p.text ≤ text_len t
    → IsParsed (record p { text = t })
grown-IsParsed p t i h = record {
  seen = i.seen;
  distinct = i.distinct;
  placed = AllPlaced-le (text_len p.text) (text_len t) p.stops h i.placed;
}

push_stop-IsParsed :
    (p : Parsed) (s : TabStop)
    → IsParsed p
    → Placed (text_len p.text) s
    → Holds IsParsed (push_stop p s)
unfolding push_stop indices
push_stop-IsParsed p s i h = elim (Bool-cases (contains p.seen s.index)) [
  | inl e ↦ rw (e, push_stop) tt
  | inr e ↦
      rw (e, push_stop)
        (record {
          seen = indices-append p.stops (s ∷ []) ∙ ap (◌++ s.index ∷ []) i.seen;
          distinct = Distinct-snoc p.seen s.index i.distinct e;
          placed = AllPlaced-append (text_len p.text) p.stops (s ∷ []) i.placed (h, tt);
        })
]

-- What a round leaves: the same, and no more chars than there were.
abbrev pub Next : List ℕ → Parsed × List ℕ → Type 0
Next cs r = IsParsed r.0 × (length r.1 ≤ length cs)

pushed-Next :
    (p : Parsed) (s : TabStop) (rest cs : List ℕ)
    → IsParsed p
    → Placed (text_len p.text) s
    → length rest ≤ length cs
    → Holds (Next cs) (pushed p s rest)
unfolding pushed
pushed-Next p s rest cs i h l =
    Holds-after IsParsed (Next cs) (push_stop p s) (λ p'. ok (p', rest))
      (push_stop-IsParsed p s i h) (λ p' i'. (i', l))

-- A stop over the text's end.
pub stop_from-Placed :
    (index start : ℕ) (p : Parsed) (choices : List (List ℕ))
    → InRange index
    → start ≤ text_len p.text
    → Placed (text_len p.text) (stop_from index start p choices)
unfolding stop_from
stop_from-Placed index start p choices r h = (h, omega arith, r)

braced-Next :
    (p : Parsed) (index : ℕ) (cs : List ℕ)
    → IsParsed p
    → InRange index
    → Holds (Next cs) (braced p index cs)
unfolding braced
braced-Next p index [] i r = tt
braced-Next p index (c ∷ cs) i r = elim (Bool-cases (c == 125)) [
  | inl a ↦
      rw (a, braced)
        (pushed-Next p (stop_from index (text_len p.text) p []) cs (c ∷ cs) i
          (stop_from-Placed index (text_len p.text) p [] r (omega arith)) (omega arith))
  | inr a ↦ elim (Bool-cases (c == 58)) [
    | inl b ↦
        rw (a, b, braced)
          (Holds-after (Grows p.text cs) (Next (c ∷ cs)) (read_default false cs p.text) _
            (read_default-Grows false cs p.text)
            (λ (text, rest) h.
              let grown : Parsed = record p { text = text } in
              pushed-Next grown (stop_from index (text_len p.text) grown []) rest (c ∷ cs)
                (grown-IsParsed p text i h.0)
                (stop_from-Placed index (text_len p.text) grown [] r h.0) (omega (arith, h.1))))
    | inr b ↦ elim (Bool-cases (c == 124)) [
      | inl d ↦
          rw (a, b, d, braced)
            (Holds-after (Forward cs) (Next (c ∷ cs)) (read_choices false cs [] []) _
              (read_choices-Forward false cs [] [])
              (λ (choices, rest) h.
                let grown : Parsed = record p { text = p.text ++ first_choice choices } in
                let len = text_len-append p.text (first_choice choices) in
                pushed-Next grown (stop_from index (text_len p.text) grown choices) rest (c ∷ cs)
                  (grown-IsParsed p grown.text i (omega (arith, len)))
                  (stop_from-Placed index (text_len p.text) grown choices r (omega (arith, len)))
                  (omega (arith, h))))
      | inr d ↦ rw (a, b, d, braced) tt
    ]
  ]
]

-- A round that takes chars into the text only.
text_grows-Next :
    (p : Parsed) (t rest cs : List ℕ)
    → IsParsed p
    → length rest ≤ length cs
    → Holds (Next cs) (ok (record p { text = p.text ++ t }, rest))
text_grows-Next p t rest cs i l =
    let len = text_len-append p.text t in (grown-IsParsed p (p.text ++ t) i (omega (arith, len)), l)

dollar-Next : (p : Parsed) (cs : List ℕ) → IsParsed p → Holds (Next cs) (dollar p cs)
unfolding dollar
dollar-Next p [] i = text_grows-Next p (36 ∷ []) [] [] i (omega arith)
dollar-Next p (d ∷ ds) i = elim (Bool-cases (d == 123)) [
  | inl a ↦
      rw (a, dollar)
        (Holds-after (λ r. InRange r.0 × (length r.1 ≤ length ds)) (Next (d ∷ ds)) (read_index ds) _
          (read_index-InRange ds)
          (λ (index, rest) h.
            Holds-weaken (Next rest) (Next (d ∷ ds)) (braced p index rest)
              (λ r k. (k.0, omega (arith, k.1, h.1))) (braced-Next p index rest i h.0)))
  | inr a ↦ elim (Bool-cases (is_digit d)) [
    | inl b ↦
        rw (a, b, dollar)
          (Holds-after (λ r. InRange r.0 × (length r.1 ≤ length (d ∷ ds))) (Next (d ∷ ds))
            (read_index (d ∷ ds)) _ (read_index-InRange (d ∷ ds))
            (λ (index, rest) h.
              pushed-Next p (stop_from index (text_len p.text) p []) rest (d ∷ ds) i
                (stop_from-Placed index (text_len p.text) p [] h.0 (omega arith)) h.1))
    | inr b ↦ rw (a, b, dollar) (text_grows-Next p (36 ∷ []) (d ∷ ds) (d ∷ ds) i (omega arith))
  ]
]

round-Next : (p : Parsed) (c : ℕ) (cs : List ℕ) → IsParsed p → Holds (Next cs) (round p c cs)
unfolding round
round-Next p c [] i = elim (Bool-cases (c == 36)) [
  | inl a ↦ rw (a, round) (dollar-Next p [] i)
  | inr a ↦ rw (a, round) (text_grows-Next p (c ∷ []) [] [] i (omega arith))
]
round-Next p c (d ∷ ds) i = elim (Bool-cases (is_escape c (d ∷ ds))) [
  | inl a ↦ rw (a, round) (text_grows-Next p (d ∷ []) ds (d ∷ ds) i (omega arith))
  | inr a ↦ elim (Bool-cases (c == 36)) [
    | inl b ↦ rw (a, b, round) (dollar-Next p (d ∷ ds) i)
    | inr b ↦ rw (a, b, round) (text_grows-Next p (c ∷ []) (d ∷ ds) (d ∷ ds) i (omega arith))
  ]
]

-- As many rounds as there are chars are enough.
pub parse_from-IsParsed :
    (rounds : ℕ) (p : Parsed) (cs : List ℕ)
    → length cs ≤ rounds
    → IsParsed p
    → (r : Result Parsed) × (parse_from rounds p cs ≡ some r) × Holds IsParsed r
unfolding parse_from
parse_from-IsParsed zero p [] h i = (ok p, refl, i)
parse_from-IsParsed (suc rounds) p [] h i = (ok p, refl, i)
parse_from-IsParsed zero p (c ∷ cs) h i = absurd (omega arith)
parse_from-IsParsed (suc rounds) p (c ∷ cs) h i =
    (elim (round p c cs)
        as (λ (t : Result (Parsed × List ℕ)).
          Holds (Next cs) t
          → (r : Result Parsed) × ((elim t [
            | err e ↦ some (err e)
            | ok (p', rest) ↦ parse_from rounds p' rest
          ])
              ≡ some r)
            × Holds IsParsed r) [
              | err e ↦ λ k. (err e, refl, tt)
              | ok (p', rest) ↦ λ k. parse_from-IsParsed rounds p' rest (omega (arith, k.1)) k.0
            ])
      (round-Next p c cs i)

pub nothing_parsed-IsParsed : IsParsed nothing_parsed
unfolding indices
nothing_parsed-IsParsed = record { seen = refl; distinct = tt; placed = tt }
