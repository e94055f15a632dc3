-- ===== src/Frame/Prompt.antt =====
-- How much of a stream of frames is delivered: at every read, and at its end.
use mathlib.Core.List.{tail-eq_of_cons-eq, head-eq_of_cons-eq}
use matcha.Common.{
  ℕ, ◌+◌, ◌≤◌, ◌<◌, ◌≡◌, inl, inr, refl, sym, ap, ap₂, ◌∙◌, none, some, Option, List, [], ◌∷◌, ◌++◌,
  length, arith, append_assoc, append-nil, length-append, subst, map,
}
use matcha.Header.{encode, length_line}
use matcha.Frame.{Decoder, Item, body, default}
use matcha.Frame.Steps.{between_at}
use matcha.Frame.Bytes.{NoLf, NoLf-back, header_line, cuts, encode_all, after_line, encode_all-cons}
use matcha.Frame.Framed.{Place, between, in_header, in_body, at, owed, Streams, AllFit, Delivers}
use matcha.Frame.Stream.{push_all, joined, push_all-Delivers}

-- The bytes that were read since the last body.
abbrev held : Place → List ℕ
held (between seen bs) = seen
held (in_header part b bs) = header_line b ++ 10 ∷ part
held (in_body part b bs) = header_line b ++ 10 ∷ 13 ∷ 10 ∷ part

held-Streams : (p : Place) (rest : List ℕ) → Streams p rest → held p ++ rest ≡ encode_all (owed p)
held-Streams (between seen bs) rest s = s.1
held-Streams (in_header part b bs) rest s =
    append_assoc (header_line b) (10 ∷ part) rest
    ∙ ap (λ t. header_line b ++ 10 ∷ t) s.1
    ∙ sym (encode_all-cons b bs)
held-Streams (in_body part b bs) rest s =
    append_assoc (header_line b) (10 ∷ 13 ∷ 10 ∷ part) rest
    ∙ ap (λ t. header_line b ++ 10 ∷ 13 ∷ 10 ∷ t) s.1
    ∙ sym (encode_all-cons b bs)

-- `part` is less than the first frame of what is left, and nothing when nothing is left.
abbrev pub Unfinished : List ℕ → List (List ℕ) → Type 0
Unfinished part [] = part ≡ []
Unfinished part (b ∷ bs) = length part < length (encode b)

seen_le :
    (seen rest line tail : List ℕ)
    → NoLf seen
    → seen ++ rest ≡ line ++ 10 ∷ tail
    → length seen ≤ length line
seen_le seen rest line tail n e = elim (cuts seen rest line (10 ∷ tail) e) [
  | inl (vs, p, q) ↦ omega (arith, ap length p, length-append seen vs)
  | inr (z, zs, p, q) ↦
      let other = (NoLf-back line (z ∷ zs) (subst NoLf p n)).0 in
      let same : 10 ≡ z = head-eq_of_cons-eq q in absurd (ground (arith, other, same))
]

length-encode : (b : List ℕ) → length (encode b) ≡ length (header_line b) + 3 + length b
unfolding encode header_line
length-encode b = omega (
  arith,
  length-append (length_line (length b)) (13 ∷ 10 ∷ 13 ∷ 10 ∷ b),
  length-append (length_line (length b)) (13 ∷ []),
)

empty_front : (xs ys : List ℕ) → xs ++ ys ≡ encode_all [] → xs ≡ []
unfolding encode_all
empty_front [] ys e = refl
empty_front (x ∷ xs) ys e = absurd (omega (arith, ap length e))

held-Unfinished : (p : Place) (rest : List ℕ) → Streams p rest → Unfinished (held p) (owed p)
held-Unfinished (between seen []) rest (n, e) = empty_front seen rest e
held-Unfinished (between seen (b ∷ bs)) rest (n, e) = omega (
  arith,
  length-encode b,
  seen_le seen rest (header_line b) (after_line b bs) n (e ∙ encode_all-cons b bs),
)
held-Unfinished (in_header part b bs) rest (n, e) = omega (
  arith,
  length-encode b,
  length-append (header_line b) (10 ∷ part),
  seen_le part rest (13 ∷ []) (b ++ encode_all bs) n e,
)
held-Unfinished (in_body part b bs) rest (n, e) =
    omega (arith, length-encode b, n, length-append (header_line b) (10 ∷ 13 ∷ 10 ∷ part))

pub encode_all-append :
    (xs ys : List (List ℕ)) → encode_all (xs ++ ys) ≡ encode_all xs ++ encode_all ys
unfolding encode_all
encode_all-append [] ys = refl
encode_all-append (x ∷ xs) ys =
    ap (encode x ++◌) (encode_all-append xs ys)
    ∙ sym (append_assoc (encode x) (encode_all xs) (encode_all ys))

append_cancel : (xs ys rest : List ℕ) → xs ++ rest ≡ ys ++ rest → xs ≡ ys
append_cancel [] [] rest e = refl
append_cancel [] (y ∷ ys) rest e = absurd (omega (arith, ap length e, length-append ys rest))
append_cancel (x ∷ xs) [] rest e = absurd (omega (arith, ap length e, length-append xs rest))
append_cancel (x ∷ xs) (y ∷ ys) rest e =
    ap₂ ◌∷◌ (head-eq_of_cons-eq e) (append_cancel xs ys rest (tail-eq_of_cons-eq e))

-- What is delivered of a part of a stream.
abbrev pub Prompt : List (List ℕ) → List ℕ → Option (Decoder × List Item) → Type 0
Prompt bs bytes r =
    (d : Decoder) × (done : List (List ℕ)) × (left : List (List ℕ)) × (part : List ℕ) × (r
      ≡ some (d, map body done))
    × (bs ≡ done ++ left)
    × (bytes ≡ encode_all done ++ part)
    × Unfinished part left

Delivers-Prompt :
    (bs : List (List ℕ)) (bytes rest : List ℕ) (r : Option (Decoder × List Item))
    → bytes ++ rest ≡ encode_all bs
    → Delivers bs rest [] r
    → Prompt bs bytes r
Delivers-Prompt bs bytes rest none e w = elim w [ ]
Delivers-Prompt bs bytes rest (some (d, items)) e (done, p, f, g, h, s) = (
  d,
  done,
  owed p,
  held p,
  ap (λ i. some (d, i)) g,
  h,
  append_cancel bytes (encode_all done ++ held p) rest (
      e
      ∙ ap encode_all h
      ∙ encode_all-append done (owed p)
      ∙ ap (encode_all done ++◌) (sym (held-Streams p rest s))
      ∙ sym (append_assoc (encode_all done) (held p) rest)),
  held-Unfinished p rest s,
)

-- However a part of a stream of frames is cut into reads, what comes out of them are the bodies whose
-- frames are complete in that part, in order, and no other items: what is left over of the bytes is less
-- than the next frame. Bodies are up to the longest that is decoded.
pub push_all-Prompt :
    (bs reads : List (List ℕ)) (rest : List ℕ)
    → AllFit bs
    → joined reads ++ rest ≡ encode_all bs
    → Prompt bs (joined reads) (push_all default reads)
push_all-Prompt bs reads rest k e =
    Delivers-Prompt bs (joined reads) rest (push_all default reads) e
      (push_all-Delivers reads (between [] bs) rest k (tt, e))

unfinished_short :
    (part b : List ℕ) (bs : List (List ℕ))
    → part ++ [] ≡ encode_all (b ∷ bs)
    → length part < length (encode b)
    → ⊥
unfolding encode_all
unfinished_short part b bs e h =
    omega (arith, h, length-append part [], length-append (encode b) (encode_all bs), ap length e)

-- At the end of the stream nothing is left.
at_end_unfinished :
    {A : Type 0} (p : Place) (b : List ℕ) (bs : List (List ℕ)) → owed p ≡ b ∷ bs → Streams p [] → A
at_end_unfinished p b bs e s = absurd (
    unfinished_short (held p) b bs (held-Streams p [] s ∙ ap encode_all e)
      (subst (Unfinished (held p)) e (held-Unfinished p [] s)))

pub at_end-default : (p : Place) → Streams p [] → (at p ≡ default) × (owed p ≡ [])
at_end-default (between seen []) s =
    let nothing = held-Unfinished (between seen []) [] s in
    (ap (λ b. between_at b (length b)) nothing, refl)
at_end-default (between seen (b ∷ bs)) s = at_end_unfinished (between seen (b ∷ bs)) b bs refl s
at_end-default (in_header part b bs) s = at_end_unfinished (in_header part b bs) b bs refl s
at_end-default (in_body part b bs) s = at_end_unfinished (in_body part b bs) b bs refl s

Delivers-end :
    (bs : List (List ℕ)) (r : Option (Decoder × List Item))
    → Delivers bs [] [] r
    → r ≡ some (default, map body bs)
Delivers-end bs none w = elim w [ ]
Delivers-end bs (some (d, items)) (done, p, e, f, g, s) =
    let (a, b) = at_end-default p s in
    ap₂ (λ d i. some (d, i)) (e ∙ a)
      (f ∙ ap (map body) (sym (g ∙ ap (done ++◌) b ∙ append-nil done)))

-- The bodies come out of the frames they were encoded in, however the stream is cut into reads, and the
-- decoder is then as it was at the start. Bodies are up to the longest that is decoded.
pub push_all-encode_all :
    (bs reads : List (List ℕ))
    → AllFit bs
    → joined reads ≡ encode_all bs
    → push_all default reads ≡ some (default, map body bs)
push_all-encode_all bs reads k e =
    Delivers-end bs (push_all default reads)
      (push_all-Delivers reads (between [] bs) [] k (tt, append-nil (joined reads) ∙ e))
