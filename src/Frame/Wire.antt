-- ===== src/Frame/Wire.antt =====
-- A read of the decoder at any place of a stream of frames.
use matcha.Common.{
  ℕ, suc, ◌+◌, ◌-◌, ◌<◌, ◌≡◌, inl, inr, refl, sym, ap, ◌∙◌, true, false, none, some, Option, List,
  [], ◌∷◌, ◌++◌, length, take, drop, leb, ltb, min, Bool-cases, arith, append_assoc, append-nil,
  length-append, take-append_of_eq, drop-append_of_eq, subst, leb→le, leb→lt, take-nil, le→ltb,
  lt→ltb,
}
use matcha.Frame.{
  header_block, Decoder, Item, body, returned, again, body_round, scan_round, push_round, push_on,
  push_from, push, scan, scan_from,
}
use matcha.Frame.Steps.{between_at, body_at}
use matcha.Frame.Bytes.{header_line, cuts, cut_of_le, encode_all}
use matcha.Frame.Framed.{
  Place, between, in_header, in_body, at, owed, Streams, AllFit, Delivers, Delivers-cons,
  Delivers-nothing, scan_between-Delivers, scan_header-Delivers,
}

body_round_more :
    (b part us input : List ℕ) (items : List Item)
    → b ≡ part ++ us
    → length input < length us
    → body_round (body_at b part) (length b) input items
      ≡ returned (body_at b (part ++ input)) items
unfolding body_round
body_round_more b part us input items e h =
    let size : length b ≡ length part + length us = ap length e ∙ length-append part us in
    let m : min (length b - length part) (length input) ≡ length input = omega (arith, size) in
    let t : take (length input) input ≡ input =
      ap (take (length input)) (sym (append-nil input)) ∙ take-append_of_eq _ input [] refl in
    let l : ltb (length (part ++ input)) (length b) ≡ true =
      lt→ltb _ _ (omega (arith, size, length-append part input)) in
    rw (m, t, l, body_round) refl

body_round_done :
    (b part us tl : List ℕ) (items : List Item)
    → b ≡ part ++ us
    → body_round (body_at b part) (length b) (us ++ tl) items
      ≡ again (between_at [] 0) tl (items ++ body b ∷ [])
unfolding body_round
body_round_done b part us tl items e =
    let size : length b ≡ length part + length us = ap length e ∙ length-append part us in
    let m : min (length b - length part) (length (us ++ tl)) ≡ length us =
      omega (arith, size, length-append us tl) in
    let t : take (length us) (us ++ tl) ≡ us = take-append_of_eq _ us tl refl in
    let u : drop (length us) (us ++ tl) ≡ tl = drop-append_of_eq _ us tl refl in
    let l : ltb (length b) (length b) ≡ false = le→ltb _ _ (omega arith) in
    rw (m, t, u, sym e, l, body_round) refl

body_round_quiet :
    (b part : List ℕ) (items : List Item)
    → length part < length b
    → body_round (body_at b part) (length b) [] items ≡ returned (body_at b part) items
unfolding body_round
body_round_quiet b part items h =
    let t = append-nil part in
    let u : take {A = ℕ} (min (length b - length part) 0) [] ≡ [] = take-nil _ in
    let l : ltb (length part) (length b) ≡ true = lt→ltb _ _ h in rw (u, t, l, body_round) refl

-- With nothing to read, the decoder stays where it is.
push_from_quiet :
    (rounds : ℕ) (p : Place) (rest : List ℕ) (items : List Item)
    → Streams p rest
    → push_from (suc rounds) (at p) [] items ≡ some (at p, items)
unfolding push_from push_round push_on scan_round
push_from_quiet rounds (between seen bs) rest items s = refl
push_from_quiet rounds (in_header part b bs) rest items s = refl
push_from_quiet rounds (in_body part b bs) rest items s =
    ap (λ r. push_on (push_from rounds) (some r)) (body_round_quiet b part items s.0)

push_on_scanned :
    (rounds : ℕ) (bs : List (List ℕ)) (rest : List ℕ) (items : List Item)
    (r : Option (Decoder × List Item))
    → Delivers bs rest items r
    → Delivers bs rest items (
        push_on
          (push_from (suc rounds))
          (elim r [ none ↦ none | some (d', items') ↦ some (again d' [] items') ]))
unfolding push_on
push_on_scanned rounds bs rest items none w = w
push_on_scanned rounds bs rest items (some (d, items')) (done, p, e, f, g, s) =
    subst (Delivers bs rest items)
      (sym (push_from_quiet rounds p rest items' s)
        ∙ ap (λ d'. push_from (suc rounds) d' [] items') (sym e))
      (done, p, refl, f, g, s)

-- A read between the lines.
push_between-Delivers :
    (rounds : ℕ) (seen : List ℕ) (bs : List (List ℕ)) (input rest : List ℕ) (items : List Item)
    → AllFit bs
    → Streams (between seen bs) (input ++ rest)
    → Delivers bs rest items (push_from (suc (suc rounds)) (at (between seen bs)) input items)
unfolding push_from push_round scan_round scan
push_between-Delivers rounds seen bs [] rest items k s =
    Delivers-nothing (between seen bs) rest items s
push_between-Delivers rounds seen bs (c ∷ cs) rest items k (n, e) =
    push_on_scanned rounds bs rest items _ (
      scan_between-Delivers (suc (length (seen ++ c ∷ cs))) bs seen (c ∷ cs) rest items k n
        (append_assoc seen (c ∷ cs) rest ∙ e) (omega (arith, length-append seen (c ∷ cs))))

-- A read after a header line.
push_header-Delivers :
    (rounds : ℕ) (part b : List ℕ) (bs : List (List ℕ)) (input rest : List ℕ) (items : List Item)
    → AllFit (b ∷ bs)
    → Streams (in_header part b bs) (input ++ rest)
    → Delivers
        (b ∷ bs)
        rest
        items
        (push_from (suc (suc rounds)) (at (in_header part b bs)) input items)
unfolding push_from push_round scan_round scan
push_header-Delivers rounds part b bs [] rest items k s =
    Delivers-nothing (in_header part b bs) rest items s
push_header-Delivers rounds part b bs (c ∷ cs) rest items k (n, e) =
    let grown = append_assoc (header_line b) (10 ∷ part) (c ∷ cs) in
    push_on_scanned rounds (b ∷ bs) rest items _ (
      subst
        (λ buffer. Delivers (b ∷ bs) rest items (
          scan_from (suc (length buffer))
            (record {
              buffer = buffer;
              line = suc (length (header_line b));
              scanned = length (header_line b ++ 10 ∷ part);
              state = header_block 0 (length b);
            })
            items))
        (sym grown)
        (scan_header-Delivers (suc (length (header_line b ++ 10 ∷ (part ++ c ∷ cs)))) b bs part
          (c ∷ cs) rest items
          (λ rounds' fresh' rest' items' e' h'.
            scan_between-Delivers rounds' bs [] fresh' rest' items' k.1 tt e' h')
          k.0 n (append_assoc part (c ∷ cs) rest ∙ e)
          (omega (
            arith,
            length-append (header_line b) (10 ∷ (part ++ c ∷ cs)),
            length-append part (c ∷ cs),
          ))))

-- A read inside a body.
push_body-Delivers :
    (rounds : ℕ) (part b : List ℕ) (bs : List (List ℕ)) (input rest : List ℕ) (items : List Item)
    → AllFit (b ∷ bs)
    → Streams (in_body part b bs) (input ++ rest)
    → Delivers
        (b ∷ bs)
        rest
        items
        (push_from (suc (suc (suc rounds))) (at (in_body part b bs)) input items)
unfolding push_from push_round
push_body-Delivers rounds part b bs input rest items k (h, e) =
    let loop = push_from (suc (suc rounds)) in
    elim (cuts part (input ++ rest) b (encode_all bs) e) [
      | inr (z, zs, p, q) ↦ absurd (omega (arith, h, ap length p, length-append b (z ∷ zs)))
      | inl (us, p, q) ↦ elim (Bool-cases (leb (length us) (length input))) [
        | inl l ↦
            let (tl, a, c) = cut_of_le input rest us (encode_all bs) q (leb→le _ _ l) in
            let done =
              ap (λ i. body_round (body_at b part) (length b) i items) a
              ∙ body_round_done b part us tl items p in
            subst (λ r. Delivers (b ∷ bs) rest items (push_on loop (some r))) (sym done)
              (Delivers-cons b bs rest items _
                (push_between-Delivers rounds [] bs tl rest (items ++ body b ∷ []) k.1 (tt, c)))
        | inr l ↦
            let short = leb→lt (length us) (length input) l in
            subst (λ r. Delivers (b ∷ bs) rest items (push_on loop (some r)))
              (sym (body_round_more b part us input items p short))
              (Delivers-nothing (in_body (part ++ input) b bs) rest items (
                omega (arith, short, ap length p, length-append part us, length-append part input),
                append_assoc part input rest ∙ e,
              ))
      ]
    ]

-- A read delivers bodies that it completes, and leaves the decoder at a place of the stream again.
pub push-Delivers :
    (p : Place) (input rest : List ℕ)
    → AllFit (owed p)
    → Streams p (input ++ rest)
    → Delivers (owed p) rest [] (push (at p) input)
unfolding push
push-Delivers (between seen bs) input rest k s = push_between-Delivers 1 seen bs input rest [] k s
push-Delivers (in_header part b bs) input rest k s =
    push_header-Delivers 1 part b bs input rest [] k s
push-Delivers (in_body part b bs) input rest k s = push_body-Delivers 0 part b bs input rest [] k s
