-- ===== src/Frame/Framed.antt =====
-- The frames of a stream, read in any pieces.
use matcha.Common.{
  ℕ, zero, suc, ◌+◌, ◌≤◌, ◌<◌, ◌≡◌, inl, inr, refl, sym, ap, ap₂, ◌∙◌, none, some, Option, List, [],
  ◌∷◌, ◌++◌, length, take, drop, leb, Bool-cases, arith, append_assoc, append-nil, length-append,
  take-append_of_eq, drop-append_of_eq, subst, map, leb→le, leb→lt,
}
use matcha.Header.{body_limit}
use matcha.Frame.{Decoder, Item, body, entered, enter_body, scan_from, resume}
use matcha.Frame.Steps.{
  between_at, header_at, body_at, scan_between_ends, scan_between_finds, scan_header_ends,
  scan_header_finds,
}
use matcha.Frame.Bytes.{
  NoLf, NoLf-append, NoLf-front, NoLf-back, header_line, line_end, cut_of_le, encode_all,
  after_line, encode_all-cons, NoLf-header_line, length-header_line,
}

-- Where a decoder stands in a stream of frames, with the bodies that are not delivered yet.
pub data Place : Type 0 where
  between : List ℕ → List (List ℕ) → Place
  in_header in_body : List ℕ → List ℕ → List (List ℕ) → Place

abbrev pub at : Place → Decoder
at (between seen bs) = between_at seen (length seen)
at (in_header part b bs) = header_at b part (length (header_line b ++ 10 ∷ part))
at (in_body part b bs) = body_at b part

abbrev pub owed : Place → List (List ℕ)
owed (between seen bs) = bs
owed (in_header part b bs) = b ∷ bs
owed (in_body part b bs) = b ∷ bs

-- `rest` is what is still to be read of the stream.
abbrev pub Streams : Place → List ℕ → Type 0
Streams (between seen bs) rest = NoLf seen × (seen ++ rest ≡ encode_all bs)
Streams (in_header part b bs) rest = NoLf part × (part ++ rest ≡ after_line b bs)
Streams (in_body part b bs) rest = (length part < length b) × (part ++ rest ≡ b ++ encode_all bs)

abbrev pub AllFit : List (List ℕ) → Type 0
AllFit [] = Unit
AllFit (b ∷ bs) = (length b ≤ body_limit) × AllFit bs

-- Some of the bodies were delivered, in order, and the decoder stands before the others.
abbrev pub Delivers : List (List ℕ) → List ℕ → List Item → Option (Decoder × List Item) → Type 0
Delivers bs rest items none = ⊥
Delivers bs rest items (some (d, items')) =
    (done : List (List ℕ)) × (p : Place) × (d ≡ at p)
    × (items' ≡ items ++ map body done)
    × (bs ≡ done ++ owed p)
    × Streams p rest

pub Delivers-cons :
    (b : List ℕ) (bs : List (List ℕ)) (rest : List ℕ) (items : List Item)
    (r : Option (Decoder × List Item))
    → Delivers bs rest (items ++ body b ∷ []) r
    → Delivers (b ∷ bs) rest items r
Delivers-cons b bs rest items none w = elim w [ ]
Delivers-cons b bs rest items (some (d, items')) (done, p, e, f, g, s) =
    (b ∷ done, p, e, f ∙ append_assoc items (body b ∷ []) (map body done), ap (b ∷◌) g, s)

-- Nothing was delivered.
pub Delivers-nothing :
    (p : Place) (rest : List ℕ) (items : List Item)
    → Streams p rest
    → Delivers (owed p) rest items (some (at p, items))
Delivers-nothing p rest items s = ([], p, refl, sym (append-nil items), refl, s)

-- What a scan of the bytes after a body comes to.
abbrev FreshScan : List (List ℕ) → Type 0
FreshScan bs =
    (rounds : ℕ) (fresh rest : List ℕ) (items : List Item)
    → fresh ++ rest ≡ encode_all bs
    → length fresh < rounds
    → Delivers bs rest items (scan_from rounds (between_at fresh 0) items)

enter_body-Delivers :
    (rounds : ℕ) (d : Decoder) (next : ℕ) (b : List ℕ) (bs : List (List ℕ)) (zs rest : List ℕ)
    (items : List Item)
    → FreshScan bs
    → zs ++ rest ≡ b ++ encode_all bs
    → length zs < rounds
    → Delivers
        (b ∷ bs)
        rest
        items
        (resume (scan_from rounds) d next (entered (enter_body (length b) zs items)))
unfolding enter_body resume
enter_body-Delivers rounds d next b bs zs rest items f e h =
    elim (Bool-cases (leb (length b) (length zs))) [
      | inl l ↦
          let (tl, p, q) = cut_of_le zs rest b (encode_all bs) e (leb→le _ _ l) in
          let size : length zs ≡ length b + length tl = ap length p ∙ length-append b tl in
          let past : drop (length b) zs ≡ tl =
            ap (drop (length b)) p ∙ drop-append_of_eq (length b) b tl refl in
          let front : take (length b) zs ≡ b =
            ap (take (length b)) p ∙ take-append_of_eq (length b) b tl refl in
          rw (l, past, front, enter_body)
            (Delivers-cons b bs rest items _
              (f rounds tl rest (items ++ body b ∷ []) q (omega (arith, size))))
      | inr l ↦ rw (l, enter_body) (Delivers-nothing (in_body zs b bs) rest items (leb→lt _ _ l, e))
    ]

pub scan_header-Delivers :
    (rounds : ℕ) (b : List ℕ) (bs : List (List ℕ)) (seen fresh rest : List ℕ) (items : List Item)
    → FreshScan bs
    → length b ≤ body_limit
    → NoLf seen
    → (seen ++ fresh) ++ rest ≡ after_line b bs
    → length fresh < rounds
    → Delivers
        (b ∷ bs)
        rest
        items
        (scan_from rounds (header_at b (seen ++ fresh) (length (header_line b ++ 10 ∷ seen))) items)
scan_header-Delivers zero b bs seen fresh rest items f k n e h = absurd (omega arith)
scan_header-Delivers (suc rounds) b bs seen fresh rest items f k n e h =
    elim (line_end seen fresh rest (13 ∷ []) (b ++ encode_all bs) n e) [
      | inl (vs, p) ↦
          let line = length-header_line b in
          let whole = length-append (header_line b) (10 ∷ (seen ++ fresh)) in
          let two : 1 ≡ length (seen ++ fresh) + length vs =
            ap length p ∙ length-append (seen ++ fresh) vs in
          let clean : NoLf (seen ++ fresh) =
            NoLf-front (seen ++ fresh) vs (subst NoLf p (refl, tt)) in
          subst (Delivers (b ∷ bs) rest items)
            (sym (
              scan_header_ends rounds b seen fresh items (NoLf-back seen fresh clean)
                (omega (arith, line, whole, two))))
            (Delivers-nothing (in_header (seen ++ fresh) b bs) rest items (clean, e))
      | inr (ws, zs, p, q, r) ↦
          let clean : NoLf ws = NoLf-back seen ws (subst NoLf p (refl, tt)) in
          let size : length fresh ≡ length ws + suc (length zs) =
            ap length q ∙ length-append ws (10 ∷ zs) in
          subst
            (λ part. Delivers (b ∷ bs) rest items (
              scan_from (suc rounds)
                (header_at b (seen ++ part) (length (header_line b ++ 10 ∷ seen))) items))
            (sym q)
            (subst (Delivers (b ∷ bs) rest items)
              (sym (scan_header_finds rounds b seen ws zs items p clean k))
              (enter_body-Delivers rounds _ _ b bs zs rest items f r (omega (arith, size))))
    ]

encode_all-nil :
    (seen fresh rest : List ℕ)
    → (seen ++ fresh) ++ rest ≡ encode_all []
    → (seen ≡ []) × (fresh ≡ [])
unfolding encode_all
encode_all-nil [] [] rest h = (refl, refl)
encode_all-nil [] (c ∷ fresh) rest h = absurd (omega (arith, ap length h))
encode_all-nil (c ∷ seen) fresh rest h = absurd (omega (arith, ap length h))

pub scan_between-Delivers :
    (rounds : ℕ) (bs : List (List ℕ)) (seen fresh rest : List ℕ) (items : List Item)
    → AllFit bs
    → NoLf seen
    → (seen ++ fresh) ++ rest ≡ encode_all bs
    → length fresh < rounds
    → Delivers bs rest items (scan_from rounds (between_at (seen ++ fresh) (length seen)) items)
scan_between-Delivers zero bs seen fresh rest items k n e h = absurd (omega arith)
scan_between-Delivers (suc rounds) [] seen fresh rest items k n e h =
    let (a, b) = encode_all-nil seen fresh rest e in
    let clean : NoLf fresh = subst NoLf (sym b) tt in
    let size : length (seen ++ fresh) ≡ 0 =
      length-append seen fresh ∙ ap₂ ◌+◌ (ap length a) (ap length b) in
    subst (Delivers [] rest items)
      (sym (scan_between_ends rounds seen fresh items clean (omega (arith, size))))
      (Delivers-nothing (between (seen ++ fresh) []) rest items (NoLf-append seen fresh n clean, e))
scan_between-Delivers (suc rounds) (b ∷ bs) seen fresh rest items k n e h =
    elim (line_end seen fresh rest (header_line b) (after_line b bs) n (e ∙ encode_all-cons b bs)) [
      | inl (vs, p) ↦
          let clean : NoLf (seen ++ fresh) =
            NoLf-front (seen ++ fresh) vs (subst NoLf p (NoLf-header_line b)) in
          let line = length-header_line b in
          let whole : length (header_line b) ≡ length (seen ++ fresh) + length vs =
            ap length p ∙ length-append (seen ++ fresh) vs in
          subst (Delivers (b ∷ bs) rest items)
            (sym (
              scan_between_ends rounds seen fresh items (NoLf-back seen fresh clean)
                (omega (arith, line, whole))))
            (Delivers-nothing (between (seen ++ fresh) (b ∷ bs)) rest items (clean, e))
      | inr (ws, zs, p, q, r) ↦
          let clean : NoLf ws = NoLf-back seen ws (subst NoLf p (NoLf-header_line b)) in
          let size : length fresh ≡ length ws + suc (length zs) =
            ap length q ∙ length-append ws (10 ∷ zs) in
          subst
            (λ part.
              Delivers (b ∷ bs) rest items
                (scan_from (suc rounds) (between_at (seen ++ part) (length seen)) items))
            (sym q)
            (subst (Delivers (b ∷ bs) rest items)
              (sym (scan_between_finds rounds b seen ws zs items p clean (omega (arith, k.0))))
              (subst
                (λ scanned.
                  Delivers (b ∷ bs) rest items (scan_from rounds (header_at b zs scanned) items))
                (length-append (header_line b) (10 ∷ []) ∙ omega arith)
                (scan_header-Delivers rounds b bs [] zs rest items
                  (λ rounds' fresh' rest' items' e' h'.
                    scan_between-Delivers rounds' bs [] fresh' rest' items' k.1 tt e' h')
                  k.0 tt r (omega (arith, size)))))
    ]
