-- ===== src/Encoding/Walk.antt =====
-- Neither the cutting into chunks nor the short way for ASCII changes what is counted, and the two
-- conversions agree.
use matcha.Common.{
  ℕ, ◌+◌, ◌-◌, ◌<◌, ◌≡◌, refl, ap, ◌∙◌, true, false, List, [], ◌∷◌, ◌++◌, min, length, ltb, ◌==◌,
  Bool-cases, arith, inl, inr, ap₂,
}
use matcha.Snippet.{len_utf8, text_len}
use matcha.Encoding.{
  Encoding, utf8, utf16, utf32, width, is_ascii, walk_chars, bytes_from, bytes, utf16_count,
  chunk_units, units, Walked, returned, going,
}

-- A line's chars from all its chunks.
unfoldable pub joined : List (List ℕ) → List ℕ
joined [] = []
joined (chunk ∷ chunks) = chunk ++ joined chunks

-- The bytes of the chars that fit whole into the units, one char after the other.
unfoldable pub walk : Encoding → ℕ → List ℕ → ℕ
walk enc left [] = 0
walk enc left (c ∷ cs) = elim (ltb left (width enc c)) [
  | true ↦ 0
  | false ↦ len_utf8 c + walk enc (left - width enc c) cs
]

unfoldable pub widths : Encoding → List ℕ → ℕ
widths enc [] = 0
widths enc (c ∷ cs) = width enc c + widths enc cs

width_pos : (enc : Encoding) (c : ℕ) → 0 < width enc c
unfolding width len_utf8
width_pos utf8 c = ground arith
width_pos utf16 c = ground arith
width_pos utf32 c = omega arith

ascii_width : (enc : Encoding) (c : ℕ) → ltb c 128 ≡ true → width enc c ≡ 1
unfolding width len_utf8
ascii_width utf8 c h = rw h refl
ascii_width utf16 c h = let e : ltb c 65536 ≡ true = ground arith in rw e refl
ascii_width utf32 c h = refl

ascii_len : (c : ℕ) → ltb c 128 ≡ true → len_utf8 c ≡ 1
unfolding len_utf8
ascii_len c h = rw h refl

walk-zero : (enc : Encoding) (cs : List ℕ) → walk enc 0 cs ≡ 0
unfolding walk
walk-zero enc [] = refl
walk-zero enc (c ∷ cs) =
    let e : ltb 0 (width enc c) ≡ true = ground (arith, width_pos enc c) in rw (e, walk) refl

-- An ASCII chunk takes as many units as bytes.
walk-ascii :
    (enc : Encoding) (left : ℕ) (cs rest : List ℕ)
    → is_ascii cs ≡ true
    → walk enc left (cs ++ rest)
      ≡ min left (text_len cs) + walk enc (left - min left (text_len cs)) rest
unfolding walk is_ascii text_len
walk-ascii enc left [] rest h =
    let none_taken : left - min left 0 ≡ left = omega arith in
    let a = ap (λ l. walk enc l rest) none_taken in omega (arith, a)
walk-ascii enc left (c ∷ cs) rest h =
    let one : ltb c 128 ≡ true = ground arith in
    let others : is_ascii cs ≡ true = ground arith in
    let w = ascii_width enc c one in
    let n = ascii_len c one in
    elim (Bool-cases (ltb left (width enc c))) [
      | inl e ↦
          let nothing : left ≡ 0 = ground (arith, w) in
          let no_units : left - min left (len_utf8 c + text_len cs) ≡ 0 = omega (arith, nothing) in
          let after = ap (λ l. walk enc l rest) no_units ∙ walk-zero enc rest in
          rw (e, walk) (omega (arith, after, nothing))
      | inr e ↦
          let some_left : 0 < left = ground (arith, w) in
          let ih = walk-ascii enc (left - width enc c) cs rest others in
          let same : left - width enc c - min (left - width enc c) (text_len cs)
              ≡ left - min left (len_utf8 c + text_len cs) =
            omega (arith, w, n, some_left) in
          let after = ap (λ l. walk enc l rest) same in
          rw (e, walk) (omega (arith, ih, after, w, n, some_left))
    ]

-- What is counted in the end, from what a chunk comes to.
unfoldable gone_on : Encoding → List ℕ → Walked → ℕ
gone_on enc rest (returned b) = b
gone_on enc rest (going b l) = b + walk enc l rest

walk_chars-walk :
    (enc : Encoding) (bytes left : ℕ) (cs rest : List ℕ)
    → gone_on enc rest (walk_chars enc bytes left cs) ≡ bytes + walk enc left (cs ++ rest)
unfolding walk walk_chars gone_on
walk_chars-walk enc bytes left [] rest = refl
walk_chars-walk enc bytes left (c ∷ cs) rest = elim (Bool-cases (ltb left (width enc c))) [
  | inl e ↦ rw (e, walk, walk_chars) (omega arith)
  | inr e ↦ elim (Bool-cases (left - width enc c == 0)) [
    | inl z ↦
        let none_left : left - width enc c ≡ 0 = ground arith in
        let after = ap (λ l. walk enc l (cs ++ rest)) none_left ∙ walk-zero enc (cs ++ rest) in
        rw (e, z, walk, walk_chars) (omega (arith, after))
    | inr z ↦
        let ih = walk_chars-walk enc (bytes + len_utf8 c) (left - width enc c) cs rest in
        rw (e, z, walk, walk_chars) (omega (arith, ih))
  ]
]

bytes_from-walk :
    (enc : Encoding) (bytes left : ℕ) (chunks : List (List ℕ))
    → bytes_from enc bytes left chunks ≡ bytes + walk enc left (joined chunks)
unfolding bytes_from joined walk gone_on
bytes_from-walk enc bytes left [] = omega arith
bytes_from-walk enc bytes left (chunk ∷ chunks) = elim (Bool-cases (left == 0)) [
  | inl z ↦
      let nothing : left ≡ 0 = ground arith in
      let after = ap (λ l. walk enc l (joined (chunk ∷ chunks))) nothing ∙ walk-zero enc _ in
      rw (z, bytes_from) (omega (arith, after))
  | inr z ↦ elim (Bool-cases (is_ascii chunk)) [
    | inl a ↦
        let taken = min left (text_len chunk) in
        let ih = bytes_from-walk enc (bytes + taken) (left - taken) chunks in
        let whole = walk-ascii enc left chunk (joined chunks) a in
        rw (z, a, bytes_from) (omega (arith, ih, whole))
    | inr a ↦
        let whole = walk_chars-walk enc bytes left chunk (joined chunks) in
        rw (z, a, bytes_from)
          ((elim (walk_chars enc bytes left chunk)
              as (λ (w : Walked).
                gone_on enc (joined chunks) w ≡ bytes + walk enc left (chunk ++ joined chunks)
                → (elim w [ returned b ↦ b | going b l ↦ bytes_from enc b l chunks ])
                  ≡ bytes + walk enc left (chunk ++ joined chunks)) [
                    | returned b ↦ λ h. h
                    | going b l ↦ λ h. bytes_from-walk enc b l chunks ∙ h
                  ])
            whole)
  ]
]

widths-ascii : (enc : Encoding) (cs : List ℕ) → is_ascii cs ≡ true → text_len cs ≡ widths enc cs
unfolding is_ascii widths text_len
widths-ascii enc [] h = refl
widths-ascii enc (c ∷ cs) h =
    let one : ltb c 128 ≡ true = ground arith in
    let others : is_ascii cs ≡ true = ground arith in
    omega (arith, ascii_width enc c one, ascii_len c one, widths-ascii enc cs others)

text_len-widths : (cs : List ℕ) → text_len cs ≡ widths utf8 cs
unfolding widths text_len width
text_len-widths [] = refl
text_len-widths (c ∷ cs) = ap (len_utf8 c +◌) (text_len-widths cs)

utf16_count-widths : (cs : List ℕ) → utf16_count cs ≡ widths utf16 cs
unfolding widths utf16_count width
utf16_count-widths [] = refl
utf16_count-widths (c ∷ cs) = let ih = utf16_count-widths cs in ground (arith, ih)

length-widths : (cs : List ℕ) → length cs ≡ widths utf32 cs
unfolding widths width
length-widths [] = refl
length-widths (c ∷ cs) = omega (arith, length-widths cs)

chunk_units-widths : (enc : Encoding) (cs : List ℕ) → chunk_units enc cs ≡ widths enc cs
unfolding chunk_units
chunk_units-widths enc cs = elim (Bool-cases (is_ascii cs)) [
  | inl a ↦ rw (a, chunk_units) (widths-ascii enc cs a)
  | inr a ↦
      rw (a, chunk_units)
        (elim enc
          as (λ (e : Encoding).
            elim e [ utf8 ↦ text_len cs | utf16 ↦ utf16_count cs | utf32 ↦ length cs ]
            ≡ widths e cs) [
              | utf8 ↦ text_len-widths cs
              | utf16 ↦ utf16_count-widths cs
              | utf32 ↦ length-widths cs
            ])
]

widths-append :
    (enc : Encoding) (xs ys : List ℕ) → widths enc (xs ++ ys) ≡ widths enc xs + widths enc ys
unfolding widths
widths-append enc [] ys = omega arith
widths-append enc (c ∷ xs) ys = omega (arith, widths-append enc xs ys)

units-widths :
    (enc : Encoding) (chunks : List (List ℕ)) → units enc chunks ≡ widths enc (joined chunks)
unfolding units joined widths
units-widths enc [] = refl
units-widths enc (chunk ∷ chunks) = omega (
  arith,
  chunk_units-widths enc chunk,
  units-widths enc chunks,
  widths-append enc chunk (joined chunks),
)

walk-widths :
    (enc : Encoding) (pre suf : List ℕ) → walk enc (widths enc pre) (pre ++ suf) ≡ text_len pre
unfolding walk widths text_len
walk-widths enc [] suf = walk-zero enc suf
walk-widths enc (c ∷ pre) suf =
    let fits : ltb (width enc c + widths enc pre) (width enc c) ≡ false = ground arith in
    let left : width enc c + widths enc pre - width enc c ≡ widths enc pre = omega arith in
    let ih = ap (λ l. walk enc l (pre ++ suf)) left ∙ walk-widths enc pre suf in
    rw (fits, walk) (omega (arith, ih))

-- The units of the first part of a line, however it is cut into chunks, lead in the line, however that
-- is cut, to the byte at which the part ends.
pub bytes-units :
    (enc : Encoding) (line part : List (List ℕ)) (suf : List ℕ)
    → joined line ≡ joined part ++ suf
    → bytes enc line (units enc part) ≡ text_len (joined part)
unfolding bytes
bytes-units enc line part suf h =
    let counted = bytes_from-walk enc 0 (units enc part) line in
    let first = ap₂ (walk enc) (units-widths enc part) h ∙ walk-widths enc (joined part) suf in
    omega (arith, counted, first)
