-- ===== src/Frame/Steps.antt =====
-- Where the decoder stands in a stream of frames, and what each of its steps does there.
use matcha.Common.{
  ℕ, suc, ◌+◌, ◌-◌, ◌≤◌, ◌<◌, ◌≡◌, refl, sym, ap, ◌∙◌, true, some, List, [], ◌∷◌, ◌++◌, length,
  take, drop, leb, le→ltb, arith, append_assoc, ◌^◌, length-append, take-append_of_eq,
  drop-append_of_eq, drop-append2_of_eq,
}
use matcha.Header.{strip, classify, size_of, line_limit, header_limit, body_limit}
use matcha.Frame.{
  State, noise_lines, header_block, body_bytes, Decoder, Item, entered, enter, enter_body,
  line_rules, noise_rules, header_rules, settle, compact, release, partial_header, partial_noise,
  scan_from, resume,
}
use matcha.Frame.Settled.{noise_kept, header_kept}
use matcha.Frame.Bytes.{NoLf, position-none, position-here, header_line, classify-header_line}

-- A decoder between the lines, before a line end that `seen` does not have.
abbrev pub between_at : List ℕ → ℕ → Decoder
between_at buffer scanned = record {
  buffer = buffer;
  line = 0;
  scanned = scanned;
  state = noise_lines;
}

-- A decoder that has read the header line of `b` and `part` of what follows it.
abbrev pub header_at : List ℕ → List ℕ → ℕ → Decoder
header_at b part scanned = record {
  buffer = header_line b ++ 10 ∷ part;
  line = suc (length (header_line b));
  scanned = scanned;
  state = header_block 0 (length b);
}

abbrev pub body_at : List ℕ → List ℕ → Decoder
body_at b part = record { buffer = part; line = 0; scanned = 0; state = body_bytes (length b) }

blank_text :
    (hl zs : List ℕ)
    → drop (suc (length hl)) (take (suc (suc (length hl))) (hl ++ 10 ∷ 13 ∷ 10 ∷ zs)) ≡ 13 ∷ []
blank_text [] zs = refl
blank_text (c ∷ hl) zs = blank_text hl zs

after_blank : (hl zs : List ℕ) → drop (suc (suc (suc (length hl)))) (hl ++ 10 ∷ 13 ∷ 10 ∷ zs) ≡ zs
after_blank [] zs = refl
after_blank (c ∷ hl) zs = after_blank hl zs

scan_ends :
    (rounds : ℕ) (buffer : List ℕ) (line scanned : ℕ) (state : State) (fresh : List ℕ)
    (items : List Item)
    → let d : Decoder = record { buffer = buffer; line = line; scanned = scanned; state = state } in
      drop scanned buffer ≡ fresh
      → NoLf fresh
      → scan_from (suc rounds) d items ≡ some (settle d items)
unfolding scan_from
scan_ends rounds buffer line scanned state fresh items h n =
    rw (h, position-none fresh n, scan_from) refl

scan_finds :
    (rounds : ℕ) (buffer : List ℕ) (line scanned : ℕ) (state : State) (ws zs : List ℕ)
    (items : List Item)
    → let d : Decoder = record { buffer = buffer; line = line; scanned = scanned; state = state } in
      drop scanned buffer ≡ ws ++ 10 ∷ zs
      → NoLf ws
      → scan_from (suc rounds) d items
        ≡ resume
            (scan_from rounds)
            d
            (suc (scanned + length ws))
            (line_rules d (scanned + length ws) items)
unfolding scan_from
scan_finds rounds buffer line scanned state ws zs items h n =
    rw (h, position-here ws zs n, scan_from) refl

release_none :
    (buffer : List ℕ) (line scanned : ℕ) (state state' : State)
    → release (record { buffer = buffer; line = line; scanned = scanned; state = state }) 0 state'
      ≡ record { buffer = buffer; line = line; scanned = scanned; state = state' }
unfolding release
release_none buffer line scanned state state' =
    let e : line - 0 ≡ line = omega arith in
    let f : scanned - 0 ≡ scanned = omega arith in rw (e, f) refl

settle_between :
    (buffer : List ℕ) (scanned : ℕ) (items : List Item)
    → length buffer ≤ line_limit
    → settle (between_at buffer scanned) items ≡ (between_at buffer (length buffer), items)
unfolding settle partial_header compact
settle_between buffer scanned items h =
    ap (λ r. (compact r.0, r.1))
      (noise_kept buffer 0 items (le→ltb line_limit (length buffer - 0) (omega arith)))
    ∙ ap (λ d. (d, items)) (release_none buffer 0 (length buffer) noise_lines noise_lines)

settle_header :
    (b part : List ℕ) (scanned : ℕ) (items : List Item)
    → length (header_line b ++ 10 ∷ part) ≤ header_limit
    → settle (header_at b part scanned) items
      ≡ (header_at b part (length (header_line b ++ 10 ∷ part)), items)
unfolding settle partial_noise compact
settle_header b part scanned items h =
    let whole = header_line b ++ 10 ∷ part in
    let line = suc (length (header_line b)) in
    ap (λ r. (let q = partial_noise r.0 r.1 in (compact q.0, q.1)))
      (header_kept whole line 0 (length b) items
        (le→ltb header_limit (length whole - 0) (omega arith)))
    ∙ ap (λ d. (d, items))
        (release_none whole line (length whole) (header_block 0 (length b))
          (header_block 0 (length b)))

-- Between the lines, a scan without a line end keeps what it has.
pub scan_between_ends :
    (rounds : ℕ) (seen fresh : List ℕ) (items : List Item)
    → NoLf fresh
    → length (seen ++ fresh) ≤ line_limit
    → scan_from (suc rounds) (between_at (seen ++ fresh) (length seen)) items
      ≡ some (between_at (seen ++ fresh) (length (seen ++ fresh)), items)
scan_between_ends rounds seen fresh items n h =
    scan_ends rounds (seen ++ fresh) 0 (length seen) noise_lines fresh items
      (drop-append_of_eq (length seen) seen fresh refl) n
    ∙ ap some (settle_between (seen ++ fresh) (length seen) items h)

found_length :
    (rounds : ℕ) (b buffer : List ℕ) (scanned end : ℕ) (zs : List ℕ) (items : List Item)
    → buffer ≡ header_line b ++ 10 ∷ zs
    → end ≡ length (header_line b)
    → length b < 2 ^ 64
    → resume
        (scan_from rounds)
        (between_at buffer scanned)
        (suc end)
        (line_rules (between_at buffer scanned) end items)
      ≡ scan_from rounds (header_at b zs (suc (length (header_line b)))) items
unfolding line_rules noise_rules resume
found_length rounds b buffer scanned end zs items f e h =
    let text : take (length (header_line b)) (header_line b ++ 10 ∷ zs) ≡ header_line b =
      take-append_of_eq _ (header_line b) (10 ∷ zs) refl in
    rw (f, e, text, classify-header_line b h) refl

-- Between the lines, a scan that meets the end of a header line reads it.
pub scan_between_finds :
    (rounds : ℕ) (b seen ws zs : List ℕ) (items : List Item)
    → header_line b ≡ seen ++ ws
    → NoLf ws
    → length b < 2 ^ 64
    → scan_from (suc rounds) (between_at (seen ++ (ws ++ 10 ∷ zs)) (length seen)) items
      ≡ scan_from rounds (header_at b zs (suc (length (header_line b)))) items
scan_between_finds rounds b seen ws zs items e n h =
    scan_finds rounds (seen ++ (ws ++ 10 ∷ zs)) 0 (length seen) noise_lines ws zs items
      (drop-append_of_eq (length seen) seen (ws ++ 10 ∷ zs) refl) n
    ∙ found_length rounds b (seen ++ (ws ++ 10 ∷ zs)) (length seen) (length seen + length ws) zs
        items (sym (append_assoc seen ws (10 ∷ zs)) ∙ ap (◌++ 10 ∷ zs) (sym e))
        (sym (length-append seen ws) ∙ ap length (sym e)) h

-- After a header line, a scan without a line end keeps what it has.
pub scan_header_ends :
    (rounds : ℕ) (b seen fresh : List ℕ) (items : List Item)
    → NoLf fresh
    → length (header_line b ++ 10 ∷ (seen ++ fresh)) ≤ header_limit
    → scan_from
        (suc rounds)
        (header_at b (seen ++ fresh) (length (header_line b ++ 10 ∷ seen)))
        items
      ≡ some (header_at b (seen ++ fresh) (length (header_line b ++ 10 ∷ (seen ++ fresh))), items)
scan_header_ends rounds b seen fresh items n h =
    scan_ends rounds (header_line b ++ 10 ∷ (seen ++ fresh)) (suc (length (header_line b)))
      (length (header_line b ++ 10 ∷ seen)) (header_block 0 (length b)) fresh items
      (drop-append2_of_eq (length (header_line b ++ 10 ∷ seen)) (header_line b) (10 ∷ seen) fresh
        (length-append (header_line b) (10 ∷ seen)))
      n
    ∙ ap some (settle_header b (seen ++ fresh) (length (header_line b ++ 10 ∷ seen)) items h)

le→leb : (a b : ℕ) → a ≤ b → leb a b ≡ true
le→leb a b h = ground arith

enter_decodes :
    (n : ℕ) (d : Decoder) (rest : List ℕ) (items : List Item)
    → n ≤ body_limit
    → drop d.line d.buffer ≡ rest
    → enter d n items ≡ enter_body n rest items
unfolding enter size_of
enter_decodes n d rest items h e = rw (le→leb n body_limit h, e, enter) refl

found_blank :
    (rounds : ℕ) (b : List ℕ) (scanned end : ℕ) (part zs : List ℕ) (items : List Item)
    → part ≡ 13 ∷ 10 ∷ zs
    → end ≡ suc (suc (length (header_line b)))
    → length b ≤ body_limit
    → resume
        (scan_from rounds)
        (header_at b part scanned)
        (suc end)
        (line_rules (header_at b part scanned) end items)
      ≡ resume
          (scan_from rounds)
          (header_at b part scanned)
          (suc end)
          (entered (enter_body (length b) zs items))
unfolding line_rules header_rules classify strip
found_blank rounds b scanned end part zs items f e h =
    let d : Decoder = record {
      buffer = header_line b ++ 10 ∷ 13 ∷ 10 ∷ zs;
      line = suc (suc (suc (length (header_line b))));
      scanned = suc (suc (suc (length (header_line b))));
      state = header_block 0 (length b);
    } in
    rw (f, e, blank_text (header_line b) zs)
      (ap
        (λ r.
          resume (scan_from rounds) (header_at b (13 ∷ 10 ∷ zs) scanned)
            (suc (suc (suc (length (header_line b))))) (entered r))
        (enter_decodes (length b) d zs items h (after_blank (header_line b) zs)))

-- The blank line after a header line enters the body.
pub scan_header_finds :
    (rounds : ℕ) (b seen ws zs : List ℕ) (items : List Item)
    → 13 ∷ [] ≡ seen ++ ws
    → NoLf ws
    → length b ≤ body_limit
    → let d = header_at b (seen ++ (ws ++ 10 ∷ zs)) (length (header_line b ++ 10 ∷ seen)) in
      scan_from (suc rounds) d items
      ≡ resume
          (scan_from rounds)
          d
          (suc (length (header_line b ++ 10 ∷ seen) + length ws))
          (entered (enter_body (length b) zs items))
scan_header_finds rounds b seen ws zs items e n h =
    let from = length (header_line b ++ 10 ∷ seen) in
    let size = length-append (header_line b) (10 ∷ seen) in
    let two : length seen + length ws ≡ 1 = sym (length-append seen ws) ∙ ap length (sym e) in
    scan_finds rounds (header_line b ++ 10 ∷ (seen ++ (ws ++ 10 ∷ zs)))
      (suc (length (header_line b))) from (header_block 0 (length b)) ws zs items
      (drop-append2_of_eq from (header_line b) (10 ∷ seen) (ws ++ 10 ∷ zs) size) n
    ∙ found_blank rounds b from (from + length ws) (seen ++ (ws ++ 10 ∷ zs)) zs items
        (sym (append_assoc seen ws (10 ∷ zs)) ∙ ap (◌++ 10 ∷ zs) (sym e)) (omega (arith, size, two))
        h
