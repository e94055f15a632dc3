-- ===== src/Snippet/Adapted.antt =====
-- The text put in at an insertion is the snippet's, line ends made LF first and indentation and tabs
-- expanded then, and an offset goes to where the text before it ends.
use mathlib.Core.Bool.{true≢false}
use matcha.Common.{
  ℕ, ◌+◌, ◌<◌, ◌≡◌, refl, sym, ap, ◌∙◌, Bool, true, false, ◌&&◌, some, List, [], ◌∷◌, ◌++◌, ◌==◌,
  Bool-cases, arith, inl, inr, if◌then◌else◌, append_assoc, append-nil,
}
use matcha.Snippet.{Snippet, text_len, len_utf8}
use matcha.Buffer.{cr_to_lf, crlf_to_lf, begins_lf}
use matcha.Snippet.Adapt.{is_crlf, adapted, adapt_from, lookup, remap, for_insertion, spaces}

-- Each LF followed by the indentation, and each tab as spaces.
unfoldable pub expanded : List ℕ → List ℕ → ℕ → List ℕ
expanded indent tab c = if c == 10 then 10 ∷ indent else if c == 9 then tab else c ∷ []

unfoldable pub expand : List ℕ → List ℕ → List ℕ → List ℕ
unfolding expanded
expand indent tab [] = []
expand indent tab (c ∷ cs) = expanded indent tab c ++ expand indent tab cs

-- What the loop puts out.
unfoldable pub adapted_text : List ℕ → List ℕ → Bool → List ℕ → List ℕ
adapted_text indent tab swallow [] = []
adapted_text indent tab true (c ∷ cs) = adapted_text indent tab false cs
adapted_text indent tab false (c ∷ cs) =
    adapted indent tab c ++ adapted_text indent tab (is_crlf c cs) cs

adapt_from-text :
    (indent tab : List ℕ) (swallow : Bool) (at : ℕ) (out cs : List ℕ)
    → (adapt_from indent tab swallow at out cs).text ≡ out ++ adapted_text indent tab swallow cs
unfolding adapt_from adapted_text
adapt_from-text indent tab true at out [] = sym (append-nil out)
adapt_from-text indent tab false at out [] = sym (append-nil out)
adapt_from-text indent tab true at out (c ∷ cs) =
    adapt_from-text indent tab false (at + len_utf8 c) out cs
adapt_from-text indent tab false at out (c ∷ cs) =
    adapt_from-text indent tab (is_crlf c cs) (at + len_utf8 c) (out ++ adapted indent tab c) cs
    ∙ append_assoc out (adapted indent tab c) (adapted_text indent tab (is_crlf c cs) cs)

-- The offset between `pre` and `suf` is inside a CRLF.
unfoldable pub splits_crlf : Bool → List ℕ → List ℕ → Bool
splits_crlf swallow [] suf = swallow
splits_crlf true (c ∷ pre) suf = splits_crlf false pre suf
splits_crlf false (c ∷ pre) suf = splits_crlf (is_crlf c (pre ++ suf)) pre suf

len_utf8_pos : (c : ℕ) → 0 < len_utf8 c
unfolding len_utf8
len_utf8_pos c = ground arith

lookup-here : (k v : ℕ) (ms : List (ℕ × ℕ)) → lookup ((k, v) ∷ ms) (k + 0) ≡ some v
unfolding lookup
lookup-here k v ms = let same : (k == k + 0) ≡ true = ground arith in rw (same, lookup) refl

lookup-later :
    (k v : ℕ) (ms : List (ℕ × ℕ)) (off : ℕ) → k < off → lookup ((k, v) ∷ ms) off ≡ lookup ms off
unfolding lookup
lookup-later k v ms off h =
    let differs : (k == off) ≡ false = ground arith in rw (differs, lookup) refl

remap-found : (ms : List (ℕ × ℕ)) (off v : ℕ) → lookup ms off ≡ some v → remap ms off ≡ v
unfolding remap
remap-found ms off v h = rw (h, remap) refl

adapted_text-prefix :
    (indent tab : List ℕ) (c : ℕ) (pre suf : List ℕ)
    → adapted_text indent tab (is_crlf c (pre ++ suf)) pre
      ≡ adapted_text indent tab (is_crlf c pre) pre
unfolding adapted_text is_crlf
adapted_text-prefix indent tab c [] suf = refl
adapted_text-prefix indent tab c (d ∷ pre) suf = refl

lookup-adapt_from :
    (indent tab : List ℕ) (swallow : Bool) (at : ℕ) (out pre suf : List ℕ)
    → splits_crlf swallow pre suf ≡ false
    → lookup (adapt_from indent tab swallow at out (pre ++ suf)).marks (at + text_len pre)
      ≡ some (text_len (out ++ adapted_text indent tab swallow pre))
unfolding adapt_from adapted_text splits_crlf text_len
lookup-adapt_from indent tab true at out [] suf h = absurd (true≢false h)
lookup-adapt_from indent tab false at out [] [] h =
    lookup-here at (text_len out) [] ∙ ap (λ t. some (text_len t)) (sym (append-nil out))
lookup-adapt_from indent tab false at out [] (c ∷ suf) h =
    lookup-here at (text_len out) _ ∙ ap (λ t. some (text_len t)) (sym (append-nil out))
lookup-adapt_from indent tab true at out (c ∷ pre) suf h =
    let on : at + (len_utf8 c + text_len pre) ≡ at + len_utf8 c + text_len pre = omega arith in
    ap (lookup (adapt_from indent tab false (at + len_utf8 c) out (pre ++ suf)).marks) on
    ∙ lookup-adapt_from indent tab false (at + len_utf8 c) out pre suf h
lookup-adapt_from indent tab false at out (c ∷ pre) suf h =
    let next = is_crlf c (pre ++ suf) in
    let grown = out ++ adapted indent tab c in
    let later = (adapt_from indent tab next (at + len_utf8 c) grown (pre ++ suf)).marks in
    let on : at + (len_utf8 c + text_len pre) ≡ at + len_utf8 c + text_len pre = omega arith in
    lookup-later at (text_len out) later (at + (len_utf8 c + text_len pre))
      (omega (arith, len_utf8_pos c))
    ∙ ap (lookup later) on
    ∙ lookup-adapt_from indent tab next (at + len_utf8 c) grown pre suf h
    ∙ ap (λ t. some (text_len t))
        (append_assoc out (adapted indent tab c) (adapted_text indent tab next pre)
          ∙ ap (λ t. out ++ (adapted indent tab c ++ t)) (adapted_text-prefix indent tab c pre suf))

adapted-expanded :
    (indent tab : List ℕ) (c : ℕ)
    → adapted indent tab c ≡ expanded indent tab (if c == 13 then 10 else c)
unfolding adapted expanded
adapted-expanded indent tab c = elim (Bool-cases (c == 13)) [
  | inl e ↦ rw e refl
  | inr e ↦ rw e refl
]

adapted-cr :
    (indent tab : List ℕ) (c : ℕ) → (c == 13) ≡ true → adapted indent tab c ≡ expanded indent tab 10
unfolding adapted expanded
adapted-cr indent tab c h = rw h refl

crlf_to_lf-joined :
    (c d : ℕ) (cs : List ℕ)
    → ((c == 13) && (d == 10)) ≡ true
    → crlf_to_lf (c ∷ d ∷ cs) ≡ 10 ∷ crlf_to_lf cs
unfolding crlf_to_lf begins_lf
crlf_to_lf-joined c d cs h =
    let no : (d == 13) ≡ false = ground arith in
    let d_lf : d ≡ 10 = ground arith in rw (h, no, crlf_to_lf) (ap (◌∷ crlf_to_lf cs) d_lf)

crlf_to_lf-kept :
    (c d : ℕ) (cs : List ℕ)
    → ((c == 13) && (d == 10)) ≡ false
    → crlf_to_lf (c ∷ d ∷ cs) ≡ c ∷ crlf_to_lf (d ∷ cs)
unfolding crlf_to_lf begins_lf
crlf_to_lf-kept c d cs h = rw (h, crlf_to_lf) refl

crlf_to_lf-one : (c : ℕ) → crlf_to_lf (c ∷ []) ≡ c ∷ []
unfolding crlf_to_lf begins_lf
crlf_to_lf-one c = elim (Bool-cases (c == 13)) [
  | inl e ↦ rw (e, crlf_to_lf) refl
  | inr e ↦ rw (e, crlf_to_lf) refl
]

-- What the loop puts out is the text with its line ends as loading makes them, expanded.
adapted_text-expand :
    (indent tab cs : List ℕ)
    → adapted_text indent tab false cs ≡ expand indent tab (cr_to_lf (crlf_to_lf cs))
unfolding adapted_text expand cr_to_lf is_crlf crlf_to_lf
adapted_text-expand indent tab [] = refl
adapted_text-expand indent tab (c ∷ []) =
    ap (◌++ []) (adapted-expanded indent tab c)
    ∙ ap (λ t. expand indent tab (cr_to_lf t)) (sym (crlf_to_lf-one c))
adapted_text-expand indent tab (c ∷ d ∷ cs) = elim (Bool-cases ((c == 13) && (d == 10))) [
  | inl e ↦
      let cr : (c == 13) ≡ true = ground arith in
      let rest = adapted_text-expand indent tab cs in
      ap (λ b. adapted indent tab c ++ adapted_text indent tab b (d ∷ cs)) e
      ∙ ap (◌++ adapted_text indent tab false cs) (adapted-cr indent tab c cr)
      ∙ ap (expanded indent tab 10 ++◌) rest
      ∙ ap (λ t. expand indent tab (cr_to_lf t)) (sym (crlf_to_lf-joined c d cs e))
  | inr e ↦
      let rest = adapted_text-expand indent tab (d ∷ cs) in
      ap (λ b. adapted indent tab c ++ adapted_text indent tab b (d ∷ cs)) e
      ∙ ap (◌++ adapted_text indent tab false (d ∷ cs)) (adapted-expanded indent tab c)
      ∙ ap (expanded indent tab (if c == 13 then 10 else c) ++◌) rest
      ∙ ap (λ t. expand indent tab (cr_to_lf t)) (sym (crlf_to_lf-kept c d cs e))
]

-- The text put in is the snippet's with its line ends normalized as loading does it, each LF followed by
-- the indentation and each tab made spaces.
pub for_insertion-expand :
    (s : Snippet) (indent : List ℕ) (indent_size : ℕ)
    → (for_insertion s indent indent_size).text
      ≡ expand indent (spaces indent_size) (cr_to_lf (crlf_to_lf s.text))
unfolding for_insertion
for_insertion-expand s indent indent_size =
    adapt_from-text indent (spaces indent_size) false 0 [] s.text
    ∙ adapted_text-expand indent (spaces indent_size) s.text

-- An offset of a stop that is not inside a CRLF goes to where the output of the text before it ends.
pub remap-expand :
    (indent : List ℕ) (indent_size : ℕ) (pre suf : List ℕ)
    → splits_crlf false pre suf ≡ false
    → remap (adapt_from indent (spaces indent_size) false 0 [] (pre ++ suf)).marks (text_len pre)
      ≡ text_len (expand indent (spaces indent_size) (cr_to_lf (crlf_to_lf pre)))
remap-expand indent indent_size pre suf h =
    let tab = spaces indent_size in
    let marks = (adapt_from indent tab false 0 [] (pre ++ suf)).marks in
    let found : lookup marks (text_len pre) ≡ some (text_len (adapted_text indent tab false pre)) =
      ap (lookup marks) (omega arith) ∙ lookup-adapt_from indent tab false 0 [] pre suf h in
    remap-found marks (text_len pre) _ found ∙ ap text_len (adapted_text-expand indent tab pre)
