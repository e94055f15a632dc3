-- ===== src/Snippet/Adapt.antt =====
-- `Snippet::for_insertion` (crates/matcha-core/src/intel/snippet.rs): line ends, indentation and tabs of
-- a snippet at its place of insertion. `swallow` says that the char at hand is the LF of a CRLF, which
-- the source takes together with its CR.
use matcha.Common.{
  ℕ, zero, suc, ◌+◌, Bool, true, false, ◌&&◌, ◌||◌, Option, none, some, List, [], ◌∷◌, ◌++◌, ◌==◌,
  if◌then◌else◌,
}
use matcha.Snippet.{Snippet, TabStop, text_len, len_utf8}

-- `" ".repeat(n)`
unfoldable pub spaces : ℕ → List ℕ
spaces zero = []
spaces (suc n) = 32 ∷ spaces n

-- A CR, at a char that is followed by LF.
unfoldable pub is_crlf : ℕ → List ℕ → Bool
is_crlf c [] = false
is_crlf c (d ∷ ds) = (c == 13) && (d == 10)

-- What is put out for a char.
unfoldable pub adapted : List ℕ → List ℕ → ℕ → List ℕ
adapted indent tab c =
    if (c == 13) || (c == 10) then 10 ∷ indent else if c == 9 then tab else c ∷ []

-- The text put out, and the output offset of each input offset that the loop stands at.
pub record Output : Type 0 where
  pub text : List ℕ
  pub marks : List (ℕ × ℕ)

-- The loop, at the input offset `at` with `out` put out so far.
unfoldable pub adapt_from : List ℕ → List ℕ → Bool → ℕ → List ℕ → List ℕ → Output
unfolding is_crlf adapted text_len len_utf8
adapt_from indent tab swallow at out [] = record { text = out; marks = (at, text_len out) ∷ [] }
adapt_from indent tab true at out (c ∷ cs) = adapt_from indent tab false (at + len_utf8 c) out cs
adapt_from indent tab false at out (c ∷ cs) =
    let rest =
      adapt_from indent tab (is_crlf c cs) (at + len_utf8 c) (out ++ adapted indent tab c) cs in
    record rest { marks = (at, text_len out) ∷ rest.marks }

unfoldable pub lookup : List (ℕ × ℕ) → ℕ → Option ℕ
lookup [] off = none
lookup ((k, v) ∷ ms) off = let rest = lookup ms off in if k == off then some v else rest

-- An offset that is not marked stays.
unfoldable pub remap : List (ℕ × ℕ) → ℕ → ℕ
unfolding lookup
remap ms off = elim (lookup ms off) [ none ↦ off | some v ↦ v ]

unfoldable pub remap_stops : List (ℕ × ℕ) → List TabStop → List TabStop
unfolding remap
remap_stops ms [] = []
remap_stops ms (s ∷ ss) =
    record s { start = remap ms s.start; end = remap ms s.end } ∷ remap_stops ms ss

unfoldable pub for_insertion : Snippet → List ℕ → ℕ → Snippet
unfolding adapt_from remap_stops spaces
for_insertion s indent indent_size =
    let output = adapt_from indent (spaces indent_size) false 0 [] s.text in
    record { text = output.text; stops = remap_stops output.marks s.stops }
