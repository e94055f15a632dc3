-- ===== src/Tests/Snippets.antt =====
-- Snippets at concrete inputs.
use matcha.Common.{ℕ, ◌≡◌, refl, some, List, [], ◌∷◌, ◌++◌, false}
use matcha.Snippet.{
  Snippet, Result, text_len, final_index, ok, err, duplicate_index, nesting, parse, malformed,
  unterminated_default,
}
use matcha.Snippet.Adapt.{for_insertion, spaces, remap, adapt_from}
use matcha.Snippet.Adapted.{for_insertion-expand, remap-expand, expand, splits_crlf}
use matcha.Buffer.{cr_to_lf, crlf_to_lf}
use matcha.Snippet.Stops.{parse-InOrder, InOrder}
use matcha.Snippet.Reading.{Holds}
use matcha.Snippet.Defaults.{opening, parse-default}
use matcha.Snippet.Literal.{parse-escape, escape}

-- `a${1:b}$2`
abbrev body : List ℕ
body = 97 ∷ 36 ∷ 123 ∷ 49 ∷ 58 ∷ 98 ∷ 125 ∷ 36 ∷ 50 ∷ []

parse_once :
    parse body
    ≡ some (
        ok (record {
          text = 97 ∷ 98 ∷ [];
          stops =
              record { index = 1; start = 1; end = 2; choices = [] }
              ∷ record { index = 2; start = 2; end = 2; choices = [] }
              ∷ record { index = 65535; start = 2; end = 2; choices = [] }
              ∷ [];
        }))
unfolding parse
parse_once = refl

-- `$1$1` and `${1:$2}`
duplicate_once : parse (36 ∷ 49 ∷ 36 ∷ 49 ∷ []) ≡ some (err (duplicate_index 1))
unfolding parse
duplicate_once = refl

nesting_once : parse (36 ∷ 123 ∷ 49 ∷ 58 ∷ 36 ∷ 50 ∷ 125 ∷ []) ≡ some (err nesting)
unfolding parse
nesting_once = refl

-- `$65535` is taken for the final stop: `$65535$0` is refused as two final stops.
last_index_once :
    parse (36 ∷ 54 ∷ 53 ∷ 53 ∷ 51 ∷ 53 ∷ 36 ∷ 48 ∷ []) ≡ some (err (duplicate_index 0))
unfolding parse
last_index_once = refl

-- A tab, and a stop over a CR that has its LF after it: the stop's end comes before its start.
split_once :
    for_insertion
      (record {
        text = 9 ∷ 13 ∷ 10 ∷ [];
        stops = record { index = 1; start = 1; end = 2; choices = [] } ∷ [];
      })
      []
      4
    ≡ record {
      text = 32 ∷ 32 ∷ 32 ∷ 32 ∷ 10 ∷ [];
      stops = record { index = 1; start = 4; end = 2; choices = [] } ∷ [];
    }
unfolding for_insertion
split_once = refl

parse-InOrder_example : (r : Result Snippet) × (parse body ≡ some r) × Holds InOrder r
parse-InOrder_example = parse-InOrder body

-- `$a\`
parse-escape_example :
    parse (escape (36 ∷ 97 ∷ 92 ∷ []))
    ≡ some (
        ok (record {
          text = 36 ∷ 97 ∷ 92 ∷ [];
          stops =
              record {
                index = final_index;
                start = text_len (36 ∷ 97 ∷ 92 ∷ []);
                end = text_len (36 ∷ 97 ∷ 92 ∷ []);
                choices = [];
              }
              ∷ [];
        }))
parse-escape_example = parse-escape (36 ∷ 97 ∷ 92 ∷ [])

-- `a`, CRLF, a tab and `b`, at an indentation of two spaces.
abbrev lines : Snippet
lines = record { text = 97 ∷ 13 ∷ 10 ∷ 9 ∷ 98 ∷ []; stops = [] }

for_insertion-expand_example :
    (for_insertion lines (32 ∷ 32 ∷ []) 4).text
    ≡ expand (32 ∷ 32 ∷ []) (spaces 4) (cr_to_lf (crlf_to_lf lines.text))
for_insertion-expand_example = for_insertion-expand lines (32 ∷ 32 ∷ []) 4

-- The offset before the tab.
remap-expand_example :
    remap
      (adapt_from (32 ∷ 32 ∷ []) (spaces 4) false 0 [] ((97 ∷ 13 ∷ 10 ∷ []) ++ (9 ∷ 98 ∷ []))).marks
      (text_len (97 ∷ 13 ∷ 10 ∷ []))
    ≡ text_len (expand (32 ∷ 32 ∷ []) (spaces 4) (cr_to_lf (crlf_to_lf (97 ∷ 13 ∷ 10 ∷ []))))
unfolding splits_crlf matcha.Snippet.Adapt.is_crlf
remap-expand_example = remap-expand (32 ∷ 32 ∷ []) 4 (97 ∷ 13 ∷ 10 ∷ []) (9 ∷ 98 ∷ []) refl

-- `a\$${1:b}`, and with its brace missing or `$2` in its place.
parse-default_example :
    (parse (escape (97 ∷ 36 ∷ []) ++ opening (escape (98 ∷ []) ++ 125 ∷ []))
      ≡ some (
          ok (record {
            text = 97 ∷ 36 ∷ 98 ∷ [];
            stops =
                record {
                  index = 1;
                  start = text_len (97 ∷ 36 ∷ []);
                  end = text_len (97 ∷ 36 ∷ 98 ∷ []);
                  choices = [];
                }
                ∷ record {
                  index = final_index;
                  start = text_len (97 ∷ 36 ∷ 98 ∷ []);
                  end = text_len (97 ∷ 36 ∷ 98 ∷ []);
                  choices = [];
                }
                ∷ [];
          })))
    × (parse (escape (97 ∷ 36 ∷ []) ++ opening (escape (98 ∷ []) ++ []))
        ≡ some (err (malformed unterminated_default)))
    × (parse (escape (97 ∷ 36 ∷ []) ++ opening (escape (98 ∷ []) ++ 36 ∷ 50 ∷ []))
        ≡ some (err nesting))
parse-default_example = parse-default (97 ∷ 36 ∷ []) (98 ∷ []) (50 ∷ [])
