-- ===== src/Snippet.antt =====
-- The snippet parser and its insertion transform (crates/matcha-core/src/intel/snippet.rs). A char is
-- its code point and a `String` the list of its chars, measured in UTF-8 bytes. A body has fewer than
-- 2 ^ 32 bytes, so the casts of a length to u32 are left out. The parser's index into the body is the
-- list of the chars from there on.
pub mod Reading
pub mod Rounds
pub mod Stops
pub mod Literal
pub mod Defaults
pub mod Adapt
pub mod Adapted
use matcha.Common.{
  ℕ, zero, suc, ◌+◌, ◌*◌, ◌-◌, Bool, true, false, ◌&&◌, ◌||◌, Option, none, some, List, [], ◌∷◌,
  ◌++◌, map, ltb, leb, ◌==◌, if◌then◌else◌, u32_max, length,
}

pub record TabStop : Type 0 where
  pub index : ℕ
  -- The ends of `range`.
  pub start : ℕ
  pub end : ℕ
  pub choices : List (List ℕ)

pub record Snippet : Type 0 where
  pub text : List ℕ
  pub stops : List TabStop

-- The messages of `Malformed`.
pub data Reason : Type 0 where
  expected_close_colon_or_bar : Reason
  without_an_index : Reason
  index_out_of_range : Reason
  unterminated_default : Reason
  unterminated_choices : Reason
  choice_not_closed : Reason

pub data SnippetError : Type 0 where
  duplicate_index : ℕ → SnippetError
  nesting : SnippetError
  malformed : Reason → SnippetError

pub data Result (A : Type 0) : Type 0 where
  ok : A → Result A
  err : SnippetError → Result A

-- The `?` operator: what follows a call that may fail.
unfoldable pub after : {A B : Type 0} → Result A → (A → Result B) → Result B
after (ok a) f = f a
after (err e) f = err e

-- `u16::MAX`, the index of the final stop.
abbrev pub final_index : ℕ
final_index = 65535

unfoldable pub is_final : TabStop → Bool
is_final s = s.index == final_index

unfoldable pub is_digit : ℕ → Bool
is_digit c = leb 48 c && leb c 57

-- `$`, `}` and `\`.
unfoldable pub is_special : ℕ → Bool
is_special c = (c == 36) || (c == 125) || (c == 92)

-- The guard of the escapes: a `\` before a special character.
unfoldable pub is_escape : ℕ → List ℕ → Bool
unfolding is_special
is_escape c [] = false
is_escape c (d ∷ ds) = (c == 92) && is_special d

-- `char::len_utf8`
unfoldable pub len_utf8 : ℕ → ℕ
len_utf8 c = if ltb c 128 then 1 else if ltb c 2048 then 2 else if ltb c 65536 then 3 else 4

-- `str::len`
unfoldable pub text_len : List ℕ → ℕ
unfolding len_utf8
text_len [] = 0
text_len (c ∷ cs) = len_utf8 c + text_len cs

-- The run of digits, the number that it is read as, and what follows it.
unfoldable pub digits : List ℕ → List ℕ
unfolding is_digit
digits [] = []
digits (c ∷ cs) = elim (is_digit c) [ true ↦ c ∷ digits cs | false ↦ [] ]

unfoldable pub after_digits : List ℕ → List ℕ
unfolding is_digit
after_digits [] = []
after_digits (c ∷ cs) = elim (is_digit c) [ true ↦ after_digits cs | false ↦ c ∷ cs ]

unfoldable pub number : ℕ → List ℕ → ℕ
number n [] = n
number n (c ∷ cs) = number (n * 10 + (c - 48)) cs

-- The checks of `read_index` on a number: `parse::<u32>` and `u16::try_from` fail above their ranges.
unfoldable pub to_index : ℕ → Result ℕ
to_index n =
    if ltb u32_max n
    then err (malformed index_out_of_range)
    else if n == 0
    then ok final_index
    else if ltb 65535 n
    then err (malformed index_out_of_range)
    else ok n

unfoldable pub read_index : List ℕ → Result (ℕ × List ℕ)
unfolding digits after_digits number to_index after
read_index cs = elim (digits cs) [
  | [] ↦ err (malformed without_an_index)
  | d ∷ ds ↦ after (to_index (number 0 (d ∷ ds))) (λ n. ok (n, after_digits cs))
]

-- The text grown by the default, and what follows the closing brace. `bare` says that a `\` before took
-- the next char as it is: the source takes both in one round.
unfoldable pub read_default : Bool → List ℕ → List ℕ → Result (List ℕ × List ℕ)
unfolding is_escape
read_default bare [] text = err (malformed unterminated_default)
read_default true (c ∷ cs) text = read_default false cs (text ++ c ∷ [])
read_default false (c ∷ cs) text = elim (is_escape c cs) [
  | true ↦ read_default true cs text
  | false ↦ elim (c == 125) [
    | true ↦ ok (text, cs)
    | false ↦ elim (c == 36) [ true ↦ err nesting | false ↦ read_default false cs (text ++ c ∷ []) ]
  ]
]

-- After the `|` of a choice: a `}` must follow.
unfoldable pub close_choices : List ℕ → List (List ℕ) → Result (List (List ℕ) × List ℕ)
close_choices [] choices = err (malformed choice_not_closed)
close_choices (c ∷ cs) choices =
    if c == 125 then ok (choices, cs) else err (malformed choice_not_closed)

-- The choices, the text of the present one last, and what follows the closing `|}`.
unfoldable pub read_choices :
    Bool → List ℕ → List (List ℕ) → List ℕ → Result (List (List ℕ) × List ℕ)
unfolding is_escape close_choices
read_choices bare [] choices cur = err (malformed unterminated_choices)
read_choices true (c ∷ cs) choices cur = read_choices false cs choices (cur ++ c ∷ [])
read_choices false (c ∷ cs) choices cur = elim (is_escape c cs) [
  | true ↦ read_choices true cs choices cur
  | false ↦ elim (c == 44) [
    | true ↦ read_choices false cs (choices ++ cur ∷ []) []
    | false ↦ elim (c == 124) [
      | true ↦ close_choices cs (choices ++ cur ∷ [])
      | false ↦ read_choices false cs choices (cur ++ c ∷ [])
    ]
  ]
]

unfoldable pub contains : List ℕ → ℕ → Bool
contains [] n = false
contains (m ∷ ms) n = (m == n) || contains ms n

-- What the parser has so far: the text, the stops and the indices seen.
pub record Parsed : Type 0 where
  pub text : List ℕ
  pub stops : List TabStop
  pub seen : List ℕ

unfoldable pub push_stop : Parsed → TabStop → Result Parsed
unfolding contains
push_stop p s =
    if contains p.seen s.index
    then err (duplicate_index (if s.index == final_index then 0 else s.index))
    else ok (record p { stops = p.stops ++ s ∷ []; seen = p.seen ++ s.index ∷ [] })

-- The stop at the text's end from `start` on.
unfoldable pub stop_from : ℕ → ℕ → Parsed → List (List ℕ) → TabStop
unfolding text_len
stop_from index start p choices = record {
  index = index;
  start = start;
  end = text_len p.text;
  choices = choices;
}

unfoldable pub first_choice : List (List ℕ) → List ℕ
first_choice [] = []
first_choice (c ∷ cs) = c

-- A stop pushed, with what follows it.
unfoldable pub pushed : Parsed → TabStop → List ℕ → Result (Parsed × List ℕ)
unfolding push_stop after
pushed p s cs = after (push_stop p s) (λ p'. ok (p', cs))

-- The three forms after `${N`.
unfoldable pub braced : Parsed → ℕ → List ℕ → Result (Parsed × List ℕ)
unfolding pushed read_default read_choices stop_from first_choice after text_len
braced p index [] = err (malformed expected_close_colon_or_bar)
braced p index (c ∷ cs) =
    if c == 125
    then pushed p (stop_from index (text_len p.text) p []) cs
    else if c == 58
    then after (read_default false cs p.text) (λ (text, rest).
      let grown : Parsed = record p { text = text } in
      pushed grown (stop_from index (text_len p.text) grown []) rest)
    else if c == 124
    then after (read_choices false cs [] []) (λ (choices, rest).
      let grown : Parsed = record p { text = p.text ++ first_choice choices } in
      pushed grown (stop_from index (text_len p.text) grown choices) rest)
    else err (malformed expected_close_colon_or_bar)

-- The match of the loop on the char after a `$`, which is literal before anything but `{` or a digit.
unfoldable pub dollar : Parsed → List ℕ → Result (Parsed × List ℕ)
unfolding braced pushed read_index stop_from after is_digit text_len
dollar p [] = ok (record p { text = p.text ++ 36 ∷ [] }, [])
dollar p (d ∷ ds) =
    if d == 123
    then after (read_index ds) (λ (index, rest). braced p index rest)
    else if is_digit d
    then after (read_index (d ∷ ds))
        (λ (index, rest). pushed p (stop_from index (text_len p.text) p []) rest)
    else ok (record p { text = p.text ++ 36 ∷ [] }, d ∷ ds)

-- One round of the loop, at the char `c` with `cs` after it.
unfoldable pub round : Parsed → ℕ → List ℕ → Result (Parsed × List ℕ)
unfolding dollar is_escape
round p c [] = if c == 36 then dollar p [] else ok (record p { text = p.text ++ c ∷ [] }, [])
round p c (d ∷ ds) =
    if is_escape c (d ∷ ds)
    then ok (record p { text = p.text ++ d ∷ [] }, ds)
    else if c == 36
    then dollar p (d ∷ ds)
    else ok (record p { text = p.text ++ c ∷ [] }, d ∷ ds)

-- The loop, `none` when the rounds run out.
unfoldable pub parse_from : ℕ → Parsed → List ℕ → Option (Result Parsed)
unfolding round
parse_from rounds p [] = some (ok p)
parse_from zero p (c ∷ cs) = none
parse_from (suc rounds) p (c ∷ cs) = elim (round p c cs) [
  | err e ↦ some (err e)
  | ok (p', rest) ↦ parse_from rounds p' rest
]

-- `sort_by_key(|s| s.index)`, which keeps stops of one index in order.
unfoldable pub insert_stop : TabStop → List TabStop → List TabStop
insert_stop s [] = s ∷ []
insert_stop s (t ∷ ts) = if leb s.index t.index then s ∷ t ∷ ts else t ∷ insert_stop s ts

unfoldable pub sort_stops : List TabStop → List TabStop
unfolding insert_stop
sort_stops [] = []
sort_stops (s ∷ ss) = insert_stop s (sort_stops ss)

unfoldable pub finish : Parsed → Snippet
unfolding contains sort_stops stop_from text_len
finish p =
    if contains p.seen final_index
    then record { text = p.text; stops = sort_stops p.stops }
    else record {
      text = p.text;
      stops = sort_stops (p.stops ++ stop_from final_index (text_len p.text) p [] ∷ []);
    }

abbrev pub nothing_parsed : Parsed
nothing_parsed = record { text = []; stops = []; seen = [] }

-- As many rounds as there are chars: each round takes one.
unfoldable pub parse : List ℕ → Option (Result Snippet)
unfolding parse_from finish after
parse body = elim (parse_from (length body) nothing_parsed body) [
  | none ↦ none
  | some r ↦ some (after r (λ p. ok (finish p)))
]
