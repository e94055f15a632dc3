-- ===== src/Header.antt =====
-- The lines of the LSP base protocol (crates/matcha-lsp/src/transport/frame.rs): what one line is, the
-- header that a body is framed with, and what a noise line keeps. Bytes are numbers, and a noise line is
-- the bytes that `from_utf8_lossy` is given. A `usize` has 64 bits.
pub mod Decimal
use matcha.Common.{
  ℕ, zero, suc, ◌+◌, ◌-◌, ◌*◌, ◌/◌, ◌%◌, ◌^◌, Bool, true, false, not, ◌&&◌, ◌||◌, Option, none,
  some, List, [], ◌∷◌, ◌++◌, reverse, length, take, drop, ltb, leb, ◌==◌, if◌then◌else◌,
}

abbrev pub header_limit : ℕ
header_limit = 8 * 1024

abbrev pub line_limit : ℕ
line_limit = 64 * 1024

abbrev pub body_limit : ℕ
body_limit = 64 * 1024 * 1024

abbrev pub skip_limit : ℕ
skip_limit = 1024 * 1024 * 1024

pub data Line : Type 0 where
  blank : Line
  content_length : ℕ → Line
  header : Line
  other : Line

pub data Size : Type 0 where
  decode : ℕ → Size
  skip corrupt : Size

-- `Size::of`
unfoldable pub size_of : ℕ → Size
size_of length =
    if leb length body_limit then decode length else if leb length skip_limit then skip else corrupt

-- `strip_suffix(b"\r")`
unfoldable pub strip : List ℕ → List ℕ
strip [] = []
strip (c ∷ []) = if c == b'\r' then [] else c ∷ []
strip (c ∷ d ∷ cs) = c ∷ strip (d ∷ cs)

-- `iter().position(|&b| b == byte)`
unfoldable pub position : ℕ → List ℕ → Option ℕ
position byte [] = none
position byte (c ∷ cs) = elim (c == byte) [
  | true ↦ some 0
  | false ↦ elim (position byte cs) [ none ↦ none | some i ↦ some (suc i) ]
]

-- `u8::is_ascii_whitespace`
unfoldable pub is_ascii_whitespace : ℕ → Bool
is_ascii_whitespace c = (c == 9) || (c == 10) || (c == 12) || (c == 13) || (c == 32)

unfoldable pub trim_ascii_start : List ℕ → List ℕ
unfolding is_ascii_whitespace
trim_ascii_start [] = []
trim_ascii_start (c ∷ cs) = elim (is_ascii_whitespace c) [
  | true ↦ trim_ascii_start cs
  | false ↦ c ∷ cs
]

unfoldable pub trim_ascii : List ℕ → List ℕ
unfolding trim_ascii_start
trim_ascii cs = reverse (trim_ascii_start (reverse (trim_ascii_start cs)))

unfoldable pub to_lower : ℕ → ℕ
to_lower c = if leb b'A' c && leb c b'Z' then c + 32 else c

unfoldable pub eq_ignore_ascii_case : List ℕ → List ℕ → Bool
unfolding to_lower
eq_ignore_ascii_case [] [] = true
eq_ignore_ascii_case [] (d ∷ ds) = false
eq_ignore_ascii_case (c ∷ cs) [] = false
eq_ignore_ascii_case (c ∷ cs) (d ∷ ds) = (to_lower c == to_lower d) && eq_ignore_ascii_case cs ds

-- The bytes of the white space `char` that the text begins with, 0 when it begins with none:
-- U+0009 to U+000D and U+0020, U+0085 and U+00A0, U+1680, U+2000 to U+200A, U+2028, U+2029, U+202F,
-- U+205F and U+3000.
unfoldable pub three_wide : ℕ → ℕ → ℕ → Bool
three_wide c d e =
    ((c == 225) && (d == 154) && (e == 128))
    || ((c == 226)
        && (d == 128)
        && ((leb 128 e && leb e 138) || (e == 168) || (e == 169) || (e == 175)))
    || ((c == 226) && (d == 129) && (e == 159))
    || ((c == 227) && (d == 128) && (e == 128))

unfoldable pub two_wide : ℕ → ℕ → Bool
two_wide c d = (c == 194) && ((d == 133) || (d == 160))

unfoldable pub one_wide : ℕ → Bool
one_wide c = (leb 9 c && leb c 13) || (c == 32)

unfoldable pub white_width : List ℕ → ℕ
unfolding one_wide two_wide three_wide
white_width [] = 0
white_width (c ∷ []) = if one_wide c then 1 else 0
white_width (c ∷ d ∷ []) = if one_wide c then 1 else if two_wide c d then 2 else 0
white_width (c ∷ d ∷ e ∷ cs) =
    if one_wide c then 1 else if two_wide c d then 2 else if three_wide c d e then 3 else 0

-- The same for a text that is read backwards.
unfoldable pub white_width_back : List ℕ → ℕ
unfolding one_wide two_wide three_wide
white_width_back [] = 0
white_width_back (e ∷ []) = if one_wide e then 1 else 0
white_width_back (e ∷ d ∷ []) = if one_wide e then 1 else if two_wide d e then 2 else 0
white_width_back (e ∷ d ∷ c ∷ cs) =
    if one_wide e then 1 else if two_wide d e then 2 else if three_wide c d e then 3 else 0

-- White space goes char by char, of which there are at most as many as bytes.
unfoldable pub trim_by : (List ℕ → ℕ) → ℕ → List ℕ → List ℕ
trim_by width zero cs = cs
trim_by width (suc rounds) cs = elim (width cs) [
  | zero ↦ cs
  | suc n ↦ trim_by width rounds (drop (suc n) cs)
]

-- `str::trim`
unfoldable pub trim : List ℕ → List ℕ
unfolding white_width white_width_back trim_by
trim cs =
    let front = trim_by white_width (length cs) cs in
    reverse (trim_by white_width_back (length front) (reverse front))

unfoldable pub is_digit : ℕ → Bool
is_digit c = leb b'0' c && leb c b'9'

-- The digits of a `u64` after `n`, `none` on another char and past the range.
unfoldable pub parse_digits : ℕ → List ℕ → Option ℕ
unfolding is_digit
parse_digits n [] = some n
parse_digits n (c ∷ cs) = elim (is_digit c && ltb (n * 10 + (c - b'0')) (2 ^ 64)) [
  | true ↦ parse_digits (n * 10 + (c - b'0')) cs
  | false ↦ none
]

-- `str::parse::<u64>`, which takes a leading `+`.
unfoldable pub parse_u64 : List ℕ → Option ℕ
unfolding parse_digits
parse_u64 [] = none
parse_u64 (c ∷ []) = parse_digits 0 (c ∷ [])
parse_u64 (c ∷ d ∷ cs) = if c == b'+' then parse_digits 0 (d ∷ cs) else parse_digits 0 (c ∷ d ∷ cs)

-- `Content-Length`. Names are compared without regard to case.
abbrev pub name_bytes : List ℕ
name_bytes =
    b'C' ∷ b'o' ∷ b'n' ∷ b't' ∷ b'e' ∷ b'n' ∷ b't' ∷ b'-' ∷ b'L' ∷ b'e' ∷ b'n' ∷ b'g' ∷ b't' ∷ b'h'
    ∷ []

-- A value that is not UTF-8 is no number either way: trimming takes whole chars only, so what is left of
-- it is not all digits.
unfoldable pub classify_value : List ℕ → Line
unfolding trim parse_u64
classify_value value = elim (parse_u64 (trim value)) [ none ↦ other | some n ↦ content_length n ]

unfoldable pub classify_at : List ℕ → ℕ → Line
unfolding trim_ascii eq_ignore_ascii_case classify_value
classify_at line colon = elim (trim_ascii (take colon line)) [
  | [] ↦ other
  | c ∷ cs ↦
      if eq_ignore_ascii_case (c ∷ cs) name_bytes
      then classify_value (drop (suc colon) line)
      else header
]

unfoldable pub classify : List ℕ → Line
unfolding position classify_at
classify [] = blank
classify (c ∷ cs) = elim (position b':' (c ∷ cs)) [
  | none ↦ other
  | some colon ↦ classify_at (c ∷ cs) colon
]

-- The bytes of a noise line, `none` when it is blank.
unfoldable pub noise : List ℕ → Option (List ℕ)
unfolding strip
noise line = elim (take line_limit (strip line)) [ [] ↦ none | c ∷ cs ↦ some (c ∷ cs) ]

-- `format!("{}")` of a number: its decimal digits, of which a `u64` has at most twenty.
unfoldable pub decimal_from : ℕ → ℕ → List ℕ → List ℕ
decimal_from zero n ds = ds
decimal_from (suc rounds) n ds =
    let more = decimal_from rounds (n / 10) ((b'0' + n % 10) ∷ ds) in
    if ltb n 10 then (b'0' + n) ∷ ds else more

unfoldable pub decimal : ℕ → List ℕ
unfolding decimal_from
decimal n = decimal_from 20 n []

-- The header line up to its line end, and the frame of a body.
unfoldable pub length_line : ℕ → List ℕ
unfolding decimal
length_line n = name_bytes ++ (b':' ∷ b' ' ∷ decimal n)

unfoldable pub encode : List ℕ → List ℕ
unfolding length_line
encode body = length_line (length body) ++ (b'\r' ∷ b'\n' ∷ b'\r' ∷ b'\n' ∷ body)
