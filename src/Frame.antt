-- ===== src/Frame.antt =====
-- The decoder of the LSP base protocol (crates/matcha-lsp/src/transport/frame.rs). A read is the list of
-- its bytes. `none` stands for a panic or for rounds that run out; slices are `take` and `drop`, whose
-- bounds the invariant of Frame.Reads keeps. A `usize` has 64 bits, so `usize::try_from` succeeds.
pub mod Settled
pub mod Scan
pub mod Reads
pub mod Bytes
pub mod Steps
pub mod Framed
pub mod Wire
pub mod Stream
pub mod Prompt
use matcha.Common.{
  ℕ, zero, suc, ◌+◌, ◌-◌, Bool, true, false, Option, none, some, List, [], ◌∷◌, ◌++◌, length, take,
  drop, min, ltb, leb, ◌==◌, if◌then◌else◌,
}
use matcha.Header.{
  Line, blank, content_length, Size, size_of, strip, position, classify, noise, header_limit,
  line_limit, decode, skip, corrupt, header, other,
}

-- `Noise`, `Overlong`, `Header { start, length }`, `Body { length }`, `Skip { remaining }`, `Corrupt`.
pub data State : Type 0 where
  noise_lines : State
  overlong : State
  header_block : ℕ → ℕ → State
  body_bytes : ℕ → State
  skip_bytes : ℕ → State
  corrupt_stream : State

pub record Decoder : Type 0 where
  pub buffer : List ℕ
  pub line : ℕ
  pub scanned : ℕ
  pub state : State

abbrev pub default : Decoder
default = record { buffer = []; line = 0; scanned = 0; state = noise_lines }

pub data Item : Type 0 where
  body : List ℕ → Item
  noise_line : List ℕ → Item
  skipped : ℕ → Item
  corrupted : ℕ → Item

-- `enter` says whether the scan goes on.
pub data Entered : Type 0 where
  scanning waiting : Decoder → List Item → Entered

-- `items.extend(noise(line).map(Item::Noise))`
unfoldable pub extend_noise : List ℕ → List Item → List Item
unfolding noise
extend_noise line items = elim (noise line) [
  | none ↦ items
  | some text ↦ items ++ noise_line text ∷ []
]

-- `strip_suffix(b"\n").unwrap_or(block)`
unfoldable pub strip_newline : List ℕ → List ℕ
strip_newline [] = []
strip_newline (c ∷ []) = if c == b'\n' then [] else c ∷ []
strip_newline (c ∷ d ∷ cs) = c ∷ strip_newline (d ∷ cs)

unfoldable pub onto_first : ℕ → List (List ℕ) → List (List ℕ)
onto_first c [] = (c ∷ []) ∷ []
onto_first c (l ∷ ls) = (c ∷ l) ∷ ls

-- `split(|&b| b == b'\n')`
unfoldable pub split_lines : List ℕ → List (List ℕ)
unfolding onto_first
split_lines [] = [] ∷ []
split_lines (c ∷ cs) =
    let rest = split_lines cs in if c == b'\n' then [] ∷ rest else onto_first c rest

unfoldable pub extend_all : List (List ℕ) → List Item → List Item
unfolding extend_noise
extend_all [] items = items
extend_all (l ∷ ls) items = extend_all ls (extend_noise l items)

unfoldable pub abandon : List ℕ → ℕ → ℕ → List Item → List Item
unfolding strip_newline split_lines extend_all
abandon buffer start end items =
    extend_all (split_lines (strip_newline (drop start (take end buffer)))) items

-- `enter`, with `rest` what follows the header.
unfoldable pub enter_body : ℕ → List ℕ → List Item → Entered
enter_body length_ rest items =
    if leb length_ (length rest)
    then scanning
        (record { buffer = drop length_ rest; line = 0; scanned = 0; state = noise_lines })
        (items ++ body (take length_ rest) ∷ [])
    else waiting (record { buffer = rest; line = 0; scanned = 0; state = body_bytes length_ }) items

unfoldable pub enter_skip : ℕ → List ℕ → List Item → Entered
enter_skip length_ rest items =
    let dropped = min length_ (length rest) in
    if length_ - dropped == 0
    then scanning
        (record { buffer = drop dropped rest; line = 0; scanned = 0; state = noise_lines })
        (items ++ skipped length_ ∷ [])
    else waiting
        (record {
          buffer = drop dropped rest;
          line = 0;
          scanned = 0;
          state = skip_bytes (length_ - dropped);
        })
        (items ++ skipped length_ ∷ [])

unfoldable pub enter : Decoder → ℕ → List Item → Entered
unfolding enter_body enter_skip size_of
enter d length_ items = elim (size_of length_) [
  | decode n ↦ enter_body n (drop d.line d.buffer) items
  | skip ↦ enter_skip length_ (drop d.line d.buffer) items
  | corrupt ↦
      waiting (record { buffer = []; line = 0; scanned = 0; state = corrupt_stream })
        (items ++ corrupted length_ ∷ [])
]

-- What the rules for one complete line come to.
pub data Ruled : Type 0 where
  -- The scan goes on after the line.
  onward : State → List Item → Ruled
  entered : Entered → Ruled
  unreachable : Ruled

-- The match of the two states on the class of the line.
unfoldable pub noise_rules : Decoder → List ℕ → List Item → Line → Ruled
unfolding extend_noise
noise_rules d text items (content_length n) = onward (header_block d.line n) items
noise_rules d text items blank = onward noise_lines items
noise_rules d text items header = onward noise_lines (extend_noise text items)
noise_rules d text items other = onward noise_lines (extend_noise text items)

unfoldable pub header_rules : Decoder → ℕ → ℕ → ℕ → List Item → Line → Ruled
unfolding abandon enter
header_rules d start length_ end items (content_length fresh) =
    onward (header_block d.line fresh) (abandon d.buffer start d.line items)
header_rules d start length_ end items header =
    if ltb header_limit (suc end - start)
    then onward noise_lines (abandon d.buffer start (suc end) items)
    else onward (header_block start length_) items
header_rules d start length_ end items blank =
    entered (enter (record d { line = suc end; scanned = suc end }) length_ items)
header_rules d start length_ end items other =
    onward noise_lines (abandon d.buffer start (suc end) items)

-- The match of `scan`, on a line that ends at `end`.
unfoldable pub line_rules : Decoder → ℕ → List Item → Ruled
unfolding noise_rules header_rules classify strip
line_rules d end items =
    let text = drop d.line (take end d.buffer) in
    elim d.state [
      | overlong ↦ onward noise_lines items
      | noise_lines ↦ noise_rules d text items (classify (strip text))
      | header_block start length_ ↦ header_rules d start length_ end items (classify (strip text))
      | body_bytes n ↦ unreachable
      | skip_bytes n ↦ unreachable
      | corrupt_stream ↦ unreachable
    ]

-- The first `if` of `partial`.
unfoldable pub partial_header : Decoder → List Item → Decoder × List Item
unfolding abandon
partial_header d items = elim d.state [
  | header_block start length_ ↦
      if ltb header_limit (length d.buffer - start)
      then (record d { state = noise_lines }, abandon d.buffer start d.line items)
      else (d, items)
  | _ ↦ (d, items)
]

unfoldable pub partial_noise : Decoder → List Item → Decoder × List Item
unfolding extend_noise
partial_noise d items = elim d.state [
  | noise_lines ↦
      if ltb line_limit (length d.buffer - d.line)
      then (
        record { buffer = take d.line d.buffer; line = d.line; scanned = d.line; state = overlong },
        extend_noise (drop d.line (take (d.line + line_limit) d.buffer)) items,
      )
      else (d, items)
  | overlong ↦ (record d { buffer = take d.line d.buffer; scanned = d.line }, items)
  | _ ↦ (d, items)
]

unfoldable pub release : Decoder → ℕ → State → Decoder
release d keep state = record {
  buffer = drop keep d.buffer;
  line = d.line - keep;
  scanned = d.scanned - keep;
  state = state;
}

unfoldable pub compact : Decoder → Decoder
unfolding release
compact d = elim d.state [
  | header_block start length_ ↦ release d start (header_block 0 length_)
  | noise_lines ↦ release d d.line noise_lines
  | overlong ↦ release d d.line overlong
  | _ ↦ d
]

-- The end of a scan: no line end is left after `scanned`.
unfoldable pub settle : Decoder → List Item → Decoder × List Item
unfolding partial_header partial_noise compact
settle d items =
    let (d1, items1) = partial_header (record d { scanned = length d.buffer }) items in
    let (d2, items2) = partial_noise d1 items1 in (compact d2, items2)

-- What follows the rules of a line, with `scan_on` the next round of the loop.
unfoldable pub resume :
    (Decoder → List Item → Option (Decoder × List Item))
    → Decoder
    → ℕ
    → Ruled
    → Option (Decoder × List Item)
resume scan_on d next (onward state items) =
    scan_on (record { buffer = d.buffer; line = next; scanned = next; state = state }) items
resume scan_on d next (entered (scanning d' items)) = scan_on d' items
resume scan_on d next (entered (waiting d' items)) = some (d', items)
resume scan_on d next unreachable = none

unfoldable pub scan_from : ℕ → Decoder → List Item → Option (Decoder × List Item)
unfolding position line_rules settle resume
scan_from zero d items = none
scan_from (suc rounds) d items = elim (position b'\n' (drop d.scanned d.buffer)) [
  | none ↦ some (settle d items)
  | some found ↦
      resume (scan_from rounds) d (suc (d.scanned + found)) (line_rules d (d.scanned + found) items)
]

-- Every round but the last takes a line, so that one more than the bytes is enough.
unfoldable pub scan : Decoder → List Item → Option (Decoder × List Item)
unfolding scan_from
scan d items = scan_from (suc (length d.buffer)) d items

-- One round of the loop of `push`.
pub data Round : Type 0 where
  returned : Decoder → List Item → Round
  again : Decoder → List ℕ → List Item → Round

unfoldable pub skip_round : Decoder → ℕ → List ℕ → List Item → Round
skip_round d remaining input items =
    let dropped = min remaining (length input) in
    if ltb 0 (remaining - dropped)
    then returned (record d { state = skip_bytes (remaining - dropped) }) items
    else again (record d { state = noise_lines }) (drop dropped input) items

unfoldable pub body_round : Decoder → ℕ → List ℕ → List Item → Round
body_round d length_ input items =
    let missing = min (length_ - length d.buffer) (length input) in
    let filled = d.buffer ++ take missing input in
    if ltb (length filled) length_
    then returned (record d { buffer = filled }) items
    else again (record d { buffer = []; state = noise_lines }) (drop missing input)
        (items ++ body filled ∷ [])

unfoldable pub scan_round : Decoder → List ℕ → List Item → Option Round
unfolding scan
scan_round d [] items = some (returned d items)
scan_round d (c ∷ cs) items = elim (scan (record d { buffer = d.buffer ++ c ∷ cs }) items) [
  | none ↦ none
  | some (d', items') ↦ some (again d' [] items')
]

unfoldable pub push_round : Decoder → List ℕ → List Item → Option Round
unfolding skip_round body_round scan_round
push_round d input items = elim d.state [
  | corrupt_stream ↦ some (returned d items)
  | skip_bytes remaining ↦ some (skip_round d remaining input items)
  | body_bytes length_ ↦ some (body_round d length_ input items)
  | noise_lines ↦ scan_round d input items
  | overlong ↦ scan_round d input items
  | header_block start length_ ↦ scan_round d input items
]

unfoldable pub push_on :
    (Decoder → List ℕ → List Item → Option (Decoder × List Item))
    → Option Round
    → Option (Decoder × List Item)
push_on loop none = none
push_on loop (some (returned d items)) = some (d, items)
push_on loop (some (again d input items)) = loop d input items

unfoldable pub push_from : ℕ → Decoder → List ℕ → List Item → Option (Decoder × List Item)
unfolding push_round push_on
push_from zero d input items = none
push_from (suc rounds) d input items = push_on (push_from rounds) (push_round d input items)

-- Three rounds are enough: one that ends a body or a skip, one that scans, and one that returns.
unfoldable pub push : Decoder → List ℕ → Option (Decoder × List Item)
unfolding push_from
push d input = push_from 3 d input []

unfoldable pub finish : Decoder → Option (List ℕ)
unfolding noise
finish d = elim d.state [ noise_lines ↦ noise (drop d.line d.buffer) | _ ↦ none ]
