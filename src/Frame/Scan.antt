-- ===== src/Frame/Scan.antt =====
-- A scan ends within its rounds and leaves the decoder at rest, with a bounded buffer.
use matcha.Common.{
  ℕ, zero, suc, ◌+◌, ◌-◌, ◌≤◌, ◌<◌, ◌≡◌, inl, inr, refl, Option, none, some, List, [], ◌∷◌, length,
  take, drop, min, ltb, leb, ◌==◌, Bool-cases, arith, length-drop, leb→le, leb→lt, Option-cases,
}
use matcha.Header.{
  Line, blank, content_length, header, other, size_of, strip, position, classify, header_limit,
  body_limit, skip_limit,
}
use matcha.Frame.{
  State, noise_lines, overlong, header_block, body_bytes, skip_bytes, corrupt_stream, Decoder, Item,
  Entered, scanning, waiting, Ruled, onward, entered, unreachable, enter, enter_body, enter_skip,
  noise_rules, header_rules, line_rules, scan_from, resume,
}
use matcha.Frame.Settled.{IsResting, Marked, IsMarked, Marked-scanned, settle-IsResting}

-- What the entering of a body leaves: a rest to scan that is no longer than what followed the header,
-- or a decoder at rest.
abbrev EnteredWell : ℕ → Entered → Type 0
EnteredWell size (scanning d items) = IsMarked d × (d.scanned ≡ 0) × (length d.buffer ≤ size)
EnteredWell size (waiting d items) = IsResting d

enter_body-EnteredWell :
    (n : ℕ) (rest : List ℕ) (items : List Item)
    → n ≤ body_limit
    → EnteredWell (length rest) (enter_body n rest items)
unfolding enter_body
enter_body-EnteredWell n rest items h =
    let size = length-drop n rest in
    elim (Bool-cases (leb n (length rest))) [
      | inl e ↦ rw (e, enter_body) ((omega arith, omega arith), refl, omega (arith, size))
      | inr e ↦ rw (e, enter_body) (refl, refl, leb→lt n (length rest) e, h)
    ]

enter_skip-EnteredWell :
    (n : ℕ) (rest : List ℕ) (items : List Item)
    → n ≤ skip_limit
    → EnteredWell (length rest) (enter_skip n rest items)
unfolding enter_skip
enter_skip-EnteredWell n rest items h =
    let size = length-drop (min n (length rest)) rest in
    elim (Bool-cases (n - min n (length rest) == 0)) [
      | inl e ↦ rw (e, enter_skip) ((omega arith, omega arith), refl, omega (arith, size))
      | inr e ↦ rw (e, enter_skip) (refl, refl, ground (arith, size), ground arith, ground arith)
    ]

enter-EnteredWell :
    (d : Decoder) (n : ℕ) (items : List Item)
    → EnteredWell (length (drop d.line d.buffer)) (enter d n items)
unfolding enter size_of
enter-EnteredWell d n items =
    let rest = drop d.line d.buffer in
    elim (Bool-cases (leb n body_limit)) [
      | inl e ↦ rw (e, enter) (enter_body-EnteredWell n rest items (leb→le n body_limit e))
      | inr e ↦ elim (Bool-cases (leb n skip_limit)) [
        | inl f ↦ rw (e, f, enter) (enter_skip-EnteredWell n rest items (leb→le n skip_limit f))
        | inr f ↦ rw (e, f, enter) (refl, refl, refl)
      ]
    ]

-- What the rules for a line leave, when the line ends at `end` in a buffer of `size` bytes.
abbrev RuledWell : ℕ → ℕ → Ruled → Type 0
RuledWell size end (onward state items) = Marked size (suc end) (suc end) state
RuledWell size end (entered e) = EnteredWell (size - suc end) e
RuledWell size end unreachable = ⊥

noise_rules-RuledWell :
    (d : Decoder) (text : List ℕ) (size end : ℕ) (items : List Item) (l : Line)
    → d.line ≤ end
    → end < size
    → RuledWell size end (noise_rules d text items l)
unfolding noise_rules
noise_rules-RuledWell d text size end items (content_length n) h k =
    (omega arith, omega arith, omega arith)
noise_rules-RuledWell d text size end items blank h k = (omega arith, omega arith)
noise_rules-RuledWell d text size end items header h k = (omega arith, omega arith)
noise_rules-RuledWell d text size end items other h k = (omega arith, omega arith)

EnteredWell-le : (m n : ℕ) (e : Entered) → m ≤ n → EnteredWell m e → EnteredWell n e
EnteredWell-le m n (scanning d items) h (a, b, c) = (a, b, omega arith)
EnteredWell-le m n (waiting d items) h w = w

header_rules-RuledWell :
    (d : Decoder) (start n end : ℕ) (items : List Item) (l : Line)
    → start ≤ d.line
    → d.line ≤ end
    → end < length d.buffer
    → RuledWell (length d.buffer) end (header_rules d start n end items l)
unfolding header_rules
header_rules-RuledWell d start n end items (content_length fresh) g h k =
    (omega arith, omega arith, omega arith)
header_rules-RuledWell d start n end items blank g h k =
    let past : Decoder = record d { line = suc end; scanned = suc end } in
    EnteredWell-le (length (drop (suc end) d.buffer)) (length d.buffer - suc end)
      (enter past n items) (omega (arith, length-drop (suc end) d.buffer))
      (enter-EnteredWell past n items)
header_rules-RuledWell d start n end items header g h k =
    elim (Bool-cases (ltb header_limit (suc end - start))) [
      | inl e ↦ rw (e, header_rules) (omega arith, omega arith)
      | inr e ↦ rw (e, header_rules) (omega arith, omega arith, omega arith)
    ]
header_rules-RuledWell d start n end items other g h k = (omega arith, omega arith)

line_rules-RuledWell :
    (buffer : List ℕ) (line scanned : ℕ) (state : State) (end : ℕ) (items : List Item)
    → Marked (length buffer) line scanned state
    → scanned ≤ end
    → end < length buffer
    → let d : Decoder = record { buffer = buffer; line = line; scanned = scanned; state = state } in
      RuledWell (length buffer) end (line_rules d end items)
unfolding line_rules
line_rules-RuledWell buffer line scanned noise_lines end items m h k =
    let d : Decoder = record {
      buffer = buffer;
      line = line;
      scanned = scanned;
      state = noise_lines;
    } in
    let text = drop line (take end buffer) in
    noise_rules-RuledWell d text (length buffer) end items (classify (strip text)) (omega arith) k
line_rules-RuledWell buffer line scanned overlong end items m h k = (omega arith, omega arith)
line_rules-RuledWell buffer line scanned (header_block start n) end items m h k =
    let d : Decoder = record {
      buffer = buffer;
      line = line;
      scanned = scanned;
      state = header_block start n;
    } in
    header_rules-RuledWell d start n end items (classify (strip (drop line (take end buffer)))) m.0
      (omega arith) k
line_rules-RuledWell buffer line scanned (body_bytes n) end items m h k = elim m [ ]
line_rules-RuledWell buffer line scanned (skip_bytes n) end items m h k = elim m [ ]
line_rules-RuledWell buffer line scanned corrupt_stream end items m h k = elim m [ ]

-- An index found is within the list.
abbrev pub FoundIn : ℕ → Option ℕ → Type 0
FoundIn size none = Unit
FoundIn size (some i) = i < size

pub position-FoundIn : (byte : ℕ) (cs : List ℕ) → FoundIn (length cs) (position byte cs)
unfolding position
position-FoundIn byte [] = tt
position-FoundIn byte (c ∷ cs) = elim (Bool-cases (c == byte)) [
  | inl e ↦ rw (e, position) (omega arith)
  | inr e ↦
      let ih = position-FoundIn byte cs in
      elim (Option-cases (position byte cs)) [
        | inl f ↦ rw (e, f, position) tt
        | inr (i, f) ↦ rw (e, f, position) (let below = rw f at ih in omega arith)
      ]
]

pub Marked_le : (d : Decoder) → IsMarked d → d.scanned ≤ length d.buffer
Marked_le d m = Marked-scanned (length d.buffer) d.line d.scanned d.state m

-- The result is there, with a decoder at rest.
abbrev pub Rests : Option (Decoder × List Item) → Type 0
Rests none = ⊥
Rests (some (d, items)) = IsResting d

resume-Rests :
    (scan_on : Decoder → List Item → Option (Decoder × List Item)) (d : Decoder) (end : ℕ)
    (r : Ruled)
    → ((d' : Decoder) (items : List Item)
        → IsMarked d'
        → length d'.buffer - d'.scanned ≤ length d.buffer - suc end
        → Rests (scan_on d' items))
    → RuledWell (length d.buffer) end r
    → Rests (resume scan_on d (suc end) r)
unfolding resume
resume-Rests scan_on d end (onward state items) f w =
    f (record { buffer = d.buffer; line = suc end; scanned = suc end; state = state }) items w
      (omega arith)
resume-Rests scan_on d end (entered (scanning d' items)) f w =
    f d' items w.0 (omega (arith, w.1, w.2))
resume-Rests scan_on d end (entered (waiting d' items)) f w = w
resume-Rests scan_on d end unreachable f w = elim w [ ]

pub scan_from-Rests :
    (rounds : ℕ) (d : Decoder) (items : List Item)
    → IsMarked d
    → d.scanned ≤ length d.buffer
    → length d.buffer - d.scanned < rounds
    → Rests (scan_from rounds d items)
unfolding scan_from
scan_from-Rests zero d items m k h = absurd (omega arith)
scan_from-Rests (suc rounds) d items m k h =
    let found_in = position-FoundIn 10 (drop d.scanned d.buffer) in
    let size = length-drop d.scanned d.buffer in
    elim (Option-cases (position 10 (drop d.scanned d.buffer))) [
      | inl e ↦ rw (e, scan_from) (settle-IsResting d.buffer d.line d.scanned d.state items m)
      | inr (found, e) ↦
          let below = rw e at found_in in
          rw (e, scan_from)
            (resume-Rests (scan_from rounds) d (d.scanned + found)
              (line_rules d (d.scanned + found) items)
              (λ d' items' m' l.
                scan_from-Rests rounds d' items' m' (Marked_le d' m') (omega arith))
              (line_rules-RuledWell d.buffer d.line d.scanned d.state (d.scanned + found) items m
                (omega arith) (omega (arith, below, size))))
    ]
