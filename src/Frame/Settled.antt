-- ===== src/Frame/Settled.antt =====
-- The end of a scan leaves the decoder at rest, whatever stands in the buffer.
use matcha.Common.{
  ℕ, ◌-◌, ◌≤◌, ◌<◌, ◌≡◌, inl, inr, refl, sym, true, false, List, length, take, ltb, Bool-cases,
  arith, length-take, length-drop, ltb→le, subst,
}
use matcha.Header.{header_limit, line_limit, body_limit, skip_limit}
use matcha.Frame.{
  State, noise_lines, overlong, header_block, body_bytes, skip_bytes, corrupt_stream, Decoder, Item,
  partial_header, partial_noise, compact, release, settle, abandon,
}

-- What holds between reads: the marks are in the buffer, and the buffer is bounded in every state.
abbrev pub Resting : List ℕ → ℕ → ℕ → State → Type 0
Resting buffer line scanned noise_lines =
    (line ≡ 0) × (scanned ≡ length buffer) × (length buffer ≤ line_limit)
Resting buffer line scanned overlong = (line ≡ 0) × (scanned ≡ 0) × (length buffer ≡ 0)
Resting buffer line scanned (header_block start n) =
    (start ≡ 0) × (line ≤ scanned) × (scanned ≡ length buffer) × (length buffer ≤ header_limit)
Resting buffer line scanned (body_bytes n) =
    (line ≡ 0) × (scanned ≡ 0) × (length buffer < n) × (n ≤ body_limit)
Resting buffer line scanned (skip_bytes n) =
    (line ≡ 0) × (scanned ≡ 0) × (length buffer ≡ 0) × (0 < n) × (n ≤ skip_limit)
Resting buffer line scanned corrupt_stream = (line ≡ 0) × (scanned ≡ 0) × (length buffer ≡ 0)

abbrev pub IsResting : Decoder → Type 0
IsResting d = Resting d.buffer d.line d.scanned d.state

-- What holds in a scan.
abbrev pub Marked : ℕ → ℕ → ℕ → State → Type 0
Marked size line scanned noise_lines = (line ≤ scanned) × (scanned ≤ size)
Marked size line scanned overlong = (line ≤ scanned) × (scanned ≤ size)
Marked size line scanned (header_block start n) =
    (start ≤ line) × (line ≤ scanned) × (scanned ≤ size)
Marked size line scanned (body_bytes n) = ⊥
Marked size line scanned (skip_bytes n) = ⊥
Marked size line scanned corrupt_stream = ⊥

abbrev pub IsMarked : Decoder → Type 0
IsMarked d = Marked (length d.buffer) d.line d.scanned d.state

pub Marked-scanned :
    (size line scanned : ℕ) (state : State) → Marked size line scanned state → scanned ≤ size
Marked-scanned size line scanned noise_lines m = m.1
Marked-scanned size line scanned overlong m = m.1
Marked-scanned size line scanned (header_block start n) m = m.2
Marked-scanned size line scanned (body_bytes n) m = elim m [ ]
Marked-scanned size line scanned (skip_bytes n) m = elim m [ ]
Marked-scanned size line scanned corrupt_stream m = elim m [ ]

-- A scan's end between the lines, with `line` where the last one begins.
abbrev pub at_end : List ℕ → ℕ → State → Decoder
at_end buffer line state = record {
  buffer = buffer;
  line = line;
  scanned = length buffer;
  state = state;
}

noise_cut :
    (buffer : List ℕ) (line : ℕ) (items : List Item)
    → ltb line_limit (length buffer - line) ≡ true
    → (partial_noise (at_end buffer line noise_lines) items).0
      ≡ record { buffer = take line buffer; line = line; scanned = line; state = overlong }
unfolding partial_noise
noise_cut buffer line items h = rw (h, partial_noise) refl

pub noise_kept :
    (buffer : List ℕ) (line : ℕ) (items : List Item)
    → ltb line_limit (length buffer - line) ≡ false
    → partial_noise (at_end buffer line noise_lines) items ≡ (at_end buffer line noise_lines, items)
unfolding partial_noise
noise_kept buffer line items h = rw (h, partial_noise) refl

header_dropped :
    (buffer : List ℕ) (line start n : ℕ) (items : List Item)
    → ltb header_limit (length buffer - start) ≡ true
    → partial_header (at_end buffer line (header_block start n)) items
      ≡ (at_end buffer line noise_lines, abandon buffer start line items)
unfolding partial_header
header_dropped buffer line start n items h = rw (h, partial_header) refl

pub header_kept :
    (buffer : List ℕ) (line start n : ℕ) (items : List Item)
    → ltb header_limit (length buffer - start) ≡ false
    → partial_header (at_end buffer line (header_block start n)) items
      ≡ (at_end buffer line (header_block start n), items)
unfolding partial_header
header_kept buffer line start n items h = rw (h, partial_header) refl

noise_end-IsResting :
    (buffer : List ℕ) (line : ℕ) (items : List Item)
    → line ≤ length buffer
    → IsResting (compact (partial_noise (at_end buffer line noise_lines) items).0)
unfolding compact release
noise_end-IsResting buffer line items h =
    let cut = length-take line buffer in
    let rest = length-drop line buffer in
    let gone = length-drop line (take line buffer) in
    elim (Bool-cases (ltb line_limit (length buffer - line))) [
      | inl e ↦
          subst (λ d. IsResting (compact d)) (sym (noise_cut buffer line items e))
            (omega arith, omega arith, omega (arith, cut, gone))
      | inr e ↦
          subst (λ r. IsResting (compact r.0)) (sym (noise_kept buffer line items e))
            (omega arith, omega (arith, rest), omega (arith, rest, ltb→le _ _ e))
    ]

-- A scan that ends rests, whatever stands in the buffer.
pub settle-IsResting :
    (buffer : List ℕ) (line scanned : ℕ) (state : State) (items : List Item)
    → Marked (length buffer) line scanned state
    → let d : Decoder = record { buffer = buffer; line = line; scanned = scanned; state = state } in
      IsResting (settle d items).0
unfolding settle partial_header partial_noise compact release
settle-IsResting buffer line scanned noise_lines items m =
    noise_end-IsResting buffer line items (omega arith)
settle-IsResting buffer line scanned overlong items m =
    let cut = length-take line buffer in
    let gone = length-drop line (take line buffer) in
    (omega arith, omega arith, omega (arith, cut, gone))
settle-IsResting buffer line scanned (header_block start n) items m =
    let rest = length-drop start buffer in
    elim (Bool-cases (ltb header_limit (length buffer - start))) [
      | inl e ↦
          subst (λ r. IsResting (compact (partial_noise r.0 r.1).0))
            (sym (header_dropped buffer line start n items e))
            (noise_end-IsResting buffer line _ (omega arith))
      | inr e ↦
          subst (λ r. IsResting (compact (partial_noise r.0 r.1).0))
            (sym (header_kept buffer line start n items e))
            (omega arith, omega arith, omega (arith, rest), omega (arith, rest, ltb→le _ _ e))
    ]
settle-IsResting buffer line scanned (body_bytes n) items m = elim m [ ]
settle-IsResting buffer line scanned (skip_bytes n) items m = elim m [ ]
settle-IsResting buffer line scanned corrupt_stream items m = elim m [ ]
