-- ===== src/Rope.antt =====
-- The text rope (crates/matcha-core/src/rope.rs): `ropey::Rope` behind byte offsets, with cached
-- totals. The casts of the totals to u32 keep their wrap-around; chunk starts and lengths are within
-- the text, and their casts are left out.
pub mod Slices
pub mod Clips
pub mod Reads
pub mod Edits
pub mod Chunks
pub mod Rebuild
use matcha.Common.{
  ℕ, zero, suc, ◌+◌, ◌-◌, ◌*◌, ◌%◌, Bool, true, false, ◌||◌, Option, none, some, List, [], ◌∷◌,
  ◌++◌, ◌&&◌, reverse, length, take, drop, min, max, ltb, leb, ◌==◌, if◌then◌else◌, u32_mod,
}
use matcha.Coords.{Bias, is_char_boundary, snap_char_boundary}
use matcha.Patch.{Range}
use matcha.Text.{Splice}
use matcha.Ropey.{Ropey, concat}

-- `REBUILD_BYTES_PER_EDIT`
abbrev pub rebuild_bytes_per_edit : ℕ
rebuild_bytes_per_edit = 2048

-- `s[start..end]` of a `str`: `none` is the panic on an inverted range or off a char boundary.
unfoldable pub str_slice : List ℕ → ℕ → ℕ → Option (List ℕ)
unfolding is_char_boundary
str_slice s start end =
    if leb start end && is_char_boundary s start && is_char_boundary s end
    then some (take (end - start) (drop start s))
    else none

-- The loop of `slice` over the chunks after the first one.
unfoldable pub gather : List (List ℕ) → ℕ → ℕ → Option (List ℕ)
gather [] pos end = some []
gather (chunk ∷ rest) pos end =
    let n = min (end - pos) (length chunk) in
    let more = gather rest (pos + n) end in
    elim (str_slice chunk 0 n) [
      | none ↦ none
      | some piece ↦ elim (if pos + n == end then some [] else more) [
        | none ↦ none
        | some out ↦ some (piece ++ out)
      ]
    ]

-- The state of the loop in `rebuild_with`: the chunks not yet read, the current one with its start,
-- the position, and the pieces given to the builder.
pub record Copy : Type 0 where
  pub rest : List (List ℕ)
  pub chunk : List ℕ
  pub cs : ℕ
  pub pos : ℕ
  pub out : List (List ℕ)

-- At the end of the current chunk the next one is read; without one the code panics.
unfoldable pub next_chunk_at_end : Copy → Option Copy
next_chunk_at_end c =
    if c.pos == c.cs + length c.chunk
    then elim c.rest [
      | [] ↦ none
      | next ∷ rest ↦ some (record c { rest = rest; chunk = next; cs = c.cs + length c.chunk })
    ]
    else some c

unfoldable pub copy_chunk : ℕ → ℕ → Copy → Option Copy
copy_chunk start end c =
    let stop = min end (c.cs + length c.chunk) in
    if ltb c.pos start
    then elim (str_slice c.chunk (c.pos - c.cs) (min stop start - c.cs)) [
      | none ↦ none
      | some piece ↦ some (record c { pos = stop; out = c.out ++ piece ∷ [] })
    ]
    else some (record c { pos = stop })

-- `while pos < end`: after its first round each round reads a chunk.
unfoldable pub copy_gap : ℕ → ℕ → ℕ → Copy → Option Copy
copy_gap zero start end c = none
copy_gap (suc fuel) start end c = elim (ltb c.pos end) [
  | false ↦ some c
  | true ↦ elim (next_chunk_at_end c) [
    | none ↦ none
    | some c' ↦ elim (copy_chunk start end c') [
      | none ↦ none
      | some copied ↦ copy_gap fuel start end copied
    ]
  ]
]

-- For each gap: the untouched text before it, then its replacement.
unfoldable pub copy_gaps : List Splice → Copy → Option Copy
unfolding copy_gap next_chunk_at_end copy_chunk
copy_gaps [] c = some c
copy_gaps ((r, x) ∷ gaps) c = elim (copy_gap (length c.rest + 2) r.start r.end c) [
  | none ↦ none
  | some c' ↦ copy_gaps gaps (record c' { out = c'.out ++ x ∷ [] })
]

pub record Rope (R : Ropey) : Type 0 where
  pub text : R.Tree
  pub len : ℕ
  pub newlines : ℕ

module _ (R : Ropey) where
  open R use {
    Tree, from_str, build, chunks, len_bytes, len_lines, byte_to_char, remove, insert,
    chunk_at_byte, chunks_at_byte,
  }

  -- The code stores the totals once at the end of each constructor and edit, by `refresh_totals`.
  unfoldable pub from_ropey : Tree → Rope R
  from_ropey t = record {
    text = t;
    len = len_bytes t % u32_mod;
    newlines = (len_lines t - 1) % u32_mod;
  }

  unfoldable pub rope_from_str : List ℕ → Rope R
  unfolding from_ropey
  rope_from_str s = from_ropey (from_str s)

  unfoldable pub line_count : Rope R → ℕ
  line_count r = r.newlines + 1

  unfoldable pub chunk_at : Rope R → ℕ → List ℕ × ℕ
  chunk_at r offset = chunk_at_byte r.text (min offset r.len)

  unfoldable pub slice : Rope R → Range → Option (List ℕ)
  unfolding chunk_at gather str_slice
  slice r range =
      let end = min range.end r.len in
      let start = min range.start end in
      let (chunk, cs) = chunk_at r start in
      if start == end
      then some []
      else if leb end (cs + length chunk)
      then str_slice chunk (start - cs) (end - cs)
      else elim (str_slice chunk (start - cs) (length chunk)) [
        | none ↦ none
        | some first ↦
            elim (gather (chunks_at_byte r.text (cs + length chunk)) (cs + length chunk) end) [
              | none ↦ none
              | some out ↦ some (first ++ out)
            ]
      ]

  unfoldable pub rope_is_char_boundary : Rope R → ℕ → Bool
  unfolding chunk_at is_char_boundary
  rope_is_char_boundary r offset =
      let (chunk, cs) = chunk_at r offset in
      if (offset == 0) || leb r.len offset
      then leb offset r.len
      else is_char_boundary chunk (offset - cs)

  -- `clip_in` of crates/matcha-core/src/buffer.rs
  unfoldable pub clip_in : Rope R → ℕ → Bias → ℕ
  unfolding chunk_at snap_char_boundary
  clip_in r offset bias =
      let off = min offset r.len in
      let (chunk, cs) = chunk_at r off in cs + snap_char_boundary chunk (off - cs) bias

  unfoldable pub replace : Rope R → Range → List ℕ → Rope R
  unfolding from_ropey
  replace r range text =
      let start = min range.start r.len in
      let end = max (min range.end r.len) start in
      let char_start = byte_to_char r.text start in
      let removed =
        if ltb start end then remove r.text char_start (byte_to_char r.text end) else r.text in
      from_ropey (elim text [ [] ↦ removed | x ∷ xs ↦ insert removed char_start (x ∷ xs) ])

  -- The edits from the last one to the first.
  unfoldable pub replace_all : Rope R → List Splice → Rope R
  unfolding replace
  replace_all r [] = r
  replace_all r ((range, text) ∷ edits) = replace (replace_all r edits) range text

  -- `none` is the panic of an edit out of bounds.
  unfoldable pub rebuild_with : Rope R → List Splice → Option (Rope R)
  unfolding copy_gaps from_ropey
  rebuild_with r edits =
      elim (copy_gaps (edits ++ (record { start = r.len; end = r.len }, []) ∷ [])
        (record { rest = chunks r.text; chunk = []; cs = 0; pos = 0; out = [] })) [
          | none ↦ none
          | some c ↦ some (from_ropey (build c.out))
        ]

  unfoldable pub edit_many : Rope R → List Splice → Option (Rope R)
  unfolding rebuild_with replace_all
  edit_many r edits =
      if ltb r.len (length edits * rebuild_bytes_per_edit)
      then rebuild_with r edits
      else some (replace_all r edits)
