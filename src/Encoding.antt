-- ===== src/Encoding.antt =====
-- The units that a language server counts a line's characters in
-- (crates/matcha-lsp/src/encoding.rs). A chunk is the list of its chars, each its code point. A line
-- has fewer than 2 ^ 32 bytes, so the sums on u32 do not wrap.
pub mod Walk
use matcha.Common.{
  ℕ, ◌+◌, ◌-◌, Bool, true, false, ◌&&◌, List, [], ◌∷◌, min, length, ltb, ◌==◌, if◌then◌else◌,
}
use matcha.Snippet.{len_utf8, text_len}

pub data Encoding : Type 0 where
  utf8 utf16 utf32 : Encoding

-- The units of a char.
unfoldable pub width : Encoding → ℕ → ℕ
unfolding len_utf8
width utf8 c = len_utf8 c
width utf16 c = if ltb c 65536 then 1 else 2
width utf32 c = 1

unfoldable pub is_ascii : List ℕ → Bool
is_ascii [] = true
is_ascii (c ∷ cs) = ltb c 128 && is_ascii cs

-- What the loop over the chars of a chunk comes to: `bytes` returns, or goes on with the units left.
pub data Walked : Type 0 where
  returned : ℕ → Walked
  going : ℕ → ℕ → Walked

unfoldable pub walk_chars : Encoding → ℕ → ℕ → List ℕ → Walked
unfolding width len_utf8
walk_chars enc bytes left [] = going bytes left
walk_chars enc bytes left (c ∷ cs) = elim (ltb left (width enc c)) [
  | true ↦ returned bytes
  | false ↦ elim (left - width enc c == 0) [
    | true ↦ returned (bytes + len_utf8 c)
    | false ↦ walk_chars enc (bytes + len_utf8 c) (left - width enc c) cs
  ]
]

-- The loop over the chunks.
unfoldable pub bytes_from : Encoding → ℕ → ℕ → List (List ℕ) → ℕ
unfolding is_ascii walk_chars text_len
bytes_from enc bytes left [] = bytes
bytes_from enc bytes left (chunk ∷ chunks) = elim (left == 0) [
  | true ↦ bytes
  | false ↦ elim (is_ascii chunk) [
    | true ↦
        let taken = min left (text_len chunk) in
        bytes_from enc (bytes + taken) (left - taken) chunks
    | false ↦ elim (walk_chars enc bytes left chunk) [
      | returned b ↦ b
      | going b l ↦ bytes_from enc b l chunks
    ]
  ]
]

unfoldable pub bytes : Encoding → List (List ℕ) → ℕ → ℕ
unfolding bytes_from
bytes enc chunks units = bytes_from enc 0 units chunks

-- `str::encode_utf16().count()`
unfoldable pub utf16_count : List ℕ → ℕ
utf16_count [] = 0
utf16_count (c ∷ cs) = let rest = utf16_count cs in if ltb c 65536 then 1 + rest else 2 + rest

unfoldable pub chunk_units : Encoding → List ℕ → ℕ
unfolding is_ascii utf16_count text_len
chunk_units enc chunk =
    if is_ascii chunk
    then text_len chunk
    else elim enc [ utf8 ↦ text_len chunk | utf16 ↦ utf16_count chunk | utf32 ↦ length chunk ]

unfoldable pub units : Encoding → List (List ℕ) → ℕ
unfolding chunk_units
units enc [] = 0
units enc (chunk ∷ chunks) = chunk_units enc chunk + units enc chunks
