-- ===== src/Ropey.antt =====
-- The third-party rope (`ropey::Rope`) as an interface: the operations that crates/matcha-core/src/
-- rope.rs calls, with the behaviour that ropey documents for them. A text is its UTF-8 bytes.
use matcha.Common.{ℕ, ◌+◌, ◌≤◌, ◌<◌, ◌≡◌, true, List, [], ◌∷◌, ◌++◌, length, take, drop}
use matcha.Coords.{is_char_boundary, StartsChar}

abbrev pub concat : List (List ℕ) → List ℕ
concat [] = []
concat (c ∷ cs) = c ++ concat cs

-- What `chunk_at_byte` and `chunks_at_byte` say of the chunk that they find for a byte offset.
pub record IsChunkAt (t : List ℕ) (b : ℕ) (chunk : List ℕ) (cs : ℕ) : Type 0 where
  pub holds : take (length chunk) (drop cs t) ≡ chunk
  pub begins : cs ≤ b
  pub reaches : b ≤ cs + length chunk
  pub covers : b < length t → b < cs + length chunk
  pub inside : cs + length chunk ≤ length t
  pub start_boundary : is_char_boundary t cs ≡ true
  pub end_boundary : is_char_boundary t (cs + length chunk) ≡ true

pub record Ropey : Type 1 where
  pub Tree : Type 0
  pub from_str : List ℕ → Tree
  -- A `RopeBuilder` that was given these pieces in order.
  pub build : List (List ℕ) → Tree
  pub chunks : Tree → List (List ℕ)
  pub len_bytes : Tree → ℕ
  pub len_lines : Tree → ℕ
  pub byte_to_char : Tree → ℕ → ℕ
  pub remove : Tree → ℕ → ℕ → Tree
  pub insert : Tree → ℕ → List ℕ → Tree
  -- The chunk that holds a byte, the right-hand one at a boundary, and where it begins.
  pub chunk_at_byte : Tree → ℕ → List ℕ × ℕ
  -- The chunks from that chunk on.
  pub chunks_at_byte : Tree → ℕ → List (List ℕ)
  pub from_str_lem : (s : List ℕ) → concat (chunks (from_str s)) ≡ s
  pub build_lem : (ps : List (List ℕ)) → concat (chunks (build ps)) ≡ concat ps
  pub len_bytes_lem : (t : Tree) → len_bytes t ≡ length (concat (chunks t))
  pub remove_lem :
      (t : Tree) (s e : ℕ)
      → StartsChar (concat (chunks t))
      → s ≤ e
      → e ≤ length (concat (chunks t))
      → is_char_boundary (concat (chunks t)) s ≡ true
      → is_char_boundary (concat (chunks t)) e ≡ true
      → concat (chunks (remove t (byte_to_char t s) (byte_to_char t e)))
        ≡ take s (concat (chunks t)) ++ drop e (concat (chunks t))
  pub insert_lem :
      (t : Tree) (i : ℕ) (x : List ℕ)
      → StartsChar (concat (chunks t))
      → i ≤ length (concat (chunks t))
      → is_char_boundary (concat (chunks t)) i ≡ true
      → concat (chunks (insert t (byte_to_char t i) x))
        ≡ take i (concat (chunks t)) ++ (x ++ drop i (concat (chunks t)))
  -- The char index of a byte counts the characters before it.
  pub byte_to_char_prefix :
      (t u : Tree) (i : ℕ)
      → take i (concat (chunks t)) ≡ take i (concat (chunks u))
      → byte_to_char t i ≡ byte_to_char u i
  pub chunk_at_byte_lem :
      (t : Tree) (b : ℕ)
      → b ≤ length (concat (chunks t))
      → IsChunkAt (concat (chunks t)) b (chunk_at_byte t b).0 (chunk_at_byte t b).1
  -- The chunk after a chunk begins where that one ends.
  pub next_chunk :
      (t : Tree) (b : ℕ)
      → (chunk_at_byte t b).1 + length (chunk_at_byte t b).0 < length (concat (chunks t))
      → concat (chunks_at_byte t ((chunk_at_byte t b).1 + length (chunk_at_byte t b).0))
        ≡ drop ((chunk_at_byte t b).1 + length (chunk_at_byte t b).0) (concat (chunks t))
