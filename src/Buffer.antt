-- ===== src/Buffer.antt =====
-- The document text store (crates/matcha-core/src/buffer.rs) over the rope.
pub mod Eol
pub mod Edits
pub mod Load
use matcha.Common.{
  ℕ, suc, ◌+◌, ◌<◌, ◌≡◌, Bool, true, false, ◌&&◌, ◌||◌, Option, none, some, List, [], ◌∷◌, ◌++◌,
  map, length, leb, ◌==◌, if◌then◌else◌, u32_max,
}
use matcha.Coords.{Bias}
use matcha.Patch.{Range}
use matcha.Text.{Splice}
use matcha.Ropey.{Ropey, concat}
use matcha.Rope.{Rope, rope_from_str, clip_in, slice, replace, edit_many}

pub data EolFlavor : Type 0 where
  lf crlf : EolFlavor

pub data LoadError : Type 0 where
  too_large : ℕ → LoadError

pub data Loaded {ℓ} (A : Type ℓ) : Type ℓ where
  ok : A → Loaded A
  err : LoadError → Loaded A

unfoldable pub check_load_len : ℕ → Loaded (Unit {0})
check_load_len len = if leb u32_max len then err (too_large len) else ok tt

unfoldable pub begins_lf : List ℕ → Bool
begins_lf [] = false
begins_lf (x ∷ t) = x == b'\n'

-- `input.contains("\r\n")`
unfoldable pub contains_crlf : List ℕ → Bool
unfolding begins_lf
contains_crlf [] = false
contains_crlf (x ∷ t) = (x == b'\r' && begins_lf t) || contains_crlf t

unfoldable pub contains_cr : List ℕ → Bool
contains_cr [] = false
contains_cr (x ∷ t) = x == b'\r' || contains_cr t

-- `.replace("\r\n", "\n")`: a `\r` before a `\n` goes.
unfoldable pub crlf_to_lf : List ℕ → List ℕ
unfolding begins_lf
crlf_to_lf [] = []
crlf_to_lf (x ∷ t) = let rest = crlf_to_lf t in if x == b'\r' && begins_lf t then rest else x ∷ rest

-- `.replace('\r', "\n")`
unfoldable pub cr_to_lf : List ℕ → List ℕ
cr_to_lf [] = []
cr_to_lf (x ∷ t) = (if x == b'\r' then b'\n' else x) ∷ cr_to_lf t

-- The normalization to LF that `Buffer::new` and the transaction engine share.
unfoldable pub normalize_eol : List ℕ → List ℕ
unfolding contains_cr crlf_to_lf cr_to_lf
normalize_eol text = if contains_cr text then cr_to_lf (crlf_to_lf text) else text

-- One chunk of `serialize` with `\n` written as `\r\n`.
unfoldable pub expand_lf : List ℕ → List ℕ
expand_lf [] = []
expand_lf (x ∷ t) = if x == b'\n' then b'\r' ∷ b'\n' ∷ expand_lf t else x ∷ expand_lf t

pub record Buffer (R : Ropey) : Type 0 where
  pub text : Rope R
  pub revision : ℕ
  pub doc_id : ℕ
  pub eol_flavor : EolFlavor

module _ (R : Ropey) where
  -- `id` is what the process-wide counter gives.
  unfoldable pub load : ℕ → List ℕ → Loaded (Buffer R)
  unfolding check_load_len normalize_eol contains_crlf rope_from_str
  load id input = elim (check_load_len (length input)) [
    | err e ↦ err e
    | ok _ ↦ ok (record {
      text = rope_from_str R (normalize_eol input);
      revision = 0;
      doc_id = id;
      eol_flavor = if contains_crlf input then crlf else lf;
    })
  ]

  unfoldable pub clip_offset : Buffer R → ℕ → Bias → ℕ
  unfolding clip_in
  clip_offset b offset bias = clip_in R b.text offset bias

  unfoldable pub buffer_slice : Buffer R → Range → Option (List ℕ)
  unfolding slice
  buffer_slice b range = slice R b.text range

  unfoldable pub serialize : Buffer R → EolFlavor → List ℕ
  unfolding expand_lf
  serialize b lf = concat (R.chunks b.text.text)
  serialize b crlf = concat (map expand_lf (R.chunks b.text.text))

  unfoldable pub buffer_splice : Buffer R → Range → List ℕ → Buffer R
  unfolding replace
  buffer_splice b range new_text = record b { text = replace R b.text range new_text }

  -- `none` is a panic of the rope.
  unfoldable pub buffer_edit_many : Buffer R → List Splice → Option (Buffer R)
  unfolding buffer_splice edit_many
  buffer_edit_many b [] = some b
  buffer_edit_many b ((range, text) ∷ []) = some (buffer_splice b range text)
  buffer_edit_many b (e ∷ f ∷ edits) = elim (edit_many R b.text (e ∷ f ∷ edits)) [
    | none ↦ none
    | some text ↦ some (record b { text = text })
  ]

  unfoldable pub bump_revision : Buffer R → Buffer R
  bump_revision b = record b { revision = b.revision + 1 }
