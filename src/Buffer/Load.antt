-- ===== src/Buffer/Load.antt =====
-- Loading a document, and loading what was saved.
use matcha.Common.{
  ℕ, ◌<◌, ◌≡◌, refl, sym, ap, subst, ◌∙◌, Bool, true, false, List, [], ◌∷◌, length, ◌==◌,
  if◌then◌else◌, u32_max, arith,
}
use matcha.Coords.{StartsChar, is_continuation}
use matcha.Ropey.{Ropey}
use matcha.Rope.{rope_from_str}
use matcha.Rope.Edits.{from_ropey-IsRope}
use matcha.Buffer.{
  Buffer, EolFlavor, lf, crlf, ok, load, serialize, normalize_eol, expand_lf, contains_cr,
  contains_crlf, check_load_len,
}
use matcha.Buffer.Eol.{
  StartsChar-normalize_eol, length-normalize_eol, contains_cr-normalize_eol,
  normalize_eol-serialize, concat-map-expand_lf,
}
use matcha.Buffer.Edits.{content, IsBuffer}

StartsChar-expand_lf : (t : List ℕ) → StartsChar t → StartsChar (expand_lf t)
unfolding expand_lf is_continuation
StartsChar-expand_lf [] h = tt
StartsChar-expand_lf (x ∷ t) h = starts_one (x == b'\n') h
  where
    starts_one :
        (b : Bool)
        → is_continuation x ≡ false
        → StartsChar (if b then b'\r' ∷ b'\n' ∷ expand_lf t else x ∷ expand_lf t)
    starts_one true h = refl
    starts_one false h = h

module _ (R : Ropey) where
  -- What a loaded buffer is.
  pub record IsLoaded (input : List ℕ) (b : Buffer R) : Type 0 where
    pub buffer : IsBuffer R b
    pub text : content R b ≡ normalize_eol input
    pub lf_only : contains_cr (content R b) ≡ false
    pub revision : b.revision ≡ 0

  load_accepts :
      (id : ℕ) (input : List ℕ)
      → length input < u32_max
      → load R id input
        ≡ ok (record {
          text = rope_from_str R (normalize_eol input);
          revision = 0;
          doc_id = id;
          eol_flavor = if contains_crlf input then crlf else lf;
        })
  unfolding load check_load_len
  load_accepts id input h = ground arith

  pub load-IsLoaded :
      (id : ℕ) (input : List ℕ)
      → StartsChar input
      → length input < u32_max
      → (b : Buffer R) × (load R id input ≡ ok b) × IsLoaded input b
  unfolding rope_from_str
  load-IsLoaded id input s h =
      let (v, e) =
        from_ropey-IsRope R (R.from_str (normalize_eol input)) (normalize_eol input)
          (R.from_str_lem (normalize_eol input)) (omega (arith, length-normalize_eol input, h))
          (StartsChar-normalize_eol input s) in
      let b : Buffer R = record {
        text = rope_from_str R (normalize_eol input);
        revision = 0;
        doc_id = id;
        eol_flavor = if contains_crlf input then crlf else lf;
      } in
      (
        b,
        load_accepts id input h,
        record {
          buffer = v;
          text = e;
          lf_only = ap contains_cr e ∙ contains_cr-normalize_eol input;
          revision = refl;
        },
      )

  StartsChar-serialize :
      (b : Buffer R) (flavor : EolFlavor)
      → StartsChar (content R b)
      → StartsChar (serialize R b flavor)
  unfolding serialize
  StartsChar-serialize b lf h = h
  StartsChar-serialize b crlf h =
      subst StartsChar (sym (concat-map-expand_lf (R.chunks b.text.text)))
        (StartsChar-expand_lf (content R b) h)

  normalize_saved :
      (b : Buffer R) (flavor : EolFlavor)
      → contains_cr (content R b) ≡ false
      → normalize_eol (serialize R b flavor) ≡ content R b
  normalize_saved b lf h = (normalize_eol-serialize R b h).0
  normalize_saved b crlf h = (normalize_eol-serialize R b h).1

  -- A well-formed buffer without `\r`, saved with either line-ending flavor to a file shorter than
  -- `u32::MAX` bytes, is loaded again: the load is not refused, the new buffer is well formed, holds
  -- the same text without `\r`, and is at revision 0.
  pub load-serialize :
      (id : ℕ) (b : Buffer R) (flavor : EolFlavor)
      → IsBuffer R b
      → contains_cr (content R b) ≡ false
      → length (serialize R b flavor) < u32_max
      → (b' : Buffer R) × (load R id (serialize R b flavor) ≡ ok b')
        × IsBuffer R b'
        × (content R b' ≡ content R b)
        × (contains_cr (content R b') ≡ false)
        × (b'.revision ≡ 0)
  load-serialize id b flavor v c h =
      let (b', e, l) =
        load-IsLoaded id (serialize R b flavor) (StartsChar-serialize b flavor v.starts) h in
      (b', e, l.buffer, l.text ∙ normalize_saved b flavor c, l.lf_only, l.revision)
