-- ===== src/Tests/Documents.antt =====
-- The document and the edits that the tests run on.
use matcha.Common.{List, [], ◌∷◌, refl, arith}
use matcha.Coords.{is_continuation, is_char_boundary}
use matcha.Text.{Splice}
use matcha.Rope.Edits.{IsBatch, view}
use matcha.Buffer.{Buffer, lf, contains_cr}
use matcha.Transaction.{EditOp}
use matcha.Transaction.Normal.{AllStr}
use matcha.Transaction.Apply.{IsDocument}
use matcha.Tests.Flat.{flat}

-- `ab`, a line feed, and `c`.
abbrev pub doc : Buffer flat
doc = record {
  text = record { text = 97 ∷ 98 ∷ 10 ∷ 99 ∷ []; len = 4; newlines = 1 };
  revision = 0;
  doc_id = 1;
  eol_flavor = lf;
}

pub doc-IsDocument : IsDocument flat doc
unfolding is_continuation contains_cr
doc-IsDocument = record {
  buffer = record { len_lem = refl; fits = omega arith; starts = refl };
  bounded = omega arith;
  lf_only = refl;
}

-- `ab` becomes `xyz`, and behind `c` comes a line in CRLF form.
abbrev pub two_ops : List EditOp
two_ops =
    record { range = record { start = 4; end = 4 }; text = 13 ∷ 10 ∷ 100 ∷ [] }
    ∷ record { range = record { start = 0; end = 2 }; text = 120 ∷ 121 ∷ 122 ∷ [] }
    ∷ []

pub two_ops-AllStr : AllStr two_ops
unfolding is_continuation
two_ops-AllStr = (refl, (refl, tt))

abbrev pub two_splices : List Splice
two_splices =
    (record { start = 0; end = 2 }, 120 ∷ 121 ∷ 122 ∷ [])
    ∷ (record { start = 4; end = 4 }, 10 ∷ 100 ∷ [])
    ∷ []

pub two_splices-IsBatch : IsBatch flat (view flat doc.text) two_splices
unfolding is_continuation is_char_boundary
two_splices-IsBatch = record {
  disjoint = (omega arith, omega arith, (omega arith, omega arith, omega arith));
  boundaries = (refl, refl, (refl, refl, tt));
  texts = (refl, (refl, tt));
  room = omega arith;
}
