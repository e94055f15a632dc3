-- ===== src/Tests/Histories.antt =====
-- An editing session at concrete inputs.
use matcha.Transaction.Replay.{IsReplayable, apply-IsReplayable}
use matcha.Common.{ℕ, ◌≡◌, refl, false, true, none, some, List, [], ◌∷◌, arith, suc}
use matcha.Coords.{is_continuation}
use matcha.Buffer.{Buffer, lf}
use matcha.Buffer.Edits.{content}
use matcha.Transaction.{EditOp, Committed, Outcome, ok, apply}
use matcha.Transaction.Normal.{AllStr}
use matcha.Arena.{History, empty_history, other, discrete}
use matcha.History.{Replay, record_edit, undo, redo, can_undo, can_redo, is_dirty}
use matcha.History.Sessions.{Session, edited, here, next, session-Sound}
use matcha.Tests.Flat.{flat}
use matcha.Tests.Documents.{doc, doc-IsDocument}

-- The derived views count the steps.
abbrev count_steps : Committed → Buffer flat → ℕ → ℕ
count_steps c b n = suc n

abbrev opened : Replay flat count_steps
opened = record { buffer = doc; selections = record { selections = []; next_id = 0 }; views = 0 }

abbrev typed : List EditOp
typed = record { range = record { start = 1; end = 1 }; text = 120 ∷ [] } ∷ []

-- `axb`, a line feed, and `c`.
abbrev doc_after : Buffer flat
doc_after = record {
  text = record { text = 97 ∷ 120 ∷ 98 ∷ 10 ∷ 99 ∷ []; len = 5; newlines = 1 };
  revision = 1;
  doc_id = 1;
  eol_flavor = lf;
}

abbrev committed : Committed
committed = record {
  patch = record {
    edits =
        record { old = record { start = 1; end = 1 }; new = record { start = 1; end = 2 } } ∷ [];
  };
  inverse = record { range = record { start = 1; end = 2 }; text = [] } ∷ [];
  forward = typed;
}

typed-AllStr : AllStr typed
unfolding is_continuation
typed-AllStr = (refl, tt)

typed_once : apply flat doc typed ≡ some (doc_after, ok committed)
unfolding apply matcha.Transaction.clip_ops matcha.Transaction.clip_op matcha.Buffer.clip_offset
    matcha.Coords.is_char_boundary matcha.Buffer.normalize_eol matcha.Transaction.commit
    matcha.Transaction.find_overlap matcha.Transaction.sort_ops matcha.Transaction.insert_op
    matcha.Transaction.post_len matcha.Common.Int.◌+ℤ◌ matcha.Transaction.length_delta
    matcha.Common.Int.◌-ℤ◌ matcha.Buffer.buffer_edit_many matcha.Buffer.bump_revision
    matcha.Transaction.chain matcha.Tests.Flat.insert_chars matcha.Tests.Flat.count_lf
    matcha.Patch.push matcha.Buffer.buffer_slice matcha.Buffer.buffer_splice
    matcha.Buffer.contains_cr is_continuation matcha.Coords.snap_char_boundary matcha.Rope.chunk_at
    matcha.Rope.clip_in matcha.Rope.from_ropey matcha.Rope.replace matcha.Rope.slice
    matcha.Rope.str_slice matcha.Rope.gather matcha.Tests.Flat.char_start
    matcha.Tests.Flat.char_count
typed_once = refl

abbrev recorded : History
recorded = record {
  nodes =
      record { parent = none; children = 1 ∷ []; preferred_child = some 1; elem = none }
      ∷ record {
        parent = some 0;
        children = [];
        preferred_child = none;
        elem = some (record {
          steps = record { forward = committed.forward; inverse = committed.inverse } ∷ [];
          op = other;
          alt_before = 0;
          alt_after = 1;
        });
      }
      ∷ [];
  current = 1;
  is_open = false;
  alt = 1;
  alt_seq = 1;
  saved_alt = 0;
  max_undo = none;
}

recorded_once : record_edit empty_history typed committed.inverse discrete ≡ some recorded
unfolding record_edit
recorded_once = refl

abbrev edited_session : Session flat count_steps
edited_session = record {
  history = recorded;
  replay = record opened { buffer = doc_after };
  saved = content flat doc;
}

session-Sound_example :
    (is_dirty recorded ≡ false → content flat doc_after ≡ content flat doc)
    × ((h : History) × (r' : Replay flat count_steps) × (undo flat count_steps recorded
            edited_session.replay
          ≡ some (h, r', can_undo recorded)))
    × ((h : History) × (r' : Replay flat count_steps) × (redo flat count_steps recorded
            edited_session.replay
          ≡ some (h, r', can_redo recorded)))
session-Sound_example = session-Sound flat count_steps opened edited_session doc-IsDocument (
    next here
      (edited typed committed discrete typed-AllStr (omega arith) typed_once recorded_once refl))

apply-IsReplayable_example : IsReplayable flat doc doc_after committed
apply-IsReplayable_example =
    apply-IsReplayable flat doc doc_after typed committed doc-IsDocument typed-AllStr (omega arith)
      typed_once
