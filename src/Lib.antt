-- ===== src/Lib.antt =====
-- Models and theorems for matcha, a headless code-editing engine in three crates: the engine
-- (crates/matcha-core), its iced front end (crates/matcha-iced) and its language-server client
-- (crates/matcha-lsp). The files here are about crates/matcha-core/src, and Restart, Encoding,
-- Header, Frame, Shutdown, Writer, Reader and TextEdits about crates/matcha-lsp/src.
--
-- How the parts interact: a `Document` edits its `Buffer` through `transaction.rs` alone. A
-- transaction clips its ops to char boundaries, sorts them, refuses overlaps and overlong results,
-- builds a `Patch` and the inverse ops, and gives the batch to the buffer, which gives it to the
-- rope, which is `ropey::Rope` behind byte offsets. All that is derived from the text is moved by the
-- patch. In the client, a reader thread feeds each read of a server's stream to a frame decoder and sends
-- the bodies to the client, the noise between them as log lines, and what the worker must know as notices.
--
-- Which file models what:
--   Coords        coords.rs: Bias, Point, snap_char_boundary.
--   Patch         patch.rs: Edit, Patch, map_offset, map_range, map_many.
--   Ropey         the third-party crate ropey, as a record of operations with their documented
--                 behaviour; every definition over a rope takes it as a parameter.
--   Rope          rope.rs: from_str, slice, chunk_at, is_char_boundary, replace, edit_many and
--                 rebuild_with; also clip_in of buffer.rs.
--   Buffer        buffer.rs: Buffer::new (`load`), clip_offset, slice, serialize, splice, edit_many,
--                 bump_revision.
--   Transaction   transaction.rs: apply, step by step (clip_ops, sort_ops, find_overlap, post_len,
--                 chain, commit).
--   Selection     selection.rs: a selection, the normal form of a set, and its operations.
--   Arena         history.rs: the nodes of the undo tree, and its pruning (Arena.Prune).
--   History       history.rs: record, undo, redo, branches, seals and the dirty flag.
--   DirtyRanges   highlight/dirty_ranges.rs: the rows that a highlight cache has yet to converge.
--   Snippet       intel/snippet.rs: the parser, and the insertion transform (Snippet.Adapt).
--   Ticket        intel/ticket.rs: request tickets.
--   Restart       crates/matcha-lsp/src/restart.rs: the window of a client's lost servers.
--   Encoding      crates/matcha-lsp/src/encoding.rs: the units of a line's chars and their bytes.
--   Header        crates/matcha-lsp/src/transport/frame.rs: the classes of a line (classify), sizes, noise
--                 and encode.
--   Frame         transport/frame.rs: the decoder (push, scan, partial, compact, abandon, enter, finish).
--   Shutdown      transport/lifecycle.rs: the shutdown sequence, with the worker that polls it, and the
--                 recognition of the reply to the shutdown request.
--   Writer        transport/writer.rs: the outgoing queue, its guard and the writer thread, as steps of
--                 threads; `run` takes a schedule of them.
--   Reader        transport/reader.rs: the loop that reads a server's stream and what it sends.
--   TextEdits     crates/matcha-lsp/src/edits.rs: `trim`, which narrows an edit to what changes, and `lf`.
--   Text          the abstract text that these are measured against: a list of bytes and one batch of
--                 replacements on it.
--   Common        lists, Booleans, words and ℤ over the native ℕ.
--   Tests         the theorems at concrete inputs, over a rope of one chunk (Tests.Flat).
-- The theorems about a component are in its child modules.
--
-- State: a `&mut self` operation takes the record and gives the new one. A `&str` is the list of its
-- UTF-8 bytes; in Snippet and Encoding it is the list of its chars, measured in bytes. An operation
-- that can panic gives an Option, and `none` is the panic. In Rope a slice of a `&str` off a char
-- boundary is such a panic (`str_slice`). A result type is a data type with `ok` and `err`. Borrowed and
-- owned strings are one, and so are the counters that only measure work (perf::charge).
--
-- Bounds: u32 casts of byte counts and of mapped positions keep their wrap-around (Common.Tests,
-- Common.Int); the theorems say how much room below 2 ^ 32 rules it out. Chunk offsets and lengths
-- are not larger than the text, so their casts are left out. `rebuild_with` runs its inner loop on as
-- many rounds as there are chunks left, and two: each round after the first reads a chunk. The
-- snippet parser has as many rounds as its body has chars, and each takes one. Arena.Prune has as many
-- rounds as the tree has nodes, and one to stop. Row and body lengths below 2 ^ 32 are taken for
-- granted in DirtyRanges, Snippet and Encoding. A scan of the decoder has one round more than its buffer
-- has bytes, since each round but the last takes a line; a push has three rounds: one that ends a body or a
-- skip, one that scans, and one that returns. A `usize` has 64 bits in Header and Frame. A read of the
-- reader may have any length. The `AtomicBool` that a reader loads is a function from the number of the load.
--
-- Not modelled: the rows and columns of a rope, decorations, folds, the highlighters, search and
-- brackets, the snippet session, the document and its verbs; the front end; the client, its session,
-- the line diff of its formatter edits, and the threads, sockets and processes of its transports.
pub mod Common
pub mod Coords
pub mod Patch
pub mod Text
pub mod Ropey
pub mod Rope
pub mod Buffer
pub mod Transaction
pub mod Selection
pub mod Arena
pub mod History
pub mod DirtyRanges
pub mod Snippet
pub mod Ticket
pub mod Restart
pub mod Encoding
pub mod Header
pub mod Frame
pub mod Shutdown
pub mod Writer
pub mod Reader
pub mod TextEdits
pub mod Tests
