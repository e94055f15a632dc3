-- ===== src/Tests.antt =====
-- The theorems at concrete inputs, over a rope of one chunk.
pub mod Flat
pub mod Documents
mod Edits
mod Positions
mod Selections
mod Histories
mod Rows
mod Services
mod Snippets
mod Lines
mod Frames
mod Narrowings
mod Writers
mod Closings
