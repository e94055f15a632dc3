-- ===== src/Ticket.antt =====
-- Request tickets of the editor's language services (crates/matcha-core/src/intel/ticket.rs). A
-- revision is its number, and a counter issues fewer than 2 ^ 64 tickets.
pub mod Issued
use matcha.Common.{ℕ, ◌+◌}

pub record Ticket : Type 0 where
  pub seq : ℕ
  pub revision : ℕ

pub record Counter : Type 0 where
  pub issued : ℕ

abbrev pub new : Counter
new = record { issued = 0 }

unfoldable pub issue : Counter → ℕ → Counter × Ticket
issue c revision =
    let issued = c.issued + 1 in
    (record { issued = issued }, record { seq = issued; revision = revision })
