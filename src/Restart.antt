-- ===== src/Restart.antt =====
-- Whether a lost language server is started again (crates/matcha-lsp/src/restart.rs). An `Instant` and
-- a `Duration` are numbers of one unit, seconds here, and `duration_since` stops at 0, as the standard library
-- documents it.
pub mod Recent
pub mod Verdicts
use matcha.Common.{ℕ, ◌-◌, List, [], ◌∷◌, ◌++◌, length, leb, if◌then◌else◌}

pub data Policy : Type 0 where
  never : Policy
  -- `count` restarts inside one window, and the width of the window.
  up_to : ℕ → ℕ → Policy

-- Four restarts within three minutes.
abbrev pub default : Policy
default = up_to 4 180

-- The losses that count, oldest first.
pub record Window : Type 0 where
  pub policy : Policy
  pub losses : List ℕ

-- `Restart`, `Exhausted` and `Never`.
pub data Verdict : Type 0 where
  restart exhausted stopped : Verdict

unfoldable pub new : Policy → Window
new policy = record { policy = policy; losses = [] }

-- `admit` under `UpTo`, on the losses with the new one pushed. The list is never empty there.
unfoldable pub judge : Policy → ℕ → ℕ → ℕ → List ℕ → Window × Verdict
judge policy count within now [] = (record { policy = policy; losses = [] }, restart)
judge policy count within now (oldest ∷ rest) =
    if leb (length (oldest ∷ rest)) count
    then (record { policy = policy; losses = oldest ∷ rest }, restart)
    else if leb (now - oldest) within
    then (record { policy = policy; losses = oldest ∷ rest }, exhausted)
    else (record { policy = policy; losses = rest }, restart)

unfoldable pub admit : Window → ℕ → Window × Verdict
unfolding judge
admit w now = elim w.policy [
  | never ↦ (w, stopped)
  | up_to count within ↦ judge w.policy count within now (w.losses ++ now ∷ [])
]

unfoldable pub reset : Window → Window
reset w = record w { losses = [] }
