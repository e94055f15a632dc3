-- ===== src/Frame/Reads.antt =====
-- No read makes the decoder panic or run out of rounds, and what it keeps stays bounded.
use matcha.Common.{ℕ, ◌<◌, ◌≡◌, ◌⊎◌, Option, none, some, [], arith}
use matcha.Frame.{noise_lines, Round, returned, again, default}
use matcha.Frame.Settled.{IsResting}

-- A round returns at rest, or goes on at rest after it took something, with no more to read or between
-- the lines.
abbrev RoundWell : ℕ → Option Round → Type 0
RoundWell size none = ⊥
RoundWell size (some (returned d items)) = IsResting d
RoundWell size (some (again d input items)) =
    IsResting d × (0 < size) × ((input ≡ []) ⊎ (d.state ≡ noise_lines))

-- A round that scans goes on with nothing to read.
abbrev ScanWell : ℕ → Option Round → Type 0
ScanWell size none = ⊥
ScanWell size (some (returned d items)) = IsResting d
ScanWell size (some (again d input items)) = IsResting d × (0 < size) × (input ≡ [])

pub default-IsResting : IsResting default
default-IsResting = omega arith
