-- ===== src/Model/GtfsTime.antt =====
-- internal/model/helpers.go: `ParseGTFSTime`. A day is a number, and `noon` the instant of its noon
-- in Paris (`time.Date`).
pub mod Bounds
use mcp_grand_lyon.Base.{
  ℕ, ◌+◌, ◌-◌, ◌*◌, Bool, true, false, ◌&&◌, Option, none, some, List, [], ◌∷◌, leb, if◌then◌else◌,
}
use mcp_grand_lyon.Base.Int.{ℤ, pos, negsuc}
use mcp_grand_lyon.Base.Text.{Text, split, atoi}
use mcp_grand_lyon.Model.Envelope.{Time}

abbrev pub hour : ℕ
hour = 3_600_000_000_000

-- The instant at h:m:s past midnight, by the clock that shows twelve at noon.
abbrev pub at_clock : Time → ℕ → ℕ → ℕ → Time
at_clock noon h m s = noon - 12 * hour + (h * 3600 + m * 60 + s) * 1_000_000_000

unfoldable pub from_numbers : Time → Option ℤ → Option ℤ → Option ℤ → Option Time
from_numbers noon (some (pos h)) (some (pos m)) (some (pos s)) =
    if leb h 99 && leb m 59 && leb s 59 then some (at_clock noon h m s) else none
from_numbers noon _ _ _ = none

abbrev from_parts : Time → List Text → Option Time
from_parts noon (h ∷ m ∷ s ∷ []) = from_numbers noon (atoi h) (atoi m) (atoi s)
from_parts noon _ = none

unfoldable pub parse_gtfs_time : (ℕ → Time) → Text → ℕ → Option Time
parse_gtfs_time noon value day = from_parts (noon day) (split b':' value)
