-- ===== src/Model/GtfsTime/Bounds.antt =====
-- How far from its service day a time of internal/model/helpers.go's `ParseGTFSTime` lies.
use mcp_grand_lyon.Base.{ℕ, ◌+◌, ◌-◌, ◌*◌, ◌≡◌, ◌≤◌, ◌<◌, Option, some, List, [], ◌∷◌, arith}
use mcp_grand_lyon.Base.Int.{ℤ}
use mcp_grand_lyon.Base.Text.{Text, split, atoi}
use mcp_grand_lyon.Model.Envelope.{Time}
use mcp_grand_lyon.Model.GtfsTime.{hour, from_numbers, parse_gtfs_time, from_parts}

from_numbers-bounds :
    (noon : Time) (h m s : Option ℤ) (t : Time)
    → from_numbers noon h m s ≡ some t
    → (noon - 12 * hour ≤ t) × (t < noon - 12 * hour + 100 * hour)
unfolding from_numbers
from_numbers-bounds noon h m s t e = ground arith

from_parts-bounds :
    (noon : Time) (parts : List Text) (t : Time)
    → from_parts noon parts ≡ some t
    → (noon - 12 * hour ≤ t) × (t < noon - 12 * hour + 100 * hour)
from_parts-bounds noon [] t e = ground arith
from_parts-bounds noon (h ∷ []) t e = ground arith
from_parts-bounds noon (h ∷ m ∷ []) t e = ground arith
from_parts-bounds noon (h ∷ m ∷ s ∷ []) t e =
    from_numbers-bounds noon (atoi h) (atoi m) (atoi s) t e
from_parts-bounds noon (h ∷ m ∷ s ∷ x ∷ xs) t e = ground arith

-- An accepted time lies at most twelve hours before the noon of its service day, and less than a
-- hundred hours after that.
pub parse_gtfs_time-bounds :
    (noon : ℕ → Time) (value : Text) (day : ℕ) (t : Time)
    → parse_gtfs_time noon value day ≡ some t
    → (noon day - 12 * hour ≤ t) × (t < noon day - 12 * hour + 100 * hour)
unfolding parse_gtfs_time
parse_gtfs_time-bounds noon value day t e = from_parts-bounds (noon day) (split b':' value) t e
