-- ===== src/Service/Facilities/Hours.antt =====
-- The opening hours of internal/service/facilities.go's `openingStatusAt`, as an arc of the clock.
use mcp_grand_lyon.Base.{ℕ, ◌+◌, ◌-◌, ◌%◌, ◌≡◌, ◌<◌, ◌↔◌, true, arith}
use mcp_grand_lyon.Service.Facilities.{is_open}

-- Minutes from `start` to `m`, round the clock.
abbrev pub minutes_after : ℕ → ℕ → ℕ
minutes_after start m = (m + 1440 - start) % 1440

-- For times of the day, a place is open exactly if fewer minutes lie, round the clock, from its
-- opening to now than from its opening to its closing.
pub is_open_iff_arc :
    (start stop m : ℕ)
    → start < 1440
    → stop < 1440
    → m < 1440
    → (is_open start stop m ≡ true) ↔ (minutes_after start m < minutes_after start stop)
unfolding is_open
is_open_iff_arc start stop m hs ht hm = ground arith
