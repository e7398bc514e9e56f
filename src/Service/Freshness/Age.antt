-- ===== src/Service/Freshness/Age.antt =====
-- When internal/service/freshness.go takes an observation for fresh.
use mcp_grand_lyon.Base.{
  ℕ, suc, ◌+◌, ◌*◌, ◌≡◌, ◌≢◌, ◌<◌, ◌↔◌, Bool, false, Option, none, some, arith, refl,
}
use mcp_grand_lyon.Base.Int.{pos}
use mcp_grand_lyon.Model.Envelope.{Time}
use mcp_grand_lyon.Service.Freshness.{observation_freshness, ns_per_second}

-- Neither stale nor missing.
abbrev pub IsFresh : Option ℕ × Bool × Bool → Type 0
IsFresh r = (r.1 ≡ false) × (r.2 ≡ false)

-- With a limit of n + 1 seconds an observation is fresh exactly if it has a timestamp other than
-- the zero time that lies less than n + 2 seconds back; a timestamp in the future is fresh.
pub observation_freshness-IsFresh_iff :
    (observed retrieved : Option Time) (now n : ℕ)
    → IsFresh (observation_freshness observed retrieved now (pos (suc n)))
      ↔ ((t : Time) × (observed ≡ some t) × (t ≢ 0) × (now < t + (n + 2) * ns_per_second))
unfolding observation_freshness
observation_freshness-IsFresh_iff none retrieved now n = (λ h. cc, λ h. cc)
observation_freshness-IsFresh_iff (some t) retrieved now n =
    (λ h. (t, refl, ground arith, ground arith), λ h. ground (arith, h.1))
