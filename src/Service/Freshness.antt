-- ===== src/Service/Freshness.antt =====
-- internal/service/freshness.go: the age of observations, the oldest observation and the latest
-- retrieval of a set, and the removal of repeated sources. An age is the whole number of seconds
-- between two instants; float64 holds it exactly for ages below 2 ^ 23 seconds.
pub mod Age
pub mod Extremes
pub mod Sources
use Prim.Native.String
use mcp_grand_lyon.Base.{
  ℕ, zero, suc, ◌-◌, ◌/◌, String, Bool, true, false, ◌&&◌, not, Option, none, some, List, [], ◌∷◌,
  ltb, ◌==◌, ◌=ₛ◌, if◌then◌else◌, any,
}
use mcp_grand_lyon.Base.Int.{ℤ, pos, ltb_ℤ, or_default}
use mcp_grand_lyon.Base.Unique.{unique_by}
use mcp_grand_lyon.Model.Envelope.{Time, SourceProvenance}

abbrev pub ns_per_second : ℕ
ns_per_second = 1_000_000_000

-- The configured limit of a source: its `maximum_stale_seconds`, or the default of 300 seconds
-- where the store, the source or a positive value is missing.
unfoldable pub maximum_stale_seconds : Option ℤ → ℕ
maximum_stale_seconds none = 300
maximum_stale_seconds (some value) = or_default value 300

-- A pointer that is not nil to an instant that is not the zero time.
abbrev pub known : Option Time → Option Time
known none = none
known (some t) = if t == 0 then none else some t

abbrev assess : Time → ℤ → Option Time → Option ℕ × Bool × Bool
assess now maximum none = (none, false, true)
assess now maximum (some t) =
    let age = (now - t) / ns_per_second in
    (some age, ltb_ℤ (pos 0) maximum && ltb_ℤ maximum (pos age), false)

-- The age, and whether it is stale and whether it is missing. The retrieval time is not used.
unfoldable pub observation_freshness : Option Time → Option Time → Time → ℤ → Option ℕ × Bool × Bool
observation_freshness observed retrieved now maximum = assess now maximum (known observed)

-- One round of the loops of `oldestObservation` and `latestRetrieval`, which differ in the test.
abbrev pub choose : (Time → Time → Bool) → Option Time → Option Time → Option Time
choose before best none = best
choose before none (some t) = some t
choose before (some o) (some t) = if before t o then some t else some o

pub pick_from : (Time → Time → Bool) → Option Time → List (Option Time) → Option Time
pick_from before best [] = best
pick_from before best (v ∷ vs) = pick_from before (choose before best (known v)) vs

-- `value.After(*latest)`.
abbrev pub is_after : Time → Time → Bool
is_after t l = ltb l t

unfoldable pub oldest_observation : List (Option Time) → Option Time
oldest_observation vs = pick_from ltb none vs

unfoldable pub latest_retrieval : List (Option Time) → Option Time
latest_retrieval vs = pick_from is_after none vs

unfoldable pub retrieval_time : Option Time → Time → Time
retrieval_time retrieved fallback = elim (known retrieved) [ none ↦ fallback | some t ↦ t ]

infixl 65 ◌+++◌
abbrev pub ◌+++◌ : String → String → String
s +++ t = String.◌++◌ s t

abbrev pub source_key : SourceProvenance → String
source_key v = v.provider +++ "|" +++ v.source_id +++ "|" +++ v.dataset

unfoldable pub unique_sources : List SourceProvenance → List SourceProvenance
unique_sources vs = unique_by ◌=ₛ◌ source_key vs
