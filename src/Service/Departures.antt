-- ===== src/Service/Departures.antt =====
-- internal/service/transit.go: `NextDepartures`. The stops that `ResolveRef` finds, the store's index
-- of stops, the provider's answer for a stop (its departures, and whether it also failed), the
-- timetable's answer and the clock are arguments. The texts that print a number or a name are given
-- without it.
pub mod Handler
mod Tests
use mcp_grand_lyon.Base.{
  value_or, is_nil, ℕ, ◌+◌, ◌-◌, ◌*◌, String, Bool, true, false, ◌&&◌, ◌||◌, not, Option, none,
  some, List, [], ◌∷◌, map, any, filter, take, ltb, leb, if◌then◌else◌, is_some,
}
use mcp_grand_lyon.Base.Int.{ℤ, pos, or_default}
use mcp_grand_lyon.Base.Sort.{sort_stable}
use mcp_grand_lyon.Base.Text.{Text, same, codes}
use mcp_grand_lyon.Model.Envelope.{
  Time, Envelope, SourceProvenance, new_envelope, add_source, warn, warn_if,
}
use mcp_grand_lyon.Model.Float.{Float, Point}
use mcp_grand_lyon.Model.GtfsTime.{hour}
use mcp_grand_lyon.Model.Line.{line_matches, contains}
use mcp_grand_lyon.Model.Names.{Unicode, normalize}
use mcp_grand_lyon.Service.Freshness.{
  observation_freshness, oldest_observation, latest_retrieval, maximum_stale_seconds, ns_per_second,
}
use mcp_grand_lyon.Service.Places.{PlaceCandidate}

pub record Departure : Type 0 where
  pub line_id : Text
  pub line_name : Text
  pub destination : Text
  pub platform : Option Text
  pub stop_ref : Option Text
  pub scheduled_at : Option Time
  pub expected_at : Option Time
  pub observed_at : Option Time
  pub delay_seconds : Option ℤ
  pub realtime : Bool
  pub cancelled : Bool

pub record NextDeparturesInput : Type 0 where
  pub stop_query : Text
  pub line : Text
  pub direction : Text
  pub at : Option Time
  pub limit : ℤ

-- The expected instant, or the scheduled one.
abbrev pub when_of : Departure → Option Time
when_of d = elim d.expected_at [ none ↦ d.scheduled_at | some t ↦ some t ]

-- Go would panic where both instants are missing; the filter lets no such departure pass.
abbrev pub instant_of : Departure → Time
instant_of d = value_or (when_of d) 0

abbrev pub sooner : Departure → Departure → Bool
sooner a b = ltb (instant_of a) (instant_of b)

abbrev pub within_day : Time → Option Time → Bool
within_day at none = false
within_day at (some t) = not (ltb t at) && ltb t (at + 24 * hour)

module _ (upper lower : Text → Text) (input : NextDeparturesInput) where
  abbrev pub goes_there : Departure → Bool
  goes_there d = same input.direction [] || contains (lower input.direction) (lower d.destination)

  -- What the closure `filter` keeps.
  unfoldable pub is_wanted : Time → Departure → Bool
  is_wanted at d =
      line_matches upper input.line (d.line_name ∷ d.line_id ∷ [])
      && goes_there d
      && within_day at (when_of d)

abbrev pub start_at : Time → Option Time → Time
start_at generated none = generated
start_at generated (some t) = t

abbrev close_to : Time → Time → Bool
close_to generated at =
    leb (at - generated) (300 * ns_per_second) && leb (generated - at) (300 * ns_per_second)

unfoldable pub use_realtime : Bool → Time → Option Time → Bool
use_realtime offline generated none = true
use_realtime offline generated (some at) = offline || close_to generated at

abbrev pub as_scheduled : Departure → Departure
as_scheduled d = record d { realtime = false; observed_at = none }

-- The data of the answer: the stop, none for the empty object.
pub record Board (F : Type 0) : Type 0 where
  pub stop : Option (PlaceCandidate F)
  pub departures : List Departure

abbrev gtfs_source : Time → SourceProvenance
gtfs_source generated = record {
  provider = "GTFS";
  source_id = "gtfs_tcl";
  dataset = "GTFS_TCL";
  attribution = "SYTRAL Mobilités";
  license = "unknown";
  observed_at = none;
  retrieved_at = some generated;
  age_seconds = none;
  realtime = false;
  stale = false;
}

-- The departures that were observed.
abbrev observations : List Departure → List (Option Time)
observations [] = []
observations (d ∷ ds) = elim d.observed_at [
  | none ↦ observations ds
  | some t ↦ some t ∷ observations ds
]

abbrev is_stale : Time → ℕ → Option Time → Bool
is_stale generated maximum o = (observation_freshness o none generated (pos maximum)).1

abbrev age_of : Time → ℕ → Option Time → Option ℕ
age_of generated maximum none = none
age_of generated maximum (some t) =
    (observation_freshness (some t) (some generated) generated (pos maximum)).0

abbrev or_generated : Option Time → Time → Option Time
or_generated none generated = some generated
or_generated (some t) generated = some t

abbrev live_source : Time → ℕ → List Departure → SourceProvenance
live_source generated maximum ds =
    let observed = oldest_observation (observations ds) in
    record {
      provider = "DataGrandLyon";
      source_id = "tcl_departures";
      dataset = "prochains_passages";
      attribution = "SYTRAL Mobilités";
      license = "unknown";
      observed_at = observed;
      retrieved_at =
          or_generated (latest_retrieval (map (λ o. some generated) (observations ds))) generated;
      age_seconds = age_of generated maximum observed;
      realtime = true;
      stale = any (is_stale generated maximum) (observations ds);
    }

-- A source's answer: departures, and whether it failed.
abbrev pub Live : Type 0
Live = List Departure × Bool

abbrev pub Answer : Type 0 → Type 0
Answer F = Envelope (Board F)

abbrev pub soonest : ℕ → List Departure → List Departure
soonest limit ds = take limit (sort_stable sooner ds)

module _ {F : Type 0} where
  -- What the provider's failure adds.
  unfoldable pub warn_live : Live → Answer F → Answer F
  warn_live (raw, failed) e =
      if failed
      then if is_nil raw
        then warn e "SOURCE_UNAVAILABLE" "tcl_departures"
            "Realtime departures are unavailable; use GTFS when possible." true
        else warn e "PARTIAL_RESULT" "tcl_departures"
            "Realtime departures are incomplete because a later source page failed." true
      else e

  -- The fallback, with the timetable's filtered departures; nothing for an error.
  unfoldable pub warn_scheduled : Time → Option (List Departure) → Answer F → Answer F
  warn_scheduled generated none e =
      warn e "SOURCE_UNAVAILABLE" "gtfs" "Scheduled departures are unavailable." true
  warn_scheduled generated (some ds) e =
      warn_if (not (is_nil ds)) (add_source e (gtfs_source generated)) "STALE_DATA" "gtfs_tcl"
        "These are scheduled GTFS departures, not realtime observations." false

  unfoldable pub warn_observed : Time → ℕ → List Departure → Answer F → Answer F
  warn_observed generated maximum ds e =
      warn_if (any (is_stale generated maximum) (observations ds))
        (warn_if (any (λ d. not (is_some d.observed_at)) ds)
          (add_source e (live_source generated maximum ds)) "PARTIAL_RESULT" "tcl_departures"
          "Some realtime departures have no observation timestamp, so their age is unknown." false)
        "STALE_DATA" "tcl_departures" "Realtime departures exceed the freshness limit." false

  abbrev board_of : PlaceCandidate F → List Departure → Board F
  board_of stop ds = record { stop = some stop; departures = ds }

  -- The end of the handler.
  unfoldable pub finish_departures : PlaceCandidate F → ℕ → List Departure → Answer F → Answer F
  finish_departures stop limit ds e =
      let board = board_of stop (soonest limit ds) in
      if is_nil (soonest limit ds)
      then record e {
        payload = board;
        summary = "departure(s)";
        degraded = true;
        status = if is_nil e.warnings then "not_found" else "unavailable";
      }
      else record e { payload = board; summary = "departure(s)" }
