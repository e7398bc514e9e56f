-- ===== src/Service/Departures/Handler.antt =====
-- internal/service/transit.go: the choice of the stop and the handler `NextDepartures`.
pub mod Timely
pub mod Honest
use mcp_grand_lyon.Base.{
  ℕ, String, Bool, true, false, ◌&&◌, ◌||◌, not, Option, none, some, List, [], ◌∷◌, map, filter,
  ltb, if◌then◌else◌, is_nil, length,
}
use mcp_grand_lyon.Base.Int.{ℤ, pos, or_default}
use mcp_grand_lyon.Base.Text.{Text, same, codes}
use mcp_grand_lyon.Model.Envelope.{Time, Envelope, new_envelope, warn, warn_if}
use mcp_grand_lyon.Model.Names.{Unicode, normalize}
use mcp_grand_lyon.Service.Freshness.{maximum_stale_seconds}
use mcp_grand_lyon.Service.Places.{PlaceCandidate}
use mcp_grand_lyon.Service.Departures.{
  Departure, NextDeparturesInput, is_wanted, start_at, use_realtime, as_scheduled, Board, Live,
  Answer, warn_live, warn_scheduled, warn_observed, finish_departures,
}

-- What the handler reads: the configuration, the clock, the store's stops near a place (nothing for
-- an error) and whether it has an index (likewise), the provider, if there is one, and the
-- timetable of a stop.
pub record Network (F : Type 0) : Type 0 where
  pub offline : Bool
  pub generated : Time
  pub configured : Option ℤ
  pub near : PlaceCandidate F → Option (List (PlaceCandidate F))
  pub has_index : Option Bool
  pub provider : Option (PlaceCandidate F → Live)
  pub timetable : PlaceCandidate F → Time → ℕ → Option (List Departure)

-- The stops to choose from, or the status, the summary and the warning of the answer without one.
pub data Choice (F : Type 0) : Type 0 where
  stops : PlaceCandidate F → List (PlaceCandidate F) → Choice F
  no_stop : String → String → Option (String × String × Bool) → Choice F

abbrev pub scheduled_list : Option (List Departure) → List Departure
scheduled_list none = []
scheduled_list (some ds) = map as_scheduled ds

module _ (upper lower : Text → Text) where
  unfoldable pub live_departures : NextDeparturesInput → Time → Live → List Departure
  live_departures input at live = filter (is_wanted upper lower input at) live.0

  abbrev pub filtered :
      NextDeparturesInput → Time → Option (List Departure) → Option (List Departure)
  filtered input at none = none
  filtered input at (some ds) = some (filter (is_wanted upper lower input at) ds)

module _ {F : Type 0} where
  abbrev without_stop : Option Bool → Choice F
  without_stop (some true) =
      no_stop "not_found" "No imported stop was found within 500 metres of this place." none
  without_stop _ =
      no_stop "unavailable" "The local stop index is unavailable."
        (some ("gtfs_tcl", "Import GTFS data before requesting departures near a place.", false))

  abbrev near_place : Network F → Option (List (PlaceCandidate F)) → Choice F
  near_place net none =
      no_stop "unavailable" "Nearby stops are unavailable."
        (some ("entities", "The local stop index could not be read.", true))
  near_place net (some []) = without_stop net.has_index
  near_place net (some (c ∷ cs)) = stops c cs

  -- `resolved` is what `ResolveRef` gives, no candidates for an error.
  unfoldable pub choose_stops : Network F → List (PlaceCandidate F) → Choice F
  choose_stops net [] = no_stop "not_found" "Stop not found." none
  choose_stops net (c ∷ cs) =
      let nearby = near_place net (net.near c) in
      if same c.kind (codes "transport_stop") then stops c cs else nearby

  abbrev empty_board : Board F
  empty_board = record { stop = none; departures = [] }

  abbrev warned : Option (String × String × Bool) → Answer F → Answer F
  warned none e = e
  warned (some (source, message, retryable)) e =
      warn e "SOURCE_UNAVAILABLE" source message retryable

  -- The provider's answer where it is asked.
  abbrev pub live_answer :
      Network F → PlaceCandidate F → Bool → Option (PlaceCandidate F → Live) → Live
  live_answer net stop asked none = ([], false)
  live_answer net stop asked (some provide) = if asked then provide stop else ([], false)

  module _ (upper lower : Text → Text) (unicode : Unicode) where
    -- Ambiguous unless the first of several stops has the name that was asked for.
    abbrev pub is_ambiguous :
        NextDeparturesInput → PlaceCandidate F → List (PlaceCandidate F) → Bool
    is_ambiguous input stop others =
        not (is_nil others)
        && not (same (normalize unicode stop.name) (normalize unicode input.stop_query))

    unfoldable pub scheduled_answer :
        Network F → NextDeparturesInput → PlaceCandidate F → ℕ → Time → Answer F → Answer F
    scheduled_answer net input stop limit at e =
        let found = filtered upper lower input at (net.timetable stop at limit) in
        finish_departures stop limit (scheduled_list found) (warn_scheduled net.generated found e)

    unfoldable pub live_answered :
        Network F → PlaceCandidate F → ℕ → List Departure → Answer F → Answer F
    live_answered net stop limit ds e =
        finish_departures stop limit ds
          (warn_observed net.generated (maximum_stale_seconds net.configured) ds e)

    -- The envelope before the departures are chosen.
    unfoldable pub opening :
        Network F
        → NextDeparturesInput
        → Live
        → PlaceCandidate F
        → List (PlaceCandidate F)
        → Answer F
    opening net input live stop others = warn_live live (
        warn_if (is_ambiguous input stop others) (new_envelope net.generated "ok" "" empty_board)
          "AMBIGUOUS_PLACE" "places" "Several stops match; the first candidate is used." false)

    unfoldable pub departures_at :
        Network F → NextDeparturesInput → PlaceCandidate F → List (PlaceCandidate F) → Answer F
    departures_at net input stop others =
        let limit = or_default input.limit 6 in
        let at = start_at net.generated input.at in
        let live =
          live_answer net stop (use_realtime net.offline net.generated input.at) net.provider in
        let ds = live_departures upper lower input at live in
        let e = opening net input live stop others in
        if is_nil ds
        then scheduled_answer net input stop limit at e
        else live_answered net stop limit ds e

    abbrev pub answered : Network F → NextDeparturesInput → Choice F → Answer F
    answered net input (no_stop status summary warning) =
        warned warning
          (record (new_envelope net.generated "ok" summary empty_board) { status = status })
    answered net input (stops stop others) = departures_at net input stop others

    unfoldable pub next_departures :
        Network F → NextDeparturesInput → List (PlaceCandidate F) → Answer F
    next_departures net input resolved = answered net input (choose_stops net resolved)
