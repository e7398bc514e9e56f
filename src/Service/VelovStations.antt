-- ===== src/Service/VelovStations.antt =====
-- internal/service/velov.go: `VelovStations`. The point that `ResolvePoint` finds, the provider's
-- answer (its stations, and whether it also failed), the configured limit of the source, the clock
-- and the recording of a station in the history (whether it succeeds) are arguments. The texts that
-- print a number are given without it.
pub mod Offered
pub mod Answer
mod Tests
use mcp_grand_lyon.Base.{
  is_nil, ℕ, ◌+◌, ◌-◌, ◌/◌, ◌*◌, String, Bool, true, false, ◌&&◌, ◌||◌, not, Option, none, some,
  List, [], ◌∷◌, map, any, all, filter, take, ltb, ◌=ₛ◌, if◌then◌else◌, is_some, value_or,
}
use mcp_grand_lyon.Base.Int.{ℤ, pos, ltb_ℤ, or_default}
use mcp_grand_lyon.Base.Sort.{sort_stable}
use mcp_grand_lyon.Model.Envelope.{
  Time, Envelope, SourceProvenance, new_envelope, add_source, warn, warn_if,
}
use mcp_grand_lyon.Model.Float.{Float, Point, distance}
use mcp_grand_lyon.Model.Records.{VelovStation}
use mcp_grand_lyon.Service.Freshness.{maximum_stale_seconds, latest_retrieval, ns_per_second}

-- The loop over the ages: the oldest observation, the first of those, and its age.
unfoldable pub oldest_age : Option (Time × ℕ) → List (Time × ℕ) → Option (Time × ℕ)
oldest_age best [] = best
oldest_age none (o ∷ os) = oldest_age (some o) os
oldest_age (some b) (o ∷ os) =
    let replace = oldest_age (some o) os in
    let keep = oldest_age (some b) os in if ltb b.1 o.1 then replace else keep

module _ (fl : Float) where
  open fl use {F, literal, lt, eq}

  abbrev pub Stations : Type 0
  Stations = List (VelovStation F)

  abbrev pub reach : Point F → VelovStation F → F
  reach point s = distance fl point (record { latitude = s.latitude; longitude = s.longitude })

  -- The three conditions on which the loop skips a station.
  unfoldable pub is_near : Point F → F → ℤ → VelovStation F → Bool
  is_near point radius minimum s =
      not (lt radius (reach point s))
      && not (ltb_ℤ s.bikes_available minimum)
      && not (s.status =ₛ "closed")

  abbrev pub placed : Point F → VelovStation F → VelovStation F
  placed point s = record s { distance_m = some (reach point s) }

  abbrev pub closer : VelovStation F → VelovStation F → Bool
  closer a b = lt (value_or a.distance_m (literal "0")) (value_or b.distance_m (literal "0"))

  unfoldable pub near_stations : Point F → F → ℤ → ℕ → Stations → Stations
  near_stations point radius minimum limit ss =
      take limit
        (sort_stable closer (map (placed point) (filter (is_near point radius minimum) ss)))

  -- `stationAge` of an observation.
  abbrev pub station_age : Time → Time → ℕ
  station_age now t = (now - t) / ns_per_second

  unfoldable pub ages : Time → Stations → List (Time × ℕ)
  ages now [] = []
  ages now (s ∷ ss) = elim s.observed_at [
    | none ↦ ages now ss
    | some t ↦ (t, station_age now t) ∷ ages now ss
  ]

  abbrev or_now : Option Time → Time → Option Time
  or_now none now = some now
  or_now (some t) now = some t

  abbrev is_missing : Stations → Bool
  is_missing ss = any (λ s. not (is_some s.observed_at)) ss

  abbrev exceeds : Time → ℕ → Stations → Bool
  exceeds now maximum ss = any (λ o. ltb maximum o.1) (ages now ss)

  abbrev first_of : Option (Time × ℕ) → Option Time
  first_of none = none
  first_of (some o) = some o.0

  abbrev age_of : Option (Time × ℕ) → Option ℕ
  age_of none = none
  age_of (some o) = some o.1

  abbrev provenance : Time → ℕ → Stations → SourceProvenance
  provenance now maximum ss =
      let oldest = oldest_age none (ages now ss) in
      record {
        provider = "DataGrandLyon";
        source_id = "velov_realtime";
        dataset = "velov_realtime";
        attribution = "Métropole de Lyon / JCDecaux";
        license = "unknown";
        observed_at = first_of oldest;
        retrieved_at = or_now (latest_retrieval (map (λ s. s.retrieved_at) ss)) now;
        age_seconds = age_of oldest;
        realtime = true;
        stale = exceeds now maximum ss;
      }

  -- The history loop: it stops with a warning at the first station that is not recorded, and skips
  -- those without an observation.
  abbrev pub recorded : (VelovStation F → Bool) → Stations → Bool
  recorded record_velov ss = all (λ s. not (is_some s.observed_at) || record_velov s) ss

  unfoldable pub assemble_stations :
      Time → ℕ → Bool → (VelovStation F → Bool) → Stations → Envelope Stations
  assemble_stations now maximum failed record_velov ss =
      let e1 =
        warn_if failed (new_envelope now "ok" "Vélo'v station(s) found." ss) "PARTIAL_RESULT"
          "velov_realtime" "Vélo'v stations are incomplete because a later source page failed."
          true in
      let e2 =
        warn_if (exceeds now maximum ss) e1 "STALE_DATA" "velov_realtime"
          "Vélo'v observations exceed the freshness limit." false in
      let e3 =
        warn_if (is_missing ss) e2 "PARTIAL_RESULT" "velov_realtime"
          "Some Vélo'v stations have no observation timestamp." false in
      warn_if (not (recorded record_velov ss)) (add_source e3 (provenance now maximum ss))
        "PARTIAL_RESULT" "velov_history" "Vélo'v history was not recorded." true

  abbrev pub unavailable : Time → String → String → Envelope Stations
  unavailable now summary message =
      warn (new_envelope now "unavailable" summary []) "SOURCE_UNAVAILABLE" "velov_realtime" message
        true

  abbrev pub radius_of : F → F
  radius_of radius =
      if lt radius (literal "0") || eq radius (literal "0") then literal "1000" else radius

  unfoldable pub velov_stations :
      Time
      → Option ℤ
      → Option (Point F)
      → Option (Point F → F → ℕ → Stations × Bool)
      → (VelovStation F → Bool)
      → F
      → ℤ
      → ℤ
      → Envelope Stations
  velov_stations now configured none provide record_velov radius minimum limit =
      new_envelope now "not_found" "Place not found for Vélo'v." []
  velov_stations now configured (some point) none record_velov radius minimum limit =
      unavailable now "Vélo'v source is unavailable." "Vélo'v provider is not configured."
  velov_stations now configured (some point) (some provide) record_velov radius minimum limit =
      let n = or_default limit 10 in
      let (stations, failed) = provide point (radius_of radius) (n * 2) in
      if failed && is_nil stations
      then unavailable now "Vélo'v data is unavailable." "Vélo'v retrieval failed."
      else assemble_stations now (maximum_stale_seconds configured) failed record_velov
          (near_stations point (radius_of radius) minimum n stations)
