-- ===== src/Service/Parking.antt =====
-- internal/service/parking.go: `ParkingOptions` and `normalizeParkingOptions`. The place that
-- `ResolvePoint` finds, the provider's answer (its options, and whether it also failed), the
-- configured limit of the source and the clock are arguments. The texts that print
-- a number are given without it.
pub mod Normalize
pub mod Answer
use mcp_grand_lyon.Base.{
  ℕ, zero, suc, String, Bool, true, false, ◌&&◌, ◌||◌, not, Option, none, some, List, [], ◌∷◌, map,
  any, ◌=ₛ◌, if◌then◌else◌, ◌+◌,
}
use mcp_grand_lyon.Base.Int.{ℤ, pos, ltb_ℤ, or_default}
use mcp_grand_lyon.Model.Envelope.{Time, Envelope, SourceProvenance, new_envelope, warn, warn_if}
use mcp_grand_lyon.Model.Float.{Float, Point, distance}
use mcp_grand_lyon.Model.Records.{ParkingOption}
use mcp_grand_lyon.Service.Freshness.{
  maximum_stale_seconds, observation_freshness, oldest_observation, latest_retrieval,
}

-- parkingAvailabilityComplete, Missing and Partial.
pub data Availability : Type 0 where
  complete missing partial : Availability

abbrev is_empty {ℓ} : {A : Type ℓ} → List A → Bool
is_empty [] = true
is_empty (x ∷ xs) = false

abbrev pub allows : List String → String → Bool
allows types type = is_empty types || any (λ t. t =ₛ type) types

abbrev enough : Option ℤ → ℤ → Bool
enough none minimum = true
enough (some n) minimum = not (ltb_ℤ n minimum)

abbrev pub is_zero : ℤ → Bool
is_zero (pos zero) = true
is_zero _ = false

abbrev unless_closed : String → String → String
unless_closed status other = if status =ₛ "closed" then status else other

module _ (fl : Float) where
  open fl use {F, lt, of_int}

  abbrev pub reach : Point F → ParkingOption F → F
  reach point o = distance fl point (record { latitude = o.latitude; longitude = o.longitude })

  -- The three conditions on which the loop skips an option.
  unfoldable pub keeps : Point F → List String → F → ℤ → ParkingOption F → Bool
  keeps point types radius minimum o =
      not (lt radius (reach point o)) && allows types o.type && enough o.available_spaces minimum

  abbrev with_spaces : Option ℤ → ParkingOption F → ParkingOption F
  with_spaces none o = record o {
    realtime = false;
    availability_ratio = none;
    status = unless_closed o.status "unknown";
  }
  with_spaces (some n) o = record o {
    status = if is_zero n then unless_closed o.status "full" else o.status;
  }

  unfoldable pub adjust : Point F → ParkingOption F → ParkingOption F
  adjust point o = with_spaces o.available_spaces (record o { distance_m = some (reach point o) })

  -- The loop, with room for `suc room` more results; it breaks when there is none left.
  unfoldable pub collect :
      Point F → List String → F → ℤ → ℕ → List (ParkingOption F) → List (ParkingOption F)
  collect point types radius minimum room [] = []
  collect point types radius minimum zero (o ∷ os) =
      let skip = collect point types radius minimum zero os in
      if keeps point types radius minimum o then adjust point o ∷ [] else skip
  collect point types radius minimum (suc room) (o ∷ os) =
      let skip = collect point types radius minimum (suc room) os in
      let keep = adjust point o ∷ collect point types radius minimum room os in
      if keeps point types radius minimum o then keep else skip

  abbrev pub has_spaces : ParkingOption F → Bool
  has_spaces o = elim o.available_spaces [ none ↦ false | some n ↦ true ]

  -- `hasLive` and `hasUnknown` are set for exactly the options that are appended.
  unfoldable pub availability_of : List (ParkingOption F) → Availability
  availability_of result =
      if is_empty result || not (any (λ o. not (has_spaces o)) result)
      then complete
      else if any has_spaces result
      then partial
      else missing

  abbrev last_room : ℤ → ℕ
  last_room limit = elim (or_default limit 10) [ zero ↦ zero | suc n ↦ n ]

  unfoldable pub normalize_parking_options :
      Point F
      → List (ParkingOption F)
      → List String
      → F
      → ℤ
      → ℤ
      → List (ParkingOption F) × Availability
  unfolding collect availability_of
  normalize_parking_options point options types radius minimum limit =
      let result = collect point types radius minimum (last_room limit) options in
      (result, availability_of result)

  -- The loop of `ParkingOptions` over the normalized options.
  abbrev stamped : Time → ParkingOption F → ParkingOption F
  stamped now o = elim o.retrieved_at [ none ↦ record o { retrieved_at = some now } | some t ↦ o ]

  abbrev freshness_of : Time → ℕ → ParkingOption F → Option ℕ × Bool × Bool
  freshness_of now maximum o = observation_freshness o.observed_at o.retrieved_at now (pos maximum)

  abbrev mark_stamped : Time → ℕ → ParkingOption F → ParkingOption F
  mark_stamped now maximum o =
      if has_spaces o then record o { stale = (freshness_of now maximum o).1 } else o

  unfoldable pub mark : Time → ℕ → ParkingOption F → ParkingOption F
  mark now maximum o = mark_stamped now maximum (stamped now o)

  abbrev observations : List (ParkingOption F) → List (Option Time)
  observations [] = []
  observations (o ∷ os) = if has_spaces o then o.observed_at ∷ observations os else observations os

  abbrev some_stale : Time → ℕ → List (ParkingOption F) → Bool
  some_stale now maximum os = any (λ o. has_spaces o && (freshness_of now maximum o).1) os

  abbrev some_missing : Time → ℕ → List (ParkingOption F) → Bool
  some_missing now maximum os = any (λ o. has_spaces o && (freshness_of now maximum o).2) os

  abbrev or_now : Option Time → Time → Option Time
  or_now none now = some now
  or_now (some t) now = some t

  abbrev provenance : Time → ℕ → Bool → List (ParkingOption F) → List SourceProvenance
  provenance now maximum is_stale [] = []
  provenance now maximum is_stale (o ∷ os) =
      let observed = oldest_observation (observations (o ∷ os)) in
      let retrieved = or_now (latest_retrieval (map (λ p. p.retrieved_at) (o ∷ os))) now in
      record {
        provider = "DataGrandLyon";
        source_id = "parking_realtime";
        dataset = "parking_availability";
        attribution = "Métropole de Lyon";
        license = "unknown";
        observed_at = observed;
        retrieved_at = retrieved;
        age_seconds = (observation_freshness observed retrieved now (pos maximum)).0;
        realtime = true;
        stale = is_stale;
      }
      ∷ []

  abbrev warn_availability :
      Availability → Envelope (List (ParkingOption F)) → Envelope (List (ParkingOption F))
  warn_availability complete e = e
  warn_availability missing e =
      warn e "PARTIAL_RESULT" "parking_realtime" "No validated realtime availability is available."
        true
  warn_availability partial e =
      warn e "PARTIAL_RESULT" "parking_realtime" "Realtime availability is incomplete." false

  -- `failed` says whether the provider also returned an error.
  unfoldable pub assemble :
      Time → ℕ → Bool → List (ParkingOption F) → Availability → Envelope (List (ParkingOption F))
  assemble now maximum failed options availability =
      let marked = map (mark now maximum) options in
      let is_stale = some_stale now maximum marked in
      let status = if is_empty marked then "not_found" else "ok" in
      let e0 = record (new_envelope now status "parking options" marked) {
        sources = provenance now maximum is_stale marked;
      } in
      let e1 =
        warn_if failed e0 "PARTIAL_RESULT" "parking"
          "Some requested parking sources are unavailable." true in
      let e2 = warn_availability availability e1 in
      let e3 =
        warn_if (some_missing now maximum marked) e2 "PARTIAL_RESULT" "parking_realtime"
          "Some availability values have no observation timestamp, so their age is unknown."
          false in
      warn_if is_stale e3 "STALE_DATA" "parking_realtime"
        "Parking observations exceed the freshness limit." false

  abbrev unavailable_source : Time → Envelope (List (ParkingOption F))
  unavailable_source now =
      record (new_envelope now "unavailable" "Parking source is unavailable." []) {
        degraded = true;
      }

  abbrev failed_retrieval : Time → Envelope (List (ParkingOption F))
  failed_retrieval now =
      warn (new_envelope now "unavailable" "Parking data is unavailable." []) "SOURCE_UNAVAILABLE"
        "parking" "Parking retrieval failed." true

  abbrev radius_of : ℤ → F
  radius_of radius = of_int (pos (or_default radius 1500))

  -- `provide` is the provider, if there is one, at the point, the radius, the limit and the rest of
  -- the request.
  unfoldable pub parking_options :
      Time
      → Option ℤ
      → Option (Point F)
      → Option (Point F → List String → F → ℤ → ℕ → List (ParkingOption F) × Bool)
      → List String
      → ℤ
      → ℤ
      → ℤ
      → Envelope (List (ParkingOption F))
  parking_options now configured none provide types radius minimum limit =
      new_envelope now "not_found" "Destination not found." []
  parking_options now configured (some point) none types radius minimum limit =
      unavailable_source now
  parking_options now configured (some point) (some provide) types radius minimum limit =
      let (options, failed) =
        provide point types (radius_of radius) minimum
          (or_default limit 10 + or_default limit 10) in
      if failed && is_empty options
      then failed_retrieval now
      else let (kept, availability) =
          normalize_parking_options point options types (radius_of radius) minimum
            (pos (or_default limit 10)) in
        assemble now (maximum_stale_seconds configured) failed kept availability
