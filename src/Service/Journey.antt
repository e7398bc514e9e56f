-- ===== src/Service/Journey.antt =====
-- internal/service/journey.go: the part of `TripOptions` that follows the collection of the options
-- (timing, eligibility, ranking, recommendation and status), and the walking and car estimates.
-- `strings.ToLower` is a parameter, and so is float64 (Model.Float).
pub mod Eligibility
pub mod Ranking
pub mod App
pub mod Velov
pub mod Transit
pub mod ParkAndRide
pub mod Trips
use mcp_grand_lyon.Base.{
  ℕ, zero, suc, ◌+◌, ◌-◌, ◌*◌, String, Bool, true, false, ◌&&◌, ◌||◌, not, Option, none, some, List,
  [], ◌∷◌, ◌++◌, map, any, ltb, ◌=ₛ◌, if◌then◌else◌, is_some,
}
use mcp_grand_lyon.Base.Int.{ℤ, pos, negsuc, ltb_ℤ}
use mcp_grand_lyon.Base.Sort.{sort_stable}
use mcp_grand_lyon.Model.Envelope.{Time}
use mcp_grand_lyon.Model.Records.{
  TripOption, TripPreferences, TransitAlert, Reason, no_itinerary, no_evidence, walking_unknown,
  walking_exceeds, arrival_unknown, arrival_late, alerts_known, wheelchair_unverified,
  availability_unknown, availability_is_stale,
}

abbrev is_empty {ℓ} : {A : Type ℓ} → List A → Bool
is_empty [] = true
is_empty (x ∷ xs) = false

abbrev reason_if : Bool → Reason → List Reason
reason_if true r = r ∷ []
reason_if false r = []

-- The evidence that an itinerary needs.
abbrev pub is_evidence : String → Bool
is_evidence s = s =ₛ "calculated" || s =ₛ "estimated" || s =ₛ "mixed"

abbrev evidence_reasons : String → List Reason
evidence_reasons s =
    if is_evidence s then [] else if s =ₛ "unavailable" then no_itinerary ∷ [] else no_evidence ∷ []

abbrev pub is_accessible : String → Bool
is_accessible s = s =ₛ "accessible" || s =ₛ "wheelchair" || s =ₛ "wheelchair_accessible"

abbrev lowered : (String → String) → Option String → String
lowered lower none = ""
lowered lower (some s) = lower s

abbrev walking_reasons : Option ℤ → ℤ → List Reason
walking_reasons none max_walking = walking_unknown ∷ []
walking_reasons (some w) max_walking = reason_if (ltb_ℤ max_walking w) (walking_exceeds max_walking)

abbrev arrival_reasons : Option Time → Option Time → List Reason
arrival_reasons none arrival = []
arrival_reasons (some deadline) none = arrival_unknown ∷ []
arrival_reasons (some deadline) (some arrival) = reason_if (ltb deadline arrival) arrival_late

abbrev parking_reasons : String → Option String → Bool → List Reason
parking_reasons mode availability is_stale =
    if mode =ₛ "park_and_ride"
    then elim availability [
      | none ↦ availability_unknown ∷ []
      | some text ↦ reason_if is_stale availability_is_stale
    ]
    else []

-- `t.Add(time.Duration(n) * time.Second)`, for durations that a `time.Duration` holds.
abbrev pub add_seconds : Time → ℤ → Time
add_seconds t (pos n) = t + n * 1_000_000_000
add_seconds t (negsuc n) = t - suc n * 1_000_000_000

abbrev arrival_after : Time → Option ℤ → Option Time → Option Time
arrival_after departs none arrival = arrival
arrival_after departs (some d) none = some (add_seconds departs d)
arrival_after departs (some d) (some arrival) = some arrival

abbrev or_at : Option Time → Time → Time
or_at none t = t
or_at (some u) t = u

module _ {F : Type 0} where
  unfoldable pub reasons :
      (String → String) → TripPreferences → Option Time → TripOption F → List Reason
  reasons lower preferences deadline o =
      evidence_reasons o.evidence
      ++ (walking_reasons o.walking_distance_m preferences.max_walking_m
          ++ (arrival_reasons deadline o.arrival_at
              ++ (reason_if (preferences.avoid_disruptions && not (is_empty o.alerts)) alerts_known
                  ++ (reason_if
                        (preferences.wheelchair
                          && not (is_accessible (lowered lower o.accessibility)))
                        wheelchair_unverified
                      ++ parking_reasons o.mode o.availability o.availability_stale))))

  -- One round of the loop of `evaluateTripOptions`.
  unfoldable pub evaluate_option :
      (String → String) → TripPreferences → Option Time → TripOption F → TripOption F
  unfolding reasons
  evaluate_option lower preferences deadline o =
      let found = reasons lower preferences deadline o in
      record o {
        evidence = if is_evidence o.evidence then o.evidence else "unavailable";
        eligible = is_empty found;
        ineligibility_reasons = found;
      }

  unfoldable pub evaluate_trip_options :
      (String → String) → TripPreferences → Option Time → List (TripOption F) → List (TripOption F)
  evaluate_trip_options lower preferences deadline options =
      map (evaluate_option lower preferences deadline) options

  -- One round of the loop of `applyTripTiming`.
  unfoldable pub time_option : Time → TripOption F → TripOption F
  time_option departure o = if o.evidence =ₛ "unavailable" then o else record o {
    departure_at = some (or_at o.departure_at departure);
    arrival_at =
        arrival_after (or_at o.departure_at departure) o.estimated_duration_seconds o.arrival_at;
  }

  unfoldable pub apply_trip_timing : List (TripOption F) → Time → List (TripOption F)
  apply_trip_timing options departure = map (time_option departure) options

  unfoldable pub has_unavailable_option : List (TripOption F) → Bool
  has_unavailable_option options = any (λ o. o.evidence =ₛ "unavailable") options

  -- The comparison of `sort.SliceStable`; `lt` is `<` on the scores.
  abbrev pub ranks_before : (F → F → Bool) → TripOption F → TripOption F → Bool
  ranks_before lt a b =
      if a.eligible
      then (if b.eligible then lt b.score a.score else true)
      else (if b.eligible then false else lt b.score a.score)

  unfoldable pub first_eligible : List (TripOption F) → Option (TripOption F)
  first_eligible [] = none
  first_eligible (o ∷ os) = if o.eligible then some o else first_eligible os

-- What `TripOptions` decides once the options are collected.
pub record Ranked (F : Type 0) : Type 0 where
  pub options : List (TripOption F)
  pub recommended : Option (TripOption F)
  pub status : String

module _ {F : Type 0} where
  -- `status` is the envelope's, `warned` whether it has warnings.
  unfoldable pub trip_status :
      String → Bool → TripPreferences → List (TripOption F) → Option (TripOption F) → String
  trip_status status warned preferences options (some o) = status
  trip_status status warned preferences options none =
      if preferences.wheelchair || warned || has_unavailable_option options
      then "unavailable"
      else "not_found"

  unfoldable pub rank_trips :
      (F → F → Bool)
      → (String → String)
      → TripPreferences
      → Option Time
      → Time
      → String
      → Bool
      → List (TripOption F)
      → Ranked F
  rank_trips lt lower preferences deadline departure status warned options =
      let timed = apply_trip_timing options departure in
      let sorted =
        sort_stable (ranks_before lt) (evaluate_trip_options lower preferences deadline timed) in
      let best = first_eligible sorted in
      record {
        options = sorted;
        recommended = best;
        status = trip_status status warned preferences sorted best;
      }
