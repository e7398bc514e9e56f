-- ===== src/Service/Environment.antt =====
-- internal/service/environment.go: `EnvironmentBrief`. What `Validate` and `ResolvePoint` give for the
-- location, and the provider's answer, are arguments, and so is the type of an indicator's value. The
-- texts that print a number are given without it.
pub mod Covered
mod Tests
use mcp_grand_lyon.Base.{
  ℕ, String, Bool, true, false, not, Option, none, some, List, [], ◌∷◌, ◌++◌, any, ◌=ₛ◌,
  if◌then◌else◌, is_nil, is_some, value_or,
}
use Prim.Native.String.{◌++◌ as ◌+ₛ◌}
use mcp_grand_lyon.Model.Envelope.{Time, Envelope, new_envelope, set_payload, warn, warn_if}
use mcp_grand_lyon.Model.Float.{Point}

pub record IndicatorValue (V : Type 0) : Type 0 where
  pub indicator : String
  pub value : Option V
  pub unit : Option String
  pub zone : Option String
  pub observed_at : Option Time
  pub source_id : Option String
  pub supported : Bool

-- The location is given by what it resolves to.
pub record EnvironmentBriefInput : Type 0 where
  pub at : Option Time
  pub indicators : Option (List String)

module _ (F V : Type 0) where
  -- The data is the list under "indicators".
  abbrev pub Brief : Type 0
  Brief = Envelope (List (IndicatorValue V))

  -- The provider: nothing for an error.
  abbrev pub Provider : Type 0
  Provider = Point F → List String → Time → Option (List (IndicatorValue V))

  unfoldable pub add_value : List String → IndicatorValue V → Brief → Brief
  add_value requested v e =
      if not (any (λ i. i =ₛ v.indicator) requested)
      then e
      else if not v.supported
      then warn e "UNSUPPORTED_INDICATOR" v.indicator "No resolved source supports this indicator."
          false
      else if not (is_some v.value)
      then warn e "SOURCE_UNAVAILABLE" v.indicator
          "The source returned no value for this indicator." false
      else set_payload e (e.payload ++ v ∷ []) e.summary

  unfoldable pub add_values : List String → List (IndicatorValue V) → Brief → Brief
  add_values requested [] e = e
  add_values requested (v ∷ vs) e = add_values requested vs (add_value requested v e)

  -- The requested indicators of which no value was seen.
  unfoldable pub warn_missing : List String → List (IndicatorValue V) → Brief → Brief
  warn_missing [] vs e = e
  warn_missing (i ∷ is) vs e = warn_missing is vs (
      warn_if (not (any (λ v. v.indicator =ₛ i) vs)) e "UNSUPPORTED_INDICATOR" i
        "The source returned no value for this indicator." false)

  abbrev or_unavailable : Brief → Brief
  or_unavailable e = if is_nil e.payload then record e { status = "unavailable" } else e

  unfoldable pub found_indicators : Time → List String → List (IndicatorValue V) → Brief
  found_indicators now requested vs =
      let e = warn_missing requested vs (
        add_values requested vs
          (new_envelope now "ok" "Environmental indicators are available." [])) in
      or_unavailable (set_payload e e.payload "Found environmental indicators.")

  unfoldable pub warn_each : List String → Brief → Brief
  warn_each [] e = e
  warn_each (i ∷ is) e =
      warn_each is
        (warn e "UNSUPPORTED_INDICATOR" i "No source is available for this indicator." false)

  abbrev answered : Time → List String → Option (List (IndicatorValue V)) → Brief
  answered now requested none =
      record (warn (new_envelope now "unavailable" "Environmental indicators are unavailable." [])
        "SOURCE_UNAVAILABLE" "environment" "The environmental source failed." true) {
          status = "unavailable";
        }
  answered now requested (some vs) = found_indicators now requested vs

  abbrev asked : Time → List String → Time → Point F → Option Provider → Brief
  asked now requested at point none =
      record (warn_each requested
        (new_envelope now "unavailable" "No environmental source is available." [])) {
          status = "unavailable";
        }
  asked now requested at point (some provider) =
      answered now requested (provider point requested at)

  abbrev located : Time → List String → Time → Option (Point F) → Option Provider → Brief
  located now requested at none provider =
      new_envelope now "not_found" "The environmental location could not be resolved." []
  located now requested at (some point) provider = asked now requested at point provider

  abbrev all_indicators : List String
  all_indicators = "pollen" ∷ "air_quality" ∷ "heat" ∷ []

  -- `location_error` is the message of `Validate`, if there is one.
  unfoldable pub environment_brief :
      Time → EnvironmentBriefInput → Option String → Option (Point F) → Option Provider → Brief
  environment_brief now input (some location_error) resolved provider =
      new_envelope now "invalid_request" ("Invalid location: " +ₛ location_error) []
  environment_brief now input none resolved provider =
      let requested = value_or input.indicators all_indicators in
      if is_nil requested
      then new_envelope now "invalid_request" "At least one environmental indicator is required." []
      else located now requested (value_or input.at now) resolved provider
