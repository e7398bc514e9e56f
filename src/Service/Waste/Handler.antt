-- ===== src/Service/Waste/Handler.antt =====
-- internal/service/waste.go: `WasteDropoff`, `wasteData` and `wasteSummary`.
use mcp_grand_lyon.Base.{
  ℕ, String, Bool, true, false, ◌&&◌, not, Option, none, some, List, [], ◌==◌, ◌=ₛ◌, if◌then◌else◌,
  is_nil,
}
use Prim.Native.String.{◌++◌ as ◌+ₛ◌}
use mcp_grand_lyon.Base.Int.{ℤ, pos}
use mcp_grand_lyon.Base.Text.{Text, trim_space}
use mcp_grand_lyon.Model.Envelope.{Time, Envelope, new_envelope, set_payload, warn, warn_if}
use mcp_grand_lyon.Model.Float.{Float, Point}
use mcp_grand_lyon.Model.PlaceRef.{PlaceRef}
use mcp_grand_lyon.Service.Facilities.{or_zero, within}
use mcp_grand_lyon.Service.Waste.{
  WasteTaxonomyFile, CompiledWasteRule, WasteClassification, WasteFacility, Dropoffs,
  classify_waste, load_waste_taxonomy, unclassified, gather_dropoffs,
}

pub record WasteDropoffInput (F : Type 0) : Type 0 where
  pub item : Text
  pub location : Option (PlaceRef F)
  pub transport : String
  pub open_at : Option Time
  pub radius_m : ℤ
  pub limit : ℤ

pub record WasteData (F : Type 0) : Type 0 where
  pub classification : WasteClassification F
  pub facilities : List (WasteFacility F)
  pub transport : String
  pub open_at : Option Time

-- What `Validate` and `ResolvePoint` give for a location, and the provider at a point, for a
-- category, a radius and a limit, with whether it failed.
pub record WasteNetwork (F : Type 0) : Type 0 where
  pub location_error : PlaceRef F → Option String
  pub resolve : PlaceRef F → Option (Point F)
  pub provider : Option (Point F → String → F → ℕ → List (WasteFacility F) × Bool)

abbrev pub or_car : String → String
or_car transport = if transport =ₛ "" then "car" else transport

module _ (fl : Float) (lower : Text → Text) (equal_fold : String → String → Bool)
    (minute_of : Time → ℕ) (net : WasteNetwork fl.F) where
  open fl use {F, of_int}

  abbrev pub Report : Type 0
  Report = Envelope (WasteData F)

  abbrev pub waste_data :
      WasteClassification F → List (WasteFacility F) → String → Option Time → WasteData F
  waste_data c fs transport open_at = record {
    classification = c;
    facilities = fs;
    transport = transport;
    open_at = open_at;
  }

  abbrev pub is_unknown : WasteClassification F → Bool
  is_unknown c = c.category =ₛ "unknown"

  abbrev pub waste_summary : WasteClassification F → String
  waste_summary c =
      if is_unknown c
      then "The waste item could not be classified."
      else "Waste category: " +ₛ (c.category +ₛ (if c.hazardous then ". It is hazardous." else "."))

  abbrev pub waste_status : WasteClassification F → String
  waste_status c =
      if is_unknown c then "not_found" else if not (is_nil c.candidates) then "ambiguous" else "ok"

  abbrev pub with_dropoffs :
      WasteClassification F → String → Option Time → Dropoffs F → Report → Report
  with_dropoffs c transport open_at found e =
      let e1 =
        warn_if (not (found.unknown_acceptance == 0)) e "PARTIAL_RESULT" "waste_acceptance"
          "Facilities have unverified category acceptance. Verify acceptance before drop-off."
          false in
      let e2 =
        warn_if (not (found.unknown_hours == 0)) e1 "PARTIAL_RESULT" "waste_opening_hours"
          "Omitted facilities with unverified opening hours." false in
      set_payload e2 (waste_data c found.filtered transport open_at) e2.summary

  -- The provider's answer, after the classification's envelope.
  unfoldable pub found_dropoffs :
      WasteClassification F
      → String
      → Option Time
      → Point F
      → F
      → ℕ
      → List (WasteFacility F) × Bool
      → Report
      → Report
  found_dropoffs c transport open_at point radius limit (fs, failed) e =
      if failed && is_nil fs
      then warn e "SOURCE_UNAVAILABLE" "waste_facilities" "Waste facilities are unavailable." true
      else with_dropoffs c transport open_at
          (gather_dropoffs fl equal_fold minute_of c.category point radius open_at limit fs)
          (warn_if failed e "PARTIAL_RESULT" "waste_facilities"
            "Waste facilities are incomplete because a later source page failed." true)

  abbrev pub asked :
      WasteClassification F
      → String
      → Option Time
      → Point F
      → ℕ
      → ℕ
      → Option (Point F → String → F → ℕ → List (WasteFacility F) × Bool)
      → Report
      → Report
  asked c transport open_at point radius limit none e =
      warn e "SOURCE_UNAVAILABLE" "waste_facilities" "The waste facility provider is unavailable."
        true
  asked c transport open_at point radius limit (some search) e =
      let r = of_int (pos radius) in
      found_dropoffs c transport open_at point r limit (search point c.category r limit) e

  abbrev pub refused : Time → WasteClassification F → String → Option Time → String → Report
  refused now c transport open_at message =
      new_envelope now "invalid_request" message (waste_data c [] transport open_at)

  abbrev pub ranged :
      Time
      → WasteClassification F
      → String
      → Option Time
      → Point F
      → Option ℕ
      → Option ℕ
      → Report
      → Report
  ranged now c transport open_at point (some radius) (some limit) e =
      asked c transport open_at point radius limit net.provider e
  ranged now c transport open_at point _ _ e =
      refused now c transport open_at "Waste radius or limit is outside the supported range."

  abbrev pub at_point :
      Time
      → WasteClassification F
      → String
      → WasteDropoffInput F
      → Option (Point F)
      → Report
      → Report
  at_point now c transport input none e =
      new_envelope now "not_found" "The drop-off location could not be resolved."
        (waste_data c [] transport input.open_at)
  at_point now c transport input (some point) e =
      ranged now c transport input.open_at point (within 100 50000 (or_zero input.radius_m 15000))
        (within 1 20 (or_zero input.limit 10)) e

  abbrev pub at_location :
      Time
      → WasteClassification F
      → String
      → WasteDropoffInput F
      → PlaceRef F
      → Option String
      → Report
      → Report
  at_location now c transport input ref (some message) e =
      refused now c transport input.open_at ("Invalid location: " +ₛ message)
  at_location now c transport input ref none e = at_point now c transport input (net.resolve ref) e

  abbrev pub located :
      Time
      → WasteClassification F
      → String
      → WasteDropoffInput F
      → Option (PlaceRef F)
      → Report
      → Report
  located now c transport input none e = e
  located now c transport input (some ref) e =
      if is_unknown c then e else at_location now c transport input ref (net.location_error ref) e

  abbrev pub classified : Time → String → WasteDropoffInput F → WasteClassification F → Report
  classified now transport input c = located now c transport input input.location (
      new_envelope now (waste_status c) (waste_summary c) (waste_data c [] transport input.open_at))

  abbrev pub with_rules :
      Time → String → WasteDropoffInput F → Option (List (CompiledWasteRule F)) → Report
  with_rules now transport input none =
      record (warn
        (new_envelope now "unavailable" "The waste taxonomy is unavailable."
          (waste_data (unclassified fl lower input.item) [] transport input.open_at))
        "SOURCE_UNAVAILABLE" "waste_taxonomy" "The waste taxonomy could not be loaded." false) {
          status = "unavailable";
        }
  with_rules now transport input (some rules) =
      classified now transport input (classify_waste fl lower input.item rules)

  -- `taxonomy` is the decoded file, nothing where it cannot be read or decoded.
  unfoldable pub waste_dropoff :
      Time
      → (String → Option (Text → Bool))
      → Option (WasteTaxonomyFile F)
      → WasteDropoffInput F
      → Report
  waste_dropoff now compile taxonomy input =
      let transport = or_car input.transport in
      if is_nil (trim_space input.item)
      then refused now (unclassified fl lower input.item) input.transport input.open_at
          "A waste item is required."
      else if not (transport =ₛ "car")
      then refused now (unclassified fl lower input.item) transport input.open_at
          ("Unsupported transport: " +ₛ transport)
      else with_rules now transport input (load_waste_taxonomy fl lower compile taxonomy)
