-- ===== src/Service/Accessibility/Check.antt =====
-- internal/service/accessibility.go: `accessibilitySegment` put together, and `AccessibilityCheck`.
pub mod Cautious
pub mod Answer
use mcp_grand_lyon.Base.{
  ℕ, String, Bool, true, false, ◌&&◌, ◌||◌, not, Option, none, some, List, [], ◌∷◌, ◌++◌, map, any,
  filter, ◌=ₛ◌, if◌then◌else◌, is_nil,
}
use Prim.Native.String.{◌++◌ as ◌+ₛ◌}
use mcp_grand_lyon.Base.Text.{Text, codes}
use mcp_grand_lyon.Model.Envelope.{Time, Envelope, new_envelope, set_payload, warn, warn_if}
use mcp_grand_lyon.Model.Names.{Unicode}
use mcp_grand_lyon.Model.PlaceRef.{PlaceRef}
use mcp_grand_lyon.Service.Places.{PlaceCandidate}
use mcp_grand_lyon.Service.Mobility.{AccessibilityIncident}
use mcp_grand_lyon.Service.Accessibility.{
  Access, unknown, inaccessible, partially_accessible, accessible, AccessibilitySegment, Notice,
  Verdict, AccessProvider, matching_incidents, incident_step, check_step, boarding_step, segment_of,
  aggregate_accessibility,
}

pub record AccessibilityData : Type 0 where
  pub overall_status : Access
  pub segments : List AccessibilitySegment
  pub incidents : List AccessibilityIncident
  pub unknowns : List Text
  pub requested_needs : List String

-- The reference's candidates are nothing for an error; there is no store where its field is nil.
pub record AccessNetwork (F : Type 0) : Type 0 where
  pub resolve : PlaceRef F → List (PlaceCandidate F)
  pub provider : Option AccessProvider
  pub boarding : Option (Text → Option (Option ℕ))

pub record AccessibilityCheckInput (F : Type 0) : Type 0 where
  pub needs : Option (List String)
  pub stops : List (PlaceRef F)
  pub origin : Option (PlaceRef F)
  pub destination : Option (PlaceRef F)

abbrev listed {ℓ} : {A : Type ℓ} → Option A → List A
listed none = []
listed (some a) = a ∷ []

-- `accessibilityLabel`.
abbrev or_next : Text → Text → Text
or_next [] other = other
or_next (c ∷ s) other = c ∷ s

abbrev accessibility_label : {F : Type 0} → PlaceRef F → Text
accessibility_label ref =
    or_next ref.query (or_next ref.place_id (or_next ref.profile_place (codes "stop")))

abbrev pub unresolved_segment : {F : Type 0} → PlaceRef F → AccessibilitySegment
unresolved_segment ref = record {
  name = accessibility_label ref;
  status = unknown;
  notes = "The stop could not be resolved.";
  unknowns = "place_not_found" ∷ [];
  evidence = [];
}

abbrev pub unresolved_notice : Notice
unresolved_notice = record {
  code = "PLACE_NOT_FOUND";
  source = "place";
  message = "An accessibility stop could not be resolved.";
  retryable = false;
}

unfoldable pub warn_all : {D : Type 0} → List Notice → Envelope D → Envelope D
warn_all [] e = e
warn_all (n ∷ ns) e = warn_all ns (warn e n.code n.source n.message n.retryable)

module _ {F : Type 0} (unicode : Unicode) (lower : Text → Text) (net : AccessNetwork F) where
  abbrev pub stored : Option (Text → Option (Option ℕ)) → Text → Verdict → Verdict
  stored none id v = v
  stored (some look) id v = boarding_step (look id) v

  unfoldable pub verdict_of : List AccessibilityIncident → PlaceCandidate F → Verdict
  verdict_of incidents c =
      stored net.boarding c.id (
        check_step net.provider c.id (incident_step (matching_incidents unicode lower incidents c)))

  abbrev pub of_candidates :
      List AccessibilityIncident
      → PlaceRef F
      → List (PlaceCandidate F)
      → AccessibilitySegment × List Notice
  of_candidates incidents ref [] = (unresolved_segment ref, unresolved_notice ∷ [])
  of_candidates incidents ref (c ∷ cs) =
      let v = verdict_of incidents c in (segment_of c.name v, v.notices)

  unfoldable pub accessibility_segment :
      List AccessibilityIncident → PlaceRef F → AccessibilitySegment × List Notice
  accessibility_segment incidents ref = of_candidates incidents ref (net.resolve ref)

  -- The loop over the references: the segments, and the warnings in order.
  unfoldable pub check_all :
      List AccessibilityIncident → List (PlaceRef F) → List AccessibilitySegment × List Notice
  check_all incidents [] = ([], [])
  check_all incidents (r ∷ rs) =
      let here = accessibility_segment incidents r in
      let rest = check_all incidents rs in (here.0 ∷ rest.0, here.1 ++ rest.1)

  abbrev pub known_incidents : Option AccessProvider → List AccessibilityIncident × List Notice
  known_incidents none = (
    [],
    record {
      code = "SOURCE_UNAVAILABLE";
      source = "accessibility";
      message = "The accessibility provider is unavailable.";
      retryable = true;
    }
        ∷ [],
  )
  known_incidents (some p) =
      if p.incidents.1
      then (
        [],
        record {
          code = "SOURCE_UNAVAILABLE";
          source = "accessibility_incidents";
          message = "Accessibility incidents are unavailable.";
          retryable = true;
        }
            ∷ [],
      )
      else (p.incidents.0, [])

  abbrev summary_of : Access → String
  summary_of inaccessible = "The request includes an inaccessible stop or incident."
  summary_of partially_accessible = "Accessibility is partial or only declarative."
  summary_of accessible = "Accessibility is verified."
  summary_of unknown = "Accessibility is unknown."

  abbrev unknown_names : List AccessibilitySegment → List Text
  unknown_names [] = []
  unknown_names (s ∷ ss) =
      let rest = unknown_names ss in
      elim s.status as (λ x. List Text) [ unknown ↦ s.name ∷ rest | _ ↦ rest ]

  abbrev pub statuses : List AccessibilitySegment → List Access
  statuses ss = map (λ s. s.status) ss

  abbrev pub no_data : List String → AccessibilityData
  no_data needs = record {
    overall_status = unknown;
    segments = [];
    incidents = [];
    unknowns = [];
    requested_needs = needs;
  }

  -- The end of the handler: an unknown status is partial and degraded.
  abbrev pub marked : Access → Envelope AccessibilityData → Envelope AccessibilityData
  marked unknown e = record e { status = "partial"; degraded = true }
  marked _ e = e

  unfoldable pub report_access :
      List String
      → List AccessibilityIncident
      → List AccessibilitySegment
      → Envelope AccessibilityData
      → Envelope AccessibilityData
  report_access needs incidents segments e =
      let overall = aggregate_accessibility (statuses segments) in
      set_payload (marked overall e)
        (record {
          overall_status = overall;
          segments = segments;
          incidents = incidents;
          unknowns = unknown_names segments;
          requested_needs = needs;
        })
        (summary_of overall)

  unfoldable pub check_refs : Time → List String → List (PlaceRef F) → Envelope AccessibilityData
  check_refs now needs refs =
      let known = known_incidents net.provider in
      let segments = check_all known.0 refs in
      report_access needs known.0 segments.0 (
        warn_all segments.1 (
          warn_all known.1 (
            warn_if (any (λ n. unicode.equal_fold (codes n) (codes "step_free")) needs)
              (new_envelope now "ok" "Accessibility data is available." (no_data needs))
              "PARTIAL_RESULT" "accessibility"
              "Available sources do not verify the complete step-free path." false)))

  abbrev pub first_unsupported : List String → Option String
  first_unsupported [] = none
  first_unsupported (n ∷ ns) =
      let later = first_unsupported ns in
      if n =ₛ "wheelchair" || n =ₛ "step_free" then later else some n

  abbrev pub invalid_accessibility : Time → String → List String → Envelope AccessibilityData
  invalid_accessibility now message needs =
      new_envelope now "invalid_request" message (no_data needs)

  abbrev pub or_wheelchair : Option (List String) → List String
  or_wheelchair none = "wheelchair" ∷ []
  or_wheelchair (some needs) = needs

  abbrev pub with_refs : Time → List String → List (PlaceRef F) → Envelope AccessibilityData
  with_refs now needs [] =
      invalid_accessibility now "origin, destination, or stops is required." needs
  with_refs now needs (r ∷ rs) = check_refs now needs (r ∷ rs)

  abbrev pub with_needs :
      Time → List String → List (PlaceRef F) → Option String → Envelope AccessibilityData
  with_needs now needs refs none = with_refs now needs refs
  with_needs now needs refs (some need) =
      invalid_accessibility now ("Unsupported accessibility need: " +ₛ need) needs

  unfoldable pub accessibility_check : Time → AccessibilityCheckInput F → Envelope AccessibilityData
  accessibility_check now input =
      let needs = or_wheelchair input.needs in
      let refs = input.stops ++ listed input.origin ++ listed input.destination in
      if is_nil needs
      then invalid_accessibility now "At least one accessibility need is required." needs
      else with_needs now needs refs (first_unsupported needs)
