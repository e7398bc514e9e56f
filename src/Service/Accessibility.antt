-- ===== src/Service/Accessibility.antt =====
-- internal/service/accessibility.go: `accessibilitySegment`, `matchingIncidents`,
-- `aggregateAccessibility` and `AccessibilityCheck`. What `ResolveRef` gives for a reference, the
-- provider's and the store's answers are arguments, and so is `strings.ToLower`. The text that prints
-- the number of incidents is given without it.
pub mod Check
mod Tests
use mcp_grand_lyon.Base.{
  ℕ, zero, suc, String, Bool, true, false, ◌&&◌, ◌||◌, not, Option, none, some, List, [], ◌∷◌, ◌++◌,
  map, any, all, filter, ◌=ₛ◌, if◌then◌else◌, is_nil,
}
use Prim.Native.String.{◌++◌ as ◌+ₛ◌}
use mcp_grand_lyon.Base.Text.{Text, codes}
use mcp_grand_lyon.Model.Line.{contains}
use mcp_grand_lyon.Model.Names.{Unicode, normalize}
use mcp_grand_lyon.Model.PlaceRef.{PlaceRef}
use mcp_grand_lyon.Service.Places.{PlaceCandidate}
use mcp_grand_lyon.Service.Mobility.{AccessibilityIncident}

-- The statuses "unknown", "inaccessible", "partially_accessible" and "accessible".
pub data Access : Type 0 where
  unknown inaccessible partially_accessible accessible : Access

-- What the provider says of a stop: a status, or another text.
pub data Claim : Type 0 where
  claims : Access → Claim
  other_claim : Claim

pub record Evidence : Type 0 where
  pub source : String
  pub fact : String
  pub confidence : String
  pub detail : String
  pub status : Access

pub record AccessibilitySegment : Type 0 where
  pub name : Text
  pub status : Access
  pub notes : String
  pub unknowns : List String
  pub evidence : List Evidence

-- The arguments of a call of `envelope.Warn`.
pub record Notice : Type 0 where
  pub code : String
  pub source : String
  pub message : String
  pub retryable : Bool

-- What the steps of `accessibilitySegment` have found so far.
pub record Verdict : Type 0 where
  pub status : Access
  pub evidence : List Evidence
  pub notes : List String
  pub notices : List Notice

abbrev pub nothing_found : Verdict
nothing_found = record { status = unknown; evidence = []; notes = []; notices = [] }

-- The provider: the incidents, with whether it failed, and a stop's status, nothing for an error.
pub record AccessProvider : Type 0 where
  pub incidents : List AccessibilityIncident × Bool
  pub check_stop : Text → Option Claim

abbrev overlaps : Text → Text → Bool
overlaps s t = not (is_nil s) && not (is_nil t) && (contains t s || contains s t)

unfoldable pub matching_incidents :
    {F : Type 0}
    → Unicode
    → (Text → Text)
    → List AccessibilityIncident
    → PlaceCandidate F
    → List AccessibilityIncident
matching_incidents unicode lower incidents c =
    filter
      (λ i.
        overlaps (normalize unicode c.name) (normalize unicode (codes i.location))
        || overlaps (lower c.id) (lower (codes i.location)))
      incidents

abbrev pub finding : String → String → String → String → Access → Evidence
finding source fact confidence detail status = record {
  source = source;
  fact = fact;
  confidence = confidence;
  detail = detail;
  status = status;
}

abbrev incident_detail : AccessibilityIncident → String
incident_detail i = if i.description =ₛ "" then i.location else i.description

abbrev incident_evidence : AccessibilityIncident → Evidence
incident_evidence i =
    finding "tcl_accessibility_alerts" "incident" "high" (incident_detail i) inaccessible

unfoldable pub incident_step : List AccessibilityIncident → Verdict
incident_step [] = nothing_found
incident_step (i ∷ is) = record nothing_found {
  status = inaccessible;
  evidence = map incident_evidence (i ∷ is);
  notes = "accessibility incidents match this stop." ∷ [];
}

abbrev found : Verdict → Evidence → String → Verdict
found v e note = record v { evidence = v.evidence ++ e ∷ []; notes = v.notes ++ note ∷ [] }

abbrev warned : Verdict → String → String → Verdict
warned v source message = record v {
  notices =
      v.notices
      ++ record {
        code = "SOURCE_UNAVAILABLE";
        source = source;
        message = message;
        retryable = true;
      }
        ∷ [];
}

abbrev pub claimed : Claim → Verdict → Verdict
claimed (claims inaccessible) v =
    record (found v
      (finding "tcl_accessibility_alerts" "check_stop" "high" "inaccessible" inaccessible)
      "The provider reports an accessibility incident.") { status = inaccessible }
claimed (claims partially_accessible) v =
    record (found v
      (finding "provider" "check_stop" "medium" "partially_accessible" partially_accessible)
      "The provider reports partial accessibility.") { status = partially_accessible }
claimed (claims accessible) v =
    found v
      (finding "provider" "check_stop_accessible_claim" "low"
        "claim ignored without structural proof" unknown)
      "The provider claim lacks structural verification."
claimed (claims unknown) v = v
claimed other_claim v = v

abbrev pub checked : Option Claim → Verdict → Verdict
checked none v = warned v "accessibility_check" "The stop accessibility check failed."
checked (some c) v = claimed c v

abbrev pub is_unknown : Access → Bool
is_unknown unknown = true
is_unknown _ = false

abbrev pub if_unknown : Verdict → Verdict → Verdict
if_unknown v w = if is_unknown v.status then w else v

-- The provider is asked where nothing is known yet.
unfoldable pub check_step : Option AccessProvider → Text → Verdict → Verdict
check_step none id v = v
check_step (some p) id v = if_unknown v (checked (p.check_stop id) v)

abbrev pub declared : Access → Access
declared unknown = partially_accessible
declared s = s

abbrev pub boarding_found : ℕ → Verdict → Verdict
boarding_found (suc (suc zero)) v =
    record (found v
      (finding "gtfs_wheelchair" "wheelchair_boarding=2" "medium"
        "GTFS declares that wheelchair boarding is unavailable." inaccessible)
      "GTFS declares that wheelchair boarding is unavailable.") { status = inaccessible }
boarding_found (suc zero) v =
    record (found v
      (finding "gtfs_wheelchair" "wheelchair_boarding=1" "low"
        "GTFS declares possible access without live verification." partially_accessible)
      "GTFS provides declarative wheelchair access only.") { status = declared v.status }
boarding_found zero v = record v {
  evidence =
      v.evidence
      ++ finding "gtfs_wheelchair" "wheelchair_boarding=0" "low"
          "GTFS provides no wheelchair boarding information." unknown
        ∷ [];
}
boarding_found (suc (suc (suc n))) v = v

-- A lookup in the store: nothing for an error, then nothing where the stop has no entry.
unfoldable pub boarding_step : Option (Option ℕ) → Verdict → Verdict
boarding_step none v = warned v "gtfs_wheelchair" "GTFS wheelchair data is unavailable."
boarding_step (some none) v = v
boarding_step (some (some n)) v = boarding_found n v

-- `strings.Join(notes, " ")`.
unfoldable pub join_notes : List String → String
join_notes [] = ""
join_notes (n ∷ []) = n
join_notes (n ∷ m ∷ ns) = n +ₛ " " +ₛ join_notes (m ∷ ns)

abbrev or_unverified : List String → List String
or_unverified [] = "No source verifies structural accessibility." ∷ []
or_unverified (n ∷ ns) = n ∷ ns

unfoldable pub segment_of : Text → Verdict → AccessibilitySegment
segment_of name v = record {
  name = name;
  status = v.status;
  notes = join_notes (if is_unknown v.status then or_unverified v.notes else v.notes);
  unknowns = if is_unknown v.status then "no_declared_data" ∷ [] else [];
  evidence = v.evidence;
}

abbrev pub is_inaccessible : Access → Bool
is_inaccessible inaccessible = true
is_inaccessible _ = false

abbrev pub is_partial : Access → Bool
is_partial partially_accessible = true
is_partial _ = false

unfoldable pub aggregate_accessibility : List Access → Access
aggregate_accessibility [] = unknown
aggregate_accessibility (s ∷ ss) =
    let has_unknown = any is_unknown (s ∷ ss) in
    let has_partial = any is_partial (s ∷ ss) in
    if any is_inaccessible (s ∷ ss)
    then inaccessible
    else if has_unknown && not has_partial && all is_unknown (s ∷ ss)
    then unknown
    else if has_unknown || has_partial
    then partially_accessible
    else accessible
