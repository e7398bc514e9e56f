-- ===== src/Service/Accessibility/Check/Answer.antt =====
-- The envelope that internal/service/accessibility.go's `AccessibilityCheck` returns.
use mathlib.Core.Path.{subst}
use mcp_grand_lyon.Base.{
  sym, String, ◌≡◌, ◌≢◌, inr, refl, Bool, true, false, Option, none, some, List, [], ◌∷◌, ◌++◌,
  eq_iff, if◌then◌else◌, is_nil, arith,
}
use mcp_grand_lyon.Base.Text.{Text}
use mcp_grand_lyon.Model.Envelope.{
  if-IsHonest, Time, Envelope, IsHonest, new_envelope, set_payload, new_envelope-IsHonest,
  warn-IsHonest, warn_if-IsHonest, set_payload-IsHonest,
}
use mcp_grand_lyon.Model.Names.{Unicode}
use mcp_grand_lyon.Model.PlaceRef.{PlaceRef}
use mcp_grand_lyon.Service.Places.{PlaceCandidate}
use mcp_grand_lyon.Service.Accessibility.{
  AccessibilityIncident, AccessProvider, Access, unknown, inaccessible, partially_accessible,
  accessible, Notice, matching_incidents,
}
use mcp_grand_lyon.Service.Accessibility.Check.{
  AccessibilityData, AccessNetwork, AccessibilityCheckInput, warn_all, known_incidents,
  report_access, check_refs, with_refs, with_needs, accessibility_check, marked,
  invalid_accessibility, or_wheelchair,
}
use mcp_grand_lyon.Service.Accessibility.Check.Cautious.{
  IsCautious, aggregate-IsCautious, aggregate-inaccessible, check_all-IsCautious,
  check_all-inaccessible,
}

warn_all-IsHonest :
    {D : Type 0} (ns : List Notice) (e : Envelope D) → IsHonest e → IsHonest (warn_all ns e)
unfolding warn_all
warn_all-IsHonest [] e h = h
warn_all-IsHonest (n ∷ ns) e h = warn_all-IsHonest ns _ (warn-IsHonest e _ _ _ _)

marked-IsHonest :
    {F : Type 0} (unicode : Unicode) (lower : Text → Text) (net : AccessNetwork F) (s : Access)
    (e : Envelope AccessibilityData)
    → IsHonest e
    → IsHonest (marked unicode lower net s e)
marked-IsHonest unicode lower net unknown e h = inr (refl, ground (arith, eq_iff "partial" "ok"))
marked-IsHonest unicode lower net inaccessible e h = h
marked-IsHonest unicode lower net partially_accessible e h = h
marked-IsHonest unicode lower net accessible e h = h

module _ {F : Type 0} (unicode : Unicode) (lower : Text → Text) (net : AccessNetwork F) where
  check_refs-IsCautious :
      (now : Time) (needs : List String) (refs : List (PlaceRef F))
      → IsCautious (check_refs unicode lower net now needs refs).payload.overall_status
  unfolding check_refs report_access set_payload
  check_refs-IsCautious now needs refs =
      aggregate-IsCautious _ (check_all-IsCautious unicode lower net _ refs)

  with_refs-IsCautious :
      (now : Time) (needs : List String) (refs : List (PlaceRef F))
      → IsCautious (with_refs unicode lower net now needs refs).payload.overall_status
  unfolding new_envelope
  with_refs-IsCautious now needs [] = λ e. cc
  with_refs-IsCautious now needs (r ∷ rs) = check_refs-IsCautious now needs (r ∷ rs)

  with_needs-IsCautious :
      (now : Time) (needs : List String) (refs : List (PlaceRef F)) (unsupported : Option String)
      → IsCautious (with_needs unicode lower net now needs refs unsupported).payload.overall_status
  unfolding new_envelope
  with_needs-IsCautious now needs refs none = with_refs-IsCautious now needs refs
  with_needs-IsCautious now needs refs (some need) = λ e. cc

  if-IsCautious :
      (test : Bool) (e f : Envelope AccessibilityData)
      → IsCautious e.payload.overall_status
      → IsCautious f.payload.overall_status
      → IsCautious (if test then e else f).payload.overall_status
  if-IsCautious true e f h k = h
  if-IsCautious false e f h k = k

  invalid-IsCautious :
      (now : Time) (message : String) (needs : List String)
      → IsCautious
          (invalid_accessibility unicode lower net now message needs).payload.overall_status
  unfolding new_envelope
  invalid-IsCautious now message needs = λ e. cc

  -- Whatever the sources say, and on every branch, the overall status is never "accessible": the
  -- service does not claim that access is verified.
  pub accessibility_check-IsCautious :
      (now : Time) (input : AccessibilityCheckInput F)
      → (accessibility_check unicode lower net now input).payload.overall_status ≢ accessible
  unfolding accessibility_check
  accessibility_check-IsCautious now input =
      if-IsCautious (is_nil (or_wheelchair unicode lower net input.needs)) _ _
        (invalid-IsCautious now _ _) (with_needs-IsCautious now _ _ _)

  known_incidents-exact :
      (provider : Option AccessProvider) (p : AccessProvider)
      (incidents : List AccessibilityIncident)
      → provider ≡ some p
      → p.incidents ≡ (incidents, false)
      → (known_incidents unicode lower net provider).0 ≡ incidents
  known_incidents-exact none p incidents a b = cc
  known_incidents-exact (some q) p incidents a b = ground (arith, a, b)

  -- Where the provider gives its incidents without an error, and one of the references resolves to a
  -- stop that one of them matches, the overall status is "inaccessible", whatever the other references
  -- are and whatever the stop's check and its boarding entry say.
  pub check_refs-inaccessible :
      (now : Time) (needs : List String) (before after : List (PlaceRef F)) (r : PlaceRef F)
      (c : PlaceCandidate F) (cs : List (PlaceCandidate F)) (p : AccessProvider)
      (incidents : List AccessibilityIncident)
      → net.provider ≡ some p
      → p.incidents ≡ (incidents, false)
      → net.resolve r ≡ c ∷ cs
      → matching_incidents unicode lower incidents c ≢ []
      → (check_refs unicode lower net now needs (before ++ r ∷ after)).payload.overall_status
        ≡ inaccessible
  unfolding check_refs report_access set_payload
  check_refs-inaccessible now needs before after r c cs p incidents a b e h =
      let known = known_incidents-exact net.provider p incidents a b in
      aggregate-inaccessible _ (
        check_all-inaccessible unicode lower net _ before after r c cs e
          (subst (λ is. matching_incidents unicode lower is c ≢ []) (sym known) h))

  check_refs-IsHonest :
      (now : Time) (needs : List String) (refs : List (PlaceRef F))
      → IsHonest (check_refs unicode lower net now needs refs)
  unfolding check_refs report_access
  check_refs-IsHonest now needs refs = set_payload-IsHonest _ _ _ (
      marked-IsHonest unicode lower net _ _ (
        warn_all-IsHonest _ _
          (warn_all-IsHonest _ _ (warn_if-IsHonest _ _ _ _ _ _ (new_envelope-IsHonest _ _ _ _)))))

  with_refs-IsHonest :
      (now : Time) (needs : List String) (refs : List (PlaceRef F))
      → IsHonest (with_refs unicode lower net now needs refs)
  with_refs-IsHonest now needs [] = new_envelope-IsHonest _ _ _ _
  with_refs-IsHonest now needs (r ∷ rs) = check_refs-IsHonest now needs (r ∷ rs)

  with_needs-IsHonest :
      (now : Time) (needs : List String) (refs : List (PlaceRef F)) (unsupported : Option String)
      → IsHonest (with_needs unicode lower net now needs refs unsupported)
  with_needs-IsHonest now needs refs none = with_refs-IsHonest now needs refs
  with_needs-IsHonest now needs refs (some need) = new_envelope-IsHonest _ _ _ _

  -- On every branch, the envelope of an accessibility check has no warning, or is degraded and not
  -- "ok".
  pub accessibility_check-IsHonest :
      (now : Time) (input : AccessibilityCheckInput F)
      → IsHonest (accessibility_check unicode lower net now input)
  unfolding accessibility_check
  accessibility_check-IsHonest now input =
      if-IsHonest (is_nil (or_wheelchair unicode lower net input.needs)) _ _
        (new_envelope-IsHonest _ _ _ _) (with_needs-IsHonest now _ _ _)
