-- ===== src/Service/Accessibility/Check/Cautious.antt =====
-- How cautious internal/service/accessibility.go's `AccessibilityCheck` is: it never claims verified
-- access, and a known obstacle decides.
use mcp_grand_lyon.Base.{
  ℕ, zero, suc, ◌≡◌, ◌≢◌, refl, Bool, true, false, ◌||◌, Option, none, some, List, [], ◌∷◌, ◌++◌,
  map, any, All, if◌then◌else◌, arith,
}
use mcp_grand_lyon.Base.Text.{Text}
use mcp_grand_lyon.Model.Names.{Unicode}
use mcp_grand_lyon.Model.PlaceRef.{PlaceRef}
use mcp_grand_lyon.Service.Places.{PlaceCandidate}
use mcp_grand_lyon.Service.Mobility.{AccessibilityIncident}
use mcp_grand_lyon.Service.Accessibility.{
  Access, unknown, inaccessible, partially_accessible, accessible, Claim, claims, other_claim,
  Verdict, AccessProvider, matching_incidents, incident_step, check_step, checked, boarding_step,
  segment_of, aggregate_accessibility, is_inaccessible, declared,
}
use mcp_grand_lyon.Service.Accessibility.Check.{
  AccessNetwork, verdict_of, stored, of_candidates, accessibility_segment, check_all,
}

or_true : (b : Bool) → (b || true) ≡ true
or_true true = refl
or_true false = refl

-- Not "accessible".
abbrev pub IsCautious : Access → Type 0
IsCautious s = s ≢ accessible

incident_step-IsCautious : (is : List AccessibilityIncident) → IsCautious (incident_step is).status
unfolding incident_step
incident_step-IsCautious [] h = cc
incident_step-IsCautious (i ∷ is) h = cc

if-IsCautious :
    (test : Bool) (v w : Verdict)
    → IsCautious v.status
    → IsCautious w.status
    → IsCautious (if test then v else w).status
if-IsCautious true v w h k = h
if-IsCautious false v w h k = k

declared-IsCautious : (s : Access) → IsCautious s → IsCautious (declared s)
declared-IsCautious unknown h = λ e. cc
declared-IsCautious inaccessible h = h
declared-IsCautious partially_accessible h = h
declared-IsCautious accessible h = h

checked-IsCautious :
    (o : Option Claim) (v : Verdict) → IsCautious v.status → IsCautious (checked o v).status
checked-IsCautious none v h = h
checked-IsCautious (some (claims inaccessible)) v h = λ e. cc
checked-IsCautious (some (claims partially_accessible)) v h = λ e. cc
checked-IsCautious (some (claims accessible)) v h = h
checked-IsCautious (some (claims unknown)) v h = h
checked-IsCautious (some other_claim) v h = h

check_step-IsCautious :
    (o : Option AccessProvider) (id : Text) (v : Verdict)
    → IsCautious v.status
    → IsCautious (check_step o id v).status
unfolding check_step
check_step-IsCautious none id v h = h
check_step-IsCautious (some p) id v h =
    if-IsCautious _ _ _ (checked-IsCautious (p.check_stop id) v h) h

boarding_step-IsCautious :
    (o : Option (Option ℕ)) (v : Verdict)
    → IsCautious v.status
    → IsCautious (boarding_step o v).status
unfolding boarding_step
boarding_step-IsCautious none v h = h
boarding_step-IsCautious (some none) v h = h
boarding_step-IsCautious (some (some zero)) v h = h
boarding_step-IsCautious (some (some (suc zero))) v h = declared-IsCautious v.status h
boarding_step-IsCautious (some (some (suc (suc zero)))) v h = λ e. cc
boarding_step-IsCautious (some (some (suc (suc (suc n))))) v h = h

-- An obstacle once found stays.
check_step-inaccessible :
    (o : Option AccessProvider) (id : Text) (v : Verdict)
    → v.status ≡ inaccessible
    → (check_step o id v).status ≡ inaccessible
unfolding check_step
check_step-inaccessible none id v h = h
check_step-inaccessible (some p) id v h = rw h refl

boarding_step-inaccessible :
    (o : Option (Option ℕ)) (v : Verdict)
    → v.status ≡ inaccessible
    → (boarding_step o v).status ≡ inaccessible
unfolding boarding_step
boarding_step-inaccessible none v h = h
boarding_step-inaccessible (some none) v h = h
boarding_step-inaccessible (some (some zero)) v h = h
boarding_step-inaccessible (some (some (suc zero))) v h = rw h refl
boarding_step-inaccessible (some (some (suc (suc zero)))) v h = refl
boarding_step-inaccessible (some (some (suc (suc (suc n))))) v h = h

incident_step-inaccessible :
    (is : List AccessibilityIncident) → is ≢ [] → (incident_step is).status ≡ inaccessible
unfolding incident_step
incident_step-inaccessible [] h = elim (h refl) [ ]
incident_step-inaccessible (i ∷ is) h = refl

pub aggregate-IsCautious :
    (ss : List Access) → All IsCautious ss → IsCautious (aggregate_accessibility ss)
unfolding aggregate_accessibility
aggregate-IsCautious [] h = λ e. cc
aggregate-IsCautious (unknown ∷ ss) h = λ e. ground arith
aggregate-IsCautious (inaccessible ∷ ss) h = λ e. cc
aggregate-IsCautious (partially_accessible ∷ ss) h = λ e. ground arith
aggregate-IsCautious (accessible ∷ ss) (h, hs) = elim (h refl) [ ]

pub aggregate-inaccessible :
    (ss : List Access) → any is_inaccessible ss ≡ true → aggregate_accessibility ss ≡ inaccessible
unfolding aggregate_accessibility
aggregate-inaccessible [] h = cc
aggregate-inaccessible (s ∷ ss) h = rw h refl

module _ {F : Type 0} (unicode : Unicode) (lower : Text → Text) (net : AccessNetwork F) where
  stored-IsCautious :
      (o : Option (Text → Option (Option ℕ))) (id : Text) (v : Verdict)
      → IsCautious v.status
      → IsCautious (stored unicode lower net o id v).status
  stored-IsCautious none id v h = h
  stored-IsCautious (some look) id v h = boarding_step-IsCautious (look id) v h

  stored-inaccessible :
      (o : Option (Text → Option (Option ℕ))) (id : Text) (v : Verdict)
      → v.status ≡ inaccessible
      → (stored unicode lower net o id v).status ≡ inaccessible
  stored-inaccessible none id v h = h
  stored-inaccessible (some look) id v h = boarding_step-inaccessible (look id) v h

  verdict_of-IsCautious :
      (incidents : List AccessibilityIncident) (c : PlaceCandidate F)
      → IsCautious (verdict_of unicode lower net incidents c).status
  unfolding verdict_of
  verdict_of-IsCautious incidents c =
      stored-IsCautious net.boarding c.id _
        (check_step-IsCautious net.provider c.id _ (incident_step-IsCautious _))

  verdict_of-inaccessible :
      (incidents : List AccessibilityIncident) (c : PlaceCandidate F)
      → matching_incidents unicode lower incidents c ≢ []
      → (verdict_of unicode lower net incidents c).status ≡ inaccessible
  unfolding verdict_of
  verdict_of-inaccessible incidents c h =
      stored-inaccessible net.boarding c.id _
        (check_step-inaccessible net.provider c.id _ (incident_step-inaccessible _ h))

  of_candidates-IsCautious :
      (incidents : List AccessibilityIncident) (ref : PlaceRef F) (cs : List (PlaceCandidate F))
      → IsCautious (of_candidates unicode lower net incidents ref cs).0.status
  unfolding segment_of
  of_candidates-IsCautious incidents ref [] = λ e. cc
  of_candidates-IsCautious incidents ref (c ∷ cs) = verdict_of-IsCautious incidents c

  pub check_all-IsCautious :
      (incidents : List AccessibilityIncident) (rs : List (PlaceRef F))
      → All IsCautious (map (λ s. s.status) (check_all unicode lower net incidents rs).0)
  unfolding check_all accessibility_segment
  check_all-IsCautious incidents [] = tt
  check_all-IsCautious incidents (r ∷ rs) =
      (of_candidates-IsCautious incidents r (net.resolve r), check_all-IsCautious incidents rs)

  pub check_all-inaccessible :
      (incidents : List AccessibilityIncident) (before after : List (PlaceRef F)) (r : PlaceRef F)
      (c : PlaceCandidate F) (cs : List (PlaceCandidate F))
      → net.resolve r ≡ c ∷ cs
      → matching_incidents unicode lower incidents c ≢ []
      → any is_inaccessible
          (map (λ s. s.status) (check_all unicode lower net incidents (before ++ r ∷ after)).0)
        ≡ true
  unfolding check_all accessibility_segment segment_of
  check_all-inaccessible incidents [] after r c cs e h =
      rw (e, verdict_of-inaccessible incidents c h) refl
  check_all-inaccessible incidents (q ∷ before) after r c cs e h =
      rw (check_all-inaccessible incidents before after r c cs e h) (or_true _)
