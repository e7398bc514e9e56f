-- ===== src/Service/Journey/Eligibility.antt =====
-- Which trip options internal/service/journey.go's `evaluateTripOptions` calls eligible.
use mcp_grand_lyon.Base.{
  String, ◌≡◌, ◌≢◌, ◌≤◌, ◌⊎◌, ◌↔◌, Bool, true, false, Option, none, some, [], arith, ◌=ₛ◌, List,
  ◌∷◌, ◌++◌, refl, inl, inr, ◌&&◌, not,
}
use mcp_grand_lyon.Base.Int.{ℤ, ◌≤ℤ◌}
use mcp_grand_lyon.Model.Envelope.{Time}
use mcp_grand_lyon.Model.Records.{
  TripOption, TripPreferences, TransitAlert, alerts_known, wheelchair_unverified,
}
use mcp_grand_lyon.Service.Journey.{
  is_evidence, is_accessible, lowered, evaluate_option, reasons, is_empty, evidence_reasons,
  walking_reasons, arrival_reasons, reason_if, parking_reasons,
}

-- The arrival is known and not after the deadline, where there is one.
abbrev Arrives : Option Time → Option Time → Type 0
Arrives none arrival = Unit
Arrives (some deadline) none = ⊥
Arrives (some deadline) (some arrival) = arrival ≤ deadline

abbrev Walks : Option ℤ → ℤ → Type 0
Walks none most = ⊥
Walks (some w) most = w ≤ℤ most

abbrev HasSpaces : String → Option String → Bool → Type 0
HasSpaces mode availability is_stale =
    (((mode =ₛ "park_and_ride") ≡ false) ⊎ ((availability ≢ none) × (is_stale ≡ false)))

-- What a request asks of an option.
pub record Satisfies {F : Type 0} (lower : String → String) (p : TripPreferences)
    (deadline : Option Time) (o : TripOption F) : Type 0 where
  pub evident : is_evidence o.evidence ≡ true
  pub walks : Walks o.walking_distance_m p.max_walking_m
  pub arrives : Arrives deadline o.arrival_at
  pub undisturbed : (p.avoid_disruptions ≡ false) ⊎ (o.alerts ≡ [])
  pub reachable : (p.wheelchair ≡ false) ⊎ (is_accessible (lowered lower o.accessibility) ≡ true)
  pub spaces : HasSpaces o.mode o.availability o.availability_stale

is_empty-append :
    {A : Type 0} (xs ys : List A)
    → (is_empty (xs ++ ys) ≡ true) ↔ ((is_empty xs ≡ true) × (is_empty ys ≡ true))
is_empty-append [] ys = (λ h. (refl, h), λ h. h.1)
is_empty-append (x ∷ xs) ys = (λ h. cc, λ h. cc)

evidence_iff : (s : String) → (is_empty (evidence_reasons s) ≡ true) ↔ (is_evidence s ≡ true)
evidence_iff s = (λ h. ground arith, λ h. ground arith)

walking_iff : (w : Option ℤ) (most : ℤ) → (is_empty (walking_reasons w most) ≡ true) ↔ Walks w most
walking_iff none most = (λ h. cc, λ h. elim h [ ])
walking_iff (some w) most = (λ h. ground arith, λ h. ground arith)

arrival_iff : (d a : Option Time) → (is_empty (arrival_reasons d a) ≡ true) ↔ Arrives d a
arrival_iff none a = (λ h. tt, λ h. refl)
arrival_iff (some d) none = (λ h. cc, λ h. elim h [ ])
arrival_iff (some d) (some a) = (λ h. ground arith, λ h. ground arith)

alerts_iff :
    (avoid : Bool) (alerts : List TransitAlert)
    → (is_empty (reason_if (avoid && not (is_empty alerts)) alerts_known) ≡ true)
      ↔ ((avoid ≡ false) ⊎ (alerts ≡ []))
alerts_iff false alerts = (λ h. inl refl, λ h. refl)
alerts_iff true [] = (λ h. inr refl, λ h. refl)
alerts_iff true (a ∷ rest) = (λ h. cc, λ h. ground arith)

wheelchair_iff :
    (chair fits : Bool)
    → (is_empty (reason_if (chair && not fits) wheelchair_unverified) ≡ true)
      ↔ ((chair ≡ false) ⊎ (fits ≡ true))
wheelchair_iff chair fits = (λ h. ground arith, λ h. ground arith)

spaces_iff :
    (mode : String) (availability : Option String) (is_stale : Bool)
    → (is_empty (parking_reasons mode availability is_stale) ≡ true)
      ↔ HasSpaces mode availability is_stale
spaces_iff mode availability is_stale = (λ h. ground arith, λ h. ground arith)

-- An option is eligible exactly if it satisfies the request: its evidence is calculated, estimated
-- or mixed; its walking distance is known and within the limit; it arrives by the deadline, where
-- there is one; no alert affects it where disruptions are avoided; its accessibility is verified
-- where a wheelchair is used; and a park-and-ride has a known availability that is not stale.
pub evaluate_option-eligible_iff :
    {F : Type 0} (lower : String → String) (p : TripPreferences) (deadline : Option Time)
    (o : TripOption F)
    → ((evaluate_option lower p deadline o).eligible ≡ true) ↔ Satisfies lower p deadline o
unfolding evaluate_option reasons
evaluate_option-eligible_iff lower p deadline o = (to, from)
  where
    to : (evaluate_option lower p deadline o).eligible ≡ true → Satisfies lower p deadline o
    to h =
        let (h1, k1) = (is_empty-append _ _).0 h in
        let (h2, k2) = (is_empty-append _ _).0 k1 in
        let (h3, k3) = (is_empty-append _ _).0 k2 in
        let (h4, k4) = (is_empty-append _ _).0 k3 in
        let (h5, h6) = (is_empty-append _ _).0 k4 in
        record {
          evident = (evidence_iff o.evidence).0 h1;
          walks = (walking_iff o.walking_distance_m p.max_walking_m).0 h2;
          arrives = (arrival_iff deadline o.arrival_at).0 h3;
          undisturbed = (alerts_iff p.avoid_disruptions o.alerts).0 h4;
          reachable =
              (wheelchair_iff p.wheelchair (is_accessible (lowered lower o.accessibility))).0 h5;
          spaces = (spaces_iff o.mode o.availability o.availability_stale).0 h6;
        }

    from : Satisfies lower p deadline o → (evaluate_option lower p deadline o).eligible ≡ true
    from h = (is_empty-append (evidence_reasons o.evidence) _).1 (
      (evidence_iff o.evidence).1 h.evident,
      (is_empty-append (walking_reasons o.walking_distance_m p.max_walking_m) _).1 (
        (walking_iff o.walking_distance_m p.max_walking_m).1 h.walks,
        (is_empty-append (arrival_reasons deadline o.arrival_at) _).1 (
          (arrival_iff deadline o.arrival_at).1 h.arrives,
          (is_empty-append (reason_if (p.avoid_disruptions && not (is_empty o.alerts)) alerts_known)
                _).1
              (
                (alerts_iff p.avoid_disruptions o.alerts).1 h.undisturbed,
                (is_empty-append
                      (reason_if
                        (p.wheelchair && not (is_accessible (lowered lower o.accessibility)))
                        wheelchair_unverified)
                      _).1
                    (
                      (wheelchair_iff p.wheelchair
                            (is_accessible (lowered lower o.accessibility))).1
                          h.reachable,
                      (spaces_iff o.mode o.availability o.availability_stale).1 h.spaces,
                    ),
              ),
        ),
      ),
    )
