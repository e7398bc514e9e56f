-- ===== src/Service/Journey/Trips/Answer.antt =====
-- What the envelope of internal/service/journey.go's `TripOptions` reports, on every branch.
use mathlib.Core.Path.{subst}
use mathlib.Core.List.{Memᴰ}
use mcp_grand_lyon.Base.{
  ◌≡◌, ◌≢◌, ◌⊎◌, String, Bool, true, false, ◌||◌, Option, none, some, List, [], ◌∷◌, arith, refl,
  inl, inr, sym, ◌∙◌, ap, value_or, Option-cases, eq_iff, Bool-cases, if◌then◌else◌,
}
use mcp_grand_lyon.Model.Envelope.{
  Time, Envelope, IsHonest, new_envelope, new_envelope-IsHonest, warn, warn-IsHonest,
  warn_if-IsHonest,
}
use mcp_grand_lyon.Model.Float.{Float, Point}
use mcp_grand_lyon.Model.PlaceRef.{PlaceRef, Coordinates}
use mcp_grand_lyon.Model.Records.{TripOption, TripPreferences, ParkingOption, VelovStation}
use mcp_grand_lyon.Service.Journey.{
  add_seconds, Ranked, rank_trips, first_eligible, trip_status, has_unavailable_option,
}
use mcp_grand_lyon.Service.Journey.App.{App, Draft, Provider}
use mcp_grand_lyon.Service.Journey.Velov.{
  append_velov_option, append_selection, Selection, choose_from, near,
}
use mcp_grand_lyon.Service.Journey.Velov
use mcp_grand_lyon.Service.Journey.ParkAndRide
use mcp_grand_lyon.Service.Journey.Transit.{
  append_transit_options, append_transit_fallback, with_planner,
}
use mcp_grand_lyon.Service.Journey.ParkAndRide.{
  append_park_and_ride_option, append_parkings, append_parking, with_plan, connect, unconnected,
  added, sourced, choose_transit, car_arrival, transfer_duration, spot,
}
use mcp_grand_lyon.Service.Journey.Trips.{
  TripOptionsInput, TripData, Request, collect_options, present, answer_trip, trip_options, mode_of,
  unresolved, trip_data, reject_if, invalid_trip, draft_if, first_draft, with_points,
}

first_eligible-mem :
    {F : Type 0} (os : List (TripOption F)) (o : TripOption F)
    → first_eligible os ≡ some o
    → Memᴰ o os × (o.eligible ≡ true)
unfolding first_eligible
first_eligible-mem [] o h = cc
first_eligible-mem (p ∷ os) o h = elim (Bool-cases p.eligible) [
  | inl t ↦
      let found : first_eligible (p ∷ os) ≡ some p =
        ap (λ b. if b then some p else first_eligible os) t in
      let e : p ≡ o = ap (λ q. value_or q p) (sym found ∙ h) in
      (Memᴰ.head (sym e), subst (λ q. q.eligible ≡ true) e t)
  | inr f ↦ let (m, e) = first_eligible-mem os o (rw f at h) in (Memᴰ.tail m, e)
]

none_found : Bool → String
none_found test = if test then "unavailable" else "not_found"

none_found-ne-ok : (test : Bool) → none_found test ≢ "ok"
unfolding none_found
none_found-ne-ok true h = ground (arith, eq_iff "unavailable" "ok")
none_found-ne-ok false h = ground (arith, eq_iff "not_found" "ok")

some-ne-none : {F : Type 0} {o : TripOption F} → some o ≢ none
some-ne-none h = cc

warn-degraded :
    {D : Type 0} (e : Envelope D) (code source message : String) (retryable : Bool)
    → (warn e code source message retryable).degraded ≡ true
unfolding warn
warn-degraded e code source message retryable = refl

module _ (fl : Float) where
  open fl use {F}

  record IsHonestDraft (t : Draft F) : Type 0 where
    pub honest : IsHonest t.envelope

  if-IsHonestDraft :
      (test : Bool) (t u : Draft F)
      → IsHonestDraft t
      → IsHonestDraft u
      → IsHonestDraft (if test then t else u)
  if-IsHonestDraft true t u h k = h
  if-IsHonestDraft false t u h k = k

  append_selection-IsHonest :
      (app : App F) (s : Option (Selection F)) (t : Draft F)
      → IsHonestDraft t
      → IsHonestDraft (append_selection fl app s t)
  append_selection-IsHonest app none t h = record { honest = warn-IsHonest t.envelope _ _ _ _ }
  append_selection-IsHonest app (some s) t h = record { honest = h.honest }

  choose_from-IsHonest :
      (app : App F) (p : TripPreferences) (os ds : List (VelovStation F)) (t : Draft F)
      → IsHonestDraft t
      → IsHonestDraft (choose_from fl app p os ds t)
  choose_from-IsHonest app p os ds t h =
      if-IsHonestDraft (Velov.is_empty os || Velov.is_empty ds) _ _
        (record { honest = warn-IsHonest t.envelope _ _ _ _ }) (append_selection-IsHonest app _ t h)

  velov-IsHonest :
      (app : App F) (q : Option (Provider F)) (a b : Point F) (p : TripPreferences) (t : Draft F)
      → IsHonestDraft t
      → IsHonestDraft (Velov.with_provider fl app q a b p t)
  velov-IsHonest app none a b p t h = record { honest = warn-IsHonest t.envelope _ _ _ _ }
  velov-IsHonest app (some q) a b p t h =
      if-IsHonestDraft ((near fl q p a).1 || (near fl q p b).1) _ _
        (record { honest = warn-IsHonest t.envelope _ _ _ _ }) (choose_from-IsHonest app p _ _ t h)

  append_velov_option-IsHonest :
      (app : App F) (a b : Point F) (p : TripPreferences) (t : Draft F)
      → IsHonestDraft t
      → IsHonestDraft (append_velov_option fl app a b p t)
  unfolding append_velov_option
  append_velov_option-IsHonest app a b p t h = velov-IsHonest app app.provider a b p t h

  with_plan-IsHonest :
      (app : App F) (a : Point F) (d : Time) (o : ParkingOption F) (os : List (TripOption F))
      (t : Draft F)
      → IsHonestDraft t
      → IsHonestDraft (with_plan fl app a d o os t)
  with_plan-IsHonest app a d o [] t h = record { honest = warn-IsHonest t.envelope _ _ _ _ }
  with_plan-IsHonest app a d o (x ∷ xs) t h =
      if-IsHonestDraft
        (ParkAndRide.is_before
          (choose_transit fl (add_seconds (car_arrival fl a d o) (transfer_duration fl)) x
            (x ∷ xs)).departure_at
          (car_arrival fl a d o))
        _ _ (record { honest = h.honest }) (record { honest = h.honest })

  append_parking-IsHonest :
      (app : App F) (provider : Provider F) (a b : Point F) (d : Time) (p : TripPreferences)
      (o : ParkingOption F) (t : Draft F)
      → IsHonestDraft t
      → IsHonestDraft (append_parking fl app provider a b d p o t)
  unfolding append_parking
  append_parking-IsHonest app provider a b d p o t h =
      if-IsHonestDraft _ _ _
        (if-IsHonestDraft _ _ _ (record { honest = warn-IsHonest _ _ _ _ _ })
          (with_plan-IsHonest app a d o _ _
            (record { honest = warn_if-IsHonest _ t.envelope _ _ _ _ h.honest })))
        (record { honest = warn-IsHonest _ _ _ _ _ })

  append_parkings-IsHonest :
      (app : App F) (provider : Provider F) (a b : Point F) (d : Time) (p : TripPreferences)
      (os : List (ParkingOption F)) (t : Draft F)
      → IsHonestDraft t
      → IsHonestDraft (append_parkings fl app provider a b d p os t)
  unfolding append_parkings
  append_parkings-IsHonest app provider a b d p [] t h = h
  append_parkings-IsHonest app provider a b d p (o ∷ os) t h =
      append_parkings-IsHonest app provider a b d p os (append_parking fl app provider a b d p o t)
        (append_parking-IsHonest app provider a b d p o t h)

  park_and_ride-IsHonest :
      (app : App F) (q : Option (Provider F)) (a b : Point F) (d : Time) (p : TripPreferences)
      (t : Draft F)
      → IsHonestDraft t
      → IsHonestDraft (ParkAndRide.with_provider fl app q a b d p t)
  park_and_ride-IsHonest app none a b d p t h = record { honest = warn-IsHonest t.envelope _ _ _ _ }
  park_and_ride-IsHonest app (some q) a b d p t h =
      if-IsHonestDraft _ _ _ (record { honest = warn-IsHonest t.envelope _ _ _ _ })
        (append_parkings-IsHonest app q a b d p _ _
          (record { honest = warn_if-IsHonest _ t.envelope _ _ _ _ h.honest }))

  append_park_and_ride_option-IsHonest :
      (app : App F) (a b : Point F) (d : Time) (p : TripPreferences) (t : Draft F)
      → IsHonestDraft t
      → IsHonestDraft (append_park_and_ride_option fl app a b d p t)
  unfolding append_park_and_ride_option
  append_park_and_ride_option-IsHonest app a b d p t h =
      park_and_ride-IsHonest app app.provider a b d p t h

  append_transit_fallback-IsHonest : (t : Draft F) → IsHonestDraft (append_transit_fallback fl t)
  unfolding append_transit_fallback
  append_transit_fallback-IsHonest t = record { honest = warn-IsHonest t.envelope _ _ _ _ }

  transit-IsHonest :
      (app : App F) (q : Option (Provider F)) (a b : Point F) (d : Time) (p : TripPreferences)
      (t : Draft F)
      → IsHonestDraft t
      → IsHonestDraft (with_planner fl app q a b d p t)
  transit-IsHonest app none a b d p t h = append_transit_fallback-IsHonest t
  transit-IsHonest app (some q) a b d p t h =
      if-IsHonestDraft _ _ _ (append_transit_fallback-IsHonest t) (record { honest = h.honest })

  append_transit_options-IsHonest :
      (app : App F) (a b : Point F) (d : Time) (p : TripPreferences) (t : Draft F)
      → IsHonestDraft t
      → IsHonestDraft (append_transit_options fl app a b d p t)
  unfolding append_transit_options
  append_transit_options-IsHonest app a b d p t h = transit-IsHonest app app.provider a b d p t h

  draft_if-IsHonest :
      (test : Bool) (extend : Draft F → Draft F)
      → ((t : Draft F) → IsHonestDraft t → IsHonestDraft (extend t))
      → (t : Draft F) → IsHonestDraft t
      → IsHonestDraft (draft_if fl test extend t)
  draft_if-IsHonest true extend keeps t h = keeps t h
  draft_if-IsHonest false extend keeps t h = h

  first_draft-IsHonest : (app : App F) (r : Request F) → IsHonestDraft (first_draft fl app r)
  unfolding first_draft
  first_draft-IsHonest app r = record { honest = new_envelope-IsHonest app.now _ _ tt }

  collect_options-IsHonest :
      (app : App F) (r : Request F) → IsHonestDraft (collect_options fl app r)
  unfolding collect_options
  collect_options-IsHonest app r =
      draft_if-IsHonest _ _
        (append_transit_options-IsHonest app r.origin r.destination r.departure r.preferences) _
        (draft_if-IsHonest _ _
          (append_park_and_ride_option-IsHonest app r.origin r.destination r.departure
            r.preferences)
          _
          (draft_if-IsHonest _ _
            (append_velov_option-IsHonest app r.origin r.destination r.preferences) _
            (first_draft-IsHonest app r)))

  -- The status that the ranking gives is the envelope's, or another one than "ok".
  trip_status-cases :
      (status : String) (warned : Bool) (p : TripPreferences) (os : List (TripOption F))
      (best : Option (TripOption F))
      → ((best ≢ none) × (trip_status status warned p os best ≡ status))
        ⊎ ((best ≡ none) × (trip_status status warned p os best ≢ "ok"))
  unfolding trip_status none_found
  trip_status-cases status warned p os (some o) = inl (λ h. cc, refl)
  trip_status-cases status warned p os none =
      inr (refl, none_found-ne-ok (p.wheelchair || warned || has_unavailable_option os))

  rank_trips-cases :
      (lower : String → String) (p : TripPreferences) (deadline : Option Time) (departure : Time)
      (status : String) (warned : Bool) (os : List (TripOption F))
      → let r = rank_trips fl.lt lower p deadline departure status warned os in
        ((r.status ≡ status)
          × ((o : TripOption F) × Memᴰ o r.options
              × (o.eligible ≡ true)
              × (r.recommended ≡ some o)))
        ⊎ (r.status ≢ "ok")
  unfolding rank_trips
  rank_trips-cases lower p deadline departure status warned os =
      let sorted = (rank_trips fl.lt lower p deadline departure status warned os).options in
      elim (Option-cases (first_eligible sorted)) [
        | inr (o, e) ↦
            let (m, t) = first_eligible-mem sorted o e in
            inl (
              elim (trip_status-cases status warned p sorted (first_eligible sorted)) [
                | inl (ne, k) ↦ k
                | inr (n, k) ↦ elim (some-ne-none (sym e ∙ n)) [ ]
              ],
              (o, m, t, e),
            )
        | inl e ↦ inr (elim (trip_status-cases status warned p sorted (first_eligible sorted)) [
          | inl (ne, k) ↦ elim (ne e) [ ]
          | inr (n, k) ↦ k
        ])
      ]

  -- The envelope of a trip request: without a warning, or degraded and not "ok"; and not "ok", or
  -- without a warning and with a recommended mode that is that of an eligible option.
  pub record IsSound (e : Envelope (TripData F)) : Type 0 where
    pub honest : IsHonest {D = TripData F} e
    pub recommends :
        (e.status ≢ "ok")
        ⊎ ((e.warnings ≡ [])
            × ((o : TripOption F) × Memᴰ o e.payload.options
                × (o.eligible ≡ true)
                × (e.payload.recommended_mode ≡ some o.mode)))

  present-IsSound :
      (r : Request F) (t : Draft F) (k : Ranked F)
      → IsHonestDraft t
      → (((k.status ≡ t.envelope.status)
            × ((o : TripOption F) × Memᴰ o k.options
                × (o.eligible ≡ true)
                × (k.recommended ≡ some o)))
          ⊎ (k.status ≢ "ok"))
      → IsSound (present fl r t k)
  unfolding present trip_data
  present-IsSound r t k h (inr n) = record {
    honest = elim h.honest [ inl e ↦ inl e | inr (d, m) ↦ inr (d, n) ];
    recommends = inl n;
  }
  present-IsSound r t k h (inl (s, (o, m, e, q))) = elim h.honest [
    | inl w ↦ record { honest = inl w; recommends = inr (w, (o, m, e, ap (mode_of fl) q)) }
    | inr (d, n) ↦ record {
      honest = inr (d, λ z. n (sym s ∙ z));
      recommends = inl (λ z. n (sym s ∙ z));
    }
  ]

  answer_trip-IsSound :
      (lower : String → String) (app : App F) (r : Request F) → IsSound (answer_trip fl lower app r)
  unfolding answer_trip
  answer_trip-IsSound lower app r =
      present-IsSound r (collect_options fl app r) _ (collect_options-IsHonest app r)
        (rank_trips-cases lower r.preferences r.deadline r.departure _ _ _)

  invalid_trip-IsSound : (now : Time) (message : String) → IsSound (invalid_trip now message)
  unfolding invalid_trip
  invalid_trip-IsSound now message = record {
    honest = inr (warn-degraded _ _ _ _ _, λ h. ground (arith, eq_iff "invalid_request" "ok"));
    recommends = inl (λ h. ground (arith, eq_iff "invalid_request" "ok"));
  }

  reject_if-IsSound :
      (test : Bool) (now : Time) (message : String) (e : Envelope (TripData F))
      → IsSound e
      → IsSound (reject_if test now message e)
  unfolding reject_if
  reject_if-IsSound true now message e h = invalid_trip-IsSound now message
  reject_if-IsSound false now message e h = h

  unresolved-IsSound :
      (app : App F) (departure : Time) (deadline : Option Time) (summary : String)
      → IsSound (unresolved fl app departure deadline summary)
  unfolding new_envelope
  unresolved-IsSound app departure deadline summary = record {
    honest = inl refl;
    recommends = inl (λ h. ground (arith, eq_iff "not_found" "ok"));
  }

  with_points-IsSound :
      (lower : String → String) (app : App F) (input : TripOptionsInput F) (modes : List String)
      (departure : Time) (a b : Option (Point F))
      → IsSound (with_points fl lower app input modes departure a b)
  with_points-IsSound lower app input modes departure none b = unresolved-IsSound app _ _ _
  with_points-IsSound lower app input modes departure (some a) none = unresolved-IsSound app _ _ _
  with_points-IsSound lower app input modes departure (some a) (some b) =
      answer_trip-IsSound lower app _

  -- Whatever the request, the places found, the settings and the provider's answers: the envelope
  -- of `TripOptions` has no warning, or is degraded and not "ok"; and an answer that is "ok" has no
  -- warning and recommends the mode of one of its options that is eligible.
  pub trip_options-IsSound :
      (lower : String → String) (coords : Coordinates F) (resolve : PlaceRef F → Option (Point F))
      (app : App F) (input : TripOptionsInput F)
      → IsSound (trip_options fl lower coords resolve app input)
  unfolding trip_options
  trip_options-IsSound lower coords resolve app input = reject_if-IsSound _ _ _ _ (
      reject_if-IsSound _ _ _ _ (
        reject_if-IsSound _ _ _ _ (
          reject_if-IsSound _ _ _ _
            (reject_if-IsSound _ _ _ _ (with_points-IsSound lower app input _ _ _ _)))))
